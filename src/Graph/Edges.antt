-- ===== src/Graph/Edges.antt =====
-- What the operations of the graph make of the adjacency lists of all vertices.
use native.Mathlib.Decide.{ℕ_discrete}
use scalable_vector_search.Candidates.Slots.{get_elem?-lt}
use scalable_vector_search.Graph.{
  Graph, added, n_nodes, adjacency, get_node, has_edge, get_node_degree, clear_node, replace_row,
  replace_node, add_to_row, add_edge,
}
use scalable_vector_search.Graph.Rows.{
  has_id, find-has_id, IsRow, replace_row-IsRow, length-adjacency, add_to_row-kept,
  add_to_row-added,
}
use scalable_vector_search.Base.{
  ℕ, ◌+◌, ◌^◌, ◌<◌, ◌≡◌, ◌≢◌, refl, sym, ap, ◌∙◌, subst, Bool, true, false, not, ◌&&◌, ◌||◌, List,
  [], ◌∷◌, ◌++◌, some, get_elem?, set, take, length, ltb, ◌==◌, if◌then◌else◌, min, arith, inl, inr,
  Bool-cases, length-set, length-append, some-inj, get_elem?-set_self, get_elem?-set_ne,
}

-- Every row of the table is one.
abbrev pub IsGraph : Graph → Type 0
IsGraph g =
    (i : ℕ) (row : List ℕ)
    → get_elem? g.rows i ≡ some row
    → (degree : ℕ) × IsRow g.max_degree row degree

-- The graph g' is g with the adjacency list `list` at vertex i.
pub record IsUpdated (g : Graph) (i : ℕ) (list : List ℕ) (g' : Graph) : Type 0 where
  pub here : get_node g' i ≡ some list
  pub others : (j : ℕ) → i ≢ j → get_node g' j ≡ get_node g j
  pub same_nodes : n_nodes g' ≡ n_nodes g
  pub same_max_degree : g'.max_degree ≡ g.max_degree
  pub is_graph : IsGraph g'

pub get_node-row :
    (g : Graph) (i : ℕ) (row : List ℕ) (degree : ℕ)
    → get_elem? g.rows i ≡ some row
    → get_elem? row 0 ≡ some degree
    → get_node g i ≡ some (adjacency degree row)
unfolding get_node
get_node-row g i row degree at head = rw (at, get_node, head)

get_node-same :
    (g g' : Graph) (j : ℕ) → get_elem? g'.rows j ≡ get_elem? g.rows j → get_node g' j ≡ get_node g j
unfolding get_node
get_node-same g g' j e = rw (e, get_node)

-- The row of a vertex.
pub node-IsRow :
    (g : Graph) (i : ℕ)
    → IsGraph g
    → i < n_nodes g
    → (row : List ℕ) × (degree : ℕ) × (get_elem? g.rows i ≡ some row)
      × IsRow g.max_degree row degree
      × (get_node g i ≡ some (adjacency degree row))
unfolding n_nodes get_node
node-IsRow g i w h =
    let (row, at) = get_elem?-lt g.rows i h in
    let (degree, r) = w i row at in (row, degree, at, r, get_node-row g i row degree at r.head)

set_row-IsUpdated :
    (g : Graph) (i : ℕ) (row' : List ℕ) (degree' : ℕ)
    → IsGraph g
    → i < n_nodes g
    → IsRow g.max_degree row' degree'
    → IsUpdated g i (adjacency degree' row') (record g { rows = set g.rows i row' })
unfolding n_nodes get_node
set_row-IsUpdated g i row' degree' w h r = record {
  here =
      get_node-row (record g { rows = set g.rows i row' }) i row' degree'
        (get_elem?-set_self g.rows i row' h) r.head;
  others = λ j ne.
      get_node-same g (record g { rows = set g.rows i row' }) j (get_elem?-set_ne g.rows row' ne);
  same_nodes = length-set g.rows i row';
  same_max_degree = refl;
  is_graph = λ j row at. elim (ℕ_discrete i j) [
    | yes same ↦
        let at_i : get_elem? (set g.rows i row') i ≡ some row =
          subst (λ k. get_elem? (set g.rows i row') k ≡ some row) (sym same) at in
        (
          degree',
          subst (λ s. IsRow g.max_degree s degree')
              (some-inj (sym (get_elem?-set_self g.rows i row' h) ∙ at_i)) r,
        )
    | no other ↦ w j row (sym (get_elem?-set_ne g.rows row' other) ∙ at)
  ];
}

-- Nothing changed.
same-IsUpdated :
    (g : Graph) (i : ℕ) (list : List ℕ)
    → IsGraph g
    → get_node g i ≡ some list
    → IsUpdated g i list g
same-IsUpdated g i list w e = record {
  here = e;
  others = λ j ne. refl;
  same_nodes = refl;
  same_max_degree = refl;
  is_graph = w;
}

-- `has_edge` looks the id up in the adjacency list.
pub has_edge-lem :
    (g : Graph) (src dst : ℕ) (list : List ℕ)
    → get_node g src ≡ some list
    → has_edge g src dst ≡ some (has_id dst list)
unfolding has_edge
has_edge-lem g src dst list e = rw (e, has_edge) (ap some (find-has_id dst list))

-- What an adjacency list is after `add_edge`.
abbrev pub with_edge : ℕ → ℕ → ℕ → List ℕ → List ℕ
with_edge max_degree src dst list =
    if src == dst || (length list == max_degree || has_id dst list) then list else list ++ dst ∷ []

-- `clear_node` empties the adjacency list.
pub clear_node-IsUpdated :
    (g : Graph) (i : ℕ) → IsGraph g → i < n_nodes g → IsUpdated g i [] (clear_node i g)
unfolding clear_node adjacency
clear_node-IsUpdated g i w h =
    let (row, degree, at, r, is_node) = node-IsRow g i w h in
    rw (at, clear_node) (set_row-IsUpdated g i (set row 0 0) 0 w h (cleared-IsRow row degree r))
  where
    cleared-IsRow :
        (row : List ℕ) (degree : ℕ)
        → IsRow g.max_degree row degree
        → IsRow g.max_degree (set row 0 0) 0
    cleared-IsRow [] degree r = absurd (omega (arith, r.slots))
    cleared-IsRow (d ∷ slots) degree r = record {
      slots = omega (arith, r.slots);
      head = refl;
      fits = omega arith;
    }

module _ (width : ℕ) where
  -- On a graph whose rows have their shape, `replace_node` of a vertex with fewer than 2^width new
  -- neighbors leaves the first `max_degree` of them as its adjacency list and all else as it was.
  pub replace_node-IsUpdated :
      (g : Graph) (i : ℕ) (new_neighbors : List ℕ)
      → IsGraph g
      → i < n_nodes g
      → length new_neighbors < 2 ^ width
      → (g' : Graph) × (replace_node width i new_neighbors g ≡ some g')
        × IsUpdated g i (take (min g.max_degree (length new_neighbors)) new_neighbors) g'
  unfolding replace_node
  replace_node-IsUpdated g i ns w h small =
      let (row, degree, at, r, is_node) = node-IsRow g i w h in
      let (shaped, items) = replace_row-IsRow width g.max_degree row degree ns r small in
      (
        record g { rows = set g.rows i (replace_row width g.max_degree row ns) },
        rw (at, replace_node),
        rw (sym items) (
            set_row-IsUpdated g i (replace_row width g.max_degree row ns)
              (min g.max_degree (length ns)) w h shaped),
      )

  add_edge_room :
      (checkbounds : Bool) (src dst : ℕ) (g : Graph) (row : List ℕ) (degree : ℕ)
      → dst < n_nodes g
      → (src == dst) ≡ false
      → get_elem? g.rows src ≡ some row
      → get_elem? row 0 ≡ some degree
      → let r = add_to_row width g.max_degree row degree dst in
        add_edge width checkbounds src dst g ≡ added (record g { rows = set g.rows src r.0 }) r.1
  unfolding add_edge
  add_edge_room checkbounds src dst g row degree h ne at head =
      let inside : (checkbounds && not (ltb dst (n_nodes g))) ≡ false = ground arith in
      rw (ne, add_edge, inside, at, head)

  add_edge_loop :
      (checkbounds : Bool) (src dst : ℕ) (g : Graph) (row : List ℕ) (degree : ℕ)
      → (src == dst) ≡ true
      → get_elem? g.rows src ≡ some row
      → get_elem? row 0 ≡ some degree
      → add_edge width checkbounds src dst g ≡ added g degree
  unfolding add_edge get_node_degree
  add_edge_loop checkbounds src dst g row degree loop at head = rw (loop, add_edge, at, head)

  -- On a graph whose rows have their shape and whose degree the type holds, `add_edge` between two
  -- vertices appends the edge, unless it is a loop, the list is full or the edge is there; it
  -- reports the length of the list and leaves all else as it was.
  pub add_edge-IsUpdated :
      (checkbounds : Bool) (g : Graph) (src dst : ℕ) (list : List ℕ)
      → IsGraph g
      → g.max_degree < 2 ^ width
      → get_node g src ≡ some list
      → src < n_nodes g
      → dst < n_nodes g
      → (g' : Graph) × (add_edge width checkbounds src dst g
          ≡ added g' (length (with_edge g.max_degree src dst list)))
        × IsUpdated g src (with_edge g.max_degree src dst list) g'
  add_edge-IsUpdated checkbounds g src dst list w small e s d =
      let (row, degree, at, r, is_node) = node-IsRow g src w s in
      let is_list : adjacency degree row ≡ list = some-inj (sym is_node ∙ e) in
      let count : length list ≡ degree =
        ap length (sym is_list) ∙ length-adjacency width g.max_degree row degree r in
      elim (Bool-cases (src == dst)) [
        | inl loop ↦ rw loop (
          g,
          add_edge_loop checkbounds src dst g row degree loop at r.head ∙ ap (added g) (sym count),
          same-IsUpdated g src list w e,
        )
        | inr ne ↦
            let in_row = add_edge_room checkbounds src dst g row degree d ne at r.head in
            let result = add_to_row width g.max_degree row degree dst in
            let g' : Graph = record g { rows = set g.rows src result.0 } in
            elim (Bool-cases (degree == g.max_degree || has_id dst (adjacency degree row))) [
              | inl stop ↦
                  let stays : (length list == g.max_degree || has_id dst list) ≡ true =
                    rw (count, ← is_list) stop in
                  let kept = add_to_row-kept width g.max_degree row degree dst r small stop in
                  rw (ne, stays)
                    (
                      g',
                      in_row ∙ ap (added g') (ap (λ (z : List ℕ × ℕ). z.1) kept ∙ sym count),
                      subst (λ xs. IsUpdated g src xs g')
                          (ap (λ (z : List ℕ × ℕ). adjacency degree z.0) kept ∙ is_list)
                          (set_row-IsUpdated g src result.0 degree w s (
                            subst (λ (z : List ℕ × ℕ). IsRow g.max_degree z.0 degree) (sym kept)
                              r)),
                    )
              | inr go ↦
                  let more : (length list == g.max_degree || has_id dst list) ≡ false =
                    rw (count, ← is_list) go in
                  let (reported, shaped, items) =
                    add_to_row-added width g.max_degree row degree dst r small go in
                  rw (ne, more)
                    (
                      g',
                      in_row
                          ∙ ap (added g')
                              (omega (arith, reported, count, length-append list (dst ∷ []))),
                      subst (λ xs. IsUpdated g src xs g')
                          (items ∙ ap (λ xs. xs ++ dst ∷ []) is_list)
                          (set_row-IsUpdated g src result.0 (degree + 1) w s shaped),
                    )
            ]
      ]
