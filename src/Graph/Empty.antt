-- ===== src/Graph/Empty.antt =====
-- `reset` and the constructor leave a graph without edges.
use scalable_vector_search.Candidates.Slots.{get_elem?-lt, get_elem?-some_lt}
use scalable_vector_search.Graph.{
  Graph, n_nodes, adjacency, get_node, clear_node, clear_nodes, reset, make_graph,
}
use scalable_vector_search.Graph.Rows.{has_id, IsRow}
use scalable_vector_search.Graph.Simple.{IsSimpleGraph, IsSimpleList}
use scalable_vector_search.Base.{
  ℕ, zero, suc, ◌+◌, ◌^◌, ◌≤◌, ◌<◌, ◌≡◌, ◌≢◌, refl, sym, ap, ◌∙◌, subst, List, [], ◌∷◌, none, some,
  ◌⊎◌, get_elem?, set, replicate, length, length-replicate, length-set, ltb, ◌==◌, arith, inl, inr,
  Bool-cases, Option-cases, some-inj, get_elem?-set_self, get_elem?-set_ne,
}

-- Every row has its slots; what is in them is open.
pub record IsTable (g : Graph) : Type 0 where
  pub slots : (i : ℕ) (row : List ℕ) → get_elem? g.rows i ≡ some row → length row ≡ g.max_degree + 1

clear_node-same :
    (i : ℕ) (g : Graph)
    → ((clear_node i g).max_degree ≡ g.max_degree) × (n_nodes (clear_node i g) ≡ n_nodes g)
unfolding clear_node n_nodes
clear_node-same i g = elim (Option-cases (get_elem? g.rows i)) [
  | inl e ↦ rw (e, clear_node) (refl, refl)
  | inr (row, e) ↦ rw (e, clear_node) (refl, length-set g.rows i (set row 0 0))
]

clear_node-row :
    (i : ℕ) (g : Graph) (row : List ℕ)
    → get_elem? g.rows i ≡ some row
    → get_elem? (clear_node i g).rows i ≡ some (set row 0 0)
unfolding clear_node
clear_node-row i g row e =
    rw (e, clear_node)
      (get_elem?-set_self g.rows i (set row 0 0) (get_elem?-some_lt g.rows i row e))

clear_node-other :
    (i j : ℕ) (g : Graph) → i ≢ j → get_elem? (clear_node i g).rows j ≡ get_elem? g.rows j
unfolding clear_node
clear_node-other i j g ne = elim (Option-cases (get_elem? g.rows i)) [
  | inl e ↦ rw (e, clear_node) refl
  | inr (row, e) ↦ rw (e, clear_node) (get_elem?-set_ne g.rows (set row 0 0) ne)
]

clear_nodes-before :
    (i count j : ℕ) (g : Graph)
    → j < i
    → get_elem? (clear_nodes i count g).rows j ≡ get_elem? g.rows j
unfolding clear_nodes
clear_nodes-before i zero j g h = refl
clear_nodes-before i (suc count) j g h =
    clear_nodes-before (i + 1) count j (clear_node i g) (omega arith)
    ∙ clear_node-other i j g (λ e. omega (arith, e))

clear_nodes-row :
    (i count j : ℕ) (g : Graph) (row : List ℕ)
    → i ≤ j
    → j < i + count
    → get_elem? g.rows j ≡ some row
    → get_elem? (clear_nodes i count g).rows j ≡ some (set row 0 0)
unfolding clear_nodes
clear_nodes-row i zero j g row h k e = absurd (omega arith)
clear_nodes-row i (suc count) j g row h k e = elim (Bool-cases (i == j)) [
  | inl same ↦
      let is : i ≡ j = ground arith in
      clear_nodes-before (i + 1) count j (clear_node i g) (omega (arith, is))
      ∙ subst (λ t. get_elem? (clear_node t g).rows j ≡ some (set row 0 0)) (sym is)
          (clear_node-row j g row e)
  | inr other ↦
      let isnt : i ≢ j = λ e. ground (arith, e) in
      clear_nodes-row (i + 1) count j (clear_node i g) row (ground (arith, isnt)) (omega arith)
        (clear_node-other i j g isnt ∙ e)
]

clear_nodes-same :
    (i count : ℕ) (g : Graph)
    → ((clear_nodes i count g).max_degree ≡ g.max_degree)
      × (n_nodes (clear_nodes i count g) ≡ n_nodes g)
unfolding clear_nodes
clear_nodes-same i zero g = (refl, refl)
clear_nodes-same i (suc count) g =
    omega (arith, clear_nodes-same (i + 1) count (clear_node i g), clear_node-same i g)

-- A row whose count was set to zero.
emptied-IsRow : (d : ℕ) (row : List ℕ) → length row ≡ d + 1 → IsRow d (set row 0 0) 0
emptied-IsRow d [] h = absurd (omega arith)
emptied-IsRow d (x ∷ row) h = record { slots = omega arith; head = refl; fits = omega arith }

-- What is promised of a graph without edges.
pub record IsEdgeless (n d : ℕ) (g : Graph) : Type 0 where
  pub nodes : n_nodes g ≡ n
  pub degree : g.max_degree ≡ d
  pub no_neighbors : (i : ℕ) → i < n → get_node g i ≡ some []
  pub simple : IsSimpleGraph g

reset-IsRow :
    (g : Graph) (i : ℕ) (row : List ℕ)
    → get_elem? (reset g).rows i ≡ some row
    → IsTable g
    → IsRow g.max_degree row 0
unfolding reset n_nodes
reset-IsRow g i row at t =
    let inside = get_elem?-some_lt (reset g).rows i row at in
    let same = clear_nodes-same 0 (n_nodes g) g in
    let (old, old_at) = get_elem?-lt g.rows i (omega (arith, inside, same)) in
    subst (λ r. IsRow g.max_degree r 0)
      (some-inj (
        sym
          (clear_nodes-row 0 (n_nodes g) i g old (omega arith) (omega (arith, inside, same)) old_at)
        ∙ at))
      (emptied-IsRow g.max_degree old (t.slots i old old_at))

reset-node : (g : Graph) (i : ℕ) → IsTable g → i < n_nodes g → get_node (reset g) i ≡ some []
unfolding reset n_nodes adjacency get_node
reset-node g i t h =
    let (old, at) = get_elem?-lt g.rows i h in
    let emptied = clear_nodes-row 0 (n_nodes g) i g old (omega arith) (omega (arith, h)) at in
    let row = emptied-IsRow g.max_degree old (t.slots i old at) in rw (emptied, get_node, row.head)

reset-same : (g : Graph) → ((reset g).max_degree ≡ g.max_degree) × (n_nodes (reset g) ≡ n_nodes g)
unfolding reset
reset-same g = clear_nodes-same 0 (n_nodes g) g

nothing-IsSimpleList : (n i : ℕ) → IsSimpleList n i []
unfolding has_id
nothing-IsSimpleList n i = record { bounded = tt; no_loop = refl; once = tt }

-- Whatever the slots of a table hold, `reset` leaves a simple graph in which no vertex has a
-- neighbor.
pub reset-IsEdgeless : (g : Graph) → IsTable g → IsEdgeless (n_nodes g) g.max_degree (reset g)
reset-IsEdgeless g t = record {
  nodes = (reset-same g).1;
  degree = (reset-same g).0;
  no_neighbors = λ i h. reset-node g i t h;
  simple = record {
    is_graph = λ i row at.
        (0, subst (λ d. IsRow d row 0) (sym (reset-same g).0) (reset-IsRow g i row at t));
    simple = λ i list h at.
        subst (IsSimpleList (n_nodes (reset g)) i)
          (some-inj (sym (reset-node g i t (omega (arith, h, reset-same g))) ∙ at))
          (nothing-IsSimpleList (n_nodes (reset g)) i);
  };
}

get_elem?-replicate :
    (n : ℕ) (row : List ℕ) (i : ℕ) (r : List ℕ) → get_elem? (replicate n row) i ≡ some r → row ≡ r
get_elem?-replicate zero row i r e = cc
get_elem?-replicate (suc n) row zero r e = some-inj e
get_elem?-replicate (suc n) row (suc i) r e = get_elem?-replicate n row i r e

-- The constructor succeeds exactly if the type of the neighbors holds the maximum degree, and then
-- leaves a simple graph of the size asked for in which no vertex has a neighbor.
pub make_graph-IsEdgeless :
    (width blank n d : ℕ)
    → (2 ^ width ≤ d) × (make_graph width blank n d ≡ none)
      ⊎ (d < 2 ^ width) × ((g : Graph) × (make_graph width blank n d ≡ some g) × IsEdgeless n d g)
unfolding make_graph n_nodes
make_graph-IsEdgeless width blank n d = elim (Bool-cases (ltb d (2 ^ width))) [
  | inl fits ↦
      let g : Graph = record { rows = replicate n (replicate (d + 1) blank); max_degree = d } in
      let table : IsTable g = record {
        slots = λ i row at.
            ap length (sym (get_elem?-replicate n (replicate (d + 1) blank) i row at))
            ∙ length-replicate (d + 1) blank;
      } in
      inr (
        ground arith,
        (
          reset g,
          rw fits,
          subst (λ k. IsEdgeless k d (reset g)) (length-replicate n (replicate (d + 1) blank))
              (reset-IsEdgeless g table),
        ),
      )
  | inr large ↦ inl (ground arith, rw large)
]
