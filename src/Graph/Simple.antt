-- ===== src/Graph/Simple.antt =====
-- The graph stays simple: edges to vertices only, none of them a loop, none twice.
use native.Mathlib.Decide.{ℕ_discrete}
use scalable_vector_search.Graph.{Graph, added, n_nodes, get_node, replace_node, add_edge}
use scalable_vector_search.Graph.Rows.{has_id}
use scalable_vector_search.Graph.Edges.{
  IsGraph, IsUpdated, with_edge, replace_node-IsUpdated, add_edge-IsUpdated,
}
use scalable_vector_search.Base.{
  ℕ, zero, suc, ◌^◌, ◌<◌, ◌≡◌, refl, sym, ◌∙◌, subst, Bool, false, ◌||◌, List, [], ◌∷◌, ◌++◌, some,
  take, length, ◌==◌, min, arith, inl, inr, Bool-cases, some-inj, All, All-take, All-append,
}

-- No id twice.
abbrev pub IsOnce : List ℕ → Type 0
IsOnce [] = Unit
IsOnce (x ∷ xs) = (has_id x xs ≡ false) × IsOnce xs

-- An adjacency list of vertex i in a graph of n vertices.
pub record IsSimpleList (n i : ℕ) (list : List ℕ) : Type 0 where
  pub bounded : All (λ v. v < n) list
  pub no_loop : has_id i list ≡ false
  pub once : IsOnce list

pub record IsSimpleGraph (g : Graph) : Type 0 where
  pub is_graph : IsGraph g
  pub simple :
      (i : ℕ) (list : List ℕ)
      → i < n_nodes g
      → get_node g i ≡ some list
      → IsSimpleList (n_nodes g) i list

has_id-take : (id k : ℕ) (xs : List ℕ) → has_id id xs ≡ false → has_id id (take k xs) ≡ false
unfolding has_id
has_id-take id zero xs h = refl
has_id-take id (suc k) [] h = refl
has_id-take id (suc k) (x ∷ xs) h = ground (arith, has_id-take id k xs)

IsOnce-take : (k : ℕ) (xs : List ℕ) → IsOnce xs → IsOnce (take k xs)
IsOnce-take zero xs h = tt
IsOnce-take (suc k) [] h = tt
IsOnce-take (suc k) (x ∷ xs) h = (has_id-take x k xs h.0, IsOnce-take k xs h.1)

has_id-concat :
    (id x : ℕ) (xs : List ℕ)
    → (x == id) ≡ false
    → has_id id xs ≡ false
    → has_id id (xs ++ x ∷ []) ≡ false
unfolding has_id
has_id-concat id x [] e h = ground arith
has_id-concat id x (y ∷ xs) e h = ground (arith, has_id-concat id x xs e)

IsOnce-concat : (x : ℕ) (xs : List ℕ) → has_id x xs ≡ false → IsOnce xs → IsOnce (xs ++ x ∷ [])
unfolding has_id
IsOnce-concat x [] h o = (refl, tt)
IsOnce-concat x (y ∷ xs) h o =
    (has_id-concat y x xs (ground arith) o.0, IsOnce-concat x xs (ground arith) o.1)

IsSimpleList-take :
    (n i k : ℕ) (list : List ℕ) → IsSimpleList n i list → IsSimpleList n i (take k list)
IsSimpleList-take n i k list s = record {
  bounded = All-take _ k list s.bounded;
  no_loop = has_id-take i k list s.no_loop;
  once = IsOnce-take k list s.once;
}

IsSimpleList-with_edge :
    (n max_degree src dst : ℕ) (list : List ℕ)
    → dst < n
    → IsSimpleList n src list
    → IsSimpleList n src (with_edge max_degree src dst list)
IsSimpleList-with_edge n max_degree src dst list h s =
    elim (Bool-cases (src == dst || (length list == max_degree || has_id dst list))) [
      | inl stay ↦ rw stay s
      | inr more ↦ rw more (record {
        bounded = All-append _ list (dst ∷ []) s.bounded (h, tt);
        no_loop = has_id-concat src dst list (ground arith) s.no_loop;
        once = IsOnce-concat dst list (ground arith) s.once;
      })
    ]

IsUpdated-IsSimple :
    (g : Graph) (i : ℕ) (list : List ℕ) (g' : Graph)
    → IsSimpleGraph g
    → IsSimpleList (n_nodes g) i list
    → IsUpdated g i list g'
    → IsSimpleGraph g'
IsUpdated-IsSimple g i list g' s new u = record {
  is_graph = u.is_graph;
  simple = λ j xs h at. rw u.same_nodes (elim (ℕ_discrete i j) [
    | yes same ↦
        subst (λ k. IsSimpleList (n_nodes g) k xs) same
          (subst (IsSimpleList (n_nodes g) i)
            (some-inj (sym u.here ∙ subst (λ k. get_node g' k ≡ some xs) (sym same) at)) new)
    | no other ↦ s.simple j xs (omega (arith, u.same_nodes, h)) (sym (u.others j other) ∙ at)
  ]);
}

module _ (width : ℕ) where
  -- On a simple graph, `replace_node` by a list of fewer than 2^width distinct other vertices succeeds and leaves a
  -- simple graph, also if it drops some of them.
  pub replace_node-IsSimple :
      (g : Graph) (i : ℕ) (new_neighbors : List ℕ)
      → IsSimpleGraph g
      → i < n_nodes g
      → length new_neighbors < 2 ^ width
      → IsSimpleList (n_nodes g) i new_neighbors
      → (g' : Graph) × (replace_node width i new_neighbors g ≡ some g') × IsSimpleGraph g'
  replace_node-IsSimple g i ns s h small new =
      let (g', runs, u) = replace_node-IsUpdated width g i ns s.is_graph h small in
      (
        g',
        runs,
        IsUpdated-IsSimple g i (take (min g.max_degree (length ns)) ns) g' s
            (IsSimpleList-take (n_nodes g) i (min g.max_degree (length ns)) ns new) u,
      )

  -- On a simple graph whose maximum degree the type of the neighbors holds, `add_edge` between two
  -- vertices, equal or not, the edge there or not, succeeds and leaves a simple graph.
  pub add_edge-IsSimple :
      (checkbounds : Bool) (g : Graph) (src dst : ℕ) (list : List ℕ)
      → IsSimpleGraph g
      → g.max_degree < 2 ^ width
      → get_node g src ≡ some list
      → src < n_nodes g
      → dst < n_nodes g
      → (g' : Graph) × (degree : ℕ) × (add_edge width checkbounds src dst g ≡ added g' degree)
        × IsSimpleGraph g'
  add_edge-IsSimple checkbounds g src dst list s small e h d =
      let (g', runs, u) =
        add_edge-IsUpdated width checkbounds g src dst list s.is_graph small e h d in
      (
        g',
        length (with_edge g.max_degree src dst list),
        runs,
        IsUpdated-IsSimple g src (with_edge g.max_degree src dst list) g' s
            (IsSimpleList-with_edge (n_nodes g) g.max_degree src dst list d (s.simple src list h e))
            u,
      )
