-- ===== src/Graph/Tests.antt =====
-- A graph of three vertices with room for two neighbors, in 32-bit ids.
use scalable_vector_search.Order.{ltb-IsStrictWeak}
use scalable_vector_search.SearchBuffer.{SearchBuffer}
use scalable_vector_search.SearchBuffer.Insert.{IsShaped}
use scalable_vector_search.SearchBuffer.Tests.{insertion_sort, insertion_sort-IsSorter, neighbor}
use scalable_vector_search.GreedySearch.{Visit, finished, greedy_search}
use scalable_vector_search.GreedySearch.Result.{IsResult}
use scalable_vector_search.Graph.{
  Graph, added, bounds_exception, n_nodes, adjacency, get_node, find, has_edge, get_node_degree,
  reset, make_graph, replace_node, add_to_row, add_edge,
}
use scalable_vector_search.Graph.Rows.{has_id, IsRow}
use scalable_vector_search.Graph.Edges.{
  IsGraph, IsUpdated, with_edge, has_edge-lem, replace_node-IsUpdated, add_edge-IsUpdated,
}
use scalable_vector_search.Graph.Simple.{
  IsSimpleGraph, IsSimpleList, replace_node-IsSimple, add_edge-IsSimple,
}
use scalable_vector_search.Graph.Empty.{
  IsTable, IsEdgeless, reset-IsEdgeless, make_graph-IsEdgeless,
}
use scalable_vector_search.Graph.Search.{out_neighbors, listed, row_ids, graph_search-IsResult}
use scalable_vector_search.Candidates.{copy_backward}
use scalable_vector_search.Base.{
  All, ℕ, zero, suc, ◌+◌, ◌^◌, ◌≤◌, ◌<◌, ◌≡◌, ◌⊎◌, refl, sym, true, false, List, [], ◌∷◌, none,
  some, get_elem?, take, length, min, ltb, arith, some-inj, subst, ap,
}

-- 0 → 1, 1 → 2 and 0, 2 → nothing; the slots behind a list hold what was there before.
abbrev triangle : Graph
triangle = record {
  rows = (1 ∷ 1 ∷ 7 ∷ []) ∷ (2 ∷ 2 ∷ 0 ∷ []) ∷ (0 ∷ 9 ∷ 9 ∷ []) ∷ [];
  max_degree = 2;
}

triangle-IsGraph : IsGraph triangle
triangle-IsGraph zero row at = (
  1,
  subst (λ r. IsRow 2 r 1) (some-inj at) (record { slots = refl; head = refl; fits = omega arith }),
)
triangle-IsGraph (suc zero) row at = (
  2,
  subst (λ r. IsRow 2 r 2) (some-inj at) (record { slots = refl; head = refl; fits = omega arith }),
)
triangle-IsGraph (suc (suc zero)) row at = (
  0,
  subst (λ r. IsRow 2 r 0) (some-inj at) (record { slots = refl; head = refl; fits = omega arith }),
)
triangle-IsGraph (suc (suc (suc i))) row at = cc

triangle-lists :
    (i : ℕ) (list : List ℕ)
    → i < n_nodes triangle
    → get_node triangle i ≡ some list
    → IsSimpleList (n_nodes triangle) i list
unfolding n_nodes get_node adjacency has_id
triangle-lists zero list h at =
    subst (IsSimpleList 3 0) (some-inj at)
      (record { bounded = (omega arith, tt); no_loop = refl; once = (refl, tt) })
triangle-lists (suc zero) list h at = subst (IsSimpleList 3 1) (some-inj at) (record {
  bounded = (omega arith, (omega arith, tt));
  no_loop = refl;
  once = (refl, (refl, tt));
})
triangle-lists (suc (suc zero)) list h at =
    subst (IsSimpleList 3 2) (some-inj at) (record { bounded = tt; no_loop = refl; once = tt })
triangle-lists (suc (suc (suc i))) list h at = absurd (omega arith)

triangle-IsSimple : IsSimpleGraph triangle
triangle-IsSimple = record { is_graph = triangle-IsGraph; simple = triangle-lists }

triangle-node : get_node triangle 0 ≡ some (1 ∷ [])
unfolding get_node adjacency
triangle-node = refl

has_edge-lem_example : has_edge triangle 0 2 ≡ some (has_id 2 (1 ∷ []))
has_edge-lem_example = has_edge-lem triangle 0 2 (1 ∷ []) triangle-node

replace_node-IsUpdated_example :
    (g' : Graph) × (replace_node 32 0 (1 ∷ 2 ∷ 0 ∷ []) triangle ≡ some g')
    × IsUpdated triangle 0 (take (min 2 3) (1 ∷ 2 ∷ 0 ∷ [])) g'
unfolding n_nodes
replace_node-IsUpdated_example =
    replace_node-IsUpdated 32 triangle 0 (1 ∷ 2 ∷ 0 ∷ []) triangle-IsGraph (omega arith)
      (omega arith)

add_edge-IsUpdated_example :
    (g' : Graph) × (add_edge 32 true 0 2 triangle ≡ added g' (length (with_edge 2 0 2 (1 ∷ []))))
    × IsUpdated triangle 0 (with_edge 2 0 2 (1 ∷ [])) g'
unfolding n_nodes
add_edge-IsUpdated_example =
    add_edge-IsUpdated 32 true triangle 0 2 (1 ∷ []) triangle-IsGraph (omega arith) triangle-node
      (omega arith) (omega arith)

-- The edge is appended; an edge to a vertex that is not there is refused.
add_edge_run :
    (add_edge 32 true 0 2 triangle
      ≡ added
          (record {
            rows = (2 ∷ 1 ∷ 2 ∷ []) ∷ (2 ∷ 2 ∷ 0 ∷ []) ∷ (0 ∷ 9 ∷ 9 ∷ []) ∷ [];
            max_degree = 2;
          })
          2)
    × (add_edge 32 true 0 3 triangle ≡ bounds_exception)
unfolding add_edge n_nodes get_node_degree add_to_row find adjacency copy_backward
add_edge_run = (refl, refl)

add_edge-IsSimple_example :
    (g' : Graph) × (degree : ℕ) × (add_edge 32 true 0 2 triangle ≡ added g' degree)
    × IsSimpleGraph g'
unfolding n_nodes
add_edge-IsSimple_example =
    add_edge-IsSimple 32 true triangle 0 2 (1 ∷ []) triangle-IsSimple (omega arith) triangle-node
      (omega arith) (omega arith)

one_two-IsSimple : IsSimpleList (n_nodes triangle) 0 (2 ∷ 1 ∷ [])
unfolding n_nodes has_id
one_two-IsSimple = record {
  bounded = (omega arith, (omega arith, tt));
  no_loop = refl;
  once = (refl, (refl, tt));
}

replace_node-IsSimple_example :
    (g' : Graph) × (replace_node 32 0 (2 ∷ 1 ∷ []) triangle ≡ some g') × IsSimpleGraph g'
unfolding n_nodes
replace_node-IsSimple_example =
    replace_node-IsSimple 32 triangle 0 (2 ∷ 1 ∷ []) triangle-IsSimple (omega arith) (omega arith)
      one_two-IsSimple

triangle-IsTable : IsTable triangle
triangle-IsTable = record { slots = three_slots }
  where
    three_slots : (i : ℕ) (row : List ℕ) → get_elem? triangle.rows i ≡ some row → length row ≡ 2 + 1
    three_slots zero row at = ap length (sym (some-inj at))
    three_slots (suc zero) row at = ap length (sym (some-inj at))
    three_slots (suc (suc zero)) row at = ap length (sym (some-inj at))
    three_slots (suc (suc (suc i))) row at = cc

reset-IsEdgeless_example : IsEdgeless (n_nodes triangle) 2 (reset triangle)
reset-IsEdgeless_example = reset-IsEdgeless triangle triangle-IsTable

make_graph-IsEdgeless_example :
    (2 ^ 8 ≤ 5) × (make_graph 8 77 3 5 ≡ none)
    ⊎ (5 < 2 ^ 8) × ((g : Graph) × (make_graph 8 77 3 5 ≡ some g) × IsEdgeless 3 5 g)
make_graph-IsEdgeless_example = make_graph-IsEdgeless 8 77 3 5

abbrev small_buffer : SearchBuffer ℕ
small_buffer = record {
  size = 0;
  best_unvisited = 0;
  search_window_size = 1;
  capacity = 2;
  candidates = neighbor 0 0 false ∷ neighbor 0 0 false ∷ neighbor 0 0 false ∷ [];
  visited = none;
}

small_buffer-IsShaped : IsShaped small_buffer
small_buffer-IsShaped = record { slots = refl; fits = omega arith; window = omega arith }

abbrev away : ℕ → ℕ
away u = 10 + u

triangle-listed :
    (u : ℕ) → u < n_nodes triangle → All (λ v. v < n_nodes triangle) (listed triangle u)
unfolding n_nodes listed row_ids
triangle-listed zero h = (omega arith, tt)
triangle-listed (suc zero) h = (omega arith, (omega arith, tt))
triangle-listed (suc (suc zero)) h = tt
triangle-listed (suc (suc (suc u))) h = absurd (omega arith)

graph_search-IsResult_example :
    (b' : SearchBuffer ℕ) × (log : List (Visit ℕ)) × (greedy_search ltb
        (out_neighbors triangle)
        away
        insertion_sort
        (n_nodes triangle)
        small_buffer
        (1 ∷ [])
      ≡ finished b' log)
    × IsResult ltb away (n_nodes triangle) (listed triangle) (1 ∷ []) small_buffer b' log
unfolding n_nodes
graph_search-IsResult_example =
    graph_search-IsResult ltb away triangle insertion_sort small_buffer (1 ∷ []) triangle-listed
      (omega arith) ltb-IsStrictWeak insertion_sort-IsSorter small_buffer-IsShaped tt (refl, tt)
      (omega arith, tt) (omega arith)
