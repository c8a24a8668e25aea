-- ===== src/Graph.antt =====
-- The graph in memory: `SimpleGraphBase` of include/svs/core/graph/graph.h.
-- A row of the table is a vertex: its first slot is the number of neighbors, which stand in the
-- slots behind it. `none` and `fault` are for accesses outside the table or a row, which the source
-- leaves undefined. The neighbors' type is an unsigned integer of `width` bits.
pub mod Rows
pub mod Edges
pub mod Simple
pub mod Empty
pub mod Search
pub mod Tests
use scalable_vector_search.Candidates.{copy_backward}
use scalable_vector_search.Base.{
  ℕ, zero, suc, ◌+◌, ◌-◌, ◌%◌, ◌^◌, Bool, true, false, not, ◌&&◌, List, [], ◌∷◌, Option, none, some,
  get_elem?, set, take, drop, replicate, length, ltb, ◌==◌, if◌then◌else◌, min,
}

pub record Graph : Type 0 where
  pub rows : List (List ℕ)
  pub max_degree : ℕ

-- The graph with the reported number of neighbors; the exception of the bounds check; a fault.
pub data EdgeResult : Type 0 where
  added : Graph → ℕ → EdgeResult
  bounds_exception fault : EdgeResult

unfoldable pub n_nodes : Graph → ℕ
n_nodes g = length g.rows

-- `subspan(1, n)`.
unfoldable pub adjacency : ℕ → List ℕ → List ℕ
adjacency n row = take n (drop 1 row)

unfoldable pub get_node : Graph → ℕ → Option (List ℕ)
unfolding adjacency
get_node g i = elim (get_elem? g.rows i) [
  | none ↦ none
  | some row ↦ elim (get_elem? row 0) [
    | none ↦ none
    | some num_neighbors ↦ some (adjacency num_neighbors row)
  ]
]

-- `std::find`: the position of the first slot that holds the id, or the length.
unfoldable pub find : ℕ → List ℕ → ℕ
find id [] = 0
find id (x ∷ xs) = if x == id then 0 else suc (find id xs)

unfoldable pub has_edge : Graph → ℕ → ℕ → Option Bool
unfolding get_node find
has_edge g src dst = elim (get_node g src) [
  | none ↦ none
  | some list ↦ some (not (find dst list == length list))
]

unfoldable pub get_node_degree : Graph → ℕ → Option ℕ
get_node_degree g i = elim (get_elem? g.rows i) [ none ↦ none | some row ↦ get_elem? row 0 ]

unfoldable pub clear_node : ℕ → Graph → Graph
clear_node i g = elim (get_elem? g.rows i) [
  | none ↦ g
  | some row ↦ record g { rows = set g.rows i (set row 0 0) }
]

-- The loop of `reset` over the vertices from i on.
unfoldable pub clear_nodes : ℕ → ℕ → Graph → Graph
unfolding clear_node
clear_nodes i zero g = g
clear_nodes i (suc count) g = clear_nodes (i + 1) count (clear_node i g)

unfoldable pub reset : Graph → Graph
unfolding clear_nodes n_nodes
reset g = clear_nodes 0 (n_nodes g) g

-- `std::copy` to the slots from i on.
unfoldable pub copy_to : List ℕ → ℕ → List ℕ → List ℕ
copy_to row i [] = row
copy_to row i (x ∷ xs) = copy_to (set row i x) (i + 1) xs

module _ (width : ℕ) where
  -- The constructor; `blank` is what new memory holds, and `none` the exception of `lib::narrow`.
  unfoldable pub make_graph : ℕ → ℕ → ℕ → Option Graph
  unfolding reset
  make_graph blank num_nodes max_degree =
      if ltb max_degree (2 ^ width)
      then some (
          reset (record {
            rows = replicate num_nodes (replicate (max_degree + 1) blank);
            max_degree = max_degree;
          }))
      else none

  -- The row after `replace_node`.
  unfoldable pub replace_row : ℕ → List ℕ → List ℕ → List ℕ
  unfolding copy_to
  replace_row max_degree row new_neighbors =
      let elements_to_copy = min max_degree (length new_neighbors % 2 ^ width) in
      set (copy_to row 1 (take elements_to_copy new_neighbors)) 0 elements_to_copy

  unfoldable pub replace_node : ℕ → List ℕ → Graph → Option Graph
  unfolding replace_row
  replace_node i new_neighbors g = elim (get_elem? g.rows i) [
    | none ↦ none
    | some row ↦
        some (record g { rows = set g.rows i (replace_row g.max_degree row new_neighbors) })
  ]

  -- The row after `add_edge` and the reported number of neighbors, for a row with `current_size`
  -- neighbors. At the end of the list `*it` is not read, as `it` is the slot to fill.
  unfoldable pub add_to_row : ℕ → List ℕ → ℕ → ℕ → List ℕ × ℕ
  unfolding adjacency find
  add_to_row max_degree row current_size dst =
      if current_size == max_degree
      then (row, current_size)
      else let new_size = (current_size + 1) % 2 ^ width in
        let it = find dst (adjacency (new_size - 1) row) in
        if not (it == new_size - 1) then (row, current_size) else (
          set (set (copy_backward row (it + 1) (new_size - 1 - it)) (it + 1) dst) 0 new_size,
          new_size,
        )

  -- `checkbounds` is the build's `checkbounds_v`.
  unfoldable pub add_edge : Bool → ℕ → ℕ → Graph → EdgeResult
  unfolding get_node_degree n_nodes add_to_row
  add_edge checkbounds src dst g =
      if src == dst
      then elim (get_node_degree g src) [ none ↦ fault | some degree ↦ added g degree ]
      else if checkbounds && not (ltb dst (n_nodes g))
      then bounds_exception
      else elim (get_elem? g.rows src) [
        | none ↦ fault
        | some row ↦ elim (get_elem? row 0) [
          | none ↦ fault
          | some current_size ↦
              let r = add_to_row g.max_degree row current_size dst in
              added (record g { rows = set g.rows src r.0 }) r.1
        ]
      ]
