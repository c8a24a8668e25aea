-- ===== src/Graph/Search.antt =====
-- The greedy search on the graph in memory: what the search reads of the graph is what the rows list,
-- so that its result can be told from the memory.
use mathlib.Core.Path.{fun_ext}
use scalable_vector_search.Order.{IsStrictWeak}
use scalable_vector_search.Neighbor.{SearchNeighbor}
use scalable_vector_search.SearchBuffer.{SearchBuffer}
use scalable_vector_search.SearchBuffer.Insert.{IsShaped}
use scalable_vector_search.SearchBuffer.Start.{IsSorter}
use scalable_vector_search.GreedySearch.{Visit, finished, greedy_search}
use scalable_vector_search.GreedySearch.Ends.{IsNodup}
use scalable_vector_search.GreedySearch.Seed.{IsFilterSized}
use scalable_vector_search.GreedySearch.Result.{IsResult, greedy_search-IsResult}
use scalable_vector_search.Graph.{Graph, n_nodes, get_node, adjacency}
use scalable_vector_search.Base.{
  ℕ, ◌-◌, ◌^◌, ◌≤◌, ◌<◌, ◌≡◌, refl, sym, ◌∙◌, subst, Bool, List, [], ◌∷◌, none, some, get_elem?,
  take, Option-cases, All, length, inl, inr,
}

-- The adjacency list that the search reads.
unfoldable pub out_neighbors : Graph → ℕ → List ℕ
out_neighbors g u = elim (get_node g u) [ none ↦ [] | some list ↦ list ]

-- The ids that a row lists: its first slot has their number, and they follow.
unfoldable pub row_ids : List ℕ → List ℕ
row_ids [] = []
row_ids (num_neighbors ∷ slots) = take num_neighbors slots

-- The ids that the memory lists for a vertex.
unfoldable pub listed : Graph → ℕ → List ℕ
unfolding row_ids
listed g u = elim (get_elem? g.rows u) [ none ↦ [] | some row ↦ row_ids row ]

out_neighbors-row_ids :
    (g : Graph) (u : ℕ) (row : List ℕ)
    → get_elem? g.rows u ≡ some row
    → out_neighbors g u ≡ row_ids row
unfolding out_neighbors get_node adjacency row_ids
out_neighbors-row_ids g u [] at = rw (at, out_neighbors, get_node) refl
out_neighbors-row_ids g u (num_neighbors ∷ slots) at = rw (at, out_neighbors, get_node) refl

out_neighbors-listed : (g : Graph) (u : ℕ) → out_neighbors g u ≡ listed g u
unfolding listed out_neighbors get_node
out_neighbors-listed g u = elim (Option-cases (get_elem? g.rows u)) [
  | inl missing ↦ no_neighbors missing ∙ rw (missing, listed)
  | inr (row, at) ↦ out_neighbors-row_ids g u row at ∙ rw (at, listed)
]
  where
    no_neighbors : get_elem? g.rows u ≡ none → out_neighbors g u ≡ []
    no_neighbors missing = rw (missing, out_neighbors, get_node) refl

-- On a graph in memory of at most 2^32 - 2^16 vertices whose rows list vertices only, with a strict
-- weak order of distances, a sorting function and a buffer of the right sizes, a greedy search from
-- distinct vertices that the buffer has room for finishes with what a search of the listed neighbors
-- promises.
pub graph_search-IsResult :
    {D : Type 0} (lt : D → D → Bool) (dist : ℕ → D) (g : Graph)
    (by : List (SearchNeighbor D) → List (SearchNeighbor D)) (b : SearchBuffer D)
    (entry_points : List ℕ)
    → ((u : ℕ) → u < n_nodes g → All (λ v. v < n_nodes g) (listed g u))
    → n_nodes g ≤ 2 ^ 32 - 2 ^ 16
    → IsStrictWeak lt
    → IsSorter lt by
    → IsShaped b
    → IsFilterSized b.visited
    → IsNodup entry_points
    → All (λ id. id < n_nodes g) entry_points
    → length entry_points ≤ b.capacity
    → (b' : SearchBuffer D) × (log : List (Visit D)) × (greedy_search lt
          (out_neighbors g)
          dist
          by
          (n_nodes g)
          b
          entry_points
        ≡ finished b' log)
      × IsResult lt dist (n_nodes g) (listed g) entry_points b b' log
graph_search-IsResult {D} lt dist g by b entry_points bounded small order sorter w f d h room =
    subst
      (λ neighbors.
        (b' : SearchBuffer D) × (log : List (Visit D)) × (greedy_search lt neighbors dist by
            (n_nodes g) b entry_points
          ≡ finished b' log)
        × IsResult lt dist (n_nodes g) (listed g) entry_points b b' log)
      (sym (fun_ext (out_neighbors-listed g)))
      (greedy_search-IsResult lt dist (n_nodes g) (listed g) by order sorter small bounded b
        entry_points w f d h room)
