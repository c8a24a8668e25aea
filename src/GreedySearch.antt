-- ===== src/GreedySearch.antt =====
-- The greedy search over a graph: include/svs/index/vamana/greedy_search.h.
-- The graph, the distances to the query and the sorting function are parameters. Prefetching has no
-- effect on the result and is left out.
pub mod Held
pub mod Kept
pub mod Invariant
pub mod Loop
pub mod Ends
pub mod Seed
pub mod Entry
pub mod Result
pub mod Tests
use scalable_vector_search.Neighbor.{SearchNeighbor}
use scalable_vector_search.SearchBuffer.{
  SearchBuffer, clear, push_back, sort, done, next, insert, emplace_visited,
}
use scalable_vector_search.Base.{
  ℕ, zero, suc, Bool, true, false, List, [], ◌∷◌, Option, none, some, length, if◌then◌else◌,
}

-- A call of the tracker: the neighbor, and the number of distance computations.
pub record Visit (D : Type 0) : Type 0 where
  pub id : ℕ
  pub distance : D
  pub computations : ℕ

pub data Outcome (D : Type 0) : Type 0 where
  finished : SearchBuffer D → List (Visit D) → Outcome D
  fault out_of_fuel : Outcome D

module _ {D : Type 0} (lt : D → D → Bool) (neighbors : ℕ → List ℕ) (dist : ℕ → D)
    (by : List (SearchNeighbor D) → List (SearchNeighbor D)) where
  -- `NeighborBuilder` at the distance of the id.
  unfoldable pub build : ℕ → SearchNeighbor D
  build id = record { id = id; distance = dist id; meta = record { visited = false } }

  -- The loop over the entry points, with the calls of the tracker, the last one first.
  unfoldable pub populate :
      SearchBuffer D → List (Visit D) → List ℕ → SearchBuffer D × List (Visit D)
  unfolding build
  populate b log [] = (b, log)
  populate b log (id ∷ ids) =
      populate (push_back (build id) b)
        (record { id = id; distance = dist id; computations = 1 } ∷ log) ids

  -- The loop over the neighbors of a vertex.
  unfoldable pub expand_one : SearchBuffer D → ℕ → SearchBuffer D
  unfolding build
  expand_one b id =
      let r = emplace_visited id b in if r.1 then r.0 else (insert lt (build id) r.0).0

  unfoldable pub expand : SearchBuffer D → List ℕ → SearchBuffer D
  unfolding expand_one
  expand b [] = b
  expand b (id ∷ ids) = expand (expand_one b id) ids

  unfoldable pub search_loop : ℕ → SearchBuffer D → List (Visit D) → Outcome D
  search_loop zero b log = elim (done b) [ true ↦ finished b log | false ↦ out_of_fuel ]
  search_loop (suc fuel) b log = elim (done b) [
    | true ↦ finished b log
    | false ↦ elim (next b) [
      | none ↦ fault
      | some (b', node) ↦ search_loop fuel (expand b' (neighbors node.id)) (
          record {
            id = node.id;
            distance = node.distance;
            computations = length (neighbors node.id);
          }
          ∷ log)
    ]
  ]

  unfoldable pub greedy_search : ℕ → SearchBuffer D → List ℕ → Outcome D
  unfolding populate
  greedy_search fuel b entry_points =
      let r = populate (clear b) [] entry_points in search_loop fuel (sort by r.0) r.1
