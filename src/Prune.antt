-- ===== src/Prune.antt =====
-- The choice of a vertex's neighbors from a pool of candidates: `heuristic_prune_neighbors` of
-- include/svs/index/vamana/prune.h, for the strategy that visits the pool once.
-- The distances between vertices, their comparison and their product with alpha are parameters. The
-- result holds the pool's elements; for a result of ids, `construct_as` takes their ids.
pub mod Select
pub mod Rule
pub mod Rounds
pub mod Picked
pub mod Ended
pub mod Tests
use scalable_vector_search.Neighbor.{Neighbor}
use scalable_vector_search.Base.{
  ℕ, zero, suc, Bool, true, false, not, ◌||◌, List, [], ◌∷◌, ◌++◌, length, replicate, ltb, ◌==◌,
  if◌then◌else◌,
}

module _ {D M : Type 0} (lt : D → D → Bool) (scale : D → D → D) (distance : ℕ → ℕ → D)
    (alpha : D) where
  -- Whether a kept neighbor rules a candidate out.
  unfoldable pub rules_out : Neighbor D M → Neighbor D M → Bool
  rules_out kept candidate = lt (scale alpha (distance kept.id candidate.id)) candidate.distance

  -- The inner loop, over the candidates behind the kept neighbor and their flags.
  unfoldable pub mark_pruned : Neighbor D M → List (Neighbor D M) → List Bool → List Bool
  unfolding rules_out
  mark_pruned kept [] flags = flags
  mark_pruned kept (c ∷ pool) [] = []
  mark_pruned kept (c ∷ pool) (flag ∷ flags) =
      (if flag then true else rules_out kept c) ∷ mark_pruned kept pool flags

  -- The outer loop, on the pool and its flags from `start` on.
  unfoldable pub prune_loop :
      ℕ → ℕ → List (Neighbor D M) → List Bool → List (Neighbor D M) → List (Neighbor D M)
  unfolding mark_pruned
  prune_loop max_result_size current [] flags result = result
  prune_loop max_result_size current (x ∷ pool) [] result = result
  prune_loop max_result_size current (x ∷ pool) (flag ∷ flags) result =
      elim (ltb (length result) max_result_size) [
        | false ↦ result
        | true ↦ elim (flag || x.id == current) [
          | true ↦ prune_loop max_result_size current pool flags result
          | false ↦
              prune_loop max_result_size current pool (mark_pruned x pool flags) (result ++ x ∷ [])
        ]
      ]

  -- The whole call; `result` is what the vector held before.
  unfoldable pub heuristic_prune_neighbors :
      ℕ → ℕ → List (Neighbor D M) → List (Neighbor D M) → List (Neighbor D M)
  unfolding prune_loop
  heuristic_prune_neighbors max_result_size current [] result = result
  heuristic_prune_neighbors max_result_size current (x ∷ pool) result =
      prune_loop max_result_size current (x ∷ pool) (replicate (length (x ∷ pool)) false) []
