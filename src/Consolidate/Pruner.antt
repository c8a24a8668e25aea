-- ===== src/Consolidate/Pruner.antt =====
-- The strategies of include/svs/index/vamana/prune.h for a result of ids, as the consolidation calls
-- them: the vector of the result holds ids, and an empty pool leaves it as it was.
use scalable_vector_search.Neighbor.Distinct.{IsDistinct}
use scalable_vector_search.Prune.Rounds.{Strategy, prune_by}
use scalable_vector_search.Prune.Picked.{IsStrategy}
use scalable_vector_search.Prune.Ended.{IsEnough, prune_by-IsPicked}
use scalable_vector_search.Consolidate.{Candidate}
use scalable_vector_search.Consolidate.Generated.{IsPruner}
use scalable_vector_search.Base.{
  ℕ, ◌≤◌, ◌≡◌, refl, Bool, List, [], ◌∷◌, Option, some, none, map, length, length-map, arith, All,
}

module _ {D : Type 0} (s : Strategy D (Unit {0})) (lt : D → D → Bool) (times : D → D → D)
    (is_one : D → Bool) (alpha one : D) (fuel limit : ℕ) where
  unfoldable pub prune_ids : ℕ → List (Candidate D) → List ℕ → Option (List ℕ)
  unfolding prune_by
  prune_ids src [] result = some result
  prune_ids src (x ∷ pool) result =
      elim (prune_by s lt times is_one alpha fuel one limit src (x ∷ pool) []) [
        | none ↦ none
        | some found ↦ some (map (λ n. n.id) found)
      ]

  All-ids :
      (P : ℕ → Type 0) (found : List (Candidate D))
      → All (λ x. P x.id) found
      → All P (map (λ n. n.id) found)
  All-ids P [] h = tt
  All-ids P (x ∷ found) h = (h.0, All-ids P found h.1)

  prune_ids_found :
      (src : ℕ) (x : Candidate D) (pool found : List (Candidate D)) (old : List ℕ)
      → prune_by s lt times is_one alpha fuel one limit src (x ∷ pool) [] ≡ some found
      → prune_ids src (x ∷ pool) old ≡ some (map (λ n. n.id) found)
  unfolding prune_ids
  prune_ids_found src x pool found old e = rw (e, prune_ids) refl

  -- A strategy whose rounds end is one that the consolidation can use.
  pub prune_ids-IsPruner :
      (law : IsStrategy s lt alpha)
      → IsEnough s lt times is_one alpha law fuel one
      → IsPruner limit prune_ids
  unfolding prune_ids
  prune_ids-IsPruner law enough = record {
    prunes = λ src pool old d fits. prunes src pool old d fits;
  }
    where
      prunes :
          (src : ℕ) (pool : List (Candidate D)) (old : List ℕ)
          → IsDistinct pool
          → length old ≤ limit
          → (chosen : List ℕ) × (prune_ids src pool old ≡ some chosen)
            × (length chosen ≤ limit)
            × ((P : ℕ → Type 0) → All (λ x. P x.id) pool → All P old → All P chosen)
      prunes src [] old d fits = (old, refl, fits, λ P p q. q)
      prunes src (x ∷ pool) old d fits =
          let (found, runs, k) =
            prune_by-IsPicked s lt times is_one alpha law fuel one limit src x pool [] d enough in
          (
            map (λ n. n.id) found,
            prune_ids_found src x pool found old runs,
            omega (arith, k.bounded, length-map found (λ n. n.id)),
            λ P p q. All-ids P found (k.from_pool (λ n. P n.id) p),
          )
