-- ===== src/Merge/Tests.antt =====
-- Merges of whole numbers.
use scalable_vector_search.Order.{ltb-IsStrictWeak}
use scalable_vector_search.Merge.{append, bounded_merge}
use scalable_vector_search.Merge.Smallest.{IsMerged, bounded_merge-IsMerged}
use scalable_vector_search.Base.{ℕ, ◌≡◌, refl, List, [], ◌∷◌, none, some, ltb, arith}

abbrev odd : List ℕ
odd = 1 ∷ 3 ∷ 7 ∷ []

abbrev mixed : List ℕ
mixed = 2 ∷ 3 ∷ 4 ∷ []

bounded_merge_run : bounded_merge ltb 4 odd mixed ≡ some (1 ∷ 2 ∷ 3 ∷ 3 ∷ [])
unfolding bounded_merge append
bounded_merge_run = refl

-- An output with more room than the inputs have elements.
bounded_merge_overrun : bounded_merge ltb 2 (1 ∷ []) [] ≡ none
unfolding bounded_merge append
bounded_merge_overrun = refl

bounded_merge-IsMerged_example :
    (output : List ℕ) × (bounded_merge ltb 4 odd mixed ≡ some output)
    × IsMerged ltb 4 odd mixed output
bounded_merge-IsMerged_example =
    bounded_merge-IsMerged ltb ltb-IsStrictWeak 4 odd mixed
      (((refl, (refl, tt))), ((refl, tt), (tt, tt))) (((refl, (refl, tt))), ((refl, tt), (tt, tt)))
      (omega arith)
