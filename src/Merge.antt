-- ===== src/Merge.antt =====
-- `bounded_merge` of include/svs/lib/algorithms.h: the first elements of the merge of two sorted
-- ranges, as many as the output has room for.
pub mod Smallest
pub mod Tests
use scalable_vector_search.Base.{ℕ, zero, suc, Bool, true, false, List, [], ◌∷◌, Option, none, some}

module _ {A : Type 0} where
  -- `append_1` and `append_2`: an element in front of what the loop still writes.
  unfoldable pub append : A → Option (List A) → Option (List A)
  append x none = none
  append x (some output) = some (x ∷ output)

  -- The loop over an output of `room` slots; `none` is a read past the end of both inputs.
  unfoldable pub bounded_merge : (cmp : A → A → Bool) → ℕ → List A → List A → Option (List A)
  unfolding append
  bounded_merge cmp zero first1 first2 = some []
  bounded_merge cmp (suc room) [] [] = none
  bounded_merge cmp (suc room) [] (y ∷ first2) = append y (bounded_merge cmp room [] first2)
  bounded_merge cmp (suc room) (x ∷ first1) [] = append x (bounded_merge cmp room first1 [])
  bounded_merge cmp (suc room) (x ∷ first1) (y ∷ first2) = elim (cmp x y) [
    | true ↦ append x (bounded_merge cmp room first1 (y ∷ first2))
    | false ↦ append y (bounded_merge cmp room (x ∷ first1) first2)
  ]
