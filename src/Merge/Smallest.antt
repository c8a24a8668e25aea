-- ===== src/Merge/Smallest.antt =====
-- A bounded merge writes the smallest elements of its inputs, in order.
use mathlib.Core.List.{Permᴰ}
use mathlib.Core.List.Permᴰ
use scalable_vector_search.Order.{IsStrictWeak}
use scalable_vector_search.Merge.{append, bounded_merge}
use scalable_vector_search.Base.{
  ℕ, zero, suc, ◌+◌, ◌≤◌, ◌≡◌, refl, ap, Bool, true, false, List, [], ◌∷◌, ◌++◌, some, length,
  arith, inl, inr, Bool-cases, All, All-map, All-append, All-Permᴰ,
}

module _ {A : Type 0} (cmp : A → A → Bool) where
  -- No element comes before an earlier one.
  abbrev pub IsOrdered : List A → Type 0
  IsOrdered [] = Unit
  IsOrdered (x ∷ xs) = All (λ y. cmp y x ≡ false) xs × IsOrdered xs

  -- The output has `room` elements of the two inputs, in order, and none of those that are left over
  -- comes before one of them.
  pub record IsMerged (room : ℕ) (first1 first2 output : List A) : Type 0 where
    pub left_over : List A
    pub count : length output ≡ room
    pub ordered : IsOrdered output
    pub least : All (λ o. All (λ r. cmp r o ≡ false) left_over) output
    pub rearranged : Permᴰ (output ++ left_over) (first1 ++ first2)

  All-parts : (P : A → Type 0) (xs ys : List A) → All P (xs ++ ys) → All P xs × All P ys
  All-parts P [] ys h = (tt, h)
  All-parts P (x ∷ xs) ys h = let r = All-parts P xs ys h.1 in ((h.0, r.0), r.1)

  -- An element that nothing of the inputs comes before, in front of the merge of the rest.
  IsMerged-in_front :
      (room : ℕ) (x : A) (first1 first2 rest1 rest2 output : List A)
      → All (λ z. cmp z x ≡ false) (rest1 ++ rest2)
      → Permᴰ (x ∷ (rest1 ++ rest2)) (first1 ++ first2)
      → IsMerged room rest1 rest2 output
      → IsMerged (suc room) first1 first2 (x ∷ output)
  IsMerged-in_front room x first1 first2 rest1 rest2 output below p r =
      let parts =
        All-parts (λ z. cmp z x ≡ false) output r.left_over
          (All-Permᴰ (λ z. cmp z x ≡ false) (Permᴰ.symm r.rearranged) below) in
      record {
        left_over = r.left_over;
        count = ap suc r.count;
        ordered = (parts.0, r.ordered);
        least = (parts.1, r.least);
        rearranged = Permᴰ.trans (Permᴰ.cons refl r.rearranged) p;
      }

  module _ (order : IsStrictWeak cmp) where
    first1_below :
        (x y : A) (first1 first2 : List A)
        → IsOrdered (x ∷ first1)
        → IsOrdered (y ∷ first2)
        → cmp x y ≡ true
        → All (λ z. cmp z x ≡ false) (first1 ++ y ∷ first2)
    first1_below x y first1 first2 o1 o2 less =
        All-append (λ z. cmp z x ≡ false) first1 (y ∷ first2) o1.0
          (
            order.asym x y less,
            All-map (λ z. cmp z y ≡ false) (λ z. cmp z x ≡ false)
                (λ z h. order.neg_trans z y x h (order.asym x y less)) first2 o2.0,
          )

    first2_below :
        (x y : A) (first1 first2 : List A)
        → IsOrdered (x ∷ first1)
        → IsOrdered (y ∷ first2)
        → cmp x y ≡ false
        → All (λ z. cmp z y ≡ false) ((x ∷ first1) ++ first2)
    first2_below x y first1 first2 o1 o2 no_less =
        All-append (λ z. cmp z y ≡ false) (x ∷ first1) first2
          (
            no_less,
            All-map (λ z. cmp z x ≡ false) (λ z. cmp z y ≡ false)
                (λ z h. order.neg_trans z x y h no_less) first1 o1.0,
          )
          o2.0

    -- For elements in a strict weak order, on two ordered inputs with an element for every slot of the
    -- output: the merge finishes with the output full of their smallest elements, in order.
    pub bounded_merge-IsMerged :
        (room : ℕ) (first1 first2 : List A)
        → IsOrdered first1
        → IsOrdered first2
        → room ≤ length first1 + length first2
        → (output : List A) × (bounded_merge cmp room first1 first2 ≡ some output)
          × IsMerged room first1 first2 output
    unfolding bounded_merge append
    bounded_merge-IsMerged zero first1 first2 o1 o2 enough = (
      [],
      refl,
      record {
        left_over = first1 ++ first2;
        count = refl;
        ordered = tt;
        least = tt;
        rearranged = Permᴰ.refl (first1 ++ first2);
      },
    )
    bounded_merge-IsMerged (suc room) [] [] o1 o2 enough = absurd (omega arith)
    bounded_merge-IsMerged (suc room) [] (y ∷ first2) o1 o2 enough =
        let (output, runs, r) = bounded_merge-IsMerged room [] first2 tt o2.1 (omega arith) in
        (
          y ∷ output,
          ap (append y) runs,
          IsMerged-in_front room y [] (y ∷ first2) [] first2 output o2.0 (Permᴰ.refl (y ∷ first2))
              r,
        )
    bounded_merge-IsMerged (suc room) (x ∷ first1) [] o1 o2 enough =
        let (output, runs, r) = bounded_merge-IsMerged room first1 [] o1.1 tt (omega arith) in
        (
          x ∷ output,
          ap (append x) runs,
          IsMerged-in_front room x (x ∷ first1) [] first1 [] output
              (All-append (λ z. cmp z x ≡ false) first1 [] o1.0 tt)
              (Permᴰ.refl (x ∷ (first1 ++ []))) r,
        )
    bounded_merge-IsMerged (suc room) (x ∷ first1) (y ∷ first2) o1 o2 enough =
        elim (Bool-cases (cmp x y)) [
          | inl less ↦
              let (output, runs, r) =
                bounded_merge-IsMerged room first1 (y ∷ first2) o1.1 o2 (omega arith) in
              (
                x ∷ output,
                rw (less, bounded_merge) (ap (append x) runs),
                IsMerged-in_front room x (x ∷ first1) (y ∷ first2) first1 (y ∷ first2) output
                    (first1_below x y first1 first2 o1 o2 less)
                    (Permᴰ.refl (x ∷ (first1 ++ y ∷ first2))) r,
              )
          | inr no_less ↦
              let (output, runs, r) =
                bounded_merge-IsMerged room (x ∷ first1) first2 o1 o2.1 (omega arith) in
              (
                y ∷ output,
                rw (no_less, bounded_merge) (ap (append y) runs),
                IsMerged-in_front room y (x ∷ first1) (y ∷ first2) (x ∷ first1) first2 output
                    (first2_below x y first1 first2 o1 o2 no_less)
                    (Permᴰ.symm (Permᴰ.middle y (x ∷ first1) first2)) r,
              )
        ]
