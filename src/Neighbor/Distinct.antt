-- ===== src/Neighbor/Distinct.antt =====
-- Lists of neighbors in which no id stands twice.
use mathlib.Core.List.{Permᴰ}
use scalable_vector_search.Neighbor.{Neighbor}
use scalable_vector_search.Base.{
  ℕ, zero, suc, ◌≢◌, sym, ap, ◌∙◌, subst, List, [], ◌∷◌, ◌++◌, take, All, All-take, All-append,
  All-Permᴰ,
}

module _ {D M : Type 0} where
  abbrev pub IsDistinct : List (Neighbor D M) → Type 0
  IsDistinct [] = Unit
  IsDistinct (x ∷ xs) = All (λ y. y.id ≢ x.id) xs × IsDistinct xs

  pub IsDistinct-take : (k : ℕ) (xs : List (Neighbor D M)) → IsDistinct xs → IsDistinct (take k xs)
  IsDistinct-take zero xs h = tt
  IsDistinct-take (suc k) [] h = tt
  IsDistinct-take (suc k) (x ∷ xs) h = (All-take _ k xs h.0, IsDistinct-take k xs h.1)

  pub IsDistinct-concat :
      (xs : List (Neighbor D M)) (x : Neighbor D M)
      → IsDistinct xs
      → All (λ y. y.id ≢ x.id) xs
      → IsDistinct (xs ++ x ∷ [])
  IsDistinct-concat [] x d a = (tt, tt)
  IsDistinct-concat (y ∷ xs) x d a = (
    All-append (λ z. z.id ≢ y.id) xs (x ∷ []) d.0 ((λ e. a.0 (sym e)), tt),
    IsDistinct-concat xs x d.1 a.1,
  )

  pub IsDistinct-Permᴰ : {xs ys : List (Neighbor D M)} → Permᴰ xs ys → IsDistinct xs → IsDistinct ys
  IsDistinct-Permᴰ Permᴰ.nil h = tt
  IsDistinct-Permᴰ (Permᴰ.cons {l₂ = ys} e p) h =
      (subst (λ z. All (λ y. y.id ≢ z.id) ys) e (All-Permᴰ _ p h.0), IsDistinct-Permᴰ p h.1)
  IsDistinct-Permᴰ (Permᴰ.swap {a = a} {b = b} {l = l} e f) h = (
    (
      λ same.
          h.0.0 (
            ap (λ (z : Neighbor D M). z.id) f ∙ sym same ∙ ap (λ (z : Neighbor D M). z.id) (sym e)),
      subst (λ z. All (λ y. y.id ≢ z.id) l) f h.1.0,
    ),
    (subst (λ z. All (λ y. y.id ≢ z.id) l) e h.0.1, h.1.1),
  )
  IsDistinct-Permᴰ (Permᴰ.trans p q) h = IsDistinct-Permᴰ q (IsDistinct-Permᴰ p h)
