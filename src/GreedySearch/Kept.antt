-- ===== src/GreedySearch/Kept.antt =====
-- Predicates of the elements of the buffer that insertions and `next` keep.
use scalable_vector_search.Order.{IsStrictWeak, lt_irrefl}
use scalable_vector_search.Neighbor.{SearchNeighbor, set_visited}
use scalable_vector_search.Neighbor.Distinct.{IsDistinct, IsDistinct-take}
use scalable_vector_search.Candidates.{position, insert_at}
use scalable_vector_search.Candidates.Slots.{take-insert_at, take_all}
use scalable_vector_search.Candidates.Sorted.{repeated, position-beyond, All-insert_at}
use scalable_vector_search.SearchBuffer.{SearchBuffer, view, insert}
use scalable_vector_search.SearchBuffer.Insert.{length-view}
use scalable_vector_search.SearchBuffer.Invariant.{IsReady, insert_cases}
use scalable_vector_search.GreedySearch.Held.{Held, IsPriced}
use scalable_vector_search.Base.{
  All-set, ℕ, zero, suc, ◌≡◌, ◌≢◌, sym, ap, ◌∙◌, subst, Bool, false, List, [], ◌∷◌, some, get_elem?,
  arith, inl, inr, All, All-take, All-get_elem?, set, some-inj,
}

module _ {D : Type 0} where
  module _ (lt : D → D → Bool) where
    IsDistinct-insert_at :
        (i : ℕ) (n : SearchNeighbor D) (xs : List (SearchNeighbor D))
        → All (λ y. y.id ≢ n.id) xs
        → IsDistinct xs
        → IsDistinct (insert_at i n xs)
    unfolding insert_at
    IsDistinct-insert_at zero n xs a h = (a, h)
    IsDistinct-insert_at (suc i) n [] a h = (tt, tt)
    IsDistinct-insert_at (suc i) n (x ∷ xs) a h = (
      All-insert_at lt (λ y. y.id ≢ x.id) i n xs (λ e. a.0 (sym e)) h.0,
      IsDistinct-insert_at i n xs a.1 h.1,
    )

    pub IsDistinct-set_visited :
        (xs : List (SearchNeighbor D)) (i : ℕ) (n : SearchNeighbor D)
        → get_elem? xs i ≡ some n
        → IsDistinct xs
        → IsDistinct (set xs i (set_visited n))
    IsDistinct-set_visited [] i n e h = tt
    IsDistinct-set_visited (x ∷ xs) zero n e h =
        subst (λ (z : SearchNeighbor D). All (λ y. y.id ≢ z.id) xs × IsDistinct xs) (some-inj e) h
    IsDistinct-set_visited (x ∷ xs) (suc i) n e h = (
      All-set _ xs i (set_visited n) (All-get_elem? (λ y. y.id ≢ x.id) xs i n h.0 e) h.0,
      IsDistinct-set_visited xs i n e h.1,
    )

    module _ (dist : ℕ → D) (order : IsStrictWeak lt) where
      -- Where equal ids have equal distances, what repeats nothing has a new id.
      ids-new :
          (n : SearchNeighbor D) (xs : List (SearchNeighbor D))
          → IsPriced lt dist n
          → All (IsPriced lt dist) xs
          → repeated lt n xs ≡ false
          → All (λ y. y.id ≢ n.id) xs
      unfolding repeated
      ids-new n [] p h e = tt
      ids-new n (x ∷ xs) p h e = (
        λ same.
            let level : x.distance ≡ n.distance = h.0 ∙ ap dist same ∙ sym p in
            ground (arith, level, same, lt_irrefl lt order n.distance),
        ids-new n xs p h.1 (ground arith),
      )

      pub insert-All :
          (P : SearchNeighbor D → Type 0) (b : SearchBuffer D) (n : SearchNeighbor D)
          → IsReady lt b
          → P n
          → All P (view b)
          → All P (view (insert lt n b).0)
      insert-All P b n r p h = elim (insert_cases lt order b n r.shaped r.sorted) [
        | inl e ↦ rw e h
        | inr placed ↦
            rw placed.items (All-take P b.capacity _ (All-insert_at lt P _ n (view b) p h))
      ]

      pub insert-IsDistinct :
          (b : SearchBuffer D) (n : SearchNeighbor D)
          → IsReady lt b
          → IsPriced lt dist n
          → All (IsPriced lt dist) (view b)
          → IsDistinct (view b)
          → IsDistinct (view (insert lt n b).0)
      insert-IsDistinct b n r p priced h = elim (insert_cases lt order b n r.shaped r.sorted) [
        | inl e ↦ rw e h
        | inr placed ↦ rw placed.items (
            IsDistinct-take b.capacity _
              (IsDistinct-insert_at _ n (view b) (ids-new n (view b) p priced placed.new) h))
      ]

      -- Offering a held candidate again changes nothing.
      pub insert_held :
          (b : SearchBuffer D) (n : SearchNeighbor D)
          → IsReady lt b
          → IsPriced lt dist n
          → All (IsPriced lt dist) (view b)
          → Held lt dist b n.id
          → view (insert lt n b).0 ≡ view b
      insert_held b n r p priced h = elim (insert_cases lt order b n r.shaped r.sorted) [
        | inl e ↦ rw e
        | inr placed ↦ elim h [
          | inl (j, x, at, e) ↦ absurd (
              All-get_elem? (λ y. y.id ≢ n.id) (view b) j x (ids-new n (view b) p priced placed.new)
                at e)
          | inr (size, far) ↦
              let len = length-view b r.shaped in
              let far' = subst (λ d. All (λ y. lt d y.distance ≡ false) (view b)) (sym p) far in
              let ends : position lt n.distance (view b) ≡ b.capacity =
                position-beyond lt order n (view b) far' ∙ len ∙ size in
              placed.items
              ∙ (rw ends (
                  take-insert_at b.capacity n (view b) (omega arith)
                  ∙ take_all b.capacity (view b) (omega arith)))
        ]
      ]
