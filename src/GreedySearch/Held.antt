-- ===== src/GreedySearch/Held.antt =====
-- What a candidate that was offered to the buffer once can count on: it is in the buffer, or the
-- buffer is full of candidates that are no farther.
use scalable_vector_search.Order.{IsStrictWeak, lt-of_lt_of_le}
use scalable_vector_search.Neighbor.{SearchNeighbor}
use scalable_vector_search.Candidates.{position}
use scalable_vector_search.Candidates.Slots.{get_elem?-some_lt, take-insert_at}
use scalable_vector_search.Candidates.Sorted.{
  IsSorted, repeated, position-le, position-lt, position-end, repeated-has, has_repeat-eq-repeated,
  All-le_last, All-insert_at,
}
use scalable_vector_search.SearchBuffer.{SearchBuffer, view, can_skip, insert}
use scalable_vector_search.SearchBuffer.Insert.{IsShaped, length-view, skipped-above, view-insert}
use scalable_vector_search.SearchBuffer.Invariant.{
  IsReady, IsPlaced, insert_cases, get_elem?-placed, insert_skipped, insert_old, insert_new,
}
use scalable_vector_search.Base.{
  ℕ, ◌+◌, ◌≤◌, ◌≡◌, refl, ap, ◌∙◌, subst, Bool, false, List, some, get_elem?, length, arith, ◌⊎◌,
  inl, inr, Bool-cases, All, All-map, All-take, All-get_elem?, dec_lt,
}

abbrev pub Has : {D : Type 0} → List (SearchNeighbor D) → ℕ → Type 0
Has {D} xs u = (j : ℕ) × (x : SearchNeighbor D) × (get_elem? xs j ≡ some x) × (x.id ≡ u)

module _ {D : Type 0} (lt : D → D → Bool) (dist : ℕ → D) where
  abbrev pub IsPriced : SearchNeighbor D → Type 0
  IsPriced x = x.distance ≡ dist x.id

  abbrev pub Bars : SearchBuffer D → ℕ → Type 0
  Bars b u = (b.size ≡ b.capacity) × All (λ y. lt (dist u) y.distance ≡ false) (view b)

  abbrev pub Held : SearchBuffer D → ℕ → Type 0
  Held b u = Has (view b) u ⊎ Bars b u

  module _ (order : IsStrictWeak lt) where
    Bars-placed :
        (b : SearchBuffer D) (n : SearchNeighbor D) (b' : SearchBuffer D) (u : ℕ)
        → IsShaped b
        → IsPlaced lt b n b'
        → Bars b u
        → Bars b' u
    Bars-placed b n b' u w p (size, far) =
        let i = position lt n.distance (view b) in
        (
          omega (arith, p.count, p.same_capacity),
          rw p.items (elim (dec_lt i (length (view b))) [
            | yes inside ↦
                let (y, at, closer) = position-lt lt n.distance (view b) inside in
                let le = All-get_elem? (λ y. lt (dist u) y.distance ≡ false) (view b) i y far at in
                All-take _ b.capacity _ (
                  All-insert_at lt (λ y. lt (dist u) y.distance ≡ false) i n (view b)
                    (order.asym n.distance (dist u)
                      (lt-of_lt_of_le lt order n.distance y.distance (dist u) closer le))
                    far)
            | no outside ↦
                let e : i ≡ b.capacity =
                  omega (arith, position-le lt n.distance (view b), length-view b w) in
                rw (e, take-insert_at b.capacity n (view b) (omega (arith, length-view b w)))
                  (All-take _ b.capacity (view b) far)
          ]),
        )

    -- An element that is pushed out of the buffer bars the way for its id.
    Bars-pushed_out :
        (b : SearchBuffer D) (n : SearchNeighbor D) (b' : SearchBuffer D) (j : ℕ)
        (x : SearchNeighbor D)
        → IsShaped b
        → IsSorted lt (view b)
        → IsPlaced lt b n b'
        → get_elem? (view b) j ≡ some x
        → j + 1 ≡ b.capacity
        → b.size ≡ b.capacity
        → position lt n.distance (view b) ≤ j
        → (b'.size ≡ b'.capacity) × All (λ y. lt x.distance y.distance ≡ false) (view b')
    Bars-pushed_out b n b' j x w s p at last size le =
        let i = position lt n.distance (view b) in
        let len = length-view b w in
        let all_le = All-le_last lt order (view b) j x s (omega arith) at in
        let (y, at_i, closer) = position-lt lt n.distance (view b) (omega arith) in
        let y_le = All-get_elem? (λ y. lt x.distance y.distance ≡ false) (view b) i y all_le at_i in
        (
          omega (arith, p.count, p.same_capacity),
          rw p.items (
              All-take _ b.capacity _ (
                All-insert_at lt (λ y. lt x.distance y.distance ≡ false) i n (view b)
                  (order.asym n.distance x.distance
                    (lt-of_lt_of_le lt order n.distance y.distance x.distance closer y_le))
                  all_le)),
        )

    Has-placed :
        (b : SearchBuffer D) (n : SearchNeighbor D) (b' : SearchBuffer D) (u : ℕ)
        → IsShaped b
        → IsSorted lt (view b)
        → All IsPriced (view b)
        → IsPlaced lt b n b'
        → Has (view b) u
        → Held b' u
    Has-placed b n b' u w s priced p (j, x, at, e) =
        let i = position lt n.distance (view b) in
        let inside = get_elem?-some_lt (view b) j x at in
        let len = length-view b w in
        elim (dec_lt j i) [
          | yes before ↦ inl (
            j,
            x,
            ground (arith, get_elem?-placed lt order b n b' j w p, at, inside, len, w.fits),
            e,
          )
          | no after ↦ elim (dec_lt (j + 1) b.capacity) [
            | yes room ↦
                inl (j + 1, x, ground (arith, get_elem?-placed lt order b n b' (j + 1) w p, at), e)
            | no out ↦
                let price : x.distance ≡ dist u =
                  All-get_elem? IsPriced (view b) j x priced at ∙ ap dist e in
                let (size, far) =
                  Bars-pushed_out b n b' j x w s p at (omega (arith, w.fits))
                    (omega (arith, w.fits)) (omega arith) in
                inr (size, subst (λ d. All (λ y. lt d y.distance ≡ false) (view b')) price far)
          ]
        ]

    -- Once held, a candidate stays held under every further insertion.
    pub insert-Held :
        (b : SearchBuffer D) (n : SearchNeighbor D) (u : ℕ)
        → IsReady lt b
        → All IsPriced (view b)
        → Held b u
        → Held (insert lt n b).0 u
    insert-Held b n u r priced h = elim (insert_cases lt order b n r.shaped r.sorted) [
      | inl e ↦ rw e h
      | inr p ↦ elim h [
        | inl has ↦ Has-placed b n (insert lt n b).0 u r.shaped r.sorted priced p has
        | inr bars ↦ inr (Bars-placed b n (insert lt n b).0 u r.shaped p bars)
      ]
    ]

    Held-placed_self :
        (b : SearchBuffer D) (n : SearchNeighbor D) (b' : SearchBuffer D)
        → IsShaped b
        → IsPriced n
        → IsPlaced lt b n b'
        → Held b' n.id
    Held-placed_self b n b' w price p =
        let i = position lt n.distance (view b) in
        let len = length-view b w in
        elim (dec_lt i b.capacity) [
          | yes room ↦ inl (i, n, ground (arith, get_elem?-placed lt order b n b' i w p), refl)
          | no out ↦
              let e : i ≡ b.capacity = omega (arith, position-le lt n.distance (view b), w.fits) in
              let ends : i ≡ length (view b) =
                omega (arith, position-le lt n.distance (view b), w.fits) in
              let far = position-end lt n.distance (view b) ends in
              inr (
                omega (arith, p.count, p.same_capacity, position-le lt n.distance (view b), w.fits),
                subst (λ d. All (λ y. lt d y.distance ≡ false) (view b')) price
                    (rw
                      (
                        p.items,
                        e,
                        take-insert_at b.capacity n (view b)
                            (omega (arith, position-le lt n.distance (view b))),
                      )
                      (All-take _ b.capacity (view b) far)),
              )
        ]

    -- An offered candidate is held, whether it was skipped, known already or placed.
    pub insert-Held_self :
        (b : SearchBuffer D) (n : SearchNeighbor D)
        → IsReady lt b
        → IsPriced n
        → Held (insert lt n b).0 n.id
    insert-Held_self b n r price = elim (Bool-cases (can_skip lt n.distance b)) [
      | inl skip ↦
          let (size, above) = skipped-above lt order b n.distance r.shaped r.sorted skip in
          rw (insert_skipped lt b n skip) (
            inr (
              size,
              subst (λ d. All (λ y. lt d y.distance ≡ false) (view b)) price
                  (All-map _ _ (λ y h. order.asym y.distance n.distance h) (view b) above),
            ))
      | inr keep ↦ elim (Bool-cases (repeated lt n (view b))) [
        | inl old ↦
            rw (insert_old lt b n keep (has_repeat-eq-repeated lt order n (view b) r.sorted ∙ old))
              (inl (repeated-has lt n (view b) old))
        | inr new ↦ Held-placed_self b n (insert lt n b).0 r.shaped price (
            insert_new lt b n keep new (has_repeat-eq-repeated lt order n (view b) r.sorted ∙ new)
              (view-insert lt order b n r.shaped r.sorted))
      ]
    ]
