-- ===== src/Candidates/Sorted.antt =====
-- The insertion step on a sorted range: where `position` points, and what the walk back finds.
use scalable_vector_search.Order.{IsStrictWeak, lt_irrefl, lt-of_lt_of_le}
use scalable_vector_search.Neighbor.{Neighbor}
use scalable_vector_search.Candidates.{position, has_repeat, insert_at}
use scalable_vector_search.Candidates.Slots.{get_elem?-lt}
use scalable_vector_search.Base.{
  ℕ, zero, suc, ◌+◌, ◌≤◌, ◌<◌, ◌≡◌, refl, sym, Bool, true, false, not, ◌&&◌, ◌||◌, List, [], ◌∷◌,
  some, get_elem?, take, length, ◌==◌, arith, inl, inr, Bool-cases, All, All-map, All-take,
  All-get_elem?, some-inj, subst,
}

module _ {D M : Type 0} (lt : D → D → Bool) where
  -- In ascending order of distance: no element is closer than one before it.
  abbrev pub IsSorted : List (Neighbor D M) → Type 0
  IsSorted [] = Unit
  IsSorted (x ∷ xs) = All (λ y. lt y.distance x.distance ≡ false) xs × IsSorted xs

  -- Some element has the id of n and an equivalent distance.
  unfoldable pub repeated : Neighbor D M → List (Neighbor D M) → Bool
  repeated n [] = false
  repeated n (x ∷ xs) =
      (x.id == n.id && (not (lt x.distance n.distance) && not (lt n.distance x.distance)))
      || repeated n xs

  pub position-le : (d : D) (xs : List (Neighbor D M)) → position lt d xs ≤ length xs
  unfolding position
  position-le d [] = omega arith
  position-le d (x ∷ xs) = ground (arith, position-le d xs)

  pub length-insert_at :
      (i : ℕ) (n : Neighbor D M) (xs : List (Neighbor D M))
      → length (insert_at i n xs) ≡ length xs + 1
  unfolding insert_at
  length-insert_at zero n xs = omega arith
  length-insert_at (suc i) n [] = omega arith
  length-insert_at (suc i) n (x ∷ xs) = omega (arith, length-insert_at i n xs)

  pub All-insert_at :
      (P : Neighbor D M → Type 0) (i : ℕ) (n : Neighbor D M) (xs : List (Neighbor D M))
      → P n
      → All P xs
      → All P (insert_at i n xs)
  unfolding insert_at
  All-insert_at P zero n xs p h = (p, h)
  All-insert_at P (suc i) n [] p h = (p, tt)
  All-insert_at P (suc i) n (x ∷ xs) p h = (h.0, All-insert_at P i n xs p h.1)

  pub IsSorted-take : (k : ℕ) (xs : List (Neighbor D M)) → IsSorted xs → IsSorted (take k xs)
  IsSorted-take zero xs h = tt
  IsSorted-take (suc k) [] h = tt
  IsSorted-take (suc k) (x ∷ xs) h = (All-take _ k xs h.0, IsSorted-take k xs h.1)

  module _ (order : IsStrictWeak lt) where
    pub IsSorted-insert_at :
        (n : Neighbor D M) (xs : List (Neighbor D M))
        → IsSorted xs
        → IsSorted (insert_at (position lt n.distance xs) n xs)
    unfolding insert_at position
    IsSorted-insert_at n [] h = (tt, tt)
    IsSorted-insert_at n (x ∷ xs) h = elim (Bool-cases (lt n.distance x.distance)) [
      | inl closer ↦
          let x_after = order.asym n.distance x.distance closer in
          rw closer (
            (
              x_after,
              All-map _ _ (λ y le. order.neg_trans y.distance x.distance n.distance le x_after) xs
                  h.0,
            ),
            h,
          )
      | inr after ↦
          rw after (
            All-insert_at _ (position lt n.distance xs) n xs after h.0,
            IsSorted-insert_at n xs h.1,
          )
    ]

    -- An element that is closer than n stops the walk, so one before it is not looked at.
    has_repeat-closer :
        (n x : Neighbor D M) (xs : List (Neighbor D M)) (p : ℕ)
        → lt x.distance n.distance ≡ true
        → has_repeat lt n (x ∷ xs) (suc p) ≡ has_repeat lt n xs p
    unfolding has_repeat
    has_repeat-closer n x xs zero h = rw h
    has_repeat-closer n x xs (suc p) h = ground (arith, has_repeat-closer n x xs p h)

    has_repeat-level :
        (n x : Neighbor D M) (xs : List (Neighbor D M)) (p : ℕ)
        → p ≤ length xs
        → lt x.distance n.distance ≡ false
        → All (λ y. lt y.distance n.distance ≡ false) xs
        → has_repeat lt n (x ∷ xs) (suc p) ≡ (has_repeat lt n xs p || x.id == n.id)
    unfolding has_repeat
    has_repeat-level n x xs zero k h all = ground arith
    has_repeat-level n x xs (suc p) k h all =
        let (y, e) = get_elem?-lt xs p k in
        ground (
          arith,
          e,
          All-get_elem? (λ y. lt y.distance n.distance ≡ false) xs p y all e,
          has_repeat-level n x xs p (omega arith) h all,
        )

    has_repeat-zero :
        (n : Neighbor D M) (xs : List (Neighbor D M)) → has_repeat lt n xs zero ≡ false
    unfolding has_repeat
    has_repeat-zero n xs = refl

    repeated-above :
        (n : Neighbor D M) (xs : List (Neighbor D M))
        → All (λ y. lt n.distance y.distance ≡ true) xs
        → repeated n xs ≡ false
    unfolding repeated
    repeated-above n [] h = refl
    repeated-above n (x ∷ xs) h = ground (arith, repeated-above n xs h.1)

    -- On a sorted range the walk back finds a repeat exactly if there is one anywhere.
    pub has_repeat-eq-repeated :
        (n : Neighbor D M) (xs : List (Neighbor D M))
        → IsSorted xs
        → has_repeat lt n xs (position lt n.distance xs) ≡ repeated n xs
    unfolding repeated position
    has_repeat-eq-repeated n [] h = has_repeat-zero n []
    has_repeat-eq-repeated n (x ∷ xs) h = elim (Bool-cases (lt n.distance x.distance)) [
      | inl above ↦
          let rest = repeated-above n xs (
            All-map _ _ (λ y le. lt-of_lt_of_le lt order n.distance x.distance y.distance above le)
              xs h.0) in
          ground (arith, has_repeat-zero n (x ∷ xs), rest)
      | inr after ↦ elim (Bool-cases (lt x.distance n.distance)) [
        | inl closer ↦ ground (
          arith,
          has_repeat-closer n x xs (position lt n.distance xs) closer,
          has_repeat-eq-repeated n xs h.1,
        )
        | inr level ↦ ground (
          arith,
          has_repeat-level n x xs (position lt n.distance xs) (position-le n.distance xs) level (
              All-map _ _ (λ y le. order.neg_trans y.distance x.distance n.distance le level) xs
                h.0),
          has_repeat-eq-repeated n xs h.1,
        )
      ]
    ]

    -- Every element of a sorted range is at most as far as the last one.
    pub All-le_last :
        (xs : List (Neighbor D M)) (j : ℕ) (last : Neighbor D M)
        → IsSorted xs
        → length xs ≡ j + 1
        → get_elem? xs j ≡ some last
        → All (λ y. lt last.distance y.distance ≡ false) xs
    All-le_last [] j last h k e = tt
    All-le_last (x ∷ []) zero last h k e = (
      subst (λ (z : Neighbor D M). lt z.distance x.distance ≡ false) (some-inj e)
          (lt_irrefl lt order x.distance),
      tt,
    )
    All-le_last (x ∷ y ∷ xs) zero last h k e = absurd (omega arith)
    All-le_last (x ∷ xs) (suc j) last h k e = (
      All-get_elem? (λ y. lt y.distance x.distance ≡ false) xs j last h.0 e,
      All-le_last xs j last h.1 (omega arith) e,
    )

    -- What is farther than all elements has its position at the end, and repeats none.
    pub position-beyond :
        (n : Neighbor D M) (xs : List (Neighbor D M))
        → All (λ y. lt n.distance y.distance ≡ false) xs
        → position lt n.distance xs ≡ length xs
    unfolding position
    position-beyond n [] h = refl
    position-beyond n (x ∷ xs) h = ground (arith, position-beyond n xs h.1)

    pub repeated-below :
        (n : Neighbor D M) (xs : List (Neighbor D M))
        → All (λ y. lt y.distance n.distance ≡ true) xs
        → repeated n xs ≡ false
    unfolding repeated
    repeated-below n [] h = refl
    repeated-below n (x ∷ xs) h = ground (arith, repeated-below n xs h.1)

  -- What stands at the position is farther, and what stands before it is not.
  pub position-lt :
      (d : D) (xs : List (Neighbor D M))
      → position lt d xs < length xs
      → (y : Neighbor D M) × (get_elem? xs (position lt d xs) ≡ some y) × (lt d y.distance ≡ true)
  unfolding position
  position-lt d [] h = elim h [ ]
  position-lt d (x ∷ xs) h = elim (Bool-cases (lt d x.distance)) [
    | inl e ↦ (x, rw e refl, e)
    | inr e ↦
        let (y, at, far) = position-lt d xs (omega (arith, rw e at h)) in
        let step : position lt d (x ∷ xs) ≡ suc (position lt d xs) = rw e in
        (y, subst (λ k. get_elem? (x ∷ xs) k ≡ some y) (sym step) at, far)
  ]

  pub position-end :
      (d : D) (xs : List (Neighbor D M))
      → position lt d xs ≡ length xs
      → All (λ y. lt d y.distance ≡ false) xs
  unfolding position
  position-end d [] h = tt
  position-end d (x ∷ xs) h = elim (Bool-cases (lt d x.distance)) [
    | inl e ↦ absurd (omega (arith, rw e at h))
    | inr e ↦ (e, position-end d xs (omega (arith, rw e at h)))
  ]

  -- A repeat is an element of the range.
  pub repeated-has :
      (n : Neighbor D M) (xs : List (Neighbor D M))
      → repeated n xs ≡ true
      → (j : ℕ) × (x : Neighbor D M) × (get_elem? xs j ≡ some x) × (x.id ≡ n.id)
  unfolding repeated
  repeated-has n [] h = cc
  repeated-has n (x ∷ xs) h = elim (Bool-cases (repeated n xs)) [
    | inl later ↦ let (j, y, at, e) = repeated-has n xs later in (suc j, y, at, e)
    | inr none_later ↦ (0, x, refl, ground arith)
  ]
