-- ===== src/Candidates/Slots.antt =====
-- The shift by `copy_backward` and the write into the gap insert into the slots in use.
use scalable_vector_search.Candidates.{copy_backward, insert_at, move_slot}
use scalable_vector_search.Base.{
  ℕ, zero, suc, ◌+◌, ◌-◌, ◌≤◌, ◌<◌, ◌≡◌, refl, ap, ◌∙◌, List, [], ◌∷◌, none, some, get_elem?, set,
  take, length, ltb, leb, ◌==◌, if◌then◌else◌, arith, length-set, inl, inr, Option-cases,
  length-take, min,
}

module _ {A : Type 0} where
  pub get_elem?-ext : (xs ys : List A) → ((j : ℕ) → get_elem? xs j ≡ get_elem? ys j) → xs ≡ ys
  get_elem?-ext [] [] h = refl
  get_elem?-ext [] (y ∷ ys) h = ground (arith, h 0)
  get_elem?-ext (x ∷ xs) [] h = ground (arith, h 0)
  get_elem?-ext (x ∷ xs) (y ∷ ys) h = ground (arith, h 0, get_elem?-ext xs ys (λ j. h (suc j)))

  pub get_elem?-take :
      (m : ℕ) (xs : List A) (j : ℕ)
      → get_elem? (take m xs) j ≡ (if ltb j m then get_elem? xs j else none)
  get_elem?-take zero xs j = ground arith
  get_elem?-take (suc m) [] j = ground arith
  get_elem?-take (suc m) (x ∷ xs) zero = ground arith
  get_elem?-take (suc m) (x ∷ xs) (suc j) = ground (arith, get_elem?-take m xs j)

  pub get_elem?-set :
      (xs : List A) (i : ℕ) (v : A) (j : ℕ)
      → i < length xs
      → get_elem? (set xs i v) j ≡ (if i == j then some v else get_elem? xs j)
  get_elem?-set [] i v j h = elim h [ ]
  get_elem?-set (x ∷ xs) zero v zero h = ground arith
  get_elem?-set (x ∷ xs) zero v (suc j) h = ground arith
  get_elem?-set (x ∷ xs) (suc i) v zero h = ground arith
  get_elem?-set (x ∷ xs) (suc i) v (suc j) h = ground (arith, get_elem?-set xs i v j)

  pub get_elem?-lt : (xs : List A) (j : ℕ) → j < length xs → (x : A) × (get_elem? xs j ≡ some x)
  get_elem?-lt [] j h = elim h [ ]
  get_elem?-lt (x ∷ xs) zero h = (x, refl)
  get_elem?-lt (x ∷ xs) (suc j) h = get_elem?-lt xs j (omega arith)

  pub get_elem?-some_lt : (xs : List A) (j : ℕ) (x : A) → get_elem? xs j ≡ some x → j < length xs
  get_elem?-some_lt [] j x e = cc
  get_elem?-some_lt (y ∷ xs) zero x e = omega arith
  get_elem?-some_lt (y ∷ xs) (suc j) x e = omega (arith, get_elem?-some_lt xs j x e)

  pub get_elem?-insert_at :
      (i : ℕ) (n : A) (xs : List A) (j : ℕ)
      → i ≤ length xs
      → get_elem? (insert_at i n xs) j
        ≡ (if ltb j i then get_elem? xs j else if j == i then some n else get_elem? xs (j - 1))
  unfolding insert_at
  get_elem?-insert_at zero n xs zero h = refl
  get_elem?-insert_at zero n xs (suc j) h = ground arith
  get_elem?-insert_at (suc i) n [] j h = absurd (omega arith)
  get_elem?-insert_at (suc i) n (x ∷ xs) zero h = ground arith
  get_elem?-insert_at (suc i) n (x ∷ xs) (suc zero) h =
      ground (arith, get_elem?-insert_at i n xs zero)
  get_elem?-insert_at (suc i) n (x ∷ xs) (suc (suc j)) h =
      ground (arith, get_elem?-insert_at i n xs (suc j))

  length-move_slot : (xs : List A) (j : ℕ) → length (move_slot xs j) ≡ length xs
  unfolding move_slot
  length-move_slot xs j = elim (Option-cases (get_elem? xs j)) [
    | inl e ↦ rw (e, move_slot) refl
    | inr (x, e) ↦ rw (e, move_slot) (length-set xs (j + 1) x)
  ]

  get_elem?-move_slot :
      (xs : List A) (k j : ℕ)
      → k + 1 < length xs
      → get_elem? (move_slot xs k) j ≡ (if j == k + 1 then get_elem? xs k else get_elem? xs j)
  unfolding move_slot
  get_elem?-move_slot xs k j h =
      let (x, e) = get_elem?-lt xs k (omega arith) in
      rw (e, move_slot) (ground (arith, e, get_elem?-set xs (k + 1) x j))

  pub length-copy_backward :
      (count : ℕ) (xs : List A) (first : ℕ) → length (copy_backward xs first count) ≡ length xs
  unfolding copy_backward
  length-copy_backward zero xs first = refl
  length-copy_backward (suc count) xs first =
      length-copy_backward count (move_slot xs (first + count)) first
      ∙ length-move_slot xs (first + count)

  get_elem?-copy_backward :
      (count : ℕ) (xs : List A) (first j : ℕ)
      → first + count < length xs
      → get_elem? (copy_backward xs first count) j ≡ (
          if ltb first j
          then if leb j (first + count) then get_elem? xs (j - 1) else get_elem? xs j
          else get_elem? xs j)
  unfolding copy_backward
  get_elem?-copy_backward zero xs first j h = ground arith
  get_elem?-copy_backward (suc count) xs first j h = ground (
    arith,
    get_elem?-copy_backward count (move_slot xs (first + count)) first j,
    length-move_slot xs (first + count),
    get_elem?-move_slot xs (first + count) j,
    get_elem?-move_slot xs (first + count) (j - 1),
  )

  -- Shifting the slots from i to the end of the range and writing slot i inserts into the range.
  pub take-set-copy_backward :
      (xs : List A) (size i : ℕ) (n : A)
      → i ≤ size
      → size < length xs
      → take (size + 1) (set (copy_backward xs i (size - i)) i n) ≡ insert_at i n (take size xs)
  take-set-copy_backward xs size i n h k = get_elem?-ext _ _ λ j. ground (
    arith,
    length-copy_backward (size - i) xs i,
    length-take size xs,
    get_elem?-take (size + 1) (set (copy_backward xs i (size - i)) i n) j,
    get_elem?-set (copy_backward xs i (size - i)) i n j,
    get_elem?-copy_backward (size - i) xs i j,
    get_elem?-insert_at i n (take size xs) j,
    get_elem?-take size xs j,
    get_elem?-take size xs (j - 1),
  )

  pub take-min : (m n : ℕ) (xs : List A) → take (min m n) xs ≡ take n (take m xs)
  take-min m n xs = get_elem?-ext _ _ λ j.
      ground (
        arith,
        get_elem?-take (min m n) xs j,
        get_elem?-take n (take m xs) j,
        get_elem?-take m xs j,
      )

  pub take_all : (n : ℕ) (xs : List A) → length xs ≤ n → take n xs ≡ xs
  take_all zero [] h = refl
  take_all zero (x ∷ xs) h = absurd (omega arith)
  take_all (suc n) [] h = refl
  take_all (suc n) (x ∷ xs) h = ap (◌∷◌ x) (take_all n xs (omega arith))

  pub take-insert_at :
      (i : ℕ) (n : A) (xs : List A) → i ≤ length xs → take i (insert_at i n xs) ≡ take i xs
  unfolding insert_at
  take-insert_at zero n xs h = refl
  take-insert_at (suc i) n [] h = absurd (omega arith)
  take-insert_at (suc i) n (x ∷ xs) h = ap (◌∷◌ x) (take-insert_at i n xs (omega arith))
