-- ===== src/Translation/Checks.antt =====
-- The checks of the translator say what they are meant to.
use scalable_vector_search.Translation.{HashMap, IsHashMap, all_unique_from, contains, check}
use scalable_vector_search.Base.{
  ℕ, ◌≡◌, ◌≢◌, inl, inr, refl, sym, subst, true, false, List, [], ◌∷◌, none, some, arith,
  Bool-cases, Option-cases, All, All-map,
}

-- No id twice.
abbrev pub IsDistinctIds : List ℕ → Type 0
IsDistinctIds [] = Unit
IsDistinctIds (x ∷ xs) = All (λ y. x ≢ y) xs × IsDistinctIds xs

module _ (m : HashMap) where
  abbrev pub IsFree : m.Map → List ℕ → Type 0
  IsFree s ids = All (λ x. m.find s x ≡ none) ids

  pub contains-none : (s : m.Map) (k : ℕ) → contains m s k ≡ false → m.find s k ≡ none
  unfolding contains
  contains-none s k h = elim (Option-cases (m.find s k)) [
    | inl e ↦ e
    | inr (v, e) ↦ absurd (cc (rw (e, contains) at h))
  ]

  pub none-contains : (s : m.Map) (k : ℕ) → m.find s k ≡ none → contains m s k ≡ false
  unfolding contains
  none-contains s k e = rw (e, contains)

  pub some-contains : (s : m.Map) (k v : ℕ) → m.find s k ≡ some v → contains m s k ≡ true
  unfolding contains
  some-contains s k v e = rw (e, contains)

  -- The check that ids are free, for ids that the key type holds.
  pub check_sound :
      (key : ℕ → ℕ) (s : m.Map) (ids : List ℕ)
      → All (λ x. key x ≡ x) ids
      → check m (λ b. b) key s ids ≡ true
      → IsFree s ids
  unfolding check
  check_sound key s [] k h = tt
  check_sound key s (x ∷ xs) k h = elim (Bool-cases (contains m s (key x))) [
    | inl taken ↦ absurd (cc (rw taken at h))
    | inr free ↦ (
      subst (λ z. m.find s z ≡ none) k.0 (contains-none s (key x) free),
      check_sound key s xs k.1 (rw free at h),
    )
  ]

  pub check_complete :
      (key : ℕ → ℕ) (s : m.Map) (ids : List ℕ)
      → All (λ x. key x ≡ x) ids
      → IsFree s ids
      → check m (λ b. b) key s ids ≡ true
  unfolding check
  check_complete key s [] k h = refl
  check_complete key s (x ∷ xs) k h =
      let free : contains m s (key x) ≡ false =
        none-contains s (key x) (subst (λ z. m.find s z ≡ none) (sym k.0) h.0) in
      rw free (check_complete key s xs k.1 h.1)

  module _ (l : IsHashMap m) where
    pub all_unique_sound :
        (seen : m.Seen) (xs : List ℕ)
        → all_unique_from m seen xs ≡ true
        → All (λ y. l.has seen y ≡ false) xs × IsDistinctIds xs
    unfolding all_unique_from
    all_unique_sound seen [] h = (tt, tt)
    all_unique_sound seen (x ∷ xs) h = elim (Bool-cases (l.has seen x)) [
      | inl old ↦ absurd (cc (rw (l.emplace-answer seen x, old) at h))
      | inr new ↦
          let (unseen, once) =
            all_unique_sound (m.emplace seen x).0 xs (rw (l.emplace-answer seen x, new) at h) in
          let apart =
            All-map (λ y. l.has (m.emplace seen x).0 y ≡ false)
              (λ y. (x ≢ y) × (l.has seen y ≡ false))
              (λ y e. ground (arith, l.has-emplace seen x y)) xs unseen in
          ((new, All-map _ _ (λ y p. p.1) xs apart), (All-map _ _ (λ y p. p.0) xs apart, once))
    ]

    pub all_unique_complete :
        (seen : m.Seen) (xs : List ℕ)
        → All (λ y. l.has seen y ≡ false) xs
        → IsDistinctIds xs
        → all_unique_from m seen xs ≡ true
    unfolding all_unique_from
    all_unique_complete seen [] h d = refl
    all_unique_complete seen (x ∷ xs) h d =
        rw (l.emplace-answer seen x, h.0)
          (all_unique_complete (m.emplace seen x).0 xs (still_unseen xs d.0 h.1) d.1)
      where
        still_unseen :
            (ys : List ℕ)
            → All (λ y. x ≢ y) ys
            → All (λ y. l.has seen y ≡ false) ys
            → All (λ y. l.has (m.emplace seen x).0 y ≡ false) ys
        still_unseen [] a b = tt
        still_unseen (y ∷ ys) a b =
            (ground (arith, l.has-emplace seen x y, a.0), still_unseen ys a.1 b.1)
