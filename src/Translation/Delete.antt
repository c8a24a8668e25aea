-- ===== src/Translation/Delete.antt =====
-- `delete_external` and `delete_internal` of the translator.
use native.Mathlib.Nat.{mod-eq_of_lt}
use scalable_vector_search.Translation.{
  HashMap, IsHashMap, Translator, done, thrown, external_missing, check, external_key, get_internal,
  delete_all_external, delete_external,
}
use scalable_vector_search.Translation.Bijection.{IsBijection, erase-IsBijection}
use scalable_vector_search.Translation.Checks.{IsDistinctIds, none-contains, some-contains}
use scalable_vector_search.Base.{
  ℕ, ◌^◌, ◌<◌, ◌≡◌, ◌≢◌, ◌⊎◌, inl, inr, refl, sym, ◌∙◌, subst, true, not, List, [], ◌∷◌, none, some,
  Bool-cases, Option-cases, All, All-map,
}

module _ (m : HashMap) where
  abbrev pub IsThere : m.Map → List ℕ → Type 0
  IsThere s ids = All (λ x. (v : ℕ) × (m.find s x ≡ some v)) ids

  pub check-IsThere :
      (key : ℕ → ℕ) (s : m.Map) (ids : List ℕ)
      → All (λ x. key x ≡ x) ids
      → check m not key s ids ≡ true
      → IsThere s ids
  unfolding check
  check-IsThere key s [] k h = tt
  check-IsThere key s (x ∷ xs) k h = elim (Option-cases (m.find s (key x))) [
    | inl missing ↦ absurd (cc (rw (none-contains m s (key x) missing) at h))
    | inr (v, e) ↦ (
      (v, subst (λ z. m.find s z ≡ some v) k.0 e),
      check-IsThere key s xs k.1 (rw (some-contains m s (key x) v e) at h),
    )
  ]

  pub IsThere-check :
      (key : ℕ → ℕ) (s : m.Map) (ids : List ℕ)
      → All (λ x. key x ≡ x) ids
      → IsThere s ids
      → check m not key s ids ≡ true
  unfolding check
  IsThere-check key s [] k h = refl
  IsThere-check key s (x ∷ xs) k h =
      let (v, e) = h.0 in
      let found : m.find s (key x) ≡ some v = subst (λ z. m.find s z ≡ some v) (sym k.0) e in
      rw (some-contains m s (key x) v found) (IsThere-check key s xs k.1 h.1)

  -- What a deletion leaves: the ids are gone, and no other external id is touched.
  pub record IsDeleted (ids : List ℕ) (t t' : Translator m) : Type 0 where
    pub bijection : IsBijection m t'
    pub gone : All (λ e. m.find t'.external_to_internal e ≡ none) ids
    pub others :
        (e : ℕ)
        → All (λ x. x ≢ e) ids
        → m.find t'.external_to_internal e ≡ m.find t.external_to_internal e

  module _ (l : IsHashMap m) where
    pub IsThere-erase :
        (s : m.Map) (k : ℕ) (ids : List ℕ)
        → All (λ y. k ≢ y) ids
        → IsThere s ids
        → IsThere (m.erase s k) ids
    IsThere-erase s k [] a h = tt
    IsThere-erase s k (x ∷ xs) a h =
        let (v, e) = h.0 in ((v, l.find-erase_other s k x a.0 ∙ e), IsThere-erase s k xs a.1 h.1)

    delete_all_external-IsDeleted :
        (ids : List ℕ) (t : Translator m)
        → IsBijection m t
        → IsDistinctIds ids
        → IsThere t.external_to_internal ids
        → (t' : Translator m) × (delete_all_external m ids t ≡ done t') × IsDeleted ids t t'
    unfolding delete_all_external get_internal
    delete_all_external-IsDeleted [] t b d h =
        (t, refl, record { bijection = b; gone = tt; others = λ e a. refl })
    delete_all_external-IsDeleted (e ∷ ids) t b d h =
        let (i, at) = h.0 in
        let t1 : Translator m = record {
          external_to_internal = m.erase t.external_to_internal e;
          internal_to_external = m.erase t.internal_to_external i;
        } in
        let (t', runs, r) =
          delete_all_external-IsDeleted ids t1 (erase-IsBijection m l t e i b at) d.1
            (IsThere-erase t.external_to_internal e ids d.0 h.1) in
        (
          t',
          rw (at, delete_all_external) runs,
          record {
            bijection = r.bijection;
            gone = (
              r.others e (All-map (λ y. e ≢ y) (λ y. y ≢ e) (λ y ne same. ne (sym same)) ids d.0)
                  ∙ l.find-erase_self t.external_to_internal e,
              r.gone,
            );
            others = λ x a. r.others x a.1 ∙ l.find-erase_other t.external_to_internal e x a.0;
          },
        )

    -- On maps that are inverse to each other, a checked `delete_external` of distinct 64-bit ids
    -- goes through exactly if all of them are there. Then they are gone, no other external id is
    -- touched and the maps are inverse to each other; otherwise an exception leaves the translator
    -- as it was.
    pub delete_external-IsDeleted :
        (ids : List ℕ) (t : Translator m)
        → IsBijection m t
        → IsDistinctIds ids
        → All (λ e. e < 2 ^ 64) ids
        → IsThere t.external_to_internal ids
            × ((t' : Translator m) × (delete_external m ids true t ≡ done t') × IsDeleted ids t t')
          ⊎ ¬ (IsThere t.external_to_internal ids)
            × (delete_external m ids true t ≡ thrown external_missing t)
    unfolding delete_external external_key
    delete_external-IsDeleted ids t b d small =
        let keys =
          All-map (λ e. e < 2 ^ 64) (λ e. external_key e ≡ e) (λ e h. mod-key e h) ids small in
        elim (Bool-cases (check m not external_key t.external_to_internal ids)) [
          | inl passes ↦
              let there = check-IsThere external_key t.external_to_internal ids keys passes in
              let (t', runs, r) = delete_all_external-IsDeleted ids t b d there in
              inl (there, (t', rw (passes, delete_external) runs, r))
          | inr fails ↦ inr (
            λ there.
                cc (sym fails ∙ IsThere-check external_key t.external_to_internal ids keys there),
            rw (fails, delete_external),
          )
        ]
      where
        mod-key : (e : ℕ) → e < 2 ^ 64 → external_key e ≡ e
        mod-key e h = mod-eq_of_lt h
