-- ===== src/Translation/Vacate.antt =====
-- `delete_internal` of the translator.
use native.Mathlib.Nat.{mod-eq_of_lt}
use scalable_vector_search.Translation.{
  HashMap, IsHashMap, Translator, done, thrown, internal_missing, check, internal_key, get_external,
  delete_all_internal, delete_internal,
}
use scalable_vector_search.Translation.Bijection.{IsBijection, erase-IsBijection}
use scalable_vector_search.Translation.Checks.{IsDistinctIds}
use scalable_vector_search.Translation.Delete.{IsThere, check-IsThere, IsThere-check, IsThere-erase}
use scalable_vector_search.Base.{
  ℕ, ◌^◌, ◌<◌, ◌≡◌, ◌≢◌, ◌⊎◌, inl, inr, refl, sym, ◌∙◌, true, not, List, [], ◌∷◌, none, Bool-cases,
  All, All-map,
}

module _ (m : HashMap) where
  -- What a deletion leaves: the ids are gone, and no other internal id is touched.
  pub record IsVacated (ids : List ℕ) (t t' : Translator m) : Type 0 where
    pub bijection : IsBijection m t'
    pub gone : All (λ i. m.find t'.internal_to_external i ≡ none) ids
    pub others :
        (i : ℕ)
        → All (λ x. x ≢ i) ids
        → m.find t'.internal_to_external i ≡ m.find t.internal_to_external i

  module _ (l : IsHashMap m) where
    delete_all_internal-IsVacated :
        (ids : List ℕ) (t : Translator m)
        → IsBijection m t
        → IsDistinctIds ids
        → IsThere m t.internal_to_external ids
        → (t' : Translator m) × (delete_all_internal m ids t ≡ done t') × IsVacated ids t t'
    unfolding delete_all_internal get_external
    delete_all_internal-IsVacated [] t b d h =
        (t, refl, record { bijection = b; gone = tt; others = λ i a. refl })
    delete_all_internal-IsVacated (i ∷ ids) t b d h =
        let (e, at) = h.0 in
        let t1 : Translator m = record {
          external_to_internal = m.erase t.external_to_internal e;
          internal_to_external = m.erase t.internal_to_external i;
        } in
        let (t', runs, r) =
          delete_all_internal-IsVacated ids t1 (erase-IsBijection m l t e i b (b.from i e at)) d.1
            (IsThere-erase m l t.internal_to_external i ids d.0 h.1) in
        let apart = All-map (λ y. i ≢ y) (λ y. y ≢ i) (λ y ne same. ne (sym same)) ids d.0 in
        (
          t',
          rw (at, delete_all_internal) runs,
          record {
            bijection = r.bijection;
            gone = (r.others i apart ∙ l.find-erase_self t.internal_to_external i, r.gone);
            others = λ x a. r.others x a.1 ∙ l.find-erase_other t.internal_to_external i x a.0;
          },
        )

    -- On maps that are inverse to each other, a checked `delete_internal` of distinct 32-bit ids
    -- goes through exactly if all of them are there. Then they are gone, no other internal id is
    -- touched and the maps are inverse to each other; otherwise an exception leaves the translator
    -- as it was.
    pub delete_internal-IsVacated :
        (ids : List ℕ) (t : Translator m)
        → IsBijection m t
        → IsDistinctIds ids
        → All (λ i. i < 2 ^ 32) ids
        → IsThere m t.internal_to_external ids
            × ((t' : Translator m) × (delete_internal m ids true t ≡ done t') × IsVacated ids t t')
          ⊎ ¬ (IsThere m t.internal_to_external ids)
            × (delete_internal m ids true t ≡ thrown internal_missing t)
    unfolding delete_internal internal_key
    delete_internal-IsVacated ids t b d small =
        let keys =
          All-map (λ i. i < 2 ^ 32) (λ i. internal_key i ≡ i) (λ i h. mod-eq_of_lt h) ids small in
        elim (Bool-cases (check m not internal_key t.internal_to_external ids)) [
          | inl passes ↦
              let there = check-IsThere m internal_key t.internal_to_external ids keys passes in
              let (t', runs, r) = delete_all_internal-IsVacated ids t b d there in
              inl (there, (t', rw (passes, delete_internal) runs, r))
          | inr fails ↦ inr (
            λ there.
                cc (sym fails ∙ IsThere-check m internal_key t.internal_to_external ids keys there),
            rw (fails, delete_internal),
          )
        ]
