-- ===== src/Translation/Insert.antt =====
-- `insert` of the translator: what it accepts, and that a refused call changes nothing.
use native.Mathlib.Nat.{mod-eq_of_lt}
use scalable_vector_search.Translation.{
  HashMap, IsHashMap, Translator, TranslationError, done, thrown, length_mismatch, external_repeats,
  internal_repeats, external_taken, internal_taken, all_unique, all_unique_from, check,
  external_key, internal_key, insert_translation, insert_all, check_free, insert,
}
use scalable_vector_search.Translation.Bijection.{IsBijection, assign-IsBijection}
use scalable_vector_search.Translation.Checks.{
  IsDistinctIds, IsFree, check_sound, check_complete, all_unique_sound, all_unique_complete,
}
use scalable_vector_search.Base.{
  ℕ, zero, suc, ◌^◌, ◌<◌, ◌≡◌, ◌≢◌, ◌⊎◌, inl, inr, refl, sym, ◌∙◌, subst, true, false, List, [],
  ◌∷◌, none, some, length, ltb, ◌==◌, arith, Bool-cases, All, All-map, get_elem?, some-inj,
}

module _ (m : HashMap) where
  -- What `insert` asks of the ids.
  pub record IsAdmissible (external internal : List ℕ) (t : Translator m) : Type 0 where
    pub same_length : length external ≡ length internal
    pub external_once : IsDistinctIds external
    pub internal_once : IsDistinctIds internal
    pub external_free : IsFree m t.external_to_internal external
    pub internal_free : IsFree m t.internal_to_external internal

  -- What it leaves: the pairs are in, and no other external id is touched.
  pub record IsInserted (external internal : List ℕ) (t t' : Translator m) : Type 0 where
    pub bijection : IsBijection m t'
    pub pairs :
        (j e i : ℕ)
        → get_elem? external j ≡ some e
        → get_elem? internal j ≡ some i
        → m.find t'.external_to_internal e ≡ some i
    pub others :
        (e : ℕ)
        → All (λ x. x ≢ e) external
        → m.find t'.external_to_internal e ≡ m.find t.external_to_internal e

  module _ (l : IsHashMap m) where
    -- Ids that are free before an entry is made, and are not that entry's, are free after it.
    IsFree-assign :
        (s : m.Map) (k v : ℕ) (ids : List ℕ)
        → All (λ y. k ≢ y) ids
        → IsFree m s ids
        → IsFree m (m.assign s k v) ids
    IsFree-assign s k v [] a h = tt
    IsFree-assign s k v (x ∷ xs) a h =
        (l.find-assign_other s k v x a.0 ∙ h.0, IsFree-assign s k v xs a.1 h.1)

    All-flip : (x : ℕ) (xs : List ℕ) → All (λ y. x ≢ y) xs → All (λ y. y ≢ x) xs
    All-flip x xs a = All-map (λ y. x ≢ y) (λ y. y ≢ x) (λ y ne same. ne (sym same)) xs a

    pairs-cons :
        (e i : ℕ) (external internal : List ℕ) (t t' : Translator m)
        → m.find t'.external_to_internal e ≡ some i
        → IsInserted external internal t t'
        → (j x y : ℕ) → get_elem? (e ∷ external) j ≡ some x
        → get_elem? (i ∷ internal) j ≡ some y
        → m.find t'.external_to_internal x ≡ some y
    pairs-cons e i external internal t t' here r zero x y h k =
        subst (λ z. m.find t'.external_to_internal z ≡ some y) (some-inj h) (here ∙ k)
    pairs-cons e i external internal t t' here r (suc j) x y h k = r.pairs j x y h k

    insert_all-IsInserted :
        (external internal : List ℕ) (t : Translator m)
        → IsBijection m t
        → All (λ i. i < 2 ^ 32) internal
        → IsAdmissible external internal t
        → (t' : Translator m) × (insert_all m external internal t ≡ done t')
          × IsInserted external internal t t'
    unfolding insert_all insert_translation
    insert_all-IsInserted [] [] t b n a =
        (t, refl, record { bijection = b; pairs = λ j e i h k. cc; others = λ e h. refl })
    insert_all-IsInserted [] (i ∷ internal) t b n a = absurd (omega (arith, a.same_length))
    insert_all-IsInserted (e ∷ external) [] t b n a = absurd (omega (arith, a.same_length))
    insert_all-IsInserted (e ∷ external) (i ∷ internal) t b n a =
        let t1 : Translator m = record {
          external_to_internal = m.assign t.external_to_internal e i;
          internal_to_external = m.assign t.internal_to_external i e;
        } in
        let fits : ltb i (2 ^ 32) ≡ true = ground (arith, n.0) in
        let (t', runs, r) =
          insert_all-IsInserted external internal t1
            (assign-IsBijection m l t e i b a.external_free.0 a.internal_free.0) n.1
            (record {
              same_length = omega (arith, a.same_length);
              external_once = a.external_once.1;
              internal_once = a.internal_once.1;
              external_free =
                  IsFree-assign t.external_to_internal e i external a.external_once.0
                    a.external_free.1;
              internal_free =
                  IsFree-assign t.internal_to_external i e internal a.internal_once.0
                    a.internal_free.1;
            }) in
        (
          t',
          rw (fits, insert_all) runs,
          record {
            bijection = r.bijection;
            pairs =
                pairs-cons e i external internal t1 t'
                  (r.others e (All-flip e external a.external_once.0)
                    ∙ l.find-assign_self t.external_to_internal e i)
                  r;
            others = λ x h. r.others x h.1 ∙ l.find-assign_other t.external_to_internal e i x h.0;
          },
        )

    checked-IsAdmissible :
        (external internal : List ℕ) (t : Translator m)
        → length external ≡ length internal
        → All (λ e. e < 2 ^ 64) external
        → All (λ i. i < 2 ^ 32) internal
        → (check_free m external internal t ≡ none) × IsAdmissible external internal t
          ⊎ ¬ (IsAdmissible external internal t)
            × ((error : TranslationError) × (check_free m external internal t ≡ some error))
    unfolding check_free all_unique external_key internal_key
    checked-IsAdmissible external internal t same ext int =
        let ext_keys =
          All-map (λ e. e < 2 ^ 64) (λ e. external_key e ≡ e) (λ e h. mod-eq_of_lt h) external
            ext in
        let int_keys =
          All-map (λ i. i < 2 ^ 32) (λ i. internal_key i ≡ i) (λ i h. mod-eq_of_lt h) internal
            int in
        elim (Bool-cases (all_unique_from m m.unseen external)) [
          | inr repeats ↦ inr (
            λ a. cc (
                sym repeats
                ∙ all_unique_complete m l m.unseen external (unseen external) a.external_once),
            (external_repeats, rw (repeats, check_free)),
          )
          | inl once ↦ elim (Bool-cases (all_unique_from m m.unseen internal)) [
            | inr repeats ↦ inr (
              λ a. cc (
                  sym repeats
                  ∙ all_unique_complete m l m.unseen internal (unseen internal) a.internal_once),
              (internal_repeats, rw (once, check_free, repeats)),
            )
            | inl once' ↦
                elim (Bool-cases (check m (λ b. b) external_key t.external_to_internal external)) [
                  | inr taken ↦ inr (
                    λ a. cc (
                        sym taken
                        ∙ check_complete m external_key t.external_to_internal external ext_keys
                            a.external_free),
                    (external_taken, rw (once, check_free, once', taken)),
                  )
                  | inl free ↦
                      elim (Bool-cases
                        (check m (λ b. b) internal_key t.internal_to_external internal)) [
                          | inr taken ↦ inr (
                            λ a. cc (
                                sym taken
                                ∙ check_complete m internal_key t.internal_to_external internal
                                    int_keys a.internal_free),
                            (internal_taken, rw (once, check_free, once', free, taken)),
                          )
                          | inl free' ↦ inl (
                            rw (once, check_free, once', free, free'),
                            record {
                              same_length = same;
                              external_once = (all_unique_sound m l m.unseen external once).1;
                              internal_once = (all_unique_sound m l m.unseen internal once').1;
                              external_free =
                                  check_sound m external_key t.external_to_internal external
                                    ext_keys free;
                              internal_free =
                                  check_sound m internal_key t.internal_to_external internal
                                    int_keys free';
                            },
                          )
                        ]
                ]
          ]
        ]
      where
        unseen : (xs : List ℕ) → All (λ y. l.has m.unseen y ≡ false) xs
        unseen [] = tt
        unseen (x ∷ xs) = (l.has-unseen x, unseen xs)

    -- On maps that are inverse to each other, a checked `insert` of 64-bit external and 32-bit
    -- internal ids goes through exactly if the ranges have the same length and each consists of
    -- distinct ids that are free. Then the pairs are in, no other external id is touched and the
    -- maps are inverse to each other; otherwise an exception leaves the translator as it was.
    pub insert-IsInserted :
        (external internal : List ℕ) (t : Translator m)
        → IsBijection m t
        → All (λ e. e < 2 ^ 64) external
        → All (λ i. i < 2 ^ 32) internal
        → IsAdmissible external internal t
            × ((t' : Translator m) × (insert m external internal true t ≡ done t')
                × IsInserted external internal t t')
          ⊎ ¬ (IsAdmissible external internal t)
            × ((error : TranslationError) × (insert m external internal true t ≡ thrown error t))
    unfolding insert
    insert-IsInserted external internal t b ext int =
        elim (Bool-cases (length external == length internal)) [
          | inr differ ↦
              inr (λ a. ground (arith, a.same_length), (length_mismatch, rw (differ, insert)))
          | inl same ↦ elim (checked-IsAdmissible external internal t (ground arith) ext int) [
            | inr (refused, (error, e)) ↦ inr (refused, (error, rw (same, insert, e)))
            | inl (accepted, a) ↦
                let (t', runs, r) = insert_all-IsInserted external internal t b int a in
                inl (a, (t', rw (same, insert, accepted) runs, r))
          ]
        ]
