-- ===== src/Index/Relocated.antt =====
-- The loop of `compact` over the states and the translation.
use native.Mathlib.Decide.{ℕ_discrete}
use scalable_vector_search.Candidates.Slots.{get_elem?-lt, get_elem?-some_lt}
use scalable_vector_search.Translation.{HashMap, IsHashMap, Translator, remap_internal_id}
use scalable_vector_search.Translation.Bijection.{
  IsBijection, IsRemapped, remap_internal_id-IsRemapped,
}
use scalable_vector_search.Compaction.Batches.{IsAscending, get_elem?-ascending}
use scalable_vector_search.Index.{SlotMetadata, valid, is_valid}
use scalable_vector_search.Index.Compacting.{remap_slots}
use scalable_vector_search.Index.Renumbering.{IsNonmissing}
use scalable_vector_search.Base.{
  ℕ, zero, suc, ◌+◌, ◌≤◌, ◌<◌, ◌≡◌, ◌≢◌, inl, inr, refl, sym, ap, ◌∙◌, subst, true, false, List, [],
  ◌∷◌, none, some, some-inj, get_elem?, set, length, length-set, ◌==◌, arith, Option-cases,
  All-get_elem?, get_elem?-set_self, get_elem?-set_ne, dec_lt,
}

-- An ascending list has an element at one place only.
get_elem?-unique :
    (xs : List ℕ) (j k o : ℕ)
    → IsAscending xs
    → get_elem? xs j ≡ some o
    → get_elem? xs k ≡ some o
    → j ≡ k
get_elem?-unique [] j k o a e f = cc
get_elem?-unique (x ∷ xs) zero zero o a e f = refl
get_elem?-unique (x ∷ xs) zero (suc k) o a e f =
    absurd (omega (arith, some-inj e, All-get_elem? (λ y. x < y) xs k o a.0 f))
get_elem?-unique (x ∷ xs) (suc j) zero o a e f =
    absurd (omega (arith, some-inj f, All-get_elem? (λ y. x < y) xs j o a.0 e))
get_elem?-unique (x ∷ xs) (suc j) (suc k) o a e f = ap suc (get_elem?-unique xs j k o a.1 e f)

module _ (m : HashMap) (l : IsHashMap m) (ids : List ℕ) (original : List SlotMetadata)
    (t0 : Translator m) where
  -- The slots before `upto` are at their new ids.
  pub record IsRelocated (upto : ℕ) (status : List SlotMetadata) (t : Translator m) : Type 0 where
    pub same_length : length status ≡ length original
    pub bijection : IsBijection m t
    pub filled : (j : ℕ) → j < upto → j < length ids → get_elem? status j ≡ some valid
    pub later : (i : ℕ) → upto ≤ i → get_elem? status i ≡ get_elem? original i
    pub moved :
        (e j o : ℕ)
        → m.find t0.external_to_internal e ≡ some o
        → get_elem? ids j ≡ some o
        → (j < upto → m.find t.external_to_internal e ≡ some j)
          × (upto ≤ j → m.find t.external_to_internal e ≡ some o)
    pub absent :
        (e : ℕ) → m.find t0.external_to_internal e ≡ none → m.find t.external_to_internal e ≡ none

  remap_skip :
      (k count : ℕ) (status : List SlotMetadata) (t : Translator m) (o : ℕ)
      → get_elem? ids k ≡ some o
      → (k == o) ≡ true
      → remap_slots m ids k (suc count) status t ≡ remap_slots m ids (k + 1) count status t
  unfolding remap_slots
  remap_skip k count status t o at same = rw (at, remap_slots, same) refl

  remap_move :
      (k count : ℕ) (status : List SlotMetadata) (t t' : Translator m) (o : ℕ)
      → get_elem? ids k ≡ some o
      → (k == o) ≡ false
      → get_elem? status o ≡ some valid
      → remap_internal_id m o k t ≡ some t'
      → remap_slots m ids k (suc count) status t
        ≡ remap_slots m ids (k + 1) count (set status k valid) t'
  unfolding remap_slots is_valid
  remap_move k count status t t' o at other state runs =
      rw (at, remap_slots, other, state, runs) refl

  module _ (numbering : IsNonmissing original ids) (bijection0 : IsBijection m t0)
      (tracked : (e i : ℕ)
        → m.find t0.external_to_internal e ≡ some i
        → get_elem? original i ≡ some valid)
      (known : (i : ℕ)
        → get_elem? original i ≡ some valid
        → (e : ℕ) × (m.find t0.internal_to_external i ≡ some e)) where
    IsRelocated-skip :
        (k : ℕ) (status : List SlotMetadata) (t : Translator m)
        → get_elem? ids k ≡ some k
        → IsRelocated k status t
        → IsRelocated (k + 1) status t
    IsRelocated-skip k status t at r = record {
      same_length = r.same_length;
      bijection = r.bijection;
      filled = λ j h inside. elim (ℕ_discrete k j) [
        | yes same ↦
            subst (λ z. get_elem? status z ≡ some valid) same
              (r.later k (omega arith) ∙ numbering.sound k k at)
        | no other ↦ r.filled j (omega (arith, other)) inside
      ];
      later = λ i h. r.later i (omega arith);
      moved = λ e j o there place.
          let (before, after) = r.moved e j o there place in
          (
            λ h. elim (ℕ_discrete k j) [
              | yes same ↦
                  let value : o ≡ j =
                    some-inj (sym place ∙ subst (λ z. get_elem? ids z ≡ some z) same at) in
                  after (omega (arith, same)) ∙ ap some value
              | no other ↦ before (omega (arith, other))
            ],
            λ h. after (omega arith),
          );
      absent = r.absent;
    }

    -- The new id of a slot that moves is not in use.
    new_id_free :
        (k o : ℕ) (status : List SlotMetadata) (t : Translator m)
        → get_elem? ids k ≡ some o
        → k ≢ o
        → IsRelocated k status t
        → m.find t.internal_to_external k ≡ none
    new_id_free k o status t at moves r = elim (Option-cases (m.find t.internal_to_external k)) [
      | inl free ↦ free
      | inr (e, taken) ↦ absurd (elim (Option-cases (m.find t0.external_to_internal e)) [
        | inl missing ↦ cc (r.absent e missing, r.bijection.from k e taken)
        | inr (o', there) ↦
            let (j, place) = numbering.complete o' (tracked e o' there) in
            let (before, after) = r.moved e j o' there place in
            let now = r.bijection.from k e taken in
            elim (dec_lt j k) [
              | yes less ↦ omega (arith, some-inj (sym (before less) ∙ now))
              | no more ↦
                  let value : o' ≡ k = some-inj (sym (after (omega (arith, more))) ∙ now) in
                  let same : j ≡ k =
                    omega (
                      arith,
                      more,
                      value,
                      get_elem?-ascending ids j o' numbering.ascending place,
                    ) in
                  moves (
                    sym value
                    ∙ some-inj (sym (subst (λ z. get_elem? ids z ≡ some o') same place) ∙ at))
            ]
      ])
    ]

    IsRelocated-move :
        (k o e0 : ℕ) (status : List SlotMetadata) (t t' : Translator m)
        → get_elem? ids k ≡ some o
        → k ≢ o
        → k < length status
        → m.find t0.external_to_internal e0 ≡ some o
        → IsRelocated k status t
        → IsRemapped m l o k e0 t t'
        → IsRelocated (k + 1) (set status k valid) t'
    IsRelocated-move k o e0 status t t' at moves room there0 r u = record {
      same_length = length-set status k valid ∙ r.same_length;
      bijection = u.bijection;
      filled = λ j h inside. elim (ℕ_discrete k j) [
        | yes same ↦
            subst (λ z. get_elem? (set status k valid) z ≡ some valid) same
              (get_elem?-set_self status k valid room)
        | no other ↦ get_elem?-set_ne status valid other ∙ r.filled j (omega (arith, other)) inside
      ];
      later = λ i h.
          get_elem?-set_ne status valid (λ same. omega (arith, same)) ∙ r.later i (omega arith);
      moved = λ e j o' there place.
          let (before, after) = r.moved e j o' there place in
          elim (ℕ_discrete e0 e) [
            | yes same ↦
                let value : o' ≡ o = some-inj (
                  sym there ∙ subst (λ z. m.find t0.external_to_internal z ≡ some o) same there0) in
                let here : j ≡ k =
                  get_elem?-unique ids j k o numbering.ascending (place ∙ ap some value) at in
                (
                  λ h.
                      subst (λ z. m.find t'.external_to_internal z ≡ some j) same
                        (u.moved ∙ ap some (sym here)),
                  λ h. absurd (omega (arith, here)),
                )
            | no other ↦ (
              λ h. elim (ℕ_discrete k j) [
                | yes same ↦
                    let value : o ≡ o' =
                      some-inj (sym at ∙ subst (λ z. get_elem? ids z ≡ some o') (sym same) place) in
                    absurd (
                      other (
                        some-inj (
                          sym (bijection0.to e0 o there0)
                          ∙ subst (λ z. m.find t0.internal_to_external z ≡ some e) (sym value)
                              (bijection0.to e o' there))))
                | no apart ↦ u.others e other ∙ before (omega (arith, apart))
              ],
              λ h. u.others e other ∙ after (omega arith),
            )
          ];
      absent = λ e missing. u.others e (λ same. cc (missing, there0, same)) ∙ r.absent e missing;
    }

    pub remap_slots-IsRelocated :
        (k count : ℕ) (status : List SlotMetadata) (t : Translator m)
        → IsRelocated k status t
        → k + count ≡ length ids
        → (status' : List SlotMetadata) × (t' : Translator m) × (remap_slots m ids k count status t
            ≡ some (status', t'))
          × IsRelocated (length ids) status' t'
    unfolding remap_slots
    remap_slots-IsRelocated k zero status t r h =
        (status, t, refl, subst (λ z. IsRelocated z status t) (omega arith) r)
    remap_slots-IsRelocated k (suc count) status t r h =
        let (o, at) = get_elem?-lt ids k (omega arith) in
        elim (ℕ_discrete k o) [
          | yes same ↦
              let here : get_elem? ids k ≡ some k = at ∙ ap some (sym same) in
              let test : (k == o) ≡ true = ground (arith, same) in
              let (status', t', runs, done) =
                remap_slots-IsRelocated (k + 1) count status t (IsRelocated-skip k status t here r)
                  (omega arith) in
              (status', t', remap_skip k count status t o at test ∙ runs, done)
          | no moves ↦
              let test : (k == o) ≡ false = ground (arith, moves) in
              let low = get_elem?-ascending ids k o numbering.ascending at in
              let was = numbering.sound k o at in
              let state : get_elem? status o ≡ some valid = r.later o low ∙ was in
              let (e0, back) = known o was in
              let there0 = bijection0.from o e0 back in
              let now = (r.moved e0 k o there0 at).1 (omega arith) in
              let (t1, remapped, u) =
                remap_internal_id-IsRemapped m l t o k e0 r.bijection (r.bijection.to e0 o now)
                  (new_id_free k o status t at moves r) in
              let room : k < length status =
                omega (arith, get_elem?-some_lt status o valid state, low) in
              let (status', t', runs, done) =
                remap_slots-IsRelocated (k + 1) count (set status k valid) t1
                  (IsRelocated-move k o e0 status t t1 at moves room there0 r u) (omega arith) in
              (status', t', remap_move k count status t t1 o at test state remapped ∙ runs, done)
        ]
