-- ===== src/Translation/Bijection.antt =====
-- The two maps of the translator are inverse to each other, and every operation on one entry keeps
-- them so.
use scalable_vector_search.Translation.{HashMap, IsHashMap, Translator, remap_internal_id}
use native.Mathlib.Decide.{ℕ_discrete}
use scalable_vector_search.Base.{ℕ, ◌≡◌, ◌≢◌, sym, ap, ◌∙◌, subst, none, some, some-inj}

module _ (m : HashMap) where
  -- Each entry of the map a has its converse in the map b.
  abbrev pub IsInverse : m.Map → m.Map → Type 0
  IsInverse a b = (x y : ℕ) → m.find a x ≡ some y → m.find b y ≡ some x

  pub record IsBijection (t : Translator m) : Type 0 where
    pub to : IsInverse t.external_to_internal t.internal_to_external
    pub from : IsInverse t.internal_to_external t.external_to_internal

  absent-other : (a : m.Map) (x k y : ℕ) → m.find a k ≡ none → m.find a x ≡ some y → k ≢ x
  absent-other a x k y h e same = cc

  module _ (l : IsHashMap m) where
    assign-IsInverse :
        (a b : m.Map) (k v : ℕ)
        → IsInverse a b
        → m.find b v ≡ none
        → IsInverse (m.assign a k v) (m.assign b v k)
    assign-IsInverse a b k v inverse free x y h = elim (ℕ_discrete k x) [
      | yes same ↦
          let here : m.find (m.assign a k v) k ≡ some y =
            subst (λ z. m.find (m.assign a k v) z ≡ some y) (sym same) h in
          let value : v ≡ y = some-inj (sym (l.find-assign_self a k v) ∙ here) in
          subst (λ z. m.find (m.assign b v k) z ≡ some x) value
            (l.find-assign_self b v k ∙ ap some same)
      | no other ↦
          let back = inverse x y (sym (l.find-assign_other a k v x other) ∙ h) in
          l.find-assign_other b v k y (absent-other b y v x free back) ∙ back
    ]

    erase-IsInverse :
        (a b : m.Map) (k v : ℕ)
        → IsInverse a b
        → m.find a k ≡ some v
        → IsInverse (m.erase a k) (m.erase b v)
    erase-IsInverse a b k v inverse e x y h =
        let other : k ≢ x = absent-other (m.erase a k) x k y (l.find-erase_self a k) h in
        let back = inverse x y (sym (l.find-erase_other a k x other) ∙ h) in
        l.find-erase_other b v y (λ same.
          other (some-inj (sym (inverse k v e) ∙ subst (λ z. m.find b z ≡ some x) (sym same) back)))
        ∙ back

    pub assign-IsBijection :
        (t : Translator m) (e i : ℕ)
        → IsBijection t
        → m.find t.external_to_internal e ≡ none
        → m.find t.internal_to_external i ≡ none
        → IsBijection (record {
          external_to_internal = m.assign t.external_to_internal e i;
          internal_to_external = m.assign t.internal_to_external i e;
        })
    assign-IsBijection t e i b fe fi = record {
      to = assign-IsInverse t.external_to_internal t.internal_to_external e i b.to fi;
      from = assign-IsInverse t.internal_to_external t.external_to_internal i e b.from fe;
    }

    pub erase-IsBijection :
        (t : Translator m) (e i : ℕ)
        → IsBijection t
        → m.find t.external_to_internal e ≡ some i
        → IsBijection (record {
          external_to_internal = m.erase t.external_to_internal e;
          internal_to_external = m.erase t.internal_to_external i;
        })
    erase-IsBijection t e i b h = record {
      to = erase-IsInverse t.external_to_internal t.internal_to_external e i b.to h;
      from = erase-IsInverse t.internal_to_external t.external_to_internal i e b.from (b.to e i h);
    }

    -- What `remap_internal_id` promises.
    pub record IsRemapped (from to external : ℕ) (t t' : Translator m) : Type 0 where
      pub moved : m.find t'.external_to_internal external ≡ some to
      pub vacated : m.find t'.internal_to_external from ≡ none
      pub others :
          (e : ℕ)
          → external ≢ e
          → m.find t'.external_to_internal e ≡ m.find t.external_to_internal e
      pub bijection : IsBijection t'

    remap-IsInverse :
        (a b : m.Map) (k old new : ℕ)
        → IsInverse a b
        → m.find b old ≡ some k
        → m.find b new ≡ none
        → IsInverse (m.assign a k new) (m.insert (m.erase b old) new k)
    remap-IsInverse a b k old new inverse e free x y h = elim (ℕ_discrete k x) [
      | yes same ↦
          let here : m.find (m.assign a k new) k ≡ some y =
            subst (λ z. m.find (m.assign a k new) z ≡ some y) (sym same) h in
          let value : new ≡ y = some-inj (sym (l.find-assign_self a k new) ∙ here) in
          let room =
            l.find-erase_other b old new (λ s. absent-other b old new k free e (sym s)) ∙ free in
          subst (λ z. m.find (m.insert (m.erase b old) new k) z ≡ some x) value
            (l.find-insert_new (m.erase b old) new k room ∙ ap some same)
      | no other ↦
          let back = inverse x y (sym (l.find-assign_other a k new x other) ∙ h) in
          l.find-insert_other (m.erase b old) new k y (absent-other b y new x free back)
          ∙ l.find-erase_other b old y
              (λ same. other (some-inj (sym e ∙ subst (λ z. m.find b z ≡ some x) (sym same) back)))
          ∙ back
    ]

    remap-IsInverse_back :
        (a b : m.Map) (k old new : ℕ)
        → IsInverse b a
        → m.find b old ≡ some k
        → m.find b new ≡ none
        → IsInverse (m.insert (m.erase b old) new k) (m.assign a k new)
    remap-IsInverse_back a b k old new inverse e free y x h = elim (ℕ_discrete new y) [
      | yes same ↦
          let room =
            l.find-erase_other b old new (λ s. absent-other b old new k free e (sym s)) ∙ free in
          let here : m.find (m.insert (m.erase b old) new k) new ≡ some x =
            subst (λ z. m.find (m.insert (m.erase b old) new k) z ≡ some x) (sym same) h in
          let value : k ≡ x =
            some-inj (sym (l.find-insert_new (m.erase b old) new k room) ∙ here) in
          subst (λ z. m.find (m.assign a k new) z ≡ some y) value
            (l.find-assign_self a k new ∙ ap some same)
      | no other ↦
          let kept = sym (l.find-insert_other (m.erase b old) new k y other) ∙ h in
          let not_old : old ≢ y =
            absent-other (m.erase b old) y old x (l.find-erase_self b old) kept in
          let back = inverse y x (sym (l.find-erase_other b old y not_old) ∙ kept) in
          l.find-assign_other a k new x (λ same.
            not_old
              (some-inj (sym (inverse old k e) ∙ subst (λ z. m.find a z ≡ some y) (sym same) back)))
          ∙ back
    ]

    -- On maps that are inverse to each other, remapping an internal id that is there to one that is
    -- not succeeds, moves its external id, frees the old id, leaves the other external ids as they
    -- were and the maps inverse to each other.
    pub remap_internal_id-IsRemapped :
        (t : Translator m) (from to external : ℕ)
        → IsBijection t
        → m.find t.internal_to_external from ≡ some external
        → m.find t.internal_to_external to ≡ none
        → (t' : Translator m) × (remap_internal_id m from to t ≡ some t')
          × IsRemapped from to external t t'
    unfolding remap_internal_id
    remap_internal_id-IsRemapped t from to external b e free = (
      record {
        external_to_internal = m.assign t.external_to_internal external to;
        internal_to_external = m.insert (m.erase t.internal_to_external from) to external;
      },
      rw (e, remap_internal_id),
      record {
        moved = l.find-assign_self t.external_to_internal external to;
        vacated =
            l.find-insert_other (m.erase t.internal_to_external from) to external from
              (absent-other t.internal_to_external from to external free e)
            ∙ l.find-erase_self t.internal_to_external from;
        others = λ x other. l.find-assign_other t.external_to_internal external to x other;
        bijection = record {
          to =
              remap-IsInverse t.external_to_internal t.internal_to_external external from to b.to e
                free;
          from =
              remap-IsInverse_back t.external_to_internal t.internal_to_external external from to
                b.from e free;
        };
      },
    )
