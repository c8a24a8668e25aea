-- ===== src/Index/Deleting.antt =====
-- `delete_entries` of the mutable index.
use native.Mathlib.Decide.{ℕ_discrete}
use native.Mathlib.Nat.{mod-eq_of_lt}
use scalable_vector_search.Candidates.Slots.{get_elem?-lt, get_elem?-some_lt}
use scalable_vector_search.Translation.{
  HashMap, IsHashMap, Translator, Result, external_missing, external_key, check, get_internal,
  delete_external,
}
use scalable_vector_search.Translation.Checks.{IsDistinctIds}
use scalable_vector_search.Translation.Delete.{
  IsThere, check-IsThere, IsThere-check, IsDeleted, delete_external-IsDeleted,
}
use scalable_vector_search.Index.{
  SlotMetadata, valid, deleted, Index, done, thrown, delete_entry, mark_deleted, forget_ids,
  delete_entries, get_datum, translate_external_id,
}
use scalable_vector_search.Index.Slots.{IsIndex}
use scalable_vector_search.Base.{
  ℕ, ◌^◌, ◌<◌, ◌≡◌, ◌≢◌, ◌⊎◌, inl, inr, refl, sym, ap, ◌∙◌, subst, true, false, not, List, [], ◌∷◌,
  none, some, some-inj, get_elem?, set, length, length-set, arith, Bool-cases, All, All-map,
  get_elem?-set_self, get_elem?-set_ne, Option-cases,
}

module _ (m : HashMap) where
  -- What the loop leaves of the states.
  record IsMarked (t : Translator m) (ids : List ℕ) (status status' : List SlotMetadata)
      : Type 0 where
    same_length : length status' ≡ length status
    marked :
        All
          (λ e.
            (i : ℕ) → m.find t.external_to_internal e ≡ some i → get_elem? status' i ≡ some deleted)
          ids
    kept :
        (i : ℕ)
        → All (λ e. m.find t.external_to_internal e ≢ some i) ids
        → get_elem? status' i ≡ get_elem? status i
    only_deleted :
        (i : ℕ) → (get_elem? status' i ≡ get_elem? status i) ⊎ (get_elem? status' i ≡ some deleted)

  -- A slot that is still valid belongs to an id that was not deleted.
  still_valid :
      (t : Translator m) (ids : List ℕ) (status status' : List SlotMetadata) (i : ℕ)
      → IsMarked t ids status status'
      → get_elem? status' i ≡ some valid
      → (get_elem? status i ≡ some valid) × All (λ e. m.find t.external_to_internal e ≢ some i) ids
  still_valid t ids status status' i k h = (
    elim (k.only_deleted i) [
      | inl same ↦ sym same ∙ h
      | inr gone ↦ absurd (alive (some-inj (sym gone ∙ h)))
    ],
    All-map
        (λ e.
          (j : ℕ) → m.find t.external_to_internal e ≡ some j → get_elem? status' j ≡ some deleted)
        (λ e. m.find t.external_to_internal e ≢ some i)
        (λ e f at. alive (some-inj (sym (f i at) ∙ h))) ids k.marked,
  )
    where
      alive : deleted ≢ valid
      alive e = cc

module _ (m : HashMap) {V : Type 0} where
  mark_step :
      (e i : ℕ) (ids : List ℕ) (ix : Index m V) (s : SlotMetadata)
      → m.find ix.translator.external_to_internal e ≡ some i
      → get_elem? ix.status i ≡ some s
      → mark_deleted m (e ∷ ids) ix
        ≡ mark_deleted m ids (record ix { status = set ix.status i deleted })
  unfolding mark_deleted get_internal delete_entry
  mark_step e i ids ix s at state = rw (at, mark_deleted, state) refl

  mark_deleted-IsMarked :
      (ids : List ℕ) (ix : Index m V)
      → IsThere m ix.translator.external_to_internal ids
      → ((e i : ℕ) → m.find ix.translator.external_to_internal e ≡ some i → i < length ix.status)
      → (status' : List SlotMetadata) × (mark_deleted m ids ix
          ≡ done (record ix { status = status' }))
        × IsMarked m ix.translator ids ix.status status'
  unfolding mark_deleted
  mark_deleted-IsMarked [] ix there inside = (
    ix.status,
    refl,
    record { same_length = refl; marked = tt; kept = λ i h. refl; only_deleted = λ i. inl refl },
  )
  mark_deleted-IsMarked (e ∷ ids) ix there inside =
      let (i, at) = there.0 in
      let room = inside e i at in
      let (s, state) = get_elem?-lt ix.status i room in
      let status1 = set ix.status i deleted in
      let here = get_elem?-set_self ix.status i deleted room in
      let (status', runs, k) =
        mark_deleted-IsMarked ids (record ix { status = status1 }) there.1
          (λ x j h. omega (arith, inside x j h, length-set ix.status i deleted)) in
      (
        status',
        mark_step e i ids ix s at state ∙ runs,
        record {
          same_length = k.same_length ∙ length-set ix.status i deleted;
          marked = (
            λ j h.
                subst (λ z. get_elem? status' z ≡ some deleted) (some-inj (sym at ∙ h))
                  (elim (k.only_deleted i) [ inl same ↦ same ∙ here | inr gone ↦ gone ]),
            k.marked,
          );
          kept = λ j h.
              k.kept j h.1 ∙ get_elem?-set_ne ix.status deleted (λ same. h.0 (at ∙ ap some same));
          only_deleted = λ j. elim (ℕ_discrete i j) [
            | yes same ↦ inr (
                subst (λ z. get_elem? status' z ≡ some deleted) same
                  (elim (k.only_deleted i) [ inl kept ↦ kept ∙ here | inr gone ↦ gone ]))
            | no other ↦ elim (k.only_deleted j) [
              | inl kept ↦ inl (kept ∙ get_elem?-set_ne ix.status deleted other)
              | inr gone ↦ inr gone
            ]
          ];
        },
      )

  -- What the deletion of the entries leaves.
  pub record IsEntriesDeleted (ids : List ℕ) (ix ix' : Index m V) : Type 0 where
    pub index : IsIndex m ix'
    pub gone : All (λ e. get_datum m ix' e ≡ none) ids
    pub others : (e : ℕ) → All (λ x. x ≢ e) ids → get_datum m ix' e ≡ get_datum m ix e
    pub marked :
        All
          (λ e.
            (i : ℕ)
            → m.find ix.translator.external_to_internal e ≡ some i
            → get_elem? ix'.status i ≡ some deleted)
          ids
    pub same_graph : ix'.graph ≡ ix.graph
    pub same_entry_points : ix'.entry_points ≡ ix.entry_points

  deleted-IsIndex :
      (ids : List ℕ) (ix : Index m V) (status' : List SlotMetadata) (t' : Translator m)
      → IsIndex m ix
      → IsMarked m ix.translator ids ix.status status'
      → IsDeleted m ids ix.translator t'
      → IsIndex m (record ix { status = status'; translator = t' })
  deleted-IsIndex ids ix status' t' w k d = record {
    slots = k.same_length ∙ w.slots;
    rows = w.rows;
    is_graph = w.is_graph;
    inside = w.inside;
    bijection = d.bijection;
    tracked = λ e i at.
        let apart : All (λ x. x ≢ e) ids =
          All-map (λ x. m.find t'.external_to_internal x ≡ none) (λ x. x ≢ e)
            (λ x missing same. missing_known x e i missing at same) ids d.gone in
        let was = sym (d.others e apart) ∙ at in
        k.kept i (
          All-map (λ x. x ≢ e) (λ x. m.find ix.translator.external_to_internal x ≢ some i)
            (λ x ne there. ne (some-inj (sym (w.bijection.to x i there) ∙ w.bijection.to e i was)))
            ids apart)
        ∙ w.tracked e i was;
    known = λ i h.
        let (was, others) = still_valid m ix.translator ids ix.status status' i k h in
        let (e, back) = w.known i was in
        let there = w.bijection.from i e back in
        let apart : All (λ x. x ≢ e) ids =
          All-map (λ x. m.find ix.translator.external_to_internal x ≢ some i) (λ x. x ≢ e)
            (λ x ne same.
              ne (
                subst (λ z. m.find ix.translator.external_to_internal z ≡ some i) (sym same) there))
            ids others in
        (e, d.bijection.to e i (d.others e apart ∙ there));
  }
    where
      missing_known :
          (x e i : ℕ)
          → m.find t'.external_to_internal x ≡ none
          → m.find t'.external_to_internal e ≡ some i
          → x ≢ e
      missing_known x e i missing at same = cc (missing, at, same)

  get_datum_missing :
      (ix : Index m V) (e : ℕ)
      → m.find ix.translator.external_to_internal e ≡ none
      → get_datum m ix e ≡ none
  unfolding get_datum translate_external_id get_internal
  get_datum_missing ix e h = rw (h, get_datum) refl

  get_datum_same :
      (ix ix' : Index m V) (e : ℕ)
      → m.find ix'.translator.external_to_internal e ≡ m.find ix.translator.external_to_internal e
      → ix'.vectors ≡ ix.vectors
      → get_datum m ix' e ≡ get_datum m ix e
  unfolding get_datum translate_external_id get_internal
  get_datum_same ix ix' e h same =
      elim (Option-cases (m.find ix.translator.external_to_internal e)) [
        | inl missing ↦ rw (h ∙ missing, get_datum, missing) refl
        | inr (i, at) ↦ rw (h ∙ at, get_datum, at, same) refl
      ]

  delete_entries_refused :
      (ids : List ℕ) (ix : Index m V)
      → check m not external_key ix.translator.external_to_internal ids ≡ false
      → delete_entries m ids ix ≡ thrown external_missing ix
  unfolding delete_entries
  delete_entries_refused ids ix e = rw (e, delete_entries) refl

  delete_entries_runs :
      (ids : List ℕ) (ix : Index m V) (status' : List SlotMetadata) (t' : Translator m)
      → check m not external_key ix.translator.external_to_internal ids ≡ true
      → mark_deleted m ids ix ≡ done (record ix { status = status' })
      → delete_external m ids true ix.translator ≡ Result.done t'
      → delete_entries m ids ix ≡ done (record ix { status = status'; translator = t' })
  unfolding delete_entries forget_ids
  delete_entries_runs ids ix status' t' passes marks deletes =
      rw (passes, delete_entries, marks, forget_ids, deletes) refl

  module _ (l : IsHashMap m) where
    -- On a well-formed index, a deletion of distinct 64-bit ids goes through exactly if all of them are
    -- there. Then they have no datum any more and their slots are deleted, the data of all other ids,
    -- the graph and the entry points are as they were, and the index is well formed; otherwise an
    -- exception leaves the index as it was.
    pub delete_entries-IsEntriesDeleted :
        (ids : List ℕ) (ix : Index m V)
        → IsIndex m ix
        → IsDistinctIds ids
        → All (λ e. e < 2 ^ 64) ids
        → IsThere m ix.translator.external_to_internal ids
            × ((ix' : Index m V) × (delete_entries m ids ix ≡ done ix')
                × IsEntriesDeleted ids ix ix')
          ⊎ ¬ (IsThere m ix.translator.external_to_internal ids)
            × (delete_entries m ids ix ≡ thrown external_missing ix)
    unfolding external_key
    delete_entries-IsEntriesDeleted ids ix w d small =
        let keys =
          All-map (λ e. e < 2 ^ 64) (λ e. external_key e ≡ e) (λ e h. mod-eq_of_lt h) ids small in
        elim (delete_external-IsDeleted m l ids ix.translator w.bijection d small) [
          | inr (absent, failed) ↦ inr (
            absent,
            delete_entries_refused ids ix
                (elim (Bool-cases
                  (check m not external_key ix.translator.external_to_internal ids)) [
                    | inl passes ↦ absurd (
                        absent (
                          check-IsThere m external_key ix.translator.external_to_internal ids keys
                            passes))
                    | inr fails ↦ fails
                  ]),
          )
          | inl (there, (t', deletes, r)) ↦
              let (status', marks, k) =
                mark_deleted-IsMarked ids ix there
                  (λ e i h. get_elem?-some_lt ix.status i valid (w.tracked e i h)) in
              let ix' = record ix { status = status'; translator = t' } in
              inl (
                there,
                (
                  ix',
                  delete_entries_runs ids ix status' t'
                      (IsThere-check m external_key ix.translator.external_to_internal ids keys
                        there)
                      marks deletes,
                  record {
                    index = deleted-IsIndex ids ix status' t' w k r;
                    gone =
                        All-map (λ e. m.find t'.external_to_internal e ≡ none)
                          (λ e. get_datum m ix' e ≡ none) (λ e h. get_datum_missing ix' e h) ids
                          r.gone;
                    others = λ e apart. get_datum_same ix ix' e (r.others e apart) refl;
                    marked = k.marked;
                    same_graph = refl;
                    same_entry_points = refl;
                  },
                ),
              )
        ]
