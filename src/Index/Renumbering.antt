-- ===== src/Index/Renumbering.antt =====
-- The new ids of the valid slots: `nonmissing_indices` and the map from old to new ids.
use scalable_vector_search.Translation.{HashMap, IsHashMap}
use scalable_vector_search.Compaction.Batches.{IsAscending}
use scalable_vector_search.Index.{
  SlotMetadata, valid, is_valid, nonmissing_from, nonmissing_indices,
}
use scalable_vector_search.Index.Compacting.{old_to_new_from, old_to_new, remap_list}
use scalable_vector_search.Index.Slots.{is_valid-only}
use scalable_vector_search.Base.{
  ℕ, zero, suc, ◌+◌, ◌≤◌, ◌<◌, ◌≡◌, inl, inr, refl, sym, ap, ◌∙◌, subst, true, false, List, [], ◌∷◌,
  none, some, some-inj, get_elem?, length, arith, Bool-cases, All, All-map,
}

nonmissing_valid :
    (start : ℕ) (s : SlotMetadata) (status : List SlotMetadata)
    → is_valid s ≡ true
    → nonmissing_from start (s ∷ status) ≡ start ∷ nonmissing_from (start + 1) status
unfolding nonmissing_from
nonmissing_valid start s status e = rw (e, nonmissing_from) refl

nonmissing_skip :
    (start : ℕ) (s : SlotMetadata) (status : List SlotMetadata)
    → is_valid s ≡ false
    → nonmissing_from start (s ∷ status) ≡ nonmissing_from (start + 1) status
unfolding nonmissing_from
nonmissing_skip start s status e = rw (e, nonmissing_from) refl

-- A list of ids from `start` on, each of a valid slot, and each valid slot in its place.
record IsNumbering (start : ℕ) (status : List SlotMetadata) (ids : List ℕ) : Type 0 where
  above : All (λ o. start ≤ o) ids
  ascending : IsAscending ids
  sound :
      (k o : ℕ)
      → get_elem? ids k ≡ some o
      → (j : ℕ) × (o ≡ start + j) × (get_elem? status j ≡ some valid)
  complete :
      (j : ℕ) → get_elem? status j ≡ some valid → (k : ℕ) × (get_elem? ids k ≡ some (start + j))

IsNumbering-valid :
    (start : ℕ) (status : List SlotMetadata) (ids : List ℕ)
    → IsNumbering (start + 1) status ids
    → IsNumbering start (valid ∷ status) (start ∷ ids)
IsNumbering-valid start status ids n = record {
  above =
      (omega arith, All-map (λ o. start + 1 ≤ o) (λ o. start ≤ o) (λ o h. omega arith) ids n.above);
  ascending =
      (All-map (λ o. start + 1 ≤ o) (λ o. start < o) (λ o h. omega arith) ids n.above, n.ascending);
  sound = numbered;
  complete = placed;
}
  where
    numbered :
        (k o : ℕ)
        → get_elem? (start ∷ ids) k ≡ some o
        → (j : ℕ) × (o ≡ start + j) × (get_elem? (valid ∷ status) j ≡ some valid)
    numbered zero o e = (0, omega (arith, some-inj e), refl)
    numbered (suc k) o e = let (j, same, at) = n.sound k o e in (suc j, omega (arith, same), at)

    placed :
        (j : ℕ)
        → get_elem? (valid ∷ status) j ≡ some valid
        → (k : ℕ) × (get_elem? (start ∷ ids) k ≡ some (start + j))
    placed zero e = (0, ap some (omega arith))
    placed (suc j) e = let (k, at) = n.complete j e in (suc k, at ∙ ap some (omega arith))

IsNumbering-skip :
    (start : ℕ) (s : SlotMetadata) (status : List SlotMetadata) (ids : List ℕ)
    → is_valid s ≡ false
    → IsNumbering (start + 1) status ids
    → IsNumbering start (s ∷ status) ids
unfolding is_valid
IsNumbering-skip start s status ids out n = record {
  above = All-map (λ o. start + 1 ≤ o) (λ o. start ≤ o) (λ o h. omega arith) ids n.above;
  ascending = n.ascending;
  sound = λ k o e. let (j, same, at) = n.sound k o e in (suc j, omega (arith, same), at);
  complete = placed;
}
  where
    placed :
        (j : ℕ)
        → get_elem? (s ∷ status) j ≡ some valid
        → (k : ℕ) × (get_elem? ids k ≡ some (start + j))
    placed zero e = absurd (cc (ap is_valid (some-inj e), out))
    placed (suc j) e = let (k, at) = n.complete j e in (k, at ∙ ap some (omega arith))

nonmissing_from-IsNumbering :
    (start : ℕ) (status : List SlotMetadata)
    → IsNumbering start status (nonmissing_from start status)
unfolding nonmissing_from
nonmissing_from-IsNumbering start [] = record {
  above = tt;
  ascending = tt;
  sound = λ k o e. cc;
  complete = λ j e. cc;
}
nonmissing_from-IsNumbering start (s ∷ status) = elim (Bool-cases (is_valid s)) [
  | inl is ↦ subst (IsNumbering start (s ∷ status)) (sym (nonmissing_valid start s status is)) (
      subst (λ z. IsNumbering start (z ∷ status) (start ∷ nonmissing_from (start + 1) status))
        (sym (is_valid-only s is))
        (IsNumbering-valid start status (nonmissing_from (start + 1) status)
          (nonmissing_from-IsNumbering (start + 1) status)))
  | inr out ↦ subst (IsNumbering start (s ∷ status)) (sym (nonmissing_skip start s status out)) (
      IsNumbering-skip start s status (nonmissing_from (start + 1) status) out
        (nonmissing_from-IsNumbering (start + 1) status))
]

-- The valid slots in ascending order.
pub record IsNonmissing (status : List SlotMetadata) (ids : List ℕ) : Type 0 where
  pub ascending : IsAscending ids
  pub sound : (k o : ℕ) → get_elem? ids k ≡ some o → get_elem? status o ≡ some valid
  pub complete : (o : ℕ) → get_elem? status o ≡ some valid → (k : ℕ) × (get_elem? ids k ≡ some o)

pub nonmissing_indices-IsNonmissing :
    (status : List SlotMetadata) → IsNonmissing status (nonmissing_indices status)
unfolding nonmissing_indices
nonmissing_indices-IsNonmissing status =
    let n = nonmissing_from-IsNumbering 0 status in
    record {
      ascending = n.ascending;
      sound = λ k o e.
          let (j, same, at) = n.sound k o e in
          subst (λ z. get_elem? status z ≡ some valid) (omega (arith, same)) at;
      complete = λ o e. let (k, at) = n.complete o e in (k, at ∙ ap some (omega arith));
    }

module _ (m : HashMap) (l : IsHashMap m) where
  old_to_new_from-others :
      (ids : List ℕ) (start x : ℕ) (s : m.Map)
      → All (λ o. x < o) ids
      → m.find (old_to_new_from m ids start s) x ≡ m.find s x
  unfolding old_to_new_from
  old_to_new_from-others [] start x s h = refl
  old_to_new_from-others (o ∷ ids) start x s h =
      old_to_new_from-others ids (start + 1) x (m.insert s o start) h.1
      ∙ l.find-insert_other s o start x (λ e. omega (arith, e, h.0))

  find-old_to_new_from :
      (ids : List ℕ) (start : ℕ) (s : m.Map) (k o : ℕ)
      → IsAscending ids
      → All (λ x. m.find s x ≡ none) ids
      → get_elem? ids k ≡ some o
      → m.find (old_to_new_from m ids start s) o ≡ some (start + k)
  unfolding old_to_new_from
  find-old_to_new_from [] start s k o a free e = cc
  find-old_to_new_from (x ∷ ids) start s zero o a free e =
      subst
        (λ z. m.find (old_to_new_from m ids (start + 1) (m.insert s x start)) z ≡ some (start + 0))
        (some-inj e)
        (old_to_new_from-others ids (start + 1) x (m.insert s x start) a.0
          ∙ l.find-insert_new s x start free.0
          ∙ ap some (omega arith))
  find-old_to_new_from (x ∷ ids) start s (suc k) o a free e =
      find-old_to_new_from ids (start + 1) (m.insert s x start) k o a.1 (still_free ids a.0 free.1)
        e
      ∙ ap some (omega arith)
    where
      still_free :
          (ys : List ℕ)
          → All (λ y. x < y) ys
          → All (λ y. m.find s y ≡ none) ys
          → All (λ y. m.find (m.insert s x start) y ≡ none) ys
      still_free [] b f = tt
      still_free (y ∷ ys) b f = (
        l.find-insert_other s x start y (λ same. omega (arith, same, b.0)) ∙ f.0,
        still_free ys b.1 f.1,
      )

  all_free : (ids : List ℕ) → All (λ x. m.find m.empty x ≡ none) ids
  all_free [] = tt
  all_free (x ∷ ids) = (l.find-empty x, all_free ids)

  -- An old id's new id is its place.
  pub find-old_to_new :
      (ids : List ℕ) (k o : ℕ)
      → IsAscending ids
      → get_elem? ids k ≡ some o
      → m.find (old_to_new m ids) o ≡ some k
  unfolding old_to_new
  find-old_to_new ids k o a e =
      find-old_to_new_from ids 0 m.empty k o a (all_free ids) e ∙ ap some (omega arith)

  pub remap_list-bounded :
      (s : m.Map) (n : ℕ) (list : List ℕ)
      → All (λ x. (k : ℕ) × (m.find s x ≡ some k) × k < n) list
      → (list' : List ℕ) × (remap_list m s list ≡ some list')
        × (length list' ≡ length list)
        × All (λ x. x < n) list'
  unfolding remap_list
  remap_list-bounded s n [] h = ([], refl, refl, tt)
  remap_list-bounded s n (x ∷ list) h =
      let (k, at, small) = h.0 in
      let (rest, runs, same, bounded) = remap_list-bounded s n list h.1 in
      (k ∷ rest, rw (at, remap_list, runs) refl, ap suc same, (small, bounded))
