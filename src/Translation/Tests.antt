-- ===== src/Translation/Tests.antt =====
-- The translator over maps that are functions, with two entries.
use scalable_vector_search.Translation.{
  HashMap, IsHashMap, Translator, TranslationError, done, thrown, internal_repeats,
  external_missing, insert, remap_internal_id, delete_external, all_unique, all_unique_from, check,
  contains, check_free, external_key, internal_key,
}
use scalable_vector_search.Translation.Bijection.{
  IsBijection, IsRemapped, remap_internal_id-IsRemapped,
}
use scalable_vector_search.Translation.Insert.{IsAdmissible, IsInserted, insert-IsInserted}
use scalable_vector_search.Translation.Delete.{IsThere, IsDeleted, delete_external-IsDeleted}
use scalable_vector_search.Translation.Vacate.{IsVacated, delete_internal-IsVacated}
use scalable_vector_search.Translation.{delete_internal, internal_missing}
use scalable_vector_search.Base.{
  ℕ, ◌≡◌, ◌≢◌, ◌⊎◌, refl, Bool, true, false, not, ◌||◌, [], ◌∷◌, Option, none, some, ◌==◌,
  if◌then◌else◌, arith, ◌∙◌,
}

abbrev pub put : (ℕ → Option ℕ) → ℕ → Option ℕ → ℕ → Option ℕ
put s k v j = if k == j then v else s j

abbrev pub functions : HashMap
functions = record {
  Map = ℕ → Option ℕ;
  empty = λ k. none;
  find = λ s k. s k;
  assign = λ s k v. put s k (some v);
  insert = λ s k v. put s k (elim (s k) [ none ↦ some v | some old ↦ some old ]);
  erase = λ s k. put s k none;
  Seen = ℕ → Bool;
  unseen = λ x. false;
  emplace = λ s x. (λ y. x == y || s y, not (s x));
}

put_self : (s : ℕ → Option ℕ) (k : ℕ) (v : Option ℕ) → put s k v k ≡ v
put_self s k v = ground arith

put_other : (s : ℕ → Option ℕ) (k j : ℕ) (v : Option ℕ) → k ≢ j → put s k v j ≡ s j
put_other s k j v ne = ground arith

pub functions-IsHashMap : IsHashMap functions
functions-IsHashMap = record {
  find-empty = λ k. refl;
  find-assign_self = λ s k v. put_self s k (some v);
  find-assign_other = λ s k v j ne. put_other s k j (some v) ne;
  find-insert_new =
      λ s k v e. put_self s k (elim (s k) [ none ↦ some v | some old ↦ some old ]) ∙ (rw e);
  find-insert_other =
      λ s k v j ne. put_other s k j (elim (s k) [ none ↦ some v | some old ↦ some old ]) ne;
  find-erase_self = λ s k. put_self s k none;
  find-erase_other = λ s k j ne. put_other s k j none ne;
  has = λ s x. s x;
  has-unseen = λ x. refl;
  emplace-answer = λ s x. refl;
  has-emplace = λ s x y. refl;
}

-- External 70 is internal 0, and external 80 is internal 1.
abbrev two_entries : Translator functions
two_entries = record {
  external_to_internal = put (put (λ k. none) 70 (some 0)) 80 (some 1);
  internal_to_external = put (put (λ k. none) 0 (some 70)) 1 (some 80);
}

two_entries-IsBijection : IsBijection functions two_entries
two_entries-IsBijection = record { to = λ e i h. ground arith; from = λ e i h. ground arith }

insert-IsInserted_example :
    IsAdmissible functions (90 ∷ 91 ∷ []) (2 ∷ 3 ∷ []) two_entries
      × ((t' : Translator functions) × (insert functions
              (90 ∷ 91 ∷ [])
              (2 ∷ 3 ∷ [])
              true
              two_entries
            ≡ done t')
          × IsInserted functions (90 ∷ 91 ∷ []) (2 ∷ 3 ∷ []) two_entries t')
    ⊎ ¬ (IsAdmissible functions (90 ∷ 91 ∷ []) (2 ∷ 3 ∷ []) two_entries)
      × ((error : TranslationError) × (insert functions (90 ∷ 91 ∷ []) (2 ∷ 3 ∷ []) true two_entries
            ≡ thrown error two_entries))
insert-IsInserted_example =
    insert-IsInserted functions functions-IsHashMap (90 ∷ 91 ∷ []) (2 ∷ 3 ∷ []) two_entries
      two_entries-IsBijection (omega arith, (omega arith, tt)) (omega arith, (omega arith, tt))

-- A repeated internal id is refused.
insert_run :
    insert functions (90 ∷ 91 ∷ []) (2 ∷ 2 ∷ []) true two_entries
    ≡ thrown internal_repeats two_entries
unfolding insert check_free all_unique all_unique_from check contains external_key internal_key
insert_run = refl

remap_internal_id-IsRemapped_example :
    (t' : Translator functions) × (remap_internal_id functions 0 5 two_entries ≡ some t')
    × IsRemapped functions functions-IsHashMap 0 5 70 two_entries t'
remap_internal_id-IsRemapped_example =
    remap_internal_id-IsRemapped functions functions-IsHashMap two_entries 0 5 70
      two_entries-IsBijection refl refl

delete_external-IsDeleted_example :
    IsThere functions two_entries.external_to_internal (80 ∷ 70 ∷ [])
      × ((t' : Translator functions) × (delete_external functions (80 ∷ 70 ∷ []) true two_entries
            ≡ done t')
          × IsDeleted functions (80 ∷ 70 ∷ []) two_entries t')
    ⊎ ¬ (IsThere functions two_entries.external_to_internal (80 ∷ 70 ∷ []))
      × (delete_external functions (80 ∷ 70 ∷ []) true two_entries
          ≡ thrown external_missing two_entries)
delete_external-IsDeleted_example =
    delete_external-IsDeleted functions functions-IsHashMap (80 ∷ 70 ∷ []) two_entries
      two_entries-IsBijection ((λ e. omega (arith, e), tt), (tt, tt))
      (omega arith, (omega arith, tt))

delete_internal-IsVacated_example :
    IsThere functions two_entries.internal_to_external (1 ∷ 0 ∷ [])
      × ((t' : Translator functions) × (delete_internal functions (1 ∷ 0 ∷ []) true two_entries
            ≡ done t')
          × IsVacated functions (1 ∷ 0 ∷ []) two_entries t')
    ⊎ ¬ (IsThere functions two_entries.internal_to_external (1 ∷ 0 ∷ []))
      × (delete_internal functions (1 ∷ 0 ∷ []) true two_entries
          ≡ thrown internal_missing two_entries)
delete_internal-IsVacated_example =
    delete_internal-IsVacated functions functions-IsHashMap (1 ∷ 0 ∷ []) two_entries
      two_entries-IsBijection ((λ e. omega (arith, e), tt), (tt, tt))
      (omega arith, (omega arith, tt))
