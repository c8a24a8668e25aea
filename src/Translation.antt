-- ===== src/Translation.antt =====
-- `IDTranslator` of include/svs/core/translation.h, and `all_unique` of include/svs/lib/algorithms.h.
-- External ids are 64 and internal ids 32 bits wide. The hash map
-- `tsl::robin_map` and the hash set `tsl::robin_set` are a parameter. `at` on a missing key throws.
pub mod Bijection
pub mod Checks
pub mod Insert
pub mod Delete
pub mod Vacate
pub mod Tests
use scalable_vector_search.Base.{
  ℕ, zero, suc, ◌+◌, ◌%◌, ◌^◌, ◌≡◌, ◌≢◌, Bool, true, false, not, ◌&&◌, ◌||◌, List, [], ◌∷◌, Option,
  none, some, length, ltb, ◌==◌, if◌then◌else◌,
}

-- What the translator calls of a hash map between numbers: look up, `operator[]` with an
-- assignment, `insert`, `erase`; and of a hash set: `emplace`, which tells whether it inserted.
pub record HashMap : Type 1 where
  pub Map : Type 0
  pub empty : Map
  pub find : Map → ℕ → Option ℕ
  pub assign : Map → ℕ → ℕ → Map
  pub insert : Map → ℕ → ℕ → Map
  pub erase : Map → ℕ → Map
  pub Seen : Type 0
  pub unseen : Seen
  pub emplace : Seen → ℕ → Seen × Bool

-- The documented behaviour of those calls; `insert` keeps a value that is there.
pub record IsHashMap (m : HashMap) : Type 0 where
  pub find-empty : (k : ℕ) → m.find m.empty k ≡ none
  pub find-assign_self : (s : m.Map) (k v : ℕ) → m.find (m.assign s k v) k ≡ some v
  pub find-assign_other : (s : m.Map) (k v j : ℕ) → k ≢ j → m.find (m.assign s k v) j ≡ m.find s j
  pub find-insert_new :
      (s : m.Map) (k v : ℕ) → m.find s k ≡ none → m.find (m.insert s k v) k ≡ some v
  pub find-insert_other : (s : m.Map) (k v j : ℕ) → k ≢ j → m.find (m.insert s k v) j ≡ m.find s j
  pub find-erase_self : (s : m.Map) (k : ℕ) → m.find (m.erase s k) k ≡ none
  pub find-erase_other : (s : m.Map) (k j : ℕ) → k ≢ j → m.find (m.erase s k) j ≡ m.find s j
  pub has : m.Seen → ℕ → Bool
  pub has-unseen : (x : ℕ) → has m.unseen x ≡ false
  pub emplace-answer : (s : m.Seen) (x : ℕ) → (m.emplace s x).1 ≡ not (has s x)
  pub has-emplace : (s : m.Seen) (x y : ℕ) → has (m.emplace s x).0 y ≡ (x == y || has s y)

-- The exceptions.
pub data TranslationError : Type 0 where
  length_mismatch external_repeats internal_repeats external_taken internal_taken external_missing
        internal_missing narrowing_error :
      TranslationError

-- The conversion of an id to the key type of its map.
unfoldable pub external_key : ℕ → ℕ
external_key e = e % 2 ^ 64

unfoldable pub internal_key : ℕ → ℕ
internal_key i = i % 2 ^ 32

module _ (m : HashMap) where
  -- `all_unique` over the elements to come, with the set of those before.
  unfoldable pub all_unique_from : m.Seen → List ℕ → Bool
  all_unique_from seen [] = true
  all_unique_from seen (x ∷ xs) =
      let r = m.emplace seen x in
      let rest = all_unique_from r.0 xs in if not r.1 then false else rest

  unfoldable pub all_unique : List ℕ → Bool
  unfolding all_unique_from
  all_unique xs = all_unique_from m.unseen xs

  pub record Translator : Type 0 where
    pub external_to_internal : m.Map
    pub internal_to_external : m.Map

  -- A call that throws leaves a translator, too; `fault` is a read past the end of a range.
  pub data Result : Type 0 where
    done : Translator → Result
    thrown : TranslationError → Translator → Result
    fault : Result

  unfoldable pub contains : m.Map → ℕ → Bool
  contains s k = elim (m.find s k) [ none ↦ false | some _ ↦ true ]

  unfoldable pub has_external : Translator → ℕ → Bool
  unfolding contains
  has_external t e = contains t.external_to_internal e

  unfoldable pub has_internal : Translator → ℕ → Bool
  unfolding contains
  has_internal t i = contains t.internal_to_external i

  -- `none` is the exception of `at`.
  unfoldable pub get_internal : Translator → ℕ → Option ℕ
  get_internal t e = m.find t.external_to_internal e

  unfoldable pub get_external : Translator → ℕ → Option ℕ
  get_external t i = m.find t.internal_to_external i

  -- `check` on the ids converted to the map's key type: whether no id is refused.
  unfoldable pub check : (Bool → Bool) → (ℕ → ℕ) → m.Map → List ℕ → Bool
  unfolding contains
  check modify key s [] = true
  check modify key s (x ∷ xs) =
      let rest = check modify key s xs in if modify (contains s (key x)) then false else rest

  -- The narrowing of the internal id is evaluated before the entry is made.
  unfoldable pub insert_translation : ℕ → ℕ → Translator → Result
  insert_translation e i t =
      if ltb i (2 ^ 32)
      then done (record {
        external_to_internal = m.assign t.external_to_internal e i;
        internal_to_external = m.assign t.internal_to_external i e;
      })
      else thrown narrowing_error t

  -- The loop of `insert`, which goes on until both ranges are at their ends.
  unfoldable pub insert_all : List ℕ → List ℕ → Translator → Result
  insert_all [] [] t = done t
  insert_all [] (i ∷ internal) t = fault
  insert_all (e ∷ external) [] t = fault
  insert_all (e ∷ external) (i ∷ internal) t = elim (insert_translation e i t) [
    | done t' ↦ insert_all external internal t'
    | thrown error t' ↦ thrown error t'
    | fault ↦ fault
  ]

  unfoldable pub check_free : List ℕ → List ℕ → Translator → Option TranslationError
  unfolding all_unique check external_key internal_key
  check_free external internal t =
      if not (all_unique external)
      then some external_repeats
      else if not (all_unique internal)
      then some internal_repeats
      else if not (check (λ b. b) external_key t.external_to_internal external)
      then some external_taken
      else if not (check (λ b. b) internal_key t.internal_to_external internal)
      then some internal_taken
      else none

  unfoldable pub insert : List ℕ → List ℕ → Bool → Translator → Result
  unfolding check_free insert_all
  insert external internal checked t =
      if not (length external == length internal)
      then thrown length_mismatch t
      else elim (if checked then check_free external internal t else none) [
        | some error ↦ thrown error t
        | none ↦ insert_all external internal t
      ]

  -- `remap_internal_id`, where `none` is the use of an iterator at the end.
  unfoldable pub remap_internal_id : ℕ → ℕ → Translator → Option Translator
  remap_internal_id from to t = elim (m.find t.internal_to_external from) [
    | none ↦ none
    | some external ↦ some (record {
      external_to_internal = m.assign t.external_to_internal external to;
      internal_to_external = m.insert (m.erase t.internal_to_external from) to external;
    })
  ]

  -- The loops of `delete_internal` and `delete_external`.
  unfoldable pub delete_all_internal : List ℕ → Translator → Result
  unfolding get_external
  delete_all_internal [] t = done t
  delete_all_internal (i ∷ ids) t = elim (get_external t i) [
    | none ↦ thrown internal_missing t
    | some e ↦ delete_all_internal ids (record {
      external_to_internal = m.erase t.external_to_internal e;
      internal_to_external = m.erase t.internal_to_external i;
    })
  ]

  unfoldable pub delete_all_external : List ℕ → Translator → Result
  unfolding get_internal
  delete_all_external [] t = done t
  delete_all_external (e ∷ ids) t = elim (get_internal t e) [
    | none ↦ thrown external_missing t
    | some i ↦ delete_all_external ids (record {
      external_to_internal = m.erase t.external_to_internal e;
      internal_to_external = m.erase t.internal_to_external i;
    })
  ]

  unfoldable pub delete_internal : List ℕ → Bool → Translator → Result
  unfolding check delete_all_internal internal_key
  delete_internal ids checked t =
      if checked && not (check not internal_key t.internal_to_external ids)
      then thrown internal_missing t
      else delete_all_internal ids t

  unfoldable pub delete_external : List ℕ → Bool → Translator → Result
  unfolding check delete_all_external external_key
  delete_external ids checked t =
      if checked && not (check not external_key t.external_to_internal ids)
      then thrown external_missing t
      else delete_all_external ids t
