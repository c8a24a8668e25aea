-- ===== src/Index.antt =====
-- The mutable index, `MutableVamanaIndex` of include/svs/index/vamana/dynamic_index.h: a graph, the data
-- of its vertices, the state of each slot, and the translation between external and internal ids.
-- Vectors are values of a type V. A call that throws leaves an index, too; `out_of_range` is the
-- exception of a map's `at` in the middle of a compaction, whose index is not modelled. `fault` is a
-- read past the end of a vector, which the source leaves undefined; such a slot counts as deleted.
pub mod Compacting
pub mod Adding
pub mod Found
pub mod Room
pub mod Filled
pub mod Extended
pub mod Added
pub mod Slots
pub mod Renumbering
pub mod Moved
pub mod Relocated
pub mod Resized
pub mod Rebuilt
pub mod Compacted
pub mod Deleting
pub mod Consolidating
pub mod Tests
use scalable_vector_search.Graph.{Graph, get_node}
use scalable_vector_search.Translation.{
  HashMap, Translator, Result, TranslationError, external_missing, external_key, check,
  get_internal, get_external, has_external, delete_external,
}
use scalable_vector_search.Consolidate.{Candidate, CandidateSet, ConsolidateResult, consolidate}
use scalable_vector_search.Base.{
  ℕ, zero, suc, ◌+◌, ◌-◌, Bool, true, false, not, List, [], ◌∷◌, ◌++◌, Option, none, some, map,
  get_elem?, set, take, replicate, length, if◌then◌else◌,
}

pub data SlotMetadata : Type 0 where
  empty valid deleted : SlotMetadata

unfoldable pub is_valid : SlotMetadata → Bool
is_valid empty = false
is_valid valid = true
is_valid deleted = false

unfoldable pub is_empty_slot : SlotMetadata → Bool
is_empty_slot empty = true
is_empty_slot valid = false
is_empty_slot deleted = false

unfoldable pub is_deleted_slot : SlotMetadata → Bool
is_deleted_slot empty = false
is_deleted_slot valid = false
is_deleted_slot deleted = true

-- `resize` of a vector.
unfoldable pub resized : {A : Type 0} → ℕ → A → List A → List A
resized n x xs = take n xs ++ replicate (n - length xs) x

-- `is_deleted` on the states of the slots.
unfoldable pub is_deleted : List SlotMetadata → ℕ → Bool
unfolding is_valid
is_deleted status i = elim (get_elem? status i) [ none ↦ true | some s ↦ not (is_valid s) ]

-- Whether the neighbor that `ValidBuilder` builds is valid.
unfoldable pub builds_valid : List SlotMetadata → ℕ → Option Bool
unfolding is_deleted_slot
builds_valid status i = elim (get_elem? status i) [
  | none ↦ none
  | some s ↦ some (not (is_deleted_slot s))
]

-- `delete_entry`.
unfoldable pub delete_entry : ℕ → List SlotMetadata → Option (List SlotMetadata)
delete_entry i status = elim (get_elem? status i) [
  | none ↦ none
  | some s ↦ some (set status i deleted)
]

-- The loop of `nonmissing_indices` from i on.
unfoldable pub nonmissing_from : ℕ → List SlotMetadata → List ℕ
unfolding is_valid
nonmissing_from i [] = []
nonmissing_from i (s ∷ status) =
    let rest = nonmissing_from (i + 1) status in if is_valid s then i ∷ rest else rest

unfoldable pub nonmissing_indices : List SlotMetadata → List ℕ
unfolding nonmissing_from
nonmissing_indices status = nonmissing_from 0 status

-- The last loop of `consolidate`.
unfoldable pub vacate : List SlotMetadata → List SlotMetadata
unfolding is_deleted_slot
vacate [] = []
vacate (s ∷ status) = (if is_deleted_slot s then empty else s) ∷ vacate status

pub record Index (m : HashMap) (V : Type 0) : Type 0 where
  pub graph : Graph
  pub vectors : List V
  pub dimensions : ℕ
  pub entry_points : List ℕ
  pub status : List SlotMetadata
  pub translator : Translator m
  pub max_candidates : ℕ
  pub prune_to : ℕ

pub data IndexResult (m : HashMap) (V : Type 0) : Type 0 where
  done : Index m V → IndexResult m V
  size_mismatch : Index m V → IndexResult m V
  thrown : TranslationError → Index m V → IndexResult m V
  out_of_range fault out_of_fuel : IndexResult m V

module _ (m : HashMap) {V : Type 0} where
  unfoldable pub translate_external_id : Index m V → ℕ → Option ℕ
  unfolding get_internal
  translate_external_id ix e = get_internal m ix.translator e

  unfoldable pub has_id : Index m V → ℕ → Bool
  unfolding has_external
  has_id ix e = has_external m ix.translator e

  unfoldable pub translate_internal_id : Index m V → ℕ → Option ℕ
  unfolding get_external
  translate_internal_id ix i = get_external m ix.translator i

  -- A row of `translate_to_external`.
  unfoldable pub translate_row : Index m V → List ℕ → Option (List ℕ)
  unfolding translate_internal_id
  translate_row ix [] = some []
  translate_row ix (i ∷ ids) = elim (translate_internal_id ix i) [
    | none ↦ none
    | some e ↦ elim (translate_row ix ids) [ none ↦ none | some rest ↦ some (e ∷ rest) ]
  ]

  unfoldable pub get_datum : Index m V → ℕ → Option V
  unfolding translate_external_id
  get_datum ix e = elim (translate_external_id ix e) [
    | none ↦ none
    | some i ↦ get_elem? ix.vectors i
  ]

  -- The neighbors of an external id, as external ids.
  unfoldable pub external_neighbors : Index m V → ℕ → Option (List ℕ)
  unfolding translate_external_id translate_row get_node
  external_neighbors ix e = elim (translate_external_id ix e) [
    | none ↦ none
    | some i ↦ elim (get_node ix.graph i) [ none ↦ none | some list ↦ translate_row ix list ]
  ]

  -- The loop of `delete_entries`; the exception of `get_internal`.
  unfoldable pub mark_deleted : List ℕ → Index m V → IndexResult m V
  unfolding get_internal delete_entry
  mark_deleted [] ix = done ix
  mark_deleted (e ∷ ids) ix = elim (get_internal m ix.translator e) [
    | none ↦ thrown external_missing ix
    | some i ↦ elim (delete_entry i ix.status) [
      | none ↦ fault
      | some status ↦ mark_deleted ids (record ix { status = status })
    ]
  ]

  -- The last call of `delete_entries`.
  unfoldable pub forget_ids : List ℕ → Index m V → IndexResult m V
  unfolding delete_external
  forget_ids ids ix = elim (delete_external m ids true ix.translator) [
    | Result.done t ↦ done (record ix { translator = t })
    | Result.thrown error t ↦ thrown error (record ix { translator = t })
    | Result.fault ↦ fault
  ]

  unfoldable pub delete_entries : List ℕ → Index m V → IndexResult m V
  unfolding mark_deleted forget_ids check external_key
  delete_entries ids ix =
      if not (check m not external_key ix.translator.external_to_internal ids)
      then thrown external_missing ix
      else elim (mark_deleted ids ix) [
        | done ix' ↦ forget_ids ids ix'
        | size_mismatch ix' ↦ size_mismatch ix'
        | thrown error ix' ↦ thrown error ix'
        | out_of_range ↦ out_of_range
        | fault ↦ fault
        | out_of_fuel ↦ out_of_fuel
      ]

  -- The choice of a new entry point, where `compute_entry_point` is the call of the extension.
  unfoldable pub replace_entry_point : (List V → (ℕ → Bool) → ℕ) → Index m V → Option (Index m V)
  unfolding is_deleted is_deleted_slot
  replace_entry_point compute_entry_point ix = elim (get_elem? ix.entry_points 0) [
    | none ↦ none
    | some entry_point ↦ elim (get_elem? ix.status entry_point) [
      | none ↦ none
      | some s ↦
          if is_deleted_slot s
          then some (record ix {
            entry_points =
                set ix.entry_points 0
                  (compute_entry_point ix.vectors (λ i. not (is_deleted ix.status i)));
          })
          else some ix
    ]
  ]

  -- `consolidate`. The parameters behind the first are those of the consolidation of the graph.
  unfoldable pub consolidate_index :
      (compute_entry_point : List V → (ℕ → Bool) → ℕ) (c : CandidateSet) {D : Type 0}
      (distance : List V → ℕ → ℕ → D) (by : List (Candidate D) → List (Candidate D))
      (prune : ℕ → List (Candidate D) → List ℕ → Option (List ℕ)) (width : ℕ) (thread_of : ℕ → ℕ)
      (fuel blank : ℕ) (flag : Bool) (num_threads : ℕ)
      → Index m V
      → IndexResult m V
  unfolding replace_entry_point consolidate is_deleted vacate
  consolidate_index compute_entry_point c distance by prune width thread_of fuel blank flag
        num_threads ix =
      elim (replace_entry_point compute_entry_point ix) [
        | none ↦ fault
        | some ix1 ↦
            elim (consolidate c (is_deleted ix1.status) (distance ix1.vectors) by prune width
              thread_of ix1.prune_to ix1.max_candidates fuel blank flag num_threads ix1.graph) [
                | ConsolidateResult.consolidated g ↦
                    done (record ix1 { graph = g; status = vacate ix1.status })
                | ConsolidateResult.fault ↦ fault
                | ConsolidateResult.out_of_fuel ↦ out_of_fuel
              ]
      ]
