-- ===== src/Index/Tests.antt =====
-- An index of three slots, of which 1 is deleted: external 70 is in slot 0, and external 80 in slot 2.
pub mod Points
use scalable_vector_search.Graph.{
  Graph, n_nodes, get_node, replace_node, replace_row, copy_to, adjacency, make_graph, reset,
  clear_nodes, clear_node,
}
use scalable_vector_search.Graph.Rows.{IsRow}
use scalable_vector_search.Graph.Edges.{IsGraph}
use scalable_vector_search.Threads.{unit_range, range_size}
use scalable_vector_search.Translation.{
  Translator, external_missing, remap_internal_id, check, contains, external_key, internal_key,
  insert, insert_all, insert_translation, check_free, all_unique, all_unique_from,
}
use scalable_vector_search.Translation.Tests.{put, functions, functions-IsHashMap}
use scalable_vector_search.Translation.Delete.{IsThere}
use scalable_vector_search.Prune.Rounds.{iterative}
use scalable_vector_search.Prune.Ended.{iterative-IsStrategy}
use scalable_vector_search.Consolidate.Generated.{IsInside}
use scalable_vector_search.Consolidate.Pruner.{prune_ids-IsPruner}
use scalable_vector_search.Consolidate.Tests.{
  list_set, list_set-IsCandidateSet, sorted, Permᴰ-sorted, distances, strategy,
}
use scalable_vector_search.Compaction.{
  compact_data, compact_batches, compact_batch, fill_buffer, write_back,
}
use scalable_vector_search.Index.{
  is_empty_slot, SlotMetadata, empty, valid, deleted, Index, IndexResult, done, thrown,
  out_of_range, delete_entries, get_datum, consolidate_index, translate_external_id,
  nonmissing_indices, nonmissing_from, is_valid, resized,
}
use scalable_vector_search.Index.Compacting.{
  compact, plus_idx, finish_compact, remap_slots, remap_list, old_to_new, old_to_new_from,
  unsafe_resize,
}
use scalable_vector_search.Index.Slots.{IsIndex}
use scalable_vector_search.Index.Deleting.{IsEntriesDeleted, delete_entries-IsEntriesDeleted}
use scalable_vector_search.Index.Moved.{IsClean}
use scalable_vector_search.Index.Rebuilt.{IsSameView}
use scalable_vector_search.Index.Compacted.{compact-IsSameView}
use scalable_vector_search.Index.Adding.{
  AddResult, to_build, ended, finish_points, add_points, fill_slots, make_room, grow, grow_to,
  find_slots, numbers_from, copy_points, clear_lists,
}
use scalable_vector_search.Index.Extended.{IsAdded}
use scalable_vector_search.Index.Added.{IsPrepared, add_points-IsPrepared, finish_points-IsAdded}
use scalable_vector_search.Index.Consolidating.{IsReclaimed, consolidate_index-IsReclaimed}
use scalable_vector_search.Base.{
  ◌+◌, ◌≤◌, length, sym, ◌∙◌, ℕ, zero, suc, ◌*◌, ◌<◌, ◌≡◌, ◌⊎◌, refl, subst, true, List, [], ◌∷◌,
  Option, some, none, some-inj, get_elem?, ltb, ◌==◌, arith, inl,
}

abbrev pub two_ids : Translator functions
two_ids = record {
  external_to_internal = put (put (λ k. none) 70 (some 0)) 80 (some 2);
  internal_to_external = put (put (λ k. none) 0 (some 70)) 2 (some 80);
}

abbrev index_of : List (List ℕ) → List SlotMetadata → ℕ → Index functions ℕ
index_of rows status entry_point = record {
  graph = record { rows = rows; max_degree = 2 };
  vectors = 10 ∷ 11 ∷ 12 ∷ [];
  dimensions = 1;
  entry_points = entry_point ∷ [];
  status = status;
  translator = two_ids;
  max_candidates = 9;
  prune_to = 2;
}

-- 0 to 1; 1 to 2; 2 to 1 and 0.
abbrev soft : Index functions ℕ
soft =
    index_of ((1 ∷ 1 ∷ 0 ∷ []) ∷ (1 ∷ 2 ∷ 0 ∷ []) ∷ (2 ∷ 1 ∷ 0 ∷ []) ∷ [])
      (valid ∷ deleted ∷ valid ∷ []) 1

soft-IsGraph : IsGraph soft.graph
soft-IsGraph zero row e = (
  1,
  subst (λ r. IsRow 2 r 1) (some-inj e) (record { slots = refl; head = refl; fits = omega arith }),
)
soft-IsGraph (suc zero) row e = (
  1,
  subst (λ r. IsRow 2 r 1) (some-inj e) (record { slots = refl; head = refl; fits = omega arith }),
)
soft-IsGraph (suc (suc zero)) row e = (
  2,
  subst (λ r. IsRow 2 r 2) (some-inj e) (record { slots = refl; head = refl; fits = omega arith }),
)
soft-IsGraph (suc (suc (suc i))) row e = cc

soft-IsInside : IsInside 3 soft.graph
unfolding get_node adjacency
soft-IsInside zero h = (1 ∷ [], refl, (omega arith, tt))
soft-IsInside (suc zero) h = (2 ∷ [], refl, (omega arith, tt))
soft-IsInside (suc (suc zero)) h = (1 ∷ 0 ∷ [], refl, (omega arith, (omega arith, tt)))
soft-IsInside (suc (suc (suc i))) h = absurd (omega arith)

tracked_soft :
    (e i : ℕ)
    → soft.translator.external_to_internal e ≡ some i
    → get_elem? soft.status i ≡ some valid
tracked_soft e zero h = refl
tracked_soft e (suc zero) h = ground (arith, h)
tracked_soft e (suc (suc zero)) h = refl
tracked_soft e (suc (suc (suc i))) h = ground (arith, h)

known_soft :
    (i : ℕ)
    → get_elem? soft.status i ≡ some valid
    → (e : ℕ) × (soft.translator.internal_to_external i ≡ some e)
known_soft zero h = (70, refl)
known_soft (suc zero) h = cc
known_soft (suc (suc zero)) h = (80, refl)
known_soft (suc (suc (suc i))) h = cc

soft-IsIndex : IsIndex functions soft
unfolding n_nodes
soft-IsIndex = record {
  slots = refl;
  rows = refl;
  is_graph = soft-IsGraph;
  inside = soft-IsInside;
  bijection = record { to = λ e i h. ground arith; from = λ e i h. ground arith };
  tracked = λ e i h. tracked_soft e i h;
  known = λ i h. known_soft i h;
}

delete_entries-IsEntriesDeleted_example :
    IsThere functions soft.translator.external_to_internal (80 ∷ [])
      × ((ix' : Index functions ℕ) × (delete_entries functions (80 ∷ []) soft ≡ done ix')
          × IsEntriesDeleted functions (80 ∷ []) soft ix')
    ⊎ ¬ (IsThere functions soft.translator.external_to_internal (80 ∷ []))
      × (delete_entries functions (80 ∷ []) soft ≡ thrown external_missing soft)
delete_entries-IsEntriesDeleted_example =
    delete_entries-IsEntriesDeleted functions functions-IsHashMap (80 ∷ []) soft soft-IsIndex
      (tt, tt) (omega arith, tt)

consolidate_index-IsReclaimed_example :
    (ix' : Index functions ℕ) × (consolidate_index functions
        (λ vectors p. 0)
        list_set
        (λ vectors. distances)
        sorted
        strategy
        8
        (λ v. 0)
        3
        7
        true
        1
        soft
      ≡ done ix')
    × IsReclaimed functions soft ix'
unfolding n_nodes
consolidate_index-IsReclaimed_example =
    consolidate_index-IsReclaimed functions (λ vectors p. 0) list_set (λ vectors. distances) sorted
      strategy 8 (λ v. 0) 3 7 true 1 soft 1 deleted soft-IsIndex refl refl list_set-IsCandidateSet
      Permᴰ-sorted
      (prune_ids-IsPruner (iterative ltb (λ a d. a * d) distances) ltb (λ a d. a * d) (λ a. a == 1)
        1 1 1 2 (iterative-IsStrategy ltb (λ a d. a * d) distances 1) (inl (refl, omega arith)))
      (omega arith) (λ v. omega arith) (omega arith)

-- As it is once consolidated: 0 to 2, and 2 to 0.
abbrev pub reclaimed : Index functions ℕ
reclaimed =
    index_of ((1 ∷ 2 ∷ 0 ∷ []) ∷ (1 ∷ 2 ∷ 0 ∷ []) ∷ (1 ∷ 0 ∷ 0 ∷ []) ∷ [])
      (valid ∷ empty ∷ valid ∷ []) 2

-- What an index shows: states, data, entry points, the lists of the graph, and the data of 70 and 80.
abbrev Shown : Type 0
Shown = List SlotMetadata × List ℕ × List ℕ × List (List ℕ) × Option ℕ × Option ℕ

unfoldable shown : IndexResult functions ℕ → Option Shown
unfolding get_datum
shown r = elim r [
  | done ix ↦ some (
    ix.status,
    ix.vectors,
    ix.entry_points,
    ix.graph.rows,
    get_datum functions ix 70,
    get_datum functions ix 80,
  )
  | IndexResult.size_mismatch ix ↦ none
  | thrown error ix ↦ none
  | out_of_range ↦ none
  | IndexResult.fault ↦ none
  | IndexResult.out_of_fuel ↦ none
]

compact_run :
    shown (compact functions 8 9 1 0 7 (7 ∷ []) reclaimed)
    ≡ some (
      valid ∷ valid ∷ [],
      10 ∷ 12 ∷ [],
      1 ∷ [],
      (1 ∷ 1 ∷ 0 ∷ []) ∷ (1 ∷ 0 ∷ 0 ∷ []) ∷ [],
      some 10,
      some 12,
    )
unfolding compact plus_idx shown finish_compact remap_slots remap_list old_to_new old_to_new_from
    unsafe_resize nonmissing_indices nonmissing_from is_valid resized compact_data compact_batches
    compact_batch fill_buffer write_back unit_range range_size make_graph reset clear_nodes
    clear_node n_nodes get_node adjacency replace_node replace_row copy_to remap_internal_id
    get_datum
compact_run = refl

pub IsRow-of_degree :
    (degree : ℕ) (row row' : List ℕ)
    → some row ≡ some row'
    → length row ≡ 2 + 1
    → get_elem? row 0 ≡ some degree
    → degree ≤ 2
    → (d : ℕ) × IsRow 2 row' d
IsRow-of_degree degree row row' e slots head fits = (
  degree,
  subst (λ r. IsRow 2 r degree) (some-inj e) (record { slots = slots; head = head; fits = fits }),
)

reclaimed-IsGraph : IsGraph reclaimed.graph
reclaimed-IsGraph zero row e = IsRow-of_degree 1 (1 ∷ 2 ∷ 0 ∷ []) row e refl refl (omega arith)
reclaimed-IsGraph (suc zero) row e =
    IsRow-of_degree 1 (1 ∷ 2 ∷ 0 ∷ []) row e refl refl (omega arith)
reclaimed-IsGraph (suc (suc zero)) row e =
    IsRow-of_degree 1 (1 ∷ 0 ∷ 0 ∷ []) row e refl refl (omega arith)
reclaimed-IsGraph (suc (suc (suc i))) row e = cc

reclaimed-IsInside : IsInside 3 reclaimed.graph
unfolding get_node adjacency
reclaimed-IsInside zero h = (2 ∷ [], refl, (omega arith, tt))
reclaimed-IsInside (suc zero) h = (2 ∷ [], refl, (omega arith, tt))
reclaimed-IsInside (suc (suc zero)) h = (0 ∷ [], refl, (omega arith, tt))
reclaimed-IsInside (suc (suc (suc i))) h = absurd (omega arith)

tracked_reclaimed :
    (e i : ℕ)
    → reclaimed.translator.external_to_internal e ≡ some i
    → get_elem? reclaimed.status i ≡ some valid
tracked_reclaimed e zero h = refl
tracked_reclaimed e (suc zero) h = ground (arith, h)
tracked_reclaimed e (suc (suc zero)) h = refl
tracked_reclaimed e (suc (suc (suc i))) h = ground (arith, h)

known_reclaimed :
    (i : ℕ)
    → get_elem? reclaimed.status i ≡ some valid
    → (e : ℕ) × (reclaimed.translator.internal_to_external i ≡ some e)
known_reclaimed zero h = (70, refl)
known_reclaimed (suc zero) h = cc
known_reclaimed (suc (suc zero)) h = (80, refl)
known_reclaimed (suc (suc (suc i))) h = cc

pub reclaimed-IsIndex : IsIndex functions reclaimed
unfolding n_nodes
reclaimed-IsIndex = record {
  slots = refl;
  rows = refl;
  is_graph = reclaimed-IsGraph;
  inside = reclaimed-IsInside;
  bijection = record { to = λ e i h. ground arith; from = λ e i h. ground arith };
  tracked = λ e i h. tracked_reclaimed e i h;
  known = λ i h. known_reclaimed i h;
}

reclaimed-IsClean : IsClean reclaimed.status reclaimed.graph
unfolding get_node adjacency
reclaimed-IsClean zero h = (2 ∷ [], refl, (refl, tt))
reclaimed-IsClean (suc zero) h = cc
reclaimed-IsClean (suc (suc zero)) h = (0 ∷ [], refl, (refl, tt))
reclaimed-IsClean (suc (suc (suc i))) h = cc

compact-IsSameView_example :
    (ix' : Index functions ℕ) × (compact functions 8 9 1 0 7 (7 ∷ []) reclaimed ≡ done ix')
    × IsIndex functions ix'
    × IsSameView functions reclaimed ix'
    × ((i : ℕ) → i < n_nodes ix'.graph → get_elem? ix'.status i ≡ some valid)
unfolding n_nodes
compact-IsSameView_example =
    compact-IsSameView functions functions-IsHashMap 8 9 1 0 7 (7 ∷ []) reclaimed reclaimed-IsIndex
      reclaimed-IsClean (refl, tt) (omega arith) (omega arith) (omega arith) (omega arith)
      (omega arith)
