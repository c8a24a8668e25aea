-- ===== src/Index/Compacting.antt =====
-- `compact` of the mutable index: the valid slots move together, in the data, in the graph with its
-- edges, in the states, in the translation and in the entry points.
use scalable_vector_search.Graph.{Graph, n_nodes, get_node, replace_node, make_graph}
use scalable_vector_search.Translation.{HashMap, Translator, remap_internal_id}
use scalable_vector_search.Compaction.{
  Table, CompactResult, compacted, dimension_mismatch, not_moved, compact_batches, compact_data,
}
use scalable_vector_search.Index.{
  SlotMetadata, empty, is_valid, resized, nonmissing_indices, Index, IndexResult, done,
  out_of_range, fault, out_of_fuel,
}
use scalable_vector_search.Base.{
  ℕ, zero, suc, ◌+◌, ◌%◌, ◌^◌, true, false, List, [], ◌∷◌, Option, none, some, get_elem?, set,
  replicate, length, ◌==◌, min,
}

-- The adjacency lists of a graph, as a table.
abbrev pub adjacency_lists : ℕ → Table
adjacency_lists width = record {
  State = Graph;
  Entry = List ℕ;
  size = n_nodes;
  get = get_node;
  put = λ g i list. replace_node width i list g;
}

-- The sum of two indices, which wraps around in their type.
unfoldable pub plus_idx : ℕ → ℕ → ℕ → ℕ
plus_idx width a b = (a + b) % 2 ^ width

-- `unsafe_resize`, where new rows hold what the memory holds.
unfoldable pub unsafe_resize : ℕ → List ℕ → Graph → Graph
unfolding resized
unsafe_resize n blank g = record g { rows = resized n blank g.rows }

module _ (m : HashMap) where
  -- The map from old to new ids.
  unfoldable pub old_to_new_from : List ℕ → ℕ → m.Map → m.Map
  old_to_new_from [] new_id s = s
  old_to_new_from (old_id ∷ new_to_old) new_id s =
      old_to_new_from new_to_old (new_id + 1) (m.insert s old_id new_id)

  unfoldable pub old_to_new : List ℕ → m.Map
  unfolding old_to_new_from
  old_to_new new_to_old = old_to_new_from new_to_old 0 m.empty

  -- The list with `old_to_new_id_map.at` of every element; `none` is its exception.
  unfoldable pub remap_list : m.Map → List ℕ → Option (List ℕ)
  remap_list s [] = some []
  remap_list s (old_id ∷ list) = elim (m.find s old_id) [
    | none ↦ none
    | some new_id ↦ elim (remap_list s list) [ none ↦ none | some rest ↦ some (new_id ∷ rest) ]
  ]

  -- The loop over the states and the translation, from `new_id` on.
  unfoldable pub remap_slots :
      List ℕ → ℕ → ℕ → List SlotMetadata → Translator m → Option (List SlotMetadata × Translator m)
  unfolding is_valid remap_internal_id
  remap_slots new_to_old new_id zero status t = some (status, t)
  remap_slots new_to_old new_id (suc count) status t = elim (get_elem? new_to_old new_id) [
    | none ↦ none
    | some old_id ↦ elim (new_id == old_id) [
      | true ↦ remap_slots new_to_old (new_id + 1) count status t
      | false ↦ elim (get_elem? status old_id) [
        | none ↦ none
        | some s ↦ elim (is_valid s) [
          | false ↦ remap_slots new_to_old (new_id + 1) count (set status new_id s) t
          | true ↦ elim (remap_internal_id m old_id new_id t) [
            | none ↦ none
            | some t' ↦ remap_slots new_to_old (new_id + 1) count (set status new_id s) t'
          ]
        ]
      ]
    ]
  ]

  module _ {V : Type 0} (width : ℕ) where
    -- What follows once data and graph are compacted.
    unfoldable pub finish_compact :
        List ℕ → V → List ℕ → List V → Graph → Index m V → IndexResult m V
    unfolding unsafe_resize resized remap_slots remap_list old_to_new
    finish_compact new_to_old blank_datum blank_row vectors g ix =
        elim (remap_slots new_to_old 0 (length new_to_old) ix.status ix.translator) [
          | none ↦ fault
          | some (status, t) ↦ elim (remap_list (old_to_new new_to_old) ix.entry_points) [
            | none ↦ out_of_range
            | some entry_points ↦ done (record ix {
              graph = unsafe_resize (length new_to_old) blank_row g;
              vectors = resized (length new_to_old) blank_datum vectors;
              status = resized (length new_to_old) empty status;
              translator = t;
              entry_points = entry_points;
            })
          ]
        ]

    -- The whole call. New memory holds `blank_datum`, `blank` and `blank_row`.
    unfoldable pub compact : ℕ → ℕ → V → ℕ → List ℕ → Index m V → IndexResult m V
    unfolding nonmissing_indices compact_data make_graph compact_batches remap_list old_to_new
        finish_compact plus_idx
    compact fuel batch_size blank_datum blank blank_row ix =
        let new_to_old = nonmissing_indices ix.status in
        elim (compact_data fuel ix.dimensions ix.dimensions new_to_old ix.vectors
          (replicate (min batch_size (length ix.vectors)) blank_datum)) [
            | dimension_mismatch ↦ fault
            | not_moved ↦ out_of_range
            | CompactResult.fault ↦ fault
            | CompactResult.out_of_fuel ↦ out_of_fuel
            | compacted vectors ↦ elim (make_graph width blank batch_size ix.graph.max_degree) [
              | none ↦ fault
              | some temp_graph ↦
                  elim (compact_batches (adjacency_lists width) (adjacency_lists width)
                    (remap_list (old_to_new new_to_old)) (λ list. list) (plus_idx width) fuel
                    batch_size new_to_old 0 ix.graph temp_graph) [
                      | dimension_mismatch ↦ fault
                      | not_moved ↦ out_of_range
                      | CompactResult.fault ↦ fault
                      | CompactResult.out_of_fuel ↦ out_of_fuel
                      | compacted g ↦ finish_compact new_to_old blank_datum blank_row vectors g ix
                    ]
            ]
          ]
