-- ===== src/Index/Compacted.antt =====
-- `compact` of the mutable index: seen by external ids, nothing changes.
use scalable_vector_search.Candidates.Slots.{get_elem?-some_lt}
use scalable_vector_search.Graph.{Graph, n_nodes, make_graph}
use scalable_vector_search.Graph.Empty.{IsEdgeless, make_graph-IsEdgeless}
use scalable_vector_search.Translation.{HashMap, IsHashMap}
use scalable_vector_search.Compaction.Lists.{compact_data-IsCompacted, length-ascending}
use scalable_vector_search.Index.{SlotMetadata, valid, nonmissing_indices, Index, done}
use scalable_vector_search.Index.Compacting.{compact, old_to_new, remap_list}
use scalable_vector_search.Index.Slots.{IsIndex}
use scalable_vector_search.Index.Renumbering.{
  IsNonmissing, nonmissing_indices-IsNonmissing, find-old_to_new, remap_list-bounded,
}
use scalable_vector_search.Index.Moved.{IsClean, compact_batches-IsRenumbered}
use scalable_vector_search.Index.Relocated.{IsRelocated, remap_slots-IsRelocated}
use scalable_vector_search.Index.Resized.{get_elem?-resized, n_nodes-unsafe_resize}
use scalable_vector_search.Index.Rebuilt.{
  IsSameView, IsRebuilt, rebuilt, room_in_graph, room_in_status, rebuilt-IsIndex,
  rebuilt-IsSameView, compact_runs,
}
use scalable_vector_search.Base.{
  ℕ, suc, ◌+◌, ◌^◌, ◌≤◌, ◌<◌, ◌≡◌, inl, inr, refl, sym, ◌∙◌, List, [], ◌∷◌, some, get_elem?,
  replicate, length, length-replicate, min, arith, All, All-map,
}

nonmissing-inside :
    (status : List SlotMetadata) (ids : List ℕ) (n : ℕ)
    → IsNonmissing status ids
    → length status ≡ n
    → All (λ o. o < n) ids
nonmissing-inside status ids n numbering size =
    All-nodes ids
      (λ k o at. omega (arith, get_elem?-some_lt status o valid (numbering.sound k o at), size))
  where
    All-nodes : (xs : List ℕ) → ((k o : ℕ) → get_elem? xs k ≡ some o → o < n) → All (λ o. o < n) xs
    All-nodes [] f = tt
    All-nodes (x ∷ xs) f = (f 0 x refl, All-nodes xs (λ k o at. f (suc k) o at))

module _ (m : HashMap) (l : IsHashMap m) {V : Type 0} (width fuel batch_size : ℕ) (blank_datum : V)
    (blank : ℕ) (blank_row : List ℕ) where
  start-IsRelocated :
      (ix : Index m V) (ids : List ℕ)
      → IsIndex m ix
      → IsRelocated m l ids ix.status ix.translator 0 ix.status ix.translator
  start-IsRelocated ix ids w = record {
    same_length = refl;
    bijection = w.bijection;
    filled = λ j h inside. absurd (omega arith);
    later = λ i h. refl;
    moved = λ e j o there place. ((λ h. absurd (omega arith)), λ h. there);
    absent = λ e missing. missing;
  }

  remap_list-entries :
      (ix : Index m V) (ids : List ℕ)
      → IsNonmissing ix.status ids
      → All (λ x. get_elem? ix.status x ≡ some valid) ix.entry_points
      → (entry_points : List ℕ) × (remap_list m (old_to_new m ids) ix.entry_points
          ≡ some entry_points)
  remap_list-entries ix ids numbering entries =
      let (points, runs, same, bounded) =
        remap_list-bounded m l (old_to_new m ids) (length ids) ix.entry_points (
          All-map (λ x. get_elem? ix.status x ≡ some valid)
            (λ x. (k : ℕ) × (m.find (old_to_new m ids) x ≡ some k) × k < length ids)
            (λ x h.
              let (k, at) = numbering.complete x h in
              (k, find-old_to_new m l ids k x numbering.ascending at, get_elem?-some_lt ids k x at))
            ix.entry_points entries) in
      (points, runs)

  buffer-IsEdgeless :
      (d : ℕ)
      → d < 2 ^ width
      → (temp : Graph) × (make_graph width blank batch_size d ≡ some temp)
        × IsEdgeless batch_size d temp
  buffer-IsEdgeless d small = elim (make_graph-IsEdgeless width blank batch_size d) [
    | inl (large, failed) ↦ absurd (omega (arith, large))
    | inr (fits, made) ↦ made
  ]

  -- On a well-formed index with a slot, whose valid slots have valid neighbors only and whose entry
  -- points are valid, with batches that are not empty, indices that hold the number of slots plus the
  -- size of a batch, and fuel for each slot: the compaction finishes
  -- with a well-formed index of valid slots only, in which every external id has the data and the
  -- neighbors, by their external ids, that it had, and the entry points are the same external ids.
  pub compact-IsSameView :
      (ix : Index m V)
      → IsIndex m ix
      → IsClean ix.status ix.graph
      → All (λ x. get_elem? ix.status x ≡ some valid) ix.entry_points
      → 0 < n_nodes ix.graph
      → ix.graph.max_degree < 2 ^ width
      → 0 < batch_size
      → n_nodes ix.graph + batch_size ≤ 2 ^ width
      → n_nodes ix.graph ≤ fuel
      → (ix' : Index m V) × (compact m width fuel batch_size blank_datum blank blank_row ix
          ≡ done ix')
        × IsIndex m ix'
        × IsSameView m ix ix'
        × ((i : ℕ) → i < n_nodes ix'.graph → get_elem? ix'.status i ≡ some valid)
  compact-IsSameView ix w clean entries some_slot small forward narrow enough =
      let ids = nonmissing_indices ix.status in
      let numbering = nonmissing_indices-IsNonmissing ix.status in
      let inside =
        nonmissing-inside ix.status ids (length ix.vectors) numbering (w.slots ∙ sym w.rows) in
      let few = length-ascending ids (length ix.vectors) numbering.ascending inside in
      let (vectors, data_moved, same_rows, rows, further) =
        compact_data-IsCompacted fuel ix.dimensions ids ix.vectors
          (replicate (min batch_size (length ix.vectors)) blank_datum) numbering.ascending inside
          (omega (arith, w.rows, length-replicate (min batch_size (length ix.vectors)) blank_datum))
          (omega (arith, few, w.rows)) in
      let (temp, made, edgeless) = buffer-IsEdgeless ix.graph.max_degree small in
      let (g, graph_moved, lists) =
        compact_batches-IsRenumbered m l width ix.status ids ix.graph numbering clean small w.slots
          fuel batch_size temp narrow w.is_graph edgeless.simple.is_graph edgeless.degree
          edgeless.nodes forward (omega (arith, few, w.rows)) in
      let (status, t, slots_moved, relocated) =
        remap_slots-IsRelocated m l ids ix.status ix.translator numbering w.bijection w.tracked
          w.known 0 (length ids) ix.status ix.translator (start-IsRelocated ix ids w)
          (omega arith) in
      let (entry_points, remapped) = remap_list-entries ix ids numbering entries in
      let b : IsRebuilt m l ix ids vectors g status t = record {
        numbering = numbering;
        few = omega (arith, few, w.rows);
        same_rows = same_rows;
        rows = rows;
        lists = lists;
        slots = relocated;
      } in
      (
        rebuilt m l ix w ids vectors g status t b blank_datum blank_row entry_points,
        compact_runs m l width fuel batch_size blank_datum blank blank_row ix vectors temp g status
            t entry_points data_moved made graph_moved slots_moved remapped,
        rebuilt-IsIndex m l ix w ids vectors g status t b blank_datum blank_row entry_points,
        rebuilt-IsSameView m l ix w ids vectors g status t b blank_datum blank_row entry_points
            clean entries remapped,
        λ i h.
            let room =
              room_in_graph m l ix w ids vectors g status t b blank_datum blank_row entry_points in
            let below : i < length ids =
              omega (arith, h, n_nodes-unsafe_resize (length ids) blank_row g room) in
            get_elem?-resized (length ids) SlotMetadata.empty status i
              (room_in_status m l ix w ids vectors g status t b blank_datum blank_row entry_points)
              below
            ∙ relocated.filled i below below,
      )
