-- ===== src/Index/Rebuilt.antt =====
-- The pieces of the compacted index, and its view by external ids.
use scalable_vector_search.Candidates.Slots.{get_elem?-lt, get_elem?-some_lt}
use scalable_vector_search.Graph.{Graph, n_nodes, get_node, make_graph}
use scalable_vector_search.Translation.{HashMap, IsHashMap, Translator, get_internal, get_external}
use scalable_vector_search.Compaction.{compacted, compact_data, compact_batches}
use scalable_vector_search.Consolidate.Generated.{IsInside}
use scalable_vector_search.Index.{
  SlotMetadata, empty, valid, resized, nonmissing_indices, Index, done, get_datum,
  translate_external_id, translate_internal_id, translate_row, external_neighbors,
}
use scalable_vector_search.Index.Compacting.{
  plus_idx, adjacency_lists, unsafe_resize, old_to_new, remap_list, remap_slots, finish_compact,
  compact,
}
use scalable_vector_search.Index.Slots.{IsIndex}
use scalable_vector_search.Index.Renumbering.{IsNonmissing, find-old_to_new}
use scalable_vector_search.Index.Moved.{IsClean, IsRenumbered}
use scalable_vector_search.Index.Relocated.{IsRelocated}
use scalable_vector_search.Index.Resized.{
  length-resized, get_elem?-resized, get_node-unsafe_resize, n_nodes-unsafe_resize,
  unsafe_resize-IsGraph,
}
use scalable_vector_search.Base.{
  ℕ, ◌≤◌, ◌<◌, ◌≡◌, inl, inr, refl, sym, ◌∙◌, subst, List, [], ◌∷◌, none, some, some-inj, get_elem?,
  replicate, length, min, arith, Option-cases, All,
}

module _ (m : HashMap) where
  remap_some :
      (s : m.Map) (x k : ℕ) (list rest : List ℕ)
      → m.find s x ≡ some k
      → remap_list m s list ≡ some rest
      → remap_list m s (x ∷ list) ≡ some (k ∷ rest)
  unfolding remap_list
  remap_some s x k list rest e f = rw (e, remap_list, f) refl

  remap_none :
      (s : m.Map) (x k : ℕ) (list : List ℕ)
      → m.find s x ≡ some k
      → remap_list m s list ≡ none
      → remap_list m s (x ∷ list) ≡ none
  unfolding remap_list
  remap_none s x k list e f = rw (e, remap_list, f) refl

module _ (m : HashMap) {V : Type 0} where
  translate_some :
      (ix ix' : Index m V) (i k e : ℕ) (ids ids' : List ℕ)
      → m.find ix.translator.internal_to_external i ≡ some e
      → m.find ix'.translator.internal_to_external k ≡ some e
      → translate_row m ix' ids' ≡ translate_row m ix ids
      → translate_row m ix' (k ∷ ids') ≡ translate_row m ix (i ∷ ids)
  unfolding translate_row translate_internal_id get_external
  translate_some ix ix' i k e ids ids' at now same = rw (at, translate_row, now, same) refl

  neighbors_some :
      (ix : Index m V) (e i : ℕ) (list : List ℕ)
      → m.find ix.translator.external_to_internal e ≡ some i
      → get_node ix.graph i ≡ some list
      → external_neighbors m ix e ≡ translate_row m ix list
  unfolding external_neighbors translate_external_id get_internal
  neighbors_some ix e i list at node = rw (at, external_neighbors, node) refl

  neighbors_none :
      (ix : Index m V) (e : ℕ)
      → m.find ix.translator.external_to_internal e ≡ none
      → external_neighbors m ix e ≡ none
  unfolding external_neighbors translate_external_id get_internal
  neighbors_none ix e missing = rw (missing, external_neighbors) refl

  pub datum_some :
      (ix : Index m V) (e i : ℕ)
      → m.find ix.translator.external_to_internal e ≡ some i
      → get_datum m ix e ≡ get_elem? ix.vectors i
  unfolding get_datum translate_external_id get_internal
  datum_some ix e i at = rw (at, get_datum) refl

  pub datum_none :
      (ix : Index m V) (e : ℕ)
      → m.find ix.translator.external_to_internal e ≡ none
      → get_datum m ix e ≡ none
  unfolding get_datum translate_external_id get_internal
  datum_none ix e missing = rw (missing, get_datum) refl

  -- The view of an index by external ids.
  pub record IsSameView (ix ix' : Index m V) : Type 0 where
    pub same_data : (e : ℕ) → get_datum m ix' e ≡ get_datum m ix e
    pub same_neighbors : (e : ℕ) → external_neighbors m ix' e ≡ external_neighbors m ix e
    pub same_entry_points :
        translate_row m ix' ix'.entry_points ≡ translate_row m ix ix.entry_points

module _ (m : HashMap) (l : IsHashMap m) {V : Type 0} where
  -- What has to hold for the pieces of the new index.
  pub record IsRebuilt (ix : Index m V) (ids : List ℕ) (vectors : List V) (g : Graph)
      (status : List SlotMetadata) (t : Translator m) : Type 0 where
    pub numbering : IsNonmissing ix.status ids
    pub few : length ids ≤ n_nodes ix.graph
    pub same_rows : length vectors ≡ length ix.vectors
    pub rows : (k o : ℕ) → get_elem? ids k ≡ some o → get_elem? vectors k ≡ get_elem? ix.vectors o
    pub lists : IsRenumbered m l ids ix.graph g
    pub slots : IsRelocated m l ids ix.status ix.translator (length ids) status t

  module _ (ix : Index m V) (w : IsIndex m ix) (ids : List ℕ) (vectors : List V) (g : Graph)
      (status : List SlotMetadata) (t : Translator m) (b : IsRebuilt ix ids vectors g status t)
      (blank_datum : V) (blank_row entry_points : List ℕ) where
    abbrev pub rebuilt : Index m V
    rebuilt = record ix {
      graph = unsafe_resize (length ids) blank_row g;
      vectors = resized (length ids) blank_datum vectors;
      status = resized (length ids) empty status;
      translator = t;
      entry_points = entry_points;
    }

    -- Where an external id is found.
    located :
        (e o : ℕ)
        → m.find ix.translator.external_to_internal e ≡ some o
        → (k : ℕ) × (get_elem? ids k ≡ some o)
          × (k < length ids)
          × (m.find t.external_to_internal e ≡ some k)
    located e o at =
        let (k, place) = b.numbering.complete o (w.tracked e o at) in
        let inside = get_elem?-some_lt ids k o place in
        (k, place, inside, (b.slots.moved e k o at place).0 inside)

    pub room_in_graph : length ids ≤ n_nodes g
    room_in_graph = omega (arith, b.few, b.lists.same_nodes)

    pub room_in_status : length ids ≤ length status
    room_in_status = omega (arith, b.few, b.slots.same_length, w.slots)

    room_in_rows : length ids ≤ length vectors
    room_in_rows = omega (arith, b.few, b.same_rows, w.rows)

    pub rebuilt-IsIndex : IsIndex m rebuilt
    rebuilt-IsIndex = record {
      slots =
          length-resized (length ids) empty status room_in_status
          ∙ sym (n_nodes-unsafe_resize (length ids) blank_row g room_in_graph);
      rows =
          length-resized (length ids) blank_datum vectors room_in_rows
          ∙ sym (n_nodes-unsafe_resize (length ids) blank_row g room_in_graph);
      is_graph = unsafe_resize-IsGraph (length ids) blank_row g room_in_graph b.lists.is_graph;
      inside =
          subst (λ n. IsInside n (unsafe_resize (length ids) blank_row g))
            (sym (n_nodes-unsafe_resize (length ids) blank_row g room_in_graph)) inside;
      bijection = b.slots.bijection;
      tracked = tracked;
      known = known;
    }
      where
        inside : IsInside (length ids) (unsafe_resize (length ids) blank_row g)
        inside v h =
            let (o, place) = get_elem?-lt ids v h in
            let (list, list', at, runs, here, bounded) = b.lists.lists v o place in
            (
              list',
              get_node-unsafe_resize (length ids) blank_row g v room_in_graph h ∙ here,
              bounded,
            )

        tracked :
            (e i : ℕ)
            → m.find t.external_to_internal e ≡ some i
            → get_elem? (resized (length ids) empty status) i ≡ some valid
        tracked e i at = elim (Option-cases (m.find ix.translator.external_to_internal e)) [
          | inl missing ↦ cc (b.slots.absent e missing, at)
          | inr (o, was) ↦
              let (k, place, below, now) = located e o was in
              subst (λ z. get_elem? (resized (length ids) empty status) z ≡ some valid)
                (some-inj (sym now ∙ at))
                (get_elem?-resized (length ids) empty status k room_in_status below
                  ∙ b.slots.filled k below below)
        ]

        known :
            (i : ℕ)
            → get_elem? (resized (length ids) empty status) i ≡ some valid
            → (e : ℕ) × (m.find t.internal_to_external i ≡ some e)
        known i at =
            let below : i < length ids = omega (
              arith,
              get_elem?-some_lt (resized (length ids) empty status) i valid at,
              length-resized (length ids) empty status room_in_status,
            ) in
            let (o, place) = get_elem?-lt ids i below in
            let (e, back) = w.known o (b.numbering.sound i o place) in
            let was = w.bijection.from o e back in
            (e, b.slots.bijection.to e i ((b.slots.moved e i o was place).0 below))

    -- A list of valid slots and the list renumbered are the same external ids.
    translate_row_same :
        (list list' : List ℕ)
        → All (λ x. get_elem? ix.status x ≡ some valid) list
        → remap_list m (old_to_new m ids) list ≡ some list'
        → translate_row m rebuilt list' ≡ translate_row m ix list
    unfolding translate_row remap_list
    translate_row_same [] list' a e =
        subst (λ z. translate_row m rebuilt z ≡ some []) (some-inj e) refl
    translate_row_same (x ∷ list) list' a e =
        let (ex, back) = w.known x a.0 in
        let (k, place, below, now) = located ex x (w.bijection.from x ex back) in
        let renumbered = find-old_to_new m l ids k x b.numbering.ascending place in
        elim (Option-cases (remap_list m (old_to_new m ids) list)) [
          | inl missing ↦ cc (remap_none m (old_to_new m ids) x k list renumbered missing, e)
          | inr (rest, runs) ↦
              subst (λ z. translate_row m rebuilt z ≡ translate_row m ix (x ∷ list))
                (some-inj (sym (remap_some m (old_to_new m ids) x k list rest renumbered runs) ∙ e))
                (translate_some m ix rebuilt x k ex list rest back (b.slots.bijection.to ex k now)
                  (translate_row_same list rest a.1 runs))
        ]

    pub rebuilt-IsSameView :
        IsClean ix.status ix.graph
        → All (λ x. get_elem? ix.status x ≡ some valid) ix.entry_points
        → remap_list m (old_to_new m ids) ix.entry_points ≡ some entry_points
        → IsSameView m ix rebuilt
    rebuilt-IsSameView clean entries remapped = record {
      same_data = λ e. elim (Option-cases (m.find ix.translator.external_to_internal e)) [
        | inl missing ↦
            datum_none m rebuilt e (b.slots.absent e missing) ∙ sym (datum_none m ix e missing)
        | inr (o, was) ↦
            let (k, place, below, now) = located e o was in
            datum_some m rebuilt e k now
            ∙ get_elem?-resized (length ids) blank_datum vectors k room_in_rows below
            ∙ b.rows k o place
            ∙ sym (datum_some m ix e o was)
      ];
      same_neighbors = λ e. elim (Option-cases (m.find ix.translator.external_to_internal e)) [
        | inl missing ↦
            neighbors_none m rebuilt e (b.slots.absent e missing)
            ∙ sym (neighbors_none m ix e missing)
        | inr (o, was) ↦
            let (k, place, below, now) = located e o was in
            let (list, list', at, runs, here, bounded) = b.lists.lists k o place in
            let (list0, at0, a) = clean o (w.tracked e o was) in
            let a' =
              subst (All (λ x. get_elem? ix.status x ≡ some valid)) (some-inj (sym at0 ∙ at)) a in
            neighbors_some m rebuilt e k list' now
              (get_node-unsafe_resize (length ids) blank_row g k room_in_graph below ∙ here)
            ∙ translate_row_same list list' a' runs
            ∙ sym (neighbors_some m ix e o list was at)
      ];
      same_entry_points = translate_row_same ix.entry_points entry_points entries remapped;
    }

  module _ (width fuel batch_size : ℕ) (blank_datum : V) (blank : ℕ) (blank_row : List ℕ) where
    pub compact_runs :
        (ix : Index m V) (vectors : List V) (temp g : Graph) (status : List SlotMetadata)
        (t : Translator m) (entry_points : List ℕ)
        → let ids = nonmissing_indices ix.status in
          compact_data fuel ix.dimensions ix.dimensions ids ix.vectors
              (replicate (min batch_size (length ix.vectors)) blank_datum)
            ≡ compacted vectors
          → make_graph width blank batch_size ix.graph.max_degree ≡ some temp
          → compact_batches
              (adjacency_lists width)
              (adjacency_lists width)
              (remap_list m (old_to_new m ids))
              (λ v. v)
              (plus_idx width)
              fuel
              batch_size
              ids
              0
              ix.graph
              temp
            ≡ compacted g
          → remap_slots m ids 0 (length ids) ix.status ix.translator ≡ some (status, t)
          → remap_list m (old_to_new m ids) ix.entry_points ≡ some entry_points
          → compact m width fuel batch_size blank_datum blank blank_row ix
            ≡ done (record ix {
              graph = unsafe_resize (length ids) blank_row g;
              vectors = resized (length ids) blank_datum vectors;
              status = resized (length ids) empty status;
              translator = t;
              entry_points = entry_points;
            })
    unfolding compact finish_compact
    compact_runs ix vectors temp g status t entry_points data_moved made graph_moved slots_moved
          entries =
        rw (data_moved, compact, made, graph_moved, finish_compact, slots_moved, entries) refl
