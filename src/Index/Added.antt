-- ===== src/Index/Added.antt =====
-- `add_points` of the mutable index: what it hands to the builder, and what it leaves.
use scalable_vector_search.Graph.{Graph, n_nodes}
use scalable_vector_search.Graph.Edges.{IsGraph}
use scalable_vector_search.Translation.{
  HashMap, IsHashMap, Translator, Result, insert, get_internal,
}
use scalable_vector_search.Translation.Checks.{IsDistinctIds, IsFree}
use scalable_vector_search.Translation.Insert.{IsInserted, insert-IsInserted}
use scalable_vector_search.Consolidate.Generated.{IsInside}
use scalable_vector_search.Index.{Index, translate_external_id}
use scalable_vector_search.Index.Adding.{
  add_points, fill_slots, finish_points, make_room, copy_points, clear_lists, mark_valid, to_build,
}
use scalable_vector_search.Index.Slots.{IsIndex}
use scalable_vector_search.Index.Found.{IsAscending-IsDistinctIds}
use scalable_vector_search.Index.Room.{IsRoom, make_room-IsRoom}
use scalable_vector_search.Index.Filled.{
  IsCopied, IsCleared, copy_points-IsCopied, mark_valid-IsMarkedValid, clear_lists-IsCleared,
}
use scalable_vector_search.Index.Extended.{
  IsAdded, slots-IsFree, room-IsClearable, cleared-IsInside, extended-IsAdded,
}
use scalable_vector_search.Base.{
  ℕ, ◌+◌, ◌^◌, ◌<◌, ◌≡◌, inl, inr, refl, sym, ap, ◌∙◌, subst, true, false, not, List, some,
  get_elem?, length, ◌==◌, arith, All, All-map,
}

module _ (m : HashMap) {V : Type 0} where
  -- What add_points hands to the builder, for an index ix that it is called on.
  pub record IsPrepared (blank_row : List ℕ) (points : List V) (ids : List ℕ) (ix : Index m V)
      (entry_point : ℕ) (slots : List ℕ) (ix' : Index m V) : Type 0 where
    pub grown : Index m V
    pub room : IsRoom m blank_row ix (length ids) slots grown
    pub fields :
        record grown { graph = ix'.graph; vectors = ix'.vectors; translator = ix'.translator } ≡ ix'
    pub free : IsFree m ix.translator.external_to_internal ids
    pub pairs : IsInserted m ids slots ix.translator ix'.translator
    pub copied : IsCopied points slots grown.vectors ix'.vectors
    pub cleared : IsCleared slots grown.graph ix'.graph
    pub same_size : n_nodes ix'.graph ≡ length ix'.vectors
    pub edges_inside : IsInside (n_nodes ix'.graph) ix'.graph
    pub slots_inside : All (λ i. i < n_nodes ix'.graph) slots
    pub entry_inside : entry_point < n_nodes ix'.graph

  module _ (blank_datum : V) (blank_row : List ℕ) where
    fill_slots_runs :
        (points : List V) (ids slots : List ℕ) (ix1 : Index m V) (t : Translator m)
        (vectors : List V) (ep : ℕ)
        → insert m ids slots true ix1.translator ≡ Result.done t
        → copy_points points slots ix1.vectors ≡ some vectors
        → get_elem? ix1.entry_points 0 ≡ some ep
        → fill_slots m points ids (slots, ix1)
          ≡ to_build ep slots (record ix1 {
            graph = clear_lists slots ix1.graph;
            vectors = vectors;
            translator = t;
          })
    unfolding fill_slots
    fill_slots_runs points ids slots ix1 t vectors ep inserted copies at =
        rw (inserted, fill_slots, copies, at) refl

    add_points_runs :
        (points : List V) (ids : List ℕ) (ix : Index m V)
        → length points ≡ length ids
        → add_points m blank_datum blank_row points ids ix
          ≡ fill_slots m points ids (make_room m blank_datum blank_row (length points) ix)
    unfolding add_points
    add_points_runs points ids ix same =
        let test : not (length points == length ids) ≡ false = ground (arith, same) in
        rw (test, add_points) refl

    slots-IsCleared :
        (num : ℕ) (slots : List ℕ) (ix ix1 : Index m V)
        → IsIndex m ix
        → length blank_row ≡ ix.graph.max_degree + 1
        → IsRoom m blank_row ix num slots ix1
        → IsCleared slots ix1.graph (clear_lists slots ix1.graph)
    slots-IsCleared num slots ix ix1 w blank r =
        clear_lists-IsCleared slots ix1.graph r.ascending
          (All-map (λ i. i < length ix1.vectors) (λ i. i < n_nodes ix1.graph)
            (λ i h. omega (arith, h, r.same_nodes)) slots r.inside)
          (room-IsClearable m blank_row ix ix1 num slots w blank r)

    -- The insertion of the new ids, which the translator admits.
    insert-room :
        (num : ℕ) (ids slots : List ℕ) (ix ix1 : Index m V)
        → IsHashMap m
        → IsIndex m ix
        → IsRoom m blank_row ix num slots ix1
        → num ≡ length ids
        → length ix.vectors + num < 2 ^ 32
        → IsDistinctIds ids
        → All (λ e. e < 2 ^ 64) ids
        → IsFree m ix.translator.external_to_internal ids
        → (t : Translator m) × (insert m ids slots true ix1.translator ≡ Result.done t)
          × IsInserted m ids slots ix.translator t
    insert-room num ids slots ix ix1 l w r same small once ext free =
        let int : All (λ i. i < 2 ^ 32) slots =
          All-map (λ i. i < length ix1.vectors) (λ i. i < 2 ^ 32)
            (λ i h. omega (arith, h, small, r.bounded)) slots r.inside in
        elim (insert-IsInserted m l ids slots ix.translator w.bijection ext int) [
          | inr (refused, failed) ↦ absurd (
              refused (record {
                same_length = sym same ∙ sym r.count;
                external_once = once;
                internal_once = IsAscending-IsDistinctIds slots r.ascending;
                external_free = free;
                internal_free = slots-IsFree m ix slots w r.unused;
              }))
          | inl (admitted, (t, inserted, pairs)) ↦
              (t, ap (insert m ids slots true) r.same_translator ∙ inserted, pairs)
        ]

    -- On a well-formed index with an entry point inside, an addition of at least one point, as many as
    -- ids, of distinct 64-bit ids that are not in use, with room for all in 32 bits, comes to the
    -- builder, with a graph of as many vertices as there are vectors, edges, slots and entry point
    -- inside it, the slots' lists empty and all others as they were, the points in the slots' data, and
    -- the ids translated to the slots.
    pub add_points-IsPrepared :
        (points : List V) (ids : List ℕ) (ix : Index m V) (ep : ℕ)
        → IsHashMap m
        → IsIndex m ix
        → get_elem? ix.entry_points 0 ≡ some ep
        → ep < n_nodes ix.graph
        → length blank_row ≡ ix.graph.max_degree + 1
        → length points ≡ length ids
        → 0 < length points
        → length ix.vectors + length points < 2 ^ 32
        → IsDistinctIds ids
        → All (λ e. e < 2 ^ 64) ids
        → IsFree m ix.translator.external_to_internal ids
        → (slots : List ℕ) × (ix' : Index m V) × (add_points m blank_datum blank_row points ids ix
            ≡ to_build ep slots ix')
          × IsPrepared blank_row points ids ix ep slots ix'
    add_points-IsPrepared points ids ix ep l w at low blank same some_point small once ext free =
        let (slots, ix1, roomed, r) =
          make_room-IsRoom m blank_datum blank_row ix (length points) w some_point
            (omega (arith, small)) in
        let (t, inserted, pairs) =
          insert-room (length points) ids slots ix ix1 l w r same small once ext free in
        let (vectors, copies, c) =
          copy_points-IsCopied points slots ix1.vectors (sym r.count) r.ascending r.inside in
        let g = clear_lists slots ix1.graph in
        let cleared = slots-IsCleared (length points) slots ix ix1 w blank r in
        let nodes : n_nodes g ≡ length ix1.vectors = cleared.same_nodes ∙ r.same_nodes in
        (
          slots,
          record ix1 { graph = g; vectors = vectors; translator = t },
          add_points_runs points ids ix same
              ∙ ap (fill_slots m points ids) roomed
              ∙ fill_slots_runs points ids slots ix1 t vectors ep inserted copies
                  (ap (λ eps. get_elem? eps 0) r.same_entry_points ∙ at),
          record {
            grown = ix1;
            room = subst (λ k. IsRoom m blank_row ix k slots ix1) same r;
            fields = refl;
            free = free;
            pairs = pairs;
            copied = c;
            cleared = cleared;
            same_size = nodes ∙ sym c.same_length;
            edges_inside =
                subst (λ n. IsInside n g) (sym nodes)
                  (cleared-IsInside m blank_row ix ix1 (length points) slots g w r cleared);
            slots_inside =
                All-map (λ i. i < length ix1.vectors) (λ i. i < n_nodes g)
                  (λ i h. omega (arith, h, nodes)) slots r.inside;
            entry_inside = omega (arith, low, nodes, w.rows, r.bigger);
          },
        )

  -- If, after that, the builder leaves a graph of as many vertices with its edges inside, the call
  -- ends with a well-formed index in which each id has the datum of its point, all other ids have
  -- theirs, and the entry points are as they were; and it returns the slots of the ids.
  pub finish_points-IsAdded :
      (blank_row : List ℕ) (points : List V) (ids : List ℕ) (ix : Index m V) (ep : ℕ)
      (slots : List ℕ) (ix' : Index m V) (g : Graph)
      → IsIndex m ix
      → IsPrepared blank_row points ids ix ep slots ix'
      → IsGraph g
      → n_nodes g ≡ n_nodes ix'.graph
      → IsInside (n_nodes g) g
      → IsAdded m points ids ix (finish_points m g slots ix').1
        × ((j e i : ℕ)
            → get_elem? ids j ≡ some e
            → get_elem? (finish_points m g slots ix').0 j ≡ some i
            → translate_external_id m (finish_points m g slots ix').1 e ≡ some i)
  unfolding finish_points translate_external_id get_internal
  finish_points-IsAdded blank_row points ids ix ep slots ix' g w p is_graph nodes inside =
      let n : n_nodes g ≡ length p.grown.vectors =
        nodes ∙ p.cleared.same_nodes ∙ p.room.same_nodes in
      (
        subst (λ z. IsAdded m points ids ix (finish_points m g slots z).1) p.fields
            (extended-IsAdded m blank_row points ids slots ix p.grown ix'.translator ix'.vectors
              (mark_valid slots p.grown.status) g w
              (record {
                room = p.room;
                pairs = p.pairs;
                free = p.free;
                copied = p.copied;
                marked = mark_valid-IsMarkedValid slots p.grown.status p.room.ascending (
                    All-map (λ i. i < length p.grown.vectors) (λ i. i < length p.grown.status)
                      (λ i h. omega (arith, h, p.room.same_slots)) slots p.room.inside);
                is_graph = is_graph;
                same_nodes = n;
                inside = subst (λ k. IsInside k g) n inside;
              })),
        λ j e i place slot. p.pairs.pairs j e i place slot,
      )
