-- ===== src/Index/Extended.antt =====
-- The pieces of an index after an addition, and what holds of them together.
use scalable_vector_search.Candidates.Slots.{get_elem?-lt, get_elem?-some_lt}
use scalable_vector_search.Graph.{Graph, n_nodes}
use scalable_vector_search.Graph.Rows.{IsRow}
use scalable_vector_search.Graph.Edges.{IsGraph}
use scalable_vector_search.Translation.{HashMap, Translator}
use scalable_vector_search.Translation.Checks.{IsFree}
use scalable_vector_search.Translation.Insert.{IsInserted}
use scalable_vector_search.Consolidate.Generated.{IsInside}
use scalable_vector_search.Index.{SlotMetadata, empty, valid, Index, get_datum}
use scalable_vector_search.Index.Slots.{IsIndex}
use scalable_vector_search.Index.Room.{IsRoom}
use scalable_vector_search.Index.Filled.{
  place_or_none, IsCopied, IsMarkedValid, IsClearable, IsCleared,
}
use scalable_vector_search.Index.Resized.{get_node_same}
use scalable_vector_search.Index.Rebuilt.{datum_some, datum_none}
use scalable_vector_search.Base.{
  ℕ, zero, suc, ◌+◌, ◌<◌, ◌≡◌, ◌≢◌, inl, inr, sym, ap, ◌∙◌, subst, List, [], ◌∷◌, none, some,
  some-inj, get_elem?, length, arith, Option-cases, All, All-map, dec_lt,
}

unused-apart :
    (status : List SlotMetadata) (slots : List ℕ) (i : ℕ)
    → All (λ k. ¬ (get_elem? status k ≡ some valid)) slots
    → get_elem? status i ≡ some valid
    → All (λ y. y ≢ i) slots
unused-apart status slots i unused at =
    All-map (λ k. ¬ (get_elem? status k ≡ some valid)) (λ y. y ≢ i)
      (λ k h same. h (subst (λ z. get_elem? status z ≡ some valid) (sym same) at)) slots unused

not_apart : (xs : List ℕ) (j i : ℕ) → get_elem? xs j ≡ some i → All (λ y. y ≢ i) xs → ⊥
not_apart [] j i e a = cc
not_apart (x ∷ xs) zero i e a = a.0 (some-inj e)
not_apart (x ∷ xs) (suc j) i e a = not_apart xs j i e a.1

module _ (m : HashMap) {V : Type 0} where
  -- What an addition leaves.
  pub record IsAdded (points : List V) (ids : List ℕ) (ix ix' : Index m V) : Type 0 where
    pub index : IsIndex m ix'
    pub data_added : (j e : ℕ) → get_elem? ids j ≡ some e → get_datum m ix' e ≡ get_elem? points j
    pub others : (e : ℕ) → All (λ x. x ≢ e) ids → get_datum m ix' e ≡ get_datum m ix e
    pub same_entry_points : ix'.entry_points ≡ ix.entry_points

  pub slots-IsFree :
      (ix : Index m V) (slots : List ℕ)
      → IsIndex m ix
      → All (λ i. ¬ (get_elem? ix.status i ≡ some valid)) slots
      → IsFree m ix.translator.internal_to_external slots
  slots-IsFree ix slots w unused =
      All-map (λ i. ¬ (get_elem? ix.status i ≡ some valid))
        (λ i. m.find ix.translator.internal_to_external i ≡ none)
        (λ i h. elim (Option-cases (m.find ix.translator.internal_to_external i)) [
          | inl missing ↦ missing
          | inr (e, at) ↦ absurd (h (w.tracked e i (w.bijection.from i e at)))
        ])
        slots unused

  pub room-IsClearable :
      (blank_row : List ℕ) (ix ix1 : Index m V) (num : ℕ) (slots : List ℕ)
      → IsIndex m ix
      → length blank_row ≡ ix.graph.max_degree + 1
      → IsRoom m blank_row ix num slots ix1
      → IsClearable slots ix1.graph
  unfolding n_nodes
  room-IsClearable blank_row ix ix1 num slots w blank r = record {
    slotted = λ i row at. elim (dec_lt i (length ix.vectors)) [
      | yes old ↦
          let (vs, ss, rows) = r.kept i old in
          let (degree, h) = w.is_graph i row (sym rows ∙ at) in
          omega (arith, h.slots, r.same_max_degree)
      | no new ↦
          let (s, place, same) = behind i row at new in
          omega (arith, ap length (same row at), blank, r.same_max_degree)
    ];
    outside = λ i row at apart. elim (dec_lt i (length ix.vectors)) [
      | yes old ↦
          let (vs, ss, rows) = r.kept i old in
          let (degree, h) = w.is_graph i row (sym rows ∙ at) in
          (degree, subst (λ d. IsRow d row degree) (sym r.same_max_degree) h)
      | no new ↦
          let (s, (j, place), same) = behind i row at new in
          absurd (not_apart slots j i place apart)
    ];
  }
    where
      behind :
          (i : ℕ) (row : List ℕ)
          → get_elem? ix1.graph.rows i ≡ some row
          → ¬ (i < length ix.vectors)
          → (get_elem? ix1.status i ≡ some empty)
            × ((j : ℕ) × (get_elem? slots j ≡ some i))
            × ((row : List ℕ) → get_elem? ix1.graph.rows i ≡ some row → blank_row ≡ row)
      behind i row at new =
          r.added i (omega (arith, new))
            (omega (arith, get_elem?-some_lt ix1.graph.rows i row at, r.same_nodes))

  pub cleared-IsInside :
      (blank_row : List ℕ) (ix ix1 : Index m V) (num : ℕ) (slots : List ℕ) (g : Graph)
      → IsIndex m ix
      → IsRoom m blank_row ix num slots ix1
      → IsCleared slots ix1.graph g
      → IsInside (length ix1.vectors) g
  cleared-IsInside blank_row ix ix1 num slots g w r c v h = elim (place_or_none v slots) [
    | inl (j, slot) ↦ ([], c.cleared j v slot, tt)
    | inr apart ↦ elim (dec_lt v (length ix.vectors)) [
      | yes old ↦
          let (vs, ss, rows) = r.kept v old in
          let (list, at, bounded) = w.inside v (omega (arith, old, w.rows)) in
          (
            list,
            get_node_same g ix.graph v (c.others v apart ∙ rows) ∙ at,
            All-map (λ x. x < n_nodes ix.graph) (λ x. x < length ix1.vectors)
                (λ x k. omega (arith, k, w.rows, r.bigger)) list bounded,
          )
      | no new ↦
          let (s, (j, slot), same) = r.added v (omega (arith, new)) h in
          absurd (not_apart slots j v slot apart)
    ]
  ]

  -- The pieces of the index after an addition.
  pub record IsExtended (blank_row : List ℕ) (points : List V) (ids slots : List ℕ)
      (ix ix1 : Index m V) (t : Translator m) (vectors : List V) (status : List SlotMetadata)
      (g : Graph) : Type 0 where
    pub room : IsRoom m blank_row ix (length ids) slots ix1
    pub pairs : IsInserted m ids slots ix.translator t
    pub free : IsFree m ix.translator.external_to_internal ids
    pub copied : IsCopied points slots ix1.vectors vectors
    pub marked : IsMarkedValid slots ix1.status status
    pub is_graph : IsGraph g
    pub same_nodes : n_nodes g ≡ length ix1.vectors
    pub inside : IsInside (length ix1.vectors) g

  extended-IsIndex :
      (blank_row : List ℕ) (points : List V) (ids slots : List ℕ) (ix ix1 : Index m V)
      (t : Translator m) (vectors : List V) (status : List SlotMetadata) (g : Graph)
      → IsIndex m ix
      → IsExtended blank_row points ids slots ix ix1 t vectors status g
      → IsIndex m (record ix1 { graph = g; vectors = vectors; translator = t; status = status })
  extended-IsIndex blank_row points ids slots ix ix1 t vectors status g w x = record {
    slots = x.marked.same_length ∙ x.room.same_slots ∙ sym x.same_nodes;
    rows = x.copied.same_length ∙ sym x.same_nodes;
    is_graph = x.is_graph;
    inside = subst (λ n. IsInside n g) (sym x.same_nodes) x.inside;
    bijection = x.pairs.bijection;
    tracked = λ e i at. elim (place_or_none e ids) [
      | inl (j, place) ↦
          let (k, slot) =
            get_elem?-lt slots j (omega (arith, get_elem?-some_lt ids j e place, x.room.count)) in
          subst (λ z. get_elem? status z ≡ some valid)
            (some-inj (sym (x.pairs.pairs j e k place slot) ∙ at)) (x.marked.marked j k slot)
      | inr apart ↦
          let was = w.tracked e i (sym (x.pairs.others e apart) ∙ at) in
          let old = get_elem?-some_lt ix.status i valid was in
          x.marked.others i (unused-apart ix.status slots i x.room.unused was)
          ∙ (x.room.kept i (omega (arith, old, w.slots, w.rows))).1
          ∙ was
    ];
    known = λ i at. elim (place_or_none i slots) [
      | inl (j, slot) ↦
          let (e, place) =
            get_elem?-lt ids j (omega (arith, get_elem?-some_lt slots j i slot, x.room.count)) in
          (e, x.pairs.bijection.to e i (x.pairs.pairs j e i place slot))
      | inr apart ↦
          let before = sym (x.marked.others i apart) ∙ at in
          elim (dec_lt i (length ix.vectors)) [
            | yes old ↦
                let (e, back) = w.known i (sym (x.room.kept i old).1 ∙ before) in
                let there = w.bijection.from i e back in
                (e, x.pairs.bijection.to e i (x.pairs.others e (ids_apart e i there) ∙ there))
            | no new ↦
                let (s, slot, same) =
                  x.room.added i (omega (arith, new)) (
                    omega
                      (arith, get_elem?-some_lt ix1.status i valid before, x.room.same_slots)) in
                absurd (different (some-inj (sym s ∙ before)))
          ]
    ];
  }
    where
      different : empty ≢ valid
      different e = cc

      ids_apart :
          (e i : ℕ) → m.find ix.translator.external_to_internal e ≡ some i → All (λ y. y ≢ e) ids
      ids_apart e i there =
          All-map (λ y. m.find ix.translator.external_to_internal y ≡ none) (λ y. y ≢ e)
            (λ y missing same. cc (missing, there, same)) ids x.free

  pub extended-IsAdded :
      (blank_row : List ℕ) (points : List V) (ids slots : List ℕ) (ix ix1 : Index m V)
      (t : Translator m) (vectors : List V) (status : List SlotMetadata) (g : Graph)
      → IsIndex m ix
      → IsExtended blank_row points ids slots ix ix1 t vectors status g
      → IsAdded points ids ix
          (record ix1 { graph = g; vectors = vectors; translator = t; status = status })
  extended-IsAdded blank_row points ids slots ix ix1 t vectors status g w x =
      let ix' = record ix1 { graph = g; vectors = vectors; translator = t; status = status } in
      record {
        index = extended-IsIndex blank_row points ids slots ix ix1 t vectors status g w x;
        data_added = λ j e place.
            let (k, slot) =
              get_elem?-lt slots j (omega (arith, get_elem?-some_lt ids j e place, x.room.count)) in
            datum_some m ix' e k (x.pairs.pairs j e k place slot) ∙ x.copied.copied j k slot;
        others = λ e apart. elim (Option-cases (m.find ix.translator.external_to_internal e)) [
          | inl missing ↦
              datum_none m ix' e (x.pairs.others e apart ∙ missing)
              ∙ sym (datum_none m ix e missing)
          | inr (i, there) ↦
              let was = w.tracked e i there in
              let old = get_elem?-some_lt ix.status i valid was in
              let (vs, ss, rows) = x.room.kept i (omega (arith, old, w.slots, w.rows)) in
              datum_some m ix' e i (x.pairs.others e apart ∙ there)
              ∙ x.copied.others i (unused-apart ix.status slots i x.room.unused was)
              ∙ vs
              ∙ sym (datum_some m ix e i there)
        ];
        same_entry_points = x.room.same_entry_points;
      }
