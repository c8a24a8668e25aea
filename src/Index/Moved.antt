-- ===== src/Index/Moved.antt =====
-- The adjacency lists move to the new ids, and the edges with them.
use native.Mathlib.Nat.{mod-eq_of_lt}
use scalable_vector_search.Candidates.Slots.{get_elem?-lt, get_elem?-some_lt, take_all}
use scalable_vector_search.Graph.{Graph, n_nodes, get_node, adjacency}
use scalable_vector_search.Graph.Rows.{length-adjacency}
use scalable_vector_search.Graph.Edges.{IsGraph, node-IsRow, replace_node-IsUpdated}
use scalable_vector_search.Translation.{HashMap, IsHashMap}
use scalable_vector_search.Compaction.{IsTable, compacted, compact_batches}
use scalable_vector_search.Compaction.Batches.{IsMoved, IsMovable, compact_batches-IsCompacted}
use scalable_vector_search.Compaction.Lists.{length-ascending}
use scalable_vector_search.Index.{SlotMetadata, valid}
use scalable_vector_search.Index.Compacting.{plus_idx, adjacency_lists, old_to_new, remap_list}
use scalable_vector_search.Index.Renumbering.{IsNonmissing, find-old_to_new, remap_list-bounded}
use scalable_vector_search.Base.{
  ℕ, suc, ◌+◌, ◌^◌, ◌≤◌, ◌<◌, ◌≡◌, refl, sym, ap, ◌∙◌, subst, List, [], ◌∷◌, some, some-inj,
  get_elem?, length, min, arith, All, All-map,
}

-- A graph of maximum degree d.
abbrev IsGraphOf : ℕ → Graph → Type 0
IsGraphOf d g = IsGraph g × (g.max_degree ≡ d)

lists-IsTable :
    (width d : ℕ)
    → d < 2 ^ width
    → IsTable (adjacency_lists width) (IsGraphOf d) (λ list. length list ≤ d)
lists-IsTable width d small = record {
  get-inside = λ g i w h.
      let (row, degree, at, r, is_node) = node-IsRow g i w.0 h in
      (
        adjacency degree row,
        is_node,
        omega (arith, length-adjacency width g.max_degree row degree r, r.fits, w.1),
      );
  put-inside = λ g i list w h fits.
      let (g', runs, u) = replace_node-IsUpdated width g i list w.0 h (omega arith) in
      (
        g',
        runs,
        (u.is_graph, u.same_max_degree ∙ w.1),
        u.same_nodes,
        u.here ∙ ap some (take_all (min g.max_degree (length list)) list (omega (arith, w.1))),
        u.others,
      );
}

-- Every valid slot has a list, of valid slots.
abbrev pub IsClean : List SlotMetadata → Graph → Type 0
IsClean status g =
    (v : ℕ)
    → get_elem? status v ≡ some valid
    → (list : List ℕ) × (get_node g v ≡ some list) × All (λ x. get_elem? status x ≡ some valid) list

module _ (m : HashMap) (l : IsHashMap m) where
  -- The graph g' has, at the new ids, the lists of g renumbered.
  pub record IsRenumbered (ids : List ℕ) (g g' : Graph) : Type 0 where
    pub is_graph : IsGraph g'
    pub same_nodes : n_nodes g' ≡ n_nodes g
    pub same_max_degree : g'.max_degree ≡ g.max_degree
    pub lists :
        (k o : ℕ)
        → get_elem? ids k ≡ some o
        → (list : List ℕ) × (list' : List ℕ) × (get_node g o ≡ some list)
          × (remap_list m (old_to_new m ids) list ≡ some list')
          × (get_node g' k ≡ some list')
          × All (λ x. x < length ids) list'

  module _ (width : ℕ) (status : List SlotMetadata) (ids : List ℕ) (g : Graph)
      (numbering : IsNonmissing status ids) (clean : IsClean status g)
      (small : g.max_degree < 2 ^ width) (slots : length status ≡ n_nodes g) where
    renumbered :
        (list : List ℕ)
        → All (λ x. get_elem? status x ≡ some valid) list
        → (list' : List ℕ) × (remap_list m (old_to_new m ids) list ≡ some list')
          × (length list' ≡ length list)
          × All (λ x. x < length ids) list'
    renumbered list a = remap_list-bounded m l (old_to_new m ids) (length ids) list (
        All-map (λ x. get_elem? status x ≡ some valid)
          (λ x. (k : ℕ) × (m.find (old_to_new m ids) x ≡ some k) × k < length ids)
          (λ x h.
            let (k, at) = numbering.complete x h in
            (k, find-old_to_new m l ids k x numbering.ascending at, get_elem?-some_lt ids k x at))
          list a)

    abbrev IsListMoved : ℕ → List ℕ → Type 0
    IsListMoved k w =
        IsMoved (adjacency_lists width) (adjacency_lists width) (remap_list m (old_to_new m ids))
          (λ v. v) (lists-IsTable width g.max_degree small) (lists-IsTable width g.max_degree small)
          ids g k w

    lists-IsMovable :
        IsGraph g
        → IsMovable
            (adjacency_lists width)
            (adjacency_lists width)
            (remap_list m (old_to_new m ids))
            (λ v. v)
            (lists-IsTable width g.max_degree small)
            (lists-IsTable width g.max_degree small)
            ids
            g
    lists-IsMovable w k h =
        let (o, at) = get_elem?-lt ids k h in
        let (list, is_node, a) = clean o (numbering.sound k o at) in
        let (list', runs, same, bounded) = renumbered list a in
        let below : o < n_nodes g =
          omega (arith, get_elem?-some_lt status o valid (numbering.sound k o at), slots) in
        let (v, same_node, room) =
          (lists-IsTable width g.max_degree small).get-inside g o (w, refl) below in
        let fits : length list ≤ g.max_degree =
          subst (λ z. length z ≤ g.max_degree) (some-inj (sym same_node ∙ is_node)) room in
        (
          list',
          record {
            old_id = o;
            entry = list;
            mapped = at;
            from = is_node;
            moved = runs;
            fits = omega (arith, same, fits);
            fits_back = omega (arith, same, fits);
          },
        )

    length-ids : length ids ≤ n_nodes g
    length-ids = length-ascending ids (n_nodes g) numbering.ascending (
        All-nodes ids (λ k o at.
          omega (arith, get_elem?-some_lt status o valid (numbering.sound k o at), slots)))
      where
        All-nodes :
            (xs : List ℕ)
            → ((k o : ℕ) → get_elem? xs k ≡ some o → o < n_nodes g)
            → All (λ o. o < n_nodes g) xs
        All-nodes [] f = tt
        All-nodes (x ∷ xs) f = (f 0 x refl, All-nodes xs (λ k o at. f (suc k) o at))

    moved_list :
        (g' : Graph) (k o : ℕ) (w : List ℕ)
        → IsListMoved k w
        → get_node g' k ≡ some w
        → get_elem? ids k ≡ some o
        → (list : List ℕ) × (list' : List ℕ) × (get_node g o ≡ some list)
          × (remap_list m (old_to_new m ids) list ≡ some list')
          × (get_node g' k ≡ some list')
          × All (λ x. x < length ids) list'
    moved_list g' k o w moved here at =
        let same : moved.old_id ≡ o = some-inj (sym moved.mapped ∙ at) in
        let from : get_node g o ≡ some moved.entry =
          subst (λ z. get_node g z ≡ some moved.entry) same moved.from in
        let (list, is_node, a) = clean o (numbering.sound k o at) in
        let (list', runs, size, bounded) = renumbered list a in
        let result : list' ≡ w = some-inj (
          sym runs
          ∙ ap (remap_list m (old_to_new m ids)) (some-inj (sym is_node ∙ from))
          ∙ moved.moved) in
        (list, list', is_node, runs, here ∙ ap some (sym result), bounded)

    plus-exact :
        (k : ℕ) (temp : Graph) {batch_size : ℕ}
        → k < length ids
        → n_nodes g + batch_size ≤ 2 ^ width
        → n_nodes temp ≡ batch_size
        → plus_idx width k (n_nodes temp) ≡ k + n_nodes temp
    unfolding plus_idx
    plus-exact k temp h narrow size = mod-eq_of_lt (omega (arith, length-ids, narrow, size))

    -- The loop over the graph ends with the lists at their new ids.
    pub compact_batches-IsRenumbered :
        (fuel batch_size : ℕ) (temp : Graph)
        → n_nodes g + batch_size ≤ 2 ^ width
        → IsGraph g
        → IsGraph temp
        → temp.max_degree ≡ g.max_degree
        → n_nodes temp ≡ batch_size
        → 0 < batch_size
        → length ids ≤ fuel
        → (g' : Graph) × (compact_batches
              (adjacency_lists width)
              (adjacency_lists width)
              (remap_list m (old_to_new m ids))
              (λ v. v)
              (plus_idx width)
              fuel
              batch_size
              ids
              0
              g
              temp
            ≡ compacted g')
          × IsRenumbered ids g g'
    compact_batches-IsRenumbered fuel batch_size temp narrow w wt same size p enough =
        let (g', runs, i) =
          compact_batches-IsCompacted (adjacency_lists width) (adjacency_lists width)
            (remap_list m (old_to_new m ids)) (λ v. v) (lists-IsTable width g.max_degree small)
            (lists-IsTable width g.max_degree small) ids g numbering.ascending (lists-IsMovable w)
            (plus_idx width) fuel temp (λ k h. plus-exact k temp h narrow size) (w, refl) (wt, same)
            (omega (arith, size)) length-ids enough in
        (
          g',
          subst
              (λ k.
                compact_batches (adjacency_lists width) (adjacency_lists width)
                  (remap_list m (old_to_new m ids)) (λ v. v) (plus_idx width) fuel k ids 0 g temp
                ≡ compacted g')
              size runs,
          record {
            is_graph = i.good.0;
            same_nodes = i.same_size;
            same_max_degree = i.good.1;
            lists = λ k o at.
                let (v, moved, here) = i.before k (get_elem?-some_lt ids k o at) in
                moved_list g' k o v moved here at;
          },
        )
