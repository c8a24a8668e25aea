-- ===== src/Index/Consolidating.antt =====
-- `consolidate` of the mutable index.
use mathlib.Core.List.{Permᴰ}
use scalable_vector_search.Candidates.Slots.{get_elem?-some_lt}
use scalable_vector_search.Graph.{Graph, n_nodes, get_node}
use scalable_vector_search.Translation.{HashMap}
use scalable_vector_search.Consolidate.{Candidate, CandidateSet, consolidated, consolidate}
use scalable_vector_search.Consolidate.Candidates.{IsCandidateSet, IsAlive}
use scalable_vector_search.Consolidate.Generated.{IsPruner, IsInside}
use scalable_vector_search.Consolidate.Batches.{IsConsolidated, consolidate-IsConsolidated}
use scalable_vector_search.Index.{
  SlotMetadata, valid, deleted, is_deleted_slot, is_deleted, vacate, Index, done,
  replace_entry_point, consolidate_index,
}
use scalable_vector_search.Index.Slots.{
  IsIndex, is_deleted-valid, valid-is_deleted, length-vacate, vacate-valid, valid-vacate,
  vacate-deleted,
}
use scalable_vector_search.Base.{
  ℕ, ◌^◌, ◌≤◌, ◌<◌, ◌≡◌, inl, inr, refl, sym, ◌∙◌, subst, Bool, not, List, Option, some, get_elem?,
  set, arith, Bool-cases, All, All-map,
}

alive-valid :
    (status : List SlotMetadata) (n : ℕ) (list : List ℕ)
    → All (IsAlive (is_deleted status) n) list
    → All (λ x. get_elem? (vacate status) x ≡ some valid) list
alive-valid status n list a =
    All-map (IsAlive (is_deleted status) n) (λ x. get_elem? (vacate status) x ≡ some valid)
      (λ x h. vacate-valid status x (is_deleted-valid status x h.1)) list a

module _ (m : HashMap) {V : Type 0} where
  -- What a consolidation leaves, when the entry point is `ep`.
  pub record IsReclaimed (ix ix' : Index m V) : Type 0 where
    pub index : IsIndex m ix'
    pub valid_neighbors :
        (v : ℕ)
        → get_elem? ix'.status v ≡ some valid
        → (list : List ℕ) × (get_node ix'.graph v ≡ some list)
          × All (λ x. get_elem? ix'.status x ≡ some valid) list
    pub none_deleted : (v : ℕ) → ¬ (get_elem? ix'.status v ≡ some deleted)
    pub same_valid :
        (v : ℕ) → get_elem? ix.status v ≡ some valid → get_elem? ix'.status v ≡ some valid
    pub same_vectors : ix'.vectors ≡ ix.vectors
    pub same_translator : ix'.translator ≡ ix.translator

  consolidated-IsInside :
      (ix : Index m V) (g : Graph)
      → IsIndex m ix
      → IsConsolidated (is_deleted ix.status) ix.graph g
      → IsInside (n_nodes ix.graph) g
  consolidated-IsInside ix g w c v h = elim (Bool-cases (is_deleted ix.status v)) [
    | inl dead ↦ let (list, at, a) = w.inside v h in (list, c.deleted v dead ∙ at, a)
    | inr alive ↦
        let (list, at, a) = c.alive v h alive in
        (
          list,
          at,
          All-map (IsAlive (is_deleted ix.status) (n_nodes ix.graph)) (λ x. x < n_nodes ix.graph)
              (λ x p. p.0) list a,
        )
  ]

  consolidated-IsReclaimed :
      (ix : Index m V) (g : Graph)
      → IsIndex m ix
      → IsConsolidated (is_deleted ix.status) ix.graph g
      → IsReclaimed ix (record ix { graph = g; status = vacate ix.status })
  consolidated-IsReclaimed ix g w c = record {
    index = record {
      slots = length-vacate ix.status ∙ w.slots ∙ sym c.same_nodes;
      rows = w.rows ∙ sym c.same_nodes;
      is_graph = c.is_graph;
      inside = subst (λ n. IsInside n g) (sym c.same_nodes) (consolidated-IsInside ix g w c);
      bijection = w.bijection;
      tracked = λ e i h. vacate-valid ix.status i (w.tracked e i h);
      known = λ i h. w.known i (valid-vacate ix.status i h);
    };
    valid_neighbors = λ v h.
        let was = valid-vacate ix.status v h in
        let (list, at, a) =
          c.alive v (omega (arith, get_elem?-some_lt ix.status v valid was, w.slots))
            (valid-is_deleted ix.status v was) in
        (list, at, alive-valid ix.status (n_nodes ix.graph) list a);
    none_deleted = λ v. vacate-deleted ix.status v;
    same_valid = λ v h. vacate-valid ix.status v h;
    same_vectors = refl;
    same_translator = refl;
  }

  module _ (compute_entry_point : List V → (ℕ → Bool) → ℕ) (c : CandidateSet) {D : Type 0}
      (distance : List V → ℕ → ℕ → D) (by : List (Candidate D) → List (Candidate D))
      (prune : ℕ → List (Candidate D) → List ℕ → Option (List ℕ)) (width : ℕ) (thread_of : ℕ → ℕ)
      (fuel blank : ℕ) (flag : Bool) (num_threads : ℕ) where
    consolidate_index_runs :
        (ix ix1 : Index m V) (g : Graph)
        → replace_entry_point m compute_entry_point ix ≡ some ix1
        → consolidate c
            (is_deleted ix1.status)
            (distance ix1.vectors)
            by
            prune
            width
            thread_of
            ix1.prune_to
            ix1.max_candidates
            fuel
            blank
            flag
            num_threads
            ix1.graph
          ≡ consolidated g
        → consolidate_index m compute_entry_point c distance by prune width thread_of fuel blank
            flag num_threads ix
          ≡ done (record ix1 { graph = g; status = vacate ix1.status })
    unfolding consolidate_index
    consolidate_index_runs ix ix1 g replaced runs = rw (replaced, consolidate_index, runs) refl

    replace_entry_point_runs :
        (ix : Index m V) (ep : ℕ) (s : SlotMetadata)
        → get_elem? ix.entry_points 0 ≡ some ep
        → get_elem? ix.status ep ≡ some s
        → (points : List ℕ) × (replace_entry_point m compute_entry_point ix
            ≡ some (record ix { entry_points = points }))
    unfolding replace_entry_point
    replace_entry_point_runs ix ep s at state = elim (Bool-cases (is_deleted_slot s)) [
      | inl dead ↦ (
        set ix.entry_points 0 (compute_entry_point ix.vectors (λ i. not (is_deleted ix.status i))),
        rw (at, replace_entry_point, state, dead) refl,
      )
      | inr alive ↦ (ix.entry_points, rw (at, replace_entry_point, state, alive) refl)
    ]

    -- For an index that is well formed and whose entry point is one of its slots, with a hash set, a
    -- sort that rearranges, a pruning strategy that keeps to its pool and to the result of before, a
    -- thread for each index and fuel for each slot: the consolidation finishes with a well-formed index
    -- in which every neighbor of a valid slot is a valid slot and no slot is deleted any more, with the
    -- slots that were valid, the data and the translation as they were.
    pub consolidate_index-IsReclaimed :
        (ix : Index m V) (ep : ℕ) (s : SlotMetadata)
        → IsIndex m ix
        → get_elem? ix.entry_points 0 ≡ some ep
        → get_elem? ix.status ep ≡ some s
        → IsCandidateSet c
        → ((xs : List (Candidate D)) → Permᴰ xs (by xs))
        → IsPruner ix.prune_to prune
        → ix.prune_to < 2 ^ width
        → ((v : ℕ) → thread_of v < num_threads)
        → n_nodes ix.graph ≤ fuel
        → (ix' : Index m V) × (consolidate_index m compute_entry_point c distance by prune width
              thread_of fuel blank flag num_threads ix
            ≡ done ix')
          × IsReclaimed ix ix'
    consolidate_index-IsReclaimed ix ep s w at state law rearranges pruner small team enough =
        let (points, replaced) = replace_entry_point_runs ix ep s at state in
        let ix1 = record ix { entry_points = points } in
        let (g, runs, k) =
          consolidate-IsConsolidated c (is_deleted ix.status) (distance ix.vectors) by prune width
            thread_of ix.prune_to ix.max_candidates fuel blank flag num_threads ix.graph law
            rearranges pruner small w.is_graph w.inside team enough in
        let r = consolidated-IsReclaimed ix g w k in
        (
          record ix1 { graph = g; status = vacate ix.status },
          consolidate_index_runs ix ix1 g replaced runs,
          record {
            index = record {
              slots = r.index.slots;
              rows = r.index.rows;
              is_graph = r.index.is_graph;
              inside = r.index.inside;
              bijection = r.index.bijection;
              tracked = r.index.tracked;
              known = r.index.known;
            };
            valid_neighbors = r.valid_neighbors;
            none_deleted = r.none_deleted;
            same_valid = r.same_valid;
            same_vectors = refl;
            same_translator = refl;
          },
        )
