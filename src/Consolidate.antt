-- ===== src/Consolidate.antt =====
-- The consolidation of the graph after vertices were deleted:
-- include/svs/index/vamana/consolidate.h.
-- A vertex is deleted or not by `is_deleted`. The hash set of candidates, `std::sort`, the distances
-- between vertices and the pruning strategy are parameters; `none` and `fault` are failed accesses and
-- assertions. Of a parallel run, `thread_of` tells the thread that handles an index: threads share
-- nothing but the entries of their own indices, so the order of the indices does not matter except
-- within a thread, where it is ascending.
pub mod Candidates
pub mod Updates
pub mod Generated
pub mod Batch
pub mod Applied
pub mod Batches
pub mod Pruner
pub mod Tests
use scalable_vector_search.Neighbor.{Neighbor}
use scalable_vector_search.Graph.{Graph, n_nodes, get_node, copy_to, replace_node}
use scalable_vector_search.Base.{
  ℕ, zero, suc, ◌+◌, ◌-◌, ◌%◌, ◌^◌, Bool, true, false, not, List, [], ◌∷◌, Option, none, some, map,
  get_elem?, set, take, replicate, length, ltb, leb, if◌then◌else◌, min,
}

-- A candidate neighbor without metadata.
abbrev pub Candidate : Type 0 → Type 0
Candidate D = Neighbor D (Unit {0})

-- What the consolidation calls of the hash set, whose iteration is `elements`.
pub record CandidateSet : Type 1 where
  pub Set : Type 0
  pub empty : Set
  pub insert : Set → ℕ → Set
  pub elements : Set → List ℕ

pub record ConsolidationParameters : Type 0 where
  pub update_batch_size : ℕ
  pub prune_to : ℕ
  pub max_candidate_pool_size : ℕ

-- `BulkUpdate`: a row of neighbors, a length and a flag for each vertex of a batch.
pub record BulkUpdate : Type 0 where
  pub neighbors : List (List ℕ)
  pub lengths : List ℕ
  pub needs_update : List Bool

-- New memory holds `blank`, in the flags too.
unfoldable pub make_update : ℕ → Bool → ℕ → ℕ → BulkUpdate
make_update blank flag max_batch_size prune_to = record {
  neighbors = replicate max_batch_size (replicate prune_to blank);
  lengths = replicate max_batch_size blank;
  needs_update = replicate max_batch_size flag;
}

unfoldable pub prepare : BulkUpdate → BulkUpdate
prepare u = record u { needs_update = map (λ b. false) u.needs_update }

unfoldable pub insert_update : ℕ → ℕ → List ℕ → BulkUpdate → Option BulkUpdate
unfolding copy_to
insert_update width src neighbors u = elim (get_elem? u.neighbors src) [
  | none ↦ none
  | some slots ↦
      if leb (length neighbors) (length slots)
      then some (record {
        neighbors = set u.neighbors src (copy_to slots 0 neighbors);
        lengths = set u.lengths src (length neighbors % 2 ^ width);
        needs_update = set u.needs_update src true;
      })
      else none
]

unfoldable pub get_update : BulkUpdate → ℕ → Option (List ℕ)
get_update u src = elim (get_elem? u.neighbors src) [
  | none ↦ none
  | some slots ↦ elim (get_elem? u.lengths src) [ none ↦ none | some size ↦ some (take size slots) ]
]

-- `std::none_of`.
unfoldable pub none_of : (ℕ → Bool) → List ℕ → Bool
none_of is_deleted [] = true
none_of is_deleted (x ∷ xs) = if is_deleted x then false else none_of is_deleted xs

pub data ConsolidateResult : Type 0 where
  consolidated : Graph → ConsolidateResult
  fault out_of_fuel : ConsolidateResult

module _ (c : CandidateSet) where
  unfoldable pub insert_all : List ℕ → c.Set → c.Set
  insert_all [] s = s
  insert_all (x ∷ xs) s = insert_all xs (c.insert s x)

module _ (c : CandidateSet) (is_deleted : ℕ → Bool) where
  -- The loop of `populate_candidates`, which starts with the cleared set.
  unfoldable pub populate_candidates : Graph → List ℕ → c.Set → Option c.Set
  unfolding insert_all get_node
  populate_candidates g [] s = some s
  populate_candidates g (dst ∷ neighbors) s = elim (is_deleted dst) [
    | true ↦ elim (get_node g dst) [
      | none ↦ none
      | some others ↦ populate_candidates g neighbors (insert_all c others s)
    ]
    | false ↦ populate_candidates g neighbors (c.insert s dst)
  ]

module _ (is_deleted : ℕ → Bool) {D : Type 0} (distance : ℕ → ℕ → D) where
  -- The loop of `filter_candidates`.
  unfoldable pub valid_candidates : ℕ → List ℕ → List (Candidate D)
  valid_candidates src [] = []
  valid_candidates src (dst ∷ all_candidates) =
      let rest = valid_candidates src all_candidates in
      if is_deleted dst
      then rest
      else record { id = dst; distance = distance src dst; meta = tt } ∷ rest

  unfoldable pub filter_candidates :
      (c : CandidateSet) (by : List (Candidate D) → List (Candidate D))
      → ℕ
      → c.Set
      → List (Candidate D)
  unfolding valid_candidates
  filter_candidates c by src all_candidates = by (valid_candidates src (c.elements all_candidates))

module _ (width : ℕ) where
  -- The second run.
  unfoldable pub apply_updates : BulkUpdate → ℕ → ℕ → ℕ → Graph → Option Graph
  unfolding get_update replace_node
  apply_updates u start i zero g = some g
  apply_updates u start i (suc count) g = elim (get_elem? u.needs_update i) [
    | none ↦ none
    | some false ↦ apply_updates u start (i + 1) count g
    | some true ↦ elim (get_update u i) [
      | none ↦ none
      | some neighbors ↦ elim (replace_node width (start + i) neighbors g) [
        | none ↦ none
        | some g' ↦ apply_updates u start (i + 1) count g'
      ]
    ]
  ]

module _ (c : CandidateSet) (is_deleted : ℕ → Bool) {D : Type 0} (distance : ℕ → ℕ → D)
    (by : List (Candidate D) → List (Candidate D))
    (prune : ℕ → List (Candidate D) → List ℕ → Option (List ℕ)) (params : ConsolidationParameters)
    (width : ℕ) where
  -- The body of `generate_updates` for the vertex `src`, at i in the batch; `final_candidates` is the
  -- thread's vector, which keeps what it holds if the pruning does not change it.
  unfoldable pub generate_update :
      Graph → ℕ → ℕ → BulkUpdate → List ℕ → Option (BulkUpdate × List ℕ)
  unfolding get_node none_of populate_candidates filter_candidates insert_update
  generate_update g src i u final_candidates = elim (is_deleted src) [
    | true ↦ some (u, final_candidates)
    | false ↦ elim (get_node g src) [
      | none ↦ none
      | some neighbors ↦ elim (none_of is_deleted neighbors) [
        | true ↦ some (u, final_candidates)
        | false ↦ elim (populate_candidates c is_deleted g neighbors c.empty) [
          | none ↦ none
          | some all_candidates ↦
              elim (prune src
                (take params.max_candidate_pool_size
                  (filter_candidates is_deleted distance c by src all_candidates))
                final_candidates) [
                  | none ↦ none
                  | some chosen ↦ elim (insert_update width i chosen u) [
                    | none ↦ none
                    | some u' ↦ some (u', chosen)
                  ]
                ]
        ]
      ]
    ]
  ]

  module _ (thread_of : ℕ → ℕ) where
    -- The first run of a batch, over the indices from i on.
    unfoldable pub generate_updates :
        Graph → ℕ → ℕ → ℕ → BulkUpdate → List (List ℕ) → Option (BulkUpdate × List (List ℕ))
    unfolding generate_update
    generate_updates g start i zero u tls = some (u, tls)
    generate_updates g start i (suc count) u tls =
        let tid = thread_of (start + i) in
        elim (get_elem? tls tid) [
          | none ↦ none
          | some final_candidates ↦ elim (generate_update g (start + i) i u final_candidates) [
            | none ↦ none
            | some (u', chosen) ↦ generate_updates g start (i + 1) count u' (set tls tid chosen)
          ]
        ]

    -- The loop over the batches.
    unfoldable pub consolidate_batches :
        ℕ → ℕ → ℕ → ℕ → Graph → BulkUpdate → List (List ℕ) → ConsolidateResult
    unfolding prepare generate_updates apply_updates
    consolidate_batches zero num_nodes batch_size start g u tls =
        if ltb start num_nodes then out_of_fuel else consolidated g
    consolidate_batches (suc fuel) num_nodes batch_size start g u tls = elim (ltb start num_nodes) [
      | false ↦ consolidated g
      | true ↦
          let stop = min num_nodes (start + batch_size) in
          let count = stop - start in
          elim (generate_updates g start 0 count (prepare u) tls) [
            | none ↦ fault
            | some (u', tls') ↦ elim (apply_updates width u' start 0 count g) [
              | none ↦ fault
              | some g' ↦ consolidate_batches fuel num_nodes batch_size stop g' u' tls'
            ]
          ]
    ]

    -- The call operator of the consolidator, with a pool of `num_threads` threads.
    unfoldable pub consolidator : ℕ → ℕ → Bool → ℕ → Graph → ConsolidateResult
    unfolding make_update consolidate_batches n_nodes
    consolidator fuel blank flag num_threads g =
        let num_nodes = n_nodes g in
        consolidate_batches fuel num_nodes (min params.update_batch_size num_nodes) 0 g
          (make_update blank flag params.update_batch_size params.prune_to)
          (replicate num_threads [])

-- `consolidate`, whose batches have 200'000 vertices.
unfoldable pub consolidate :
    (c : CandidateSet) (is_deleted : ℕ → Bool) {D : Type 0} (distance : ℕ → ℕ → D)
    (by : List (Candidate D) → List (Candidate D))
    (prune : ℕ → List (Candidate D) → List ℕ → Option (List ℕ)) (width : ℕ) (thread_of : ℕ → ℕ)
    (prune_to max_candidate_pool_size fuel blank : ℕ) (flag : Bool) (num_threads : ℕ) (g : Graph)
    → ConsolidateResult
unfolding consolidator
consolidate c is_deleted distance by prune width thread_of prune_to max_candidate_pool_size fuel
      blank flag num_threads g =
    consolidator c is_deleted distance by prune
      (record {
        update_batch_size = 200000;
        prune_to = prune_to;
        max_candidate_pool_size = max_candidate_pool_size;
      })
      width thread_of fuel blank flag num_threads g
