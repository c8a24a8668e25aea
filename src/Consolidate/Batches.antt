-- ===== src/Consolidate/Batches.antt =====
-- The whole consolidation: afterwards no edge leads from an undeleted vertex to a deleted one.
use mathlib.Core.List.{Permᴰ}
use scalable_vector_search.Graph.{Graph, n_nodes, get_node}
use scalable_vector_search.Graph.Edges.{IsGraph}
use scalable_vector_search.Consolidate.{
  Candidate, CandidateSet, ConsolidationParameters, BulkUpdate, ConsolidateResult, consolidated,
  prepare, generate_updates, apply_updates, make_update, consolidate_batches, consolidator,
  consolidate,
}
use scalable_vector_search.Consolidate.Candidates.{IsCandidateSet, IsAlive}
use scalable_vector_search.Consolidate.Updates.{IsBulk, prepare-IsBulk, make_update-IsBulk}
use scalable_vector_search.Consolidate.Generated.{IsPruner, IsInside, IsFinal}
use scalable_vector_search.Consolidate.Batch.{IsTeam, generate_updates-IsBatch}
use scalable_vector_search.Consolidate.Applied.{IsPartly, IsPending-move, apply_updates-IsPartly}
use scalable_vector_search.Base.{
  ℕ, zero, suc, ◌+◌, ◌-◌, ◌^◌, ◌≤◌, ◌<◌, ◌≡◌, inl, inr, refl, sym, ◌∙◌, subst, Bool, true, false,
  List, [], Option, some, replicate, length-replicate, ltb, min, arith, All, Bool-cases,
}

-- What the consolidation makes of a graph of n vertices.
pub record IsConsolidated (is_deleted : ℕ → Bool) (g g' : Graph) : Type 0 where
  pub is_graph : IsGraph g'
  pub same_nodes : n_nodes g' ≡ n_nodes g
  pub same_max_degree : g'.max_degree ≡ g.max_degree
  pub alive :
      (v : ℕ)
      → v < n_nodes g
      → is_deleted v ≡ false
      → (list : List ℕ) × (get_node g' v ≡ some list) × All (IsAlive is_deleted (n_nodes g)) list
  pub deleted : (v : ℕ) → is_deleted v ≡ true → get_node g' v ≡ get_node g v
  pub clean :
      (v : ℕ) (list : List ℕ)
      → get_node g v ≡ some list
      → All (IsAlive is_deleted (n_nodes g)) list
      → get_node g' v ≡ some list

replicate-All_nil :
    (is_deleted : ℕ → Bool) (n limit k : ℕ) → All (IsFinal is_deleted n limit) (replicate k [])
replicate-All_nil is_deleted n limit zero = tt
replicate-All_nil is_deleted n limit (suc k) =
    ((omega arith, tt), replicate-All_nil is_deleted n limit k)

module _ (c : CandidateSet) (is_deleted : ℕ → Bool) {D : Type 0} (distance : ℕ → ℕ → D)
    (by : List (Candidate D) → List (Candidate D))
    (prune : ℕ → List (Candidate D) → List ℕ → Option (List ℕ)) (params : ConsolidationParameters)
    (width : ℕ) (thread_of : ℕ → ℕ) where
  batches : ℕ → ℕ → ℕ → ℕ → Graph → BulkUpdate → List (List ℕ) → ConsolidateResult
  batches fuel n batch_size start g u tls =
      consolidate_batches c is_deleted distance by prune params width thread_of fuel n batch_size
        start g u tls

  batches_last :
      (fuel n batch_size start : ℕ) (g : Graph) (u : BulkUpdate) (tls : List (List ℕ))
      → ltb start n ≡ false
      → batches fuel n batch_size start g u tls ≡ consolidated g
  unfolding batches consolidate_batches
  batches_last zero n batch_size start g u tls e = rw (e, consolidate_batches) refl
  batches_last (suc fuel) n batch_size start g u tls e = rw (e, consolidate_batches) refl

  batches_step :
      (fuel n batch_size start stop : ℕ) (g g' : Graph) (u u' : BulkUpdate)
      (tls tls' : List (List ℕ))
      → ltb start n ≡ true
      → stop ≡ min n (start + batch_size)
      → generate_updates c is_deleted distance by prune params width thread_of g start 0
          (stop - start)
          (prepare u)
          tls
        ≡ some (u', tls')
      → apply_updates width u' start 0 (stop - start) g ≡ some g'
      → batches (suc fuel) n batch_size start g u tls ≡ batches fuel n batch_size stop g' u' tls'
  unfolding batches consolidate_batches
  batches_step fuel n batch_size start stop g g' u u' tls tls' more e made applied =
      rw (more, consolidate_batches, sym e, made, sym e, applied, sym e) refl

  module _ (law : IsCandidateSet c) (rearranges : (xs : List (Candidate D)) → Permᴰ xs (by xs))
      (limit : ℕ) (pruner : IsPruner limit prune) (small : limit < 2 ^ width) (o : Graph) where
    consolidate_batches-IsPartly :
        (fuel places batch_size start : ℕ) (g : Graph) (u : BulkUpdate) (tls : List (List ℕ))
        → IsPartly is_deleted (n_nodes o) start o g
        → IsBulk places limit u
        → IsTeam is_deleted (n_nodes o) thread_of limit tls
        → batch_size ≤ places
        → (0 < n_nodes o → 0 < batch_size)
        → start ≤ n_nodes o
        → n_nodes o ≤ start + fuel
        → (g' : Graph) × (batches fuel (n_nodes o) batch_size start g u tls ≡ consolidated g')
          × IsPartly is_deleted (n_nodes o) (n_nodes o) o g'
    consolidate_batches-IsPartly zero places batch_size start g u tls p b team room progress h
          enough =
        (
          g,
          batches_last zero (n_nodes o) batch_size start g u tls (ground arith),
          subst (λ k. IsPartly is_deleted (n_nodes o) k o g) (omega arith) p,
        )
    consolidate_batches-IsPartly (suc fuel) places batch_size start g u tls p b team room progress h
          enough =
        elim (Bool-cases (ltb start (n_nodes o))) [
          | inr last ↦
              let at_end : start ≡ n_nodes o = ground arith in
              (
                g,
                batches_last (suc fuel) (n_nodes o) batch_size start g u tls last,
                subst (λ k. IsPartly is_deleted (n_nodes o) k o g) at_end p,
              )
          | inl more ↦
              let stop = min (n_nodes o) (start + batch_size) in
              let inner : start < n_nodes o = ground arith in
              let forward = progress (omega (arith, inner)) in
              let (ready, clear) = prepare-IsBulk places limit u b in
              let (u', tls', made, batch, team') =
                generate_updates-IsBatch is_deleted (n_nodes o) c law distance by prune params width
                  thread_of rearranges limit pruner small places g start 0 (stop - start)
                  (prepare u) tls p.inside (omega arith) (omega arith) ready (λ j k l. clear j l)
                  team in
              let (g1, applied, q) =
                apply_updates-IsPartly is_deleted (n_nodes o) width limit small u' start 0
                  (stop - start) o g refl
                  (subst (λ k. IsPartly is_deleted (n_nodes o) k o g) (omega arith) p) (omega arith)
                  (λ j k l.
                    IsPending-move is_deleted (n_nodes o) limit g o u' j (start + j)
                      (p.later (start + j) (omega arith)) (batch.pending j k l)) in
              let (g', rest, done) =
                consolidate_batches-IsPartly fuel places batch_size stop g1 u' tls'
                  (subst (λ k. IsPartly is_deleted (n_nodes o) k o g1) (omega (arith, inner)) q)
                  batch.bulk team' room progress (omega arith) (omega (arith, inner, forward)) in
              (
                g',
                batches_step fuel (n_nodes o) batch_size start stop g g1 u u' tls tls' more refl
                      made applied
                    ∙ rest,
                done,
              )
        ]

    partly-IsConsolidated :
        (g' : Graph)
        → IsInside (n_nodes o) o
        → IsPartly is_deleted (n_nodes o) (n_nodes o) o g'
        → IsConsolidated is_deleted o g'
    partly-IsConsolidated g' inside p = record {
      is_graph = p.is_graph;
      same_nodes = p.same_nodes;
      same_max_degree = p.same_max_degree;
      alive =
          λ v h e. elim (p.settled v h) [ inl dead ↦ ground (arith, dead, e) | inr found ↦ found ];
      deleted = λ v dead. p.untouched v (inl dead);
      clean = λ v list at a. p.untouched v (inr (list, at, a)) ∙ at;
    }

    pub consolidator-IsConsolidated :
        (fuel blank : ℕ) (flag : Bool) (num_threads : ℕ)
        → IsGraph o
        → IsInside (n_nodes o) o
        → limit ≡ params.prune_to
        → 0 < params.update_batch_size
        → ((v : ℕ) → thread_of v < num_threads)
        → n_nodes o ≤ fuel
        → (g' : Graph) × (consolidator c is_deleted distance by prune params width thread_of fuel
              blank flag num_threads o
            ≡ consolidated g')
          × IsConsolidated is_deleted o g'
    unfolding consolidator batches
    consolidator-IsConsolidated fuel blank flag num_threads w inside same batch team enough =
        let (g', runs, p) =
          consolidate_batches-IsPartly fuel params.update_batch_size
            (min params.update_batch_size (n_nodes o)) 0 o
            (make_update blank flag params.update_batch_size params.prune_to)
            (replicate num_threads [])
            (record {
              is_graph = w;
              same_nodes = refl;
              same_max_degree = refl;
              settled = λ v h. absurd (omega arith);
              later = λ v h. refl;
              untouched = λ v s. refl;
              inside = inside;
            })
            (subst
              (λ k.
                IsBulk params.update_batch_size k
                  (make_update blank flag params.update_batch_size params.prune_to))
              (sym same) (make_update-IsBulk blank flag params.update_batch_size params.prune_to))
            (record {
              finals = replicate-All_nil is_deleted (n_nodes o) limit num_threads;
              enough = λ v. omega (arith, team v, length-replicate {A = List ℕ} num_threads []);
            })
            (omega arith) (λ h. omega arith) (omega arith) (omega arith) in
        (g', runs, partly-IsConsolidated g' inside p)

-- With a hash set, a sort that rearranges, a pruning strategy that keeps to its pool and to the
-- result of before, a thread for each index, and fuel for each vertex: on a graph whose rows have
-- their shape and whose edges are inside it, the consolidation finishes, and afterwards every neighbor
-- of an undeleted vertex is an undeleted vertex. The deleted vertices and those without deleted
-- neighbors keep their lists, and the graph keeps its shape.
pub consolidate-IsConsolidated :
    (c : CandidateSet) (is_deleted : ℕ → Bool) {D : Type 0} (distance : ℕ → ℕ → D)
    (by : List (Candidate D) → List (Candidate D))
    (prune : ℕ → List (Candidate D) → List ℕ → Option (List ℕ)) (width : ℕ) (thread_of : ℕ → ℕ)
    (prune_to max_candidate_pool_size fuel blank : ℕ) (flag : Bool) (num_threads : ℕ) (g : Graph)
    → IsCandidateSet c
    → ((xs : List (Candidate D)) → Permᴰ xs (by xs))
    → IsPruner prune_to prune
    → prune_to < 2 ^ width
    → IsGraph g
    → IsInside (n_nodes g) g
    → ((v : ℕ) → thread_of v < num_threads)
    → n_nodes g ≤ fuel
    → (g' : Graph) × (consolidate c is_deleted distance by prune width thread_of prune_to
          max_candidate_pool_size fuel blank flag num_threads g
        ≡ consolidated g')
      × IsConsolidated is_deleted g g'
unfolding consolidate
consolidate-IsConsolidated c is_deleted distance by prune width thread_of prune_to pool fuel blank
      flag num_threads g law rearranges pruner small w inside team enough =
    consolidator-IsConsolidated c is_deleted distance by prune
      (record { update_batch_size = 200000; prune_to = prune_to; max_candidate_pool_size = pool })
      width thread_of law rearranges prune_to pruner small g fuel blank flag num_threads w inside
      refl (omega arith) team enough
