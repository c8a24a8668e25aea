-- ===== src/Consolidate/Batch.antt =====
-- The loop of the first run: after it, every vertex of the batch is settled or has its update.
use mathlib.Core.List.{Permᴰ}
use native.Mathlib.Decide.{ℕ_discrete}
use scalable_vector_search.Candidates.Slots.{get_elem?-lt}
use scalable_vector_search.Graph.{Graph}
use scalable_vector_search.Consolidate.{
  Candidate, CandidateSet, ConsolidationParameters, BulkUpdate, get_update, generate_update,
  generate_updates,
}
use scalable_vector_search.Consolidate.Candidates.{IsCandidateSet}
use scalable_vector_search.Consolidate.Updates.{IsBulk}
use scalable_vector_search.Consolidate.Generated.{
  IsPruner, IsInside, IsPending, IsFinal, generate-IsGenerated,
}
use scalable_vector_search.Base.{
  All-set, ℕ, zero, suc, ◌+◌, ◌^◌, ◌≤◌, ◌<◌, ◌≡◌, inl, inr, refl, ◌∙◌, subst, Bool, false, List,
  Option, some, get_elem?, set, length, arith, All, All-get_elem?, length-set,
}

module _ (is_deleted : ℕ → Bool) (n : ℕ) where
  pub IsPending-same :
      (limit : ℕ) (g : Graph) (u u' : BulkUpdate) (j v : ℕ)
      → get_elem? u'.needs_update j ≡ get_elem? u.needs_update j
      → get_update u' j ≡ get_update u j
      → IsPending is_deleted n limit g u j v
      → IsPending is_deleted n limit g u' j v
  IsPending-same limit g u u' j v flags held p = elim p [
    | inl (flag, unsettled, list, at, fits, alive) ↦
        inl (flags ∙ flag, unsettled, list, held ∙ at, fits, alive)
    | inr (flag, settled) ↦ inr (flags ∙ flag, settled)
  ]

  -- What the loop leaves, of the indices from `i` to `upto`.
  pub record IsBatch (places limit start i upto : ℕ) (g : Graph) (u u' : BulkUpdate) : Type 0 where
    pub bulk : IsBulk places limit u'
    pub pending : (j : ℕ) → i ≤ j → j < upto → IsPending is_deleted n limit g u' j (start + j)
    pub earlier_flags : (j : ℕ) → j < i → get_elem? u'.needs_update j ≡ get_elem? u.needs_update j
    pub earlier_held : (j : ℕ) → j < i → get_update u' j ≡ get_update u j

  -- The threads' vectors.
  pub record IsTeam (thread_of : ℕ → ℕ) (limit : ℕ) (tls : List (List ℕ)) : Type 0 where
    pub finals : All (IsFinal is_deleted n limit) tls
    pub enough : (v : ℕ) → thread_of v < length tls

  module _ (c : CandidateSet) (law : IsCandidateSet c) {D : Type 0} (distance : ℕ → ℕ → D)
      (by : List (Candidate D) → List (Candidate D))
      (prune : ℕ → List (Candidate D) → List ℕ → Option (List ℕ)) (params : ConsolidationParameters)
      (width : ℕ) (thread_of : ℕ → ℕ) where
    abbrev pub generate_all :
        Graph → ℕ → ℕ → ℕ → BulkUpdate → List (List ℕ) → Option (BulkUpdate × List (List ℕ))
    generate_all g start i count u tls =
        generate_updates c is_deleted distance by prune params width thread_of g start i count u tls

    generate_step :
        (g : Graph) (start i count : ℕ) (u u' : BulkUpdate) (tls : List (List ℕ))
        (old chosen : List ℕ)
        → get_elem? tls (thread_of (start + i)) ≡ some old
        → generate_update c is_deleted distance by prune params width g (start + i) i u old
          ≡ some (u', chosen)
        → generate_all g start i (suc count) u tls
          ≡ generate_all g start (i + 1) count u' (set tls (thread_of (start + i)) chosen)
    unfolding generate_updates
    generate_step g start i count u u' tls old chosen at runs = rw (at, generate_updates, runs) refl

    module _ (rearranges : (xs : List (Candidate D)) → Permᴰ xs (by xs)) (limit : ℕ)
        (pruner : IsPruner limit prune) (small : limit < 2 ^ width) where
      pub generate_updates-IsBatch :
          (places : ℕ) (g : Graph) (start i count : ℕ) (u : BulkUpdate) (tls : List (List ℕ))
          → IsInside n g
          → start + (i + count) ≤ n
          → i + count ≤ places
          → IsBulk places limit u
          → ((j : ℕ) → i ≤ j → j < places → get_elem? u.needs_update j ≡ some false)
          → IsTeam thread_of limit tls
          → (u' : BulkUpdate) × (tls' : List (List ℕ)) × (generate_all g start i count u tls
              ≡ some (u', tls'))
            × IsBatch places limit start i (i + count) g u u'
            × IsTeam thread_of limit tls'
      unfolding generate_updates
      generate_updates-IsBatch places g start i zero u tls inside h room b clear team = (
        u,
        tls,
        refl,
        record {
          bulk = b;
          pending = λ j k l. absurd (omega arith);
          earlier_flags = λ j k. refl;
          earlier_held = λ j k. refl;
        },
        team,
      )
      generate_updates-IsBatch places g start i (suc count) u tls inside h room b clear team =
          let tid = thread_of (start + i) in
          let (old, at) = get_elem?-lt tls tid (team.enough (start + i)) in
          let (u1, chosen, runs, made) =
            generate-IsGenerated is_deleted n c law distance by prune params width rearranges limit
              pruner small places g (start + i) i u old inside (omega arith) (omega arith) b
              (clear i (omega arith) (omega arith))
              (All-get_elem? (IsFinal is_deleted n limit) tls tid old team.finals at) in
          let (u', tls', rest, batch, team') =
            generate_updates-IsBatch places g start (i + 1) count u1 (set tls tid chosen) inside
              (omega arith) (omega arith) made.bulk
              (λ j k l. made.other_flags j (λ e. omega (arith, e)) ∙ clear j (omega arith) l)
              (record {
                finals = All-set (IsFinal is_deleted n limit) tls tid chosen made.final team.finals;
                enough = λ v. omega (arith, team.enough v, length-set tls tid chosen);
              }) in
          (
            u',
            tls',
            generate_step g start i count u u1 tls old chosen at runs ∙ rest,
            record {
              bulk = batch.bulk;
              pending = λ j k l. elim (ℕ_discrete i j) [
                | yes same ↦
                    subst (λ z. IsPending is_deleted n limit g u' z (start + z)) same
                      (IsPending-same limit g u1 u' i (start + i)
                        (batch.earlier_flags i (omega arith)) (batch.earlier_held i (omega arith))
                        made.pending)
                | no other ↦ batch.pending j (omega (arith, other)) (omega arith)
              ];
              earlier_flags = λ j k.
                  batch.earlier_flags j (omega arith) ∙ made.other_flags j (λ e. omega (arith, e));
              earlier_held = λ j k.
                  batch.earlier_held j (omega arith) ∙ made.other_held j (λ e. omega (arith, e));
            },
            team',
          )
