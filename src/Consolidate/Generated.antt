-- ===== src/Consolidate/Generated.antt =====
-- The first run of a batch: it leaves a pending update of undeleted vertices for every vertex that
-- needs one.
use mathlib.Core.List.{Permᴰ}
use scalable_vector_search.Neighbor.Distinct.{IsDistinct}
use scalable_vector_search.Graph.{Graph, get_node}
use scalable_vector_search.Consolidate.{
  Candidate, CandidateSet, ConsolidationParameters, BulkUpdate, none_of, populate_candidates,
  filter_candidates, insert_update, get_update, generate_update,
}
use scalable_vector_search.Consolidate.Candidates.{
  IsCandidateSet, IsAlive, IsUnique, none_of-All, All-none_of, IsPopulated,
  populate_candidates-IsPopulated, pool-IsFiltered,
}
use scalable_vector_search.Consolidate.Updates.{IsBulk, insert_update-IsInserted}
use scalable_vector_search.Base.{
  ℕ, ◌^◌, ◌≤◌, ◌<◌, ◌≡◌, ◌≢◌, ◌⊎◌, inl, inr, refl, sym, ap, ◌∙◌, subst, Bool, true, false, List, [],
  ◌∷◌, Option, some, get_elem?, take, length, arith, Bool-cases, All, All-map, some-inj,
}

-- What the consolidation relies on of a pruning strategy: on a pool without repeats it gives a result of
-- bounded length, from the pool and from what the result held before.
pub record IsPruner {D : Type 0} (limit : ℕ)
    (prune : ℕ → List (Candidate D) → List ℕ → Option (List ℕ)) : Type 1 where
  pub prunes :
      (src : ℕ) (pool : List (Candidate D)) (old : List ℕ)
      → IsDistinct pool
      → length old ≤ limit
      → (chosen : List ℕ) × (prune src pool old ≡ some chosen)
        × (length chosen ≤ limit)
        × ((P : ℕ → Type 0) → All (λ x. P x.id) pool → All P old → All P chosen)

All-both :
    {A : Type 0} (P Q : A → Type 0) (xs : List A) → All P xs → All Q xs → All (λ x. P x × Q x) xs
All-both P Q [] p q = tt
All-both P Q (x ∷ xs) p q = ((p.0, q.0), All-both P Q xs p.1 q.1)

-- Every vertex below n has a list, of vertices below n.
abbrev pub IsInside : ℕ → Graph → Type 0
IsInside n g =
    (v : ℕ) → v < n → (list : List ℕ) × (get_node g v ≡ some list) × All (λ x. x < n) list

module _ (is_deleted : ℕ → Bool) (n : ℕ) where
  -- A vertex that needs no update: it is deleted, or none of its neighbors is.
  abbrev pub IsSettled : Graph → ℕ → Type 0
  IsSettled g v =
      (is_deleted v ≡ true)
      ⊎ ((list : List ℕ) × (get_node g v ≡ some list) × All (IsAlive is_deleted n) list)

  -- What is pending at the index j of a batch, for the vertex v of the graph g.
  abbrev pub IsPending : ℕ → Graph → BulkUpdate → ℕ → ℕ → Type 0
  IsPending limit g u j v =
      ((get_elem? u.needs_update j ≡ some true)
        × (¬ (IsSettled g v))
        × (list : List ℕ) × (get_update u j ≡ some list)
        × (length list ≤ limit)
        × All (IsAlive is_deleted n) list)
      ⊎ ((get_elem? u.needs_update j ≡ some false) × IsSettled g v)

  dirty-unsettled :
      (g : Graph) (v : ℕ) (list : List ℕ)
      → is_deleted v ≡ false
      → get_node g v ≡ some list
      → none_of is_deleted list ≡ false
      → ¬ (IsSettled g v)
  dirty-unsettled g v list alive at dirty settled = elim settled [
    | inl dead ↦ ground (arith, dead, alive)
    | inr (other, at', clean) ↦
        let same = some-inj (sym at' ∙ at) in
        ground (arith, dirty, ap (none_of is_deleted) same, All-none_of is_deleted n other clean)
  ]

  -- A vector of a thread.
  abbrev pub IsFinal : ℕ → List ℕ → Type 0
  IsFinal limit chosen = (length chosen ≤ limit) × All (IsAlive is_deleted n) chosen

  module _ (c : CandidateSet) (law : IsCandidateSet c) {D : Type 0} (distance : ℕ → ℕ → D)
      (by : List (Candidate D) → List (Candidate D))
      (prune : ℕ → List (Candidate D) → List ℕ → Option (List ℕ)) (params : ConsolidationParameters)
      (width : ℕ) where
    abbrev pub generate : Graph → ℕ → ℕ → BulkUpdate → List ℕ → Option (BulkUpdate × List ℕ)
    generate g src i u final_candidates =
        generate_update c is_deleted distance by prune params width g src i u final_candidates

    generate_dead :
        (g : Graph) (src i : ℕ) (u : BulkUpdate) (final_candidates : List ℕ)
        → is_deleted src ≡ true
        → generate g src i u final_candidates ≡ some (u, final_candidates)
    unfolding generate_update
    generate_dead g src i u final_candidates dead = rw (dead, generate_update) refl

    generate_clean :
        (g : Graph) (src i : ℕ) (u : BulkUpdate) (final_candidates list : List ℕ)
        → is_deleted src ≡ false
        → get_node g src ≡ some list
        → none_of is_deleted list ≡ true
        → generate g src i u final_candidates ≡ some (u, final_candidates)
    unfolding generate_update
    generate_clean g src i u final_candidates list alive at clean =
        rw (alive, generate_update, at, clean) refl

    generate_dirty :
        (g : Graph) (src i : ℕ) (u u' : BulkUpdate) (final_candidates list chosen : List ℕ)
        (all_candidates : c.Set)
        → is_deleted src ≡ false
        → get_node g src ≡ some list
        → none_of is_deleted list ≡ false
        → populate_candidates c is_deleted g list c.empty ≡ some all_candidates
        → prune src
            (take params.max_candidate_pool_size
              (filter_candidates is_deleted distance c by src all_candidates))
            final_candidates
          ≡ some chosen
        → insert_update width i chosen u ≡ some u'
        → generate g src i u final_candidates ≡ some (u', chosen)
    unfolding generate_update
    generate_dirty g src i u u' final_candidates list chosen all alive at dirty found pruned
          stored =
        rw (alive, generate_update, at, dirty, found, pruned, stored) refl

    candidates-inside :
        (g : Graph) (list : List ℕ) (all : c.Set)
        → IsInside n g
        → All (λ v. v < n) list
        → IsPopulated c law is_deleted g list c.empty all
        → All (λ v. v < n) (c.elements all)
    candidates-inside g list all inside bounded p =
        p.from (λ v. v < n) (subst (All (λ v. v < n)) (sym law.elements-empty) tt)
          (All-map (λ v. v < n)
            (λ dst.
              (is_deleted dst ≡ false → dst < n)
              × ((others : List ℕ)
                  → is_deleted dst ≡ true
                  → get_node g dst ≡ some others
                  → All (λ v. v < n) others))
            (λ dst h. (
              λ alive. h,
              λ others dead at.
                  let (l, e, q) = inside dst h in
                  subst (All (λ v. v < n)) (some-inj (sym e ∙ at)) q,
            ))
            list bounded)

    -- What the body leaves for the vertex `src` at the index i.
    pub record IsGenerated (places limit : ℕ) (g : Graph) (src i : ℕ) (u u' : BulkUpdate)
        (chosen : List ℕ) : Type 0 where
      pub bulk : IsBulk places limit u'
      pub pending : IsPending limit g u' i src
      pub other_flags : (j : ℕ) → i ≢ j → get_elem? u'.needs_update j ≡ get_elem? u.needs_update j
      pub other_held : (j : ℕ) → i ≢ j → get_update u' j ≡ get_update u j
      pub final : IsFinal limit chosen

    module _ (rearranges : (xs : List (Candidate D)) → Permᴰ xs (by xs)) (limit : ℕ)
        (pruner : IsPruner limit prune) (small : limit < 2 ^ width) where
      generate-skipped :
          (places : ℕ) (g : Graph) (src i : ℕ) (u : BulkUpdate) (old : List ℕ)
          → IsBulk places limit u
          → get_elem? u.needs_update i ≡ some false
          → IsFinal limit old
          → IsSettled g src
          → IsGenerated places limit g src i u u old
      generate-skipped places g src i u old b flag f settled = record {
        bulk = b;
        pending = inr (flag, settled);
        other_flags = λ j ne. refl;
        other_held = λ j ne. refl;
        final = f;
      }

      pub generate-IsGenerated :
          (places : ℕ) (g : Graph) (src i : ℕ) (u : BulkUpdate) (old : List ℕ)
          → IsInside n g
          → src < n
          → i < places
          → IsBulk places limit u
          → get_elem? u.needs_update i ≡ some false
          → IsFinal limit old
          → (u' : BulkUpdate) × (chosen : List ℕ) × (generate g src i u old ≡ some (u', chosen))
            × IsGenerated places limit g src i u u' chosen
      generate-IsGenerated places g src i u old inside h room b flag f =
          let (list, at, bounded) = inside src h in
          elim (Bool-cases (is_deleted src)) [
            | inl dead ↦ (
              u,
              old,
              generate_dead g src i u old dead,
              generate-skipped places g src i u old b flag f (inl dead),
            )
            | inr alive ↦ elim (Bool-cases (none_of is_deleted list)) [
              | inl clean ↦ (
                u,
                old,
                generate_clean g src i u old list alive at clean,
                generate-skipped places g src i u old b flag f
                    (inr (list, at, none_of-All is_deleted n list clean bounded)),
              )
              | inr dirty ↦
                  let (all, found, p) =
                    populate_candidates-IsPopulated c law is_deleted n g list c.empty
                      (λ v k. let (l, e, q) = inside v k in (l, e)) bounded in
                  let (pool_in, pool_alive, pool_once) =
                    pool-IsFiltered is_deleted distance c by (λ v. v < n)
                      params.max_candidate_pool_size src all rearranges
                      (candidates-inside g list all inside bounded p)
                      (p.once (subst IsUnique (sym law.elements-empty) tt)) in
                  let (chosen, pruned, fits, from) =
                    pruner.prunes src
                      (take params.max_candidate_pool_size
                        (filter_candidates is_deleted distance c by src all))
                      old pool_once f.0 in
                  let (u', stored, s) =
                    insert_update-IsInserted width places limit i chosen u b room fits
                      (omega arith) in
                  let alive_chosen : All (IsAlive is_deleted n) chosen =
                    from (IsAlive is_deleted n)
                      (All-both (λ x. x.id < n) (λ x. is_deleted x.id ≡ false) _ pool_in pool_alive)
                      f.1 in
                  (
                    u',
                    chosen,
                    generate_dirty g src i u u' old list chosen all alive at dirty found pruned
                        stored,
                    record {
                      bulk = s.bulk;
                      pending = inl (
                        s.flag,
                        dirty-unsettled g src list alive at dirty,
                        chosen,
                        s.held,
                        fits,
                        alive_chosen,
                      );
                      other_flags = s.other_flags;
                      other_held = s.other_held;
                      final = (fits, alive_chosen);
                    },
                  )
            ]
          ]
