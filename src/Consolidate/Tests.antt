-- ===== src/Consolidate/Tests.antt =====
-- A graph of five vertices, of which 1 is deleted, in batches of two.
use mathlib.Core.List.{Permᴰ}
use mathlib.Core.List.Permᴰ
use scalable_vector_search.Graph.{
  Graph, n_nodes, get_node, replace_node, replace_row, copy_to, adjacency,
}
use scalable_vector_search.Graph.Rows.{IsRow}
use scalable_vector_search.Graph.Edges.{IsGraph}
use scalable_vector_search.Prune.Rounds.{
  iterative, prune_by, prune_rounds, prune_round, mark_behind, mark_iterative, excluded, reenable,
}
use scalable_vector_search.Prune.Ended.{iterative-IsStrategy}
use scalable_vector_search.Consolidate.{
  BulkUpdate, Candidate, CandidateSet, ConsolidateResult, consolidated, make_update, prepare,
  none_of, insert_all, populate_candidates, valid_candidates, filter_candidates, generate_update,
  generate_updates, apply_updates, insert_update, get_update, consolidate_batches, consolidator,
  consolidate,
}
use scalable_vector_search.Consolidate.Candidates.{IsCandidateSet}
use scalable_vector_search.Consolidate.Generated.{IsInside}
use scalable_vector_search.Consolidate.Updates.{
  IsInserted, insert_update-IsInserted, make_update-IsBulk,
}
use scalable_vector_search.Consolidate.Pruner.{prune_ids, prune_ids-IsPruner}
use scalable_vector_search.Consolidate.Batches.{IsConsolidated, consolidate-IsConsolidated}
use scalable_vector_search.Base.{
  ℕ, zero, suc, ◌+◌, ◌-◌, ◌*◌, ◌≡◌, ◌≢◌, ◌||◌, refl, subst, Bool, true, false, List, [], ◌∷◌,
  Option, some, ltb, ◌==◌, if◌then◌else◌, arith, inl, inr, Bool-cases, some-inj, All,
}

unfoldable pub listed : ℕ → List ℕ → Bool
listed x [] = false
listed x (y ∷ ys) = y == x || listed x ys

-- A set as a list.
abbrev pub list_set : CandidateSet
list_set = record {
  Set = List ℕ;
  empty = [];
  insert = λ s x. if listed x s then s else x ∷ s;
  elements = λ s. s;
}

unlisted : (x : ℕ) (s : List ℕ) → listed x s ≡ false → All (λ y. y ≢ x) s
unfolding listed
unlisted x [] h = tt
unlisted x (y ∷ s) h = ((λ e. ground (arith, h, e)), unlisted x s (ground (arith, h)))

pub list_set-IsCandidateSet : IsCandidateSet list_set
list_set-IsCandidateSet = record {
  elements-empty = refl;
  All-insert = λ P s x a p. elim (Bool-cases (listed x s)) [ inl e ↦ rw e a | inr e ↦ rw e (p, a) ];
  once =
      λ s x u. elim (Bool-cases (listed x s)) [ inl e ↦ rw e u | inr e ↦ rw e (unlisted x s e, u) ];
}

abbrev deleted_one : ℕ → Bool
deleted_one v = v == 1

abbrev pub distances : ℕ → ℕ → ℕ
distances a b = (a - b) + (b - a)

-- A sorting function.
unfoldable pub put_in : Candidate ℕ → List (Candidate ℕ) → List (Candidate ℕ)
put_in x [] = x ∷ []
put_in x (y ∷ ys) =
    let rest = put_in x ys in if ltb y.distance x.distance then y ∷ rest else x ∷ y ∷ ys

unfoldable pub sorted : List (Candidate ℕ) → List (Candidate ℕ)
unfolding put_in
sorted [] = []
sorted (x ∷ xs) = put_in x (sorted xs)

Permᴰ-put_in : (x : Candidate ℕ) (xs : List (Candidate ℕ)) → Permᴰ (x ∷ xs) (put_in x xs)
unfolding put_in
Permᴰ-put_in x [] = Permᴰ.refl (x ∷ [])
Permᴰ-put_in x (y ∷ ys) = elim (Bool-cases (ltb y.distance x.distance)) [
  | inl e ↦
      rw (e, put_in) (Permᴰ.trans (Permᴰ.swap refl refl) (Permᴰ.cons refl (Permᴰ-put_in x ys)))
  | inr e ↦ rw (e, put_in) (Permᴰ.refl (x ∷ y ∷ ys))
]

pub Permᴰ-sorted : (xs : List (Candidate ℕ)) → Permᴰ xs (sorted xs)
unfolding sorted
Permᴰ-sorted [] = Permᴰ.refl []
Permᴰ-sorted (x ∷ xs) = Permᴰ.trans (Permᴰ.cons refl (Permᴰ-sorted xs)) (Permᴰ-put_in x (sorted xs))

abbrev pub strategy : ℕ → List (Candidate ℕ) → List ℕ → Option (List ℕ)
strategy =
    prune_ids (iterative ltb (λ a d. a * d) distances) ltb (λ a d. a * d) (λ a. a == 1) 1 1 1 2

-- 0 to 1; 1 to 2 and 4; 2 to 1 and 3; 4 to 3.
abbrev edges : Graph
edges = record {
  rows =
      (1 ∷ 1 ∷ 0 ∷ [])
      ∷ (2 ∷ 2 ∷ 4 ∷ [])
      ∷ (2 ∷ 1 ∷ 3 ∷ [])
      ∷ (0 ∷ 0 ∷ 0 ∷ [])
      ∷ (1 ∷ 3 ∷ 0 ∷ [])
      ∷ [];
  max_degree = 2;
}

lists : ConsolidateResult → List (Option (List ℕ))
lists r = elim r [
  | consolidated g ↦ get_node g 0 ∷ get_node g 1 ∷ get_node g 2 ∷ get_node g 3 ∷ get_node g 4 ∷ []
  | ConsolidateResult.fault ↦ []
  | ConsolidateResult.out_of_fuel ↦ []
]

consolidator_run :
    lists (
      consolidator list_set deleted_one distances sorted strategy
        (record { update_batch_size = 2; prune_to = 2; max_candidate_pool_size = 9 })
        8
        (λ v. 0)
        3
        7
        true
        1
        edges)
    ≡ some (2 ∷ []) ∷ some (2 ∷ 4 ∷ []) ∷ some (3 ∷ []) ∷ some [] ∷ some (3 ∷ []) ∷ []
unfolding consolidator lists consolidate_batches generate_updates generate_update apply_updates
    prepare make_update none_of insert_all populate_candidates valid_candidates filter_candidates
    insert_update get_update listed prune_ids prune_by prune_rounds prune_round mark_behind
    mark_iterative excluded reenable get_node adjacency replace_node replace_row copy_to n_nodes
    sorted put_in
consolidator_run = refl

edges-IsGraph : IsGraph edges
edges-IsGraph zero row e = (
  1,
  subst (λ r. IsRow 2 r 1) (some-inj e) (record { slots = refl; head = refl; fits = omega arith }),
)
edges-IsGraph (suc zero) row e = (
  2,
  subst (λ r. IsRow 2 r 2) (some-inj e) (record { slots = refl; head = refl; fits = omega arith }),
)
edges-IsGraph (suc (suc zero)) row e = (
  2,
  subst (λ r. IsRow 2 r 2) (some-inj e) (record { slots = refl; head = refl; fits = omega arith }),
)
edges-IsGraph (suc (suc (suc zero))) row e = (
  0,
  subst (λ r. IsRow 2 r 0) (some-inj e) (record { slots = refl; head = refl; fits = omega arith }),
)
edges-IsGraph (suc (suc (suc (suc zero)))) row e = (
  1,
  subst (λ r. IsRow 2 r 1) (some-inj e) (record { slots = refl; head = refl; fits = omega arith }),
)
edges-IsGraph (suc (suc (suc (suc (suc i))))) row e = cc

edges-IsInside : IsInside 5 edges
unfolding get_node adjacency
edges-IsInside zero h = (1 ∷ [], refl, (omega arith, tt))
edges-IsInside (suc zero) h = (2 ∷ 4 ∷ [], refl, (omega arith, (omega arith, tt)))
edges-IsInside (suc (suc zero)) h = (1 ∷ 3 ∷ [], refl, (omega arith, (omega arith, tt)))
edges-IsInside (suc (suc (suc zero))) h = ([], refl, tt)
edges-IsInside (suc (suc (suc (suc zero)))) h = (3 ∷ [], refl, (omega arith, tt))
edges-IsInside (suc (suc (suc (suc (suc i))))) h = absurd (omega arith)

consolidate-IsConsolidated_example :
    (g' : Graph) × (consolidate list_set deleted_one distances sorted strategy 8
        (λ v. 0)
        2
        9
        5
        7
        true
        1
        edges
      ≡ consolidated g')
    × IsConsolidated deleted_one edges g'
unfolding n_nodes
consolidate-IsConsolidated_example =
    consolidate-IsConsolidated list_set deleted_one distances sorted strategy 8 (λ v. 0) 2 9 5 7
      true 1 edges list_set-IsCandidateSet Permᴰ-sorted
      (prune_ids-IsPruner (iterative ltb (λ a d. a * d) distances) ltb (λ a d. a * d) (λ a. a == 1)
        1 1 1 2 (iterative-IsStrategy ltb (λ a d. a * d) distances 1) (inl (refl, omega arith)))
      (omega arith) edges-IsGraph edges-IsInside (λ v. omega arith) (omega arith)

insert_update-IsInserted_example :
    (u' : BulkUpdate) × (insert_update 8 1 (30 ∷ 40 ∷ []) (make_update 7 true 2 3) ≡ some u')
    × IsInserted 2 3 (make_update 7 true 2 3) 1 (30 ∷ 40 ∷ []) u'
insert_update-IsInserted_example =
    insert_update-IsInserted 8 2 3 1 (30 ∷ 40 ∷ []) (make_update 7 true 2 3)
      (make_update-IsBulk 7 true 2 3) (omega arith) (omega arith) (omega arith)
