-- ===== src/Consolidate/Candidates.antt =====
-- The candidates of a vertex: where they come from, and that none is deleted and none stands twice.
use mathlib.Core.List.{Permᴰ}
use scalable_vector_search.Neighbor.Distinct.{IsDistinct, IsDistinct-take, IsDistinct-Permᴰ}
use scalable_vector_search.Graph.{Graph, get_node}
use scalable_vector_search.Consolidate.{
  Candidate, CandidateSet, insert_all, none_of, populate_candidates, valid_candidates,
  filter_candidates,
}
use scalable_vector_search.Base.{
  ℕ, ◌<◌, ◌≡◌, ◌≢◌, refl, Bool, true, false, List, [], ◌∷◌, some, take, arith, inl, inr, Bool-cases,
  All, All-take, All-Permᴰ,
}

-- No number stands twice.
abbrev pub IsUnique : List ℕ → Type 0
IsUnique [] = Unit
IsUnique (x ∷ xs) = All (λ y. y ≢ x) xs × IsUnique xs

-- The documented behaviour of the hash set: its elements are those inserted, each once.
pub record IsCandidateSet (c : CandidateSet) : Type 1 where
  pub elements-empty : c.elements c.empty ≡ []
  pub All-insert :
      (P : ℕ → Type 0) (s : c.Set) (x : ℕ)
      → All P (c.elements s)
      → P x
      → All P (c.elements (c.insert s x))
  pub once : (s : c.Set) (x : ℕ) → IsUnique (c.elements s) → IsUnique (c.elements (c.insert s x))

-- An undeleted vertex of a graph of n vertices.
abbrev pub IsAlive : (ℕ → Bool) → ℕ → ℕ → Type 0
IsAlive is_deleted n v = (v < n) × (is_deleted v ≡ false)

pub none_of-All :
    (is_deleted : ℕ → Bool) (n : ℕ) (xs : List ℕ)
    → none_of is_deleted xs ≡ true
    → All (λ v. v < n) xs
    → All (IsAlive is_deleted n) xs
unfolding none_of
none_of-All is_deleted n [] e h = tt
none_of-All is_deleted n (x ∷ xs) e h = elim (Bool-cases (is_deleted x)) [
  | inl dead ↦ ground (arith, e, dead)
  | inr alive ↦ ((h.0, alive), none_of-All is_deleted n xs (ground (arith, e, alive)) h.1)
]

pub All-none_of :
    (is_deleted : ℕ → Bool) (n : ℕ) (xs : List ℕ)
    → All (IsAlive is_deleted n) xs
    → none_of is_deleted xs ≡ true
unfolding none_of
All-none_of is_deleted n [] h = refl
All-none_of is_deleted n (x ∷ xs) h = rw (h.0.1, none_of) (All-none_of is_deleted n xs h.1)

module _ (c : CandidateSet) (law : IsCandidateSet c) (is_deleted : ℕ → Bool) where
  All-insert_all :
      (P : ℕ → Type 0) (xs : List ℕ) (s : c.Set)
      → All P xs
      → All P (c.elements s)
      → All P (c.elements (insert_all c xs s))
  unfolding insert_all
  All-insert_all P [] s h a = a
  All-insert_all P (x ∷ xs) s h a =
      All-insert_all P xs (c.insert s x) h.1 (law.All-insert P s x a h.0)

  insert_all-once :
      (xs : List ℕ) (s : c.Set)
      → IsUnique (c.elements s)
      → IsUnique (c.elements (insert_all c xs s))
  unfolding insert_all
  insert_all-once [] s d = d
  insert_all-once (x ∷ xs) s d = insert_all-once xs (c.insert s x) (law.once s x d)

  -- What the loop of populate_candidates leaves.
  pub record IsPopulated (g : Graph) (neighbors : List ℕ) (before after : c.Set) : Type 1 where
    -- From the undeleted neighbors and the neighbors of the deleted ones only.
    pub from :
        (P : ℕ → Type 0)
        → All P (c.elements before)
        → All
            (λ dst.
              (is_deleted dst ≡ false → P dst)
              × ((others : List ℕ)
                  → is_deleted dst ≡ true
                  → get_node g dst ≡ some others
                  → All P others))
            neighbors
        → All P (c.elements after)
    pub once : IsUnique (c.elements before) → IsUnique (c.elements after)

  pub populate_candidates-IsPopulated :
      (n : ℕ) (g : Graph) (neighbors : List ℕ) (s : c.Set)
      → ((v : ℕ) → v < n → (list : List ℕ) × (get_node g v ≡ some list))
      → All (λ v. v < n) neighbors
      → (s' : c.Set) × (populate_candidates c is_deleted g neighbors s ≡ some s')
        × IsPopulated g neighbors s s'
  unfolding populate_candidates
  populate_candidates-IsPopulated n g [] s nodes h =
      (s, refl, record { from = λ P a q. a; once = λ d. d })
  populate_candidates-IsPopulated n g (dst ∷ neighbors) s nodes h =
      elim (Bool-cases (is_deleted dst)) [
        | inl dead ↦
            let (others, at) = nodes dst h.0 in
            let (s', runs, p) =
              populate_candidates-IsPopulated n g neighbors (insert_all c others s) nodes h.1 in
            (
              s',
              rw (dead, populate_candidates, at) runs,
              record {
                from = λ P a q. p.from P (All-insert_all P others s (q.0.1 others dead at) a) q.1;
                once = λ d. p.once (insert_all-once others s d);
              },
            )
        | inr alive ↦
            let (s', runs, p) =
              populate_candidates-IsPopulated n g neighbors (c.insert s dst) nodes h.1 in
            (
              s',
              rw (alive, populate_candidates) runs,
              record {
                from = λ P a q. p.from P (law.All-insert P s dst a (q.0.0 alive)) q.1;
                once = λ d. p.once (law.once s dst d);
              },
            )
      ]

module _ (is_deleted : ℕ → Bool) {D : Type 0} (distance : ℕ → ℕ → D) where
  abbrev valid : ℕ → List ℕ → List (Candidate D)
  valid src xs = valid_candidates is_deleted distance src xs

  All-valid_candidates :
      (P : ℕ → Type 0) (src : ℕ) (xs : List ℕ) → All P xs → All (λ x. P x.id) (valid src xs)
  unfolding valid_candidates
  All-valid_candidates P src [] a = tt
  All-valid_candidates P src (x ∷ xs) a = elim (Bool-cases (is_deleted x)) [
    | inl dead ↦ rw (dead, valid_candidates) (All-valid_candidates P src xs a.1)
    | inr alive ↦ rw (alive, valid_candidates) (a.0, All-valid_candidates P src xs a.1)
  ]

  valid_candidates-alive :
      (src : ℕ) (xs : List ℕ) → All (λ x. is_deleted x.id ≡ false) (valid src xs)
  unfolding valid_candidates
  valid_candidates-alive src [] = tt
  valid_candidates-alive src (x ∷ xs) = elim (Bool-cases (is_deleted x)) [
    | inl dead ↦ rw (dead, valid_candidates) (valid_candidates-alive src xs)
    | inr alive ↦ rw (alive, valid_candidates) (alive, valid_candidates-alive src xs)
  ]

  valid_candidates-IsDistinct : (src : ℕ) (xs : List ℕ) → IsUnique xs → IsDistinct (valid src xs)
  unfolding valid_candidates
  valid_candidates-IsDistinct src [] u = tt
  valid_candidates-IsDistinct src (x ∷ xs) u = elim (Bool-cases (is_deleted x)) [
    | inl dead ↦ rw (dead, valid_candidates) (valid_candidates-IsDistinct src xs u.1)
    | inr alive ↦
        rw (alive, valid_candidates)
          (All-valid_candidates (λ y. y ≢ x) src xs u.0, valid_candidates-IsDistinct src xs u.1)
  ]

  -- The pool of a vertex: what is done to it by the sort and the cut keeps all three.
  pub pool-IsFiltered :
      (c : CandidateSet) (by : List (Candidate D) → List (Candidate D)) (P : ℕ → Type 0)
      (limit src : ℕ) (s : c.Set)
      → ((xs : List (Candidate D)) → Permᴰ xs (by xs))
      → All P (c.elements s)
      → IsUnique (c.elements s)
      → let pool = take limit (filter_candidates is_deleted distance c by src s) in
        All (λ x. P x.id) pool × All (λ x. is_deleted x.id ≡ false) pool × IsDistinct pool
  unfolding filter_candidates
  pool-IsFiltered c by P limit src s rearranges a u =
      let xs = valid src (c.elements s) in
      let perm = rearranges xs in
      (
        All-take (λ x. P x.id) limit (by xs)
            (All-Permᴰ (λ x. P x.id) perm (All-valid_candidates P src (c.elements s) a)),
        All-take (λ x. is_deleted x.id ≡ false) limit (by xs)
            (All-Permᴰ (λ x. is_deleted x.id ≡ false) perm
              (valid_candidates-alive src (c.elements s))),
        IsDistinct-take limit (by xs)
            (IsDistinct-Permᴰ perm (valid_candidates-IsDistinct src (c.elements s) u)),
      )
