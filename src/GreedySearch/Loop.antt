-- ===== src/GreedySearch/Loop.antt =====
-- One step of the main loop: the next candidate is marked, and counts as expanded.
use scalable_vector_search.Neighbor.{SearchNeighbor, set_visited}
use scalable_vector_search.SearchBuffer.{SearchBuffer, view}
use scalable_vector_search.SearchBuffer.Next.{IsNext}
use scalable_vector_search.GreedySearch.Held.{Held, IsPriced}
use scalable_vector_search.GreedySearch.Kept.{IsDistinct-set_visited}
use scalable_vector_search.Neighbor.Distinct.{IsDistinct}
use scalable_vector_search.GreedySearch.Invariant.{elem, IsSearching}
use scalable_vector_search.Candidates.Slots.{get_elem?-set, get_elem?-some_lt}
use scalable_vector_search.Base.{
  All-set, ℕ, zero, suc, ◌≤◌, ◌<◌, ◌≡◌, ◌≢◌, refl, sym, ap, ◌∙◌, subst, Bool, true, false, List, [],
  ◌∷◌, some, get_elem?, set, if◌then◌else◌, arith, inl, inr, All, All-map, All-get_elem?,
  ℕ_discrete, some-inj,
}

-- How many ids below n are not in the list.
pub remaining : ℕ → List ℕ → ℕ
remaining zero xs = 0
remaining (suc n) xs = if elem n xs then remaining n xs else suc (remaining n xs)

pub remaining-le : (n u : ℕ) (xs : List ℕ) → remaining n (u ∷ xs) ≤ remaining n xs
unfolding remaining
remaining-le zero u xs = omega arith
remaining-le (suc n) u xs = ground (arith, remaining-le n u xs)

-- A new id below n lowers the count.
pub remaining-lt :
    (n u : ℕ) (xs : List ℕ) → u < n → elem u xs ≡ false → remaining n (u ∷ xs) < remaining n xs
unfolding remaining
remaining-lt zero u xs h e = elim h [ ]
remaining-lt (suc n) u xs h e = elim (ℕ_discrete n u) [
  | yes same ↦ ground (arith, same, remaining-le n u xs)
  | no other ↦ ground (arith, other, remaining-lt n u xs (omega arith) e)
]

pub remaining-nil : (n : ℕ) → remaining n [] ≡ n
unfolding remaining
remaining-nil zero = refl
remaining-nil (suc n) = ap suc (remaining-nil n)

abbrev pub IsMarked : {D : Type 0} → List ℕ → SearchNeighbor D → Type 0
IsMarked expanded y = elem y.id expanded ≡ true → y.meta.visited ≡ true

pub elem-other : (a b : ℕ) (xs : List ℕ) → a ≢ b → elem a (b ∷ xs) ≡ true → elem a xs ≡ true
elem-other a b xs h e = ground (arith, h)

elem_self : (a : ℕ) (xs : List ℕ) → elem a (a ∷ xs) ≡ true
elem_self a xs = ground arith

elem-more : (a b : ℕ) (xs : List ℕ) → elem a xs ≡ true → elem a (b ∷ xs) ≡ true
elem-more a b xs h = ground arith

All-zip :
    {A : Type 0} → (P Q : A → Type 0) (xs : List A) → All P xs → All Q xs → All (λ x. P x × Q x) xs
All-zip P Q [] h k = tt
All-zip P Q (x ∷ xs) h k = ((h.0, k.0), All-zip P Q xs h.1 k.1)

-- Among distinct ids, marking an element marks all that its id stands for.
All-IsMarked :
    {D : Type 0}
    → (expanded : List ℕ) (xs : List (SearchNeighbor D)) (i : ℕ) (o : SearchNeighbor D)
    → get_elem? xs i ≡ some o
    → IsDistinct xs
    → All (IsMarked expanded) xs
    → All (IsMarked (o.id ∷ expanded)) (set xs i (set_visited o))
All-IsMarked expanded [] i o e d h = tt
All-IsMarked expanded (x ∷ xs) zero o e d h = (
  λ _. refl,
  All-map _ _ (λ y (ne, m) el. m (elem-other y.id o.id expanded ne el)) xs
      (All-zip _ _ xs (subst (λ z. All (λ y. y.id ≢ z.id) xs) (some-inj e) d.0) h.1),
)
All-IsMarked expanded (x ∷ xs) (suc i) o e d h = (
  λ el. h.0 (
      elem-other x.id o.id expanded
        (λ same. All-get_elem? (λ y. y.id ≢ x.id) xs i o d.0 e (sym same)) el),
  All-IsMarked expanded xs i o e d.1 h.1,
)

module _ {D : Type 0} (lt : D → D → Bool) (dist : ℕ → D) (n : ℕ) where
  pub next-Held :
      (b b' : SearchBuffer D) (x : SearchNeighbor D) (u : ℕ)
      → IsNext lt b b' x
      → Held lt dist b u
      → Held lt dist b' u
  next-Held b b' x u k (inl (j, y, at, e)) = elim (ℕ_discrete b.best_unvisited j) [
    | yes here ↦ inl (
      j,
      x,
      rw (k.items, ← here)
          (ground (
            arith,
            get_elem?-set (view b) b.best_unvisited x b.best_unvisited,
            get_elem?-some_lt (view b) b.best_unvisited k.origin k.found,
          )),
      rw k.marked (ground (arith, here, k.found, at)),
    )
    | no other ↦ inl (
      j,
      y,
      rw k.items (
          ground (
            arith,
            get_elem?-set (view b) b.best_unvisited x j,
            other,
            at,
            get_elem?-some_lt (view b) b.best_unvisited k.origin k.found,
          )),
      e,
    )
  ]
  next-Held b b' x u k (inr (size, far)) = inr (
    omega (arith, k.same_size, k.same_capacity),
    rw (k.items, k.marked)
        (All-set (λ y. lt (dist u) y.distance ≡ false) (view b) b.best_unvisited
          (set_visited k.origin)
          (All-get_elem? (λ y. lt (dist u) y.distance ≡ false) (view b) b.best_unvisited k.origin
            far k.found)
          far),
  )

  -- Marking the next candidate adds its id to the ids that were expanded.
  pub next-IsSearching :
      (expanded : List ℕ) (b b' : SearchBuffer D) (x : SearchNeighbor D)
      → IsSearching lt dist n expanded b
      → IsNext lt b b' x
      → IsSearching lt dist n (x.id ∷ expanded) b'
  next-IsSearching expanded b b' x s k =
      let o = k.origin in
      let i = b.best_unvisited in
      let items : view b' ≡ set (view b) i (set_visited o) =
        k.items ∙ ap (set (view b) i) k.marked in
      let same_id : x.id ≡ o.id = ap (λ (y : SearchNeighbor D). y.id) k.marked in
      let at = λ (P : SearchNeighbor D → Type 0) (h : All P (view b)).
        All-get_elem? P (view b) i o h k.found in
      rw same_id (record {
        ready = k.ready;
        priced = rw items (
            All-set (IsPriced lt dist) (view b) i (set_visited o) (at (IsPriced lt dist) s.priced)
              s.priced);
        distinct = rw items (IsDistinct-set_visited lt (view b) i o k.found s.distinct);
        bounded = rw items (
            All-set (λ y. y.id < n) (view b) i (set_visited o) (at (λ y. y.id < n) s.bounded)
              s.bounded);
        held = λ u e. elim (ℕ_discrete u o.id) [
          | yes same ↦ rw same (next-Held b b' x o.id k (inl (i, o, k.found, refl)))
          | no other ↦ next-Held b b' x u k (s.held u (elem-other u o.id expanded other e))
        ];
        expanded_visited =
            rw items (All-IsMarked expanded (view b) i o k.found s.distinct s.expanded_visited);
        visited_expanded = rw items (
            All-set _ (view b) i (set_visited o) (λ _. elem_self o.id expanded)
              (All-map _ _ (λ y m v. elem-more y.id o.id expanded (m v)) (view b)
                s.visited_expanded));
      })
