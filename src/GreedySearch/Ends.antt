-- ===== src/GreedySearch/Ends.antt =====
-- The main loop ends, and what it leaves in the buffer.
use scalable_vector_search.Order.{IsStrictWeak}
use scalable_vector_search.Neighbor.{SearchNeighbor}
use scalable_vector_search.SearchBuffer.{
  SearchBuffer, view, done, insert, insert_inner, unsafe_insert, emplace_visited,
}
use scalable_vector_search.SearchBuffer.Next.{IsNext, next-IsNext}
use scalable_vector_search.GreedySearch.{Visit, finished, build, expand_one, expand, search_loop}
use scalable_vector_search.GreedySearch.Held.{Held}
use scalable_vector_search.GreedySearch.Invariant.{
  elem, IsSearching, IsFiltered, FilterHeld, FilterHeld-mono, expand-IsSearching,
}
use scalable_vector_search.GreedySearch.Loop.{
  remaining, remaining-lt, IsMarked, elem-other, next-Held, next-IsSearching,
}
use scalable_vector_search.Base.{
  ℕ, zero, suc, ◌-◌, ◌^◌, ◌≤◌, ◌<◌, ◌≡◌, refl, sym, ap, subst, Bool, true, false, List, [], ◌∷◌,
  map, ◌++◌, arith, inl, inr, Bool-cases, All, All-map, All-get_elem?, length, ℕ_discrete,
}

-- No id twice.
abbrev pub IsNodup : List ℕ → Type 0
IsNodup [] = Unit
IsNodup (x ∷ xs) = (elem x xs ≡ false) × IsNodup xs

abbrev pub ids : {D : Type 0} → List (Visit D) → List ℕ
ids log = map (λ v. v.id) log

module _ {D : Type 0} where
  -- The capacity and the search window are as they were.
  abbrev pub SameLimits : SearchBuffer D → SearchBuffer D → Type 0
  SameLimits start b =
      (b.capacity ≡ start.capacity) × (b.search_window_size ≡ start.search_window_size)

  insert_limits :
      (lt : D → D → Bool) (b : SearchBuffer D) (x : SearchNeighbor D)
      → SameLimits b (insert lt x b).0
  unfolding insert insert_inner unsafe_insert
  insert_limits lt b x = ground arith

  emplace_limits : (id : ℕ) (b : SearchBuffer D) → SameLimits b (emplace_visited id b).0
  unfolding emplace_visited
  emplace_limits id b = ground arith

  module _ (lt : D → D → Bool) (neighbors : ℕ → List ℕ) (dist : ℕ → D)
      (by : List (SearchNeighbor D) → List (SearchNeighbor D)) where
    expand_one_limits :
        (b : SearchBuffer D) (id : ℕ) → SameLimits b (expand_one lt neighbors dist by b id)
    unfolding expand_one
    expand_one_limits b id = ground (
      arith,
      emplace_limits id b,
      insert_limits lt (emplace_visited id b).0 (build lt neighbors dist by id),
    )

    expand_limits :
        (b : SearchBuffer D) (ids : List ℕ) → SameLimits b (expand lt neighbors dist by b ids)
    unfolding expand
    expand_limits b [] = (refl, refl)
    expand_limits b (id ∷ rest) =
        omega
          (arith, expand_one_limits b id, expand_limits (expand_one lt neighbors dist by b id) rest)

module _ {D : Type 0} (lt : D → D → Bool) (dist : ℕ → D) (n : ℕ) (neighbors : ℕ → List ℕ) where
  -- Every neighbor of an expanded vertex is held.
  abbrev pub IsClosed : List ℕ → SearchBuffer D → Type 0
  IsClosed expanded b = (u : ℕ) → elem u expanded ≡ true → All (Held lt dist b) (neighbors u)

  -- How the loop ends, from the calls `base` of the tracker before it.
  pub record IsEnd (base : List ℕ) (start b : SearchBuffer D) (log : List (Visit D)) : Type 0 where
    pub expanded : List ℕ
    pub once : IsNodup expanded
    pub trace : ids log ≡ expanded ++ base
    pub searching : IsSearching lt dist n expanded b
    pub closed : IsClosed expanded b
    pub kept : (u : ℕ) → Held lt dist start u → Held lt dist b u
    pub same_limits : SameLimits start b
    pub is_done : done b ≡ true

  module _ (by : List (SearchNeighbor D) → List (SearchNeighbor D)) (order : IsStrictWeak lt)
      (small : n ≤ 2 ^ 32 - 2 ^ 16) (edges : (u : ℕ) → u < n → All (λ v. v < n) (neighbors u)) where
    -- The candidate that `next` gives is a vertex that was not expanded.
    next-new :
        (expanded : List ℕ) (b b' : SearchBuffer D) (x : SearchNeighbor D)
        → IsSearching lt dist n expanded b
        → IsNext lt b b' x
        → (elem x.id expanded ≡ false) × (x.id < n)
    next-new expanded b b' x s k =
        let o = k.origin in
        let same_id : x.id ≡ o.id = ap (λ (y : SearchNeighbor D). y.id) k.marked in
        let marked =
          All-get_elem? (IsMarked expanded) (view b) b.best_unvisited o s.expanded_visited
            k.found in
        let bound = All-get_elem? (λ y. y.id < n) (view b) b.best_unvisited o s.bounded k.found in
        rw same_id (elim (Bool-cases (elem o.id expanded)) [
          | inl old ↦ cc (marked old)
          | inr new ↦ (new, bound)
        ])

    -- One round of the loop: the next candidate is expanded.
    round-IsSearching :
        (expanded : List ℕ) (b b' : SearchBuffer D) (x : SearchNeighbor D)
        → IsSearching lt dist n expanded b
        → IsFiltered lt dist n b
        → IsClosed expanded b
        → IsNext lt b b' x
        → let c = expand lt neighbors dist by b' (neighbors x.id) in
          IsSearching lt dist n (x.id ∷ expanded) c
          × IsFiltered lt dist n c
          × IsClosed (x.id ∷ expanded) c
          × ((u : ℕ) → Held lt dist b u → Held lt dist c u)
          × SameLimits b c
    round-IsSearching expanded b b' x s f c k =
        let s' = next-IsSearching lt dist n expanded b b' x s k in
        let f' : IsFiltered lt dist n b' =
          subst (FilterHeld lt dist n b') (sym k.same_visited)
            (FilterHeld-mono lt dist n b b' b.visited (λ u. next-Held lt dist n b b' x u k) f) in
        let (s2, f2, kept, gained) =
          expand-IsSearching lt dist n neighbors by order small (x.id ∷ expanded) b'
            (neighbors x.id) (edges x.id ((next-new expanded b b' x s k).1)) s' f' in
        (
          s2,
          f2,
          λ u e. elim (ℕ_discrete u x.id) [
            | yes same ↦ rw same gained
            | no other ↦
                All-map _ _ (λ v h. kept v (next-Held lt dist n b b' x v k h)) (neighbors u)
                  (c u (elem-other u x.id expanded other e))
          ],
          λ u h. kept u (next-Held lt dist n b b' x u k h),
          omega (
            arith,
            k.same_capacity,
            k.same_window,
            expand_limits lt neighbors dist by b' (neighbors x.id),
          ),
        )

    -- With a round for every vertex that is not expanded yet, the loop ends by its test.
    pub search_loop_ends :
        (fuel : ℕ) (expanded base : List ℕ) (b : SearchBuffer D) (log : List (Visit D))
        → remaining n expanded ≤ fuel
        → IsNodup expanded
        → ids log ≡ expanded ++ base
        → IsSearching lt dist n expanded b
        → IsFiltered lt dist n b
        → IsClosed expanded b
        → (b' : SearchBuffer D) × (log' : List (Visit D)) × (search_loop lt neighbors dist by fuel b
              log
            ≡ finished b' log')
          × IsEnd base b b' log'
    unfolding search_loop
    search_loop_ends zero expanded base b log r o t s f c = elim (Bool-cases (done b)) [
      | inl e ↦ (
        b,
        log,
        rw (e, search_loop),
        record {
          expanded = expanded;
          once = o;
          trace = t;
          searching = s;
          closed = c;
          kept = λ u h. h;
          same_limits = (refl, refl);
          is_done = e;
        },
      )
      | inr e ↦
          let (b1, x, runs, k) = next-IsNext lt b s.ready e in
          let (new, bound) = next-new expanded b b1 x s k in
          absurd (omega (arith, remaining-lt n x.id expanded bound new))
    ]
    search_loop_ends (suc fuel) expanded base b log r o t s f c = elim (Bool-cases (done b)) [
      | inl e ↦ (
        b,
        log,
        rw (e, search_loop),
        record {
          expanded = expanded;
          once = o;
          trace = t;
          searching = s;
          closed = c;
          kept = λ u h. h;
          same_limits = (refl, refl);
          is_done = e;
        },
      )
      | inr e ↦
          let (b1, x, runs, k) = next-IsNext lt b s.ready e in
          let (new, bound) = next-new expanded b b1 x s k in
          let (s2, f2, c2, kept, limits) = round-IsSearching expanded b b1 x s f c k in
          let (b', log', ends, result) =
            search_loop_ends fuel (x.id ∷ expanded) base
              (expand lt neighbors dist by b1 (neighbors x.id))
              (record { id = x.id; distance = x.distance; computations = length (neighbors x.id) }
                ∷ log)
              (omega (arith, remaining-lt n x.id expanded bound new)) (new, o) (ap (◌∷◌ x.id) t) s2
              f2 c2 in
          (
            b',
            log',
            rw (e, runs, search_loop) ends,
            record {
              expanded = result.expanded;
              once = result.once;
              trace = result.trace;
              searching = result.searching;
              closed = result.closed;
              kept = λ u h. result.kept u (kept u h);
              same_limits = omega (arith, limits, result.same_limits);
              is_done = result.is_done;
            },
          )
    ]
