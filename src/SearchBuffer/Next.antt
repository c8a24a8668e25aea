-- ===== src/SearchBuffer/Next.antt =====
-- `next`, `clear`, `push_back` and `sort` of the search buffer.
use scalable_vector_search.Neighbor.{SearchNeighbor, set_visited}
use scalable_vector_search.Candidates.Slots.{
  get_elem?-lt, get_elem?-take, get_elem?-set, get_elem?-ext,
}
use scalable_vector_search.Candidates.Sorted.{IsSorted}
use scalable_vector_search.SearchBuffer.{SearchBuffer, view, done, next, skip_visited}
use scalable_vector_search.SearchBuffer.Insert.{IsShaped}
use scalable_vector_search.SearchBuffer.Invariant.{visited_at, IsScanned, IsReady}
use scalable_vector_search.Base.{
  All-set, ℕ, zero, suc, ◌+◌, ◌-◌, ◌≤◌, ◌<◌, ◌≡◌, refl, ◌∙◌, subst, Bool, true, false, List, [],
  ◌∷◌, some, get_elem?, take, length, ◌==◌, arith, inl, inr, Bool-cases, All, All-get_elem?, min,
  length-take, length-set, set, some-inj, ◌≢◌,
}

module _ {D : Type 0} where
  -- Where the scan stops: at the first slot from p on that is not visited, or at the bound.
  record Stops (xs : List (SearchNeighbor D)) (upper p q : ℕ) : Type 0 where
    from : p ≤ q
    to : q ≤ upper
    passed : (j : ℕ) → p ≤ j → j < q → visited_at xs j ≡ true
    found : q < upper → visited_at xs q ≡ false

  skip_visited-Stops :
      (fuel : ℕ) (xs : List (SearchNeighbor D)) (upper p : ℕ)
      → p ≤ upper
      → upper < p + fuel
      → upper ≤ length xs
      → Stops xs upper p (skip_visited fuel xs upper p)
  unfolding skip_visited
  skip_visited-Stops zero xs upper p h k l = absurd (omega arith)
  skip_visited-Stops (suc fuel) xs upper p h k l = elim (Bool-cases (p == upper)) [
    | inl e ↦ rw e (record {
      from = omega arith;
      to = h;
      passed = λ j a c. absurd (omega arith);
      found = λ c. absurd (ground arith);
    })
    | inr ne ↦
        let below : p < upper = ground arith in
        let (x, at) = get_elem?-lt xs p (omega arith) in
        elim (Bool-cases x.meta.visited) [
          | inl seen ↦
              let r = skip_visited-Stops fuel xs upper (p + 1) (omega arith) (omega arith) l in
              rw (ne, at, skip_visited, seen)
                (record {
                  from = omega (arith, r.from);
                  to = r.to;
                  passed = λ j a c. ground (arith, r.passed j, at, seen);
                  found = r.found;
                })
          | inr open_slot ↦
              rw (ne, at, skip_visited, open_slot)
                (record {
                  from = omega arith;
                  to = omega arith;
                  passed = λ j a c. absurd (omega arith);
                  found = λ c. rw (at, visited_at) open_slot;
                })
        ]
  ]

  IsSorted-set_visited :
      (lt : D → D → Bool) (xs : List (SearchNeighbor D)) (i : ℕ) (n : SearchNeighbor D)
      → get_elem? xs i ≡ some n
      → IsSorted lt xs
      → IsSorted lt (set xs i (set_visited n))
  IsSorted-set_visited lt [] i n e h = tt
  IsSorted-set_visited lt (x ∷ xs) zero n e h =
      subst
        (λ (z : SearchNeighbor D). All (λ y. lt y.distance z.distance ≡ false) xs × IsSorted lt xs)
        (some-inj e) h
  IsSorted-set_visited lt (x ∷ xs) (suc i) n e h = (
    All-set _ xs i (set_visited n)
        (All-get_elem? (λ y. lt y.distance x.distance ≡ false) xs i n h.0 e) h.0,
    IsSorted-set_visited lt xs i n e h.1,
  )

  -- `next` gives the first neighbor that is not visited, and marks it.
  pub record IsNext (lt : D → D → Bool) (b b' : SearchBuffer D) (n : SearchNeighbor D)
      : Type 0 where
    pub origin : SearchNeighbor D
    pub found : get_elem? (view b) b.best_unvisited ≡ some origin
    pub unvisited : origin.meta.visited ≡ false
    pub marked : n ≡ set_visited origin
    pub items : view b' ≡ set (view b) b.best_unvisited n
    pub onward : b.best_unvisited < b'.best_unvisited
    pub same_size : b'.size ≡ b.size
    pub same_capacity : b'.capacity ≡ b.capacity
    pub same_window : b'.search_window_size ≡ b.search_window_size
    pub same_visited : b'.visited ≡ b.visited
    pub ready : IsReady lt b'

  view-set :
      (xs : List (SearchNeighbor D)) (size i : ℕ) (n : SearchNeighbor D)
      → i < size
      → size ≤ length xs
      → take size (set xs i n) ≡ set (take size xs) i n
  view-set xs size i n h k = get_elem?-ext _ _ λ j. ground (
    arith,
    get_elem?-take size (set xs i n) j,
    get_elem?-set xs i n j,
    get_elem?-set (take size xs) i n j,
    length-take size xs,
    get_elem?-take size xs j,
  )

  abbrev next_state : SearchBuffer D → SearchNeighbor D → SearchBuffer D
  next_state b n =
      let upper = min b.size b.search_window_size in
      let cs = set b.candidates b.best_unvisited n in
      record b {
        candidates = cs;
        best_unvisited = skip_visited (upper - b.best_unvisited) cs upper (b.best_unvisited + 1);
      }

  next_runs :
      (b : SearchBuffer D) (x : SearchNeighbor D)
      → get_elem? b.candidates b.best_unvisited ≡ some x
      → next b ≡ some (next_state b (set_visited x), set_visited x)
  unfolding next
  next_runs b x e = rw (e, next)

  IsScanned-next :
      (b : SearchBuffer D) (x : SearchNeighbor D)
      → IsShaped b
      → IsScanned b
      → b.best_unvisited < min b.size b.search_window_size
      → (b.best_unvisited < (next_state b (set_visited x)).best_unvisited)
        × IsScanned (next_state b (set_visited x))
  unfolding view
  IsScanned-next b x w s h =
      let upper = min b.size b.search_window_size in
      let cs = set b.candidates b.best_unvisited (set_visited x) in
      let r =
        skip_visited-Stops (upper - b.best_unvisited) cs upper (b.best_unvisited + 1) (omega arith)
          (omega arith)
          (omega
            (arith, length-set b.candidates b.best_unvisited (set_visited x), w.slots, w.fits)) in
      (
        omega (arith, r.from),
        record {
          within = r.to;
          behind = λ j k. ground (
            arith,
            r.to,
            w.slots,
            w.fits,
            s.behind j,
            r.passed j,
            get_elem?-take b.size cs j,
            get_elem?-take b.size b.candidates j,
            get_elem?-set b.candidates b.best_unvisited (set_visited x) j,
          );
          ahead = λ k.
              let q = (next_state b (set_visited x)).best_unvisited in
              ground (arith, r.found k, get_elem?-take b.size cs q);
        },
      )

  in_use :
      (b : SearchBuffer D) (x : SearchNeighbor D)
      → b.best_unvisited < min b.size b.search_window_size
      → get_elem? b.candidates b.best_unvisited ≡ some x
      → get_elem? (view b) b.best_unvisited ≡ some x
  unfolding view
  in_use b x h e = ground (arith, get_elem?-take b.size b.candidates b.best_unvisited)

  view_next :
      (b : SearchBuffer D) (x : SearchNeighbor D)
      → take b.size (set b.candidates b.best_unvisited (set_visited x))
        ≡ set (take b.size b.candidates) b.best_unvisited (set_visited x)
      → view (next_state b (set_visited x)) ≡ set (view b) b.best_unvisited (set_visited x)
  unfolding view
  view_next b x e = e

  module _ (lt : D → D → Bool) where
    -- As long as the search is not done, `next` gives the first neighbor that is not visited and
    -- marks it, moves on, and keeps the buffer ready.
    pub next-IsNext :
        (b : SearchBuffer D)
        → IsReady lt b
        → done b ≡ false
        → (b' : SearchBuffer D) × (n : SearchNeighbor D) × (next b ≡ some (b', n))
          × IsNext lt b b' n
    unfolding done
    next-IsNext b r d =
        let below : b.best_unvisited < min b.size b.search_window_size =
          omega (arith, r.scanned.within, differ d) in
        let w = r.shaped in
        let (x, at) = get_elem?-lt b.candidates b.best_unvisited (omega (arith, w.slots, w.fits)) in
        let in_view : get_elem? (view b) b.best_unvisited ≡ some x = in_use b x below at in
        let items =
          view-set b.candidates b.size b.best_unvisited (set_visited x) (omega arith)
            (omega (arith, w.slots, w.fits)) in
        let (onward, scanned) = IsScanned-next b x w r.scanned below in
        (
          next_state b (set_visited x),
          set_visited x,
          next_runs b x at,
          record {
            origin = x;
            found = in_view;
            unvisited = ground (arith, r.scanned.ahead below, in_view);
            marked = refl;
            items = view_next b x items;
            onward = onward;
            same_size = refl;
            same_capacity = refl;
            same_window = refl;
            same_visited = refl;
            ready = record {
              shaped = record {
                slots = length-set b.candidates b.best_unvisited (set_visited x) ∙ w.slots;
                fits = w.fits;
                window = w.window;
              };
              sorted =
                  rw (view_next b x items)
                    (IsSorted-set_visited lt (view b) b.best_unvisited x in_view r.sorted);
              scanned = scanned;
            };
          },
        )
      where
        differ :
            (b.best_unvisited == min b.size b.search_window_size) ≡ false
            → b.best_unvisited ≢ min b.size b.search_window_size
        differ e = ground arith
