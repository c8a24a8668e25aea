-- ===== src/GreedySearch/Invariant.antt =====
-- The invariant of the search over the vertices that were expanded, and its preservation by the
-- loop over the neighbors of a vertex.
use mathlib.Core.List.{Memᴰ}
use mathlib.Core.List.Memᴰ
use scalable_vector_search.Filter
use scalable_vector_search.Filter.Soundness.{
  Tracks, Tracks-emplace, contains-Tracks, value-ne-sentinel, emplace-present,
}
use scalable_vector_search.Order.{IsStrictWeak}
use scalable_vector_search.Neighbor.{SearchNeighbor}
use scalable_vector_search.SearchBuffer.{SearchBuffer, view, insert, emplace_visited, filter_bits}
use scalable_vector_search.SearchBuffer.Invariant.{IsReady, insert-IsReady, insert_same_visited}
use scalable_vector_search.GreedySearch.{build, expand_one, expand}
use scalable_vector_search.GreedySearch.Held.{Held, IsPriced, insert-Held, insert-Held_self}
use scalable_vector_search.Neighbor.Distinct.{IsDistinct}
use scalable_vector_search.GreedySearch.Kept.{insert-All, insert-IsDistinct, insert_held}
use scalable_vector_search.Base.{
  ℕ, ◌-◌, ◌^◌, ◌≤◌, ◌<◌, ◌≡◌, refl, sym, ◌∙◌, subst, Bool, true, false, ◌||◌, List, [], ◌∷◌, Option,
  none, some, ◌==◌, arith, inl, inr, Bool-cases, All,
}

abbrev pub elem : ℕ → List ℕ → Bool
elem a [] = false
elem a (x ∷ xs) = a == x || elem a xs

module _ {D : Type 0} (lt : D → D → Bool) (dist : ℕ → D) (n : ℕ) where
  -- The buffer, after the vertices `expanded` were expanded, in a graph of n vertices.
  pub record IsSearching (expanded : List ℕ) (b : SearchBuffer D) : Type 0 where
    pub ready : IsReady lt b
    pub priced : All (IsPriced lt dist) (view b)
    pub distinct : IsDistinct (view b)
    pub bounded : All (λ x. x.id < n) (view b)
    pub held : (u : ℕ) → elem u expanded ≡ true → Held lt dist b u
    pub expanded_visited : All (λ x. elem x.id expanded ≡ true → x.meta.visited ≡ true) (view b)
    pub visited_expanded : All (λ x. x.meta.visited ≡ true → elem x.id expanded ≡ true) (view b)

  -- Every id that the visited filter was given is held.
  abbrev pub FilterHeld : SearchBuffer D → Option (List ℕ) → Type 0
  FilterHeld b none = Unit
  FilterHeld b (some slots) =
      (keys : List ℕ) × Tracks filter_bits slots keys × ((k : ℕ) → Memᴰ k keys → Held lt dist b k)

  abbrev pub IsFiltered : SearchBuffer D → Type 0
  IsFiltered b = FilterHeld b b.visited

  pub FilterHeld-mono :
      (b b' : SearchBuffer D) (v : Option (List ℕ))
      → ((u : ℕ) → Held lt dist b u → Held lt dist b' u)
      → FilterHeld b v
      → FilterHeld b' v
  FilterHeld-mono b b' none f h = tt
  FilterHeld-mono b b' (some slots) f (keys, tracks, all) = (keys, tracks, λ k m. f k (all k m))

  module _ (neighbors : ℕ → List ℕ) (by : List (SearchNeighbor D) → List (SearchNeighbor D))
      (order : IsStrictWeak lt) where
    insert-IsSearching :
        (expanded : List ℕ) (b : SearchBuffer D) (id : ℕ)
        → id < n
        → IsSearching expanded b
        → IsSearching expanded (insert lt (build lt neighbors dist by id) b).0
    unfolding build
    insert-IsSearching expanded b id h s =
        let x : SearchNeighbor D = build lt neighbors dist by id in
        record {
          ready = insert-IsReady lt order b x refl s.ready;
          priced = insert-All lt dist order (IsPriced lt dist) b x s.ready refl s.priced;
          distinct = insert-IsDistinct lt dist order b x s.ready refl s.priced s.distinct;
          bounded = insert-All lt dist order (λ y. y.id < n) b x s.ready h s.bounded;
          held = λ u e. insert-Held lt dist order b x u s.ready s.priced (s.held u e);
          expanded_visited = elim (Bool-cases (elem id expanded)) [
            | inl old ↦
                rw (insert_held lt dist order b x s.ready refl s.priced (s.held id old))
                  s.expanded_visited
            | inr new ↦
                insert-All lt dist order (λ y. elem y.id expanded ≡ true → y.meta.visited ≡ true) b
                  x s.ready (λ e. cc) s.expanded_visited
          ];
          visited_expanded =
              insert-All lt dist order (λ y. y.meta.visited ≡ true → elem y.id expanded ≡ true) b x
                s.ready (λ e. cc) s.visited_expanded;
        }

    -- A new state of the filter leaves all but the filter as it was.
    IsSearching-filter :
        (expanded : List ℕ) (b : SearchBuffer D) (v : Option (List ℕ))
        → IsSearching expanded b
        → IsSearching expanded (record b { visited = v })
    unfolding view
    IsSearching-filter expanded b v s = record {
      ready = record {
        shaped = record {
          slots = s.ready.shaped.slots;
          fits = s.ready.shaped.fits;
          window = s.ready.shaped.window;
        };
        sorted = s.ready.sorted;
        scanned = record {
          within = s.ready.scanned.within;
          behind = s.ready.scanned.behind;
          ahead = s.ready.scanned.ahead;
        };
      };
      priced = s.priced;
      distinct = s.distinct;
      bounded = s.bounded;
      held = s.held;
      expanded_visited = s.expanded_visited;
      visited_expanded = s.visited_expanded;
    }

    Held-filter :
        (b : SearchBuffer D) (v : Option (List ℕ)) (u : ℕ)
        → Held lt dist b u
        → Held lt dist (record b { visited = v }) u
    unfolding view
    Held-filter b v u h = h

    insert-IsExpanded :
        (expanded : List ℕ) (b : SearchBuffer D) (id : ℕ)
        → id < n
        → IsSearching expanded b
        → let b' = (insert lt (build lt neighbors dist by id) b).0 in
          IsSearching expanded b'
          × ((u : ℕ) → Held lt dist b u → Held lt dist b' u)
          × Held lt dist b' id
          × (b'.visited ≡ b.visited)
    unfolding build
    insert-IsExpanded expanded b id h s =
        let x = build lt neighbors dist by id in
        (
          insert-IsSearching expanded b id h s,
          λ u. insert-Held lt dist order b x u s.ready s.priced,
          insert-Held_self lt dist order b x s.ready refl,
          insert_same_visited lt b x,
        )

    expand_one-none :
        (b : SearchBuffer D) (id : ℕ)
        → b.visited ≡ none
        → expand_one lt neighbors dist by b id ≡ (insert lt (build lt neighbors dist by id) b).0
    unfolding expand_one emplace_visited
    expand_one-none b id e = ground arith

    expand_one_there :
        (b : SearchBuffer D) (slots : List ℕ) (id : ℕ)
        → b.visited ≡ some slots
        → (Filter.emplace filter_bits slots id).present ≡ true
        → expand_one lt neighbors dist by b id
          ≡ record b { visited = some (Filter.emplace filter_bits slots id).values }
    unfolding expand_one emplace_visited
    expand_one_there b slots id e there = rw (e, emplace_visited, there)

    expand_one_fresh :
        (b : SearchBuffer D) (slots : List ℕ) (id : ℕ)
        → b.visited ≡ some slots
        → (Filter.emplace filter_bits slots id).present ≡ false
        → expand_one lt neighbors dist by b id
          ≡ (insert lt
              (build lt neighbors dist by id)
              (record b { visited = some (Filter.emplace filter_bits slots id).values })).0
    unfolding expand_one emplace_visited
    expand_one_fresh b slots id e fresh = rw (e, emplace_visited, fresh)

    all_held :
        (b : SearchBuffer D) (id : ℕ) (keys : List ℕ)
        → Held lt dist b id
        → ((k : ℕ) → Memᴰ k keys → Held lt dist b k)
        → (k : ℕ) → Memᴰ k (id ∷ keys)
        → Held lt dist b k
    all_held b id keys h all k m = elim (Memᴰ.cases_cons m) [
      | inl e ↦ subst (Held lt dist b) (sym e) h
      | inr later ↦ all k later
    ]

    was_given :
        n ≤ 2 ^ 32 - 2 ^ 16
        → (slots keys : List ℕ) (id : ℕ) → id < n
        → Tracks filter_bits slots keys
        → (Filter.emplace filter_bits slots id).present ≡ true
        → Memᴰ id keys
    was_given small slots keys id h tracks there =
        elim (contains-Tracks filter_bits slots keys id tracks
          (sym (emplace-present filter_bits slots id) ∙ there)) [
            | inl m ↦ m
            | inr empty ↦ absurd (value-ne-sentinel id (omega arith) empty)
          ]

    expand_one-lem :
        n ≤ 2 ^ 32 - 2 ^ 16
        → (expanded : List ℕ) (b : SearchBuffer D) (v : Option (List ℕ)) (id : ℕ) → b.visited ≡ v
        → id < n
        → IsSearching expanded b
        → FilterHeld b v
        → let b' = expand_one lt neighbors dist by b id in
          IsSearching expanded b'
          × IsFiltered b'
          × ((u : ℕ) → Held lt dist b u → Held lt dist b' u)
          × Held lt dist b' id
    expand_one-lem small expanded b none id e h s f =
        let (s', kept, new, same) = insert-IsExpanded expanded b id h s in
        rw (expand_one-none b id e) (s', subst (FilterHeld _) (sym (same ∙ e)) tt, kept, new)
    expand_one-lem small expanded b (some slots) id e h s (keys, tracks, all) =
        let slots' = (Filter.emplace filter_bits slots id).values in
        let tracks' = Tracks-emplace filter_bits slots keys id tracks in
        let b1 : SearchBuffer D = record b { visited = some slots' } in
        let s1 = IsSearching-filter expanded b (some slots') s in
        elim (Bool-cases (Filter.emplace filter_bits slots id).present) [
          | inl there ↦
              let known =
                Held-filter b (some slots') id
                  (all id (was_given small slots keys id h tracks there)) in
              rw (expand_one_there b slots id e there) (
                s1,
                (
                  id ∷ keys,
                  tracks',
                  all_held b1 id keys known (λ k m. Held-filter b (some slots') k (all k m)),
                ),
                Held-filter b (some slots'),
                known,
              )
          | inr fresh ↦
              let (s', kept, new, same) = insert-IsExpanded expanded b1 id h s1 in
              rw (expand_one_fresh b slots id e fresh) (
                s',
                subst (FilterHeld _) (sym same) (
                  id ∷ keys,
                  tracks',
                  all_held _ id keys new (λ k m. kept k (Held-filter b (some slots') k (all k m))),
                ),
                λ u x. kept u (Held-filter b (some slots') u x),
                new,
              )
        ]

    -- The loop over the neighbors of a vertex keeps the invariant and all that was held, and holds
    -- every neighbor in the end.
    pub expand-IsSearching :
        n ≤ 2 ^ 32 - 2 ^ 16
        → (expanded : List ℕ) (b : SearchBuffer D) (ids : List ℕ) → All (λ id. id < n) ids
        → IsSearching expanded b
        → IsFiltered b
        → let b' = expand lt neighbors dist by b ids in
          IsSearching expanded b'
          × IsFiltered b'
          × ((u : ℕ) → Held lt dist b u → Held lt dist b' u)
          × All (Held lt dist b') ids
    unfolding expand
    expand-IsSearching small expanded b [] h s f = (s, f, λ u x. x, tt)
    expand-IsSearching small expanded b (id ∷ ids) h s f =
        let (s1, f1, kept1, new1) = expand_one-lem small expanded b b.visited id refl h.0 s f in
        let (s2, f2, kept2, news) =
          expand-IsSearching small expanded (expand_one lt neighbors dist by b id) ids h.1 s1 f1 in
        (s2, f2, λ u x. kept2 u (kept1 u x), (kept2 id new1, news))
