-- ===== src/GreedySearch/Result.antt =====
-- What a greedy search promises its caller.
use mathlib.Core.List.{reverse, append-nil}
use scalable_vector_search.Order.{IsStrictWeak}
use scalable_vector_search.Neighbor.{SearchNeighbor}
use scalable_vector_search.Candidates.Slots.{get_elem?-some_lt}
use scalable_vector_search.Candidates.Sorted.{IsSorted}
use scalable_vector_search.SearchBuffer.{SearchBuffer, view, done, clear, sort}
use scalable_vector_search.SearchBuffer.Insert.{IsShaped, length-view}
use scalable_vector_search.SearchBuffer.Invariant.{visited_at}
use scalable_vector_search.SearchBuffer.Start.{IsSorter}
use scalable_vector_search.Neighbor.Distinct.{IsDistinct}
use scalable_vector_search.GreedySearch.{Visit, finished, greedy_search, populate}
use scalable_vector_search.GreedySearch.Held.{Has, Held, IsPriced}
use scalable_vector_search.GreedySearch.Invariant.{elem}
use scalable_vector_search.GreedySearch.Loop.{remaining-nil}
use scalable_vector_search.GreedySearch.Ends.{
  IsNodup, ids, IsClosed, IsEnd, search_loop_ends, SameLimits,
}
use scalable_vector_search.GreedySearch.Seed.{IsFilterSized, start-IsSearching}
use scalable_vector_search.GreedySearch.Entry.{start-Has}
use scalable_vector_search.Base.{
  ℕ, ◌-◌, ◌^◌, ◌≤◌, ◌<◌, ◌≡◌, ◌∙◌, Bool, true, List, [], ◌++◌, some, get_elem?, arith, inl, All,
  All-map, All-get_elem?, length, min,
}

module _ {D : Type 0} (lt : D → D → Bool) (dist : ℕ → D) (n : ℕ) (neighbors : ℕ → List ℕ) where
  -- What is promised of the buffer b and of the tracker's calls, for a search that `start` and the
  -- entry points began. The candidates come in order of distance, each id once and at its distance;
  -- no vertex is expanded twice; every candidate in the search window is expanded; and each entry
  -- point and each neighbor of an expanded vertex is held: it is a candidate, or the buffer is full
  -- of candidates that are no farther.
  pub record IsResult (entry_points : List ℕ) (start b : SearchBuffer D) (log : List (Visit D))
      : Type 0 where
    pub fits : length (view b) ≤ start.capacity
    pub sorted : IsSorted lt (view b)
    pub distinct : IsDistinct (view b)
    pub priced : All (IsPriced lt dist) (view b)
    pub expanded : List ℕ
    pub once : IsNodup expanded
    pub trace : ids log ≡ expanded ++ reverse entry_points
    pub window :
        (j : ℕ) (x : SearchNeighbor D)
        → j < start.search_window_size
        → get_elem? (view b) j ≡ some x
        → elem x.id expanded ≡ true
    pub seeded : All (Held lt dist b) entry_points
    pub closed : IsClosed lt dist n neighbors expanded b

  done-eq :
      (b : SearchBuffer D) → done b ≡ true → b.best_unvisited ≡ min b.size b.search_window_size
  unfolding done
  done-eq b e = ground (arith, e)

  IsEnd-IsResult :
      (entry_points : List ℕ) (start c b : SearchBuffer D) (log : List (Visit D))
      → SameLimits start c
      → All (Has (view c)) entry_points
      → IsEnd lt dist n neighbors (reverse entry_points) c b log
      → IsResult entry_points start b log
  IsEnd-IsResult entry_points start c b log l h e =
      let r = e.searching.ready in
      record {
        fits = omega (arith, length-view b r.shaped, r.shaped.fits, l, e.same_limits);
        sorted = r.sorted;
        distinct = e.searching.distinct;
        priced = e.searching.priced;
        expanded = e.expanded;
        once = e.once;
        trace = e.trace;
        window = λ j x k at.
            let inside = get_elem?-some_lt (view b) j x at in
            let visited = r.scanned.behind j (
              omega (
                arith,
                done-eq b e.is_done,
                inside,
                length-view b r.shaped,
                k,
                l,
                e.same_limits,
              )) in
            All-get_elem? (λ y. y.meta.visited ≡ true → elem y.id e.expanded ≡ true) (view b) j x
              e.searching.visited_expanded at (rw (at, visited_at) at visited);
        seeded = All-map _ _ (λ u k. e.kept u (inl k)) entry_points h;
        closed = e.closed;
      }

  module _ (by : List (SearchNeighbor D) → List (SearchNeighbor D)) (order : IsStrictWeak lt)
      (sorter : IsSorter lt by) (small : n ≤ 2 ^ 32 - 2 ^ 16)
      (edges : (u : ℕ) → u < n → All (λ v. v < n) (neighbors u)) where
    -- On a graph of n vertices, with n at most 2^32 - 2^16 and all edges inside it, with a strict weak
    -- order of distances and a sorting function, a greedy search from distinct vertices that the
    -- buffer has room for finishes within n rounds. It leaves the candidates in order of distance, no
    -- more than the capacity, each id once and at its distance; the tracker saw the entry points and
    -- then the expanded vertices, none of them twice; every candidate inside the search window was
    -- expanded; and each entry point and each neighbor of an expanded vertex is a candidate, or the
    -- buffer is full of candidates that are no farther. A visited filter that is on, which may
    -- forget ids, does not change this.
    pub greedy_search-IsResult :
        (b : SearchBuffer D) (entry_points : List ℕ)
        → IsShaped b
        → IsFilterSized b.visited
        → IsNodup entry_points
        → All (λ id. id < n) entry_points
        → length entry_points ≤ b.capacity
        → (b' : SearchBuffer D) × (log : List (Visit D)) × (greedy_search lt neighbors dist by n b
              entry_points
            ≡ finished b' log)
          × IsResult entry_points b b' log
    unfolding greedy_search
    greedy_search-IsResult b entry_points w f d h room =
        let r = populate lt neighbors dist by (clear b) [] entry_points in
        let (s, filtered, trace) =
          start-IsSearching lt neighbors dist by n sorter b entry_points w f d h in
        let (has, limits) = start-Has lt neighbors dist by sorter b entry_points w room in
        let (b', log, ends, result) =
          search_loop_ends lt dist n neighbors by order small edges n [] (reverse entry_points)
            (sort by r.0) r.1 (omega (arith, remaining-nil n)) tt
            (trace ∙ append-nil (reverse entry_points)) s filtered (λ u e. absurd (cc e)) in
        (b', log, ends, IsEnd-IsResult entry_points b (sort by r.0) b' log limits has result)
