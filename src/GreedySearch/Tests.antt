-- ===== src/GreedySearch/Tests.antt =====
-- A search on a graph of five vertices, with whole-number distances.
use scalable_vector_search.Order.{ltb-IsStrictWeak}
use scalable_vector_search.Candidates.{position, has_repeat, insert_at, copy_backward}
use scalable_vector_search.SearchBuffer.{
  SearchBuffer, view, clear, push_back, sort, done, next, insert, insert_inner, can_skip, full,
  back, unsafe_insert, skip_visited, emplace_visited,
}
use scalable_vector_search.SearchBuffer.Insert.{IsShaped}
use scalable_vector_search.SearchBuffer.Tests.{insertion_sort, insertion_sort-IsSorter, neighbor}
use scalable_vector_search.GreedySearch.{
  Visit, Outcome, finished, greedy_search, search_loop, expand, expand_one, populate, build,
}
use scalable_vector_search.GreedySearch.Result.{IsResult, greedy_search-IsResult}
use scalable_vector_search.Base.{
  ℕ, zero, suc, get_or, map, ◌<◌, ◌≡◌, refl, false, List, [], ◌∷◌, Option, none, some, ltb, All,
  arith,
}

abbrev neighbors : ℕ → List ℕ
neighbors u = get_or ((1 ∷ 2 ∷ []) ∷ (3 ∷ []) ∷ (0 ∷ 4 ∷ []) ∷ (2 ∷ []) ∷ []) u []

-- The distances to the query.
abbrev dist : ℕ → ℕ
dist u = get_or (50 ∷ 40 ∷ 30 ∷ 10 ∷ []) u 20

neighbors-bounded : (u : ℕ) → u < 5 → All (λ v. v < 5) (neighbors u)
neighbors-bounded zero h = (omega arith, (omega arith, tt))
neighbors-bounded (suc zero) h = (omega arith, tt)
neighbors-bounded (suc (suc zero)) h = (omega arith, (omega arith, tt))
neighbors-bounded (suc (suc (suc zero))) h = (omega arith, tt)
neighbors-bounded (suc (suc (suc (suc u)))) h = tt

abbrev empty_buffer : SearchBuffer ℕ
empty_buffer = record {
  size = 0;
  best_unvisited = 0;
  search_window_size = 2;
  capacity = 3;
  candidates =
      neighbor 0 0 false ∷ neighbor 0 0 false ∷ neighbor 0 0 false ∷ neighbor 0 0 false ∷ [];
  visited = none;
}

empty_buffer-IsShaped : IsShaped empty_buffer
empty_buffer-IsShaped = record { slots = refl; fits = omega arith; window = omega arith }

found_ids : Outcome ℕ → Option (List ℕ)
found_ids (finished b log) = some (map (λ x. x.id) (view b))
found_ids _ = none

-- From vertex 0, vertex 2 leads to vertex 4, after which vertex 1 lies outside the window of two: it
-- is not expanded, and vertex 3 behind it is not found.
search_run :
    found_ids (greedy_search ltb neighbors dist insertion_sort 5 empty_buffer (0 ∷ []))
    ≡ some (4 ∷ 2 ∷ 1 ∷ [])
unfolding found_ids greedy_search search_loop expand expand_one populate build view clear push_back
    sort done next insert insert_inner can_skip full back unsafe_insert skip_visited emplace_visited
    position has_repeat insert_at copy_backward insertion_sort
search_run = refl

greedy_search-IsResult_example :
    (b' : SearchBuffer ℕ) × (log : List (Visit ℕ)) × (greedy_search ltb neighbors dist
        insertion_sort 5 empty_buffer
        (0 ∷ [])
      ≡ finished b' log)
    × IsResult ltb dist 5 neighbors (0 ∷ []) empty_buffer b' log
greedy_search-IsResult_example =
    greedy_search-IsResult ltb dist 5 neighbors insertion_sort ltb-IsStrictWeak
      insertion_sort-IsSorter (omega arith) neighbors-bounded empty_buffer (0 ∷ [])
      empty_buffer-IsShaped tt (refl, tt) (omega arith, tt) (omega arith)
