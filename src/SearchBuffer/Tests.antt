-- ===== src/SearchBuffer/Tests.antt =====
-- The search buffer on whole-number distances, sorted by insertion.
use mathlib.Core.List.{Permᴰ}
use mathlib.Core.List.Permᴰ
use scalable_vector_search.Order.{ltb-IsStrictWeak}
use scalable_vector_search.Neighbor.{SearchNeighbor}
use scalable_vector_search.Candidates.{position, has_repeat, insert_at, copy_backward}
use scalable_vector_search.Candidates.Sorted.{IsSorted, IsSorted-insert_at}
use scalable_vector_search.SearchBuffer.{
  SearchBuffer, view, sort, done, next, insert, insert_inner, can_skip, full, back, unsafe_insert,
}
use scalable_vector_search.SearchBuffer.Insert.{IsShaped, insert_spec, view-insert}
use scalable_vector_search.SearchBuffer.Invariant.{IsReady, visited_at, insert-IsReady}
use scalable_vector_search.SearchBuffer.Next.{IsNext, next-IsNext}
use scalable_vector_search.SearchBuffer.Setup.{
  IsNew, make_buffer-IsNew, change_maxsize-IsShaped, change_config-IsShaped,
}
use scalable_vector_search.SearchBuffer.{
  SearchBufferConfig, change_maxsize, change_config, make_config, make_buffer,
  improper_configuration,
}
use scalable_vector_search.SearchBuffer.Start.{IsSorter, IsSeeding, sort-IsReady}
use scalable_vector_search.Base.{
  ℕ, zero, suc, ◌<◌, ◌≡◌, ◌≤◌, ◌↔◌, take, refl, Bool, true, false, List, [], ◌∷◌, none, some, ltb,
  arith,
}

-- A sorting function for whole-number distances.
unfoldable pub insertion_sort : List (SearchNeighbor ℕ) → List (SearchNeighbor ℕ)
insertion_sort [] = []
insertion_sort (x ∷ xs) =
    let rest = insertion_sort xs in insert_at (position ltb x.distance rest) x rest

Permᴰ-insert_at :
    (i : ℕ) (n : SearchNeighbor ℕ) (xs : List (SearchNeighbor ℕ))
    → Permᴰ (n ∷ xs) (insert_at i n xs)
unfolding insert_at
Permᴰ-insert_at zero n xs = Permᴰ.refl (n ∷ xs)
Permᴰ-insert_at (suc i) n [] = Permᴰ.refl (n ∷ [])
Permᴰ-insert_at (suc i) n (x ∷ xs) =
    Permᴰ.trans (Permᴰ.swap refl refl) (Permᴰ.cons refl (Permᴰ-insert_at i n xs))

insertion_sort-IsSorted : (xs : List (SearchNeighbor ℕ)) → IsSorted ltb (insertion_sort xs)
unfolding insertion_sort
insertion_sort-IsSorted [] = tt
insertion_sort-IsSorted (x ∷ xs) =
    IsSorted-insert_at ltb ltb-IsStrictWeak x (insertion_sort xs) (insertion_sort-IsSorted xs)

Permᴰ-insertion_sort : (xs : List (SearchNeighbor ℕ)) → Permᴰ xs (insertion_sort xs)
unfolding insertion_sort
Permᴰ-insertion_sort [] = Permᴰ.refl []
Permᴰ-insertion_sort (x ∷ xs) =
    Permᴰ.trans (Permᴰ.cons refl (Permᴰ-insertion_sort xs))
      (Permᴰ-insert_at _ x (insertion_sort xs))

pub insertion_sort-IsSorter : IsSorter ltb insertion_sort
insertion_sort-IsSorter = record { sorted = insertion_sort-IsSorted; perm = Permᴰ-insertion_sort }

abbrev pub neighbor : ℕ → ℕ → Bool → SearchNeighbor ℕ
neighbor id distance visited = record {
  id = id;
  distance = distance;
  meta = record { visited = visited };
}

-- Three slots in use of a capacity of three, of which the first was expanded.
abbrev three : SearchBuffer ℕ
three = record {
  size = 3;
  best_unvisited = 1;
  search_window_size = 2;
  capacity = 3;
  candidates =
      neighbor 5 10 true ∷ neighbor 8 20 false ∷ neighbor 2 30 false ∷ neighbor 0 0 false ∷ [];
  visited = none;
}

three-IsShaped : IsShaped three
three-IsShaped = record { slots = refl; fits = omega arith; window = omega arith }

three-IsSorted : IsSorted ltb (view three)
unfolding view
three-IsSorted = ((refl, (refl, tt)), ((refl, tt), (tt, tt)))

three-behind : (j : ℕ) → j < 1 → visited_at (view three) j ≡ true
unfolding view
three-behind zero h = refl
three-behind (suc j) h = absurd (omega arith)

three-IsReady : IsReady ltb three
unfolding view
three-IsReady = record {
  shaped = three-IsShaped;
  sorted = three-IsSorted;
  scanned = record { within = omega arith; behind = three-behind; ahead = λ h. refl };
}

view-insert_example :
    view (insert ltb (neighbor 7 15 false) three).0
    ≡ insert_spec ltb 3 (neighbor 7 15 false) (view three)
view-insert_example =
    view-insert ltb ltb-IsStrictWeak three (neighbor 7 15 false) three-IsShaped three-IsSorted

-- The new element displaces the last one; a repeat and a farther element change nothing.
insert_run :
    (view (insert ltb (neighbor 7 15 false) three).0
      ≡ neighbor 5 10 true ∷ neighbor 7 15 false ∷ neighbor 8 20 false ∷ [])
    × ((insert ltb (neighbor 7 15 false) three).1 ≡ 1)
    × ((insert ltb (neighbor 8 20 false) three).1 ≡ 4)
    × ((insert ltb (neighbor 9 40 false) three).1 ≡ 3)
unfolding view insert insert_inner can_skip full back unsafe_insert has_repeat position
    copy_backward
insert_run = (refl, refl, refl, refl)

insert-IsReady_example : IsReady ltb (insert ltb (neighbor 7 15 false) three).0
insert-IsReady_example =
    insert-IsReady ltb ltb-IsStrictWeak three (neighbor 7 15 false) refl three-IsReady

three-not_done : done three ≡ false
unfolding done
three-not_done = refl

next-IsNext_example :
    (b' : SearchBuffer ℕ) × (n : SearchNeighbor ℕ) × (next three ≡ some (b', n))
    × IsNext ltb three b' n
next-IsNext_example = next-IsNext ltb three three-IsReady three-not_done

abbrev wide : SearchBufferConfig
wide = record { search_window_size = 2; total_capacity = 5 }

-- A window larger than the capacity is refused.
refused_config : make_config 4 3 ≡ improper_configuration
unfolding make_config
refused_config = refl

make_buffer-IsNew_example : IsNew wide true (make_buffer (neighbor 0 0 false) wide true)
make_buffer-IsNew_example = make_buffer-IsNew (neighbor 0 0 false) wide true (omega arith)

change_maxsize-IsShaped_example :
    IsShaped (change_maxsize (neighbor 0 0 false) 2 three)
    × (view (change_maxsize (neighbor 0 0 false) 2 three) ≡ take 2 (view three))
change_maxsize-IsShaped_example =
    change_maxsize-IsShaped (neighbor 0 0 false) 2 three three-IsShaped

change_config-IsShaped_example :
    IsShaped (change_config (neighbor 0 0 false) wide three) ↔ (three.size ≤ wide.total_capacity)
change_config-IsShaped_example =
    change_config-IsShaped (neighbor 0 0 false) wide three (omega arith)

-- Two entry points are in, out of order.
abbrev seeded : SearchBuffer ℕ
seeded = record {
  size = 2;
  best_unvisited = 0;
  search_window_size = 2;
  capacity = 3;
  candidates =
      neighbor 5 30 false ∷ neighbor 8 20 false ∷ neighbor 2 30 false ∷ neighbor 0 0 false ∷ [];
  visited = none;
}

seeded-IsSeeding : IsSeeding seeded
unfolding view
seeded-IsSeeding = record {
  shaped = record { slots = refl; fits = omega arith; window = omega arith };
  at_start = refl;
  fresh = (refl, (refl, tt));
}

sort-IsReady_example : IsReady ltb (sort insertion_sort seeded)
sort-IsReady_example =
    sort-IsReady ltb insertion_sort insertion_sort-IsSorter seeded seeded-IsSeeding
