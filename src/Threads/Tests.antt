-- ===== src/Threads/Tests.antt =====
-- Ten indices for four threads.
use scalable_vector_search.Threads.{UnitRange, unit_range, div_round_up, balance, range_contains}
use scalable_vector_search.Threads.Partition.{balance-one, IsPartition, balance-IsPartition}
use scalable_vector_search.Threads.Ranges.{range_contains-lem}
use scalable_vector_search.Base.{ℕ, ◌≤◌, ◌<◌, ◌≡◌, refl, ◌&&◌, ◌||◌, ltb, leb, ◌==◌, arith}

balance_run :
    (balance 10 4 0 ≡ record { start = 0; stop = 3 })
    × (balance 10 4 1 ≡ record { start = 3; stop = 6 })
    × (balance 10 4 2 ≡ record { start = 6; stop = 8 })
    × (balance 10 4 3 ≡ record { start = 8; stop = 10 })
unfolding balance unit_range div_round_up
balance_run = (refl, refl, refl, refl)

balance-one_example :
    (tid : ℕ) × (tid < 4)
    × ((balance 10 4 tid).start ≤ 7)
    × (7 < (balance 10 4 tid).stop)
    × ((other : ℕ)
        → other < 4
        → (balance 10 4 other).start ≤ 7
        → 7 < (balance 10 4 other).stop
        → other ≡ tid)
balance-one_example = balance-one 10 4 (omega arith) 7 (omega arith)

balance-IsPartition_example : IsPartition 10 4 (omega arith)
balance-IsPartition_example = balance-IsPartition 10 4 (omega arith)

abbrev nothing : UnitRange
nothing = record { start = 0; stop = 0 }

-- The empty range from 0 contains 5.
range_contains-lem_example :
    range_contains 64 nothing 5 ≡ leb nothing.start 5 && (nothing.stop == 0 || ltb 5 nothing.stop)
range_contains-lem_example = range_contains-lem 64 nothing 5 (omega arith) (omega arith)
