-- ===== src/Threads.antt =====
-- How work is divided among threads: `UnitRange` and `balance` of include/svs/lib/threads/types.h,
-- and `div_round_up` of include/svs/lib/misc.h. The integers are unsigned and of `width` bits where
-- the source's arithmetic can wrap around.
pub mod Partition
pub mod Ranges
pub mod Tests
use scalable_vector_search.Base.{
  ℕ, ◌+◌, ◌-◌, ◌*◌, ◌/◌, ◌%◌, ◌^◌, Bool, true, false, not, ◌&&◌, ◌||◌, Option, none, some, ltb, leb,
  ◌==◌, if◌then◌else◌, min, max,
}

pub record UnitRange : Type 0 where
  pub start : ℕ
  pub stop : ℕ

-- The constructor.
unfoldable pub unit_range : ℕ → ℕ → UnitRange
unit_range start stop = record { start = start; stop = max stop start }

unfoldable pub range_size : UnitRange → ℕ
range_size r = r.stop - r.start

unfoldable pub is_empty : UnitRange → Bool
is_empty r = r.start == r.stop

-- `none` is the exception `std::out_of_range`.
unfoldable pub range_at : UnitRange → ℕ → Option ℕ
unfolding range_size
range_at r i = if leb (range_size r) i then none else some (r.start + i)

-- The value before `stop`, which wraps around at 0.
unfoldable pub range_back : ℕ → UnitRange → ℕ
range_back width r = (r.stop + 2 ^ width - 1) % 2 ^ width

unfoldable pub range_contains : ℕ → UnitRange → ℕ → Bool
unfolding range_back
range_contains width r i = leb r.start i && leb i (range_back width r)

unfoldable pub div_round_up : ℕ → ℕ → ℕ
div_round_up x y = x / y + (if not (x % y == 0) then 1 else 0)

-- The range of the thread `tid` of a team. No subtraction goes below zero for a thread of the team.
unfoldable pub balance : ℕ → ℕ → ℕ → UnitRange
unfolding unit_range div_round_up
balance n nthreads tid =
    if leb nthreads 1 || n == 0
    then unit_range 0 n
    else let b1 = div_round_up n nthreads in
      let b2 = b1 - 1 in
      let team1 = n - b2 * nthreads in
      let in_team1 = ltb tid team1 in
      let this_b = if in_team1 then b1 else b2 in
      let start = if in_team1 then b1 * tid else b1 * team1 + b2 * (tid - team1) in
      unit_range start (min (start + this_b) n)
