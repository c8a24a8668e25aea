-- ===== src/Threads/Ranges.antt =====
-- Which numbers a `UnitRange` contains.
use native.Mathlib.Nat.{mod-eq_of_lt, add-mul-mod_self_left}
use scalable_vector_search.Base.Bits.{pow-pos}
use scalable_vector_search.Threads.{
  UnitRange, unit_range, range_size, range_at, range_back, range_contains,
}
use scalable_vector_search.Base.{
  ℕ, ◌+◌, ◌-◌, ◌*◌, ◌^◌, ◌≤◌, ◌<◌, ◌≡◌, ◌∙◌, ◌&&◌, ◌||◌, ltb, leb, ◌==◌, if◌then◌else◌, none, some,
  arith, dec_lt,
}

range_back_suc :
    (width : ℕ) (r : UnitRange) → 0 < r.stop → r.stop ≤ 2 ^ width → range_back width r ≡ r.stop - 1
unfolding range_back
range_back_suc width r h k =
    let turn : r.stop + 2 ^ width - 1 ≡ (r.stop - 1) + 2 ^ width * 1 = omega arith in
    rw turn (
      add-mul-mod_self_left (r.stop - 1) (2 ^ width) 1
      ∙ mod-eq_of_lt (omega (arith, pow-pos width)))

range_back_zero : (width : ℕ) (r : UnitRange) → r.stop ≡ 0 → range_back width r ≡ 2 ^ width - 1
unfolding range_back
range_back_zero width r h =
    let bare : r.stop + 2 ^ width - 1 ≡ 2 ^ width - 1 = omega arith in
    rw bare (mod-eq_of_lt (omega (arith, pow-pos width)))

-- On a range whose stop fits the width, `contains` tells the numbers from start to stop, except that
-- a range that stops at 0 contains every number from its start on.
pub range_contains-lem :
    (width : ℕ) (r : UnitRange) (i : ℕ)
    → r.stop ≤ 2 ^ width
    → i < 2 ^ width
    → range_contains width r i ≡ leb r.start i && (r.stop == 0 || ltb i r.stop)
unfolding range_contains
range_contains-lem width r i h k = elim (dec_lt 0 r.stop) [
  | yes positive ↦ ground (arith, range_back_suc width r positive h)
  | no empty ↦ ground (arith, range_back_zero width r (omega arith))
]

-- The checked access of a range gives each of its numbers at its distance from the start, and the
-- exception from its size on.
pub range_at-unit_range :
    (start stop i : ℕ)
    → range_at (unit_range start stop) i ≡ (if ltb (start + i) stop then some (start + i) else none)
unfolding range_at unit_range range_size
range_at-unit_range start stop i = ground arith
