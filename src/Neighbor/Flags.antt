-- ===== src/Neighbor/Flags.antt =====
-- `ValidVisit` of include/svs/lib/neighbor.h: two flags in a byte.
use Prim.Native.Nat.{bit_and, bit_or}
use scalable_vector_search.Base.{
  ℕ, zero, suc, ◌+◌, ◌*◌, ◌/◌, ◌%◌, ◌^◌, ◌<◌, ◌≡◌, refl, sym, ap, subst, Bool, true, not, ◌&&◌,
  ◌==◌, if◌then◌else◌, arith, ℕ_discrete,
}

pub record ValidVisit : Type 0 where
  pub flags : ℕ

visited_mask : ℕ
visited_mask = 0x01

valid_mask : ℕ
valid_mask = 0x02

-- The constructor.
unfoldable pub valid_visit : Bool → ValidVisit
unfolding valid_mask
valid_visit v = record { flags = if v then valid_mask else 0x0 }

unfoldable pub set_visited : ValidVisit → ValidVisit
unfolding visited_mask
set_visited v = record { flags = bit_or v.flags visited_mask }

unfoldable pub visited : ValidVisit → Bool
unfolding visited_mask
visited v = not (bit_and v.flags visited_mask == 0)

unfoldable pub valid : ValidVisit → Bool
unfolding valid_mask
valid v = not (bit_and v.flags valid_mask == 0)

-- A test of every number below n.
all_below : ℕ → (ℕ → Bool) → Bool
all_below zero p = true
all_below (suc n) p = p n && all_below n p

all_below-at : (n i : ℕ) (p : ℕ → Bool) → all_below n p ≡ true → i < n → p i ≡ true
unfolding all_below
all_below-at zero i p h below = absurd (omega arith)
all_below-at (suc n) i p h below = elim (ℕ_discrete i n) [
  | yes same ↦ subst (λ k. p k ≡ true) (sym same) (ground (arith, h))
  | no other ↦ all_below-at n i p (ground (arith, h)) (omega (arith, other))
]

abbrev digit : Bool → ℕ
digit b = if b then 1 else 0

abbrev byte : ℕ → ValidVisit
byte flags = record { flags = flags }

set_visited-flags : (v : ValidVisit) → v.flags < 2 ^ 8 → (set_visited v).flags ≡ v.flags / 2 * 2 + 1
unfolding all_below set_visited
set_visited-flags v h =
    let test =
      all_below-at 256 v.flags (λ n. (set_visited (byte n)).flags == n / 2 * 2 + 1) refl h in
    ground (arith, test)

visited-digit : (v : ValidVisit) → v.flags < 2 ^ 8 → digit (visited v) ≡ v.flags % 2
unfolding all_below visited
visited-digit v h =
    let test = all_below-at 256 v.flags (λ n. digit (visited (byte n)) == n % 2) refl h in
    ground (arith, test)

valid-digit : (v : ValidVisit) → v.flags < 2 ^ 8 → digit (valid v) ≡ v.flags / 2 % 2
unfolding all_below valid
valid-digit v h =
    let test = all_below-at 256 v.flags (λ n. digit (valid (byte n)) == n / 2 % 2) refl h in
    ground (arith, test)

-- Whatever a byte holds, marking it sets its visited flag and leaves it a byte, its valid flag and
-- every bit above the lowest as they were; marking it again changes nothing.
pub set_visited-IsMarked :
    (v : ValidVisit)
    → v.flags < 2 ^ 8
    → (visited (set_visited v) ≡ true)
      × (valid (set_visited v) ≡ valid v)
      × ((set_visited v).flags < 2 ^ 8)
      × ((set_visited v).flags / 2 ≡ v.flags / 2)
      × (set_visited (set_visited v) ≡ set_visited v)
set_visited-IsMarked v h =
    let marked = set_visited-flags v h in
    let small : (set_visited v).flags < 2 ^ 8 = omega (arith, marked) in
    (
      ground (arith, visited-digit (set_visited v) small, marked),
      ground (arith, valid-digit (set_visited v) small, valid-digit v h, marked),
      small,
      omega (arith, marked),
      ap byte (omega (arith, marked, set_visited-flags (set_visited v) small)),
    )
