-- ===== src/Base/Bits.antt =====
-- Masking by the bits below a width is the remainder by a power of two.
use Prim.Native.Nat.{
  ℕ, zero, suc, ◌+◌, ◌-◌, ◌*◌, ◌/◌, ◌%◌, ◌^◌, ◌≤◌, ◌<◌, min, bit_and, digits, bit_and-bitwise,
}
use native.Mathlib.Nat.{pow-suc, div-add-mod, mod-lt, mod-eq_of_lt, add-mul-mod_self_left, mod-one}
use mathlib.Core.Path.{◌≡◌, ap, ◌∙◌}
use native.Mathlib.Omega.{arith}

pub pow-pos : (n : ℕ) → 0 < 2 ^ n
pow-pos zero = omega arith
pow-pos (suc n) = omega (arith, pow-pos n, pow-suc 2 n)

-- The remainder by twice a number, from the halves.
mod_double : (a m : ℕ) → 0 < m → a % (2 * m) ≡ (a / 2) % m * 2 + a % 2
mod_double a m h =
    let split : a ≡ (a / 2 % m * 2 + a % 2) + 2 * m * (a / 2 / m) =
      omega (arith, div-add-mod (a / 2) m) in
    let small : a / 2 % m * 2 + a % 2 < 2 * m = omega (arith, mod-lt (a / 2) h) in
    ap (λ t. t % (2 * m)) split
    ∙ add-mul-mod_self_left (a / 2 % m * 2 + a % 2) (2 * m) (a / 2 / m)
    ∙ mod-eq_of_lt small

-- The common digits of a number and a mask, digit by digit from the lowest.
digits-mask :
    (steps width a : ℕ)
    → a ≤ steps
    → digits (λ rest. zero) min steps a (2 ^ width - 1) ≡ a % 2 ^ width
digits-mask zero width zero h = omega (arith, mod-eq_of_lt (pow-pos width))
digits-mask zero width (suc a) h = absurd (omega arith)
digits-mask (suc steps) width zero h = omega (arith, mod-eq_of_lt (pow-pos width))
digits-mask (suc steps) zero (suc a) h =
    omega (
      arith,
      digits-mask steps zero (suc a / 2) (omega arith),
      mod-one (suc a),
      mod-one (suc a / 2),
    )
digits-mask (suc steps) (suc width) (suc a) h =
    let twice : 2 ^ suc width ≡ 2 * 2 ^ width = omega (arith, pow-suc 2 width) in
    let half : (2 * 2 ^ width - 1) / 2 ≡ 2 ^ width - 1 = omega (arith, pow-pos width) in
    let later : digits (λ rest. zero) min steps (suc a / 2) ((2 * 2 ^ width - 1) / 2)
        ≡ (suc a / 2) % 2 ^ width =
      ap (digits (λ rest. zero) min steps (suc a / 2)) half
      ∙ digits-mask steps width (suc a / 2) (omega arith) in
    rw twice (omega (arith, later, mod_double (suc a) (2 ^ width) (pow-pos width), pow-pos width))

pub bit_and_mask : (n a : ℕ) → bit_and a (2 ^ n - 1) ≡ a % 2 ^ n
bit_and_mask n a = bit_and-bitwise a (2 ^ n - 1) ∙ digits-mask a n a (omega arith)
