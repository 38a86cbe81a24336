-- ===== src/Common/Bits.antt =====
-- Facts about `bit_and` and `bit_or` at variables, from their recursion on binary digits.
use Prim.Native.Nat.{
  ℕ, zero, suc, ◌+◌, ◌-◌, ◌*◌, ◌/◌, ◌%◌, ◌^◌, ◌≤◌, ◌<◌, min, max, bit_and, bit_or, digits,
  bit_and-bitwise, bit_or-bitwise,
}
use mathlib.Core.Path.{◌≡◌, refl, ap, ◌∙◌}
use native.Mathlib.Nat.{
  pow-suc, one-le-pow, mul-add-mod_self_right, mod-eq_of_lt, mod-lt, div-add-mod,
}
use native.Mathlib.Omega.{arith}

suc-add : (a b : ℕ) → suc a + b ≡ suc (a + b)
suc-add a b = omega arith

-- Once the fuel covers the first operand, more of it changes nothing.
module _ (ends : ℕ → ℕ) (digit : ℕ → ℕ → ℕ) where
  digits-zero : (fuel y : ℕ) → digits ends digit fuel 0 y ≡ ends y
  digits-zero zero y = refl
  digits-zero (suc fuel) y = refl

  enough_fuel :
      (more n x y : ℕ) → x ≤ n → digits ends digit (n + more) x y ≡ digits ends digit n x y
  enough_fuel more zero zero y h = digits-zero (0 + more) y
  enough_fuel more zero (suc x) y h = elim h [ ]
  enough_fuel more (suc n) zero y h = rw (suc-add n more)
  enough_fuel more (suc n) (suc x) y h =
      rw (suc-add n more, enough_fuel more n (suc x / 2) (y / 2) (omega arith))

  lowest_digit :
      (x y : ℕ)
      → digits ends digit (suc x) (suc x) y
        ≡ digits ends digit (suc x / 2) (suc x / 2) (y / 2) * 2 + digit (suc x % 2) (y % 2)
  lowest_digit x y =
      let e : suc x / 2 + (x - suc x / 2) ≡ x = omega arith in
      omega (
        arith,
        ap (λ (n : ℕ). digits ends digit n (suc x / 2) (y / 2)) e,
        enough_fuel (x - suc x / 2) (suc x / 2) (suc x / 2) (y / 2) (omega arith),
      )

pub bit_or_step : (x y : ℕ) → bit_or x y ≡ bit_or (x / 2) (y / 2) * 2 + max (x % 2) (y % 2)
bit_or_step zero y = omega (arith, bit_or-bitwise 0 y, bit_or-bitwise 0 (y / 2))
bit_or_step (suc x) y = omega (
  arith,
  bit_or-bitwise (suc x) y,
  bit_or-bitwise (suc x / 2) (y / 2),
  lowest_digit (λ b. b) max x y,
)

pub bit_and_step : (x y : ℕ) → bit_and x y ≡ bit_and (x / 2) (y / 2) * 2 + min (x % 2) (y % 2)
bit_and_step zero y = omega (arith, bit_and-bitwise 0 y, bit_and-bitwise 0 (y / 2))
bit_and_step (suc x) y = omega (
  arith,
  bit_and-bitwise (suc x) y,
  bit_and-bitwise (suc x / 2) (y / 2),
  lowest_digit (λ b. 0) min x y,
)

-- `lo | hi << k` is a sum where `lo` fits in `k` bits.
pub bit_or_shifted : (k hi lo : ℕ) → lo < 2 ^ k → bit_or lo (hi * 2 ^ k) ≡ hi * 2 ^ k + lo
bit_or_shifted zero hi zero h = omega (arith, bit_or-bitwise 0 (hi * 2 ^ 0))
bit_or_shifted zero hi (suc lo) h = absurd (omega arith)
bit_or_shifted (suc k) hi lo h = ground (
  arith,
  bit_or_step lo (hi * 2 ^ suc k),
  ap (λ (t : ℕ). hi * t) (pow-suc 2 k),
  pow-suc 2 k,
  bit_or_shifted k hi (lo / 2) (omega (arith, pow-suc 2 k)),
)

pub bit_or-zero_right : (x : ℕ) → bit_or x 0 ≡ x
bit_or-zero_right x = bit_or_zero_below (suc x) x (omega arith)
  where
    bit_or_zero_below : (n x : ℕ) → x < n → bit_or x 0 ≡ x
    bit_or_zero_below zero x h = elim h [ ]
    bit_or_zero_below (suc n) zero h = refl
    bit_or_zero_below (suc n) (suc x) h =
        omega (arith, bit_or_step (suc x) 0, bit_or_zero_below n (suc x / 2) (omega arith))

-- An `and` clears bits of either operand, and an `or` stays within a width that both keep.
pub bit_and-le_right : (x y : ℕ) → bit_and x y ≤ y
bit_and-le_right x y = bounded (suc x) x y (omega arith)
  where
    bounded : (n x y : ℕ) → x < n → bit_and x y ≤ y
    bounded zero x y h = elim h [ ]
    bounded (suc n) zero y h = omega (arith, bit_and-bitwise 0 y)
    bounded (suc n) (suc x) y h =
        omega (arith, bit_and_step (suc x) y, bounded n (suc x / 2) (y / 2) (omega arith))

pub bit_and-zero_right : (x : ℕ) → bit_and x 0 ≡ 0
bit_and-zero_right x = omega (arith, bit_and-le_right x 0)

pub bit_or-lt : (k x y : ℕ) → x < 2 ^ k → y < 2 ^ k → bit_or x y < 2 ^ k
bit_or-lt zero zero zero h g = omega arith
bit_or-lt zero (suc x) y h g = absurd (omega arith)
bit_or-lt zero zero (suc y) h g = absurd (omega arith)
bit_or-lt (suc k) x y h g =
    let e = pow-suc 2 k in
    omega
      (arith, e, bit_or_step x y, bit_or-lt k (x / 2) (y / 2) (omega (arith, e)) (omega (arith, e)))

mod-double : (x m : ℕ) → 0 < m → x % (m * 2) ≡ x / 2 % m * 2 + x % 2
mod-double x m pos =
    let a = x / 2 in
    let low = a % m * 2 + x % 2 in
    let parts : x ≡ a / m * (m * 2) + low =
      omega (arith, ap (λ (t : ℕ). t * 2) (div-add-mod a m)) in
    ap (λ t. t % (m * 2)) parts
    ∙ mul-add-mod_self_right (a / m) (m * 2) low
    ∙ mod-eq_of_lt (omega (arith, mod-lt a pos))

-- An `and` with the k lowest ones is a remainder.
pub bit_and_mask : (k x : ℕ) → bit_and x (2 ^ k - 1) ≡ x % 2 ^ k
bit_and_mask zero x = omega (arith, bit_and-le_right x 0)
bit_and_mask (suc k) x =
    let e = pow-suc 2 k in
    let ones : (2 ^ suc k - 1) / 2 ≡ 2 ^ k - 1 = omega (arith, e, one-le-pow k 2) in
    let odd : (2 ^ suc k - 1) % 2 ≡ 1 = omega (arith, e, one-le-pow k 2) in
    omega (
      arith,
      bit_and_step x (2 ^ suc k - 1),
      ap (λ (t : ℕ). bit_and (x / 2) t) ones,
      bit_and_mask k (x / 2),
      ap (λ (t : ℕ). x % t) e,
      mod-double x (2 ^ k) (one-le-pow k 2 (omega arith)),
      odd,
    )
