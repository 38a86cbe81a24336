-- ===== src/Ipmark/Shift.antt =====
-- `ipmark_from_ip6` (extensions/xt_IPMARK.c) against a shift of the whole 128-bit address.
use native.Mathlib.Nat.{
  mul-add-div_right, mul-add-mod_self_right, mod-eq_of_lt, div-div-eq-div-mul, pow-suc, one-le-pow,
  mod-lt, div-add-mod, div-le_self, lt_of_le_of_lt, lt_of_lt_of_le, div-eq_of_lt, pow-le-pow_right,
  div-lt_iff_lt-mul, mul-le-mul_right,
}
use xtables_addons.Common.{
  ℕ, zero, suc, ◌+◌, ◌-◌, ◌*◌, ◌/◌, ◌%◌, ◌^◌, ◌<◌, ◌≡◌, refl, sym, ap, ◌∙◌, some, arith, bit_or,
  ◌==◌, if◌then◌else◌,
}
use xtables_addons.Common.Words.{u32_mod, ntohl, ntohl-lt}
use xtables_addons.Common.Bits.{bit_or_shifted}
use xtables_addons.Ipmark.{In6Addr, ipmark_from_ip6, upper_bits}

-- The address as one number.
abbrev pub address_value : In6Addr → ℕ
address_value a =
    ((ntohl a.word0 * u32_mod + ntohl a.word1) * u32_mod + ntohl a.word2) * u32_mod + ntohl a.word3

pow-add : (a b : ℕ) → 2 ^ (a + b) ≡ 2 ^ a * 2 ^ b
pow-add a zero = let e : a + 0 ≡ a = omega arith in rw e (omega arith)
pow-add a (suc b) =
    let e : a + suc b ≡ suc (a + b) = omega arith in
    rw e (
      omega (
        arith,
        pow-suc 2 (a + b),
        ap (λ (t : ℕ). t * 2) (pow-add a b),
        ap (λ (t : ℕ). 2 ^ a * t) (pow-suc 2 b),
      ))

-- A word's width split in two: shifts right by `q` and left by `r`.
module _ (P R : ℕ) (pos : 0 < P) (e : P * R ≡ u32_mod) where
  kept_bits-lt : (hi lo : ℕ) → lo < u32_mod → (lo / P < R) × (hi % P * R + lo / P < u32_mod)
  kept_bits-lt hi lo h =
      let small : lo / P < R = (div-lt_iff_lt-mul pos).1 (omega arith) in
      (small, omega (arith, mul-le-mul_right R (mod-lt hi pos)))

  scale_split : (hi : ℕ) → hi * R ≡ hi / P * u32_mod + hi % P * R
  scale_split hi =
      omega (arith, ap (λ (t : ℕ). t * R) (div-add-mod hi P), ap (λ (t : ℕ). hi / P * t) e)

  shifted_left : (hi : ℕ) → hi * R % u32_mod ≡ hi % P * R
  shifted_left hi =
      rw (scale_split hi, mul-add-mod_self_right (hi / P) u32_mod)
        (mod-eq_of_lt (omega (arith, (kept_bits-lt hi 0 (omega arith)).1)))

  -- Two adjacent words shifted right, cut off to one word.
  window : (hi lo : ℕ) → lo < u32_mod → (hi * u32_mod + lo) / P % u32_mod ≡ hi % P * R + lo / P
  window hi lo h =
      let regroup : hi * u32_mod + lo ≡ hi * R * P + lo = omega (arith, ap (λ (t : ℕ). hi * t) e) in
      let carry : hi * R + lo / P ≡ hi / P * u32_mod + (hi % P * R + lo / P) =
        omega (arith, scale_split hi) in
      rw
        (regroup, mul-add-div_right pos (hi * R) lo, carry, mul-add-mod_self_right (hi / P) u32_mod)
        (mod-eq_of_lt (kept_bits-lt hi lo h).1)

  -- Words above those two do not reach it.
  window_high : (top x : ℕ) → (top * u32_mod * u32_mod + x) / P % u32_mod ≡ x / P % u32_mod
  window_high top x =
      let regroup : top * u32_mod * u32_mod + x ≡ top * R * u32_mod * P + x =
        omega (arith, ap (λ (t : ℕ). top * t) e) in
      let carry : top * R * u32_mod + x / P ≡ top * R * u32_mod + x / P = refl in
      rw (
        regroup,
        mul-add-div_right pos (top * R * u32_mod) x,
        mul-add-mod_self_right (top * R) u32_mod,
      )

-- What the two masks of `ipmark_from_ip6` make of adjacent words.
funnel :
    (q hi lo : ℕ)
    → q < 32
    → lo < u32_mod
    → bit_or (lo / 2 ^ q) (hi * 2 ^ (32 - q) % u32_mod) ≡ (hi * u32_mod + lo) / 2 ^ q % u32_mod
funnel q hi lo small h =
    let r = 32 - q in
    let pos : 0 < 2 ^ q = one-le-pow q 2 (omega arith) in
    let whole : q + r ≡ 32 = omega arith in
    let e : 2 ^ q * 2 ^ r ≡ u32_mod = sym (pow-add q r) ∙ ap (λ n. 2 ^ n) whole in
    rw (shifted_left (2 ^ q) (2 ^ r) pos e hi, window (2 ^ q) (2 ^ r) pos e hi lo h)
      (bit_or_shifted r (hi % 2 ^ q) (lo / 2 ^ q) (kept_bits-lt (2 ^ q) (2 ^ r) pos e hi lo h).0)

pow_split : (d q : ℕ) (x : ℕ) → x / 2 ^ (d + q) ≡ x / 2 ^ d / 2 ^ q
pow_split d q x = rw (pow-add d q) (sym (div-div-eq-div-mul x (2 ^ d) (2 ^ q)))

-- The two masks, with the shift taken apart.
masks : ℕ → ℕ → ℕ → ℕ
masks q hi lo = if q == 0 then lo / 2 ^ q else bit_or (lo / 2 ^ q) (hi * 2 ^ (32 - q) % u32_mod)

masks_lem :
    (q hi lo : ℕ) → q < 32 → lo < u32_mod → masks q hi lo ≡ (hi * u32_mod + lo) / 2 ^ q % u32_mod
unfolding masks
masks_lem zero hi lo h g = omega arith
masks_lem (suc q) hi lo h g = ground (arith, funnel (suc q) hi lo)

high_word : (a : In6Addr) → address_value a / 2 ^ 96 ≡ ntohl a.word0
high_word a = omega (arith, ntohl-lt a.word1, ntohl-lt a.word2, ntohl-lt a.word3)

address_value-lt : (a : In6Addr) → address_value a < 2 ^ 128
address_value-lt a =
    omega (arith, ntohl-lt a.word0, ntohl-lt a.word1, ntohl-lt a.word2, ntohl-lt a.word3)

module _ (a : In6Addr) (s : ℕ) where
  from_word3 :
      s / 32 ≡ 0 → ipmark_from_ip6 a s ≡ some (masks (s % 32) (ntohl a.word2) (ntohl a.word3))
  unfolding ipmark_from_ip6 upper_bits masks
  from_word3 e = rw (e, ipmark_from_ip6, upper_bits) (ground arith)

  from_word2 :
      s / 32 ≡ 1 → ipmark_from_ip6 a s ≡ some (masks (s % 32) (ntohl a.word1) (ntohl a.word2))
  unfolding ipmark_from_ip6 upper_bits masks
  from_word2 e = rw (e, ipmark_from_ip6, upper_bits) (ground arith)

  from_word1 :
      s / 32 ≡ 2 → ipmark_from_ip6 a s ≡ some (masks (s % 32) (ntohl a.word0) (ntohl a.word1))
  unfolding ipmark_from_ip6 upper_bits masks
  from_word1 e = rw (e, ipmark_from_ip6, upper_bits) (ground arith)

  from_word0 : s / 32 ≡ 3 → ipmark_from_ip6 a s ≡ some (ntohl a.word0 / 2 ^ (s % 32))
  unfolding ipmark_from_ip6 upper_bits
  from_word0 e = rw (e, ipmark_from_ip6, upper_bits) (ground arith)

  from_none : 3 < s / 32 → ipmark_from_ip6 a s ≡ some 0
  unfolding ipmark_from_ip6
  from_none e = ground arith

  -- The address shifted by whole words first.
  whole_words :
      (d : ℕ) → s / 32 ≡ d → address_value a / 2 ^ s ≡ address_value a / 2 ^ (32 * d) / 2 ^ (s % 32)
  whole_words d e =
      let parts : s ≡ 32 * d + s % 32 = omega arith in
      ap (λ n. address_value a / 2 ^ n) parts ∙ pow_split (32 * d) (s % 32) (address_value a)

  drop_high :
      (top hi lo : ℕ)
      → (top * u32_mod * u32_mod + (hi * u32_mod + lo)) / 2 ^ (s % 32) % u32_mod
        ≡ (hi * u32_mod + lo) / 2 ^ (s % 32) % u32_mod
  drop_high top hi lo =
      let q = s % 32 in
      let r = 32 - q in
      let whole : q + r ≡ 32 = omega arith in
      window_high (2 ^ q) (2 ^ r) (one-le-pow q 2 (omega arith))
        (sym (pow-add q r) ∙ ap (λ n. 2 ^ n) whole) top (hi * u32_mod + lo)

  -- Two adjacent words of the address, whatever stands above them.
  two_words :
      (d top hi lo : ℕ)
      → s / 32 ≡ d
      → lo < u32_mod
      → address_value a / 2 ^ (32 * d) ≡ top * u32_mod * u32_mod + (hi * u32_mod + lo)
      → masks (s % 32) hi lo ≡ address_value a / 2 ^ s % u32_mod
  two_words d top hi lo e h r =
      masks_lem (s % 32) hi lo (omega arith) h
      ∙ sym (drop_high top hi lo)
      ∙ sym (ap (λ n. n / 2 ^ (s % 32) % u32_mod) r)
      ∙ sym (ap (λ n. n % u32_mod) (whole_words d e))

  by_word : (d : ℕ) → s / 32 ≡ d → ipmark_from_ip6 a s ≡ some (address_value a / 2 ^ s % u32_mod)
  by_word zero e =
      from_word3 e
      ∙ ap some (
          two_words 0 (ntohl a.word0 * u32_mod + ntohl a.word1) _ _ e (ntohl-lt a.word3)
            (omega arith))
  by_word (suc zero) e =
      from_word2 e ∙ ap some (two_words 1 (ntohl a.word0) _ _ e (ntohl-lt a.word2) (omega arith))
  by_word (suc (suc zero)) e =
      from_word1 e ∙ ap some (two_words 2 0 _ _ e (ntohl-lt a.word1) (omega arith))
  by_word (suc (suc (suc zero))) e =
      from_word0 e
      ∙ ap some (
          sym (
            mod-eq_of_lt
              (lt_of_le_of_lt (div-le_self (ntohl a.word0) (2 ^ (s % 32))) (ntohl-lt a.word0)))
          ∙ sym (ap (λ n. n / 2 ^ (s % 32) % u32_mod) (high_word a))
          ∙ sym (ap (λ n. n % u32_mod) (whole_words 3 e)))
  by_word (suc (suc (suc (suc d)))) e =
      from_none (omega arith)
      ∙ ap some (
          sym (
            ap (λ n. n % u32_mod)
              (div-eq_of_lt (
                lt_of_lt_of_le (address_value-lt a)
                  (pow-le-pow_right {n = 2} (omega arith) {i = 128} (omega arith))))))

-- For every shift `ipmark_from_ip6` shifts in range only, and its result is the low word of the
-- 128-bit address shifted right by `s`.
pub ipmark_from_ip6-shift :
    (a : In6Addr) (s : ℕ) → ipmark_from_ip6 a s ≡ some (address_value a / 2 ^ s % u32_mod)
ipmark_from_ip6-shift a s = by_word a s (s / 32) refl
