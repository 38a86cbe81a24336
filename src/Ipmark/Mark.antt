-- ===== src/Ipmark/Mark.antt =====
-- The marks that the two IPMARK targets (extensions/xt_IPMARK.c) set.
use native.Mathlib.Nat.{lt_of_le_of_lt, mod-eq_of_lt, div-le_self}
use xtables_addons.Common.{
  ℕ, ◌/◌, ◌%◌, ◌^◌, ◌≤◌, ◌<◌, ◌≡◌, ◌↔◌, some, none, arith, bit_or, bit_and, if◌then◌else◌, ◌==◌,
  lt→ltb, Bool-cases, inl, inr, ap,
}
use xtables_addons.Common.Words.{u32_mod, ntohl, ntohl-lt}
use xtables_addons.Common.Bits.{bit_or-lt, bit_and-le_right}
use xtables_addons.Ipmark.{
  In6Addr, TgInfo, xt_continue, ipmark_tg4, ipmark_tg6, ipmark_from_ip6, xt_ipmark_src,
}
use xtables_addons.Ipmark.Shift.{address_value, ipmark_from_ip6-shift}

-- The IPv4 target has defined behaviour exactly when the configured shift is below 32.
pub ipmark_tg4_undefined :
    (saddr daddr : ℕ) (info : TgInfo) → (ipmark_tg4 saddr daddr info ≡ none) ↔ (32 ≤ info.shift)
unfolding ipmark_tg4
ipmark_tg4_undefined saddr daddr info = ground arith

-- The IPv6 target always sets a mark, and with 32-bit masks that mark fits in 32 bits.
pub ipmark_tg6_fits :
    (saddr daddr : In6Addr) (info : TgInfo)
    → info.andmask < u32_mod
    → info.ormask < u32_mod
    → (mark : ℕ) × (ipmark_tg6 saddr daddr info ≡ some (xt_continue, mark)) × (mark < u32_mod)
unfolding ipmark_tg6
ipmark_tg6_fits saddr daddr info ha ho =
    let a = if info.selector == xt_ipmark_src then saddr else daddr in
    let low = address_value a / 2 ^ info.shift % u32_mod in
    (
      bit_or (bit_and low info.andmask) info.ormask,
      rw (ipmark_from_ip6-shift a info.shift),
      bit_or-lt 32 (bit_and low info.andmask) info.ormask
          (lt_of_le_of_lt (bit_and-le_right low info.andmask) ha) ho,
    )

abbrev pub in_last_word : ℕ → In6Addr
in_last_word addr = record { word0 = 0; word1 = 0; word2 = 0; word3 = addr }

last_word_shift :
    (addr s : ℕ) → s < 32 → ipmark_from_ip6 (in_last_word addr) s ≡ some (ntohl addr / 2 ^ s)
last_word_shift addr s h =
    let value : address_value (in_last_word addr) ≡ ntohl addr = omega arith in
    rw (ipmark_from_ip6-shift (in_last_word addr) s, value)
      (ap some (mod-eq_of_lt (lt_of_le_of_lt (div-le_self (ntohl addr) (2 ^ s)) (ntohl-lt addr))))

-- For shifts below 32 the IPv6 target, given addresses whose upper 96 bits are zero, sets the mark
-- that the IPv4 target sets for their lowest words.
ipmark_tg6-tg4 :
    (saddr daddr : ℕ) (info : TgInfo)
    → info.shift < 32
    → ipmark_tg6 (in_last_word saddr) (in_last_word daddr) info ≡ ipmark_tg4 saddr daddr info
unfolding ipmark_tg6 ipmark_tg4
ipmark_tg6-tg4 saddr daddr info h = elim (Bool-cases (info.selector == xt_ipmark_src)) [
  | inl src ↦ rw (src, last_word_shift saddr info.shift h, lt→ltb _ _ h)
  | inr dst ↦ rw (dst, last_word_shift daddr info.shift h, lt→ltb _ _ h)
]
