-- ===== src/Geoip/Search/Words6.antt =====
-- `geoip_bsearch6` (extensions/xt_geoip.c) is `geoip_bsearch4` on 128-bit numbers.
use mathlib.Core.Option as Opt
use mathlib.Core.Path.{ap₂}
use native.Mathlib.Nat.{mul-le-mul_right}
use native.Mathlib.Decide.{dec_lt}
use xtables_addons.Common.{
  ℕ, zero, suc, ◌+◌, ◌-◌, ◌*◌, ◌/◌, ◌<◌, ◌≡◌, refl, ap, Option, some, none, List, map, ltb, leb,
  if◌then◌else◌, get_elem?, get_elem?-map, arith,
}
use xtables_addons.Common.Words.{u32_mod}
use xtables_addons.Geoip.Search.{
  Subnet4, Subnet6, In6Addr, Sign, below, equal, above, ipv6_cmp, cmp_word, probe4, probe6,
  bsearch4_loop, bsearch6_loop, geoip_bsearch4, geoip_bsearch6, Search, unsafe, miss, int_max,
}

-- Four 32-bit words.
pub record IsWords (a : In6Addr) : Type 0 where
  pub fits0 : a.word0 < u32_mod
  pub fits1 : a.word1 < u32_mod
  pub fits2 : a.word2 < u32_mod
  pub fits3 : a.word3 < u32_mod

abbrev pub value6 : In6Addr → ℕ
value6 a = ((a.word0 * u32_mod + a.word1) * u32_mod + a.word2) * u32_mod + a.word3

abbrev pub subnet_value : Subnet6 → Subnet4
subnet_value s = record { begin = value6 s.begin; end = value6 s.end }

compare_values : ℕ → ℕ → Sign
compare_values p q = if ltb p q then below else if ltb q p then above else equal

-- A word decides the comparison of the numbers that it leads, unless it is the same in both.
cmp_word-compare_values :
    (M p q a b : ℕ)
    → a < M
    → b < M
    → cmp_word p q (compare_values a b) ≡ compare_values (p * M + a) (q * M + b)
unfolding cmp_word compare_values
cmp_word-compare_values M p q a b ha hb = elim (dec_lt p q) [
  | yes less ↦ ground (arith, mul-le-mul_right {m = suc p} {n = q} M less)
  | no rest ↦ elim (dec_lt q p) [
    | yes more ↦ ground (arith, mul-le-mul_right {m = suc q} {n = p} M more)
    | no same ↦ let e : p ≡ q = omega arith in rw e (ground arith)
  ]
]

last_word : (p q : ℕ) → cmp_word p q equal ≡ compare_values p q
unfolding cmp_word compare_values
last_word p q = refl

-- `ipv6_cmp` compares the addresses as numbers.
ipv6_cmp-compare_values :
    (p q : In6Addr) → IsWords p → IsWords q → ipv6_cmp p q ≡ compare_values (value6 p) (value6 q)
unfolding ipv6_cmp
ipv6_cmp-compare_values p q hp hq =
    let w = u32_mod in
    let regroup = λ (a : In6Addr).
      let e : a.word0 * (w * w * w) + (a.word1 * (w * w) + (a.word2 * w + a.word3)) ≡ value6 a =
        omega arith in
      e in
    rw
      (
        last_word p.word3 q.word3,
        cmp_word-compare_values w p.word2 q.word2 p.word3 q.word3 (omega arith) (omega arith),
        cmp_word-compare_values (w * w) p.word1 q.word1 (p.word2 * w + p.word3)
            (q.word2 * w + q.word3) (omega arith) (omega arith),
        cmp_word-compare_values (w * w * w) p.word0 q.word0
            (p.word1 * (w * w) + (p.word2 * w + p.word3))
            (q.word1 * (w * w) + (q.word2 * w + q.word3)) (omega arith) (omega arith),
      )
      (ap₂ compare_values (regroup p) (regroup q))

-- Every range of the list has proper words.
pub record IsRange6 (range : List Subnet6) : Type 0 where
  pub first : (i : ℕ) (s : Subnet6) → get_elem? range i ≡ some s → IsWords s.begin
  pub last : (i : ℕ) (s : Subnet6) → get_elem? range i ≡ some s → IsWords s.end

probe6-probe4 :
    (addr : In6Addr) (s : Subnet6) (left right : Search)
    → IsWords addr
    → IsWords s.begin
    → IsWords s.end
    → probe6 addr (some s) left right ≡ probe4 (value6 addr) (some (subnet_value s)) left right
unfolding probe6 probe4 compare_values
probe6-probe4 addr s left right ha hb he =
    rw
      (
        ipv6_cmp-compare_values s.begin addr hb ha,
        ipv6_cmp-compare_values addr s.end ha he,
        ipv6_cmp-compare_values s.end addr he ha,
      )
      (ground arith)

guarded : ℕ → ℕ → Search → Search
guarded lo hi next = if leb hi lo then miss else if ltb int_max (lo + hi) then unsafe else next

loop4_step :
    (fuel : ℕ) (range : List Subnet4) (addr lo hi : ℕ)
    → bsearch4_loop (suc fuel) range addr lo hi
      ≡ guarded lo hi (
          probe4 addr
            (get_elem? range ((lo + hi) / 2))
            (bsearch4_loop fuel range addr lo ((lo + hi) / 2))
            (bsearch4_loop fuel range addr ((lo + hi) / 2 + 1) hi))
unfolding bsearch4_loop guarded
loop4_step fuel range addr lo hi = refl

loop6_step :
    (fuel : ℕ) (range : List Subnet6) (addr : In6Addr) (lo hi : ℕ)
    → bsearch6_loop (suc fuel) range addr lo hi
      ≡ guarded lo hi (
          probe6 addr
            (get_elem? range ((lo + hi) / 2))
            (bsearch6_loop fuel range addr lo ((lo + hi) / 2))
            (bsearch6_loop fuel range addr ((lo + hi) / 2 + 1) hi))
unfolding bsearch6_loop guarded
loop6_step fuel range addr lo hi = refl

module _ (range : List Subnet6) (words : IsRange6 range) (addr : In6Addr) (ha : IsWords addr) where
  probes :
      (mid : ℕ) (o : Option Subnet6) (left right : Search)
      → get_elem? range mid ≡ o
      → probe6 addr o left right ≡ probe4 (value6 addr) (Opt.map subnet_value o) left right
  unfolding probe6 probe4
  probes mid none left right e = refl
  probes mid (some s) left right e =
      probe6-probe4 addr s left right ha (words.first mid s e) (words.last mid s e)

  loop6-loop4 :
      (fuel lo hi : ℕ)
      → bsearch6_loop fuel range addr lo hi
        ≡ bsearch4_loop fuel (map subnet_value range) (value6 addr) lo hi
  loop6-loop4 zero lo hi = unfold bsearch6_loop bsearch4_loop in refl
  loop6-loop4 (suc fuel) lo hi =
      let mid = (lo + hi) / 2 in
      rw
        (
          loop6_step,
          loop4_step,
          get_elem?-map subnet_value range mid,
          loop6-loop4 fuel lo mid,
          loop6-loop4 fuel (mid + 1) hi,
        )
        (ap (guarded lo hi) (probes mid (get_elem? range mid) _ _ refl))

-- On ranges and addresses of 32-bit words the IPv6 bisection is the IPv4 bisection on the addresses
-- as 128-bit numbers.
pub geoip_bsearch6-geoip_bsearch4 :
    (range : List Subnet6) (addr : In6Addr) (lo hi : ℕ)
    → IsRange6 range
    → IsWords addr
    → geoip_bsearch6 range addr lo hi ≡ geoip_bsearch4 (map subnet_value range) (value6 addr) lo hi
unfolding geoip_bsearch6 geoip_bsearch4
geoip_bsearch6-geoip_bsearch4 range addr lo hi words ha =
    loop6-loop4 range words addr ha (suc (hi - lo)) lo hi
