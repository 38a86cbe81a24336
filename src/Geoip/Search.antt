-- ===== src/Geoip/Search.antt =====
-- The bisections of extensions/xt_geoip.c over the packed ranges of a country.
pub mod Bisect
pub mod Words6
use xtables_addons.Common.{
  ℕ, zero, suc, ◌+◌, ◌-◌, ◌*◌, ◌/◌, ◌^◌, ◌≡◌, Bool, true, false, ◌&&◌, Option, some, none, List,
  ltb, leb, if◌then◌else◌, get_elem?,
}

-- struct geoip_subnet4, in host order
pub record Subnet4 : Type 0 where
  pub begin : ℕ
  pub end : ℕ

-- An address of four words, in host order
pub record In6Addr : Type 0 where
  pub word0 : ℕ
  pub word1 : ℕ
  pub word2 : ℕ
  pub word3 : ℕ

pub record Subnet6 : Type 0 where
  pub begin : In6Addr
  pub end : In6Addr

-- The sign of `ipv6_cmp`
pub data Sign : Type 0 where
  below equal above : Sign

cmp_word : ℕ → ℕ → Sign → Sign
cmp_word p q rest = if ltb p q then below else if ltb q p then above else rest

unfoldable pub ipv6_cmp : In6Addr → In6Addr → Sign
unfolding cmp_word
ipv6_cmp p q =
    cmp_word p.word0 q.word0
      (cmp_word p.word1 q.word1 (cmp_word p.word2 q.word2 (cmp_word p.word3 q.word3 equal)))

abbrev pub le_zero : Sign → Bool
le_zero below = true
le_zero equal = true
le_zero above = false

abbrev pub lt_zero : Sign → Bool
lt_zero below = true
lt_zero equal = false
lt_zero above = false

abbrev pub gt_zero : Sign → Bool
gt_zero below = false
gt_zero equal = false
gt_zero above = true

-- How a bisection ends. `warned` is the WARN_ON behind the loop, `unsafe` a read outside the
-- array or a sum beyond int, `unfinished` the end of the fuel.
pub data Search : Type 0 where
  hit miss warned unsafe unfinished : Search

-- The largest sum of two indices that an int holds.
abbrev pub int_max : ℕ
int_max = 2 ^ 31 - 1

-- One round at `mid`: `left` and `right` are the loop on the two halves.
probe4 : ℕ → Option Subnet4 → Search → Search → Search
probe4 addr none left right = unsafe
probe4 addr (some s) left right =
    if leb s.begin addr && leb addr s.end
    then hit
    else if ltb addr s.begin
    then left
    else if ltb s.end addr
    then right
    else warned

unfoldable pub bsearch4_loop : ℕ → List Subnet4 → ℕ → ℕ → ℕ → Search
unfolding probe4
bsearch4_loop zero range addr lo hi = unfinished
bsearch4_loop (suc fuel) range addr lo hi =
    let mid = (lo + hi) / 2 in
    let next =
      probe4 addr (get_elem? range mid) (bsearch4_loop fuel range addr lo mid)
        (bsearch4_loop fuel range addr (mid + 1) hi) in
    if leb hi lo then miss else if ltb int_max (lo + hi) then unsafe else next

-- Each round at least drops the middle, so one round more than elements is enough.
unfoldable pub geoip_bsearch4 : List Subnet4 → ℕ → ℕ → ℕ → Search
geoip_bsearch4 range addr lo hi = bsearch4_loop (suc (hi - lo)) range addr lo hi

probe6 : In6Addr → Option Subnet6 → Search → Search → Search
probe6 addr none left right = unsafe
probe6 addr (some s) left right =
    if le_zero (ipv6_cmp s.begin addr) && le_zero (ipv6_cmp addr s.end)
    then hit
    else if gt_zero (ipv6_cmp s.begin addr)
    then left
    else if lt_zero (ipv6_cmp s.end addr)
    then right
    else warned

unfoldable pub bsearch6_loop : ℕ → List Subnet6 → In6Addr → ℕ → ℕ → Search
unfolding probe6
bsearch6_loop zero range addr lo hi = unfinished
bsearch6_loop (suc fuel) range addr lo hi =
    let mid = (lo + hi) / 2 in
    let next =
      probe6 addr (get_elem? range mid) (bsearch6_loop fuel range addr lo mid)
        (bsearch6_loop fuel range addr (mid + 1) hi) in
    if leb hi lo then miss else if ltb int_max (lo + hi) then unsafe else next

unfoldable pub geoip_bsearch6 : List Subnet6 → In6Addr → ℕ → ℕ → Search
geoip_bsearch6 range addr lo hi = bsearch6_loop (suc (hi - lo)) range addr lo hi
