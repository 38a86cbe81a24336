-- ===== src/Asn/Search.antt =====
-- The bisections of extensions/xt_asn.c over the packed ranges of an autonomous system. Addresses,
-- ranges and outcomes are those of the model of extensions/xt_geoip.c.
use xtables_addons.Common.{
  ℕ, zero, suc, ◌+◌, ◌-◌, ◌/◌, ◌&&◌, Option, some, none, List, ltb, leb, if◌then◌else◌, get_elem?,
}
use xtables_addons.Geoip.Search.{
  Subnet4, Subnet6, In6Addr, Search, hit, miss, warned, unsafe, unfinished, ipv6_cmp, le_zero,
  lt_zero, gt_zero, int_max,
}

-- One round at `mid`: what to do with the two halves.
asn_probe4 : ℕ → Option Subnet4 → Search → Search → Search
asn_probe4 addr none left right = unsafe
asn_probe4 addr (some s) left right =
    if leb s.begin addr && leb addr s.end
    then hit
    else if ltb addr s.begin
    then left
    else if ltb s.end addr
    then right
    else warned

unfoldable pub asn_loop4 : ℕ → List Subnet4 → ℕ → ℕ → ℕ → Search
unfolding asn_probe4
asn_loop4 zero range addr lo hi = unfinished
asn_loop4 (suc fuel) range addr lo hi =
    let mid = (lo + hi) / 2 in
    let left = asn_loop4 fuel range addr lo mid in
    let right = asn_loop4 fuel range addr (mid + 1) hi in
    if leb hi lo
    then miss
    else if ltb int_max (lo + hi)
    then unsafe
    else asn_probe4 addr (get_elem? range mid) left right

-- One round more than ranges is enough, as each drops its middle.
unfoldable pub asn_bsearch4 : List Subnet4 → ℕ → ℕ → ℕ → Search
asn_bsearch4 range addr lo hi = asn_loop4 (suc (hi - lo)) range addr lo hi

asn_probe6 : In6Addr → Option Subnet6 → Search → Search → Search
asn_probe6 addr none left right = unsafe
asn_probe6 addr (some s) left right =
    if le_zero (ipv6_cmp s.begin addr) && le_zero (ipv6_cmp addr s.end)
    then hit
    else if gt_zero (ipv6_cmp s.begin addr)
    then left
    else if lt_zero (ipv6_cmp s.end addr)
    then right
    else warned

unfoldable pub asn_loop6 : ℕ → List Subnet6 → In6Addr → ℕ → ℕ → Search
unfolding asn_probe6
asn_loop6 zero range addr lo hi = unfinished
asn_loop6 (suc fuel) range addr lo hi =
    let mid = (lo + hi) / 2 in
    let left = asn_loop6 fuel range addr lo mid in
    let right = asn_loop6 fuel range addr (mid + 1) hi in
    if leb hi lo
    then miss
    else if ltb int_max (lo + hi)
    then unsafe
    else asn_probe6 addr (get_elem? range mid) left right

unfoldable pub asn_bsearch6 : List Subnet6 → In6Addr → ℕ → ℕ → Search
asn_bsearch6 range addr lo hi = asn_loop6 (suc (hi - lo)) range addr lo hi
