-- ===== src/Geoip/Match.antt =====
-- The matches of extensions/xt_geoip.c: a packet's address against the countries of a rule.
pub mod Verdict
use xtables_addons.Common.{
  ℕ, ◌^◌, Bool, true, false, not, Option, some, none, List, [], ◌∷◌, ltb, if◌then◌else◌, has_flag,
}
use xtables_addons.Common.Words.{ntohl}
use xtables_addons.Refs.{Node, deref}
use xtables_addons.Geoip.Search.{
  Subnet4, Subnet6, In6Addr, Search, hit, miss, warned, unsafe, unfinished, geoip_bsearch4,
  geoip_bsearch6,
}

-- struct geoip_country_kernel, without its list links and its reference count, which `Node` has.
pub record Country (S : Type 0) : Type 0 where
  pub cc : ℕ
  pub count : ℕ
  pub subnets : List S

abbrev pub xt_geoip_src : ℕ
xt_geoip_src = 1

abbrev pub xt_geoip_inv : ℕ
xt_geoip_inv = 4

-- `node->count` as the int argument `hi`; a count beyond int is negative there, which ends the
-- loop as 0 does.
abbrev pub int_of_count : ℕ → ℕ
int_of_count count = if ltb count (2 ^ 31) then count else 0

-- The answer for one country; `none` is a bisection that went wrong, where C reads wild memory.
unfoldable pub found : Search → Option Bool
found hit = some true
found miss = some false
found warned = some false
found unsafe = none
found unfinished = none

-- What follows in the loop: a country that holds the address ends it.
abbrev pub or_else_country : Option Bool → Option Bool → Option Bool
or_else_country none rest = none
or_else_country (some true) rest = some true
or_else_country (some false) rest = rest

module _ {S : Type 0} (search : List S → ℕ → Search) (nodes : List (Node (Country S))) where
  look : Option (Country S) → Option Bool
  unfolding found
  look none = none
  look (some country) = found (search country.subnets (int_of_count country.count))

  -- The loop over `info->mem`: a null pointer is skipped, a pointer to a freed country is `none`.
  unfoldable pub any_country : List (Option ℕ) → Option Bool
  unfolding look
  any_country [] = some false
  any_country (none ∷ mem) = any_country mem
  any_country (some i ∷ mem) = or_else_country (look (deref i nodes)) (any_country mem)

abbrev pub invert : ℕ → Option Bool → Option Bool
invert flags none = none
invert flags (some true) = some (not (has_flag flags xt_geoip_inv))
invert flags (some false) = some (has_flag flags xt_geoip_inv)

unfoldable pub xt_geoip_mt4 :
    List (Node (Country Subnet4)) → ℕ → List (Option ℕ) → ℕ → ℕ → Option Bool
xt_geoip_mt4 nodes flags mem saddr daddr =
    let ip = ntohl (if has_flag flags xt_geoip_src then saddr else daddr) in
    invert flags (any_country (λ range hi. geoip_bsearch4 range ip 0 hi) nodes mem)

-- `ip.s6_addr32[i] = ntohl(ip.s6_addr32[i])`
abbrev pub host_order : In6Addr → In6Addr
host_order a = record {
  word0 = ntohl a.word0;
  word1 = ntohl a.word1;
  word2 = ntohl a.word2;
  word3 = ntohl a.word3;
}

unfoldable pub xt_geoip_mt6 :
    List (Node (Country Subnet6)) → ℕ → List (Option ℕ) → In6Addr → In6Addr → Option Bool
xt_geoip_mt6 nodes flags mem saddr daddr =
    let ip = host_order (if has_flag flags xt_geoip_src then saddr else daddr) in
    invert flags (any_country (λ range hi. geoip_bsearch6 range ip 0 hi) nodes mem)
