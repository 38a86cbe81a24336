-- ===== src/Asn/Match.antt =====
-- The matches of extensions/xt_asn.c: a packet's address against the numbers of a rule.
use xtables_addons.Common.{
  ℕ, ◌^◌, Bool, true, false, not, Option, some, none, List, [], ◌∷◌, ltb, if◌then◌else◌, has_flag,
}
use xtables_addons.Common.Words.{ntohl}
use xtables_addons.Refs.{Node, deref}
use xtables_addons.Geoip.Search.{
  Subnet4, Subnet6, In6Addr, Search, hit, miss, warned, unsafe, unfinished,
}
use xtables_addons.Asn.Search.{asn_bsearch4, asn_bsearch6}

-- struct asn_number_kernel, without its list links and its reference count, which `Node` has.
pub record AsnNumber (S : Type 0) : Type 0 where
  pub asn : ℕ
  pub count : ℕ
  pub subnets : List S

abbrev pub xt_asn_src : ℕ
xt_asn_src = 1

abbrev pub xt_asn_inv : ℕ
xt_asn_inv = 4

-- The end of one bisection; `none` is wild memory.
unfoldable pub asn_found : Search → Option Bool
asn_found hit = some true
asn_found miss = some false
asn_found warned = some false
asn_found unsafe = none
asn_found unfinished = none

-- The loop goes on where the number does not hold the address.
abbrev pub asn_or_else : Option Bool → Option Bool → Option Bool
asn_or_else none rest = none
asn_or_else (some true) rest = some true
asn_or_else (some false) rest = rest

module _ {S : Type 0} (search : List S → ℕ → Search) (nodes : List (Node (AsnNumber S))) where
  -- A count beyond int is negative as the argument `hi`, which ends the bisection as 0 does.
  asn_look : Option (AsnNumber S) → Option Bool
  unfolding asn_found
  asn_look none = none
  asn_look (some n) = asn_found (search n.subnets (if ltb n.count (2 ^ 31) then n.count else 0))

  -- The loop over `info->mem`; a null pointer is skipped.
  unfoldable pub any_number : List (Option ℕ) → Option Bool
  unfolding asn_look
  any_number [] = some false
  any_number (none ∷ mem) = any_number mem
  any_number (some i ∷ mem) = asn_or_else (asn_look (deref i nodes)) (any_number mem)

abbrev pub asn_invert : ℕ → Option Bool → Option Bool
asn_invert flags none = none
asn_invert flags (some true) = some (not (has_flag flags xt_asn_inv))
asn_invert flags (some false) = some (has_flag flags xt_asn_inv)

unfoldable pub xt_asn_mt4 :
    List (Node (AsnNumber Subnet4)) → ℕ → List (Option ℕ) → ℕ → ℕ → Option Bool
xt_asn_mt4 nodes flags mem saddr daddr =
    let ip = ntohl (if has_flag flags xt_asn_src then saddr else daddr) in
    asn_invert flags (any_number (λ range hi. asn_bsearch4 range ip 0 hi) nodes mem)

abbrev pub asn_host_order : In6Addr → In6Addr
asn_host_order a = record {
  word0 = ntohl a.word0;
  word1 = ntohl a.word1;
  word2 = ntohl a.word2;
  word3 = ntohl a.word3;
}

unfoldable pub xt_asn_mt6 :
    List (Node (AsnNumber Subnet6)) → ℕ → List (Option ℕ) → In6Addr → In6Addr → Option Bool
xt_asn_mt6 nodes flags mem saddr daddr =
    let ip = asn_host_order (if has_flag flags xt_asn_src then saddr else daddr) in
    asn_invert flags (any_number (λ range hi. asn_bsearch6 range ip 0 hi) nodes mem)
