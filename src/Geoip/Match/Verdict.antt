-- ===== src/Geoip/Match/Verdict.antt =====
-- `xt_geoip_mt4` and `xt_geoip_mt6` (extensions/xt_geoip.c): the answer is whether one of the rule's
-- countries holds the address.
use mathlib.Core.Path.{subst}
use mathlib.Core.Option.{some-injective}
use xtables_addons.Common.{
  ℕ, ◌^◌, ◌≤◌, ◌≡◌, ◌⊎◌, inl, inr, refl, sym, ◌∙◌, Bool, true, false, not, Option, some, none, List,
  [], ◌∷◌, map, if◌then◌else◌, length, length-map, has_flag, arith,
}
use xtables_addons.Common.Words.{ntohl, ntohl-lt}
use xtables_addons.Refs.{Node, deref}
use xtables_addons.Geoip.Search.{
  Subnet4, Subnet6, In6Addr, Search, hit, miss, geoip_bsearch4, geoip_bsearch6,
}
use xtables_addons.Geoip.Search.Bisect.{IsPacked, Holds, geoip_bsearch4-Decides}
use xtables_addons.Geoip.Search.Words6.{
  IsRange6, IsWords, value6, subnet_value, geoip_bsearch6-geoip_bsearch4,
}
use xtables_addons.Geoip.Match.{
  Country, int_of_count, found, look, any_country, invert, host_order, xt_geoip_mt4, xt_geoip_mt6,
  xt_geoip_src, xt_geoip_inv,
}

module _ {S : Type 0} (P : Country S → Type 0) (nodes : List (Node (Country S))) where
  -- Each pointer of the rule is null or points to a country in order.
  abbrev pub AllUsable : List (Option ℕ) → Type 0
  AllUsable [] = Unit
  AllUsable (none ∷ mem) = AllUsable mem
  AllUsable (some i ∷ mem) = ((c : Country S) × (deref i nodes ≡ some c) × P c) × AllUsable mem

  -- One of the countries that the rule points to satisfies `P`.
  abbrev pub AnyHeld : List (Option ℕ) → Type 0
  AnyHeld [] = ⊥
  AnyHeld (none ∷ mem) = AnyHeld mem
  AnyHeld (some i ∷ mem) = ((c : Country S) × (deref i nodes ≡ some c) × P c) ⊎ AnyHeld mem

module _ {S : Type 0} (search : List S → ℕ → Search) (Usable Held : Country S → Type 0) where
  -- The search decides whether a country holds the address.
  abbrev pub Decider : Type 0
  Decider =
      (c : Country S)
      → Usable c
      → ((search c.subnets (int_of_count c.count) ≡ hit) × Held c)
        ⊎ ((search c.subnets (int_of_count c.count) ≡ miss) × ¬ (Held c))

  module _ (nodes : List (Node (Country S))) where
    neither :
        (i : ℕ) (mem : List (Option ℕ)) (c : Country S)
        → deref i nodes ≡ some c
        → ¬ (Held c)
        → ¬ (AnyHeld Held nodes mem)
        → ¬ (AnyHeld Held nodes (some i ∷ mem))
    neither i mem c at not_held not_later (inl (c', at', held)) =
        not_held (subst Held (some-injective c' c (sym at' ∙ at)) held)
    neither i mem c at not_held not_later (inr later) = not_later later

    any_country-AnyHeld :
        Decider
        → (mem : List (Option ℕ)) → AllUsable Usable nodes mem
        → ((any_country search nodes mem ≡ some true) × AnyHeld Held nodes mem)
          ⊎ ((any_country search nodes mem ≡ some false) × ¬ (AnyHeld Held nodes mem))
    unfolding any_country look found
    any_country-AnyHeld decides [] u = inr (refl, λ x. x)
    any_country-AnyHeld decides (none ∷ mem) u = any_country-AnyHeld decides mem u
    any_country-AnyHeld decides (some i ∷ mem) ((c, at, usable), u) = elim (decides c usable) [
      | inl (e, held) ↦ inl (rw (at, look, e) refl, inl (c, at, held))
      | inr (e, not_held) ↦ elim (any_country-AnyHeld decides mem u) [
        | inl (rest, found_later) ↦ inl (rw (at, look, e) rest, inr found_later)
        | inr (rest, not_later) ↦ inr (rw (at, look, e) rest, neither i mem c at not_held not_later)
      ]
    ]

-- A country whose ranges are packed and counted right, of a size that fits in memory.
abbrev pub Usable4 : Country Subnet4 → Type 0
Usable4 c = IsPacked c.subnets × (c.count ≡ length c.subnets) × (c.count ≤ 2 ^ 30)

abbrev pub Held4 : ℕ → Country Subnet4 → Type 0
Held4 ip c = Holds c.subnets ip 0 c.count

abbrev pub Usable6 : Country Subnet6 → Type 0
Usable6 c =
    IsRange6 c.subnets
    × IsPacked (map subnet_value c.subnets)
    × (c.count ≡ length c.subnets)
    × (c.count ≤ 2 ^ 30)

abbrev pub Held6 : In6Addr → Country Subnet6 → Type 0
Held6 ip c = Holds (map subnet_value c.subnets) (value6 ip) 0 c.count

int_of_small_count : (count : ℕ) → count ≤ 2 ^ 30 → int_of_count count ≡ count
int_of_small_count count h = ground arith

search4_decides : (ip : ℕ) → Decider (λ range hi. geoip_bsearch4 range ip 0 hi) Usable4 (Held4 ip)
search4_decides ip c (packed, counted, small) =
    rw (int_of_small_count c.count small)
      (geoip_bsearch4-Decides c.subnets ip 0 c.count packed (omega arith) (omega arith))

host_order-IsWords : (a : In6Addr) → IsWords (host_order a)
host_order-IsWords a = record {
  fits0 = ntohl-lt a.word0;
  fits1 = ntohl-lt a.word1;
  fits2 = ntohl-lt a.word2;
  fits3 = ntohl-lt a.word3;
}

search6_decides :
    (a : In6Addr)
    → Decider (λ range hi. geoip_bsearch6 range (host_order a) 0 hi) Usable6 (Held6 (host_order a))
search6_decides a c (words, packed, counted, small) =
    rw
      (
        int_of_small_count c.count small,
        geoip_bsearch6-geoip_bsearch4 c.subnets (host_order a) 0 c.count words
            (host_order-IsWords a),
      )
      (let n = length-map subnet_value c.subnets in
        geoip_bsearch4-Decides (map subnet_value c.subnets) (value6 (host_order a)) 0 c.count packed
          (omega (arith, n)) (omega (arith, n)))

-- The answer, and the two ways to come to it.
abbrev pub Answers : ℕ → Option Bool → Type 0 → Type 0
Answers flags answer Held =
    ((answer ≡ some (not (has_flag flags xt_geoip_inv))) × Held)
    ⊎ ((answer ≡ some (has_flag flags xt_geoip_inv)) × ¬ Held)

inverted :
    (flags : ℕ) (r : Option Bool) (Held : Type 0)
    → ((r ≡ some true) × Held) ⊎ ((r ≡ some false) × ¬ Held)
    → Answers flags (invert flags r) Held
inverted flags r Held (inl (e, h)) = inl (rw e refl, h)
inverted flags r Held (inr (e, h)) = inr (rw e refl, h)

-- For a rule whose pointers are null or point to countries in order, the IPv4 match answers whether
-- a country of the rule has a range that holds the address that the rule selects, turned round by
-- the inversion flag. No bisection goes wrong and no freed country is read.
pub xt_geoip_mt4-Answers :
    (nodes : List (Node (Country Subnet4))) (flags : ℕ) (mem : List (Option ℕ)) (saddr daddr : ℕ)
    → AllUsable Usable4 nodes mem
    → Answers flags
        (xt_geoip_mt4 nodes flags mem saddr daddr)
        (AnyHeld (Held4 (ntohl (if has_flag flags xt_geoip_src then saddr else daddr))) nodes mem)
unfolding xt_geoip_mt4
xt_geoip_mt4-Answers nodes flags mem saddr daddr u =
    let ip = ntohl (if has_flag flags xt_geoip_src then saddr else daddr) in
    inverted flags _ _ (any_country-AnyHeld _ Usable4 (Held4 ip) nodes (search4_decides ip) mem u)

-- For a rule whose pointers are null or point to countries in order, the IPv6 match answers whether
-- a country of the rule has a range that holds the address that the rule selects, compared as a
-- 128-bit number, turned round by the inversion flag. No bisection goes wrong and no freed country
-- is read.
pub xt_geoip_mt6-Answers :
    (nodes : List (Node (Country Subnet6))) (flags : ℕ) (mem : List (Option ℕ))
    (saddr daddr : In6Addr)
    → AllUsable Usable6 nodes mem
    → Answers flags (xt_geoip_mt6 nodes flags mem saddr daddr) (
        AnyHeld
          (Held6 (host_order (if has_flag flags xt_geoip_src then saddr else daddr)))
          nodes
          mem)
unfolding xt_geoip_mt6
xt_geoip_mt6-Answers nodes flags mem saddr daddr u =
    let a = if has_flag flags xt_geoip_src then saddr else daddr in
    inverted flags _ _
      (any_country-AnyHeld _ Usable6 (Held6 (host_order a)) nodes (search6_decides a) mem u)
