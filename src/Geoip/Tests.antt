-- ===== src/Geoip/Tests.antt =====
-- Runs of the geoip match (extensions/xt_geoip.c), and the theorems at a small country list.
use xtables_addons.Common.{
  ℕ, ◌≤◌, ◌<◌, ◌≡◌, ◌⊎◌, refl, true, Option, some, none, List, [], ◌∷◌, map, arith, has_flag, ◌==◌,
  if◌then◌else◌,
}
use xtables_addons.Common.Words.{ntohl}
use xtables_addons.Refs.{Node, refs, deref, get_ref}
use xtables_addons.Geoip.Search.{
  Subnet4, Subnet6, In6Addr, hit, miss, geoip_bsearch4, bsearch4_loop, geoip_bsearch6,
  bsearch6_loop, ipv6_cmp,
}
use xtables_addons.Geoip.Search.Bisect.{IsPacked, Holds, geoip_bsearch4-Decides}
use xtables_addons.Geoip.Search.Words6.{
  IsRange6, value6, subnet_value, geoip_bsearch6-geoip_bsearch4,
}
use xtables_addons.Geoip.Match.{Country, xt_geoip_mt4, xt_geoip_mt6, host_order}
use xtables_addons.Geoip.Match.Verdict.{
  Usable4, Usable6, Held4, Held6, AnyHeld, Answers, xt_geoip_mt4-Answers, xt_geoip_mt6-Answers,
}
use xtables_addons.Geoip.Load.{
  Env, Heads, loaded, refused, added, efault, xt_geoip_mt_checkentry, xt_geoip_mt_destroy,
  geoip_add_node, find_node, load_country,
}
use xtables_addons.Refs.Laws.{HasRoom}
use xtables_addons.Geoip.Load.Takes.{IsHeads}
use xtables_addons.Geoip.Load.Count.{holds, check_then_destroy}
use xtables_addons.Geoip.Load.Leaks.{xt_geoip_mt_checkentry_leaks}

abbrev ranges : List Subnet4
ranges =
    record { begin = 16; end = 31 }
    ∷ record { begin = 64; end = 127 }
    ∷ record { begin = 200; end = 200 }
    ∷ []

abbrev word : ℕ → In6Addr
word x = record { word0 = 0x20010db8; word1 = 0; word2 = 0; word3 = x }

abbrev ranges6 : List Subnet6
ranges6 =
    record { begin = word 16; end = word 31 } ∷ record { begin = word 64; end = word 127 } ∷ []

found_test : geoip_bsearch4 ranges 100 0 3 ≡ hit
unfolding geoip_bsearch4 bsearch4_loop
found_test = refl

missed_test : geoip_bsearch4 ranges 199 0 3 ≡ miss
unfolding geoip_bsearch4 bsearch4_loop
missed_test = refl

found6_test : geoip_bsearch6 ranges6 (word 70) 0 2 ≡ hit
unfolding geoip_bsearch6 bsearch6_loop ipv6_cmp
found6_test = refl

ranges-IsPacked : IsPacked ranges
ranges-IsPacked = ground arith

geoip_bsearch4-Decides_example :
    ((geoip_bsearch4 ranges 100 0 3 ≡ hit) × Holds ranges 100 0 3)
    ⊎ ((geoip_bsearch4 ranges 100 0 3 ≡ miss) × ¬ (Holds ranges 100 0 3))
geoip_bsearch4-Decides_example =
    geoip_bsearch4-Decides ranges 100 0 3 ranges-IsPacked (omega arith) (omega arith)

ranges6-IsRange6 : IsRange6 ranges6
ranges6-IsRange6 = ground arith

geoip_bsearch6-geoip_bsearch4_example :
    geoip_bsearch6 ranges6 (word 70) 0 2
    ≡ geoip_bsearch4 (map subnet_value ranges6) (value6 (word 70)) 0 2
geoip_bsearch6-geoip_bsearch4_example =
    geoip_bsearch6-geoip_bsearch4 ranges6 (word 70) 0 2 ranges6-IsRange6 (omega arith)

abbrev country : Country Subnet4
country = record { cc = 0x4445; count = 3; subnets = ranges }

abbrev nodes : List (Node (Country Subnet4))
nodes = record { id = 7; ref = 1; body = country } ∷ []

abbrev country6 : Country Subnet6
country6 = record { cc = 0x4445; count = 2; subnets = ranges6 }

abbrev nodes6 : List (Node (Country Subnet6))
nodes6 = record { id = 7; ref = 1; body = country6 } ∷ []

usable4 : Usable4 country
usable4 = (ranges-IsPacked, omega arith, omega arith)

ranges6-IsPacked : IsPacked (map subnet_value ranges6)
ranges6-IsPacked = ground arith

usable6 : Usable6 country6
usable6 = (ranges6-IsRange6, ranges6-IsPacked, omega arith, omega arith)

points : deref 7 nodes ≡ some country
unfolding deref
points = refl

points6 : deref 7 nodes6 ≡ some country6
unfolding deref
points6 = refl

abbrev mem : List (Option ℕ)
mem = none ∷ some 7 ∷ []

xt_geoip_mt4-Answers_example :
    Answers 1
      (xt_geoip_mt4 nodes 1 mem 0x64000000 0)
      (AnyHeld (Held4 (ntohl (if has_flag 1 1 then 0x64000000 else 0))) nodes mem)
xt_geoip_mt4-Answers_example =
    xt_geoip_mt4-Answers nodes 1 mem 0x64000000 0 ((country, points, usable4), tt)

xt_geoip_mt6-Answers_example :
    Answers 1 (xt_geoip_mt6 nodes6 1 mem (host_order (word 70)) (word 0)) (
      AnyHeld
        (Held6 (host_order (if has_flag 1 1 then host_order (word 70) else word 0)))
        nodes6
        mem)
xt_geoip_mt6-Answers_example =
    xt_geoip_mt6-Answers nodes6 1 mem (host_order (word 70)) (word 0)
      ((country6, points6, usable6), tt)

abbrev env : Env Subnet4
env = record {
  subnet_size = 8;
  country_at = λ p. some (record { subnets = 0x1000; count = 3; cc = 0x4445 });
  subnets_at = λ p n. some ranges;
  kmalloc_ok = λ p. true;
  vmalloc_ok = λ p n. true;
}

abbrev heads : Heads Subnet4
heads = record { next = 8; nodes = nodes }

heads-IsHeads : IsHeads heads
unfolding refs
heads-IsHeads = record {
  live = ((omega arith, omega arith), refl, tt);
  fresh = λ j h. ground arith;
}

-- A country that is there and one that is new.
abbrev countries : List (ℕ × ℕ)
countries = (0x4445, 0x500) ∷ (0x4652, 0x600) ∷ []

checked_test : (xt_geoip_mt_checkentry env countries heads).0 ≡ loaded (7 ∷ 8 ∷ [])
unfolding xt_geoip_mt_checkentry load_country find_node geoip_add_node get_ref
checked_test = refl

-- The counts have room for three more.
heads-HasRoom : HasRoom 3 heads.nodes
unfolding refs
heads-HasRoom j = ground arith

held_once : (j : ℕ) → holds j (7 ∷ []) ≤ refs j heads.nodes
unfolding refs
held_once j = ground arith

check_then_destroy_example :
    (refs 7 (xt_geoip_mt_destroy (7 ∷ 8 ∷ []) (xt_geoip_mt_checkentry env countries heads).1).nodes
      ≡ refs 7 heads.nodes)
    × (0 < refs 7 heads.nodes
        → deref 7
            (xt_geoip_mt_destroy (7 ∷ 8 ∷ []) (xt_geoip_mt_checkentry env countries heads).1).nodes
          ≡ deref 7 heads.nodes)
check_then_destroy_example =
    check_then_destroy env countries heads (7 ∷ 8 ∷ []) heads-IsHeads
      (λ j. omega (arith, heads-HasRoom j)) checked_test 7

-- User memory with the first country only.
abbrev broken : Env Subnet4
broken = record env { country_at = λ p. if p == 0x600 then none else env.country_at p }

abbrev middle : Heads Subnet4
middle = record { next = 8; nodes = record { id = 7; ref = 2; body = country } ∷ [] }

first_loaded : load_country broken 0x4445 0x500 heads ≡ added 7 middle
unfolding load_country find_node get_ref
first_loaded = refl

second_refused : (xt_geoip_mt_checkentry broken ((0x4652, 0x600) ∷ []) middle).0 ≡ refused efault
unfolding xt_geoip_mt_checkentry load_country find_node geoip_add_node get_ref
second_refused = refl

xt_geoip_mt_checkentry_leaks_example :
    ((xt_geoip_mt_checkentry broken countries heads).0 ≡ refused efault)
    × (refs 7 heads.nodes < refs 7 (xt_geoip_mt_checkentry broken countries heads).1.nodes)
xt_geoip_mt_checkentry_leaks_example =
    xt_geoip_mt_checkentry_leaks broken 0x4445 0x500 ((0x4652, 0x600) ∷ []) heads middle 7 efault
      heads-IsHeads (λ j. omega (arith, heads-HasRoom j)) first_loaded second_refused
