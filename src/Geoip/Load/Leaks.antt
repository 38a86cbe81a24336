-- ===== src/Geoip/Load/Leaks.antt =====
-- What a check that fails leaves behind (`xt_geoip_mt_checkentry` of extensions/xt_geoip.c).
use xtables_addons.Refs.Laws.{HasRoom}
use xtables_addons.Common.{suc, length, ◌==◌, ℕ, ◌≤◌, ◌<◌, ◌≡◌, List, ◌∷◌, arith}
use mathlib.Core.Path.{subst}
use xtables_addons.Refs.{refs}
use xtables_addons.Geoip.Load.{
  Env, Errno, Heads, Added, added, failed, Loaded, loaded, refused, load_country, before,
  check_next, xt_geoip_mt_checkentry,
}
use xtables_addons.Geoip.Load.Takes.{IsHeads, Takes, TakesIf, load_country-Takes}
use xtables_addons.Geoip.Load.Count.{one_less, Checks, xt_geoip_mt_checkentry-Checks}

module _ {S : Type 0} where
  refused_then :
      (i : ℕ) (middle : Heads S) (e : Errno) (r : Loaded × Heads S)
      → Checks middle r
      → r.0 ≡ refused e
      → ((before i r).0 ≡ refused e) × (refs i middle.nodes ≤ refs i (before i r).1.nodes)
  unfolding before
  refused_then i middle e (loaded is, after) c h = ground arith
  refused_then i middle e (refused e', after) c h = (h, c.counted i)

  check_next-refused :
      (rest : Heads S → Loaded × Heads S) (heads middle : Heads S) (i : ℕ) (e : Errno) (r : Added S)
      → TakesIf heads r
      → r ≡ added i middle
      → Checks middle (rest middle)
      → (rest middle).0 ≡ refused e
      → ((check_next rest heads r).0 ≡ refused e)
        × (refs i heads.nodes < refs i (check_next rest heads r).1.nodes)
  unfolding check_next
  check_next-refused rest heads middle i e (failed e') t q c h = ground arith
  check_next-refused rest heads middle i e (added j after) t q c h =
      let same : j ≡ i = cc in
      let there : after ≡ middle = cc in
      rw (same, there)
        (let u = refused_then i middle e (rest middle) c h in
          (u.0, ground (arith, u.1, t.counted i, same, there)))

  -- On country lists in order, whose 32-bit counts have room for one more of each country of the rule,
  -- where the first country of a rule is loaded and a later one is not, the check fails and the first
  -- country counts at least one more reference than before.
  pub xt_geoip_mt_checkentry_leaks :
      (env : Env S) (cc ptr : ℕ) (countries : List (ℕ × ℕ)) (heads middle : Heads S) (i : ℕ)
      (e : Errno)
      → IsHeads heads
      → HasRoom (suc (length countries)) heads.nodes
      → load_country env cc ptr heads ≡ added i middle
      → (xt_geoip_mt_checkentry env countries middle).0 ≡ refused e
      → ((xt_geoip_mt_checkentry env ((cc, ptr) ∷ countries) heads).0 ≡ refused e)
        × (refs i heads.nodes
            < refs i (xt_geoip_mt_checkentry env ((cc, ptr) ∷ countries) heads).1.nodes)
  unfolding xt_geoip_mt_checkentry
  xt_geoip_mt_checkentry_leaks env cc ptr countries heads middle i e ok room loads refuses =
      let taken : Takes heads i middle =
        subst (λ r. TakesIf heads r) loads
          (load_country-Takes env cc ptr heads ok (λ j. omega (arith, room j))) in
      check_next-refused (xt_geoip_mt_checkentry env countries) heads middle i e
        (load_country env cc ptr heads)
        (load_country-Takes env cc ptr heads ok (λ j. omega (arith, room j))) loads
        (xt_geoip_mt_checkentry-Checks env countries middle taken.heads_ok λ j.
          one_less (refs j middle.nodes) (refs j heads.nodes) (length countries) (i == j)
            (taken.counted j) (room j))
        refuses
