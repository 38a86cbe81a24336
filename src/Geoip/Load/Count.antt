-- ===== src/Geoip/Load/Count.antt =====
-- The reference counts of countries across `xt_geoip_mt_checkentry` and `xt_geoip_mt_destroy`
-- (extensions/xt_geoip.c).
use xtables_addons.Common.Words.{u32_mod}
use xtables_addons.Common.{
  suc, Bool, true, false, length, ℕ, ◌+◌, ◌≤◌, ◌<◌, ◌≡◌, refl, ◌∙◌, none, List, [], ◌∷◌, ◌==◌,
  arith,
}
use mathlib.Core.Path.{subst}
use xtables_addons.Refs.{deref, refs}
use xtables_addons.Refs.Laws.{one_if, HasRoom, put_ref-Puts, live_freed}
use xtables_addons.Geoip.Load.{
  Env, Heads, Added, added, failed, Loaded, loaded, refused, load_country, before, check_next,
  xt_geoip_mt_checkentry, geoip_try_remove_node, xt_geoip_mt_destroy,
}
use xtables_addons.Geoip.Load.Takes.{IsHeads, Takes, TakesIf, load_country-Takes}

-- How often a rule holds the pointer `j`.
abbrev pub holds : ℕ → List ℕ → ℕ
holds j [] = 0
holds j (i ∷ is) = one_if (i == j) + holds j is

pub one_less :
    (after before n : ℕ) (b : Bool)
    → after ≡ before + one_if b
    → before + suc n < u32_mod
    → after + n < u32_mod
one_less after before n true e h = omega arith
one_less after before n false e h = omega arith

module _ {S : Type 0} where
  -- What a check that succeeds does to the lists: a reference for each pointer of the rule.
  pub record Holds (heads : Heads S) (is : List ℕ) (after : Heads S) : Type 0 where
    pub heads_ok : IsHeads after
    pub counted : (j : ℕ) → refs j after.nodes ≡ refs j heads.nodes + holds j is
    pub kept : (j : ℕ) → 0 < refs j heads.nodes → deref j after.nodes ≡ deref j heads.nodes

  -- What a check that fails does to them: it may leave references that no rule holds.
  pub record Leaks (heads : Heads S) (after : Heads S) : Type 0 where
    pub heads_ok : IsHeads after
    pub counted : (j : ℕ) → refs j heads.nodes ≤ refs j after.nodes
    pub kept : (j : ℕ) → 0 < refs j heads.nodes → deref j after.nodes ≡ deref j heads.nodes

  abbrev pub Checks : Heads S → Loaded × Heads S → Type 0
  Checks heads (loaded is, after) = Holds heads is after
  Checks heads (refused e, after) = Leaks heads after

  before-Checks :
      (heads middle : Heads S) (i : ℕ) (r : Loaded × Heads S)
      → Takes heads i middle
      → Checks middle r
      → Checks heads (before i r)
  unfolding before
  before-Checks heads middle i (loaded is, after) t c = record {
    heads_ok = c.heads_ok;
    counted = λ j. omega (arith, c.counted j, t.counted j);
    kept = λ j h. c.kept j (omega (arith, t.counted j)) ∙ t.kept j h;
  }
  before-Checks heads middle i (refused e, after) t c = record {
    heads_ok = c.heads_ok;
    counted = λ j. omega (arith, c.counted j, t.counted j);
    kept = λ j h. c.kept j (omega (arith, t.counted j)) ∙ t.kept j h;
  }

  check_next-Checks :
      (rest : Heads S → Loaded × Heads S) (heads : Heads S) (r : Added S)
      → IsHeads heads
      → TakesIf heads r
      → ((i : ℕ) (middle : Heads S) → Takes heads i middle → Checks middle (rest middle))
      → Checks heads (check_next rest heads r)
  unfolding check_next
  check_next-Checks rest heads (failed e) ok t ih = record {
    heads_ok = ok;
    counted = λ j. omega arith;
    kept = λ j h. refl;
  }
  check_next-Checks rest heads (added i middle) ok t ih =
      before-Checks heads middle i (rest middle) t (ih i middle t)

  -- On lists in order, whose counts have room for one more of each country of the rule, whatever user
  -- memory and the allocators do, a check that succeeds takes one
  -- reference for each pointer that the rule then holds, and one that fails gives none back that was
  -- held before; either way the lists stay in order and no country that was in use changes.
  pub xt_geoip_mt_checkentry-Checks :
      (env : Env S) (countries : List (ℕ × ℕ)) (heads : Heads S)
      → IsHeads heads
      → HasRoom (length countries) heads.nodes
      → Checks heads (xt_geoip_mt_checkentry env countries heads)
  unfolding xt_geoip_mt_checkentry
  xt_geoip_mt_checkentry-Checks env [] heads ok room = record {
    heads_ok = ok;
    counted = λ j. omega arith;
    kept = λ j h. refl;
  }
  xt_geoip_mt_checkentry-Checks env ((cc, ptr) ∷ countries) heads ok room =
      check_next-Checks (xt_geoip_mt_checkentry env countries) heads (load_country env cc ptr heads)
        ok (load_country-Takes env cc ptr heads ok (λ j. omega (arith, room j)))
        (λ i middle t. xt_geoip_mt_checkentry-Checks env countries middle t.heads_ok λ j.
          one_less (refs j middle.nodes) (refs j heads.nodes) (length countries) (i == j)
            (t.counted j) (room j))

  -- What `xt_geoip_mt_destroy` does to the lists.
  pub record Drops (heads : Heads S) (is : List ℕ) (after : Heads S) : Type 0 where
    pub heads_ok : IsHeads after
    pub counted : (j : ℕ) → refs j after.nodes + holds j is ≡ refs j heads.nodes
    pub kept : (j : ℕ) → 0 < refs j after.nodes → deref j after.nodes ≡ deref j heads.nodes
    pub freed : (j : ℕ) → refs j after.nodes ≡ 0 → deref j after.nodes ≡ none

  geoip_try_remove_node-Drops :
      (i : ℕ) (heads : Heads S)
      → IsHeads heads
      → 0 < refs i heads.nodes
      → Drops heads (i ∷ []) (geoip_try_remove_node i heads)
  unfolding geoip_try_remove_node
  geoip_try_remove_node-Drops i heads ok h =
      let p = put_ref-Puts heads.nodes i ok.live h in
      record {
        heads_ok = record {
          live = p.live;
          fresh = λ j f. omega (arith, p.counted j, ok.fresh j f);
        };
        counted = λ j. omega (arith, p.counted j);
        kept = p.kept;
        freed = p.freed;
      }

  -- On lists in order that count at least the references of a rule, releasing the rule takes off
  -- exactly these, keeps every country that is still referenced as it was, and frees every other.
  pub xt_geoip_mt_destroy-Drops :
      (is : List ℕ) (heads : Heads S)
      → IsHeads heads
      → ((j : ℕ) → holds j is ≤ refs j heads.nodes)
      → Drops heads is (xt_geoip_mt_destroy is heads)
  unfolding xt_geoip_mt_destroy
  xt_geoip_mt_destroy-Drops [] heads ok h = record {
    heads_ok = ok;
    counted = λ j. omega arith;
    kept = λ j f. refl;
    freed = λ j f. live_freed heads.nodes j ok.live f;
  }
  xt_geoip_mt_destroy-Drops (i ∷ is) heads ok h =
      let held : 0 < refs i heads.nodes = ground (arith, h i) in
      let d = geoip_try_remove_node-Drops i heads ok held in
      let middle = geoip_try_remove_node i heads in
      let r =
        xt_geoip_mt_destroy-Drops is middle d.heads_ok (λ j. omega (arith, h j, d.counted j)) in
      record {
        heads_ok = r.heads_ok;
        counted = λ j. omega (arith, r.counted j, d.counted j);
        kept = λ j f. r.kept j f ∙ d.kept j (omega (arith, r.counted j));
        freed = r.freed;
      }

  released :
      (heads : Heads S) (r : Loaded × Heads S) (is : List ℕ)
      → Checks heads r
      → r.0 ≡ loaded is
      → Holds heads is r.1
  released heads (loaded js, after) is c e = subst (λ ks. Holds heads ks after) (ground arith) c
  released heads (refused e', after) is c e = ground arith

  -- On country lists in order, whose 32-bit counts have room for one more of each country of the rule,
  -- releasing a rule whose check succeeded brings every reference count back to what it was before the
  -- check, and every country that was in use then is there unchanged.
  pub check_then_destroy :
      (env : Env S) (countries : List (ℕ × ℕ)) (heads : Heads S) (is : List ℕ)
      → IsHeads heads
      → HasRoom (length countries) heads.nodes
      → (xt_geoip_mt_checkentry env countries heads).0 ≡ loaded is
      → (j : ℕ)
      → (refs j (xt_geoip_mt_destroy is (xt_geoip_mt_checkentry env countries heads).1).nodes
          ≡ refs j heads.nodes)
        × (0 < refs j heads.nodes
            → deref j (xt_geoip_mt_destroy is (xt_geoip_mt_checkentry env countries heads).1).nodes
              ≡ deref j heads.nodes)
  check_then_destroy env countries heads is ok room e j =
      let after = (xt_geoip_mt_checkentry env countries heads).1 in
      let c =
        released heads (xt_geoip_mt_checkentry env countries heads) is
          (xt_geoip_mt_checkentry-Checks env countries heads ok room) e in
      let d = xt_geoip_mt_destroy-Drops is after c.heads_ok (λ k. omega (arith, c.counted k)) in
      let same : refs j (xt_geoip_mt_destroy is after).nodes ≡ refs j heads.nodes =
        omega (arith, c.counted j, d.counted j) in
      (same, λ h. d.kept j (omega arith) ∙ c.kept j h)
