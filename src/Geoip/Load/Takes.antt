-- ===== src/Geoip/Load/Takes.antt =====
-- The reference that a rule takes on a country (`load_country`, and what it calls, of
-- extensions/xt_geoip.c).
use xtables_addons.Common.{
  ◌%◌, ℕ, ◌+◌, ◌*◌, ◌/◌, ◌≤◌, ◌<◌, ◌≡◌, inl, inr, not, ◌&&◌, Option, some, none, List, ltb, ◌==◌,
  arith, Bool-cases,
}
use xtables_addons.Common.Words.{u16_mod}
use xtables_addons.Refs.{Node, deref, refs}
use xtables_addons.Refs.Laws.{one_if, IsLive, HasRoom, Got, get_ref-Got, add-Adds}
use xtables_addons.Geoip.Match.{Country}
use xtables_addons.Geoip.Load.{
  Env, Heads, CountryUser, Added, added, failed, link, copy_subnets, copy_country, geoip_add_node,
  find_node, load_node, load_country, size_max,
}

module _ {S : Type 0} where
  -- Objects in order, and no pointer given out that is still to be allocated.
  pub record IsHeads (heads : Heads S) : Type 0 where
    pub live : IsLive heads.nodes
    pub fresh : (j : ℕ) → heads.next ≤ j → refs j heads.nodes ≡ 0

  -- One more reference on the object at `i`, and no other object touched.
  pub record Takes (heads : Heads S) (i : ℕ) (after : Heads S) : Type 0 where
    pub heads_ok : IsHeads after
    pub counted : (j : ℕ) → refs j after.nodes ≡ refs j heads.nodes + one_if (i == j)
    pub kept : (j : ℕ) → 0 < refs j heads.nodes → deref j after.nodes ≡ deref j heads.nodes

  abbrev pub TakesIf : Heads S → Added S → Type 0
  TakesIf heads (failed e) = Unit
  TakesIf heads (added i after) = Takes heads i after

  link-Takes :
      (umem : CountryUser) (subnet : List S) (heads : Heads S)
      → IsHeads heads
      → TakesIf heads (link umem subnet heads)
  unfolding link
  link-Takes umem subnet heads ok =
      let a =
        add-Adds heads.nodes heads.next
          (record { cc = umem.cc % u16_mod; count = umem.count; subnets = subnet }) ok.live
          (ok.fresh heads.next (omega arith)) in
      record {
        heads_ok = record { live = a.live; fresh = λ j h. ground (arith, a.counted j, ok.fresh j) };
        counted = a.counted;
        kept = λ j h. a.kept j (λ e. ground (arith, ok.fresh j));
      }

  copy_subnets-Takes :
      (umem : CountryUser) (subnets : Option (List S)) (heads : Heads S)
      → IsHeads heads
      → TakesIf heads (copy_subnets umem subnets heads)
  unfolding copy_subnets
  copy_subnets-Takes umem none heads ok = tt
  copy_subnets-Takes umem (some subnet) heads ok = link-Takes umem subnet heads ok

  copy_country-Takes :
      (env : Env S) (ptr : ℕ) (country : Option CountryUser) (heads : Heads S)
      → IsHeads heads
      → TakesIf heads (copy_country env ptr country heads)
  unfolding copy_country
  copy_country-Takes env ptr none heads ok = tt
  copy_country-Takes env ptr (some umem) heads ok =
      let size = umem.count * env.subnet_size in
      elim (Bool-cases (ltb (size_max / env.subnet_size) umem.count)) [
        | inl e ↦ rw e tt
        | inr e ↦ rw e (elim (Bool-cases (not (env.kmalloc_ok ptr))) [
          | inl k ↦ rw k tt
          | inr k ↦ rw k (elim (Bool-cases (not (size == 0) && not (env.vmalloc_ok ptr size))) [
            | inl v ↦ rw v tt
            | inr v ↦ rw v (copy_subnets-Takes umem _ heads ok)
          ])
        ])
      ]

  load_node-Takes :
      (env : Env S) (cc ptr : ℕ) (heads : Heads S) (found : Option (ℕ × List (Node (Country S))))
      → IsHeads heads
      → Got (λ c. c.cc == cc % u16_mod) heads.nodes found
      → TakesIf heads (load_node env ptr heads found)
  unfolding load_node geoip_add_node
  load_node-Takes env cc ptr heads none ok g =
      copy_country-Takes env ptr (env.country_at ptr) heads ok
  load_node-Takes env cc ptr heads (some (i, nodes)) ok g = record {
    heads_ok = record {
      live = g.live;
      fresh = λ j h. ground (arith, g.counted j, ok.fresh j, g.held);
    };
    counted = g.counted;
    kept = λ j h. g.kept j;
  }

  -- Loading a country takes a reference on it or fails, whatever user memory and the allocators do,
  -- where no count is at its largest.
  pub load_country-Takes :
      (env : Env S) (cc ptr : ℕ) (heads : Heads S)
      → IsHeads heads
      → HasRoom 1 heads.nodes
      → TakesIf heads (load_country env cc ptr heads)
  unfolding load_country find_node
  load_country-Takes env cc ptr heads ok room =
      load_node-Takes env cc ptr heads (find_node cc heads) ok
        (get_ref-Got (λ c. c.cc == cc % u16_mod) heads.nodes ok.live room)
