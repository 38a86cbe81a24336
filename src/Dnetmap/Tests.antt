-- ===== src/Dnetmap/Tests.antt =====
-- Runs of the DNETMAP target (extensions/xt_DNETMAP.c), and the theorems at a concrete prefix of two
-- addresses.
use xtables_addons.Common.{
  ℕ, ◌≡◌, ◌≢◌, refl, true, false, Option, some, none, List, [], ◌∷◌, ◌==◌, if◌then◌else◌, arith,
  inr,
}
use xtables_addons.Common.Members.{elem, remove}
use xtables_addons.Dnetmap.{
  NatRange, Entry, Prefix, Net, Env, dnetmap_entry_hash, dnetmap_entry_lookup, first_prenat,
  dnetmap_entry_rlookup, first_postnat, dnetmap_prefix_lookup, first_range, same_range, unhash,
  rehash, later, time_before, dnetmap_addr_in_prefix,
}
use xtables_addons.Dnetmap.Target.{
  TgInfo, Verdict, setup_info, xt_continue, pre_routing, jttl, new_range, refresh, reverse_tg,
  bind_entry, timeout_binding, bind_first, bind_new_prefix, forward_ip, forward_tg, dnetmap_tg,
}
use xtables_addons.Dnetmap.Paired.{IsPaired}
use xtables_addons.Dnetmap.TwoWay.{dnetmap_tg-dnetmap_tg, dnetmap_tg-IsPaired}
use xtables_addons.Dnetmap.Kept.{SameBinding, dnetmap_tg_keeps}
use xtables_addons.Dnetmap.Proc.{
  Write, written, add_checked, add_binding, entry_for, make_static, lru_del,
}
use xtables_addons.Dnetmap.Rules.{dnetmap_prefix_softflush}
use xtables_addons.Dnetmap.Stands.{none_yet, one_more, add_checked-reverse_tg}
use xtables_addons.Dnetmap.Flush.{IsFree, dnetmap_prefix_softflush-IsFree}

abbrev range : NatRange
range = record { flags = 1; min_addr = 201; max_addr = 202; min_proto = 0; max_proto = 0 }

abbrev waiting : ℕ → ℕ → Entry
waiting addr p = record {
  prenat_addr = 0;
  postnat_addr = addr;
  static = false;
  stamp = 100;
  prefix = p;
  hashed = false;
}

abbrev two_entries : ℕ → Entry
two_entries e = if e == 0 then waiting 201 5 else if e == 1 then waiting 202 5 else waiting 0 6

abbrev entries_of : ℕ → List ℕ
entries_of p = if p == 5 then 0 ∷ 1 ∷ [] else []

abbrev one_prefix : ℕ → Prefix
one_prefix p = record {
  range = range;
  elist = entries_of p;
  persistent = false;
  full = false;
  refcnt = 1;
  lru_list = entries_of p;
}

abbrev net : Net
net = record {
  entry = two_entries;
  prefix_at = one_prefix;
  prefixes = 5 ∷ [];
  iphash = λ _. [];
  rev_iphash = λ _. [];
  next = 7;
}

abbrev at_time : ℕ → Env
at_time now = record {
  jiffies = now;
  hz = 10;
  jtimeout = 6000;
  hash_size = 256;
  disable_log = true;
  whole_prefix = true;
}

-- With a prefix, and without one.
abbrev source_rule : TgInfo
source_rule = record { prefix = range; flags = 4; ttl = 0 }

abbrev back_rule : TgInfo
back_rule = record {
  prefix = record { flags = 0; min_addr = 0; max_addr = 0; min_proto = 0; max_proto = 0 };
  flags = 0;
  ttl = 0;
}

net-IsPaired : IsPaired (at_time 200) net
unfolding elem
net-IsPaired = record {
  one_entry = λ x y p q h. ground arith;
  reversed = λ x h m. ground arith;
  rev_ours = λ x h m. ground arith;
  lru_ours = λ x p m. ground arith;
}

abbrev state_of : Option (Net × Verdict) → Net
state_of none = net
state_of (some (t, _)) = t

-- Address 7 gets the first entry.
abbrev after_packet : Net
after_packet = state_of (dnetmap_tg (at_time 200) source_rule 4 7 9 net)

first_bound :
    dnetmap_tg (at_time 200) source_rule 4 7 9 net
    ≡ some (after_packet, setup_info (new_range range 201))
unfolding dnetmap_tg forward_tg forward_ip bind_new_prefix bind_first bind_entry timeout_binding
    dnetmap_entry_lookup dnetmap_prefix_lookup first_prenat first_range same_range unhash rehash
first_bound = refl

dnetmap_tg-dnetmap_tg_example :
    (u : Net) × (dnetmap_tg
        (at_time 900)
        back_rule
        pre_routing
        9
        (new_range range 201).min_addr
        after_packet
      ≡ some (u, setup_info (new_range back_rule.prefix 7)))
dnetmap_tg-dnetmap_tg_example =
    dnetmap_tg-dnetmap_tg (at_time 200) (at_time 900) source_rule back_rule 4 7 9 9 net after_packet
      (new_range range 201) net-IsPaired refl refl (omega arith) first_bound

dnetmap_tg-IsPaired_example : IsPaired (at_time 200) after_packet
dnetmap_tg-IsPaired_example =
    dnetmap_tg-IsPaired (at_time 200) source_rule 4 7 9 net after_packet
      (setup_info (new_range range 201)) net-IsPaired first_bound

-- Address 8 gets the second entry, and a third address none.
abbrev after_second : Net
after_second = state_of (dnetmap_tg (at_time 300) source_rule 4 8 9 after_packet)

second_bound :
    dnetmap_tg (at_time 300) source_rule 4 8 9 after_packet
    ≡ some (after_second, setup_info (new_range range 202))
unfolding dnetmap_tg forward_tg forward_ip bind_new_prefix bind_first bind_entry timeout_binding
    dnetmap_entry_lookup dnetmap_prefix_lookup dnetmap_entry_hash first_prenat first_range
    same_range unhash rehash refresh later jttl remove
second_bound = refl

abbrev verdict_of : Option (Net × Verdict) → Verdict
verdict_of none = xt_continue
verdict_of (some (_, v)) = v

third_refused : verdict_of (dnetmap_tg (at_time 300) source_rule 4 6 9 after_second) ≡ xt_continue
unfolding dnetmap_tg forward_tg forward_ip bind_new_prefix bind_first bind_entry timeout_binding
    dnetmap_entry_lookup dnetmap_prefix_lookup dnetmap_entry_hash first_prenat first_range
    same_range unhash rehash refresh later jttl remove
third_refused = refl

first_lasts :
    ((after_packet.entry 0).prenat_addr ≢ 0)
    × (time_before 300 (after_packet.entry 0).stamp ≡ true)
    × (time_before (after_packet.entry 0).stamp 300 ≡ false)
unfolding dnetmap_tg forward_tg forward_ip bind_new_prefix bind_first bind_entry timeout_binding
    dnetmap_entry_lookup dnetmap_prefix_lookup first_prenat first_range same_range unhash rehash
    later jttl
first_lasts = (omega arith, refl, refl)

dnetmap_tg_keeps_example : SameBinding after_packet after_second 0
dnetmap_tg_keeps_example =
    dnetmap_tg_keeps (at_time 300) source_rule 0 4 8 9 after_packet after_second
      (setup_info (new_range range 202)) (inr first_lasts) second_bound

abbrev net_of : Write → Net
net_of (written n t) = t
net_of other = net

abbrev with_static : Net
with_static = net_of (add_checked (at_time 200) 16 7 202 5 net)

static_added : add_checked (at_time 200) 16 7 202 5 net ≡ written 17 with_static
unfolding add_checked add_binding entry_for make_static lru_del dnetmap_addr_in_prefix
    dnetmap_entry_rlookup first_postnat unhash rehash
static_added = refl

net_owned : (x : ℕ) → elem x (net.prefix_at 5).elist ≡ true → (net.entry x).prefix ≡ 5
unfolding elem
net_owned x m = ground arith

-- Behind the static binding address 8 gets the entry that is left.
abbrev after_static : Net
after_static = state_of (dnetmap_tg (at_time 300) source_rule 4 8 9 with_static)

static_then :
    dnetmap_tg (at_time 300) source_rule 4 8 9 with_static
    ≡ some (after_static, setup_info (new_range range 201))
unfolding add_checked add_binding entry_for make_static lru_del dnetmap_addr_in_prefix
    dnetmap_entry_rlookup first_postnat unhash rehash dnetmap_tg forward_tg forward_ip
    bind_new_prefix bind_first bind_entry timeout_binding dnetmap_entry_lookup dnetmap_prefix_lookup
    dnetmap_entry_hash first_prenat first_range same_range refresh later jttl remove
static_then = refl

add_checked-reverse_tg_example :
    IsPaired (at_time 200) after_static
    × ((reverse_tg (at_time 900) back_rule 202 after_static).1
        ≡ setup_info (new_range back_rule.prefix 7))
add_checked-reverse_tg_example =
    add_checked-reverse_tg (at_time 200) (at_time 900) back_rule 16 17 7 202 5 net with_static
      after_static net-IsPaired net_owned refl refl static_added
      (one_more {v = setup_info (new_range range 201)} (at_time 300) source_rule 4 8 9 none_yet refl
        static_then)

static_on_lru :
    (with_static.entry 1).static ≡ false → elem 1 (with_static.prefix_at 5).lru_list ≡ true
unfolding add_checked add_binding entry_for make_static lru_del dnetmap_addr_in_prefix
    dnetmap_entry_rlookup first_postnat unhash rehash
static_on_lru e = cc

static_inside : ((with_static.entry 1).prefix ≡ 5) × (elem 1 (with_static.prefix_at 5).elist ≡ true)
unfolding add_checked add_binding entry_for make_static lru_del dnetmap_addr_in_prefix
    dnetmap_entry_rlookup first_postnat unhash rehash elem
static_inside = (refl, refl)

dnetmap_prefix_softflush-IsFree_example :
    IsFree (dnetmap_prefix_softflush (at_time 300) 5 with_static) 5 1
    × (elem 1 ((dnetmap_prefix_softflush (at_time 300) 5 with_static).iphash 0) ≡ false)
    × (elem 1 ((dnetmap_prefix_softflush (at_time 300) 5 with_static).rev_iphash 0) ≡ false)
dnetmap_prefix_softflush-IsFree_example =
    dnetmap_prefix_softflush-IsFree (at_time 300) 5 1 0 with_static static_inside.0 static_inside.1
      static_on_lru
