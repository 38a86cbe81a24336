-- ===== src/Geoip/Load.antt =====
-- Loading and releasing the countries of a rule (extensions/xt_geoip.c), for one protocol: the
-- lists of the two protocols never meet.
pub mod Takes
pub mod Count
pub mod Leaks
use xtables_addons.Common.{
  ℕ, suc, ◌%◌, ◌+◌, ◌*◌, ◌/◌, ◌^◌, ◌-◌, Bool, not, ◌&&◌, Option, some, none, List, [], ◌∷◌, ◌++◌,
  ltb, ◌==◌, if◌then◌else◌,
}
use xtables_addons.Common.Words.{u16_mod}
use xtables_addons.Refs.{Node, get_ref, put_ref}
use xtables_addons.Geoip.Match.{Country}

pub data Errno : Type 0 where
  efault e2big enomem : Errno

-- struct geoip_country_user; `cc` is a __u16
pub record CountryUser : Type 0 where
  pub subnets : ℕ
  pub count : ℕ
  pub cc : ℕ

-- User memory and the allocators, as one call of `geoip_add_node` for a user pointer meets them:
-- `none` is a fault of `copy_from_user`. `subnet_size` is `geoproto_size[proto]`.
pub record Env (S : Type 0) : Type 0 where
  pub subnet_size : ℕ
  pub country_at : ℕ → Option CountryUser
  pub subnets_at : ℕ → ℕ → Option (List S)
  pub kmalloc_ok : ℕ → Bool
  pub vmalloc_ok : ℕ → ℕ → Bool

-- `geoip_head[proto]`, and the pointer that the next allocation returns.
pub record Heads (S : Type 0) : Type 0 where
  pub next : ℕ
  pub nodes : List (Node (Country S))

pub data Added (S : Type 0) : Type 0 where
  added : ℕ → Heads S → Added S
  failed : Errno → Added S

-- How `checkentry` ends: with the kernel pointers, or with an error.
pub data Loaded : Type 0 where
  loaded : List ℕ → Loaded
  refused : Errno → Loaded

abbrev pub size_max : ℕ
size_max = 2 ^ 64 - 1

module _ {S : Type 0} where
  -- `list_add_tail_rcu` of the finished node
  link : CountryUser → List S → Heads S → Added S
  link umem subnet heads = added heads.next (record {
    next = suc heads.next;
    nodes =
        heads.nodes
        ++ record {
          id = heads.next;
          ref = 1;
          body = record { cc = umem.cc % u16_mod; count = umem.count; subnets = subnet };
        }
          ∷ [];
  })

  copy_subnets : CountryUser → Option (List S) → Heads S → Added S
  copy_subnets umem none heads = failed efault
  copy_subnets umem (some subnet) heads = link umem subnet heads

  copy_country : Env S → ℕ → Option CountryUser → Heads S → Added S
  copy_country env ptr none heads = failed efault
  copy_country env ptr (some umem) heads =
      let size = umem.count * env.subnet_size in
      if ltb (size_max / env.subnet_size) umem.count
      then failed e2big
      else if not (env.kmalloc_ok ptr)
      then failed enomem
      else if not (size == 0) && not (env.vmalloc_ok ptr size)
      then failed enomem
      else copy_subnets umem (if size == 0 then some [] else env.subnets_at umem.subnets umem.count)
          heads

  unfoldable pub geoip_add_node : Env S → ℕ → Heads S → Added S
  unfolding copy_country copy_subnets link
  geoip_add_node env ptr heads = copy_country env ptr (env.country_at ptr) heads

  -- `cc` is an unsigned short.
  unfoldable pub find_node : ℕ → Heads S → Option (ℕ × List (Node (Country S)))
  find_node cc heads = get_ref (λ c. c.cc == cc % u16_mod) heads.nodes

  -- One country of the rule: its code and its user pointer.
  load_node : Env S → ℕ → Heads S → Option (ℕ × List (Node (Country S))) → Added S
  load_node env ptr heads none = geoip_add_node env ptr heads
  load_node env ptr heads (some (i, nodes)) = added i (record heads { nodes = nodes })

  unfoldable pub load_country : Env S → ℕ → ℕ → Heads S → Added S
  unfolding load_node
  load_country env cc ptr heads = load_node env ptr heads (find_node cc heads)

  unfoldable pub before : ℕ → Loaded × Heads S → Loaded × Heads S
  before i (loaded is, heads) = (loaded (i ∷ is), heads)
  before i (refused e, heads) = (refused e, heads)

  unfoldable pub check_next : (Heads S → Loaded × Heads S) → Heads S → Added S → Loaded × Heads S
  check_next rest heads (failed e) = (refused e, heads)
  check_next rest heads (added i heads') = before i (rest heads')

  unfoldable pub xt_geoip_mt_checkentry : Env S → List (ℕ × ℕ) → Heads S → Loaded × Heads S
  unfolding check_next before
  xt_geoip_mt_checkentry env [] heads = (loaded [], heads)
  xt_geoip_mt_checkentry env ((cc, ptr) ∷ countries) heads =
      check_next (xt_geoip_mt_checkentry env countries) heads (load_country env cc ptr heads)

  unfoldable pub geoip_try_remove_node : ℕ → Heads S → Heads S
  geoip_try_remove_node i heads = record heads { nodes = put_ref i heads.nodes }

  unfoldable pub xt_geoip_mt_destroy : List ℕ → Heads S → Heads S
  xt_geoip_mt_destroy [] heads = heads
  xt_geoip_mt_destroy (i ∷ mem) heads = xt_geoip_mt_destroy mem (geoip_try_remove_node i heads)
