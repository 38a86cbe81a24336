-- ===== src/Asn/Load.antt =====
-- Loading and releasing the numbers of a rule (extensions/xt_asn.c), for one protocol. User memory,
-- the allocators and the errors are those of the model of extensions/xt_geoip.c.
use xtables_addons.Common.{
  ℕ, suc, ◌*◌, ◌/◌, Bool, not, ◌&&◌, Option, some, none, List, [], ◌∷◌, ◌++◌, ltb, ◌==◌,
  if◌then◌else◌,
}
use xtables_addons.Refs.{Node, get_ref, put_ref}
use xtables_addons.Geoip.Load.{Errno, efault, e2big, enomem, Loaded, loaded, refused, size_max}
use xtables_addons.Asn.Match.{AsnNumber}

-- struct asn_number_user
pub record AsnUser : Type 0 where
  pub subnets : ℕ
  pub count : ℕ
  pub asn : ℕ

-- What a call of `asn_add_node` meets; `none` is a fault of `copy_from_user`.
pub record AsnEnv (S : Type 0) : Type 0 where
  pub subnet_size : ℕ
  pub number_at : ℕ → Option AsnUser
  pub subnets_at : ℕ → ℕ → Option (List S)
  pub kmalloc_ok : ℕ → Bool
  pub vmalloc_ok : ℕ → ℕ → Bool

-- `asn_head[proto]`, and the pointer that the next allocation returns.
pub record AsnHead (S : Type 0) : Type 0 where
  pub next : ℕ
  pub nodes : List (Node (AsnNumber S))

pub data AsnAdded (S : Type 0) : Type 0 where
  asn_added : ℕ → AsnHead S → AsnAdded S
  asn_failed : Errno → AsnAdded S

module _ {S : Type 0} where
  asn_link : AsnUser → Option (List S) → AsnHead S → AsnAdded S
  asn_link umem none head = asn_failed efault
  asn_link umem (some subnets) head = asn_added head.next (record {
    next = suc head.next;
    nodes =
        head.nodes
        ++ record {
          id = head.next;
          ref = 1;
          body = record { asn = umem.asn; count = umem.count; subnets = subnets };
        }
          ∷ [];
  })

  asn_copy : AsnEnv S → ℕ → Option AsnUser → AsnHead S → AsnAdded S
  asn_copy env ptr none head = asn_failed efault
  asn_copy env ptr (some umem) head =
      let size = umem.count * env.subnet_size in
      if ltb (size_max / env.subnet_size) umem.count
      then asn_failed e2big
      else if not (env.kmalloc_ok ptr)
      then asn_failed enomem
      else if not (size == 0) && not (env.vmalloc_ok ptr size)
      then asn_failed enomem
      else asn_link umem (if size == 0 then some [] else env.subnets_at umem.subnets umem.count)
          head

  unfoldable pub asn_add_node : AsnEnv S → ℕ → AsnHead S → AsnAdded S
  unfolding asn_copy asn_link
  asn_add_node env ptr head = asn_copy env ptr (env.number_at ptr) head

  -- `find_node`, which counts a reference on what it finds
  unfoldable pub asn_find_node : ℕ → AsnHead S → Option (ℕ × List (Node (AsnNumber S)))
  asn_find_node asn head = get_ref (λ n. n.asn == asn) head.nodes

  asn_load : AsnEnv S → ℕ → AsnHead S → Option (ℕ × List (Node (AsnNumber S))) → AsnAdded S
  asn_load env ptr head none = asn_add_node env ptr head
  asn_load env ptr head (some (i, nodes)) = asn_added i (record head { nodes = nodes })

  -- One number of the rule, with its user pointer.
  unfoldable pub load_number : AsnEnv S → ℕ → ℕ → AsnHead S → AsnAdded S
  unfolding asn_load
  load_number env asn ptr head = asn_load env ptr head (asn_find_node asn head)

  unfoldable pub asn_before : ℕ → Loaded × AsnHead S → Loaded × AsnHead S
  asn_before i (loaded is, head) = (loaded (i ∷ is), head)
  asn_before i (refused e, head) = (refused e, head)

  unfoldable pub asn_next :
      (AsnHead S → Loaded × AsnHead S) → AsnHead S → AsnAdded S → Loaded × AsnHead S
  asn_next rest head (asn_failed e) = (refused e, head)
  asn_next rest head (asn_added i next) = asn_before i (rest next)

  unfoldable pub xt_asn_mt_checkentry : AsnEnv S → List (ℕ × ℕ) → AsnHead S → Loaded × AsnHead S
  unfolding asn_next asn_before
  xt_asn_mt_checkentry env [] head = (loaded [], head)
  xt_asn_mt_checkentry env ((asn, ptr) ∷ numbers) head =
      asn_next (xt_asn_mt_checkentry env numbers) head (load_number env asn ptr head)

  unfoldable pub asn_try_remove_node : ℕ → AsnHead S → AsnHead S
  asn_try_remove_node i head = record head { nodes = put_ref i head.nodes }

  unfoldable pub xt_asn_mt_destroy : List ℕ → AsnHead S → AsnHead S
  xt_asn_mt_destroy [] head = head
  xt_asn_mt_destroy (i ∷ mem) head = xt_asn_mt_destroy mem (asn_try_remove_node i head)
