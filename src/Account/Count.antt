-- ===== src/Account/Count.antt =====
-- Counting one packet (`ipt_acc_target` and the insertions of extensions/ACCOUNT/xt_ACCOUNT.c).
pub mod View
use xtables_addons.Common.{
  ℕ, ◌+◌, ◌/◌, ◌%◌, Bool, true, false, not, ◌&&◌, ◌||◌, Option, some, none, bit_and, ◌==◌,
  if◌then◌else◌,
}
use xtables_addons.Common.Words.{u32_mod, u64_mod, ntohl, ntohs}
use xtables_addons.Account.{
  AccIp, Mask24, Mask16, Mask8, AccData, depth0, depth1, depth2, zero_24, zero_16,
}

-- The net_ip and netmask of a table, the addresses of a packet, and its size.
pub record Packet : Type 0 where
  pub net_ip : ℕ
  pub netmask : ℕ
  pub src_ip : ℕ
  pub dst_ip : ℕ
  pub size : ℕ

-- Pages of one depth with the table's itemcount and the number of page allocations tried so far.
pub record Acc (M : Type 0) : Type 0 where
  pub mask : M
  pub itemcount : ℕ
  pub tries : ℕ

abbrev pub in_net : Packet → ℕ → Bool
in_net p ip = bit_and p.net_ip p.netmask == bit_and ip p.netmask

abbrev pub slot0 : ℕ → ℕ
slot0 ip = ntohl ip % 256

-- `(ntohl(ip) & 0xFF00) >> 8`
abbrev pub slot1 : ℕ → ℕ
slot1 ip = ntohl ip / 256 % 256

-- `(ntohl(ip) & 0xFF0000) >> 16`
abbrev pub slot2 : ℕ → ℕ
slot2 ip = ntohl ip / 0x10000 % 256

abbrev pub set_slot : {A : Type 0} → ℕ → A → (ℕ → A) → ℕ → A
set_slot slot x mask = λ s. if s == slot then x else mask s

abbrev pub is_new : AccIp → Bool
is_new ip = (ip.src_packets == 0) && (ip.dst_packets == 0)

abbrev pub count_src : ℕ → AccIp → AccIp
count_src size ip = record ip {
  src_packets = (ip.src_packets + 1) % u64_mod;
  src_bytes = (ip.src_bytes + size) % u64_mod;
}

abbrev pub count_dst : ℕ → AccIp → AccIp
count_dst size ip = record ip {
  dst_packets = (ip.dst_packets + 1) % u64_mod;
  dst_bytes = (ip.dst_bytes + size) % u64_mod;
}

abbrev pub one_if : Bool → ℕ
one_if true = 1
one_if false = 0

-- `ipt_acc_depth0_insert` after the check of the netmask for 0.0.0.0/0
count_in_page : Packet → Acc Mask24 → Acc Mask24
count_in_page p a =
    let is_src = in_net p p.src_ip in
    let is_dst = in_net p p.dst_ip && not (p.netmask == 0) in
    let src_slot = slot0 p.src_ip in
    let dst_slot = slot0 p.dst_ip in
    let is_src_new = is_src && is_new (a.mask src_slot) in
    let mask' =
      if is_src then set_slot src_slot (count_src p.size (a.mask src_slot)) a.mask else a.mask in
    let is_dst_new = is_dst && is_new (mask' dst_slot) in
    let mask'' =
      if is_dst then set_slot dst_slot (count_dst p.size (mask' dst_slot)) mask' else mask' in
    let items =
      if src_slot == dst_slot
      then one_if (is_src_new || is_dst_new)
      else one_if is_src_new + one_if is_dst_new in
    record { mask = mask''; itemcount = (a.itemcount + items) % u32_mod; tries = a.tries }

unfoldable pub ipt_acc_depth0_insert : Packet → Acc Mask24 → Acc Mask24
unfolding count_in_page
ipt_acc_depth0_insert p a =
    let p' = if p.netmask == 0 then record p { src_ip = 0 } else p in
    if not (in_net p' p'.src_ip) && not (in_net p' p'.dst_ip && not (p'.netmask == 0))
    then a
    else count_in_page p' a

-- The half of a packet that the depths 1 and 2 hand on: 0 stands for the other address.
abbrev pub src_half : Packet → Packet
src_half p = record p { dst_ip = 0 }

abbrev pub dst_half : Packet → Packet
dst_half p = record p { src_ip = 0 }

-- Whether the n-th page allocation succeeds.
module _ (zalloc_ok : ℕ → Bool) where
  pub insert_page :
      {M : Type 0} → M → ℕ → (Acc M → Acc M) → ℕ → Acc (ℕ → Option M) → Acc (ℕ → Option M)
  insert_page page tries insert slot a =
      let r = insert (record { mask = page; itemcount = a.itemcount; tries = tries }) in
      record { mask = set_slot slot (some r.mask) a.mask; itemcount = r.itemcount; tries = r.tries }

  pub insert_in :
      {M : Type 0}
      → M
      → (Acc M → Acc M)
      → ℕ
      → Acc (ℕ → Option M)
      → Option M
      → Bool × Acc (ℕ → Option M)
  unfolding insert_page
  insert_in zero_page insert slot a (some page) = (true, insert_page page a.tries insert slot a)
  insert_in zero_page insert slot a none =
      if zalloc_ok a.tries
      then (true, insert_page zero_page (a.tries + 1) insert slot a)
      else (false, record { mask = a.mask; itemcount = a.itemcount; tries = a.tries + 1 })

  -- One direction at a slot: the child page, allocated where there is none, and the insertion into
  -- it. `false` tells of an allocation that failed.
  insert_at :
      {M : Type 0} → M → (Acc M → Acc M) → ℕ → Acc (ℕ → Option M) → Bool × Acc (ℕ → Option M)
  unfolding insert_in
  insert_at zero_page insert slot a = insert_in zero_page insert slot a (a.mask slot)

  insert_dst1 : Packet → Bool × Acc Mask16 → Acc Mask16
  insert_dst1 p (false, a) = a
  insert_dst1 p (true, a) =
      if in_net p p.dst_ip
      then (insert_at zero_24 (ipt_acc_depth0_insert (dst_half p)) (slot1 p.dst_ip) a).1
      else a

  unfoldable pub ipt_acc_depth1_insert : Packet → Acc Mask16 → Acc Mask16
  unfolding insert_dst1 insert_at
  ipt_acc_depth1_insert p a = insert_dst1 p (
      if in_net p p.src_ip
      then insert_at zero_24 (ipt_acc_depth0_insert (src_half p)) (slot1 p.src_ip) a
      else (true, a))

  insert_dst2 : Packet → Bool × Acc Mask8 → Acc Mask8
  insert_dst2 p (false, a) = a
  insert_dst2 p (true, a) =
      if in_net p p.dst_ip
      then (insert_at zero_16 (ipt_acc_depth1_insert (dst_half p)) (slot2 p.dst_ip) a).1
      else a

  unfoldable pub ipt_acc_depth2_insert : Packet → Acc Mask8 → Acc Mask8
  unfolding insert_dst2 insert_at
  ipt_acc_depth2_insert p a = insert_dst2 p (
      if in_net p p.src_ip
      then insert_at zero_16 (ipt_acc_depth1_insert (src_half p)) (slot2 p.src_ip) a
      else (true, a))
