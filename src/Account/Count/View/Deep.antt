-- ===== src/Account/Count/View/Deep.antt =====
-- The insertions at depth 2 (extensions/ACCOUNT/xt_ACCOUNT.c): the last three bytes of an address.
use xtables_addons.Common.{
  ℕ, ◌≡◌, refl, Bool, true, false, ◌&&◌, ◌==◌, if◌then◌else◌, arith, Bool-cases, inl, inr,
}
use xtables_addons.Account.{AccIp, zero_16, Mask8, Mask16}
use xtables_addons.Account.Count.{
  Packet, Acc, in_net, slot0, slot1, slot2, count_src, count_dst, src_half, dst_half, insert_at,
  ipt_acc_depth1_insert, insert_dst2, ipt_acc_depth2_insert,
}
use xtables_addons.Account.Count.View.{
  IsNonzeroNet, view16, view8, counted, insert_in-view, insert_in-goes_on,
  ipt_acc_depth1_insert-counted,
}

module _ (zalloc_ok : ℕ → Bool) (allocates : (n : ℕ) → zalloc_ok n ≡ true) (p : Packet)
    (nonzero : IsNonzeroNet p) (a b c : ℕ) where
  src_at : Bool → AccIp → AccIp
  src_at here ip =
      if here && ((b == slot1 p.src_ip) && (c == slot0 p.src_ip)) then count_src p.size ip else ip

  dst_at : Bool → AccIp → AccIp
  dst_at here ip =
      if here && ((b == slot1 p.dst_ip) && (c == slot0 p.dst_ip)) then count_dst p.size ip else ip

  depth1_src :
      in_net p p.src_ip ≡ true
      → (acc : Acc Mask16)
      → view16 (ipt_acc_depth1_insert zalloc_ok (src_half p) acc).mask b c
        ≡ src_at true (view16 acc.mask b c)
  unfolding src_at
  depth1_src inside acc =
      ground (arith, ipt_acc_depth1_insert-counted zalloc_ok allocates (src_half p) nonzero b c acc)

  depth1_dst :
      in_net p p.dst_ip ≡ true
      → (acc : Acc Mask16)
      → view16 (ipt_acc_depth1_insert zalloc_ok (dst_half p) acc).mask b c
        ≡ dst_at true (view16 acc.mask b c)
  unfolding dst_at
  depth1_dst inside acc =
      ground (arith, ipt_acc_depth1_insert-counted zalloc_ok allocates (dst_half p) nonzero b c acc)

  depth2_dst :
      (r : Bool × Acc Mask8)
      → r.0 ≡ true
      → view8 (insert_dst2 zalloc_ok p r).mask a b c ≡ (
          if in_net p p.dst_ip
          then dst_at (a == slot2 p.dst_ip) (view8 r.1.mask a b c)
          else view8 r.1.mask a b c)
  unfolding insert_dst2 insert_at dst_at
  depth2_dst (false, acc) e = ground arith
  depth2_dst (true, acc) e = elim (Bool-cases (in_net p p.dst_ip)) [
    | inl inside ↦ rw inside (
        let step =
          insert_in-view zalloc_ok allocates zero_16 (ipt_acc_depth1_insert zalloc_ok (dst_half p))
            (slot2 p.dst_ip) acc (λ m. view16 m b c) (dst_at true) (depth1_dst inside) a
            (acc.mask (slot2 p.dst_ip)) refl in
        ground (arith, step))
    | inr outside ↦ rw outside refl
  ]

  depth2_src : Acc Mask8 → Bool × Acc Mask8
  depth2_src acc =
      if in_net p p.src_ip
      then insert_at zalloc_ok zero_16 (ipt_acc_depth1_insert zalloc_ok (src_half p))
          (slot2 p.src_ip) acc
      else (true, acc)

  depth2_src-goes_on : (acc : Acc Mask8) → (depth2_src acc).0 ≡ true
  unfolding depth2_src insert_at
  depth2_src-goes_on acc = elim (Bool-cases (in_net p p.src_ip)) [
    | inl inside ↦ rw inside (
        insert_in-goes_on zalloc_ok allocates zero_16 (ipt_acc_depth1_insert zalloc_ok (src_half p))
          (slot2 p.src_ip) acc (acc.mask (slot2 p.src_ip)))
    | inr outside ↦ rw outside refl
  ]

  depth2_src-view :
      (acc : Acc Mask8)
      → view8 (depth2_src acc).1.mask a b c ≡ (
          if in_net p p.src_ip
          then src_at (a == slot2 p.src_ip) (view8 acc.mask a b c)
          else view8 acc.mask a b c)
  unfolding depth2_src insert_at src_at
  depth2_src-view acc = elim (Bool-cases (in_net p p.src_ip)) [
    | inl inside ↦ rw inside (
        let step =
          insert_in-view zalloc_ok allocates zero_16 (ipt_acc_depth1_insert zalloc_ok (src_half p))
            (slot2 p.src_ip) acc (λ m. view16 m b c) (src_at true) (depth1_src inside) a
            (acc.mask (slot2 p.src_ip)) refl in
        ground (arith, step))
    | inr outside ↦ rw outside refl
  ]

  -- In a network that address 0 is not in, while pages can be allocated, a table of depth 2 counts
  -- the packet at the last three bytes of those of its two addresses that lie in the network, and
  -- changes no other slot.
  pub ipt_acc_depth2_insert-counted :
      (acc : Acc Mask8)
      → view8 (ipt_acc_depth2_insert zalloc_ok p acc).mask a b c
        ≡ counted p
            ((a == slot2 p.src_ip) && ((b == slot1 p.src_ip) && (c == slot0 p.src_ip)))
            ((a == slot2 p.dst_ip) && ((b == slot1 p.dst_ip) && (c == slot0 p.dst_ip)))
            (view8 acc.mask a b c)
  unfolding ipt_acc_depth2_insert depth2_src src_at dst_at
  ipt_acc_depth2_insert-counted acc =
      ground (arith, depth2_dst (depth2_src acc) (depth2_src-goes_on acc), depth2_src-view acc)
