-- ===== src/Account/Count/View.antt =====
-- What the insertions of extensions/ACCOUNT/xt_ACCOUNT.c count at each address, absent pages read as
-- zeros, while pages can be allocated and the network is not the one of address 0.
pub mod Deep
use xtables_addons.Common.{
  ℕ, ◌+◌, ◌/◌, ◌%◌, ◌≡◌, refl, sym, ap, ◌∙◌, Bool, true, false, not, ◌&&◌, ◌||◌, Option, some, none,
  bit_and, ◌==◌, if◌then◌else◌, arith, Bool-cases, Option-cases, inl, inr,
}
use xtables_addons.Common.Bits.{bit_and-zero_right}
use xtables_addons.Account.{AccIp, zero_ip, Mask24, Mask16, Mask8, zero_24, zero_16}
use xtables_addons.Account.Count.{
  Packet, Acc, in_net, slot0, slot1, slot2, set_slot, count_src, count_dst, count_in_page,
  ipt_acc_depth0_insert, src_half, dst_half, insert_page, insert_in, insert_at, insert_dst1,
  ipt_acc_depth1_insert, insert_dst2, ipt_acc_depth2_insert,
}

abbrev pub page_or : {M : Type 0} → M → Option M → M
page_or zero_page none = zero_page
page_or zero_page (some page) = page

-- The counters at the slots (b, c) and (a, b, c) of the depths 1 and 2.
abbrev pub view16 : Mask16 → ℕ → ℕ → AccIp
view16 mask b c = page_or zero_24 (mask b) c

abbrev pub view8 : Mask8 → ℕ → ℕ → ℕ → AccIp
view8 mask a b c = view16 (page_or zero_16 (mask a)) b c

-- What a packet adds to one address: as its source, then as its destination.
abbrev pub counted : Packet → Bool → Bool → AccIp → AccIp
counted p from to ip =
    let ip' = if in_net p p.src_ip && from then count_src p.size ip else ip in
    if in_net p p.dst_ip && to then count_dst p.size ip' else ip'

-- The address 0 is outside the table's network.
abbrev pub IsNonzeroNet : Packet → Type 0
IsNonzeroNet p = in_net p 0 ≡ false

netmask_set : (p : Packet) → IsNonzeroNet p → (p.netmask == 0) ≡ false
netmask_set p h = elim (Bool-cases (p.netmask == 0)) [
  | inl e ↦
      let zero : p.netmask ≡ 0 = ground arith in
      let all : (x : ℕ) → bit_and x p.netmask ≡ 0 =
        λ x. ap (λ (m : ℕ). bit_and x m) zero ∙ bit_and-zero_right x in
      ground (arith, all p.net_ip, all 0)
  | inr e ↦ e
]

-- In a network that address 0 is not in, a table of depth 0 counts the packet at the last bytes of
-- those of its two addresses that lie in the network, and changes no other slot.
pub ipt_acc_depth0_insert-counted :
    (p : Packet) (a : Acc Mask24)
    → IsNonzeroNet p
    → (c : ℕ)
    → (ipt_acc_depth0_insert p a).mask c
      ≡ counted p (c == slot0 p.src_ip) (c == slot0 p.dst_ip) (a.mask c)
unfolding ipt_acc_depth0_insert count_in_page
ipt_acc_depth0_insert-counted p a h c = ground (arith, netmask_set p h)

module _ (zalloc_ok : ℕ → Bool) (allocates : (n : ℕ) → zalloc_ok n ≡ true) where
  module _ {M : Type 0} (zero_page : M) (insert : Acc M → Acc M) (slot : ℕ)
      (a : Acc (ℕ → Option M)) where
    pub insert_in-goes_on :
        (o : Option M) → (insert_in zalloc_ok zero_page insert slot a o).0 ≡ true
    unfolding insert_in
    insert_in-goes_on none = rw (allocates a.tries) refl
    insert_in-goes_on (some page) = refl

    pub insert_in-view :
        (view : M → AccIp) (f : AccIp → AccIp)
        → ((b : Acc M) → view (insert b).mask ≡ f (view b.mask))
        → (s : ℕ) (o : Option M) → a.mask slot ≡ o
        → view (page_or zero_page ((insert_in zalloc_ok zero_page insert slot a o).1.mask s)) ≡ (
            if s == slot
            then f (view (page_or zero_page (a.mask s)))
            else view (page_or zero_page (a.mask s)))
    unfolding insert_in insert_page
    insert_in-view view f inner s none e = rw (allocates a.tries) (elim (Bool-cases (s == slot)) [
      | inl k ↦
          let same : s ≡ slot = ground arith in
          rw (k, same, e)
            (inner (record { mask = zero_page; itemcount = a.itemcount; tries = a.tries + 1 }))
      | inr k ↦ rw k refl
    ])
    insert_in-view view f inner s (some page) e = elim (Bool-cases (s == slot)) [
      | inl k ↦
          let same : s ≡ slot = ground arith in
          rw (k, same, e) (inner (record { mask = page; itemcount = a.itemcount; tries = a.tries }))
      | inr k ↦ rw k refl
    ]

  -- The two directions of a packet at depth 1, one after the other.
  module _ (p : Packet) (nonzero : IsNonzeroNet p) (b c : ℕ) where
    src_at : Bool → AccIp → AccIp
    src_at here ip = if here && (c == slot0 p.src_ip) then count_src p.size ip else ip

    dst_at : Bool → AccIp → AccIp
    dst_at here ip = if here && (c == slot0 p.dst_ip) then count_dst p.size ip else ip

    depth0_src :
        in_net p p.src_ip ≡ true
        → (a : Acc Mask24) → (ipt_acc_depth0_insert (src_half p) a).mask c ≡ src_at true (a.mask c)
    unfolding src_at
    depth0_src inside a = ground (arith, ipt_acc_depth0_insert-counted (src_half p) a nonzero c)

    depth0_dst :
        in_net p p.dst_ip ≡ true
        → (a : Acc Mask24) → (ipt_acc_depth0_insert (dst_half p) a).mask c ≡ dst_at true (a.mask c)
    unfolding dst_at
    depth0_dst inside a = ground (arith, ipt_acc_depth0_insert-counted (dst_half p) a nonzero c)

    depth1_dst :
        (r : Bool × Acc Mask16)
        → r.0 ≡ true
        → view16 (insert_dst1 zalloc_ok p r).mask b c ≡ (
            if in_net p p.dst_ip
            then dst_at (b == slot1 p.dst_ip) (view16 r.1.mask b c)
            else view16 r.1.mask b c)
    unfolding insert_dst1 insert_at dst_at
    depth1_dst (false, a) e = ground arith
    depth1_dst (true, a) e = elim (Bool-cases (in_net p p.dst_ip)) [
      | inl inside ↦ rw inside (
          let step =
            insert_in-view zero_24 (ipt_acc_depth0_insert (dst_half p)) (slot1 p.dst_ip) a
              (λ m. m c) (dst_at true) (depth0_dst inside) b (a.mask (slot1 p.dst_ip)) refl in
          ground (arith, step))
      | inr outside ↦ rw outside refl
    ]

    depth1_src : Acc Mask16 → Bool × Acc Mask16
    depth1_src a =
        if in_net p p.src_ip
        then insert_at zalloc_ok zero_24 (ipt_acc_depth0_insert (src_half p)) (slot1 p.src_ip) a
        else (true, a)

    depth1_src-goes_on : (a : Acc Mask16) → (depth1_src a).0 ≡ true
    unfolding depth1_src insert_at
    depth1_src-goes_on a = elim (Bool-cases (in_net p p.src_ip)) [
      | inl inside ↦ rw inside (
          insert_in-goes_on zero_24 (ipt_acc_depth0_insert (src_half p)) (slot1 p.src_ip) a
            (a.mask (slot1 p.src_ip)))
      | inr outside ↦ rw outside refl
    ]

    depth1_src-view :
        (a : Acc Mask16)
        → view16 (depth1_src a).1.mask b c ≡ (
            if in_net p p.src_ip
            then src_at (b == slot1 p.src_ip) (view16 a.mask b c)
            else view16 a.mask b c)
    unfolding depth1_src insert_at src_at
    depth1_src-view a = elim (Bool-cases (in_net p p.src_ip)) [
      | inl inside ↦ rw inside (
          let step =
            insert_in-view zero_24 (ipt_acc_depth0_insert (src_half p)) (slot1 p.src_ip) a
              (λ m. m c) (src_at true) (depth0_src inside) b (a.mask (slot1 p.src_ip)) refl in
          ground (arith, step))
      | inr outside ↦ rw outside refl
    ]

    -- In a network that address 0 is not in, while pages can be allocated, a table of depth 1 counts
    -- the packet at the last two bytes of those of its two addresses that lie in the network, and
    -- changes no other slot.
    pub ipt_acc_depth1_insert-counted :
        (a : Acc Mask16)
        → view16 (ipt_acc_depth1_insert zalloc_ok p a).mask b c
          ≡ counted p
              ((b == slot1 p.src_ip) && (c == slot0 p.src_ip))
              ((b == slot1 p.dst_ip) && (c == slot0 p.dst_ip))
              (view16 a.mask b c)
    unfolding ipt_acc_depth1_insert depth1_src src_at dst_at
    ipt_acc_depth1_insert-counted a =
        ground (arith, depth1_dst (depth1_src a) (depth1_src-goes_on a), depth1_src-view a)
