-- ===== src/Account/Handles/Same.antt =====
-- The two ways to read a table for user space (extensions/ACCOUNT/xt_ACCOUNT.c:
-- ipt_acc_handle_prepare_read, ipt_acc_handle_prepare_read_flush) give the same data.
use xtables_addons.Common.{
  ℕ, zero, suc, ◌+◌, ◌*◌, ◌≤◌, ◌<◌, ◌≡◌, refl, ap, ◌∙◌, Bool, true, Option, some, none, List, [],
  ◌∷◌, bit_or, arith, Bool-cases, Option-cases, inl, inr,
}
use xtables_addons.Common.Words.{ntohl}
use xtables_addons.Account.{Mask16, Mask8, AccData, depth0, depth1, depth2, zero_16, zero_8}
use xtables_addons.Account.Tables.{AccTable, has_name}
use xtables_addons.Account.Handles.{
  Handle, Output, and_then, copy_slot_24, copy_16, copy_slot_16, copy_8, flush_rest, copy_contents,
  ipt_acc_handle_get_data, ipt_acc_handle_prepare_read_flush,
}
use xtables_addons.Account.Handles.Snapshot.{prepared, copy_data, ipt_acc_handle_prepare_read}
use xtables_addons.Account.Handles.Filled.{SameNetwork, copy_mask16-Filled, copy_mask8-Filled}

module _ (page_size : ℕ) (copy_ok : ℕ → ℕ → Bool) where
  and_then_same :
      (o : Option Output) (f g : Output → Option Output)
      → ((out : Output) → f out ≡ g out)
      → and_then page_size copy_ok o f ≡ and_then page_size copy_ok o g
  and_then_same none f g e = refl
  and_then_same (some out) f g e = e out

  copy_16_same :
      (n : ℕ) (m c : Mask16) (net_ip high b : ℕ) (out : Output)
      → ((j : ℕ) → b ≤ j → j < b + n → c j ≡ m j)
      → copy_16 page_size copy_ok n c net_ip high b out
        ≡ copy_16 page_size copy_ok n m net_ip high b out
  unfolding copy_16
  copy_16_same zero m c net_ip high b out same = refl
  copy_16_same (suc n) m c net_ip high b out same =
      let here : c b ≡ m b = same b (omega arith) (omega arith) in
      rw here (
        and_then_same (copy_slot_24 page_size copy_ok (m b) net_ip (bit_or high (b * 0x100)) out)
          (copy_16 page_size copy_ok n c net_ip high (b + 1))
          (copy_16 page_size copy_ok n m net_ip high (b + 1))
          (λ out'.
            copy_16_same n m c net_ip high (b + 1) out'
              (λ j h k. same j (omega arith) (omega arith))))

  copy_slot_16_same :
      (o o' : Option Mask16) (net_ip high : ℕ) (out : Output)
      → SameNetwork o o'
      → copy_slot_16 page_size copy_ok o' net_ip high out
        ≡ copy_slot_16 page_size copy_ok o net_ip high out
  unfolding copy_slot_16
  copy_slot_16_same none none net_ip high out same = refl
  copy_slot_16_same none (some c) net_ip high out same = absurd same
  copy_slot_16_same (some m) none net_ip high out same = absurd same
  copy_slot_16_same (some m) (some c) net_ip high out same =
      copy_16_same 256 m c net_ip high 0 out (λ j h k. same j (omega arith))

  copy_8_same :
      (n : ℕ) (m c : Mask8) (net_ip a : ℕ) (out : Output)
      → ((j : ℕ) → a ≤ j → j < a + n → SameNetwork (m j) (c j))
      → copy_8 page_size copy_ok n c net_ip a out ≡ copy_8 page_size copy_ok n m net_ip a out
  unfolding copy_8
  copy_8_same zero m c net_ip a out same = refl
  copy_8_same (suc n) m c net_ip a out same =
      let here =
        copy_slot_16_same (m a) (c a) net_ip (a * 0x10000) out
          (same a (omega arith) (omega arith)) in
      rw here (
        and_then_same (copy_slot_16 page_size copy_ok (m a) net_ip (a * 0x10000) out)
          (copy_8 page_size copy_ok n c net_ip (a + 1))
          (copy_8 page_size copy_ok n m net_ip (a + 1))
          (λ out'.
            copy_8_same n m c net_ip (a + 1) out' (λ j h k. same j (omega arith) (omega arith))))

-- Data that user space reads alike.
abbrev ReadsAs : AccData → AccData → Type 0
ReadsAs d c =
    (page_size : ℕ) (copy_ok : ℕ → ℕ → Bool) (net_ip : ℕ)
    → copy_contents page_size copy_ok net_ip (some c)
      ≡ copy_contents page_size copy_ok net_ip (some d)

module _ (zalloc_ok : ℕ → Bool) (grants : (n : ℕ) → zalloc_ok n ≡ true) where
  copy_data_same :
      (t : AccTable) (d : AccData)
      → (h : Handle) × (c : AccData) × (copy_data zalloc_ok t (some d) ≡ prepared h)
        × (h.contents ≡ some c)
        × (h.ip ≡ t.ip)
        × (h.itemcount ≡ t.itemcount)
        × ReadsAs d c
  unfolding copy_data copy_contents
  copy_data_same t (depth0 page) = (
    record { ip = t.ip; depth = t.depth; itemcount = t.itemcount; contents = some (depth0 page) },
    depth0 page,
    refl,
    refl,
    refl,
    refl,
    λ page_size copy_ok net_ip. refl,
  )
  copy_data_same t (depth1 mask) =
      let (r, tries, q, (slots, _)) = copy_mask16-Filled zalloc_ok grants 256 mask 0 1 zero_16 in
      (
        record { ip = t.ip; depth = t.depth; itemcount = t.itemcount; contents = some (depth1 r) },
        depth1 r,
        rw (q, copy_data) refl,
        refl,
        refl,
        refl,
        λ page_size copy_ok net_ip.
            copy_16_same page_size copy_ok 256 mask r net_ip 0 0
              (record { to_user = []; tmpbuf = [] }) (λ j h k. slots j h k (λ e. refl)),
      )
  copy_data_same t (depth2 mask) =
      let (r, tries, q, (slots, _)) = copy_mask8-Filled zalloc_ok grants 256 mask 0 1 zero_8 in
      (
        record { ip = t.ip; depth = t.depth; itemcount = t.itemcount; contents = some (depth2 r) },
        depth2 r,
        rw (q, copy_data) refl,
        refl,
        refl,
        refl,
        λ page_size copy_ok net_ip.
            copy_8_same page_size copy_ok 256 mask r net_ip 0 (record { to_user = []; tmpbuf = [] })
              (λ j h k. slots j h k (λ e. refl)),
      )

  -- A read without a flush finds the table that a read with a flush finds.
  prepare_read_lem :
      (name : List ℕ) (ts ts' : List AccTable) (h' : Handle) (d : AccData)
      → ipt_acc_handle_prepare_read_flush true name ts ≡ some (h', ts')
      → h'.contents ≡ some d
      → (h : Handle) × (c : AccData) × (ipt_acc_handle_prepare_read zalloc_ok name ts ≡ prepared h)
        × (h.contents ≡ some c)
        × (h.ip ≡ h'.ip)
        × (h.itemcount ≡ h'.itemcount)
        × ReadsAs d c
  unfolding ipt_acc_handle_prepare_read ipt_acc_handle_prepare_read_flush
  prepare_read_lem name [] ts' h' d r e = absurd (ground arith)
  prepare_read_lem name (t ∷ ts) ts' h' d r e = elim (Bool-cases (has_name name t)) [
    | inl y ↦
        let k : t.contents ≡ some d = ground arith in
        let (h, c, q, hc, hi, hn, reads) = copy_data_same t d in
        (
          h,
          c,
          rw (y, grants 0, ipt_acc_handle_prepare_read) (ap (copy_data zalloc_ok t) k ∙ q),
          hc,
          hi ∙ ground arith,
          hn ∙ ground arith,
          reads,
        )
    | inr n ↦ elim (Option-cases (ipt_acc_handle_prepare_read_flush true name ts)) [
      | inl nil ↦ absurd (ground arith)
      | inr ((h2, ts2), q2) ↦
          let k : h2 ≡ h' = ground arith in
          let (h, c, q, hc, hi, hn, reads) = prepare_read_lem name ts ts2 h' d (rw (← k) q2) e in
          (h, c, rw (n, ipt_acc_handle_prepare_read) q, hc, hi, hn, reads)
    ]
  ]

  -- If every allocation succeeds, the table that a flushing read finds has data, and the flushing read
  -- gives a handle, then the read without a flush gives a handle with the same count, from which user
  -- space reads the same data, with any page size and any faults of the copy.
  pub prepare_read-prepare_read_flush :
      (name : List ℕ) (ts ts' : List AccTable) (h' : Handle) (d : AccData)
      → ipt_acc_handle_prepare_read_flush true name ts ≡ some (h', ts')
      → h'.contents ≡ some d
      → (h : Handle) × (ipt_acc_handle_prepare_read zalloc_ok name ts ≡ prepared h)
        × (h.itemcount ≡ h'.itemcount)
        × ((page_size : ℕ) (copy_ok : ℕ → ℕ → Bool) (hs : List Handle)
            → ipt_acc_handle_get_data page_size copy_ok (h ∷ hs) 0
              ≡ ipt_acc_handle_get_data page_size copy_ok (h' ∷ hs) 0)
  unfolding ipt_acc_handle_get_data
  prepare_read-prepare_read_flush name ts ts' h' d r e =
      let (h, c, q, hc, hi, hn, reads) = prepare_read_lem name ts ts' h' d r e in
      (
        h,
        q,
        hn,
        λ page_size copy_ok hs.
            rw (hc, hi, e)
              (ap (flush_rest page_size copy_ok) (reads page_size copy_ok (ntohl h'.ip))),
      )
