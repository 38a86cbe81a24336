-- ===== src/Account/Handles/Snapshot.antt =====
-- The read of a table without a flush (extensions/ACCOUNT/xt_ACCOUNT.c: ipt_acc_handle_prepare_read):
-- the copy of the pages of a table into new ones. An oracle says which allocations succeed.
use xtables_addons.Common.{
  ℕ, zero, suc, ◌+◌, Bool, Option, some, none, List, [], ◌∷◌, ◌==◌, if◌then◌else◌,
}
use xtables_addons.Account.{Mask16, Mask8, AccData, depth0, depth1, depth2, zero_16, zero_8}
use xtables_addons.Account.Tables.{AccTable, has_name}
use xtables_addons.Account.Handles.{Handle}

-- A write to one slot of a page.
abbrev pub set_slot : {A : Type 0} → (ℕ → A) → ℕ → A → ℕ → A
set_slot f i a j = if j == i then a else f j

-- A copy, with the number of allocations; out of memory at a slot, where the pages of the copy are
-- freed; or out of memory in the inner loop at a slot, where the pages of the table behind that slot
-- are freed with the copy, which has their pointers.
pub data Copy (A : Type 0) : Type 0 where
  copied : A → ℕ → Copy A
  failed_at : ℕ → Copy A
  live_freed : ℕ → ℕ → Copy A

-- The loop over the slots of a 16-bit network from `b` on, `n` in number; `tries` counts the
-- allocations.
unfoldable pub copy_mask16 : (ℕ → Bool) → ℕ → Mask16 → ℕ → ℕ → Mask16 → Copy Mask16
copy_mask16 zalloc_ok zero src b tries dst = copied dst tries
copy_mask16 zalloc_ok (suc n) src b tries dst = elim (src b) [
  | none ↦ copy_mask16 zalloc_ok n src (b + 1) tries dst
  | some page ↦
      let rest = copy_mask16 zalloc_ok n src (b + 1) (tries + 1) (set_slot dst b (some page)) in
      if zalloc_ok tries then rest else failed_at b
]

-- The loop over the slots of a 24-bit network. The new page gets the pointers of the table's page
-- before the inner loop replaces them one by one.
unfoldable pub copy_mask8 : (ℕ → Bool) → ℕ → Mask8 → ℕ → ℕ → Mask8 → Copy Mask8
copy_mask8 zalloc_ok zero src a tries dst = copied dst tries
copy_mask8 zalloc_ok (suc n) src a tries dst = elim (src a) [
  | none ↦ copy_mask8 zalloc_ok n src (a + 1) tries dst
  | some src_16 ↦ elim (copy_mask16 zalloc_ok 256 src_16 0 (tries + 1) src_16) [
    | failed_at b ↦ if zalloc_ok tries then live_freed a b else failed_at a
    | live_freed a' b ↦ live_freed a' b
    | copied network_16 tries' ↦
        let rest = copy_mask8 zalloc_ok n src (a + 1) tries' (set_slot dst a (some network_16)) in
        if zalloc_ok tries then rest else failed_at a
  ]
]

-- A handle, -1, -1 with pages of the table freed, or a read through the NULL that a slot without a
-- table has for data.
pub data Prepared : Type 0 where
  prepared : Handle → Prepared
  refused fault : Prepared
  refused_freeing : ℕ → ℕ → Prepared

abbrev pub from_copy : {A : Type 0} → (A → AccData) → AccTable → Copy A → Prepared
from_copy root t (failed_at b) = refused
from_copy root t (live_freed a b) = refused_freeing a b
from_copy root t (copied c tries) =
    prepared
      (record { ip = t.ip; depth = t.depth; itemcount = t.itemcount; contents = some (root c) })

-- The recursive copy, behind the allocation of the root page.
unfoldable pub copy_data : (ℕ → Bool) → AccTable → Option AccData → Prepared
copy_data zalloc_ok t none = fault
copy_data zalloc_ok t (some (depth0 page)) = from_copy depth0 t (copied page 1)
copy_data zalloc_ok t (some (depth1 mask)) =
    from_copy depth1 t (copy_mask16 zalloc_ok 256 mask 0 1 zero_16)
copy_data zalloc_ok t (some (depth2 mask)) =
    from_copy depth2 t (copy_mask8 zalloc_ok 256 mask 0 1 zero_8)

unfoldable pub ipt_acc_handle_prepare_read : (ℕ → Bool) → List ℕ → List AccTable → Prepared
ipt_acc_handle_prepare_read zalloc_ok tablename [] = refused
ipt_acc_handle_prepare_read zalloc_ok tablename (t ∷ ts) =
    if has_name tablename t
    then (if zalloc_ok 0 then copy_data zalloc_ok t t.contents else refused)
    else ipt_acc_handle_prepare_read zalloc_ok tablename ts
