-- ===== src/Account/Handles.antt =====
-- Snapshots of tables for user space (extensions/ACCOUNT/xt_ACCOUNT.c): the flushing read of a table
-- into a handle, the handle slots, and the copy of a handle's counters through the page buffer.
pub mod Buffer
pub mod Snapshot
pub mod Filled
pub mod Same
mod Tests
use xtables_addons.Common.{
  ℕ, zero, suc, ◌+◌, ◌-◌, ◌*◌, Bool, true, false, ◌&&◌, Option, some, none, List, [], ◌∷◌, ◌++◌,
  bit_or, leb, ltb, ◌==◌, if◌then◌else◌, length, get_elem?,
}
use xtables_addons.Common.Words.{ntohl}
use xtables_addons.Account.{AccIp, Mask24, Mask16, Mask8, AccData, depth0, depth1, depth2}
use xtables_addons.Account.Tables.{AccTable, has_name, zero_page}

-- struct ipt_acc_handle
pub record Handle : Type 0 where
  pub ip : ℕ
  pub depth : ℕ
  pub itemcount : ℕ
  pub contents : Option AccData

abbrev pub zero_handle : Handle
zero_handle = record { ip = 0; depth = 0; itemcount = 0; contents = none }

abbrev pub account_max_handles : ℕ
account_max_handles = 10

-- The first slot without data.
unfoldable pub ipt_acc_handle_find_slot : List Handle → Option ℕ
ipt_acc_handle_find_slot [] = none
ipt_acc_handle_find_slot (h ∷ hs) = elim h.contents [
  | none ↦ some 0
  | some c ↦ elim (ipt_acc_handle_find_slot hs) [ none ↦ none | some i ↦ some (suc i) ]
]

abbrev pub clear_slot : ℕ → List Handle → List Handle
clear_slot handle [] = []
clear_slot zero (h ∷ hs) = zero_handle ∷ hs
clear_slot (suc handle) (h ∷ hs) = h ∷ clear_slot handle hs

-- `none` is EINVAL.
unfoldable pub ipt_acc_handle_free : List Handle → ℕ → Option (List Handle)
ipt_acc_handle_free handles handle =
    if leb account_max_handles handle then none else some (clear_slot handle handles)

abbrev pub cons_table : AccTable → Option (Handle × List AccTable) → Option (Handle × List AccTable)
cons_table t none = none
cons_table t (some (dest, ts)) = some (dest, t ∷ ts)

-- The table's data goes to the handle, and the table gets an empty page; `none` is -1. The count
-- handed to the caller is the handle's.
unfoldable pub ipt_acc_handle_prepare_read_flush :
    Bool → List ℕ → List AccTable → Option (Handle × List AccTable)
ipt_acc_handle_prepare_read_flush zalloc_ok tablename [] = none
ipt_acc_handle_prepare_read_flush zalloc_ok tablename (t ∷ ts) =
    if has_name tablename t
    then (if zalloc_ok
        then some (
          record { ip = t.ip; depth = t.depth; itemcount = t.itemcount; contents = t.contents },
          record t { itemcount = 0; contents = some (zero_page t.depth) } ∷ ts,
        )
        else none)
    else cons_table t (ipt_acc_handle_prepare_read_flush zalloc_ok tablename ts)

-- struct ipt_acc_handle_ip
pub record HandleIp : Type 0 where
  pub ip : ℕ
  pub counters : AccIp

abbrev pub handle_ip_size : ℕ
handle_ip_size = 40

-- What was copied to user space so far, and what waits in `ipt_acc_tmpbuf`.
pub record Output : Type 0 where
  pub to_user : List HandleIp
  pub tmpbuf : List HandleIp

abbrev pub is_used : AccIp → Bool
is_used a = elim (a.src_packets == 0) [
  | true ↦ elim (a.dst_packets == 0) [ true ↦ false | false ↦ true ]
  | false ↦ true
]

-- The buffer's size and `copy_to_user`, which may fail for a number of entries at a place.
module _ (page_size : ℕ) (copy_ok : ℕ → ℕ → Bool) where
  put_ip : HandleIp → Output → Option Output
  put_ip e out =
      if ltb (length out.tmpbuf * handle_ip_size + handle_ip_size) page_size
      then some (record out { tmpbuf = out.tmpbuf ++ e ∷ [] })
      else if copy_ok (length out.to_user) (length out.tmpbuf)
      then some (record { to_user = out.to_user ++ out.tmpbuf; tmpbuf = e ∷ [] })
      else none

  abbrev and_then : Option Output → (Output → Option Output) → Option Output
  and_then none next = none
  and_then (some out) next = next out

  -- The entries of the slots from `i` on, `n` in number.
  copy_from : ℕ → Mask24 → ℕ → ℕ → ℕ → Output → Option Output
  copy_from zero page net_ip net_or_mask i out = some out
  copy_from (suc n) page net_ip net_or_mask i out =
      and_then
        (if is_used (page i)
          then put_ip (record { ip = bit_or (bit_or net_ip net_or_mask) i; counters = page i }) out
          else some out)
        (copy_from n page net_ip net_or_mask (i + 1))

  unfoldable pub ipt_acc_handle_copy_data : Mask24 → ℕ → ℕ → Output → Option Output
  unfolding copy_from put_ip
  ipt_acc_handle_copy_data page net_ip net_or_mask out = copy_from 256 page net_ip net_or_mask 0 out

  copy_slot_24 : Option Mask24 → ℕ → ℕ → Output → Option Output
  copy_slot_24 none net_ip net_or_mask out = some out
  copy_slot_24 (some page) net_ip net_or_mask out =
      ipt_acc_handle_copy_data page net_ip net_or_mask out

  -- The loop over the slots of a 16-bit network from `b` on; `high` is `a << 16`.
  copy_16 : ℕ → Mask16 → ℕ → ℕ → ℕ → Output → Option Output
  unfolding copy_slot_24
  copy_16 zero mask net_ip high b out = some out
  copy_16 (suc n) mask net_ip high b out =
      and_then (copy_slot_24 (mask b) net_ip (bit_or high (b * 0x100)) out)
        (copy_16 n mask net_ip high (b + 1))

  copy_slot_16 : Option Mask16 → ℕ → ℕ → Output → Option Output
  unfolding copy_16
  copy_slot_16 none net_ip high out = some out
  copy_slot_16 (some mask) net_ip high out = copy_16 256 mask net_ip high 0 out

  copy_8 : ℕ → Mask8 → ℕ → ℕ → Output → Option Output
  unfolding copy_slot_16
  copy_8 zero mask net_ip a out = some out
  copy_8 (suc n) mask net_ip a out =
      and_then (copy_slot_16 (mask a) net_ip (a * 0x10000) out) (copy_8 n mask net_ip (a + 1))

  -- "Flush remaining data to userspace"
  flush_rest : Option Output → Option (List HandleIp)
  flush_rest none = none
  flush_rest (some out) =
      if length out.tmpbuf == 0
      then some out.to_user
      else if copy_ok (length out.to_user) (length out.tmpbuf)
      then some (out.to_user ++ out.tmpbuf)
      else none

  copy_contents : ℕ → Option AccData → Option Output
  unfolding copy_16 copy_8
  copy_contents net_ip none = none
  copy_contents net_ip (some (depth0 page)) =
      ipt_acc_handle_copy_data page net_ip 0 (record { to_user = []; tmpbuf = [] })
  copy_contents net_ip (some (depth1 mask)) =
      copy_16 256 mask net_ip 0 0 (record { to_user = []; tmpbuf = [] })
  copy_contents net_ip (some (depth2 mask)) =
      copy_8 256 mask net_ip 0 (record { to_user = []; tmpbuf = [] })

  -- What user space gets from a handle of the ten; `none` is -1.
  unfoldable pub ipt_acc_handle_get_data : List Handle → ℕ → Option (List HandleIp)
  unfolding copy_contents flush_rest
  ipt_acc_handle_get_data handles handle = elim (get_elem? handles handle) [
    | none ↦ none
    | some h ↦ flush_rest (copy_contents (ntohl h.ip) h.contents)
  ]
