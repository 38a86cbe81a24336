-- ===== src/Account/Sockopt.antt =====
-- The socket options of ACCOUNT and the start of a namespace (extensions/ACCOUNT/xt_ACCOUNT.c:
-- ipt_acc_set_ctl, ipt_acc_get_ctl, ipt_acc_net_init). What user space hands over is `none` where
-- copy_from_user faults.
pub mod Names
mod Tests
use xtables_addons.Common.{
  ℕ, zero, suc, ◌+◌, ◌*◌, Bool, true, false, not, ◌||◌, Option, some, none, List, [], ◌∷◌, ◌++◌,
  ltb, leb, ◌==◌, if◌then◌else◌, length, get_elem?,
}
use xtables_addons.Common.Words.{u32_mod}
use xtables_addons.Account.Tables.{AccTable, zero_table, is_free}
use xtables_addons.Account.Handles.{
  Handle, HandleIp, zero_handle, account_max_handles, handle_ip_size, ipt_acc_handle_find_slot,
  ipt_acc_handle_free, ipt_acc_handle_prepare_read_flush, ipt_acc_handle_get_data,
}
use xtables_addons.Account.Handles.Snapshot.{
  Prepared, prepared, refused, fault, refused_freeing, ipt_acc_handle_prepare_read,
}

-- struct ipt_acc_handle_sockopt
pub record HandleSockopt : Type 0 where
  pub handle_nr : ℕ
  pub name : List ℕ
  pub itemcount : ℕ

abbrev pub handle_sockopt_size : ℕ
handle_sockopt_size = 40

-- struct ipt_acc_net
pub record AccNet : Type 0 where
  pub ipt_acc_tables : List AccTable
  pub ipt_acc_handles : List Handle

-- The return value, with what was copied to user space; `minus_one` is -1, `stopped` a fault of the
-- kernel, and `einval_freeing` an EINVAL where pages of a table were freed.
pub data Reply : Type 0 where
  eperm einval efault enomem minus_one stopped done : Reply
  einval_freeing : ℕ → ℕ → Reply
  gave_handle : HandleSockopt → Reply
  gave_data : List HandleIp → Reply
  gave_names : List ℕ → Reply

-- The loop over all handles.
unfoldable pub free_all : ℕ → ℕ → List Handle → List Handle
free_all zero i handles = handles
free_all (suc n) i handles = elim (ipt_acc_handle_free handles i) [
  | none ↦ free_all n (i + 1) handles
  | some handles' ↦ free_all n (i + 1) handles'
]

unfoldable pub set_handle_free : ℕ → Option HandleSockopt → AccNet → AccNet × Reply
set_handle_free len none net = (net, einval)
set_handle_free len (some handle) net =
    if not (len == handle_sockopt_size)
    then (net, einval)
    else elim (ipt_acc_handle_free net.ipt_acc_handles handle.handle_nr) [
      | none ↦ (net, einval)
      | some hs ↦ (record net { ipt_acc_handles = hs }, done)
    ]

-- The commands are counted from SO_ACCOUNT_BASE_CTL.
unfoldable pub ipt_acc_set_ctl : Bool → ℕ → ℕ → Option HandleSockopt → AccNet → AccNet × Reply
ipt_acc_set_ctl capable cmd len user net =
    if not capable
    then (net, eperm)
    else if cmd == 1
    then set_handle_free len user net
    else if cmd == 2
    then (record net { ipt_acc_handles = free_all account_max_handles 0 net.ipt_acc_handles }, done)
    else (net, einval)

-- What the kernel grants to a call: its allocations by number, and copies to user space.
pub record Grants : Type 0 where
  pub zalloc_ok : ℕ → Bool
  pub copy_to_ok : Bool
  pub copy_ok : ℕ → ℕ → Bool
  pub page_size : ℕ

abbrev pub put_handle : Handle → ℕ → List Handle → List Handle
put_handle h n [] = []
put_handle h zero (x ∷ hs) = h ∷ hs
put_handle h (suc n) (x ∷ hs) = x ∷ put_handle h n hs

-- "Allocate a userspace handle": where there is none, the data that was read is freed.
unfoldable pub give_handle : Grants → HandleSockopt → Handle → AccNet → AccNet × Reply
give_handle g handle dest net = elim (ipt_acc_handle_find_slot net.ipt_acc_handles) [
  | none ↦ (net, einval)
  | some n ↦ (
    record net { ipt_acc_handles = put_handle dest n net.ipt_acc_handles },
    (if g.copy_to_ok
        then gave_handle (record handle { handle_nr = n; itemcount = dest.itemcount })
        else efault),
  )
]

unfoldable pub after_read : Grants → HandleSockopt → AccNet → Prepared → AccNet × Reply
after_read g handle net (prepared dest) = give_handle g handle dest net
after_read g handle net refused = (net, einval)
after_read g handle net (refused_freeing a b) = (net, einval_freeing a b)
after_read g handle net fault = (net, stopped)

unfoldable pub prepare_flush : Grants → HandleSockopt → AccNet → AccNet × Reply
prepare_flush g handle net =
    elim (ipt_acc_handle_prepare_read_flush (g.zalloc_ok 0) handle.name net.ipt_acc_tables) [
      | none ↦ (net, einval)
      | some (dest, ts) ↦ give_handle g handle dest (record net { ipt_acc_tables = ts })
    ]

unfoldable pub get_prepare : Bool → Grants → ℕ → Option HandleSockopt → AccNet → AccNet × Reply
get_prepare flush g len user net =
    if ltb len handle_sockopt_size then (net, einval) else elim user [
      | none ↦ (net, efault)
      | some handle ↦
          if flush
          then prepare_flush g handle net
          else after_read g handle net
              (ipt_acc_handle_prepare_read g.zalloc_ok handle.name net.ipt_acc_tables)
    ]

-- The test of the room is done before the handle is known to have data.
unfoldable pub get_data : Grants → ℕ → Option HandleSockopt → AccNet → AccNet × Reply
get_data g len none net = (net, if ltb len handle_sockopt_size then einval else efault)
get_data g len (some handle) net =
    if ltb len handle_sockopt_size
    then (net, einval)
    else if leb account_max_handles handle.handle_nr
    then (net, einval)
    else elim (get_elem? net.ipt_acc_handles handle.handle_nr) [
      | none ↦ (net, stopped)
      | some h ↦
          if ltb len (h.itemcount * handle_ip_size)
          then (net, enomem)
          else elim (ipt_acc_handle_get_data g.page_size g.copy_ok net.ipt_acc_handles
              handle.handle_nr) [ none ↦ (net, minus_one) | some es ↦ (net, gave_data es) ]
    ]

unfoldable pub handles_in_use : List Handle → ℕ
handles_in_use [] = 0
handles_in_use (h ∷ hs) = elim h.contents [
  | none ↦ handles_in_use hs
  | some c ↦ suc (handles_in_use hs)
]

-- The rest of the record that is handed out is what stands on the stack.
unfoldable pub get_handle_usage : Grants → ℕ → HandleSockopt → AccNet → AccNet × Reply
get_handle_usage g len junk net = if ltb len handle_sockopt_size then (net, einval) else (
  net,
  (if g.copy_to_ok
      then gave_handle (record junk { itemcount = handles_in_use net.ipt_acc_handles })
      else efault),
)

-- The names with their NULs, one behind the other.
unfoldable pub table_names : List AccTable → List ℕ
table_names [] = []
table_names (t ∷ ts) = if is_free t then table_names ts else t.name ++ 0 ∷ table_names ts

unfoldable pub get_table_names : Grants → ℕ → AccNet → AccNet × Reply
get_table_names g len net =
    let tnames = table_names net.ipt_acc_tables ++ 0 ∷ [] in
    if ltb len (length tnames) || ltb g.page_size (length tnames)
    then (net, enomem)
    else (net, if g.copy_to_ok then gave_names tnames else efault)

unfoldable pub ipt_acc_get_ctl :
    Bool → Grants → ℕ → ℕ → Option HandleSockopt → HandleSockopt → AccNet → AccNet × Reply
ipt_acc_get_ctl capable g cmd len user junk net =
    if not capable
    then (net, eperm)
    else if cmd == 4
    then get_prepare false g len user net
    else if cmd == 5
    then get_prepare true g len user net
    else if cmd == 6
    then get_data g len user net
    else if cmd == 7
    then get_handle_usage g len junk net
    else if cmd == 8
    then get_table_names g len net
    else (net, einval)

abbrev pub copies_of : {A : Type 0} → ℕ → A → List A
copies_of zero a = []
copies_of (suc n) a = a ∷ copies_of n a

-- `none` is -ENOMEM.
unfoldable pub ipt_acc_net_init : Bool → Bool → Bool → ℕ → Option AccNet
ipt_acc_net_init tables_ok handles_ok tmpbuf_ok max_tables_limit =
    if not tables_ok || not handles_ok || not tmpbuf_ok
    then none
    else some (record {
      ipt_acc_tables = copies_of max_tables_limit zero_table;
      ipt_acc_handles = copies_of account_max_handles zero_handle;
    })

-- The arrays go; the pages that they point to stay.
unfoldable pub ipt_acc_net_exit : AccNet → AccNet
ipt_acc_net_exit net = record { ipt_acc_tables = []; ipt_acc_handles = [] }
