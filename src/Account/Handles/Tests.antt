-- ===== src/Account/Handles/Tests.antt =====
-- Reads of a table of ACCOUNT and of the table names (extensions/ACCOUNT/xt_ACCOUNT.c), and the
-- theorems at a small table.
use xtables_addons.Common.{ℕ, ◌≡◌, refl, Bool, true, some, none, List, [], ◌∷◌, ◌==◌, if◌then◌else◌}
use xtables_addons.Account.{Mask16, depth1, zero_24, zero_16}
use xtables_addons.Account.Tables.{AccTable, zero_table}
use xtables_addons.Account.Handles.{
  Handle, ipt_acc_handle_prepare_read_flush, ipt_acc_handle_get_data,
}
use xtables_addons.Account.Handles.Snapshot.{prepared, ipt_acc_handle_prepare_read}
use xtables_addons.Account.Handles.Same.{prepare_read-prepare_read_flush}
use xtables_addons.Account.Pages.{ipt_acc_data_free, free_mask16}

abbrev always : ℕ → Bool
always n = true

always_lem : (n : ℕ) → always n ≡ true
always_lem n = refl

-- A network of one page.
abbrev one_page : Mask16
one_page b = if b == 3 then some zero_24 else none

abbrev lan : AccTable
lan = record {
  name = b'l' ∷ [];
  ip = 10;
  netmask = 0xffff;
  depth = 1;
  refcount = 1;
  itemcount = 5;
  contents = some (depth1 one_page);
}

abbrev flushed : AccTable
flushed = record lan { itemcount = 0; contents = some (depth1 zero_16) }

abbrev read_handle : Handle
read_handle = record { ip = 10; depth = 1; itemcount = 5; contents = some (depth1 one_page) }

flush_test :
    ipt_acc_handle_prepare_read_flush true (b'l' ∷ []) (zero_table ∷ lan ∷ [])
    ≡ some (read_handle, zero_table ∷ flushed ∷ [])
unfolding ipt_acc_handle_prepare_read_flush
flush_test = refl

prepare_read-prepare_read_flush_example :
    (h : Handle) × (ipt_acc_handle_prepare_read always (b'l' ∷ []) (zero_table ∷ lan ∷ [])
      ≡ prepared h)
    × (h.itemcount ≡ 5)
    × ((page_size : ℕ) (copy_ok : ℕ → ℕ → Bool) (hs : List Handle)
        → ipt_acc_handle_get_data page_size copy_ok (h ∷ hs) 0
          ≡ ipt_acc_handle_get_data page_size copy_ok (read_handle ∷ hs) 0)
prepare_read-prepare_read_flush_example =
    prepare_read-prepare_read_flush always always_lem (b'l' ∷ []) (zero_table ∷ lan ∷ [])
      (zero_table ∷ flushed ∷ []) read_handle (depth1 one_page) flush_test refl

pages_test : ipt_acc_data_free lan.contents ≡ 2
unfolding ipt_acc_data_free free_mask16
pages_test = refl
