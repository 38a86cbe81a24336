-- ===== src/Account/Sockopt/Tests.antt =====
-- The table names of ACCOUNT for user space (extensions/ACCOUNT/xt_ACCOUNT.c), at two tables.
use xtables_addons.Common.{ℕ, ◌≡◌, refl, true, some, none, List, [], ◌∷◌, ◌++◌}
use xtables_addons.Account.Tables.{AccTable, zero_table}
use xtables_addons.Account.Handles.{zero_handle}
use xtables_addons.Account.Sockopt.{
  AccNet, Grants, gave_names, done, get_table_names, table_names, ipt_acc_set_ctl,
}
use xtables_addons.Account.Sockopt.Names.{
  all_names, all_texts, has_no_nul, all_names-get_table_names,
}

abbrev named : List ℕ → AccTable
named name = record zero_table { name = name; refcount = 1 }

abbrev net : AccNet
net = record {
  ipt_acc_tables = named (b'a' ∷ b'b' ∷ []) ∷ zero_table ∷ named (b'c' ∷ []) ∷ [];
  ipt_acc_handles = zero_handle ∷ [];
}

abbrev grants : Grants
grants = record {
  zalloc_ok = λ n. true;
  copy_to_ok = true;
  copy_ok = λ m n. true;
  page_size = 4096;
}

abbrev bytes : List ℕ
bytes = b'a' ∷ b'b' ∷ 0 ∷ b'c' ∷ 0 ∷ 0 ∷ []

handed_out : (get_table_names grants 100 net).1 ≡ gave_names bytes
unfolding get_table_names table_names
handed_out = refl

net_texts : all_texts net.ipt_acc_tables ≡ true
unfolding all_texts has_no_nul
net_texts = refl

all_names-get_table_names_example :
    all_names 3 (bytes ++ 77 ∷ []) 0 ≡ some ((b'a' ∷ b'b' ∷ []) ∷ (b'c' ∷ []) ∷ [])
all_names-get_table_names_example =
    all_names-get_table_names grants 100 net bytes (77 ∷ []) net_texts handed_out

all_freed : (ipt_acc_set_ctl true 2 0 none net).1 ≡ done
unfolding ipt_acc_set_ctl
all_freed = refl
