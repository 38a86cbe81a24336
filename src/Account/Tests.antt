-- ===== src/Account/Tests.antt =====
-- Runs of the ACCOUNT target (extensions/ACCOUNT/xt_ACCOUNT.c), and the theorems at a small network.
use xtables_addons.Common.{
  ℕ, ◌≡◌, refl, Bool, true, ◌&&◌, some, none, [], ◌∷◌, ◌==◌, if◌then◌else◌, arith, inl, inr,
}
use xtables_addons.Common.Words.{ntohl}
use xtables_addons.Account.{AccIp, depth0, zero_ip, zero_24, zero_8}
use xtables_addons.Account.Count.{
  Packet, Acc, slot0, slot1, slot2, ipt_acc_depth0_insert, ipt_acc_depth2_insert,
}
use xtables_addons.Account.Count.View.{view8, counted}
use xtables_addons.Account.Count.View.Deep.{ipt_acc_depth2_insert-counted}
use xtables_addons.Account.Tables.{
  AccTable, zero_table, AccInfo, find_existing, netsize_from, insert_new, ipt_acc_table_insert,
  ipt_acc_checkentry, ipt_acc_destroy,
}
use xtables_addons.Account.Handles.{
  Output, Handle, ipt_acc_handle_copy_data, ipt_acc_handle_find_slot, ipt_acc_handle_free,
  zero_handle,
}
use xtables_addons.Account.Handles.Buffer.{Writes, entries, ipt_acc_handle_copy_data-Writes}
use xtables_addons.Account.Tables.Release.{checkentry_then_destroy}

-- From 10.0.0.1 to 10.0.1.2 in the network 10.0.0.0 of the given mask.
abbrev packet : ℕ → Packet
packet netmask = record {
  net_ip = ntohl 0x0a000000;
  netmask = ntohl netmask;
  src_ip = ntohl 0x0a000001;
  dst_ip = ntohl 0x0a000102;
  size = 100;
}

abbrev acc0 : Acc (ℕ → AccIp)
acc0 = record { mask = zero_24; itemcount = 0; tries = 0 }

source_test :
    (ipt_acc_depth0_insert (packet 0xffffff00) acc0).mask 1
    ≡ record { src_packets = 1; src_bytes = 100; dst_packets = 0; dst_bytes = 0 }
unfolding ipt_acc_depth0_insert
source_test = refl

abbrev always : ℕ → Bool
always n = true

always_lem : (n : ℕ) → always n ≡ true
always_lem n = refl

ipt_acc_depth2_insert-counted_example :
    view8
      (ipt_acc_depth2_insert always
        (packet 0xff000000)
        (record { mask = zero_8; itemcount = 0; tries = 0 })).mask
      0
      1
      2
    ≡ counted
        (packet 0xff000000)
        ((0 == slot2 (packet 0xff000000).src_ip)
          && ((1 == slot1 (packet 0xff000000).src_ip) && (2 == slot0 (packet 0xff000000).src_ip)))
        ((0 == slot2 (packet 0xff000000).dst_ip)
          && ((1 == slot1 (packet 0xff000000).dst_ip) && (2 == slot0 (packet 0xff000000).dst_ip)))
        (view8 zero_8 0 1 2)
ipt_acc_depth2_insert-counted_example =
    ipt_acc_depth2_insert-counted always always_lem (packet 0xff000000) refl 0 1 2
      (record { mask = zero_8; itemcount = 0; tries = 0 })

abbrev info : AccInfo
info = record {
  net_ip = ntohl 0x0a000000;
  net_mask = ntohl 0xffff0000;
  table_name = b'l' ∷ b'a' ∷ b'n' ∷ [];
}

abbrev used : AccTable
used = record {
  name = b'x' ∷ [];
  ip = 0;
  netmask = 0;
  depth = 0;
  refcount = 3;
  itemcount = 0;
  contents = none;
}

accepted_test : (ipt_acc_checkentry true info (used ∷ zero_table ∷ [])).0 ≡ some 1
unfolding ipt_acc_checkentry ipt_acc_table_insert find_existing insert_new
accepted_test = refl

depth_test : netsize_from 32 0xffff0000 ≡ 16
unfolding netsize_from
depth_test = refl

checkentry_then_destroy_example :
    ipt_acc_destroy info.table_name (ipt_acc_checkentry true info (used ∷ zero_table ∷ [])).1
    ≡ used ∷ zero_table ∷ []
checkentry_then_destroy_example =
    checkentry_then_destroy true info (used ∷ zero_table ∷ []) 1
      (inr (refl, omega arith, omega arith), (inl refl, tt)) (omega arith) accepted_test

abbrev never_faults : ℕ → ℕ → Bool
never_faults m n = true

never_faults_lem : (m n : ℕ) → never_faults m n ≡ true
never_faults_lem m n = refl

abbrev nothing : Output
nothing = record { to_user = []; tmpbuf = [] }

abbrev one_used : ℕ → AccIp
one_used = λ i.
    if i == 7
    then record { src_packets = 1; src_bytes = 60; dst_packets = 0; dst_bytes = 0 }
    else zero_ip

ipt_acc_handle_copy_data-Writes_example :
    Writes 4096
      (omega arith)
      nothing
      (entries 256 one_used 0x0a000000 0 0)
      (ipt_acc_handle_copy_data 4096 never_faults one_used 0x0a000000 0 nothing)
ipt_acc_handle_copy_data-Writes_example =
    ipt_acc_handle_copy_data-Writes 4096 (omega arith) never_faults never_faults_lem one_used
      0x0a000000 0 nothing (omega arith)

abbrev busy : Handle
busy = record { ip = 0; depth = 0; itemcount = 0; contents = some (depth0 zero_24) }

slot_test : ipt_acc_handle_find_slot (busy ∷ zero_handle ∷ []) ≡ some 1
unfolding ipt_acc_handle_find_slot
slot_test = refl

free_test : ipt_acc_handle_free (busy ∷ busy ∷ []) 1 ≡ some (busy ∷ zero_handle ∷ [])
unfolding ipt_acc_handle_free
free_test = refl
