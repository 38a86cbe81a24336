-- ===== src/Account/Tables.antt =====
-- The tables of a namespace: found or inserted by `ipt_acc_checkentry`, counted in by
-- `ipt_acc_target`, released by `ipt_acc_destroy` (extensions/ACCOUNT/xt_ACCOUNT.c). The array of
-- `max_tables_limit` tables is a list; names are texts up to their NUL.
pub mod Release
use xtables_addons.Common.{
  ℕ, zero, suc, ◌+◌, ◌-◌, ◌%◌, ◌^◌, Bool, true, false, not, ◌&&◌, ◌||◌, Option, some, none, List,
  [], ◌∷◌, bit_and, leb, ◌==◌, if◌then◌else◌, has_flag, take, get_elem?,
}
use xtables_addons.Common.Words.{u32_mod, ntohl, ntohs}
use xtables_addons.Account.{AccData, depth0, depth1, depth2, zero_24, zero_16, zero_8}
use xtables_addons.Account.Count.{
  Packet, Acc, ipt_acc_depth0_insert, ipt_acc_depth1_insert, ipt_acc_depth2_insert,
}

-- struct ipt_acc_table
pub record AccTable : Type 0 where
  pub name : List ℕ
  pub ip : ℕ
  pub netmask : ℕ
  pub depth : ℕ
  pub refcount : ℕ
  pub itemcount : ℕ
  pub contents : Option AccData

abbrev pub zero_table : AccTable
zero_table = record {
  name = [];
  ip = 0;
  netmask = 0;
  depth = 0;
  refcount = 0;
  itemcount = 0;
  contents = none;
}

-- struct ipt_acc_info; `table_nr` is what `ipt_acc_checkentry` returns here.
pub record AccInfo : Type 0 where
  pub net_ip : ℕ
  pub net_mask : ℕ
  pub table_name : List ℕ

abbrev pub table_name_len : ℕ
table_name_len = 32

-- `strncmp` of two texts finds no difference.
abbrev pub same_text : ℕ → List ℕ → List ℕ → Bool
same_text zero s t = true
same_text (suc n) [] [] = true
same_text (suc n) [] (c ∷ t) = false
same_text (suc n) (c ∷ s) [] = false
same_text (suc n) (c ∷ s) (d ∷ t) = (c == d) && same_text n s t

abbrev pub has_name : List ℕ → AccTable → Bool
has_name name t = same_text table_name_len t.name name

-- `name[0] == 0`
abbrev pub is_free : AccTable → Bool
is_free t = elim t.name [ [] ↦ true | c ∷ cs ↦ c == 0 ]

-- The leading one bits of a 32-bit word, from bit `j - 1` on.
unfoldable pub netsize_from : ℕ → ℕ → ℕ
netsize_from zero calc_mask = 0
netsize_from (suc j) calc_mask =
    let rest = netsize_from j calc_mask in if has_flag calc_mask (2 ^ j) then suc rest else 0

abbrev pub calc_depth : ℕ → ℕ → ℕ
calc_depth netsize depth =
    if leb 24 netsize then 0 else if leb 16 netsize then 1 else if leb 8 netsize then 2 else depth

abbrev pub zero_page : ℕ → AccData
zero_page depth =
    if depth == 1 then depth1 zero_16 else if depth == 2 then depth2 zero_8 else depth0 zero_24

-- How the search for a table ends: at a slot, with the tables then; not at all; or with an error.
pub data Found : Type 0 where
  found : ℕ → List AccTable → Found
  missing : Found
  failed : List AccTable → Found

-- One slot further on.
abbrev pub shift : AccTable → Found → Found
shift t (found i ts) = found (suc i) (t ∷ ts)
shift t missing = missing
shift t (failed ts) = failed (t ∷ ts)

unfoldable pub find_existing : AccInfo → List AccTable → Found
find_existing info [] = missing
find_existing info (t ∷ ts) =
    if has_name info.table_name t
    then (if not (t.ip == info.net_ip) || not (t.netmask == info.net_mask)
        then failed (t ∷ ts)
        else found 0 (record t { refcount = (t.refcount + 1) % u32_mod } ∷ ts))
    else shift t (find_existing info ts)

abbrev pub new_table : AccInfo → AccTable → AccTable
new_table info t =
    let depth = calc_depth (netsize_from 32 (ntohl info.net_mask)) t.depth in
    record {
      name = take (table_name_len - 1) info.table_name;
      ip = info.net_ip;
      netmask = info.net_mask;
      depth = depth;
      refcount = (t.refcount + 1) % u32_mod;
      itemcount = t.itemcount;
      contents = some (zero_page depth);
    }

-- A failed allocation zeroes the slot.
unfoldable pub insert_new : Bool → AccInfo → List AccTable → Found
insert_new zalloc_ok info [] = missing
insert_new zalloc_ok info (t ∷ ts) =
    if is_free t
    then (if zalloc_ok then found 0 (new_table info t ∷ ts) else failed (zero_table ∷ ts))
    else shift t (insert_new zalloc_ok info ts)

-- The second loop, where the first one found nothing.
or_new : Bool → AccInfo → List AccTable → Found → Found
or_new zalloc_ok info ts (found i ts') = found i ts'
or_new zalloc_ok info ts (failed ts') = failed ts'
or_new zalloc_ok info ts missing = insert_new zalloc_ok info ts

unfoldable pub ipt_acc_table_insert : Bool → AccInfo → List AccTable → Found
unfolding or_new
ipt_acc_table_insert zalloc_ok info tables =
    or_new zalloc_ok info tables (find_existing info tables)

checked : List AccTable → Found → Option ℕ × List AccTable
checked ts (found i ts') = (some i, ts')
checked ts (failed ts') = (none, ts')
checked ts missing = (none, ts)

-- The table number, or `none` for EINVAL.
unfoldable pub ipt_acc_checkentry : Bool → AccInfo → List AccTable → Option ℕ × List AccTable
unfolding checked
ipt_acc_checkentry zalloc_ok info tables =
    checked tables (ipt_acc_table_insert zalloc_ok info tables)

abbrev pub release : AccTable → AccTable
release t =
    let refcount' = (t.refcount + u32_mod - 1) % u32_mod in
    if refcount' == 0 then zero_table else record t { refcount = refcount' }

unfoldable pub ipt_acc_destroy : List ℕ → List AccTable → List AccTable
ipt_acc_destroy table_name [] = []
ipt_acc_destroy table_name (t ∷ ts) =
    if has_name table_name t then release t ∷ ts else t ∷ ipt_acc_destroy table_name ts

-- The addresses and `tot_len` of a packet's IPv4 header.
pub record IpHdr : Type 0 where
  pub saddr : ℕ
  pub daddr : ℕ
  pub tot_len : ℕ

packet : AccTable → IpHdr → Packet
packet t iph = record {
  net_ip = t.ip;
  netmask = t.netmask;
  src_ip = iph.saddr;
  dst_ip = iph.daddr;
  size = ntohs iph.tot_len;
}

-- The insertion that fits the table's depth; `data` of another depth is not read.
count_in : (ℕ → Bool) → AccTable → Packet → Option AccData → AccTable
count_in zalloc_ok t p (some (depth0 mask)) =
    let r = ipt_acc_depth0_insert p (record { mask = mask; itemcount = t.itemcount; tries = 0 }) in
    record t { itemcount = r.itemcount; contents = some (depth0 r.mask) }
count_in zalloc_ok t p (some (depth1 mask)) =
    let r =
      ipt_acc_depth1_insert zalloc_ok p
        (record { mask = mask; itemcount = t.itemcount; tries = 0 }) in
    record t { itemcount = r.itemcount; contents = some (depth1 r.mask) }
count_in zalloc_ok t p (some (depth2 mask)) =
    let r =
      ipt_acc_depth2_insert zalloc_ok p
        (record { mask = mask; itemcount = t.itemcount; tries = 0 }) in
    record t { itemcount = r.itemcount; contents = some (depth2 r.mask) }
count_in zalloc_ok t p none = t

-- `ipt_acc_target` at the rule's `table_nr`; it always continues.
unfoldable pub ipt_acc_target : (ℕ → Bool) → ℕ → IpHdr → List AccTable → List AccTable
unfolding count_in packet
ipt_acc_target zalloc_ok table_nr iph [] = []
ipt_acc_target zalloc_ok zero iph (t ∷ ts) =
    (if is_free t then t else count_in zalloc_ok t (packet t iph) t.contents) ∷ ts
ipt_acc_target zalloc_ok (suc table_nr) iph (t ∷ ts) = t ∷ ipt_acc_target zalloc_ok table_nr iph ts
