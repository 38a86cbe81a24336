-- ===== src/Dnetmap/Rules.antt =====
-- Rules and namespaces of DNETMAP (extensions/xt_DNETMAP.c: dnetmap_tg_check, dnetmap_tg_destroy and
-- what they call). Memory that is freed is not handed out again. The files under /proc are left out
-- but for the failure to make one, and the names of the files.
use xtables_addons.Common.{
  ℕ, zero, suc, ◌+◌, ◌-◌, ◌*◌, ◌%◌, Bool, false, not, ◌&&◌, Option, some, none, List, [], ◌∷◌, ◌++◌,
  leb, ◌==◌, if◌then◌else◌, has_flag,
}
use xtables_addons.Common.Words.{u32_mod, u64_mod, ntohl}
use xtables_addons.Common.Members.{remove}
use xtables_addons.Dnetmap.{
  NatRange, Entry, Prefix, Net, Env, set_entry, set_prefix, dnetmap_prefix_lookup,
}
use xtables_addons.Dnetmap.Target.{TgInfo, flag_prefix, flag_persistent, map_ips}

-- The entries of a list that are not of the prefix.
unfoldable pub without_prefix : (ℕ → Entry) → ℕ → List ℕ → List ℕ
without_prefix entry p [] = []
without_prefix entry p (e ∷ l) =
    if (entry e).prefix == p then without_prefix entry p l else e ∷ without_prefix entry p l

-- The loop over all buckets.
abbrev pub unhash_prefix : ℕ → Net → Net
unhash_prefix p s = record s {
  entry = λ e. record (s.entry e) { hashed = not ((s.entry e).prefix == p) && (s.entry e).hashed };
  iphash = λ h. without_prefix s.entry p (s.iphash h);
  rev_iphash = λ h. without_prefix s.entry p (s.rev_iphash h);
}

unfoldable pub dnetmap_prefix_destroy : ℕ → Net → Net
dnetmap_prefix_destroy p s =
    let s' = unhash_prefix p s in
    set_prefix p (record (s.prefix_at p) { elist = []; lru_list = [] })
      (record s' { prefixes = remove p s.prefixes })

-- A static entry becomes a dynamic one.
unfoldable pub flush_entry : Env → ℕ → ℕ → Net → Net
flush_entry env p e s =
    let b = s.entry e in
    let q = s.prefix_at p in
    set_entry e
      (record b { static = false; stamp = (env.jiffies + u64_mod - 1) % u64_mod; prenat_addr = 0 })
      (if b.static then set_prefix p (record q { lru_list = q.lru_list ++ e ∷ [] }) s else s)

unfoldable pub flush_entries : Env → ℕ → List ℕ → Net → Net
flush_entries env p [] s = s
flush_entries env p (e ∷ l) s = flush_entries env p l (flush_entry env p e s)

unfoldable pub dnetmap_prefix_softflush : Env → ℕ → Net → Net
dnetmap_prefix_softflush env p s = flush_entries env p (s.prefix_at p).elist (unhash_prefix p s)

-- What the kernel grants while a rule is checked; `entries` is the number of entries that kmalloc
-- grants.
pub record Grants : Type 0 where
  pub kzalloc : Bool
  pub entries : ℕ
  pub proc_data : Bool
  pub proc_stat : Bool

-- The return value 0 or an errno; `locked_out` returns 0 and keeps the mutex; `endless` does not
-- return.
pub data Checked : Type 0 where
  ok einval enomem locked_out endless : Checked

-- `for (ip = ip_min; ip <= ip_max; ip++)` on 32 bits
unfoldable pub add_entries : Env → ℕ → ℕ → ℕ → ℕ → ℕ → Net → Net × Checked
add_entries env zero granted ip ip_max p s = (s, endless)
add_entries env (suc fuel) granted ip ip_max p s =
    let e = s.next in
    let q = s.prefix_at p in
    let b : Entry = record {
      prenat_addr = 0;
      postnat_addr = ntohl ip;
      static = false;
      stamp = env.jiffies;
      prefix = p;
      hashed = false;
    } in
    let s' = set_entry e b (
      set_prefix p (record q { lru_list = q.lru_list ++ e ∷ []; elist = q.elist ++ e ∷ [] })
        (record s { next = suc e })) in
    let rest = add_entries env fuel (granted - 1) ((ip + 1) % u32_mod) ip_max p s' in
    if leb ip ip_max then (if granted == 0 then (s, locked_out) else rest) else (s, ok)

-- `whole_prefix == 0` takes off the first and the last address, on 32 bits.
unfoldable pub ip_first : Env → NatRange → ℕ
ip_first env mr = (ntohl mr.min_addr + (if env.whole_prefix then 0 else 1)) % u32_mod

unfoldable pub ip_last : Env → NatRange → ℕ
ip_last env mr = (ntohl mr.max_addr + u32_mod - (if env.whole_prefix then 0 else 1)) % u32_mod

-- The files of the prefix, and its place at the end of the list.
unfoldable pub publish : Grants → ℕ → Net → Net × Checked
publish granted p s =
    if granted.proc_data && granted.proc_stat
    then (record s { prefixes = s.prefixes ++ p ∷ [] }, ok)
    else (s, enomem)

unfoldable pub publish_if : Grants → ℕ → Net → Checked → Net × Checked
publish_if granted p s ok = publish granted p s
publish_if granted p s other = (s, other)

unfoldable pub new_prefix : Env → Grants → TgInfo → Net → Net × Checked
new_prefix env granted tginfo s =
    let p = s.next in
    let b : Prefix = record {
      range = tginfo.prefix;
      elist = [];
      persistent = has_flag tginfo.flags flag_persistent;
      full = false;
      refcnt = 1;
      lru_list = [];
    } in
    let (t, done) =
      add_entries env u32_mod granted.entries (ip_first env tginfo.prefix)
        (ip_last env tginfo.prefix) p (set_prefix p b (record s { next = suc p })) in
    publish_if granted p t done

unfoldable pub dnetmap_tg_check : Env → Grants → TgInfo → Net → Net × Checked
dnetmap_tg_check env granted tginfo s =
    if not (has_flag tginfo.flags flag_prefix)
    then (s, ok)
    else if not (has_flag tginfo.prefix.flags map_ips)
    then (s, einval)
    else elim (dnetmap_prefix_lookup s tginfo.prefix) [
      | some p ↦
          let b = s.prefix_at p in
          (set_prefix p (record b { refcnt = (b.refcnt + 1) % u32_mod }) s, ok)
      | none ↦ if granted.kzalloc then new_prefix env granted tginfo s else (s, enomem)
    ]

-- `--p->refcnt == 0` and not persistent; `none` is a read through NULL.
unfoldable pub dnetmap_tg_destroy : TgInfo → Net → Option Net
dnetmap_tg_destroy tginfo s =
    if not (has_flag tginfo.flags flag_prefix)
    then some s
    else elim (dnetmap_prefix_lookup s tginfo.prefix) [
      | none ↦ none
      | some p ↦
          let b = s.prefix_at p in
          let s' = set_prefix p (record b { refcnt = (b.refcnt + u32_mod - 1) % u32_mod }) s in
          some (
            if (s'.prefix_at p).refcnt == 0 && not b.persistent
            then dnetmap_prefix_destroy p s'
            else s')
    ]

-- A namespace at its start: no prefix, and each list empty.
unfoldable pub dnetmap_net_init : Bool → Bool → Net → Option Net
dnetmap_net_init kmalloc proc_mkdir s =
    if kmalloc && proc_mkdir
    then some (record s { prefixes = []; iphash = λ _. []; rev_iphash = λ _. [] })
    else none

-- BUG_ON stops the kernel: `none`.
unfoldable pub destroy_all : List ℕ → Net → Option Net
destroy_all [] s = some s
destroy_all (p ∷ l) s =
    let rest = destroy_all l (dnetmap_prefix_destroy p s) in
    if (s.prefix_at p).refcnt == 0 then rest else none

unfoldable pub dnetmap_net_exit : Net → Option Net
dnetmap_net_exit s = destroy_all s.prefixes s

-- `ffs(hash_size) != fls(hash_size) || hash_size <= 0`: one bit is set.
pub record BitSearch : Type 0 where
  pub ffs : ℕ → ℕ
  pub fls : ℕ → ℕ

unfoldable pub checked_hash_size : BitSearch → ℕ → ℕ → ℕ
checked_hash_size bits default_hash_size hash_size =
    if not (not (bits.ffs hash_size == bits.fls hash_size)) && not (hash_size == 0)
    then hash_size
    else default_hash_size

unfoldable pub init_jtimeout : ℕ → ℕ → ℕ
init_jtimeout default_ttl hz = default_ttl * hz % u32_mod
