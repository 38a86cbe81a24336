-- ===== src/Dnetmap/Proc.antt =====
-- The files of DNETMAP under /proc (extensions/xt_DNETMAP.c: dnetmap_tg_proc_write, dnetmap_seq_start
-- and what follows). The parser of addresses `in4_pton` is the kernel's, a parameter.
use xtables_addons.Common.{
  ℕ, ◌+◌, ◌-◌, ◌*◌, ◌/◌, ◌%◌, ◌^◌, Bool, true, false, not, ◌&&◌, ◌||◌, Option, some, none, List, [],
  ◌∷◌, ◌++◌, ltb, leb, ◌==◌, if◌then◌else◌, get_elem?, length, take,
}
use xtables_addons.Common.Words.{u32_mod, u64_mod}
use xtables_addons.Common.Bytes.{span_to}
use xtables_addons.Dnetmap.{
  off_lists, Entry, Net, Env, set_entry, set_prefix, dnetmap_entry_lookup, dnetmap_entry_rlookup,
  dnetmap_addr_in_prefix, first_postnat, unhash, rehash,
}
use xtables_addons.Dnetmap.Rules.{dnetmap_prefix_softflush}
use mathlib.Core.Option as Opt

-- A return value; `fault` is a list operation on a node that is not on the list.
pub data Write : Type 0 where
  written : ℕ → Net → Write
  efault espipe einval fault : Write

-- `in4_pton(src, strlen(src), dst, delim, NULL)`
abbrev pub Pton : Type 0
Pton = List ℕ → ℕ → Option ℕ

abbrev pub newline : ℕ
newline = 10

abbrev pub colon : ℕ
colon = 58

-- `sizeof("+192.168.100.100:200.200.200.200")`
abbrev pub buf_size : ℕ
buf_size = 33

-- The string that `c` points to: the bytes of the user and what stands behind them, ended at the
-- first newline if it is among the bytes of the user.
unfoldable pub line_of : ℕ → List ℕ → List ℕ → List ℕ
line_of size input junk =
    let memory = take size input ++ junk in
    let line = span_to newline memory in if ltb (length line) size then line else span_to 0 memory

unfoldable pub same_bytes : List ℕ → List ℕ → Bool
same_bytes [] [] = true
same_bytes (a ∷ l) (b ∷ m) = (a == b) && same_bytes l m
same_bytes _ _ = false

-- `strchr(c, ':') + 1`
unfoldable pub after_colon : List ℕ → Option (List ℕ)
after_colon [] = none
after_colon (b ∷ l) = if b == colon then some l else after_colon l

-- `*loff += size + 1; return size + 1;`
abbrev pub accepted : ℕ → Option Net → Write
accepted size none = fault
accepted size (some s) = written (size + 1) s

-- `list_del(&e->lru_list)`: a static entry has been taken off before.
unfoldable pub lru_del : ℕ → Net → Option Net
lru_del e s = if (s.entry e).static then none else some (off_lists e s)

-- From `e->prenat_addr=addr1` on; the test is of the flag that the entry had before.
unfoldable pub make_static : Env → ℕ → ℕ → Net → Option Net
make_static env addr1 e s = elim (lru_del e s) [
  | none ↦ none
  | some s' ↦
      rehash env e (set_entry e (record (s'.entry e) { prenat_addr = addr1; static = true }) s')
]

-- The entry for the postnat address: of a binding, which is taken down, or of the prefix.
unfoldable pub entry_for : Env → ℕ → ℕ → Net → Option (ℕ × Net)
entry_for env addr2 p s = elim (dnetmap_entry_rlookup env s addr2) [
  | some e ↦ Opt.map (λ s'. (e, s')) (unhash e s)
  | none ↦ Opt.map (λ e. (e, s)) (first_postnat s.entry addr2 (s.prefix_at p).elist)
]

unfoldable pub add_binding : Env → ℕ → ℕ → ℕ → Net → Option Net
add_binding env addr1 addr2 p s = elim (entry_for env addr2 p s) [
  | none ↦ none
  | some (e, s') ↦ make_static env addr1 e s'
]

unfoldable pub add_checked : Env → ℕ → ℕ → ℕ → ℕ → Net → Write
add_checked env size addr1 addr2 p s =
    if dnetmap_addr_in_prefix s addr1 p || not (dnetmap_addr_in_prefix s addr2 p)
    then einval
    else accepted size (add_binding env addr1 addr2 p s)

-- `c` is behind the sign; `c2` behind the colon
unfoldable pub add_static : Env → Pton → ℕ → List ℕ → ℕ → Net → Write
add_static env in4_pton size c p s = elim (after_colon c) [
  | none ↦ einval
  | some c2 ↦ elim (in4_pton c2 0) [
    | none ↦ einval
    | some addr2 ↦ elim (in4_pton c colon) [
      | none ↦ einval
      | some addr1 ↦ add_checked env size addr1 addr2 p s
    ]
  ]
]

-- The entry of the address goes to the prefix of the file that was written.
unfoldable pub remove_entry : Env → ℕ → ℕ → Net → Option Net
remove_entry env e p s = elim (unhash e s) [
  | none ↦ none
  | some t ↦
      let b = t.entry e in
      let q = t.prefix_at p in
      some (
        set_entry e
          (record b {
            static = false;
            prenat_addr = 0;
            stamp = (env.jiffies + u64_mod - 1) % u64_mod;
          })
          (if b.static then set_prefix p (record q { lru_list = q.lru_list ++ e ∷ [] }) t else t))
]

unfoldable pub remove_binding : Env → Pton → ℕ → List ℕ → ℕ → Net → Write
remove_binding env in4_pton size c p s = elim (in4_pton c 0) [
  | none ↦ einval
  | some addr ↦ elim (dnetmap_entry_rlookup env s addr) [
    | some e ↦ accepted size (remove_entry env e p s)
    | none ↦ elim (dnetmap_entry_lookup env s addr) [
      | some e ↦ accepted size (remove_entry env e p s)
      | none ↦ einval
    ]
  ]
]

-- "persistent"
abbrev pub persistent_word : List ℕ
persistent_word = 112 ∷ 101 ∷ 114 ∷ 115 ∷ 105 ∷ 115 ∷ 116 ∷ 101 ∷ 110 ∷ 116 ∷ []

-- "lush"
abbrev pub lush_word : List ℕ
lush_word = 108 ∷ 117 ∷ 115 ∷ 104 ∷ []

abbrev pub set_persistent : Bool → ℕ → Net → Net
set_persistent on p s = set_prefix p (record (s.prefix_at p) { persistent = on }) s

-- `switch (*c)`, and what follows it
unfoldable pub command : Env → Pton → ℕ → List ℕ → ℕ → Net → Write
command env in4_pton size [] p s = einval
command env in4_pton size (b ∷ c) p s =
    if b == b'f'
    then (if same_bytes c lush_word
        then written size (dnetmap_prefix_softflush env p s)
        else einval)
    else if b == b'-'
    then (if same_bytes c persistent_word
        then written size (set_persistent false p s)
        else remove_binding env in4_pton size c p s)
    else if b == b'+'
    then (if same_bytes c persistent_word
        then written size (set_persistent true p s)
        else add_static env in4_pton size c p s)
    else einval

unfoldable pub dnetmap_tg_proc_write : Env → Pton → Bool → List ℕ → ℕ → List ℕ → ℕ → ℕ → Net → Write
dnetmap_tg_proc_write env in4_pton copy_ok junk size input loff p s =
    let n = if ltb buf_size size then buf_size else size in
    if size == 0
    then written 0 s
    else if not copy_ok
    then efault
    else if not (loff == 0)
    then espipe
    else command env in4_pton n (line_of n input junk) p s

-- dnetmap_seq_start
unfoldable pub seq_start : Net → ℕ → ℕ → Option ℕ
seq_start s p pos = get_elem? (s.prefix_at p).elist pos

-- dnetmap_seq_next: the entry behind `e`
unfoldable pub seq_next : ℕ → List ℕ → Option ℕ
seq_next e [] = none
seq_next e (x ∷ l) = if x == e then get_elem? l 0 else seq_next e l

-- A long integer, by its bits.
abbrev pub is_negative : ℕ → Bool
is_negative x = leb (2 ^ 63) x

-- `(int)x / d` for positive `d`, by its bits
unfoldable pub int_div : ℕ → ℕ → ℕ
int_div x d =
    let w = x % u32_mod in if leb (2 ^ 31) w then (u32_mod - (u32_mod - w) / d) % u32_mod else w / d

-- The line of one entry: the addresses, and for a dynamic one the time left and the last hit.
unfoldable pub dnetmap_seq_show : Env → Entry → ℕ × ℕ × Option (ℕ × ℕ)
dnetmap_seq_show env e = (
  e.prenat_addr,
  e.postnat_addr,
  (if not e.static
      then some (
        int_div (e.stamp + u64_mod - env.jiffies) env.hz,
        (e.stamp + u64_mod - env.jtimeout) % u64_mod / env.hz,
      )
      else none),
)

pub record Stat : Type 0 where
  pub used : ℕ
  pub used_static : ℕ
  pub total : ℕ
  pub sum_ttl : ℕ

unfoldable pub count_entry : Env → Entry → Stat → Stat
count_entry env e a =
    let ttl = (e.stamp + u64_mod - env.jiffies) % u64_mod in
    let b = record a { total = a.total + 1 } in
    if e.prenat_addr == 0
    then b
    else if e.static
    then record b { used_static = a.used_static + 1 }
    else if is_negative ttl
    then b
    else record b { used = a.used + 1; sum_ttl = (a.sum_ttl + ttl) % u64_mod }

unfoldable pub count_entries : Env → (ℕ → Entry) → List ℕ → Stat → Stat
count_entries env entry [] a = a
count_entries env entry (e ∷ l) a = count_entries env entry l (count_entry env (entry e) a)

-- The counts, with the mean time left in place of the sum.
unfoldable pub dnetmap_stat_proc_show : Env → ℕ → Net → Stat
dnetmap_stat_proc_show env p s =
    let zeroed : Stat = record { used = 0; used_static = 0; total = 0; sum_ttl = 0 } in
    let a = count_entries env s.entry (s.prefix_at p).elist zeroed in
    record a { sum_ttl = if ltb 0 a.used then a.sum_ttl / (a.used * env.hz % u32_mod) else 0 }
