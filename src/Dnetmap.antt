-- ===== src/Dnetmap.antt =====
-- The DNETMAP target (extensions/xt_DNETMAP.c): the entries and prefixes in memory, the hash lists
-- and the operations on them. A pointer to an entry or a prefix is a number. An entry's two hash
-- nodes are on their lists together, which `hashed` tells; its node of the lru list is on the list
-- of its prefix unless the entry is static.
pub mod Target
pub mod Paired
pub mod TwoWay
pub mod Kept
pub mod Rules
pub mod Proc
pub mod Static
pub mod Stands
pub mod Flush
mod Tests
use xtables_addons.Common.{
  ℕ, zero, suc, ◌+◌, ◌-◌, ◌*◌, ◌%◌, ◌^◌, ◌<◌, Bool, true, false, not, ◌&&◌, ◌||◌, Option, some,
  none, List, [], ◌∷◌, ◌++◌, leb, ◌==◌, if◌then◌else◌, bit_and, has_flag,
}
use xtables_addons.Common.Words.{u32_mod, u64_mod, ntohl}
use xtables_addons.Common.Members.{elem, remove}
use mathlib.Core.Option as Opt

-- struct nf_nat_range
pub record NatRange : Type 0 where
  pub flags : ℕ
  pub min_addr : ℕ
  pub max_addr : ℕ
  pub min_proto : ℕ
  pub max_proto : ℕ

-- `memcmp(a, b, sizeof(*a)) == 0`
unfoldable pub same_range : NatRange → NatRange → Bool
same_range a b =
    (a.flags == b.flags)
    && (a.min_addr == b.min_addr)
    && (a.max_addr == b.max_addr)
    && (a.min_proto == b.min_proto)
    && (a.max_proto == b.max_proto)

-- struct dnetmap_entry, with the one bit of `flags` that is used
pub record Entry : Type 0 where
  pub prenat_addr : ℕ
  pub postnat_addr : ℕ
  pub static : Bool
  pub stamp : ℕ
  pub prefix : ℕ
  pub hashed : Bool

-- struct dnetmap_prefix, with the two bits of `flags` that are used
pub record Prefix : Type 0 where
  pub range : NatRange
  pub elist : List ℕ
  pub persistent : Bool
  pub full : Bool
  pub refcnt : ℕ
  pub lru_list : List ℕ

-- struct dnetmap_net, with the memory that its lists stand in; `next` is a place not yet used.
pub record Net : Type 0 where
  pub entry : ℕ → Entry
  pub prefix_at : ℕ → Prefix
  pub prefixes : List ℕ
  pub iphash : ℕ → List ℕ
  pub rev_iphash : ℕ → List ℕ
  pub next : ℕ

-- The module's parameters and the kernel's constants.
pub record Env : Type 0 where
  pub jiffies : ℕ
  pub hz : ℕ
  pub jtimeout : ℕ
  pub hash_size : ℕ
  pub disable_log : Bool
  pub whole_prefix : Bool

abbrev pub set_at : {B : Type 0} → (ℕ → B) → ℕ → B → ℕ → B
set_at f i b j = if j == i then b else f j

abbrev pub set_entry : ℕ → Entry → Net → Net
set_entry e b s = record s { entry = set_at s.entry e b }

abbrev pub set_prefix : ℕ → Prefix → Net → Net
set_prefix p b s = record s { prefix_at = set_at s.prefix_at p b }

unfoldable pub dnetmap_entry_hash : Env → ℕ → ℕ
dnetmap_entry_hash env addr = bit_and (ntohl addr) ((env.hash_size + u32_mod - 1) % u32_mod)

-- The walks of the two lookups.
unfoldable pub first_prenat : (ℕ → Entry) → ℕ → List ℕ → Option ℕ
first_prenat entry addr [] = none
first_prenat entry addr (e ∷ l) =
    if (entry e).prenat_addr == addr then some e else first_prenat entry addr l

unfoldable pub first_postnat : (ℕ → Entry) → ℕ → List ℕ → Option ℕ
first_postnat entry addr [] = none
first_postnat entry addr (e ∷ l) =
    if (entry e).postnat_addr == addr then some e else first_postnat entry addr l

unfoldable pub dnetmap_entry_lookup : Env → Net → ℕ → Option ℕ
dnetmap_entry_lookup env s addr = first_prenat s.entry addr (s.iphash (dnetmap_entry_hash env addr))

unfoldable pub dnetmap_entry_rlookup : Env → Net → ℕ → Option ℕ
dnetmap_entry_rlookup env s addr =
    first_postnat s.entry addr (s.rev_iphash (dnetmap_entry_hash env addr))

unfoldable pub dnetmap_addr_in_prefix : Net → ℕ → ℕ → Bool
dnetmap_addr_in_prefix s addr p = elim (first_postnat s.entry addr (s.prefix_at p).elist) [
  | none ↦ false
  | some e ↦ true
]

-- The walk of `dnetmap_prefix_lookup`.
unfoldable pub first_range : (ℕ → Prefix) → NatRange → List ℕ → Option ℕ
first_range prefix_at mr [] = none
first_range prefix_at mr (p ∷ l) =
    if same_range (prefix_at p).range mr then some p else first_range prefix_at mr l

unfoldable pub dnetmap_prefix_lookup : Net → NatRange → Option ℕ
dnetmap_prefix_lookup s mr = first_range s.prefix_at mr s.prefixes

-- `list_del(&e->glist); list_del(&e->grlist);`
abbrev pub unhashed : ℕ → Net → Net
unhashed e s = record s {
  entry = set_at s.entry e (record (s.entry e) { hashed = false });
  iphash = λ h. remove e (s.iphash h);
  rev_iphash = λ h. remove e (s.rev_iphash h);
}

-- To take a node off that is on no list follows poisoned or unset pointers.
unfoldable pub unhash : ℕ → Net → Option Net
unhash e s = if (s.entry e).hashed then some (unhashed e s) else none

-- `list_add_tail(&e->glist, ...); list_add_tail(&e->grlist, ...);` for the addresses of the entry
abbrev pub rehashed : Env → ℕ → Net → Net
rehashed env e s =
    let i = dnetmap_entry_hash env (s.entry e).prenat_addr in
    let r = dnetmap_entry_hash env (s.entry e).postnat_addr in
    record s {
      entry = set_at s.entry e (record (s.entry e) { hashed = true });
      iphash = set_at s.iphash i (s.iphash i ++ e ∷ []);
      rev_iphash = set_at s.rev_iphash r (s.rev_iphash r ++ e ∷ []);
    }

-- To add a node that is on a list already spoils both lists.
unfoldable pub rehash : Env → ℕ → Net → Option Net
rehash env e s = if (s.entry e).hashed then none else some (rehashed env e s)

-- `list_del(&e->lru_list)`, whichever prefix has the list.
abbrev pub off_lists : ℕ → Net → Net
off_lists e s = record s {
  prefix_at = λ p. record (s.prefix_at p) { lru_list = remove e (s.prefix_at p).lru_list };
}

-- `list_move_tail(&e->lru_list, &p->lru_list)`
abbrev pub move_tail : ℕ → ℕ → Net → Net
move_tail e p s =
    let t = off_lists e s in
    let b = t.prefix_at p in set_prefix p (record b { lru_list = b.lru_list ++ e ∷ [] }) t

-- `(long)(a - b) < 0`
abbrev pub time_before : ℕ → ℕ → Bool
time_before a b = leb (2 ^ 63) ((a + u64_mod - b) % u64_mod)

-- `jiffies + jttl` for a signed 32-bit `jttl`, given by its bits
unfoldable pub later : ℕ → ℕ → ℕ
later now jttl = (now + (if leb (2 ^ 31) jttl then u64_mod - u32_mod + jttl else jttl)) % u64_mod
