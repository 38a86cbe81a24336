-- ===== src/Psd/Table.antt =====
-- The table of source addresses of psd (extensions/xt_psd.c): an array of entries that are replaced
-- in turn, and the hash chains through them. A pointer to an entry is its place in the array; a chain
-- is the places from the head along `next`.
pub mod Order
pub mod Kept
pub mod Packets
pub mod Verdict
use xtables_addons.Common.{
  ℕ, zero, suc, ◌+◌, ◌-◌, ◌/◌, Bool, true, false, not, ◌&&◌, ◌||◌, Option, some, none, List, [],
  ◌∷◌, ◌++◌, leb, ◌==◌, if◌then◌else◌, length, bit_xor, bit_and,
}
use xtables_addons.Psd.Scan.{
  PsdInfo, TcpHdr, Host, ipproto_tcp, is_portscan, entry_is_recent, new_host,
}

abbrev pub list_size : ℕ
list_size = 0x100

abbrev pub hash_max : ℕ
hash_max = 0x10

-- What the code for the two address families does with an address.
pub record Address (A : Type 0) : Type 0 where
  pub any : A
  pub is_any : A → Bool
  pub equal : A → A → Bool
  pub hash : A → ℕ

-- struct host4 and struct host6
pub record Entry (A : Type 0) : Type 0 where
  pub saddr : A
  pub host : Host

-- `state` and `state6`
pub record State (A : Type 0) : Type 0 where
  pub list : ℕ → Entry A
  pub chain : ℕ → List ℕ
  pub index : ℕ

abbrev pub set_at : {B : Type 0} → (ℕ → B) → ℕ → B → ℕ → B
set_at f i b j = if j == i then b else f j

-- The `do` loop of `hashfunc`; a 32-bit word takes four rounds of nine bits.
hash_loop : ℕ → ℕ → ℕ → ℕ
hash_loop zero value hash = hash
hash_loop (suc n) value hash =
    let next = bit_xor hash value in
    let rest = hash_loop n (value / 512) next in if value / 512 == 0 then next else rest

unfoldable pub hashfunc : ℕ → ℕ
unfolding hash_loop
hashfunc addr = bit_and (hash_loop 4 addr 0) 511

-- The walk to an address: what stands before it, its place and what stands behind.
pub data Walk : Type 0 where
  missing : Walk
  at_place : List ℕ → ℕ → List ℕ → Walk

abbrev pub past : ℕ → Walk → Walk
past i missing = missing
past i (at_place before j behind) = at_place (i ∷ before) j behind

-- `last` behind a walk to the end: `host_get_next` sets it only where there is a next entry.
unfoldable pub last_of : List ℕ → Option ℕ
last_of [] = none
last_of (i ∷ []) = none
last_of (i ∷ j ∷ c) = if length c == 0 then some i else last_of (j ∷ c)

-- `last->next = NULL`
unfoldable pub cut_behind : ℕ → List ℕ → List ℕ
cut_behind l [] = []
cut_behind l (i ∷ c) = if i == l then i ∷ [] else i ∷ cut_behind l c

-- `remove_oldest` from the head of a chain
unfoldable pub remove_oldest : ℕ → List ℕ → List ℕ
remove_oldest curr [] = []
remove_oldest curr (i ∷ c) = if i == curr then c else i ∷ remove_oldest curr c

-- `remove_oldest` from the variable `last` on; where the entry is `last` itself only the variable
-- changes.
unfoldable pub remove_from_last : ℕ → Option ℕ → List ℕ → List ℕ
remove_from_last curr none c = c
remove_from_last curr (some l) [] = []
remove_from_last curr (some l) (i ∷ c) =
    if i == l
    then (if curr == l then i ∷ c else i ∷ remove_oldest curr c)
    else i ∷ remove_from_last curr (some l) c

module _ {A : Type 0} (address : Address A) where
  unfoldable pub find_host : A → (ℕ → Entry A) → List ℕ → Walk
  find_host saddr list [] = missing
  find_host saddr list (i ∷ c) =
      if address.equal (list i).saddr saddr
      then at_place [] i c
      else past i (find_host saddr list c)

  -- The oldest entry leaves its chain: what the code does through `head`.
  pub release : ℕ → Option ℕ → State A → State A
  release hash last s =
      let curr = s.index in
      let old = (s.list curr).saddr in
      if not (address.is_any old)
      then record s {
        chain = set_at s.chain (address.hash old) (remove_oldest curr (s.chain (address.hash old)));
      }
      else record s { chain = set_at s.chain hash (remove_from_last curr last (s.chain hash)) }

  -- The oldest entry is filled in anew and becomes the head of the chain.
  pub link : ℕ → PsdInfo → TcpHdr → ℕ → A → ℕ → State A → State A
  link now psdinfo tcph proto saddr hash s = record {
    list = set_at s.list s.index (record { saddr = saddr; host = new_host now psdinfo tcph proto });
    chain = set_at s.chain hash (s.index ∷ s.chain hash);
    index = if leb list_size (s.index + 1) then 0 else s.index + 1;
  }

  -- Too many addresses with one hash: the oldest is cut off.
  pub shorten : ℕ → ℕ → Option ℕ → State A → State A
  shorten hash count none s = s
  shorten hash count (some l) s =
      if leb hash_max count
      then record s { chain = set_at s.chain hash (cut_behind l (s.chain hash)) }
      else s

  -- From the test of ACK on.
  new_source : ℕ → PsdInfo → TcpHdr → ℕ → A → ℕ → ℕ → Option ℕ → State A → Bool × State A
  new_source now psdinfo tcph proto saddr hash count last s =
      if (proto == ipproto_tcp) && tcph.ack then (false, s) else (
        false,
        link now psdinfo tcph proto saddr hash (release hash last (shorten hash count last s)),
      )

  pub scanned : ℕ → State A → Bool × Host → Bool × State A
  scanned i s (ret, host) =
      (ret, record s { list = set_at s.list i (record (s.list i) { host = host }) })

  -- An entry that is too old is marked unused and leaves its chain.
  expire : ℕ → List ℕ → ℕ → List ℕ → State A → State A
  expire hash before i behind s = record s {
    list = set_at s.list i (record (s.list i) { saddr = address.any });
    chain = set_at s.chain hash (before ++ behind);
  }

  on_walk : ℕ → ℕ → PsdInfo → TcpHdr → ℕ → A → ℕ → State A → Walk → Bool × State A
  on_walk hz now psdinfo tcph proto saddr hash s missing =
      new_source now psdinfo tcph proto saddr hash (length (s.chain hash)) (last_of (s.chain hash))
        s
  on_walk hz now psdinfo tcph proto saddr hash s (at_place before i behind) =
      if entry_is_recent hz (s.list i).host psdinfo.delay_threshold now
      then scanned i s (is_portscan now psdinfo tcph proto (s.list i).host)
      else new_source now psdinfo tcph proto saddr hash (length before) none
          (expire hash before i behind s)

  unfoldable pub handle_packet : ℕ → ℕ → PsdInfo → TcpHdr → ℕ → A → ℕ → State A → Bool × State A
  unfolding on_walk scanned expire new_source shorten release link
  handle_packet hz now psdinfo tcph proto saddr hash s =
      on_walk hz now psdinfo tcph proto saddr hash s (find_host saddr s.list (s.chain hash))
