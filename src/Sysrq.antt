-- ===== src/Sysrq.antt =====
-- The SYSRQ target (extensions/xt_SYSRQ.c): a UDP payload asks for keys of the system request, with a
-- sequence number and a digest. The hash and the text of an address are the kernel's, parameters.
-- Bytes behind the packet's memory are `outside`.
pub mod Replay
mod Tests
use xtables_addons.Common.{
  ℕ, zero, suc, ◌+◌, ◌-◌, ◌*◌, ◌/◌, ◌%◌, ◌^◌, Bool, true, false, not, ◌&&◌, ◌||◌, Option, some,
  none, List, [], ◌∷◌, ◌++◌, ltb, leb, ◌==◌, if◌then◌else◌, has_flag, length, take,
}
use xtables_addons.Common.Words.{u16_mod, u64_mod, ntohs}
use xtables_addons.Common.Bytes.{span_to, skip}

-- The module's variables; `password` and `digest_password` are C strings, `seqno` a long by its
-- bits.
pub record State : Type 0 where
  pub once : Bool
  pub password : List ℕ
  pub seqno : ℕ
  pub digest_password : List ℕ

-- The kernel's hash, which may fail, its size, and `%pI4` or `%pI6`.
pub record Env : Type 0 where
  pub shash : List ℕ → Option (List ℕ)
  pub digest_size : ℕ
  pub addr_text : ℕ → List ℕ

-- NF_DROP, NF_ACCEPT after the keys were handled, or a read behind the packet.
pub data Verdict : Type 0 where
  nf_drop outside : Verdict
  nf_accept : List ℕ → Verdict

abbrev pub newline : ℕ
newline = 10

abbrev pub comma : ℕ
comma = 44

-- `a < b` on long
abbrev pub slt : ℕ → ℕ → Bool
slt a b = ltb ((a + 2 ^ 63) % u64_mod) ((b + 2 ^ 63) % u64_mod)

-- What the loop over the fields leaves: `n`, `i` and `new_seqno`.
pub record Fields : Type 0 where
  pub place : ℕ
  pub commas : ℕ
  pub number : ℕ

abbrev pub digit_added : ℕ → ℕ → ℕ → ℕ
digit_added i b number =
    if i == 1 && leb 48 b && leb b 57 then (10 * number + (b - 48)) % u64_mod else number

-- `for (n = 0; n < len - 1; ++n)`, the first argument counts the rounds left.
unfoldable pub scan : ℕ → List ℕ → ℕ → ℕ → ℕ → Option Fields
scan zero l i n number = some (record { place = n; commas = i; number = number })
scan (suc k) [] i n number = none
scan (suc k) (b ∷ l) i n number =
    let number' = digit_added i b number in
    let i' = if b == comma then i + 1 else i in
    let rest = scan k l i' (n + 1) number' in
    if b == comma && i' == 3
    then some (record { place = n; commas = 3; number = number' })
    else rest

abbrev pub hex_digit : ℕ → ℕ
hex_digit d = if ltb d 10 then 48 + d else 87 + d

unfoldable pub hexdigest : List ℕ → List ℕ
hexdigest [] = []
hexdigest (b ∷ l) = hex_digit (b / 16 % 16) ∷ hex_digit (b % 16) ∷ hexdigest l

-- `strncmp(data, digest, strlen(digest)) == 0`; `none` is a read outside.
unfoldable pub starts : List ℕ → List ℕ → Option Bool
starts l [] = some true
starts [] (c ∷ m) = none
starts (b ∷ l) (c ∷ m) = let rest = starts l m in if b == c then rest else some false

-- `for (i = 0; i < len && data[i] != ','; ++i)`
unfoldable pub requests : ℕ → List ℕ → List ℕ
requests zero l = []
requests (suc k) [] = []
requests (suc k) (b ∷ l) = if b == comma then [] else b ∷ requests k l

-- From the length test of the digest on.
unfoldable pub with_digest : Env → State → List ℕ → ℕ → ℕ → ℕ → List ℕ → State × Verdict
with_digest env s memory len n number digest =
    let hex = hexdigest (take env.digest_size digest) in
    if ltb (len - n) (env.digest_size * 2)
    then (s, nf_drop)
    else elim (starts (skip n memory) hex) [
      | none ↦ (s, outside)
      | some same ↦
          if same
          then (record s { seqno = number }, nf_accept (requests len memory))
          else (s, nf_drop)
    ]

-- From the test of the commas on, `n` behind the third.
unfoldable pub with_fields : Env → State → List ℕ → ℕ → Fields → State × Verdict
with_fields env s memory len f =
    let n = f.place + 1 in
    if not (f.commas == 3)
    then (s, nf_drop)
    else if not (slt s.seqno f.number)
    then (s, nf_drop)
    else elim (env.shash (take n memory ++ s.digest_password)) [
      | none ↦ (s, nf_drop)
      | some digest ↦ with_digest env s memory len n f.number digest
    ]

unfoldable pub sysrq_tg : Env → List ℕ → ℕ → State → State × Verdict
sysrq_tg env memory len s =
    if length s.password == 0
    then (record s { once = true }, nf_drop)
    else if len == 0
    then (s, nf_drop)
    else elim (scan (len - 1) memory 0 0 0) [
      | none ↦ (record s { password = span_to newline s.password }, outside)
      | some f ↦ with_fields env (record s { password = span_to newline s.password }) memory len f
    ]

-- sysrq_tg of a kernel without the hashes: one key and the password.
unfoldable pub starts_n : ℕ → List ℕ → List ℕ → Option Bool
starts_n zero l m = some true
starts_n (suc k) [] m = none
starts_n (suc k) (b ∷ l) [] = some (b == 0)
starts_n (suc k) (b ∷ l) (c ∷ m) =
    let rest = starts_n k l m in
    if not (b == c) then some false else if b == 0 then some true else rest

unfoldable pub sysrq_tg_plain : List ℕ → ℕ → State → State × Verdict
sysrq_tg_plain [] len s =
    if length s.password == 0
    then (record s { once = true }, nf_drop)
    else (s, if len == 0 then nf_drop else outside)
sysrq_tg_plain (c ∷ memory) len s =
    if length s.password == 0
    then (record s { once = true }, nf_drop)
    else if len == 0
    then (s, nf_drop)
    else elim (starts_n (len - 1) memory s.password) [
      | none ↦ (s, outside)
      | some same ↦ (s, if same then nf_accept (c ∷ []) else nf_drop)
    ]

abbrev pub ipproto_udp : ℕ
ipproto_udp = 17

abbrev pub ipproto_udplite : ℕ
ipproto_udplite = 136

-- What the targets read: `udp_len` is the field of the UDP header, `memory` what stands behind it.
pub record Packet : Type 0 where
  pub linear : Bool
  pub protocol : ℕ
  pub daddr : ℕ
  pub udp_len : ℕ
  pub memory : List ℕ

abbrev pub is_udp : ℕ → Bool
is_udp proto = proto == ipproto_udp || proto == ipproto_udplite

-- The rest of both targets.
unfoldable pub with_udp : Env → Packet → State → State × Verdict
with_udp env p s =
    let len = (ntohs p.udp_len + u16_mod - 8) % u16_mod in
    sysrq_tg env p.memory len
      (record s { digest_password = env.addr_text p.daddr ++ comma ∷ s.password })

unfoldable pub sysrq_tg4 : Env → Packet → State → State × Verdict
sysrq_tg4 env p s =
    if not p.linear
    then (s, nf_drop)
    else if not (is_udp p.protocol)
    then (s, nf_drop)
    else with_udp env p s

-- `found`: ipv6_find_hdr finds a header of UDP or of UDP-Lite; `frag_off` as it leaves it.
unfoldable pub sysrq_tg6 : Env → Bool → ℕ → Packet → State → State × Verdict
sysrq_tg6 env found frag_off p s =
    if not p.linear
    then (s, nf_drop)
    else if not found || ltb 0 frag_off
    then (s, nf_drop)
    else with_udp env p s

abbrev pub xt_inv_proto : ℕ
xt_inv_proto = 0x40

-- NFPROTO_IPV4 is 2, NFPROTO_IPV6 10; whether the rule is accepted.
unfoldable pub sysrq_tg_check : ℕ → ℕ → ℕ → Bool
sysrq_tg_check family proto invflags =
    if family == 2 || family == 10
    then not (not (is_udp proto) || has_flag invflags xt_inv_proto)
    else true

-- The start of the module: which of the hash and the three buffers are granted, and the time. Whether
-- it succeeds, and the first sequence number.
unfoldable pub sysrq_crypto_init : Bool → Bool → Bool → Bool → ℕ → State → State × Bool
sysrq_crypto_init hash digest hexdigest digest_password now s =
    if hash && digest && hexdigest && digest_password
    then (record s { seqno = now }, true)
    else (s, false)
