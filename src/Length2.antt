-- ===== src/Length2.antt =====
-- extensions/xt_length2.c and xt_length2.h: the match on the length of a packet at several layers.
mod Sctp
mod Payload
mod Tests
use xtables_addons.Common.{
  ℕ, zero, suc, ◌+◌, ◌*◌, ◌≡◌, Bool, true, false, ◌&&◌, xor, not, Option, some, none, List, [], ◌∷◌,
  bit_and, ltb, leb, ◌==◌, if◌then◌else◌, has_flag,
}
use xtables_addons.Common.Words.{add32, sub32, ntohs}

-- A chunk header; `length` is the field as it lies in the packet.
pub record Chunk : Type 0 where
  pub type : ℕ
  pub length : ℕ

-- The packet: its length, and what `skb_header_pointer` finds at an offset for each header type,
-- of which TCP and DCCP show their data offset.
pub record SkBuff : Type 0 where
  pub len : ℕ
  pub tcp_doff : ℕ → Option ℕ
  pub dccp_doff : ℕ → Option ℕ
  pub sctp_chunk : ℕ → Option Chunk

pub record MtInfo : Type 0 where
  pub min : ℕ
  pub max : ℕ
  pub flags : ℕ

abbrev pub xt_length_invert : ℕ
xt_length_invert = 1

abbrev pub xt_length_layer3 : ℕ
xt_length_layer3 = 2

abbrev pub xt_length_layer4 : ℕ
xt_length_layer4 = 4

abbrev pub xt_length_layer5 : ℕ
xt_length_layer5 = 8

abbrev pub xt_length_layer7 : ℕ
xt_length_layer7 = 16

-- `*length = skb->len - offset`, less the header if that leaves no negative rest.
strip : ℕ → ℕ → Option ℕ → Option ℕ
strip len offset none = none
strip len offset (some doff) =
    let rest = sub32 len offset in
    some (if leb (4 * doff) rest then sub32 rest (4 * doff) else rest)

-- `none` is the C function's false.
unfoldable pub xtlength_layer5_tcp : SkBuff → ℕ → Option ℕ
unfolding strip
xtlength_layer5_tcp skb offset = strip skb.len offset (skb.tcp_doff offset)

unfoldable pub xtlength_layer5_dccp : SkBuff → ℕ → Option ℕ
unfolding strip
xtlength_layer5_dccp skb offset = strip skb.len offset (skb.dccp_doff offset)

-- The protocol numbers and the header sizes are those of the kernel's headers.
unfoldable pub xtlength_layer5 : SkBuff → ℕ → ℕ → Option ℕ
xtlength_layer5 skb prot offset =
    if prot == 6
    then xtlength_layer5_tcp skb offset
    else if prot == 17
    then some (sub32 (sub32 skb.len offset) 8)
    else if prot == 136
    then some (sub32 (sub32 skb.len offset) 8)
    else if prot == 132
    then some (sub32 (sub32 skb.len offset) 12)
    else if prot == 33
    then xtlength_layer5_dccp skb offset
    else if prot == 1
    then some (sub32 (sub32 skb.len offset) 8)
    else if prot == 58
    then some (sub32 (sub32 skb.len offset) 4)
    else if prot == 51
    then some (sub32 (sub32 skb.len offset) 12)
    else if prot == 50
    then some (sub32 (sub32 skb.len offset) 8)
    else none

-- How the chunk loop ends; `unfinished` means that the fuel ran out.
pub data Walk : Type 0 where
  counted : ℕ → Walk
  truncated : Walk
  unfinished : Walk

abbrev pub sctp_cid_data : ℕ
sctp_cid_data = 0

sctp_round : (ℕ → ℕ → Walk) → ℕ → ℕ → Option Chunk → Walk
sctp_round loop pos length none = truncated
sctp_round loop pos length (some ch) =
    loop (add32 pos (ntohs ch.length))
      (if ch.type == sctp_cid_data then add32 length (ntohs ch.length) else length)

-- One unit of fuel for each test of `pos < skb->len`.
unfoldable pub sctp_loop : ℕ → SkBuff → ℕ → ℕ → ℕ → Walk
unfolding sctp_round
sctp_loop zero skb offset pos length = unfinished
sctp_loop (suc fuel) skb offset pos length =
    let next =
      sctp_round (sctp_loop fuel skb offset) pos length (skb.sctp_chunk (add32 offset pos)) in
    if ltb pos skb.len then next else counted length

unfoldable pub xtlength_layer7_sctp : ℕ → SkBuff → ℕ → Walk
xtlength_layer7_sctp fuel skb offset = sctp_loop fuel skb offset 12 0

walk_of : Option ℕ → Walk
walk_of none = truncated
walk_of (some n) = counted n

unfoldable pub xtlength_layer7 : ℕ → SkBuff → ℕ → ℕ → Walk
unfolding walk_of
xtlength_layer7 fuel skb proto offset =
    if proto == 132
    then xtlength_layer7_sctp fuel skb offset
    else walk_of (xtlength_layer5 skb proto offset)

-- The answer of the match; `none` means that it did not come back within the fuel.
unfoldable pub judge : MtInfo → Walk → Option Bool
judge info unfinished = none
judge info truncated = some false
judge info (counted len) =
    some (xor (leb info.min len && leb len info.max) (has_flag info.flags xt_length_invert))

-- The IPv4 header, as it lies in the packet.
pub record IpHdr : Type 0 where
  pub tot_len : ℕ
  pub protocol : ℕ

unfoldable pub length2_mt : ℕ → MtInfo → IpHdr → ℕ → SkBuff → Option Bool
unfolding walk_of
length2_mt fuel info iph thoff skb = judge info (
    if has_flag info.flags xt_length_layer3
    then counted (ntohs iph.tot_len)
    else if has_flag info.flags xt_length_layer4
    then counted (sub32 (ntohs iph.tot_len) thoff)
    else if has_flag info.flags xt_length_layer5
    then walk_of (xtlength_layer5 skb iph.protocol thoff)
    else if has_flag info.flags xt_length_layer7
    then xtlength_layer7 fuel skb iph.protocol thoff
    else counted 0)

-- What `ipv6_find_hdr` answers for a header type: its offset, -ENOENT, or another error.
pub data FindHdr : Type 0 where
  found_at : ℕ → FindHdr
  enoent : FindHdr
  broken : FindHdr

abbrev pub nexthdr_max : ℕ
nexthdr_max = 255

-- The protocol, the offset and `*hotdrop`.
abbrev pub L4Proto : Type 0
L4Proto = ℕ × ℕ × Bool

first_type : (ℕ → FindHdr) → List ℕ → L4Proto
first_type find [] = (nexthdr_max, 0, false)
first_type find (t ∷ ts) =
    let rest = first_type find ts in
    elim (find t) [
      | found_at offset ↦ (t, offset, false)
      | enoent ↦ rest
      | broken ↦ (nexthdr_max, 0, true)
    ]

unfoldable pub llayer4_proto : (ℕ → FindHdr) → L4Proto
unfolding first_type
llayer4_proto find = first_type find (41 ∷ 4 ∷ 50 ∷ 51 ∷ 1 ∷ 6 ∷ 17 ∷ 136 ∷ 132 ∷ 33 ∷ [])

-- The upper layers of `length2_mt6`, behind `l4proto`.
unfoldable pub upper6 : ℕ → MtInfo → SkBuff → L4Proto → Option Bool
unfolding walk_of
upper6 fuel info skb (l4proto, thoff, hotdrop) =
    if l4proto == nexthdr_max
    then some false
    else judge info (
        if has_flag info.flags xt_length_layer4
        then counted (sub32 skb.len thoff)
        else if has_flag info.flags xt_length_layer5
        then walk_of (xtlength_layer5 skb l4proto thoff)
        else if has_flag info.flags xt_length_layer7
        then xtlength_layer7 fuel skb l4proto thoff
        else counted 0)

-- The answer and `par->hotdrop`; `payload_len` is the field as it lies in the packet.
unfoldable pub length2_mt6 : ℕ → MtInfo → ℕ → (ℕ → FindHdr) → SkBuff → Option Bool × Bool
length2_mt6 fuel info payload_len find skb =
    let layer3 = if payload_len == 0 then skb.len else add32 40 (ntohs payload_len) in
    let l4 = llayer4_proto find in
    if has_flag info.flags xt_length_layer3
    then (judge info (counted layer3), false)
    else (upper6 fuel info skb l4, l4.2)
