-- ===== src/Length2/Tests.antt =====
-- Runs of the length match (extensions/xt_length2.c), and the theorems at concrete packets.
use xtables_addons.Common.{
  ℕ, ◌≡◌, refl, true, false, xor, Option, some, none, arith, ◌+◌, ◌*◌, List, [], ◌∷◌, get_elem?,
}
use xtables_addons.Common.Words.{ntohs}
use xtables_addons.Length2.{
  SkBuff, Chunk, MtInfo, IpHdr, length2_mt, xtlength_layer5, xtlength_layer5_tcp, sctp_loop,
  xtlength_layer7, xtlength_layer7_sctp, judge,
}
use xtables_addons.Length2.Sctp.{
  IsIntact, ended, chunk, IsLayer7, length2_mt_sctp_missed, length2_mt_sctp_endless,
}
use xtables_addons.Length2.Payload.{tcp, xtlength_layer5-payload}

abbrev tcp_packet : SkBuff
tcp_packet = record {
  len = 100;
  tcp_doff = λ o. some 8;
  dccp_doff = λ o. none;
  sctp_chunk = λ o. none;
}

-- The bytes of a packet: 20 of IPv4, 12 of SCTP header, and a DATA chunk of 20.
abbrev bytes : List ℕ
bytes =
    0x45 ∷ 0 ∷ 0 ∷ 52 ∷ 0 ∷ 0 ∷ 0 ∷ 0 ∷ 64 ∷ 132 ∷ 0 ∷ 0 ∷ 10 ∷ 0 ∷ 0 ∷ 1 ∷ 10 ∷ 0 ∷ 0 ∷ 2 ∷ 0 ∷ 9
    ∷ 0 ∷ 7 ∷ 1 ∷ 2 ∷ 3 ∷ 4 ∷ 5 ∷ 6 ∷ 7 ∷ 8 ∷ 0 ∷ 3 ∷ 0 ∷ 20 ∷ 0 ∷ 0 ∷ 0 ∷ 1 ∷ 0 ∷ 0 ∷ 0 ∷ 0 ∷ 0 ∷ 0
    ∷ 0 ∷ 0 ∷ 97 ∷ 98 ∷ 99 ∷ 100 ∷ []

-- The chunk header that `skb_header_pointer` finds at any place with four bytes behind it.
abbrev header_of : Option ℕ → Option ℕ → Option ℕ → Option Chunk
header_of (some type) (some high) (some low) =
    some (record { type = type; length = high + 256 * low })
header_of other high low = none

abbrev chunk_at : ℕ → Option Chunk
chunk_at offset =
    header_of (get_elem? bytes offset) (get_elem? bytes (offset + 2)) (get_elem? bytes (offset + 3))

abbrev sctp_packet : SkBuff
sctp_packet = record {
  len = 52;
  tcp_doff = λ o. none;
  dccp_doff = λ o. none;
  sctp_chunk = chunk_at;
}

abbrev empty_chunk_packet : SkBuff
empty_chunk_packet = record sctp_packet { sctp_chunk = λ o. some (record { type = 3; length = 0 }) }

abbrev rule : ℕ → MtInfo
rule flags = record { min = 40; max = 60; flags = flags }

abbrev header : ℕ → IpHdr
header protocol = record { tot_len = ntohs 100; protocol = protocol }

layer5_run : length2_mt 0 (rule 8) (header 6) 20 tcp_packet ≡ some true
unfolding length2_mt xtlength_layer5 xtlength_layer5_tcp judge xor
layer5_run = refl

layer7_run : length2_mt 9 (rule 16) (header 132) 20 sctp_packet ≡ some false
unfolding length2_mt xtlength_layer7 xtlength_layer7_sctp sctp_loop judge
layer7_run = refl

xtlength_layer5-payload_example : xtlength_layer5 tcp_packet 6 20 ≡ some 48
xtlength_layer5-payload_example =
    xtlength_layer5-payload tcp_packet 20 6 32 48 (tcp 8 6 32 refl refl refl) (omega arith)
      (omega arith)

abbrev layer7_rule : IsLayer7 (rule 16) (header 132)
layer7_rule = record {
  not_layer3 = refl;
  not_layer4 = refl;
  not_layer5 = refl;
  layer7 = refl;
  sctp = refl;
}

sctp_packet-IsIntact : IsIntact sctp_packet 20 12
sctp_packet-IsIntact =
    chunk (record { type = 0; length = 20 * 256 }) refl (omega arith) (omega arith)
      (ended refl refl)

length2_mt_sctp_missed_example : length2_mt 60 (rule 16) (header 132) 20 sctp_packet ≡ some false
length2_mt_sctp_missed_example =
    length2_mt_sctp_missed 60 (rule 16) (header 132) 20 sctp_packet layer7_rule sctp_packet-IsIntact
      (omega arith) (omega arith) (omega arith) (omega arith)

length2_mt_sctp_endless_example :
    length2_mt 1000 (rule 16) (header 132) 20 empty_chunk_packet ≡ none
length2_mt_sctp_endless_example =
    length2_mt_sctp_endless 1000 (rule 16) (header 132) 20 empty_chunk_packet
      (record { type = 3; length = 0 }) layer7_rule (omega arith) (omega arith) refl refl
