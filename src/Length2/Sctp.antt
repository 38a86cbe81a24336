-- ===== src/Length2/Sctp.antt =====
-- The loop over SCTP chunks in `xtlength_layer7_sctp` (extensions/xt_length2.c).
use xtables_addons.Common.{
  ℕ, zero, suc, ◌+◌, ◌^◌, ◌≤◌, ◌<◌, ◌≡◌, refl, some, none, arith, lt→ltb, has_flag, true, false,
}
use xtables_addons.Common.Words.{add32, ntohs, u32_mod}
use xtables_addons.Length2.{
  SkBuff, Chunk, truncated, unfinished, sctp_loop, xtlength_layer7_sctp, MtInfo, IpHdr, length2_mt,
  xtlength_layer7, judge, xt_length_layer3, xt_length_layer4, xt_length_layer5, xt_length_layer7,
}

-- The chunks from position `pos` behind the SCTP header at `offset` lie one behind the other, none is
-- empty, and the last ends with the packet, where no further header can be read. Lengths that are
-- multiples of four leave no padding, as the loop expects.
pub data IsIntact (skb : SkBuff) (offset : ℕ) : ℕ → Type 0 where
  ended :
      {pos : ℕ}
      → offset + pos ≡ skb.len
      → skb.sctp_chunk (offset + pos) ≡ none
      → IsIntact skb offset pos
  chunk :
      {pos : ℕ} (ch : Chunk)
      → skb.sctp_chunk (offset + pos) ≡ some ch
      → 0 < ntohs ch.length
      → offset + pos + ntohs ch.length ≤ skb.len
      → IsIntact skb offset (pos + ntohs ch.length)
      → IsIntact skb offset pos

module _ (skb : SkBuff) (offset : ℕ) (behind : 0 < offset) (small : skb.len < 2 ^ 31) where
  sctp_loop-truncated :
      (fuel pos length : ℕ)
      → offset + pos ≤ skb.len
      → skb.len < fuel + pos
      → IsIntact skb offset pos
      → sctp_loop fuel skb offset pos length ≡ truncated
  unfolding sctp_loop
  sctp_loop-truncated zero pos length p m intact = absurd (omega arith)
  sctp_loop-truncated (suc fuel) pos length p m (ended at none_left) =
      let here : add32 offset pos ≡ offset + pos = omega arith in
      rw (here, none_left, lt→ltb pos skb.len (omega arith)) refl
  sctp_loop-truncated (suc fuel) pos length p m (chunk ch e filled inside rest) =
      let here : add32 offset pos ≡ offset + pos = omega arith in
      let next : add32 pos (ntohs ch.length) ≡ pos + ntohs ch.length = omega arith in
      rw (here, e, lt→ltb pos skb.len (omega arith), next)
        (sctp_loop-truncated fuel (pos + ntohs ch.length) _ (omega arith) (omega arith) rest)

-- On an intact packet whose SCTP header does not start at the first byte the layer 7 length is
-- never found: the loop ends, and it ends at a chunk that it cannot read.
layer7_sctp_missed :
    (fuel : ℕ) (skb : SkBuff) (offset : ℕ)
    → IsIntact skb offset 12
    → 0 < offset
    → offset + 12 ≤ skb.len
    → skb.len < 2 ^ 31
    → skb.len < fuel
    → xtlength_layer7_sctp fuel skb offset ≡ truncated
unfolding xtlength_layer7_sctp
layer7_sctp_missed fuel skb offset intact behind fits small enough =
    sctp_loop-truncated skb offset behind small fuel 12 0 fits (omega arith) intact

-- A chunk of length zero at a position that the loop reaches keeps it there: no number of rounds
-- ends it.
pub sctp_loop_endless :
    (fuel : ℕ) (skb : SkBuff) (offset pos length : ℕ) (ch : Chunk)
    → skb.len < u32_mod
    → pos < skb.len
    → skb.sctp_chunk (add32 offset pos) ≡ some ch
    → ntohs ch.length ≡ 0
    → sctp_loop fuel skb offset pos length ≡ unfinished
unfolding sctp_loop
sctp_loop_endless zero skb offset pos length ch small p e none_left = refl
sctp_loop_endless (suc fuel) skb offset pos length ch small p e none_left =
    let stays : add32 pos (ntohs ch.length) ≡ pos = omega arith in
    let ih = sctp_loop_endless fuel skb offset pos _ ch small p e none_left in
    rw (e, lt→ltb _ _ p, stays) ih

-- A rule for layer 7 alone on an SCTP packet.
pub record IsLayer7 (info : MtInfo) (iph : IpHdr) : Type 0 where
  pub not_layer3 : has_flag info.flags xt_length_layer3 ≡ false
  pub not_layer4 : has_flag info.flags xt_length_layer4 ≡ false
  pub not_layer5 : has_flag info.flags xt_length_layer5 ≡ false
  pub layer7 : has_flag info.flags xt_length_layer7 ≡ true
  pub sctp : iph.protocol ≡ 132

-- With --layer7 and fuel above the packet's length the match ends and answers false on every SCTP
-- packet below 2^31 bytes whose SCTP header is not at its first byte and whose chunks lie one behind
-- the other, without padding, up to the end of the packet, whatever the range and the inversion.
pub length2_mt_sctp_missed :
    (fuel : ℕ) (info : MtInfo) (iph : IpHdr) (thoff : ℕ) (skb : SkBuff)
    → IsLayer7 info iph
    → IsIntact skb thoff 12
    → 0 < thoff
    → thoff + 12 ≤ skb.len
    → skb.len < 2 ^ 31
    → skb.len < fuel
    → length2_mt fuel info iph thoff skb ≡ some false
unfolding length2_mt xtlength_layer7 judge
length2_mt_sctp_missed fuel info iph thoff skb r intact behind fits small enough =
    rw (r.not_layer3, r.not_layer4, r.not_layer5, r.layer7, r.sctp)
      (rw (layer7_sctp_missed fuel skb thoff intact behind fits small enough) refl)

-- With `--layer7` the match does not come back, for any number of rounds, from a packet whose first
-- SCTP chunk can be read and has length zero.
pub length2_mt_sctp_endless :
    (fuel : ℕ) (info : MtInfo) (iph : IpHdr) (thoff : ℕ) (skb : SkBuff) (ch : Chunk)
    → IsLayer7 info iph
    → 12 < skb.len
    → skb.len < u32_mod
    → skb.sctp_chunk (add32 thoff 12) ≡ some ch
    → ntohs ch.length ≡ 0
    → length2_mt fuel info iph thoff skb ≡ none
unfolding length2_mt xtlength_layer7 xtlength_layer7_sctp judge
length2_mt_sctp_endless fuel info iph thoff skb ch r long small e z =
    rw (r.not_layer3, r.not_layer4, r.not_layer5, r.layer7, r.sctp)
      (rw (sctp_loop_endless fuel skb thoff 12 0 ch small long e z) refl)
