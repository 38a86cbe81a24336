-- ===== src/Length2/Payload.antt =====
-- The lengths that the match compares (extensions/xt_length2.c), against packets taken apart.
use xtables_addons.Common.{
  ℕ, ◌+◌, ◌*◌, ◌<◌, ◌≡◌, ◌≢◌, refl, Bool, true, false, xor, ◌&&◌, some, arith, leb, ◌==◌, has_flag,
  not, List, [], ◌∷◌,
}
use xtables_addons.Common.Words.{u32_mod}
use xtables_addons.Length2.{
  SkBuff, MtInfo, IpHdr, FindHdr, enoent, xtlength_layer5, xtlength_layer5_tcp,
  xtlength_layer5_dccp, length2_mt, judge, llayer4_proto, length2_mt6, upper6, first_type,
  nexthdr_max, xt_length_invert, xt_length_layer3, xt_length_layer4, xt_length_layer5,
}

-- A transport header at an offset, with the size that the packet gives it.
pub data Header (skb : SkBuff) (offset : ℕ) : ℕ → ℕ → Type 0 where
  tcp :
      (doff prot size : ℕ)
      → prot ≡ 6
      → size ≡ 4 * doff
      → skb.tcp_doff offset ≡ some doff
      → Header skb offset prot size
  dccp :
      (doff prot size : ℕ)
      → prot ≡ 33
      → size ≡ 4 * doff
      → skb.dccp_doff offset ≡ some doff
      → Header skb offset prot size
  udp : (prot size : ℕ) → prot ≡ 17 → size ≡ 8 → Header skb offset prot size
  udplite : (prot size : ℕ) → prot ≡ 136 → size ≡ 8 → Header skb offset prot size
  icmp : (prot size : ℕ) → prot ≡ 1 → size ≡ 8 → Header skb offset prot size
  icmpv6 : (prot size : ℕ) → prot ≡ 58 → size ≡ 4 → Header skb offset prot size
  ah : (prot size : ℕ) → prot ≡ 51 → size ≡ 12 → Header skb offset prot size
  esp : (prot size : ℕ) → prot ≡ 50 → size ≡ 8 → Header skb offset prot size

-- The layer 5 length of a packet that holds `offset` bytes, a whole header of a known protocol and
-- `payload` bytes is `payload`.
pub xtlength_layer5-payload :
    (skb : SkBuff) (offset prot size payload : ℕ)
    → Header skb offset prot size
    → skb.len ≡ offset + size + payload
    → skb.len < u32_mod
    → xtlength_layer5 skb prot offset ≡ some payload
unfolding xtlength_layer5 xtlength_layer5_tcp xtlength_layer5_dccp
xtlength_layer5-payload skb offset prot size payload (tcp doff _ _ p s h) e l = ground arith
xtlength_layer5-payload skb offset prot size payload (dccp doff _ _ p s h) e l = ground arith
xtlength_layer5-payload skb offset prot size payload (udp _ _ p s) e l = ground arith
xtlength_layer5-payload skb offset prot size payload (udplite _ _ p s) e l = ground arith
xtlength_layer5-payload skb offset prot size payload (icmp _ _ p s) e l = ground arith
xtlength_layer5-payload skb offset prot size payload (icmpv6 _ _ p s) e l = ground arith
xtlength_layer5-payload skb offset prot size payload (ah _ _ p s) e l = ground arith
xtlength_layer5-payload skb offset prot size payload (esp _ _ p s) e l = ground arith

abbrev ne_icmpv6 : List ℕ → Bool
ne_icmpv6 [] = true
ne_icmpv6 (t ∷ ts) = not (t == 58) && ne_icmpv6 ts

-- With `--layer5` the match answers, for such a packet, whether the payload is in the range, turned
-- round by the inversion flag.
pub length2_mt_layer5 :
    (fuel : ℕ) (info : MtInfo) (iph : IpHdr) (thoff size payload : ℕ) (skb : SkBuff)
    → has_flag info.flags xt_length_layer3 ≡ false
    → has_flag info.flags xt_length_layer4 ≡ false
    → has_flag info.flags xt_length_layer5 ≡ true
    → Header skb thoff iph.protocol size
    → skb.len ≡ thoff + size + payload
    → skb.len < u32_mod
    → length2_mt fuel info iph thoff skb
      ≡ some (
          xor (leb info.min payload && leb payload info.max) (has_flag info.flags xt_length_invert))
unfolding length2_mt judge
length2_mt_layer5 fuel info iph thoff size payload skb h3 h4 h5 header e l =
    rw (h3, h4, h5)
      (rw (xtlength_layer5-payload skb thoff iph.protocol size payload header e l) refl)

first_type_none :
    (find : ℕ → FindHdr) (ts : List ℕ)
    → ((type : ℕ) → type ≢ 58 → find type ≡ enoent)
    → ne_icmpv6 ts ≡ true
    → first_type find ts ≡ (nexthdr_max, 0, false)
unfolding first_type
first_type_none find [] only h = refl
first_type_none find (t ∷ ts) only h =
    rw (only t (ground arith), first_type) (first_type_none find ts only (ground arith))

-- An IPv6 packet in which `ipv6_find_hdr` finds only an ICMPv6 header matches no rule but one for
-- layer 3, inverted or not.
length2_mt6_icmpv6_missed :
    (fuel : ℕ) (info : MtInfo) (payload_len : ℕ) (find : ℕ → FindHdr) (skb : SkBuff)
    → ((type : ℕ) → type ≢ 58 → find type ≡ enoent)
    → has_flag info.flags xt_length_layer3 ≡ false
    → length2_mt6 fuel info payload_len find skb ≡ (some false, false)
unfolding length2_mt6 llayer4_proto upper6
length2_mt6_icmpv6_missed fuel info payload_len find skb only h3 =
    rw (h3, first_type_none find _ only refl) refl
