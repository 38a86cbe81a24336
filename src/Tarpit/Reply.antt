-- ===== src/Tarpit/Reply.antt =====
-- The reply to a packet (`tarpit_tcp4`, `tarpit_tcp6`, `tarpit_tg4` and `tarpit_tg6` of
-- extensions/xt_TARPIT.c). Checksums and the sending itself are not modelled.
use xtables_addons.Common.{
  ℕ, ◌+◌, ◌-◌, ◌%◌, ◌/◌, Bool, false, not, Option, some, none, ltb, ◌==◌, if◌then◌else◌,
}
use xtables_addons.Common.Words.{u16_mod}
use xtables_addons.Tarpit.{
  Variant, xttarpit_tarpit_mode, xttarpit_honeypot_mode, xttarpit_reset_mode, other_mode, TcpHdr,
  Random, tarpit_generic,
}

-- A packet: its length and that of its IP header, the addresses and the identification, and the TCP
-- header, `none` where it cannot be read.
pub record SkBuff : Type 0 where
  pub len : ℕ
  pub hdrlen : ℕ
  pub saddr : ℕ
  pub daddr : ℕ
  pub id : ℕ
  pub tcp : Option TcpHdr

-- What the kernel says on the way: the checksum, memory for the copy, the route of the reply with its
-- hop limit and the largest packet it takes.
pub record Kernel : Type 0 where
  pub checksum_ok : Bool
  pub copy_ok : Bool
  pub route_ok : Bool
  pub hop_limit : ℕ
  pub mtu : ℕ

pub record Sent : Type 0 where
  pub saddr : ℕ
  pub daddr : ℕ
  pub id : ℕ
  pub ttl : ℕ
  pub tcp : TcpHdr

abbrev pub tcphdr_size : ℕ
tcphdr_size = 20

-- The copied header with the ports swapped, no options, and all flags reset.
abbrev pub blank : TcpHdr → TcpHdr
blank oth = record oth {
  source = oth.dest;
  dest = oth.source;
  doff = tcphdr_size / 4;
  urg_ptr = 0;
  fin = false;
  syn = false;
  rst = false;
  psh = false;
  ack = false;
}

-- `~oldhdr->id + 1` in the honeypot, 0 else
abbrev pub reply_id : Variant → ℕ → ℕ
reply_id xttarpit_tarpit_mode id = 0
reply_id xttarpit_honeypot_mode id = (u16_mod - id) % u16_mod
reply_id xttarpit_reset_mode id = 0
reply_id other_mode id = 0

abbrev pub reply_ttl : Variant → ℕ → ℕ
reply_ttl xttarpit_tarpit_mode hop_limit = hop_limit
reply_ttl xttarpit_honeypot_mode hop_limit = 128
reply_ttl xttarpit_reset_mode hop_limit = hop_limit
reply_ttl other_mode hop_limit = hop_limit

send4 : Kernel → Variant → SkBuff → Option TcpHdr → Option Sent
send4 kernel mode skb none = none
send4 kernel mode skb (some tcph) =
    if not kernel.route_ok
    then none
    else if ltb kernel.mtu (skb.hdrlen + tcphdr_size)
    then none
    else some (record {
      saddr = skb.daddr;
      daddr = skb.saddr;
      id = reply_id mode skb.id;
      ttl = reply_ttl mode kernel.hop_limit;
      tcp = tcph;
    })

reply4 : Kernel → Random → Variant → SkBuff → Option TcpHdr → Option Sent
reply4 kernel random mode skb none = none
reply4 kernel random mode skb (some oth) =
    if not kernel.checksum_ok
    then none
    else if not kernel.copy_ok
    then none
    else send4 kernel mode skb (
        tarpit_generic random (blank oth) oth
          ((skb.len + u16_mod - skb.hdrlen - tcphdr_size) % u16_mod) mode)

unfoldable pub tarpit_tcp4 : Kernel → Random → Variant → SkBuff → Option Sent
unfolding reply4 send4
tarpit_tcp4 kernel random mode skb =
    if ltb skb.len (skb.hdrlen + tcphdr_size) then none else reply4 kernel random mode skb skb.tcp

unfoldable pub send6 : Kernel → Variant → SkBuff → TcpHdr → Option TcpHdr → Option Sent
send6 kernel mode skb tcph none = none
send6 kernel mode skb tcph (some oth) =
    if not kernel.route_ok
    then none
    else some (record {
      saddr = skb.daddr;
      daddr = skb.saddr;
      id = 0;
      ttl = reply_ttl mode kernel.hop_limit;
      tcp = tcph;
    })

-- The call of `tarpit_generic` has the header of the packet in the place of the reply's.
unfoldable pub reply6 : Kernel → Random → Variant → SkBuff → Option TcpHdr → Option Sent
reply6 kernel random mode skb none = none
reply6 kernel random mode skb (some oth) =
    if not kernel.checksum_ok
    then none
    else if not kernel.copy_ok
    then none
    else send6 kernel mode skb (blank oth) (tarpit_generic random oth (blank oth) 0 mode)

-- For a packet of TCP that is no fragment; an address stands for the four words of it.
unfoldable pub tarpit_tcp6 : Kernel → Random → Variant → SkBuff → Option Sent
unfolding reply6 send6
tarpit_tcp6 kernel random mode skb =
    if ltb skb.len (skb.hdrlen + tcphdr_size) then none else reply6 kernel random mode skb skb.tcp

-- How a packet came in: whether it has an input route, is for this host, was broadcast or multicast,
-- is a fragment, and, for IPv6, where its TCP header starts and whether both addresses are unicast.
pub record Arrival : Type 0 where
  pub has_route : Bool
  pub is_host : Bool
  pub is_spread : Bool
  pub is_fragment : Bool
  pub transport_at : ℕ
  pub is_unicast : Bool

-- What is sent; the packet itself is dropped in any case.
unfoldable pub tarpit_tg4 : Kernel → Random → Variant → Arrival → SkBuff → Option Sent
tarpit_tg4 kernel random mode arrival skb =
    if not arrival.has_route
    then none
    else if not arrival.is_host
    then none
    else if arrival.is_spread
    then none
    else if not (skb.hdrlen == 20)
    then none
    else if arrival.is_fragment
    then none
    else tarpit_tcp4 kernel random mode skb

unfoldable pub tarpit_tg6 : Kernel → Random → Variant → Arrival → SkBuff → Option Sent
tarpit_tg6 kernel random mode arrival skb =
    if not arrival.has_route
    then none
    else if not arrival.is_host
    then none
    else if not (arrival.transport_at == 40)
    then none
    else if not arrival.is_unicast
    then none
    else tarpit_tcp6 kernel random mode skb
