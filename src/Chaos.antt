-- ===== src/Chaos.antt =====
-- The DELUDE target (extensions/xt_DELUDE.c) and the CHAOS target (extensions/xt_CHAOS.c), which calls
-- DELUDE or TARPIT. The header of a reply and the packets are those of Tarpit. The checksum written
-- and the sending itself are not modelled; REJECT and the tcp match are the kernel's, parameters.
pub mod Delude
mod Tests
use xtables_addons.Common.{
  ℕ, ◌+◌, ◌*◌, ◌%◌, ◌/◌, ◌-◌, Bool, true, false, not, ◌&&◌, ◌||◌, Option, some, none, ltb, leb,
  ◌==◌, if◌then◌else◌, bit_and,
}
use xtables_addons.Common.Words.{ntohl, u32_mod}
use xtables_addons.Tarpit.{
  TcpHdr, Random, Variant, xttarpit_tarpit_mode, xttarpit_honeypot_mode, xttarpit_reset_mode,
  other_mode, bit_of,
}
use xtables_addons.Tarpit.Reply.{SkBuff, Kernel, Sent, tcphdr_size, Arrival, tarpit_tg4}

-- A zeroed header with the ports swapped.
abbrev pub fresh : TcpHdr → TcpHdr
fresh oth = record {
  source = oth.dest;
  dest = oth.source;
  seq = 0;
  ack_seq = 0;
  window = 0;
  doff = tcphdr_size / 4;
  urg_ptr = 0;
  fin = false;
  syn = false;
  rst = false;
  psh = false;
  ack = false;
}

-- The acknowledgement of all that the packet holds, on 32 bits.
unfoldable pub acked : SkBuff → TcpHdr → ℕ
acked skb oth = ntohl (
    (ntohl oth.seq
      + bit_of oth.syn
      + bit_of oth.fin
      + skb.len
      + u32_mod
      + u32_mod
      - skb.hdrlen
      - oth.doff * 4)
    % u32_mod)

-- "DELUDE essential part"
unfoldable pub delude_header : SkBuff → TcpHdr → TcpHdr
delude_header skb oth =
    if oth.syn && not oth.ack && not oth.fin
    then record (fresh oth) { syn = true; seq = 0; ack = true; ack_seq = acked skb oth }
    else if not oth.ack
    then record (fresh oth) { rst = true; seq = 0; ack = true; ack_seq = acked skb oth }
    else record (fresh oth) { rst = true; seq = oth.ack_seq; ack = false; ack_seq = 0 }

delude_reply : Kernel → SkBuff → Option TcpHdr → Option Sent
delude_reply kernel skb none = none
delude_reply kernel skb (some oth) =
    if oth.rst
    then none
    else if not kernel.checksum_ok
    then none
    else if not kernel.copy_ok
    then none
    else if not kernel.route_ok
    then none
    else if ltb kernel.mtu (20 + tcphdr_size)
    then none
    else some (record {
      saddr = skb.daddr;
      daddr = skb.saddr;
      id = 0;
      ttl = kernel.hop_limit;
      tcp = delude_header skb oth;
    })

-- What is sent; `is_fragment` says that the fragment offset is not zero. The flag copy_ok of the kernel
-- stands for the memory of the new packet.
unfoldable pub delude_send_reset : Kernel → Bool → SkBuff → Option Sent
unfolding delude_reply
delude_send_reset kernel is_fragment skb =
    if is_fragment then none else delude_reply kernel skb skb.tcp

-- The verdict NF_DROP, and what is sent.
unfoldable pub delude_tg : Kernel → Bool → SkBuff → ℕ × Option Sent
delude_tg kernel is_fragment skb = (0, delude_send_reset kernel is_fragment skb)

-- `variant` of struct xt_chaos_tginfo
abbrev pub xtchaos_normal : ℕ
xtchaos_normal = 0

abbrev pub xtchaos_tarpit : ℕ
xtchaos_tarpit = 1

abbrev pub xtchaos_delude : ℕ
xtchaos_delude = 2

-- NF_INET_LOCAL_OUT, IPPROTO_TCP
abbrev pub local_out : ℕ
local_out = 3

abbrev pub ipproto_tcp : ℕ
ipproto_tcp = 6

-- The module parameters, have_tarpit and have_delude, the words that prandom_u32 returns to the two
-- calls, what the tcp match answers with its hotdrop, and the verdict of REJECT.
pub record Chaos : Type 0 where
  pub have_tarpit : Bool
  pub have_delude : Bool
  pub reject_percentage : ℕ
  pub delude_percentage : ℕ
  pub first_random : ℕ
  pub second_random : ℕ
  pub tcp_matches : Bool
  pub tcp_hotdrop : Bool
  pub reject_verdict : ℕ

-- What xt_TARPIT makes of the byte in `variant` of its own struct xt_tarpit_tginfo.
abbrev pub tarpit_variant : ℕ → Variant
tarpit_variant v =
    if v == 0
    then xttarpit_tarpit_mode
    else if v == 1
    then xttarpit_honeypot_mode
    else if v == 2
    then xttarpit_reset_mode
    else other_mode

-- The other target gets the parameters of this one, its variant with them.
unfoldable pub call_tarpit : Kernel → Random → Arrival → SkBuff → ℕ → Option Sent
call_tarpit kernel random arrival skb variant =
    tarpit_tg4 kernel random (tarpit_variant variant) arrival skb

-- What the target does besides its verdict: DELUDE or TARPIT is called and sends a segment or nothing,
-- REJECT is called, which is the kernel's and answers with ICMP host unreachable, or a target that was
-- not found is called through its NULL pointer.
pub data Effect : Type 0 where
  sent : Option Sent → Effect
  rejected : Effect
  null_target : Effect

unfoldable pub xt_chaos_total : Chaos → Kernel → Random → Arrival → SkBuff → ℕ → Effect
xt_chaos_total chaos kernel random arrival skb variant =
    if not chaos.tcp_matches || chaos.tcp_hotdrop || ltb chaos.delude_percentage chaos.second_random
    then sent none
    else if variant == xtchaos_tarpit
    then (if chaos.have_tarpit
        then sent (call_tarpit kernel random arrival skb variant)
        else null_target)
    else if chaos.have_delude
    then sent (delude_tg kernel arrival.is_fragment skb).1
    else null_target

-- The verdict, 0 for NF_DROP, and what was done besides.
unfoldable pub chaos_tg : Chaos → Kernel → Random → Arrival → SkBuff → ℕ → ℕ → ℕ → ℕ × Effect
chaos_tg chaos kernel random arrival skb protocol hook variant =
    if leb chaos.first_random chaos.reject_percentage
    then (chaos.reject_verdict, rejected)
    else if protocol == ipproto_tcp && not (variant == xtchaos_normal) && not (hook == local_out)
    then (0, xt_chaos_total chaos kernel random arrival skb variant)
    else (0, sent none)

-- Whether a rule is accepted.
unfoldable pub chaos_tg_check : Chaos → ℕ → Bool
chaos_tg_check chaos variant =
    if variant == xtchaos_delude && not chaos.have_delude
    then false
    else not (variant == xtchaos_tarpit && not chaos.have_tarpit)

-- The references taken on the modules of the tcp match and of the three targets.
pub record Modules : Type 0 where
  pub tcp : ℕ
  pub reject : ℕ
  pub tarpit : ℕ
  pub delude : ℕ

-- module_put of the targets that were found.
unfoldable pub put_found : Bool → Bool → Modules → Modules
put_found have_tarpit have_delude modules = record modules {
  tarpit = if have_tarpit then modules.tarpit - 1 else modules.tarpit;
  delude = if have_delude then modules.delude - 1 else modules.delude;
}

-- From the search for TARPIT on: the references, and whether the start succeeds.
unfoldable pub find_targets : Bool → Bool → Bool → Modules → Modules × Bool
unfolding put_found
find_targets tarpit delude registered modules =
    let found : Modules = record modules {
      tarpit = if tarpit then modules.tarpit + 1 else modules.tarpit;
      delude = if delude then modules.delude + 1 else modules.delude;
    } in
    if registered
    then (found, true)
    else (let put : Modules = put_found tarpit delude found in
        (record put { reject = put.reject - 1; tcp = put.tcp - 1 }, false))

-- The start; the tests say which of the four were found, and whether xt_register_target succeeds.
unfoldable pub chaos_tg_init : Bool → Bool → Bool → Bool → Bool → Modules → Modules × Bool
unfolding find_targets
chaos_tg_init tcp reject tarpit delude registered modules =
    if not tcp
    then (modules, false)
    else if not reject
    then (record modules { tcp = modules.tcp + 1 - 1 }, false)
    else find_targets tarpit delude registered
        (record modules { tcp = modules.tcp + 1; reject = modules.reject + 1 })

unfoldable pub chaos_tg_exit : Bool → Bool → Modules → Modules
unfolding put_found
chaos_tg_exit have_tarpit have_delude modules =
    put_found have_tarpit have_delude
      (record modules { tcp = modules.tcp - 1; reject = modules.reject - 1 })
