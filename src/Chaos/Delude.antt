-- ===== src/Chaos/Delude.antt =====
-- The replies of DELUDE (extensions/xt_DELUDE.c), alone and called by CHAOS (extensions/xt_CHAOS.c).
use xtables_addons.Common.{
  ℕ, ◌+◌, ◌-◌, ◌*◌, ◌%◌, ◌≡◌, ◌≢◌, ◌≤◌, ◌<◌, ◌⊎◌, Bool, true, false, not, ◌&&◌, some, none, ◌∙◌,
  arith,
}
use xtables_addons.Common.Words.{ntohl, u32_mod, ntohl-ntohl}
use xtables_addons.Tarpit.{TcpHdr, Random, xttarpit_honeypot_mode, bit_of}
use xtables_addons.Tarpit.Reply.{SkBuff, Kernel, Sent, Arrival, tarpit_tg4}
use xtables_addons.Chaos.{
  Chaos, Modules, sent, rejected, null_target, acked, delude_header, delude_reply,
  delude_send_reset, delude_tg, xt_chaos_total, chaos_tg, call_tarpit, xtchaos_tarpit,
  chaos_tg_check, chaos_tg_init, chaos_tg_exit, find_targets, put_found,
}

-- A rule of CHAOS with --tarpit that was accepted never calls a target that was not found, nor DELUDE:
-- it calls REJECT exactly where the first random number is at most reject_percentage, and sends nothing
-- or what TARPIT sends in its honeypot mode where it is above.
pub chaos_tg-honeypot :
    (chaos : Chaos) (kernel : Kernel) (random : Random) (arrival : Arrival) (skb : SkBuff)
    (protocol hook : ℕ)
    → chaos_tg_check chaos xtchaos_tarpit ≡ true
    → let effect = (chaos_tg chaos kernel random arrival skb protocol hook xtchaos_tarpit).1 in
      ((effect ≡ rejected) × (chaos.first_random ≤ chaos.reject_percentage))
      ⊎ ((chaos.reject_percentage < chaos.first_random)
          × ((effect ≡ sent none)
              ⊎ (effect ≡ sent (tarpit_tg4 kernel random xttarpit_honeypot_mode arrival skb))))
unfolding chaos_tg xt_chaos_total call_tarpit delude_tg chaos_tg_check
chaos_tg-honeypot chaos kernel random arrival skb protocol hook accepted = ground arith

-- A rule of CHAOS that was accepted, with one of the three variants, never calls a missing target.
chaos_tg-IsSafe :
    (chaos : Chaos) (kernel : Kernel) (random : Random) (arrival : Arrival) (skb : SkBuff)
    (protocol hook variant : ℕ)
    → chaos_tg_check chaos variant ≡ true
    → variant ≤ 2
    → (chaos_tg chaos kernel random arrival skb protocol hook variant).1 ≢ null_target
unfolding chaos_tg xt_chaos_total call_tarpit delude_tg chaos_tg_check
chaos_tg-IsSafe chaos kernel random arrival skb protocol hook variant accepted low = ground arith

-- The exit gives back what a start took.
chaos_tg_exit-chaos_tg_init :
    (tcp reject tarpit delude registered : Bool) (modules : Modules)
    → ((chaos_tg_init tcp reject tarpit delude registered modules).1 ≡ false)
      ⊎ (chaos_tg_exit tarpit delude (chaos_tg_init tcp reject tarpit delude registered modules).0
          ≡ modules)
unfolding chaos_tg_init find_targets put_found chaos_tg_exit
chaos_tg_exit-chaos_tg_init tcp reject tarpit delude registered modules = ground arith

-- A start that fails leaves every reference as it was.
chaos_tg_init_fails :
    (tcp reject tarpit delude registered : Bool) (modules : Modules)
    → (chaos_tg_init tcp reject tarpit delude registered modules).1 ≡ false
    → (chaos_tg_init tcp reject tarpit delude registered modules).0 ≡ modules
unfolding chaos_tg_init find_targets put_found
chaos_tg_init_fails tcp reject tarpit delude registered modules fails = ground arith

-- The length of a segment after RFC 793: the octets it carries, with SYN and FIN.
abbrev pub seg_len : SkBuff → TcpHdr → ℕ
seg_len skb oth = (skb.len - skb.hdrlen - oth.doff * 4) + bit_of oth.syn + bit_of oth.fin

-- The reset of a closed port after RFC 793, and a SYN/ACK in the place of the reset where a segment
-- opens a connection. The SYN/ACK is numbered as the reset: unlike the one of a listening port in RFC
-- 793 it acknowledges the octets that come with a SYN.
pub record Answers (skb : SkBuff) (oth reply : TcpHdr) : Type 0 where
  pub no_reset : oth.rst ≡ false
  pub back : (reply.source ≡ oth.dest) × (reply.dest ≡ oth.source)
  pub shape : reply.rst ≡ not reply.syn
  pub opens : reply.syn ≡ (oth.syn && not oth.ack && not oth.fin)
  pub numbered : oth.ack ≡ true → (reply.seq ≡ oth.ack_seq) × (reply.ack ≡ false)
  pub acknowledges :
      oth.ack ≡ false
      → (reply.seq ≡ 0)
        × (reply.ack ≡ true)
        × (ntohl reply.ack_seq ≡ (ntohl oth.seq + seg_len skb oth) % u32_mod)

-- The differences on 32 bits, for a packet that holds its headers.
wraps :
    (s syn fin len hdrlen header : ℕ)
    → hdrlen + header ≤ len
    → (s + syn + fin + len + u32_mod + u32_mod - hdrlen - header) % u32_mod
      ≡ (s + (len - hdrlen - header + syn + fin)) % u32_mod
wraps s syn fin len hdrlen header fits = omega arith

acked_lem :
    (skb : SkBuff) (oth : TcpHdr)
    → skb.hdrlen + oth.doff * 4 ≤ skb.len
    → ntohl (acked skb oth) ≡ (ntohl oth.seq + seg_len skb oth) % u32_mod
unfolding acked
acked_lem skb oth fits =
    ntohl-ntohl _ (omega arith)
    ∙ wraps (ntohl oth.seq) (bit_of oth.syn) (bit_of oth.fin) skb.len skb.hdrlen (oth.doff * 4) fits

delude_header-Answers :
    (skb : SkBuff) (oth : TcpHdr)
    → skb.hdrlen + oth.doff * 4 ≤ skb.len
    → oth.rst ≡ false
    → Answers skb oth (delude_header skb oth)
unfolding delude_header
delude_header-Answers skb oth fits alive =
    let number = acked_lem skb oth fits in
    record {
      no_reset = alive;
      back = ground arith;
      shape = ground arith;
      opens = ground arith;
      numbered = λ e. ground arith;
      acknowledges = λ e. ground arith;
    }

-- Where a packet is at least as long as its IP and TCP headers, a reply of DELUDE goes back to the
-- ports of the segment, which is no reset; it is a SYN/ACK with number 0 for a segment with SYN and
-- neither ACK nor FIN, and for any other the reset that RFC 793 asks of a closed port: its number is the
-- acknowledgement of a segment with ACK, and 0 for one without. A reply to a segment without ACK, the
-- SYN/ACK too, acknowledges modulo 2^32 all of the segment: its octets, SYN and FIN.
pub delude_send_reset-Answers :
    (kernel : Kernel) (is_fragment : Bool) (skb : SkBuff) (oth : TcpHdr) (reply : Sent)
    → skb.hdrlen + oth.doff * 4 ≤ skb.len
    → skb.tcp ≡ some oth
    → delude_send_reset kernel is_fragment skb ≡ some reply
    → Answers skb oth reply.tcp
unfolding delude_send_reset delude_reply
delude_send_reset-Answers kernel is_fragment skb oth reply fits header sends =
    let alive : oth.rst ≡ false = ground arith in
    let same : delude_header skb oth ≡ reply.tcp = ground arith in
    rw (← same) (delude_header-Answers skb oth fits alive)
