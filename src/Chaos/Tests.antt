-- ===== src/Chaos/Tests.antt =====
-- Runs of CHAOS and DELUDE (extensions/xt_CHAOS.c, extensions/xt_DELUDE.c).
use xtables_addons.Common.{◌≡◌, ◌≤◌, ◌<◌, ◌⊎◌, refl, true, false, some, none, arith}
use xtables_addons.Tarpit.{TcpHdr, Random, xttarpit_honeypot_mode}
use xtables_addons.Tarpit.Reply.{SkBuff, Kernel, Sent, Arrival, tarpit_tg4}
use xtables_addons.Chaos.{
  Chaos, sent, rejected, null_target, fresh, acked, delude_header, delude_send_reset,
  xt_chaos_total, chaos_tg, chaos_tg_check, xtchaos_tarpit,
}
use xtables_addons.Chaos.Delude.{Answers, chaos_tg-honeypot, delude_send_reset-Answers}

abbrev segment : TcpHdr
segment = record {
  source = 40000;
  dest = 80;
  seq = 0x01000000;
  ack_seq = 0;
  window = 0xffff;
  doff = 5;
  urg_ptr = 0;
  fin = false;
  syn = true;
  rst = false;
  psh = false;
  ack = false;
}

abbrev skb : SkBuff
skb = record { len = 40; hdrlen = 20; saddr = 1; daddr = 2; id = 7; tcp = some segment }

abbrev kernel : Kernel
kernel = record { checksum_ok = true; copy_ok = true; route_ok = true; hop_limit = 64; mtu = 1500 }

abbrev random : Random
random = record { window = 3; seq = 5 }

abbrev arrival : Arrival
arrival = record {
  has_route = true;
  is_host = true;
  is_spread = false;
  is_fragment = false;
  transport_at = 20;
  is_unicast = true;
}

abbrev chaos : Chaos
chaos = record {
  have_tarpit = true;
  have_delude = false;
  reject_percentage = 42949672;
  delude_percentage = 43379169;
  first_random = 42949673;
  second_random = 7;
  tcp_matches = true;
  tcp_hotdrop = false;
  reject_verdict = 0;
}

accepted : chaos_tg_check chaos xtchaos_tarpit ≡ true
unfolding chaos_tg_check
accepted = refl

chaos_tg-honeypot_example :
    let effect = (chaos_tg chaos kernel random arrival skb 6 1 xtchaos_tarpit).1 in
    ((effect ≡ rejected) × (chaos.first_random ≤ chaos.reject_percentage))
    ⊎ ((chaos.reject_percentage < chaos.first_random)
        × ((effect ≡ sent none)
            ⊎ (effect ≡ sent (tarpit_tg4 kernel random xttarpit_honeypot_mode arrival skb))))
chaos_tg-honeypot_example = chaos_tg-honeypot chaos kernel random arrival skb 6 1 accepted

-- A variant that user space does not write calls DELUDE where it was not found.
unknown_variant :
    (chaos_tg_check chaos 3 ≡ true)
    × ((chaos_tg chaos kernel random arrival skb 6 1 3).1 ≡ null_target)
unfolding chaos_tg_check chaos_tg xt_chaos_total
unknown_variant = (refl, refl)

-- The SYN 1 is answered by a SYN/ACK of 2.
abbrev reply : Sent
reply = record {
  saddr = 2;
  daddr = 1;
  id = 0;
  ttl = 64;
  tcp = record (fresh segment) { syn = true; ack = true; ack_seq = 0x02000000 };
}

answered : delude_send_reset kernel false skb ≡ some reply
unfolding delude_send_reset delude_header acked
answered = refl

delude_send_reset-Answers_example : Answers skb segment reply.tcp
delude_send_reset-Answers_example =
    delude_send_reset-Answers kernel false skb segment reply (omega arith) refl answered
