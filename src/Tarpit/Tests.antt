-- ===== src/Tarpit/Tests.antt =====
-- Runs of the TARPIT target (extensions/xt_TARPIT.c).
use xtables_addons.Common.{◌≡◌, refl, true, false, some, none}
use xtables_addons.Tarpit.{
  xttarpit_tarpit_mode, xttarpit_reset_mode, TcpHdr, Random, xttarpit_tarpit,
}
use xtables_addons.Tarpit.Reply.{SkBuff, Kernel, blank, tarpit_tcp6}
use xtables_addons.Tarpit.Modes.{HasNoFlagIf, tarpit_tcp6_mute}

abbrev syn_segment : TcpHdr
syn_segment = record {
  source = 40000;
  dest = 80;
  seq = 0x01000000;
  ack_seq = 0;
  window = 0xffff;
  doff = 5;
  urg_ptr = 0;
  fin = false;
  syn = true;
  rst = false;
  psh = false;
  ack = false;
}

abbrev skb : SkBuff
skb = record { len = 60; hdrlen = 40; saddr = 1; daddr = 2; id = 7; tcp = some syn_segment }

abbrev kernel : Kernel
kernel = record { checksum_ok = true; copy_ok = true; route_ok = true; hop_limit = 64; mtu = 1500 }

abbrev random : Random
random = record { window = 3; seq = 5 }

tarpit_tcp6_mute_example :
    (tarpit_tcp6 kernel random xttarpit_tarpit_mode skb ≡ none)
    × HasNoFlagIf (tarpit_tcp6 kernel random xttarpit_reset_mode skb)
tarpit_tcp6_mute_example = tarpit_tcp6_mute kernel random xttarpit_reset_mode skb

-- Over IPv4 the same segment is answered: by a window of 5 and the next number.
answered :
    xttarpit_tarpit (blank syn_segment) syn_segment
    ≡ some (record (blank syn_segment) {
      syn = true;
      ack = true;
      seq = 0;
      ack_seq = 0x02000000;
      window = 0x0500;
    })
unfolding xttarpit_tarpit
answered = refl
