-- ===== src/Ipmark/Tests.antt =====
-- Runs of the IPMARK targets (extensions/xt_IPMARK.c), and the theorems at concrete packets.
use xtables_addons.Common.{◌/◌, ◌%◌, ◌^◌, ◌≡◌, refl, some}
use xtables_addons.Common.Words.{u32_mod, ntohl}
use xtables_addons.Ipmark.{
  In6Addr, TgInfo, xt_continue, ipmark_tg4, ipmark_tg6, ipmark_from_ip6, upper_bits,
}
use xtables_addons.Ipmark.Shift.{address_value, ipmark_from_ip6-shift}

-- The manual's example address 2001:db8:45:1d:20d:93ff:fe9b:e443.
abbrev manual_address : In6Addr
manual_address = record {
  word0 = ntohl 0x2001_0db8;
  word1 = ntohl 0x0045_001d;
  word2 = ntohl 0x020d_93ff;
  word3 = ntohl 0xfe9b_e443;
}

abbrev low_half : TgInfo
low_half = record { andmask = 0xffff; ormask = 0; selector = 0; shift = 16 }

-- A shift of 32 gives the 0x93ff that the manual expects of a shift of 16, which gives 0xfe9b.
manual_marks :
    (ipmark_tg6 manual_address manual_address low_half ≡ some (xt_continue, 0xfe9b))
    × (ipmark_tg6 manual_address manual_address (record low_half { shift = 32 })
        ≡ some (xt_continue, 0x93ff))
unfolding ipmark_tg6 ipmark_from_ip6 upper_bits
manual_marks = (refl, refl)

-- 192.168.5.12 with --and-mask 0xffff --or-mask 0x10000
manual_mark4 :
    ipmark_tg4 0
      (ntohl 0xc0a8050c)
      (record { andmask = 0xffff; ormask = 0x10000; selector = 1; shift = 0 })
    ≡ some (xt_continue, 0x1050c)
unfolding ipmark_tg4
manual_mark4 = refl

ipmark_from_ip6-shift_example :
    ipmark_from_ip6 manual_address 40 ≡ some (address_value manual_address / 2 ^ 40 % u32_mod)
ipmark_from_ip6-shift_example = ipmark_from_ip6-shift manual_address 40
