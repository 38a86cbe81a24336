-- ===== src/Lscan/Verdict.antt =====
-- What `lscan_mt` (extensions/xt_lscan.c) answers, and what a second look at the packet changes.
use Prim.Native.Nat.{bit_or-bitwise}
use xtables_addons.Common.{
  ℕ, ◌*◌, ◌<◌, ◌≡◌, ◌≢◌, ◌↔◌, Bool, true, false, not, ◌&&◌, ◌||◌, some, none, arith, ◌==◌, bit_and,
  has_flag, Bool-cases, inl, inr,
}
use xtables_addons.Common.Words.{u32_mod, sub32}
use xtables_addons.Common.Bits.{bit_and_mask, bit_and-zero_right}
use xtables_addons.Lscan.{
  Params, default_params, TcpHdr, MtInfo, SkBuff, Conn, tflg_rst, tflg_rstack, tflg_syn, ip_ct_new,
  lscan_mt_stealth, lscan_mt_full, lscan_mt, apply_marks, scan_result, lscan_fl1_mirai, conn_mark,
}

-- Outside of connections a packet is a stealth scan exactly when it is neither a SYN, nor a
-- RST-ACK, nor a pure RST that `printk_ratelimit` lets the module complain about.
pub lscan_mt_stealth_iff :
    (ratelimit : Bool) (th : TcpHdr)
    → (lscan_mt_stealth ratelimit th ≡ true)
      ↔ ((tflg_syn th ≡ false) × (tflg_rstack th ≡ false) × ((tflg_rst th && ratelimit) ≡ false))
unfolding lscan_mt_stealth
lscan_mt_stealth_iff ratelimit th = ground arith

-- The verdict on a pure RST outside of connections is that of the log's rate limit: it is taken
-- for a scan exactly when the warning is suppressed.
pub lscan_mt_rst :
    (p : Params) (ratelimit : Bool) (skb : SkBuff) (th : TcpHdr)
    → skb.tcph ≡ some th
    → skb.conn ≡ none
    → tflg_rst th ≡ true
    → th.ack ≡ false
    → (lscan_mt p ratelimit
        (record { match_fl1 = 1; match_fl2 = 0; match_fl3 = 0; match_fl4 = 0 })
        skb).0
      ≡ not ratelimit
unfolding lscan_mt lscan_mt_stealth tflg_rst tflg_rstack tflg_syn
lscan_mt_rst p ratelimit skb th ht hc hr ha = ground arith

-- A rule with `--synscan` alone never matches.
lscan_mt_synscan_only :
    (p : Params) (ratelimit : Bool) (fl2 : ℕ) (skb : SkBuff)
    → (lscan_mt p ratelimit
        (record { match_fl1 = 0; match_fl2 = fl2; match_fl3 = 0; match_fl4 = 0 })
        skb).0
      ≡ false
unfolding lscan_mt scan_result
lscan_mt_synscan_only p ratelimit fl2 skb = ground arith

-- With the default parameters, a packet that carries no new mark is left as it is.
module _ (skb : SkBuff) (th : TcpHdr) (ct : Conn) where
  full_mark : ℕ
  full_mark =
      lscan_mt_full default_params (bit_and ct.mark 0xffff_ffff) ct.ctstate skb.loopback th
        (sub32 (sub32 skb.len skb.thoff) (4 * th.doff))

  full_mark-lt : full_mark < u32_mod
  unfolding full_mark lscan_mt_full
  full_mark-lt = ground (arith, bit_and_mask 32 ct.mark)

  abbrev rerun : Bool
  rerun = bit_and ct.mark 0xffff_ffff == 8 || not (bit_and skb.nfmark 0xffff_ffff == 9)

  abbrev written : SkBuff
  written = record skb { conn = some (record ct { mark = full_mark }); nfmark = 9 }

  marks_written : rerun ≡ true → apply_marks default_params skb ct th ≡ written
  unfolding apply_marks full_mark
  marks_written h = rw h (
      ground (
        arith,
        bit_and-zero_right ct.mark,
        bit_and-zero_right skb.nfmark,
        bit_or-bitwise 0 full_mark,
      ))

  marks_kept : rerun ≡ false → skb.conn ≡ some ct → apply_marks default_params skb ct th ≡ skb
  unfolding apply_marks
  marks_kept h e = rw h (ground arith)

  marks_again :
      full_mark ≢ 8
      → apply_marks default_params written (record ct { mark = full_mark }) th ≡ written
  unfolding apply_marks
  marks_again h = ground (arith, bit_and_mask 32 full_mark, full_mark-lt)

-- With the default parameters a second look at a packet of a connection changes no mark and gives
-- the same verdict, unless the first look leaves the connection marked VALID.
lscan_mt_twice :
    (ratelimit : Bool) (info : MtInfo) (skb : SkBuff) (th : TcpHdr) (ct : Conn)
    → skb.tcph ≡ some th
    → skb.conn ≡ some ct
    → conn_mark (lscan_mt default_params ratelimit info skb).1.conn ≢ default_params.mark_valid
    → lscan_mt default_params ratelimit info (lscan_mt default_params ratelimit info skb).1
      ≡ lscan_mt default_params ratelimit info skb
unfolding lscan_mt
lscan_mt_twice ratelimit info skb th ct ht hc hv = elim (Bool-cases (rerun skb th ct)) [
  | inl e ↦ ground (arith, marks_written skb th ct e, marks_again skb th ct)
  | inr e ↦ ground (arith, marks_kept skb th ct e hc)
]

valid_mark :
    (skb : SkBuff) (th : TcpHdr) (ct : Conn)
    → ct.mark ≡ 8
    → ct.ctstate ≡ ip_ct_new
    → tflg_syn th ≡ true
    → (rerun skb th ct ≡ true) × (full_mark skb th ct ≡ 1)
unfolding full_mark lscan_mt_full
valid_mark skb th ct hv hn hs = ground (arith, bit_and_mask 32 ct.mark)

-- A connection marked VALID is marked SYN-received again by a SYN that conntrack takes for new,
-- also when the packet was looked at before.
pub lscan_mt_valid_reopened :
    (ratelimit : Bool) (info : MtInfo) (skb : SkBuff) (th : TcpHdr) (ct : Conn)
    → skb.tcph ≡ some th
    → skb.conn ≡ some ct
    → has_flag info.match_fl1 lscan_fl1_mirai ≡ false
    → ct.mark ≡ default_params.mark_valid
    → ct.ctstate ≡ ip_ct_new
    → tflg_syn th ≡ true
    → (conn_mark (lscan_mt default_params ratelimit info skb).1.conn ≡ default_params.mark_synrcv)
      × ((lscan_mt default_params ratelimit info skb).0 ≡ false)
unfolding lscan_mt scan_result
lscan_mt_valid_reopened ratelimit info skb th ct ht hc hm hv hn hs =
    let (again, one) = valid_mark skb th ct hv hn hs in
    ground (arith, marks_written skb th ct again, one)
