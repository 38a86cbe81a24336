-- ===== src/Lscan.antt =====
-- extensions/xt_lscan.c and xt_lscan.h: the low-level scan match, with the connection and packet
-- marks that it reads and writes.
mod Full
mod Verdict
mod Tests
use xtables_addons.Common.{
  ℕ, ◌+◌, ◌-◌, ◌*◌, ◌%◌, ◌^◌, ◌≡◌, Bool, true, false, ◌&&◌, ◌||◌, not, Option, some, none, bit_and,
  bit_or, bit_xor, ltb, ◌==◌, if◌then◌else◌, has_flag,
}
use xtables_addons.Common.Words.{sub32, u32_mod}

-- The module parameters.
pub record Params : Type 0 where
  pub connmark_mask : ℕ
  pub packet_mask : ℕ
  pub mark_seen : ℕ
  pub mark_synrcv : ℕ
  pub mark_closed : ℕ
  pub mark_synscan : ℕ
  pub mark_estab1 : ℕ
  pub mark_estab2 : ℕ
  pub mark_cnscan : ℕ
  pub mark_grscan : ℕ
  pub mark_valid : ℕ

abbrev pub default_params : Params
default_params = record {
  connmark_mask = 0xffff_ffff;
  packet_mask = 0xffff_ffff;
  mark_seen = 0x9;
  mark_synrcv = 0x1;
  mark_closed = 0x2;
  mark_synscan = 0x3;
  mark_estab1 = 0x4;
  mark_estab2 = 0x5;
  mark_cnscan = 0x6;
  mark_grscan = 0x7;
  mark_valid = 0x8;
}

-- The fields of a TCP header that the match reads.
pub record TcpHdr : Type 0 where
  pub seq : ℕ
  pub doff : ℕ
  pub fin : Bool
  pub syn : Bool
  pub rst : Bool
  pub psh : Bool
  pub ack : Bool
  pub urg : Bool

-- `(tcp_flag_word(th) & mask) == value`, bit by bit.
unfoldable pub tflg_ack4 : TcpHdr → Bool
tflg_ack4 th = th.ack && not th.fin && not th.rst && not th.syn

unfoldable pub tflg_ack6 : TcpHdr → Bool
tflg_ack6 th = th.ack && not th.fin && not th.rst && not th.syn && not th.psh && not th.urg

unfoldable pub tflg_fin : TcpHdr → Bool
tflg_fin th = th.fin && not th.rst && not th.syn

unfoldable pub tflg_rst : TcpHdr → Bool
tflg_rst th = th.rst && not th.fin && not th.syn

unfoldable pub tflg_rstack : TcpHdr → Bool
tflg_rstack th = th.rst && th.ack && not th.fin && not th.syn

unfoldable pub tflg_syn : TcpHdr → Bool
tflg_syn th = th.syn && not th.fin && not th.rst && not th.ack

unfoldable pub tflg_synack : TcpHdr → Bool
tflg_synack th = th.syn && th.ack && not th.fin && not th.rst

-- `ratelimit` is what `printk_ratelimit()` answers.
unfoldable pub lscan_mt_stealth : Bool → TcpHdr → Bool
lscan_mt_stealth ratelimit th =
    if tflg_rstack th then false else if tflg_rst th && ratelimit then false else not (tflg_syn th)

-- The kernel's `IP_CT_NEW`
abbrev pub ip_ct_new : ℕ
ip_ct_new = 2

unfoldable pub lscan_mt_full : Params → ℕ → ℕ → Bool → TcpHdr → ℕ → ℕ
lscan_mt_full p mark ctstate loopback tcph payload_len =
    if mark == p.mark_estab2
    then (if tflg_ack4 tcph && payload_len == 0
        then mark
        else if tflg_rst tcph || tflg_fin tcph
        then p.mark_grscan
        else p.mark_valid)
    else if mark == p.mark_estab1
    then (if tflg_rst tcph || tflg_fin tcph
        then p.mark_cnscan
        else if not loopback && tflg_ack4 tcph && payload_len == 0
        then p.mark_estab2
        else p.mark_valid)
    else if mark == p.mark_synrcv
    then (if loopback && tflg_synack tcph
        then mark
        else if loopback && tflg_rstack tcph
        then p.mark_closed
        else if tflg_ack6 tcph
        then p.mark_estab1
        else p.mark_synscan)
    else if ctstate == ip_ct_new && tflg_syn tcph
    then p.mark_synrcv
    else mark

pub record IpHdr : Type 0 where
  pub version : ℕ
  pub daddr : ℕ

-- What conntrack knows of the packet.
pub record Conn : Type 0 where
  pub mark : ℕ
  pub ctstate : ℕ

-- The packet: `tcph` is what `skb_header_pointer` finds at `thoff`, `conn` what `nf_ct_get` does.
pub record SkBuff : Type 0 where
  pub iph : Option IpHdr
  pub tcph : Option TcpHdr
  pub conn : Option Conn
  pub nfmark : ℕ
  pub len : ℕ
  pub thoff : ℕ
  pub loopback : Bool

-- struct xt_lscan_mtinfo
pub record MtInfo : Type 0 where
  pub match_fl1 : ℕ
  pub match_fl2 : ℕ
  pub match_fl3 : ℕ
  pub match_fl4 : ℕ

abbrev pub lscan_fl1_stealth : ℕ
lscan_fl1_stealth = 1

abbrev pub lscan_fl1_mirai : ℕ
lscan_fl1_mirai = 2

abbrev pub lscan_fl2_syn : ℕ
lscan_fl2_syn = 1

abbrev pub lscan_fl3_cn : ℕ
lscan_fl3_cn = 1

abbrev pub lscan_fl4_gr : ℕ
lscan_fl4_gr = 1

-- `~x` on 32 bits
abbrev pub not32 : ℕ → ℕ
not32 x = 0xffff_ffff - x

is_mirai : Option IpHdr → TcpHdr → Bool
is_mirai none tcph = false
is_mirai (some iph) tcph = iph.version == 4 && iph.daddr == tcph.seq

-- The two marks that the match writes.
unfoldable pub apply_marks : Params → SkBuff → Conn → TcpHdr → SkBuff
apply_marks p skb ct tcph =
    if bit_and ct.mark p.connmark_mask == p.mark_valid
      || not (bit_and skb.nfmark p.packet_mask == p.mark_seen)
    then (let n =
          lscan_mt_full p (bit_and ct.mark p.connmark_mask) ct.ctstate skb.loopback tcph
            (sub32 (sub32 skb.len skb.thoff) (4 * tcph.doff)) in
        record skb {
          conn = some (record ct { mark = bit_or (bit_and ct.mark (not32 p.connmark_mask)) n });
          nfmark = bit_xor (bit_and skb.nfmark (not32 p.packet_mask)) p.mark_seen;
        })
    else record skb { conn = some ct }

abbrev pub conn_mark : Option Conn → ℕ
conn_mark none = 0
conn_mark (some ct) = ct.mark

-- The result of `lscan_mt` once the marks are up to date.
unfoldable pub scan_result : Params → MtInfo → ℕ → Bool
scan_result p info mark =
    has_flag info.match_fl1 lscan_fl1_stealth && mark == p.mark_synscan
    || has_flag info.match_fl3 lscan_fl3_cn && mark == p.mark_cnscan
    || has_flag info.match_fl4 lscan_fl4_gr && mark == p.mark_grscan

with_conn : Params → Bool → MtInfo → SkBuff → TcpHdr → Option Conn → Bool × SkBuff
with_conn p ratelimit info skb tcph none = (
  if has_flag info.match_fl1 lscan_fl1_stealth then lscan_mt_stealth ratelimit tcph else false,
  skb,
)
with_conn p ratelimit info skb tcph (some ct) =
    let skb' = apply_marks p skb ct tcph in (scan_result p info (conn_mark skb'.conn), skb')

with_header : Params → Bool → MtInfo → SkBuff → Option TcpHdr → Bool × SkBuff
with_header p ratelimit info skb none = (false, skb)
with_header p ratelimit info skb (some tcph) =
    if has_flag info.match_fl1 lscan_fl1_mirai && is_mirai skb.iph tcph
    then (true, skb)
    else with_conn p ratelimit info skb tcph skb.conn

unfoldable pub lscan_mt : Params → Bool → MtInfo → SkBuff → Bool × SkBuff
unfolding is_mirai with_conn with_header
lscan_mt p ratelimit info skb = with_header p ratelimit info skb skb.tcph

-- `none` is -EINVAL.
unfoldable pub lscan_mt_check : MtInfo → Option (Unit {0})
lscan_mt_check info =
    if has_flag info.match_fl1 (not32 (bit_or lscan_fl1_stealth lscan_fl1_mirai))
      || has_flag info.match_fl2 (not32 lscan_fl2_syn)
      || has_flag info.match_fl3 (not32 lscan_fl3_cn)
      || has_flag info.match_fl4 (not32 lscan_fl4_gr)
    then none
    else some tt
