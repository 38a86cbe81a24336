-- ===== src/Lscan/Tests.antt =====
-- Runs of the lscan match (extensions/xt_lscan.c), and the theorems at concrete packets.
use xtables_addons.Common.{ℕ, ◌≡◌, refl, true, false, ◌++◌, List, [], ◌∷◌, some, none}
use xtables_addons.Lscan.{
  default_params, TcpHdr, MtInfo, SkBuff, Conn, lscan_mt, lscan_mt_full, lscan_mt_check, tflg_ack4,
  tflg_ack6, tflg_fin, tflg_rst, tflg_rstack, tflg_syn, tflg_synack, apply_marks, scan_result,
}
use xtables_addons.Lscan.Full.{Seen, mark_after, Explains, mark_after-Explains, grab_scan_marked}

abbrev bare : TcpHdr
bare = record {
  seq = 7;
  doff = 5;
  fin = false;
  syn = false;
  rst = false;
  psh = false;
  ack = false;
  urg = false;
}

abbrev syn : TcpHdr
syn = record bare { syn = true }

abbrev ack : TcpHdr
ack = record bare { ack = true }

abbrev fin_ack : TcpHdr
fin_ack = record bare { fin = true; ack = true }

abbrev rst : TcpHdr
rst = record bare { rst = true }

abbrev seen : ℕ → TcpHdr → Seen
seen state th = record { ctstate = state; loopback = false; tcph = th; payload_len = 0 }

abbrev grab : List Seen
grab = seen 0 fin_ack ∷ seen 0 ack ∷ seen 0 ack ∷ seen 0 ack ∷ seen 2 syn ∷ []

abbrev packet : TcpHdr → Conn → SkBuff
packet th ct = record {
  iph = some (record { version = 4; daddr = 9 });
  tcph = some th;
  conn = some ct;
  nfmark = 9;
  len = 40;
  thoff = 20;
  loopback = false;
}

abbrev stealth_only : MtInfo
stealth_only = record { match_fl1 = 1; match_fl2 = 0; match_fl3 = 0; match_fl4 = 0 }

-- Marked as a SYN scan, and `--stealth` reports it where `--synscan` does not.
synscan_reported_by_stealth :
    ((lscan_mt default_params true stealth_only
        (packet fin_ack (record { mark = 3; ctstate = 0 }))).0
      ≡ true)
    × ((lscan_mt default_params true
          (record stealth_only { match_fl1 = 0; match_fl2 = 1 })
          (packet fin_ack (record { mark = 3; ctstate = 0 }))).0
        ≡ false)
unfolding lscan_mt apply_marks scan_result
synscan_reported_by_stealth = (refl, refl)

unknown_flag_refused : lscan_mt_check (record stealth_only { match_fl3 = 2 }) ≡ none
unfolding lscan_mt_check
unknown_flag_refused = refl

grab_marked : mark_after grab ≡ 7
unfolding mark_after lscan_mt_full tflg_ack4 tflg_ack6 tflg_fin tflg_rst tflg_rstack tflg_syn
    tflg_synack
grab_marked = refl

mark_after-Explains_example : Explains (mark_after grab) grab
mark_after-Explains_example = mark_after-Explains grab

grab_scan_marked_example :
    mark_after (seen 0 fin_ack ∷ (seen 0 ack ∷ []) ++ seen 0 ack ∷ seen 0 ack ∷ seen 2 syn ∷ [])
    ≡ default_params.mark_grscan
unfolding tflg_ack4 tflg_ack6 tflg_fin tflg_rst tflg_syn
grab_scan_marked_example =
    grab_scan_marked (seen 0 fin_ack) (seen 0 ack ∷ []) (seen 0 ack) (seen 0 ack) (seen 2 syn) refl
      refl refl refl (refl, tt) refl
