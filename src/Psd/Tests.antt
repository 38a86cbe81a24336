-- ===== src/Psd/Tests.antt =====
-- Runs of psd (extensions/xt_psd.c) on small inputs.
use xtables_addons.Common.{ℕ, ◌+◌, ◌≡◌, refl, true, false, some, [], ◌∷◌, leb, arith}
use xtables_addons.Psd.Scan.{PsdInfo, Host, port_in_list, psd_mt_check}
use xtables_addons.Psd.Scan.Weight.{reported, reported_iff, total_weight, to_port}
use xtables_addons.Psd.Table.{State, hashfunc, handle_packet}
use xtables_addons.Psd.Table.Order.{elem, distinct}
use xtables_addons.Psd.Table.Kept.{IsState}
use xtables_addons.Psd.Table.Packets.{handle_packet-IsState}
use xtables_addons.Psd.Table.Verdict.{AllQuiet, handle_packets, handle_packets_never}
use xtables_addons.Psd.Match.{SkBuff4, address4, xt_psd_match}

abbrev unused : Host
unused = record { timestamp = 0; weight = 0; ports = [] }

abbrev zeroed : State ℕ
zeroed = record { list = λ i. record { saddr = 0; host = unused }; chain = λ h. []; index = 0 }

zeroed-IsState : IsState address4 zeroed
unfolding elem distinct
zeroed-IsState = record {
  home = λ h i e. ground arith;
  once = λ h. refl;
  short = λ h. ground arith;
  placed = ground arith;
}

-- `--psd-weight-threshold 7 --psd-delay-threshold 300 --psd-lo-ports-weight 3 --psd-hi-ports-weight 1`
abbrev rule : ℕ → PsdInfo
rule threshold = record {
  weight_threshold = threshold;
  delay_threshold = 300;
  lo_ports_weight = 3;
  hi_ports_weight = 1;
}

handle_packet-IsState_example :
    IsState address4
      (handle_packet address4 100 5000 (rule 7) (to_port 22) 17 99 (hashfunc 99) zeroed).1
handle_packet-IsState_example =
    handle_packet-IsState address4 100 5000 (rule 7) (to_port 22) 17 99 zeroed zeroed-IsState refl

abbrev seen : Host
seen = record { timestamp = 5000; weight = 3; ports = record { number = 22; proto = 17 } ∷ [] }

reported_iff_example :
    reported 5001 (rule 7) 17 (23 ∷ 2000 ∷ []) seen
    ≡ leb 7 (3 + total_weight (rule 7) (23 ∷ 2000 ∷ []))
unfolding port_in_list
reported_iff_example =
    reported_iff 5001 (rule 7) 17 (23 ∷ 2000 ∷ []) seen (ground arith) (ground arith) (ground arith)
      (refl, (refl, tt), (refl, tt, tt))

handle_packets_never_example :
    (psd_mt_check (rule 300) ≡ true)
    × AllQuiet (
        handle_packets address4 100
          (rule 300)
          ((5000, to_port 22, 17, 99) ∷ (5001, to_port 23, 17, 99) ∷ [])
          zeroed)
handle_packets_never_example =
    handle_packets_never address4 100 (rule 300)
      ((5000, to_port 22, 17, 99) ∷ (5001, to_port 23, 17, 99) ∷ []) zeroed (ground arith)
      (omega arith) (omega arith) (omega arith) (omega arith) (omega arith) (λ i. ground arith)

abbrev spoofed : SkBuff4
spoofed = record {
  is_fragment = false;
  saddr = 0;
  protocol = 17;
  header = λ size. some (to_port 22);
}

spoofed_ignored : xt_psd_match 100 5000 (rule 7) spoofed zeroed ≡ (false, zeroed)
unfolding xt_psd_match
spoofed_ignored = refl
