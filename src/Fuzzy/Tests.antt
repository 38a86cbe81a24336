-- ===== src/Fuzzy/Tests.antt =====
-- Runs of the fuzzy match (extensions/xt_fuzzy.c), and the theorems at concrete rates.
use xtables_addons.Common.{◌+◌, ◌≤◌, ◌<◌, ◌≡◌, refl, some, arith}
use xtables_addons.Fuzzy.{MtInfo, mf_high, mf_low, acceptance, fuzzy_mt_check}
use xtables_addons.Fuzzy.Rate.{
  IsChecked, fuzzy_mt_check-IsChecked, memberships_add, acceptance_jumps_up,
}

abbrev start : MtInfo
start = record {
  minimum_rate = 100;
  maximum_rate = 1100;
  packets_total = 0;
  bytes_total = 0;
  previous_time = 0;
  present_time = 0;
  mean_rate = 0;
  acceptance_rate = 100;
}

start-IsChecked : IsChecked start
start-IsChecked = omega arith

half_way : acceptance 600 100 1100 ≡ 50
unfolding acceptance mf_high mf_low
half_way = refl

check_example : fuzzy_mt_check start ≡ some tt
unfolding fuzzy_mt_check
check_example = refl

fuzzy_mt_check-IsChecked_example : IsChecked start
fuzzy_mt_check-IsChecked_example = fuzzy_mt_check-IsChecked start check_example

memberships_add_example :
    (99 ≤ mf_high 433 100 1100 + mf_low 433 100 1100)
    × (mf_high 433 100 1100 + mf_low 433 100 1100 ≤ 100)
memberships_add_example = memberships_add 100 1100 433 (omega arith) (omega arith) (omega arith)

acceptance_jumps_up_example : acceptance 1095 100 1100 < acceptance 5000 100 1100
acceptance_jumps_up_example =
    acceptance_jumps_up start 1095 5000 start-IsChecked (omega arith) (omega arith) (omega arith)
      (omega arith)
