-- ===== src/Fuzzy.antt =====
-- extensions/xt_fuzzy.c and xt_fuzzy.h: the rate limit by a fuzzy logic controller.
mod Rate
mod Tests
use xtables_addons.Common.{
  ℕ, ◌+◌, ◌-◌, ◌*◌, ◌/◌, ◌%◌, ◌≡◌, Bool, true, false, ◌||◌, Option, some, none, ltb, leb, not,
  if◌then◌else◌,
}
use xtables_addons.Common.Words.{add32, sub32, u8_mod, u32_mod}

abbrev pub fuzzy_min_rate : ℕ
fuzzy_min_rate = 3

abbrev pub fuzzy_max_rate : ℕ
fuzzy_max_rate = 10000000

-- struct xt_fuzzy_mtinfo
pub record MtInfo : Type 0 where
  pub minimum_rate : ℕ
  pub maximum_rate : ℕ
  pub packets_total : ℕ
  pub bytes_total : ℕ
  pub previous_time : ℕ
  pub present_time : ℕ
  pub mean_rate : ℕ
  pub acceptance_rate : ℕ

-- 32-bit arithmetic, cut to the 8 bits of the result.
unfoldable pub mf_high : ℕ → ℕ → ℕ → ℕ
mf_high tx mini maxi =
    if leb maxi tx
    then 100
    else if leb tx mini
    then 0
    else 100 * sub32 tx mini % u32_mod / sub32 maxi mini % u8_mod

unfoldable pub mf_low : ℕ → ℕ → ℕ → ℕ
mf_low tx mini maxi =
    if leb tx mini
    then 100
    else if leb maxi tx
    then 0
    else 100 * sub32 maxi tx % u32_mod / sub32 maxi mini % u8_mod

-- `howhigh * PAR_LOW + PAR_HIGH * howlow`, where the macro is `1/100` with no parentheses.
unfoldable pub acceptance : ℕ → ℕ → ℕ → ℕ
acceptance rate mini maxi = (mf_high rate mini maxi * 1 / 100 + 1 * mf_low rate mini maxi) % u8_mod

-- The packet is counted and the clock read.
unfoldable pub account : ℕ → ℕ → MtInfo → MtInfo
account len jiffies info = record info {
  bytes_total = add32 info.bytes_total len;
  packets_total = add32 info.packets_total 1;
  present_time = jiffies % u32_mod;
}

-- A clock that went back restarts the sample.
unfoldable pub resample : MtInfo → MtInfo
resample info =
    if leb info.previous_time info.present_time
    then info
    else record info { previous_time = info.present_time; bytes_total = 0; packets_total = 0 }

-- After more than a tenth of a second the rate is measured and the acceptance set.
unfoldable pub measure : ℕ → MtInfo → MtInfo
measure hz info =
    let amount = info.present_time - info.previous_time in
    let rate = hz * info.packets_total % u32_mod / amount % u32_mod in
    if ltb (hz / 10) amount
    then record info {
      mean_rate = rate;
      previous_time = info.present_time;
      bytes_total = 0;
      packets_total = 0;
      acceptance_rate = acceptance rate info.minimum_rate info.maximum_rate;
    }
    else info

-- `true` matches, so that the packet is to be dropped.
unfoldable pub decide : ℕ → ℕ → Bool
decide random_number rate =
    if ltb rate 100 then (if leb random_number (255 * rate / 100) then false else true) else false

-- `hz` is the kernel's HZ, `jiffies` the clock and `random_number` the byte of `get_random_bytes`.
unfoldable pub fuzzy_mt : ℕ → ℕ → ℕ → ℕ → MtInfo → Bool × MtInfo
unfolding decide measure resample account
fuzzy_mt hz jiffies random_number len info =
    let info' = measure hz (resample (account len jiffies info)) in
    (decide random_number info'.acceptance_rate, info')

-- `none` is -EDOM.
unfoldable pub fuzzy_mt_check : MtInfo → Option (Unit {0})
fuzzy_mt_check info =
    if ltb info.minimum_rate fuzzy_min_rate
      || ltb fuzzy_max_rate info.maximum_rate
      || leb info.maximum_rate info.minimum_rate
    then none
    else some tt
