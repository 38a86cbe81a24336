-- ===== src/Fuzzy/Rate.antt =====
-- The membership functions and the acceptance rate (extensions/xt_fuzzy.c).
use native.Mathlib.Nat.{
  div-le_of_le-mul, div-eq_of_lt, le_of_mul-le-mul_left, lt_of_mul-lt-mul_left, div-lt_iff_lt-mul,
  mul-div-le, lt-mul-div-succ,
}
use native.Mathlib.Decide.{dec_le}
use xtables_addons.Common.{ℕ, ◌+◌, ◌-◌, ◌*◌, ◌/◌, ◌%◌, ◌≤◌, ◌<◌, ◌≡◌, refl, false, some, arith, leb}
use xtables_addons.Common.Words.{u32_mod, u8_mod, sub32}
use xtables_addons.Fuzzy.{
  MtInfo, fuzzy_min_rate, fuzzy_max_rate, mf_high, mf_low, acceptance, account, resample, measure,
  fuzzy_mt, fuzzy_mt_check,
}

-- The limits that `fuzzy_mt_check` lets pass.
pub record IsChecked (info : MtInfo) : Type 0 where
  pub low : fuzzy_min_rate ≤ info.minimum_rate
  pub ordered : info.minimum_rate < info.maximum_rate
  pub high : info.maximum_rate ≤ fuzzy_max_rate

pub fuzzy_mt_check-IsChecked : (info : MtInfo) → fuzzy_mt_check info ≡ some tt → IsChecked info
unfolding fuzzy_mt_check
fuzzy_mt_check-IsChecked info h = ground arith

quotient-le : (x d : ℕ) → x ≤ d → 100 * x / d ≤ 100
quotient-le x d h = div-le_of_le-mul d (omega arith)

-- A share of the range in percent: 32 bits hold the product, and 8 bits the result.
percent_exact :
    (x d : ℕ) → x ≤ d → d ≤ fuzzy_max_rate → 100 * x % u32_mod / d % u8_mod ≡ 100 * x / d
percent_exact x d h limit =
    let whole : 100 * x % u32_mod ≡ 100 * x = omega arith in
    rw whole (omega (arith, quotient-le x d h))

quotient_mono : (a b d : ℕ) → 0 < d → a ≤ b → a / d ≤ b / d
quotient_mono a b d pos h =
    let close : a / d < b / d + 1 =
      lt_of_mul-lt-mul_left d (omega (arith, mul-div-le a d, lt-mul-div-succ b pos)) in
    omega arith

-- Two shares of a range that fill it lose at most one percent to rounding.
shares_add : (a b d : ℕ) → 0 < d → a + b ≡ 100 * d → (99 ≤ a / d + b / d) × (a / d + b / d ≤ 100)
shares_add a b d pos e = (
  lt_of_mul-lt-mul_left d (omega (arith, lt-mul-div-succ a pos, lt-mul-div-succ b pos)),
  le_of_mul-le-mul_left {k = d} (omega (arith, mul-div-le a d, mul-div-le b d)) pos,
)

module _ (mini maxi rate : ℕ) (above : mini < rate) (below : rate < maxi)
    (limit : maxi ≤ fuzzy_max_rate) where
  not_maximal : leb maxi rate ≡ false
  not_maximal = ground arith

  not_minimal : leb rate mini ≡ false
  not_minimal = ground arith

  -- Between the limits there is no overflow and no truncation.
  mf_high_between : mf_high rate mini maxi ≡ 100 * (rate - mini) / (maxi - mini)
  unfolding mf_high
  mf_high_between =
      let num : sub32 rate mini ≡ rate - mini = omega arith in
      let den : sub32 maxi mini ≡ maxi - mini = omega arith in
      rw (not_maximal, not_minimal, num, den)
        (percent_exact (rate - mini) (maxi - mini) (omega arith) (omega arith))

  mf_low_between : mf_low rate mini maxi ≡ 100 * (maxi - rate) / (maxi - mini)
  unfolding mf_low
  mf_low_between =
      let num : sub32 maxi rate ≡ maxi - rate = omega arith in
      let den : sub32 maxi mini ≡ maxi - mini = omega arith in
      rw (not_maximal, not_minimal, num, den)
        (percent_exact (maxi - rate) (maxi - mini) (omega arith) (omega arith))

  -- Strictly between the limits, which must not exceed the module's largest rate, the two
  -- memberships add up to 99 or 100.
  pub memberships_add :
      (99 ≤ mf_high rate mini maxi + mf_low rate mini maxi)
      × (mf_high rate mini maxi + mf_low rate mini maxi ≤ 100)
  memberships_add =
      rw (mf_high_between, mf_low_between)
        (shares_add (100 * (rate - mini)) (100 * (maxi - rate)) (maxi - mini) (omega arith)
          (omega arith))

  -- Strictly between the limits the acceptance rate is the share of the range above the rate, in
  -- whole percent.
  pub acceptance_between : acceptance rate mini maxi ≡ 100 * (maxi - rate) / (maxi - mini)
  unfolding acceptance
  acceptance_between =
      let low = quotient-le (maxi - rate) (maxi - mini) (omega arith) in
      let high : 100 * (rate - mini) / (maxi - mini) < 100 =
        (div-lt_iff_lt-mul (omega arith)).1 (omega arith) in
      rw (mf_high_between, mf_low_between) (omega arith)

module _ (info : MtInfo) (checked : IsChecked info) where
  -- At or below the lower limit everything is accepted, at or above the upper limit one percent.
  acceptance_ends :
      (rate : ℕ)
      → (rate ≤ info.minimum_rate → acceptance rate info.minimum_rate info.maximum_rate ≡ 100)
        × (info.maximum_rate ≤ rate → acceptance rate info.minimum_rate info.maximum_rate ≡ 1)
  unfolding acceptance mf_high mf_low
  acceptance_ends rate = (λ h. ground arith, λ h. ground arith)

  acceptance-le : (rate : ℕ) → acceptance rate info.minimum_rate info.maximum_rate ≤ 100
  acceptance-le rate = elim (dec_le rate info.minimum_rate) [
    | yes a ↦ omega (arith, (acceptance_ends rate).0 a)
    | no a ↦ elim (dec_le info.maximum_rate rate) [
      | yes b ↦ omega (arith, (acceptance_ends rate).1 b)
      | no b ↦
          rw
            (acceptance_between info.minimum_rate info.maximum_rate rate (omega arith) (omega arith)
              checked.high)
            (quotient-le (info.maximum_rate - rate) (info.maximum_rate - info.minimum_rate)
              (omega arith))
    ]
  ]

-- On a checked configuration the acceptance rate falls as the measured rate grows, as long as the
-- latter stays below the upper limit.
pub acceptance_antitone :
    (info : MtInfo) (slow fast : ℕ)
    → IsChecked info
    → slow ≤ fast
    → fast < info.maximum_rate
    → acceptance fast info.minimum_rate info.maximum_rate
      ≤ acceptance slow info.minimum_rate info.maximum_rate
acceptance_antitone info slow fast checked h below = elim (dec_le slow info.minimum_rate) [
  | yes a ↦ omega (arith, (acceptance_ends info checked slow).0 a, acceptance-le info checked fast)
  | no a ↦
      rw
        (
          acceptance_between info.minimum_rate info.maximum_rate fast (omega arith) below
              checked.high,
          acceptance_between info.minimum_rate info.maximum_rate slow (omega arith) (omega arith)
              checked.high,
        )
        (quotient_mono _ _ (info.maximum_rate - info.minimum_rate) (omega arith) (omega arith))
]

-- On a checked configuration, of two measured rates, one so close below the upper limit that the
-- share of the range above it is under a percent and one at or beyond the limit, the faster is
-- accepted more often.
pub acceptance_jumps_up :
    (info : MtInfo) (slow fast : ℕ)
    → IsChecked info
    → info.minimum_rate < slow
    → slow < info.maximum_rate
    → 100 * (info.maximum_rate - slow) < info.maximum_rate - info.minimum_rate
    → info.maximum_rate ≤ fast
    → acceptance slow info.minimum_rate info.maximum_rate
      < acceptance fast info.minimum_rate info.maximum_rate
acceptance_jumps_up info slow fast checked a b close c =
    rw
      (
        acceptance_between info.minimum_rate info.maximum_rate slow a b checked.high,
        div-eq_of_lt close,
        (acceptance_ends info checked fast).1 c,
      )
      (omega arith)

-- What the match relies on between packets.
pub record IsKept (info : MtInfo) : Type 0 where
  pub checked : IsChecked info
  pub rate : info.acceptance_rate ≤ 100

account-IsKept : (len jiffies : ℕ) (info : MtInfo) → IsKept info → IsKept (account len jiffies info)
unfolding account
account-IsKept len jiffies info kept = ground arith

resample-IsKept : (info : MtInfo) → IsKept info → IsKept (resample info)
unfolding resample
resample-IsKept info kept = ground arith

measure-IsKept : (hz : ℕ) (info : MtInfo) → IsKept info → IsKept (measure hz info)
unfolding measure
measure-IsKept hz info kept = ground (
  arith,
  acceptance-le info kept.checked
      (hz * info.packets_total % u32_mod / (info.present_time - info.previous_time) % u32_mod),
)

-- On a checked configuration whose acceptance rate is at most 100, the match keeps both, whatever
-- the clock, the packet and the random byte; and where the rate comes out as 100 the packet passes.
pub fuzzy_mt-IsKept :
    (hz jiffies random_number len : ℕ) (info : MtInfo)
    → IsKept info
    → let r = fuzzy_mt hz jiffies random_number len info in
      IsKept r.1 × (r.1.acceptance_rate ≡ 100 → r.0 ≡ false)
unfolding fuzzy_mt
fuzzy_mt-IsKept hz jiffies random_number len info kept =
    (measure-IsKept hz _ (resample-IsKept _ (account-IsKept len jiffies info kept)), λ h. rw h refl)
