-- ===== src/Quota2/Budget.antt =====
-- What the rules of one counter let through (`quota_mt2` of extensions/xt_quota2.c).
use xtables_addons.Common.{
  ℕ, ◌+◌, ◌%◌, ◌≤◌, ◌<◌, ◌≡◌, Bool, true, false, xor, List, [], ◌∷◌, has_flag, if◌then◌else◌, arith,
}
use xtables_addons.Common.Words.{u64_mod}
use xtables_addons.Quota2.{
  MtInfo2, xt_quota_invert, xt_quota_grow, xt_quota_no_change, charge, count_up, count_down,
  quota_mt2,
}

-- A rule that counts down.
abbrev pub IsDown : MtInfo2 → Type 0
IsDown q = (has_flag q.flags xt_quota_grow ≡ false) × (has_flag q.flags xt_quota_no_change ≡ false)

-- A rule that counts up.
abbrev pub IsUp : MtInfo2 → Type 0
IsUp q = (has_flag q.flags xt_quota_grow ≡ true) × (has_flag q.flags xt_quota_no_change ≡ false)

abbrev pub All : (MtInfo2 → Type 0) → List (MtInfo2 × ℕ) → Type 0
All P [] = Unit
All P ((q, len) ∷ ps) = P q × All P ps

-- The rule's answer says that the quota was enough.
abbrev pub is_granted : MtInfo2 → Bool × MtInfo2 × ℕ → Bool
is_granted q r = xor (has_flag q.flags xt_quota_invert) r.0

-- What packets that meet these rules, in order, are granted from the counter.
unfoldable pub granted : List (MtInfo2 × ℕ) → ℕ → ℕ
granted [] quota = 0
granted ((q, len) ∷ ps) quota =
    let r = quota_mt2 q len quota in (if is_granted q r then charge q len else 0) + granted ps r.2

-- The counter after them.
unfoldable pub remaining : List (MtInfo2 × ℕ) → ℕ → ℕ
remaining [] quota = quota
remaining ((q, len) ∷ ps) quota = remaining ps (quota_mt2 q len quota).2

abbrev pub charges : List (MtInfo2 × ℕ) → ℕ
charges [] = 0
charges ((q, len) ∷ ps) = charge q len + charges ps

count_down_step :
    (q : MtInfo2) (len quota : ℕ)
    → IsDown q
    → (if is_granted q (quota_mt2 q len quota) then charge q len else 0) + (quota_mt2 q len quota).2
      ≤ quota
unfolding quota_mt2 count_down count_up xor
count_down_step q len quota down = ground arith

-- Whatever rules share a counter, inverted or not, counting bytes or packets, as long as all count
-- down, the packets granted in any order and what is left never add up to more than the quota.
pub granted_within_quota :
    (ps : List (MtInfo2 × ℕ)) (quota : ℕ)
    → All IsDown ps
    → granted ps quota + remaining ps quota ≤ quota
unfolding granted remaining
granted_within_quota [] quota h = omega arith
granted_within_quota ((q, len) ∷ ps) quota h =
    omega (
      arith,
      count_down_step q len quota h.0,
      granted_within_quota ps (quota_mt2 q len quota).2 h.1,
    )

exhausted_step :
    (q : MtInfo2) (len quota : ℕ)
    → IsDown q
    → is_granted q (quota_mt2 q len quota) ≡ false
    → (quota_mt2 q len quota).2 ≡ 0
unfolding quota_mt2 count_down count_up xor
exhausted_step q len quota down h = ground arith

-- Once a rule that counts down has found too little for a packet, the counter is at 0, and packets
-- at rules that count down are granted nothing from it any more.
pub refused_for_good :
    (q : MtInfo2) (len quota : ℕ) (ps : List (MtInfo2 × ℕ))
    → IsDown q
    → is_granted q (quota_mt2 q len quota) ≡ false
    → All IsDown ps
    → ((quota_mt2 q len quota).2 ≡ 0) × (granted ps (quota_mt2 q len quota).2 ≡ 0)
refused_for_good q len quota ps down h all =
    let left = exhausted_step q len quota down h in
    (left, omega (arith, left, granted_within_quota ps (quota_mt2 q len quota).2 all))

count_up_step :
    (q : MtInfo2) (len quota : ℕ)
    → IsUp q
    → (quota_mt2 q len quota).2 ≡ (quota + charge q len) % u64_mod
unfolding quota_mt2 count_down count_up
count_up_step q len quota up = ground arith

-- Rules that count up leave a 64-bit counter at its start plus the sum of what they count, modulo
-- 2 ^ 64.
pub remaining_up :
    (ps : List (MtInfo2 × ℕ)) (quota : ℕ)
    → quota < u64_mod
    → All IsUp ps
    → remaining ps quota ≡ (quota + charges ps) % u64_mod
unfolding remaining
remaining_up [] quota small h = omega arith
remaining_up ((q, len) ∷ ps) quota small h =
    let step = count_up_step q len quota h.0 in
    omega (arith, step, remaining_up ps (quota_mt2 q len quota).2 (omega (arith, step)) h.1)
