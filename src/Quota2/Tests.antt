-- ===== src/Quota2/Tests.antt =====
-- Runs of the quota2 match (extensions/xt_quota2.c), and the theorems at concrete counters.
use xtables_addons.Common.{
  ℕ, ◌+◌, ◌-◌, ◌≤◌, ◌<◌, ◌≡◌, refl, true, false, xor, some, List, [], ◌∷◌, ◌==◌, if◌then◌else◌,
  arith,
}
use xtables_addons.Common.Words.{u64_mod}
use xtables_addons.Refs.{refs, deref, get_ref}
use xtables_addons.Quota2.{
  named, MtInfo2, Quota2Net, Env, checked, quota_mt2, quota_mt2_check, q2_get_counter,
  quota_mt2_destroy, Strto, sub_quota, quota_proc_write,
}
use xtables_addons.Quota2.Budget.{is_granted, granted, remaining, granted_within_quota}
use xtables_addons.Quota2.Write.{after_write, quota_proc_write-Changes}
use xtables_addons.Quota2.Counters.{IsNet, check_released}

-- A plain rule, an inverted one, one that counts packets, and one that counts up.
abbrev rule : ℕ → MtInfo2
rule flags = record { name = b'a' ∷ []; flags = flags; quota = 100 }

abbrev packets : List (MtInfo2 × ℕ)
packets = (rule 0, 60) ∷ (rule 5, 1500) ∷ (rule 1, 80) ∷ (rule 0, 1) ∷ []

granted_test : granted packets 100 ≡ 61
unfolding granted quota_mt2 xor
granted_test = refl

granted_within_quota_example : granted packets 100 + remaining packets 100 ≤ 100
granted_within_quota_example =
    granted_within_quota packets 100
      ((refl, refl), ((refl, refl), ((refl, refl), ((refl, refl), tt))))

refused : is_granted (rule 1) (quota_mt2 (rule 1) 80 39) ≡ false
unfolding quota_mt2 xor
refused = refl

-- A reader of numbers that knows one digit.
abbrev digit : List ℕ → ℕ
digit [] = 0
digit (c ∷ cs) = c - 48

written :
    quota_proc_write
      (record { simple_strtoll = digit; simple_strtoull = digit })
      (λ n. some (b'-' ∷ b'4' ∷ []))
      2
      9
    ≡ some (2, 5)
unfolding quota_proc_write sub_quota
written = refl

abbrev env : Env
env = record { kmalloc_ok = true; proc_create_ok = true }

abbrev net : Quota2Net
net = record {
  next = 4;
  counter_list = record { id = 3; ref = 1; body = record { quota = 50; name = b'a' ∷ [] } } ∷ [];
}

abbrev joined : Quota2Net
joined = record {
  next = 4;
  counter_list = record { id = 3; ref = 2; body = record { quota = 50; name = b'a' ∷ [] } } ∷ [];
}

net-IsNet : IsNet net
unfolding refs
net-IsNet = record { live = (omega arith, refl, tt); fresh = λ j h. ground arith }

joined-IsNet : IsNet joined
unfolding refs
joined-IsNet = record { live = (omega arith, refl, tt); fresh = λ j h. ground arith }

-- The second rule of that name shares the counter.
checked_test : quota_mt2_check env (rule 0) net ≡ checked (named 3) joined
unfolding quota_mt2_check q2_get_counter get_ref
checked_test = refl

check_released_example :
    (refs 3 (quota_mt2_destroy (named 3) joined).counter_list ≡ refs 3 net.counter_list)
    × (0 < refs 3 net.counter_list
        → deref 3 (quota_mt2_destroy (named 3) joined).counter_list ≡ deref 3 net.counter_list)
check_released_example = check_released env (rule 0) net joined (named 3) net-IsNet checked_test 3

-- A reader of a minus and one digit.
abbrev read : List ℕ → ℕ
read [] = 0
read (c ∷ cs) = if c == b'-' then u64_mod - digit cs else digit (c ∷ cs)

abbrev reader : Strto
reader = record { simple_strtoll = read; simple_strtoull = digit }

quota_proc_write-Changes_example :
    (after_write reader (b'+' ∷ b'5' ∷ []) 3 ≡ some (2, 8))
    × (after_write reader (b'-' ∷ b'-' ∷ b'5' ∷ []) 3 ≡ some (3, 8))
    × (after_write reader (b'-' ∷ b'5' ∷ []) 3 ≡ some (2, 0))
    × (after_write reader (b'+' ∷ b'-' ∷ b'5' ∷ []) 3 ≡ some (3, 0))
quota_proc_write-Changes_example =
    quota_proc_write-Changes reader (b'5' ∷ []) (b'-' ∷ b'5' ∷ []) 5 3 (refl, tt) (refl, (refl, tt))
      (omega arith) (omega arith) refl refl (omega arith) (omega arith) (omega arith)
