-- ===== src/Condition/Tests.antt =====
-- Runs of the condition match (extensions/xt_condition.c).
use xtables_addons.Common.{◌≡◌, refl, true, false, some, [], ◌∷◌, xor, arith}
use xtables_addons.Refs.{get_ref, refs}
use xtables_addons.Condition.{
  ConditionNet, Kernel, accepted, condition_mt_check, condition_proc_write, condition_mt,
}
use xtables_addons.Condition.Shared.{IsOrdered, digit, condition_switch}

abbrev kernel : Kernel
kernel = record { name_ok = λ name. true; kmalloc_ok = true; proc_ok = true }

abbrev net : ConditionNet
net = record { next = 5; conditions_list = [] }

abbrev one : ConditionNet
one = record {
  next = 6;
  conditions_list =
      record { id = 5; ref = 1; body = record { name = b'u' ∷ b'p' ∷ []; enabled = false } } ∷ [];
}

net-IsOrdered : IsOrdered net
unfolding refs
net-IsOrdered = record { live = tt; fresh = λ j h. refl }

condition_switch_example :
    (last : ConditionNet) × (condition_mt_check kernel
        (b'u' ∷ b'p' ∷ [])
        (condition_proc_write 5 2 (some (digit true)) one).1
      ≡ accepted 5 last)
    × (condition_mt true 5 last ≡ some (xor true true))
unfolding condition_mt_check get_ref
condition_switch_example =
    condition_switch kernel kernel (b'u' ∷ b'p' ∷ []) net one 5 2 true true net-IsOrdered refl refl
      (ground arith)
