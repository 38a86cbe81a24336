-- ===== src/Condition/Shared.antt =====
-- Rules that name the same variable share it (extensions/xt_condition.c).
use xtables_addons.Common.{
  ℕ, ◌+◌, ◌%◌, ◌≤◌, ◌<◌, ◌≡◌, refl, ap, Bool, true, false, Option, some, none, List, [], ◌∷◌, ◌==◌,
  xor, arith, Bool-cases, Option-cases, inl, inr,
}
use xtables_addons.Common.Words.{u32_mod}
use xtables_addons.Refs.{Node, get_ref, deref, refs}
use xtables_addons.Quota2.{same_name}
use xtables_addons.Refs.Laws.{IsLive}
use xtables_addons.Condition.{
  Variable, ConditionNet, Kernel, Checked, accepted, rejected, is_named, new_variable, find_or_new,
  condition_mt_check, set_enabled, condition_proc_write, condition_mt,
}

-- The variables in order, and no pointer given out that is still to be allocated.
pub record IsOrdered (net : ConditionNet) : Type 0 where
  pub live : IsLive net.conditions_list
  pub fresh : (j : ℕ) → net.next ≤ j → refs j net.conditions_list ≡ 0

-- The first variable of a name, which is the only one at its pointer.
data Leads (name : List ℕ) (i : ℕ) : List (Node Variable) → Type 0 where
  here :
      {vars : List (Node Variable)} (n : Node Variable)
      → is_named name n.body ≡ true
      → n.id ≡ i
      → Leads name i (n ∷ vars)
  behind :
      {vars : List (Node Variable)} (n : Node Variable)
      → is_named name n.body ≡ false
      → (n.id == i) ≡ false
      → Leads name i vars
      → Leads name i (n ∷ vars)

abbrev LeadsIf : List ℕ → List (Node Variable) → Option (ℕ × List (Node Variable)) → Type 0
LeadsIf name vars none = Unit
LeadsIf name vars (some (i, after)) = Leads name i after × (0 < refs i vars)

get_ref-Leads :
    (name : List ℕ) (vars : List (Node Variable))
    → IsLive vars
    → LeadsIf name vars (get_ref (is_named name) vars)
unfolding get_ref refs
get_ref-Leads name [] live = tt
get_ref-Leads name (n ∷ vars) live = elim (Bool-cases (is_named name n.body)) [
  | inl named ↦ rw named (here (record n { ref = (n.ref + 1) % u32_mod }) named refl, ground arith)
  | inr other ↦ rw other (elim (Option-cases (get_ref (is_named name) vars)) [
    | inl absent ↦ rw absent tt
    | inr ((i, after), e) ↦
        let rest = get_ref-Leads name vars live.2 in
        let found : LeadsIf name vars (some (i, after)) = (rw e at rest) in
        rw e (behind n other (ground (arith, found.1)) found.0, ground (arith, found.1))
  ])
]

-- A variable that was set is found by its name, with what it was set to.
set_enabled-found :
    (name : List ℕ) (i : ℕ) (b : Bool) {vars : List (Node Variable)}
    → Leads name i vars
    → (after : List (Node Variable)) × (var : Variable) × (get_ref
          (is_named name)
          (set_enabled i b vars)
        ≡ some (i, after))
      × (deref i after ≡ some var)
      × (var.enabled ≡ b)
unfolding get_ref set_enabled deref
set_enabled-found name i b (here {vars = vars} n named at_i) =
    let same : (n.id == i) ≡ true = ground arith in
    let set : Variable = record (n.body) { enabled = b } in
    let changed : List (Node Variable) =
      record n { ref = (n.ref + 1) % u32_mod; body = set } ∷ vars in
    rw (same, named) (changed, set, ap (λ j. some (j, changed)) at_i, rw same refl, refl)
set_enabled-found name i b (behind n other away leads) =
    let (after, var, e, d, v) = set_enabled-found name i b leads in
    rw (away, other, e) (n ∷ after, var, refl, rw away d, v)

-- What a check finds or makes is the first variable of the name.
abbrev ChecksIf : List ℕ → Checked → Type 0
ChecksIf name (rejected e) = Unit
ChecksIf name (accepted i net) = Leads name i net.conditions_list

same_name_refl : (name : List ℕ) → same_name name name ≡ true
same_name_refl [] = refl
same_name_refl (c ∷ name) =
    let here : (c == c) ≡ true = ground arith in rw (here, same_name_refl name) refl

condition_mt_check-Leads :
    (kernel : Kernel) (name : List ℕ) (net : ConditionNet)
    → IsOrdered net
    → ChecksIf name (condition_mt_check kernel name net)
unfolding condition_mt_check find_or_new new_variable
condition_mt_check-Leads kernel name net ok = elim (Bool-cases (kernel.name_ok name)) [
  | inr bad ↦ rw bad tt
  | inl good ↦ rw good (elim (Option-cases (get_ref (is_named name) net.conditions_list)) [
    | inr ((i, after), e) ↦
        let rest = get_ref-Leads name net.conditions_list ok.live in
        let found : LeadsIf name net.conditions_list (some (i, after)) = (rw e at rest) in
        rw e found.0
    | inl absent ↦ rw absent (elim (Bool-cases kernel.kmalloc_ok) [
      | inr fails ↦ rw fails tt
      | inl node ↦ rw node (elim (Bool-cases kernel.proc_ok) [
        | inr fails ↦ rw fails tt
        | inl file ↦ rw file (here _ (same_name_refl name) refl)
      ])
    ])
  ])
]

-- The digit for a value.
abbrev pub digit : Bool → ℕ
digit true = b'1'
digit false = b'0'

write_digit :
    (i size : ℕ) (b : Bool) (net : ConditionNet)
    → (size == 0) ≡ false
    → (condition_proc_write i size (some (digit b)) net).1
      ≡ record net { conditions_list = set_enabled i b net.conditions_list }
unfolding condition_proc_write
write_digit i size true net e = rw e refl
write_digit i size false net e = rw e refl

-- On variables in order: once a rule is loaded for a name and user space writes 0 or 1 to the file of
-- its variable, with anything behind, every rule that is then loaded for the name gets the same
-- variable and matches exactly when what was written differs from its inversion flag.
pub condition_switch :
    (kernel later : Kernel) (name : List ℕ) (net first : ConditionNet) (i size : ℕ)
    (b inverted : Bool)
    → IsOrdered net
    → condition_mt_check kernel name net ≡ accepted i first
    → later.name_ok name ≡ true
    → 0 < size
    → (last : ConditionNet) × (condition_mt_check later name
          (condition_proc_write i size (some (digit b)) first).1
        ≡ accepted i last)
      × (condition_mt inverted i last ≡ some (xor b inverted))
unfolding condition_mt_check condition_proc_write condition_mt
condition_switch kernel later name net first i size b inverted ok checked allowed some_bytes =
    let leads_if = condition_mt_check-Leads kernel name net ok in
    let leads : ChecksIf name (accepted i first) = (rw checked at leads_if) in
    let (after, var, e, d, v) = set_enabled-found name i b leads in
    let bytes : (size == 0) ≡ false = ground arith in
    let written : (condition_proc_write i size (some (digit b)) first).1
        ≡ record first { conditions_list = set_enabled i b first.conditions_list } =
      write_digit i size b first bytes in
    rw (written, allowed, e) (record first { conditions_list = after }, refl, rw (d, v) refl)
