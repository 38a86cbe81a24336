-- ===== src/Pknock/Rules/Names.antt =====
-- What the entry points of pknock do to the rules of other names, and to their counts
-- (extensions/pknock/xt_pknock.c).
use xtables_addons.Common.{
  ℕ, suc, ◌-◌, ◌<◌, ◌≡◌, refl, ap, true, false, ◌&&◌, Option, some, none, List, [], ◌∷◌, ◌==◌,
  has_flag, length, map, arith, Bool-cases, inl, inr,
}
use xtables_addons.Pknock.{MtInfo, xt_pknock_opensecret}
use xtables_addons.Pknock.Peers.{Rule}
use xtables_addons.Pknock.Secret.{same_bytes}
use xtables_addons.Pknock.Rules.{
  Setup, rulecmp, search_rule, share_rule, share_named, new_rule, add_or_share, add_rule,
  remove_rule,
}

-- A rule without its times, which a further user may set.
abbrev pub identity : Rule → List ℕ × ℕ
identity r = (r.rule_name, r.ref_count)

abbrev pub AllUsed : List Rule → Type 0
AllUsed [] = Unit
AllUsed (r ∷ rs) = (0 < r.ref_count) × AllUsed rs

same_bytes_refl : (xs : List ℕ) → same_bytes xs xs ≡ true
same_bytes_refl [] = refl
same_bytes_refl (x ∷ xs) =
    let here : (x == x) ≡ true = ground arith in rw (here, same_bytes_refl xs) refl

rulecmp_share : (info : MtInfo) (r : Rule) → rulecmp info (share_rule info r) ≡ rulecmp info r
unfolding rulecmp
rulecmp_share info r = elim (Bool-cases (has_flag info.option xt_pknock_opensecret)) [
  | inl secret ↦ rw secret refl
  | inr plain ↦ rw plain refl
]

ref_count_share : (info : MtInfo) (r : Rule) → (share_rule info r).ref_count ≡ suc r.ref_count
ref_count_share info r = elim (Bool-cases (has_flag info.option xt_pknock_opensecret)) [
  | inl secret ↦ rw secret refl
  | inr plain ↦ rw plain refl
]

rule_name_share : (info : MtInfo) (r : Rule) → (share_rule info r).rule_name ≡ r.rule_name
rule_name_share info r = elim (Bool-cases (has_flag info.option xt_pknock_opensecret)) [
  | inl secret ↦ rw secret refl
  | inr plain ↦ rw plain refl
]

remove_shared :
    (info : MtInfo) (rules : List Rule) (rule : Rule)
    → AllUsed rules
    → search_rule info rules ≡ some rule
    → map identity (remove_rule info (share_named info rules)) ≡ map identity rules
unfolding search_rule share_named remove_rule
remove_shared info [] rule used e = ground arith
remove_shared info (r ∷ rs) rule used e = elim (Bool-cases (rulecmp info r)) [
  | inl same ↦
      let compared = rulecmp_share info r in
      let count = ref_count_share info r in
      let more : ((share_rule info r).ref_count == 1) ≡ false = ground (arith, used.0) in
      let back : suc r.ref_count - 1 ≡ r.ref_count = omega arith in
      rw (same, compared, same, more, count, back, rule_name_share info r) refl
  | inr other ↦
      rw (other, other)
        (ap (λ l. identity r ∷ l) (remove_shared info rs rule used.1 (rw other at e)))
]

remove_new :
    (setup : Setup) (info : MtInfo) (rules next : List Rule)
    → new_rule setup info rules ≡ some next
    → remove_rule info next ≡ rules
unfolding new_rule remove_rule rulecmp
remove_new setup info rules next e =
    elim (Bool-cases (setup.rule_ok && setup.peers_ok && setup.proc_ok)) [
      | inr fails ↦ ground (arith, rw fails at e)
      | inl works ↦
          let fresh : Rule = record {
            rule_name = info.rule_name;
            ref_count = 1;
            timer = none;
            peers = [];
            max_time = info.max_time;
            autoclose_time = info.autoclose_time;
          } in
          let made : ◌≡◌ {A = Option (List Rule)} (some (fresh ∷ rules)) (some next) =
            (rw works at e) in
          let here : fresh ∷ rules ≡ next = ground arith in
          let long : (length info.rule_name == length info.rule_name) ≡ true = ground arith in
          rw (← here, long, same_bytes_refl info.rule_name) refl
    ]

remove_added :
    (setup : Setup) (info : MtInfo) (rules next : List Rule) (o : Option Rule)
    → AllUsed rules
    → search_rule info rules ≡ o
    → add_or_share setup info rules o ≡ some next
    → map identity (remove_rule info next) ≡ map identity rules
unfolding add_or_share
remove_added setup info rules next (some rule) used q e =
    let here : share_named info rules ≡ next = ground arith in
    rw (← here) (remove_shared info rules rule used q)
remove_added setup info rules next none used q e = rw (remove_new setup info rules next e) refl

-- Adding a rule for a name and taking it away again leaves the names of the rules and their counts
-- of users as they were, whether the rule was there or is new, where each rule before has a user.
pub remove_rule-add_rule :
    (setup : Setup) (info : MtInfo) (rules next : List Rule)
    → AllUsed rules
    → add_rule setup info rules ≡ some next
    → map identity (remove_rule info next) ≡ map identity rules
unfolding add_rule
remove_rule-add_rule setup info rules next used e =
    remove_added setup info rules next (search_rule info rules) used refl e
