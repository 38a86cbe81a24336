-- ===== src/Pknock/Knock/Open.antt =====
-- Knocking in order opens (`pknock_mt` of extensions/pknock/xt_pknock.c).
use xtables_addons.Common.{
  ◌⊎◌, has_flag, ℕ, zero, suc, ◌-◌, ◌<◌, ◌≡◌, refl, Bool, true, false, Option, some, none, [],
  get_elem?, get_elem?-lt, arith,
}
use mathlib.Core.Path.{subst}
use xtables_addons.Pknock.{
  Env, MtInfo, xt_pknock_knockport, xt_pknock_checkip, xt_pknock_closesecret,
}
use xtables_addons.Pknock.Peers.{Rule, get_peer, peer_gc}
use xtables_addons.Pknock.Knock.{Packet, match_rule}
use xtables_addons.Pknock.Knock.Kept.{IsOpen, peer_gc-IsOpen, match_rule-passes, match_rule-IsOpen}
use xtables_addons.Pknock.Knock.Progress.{
  Plain, Progress, match_rule-Progress, match_rule-Progress_first,
}

rule_of : Option (Bool × Rule) → Option Rule
rule_of none = none
rule_of (some (ret, rule)) = some rule

knock_port : Env → MtInfo → ℕ → ℕ → Option ℕ → Option Rule → Option Rule
knock_port env info proto saddr none rule = none
knock_port env info proto saddr (some port) none = none
knock_port env info proto saddr (some port) (some rule) =
    rule_of (
      match_rule env info (record { port = port; proto = proto; saddr = saddr; payload = [] }) rule)

-- The rule after one address has knocked at the first ports of a rule, one after the other.
unfoldable pub knock_through : Env → MtInfo → ℕ → ℕ → ℕ → Rule → Option Rule
unfolding knock_port rule_of
knock_through env info proto saddr zero rule = some rule
knock_through env info proto saddr (suc n) rule =
    knock_port env info proto saddr (get_elem? info.port n)
      (knock_through env info proto saddr n rule)

module _ (env : Env) (info : MtInfo) (proto saddr : ℕ) (plain : Plain env info) where
  knock_through-Progress :
      (n : ℕ) (rule : Rule)
      → n < info.ports_count
      → get_peer saddr rule.peers ≡ none
      → rule.autoclose_time ≡ 0
      → (next : Rule) × (knock_through env info proto saddr (suc n) rule ≡ some next)
        × Progress env info proto saddr plain (suc n) next
  unfolding knock_through knock_port rule_of
  knock_through-Progress zero rule room unknown never =
      let (port, at) = get_elem?-lt info.port 0 (omega (arith, room, plain.count_known)) in
      let (next, e, progress) =
        match_rule-Progress_first env info proto saddr plain port rule room at unknown never in
      rw (at, e) (next, refl, progress)
  knock_through-Progress (suc n) rule room unknown never =
      let (port, at) = get_elem?-lt info.port (suc n) (omega (arith, room, plain.count_known)) in
      let (before, e, progress) =
        knock_through-Progress n rule (omega (arith, room)) unknown never in
      let (next, f, after) =
        match_rule-Progress env info proto saddr plain (suc n) port before room at progress in
      rw (at, e, f) (next, refl, after)

  Progress-IsOpen :
      (rule : Rule) → Progress env info proto saddr plain info.ports_count rule → IsOpen saddr rule
  Progress-IsOpen rule done = record {
    peer = done.peer;
    found = done.found;
    allowed = ground (arith, done.allowed);
    never = done.never;
  }

-- A use of the rule that does not close it to a peer: the same ports without a secret to close, or
-- `--checkip`.
abbrev pub Uses : MtInfo → Type 0
Uses checked =
    (has_flag checked.option xt_pknock_checkip ≡ true)
    ⊎ ((has_flag checked.option xt_pknock_checkip ≡ false)
        × (has_flag checked.option xt_pknock_knockport ≡ true)
        × (has_flag checked.option xt_pknock_closesecret ≡ false))

-- A rule later on: after packets of any addresses and collections, in any order and at any times.
pub data Later : Rule → Rule → Type 0 where
  now : {rule : Rule} → Later rule rule
  packet :
      {rule middle next : Rule} {ret : Bool} (env : Env) (checked : MtInfo) (hdr : Packet)
      → Later rule middle
      → Uses checked
      → match_rule env checked hdr middle ≡ some (ret, next)
      → Later rule next
  collect : {rule middle : Rule} (env : Env) → Later rule middle → Later rule (peer_gc env middle)

Later-IsOpen : (ip : ℕ) (rule next : Rule) → Later rule next → IsOpen ip rule → IsOpen ip next
Later-IsOpen ip rule next now is = is
Later-IsOpen ip rule next (packet {middle = middle} {ret = ret} env checked hdr before uses e) is =
    match_rule-IsOpen env checked hdr ip middle {ret = ret} {next = next} uses
      (Later-IsOpen ip rule middle before is) e
Later-IsOpen ip rule next (collect {middle = middle} env before) is =
    peer_gc-IsOpen env ip middle (Later-IsOpen ip rule middle before is)

-- When the array of a rule, of at most 15 places, holds its ports, one at least, without secrets and
-- without a time to close, and an address without a peer knocks at all of them in order, by TCP, with
-- memory and at one moment, then each knock returns; and in whatever state packets of any addresses and
-- garbage collections at any times lead to from there, by rules of the name that either have ports and
-- no secret to close or are --checkip, each packet of the address passes at every such rule.
pub knock_through-opens :
    (env later : Env) (info checked : MtInfo) (hdr : Packet) (rule last : Rule)
    → Plain env info
    → 0 < info.ports_count
    → get_peer hdr.saddr rule.peers ≡ none
    → rule.autoclose_time ≡ 0
    → ((next : Rule)
        → knock_through env info 6 hdr.saddr info.ports_count rule ≡ some next
        → Later next last)
    → Uses checked
    → (next : Rule) × (knock_through env info 6 hdr.saddr info.ports_count rule ≡ some next)
      × (match_rule later checked hdr last ≡ some (true, last))
knock_through-opens env later info checked hdr rule last plain room unknown never follows uses =
    let all : suc (info.ports_count - 1) ≡ info.ports_count = omega (arith, room) in
    let (next, e, progress) =
      knock_through-Progress env info 6 hdr.saddr plain (info.ports_count - 1) rule
        (omega (arith, room)) unknown never in
    let knocked = subst (λ n. knock_through env info 6 hdr.saddr n rule ≡ some next) all e in
    let is =
      Progress-IsOpen env info 6 hdr.saddr plain next
        (subst (λ n. Progress env info 6 hdr.saddr plain n next) all progress) in
    (
      next,
      knocked,
      match_rule-passes later checked hdr last uses
          (Later-IsOpen hdr.saddr next last (follows next knocked) is),
    )
