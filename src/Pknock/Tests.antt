-- ===== src/Pknock/Tests.antt =====
-- Runs of pknock (extensions/pknock/xt_pknock.c) on small inputs.
use xtables_addons.Common.{
  ℕ, ◌%◌, ◌≡◌, refl, sym, ◌∙◌, inr, Bool, true, false, Option, some, none, List, [], ◌∷◌, map,
  arith,
}
use xtables_addons.Pknock.{Env, MtInfo}
use xtables_addons.Pknock.Peers.{
  Rule, Peer, peer_gc, get_peer, new_peer, set_peer, is_allowed, is_interknock_time_exceeded,
  autoclose_time_passed,
}
use xtables_addons.Pknock.Secret.{has_secret}
use xtables_addons.Pknock.Knock.{Packet, update_peer, match_rule}
use xtables_addons.Pknock.Knock.Earned.{Heard}
use xtables_addons.Pknock.Knock.Run.{Reached, start, packet, knocks, match_rule-Heard}
use xtables_addons.Pknock.Knock.Faults.{match_rule-returns}
use xtables_addons.Pknock.Knock.Progress.{Plain}
use xtables_addons.Pknock.Knock.Open.{Later, collect, knock_through, knock_through-opens}
use mathlib.Core.Path.{subst}
use mathlib.Core.Option.{some-injective}
use xtables_addons.Pknock.Rules.{Setup, search_rule, add_rule, remove_rule}
use xtables_addons.Pknock.Rules.Names.{identity, remove_rule-add_rule}

abbrev now : ℕ → Env
now seconds = record {
  jiffies_sec = 500;
  seconds = seconds;
  kmalloc_ok = true;
  do_div = λ n base. n % base;
  hmac_size = 1;
  hmac = λ secret ip number. some (number ∷ []);
}

-- `--name a --knockports 10,20 --time 5`
abbrev two_ports : MtInfo
two_ports = record {
  rule_name = b'a' ∷ [];
  open_secret = [];
  close_secret = [];
  option = 7;
  ports_count = 2;
  port = 10 ∷ 20 ∷ 0 ∷ 0 ∷ 0 ∷ 0 ∷ 0 ∷ 0 ∷ 0 ∷ 0 ∷ 0 ∷ 0 ∷ 0 ∷ 0 ∷ 0 ∷ [];
  max_time = 5;
  autoclose_time = 0;
}

abbrev with_peers : List Peer → Option ℕ → Rule
with_peers peers timer = record {
  rule_name = b'a' ∷ [];
  ref_count = 1;
  timer = timer;
  peers = peers;
  max_time = 5;
  autoclose_time = 0;
}

abbrev at_port : ℕ → Packet
at_port port = record { port = port; proto = 6; saddr = 77; payload = [] }

abbrev after : Option (Bool × Rule) → Rule
after none = with_peers [] none
after (some (ret, rule)) = rule

abbrev after_one : Rule
after_one = after (match_rule (now 100) two_ports (at_port 10) (with_peers [] none))

abbrev after_two : Rule
after_two = after (match_rule (now 101) two_ports (at_port 20) after_one)

reached_two : Reached two_ports (at_port 20 ∷ at_port 10 ∷ []) after_two
unfolding match_rule get_peer new_peer update_peer is_interknock_time_exceeded set_peer is_allowed
reached_two =
    packet (now 101) two_ports (at_port 20)
      (packet (now 100) two_ports (at_port 10) (start {rule = with_peers [] none} refl)
        (knocks refl) refl)
      (knocks refl) refl

passes : match_rule (now 102) two_ports (at_port 99) after_two ≡ some (true, after_two)
unfolding match_rule get_peer new_peer update_peer is_interknock_time_exceeded set_peer is_allowed
    autoclose_time_passed
passes = refl

match_rule-Heard_example : Heard two_ports.port 77 2 (at_port 20 ∷ at_port 10 ∷ [])
match_rule-Heard_example =
    match_rule-Heard two_ports two_ports (now 102) (at_port 20 ∷ at_port 10 ∷ []) (at_port 99)
      after_two after_two (ground arith) (ground arith) reached_two (knocks refl) passes

match_rule-returns_example :
    (out : Bool × Rule) × (match_rule (now 102) two_ports (at_port 99) after_two ≡ some out)
match_rule-returns_example =
    match_rule-returns two_ports (now 102) (at_port 20 ∷ at_port 10 ∷ []) (at_port 99) after_two
      (ground arith) (ground arith) (ground arith) refl reached_two

two_ports-Plain : Plain (now 100) two_ports
two_ports-Plain = record {
  knockport_set = refl;
  checkip_clear = refl;
  opensecret_clear = refl;
  closesecret_clear = refl;
  count_known = ground arith;
  count_small = ground arith;
  max_time_small = ground arith;
  jiffies_small = ground arith;
  memory = refl;
}

-- The rule after the two knocks, then after a stranger's knock, then after a collection.
abbrev opened : Rule
opened = after (
    match_rule (now 100) two_ports (at_port 20)
      (after (match_rule (now 100) two_ports (at_port 10) (with_peers [] none))))

abbrev stranger : Packet
stranger = record { port = 10; proto = 6; saddr = 99; payload = [] }

abbrev crowded : Rule
crowded = after (match_rule (now 400) two_ports stranger opened)

abbrev last : Rule
last = peer_gc (now 500) crowded

knocked : knock_through (now 100) two_ports 6 77 2 (with_peers [] none) ≡ some opened
unfolding knock_through match_rule get_peer new_peer update_peer is_interknock_time_exceeded
    set_peer is_allowed
knocked = refl

knocked_later : Later opened last
unfolding match_rule get_peer new_peer update_peer is_interknock_time_exceeded set_peer is_allowed
knocked_later = collect (now 500) (
    Later.packet {ret = false} (now 400) two_ports stranger Later.now (inr (refl, refl, refl)) refl)

from_knocked :
    (next : Rule)
    → knock_through (now 100) two_ports 6 77 2 (with_peers [] none) ≡ some next
    → Later next last
from_knocked next e =
    let same : opened ≡ next = some-injective opened next (sym knocked ∙ e) in
    subst (λ r. Later r last) same knocked_later

knock_through-opens_example :
    (next : Rule) × (knock_through (now 100) two_ports 6 77 2 (with_peers [] none) ≡ some next)
    × (match_rule (now 900) two_ports (at_port 99) last ≡ some (true, last))
unfolding get_peer
knock_through-opens_example =
    knock_through-opens (now 100) (now 900) two_ports two_ports (at_port 99) (with_peers [] none)
      last two_ports-Plain (ground arith) refl refl from_knocked (inr (refl, refl, refl))

-- The hexadecimal digits of the 42 that the HMAC above answers are a good payload.
good : has_secret (now 42) (b's' ∷ []) 77 (b'2' ∷ b'a' ∷ 0 ∷ []) ≡ true
unfolding has_secret
good = refl

abbrev in_order : Setup
in_order = record { table_ok = true; rule_ok = true; peers_ok = true; proc_ok = true }

remove_rule-add_rule_example :
    map identity (remove_rule two_ports (with_peers [] none ∷ [])) ≡ map identity []
unfolding add_rule search_rule
remove_rule-add_rule_example =
    remove_rule-add_rule in_order two_ports [] (with_peers [] none ∷ []) tt refl
