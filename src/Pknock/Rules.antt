-- ===== src/Pknock/Rules.antt =====
-- The rules by their names and the entry points of the match (extensions/pknock/xt_pknock.c). The
-- buckets of the hash table are one list: a rule is only looked for in the bucket of its own name.
pub mod Names
use xtables_addons.Common.{
  ℕ, suc, ◌-◌, Bool, true, false, not, ◌&&◌, ◌||◌, Option, some, none, List, [], ◌∷◌, ◌==◌,
  if◌then◌else◌, has_flag, length,
}
use xtables_addons.Pknock.{
  Env, MtInfo, xt_pknock_knockport, xt_pknock_time, xt_pknock_name, xt_pknock_checkip,
  xt_pknock_opensecret, xt_pknock_closesecret, xt_pknock_autoclose,
}
use xtables_addons.Pknock.Peers.{Rule}
use xtables_addons.Pknock.Secret.{same_bytes}
use xtables_addons.Pknock.Knock.{Packet, is_udp, match_rule}

-- Which allocations of a call of `checkentry` succeed.
pub record Setup : Type 0 where
  pub table_ok : Bool
  pub rule_ok : Bool
  pub peers_ok : Bool
  pub proc_ok : Bool

unfoldable pub rulecmp : MtInfo → Rule → Bool
rulecmp info rule =
    if not (length info.rule_name == length rule.rule_name)
    then false
    else same_bytes info.rule_name rule.rule_name

-- `search_rule`, with what is done to the rule that it finds.
unfoldable pub search_rule : MtInfo → List Rule → Option Rule
search_rule info [] = none
search_rule info (r ∷ rs) = if rulecmp info r then some r else search_rule info rs

-- One more user of a rule.
abbrev pub share_rule : MtInfo → Rule → Rule
share_rule info rule =
    if has_flag info.option xt_pknock_opensecret
    then record rule {
      ref_count = suc rule.ref_count;
      max_time = info.max_time;
      autoclose_time = info.autoclose_time;
    }
    else record rule { ref_count = suc rule.ref_count }

unfoldable pub share_named : MtInfo → List Rule → List Rule
share_named info [] = []
share_named info (r ∷ rs) =
    if rulecmp info r then share_rule info r ∷ rs else r ∷ share_named info rs

new_rule : Setup → MtInfo → List Rule → Option (List Rule)
new_rule setup info rules =
    if setup.rule_ok && setup.peers_ok && setup.proc_ok
    then some (
        record {
          rule_name = info.rule_name;
          ref_count = 1;
          timer = none;
          peers = [];
          max_time = info.max_time;
          autoclose_time = info.autoclose_time;
        }
        ∷ rules)
    else none

add_or_share : Setup → MtInfo → List Rule → Option Rule → Option (List Rule)
add_or_share setup info rules none = new_rule setup info rules
add_or_share setup info rules (some rule) = some (share_named info rules)

unfoldable pub add_rule : Setup → MtInfo → List Rule → Option (List Rule)
unfolding add_or_share new_rule share_named
add_rule setup info rules = add_or_share setup info rules (search_rule info rules)

-- A rule on the list counts one user at least.
unfoldable pub remove_rule : MtInfo → List Rule → List Rule
remove_rule info [] = []
remove_rule info (r ∷ rs) =
    if rulecmp info r
    then (if r.ref_count == 1 then rs else record r { ref_count = r.ref_count - 1 } ∷ rs)
    else r ∷ remove_rule info rs

-- The tests of the options before `add_rule`.
unfoldable pub is_refused : MtInfo → Bool
is_refused info =
    let has : ℕ → Bool = λ flag. has_flag info.option flag in
    if not (has xt_pknock_name)
    then true
    else if has xt_pknock_opensecret && not (info.ports_count == 1)
    then true
    else if has xt_pknock_knockport
        && (has xt_pknock_checkip
            || has xt_pknock_opensecret && not (has xt_pknock_closesecret)
            || has xt_pknock_closesecret && not (has xt_pknock_opensecret))
    then true
    else if has xt_pknock_checkip
        && (has xt_pknock_knockport
            || (has xt_pknock_opensecret || has xt_pknock_closesecret)
            || has xt_pknock_time
            || has xt_pknock_autoclose)
    then true
    else if not (has xt_pknock_checkip) && not (has xt_pknock_opensecret || has xt_pknock_time)
    then true
    else has xt_pknock_opensecret
      && (length info.open_secret == length info.close_secret)
      && same_bytes info.open_secret info.close_secret

-- The end of `checkentry`: whether it accepts, and the rules.
checked : List Rule → Option (List Rule) → Bool × Option (List Rule)
checked rules none = (false, some rules)
checked rules (some next) = (true, some next)

check_rules : Setup → MtInfo → List Rule → Bool × Option (List Rule)
check_rules setup info rules =
    if is_refused info then (false, some rules) else checked rules (add_rule setup info rules)

-- `none` for the rules is the table before its first use.
unfoldable pub pknock_mt_check : Setup → MtInfo → Option (List Rule) → Bool × Option (List Rule)
unfolding check_rules checked is_refused
pknock_mt_check setup info none =
    if setup.table_ok then check_rules setup info [] else (false, none)
pknock_mt_check setup info (some rules) = check_rules setup info rules

unfoldable pub pknock_mt_destroy : MtInfo → List Rule → List Rule
pknock_mt_destroy info rules = remove_rule info rules

-- A packet: its ports, `none` where `skb_header_pointer` finds none, and of the IP header the
-- protocol and the source address; `payload` is what follows a UDP header.
pub record SkBuff : Type 0 where
  pub dest : Option ℕ
  pub protocol : ℕ
  pub saddr : ℕ
  pub payload : List ℕ

pub record Matched : Type 0 where
  pub hotdrop : Bool
  pub ret : Bool
  pub rules : List Rule

in_front : Rule → Option (Bool × List Rule) → Option (Bool × List Rule)
in_front r none = none
in_front r (some (ret, rs)) = some (ret, r ∷ rs)

in_place : List Rule → Option (Bool × Rule) → Option (Bool × List Rule)
in_place rs none = none
in_place rs (some (ret, r)) = some (ret, r ∷ rs)

-- `search_rule` and the match in the rule that it finds.
unfoldable pub match_named : Env → MtInfo → Packet → List Rule → Option (Bool × List Rule)
unfolding in_front in_place
match_named env info hdr [] = some (false, [])
match_named env info hdr (r ∷ rs) =
    let rest = match_named env info hdr rs in
    if rulecmp info r then in_place rs (match_rule env info hdr r) else in_front r rest

matched : Option (Bool × List Rule) → Option Matched
matched none = none
matched (some (ret, rules)) = some (record { hotdrop = false; ret = ret; rules = rules })

match_ports : Env → MtInfo → SkBuff → List Rule → Option ℕ → Option Matched
match_ports env info skb rules none = some (record { hotdrop = true; ret = false; rules = rules })
match_ports env info skb rules (some port) =
    if not ((skb.protocol == 6) || is_udp skb.protocol)
    then some (record { hotdrop = false; ret = false; rules = rules })
    else matched (
        match_named env info
          (record {
            port = port;
            proto = skb.protocol;
            saddr = skb.saddr;
            payload = if is_udp skb.protocol then skb.payload else [];
          })
          rules)

unfoldable pub pknock_mt : Env → MtInfo → SkBuff → List Rule → Option Matched
unfolding match_ports matched match_named
pknock_mt env info skb rules = match_ports env info skb rules skb.dest
