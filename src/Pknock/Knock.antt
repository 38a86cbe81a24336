-- ===== src/Pknock/Knock.antt =====
-- The match on a packet (`pknock_mt` of extensions/pknock/xt_pknock.c) in the rule that it found.
-- `none` is a fault: a read behind the array of ports, or the use of a null pointer.
pub mod Earned
pub mod Faults
pub mod Run
pub mod Progress
pub mod Kept
pub mod Open
use xtables_addons.Common.{
  ℕ, suc, ◌+◌, ◌%◌, Bool, true, false, not, ◌&&◌, ◌||◌, Option, some, none, List, [], ◌∷◌, ◌==◌,
  if◌then◌else◌, has_flag, get_elem?,
}
use xtables_addons.Common.Words.{u32_mod}
use xtables_addons.Pknock.{
  Env, MtInfo, xt_pknock_knockport, xt_pknock_time, xt_pknock_strict, xt_pknock_checkip,
  xt_pknock_opensecret, xt_pknock_closesecret,
}
use xtables_addons.Pknock.Peers.{
  Status, st_init, st_matching, st_allowed, Peer, Rule, get_peer, set_peer, remove_peer,
  reset_knock_status, new_peer, autoclose_time_passed, is_interknock_time_exceeded,
  has_logged_during_this_minute, is_allowed,
}
use xtables_addons.Pknock.Secret.{pass_security, is_close_knock}

-- A packet of TCP or UDP: its destination port, protocol, source address and UDP payload.
pub record Packet : Type 0 where
  pub port : ℕ
  pub proto : ℕ
  pub saddr : ℕ
  pub payload : List ℕ

abbrev pub is_udp : ℕ → Bool
is_udp proto = (proto == 17) || (proto == 136)

abbrev pub gc_expir_sec : ℕ
gc_expir_sec = 65

update_rule_gc_timer : Env → Rule → Rule
update_rule_gc_timer env rule = record rule { timer = some (env.jiffies_sec + gc_expir_sec) }

put_peer : Peer → Rule → Rule
put_peer p rule = record rule { peers = set_peer p rule.peers }

drop_peer : ℕ → Rule → Rule
drop_peer ip rule = record rule { peers = remove_peer ip rule.peers }

-- What follows an accepted knock.
advance : Env → MtInfo → Rule → Peer → Rule
advance env info rule peer =
    let timed = update_rule_gc_timer env rule in
    let p = record peer { accepted_knock_count = (peer.accepted_knock_count + 1) % u32_mod } in
    if p.accepted_knock_count == info.ports_count
    then put_peer (record p { status = st_allowed; login_sec = env.seconds }) timed
    else if has_flag info.option xt_pknock_time
    then (if is_interknock_time_exceeded env p info.max_time
        then drop_peer p.ip timed
        else put_peer (record p { timestamp = env.jiffies_sec; status = st_matching }) timed)
    else put_peer (record p { status = st_matching }) timed

expect_port : Env → MtInfo → Rule → Peer → Packet → Option ℕ → Option Rule
expect_port env info rule peer hdr none = none
expect_port env info rule peer hdr (some port) = some (
    if not (port == hdr.port)
    then (if has_flag info.option xt_pknock_strict then drop_peer peer.ip rule else rule)
    else if has_flag info.option xt_pknock_opensecret
        && (not (is_udp hdr.proto) || not (pass_security env info peer hdr.payload))
    then rule
    else advance env info rule peer)

unfoldable pub update_peer : Env → MtInfo → Rule → Peer → Packet → Option Rule
unfolding expect_port advance put_peer drop_peer update_rule_gc_timer
update_peer env info rule peer hdr =
    expect_port env info rule peer hdr (get_elem? info.port peer.accepted_knock_count)

-- A packet of an address without a peer.
knock_new : Env → MtInfo → Rule → Packet → Option Peer → Option Rule
knock_new env info rule hdr none = none
knock_new env info rule hdr (some peer) =
    update_peer env info (record rule { peers = peer ∷ rule.peers }) peer hdr

knock_first : Env → MtInfo → Rule → Packet → Option ℕ → Option Rule
knock_first env info rule hdr none = none
knock_first env info rule hdr (some port) =
    if port == hdr.port
    then knock_new env info rule hdr (new_peer env hdr.saddr hdr.proto)
    else some rule

-- The end of the match: an allowed peer whose time has passed is refused, and may be removed.
finish : Env → Packet → Rule → Peer → Bool × Rule
finish env hdr rule peer =
    if autoclose_time_passed env peer rule.autoclose_time
    then (
      false,
      if (hdr.proto == 6) || not (has_logged_during_this_minute env peer)
          then drop_peer peer.ip rule
          else rule,
    )
    else (true, rule)

-- A packet of an allowed peer.
knock_allowed : Env → MtInfo → Rule → Packet → Peer → Bool × Rule
knock_allowed env info rule hdr peer =
    if has_flag info.option xt_pknock_closesecret
      && is_udp hdr.proto
      && is_close_knock env info peer hdr.payload
    then (false, put_peer (reset_knock_status peer) rule)
    else finish env hdr rule peer

refused : Option Rule → Option (Bool × Rule)
refused none = none
refused (some rule) = some (false, rule)

knockport : Env → MtInfo → Rule → Packet → Option Peer → Option (Bool × Rule)
knockport env info rule hdr none = refused (knock_first env info rule hdr (get_elem? info.port 0))
knockport env info rule hdr (some peer) =
    if is_allowed (some peer)
    then some (knock_allowed env info rule hdr peer)
    else refused (update_peer env info rule peer hdr)

pub checkip : Env → Rule → Packet → Option Peer → Bool × Rule
checkip env rule hdr none = (false, rule)
checkip env rule hdr (some peer) =
    if is_allowed (some peer) then finish env hdr rule peer else (false, rule)

-- From `get_peer` on, with the lock held.
unfoldable pub match_rule : Env → MtInfo → Packet → Rule → Option (Bool × Rule)
unfolding knockport checkip refused knock_first knock_new knock_allowed finish put_peer drop_peer
match_rule env info hdr rule =
    let peer = get_peer hdr.saddr rule.peers in
    if has_flag info.option xt_pknock_checkip
    then some (checkip env rule hdr peer)
    else if has_flag info.option xt_pknock_knockport
    then knockport env info rule hdr peer
    else some (false, rule)
