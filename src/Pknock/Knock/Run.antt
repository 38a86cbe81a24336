-- ===== src/Pknock/Knock/Run.antt =====
-- The packets and garbage collections that a rule meets one after the other, and what its match
-- promises of them (extensions/pknock/xt_pknock.c).
use xtables_addons.Common.{◌≤◌, ◌<◌, ◌≡◌, Bool, true, some, List, [], ◌∷◌, has_flag, length, refl}
use xtables_addons.Pknock.{Env, MtInfo, xt_pknock_checkip}
use xtables_addons.Pknock.Peers.{Rule, get_peer, peer_gc, is_stale}
use xtables_addons.Pknock.Peers.Laws.{keep_peers-AllPeers}
use xtables_addons.Pknock.Knock.{Packet, match_rule}
use xtables_addons.Pknock.Knock.Earned.{Heard, IsEarned, AllEarned}
use xtables_addons.Pknock.Knock.Earned.Sequence.{Earns, checkip-Earns, match_rule-Earns}

-- A second use of the rule by its name: the knocks themselves, or `--checkip`.
pub data Shares (info checked : MtInfo) : Type 0 where
  knocks : checked ≡ info → Shares info checked
  checks : has_flag checked.option xt_pknock_checkip ≡ true → Shares info checked

-- The rule of `info` after the packets of a history, newest first, from when it had no peers.
pub data Reached (info : MtInfo) : List Packet → Rule → Type 0 where
  start : {rule : Rule} → rule.peers ≡ [] → Reached info [] rule
  packet :
      {history : List Packet} {rule next : Rule} {ret : Bool} (env : Env) (checked : MtInfo)
      (hdr : Packet)
      → Reached info history rule
      → Shares info checked
      → match_rule env checked hdr rule ≡ some (ret, next)
      → Reached info (hdr ∷ history) next
  collect :
      {history : List Packet} {rule : Rule} (env : Env)
      → Reached info history rule
      → Reached info history (peer_gc env rule)

module _ (info : MtInfo) (small : length info.port ≤ 15) (some_port : 0 < info.ports_count) where
  match_shared-Earns :
      (env : Env) (checked : MtInfo) (history : List Packet) (hdr : Packet) (rule : Rule)
      → Shares info checked
      → AllEarned info history rule
      → Earns info history hdr (match_rule env checked hdr rule)
  unfolding match_rule
  match_shared-Earns env checked history hdr rule (knocks same) all =
      rw same (match_rule-Earns info history hdr small some_port env rule all)
  match_shared-Earns env checked history hdr rule (checks c) all = rw c (
      checkip-Earns info history hdr small some_port env rule (get_peer hdr.saddr rule.peers) all
        refl)

  pub Reached-AllEarned :
      (history : List Packet) (rule : Rule)
      → Reached info history rule
      → AllEarned info history rule
  unfolding peer_gc
  Reached-AllEarned history rule (start none) = rw none tt
  Reached-AllEarned history rule
        (packet {history = before} {rule = was} {next = next} {ret = ret} env checked hdr r s e) =
      let earns =
        match_shared-Earns env checked before hdr was s (Reached-AllEarned before was r) in
      let now : Earns info before hdr (some (ret, next)) = (rw e at earns) in now.1
  Reached-AllEarned history rule (collect {rule = was} env r) =
      keep_peers-AllPeers (IsEarned info history) (is_stale env was) was.peers
        (Reached-AllEarned history was r)

-- Whatever packets and garbage collections a rule of one port at least, whose array has at most 15
-- places, has met since it had no peers, with their times and secrets, it lets a packet pass only when
-- packets from its address have knocked before at the ports of the rule, `ports_count` of them, in
-- order.
pub match_rule-Heard :
    (info checked : MtInfo) (env : Env) (history : List Packet) (hdr : Packet) (rule next : Rule)
    → length info.port ≤ 15
    → 0 < info.ports_count
    → Reached info history rule
    → Shares info checked
    → match_rule env checked hdr rule ≡ some (true, next)
    → Heard info.port hdr.saddr info.ports_count history
match_rule-Heard info checked env history hdr rule next small some_port r s e =
    let earns =
      match_shared-Earns info small some_port env checked history hdr rule s
        (Reached-AllEarned info small some_port history rule r) in
    let now : Earns info history hdr (some (true, next)) = (rw e at earns) in now.0 refl
