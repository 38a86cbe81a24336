-- ===== src/Pknock/Knock/Earned/Sequence.antt =====
-- A peer passes only behind a whole sequence of knocks (`pknock_mt` and the garbage collector of
-- extensions/pknock/xt_pknock.c).
use xtables_addons.Common.{
  ◌≤◌, ◌<◌, ◌≡◌, refl, Bool, true, not, ◌&&◌, ◌||◌, Option, some, none, List, ◌∷◌, ◌==◌, has_flag,
  get_elem?, length, arith, Bool-cases, inl, inr,
}
use xtables_addons.Pknock.{
  Env, MtInfo, xt_pknock_knockport, xt_pknock_checkip, xt_pknock_closesecret,
}
use xtables_addons.Pknock.Peers.{
  status_allowed, Peer, Rule, get_peer, reset_knock_status, autoclose_time_passed,
  has_logged_during_this_minute, is_allowed,
}
use xtables_addons.Pknock.Peers.Laws.{get_peer-AllPeers}
use xtables_addons.Pknock.Secret.{is_close_knock}
use xtables_addons.Pknock.Knock.{
  Packet, is_udp, finish, knock_allowed, refused, knockport, checkip, match_rule,
}
use xtables_addons.Pknock.Knock.Earned.{
  Heard, nothing, IsEarned, AllEarned, later, dropped, put, EarnedIf, update_peer-EarnedIf,
  knock_first-EarnedIf,
}

module _ (info : MtInfo) where
  -- The outcome of a packet: a pass is earned before it, and all peers are earned after it.
  abbrev pub Earns : List Packet → Packet → Option (Bool × Rule) → Type 0
  Earns history hdr none = Unit
  Earns history hdr (some (ret, rule)) =
      (ret ≡ true → Heard info.port hdr.saddr info.ports_count history)
      × AllEarned info (hdr ∷ history) rule

  module _ (history : List Packet) (hdr : Packet) (small : length info.port ≤ 15)
      (some_port : 0 < info.ports_count) where
    refused-Earns : (o : Option Rule) → EarnedIf info history hdr o → Earns history hdr (refused o)
    unfolding refused
    refused-Earns none e = tt
    refused-Earns (some rule) e = (λ h. ground arith, e)

    finish-Earns :
        (env : Env) (rule : Rule) (p : Peer)
        → AllEarned info history rule
        → IsEarned info history p
        → p.ip ≡ hdr.saddr
        → status_allowed p.status ≡ true
        → Earns history hdr (some (finish env hdr rule p))
    unfolding finish
    finish-Earns env rule p all e from allowed =
        elim (Bool-cases (autoclose_time_passed env p rule.autoclose_time)) [
          | inl passed ↦ rw passed (
            λ h. ground arith,
            elim (Bool-cases ((hdr.proto == 6) || not (has_logged_during_this_minute env p))) [
              | inl gone ↦ rw gone (dropped info history hdr small some_port p.ip rule all)
              | inr stays ↦ rw stays (later info history hdr small some_port rule all)
            ],
          )
          | inr still ↦ rw still (
            λ _. rw (← from, ← e.complete allowed) e.heard,
            later info history hdr small some_port rule all,
          )
        ]

    knock_allowed-Earns :
        (env : Env) (rule : Rule) (p : Peer)
        → AllEarned info history rule
        → IsEarned info history p
        → p.ip ≡ hdr.saddr
        → status_allowed p.status ≡ true
        → Earns history hdr (some (knock_allowed env info rule hdr p))
    unfolding knock_allowed
    knock_allowed-Earns env rule p all e from allowed =
        elim (Bool-cases (
          has_flag info.option xt_pknock_closesecret
          && is_udp hdr.proto
          && is_close_knock env info p hdr.payload)) [
            | inl closes ↦ rw closes (
              λ h. ground arith,
              put info history hdr small some_port (reset_knock_status p) rule
                  (record {
                    heard = nothing;
                    complete = λ h. ground arith;
                    waiting = λ _. ground arith;
                  })
                  all,
            )
            | inr other ↦ rw other (finish-Earns env rule p all e from allowed)
          ]

    knockport-Earns :
        (env : Env) (rule : Rule) (o : Option Peer)
        → AllEarned info history rule
        → get_peer hdr.saddr rule.peers ≡ o
        → Earns history hdr (knockport env info rule hdr o)
    unfolding knockport is_allowed
    knockport-Earns env rule none all q =
        refused-Earns _ (
          knock_first-EarnedIf info history hdr small some_port env rule (get_elem? info.port 0)
            all)
    knockport-Earns env rule (some p) all q =
        let (e, from) = get_peer-AllPeers (IsEarned info history) hdr.saddr rule.peers p all q in
        elim (Bool-cases (status_allowed p.status)) [
          | inl allowed ↦ rw allowed (knock_allowed-Earns env rule p all e from allowed)
          | inr other ↦ rw other (
              refused-Earns _
                (update_peer-EarnedIf info history hdr small some_port env rule p all e from other))
        ]

    pub checkip-Earns :
        (env : Env) (rule : Rule) (o : Option Peer)
        → AllEarned info history rule
        → get_peer hdr.saddr rule.peers ≡ o
        → Earns history hdr (some (checkip env rule hdr o))
    unfolding checkip is_allowed
    checkip-Earns env rule none all q =
        (λ h. ground arith, later info history hdr small some_port rule all)
    checkip-Earns env rule (some p) all q =
        let (e, from) = get_peer-AllPeers (IsEarned info history) hdr.saddr rule.peers p all q in
        elim (Bool-cases (status_allowed p.status)) [
          | inl allowed ↦ rw allowed (finish-Earns env rule p all e from allowed)
          | inr other ↦
              rw other (λ h. ground arith, later info history hdr small some_port rule all)
        ]

    pub match_rule-Earns :
        (env : Env) (rule : Rule)
        → AllEarned info history rule
        → Earns history hdr (match_rule env info hdr rule)
    unfolding match_rule
    match_rule-Earns env rule all = elim (Bool-cases (has_flag info.option xt_pknock_checkip)) [
      | inl c ↦ rw c (checkip-Earns env rule (get_peer hdr.saddr rule.peers) all refl)
      | inr c ↦ rw c (elim (Bool-cases (has_flag info.option xt_pknock_knockport)) [
        | inl k ↦ rw k (knockport-Earns env rule (get_peer hdr.saddr rule.peers) all refl)
        | inr k ↦ rw k (λ h. ground arith, later info history hdr small some_port rule all)
      ])
    ]
