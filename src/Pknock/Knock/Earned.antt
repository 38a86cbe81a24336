-- ===== src/Pknock/Knock/Earned.antt =====
-- What a knock leaves in the peers of a rule (`update_peer` and the first knock in `pknock_mt` of
-- extensions/pknock/xt_pknock.c).
pub mod Sequence
use xtables_addons.Common.{
  ℕ, zero, suc, ◌+◌, ◌%◌, ◌≤◌, ◌<◌, ◌≡◌, refl, sym, ap, ◌∙◌, Bool, true, false, not, ◌&&◌, ◌||◌,
  Option, some, none, List, [], ◌∷◌, ◌==◌, has_flag, get_elem?, length, arith, Bool-cases, inl, inr,
}
use xtables_addons.Common.Words.{u32_mod}
use xtables_addons.Pknock.{
  Env, MtInfo, xt_pknock_knockport, xt_pknock_time, xt_pknock_strict, xt_pknock_checkip,
  xt_pknock_opensecret, xt_pknock_closesecret,
}
use xtables_addons.Pknock.Peers.{
  st_init, st_matching, st_allowed, status_allowed, Peer, Rule, get_peer, reset_knock_status,
  new_peer, autoclose_time_passed, is_interknock_time_exceeded, has_logged_during_this_minute,
  is_allowed,
}
use xtables_addons.Pknock.Peers.Laws.{
  AllPeers, get_peer-AllPeers, set_peer-AllPeers, remove_peer-AllPeers, AllPeers-mono,
}
use xtables_addons.Pknock.Secret.{pass_security, is_close_knock}
use xtables_addons.Pknock.Knock.{
  Packet, is_udp, update_rule_gc_timer, put_peer, drop_peer, advance, expect_port, update_peer,
  knock_new, knock_first, finish, knock_allowed, refused, knockport, checkip, match_rule,
}

-- Among the packets so far, newest first, those of an address knocked at the first `n` ports in
-- order, with any others between.
pub data Heard (ports : List ℕ) (ip : ℕ) : ℕ → List Packet → Type 0 where
  nothing : {history : List Packet} → Heard ports ip 0 history
  skip :
      {n : ℕ} {history : List Packet} (p : Packet)
      → Heard ports ip n history
      → Heard ports ip n (p ∷ history)
  knock :
      {n : ℕ} {history : List Packet} (p : Packet)
      → Heard ports ip n history
      → p.saddr ≡ ip
      → get_elem? ports n ≡ some p.port
      → Heard ports ip (suc n) (p ∷ history)

get_elem?_bounded : (xs : List ℕ) (i x : ℕ) → get_elem? xs i ≡ some x → i < length xs
get_elem?_bounded [] i x e = ground arith
get_elem?_bounded (y ∷ xs) zero x e = omega arith
get_elem?_bounded (y ∷ xs) (suc i) x e = omega (arith, get_elem?_bounded xs i x e)

module _ (info : MtInfo) where
  -- What the state of a peer stands for.
  pub record IsEarned (history : List Packet) (p : Peer) : Type 0 where
    pub heard : Heard info.port p.ip p.accepted_knock_count history
    pub complete : status_allowed p.status ≡ true → p.accepted_knock_count ≡ info.ports_count
    pub waiting : status_allowed p.status ≡ false → p.accepted_knock_count < info.ports_count

  abbrev pub AllEarned : List Packet → Rule → Type 0
  AllEarned history rule = AllPeers (IsEarned history) rule.peers

  -- Whatever the outcome of an update, the peers are earned.
  abbrev EarnedIf : List Packet → Packet → Option Rule → Type 0
  EarnedIf history hdr none = Unit
  EarnedIf history hdr (some rule) = AllEarned (hdr ∷ history) rule

  module _ (history : List Packet) (hdr : Packet) (small : length info.port ≤ 15)
      (some_port : 0 < info.ports_count) where
    later : (rule : Rule) → AllEarned history rule → AllEarned (hdr ∷ history) rule
    later rule all =
        AllPeers-mono (IsEarned history) (IsEarned (hdr ∷ history)) rule.peers
          (λ p e. record { heard = skip hdr e.heard; complete = e.complete; waiting = e.waiting })
          all

    dropped :
        (ip : ℕ) (rule : Rule)
        → AllEarned history rule
        → AllEarned (hdr ∷ history) (drop_peer ip rule)
    unfolding drop_peer
    dropped ip rule all =
        remove_peer-AllPeers (IsEarned (hdr ∷ history)) ip rule.peers (later rule all)

    put :
        (p : Peer) (rule : Rule)
        → IsEarned (hdr ∷ history) p
        → AllEarned history rule
        → AllEarned (hdr ∷ history) (put_peer p rule)
    unfolding put_peer
    put p rule e all = set_peer-AllPeers (IsEarned (hdr ∷ history)) p rule.peers e (later rule all)

    advance-AllEarned :
        (env : Env) (rule : Rule) (p : Peer)
        → AllEarned history rule
        → IsEarned history p
        → p.ip ≡ hdr.saddr
        → status_allowed p.status ≡ false
        → get_elem? info.port p.accepted_knock_count ≡ some hdr.port
        → AllEarned (hdr ∷ history) (advance env info rule p)
    unfolding advance update_rule_gc_timer
    advance-AllEarned env rule p all e from w at =
        let room = e.waiting w in
        let next : (p.accepted_knock_count + 1) % u32_mod ≡ suc p.accepted_knock_count =
          omega (arith, get_elem?_bounded info.port p.accepted_knock_count hdr.port at) in
        let heard : Heard info.port p.ip (suc p.accepted_knock_count) (hdr ∷ history) =
          knock hdr e.heard (sym from) at in
        let timed = update_rule_gc_timer env rule in
        let q = record p { accepted_knock_count = suc p.accepted_knock_count } in
        rw next (elim (Bool-cases (suc p.accepted_knock_count == info.ports_count)) [
          | inl last ↦ rw last (
              put (record q { status = st_allowed; login_sec = env.seconds }) timed
                (record {
                  heard = heard;
                  complete = λ _. ground arith;
                  waiting = λ h. ground arith;
                })
                all)
          | inr more ↦ rw more (elim (Bool-cases (has_flag info.option xt_pknock_time)) [
            | inl t ↦ rw t (elim (Bool-cases (is_interknock_time_exceeded env q info.max_time)) [
              | inl late ↦ rw late (dropped p.ip timed all)
              | inr intime ↦ rw intime (
                  put (record q { timestamp = env.jiffies_sec; status = st_matching }) timed
                    (record {
                      heard = heard;
                      complete = λ h. ground arith;
                      waiting = λ _. ground arith;
                    })
                    all)
            ])
            | inr t ↦ rw t (
                put (record q { status = st_matching }) timed
                  (record {
                    heard = heard;
                    complete = λ h. ground arith;
                    waiting = λ _. ground arith;
                  })
                  all)
          ])
        ])

    expect_port-EarnedIf :
        (env : Env) (rule : Rule) (p : Peer) (port : Option ℕ)
        → AllEarned history rule
        → IsEarned history p
        → p.ip ≡ hdr.saddr
        → status_allowed p.status ≡ false
        → get_elem? info.port p.accepted_knock_count ≡ port
        → EarnedIf history hdr (expect_port env info rule p hdr port)
    unfolding expect_port
    expect_port-EarnedIf env rule p none all e from w at = tt
    expect_port-EarnedIf env rule p (some port) all e from w at =
        elim (Bool-cases (port == hdr.port)) [
          | inr wrong ↦ rw wrong (elim (Bool-cases (has_flag info.option xt_pknock_strict)) [
            | inl strict ↦ rw strict (dropped p.ip rule all)
            | inr lax ↦ rw lax (later rule all)
          ])
          | inl right ↦
              rw right
                (elim (Bool-cases (
                  has_flag info.option xt_pknock_opensecret
                  && (not (is_udp hdr.proto) || not (pass_security env info p hdr.payload)))) [
                    | inl unsafe ↦ rw unsafe (later rule all)
                    | inr safe ↦ rw safe (
                        let here : port ≡ hdr.port = ground arith in
                        advance-AllEarned env rule p all e from w (at ∙ ap (λ x. some x) here))
                  ])
        ]

    update_peer-EarnedIf :
        (env : Env) (rule : Rule) (p : Peer)
        → AllEarned history rule
        → IsEarned history p
        → p.ip ≡ hdr.saddr
        → status_allowed p.status ≡ false
        → EarnedIf history hdr (update_peer env info rule p hdr)
    unfolding update_peer
    update_peer-EarnedIf env rule p all e from w =
        expect_port-EarnedIf env rule p (get_elem? info.port p.accepted_knock_count) all e from w
          refl

    knock_new-EarnedIf :
        (env : Env) (rule : Rule) (o : Option Peer)
        → AllEarned history rule
        → new_peer env hdr.saddr hdr.proto ≡ o
        → EarnedIf history hdr (knock_new env info rule hdr o)
    unfolding knock_new new_peer
    knock_new-EarnedIf env rule none all q = tt
    knock_new-EarnedIf env rule (some p) all q =
        let fresh : (p.ip ≡ hdr.saddr) × (p.accepted_knock_count ≡ 0) × (p.status ≡ st_init) =
          ground arith in
        let e : IsEarned history p = record {
          heard = rw fresh.1 nothing;
          complete = λ h. ground arith;
          waiting = λ _. ground arith;
        } in
        update_peer-EarnedIf env (record rule { peers = p ∷ rule.peers }) p (e, all) e fresh.0
          (ground arith)

    knock_first-EarnedIf :
        (env : Env) (rule : Rule) (port : Option ℕ)
        → AllEarned history rule
        → EarnedIf history hdr (knock_first env info rule hdr port)
    unfolding knock_first
    knock_first-EarnedIf env rule none all = tt
    knock_first-EarnedIf env rule (some port) all = elim (Bool-cases (port == hdr.port)) [
      | inl right ↦
          rw right (knock_new-EarnedIf env rule (new_peer env hdr.saddr hdr.proto) all refl)
      | inr wrong ↦ rw wrong (later rule all)
    ]
