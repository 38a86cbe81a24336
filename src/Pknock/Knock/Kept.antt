-- ===== src/Pknock/Knock/Kept.antt =====
-- A peer that was let in stays (`pknock_mt` and the garbage collector of
-- extensions/pknock/xt_pknock.c).
use xtables_addons.Common.{
  ℕ, ◌+◌, ◌%◌, ◌≡◌, ◌⊎◌, refl, ◌∙◌, Bool, true, false, not, ◌&&◌, ◌||◌, Option, some, none, ◌∷◌,
  ◌==◌, has_flag, get_elem?, arith, Bool-cases, inl, inr,
}
use xtables_addons.Common.Words.{u32_mod}
use xtables_addons.Pknock.{
  Env, MtInfo, xt_pknock_knockport, xt_pknock_checkip, xt_pknock_closesecret, xt_pknock_time,
  xt_pknock_strict, xt_pknock_opensecret,
}
use mathlib.Core.Path.{subst}
use xtables_addons.Pknock.Secret.{pass_security, is_close_knock}
use xtables_addons.Pknock.Peers.{
  status_allowed, Peer, Rule, get_peer, new_peer, peer_gc, is_stale, is_allowed,
  autoclose_time_passed, st_allowed, st_matching, is_interknock_time_exceeded,
  has_logged_during_this_minute, reset_knock_status,
}
use xtables_addons.Pknock.Peers.Laws.{
  is_stale_allowed, autoclose_never, get_peer-ip, get_peer-other, get_peer-remove_other,
  get_peer-keep_peers,
}
use xtables_addons.Pknock.Knock.{
  Packet, is_udp, update_rule_gc_timer, put_peer, drop_peer, advance, expect_port, update_peer,
  knock_new, knock_first, finish, knock_allowed, refused, knockport, checkip, match_rule,
}

-- The peer of an address is as it was, and so is the time after which the rule closes.
abbrev Untouched : ℕ → Rule → Rule → Type 0
Untouched ip rule next =
    (get_peer ip next.peers ≡ get_peer ip rule.peers) × (next.autoclose_time ≡ rule.autoclose_time)

abbrev UntouchedIf : ℕ → Rule → Option Rule → Type 0
UntouchedIf ip rule none = Unit
UntouchedIf ip rule (some next) = Untouched ip rule next

module _ (env : Env) (info : MtInfo) (hdr : Packet) (ip : ℕ) (rule : Rule) where
  put-Untouched :
      (q : Peer) (timed : Rule)
      → (q.ip == ip) ≡ false
      → Untouched ip rule timed
      → Untouched ip rule (put_peer q timed)
  unfolding put_peer
  put-Untouched q timed other u = (get_peer-other q ip timed.peers other ∙ u.0, u.1)

  drop-Untouched :
      (at : ℕ) (timed : Rule)
      → (at == ip) ≡ false
      → Untouched ip rule timed
      → Untouched ip rule (drop_peer at timed)
  unfolding drop_peer
  drop-Untouched at timed other u = (get_peer-remove_other at ip timed.peers other ∙ u.0, u.1)

  advance-Untouched :
      (now : Rule) (p : Peer)
      → (p.ip == ip) ≡ false
      → Untouched ip rule now
      → Untouched ip rule (advance env info now p)
  unfolding advance update_rule_gc_timer
  advance-Untouched now p other u =
      let timed : Rule = update_rule_gc_timer env now in
      let q : Peer = record p { accepted_knock_count = (p.accepted_knock_count + 1) % u32_mod } in
      elim (Bool-cases (q.accepted_knock_count == info.ports_count)) [
        | inl last ↦ rw last (
            put-Untouched (record q { status = st_allowed; login_sec = env.seconds }) timed other u)
        | inr more ↦ rw more (elim (Bool-cases (has_flag info.option xt_pknock_time)) [
          | inr t ↦ rw t (put-Untouched (record q { status = st_matching }) timed other u)
          | inl t ↦ rw t (elim (Bool-cases (is_interknock_time_exceeded env q info.max_time)) [
            | inl late ↦ rw late (drop-Untouched p.ip timed other u)
            | inr intime ↦ rw intime (
                put-Untouched (record q { timestamp = env.jiffies_sec; status = st_matching }) timed
                  other u)
          ])
        ])
      ]

  expect_port-Untouched :
      (now : Rule) (p : Peer) (port : Option ℕ)
      → (p.ip == ip) ≡ false
      → Untouched ip rule now
      → UntouchedIf ip rule (expect_port env info now p hdr port)
  unfolding expect_port
  expect_port-Untouched now p none other u = tt
  expect_port-Untouched now p (some port) other u = elim (Bool-cases (port == hdr.port)) [
    | inr wrong ↦ rw wrong (elim (Bool-cases (has_flag info.option xt_pknock_strict)) [
      | inl strict ↦ rw strict (drop-Untouched p.ip now other u)
      | inr lax ↦ rw lax u
    ])
    | inl right ↦
        rw right
          (elim (Bool-cases (
            has_flag info.option xt_pknock_opensecret
            && (not (is_udp hdr.proto) || not (pass_security env info p hdr.payload)))) [
              | inl unsafe ↦ rw unsafe u
              | inr safe ↦ rw safe (advance-Untouched now p other u)
            ])
  ]

  -- What an update that came to an end left.
  refused_result :
      (o : Option Rule) {ret : Bool} {next : Rule}
      → UntouchedIf ip rule o
      → refused o ≡ some (ret, next)
      → Untouched ip rule next
  unfolding refused
  refused_result none u e = ground arith
  refused_result (some now) {ret} {next} u e = let same : now ≡ next = ground arith in rw (← same) u

  knock_new-Untouched :
      (o : Option Peer)
      → (hdr.saddr == ip) ≡ false
      → new_peer env hdr.saddr hdr.proto ≡ o
      → UntouchedIf ip rule (knock_new env info rule hdr o)
  unfolding knock_new update_peer new_peer get_peer
  knock_new-Untouched none other q = tt
  knock_new-Untouched (some p) other q =
      let away : (p.ip == ip) ≡ false = ground arith in
      expect_port-Untouched (record rule { peers = p ∷ rule.peers }) p
        (get_elem? info.port p.accepted_knock_count) away (rw away refl, refl)

  knock_first-Untouched :
      (port : Option ℕ)
      → (hdr.saddr == ip) ≡ false
      → UntouchedIf ip rule (knock_first env info rule hdr port)
  unfolding knock_first
  knock_first-Untouched none other = tt
  knock_first-Untouched (some port) other = elim (Bool-cases (port == hdr.port)) [
    | inr wrong ↦ rw wrong (refl, refl)
    | inl right ↦ rw right (knock_new-Untouched (new_peer env hdr.saddr hdr.proto) other refl)
  ]

  finish-Untouched : (p : Peer) → (p.ip == ip) ≡ false → Untouched ip rule (finish env hdr rule p).1
  unfolding finish
  finish-Untouched p other = elim (Bool-cases (autoclose_time_passed env p rule.autoclose_time)) [
    | inl passed ↦
        rw passed
          (elim (Bool-cases ((hdr.proto == 6) || not (has_logged_during_this_minute env p))) [
            | inl gone ↦ rw gone (drop-Untouched p.ip rule other (refl, refl))
            | inr stays ↦ rw stays (refl, refl)
          ])
    | inr still ↦ rw still (refl, refl)
  ]

  knock_allowed-Untouched :
      (p : Peer) → (p.ip == ip) ≡ false → Untouched ip rule (knock_allowed env info rule hdr p).1
  unfolding knock_allowed
  knock_allowed-Untouched p other =
      elim (Bool-cases (
        has_flag info.option xt_pknock_closesecret
        && is_udp hdr.proto
        && is_close_knock env info p hdr.payload)) [
          | inl closes ↦ rw closes (put-Untouched (reset_knock_status p) rule other (refl, refl))
          | inr stays ↦ rw stays (finish-Untouched p other)
        ]

  knockport-Untouched :
      (o : Option Peer) {ret : Bool} {next : Rule}
      → (hdr.saddr == ip) ≡ false
      → get_peer hdr.saddr rule.peers ≡ o
      → knockport env info rule hdr o ≡ some (ret, next)
      → Untouched ip rule next
  unfolding knockport is_allowed update_peer
  knockport-Untouched none {ret} {next} other found e =
      refused_result (knock_first env info rule hdr (get_elem? info.port 0)) {ret = ret}
        {next = next} (knock_first-Untouched (get_elem? info.port 0) other) e
  knockport-Untouched (some p) {ret} {next} other found e =
      let from = get_peer-ip hdr.saddr rule.peers p found in
      let away : (p.ip == ip) ≡ false = (rw from other) in
      elim (Bool-cases (status_allowed p.status)) [
        | inl allowed ↦
            let q : (knock_allowed env info rule hdr p).1 ≡ next = ground arith in
            rw (← q) (knock_allowed-Untouched p away)
        | inr waits ↦
            refused_result
              (expect_port env info rule p hdr (get_elem? info.port p.accepted_knock_count))
              {ret = ret} {next = next}
              (expect_port-Untouched rule p (get_elem? info.port p.accepted_knock_count) away
                (refl, refl))
              (ground arith)
      ]

  checkip-Untouched :
      (o : Option Peer)
      → (hdr.saddr == ip) ≡ false
      → get_peer hdr.saddr rule.peers ≡ o
      → Untouched ip rule (checkip env rule hdr o).1
  unfolding checkip is_allowed
  checkip-Untouched none other found = (refl, refl)
  checkip-Untouched (some p) other found =
      let from = get_peer-ip hdr.saddr rule.peers p found in
      let away : (p.ip == ip) ≡ false = (rw from other) in
      elim (Bool-cases (status_allowed p.status)) [
        | inl allowed ↦ rw allowed (finish-Untouched p away)
        | inr waits ↦ rw waits (refl, refl)
      ]

  -- A packet of one address leaves the peer of another as it was.
  match_rule-Untouched :
      {ret : Bool} {next : Rule}
      → (hdr.saddr == ip) ≡ false
      → match_rule env info hdr rule ≡ some (ret, next)
      → Untouched ip rule next
  unfolding match_rule
  match_rule-Untouched {ret} {next} other e =
      elim (Bool-cases (has_flag info.option xt_pknock_checkip)) [
        | inl c ↦
            let q : (checkip env rule hdr (get_peer hdr.saddr rule.peers)).1 ≡ next =
              ground arith in
            rw (← q) (checkip-Untouched (get_peer hdr.saddr rule.peers) other refl)
        | inr c ↦ elim (Bool-cases (has_flag info.option xt_pknock_knockport)) [
          | inl k ↦
              knockport-Untouched (get_peer hdr.saddr rule.peers) {ret = ret} {next = next} other
                refl (ground arith)
          | inr k ↦ let q : rule ≡ next = ground arith in rw (← q) (refl, refl)
        ]
      ]

-- The address has a peer that was let in, and the rule has no time after which it closes.
pub record IsOpen (ip : ℕ) (rule : Rule) : Type 0 where
  pub peer : Peer
  pub found : get_peer ip rule.peers ≡ some peer
  pub allowed : status_allowed peer.status ≡ true
  pub never : rule.autoclose_time ≡ 0

Untouched-IsOpen :
    (ip : ℕ) (rule next : Rule) → Untouched ip rule next → IsOpen ip rule → IsOpen ip next
Untouched-IsOpen ip rule next u is = record {
  peer = is.peer;
  found = u.0 ∙ is.found;
  allowed = is.allowed;
  never = u.1 ∙ is.never;
}

pub peer_gc-IsOpen :
    (env : Env) (ip : ℕ) (rule : Rule) → IsOpen ip rule → IsOpen ip (peer_gc env rule)
unfolding peer_gc
peer_gc-IsOpen env ip rule is =
    let stays = autoclose_never env is.peer rule.autoclose_time is.never in
    record {
      peer = is.peer;
      found =
          get_peer-keep_peers (is_stale env rule) ip rule.peers is.peer is.found
            (is_stale_allowed env rule is.peer is.allowed stays);
      allowed = is.allowed;
      never = is.never;
    }

-- A packet of the address itself passes where the rule has no secret to close it, and changes nothing.
pub match_rule-passes :
    (env : Env) (info : MtInfo) (hdr : Packet) (rule : Rule)
    → has_flag info.option xt_pknock_checkip ≡ true
      ⊎ ((has_flag info.option xt_pknock_checkip ≡ false)
          × (has_flag info.option xt_pknock_knockport ≡ true)
          × (has_flag info.option xt_pknock_closesecret ≡ false))
    → IsOpen hdr.saddr rule
    → match_rule env info hdr rule ≡ some (true, rule)
unfolding match_rule checkip knockport is_allowed knock_allowed finish
match_rule-passes env info hdr rule kind is =
    let stays = autoclose_never env is.peer rule.autoclose_time is.never in
    elim kind [
      | inl c ↦ rw (c, is.found, is.allowed, stays) refl
      | inr (c, k, s) ↦ rw (c, k, is.found, is.allowed, s, stays) refl
    ]

pub match_rule-IsOpen :
    (env : Env) (info : MtInfo) (hdr : Packet) (ip : ℕ) (rule : Rule) {ret : Bool} {next : Rule}
    → has_flag info.option xt_pknock_checkip ≡ true
      ⊎ ((has_flag info.option xt_pknock_checkip ≡ false)
          × (has_flag info.option xt_pknock_knockport ≡ true)
          × (has_flag info.option xt_pknock_closesecret ≡ false))
    → IsOpen ip rule
    → match_rule env info hdr rule ≡ some (ret, next)
    → IsOpen ip next
match_rule-IsOpen env info hdr ip rule {ret} {next} kind is e =
    elim (Bool-cases (hdr.saddr == ip)) [
      | inr other ↦
          Untouched-IsOpen ip rule next
            (match_rule-Untouched env info hdr ip rule {ret = ret} {next = next} other e) is
      | inl own ↦
          let same : ip ≡ hdr.saddr = ground arith in
          let mine : IsOpen hdr.saddr rule = subst (λ i. IsOpen i rule) same is in
          let passes = match_rule-passes env info hdr rule kind mine in
          let q : rule ≡ next = ground arith in rw (← q) is
    ]
