-- ===== src/Pknock/Knock/Faults.antt =====
-- When the match of pknock touches memory it must not (`pknock_mt` of
-- extensions/pknock/xt_pknock.c): `add_peer` takes the peer of a first knock before anyone asks
-- whether there is one.
use xtables_addons.Common.{
  ℕ, refl, ◌≤◌, ◌<◌, ◌≡◌, ◌==◌, Bool, true, false, Option, some, none, List, ◌∷◌, has_flag,
  get_elem?, get_elem?-lt, length, arith, Bool-cases, inl, inr,
}
use xtables_addons.Pknock.{Env, MtInfo, xt_pknock_checkip, xt_pknock_knockport}
use xtables_addons.Pknock.Peers.{Peer, Rule, status_allowed, get_peer, new_peer, is_allowed}
use xtables_addons.Pknock.Peers.Laws.{get_peer-AllPeers}
use xtables_addons.Pknock.Knock.{
  Packet, expect_port, update_peer, knock_new, knock_first, knockport, refused, match_rule,
}
use xtables_addons.Pknock.Knock.Earned.{IsEarned, AllEarned}
use xtables_addons.Pknock.Knock.Run.{Reached, Reached-AllEarned}

abbrev Returns : {A : Type 0} → Option A → Type 0
Returns {A} o = (a : A) × (o ≡ some a)

new_peer_ok :
    (env : Env) (ip proto : ℕ)
    → env.kmalloc_ok ≡ true
    → (p : Peer) × (new_peer env ip proto ≡ some p) × (p.accepted_knock_count ≡ 0)
unfolding new_peer
new_peer_ok env ip proto ok = rw ok (_, refl, refl)

module _ (info : MtInfo) (env : Env) (hdr : Packet) (some_port : 0 < info.ports_count)
    (array : info.ports_count ≤ length info.port) where
  update_peer-Returns :
      (rule : Rule) (p : Peer)
      → p.accepted_knock_count < info.ports_count
      → Returns (update_peer env info rule p hdr)
  unfolding update_peer expect_port
  update_peer-Returns rule p w =
      let (port, e) = get_elem?-lt info.port p.accepted_knock_count (omega (arith, w, array)) in
      rw e (_, refl)

  refused-Returns : (o : Option Rule) → Returns o → Returns (refused o)
  unfolding refused
  refused-Returns none r = ground arith
  refused-Returns (some rule) r = (_, refl)

  knock_first-Returns :
      (rule : Rule)
      → env.kmalloc_ok ≡ true
      → Returns (knock_first env info rule hdr (get_elem? info.port 0))
  unfolding knock_first knock_new
  knock_first-Returns rule ok =
      let (port, e) = get_elem?-lt info.port 0 (omega (arith, some_port, array)) in
      let (p, q, fresh) = new_peer_ok env hdr.saddr hdr.proto ok in
      rw e (elim (Bool-cases (port == hdr.port)) [
        | inl right ↦
            rw (right, q)
              (update_peer-Returns (record rule { peers = p ∷ rule.peers }) p
                (omega (arith, fresh, some_port)))
        | inr wrong ↦ rw wrong (rule, refl)
      ])

  knockport-Returns :
      (history : List Packet) (rule : Rule) (o : Option Peer)
      → env.kmalloc_ok ≡ true
      → AllEarned info history rule
      → get_peer hdr.saddr rule.peers ≡ o
      → Returns (knockport env info rule hdr o)
  unfolding knockport is_allowed
  knockport-Returns history rule none ok all q = refused-Returns _ (knock_first-Returns rule ok)
  knockport-Returns history rule (some p) ok all q =
      let (e, _) = get_peer-AllPeers (IsEarned info history) hdr.saddr rule.peers p all q in
      elim (Bool-cases (status_allowed p.status)) [
        | inl allowed ↦ rw allowed (_, refl)
        | inr other ↦ rw other (refused-Returns _ (update_peer-Returns rule p (e.waiting other)))
      ]

-- Whatever a rule has met since it had no peers, if its array holds its `ports_count` ports, one at
-- least, and the array has at most 15, and allocations succeed, the match returns: it reads no port behind the array
-- and follows no null pointer.
pub match_rule-returns :
    (info : MtInfo) (env : Env) (history : List Packet) (hdr : Packet) (rule : Rule)
    → length info.port ≤ 15
    → 0 < info.ports_count
    → info.ports_count ≤ length info.port
    → env.kmalloc_ok ≡ true
    → Reached info history rule
    → (out : Bool × Rule) × (match_rule env info hdr rule ≡ some out)
unfolding match_rule
match_rule-returns info env history hdr rule small some_port array ok r =
    elim (Bool-cases (has_flag info.option xt_pknock_checkip)) [
      | inl c ↦ rw c (_, refl)
      | inr c ↦ rw c (elim (Bool-cases (has_flag info.option xt_pknock_knockport)) [
        | inl k ↦ rw k (
            knockport-Returns info env hdr some_port array history rule
              (get_peer hdr.saddr rule.peers) ok
              (Reached-AllEarned info small some_port history rule r) refl)
        | inr k ↦ rw k (_, refl)
      ])
    ]

-- Where no memory is left, a first knock at the right port faults: the peer that could not be had is added to the rule.
pub match_rule_faults :
    (info : MtInfo) (env : Env) (hdr : Packet) (rule : Rule)
    → has_flag info.option xt_pknock_checkip ≡ false
    → has_flag info.option xt_pknock_knockport ≡ true
    → env.kmalloc_ok ≡ false
    → get_peer hdr.saddr rule.peers ≡ none
    → get_elem? info.port 0 ≡ some hdr.port
    → match_rule env info hdr rule ≡ none
unfolding match_rule knockport knock_first knock_new new_peer refused
match_rule_faults info env hdr rule c k fails unknown first =
    let same : (hdr.port == hdr.port) ≡ true = ground arith in
    rw (c, k, unknown, first, same, fails) refl
