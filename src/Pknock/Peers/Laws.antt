-- ===== src/Pknock/Peers/Laws.antt =====
-- What holds of every peer of a list across its changes (extensions/pknock/xt_pknock.c).
use xtables_addons.Common.{
  ℕ, ◌≡◌, refl, ◌==◌, Bool, true, false, Option, some, List, [], ◌∷◌, arith, Bool-cases, inl, inr,
}
use xtables_addons.Pknock.{Env}
use xtables_addons.Pknock.Peers.{
  autoclose_time_passed, status_allowed, Rule, is_stale, Peer, get_peer, set_peer, remove_peer,
  keep_peers,
}

abbrev pub AllPeers : (Peer → Type 0) → List Peer → Type 0
AllPeers P [] = Unit
AllPeers P (p ∷ ps) = P p × AllPeers P ps

module _ (P : Peer → Type 0) where
  pub get_peer-AllPeers :
      (ip : ℕ) (ps : List Peer) (p : Peer)
      → AllPeers P ps
      → get_peer ip ps ≡ some p
      → P p × (p.ip ≡ ip)
  unfolding get_peer
  get_peer-AllPeers ip [] p all e = ground arith
  get_peer-AllPeers ip (q ∷ ps) p all e = elim (Bool-cases (q.ip == ip)) [
    | inl same ↦ first (rw same at e) same
    | inr other ↦ get_peer-AllPeers ip ps p all.1 (rw other at e)
  ]
    where
      first : ◌≡◌ {A = Option Peer} (some q) (some p) → (q.ip == ip) ≡ true → P p × (p.ip ≡ ip)
      first e same = let here : q ≡ p = ground arith in rw (← here) (all.0, ground arith)

  pub set_peer-AllPeers :
      (q : Peer) (ps : List Peer) → P q → AllPeers P ps → AllPeers P (set_peer q ps)
  unfolding set_peer
  set_peer-AllPeers q [] h all = tt
  set_peer-AllPeers q (p ∷ ps) h all = elim (Bool-cases (p.ip == q.ip)) [
    | inl same ↦ rw same (h, all.1)
    | inr other ↦ rw other (all.0, set_peer-AllPeers q ps h all.1)
  ]

  pub remove_peer-AllPeers :
      (ip : ℕ) (ps : List Peer) → AllPeers P ps → AllPeers P (remove_peer ip ps)
  unfolding remove_peer
  remove_peer-AllPeers ip [] all = tt
  remove_peer-AllPeers ip (p ∷ ps) all = elim (Bool-cases (p.ip == ip)) [
    | inl same ↦ rw same all.1
    | inr other ↦ rw other (all.0, remove_peer-AllPeers ip ps all.1)
  ]

  pub keep_peers-AllPeers :
      (stale : Peer → Bool) (ps : List Peer) → AllPeers P ps → AllPeers P (keep_peers stale ps)
  unfolding keep_peers
  keep_peers-AllPeers stale [] all = tt
  keep_peers-AllPeers stale (p ∷ ps) all = elim (Bool-cases (stale p)) [
    | inl old ↦ rw old (keep_peers-AllPeers stale ps all.1)
    | inr fresh ↦ rw fresh (all.0, keep_peers-AllPeers stale ps all.1)
  ]

  pub AllPeers-mono :
      (Q : Peer → Type 0) (ps : List Peer)
      → ((p : Peer) → P p → Q p)
      → AllPeers P ps
      → AllPeers Q ps
  AllPeers-mono Q [] f all = tt
  AllPeers-mono Q (p ∷ ps) f all = (f p all.0, AllPeers-mono Q ps f all.1)

pub get_peer-set_peer :
    (ps : List Peer) (p q : Peer) (ip : ℕ)
    → get_peer ip ps ≡ some q
    → p.ip ≡ ip
    → get_peer ip (set_peer p ps) ≡ some p
unfolding get_peer set_peer
get_peer-set_peer [] p q ip e from = ground arith
get_peer-set_peer (r ∷ ps) p q ip e from = elim (Bool-cases (r.ip == ip)) [
  | inl same ↦
      let here : (p.ip == ip) ≡ true = ground arith in
      let there : (r.ip == p.ip) ≡ true = ground arith in rw (there, here) refl
  | inr other ↦
      let there : (r.ip == p.ip) ≡ false = ground arith in
      rw (there, other) (get_peer-set_peer ps p q ip (rw other at e) from)
]

pub autoclose_never : (env : Env) (p : Peer) (t : ℕ) → t ≡ 0 → autoclose_time_passed env p t ≡ false
unfolding autoclose_time_passed
autoclose_never env p t e = rw e refl

pub get_peer-ip : (ip : ℕ) (ps : List Peer) (p : Peer) → get_peer ip ps ≡ some p → p.ip ≡ ip
unfolding get_peer
get_peer-ip ip [] p e = ground arith
get_peer-ip ip (q ∷ ps) p e = elim (Bool-cases (q.ip == ip)) [
  | inl here ↦ let same : q ≡ p = ground arith in rw (← same) (ground arith)
  | inr other ↦ get_peer-ip ip ps p (ground arith)
]

pub get_peer-other :
    (q : Peer) (ip : ℕ) (ps : List Peer)
    → (q.ip == ip) ≡ false
    → get_peer ip (set_peer q ps) ≡ get_peer ip ps
unfolding get_peer set_peer
get_peer-other q ip [] other = refl
get_peer-other q ip (p ∷ ps) other = ground (arith, get_peer-other q ip ps other)

pub get_peer-remove_other :
    (at ip : ℕ) (ps : List Peer)
    → (at == ip) ≡ false
    → get_peer ip (remove_peer at ps) ≡ get_peer ip ps
unfolding get_peer remove_peer
get_peer-remove_other at ip [] other = refl
get_peer-remove_other at ip (p ∷ ps) other = ground (arith, get_peer-remove_other at ip ps other)

pub get_peer-keep_peers :
    (stale : Peer → Bool) (ip : ℕ) (ps : List Peer) (p : Peer)
    → get_peer ip ps ≡ some p
    → stale p ≡ false
    → get_peer ip (keep_peers stale ps) ≡ some p
unfolding get_peer keep_peers
get_peer-keep_peers stale ip [] p e fresh = ground arith
get_peer-keep_peers stale ip (q ∷ ps) p e fresh = elim (Bool-cases (q.ip == ip)) [
  | inl here ↦
      let same : q ≡ p = ground arith in
      let here' : (p.ip == ip) ≡ true = ground arith in rw (same, fresh, here') refl
  | inr other ↦
      let rest = get_peer-keep_peers stale ip ps p (ground arith) fresh in
      elim (Bool-cases (stale q)) [ inl old ↦ rw old rest | inr young ↦ rw (young, other) rest ]
]

-- The garbage collector keeps a peer that was let in and whose time has not passed.
pub is_stale_allowed :
    (env : Env) (rule : Rule) (p : Peer)
    → status_allowed p.status ≡ true
    → autoclose_time_passed env p rule.autoclose_time ≡ false
    → is_stale env rule p ≡ false
unfolding is_stale
is_stale_allowed env rule p allowed stays = rw (allowed, stays) refl
