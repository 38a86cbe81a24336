-- ===== src/Pknock/Knock/Progress.antt =====
-- One knock more of an address that knocks in order (`pknock_mt` of extensions/pknock/xt_pknock.c).
use xtables_addons.Common.{
  ℕ, suc, ◌+◌, ◌%◌, ◌^◌, ◌<◌, ◌≤◌, ◌≡◌, refl, sym, true, false, some, none, [], ◌∷◌, ◌==◌, has_flag,
  get_elem?, length, arith, Bool-cases, inl, inr,
}
use xtables_addons.Common.Words.{u32_mod}
use xtables_addons.Pknock.{
  Env, MtInfo, xt_pknock_knockport, xt_pknock_time, xt_pknock_checkip, xt_pknock_opensecret,
  xt_pknock_closesecret,
}
use xtables_addons.Pknock.Peers.{
  st_init, st_matching, st_allowed, status_allowed, Peer, Rule, get_peer, new_peer, is_allowed,
  is_interknock_time_exceeded,
}
use xtables_addons.Pknock.Peers.Laws.{get_peer-set_peer}
use xtables_addons.Pknock.Knock.{
  Packet, update_rule_gc_timer, put_peer, advance, expect_port, update_peer, knock_new, knock_first,
  refused, knockport, match_rule,
}

-- A rule of knocks without secrets, and a moment with memory.
pub record Plain (env : Env) (info : MtInfo) : Type 0 where
  pub knockport_set : has_flag info.option xt_pknock_knockport ≡ true
  pub checkip_clear : has_flag info.option xt_pknock_checkip ≡ false
  pub opensecret_clear : has_flag info.option xt_pknock_opensecret ≡ false
  pub closesecret_clear : has_flag info.option xt_pknock_closesecret ≡ false
  pub count_known : info.ports_count ≤ length info.port
  pub count_small : length info.port ≤ 15
  pub max_time_small : info.max_time < 2 ^ 32
  pub jiffies_small : env.jiffies_sec < 2 ^ 64
  pub memory : env.kmalloc_ok ≡ true

module _ (env : Env) (info : MtInfo) (proto saddr : ℕ) (plain : Plain env info) where
  abbrev pub at_port : ℕ → Packet
  at_port port = record { port = port; proto = proto; saddr = saddr; payload = [] }

  -- The address has knocked `n` times.
  pub record Progress (n : ℕ) (rule : Rule) : Type 0 where
    pub peer : Peer
    pub found : get_peer saddr rule.peers ≡ some peer
    pub from : peer.ip ≡ saddr
    pub count : peer.accepted_knock_count ≡ n
    pub at_once : peer.timestamp ≡ env.jiffies_sec
    pub allowed : status_allowed peer.status ≡ (n == info.ports_count)
    pub never : rule.autoclose_time ≡ 0

  in_time :
      (p : Peer)
      → p.timestamp ≡ env.jiffies_sec
      → is_interknock_time_exceeded env p info.max_time ≡ false
  unfolding is_interknock_time_exceeded
  in_time p e = rw e (ground (arith, plain.max_time_small, plain.jiffies_small))

  put_peer-Progress :
      (n : ℕ) (rule : Rule) (p q : Peer)
      → get_peer saddr rule.peers ≡ some q
      → p.ip ≡ saddr
      → p.accepted_knock_count ≡ n
      → p.timestamp ≡ env.jiffies_sec
      → status_allowed p.status ≡ (n == info.ports_count)
      → rule.autoclose_time ≡ 0
      → Progress n (put_peer p rule)
  unfolding put_peer
  put_peer-Progress n rule p q e from count at_once allowed never = record {
    peer = p;
    found = get_peer-set_peer rule.peers p q saddr e from;
    from = from;
    count = count;
    at_once = at_once;
    allowed = allowed;
    never = never;
  }

  advance-Progress :
      (n : ℕ) (rule : Rule) (p : Peer)
      → n < info.ports_count
      → get_peer saddr rule.peers ≡ some p
      → p.ip ≡ saddr
      → p.accepted_knock_count ≡ n
      → p.timestamp ≡ env.jiffies_sec
      → rule.autoclose_time ≡ 0
      → Progress (suc n) (advance env info rule p)
  unfolding advance update_rule_gc_timer
  advance-Progress n rule p room found from count at_once never =
      let next : (p.accepted_knock_count + 1) % u32_mod ≡ suc n =
        omega (arith, count, room, plain.count_known, plain.count_small) in
      let timed = update_rule_gc_timer env rule in
      let q = record p { accepted_knock_count = suc n } in
      rw next (elim (Bool-cases (suc n == info.ports_count)) [
        | inl last ↦ rw last (
            put_peer-Progress (suc n) timed
              (record q { status = st_allowed; login_sec = env.seconds }) p found from refl at_once
              (sym last) never)
        | inr more ↦ rw more (elim (Bool-cases (has_flag info.option xt_pknock_time)) [
          | inl t ↦
              rw (t, in_time q at_once)
                (put_peer-Progress (suc n) timed
                  (record q { timestamp = env.jiffies_sec; status = st_matching }) p found from refl
                  refl (sym more) never)
          | inr t ↦ rw t (
              put_peer-Progress (suc n) timed (record q { status = st_matching }) p found from refl
                at_once (sym more) never)
        ])
      ])

  update_peer-Progress :
      (n port : ℕ) (rule : Rule) (p : Peer)
      → n < info.ports_count
      → get_elem? info.port n ≡ some port
      → get_peer saddr rule.peers ≡ some p
      → p.ip ≡ saddr
      → p.accepted_knock_count ≡ n
      → p.timestamp ≡ env.jiffies_sec
      → rule.autoclose_time ≡ 0
      → (next : Rule) × (update_peer env info rule p (at_port port) ≡ some next)
        × Progress (suc n) next
  unfolding update_peer expect_port
  update_peer-Progress n port rule p room at found from count at_once never =
      let here : (port == port) ≡ true = ground arith in
      let at_p : get_elem? info.port p.accepted_knock_count ≡ some port = rw count at in
      rw (at_p, here, plain.opensecret_clear)
        (
          advance env info rule p,
          refl,
          advance-Progress n rule p room found from count at_once never,
        )

  -- One knock more at the right port.
  pub match_rule-Progress :
      (n port : ℕ) (rule : Rule)
      → n < info.ports_count
      → get_elem? info.port n ≡ some port
      → Progress n rule
      → (next : Rule) × (match_rule env info (at_port port) rule ≡ some (false, next))
        × Progress (suc n) next
  unfolding match_rule knockport refused is_allowed
  match_rule-Progress n port rule room at at_n =
      let waits : status_allowed at_n.peer.status ≡ false = ground (arith, at_n.allowed, room) in
      let (next, e, progress) =
        update_peer-Progress n port rule at_n.peer room at at_n.found at_n.from at_n.count
          at_n.at_once at_n.never in
      rw (plain.checkip_clear, plain.knockport_set, at_n.found, waits, e) (next, refl, progress)

  new_peer_here :
      new_peer env saddr proto
      ≡ some (record {
        ip = saddr;
        accepted_knock_count = 0;
        timestamp = env.jiffies_sec;
        login_sec = 0;
        status = st_init;
        proto = proto;
      })
  unfolding new_peer
  new_peer_here = rw plain.memory refl

  -- The first knock at the first port.
  pub match_rule-Progress_first :
      (port : ℕ) (rule : Rule)
      → 0 < info.ports_count
      → get_elem? info.port 0 ≡ some port
      → get_peer saddr rule.peers ≡ none
      → rule.autoclose_time ≡ 0
      → (next : Rule) × (match_rule env info (at_port port) rule ≡ some (false, next))
        × Progress 1 next
  unfolding match_rule knockport refused knock_first knock_new get_peer
  match_rule-Progress_first port rule room at unknown never =
      let here : (port == port) ≡ true = ground arith in
      let p : Peer = record {
        ip = saddr;
        accepted_knock_count = 0;
        timestamp = env.jiffies_sec;
        login_sec = 0;
        status = st_init;
        proto = proto;
      } in
      let same : (saddr == saddr) ≡ true = ground arith in
      let found : get_peer saddr (p ∷ rule.peers) ≡ some p = rw same refl in
      let (next, e, progress) =
        update_peer-Progress 0 port (record rule { peers = p ∷ rule.peers }) p room at found refl
          refl refl never in
      let made = new_peer_here in
      rw (plain.checkip_clear, plain.knockport_set, unknown, at, here, made, e)
        (next, refl, progress)
