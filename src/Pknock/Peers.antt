-- ===== src/Pknock/Peers.antt =====
-- The peers of a rule (extensions/pknock/xt_pknock.c). The buckets of the hash table are one list
-- here: a peer is only ever looked for in the bucket of its own address.
pub mod Laws
use xtables_addons.Common.{
  ℕ, ◌+◌, ◌-◌, ◌*◌, ◌%◌, ◌^◌, Bool, true, false, not, ◌&&◌, ◌||◌, Option, some, none, List, [], ◌∷◌,
  leb, ◌==◌, if◌then◌else◌,
}
use xtables_addons.Common.Words.{u32_mod, u64_mod}
use xtables_addons.Pknock.{Env}

pub data Status : Type 0 where
  st_init st_matching st_allowed : Status

pub record Peer : Type 0 where
  pub ip : ℕ
  pub accepted_knock_count : ℕ
  pub timestamp : ℕ
  pub login_sec : ℕ
  pub status : Status
  pub proto : ℕ

-- struct xt_pknock_rule; `timer` is when the garbage collector runs, in seconds.
pub record Rule : Type 0 where
  pub rule_name : List ℕ
  pub ref_count : ℕ
  pub timer : Option ℕ
  pub peers : List Peer
  pub max_time : ℕ
  pub autoclose_time : ℕ

abbrev pub status_allowed : Status → Bool
status_allowed st_init = false
status_allowed st_matching = false
status_allowed st_allowed = true

unfoldable pub get_peer : ℕ → List Peer → Option Peer
get_peer ip [] = none
get_peer ip (p ∷ ps) = if p.ip == ip then some p else get_peer ip ps

-- The peer that `get_peer` finds, changed in place.
unfoldable pub set_peer : Peer → List Peer → List Peer
set_peer q [] = []
set_peer q (p ∷ ps) = if p.ip == q.ip then q ∷ ps else p ∷ set_peer q ps

-- `list_del` of the peer that `get_peer` finds.
unfoldable pub remove_peer : ℕ → List Peer → List Peer
remove_peer ip [] = []
remove_peer ip (p ∷ ps) = if p.ip == ip then ps else p ∷ remove_peer ip ps

abbrev pub reset_knock_status : Peer → Peer
reset_knock_status p = record p { accepted_knock_count = 0; status = st_init }

unfoldable pub new_peer : Env → ℕ → ℕ → Option Peer
new_peer env ip proto =
    if env.kmalloc_ok
    then some (record {
      ip = ip;
      accepted_knock_count = 0;
      timestamp = env.jiffies_sec;
      login_sec = 0;
      status = st_init;
      proto = proto;
    })
    else none

-- `(long)(b - a) < 0`
abbrev pub time_after : ℕ → ℕ → Bool
time_after a b = leb (2 ^ 63) ((b + u64_mod - a) % u64_mod)

unfoldable pub autoclose_time_passed : Env → Peer → ℕ → Bool
autoclose_time_passed env p autoclose_time =
    not (autoclose_time == 0)
    && time_after env.seconds ((p.login_sec + autoclose_time * 60 % u32_mod) % u64_mod)

unfoldable pub is_interknock_time_exceeded : Env → Peer → ℕ → Bool
is_interknock_time_exceeded env p max_time =
    time_after env.jiffies_sec ((p.timestamp + max_time) % u64_mod)

unfoldable pub has_logged_during_this_minute : Env → Peer → Bool
has_logged_during_this_minute env p = env.do_div p.login_sec 60 == env.do_div env.seconds 60

pub is_stale : Env → Rule → Peer → Bool
is_stale env rule p =
    if status_allowed p.status
    then autoclose_time_passed env p rule.autoclose_time
    else is_interknock_time_exceeded env p rule.max_time

pub keep_peers : (Peer → Bool) → List Peer → List Peer
keep_peers stale [] = []
keep_peers stale (p ∷ ps) = if stale p then keep_peers stale ps else p ∷ keep_peers stale ps

unfoldable pub peer_gc : Env → Rule → Rule
unfolding is_stale keep_peers
peer_gc env rule = record rule { peers = keep_peers (is_stale env rule) rule.peers }

unfoldable pub is_allowed : Option Peer → Bool
is_allowed none = false
is_allowed (some p) = status_allowed p.status
