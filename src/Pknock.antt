-- ===== src/Pknock.antt =====
-- The pknock match (extensions/pknock/xt_pknock.c): port knocking with optional secrets.
pub mod Peers
pub mod Secret
pub mod Knock
pub mod Rules
mod Tests
use xtables_addons.Common.{ℕ, ◌^◌, Bool, List, Option}

abbrev pub xt_pknock_knockport : ℕ
xt_pknock_knockport = 2 ^ 0

abbrev pub xt_pknock_time : ℕ
xt_pknock_time = 2 ^ 1

abbrev pub xt_pknock_name : ℕ
xt_pknock_name = 2 ^ 2

abbrev pub xt_pknock_strict : ℕ
xt_pknock_strict = 2 ^ 3

abbrev pub xt_pknock_checkip : ℕ
xt_pknock_checkip = 2 ^ 4

abbrev pub xt_pknock_opensecret : ℕ
xt_pknock_opensecret = 2 ^ 5

abbrev pub xt_pknock_closesecret : ℕ
xt_pknock_closesecret = 2 ^ 6

abbrev pub xt_pknock_autoclose : ℕ
xt_pknock_autoclose = 2 ^ 7

-- struct xt_pknock_mtinfo; `port` is the whole array, texts are without their NUL.
pub record MtInfo : Type 0 where
  pub rule_name : List ℕ
  pub open_secret : List ℕ
  pub close_secret : List ℕ
  pub option : ℕ
  pub ports_count : ℕ
  pub port : List ℕ
  pub max_time : ℕ
  pub autoclose_time : ℕ

-- The kernel, as one call of the module meets it: `jiffies / HZ`, `ktime_get_seconds`, whether
-- allocations succeed, what `do_div` returns, and the HMAC of a secret over an address and a number,
-- `none` where it fails.
pub record Env : Type 0 where
  pub jiffies_sec : ℕ
  pub seconds : ℕ
  pub kmalloc_ok : Bool
  pub do_div : ℕ → ℕ → ℕ
  pub hmac_size : ℕ
  pub hmac : List ℕ → ℕ → ℕ → Option (List ℕ)
