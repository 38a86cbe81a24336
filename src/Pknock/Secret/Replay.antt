-- ===== src/Pknock/Secret/Replay.antt =====
-- When a secret is good (`has_secret` of extensions/pknock/xt_pknock.c). `do_div` divides its first
-- argument in place and returns the remainder, which the code takes for the quotient.
use xtables_addons.Common.{ℕ, ◌+◌, ◌*◌, ◌%◌, ◌≡◌, List, arith, refl}
use xtables_addons.Pknock.{Env}
use xtables_addons.Pknock.Secret.{has_secret}

-- If `do_div` returns the remainder, as its documentation has it, then a payload with a secret at one
-- time is as good at every time that is whole minutes later.
has_secret_replay :
    (env : Env) (secret : List ℕ) (ipsrc : ℕ) (payload : List ℕ) (minutes : ℕ)
    → ((n base : ℕ) → env.do_div n base ≡ n % base)
    → has_secret (record env { seconds = env.seconds + minutes * 60 }) secret ipsrc payload
      ≡ has_secret env secret ipsrc payload
unfolding has_secret
has_secret_replay env secret ipsrc payload minutes remainder =
    let again : (env.seconds + minutes * 60) % 60 ≡ env.seconds % 60 = omega arith in
    rw (remainder (env.seconds + minutes * 60) 60, again, remainder env.seconds 60) refl
