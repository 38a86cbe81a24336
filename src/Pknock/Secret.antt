-- ===== src/Pknock/Secret.antt =====
-- The secrets of a knock (extensions/pknock/xt_pknock.c): the hexadecimal HMAC of a secret over the
-- sender's address and the time.
pub mod Replay
use xtables_addons.Common.{
  ℕ, suc, ◌+◌, ◌-◌, ◌*◌, ◌/◌, ◌%◌, Bool, true, false, not, ◌&&◌, ◌||◌, Option, some, none, List, [],
  ◌∷◌, leb, ◌==◌, if◌then◌else◌, length, take,
}
use xtables_addons.Pknock.{Env, MtInfo}
use xtables_addons.Pknock.Peers.{Peer, status_allowed, has_logged_during_this_minute}

-- One hexadecimal digit.
abbrev pub hex_digit : ℕ → ℕ
hex_digit d = b'0' + d + (if leb 0x0a d then b'a' - b'9' - 1 else 0)

unfoldable pub crypt_to_hex : List ℕ → List ℕ
crypt_to_hex [] = []
crypt_to_hex (c ∷ crypt) = hex_digit (c / 16) ∷ hex_digit (c % 16) ∷ crypt_to_hex crypt

abbrev pub same_bytes : List ℕ → List ℕ → Bool
same_bytes [] [] = true
same_bytes [] (d ∷ ds) = false
same_bytes (c ∷ cs) [] = false
same_bytes (c ∷ cs) (d ∷ ds) = (c == d) && same_bytes cs ds

is_hmac : ℕ → List ℕ → Option (List ℕ) → Bool
is_hmac hexa_size payload none = false
is_hmac hexa_size payload (some digest) = same_bytes (crypt_to_hex digest) (take hexa_size payload)

unfoldable pub has_secret : Env → List ℕ → ℕ → List ℕ → Bool
unfolding is_hmac crypt_to_hex
has_secret env secret ipsrc payload =
    let hexa_size = env.hmac_size * 2 in
    let epoch_min = env.do_div env.seconds 60 in
    if length payload == 0
    then false
    else if not (length payload == hexa_size + 1)
    then false
    else if not env.kmalloc_ok
    then false
    else is_hmac hexa_size payload (env.hmac secret ipsrc epoch_min)

unfoldable pub pass_security : Env → MtInfo → Peer → List ℕ → Bool
pass_security env info p payload =
    if status_allowed p.status
    then true
    else if has_logged_during_this_minute env p
    then false
    else has_secret env info.open_secret p.ip payload

unfoldable pub is_close_knock : Env → MtInfo → Peer → List ℕ → Bool
is_close_knock env info p payload = has_secret env info.close_secret p.ip payload
