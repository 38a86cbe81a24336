-- ===== src/Sysrq/Tests.antt =====
-- Runs of the SYSRQ target (extensions/xt_SYSRQ.c), and the theorem at a concrete packet.
use xtables_addons.Common.{ℕ, ◌≡◌, ◌≢◌, refl, true, false, some, List, [], ◌∷◌}
use xtables_addons.Common.Bytes.{span_to, skip}
use xtables_addons.Sysrq.{
  State, Env, Packet, nf_accept, scan, hexdigest, starts, requests, with_digest, with_fields,
  sysrq_tg, with_udp, sysrq_tg4, sysrq_tg_plain, starts_n,
}
use xtables_addons.Sysrq.Replay.{v4, receive, receive_all, receive_replay}

-- A hash of one byte, and addresses that print as nothing.
abbrev env : Env
env = record { shash = λ m. some (31 ∷ []); digest_size = 1; addr_text = λ a. [] }

abbrev start : State
start = record { once = false; password = b'p' ∷ 10 ∷ []; seqno = 4; digest_password = [] }

-- "sb,5,x," with the digest
abbrev request : List ℕ
request = b's' ∷ b'b' ∷ 44 ∷ b'5' ∷ 44 ∷ b'x' ∷ 44 ∷ b'1' ∷ b'f' ∷ []

abbrev packet : ℕ → Packet
packet daddr = record {
  linear = true;
  protocol = 17;
  daddr = daddr;
  udp_len = 4352;
  memory = request;
}

accepted : (receive (v4 env (packet 1)) start).1 ≡ nf_accept (b's' ∷ b'b' ∷ [])
unfolding receive sysrq_tg4 with_udp sysrq_tg scan with_fields with_digest hexdigest starts skip
    requests span_to
accepted = refl

receive_replay_example :
    (receive
      (v4 env (packet 2))
      (receive_all (v4 env (packet 1) ∷ []) (receive (v4 env (packet 1)) start).0)).1
    ≢ nf_accept []
receive_replay_example =
    receive_replay (v4 env (packet 1)) (v4 env (packet 2)) (v4 env (packet 1) ∷ []) start
      (b's' ∷ b'b' ∷ []) accepted refl refl []

-- Without the hashes one key needs no password.
plain_accepted : (sysrq_tg_plain (b's' ∷ []) 1 start).1 ≡ nf_accept (b's' ∷ [])
unfolding sysrq_tg_plain starts_n
plain_accepted = refl
