-- ===== src/Sysrq/Replay.antt =====
-- Sequence numbers of SYSRQ (extensions/xt_SYSRQ.c: sysrq_tg).
use xtables_addons.Common.{
  ℕ, ◌+◌, ◌-◌, ◌*◌, ◌%◌, ◌^◌, ◌≤◌, ◌<◌, ◌≡◌, ◌≢◌, refl, ap, Bool, not, ◌||◌, Option, some, none,
  List, [], ◌∷◌, ◌++◌, ltb, ◌==◌, length, take, arith, Bool-cases, Option-cases, inl, inr,
}
use mathlib.Core.Path.{subst}
use xtables_addons.Common.Words.{u16_mod, u64_mod, ntohs}
use xtables_addons.Common.Bytes.{span_to, skip}
use xtables_addons.Sysrq.{
  State, Env, Verdict, nf_drop, outside, nf_accept, Fields, Packet, slt, scan, hexdigest, starts,
  with_digest, with_fields, sysrq_tg, with_udp, sysrq_tg4, sysrq_tg6, is_udp, newline,
}

-- The place of a long in its order.
abbrev pub rank : ℕ → ℕ
rank a = (a + 2 ^ 63) % u64_mod

-- What a call may do to the sequence number, with the verdict, if the fields give `number`.
abbrev Kept : State → State → Verdict → Option Fields → Type 0
Kept s t nf_drop o = t.seqno ≡ s.seqno
Kept s t outside o = t.seqno ≡ s.seqno
Kept s t (nf_accept r) none = ⊥
Kept s t (nf_accept r) (some f) = (t.seqno ≡ f.number) × (rank s.seqno < rank f.number)

module _ (env : Env) where
  with_digest-Kept :
      (s : State) (memory : List ℕ) (len n : ℕ) (f : Fields) (digest : List ℕ)
      → rank s.seqno < rank f.number
      → Kept s
          (with_digest env s memory len n f.number digest).0
          (with_digest env s memory len n f.number digest).1
          (some f)
  unfolding with_digest
  with_digest-Kept s memory len n f digest above =
      elim (Bool-cases (ltb (len - n) (env.digest_size * 2))) [
        | inl y ↦ rw y refl
        | inr m ↦
            elim (Option-cases (starts (skip n memory) (hexdigest (take env.digest_size digest)))) [
              | inl e ↦ rw (m, e) refl
              | inr (same, e) ↦ elim (Bool-cases same) [
                | inl y ↦ rw (m, e, y) (refl, above)
                | inr d ↦ rw (m, e, d) refl
              ]
            ]
      ]

  with_fields-Kept :
      (s : State) (memory : List ℕ) (len : ℕ) (f : Fields)
      → Kept s (with_fields env s memory len f).0 (with_fields env s memory len f).1 (some f)
  unfolding with_fields
  with_fields-Kept s memory len f = elim (Bool-cases (not (f.commas == 3))) [
    | inl y ↦ rw y refl
    | inr c ↦ elim (Bool-cases (not (slt s.seqno f.number))) [
      | inl y ↦ rw (c, y) refl
      | inr a ↦ elim (Option-cases (env.shash (take (f.place + 1) memory ++ s.digest_password))) [
        | inl e ↦ rw (c, a, e) refl
        | inr (digest, e) ↦
            rw (c, a, e) (with_digest-Kept s memory len (f.place + 1) f digest (ground arith))
      ]
    ]
  ]

  sysrq_tg-Kept :
      (memory : List ℕ) (len : ℕ) (s : State)
      → Kept s
          (sysrq_tg env memory len s).0
          (sysrq_tg env memory len s).1
          (scan (len - 1) memory 0 0 0)
  unfolding sysrq_tg
  sysrq_tg-Kept memory len s = elim (Bool-cases (length s.password == 0)) [
    | inl y ↦ rw y refl
    | inr a ↦ elim (Bool-cases (len == 0)) [
      | inl y ↦ rw (a, y) refl
      | inr b ↦ elim (Option-cases (scan (len - 1) memory 0 0 0)) [
        | inl e ↦ rw (a, b, e) refl
        | inr (f, e) ↦
            rw (a, b, e)
              (with_fields-Kept (record s { password = span_to newline s.password }) memory len f)
      ]
    ]
  ]

-- A packet at one of the two targets.
pub data Event : Type 0 where
  v4 : Env → Packet → Event
  v6 : Env → Bool → ℕ → Packet → Event

unfoldable pub receive : Event → State → State × Verdict
receive (v4 env p) s = sysrq_tg4 env p s
receive (v6 env found frag_off p) s = sysrq_tg6 env found frag_off p s

unfoldable pub receive_all : List Event → State → State
receive_all [] s = s
receive_all (e ∷ es) s = receive_all es (receive e s).0

abbrev pub packet_of : Event → Packet
packet_of (v4 env p) = p
packet_of (v6 env found frag_off p) = p

-- The fields of the payload of a packet.
abbrev fields_of : Packet → Option Fields
fields_of p = scan ((ntohs p.udp_len + u16_mod - 8) % u16_mod - 1) p.memory 0 0 0

with_udp-Kept :
    (env : Env) (p : Packet) (s : State)
    → Kept s (with_udp env p s).0 (with_udp env p s).1 (fields_of p)
unfolding with_udp
with_udp-Kept env p s =
    sysrq_tg-Kept env p.memory ((ntohs p.udp_len + u16_mod - 8) % u16_mod)
      (record s { digest_password = env.addr_text p.daddr ++ 44 ∷ s.password })

receive-Kept :
    (e : Event) (s : State) → Kept s (receive e s).0 (receive e s).1 (fields_of (packet_of e))
unfolding receive sysrq_tg4 sysrq_tg6
receive-Kept (v4 env p) s = elim (Bool-cases (not p.linear)) [
  | inl y ↦ rw y refl
  | inr a ↦ elim (Bool-cases (not (is_udp p.protocol))) [
    | inl y ↦ rw (a, y) refl
    | inr b ↦ rw (a, b) (with_udp-Kept env p s)
  ]
]
receive-Kept (v6 env found frag_off p) s = elim (Bool-cases (not p.linear)) [
  | inl y ↦ rw y refl
  | inr a ↦ elim (Bool-cases (not found || ltb 0 frag_off)) [
    | inl y ↦ rw (a, y) refl
    | inr b ↦ rw (a, b) (with_udp-Kept env p s)
  ]
]

Kept-le :
    (s t : State) (v : Verdict) (o : Option Fields) → Kept s t v o → rank s.seqno ≤ rank t.seqno
Kept-le s t nf_drop o k = rw k (omega arith)
Kept-le s t outside o k = rw k (omega arith)
Kept-le s t (nf_accept r) none k = absurd k
Kept-le s t (nf_accept r) (some f) (k, above) = rw k (omega arith)

receive_all-le : (es : List Event) (s : State) → rank s.seqno ≤ rank (receive_all es s).seqno
unfolding receive_all
receive_all-le [] s = omega arith
receive_all-le (e ∷ es) s =
    let t = (receive e s).0 in
    let first : rank s.seqno ≤ rank t.seqno =
      Kept-le s t (receive e s).1 (fields_of (packet_of e)) (receive-Kept e s) in
    let rest : rank t.seqno ≤ rank (receive_all es t).seqno = receive_all-le es t in omega arith

-- An accepted packet moves the sequence number up to its own, so that it was below before.
accepted_above :
    (s t : State) (v : Verdict) (o : Option Fields) (r : List ℕ)
    → v ≡ nf_accept r
    → Kept s t v o
    → (f : Fields) × (o ≡ some f) × (t.seqno ≡ f.number) × (rank s.seqno < rank f.number)
accepted_above s t nf_drop o r e k = cc
accepted_above s t outside o r e k = cc
accepted_above s t (nf_accept r') none r e k = absurd k
accepted_above s t (nf_accept r') (some f) r e k = (f, refl, k.0, k.1)

outrun : (a b c : ℕ) → a ≤ b → b < c → a ≡ c → ⊥
outrun a b c h k e = omega arith

-- A packet that was accepted is never accepted again: after any further packets at either target,
-- with any passwords, hashes and addresses, a packet with the same payload and the same length field
-- is not accepted.
pub receive_replay :
    (e again : Event) (es : List Event) (s : State) (r : List ℕ)
    → (receive e s).1 ≡ nf_accept r
    → (packet_of again).memory ≡ (packet_of e).memory
    → (packet_of again).udp_len ≡ (packet_of e).udp_len
    → (r' : List ℕ) → (receive again (receive_all es (receive e s).0)).1 ≢ nf_accept r'
receive_replay e again es s r ok same_memory same_len r' ok' =
    let t = (receive e s).0 in
    let u = receive_all es t in
    let (f, q, n, above) =
      accepted_above s t (receive e s).1 (fields_of (packet_of e)) r ok (receive-Kept e s) in
    let (g, q', n', above') =
      accepted_above u (receive again u).0 (receive again u).1 (fields_of (packet_of again)) r' ok'
        (receive-Kept again u) in
    let same : fields_of (packet_of again) ≡ fields_of (packet_of e) =
      rw (same_memory, same_len) refl in
    let fg : f.number ≡ g.number = ground arith in
    let passed : rank f.number ≤ rank u.seqno =
      subst (λ (m : ℕ). rank m ≤ rank u.seqno) n (receive_all-le es t) in
    outrun (rank f.number) (rank u.seqno) (rank g.number) passed above' (ap rank fg)
