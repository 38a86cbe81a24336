-- ===== src/Lscan/Full.antt =====
-- `lscan_mt_full` (extensions/xt_lscan.c) over the packets of one connection: what the history of a
-- connection must have been for each mark.
use xtables_addons.Common.{
  ℕ, ◌≡◌, Bool, true, false, ◌&&◌, ◌||◌, List, [], ◌∷◌, ◌++◌, arith, ◌==◌, ◌⊎◌,
}
use xtables_addons.Lscan.{
  default_params, TcpHdr, tflg_ack4, tflg_ack6, tflg_fin, tflg_rst, tflg_rstack, tflg_syn,
  tflg_synack, ip_ct_new, lscan_mt_full,
}

-- A packet of the connection, with what `lscan_mt` passes on.
pub record Seen : Type 0 where
  pub ctstate : ℕ
  pub loopback : Bool
  pub tcph : TcpHdr
  pub payload_len : ℕ

-- The mark after a history, the latest packet first; conntrack starts with mark 0.
unfoldable pub mark_after : List Seen → ℕ
mark_after [] = 0
mark_after (k ∷ before) =
    lscan_mt_full default_params (mark_after before) k.ctstate k.loopback k.tcph k.payload_len

abbrev pub opens : Seen → Bool
opens k = k.ctstate == ip_ct_new && tflg_syn k.tcph

abbrev pub tears : Seen → Bool
tears k = tflg_rst k.tcph || tflg_fin k.tcph

abbrev pub acks_nothing : Seen → Bool
acks_nothing k = tflg_ack4 k.tcph && k.payload_len == 0

-- The connection was opened and nothing but our own SYN-ACKs on loopback followed.
abbrev pub HalfOpen : List Seen → Type 0
HalfOpen [] = ⊥
HalfOpen (k ∷ before) =
    (opens k ≡ true) ⊎ ((k.loopback && tflg_synack k.tcph ≡ true) × HalfOpen before)

-- A plain ACK completed the handshake just now.
abbrev pub JustOpen : List Seen → Type 0
JustOpen [] = ⊥
JustOpen (k ∷ before) = (tflg_ack6 k.tcph ≡ true) × HalfOpen before

-- Since the handshake there were only ACKs without data, at least one.
abbrev pub Silent : List Seen → Type 0
Silent [] = ⊥
Silent (k ∷ before) = (acks_nothing k ≡ true) × (JustOpen before ⊎ Silent before)

-- A handshake that was not completed by a plain ACK, later packets aside.
abbrev pub SynScanned : List Seen → Type 0
SynScanned [] = ⊥
SynScanned (k ∷ before) = ((tflg_ack6 k.tcph ≡ false) × HalfOpen before) ⊎ SynScanned before

-- A connection torn down right after its handshake.
abbrev pub ConnectScanned : List Seen → Type 0
ConnectScanned [] = ⊥
ConnectScanned (k ∷ before) = ((tears k ≡ true) × JustOpen before) ⊎ ConnectScanned before

-- A connection torn down after its handshake and nothing but empty ACKs.
abbrev pub GrabScanned : List Seen → Type 0
GrabScanned [] = ⊥
GrabScanned (k ∷ before) = ((tears k ≡ true) × Silent before) ⊎ GrabScanned before

pub record Explains (mark : ℕ) (history : List Seen) : Type 0 where
  pub synrcv : mark ≡ default_params.mark_synrcv → HalfOpen history
  pub estab1 : mark ≡ default_params.mark_estab1 → JustOpen history
  pub estab2 : mark ≡ default_params.mark_estab2 → Silent history
  pub synscan : mark ≡ default_params.mark_synscan → SynScanned history
  pub cnscan : mark ≡ default_params.mark_cnscan → ConnectScanned history
  pub grscan : mark ≡ default_params.mark_grscan → GrabScanned history

step-Explains :
    (mark : ℕ) (k : Seen) (before : List Seen)
    → Explains mark before
    → Explains
        (lscan_mt_full default_params mark k.ctstate k.loopback k.tcph k.payload_len)
        (k ∷ before)
unfolding lscan_mt_full
step-Explains mark k before e = record {
  synrcv = λ h. ground arith;
  estab1 = λ h. ground arith;
  estab2 = λ h. ground arith;
  synscan = λ h. ground arith;
  cnscan = λ h. ground arith;
  grscan = λ h. ground arith;
}

-- After any sequence of packets, each scan mark has the history that the manual describes: a SYN
-- scan a handshake that no plain ACK completed, a connect scan a teardown right after the
-- handshake, a grab scan a teardown after nothing but empty ACKs; the three marks of the handshake
-- itself have theirs.
pub mark_after-Explains : (history : List Seen) → Explains (mark_after history) history
unfolding mark_after
mark_after-Explains [] = record {
  synrcv = λ h. omega arith;
  estab1 = λ h. omega arith;
  estab2 = λ h. omega arith;
  synscan = λ h. omega arith;
  cnscan = λ h. omega arith;
  grscan = λ h. omega arith;
}
mark_after-Explains (k ∷ before) =
    step-Explains (mark_after before) k before (mark_after-Explains before)

abbrev pub All : (Seen → Bool) → List Seen → Type 0
All test [] = Unit
All test (k ∷ ks) = (test k ≡ true) × All test ks

-- The steps of an uneventful handshake.
module _ (k : Seen) where
  full_at : ℕ → ℕ
  full_at mark = lscan_mt_full default_params mark k.ctstate k.loopback k.tcph k.payload_len

  open_step : opens k ≡ true → full_at 0 ≡ 1
  unfolding full_at lscan_mt_full
  open_step h = ground arith

  confirm_step : tflg_ack6 k.tcph ≡ true → full_at 1 ≡ 4
  unfolding full_at lscan_mt_full tflg_ack6 tflg_synack tflg_rstack
  confirm_step h = ground arith

  wait_step : k.loopback ≡ false → acks_nothing k ≡ true → full_at 4 ≡ 5
  unfolding full_at lscan_mt_full tflg_ack4 tflg_rst tflg_fin
  wait_step l h = ground arith

  quiet_step : acks_nothing k ≡ true → full_at 5 ≡ 5
  unfolding full_at lscan_mt_full
  quiet_step h = ground arith

  grab_step : tears k ≡ true → full_at 5 ≡ 7
  unfolding full_at lscan_mt_full tflg_ack4 tflg_rst tflg_fin
  grab_step h = ground arith

silent_mark :
    (acks : List Seen) (k a s : Seen)
    → opens s ≡ true
    → tflg_ack6 a.tcph ≡ true
    → k.loopback ≡ false
    → acks_nothing k ≡ true
    → All acks_nothing acks
    → mark_after (acks ++ k ∷ a ∷ s ∷ []) ≡ 5
unfolding mark_after full_at
silent_mark [] k a s hs ha l hk rest = rw (open_step s hs, confirm_step a ha) (wait_step k l hk)
silent_mark (x ∷ acks) k a s hs ha l hk rest =
    rw (silent_mark acks k a s hs ha l hk rest.1) (quiet_step x rest.0)

-- A new connection opened by a SYN, completed by a plain ACK, followed from elsewhere than loopback
-- by one or more empty ACKs, is marked as a grab scan by the packet that tears it down.
pub grab_scan_marked :
    (t : Seen) (acks : List Seen) (k a s : Seen)
    → opens s ≡ true
    → tflg_ack6 a.tcph ≡ true
    → k.loopback ≡ false
    → acks_nothing k ≡ true
    → All acks_nothing acks
    → tears t ≡ true
    → mark_after (t ∷ acks ++ k ∷ a ∷ s ∷ []) ≡ default_params.mark_grscan
unfolding mark_after full_at
grab_scan_marked t acks k a s hs ha l hk rest ht =
    rw (silent_mark acks k a s hs ha l hk rest) (grab_step t ht)
