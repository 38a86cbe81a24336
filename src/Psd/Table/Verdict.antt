-- ===== src/Psd/Table/Verdict.antt =====
-- The verdicts of psd over its table (extensions/xt_psd.c).
use xtables_addons.Common.{
  ℕ, ◌≤◌, ◌<◌, ◌≡◌, refl, Bool, true, false, ◌+◌, ◌&&◌, Option, some, none, List, [], ◌∷◌, leb,
  ◌==◌, length, arith, Bool-cases, inl, inr,
}
use xtables_addons.Common.Words.{u8_mod}
use xtables_addons.Psd.Scan.{PsdInfo, TcpHdr, ipproto_tcp, entry_is_recent, new_host, psd_mt_check}
use xtables_addons.Psd.Scan.Weight.{is_portscan_never}
use xtables_addons.Psd.Table.{
  Address, Entry, State, Walk, missing, at_place, set_at, find_host, hash_max, release, link,
  shorten, new_source, scanned, expire, on_walk, handle_packet,
}

module _ {A : Type 0} (address : Address A) where
  -- The weights are bytes.
  abbrev pub AllBytes : State A → Type 0
  AllBytes s = (i : ℕ) → (s.list i).host.weight < u8_mod

  release_list :
      (hash : ℕ) (last : Option ℕ) (s : State A) → (release address hash last s).list ≡ s.list
  unfolding release
  release_list hash last s = elim (Bool-cases (address.is_any (s.list s.index).saddr)) [
    | inr used ↦ rw used refl
    | inl free ↦ rw free refl
  ]

  shorten_list :
      (hash count : ℕ) (last : Option ℕ) (s : State A)
      → (shorten address hash count last s).list ≡ s.list
  unfolding shorten
  shorten_list hash count none s = refl
  shorten_list hash count (some l) s = elim (Bool-cases (leb hash_max count)) [
    | inl many ↦ rw many refl
    | inr few ↦ rw few refl
  ]

  set_at-AllBytes :
      (s : State A) (i : ℕ) (e : Entry A)
      → AllBytes s
      → e.host.weight < u8_mod
      → (j : ℕ) → (set_at s.list i e j).host.weight < u8_mod
  set_at-AllBytes s i e bytes byte j = elim (Bool-cases (j == i)) [
    | inl here ↦ rw here byte
    | inr other ↦ rw other (bytes j)
  ]

  new_source-AllBytes :
      (now : ℕ) (psdinfo : PsdInfo) (tcph : TcpHdr) (proto : ℕ) (saddr : A) (hash count : ℕ)
      (last : Option ℕ) (s : State A)
      → AllBytes s
      → let r = new_source address now psdinfo tcph proto saddr hash count last s in
        (r.0 ≡ false) × AllBytes r.1
  unfolding new_source link new_host
  new_source-AllBytes now psdinfo tcph proto saddr hash count last s bytes =
      elim (Bool-cases ((proto == ipproto_tcp) && tcph.ack)) [
        | inl ack ↦ rw ack (refl, bytes)
        | inr other ↦ rw other (
          refl,
          set_at-AllBytes (release address hash last (shorten address hash count last s)) _ _
              (λ i.
                rw
                  (
                    release_list hash last (shorten address hash count last s),
                    shorten_list hash count last s,
                  )
                  (bytes i))
              (omega arith),
        )
      ]

  on_walk-AllBytes :
      (hz now : ℕ) (psdinfo : PsdInfo) (tcph : TcpHdr) (proto : ℕ) (saddr : A) (hash : ℕ)
      (s : State A) (w : Walk)
      → u8_mod ≤ psdinfo.weight_threshold
      → AllBytes s
      → let r = on_walk address hz now psdinfo tcph proto saddr hash s w in
        (r.0 ≡ false) × AllBytes r.1
  unfolding on_walk scanned expire
  on_walk-AllBytes hz now psdinfo tcph proto saddr hash s missing much bytes =
      new_source-AllBytes now psdinfo tcph proto saddr hash _ _ s bytes
  on_walk-AllBytes hz now psdinfo tcph proto saddr hash s (at_place before i behind) much bytes =
      let (quiet, byte) = is_portscan_never now psdinfo tcph proto (s.list i).host much (bytes i) in
      elim (Bool-cases (entry_is_recent hz (s.list i).host psdinfo.delay_threshold now)) [
        | inl recent ↦ rw recent (quiet, set_at-AllBytes s i _ bytes byte)
        | inr old ↦ rw old (
            new_source-AllBytes now psdinfo tcph proto saddr hash (length before) none
              (expire address hash before i behind s) (set_at-AllBytes s i _ bytes (bytes i)))
      ]

-- The verdicts on packets that come one after the other, each at its time.
pub handle_packets :
    {A : Type 0} → Address A → ℕ → PsdInfo → List (ℕ × TcpHdr × ℕ × A) → State A → List Bool
handle_packets address hz psdinfo [] s = []
handle_packets address hz psdinfo ((now, tcph, proto, saddr) ∷ packets) s =
    let r = handle_packet address hz now psdinfo tcph proto saddr (address.hash saddr) s in
    let rest = handle_packets address hz psdinfo packets r.1 in r.0 ∷ rest

abbrev pub AllQuiet : List Bool → Type 0
AllQuiet [] = Unit
AllQuiet (b ∷ bs) = (b ≡ false) × AllQuiet bs

handle_packets_quiet :
    {A : Type 0} (address : Address A) (hz : ℕ) (psdinfo : PsdInfo)
    (packets : List (ℕ × TcpHdr × ℕ × A)) (s : State A)
    → u8_mod ≤ psdinfo.weight_threshold
    → AllBytes address s
    → AllQuiet (handle_packets address hz psdinfo packets s)
unfolding handle_packets handle_packet
handle_packets_quiet address hz psdinfo [] s much bytes = tt
handle_packets_quiet address hz psdinfo ((now, tcph, proto, saddr) ∷ packets) s much bytes =
    let hash = address.hash saddr in
    let (quiet, kept) =
      on_walk-AllBytes address hz now psdinfo tcph proto saddr hash s
        (find_host address saddr s.list (s.chain hash)) much bytes in
    (quiet, handle_packets_quiet address hz psdinfo packets _ much kept)

-- A rule with a weight threshold from 256 up to 10000, a delay and weights up to 10000, and a weight
-- that is not 0 is accepted by the check, and under it no packet of any sequence is ever reported, from
-- a table whose weights are bytes.
pub handle_packets_never :
    {A : Type 0} (address : Address A) (hz : ℕ) (psdinfo : PsdInfo)
    (packets : List (ℕ × TcpHdr × ℕ × A)) (s : State A)
    → u8_mod ≤ psdinfo.weight_threshold
    → psdinfo.weight_threshold ≤ 10000
    → psdinfo.delay_threshold ≤ 10000
    → psdinfo.lo_ports_weight ≤ 10000
    → psdinfo.hi_ports_weight ≤ 10000
    → 0 < psdinfo.lo_ports_weight + psdinfo.hi_ports_weight
    → AllBytes address s
    → (psd_mt_check psdinfo ≡ true) × AllQuiet (handle_packets address hz psdinfo packets s)
unfolding psd_mt_check
handle_packets_never address hz psdinfo packets s much most delay lo hi some_weight bytes =
    (ground arith, handle_packets_quiet address hz psdinfo packets s much bytes)
