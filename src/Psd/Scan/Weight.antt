-- ===== src/Psd/Scan/Weight.antt =====
-- Which ports make a scan (`is_portscan` of extensions/xt_psd.c).
use xtables_addons.Common.{
  ℕ, suc, ◌+◌, ◌*◌, if◌then◌else◌, ◌%◌, ◌≤◌, ◌<◌, ◌≡◌, refl, Bool, true, false, ◌&&◌, ◌||◌, List,
  [], ◌∷◌, ◌++◌, ltb, leb, ◌==◌, length, arith, Bool-cases, inl, inr,
}
use native.Mathlib.Nat.{mul-suc}
use xtables_addons.Common.Words.{u8_mod}
use xtables_addons.Psd.Scan.{
  PsdInfo, Port, Host, TcpHdr, ipproto_tcp, ports_size, port_in_list, get_port_weight, remember,
  is_portscan,
}

-- A packet that opens a port.
abbrev pub to_port : ℕ → TcpHdr
to_port port = record { dest = port; ack = false; rst = false }

-- Whether one of the packets to some ports, one after the other, is reported.
pub reported : ℕ → PsdInfo → ℕ → List ℕ → Host → Bool
reported now psdinfo proto [] host = false
reported now psdinfo proto (port ∷ ports) host =
    let r = is_portscan now psdinfo (to_port port) proto host in
    let rest = reported now psdinfo proto ports r.1 in r.0 || rest

-- How many of the ports a test accepts.
abbrev pub count_if : (ℕ → Bool) → List ℕ → ℕ
count_if test [] = 0
count_if test (port ∷ ports) =
    let rest = count_if test ports in if test port then suc rest else rest

-- Each port up to 1023 has the one weight, each other port, 1024 among them, the other.
unfoldable pub total_weight : PsdInfo → List ℕ → ℕ
total_weight psdinfo ports =
    psdinfo.lo_ports_weight * count_if (λ port. leb port 1023) ports
    + psdinfo.hi_ports_weight * count_if (λ port. leb 1024 port) ports

total_weight_next :
    (psdinfo : PsdInfo) (port : ℕ) (ports : List ℕ)
    → total_weight psdinfo (port ∷ ports)
      ≡ get_port_weight psdinfo port + total_weight psdinfo ports
unfolding total_weight get_port_weight
total_weight_next psdinfo port ports =
    let low = count_if (λ p. leb p 1023) ports in
    let high = count_if (λ p. leb 1024 p) ports in
    let one_low = mul-suc psdinfo.lo_ports_weight low in
    let one_high = mul-suc psdinfo.hi_ports_weight high in ground (arith, one_low, one_high)

abbrev pub AllOther : ℕ → List ℕ → Type 0
AllOther port [] = Unit
AllOther port (other ∷ ports) = ((other == port) ≡ false) × AllOther port ports

-- Ports that differ from each other and that are not remembered yet.
abbrev pub AllNew : ℕ → List Port → List ℕ → Type 0
AllNew proto known [] = Unit
AllNew proto known (port ∷ ports) =
    (port_in_list known proto port ≡ false) × AllOther port ports × AllNew proto known ports

port_in_list-append :
    (known : List Port) (p : Port) (proto port : ℕ)
    → port_in_list known proto port ≡ false
    → (port == p.number) ≡ false
    → port_in_list (known ++ p ∷ []) proto port ≡ false
unfolding port_in_list
port_in_list-append [] p proto port e n = ground arith
port_in_list-append (q ∷ known) p proto port e n =
    let rest : port_in_list (known ++ p ∷ []) proto port ≡ false =
      port_in_list-append known p proto port (ground arith) n in
    let here : ((q.proto == proto) && (q.number == port)) ≡ false = ground arith in
    rw (here, rest) refl

remember-AllNew :
    (proto port : ℕ) (known : List Port) (ports : List ℕ)
    → AllOther port ports
    → AllNew proto known ports
    → AllNew proto (remember proto port known) ports
remember-AllNew proto port known ports other new =
    elim (Bool-cases (ltb (length known) ports_size)) [
      | inr full ↦ rw full new
      | inl room ↦ rw room (appended ports other new)
    ]
  where
    appended :
        (ports : List ℕ)
        → AllOther port ports
        → AllNew proto known ports
        → AllNew proto (known ++ record { number = port; proto = proto } ∷ []) ports
    appended [] other new = tt
    appended (p ∷ ps) other new = (
      port_in_list-append known (record { number = port; proto = proto }) proto p new.0 other.0,
      new.1,
      appended ps other.1 new.2,
    )

weight_fits :
    (psdinfo : PsdInfo) (port : ℕ)
    → psdinfo.weight_threshold + psdinfo.lo_ports_weight ≤ u8_mod
    → psdinfo.weight_threshold + psdinfo.hi_ports_weight ≤ u8_mod
    → psdinfo.weight_threshold + get_port_weight psdinfo port ≤ u8_mod
unfolding get_port_weight
weight_fits psdinfo port lo hi = elim (Bool-cases (ltb port 1024)) [
  | inl low ↦ rw low lo
  | inr high ↦ rw high hi
]

-- Where the threshold and either weight fit in a byte together, a source below the threshold that
-- opens ports that are new and differ is reported exactly when their weights and its own reach the
-- threshold, even if there are more of them than places to remember them; a port below 1024 has the
-- weight of the low ports, 1024 and every port above that of the high ports.
pub reported_iff :
    (now : ℕ) (psdinfo : PsdInfo) (proto : ℕ) (ports : List ℕ) (host : Host)
    → psdinfo.weight_threshold + psdinfo.lo_ports_weight ≤ u8_mod
    → psdinfo.weight_threshold + psdinfo.hi_ports_weight ≤ u8_mod
    → host.weight < psdinfo.weight_threshold
    → AllNew proto host.ports ports
    → reported now psdinfo proto ports host
      ≡ leb psdinfo.weight_threshold (host.weight + total_weight psdinfo ports)
unfolding reported is_portscan
reported_iff now psdinfo proto [] host lo hi below new = unfold total_weight in ground arith
reported_iff now psdinfo proto (port ∷ ports) host lo hi below new =
    let weight = get_port_weight psdinfo port in
    let next_weight = total_weight_next psdinfo port ports in
    let fits : psdinfo.weight_threshold + weight ≤ u8_mod = weight_fits psdinfo port lo hi in
    let sum : (host.weight + weight) % u8_mod ≡ host.weight + weight = omega (arith, fits, below) in
    let waits : leb psdinfo.weight_threshold host.weight ≡ false = ground arith in
    let quiet : ((proto == ipproto_tcp) && (false || false)) ≡ false = ground arith in
    elim (Bool-cases (leb psdinfo.weight_threshold (host.weight + weight))) [
      | inl reached ↦
          let total : leb psdinfo.weight_threshold
                (host.weight + (weight + total_weight psdinfo ports))
              ≡ true =
            ground arith in
          rw (new.0, quiet, waits, sum, reached, next_weight, total) refl
      | inr still ↦
          let next : Host = record {
            timestamp = now;
            weight = host.weight + weight;
            ports = remember proto port host.ports;
          } in
          let regroup : host.weight + weight + total_weight psdinfo ports
              ≡ host.weight + (weight + total_weight psdinfo ports) =
            omega arith in
          let rest =
            reported_iff now psdinfo proto ports next lo hi (ground arith)
              (remember-AllNew proto port host.ports ports new.1 new.2) in
          rw (new.0, quiet, waits, sum, still, next_weight, ← regroup) rest
    ]

-- A threshold that a byte cannot reach is never reached: whatever packet comes, a host whose weight
-- is a byte is not reported, and its weight stays a byte.
pub is_portscan_never :
    (now : ℕ) (psdinfo : PsdInfo) (tcph : TcpHdr) (proto : ℕ) (host : Host)
    → u8_mod ≤ psdinfo.weight_threshold
    → host.weight < u8_mod
    → let r = is_portscan now psdinfo tcph proto host in (r.0 ≡ false) × (r.1.weight < u8_mod)
unfolding is_portscan
is_portscan_never now psdinfo tcph proto host much byte =
    let weight = (host.weight + get_port_weight psdinfo tcph.dest) % u8_mod in
    let before : leb psdinfo.weight_threshold host.weight ≡ false = ground arith in
    let after : leb psdinfo.weight_threshold weight ≡ false = ground arith in
    elim (Bool-cases (port_in_list host.ports proto tcph.dest)) [
      | inl known ↦ rw known (refl, byte)
      | inr new ↦ rw new (elim (Bool-cases ((proto == ipproto_tcp) && (tcph.ack || tcph.rst))) [
        | inl answer ↦ rw answer (refl, byte)
        | inr opens ↦ rw (opens, before, after) (refl, omega arith)
      ])
    ]
