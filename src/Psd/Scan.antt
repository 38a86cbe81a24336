-- ===== src/Psd/Scan.antt =====
-- What psd keeps per source address, and when its ports make a scan (extensions/xt_psd.c).
pub mod Weight
use xtables_addons.Common.{
  ℕ, suc, ◌+◌, ◌-◌, ◌*◌, ◌/◌, ◌%◌, ◌^◌, Bool, true, false, ◌&&◌, ◌||◌, List, [], ◌∷◌, ◌++◌, ltb,
  leb, ◌==◌, if◌then◌else◌, length,
}
use xtables_addons.Common.Words.{u8_mod, u32_mod, u64_mod}

abbrev pub psd_max_rate : ℕ
psd_max_rate = 10000

-- The places of `ports`, SCAN_MAX_COUNT less one.
abbrev pub ports_size : ℕ
ports_size = 7 * 3 - 1

-- struct xt_psd_info
pub record PsdInfo : Type 0 where
  pub weight_threshold : ℕ
  pub delay_threshold : ℕ
  pub lo_ports_weight : ℕ
  pub hi_ports_weight : ℕ

pub record Port : Type 0 where
  pub number : ℕ
  pub proto : ℕ

-- struct host without its link; `ports` has the `count` ports that are filled in.
pub record Host : Type 0 where
  pub timestamp : ℕ
  pub weight : ℕ
  pub ports : List Port

-- The parts of the header that the code reads; UDP has no flags. Ports are in host order.
pub record TcpHdr : Type 0 where
  pub dest : ℕ
  pub ack : Bool
  pub rst : Bool

abbrev pub ipproto_tcp : ℕ
ipproto_tcp = 6

unfoldable pub port_in_list : List Port → ℕ → ℕ → Bool
port_in_list [] proto port = false
port_in_list (p ∷ ps) proto port =
    ((p.proto == proto) && (p.number == port)) || port_in_list ps proto port

unfoldable pub get_port_weight : PsdInfo → ℕ → ℕ
get_port_weight psd port = if ltb port 1024 then psd.lo_ports_weight else psd.hi_ports_weight

-- `host->ports[host->count++]` where there is room
abbrev pub remember : ℕ → ℕ → List Port → List Port
remember proto port ports =
    if ltb (length ports) ports_size
    then ports ++ record { number = port; proto = proto } ∷ []
    else ports

-- The verdict, and the host as it is left; the weight of a host is a byte.
unfoldable pub is_portscan : ℕ → PsdInfo → TcpHdr → ℕ → Host → Bool × Host
is_portscan jiffies psdinfo tcph proto host =
    let weight = (host.weight + get_port_weight psdinfo tcph.dest) % u8_mod in
    if port_in_list host.ports proto tcph.dest
    then (false, host)
    else if (proto == ipproto_tcp) && (tcph.ack || tcph.rst)
    then (false, host)
    else if leb psdinfo.weight_threshold host.weight
    then (true, record host { timestamp = jiffies })
    else if leb psdinfo.weight_threshold weight
    then (true, record host { timestamp = jiffies; weight = weight })
    else (
      false,
      record host {
        timestamp = jiffies;
        weight = weight;
        ports = remember proto tcph.dest host.ports;
      },
    )

-- `time_after_eq(now, h->timestamp)` is a 64-bit difference below 2 ^ 63.
unfoldable pub entry_is_recent : ℕ → Host → ℕ → ℕ → Bool
entry_is_recent hz h delay_threshold now =
    let age = (now + u64_mod - h.timestamp) % u64_mod in
    leb age (delay_threshold * hz / 100) && ltb age (2 ^ 63)

unfoldable pub psd_mt_check : PsdInfo → Bool
psd_mt_check info =
    if info.weight_threshold == 0
    then false
    else if (info.lo_ports_weight == 0) && (info.hi_ports_weight == 0)
    then false
    else if ltb psd_max_rate info.delay_threshold
        || ltb psd_max_rate info.weight_threshold
        || ltb psd_max_rate info.lo_ports_weight
        || ltb psd_max_rate info.hi_ports_weight
    then false
    else true

-- The first entry of an address: what `handle_packet` fills in.
unfoldable pub new_host : ℕ → PsdInfo → TcpHdr → ℕ → Host
new_host now psdinfo tcph proto = record {
  timestamp = now;
  weight = get_port_weight psdinfo tcph.dest % u8_mod;
  ports = record { number = tcph.dest; proto = proto } ∷ [];
}
