-- ===== src/Ipp2p/Tests.antt =====
-- Runs of the ipp2p searches (extensions/xt_ipp2p.c), and the theorems at concrete payloads.
use xtables_addons.Common.{ℕ, ◌≡◌, refl, false, some, List, [], ◌∷◌, ◌++◌, arith}
use xtables_addons.Ipp2p.Payload.{codes, IsSafe, get_u8, get_u16, get_u32, same_at}
use xtables_addons.Ipp2p.Udp.{udp_search_kazaa}
use xtables_addons.Ipp2p.Tcp.{search_bittorrent, hx_memmem}
use xtables_addons.Ipp2p.Scan.{search_winmx}
use xtables_addons.Ipp2p.Scan.Outside.{ClientCommand}
use xtables_addons.Ipp2p.Match.{SkBuff, ipp2p_mt}
use xtables_addons.Ipp2p.Match.Bounds.{ipp2p_mt-IsSafe}

kazaa_test : udp_search_kazaa (codes "xx" ++ codes "KaZaA" ++ 0 ∷ []) ≡ some 12850
unfolding udp_search_kazaa same_at
kazaa_test = refl

tracker_test : search_bittorrent (codes "GET /announce?peer_id=1 HTTP") ≡ some 25602
unfolding search_bittorrent get_u8 same_at hx_memmem
tracker_test = refl

winmx_test : search_winmx (codes "SEND a \" \"b \" x") ≡ some 204803
unfolding search_winmx get_u8 same_at
winmx_test = refl

-- A TCP header of 20 bytes with ACK and PSH set.
abbrev header : List ℕ
header =
    0x9c ∷ 0x40 ∷ 0 ∷ 80 ∷ 0 ∷ 0 ∷ 0 ∷ 1 ∷ 0 ∷ 0 ∷ 0 ∷ 1 ∷ 0x50 ∷ 0x18 ∷ 0 ∷ 0 ∷ 0 ∷ 0 ∷ 0 ∷ 0 ∷ []

abbrev skb : SkBuff
skb = record {
  fragoff = 0;
  is_nonlinear = false;
  protocol = some 6;
  transport = header ++ codes "GET /get/1";
}

ipp2p_mt-IsSafe_example : IsSafe (ipp2p_mt 0x20 skb)
ipp2p_mt-IsSafe_example =
    ipp2p_mt-IsSafe 0x20 skb (record { no_kazaa = refl; no_soul = refl; no_waste = refl })
      (omega arith, λ tcp. omega arith) (omega arith)

abbrev client : List ℕ → List ℕ
client y = 0x14 ∷ 0 ∷ 0 ∷ 0 ∷ 1 ∷ (y ++ 9 ∷ 9 ∷ 9 ∷ 9 ∷ 9 ∷ 9 ∷ 9 ∷ 9 ∷ 9 ∷ 9 ∷ [])

small-ClientCommand : ClientCommand (client (0 ∷ 0 ∷ 0 ∷ 0 ∷ [])) 0
unfolding get_u8 get_u16 get_u32
small-ClientCommand = record {
  long = omega arith;
  head = refl;
  kind = refl;
  string = refl;
  not_sized = refl;
}

huge-ClientCommand : ClientCommand (client (0xf0 ∷ 0xff ∷ 0xff ∷ 0xff ∷ [])) 0xfffffff0
unfolding get_u8 get_u16 get_u32
huge-ClientCommand = record {
  long = omega arith;
  head = refl;
  kind = refl;
  string = refl;
  not_sized = refl;
}
