-- ===== src/Ipp2p/Match.antt =====
-- The match itself (`ipp2p_mt` of extensions/xt_ipp2p.c): which searches a packet goes through. A
-- packet that is not linear is refused, and of one that is the payload has the length that the IP
-- header says.
pub mod Bounds
use xtables_addons.Common.{
  ℕ, ◌+◌, ◌*◌, ◌/◌, ◌^◌, Bool, true, false, not, ◌&&◌, ◌||◌, Option, some, none, List, [], ◌∷◌,
  bit_and, ltb, ◌==◌, if◌then◌else◌, length,
}
use xtables_addons.Ipp2p.Commands.{
  ipp2p_edk, ipp2p_data_kazaa, ipp2p_data_edk, ipp2p_data_dc, ipp2p_dc, ipp2p_data_gnu, ipp2p_gnu,
  ipp2p_kazaa, ipp2p_bit, ipp2p_apple, ipp2p_soul, ipp2p_winmx, ipp2p_ares, ipp2p_mute, ipp2p_waste,
  ipp2p_xdcc,
}
use xtables_addons.Ipp2p.Payload.{◌>>=◌, drop, get_u8, get_u16}
use xtables_addons.Ipp2p.Udp.{
  udp_search_edk, udp_search_gnu, udp_search_kazaa, udp_search_directconnect, udp_search_bit,
}
use xtables_addons.Ipp2p.Tcp.{
  search_all_edk, search_edk, search_kazaa, search_gnu, search_dc, search_all_dc, search_apple,
  search_mute, search_waste, search_ares, search_bittorrent,
}
use xtables_addons.Ipp2p.Scan.{
  search_soul, search_winmx, search_all_gnu, search_all_kazaa, search_xdcc,
}

pub record Entry : Type 0 where
  pub command : ℕ
  pub packet_len : ℕ
  pub function_name : List ℕ → Option ℕ

abbrev pub entry : ℕ → ℕ → (List ℕ → Option ℕ) → Entry
entry c n f = record { command = c; packet_len = n; function_name = f }

unfoldable pub matchlist : List Entry
matchlist =
    entry ipp2p_edk 20 search_all_edk
    ∷ entry ipp2p_data_kazaa 200 search_kazaa
    ∷ entry ipp2p_data_edk 60 search_edk
    ∷ entry ipp2p_data_dc 26 search_dc
    ∷ entry ipp2p_dc 5 search_all_dc
    ∷ entry ipp2p_data_gnu 40 search_gnu
    ∷ entry ipp2p_gnu 5 search_all_gnu
    ∷ entry ipp2p_kazaa 5 search_all_kazaa
    ∷ entry ipp2p_bit 20 search_bittorrent
    ∷ entry ipp2p_apple 5 search_apple
    ∷ entry ipp2p_soul 5 search_soul
    ∷ entry ipp2p_winmx 2 search_winmx
    ∷ entry ipp2p_ares 5 search_ares
    ∷ entry ipp2p_mute 200 search_mute
    ∷ entry ipp2p_waste 5 search_waste
    ∷ entry ipp2p_xdcc 5 search_xdcc
    ∷ []

unfoldable pub udp_list : List Entry
udp_list =
    entry ipp2p_kazaa 14 udp_search_kazaa
    ∷ entry ipp2p_bit 23 udp_search_bit
    ∷ entry ipp2p_gnu 11 udp_search_gnu
    ∷ entry ipp2p_edk 9 udp_search_edk
    ∷ entry ipp2p_dc 12 udp_search_directconnect
    ∷ []

-- `(info->cmd & command) == command`
abbrev pub asks : ℕ → ℕ → Bool
asks cmd command = bit_and cmd command == command

after : Option ℕ → Option Bool → Option Bool
after none rest = none
after (some result) rest = if result == 0 then rest else some true

-- The `while` over a list: the first search that finds something answers.
unfoldable pub walk : List Entry → ℕ → List ℕ → Option Bool
unfolding after
walk [] cmd haystack = some false
walk (e ∷ es) cmd haystack =
    let rest = walk es cmd haystack in
    if asks cmd e.command && ltb e.packet_len (length haystack)
    then after (e.function_name haystack) rest
    else rest

-- The members of the TCP header at `p` that the match uses, read without a test of the length.
pub record TcpHdr : Type 0 where
  pub fin : Bool
  pub syn : Bool
  pub rst : Bool
  pub doff : ℕ

unfoldable pub tcp_hdr : List ℕ → Option TcpHdr
tcp_hdr p = do
  offset ← get_u8 p 12
  flags ← get_u8 p 13
  some (record {
    fin = not (bit_and flags 1 == 0);
    syn = not (bit_and flags 2 == 0);
    rst = not (bit_and flags 4 == 0);
    doff = offset / 16;
  })

-- What is behind a header of that size, which may be longer than the packet or all of it.
behind : ℕ → List Entry → ℕ → List ℕ → Option Bool
behind header es cmd haystack =
    if ltb (length haystack) header || (length haystack == header)
    then some false
    else walk es cmd (drop header haystack)

no_tcp_end : ℕ → List ℕ → TcpHdr → Option Bool
no_tcp_end cmd haystack tcph =
    if tcph.fin || tcph.syn || tcph.rst
    then some false
    else behind (tcph.doff * 4) matchlist cmd haystack

unfoldable pub ipp2p_mt_tcp : ℕ → List ℕ → Option Bool
unfolding behind no_tcp_end
ipp2p_mt_tcp cmd haystack = tcp_hdr haystack >>= no_tcp_end cmd haystack

abbrev pub udphdr_size : ℕ
udphdr_size = 8

unfoldable pub ipp2p_mt_udp : ℕ → List ℕ → Option Bool
unfolding behind
ipp2p_mt_udp cmd haystack = behind udphdr_size udp_list cmd haystack

-- `protocol` is `none` where ipv6_find_hdr fails; `transport` is what the IP header says that there is
-- from the transport header on.
pub record SkBuff : Type 0 where
  pub fragoff : ℕ
  pub is_nonlinear : Bool
  pub protocol : Option ℕ
  pub transport : List ℕ

-- The ports, which go to the printer, are read before anything else.
with_ports : List ℕ → Option Bool → Option Bool
with_ports transport rest = get_u16 transport 0 >>= λ source. get_u16 transport 2 >>= λ dest. rest

by_protocol : ℕ → SkBuff → Option ℕ → Option Bool
by_protocol cmd skb none = some false
by_protocol cmd skb (some protocol) =
    if protocol == 6
    then with_ports skb.transport (ipp2p_mt_tcp cmd skb.transport)
    else if (protocol == 17) || (protocol == 136)
    then with_ports skb.transport (ipp2p_mt_udp cmd skb.transport)
    else some false

unfoldable pub ipp2p_mt : ℕ → SkBuff → Option Bool
unfolding by_protocol with_ports
ipp2p_mt cmd skb =
    if not (skb.fragoff == 0) || skb.is_nonlinear
    then some false
    else by_protocol cmd skb skb.protocol
