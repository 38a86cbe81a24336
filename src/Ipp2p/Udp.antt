-- ===== src/Ipp2p/Udp.antt =====
-- The searches in UDP payloads (extensions/xt_ipp2p.c); `packet_len` is the payload's length.
pub mod Bounds
use xtables_addons.Common.{
  ℕ, suc, ◌+◌, ◌-◌, ◌*◌, ◌%◌, ◌^◌, ◌<◌, ◌≤◌, Bool, true, false, not, ◌&&◌, ◌||◌, Option, some, none,
  List, [], ◌∷◌, ◌++◌, ltb, leb, ◌==◌, if◌then◌else◌, length, arith,
}
use xtables_addons.Common.Words.{u32_mod, ntohl}
use xtables_addons.Ipp2p.Commands.{ipp2p_edk, ipp2p_dc, ipp2p_gnu, ipp2p_kazaa, ipp2p_bit}
use xtables_addons.Ipp2p.Payload.{
  codes, ◌>>=◌, get_u8, get_u32, same_at, ◌&&?◌, ◌||?◌, branch, is_u8, is_u16, is_u32,
}

-- A case of a `switch` that returns `code` where the size fits and else breaks out to 0.
abbrev pub if_size : Bool → ℕ → Option ℕ
if_size fits code = some (if fits then code else 0)

edonkey : List ℕ → Option ℕ
edonkey t =
    let packet_len = length t in
    get_u8 t 1 >>= λ t1.
    if t1 == 0x96
    then if_size (packet_len == 6) (ipp2p_edk * 100 + 50)
    else if t1 == 0x97
    then if_size (packet_len == 34) (ipp2p_edk * 100 + 51)
    else if t1 == 0xa2
    then branch (some (packet_len == 6) &&? is_u16 t 2 0xf0ff) (some (ipp2p_edk * 100 + 52))
        (some 0)
    else if t1 == 0x9a
    then if_size (packet_len == 18) (ipp2p_edk * 100 + 54)
    else if t1 == 0x92
    then if_size (packet_len == 10) (ipp2p_edk * 100 + 55)
    else some 0

kademlia : List ℕ → Option ℕ
kademlia t =
    let packet_len = length t in
    get_u8 t 1 >>= λ t1.
    if t1 == 0x20
    then branch
        (some (packet_len == 35)
          &&? (get_u8 t 2 >>= λ b. some (not (b == 0)))
          &&? (get_u8 t 34 >>= λ b. some (not (b == 0))))
        (some (ipp2p_edk * 100 + 60)) (some 0)
    else if t1 == 0x00
    then branch (some (packet_len == 27) &&? is_u8 t 26 0) (some (ipp2p_edk * 100 + 61)) (some 0)
    else if t1 == 0x10
    then branch (some (packet_len == 27) &&? is_u8 t 26 0) (some (ipp2p_edk * 100 + 62)) (some 0)
    else if t1 == 0x18
    then branch (some (packet_len == 27) &&? is_u8 t 26 0) (some (ipp2p_edk * 100 + 63)) (some 0)
    else if t1 == 0x52
    then if_size (packet_len == 36) (ipp2p_edk * 100 + 64)
    else if t1 == 0x58
    then if_size (packet_len == 6) (ipp2p_edk * 100 + 65)
    else if t1 == 0x59
    then if_size (packet_len == 2) (ipp2p_edk * 100 + 66)
    else if t1 == 0x28
    then if_size ((packet_len + u32_mod - 44) % u32_mod % 25 == 0) (ipp2p_edk * 100 + 67)
    else if t1 == 0x50
    then if_size (packet_len == 4) (ipp2p_edk * 100 + 68)
    else if t1 == 0x40
    then if_size (packet_len == 48) (ipp2p_edk * 100 + 69)
    else some 0

unfoldable pub udp_search_edk : List ℕ → Option ℕ
unfolding edonkey kademlia
udp_search_edk t =
    if ltb (length t) 4
    then some 0
    else get_u8 t 0 >>= λ t0.
        if t0 == 0xe3 then edonkey t else if t0 == 0xe4 then kademlia t else some 0

unfoldable pub udp_search_gnu : List ℕ → Option ℕ
udp_search_gnu t =
    branch (some (leb 3 (length t)) &&? same_at t 0 (codes "GND")) (some (ipp2p_gnu * 100 + 51)) (
      branch (some (leb 9 (length t)) &&? same_at t 0 (codes "GNUTELLA "))
        (some (ipp2p_gnu * 100 + 52)) (some 0))

unfoldable pub udp_search_kazaa : List ℕ → Option ℕ
udp_search_kazaa t =
    if ltb (length t) 6
    then some 0
    else branch (same_at t (length t - 6) (codes "KaZaA" ++ 0 ∷ [])) (some (ipp2p_kazaa * 100 + 50))
        (some 0)

unfoldable pub udp_search_directconnect : List ℕ → Option ℕ
udp_search_directconnect t =
    let packet_len = length t in
    if ltb packet_len 5
    then some 0
    else branch (is_u8 t 0 0x24 &&? is_u8 t (packet_len - 1) 0x7c)
        (branch (same_at t 1 (codes "SR ")) (some (ipp2p_dc * 100 + 60)) (
          branch (some (leb 7 packet_len) &&? same_at t 1 (codes "Ping "))
            (some (ipp2p_dc * 100 + 61)) (some 0)))
        (some 0)

-- A number in network order, read on a little-endian host.
abbrev pub htonl : ℕ → ℕ
htonl = ntohl

-- The two tests of the BitTorrent sizes 36, 57 and 59: what follows them is `next`.
pair_of_words : List ℕ → ℕ → ℕ → ℕ → Option ℕ → Option ℕ
pair_of_words t first long short next =
    branch (is_u32 t 8 (htonl first) &&? is_u32 t 28 (htonl 0x00000104)) (some long)
      (branch (is_u32 t 8 (htonl first)) (some short) next)

-- "d1:" [a|r] "d2:id20:"
bitcomet : List ℕ → Option ℕ
bitcomet t =
    branch (some (ltb 22 (length t)) &&? is_u8 t 0 b'd' &&? is_u8 t 1 b'1' &&? is_u8 t 2 b':')
      (branch (is_u8 t 3 b'a' ||? is_u8 t 3 b'r')
        (branch (same_at t 4 (codes "d2:id20:")) (some (ipp2p_bit * 100 + 57)) (some 0)) (some 0))
      (some 0)

-- The `switch` on the size; `next` is what follows it.
by_size : List ℕ → Option ℕ → Option ℕ
by_size t next =
    let packet_len = length t in
    if packet_len == 16
    then branch
        ((get_u32 t 0 >>= λ w. some (ntohl w == 0x00000417))
          &&? (get_u32 t 4 >>= λ w. some (ntohl w == 0x27101980)))
        (some (ipp2p_bit * 100 + 50)) next
    else if packet_len == 36
    then pair_of_words t 0x00000400 (ipp2p_bit * 100 + 51) (ipp2p_bit * 100 + 61) next
    else if packet_len == 57
    then pair_of_words t 0x00000404 (ipp2p_bit * 100 + 52) (ipp2p_bit * 100 + 62) next
    else if packet_len == 59
    then pair_of_words t 0x00000406 (ipp2p_bit * 100 + 53) (ipp2p_bit * 100 + 63) next
    else if packet_len == 203
    then branch (is_u32 t 0 (htonl 0x00000405)) (some (ipp2p_bit * 100 + 54)) next
    else if packet_len == 21
    then branch (is_u32 t 0 (htonl 0x00000401)) (some (ipp2p_bit * 100 + 55)) next
    else if packet_len == 44
    then branch (is_u32 t 0 (htonl 0x00000827) &&? is_u32 t 4 (htonl 0x37502950))
        (some (ipp2p_bit * 100 + 80)) next
    else branch
        (some (leb 32 packet_len)
          &&? is_u32 t 8 (htonl 0x00000402)
          &&? is_u32 t 28 (htonl 0x00000104))
        (some (ipp2p_bit * 100 + 56)) next

unfoldable pub udp_search_bit : List ℕ → Option ℕ
unfolding by_size pair_of_words bitcomet
udp_search_bit t = by_size t (bitcomet t)
