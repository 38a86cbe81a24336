-- ===== src/Ipp2p/Tcp.antt =====
-- The searches in TCP payloads that look at fixed places (extensions/xt_ipp2p.c).
pub mod Bounds
use xtables_addons.Common.{
  ℕ, suc, zero, ◌+◌, ◌-◌, ◌*◌, ◌%◌, ◌^◌, Bool, true, false, not, ◌&&◌, ◌||◌, Option, some, none,
  List, [], ◌∷◌, ◌++◌, ltb, leb, ◌==◌, if◌then◌else◌, length,
}
use xtables_addons.Common.Words.{u32_mod, ntohl}
use xtables_addons.Ipp2p.Commands.{
  ipp2p_edk, ipp2p_data_kazaa, ipp2p_data_edk, ipp2p_data_dc, ipp2p_dc, ipp2p_data_gnu, ipp2p_bit,
  ipp2p_apple, ipp2p_ares, ipp2p_mute, ipp2p_waste,
}
use xtables_addons.Ipp2p.Payload.{
  codes, ◌>>=◌, get_u8, get_u16, get_u32, same_at, ◌&&?◌, ◌||?◌, branch, is_u8, is_u16, is_u32,
}

unfoldable pub search_all_edk : List ℕ → Option ℕ
search_all_edk p =
    if ltb (length p) 6
    then some 0
    else branch (is_u8 p 0 0xe3)
        (branch (is_u16 p 1 (length p - 5))
          (get_u8 p 5 >>= λ b. some (
            if b == 0x01
            then ipp2p_edk * 100 + 1
            else if b == 0x4c
            then ipp2p_edk * 100 + 9
            else 0))
          (some 0))
        (some 0)

unfoldable pub search_edk : List ℕ → Option ℕ
search_edk p =
    if ltb (length p) 6
    then some 0
    else branch (is_u8 p 0 0xe3) (branch (is_u8 p 5 0x47) (some (ipp2p_data_edk * 100)) (some 0))
        (some 0)

-- The payload ends with CR and LF.
ends_line : List ℕ → Option Bool
ends_line p = is_u8 p (length p - 2) 0x0d &&? is_u8 p (length p - 1) 0x0a

unfoldable pub search_kazaa : List ℕ → Option ℕ
unfolding ends_line
search_kazaa p =
    if ltb (length p) 13
    then some 0
    else branch (ends_line p &&? same_at p 0 (codes "GET /.hash=")) (some (ipp2p_data_kazaa * 100))
        (some 0)

unfoldable pub search_gnu : List ℕ → Option ℕ
unfolding ends_line
search_gnu p =
    if ltb (length p) 11
    then some 0
    else branch (ends_line p)
        (branch (same_at p 0 (codes "GET /get/")) (some (ipp2p_data_gnu * 100 + 1)) (
          branch (some (leb 15 (length p)) &&? same_at p 0 (codes "GET /uri-res/"))
            (some (ipp2p_data_gnu * 100 + 2)) (some 0)))
        (some 0)

unfoldable pub search_dc : List ℕ → Option ℕ
search_dc p =
    if ltb (length p) 6
    then some 0
    else branch (is_u8 p 0 0x24)
        (branch (same_at p 1 (codes "Send|")) (some (ipp2p_data_dc * 100)) (some 0)) (some 0)

unfoldable pub search_all_dc : List ℕ → Option ℕ
search_all_dc p =
    if ltb (length p) 7
    then some 0
    else branch (is_u8 p 0 0x24 &&? is_u8 p (length p - 1) 0x7c)
        (branch (same_at p 1 (codes "Lock ")) (some (ipp2p_dc * 100 + 1)) (
          branch (some (leb 9 (length p)) &&? same_at p 1 (codes "MyNick "))
            (some (ipp2p_dc * 100 + 38)) (some 0)))
        (some 0)

unfoldable pub search_apple : List ℕ → Option ℕ
search_apple p =
    branch
      (some (ltb 7 (length p))
        &&? is_u8 p 6 0x0d
        &&? is_u8 p 7 0x0a
        &&? same_at p 0 (codes "ajprot"))
      (some (ipp2p_apple * 100)) (some 0)

unfoldable pub search_mute : List ℕ → Option ℕ
search_mute p =
    let plen = length p in
    if (plen == 209) || (plen == 345) || (plen == 473) || (plen == 609) || (plen == 1121)
    then branch (same_at p 0 (codes "PublicKey: ")) (some (ipp2p_mute * 100 + 0)) (some 0)
    else some 0

unfoldable pub search_waste : List ℕ → Option ℕ
search_waste p =
    branch (some (leb 8 (length p)) &&? same_at p 0 (codes "GET.sha1:"))
      (some (ipp2p_waste * 100 + 0)) (some 0)

unfoldable pub search_ares : List ℕ → Option ℕ
search_ares p =
    let plen = length p in
    if ltb plen 3
    then some 0
    else branch (is_u8 p 1 0 &&? (get_u8 p 0 >>= λ b. some ((plen + u32_mod - b) % u32_mod == 3)))
        (get_u8 p 2 >>= λ kind.
          if kind == 0x5a
          then branch (some (plen == 6) &&? is_u8 p 5 0x05) (some (ipp2p_ares * 100 + 1)) (some 0)
          else some
              (if (kind == 0x09) && leb 14 plen && leb plen 34 then ipp2p_ares * 100 + 1 else 0))
        (some 0)

-- The loop of `HX_memmem` (extensions/compat_xtables.c) from `i` on, `n` rounds.
memmem_from : ℕ → List ℕ → List ℕ → ℕ → Option Bool
memmem_from zero space point i = some false
memmem_from (suc n) space point i =
    branch (same_at space i point) (some true) (memmem_from n space point (i + 1))

-- Whether `HX_memmem` finds the text.
unfoldable pub hx_memmem : List ℕ → List ℕ → Option Bool
unfolding memmem_from
hx_memmem space point =
    if ltb (length space) (length point)
    then some false
    else memmem_from (suc (length space - length point)) space point 0

unfoldable pub search_bittorrent : List ℕ → Option ℕ
search_bittorrent p =
    let plen = length p in
    let tracker =
      branch (same_at p 0 (codes "GET /"))
        (branch (hx_memmem p (codes "info_hash=")) (some (ipp2p_bit * 100 + 1)) (
          branch (hx_memmem p (codes "peer_id=")) (some (ipp2p_bit * 100 + 2))
            (branch (hx_memmem p (codes "passkey=")) (some (ipp2p_bit * 100 + 4)) (some 0))))
        (some 0) in
    if ltb 20 plen
    then branch (is_u8 p 0 0x13)
        (branch (same_at p 1 (codes "BitTorrent protocol")) (some (ipp2p_bit * 100)) tracker)
        tracker
    else branch
        (some (plen == 17)
          &&? is_u32 p 0 (ntohl 0x0d)
          &&? is_u8 p 4 0x06
          &&? is_u32 p 13 (ntohl 0x4000))
        (some (ipp2p_bit * 100 + 3)) (some 0)
