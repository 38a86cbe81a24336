-- ===== src/Ipp2p/Scan.antt =====
-- The searches in TCP payloads that walk over them, and the SoulSeek search
-- (extensions/xt_ipp2p.c).
pub mod Bounds
pub mod Outside
use xtables_addons.Common.{
  ℕ, suc, zero, ◌+◌, ◌-◌, ◌*◌, ◌%◌, ◌^◌, Bool, not, ◌&&◌, ◌||◌, Option, some, none, List, ltb, leb,
  ◌==◌, if◌then◌else◌, length,
}
use xtables_addons.Common.Words.{u16_mod, u32_mod, ntohs}
use xtables_addons.Ipp2p.Commands.{ipp2p_gnu, ipp2p_kazaa, ipp2p_soul, ipp2p_winmx, ipp2p_xdcc}
use xtables_addons.Ipp2p.Payload.{
  codes, ◌>>=◌, get_u8, get_u32, same_at, ◌&&?◌, ◌||?◌, branch, is_u8, is_u16, is_u32,
}

-- The answer to the command `m` of a SoulSeek message, 0 where there is none.
soul_command : ℕ → ℕ
soul_command m =
    if (m == 7)
      || (m == 9)
      || (m == 22)
      || (m == 23)
      || (m == 26)
      || (m == 28)
      || (m == 50)
      || (m == 51)
      || (m == 60)
      || (m == 91)
      || (m == 92)
      || (m == 1001)
    then ipp2p_soul * 100 + 3
    else if ltb 0 m && ltb m 6
    then ipp2p_soul * 100 + 4
    else if ltb 12 m && ltb m 19
    then ipp2p_soul * 100 + 5
    else if ltb 34 m && ltb m 38
    then ipp2p_soul * 100 + 6
    else if ltb 39 m && ltb m 47
    then ipp2p_soul * 100 + 7
    else if ltb 61 m && ltb m 70
    then ipp2p_soul * 100 + 8
    else 0

-- The special client command behind the string of `y` bytes; the test of the bytes behind it has an
-- empty body.
soul_client : List ℕ → Option ℕ
soul_client p =
    branch (is_u32 p 0 0x14 &&? is_u8 p 4 0x01)
      (get_u32 p 5 >>= λ y.
        if leb ((y + 19) % u32_mod) (length p)
        then branch
            (is_u32 p (9 + y) 0x01
              &&? (is_u16 p (9 + y + 4) 0x4600 ||? is_u16 p (9 + y + 4) 0x5000)
              &&? is_u32 p (9 + y + 6) 0x00)
            (some (ipp2p_soul * 100 + 9)) (some (ipp2p_soul * 100 + 9))
        else some 0)
      (some 0)

unfoldable pub search_soul : List ℕ → Option ℕ
unfolding soul_client soul_command
search_soul p =
    let plen = length p in
    if ltb plen 8
    then some 0
    else branch (is_u32 p 0 (plen - 4))
        (get_u32 p 4 >>= λ m.
          branch (is_u8 p 4 0x00 &&? is_u8 p 7 0x00) (some (ipp2p_soul * 100 + 1)) (
            branch (is_u8 p 4 0x01 &&? is_u16 p 6 0x0000) (some (ipp2p_soul * 100 + 2))
              (if soul_command m == 0 then soul_client p else some (soul_command m))))
        (soul_client p)

-- The `while` on the 16-bit `c`; `next` is what follows it. Every round adds to `c`; `none` is also
-- the end of the fuel.
winmx_loop : ℕ → List ℕ → ℕ → ℕ → ℕ → Option ℕ → Option ℕ
winmx_loop zero p end c count next = none
winmx_loop (suc fuel) p end c count next =
    let quote = winmx_loop fuel p end ((c + 2) % u16_mod) (count + 1) next in
    let other = winmx_loop fuel p end ((c + 1) % u16_mod) count next in
    if ltb c end
    then branch (is_u8 p c 0x20 &&? is_u8 p (c + 1) 0x22)
        (if leb 2 (count + 1) then some (ipp2p_winmx * 100 + 3) else quote) other
    else next

winmx_149 : List ℕ → Option ℕ
winmx_149 p =
    branch (some (length p == 149) &&? is_u8 p 0 b'8')
      (branch
        (is_u32 p 17 0
          &&? is_u32 p 21 0
          &&? is_u32 p 25 0
          &&? is_u16 p 39 0
          &&? is_u16 p 135 (ntohs 0x7edf)
          &&? is_u16 p 147 (ntohs 0xf792))
        (some (ipp2p_winmx * 100 + 4)) (some 0))
      (some 0)

-- One round more than bytes is enough for the loop.
winmx_long : List ℕ → Option ℕ
winmx_long p =
    if ltb (length p) 10
    then some 0
    else branch (same_at p 0 (codes "SEND") ||? same_at p 0 (codes "GET"))
        (winmx_loop (suc (length p)) p ((length p - 2) % u16_mod) 4 0 (winmx_149 p)) (winmx_149 p)

unfoldable pub search_winmx : List ℕ → Option ℕ
unfolding winmx_long winmx_loop winmx_149
search_winmx p =
    branch (some (length p == 4) &&? same_at p 0 (codes "SEND")) (some (ipp2p_winmx * 100 + 1)) (
      branch (some (length p == 3) &&? same_at p 0 (codes "GET")) (some (ipp2p_winmx * 100 + 2))
        (winmx_long p))

-- The `for` from `c` on, `n` rounds.
gnu_loop : ℕ → List ℕ → ℕ → Option ℕ
gnu_loop zero p c = some 0
gnu_loop (suc n) p c =
    branch
      (is_u8 p c 0x0d
        &&? is_u8 p (c + 1) 0x0a
        &&? (same_at p (c + 2) (codes "X-Gnutella-") ||? same_at p (c + 2) (codes "X-Queue:")))
      (some (ipp2p_gnu * 100 + 3)) (gnu_loop n p (c + 1))

unfoldable pub search_all_gnu : List ℕ → Option ℕ
unfolding gnu_loop
search_all_gnu p =
    let plen = length p in
    if ltb plen 11
    then some 0
    else branch (is_u8 p (plen - 2) 0x0d &&? is_u8 p (plen - 1) 0x0a)
        (branch (some (leb 19 plen) &&? same_at p 0 (codes "GNUTELLA CONNECT/"))
          (some (ipp2p_gnu * 100 + 1))
          (branch (same_at p 0 (codes "GNUTELLA/")) (some (ipp2p_gnu * 100 + 2)) (
            branch
              (some (leb 22 plen)
                &&? (same_at p 0 (codes "GET /get/") ||? same_at p 0 (codes "GET /uri-res/")))
              (gnu_loop (plen - 22) p 0) (some 0))))
        (some 0)

-- The `for` from `c` on, `n` rounds, with `rem` bytes from `c` to the end.
kazaa_loop : ℕ → List ℕ → ℕ → ℕ → Option ℕ
kazaa_loop zero p c rem = some 0
kazaa_loop (suc n) p c rem =
    let rest = kazaa_loop n p ((c + 1) % u16_mod) ((rem + u16_mod - 1) % u16_mod) in
    branch (is_u8 p c 0x0d &&? is_u8 p (c + 1) 0x0a)
      (branch (some (leb 18 rem) &&? same_at p (c + 2) (codes "X-Kazaa-Username: "))
        (some (ipp2p_kazaa * 100 + 2))
        (branch (some (leb 24 rem) &&? same_at p (c + 2) (codes "User-Agent: PeerEnabler/"))
          (some (ipp2p_kazaa * 100 + 2)) rest))
      rest

unfoldable pub search_all_kazaa : List ℕ → Option ℕ
unfolding kazaa_loop
search_all_kazaa p =
    let plen = length p in
    if ltb plen 7
    then some 0
    else branch (is_u8 p (plen - 2) 0x0d &&? is_u8 p (plen - 1) 0x0a)
        (branch (same_at p 0 (codes "GIVE ")) (some (ipp2p_kazaa * 100 + 1)) (
          branch (same_at p 0 (codes "GET /"))
            (if ltb plen 18
              then some 0
              else kazaa_loop ((plen - 18) % u16_mod - 5) p 5 ((plen - 5) % u16_mod))
            (some 0)))
        (some 0)

-- The `while` from `x` on, `n` rounds.
xdcc_loop : ℕ → List ℕ → ℕ → Option ℕ
xdcc_loop zero p x = some 0
xdcc_loop (suc n) p x =
    branch (is_u8 p x b':' &&? same_at p (x + 1) (codes "xdcc send #"))
      (some (ipp2p_xdcc * 100 + 0)) (xdcc_loop n p (x + 1))

unfoldable pub search_xdcc : List ℕ → Option ℕ
unfolding xdcc_loop
search_xdcc p =
    let plen = length p in
    branch
      (some (ltb 20 plen && ltb plen 200)
        &&? is_u8 p (plen - 1) 0x0a
        &&? is_u8 p (plen - 2) 0x0d
        &&? same_at p 0 (codes "PRIVMSG "))
      (xdcc_loop (plen - 13 - 10) p 10) (some 0)
