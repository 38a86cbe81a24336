-- ===== src/Ipp2p/Scan/Bounds.antt =====
-- The walks over TCP payloads (extensions/xt_ipp2p.c) end and stay inside the payload.
use xtables_addons.Common.{
  ℕ, zero, suc, ◌+◌, ◌-◌, ◌%◌, ◌≤◌, ◌<◌, Option, some, List, length, arith, ◌==◌,
}
use xtables_addons.Common.Words.{u16_mod}
use xtables_addons.Ipp2p.Payload.{
  codes, same_at, ◌&&?◌, IsSafe, branch-IsSafe, get_u8-IsSafe, get_u16-IsSafe, get_u32-IsSafe,
  same_at-IsSafe,
}
use xtables_addons.Ipp2p.Scan.{
  winmx_loop, winmx_149, winmx_long, search_winmx, gnu_loop, search_all_gnu, xdcc_loop, search_xdcc,
}

gnu_loop-IsSafe : (n : ℕ) (p : List ℕ) (c : ℕ) → c + n + 22 ≤ length p → IsSafe (gnu_loop n p c)
unfolding gnu_loop
gnu_loop-IsSafe zero p c h = tt
gnu_loop-IsSafe (suc n) p c h = ground (
  arith,
  get_u8-IsSafe p c,
  get_u8-IsSafe p (c + 1),
  same_at-IsSafe p (c + 2) (codes "X-Gnutella-"),
  same_at-IsSafe p (c + 2) (codes "X-Queue:"),
  gnu_loop-IsSafe n p (c + 1),
)

pub search_all_gnu-IsSafe : (p : List ℕ) → IsSafe (search_all_gnu p)
unfolding search_all_gnu
search_all_gnu-IsSafe p = ground (
  arith,
  get_u8-IsSafe p (length p - 2),
  get_u8-IsSafe p (length p - 1),
  same_at-IsSafe p 0 (codes "GNUTELLA CONNECT/"),
  same_at-IsSafe p 0 (codes "GNUTELLA/"),
  same_at-IsSafe p 0 (codes "GET /get/"),
  same_at-IsSafe p 0 (codes "GET /uri-res/"),
  gnu_loop-IsSafe (length p - 22) p 0,
)

xdcc_loop-IsSafe : (n : ℕ) (p : List ℕ) (x : ℕ) → x + n + 11 ≤ length p → IsSafe (xdcc_loop n p x)
unfolding xdcc_loop
xdcc_loop-IsSafe zero p x h = tt
xdcc_loop-IsSafe (suc n) p x h = ground (
  arith,
  get_u8-IsSafe p x,
  same_at-IsSafe p (x + 1) (codes "xdcc send #"),
  xdcc_loop-IsSafe n p (x + 1),
)

pub search_xdcc-IsSafe : (p : List ℕ) → IsSafe (search_xdcc p)
unfolding search_xdcc
search_xdcc-IsSafe p = ground (
  arith,
  get_u8-IsSafe p (length p - 2),
  get_u8-IsSafe p (length p - 1),
  same_at-IsSafe p 0 (codes "PRIVMSG "),
  xdcc_loop-IsSafe (length p - 13 - 10) p 10,
)

winmx_149-IsSafe : (p : List ℕ) → IsSafe (winmx_149 p)
unfolding winmx_149
winmx_149-IsSafe p = ground (
  arith,
  get_u8-IsSafe p 0,
  get_u32-IsSafe p 17,
  get_u32-IsSafe p 21,
  get_u32-IsSafe p 25,
  get_u16-IsSafe p 39,
  get_u16-IsSafe p 135,
  get_u16-IsSafe p 147,
)

winmx_loop-IsSafe :
    (fuel : ℕ) (p : List ℕ) (end c count : ℕ) (next : Option ℕ)
    → end + 2 ≤ length p
    → length p < u16_mod
    → c ≤ end + 1
    → end + 1 < fuel + c
    → IsSafe next
    → IsSafe (winmx_loop fuel p end c count next)
unfolding winmx_loop
winmx_loop-IsSafe zero p end c count next h short inside enough n = ground arith
winmx_loop-IsSafe (suc fuel) p end c count next h short inside enough n = ground (
  arith,
  get_u8-IsSafe p c,
  get_u8-IsSafe p (c + 1),
  winmx_loop-IsSafe fuel p end ((c + 2) % u16_mod) (count + 1) next h short,
  winmx_loop-IsSafe fuel p end ((c + 1) % u16_mod) count next h short,
)

winmx_long-IsSafe : (p : List ℕ) → length p < u16_mod → IsSafe (winmx_long p)
unfolding winmx_long
winmx_long-IsSafe p short = ground (
  arith,
  same_at-IsSafe p 0 (codes "SEND"),
  same_at-IsSafe p 0 (codes "GET"),
  winmx_149-IsSafe p,
  winmx_loop-IsSafe (suc (length p)) p ((length p - 2) % u16_mod) 4 0 (winmx_149 p),
)

pub search_winmx-IsSafe : (p : List ℕ) → length p < u16_mod → IsSafe (search_winmx p)
unfolding search_winmx
search_winmx-IsSafe p short =
    branch-IsSafe (some (length p == 4) &&? same_at p 0 (codes "SEND")) _ _
      (ground (arith, same_at-IsSafe p 0 (codes "SEND"))) (λ _. tt)
      λ _.
        branch-IsSafe (some (length p == 3) &&? same_at p 0 (codes "GET")) _ _
          (ground (arith, same_at-IsSafe p 0 (codes "GET"))) (λ _. tt)
          λ _. winmx_long-IsSafe p short
