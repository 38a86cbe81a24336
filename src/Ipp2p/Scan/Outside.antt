-- ===== src/Ipp2p/Scan/Outside.antt =====
-- Payloads for which the KaZaA and SoulSeek searches (extensions/xt_ipp2p.c) read outside, and the
-- SoulSeek command that is found whatever follows its string.
use xtables_addons.Common.{
  ℕ, zero, suc, ◌+◌, ◌-◌, ◌*◌, ◌%◌, ◌≤◌, ◌<◌, ◌≡◌, refl, ◌∙◌, true, false, some, none, List, length,
  leb, ltb, arith,
}
use xtables_addons.Common.Words.{u16_mod, u32_mod}
use xtables_addons.Ipp2p.Commands.{ipp2p_soul}
use xtables_addons.Ipp2p.Payload.{
  codes, get_u32, same_at, is_u8, is_u32, get_u16-IsSafe, get_u32-IsSafe, get_u32_outside,
}
use xtables_addons.Ipp2p.Scan.{kazaa_loop, search_all_kazaa, soul_client, search_soul}

same_at_outside : (p : List ℕ) (i : ℕ) (s : List ℕ) → length p < i + length s → same_at p i s ≡ none
unfolding same_at
same_at_outside p i s h = ground arith

-- The first line of the request ends at `at`, 19 bytes before the end.
pub record LateLine (p : List ℕ) (at : ℕ) : Type 0 where
  pub from : 5 ≤ at
  pub upto : at + 19 ≡ length p
  pub short : length p < u16_mod
  pub none_before : (i : ℕ) → 5 ≤ i → i < at → is_u8 p i 0x0d ≡ some false
  pub cr : is_u8 p at 0x0d ≡ some true
  pub lf : is_u8 p (at + 1) 0x0a ≡ some true

kazaa_last : (p : List ℕ) (at rem : ℕ) → LateLine p at → rem ≡ 19 → kazaa_loop 1 p at rem ≡ none
unfolding kazaa_loop
kazaa_last p at rem l r =
    rw
      (
        l.cr,
        l.lf,
        same_at_outside p (at + 2) (codes "X-Kazaa-Username: ") (omega (arith, l.upto)),
        r,
      )
      refl

kazaa_pass :
    (n : ℕ) (p : List ℕ) (c rem : ℕ)
    → is_u8 p c 0x0d ≡ some false
    → kazaa_loop (suc n) p c rem
      ≡ kazaa_loop n p ((c + 1) % u16_mod) ((rem + u16_mod - 1) % u16_mod)
unfolding kazaa_loop
kazaa_pass n p c rem h = rw h refl

kazaa_loop_outside :
    (n : ℕ) (p : List ℕ) (at c rem : ℕ)
    → LateLine p at
    → 5 ≤ c
    → c + n ≡ at
    → rem + c ≡ length p
    → kazaa_loop (suc n) p c rem ≡ none
kazaa_loop_outside zero p at c rem l h e r =
    let here : c ≡ at = omega arith in rw here (kazaa_last p at rem l (omega (arith, l.upto)))
kazaa_loop_outside (suc n) p at c rem l h e r =
    let next : (c + 1) % u16_mod ≡ c + 1 = omega (arith, l.upto, l.short) in
    let rest : (rem + u16_mod - 1) % u16_mod ≡ rem - 1 = omega (arith, l.upto, l.short) in
    kazaa_pass (suc n) p c rem (l.none_before c h (omega arith))
    ∙ rw (next, rest)
        (kazaa_loop_outside n p at (c + 1) (rem - 1) l (omega arith) (omega arith)
          (omega (arith, l.upto)))

-- For a payload of fewer than 65536 bytes that begins with "GET /", not with "GIVE ", and ends with
-- CR and LF, and in which the first line behind the fifth byte ends 19 bytes before the end, the
-- KaZaA search compares bytes behind the payload.
search_all_kazaa_outside :
    (p : List ℕ) (at : ℕ)
    → LateLine p at
    → is_u8 p (length p - 2) 0x0d ≡ some true
    → is_u8 p (length p - 1) 0x0a ≡ some true
    → same_at p 0 (codes "GIVE ") ≡ some false
    → same_at p 0 (codes "GET /") ≡ some true
    → search_all_kazaa p ≡ none
unfolding search_all_kazaa
search_all_kazaa_outside p at l cr lf give request =
    let long : ltb (length p) 18 ≡ false = ground (arith, l.upto, l.from) in
    let longer : ltb (length p) 7 ≡ false = ground (arith, l.upto, l.from) in
    let rounds : (length p - 18) % u16_mod - 5 ≡ suc (at - 5) =
      omega (arith, l.upto, l.from, l.short) in
    let rest : (length p - 5) % u16_mod ≡ length p - 5 = omega (arith, l.short) in
    rw (long, longer, cr, lf, give, request, rounds, rest)
      (kazaa_loop_outside (at - 5) p at 5 (length p - 5) l (omega arith) (omega (arith, l.from))
        (omega (arith, l.upto, l.from)))

-- A message of the SoulSeek client: 14 00 00 00 01 and the length of a string.
pub record ClientCommand (p : List ℕ) (y : ℕ) : Type 0 where
  pub long : 9 ≤ length p
  pub head : is_u32 p 0 0x14 ≡ some true
  pub kind : is_u8 p 4 0x01 ≡ some true
  pub string : get_u32 p 5 ≡ some y
  pub not_sized : is_u32 p 0 (length p - 4) ≡ some false

-- A client command of fewer than 65536 bytes with a string that ends 10 bytes or more before the end
-- is taken for SoulSeek, whatever bytes follow the string.
pub search_soul_any :
    (p : List ℕ) (y : ℕ)
    → ClientCommand p y
    → y + 19 ≤ length p
    → length p < u16_mod
    → search_soul p ≡ some (ipp2p_soul * 100 + 9)
unfolding search_soul soul_client
search_soul_any p y c h short =
    let long : ltb (length p) 8 ≡ false = ground (arith, c.long) in
    let inside : leb ((y + 19) % u32_mod) (length p) ≡ true = ground arith in
    let first = get_u32-IsSafe p (9 + y) (omega arith) in
    let middle = get_u16-IsSafe p (9 + y + 4) (omega arith) in
    let last = get_u32-IsSafe p (9 + y + 6) (omega arith) in
    rw (long, c.not_sized, c.head, c.kind, c.string, inside, first.1, middle.1, last.1)
      (ground arith)

-- A client command of fewer than 65536 bytes, whose string length is so near to 2 ^ 32 that adding
-- 19 wraps round to at most the payload's length, makes the SoulSeek search read outside the payload.
search_soul_outside :
    (p : List ℕ) (y : ℕ)
    → ClientCommand p y
    → u32_mod ≤ y + 19
    → y + 19 ≤ u32_mod + length p
    → y < u32_mod
    → length p < u16_mod
    → search_soul p ≡ none
unfolding search_soul soul_client
search_soul_outside p y c near wrapped fits short =
    let long : ltb (length p) 8 ≡ false = ground (arith, c.long) in
    let wraps : leb ((y + 19) % u32_mod) (length p) ≡ true = ground arith in
    rw (long, c.not_sized, c.head, c.kind, c.string, wraps, get_u32_outside p (9 + y) (omega arith))
      refl
