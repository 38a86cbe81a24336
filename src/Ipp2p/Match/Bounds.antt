-- ===== src/Ipp2p/Match/Bounds.antt =====
-- No search that `ipp2p_mt` (extensions/xt_ipp2p.c) makes leaves the payload, but for three commands.
use xtables_addons.Common.{
  ℕ, zero, suc, ap, bit_and, ◌/◌, refl, Option-cases, inl, inr, ◌*◌, ◌≤◌, ◌<◌, ◌≡◌, Bool, true,
  false, not, ◌&&◌, ◌||◌, Option, some, none, List, [], ◌∷◌, ltb, ◌==◌, length, arith,
}
use xtables_addons.Common.Words.{u16_mod}
use xtables_addons.Ipp2p.Commands.{ipp2p_kazaa, ipp2p_soul, ipp2p_waste}
use xtables_addons.Ipp2p.Payload.{
  IsSafe, if-IsSafe, drop, get_u8, get_u8-IsSafe, get_u16-IsSafe, get_u8_outside,
}
use xtables_addons.Ipp2p.Udp.Bounds.{
  udp_search_edk-IsSafe, udp_search_gnu-IsSafe, udp_search_kazaa-IsSafe,
  udp_search_directconnect-IsSafe, udp_search_bit-IsSafe,
}
use xtables_addons.Ipp2p.Tcp.Bounds.{
  search_all_edk-IsSafe, search_edk-IsSafe, search_kazaa-IsSafe, search_gnu-IsSafe,
  search_dc-IsSafe, search_all_dc-IsSafe, search_apple-IsSafe, search_mute-IsSafe,
  search_ares-IsSafe, search_bittorrent-IsSafe,
}
use xtables_addons.Ipp2p.Scan.Bounds.{
  search_winmx-IsSafe, search_all_gnu-IsSafe, search_xdcc-IsSafe,
}
use xtables_addons.Ipp2p.Match.{
  Entry, matchlist, udp_list, asks, after, walk, TcpHdr, behind, tcp_hdr, no_tcp_end, with_ports,
  ipp2p_mt_tcp, udphdr_size, ipp2p_mt_udp, SkBuff, by_protocol, ipp2p_mt,
}

-- Every search of the list that the command asks for is safe on a payload of less than 2 ^ 16 bytes.
abbrev pub AllSafe : ℕ → List Entry → Type 0
AllSafe cmd [] = Unit
AllSafe cmd (e ∷ es) =
    (asks cmd e.command ≡ true → (p : List ℕ) → length p < u16_mod → IsSafe (e.function_name p))
    × AllSafe cmd es

after-IsSafe : (o : Option ℕ) (rest : Option Bool) → IsSafe o → IsSafe rest → IsSafe (after o rest)
unfolding after
after-IsSafe none rest h k = h
after-IsSafe (some result) rest h k = ground arith

walk-IsSafe :
    (es : List Entry) (cmd : ℕ) (haystack : List ℕ)
    → AllSafe cmd es
    → length haystack < u16_mod
    → IsSafe (walk es cmd haystack)
unfolding walk
walk-IsSafe [] cmd haystack safe short = tt
walk-IsSafe (e ∷ es) cmd haystack safe short =
    let rest = walk-IsSafe es cmd haystack safe.1 short in
    if-IsSafe (asks cmd e.command && ltb e.packet_len (length haystack)) _ _
      (λ h. after-IsSafe _ _ (safe.0 (ground arith) haystack short) rest) (λ _. rest)

length-drop : (n : ℕ) (xs : List ℕ) → length (drop n xs) ≤ length xs
length-drop zero xs = omega arith
length-drop (suc n) [] = omega arith
length-drop (suc n) (x ∷ xs) = omega (arith, length-drop n xs)

behind-IsSafe :
    (header : ℕ) (es : List Entry) (cmd : ℕ) (haystack : List ℕ)
    → AllSafe cmd es
    → length haystack < u16_mod
    → IsSafe (behind header es cmd haystack)
unfolding behind
behind-IsSafe header es cmd haystack safe short =
    ground (arith, walk-IsSafe es cmd (drop header haystack) safe, length-drop header haystack)

udp_list-AllSafe : (cmd : ℕ) → AllSafe cmd udp_list
unfolding udp_list
udp_list-AllSafe cmd = (
  λ _ p _. udp_search_kazaa-IsSafe p,
  (
    λ _ p _. udp_search_bit-IsSafe p,
    (
      λ _ p _. udp_search_gnu-IsSafe p,
      (λ _ p _. udp_search_edk-IsSafe p, (λ _ p _. udp_search_directconnect-IsSafe p, tt)),
    ),
  ),
)

-- The UDP part ends with an answer and reads nothing outside the payload, for any command and any
-- packet of less than 2 ^ 16 bytes.
pub ipp2p_mt_udp-IsSafe :
    (cmd : ℕ) (haystack : List ℕ) → length haystack < u16_mod → IsSafe (ipp2p_mt_udp cmd haystack)
unfolding ipp2p_mt_udp
ipp2p_mt_udp-IsSafe cmd haystack short =
    behind-IsSafe udphdr_size udp_list cmd haystack (udp_list-AllSafe cmd) short

-- The rule asks for none of the three commands whose searches may read outside.
pub record IsHarmless (cmd : ℕ) : Type 0 where
  pub no_kazaa : asks cmd ipp2p_kazaa ≡ false
  pub no_soul : asks cmd ipp2p_soul ≡ false
  pub no_waste : asks cmd ipp2p_waste ≡ false

matchlist-AllSafe : (cmd : ℕ) → IsHarmless cmd → AllSafe cmd matchlist
unfolding matchlist
matchlist-AllSafe cmd h = (
  λ _ p _. search_all_edk-IsSafe p,
  (
    λ _ p _. search_kazaa-IsSafe p,
    (
      λ _ p _. search_edk-IsSafe p,
      (
        λ _ p _. search_dc-IsSafe p,
        (
          λ _ p _. search_all_dc-IsSafe p,
          (
            λ _ p _. search_gnu-IsSafe p,
            (
              λ _ p _. search_all_gnu-IsSafe p,
              (
                λ a p _. ground (arith, h.no_kazaa),
                (
                  λ _ p _. search_bittorrent-IsSafe p,
                  (
                    λ _ p _. search_apple-IsSafe p,
                    (
                      λ a p _. ground (arith, h.no_soul),
                      (
                        λ _ p short. search_winmx-IsSafe p short,
                        (
                          λ _ p _. search_ares-IsSafe p,
                          (
                            λ _ p _. search_mute-IsSafe p,
                            (
                              λ a p _. ground (arith, h.no_waste),
                              (λ _ p _. search_xdcc-IsSafe p, tt),
                            ),
                          ),
                        ),
                      ),
                    ),
                  ),
                ),
              ),
            ),
          ),
        ),
      ),
    ),
  ),
)

no_tcp_end-IsSafe :
    (cmd : ℕ) (haystack : List ℕ) (tcph : TcpHdr)
    → IsHarmless cmd
    → length haystack < u16_mod
    → IsSafe (no_tcp_end cmd haystack tcph)
unfolding no_tcp_end
no_tcp_end-IsSafe cmd haystack tcph h short =
    if-IsSafe (tcph.fin || tcph.syn || tcph.rst) _ _ (λ _. tt)
      (λ _. behind-IsSafe (tcph.doff * 4) matchlist cmd haystack (matchlist-AllSafe cmd h) short)

tcp_hdr_there : (p : List ℕ) → 14 ≤ length p → (tcph : TcpHdr) × (tcp_hdr p ≡ some tcph)
unfolding tcp_hdr
tcp_hdr_there p whole =
    let (offset, e) = get_u8-IsSafe p 12 (omega arith) in
    let (flags, f) = get_u8-IsSafe p 13 (omega arith) in
    (
      record {
        fin = not (bit_and flags 1 == 0);
        syn = not (bit_and flags 2 == 0);
        rst = not (bit_and flags 4 == 0);
        doff = offset / 16;
      },
      rw (e, f) refl,
    )

ipp2p_mt_tcp-IsSafe :
    (cmd : ℕ) (haystack : List ℕ)
    → IsHarmless cmd
    → 14 ≤ length haystack
    → length haystack < u16_mod
    → IsSafe (ipp2p_mt_tcp cmd haystack)
unfolding ipp2p_mt_tcp
ipp2p_mt_tcp-IsSafe cmd haystack h whole short =
    let (tcph, e) = tcp_hdr_there haystack whole in
    rw e (no_tcp_end-IsSafe cmd haystack tcph h short)

with_ports-IsSafe :
    (transport : List ℕ) (rest : Option Bool)
    → 4 ≤ length transport
    → IsSafe rest
    → IsSafe (with_ports transport rest)
unfolding with_ports
with_ports-IsSafe transport rest whole safe =
    let (source, e) = get_u16-IsSafe transport 0 (omega arith) in
    let (dest, f) = get_u16-IsSafe transport 2 (omega arith) in rw (e, f) safe

-- The bytes of the transport header that the match reads are there: the first 14 of TCP, the ports of
-- the others.
abbrev pub HasHeader : SkBuff → Type 0
HasHeader skb = (4 ≤ length skb.transport) × (skb.protocol ≡ some 6 → 14 ≤ length skb.transport)

by_protocol-IsSafe :
    (cmd : ℕ) (skb : SkBuff) (protocol : Option ℕ)
    → IsHarmless cmd
    → (4 ≤ length skb.transport) × (protocol ≡ some 6 → 14 ≤ length skb.transport)
    → length skb.transport < u16_mod
    → IsSafe (by_protocol cmd skb protocol)
unfolding by_protocol
by_protocol-IsSafe cmd skb none h whole short = tt
by_protocol-IsSafe cmd skb (some protocol) h whole short =
    let t = skb.transport in
    if-IsSafe (protocol == 6) _ _
      (λ tcp.
        with_ports-IsSafe t _ whole.0
          (ipp2p_mt_tcp-IsSafe cmd t h (whole.1 (ap (λ p. some p) (ground arith))) short))
      (λ other.
        if-IsSafe ((protocol == 17) || (protocol == 136)) _ _
          (λ udp. with_ports-IsSafe t _ whole.0 (ipp2p_mt_udp-IsSafe cmd t short)) (λ none_of. tt))

-- For a rule that asks for none of the KaZaA, SoulSeek and WASTE commands, and a packet whose
-- transport part has less than 2 ^ 16 bytes, 4 at least and 14 at least of TCP, the match ends with an
-- answer and reads nothing outside.
pub ipp2p_mt-IsSafe :
    (cmd : ℕ) (skb : SkBuff)
    → IsHarmless cmd
    → HasHeader skb
    → length skb.transport < u16_mod
    → IsSafe (ipp2p_mt cmd skb)
unfolding ipp2p_mt
ipp2p_mt-IsSafe cmd skb h whole short =
    if-IsSafe (not (skb.fragoff == 0) || skb.is_nonlinear) _ _ (λ _. tt)
      (λ _. by_protocol-IsSafe cmd skb skb.protocol h whole short)

-- A TCP segment of fewer than 14 bytes is read behind its end, whatever the rule asks for.
ipp2p_mt_tcp_outside :
    (cmd : ℕ) (haystack : List ℕ) → length haystack ≤ 13 → ipp2p_mt_tcp cmd haystack ≡ none
unfolding ipp2p_mt_tcp tcp_hdr
ipp2p_mt_tcp_outside cmd haystack cut = elim (Option-cases (get_u8 haystack 12)) [
  | inl outside ↦ rw outside refl
  | inr (offset, e) ↦ rw (e, get_u8_outside haystack 13 cut) refl
]
