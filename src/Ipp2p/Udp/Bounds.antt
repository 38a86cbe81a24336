-- ===== src/Ipp2p/Udp/Bounds.antt =====
-- The searches in UDP payloads (extensions/xt_ipp2p.c) stay inside the payload.
use xtables_addons.Common.{ℕ, ◌-◌, ◌≤◌, Option, List, [], ◌∷◌, ◌++◌, length, arith, ◌==◌}
use xtables_addons.Ipp2p.Payload.{
  codes, IsSafe, if-IsSafe, get_u8-IsSafe, get_u16-IsSafe, get_u32-IsSafe, same_at-IsSafe,
}
use xtables_addons.Ipp2p.Udp.{
  edonkey, kademlia, udp_search_edk, udp_search_gnu, udp_search_kazaa, udp_search_directconnect,
  pair_of_words, bitcomet, by_size, udp_search_bit,
}

edonkey-IsSafe : (t : List ℕ) → 4 ≤ length t → IsSafe (edonkey t)
unfolding edonkey
edonkey-IsSafe t h = ground (arith, get_u8-IsSafe t 1, get_u16-IsSafe t 2)

kademlia-IsSafe : (t : List ℕ) → 4 ≤ length t → IsSafe (kademlia t)
unfolding kademlia
kademlia-IsSafe t h =
    ground (arith, get_u8-IsSafe t 1, get_u8-IsSafe t 2, get_u8-IsSafe t 34, get_u8-IsSafe t 26)

pub udp_search_edk-IsSafe : (t : List ℕ) → IsSafe (udp_search_edk t)
unfolding udp_search_edk
udp_search_edk-IsSafe t = ground (arith, get_u8-IsSafe t 0, edonkey-IsSafe t, kademlia-IsSafe t)

pub udp_search_gnu-IsSafe : (t : List ℕ) → IsSafe (udp_search_gnu t)
unfolding udp_search_gnu
udp_search_gnu-IsSafe t =
    ground (arith, same_at-IsSafe t 0 (codes "GND"), same_at-IsSafe t 0 (codes "GNUTELLA "))

pub udp_search_kazaa-IsSafe : (t : List ℕ) → IsSafe (udp_search_kazaa t)
unfolding udp_search_kazaa
udp_search_kazaa-IsSafe t =
    ground (arith, same_at-IsSafe t (length t - 6) (codes "KaZaA" ++ 0 ∷ []))

pub udp_search_directconnect-IsSafe : (t : List ℕ) → IsSafe (udp_search_directconnect t)
unfolding udp_search_directconnect
udp_search_directconnect-IsSafe t = ground (
  arith,
  get_u8-IsSafe t 0,
  get_u8-IsSafe t (length t - 1),
  same_at-IsSafe t 1 (codes "SR "),
  same_at-IsSafe t 1 (codes "Ping "),
)

bitcomet-IsSafe : (t : List ℕ) → IsSafe (bitcomet t)
unfolding bitcomet
bitcomet-IsSafe t = ground (
  arith,
  get_u8-IsSafe t 0,
  get_u8-IsSafe t 1,
  get_u8-IsSafe t 2,
  get_u8-IsSafe t 3,
  same_at-IsSafe t 4 (codes "d2:id20:"),
)

pair_of_words-IsSafe :
    (t : List ℕ) (first long short : ℕ) (next : Option ℕ)
    → 32 ≤ length t
    → IsSafe next
    → IsSafe (pair_of_words t first long short next)
unfolding pair_of_words
pair_of_words-IsSafe t first long short next h n =
    ground (arith, get_u32-IsSafe t 8, get_u32-IsSafe t 28)

by_size-IsSafe : (t : List ℕ) (next : Option ℕ) → IsSafe next → IsSafe (by_size t next)
unfolding by_size
by_size-IsSafe t next n =
    if-IsSafe (length t == 16) _ _ (λ e. ground (arith, get_u32-IsSafe t 0, get_u32-IsSafe t 4))
      λ _.
        if-IsSafe (length t == 36) _ _ (λ e. pair_of_words-IsSafe t _ _ _ next (ground arith) n)
          λ _.
            if-IsSafe (length t == 57) _ _ (λ e. pair_of_words-IsSafe t _ _ _ next (ground arith) n)
              λ _.
                if-IsSafe (length t == 59) _ _
                  (λ e. pair_of_words-IsSafe t _ _ _ next (ground arith) n)
                  λ _.
                    if-IsSafe (length t == 203) _ _ (λ e. ground (arith, get_u32-IsSafe t 0))
                      λ _.
                        if-IsSafe (length t == 21) _ _ (λ e. ground (arith, get_u32-IsSafe t 0))
                          λ _.
                            if-IsSafe (length t == 44) _ _
                              (λ e. ground (arith, get_u32-IsSafe t 0, get_u32-IsSafe t 4))
                              λ _. ground (arith, get_u32-IsSafe t 8, get_u32-IsSafe t 28)

pub udp_search_bit-IsSafe : (t : List ℕ) → IsSafe (udp_search_bit t)
unfolding udp_search_bit
udp_search_bit-IsSafe t = by_size-IsSafe t (bitcomet t) (bitcomet-IsSafe t)
