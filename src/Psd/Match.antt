-- ===== src/Psd/Match.antt =====
-- The matches of psd for the two address families and the memory of the second
-- (extensions/xt_psd.c).
use xtables_addons.Common.{
  ℕ, Bool, true, false, not, ◌&&◌, ◌||◌, Option, some, none, List, [], ◌∷◌, ◌==◌, ◌≡◌, refl,
  if◌then◌else◌, bit_xor,
}
use xtables_addons.Geoip.Search.{In6Addr}
use xtables_addons.Psd.Scan.{PsdInfo, TcpHdr, ipproto_tcp, psd_mt_check}
use xtables_addons.Psd.Table.{Address, State, hashfunc, handle_packet}

abbrev pub ipproto_udp : ℕ
ipproto_udp = 17

abbrev pub ipproto_udplite : ℕ
ipproto_udplite = 136

abbrev pub address4 : Address ℕ
address4 = record { any = 0; is_any = λ a. a == 0; equal = λ a b. a == b; hash = hashfunc }

unfoldable pub hashfunc6 : In6Addr → ℕ
hashfunc6 addr =
    let h = bit_xor addr.word0 addr.word1 in hashfunc (bit_xor (bit_xor h addr.word2) addr.word3)

abbrev pub any6 : In6Addr
any6 = record { word0 = 0; word1 = 0; word2 = 0; word3 = 0 }

-- `ipv6_addr_equal`
abbrev pub equal6 : In6Addr → In6Addr → Bool
equal6 a b =
    (a.word0 == b.word0) && (a.word1 == b.word1) && (a.word2 == b.word2) && (a.word3 == b.word3)

abbrev pub address6 : Address In6Addr
address6 = record { any = any6; is_any = λ a. equal6 a any6; equal = equal6; hash = hashfunc6 }

-- An IPv4 packet; `header` is what `skb_header_pointer` finds at the transport header for a length.
pub record SkBuff4 : Type 0 where
  pub is_fragment : Bool
  pub saddr : ℕ
  pub protocol : ℕ
  pub header : ℕ → Option TcpHdr

-- An IPv6 packet; `find_hdr` is the offset that `ipv6_find_hdr` finds for a protocol.
pub record SkBuff6 : Type 0 where
  pub saddr : In6Addr
  pub find_hdr : ℕ → Option ℕ
  pub header : ℕ → ℕ → Option TcpHdr

abbrev pub tcphdr_size : ℕ
tcphdr_size = 20

abbrev pub udphdr_size : ℕ
udphdr_size = 8

unfoldable pub get_header_pointer4 : SkBuff4 → Option TcpHdr
get_header_pointer4 skb =
    if skb.protocol == ipproto_tcp
    then skb.header tcphdr_size
    else if (skb.protocol == ipproto_udp) || (skb.protocol == ipproto_udplite)
    then skb.header udphdr_size
    else none

-- The source does for IPv6 what it does for IPv4, on the addresses and the table of IPv6.
abbrev pub handle_packet4 : ℕ → ℕ → PsdInfo → TcpHdr → ℕ → ℕ → ℕ → State ℕ → Bool × State ℕ
handle_packet4 hz now psdinfo tcph proto saddr hash s =
    handle_packet address4 hz now psdinfo tcph proto saddr hash s

abbrev pub handle_packet6 :
    ℕ → ℕ → PsdInfo → TcpHdr → ℕ → In6Addr → ℕ → State In6Addr → Bool × State In6Addr
handle_packet6 hz now psdinfo tcph proto saddr hash s =
    handle_packet address6 hz now psdinfo tcph proto saddr hash s

on_header4 : ℕ → ℕ → PsdInfo → SkBuff4 → State ℕ → Option TcpHdr → Bool × State ℕ
on_header4 hz now psdinfo skb s none = (false, s)
on_header4 hz now psdinfo skb s (some tcph) =
    handle_packet4 hz now psdinfo tcph skb.protocol skb.saddr (hashfunc skb.saddr) s

unfoldable pub xt_psd_match : ℕ → ℕ → PsdInfo → SkBuff4 → State ℕ → Bool × State ℕ
unfolding on_header4
xt_psd_match hz now psdinfo skb s =
    if skb.is_fragment
    then (false, s)
    else if skb.saddr == 0
    then (false, s)
    else on_header4 hz now psdinfo skb s (get_header_pointer4 skb)

-- The protocols that `get_header_pointer6` looks for, with the length of their headers.
abbrev pub types : List (ℕ × ℕ)
types =
    (ipproto_tcp, tcphdr_size) ∷ (ipproto_udp, udphdr_size) ∷ (ipproto_udplite, udphdr_size) ∷ []

with_proto : ℕ → Option TcpHdr → Option (ℕ × TcpHdr)
with_proto proto none = none
with_proto proto (some tcph) = some (proto, tcph)

-- One protocol of the loop, where a header is at an offset or not.
at_offset : SkBuff6 → ℕ → ℕ → Option ℕ → Option (ℕ × TcpHdr) → Option (ℕ × TcpHdr)
at_offset skb proto size none rest = rest
at_offset skb proto size (some offset) rest = with_proto proto (skb.header offset size)

unfoldable pub get_header_pointer6 : SkBuff6 → List (ℕ × ℕ) → Option (ℕ × TcpHdr)
unfolding at_offset with_proto
get_header_pointer6 skb [] = none
get_header_pointer6 skb ((proto, size) ∷ types) =
    at_offset skb proto size (skb.find_hdr proto) (get_header_pointer6 skb types)

on_header6 : ℕ → ℕ → PsdInfo → SkBuff6 → State In6Addr → Option (ℕ × TcpHdr) → Bool × State In6Addr
on_header6 hz now psdinfo skb s none = (false, s)
on_header6 hz now psdinfo skb s (some (proto, tcph)) =
    handle_packet6 hz now psdinfo tcph proto skb.saddr (hashfunc6 skb.saddr) s

unfoldable pub xt_psd_match6 : ℕ → ℕ → PsdInfo → SkBuff6 → State In6Addr → Bool × State In6Addr
unfolding on_header6
xt_psd_match6 hz now psdinfo skb s =
    if address6.is_any skb.saddr
    then (false, s)
    else on_header6 hz now psdinfo skb s (get_header_pointer6 skb types)

-- A pointer to memory that was allocated: not yet, still there, or given back.
pub data Pointer : Type 0 where
  null live freed : Pointer

-- `state6.list` and whether `state6.hash` is set
pub record Memory6 : Type 0 where
  pub list : Pointer
  pub has_hash : Bool

unfoldable pub state6_alloc_mem : Bool → Bool → Memory6 → Bool × Memory6
state6_alloc_mem list_ok hash_ok m =
    if m.has_hash
    then (true, m)
    else if not list_ok
    then (false, record m { list = null })
    else if not hash_ok
    then (false, record m { list = freed })
    else (true, record { list = live; has_hash = true })

unfoldable pub psd_mt_check6 : Bool → Bool → PsdInfo → Memory6 → Bool × Memory6
psd_mt_check6 list_ok hash_ok info m =
    let r = state6_alloc_mem list_ok hash_ok m in if not r.0 then r else (psd_mt_check info, r.1)

free_list : Pointer → Option Memory6
free_list null = some (record { list = null; has_hash = false })
free_list live = some (record { list = freed; has_hash = false })
free_list freed = none

-- The `vfree` of both at the end; `none` frees the list a second time.
unfoldable pub xt_psd_exit : Memory6 → Option Memory6
unfolding free_list
xt_psd_exit m = free_list m.list

-- Unloading frees the list twice where the last check had no memory for the hash table.
pub xt_psd_exit_twice :
    (m : Memory6) → m.has_hash ≡ false → xt_psd_exit (state6_alloc_mem true false m).1 ≡ none
unfolding state6_alloc_mem xt_psd_exit
xt_psd_exit_twice m e = rw e refl
