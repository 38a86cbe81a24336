-- ===== src/Ipp2p/Tcp/Bounds.antt =====
-- The searches at fixed places of TCP payloads (extensions/xt_ipp2p.c) stay inside the payload.
use xtables_addons.Common.{
  ℕ, zero, suc, ◌+◌, ◌-◌, ◌≤◌, ◌≡◌, Bool, false, some, none, List, length, arith, ltb,
}
use xtables_addons.Ipp2p.Payload.{
  codes, same_at, IsSafe, IsSafe-some, if-IsSafe, get_u8-IsSafe, get_u16-IsSafe, get_u32-IsSafe,
  same_at-IsSafe,
}
use xtables_addons.Ipp2p.Tcp.{
  search_all_edk, search_edk, search_kazaa, search_gnu, search_dc, search_all_dc, search_apple,
  search_mute, search_waste, search_ares, memmem_from, hx_memmem, search_bittorrent,
}

pub search_all_edk-IsSafe : (p : List ℕ) → IsSafe (search_all_edk p)
unfolding search_all_edk
search_all_edk-IsSafe p = ground (arith, get_u8-IsSafe p 0, get_u16-IsSafe p 1, get_u8-IsSafe p 5)

pub search_edk-IsSafe : (p : List ℕ) → IsSafe (search_edk p)
unfolding search_edk
search_edk-IsSafe p = ground (arith, get_u8-IsSafe p 0, get_u8-IsSafe p 5)

pub search_kazaa-IsSafe : (p : List ℕ) → IsSafe (search_kazaa p)
unfolding search_kazaa
search_kazaa-IsSafe p = ground (
  arith,
  get_u8-IsSafe p (length p - 2),
  get_u8-IsSafe p (length p - 1),
  same_at-IsSafe p 0 (codes "GET /.hash="),
)

pub search_gnu-IsSafe : (p : List ℕ) → IsSafe (search_gnu p)
unfolding search_gnu
search_gnu-IsSafe p = ground (
  arith,
  get_u8-IsSafe p (length p - 2),
  get_u8-IsSafe p (length p - 1),
  same_at-IsSafe p 0 (codes "GET /get/"),
  same_at-IsSafe p 0 (codes "GET /uri-res/"),
)

pub search_dc-IsSafe : (p : List ℕ) → IsSafe (search_dc p)
unfolding search_dc
search_dc-IsSafe p = ground (arith, get_u8-IsSafe p 0, same_at-IsSafe p 1 (codes "Send|"))

pub search_all_dc-IsSafe : (p : List ℕ) → IsSafe (search_all_dc p)
unfolding search_all_dc
search_all_dc-IsSafe p = ground (
  arith,
  get_u8-IsSafe p 0,
  get_u8-IsSafe p (length p - 1),
  same_at-IsSafe p 1 (codes "Lock "),
  same_at-IsSafe p 1 (codes "MyNick "),
)

pub search_apple-IsSafe : (p : List ℕ) → IsSafe (search_apple p)
unfolding search_apple
search_apple-IsSafe p =
    ground (arith, get_u8-IsSafe p 6, get_u8-IsSafe p 7, same_at-IsSafe p 0 (codes "ajprot"))

pub search_mute-IsSafe : (p : List ℕ) → IsSafe (search_mute p)
unfolding search_mute
search_mute-IsSafe p = ground (arith, same_at-IsSafe p 0 (codes "PublicKey: "))

pub search_ares-IsSafe : (p : List ℕ) → IsSafe (search_ares p)
unfolding search_ares
search_ares-IsSafe p =
    ground (arith, get_u8-IsSafe p 0, get_u8-IsSafe p 1, get_u8-IsSafe p 2, get_u8-IsSafe p 5)

-- The waste search compares 9 bytes of a payload of 8, and reads outside no other payload.
search_waste_outside :
    (p : List ℕ) → (search_waste p ≡ none → length p ≡ 8) × (length p ≡ 8 → search_waste p ≡ none)
unfolding search_waste same_at
search_waste_outside p = (λ e. ground arith, λ e. ground arith)

memmem_from-IsSafe :
    (n : ℕ) (space point : List ℕ) (i : ℕ)
    → i + n + length point ≤ suc (length space)
    → IsSafe (memmem_from n space point i)
unfolding memmem_from
memmem_from-IsSafe zero space point i h = tt
memmem_from-IsSafe (suc n) space point i h =
    ground (arith, same_at-IsSafe space i point, memmem_from-IsSafe n space point (i + 1))

pub hx_memmem-IsSafe : (space point : List ℕ) → (b : Bool) × (hx_memmem space point ≡ some b)
unfolding hx_memmem
hx_memmem-IsSafe space point = IsSafe-some _ (
    if-IsSafe (ltb (length space) (length point)) (some false)
      (memmem_from (suc (length space - length point)) space point 0) (λ _. tt)
      (λ h. memmem_from-IsSafe (suc (length space - length point)) space point 0 (ground arith)))

pub search_bittorrent-IsSafe : (p : List ℕ) → IsSafe (search_bittorrent p)
unfolding search_bittorrent
search_bittorrent-IsSafe p = ground (
  arith,
  get_u8-IsSafe p 0,
  get_u8-IsSafe p 4,
  get_u32-IsSafe p 0,
  get_u32-IsSafe p 13,
  same_at-IsSafe p 1 (codes "BitTorrent protocol"),
  same_at-IsSafe p 0 (codes "GET /"),
  hx_memmem-IsSafe p (codes "info_hash="),
  hx_memmem-IsSafe p (codes "peer_id="),
  hx_memmem-IsSafe p (codes "passkey="),
)
