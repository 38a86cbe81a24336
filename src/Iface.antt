-- ===== src/Iface.antt =====
-- The iface match (extensions/xt_iface.c): the flags of the interface that a packet came or goes by.
mod Asked
use xtables_addons.Common.{
  ℕ, ◌^◌, Bool, true, false, not, ◌&&◌, Option, some, none, List, [], ◌∷◌, if◌then◌else◌, has_flag,
  xor,
}

-- The interface flags of the kernel.
pub record Iff : Type 0 where
  pub iff_up : ℕ
  pub iff_broadcast : ℕ
  pub iff_loopback : ℕ
  pub iff_pointopoint : ℕ
  pub iff_running : ℕ
  pub iff_noarp : ℕ
  pub iff_promisc : ℕ
  pub iff_multicast : ℕ
  pub iff_dynamic : ℕ
  pub iff_lower_up : ℕ
  pub iff_dormant : ℕ

abbrev pub xt_iface_dev_in : ℕ
xt_iface_dev_in = 2 ^ 11

abbrev pub xt_iface_dev_out : ℕ
xt_iface_dev_out = 2 ^ 12

-- The flags of a rule from XT_IFACE_UP to XT_IFACE_DORMANT, each with the kernel's.
unfoldable pub xt_iface_lookup : Iff → List (ℕ × ℕ)
xt_iface_lookup iff =
    (2 ^ 0, iff.iff_up)
    ∷ (2 ^ 1, iff.iff_broadcast)
    ∷ (2 ^ 2, iff.iff_loopback)
    ∷ (2 ^ 3, iff.iff_pointopoint)
    ∷ (2 ^ 4, iff.iff_running)
    ∷ (2 ^ 5, iff.iff_noarp)
    ∷ (2 ^ 6, iff.iff_promisc)
    ∷ (2 ^ 7, iff.iff_multicast)
    ∷ (2 ^ 8, iff.iff_dynamic)
    ∷ (2 ^ 9, iff.iff_lower_up)
    ∷ (2 ^ 10, iff.iff_dormant)
    ∷ []

-- struct xt_iface_mtinfo
pub record IfaceInfo : Type 0 where
  pub ifname : List ℕ
  pub flags : ℕ
  pub invflags : ℕ

-- The flags of the devices that the packet came and goes by, and `dev_get_by_name`.
pub record Devices : Type 0 where
  pub in_dev : Option ℕ
  pub out_dev : Option ℕ
  pub dev_get_by_name : List ℕ → Option ℕ

-- The flags of the device, and whether a reference to it was taken.
unfoldable pub iface_get : IfaceInfo → Devices → Option ℕ × Bool
iface_get info devices =
    if has_flag info.flags xt_iface_dev_in
    then (devices.in_dev, false)
    else if has_flag info.flags xt_iface_dev_out
    then (devices.out_dev, false)
    else by_name (devices.dev_get_by_name info.ifname)
  where
    by_name : Option ℕ → Option ℕ × Bool
    by_name none = (none, false)
    by_name (some dev) = (some dev, true)

unfoldable pub iface_flagtest : List (ℕ × ℕ) → ℕ → ℕ → ℕ → Bool
iface_flagtest [] devflags flags invflags = true
iface_flagtest ((iface_flag, iff_flag) ∷ lookup) devflags flags invflags =
    let rest = iface_flagtest lookup devflags flags invflags in
    if has_flag flags iface_flag
      && xor (has_flag devflags iff_flag) (not (has_flag invflags iface_flag))
    then false
    else rest

-- The answer, and whether the reference is still held.
test_device : Iff → IfaceInfo → Option ℕ × Bool → Bool × Bool
test_device iff info (none, held) = (false, held)
test_device iff info (some dev, held) = (
  iface_flagtest (xt_iface_lookup iff) dev info.flags info.invflags,
  if held then false else held,
)

unfoldable pub xt_iface_mt : Iff → IfaceInfo → Devices → Bool × Bool
unfolding test_device
xt_iface_mt iff info devices = test_device iff info (iface_get info devices)
