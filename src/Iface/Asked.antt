-- ===== src/Iface/Asked.antt =====
-- The iface match answers what is asked, and gives its reference back (extensions/xt_iface.c).
use xtables_addons.Common.{
  ℕ, ◌≡◌, refl, sym, Bool, true, false, not, ◌&&◌, List, [], ◌∷◌, has_flag, xor, arith, Bool-cases,
  Option-cases, inl, inr,
}
use xtables_addons.Iface.{
  Iff, IfaceInfo, Devices, xt_iface_dev_in, xt_iface_dev_out, iface_get, iface_flagtest,
  xt_iface_mt,
}

-- Each flag that is asked for is on, or off where it is inverted.
abbrev AsAsked : List (ℕ × ℕ) → ℕ → ℕ → ℕ → Type 0
AsAsked [] devflags flags invflags = Unit
AsAsked ((iface_flag, iff_flag) ∷ lookup) devflags flags invflags =
    (has_flag flags iface_flag ≡ true
      → has_flag devflags iff_flag ≡ not (has_flag invflags iface_flag))
    × AsAsked lookup devflags flags invflags

agree : (d i : Bool) → xor d (not i) ≡ false → d ≡ not i
unfolding xor
agree true true e = e
agree true false e = refl
agree false true e = refl
agree false false e = sym e

-- The flag test accepts only a device whose flags are as asked.
pub iface_flagtest-AsAsked :
    (lookup : List (ℕ × ℕ)) (devflags flags invflags : ℕ)
    → iface_flagtest lookup devflags flags invflags ≡ true
    → AsAsked lookup devflags flags invflags
unfolding iface_flagtest xor
iface_flagtest-AsAsked [] devflags flags invflags e = tt
iface_flagtest-AsAsked ((a, b) ∷ lookup) devflags flags invflags e =
    elim (Bool-cases (has_flag flags a && xor (has_flag devflags b) (not (has_flag invflags a)))) [
      | inl differs ↦ ground (arith, rw differs at e)
      | inr fits ↦ (
        λ asked. agree (has_flag devflags b) (has_flag invflags a) (rw asked at fits),
        iface_flagtest-AsAsked lookup devflags flags invflags (rw fits at e),
      )
    ]

-- No reference to a device is held behind the match.
pub xt_iface_mt_balanced :
    (iff : Iff) (info : IfaceInfo) (devices : Devices) → (xt_iface_mt iff info devices).1 ≡ false
unfolding xt_iface_mt iface_get
xt_iface_mt_balanced iff info devices = elim (Bool-cases (has_flag info.flags xt_iface_dev_in)) [
  | inl incoming ↦ rw incoming (elim (Option-cases devices.in_dev) [
    | inl absent ↦ rw absent refl
    | inr (dev, e) ↦ rw e refl
  ])
  | inr other ↦ rw other (elim (Bool-cases (has_flag info.flags xt_iface_dev_out)) [
    | inl outgoing ↦ rw outgoing (elim (Option-cases devices.out_dev) [
      | inl absent ↦ rw absent refl
      | inr (dev, e) ↦ rw e refl
    ])
    | inr named ↦ rw named (elim (Option-cases (devices.dev_get_by_name info.ifname)) [
      | inl absent ↦ rw absent refl
      | inr (dev, e) ↦ rw e refl
    ])
  ])
]
