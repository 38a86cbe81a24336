-- ===== src/Account/Handles/Filled.antt =====
-- The copy of a table's pages is true to them (extensions/ACCOUNT/xt_ACCOUNT.c:
-- ipt_acc_handle_prepare_read).
use xtables_addons.Common.{
  ℕ, zero, suc, ◌+◌, ◌≤◌, ◌<◌, ◌≡◌, refl, ◌∙◌, Bool, true, Option, some, none, ◌==◌, arith,
  Bool-cases, Option-cases, inl, inr,
}
use xtables_addons.Account.{Mask24, Mask16, Mask8}
use xtables_addons.Account.Handles.Snapshot.{set_slot, copied, copy_mask16, copy_mask8}

module _ {A : Type 0} (Like : Option A → Option A → Type 0) where
  -- What a loop over `n` slots from `b` on leaves in a copy: what is like the source there, and what
  -- was there before below `b`.
  abbrev pub Filled : ℕ → (ℕ → Option A) → ℕ → (ℕ → Option A) → (ℕ → Option A) → Type 0
  Filled n src b dst r =
      ((i : ℕ) → b ≤ i → i < b + n → (src i ≡ none → dst i ≡ none) → Like (src i) (r i))
      × ((i : ℕ) → i < b → r i ≡ dst i)

  module _ (n : ℕ) (src : ℕ → Option A) (b : ℕ) (dst r : ℕ → Option A) where
    Filled-hole :
        Like none none → src b ≡ none → Filled n src (b + 1) dst r → Filled (suc n) src b dst r
    Filled-hole nothing e (at_slot, before) = (
      (λ i h k empty. elim (Bool-cases (i == b)) [
        | inl here ↦
            let q : i ≡ b = ground arith in
            let s : src i ≡ none = rw q e in
            let d : r i ≡ none = before i (omega arith) ∙ empty s in rw (s, d) nothing
        | inr there ↦ at_slot i (ground arith) (omega arith) empty
      ]),
      (λ i h. before i (omega arith)),
    )

    Filled-slot :
        (page copy : A)
        → Like (some page) (some copy)
        → src b ≡ some page
        → Filled n src (b + 1) (set_slot dst b (some copy)) r
        → Filled (suc n) src b dst r
    Filled-slot page copy like e (at_slot, before) = (
      (λ i h k empty. elim (Bool-cases (i == b)) [
        | inl here ↦
            let q : i ≡ b = ground arith in
            let s : src i ≡ some page = rw q e in
            let d : r i ≡ some copy = ground (arith, before i) in rw (s, d) like
        | inr there ↦ at_slot i (ground arith) (omega arith) (λ s. ground (arith, empty s))
      ]),
      (λ i h. ground (arith, before i)),
    )

-- The same pages.
abbrev pub SamePage : Option Mask24 → Option Mask24 → Type 0
SamePage o c = c ≡ o

-- No network, or networks with the same pages at all slots.
abbrev pub SameNetwork : Option Mask16 → Option Mask16 → Type 0
SameNetwork none none = Unit {0}
SameNetwork (some m) (some c) = (j : ℕ) → j < 256 → c j ≡ m j
SameNetwork _ _ = ⊥

module _ (zalloc_ok : ℕ → Bool) (grants : (n : ℕ) → zalloc_ok n ≡ true) where
  pub copy_mask16-Filled :
      (n : ℕ) (src : Mask16) (b tries : ℕ) (dst : Mask16)
      → (r : Mask16) × (tries' : ℕ) × (copy_mask16 zalloc_ok n src b tries dst ≡ copied r tries')
        × Filled SamePage n src b dst r
  unfolding copy_mask16
  copy_mask16-Filled zero src b tries dst =
      (dst, tries, refl, ((λ i h k e. absurd (omega arith)), (λ i h. refl)))
  copy_mask16-Filled (suc n) src b tries dst = elim (Option-cases (src b)) [
    | inl e ↦
        let (r, tries', q, filled) = copy_mask16-Filled n src (b + 1) tries dst in
        (r, tries', rw (e, copy_mask16) q, Filled-hole SamePage n src b dst r refl e filled)
    | inr (page, e) ↦
        let dst' : Mask16 = set_slot dst b (some page) in
        let (r, tries', q, filled) = copy_mask16-Filled n src (b + 1) (tries + 1) dst' in
        (
          r,
          tries',
          rw (e, copy_mask16) (rw (grants tries) q),
          Filled-slot SamePage n src b dst r page page refl e filled,
        )
  ]

  pub copy_mask8-Filled :
      (n : ℕ) (src : Mask8) (a tries : ℕ) (dst : Mask8)
      → (r : Mask8) × (tries' : ℕ) × (copy_mask8 zalloc_ok n src a tries dst ≡ copied r tries')
        × Filled SameNetwork n src a dst r
  unfolding copy_mask8
  copy_mask8-Filled zero src a tries dst =
      (dst, tries, refl, ((λ i h k e. absurd (omega arith)), (λ i h. refl)))
  copy_mask8-Filled (suc n) src a tries dst = elim (Option-cases (src a)) [
    | inl e ↦
        let (r, tries', q, filled) = copy_mask8-Filled n src (a + 1) tries dst in
        (r, tries', rw (e, copy_mask8) q, Filled-hole SameNetwork n src a dst r tt e filled)
    | inr (src_16, e) ↦
        let (c, t1, q1, (slots, _)) = copy_mask16-Filled 256 src_16 0 (tries + 1) src_16 in
        let dst' : Mask8 = set_slot dst a (some c) in
        let (r, tries', q, filled) = copy_mask8-Filled n src (a + 1) t1 dst' in
        let like : SameNetwork (some src_16) (some c) =
          λ j h. slots j (omega arith) (omega arith) (λ x. x) in
        (
          r,
          tries',
          rw (e, copy_mask8) (rw q1 (rw (grants tries) q)),
          Filled-slot SameNetwork n src a dst r src_16 c like e filled,
        )
  ]
