-- ===== src/Psd/Table/Kept.antt =====
-- The order of the table of sources of psd, and the changes that keep it (extensions/xt_psd.c).
use xtables_addons.Common.{
  ℕ, ◌≤◌, ◌<◌, ◌≡◌, refl, sym, Bool, true, false, Option, List, ◌==◌, length, arith, Bool-cases,
  inl, inr,
}
use xtables_addons.Psd.Scan.{PsdInfo, TcpHdr, Host}
use xtables_addons.Psd.Table.{
  Address, Entry, State, set_at, list_size, hash_max, release, link, scanned,
}
use xtables_addons.Psd.Table.Order.{
  elem, distinct, Within, all, elem-Within, distinct-Within, length-Within, remove_oldest-Within,
  remove_oldest_gone, remove_from_last-Within,
}

module _ {A : Type 0} (address : Address A) where
  -- The entries of a chain are in use by addresses with its hash, none stands there twice, and no
  -- chain is longer than HASH_MAX.
  pub record IsState (s : State A) : Type 0 where
    pub home :
        (h i : ℕ)
        → elem i (s.chain h) ≡ true
        → (address.is_any (s.list i).saddr ≡ false) × (address.hash (s.list i).saddr ≡ h)
    pub once : (h : ℕ) → distinct (s.chain h) ≡ true
    pub short : (h : ℕ) → length (s.chain h) ≤ hash_max
    pub placed : s.index < list_size

  -- A chain loses some of its entries.
  pub shrink-IsState :
      (s : State A) (h : ℕ) (c : List ℕ)
      → IsState s
      → Within c (s.chain h)
      → IsState (record s { chain = set_at s.chain h c })
  shrink-IsState s h c ok w = record {
    home = λ k i e. elim (Bool-cases (k == h)) [
      | inl here ↦
          let at : k ≡ h = ground arith in
          let there : elem i (s.chain k) ≡ true = (rw at (elem-Within i w (rw here at e))) in
          ok.home k i there
      | inr other ↦ ok.home k i (rw other at e)
    ];
    once = λ k. elim (Bool-cases (k == h)) [
      | inl here ↦ rw here (distinct-Within w (ok.once h))
      | inr other ↦ rw other (ok.once k)
    ];
    short = λ k. elim (Bool-cases (k == h)) [
      | inl here ↦
          let shorter : length c ≤ length (s.chain h) = length-Within w in
          let bound = ok.short h in rw here (omega (arith, shorter, bound))
      | inr other ↦ rw other (ok.short k)
    ];
    placed = ok.placed;
  }

  -- An entry that is in no chain changes.
  pub retire-IsState :
      (s : State A) (i : ℕ) (e : Entry A)
      → IsState s
      → ((h : ℕ) → elem i (s.chain h) ≡ false)
      → IsState (record s { list = set_at s.list i e })
  retire-IsState s i e ok free = record {
    home = λ h j there. elim (Bool-cases (j == i)) [
      | inl here ↦
          let at : j ≡ i = ground arith in
          let gone : elem j (s.chain h) ≡ false = (rw at (free h)) in ground arith
      | inr other ↦ rw other (ok.home h j there)
    ];
    once = ok.once;
    short = ok.short;
    placed = ok.placed;
  }

  pub scanned-IsState :
      (s : State A) (i : ℕ) (r : Bool × Host) → IsState s → IsState (scanned address i s r).1
  unfolding scanned
  scanned-IsState s i r ok = record {
    home = λ h j there. elim (Bool-cases (j == i)) [
      | inl here ↦
          let at : j ≡ i = ground arith in
          let home_i = ok.home h i (rw (← at) there) in rw here home_i
      | inr other ↦ rw other (ok.home h j there)
    ];
    once = ok.once;
    short = ok.short;
    placed = ok.placed;
  }

  pub release-IsState :
      (hash : ℕ) (last : Option ℕ) (s : State A) → IsState s → IsState (release address hash last s)
  unfolding release
  release-IsState hash last s ok = elim (Bool-cases (address.is_any (s.list s.index).saddr)) [
    | inr used ↦ rw used (
        shrink-IsState s (address.hash (s.list s.index).saddr) _ ok
          (remove_oldest-Within s.index _))
    | inl free ↦ rw free (shrink-IsState s hash _ ok (remove_from_last-Within s.index last _))
  ]

  set_at-Within :
      (f : ℕ → List ℕ) (h : ℕ) (c : List ℕ)
      → Within c (f h)
      → (k : ℕ) → Within (set_at f h c k) (f k)
  set_at-Within f h c w k = elim (Bool-cases (k == h)) [
    | inl here ↦ let at : k ≡ h = ground arith in rw (here, at) w
    | inr other ↦ rw other (all (f k))
  ]

  pub release-Within :
      (hash : ℕ) (last : Option ℕ) (s : State A) (h : ℕ)
      → Within ((release address hash last s).chain h) (s.chain h)
  unfolding release
  release-Within hash last s h = elim (Bool-cases (address.is_any (s.list s.index).saddr)) [
    | inr used ↦ rw used (
        set_at-Within s.chain (address.hash (s.list s.index).saddr) _
          (remove_oldest-Within s.index _) h)
    | inl free ↦ rw free (set_at-Within s.chain hash _ (remove_from_last-Within s.index last _) h)
  ]

  pub release_index :
      (hash : ℕ) (last : Option ℕ) (s : State A) → (release address hash last s).index ≡ s.index
  unfolding release
  release_index hash last s = elim (Bool-cases (address.is_any (s.list s.index).saddr)) [
    | inr used ↦ rw used refl
    | inl free ↦ rw free refl
  ]

  -- The entry that is to be filled in is in no chain then.
  pub release_free :
      (hash : ℕ) (last : Option ℕ) (s : State A)
      → IsState s
      → (h : ℕ) → elem s.index ((release address hash last s).chain h) ≡ false
  unfolding release
  release_free hash last s ok h =
      elim (Bool-cases (elem s.index ((release address hash last s).chain h))) [
        | inr gone ↦ gone
        | inl there ↦
            let before : elem s.index (s.chain h) ≡ true =
              elem-Within s.index (release-Within hash last s h) there in
            let (used, at) = ok.home h s.index before in
            let here : (h == h) ≡ true = ground arith in
            rw (used, at, here) (remove_oldest_gone s.index (s.chain h) (ok.once h))
      ]

  pub link-IsState :
      (now : ℕ) (psdinfo : PsdInfo) (tcph : TcpHdr) (proto : ℕ) (saddr : A) (s : State A)
      → IsState s
      → ((h : ℕ) → elem s.index (s.chain h) ≡ false)
      → length (s.chain (address.hash saddr)) < hash_max
      → address.is_any saddr ≡ false
      → IsState (link address now psdinfo tcph proto saddr (address.hash saddr) s)
  unfolding link elem distinct
  link-IsState now psdinfo tcph proto saddr s ok free room named = record {
    home = λ h i there. elim (Bool-cases (i == s.index)) [
      | inl here ↦ rw here (elim (Bool-cases (h == address.hash saddr)) [
        | inl at ↦ (named, sym (ground arith))
        | inr away ↦
            let is : i ≡ s.index = ground arith in
            let gone : elem i (s.chain h) ≡ false = (rw is (free h)) in
            let kept : elem i (s.chain h) ≡ true = (rw away at there) in ground arith
      ])
      | inr other ↦ rw other (elim (Bool-cases (h == address.hash saddr)) [
        | inl at_h ↦
            let is : h ≡ address.hash saddr = ground arith in
            let swapped : (s.index == i) ≡ false = ground arith in
            let kept : elem i (s.chain (address.hash saddr)) ≡ true =
              (rw (at_h, swapped) at there) in
            ok.home h i (rw is kept)
        | inr away ↦ ok.home h i (rw away at there)
      ])
    ];
    once = λ h. elim (Bool-cases (h == address.hash saddr)) [
      | inl here ↦ rw (here, free (address.hash saddr), ok.once (address.hash saddr)) refl
      | inr other ↦ rw other (ok.once h)
    ];
    short = λ h. elim (Bool-cases (h == address.hash saddr)) [
      | inl here ↦ rw here (omega (arith, room))
      | inr other ↦ rw other (ok.short h)
    ];
    placed = ground arith;
  }
