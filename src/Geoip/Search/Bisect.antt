-- ===== src/Geoip/Search/Bisect.antt =====
-- `geoip_bsearch4` (extensions/xt_geoip.c) finds an address exactly when a range holds it.
use native.Mathlib.Nat.{lt_trans}
use xtables_addons.Common.{
  ℕ, zero, suc, ◌+◌, ◌-◌, ◌/◌, ◌^◌, ◌≤◌, ◌<◌, ◌≡◌, ◌⊎◌, inl, inr, refl, false, ◌&&◌, some, List,
  ltb, leb, get_elem?, get_elem?-lt, length, arith, Bool-cases,
}
use xtables_addons.Geoip.Search.{
  Subnet4, Search, hit, miss, probe4, bsearch4_loop, geoip_bsearch4, int_max,
}

-- The packed list that user space hands over: ranges that are not empty, in order, apart.
pub record IsPacked (range : List Subnet4) : Type 0 where
  pub nonempty : (i : ℕ) (s : Subnet4) → get_elem? range i ≡ some s → s.begin ≤ s.end
  pub apart :
      (i j : ℕ) (s t : Subnet4)
      → get_elem? range i ≡ some s
      → get_elem? range j ≡ some t
      → i < j
      → s.end < t.begin

-- A range with an index from `lo` up to below `hi` holds the address.
pub record Holds (range : List Subnet4) (addr lo hi : ℕ) : Type 0 where
  pub index : ℕ
  pub subnet : Subnet4
  pub stored : get_elem? range index ≡ some subnet
  pub from : lo ≤ index
  pub upto : index < hi
  pub low : subnet.begin ≤ addr
  pub high : addr ≤ subnet.end

module _ (range : List Subnet4) (packed : IsPacked range) (addr : ℕ) where
  abbrev Decides : ℕ → ℕ → Search → Type 0
  Decides lo hi r = ((r ≡ hit) × Holds range addr lo hi) ⊎ ((r ≡ miss) × ¬ (Holds range addr lo hi))

  -- All the ranges from `mid` on begin behind the address.
  none_right :
      {lo hi : ℕ} (mid : ℕ) (s : Subnet4)
      → get_elem? range mid ≡ some s
      → addr < s.begin
      → Holds range addr lo hi
      → Holds range addr lo mid
  none_right mid s e left h =
      let inside : h.index < mid =
        ground (arith, packed.apart mid h.index s h.subnet e h.stored, packed.nonempty mid s e) in
      record {
        index = h.index;
        subnet = h.subnet;
        stored = h.stored;
        from = h.from;
        upto = inside;
        low = h.low;
        high = h.high;
      }

  none_left :
      {lo hi : ℕ} (mid : ℕ) (s : Subnet4)
      → get_elem? range mid ≡ some s
      → s.end < addr
      → Holds range addr lo hi
      → Holds range addr (mid + 1) hi
  none_left mid s e right h =
      let inside : mid + 1 ≤ h.index =
        ground (arith, packed.apart h.index mid h.subnet s h.stored e, packed.nonempty mid s e) in
      record {
        index = h.index;
        subnet = h.subnet;
        stored = h.stored;
        from = inside;
        upto = h.upto;
        low = h.low;
        high = h.high;
      }

  widen_left :
      (lo mid hi : ℕ) (s : Subnet4) (r : Search)
      → get_elem? range mid ≡ some s
      → mid < hi
      → addr < s.begin
      → Decides lo mid r
      → Decides lo hi r
  widen_left lo mid hi s r e b left (inl (q, h)) = inl (
    q,
    record {
      index = h.index;
      subnet = h.subnet;
      stored = h.stored;
      from = h.from;
      upto = lt_trans h.upto b;
      low = h.low;
      high = h.high;
    },
  )
  widen_left lo mid hi s r e b left (inr (q, nobody)) =
      inr (q, λ h. nobody (none_right mid s e left h))

  widen_right :
      (lo mid hi : ℕ) (s : Subnet4) (r : Search)
      → get_elem? range mid ≡ some s
      → lo ≤ mid
      → s.end < addr
      → Decides (mid + 1) hi r
      → Decides lo hi r
  widen_right lo mid hi s r e a right (inl (q, h)) = inl (
    q,
    record {
      index = h.index;
      subnet = h.subnet;
      stored = h.stored;
      from = omega (arith, h.from);
      upto = h.upto;
      low = h.low;
      high = h.high;
    },
  )
  widen_right lo mid hi s r e a right (inr (q, nobody)) =
      inr (q, λ h. nobody (none_left mid s e right h))

  -- One round, from what the loop decides on the two halves.
  round-Decides :
      (lo mid hi : ℕ) (s : Subnet4) (left right : Search)
      → get_elem? range mid ≡ some s
      → lo ≤ mid
      → mid < hi
      → Decides lo mid left
      → Decides (mid + 1) hi right
      → Decides lo hi (probe4 addr (some s) left right)
  unfolding probe4
  round-Decides lo mid hi s left right e a b dl dr =
      elim (Bool-cases (leb s.begin addr && leb addr s.end)) [
        | inl inside ↦ rw inside (
            inl (
              refl,
              record {
                index = mid;
                subnet = s;
                stored = e;
                from = a;
                upto = b;
                low = ground arith;
                high = ground arith;
              },
            ))
        | inr outside ↦ rw outside (elim (Bool-cases (ltb addr s.begin)) [
          | inl l ↦ rw l (widen_left lo mid hi s left e b (ground arith) dl)
          | inr nl ↦ rw nl (elim (Bool-cases (ltb s.end addr)) [
            | inl r ↦ rw r (widen_right lo mid hi s right e a (ground arith) dr)
            | inr nr ↦ absurd (ground arith)
          ])
        ])
      ]

  -- With more fuel than elements to look at, the loop ends by a verdict that is right.
  loop-Decides :
      (fuel lo hi : ℕ)
      → hi - lo < fuel
      → hi ≤ length range
      → length range ≤ 2 ^ 30
      → Decides lo hi (bsearch4_loop fuel range addr lo hi)
  unfolding bsearch4_loop
  loop-Decides zero lo hi f h g = elim f [ ]
  loop-Decides (suc fuel) lo hi f h g = elim (Bool-cases (leb hi lo)) [
    | inl done ↦ rw done (inr (refl, λ x. absurd (ground (arith, x.from, x.upto))))
    | inr more ↦
        let mid = (lo + hi) / 2 in
        let below : lo < hi = ground arith in
        let small : ltb int_max (lo + hi) ≡ false = ground arith in
        let (s, e) = get_elem?-lt range mid (omega arith) in
        rw (more, small, e)
          (round-Decides lo mid hi s _ _ e (omega arith) (omega arith)
            (loop-Decides fuel lo mid (omega arith) (omega arith) g)
            (loop-Decides fuel (mid + 1) hi (omega arith) h g))
  ]

-- On a packed list of at most 2^30 ranges the bisection of any part of it ends with the right
-- verdict: a hit exactly when a range in that part holds the address, a miss otherwise. It neither
-- warns, nor reads outside the list, nor overflows.
pub geoip_bsearch4-Decides :
    (range : List Subnet4) (addr lo hi : ℕ)
    → IsPacked range
    → hi ≤ length range
    → length range ≤ 2 ^ 30
    → ((geoip_bsearch4 range addr lo hi ≡ hit) × Holds range addr lo hi)
      ⊎ ((geoip_bsearch4 range addr lo hi ≡ miss) × ¬ (Holds range addr lo hi))
unfolding geoip_bsearch4
geoip_bsearch4-Decides range addr lo hi packed h g =
    loop-Decides range packed addr (suc (hi - lo)) lo hi (omega arith) h g
