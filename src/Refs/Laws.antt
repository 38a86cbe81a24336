-- ===== src/Refs/Laws.antt =====
-- Reference counting on a list of objects: references taken and given back, and no object that is
-- still referenced is freed.
use xtables_addons.Common.{
  ℕ, ◌+◌, ◌-◌, ◌%◌, ◌<◌, ◌≡◌, ◌≢◌, refl, Bool, true, false, Option, some, none, List, [], ◌∷◌, ◌++◌,
  ◌==◌, arith, ap, Option-cases, Bool-cases, inl, inr,
}
use xtables_addons.Common.Words.{u32_mod}
use xtables_addons.Refs.{Node, behind, get_ref, put_ref, deref, refs}

abbrev pub one_if : Bool → ℕ
one_if true = 1
one_if false = 0

module _ {A : Type 0} where
  -- Every object on the list is referenced, by a count of 32 bits, and no pointer names two.
  abbrev pub IsLive : List (Node A) → Type 0
  IsLive [] = Unit
  IsLive (n ∷ ns) = ((0 < n.ref) × (n.ref < u32_mod)) × (refs n.id ns ≡ 0) × IsLive ns

  -- No count of the list wraps when it takes `k` more.
  abbrev pub HasRoom : ℕ → List (Node A) → Type 0
  HasRoom k nodes = (j : ℕ) → refs j nodes + k < u32_mod

  -- What became of the list when the object at `i` got one more reference.
  pub record Gets (test : A → Bool) (nodes : List (Node A)) (i : ℕ) (after : List (Node A))
      : Type 0 where
    pub counted : (j : ℕ) → refs j after ≡ refs j nodes + one_if (i == j)
    pub kept : (j : ℕ) → deref j after ≡ deref j nodes
    pub live : IsLive after
    pub held : 0 < refs i nodes
    pub chosen : (a : A) × (deref i after ≡ some a) × (test a ≡ true)

  abbrev pub Got : (A → Bool) → List (Node A) → Option (ℕ × List (Node A)) → Type 0
  Got test nodes none = Unit
  Got test nodes (some (i, after)) = Gets test nodes i after

  module _ (test : A → Bool) (n : Node A) (ns : List (Node A)) (live : IsLive (n ∷ ns)) where
    Got-first :
        n.ref + 1 < u32_mod
        → test n.body ≡ true
        → Gets test (n ∷ ns) n.id (record n { ref = (n.ref + 1) % u32_mod } ∷ ns)
    unfolding refs deref
    Got-first room h = record {
      counted = λ j. ground arith;
      kept = λ j. refl;
      live = ground arith;
      held = ground arith;
      chosen = (n.body, ground arith, h);
    }

    Got-behind : (r : Option (ℕ × List (Node A))) → Got test ns r → Got test (n ∷ ns) (behind n r)
    unfolding behind refs deref
    Got-behind none g = tt
    Got-behind (some (i, after)) g =
        let other : (n.id == i) ≡ false = ground (arith, g.held) in
        record {
          counted = λ j. ground (arith, g.counted j);
          kept = λ j. ground (arith, g.kept j);
          live = ground (arith, g.live, g.counted n.id);
          held = ground (arith, g.held);
          chosen = (g.chosen.0, ground (arith, g.chosen.1), g.chosen.2);
        }

  room_first :
      (n : Node A) (ns : List (Node A)) → refs n.id (n ∷ ns) + 1 < u32_mod → n.ref + 1 < u32_mod
  unfolding refs
  room_first n ns h = ground arith

  room_behind :
      (n : Node A) (ns : List (Node A)) (j : ℕ)
      → refs j (n ∷ ns) + 1 < u32_mod
      → refs j ns + 1 < u32_mod
  unfolding refs
  room_behind n ns j h = ground arith

  -- A reference taken is counted on one object, one that the test accepts; no other object changes.
  pub get_ref-Got :
      (test : A → Bool) (nodes : List (Node A))
      → IsLive nodes
      → HasRoom 1 nodes
      → Got test nodes (get_ref test nodes)
  unfolding get_ref
  get_ref-Got test [] live room = tt
  get_ref-Got test (n ∷ ns) live room = elim (Bool-cases (test n.body)) [
    | inl e ↦ rw e (Got-first test n ns live (room_first n ns (room n.id)) e)
    | inr e ↦ rw e (
        Got-behind test n ns live (get_ref test ns)
          (get_ref-Got test ns live.2 λ j. room_behind n ns j (room j)))
  ]

  -- What became of the list when one reference to the object at `i` was given back.
  pub record Puts (nodes : List (Node A)) (i : ℕ) (after : List (Node A)) : Type 0 where
    pub counted : (j : ℕ) → refs j after + one_if (i == j) ≡ refs j nodes
    pub kept : (j : ℕ) → 0 < refs j after → deref j after ≡ deref j nodes
    pub freed : (j : ℕ) → refs j after ≡ 0 → deref j after ≡ none
    pub live : IsLive after

  -- In a list in order nothing unreferenced is left.
  pub live_freed :
      (nodes : List (Node A)) (j : ℕ) → IsLive nodes → refs j nodes ≡ 0 → deref j nodes ≡ none
  unfolding refs deref
  live_freed [] j live h = refl
  live_freed (n ∷ ns) j live h = ground (arith, live_freed ns j)

  refs_behind :
      (n : Node A) (ns : List (Node A)) (i : ℕ)
      → (n.id == i) ≡ false
      → 0 < refs i (n ∷ ns)
      → 0 < refs i ns
  unfolding refs
  refs_behind n ns i other h = ground arith

  Puts-last :
      (n : Node A) (ns : List (Node A)) (i : ℕ)
      → IsLive (n ∷ ns)
      → n.id ≡ i
      → n.ref ≡ 1
      → Puts (n ∷ ns) i ns
  unfolding refs deref
  Puts-last n ns i live e one = record {
    counted = λ j. ground (arith, e);
    kept = λ j h. ground arith;
    freed = λ j h. live_freed ns j live.2 h;
    live = live.2;
  }

  Puts-first :
      (n : Node A) (ns : List (Node A)) (i : ℕ)
      → IsLive (n ∷ ns)
      → n.id ≡ i
      → n.ref ≢ 1
      → Puts (n ∷ ns) i (record n { ref = (n.ref + u32_mod - 1) % u32_mod } ∷ ns)
  unfolding refs deref
  Puts-first n ns i live e more = record {
    counted = λ j. ground arith;
    kept = λ j h. refl;
    freed = λ j h. ground (arith, live_freed ns j live.2);
    live = ground arith;
  }

  Puts-behind :
      (n : Node A) (ns after : List (Node A)) (i : ℕ)
      → IsLive (n ∷ ns)
      → n.id ≢ i
      → Puts ns i after
      → Puts (n ∷ ns) i (n ∷ after)
  unfolding refs deref
  Puts-behind n ns after i live other p = record {
    counted = λ j. ground (arith, p.counted j);
    kept = λ j h. ground (arith, p.kept j);
    freed = λ j h. ground (arith, p.freed j);
    live = ground (arith, p.live, p.counted n.id);
  }

  -- A reference given back is taken off one object; it is freed exactly when that was the last one.
  pub put_ref-Puts :
      (nodes : List (Node A)) (i : ℕ)
      → IsLive nodes
      → 0 < refs i nodes
      → Puts nodes i (put_ref i nodes)
  unfolding put_ref
  put_ref-Puts [] i live h = absurd (refs_nil h)
    where
      refs_nil : ¬ (0 < refs {A = A} i [])
      refs_nil h = unfold refs in omega arith
  put_ref-Puts (n ∷ ns) i live h = elim (Bool-cases (n.id == i)) [
    | inl e ↦ rw e (elim (Bool-cases (n.ref == 1)) [
      | inl one ↦ rw one (Puts-last n ns i live (ground arith) (ground arith))
      | inr more ↦ rw more (Puts-first n ns i live (ground arith) (ground arith))
    ])
    | inr other ↦ rw other (
        Puts-behind n ns (put_ref i ns) i live (ground arith)
          (put_ref-Puts ns i live.2 (refs_behind n ns i other h)))
  ]

  -- A new object at the end of the list, at a pointer that names nothing yet.
  pub record Adds (nodes : List (Node A)) (i : ℕ) (body : A) (after : List (Node A)) : Type 0 where
    pub counted : (j : ℕ) → refs j after ≡ refs j nodes + one_if (i == j)
    pub kept : (j : ℕ) → j ≢ i → deref j after ≡ deref j nodes
    pub stored : deref i after ≡ some body
    pub live : IsLive after

  pub add-Adds :
      (nodes : List (Node A)) (i : ℕ) (body : A)
      → IsLive nodes
      → refs i nodes ≡ 0
      → Adds nodes i body (nodes ++ record { id = i; ref = 1; body = body } ∷ [])
  unfolding refs deref
  add-Adds [] i body live h = record {
    counted = λ j. ground arith;
    kept = λ j h. ground arith;
    stored = ground arith;
    live = ground arith;
  }
  add-Adds (n ∷ ns) i body live h =
      let a = add-Adds ns i body live.2 (omega arith) in
      record {
        counted = λ j. ground (arith, a.counted j);
        kept = λ j h. ground (arith, a.kept j);
        stored = ground (arith, a.stored);
        live = ground (arith, a.live, a.counted n.id);
      }

  -- What `get_ref` finds is in use.
  get_ref_held :
      (test : A → Bool) (nodes after : List (Node A)) (i : ℕ)
      → IsLive nodes
      → get_ref test nodes ≡ some (i, after)
      → 0 < refs i nodes
  unfolding get_ref refs behind
  get_ref_held test [] after i live e = ground arith
  get_ref_held test (n ∷ ns) after i live e = elim (Bool-cases (test n.body)) [
    | inl here ↦ let q : n.id ≡ i = ground arith in ground arith
    | inr other ↦ elim (Option-cases (get_ref test ns)) [
      | inl nil ↦ absurd (ground arith)
      | inr ((j, rest), q) ↦
          let k : j ≡ i = ground arith in
          let held = get_ref_held test ns rest j live.2 q in ground arith
    ]
  ]

  -- A reference taken and given back leaves the list as it was, even where the count wraps.
  pub put_ref-get_ref :
      (test : A → Bool) (nodes after : List (Node A)) (i : ℕ)
      → IsLive nodes
      → get_ref test nodes ≡ some (i, after)
      → put_ref i after ≡ nodes
  unfolding get_ref put_ref behind refs
  put_ref-get_ref test [] after i live e = ground arith
  put_ref-get_ref test (n ∷ ns) after i live e = elim (Bool-cases (test n.body)) [
    | inl here ↦
        let q : record n { ref = (n.ref + 1) % u32_mod } ∷ ns ≡ after = ground arith in
        let k : n.id ≡ i = ground arith in
        let same : (n.id == i) ≡ true = ground arith in
        let more : ((n.ref + 1) % u32_mod == 1) ≡ false = ground arith in
        let back : ((n.ref + 1) % u32_mod + u32_mod - 1) % u32_mod ≡ n.ref =
          omega (arith, live.0) in
        rw (← q) (rw (same, more, back) refl)
    | inr other ↦ elim (Option-cases (get_ref test ns)) [
      | inl nil ↦ absurd (ground arith)
      | inr ((j, rest), q) ↦
          let k : j ≡ i = ground arith in
          let w : n ∷ rest ≡ after = ground arith in
          let held = get_ref_held test ns rest j live.2 q in
          let away : (n.id == i) ≡ false = ground arith in
          rw (← w) (rw away (ap (λ l. n ∷ l) (put_ref-get_ref test ns rest i live.2 (rw (← k) q))))
    ]
  ]

  -- A new object that is given back leaves the list as it was.
  pub put_ref-add :
      (nodes : List (Node A)) (i : ℕ) (body : A)
      → IsLive nodes
      → refs i nodes ≡ 0
      → put_ref i (nodes ++ record { id = i; ref = 1; body = body } ∷ []) ≡ nodes
  unfolding put_ref refs
  put_ref-add [] i body live h = let same : (i == i) ≡ true = ground arith in rw same refl
  put_ref-add (n ∷ ns) i body live h =
      let away : (n.id == i) ≡ false = ground arith in
      rw away (ap (λ l. n ∷ l) (put_ref-add ns i body live.2 (ground arith)))
