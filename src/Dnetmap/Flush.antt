-- ===== src/Dnetmap/Flush.antt =====
-- The flush of a prefix of DNETMAP (extensions/xt_DNETMAP.c: dnetmap_prefix_softflush).
use xtables_addons.Common.{
  ℕ, ◌≡◌, refl, ◌∙◌, true, false, not, ◌&&◌, List, [], ◌∷◌, ◌==◌, arith, Bool-cases, inl, inr,
}
use xtables_addons.Common.Members.{elem, elem-snoc}
use xtables_addons.Dnetmap.{Entry, Net, Env}
use xtables_addons.Dnetmap.Rules.{
  without_prefix, unhash_prefix, flush_entry, flush_entries, dnetmap_prefix_softflush,
}

elem-without_prefix :
    (entry : ℕ → Entry) (p x : ℕ) (l : List ℕ)
    → elem x (without_prefix entry p l) ≡ (elem x l && not ((entry x).prefix == p))
unfolding elem without_prefix
elem-without_prefix entry p x [] = refl
elem-without_prefix entry p x (e ∷ l) = ground (arith, elem-without_prefix entry p x l)

-- The entry is free: no address is bound to it, and it waits on the lru list.
abbrev pub IsFree : Net → ℕ → ℕ → Type 0
IsFree s p x =
    ((s.entry x).prenat_addr ≡ 0)
    × ((s.entry x).static ≡ false)
    × (elem x (s.prefix_at p).lru_list ≡ true)

-- A dynamic entry waits on the lru list.
abbrev pub Waits : Net → ℕ → ℕ → Type 0
Waits s p x = (s.entry x).static ≡ false → elem x (s.prefix_at p).lru_list ≡ true

module _ (env : Env) (p : ℕ) where
  flush_entry-IsFree : (e : ℕ) (s : Net) → Waits s p e → IsFree (flush_entry env p e s) p e
  unfolding flush_entry
  flush_entry-IsFree e s w = elim (Bool-cases (s.entry e).static) [
    | inl y ↦ ground (arith, elem-snoc e e (s.prefix_at p).lru_list)
    | inr n ↦ ground (arith, w n)
  ]

  flush_entry_keeps : (e x : ℕ) (s : Net) → IsFree s p x → IsFree (flush_entry env p e s) p x
  unfolding flush_entry
  flush_entry_keeps e x s f = elim (Bool-cases (s.entry e).static) [
    | inl y ↦ ground (arith, elem-snoc x e (s.prefix_at p).lru_list)
    | inr n ↦ ground arith
  ]

  flush_entry-Waits : (e x : ℕ) (s : Net) → Waits s p x → Waits (flush_entry env p e s) p x
  unfolding flush_entry
  flush_entry-Waits e x s w d = elim (Bool-cases (s.entry e).static) [
    | inl y ↦ ground (arith, elem-snoc x e (s.prefix_at p).lru_list, w)
    | inr n ↦ ground (arith, w)
  ]

  flush_entries_keeps :
      (l : List ℕ) (x : ℕ) (s : Net) → IsFree s p x → IsFree (flush_entries env p l s) p x
  unfolding flush_entries
  flush_entries_keeps [] x s f = f
  flush_entries_keeps (e ∷ l) x s f =
      flush_entries_keeps l x (flush_entry env p e s) (flush_entry_keeps e x s f)

  flush_entries_frees :
      (l : List ℕ) (x : ℕ) (s : Net)
      → Waits s p x
      → elem x l ≡ true
      → IsFree (flush_entries env p l s) p x
  unfolding flush_entries elem
  flush_entries_frees [] x s w m = absurd (ground arith)
  flush_entries_frees (e ∷ l) x s w m = elim (Bool-cases (e == x)) [
    | inl here ↦
        let q : e ≡ x = ground arith in
        flush_entries_keeps l x (flush_entry env p e s) (rw (← q) (flush_entry-IsFree e s (rw q w)))
    | inr there ↦
        flush_entries_frees l x (flush_entry env p e s) (flush_entry-Waits e x s w) (ground arith)
  ]

  flush_entry_hash :
      (e : ℕ) (s : Net)
      → ((flush_entry env p e s).iphash ≡ s.iphash)
        × ((flush_entry env p e s).rev_iphash ≡ s.rev_iphash)
  unfolding flush_entry
  flush_entry_hash e s = ground arith

  flush_entries_hash :
      (l : List ℕ) (s : Net)
      → ((flush_entries env p l s).iphash ≡ s.iphash)
        × ((flush_entries env p l s).rev_iphash ≡ s.rev_iphash)
  unfolding flush_entries
  flush_entries_hash [] s = (refl, refl)
  flush_entries_hash (e ∷ l) s =
      let (f, r) = flush_entry_hash e s in
      let (f', r') = flush_entries_hash l (flush_entry env p e s) in (f' ∙ f, r' ∙ r)

  -- After a flush every entry of the prefix is free, if its dynamic entries were on its lru list
  -- before, and no hash list holds an entry of the prefix.
  pub dnetmap_prefix_softflush-IsFree :
      (x h : ℕ) (s : Net)
      → (s.entry x).prefix ≡ p
      → elem x (s.prefix_at p).elist ≡ true
      → ((s.entry x).static ≡ false → elem x (s.prefix_at p).lru_list ≡ true)
      → IsFree (dnetmap_prefix_softflush env p s) p x
        × (elem x ((dnetmap_prefix_softflush env p s).iphash h) ≡ false)
        × (elem x ((dnetmap_prefix_softflush env p s).rev_iphash h) ≡ false)
  unfolding dnetmap_prefix_softflush
  dnetmap_prefix_softflush-IsFree x h s mine m w =
      let u = unhash_prefix p s in
      let l = (s.prefix_at p).elist in
      let (fwd, rev) = flush_entries_hash l u in
      let free : IsFree (flush_entries env p l u) p x = flush_entries_frees l x u w m in
      rw (fwd, rev)
        (
          free,
          ground (arith, elem-without_prefix s.entry p x (s.iphash h)),
          ground (arith, elem-without_prefix s.entry p x (s.rev_iphash h)),
        )
