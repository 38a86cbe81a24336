-- ===== src/Dnetmap/Static.antt =====
-- Static bindings made through /proc (extensions/xt_DNETMAP.c: dnetmap_tg_proc_write).
use xtables_addons.Common.{
  ℕ, ◌≡◌, ◌⊎◌, refl, true, false, some, List, [], ◌∷◌, arith, Option-cases, inl, inr,
}
use mathlib.Core.Path.{subst}
use xtables_addons.Common.Members.{elem, elem-snoc}
use xtables_addons.Dnetmap.{
  Entry, Net, Env, set_entry, off_lists, dnetmap_entry_hash, dnetmap_entry_rlookup,
  dnetmap_addr_in_prefix, first_postnat, unhash, unhashed, rehash, rehashed,
}
use xtables_addons.Dnetmap.Paired.{
  ours, IsPaired, set_entry-IsPaired, off_lists-IsPaired, unhashed-IsPaired, rehashed-IsPaired,
  rlookup_paired,
}
use xtables_addons.Dnetmap.Paired.Bind.{Answers}
use xtables_addons.Dnetmap.TwoWay.{first_postnat_lem}
use xtables_addons.Dnetmap.Proc.{fault, lru_del, make_static, entry_for, add_binding, add_checked}

module _ (env : Env) where
  -- The state in which a static entry goes back on the hash lists.
  abbrev pub off_lru : ℕ → ℕ → Net → Net
  off_lru addr1 e s =
      set_entry e (record (s.entry e) { prenat_addr = addr1; static = true }) (off_lists e s)

  pub make_static_result :
      (addr1 e : ℕ) (s : Net) {t : Net}
      → make_static env addr1 e s ≡ some t
      → t ≡ rehashed env e (off_lru addr1 e s)
  unfolding make_static lru_del rehash
  make_static_result addr1 e s r = ground arith

  off_lru-IsPaired : (addr1 e : ℕ) (s : Net) → IsPaired env s → IsPaired env (off_lru addr1 e s)
  off_lru-IsPaired addr1 e s w =
      set_entry-IsPaired env (off_lists e s) e (off_lists-IsPaired env s e w)
        (record (s.entry e) { prenat_addr = addr1; static = true }) refl refl

  rehashed_answers :
      (e : ℕ) (s : Net)
      → IsPaired env s
      → ours s e ≡ true
      → Answers env (rehashed env e s) (s.entry e).prenat_addr (s.entry e).postnat_addr
  rehashed_answers e s w mine =
      let t = rehashed env e s in
      let addr : (t.entry e).postnat_addr ≡ (s.entry e).postnat_addr = ground arith in
      let m : elem e (t.rev_iphash (dnetmap_entry_hash env (t.entry e).postnat_addr)) ≡ true =
        ground
          (arith, elem-snoc e e (s.rev_iphash (dnetmap_entry_hash env (s.entry e).postnat_addr))) in
      let found = rlookup_paired env t e (rehashed-IsPaired env s e w mine) m in
      (e, subst (λ (a : ℕ). dnetmap_entry_rlookup env t a ≡ some e) addr found, ground arith)

  make_static_lem :
      (addr1 e : ℕ) (s : Net) {t : Net}
      → IsPaired env s
      → ours s e ≡ true
      → make_static env addr1 e s ≡ some t
      → IsPaired env t × Answers env t addr1 (s.entry e).postnat_addr
  make_static_lem addr1 e s w mine r =
      let s1 = off_lru addr1 e s in
      let w1 : IsPaired env s1 = off_lru-IsPaired addr1 e s w in
      let mine1 : ours s1 e ≡ true = ground arith in
      let pa : (s1.entry e).prenat_addr ≡ addr1 = ground arith in
      let na : (s1.entry e).postnat_addr ≡ (s.entry e).postnat_addr = ground arith in
      let a : Answers env (rehashed env e s1) addr1 (s.entry e).postnat_addr =
        subst (λ (i : ℕ). Answers env (rehashed env e s1) i (s.entry e).postnat_addr) pa
          (subst (λ (i : ℕ). Answers env (rehashed env e s1) (s1.entry e).prenat_addr i) na
            (rehashed_answers e s1 w1 mine1)) in
      rw (make_static_result addr1 e s r) (rehashed-IsPaired env s1 e w1 mine1, a)

  first_postnat_addr :
      (entry : ℕ → Entry) (addr : ℕ) (l : List ℕ) {e : ℕ}
      → first_postnat entry addr l ≡ some e
      → (entry e).postnat_addr ≡ addr
  unfolding first_postnat
  first_postnat_addr entry addr [] r = cc
  first_postnat_addr entry addr (x ∷ l) {e} r =
      ground (arith, first_postnat_addr entry addr l {e = e})

  pub entry_for_result :
      (addr2 p e : ℕ) (s s' : Net)
      → entry_for env addr2 p s ≡ some (e, s')
      → ((dnetmap_entry_rlookup env s addr2 ≡ some e) × (s' ≡ unhashed e s))
        ⊎ ((first_postnat s.entry addr2 (s.prefix_at p).elist ≡ some e) × (s' ≡ s))
  unfolding entry_for unhash
  entry_for_result addr2 p e s s' r = elim (Option-cases (dnetmap_entry_rlookup env s addr2)) [
    | inr (x, q) ↦ inl (ground arith, ground arith)
    | inl nil ↦ elim (Option-cases (first_postnat s.entry addr2 (s.prefix_at p).elist)) [
      | inl nil2 ↦ absurd (ground arith)
      | inr (y, q2) ↦ inr (ground arith, ground arith)
    ]
  ]

  pub entry_for_lem :
      (addr2 p e : ℕ) (s s' : Net)
      → IsPaired env s
      → ((x : ℕ) → elem x (s.prefix_at p).elist ≡ true → (s.entry x).prefix ≡ p)
      → entry_for env addr2 p s ≡ some (e, s')
      → IsPaired env s' × (ours s' e ≡ true) × ((s'.entry e).postnat_addr ≡ addr2)
  unfolding dnetmap_entry_rlookup
  entry_for_lem addr2 p e s s' w own r = elim (entry_for_result addr2 p e s s' r) [
    | inl (q, k) ↦
        let h = dnetmap_entry_hash env addr2 in
        let mine : ours s e ≡ true =
          w.rev_ours e h (first_postnat_lem s.entry addr2 (s.rev_iphash h) q) in
        let a = first_postnat_addr s.entry addr2 (s.rev_iphash h) q in
        rw k (unhashed-IsPaired env s e w, ground arith, ground arith)
    | inr (q, k) ↦
        let m = first_postnat_lem s.entry addr2 (s.prefix_at p).elist q in
        let a = first_postnat_addr s.entry addr2 (s.prefix_at p).elist q in
        rw k (w, ground (arith, own e), a)
  ]

  pub add_binding_lem :
      (addr1 addr2 p : ℕ) (s t : Net)
      → IsPaired env s
      → ((x : ℕ) → elem x (s.prefix_at p).elist ≡ true → (s.entry x).prefix ≡ p)
      → add_binding env addr1 addr2 p s ≡ some t
      → IsPaired env t × Answers env t addr1 addr2
  unfolding add_binding
  add_binding_lem addr1 addr2 p s t w own r = elim (Option-cases (entry_for env addr2 p s)) [
    | inl nil ↦ absurd (ground arith)
    | inr ((e, s'), q) ↦
        let (w', mine, a) = entry_for_lem addr2 p e s s' w own q in
        let (wt, ans) = make_static_lem addr1 e s' {t = t} w' mine (ground arith) in
        (wt, subst (λ (i : ℕ). Answers env t addr1 i) a ans)
  ]

-- The fault of a second static binding: the entry is off the lru list already.
add_checked_twice :
    (env : Env) (size addr1 addr2 p e : ℕ) (s : Net)
    → dnetmap_entry_rlookup env s addr2 ≡ some e
    → (s.entry e).static ≡ true
    → dnetmap_addr_in_prefix s addr1 p ≡ false
    → dnetmap_addr_in_prefix s addr2 p ≡ true
    → add_checked env size addr1 addr2 p s ≡ fault
unfolding add_checked add_binding entry_for make_static lru_del unhash
add_checked_twice env size addr1 addr2 p e s q st out inside = ground arith
