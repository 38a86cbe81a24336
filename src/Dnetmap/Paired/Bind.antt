-- ===== src/Dnetmap/Paired/Bind.antt =====
-- A binding and a hit keep the hash lists of DNETMAP paired, and the reverse lookup finds them
-- (extensions/xt_DNETMAP.c: dnetmap_tg).
use xtables_addons.Common.{
  ℕ, ◌≡◌, refl, true, not, ◌&&◌, some, leb, ◌^◌, arith, Bool-cases, inl, inr,
}
use mathlib.Core.Path.{subst}
use xtables_addons.Common.Members.{elem, elem-snoc}
use xtables_addons.Dnetmap.{
  Entry, Net, Env, set_entry, dnetmap_entry_hash, dnetmap_entry_rlookup, rehash, rehashed,
  move_tail, later,
}
use xtables_addons.Dnetmap.Target.{TgInfo, jttl, refresh, bind_entry}
use xtables_addons.Dnetmap.Paired.{
  ours, IsPaired, set_entry-IsPaired, rehashed-IsPaired, move_tail-IsPaired, rlookup_paired,
}

-- The reverse lookup of the postnat address finds an entry with the prenat address.
abbrev pub Answers : Env → Net → ℕ → ℕ → Type 0
Answers env s prenat_ip ip =
    (e : ℕ) × (dnetmap_entry_rlookup env s ip ≡ some e) × ((s.entry e).prenat_addr ≡ prenat_ip)

module _ (env : Env) (tginfo : TgInfo) where
  pub refresh-IsPaired :
      (e : ℕ) (s : Net) → IsPaired env s → ours s e ≡ true → IsPaired env (refresh env tginfo e s)
  unfolding refresh
  refresh-IsPaired e s w mine =
      let d = later env.jiffies (jttl env tginfo) in
      let b : Entry = record (s.entry e) { stamp = d } in
      let w1 : IsPaired env (set_entry e b s) = set_entry-IsPaired env s e w b refl refl in
      elim (Bool-cases (not (leb (2 ^ 31) (jttl env tginfo)) && not (s.entry e).static)) [
        | inl y ↦
            rw y (move_tail-IsPaired env (set_entry e b s) e w1 (s.entry e).prefix (ground arith))
        | inr n ↦ rw n w
      ]

  pub refresh_same :
      (e x : ℕ) (s : Net)
      → (((refresh env tginfo e s).entry x).prenat_addr ≡ (s.entry x).prenat_addr)
        × (((refresh env tginfo e s).entry x).postnat_addr ≡ (s.entry x).postnat_addr)
        × ((refresh env tginfo e s).rev_iphash ≡ s.rev_iphash)
  unfolding refresh
  refresh_same e x s = ground arith

  -- The state in which the entry goes back on the hash lists.
  abbrev pub renewed : ℕ → ℕ → ℕ → Net → Net
  renewed prenat_ip e p s = move_tail e p (
      set_entry e
        (record (s.entry e) {
          prenat_addr = prenat_ip;
          stamp = later env.jiffies (jttl env tginfo);
        })
        s)

  pub bind_entry_result :
      (prenat_ip e p : ℕ) (s : Net) {t : Net} {ip : ℕ}
      → bind_entry env tginfo prenat_ip e p s ≡ some (t, ip)
      → (t ≡ rehashed env e (renewed prenat_ip e p s)) × (ip ≡ (s.entry e).postnat_addr)
  unfolding bind_entry rehash
  bind_entry_result prenat_ip e p s r = ground arith

  renewed-IsPaired :
      (prenat_ip e p : ℕ) (s : Net)
      → IsPaired env s
      → ours s e ≡ true
      → IsPaired env (rehashed env e (renewed prenat_ip e p s))
  renewed-IsPaired prenat_ip e p s w mine =
      let b : Entry = record (s.entry e) {
        prenat_addr = prenat_ip;
        stamp = later env.jiffies (jttl env tginfo);
      } in
      let w1 : IsPaired env (set_entry e b s) = set_entry-IsPaired env s e w b refl refl in
      rehashed-IsPaired env (renewed prenat_ip e p s) e
        (move_tail-IsPaired env (set_entry e b s) e w1 p (ground arith)) (ground arith)

  renewed_answers :
      (prenat_ip e p : ℕ) (s : Net)
      → IsPaired env s
      → ours s e ≡ true
      → Answers env (rehashed env e (renewed prenat_ip e p s)) prenat_ip (s.entry e).postnat_addr
  renewed_answers prenat_ip e p s w mine =
      let t = rehashed env e (renewed prenat_ip e p s) in
      let addr : (t.entry e).postnat_addr ≡ (s.entry e).postnat_addr = ground arith in
      let m : elem e (t.rev_iphash (dnetmap_entry_hash env (t.entry e).postnat_addr)) ≡ true =
        ground
          (arith, elem-snoc e e (s.rev_iphash (dnetmap_entry_hash env (s.entry e).postnat_addr))) in
      let found = rlookup_paired env t e (renewed-IsPaired prenat_ip e p s w mine) m in
      (e, subst (λ (a : ℕ). dnetmap_entry_rlookup env t a ≡ some e) addr found, ground arith)

  pub bind_entry_lem :
      (prenat_ip e p : ℕ) (s : Net) {t : Net} {ip : ℕ}
      → IsPaired env s
      → ours s e ≡ true
      → bind_entry env tginfo prenat_ip e p s ≡ some (t, ip)
      → IsPaired env t × Answers env t prenat_ip ip
  bind_entry_lem prenat_ip e p s w mine r =
      let (q, i) = bind_entry_result prenat_ip e p s r in
      rw (q, i) (renewed-IsPaired prenat_ip e p s w mine, renewed_answers prenat_ip e p s w mine)
