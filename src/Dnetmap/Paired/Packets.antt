-- ===== src/Dnetmap/Paired/Packets.antt =====
-- The choice of an address keeps the hash lists of DNETMAP paired (extensions/xt_DNETMAP.c:
-- dnetmap_tg).
use xtables_addons.Common.{
  ℕ, ◌≡◌, refl, ◌∙◌, Bool, true, false, not, ◌&&◌, Option, some, none, List, [], ◌∷◌, ◌==◌,
  has_flag, arith, Bool-cases, Option-cases, inl, inr,
}
use mathlib.Core.Path.{subst}
use xtables_addons.Common.Members.{elem}
use xtables_addons.Dnetmap.{
  Entry, Net, Env, set_entry, set_prefix, dnetmap_entry_hash, dnetmap_entry_lookup,
  dnetmap_entry_rlookup, dnetmap_prefix_lookup, unhash, unhashed, time_before, first_prenat,
}
use xtables_addons.Dnetmap.Target.{
  TgInfo, flag_static, flag_reuse, refresh, bind_entry, timeout_binding, bind_first,
  bind_new_prefix, other_prefix, bound_tg, forward_ip,
}
use xtables_addons.Dnetmap.Paired.{
  ours, IsPaired, set_entry-IsPaired, set_prefix-IsPaired, unhashed-IsPaired, rlookup_paired,
}
use xtables_addons.Dnetmap.Paired.Bind.{Answers, refresh-IsPaired, refresh_same, bind_entry_lem}

abbrev pub Outcome : Env → ℕ → Net → Option ℕ → Type 0
Outcome env prenat_ip t none = IsPaired env t
Outcome env prenat_ip t (some ip) = IsPaired env t × Answers env t prenat_ip ip

module _ (env : Env) (tginfo : TgInfo) where
  timeout_binding_lem :
      (e : ℕ) (s : Net) {t : Net}
      → IsPaired env s
      → ours s e ≡ true
      → timeout_binding e s ≡ some t
      → IsPaired env t × (ours t e ≡ true)
  unfolding timeout_binding unhash
  timeout_binding_lem e s {t} w mine r = elim (Bool-cases (not ((s.entry e).prenat_addr == 0))) [
    | inl y ↦
        let q : t ≡ unhashed e s = ground arith in rw q (unhashed-IsPaired env s e w, ground arith)
    | inr n ↦ let q : t ≡ s = ground arith in rw q (w, mine)
  ]

  set_full-IsPaired :
      (p : ℕ) (full : Bool) (s : Net)
      → IsPaired env s
      → IsPaired env (set_prefix p (record (s.prefix_at p) { full = full }) s)
  set_full-IsPaired p full s w =
      set_prefix-IsPaired env s p w p (record (s.prefix_at p) { full = full }) refl
        λ x m. w.lru_ours x p m

  bind_first_lem :
      (prenat_ip p : ℕ) (l : List ℕ) (s : Net) {t : Net} (o : Option ℕ)
      → IsPaired env s
      → ((x : ℕ) → elem x l ≡ true → ours s x ≡ true)
      → bind_first env tginfo prenat_ip p l s ≡ some (t, o)
      → Outcome env prenat_ip t o
  unfolding bind_first elem
  bind_first_lem prenat_ip p [] s o w mine r = cc
  bind_first_lem prenat_ip p (e ∷ l) s {t} o w mine r =
      let s1 : Net = set_prefix p (record (s.prefix_at p) { full = false }) s in
      let w1 : IsPaired env s1 = set_full-IsPaired p false s w in
      elim (Bool-cases
        (not ((s.entry e).prenat_addr == 0) && time_before env.jiffies (s.entry e).stamp)) [
          | inl y ↦ elim (Bool-cases (not env.disable_log && not (s.prefix_at p).full)) [
            | inl f ↦
                let q : set_prefix p (record (s.prefix_at p) { full = true }) s ≡ t =
                  ground arith in
                let z : none ≡ o = ground arith in rw (← q, ← z) (set_full-IsPaired p true s w)
            | inr f ↦
                let q : s ≡ t = ground arith in let z : none ≡ o = ground arith in rw (← q, ← z) w
          ]
          | inr n ↦ elim (Option-cases (timeout_binding e s1)) [
            | inl nil ↦ absurd (ground arith)
            | inr (s', q) ↦
                let (w', mine') = timeout_binding_lem e s1 w1 (ground (arith, mine e)) q in
                elim (Option-cases (bind_entry env tginfo prenat_ip e p s')) [
                  | inl nil ↦ absurd (ground arith)
                  | inr ((t', ip), q') ↦
                      let a : t' ≡ t = ground arith in
                      let z : some ip ≡ o = ground arith in
                      rw (← a, ← z) (bind_entry_lem env tginfo prenat_ip e p s' w' mine' q')
                ]
          ]
        ]

  bind_new_prefix_lem :
      (prenat_ip : ℕ) (p : Option ℕ) (s : Net) {t : Net} (o : Option ℕ)
      → IsPaired env s
      → bind_new_prefix env tginfo prenat_ip p s ≡ some (t, o)
      → Outcome env prenat_ip t o
  unfolding bind_new_prefix
  bind_new_prefix_lem prenat_ip none s o w r = cc
  bind_new_prefix_lem prenat_ip (some p) s o w r =
      bind_first_lem prenat_ip p (s.prefix_at p).lru_list s o w (λ x m. w.lru_ours x p m) r

  cleared-IsPaired :
      (e : ℕ) (s : Net) {s' : Net}
      → IsPaired env s
      → unhash e s ≡ some s'
      → IsPaired env (set_entry e (record (s'.entry e) { prenat_addr = 0 }) s')
  unfolding unhash
  cleared-IsPaired e s {s'} w q =
      let k : s' ≡ unhashed e s = ground arith in
      let w' : IsPaired env s' = rw k (unhashed-IsPaired env s e w) in
      set_entry-IsPaired env s' e w' (record (s'.entry e) { prenat_addr = 0 }) refl refl

  refresh_answers :
      (prenat_ip e : ℕ) (s : Net)
      → IsPaired env s
      → elem e (s.rev_iphash (dnetmap_entry_hash env (s.entry e).postnat_addr)) ≡ true
      → (s.entry e).prenat_addr ≡ prenat_ip
      → Answers env (refresh env tginfo e s) prenat_ip (s.entry e).postnat_addr
  refresh_answers prenat_ip e s w m a =
      let t = refresh env tginfo e s in
      let (pa, na, rv) = refresh_same env tginfo e e s in
      let h = dnetmap_entry_hash env (s.entry e).postnat_addr in
      let mine : ours s e ≡ true = w.rev_ours e h m in
      let m' : elem e (t.rev_iphash (dnetmap_entry_hash env (t.entry e).postnat_addr)) ≡ true =
        rw (na, rv) m in
      let found = rlookup_paired env t e (refresh-IsPaired env tginfo e s w mine) m' in
      (e, subst (λ (i : ℕ). dnetmap_entry_rlookup env t i ≡ some e) na found, pa ∙ a)

  bound_tg_lem :
      (prenat_ip : ℕ) (p : Option ℕ) (e : ℕ) (s : Net) {t : Net} (o : Option ℕ)
      → IsPaired env s
      → elem e (s.rev_iphash (dnetmap_entry_hash env (s.entry e).postnat_addr)) ≡ true
      → (s.entry e).prenat_addr ≡ prenat_ip
      → bound_tg env tginfo prenat_ip p e s ≡ some (t, o)
      → Outcome env prenat_ip t o
  unfolding bound_tg
  bound_tg_lem prenat_ip p e s {t} o w m a r =
      let b : Entry = s.entry e in
      let mine : ours s e ≡ true = w.rev_ours e (dnetmap_entry_hash env b.postnat_addr) m in
      elim (Bool-cases (
        not (has_flag tginfo.flags flag_reuse)
        && not b.static
        && (time_before b.stamp env.jiffies && other_prefix p b.prefix))) [
          | inl y ↦ elim (Option-cases (unhash e s)) [
            | inl nil ↦ absurd (ground arith)
            | inr (s', q) ↦
                let s2 : Net = set_entry e (record (s'.entry e) { prenat_addr = 0 }) s' in
                bind_new_prefix_lem prenat_ip p s2 o (cleared-IsPaired e s w q) (ground arith)
          ]
          | inr n ↦
              let q : refresh env tginfo e s ≡ t = ground arith in
              let z : some b.postnat_addr ≡ o = ground arith in
              rw (← q, ← z)
                (refresh-IsPaired env tginfo e s w mine, refresh_answers prenat_ip e s w m a)
        ]

  first_prenat_lem :
      (entry : ℕ → Entry) (addr : ℕ) (l : List ℕ) {e : ℕ}
      → first_prenat entry addr l ≡ some e
      → (elem e l ≡ true) × ((entry e).prenat_addr ≡ addr)
  unfolding first_prenat elem
  first_prenat_lem entry addr [] r = cc
  first_prenat_lem entry addr (x ∷ l) {e} r = ground (arith, first_prenat_lem entry addr l {e = e})

  -- The state and the address that a source address is given.
  pub forward_ip_lem :
      (saddr : ℕ) (s : Net) {t : Net} (o : Option ℕ)
      → IsPaired env s
      → forward_ip env tginfo saddr s ≡ some (t, o)
      → Outcome env saddr t o
  unfolding forward_ip dnetmap_entry_lookup
  forward_ip_lem saddr s {t} o w r = elim (Option-cases (dnetmap_entry_lookup env s saddr)) [
    | inl nil ↦ elim (Bool-cases (has_flag tginfo.flags flag_static)) [
      | inl only ↦
          let q : s ≡ t = ground arith in let z : none ≡ o = ground arith in rw (← q, ← z) w
      | inr any ↦
          bind_new_prefix_lem saddr (dnetmap_prefix_lookup s tginfo.prefix) s o w (ground arith)
    ]
    | inr (e, q) ↦
        let (m, a) = first_prenat_lem s.entry saddr (s.iphash (dnetmap_entry_hash env saddr)) q in
        bound_tg_lem saddr (dnetmap_prefix_lookup s tginfo.prefix) e s o w
          (w.reversed e (dnetmap_entry_hash env saddr) m) a (ground arith)
  ]
