-- ===== src/Dnetmap/Kept.antt =====
-- Bindings that last (extensions/xt_DNETMAP.c: dnetmap_tg).
use xtables_addons.Common.{
  ℕ, ◌^◌, ◌≡◌, ◌≢◌, ◌⊎◌, refl, ◌∙◌, Bool, true, false, not, ◌&&◌, Option, some, none, List, [], ◌∷◌,
  ◌==◌, leb, has_flag, arith, Bool-cases, Option-cases, inl, inr,
}
use xtables_addons.Common.Members.{elem, elem-remove, elem-snoc, remove}
use xtables_addons.Dnetmap.{
  Entry, Net, Env, set_entry, set_prefix, dnetmap_entry_lookup, dnetmap_entry_rlookup, same_range,
  dnetmap_prefix_lookup, unhash, unhashed, rehashed, move_tail, time_before, later,
}
use xtables_addons.Dnetmap.Target.{
  TgInfo, Verdict, flag_static, flag_reuse, flag_prefix, pre_routing, jttl, refresh, reverse_tg,
  bind_entry, timeout_binding, bind_first, bind_new_prefix, other_prefix, bound_tg, forward_ip,
  dnetmap_tg,
}
use xtables_addons.Dnetmap.Paired.Bind.{bind_entry_result}
use xtables_addons.Dnetmap.TwoWay.{forward_tg_lem}

-- A static entry off the lru lists, or a bound entry whose time is not over by either test.
abbrev pub Lasts : Env → Net → ℕ → Type 0
Lasts env s x =
    (((s.entry x).static ≡ true) × ((p : ℕ) → elem x (s.prefix_at p).lru_list ≡ false))
    ⊎ (((s.entry x).prenat_addr ≢ 0)
        × (time_before env.jiffies (s.entry x).stamp ≡ true)
        × (time_before (s.entry x).stamp env.jiffies ≡ false))

-- The addresses of an entry, whether it is static, and the hash lists that it is on, stay; a static
-- entry that is off an lru list stays off it.
pub record SameBinding (s t : Net) (x : ℕ) : Type 0 where
  pub prenat : (t.entry x).prenat_addr ≡ (s.entry x).prenat_addr
  pub postnat : (t.entry x).postnat_addr ≡ (s.entry x).postnat_addr
  pub static : (t.entry x).static ≡ (s.entry x).static
  pub found : (h : ℕ) → elem x (t.iphash h) ≡ elem x (s.iphash h)
  pub found_back : (h : ℕ) → elem x (t.rev_iphash h) ≡ elem x (s.rev_iphash h)
  pub off :
      (p : ℕ)
      → (s.entry x).static ≡ true
      → elem x (s.prefix_at p).lru_list ≡ false
      → elem x (t.prefix_at p).lru_list ≡ false

pub SameBinding-same : (s : Net) (x : ℕ) → SameBinding s s x
SameBinding-same s x = record {
  prenat = refl;
  postnat = refl;
  static = refl;
  found = λ h. refl;
  found_back = λ h. refl;
  off = λ p st e. e;
}

pub SameBinding-trans :
    (s t u : Net) (x : ℕ) → SameBinding s t x → SameBinding t u x → SameBinding s u x
SameBinding-trans s t u x a b = record {
  prenat = b.prenat ∙ a.prenat;
  postnat = b.postnat ∙ a.postnat;
  static = b.static ∙ a.static;
  found = λ h. b.found h ∙ a.found h;
  found_back = λ h. b.found_back h ∙ a.found_back h;
  off = λ p st e. b.off p (a.static ∙ st) (a.off p st e);
}

module _ (env : Env) (tginfo : TgInfo) (x : ℕ) where
  unhashed_keeps : (e : ℕ) (s : Net) → (e == x) ≡ false → SameBinding s (unhashed e s) x
  unhashed_keeps e s other = record {
    prenat = ground arith;
    postnat = ground arith;
    static = ground arith;
    found = λ h. ground (arith, elem-remove x e (s.iphash h));
    found_back = λ h. ground (arith, elem-remove x e (s.rev_iphash h));
    off = λ p st o. o;
  }

  rehashed_keeps : (e : ℕ) (s : Net) → (e == x) ≡ false → SameBinding s (rehashed env e s) x
  rehashed_keeps e s other = record {
    prenat = ground arith;
    postnat = ground arith;
    static = ground arith;
    found = λ h. ground (arith, elem-snoc x e (s.iphash h));
    found_back = λ h. ground (arith, elem-snoc x e (s.rev_iphash h));
    off = λ p st o. o;
  }

  move_tail_keeps : (e p : ℕ) (s : Net) → (e == x) ≡ false → SameBinding s (move_tail e p s) x
  move_tail_keeps e p s other = record {
    prenat = refl;
    postnat = refl;
    static = refl;
    found = λ h. refl;
    found_back = λ h. refl;
    off = λ q st o. ground (
      arith,
      elem-snoc x e (remove e (s.prefix_at p).lru_list),
      elem-remove x e (s.prefix_at p).lru_list,
      elem-remove x e (s.prefix_at q).lru_list,
    );
  }

  set_entry_keeps :
      (e : ℕ) (b : Entry) (s : Net) → (e == x) ≡ false → SameBinding s (set_entry e b s) x
  set_entry_keeps e b s other = record {
    prenat = ground arith;
    postnat = ground arith;
    static = ground arith;
    found = λ h. refl;
    found_back = λ h. refl;
    off = λ p st o. o;
  }

  set_full_keeps :
      (p : ℕ) (full : Bool) (s : Net)
      → SameBinding s (set_prefix p (record (s.prefix_at p) { full = full }) s) x
  set_full_keeps p full s = record {
    prenat = refl;
    postnat = refl;
    static = refl;
    found = λ h. refl;
    found_back = λ h. refl;
    off = λ q st o. ground arith;
  }

  bind_entry_keeps :
      (a e p : ℕ) (s : Net) {t : Net} {ip : ℕ}
      → (e == x) ≡ false
      → bind_entry env tginfo a e p s ≡ some (t, ip)
      → SameBinding s t x
  bind_entry_keeps a e p s {t} {ip} other r =
      let (k, _) = bind_entry_result env tginfo a e p s {t = t} {ip = ip} r in
      let b : Entry = record (s.entry e) {
        prenat_addr = a;
        stamp = later env.jiffies (jttl env tginfo);
      } in
      let s1 = set_entry e b s in
      let s2 = move_tail e p s1 in
      rw k (
        SameBinding-trans s s1 (rehashed env e s2) x (set_entry_keeps e b s other) (
          SameBinding-trans s1 s2 (rehashed env e s2) x (move_tail_keeps e p s1 other)
            (rehashed_keeps e s2 other)))

  timeout_binding_keeps :
      (e : ℕ) (s : Net) {t : Net}
      → (e == x) ≡ false
      → timeout_binding e s ≡ some t
      → SameBinding s t x
  unfolding timeout_binding unhash
  timeout_binding_keeps e s {t} other r =
      let cases : (s ≡ t) ⊎ (unhashed e s ≡ t) = ground arith in
      elim cases [
        | inl q ↦ rw (← q) (SameBinding-same s x)
        | inr q ↦ rw (← q) (unhashed_keeps e s other)
      ]

  refresh_keeps : (e : ℕ) (s : Net) → SameBinding s (refresh env tginfo e s) x
  unfolding refresh
  refresh_keeps e s =
      elim (Bool-cases (not (leb (2 ^ 31) (jttl env tginfo)) && not (s.entry e).static)) [
        | inr stays ↦ rw stays (SameBinding-same s x)
        | inl moves ↦ rw moves (record {
          prenat = ground arith;
          postnat = ground arith;
          static = ground arith;
          found = λ h. refl;
          found_back = λ h. refl;
          off = λ q st o. ground (
            arith,
            elem-snoc x e (remove e (s.prefix_at (s.entry e).prefix).lru_list),
            elem-remove x e (s.prefix_at (s.entry e).prefix).lru_list,
            elem-remove x e (s.prefix_at q).lru_list,
          );
        })
      ]

  bind_first_keeps :
      (a p : ℕ) (l : List ℕ) (s : Net) {t : Net} (o : Option ℕ)
      → Lasts env s x
      → elem x (s.prefix_at p).lru_list ≡ elem x l
      → bind_first env tginfo a p l s ≡ some (t, o)
      → SameBinding s t x
  unfolding bind_first elem
  bind_first_keeps a p [] s o w same r = cc
  bind_first_keeps a p (e ∷ l) s {t} o w same r =
      let s1 : Net = set_prefix p (record (s.prefix_at p) { full = false }) s in
      elim (Bool-cases
        (not ((s.entry e).prenat_addr == 0) && time_before env.jiffies (s.entry e).stamp)) [
          | inl y ↦
              let cases : (s ≡ t) ⊎ (set_prefix p (record (s.prefix_at p) { full = true }) s ≡ t) =
                ground arith in
              elim cases [
                | inl q ↦ rw (← q) (SameBinding-same s x)
                | inr q ↦ rw (← q) (set_full_keeps p true s)
              ]
          | inr n ↦ elim (Option-cases (timeout_binding e s1)) [
            | inl nil ↦ absurd (ground arith)
            | inr (s', q) ↦ elim (Option-cases (bind_entry env tginfo a e p s')) [
              | inl nil ↦ absurd (ground arith)
              | inr ((t', ip), q') ↦
                  let other : (e == x) ≡ false = elim w [
                    | inl (st, off) ↦ ground (arith, off p)
                    | inr (b, l1, l2) ↦ ground arith
                  ] in
                  let a1 : t' ≡ t = ground arith in
                  let first = timeout_binding_keeps e s1 other q in
                  let second = bind_entry_keeps a e p s' other q' in
                  rw (← a1) (
                    SameBinding-trans s s1 t' x (set_full_keeps p false s)
                      (SameBinding-trans s1 s' t' x first second))
            ]
          ]
        ]

  bind_new_prefix_keeps :
      (a : ℕ) (p : Option ℕ) (s : Net) {t : Net} (o : Option ℕ)
      → Lasts env s x
      → bind_new_prefix env tginfo a p s ≡ some (t, o)
      → SameBinding s t x
  unfolding bind_new_prefix
  bind_new_prefix_keeps a none s o w r = cc
  bind_new_prefix_keeps a (some p) s o w r =
      bind_first_keeps a p (s.prefix_at p).lru_list s o w refl r

  -- The entry whose time is over, and that gives up its binding, is another one.
  cleared_keeps :
      (e : ℕ) (s : Net) {s' : Net}
      → Lasts env s x
      → (e == x) ≡ false
      → unhash e s ≡ some s'
      → SameBinding s (set_entry e (record (s'.entry e) { prenat_addr = 0 }) s') x
        × Lasts env (set_entry e (record (s'.entry e) { prenat_addr = 0 }) s') x
  unfolding unhash
  cleared_keeps e s {s'} w other q =
      let k : s' ≡ unhashed e s = ground arith in
      rw k (
        SameBinding-trans s (unhashed e s) _ x (unhashed_keeps e s other) (
            set_entry_keeps e (record ((unhashed e s).entry e) { prenat_addr = 0 }) (unhashed e s)
              other),
        elim w [
          | inl (st, off) ↦ inl (ground arith, off)
          | inr (b, l1, l2) ↦ inr (ground arith, ground arith, ground arith)
        ],
      )

  bound_tg_keeps :
      (a : ℕ) (p : Option ℕ) (e : ℕ) (s : Net) {t : Net} (o : Option ℕ)
      → Lasts env s x
      → bound_tg env tginfo a p e s ≡ some (t, o)
      → SameBinding s t x
  unfolding bound_tg
  bound_tg_keeps a p e s {t} o w r =
      let b : Entry = s.entry e in
      elim (Bool-cases (
        not (has_flag tginfo.flags flag_reuse)
        && not b.static
        && (time_before b.stamp env.jiffies && other_prefix p b.prefix))) [
          | inl y ↦ elim (Option-cases (unhash e s)) [
            | inl nil ↦ absurd (ground arith)
            | inr (s', q) ↦
                let other : (e == x) ≡ false = ground arith in
                let s2 : Net = set_entry e (record (s'.entry e) { prenat_addr = 0 }) s' in
                let (k, w2) = cleared_keeps e s w other q in
                SameBinding-trans s s2 t x k
                  (bind_new_prefix_keeps a p s2 {t = t} o w2 (ground arith))
          ]
          | inr n ↦
              let q : refresh env tginfo e s ≡ t = ground arith in rw (← q) (refresh_keeps e s)
        ]

  forward_ip_keeps :
      (saddr : ℕ) (s : Net) {t : Net} (o : Option ℕ)
      → Lasts env s x
      → forward_ip env tginfo saddr s ≡ some (t, o)
      → SameBinding s t x
  unfolding forward_ip
  forward_ip_keeps saddr s {t} o w r = elim (Option-cases (dnetmap_entry_lookup env s saddr)) [
    | inl nil ↦ elim (Bool-cases (has_flag tginfo.flags flag_static)) [
      | inl only ↦ ground arith
      | inr any ↦
          bind_new_prefix_keeps saddr (dnetmap_prefix_lookup s tginfo.prefix) s {t = t} o w
            (ground arith)
    ]
    | inr (e, q) ↦
        bound_tg_keeps saddr (dnetmap_prefix_lookup s tginfo.prefix) e s {t = t} o w (ground arith)
  ]

  reverse_tg_keeps : (daddr : ℕ) (s : Net) → SameBinding s (reverse_tg env tginfo daddr s).0 x
  unfolding reverse_tg
  reverse_tg_keeps daddr s = elim (Option-cases (dnetmap_entry_rlookup env s daddr)) [
    | inl nil ↦ rw (nil, reverse_tg) (SameBinding-same s x)
    | inr (e, q) ↦
        elim (Bool-cases (
          has_flag tginfo.flags flag_prefix
          && not (same_range tginfo.prefix (s.prefix_at (s.entry e).prefix).range))) [
            | inl y ↦ rw (q, reverse_tg) (rw y (SameBinding-same s x))
            | inr n ↦ rw (q, reverse_tg) (rw n (refresh_keeps e s))
          ]
  ]

  -- A packet leaves the binding of every entry that lasts, of a static entry that is on no lru list and
  -- of a bound entry whose time is not over by either of the two tests of the code: its addresses, the
  -- hash lists that it is found on, whether it is static, and, for a static one, that it is on no lru
  -- list.
  pub dnetmap_tg_keeps :
      (hooknum saddr daddr : ℕ) (s t : Net) (v : Verdict)
      → Lasts env s x
      → dnetmap_tg env tginfo hooknum saddr daddr s ≡ some (t, v)
      → SameBinding s t x
  unfolding dnetmap_tg
  dnetmap_tg_keeps hooknum saddr daddr s t v w r = elim (Bool-cases (hooknum == pre_routing)) [
    | inl pre ↦
        let q : (reverse_tg env tginfo daddr s).0 ≡ t = ground arith in
        rw (← q) (reverse_tg_keeps daddr s)
    | inr post ↦
        let (o, q, _) = forward_tg_lem env tginfo saddr s {t = t} {v = v} (ground arith) in
        forward_ip_keeps saddr s o w q
  ]
