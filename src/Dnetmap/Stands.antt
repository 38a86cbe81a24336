-- ===== src/Dnetmap/Stands.antt =====
-- A static binding stands while packets pass (extensions/xt_DNETMAP.c: dnetmap_tg_proc_write,
-- dnetmap_tg).
use xtables_addons.Common.{
  ℕ, ◌≡◌, sym, ◌∙◌, true, false, some, has_flag, arith, Option-cases, inl, inr,
}
use mathlib.Core.Path.{subst}
use xtables_addons.Common.Members.{elem, elem-remove, elem-snoc}
use xtables_addons.Dnetmap.{Net, Env, dnetmap_entry_hash, dnetmap_entry_rlookup, rehashed}
use xtables_addons.Dnetmap.Target.{
  TgInfo, Verdict, setup_info, flag_prefix, new_range, reverse_tg, dnetmap_tg,
}
use xtables_addons.Dnetmap.Paired.{IsPaired, rlookup_paired}
use xtables_addons.Dnetmap.Paired.Bind.{Answers}
use xtables_addons.Dnetmap.TwoWay.{reverse_tg_lem, Answers_later, dnetmap_tg-IsPaired}
use xtables_addons.Dnetmap.Kept.{SameBinding, Lasts, dnetmap_tg_keeps}
use xtables_addons.Dnetmap.Static.{off_lru, make_static_result, entry_for_lem, add_binding_lem}
use xtables_addons.Dnetmap.Proc.{written, entry_for, make_static, add_binding, add_checked}

-- A static entry for the two addresses that is found by its postnat address and is on no lru list.
record Stands (env : Env) (addr1 addr2 : ℕ) (s : Net) : Type 0 where
  pub entry : ℕ
  pub prenat : (s.entry entry).prenat_addr ≡ addr1
  pub postnat : (s.entry entry).postnat_addr ≡ addr2
  pub found : elem entry (s.rev_iphash (dnetmap_entry_hash env addr2)) ≡ true
  pub static : (s.entry entry).static ≡ true
  pub off : (p : ℕ) → elem entry (s.prefix_at p).lru_list ≡ false

module _ (env : Env) where
  make_static-Stands :
      (addr1 addr2 e : ℕ) (s : Net) {t : Net}
      → (s.entry e).postnat_addr ≡ addr2
      → make_static env addr1 e s ≡ some t
      → Stands env addr1 addr2 t
  make_static-Stands addr1 addr2 e s {t} at r =
      let s1 = off_lru env addr1 e s in
      let addr : (s1.entry e).postnat_addr ≡ addr2 = ground (arith, at) in
      rw (make_static_result env addr1 e s r) (record {
        entry = e;
        prenat = ground arith;
        postnat = ground (arith, at);
        found =
            subst (λ a. elem e ((rehashed env e s1).rev_iphash (dnetmap_entry_hash env a)) ≡ true)
              addr
              (ground (
                arith,
                elem-snoc e e (s.rev_iphash (dnetmap_entry_hash env (s1.entry e).postnat_addr)),
              ));
        static = ground arith;
        off = λ p. ground (arith, elem-remove e e (s.prefix_at p).lru_list);
      })

  add_binding-Stands :
      (addr1 addr2 p : ℕ) (s t : Net)
      → IsPaired env s
      → ((x : ℕ) → elem x (s.prefix_at p).elist ≡ true → (s.entry x).prefix ≡ p)
      → add_binding env addr1 addr2 p s ≡ some t
      → Stands env addr1 addr2 t
  unfolding add_binding
  add_binding-Stands addr1 addr2 p s t w own r = elim (Option-cases (entry_for env addr2 p s)) [
    | inl nil ↦ absurd (ground arith)
    | inr ((e, s'), q) ↦
        let (w', mine, at) = entry_for_lem env addr2 p e s s' w own q in
        make_static-Stands addr1 addr2 e s' {t = t} at (ground arith)
  ]

  IsPaired-later :
      (later_env : Env) (s : Net)
      → later_env.hash_size ≡ env.hash_size
      → IsPaired env s
      → IsPaired later_env s
  unfolding dnetmap_entry_hash
  IsPaired-later later_env s same w = record {
    one_entry = w.one_entry;
    reversed = λ x h m. rw same (w.reversed x h m);
    rev_ours = w.rev_ours;
    lru_ours = w.lru_ours;
  }

-- A state later on: after packets at any hook, by any rules and at any times.
pub data Passed (size : ℕ) : Net → Net → Type 0 where
  none_yet : {s : Net} → Passed size s s
  one_more :
      {s t u : Net} {v : Verdict} (env : Env) (tginfo : TgInfo) (hooknum saddr daddr : ℕ)
      → Passed size s t
      → env.hash_size ≡ size
      → dnetmap_tg env tginfo hooknum saddr daddr t ≡ some (u, v)
      → Passed size s u

SameBinding-Stands :
    (env : Env) (addr1 addr2 : ℕ) (s t : Net)
    → ((x : ℕ) → Lasts env s x → SameBinding s t x)
    → Stands env addr1 addr2 s
    → Stands env addr1 addr2 t
SameBinding-Stands env addr1 addr2 s t keeps is =
    let same = keeps is.entry (inl (is.static, is.off)) in
    record {
      entry = is.entry;
      prenat = same.prenat ∙ is.prenat;
      postnat = same.postnat ∙ is.postnat;
      found = same.found_back (dnetmap_entry_hash env addr2) ∙ is.found;
      static = same.static ∙ is.static;
      off = λ p. same.off p is.static (is.off p);
    }

Stands-later :
    (env later_env : Env) (addr1 addr2 : ℕ) (s : Net)
    → later_env.hash_size ≡ env.hash_size
    → Stands env addr1 addr2 s
    → Stands later_env addr1 addr2 s
unfolding dnetmap_entry_hash
Stands-later env later_env addr1 addr2 s same is = record {
  entry = is.entry;
  prenat = is.prenat;
  postnat = is.postnat;
  found = rw same is.found;
  static = is.static;
  off = is.off;
}

Passed-Stands :
    (env : Env) (addr1 addr2 : ℕ) (s t : Net)
    → Passed env.hash_size s t
    → IsPaired env s
    → Stands env addr1 addr2 s
    → IsPaired env t × Stands env addr1 addr2 t
Passed-Stands env addr1 addr2 s t none_yet w is = (w, is)
Passed-Stands env addr1 addr2 s t
      (one_more {t = m} {v = v} now tginfo hooknum saddr daddr before same r) w is =
    let (wm, ism) = Passed-Stands env addr1 addr2 s m before w is in
    let w' = IsPaired-later env now m same wm in
    let is' = Stands-later env now addr1 addr2 m same ism in
    let after =
      SameBinding-Stands now addr1 addr2 m t
        (λ x lasts. dnetmap_tg_keeps now tginfo x hooknum saddr daddr m t v lasts r) is' in
    (
      IsPaired-later now env t (sym same)
          (dnetmap_tg-IsPaired now tginfo hooknum saddr daddr m t v w' r),
      Stands-later now env addr1 addr2 t (sym same) after,
    )

Stands-Answers :
    (env : Env) (addr1 addr2 : ℕ) (s : Net)
    → IsPaired env s
    → Stands env addr1 addr2 s
    → Answers env s addr1 addr2
Stands-Answers env addr1 addr2 s w is =
    let m =
      subst (λ a. elem is.entry (s.rev_iphash (dnetmap_entry_hash env a)) ≡ true) (sym is.postnat)
        is.found in
    let q = rlookup_paired env s is.entry w m in
    (is.entry, subst (λ a. dnetmap_entry_rlookup env s a ≡ some is.entry) is.postnat q, is.prenat)

-- If no two entries have one postnat address, the hash lists are paired, and the entries of the prefix
-- `p` carry `p`, then a static binding of `addr1` to `addr2` that the file of `p` accepts keeps the
-- pairing, and after any packets at any hooks, by any rules and at any times, a packet to `addr2` at
-- PREROUTING is given the destination `addr1` by each rule without a prefix.
pub add_checked-reverse_tg :
    (env later_env : Env) (back : TgInfo) (size n addr1 addr2 p : ℕ) (s t u : Net)
    → IsPaired env s
    → ((x : ℕ) → elem x (s.prefix_at p).elist ≡ true → (s.entry x).prefix ≡ p)
    → later_env.hash_size ≡ env.hash_size
    → has_flag back.flags flag_prefix ≡ false
    → add_checked env size addr1 addr2 p s ≡ written n t
    → Passed env.hash_size t u
    → IsPaired env u
      × ((reverse_tg later_env back addr2 u).1 ≡ setup_info (new_range back.prefix addr1))
unfolding add_checked
add_checked-reverse_tg env later_env back size n addr1 addr2 p s t u w own same free r passed =
    elim (Option-cases (add_binding env addr1 addr2 p s)) [
      | inl nil ↦ absurd (ground arith)
      | inr (t', q) ↦
          let a : t' ≡ t = ground arith in
          let made : add_binding env addr1 addr2 p s ≡ some t = rw (← a) q in
          let (wt, _) = add_binding_lem env addr1 addr2 p s t w own made in
          let is = add_binding-Stands env addr1 addr2 p s t w own made in
          let (wu, isu) = Passed-Stands env addr1 addr2 t u passed wt is in
          let ans = Stands-Answers env addr1 addr2 u wu isu in
          (
            wu,
            reverse_tg_lem later_env back addr2 addr1 u free
                (Answers_later env later_env u addr1 addr2 same ans),
          )
    ]
