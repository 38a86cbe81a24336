-- ===== src/Dnetmap/TwoWay.antt =====
-- What a packet gets at the DNETMAP target (extensions/xt_DNETMAP.c: dnetmap_tg), a packet that
-- comes back is given in reverse.
use xtables_addons.Common.{
  ℕ, ◌≡◌, ◌≢◌, refl, ap, ◌∙◌, true, false, not, ◌&&◌, Option, some, none, List, [], ◌∷◌, ◌==◌,
  has_flag, arith, Bool-cases, Option-cases, inl, inr,
}
use xtables_addons.Common.Members.{elem}
use xtables_addons.Dnetmap.{
  NatRange, Entry, Net, Env, dnetmap_entry_hash, dnetmap_entry_rlookup, first_postnat, same_range,
}
use xtables_addons.Dnetmap.Target.{
  TgInfo, Verdict, setup_info, flag_prefix, pre_routing, new_range, refresh, reverse_tg, forward_ip,
  forward_tg, forward_verdict, dnetmap_tg,
}
use xtables_addons.Dnetmap.Paired.{IsPaired}
use xtables_addons.Dnetmap.Paired.Bind.{Answers, refresh-IsPaired, refresh_same}
use xtables_addons.Dnetmap.Paired.Packets.{Outcome, forward_ip_lem}

pub forward_tg_lem :
    (env : Env) (tginfo : TgInfo) (saddr : ℕ) (s : Net) {t : Net} {v : Verdict}
    → forward_tg env tginfo saddr s ≡ some (t, v)
    → (o : Option ℕ) × (forward_ip env tginfo saddr s ≡ some (t, o))
      × (v ≡ forward_verdict tginfo o)
unfolding forward_tg
forward_tg_lem env tginfo saddr s {t} {v} r = elim (Option-cases (forward_ip env tginfo saddr s)) [
  | inl nil ↦ absurd (ground arith)
  | inr ((t', o), q) ↦ let a : t' ≡ t = ground arith in (o, rw (← a) q, ground arith)
]

new_range_addr : (mr : NatRange) (ip : ℕ) → (new_range mr ip).min_addr ≡ ip
unfolding new_range
new_range_addr mr ip = refl

pub reverse_tg_lem :
    (env : Env) (back : TgInfo) (ip prenat_ip : ℕ) (t : Net)
    → has_flag back.flags flag_prefix ≡ false
    → Answers env t prenat_ip ip
    → (reverse_tg env back ip t).1 ≡ setup_info (new_range back.prefix prenat_ip)
unfolding reverse_tg
reverse_tg_lem env back ip prenat_ip t free (e, q, a) =
    let (pa, na, rv) = refresh_same env back e e t in
    ground (arith, ap (new_range back.prefix) (pa ∙ a))

pub Answers_later :
    (env later_env : Env) (t : Net) (a ip : ℕ)
    → later_env.hash_size ≡ env.hash_size
    → Answers env t a ip
    → Answers later_env t a ip
unfolding dnetmap_entry_rlookup dnetmap_entry_hash
Answers_later env later_env t a ip same (e, q, pa) = (e, rw same q, pa)

answered :
    (env later_env : Env) (tginfo back : TgInfo) (saddr peer : ℕ) (s t : Net) (range : NatRange)
    (o : Option ℕ)
    → IsPaired env s
    → later_env.hash_size ≡ env.hash_size
    → has_flag back.flags flag_prefix ≡ false
    → forward_ip env tginfo saddr s ≡ some (t, o)
    → setup_info range ≡ forward_verdict tginfo o
    → (u : Net) × (dnetmap_tg later_env back pre_routing peer range.min_addr t
        ≡ some (u, setup_info (new_range back.prefix saddr)))
unfolding dnetmap_tg
answered env later_env tginfo back saddr peer s t range none w same free q v = absurd (ground arith)
answered env later_env tginfo back saddr peer s t range (some ip) w same free q v =
    let (w', found) = forward_ip_lem env tginfo saddr s (some ip) w q in
    let to : range.min_addr ≡ ip = ground (arith, new_range_addr tginfo.prefix ip) in
    let answer =
      reverse_tg_lem later_env back ip saddr t free
        (Answers_later env later_env t saddr ip same found) in
    ((reverse_tg later_env back ip t).0, rw to (ground arith))

-- If no two entries have one postnat address and the two hash lists are paired, and a packet from
-- `saddr` at a hook other than PREROUTING is given a new source address, then from the state after
-- it, with the clock at any later time, the binding's time over or not, a packet to that address at
-- PREROUTING is given the destination `saddr` by each rule without a prefix.
pub dnetmap_tg-dnetmap_tg :
    (env later_env : Env) (tginfo back : TgInfo) (hooknum saddr daddr peer : ℕ) (s t : Net)
    (range : NatRange)
    → IsPaired env s
    → later_env.hash_size ≡ env.hash_size
    → has_flag back.flags flag_prefix ≡ false
    → hooknum ≢ pre_routing
    → dnetmap_tg env tginfo hooknum saddr daddr s ≡ some (t, setup_info range)
    → (u : Net) × (dnetmap_tg later_env back pre_routing peer range.min_addr t
        ≡ some (u, setup_info (new_range back.prefix saddr)))
unfolding dnetmap_tg
dnetmap_tg-dnetmap_tg env later_env tginfo back hooknum saddr daddr peer s t range w same free post
      r =
    let (o, q, v) =
      forward_tg_lem env tginfo saddr s {t = t} {v = setup_info range} (ground arith) in
    answered env later_env tginfo back saddr peer s t range o w same free q v

pub first_postnat_lem :
    (entry : ℕ → Entry) (addr : ℕ) (l : List ℕ) {e : ℕ}
    → first_postnat entry addr l ≡ some e
    → elem e l ≡ true
unfolding first_postnat elem
first_postnat_lem entry addr [] r = cc
first_postnat_lem entry addr (x ∷ l) {e} r = ground (arith, first_postnat_lem entry addr l {e = e})

reverse_tg-IsPaired :
    (env : Env) (tginfo : TgInfo) (daddr : ℕ) (s : Net)
    → IsPaired env s
    → IsPaired env (reverse_tg env tginfo daddr s).0
unfolding reverse_tg dnetmap_entry_rlookup
reverse_tg-IsPaired env tginfo daddr s w = elim (Option-cases (dnetmap_entry_rlookup env s daddr)) [
  | inl nil ↦ rw (nil, reverse_tg) w
  | inr (e, q) ↦
      let h = dnetmap_entry_hash env daddr in
      let mine = w.rev_ours e h (first_postnat_lem s.entry daddr (s.rev_iphash h) q) in
      let t = refresh env tginfo e s in
      let w' : IsPaired env t = refresh-IsPaired env tginfo e s w mine in
      elim (Bool-cases (
        has_flag tginfo.flags flag_prefix
        && not (same_range tginfo.prefix (s.prefix_at (s.entry e).prefix).range))) [
          | inl y ↦ rw (q, reverse_tg) (rw y w)
          | inr n ↦ rw (q, reverse_tg) (rw n w')
        ]
]

Outcome-IsPaired : (env : Env) (a : ℕ) (t : Net) (o : Option ℕ) → Outcome env a t o → IsPaired env t
Outcome-IsPaired env a t none w = w
Outcome-IsPaired env a t (some ip) (w, _) = w

-- A packet keeps it true, whatever the hook and the verdict, that no two entries of the prefixes
-- have one postnat address, that each entry on a list by its prenat address is on the list for its
-- postnat address, and that the lists hold entries of the prefixes only.
pub dnetmap_tg-IsPaired :
    (env : Env) (tginfo : TgInfo) (hooknum saddr daddr : ℕ) (s t : Net) (v : Verdict)
    → IsPaired env s
    → dnetmap_tg env tginfo hooknum saddr daddr s ≡ some (t, v)
    → IsPaired env t
unfolding dnetmap_tg
dnetmap_tg-IsPaired env tginfo hooknum saddr daddr s t v w r =
    elim (Bool-cases (hooknum == pre_routing)) [
      | inl pre ↦
          let q : (reverse_tg env tginfo daddr s).0 ≡ t = ground arith in
          rw (← q) (reverse_tg-IsPaired env tginfo daddr s w)
      | inr post ↦
          let (o, q, _) = forward_tg_lem env tginfo saddr s {t = t} {v = v} (ground arith) in
          Outcome-IsPaired env saddr t o (forward_ip_lem env tginfo saddr s o w q)
    ]
