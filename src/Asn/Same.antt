-- ===== src/Asn/Same.antt =====
-- extensions/xt_asn.c does with numbers what extensions/xt_geoip.c does with countries.
use xtables_addons.Common.{
  ℕ, zero, suc, ◌+◌, ◌-◌, ◌*◌, ◌/◌, ◌%◌, ◌<◌, arith, has_flag, ◌≡◌, refl, ap, ◌∙◌, Bool, true,
  false, not, ◌&&◌, Option, some, none, List, [], ◌∷◌, ◌++◌, map, ltb, ◌==◌, if◌then◌else◌,
  get_elem?, Bool-cases, Option-cases, inl, inr,
}
use xtables_addons.Common.Words.{ntohl, u16_mod}
use xtables_addons.Refs.{Node, get_ref, put_ref, deref}
use xtables_addons.Geoip.Search.{
  Subnet4, Subnet6, In6Addr, Search, hit, miss, warned, unsafe, unfinished, bsearch4_loop,
  bsearch6_loop, geoip_bsearch4, geoip_bsearch6,
}
use xtables_addons.Geoip.Match.{
  Country, found, or_else_country, invert, int_of_count, any_country, xt_geoip_mt4, xt_geoip_mt6,
}
use xtables_addons.Geoip.Load.{
  Env, CountryUser, Heads, Added, added, failed, Loaded, loaded, refused, size_max, geoip_add_node,
  find_node, load_country, before, check_next, xt_geoip_mt_checkentry, geoip_try_remove_node,
  xt_geoip_mt_destroy,
}
use xtables_addons.Asn.Search.{asn_loop4, asn_loop6, asn_bsearch4, asn_bsearch6}
use xtables_addons.Asn.Match.{
  AsnNumber, asn_found, asn_or_else, asn_invert, asn_host_order, xt_asn_src, any_number, xt_asn_mt4,
  xt_asn_mt6,
}
use xtables_addons.Asn.Load.{
  AsnEnv, AsnUser, AsnHead, AsnAdded, asn_added, asn_failed, asn_add_node, asn_find_node,
  load_number, asn_before, asn_next, xt_asn_mt_checkentry, asn_try_remove_node, xt_asn_mt_destroy,
}

loops4 :
    (fuel : ℕ) (range : List Subnet4) (addr lo hi : ℕ)
    → asn_loop4 fuel range addr lo hi ≡ bsearch4_loop fuel range addr lo hi
unfolding asn_loop4 bsearch4_loop
loops4 zero range addr lo hi = refl
loops4 (suc fuel) range addr lo hi =
    let left = loops4 fuel range addr lo ((lo + hi) / 2) in
    let right = loops4 fuel range addr ((lo + hi) / 2 + 1) hi in
    elim (Option-cases (get_elem? range ((lo + hi) / 2))) [
      | inl absent ↦ rw absent refl
      | inr (s, e) ↦ rw (e, left, right) refl
    ]

loops6 :
    (fuel : ℕ) (range : List Subnet6) (addr : In6Addr) (lo hi : ℕ)
    → asn_loop6 fuel range addr lo hi ≡ bsearch6_loop fuel range addr lo hi
unfolding asn_loop6 bsearch6_loop
loops6 zero range addr lo hi = refl
loops6 (suc fuel) range addr lo hi =
    let left = loops6 fuel range addr lo ((lo + hi) / 2) in
    let right = loops6 fuel range addr ((lo + hi) / 2 + 1) hi in
    elim (Option-cases (get_elem? range ((lo + hi) / 2))) [
      | inl absent ↦ rw absent refl
      | inr (s, e) ↦ rw (e, left, right) refl
    ]

abbrev pub as_user : Option AsnUser → Option CountryUser
as_user none = none
as_user (some u) = some (record { subnets = u.subnets; count = u.count; cc = u.asn })

answers :
    (r : Search) (rest : Option Bool)
    → asn_or_else (asn_found r) rest ≡ or_else_country (found r) rest
unfolding asn_found found
answers hit rest = refl
answers miss rest = refl
answers warned rest = refl
answers unsafe rest = refl
answers unfinished rest = refl

-- The number that user memory holds fits the 16 bits of a country code.
abbrev pub IsShort : Option AsnUser → Type 0
IsShort none = Unit
IsShort (some u) = u.asn < u16_mod

-- The numbers of a rule that fit the 16 bits of a country code.
abbrev pub AllShort : List (ℕ × ℕ) → Type 0
AllShort [] = Unit
AllShort ((asn, ptr) ∷ numbers) = (asn < u16_mod) × AllShort numbers

module _ {S : Type 0} where
  abbrev pub as_country : AsnNumber S → Country S
  as_country n = record { cc = n.asn; count = n.count; subnets = n.subnets }

  abbrev pub as_node : Node (AsnNumber S) → Node (Country S)
  as_node n = record { id = n.id; ref = n.ref; body = as_country n.body }

  abbrev pub as_heads : AsnHead S → Heads S
  as_heads head = record { next = head.next; nodes = map as_node head.nodes }

  abbrev pub as_env : AsnEnv S → Env S
  as_env env = record {
    subnet_size = env.subnet_size;
    country_at = λ ptr. as_user (env.number_at ptr);
    subnets_at = env.subnets_at;
    kmalloc_ok = env.kmalloc_ok;
    vmalloc_ok = env.vmalloc_ok;
  }

  abbrev pub as_added : AsnAdded S → Added S
  as_added (asn_added i head) = added i (as_heads head)
  as_added (asn_failed e) = failed e

  abbrev as_body : Option (AsnNumber S) → Option (Country S)
  as_body none = none
  as_body (some n) = some (as_country n)

  deref-map :
      (i : ℕ) (nodes : List (Node (AsnNumber S)))
      → deref i (map as_node nodes) ≡ as_body (deref i nodes)
  unfolding deref
  deref-map i [] = refl
  deref-map i (n ∷ nodes) = elim (Bool-cases (n.id == i)) [
    | inl here ↦ rw here refl
    | inr other ↦ rw other (deref-map i nodes)
  ]

  put_ref-map :
      (i : ℕ) (nodes : List (Node (AsnNumber S)))
      → put_ref i (map as_node nodes) ≡ map as_node (put_ref i nodes)
  unfolding put_ref
  put_ref-map i [] = refl
  put_ref-map i (n ∷ nodes) = elim (Bool-cases (n.id == i)) [
    | inl here ↦
        rw here
          (elim (Bool-cases (n.ref == 1)) [ inl last ↦ rw last refl | inr more ↦ rw more refl ])
    | inr other ↦ rw other (ap (λ l. as_node n ∷ l) (put_ref-map i nodes))
  ]

  abbrev as_found : Option (ℕ × List (Node (AsnNumber S))) → Option (ℕ × List (Node (Country S)))
  as_found none = none
  as_found (some (i, nodes)) = some (i, map as_node nodes)

  get_ref-map :
      (asn : ℕ) (nodes : List (Node (AsnNumber S)))
      → get_ref (λ c. c.cc == asn) (map as_node nodes)
        ≡ as_found (get_ref (λ n. n.asn == asn) nodes)
  unfolding get_ref
  get_ref-map asn [] = refl
  get_ref-map asn (n ∷ nodes) = elim (Bool-cases (n.body.asn == asn)) [
    | inl here ↦ rw here refl
    | inr other ↦
        rw (other, get_ref-map asn nodes)
          (elim (Option-cases (get_ref (λ n. n.asn == asn) nodes)) [
            | inl absent ↦ rw absent refl
            | inr (found, e) ↦ rw e refl
          ])
  ]

  any_same :
      (search other : List S → ℕ → Search) (nodes : List (Node (AsnNumber S)))
      (mem : List (Option ℕ))
      → ((range : List S) (hi : ℕ) → search range hi ≡ other range hi)
      → any_number search nodes mem ≡ any_country other (map as_node nodes) mem
  unfolding any_number any_country
  any_same search other nodes [] same = refl
  any_same search other nodes (none ∷ mem) same = any_same search other nodes mem same
  any_same search other nodes (some i ∷ mem) same =
      rw (deref-map i nodes, any_same search other nodes mem same)
        (elim (Option-cases (deref i nodes)) [
          | inl freed ↦ rw freed refl
          | inr (n, e) ↦
              rw (e, same n.subnets (int_of_count n.count))
                (answers (other n.subnets (int_of_count n.count)) _)
        ])

  map_append :
      (nodes : List (Node (AsnNumber S))) (n : Node (AsnNumber S))
      → map as_node (nodes ++ n ∷ []) ≡ map as_node nodes ++ as_node n ∷ []
  map_append [] n = refl
  map_append (m ∷ nodes) n = ap (λ l. as_node m ∷ l) (map_append nodes n)

  link_same :
      (env : AsnEnv S) (ptr : ℕ) (head : AsnHead S)
      → IsShort (env.number_at ptr)
      → as_added (asn_add_node env ptr head) ≡ geoip_add_node (as_env env) ptr (as_heads head)
  unfolding asn_add_node geoip_add_node
  link_same env ptr head short = elim (Option-cases (env.number_at ptr)) [
    | inl absent ↦ rw absent refl
    | inr (umem, e) ↦
        let size = umem.count * env.subnet_size in
        let subnets = if size == 0 then some [] else env.subnets_at umem.subnets umem.count in
        let small : IsShort (some umem) = (rw e at short) in
        let code : umem.asn % u16_mod ≡ umem.asn = omega (arith, small) in
        rw e (elim (Bool-cases (ltb (size_max / env.subnet_size) umem.count)) [
          | inl big ↦ rw big refl
          | inr fits ↦ rw fits (elim (Bool-cases (env.kmalloc_ok ptr)) [
            | inr fails ↦ rw fails refl
            | inl node ↦
                rw node (elim (Bool-cases (not (size == 0) && not (env.vmalloc_ok ptr size))) [
                  | inl fails ↦ rw fails refl
                  | inr room ↦ rw room (elim (Option-cases subnets) [
                    | inl fault ↦ rw fault refl
                    | inr (ranges, q) ↦ rw (q, code, map_append head.nodes _) refl
                  ])
                ])
          ])
        ])
  ]

  load_same :
      (env : AsnEnv S) (asn ptr : ℕ) (head : AsnHead S)
      → asn < u16_mod
      → ((p : ℕ) → IsShort (env.number_at p))
      → as_added (load_number env asn ptr head) ≡ load_country (as_env env) asn ptr (as_heads head)
  unfolding load_number load_country asn_find_node find_node
  load_same env asn ptr head low short =
      let code : asn % u16_mod ≡ asn = omega arith in
      rw (code, get_ref-map asn head.nodes)
        (elim (Option-cases (get_ref (λ n. n.asn == asn) head.nodes)) [
          | inl absent ↦ rw absent (link_same env ptr head (short ptr))
          | inr (found, e) ↦ rw e refl
        ])

  abbrev pub as_result : Loaded × AsnHead S → Loaded × Heads S
  as_result (l, head) = (l, as_heads head)

  before_same :
      (i : ℕ) (r : Loaded × AsnHead S) → as_result (asn_before i r) ≡ before i (as_result r)
  unfolding asn_before before
  before_same i (loaded is, head) = refl
  before_same i (refused e, head) = refl

  next_same :
      (f : AsnHead S → Loaded × AsnHead S) (g : Heads S → Loaded × Heads S) (head : AsnHead S)
      (r : AsnAdded S)
      → ((h : AsnHead S) → as_result (f h) ≡ g (as_heads h))
      → as_result (asn_next f head r) ≡ check_next g (as_heads head) (as_added r)
  unfolding asn_next check_next
  next_same f g head (asn_failed e) same = refl
  next_same f g head (asn_added i next) same = before_same i (f next) ∙ ap (before i) (same next)

  -- Where the numbers of a rule and those in user memory are below 2^16, loading the numbers goes as
  -- loading the countries with the same codes: it ends alike, with the same pointers or the same error,
  -- and leaves the same objects with the same references.
  pub xt_asn_mt_checkentry-geoip :
      (env : AsnEnv S) (numbers : List (ℕ × ℕ)) (head : AsnHead S)
      → AllShort numbers
      → ((p : ℕ) → IsShort (env.number_at p))
      → as_result (xt_asn_mt_checkentry env numbers head)
        ≡ xt_geoip_mt_checkentry (as_env env) numbers (as_heads head)
  unfolding xt_asn_mt_checkentry xt_geoip_mt_checkentry
  xt_asn_mt_checkentry-geoip env [] head low short = refl
  xt_asn_mt_checkentry-geoip env ((asn, ptr) ∷ numbers) head low short =
      next_same (xt_asn_mt_checkentry env numbers) (xt_geoip_mt_checkentry (as_env env) numbers)
        head (load_number env asn ptr head)
        (λ h. xt_asn_mt_checkentry-geoip env numbers h low.1 short)
      ∙ ap (check_next (xt_geoip_mt_checkentry (as_env env) numbers) (as_heads head))
          (load_same env asn ptr head low.0 short)

  pub xt_asn_mt_destroy-geoip :
      (mem : List ℕ) (head : AsnHead S)
      → as_heads (xt_asn_mt_destroy mem head) ≡ xt_geoip_mt_destroy mem (as_heads head)
  unfolding xt_asn_mt_destroy xt_geoip_mt_destroy asn_try_remove_node geoip_try_remove_node
  xt_asn_mt_destroy-geoip [] head = refl
  xt_asn_mt_destroy-geoip (i ∷ mem) head =
      rw (put_ref-map i head.nodes) (xt_asn_mt_destroy-geoip mem (asn_try_remove_node i head))

inverted : (flags : ℕ) (o : Option Bool) → asn_invert flags o ≡ invert flags o
inverted flags none = refl
inverted flags (some true) = refl
inverted flags (some false) = refl

-- For the same numbers as for countries, the IPv4 match of asn answers as that of geoip does.
xt_asn_mt4-geoip_mt4 :
    (nodes : List (Node (AsnNumber Subnet4))) (flags : ℕ) (mem : List (Option ℕ)) (saddr daddr : ℕ)
    → xt_asn_mt4 nodes flags mem saddr daddr
      ≡ xt_geoip_mt4 (map as_node nodes) flags mem saddr daddr
unfolding xt_asn_mt4 xt_geoip_mt4 asn_bsearch4 geoip_bsearch4
xt_asn_mt4-geoip_mt4 nodes flags mem saddr daddr =
    let ip = ntohl (if has_flag flags xt_asn_src then saddr else daddr) in
    let same =
      any_same (λ range hi. asn_bsearch4 range ip 0 hi) (λ range hi. geoip_bsearch4 range ip 0 hi)
        nodes mem (λ range hi. loops4 (suc (hi - 0)) range ip 0 hi) in
    rw same (inverted flags _)

-- For the same numbers as for countries, the IPv6 match of asn answers as that of geoip does.
pub xt_asn_mt6-geoip_mt6 :
    (nodes : List (Node (AsnNumber Subnet6))) (flags : ℕ) (mem : List (Option ℕ))
    (saddr daddr : In6Addr)
    → xt_asn_mt6 nodes flags mem saddr daddr
      ≡ xt_geoip_mt6 (map as_node nodes) flags mem saddr daddr
unfolding xt_asn_mt6 xt_geoip_mt6 asn_bsearch6 geoip_bsearch6
xt_asn_mt6-geoip_mt6 nodes flags mem saddr daddr =
    let ip = asn_host_order (if has_flag flags xt_asn_src then saddr else daddr) in
    let same =
      any_same (λ range hi. asn_bsearch6 range ip 0 hi) (λ range hi. geoip_bsearch6 range ip 0 hi)
        nodes mem (λ range hi. loops6 (suc (hi - 0)) range ip 0 hi) in
    rw same (inverted flags _)
