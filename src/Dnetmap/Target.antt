-- ===== src/Dnetmap/Target.antt =====
-- A packet at the DNETMAP target (extensions/xt_DNETMAP.c: dnetmap_tg). The lock is held from the
-- lookup to the choice of the address. `none` is a fault of the kernel: a prefix pointer that is
-- NULL, an entry read off an empty list, or a list node that is not where the code expects it.
use xtables_addons.Common.{
  ℕ, ◌*◌, ◌%◌, ◌^◌, Bool, true, false, not, ◌&&◌, Option, some, none, List, [], ◌∷◌, leb, ◌==◌,
  if◌then◌else◌, bit_or, has_flag,
}
use xtables_addons.Common.Words.{u32_mod}
use xtables_addons.Dnetmap.{
  NatRange, Net, Env, same_range, set_entry, set_prefix, dnetmap_entry_lookup,
  dnetmap_entry_rlookup, dnetmap_prefix_lookup, unhash, rehash, move_tail, time_before, later,
}

-- struct xt_DNETMAP_tginfo; `ttl` by its bits
pub record TgInfo : Type 0 where
  pub prefix : NatRange
  pub flags : ℕ
  pub ttl : ℕ

-- XT_DNETMAP_TTL, XT_DNETMAP_REUSE, XT_DNETMAP_PREFIX, XT_DNETMAP_STATIC, XT_DNETMAP_PERSISTENT
abbrev pub flag_ttl : ℕ
flag_ttl = 1

abbrev pub flag_reuse : ℕ
flag_reuse = 2

abbrev pub flag_prefix : ℕ
flag_prefix = 4

abbrev pub flag_static : ℕ
flag_static = 8

abbrev pub flag_persistent : ℕ
flag_persistent = 16

-- NF_NAT_RANGE_MAP_IPS
abbrev pub map_ips : ℕ
map_ips = 1

-- NF_INET_PRE_ROUTING
abbrev pub pre_routing : ℕ
pre_routing = 0

-- XT_CONTINUE, or the call of nf_nat_setup_info
pub data Verdict : Type 0 where
  xt_continue : Verdict
  setup_info : NatRange → Verdict

unfoldable pub jttl : Env → TgInfo → ℕ
jttl env tginfo =
    if has_flag tginfo.flags flag_ttl then tginfo.ttl * env.hz % u32_mod else env.jtimeout % u32_mod

-- `newrange`
unfoldable pub new_range : NatRange → ℕ → NatRange
new_range mr ip = record {
  flags = bit_or mr.flags map_ips;
  min_addr = ip;
  max_addr = ip;
  min_proto = mr.min_proto;
  max_proto = mr.max_proto;
}

-- A hit on the binding; a negative time leaves the timer.
unfoldable pub refresh : Env → TgInfo → ℕ → Net → Net
refresh env tginfo e s =
    let b = s.entry e in
    if not (leb (2 ^ 31) (jttl env tginfo)) && not b.static
    then move_tail e b.prefix
        (set_entry e (record b { stamp = later env.jiffies (jttl env tginfo) }) s)
    else s

-- NF_INET_PRE_ROUTING: from the postnat to the prenat address
unfoldable pub reverse_tg : Env → TgInfo → ℕ → Net → Net × Verdict
reverse_tg env tginfo daddr s = elim (dnetmap_entry_rlookup env s daddr) [
  | none ↦ (s, xt_continue)
  | some e ↦
      if has_flag tginfo.flags flag_prefix
        && not (same_range tginfo.prefix (s.prefix_at (s.entry e).prefix).range)
      then (s, xt_continue)
      else (
        refresh env tginfo e s,
        setup_info (new_range tginfo.prefix ((refresh env tginfo e s).entry e).prenat_addr),
      )
]

-- The binding of the entry to the source address.
unfoldable pub bind_entry : Env → TgInfo → ℕ → ℕ → ℕ → Net → Option (Net × ℕ)
bind_entry env tginfo prenat_ip e p s =
    let b = record (s.entry e) {
      prenat_addr = prenat_ip;
      stamp = later env.jiffies (jttl env tginfo);
    } in
    elim (rehash env e (move_tail e p (set_entry e b s))) [
      | none ↦ none
      | some s' ↦ some (s', (s.entry e).postnat_addr)
    ]

-- An entry that is bound to some address loses that binding.
unfoldable pub timeout_binding : ℕ → Net → Option Net
timeout_binding e s = if not ((s.entry e).prenat_addr == 0) then unhash e s else some s

-- The label `bind_new_prefix`: the state and the address, if one is free.
unfoldable pub bind_first : Env → TgInfo → ℕ → ℕ → List ℕ → Net → Option (Net × Option ℕ)
bind_first env tginfo prenat_ip p [] s = none
bind_first env tginfo prenat_ip p (e ∷ l) s =
    let b = s.prefix_at p in
    if not ((s.entry e).prenat_addr == 0) && time_before env.jiffies (s.entry e).stamp
    then some (
      (if not env.disable_log && not b.full then set_prefix p (record b { full = true }) s else s),
      none,
    )
    else elim (timeout_binding e (set_prefix p (record b { full = false }) s)) [
      | none ↦ none
      | some s' ↦ elim (bind_entry env tginfo prenat_ip e p s') [
        | none ↦ none
        | some (t, ip) ↦ some (t, some ip)
      ]
    ]

unfoldable pub bind_new_prefix : Env → TgInfo → ℕ → Option ℕ → Net → Option (Net × Option ℕ)
bind_new_prefix env tginfo prenat_ip none s = none
bind_new_prefix env tginfo prenat_ip (some p) s =
    bind_first env tginfo prenat_ip p (s.prefix_at p).lru_list s

-- `p != e->prefix`
abbrev pub other_prefix : Option ℕ → ℕ → Bool
other_prefix none q = true
other_prefix (some p) q = not (p == q)

-- A source address that is bound already.
unfoldable pub bound_tg : Env → TgInfo → ℕ → Option ℕ → ℕ → Net → Option (Net × Option ℕ)
bound_tg env tginfo prenat_ip p e s =
    let b = s.entry e in
    if not (has_flag tginfo.flags flag_reuse)
      && not b.static
      && (time_before b.stamp env.jiffies && other_prefix p b.prefix)
    then elim (unhash e s) [
      | none ↦ none
      | some s' ↦
          bind_new_prefix env tginfo prenat_ip p
            (set_entry e (record (s'.entry e) { prenat_addr = 0 }) s')
    ]
    else some (refresh env tginfo e s, some b.postnat_addr)

unfoldable pub forward_ip : Env → TgInfo → ℕ → Net → Option (Net × Option ℕ)
forward_ip env tginfo saddr s = elim (dnetmap_entry_lookup env s saddr) [
  | none ↦
      if has_flag tginfo.flags flag_static
      then some (s, none)
      else bind_new_prefix env tginfo saddr (dnetmap_prefix_lookup s tginfo.prefix) s
  | some e ↦ bound_tg env tginfo saddr (dnetmap_prefix_lookup s tginfo.prefix) e s
]

abbrev pub forward_verdict : TgInfo → Option ℕ → Verdict
forward_verdict tginfo none = xt_continue
forward_verdict tginfo (some ip) = setup_info (new_range tginfo.prefix ip)

-- Any other hook: from the prenat to a postnat address
unfoldable pub forward_tg : Env → TgInfo → ℕ → Net → Option (Net × Verdict)
forward_tg env tginfo saddr s = elim (forward_ip env tginfo saddr s) [
  | none ↦ none
  | some (t, ip) ↦ some (t, forward_verdict tginfo ip)
]

unfoldable pub dnetmap_tg : Env → TgInfo → ℕ → ℕ → ℕ → Net → Option (Net × Verdict)
dnetmap_tg env tginfo hooknum saddr daddr s =
    if hooknum == pre_routing
    then some (reverse_tg env tginfo daddr s)
    else forward_tg env tginfo saddr s
