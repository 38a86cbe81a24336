-- ===== src/Psd/Table/Packets.antt =====
-- `handle_packet4` and `handle_packet6` of extensions/xt_psd.c keep the table of sources in order.
use xtables_addons.Common.{
  ℕ, ◌≤◌, ◌<◌, ◌≡◌, refl, true, false, ◌&&◌, Option, some, none, List, [], ◌∷◌, ◌++◌, leb, ◌==◌,
  length, arith, Bool-cases, inl, inr,
}
use xtables_addons.Psd.Scan.{PsdInfo, TcpHdr, ipproto_tcp, entry_is_recent}
use xtables_addons.Psd.Table.{
  Address, Entry, State, Walk, missing, at_place, past, set_at, last_of, find_host, hash_max,
  release, link, shorten, new_source, expire, on_walk, handle_packet,
}
use xtables_addons.Psd.Table.Order.{
  elem, length-Within, cut_behind-Within, cut_behind_shorter, last_of_long, split-Within,
  split_shorter, elem_middle, split_gone,
}
use xtables_addons.Psd.Table.Kept.{
  IsState, shrink-IsState, retire-IsState, scanned-IsState, release-IsState, release-Within,
  release_index, release_free, link-IsState,
}

module _ {A : Type 0} (address : Address A) where
  -- A new entry goes in where a place is left in its chain.
  enter-IsState :
      (now : ℕ) (psdinfo : PsdInfo) (tcph : TcpHdr) (proto : ℕ) (saddr : A) (last : Option ℕ)
      (s : State A)
      → IsState address s
      → length (s.chain (address.hash saddr)) < hash_max
      → address.is_any saddr ≡ false
      → IsState address (
          link address now psdinfo tcph proto saddr
            (address.hash saddr)
            (release address (address.hash saddr) last s))
  unfolding release
  enter-IsState now psdinfo tcph proto saddr last s ok room named =
      let hash = address.hash saddr in
      let less : length ((release address hash last s).chain hash) ≤ length (s.chain hash) =
        length-Within (release-Within address hash last s hash) in
      let index : (release address hash last s).index ≡ s.index =
        release_index address hash last s in
      link-IsState address now psdinfo tcph proto saddr (release address hash last s)
        (release-IsState address hash last s ok)
        (λ h. rw index (release_free address hash last s ok h)) (omega (arith, less, room)) named

  shorten-IsState :
      (hash count : ℕ) (last : Option ℕ) (s : State A)
      → IsState address s
      → IsState address (shorten address hash count last s)
  unfolding shorten
  shorten-IsState hash count none s ok = ok
  shorten-IsState hash count (some l) s ok = elim (Bool-cases (leb hash_max count)) [
    | inl many ↦ rw many (shrink-IsState address s hash _ ok (cut_behind-Within l (s.chain hash)))
    | inr few ↦ rw few ok
  ]

  shorten_room :
      (hash : ℕ) (last : Option ℕ) (s : State A)
      → IsState address s
      → last_of (s.chain hash) ≡ last
      → length ((shorten address hash (length (s.chain hash)) last s).chain hash) < hash_max
  unfolding shorten
  shorten_room hash none s ok e = let few = last_of_long (s.chain hash) e in omega (arith, few)
  shorten_room hash (some l) s ok e = elim (Bool-cases (leb hash_max (length (s.chain hash)))) [
    | inl many ↦
        let less = cut_behind_shorter l (s.chain hash) e in
        let here : (hash == hash) ≡ true = ground arith in
        let bound = ok.short hash in rw (many, here) (omega (arith, less, bound))
    | inr few ↦ rw few (ground arith)
  ]

  -- A walk finds a place of the chain.
  abbrev Splits : List ℕ → Walk → Type 0
  Splits c missing = Unit
  Splits c (at_place before i behind) = c ≡ before ++ i ∷ behind

  past-Splits : (j : ℕ) (c : List ℕ) (w : Walk) → Splits c w → Splits (j ∷ c) (past j w)
  past-Splits j c missing e = tt
  past-Splits j c (at_place before i behind) e = rw e refl

  find_host-Splits :
      (saddr : A) (list : ℕ → Entry A) (c : List ℕ) → Splits c (find_host address saddr list c)
  unfolding find_host
  find_host-Splits saddr list [] = tt
  find_host-Splits saddr list (j ∷ c) = elim (Bool-cases (address.equal (list j).saddr saddr)) [
    | inl same ↦ rw same refl
    | inr other ↦
        rw other (past-Splits j c (find_host address saddr list c) (find_host-Splits saddr list c))
  ]

  -- The entry at a place of a chain is in no chain once it is taken out of that one.
  expired_free :
      (s : State A) (hash i : ℕ) (before behind : List ℕ)
      → IsState address s
      → s.chain hash ≡ before ++ i ∷ behind
      → (h : ℕ) → elem i (set_at s.chain hash (before ++ behind) h) ≡ false
  expired_free s hash i before behind ok e h = elim (Bool-cases (h == hash)) [
    | inl here ↦ rw here (split_gone before behind i (rw (← e) (ok.once hash)))
    | inr other ↦ rw other (elim (Bool-cases (elem i (s.chain h))) [
      | inr gone ↦ gone
      | inl there ↦
          let home_h = (ok.home h i there).1 in
          let home_hash = (ok.home hash i (rw e (elem_middle before behind i))).1 in ground arith
    ])
  ]

  expire-IsState :
      (s : State A) (hash i : ℕ) (before behind : List ℕ)
      → IsState address s
      → s.chain hash ≡ before ++ i ∷ behind
      → IsState address (expire address hash before i behind s)
  unfolding expire
  expire-IsState s hash i before behind ok e =
      retire-IsState address (record s { chain = set_at s.chain hash (before ++ behind) }) i _
        (shrink-IsState address s hash _ ok (rw e (split-Within before behind i)))
        (expired_free s hash i before behind ok e)

  expire_room :
      (s : State A) (hash i : ℕ) (before behind : List ℕ)
      → IsState address s
      → s.chain hash ≡ before ++ i ∷ behind
      → length ((expire address hash before i behind s).chain hash) < hash_max
  unfolding expire
  expire_room s hash i before behind ok e =
      let less = split_shorter before behind i in
      let bound : length (before ++ i ∷ behind) ≤ hash_max = (rw (← e) (ok.short hash)) in
      let here : (hash == hash) ≡ true = ground arith in rw here (omega (arith, less, bound))

  on_walk-IsState :
      (hz now : ℕ) (psdinfo : PsdInfo) (tcph : TcpHdr) (proto : ℕ) (saddr : A) (s : State A)
      (w : Walk)
      → IsState address s
      → address.is_any saddr ≡ false
      → Splits (s.chain (address.hash saddr)) w
      → IsState address (on_walk address hz now psdinfo tcph proto saddr (address.hash saddr) s w).1
  unfolding on_walk new_source shorten expire
  on_walk-IsState hz now psdinfo tcph proto saddr s missing ok named e =
      let hash = address.hash saddr in
      elim (Bool-cases ((proto == ipproto_tcp) && tcph.ack)) [
        | inl ack ↦ rw ack ok
        | inr other ↦ rw other (
            enter-IsState now psdinfo tcph proto saddr (last_of (s.chain hash)) _
              (shorten-IsState hash (length (s.chain hash)) (last_of (s.chain hash)) s ok)
              (shorten_room hash (last_of (s.chain hash)) s ok refl) named)
      ]
  on_walk-IsState hz now psdinfo tcph proto saddr s (at_place before i behind) ok named e =
      let hash = address.hash saddr in
      let expired = expire-IsState s hash i before behind ok e in
      elim (Bool-cases (entry_is_recent hz (s.list i).host psdinfo.delay_threshold now)) [
        | inl recent ↦ rw recent (scanned-IsState address s i _ ok)
        | inr old ↦ rw old (elim (Bool-cases ((proto == ipproto_tcp) && tcph.ack)) [
          | inl ack ↦ rw ack expired
          | inr other ↦ rw other (
              enter-IsState now psdinfo tcph proto saddr none
                (expire address hash before i behind s) expired
                (expire_room s hash i before behind ok e) named)
        ])
      ]

-- Whatever a packet of an address that is not the special one brings, and whenever, the table stays
-- in order: the entries of a chain are in use by addresses with its hash, none stands there twice,
-- and no chain grows longer than HASH_MAX.
pub handle_packet-IsState :
    {A : Type 0} (address : Address A) (hz now : ℕ) (psdinfo : PsdInfo) (tcph : TcpHdr) (proto : ℕ)
    (saddr : A) (s : State A)
    → IsState address s
    → address.is_any saddr ≡ false
    → IsState address
        (handle_packet address hz now psdinfo tcph proto saddr (address.hash saddr) s).1
unfolding handle_packet
handle_packet-IsState address hz now psdinfo tcph proto saddr s ok named =
    on_walk-IsState address hz now psdinfo tcph proto saddr s _ ok named
      (find_host-Splits address saddr s.list (s.chain (address.hash saddr)))
