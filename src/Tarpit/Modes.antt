-- ===== src/Tarpit/Modes.antt =====
-- How the TARPIT target answers (extensions/xt_TARPIT.c).
use xtables_addons.Common.{
  ◌+◌, ◌≤◌, ◌≡◌, refl, true, false, Option, some, none, ltb, arith, Bool-cases, inl, inr,
}
use xtables_addons.Tarpit.{
  Variant, xttarpit_tarpit_mode, xttarpit_reset_mode, TcpHdr, Random, xttarpit_tarpit,
  xttarpit_reset, tarpit_generic,
}
use xtables_addons.Tarpit.Reply.{
  SkBuff, Kernel, Sent, blank, tcphdr_size, tarpit_tcp4, tarpit_tcp6, send6, reply6,
}

-- The header has no flag.
pub record HasNoFlag (tcph : TcpHdr) : Type 0 where
  pub fin : tcph.fin ≡ false
  pub syn : tcph.syn ≡ false
  pub rst : tcph.rst ≡ false
  pub psh : tcph.psh ≡ false
  pub ack : tcph.ack ≡ false

abbrev pub HasNoFlagIf : Option Sent → Type 0
HasNoFlagIf none = Unit
HasNoFlagIf (some sent) = HasNoFlag sent.tcp

blank-HasNoFlag : (oth : TcpHdr) → HasNoFlag (blank oth)
blank-HasNoFlag oth = record { fin = refl; syn = refl; rst = refl; psh = refl; ack = refl }

send6-HasNoFlagIf :
    (kernel : Kernel) (mode : Variant) (skb : SkBuff) (tcph : TcpHdr) (o : Option TcpHdr)
    → HasNoFlag tcph
    → HasNoFlagIf (send6 kernel mode skb tcph o)
unfolding send6
send6-HasNoFlagIf kernel mode skb tcph none flags = tt
send6-HasNoFlagIf kernel mode skb tcph (some oth) flags = elim (Bool-cases kernel.route_ok) [
  | inl routed ↦ rw routed flags
  | inr lost ↦ rw lost tt
]

reply6_mute :
    (kernel : Kernel) (random : Random) (mode : Variant) (skb : SkBuff) (o : Option TcpHdr)
    → (reply6 kernel random xttarpit_tarpit_mode skb o ≡ none)
      × HasNoFlagIf (reply6 kernel random mode skb o)
unfolding reply6 send6 tarpit_generic xttarpit_tarpit
reply6_mute kernel random mode skb none = (refl, tt)
reply6_mute kernel random mode skb (some oth) = elim (Bool-cases kernel.checksum_ok) [
  | inr bad ↦ rw bad (refl, tt)
  | inl good ↦ rw good (elim (Bool-cases kernel.copy_ok) [
    | inr fails ↦ rw fails (refl, tt)
    | inl copied ↦ rw copied (
      refl,
      send6-HasNoFlagIf kernel mode skb (blank oth) (tarpit_generic random oth (blank oth) 0 mode)
          (blank-HasNoFlag oth),
    )
  ])
]

-- Over IPv6 the TARPIT mode never replies, and what the other modes send never has a flag, whatever
-- the packet is: the header that should be answered and the reply are taken for each other.
pub tarpit_tcp6_mute :
    (kernel : Kernel) (random : Random) (mode : Variant) (skb : SkBuff)
    → (tarpit_tcp6 kernel random xttarpit_tarpit_mode skb ≡ none)
      × HasNoFlagIf (tarpit_tcp6 kernel random mode skb)
unfolding tarpit_tcp6
tarpit_tcp6_mute kernel random mode skb =
    elim (Bool-cases (ltb skb.len (skb.hdrlen + tcphdr_size))) [
      | inl short ↦ rw short (refl, tt)
      | inr long ↦ rw long (reply6_mute kernel random mode skb skb.tcp)
    ]

-- In the reset mode every segment over IPv4 whose checksum is right is answered with a reset, also a
-- reset, where the copy and its route can be had.
pub tarpit_tcp4_resets :
    (kernel : Kernel) (random : Random) (skb : SkBuff) (oth : TcpHdr)
    → skb.tcp ≡ some oth
    → skb.hdrlen + tcphdr_size ≤ skb.len
    → kernel.checksum_ok ≡ true
    → kernel.copy_ok ≡ true
    → kernel.route_ok ≡ true
    → skb.hdrlen + tcphdr_size ≤ kernel.mtu
    → (sent : Sent) × (tarpit_tcp4 kernel random xttarpit_reset_mode skb ≡ some sent)
      × (sent.tcp.rst ≡ true)
unfolding tarpit_tcp4 tarpit_generic xttarpit_reset
tarpit_tcp4_resets kernel random skb oth there long good copied routed fits =
    let enough : ltb skb.len (skb.hdrlen + tcphdr_size) ≡ false = ground arith in
    let small : ltb kernel.mtu (skb.hdrlen + tcphdr_size) ≡ false = ground arith in
    rw (enough, there, good, copied, routed, small) (_, refl, refl)
