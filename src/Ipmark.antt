-- ===== src/Ipmark.antt =====
-- extensions/xt_IPMARK.c: the target that marks a packet with bits of one of its addresses.
mod Shift
mod Mark
mod Tests
use xtables_addons.Common.{
  ℕ, zero, suc, ◌+◌, ◌-◌, ◌*◌, ◌/◌, ◌%◌, ◌^◌, ◌<◌, ◌≡◌, Bool, ◌&&◌, not, Option, some, none,
  bit_and, bit_or, ltb, leb, ◌==◌, if◌then◌else◌,
}
use xtables_addons.Common.Words.{u32_mod, ntohl}

-- The four words of an address, as they lie in the packet.
pub record In6Addr : Type 0 where
  pub word0 : ℕ
  pub word1 : ℕ
  pub word2 : ℕ
  pub word3 : ℕ

-- `a->s6_addr32[i]`
abbrev pub s6_addr32 : In6Addr → ℕ → Option ℕ
s6_addr32 a zero = some a.word0
s6_addr32 a (suc zero) = some a.word1
s6_addr32 a (suc (suc zero)) = some a.word2
s6_addr32 a (suc (suc (suc zero))) = some a.word3
s6_addr32 a i = none

-- struct xt_ipmark_tginfo
pub record TgInfo : Type 0 where
  pub andmask : ℕ
  pub ormask : ℕ
  pub selector : ℕ
  pub shift : ℕ

abbrev pub xt_ipmark_src : ℕ
xt_ipmark_src = 0

pub data Verdict : Type 0 where
  xt_continue : Verdict

-- `x >> s` and `x << s` on 32 bits; C leaves a shift by 32 or more undefined, which is `none`.
abbrev pub shr32 : ℕ → ℕ → Option ℕ
shr32 x s = if ltb s 32 then some (x / 2 ^ s) else none

abbrev pub shl32 : ℕ → ℕ → Option ℕ
shl32 x s = if ltb s 32 then some (x * 2 ^ s % u32_mod) else none

infixl 5 ◌>>=◌
abbrev pub ◌>>=◌ : {A B : Type 0} → Option A → (A → Option B) → Option B
none >>= f = none
some a >>= f = f a

-- The packet's two addresses and the target's configuration; the result is the new `skb->mark`.
unfoldable pub ipmark_tg4 : ℕ → ℕ → TgInfo → Option (Verdict × ℕ)
ipmark_tg4 saddr daddr info = do
  mark ← shr32 (if info.selector == xt_ipmark_src then ntohl saddr else ntohl daddr) info.shift
  some (xt_continue, bit_or (bit_and mark info.andmask) info.ormask)

-- The second half of `ipmark_from_ip6`.
unfoldable pub upper_bits : In6Addr → ℕ → ℕ → Option ℕ
upper_bits a s mask =
    let q = s % 32 in
    if ltb 0 s && ltb s 96 && not (q == 0)
    then (do
      word ← s6_addr32 a (2 - s / 32)
      bits ← shl32 (ntohl word) (32 - q)
      some (bit_or mask bits))
    else some mask

unfoldable pub ipmark_from_ip6 : In6Addr → ℕ → Option ℕ
ipmark_from_ip6 a s = if leb 128 s then some 0 else (do
  word ← s6_addr32 a (3 - s / 32)
  mask ← shr32 (ntohl word) (s % 32)
  upper_bits a s mask)

unfoldable pub ipmark_tg6 : In6Addr → In6Addr → TgInfo → Option (Verdict × ℕ)
ipmark_tg6 saddr daddr info = do
  mark ← ipmark_from_ip6 (if info.selector == xt_ipmark_src then saddr else daddr) info.shift
  some (xt_continue, bit_or (bit_and mark info.andmask) info.ormask)
