-- ===== src/Ipv4options.antt =====
-- The ipv4options match (extensions/xt_ipv4options.c): the set of IPv4 options of a packet, read from
-- the bytes behind the fixed header, as a word with a bit for each option number.
pub mod Read
mod Tests
use xtables_addons.Common.{
  ℕ, zero, suc, ◌+◌, ◌-◌, ◌%◌, ◌^◌, Bool, not, ◌||◌, Option, some, none, List, [], ◌∷◌, bit_and,
  bit_or, bit_xor, ltb, ◌==◌, has_flag, if◌then◌else◌, length, take,
}

-- struct xt_ipv4options_mtinfo1; the field `opts` is its `map`.
pub record MtInfo1 : Type 0 where
  pub opts : ℕ
  pub invert : ℕ
  pub flags : ℕ

abbrev pub xt_v4opts_any : ℕ
xt_v4opts_any = 2

abbrev pub ipopt_end : ℕ
ipopt_end = 0

abbrev pub ipopt_noop : ℕ
ipopt_noop = 1

abbrev pub drop : ℕ → List ℕ → List ℕ
drop zero xs = xs
drop (suc n) [] = []
drop (suc n) (x ∷ xs) = drop n xs

-- The loop on the `len` bytes from `data` on; `none` is the end of the fuel.
unfoldable pub rd_loop : ℕ → List ℕ → ℕ → Option ℕ
rd_loop zero bytes opts = none
rd_loop (suc fuel) [] opts = some opts
rd_loop (suc fuel) (kind ∷ []) opts = some opts
rd_loop (suc fuel) (kind ∷ size ∷ bytes) opts =
    let skipped = rd_loop fuel (size ∷ bytes) opts in
    let next = rd_loop fuel (drop (size - 2) bytes) (bit_or opts (2 ^ (kind % 32))) in
    if kind == ipopt_end
    then some opts
    else if kind == ipopt_noop
    then skipped
    else if ltb size 2 || ltb (length (kind ∷ size ∷ bytes)) size
    then some opts
    else next

-- Each round takes at least one byte.
unfoldable pub ipv4options_rd : List ℕ → Option ℕ
ipv4options_rd bytes = rd_loop (suc (length bytes)) bytes 0

abbrev iphdr_size : ℕ
iphdr_size = 20

answer : MtInfo1 → Option ℕ → Option Bool
answer info none = none
answer info (some opts) =
    let found = bit_and (bit_xor opts info.invert) info.opts in
    some (if has_flag info.flags xt_v4opts_any then not (found == 0) else found == info.opts)

-- `ipv4options_mt` on the length of the packet's IPv4 header and the bytes behind the fixed part.
unfoldable pub ipv4options_mt : MtInfo1 → ℕ → List ℕ → Option Bool
unfolding answer
ipv4options_mt info ip_hdrlen bytes =
    let len = (ip_hdrlen + 2 ^ 16 - iphdr_size) % 2 ^ 16 in
    answer info (if ltb 0 len then ipv4options_rd (take len bytes) else some 0)
