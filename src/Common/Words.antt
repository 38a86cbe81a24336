-- ===== src/Common/Words.antt =====
-- Unsigned machine words and the byte order of a little-endian host.
use Prim.Native.Nat.{ℕ, ◌+◌, ◌-◌, ◌*◌, ◌/◌, ◌%◌, ◌^◌, ◌<◌}
use mathlib.Core.Path.{◌≡◌}
use native.Mathlib.Omega.{arith}

abbrev pub u8_mod : ℕ
u8_mod = 2 ^ 8

abbrev pub u16_mod : ℕ
u16_mod = 2 ^ 16

abbrev pub u32_mod : ℕ
u32_mod = 2 ^ 32

abbrev pub u64_mod : ℕ
u64_mod = 2 ^ 64

-- `a - b` on unsigned int, for operands in range.
abbrev pub sub32 : ℕ → ℕ → ℕ
sub32 a b = (a + u32_mod - b) % u32_mod

abbrev pub add32 : ℕ → ℕ → ℕ
add32 a b = (a + b) % u32_mod

abbrev pub ntohs : ℕ → ℕ
ntohs x = x % 256 * 256 + x / 256 % 256

abbrev pub ntohl : ℕ → ℕ
ntohl x =
    x % 256 * 0x1000000 + x / 256 % 256 * 0x10000 + x / 0x10000 % 256 * 256 + x / 0x1000000 % 256

pub ntohl-lt : (x : ℕ) → ntohl x < u32_mod
ntohl-lt x = omega arith

pub ntohl-ntohl : (x : ℕ) → x < u32_mod → ntohl (ntohl x) ≡ x
ntohl-ntohl x h = omega arith
