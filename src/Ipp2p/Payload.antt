-- ===== src/Ipp2p/Payload.antt =====
-- Reads of a packet's payload as extensions/xt_ipp2p.c makes them. A read that leaves the payload is
-- `none`; a comparison reads as many bytes as it is told to.
use Prim.Native.Char.{code}
use Prim.Native.String.{String}
use xtables_addons.Common.{
  ℕ, zero, suc, ◌+◌, ◌*◌, ◌<◌, ◌≤◌, ◌≡◌, refl, Bool, true, false, ◌&&◌, Option, some, none, List,
  [], ◌∷◌, leb, ◌==◌, if◌then◌else◌, length, get_elem?, get_elem?-lt, arith,
}

-- The bytes of a text.
abbrev pub codes : String → List ℕ
codes String.[] = []
codes (String.◌∷◌ c s) = code c ∷ codes s

infixl 5 ◌>>=◌
abbrev pub ◌>>=◌ : {A B : Type 0} → Option A → (A → Option B) → Option B
none >>= f = none
some a >>= f = f a

-- `get_u8(p, i)` and `p[i]`
unfoldable pub get_u8 : List ℕ → ℕ → Option ℕ
get_u8 p i = get_elem? p i

-- On a little-endian host.
unfoldable pub get_u16 : List ℕ → ℕ → Option ℕ
get_u16 p i = do a ← get_u8 p i; b ← get_u8 p (i + 1); some (a + 256 * b)

unfoldable pub get_u32 : List ℕ → ℕ → Option ℕ
get_u32 p i = do a ← get_u16 p i; b ← get_u16 p (i + 2); some (a + 0x10000 * b)

abbrev pub drop : ℕ → List ℕ → List ℕ
drop zero xs = xs
drop (suc n) [] = []
drop (suc n) (x ∷ xs) = drop n xs

abbrev pub starts_with : List ℕ → List ℕ → Bool
starts_with [] p = true
starts_with (c ∷ s) [] = false
starts_with (c ∷ s) (d ∷ p) = (c == d) && starts_with s p

-- `memcmp(p + i, s, strlen(s)) == 0`
unfoldable pub same_at : List ℕ → ℕ → List ℕ → Option Bool
same_at p i s = if leb (i + length s) (length p) then some (starts_with s (drop i p)) else none

-- `c && d`, `c || d` and `c ? x : y` on conditions that read.
infixr 35 ◌&&?◌
abbrev pub ◌&&?◌ : Option Bool → Option Bool → Option Bool
none &&? d = none
some true &&? d = d
some false &&? d = some false

infixr 30 ◌||?◌
abbrev pub ◌||?◌ : Option Bool → Option Bool → Option Bool
none ||? d = none
some true ||? d = some true
some false ||? d = d

abbrev pub branch : {A : Type 0} → Option Bool → Option A → Option A → Option A
branch none x y = none
branch (some true) x y = x
branch (some false) x y = y

-- `p[i] == v`
abbrev pub is_u8 : List ℕ → ℕ → ℕ → Option Bool
is_u8 p i v = get_u8 p i >>= λ b. some (b == v)

abbrev pub is_u16 : List ℕ → ℕ → ℕ → Option Bool
is_u16 p i v = get_u16 p i >>= λ b. some (b == v)

abbrev pub is_u32 : List ℕ → ℕ → ℕ → Option Bool
is_u32 p i v = get_u32 p i >>= λ b. some (b == v)

-- No read left the payload.
abbrev pub IsSafe : {A : Type 0} → Option A → Type 0
IsSafe none = ⊥
IsSafe (some a) = Unit

pub get_u8-IsSafe : (p : List ℕ) (i : ℕ) → i < length p → (b : ℕ) × (get_u8 p i ≡ some b)
unfolding get_u8
get_u8-IsSafe p i h = get_elem?-lt p i h

pub get_u16-IsSafe : (p : List ℕ) (i : ℕ) → i + 1 < length p → (b : ℕ) × (get_u16 p i ≡ some b)
unfolding get_u16
get_u16-IsSafe p i h =
    let a = get_u8-IsSafe p i (omega arith) in
    let b = get_u8-IsSafe p (i + 1) h in (a.0 + 256 * b.0, rw (a.1, b.1) refl)

pub get_u32-IsSafe : (p : List ℕ) (i : ℕ) → i + 3 < length p → (b : ℕ) × (get_u32 p i ≡ some b)
unfolding get_u32
get_u32-IsSafe p i h =
    let a = get_u16-IsSafe p i (omega arith) in
    let b = get_u16-IsSafe p (i + 2) (omega arith) in (a.0 + 0x10000 * b.0, rw (a.1, b.1) refl)

pub same_at-IsSafe :
    (p : List ℕ) (i : ℕ) (s : List ℕ)
    → i + length s ≤ length p
    → (b : Bool) × (same_at p i s ≡ some b)
unfolding same_at
same_at-IsSafe p i s h = (starts_with s (drop i p), ground arith)

-- A read behind the payload.
pub get_u8_outside : (p : List ℕ) (i : ℕ) → length p ≤ i → get_u8 p i ≡ none
unfolding get_u8
get_u8_outside [] i h = refl
get_u8_outside (b ∷ p) zero h = ground arith
get_u8_outside (b ∷ p) (suc i) h = unfold get_u8 in get_u8_outside p i (omega arith)

pub get_u32_outside : (p : List ℕ) (i : ℕ) → length p ≤ i → get_u32 p i ≡ none
unfolding get_u32 get_u16
get_u32_outside p i h = rw (get_u8_outside p i h) refl

module _ {A : Type 0} where
  pub branch-IsSafe :
      (c : Option Bool) (x y : Option A)
      → IsSafe c
      → (c ≡ some true → IsSafe x)
      → (c ≡ some false → IsSafe y)
      → IsSafe (branch c x y)
  branch-IsSafe none x y h k l = h
  branch-IsSafe (some true) x y h k l = k refl
  branch-IsSafe (some false) x y h k l = l refl

  pub if-IsSafe :
      (b : Bool) (x y : Option A)
      → (b ≡ true → IsSafe x)
      → (b ≡ false → IsSafe y)
      → IsSafe (if b then x else y)
  if-IsSafe true x y k l = k refl
  if-IsSafe false x y k l = l refl

  pub IsSafe-some : (o : Option A) → IsSafe o → (a : A) × (o ≡ some a)
  IsSafe-some none h = absurd h
  IsSafe-some (some a) h = (a, refl)
