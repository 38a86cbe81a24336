-- ===== src/Common/Bytes.antt =====
-- C strings as lists of bytes.
use xtables_addons.Common.Tests.{◌==◌, if◌then◌else◌}
use Prim.Native.Nat.{ℕ, zero, suc}
use mathlib.Core.Bool.{◌||◌}
use mathlib.Core.List.{List, [], ◌∷◌}

-- The bytes before the first that is `stop` or zero: `strcspn`, and `strlen` where `stop` is zero.
unfoldable pub span_to : ℕ → List ℕ → List ℕ
span_to stop [] = []
span_to stop (b ∷ l) = if b == 0 || b == stop then [] else b ∷ span_to stop l

-- The bytes from a place on.
unfoldable pub skip : ℕ → List ℕ → List ℕ
skip zero l = l
skip (suc n) [] = []
skip (suc n) (b ∷ l) = skip n l
