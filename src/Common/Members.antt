-- ===== src/Common/Members.antt =====
-- Lists of places: membership, and `list_del` and `list_add_tail` on such a list.
use xtables_addons.Common.Tests.{◌==◌, if◌then◌else◌}
use Prim.Native.Nat.{ℕ}
use mathlib.Core.Path.{◌≡◌, refl}
use mathlib.Core.Bool.{Bool, false, not, ◌&&◌, ◌||◌}
use mathlib.Core.List.{List, [], ◌∷◌, ◌++◌}
use native.Mathlib.Omega.{arith}

unfoldable pub elem : ℕ → List ℕ → Bool
elem i [] = false
elem i (j ∷ c) = (j == i) || elem i c

-- Every occurrence leaves the list.
unfoldable pub remove : ℕ → List ℕ → List ℕ
remove i [] = []
remove i (j ∷ c) = if j == i then remove i c else j ∷ remove i c

pub elem-remove : (x i : ℕ) (c : List ℕ) → elem x (remove i c) ≡ (elem x c && not (x == i))
unfolding elem remove
elem-remove x i [] = refl
elem-remove x i (j ∷ c) = ground (arith, elem-remove x i c)

pub elem-snoc : (x i : ℕ) (c : List ℕ) → elem x (c ++ i ∷ []) ≡ (elem x c || (i == x))
unfolding elem
elem-snoc x i [] = ground arith
elem-snoc x i (j ∷ c) = ground (arith, elem-snoc x i c)
