-- ===== src/Refs.antt =====
-- Objects that several rules share through a reference count on a kernel list, as
-- extensions/xt_geoip.c and extensions/xt_quota2.c keep them. A pointer to an object is its `id`;
-- an object that was freed is on the list no more.
pub mod Laws
use xtables_addons.Common.{
  ℕ, ◌+◌, ◌-◌, ◌%◌, Bool, Option, some, none, List, [], ◌∷◌, ◌==◌, if◌then◌else◌,
}
use xtables_addons.Common.Words.{u32_mod}

-- The count is a word of 32 bits.
pub record Node (A : Type 0) : Type 0 where
  pub id : ℕ
  pub ref : ℕ
  pub body : A

module _ {A : Type 0} where
  behind : Node A → Option (ℕ × List (Node A)) → Option (ℕ × List (Node A))
  behind n none = none
  behind n (some (i, ns)) = some (i, n ∷ ns)

  -- `list_for_each_entry`: the first object that the test accepts gets one more reference.
  unfoldable pub get_ref : (A → Bool) → List (Node A) → Option (ℕ × List (Node A))
  unfolding behind
  get_ref test [] = none
  get_ref test (n ∷ ns) =
      if test n.body
      then some (n.id, record n { ref = (n.ref + 1) % u32_mod } ∷ ns)
      else behind n (get_ref test ns)

  -- `atomic_dec_and_test`, and `list_del` and the freeing of the object at zero.
  unfoldable pub put_ref : ℕ → List (Node A) → List (Node A)
  put_ref i [] = []
  put_ref i (n ∷ ns) =
      if n.id == i
      then (if n.ref == 1 then ns else record n { ref = (n.ref + u32_mod - 1) % u32_mod } ∷ ns)
      else n ∷ put_ref i ns

  -- What a pointer points to.
  unfoldable pub deref : ℕ → List (Node A) → Option A
  deref i [] = none
  deref i (n ∷ ns) = if n.id == i then some n.body else deref i ns

  -- The references that the object at a pointer counts.
  unfoldable pub refs : ℕ → List (Node A) → ℕ
  refs i [] = 0
  refs i (n ∷ ns) = (if n.id == i then n.ref else 0) + refs i ns
