-- ===== src/Account/Pages.antt =====
-- The pages of a table (extensions/ACCOUNT/xt_ACCOUNT.c: ipt_acc_data_free), counted.
use xtables_addons.Common.{ℕ, zero, suc, ◌+◌, Option, some, none}
use xtables_addons.Account.{Mask16, Mask8, AccData, depth0, depth1, depth2}

-- The loop over the slots of a 16-bit network from `b` on.
unfoldable pub free_mask16 : ℕ → Mask16 → ℕ → ℕ
free_mask16 zero mask b = 0
free_mask16 (suc n) mask b = elim (mask b) [
  | none ↦ free_mask16 n mask (b + 1)
  | some page ↦ suc (free_mask16 n mask (b + 1))
]

-- The loop over the slots of a 24-bit network.
unfoldable pub free_mask8 : ℕ → Mask8 → ℕ → ℕ
free_mask8 zero mask a = 0
free_mask8 (suc n) mask a = elim (mask a) [
  | none ↦ free_mask8 n mask (a + 1)
  | some mask_16 ↦ free_mask16 256 mask_16 0 + 1 + free_mask8 n mask (a + 1)
]

-- How many times free_pages is called.
unfoldable pub ipt_acc_data_free : Option AccData → ℕ
ipt_acc_data_free none = 0
ipt_acc_data_free (some (depth0 page)) = 1
ipt_acc_data_free (some (depth1 mask)) = free_mask16 256 mask 0 + 1
ipt_acc_data_free (some (depth2 mask)) = free_mask8 256 mask 0 + 1
