-- ===== src/Account/Tables/Release.antt =====
-- A rule's table across `ipt_acc_checkentry` and `ipt_acc_destroy`
-- (extensions/ACCOUNT/xt_ACCOUNT.c).
use xtables_addons.Common.{
  ℕ, zero, suc, ◌+◌, ◌%◌, ◌≤◌, ◌<◌, ◌≡◌, refl, ap, ◌⊎◌, Bool, true, false, not, ◌||◌, some, List,
  [], ◌∷◌, ◌==◌, take, length, arith, Bool-cases, inl, inr,
}
use xtables_addons.Common.Words.{u32_mod}
use xtables_addons.Account.Tables.{
  AccTable, zero_table, AccInfo, same_text, has_name, is_free, Found, found, missing, failed, shift,
  find_existing, new_table, insert_new, or_new, ipt_acc_table_insert, checked, ipt_acc_checkentry,
  release, ipt_acc_destroy,
}

-- A slot is zeroed, or a table with references in number below 2 ^ 32 - 1.
abbrev pub IsSlot : AccTable → Type 0
IsSlot t = (t ≡ zero_table) ⊎ ((is_free t ≡ false) × (0 < t.refcount) × (t.refcount + 1 < u32_mod))

abbrev pub AreSlots : List AccTable → Type 0
AreSlots [] = Unit
AreSlots (t ∷ ts) = IsSlot t × AreSlots ts

-- A name that a slot stores whole: not empty, no NUL first, and room for the NUL behind it.
abbrev pub IsName : List ℕ → Type 0
IsName [] = ⊥
IsName (c ∷ cs) = (0 < c) × (length cs < 31)

same_text_refl : (n : ℕ) (s : List ℕ) → same_text n s s ≡ true
same_text_refl zero s = refl
same_text_refl (suc n) [] = refl
same_text_refl (suc n) (c ∷ s) = ground (arith, same_text_refl n s)

take_all : (n : ℕ) (s : List ℕ) → length s ≤ n → take n s ≡ s
take_all zero [] h = refl
take_all zero (c ∷ s) h = ground arith
take_all (suc n) [] h = refl
take_all (suc n) (c ∷ s) h = ap (λ t. c ∷ t) (take_all n s (omega arith))

release-existing :
    (t : AccTable)
    → IsSlot t
    → is_free t ≡ false
    → release (record t { refcount = (t.refcount + 1) % u32_mod }) ≡ t
release-existing t slot used = ground arith

existing_not_free :
    (name : List ℕ) (t : AccTable) → IsName name → has_name name t ≡ true → is_free t ≡ false
existing_not_free [] t ok h = elim ok [ ]
existing_not_free (c ∷ cs) t ok h = ground arith

new_table_named :
    (info : AccInfo) (t : AccTable)
    → IsName info.table_name
    → has_name info.table_name (new_table info t) ≡ true
new_table_named info t ok =
    let whole = take_all 31 info.table_name (name_fits info.table_name ok) in
    rw whole (same_text_refl 32 info.table_name)
  where
    name_fits : (name : List ℕ) → IsName name → length name ≤ 31
    name_fits [] h = elim h [ ]
    name_fits (c ∷ cs) h = omega arith

release-new_table :
    (info : AccInfo) (t : AccTable) → IsSlot t → is_free t ≡ true → release (new_table info t) ≡ t
release-new_table info t slot free = ground arith

abbrev pub NoneNamed : List ℕ → List AccTable → Type 0
NoneNamed name [] = Unit
NoneNamed name (t ∷ ts) = (has_name name t ≡ false) × NoneNamed name ts

-- What a search says of the tables searched: the release of what it found brings them back.
abbrev pub Undone : List ℕ → List AccTable → Type 0 → Found → Type 0
Undone name tables P (found i after) = ipt_acc_destroy name after ≡ tables
Undone name tables P missing = P
Undone name tables P (failed after) = Unit

shift-Undone :
    (name : List ℕ) (t : AccTable) (ts : List AccTable) (P : Type 0) (r : Found)
    → has_name name t ≡ false
    → Undone name ts P r
    → Undone name (t ∷ ts) P (shift t r)
unfolding ipt_acc_destroy
shift-Undone name t ts P (found i after) other u = rw other (ap (λ us. t ∷ us) u)
shift-Undone name t ts P missing other u = u
shift-Undone name t ts P (failed after) other u = tt

weaken :
    (name : List ℕ) (ts : List AccTable) (P Q : Type 0) (r : Found)
    → (P → Q)
    → Undone name ts P r
    → Undone name ts Q r
weaken name ts P Q (found i after) f u = u
weaken name ts P Q missing f u = f u
weaken name ts P Q (failed after) f u = tt

found-existing :
    (info : AccInfo) (t : AccTable) (ts : List AccTable)
    → IsSlot t
    → IsName info.table_name
    → has_name info.table_name t ≡ true
    → ipt_acc_destroy info.table_name (record t { refcount = (t.refcount + 1) % u32_mod } ∷ ts)
      ≡ t ∷ ts
unfolding ipt_acc_destroy
found-existing info t ts slot ok named =
    rw named
      (ap (λ u. u ∷ ts) (release-existing t slot (existing_not_free info.table_name t ok named)))

find_existing-Undone :
    (info : AccInfo) (tables : List AccTable)
    → AreSlots tables
    → IsName info.table_name
    → Undone info.table_name tables (NoneNamed info.table_name tables) (find_existing info tables)
unfolding find_existing
find_existing-Undone info [] slots ok = tt
find_existing-Undone info (t ∷ ts) slots ok = elim (Bool-cases (has_name info.table_name t)) [
  | inl named ↦
      rw named (elim (Bool-cases (not (t.ip == info.net_ip) || not (t.netmask == info.net_mask))) [
        | inl e ↦ rw e tt
        | inr e ↦ rw e (found-existing info t ts slots.0 ok named)
      ])
  | inr other ↦ rw other (
      weaken info.table_name (t ∷ ts) (NoneNamed info.table_name ts)
        ((false ≡ false) × NoneNamed info.table_name ts) (shift t (find_existing info ts))
        (λ n. (refl, n))
        (shift-Undone info.table_name t ts (NoneNamed info.table_name ts) (find_existing info ts)
          other (find_existing-Undone info ts slots.1 ok)))
]

insert_new-Undone :
    (zalloc_ok : Bool) (info : AccInfo) (tables : List AccTable)
    → AreSlots tables
    → IsName info.table_name
    → NoneNamed info.table_name tables
    → Undone info.table_name tables Unit (insert_new zalloc_ok info tables)
unfolding insert_new ipt_acc_destroy
insert_new-Undone zalloc_ok info [] slots ok n = tt
insert_new-Undone zalloc_ok info (t ∷ ts) slots ok n = elim (Bool-cases (is_free t)) [
  | inl free ↦ rw free (elim (Bool-cases zalloc_ok) [
    | inl e ↦
        rw e (
          rw (new_table_named info t ok) (ap (λ u. u ∷ ts) (release-new_table info t slots.0 free)))
    | inr e ↦ rw e tt
  ])
  | inr used ↦ rw used (
      shift-Undone info.table_name t ts Unit (insert_new zalloc_ok info ts) n.0
        (insert_new-Undone zalloc_ok info ts slots.1 ok n.1))
]

or_new-Undone :
    (zalloc_ok : Bool) (info : AccInfo) (tables : List AccTable) (r : Found)
    → AreSlots tables
    → IsName info.table_name
    → Undone info.table_name tables (NoneNamed info.table_name tables) r
    → Undone info.table_name tables Unit (or_new zalloc_ok info tables r)
unfolding or_new
or_new-Undone zalloc_ok info tables (found i after) slots ok u = u
or_new-Undone zalloc_ok info tables missing slots ok u =
    insert_new-Undone zalloc_ok info tables slots ok u
or_new-Undone zalloc_ok info tables (failed after) slots ok u = tt

checked_found :
    (name : List ℕ) (tables : List AccTable) (r : Found) (i : ℕ)
    → Undone name tables Unit r
    → (checked tables r).0 ≡ some i
    → ipt_acc_destroy name (checked tables r).1 ≡ tables
unfolding checked
checked_found name tables (found j after) i u e = u
checked_found name tables missing i u e = ground arith
checked_found name tables (failed after) i u e = ground arith

-- Where every slot is zeroed or a table in use with fewer than 2 ^ 32 - 2 references, and the rule's
-- table name is 1 to 31 bytes long, releasing a rule that was just accepted, whether it found its
-- table or inserted it, brings the whole array of tables back.
pub checkentry_then_destroy :
    (zalloc_ok : Bool) (info : AccInfo) (tables : List AccTable) (i : ℕ)
    → AreSlots tables
    → IsName info.table_name
    → (ipt_acc_checkentry zalloc_ok info tables).0 ≡ some i
    → ipt_acc_destroy info.table_name (ipt_acc_checkentry zalloc_ok info tables).1 ≡ tables
unfolding ipt_acc_checkentry ipt_acc_table_insert
checkentry_then_destroy zalloc_ok info tables i slots ok e =
    checked_found info.table_name tables (or_new zalloc_ok info tables (find_existing info tables))
      i
      (or_new-Undone zalloc_ok info tables (find_existing info tables) slots ok
        (find_existing-Undone info tables slots ok))
      e
