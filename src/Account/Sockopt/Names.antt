-- ===== src/Account/Sockopt/Names.antt =====
-- The names of the tables from the kernel to user space (extensions/ACCOUNT/xt_ACCOUNT.c:
-- ipt_acc_get_ctl, extensions/ACCOUNT/libxt_ACCOUNT_cl.c: ipt_ACCOUNT_get_next_name).
use xtables_addons.Common.{
  ℕ, zero, suc, ◌+◌, ◌≡◌, refl, sym, ap, ◌∙◌, Bool, true, false, not, ◌&&◌, Option, some, none,
  List, [], ◌∷◌, ◌++◌, ◌==◌, if◌then◌else◌, length, arith, Bool-cases, inl, inr,
}
use mathlib.Core.List.{append_assoc}
use xtables_addons.Common.Bytes.{span_to, skip}
use xtables_addons.Account.Tables.{AccTable, is_free}
use xtables_addons.Account.Sockopt.{AccNet, Grants, gave_names, table_names, get_table_names}

-- From the bytes at `pos` on; `none` is a read behind the buffer.
unfoldable pub next_from : ℕ → List ℕ → Option (Option (List ℕ × ℕ))
next_from pos [] = none
next_from pos (b ∷ l) =
    let name = span_to 0 (b ∷ l) in
    if b == 0 then some none else some (some (name, pos + (length name + 1)))

unfoldable pub ipt_account_get_next_name : List ℕ → ℕ → Option (Option (List ℕ × ℕ))
ipt_account_get_next_name buffer pos = next_from pos (skip pos buffer)

unfoldable pub cons_name : List ℕ → Option (List (List ℕ)) → Option (List (List ℕ))
cons_name name none = none
cons_name name (some names) = some (name ∷ names)

unfoldable pub with_next :
    (ℕ → Option (List (List ℕ))) → Option (Option (List ℕ × ℕ)) → Option (List (List ℕ))
with_next rest none = none
with_next rest (some none) = some []
with_next rest (some (some (name, pos))) = cons_name name (rest pos)

-- The loop of a caller, until there is no next name; one round for each name and one for the end.
unfoldable pub all_names : ℕ → List ℕ → ℕ → Option (List (List ℕ))
all_names zero buffer pos = none
all_names (suc n) buffer pos = with_next (all_names n buffer) (ipt_account_get_next_name buffer pos)

-- The names of the tables in use.
abbrev pub names_in_use : List AccTable → List (List ℕ)
names_in_use [] = []
names_in_use (t ∷ ts) = if is_free t then names_in_use ts else t.name ∷ names_in_use ts

unfoldable pub has_no_nul : List ℕ → Bool
has_no_nul [] = true
has_no_nul (b ∷ l) = not (b == 0) && has_no_nul l

unfoldable pub all_texts : List AccTable → Bool
all_texts [] = true
all_texts (t ∷ ts) = has_no_nul t.name && all_texts ts

span_to-append : (s l : List ℕ) → has_no_nul s ≡ true → span_to 0 (s ++ 0 ∷ l) ≡ s
unfolding span_to has_no_nul
span_to-append [] l h = refl
span_to-append (b ∷ s) l h = ground (arith, ap (◌∷◌ b) (span_to-append s l (ground arith)))

zero_sum : {b : ℕ} → 0 + b ≡ b
zero_sum = omega arith

suc_add : (a b : ℕ) → suc a + b ≡ suc (a + b)
suc_add a b = omega arith

skip-nil : (b : ℕ) → skip b [] ≡ []
unfolding skip
skip-nil zero = refl
skip-nil (suc b) = refl

skip-add : (a b : ℕ) (l : List ℕ) → skip (a + b) l ≡ skip b (skip a l)
unfolding skip
skip-add zero b l = ap (λ (n : ℕ). skip n l) zero_sum
skip-add (suc a) b [] = skip-nil (suc a + b) ∙ sym (skip-nil b)
skip-add (suc a) b (x ∷ l) = ap (λ (n : ℕ). skip n (x ∷ l)) (suc_add a b) ∙ skip-add a b l

skip_text : (s l : List ℕ) → skip (length s + 1) (s ++ 0 ∷ l) ≡ l
unfolding skip
skip_text [] l = refl
skip_text (b ∷ s) l =
    ap (λ (n : ℕ). skip n (b ∷ (s ++ 0 ∷ l))) (suc_add (length s) 1) ∙ skip_text s l

-- The names with their NULs.
joined : List (List ℕ) → List ℕ
joined [] = []
joined (n ∷ ns) = n ++ 0 ∷ joined ns

is_name : List ℕ → Bool
is_name [] = false
is_name (c ∷ s) = has_no_nul (c ∷ s)

all_named : List (List ℕ) → Bool
all_named [] = true
all_named (n ∷ ns) = is_name n && all_named ns

table_names-joined : (ts : List AccTable) → table_names ts ≡ joined (names_in_use ts)
unfolding table_names joined
table_names-joined [] = refl
table_names-joined (t ∷ ts) = elim (Bool-cases (is_free t)) [
  | inl y ↦ rw y (table_names-joined ts)
  | inr n ↦ rw n (ap (λ (l : List ℕ). t.name ++ 0 ∷ l) (table_names-joined ts))
]

used_name :
    (name : List ℕ)
    → (elim name [ [] ↦ true | c ∷ cs ↦ c == 0 ]) ≡ false
    → has_no_nul name ≡ true
    → is_name name ≡ true
unfolding is_name
used_name [] f h = cc
used_name (c ∷ s) f h = h

all_named_in_use : (ts : List AccTable) → all_texts ts ≡ true → all_named (names_in_use ts) ≡ true
unfolding all_named all_texts
all_named_in_use [] h = refl
all_named_in_use (t ∷ ts) h = elim (Bool-cases (is_free t)) [
  | inl y ↦ rw y (all_named_in_use ts (ground arith))
  | inr n ↦ rw n (ground (arith, used_name t.name n, all_named_in_use ts))
]

next_text :
    (s l : List ℕ) (c pos : ℕ)
    → has_no_nul (c ∷ s) ≡ true
    → next_from pos ((c ∷ s) ++ 0 ∷ l) ≡ some (some (c ∷ s, pos + (length (c ∷ s) + 1)))
unfolding next_from
next_text s l c pos h =
    let q : span_to 0 ((c ∷ s) ++ 0 ∷ l) ≡ c ∷ s = span_to-append (c ∷ s) l h in
    rw q (unfold has_no_nul in ground arith)

module _ (buffer junk : List ℕ) where
  names_from :
      (ns : List (List ℕ)) (pos : ℕ)
      → all_named ns ≡ true
      → skip pos buffer ≡ joined ns ++ 0 ∷ junk
      → all_names (suc (length ns)) buffer pos ≡ some ns
  unfolding all_names ipt_account_get_next_name joined next_from with_next cons_name all_named
      is_name
  names_from [] pos h e = ap (with_next (all_names zero buffer)) (ap (next_from pos) e)
  names_from ([] ∷ ns) pos h e = absurd (ground arith)
  names_from ((c ∷ s) ∷ ns) pos h e =
      let n = c ∷ s in
      let e' : skip pos buffer ≡ n ++ 0 ∷ (joined ns ++ 0 ∷ junk) =
        e ∙ append_assoc n (0 ∷ joined ns) (0 ∷ junk) in
      let text : has_no_nul n ≡ true = ground arith in
      let pos' = pos + (length n + 1) in
      let e2 : skip pos' buffer ≡ joined ns ++ 0 ∷ junk =
        skip-add pos (length n + 1) buffer
        ∙ ap (skip (length n + 1)) e'
        ∙ skip_text n (joined ns ++ 0 ∷ junk) in
      let ih = names_from ns pos' (ground arith) e2 in
      let got : ipt_account_get_next_name buffer pos ≡ some (some (n, pos')) =
        ap (next_from pos) e' ∙ next_text s (joined ns ++ 0 ∷ junk) c pos text in
      ap (with_next (all_names (suc (length ns)) buffer)) got ∙ ap (cons_name n) ih

all_names-table_names :
    (ts : List AccTable) (junk : List ℕ)
    → all_texts ts ≡ true
    → all_names (suc (length (names_in_use ts))) (table_names ts ++ 0 ∷ junk) 0
      ≡ some (names_in_use ts)
unfolding skip
all_names-table_names ts junk h =
    names_from (table_names ts ++ 0 ∷ junk) junk (names_in_use ts) 0 (all_named_in_use ts h)
      (ap (λ (l : List ℕ). l ++ 0 ∷ junk) (table_names-joined ts))

-- If the names of the tables hold no NUL and the kernel hands out the bytes `names`, then a user that
-- reads from them name after name until there is none gets the names of exactly the tables in use,
-- in order, whatever stands behind the bytes in the buffer.
pub all_names-get_table_names :
    (g : Grants) (len : ℕ) (net : AccNet) (names junk : List ℕ)
    → all_texts net.ipt_acc_tables ≡ true
    → (get_table_names g len net).1 ≡ gave_names names
    → all_names (suc (length (names_in_use net.ipt_acc_tables))) (names ++ junk) 0
      ≡ some (names_in_use net.ipt_acc_tables)
unfolding get_table_names
all_names-get_table_names g len net names junk h e =
    let ts = net.ipt_acc_tables in
    let q : table_names ts ++ 0 ∷ [] ≡ names = ground arith in
    let b : names ++ junk ≡ table_names ts ++ 0 ∷ junk =
      rw (← q) (append_assoc (table_names ts) (0 ∷ []) junk) in
    rw b (all_names-table_names ts junk h)
