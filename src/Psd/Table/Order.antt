-- ===== src/Psd/Table/Order.antt =====
-- The hash chains of psd stay in order (extensions/xt_psd.c).
use xtables_addons.Common.{
  ℕ, ◌≤◌, ◌<◌, ◌≡◌, refl, Bool, true, false, not, ◌&&◌, Option, some, none, List, [], ◌∷◌, ◌++◌,
  ◌==◌, length, arith, Bool-cases, inl, inr,
}
unfoldable pub use xtables_addons.Common.Members.{elem}
use xtables_addons.Psd.Table.{last_of, cut_behind, remove_oldest, remove_from_last}

unfoldable pub distinct : List ℕ → Bool
distinct [] = true
distinct (i ∷ c) = not (elem i c) && distinct c

-- The first list is the second with some left out.
pub data Within : List ℕ → List ℕ → Type 0 where
  empty : Within [] []
  keep : {c d : List ℕ} (i : ℕ) → Within c d → Within (i ∷ c) (i ∷ d)
  leave : {c d : List ℕ} (i : ℕ) → Within c d → Within c (i ∷ d)

pub all : (c : List ℕ) → Within c c
all [] = empty
all (i ∷ c) = keep i (all c)

pub none_of : (c : List ℕ) → Within [] c
none_of [] = empty
none_of (i ∷ c) = leave i (none_of c)

pub elem-Within : {c d : List ℕ} (j : ℕ) → Within c d → elem j c ≡ true → elem j d ≡ true
unfolding elem
elem-Within j empty e = e
elem-Within j (keep {c = c} {d = d} i w) e = elim (Bool-cases (i == j)) [
  | inl same ↦ rw same refl
  | inr other ↦ rw other (elem-Within j w (rw other at e))
]
elem-Within j (leave {d = d} i w) e =
    let there : elem j d ≡ true = elem-Within j w e in ground arith

pub distinct-Within : {c d : List ℕ} → Within c d → distinct d ≡ true → distinct c ≡ true
unfolding distinct
distinct-Within empty e = e
distinct-Within (keep {c = c} {d = d} i w) e =
    let rest : distinct c ≡ true = distinct-Within w (ground arith) in
    let fresh : elem i c ≡ false = elim (Bool-cases (elem i c)) [
      | inl there ↦ let there_too : elem i d ≡ true = elem-Within i w there in ground arith
      | inr gone ↦ gone
    ] in
    rw (fresh, rest) refl
distinct-Within (leave i w) e = distinct-Within w (ground arith)

pub length-Within : {c d : List ℕ} → Within c d → length c ≤ length d
length-Within empty = ground arith
length-Within (keep {c = c} {d = d} i w) =
    let l : length c ≤ length d = length-Within w in omega (arith, l)
length-Within (leave {c = c} {d = d} i w) =
    let l : length c ≤ length d = length-Within w in omega (arith, l)

pub remove_oldest-Within : (i : ℕ) (c : List ℕ) → Within (remove_oldest i c) c
unfolding remove_oldest
remove_oldest-Within i [] = empty
remove_oldest-Within i (j ∷ c) = elim (Bool-cases (j == i)) [
  | inl same ↦ rw same (leave j (all c))
  | inr other ↦ rw other (keep j (remove_oldest-Within i c))
]

pub remove_oldest_gone :
    (i : ℕ) (c : List ℕ) → distinct c ≡ true → elem i (remove_oldest i c) ≡ false
unfolding remove_oldest distinct elem
remove_oldest_gone i [] e = refl
remove_oldest_gone i (j ∷ c) e = elim (Bool-cases (j == i)) [
  | inl same ↦ let here : j ≡ i = ground arith in rw (same, ← here) (ground arith)
  | inr other ↦
      let rest : elem i (remove_oldest i c) ≡ false = remove_oldest_gone i c (ground arith) in
      rw (other, other, rest) refl
]

pub remove_from_last-Within :
    (i : ℕ) (last : Option ℕ) (c : List ℕ) → Within (remove_from_last i last c) c
unfolding remove_from_last
remove_from_last-Within i none c = all c
remove_from_last-Within i (some l) [] = empty
remove_from_last-Within i (some l) (j ∷ c) = elim (Bool-cases (j == l)) [
  | inl here ↦ rw here (elim (Bool-cases (i == l)) [
    | inl same ↦ rw same (all (j ∷ c))
    | inr other ↦ rw other (keep j (remove_oldest-Within i c))
  ])
  | inr on ↦ rw on (keep j (remove_from_last-Within i (some l) c))
]

pub cut_behind-Within : (l : ℕ) (c : List ℕ) → Within (cut_behind l c) c
unfolding cut_behind
cut_behind-Within l [] = empty
cut_behind-Within l (j ∷ c) = elim (Bool-cases (j == l)) [
  | inl here ↦ rw here (keep j (none_of c))
  | inr on ↦ rw on (keep j (cut_behind-Within l c))
]

-- Cutting behind `last` drops one entry at least.
pub cut_behind_shorter :
    (l : ℕ) (c : List ℕ) → last_of c ≡ some l → length (cut_behind l c) < length c
unfolding last_of cut_behind
cut_behind_shorter l [] e = ground arith
cut_behind_shorter l (i ∷ []) e = ground arith
cut_behind_shorter l (i ∷ j ∷ c) e = elim (Bool-cases (i == l)) [
  | inl here ↦ rw here (ground arith)
  | inr on ↦
      let further : last_of (j ∷ c) ≡ some l = ground arith in
      let shorter : length (cut_behind l (j ∷ c)) < length (j ∷ c) =
        cut_behind_shorter l (j ∷ c) further in
      rw on (omega (arith, shorter))
]

pub last_of_long : (c : List ℕ) → last_of c ≡ none → length c ≤ 1
unfolding last_of
last_of_long [] e = ground arith
last_of_long (i ∷ []) e = ground arith
last_of_long (i ∷ j ∷ c) e = elim (Bool-cases (length c == 0)) [
  | inl two ↦ ground (arith, rw two at e)
  | inr more ↦ let short : length (j ∷ c) ≤ 1 = last_of_long (j ∷ c) (rw more at e) in ground arith
]

-- What stands before and behind a place that the walk found.
pub split-Within :
    (before behind : List ℕ) (i : ℕ) → Within (before ++ behind) (before ++ i ∷ behind)
split-Within [] behind i = leave i (all behind)
split-Within (j ∷ before) behind i = keep j (split-Within before behind i)

pub split_shorter :
    (before behind : List ℕ) (i : ℕ) → length (before ++ behind) < length (before ++ i ∷ behind)
split_shorter [] behind i = ground arith
split_shorter (j ∷ before) behind i =
    let rest : length (before ++ behind) < length (before ++ i ∷ behind) =
      split_shorter before behind i in
    omega (arith, rest)

pub elem_middle : (before behind : List ℕ) (i : ℕ) → elem i (before ++ i ∷ behind) ≡ true
unfolding elem
elem_middle [] behind i = let here : (i == i) ≡ true = ground arith in rw here refl
elem_middle (j ∷ before) behind i =
    let there : elem i (before ++ i ∷ behind) ≡ true = elem_middle before behind i in ground arith

pub split_gone :
    (before behind : List ℕ) (i : ℕ)
    → distinct (before ++ i ∷ behind) ≡ true
    → elem i (before ++ behind) ≡ false
unfolding distinct elem
split_gone [] behind i e = ground arith
split_gone (j ∷ before) behind i e =
    let rest : elem i (before ++ behind) ≡ false = split_gone before behind i (ground arith) in
    let other : (j == i) ≡ false = elim (Bool-cases (j == i)) [
      | inl same ↦
          let there : elem i (before ++ i ∷ behind) ≡ true = elem_middle before behind i in
          let here : j ≡ i = ground arith in
          let twice : elem j (before ++ i ∷ behind) ≡ true = (rw here there) in ground arith
      | inr other ↦ other
    ] in
    rw (other, rest) refl
