-- ===== src/Quota2/Write.antt =====
-- Changes of a quota through procfs (`quota_proc_write` of extensions/xt_quota2.c).
use xtables_addons.Common.{
  ℕ, zero, suc, ◌+◌, ◌-◌, ◌%◌, ◌^◌, ◌<◌, ◌≤◌, ◌≡◌, refl, ap, false, some, Option, List, [], ◌∷◌,
  ◌==◌, min, take, length, arith,
}
use xtables_addons.Common.Words.{u64_mod}
use xtables_addons.Quota2.{
  add_quota, sub_quota, Strto, buf_size, c_string, write_text, quota_proc_write,
}

-- A write lowers the quota by `m`, not below 0.
abbrev Lowers : (ℕ → ℕ) → ℕ → ℕ → Type 0
Lowers write m quota = write quota ≡ quota - m

-- A write raises the quota by `m`, modulo 2 ^ 64.
abbrev Raises : (ℕ → ℕ) → ℕ → ℕ → Type 0
Raises write m quota = write quota ≡ (quota + m) % u64_mod

-- What the file holds after a write of a text of fewer than 23 bytes without NUL, from the user's
-- buffer of that size.
abbrev pub after_write : Strto → List ℕ → ℕ → Option (ℕ × ℕ)
after_write strto text quota = quota_proc_write strto (λ n. some (take n text)) (length text) quota

add_quota-sub_quota :
    (m quota : ℕ)
    → 0 < m
    → m < 2 ^ 63
    → quota < u64_mod
    → Raises (add_quota m) m quota
      × Raises (sub_quota (u64_mod - m)) m quota
      × Lowers (sub_quota m) m quota
      × Lowers (add_quota (u64_mod - m)) m quota
unfolding add_quota sub_quota
add_quota-sub_quota m quota positive small fits =
    (ground arith, ground arith, ground arith, ground arith)

abbrev pub AllText : List ℕ → Type 0
AllText [] = Unit
AllText (c ∷ cs) = ((c == 0) ≡ false) × AllText cs

c_string_whole : (cs : List ℕ) → AllText cs → c_string cs ≡ cs
c_string_whole [] text = refl
c_string_whole (c ∷ cs) text = rw text.0 (ap (λ l. c ∷ l) (c_string_whole cs text.1))

take_whole : (n : ℕ) (xs : List ℕ) → length xs ≤ n → take n xs ≡ xs
take_whole zero [] h = refl
take_whole zero (x ∷ xs) h = absurd (omega arith)
take_whole (suc n) [] h = refl
take_whole (suc n) (x ∷ xs) h = ap (λ l. x ∷ l) (take_whole n xs (omega arith))

written_text :
    (strto : Strto) (text : List ℕ) (quota : ℕ)
    → AllText text
    → length text < 23
    → after_write strto text quota ≡ some (length text, write_text strto text quota)
unfolding quota_proc_write
written_text strto text quota whole short =
    let n : min (length text) buf_size ≡ length text = ground arith in
    let t : take (length text) text ≡ text = take_whole (length text) text (omega arith) in
    let u : take (buf_size - 1) text ≡ text = take_whole (buf_size - 1) text (omega arith) in
    rw (n, t, u, c_string_whole text whole) refl

-- For a 64-bit quota, a number m from 1 up to but not including 2 ^ 63, and two texts of at most 21
-- bytes without NUL that the kernel reads as m and as -m: the write of the first behind a plus and of
-- the second behind a minus raises the quota by m modulo 2 ^ 64, and the write of the first behind a
-- minus and of the second behind a plus lowers it by m, to 0 at least; each write takes the whole text.
pub quota_proc_write-Changes :
    (strto : Strto) (digits minus : List ℕ) (m quota : ℕ)
    → AllText digits
    → AllText minus
    → length digits < 22
    → length minus < 22
    → strto.simple_strtoll digits ≡ m
    → strto.simple_strtoll minus ≡ u64_mod - m
    → 0 < m
    → m < 2 ^ 63
    → quota < u64_mod
    → (after_write strto (b'+' ∷ digits) quota ≡ some (suc (length digits), (quota + m) % u64_mod))
      × (after_write strto (b'-' ∷ minus) quota ≡ some (suc (length minus), (quota + m) % u64_mod))
      × (after_write strto (b'-' ∷ digits) quota ≡ some (suc (length digits), quota - m))
      × (after_write strto (b'+' ∷ minus) quota ≡ some (suc (length minus), quota - m))
unfolding write_text
quota_proc_write-Changes strto digits minus m quota d1 d2 l1 l2 e1 e2 positive small fits =
    let (up, up2, down, down2) = add_quota-sub_quota m quota positive small fits in
    let r1 : strto.simple_strtoll digits % u64_mod ≡ m = omega (arith, e1) in
    let r2 : strto.simple_strtoll minus % u64_mod ≡ u64_mod - m = omega (arith, e2) in
    (
      rw (written_text strto (b'+' ∷ digits) quota (refl, d1) (omega arith), r1)
          (ap (λ q. some (suc (length digits), q)) up),
      rw (written_text strto (b'-' ∷ minus) quota (refl, d2) (omega arith), r2)
          (ap (λ q. some (suc (length minus), q)) up2),
      rw (written_text strto (b'-' ∷ digits) quota (refl, d1) (omega arith), r1)
          (ap (λ q. some (suc (length digits), q)) down),
      rw (written_text strto (b'+' ∷ minus) quota (refl, d2) (omega arith), r2)
          (ap (λ q. some (suc (length minus), q)) down2),
    )
