-- ===== src/Account/Handles/Buffer.antt =====
-- The page buffer of `ipt_acc_handle_copy_data` (extensions/ACCOUNT/xt_ACCOUNT.c) neither loses nor
-- reorders entries.
use mathlib.Core.List.{append_assoc, append-nil}
use xtables_addons.Common.{
  ℕ, zero, suc, ◌+◌, ◌*◌, ◌≤◌, ◌≡◌, refl, sym, ap, ◌∙◌, Bool, true, false, Option, some, List, [],
  ◌∷◌, ◌++◌, bit_or, ltb, if◌then◌else◌, length, length-append, arith, Bool-cases, inl, inr,
}
use xtables_addons.Account.{Mask24}
use xtables_addons.Account.Handles.{
  HandleIp, handle_ip_size, Output, is_used, put_ip, and_then, copy_from, ipt_acc_handle_copy_data,
}

abbrev pub only_if : Bool → HandleIp → List HandleIp
only_if true e = e ∷ []
only_if false e = []

-- The entries of the used slots from `i` on, `n` in number, in order.
abbrev pub entries : ℕ → Mask24 → ℕ → ℕ → ℕ → List HandleIp
entries zero page net_ip net_or_mask i = []
entries (suc n) page net_ip net_or_mask i =
    only_if (is_used (page i))
      (record { ip = bit_or (bit_or net_ip net_or_mask) i; counters = page i })
    ++ entries n page net_ip net_or_mask (i + 1)

-- All that was put out, in order.
abbrev pub written : Output → List HandleIp
written out = out.to_user ++ out.tmpbuf

module _ (page_size : ℕ) (room : handle_ip_size ≤ page_size) where
  abbrev pub Fits : Output → Type 0
  Fits out = length out.tmpbuf * handle_ip_size ≤ page_size

  -- A result that wrote `es` after what was there, within the buffer.
  pub record Writes (before : Output) (es : List HandleIp) (r : Option Output) : Type 0 where
    pub out : Output
    pub ends : r ≡ some out
    pub all : written out ≡ written before ++ es
    pub fits : Fits out

  module _ (copy_ok : ℕ → ℕ → Bool) (copies : (m n : ℕ) → copy_ok m n ≡ true) where
    put_ip-Writes :
        (e : HandleIp) (out : Output)
        → Fits out
        → Writes out (e ∷ []) (put_ip page_size copy_ok e out)
    unfolding put_ip
    put_ip-Writes e out fits =
        elim (Bool-cases (ltb (length out.tmpbuf * handle_ip_size + handle_ip_size) page_size)) [
          | inl small ↦ rw small (record {
            out = record out { tmpbuf = out.tmpbuf ++ e ∷ [] };
            ends = refl;
            all = sym (append_assoc out.to_user out.tmpbuf (e ∷ []));
            fits = ground (arith, length-append out.tmpbuf (e ∷ []));
          })
          | inr full ↦
              rw (full, copies (length out.to_user) (length out.tmpbuf))
                (record {
                  out = record { to_user = out.to_user ++ out.tmpbuf; tmpbuf = e ∷ [] };
                  ends = refl;
                  all = refl;
                  fits = omega arith;
                })
        ]

    slot-Writes :
        (used : Bool) (e : HandleIp) (out : Output)
        → Fits out
        → Writes out (only_if used e) (if used then put_ip page_size copy_ok e out else some out)
    slot-Writes true e out fits = put_ip-Writes e out fits
    slot-Writes false e out fits = record {
      out = out;
      ends = refl;
      all = sym (append-nil (written out));
      fits = fits;
    }

    and_then-Writes :
        (before : Output) (es fs : List HandleIp) (r : Option Output)
        (next : Output → Option Output)
        → Writes before es r
        → ((out : Output) → Fits out → Writes out fs (next out))
        → Writes before (es ++ fs) (and_then page_size copy_ok r next)
    and_then-Writes before es fs r next w step =
        let v = step w.out w.fits in
        rw w.ends (record {
          out = v.out;
          ends = v.ends;
          all = v.all ∙ ap (λ xs. xs ++ fs) w.all ∙ append_assoc (written before) es fs;
          fits = v.fits;
        })

    copy_from-Writes :
        (n : ℕ) (page : Mask24) (net_ip net_or_mask i : ℕ) (out : Output)
        → Fits out
        → Writes out
            (entries n page net_ip net_or_mask i)
            (copy_from page_size copy_ok n page net_ip net_or_mask i out)
    unfolding copy_from
    copy_from-Writes zero page net_ip net_or_mask i out fits = record {
      out = out;
      ends = refl;
      all = sym (append-nil (written out));
      fits = fits;
    }
    copy_from-Writes (suc n) page net_ip net_or_mask i out fits =
        and_then-Writes out _ _ _ _
          (slot-Writes (is_used (page i))
            (record { ip = bit_or (bit_or net_ip net_or_mask) i; counters = page i }) out fits)
          (λ o f. copy_from-Writes n page net_ip net_or_mask (i + 1) o f)

    -- With a buffer that has room for an entry and holds at most its size, and where copying to user
    -- space never faults, the copy of a page ends; what was put out, to user space and in the buffer,
    -- grows by exactly the entries of the page's used slots in order, and the buffer again holds at
    -- most its size.
    pub ipt_acc_handle_copy_data-Writes :
        (page : Mask24) (net_ip net_or_mask : ℕ) (out : Output)
        → Fits out
        → Writes out
            (entries 256 page net_ip net_or_mask 0)
            (ipt_acc_handle_copy_data page_size copy_ok page net_ip net_or_mask out)
    unfolding ipt_acc_handle_copy_data
    ipt_acc_handle_copy_data-Writes page net_ip net_or_mask out fits =
        copy_from-Writes 256 page net_ip net_or_mask 0 out fits
