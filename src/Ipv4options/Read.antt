-- ===== src/Ipv4options/Read.antt =====
-- `ipv4options_rd` (extensions/xt_ipv4options.c) ends on any bytes, and finds the options of an
-- area that was built from options.
use mathlib.Core.List.{append_assoc}
use xtables_addons.Common.{
  ℕ, zero, suc, ◌+◌, ◌-◌, ◌%◌, ◌^◌, ◌≤◌, ◌<◌, ◌≡◌, refl, ap, ◌∙◌, take, Bool, true, false, ◌||◌,
  Option, some, none, List, [], ◌∷◌, ◌++◌, bit_or, ltb, ◌==◌, if◌then◌else◌, length, length-append,
  arith,
}
use xtables_addons.Ipv4options.{
  MtInfo1, ipopt_end, ipopt_noop, drop, rd_loop, ipv4options_rd, ipv4options_mt, answer,
}

length-drop : (n : ℕ) (xs : List ℕ) → length (drop n xs) ≤ length xs
length-drop zero xs = omega arith
length-drop (suc n) [] = omega arith
length-drop (suc n) (x ∷ xs) = omega (arith, length-drop n xs)

drop-append : (xs ys : List ℕ) → drop (length xs) (xs ++ ys) ≡ ys
drop-append [] ys = refl
drop-append (x ∷ xs) ys = drop-append xs ys

-- A value that the loop returns.
abbrev pub Ends : Option ℕ → Type 0
Ends o = (opts : ℕ) × (o ≡ some opts)

if_Ends : (b : Bool) (x y : Option ℕ) → Ends x → Ends y → Ends (if b then x else y)
if_Ends true x y p q = p
if_Ends false x y p q = q

rd_loop-Ends :
    (fuel : ℕ) (bytes : List ℕ) (opts : ℕ) → length bytes < fuel → Ends (rd_loop fuel bytes opts)
unfolding rd_loop
rd_loop-Ends zero bytes opts h = elim h [ ]
rd_loop-Ends (suc fuel) [] opts h = (opts, refl)
rd_loop-Ends (suc fuel) (kind ∷ []) opts h = (opts, refl)
rd_loop-Ends (suc fuel) (kind ∷ size ∷ bytes) opts h =
    if_Ends (kind == ipopt_end) _ _ (opts, refl)
      (if_Ends (kind == ipopt_noop) _ _ (rd_loop-Ends fuel (size ∷ bytes) opts (omega arith)) (
        if_Ends (ltb size 2 || ltb (length (kind ∷ size ∷ bytes)) size) _ _ (opts, refl)
          (rd_loop-Ends fuel (drop (size - 2) bytes) (bit_or opts (2 ^ (kind % 32)))
            (omega (arith, length-drop (size - 2) bytes)))))

answer-Ends : (info : MtInfo1) (o : Option ℕ) → Ends o → (b : Bool) × (answer info o ≡ some b)
unfolding answer
answer-Ends info none (opts, e) = ground arith
answer-Ends info (some opts) (opts', e) = (_, refl)

-- The match answers on any bytes: the walk over the options ends.
pub ipv4options_mt_ends :
    (info : MtInfo1) (ip_hdrlen : ℕ) (bytes : List ℕ)
    → (b : Bool) × (ipv4options_mt info ip_hdrlen bytes ≡ some b)
unfolding ipv4options_mt ipv4options_rd
ipv4options_mt_ends info ip_hdrlen bytes =
    let len = (ip_hdrlen + 2 ^ 16 - 20) % 2 ^ 16 in
    answer-Ends info (if ltb 0 len then ipv4options_rd (take len bytes) else some 0) (
      if_Ends (ltb 0 len) _ _
        (rd_loop-Ends (suc (length (take len bytes))) (take len bytes) 0 (omega arith)) (0, refl))

-- An option as it is sent: padding, or a number above 1 with its contents.
pub data IpOption : Type 0 where
  noop : IpOption
  option : ℕ → List ℕ → IpOption

abbrev pub AreOptions : List IpOption → Type 0
AreOptions [] = Unit
AreOptions (noop ∷ os) = AreOptions os
AreOptions (option kind contents ∷ os) = (1 < kind) × AreOptions os

abbrev pub encode : List IpOption → List ℕ
encode [] = []
encode (noop ∷ os) = ipopt_noop ∷ encode os
encode (option kind contents ∷ os) = kind ∷ (length contents + 2) ∷ (contents ++ encode os)

-- The set of the options' numbers.
abbrev pub collect : List IpOption → ℕ → ℕ
collect [] opts = opts
collect (noop ∷ os) opts = collect os opts
collect (option kind contents ∷ os) opts = collect os (bit_or opts (2 ^ (kind % 32)))

rd_loop_noop :
    (fuel : ℕ) (bytes : List ℕ) (opts : ℕ)
    → 0 < length bytes
    → rd_loop (suc fuel) (1 ∷ bytes) opts ≡ rd_loop fuel bytes opts
unfolding rd_loop
rd_loop_noop fuel [] opts h = elim h [ ]
rd_loop_noop fuel (b ∷ bytes) opts h = refl

rd_loop_option :
    (fuel kind : ℕ) (contents bytes : List ℕ) (opts : ℕ)
    → 1 < kind
    → rd_loop (suc fuel) (kind ∷ (length contents + 2) ∷ (contents ++ bytes)) opts
      ≡ rd_loop fuel bytes (bit_or opts (2 ^ (kind % 32)))
unfolding rd_loop
rd_loop_option fuel kind contents bytes opts h =
    let e : drop (length contents + 2 - 2) (contents ++ bytes) ≡ bytes =
      ap (λ (n : ℕ). drop n (contents ++ bytes)) (omega arith) ∙ drop-append contents bytes in
    rw e (ground (arith, length-append contents bytes))

rd_loop_end : (fuel : ℕ) (rest : List ℕ) (opts : ℕ) → rd_loop (suc fuel) (0 ∷ rest) opts ≡ some opts
unfolding rd_loop
rd_loop_end fuel [] opts = refl
rd_loop_end fuel (b ∷ rest) opts = refl

rd_loop-encode :
    (fuel : ℕ) (os : List IpOption) (rest : List ℕ) (opts : ℕ)
    → AreOptions os
    → length (encode os ++ ipopt_end ∷ rest) < fuel
    → rd_loop fuel (encode os ++ ipopt_end ∷ rest) opts ≡ some (collect os opts)
rd_loop-encode zero os rest opts ok h = elim h [ ]
rd_loop-encode (suc fuel) [] rest opts ok h = rd_loop_end fuel rest opts
rd_loop-encode (suc fuel) (noop ∷ os) rest opts ok h =
    rd_loop_noop fuel (encode os ++ ipopt_end ∷ rest) opts
      (omega (arith, length-append (encode os) (ipopt_end ∷ rest)))
    ∙ rd_loop-encode fuel os rest opts ok (omega arith)
rd_loop-encode (suc fuel) (option kind contents ∷ os) rest opts ok h =
    rw (append_assoc contents (encode os) (ipopt_end ∷ rest)) (
      rd_loop_option fuel kind contents (encode os ++ ipopt_end ∷ rest) opts ok.0
      ∙ rd_loop-encode fuel os rest (bit_or opts (2 ^ (kind % 32))) ok.1 (
          omega (
            arith,
            length-append (contents ++ encode os) (ipopt_end ∷ rest),
            length-append contents (encode os),
            length-append (encode os) (ipopt_end ∷ rest),
          )))

-- The walk over an area of options, each with a number above 1 and its true length, padded with
-- no-operations anywhere and closed by the end option, finds exactly the set of the numbers of these
-- options, neither the no-operations, number 1, nor the end option among them, whatever bytes follow.
pub ipv4options_rd-encode :
    (os : List IpOption) (rest : List ℕ)
    → AreOptions os
    → ipv4options_rd (encode os ++ ipopt_end ∷ rest) ≡ some (collect os 0)
unfolding ipv4options_rd
ipv4options_rd-encode os rest ok = rd_loop-encode _ os rest 0 ok (omega arith)
