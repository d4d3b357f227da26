-- ===== src/Base/Numeral/RoundTrip.antt =====
-- A number that was written is read back.
use Prim.Native.Nat.{ℕ, zero, suc, ◌+◌, ◌*◌, ◌/◌, ◌%◌, ◌≤◌, ◌<◌}
use Prim.Native.Char.{code}
use Prim.Native.String.{String, ◌++◌ as ◌<>◌}
use mathlib.Core.Path.{◌≡◌, refl, ◌∙◌, ap, sym}
use mathlib.Core.Bool.{Bool, true, false}
use mathlib.Core.Logic.{inl, inr}
use mathlib.Core.Option.{some}
use mathlib.Core.List.{List, [], ◌∷◌, ◌++◌, append_assoc, append-nil}
use native.Mathlib.Omega.{arith}
use native.Mathlib.Nat.{div-add-mod', mod-lt, div-lt_self}
use text.Mathlib.TextLemmas.{nil-append, cons-append}
use buildoor_tester.Base.Tests.{ltb, lt→ltb, ltb→lt, ◌==◌, Bool-cases}
use buildoor_tester.Base.Lists.{All}
use buildoor_tester.Base.Int.{pos}
use buildoor_tester.Base.Numeral.Reading.{
  codes, digit, unsigned, digit_value, is_space, read_digits, skip_underscore, read_magnitude,
  read_signed, skip_prefix, strip_left, strip_right, int_of, digits_in, hex, decimal,
}

codes-append : (s t : String) → codes (s <> t) ≡ codes s ++ codes t
codes-append String.[] t = ap codes (nil-append t)
codes-append (String.◌∷◌ c s) t =
    ap codes (cons-append c s t) ∙ ap (λ r. code c ∷ r) (codes-append s t)

-- What a digit's character is not: white space, an underscore or a sign.
record IsPlain (c : ℕ) : Type 0 where
  solid : is_space c ≡ false
  no_underscore : (c == b'_') ≡ false
  no_minus : (c == b'-') ≡ false
  no_plus : (c == b'+') ≡ false

-- A digit is one character, which has the digit's value.
record IsDigit (d c : ℕ) : Type 0 where
  spelled : codes (digit d) ≡ c ∷ []
  valued : digit_value c ≡ some d
  plain : IsPlain c

code-IsDigit : (d : ℕ) → d < 16 → (c : ℕ) × IsDigit d c
unfolding digit
code-IsDigit zero h = (48, record { spelled = refl; valued = refl; plain = ground arith })
code-IsDigit (suc zero) h = (49, record { spelled = refl; valued = refl; plain = ground arith })
code-IsDigit (suc (suc zero)) h =
    (50, record { spelled = refl; valued = refl; plain = ground arith })
code-IsDigit (suc (suc (suc zero))) h =
    (51, record { spelled = refl; valued = refl; plain = ground arith })
code-IsDigit (suc (suc (suc (suc zero)))) h =
    (52, record { spelled = refl; valued = refl; plain = ground arith })
code-IsDigit (suc (suc (suc (suc (suc zero))))) h =
    (53, record { spelled = refl; valued = refl; plain = ground arith })
code-IsDigit (suc (suc (suc (suc (suc (suc zero)))))) h =
    (54, record { spelled = refl; valued = refl; plain = ground arith })
code-IsDigit (suc (suc (suc (suc (suc (suc (suc zero))))))) h =
    (55, record { spelled = refl; valued = refl; plain = ground arith })
code-IsDigit (suc (suc (suc (suc (suc (suc (suc (suc zero)))))))) h =
    (56, record { spelled = refl; valued = refl; plain = ground arith })
code-IsDigit (suc (suc (suc (suc (suc (suc (suc (suc (suc zero))))))))) h =
    (57, record { spelled = refl; valued = refl; plain = ground arith })
code-IsDigit (suc (suc (suc (suc (suc (suc (suc (suc (suc (suc zero)))))))))) h =
    (97, record { spelled = refl; valued = refl; plain = ground arith })
code-IsDigit (suc (suc (suc (suc (suc (suc (suc (suc (suc (suc (suc zero))))))))))) h =
    (98, record { spelled = refl; valued = refl; plain = ground arith })
code-IsDigit (suc (suc (suc (suc (suc (suc (suc (suc (suc (suc (suc (suc zero)))))))))))) h =
    (99, record { spelled = refl; valued = refl; plain = ground arith })
code-IsDigit (suc (suc (suc (suc (suc (suc (suc (suc (suc (suc (suc (suc (suc zero))))))))))))) h =
    (100, record { spelled = refl; valued = refl; plain = ground arith })
code-IsDigit
      (suc (suc (suc (suc (suc (suc (suc (suc (suc (suc (suc (suc (suc (suc zero)))))))))))))) h =
    (101, record { spelled = refl; valued = refl; plain = ground arith })
code-IsDigit
      (suc (suc (suc (suc (suc (suc (suc (suc (suc (suc (suc (suc (suc (suc (suc zero)))))))))))))))
      h =
    (102, record { spelled = refl; valued = refl; plain = ground arith })
code-IsDigit
      (suc
        (suc (suc (suc (suc (suc (suc (suc (suc (suc (suc (suc (suc (suc (suc (suc d))))))))))))))))
      h =
    absurd (omega arith)

module _ (base : ℕ) (small : base ≤ 16) where
  read_digits-digit :
      (acc : ℕ) (after : Bool) (d : ℕ) (rest : List ℕ)
      → d < base
      → read_digits base acc after (codes (digit d) ++ rest)
        ≡ read_digits base (acc * base + d) true rest
  unfolding read_digits
  read_digits-digit acc after d rest h =
      let (c, is) = code-IsDigit d (omega arith) in
      rw (is.spelled, is.plain.no_underscore, is.valued, lt→ltb d base h)

  digit-IsPlain : (d : ℕ) → d < base → All IsPlain (codes (digit d))
  digit-IsPlain d h = let (c, is) = code-IsDigit d (omega arith) in rw is.spelled (is.plain, tt)

All-append {ℓ κ} :
    {A : Type ℓ} (P : A → Type κ) (xs ys : List A) → All P xs → All P ys → All P (xs ++ ys)
All-append P [] ys hx hy = hy
All-append P (x ∷ xs) ys hx hy = (hx.0, All-append P xs ys hx.1 hy)

digits_in-low : (base f n : ℕ) → ltb n base ≡ true → digits_in base (suc f) n ≡ digit n
unfolding digits_in
digits_in-low base f n e = rw e

digits_in-high :
    (base f n : ℕ)
    → ltb n base ≡ false
    → digits_in base (suc f) n ≡ digits_in base f (n / base) <> digit (n % base)
unfolding digits_in
digits_in-high base f n e = rw e

module _ (base : ℕ) (big : 1 < base) (small : base ≤ 16) where
  -- Dividing by the base uses up less than the fuel.
  quotient_fits : (f n : ℕ) → ltb n base ≡ false → n < suc f → n / base < f
  quotient_fits f n high h =
      let falls : n / base < n = div-lt_self (ground (arith, high)) big in omega arith

  -- The digits of `n` are read as `n`, whatever follows.
  read_digits-digits_in :
      (f n : ℕ) (rest : List ℕ)
      → n < f
      → read_digits base 0 false (codes (digits_in base f n) ++ rest) ≡ read_digits base n true rest
  read_digits-digits_in zero n rest h = absurd (omega arith)
  read_digits-digits_in (suc f) n rest h = elim (Bool-cases (ltb n base)) [
    | inl low ↦ rw (digits_in-low base f n low) (
        read_digits-digit base small 0 false n rest (ltb→lt n base low)
        ∙ ap (λ m. read_digits base m true rest) (omega arith))
    | inr high ↦
        rw
          (
            digits_in-high base f n high,
            codes-append,
            append_assoc,
            read_digits-digits_in f (n / base) (codes (digit (n % base)) ++ rest)
                (quotient_fits f n high h),
          )
          (read_digits-digit base small (n / base) true (n % base) rest (mod-lt n (omega arith))
            ∙ ap (λ m. read_digits base m true rest) (div-add-mod' n base))
  ]

  digits_in-IsPlain : (f n : ℕ) → n < f → All IsPlain (codes (digits_in base f n))
  digits_in-IsPlain zero n h = absurd (omega arith)
  digits_in-IsPlain (suc f) n h = elim (Bool-cases (ltb n base)) [
    | inl low ↦ rw (digits_in-low base f n low) (digit-IsPlain base small n (ltb→lt n base low))
    | inr high ↦
        rw (digits_in-high base f n high, codes-append)
          (All-append IsPlain (codes (digits_in base f (n / base))) _
            (digits_in-IsPlain f (n / base) (quotient_fits f n high h))
            (digit-IsPlain base small (n % base) (mod-lt n (omega arith))))
  ]

  read_digits-written :
      (n : ℕ) → read_digits base 0 false (codes (digits_in base (suc n) n)) ≡ some n
  read_digits-written n =
      ap (read_digits base 0 false) (sym (append-nil (codes (digits_in base (suc n) n))))
      ∙ read_digits-digits_in (suc n) n [] (omega arith)
      ∙ unfold read_digits in refl

strip_left-plain : (s : List ℕ) → All IsPlain s → strip_left s ≡ s
unfolding strip_left
strip_left-plain [] h = refl
strip_left-plain (c ∷ s) h = rw (h.0.solid)

strip_right-plain : (s : List ℕ) → All IsPlain s → strip_right s ≡ s
unfolding strip_right
strip_right-plain [] h = refl
strip_right-plain (c ∷ s) h = rw (h.0.solid, strip_right-plain s h.1)

skip_underscore-plain : (s : List ℕ) → All IsPlain s → skip_underscore s ≡ s
skip_underscore-plain [] h = refl
skip_underscore-plain (c ∷ s) h = rw (h.0.no_underscore)

skip_prefix-decimal : (s : List ℕ) → skip_prefix 10 s ≡ s
unfolding skip_prefix
skip_prefix-decimal [] = refl
skip_prefix-decimal (c ∷ []) = refl
skip_prefix-decimal (c ∷ x ∷ s) = refl

read_signed-plain :
    (base : ℕ) (s : List ℕ) (n : ℕ)
    → All IsPlain s
    → read_magnitude base s ≡ some n
    → read_signed base s ≡ some (pos n)
unfolding read_signed
read_signed-plain base [] n h e = unfold read_magnitude in cc
read_signed-plain base (c ∷ s) n h e = rw (h.0.no_minus, h.0.no_plus, e)

-- `int(hex(n), 16) == n`.
pub int_of-hex : (n : ℕ) → int_of 16 (hex (pos n)) ≡ some (pos n)
unfolding int_of hex
int_of-hex n =
    let s = codes (digits_in 16 (suc n) n) in
    let plain = digits_in-IsPlain 16 (omega arith) (omega arith) (suc n) n (omega arith) in
    rw (codes-append, strip_left, strip_right-plain s plain)
      (ap unsigned (
        ap (read_digits 16 0 false) (skip_underscore-plain s plain)
        ∙ read_digits-written 16 (omega arith) (omega arith) n))

-- `int(str(n)) == n`.
pub int_of-decimal : (n : ℕ) → int_of 10 (decimal (pos n)) ≡ some (pos n)
unfolding int_of decimal
int_of-decimal n =
    let s = codes (digits_in 10 (suc n) n) in
    let plain = digits_in-IsPlain 10 (omega arith) (omega arith) (suc n) n (omega arith) in
    rw (strip_left-plain s plain, strip_right-plain s plain)
      (read_signed-plain 10 s n plain (
        ap (read_digits 10 0 false) (skip_prefix-decimal s)
        ∙ read_digits-written 10 (omega arith) (omega arith) n))
