-- ===== src/Prelude/Strconv/RoundTrip.antt =====
-- Numbers survive FormatInt and ParseInt, in every base from 2 to 36.
use Prim.Native.Char.{code}
use Prim.Native.String.{[], ◌∷◌, ◌++◌}
use Prim.Native.String.append
use native.Mathlib.Nat.{div-add-mod, div-add-mod'}
use dc.Prelude.{
  sym, ℕ, zero, suc, ◌+◌, ◌*◌, ◌/◌, ◌%◌, ◌≤◌, ◌<◌, String, ◌≡◌, refl, ap, ◌∙◌, inl, inr, Bool, true,
  false, ◌&&◌, Option, none, some, arith, leb, nat_eq, Bool-cases,
}
use dc.Prelude.Int.{ℤ, pos, negsuc, IsInt64}
use dc.Prelude.Strconv.{
  digit_value, parse_digits, parse_uint, positive, negative, parse_int, digit_char, format_digits,
  format_uint, format_int,
}

abbrev is_digit : ℕ → Option ℕ → Bool
is_digit d none = false
is_digit d (some e) = nat_eq d e

-- Every digit below a bound is read back, and is neither sign.
digits_below : ℕ → Bool
digits_below zero = true
digits_below (suc d) =
    is_digit d (digit_value (digit_char d)) && (leb b'0' (code (digit_char d)) && digits_below d)

digits_below_36 : digits_below 36 ≡ true
unfolding digits_below digit_value digit_char
digits_below_36 = refl

digits_below_sound :
    (n d : ℕ)
    → digits_below n ≡ true
    → d < n
    → (is_digit d (digit_value (digit_char d)) ≡ true) × (leb b'0' (code (digit_char d)) ≡ true)
unfolding digits_below
digits_below_sound zero d h l = absurd (omega arith)
digits_below_sound (suc n) d h l = ground (arith, digits_below_sound n d)

digit_value-digit_char : (d : ℕ) → d < 36 → digit_value (digit_char d) ≡ some d
digit_value-digit_char d l = ground (arith, digits_below_sound 36 d digits_below_36 l)

digit_no_sign : (d : ℕ) → d < 36 → b'0' ≤ code (digit_char d)
digit_no_sign d l = ground (arith, digits_below_sound 36 d digits_below_36 l)

module _ (base : ℕ) (two_le : 2 ≤ base) (le_36 : base ≤ 36) where
  digit_in_base : (n : ℕ) → n % base < 36
  digit_in_base n = grind arith

  double_le : (q : ℕ) → 2 * q ≤ base * q
  double_le q = grind arith

  -- Each division makes the number smaller.
  div_shrinks : (n f : ℕ) → n < suc f → nat_eq (n / base) 0 ≡ false → n / base < f
  div_shrinks n f h k =
      let nonzero : 0 < n / base = ground arith in
      omega (arith, double_le (n / base), div-add-mod n base)

  single_digit : (n : ℕ) → nat_eq (n / base) 0 ≡ true → 0 * base + n % base ≡ n
  single_digit n h = grind arith

  in_base : (n : ℕ) → n % base < base
  in_base n = grind arith

  parse_digits-cons :
      (a n : ℕ) (s : String)
      → parse_digits base a (digit_char (n % base) ∷ s) ≡ parse_digits base (a * base + n % base) s
  unfolding parse_digits
  parse_digits-cons a n s =
      ground (arith, digit_value-digit_char (n % base) (digit_in_base n), in_base n)

  parse_digits-format_digits :
      (f n : ℕ) (acc : String)
      → n < f
      → parse_digits base 0 (format_digits f base n acc) ≡ parse_digits base n acc
  unfolding format_digits
  parse_digits-format_digits zero n acc h = absurd (omega arith)
  parse_digits-format_digits (suc f) n acc h = elim (Bool-cases (nat_eq (n / base) 0)) [
    | inl last ↦
        rw last (
          parse_digits-cons 0 n acc ∙ ap (λ (m : ℕ). parse_digits base m acc) (single_digit n last))
    | inr more ↦ rw more (
        parse_digits-format_digits f (n / base) (digit_char (n % base) ∷ acc)
          (div_shrinks n f h more)
        ∙ parse_digits-cons (n / base) n acc
        ∙ ap (λ (m : ℕ). parse_digits base m acc) (div-add-mod' n base))
  ]

  -- The text of a number begins with a digit.
  abbrev StartsWithDigit : String → Type 0
  StartsWithDigit [] = ⊥
  StartsWithDigit (c ∷ s) = b'0' ≤ code c

  format_digits-StartsWithDigit :
      (f n : ℕ) (acc : String) → n < f → StartsWithDigit (format_digits f base n acc)
  unfolding format_digits
  format_digits-StartsWithDigit zero n acc h = absurd (omega arith)
  format_digits-StartsWithDigit (suc f) n acc h = elim (Bool-cases (nat_eq (n / base) 0)) [
    | inl last ↦ rw last (digit_no_sign (n % base) (digit_in_base n))
    | inr more ↦ rw more (
        format_digits-StartsWithDigit f (n / base) (digit_char (n % base) ∷ acc)
          (div_shrinks n f h more))
  ]

  parse_uint-of_digits :
      (s : String) → StartsWithDigit s → parse_uint base s ≡ parse_digits base 0 s
  unfolding parse_uint
  parse_uint-of_digits [] h = elim h [ ]
  parse_uint-of_digits (c ∷ s) h = refl

  parse_int-of_digits :
      (s : String) → StartsWithDigit s → parse_int base s ≡ positive (parse_uint base s)
  unfolding parse_int
  parse_int-of_digits [] h = elim h [ ]
  parse_int-of_digits (c ∷ s) h = ground arith

  parse_uint-format_uint : (n : ℕ) → parse_uint base (format_uint base n) ≡ some n
  unfolding format_uint
  parse_uint-format_uint n =
      parse_uint-of_digits _ (format_digits-StartsWithDigit (suc n) n [] (omega arith))
      ∙ parse_digits-format_digits (suc n) n [] (omega arith)
      ∙ (unfold parse_digits in refl)

  parse_int-minus : (s : String) → parse_int base ("-" ++ s) ≡ negative (parse_uint base s)
  unfolding parse_int
  parse_int-minus s = rw (append.cons "-" [] s, append.nil s) refl

  -- A 64-bit integer that is printed and parsed again comes back.
  pub parse_int-format_int : (i : ℤ) → IsInt64 i → parse_int base (format_int base i) ≡ some i
  unfolding format_int
  parse_int-format_int (pos n) h =
      parse_int-of_digits _
        (unfold format_uint in format_digits-StartsWithDigit (suc n) n [] (omega arith))
      ∙ ap positive (parse_uint-format_uint n)
      ∙ ground arith
  parse_int-format_int (negsuc n) h =
      parse_int-minus (format_uint base (suc n))
      ∙ ap negative (parse_uint-format_uint (suc n))
      ∙ ground arith

  -- A number of any size reads back as itself, if it reads back at all.
  pub parse_int-format_int_same : (i j : ℤ) → parse_int base (format_int base i) ≡ some j → i ≡ j
  unfolding format_int
  parse_int-format_int_same (pos n) j h =
      let p : parse_int base (format_uint base n) ≡ positive (some n) =
        parse_int-of_digits _
          (unfold format_uint in format_digits-StartsWithDigit (suc n) n [] (omega arith))
        ∙ ap positive (parse_uint-format_uint n) in
      ground (arith, sym p ∙ h)
  parse_int-format_int_same (negsuc n) j h =
      let p : parse_int base (format_int base (negsuc n)) ≡ negative (some (suc n)) =
        parse_int-minus (format_uint base (suc n)) ∙ ap negative (parse_uint-format_uint (suc n)) in
      ground (arith, sym p ∙ h)
