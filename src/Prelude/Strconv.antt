-- ===== src/Prelude/Strconv.antt =====
-- Go's strconv: ParseInt, FormatInt, Atoi and ParseBool.
pub mod RoundTrip
use Prim.Native.Char.{Char, code}
use Prim.Native.String.{[], ◌∷◌, ◌++◌, char_at}
use dc.Prelude.{
  ℕ, zero, suc, ◌+◌, ◌-◌, ◌*◌, ◌/◌, ◌%◌, String, ◌≡◌, refl, Bool, true, false, ◌&&◌, ◌||◌, Option,
  none, some, ltb, leb, nat_eq, ◌==◌, if◌then◌else◌,
}
use dc.Prelude.Int.{ℤ, pos, negsuc, two63}

-- The value of a digit in a base up to 36.
digit_value : Char → Option ℕ
digit_value c =
    let n = code c in
    if leb b'0' n && leb n b'9'
    then some (n - b'0')
    else if leb b'a' n && leb n b'z'
    then some (n - b'a' + 10)
    else if leb b'A' n && leb n b'Z'
    then some (n - b'A' + 10)
    else none

parse_digits : ℕ → ℕ → String → Option ℕ
parse_digits base acc [] = some acc
parse_digits base acc (c ∷ s) = elim (digit_value c) [
  | none ↦ none
  | some d ↦ if ltb d base then parse_digits base (acc * base + d) s else none
]

-- ParseUint without its bound
unfoldable pub parse_uint : ℕ → String → Option ℕ
unfolding parse_digits digit_value
parse_uint base [] = none
parse_uint base (c ∷ s) = parse_digits base 0 (c ∷ s)

abbrev positive : Option ℕ → Option ℤ
positive none = none
positive (some n) = if ltb n two63 then some (pos n) else none

abbrev negative : Option ℕ → Option ℤ
negative none = none
negative (some zero) = some (pos 0)
negative (some (suc n)) = if ltb n two63 then some (negsuc n) else none

-- strconv.ParseInt(s, base, 64); `none` is an error. Atoi is the case of base 10.
unfoldable pub parse_int : ℕ → String → Option ℤ
unfolding parse_uint
parse_int base [] = none
parse_int base (c ∷ s) =
    if nat_eq (code c) b'+'
    then positive (parse_uint base s)
    else if nat_eq (code c) b'-'
    then negative (parse_uint base s)
    else positive (parse_uint base (c ∷ s))

digit_char : ℕ → Char
digit_char d = char_at "0123456789abcdefghijklmnopqrstuvwxyz" d

format_digits : ℕ → ℕ → ℕ → String → String
unfolding digit_char
format_digits zero base n acc = acc
format_digits (suc fuel) base n acc =
    let acc' = digit_char (n % base) ∷ acc in
    let rest = format_digits fuel base (n / base) acc' in if nat_eq (n / base) 0 then acc' else rest

-- FormatUint; there are at most as many divisions as the number's value.
unfoldable pub format_uint : ℕ → ℕ → String
unfolding format_digits
format_uint base n = format_digits (suc n) base n []

-- strconv.FormatInt(i, base); Itoa is the case of base 10.
unfoldable pub format_int : ℕ → ℤ → String
unfolding format_uint
format_int base (pos n) = format_uint base n
format_int base (negsuc n) = "-" ++ format_uint base (suc n)

-- strconv.ParseBool; `none` is an error.
unfoldable pub parse_bool : String → Option Bool
parse_bool s =
    if s == "1" || s == "t" || s == "T" || s == "true" || s == "TRUE" || s == "True"
    then some true
    else if s == "0" || s == "f" || s == "F" || s == "false" || s == "FALSE" || s == "False"
    then some false
    else none

-- strconv.FormatBool
unfoldable pub format_bool : Bool → String
format_bool true = "true"
format_bool false = "false"

pub parse_bool-format_bool : (b : Bool) → parse_bool (format_bool b) ≡ some b
unfolding parse_bool format_bool
parse_bool-format_bool true = refl
parse_bool-format_bool false = refl
