-- ===== src/Prelude/Text.antt =====
-- The parts of Go's `strings` package that the program uses, and the order of Go's strings.
-- Texts are Unicode; the case mapping is the ASCII one, which is what the keywords need.
pub mod Trim
use Prim.Native.Nat.{ℕ, compare, Ordering}
use Prim.Native.Char.{Char, code}
use Prim.Native.String.{[], ◌∷◌, ◌++◌, char_at}
use Prim.Native.String.append
use text.Mathlib.TextEquality.{Char-path}
use dc.Prelude.{
  ◌-◌, String, ◌≡◌, refl, ◌⊎◌, inl, inr, Bool, true, false, ◌&&◌, ◌||◌, Option, none, some, List,
  nil, cons, arith, leb, nat_eq, ◌==◌, if◌then◌else◌, is_some,
}

-- unicode.IsSpace
is_space : Char → Bool
is_space c =
    let n = code c in
    (leb 9 n && leb n 13)
    || nat_eq n 32
    || nat_eq n 0x85
    || nat_eq n 0xa0
    || nat_eq n 0x1680
    || (leb 0x2000 n && leb n 0x200a)
    || nat_eq n 0x2028
    || nat_eq n 0x2029
    || nat_eq n 0x202f
    || nat_eq n 0x205f
    || nat_eq n 0x3000

trim_left : String → String
trim_left [] = []
trim_left (c ∷ s) = let rest = trim_left s in if is_space c then rest else c ∷ s

abbrev is_nil : String → Bool
is_nil [] = true
is_nil (c ∷ s) = false

trim_right : String → String
trim_right [] = []
trim_right (c ∷ s) = let rest = trim_right s in if is_nil rest && is_space c then [] else c ∷ rest

-- strings.TrimSpace
unfoldable pub trim_space : String → String
unfolding trim_left trim_right is_space
trim_space s = trim_right (trim_left s)

to_lower_char : Char → Char
to_lower_char c =
    if leb b'A' (code c) && leb (code c) b'Z'
    then char_at "abcdefghijklmnopqrstuvwxyz" (code c - b'A')
    else c

-- strings.ToLower, on ASCII letters
unfoldable pub to_lower : String → String
unfolding to_lower_char
to_lower [] = []
to_lower (c ∷ s) = to_lower_char c ∷ to_lower s

-- strings.EqualFold, on ASCII letters
unfoldable pub equal_fold : String → String → Bool
unfolding to_lower
equal_fold s t = to_lower s == to_lower t

-- The characters of a text, by their numbers.
unfoldable pub codes : String → List ℕ
codes [] = nil
codes (c ∷ s) = cons (code c) (codes s)

-- What follows a prefix, `s[len(p):]` behind `strings.HasPrefix(s, p)`.
unfoldable pub after_prefix? : String → String → Option String
after_prefix? [] s = some s
after_prefix? (c ∷ p) [] = none
after_prefix? (c ∷ p) (d ∷ s) = if nat_eq (code c) (code d) then after_prefix? p s else none

-- `s[1:]` of an ASCII text, if there is a first character.
unfoldable pub after_first? : String → Option String
after_first? [] = none
after_first? (c ∷ s) = some s

-- strings.HasPrefix
unfoldable pub has_prefix : String → String → Bool
unfolding after_prefix?
has_prefix s p = is_some (after_prefix? p s)

pub after_prefix?-append : (p s : String) → after_prefix? p (p ++ s) ≡ some s
unfolding after_prefix?
after_prefix?-append [] s = rw (append.nil s)
after_prefix?-append (c ∷ p) s = rw (append.cons c p s) (ground (arith, after_prefix?-append p s))

pub after_prefix?-eq-some : (p s r : String) → after_prefix? p s ≡ some r → s ≡ p ++ r
unfolding after_prefix?
after_prefix?-eq-some [] s r h = rw (append.nil r) (ground arith)
after_prefix?-eq-some (c ∷ p) [] r h = cc
after_prefix?-eq-some (c ∷ p) (d ∷ s) r h =
    rw (append.cons c p r) (ground (arith, after_prefix?-eq-some p s r, Char-path c d))

-- The order of Go's strings, `s < t`: bytewise, which on UTF-8 is by code points.
unfoldable pub lt_text : String → String → Bool
lt_text [] [] = false
lt_text [] (d ∷ t) = true
lt_text (c ∷ s) [] = false
lt_text (c ∷ s) (d ∷ t) =
    let rest = lt_text s t in
    elim (compare (code c) (code d)) [
      | Ordering.lt ↦ true
      | Ordering.eq ↦ rest
      | Ordering.gt ↦ false
    ]

pub lt_text_irrefl : (s : String) → lt_text s s ≡ false
unfolding lt_text
lt_text_irrefl [] = refl
lt_text_irrefl (c ∷ s) = ground (arith, lt_text_irrefl s)

pub lt_text_trans : (s t u : String) → lt_text s t ≡ true → lt_text t u ≡ true → lt_text s u ≡ true
unfolding lt_text
lt_text_trans [] [] u h k = cc
lt_text_trans s (d ∷ t) [] h k = cc
lt_text_trans [] (d ∷ t) (e ∷ u) h k = refl
lt_text_trans (c ∷ s) [] u h k = cc
lt_text_trans (c ∷ s) (d ∷ t) (e ∷ u) h k = ground (arith, lt_text_trans s t u)

pub lt_text_asym : (s t : String) → lt_text s t ≡ true → lt_text t s ≡ false
lt_text_asym s t h = ground (arith, lt_text_trans s t s h, lt_text_irrefl s)

pub lt_text_total : (s t : String) → (lt_text s t ≡ true) ⊎ (s ≡ t) ⊎ (lt_text t s ≡ true)
unfolding lt_text
lt_text_total [] [] = inr (inl refl)
lt_text_total [] (d ∷ t) = inl refl
lt_text_total (c ∷ s) [] = inr (inr refl)
lt_text_total (c ∷ s) (d ∷ t) = ground (arith, lt_text_total s t, Char-path c d)

trims : trim_space " a b\n" ≡ "a b"
unfolding trim_space
trims = refl

lowers : to_lower "Spot-1" ≡ "spot-1"
unfolding to_lower
lowers = refl

orders : lt_text "i-10" "i-9" ≡ true
unfolding lt_text
orders = refl
