-- ===== src/Prelude/Glob.antt =====
-- Go's filepath.Match on Unix. A malformed pattern matches nothing, as its error is read by
-- `err == nil && ok`.
use dc.Prelude.{
  ℕ, String, ◌≡◌, refl, Bool, true, false, not, ◌&&◌, ◌||◌, Option, none, some, List, [], ◌∷◌, leb,
  nat_eq, if◌then◌else◌, is_empty,
}
use dc.Prelude.Text.{codes}

pub data Part : Type 0 where
  star : Part
  any_char : Part
  literal : ℕ → Part
  class : Bool → List (ℕ × ℕ) → Part

-- Where the reader of a pattern stands: between parts, behind a backslash, behind `[`, or in a
-- class that is negated or not, with the ranges read so far: before an item, behind a backslash,
-- behind an item's first end, behind its dash, and behind a backslash there.
pub data Mode : Type 0 where
  between escaped opened : Mode
  item item_escaped : Bool → List (ℕ × ℕ) → Mode
  after_low after_dash dash_escaped : Bool → List (ℕ × ℕ) → ℕ → Mode

abbrev with_part : Part → Option (List Part) → Option (List Part)
with_part p none = none
with_part p (some ps) = some (p ∷ ps)

-- What one character does to the mode: a part may be complete; none is a malformed pattern.
abbrev Move : Type 0
Move = Option (Mode × Option Part)

abbrev go : Mode → Move
go m = some (m, none)

abbrev emit : Part → Move
emit p = some (between, some p)

read_item : Bool → List (ℕ × ℕ) → ℕ → Move
read_item neg rs c =
    if nat_eq c b']' && not (is_empty rs)
    then emit (class neg rs)
    else if nat_eq c b']' || nat_eq c b'-'
    then none
    else if nat_eq c b'\\'
    then go (item_escaped neg rs)
    else go (after_low neg rs c)

move : Mode → ℕ → Move
unfolding read_item
move between c =
    if nat_eq c b'*'
    then emit star
    else if nat_eq c b'?'
    then emit any_char
    else if nat_eq c b'\\'
    then go escaped
    else if nat_eq c b'['
    then go opened
    else emit (literal c)
move escaped c = emit (literal c)
move opened c = if nat_eq c b'^' then go (item true []) else read_item false [] c
move (item neg rs) c = read_item neg rs c
move (item_escaped neg rs) c = go (after_low neg rs c)
move (after_low neg rs lo) c =
    if nat_eq c b'-' then go (after_dash neg rs lo) else read_item neg ((lo, lo) ∷ rs) c
move (after_dash neg rs lo) c =
    if nat_eq c b'-' || nat_eq c b']'
    then none
    else if nat_eq c b'\\'
    then go (dash_escaped neg rs lo)
    else go (item neg ((lo, c) ∷ rs))
move (dash_escaped neg rs lo) c = go (item neg ((lo, c) ∷ rs))

abbrev add_part : Option Part → Option (List Part) → Option (List Part)
add_part none ps = ps
add_part (some p) ps = with_part p ps

-- The parts of a pattern that is read to its end; it must not end inside a part.
parts : Mode → List ℕ → Option (List Part)
unfolding move
parts between [] = some []
parts m [] = none
parts m (c ∷ s) = elim (move m c) [ none ↦ none | some (m', p) ↦ add_part p (parts m' s) ]

in_ranges : ℕ → List (ℕ × ℕ) → Bool
in_ranges c [] = false
in_ranges c ((lo, hi) ∷ rs) = (leb lo c && leb c hi) || in_ranges c rs

-- One part that stands for one character.
part_matches : Part → ℕ → Bool
unfolding in_ranges
part_matches star c = false
part_matches any_char c = not (nat_eq c b'/')
part_matches (literal d) c = nat_eq c d
part_matches (class neg rs) c = if neg then not (in_ranges c rs) else in_ranges c rs

-- A star takes any number of characters but a slash.
star_matches : (List ℕ → Bool) → List ℕ → Bool
star_matches rest [] = rest []
star_matches rest (c ∷ s) = rest (c ∷ s) || (not (nat_eq c b'/') && star_matches rest s)

one_matches : Part → (List ℕ → Bool) → List ℕ → Bool
unfolding part_matches
one_matches p rest [] = false
one_matches p rest (c ∷ s) = part_matches p c && rest s

parts_match : List Part → List ℕ → Bool
unfolding star_matches one_matches
parts_match [] s = is_empty s
parts_match (star ∷ ps) s = star_matches (parts_match ps) s
parts_match (any_char ∷ ps) s = one_matches any_char (parts_match ps) s
parts_match (literal d ∷ ps) s = one_matches (literal d) (parts_match ps) s
parts_match (class neg rs ∷ ps) s = one_matches (class neg rs) (parts_match ps) s

-- `ok, err := filepath.Match(pattern, text); err == nil && ok`
unfoldable pub glob_match : String → String → Bool
unfolding parts parts_match codes
glob_match pattern text = elim (parts between (codes pattern)) [
  | none ↦ false
  | some ps ↦ parts_match ps (codes text)
]

matches_star : glob_match "m5.*" "m5.large" ≡ true
unfolding glob_match
matches_star = refl

matches_class : glob_match "[a-c]?[^x]" "b1y" ≡ true
unfolding glob_match
matches_class = refl

rejects_slash : glob_match "a*" "a/b" ≡ false
unfolding glob_match
rejects_slash = refl

rejects_malformed : glob_match "a[" "a[" ≡ false
unfolding glob_match
rejects_malformed = refl
