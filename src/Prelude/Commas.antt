-- ===== src/Prelude/Commas.antt =====
-- strings.Split and strings.Join with a comma.
pub mod RoundTrip
use Prim.Native.Char.{Char, code}
use Prim.Native.String as Text
use Prim.Native.String.{◌++◌}
use dc.Prelude.{
  ℕ, String, ◌≡◌, refl, ap, sym, ◌∙◌, Bool, true, false, ◌&&◌, not, List, [], ◌∷◌, arith, nat_eq,
  if◌then◌else◌,
}

abbrev is_comma : Char → Bool
is_comma c = nat_eq (code c) b','

abbrev first_with : Char → List String → List String
first_with c [] = Text.◌∷◌ c "" ∷ []
first_with c (p ∷ ps) = Text.◌∷◌ c p ∷ ps

-- strings.Split(s, ",")
unfoldable pub split_commas : String → List String
split_commas Text.[] = "" ∷ []
split_commas (Text.◌∷◌ c s) =
    let rest = split_commas s in if is_comma c then "" ∷ rest else first_with c rest

unfoldable pub join_from : String → List String → String
join_from p [] = p
join_from p (q ∷ ps) = p ++ "," ++ join_from q ps

-- strings.Join(parts, ",")
unfoldable pub join_commas : List String → String
unfolding join_from
join_commas [] = ""
join_commas (p ∷ ps) = join_from p ps

-- No character of the text is a comma.
unfoldable pub lacks_comma : String → Bool
lacks_comma Text.[] = true
lacks_comma (Text.◌∷◌ c s) = not (is_comma c) && lacks_comma s
