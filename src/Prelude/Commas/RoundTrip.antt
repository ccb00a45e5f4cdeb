-- ===== src/Prelude/Commas/RoundTrip.antt =====
-- A list of texts without commas that is joined and split again comes back.
use Prim.Native.String as Text
use Prim.Native.String.{char_at, ◌++◌}
use Prim.Native.String.append
use dc.Prelude.{inr, inl, String, ◌≡◌, refl, ap, ◌∙◌, true, List, [], ◌∷◌, arith, All, Bool-cases}
use dc.Prelude.Commas.{is_comma, split_commas, join_from, join_commas, lacks_comma}

split-last : (p : String) → lacks_comma p ≡ true → split_commas p ≡ p ∷ []
unfolding lacks_comma split_commas
split-last Text.[] h = refl
split-last (Text.◌∷◌ c p) h = elim (Bool-cases (is_comma c)) [
  | inl e ↦ absurd (ground (arith, h, e))
  | inr e ↦ rw (e, split-last p (ground (arith, h, e))) refl
]

split-first :
    (p s : String) → lacks_comma p ≡ true → split_commas (p ++ "," ++ s) ≡ p ∷ split_commas s
unfolding lacks_comma split_commas
split-first Text.[] s h =
    rw (append.nil ("," ++ s), append.cons (char_at "," 0) "" s, append.nil s) refl
split-first (Text.◌∷◌ c p) s h = elim (Bool-cases (is_comma c)) [
  | inl e ↦ absurd (ground (arith, h, e))
  | inr e ↦ rw (append.cons c p ("," ++ s), e, split-first p s (ground (arith, h, e))) refl
]

split-join_from :
    (p : String) (ps : List String)
    → lacks_comma p ≡ true
    → All (λ q. lacks_comma q ≡ true) ps
    → split_commas (join_from p ps) ≡ p ∷ ps
unfolding join_from
split-join_from p [] h hs = split-last p h
split-join_from p (q ∷ ps) h hs =
    split-first p (join_from q ps) h ∙ ap (λ rest. p ∷ rest) (split-join_from q ps hs.0 hs.1)

-- strings.Split after strings.Join, for a list that is not empty.
pub split_commas-join_commas :
    (p : String) (ps : List String)
    → All (λ q. lacks_comma q ≡ true) (p ∷ ps)
    → split_commas (join_commas (p ∷ ps)) ≡ p ∷ ps
unfolding join_commas
split_commas-join_commas p ps hs = split-join_from p ps hs.0 hs.1
