-- ===== src/Dispatcher/Paging.antt =====
-- applyNextToken of pkg/dc2/dispatcher.go, and a client that follows its tokens.
use mathlib.Core.Path.{subst}
use dc.Prelude.{
  All, take-All, drop-All, ℕ, zero, suc, ◌+◌, ◌≤◌, ◌<◌, min, String, ◌≡◌, refl, sym, ap, ◌∙◌, true,
  false, Option, none, some, List, [], ◌∷◌, ◌++◌, arith, length, take, drop, length-drop,
  take-append-drop, drop-drop, ltb, if◌then◌else◌, inl, inr, Bool-cases,
}
use dc.Prelude.Int.{ℤ, pos, negsuc, ◌+ℤ◌, wrap64, wrap64-add_pos, two63}
use dc.Prelude.Strconv.{parse_int, format_int}
use dc.Prelude.Strconv.RoundTrip.{parse_int-format_int}
use dc.Api.{Result-cases, Result, ok, err, ◌>>=◌, plain, panics}

abbrev base : ℕ
base = 36

-- `offset := 0; if nextToken != nil { … }`
unfoldable pub token_offset : Option String → Result ℤ
token_offset none = ok (pos 0)
token_offset (some t) = elim (parse_int base t) [ none ↦ err (plain "NextToken") | some o ↦ ok o ]

-- The token of an offset.
abbrev pub token_of : ℕ → Option String
token_of zero = none
token_of (suc n) = some (format_int base (pos (suc n)))

token_offset-token_of : (o : ℕ) → o < two63 → token_offset (token_of o) ≡ ok (pos o)
unfolding token_offset
token_offset-token_of zero h = refl
token_offset-token_of (suc n) h =
    rw
      (
        parse_int-format_int base (omega arith) (omega arith) (pos (suc n))
            (record { above = omega arith; below = omega arith }),
        token_offset,
      )
      refl

token_of-pos : (n : ℕ) → 1 ≤ n → token_of n ≡ some (format_int base (pos n))
token_of-pos zero h = absurd (omega arith)
token_of-pos (suc n) h = refl

min_left : (a b : ℕ) → a ≤ b → min a b ≡ a
min_left a b h = omega arith

module _ {ℓ} {A : Type ℓ} where
  -- `if offset > 0 { offset = min(offset, len(elems)); elems = elems[offset:] }`
  skip_to : ℤ → List A → ℤ × List A
  skip_to (negsuc n) elems = (negsuc n, elems)
  skip_to (pos n) elems = let o = min n (length elems) in (pos o, drop o elems)

  -- `if maxResults != nil && len(elems) > *maxResults { … }`
  cut : Option ℤ → ℤ × List A → Result (List A × Option String)
  cut none (offset, elems) = ok (elems, none)
  cut (some (negsuc m)) (offset, elems) = err panics
  cut (some (pos m)) (offset, elems) =
      if ltb m (length elems)
      then ok (take m elems, some (format_int base (wrap64 (offset +ℤ pos m))))
      else ok (elems, none)

  -- applyNextToken
  unfoldable pub apply_next_token :
      List A → Option String → Option ℤ → Result (List A × Option String)
  unfolding token_offset skip_to cut
  apply_next_token elems next_token max_results =
      token_offset next_token >>= λ offset. cut max_results (skip_to offset elems)

  -- A client that asks again with each token that it gets, up to a number of requests.
  unfoldable pub follow_tokens : ℕ → List A → Option String → ℕ → Result (List A)
  unfolding apply_next_token
  follow_tokens zero elems token k = err (plain "too many pages")
  follow_tokens (suc fuel) elems token k = apply_next_token elems token (some (pos k)) >>= λ page.
      elim page.1 [
        | none ↦ ok page.0
        | some t ↦ follow_tokens fuel elems (some t) k >>= λ rest. ok (page.0 ++ rest)
      ]

  take-all : (k : ℕ) (xs : List A) → length xs ≤ k → take k xs ≡ xs
  take-all zero [] h = refl
  take-all zero (x ∷ xs) h = absurd (omega (arith, h))
  take-all (suc k) [] h = refl
  take-all (suc k) (x ∷ xs) h = ap (x ∷◌) (take-all k xs (omega (arith, h)))

  -- The page at an offset, and the token of the next one.
  abbrev pub page_at : ℕ → ℕ → List A → List A × Option String
  page_at o k elems = (
    take k (drop o elems),
    if ltb (o + k) (length elems) then some (format_int base (pos (o + k))) else none,
  )

  cut-page :
      (elems : List A) (o k : ℕ)
      → o ≤ length elems
      → length elems < two63
      → cut (some (pos k)) (pos o, drop o elems) ≡ ok (page_at o k elems)
  unfolding cut
  cut-page elems o k h b = elim (Bool-cases (ltb (o + k) (length elems))) [
    | inl e ↦
        let left : ltb k (length (drop o elems)) ≡ true = ground (arith, length-drop o elems, e) in
        rw (left, wrap64-add_pos o k (ground (arith, e)), e) refl
    | inr e ↦
        let left : ltb k (length (drop o elems)) ≡ false = ground (arith, length-drop o elems, e) in
        rw (left, e, take-all k (drop o elems) (ground (arith, length-drop o elems, e))) refl
  ]

  -- The token of an offset is answered with the page at that offset and, if elements are left, the
  -- token of the next offset.
  pub apply_next_token-page :
      (elems : List A) (o k : ℕ)
      → o ≤ length elems
      → length elems < two63
      → apply_next_token elems (token_of o) (some (pos k)) ≡ ok (page_at o k elems)
  unfolding apply_next_token skip_to
  apply_next_token-page elems o k h b =
      rw (token_offset-token_of o (omega arith), apply_next_token)
        (rw (min_left o (length elems) h) (cut-page elems o k h b))

  follow_from :
      (fuel : ℕ) (elems : List A) (o k : ℕ)
      → o ≤ length elems
      → length elems < two63
      → 1 ≤ k
      → length elems < o + fuel
      → follow_tokens fuel elems (token_of o) k ≡ ok (drop o elems)
  unfolding follow_tokens
  follow_from zero elems o k h b p f = absurd (omega arith)
  follow_from (suc fuel) elems o k h b p f =
      rw (apply_next_token-page elems o k h b, follow_tokens)
        (elim (Bool-cases (ltb (o + k) (length elems))) [
          | inl e ↦
              let rest : follow_tokens fuel elems (some (format_int base (pos (o + k)))) k
                  ≡ ok (drop (o + k) elems) =
                ap (λ t. follow_tokens fuel elems t k) (sym (token_of-pos (o + k) (omega arith)))
                ∙ follow_from fuel elems (o + k) k (ground (arith, e)) b p (omega arith) in
              rw (e, rest)
                (ap ok (
                  ap (take k (drop o elems) ++◌) (sym (drop-drop o k elems))
                  ∙ take-append-drop k (drop o elems)))
          | inr e ↦
              rw e (ap ok (take-all k (drop o elems) (ground (arith, length-drop o elems, e))))
        ])

  -- A client that starts without a token and asks for at least one element each time gets every
  -- element, once and in order, within one request more than there are elements.
  pub follow_tokens_all :
      (elems : List A) (k : ℕ)
      → length elems < two63
      → 1 ≤ k
      → follow_tokens (suc (length elems)) elems none k ≡ ok elems
  follow_tokens_all elems k b p =
      follow_from (suc (length elems)) elems 0 k (omega arith) b p (omega arith)

module _ {ℓ κ} {A : Type ℓ} (P : A → Type κ) where
  skip_to-All : (o : ℤ) (elems : List A) → All P elems → All P (skip_to o elems).1
  unfolding skip_to
  skip_to-All (negsuc n) elems a = a
  skip_to-All (pos n) elems a = drop-All P _ elems a

  cut-All :
      (max_results : Option ℤ) (from : ℤ × List A) (out : List A × Option String)
      → All P from.1
      → cut max_results from ≡ ok out
      → All P out.0
  unfolding cut
  cut-All none from out a h = subst (λ (x : List A). All P x) (ground (arith, h)) a
  cut-All (some (negsuc m)) from out a h = absurd (ground (arith, h))
  cut-All (some (pos m)) from out a h = elim (Bool-cases (ltb m (length from.1))) [
    | inl e ↦
        let page : take m from.1 ≡ out.0 = ground (arith, h, e) in
        subst (λ (x : List A). All P x) page (take-All P m from.1 a)
    | inr e ↦
        let page : from.1 ≡ out.0 = ground (arith, h, e) in subst (λ (x : List A). All P x) page a
  ]

  -- What holds of every element holds of every element of a page.
  pub apply_next_token-All :
      (elems : List A) (token : Option String) (max_results : Option ℤ)
      (out : List A × Option String)
      → All P elems
      → apply_next_token elems token max_results ≡ ok out
      → All P out.0
  unfolding apply_next_token
  apply_next_token-All elems token max_results out a h = elim (Result-cases (token_offset token)) [
    | inl (e, p) ↦ absurd (ground (arith, h, p))
    | inr (o, p) ↦
        cut-All max_results (skip_to o elems) out (skip_to-All o elems a) (ground (arith, h, p))
  ]
