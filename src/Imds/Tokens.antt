-- ===== src/Imds/Tokens.antt =====
-- The tokens of pkg/dc2/imds.go: whom a token serves and for how long.
use dc.Prelude.{
  ℕ, ◌+◌, String, ◌≡◌, ◌∙◌, refl, false, ◌&&◌, some, List, [], ◌∷◌, arith, ltb, ◌==◌, eq_refl, All,
  inl, inr, Option-cases, Bool-cases,
}
use dc.Prelude.Text.{trim_space}
use dc.Storage.{lookup, insert, delete}
use dc.Storage.Maps.{lookup-insert}
use dc.Imds.{
  Imds, Token, nanoseconds, without_tokens_of, validate_token, has_valid_token, issue_token,
}

validate_token-found :
    (token c : String) (now : ℕ) (s : Imds) (t : Token)
    → lookup token s.tokens ≡ some t
    → (validate_token token c now s).1 ≡ (t.container_id == c && ltb now t.expires_at)
unfolding validate_token
validate_token-found token c now s t e = rw (e, validate_token) (ground arith)

-- A token that was just issued is valid for its own container, for no other, and until its time
-- is over.
pub validate_token-issue_token :
    (token c c' : String) (ttl now later : ℕ) (s : Imds)
    → (validate_token token c' later (issue_token (some token) c ttl now s).0).1
      ≡ (c == c' && ltb later (now + nanoseconds ttl))
unfolding issue_token
validate_token-issue_token token c c' ttl now later s =
    validate_token-found token c' later _ _
      (lookup-insert token token _ s.tokens ∙ ground (arith, eq_refl token))

-- No token of a container is left.
abbrev pub NoTokens : String → List (String × Token) → Type 0
NoTokens c = All (λ (e : String × Token). (e.1.container_id == c) ≡ false)

pub without_tokens_of-NoTokens :
    (c : String) (m : List (String × Token)) → NoTokens c (without_tokens_of c m)
unfolding without_tokens_of
without_tokens_of-NoTokens c [] = tt
without_tokens_of-NoTokens c ((k, t) ∷ m) = ground (arith, without_tokens_of-NoTokens c m)

pub without_tokens_of-keeps :
    (c d : String) (m : List (String × Token)) → NoTokens c m → NoTokens c (without_tokens_of d m)
unfolding without_tokens_of
without_tokens_of-keeps c d [] n = tt
without_tokens_of-keeps c d ((k, t) ∷ m) n = ground (arith, without_tokens_of-keeps c d m n.1)

pub delete-NoTokens :
    (c token : String) (m : List (String × Token)) → NoTokens c m → NoTokens c (delete token m)
unfolding delete
delete-NoTokens c token [] n = tt
delete-NoTokens c token ((k, t) ∷ m) n = ground (arith, delete-NoTokens c token m n.1)

pub insert-NoTokens :
    (c token : String) (t : Token) (m : List (String × Token))
    → (t.container_id == c) ≡ false
    → NoTokens c m
    → NoTokens c (insert token t m)
unfolding insert
insert-NoTokens c token t [] h n = (h, tt)
insert-NoTokens c token t ((k, u) ∷ m) h n = ground (arith, insert-NoTokens c token t m h n.1)

lookup-NoTokens :
    (c token : String) (t : Token) (m : List (String × Token))
    → NoTokens c m
    → lookup token m ≡ some t
    → (t.container_id == c) ≡ false
unfolding lookup
lookup-NoTokens c token t [] n h = cc
lookup-NoTokens c token t ((k, u) ∷ m) n h = ground (arith, lookup-NoTokens c token t m n.1)

pub validate_token-NoTokens :
    (token c : String) (now : ℕ) (s : Imds)
    → NoTokens c s.tokens
    → validate_token token c now s ≡ (s, false)
unfolding validate_token
validate_token-NoTokens token c now s n = elim (Option-cases (lookup token s.tokens)) [
  | inl e ↦ rw (e, validate_token) refl
  | inr (t, e) ↦ rw (e, validate_token, lookup-NoTokens c token t s.tokens n e) refl
]

pub has_valid_token-NoTokens :
    (header c : String) (now : ℕ) (s : Imds)
    → NoTokens c s.tokens
    → has_valid_token header c now s ≡ (s, false)
unfolding has_valid_token
has_valid_token-NoTokens header c now s n = elim (Bool-cases (trim_space header == "")) [
  | inl e ↦ rw (e, has_valid_token) refl
  | inr e ↦ rw (e, has_valid_token) (validate_token-NoTokens (trim_space header) c now s n)
]
