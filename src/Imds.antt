-- ===== src/Imds.antt =====
-- pkg/dc2/imds.go: the state of the instance metadata service, its tokens, the tags and the spot
-- notices that it serves. The HTTP handlers are in Imds/Http, the proofs in the other children.
-- Each sync.Map is an association list; times are nanoseconds since some start.
pub mod Http
pub mod Tokens
pub mod Access
use dc.Prelude.{
  ℕ, ◌+◌, ◌*◌, String, Bool, true, false, ◌||◌, Option, none, some, List, [], ◌∷◌, ltb, ◌==◌,
  if◌then◌else◌, is_some, not,
}
use dc.Prelude.Int.{ℤ, pos, negsuc, ltb_ℤ}
use dc.Prelude.Text.{trim_space}
use dc.Prelude.Strconv.{parse_int}
use dc.Api.{Result, ok, err, plain}
use dc.Storage.{lookup, insert, delete}

-- imdsToken
pub record Token : Type 0 where
  pub container_id : String
  pub expires_at : ℕ

-- imdsSpotAction
pub record SpotAction : Type 0 where
  pub action : String
  pub termination_time : ℕ

-- The maps of imdsController.
pub record Imds : Type 0 where
  pub disabled_instances : List (String × Bool)
  pub tokens : List (String × Token)
  pub instance_tags : List (String × List (String × String))
  pub spot_actions : List (String × SpotAction)

abbrev pub new_imds : Imds
new_imds = record { disabled_instances = []; tokens = []; instance_tags = []; spot_actions = [] }

-- The walk of revokeTokensLocal over the tokens.
unfoldable pub without_tokens_of : String → List (String × Token) → List (String × Token)
without_tokens_of c [] = []
without_tokens_of c ((k, t) ∷ m) =
    let rest = without_tokens_of c m in if t.container_id == c then rest else (k, t) ∷ rest

-- RevokeTokens and revokeTokensLocal
unfoldable pub revoke_tokens : String → Imds → Imds
revoke_tokens c s = record s { tokens = without_tokens_of c s.tokens }

unfoldable pub set_enabled : String → Bool → Imds → Imds
set_enabled c true s = record s { disabled_instances = delete c s.disabled_instances }
set_enabled c false s =
    revoke_tokens c (record s { disabled_instances = insert c true s.disabled_instances })

unfoldable pub enabled : Imds → String → Bool
enabled s c = not (is_some (lookup c s.disabled_instances))

unfoldable pub set_tags : String → List (String × String) → Imds → Imds
set_tags c [] s = record s { instance_tags = delete c s.instance_tags }
set_tags c (t ∷ ts) s = record s { instance_tags = insert c (t ∷ ts) s.instance_tags }

unfoldable pub set_spot_instance_action : String → String → ℕ → Imds → Imds
set_spot_instance_action c action time s = record s {
  spot_actions = insert c (record { action = action; termination_time = time }) s.spot_actions;
}

unfoldable pub clear_spot_instance_action : String → Imds → Imds
clear_spot_instance_action c s = record s { spot_actions = delete c s.spot_actions }

-- imdsController.tags
unfoldable pub tags : Imds → String → List (String × String)
tags s c = elim (lookup c s.instance_tags) [ none ↦ [] | some ts ↦ ts ]

-- imdsController.spotAction
unfoldable pub spot_action : Imds → String → Option SpotAction
spot_action s c = lookup c s.spot_actions

-- validateToken at the time `now`; an expired token is dropped.
unfoldable pub validate_token : String → String → ℕ → Imds → Imds × Bool
validate_token token c now s = elim (lookup token s.tokens) [
  | none ↦ (s, false)
  | some t ↦
      if not (t.container_id == c)
      then (s, false)
      else if not (ltb now t.expires_at)
      then (record s { tokens = delete token s.tokens }, false)
      else (s, true)
]

-- hasValidToken; the header's text comes in.
unfoldable pub has_valid_token : String → String → ℕ → Imds → Imds × Bool
unfolding validate_token
has_valid_token header c now s =
    let token = trim_space header in
    if token == "" then (s, false) else validate_token token c now s

abbrev pub nanoseconds : ℕ → ℕ
nanoseconds n = n * 1000000000

-- issueToken; `random` is the token that the random source gives, or none when it fails.
unfoldable pub issue_token : Option String → String → ℕ → ℕ → Imds → Imds × Result String
issue_token none c ttl now s = (s, err (plain "token"))
issue_token (some token) c ttl now s = (
  record s {
    tokens =
        insert token (record { container_id = c; expires_at = now + nanoseconds ttl }) s.tokens;
  },
  ok token,
)

abbrev pub imds_token_min_ttl_seconds : ℕ
imds_token_min_ttl_seconds = 1

abbrev pub imds_token_max_ttl_seconds : ℕ
imds_token_max_ttl_seconds = 21600

bounded_ttl : ℤ → Result ℕ
bounded_ttl (negsuc n) = err (plain "ttl")
bounded_ttl (pos n) =
    if ltb n imds_token_min_ttl_seconds || ltb imds_token_max_ttl_seconds n
    then err (plain "ttl")
    else ok n

-- imdsTokenTTL
unfoldable pub imds_token_ttl : String → Result ℕ
unfolding bounded_ttl
imds_token_ttl raw =
    let text = trim_space raw in
    if text == ""
    then err (plain "ttl")
    else elim (parse_int 10 text) [ none ↦ err (plain "ttl") | some i ↦ bounded_ttl i ]
