-- ===== src/Imds/Access.antt =====
-- An instance whose metadata service is switched off, through any traffic on pkg/dc2/imds.go.
use dc.Prelude.{
  ℕ, String, ◌≡◌, refl, ap, ◌∙◌, Bool, true, false, Option, none, some, List, [], ◌∷◌, arith, ◌==◌,
  eq_iff, eq_refl, if◌then◌else◌, All, inl, inr, Option-cases, Bool-cases, not, ◌⊎◌, is_some,
}
use dc.Prelude.Text.{trim_space}
use dc.Api.{Result, ok, err}
use dc.Storage.{lookup, delete}
use dc.Storage.Maps.{lookup-insert, lookup-delete}
use dc.Imds.{
  Imds, enabled, revoke_tokens, set_enabled, set_tags, set_spot_instance_action,
  clear_spot_instance_action, validate_token, has_valid_token, issue_token, imds_token_ttl,
}
use dc.Imds.Http.{
  Client, Container, HttpRequest, Response, status_only, found, not_found, failed, get_handler,
  handle_token, token_for, Caller, token_for_caller, resolve_caller, token_with_ttl,
  resolve_metadata_request, resolve_container, imds_instance_runtime_id,
}
use dc.Imds.Tokens.{
  NoTokens, without_tokens_of-NoTokens, without_tokens_of-keeps, delete-NoTokens, insert-NoTokens,
  has_valid_token-NoTokens,
}

-- What reaches the controller: calls of the dispatcher and HTTP requests.
pub data Event : Type 0 where
  switch : String → Bool → Event
  revoke : String → Event
  tag : String → List (String × String) → Event
  warn : String → String → ℕ → Event
  unwarn : String → Event
  read : (Imds → Client → Response) → HttpRequest → ℕ → Event
  ask : Option String → HttpRequest → ℕ → Event

unfoldable pub step : Event → Imds → Imds
step (switch c b) s = set_enabled c b s
step (revoke c) s = revoke_tokens c s
step (tag c ts) s = set_tags c ts s
step (warn c action time) s = set_spot_instance_action c action time s
step (unwarn c) s = clear_spot_instance_action c s
step (read f r now) s = (get_handler f r now s).0
step (ask random r now) s = (handle_token random r now s).0

unfoldable pub run : List Event → Imds → Imds
unfolding step
run [] s = s
run (e ∷ es) s = run es (step e s)

-- The event switches the container on.
abbrev pub switches_on : String → Event → Bool
switches_on c (switch d b) = if d == c then b else false
switches_on c (revoke d) = false
switches_on c (tag d ts) = false
switches_on c (warn d a t) = false
switches_on c (unwarn d) = false
switches_on c (read f r now) = false
switches_on c (ask random r now) = false

-- Switched off, with no token left.
pub record IsShut (c : String) (s : Imds) : Type 0 where
  pub disabled : lookup c s.disabled_instances ≡ some true
  pub no_tokens : NoTokens c s.tokens

set_enabled-IsShut : (c : String) (s : Imds) → IsShut c (set_enabled c false s)
unfolding set_enabled revoke_tokens
set_enabled-IsShut c s = record {
  disabled = lookup-insert c c true s.disabled_instances ∙ ground (arith, eq_refl c);
  no_tokens = without_tokens_of-NoTokens c s.tokens;
}

switch-IsShut :
    (c d : String) (b : Bool) (s : Imds)
    → switches_on c (switch d b) ≡ false
    → IsShut c s
    → IsShut c (set_enabled d b s)
unfolding set_enabled revoke_tokens
switch-IsShut c d true s h v = record {
  disabled = lookup-delete d c s.disabled_instances ∙ ground (arith, h, v.disabled);
  no_tokens = v.no_tokens;
}
switch-IsShut c d false s h v = record {
  disabled = lookup-insert d c true s.disabled_instances ∙ ground (arith, v.disabled);
  no_tokens = without_tokens_of-keeps c d s.tokens v.no_tokens;
}

enabled-IsShut : (c d : String) (s : Imds) → IsShut c s → enabled s d ≡ true → (d == c) ≡ false
unfolding enabled
enabled-IsShut c d s v h = ground (arith, h, v.disabled, eq_iff d c)

issue-IsShut :
    (c d : String) (random : Option String) (ttl now : ℕ) (s : Imds)
    → (d == c) ≡ false
    → IsShut c s
    → IsShut c (issue_token random d ttl now s).0
unfolding issue_token
issue-IsShut c d none ttl now s h v = v
issue-IsShut c d (some token) ttl now s h v = record {
  disabled = v.disabled;
  no_tokens = insert-NoTokens c token _ s.tokens h v.no_tokens;
}

-- A check either leaves the state as it is or drops the token.
dropped : String → Imds → Imds
dropped token s = record s { tokens = delete token s.tokens }

validate_token-cases :
    (token d : String) (now : ℕ) (s : Imds)
    → ((validate_token token d now s).0 ≡ s) ⊎ ((validate_token token d now s).0 ≡ dropped token s)
unfolding validate_token dropped
validate_token-cases token d now s = elim (Option-cases (lookup token s.tokens)) [
  | inl e ↦ inl (ground (arith, e))
  | inr (t, e) ↦ ground (arith, e)
]

dropped-IsShut : (c token : String) (s : Imds) → IsShut c s → IsShut c (dropped token s)
unfolding dropped
dropped-IsShut c token s v = record {
  disabled = v.disabled;
  no_tokens = delete-NoTokens c token s.tokens v.no_tokens;
}

has_valid_token-IsShut :
    (c d header : String) (now : ℕ) (s : Imds)
    → IsShut c s
    → IsShut c (has_valid_token header d now s).0
unfolding has_valid_token
has_valid_token-IsShut c d header now s v = elim (Bool-cases (trim_space header == "")) [
  | inl e ↦ rw (e, has_valid_token) v
  | inr e ↦
      rw (e, has_valid_token)
        (elim (validate_token-cases (trim_space header) d now s) [
          | inl p ↦ rw p v
          | inr p ↦ rw p (dropped-IsShut c (trim_space header) s v)
        ])
]

resolve_container-IsShut :
    (c : String) (box : Container) (header : String) (now : ℕ) (s : Imds)
    → IsShut c s
    → IsShut c (resolve_container box header now s).0
unfolding resolve_container
resolve_container-IsShut c box header now s v = elim (Option-cases (imds_instance_runtime_id box)) [
  | inl e ↦ rw (e, resolve_container) v
  | inr (id, e) ↦ elim (Bool-cases (enabled s id)) [
    | inl on ↦ rw (e, on, resolve_container) (has_valid_token-IsShut c id header now s v)
    | inr off ↦ rw (e, off, resolve_container) v
  ]
]

resolve_caller-IsShut :
    (c : String) (who : Caller) (header : String) (now : ℕ) (s : Imds)
    → IsShut c s
    → IsShut c (resolve_caller who header now s).0
unfolding resolve_caller
resolve_caller-IsShut c not_found header now s v = v
resolve_caller-IsShut c failed header now s v = v
resolve_caller-IsShut c (found box) header now s v = elim (Bool-cases (is_some box.labels)) [
  | inl e ↦ rw (e, resolve_caller) (resolve_container-IsShut c box header now s v)
  | inr e ↦ rw (e, resolve_caller) v
]

get_handler-IsShut :
    (c : String) (f : Imds → Client → Response) (r : HttpRequest) (now : ℕ) (s : Imds)
    → IsShut c s
    → IsShut c (get_handler f r now s).0
unfolding get_handler resolve_metadata_request
get_handler-IsShut c f r now s v =
    ground (arith, resolve_caller-IsShut c r.caller r.token_header now s v)

token_with_ttl-IsShut :
    (c : String) (ttl : Result ℕ) (id : String) (random : Option String) (now : ℕ) (s : Imds)
    → (id == c) ≡ false
    → IsShut c s
    → IsShut c (token_with_ttl ttl id random now s).0
unfolding token_with_ttl
token_with_ttl-IsShut c (err e) id random now s h v = v
token_with_ttl-IsShut c (ok ttl) id random now s h v = issue-IsShut c id random ttl now s h v

token_for_caller-IsShut :
    (c : String) (who : Caller) (random : Option String) (header : String) (now : ℕ) (s : Imds)
    → IsShut c s
    → IsShut c (token_for_caller who random header now s).0
unfolding token_for_caller token_for
token_for_caller-IsShut c not_found random header now s v = v
token_for_caller-IsShut c failed random header now s v = v
token_for_caller-IsShut c (found box) random header now s v =
    elim (Option-cases (imds_instance_runtime_id box)) [
      | inl e ↦ rw (e, token_for) v
      | inr (id, e) ↦ elim (Bool-cases (enabled s id)) [
        | inl on ↦
            rw (e, on, token_for)
              (token_with_ttl-IsShut c (imds_token_ttl header) id random now s
                (enabled-IsShut c id s v on) v)
        | inr off ↦ rw (e, off, token_for) v
      ]
    ]

handle_token-IsShut :
    (c : String) (random : Option String) (r : HttpRequest) (now : ℕ) (s : Imds)
    → IsShut c s
    → IsShut c (handle_token random r now s).0
unfolding handle_token
handle_token-IsShut c random r now s v =
    ground (arith, token_for_caller-IsShut c r.caller random r.ttl_header now s v)

set_tags-IsShut :
    (c d : String) (ts : List (String × String)) (s : Imds)
    → IsShut c s
    → IsShut c (set_tags d ts s)
unfolding set_tags
set_tags-IsShut c d [] s v = record { disabled = v.disabled; no_tokens = v.no_tokens }
set_tags-IsShut c d (t ∷ ts) s v = record { disabled = v.disabled; no_tokens = v.no_tokens }

step-IsShut :
    (c : String) (e : Event) (s : Imds) → switches_on c e ≡ false → IsShut c s → IsShut c (step e s)
unfolding step revoke_tokens set_spot_instance_action clear_spot_instance_action
step-IsShut c (switch d b) s h v = switch-IsShut c d b s h v
step-IsShut c (revoke d) s h v = record {
  disabled = v.disabled;
  no_tokens = without_tokens_of-keeps c d s.tokens v.no_tokens;
}
step-IsShut c (tag d ts) s h v = set_tags-IsShut c d ts s v
step-IsShut c (warn d a t) s h v = record { disabled = v.disabled; no_tokens = v.no_tokens }
step-IsShut c (unwarn d) s h v = record { disabled = v.disabled; no_tokens = v.no_tokens }
step-IsShut c (read f r now) s h v = get_handler-IsShut c f r now s v
step-IsShut c (ask random r now) s h v = handle_token-IsShut c random r now s v

run-IsShut :
    (c : String) (es : List Event) (s : Imds)
    → All (λ e. switches_on c e ≡ false) es
    → IsShut c s
    → IsShut c (run es s)
unfolding run
run-IsShut c [] s h v = v
run-IsShut c (e ∷ es) s h v = run-IsShut c es (step e s) h.1 (step-IsShut c e s h.0 v)

-- What a container is answered after its service was switched off and any events but one that
-- switches it on again.
abbrev pub after : String → List Event → Imds → Imds
after c es s = run es (set_enabled c false s)

-- While the service of a container is switched off, whatever else happens, its requests are
-- answered 404, metadata and tokens alike.
pub switched_off_answers :
    (c : String) (es : List Event) (s : Imds) (box : Container) (header ttl_header : String)
    (random : Option String) (now : ℕ)
    → All (λ e. switches_on c e ≡ false) es
    → imds_instance_runtime_id box ≡ some c
    → (resolve_container box header now (after c es s) ≡ (after c es s, inl (status_only 404)))
      × (token_for box random ttl_header now (after c es s) ≡ (after c es s, status_only 404))
unfolding resolve_container token_for enabled
switched_off_answers c es s box header ttl_header random now h e =
    let v = run-IsShut c es _ h (set_enabled-IsShut c s) in
    (rw (e, v.disabled, resolve_container) refl, rw (e, v.disabled, token_for) refl)

enabled_on : (c : String) (s : Imds) → enabled (set_enabled c true s) c ≡ true
unfolding enabled set_enabled
enabled_on c s =
    let gone : lookup c (delete c s.disabled_instances) ≡ none =
      lookup-delete c c s.disabled_instances ∙ ground (arith, eq_refl c) in
    ap (λ (o : Option Bool). not (is_some o)) gone

-- After the service is switched off and later on again, every token from before is refused: the
-- container is answered 401 until it asks for a new token.
pub switched_on_again :
    (c : String) (es : List Event) (s : Imds) (box : Container) (header : String) (now : ℕ)
    → All (λ e. switches_on c e ≡ false) es
    → imds_instance_runtime_id box ≡ some c
    → (resolve_container box header now (set_enabled c true (after c es s))).1
      ≡ inl (status_only 401)
unfolding resolve_container set_enabled
switched_on_again c es s box header now h e =
    let v = run-IsShut c es _ h (set_enabled-IsShut c s) in
    rw
      (
        e,
        enabled_on c (after c es s),
        resolve_container,
        has_valid_token-NoTokens header c now (set_enabled c true (after c es s)) v.no_tokens,
      )
      refl
