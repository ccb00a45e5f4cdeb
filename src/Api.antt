-- ===== src/Api.antt =====
-- pkg/dc2/api/error.go and the errors of pkg/dc2/storage/storage.go: what a Go function returns
-- beside its value, and the chain `if err != nil { return nil, err }` as a do block.
pub mod Exec
use dc.Prelude.{String, ◌≡◌, refl, ◌⊎◌, inl, inr, Bool, true, false, Option, none, some, ℕ, ◌==◌}

-- An error value, with the data that a caller can inspect and without its message text.
-- `wrapped` is `fmt.Errorf("…: %w", err)`, which `errors.As` looks through; `plain` is a message
-- with nothing behind it; `joined` is `errors.Join`. `invalid_parameter_value` keeps the name of the
-- parameter that is refused, `with_code` the code. `panics` is a Go panic that ends the request.
pub data Error : Type 0 where
  resource_not_found : String → Error
  duplicated_resource : String → Error
  invalid_parameter_value : String → Error
  with_code : String → Error
  dry_run : Error
  plain : String → Error
  wrapped : Error → Error
  joined : Error → Error → Error
  panics : Error

-- `errors.As(err, &storage.ErrResourceNotFound{})`: depth first through the wrapped errors.
unfoldable pub is_not_found : Error → Bool
is_not_found (resource_not_found id) = true
is_not_found (wrapped e) = is_not_found e
is_not_found (joined a b) =
    let rest = is_not_found b in elim (is_not_found a) [ true ↦ true | false ↦ rest ]
is_not_found (duplicated_resource id) = false
is_not_found (invalid_parameter_value p) = false
is_not_found (with_code c) = false
is_not_found dry_run = false
is_not_found (plain m) = false
is_not_found panics = false

-- A panic, also one that a caller's message would wrap.
unfoldable pub is_panic : Error → Bool
is_panic panics = true
is_panic (wrapped e) = is_panic e
is_panic (joined a b) = let rest = is_panic b in elim (is_panic a) [ true ↦ true | false ↦ rest ]
is_panic (resource_not_found id) = false
is_panic (duplicated_resource id) = false
is_panic (invalid_parameter_value p) = false
is_panic (with_code c) = false
is_panic dry_run = false
is_panic (plain m) = false

-- `errors.As(err, &apiErr) && apiErr.Code == code`: the code of the first API error inside.
unfoldable pub api_code : Error → Option String
api_code (wrapped e) = api_code e
api_code (joined a b) = let rest = api_code b in elim (api_code a) [ some c ↦ some c | none ↦ rest ]
api_code (invalid_parameter_value p) = some "InvalidParameterValue"
api_code (with_code c) = some c
api_code dry_run = some "DryRunOperation"
api_code (plain m) = none
api_code (resource_not_found id) = none
api_code (duplicated_resource id) = none
api_code panics = none

abbrev pub has_code : Error → String → Bool
has_code e c = elim (api_code e) [ none ↦ false | some d ↦ d == c ]

pub data Result {ℓ} (A : Type ℓ) : Type ℓ where
  ok : A → Result A
  err : Error → Result A

-- A result that a client sees as a success.
abbrev pub is_ok {ℓ} : {A : Type ℓ} → Result A → Bool
is_ok (ok a) = true
is_ok (err e) = false

-- `if err != nil { return nil, err }` between two steps.
module _ {ℓ κ} {A : Type ℓ} {B : Type κ} where
  infixl 5 ◌>>=◌
  abbrev pub ◌>>=◌ : Result A → (A → Result B) → Result B
  err problem >>= next = err problem
  ok value >>= next = next value

module _ {κ} {B : Type κ} where
  infixl 5 ◌>>◌
  abbrev pub ◌>>◌ : Result (Unit {0}) → Result B → Result B
  first >> next = first >>= λ _. next

-- `if cond { return nil, err }`
abbrev pub fail_if : Bool → Error → Result (Unit {0})
fail_if true e = err e
fail_if false e = ok tt

-- `return nil, fmt.Errorf("…: %w", err)`
abbrev pub wrap {ℓ} : {A : Type ℓ} → Result A → Result A
wrap (ok a) = ok a
wrap (err e) = err (wrapped e)

pub Result-cases {ℓ} :
    {A : Type ℓ} (r : Result A) → ((e : Error) × (r ≡ err e)) ⊎ ((a : A) × (r ≡ ok a))
Result-cases (err e) = inl (e, refl)
Result-cases (ok a) = inr (a, refl)
