-- ===== src/Api/Exec.antt =====
-- Handlers that change the state and may return an error. What was written before the error stays
-- written, so the state comes back beside the error too.
use mathlib.Core.Path.{subst}
use dc.Prelude.{Bool, true, false, ◌≡◌, refl, sym, ap, ◌∙◌, ◌⊎◌, inl, inr, arith, if◌then◌else◌}
use dc.Api
use dc.Api.{Error, is_panic, Result-cases, Result, ok, err}

abbrev pub Exec {ℓ κ} : Type ℓ → Type κ → Type (ℓ ⊔ κ)
Exec S A = S → S × Result A

module _ {ℓ κ} {S : Type ℓ} {A : Type κ} where
  abbrev pub pure : A → Exec S A
  pure a s = (s, ok a)

  abbrev pub raise : Error → Exec S A
  raise e s = (s, err e)

  -- a call that only reads the state
  abbrev pub gets : (S → A) → Exec S A
  gets f s = (s, ok (f s))

  abbrev pub reads : (S → Result A) → Exec S A
  reads f s = (s, f s)

  abbrev pub lift : Result A → Exec S A
  lift r s = (s, r)

  -- `return nil, fmt.Errorf("…: %w", err)`
  abbrev pub wrap : Exec S A → Exec S A
  wrap m s = let (s', r) = m s in (s', Api.wrap r)

-- `if err := m; err != nil { … }`: a panic is not an error that the handler sees.
abbrev pub handled {ℓ κ} :
    {S : Type ℓ} {A : Type κ} → (Error → Exec S A) → S × Result A → S × Result A
handled h (s, ok a) = (s, ok a)
handled h (s, err e) = if is_panic e then (s, err e) else h e s

abbrev pub rescue {ℓ κ} : {S : Type ℓ} {A : Type κ} → Exec S A → (Error → Exec S A) → Exec S A
rescue m h s = handled h (m s)

module _ {ℓ κ μ} {S : Type ℓ} {A : Type κ} {B : Type μ} where
  abbrev pub continue : S → Result A → (A → Exec S B) → S × Result B
  continue s (ok a) f = f a s
  continue s (err e) f = (s, err e)

  infixl 5 ◌>>=◌
  abbrev pub ◌>>=◌ : Exec S A → (A → Exec S B) → Exec S B
  ◌>>=◌ m f s = let (s', r) = m s in continue s' r f

module _ {ℓ κ} {S : Type ℓ} {B : Type κ} where
  infixl 5 ◌>>◌
  abbrev pub ◌>>◌ : Exec S (Unit {0}) → Exec S B → Exec S B
  m >> k = m >>= λ _. k

  -- `if err := m; err != nil { return nil, fmt.Errorf("…: %w", err) }` before the rest
  abbrev pub checked : Exec S (Unit {0}) → Exec S B → Exec S B
  checked m k = wrap m >> k

-- `if cond { return nil, err }`
abbrev pub fail_if {ℓ} : {S : Type ℓ} → Bool → Error → Exec S (Unit {0})
fail_if true e s = (s, err e)
fail_if false e s = (s, ok tt)

-- A chain either stops at the error of its first part or goes on from its state.
pub then-cases {ℓ κ} :
    {S : Type ℓ} {B : Type κ} (m : Exec S (Unit {0})) (k : Exec S B) (s : S)
    → ((e : Error) × ((m s).1 ≡ err e) × ((m >> k) s ≡ ((m s).0, err e)))
      ⊎ (((m s).1 ≡ ok tt) × ((m >> k) s ≡ k (m s).0))
then-cases m k s = elim (Result-cases (m s).1) [
  | inl (e, p) ↦ inl (e, p, rw p refl)
  | inr (u, p) ↦ inr (p, rw p refl)
]

-- What a chain that succeeds has done.
pub then-ok {ℓ κ} :
    {S : Type ℓ} {B : Type κ} (m : Exec S (Unit {0})) (k : Exec S B) (s : S) (b : B)
    → ((m >> k) s).1 ≡ ok b
    → ((m s).1 ≡ ok tt) × ((m >> k) s ≡ k (m s).0)
then-ok m k s b h = elim (then-cases m k s) [
  | inl (e, p, q) ↦ absurd (ground (arith, h, q))
  | inr r ↦ r
]

-- A chain whose first part succeeds goes on from its state.
pub checked-ok {ℓ κ} :
    {S : Type ℓ} {B : Type κ} (m : Exec S (Unit {0})) (k : Exec S B) (s : S)
    → (m s).1 ≡ ok tt
    → checked m k s ≡ k (m s).0
checked-ok m k s p = rw p refl

-- What a chain of steps with answers that succeeds has done.
pub bind-ok {ℓ κ μ} :
    {S : Type ℓ} {A : Type κ} {B : Type μ} (m : Exec S A) (k : A → Exec S B) (s : S) (b : B)
    → ((m >>= k) s).1 ≡ ok b
    → (a : A) × ((m s).1 ≡ ok a) × ((m >>= k) s ≡ k a (m s).0)
bind-ok m k s b h = elim (Result-cases (m s).1) [
  | inl (e, p) ↦ absurd (ground (arith, h, p))
  | inr (a, p) ↦ (a, p, rw p refl)
]

-- What holds after every course of the rest that succeeds, holds after a chain that succeeds.
module _ {ℓ κ} {S : Type ℓ} {B : Type κ} (P : S × Result B → Type 0) where
  pub bind-post {μ} :
      {A : Type μ} (m : Exec S A) (k : A → Exec S B) (s : S) (b : B)
      → ((a : A) → (k a (m s).0).1 ≡ ok b → P (k a (m s).0))
      → ((m >>= k) s).1 ≡ ok b
      → P ((m >>= k) s)
  bind-post m k s b rest h =
      let (a, _, q) = bind-ok m k s b h in
      subst P (sym q) (rest a (sym (ap (λ (out : S × Result B). out.1) q) ∙ h))

  pub then-post :
      (m : Exec S (Unit {0})) (k : Exec S B) (s : S) (b : B)
      → ((m s).1 ≡ ok tt → (k (m s).0).1 ≡ ok b → P (k (m s).0))
      → ((m >> k) s).1 ≡ ok b
      → P ((m >> k) s)
  then-post m k s b rest h =
      let (p, q) = then-ok m k s b h in
      subst P (sym q) (rest p (sym (ap (λ (out : S × Result B). out.1) q) ∙ h))
