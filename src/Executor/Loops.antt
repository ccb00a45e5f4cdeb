-- ===== src/Executor/Loops.antt =====
-- What a loop of a handler leaves behind.
use dc.Prelude.{arith, refl, false, Bool-cases, ◌≡◌, ◌∙◌, ap, sym, List, [], ◌∷◌, All, inl, inr}
use mathlib.Core.Path.{subst}
use dc.Api.{is_panic, Error, Result, ok, err, Result-cases}
use dc.Api.Exec.{Exec, then-ok, ◌>>=◌, rescue}
use dc.Executor.{each}

module _ {S A : Type 0} (f : A → Exec S (Unit {0})) where
  -- What every turn keeps, the loop keeps, also if it stops at an error.
  pub each-keeps :
      (P : S → Type 0)
      → ((a : A) (s : S) → P s → P (f a s).0)
      → (xs : List A) (s : S) → P s
      → P (each f xs s).0
  unfolding each
  each-keeps P keeps [] s p = p
  each-keeps P keeps (a ∷ xs) s p = elim (Result-cases (f a s).1) [
    | inl (e, q) ↦ rw q (keeps a s p)
    | inr (u, q) ↦ rw q (each-keeps P keeps xs (f a s).0 (keeps a s p))
  ]

  -- What a turn that succeeds makes and the others keep, a loop that succeeds makes for each.
  pub each-makes :
      (P : A → S → Type 0)
      → ((a b : A) (s : S) → P b s → P b (f a s).0)
      → ((a : A) (s : S) → (f a s).1 ≡ ok tt → P a (f a s).0)
      → (xs : List A) (s : S) → (each f xs s).1 ≡ ok tt
      → All (λ a. P a (each f xs s).0) xs
  unfolding each
  each-makes P keeps makes [] s h = tt
  each-makes P keeps makes (a ∷ xs) s h =
      let (p, q) = then-ok (f a) (each f xs) s tt h in
      let rest : (each f xs (f a s).0).1 ≡ ok tt =
        sym (ap (λ (o : S × Result (Unit {0})). o.1) q) ∙ h in
      subst (λ (o : S × Result (Unit {0})). P a o.0 × All (λ b. P b o.0) xs) (sym q)
        (
          each-keeps (P a) (λ b t. keeps b a t) xs (f a s).0 (makes a s p),
          each-makes P keeps makes xs (f a s).0 rest,
        )

-- How a chain of steps that fails has failed.
pub bind-fails {ℓ κ} :
    {S : Type 0} {A : Type ℓ} {B : Type κ} (P : S → Type 0) (m : Exec S A) (k : A → Exec S B)
    (s : S) (e : Error)
    → ((m s).1 ≡ err e → P (m s).0)
    → ((a : A) → (m s).1 ≡ ok a → (k a (m s).0).1 ≡ err e → P (k a (m s).0).0)
    → ((m >>= k) s).1 ≡ err e
    → P ((m >>= k) s).0
bind-fails P m k s e one rest h = elim (Result-cases (m s).1) [
  | inl (f, p) ↦ rw p (one (ground (arith, h, p)))
  | inr (a, p) ↦ rw p (rest a p (sym (rw p refl) ∙ h))
]

-- How a step with a handler of its errors has failed without a panic.
pub rescue-fails {ℓ} :
    {S : Type 0} {A : Type ℓ} (P : S → Type 0) (m : Exec S A) (k : Error → Exec S A) (s : S)
    (e : Error)
    → is_panic e ≡ false
    → ((f : Error) → (k f (m s).0).1 ≡ err e → P (k f (m s).0).0)
    → (rescue m k s).1 ≡ err e
    → P (rescue m k s).0
rescue-fails P m k s e n rest h = elim (Result-cases (m s).1) [
  | inr (a, p) ↦ absurd (ground (arith, h, p))
  | inl (f, p) ↦ elim (Bool-cases (is_panic f)) [
    | inl b ↦ absurd (ground (arith, h, p, b, n))
    | inr b ↦ rw (p, b) (rest f (sym (rw (p, b) refl) ∙ h))
  ]
]

-- A loop whose turns fail in one way only fails in that way.
pub each-fails :
    {S A : Type 0} (F : Error → Type 0) (f : A → Exec S (Unit {0}))
    → ((a : A) (s : S) (e : Error) → (f a s).1 ≡ err e → F e)
    → (xs : List A) (s : S) (e : Error) → (each f xs s).1 ≡ err e
    → F e
unfolding each
each-fails F f one [] s e h = absurd (ground (arith, h))
each-fails F f one (a ∷ xs) s e h = elim (Result-cases (f a s).1) [
  | inl (g, p) ↦ one a s e (ground (arith, h, p))
  | inr (u, p) ↦ each-fails F f one xs (f a s).0 e (sym (rw p refl) ∙ h)
]
