-- ===== src/Executor/Keeps.antt =====
-- What a handler keeps of the state in every course it can take, also one that ends in an error.
use dc.Imds.{Imds}
use dc.Prelude.{String, ◌≡◌, Bool, true, false, List, inl, inr, Bool-cases}
use dc.Api.{Error, Result, ok, is_panic, Result-cases}
use dc.Api.Exec.{Exec, ◌>>=◌, ◌>>◌, rescue, wrap, pure, raise, gets, reads, lift, fail_if}
use dc.Storage.{Storage}
use dc.Executor.{in_imds, cancel_reclaim, World, in_storage, in_exe, each}
use dc.Executor.Loops.{each-keeps}

-- No course of the handler leads out of the predicate.
pub record Keeps {ℓ} {S : Type 0} {A : Type ℓ} (P : S → Type 0) (m : Exec S A) : Type 0 where
  pub run : (s : S) → P s → P (m s).0

module _ {S : Type 0} {P : S → Type 0} where
  pub bind-Keeps {ℓ κ} :
      {A : Type ℓ} {B : Type κ} {m : Exec S A} {k : A → Exec S B}
      → Keeps P m
      → ((a : A) → Keeps P (k a))
      → Keeps P (m >>= k)
  bind-Keeps {m = m} {k = k} one rest = record {
    run = λ s p. elim (Result-cases (m s).1) [
      | inl (e, q) ↦ rw q (one.run s p)
      | inr (a, q) ↦ rw q ((rest a).run (m s).0 (one.run s p))
    ];
  }

  pub then-Keeps {κ} :
      {B : Type κ} {m : Exec S (Unit {0})} {k : Exec S B} → Keeps P m → Keeps P k → Keeps P (m >> k)
  then-Keeps one rest = bind-Keeps one (λ u. rest)

  pub rescue-Keeps {ℓ} :
      {A : Type ℓ} {m : Exec S A} {h : Error → Exec S A}
      → Keeps P m
      → ((e : Error) → Keeps P (h e))
      → Keeps P (rescue m h)
  rescue-Keeps {m = m} one rest = record {
    run = λ s p. elim (Result-cases (m s).1) [
      | inr (a, q) ↦ rw q (one.run s p)
      | inl (e, q) ↦ elim (Bool-cases (is_panic e)) [
        | inl b ↦ rw (q, b) (one.run s p)
        | inr b ↦ rw (q, b) ((rest e).run (m s).0 (one.run s p))
      ]
    ];
  }

  pub each-Keeps :
      {A : Type 0} {f : A → Exec S (Unit {0})} (xs : List A)
      → ((a : A) → Keeps P (f a))
      → Keeps P (each f xs)
  each-Keeps {f = f} xs one = record { run = λ s p. each-keeps f P (λ a. (one a).run) xs s p }

-- The steps that do not change the state.
module _ {ℓ} {S : Type 0} {P : S → Type 0} {A : Type ℓ} where
  pub pure-Keeps : (a : A) → Keeps P (pure {S = S} a)
  pure-Keeps a = record { run = λ s p. p }

  pub raise-Keeps : (e : Error) → Keeps P (raise {S = S} {A = A} e)
  raise-Keeps e = record { run = λ s p. p }

  pub gets-Keeps : (f : S → A) → Keeps P (gets f)
  gets-Keeps f = record { run = λ s p. p }

  pub reads-Keeps : (f : S → Result A) → Keeps P (reads f)
  reads-Keeps f = record { run = λ s p. p }

  pub lift-Keeps : (r : Result A) → Keeps P (lift {S = S} r)
  lift-Keeps r = record { run = λ s p. p }

  pub wrap-Keeps : {m : Exec S A} → Keeps P m → Keeps P (wrap m)
  wrap-Keeps k = record { run = k.run }

pub fail_if-Keeps :
    {S : Type 0} {P : S → Type 0} (b : Bool) (e : Error) → Keeps P (fail_if {S = S} b e)
fail_if-Keeps true e = record { run = λ s p. p }
fail_if-Keeps false e = record { run = λ s p. p }

-- A predicate of the storage, of the state of the Dispatcher.
abbrev pub Stored : {E : Type 0} → (Storage → Type 0) → World E → Type 0
Stored Q w = Q w.storage

pub in_storage-Keeps {ℓ} :
    {E : Type 0} {Q : Storage → Type 0} {A : Type ℓ} {m : Exec Storage A}
    → Keeps Q m
    → Keeps (Stored Q) (in_storage {E = E} m)
in_storage-Keeps k = record { run = λ w q. k.run w.storage q }

pub in_exe-Keeps {ℓ} :
    {E : Type 0} (Q : Storage → Type 0) {A : Type ℓ} (m : Exec E A) → Keeps (Stored Q) (in_exe m)
in_exe-Keeps Q m = record { run = λ w q. q }

-- The other parts of the state of the Dispatcher.
pub in_imds-Keeps :
    {E : Type 0} (Q : Storage → Type 0) (f : Imds → Imds) → Keeps (Stored {E = E} Q) (in_imds f)
in_imds-Keeps Q f = record { run = λ w q. q }

pub cancel_reclaim-Keeps :
    {E : Type 0} (Q : Storage → Type 0) (id : String) → Keeps (Stored {E = E} Q) (cancel_reclaim id)
cancel_reclaim-Keeps Q id = record { run = λ w q. q }

-- What a computation or a test of the state has answered is known in the rest.
pub lift_then-Keeps {ℓ κ} :
    {S : Type 0} {P : S → Type 0} {A : Type ℓ} {B : Type κ} (r : Result A) {k : A → Exec S B}
    → ((a : A) → r ≡ ok a → Keeps P (k a))
    → Keeps P (lift r >>= k)
lift_then-Keeps r rest = record {
  run =
      λ s p. elim (Result-cases r) [ inl (e, q) ↦ rw q p | inr (a, q) ↦ rw q ((rest a q).run s p) ];
}

pub reads_then-Keeps {ℓ κ} :
    {S : Type 0} {P : S → Type 0} {A : Type ℓ} {B : Type κ} (f : S → Result A) {k : A → Exec S B}
    → ((s : S) (a : A) → P s → f s ≡ ok a → Keeps P (k a))
    → Keeps P (reads f >>= k)
reads_then-Keeps f rest = record {
  run = λ s p. elim (Result-cases (f s)) [
    | inl (e, q) ↦ rw q p
    | inr (a, q) ↦ rw q ((rest s a p q).run s p)
  ];
}
