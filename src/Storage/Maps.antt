-- ===== src/Storage/Maps.antt =====
-- The laws of the association lists that stand for Go maps.
use dc.Prelude.{
  String, ◌≡◌, refl, true, false, none, some, List, [], ◌∷◌, arith, ◌==◌, eq_iff, if◌then◌else◌,
  All,
}
use dc.Prelude.Sorting.{Fresh, IsDistinct}
use dc.Storage.{lookup, insert, delete}

module _ {ℓ} {V : Type ℓ} where
  -- The keys of the list are distinct, as the keys of a map are.
  abbrev pub IsMap : List (String × V) → Type 0
  IsMap = IsDistinct (λ (e : String × V). e.0)

  abbrev pub Misses : String → List (String × V) → Type 0
  Misses = Fresh (λ (e : String × V). e.0)

  pub lookup-delete :
      (k j : String) (m : List (String × V))
      → lookup j (delete k m) ≡ (if k == j then none else lookup j m)
  unfolding lookup delete
  lookup-delete k j [] = ground arith
  lookup-delete k j ((i, w) ∷ m) =
      ground (arith, eq_iff k j, eq_iff i k, eq_iff i j, lookup-delete k j m)

  -- What is read after a write: the value at its key, and elsewhere what was there.
  pub lookup-insert :
      (key other : String) (value : V) (entries : List (String × V))
      → lookup other (insert key value entries)
        ≡ (if key == other then some value else lookup other entries)
  unfolding lookup insert
  lookup-insert key other value [] = refl
  lookup-insert key other value ((name, old) ∷ rest) = ground (
    arith,
    lookup-insert key other value rest,
    eq_iff name other,
    eq_iff name key,
    eq_iff key other,
  )

  insert-Misses :
      (k j : String) (v : V) (m : List (String × V))
      → (k == j) ≡ false
      → Misses j m
      → Misses j (insert k v m)
  unfolding insert
  insert-Misses k j v [] e f = (e, tt)
  insert-Misses k j v ((i, w) ∷ m) e f = ground (arith, insert-Misses k j v m e f.1)

  pub insert-IsMap : (k : String) (v : V) (m : List (String × V)) → IsMap m → IsMap (insert k v m)
  unfolding insert
  insert-IsMap k v [] d = (tt, tt)
  insert-IsMap k v ((i, w) ∷ m) d =
      ground (arith, eq_iff i k, eq_iff k i, insert-Misses k i v m, insert-IsMap k v m d.1)

  delete-Misses : (k j : String) (m : List (String × V)) → Misses j m → Misses j (delete k m)
  unfolding delete
  delete-Misses k j [] f = tt
  delete-Misses k j ((i, w) ∷ m) f = ground (arith, delete-Misses k j m f.1)

  pub delete-IsMap : (k : String) (m : List (String × V)) → IsMap m → IsMap (delete k m)
  unfolding delete
  delete-IsMap k [] d = tt
  delete-IsMap k ((i, w) ∷ m) d = ground (arith, delete-Misses k i m d.0, delete-IsMap k m d.1)

  pub lookup-Misses : (k : String) (m : List (String × V)) → Misses k m → lookup k m ≡ none
  unfolding lookup
  lookup-Misses k [] f = refl
  lookup-Misses k ((i, w) ∷ m) f = ground (arith, lookup-Misses k m f.1)

  -- A predicate on every value.
  abbrev pub AllValues {κ} : (V → Type κ) → List (String × V) → Type κ
  AllValues P = All (λ (e : String × V). P e.1)

  pub insert-AllValues {κ} :
      (P : V → Type κ) (k : String) (v : V) (m : List (String × V))
      → P v
      → AllValues P m
      → AllValues P (insert k v m)
  unfolding insert
  insert-AllValues P k v [] p a = (p, tt)
  insert-AllValues P k v ((i, w) ∷ m) p a =
      elim (i == k) as (λ b. AllValues P (if b then (k, v) ∷ m else (i, w) ∷ insert k v m)) [
        | true ↦ (p, a.1)
        | false ↦ (a.0, insert-AllValues P k v m p a.1)
      ]

  pub delete-AllValues {κ} :
      (P : V → Type κ) (k : String) (m : List (String × V))
      → AllValues P m
      → AllValues P (delete k m)
  unfolding delete
  delete-AllValues P k [] a = tt
  delete-AllValues P k ((i, w) ∷ m) a =
      elim (i == k) as (λ b. AllValues P (if b then delete k m else (i, w) ∷ delete k m)) [
        | true ↦ delete-AllValues P k m a.1
        | false ↦ (a.0, delete-AllValues P k m a.1)
      ]

  pub lookup-AllValues {κ} :
      (P : V → Type κ) (k : String) (m : List (String × V)) {v : V}
      → AllValues P m
      → lookup k m ≡ some v
      → P v
  unfolding lookup
  lookup-AllValues P k [] a h = cc
  lookup-AllValues P k ((i, w) ∷ m) {v} a h = ground (arith, lookup-AllValues P k m {v = v} a.1)
