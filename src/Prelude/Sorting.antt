-- ===== src/Prelude/Sorting.antt =====
-- `slices.SortFunc` by a text key, on elements whose keys are distinct, as the entries of a Go map
-- are. Any sorting algorithm gives the same list then; here it is by insertion.
use dc.Prelude.{
  Bool-cases, inl, inr, String, ◌≡◌, refl, ap, ◌∙◌, suc, length, true, false, Option, none, some,
  List, [], ◌∷◌, arith, ◌==◌, eq_iff, eq_refl, if◌then◌else◌, All,
}
use dc.Prelude.Text.{lt_text, lt_text_irrefl, lt_text_trans, lt_text_total}

module _ {ℓ} {A : Type ℓ} (key : A → String) where
  insert_by : A → List A → List A
  insert_by x [] = x ∷ []
  insert_by x (y ∷ ys) =
      let rest = insert_by x ys in if lt_text (key x) (key y) then x ∷ y ∷ ys else y ∷ rest

  unfoldable pub sort_by : List A → List A
  unfolding insert_by
  sort_by [] = []
  sort_by (x ∷ xs) = insert_by x (sort_by xs)

  -- The element with a key.
  unfoldable pub find_by : String → List A → Option A
  find_by k [] = none
  find_by k (x ∷ xs) = if key x == k then some x else find_by k xs

  abbrev pub Fresh : String → List A → Type 0
  Fresh k = All (λ x. (key x == k) ≡ false)

  abbrev pub IsDistinct : List A → Type 0
  IsDistinct [] = Unit
  IsDistinct (x ∷ xs) = Fresh (key x) xs × IsDistinct xs

  abbrev pub Above : String → List A → Type 0
  Above k = All (λ x. lt_text k (key x) ≡ true)

  abbrev pub IsSorted : List A → Type 0
  IsSorted [] = Unit
  IsSorted (x ∷ xs) = Above (key x) xs × IsSorted xs

  Above-trans : (j k : String) (xs : List A) → lt_text j k ≡ true → Above k xs → Above j xs
  Above-trans j k [] h a = tt
  Above-trans j k (x ∷ xs) h a = (lt_text_trans j k (key x) h a.0, Above-trans j k xs h a.1)

  insert_by-Above :
      (k : String) (x : A) (xs : List A)
      → lt_text k (key x) ≡ true
      → Above k xs
      → Above k (insert_by x xs)
  unfolding insert_by
  insert_by-Above k x [] h a = (h, tt)
  insert_by-Above k x (y ∷ ys) h a = ground (arith, insert_by-Above k x ys h a.1)

  length-insert_by : (x : A) (xs : List A) → length (insert_by x xs) ≡ suc (length xs)
  unfolding insert_by
  length-insert_by x [] = refl
  length-insert_by x (y ∷ ys) = ground (arith, length-insert_by x ys)

  pub length-sort_by : (xs : List A) → length (sort_by xs) ≡ length xs
  unfolding sort_by
  length-sort_by [] = refl
  length-sort_by (x ∷ xs) = length-insert_by x (sort_by xs) ∙ ap suc (length-sort_by xs)

  insert_by-IsSorted :
      (x : A) (xs : List A) → Fresh (key x) xs → IsSorted xs → IsSorted (insert_by x xs)
  unfolding insert_by
  insert_by-IsSorted x [] f s = (tt, tt)
  insert_by-IsSorted x (y ∷ ys) f s = ground (
    arith,
    lt_text_total (key x) (key y),
    eq_iff (key y) (key x),
    Above-trans (key x) (key y) ys,
    insert_by-Above (key y) x ys,
    insert_by-IsSorted x ys f.1 s.1,
  )

  insert_by-Fresh :
      (k : String) (x : A) (xs : List A)
      → (key x == k) ≡ false
      → Fresh k xs
      → Fresh k (insert_by x xs)
  unfolding insert_by
  insert_by-Fresh k x [] h f = (h, tt)
  insert_by-Fresh k x (y ∷ ys) h f = ground (arith, insert_by-Fresh k x ys h f.1)

  pub sort_by-Fresh : (k : String) (xs : List A) → Fresh k xs → Fresh k (sort_by xs)
  unfolding sort_by
  sort_by-Fresh k [] f = tt
  sort_by-Fresh k (x ∷ xs) f = insert_by-Fresh k x (sort_by xs) f.0 (sort_by-Fresh k xs f.1)

  -- The sorted list is strictly increasing.
  pub sort_by-IsSorted : (xs : List A) → IsDistinct xs → IsSorted (sort_by xs)
  unfolding sort_by
  sort_by-IsSorted [] d = tt
  sort_by-IsSorted (x ∷ xs) d =
      insert_by-IsSorted x (sort_by xs) (sort_by-Fresh (key x) xs d.0) (sort_by-IsSorted xs d.1)

  find_by-Fresh : (k : String) (xs : List A) → Fresh k xs → find_by k xs ≡ none
  unfolding find_by
  find_by-Fresh k [] f = refl
  find_by-Fresh k (x ∷ xs) f = ground (arith, find_by-Fresh k xs f.1)

  find_by-insert_by :
      (k : String) (x : A) (xs : List A)
      → Fresh (key x) xs
      → find_by k (insert_by x xs) ≡ (if key x == k then some x else find_by k xs)
  unfolding find_by insert_by
  find_by-insert_by k x [] f = refl
  find_by-insert_by k x (y ∷ ys) f = ground (
    arith,
    find_by-insert_by k x ys f.1,
    eq_iff (key x) k,
    eq_iff (key y) k,
    eq_iff (key y) (key x),
  )

  -- Sorting neither loses nor adds an element.
  pub find_by-sort_by :
      (k : String) (xs : List A) → IsDistinct xs → find_by k (sort_by xs) ≡ find_by k xs
  unfolding sort_by find_by
  find_by-sort_by k [] d = refl
  find_by-sort_by k (x ∷ xs) d = ground (
    arith,
    find_by-insert_by k x (sort_by xs) (sort_by-Fresh (key x) xs d.0),
    find_by-sort_by k xs d.1,
  )

  pub find_by-Above : (k : String) (xs : List A) → Above k xs → find_by k xs ≡ none
  unfolding find_by
  find_by-Above k [] a = refl
  find_by-Above k (x ∷ xs) a =
      ground (arith, find_by-Above k xs a.1, eq_iff (key x) k, lt_text_irrefl k)

  same_head :
      (x y : A) (xs ys : List A)
      → IsSorted (x ∷ xs)
      → IsSorted (y ∷ ys)
      → ((k : String) → find_by k (x ∷ xs) ≡ find_by k (y ∷ ys))
      → x ≡ y
  unfolding find_by
  same_head x y xs ys s t h = ground (
    arith,
    h (key x),
    h (key y),
    eq_refl (key x),
    eq_refl (key y),
    eq_iff (key x) (key y),
    eq_iff (key y) (key x),
    lt_text_total (key x) (key y),
    find_by-Above (key x) ys,
    find_by-Above (key y) xs,
    Above-trans (key x) (key y) ys,
    Above-trans (key y) (key x) xs,
  )

  same_tail :
      (x y : A) (xs ys : List A)
      → x ≡ y
      → IsSorted (x ∷ xs)
      → IsSorted (y ∷ ys)
      → ((k : String) → find_by k (x ∷ xs) ≡ find_by k (y ∷ ys))
      → (k : String) → find_by k xs ≡ find_by k ys
  unfolding find_by
  same_tail x y xs ys e s t h k = ground (
    arith,
    h k,
    ap key e,
    eq_iff (key x) k,
    eq_iff (key y) k,
    find_by-Above (key x) xs s.0,
    find_by-Above (key y) ys t.0,
  )

  -- Two sorted lists with the same elements are equal: the sorted view of a map does not depend on
  -- the order in which the map is walked.
  pub sorted_ext :
      (xs ys : List A)
      → IsSorted xs
      → IsSorted ys
      → ((k : String) → find_by k xs ≡ find_by k ys)
      → xs ≡ ys
  unfolding find_by
  sorted_ext [] [] s t h = refl
  sorted_ext [] (y ∷ ys) s t h = ground (arith, h (key y), eq_refl (key y))
  sorted_ext (x ∷ xs) [] s t h = ground (arith, h (key x), eq_refl (key x))
  sorted_ext (x ∷ xs) (y ∷ ys) s t h =
      let e = same_head x y xs ys s t h in
      cc (e, sorted_ext xs ys s.1 t.1 (same_tail x y xs ys e s t h))

  insert_by-All {κ} :
      (P : A → Type κ) (x : A) (xs : List A) → P x → All P xs → All P (insert_by x xs)
  unfolding insert_by
  insert_by-All P x [] p a = (p, tt)
  insert_by-All P x (y ∷ ys) p a = elim (Bool-cases (lt_text (key x) (key y))) [
    | inl e ↦ rw (e, insert_by) (p, a)
    | inr e ↦ rw (e, insert_by) (a.0, insert_by-All P x ys p a.1)
  ]

  -- What holds of every element holds of every element of the sorted list.
  pub sort_by-All {κ} : (P : A → Type κ) (xs : List A) → All P xs → All P (sort_by xs)
  unfolding sort_by
  sort_by-All P [] a = tt
  sort_by-All P (x ∷ xs) a = insert_by-All P x (sort_by xs) a.0 (sort_by-All P xs a.1)
