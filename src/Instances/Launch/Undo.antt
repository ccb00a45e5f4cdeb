-- ===== src/Instances/Launch/Undo.antt =====
-- cleanupFailedRunInstancesLaunch of pkg/dc2/dispatcher_instance.go: the records of the instances
-- that it undoes are gone.
use dc.Prelude.{
  String, ◌≡◌, refl, sym, ap, ◌∙◌, ◌⊎◌, inl, inr, true, false, Option, none, some, List, [], ◌∷◌,
  arith, ◌==◌, Bool-cases, Option-cases, All, map,
}
use dc.Api.{Error, Result, ok, err, Result-cases, is_panic}
use dc.Api.Exec.{Exec}
use dc.Storage.{Storage, remove_resource, resource_attributes, find_key, lookup}
use dc.Storage.Kinds.{type_in}
use dc.Spot.Schedule.{cancel_spot_reclaim}
use dc.Spot.Names as SpotNames
use dc.Executor.{Executor, World, StateChange, in_storage, in_exe, api_instance_id, each}
use dc.Volumes.Lifecycle.{cleanup_volumes}
use dc.Volumes.Lifecycle.Cleanup.{OnlyVolumesGone, cleanup_volumes-OnlyVolumesGone}
use dc.Instances.Lifecycle.{Settings}
use dc.Instances.Launch.Request.{Outside, logged}
use dc.Instances.Launch.{remove_request, undo_request, undo_instance, cleanup_failed_launch}
use dc.Instances.Launch.Limits.{Limited, OneOf, remove-Limited, removed-Limited}

-- A call whose error is logged succeeds, unless it panics.
logged-cases :
    {S A : Type 0} (m : Exec S A) (s : S)
    → (logged m s ≡ ((m s).0, ok tt))
      ⊎ ((e : Error) × (is_panic e ≡ true) × (logged m s ≡ ((m s).0, err e)))
logged-cases m s = elim (Result-cases (m s).1) [
  | inr (a, p) ↦ inl (rw p refl)
  | inl (e, p) ↦ elim (Bool-cases (is_panic e)) [
    | inl b ↦ inr (e, b, rw (p, b) refl)
    | inr b ↦ inl (rw (p, b) refl)
  ]
]

-- Removing a record never panics.
logged-remove :
    {E : Type 0} (id : String) (w : World E)
    → logged (in_storage {E = E} (remove_resource id)) w
      ≡ (record w { storage = (remove_resource id w.storage).0 }, ok tt)
unfolding remove_resource is_panic
logged-remove id w = elim (Option-cases (lookup id w.storage.resources)) [
  | inl e ↦ rw (e, remove_resource) refl
  | inr (y, e) ↦ rw (e, remove_resource) refl
]

module _ {R : Type 0} (outside : Outside R) (o : Settings) {E : Type 0} (x : Executor E)
    (K : String → Type 0) where
  remove_request-Limited :
      (request : Option String) (w : World E)
      → Limited K w.storage
      → ((remove_request outside o x request w).1 ≡ ok tt)
        × Limited K (remove_request outside o x request w).0.storage
  unfolding remove_request
  remove_request-Limited none w l = (refl, l)
  remove_request-Limited (some id) w l = elim (Bool-cases (id == "")) [
    | inl e ↦ rw (e, remove_request) (refl, l)
    | inr e ↦
        rw (e, remove_request)
          (rw (logged-remove id w) (refl, (remove-Limited K id).run w.storage l))
  ]

  undo_request-Limited :
      (id : String) (w : World E)
      → Limited K w.storage
      → ((undo_request outside o x id w).1 ≡ ok tt)
        × Limited K (undo_request outside o x id w).0.storage
  unfolding undo_request
  undo_request-Limited id w l = elim (Result-cases (resource_attributes w.storage id)) [
    | inl (e, p) ↦ rw (p, undo_request) (refl, l)
    | inr (attrs, p) ↦
        rw (p, undo_request) (remove_request-Limited (find_key attrs SpotNames.request_id) w l)
  ]

module _ {R : Type 0} (outside : Outside R) (o : Settings) {E : Type 0} (x : Executor E) where
  -- Undoing the launch of an instance succeeds, and its record is gone.
  undo_instance-Limited :
      (K : String → Type 0) (id : String) (w : World E)
      → Limited (λ j. (api_instance_id id ≡ j) ⊎ K j) w.storage
      → ((undo_instance outside o x id w).1 ≡ ok tt)
        × Limited K (undo_instance outside o x id w).0.storage
  unfolding undo_instance
  undo_instance-Limited K id w l =
      let v : World E = record w { spot = cancel_spot_reclaim (api_instance_id id) w.spot } in
      let (p, k) =
        undo_request-Limited outside o x (λ j. (api_instance_id id ≡ j) ⊎ K j) (api_instance_id id)
          v l in
      rw (p, undo_instance)
        (rw (logged-remove (api_instance_id id) (undo_request outside o x (api_instance_id id) v).0)
          (refl, removed-Limited K (api_instance_id id) _ k))

  undo_each-Limited :
      (K : String → Type 0) (ids : List String) (w : World E)
      → Limited (OneOf ids K) w.storage
      → ((each (undo_instance outside o x) ids w).1 ≡ ok tt)
        × Limited K (each (undo_instance outside o x) ids w).0.storage
  unfolding each
  undo_each-Limited K [] w l = (refl, l)
  undo_each-Limited K (id ∷ ids) w l =
      let (p, k) = undo_instance-Limited (OneOf ids K) id w l in
      rw p (undo_each-Limited K ids (undo_instance outside o x id w).0 k)

OneOf-rest : (K : String → Type 0) (ids : List String) (j : String) → K j → OneOf ids K j
OneOf-rest K [] j k = k
OneOf-rest K (id ∷ ids) j k = inr (OneOf-rest K ids j k)

All-map :
    {P Q : String → Type 0} → ((j : String) → P j → Q j) → (xs : List String) → All P xs → All Q xs
All-map f [] a = tt
All-map f (x ∷ xs) (a, as') = (f x a, All-map f xs as')

-- The ids of a launch are allowed for it.
pub OneOf-Limited :
    (K : String → Type 0) (ids : List String) (s : Storage) → Limited K s → Limited (OneOf ids K) s
OneOf-Limited K ids s l = record {
  valid = l.valid;
  within = λ j h. OneOf-rest K ids j (l.within j h);
}

pub OneOf-All :
    (K : String → Type 0) (ids : List String) → All (λ id. OneOf ids K (api_instance_id id)) ids
OneOf-All K [] = tt
OneOf-All K (id ∷ ids) = (inl refl, All-map (λ j k. inr k) ids (OneOf-All K ids))

gone-Limited :
    (K : String → Type 0) (ids : List String) (s t : Storage)
    → OnlyVolumesGone ids s t
    → Limited K s
    → Limited K t
gone-Limited K ids s t g l = record {
  valid = g.valid;
  within = λ j h. elim (g.kept j) [
    | inl e ↦ l.within j (ap type_in (sym e) ∙ h)
    | inr (e, _) ↦ absurd (ground (arith, ap type_in e, h))
  ];
}

abbrev pub Panicked : {A : Type 0} → Result A → Type 0
Panicked r = (e : Error) × (is_panic e ≡ true) × (r ≡ err e)

module _ {R : Type 0} (outside : Outside R) (o : Settings) {E : Type 0} (x : Executor E) where
  pub cleanup_failed_launch-Limited :
      (K : String → Type 0) (ids : List String) (w : World E)
      → Limited (OneOf ids K) w.storage
      → Limited K (cleanup_failed_launch outside o x ids w).0.storage
        ⊎ Panicked (cleanup_failed_launch outside o x ids w).1
  unfolding cleanup_failed_launch
  cleanup_failed_launch-Limited K [] w l = inl l
  cleanup_failed_launch-Limited K (id ∷ ids) w l =
      let stop : Exec (World E) (List StateChange) =
        in_exe (x.terminate_instances (id ∷ ids) false) in
      elim (logged-cases stop w) [
        | inr (e, b, p) ↦ inr (e, b, rw p refl)
        | inl p ↦
            let (q, k) = undo_each-Limited outside o x K (id ∷ ids) (stop w).0 l in
            let v = (each (undo_instance outside o x) (id ∷ ids) (stop w).0).0 in
            let clean = cleanup_volumes x (map api_instance_id (id ∷ ids)) in
            let rest = gone-Limited K _ _ _ (cleanup_volumes-OnlyVolumesGone x _ v k.valid) k in
            elim (logged-cases clean v) [
              | inr (e, b, r) ↦ inr (e, b, rw p (rw q (rw r refl)))
              | inl r ↦ inl (rw p (rw q (rw r rest)))
            ]
      ]
