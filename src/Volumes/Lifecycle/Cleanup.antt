-- ===== src/Volumes/Lifecycle/Cleanup.antt =====
-- Which volumes cleanupDeleteOnTerminationVolumesForInstances of
-- pkg/dc2/dispatcher_volume_lifecycle.go deletes.
use dc.Prelude.{
  String, ◌≡◌, refl, sym, ap, ◌∙◌, true, Option, none, some, List, [], ◌∷◌, arith, ◌==◌, eq_iff,
  inl, inr, ◌⊎◌, Bool-cases, Option-cases, contains, is_empty, ◌||◌,
}
use mathlib.Core.Path.{subst}
use dc.Prelude.Strconv.{parse_bool}
use dc.Prelude.Sorting.{find_by}
use dc.Api.{Error, ok, Result-cases, is_panic}
use dc.Api.Exec
use dc.Api.Exec.{Exec}
use dc.Storage.{
  Storage, Resource, Attributes, ResourceType, ResourceStorage, volume_type, same_type,
  registered_resources, remove_resource, resource_attributes, lookup, find_key, key_or_empty,
  text_or, instance_type, launch_template_type, security_group_type, auto_scaling_group_type,
  network_interface_type, spot_instances_request_type, other_type,
}
use dc.Storage.Invariant.{IsValid, remove_resource-IsValid}
use dc.Storage.View.{view, Fields}
use dc.Storage.Listing.{
  find_by-registered_resources, of_type, id_of, resource_attributes_lem, field_of,
}
use dc.Storage.Maps.{lookup-delete}
use dc.Dispatcher.{find_resource}
use dc.Dispatcher.Names
use dc.Executor.{Executor, World, VolumeDescription}
use dc.Volumes.Data.{find_volume, executor_volume_id}
use dc.Volumes.{dispatch_delete_volume}
use dc.Volumes.Lifecycle.{
  description_of, is_attached_to, going_with, delete_if_attached, cleanup_volume, cleanup_each,
  cleanup_volumes, cleanup_listed, join, executor_volume_ids,
}

-- A record is that of a volume whose flag is set and whose owner is one of the instances.
pub record GoesWith (ids : List String) (o : Option (ResourceType × Fields)) : Type 0 where
  pub fields : Fields
  pub stored : o ≡ some (volume_type, fields)
  pub flag : parse_bool (text_or (fields Names.delete_on_termination) "") ≡ some true
  pub owned : contains ids (text_or (fields Names.owner_instance_id) "") ≡ true

-- Between the two stores only volumes that go with the instances have gone.
pub record OnlyVolumesGone (ids : List String) (s t : Storage) : Type 0 where
  pub valid : IsValid t
  pub kept :
      (id : String) → (view t id ≡ view s id) ⊎ ((view t id ≡ none) × GoesWith ids (view s id))

OnlyVolumesGone-refl : (ids : List String) (s : Storage) → IsValid s → OnlyVolumesGone ids s s
OnlyVolumesGone-refl ids s v = record { valid = v; kept = λ id. inl refl }

OnlyVolumesGone-trans :
    (ids : List String) (s t u : Storage)
    → OnlyVolumesGone ids s t
    → OnlyVolumesGone ids t u
    → OnlyVolumesGone ids s u
OnlyVolumesGone-trans ids s t u a b = record {
  valid = b.valid;
  kept = λ id. elim (b.kept id) [
    | inl e ↦ elim (a.kept id) [ inl f ↦ inl (e ∙ f) | inr (f, g) ↦ inr (e ∙ f, g) ]
    | inr (e, g) ↦ elim (a.kept id) [
      | inl f ↦ inr (e, subst (GoesWith ids) f g)
      | inr (f, h) ↦ inr (e, h)
    ]
  ];
}

-- A volume that is found is stored as one, under the id that was asked for.
record IsVolume (s : Storage) (id : String) (v : Resource) : Type 0 where
  named : v.id ≡ id
  fields : Fields
  stored : view s id ≡ some (volume_type, fields)
  reads :
      (k : String)
      → (attrs : Attributes) → resource_attributes s id ≡ ok attrs
      → find_key attrs k ≡ fields k

same_type-volume : (t : ResourceType) → same_type t volume_type ≡ true → t ≡ volume_type
unfolding same_type
same_type-volume instance_type h = cc
same_type-volume volume_type h = refl
same_type-volume launch_template_type h = cc
same_type-volume security_group_type h = cc
same_type-volume auto_scaling_group_type h = cc
same_type-volume network_interface_type h = cc
same_type-volume spot_instances_request_type h = cc
same_type-volume (other_type s) h = cc

of_type-some :
    (id : String) (y : ResourceStorage) (r : Resource)
    → of_type volume_type id (some y) ≡ some r
    → (y.type ≡ volume_type) × (r.id ≡ id)
of_type-some id y r h = elim (Bool-cases (same_type y.type volume_type)) [
  | inl e ↦ (same_type-volume y.type e, ground (arith, h, e))
  | inr e ↦ absurd (ground (arith, h, e))
]

find_volume-IsVolume :
    (s : Storage) (id : String) (v : Resource)
    → IsValid s
    → find_volume id s ≡ ok v
    → IsVolume s id v
unfolding find_volume find_resource view
find_volume-IsVolume s id v valid h =
    let found = find_by-registered_resources volume_type id s valid in
    elim (Option-cases (find_by id_of id (registered_resources s volume_type))) [
      | inl e ↦ absurd (ground (arith, h, e))
      | inr (r, e) ↦
          let same : r ≡ v = ground (arith, h, e) in
          elim (Option-cases (lookup id s.resources)) [
            | inl f ↦ absurd (ground (arith, sym e ∙ found, f))
            | inr (y, f) ↦
                let (t, n) =
                  of_type-some id y r (sym (sym e ∙ found ∙ ap (of_type volume_type id) f)) in
                record {
                  named = ap (λ (x : Resource). x.id) (sym same) ∙ n;
                  fields = λ k. lookup k y.attrs;
                  stored = rw (f, t) refl;
                  reads = λ k attrs a.
                      (resource_attributes_lem s id attrs valid a).1 k
                      ∙ ap (λ (o : Option ResourceStorage). field_of o k) f;
                }
          ]
    ]

removed-OnlyVolumesGone :
    (ids : List String) (id : String) (s : Storage)
    → IsValid s
    → GoesWith ids (view s id)
    → OnlyVolumesGone ids s (remove_resource id s).0
unfolding remove_resource view
removed-OnlyVolumesGone ids id s v g = elim (Option-cases (lookup id s.resources)) [
  | inl e ↦ rw (e, remove_resource) (OnlyVolumesGone-refl ids s v)
  | inr (y, e) ↦ record {
    valid = remove_resource-IsValid id s v;
    kept = λ j. elim (Bool-cases (id == j)) [
      | inl f ↦
          let same : id ≡ j = (eq_iff id j).0 f in
          inr (
            rw (e, remove_resource) (rw (lookup-delete id j s.resources, f) refl),
            subst (λ (x : String). GoesWith ids (view s x)) same g,
          )
      | inr f ↦ inl (rw (e, remove_resource) (rw (lookup-delete id j s.resources, f) refl))
    ];
  }
]

-- The attributes of a volume that goes with the instances.
record Marks (ids : List String) (attrs : Attributes) : Type 0 where
  flag : parse_bool (key_or_empty attrs Names.delete_on_termination) ≡ some true
  owned : contains ids (key_or_empty attrs Names.owner_instance_id) ≡ true

marked-GoesWith :
    (ids : List String) (id : String) (s : Storage) (v : Resource) (attrs : Attributes)
    → IsVolume s id v
    → resource_attributes s id ≡ ok attrs
    → Marks ids attrs
    → GoesWith ids (view s id)
marked-GoesWith ids id s v attrs f a m = record {
  fields = f.fields;
  stored = f.stored;
  flag =
      ap (λ (o : Option String). parse_bool (text_or o ""))
        (sym (f.reads Names.delete_on_termination attrs a))
      ∙ m.flag;
  owned =
      ap (λ (o : Option String). contains ids (text_or o ""))
        (sym (f.reads Names.owner_instance_id attrs a))
      ∙ m.owned;
}

module _ {E : Type 0} (x : Executor E) where
  deleted-OnlyVolumesGone :
      (ids : List String) (id : String) (attrs : Attributes) (w : World E)
      → IsValid w.storage
      → resource_attributes w.storage id ≡ ok attrs
      → Marks ids attrs
      → OnlyVolumesGone ids w.storage (dispatch_delete_volume x id w).0.storage
  unfolding dispatch_delete_volume
  deleted-OnlyVolumesGone ids id attrs w v a m = elim (Result-cases (find_volume id w.storage)) [
    | inl (e, p) ↦ rw (p, dispatch_delete_volume) (OnlyVolumesGone-refl ids w.storage v)
    | inr (r, p) ↦
        let found = find_volume-IsVolume w.storage id r v p in
        elim (Result-cases (executor_volume_id r.id)) [
          | inl (e, q) ↦ rw (p, dispatch_delete_volume, q) (OnlyVolumesGone-refl ids w.storage v)
          | inr (runtime, q) ↦ elim (Result-cases (x.delete_volume runtime w.exe).1) [
            | inl (e, u) ↦
                rw (p, dispatch_delete_volume, q, u) (OnlyVolumesGone-refl ids w.storage v)
            | inr (t, u) ↦
                rw (p, dispatch_delete_volume, q, u)
                  (subst
                    (λ (i : String). OnlyVolumesGone ids w.storage (remove_resource i w.storage).0)
                    (sym found.named)
                    (removed-OnlyVolumesGone ids id w.storage v
                      (marked-GoesWith ids id w.storage r attrs found a m)))
          ]
        ]
  ]

  going_with-Marks :
      (ids : List String) (attrs : Attributes) (o : String)
      → going_with ids attrs ≡ ok (some o)
      → Marks ids attrs
  unfolding going_with
  going_with-Marks ids attrs o h = record { flag = ground (arith, h); owned = ground (arith, h) }

  delete_if_attached-OnlyVolumesGone :
      (ids : List String) (id owner : String) (ds : List VolumeDescription) (attrs : Attributes)
      (w : World E)
      → IsValid w.storage
      → resource_attributes w.storage id ≡ ok attrs
      → Marks ids attrs
      → OnlyVolumesGone ids w.storage (delete_if_attached x id owner ds w).0.storage
  unfolding delete_if_attached
  delete_if_attached-OnlyVolumesGone ids id owner ds attrs w v a m =
      elim (Option-cases (description_of id ds)) [
        | inl e ↦ rw (e, delete_if_attached) (OnlyVolumesGone-refl ids w.storage v)
        | inr (d, e) ↦ elim (Bool-cases (is_attached_to owner d.attachments)) [
          | inl f ↦ rw (e, delete_if_attached, f) (deleted-OnlyVolumesGone ids id attrs w v a m)
          | inr f ↦ rw (e, delete_if_attached, f) (OnlyVolumesGone-refl ids w.storage v)
        ]
      ]

  cleanup_volume-OnlyVolumesGone :
      (ids : List String) (ds : List VolumeDescription) (r : Resource) (w : World E)
      → IsValid w.storage
      → OnlyVolumesGone ids w.storage (cleanup_volume x ids ds r w).0.storage
  unfolding cleanup_volume
  cleanup_volume-OnlyVolumesGone ids ds r w v =
      elim (Result-cases (resource_attributes w.storage r.id)) [
        | inl (e, p) ↦ rw (p, cleanup_volume) (OnlyVolumesGone-refl ids w.storage v)
        | inr (attrs, p) ↦ elim (Result-cases (going_with ids attrs)) [
          | inl (e, q) ↦ rw (p, cleanup_volume, q) (OnlyVolumesGone-refl ids w.storage v)
          | inr (none, q) ↦ rw (p, cleanup_volume, q) (OnlyVolumesGone-refl ids w.storage v)
          | inr (some o, q) ↦
              rw (p, cleanup_volume, q)
                (delete_if_attached-OnlyVolumesGone ids r.id o ds attrs w v p
                  (going_with-Marks ids attrs o q))
        ]
      ]

  -- One turn of the loop, with the errors that it collects.
  turn :
      List String → List VolumeDescription → Resource → Option Error → Exec (World E) (Option Error)
  turn ids ds r result =
      Exec.rescue (Exec.◌>>◌ (cleanup_volume x ids ds r) (Exec.pure result))
        (λ e. Exec.pure (some (join result e)))

  turn-storage :
      (ids : List String) (ds : List VolumeDescription) (r : Resource) (result : Option Error)
      (w : World E)
      → (turn ids ds r result w).0 ≡ (cleanup_volume x ids ds r w).0
  unfolding turn
  turn-storage ids ds r result w = elim (Result-cases (cleanup_volume x ids ds r w).1) [
    | inl (e, p) ↦ elim (Bool-cases (is_panic e)) [
      | inl q ↦ rw (p, turn, q) refl
      | inr q ↦ rw (p, turn, q) refl
    ]
    | inr (u, p) ↦ rw (p, turn) refl
  ]

  cleanup_each-OnlyVolumesGone :
      (ids : List String) (ds : List VolumeDescription) (vs : List Resource) (result : Option Error)
      (w : World E)
      → IsValid w.storage
      → OnlyVolumesGone ids w.storage (cleanup_each x ids ds vs result w).0.storage
  unfolding cleanup_each turn
  cleanup_each-OnlyVolumesGone ids ds [] none w v = OnlyVolumesGone-refl ids w.storage v
  cleanup_each-OnlyVolumesGone ids ds [] (some e) w v = OnlyVolumesGone-refl ids w.storage v
  cleanup_each-OnlyVolumesGone ids ds (r ∷ rs) result w v =
      let t = (turn ids ds r result w).0 in
      let one : OnlyVolumesGone ids w.storage t.storage =
        subst (λ (u : World E). OnlyVolumesGone ids w.storage u.storage)
          (sym (turn-storage ids ds r result w)) (cleanup_volume-OnlyVolumesGone ids ds r w v) in
      elim (Result-cases (turn ids ds r result w).1) [
        | inl (e, p) ↦ rw (p, cleanup_each) one
        | inr (next, p) ↦
            rw (p, cleanup_each)
              (OnlyVolumesGone-trans ids w.storage t.storage _ one
                (cleanup_each-OnlyVolumesGone ids ds rs next t one.valid))
      ]

  -- The cleanup after instances deletes only records of volumes whose flag says that they go with
  -- their instance and whose owner is one of the instances, and changes nothing else in the storage,
  -- also when it fails.
  pub cleanup_volumes-OnlyVolumesGone :
      (ids : List String) (w : World E)
      → IsValid w.storage
      → OnlyVolumesGone ids w.storage (cleanup_volumes x ids w).0.storage
  unfolding cleanup_volumes cleanup_listed
  cleanup_volumes-OnlyVolumesGone ids w v =
      let volumes = registered_resources w.storage volume_type in
      let start = OnlyVolumesGone-refl ids w.storage v in
      elim (Bool-cases (is_empty ids || is_empty volumes)) [
        | inl e ↦ rw (e, cleanup_volumes) start
        | inr e ↦ elim (Result-cases (executor_volume_ids volumes)) [
          | inl (f, p) ↦ rw (e, cleanup_volumes, p) start
          | inr (runtime_ids, p) ↦ elim (Result-cases (x.describe_volumes runtime_ids w.exe).1) [
            | inl (f, q) ↦ rw (e, cleanup_volumes, p, q) start
            | inr (ds, q) ↦
                rw (e, cleanup_volumes, p, q)
                  (cleanup_each-OnlyVolumesGone ids ds volumes none
                    (record w { exe = (x.describe_volumes runtime_ids w.exe).0 }) v)
          ]
        ]
      ]
