-- ===== src/Storage/Kinds.antt =====
-- The type of a resource that pkg/dc2/storage/memory.go keeps, and how the calls change it.
use dc.Prelude.{
  String, ◌≡◌, refl, sym, ap, ◌∙◌, ◌⊎◌, inl, inr, Option, none, some, List, ◌==◌, eq_iff,
  Bool-cases, Option-cases, if◌then◌else◌,
}
use dc.Storage.{
  Result, Storage, Resource, ResourceType, Attribute, lookup, register_resource, remove_resource,
  set_resource_attributes,
}
use dc.Storage.Maps.{lookup-insert, lookup-delete}
use dc.Storage.View.{view, Directory, spec_change, view-set_resource_attributes, Fields, assign}

abbrev pub type_in : Option (ResourceType × Fields) → Option ResourceType
type_in none = none
type_in (some (t, f)) = some t

-- The type of a resource, if it is registered.
abbrev pub kind_of : Storage → String → Option ResourceType
kind_of s id = type_in (view s id)

pub kind_of-register :
    (r : Resource) (s : Storage) (j : String)
    → (kind_of (register_resource r s).0 j ≡ kind_of s j)
      ⊎ ((r.id ≡ j) × (kind_of (register_resource r s).0 j ≡ some r.type))
unfolding view register_resource
kind_of-register r s j = elim (Option-cases (lookup r.id s.resources)) [
  | inr (x, e) ↦ inl (rw (e, register_resource) refl)
  | inl e ↦ elim (Bool-cases (r.id == j)) [
    | inl b ↦ inr (
      (eq_iff r.id j).0 b,
      rw (e, register_resource) (rw (lookup-insert r.id j _ s.resources, b) refl),
    )
    | inr b ↦ inl (rw (e, register_resource) (rw (lookup-insert r.id j _ s.resources, b) refl))
  ]
]

pub kind_of-remove :
    (id : String) (s : Storage) (j : String)
    → kind_of (remove_resource id s).0 j ≡ (if id == j then none else kind_of s j)
unfolding view remove_resource
kind_of-remove id s j = elim (Option-cases (lookup id s.resources)) [
  | inr (x, e) ↦
      rw (e, remove_resource)
        (elim (Bool-cases (id == j)) [
          | inl b ↦ rw (lookup-delete id j s.resources, b) refl
          | inr b ↦ rw (lookup-delete id j s.resources, b) refl
        ])
  | inl e ↦
      rw (e, remove_resource)
        (elim (Bool-cases (id == j)) [
          | inl b ↦ rw b (rw (sym ((eq_iff id j).0 b), e) refl)
          | inr b ↦ rw b refl
        ])
]

changed :
    (id j : String) (f : Fields → Fields) (d : Directory)
    → type_in ((spec_change id f d).0 j) ≡ type_in (d j)
changed id j f d = elim (Option-cases (d id)) [
  | inl e ↦ rw (e, spec_change) refl
  | inr ((t, g), e) ↦ elim (Bool-cases (id == j)) [
    | inl b ↦ rw (e, spec_change, b) (rw (sym ((eq_iff id j).0 b), e) refl)
    | inr b ↦ rw (e, spec_change, b) refl
  ]
]

pub kind_of-set :
    (id : String) (attrs : List Attribute) (s : Storage) (j : String)
    → kind_of (set_resource_attributes id attrs s).0 j ≡ kind_of s j
kind_of-set id attrs s j =
    ap (λ (o : Directory × Result (Unit {0})). type_in (o.0 j))
      (view-set_resource_attributes id attrs s)
    ∙ changed id j (assign attrs) (view s)
