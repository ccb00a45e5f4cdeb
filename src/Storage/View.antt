-- ===== src/Storage/View.antt =====
-- The contract of the Storage interface of storage.go: the store is a partial function from ids to
-- a type and a partial function from attribute names to values. Each operation of memory.go is the
-- operation of the contract, seen through `view`.
use mathlib.Core.Path.{fun_ext}
use dc.Prelude.{
  String, ◌≡◌, refl, ap, ◌∙◌, Bool, false, ◌&&◌, ◌||◌, Option, none, some, List, [], ◌∷◌, arith,
  inl, inr, ◌==◌, eq_iff, if◌then◌else◌, ap-if, Option-cases,
}
use dc.Api.{resource_not_found, duplicated_resource, Result, ok, err}
use dc.Storage.{
  ResourceType, Resource, Attribute, ResourceStorage, Storage, lookup, insert, delete,
  register_resource, remove_resource, removes, set_attributes, remove_attributes, update_attrs,
  set_resource_attributes, remove_resource_attributes,
}
use dc.Storage.Maps.{lookup-insert, lookup-delete}

abbrev pub Fields : Type 0
Fields = String → Option String

abbrev pub Directory : Type 0
Directory = String → Option (ResourceType × Fields)

abbrev pub entry_view : Option ResourceStorage → Option (ResourceType × Fields)
entry_view none = none
entry_view (some x) = some (x.type, λ k. lookup k x.attrs)

unfoldable pub view : Storage → Directory
view s id = entry_view (lookup id s.resources)

abbrev pub update {ℓ} : {A : Type ℓ} → (String → Option A) → String → Option A → String → Option A
update d k v j = if k == j then v else d j

abbrev pub spec_register : Resource → Directory → Directory × Result (Unit {0})
spec_register r d = elim (d r.id) [
  | some x ↦ (d, err (duplicated_resource r.id))
  | none ↦ (update d r.id (some (r.type, λ k. none)), ok tt)
]

abbrev pub spec_remove : String → Directory → Directory × Result (Unit {0})
spec_remove id d = elim (d id) [
  | none ↦ (d, err (resource_not_found id))
  | some x ↦ (update d id none, ok tt)
]

abbrev pub spec_change : String → (Fields → Fields) → Directory → Directory × Result (Unit {0})
spec_change id f d = elim (d id) [
  | none ↦ (d, err (resource_not_found id))
  | some (t, g) ↦ (update d id (some (t, f g)), ok tt)
]

-- The value that a list of attributes gives to a name: the last one.
abbrev pub last_value : List Attribute → String → Option String
last_value [] k = none
last_value (a ∷ attrs) k = elim (last_value attrs k) [
  | some v ↦ some v
  | none ↦ if a.key == k then some a.value else none
]

abbrev pub or_else {ℓ} : {A : Type ℓ} → Option A → Option A → Option A
or_else none o = o
or_else (some a) o = some a

abbrev pub assign : List Attribute → Fields → Fields
assign attrs g k = or_else (last_value attrs k) (g k)

-- Whether a list of attributes names this value of a key: by the same value, or by none.
abbrev pub selects : List Attribute → String → String → Bool
selects [] k v = false
selects (a ∷ attrs) k v = (a.key == k && (a.value == "" || v == a.value)) || selects attrs k v

abbrev clear_value : List Attribute → String → Option String → Option String
clear_value attrs k none = none
clear_value attrs k (some v) = if selects attrs k v then none else some v

abbrev pub clear : List Attribute → Fields → Fields
clear attrs g k = clear_value attrs k (g k)

-- Both look at the old value of the name alone.
pub assign_at :
    (attrs : List Attribute) (g h : Fields) (k : String)
    → g k ≡ h k
    → assign attrs g k ≡ assign attrs h k
assign_at attrs g h k p = ap (or_else (last_value attrs k)) p

pub clear_at :
    (attrs : List Attribute) (g h : Fields) (k : String)
    → g k ≡ h k
    → clear attrs g k ≡ clear attrs h k
clear_at attrs g h k p = ap (clear_value attrs k) p

entry_view-insert :
    (id j : String) (x : ResourceStorage) (m : List (String × ResourceStorage))
    → entry_view (lookup j (insert id x m))
      ≡ (if id == j then some (x.type, λ k. lookup k x.attrs) else entry_view (lookup j m))
entry_view-insert id j x m = rw (lookup-insert id j) (ap-if entry_view (id == j) _ _)

entry_view-delete :
    (id j : String) (m : List (String × ResourceStorage))
    → entry_view (lookup j (delete id m)) ≡ (if id == j then none else entry_view (lookup j m))
entry_view-delete id j m = rw (lookup-delete id j) (ap-if entry_view (id == j) _ _)

-- Registering, through the view.
pub view-register_resource :
    (r : Resource) (s : Storage)
    → (view (register_resource r s).0, (register_resource r s).1) ≡ spec_register r (view s)
unfolding view register_resource lookup
view-register_resource r s = elim (Option-cases (lookup r.id s.resources)) [
  | inl e ↦
      rw (e, register_resource, spec_register)
        (ap (λ (d : Directory). (d, ok tt)) (fun_ext λ j. entry_view-insert r.id j _ s.resources))
  | inr (x, e) ↦ rw (e, register_resource, spec_register) refl
]

-- Removing, through the view.
pub view-remove_resource :
    (id : String) (s : Storage)
    → (view (remove_resource id s).0, (remove_resource id s).1) ≡ spec_remove id (view s)
unfolding view remove_resource
view-remove_resource id s = elim (Option-cases (lookup id s.resources)) [
  | inl e ↦ rw (e, remove_resource, spec_remove) refl
  | inr (x, e) ↦
      rw (e, remove_resource, spec_remove)
        (ap (λ (d : Directory). (d, ok tt)) (fun_ext λ j. entry_view-delete id j s.resources))
]

view-update_attrs :
    (id : String) (f : List (String × String) → List (String × String)) (g : Fields → Fields)
    (s : Storage)
    → ((m : List (String × String)) → Path Fields (λ k. lookup k (f m)) (g (λ k. lookup k m)))
    → (view (update_attrs id f s).0, (update_attrs id f s).1) ≡ spec_change id g (view s)
unfolding view update_attrs
view-update_attrs id f g s same = elim (Option-cases (lookup id s.resources)) [
  | inl e ↦ rw (e, update_attrs, spec_change) refl
  | inr (x, e) ↦
      rw (e, update_attrs, spec_change)
        (ap (λ (d : Directory). (d, ok tt))
          (fun_ext λ j.
            entry_view-insert id j (record x { attrs = f x.attrs }) s.resources
            ∙ ap (λ (h : Fields). if id == j then some (x.type, h) else view s j) (same x.attrs)))
]

pub lookup-set_attributes :
    (attrs : List Attribute) (m : List (String × String)) (k : String)
    → lookup k (set_attributes attrs m) ≡ assign attrs (λ j. lookup j m) k
unfolding set_attributes
lookup-set_attributes [] m k = refl
lookup-set_attributes (a ∷ attrs) m k =
    ground (
      arith,
      lookup-set_attributes attrs (insert a.key a.value m) k,
      lookup-insert a.key k a.value m,
    )

-- Setting attributes, through the view.
pub view-set_resource_attributes :
    (id : String) (attrs : List Attribute) (s : Storage)
    → (view (set_resource_attributes id attrs s).0, (set_resource_attributes id attrs s).1)
      ≡ spec_change id (assign attrs) (view s)
unfolding set_resource_attributes
view-set_resource_attributes id attrs s =
    view-update_attrs id (set_attributes attrs) (assign attrs) s
      (λ m. fun_ext (lookup-set_attributes attrs m))

lookup-removed :
    (a : Attribute) (m : List (String × String)) (k : String)
    → lookup k (if removes a m then delete a.key m else m) ≡ clear_value (a ∷ []) k (lookup k m)
unfolding removes
lookup-removed a m k = ground (arith, lookup-delete a.key k m, eq_iff a.key k)

pub lookup-remove_attributes :
    (attrs : List Attribute) (m : List (String × String)) (k : String)
    → lookup k (remove_attributes attrs m) ≡ clear attrs (λ j. lookup j m) k
unfolding remove_attributes
lookup-remove_attributes [] m k = ground arith
lookup-remove_attributes (a ∷ attrs) m k = ground (
  arith,
  lookup-remove_attributes attrs (if removes a m then delete a.key m else m) k,
  lookup-removed a m k,
)

-- Removing attributes, through the view.
pub view-remove_resource_attributes :
    (id : String) (attrs : List Attribute) (s : Storage)
    → (view (remove_resource_attributes id attrs s).0, (remove_resource_attributes id attrs s).1)
      ≡ spec_change id (clear attrs) (view s)
unfolding remove_resource_attributes
view-remove_resource_attributes id attrs s =
    view-update_attrs id (remove_attributes attrs) (clear attrs) s
      (λ m. fun_ext (lookup-remove_attributes attrs m))
