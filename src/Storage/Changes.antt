-- ===== src/Storage/Changes.antt =====
-- Reading the attributes of a resource back after they were set or removed in memory.go.
use dc.Prelude.{
  eq_refl, String, ◌≡◌, refl, sym, ap, ◌∙◌, Option, some, List, arith, inl, inr, Option-cases,
}
use dc.Api.{ok}
use dc.Storage.{
  Storage, Attribute, Attributes, ResourceStorage, lookup, resource_attributes,
  set_resource_attributes, remove_resource_attributes, find_key, update_attrs, attributes_list,
  set_attributes, remove_attributes,
}
use dc.Storage.Maps.{lookup-insert}
use dc.Storage.Invariant.{
  IsValid, set_resource_attributes-IsValid, remove_resource_attributes-IsValid,
}
use dc.Storage.Listing.{field_of, resource_attributes_lem}
use dc.Storage.View.{
  Fields, assign, clear, assign_at, clear_at, lookup-set_attributes, lookup-remove_attributes,
}

-- The attributes of a resource after a change that succeeded.
pub record Reads (s : Storage) (id : String) (fields : Fields) : Type 0 where
  pub attrs : Attributes
  pub read : resource_attributes s id ≡ ok attrs
  pub found : (k : String) → find_key attrs k ≡ fields k

stored-cases :
    (s : Storage) (id : String) (old : Attributes)
    → resource_attributes s id ≡ ok old
    → (x : ResourceStorage) × (lookup id s.resources ≡ some x)
unfolding resource_attributes
stored-cases s id old h = elim (Option-cases (lookup id s.resources)) [
  | inl e ↦ absurd (ground (arith, h, e))
  | inr (x, e) ↦ (x, e)
]

-- A record that is stored is read back.
stored-Reads :
    (s : Storage) (id : String) (x : ResourceStorage)
    → IsValid s
    → lookup id s.resources ≡ some x
    → Reads s id (λ k. lookup k x.attrs)
unfolding resource_attributes
stored-Reads s id x v e =
    let r : resource_attributes s id ≡ ok (attributes_list x.attrs) =
      rw (e, resource_attributes) refl in
    record {
      attrs = attributes_list x.attrs;
      read = r;
      found = λ k.
          (resource_attributes_lem s id (attributes_list x.attrs) v r).1 k
          ∙ ap (λ (o : Option ResourceStorage). field_of o k) e;
    }

update-stored :
    (id : String) (f : List (String × String) → List (String × String)) (s : Storage)
    (x : ResourceStorage)
    → lookup id s.resources ≡ some x
    → lookup id (update_attrs id f s).0.resources ≡ some (record x { attrs = f x.attrs })
unfolding update_attrs
update-stored id f s x e =
    rw (e, update_attrs)
      (lookup-insert id id (record x { attrs = f x.attrs }) s.resources
        ∙ ground (arith, eq_refl id))

changed :
    (id : String) (f : List (String × String) → List (String × String)) (g : Fields → Fields)
    (s : Storage) (old : Attributes)
    → ((m : List (String × String)) (k : String) → lookup k (f m) ≡ g (λ j. lookup j m) k)
    → ((h h' : Fields) (k : String) → h k ≡ h' k → g h k ≡ g h' k)
    → IsValid s
    → IsValid (update_attrs id f s).0
    → resource_attributes s id ≡ ok old
    → Reads (update_attrs id f s).0 id (g (find_key old))
changed id f g s old does at v w h =
    let (x, e) = stored-cases s id old h in
    let now =
      stored-Reads (update_attrs id f s).0 id (record x { attrs = f x.attrs }) w
        (update-stored id f s x e) in
    let before : (k : String) → find_key old k ≡ lookup k x.attrs = λ k.
      (resource_attributes_lem s id old v h).1 k
      ∙ ap (λ (o : Option ResourceStorage). field_of o k) e in
    record {
      attrs = now.attrs;
      read = now.read;
      found = λ k.
          now.found k
          ∙ does x.attrs k
          ∙ at (λ j. lookup j x.attrs) (find_key old) k (sym (before k));
    }

-- Attributes that were set are read back: the last value that was given, or what was there.
pub resource_attributes-set :
    (id : String) (attrs : List Attribute) (s : Storage) (old : Attributes)
    → IsValid s
    → resource_attributes s id ≡ ok old
    → Reads (set_resource_attributes id attrs s).0 id (assign attrs (find_key old))
unfolding set_resource_attributes
resource_attributes-set id attrs s old v h =
    changed id (set_attributes attrs) (assign attrs) s old (lookup-set_attributes attrs)
      (assign_at attrs) v (set_resource_attributes-IsValid id attrs s v) h

-- Attributes that were removed are gone, the others are read back.
pub resource_attributes-remove :
    (id : String) (attrs : List Attribute) (s : Storage) (old : Attributes)
    → IsValid s
    → resource_attributes s id ≡ ok old
    → Reads (remove_resource_attributes id attrs s).0 id (clear attrs (find_key old))
unfolding remove_resource_attributes
resource_attributes-remove id attrs s old v h =
    changed id (remove_attributes attrs) (clear attrs) s old (lookup-remove_attributes attrs)
      (clear_at attrs) v (remove_resource_attributes-IsValid id attrs s v) h

-- Setting attributes of a resource that is there succeeds.
pub set-found :
    (id : String) (attrs : List Attribute) (s : Storage) (old : Attributes)
    → resource_attributes s id ≡ ok old
    → (set_resource_attributes id attrs s).1 ≡ ok tt
unfolding set_resource_attributes update_attrs
set-found id attrs s old h = let (x, e) = stored-cases s id old h in rw (e, update_attrs) refl

pub remove-found :
    (id : String) (attrs : List Attribute) (s : Storage) (old : Attributes)
    → resource_attributes s id ≡ ok old
    → (remove_resource_attributes id attrs s).1 ≡ ok tt
unfolding remove_resource_attributes update_attrs
remove-found id attrs s old h = let (x, e) = stored-cases s id old h in rw (e, update_attrs) refl
