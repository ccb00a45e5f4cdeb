-- ===== src/AutoScaling/InOrder.antt =====
-- The sizes of groups in the attributes that pkg/dc2/dispatcher_autoscaling.go stores, and the calls of the
-- storage that leave them in order.
pub mod Writes
use mathlib.Core.Path.{subst}
use dc.Prelude.{
  String, ◌≡◌, refl, sym, ap, ◌∙◌, Bool, true, false, ◌||◌, Option, none, some, List, arith, ◌==◌,
  eq_iff, inl, inr, Bool-cases, Option-cases,
}
use dc.Prelude.Int.{ℤ, pos, ◌≤ℤ◌}
use dc.Prelude.Strconv.{parse_int}
use dc.Prelude.Text.{has_prefix}
use dc.Storage.{
  ResourceType, Resource, Attribute, Attributes, Storage, register_resource, remove_resource,
  set_resource_attributes, remove_resource_attributes, resource_attributes, find_key,
}
use dc.Storage.Listing.{field_of, resource_attributes_lem}
use dc.Storage.{lookup, ResourceStorage}
use dc.Storage.View.{entry_view}
use dc.Api.{Result, ok}
use dc.Storage.{new_memory_storage}
use dc.Storage.Invariant.{
  IsValid-new, IsValid, register_resource-IsValid, remove_resource-IsValid,
  set_resource_attributes-IsValid, remove_resource_attributes-IsValid,
}
use dc.Storage.View.{
  Fields, Directory, view, update, assign, clear, spec_register, spec_remove, spec_change,
  view-register_resource, view-remove_resource, view-set_resource_attributes,
  view-remove_resource_attributes,
}
use dc.LaunchTemplate.Versions.{Agrees, assign-Agrees, clear-Agrees}
use dc.Executor.Keeps.{Keeps}
use dc.AutoScaling.Names

-- The attributes of a group that hold its sizes and those of its warm pool.
unfoldable pub is_size : String → Bool
is_size k =
    k == Names.min_size
    || k == Names.max_size
    || k == Names.desired_capacity
    || k == Names.warm_pool_min_size
    || k == Names.warm_pool_max_group_prepared_capacity

abbrev pub number_of : Option String → Option ℤ
number_of none = none
number_of (some v) = parse_int 10 v

-- The sizes that a resource has, if any, are in order.
pub record Fits (f : Fields) : Type 0 where
  pub sizes :
      (low high desired : ℤ)
      → number_of (f Names.min_size) ≡ some low
      → number_of (f Names.max_size) ≡ some high
      → number_of (f Names.desired_capacity) ≡ some desired
      → (pos 0 ≤ℤ low) × (low ≤ℤ desired) × (desired ≤ℤ high)
  pub pool_least : (n : ℤ) → number_of (f Names.warm_pool_min_size) ≡ some n → pos 0 ≤ℤ n
  pub pool_most :
      (n : ℤ) → number_of (f Names.warm_pool_max_group_prepared_capacity) ≡ some n → pos 0 ≤ℤ n

-- The sizes are all that matters.
Fits-ext : (f g : Fields) → ((k : String) → is_size k ≡ true → g k ≡ f k) → Fits f → Fits g
unfolding is_size
Fits-ext f g same fits = record {
  sizes = λ low high desired a b c.
      fits.sizes low high desired (ap number_of (sym (same Names.min_size refl)) ∙ a)
        (ap number_of (sym (same Names.max_size refl)) ∙ b)
        (ap number_of (sym (same Names.desired_capacity refl)) ∙ c);
  pool_least =
      λ n a. fits.pool_least n (ap number_of (sym (same Names.warm_pool_min_size refl)) ∙ a);
  pool_most = λ n a.
      fits.pool_most n
        (ap number_of (sym (same Names.warm_pool_max_group_prepared_capacity refl)) ∙ a);
}

-- A resource without attributes has no sizes.
Fits-empty : Fits (λ k. none)
Fits-empty = record {
  sizes = λ low high desired a b c. absurd (ground (arith, a));
  pool_least = λ n a. absurd (ground (arith, a));
  pool_most = λ n a. absurd (ground (arith, a));
}

abbrev pub AllFit : Directory → Type 0
AllFit d = (id : String) (kind : ResourceType) (f : Fields) → d id ≡ some (kind, f) → Fits f

-- The storage is valid and the sizes of every resource in it are in order.
pub record InOrder (s : Storage) : Type 0 where
  pub valid : IsValid s
  pub fit : AllFit (view s)

AllFit-update :
    (d : Directory) (id : String) (kind : ResourceType) (f : Fields)
    → AllFit d
    → Fits f
    → AllFit (update d id (some (kind, f)))
AllFit-update d id kind f all fits j k g h = elim (Bool-cases (id == j)) [
  | inl b ↦ let same : f ≡ g = ground (arith, b, h) in subst Fits same fits
  | inr b ↦ all j k g (ground (arith, b, h))
]

AllFit-remove : (d : Directory) (id : String) → AllFit d → AllFit (update d id none)
AllFit-remove d id all j k g h = elim (Bool-cases (id == j)) [
  | inl b ↦ absurd (ground (arith, b, h))
  | inr b ↦ all j k g (ground (arith, b, h))
]

AllFit-register : (r : Resource) (d : Directory) → AllFit d → AllFit (spec_register r d).0
AllFit-register r d fit = elim (Option-cases (d r.id)) [
  | inl e ↦ rw (e, spec_register) (AllFit-update d r.id r.type (λ k. none) fit Fits-empty)
  | inr (x, e) ↦ rw (e, spec_register) fit
]

AllFit-removed : (id : String) (d : Directory) → AllFit d → AllFit (spec_remove id d).0
AllFit-removed id d fit = elim (Option-cases (d id)) [
  | inl e ↦ rw (e, spec_remove) fit
  | inr (x, e) ↦ rw (e, spec_remove) (AllFit-remove d id fit)
]

AllFit-change :
    (id : String) (h : Fields → Fields) (d : Directory)
    → ((f : Fields) → Fits f → Fits (h f))
    → AllFit d
    → AllFit (spec_change id h d).0
AllFit-change id h d does fit = elim (Option-cases (d id)) [
  | inl e ↦ rw (e, spec_change) fit
  | inr ((kind, f), e) ↦
      rw (e, spec_change) (AllFit-update d id kind (h f) fit (does f (fit id kind f e)))
]

abbrev first : Directory × Result (Unit {0}) → Directory
first x = x.0

pub register-InOrder : (r : Resource) → Keeps InOrder (register_resource r)
register-InOrder r = record {
  run = λ s o. record {
    valid = register_resource-IsValid r s o.valid;
    fit =
        subst AllFit (sym (ap first (view-register_resource r s)))
          (AllFit-register r (view s) o.fit);
  };
}

pub remove-InOrder : (id : String) → Keeps InOrder (remove_resource id)
remove-InOrder id = record {
  run = λ s o. record {
    valid = remove_resource-IsValid id s o.valid;
    fit =
        subst AllFit (sym (ap first (view-remove_resource id s)))
          (AllFit-removed id (view s) o.fit);
  };
}

-- What is written may be sizes, if they are in order.
pub set-fitting :
    (id : String) (attrs : List Attribute)
    → ((f : Fields) → Fits f → Fits (assign attrs f))
    → Keeps InOrder (set_resource_attributes id attrs)
set-fitting id attrs does = record {
  run = λ s o. record {
    valid = set_resource_attributes-IsValid id attrs s o.valid;
    fit =
        subst AllFit (sym (ap first (view-set_resource_attributes id attrs s)))
          (AllFit-change id (assign attrs) (view s) does o.fit);
  };
}

-- No attribute of the list is a size.
abbrev pub NoSizes : List Attribute → Type 0
NoSizes = Agrees is_size false

pub set-InOrder :
    (id : String) (attrs : List Attribute)
    → NoSizes attrs
    → Keeps InOrder (set_resource_attributes id attrs)
set-InOrder id attrs none_of = set-fitting id attrs (λ f fits.
    Fits-ext f (assign attrs f) (λ k h. assign-Agrees is_size false attrs f k none_of h) fits)

pub unset-InOrder :
    (id : String) (attrs : List Attribute)
    → NoSizes attrs
    → Keeps InOrder (remove_resource_attributes id attrs)
unset-InOrder id attrs none_of = record {
  run = λ s o. record {
    valid = remove_resource_attributes-IsValid id attrs s o.valid;
    fit = subst AllFit (sym (ap first (view-remove_resource_attributes id attrs s))) (
        AllFit-change id (clear attrs) (view s)
          (λ f fits.
            Fits-ext f (clear attrs f) (λ k h. clear-Agrees is_size false attrs f k none_of h) fits)
          o.fit);
  };
}

-- The attributes of a resource of a storage in order fit.
pub read-Fits :
    (s : Storage) (id : String) (attrs : Attributes)
    → InOrder s
    → resource_attributes s id ≡ ok attrs
    → Fits (find_key attrs)
unfolding view resource_attributes
read-Fits s id attrs o h = elim (Option-cases (lookup id s.resources)) [
  | inl e ↦ absurd (ground (arith, h, e))
  | inr (x, e) ↦
      let found : (k : String) → find_key attrs k ≡ lookup k x.attrs = λ k.
        (resource_attributes_lem s id attrs o.valid h).1 k
        ∙ ap (λ (r : Option ResourceStorage). field_of r k) e in
      Fits-ext (λ k. lookup k x.attrs) (find_key attrs) (λ k t. found k)
        (o.fit id x.type (λ k. lookup k x.attrs) (ap entry_view e))
]

pub new-InOrder : InOrder new_memory_storage
unfolding view lookup
new-InOrder = record { valid = IsValid-new; fit = λ id kind f h. absurd (ground (arith, h)) }
