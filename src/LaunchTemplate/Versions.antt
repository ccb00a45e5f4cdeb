-- ===== src/LaunchTemplate/Versions.antt =====
-- What the handlers of pkg/dc2/dispatcher_launch_template.go do to the versions of a template.
use dc.Prelude.{
  if◌then◌else◌, String, ◌≡◌, refl, ap, Bool, true, false, not, none, List, [], ◌∷◌, ◌++◌, arith,
  ◌==◌, eq_iff, All, inl, inr, Bool-cases, Option-cases,
}
use dc.Prelude.Int.{ℤ, pos, ◌≤ℤ◌}
use dc.Prelude.Text.{has_prefix, after_prefix?, after_prefix?-append}
use dc.Api.{ok}
use dc.Storage.{Attribute, Attributes, find_key}
use dc.Storage.View.{Fields, last_value, assign, selects, clear}
use dc.LaunchTemplate.{some, Json, VersionData, field_text}
use dc.LaunchTemplate.Names
use dc.LaunchTemplate.Names.{
  Field, version_attribute_name, legacy_attribute_name, of_version, description_name,
  create_time_name, version_start,
}
use dc.LaunchTemplate.Load.{
  is_one, raw_field, version_data_from, field_attributes, resolve_version_selector,
}

-- A selector that is accepted names a version that exists, if the default version does.
pub resolve_version_selector-bounds :
    (selector param : String) (default latest v : ℤ)
    → pos 1 ≤ℤ default
    → default ≤ℤ latest
    → resolve_version_selector selector default latest param ≡ ok v
    → (pos 1 ≤ℤ v) × (v ≤ℤ latest)
unfolding resolve_version_selector
resolve_version_selector-bounds selector param default latest v h k e = ground arith

-- A test gives the same answer for the name of every attribute.
abbrev pub Agrees : (String → Bool) → Bool → List Attribute → Type 0
Agrees test b = All (λ (a : Attribute). test a.key ≡ b)

abbrev pub starts_version : String → Bool
starts_version k = has_prefix k version_start

pub last_value-Agrees :
    (test : String → Bool) (b : Bool) (attrs : List Attribute) (k : String)
    → Agrees test b attrs
    → test k ≡ not b
    → last_value attrs k ≡ none
last_value-Agrees test b [] k a h = refl
last_value-Agrees test b (x ∷ attrs) k a h =
    ground
      (arith, last_value-Agrees test b attrs k a.1 h, eq_iff x.key k, ap test {x = x.key} {y = k})

selects-Agrees :
    (test : String → Bool) (b : Bool) (attrs : List Attribute) (k v : String)
    → Agrees test b attrs
    → test k ≡ not b
    → selects attrs k v ≡ false
selects-Agrees test b [] k v a h = refl
selects-Agrees test b (x ∷ attrs) k v a h =
    ground
      (arith, selects-Agrees test b attrs k v a.1 h, eq_iff x.key k, ap test {x = x.key} {y = k})

pub assign-Agrees :
    (test : String → Bool) (b : Bool) (attrs : List Attribute) (g : Fields) (k : String)
    → Agrees test b attrs
    → test k ≡ not b
    → assign attrs g k ≡ g k
assign-Agrees test b attrs g k a h = rw (last_value-Agrees test b attrs k a h, assign) refl

pub clear-Agrees :
    (test : String → Bool) (b : Bool) (attrs : List Attribute) (g : Fields) (k : String)
    → Agrees test b attrs
    → test k ≡ not b
    → clear attrs g k ≡ g k
clear-Agrees test b attrs g k a h = elim (Option-cases (g k)) [
  | inl e ↦ ground (arith, e)
  | inr (v, e) ↦ ground (arith, e, selects-Agrees test b attrs k v a h)
]

pub Agrees-append :
    (test : String → Bool) (b : Bool) (xs ys : List Attribute)
    → Agrees test b xs
    → Agrees test b ys
    → Agrees test b (xs ++ ys)
Agrees-append test b [] ys p q = q
Agrees-append test b (x ∷ xs) ys p q = (p.0, Agrees-append test b xs ys p.1 q)

-- One attribute in front of others that do not give the name a value.
pub assign-head :
    (a : Attribute) (attrs : List Attribute) (g : Fields) (k : String)
    → last_value attrs k ≡ none
    → assign (a ∷ attrs) g k ≡ (if a.key == k then some a.value else g k)
assign-head a attrs g k h = ground (arith, h)

pub legacy-name : (f : Field) → starts_version (legacy_attribute_name f) ≡ false
unfolding legacy_attribute_name has_prefix after_prefix?
legacy-name Names.image_id = refl
legacy-name Names.instance_requirements = refl
legacy-name Names.instance_kind = refl
legacy-name Names.user_data = refl
legacy-name Names.security_group_ids = refl
legacy-name Names.block_device_mappings = refl

pub version-name : (v : ℤ) (f : Field) → starts_version (version_attribute_name v f) ≡ true
unfolding version_attribute_name of_version has_prefix
version-name v f = rw (after_prefix?-append version_start _) refl

pub create_time-name : (v : ℤ) → starts_version (create_time_name v) ≡ true
unfolding create_time_name of_version has_prefix
create_time-name v = rw (after_prefix?-append version_start _) refl

pub description-name : (v : ℤ) → starts_version (description_name v) ≡ true
unfolding description_name of_version has_prefix
description-name v = rw (after_prefix?-append version_start _) refl

module _ {R : Type 0} (json : Json R) where
  pub field_attributes-Agrees :
      (test : String → Bool) (b : Bool) (name : Field → String) (d : VersionData R)
      (fs : List Field)
      → ((f : Field) → test (name f) ≡ b)
      → Agrees test b (field_attributes json name d fs)
  unfolding field_attributes
  field_attributes-Agrees test b name d [] h = tt
  field_attributes-Agrees test b name d (f ∷ fs) h = elim (Bool-cases (field_text json d f == "")) [
    | inl e ↦ rw (e, field_attributes) (field_attributes-Agrees test b name d fs h)
    | inr e ↦ rw (e, field_attributes) (h f, field_attributes-Agrees test b name d fs h)
  ]

  pub raw_field-ext :
      (v : ℤ) (f : Field) (a b : Attributes)
      → is_one v ≡ false
      → ((k : String) → starts_version k ≡ true → find_key a k ≡ find_key b k)
      → raw_field a v f ≡ raw_field b v f
  unfolding raw_field
  raw_field-ext v f a b n same = rw (n, same (version_attribute_name v f) (version-name v f)) refl

  -- What a version other than the first is read from does not depend on other attributes.
  pub version_data_from-ext :
      (is_time : String → Bool) (v : ℤ) (a b : Attributes)
      → is_one v ≡ false
      → ((k : String) → starts_version k ≡ true → find_key a k ≡ find_key b k)
      → version_data_from json is_time v a ≡ version_data_from json is_time v b
  unfolding version_data_from raw_field find_key dc.LaunchTemplate.Load.read_time
  version_data_from-ext is_time v a b n same =
      let raw : (f : Field) → raw_field a v f ≡ raw_field b v f =
        λ f. raw_field-ext v f a b n same in
      rw
        (
          raw Names.security_group_ids,
          raw Names.instance_requirements,
          raw Names.block_device_mappings,
          raw Names.image_id,
          raw Names.instance_kind,
          raw Names.user_data,
          same (create_time_name v) (create_time-name v),
          same (description_name v) (description-name v),
        )
        refl
