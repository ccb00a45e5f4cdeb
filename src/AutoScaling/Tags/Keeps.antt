-- ===== src/AutoScaling/Tags/Keeps.antt =====
-- The tags of groups in pkg/dc2/dispatcher_autoscaling.go are no sizes.
use Prim.Native.String.{◌++◌ as ◌<>◌}
use mathlib.Core.Path.{subst}
use dc.Prelude.{ℕ, suc, String, ◌≡◌, refl, Bool, false, List, [], ◌∷◌, ◌++◌, arith, inl, inr}
use dc.Prelude.Strconv.{format_bool}
use dc.Prelude.Text.{has_prefix, after_prefix?, after_prefix?-append}
use dc.Api.{ok, Result-cases}
use dc.Storage.{Attribute, tag_attribute_name}
use dc.LaunchTemplate.Versions.{Agrees-append}
use dc.AutoScaling.Names
use dc.AutoScaling.InOrder.{NoSizes, is_size}
use dc.AutoScaling.InOrder.Writes.{prefixed-is_size, tag-is_size}
use dc.AutoScaling.Stored.{attribute}
use dc.AutoScaling.Tags.{GroupTag, tag_attributes, tags_of_group, param_prefix}

propagate-is_size : (k : String) → is_size (Names.propagate_prefix <> k) ≡ false
unfolding has_prefix after_prefix?
propagate-is_size k =
    prefixed-is_size Names.propagate_prefix (Names.propagate_prefix <> k)
      (rw (after_prefix?-append Names.propagate_prefix k) refl) refl refl refl refl refl

abbrev written : GroupTag → List Attribute
written t =
    attribute (tag_attribute_name t.key) t.value
    ∷ attribute (Names.propagate_prefix <> t.key) (format_bool t.propagate_at_launch)
    ∷ []

written_as :
    (t : GroupTag) (prefix default : String) (required : Bool) (r : String × List Attribute)
    → tag_attributes t prefix default required ≡ ok r
    → written t ≡ r.1
unfolding tag_attributes
written_as t prefix default required r h = ground (arith, h)

pub tag_attributes-NoSizes :
    (t : GroupTag) (prefix default : String) (required : Bool) (r : String × List Attribute)
    → tag_attributes t prefix default required ≡ ok r
    → NoSizes r.1
tag_attributes-NoSizes t prefix default required r h =
    subst NoSizes (written_as t prefix default required r h)
      (tag-is_size t.key, (propagate-is_size t.key, tt))

pub tags_of_group-NoSizes :
    (i : ℕ) (name : String) (ts : List GroupTag) (attrs : List Attribute)
    → tags_of_group i name ts ≡ ok attrs
    → NoSizes attrs
unfolding tags_of_group
tags_of_group-NoSizes i name [] attrs h =
    let same : [] ≡ attrs = ground (arith, h) in subst NoSizes same tt
tags_of_group-NoSizes i name (t ∷ ts) attrs h =
    elim (Result-cases (tag_attributes t (param_prefix i) name false)) [
      | inl (e, p) ↦ absurd (ground (arith, rw (p, tags_of_group) at h))
      | inr (one, p) ↦ elim (Result-cases (tags_of_group (suc i) name ts)) [
        | inl (e, q) ↦ absurd (ground (arith, rw (p, q, tags_of_group) at h))
        | inr (rest, q) ↦
            let same : one.1 ++ rest ≡ attrs = ground (arith, rw (p, q, tags_of_group) at h) in
            subst NoSizes same (
              Agrees-append is_size false one.1 rest
                (tag_attributes-NoSizes t (param_prefix i) name false one p)
                (tags_of_group-NoSizes (suc i) name ts rest q))
      ]
    ]
