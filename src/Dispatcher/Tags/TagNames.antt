-- ===== src/Dispatcher/Tags/TagNames.antt =====
-- Which attributes are tags, by their names.
use dc.Prelude.{
  ◌==◌, String, ◌≡◌, ◌&&◌, eq_false, refl, ap, true, false, none, [], ◌∷◌, arith, eq_iff, inl, inr,
  ◌⊎◌, Option-cases,
}
use dc.Prelude.Text.{
  after_prefix?, has_prefix, after_prefix?-append, after_prefix?-eq-some, lt_text_irrefl,
}
use dc.Prelude.Sorting.{Above}
use dc.Storage.{Attribute, Attributes, is_tag, tag_key, tag_prefix, tag_attribute_name, find_key}
use dc.Storage.Listing.{key_of}

pub find_key-Above :
    (k : String) (attrs : Attributes) → Above key_of k attrs → find_key attrs k ≡ none
unfolding find_key
find_key-Above k [] a = refl
find_key-Above k (x ∷ attrs) a =
    ground (arith, find_key-Above k attrs a.1, eq_iff x.key k, lt_text_irrefl k)

-- An attribute that is a tag, by its name.
pub is_tag-cases :
    (a : Attribute)
    → (is_tag a ≡ false) ⊎ ((is_tag a ≡ true) × (a.key ≡ tag_attribute_name (tag_key a)))
unfolding is_tag has_prefix tag_key tag_attribute_name
is_tag-cases a = elim (Option-cases (after_prefix? tag_prefix a.key)) [
  | inl e ↦ inl (rw e refl)
  | inr (k, e) ↦ inr (rw e refl, rw e (after_prefix?-eq-some tag_prefix a.key k e))
]

pub tag_attribute_name-injective :
    (j k : String) → tag_attribute_name j ≡ tag_attribute_name k → j ≡ k
unfolding tag_attribute_name
tag_attribute_name-injective j k h = ground (
  arith,
  after_prefix?-append tag_prefix j,
  after_prefix?-append tag_prefix k,
  ap (after_prefix? tag_prefix) h,
)

pub is_tag-name : (a : Attribute) (k : String) → a.key ≡ tag_attribute_name k → is_tag a ≡ true
unfolding is_tag has_prefix tag_attribute_name
is_tag-name a k h = rw (h, after_prefix?-append tag_prefix k) refl

-- The two tests on an attribute are the test of its name.
pub tag_key-name :
    (a : Attribute) (k : String) → (is_tag a && tag_key a == k) ≡ (a.key == tag_attribute_name k)
tag_key-name a k = elim (is_tag-cases a) [
  | inl e ↦
      let other : (a.key == tag_attribute_name k) ≡ false =
        eq_false _ _
          (λ (h : a.key ≡ tag_attribute_name k). absurd (ground (arith, e, is_tag-name a k h))) in
      rw (e, other) refl
  | inr (e, n) ↦ rw e (
      ground (
        arith,
        eq_iff (tag_key a) k,
        eq_iff a.key (tag_attribute_name k),
        ap tag_attribute_name {x = tag_key a} {y = k},
        tag_attribute_name-injective (tag_key a) k,
        n,
      ))
]
