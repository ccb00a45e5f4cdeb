-- ===== src/AutoScaling/Stored/Values.antt =====
-- The attributes that saveAutoScalingGroupData of pkg/dc2/dispatcher_autoscaling.go writes, by name.
use dc.Prelude.{
  String, ◌≡◌, refl, ap, sym, ◌∙◌, false, Option, none, some, List, [], ◌∷◌, ◌++◌, ◌==◌, eq_refl,
  Option-cases, inl, inr,
}
use dc.Storage.{Attribute}
use dc.Storage.View.{last_value}
use dc.AutoScaling.Names
use dc.AutoScaling.Stored.{join_commas}

abbrev pub attribute_of : String → Option String → List Attribute
attribute_of k none = []
attribute_of k (some v) = record { key = k; value = v } ∷ []

abbrev pub zones_text : List String → Option String
zones_text [] = none
zones_text (z ∷ zs) = some (join_commas (z ∷ zs))

abbrev pub unless_given : Option String → Option String → Option String
unless_given none o = o
unless_given (some v) o = some v

last_value-append :
    (xs ys : List Attribute) (k : String)
    → last_value (xs ++ ys) k ≡ unless_given (last_value ys k) (last_value xs k)
last_value-append [] ys k = elim (Option-cases (last_value ys k)) [
  | inl e ↦ e ∙ ap (λ o. unless_given o none) (sym e)
  | inr (v, e) ↦ e ∙ ap (λ o. unless_given o none) (sym e)
]
last_value-append (x ∷ xs) ys k = elim (Option-cases (last_value ys k)) [
  | inl e ↦ rw (last_value-append xs ys k, e) refl
  | inr (v, e) ↦ rw (last_value-append xs ys k, e) refl
]

own_value : (k : String) (o : Option String) → last_value (attribute_of k o) k ≡ o
own_value k none = refl
own_value k (some v) = rw (eq_refl k) refl

other_value :
    (j k : String) (o : Option String) → (j == k) ≡ false → last_value (attribute_of j o) k ≡ none
other_value j k none h = refl
other_value j k (some v) h = rw h refl

abbrev pub Differs : String → String → Type 0
Differs j k = (j == k) ≡ false

-- The attributes that every group has, and the three that not every group has.
abbrev pub all_attributes :
    List Attribute → Option String → Option String → Option String → List Attribute
all_attributes f m z v =
    f
    ++ attribute_of Names.block_device_mappings m
    ++ attribute_of Names.availability_zones z
    ++ attribute_of Names.vpc_zone_identifier v

stored_value :
    (f : List Attribute) (m z v : Option String) (k : String)
    → last_value (all_attributes f m z v) k
      ≡ unless_given (last_value (attribute_of Names.vpc_zone_identifier v) k) (
          unless_given (last_value (attribute_of Names.availability_zones z) k) (
            unless_given
              (last_value (attribute_of Names.block_device_mappings m) k)
              (last_value f k)))
stored_value f m z v k =
    last_value-append
      (f ++ attribute_of Names.block_device_mappings m ++ attribute_of Names.availability_zones z)
      (attribute_of Names.vpc_zone_identifier v) k
    ∙ ap (unless_given (last_value (attribute_of Names.vpc_zone_identifier v) k)) (
        last_value-append (f ++ attribute_of Names.block_device_mappings m)
          (attribute_of Names.availability_zones z) k
        ∙ ap (unless_given (last_value (attribute_of Names.availability_zones z) k))
            (last_value-append f (attribute_of Names.block_device_mappings m) k))

pub plain_value :
    (f : List Attribute) (m z v : Option String) (k : String)
    → Differs Names.block_device_mappings k
    → Differs Names.availability_zones k
    → Differs Names.vpc_zone_identifier k
    → last_value (all_attributes f m z v) k ≡ last_value f k
plain_value f m z v k a b c =
    stored_value f m z v k ∙ rw (other_value _ k m a, other_value _ k z b, other_value _ k v c) refl

or_fixed : (o p : Option String) → p ≡ none → unless_given o p ≡ o
or_fixed none p h = h
or_fixed (some v) p h = refl

pub mappings_value :
    (f : List Attribute) (m z v : Option String)
    → last_value f Names.block_device_mappings ≡ none
    → last_value (all_attributes f m z v) Names.block_device_mappings ≡ m
mappings_value f m z v h =
    stored_value f m z v Names.block_device_mappings
    ∙ rw
        (
          other_value Names.vpc_zone_identifier Names.block_device_mappings v refl,
          other_value Names.availability_zones Names.block_device_mappings z refl,
          own_value Names.block_device_mappings m,
        )
        (or_fixed m _ h)

pub zones_value :
    (f : List Attribute) (m z v : Option String)
    → last_value f Names.availability_zones ≡ none
    → last_value (all_attributes f m z v) Names.availability_zones ≡ z
zones_value f m z v h =
    stored_value f m z v Names.availability_zones
    ∙ rw
        (
          other_value Names.vpc_zone_identifier Names.availability_zones v refl,
          other_value Names.block_device_mappings Names.availability_zones m refl,
          own_value Names.availability_zones z,
        )
        (or_fixed z _ h)

pub vpc_value :
    (f : List Attribute) (m z v : Option String)
    → last_value f Names.vpc_zone_identifier ≡ none
    → last_value (all_attributes f m z v) Names.vpc_zone_identifier ≡ v
vpc_value f m z v h =
    stored_value f m z v Names.vpc_zone_identifier
    ∙ rw
        (
          other_value Names.availability_zones Names.vpc_zone_identifier z refl,
          other_value Names.block_device_mappings Names.vpc_zone_identifier m refl,
          own_value Names.vpc_zone_identifier v,
        )
        (or_fixed v _ h)
