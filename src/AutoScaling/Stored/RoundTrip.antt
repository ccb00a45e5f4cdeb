-- ===== src/AutoScaling/Stored/RoundTrip.antt =====
-- loadAutoScalingGroupData after saveAutoScalingGroupData of pkg/dc2/dispatcher_autoscaling.go.
use dc.Prelude.{String, ◌≡◌, refl, ◌∙◌, Bool, Option, none, some, List, [], ◌∷◌, arith, inl, inr}
use dc.Api.{Error, ok, err}
use dc.Storage.{
  Storage, Attribute, Attributes, Resource, auto_scaling_group_type, find_key, resource_attributes,
  set_resource_attributes,
}
use dc.Storage.Invariant.{IsValid}
use dc.Storage.Changes.{Reads, resource_attributes-set}
use dc.Storage.View.{assign}
use dc.Dispatcher.{find_resource}
use dc.Dispatcher.Finding.{find_resource-set}
use dc.AutoScaling.Names
use dc.AutoScaling.Groups.{Group, GroupJson}
use dc.AutoScaling.Stored.{
  policy_text, mapping_attributes, zone_attributes, vpc_attributes, fixed_attributes,
  group_attributes, group_from, load_group, save_group,
}
use dc.AutoScaling.Stored.Values.{attribute_of, zones_text, all_attributes}
use dc.AutoScaling.Stored.Loaded.{
  IsFaithful, IsStorable, IsFresh, as_loaded, policy-cases, mappings-cases, group_from-stored,
  mappings_stored,
}

pub zone_attributes_lem :
    {R : Type 0} (json : GroupJson R) (zs : List String)
    → zone_attributes json zs ≡ attribute_of Names.availability_zones (zones_text zs)
unfolding zone_attributes
zone_attributes_lem json [] = refl
zone_attributes_lem json (z ∷ zs) = refl

pub vpc_attributes_lem :
    {R : Type 0} (json : GroupJson R) (v : Option String)
    → vpc_attributes json v ≡ attribute_of Names.vpc_zone_identifier v
unfolding vpc_attributes
vpc_attributes_lem json none = refl
vpc_attributes_lem json (some v) = refl

-- The attributes that are written for a group.
written :
    {R : Type 0} (json : GroupJson R) (g : Group R) (policy : String) (m : Option String)
    → policy_text json g.policy ≡ ok policy
    → mapping_attributes json g.block_device_mappings
      ≡ ok (attribute_of Names.block_device_mappings m)
    → group_attributes json g
      ≡ ok (
          all_attributes
            (fixed_attributes json g policy)
            m
            (zones_text g.availability_zones)
            g.vpc_zone_identifier)
unfolding group_attributes
written json g policy m p q =
    rw
      (
        p,
        q,
        zone_attributes_lem json g.availability_zones,
        vpc_attributes_lem json g.vpc_zone_identifier,
      )
      refl

module _ {R : Type 0} (json : GroupJson R) (g : Group R) (s : Storage) where
  refused : (e : Error) → group_attributes json g ≡ err e → (save_group json g s).1 ≡ err e
  unfolding save_group
  refused e h = rw (h, save_group) refl

  refused_policy : (e : Error) → policy_text json g.policy ≡ err e → (save_group json g s).1 ≡ err e
  unfolding group_attributes
  refused_policy e h = refused e (rw (h, group_attributes) refl)

  refused_mappings :
      (policy : String) (e : Error)
      → policy_text json g.policy ≡ ok policy
      → mapping_attributes json g.block_device_mappings ≡ err e
      → (save_group json g s).1 ≡ err e
  unfolding group_attributes
  refused_mappings policy e p h = refused e (rw (p, h, group_attributes) refl)

  saved_as :
      (attrs : List Attribute)
      → group_attributes json g ≡ ok attrs
      → (save_group json g s).0 ≡ (set_resource_attributes g.name attrs s).0
  unfolding save_group
  saved_as attrs h = rw (h, save_group) refl

  -- What is read once the attributes are set.
  load_group-set :
      (is_time : String → Bool) (attrs : List Attribute) (r : Resource) (old : Attributes)
      → IsValid s
      → find_resource s auto_scaling_group_type g.name ≡ ok r
      → (had : resource_attributes s g.name ≡ ok old)
      → (now : Reads
          (set_resource_attributes g.name attrs s).0
          g.name
          (assign attrs (find_key old)))
      → load_group json is_time g.name (set_resource_attributes g.name attrs s).0
        ≡ group_from json is_time g.name now.attrs
  unfolding load_group
  load_group-set is_time attrs r old valid found had now =
      rw
        (
          find_resource-set auto_scaling_group_type g.name attrs s valid ∙ found,
          now.read,
          load_group,
        )
        refl

-- A group that is saved over the resource of a group is loaded back as it was, except that a warm pool
-- without a state is loaded as Stopped. The conditions: the numbers are 64-bit; the created time is a
-- time and not empty; the id, name and version of the template and the kind of health check are not
-- empty; the state of the warm pool is empty or one of the three known ones; its status is not empty
-- when it is enabled; the zones are trimmed, not empty and without commas; encoding/json reads back what
-- it wrote; and the resource had no block device mappings, availability zones or VPC zone identifier
-- that the group has not.
pub load_group-save_group :
    {R : Type 0} (json : GroupJson R) (is_time : String → Bool) (g : Group R) (s : Storage)
    (r : Resource) (old : Attributes)
    → IsFaithful json
    → IsStorable is_time g
    → IsValid s
    → find_resource s auto_scaling_group_type g.name ≡ ok r
    → resource_attributes s g.name ≡ ok old
    → IsFresh g old
    → (save_group json g s).1 ≡ ok tt
    → load_group json is_time g.name (save_group json g s).0 ≡ ok (as_loaded g)
load_group-save_group json is_time g s r old faithful storable valid found had fresh saved =
    elim (policy-cases json faithful is_time g.policy) [
      | inl (e, p) ↦ absurd (ground (arith, saved, refused_policy json g s e p))
      | inr (policy, p, back) ↦
          elim (mappings-cases json faithful is_time g.block_device_mappings) [
            | inl (e, q) ↦ absurd (ground (arith, saved, refused_mappings json g s policy e p q))
            | inr (m, q, mback) ↦
                let attrs =
                  all_attributes (fixed_attributes json g policy) m
                    (zones_text g.availability_zones) g.vpc_zone_identifier in
                let now = resource_attributes-set g.name attrs s old valid had in
                rw (saved_as json g s attrs (written json g policy m p q)) (
                  load_group-set json g s is_time attrs r old valid found had now
                  ∙ group_from-stored json faithful is_time g storable policy m now.attrs old
                      now.found fresh back
                      (mback now.attrs (find_key old Names.block_device_mappings) fresh.mappings (
                        mappings_stored json faithful is_time g storable policy m now.attrs old
                          now.found)))
          ]
    ]
