-- ===== src/AutoScaling/InOrder/Writes.antt =====
-- What pkg/dc2 writes beside the groups of dispatcher_autoscaling.go has no sizes of groups: tags, volumes
-- and spot requests.
use dc.Prelude.{
  String, ◌≡◌, refl, ap, true, false, List, [], ◌∷◌, arith, ◌==◌, eq_iff, inl, inr, Bool-cases,
}
use dc.Prelude.Text.{has_prefix, after_prefix?, after_prefix?-append}
use dc.Storage.{Attribute, tag_attribute_name, volume_type}
use dc.Executor.Keeps.{Keeps}
use dc.LaunchTemplate.Find.{linkage_tag_attributes}
use dc.LaunchTemplate.Versions.{Agrees-append}
use dc.Volumes.Data.Keys.{Excludes, volume_attributes-Agrees}
use dc.Volumes.Lifecycle.Keeps.{AllowsVolumes}
use dc.Prelude.{if◌then◌else◌}
use dc.Spot.Requests.Keeps.{close_spot_request-Keeps}
use dc.Spot.Requests.{close_spot_request, closing}
use dc.AutoScaling.Names
use dc.AutoScaling.InOrder.{
  InOrder, NoSizes, is_size, register-InOrder, remove-InOrder, set-InOrder,
}

other_name : (k j p : String) → has_prefix k p ≡ true → has_prefix j p ≡ false → (k == j) ≡ false
other_name k j p h n = elim (Bool-cases (k == j)) [
  | inl e ↦ absurd (ground (arith, h, n, ap (λ (t : String). has_prefix t p) ((eq_iff k j).0 e)))
  | inr e ↦ e
]

-- A name with a prefix that no name of a size has.
pub prefixed-is_size :
    (p k : String)
    → has_prefix k p ≡ true
    → has_prefix Names.min_size p ≡ false
    → has_prefix Names.max_size p ≡ false
    → has_prefix Names.desired_capacity p ≡ false
    → has_prefix Names.warm_pool_min_size p ≡ false
    → has_prefix Names.warm_pool_max_group_prepared_capacity p ≡ false
    → is_size k ≡ false
unfolding is_size
prefixed-is_size p k h a b c d e =
    rw
      (
        other_name k Names.min_size p h a,
        other_name k Names.max_size p h b,
        other_name k Names.desired_capacity p h c,
        other_name k Names.warm_pool_min_size p h d,
        other_name k Names.warm_pool_max_group_prepared_capacity p h e,
      )
      refl

-- A tag is no size.
pub tag-is_size : (k : String) → is_size (tag_attribute_name k) ≡ false
unfolding tag_attribute_name has_prefix after_prefix?
tag-is_size k =
    prefixed-is_size "tag:" (tag_attribute_name k) (rw (after_prefix?-append "tag:" k) refl) refl
      refl refl refl refl

no_volume_sizes : Excludes is_size false
unfolding is_size
no_volume_sizes = record {
  zone = refl;
  time = refl;
  encrypted = refl;
  kind = refl;
  iops = refl;
  throughput = refl;
  key = refl;
  tags = tag-is_size;
}

pub volumes-InOrder : AllowsVolumes InOrder
unfolding is_size
volumes-InOrder = record {
  registers = λ id. register-InOrder (record { type = volume_type; id = id });
  fills =
      λ id r now. set-InOrder id _ (volume_attributes-Agrees is_size false no_volume_sizes r now);
  gives = λ id owner flag. set-InOrder id _ (refl, (refl, tt));
  removes = remove-InOrder;
}

abbrev tag_attribute : String → String → List Attribute
tag_attribute key value =
    if value == "" then [] else record { key = tag_attribute_name key; value = value } ∷ []

linkage_tag-NoSizes : (k v : String) → NoSizes (tag_attribute k v)
linkage_tag-NoSizes k v = elim (Bool-cases (v == "")) [
  | inl e ↦ rw e tt
  | inr e ↦ rw e (tag-is_size k, tt)
]

pub linkage_tag_attributes-NoSizes :
    (id version : String) → NoSizes (linkage_tag_attributes id version)
unfolding linkage_tag_attributes
linkage_tag_attributes-NoSizes id version =
    Agrees-append is_size false (tag_attribute "aws:ec2launchtemplate:id" id)
      (tag_attribute "aws:ec2launchtemplate:version" version)
      (linkage_tag-NoSizes "aws:ec2launchtemplate:id" id)
      (linkage_tag-NoSizes "aws:ec2launchtemplate:version" version)

closing-NoSizes : (code message now : String) → NoSizes (closing code message now)
unfolding is_size
closing-NoSizes code message now = (refl, (refl, (refl, (refl, tt))))

pub close_spot_request-InOrder :
    (id code message now : String) → Keeps InOrder (close_spot_request id code message now)
close_spot_request-InOrder id code message now =
    close_spot_request-Keeps InOrder id code message now
      (λ request. set-InOrder request _ (closing-NoSizes code message now))
