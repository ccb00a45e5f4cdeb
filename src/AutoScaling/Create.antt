-- ===== src/AutoScaling/Create.antt =====
-- createAutoScalingInstances of pkg/dc2/dispatcher_autoscaling.go: the instances that a group gets, and
-- the tags that the group gives to them. The waits let other requests in; the model has none there.
pub mod Keeps
use Prim.Native.String.{◌++◌ as ◌<>◌}
use dc.Prelude.{
  String, Bool, false, Option, none, some, List, [], ◌∷◌, ◌++◌, ◌==◌, if◌then◌else◌, map,
}
use dc.Prelude.Int.{ℤ, pos, leb_ℤ}
use dc.Prelude.Text.{trim_space, after_prefix?}
use dc.Prelude.Commas.{split_commas}
use dc.Prelude.Strconv.{parse_bool}
use dc.Api.{Result, ok, err, wrapped}
use dc.Api.Exec
use dc.Api.Exec.{Exec, pure, reads, ◌>>=◌, ◌>>◌}
use dc.Storage.{
  Storage, Attribute, Attributes, instance_type, register_resource, set_resource_attributes,
  resource_attributes, is_tag, tag_key, tag_attribute_name, lookup, insert,
}
use dc.Imds.{set_tags}
use dc.Dispatcher.Names as InstanceNames
use dc.TestProfile.{before, after, MatchInput}
use dc.TestProfile
use dc.Spot.{TagMap}
use dc.LaunchTemplate.Find.{linkage_tag_attributes, ensure_linkage_tags}
use dc.Volumes.Lifecycle.{attach_mappings}
use dc.Executor.{
  Executor, World, CreateInstances, in_storage, in_imds, in_exe, api_instance_id, each,
}
use dc.Instances.Lifecycle.{Settings, match_input_for_group, apply_delay}
use dc.Instances.Describe.{Library, default_subnet_id, subnet_vpc_id, or_given}
use dc.Instances.Launch.Request.{normalize_user_data}
use dc.AutoScaling.Names
use dc.AutoScaling.Groups.{Group}
use dc.AutoScaling.Stored.{attribute}

abbrev or_false : Option Bool → Bool
or_false none = false
or_false (some b) = b

-- One turn of the loop of autoScalingTagPropagateAtLaunchByKey.
note_propagation : Attribute → List (String × Bool) → List (String × Bool)
note_propagation a m = elim (after_prefix? Names.propagate_prefix a.key) [
  | none ↦ m
  | some key ↦
      if key == "" then m else elim (parse_bool a.value) [ none ↦ m | some b ↦ insert key b m ]
]

propagations : Attributes → List (String × Bool) → List (String × Bool)
unfolding note_propagation
propagations [] m = m
propagations (a ∷ attrs) m = propagations attrs (note_propagation a m)

-- autoScalingTagPropagateAtLaunchByKey
unfoldable pub propagate_at_launch_by_key : Attributes → List (String × Bool)
unfolding propagations
propagate_at_launch_by_key attrs = propagations attrs []

propagates : List (String × Bool) → Attribute → Bool
propagates by_key a = if is_tag a then or_false (lookup (tag_key a) by_key) else false

propagated_attributes : List (String × Bool) → Attributes → List Attribute
unfolding propagates
propagated_attributes by_key [] = []
propagated_attributes by_key (a ∷ attrs) =
    let rest = propagated_attributes by_key attrs in
    if propagates by_key a then attribute (tag_attribute_name (tag_key a)) a.value ∷ rest else rest

propagated_map : List (String × Bool) → Attributes → TagMap → TagMap
unfolding propagates
propagated_map by_key [] tags = tags
propagated_map by_key (a ∷ attrs) tags =
    propagated_map by_key attrs
      (if propagates by_key a then insert (tag_key a) a.value tags else tags)

-- autoScalingGroupPropagatedInstanceTags
unfoldable pub propagated_instance_tags : String → Storage → Result (List Attribute × TagMap)
unfolding propagated_attributes propagated_map
propagated_instance_tags group s = elim (resource_attributes s group) [
  | err e ↦ err (wrapped e)
  | ok attrs ↦
      let by_key = propagate_at_launch_by_key attrs in
      ok (propagated_attributes by_key attrs, propagated_map by_key attrs [])
]

first_subnet : List String → String
first_subnet [] = default_subnet_id
first_subnet (p ∷ ps) =
    let rest = first_subnet ps in if trim_space p == "" then rest else trim_space p

-- autoScalingInstanceSubnetID
unfoldable pub instance_subnet_id : Option String → String
unfolding first_subnet
instance_subnet_id none = default_subnet_id
instance_subnet_id (some v) = first_subnet (split_commas v)

-- autoScalingInstanceLaunchOptions
pub record InstanceOptions : Type 0 where
  pub availability_zone : String
  pub subnet_id : String
  pub warm_pool : Bool
  pub synchronous_provisioning : Bool

abbrev marked_if : Bool → String → List Attribute
marked_if b key = if b then attribute key "true" ∷ [] else []

-- One turn of the loop that registers the instances.
register_member : {E : Type 0} → List Attribute → TagMap → String → Exec (World E) (Unit {0})
register_member attrs tags runtime =
    let id = api_instance_id runtime in
    in_storage (Exec.wrap (register_resource (record { type = instance_type; id = id })))
    >> (in_storage (Exec.wrap (set_resource_attributes id attrs))
        >> in_imds (set_tags runtime tags))

module _ {R : Type 0} (lib : Library) where
  -- The attributes that an instance of the group gets, the propagated ones among them.
  member_attributes : Group R → InstanceOptions → String → String → List Attribute → List Attribute
  member_attributes g options zone subnet propagated =
      attribute InstanceNames.availability_zone zone
        ∷ attribute InstanceNames.subnet_id subnet
        ∷ attribute InstanceNames.vpc_id (subnet_vpc_id lib subnet)
        ∷ attribute Names.name g.name
        ∷ attribute Names.instance_kind g.instance_kind
        ∷ marked_if options.warm_pool Names.warm_pool
      ++ marked_if options.synchronous_provisioning Names.synchronous_provisioning
      ++ (if g.user_data == ""
          then []
          else attribute InstanceNames.user_data (normalize_user_data lib g.user_data) ∷ [])
      ++ propagated
      ++ linkage_tag_attributes g.template_id g.template_version

  creation_of : Group R → ℤ → CreateInstances
  creation_of g count = record {
    image_id = g.image_id;
    instance_kind = g.instance_kind;
    count = count;
    user_data = normalize_user_data lib g.user_data;
  }

  module _ {E : Type 0} (x : Executor E) (o : Settings) where
    -- What follows the delay after CreateInstances.
    complete_members :
        Group R → InstanceOptions → MatchInput → List String → Exec (World E) (List String)
    unfolding register_member member_attributes
    complete_members g options input created = do
      propagated ← reads (λ (w : World E). propagated_instance_tags g.name w.storage)
      let zone = or_given (trim_space options.availability_zone) (o.region <> "a")
      let subnet =
          or_given (trim_space options.subnet_id) (instance_subnet_id g.vpc_zone_identifier)
      let attrs = member_attributes g options zone subnet propagated.0
      let tags = ensure_linkage_tags propagated.1 g.template_id g.template_version
      each (register_member attrs tags) created
      apply_delay x o before TestProfile.start (input ∷ [])
      changes ← in_exe (x.start_instances created)
      apply_delay x o after TestProfile.start (input ∷ [])
      attach_mappings x o.is_time created zone g.block_device_mappings
      pure (map api_instance_id created)

    -- createAutoScalingInstances
    unfoldable pub create_instances : Group R → ℤ → InstanceOptions → Exec (World E) (List String)
    unfolding complete_members creation_of
    create_instances g count options = if leb_ℤ count (pos 0) then pure [] else (do
      let input = match_input_for_group o g.instance_kind g.name
      apply_delay x o before TestProfile.allocate (input ∷ [])
      created ← in_exe (x.create_instances (creation_of g count))
      apply_delay x o after TestProfile.allocate (input ∷ [])
      complete_members g options input created)
