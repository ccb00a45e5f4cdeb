-- ===== src/Examples/Groups.antt =====
-- A group with a mapping and a zone: the theorems about pkg/dc2/dispatcher_autoscaling.go.
use Prim.Native.String.{◌++◌ as ◌<>◌}
use mathlib.Core.Path.{subst}
use dc.Prelude.{
  ℕ, String, ◌≡◌, refl, ap, sym, ◌∙◌, ◌⊎◌, Bool, true, false, Option, none, some, List, [], ◌∷◌,
  arith, ◌==◌, eq_iff, Bool-cases, inl, inr, ◌≤◌,
}
use dc.Prelude.Int.{pos, IsInt64, ◌≤ℤ◌, ◌-ℤ◌}
use dc.Prelude.Text.{trim_space, after_prefix?, after_prefix?-append}
use dc.Prelude.Sorting.{sort_by, find_by}
use dc.Api.{ok}
use dc.Storage.{
  Storage, Resource, ResourceStorage, auto_scaling_group_type, resource_attributes, lookup,
  registered_resources, same_type,
}
use dc.Storage.Invariant.{IsValid}
use dc.Dispatcher.{find_resource}
use dc.LaunchTemplate.{Ebs, BlockDeviceMapping, Codec}
use dc.AutoScaling.WarmJobs.{
  no_warm_jobs, schedule_warm_pool_deletion, end_warm_job, starts, steps, schedules, ends,
}
use dc.AutoScaling.WarmJobs.Tracked.{IsTracked}
use dc.AutoScaling.WarmJobs.Reached.{Reachable-IsTracked}
use dc.AutoScaling.Groups.{Group, GroupJson, pool_stopped, parse_warm_pool_state}
use dc.LaunchTemplate.Names as TemplateNames
use dc.Storage.{launch_template_type, find_key}
use dc.Prelude.Text.{lt_text}
use dc.Prelude.Strconv.{parse_int, parse_uint, format_int, format_uint}
use dc.LaunchTemplate.Find.{find_launch_template}
use dc.LaunchTemplate.Load.{
  load_template, load_metadata, metadata_from, read_version, read_time, resolve_version_selector,
  load_version_data, version_data_from, raw_field,
}
use dc.LaunchTemplate.Names.{
  of_version, version_attribute_name, description_name, create_time_name, legacy_attribute_name,
}
use dc.AutoScaling.Groups.{validate_group_sizes}
use dc.AutoScaling.Template.{
  resolve_launch_template, resolve_instance_kind, normalize_availability_zones,
  normalize_optional_string,
}
use dc.Instances.Describe.{Library}
use dc.AutoScaling.Template.{Catalog}
use dc.AutoScaling.Groups.{validate_desired_capacity}
use dc.AutoScaling.Handlers.{CreateGroup, prepare_group}
use dc.Executor.{Executor, World}
use dc.Storage.{register_resource, set_resource_attributes, new_memory_storage, Resource, Attribute}
use dc.AutoScaling.InOrder.{NoSizes, is_size, register-InOrder, set-InOrder, new-InOrder}
use dc.AutoScaling.Members.Keeps.{Ordered}
use dc.AutoScaling.Handlers.Sizes.{IsSized}
use dc.AutoScaling.Calls.{GroupCall, creates, sets_capacity, after_calls, after_calls-IsSized}
use dc.Examples.Instances.{toy, settings, start}
use dc.AutoScaling.Stored.{load_group, save_group}
use dc.AutoScaling.Stored.Fields.{IsZone}
use dc.AutoScaling.Stored.Loaded.{IsFaithful, IsStorable, IsFresh}
use dc.AutoScaling.Stored.RoundTrip.{load_group-save_group}
use dc.AutoScaling.Scaling.{warm_pool_target_capacity}
use dc.AutoScaling.Scaling.Capacity.{warm_pool_target_capacity-most}

-- Two deletions are scheduled for a group, and the job of the first is over.
Reachable-IsTracked_example : IsTracked (
    end_warm_job 1 (schedule_warm_pool_deletion "g" (schedule_warm_pool_deletion "g" no_warm_jobs)))
unfolding schedule_warm_pool_deletion lookup dc.Storage.insert
Reachable-IsTracked_example =
    Reachable-IsTracked
      (end_warm_job 1
        (schedule_warm_pool_deletion "g" (schedule_warm_pool_deletion "g" no_warm_jobs)))
      (steps (steps (steps starts (schedules "g")) (schedules "g")) (ends 1 refl))

-- A codec for one mapping without a volume of its own; it writes the name of the device.
abbrev mapping : String → BlockDeviceMapping
mapping name = record { device_name = name; ebs = none }

marshal : List BlockDeviceMapping → Option String
marshal [] = none
marshal (m ∷ n ∷ ms) = none
marshal (m ∷ []) = elim m.ebs [ none ↦ some ("m" <> m.device_name) | some e ↦ none ]

unmarshal : String → Option (List BlockDeviceMapping)
unmarshal raw = elim (after_prefix? "m" raw) [ none ↦ none | some name ↦ some (mapping name ∷ []) ]

abbrev json : GroupJson String
json = record {
  policy = record { marshal = λ p. none; unmarshal = λ raw. none };
  mappings = record { marshal = marshal; unmarshal = unmarshal };
}

abbrev group : Group String
group = record {
  name = "g";
  min_size = pos 1;
  max_size = pos 3;
  desired_capacity = pos 2;
  created_time = "t";
  template_id = "lt-1";
  template_name = "web";
  template_version = "1";
  image_id = "image";
  instance_kind = "kind";
  user_data = "";
  block_device_mappings = mapping "sdf" ∷ [];
  policy = none;
  availability_zones = "eu-a" ∷ "eu-b" ∷ [];
  vpc_zone_identifier = none;
  default_cooldown = pos 300;
  health_check_kind = "EC2";
  warm_pool_enabled = true;
  warm_pool_min_size = pos 0;
  warm_pool_max_prepared = some (pos 5);
  warm_pool_state = pool_stopped;
  warm_pool_status = "Active";
  warm_pool_reuse = some false;
}

abbrev store : Storage
store = record { resources = ("g", record { type = auto_scaling_group_type; attrs = [] }) ∷ [] }

store-IsValid : IsValid store
store-IsValid = record { ids = (tt, tt); names = (tt, tt) }

abbrev is_time : String → Bool
is_time s = s == "t"

after_nothing : after_prefix? "m" "" ≡ none
unfolding after_prefix?
after_nothing = refl

not_empty : (name : String) → (("m" <> name) == "") ≡ false
not_empty name = elim (Bool-cases (("m" <> name) == "")) [
  | inl e ↦ absurd (
      ground (
        arith,
        after_prefix?-append "m" name,
        ap (after_prefix? "m") ((eq_iff ("m" <> name) "").0 e),
        after_nothing,
      ))
  | inr e ↦ e
]

reads_one :
    (name : String) (e : Option Ebs) (raw : String)
    → marshal (record { device_name = name; ebs = e } ∷ []) ≡ some raw
    → ((raw == "") ≡ false) × (unmarshal raw ≡ some (record { device_name = name; ebs = e } ∷ []))
unfolding marshal unmarshal
reads_one name (some e) raw h = absurd (ground (arith, h))
reads_one name none raw h =
    subst (λ t. ((t == "") ≡ false) × (unmarshal t ≡ some (mapping name ∷ []))) (ground (arith, h))
      (not_empty name, rw (after_prefix?-append "m" name, unmarshal) refl)

reads_back :
    (ms : List BlockDeviceMapping) (raw : String)
    → marshal ms ≡ some raw
    → ((raw == "") ≡ false) × (unmarshal raw ≡ some ms)
unfolding marshal unmarshal
reads_back [] raw h = absurd (ground (arith, h))
reads_back (m ∷ n ∷ ms) raw h = absurd (ground (arith, h))
reads_back (m ∷ []) raw h = reads_one m.device_name m.ebs raw h

json-IsFaithful : IsFaithful json
json-IsFaithful = record { policy = λ p raw h. absurd (ground (arith, h)); mappings = reads_back }

two_zones : IsZone "eu-a" × (IsZone "eu-b" × Unit {0})
unfolding trim_space dc.Prelude.Commas.lacks_comma
two_zones = (
  record { plain = refl; trimmed = refl; given = refl },
  (record { plain = refl; trimmed = refl; given = refl }, tt),
)

small : (n : ℕ) → n ≤ 1000 → IsInt64 (pos n)
small n h = record { above = omega arith; below = omega (arith, h) }

group-IsStorable : IsStorable is_time group
unfolding parse_warm_pool_state
group-IsStorable = record {
  min_size = small 1 (omega arith);
  max_size = small 3 (omega arith);
  desired_capacity = small 2 (omega arith);
  default_cooldown = small 300 (omega arith);
  warm_pool_min_size = small 0 (omega arith);
  warm_pool_max_prepared = small 5 (omega arith);
  created_time = refl;
  time = refl;
  template_id = refl;
  template_name = refl;
  template_version = refl;
  health_check_kind = refl;
  state = refl;
  status = refl;
  zones = two_zones;
}

found :
    find_resource store auto_scaling_group_type "g"
    ≡ ok (record { type = auto_scaling_group_type; id = "g" })
unfolding find_resource registered_resources sort_by find_by same_type
found = refl

had : resource_attributes store "g" ≡ ok []
unfolding resource_attributes lookup sort_by
had = refl

saves : (save_group json group store).1 ≡ ok tt
unfolding save_group marshal lookup dc.Storage.set_resource_attributes
saves = refl

fresh : IsFresh group []
unfolding dc.Storage.find_key
fresh = record { mappings = tt; zones = tt; vpc = refl }

load_group-save_group_example :
    load_group json is_time "g" (save_group json group store).0 ≡ ok group
load_group-save_group_example =
    load_group-save_group json is_time group store
      (record { type = auto_scaling_group_type; id = "g" }) [] json-IsFaithful group-IsStorable
      store-IsValid found had fresh saves

abbrev ids : List String
ids = "i-1" ∷ "i-2" ∷ "i-3" ∷ []

warm_pool_target_capacity-most_example :
    (pos 0 ≤ℤ warm_pool_target_capacity group)
    × (pos 5 -ℤ pos 2 ≤ℤ warm_pool_target_capacity group)
    × ((warm_pool_target_capacity group ≡ pos 0)
        ⊎ (warm_pool_target_capacity group ≡ pos 5 -ℤ pos 2))
warm_pool_target_capacity-most_example =
    warm_pool_target_capacity-most group (omega arith) (omega arith) (omega arith)
      (small 2 (omega arith)) (small 5 (omega arith))

-- A template of which a group can be made.
abbrev templates : Storage
templates = record {
  resources =
      (
        "lt-1",
        record {
          type = launch_template_type;
          attrs =
              (TemplateNames.template_name, "web")
              ∷ (TemplateNames.default_version, "1")
              ∷ (TemplateNames.latest_version, "1")
              ∷ ("LaunchTemplateVersion.1.ImageID", "ami-1")
              ∷ ("LaunchTemplateVersion.1.InstanceType", "kind")
              ∷ [];
        },
      )
      ∷ [];
}

abbrev nothing : {A : Type 0} → Codec A
nothing = record { marshal = λ a. none; unmarshal = λ s. none }

abbrev catalog : Catalog String
catalog = record {
  json = record { requirements = nothing; strings = nothing; mappings = nothing };
  group_json = json;
  search = λ r. none;
}

abbrev lib : Library
lib = record {
  ipv4 = λ s. none;
  sha1 = λ s. [];
  parse_time = λ s. none;
  since = λ s t. pos 0;
  decode = λ s. none;
  decode_raw = λ s. none;
}

abbrev creation_request : CreateGroup String
creation_request = record {
  name = "g";
  min_size = some (pos 1);
  max_size = some (pos 3);
  desired_capacity = none;
  template = some (record { id = some "lt-1"; name = none; version = none });
  policy = none;
  vpc_zone_identifier = none;
  availability_zones = [];
  tags = [];
}

abbrev new_group : Group String
new_group = record group {
  desired_capacity = pos 1;
  image_id = "ami-1";
  block_device_mappings = [];
  availability_zones = [];
  warm_pool_enabled = false;
  warm_pool_max_prepared = none;
  warm_pool_status = "";
  warm_pool_reuse = none;
}

prepared : prepare_group catalog lib toy settings creation_request "t" templates ≡ ok new_group
unfolding prepare_group resolve_launch_template find_launch_template find_resource
    registered_resources sort_by same_type find_by load_template load_metadata metadata_from
    read_version read_time resource_attributes lookup lt_text find_key parse_int parse_uint
    format_int format_uint resolve_version_selector load_version_data version_data_from raw_field
    of_version version_attribute_name description_name create_time_name legacy_attribute_name
    validate_group_sizes validate_desired_capacity resolve_instance_kind
    normalize_availability_zones normalize_optional_string trim_space
prepared = refl

-- An executor that starts every instance, and a store with a template.
abbrev willing : Executor (Unit {0})
willing = record toy { start_instances = λ ids s. (s, ok []) }

abbrev template_attributes : List Attribute
template_attributes =
    record { key = TemplateNames.template_name; value = "web" }
    ∷ record { key = TemplateNames.default_version; value = "1" }
    ∷ record { key = TemplateNames.latest_version; value = "1" }
    ∷ record { key = "LaunchTemplateVersion.1.ImageID"; value = "ami-1" }
    ∷ record { key = "LaunchTemplateVersion.1.InstanceType"; value = "kind" }
    ∷ []

abbrev web : Resource
web = record { type = launch_template_type; id = "lt-1" }

abbrev stocked : World (Unit {0})
stocked = record start {
  storage =
      (set_resource_attributes "lt-1" template_attributes
        (register_resource web new_memory_storage).0).0;
}

template_attributes-NoSizes : NoSizes template_attributes
unfolding is_size
template_attributes-NoSizes = (refl, (refl, (refl, (refl, (refl, tt)))))

stocked-Ordered : Ordered stocked
stocked-Ordered =
    (set-InOrder "lt-1" template_attributes template_attributes-NoSizes).run
      (register_resource web new_memory_storage).0
      ((register-InOrder web).run new_memory_storage new-InOrder)

-- A group is created; nine instances are too many for it, two are not.
abbrev group_calls : List (GroupCall String)
group_calls =
    creates (record creation_request { min_size = some (pos 0) })
    ∷ sets_capacity "g" (some (pos 9))
    ∷ sets_capacity "g" (some (pos 2))
    ∷ []

abbrev scaled : Group String
scaled = record new_group { min_size = pos 0; desired_capacity = pos 2; created_time = "now" }

loads_scaled :
    load_group json settings.is_time "g"
      (after_calls catalog lib willing settings group_calls stocked).storage
    ≡ ok scaled
unfolding load_group find_resource find_by registered_resources sort_by
    dc.AutoScaling.Handlers.Changes.dispatch_set_desired_capacity
    dc.AutoScaling.Handlers.Changes.dispatch_create_auto_scaling_group prepare_group
    resolve_launch_template find_launch_template set_resource_attributes lookup register_resource
    dc.Storage.insert same_type load_template load_metadata resource_attributes metadata_from
    read_version read_time lt_text find_key parse_int parse_uint format_int format_uint
    resolve_version_selector load_version_data version_data_from raw_field of_version
    version_attribute_name description_name create_time_name legacy_attribute_name
    validate_group_sizes validate_desired_capacity resolve_instance_kind
    normalize_availability_zones normalize_optional_string trim_space
    dc.AutoScaling.Resize.scale_group_to dc.AutoScaling.Resize.reconcile_warm_pool
    dc.AutoScaling.Members.managed_instance_ids dc.AutoScaling.Members.group_instance_ids
    dc.AutoScaling.Members.members dc.AutoScaling.Members.is_warm dc.AutoScaling.Members.managed
    dc.AutoScaling.Members.is_synchronous save_group
    dc.AutoScaling.Scaling.promote_warm_pool_instances dc.AutoScaling.Members.warm_instance_ids
    dc.AutoScaling.Create.create_instances dc.Instances.Lifecycle.apply_delay
    dc.Instances.Lifecycle.match_input_for_group dc.Instances.Lifecycle.profile_delay
    dc.AutoScaling.Create.instance_subnet_id dc.AutoScaling.Create.propagated_instance_tags
    dc.AutoScaling.Create.propagate_at_launch_by_key dc.Instances.Describe.subnet_vpc_id
    dc.Instances.Launch.Request.normalize_user_data dc.LaunchTemplate.Find.linkage_tag_attributes
    dc.LaunchTemplate.Find.ensure_linkage_tags dc.Imds.set_tags dc.Volumes.Lifecycle.attach_mappings
    dc.Executor.each dc.Storage.tag_attribute_name dc.Storage.is_tag dc.Storage.tag_key
    dc.Storage.delete parse_warm_pool_state dc.AutoScaling.Groups.required_int
    dc.AutoScaling.Groups.optional_int dc.AutoScaling.Groups.optional_bool
    dc.AutoScaling.Groups.parse_availability_zones dc.AutoScaling.Groups.unmarshal_policy
    dc.Prelude.Strconv.parse_bool dc.Prelude.Strconv.format_bool unmarshal marshal
    dc.Api.is_not_found dc.Api.is_panic after_prefix? dc.Prelude.Text.has_prefix
    dc.Storage.remove_resource dc.Executor.executor_instance_ids dc.Executor.runtime_id
    dc.Prelude.Int.wrap64 ◌-ℤ◌
loads_scaled = refl

after_calls-IsSized_example : IsSized scaled
after_calls-IsSized_example =
    after_calls-IsSized catalog lib willing settings group_calls stocked "g" scaled stocked-Ordered
      loads_scaled
