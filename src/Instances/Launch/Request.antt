-- ===== src/Instances/Launch/Request.antt =====
-- The request of dispatchRunInstances in pkg/dc2/dispatcher_instance.go: what is known of a launch
-- before an instance is created, and the attributes that its instances get.
use Prim.Native.String.{◌++◌ as ◌<>◌}
use dc.Prelude.{
  ℕ, leb, String, Bool, false, ◌&&◌, Option, none, some, List, [], ◌∷◌, ◌++◌, ◌==◌, if◌then◌else◌,
  map, is_empty,
}
use dc.Prelude.Int.{ℤ}
use dc.Prelude.Text.{trim_space, after_prefix?, codes}
use dc.Api.{Error, Result, ok, err, invalid_parameter_value}
use dc.Api
use dc.Api.Exec.{Exec, pure, ◌>>=◌, rescue}
use dc.Storage.{Attribute, tag_attribute_name}
use dc.Dispatcher.{TagSpecification}
use dc.Dispatcher.Names
use dc.TestProfile.{MatchInput}
use dc.Spot.{MarketOptions, LaunchOptions, TagMap, spot, split_run_instances_tags}
use dc.Spot.Plan.{ReclaimPlan}
use dc.LaunchTemplate.{BlockDeviceMapping, Json}
use dc.LaunchTemplate.Load.{Template}
use dc.LaunchTemplate.Find.{Specification, linkage_tag_attributes, ensure_linkage_tags}
use dc.Volumes.Data.{attribute}
use dc.Instances.Describe.{Library, default_subnet_id, subnet_vpc_id, or_given}

-- RunInstancesRequest; the count is MaxCount, MinCount is not read.
pub record RunInstances : Type 0 where
  pub image_id : String
  pub instance_kind : String
  pub template : Option Specification
  pub market_options : Option MarketOptions
  pub subnet_id : String
  pub key_name : String
  pub user_data : String
  pub max_count : ℤ
  pub block_device_mappings : List BlockDeviceMapping
  pub tag_specifications : List TagSpecification
  pub availability_zone : String

-- runInstancesLaunchParameters
pub record Launch : Type 0 where
  pub image_id : String
  pub instance_kind : String
  pub user_data : String
  pub block_device_mappings : List BlockDeviceMapping
  pub template_id : String
  pub template_version : String

-- What is known before an instance is created.
pub record Prepared : Type 0 where
  pub options : LaunchOptions
  pub launch : Launch
  pub input : MatchInput
  pub plan : ReclaimPlan
  pub zone : String
  pub subnet : String

-- What the code takes from outside: the texts that strconv.ParseFloat refuses or reads as at most 0,
-- the JSON codecs, and Go's other libraries.
pub record Outside (R : Type 0) : Type 0 where
  pub rejects : String → Bool
  pub json : Json R
  pub lib : Library

abbrev pub requested : RunInstances → Launch
requested r = record {
  image_id = trim_space r.image_id;
  instance_kind = trim_space r.instance_kind;
  user_data = r.user_data;
  block_device_mappings = r.block_device_mappings;
  template_id = "";
  template_version = "";
}

-- What the request leaves out comes from the template.
unfoldable pub filled_from : {R : Type 0} → Template R → Launch → Launch
filled_from t l = record {
  image_id = or_given l.image_id t.version_data.image_id;
  instance_kind = or_given l.instance_kind t.version_data.instance_kind;
  user_data = if trim_space l.user_data == "" then t.version_data.user_data else l.user_data;
  block_device_mappings =
      if is_empty l.block_device_mappings
      then t.version_data.block_device_mappings
      else l.block_device_mappings;
  template_id = t.id;
  template_version = t.version;
}

abbrev is_letter : List ℕ → Bool
is_letter [] = false
is_letter (n ∷ ns) = is_empty ns && leb 97 n && leb n 122

-- validateAvailabilityZone: the region and a letter
unfoldable pub validate_availability_zone : String → String → Result (Unit {0})
validate_availability_zone zone region = elim (after_prefix? region zone) [
  | none ↦ err (invalid_parameter_value "AvailabilityZone")
  | some rest ↦
      if is_letter (codes rest) then ok tt else err (invalid_parameter_value "AvailabilityZone")
]

-- runInstancesAvailabilityZone, with defaultAvailabilityZone
unfoldable pub run_instances_availability_zone : String → String → Result String
run_instances_availability_zone region zone =
    if zone == ""
    then ok (region <> "a")
    else Api.◌>>◌ (validate_availability_zone zone region) (ok zone)

unfoldable pub run_instances_subnet_id : String → String
run_instances_subnet_id raw = or_given (trim_space raw) default_subnet_id

unfoldable pub normalize_user_data : Library → String → String
normalize_user_data lib raw = elim (lib.decode raw) [
  | some text ↦ text
  | none ↦ elim (lib.decode_raw raw) [ some text ↦ text | none ↦ raw ]
]

abbrev if_spot : LaunchOptions → List Attribute → List Attribute
if_spot o attrs = if o.market_type == spot then attrs else []

abbrev unless_empty : String → String → List Attribute
unless_empty key value = if value == "" then [] else attribute key value ∷ []

abbrev tag_attributes : TagMap → List Attribute
tag_attributes m = map (λ (e : String × String). attribute (tag_attribute_name e.0) e.1) m

-- The tags of the instances, with those of the launch template.
unfoldable pub instance_tags : RunInstances → Prepared → TagMap
instance_tags r p =
    ensure_linkage_tags (split_run_instances_tags r.tag_specifications).0 p.launch.template_id
      p.launch.template_version

-- The attributes that all instances of the launch get.
unfoldable pub launch_attributes : Library → RunInstances → Prepared → List Attribute
unfolding instance_tags
launch_attributes lib r p =
    attribute Names.availability_zone p.zone
      ∷ attribute Names.subnet_id p.subnet
      ∷ attribute Names.vpc_id (subnet_vpc_id lib p.subnet)
      ∷ unless_empty Names.key_name r.key_name
    ++ (if p.launch.user_data == ""
        then []
        else attribute Names.user_data (normalize_user_data lib p.launch.user_data) ∷ [])
    ++ if_spot p.options (
        attribute Names.market_type p.options.market_type
        ∷ attribute Names.interrupt_mode p.options.interruption_behavior
        ∷ unless_empty Names.max_price p.options.max_price)
    ++ linkage_tag_attributes p.launch.template_id p.launch.template_version
    ++ tag_attributes (instance_tags r p)

-- The answers of makeID to the turns of a loop; it fails when there is none left.
abbrev pub answer_of : List (Option String) → Option String
answer_of [] = none
answer_of (a ∷ as') = a

abbrev pub answers_after : List (Option String) → List (Option String)
answers_after [] = []
answers_after (a ∷ as') = as'

-- A call whose error is only logged.
abbrev pub logged : {S A : Type 0} → Exec S A → Exec S (Unit {0})
logged m = rescue (m >>= λ a. pure tt) (λ e. pure tt)
