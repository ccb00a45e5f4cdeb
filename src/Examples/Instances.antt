-- ===== src/Examples/Instances.antt =====
-- An instance with a volume that goes with it: the theorems about the handlers of instances of
-- pkg/dc2/dispatcher_instance.go and about the volumes that go with them.
use dc.Prelude.{String, ◌≡◌, refl, true, false, none, some, List, [], ◌∷◌, All}
use dc.Prelude.Int.{pos}
use dc.Api.{ok, err, plain, is_panic}
use dc.Api.Exec.{Exec}
use dc.Storage.{new_memory_storage, instance_type, volume_type}
use dc.Storage.Invariant.{IsValid, IsValid-new}
use dc.Storage.Calls.{register, set, Call, calls, calls-IsValid}
use dc.Imds.{new_imds}
use dc.Spot.Schedule.{no_jobs}
use dc.AutoScaling.WarmJobs.{no_warm_jobs}
use dc.Spot.Plan.{no_plan}
use dc.Dispatcher.Names
use dc.Dispatcher.Filters.{Filter}
use dc.Executor.{Executor, World, StateChange, Attachment}
use dc.Volumes.Data.{attribute}
use dc.Volumes.Lifecycle.{cleanup_volumes}
use dc.Volumes.Lifecycle.Cleanup.{OnlyVolumesGone, cleanup_volumes-OnlyVolumesGone}
use dc.Instances.Lifecycle.{Settings}
use dc.Instances.Handlers.{terminate_with_state_reason}
use dc.Instances.Handlers.Reset.{IsForgotten, terminate_with_state_reason-IsForgotten}
use dc.Prelude.Sorting.{sort_by, find_by}
use dc.Prelude.Text.{after_first?, lt_text, has_prefix, after_prefix?}
use dc.Prelude.Strconv.{parse_bool}
use dc.Api.{wrapped, is_not_found}
use dc.Storage.{
  registered_resources, set_resource_attributes, lookup, register_resource, insert, same_type,
  resource_attributes, find_key, delete, remove_resource, remove_resource_attributes,
}
use dc.Storage.Calls.{call}
use dc.Storage.Kinds.{kind_of}
use dc.Dispatcher.{find_resource, executor_instance_id}
use dc.LaunchTemplate.{Codec}
use dc.Executor.{each, executor_instance_ids, runtime_id}
use dc.Spot.Requests.{close_spot_request}
use dc.Volumes.{dispatch_delete_volume}
use dc.Volumes.Data.{executor_volume_id, find_volume}
use dc.Volumes.Lifecycle.{description_of, is_attached_to}
use dc.Instances.Lifecycle.{stop_instances, terminate_instances, apply_delay}
use dc.Instances.Describe.{Instance}
use dc.Instances.Describe.Filters.{
  split_instance_filters, apply_instance_filters, instance_matches_all_filters,
}
use dc.Instances.Describe.Filters.Agreement.{keeps_all, selected, apply_instance_filters-matches}
use dc.Instances.Launch.Request.{RunInstances, Outside}
use dc.Instances.Launch.{dispatch_run_instances}
use dc.Instances.Launch.Rollback.{dispatch_run_instances-rolls_back}
use dc.Prelude.Text.{trim_space}
use dc.Storage.View.{view}
use dc.Imds.{set_tags}
use dc.Spot.{
  resolve_run_instances_spot_options, validate_run_instances_tag_specifications,
  split_run_instances_tags,
}
use dc.LaunchTemplate.{validate_block_device_mappings}
use dc.LaunchTemplate.Find.{linkage_tag_attributes, ensure_linkage_tags}
use dc.Instances.Launch.Request.{run_instances_availability_zone}
use dc.Instances.Launch.{cleanup_failed_launch}
use dc.Instances.Describe.{subnet_vpc_id}
use dc.Instances.Lifecycle.{profile_delay, match_input_for_group}

-- An executor with the instance "a" and the volume "v", which is attached to it.
abbrev answers {ℓ} : {A : Type ℓ} → A → Exec (Unit {0}) A
answers a s = (s, ok a)

abbrev attached : Attachment
attached = record { device = "sdf"; instance_id = "a"; attach_time = "t" }

abbrev ended : StateChange
ended = record { id = "a"; current = "terminated"; previous = "running" }

abbrev pub toy : Executor (Unit {0})
toy = record {
  create_instances = λ r. answers ("b" ∷ []);
  describe_instances = λ ids. answers [];
  start_instances = λ ids s. (s, err (plain "no image"));
  stop_instances = λ ids force. answers [];
  terminate_instances = λ ids force. answers (ended ∷ []);
  create_volume = λ size. answers "v";
  delete_volume = λ id. answers tt;
  describe_volumes =
      λ ids. answers (record { id = "v"; size = pos 1; attachments = attached ∷ [] } ∷ []);
  attach_volume = λ device volume id. answers attached;
  detach_volume = λ device volume id. answers attached;
  wait = λ d. answers tt;
  now = λ s. "now";
}

abbrev pub settings : Settings
settings = record {
  region = "eu";
  profile = none;
  reclaim = no_plan;
  vcpus = λ kind. none;
  memory = λ kind. none;
  gmt = λ t. t;
  is_time = λ t. true;
}

abbrev setup : List Call
setup =
    register (record { type = instance_type; id = "i-a" })
    ∷ register (record { type = volume_type; id = "vol-v" })
    ∷ set "vol-v" (
        attribute Names.delete_on_termination "true" ∷ attribute Names.owner_instance_id "i-a" ∷ [])
    ∷ []

abbrev pub start : World (Unit {0})
start = record {
  storage = (calls setup new_memory_storage).0;
  spot = no_jobs new_imds 0;
  warm = no_warm_jobs;
  exe = tt;
}

start-IsValid : IsValid start.storage
start-IsValid = calls-IsValid setup new_memory_storage IsValid-new

cleanup_volumes-OnlyVolumesGone_example :
    OnlyVolumesGone ("i-a" ∷ []) start.storage (cleanup_volumes toy ("i-a" ∷ []) start).0.storage
cleanup_volumes-OnlyVolumesGone_example =
    cleanup_volumes-OnlyVolumesGone toy ("i-a" ∷ []) start start-IsValid

-- The cleanup of the example deletes the volume.
volume_gone : (cleanup_volumes toy ("i-a" ∷ []) start).1 ≡ ok tt
unfolding cleanup_volumes calls registered_resources sort_by set_resource_attributes lookup
    register_resource insert same_type executor_volume_id after_first? resource_attributes find_key
    lt_text parse_bool description_of is_attached_to dispatch_delete_volume find_volume is_not_found
    is_panic find_resource find_by call delete remove_resource remove_resource_attributes
volume_gone = refl

abbrev stopped_changes : List StateChange
stopped_changes = record ended { id = "i-a" } ∷ []

terminates :
    (terminate_with_state_reason toy settings ("i-a" ∷ []) "" "code" "message" false start).1
    ≡ ok stopped_changes
unfolding terminate_with_state_reason stop_instances cleanup_volumes calls registered_resources
    sort_by set_resource_attributes lookup register_resource insert same_type executor_volume_id
    after_first? resource_attributes find_key lt_text parse_bool description_of is_attached_to
    dispatch_delete_volume find_volume is_not_found is_panic find_resource find_by call delete
    remove_resource remove_resource_attributes each executor_instance_ids runtime_id
    executor_instance_id apply_delay terminate_instances close_spot_request
    dc.Instances.Lifecycle.description_of
terminates = refl

terminate_with_state_reason-IsForgotten_example :
    All
      (λ id.
        IsForgotten id
          (terminate_with_state_reason toy settings ("i-a" ∷ []) "" "code" "message" false start).0)
      ("i-a" ∷ [])
terminate_with_state_reason-IsForgotten_example =
    terminate_with_state_reason-IsForgotten toy settings ("i-a" ∷ []) "" "code" "message" false
      start stopped_changes terminates

abbrev codec : {A : Type 0} → Codec A
codec = record { marshal = λ a. none; unmarshal = λ s. none }

abbrev pub outside : Outside String
outside = record {
  rejects = λ s. false;
  json = record { requirements = codec; strings = codec; mappings = codec };
  lib = record {
    ipv4 = λ s. none;
    sha1 = λ s. [];
    parse_time = λ s. none;
    since = λ s t. pos 0;
    decode = λ s. none;
    decode_raw = λ s. none;
  };
}

abbrev request : RunInstances
request = record {
  image_id = "image";
  instance_kind = "kind";
  template = none;
  market_options = none;
  subnet_id = "";
  key_name = "";
  user_data = "";
  max_count = pos 1;
  block_device_mappings = [];
  tag_specifications = [];
  availability_zone = "";
}

-- The executor cannot start what it has created.
run_fails :
    (dispatch_run_instances outside settings toy [] request start).1
    ≡ err (wrapped (plain "no image"))
unfolding dispatch_run_instances resolve_run_instances_spot_options trim_space
    validate_run_instances_tag_specifications validate_block_device_mappings
    run_instances_availability_zone apply_delay profile_delay register_resource lookup calls call
    set_resource_attributes insert is_panic cleanup_failed_launch each resource_attributes find_key
    remove_resource delete cleanup_volumes registered_resources same_type sort_by lt_text
    executor_volume_id after_first? parse_bool description_of is_attached_to linkage_tag_attributes
    ensure_linkage_tags split_run_instances_tags subnet_vpc_id match_input_for_group set_tags
run_fails = refl

still_there :
    kind_of (dispatch_run_instances outside settings toy [] request start).0.storage "i-a"
    ≡ some instance_type
unfolding view dispatch_run_instances resolve_run_instances_spot_options trim_space
    validate_run_instances_tag_specifications validate_block_device_mappings
    run_instances_availability_zone apply_delay profile_delay register_resource lookup calls call
    set_resource_attributes insert is_panic cleanup_failed_launch each resource_attributes find_key
    remove_resource delete cleanup_volumes registered_resources same_type sort_by lt_text
    executor_volume_id after_first? parse_bool description_of is_attached_to linkage_tag_attributes
    ensure_linkage_tags split_run_instances_tags subnet_vpc_id match_input_for_group set_tags
still_there = refl

dispatch_run_instances-rolls_back_example : kind_of start.storage "i-a" ≡ some instance_type
unfolding is_panic
dispatch_run_instances-rolls_back_example =
    dispatch_run_instances-rolls_back outside settings toy [] request start
      (wrapped (plain "no image")) start-IsValid refl run_fails "i-a" still_there

abbrev seen : Instance
seen = record {
  id = "i-a";
  image_id = "image";
  state = "running";
  transition_reason = "";
  state_reason = none;
  private_dns_name = "";
  dns_name = "";
  key_name = "";
  instance_kind = "kind";
  lifecycle = none;
  launch_time = "t";
  architecture = "";
  subnet_id = "";
  vpc_id = "";
  private_ip = "";
  public_ip = "";
  interfaces = [];
  endpoint = some true;
  tags = [];
  availability_zone = "eua";
}

abbrev by_state : Filter
by_state = record { name = some "instance-state-name"; values = some ("running" ∷ []) }

by_state_split : split_instance_filters (by_state ∷ []) ≡ ok ([], by_state ∷ [])
unfolding split_instance_filters has_prefix after_prefix?
by_state_split = refl

apply_instance_filters-matches_example :
    ((i : Instance)
      → instance_matches_all_filters i (by_state ∷ []) ≡ ok (keeps_all (by_state ∷ []) i))
    × (apply_instance_filters (seen ∷ []) (by_state ∷ [])
        ≡ ok (selected (keeps_all (by_state ∷ [])) (seen ∷ [])))
apply_instance_filters-matches_example =
    apply_instance_filters-matches (by_state ∷ []) [] (by_state ∷ []) (seen ∷ []) by_state_split
