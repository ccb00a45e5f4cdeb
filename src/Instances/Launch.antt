-- ===== src/Instances/Launch.antt =====
-- dispatchRunInstances of pkg/dc2/dispatcher_instance.go, and how it undoes a launch that failed.
pub mod Request
pub mod Limits
pub mod Undo
pub mod Rollback
use Prim.Native.String.{◌++◌ as ◌<>◌}
use dc.Prelude.{
  ℕ, leb, String, Bool, true, false, not, ◌&&◌, Option, none, some, List, [], ◌∷◌, ◌++◌, ◌==◌,
  if◌then◌else◌, map, is_empty,
}
use dc.Prelude.Int.{ℤ, pos, leb_ℤ}
use dc.Prelude.Text.{trim_space, after_prefix?, codes}
use dc.Api.{Error, Result, ok, err, invalid_parameter_value}
use dc.Api
use dc.Api.Exec
use dc.Api.Exec.{Exec, pure, raise, lift, gets, reads, ◌>>=◌, ◌>>◌, rescue}
use dc.Storage.{
  Storage, Attribute, Resource, instance_type, register_resource, remove_resource,
  set_resource_attributes, resource_attributes, find_key, tag_attribute_name,
}
use dc.Imds.{set_tags}
use dc.Dispatcher.{Tag, TagSpecification, instance_id_prefix}
use dc.Dispatcher.Names
use dc.TestProfile.{Profile, Hook, before, after, Phase, MatchInput}
use dc.TestProfile
use dc.Spot.{
  MarketOptions, LaunchOptions, TagMap, spot, resolve_run_instances_spot_options,
  validate_run_instances_tag_specifications, split_run_instances_tags,
}
use dc.Spot.Names as SpotNames
use dc.Spot.Plan.{ReclaimPlan, resolve_spot_reclaim_plan}
use dc.Spot.Requests.{register_spot_request}
use dc.Spot.Schedule.{schedule_spot_reclaim}
use dc.LaunchTemplate.{BlockDeviceMapping, Json, validate_block_device_mappings}
use dc.LaunchTemplate.Load.{Template}
use dc.LaunchTemplate.Find.{
  Specification, find_launch_template, linkage_tag_attributes, ensure_linkage_tags,
}
use dc.Volumes.Data.{attribute}
use dc.Volumes.Lifecycle.{attach_mappings, cleanup_volumes}
use dc.Executor.{
  Executor, World, Description, CreateInstances, in_storage, in_imds, in_exe, cancel_reclaim,
  api_instance_id, each,
}
use dc.Instances.Lifecycle.{Settings, match_input_for_group, apply_delay}
use dc.Instances.Handlers.{reset_imds}
use dc.Instances.Describe.{
  Library, Instance, api_instance, default_subnet_id, subnet_vpc_id, or_given,
}
use dc.Instances.Describe.Handlers.{api_instances}
use dc.Instances.Launch.Request.{
  RunInstances, Launch, Prepared, Outside, requested, filled_from, run_instances_availability_zone,
  run_instances_subnet_id, normalize_user_data, instance_tags, launch_attributes, answer_of,
  answers_after, logged,
}

module _ {R : Type 0} (outside : Outside R) (o : Settings) where
  -- resolveRunInstancesLaunchParameters
  launch_parameters : RunInstances → Storage → Result Launch
  unfolding filled_from
  launch_parameters r s =
      let filled : Result Launch = elim r.template [
        | none ↦ ok (requested r)
        | some spec ↦
            Api.◌>>=◌ (find_launch_template outside.json o.is_time spec s)
              (λ t. ok (filled_from t (requested r)))
      ] in
      Api.◌>>=◌ filled λ l.
        Api.◌>>◌ (Api.fail_if (l.image_id == "") (invalid_parameter_value "ImageId")) (
          Api.◌>>◌ (Api.fail_if (l.instance_kind == "") (invalid_parameter_value "InstanceType"))
            (ok l))

  -- The part of dispatchRunInstances before the first delay.
  prepare : RunInstances → Storage → Result Prepared
  unfolding launch_parameters
  prepare r s =
      Api.◌>>=◌ (resolve_run_instances_spot_options outside.rejects r.market_options) λ options.
        Api.◌>>=◌ (launch_parameters r s) λ l.
          let input = record (match_input_for_group o l.instance_kind "") {
            market_type = options.market_type;
          } in
          Api.◌>>◌
            (validate_run_instances_tag_specifications r.tag_specifications options.market_type)
            (Api.◌>>◌ (validate_block_device_mappings l.block_device_mappings "BlockDeviceMapping")
              (Api.◌>>=◌ (run_instances_availability_zone o.region r.availability_zone) λ zone.
                ok (record {
                  options = options;
                  launch = l;
                  input = input;
                  plan = resolve_spot_reclaim_plan o.reclaim o.profile input options.market_type;
                  zone = zone;
                  subnet = run_instances_subnet_id r.subnet_id;
                })))

  abbrev creation : RunInstances → Prepared → CreateInstances
  creation r p = record {
    image_id = p.launch.image_id;
    instance_kind = p.launch.instance_kind;
    count = r.max_count;
    user_data = normalize_user_data outside.lib p.launch.user_data;
  }

  module _ {E : Type 0} (x : Executor E) where
    -- The spot request of an instance, as an attribute of it.
    spot_request :
        RunInstances → Prepared → Option String → String → Exec (World E) (List Attribute)
    spot_request r p answer id w =
        let tags = (split_run_instances_tags r.tag_specifications).1 in
        let register =
          register_spot_request answer id p.launch.instance_kind p.options tags (x.now w.exe) in
        if p.options.market_type == spot
        then (in_storage register >>= λ request. pure (attribute SpotNames.request_id request ∷ []))
            w
        else (w, ok [])

    -- One turn of the loop that registers the instances.
    register_instance : RunInstances → Prepared → Option String → String → Exec (World E) (Unit {0})
    unfolding spot_request launch_attributes
    register_instance r p answer runtime =
        let id = api_instance_id runtime in
        spot_request r p answer id >>= λ request.
        in_storage (Exec.wrap (register_resource (record { type = instance_type; id = id })))
        >> (in_storage (
              Exec.wrap (set_resource_attributes id (launch_attributes outside.lib r p ++ request)))
            >> in_imds (set_tags runtime (instance_tags r p)))

    register_instances :
        RunInstances → Prepared → List (Option String) → List String → Exec (World E) (Unit {0})
    unfolding register_instance
    register_instances r p answers [] = pure tt
    register_instances r p answers (id ∷ ids) =
        register_instance r p (answer_of answers) id
        >> register_instances r p (answers_after answers) ids

    schedule_reclaim : ReclaimPlan → String → Exec (World E) (Unit {0})
    schedule_reclaim plan id w = elim (schedule_spot_reclaim id plan w.spot) [
      | none ↦ (w, err Error.panics)
      | some spot' ↦ (record w { spot = spot' }, ok tt)
    ]

    -- What follows the delay after CreateInstances, up to the answer.
    pub complete_launch :
        RunInstances
        → Prepared
        → List (Option String)
        → List String
        → Exec (World E) (List Instance)
    unfolding register_instances
    complete_launch r p answers ids = do
      apply_delay x o after TestProfile.allocate (p.input ∷ [])
      register_instances r p answers ids
      apply_delay x o before TestProfile.start (p.input ∷ [])
      changes ← in_exe (x.start_instances ids)
      apply_delay x o after TestProfile.start (p.input ∷ [])
      attach_mappings x o.is_time ids p.zone p.launch.block_device_mappings
      ds ← in_exe (x.describe_instances ids)
      api_instances x outside.lib o.region ds

    remove_request : Option String → Exec (World E) (Unit {0})
    remove_request none = pure tt
    remove_request (some request) =
        if request == "" then pure tt else logged (in_storage (remove_resource request))

    undo_request : String → Exec (World E) (Unit {0})
    unfolding remove_request
    undo_request id w = elim (resource_attributes w.storage id) [
      | err e ↦ (w, ok tt)
      | ok attrs ↦ remove_request (find_key attrs SpotNames.request_id) w
    ]

    -- One turn of the loop of cleanupFailedRunInstancesLaunch.
    undo_instance : String → Exec (World E) (Unit {0})
    unfolding undo_request
    undo_instance runtime =
        cancel_reclaim (api_instance_id runtime)
        >> (undo_request (api_instance_id runtime)
            >> (logged (in_storage (remove_resource (api_instance_id runtime)))
                >> in_imds (reset_imds runtime)))

    -- cleanupFailedRunInstancesLaunch
    unfoldable pub cleanup_failed_launch : List String → Exec (World E) (Unit {0})
    unfolding undo_instance
    cleanup_failed_launch [] = pure tt
    cleanup_failed_launch (id ∷ ids) = do
      logged (in_exe (x.terminate_instances (id ∷ ids) false))
      each undo_instance (id ∷ ids)
      logged (cleanup_volumes x (map api_instance_id (id ∷ ids)))

    -- complete_launch, undone if it fails
    launch_or_undo :
        RunInstances
        → Prepared
        → List (Option String)
        → List String
        → Exec (World E) (List Instance)
    unfolding complete_launch
    launch_or_undo r p answers ids =
        rescue (complete_launch r p answers ids) (λ e. cleanup_failed_launch ids >> raise e)

    schedule_reclaims : ReclaimPlan → List Instance → Exec (World E) (Unit {0})
    unfolding schedule_reclaim
    schedule_reclaims plan instances =
        if leb_ℤ plan.after (pos 0)
        then pure tt
        else each (schedule_reclaim plan) (map (λ (i : Instance). i.id) instances)

    -- dispatchRunInstances
    unfoldable pub dispatch_run_instances :
        List (Option String) → RunInstances → Exec (World E) (List Instance)
    unfolding prepare launch_or_undo schedule_reclaims
    dispatch_run_instances answers r = do
      p ← reads (λ (w : World E). prepare r w.storage)
      apply_delay x o before TestProfile.allocate (p.input ∷ [])
      ids ← in_exe (x.create_instances (creation r p))
      instances ← launch_or_undo r p answers ids
      schedule_reclaims p.plan instances
      pure instances
