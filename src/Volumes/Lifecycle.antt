-- ===== src/Volumes/Lifecycle.antt =====
-- pkg/dc2/dispatcher_volume_lifecycle.go: the volumes that are made with an instance, and those that
-- go with it.
pub mod Cleanup
pub mod Keeps
use dc.Prelude.{
  String, Bool, true, false, ◌||◌, not, Option, none, some, List, [], ◌∷◌, ◌==◌, if◌then◌else◌,
  contains, is_empty,
}
use Prim.Native.String.{◌++◌}
use dc.Prelude.Strconv.{format_bool, parse_bool}
use dc.Api
use dc.Api.{Error, Result, ok, err, plain, wrapped, joined, invalid_parameter_value, is_panic}
use dc.Api.Exec
use dc.Api.Exec.{Exec, pure, raise, lift, reads, ◌>>=◌, ◌>>◌, fail_if}
use dc.Storage.{
  Resource, Attributes, volume_type, registered_resources, set_resource_attributes,
  resource_attributes, key_or_empty,
}
use dc.Dispatcher.Names
use dc.LaunchTemplate.{BlockDeviceMapping, Ebs}
use dc.Executor.{
  Executor, World, VolumeDescription, Attachment, in_storage, in_exe, api_instance_id, each,
}
use dc.Volumes.Data.{attribute, volume_id_prefix, executor_volume_id, CreateRequest, AttachRequest}
use dc.Volumes.{dispatch_create_volume, dispatch_attach_volume, dispatch_delete_volume}

abbrev or_gp3 : String → String
or_gp3 kind = if kind == "" then "gp3" else kind

abbrev create_request : String → Ebs → CreateRequest
create_request zone ebs = record {
  dry_run = false;
  availability_zone = zone;
  encrypted = ebs.encrypted;
  iops = ebs.iops;
  kms_key_id = ebs.kms_key_id;
  size = ebs.volume_size;
  throughput = ebs.throughput;
  volume_kind = or_gp3 ebs.volume_type;
  tag_specifications = [];
}

abbrev attach_request : String → String → String → AttachRequest
attach_request device id volume = record {
  dry_run = false;
  device = device;
  instance_id = id;
  volume_id = volume;
}

-- The last description of a volume, which is what the map keeps.
unfoldable pub description_of : String → List VolumeDescription → Option VolumeDescription
description_of id [] = none
description_of id (d ∷ ds) = elim (description_of id ds) [
  | some e ↦ some e
  | none ↦ if volume_id_prefix ++ d.id == id then some d else none
]

unfoldable pub is_attached_to : String → List Attachment → Bool
is_attached_to owner [] = false
is_attached_to owner (a ∷ attachments) =
    api_instance_id a.instance_id == owner || is_attached_to owner attachments

-- `errors.Join(result, err)`
abbrev join : Option Error → Error → Error
join none e = e
join (some f) e = joined f e

executor_volume_ids : List Resource → Result (List String)
executor_volume_ids [] = ok []
executor_volume_ids (v ∷ vs) =
    Api.◌>>=◌ (executor_volume_id v.id)
      (λ id. Api.◌>>=◌ (executor_volume_ids vs) (λ ids. ok (id ∷ ids)))

-- Whether the volume goes with one of the instances: the owner, if its flag says so.
going_with : List String → Attributes → Result (Option String)
going_with ids attrs =
    let raw = key_or_empty attrs Names.delete_on_termination in
    if raw == "" then ok none else elim (parse_bool raw) [
      | none ↦ err (wrapped (plain "syntax"))
      | some false ↦ ok none
      | some true ↦
          let owner = key_or_empty attrs Names.owner_instance_id in
          if owner == "" || not (contains ids owner) then ok none else ok (some owner)
    ]

module _ {E : Type 0} (x : Executor E) (is_time : String → Bool) where
  -- What the handlers do with a volume that cannot be attached.
  abbrev discard : String → Error → Exec (World E) (Unit {0})
  discard volume e =
      Exec.rescue (dispatch_delete_volume x volume) (λ f. raise (wrapped (joined e (wrapped f))))
      >> raise (wrapped e)

  attach_ebs : String → String → String → Ebs → Exec (World E) (Unit {0})
  attach_ebs id zone device ebs = do
    v ← Exec.wrap (dispatch_create_volume x is_time (create_request zone ebs))
    fail_if (v.id == "") (plain "missing volume id in response")
    Exec.rescue (dispatch_attach_volume x (attach_request device id v.id) >>= λ a. pure tt)
        (discard v.id)
    Exec.rescue
        (in_storage (
          set_resource_attributes v.id (
            attribute Names.delete_on_termination (format_bool ebs.delete_on_termination)
            ∷ attribute Names.owner_instance_id id
            ∷ [])))
        (discard v.id)

  attach_mapping : String → String → BlockDeviceMapping → Exec (World E) (Unit {0})
  unfolding attach_ebs
  attach_mapping id zone m = elim m.ebs [
    | none ↦ raise (invalid_parameter_value "BlockDeviceMapping.Ebs")
    | some ebs ↦ attach_ebs id zone m.device_name ebs
  ]

  -- attachInstanceBlockDeviceMappings; the ids are the executor's.
  unfoldable pub attach_mappings :
      List String → String → List BlockDeviceMapping → Exec (World E) (Unit {0})
  unfolding attach_mapping
  attach_mappings ids zone mappings =
      each (λ id. each (attach_mapping (api_instance_id id) zone) mappings) ids

module _ {E : Type 0} (x : Executor E) where
  delete_if_attached : String → String → List VolumeDescription → Exec (World E) (Unit {0})
  delete_if_attached id owner ds = elim (description_of id ds) [
    | none ↦ pure tt
    | some d ↦
        if is_attached_to owner d.attachments
        then Exec.wrap (dispatch_delete_volume x id)
        else pure tt
  ]

  -- One turn of the loop of cleanupDeleteOnTerminationVolumesForInstances.
  cleanup_volume : List String → List VolumeDescription → Resource → Exec (World E) (Unit {0})
  unfolding going_with delete_if_attached
  cleanup_volume ids ds v =
      Exec.wrap (reads (λ (w : World E). resource_attributes w.storage v.id)) >>= λ attrs.
      lift (going_with ids attrs) >>= λ owner. elim owner [
        | none ↦ pure tt
        | some o ↦ delete_if_attached v.id o ds
      ]

  -- The loop goes on after an error and returns all of them.
  cleanup_each :
      List String
      → List VolumeDescription
      → List Resource
      → Option Error
      → Exec (World E) (Unit {0})
  unfolding cleanup_volume
  cleanup_each ids ds [] none = pure tt
  cleanup_each ids ds [] (some e) = raise e
  cleanup_each ids ds (v ∷ vs) result =
      Exec.rescue (cleanup_volume ids ds v >> pure result) (λ e. pure (some (join result e)))
      >>= cleanup_each ids ds vs

  cleanup_listed : List String → List Resource → Exec (World E) (Unit {0})
  unfolding cleanup_each executor_volume_ids
  cleanup_listed ids volumes = do
    runtime_ids ← lift (executor_volume_ids volumes)
    ds ← in_exe (x.describe_volumes runtime_ids)
    cleanup_each ids ds volumes none

  -- cleanupDeleteOnTerminationVolumesForInstances
  unfoldable pub cleanup_volumes : List String → Exec (World E) (Unit {0})
  unfolding cleanup_listed
  cleanup_volumes ids w =
      let volumes = registered_resources w.storage volume_type in
      if is_empty ids || is_empty volumes then (w, ok tt) else cleanup_listed ids volumes w
