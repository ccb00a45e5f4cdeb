-- ===== src/Volumes.antt =====
-- pkg/dc2/dispatcher_volume.go: the handlers of volumes. The mappings of an instance and the cleanup
-- when it ends are in Volumes/Lifecycle.
pub mod Data
pub mod Lifecycle
use dc.Prelude.{
  ℕ, suc, ◌*◌, ◌/◌, ◌+◌, String, Bool, true, false, ◌&&◌, not, Option, none, some, List, [], ◌∷◌,
  ◌++◌, map, ◌==◌, if◌then◌else◌,
}
use Prim.Native.String.{◌++◌ as ◌<>◌}
use dc.Prelude.Int.{ℤ, pos, negsuc, sub_ℕ, wrap64}
use dc.Prelude.Text.{after_first?}
use dc.Prelude.Strconv.{format_int, format_bool, parse_bool, parse_int}
use dc.Api
use dc.Api.{Error, Result, ok, err, plain, wrapped, invalid_parameter_value, is_not_found}
use dc.Api.Exec
use dc.Api.Exec.{Exec, pure, raise, lift, reads, ◌>>=◌, ◌>>◌, fail_if}
use dc.Storage.{
  Storage, Resource, Attribute, Attributes, ResourceType, volume_type, instance_type,
  register_resource, remove_resource, set_resource_attributes, resource_attributes, find_key,
  key_or_empty, is_tag, tag_key, tag_attribute_name,
}
use dc.Dispatcher.{Tag, TagSpecification, find_resource, validate_tag_specifications, parse_attr}
use dc.Dispatcher.Filters.{Filter, apply_filters}
use dc.Dispatcher.Paging.{apply_next_token}
use dc.Dispatcher.Names
use dc.Volumes.Data.{
  volume_id_prefix, executor_volume_id, CreateRequest, AttachRequest, DescribeRequest,
  VolumeAttachment, Volume, find_volume, find_instance, api_volume, first_of, or_zero, zero_or_nil,
  volume_attributes, size_in_bytes,
}
use dc.Executor.{
  Executor, World, VolumeDescription, Attachment, in_storage, in_exe, api_instance_id, runtime_id,
}

module _ {E : Type 0} (x : Executor E) where
  unfoldable pub dispatch_delete_volume : String → Exec (World E) (Unit {0})
  dispatch_delete_volume id = do
    v ← reads (λ (w : World E). find_volume id w.storage)
    runtime ← lift (executor_volume_id v.id)
    in_exe (x.delete_volume runtime)
    in_storage (Exec.wrap (remove_resource v.id))

  -- The attachment of the answer never says that the volume goes with the instance.
  answer : AttachRequest → Attachment → VolumeAttachment
  answer r a = record {
    attach_time = a.attach_time;
    device = r.device;
    instance_id = r.instance_id;
    delete_on_termination = false;
  }

  abbrev zone_of : Attributes → Result String
  zone_of attrs = elim (find_key attrs Names.availability_zone) [
    | none ↦ err (plain "missing availability zone")
    | some z ↦ ok z
  ]

  unfoldable pub dispatch_attach_volume : AttachRequest → Exec (World E) VolumeAttachment
  unfolding answer
  dispatch_attach_volume r = do
    v ← reads (λ (w : World E). find_volume r.volume_id w.storage)
    i ← reads (λ (w : World E). find_instance r.instance_id w.storage)
    volume_attrs ← Exec.wrap (reads (λ (w : World E). resource_attributes w.storage v.id))
    instance_attrs ← Exec.wrap (reads (λ (w : World E). resource_attributes w.storage i.id))
    volume_zone ← lift (zone_of volume_attrs)
    instance_zone ← lift (zone_of instance_attrs)
    fail_if (not (volume_zone == instance_zone)) (invalid_parameter_value "AvailabilityZone")
    fail_if r.dry_run Error.dry_run
    volume ← lift (executor_volume_id v.id)
    runtime ← lift (runtime_id i.id)
    a ← in_exe (x.attach_volume r.device volume runtime)
    pure (answer r a)

  unfoldable pub dispatch_detach_volume : AttachRequest → Exec (World E) VolumeAttachment
  unfolding answer
  dispatch_detach_volume r = do
    v ← reads (λ (w : World E). find_volume r.volume_id w.storage)
    i ← reads (λ (w : World E). find_instance r.instance_id w.storage)
    fail_if r.dry_run Error.dry_run
    volume ← lift (executor_volume_id v.id)
    runtime ← lift (runtime_id i.id)
    a ← in_exe (x.detach_volume r.device volume runtime)
    pure (answer r a)

module _ {E : Type 0} (x : Executor E) (is_time : String → Bool) where
  -- describeVolume
  unfoldable pub describe_volume : String → Exec (World E) Volume
  describe_volume id = do
    v ← Exec.wrap (reads (λ (w : World E). find_volume id w.storage))
    attrs ← Exec.wrap (reads (λ (w : World E). resource_attributes w.storage v.id))
    runtime ← lift (executor_volume_id id)
    ds ← in_exe (x.describe_volumes (runtime ∷ []))
    d ← lift (first_of ds)
    lift (Api.wrap (api_volume is_time id attrs d))

  unfoldable pub dispatch_create_volume : CreateRequest → Exec (World E) Volume
  dispatch_create_volume r = do
    lift (validate_tag_specifications r.tag_specifications volume_type)
    fail_if (zero_or_nil r.size) (invalid_parameter_value "Size")
    fail_if r.dry_run Error.dry_run
    now ← Exec.gets (λ (w : World E). x.now w.exe)
    volume ← in_exe (x.create_volume (size_in_bytes (or_zero r.size)))
    let id = volume_id_prefix <> volume
    in_storage (Exec.wrap (register_resource (record { type = volume_type; id = id })))
    in_storage (Exec.wrap (set_resource_attributes id (volume_attributes r now)))
    describe_volume id

  describe_each : List String → Exec (World E) (List Volume)
  describe_each [] = pure []
  describe_each (id ∷ ids) = do v ← describe_volume id; vs ← describe_each ids; pure (v ∷ vs)

  unfoldable pub dispatch_describe_volumes :
      DescribeRequest → Exec (World E) (List Volume × Option String)
  unfolding describe_each
  dispatch_describe_volumes r = do
    ids ← reads (λ (w : World E). apply_filters w.storage volume_type r.volume_ids r.filters)
    fail_if r.dry_run Error.dry_run
    volumes ← describe_each ids
    lift (apply_next_token volumes r.next_token r.max_results)
