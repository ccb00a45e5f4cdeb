-- ===== src/Volumes/Lifecycle/Keeps.antt =====
-- What attachInstanceBlockDeviceMappings and cleanupDeleteOnTerminationVolumesForInstances of
-- pkg/dc2/dispatcher_volume_lifecycle.go keep of the storage.
use Prim.Native.String.{◌++◌}
use dc.Prelude.{
  some, Option, is_empty, Bool-cases, String, Bool, not, List, [], ◌∷◌, ◌==◌, inl, inr,
  Option-cases,
}
use dc.Api.{Error, Result, ok, err, plain, wrapped, joined, invalid_parameter_value}
use dc.Api
use dc.Storage.{
  Resource, registered_resources, Storage, Attribute, volume_type, register_resource,
  remove_resource, set_resource_attributes, resource_attributes,
}
use dc.Dispatcher.{validate_tag_specifications}
use dc.LaunchTemplate.{Ebs, BlockDeviceMapping}
use dc.Executor.{VolumeDescription, Executor, World, runtime_id, api_instance_id}
use dc.Executor.Keeps.{
  Keeps, Stored, bind-Keeps, then-Keeps, rescue-Keeps, each-Keeps, pure-Keeps, raise-Keeps,
  gets-Keeps, reads-Keeps, lift-Keeps, wrap-Keeps, fail_if-Keeps, in_storage-Keeps, in_exe-Keeps,
}
use dc.Dispatcher.Names
use dc.Prelude.{Option, none, some, ◌||◌, is_empty, Bool-cases}
use dc.Volumes.Data.{
  attribute, CreateRequest, AttachRequest, find_volume, find_instance, executor_volume_id,
  zero_or_nil, size_in_bytes, or_zero, volume_id_prefix, volume_attributes, first_of, api_volume,
}
use dc.Volumes.{
  dispatch_create_volume, dispatch_attach_volume, dispatch_delete_volume, describe_volume, zone_of,
  answer,
}
use dc.Volumes.Lifecycle.{
  cleanup_volumes, cleanup_listed, cleanup_each, cleanup_volume, delete_if_attached, going_with,
  description_of, is_attached_to, join, executor_volume_ids, discard, attach_ebs, attach_mapping,
  attach_mappings, create_request, attach_request,
}

-- Whom a volume goes with.
abbrev pub owner_attributes : String → String → List Attribute
owner_attributes flag owner =
    attribute Names.delete_on_termination flag ∷ attribute Names.owner_instance_id owner ∷ []

-- A predicate that the calls of the storage for volumes keep.
pub record AllowsVolumes (Q : Storage → Type 0) : Type 0 where
  pub registers :
      (id : String) → Keeps Q (register_resource (record { type = volume_type; id = id }))
  pub fills :
      (id : String) (r : CreateRequest) (now : String)
      → Keeps Q (set_resource_attributes id (volume_attributes r now))
  pub gives :
      (id owner flag : String) → Keeps Q (set_resource_attributes id (owner_attributes flag owner))
  pub removes : (id : String) → Keeps Q (remove_resource id)

module _ {E : Type 0} (x : Executor E) (Q : Storage → Type 0)
    (removes : (id : String) → Keeps Q (remove_resource id)) where
  delete_volume-Keeps : (id : String) → Keeps (Stored Q) (dispatch_delete_volume x id)
  unfolding dispatch_delete_volume
  delete_volume-Keeps id = bind-Keeps (reads-Keeps (λ (w : World E). find_volume id w.storage)) λ v.
      bind-Keeps (lift-Keeps (executor_volume_id v.id)) λ runtime.
        then-Keeps (in_exe-Keeps Q (x.delete_volume runtime))
          (in_storage-Keeps (wrap-Keeps (removes v.id)))

module _ {E : Type 0} (x : Executor E) (Q : Storage → Type 0) where
  attach_volume-Keeps : (r : AttachRequest) → Keeps (Stored Q) (dispatch_attach_volume x r)
  unfolding dispatch_attach_volume
  attach_volume-Keeps r =
      bind-Keeps (reads-Keeps (λ (w : World E). find_volume r.volume_id w.storage)) λ v.
        bind-Keeps (reads-Keeps (λ (w : World E). find_instance r.instance_id w.storage)) λ i.
          bind-Keeps
            (wrap-Keeps (reads-Keeps (λ (w : World E). resource_attributes w.storage v.id)))
            λ vs.
              bind-Keeps
                (wrap-Keeps (reads-Keeps (λ (w : World E). resource_attributes w.storage i.id)))
                λ is. bind-Keeps (lift-Keeps (zone_of x vs)) λ a.
                  bind-Keeps (lift-Keeps (zone_of x is)) λ b.
                    then-Keeps
                      (fail_if-Keeps (not (a == b)) (invalid_parameter_value "AvailabilityZone"))
                      (then-Keeps (fail_if-Keeps r.dry_run Error.dry_run) (
                        bind-Keeps (lift-Keeps (executor_volume_id v.id)) λ volume.
                          bind-Keeps (lift-Keeps (runtime_id i.id)) λ runtime.
                            bind-Keeps (in_exe-Keeps Q (x.attach_volume r.device volume runtime))
                              λ c. pure-Keeps (answer x r c)))

module _ {E : Type 0} (x : Executor E) (is_time : String → Bool) (Q : Storage → Type 0)
    (allows : AllowsVolumes Q) where
  describe_volume-Keeps : (id : String) → Keeps (Stored Q) (describe_volume x is_time id)
  unfolding describe_volume
  describe_volume-Keeps id =
      bind-Keeps (wrap-Keeps (reads-Keeps (λ (w : World E). find_volume id w.storage))) λ v.
        bind-Keeps (wrap-Keeps (reads-Keeps (λ (w : World E). resource_attributes w.storage v.id)))
          λ attrs. bind-Keeps (lift-Keeps (executor_volume_id id)) λ runtime.
            bind-Keeps (in_exe-Keeps Q (x.describe_volumes (runtime ∷ []))) λ ds.
              bind-Keeps (lift-Keeps (first_of ds))
                λ d. lift-Keeps (Api.wrap (api_volume is_time id attrs d))

  create_volume-Keeps : (r : CreateRequest) → Keeps (Stored Q) (dispatch_create_volume x is_time r)
  unfolding dispatch_create_volume
  create_volume-Keeps r =
      then-Keeps (lift-Keeps (validate_tag_specifications r.tag_specifications volume_type)) (
        then-Keeps (fail_if-Keeps (zero_or_nil r.size) (invalid_parameter_value "Size")) (
          then-Keeps (fail_if-Keeps r.dry_run Error.dry_run) (
            bind-Keeps (gets-Keeps (λ (w : World E). x.now w.exe)) λ now.
              bind-Keeps (in_exe-Keeps Q (x.create_volume (size_in_bytes (or_zero r.size))))
                λ volume.
                  let id = volume_id_prefix ++ volume in
                  then-Keeps (in_storage-Keeps (wrap-Keeps (allows.registers id))) (
                    then-Keeps (in_storage-Keeps (wrap-Keeps (allows.fills id r now)))
                      (describe_volume-Keeps id)))))

  discard-Keeps : (v : String) (e : Error) → Keeps (Stored Q) (discard x is_time v e)
  discard-Keeps v e =
      then-Keeps
        (rescue-Keeps (delete_volume-Keeps x Q allows.removes v)
          (λ f. raise-Keeps (wrapped (joined e (wrapped f)))))
        (raise-Keeps (wrapped e))

  attach_ebs-Keeps :
      (id zone device : String) (ebs : Ebs)
      → Keeps (Stored Q) (attach_ebs x is_time id zone device ebs)
  unfolding attach_ebs
  attach_ebs-Keeps id zone device ebs =
      bind-Keeps (wrap-Keeps (create_volume-Keeps (create_request zone ebs))) λ v.
        then-Keeps (fail_if-Keeps (v.id == "") (plain "missing volume id in response")) (
          then-Keeps
            (rescue-Keeps
              (bind-Keeps (attach_volume-Keeps x Q (attach_request device id v.id))
                λ a. pure-Keeps tt)
              (discard-Keeps v.id))
            (rescue-Keeps (in_storage-Keeps (allows.gives v.id id _)) (discard-Keeps v.id)))

  attach_mapping-Keeps :
      (id zone : String) (m : BlockDeviceMapping)
      → Keeps (Stored Q) (attach_mapping x is_time id zone m)
  unfolding attach_mapping
  attach_mapping-Keeps id zone m = elim (Option-cases m.ebs) [
    | inl e ↦
        rw (e, attach_mapping) (raise-Keeps (invalid_parameter_value "BlockDeviceMapping.Ebs"))
    | inr (ebs, e) ↦ rw (e, attach_mapping) (attach_ebs-Keeps id zone m.device_name ebs)
  ]

  pub attach_mappings-Keeps :
      (ids : List String) (zone : String) (ms : List BlockDeviceMapping)
      → Keeps (Stored Q) (attach_mappings x is_time ids zone ms)
  unfolding attach_mappings
  attach_mappings-Keeps ids zone ms =
      each-Keeps ids λ id. each-Keeps ms (attach_mapping-Keeps (api_instance_id id) zone)

module _ {E : Type 0} (x : Executor E) (Q : Storage → Type 0)
    (removes : (id : String) → Keeps Q (remove_resource id)) where
  delete_if_attached-Keeps :
      (id owner : String) (ds : List VolumeDescription)
      → Keeps (Stored Q) (delete_if_attached x id owner ds)
  unfolding delete_if_attached
  delete_if_attached-Keeps id owner ds = elim (Option-cases (description_of id ds)) [
    | inl e ↦ rw (e, delete_if_attached) (pure-Keeps tt)
    | inr (d, e) ↦ elim (Bool-cases (is_attached_to owner d.attachments)) [
      | inl b ↦ rw (e, b, delete_if_attached) (wrap-Keeps (delete_volume-Keeps x Q removes id))
      | inr b ↦ rw (e, b, delete_if_attached) (pure-Keeps tt)
    ]
  ]

  cleanup_volume-Keeps :
      (ids : List String) (ds : List VolumeDescription) (v : Resource)
      → Keeps (Stored Q) (cleanup_volume x ids ds v)
  unfolding cleanup_volume
  cleanup_volume-Keeps ids ds v =
      bind-Keeps (wrap-Keeps (reads-Keeps (λ (w : World E). resource_attributes w.storage v.id)))
        λ attrs. bind-Keeps (lift-Keeps (going_with ids attrs)) λ owner. elim (Option-cases owner) [
          | inl e ↦ rw e (pure-Keeps tt)
          | inr (o, e) ↦ rw e (delete_if_attached-Keeps v.id o ds)
        ]

  cleanup_each-Keeps :
      (ids : List String) (ds : List VolumeDescription) (vs : List Resource) (result : Option Error)
      → Keeps (Stored Q) (cleanup_each x ids ds vs result)
  unfolding cleanup_each
  cleanup_each-Keeps ids ds [] none = pure-Keeps tt
  cleanup_each-Keeps ids ds [] (some e) = raise-Keeps e
  cleanup_each-Keeps ids ds (v ∷ vs) result =
      bind-Keeps
        (rescue-Keeps (then-Keeps (cleanup_volume-Keeps ids ds v) (pure-Keeps result))
          (λ e. pure-Keeps (some (join result e))))
        λ r. cleanup_each-Keeps ids ds vs r

  -- The cleanup keeps what the removal of volumes keeps.
  pub cleanup_volumes-Keeps : (ids : List String) → Keeps (Stored Q) (cleanup_volumes x ids)
  unfolding cleanup_volumes cleanup_listed
  cleanup_volumes-Keeps ids = record {
    run = λ w q.
        let volumes = registered_resources w.storage volume_type in
        elim (Bool-cases (is_empty ids || is_empty volumes)) [
          | inl b ↦ rw (b, cleanup_volumes) q
          | inr b ↦
              rw (b, cleanup_volumes)
                ((bind-Keeps (lift-Keeps (executor_volume_ids volumes)) λ runtime_ids.
                    bind-Keeps (in_exe-Keeps Q (x.describe_volumes runtime_ids))
                      λ ds. cleanup_each-Keeps ids ds volumes none).run
                  w q)
        ];
  }
