-- ===== src/AutoScaling/Handlers/Changes/Keeps.antt =====
-- The handlers of pkg/dc2/dispatcher_autoscaling.go leave the sizes of groups in order, in every course.
use dc.Prelude.{
  String, refl, Bool, true, not, Option, none, some, List, [], ◌∷◌, ◌++◌, ◌&&◌, inl, inr, is_empty,
}
use dc.Prelude.Int.{ℤ}
use dc.Api.{Result-cases, with_code}
use dc.Api.Exec.{Exec, ◌>>=◌}
use dc.Storage.{Resource, auto_scaling_group_type, register_resource, registered_resources}
use dc.LaunchTemplate.Load.{validation_error}
use dc.Executor.{Executor, World}
use dc.Executor.Keeps.{
  Keeps, bind-Keeps, then-Keeps, pure-Keeps, raise-Keeps, lift-Keeps, in_storage-Keeps,
  lift_then-Keeps, reads_then-Keeps, rescue-Keeps, each-Keeps, wrap-Keeps, reads-Keeps,
  fail_if-Keeps,
}
use dc.Instances.Lifecycle.{Settings}
use dc.Instances.Describe.{Library}
use dc.AutoScaling.Groups.{Group, validate_desired_capacity}
use dc.AutoScaling.InOrder.{
  InOrder, NoSizes, is_size, register-InOrder, remove-InOrder, set-InOrder, unset-InOrder,
}
use dc.AutoScaling.Stored.{load_group}
use dc.AutoScaling.Stored.Sizes.{load_group-IsSized, save_group-InOrder}
use dc.AutoScaling.Members.Keeps.{
  Ordered, terminate_members-Keeps, group_instance_ids-Keeps, warm_instance_ids-Keeps,
}
use dc.AutoScaling.Resize.Keeps.{scale_group_to-Keeps}
use dc.AutoScaling.Template.{Catalog}
use dc.AutoScaling.Tags.{GroupTag, tags_of_group}
use dc.AutoScaling.Tags.Keeps.{tags_of_group-NoSizes}
use dc.AutoScaling.Handlers.{
  CreateGroup, DetachInstances, ids_to_detach, capacity_after, detach_keys, load, save,
  cancel_deletion, prepare_group,
}
use dc.AutoScaling.Handlers.Sizes.{IsSized, capacity_after-IsSized}
use dc.AutoScaling.Handlers.Sizes.Evolution.{prepare_group-IsSized}
use dc.AutoScaling.Handlers.Changes.{
  refuse_duplicate, tag_group, scale, fill_group, dispatch_create_auto_scaling_group, scale_checked,
  dispatch_set_desired_capacity, detach, dispatch_detach_instances, found_group,
  dispatch_delete_auto_scaling_group, reconcile, reconcile_all_groups,
}

detach_keys-NoSizes : NoSizes detach_keys
unfolding detach_keys is_size
detach_keys-NoSizes = (refl, (refl, (refl, tt)))

tag_group-Keeps : (name : String) (ts : List GroupTag) → Keeps InOrder (tag_group name ts)
unfolding tag_group
tag_group-Keeps name [] = pure-Keeps tt
tag_group-Keeps name (t ∷ ts) =
    lift_then-Keeps (tags_of_group 0 name (t ∷ ts))
      λ attrs h. wrap-Keeps (set-InOrder name attrs (tags_of_group-NoSizes 0 name (t ∷ ts) attrs h))

refused-Keeps : (r : Resource) → Keeps InOrder (λ s. refuse_duplicate (register_resource r s))
refused-Keeps r = record {
  run = λ s q. elim (Result-cases (register_resource r s).1) [
    | inl (e, p) ↦ rw p ((register-InOrder r).run s q)
    | inr (u, p) ↦ rw p ((register-InOrder r).run s q)
  ];
}

module _ {R : Type 0} (c : Catalog R) (lib : Library) {E : Type 0} (x : Executor E)
    (o : Settings) where
  -- A group that is loaded has its sizes in order.
  pub load_then-Keeps :
      {B : Type 0} (name : String) {k : Group R → Exec (World E) B}
      → ((g : Group R) → IsSized g → Keeps (Ordered {E = E}) (k g))
      → Keeps (Ordered {E = E}) (load c lib x o name >>= k)
  unfolding load
  load_then-Keeps name rest =
      reads_then-Keeps (λ (w : World E). load_group c.group_json o.is_time name w.storage)
        λ w g q h. rest g (load_group-IsSized c.group_json o.is_time name w.storage g q h)

  pub save-Keeps : (g : Group R) → IsSized g → Keeps (Ordered {E = E}) (save c lib x o g)
  unfolding save
  save-Keeps g sized = in_storage-Keeps (save_group-InOrder c.group_json g sized)

  pub scale-Keeps :
      (g : Group R) (desired : ℤ) → IsSized g → Keeps (Ordered {E = E}) (scale c lib x o g desired)
  unfolding scale
  scale-Keeps g desired sized = scale_group_to-Keeps c.group_json lib x o g desired sized

  cancel_deletion-Keeps : (name : String) → Keeps (Ordered {E = E}) (cancel_deletion c lib x o name)
  unfolding cancel_deletion
  cancel_deletion-Keeps name = record { run = λ w q. q }

  fill_group-Keeps :
      (g : Group R) (tags : List GroupTag)
      → IsSized g
      → Keeps (Ordered {E = E}) (fill_group c lib x o g tags)
  unfolding fill_group
  fill_group-Keeps g tags sized = then-Keeps (save-Keeps g sized) (
      then-Keeps (in_storage-Keeps (tag_group-Keeps g.name tags))
        (scale-Keeps g g.desired_capacity sized))

  pub dispatch_create_auto_scaling_group-Keeps :
      (r : CreateGroup R) → Keeps (Ordered {E = E}) (dispatch_create_auto_scaling_group c lib x o r)
  unfolding dispatch_create_auto_scaling_group
  dispatch_create_auto_scaling_group-Keeps r =
      reads_then-Keeps (λ (w : World E). prepare_group c lib x o r (x.now w.exe) w.storage)
        λ w g q h.
          then-Keeps
            (in_storage-Keeps
              (refused-Keeps (record { type = auto_scaling_group_type; id = r.name })))
            (rescue-Keeps
              (fill_group-Keeps g r.tags
                (prepare_group-IsSized c lib x o r (x.now w.exe) g w.storage h))
              (λ e.
                then-Keeps
                  (rescue-Keeps (in_storage-Keeps (remove-InOrder r.name)) (λ f. pure-Keeps tt))
                  (raise-Keeps e)))

  scale_checked-Keeps :
      (desired : ℤ) (g : Group R)
      → IsSized g
      → Keeps (Ordered {E = E}) (scale_checked c lib x o desired g)
  unfolding scale_checked
  scale_checked-Keeps desired g sized =
      then-Keeps (lift-Keeps (validate_desired_capacity desired g.min_size g.max_size))
        (scale-Keeps g desired sized)

  pub dispatch_set_desired_capacity-Keeps :
      (name : String) (desired : Option ℤ)
      → Keeps (Ordered {E = E}) (dispatch_set_desired_capacity c lib x o name desired)
  unfolding dispatch_set_desired_capacity
  dispatch_set_desired_capacity-Keeps name none = raise-Keeps validation_error
  dispatch_set_desired_capacity-Keeps name (some desired) =
      load_then-Keeps name (scale_checked-Keeps desired)

  detach-Keeps : (id : String) → Keeps (Ordered {E = E}) (detach c lib x o id)
  unfolding detach
  detach-Keeps id = in_storage-Keeps (wrap-Keeps (unset-InOrder id detach_keys detach_keys-NoSizes))

  pub dispatch_detach_instances-Keeps :
      (r : DetachInstances) → Keeps (Ordered {E = E}) (dispatch_detach_instances c lib x o r)
  unfolding dispatch_detach_instances
  dispatch_detach_instances-Keeps r = load_then-Keeps r.group λ g sized.
      bind-Keeps (group_instance_ids-Keeps x o true r.group) λ current.
        bind-Keeps (lift-Keeps (ids_to_detach current [] r.instance_ids)) λ ids.
          lift_then-Keeps (capacity_after r g ids) λ desired h.
            then-Keeps (each-Keeps ids detach-Keeps) (
              save-Keeps (record g { desired_capacity = desired })
                (capacity_after-IsSized r g ids desired sized h))

  pub dispatch_delete_auto_scaling_group-Keeps :
      (name : String) (force : Bool)
      → Keeps (Ordered {E = E}) (dispatch_delete_auto_scaling_group c lib x o name force)
  unfolding dispatch_delete_auto_scaling_group
  dispatch_delete_auto_scaling_group-Keeps name force =
      bind-Keeps (reads-Keeps (λ (w : World E). found_group c lib x o name w.storage)) λ found.
        then-Keeps (cancel_deletion-Keeps name) (
          bind-Keeps (group_instance_ids-Keeps x o true name) λ ids.
            bind-Keeps (warm_instance_ids-Keeps x o true name) λ warm.
              then-Keeps
                (fail_if-Keeps (not (is_empty (ids ++ warm)) && not force)
                  (with_code "ResourceInUse"))
                (then-Keeps (terminate_members-Keeps x o (ids ++ warm))
                  (in_storage-Keeps (wrap-Keeps (remove-InOrder name)))))

  reconcile-Keeps : (r : Resource) → Keeps (Ordered {E = E}) (reconcile c lib x o r)
  unfolding reconcile
  reconcile-Keeps r = load_then-Keeps r.id λ g sized. scale-Keeps g g.desired_capacity sized

  pub reconcile_all_groups-Keeps : Keeps (Ordered {E = E}) (reconcile_all_groups c lib x o)
  unfolding reconcile_all_groups
  reconcile_all_groups-Keeps = record {
    run = λ w q.
        (each-Keeps (registered_resources w.storage auto_scaling_group_type) reconcile-Keeps).run w
          q;
  }
