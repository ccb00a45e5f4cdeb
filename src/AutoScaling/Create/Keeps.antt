-- ===== src/AutoScaling/Create/Keeps.antt =====
-- createAutoScalingInstances of pkg/dc2/dispatcher_autoscaling.go leaves the sizes of groups in order.
use Prim.Native.String.{◌++◌ as ◌<>◌}
use mathlib.Core.Path.{subst}
use dc.Dispatcher.Names as InstanceNames
use dc.AutoScaling.Stored.{attribute}
use dc.Instances.Launch.Request.{normalize_user_data}
use dc.Prelude.{
  arith, String, ◌≡◌, refl, Bool, true, false, List, [], ◌∷◌, ◌++◌, ◌==◌, inl, inr, Bool-cases,
  if◌then◌else◌, map,
}
use dc.Prelude.Int.{ℤ, pos, leb_ℤ}
use dc.Prelude.Text.{trim_space}
use dc.Api.{ok, Result-cases}
use dc.Storage.{Storage, Attribute, Attributes, instance_type, resource_attributes, tag_key}
use dc.Imds.{set_tags}
use dc.TestProfile.{before, after, MatchInput}
use dc.TestProfile
use dc.Spot.{TagMap}
use dc.LaunchTemplate.Find.{linkage_tag_attributes, ensure_linkage_tags}
use dc.LaunchTemplate.Versions.{Agrees-append}
use dc.Volumes.Lifecycle.Keeps.{attach_mappings-Keeps}
use dc.Executor.{Executor, World, api_instance_id}
use dc.Executor.Keeps.{
  Keeps, bind-Keeps, then-Keeps, each-Keeps, pure-Keeps, wrap-Keeps, in_storage-Keeps, in_exe-Keeps,
  in_imds-Keeps, reads_then-Keeps,
}
use dc.Instances.Lifecycle.{Settings, match_input_for_group}
use dc.Instances.Lifecycle.Keeps.{apply_delay-Keeps}
use dc.Instances.Describe.{Library, or_given}
use dc.AutoScaling.Names
use dc.AutoScaling.Groups.{Group}
use dc.AutoScaling.InOrder.{InOrder, NoSizes, is_size, register-InOrder, set-InOrder}
use dc.AutoScaling.InOrder.Writes.{tag-is_size, linkage_tag_attributes-NoSizes, volumes-InOrder}
use dc.AutoScaling.Members.Keeps.{Ordered}
use dc.AutoScaling.Create.{
  attribute, propagates, propagated_attributes, propagated_instance_tags,
  propagate_at_launch_by_key, instance_subnet_id, InstanceOptions, marked_if, register_member,
  member_attributes, creation_of, complete_members, create_instances,
}

propagated_attributes-NoSizes :
    (by_key : List (String × Bool)) (attrs : Attributes)
    → NoSizes (propagated_attributes by_key attrs)
unfolding propagated_attributes
propagated_attributes-NoSizes by_key [] = tt
propagated_attributes-NoSizes by_key (a ∷ attrs) = elim (Bool-cases (propagates by_key a)) [
  | inl b ↦
      rw (b, propagated_attributes)
        (tag-is_size (tag_key a), propagated_attributes-NoSizes by_key attrs)
  | inr b ↦ rw (b, propagated_attributes) (propagated_attributes-NoSizes by_key attrs)
]

propagated_instance_tags-NoSizes :
    (group : String) (s : Storage) (tags : List Attribute × TagMap)
    → propagated_instance_tags group s ≡ ok tags
    → NoSizes tags.0
unfolding propagated_instance_tags
propagated_instance_tags-NoSizes group s tags h =
    elim (Result-cases (resource_attributes s group)) [
      | inl (e, p) ↦ absurd (ground (arith, rw (p, propagated_instance_tags) at h))
      | inr (attrs, p) ↦
          subst NoSizes (ground (arith, rw (p, propagated_instance_tags) at h))
            (propagated_attributes-NoSizes (propagate_at_launch_by_key attrs) attrs)
    ]

marked_if-NoSizes : (b : Bool) (key : String) → is_size key ≡ false → NoSizes (marked_if b key)
marked_if-NoSizes true key h = (h, tt)
marked_if-NoSizes false key h = tt

user_data-NoSizes :
    (raw text : String)
    → NoSizes (if raw == "" then [] else attribute InstanceNames.user_data text ∷ [])
unfolding is_size
user_data-NoSizes raw text = elim (Bool-cases (raw == "")) [
  | inl b ↦ rw b tt
  | inr b ↦ rw b (refl, tt)
]

module _ {R : Type 0} (lib : Library) (g : Group R) where
  member_attributes-NoSizes :
      (options : InstanceOptions) (zone subnet : String) (propagated : List Attribute)
      → NoSizes propagated
      → NoSizes (member_attributes lib g options zone subnet propagated)
  unfolding member_attributes is_size
  member_attributes-NoSizes options zone subnet propagated h = (
    refl,
    (
      refl,
      (
        refl,
        (
          refl,
          (
            refl,
            Agrees-append is_size false _ (linkage_tag_attributes g.template_id g.template_version)
                (Agrees-append is_size false _ propagated
                  (Agrees-append is_size false
                    (marked_if options.warm_pool Names.warm_pool
                      ++ marked_if options.synchronous_provisioning Names.synchronous_provisioning)
                    _
                    (Agrees-append is_size false (marked_if options.warm_pool Names.warm_pool)
                      (marked_if options.synchronous_provisioning Names.synchronous_provisioning)
                      (marked_if-NoSizes options.warm_pool Names.warm_pool refl)
                      (marked_if-NoSizes options.synchronous_provisioning
                        Names.synchronous_provisioning refl))
                    (user_data-NoSizes g.user_data (normalize_user_data lib g.user_data)))
                  h)
                (linkage_tag_attributes-NoSizes g.template_id g.template_version),
          ),
        ),
      ),
    ),
  )

register_member-Keeps :
    {E : Type 0} (attrs : List Attribute) (tags : TagMap) (runtime : String)
    → NoSizes attrs
    → Keeps (Ordered {E = E}) (register_member attrs tags runtime)
unfolding register_member
register_member-Keeps attrs tags runtime h =
    then-Keeps
      (in_storage-Keeps (
        wrap-Keeps
          (register-InOrder (record { type = instance_type; id = api_instance_id runtime }))))
      (then-Keeps (in_storage-Keeps (wrap-Keeps (set-InOrder (api_instance_id runtime) attrs h)))
        (in_imds-Keeps InOrder (set_tags runtime tags)))

module _ {R : Type 0} (lib : Library) {E : Type 0} (x : Executor E) (o : Settings) (g : Group R)
    (options : InstanceOptions) where
  complete_members-Keeps :
      (input : MatchInput) (created : List String)
      → Keeps (Ordered {E = E}) (complete_members lib x o g options input created)
  unfolding complete_members
  complete_members-Keeps input created =
      reads_then-Keeps (λ (w : World E). propagated_instance_tags g.name w.storage)
        λ w propagated q p.
          let zone = or_given (trim_space options.availability_zone) (o.region <> "a") in
          let subnet =
            or_given (trim_space options.subnet_id) (instance_subnet_id g.vpc_zone_identifier) in
          let attrs = member_attributes lib g options zone subnet propagated.0 in
          let tags = ensure_linkage_tags propagated.1 g.template_id g.template_version in
          let plain = propagated_instance_tags-NoSizes g.name w.storage propagated p in
          then-Keeps
            (each-Keeps created λ id.
              register_member-Keeps attrs tags id
                (member_attributes-NoSizes lib g options zone subnet propagated.0 plain))
            (then-Keeps (apply_delay-Keeps x o InOrder before TestProfile.start (input ∷ [])) (
              bind-Keeps (in_exe-Keeps InOrder (x.start_instances created)) λ changes.
                then-Keeps (apply_delay-Keeps x o InOrder after TestProfile.start (input ∷ [])) (
                  then-Keeps
                    (attach_mappings-Keeps x o.is_time InOrder volumes-InOrder created zone
                      g.block_device_mappings)
                    (pure-Keeps (map api_instance_id created)))))

  pub create_instances-Keeps :
      (count : ℤ) → Keeps (Ordered {E = E}) (create_instances lib x o g count options)
  unfolding create_instances
  create_instances-Keeps count = elim (Bool-cases (leb_ℤ count (pos 0))) [
    | inl b ↦ rw (b, create_instances) (pure-Keeps [])
    | inr b ↦
        let input = match_input_for_group o g.instance_kind g.name in
        rw (b, create_instances)
          (then-Keeps (apply_delay-Keeps x o InOrder before TestProfile.allocate (input ∷ [])) (
            bind-Keeps (in_exe-Keeps InOrder (x.create_instances (creation_of lib g count)))
              λ created.
                then-Keeps (apply_delay-Keeps x o InOrder after TestProfile.allocate (input ∷ []))
                  (complete_members-Keeps input created)))
  ]
