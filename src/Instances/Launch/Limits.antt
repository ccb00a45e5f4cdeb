-- ===== src/Instances/Launch/Limits.antt =====
-- Which instances the storage knows while dispatchRunInstances of pkg/dc2/dispatcher_instance.go runs.
use dc.Prelude.{
  String, ◌≡◌, sym, ◌∙◌, ◌⊎◌, inl, inr, Option, none, some, List, [], ◌∷◌, ◌++◌, arith, ◌==◌,
  eq_iff, Bool-cases, is_empty, All,
}
use mathlib.Core.Path.{subst}
use dc.Prelude.Int.{pos, leb_ℤ}
use dc.Storage.{
  Storage, Resource, Attribute, instance_type, register_resource, remove_resource,
  set_resource_attributes,
}
use dc.Storage.Invariant.{
  IsValid, register_resource-IsValid, remove_resource-IsValid, set_resource_attributes-IsValid,
}
use dc.Storage.Kinds.{kind_of, kind_of-register, kind_of-remove, kind_of-set}
use dc.Spot.{LaunchOptions, TagMap, spot}
use dc.Spot.{split_run_instances_tags}
use dc.Volumes.Data.{attribute}
use dc.Spot.Names as SpotNames
use dc.Spot.Requests.{register_spot_request}
use dc.TestProfile
use dc.TestProfile.{before, after, Hook, Phase, MatchInput}
use dc.Executor.{Executor, Description, api_instance_id}
use dc.Executor.Keeps.{
  Keeps, Stored, bind-Keeps, then-Keeps, pure-Keeps, reads-Keeps, wrap-Keeps, in_storage-Keeps,
  in_exe-Keeps,
}
use dc.Volumes.Lifecycle.Keeps.{AllowsVolumes, attach_mappings-Keeps}
use dc.Instances.Lifecycle.{Settings, apply_delay, profile_delay}
use dc.Instances.Describe.{api_instance}
use dc.Instances.Describe.Handlers.{api_instances}
use dc.Instances.Launch.Request.{
  RunInstances, Prepared, Outside, answer_of, answers_after, launch_attributes,
}
use dc.Instances.Launch.{spot_request, register_instance, register_instances, complete_launch}

-- The storage is valid and every instance in it is one that the predicate allows.
pub record Limited (K : String → Type 0) (s : Storage) : Type 0 where
  pub valid : IsValid s
  pub within : (id : String) → kind_of s id ≡ some instance_type → K id

-- Being one of a list, or allowed.
abbrev pub OneOf : List String → (String → Type 0) → String → Type 0
OneOf [] K j = K j
OneOf (id ∷ ids) K j = (api_instance_id id ≡ j) ⊎ OneOf ids K j

module _ (K : String → Type 0) where
  register-Limited :
      (r : Resource) → (r.type ≡ instance_type → K r.id) → Keeps (Limited K) (register_resource r)
  register-Limited r given = record {
    run = λ s l. record {
      valid = register_resource-IsValid r s l.valid;
      within = λ id h. elim (kind_of-register r s id) [
        | inl e ↦ l.within id (sym e ∙ h)
        | inr (n, e) ↦
            let same : r.type ≡ instance_type = ground (arith, e, h) in subst K n (given same)
      ];
    };
  }

  set-Limited :
      (id : String) (attrs : List Attribute) → Keeps (Limited K) (set_resource_attributes id attrs)
  set-Limited id attrs = record {
    run = λ s l. record {
      valid = set_resource_attributes-IsValid id attrs s l.valid;
      within = λ j h. l.within j (sym (kind_of-set id attrs s j) ∙ h);
    };
  }

  pub remove-Limited : (id : String) → Keeps (Limited K) (remove_resource id)
  remove-Limited id = record {
    run = λ s l. record {
      valid = remove_resource-IsValid id s l.valid;
      within = λ j h. elim (Bool-cases (id == j)) [
        | inl b ↦ absurd (ground (arith, kind_of-remove id s j, h, b))
        | inr b ↦ l.within j (ground (arith, kind_of-remove id s j, h, b))
      ];
    };
  }

  -- What is removed need not be allowed any more.
  pub removed-Limited :
      (id : String) (s : Storage)
      → Limited (λ j. (id ≡ j) ⊎ K j) s
      → Limited K (remove_resource id s).0
  removed-Limited id s l = record {
    valid = remove_resource-IsValid id s l.valid;
    within = λ j h. elim (Bool-cases (id == j)) [
      | inl b ↦ absurd (ground (arith, kind_of-remove id s j, h, b))
      | inr b ↦ elim (l.within j (ground (arith, kind_of-remove id s j, h, b))) [
        | inl same ↦ absurd (ground (arith, eq_iff id j, same, b))
        | inr k ↦ k
      ]
    ];
  }

  allows_volumes : AllowsVolumes (Limited K)
  allows_volumes = record {
    registers = λ id. register-Limited _ (λ e. absurd (ground (arith, e)));
    fills = λ id r now. set-Limited id _;
    gives = λ id owner flag. set-Limited id _;
    removes = remove-Limited;
  }

  register_spot_request-Limited :
      (answer : Option String) (id kind : String) (opts : LaunchOptions) (tags : TagMap)
      (now : String)
      → Keeps (Limited K) (register_spot_request answer id kind opts tags now)
  unfolding register_spot_request
  register_spot_request-Limited none id kind opts tags now = record { run = λ s l. l }
  register_spot_request-Limited (some request) id kind opts tags now =
      then-Keeps (wrap-Keeps (register-Limited _ (λ e. absurd (ground (arith, e)))))
        (then-Keeps (wrap-Keeps (set-Limited _ _)) (pure-Keeps request))

module _ {R : Type 0} (outside : Outside R) (o : Settings) {E : Type 0} (x : Executor E)
    (K : String → Type 0) where
  pub apply_delay-Keeps :
      (hook : Hook) (phase : Phase) (inputs : List MatchInput)
      → Keeps (Stored (Limited K)) (apply_delay x o hook phase inputs)
  unfolding apply_delay
  apply_delay-Keeps hook phase inputs = record {
    run = λ w l. elim (Bool-cases (is_empty inputs)) [
      | inl e ↦ rw (e, apply_delay) l
      | inr e ↦ elim (Bool-cases (leb_ℤ (profile_delay o.profile hook phase inputs) (pos 0))) [
        | inl f ↦ rw (e, apply_delay, f) l
        | inr f ↦ rw (e, apply_delay, f) l
      ]
    ];
  }

  spot_request-Keeps :
      (r : RunInstances) (p : Prepared) (answer : Option String) (id : String)
      → Keeps (Stored (Limited K)) (spot_request outside o x r p answer id)
  unfolding spot_request
  spot_request-Keeps r p answer id = record {
    run = λ w l. elim (Bool-cases (p.options.market_type == spot)) [
      | inr e ↦ rw (e, spot_request) l
      | inl e ↦
          rw (e, spot_request)
            ((bind-Keeps
                (in_storage-Keeps (
                  register_spot_request-Limited K answer id p.launch.instance_kind p.options
                    (split_run_instances_tags r.tag_specifications).1 (x.now w.exe)))
                (λ request. pure-Keeps (attribute SpotNames.request_id request ∷ []))).run
              w l)
    ];
  }

  api_instances-Keeps :
      (ds : List Description) → Keeps (Stored (Limited K)) (api_instances x outside.lib o.region ds)
  unfolding api_instances
  api_instances-Keeps [] = pure-Keeps []
  api_instances-Keeps (d ∷ ds) =
      bind-Keeps (reads-Keeps (λ w. api_instance outside.lib o.region w d))
        λ i. bind-Keeps (api_instances-Keeps ds) λ is. pure-Keeps (i ∷ is)

  register_instance-Keeps :
      (r : RunInstances) (p : Prepared) (answer : Option String) (id : String)
      → K (api_instance_id id)
      → Keeps (Stored (Limited K)) (register_instance outside o x r p answer id)
  unfolding register_instance
  register_instance-Keeps r p answer id k =
      bind-Keeps (spot_request-Keeps r p answer (api_instance_id id)) λ request.
        then-Keeps (in_storage-Keeps (wrap-Keeps (register-Limited K _ (λ e. k)))) (
          then-Keeps
            (in_storage-Keeps (
              wrap-Keeps (
                set-Limited K (api_instance_id id) (launch_attributes outside.lib r p ++ request))))
            (record { run = λ w l. l }))

  register_instances-Keeps :
      (r : RunInstances) (p : Prepared) (answers : List (Option String)) (ids : List String)
      → All (λ id. K (api_instance_id id)) ids
      → Keeps (Stored (Limited K)) (register_instances outside o x r p answers ids)
  unfolding register_instances
  register_instances-Keeps r p answers [] k = pure-Keeps tt
  register_instances-Keeps r p answers (id ∷ ids) (k, ks) =
      then-Keeps (register_instance-Keeps r p (answer_of answers) id k)
        (register_instances-Keeps r p (answers_after answers) ids ks)

  pub complete_launch-Keeps :
      (r : RunInstances) (p : Prepared) (answers : List (Option String)) (ids : List String)
      → All (λ id. K (api_instance_id id)) ids
      → Keeps (Stored (Limited K)) (complete_launch outside o x r p answers ids)
  unfolding complete_launch
  complete_launch-Keeps r p answers ids ks =
      then-Keeps (apply_delay-Keeps after TestProfile.allocate (p.input ∷ [])) (
        then-Keeps (register_instances-Keeps r p answers ids ks) (
          then-Keeps (apply_delay-Keeps before TestProfile.start (p.input ∷ [])) (
            bind-Keeps (in_exe-Keeps (Limited K) (x.start_instances ids)) λ changes.
              then-Keeps (apply_delay-Keeps after TestProfile.start (p.input ∷ [])) (
                then-Keeps
                  (attach_mappings-Keeps x o.is_time (Limited K) (allows_volumes K) ids p.zone
                    p.launch.block_device_mappings)
                  (bind-Keeps (in_exe-Keeps (Limited K) (x.describe_instances ids))
                    λ ds. api_instances-Keeps ds)))))
