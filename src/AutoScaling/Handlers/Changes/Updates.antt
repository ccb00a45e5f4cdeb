-- ===== src/AutoScaling/Handlers/Changes/Updates.antt =====
-- dispatchUpdateAutoScalingGroup of pkg/dc2/dispatcher_autoscaling.go leaves the sizes of groups in order.
use mathlib.Core.Path.{subst}
use dc.Prelude.{
  ◌⊎◌, String, ◌≡◌, Bool, true, false, Option, none, some, List, inl, inr, Bool-cases, Option-cases,
  if◌then◌else◌,
}
use dc.Api.{Error, Result, ok, err, Result-cases, with_code}
use dc.Api
use dc.Api.Exec.{Exec, pure, ◌>>=◌}
use dc.Storage.{Storage}
use dc.LaunchTemplate.Find.{Specification}
use dc.LaunchTemplate.Load.{Template}
use dc.Executor.{Executor, World}
use dc.Executor.Keeps.{Keeps, bind-Keeps, then-Keeps, pure-Keeps, lift_then-Keeps}
use dc.Instances.Lifecycle.{Settings}
use dc.Instances.Describe.{Library}
use dc.AutoScaling.Groups.{Policy, Group}
use dc.AutoScaling.Members.Keeps.{Ordered, terminate_members-Keeps, warm_instance_ids-Keeps}
use dc.AutoScaling.Template.{Catalog, normalize_availability_zones, launch_template_changed}
use dc.AutoScaling.Handlers.{UpdateGroup, updated_sizes, resolve, kind_of, with_template}
use dc.AutoScaling.Handlers.Sizes.{IsSized, after, same_ok, updated_sizes-IsSized}
use dc.AutoScaling.Handlers.Changes.{
  retemplate, with_vpc_zones, with_zones, recycle_warm_pool, dispatch_update_auto_scaling_group,
}
use dc.AutoScaling.Handlers.Changes.Keeps.{load_then-Keeps, save-Keeps, scale-Keeps}

module _ {R : Type 0} (c : Catalog R) (lib : Library) {E : Type 0} (x : Executor E)
    (o : Settings) where
  abbrev change :
      Option Specification → Option (Policy R) → Group R → Storage → Result (Group R × Bool)
  change template policy g s = Api.◌>>=◌ (resolve c lib x o template policy s) λ found.
      Api.◌>>=◌ (kind_of c lib x o found.0 found.1) λ kind.
        ok (with_template c lib x o found.0 found.1 kind g, launch_template_changed g found.0 kind)

  -- The template of a group leaves its sizes as they are.
  with_template-IsSized :
      (t : Template R) (p : Option (Policy R)) (kind : String) (g : Group R)
      → IsSized g
      → IsSized (with_template c lib x o t p kind g)
  unfolding with_template
  with_template-IsSized t p kind g sized = record {
    least = sized.least;
    enough = sized.enough;
    most = sized.most;
    pool_least = sized.pool_least;
    pool_most = sized.pool_most;
  }

  changed :
      (template : Option Specification) (policy : Option (Policy R)) (g : Group R) (s : Storage)
      (a : Group R × Bool)
      → change template policy g s ≡ ok a
      → IsSized g
      → IsSized a.0
  changed template policy g s a h sized =
      let (found, p, h1) = after (resolve c lib x o template policy s) _ a h in
      let (kind, q, h2) = after (kind_of c lib x o found.0 found.1) _ a h1 in
      subst (λ (b : Group R × Bool). IsSized b.0) (same_ok _ a h2)
        (with_template-IsSized found.0 found.1 kind g sized)

  -- A group gets another template, or stays.
  branch :
      (template : Option Specification) (policy : Option (Policy R))
      (other : Result (Group R × Bool)) (w : World E) (g : Group R) (a : Group R × Bool)
      → (elim template as (λ t. World E × Result (Group R × Bool)) [
        | some spec ↦ (w, other)
        | none ↦ elim policy as (λ p. World E × Result (Group R × Bool)) [
          | some p ↦ (w, other)
          | none ↦ (w, ok (g, false))
        ]
      ]).1
        ≡ ok a
      → (other ≡ ok a) ⊎ (◌≡◌ {A = Group R × Bool} (g, false) a)
  branch (some spec) policy other w g a h = inl h
  branch none (some p) other w g a h = inl h
  branch none none other w g a h = inr (same_ok (g, false) a h)

  retemplated :
      (r : UpdateGroup R) (g : Group R) (w : World E) (a : Group R × Bool)
      → (retemplate c lib x o r g w).1 ≡ ok a
      → IsSized g
      → IsSized a.0
  unfolding retemplate
  retemplated r g w a h sized =
      elim (branch r.template r.policy (change r.template r.policy g w.storage) w g a h) [
        | inl p ↦ changed r.template r.policy g w.storage a p sized
        | inr p ↦ subst (λ (b : Group R × Bool). IsSized b.0) p sized
      ]

  retemplate-Keeps :
      (r : UpdateGroup R) (g : Group R) → Keeps (Ordered {E = E}) (retemplate c lib x o r g)
  unfolding retemplate
  retemplate-Keeps r g = record {
    run = λ w q. elim (Option-cases r.template) [
      | inr (spec, e) ↦ rw (e, retemplate) q
      | inl e ↦ elim (Option-cases r.policy) [
        | inr (p, f) ↦ rw (e, f, retemplate) q
        | inl f ↦ rw (e, f, retemplate) q
      ]
    ];
  }

  retemplate_then-Keeps :
      (r : UpdateGroup R) (g : Group R) {k : Group R × Bool → Exec (World E) (Unit {0})}
      → IsSized g
      → ((a : Group R × Bool) → IsSized a.0 → Keeps (Ordered {E = E}) (k a))
      → Keeps (Ordered {E = E}) (retemplate c lib x o r g >>= k)
  retemplate_then-Keeps r g sized rest = record {
    run = λ w q. elim (Result-cases (retemplate c lib x o r g w).1) [
      | inl (e, p) ↦ rw p ((retemplate-Keeps r g).run w q)
      | inr (a, p) ↦ rw p (
          (rest a (retemplated r g w a p sized)).run (retemplate c lib x o r g w).0
            ((retemplate-Keeps r g).run w q))
    ];
  }

  placed :
      (zones : Option (List String)) (g new : Group R)
      → with_zones c lib x o zones g ≡ ok new
      → IsSized g
      → IsSized new
  placed none g new h sized = subst IsSized (same_ok g new h) sized
  placed (some zs) g new h sized =
      let (zones, p, h1) = after (normalize_availability_zones zs) _ new h in
      subst IsSized (same_ok (record g { availability_zones = zones }) new h1) (record {
        least = sized.least;
        enough = sized.enough;
        most = sized.most;
        pool_least = sized.pool_least;
        pool_most = sized.pool_most;
      })

  vpc_placed :
      (v : Option String) (g : Group R) → IsSized g → IsSized (with_vpc_zones c lib x o v g)
  vpc_placed none g sized = sized
  vpc_placed (some v) g sized = record {
    least = sized.least;
    enough = sized.enough;
    most = sized.most;
    pool_least = sized.pool_least;
    pool_most = sized.pool_most;
  }

  recycle_warm_pool-Keeps : (g : Group R) → Keeps (Ordered {E = E}) (recycle_warm_pool c lib x o g)
  unfolding recycle_warm_pool
  recycle_warm_pool-Keeps g = elim (Bool-cases g.warm_pool_enabled) [
    | inl b ↦
        rw (b, recycle_warm_pool)
          (bind-Keeps (warm_instance_ids-Keeps x o true g.name)
            λ ids. terminate_members-Keeps x o ids)
    | inr b ↦ rw (b, recycle_warm_pool) (pure-Keeps tt)
  ]

  recycle_if-Keeps :
      (b : Bool) (g : Group R)
      → Keeps {A = Unit {0}}
          (Ordered {E = E})
          (if b then recycle_warm_pool c lib x o g else pure tt)
  recycle_if-Keeps true g = recycle_warm_pool-Keeps g
  recycle_if-Keeps false g = pure-Keeps tt

  pub dispatch_update_auto_scaling_group-Keeps :
      (r : UpdateGroup R) → Keeps (Ordered {E = E}) (dispatch_update_auto_scaling_group c lib x o r)
  unfolding dispatch_update_auto_scaling_group
  dispatch_update_auto_scaling_group-Keeps r = load_then-Keeps c lib x o r.name λ old sized.
      lift_then-Keeps (updated_sizes r old) λ new h.
        retemplate_then-Keeps r new (updated_sizes-IsSized r old new sized h) λ a fits.
          lift_then-Keeps
            (with_zones c lib x o r.availability_zones
              (with_vpc_zones c lib x o r.vpc_zone_identifier a.0))
            λ g p.
              let last =
                placed r.availability_zones (with_vpc_zones c lib x o r.vpc_zone_identifier a.0) g p
                  (vpc_placed r.vpc_zone_identifier a.0 fits) in
              then-Keeps (save-Keeps c lib x o g last) (
                then-Keeps (recycle_if-Keeps a.1 g)
                  (scale-Keeps c lib x o g g.desired_capacity last))
