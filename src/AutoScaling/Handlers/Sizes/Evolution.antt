-- ===== src/AutoScaling/Handlers/Sizes/Evolution.antt =====
-- The sizes of the group that dispatchCreateAutoScalingGroup of pkg/dc2/dispatcher_autoscaling.go makes, and
-- those that are left of a warm pool.
use mathlib.Core.Path.{subst}
use dc.Prelude.{ltb, length, String, ◌≡◌, Option, List, arith}
use dc.Prelude.Int.{ℤ}
use dc.Api.{ok, fail_if, invalid_parameter_value}
use dc.Storage.{Storage}
use dc.Executor.{Executor}
use dc.Instances.Lifecycle.{Settings}
use dc.Instances.Describe.{Library}
use dc.LaunchTemplate.Load.{Template}
use dc.AutoScaling.Groups.{Policy, Group, validate_group_sizes, validate_desired_capacity}
use dc.AutoScaling.Scaling.{clear_warm_pool_configuration}
use dc.AutoScaling.Template.{Catalog, normalize_availability_zones, normalize_optional_string}
use dc.AutoScaling.Handlers.{
  CreateGroup, filled_group, prepare_group, given, required, kind_of, with_template, blank, resolve,
}
use dc.AutoScaling.Handlers.Sizes.{
  IsSized, after, after_check, same_ok, sizes-valid, capacity-valid,
}

pub clear-IsSized :
    {R : Type 0} (g : Group R) → IsSized g → IsSized (clear_warm_pool_configuration g)
unfolding clear_warm_pool_configuration
clear-IsSized g old = record {
  least = old.least;
  enough = old.enough;
  most = old.most;
  pool_least = omega arith;
  pool_most = omega (arith, old.least, old.enough, old.most);
}

module _ {R : Type 0} (c : Catalog R) (lib : Library) {E : Type 0} (x : Executor E) (o : Settings)
    (r : CreateGroup R) (now : String) (new : Group R) where
  abbrev built : ℤ → ℤ → Template R × Option (Policy R) → String → List String → Group R
  built min_size max_size found kind zones =
      record (with_template c lib x o found.0 found.1 kind (blank c lib x o r.name now)) {
        min_size = min_size;
        max_size = max_size;
        desired_capacity = given r.desired_capacity min_size;
        availability_zones = zones;
        vpc_zone_identifier = normalize_optional_string r.vpc_zone_identifier;
      }

  filled_group-IsSized :
      (min_size max_size : ℤ) (found : Template R × Option (Policy R))
      → filled_group c lib x o r now min_size max_size found ≡ ok new
      → IsSized new
  unfolding filled_group with_template blank
  filled_group-IsSized min_size max_size found h =
      let (sizes, h5) = after_check (validate_group_sizes min_size max_size) _ new h in
      let (capacity, h6) =
        after_check
          (validate_desired_capacity (given r.desired_capacity min_size) min_size max_size) _ new
          h5 in
      let (kind, k, h7) = after (kind_of c lib x o found.0 found.1) _ new h6 in
      let (zones, z, h8) = after (normalize_availability_zones r.availability_zones) _ new h7 in
      let (l, m) = sizes-valid min_size max_size sizes in
      let (e, t) = capacity-valid (given r.desired_capacity min_size) min_size max_size capacity in
      subst IsSized (same_ok (built min_size max_size found kind zones) new h8) (record {
        least = l;
        enough = e;
        most = t;
        pool_least = omega arith;
        pool_most = omega (arith, l, m);
      })

  pub prepare_group-IsSized : (s : Storage) → prepare_group c lib x o r now s ≡ ok new → IsSized new
  unfolding prepare_group
  prepare_group-IsSized s h =
      let (t, h1) =
        after_check (fail_if (ltb 1000 (length r.tags)) (invalid_parameter_value "Tags")) _ new h in
      let (min_size, a, h2) = after (required r.min_size) _ new h1 in
      let (max_size, b, h3) = after (required r.max_size) _ new h2 in
      let (found, f, h4) = after (resolve c lib x o r.template r.policy s) _ new h3 in
      filled_group-IsSized min_size max_size found h4
