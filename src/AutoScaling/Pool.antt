-- ===== src/AutoScaling/Pool.antt =====
-- The handlers of pkg/dc2/dispatcher_autoscaling.go for warm pools: PutWarmPool and DeleteWarmPool.
pub mod Handlers
use dc.Prelude.{String, Bool, true, ◌&&◌, Option, none, some, [], ◌∷◌, ◌==◌, if◌then◌else◌}
use dc.Prelude.Int.{ℤ, pos, negsuc, ltb_ℤ, leb_ℤ}
use dc.Api.{Result, ok, err, ◌>>=◌, ◌>>◌}
use dc.Api.Exec
use dc.Api.Exec.{Exec}
use dc.LaunchTemplate.Load.{validation_error}
use dc.Executor.{World}
use dc.AutoScaling.Groups.{Group, pool_stopped, pool_active, parse_warm_pool_state}
use dc.AutoScaling.WarmJobs.{WarmJobs}

-- api.PutWarmPoolRequest
pub record PutWarmPool : Type 0 where
  pub group : String
  pub min_size : Option ℤ
  pub max_prepared : Option ℤ
  pub pool_state : Option String
  pub reuse_on_scale_in : Option Bool

unfoldable pub put_min_size : {R : Type 0} → Option ℤ → Group R → Result (Group R)
put_min_size none g = ok g
put_min_size (some n) g =
    if ltb_ℤ n (pos 0) then err validation_error else ok (record g { warm_pool_min_size = n })

abbrev minus_one : ℤ
minus_one = negsuc 0

unfoldable pub put_max_prepared : {R : Type 0} → Option ℤ → Group R → Result (Group R)
put_max_prepared none g = ok g
put_max_prepared (some n) g =
    if ltb_ℤ n minus_one
    then err validation_error
    else ok (record g { warm_pool_max_prepared = if leb_ℤ n minus_one then none else some n })

unfoldable pub put_state : {R : Type 0} → Option String → Group R → Result (Group R)
put_state none g = ok g
put_state (some s) g =
    parse_warm_pool_state s >>= λ state. ok (record g { warm_pool_state = state })

unfoldable pub put_reuse : {R : Type 0} → Option Bool → Group R → Group R
put_reuse none g = g
put_reuse (some b) g = record g { warm_pool_reuse = some b }

abbrev pub enabled_pool : {R : Type 0} → Group R → Group R
enabled_pool g = record g {
  warm_pool_state = if g.warm_pool_state == "" then pool_stopped else g.warm_pool_state;
  warm_pool_enabled = true;
  warm_pool_status = pool_active;
}

-- The part of dispatchPutWarmPool that changes the data of the group.
unfoldable pub with_warm_pool : {R : Type 0} → PutWarmPool → Group R → Result (Group R)
unfolding put_min_size put_max_prepared put_state put_reuse
with_warm_pool r g = do
  a ← put_min_size r.min_size g
  b ← put_max_prepared r.max_prepared a
  c ← put_state r.pool_state b
  ok (enabled_pool (put_reuse r.reuse_on_scale_in c))

abbrev in_warm : {E : Type 0} → (WarmJobs → WarmJobs) → Exec (World E) (Unit {0})
in_warm f w = (record w { warm = f w.warm }, ok tt)

-- api.DeleteWarmPoolRequest
pub record DeleteWarmPool : Type 0 where
  pub group : String
  pub force_delete : Bool
