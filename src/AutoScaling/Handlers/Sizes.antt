-- ===== src/AutoScaling/Handlers/Sizes.antt =====
-- The sizes of the groups that the handlers of pkg/dc2/dispatcher_autoscaling.go store.
pub mod Pools
pub mod Evolution
use mathlib.Core.Path.{subst}
use dc.Prelude.{
  String, ◌≡◌, refl, ◌∙◌, Option, none, some, List, arith, if◌then◌else◌, inl, inr, Bool-cases,
}
use dc.Prelude.Int.{ℤ, pos, ◌≤ℤ◌}
use dc.Api.{Result, ok, err}
use dc.Api
use dc.AutoScaling.Scaling.{given_or}
use dc.AutoScaling.Groups.{Group, validate_group_sizes, validate_desired_capacity}
use dc.AutoScaling.Handlers.{UpdateGroup, DetachInstances, updated_sizes, capacity_after, given}

pub sizes-valid :
    (min_size max_size : ℤ)
    → validate_group_sizes min_size max_size ≡ ok tt
    → (pos 0 ≤ℤ min_size) × (min_size ≤ℤ max_size)
unfolding validate_group_sizes
sizes-valid min_size max_size h = ground (arith, h)

pub capacity-valid :
    (desired min_size max_size : ℤ)
    → validate_desired_capacity desired min_size max_size ≡ ok tt
    → (min_size ≤ℤ desired) × (desired ≤ℤ max_size)
unfolding validate_desired_capacity
capacity-valid desired min_size max_size h = ground (arith, h)

-- What the handlers promise of a group: its sizes are in order, and so are those of its warm pool.
pub record IsSized {R : Type 0} (g : Group R) : Type 0 where
  pub least : pos 0 ≤ℤ g.min_size
  pub enough : g.min_size ≤ℤ g.desired_capacity
  pub most : g.desired_capacity ≤ℤ g.max_size
  pub pool_least : pos 0 ≤ℤ g.warm_pool_min_size
  pub pool_most : pos 0 ≤ℤ given_or g.warm_pool_max_prepared g.max_size

pub after {ℓ κ} :
    {A : Type ℓ} {B : Type κ} (m : Result A) (k : A → Result B) (b : B)
    → Api.◌>>=◌ m k ≡ ok b
    → (a : A) × (m ≡ ok a) × (k a ≡ ok b)
after (ok a) k b h = (a, refl, h)
after (err e) k b h = absurd (ground (arith, h))

pub after_check {ℓ} :
    {B : Type ℓ} (m : Result (Unit {0})) (k : Result B) (b : B)
    → Api.◌>>◌ m k ≡ ok b
    → (m ≡ ok tt) × (k ≡ ok b)
after_check (ok u) k b h = (refl, h)
after_check (err e) k b h = absurd (ground (arith, h))

pub same_ok {ℓ} : {A : Type ℓ} (a b : A) → ◌≡◌ {A = Result A} (ok a) (ok b) → a ≡ b
same_ok a b h = ground (arith, h)

prepared :
    (o : Option ℤ) (max_size max_size' : ℤ)
    → pos 0 ≤ℤ given_or o max_size
    → pos 0 ≤ℤ max_size'
    → pos 0 ≤ℤ given_or o max_size'
prepared none a b h k = k
prepared (some i) a b h k = h

-- The group has the sizes.
resized :
    {R : Type 0} (g : Group R) (min_size max_size desired : ℤ)
    → IsSized g
    → validate_group_sizes min_size max_size ≡ ok tt
    → validate_desired_capacity desired min_size max_size ≡ ok tt
    → IsSized (record g { min_size = min_size; max_size = max_size; desired_capacity = desired })
resized g min_size max_size desired old a b =
    let (l, m) = sizes-valid min_size max_size a in
    let (e, t) = capacity-valid desired min_size max_size b in
    record {
      least = l;
      enough = e;
      most = t;
      pool_least = old.pool_least;
      pool_most = prepared g.warm_pool_max_prepared g.max_size max_size old.pool_most (omega arith);
    }

pub recapacitated :
    {R : Type 0} (g : Group R) (desired : ℤ)
    → IsSized g
    → validate_desired_capacity desired g.min_size g.max_size ≡ ok tt
    → IsSized (record g { desired_capacity = desired })
recapacitated g desired old h =
    let (e, t) = capacity-valid desired g.min_size g.max_size h in
    record {
      least = old.least;
      enough = e;
      most = t;
      pool_least = old.pool_least;
      pool_most = old.pool_most;
    }

pub updated_sizes-IsSized :
    {R : Type 0} (r : UpdateGroup R) (g new : Group R)
    → IsSized g
    → updated_sizes r g ≡ ok new
    → IsSized new
unfolding updated_sizes
updated_sizes-IsSized r g new old h =
    let min_size = given r.min_size g.min_size in
    let max_size = given r.max_size g.max_size in
    let (a, rest) = after_check (validate_group_sizes min_size max_size) _ new h in
    let (b, same) = after_check _ _ new rest in
    subst IsSized (same_ok _ new same) (resized g min_size max_size _ old a b)

pub capacity_after-IsSized :
    {R : Type 0} (r : DetachInstances) (g : Group R) (ids : List String) (desired : ℤ)
    → IsSized g
    → capacity_after r g ids ≡ ok desired
    → IsSized (record g { desired_capacity = desired })
unfolding capacity_after
capacity_after-IsSized r g ids desired old h = elim (Bool-cases r.decrement) [
  | inr b ↦
      subst (λ d. IsSized (record g { desired_capacity = d }))
        (same_ok g.desired_capacity desired (rw b at h)) old
  | inl b ↦
      let (v, same) = after_check _ _ desired (rw b at h) in
      subst (λ d. IsSized (record g { desired_capacity = d })) (same_ok _ desired same)
        (recapacitated g _ old v)
]
