-- ===== src/AutoScaling/Handlers/Sizes/Pools.antt =====
-- The sizes of the warm pools that dispatchPutWarmPool of pkg/dc2/dispatcher_autoscaling.go stores.
use mathlib.Core.Path.{subst}
use dc.Prelude.{
  String, ◌≡◌, Bool, false, Option, none, some, arith, if◌then◌else◌, inl, inr, Bool-cases,
}
use dc.Prelude.Int.{ℤ, pos, negsuc, ◌≤ℤ◌, ltb_ℤ, leb_ℤ}
use dc.Api.{ok}
use dc.AutoScaling.Groups.{Group, parse_warm_pool_state}
use dc.AutoScaling.Scaling.{given_or}
use dc.AutoScaling.Pool.{
  PutWarmPool, with_warm_pool, put_min_size, put_max_prepared, put_state, put_reuse, enabled_pool,
}
use dc.AutoScaling.Handlers.Sizes.{IsSized, after, same_ok}

put_min_size-IsSized :
    {R : Type 0} (n : Option ℤ) (g new : Group R)
    → IsSized g
    → put_min_size n g ≡ ok new
    → IsSized new
unfolding put_min_size
put_min_size-IsSized none g new old h = subst IsSized (same_ok g new h) old
put_min_size-IsSized (some n) g new old h = elim (Bool-cases (ltb_ℤ n (pos 0))) [
  | inl b ↦ absurd (ground (arith, rw b at h))
  | inr b ↦ subst IsSized (same_ok _ new (rw b at h)) (record {
    least = old.least;
    enough = old.enough;
    most = old.most;
    pool_least = ground (arith, b);
    pool_most = old.pool_most;
  })
]

limit :
    (n max_size : ℤ)
    → ltb_ℤ n (negsuc 0) ≡ false
    → pos 0 ≤ℤ max_size
    → pos 0 ≤ℤ given_or (if leb_ℤ n (negsuc 0) then none else some n) max_size
limit n max_size b h = elim (Bool-cases (leb_ℤ n (negsuc 0))) [
  | inl e ↦ rw e h
  | inr e ↦ rw e (ground (arith, e))
]

put_max_prepared-IsSized :
    {R : Type 0} (n : Option ℤ) (g new : Group R)
    → IsSized g
    → put_max_prepared n g ≡ ok new
    → IsSized new
unfolding put_max_prepared
put_max_prepared-IsSized none g new old h = subst IsSized (same_ok g new h) old
put_max_prepared-IsSized (some n) g new old h = elim (Bool-cases (ltb_ℤ n (negsuc 0))) [
  | inl b ↦ absurd (ground (arith, rw b at h))
  | inr b ↦ subst IsSized (same_ok _ new (rw b at h)) (record {
    least = old.least;
    enough = old.enough;
    most = old.most;
    pool_least = old.pool_least;
    pool_most = limit n g.max_size b (omega (arith, old.least, old.enough, old.most));
  })
]

put_state-IsSized :
    {R : Type 0} (t : Option String) (g new : Group R)
    → IsSized g
    → put_state t g ≡ ok new
    → IsSized new
unfolding put_state
put_state-IsSized none g new old h = subst IsSized (same_ok g new h) old
put_state-IsSized (some t) g new old h =
    let (u, e, same) = after (parse_warm_pool_state t) _ new h in
    subst IsSized (same_ok (record g { warm_pool_state = u }) new same) (record {
      least = old.least;
      enough = old.enough;
      most = old.most;
      pool_least = old.pool_least;
      pool_most = old.pool_most;
    })

put_reuse-IsSized :
    {R : Type 0} (b : Option Bool) (g : Group R)
    → IsSized g
    → IsSized (enabled_pool (put_reuse b g))
unfolding put_reuse
put_reuse-IsSized none g old = record {
  least = old.least;
  enough = old.enough;
  most = old.most;
  pool_least = old.pool_least;
  pool_most = old.pool_most;
}
put_reuse-IsSized (some b) g old = record {
  least = old.least;
  enough = old.enough;
  most = old.most;
  pool_least = old.pool_least;
  pool_most = old.pool_most;
}

pub with_warm_pool-IsSized :
    {R : Type 0} (r : PutWarmPool) (g new : Group R)
    → IsSized g
    → with_warm_pool r g ≡ ok new
    → IsSized new
unfolding with_warm_pool
with_warm_pool-IsSized r g new old h =
    let (a, p, rest) = after (put_min_size r.min_size g) _ new h in
    let (b, q, rest') = after (put_max_prepared r.max_prepared a) _ new rest in
    let (d, t, same) = after (put_state r.pool_state b) _ new rest' in
    subst IsSized (same_ok _ new same) (
      put_reuse-IsSized r.reuse_on_scale_in d (
        put_state-IsSized r.pool_state b d
          (put_max_prepared-IsSized r.max_prepared a b (put_min_size-IsSized r.min_size g a old p)
            q)
          t))
