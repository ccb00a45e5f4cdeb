-- ===== src/AutoScaling/Scaling/Capacity.antt =====
-- How many instances pkg/dc2/dispatcher_autoscaling.go takes out of a group, and how many it keeps in the
-- warm pool.
use dc.Prelude.{ℕ, ◌-◌, ◌≤◌, ◌<◌, String, ◌≡◌, ◌∙◌, ◌⊎◌, List, arith, length}
use dc.Prelude.Int.{ℤ, pos, negsuc, ◌≤ℤ◌, IsInt64, two63, wrap64, wrap64_id, ◌-ℤ◌}
use dc.AutoScaling.Groups.{Group}
use dc.AutoScaling.Scaling.{count_of, max_ℤ, given_or, warm_pool_target_capacity}

in_range : (a b : ℤ) → pos 0 ≤ℤ a → pos 0 ≤ℤ b → IsInt64 a → IsInt64 b → IsInt64 (a -ℤ b)
unfolding ◌-ℤ◌
in_range (pos m) (pos n) h k i j = ground (arith, i.below, j.below)
in_range (negsuc m) b h k i j = absurd (omega arith)
in_range (pos m) (negsuc n) h k i j = absurd (omega arith)

pub difference :
    (a b : ℤ) → pos 0 ≤ℤ a → pos 0 ≤ℤ b → IsInt64 a → IsInt64 b → wrap64 (a -ℤ b) ≡ a -ℤ b
unfolding ◌-ℤ◌
difference a b h k i j = wrap64_id (a -ℤ b) (in_range a b h k i j)

-- The difference of a size that is given and a length does not wrap.
pub redundant :
    (ids : List String) (n : ℕ)
    → length ids < two63
    → n ≤ length ids
    → wrap64 (count_of ids -ℤ pos n) ≡ pos (length ids - n)
unfolding ◌-ℤ◌
redundant ids n b h =
    difference (count_of ids) (pos n) (omega arith) (omega arith)
      (record { above = omega arith; below = b })
      (record { above = omega arith; below = omega arith })
    ∙ ground arith

most :
    (d n : ℤ)
    → pos 0 ≤ℤ n
    → (n ≤ℤ max_ℤ (max_ℤ (pos 0) d) n)
      × (d ≤ℤ max_ℤ (max_ℤ (pos 0) d) n)
      × ((max_ℤ (max_ℤ (pos 0) d) n ≡ n) ⊎ (max_ℤ (max_ℤ (pos 0) d) n ≡ d))
most d (negsuc n) h = absurd (omega arith)
most (pos m) (pos n) h = ground arith
most (negsuc m) (pos n) h = ground arith

-- The warm pool is to have as many instances as its least size, or as the group lacks to the number that
-- is to be prepared, whichever is more, when these numbers are at least 0 and 64-bit.
pub warm_pool_target_capacity-most :
    {R : Type 0} (g : Group R)
    → pos 0 ≤ℤ g.warm_pool_min_size
    → pos 0 ≤ℤ g.desired_capacity
    → pos 0 ≤ℤ given_or g.warm_pool_max_prepared g.max_size
    → IsInt64 g.desired_capacity
    → IsInt64 (given_or g.warm_pool_max_prepared g.max_size)
    → (g.warm_pool_min_size ≤ℤ warm_pool_target_capacity g)
      × (given_or g.warm_pool_max_prepared g.max_size -ℤ g.desired_capacity
          ≤ℤ warm_pool_target_capacity g)
      × ((warm_pool_target_capacity g ≡ g.warm_pool_min_size)
          ⊎ (warm_pool_target_capacity g
              ≡ given_or g.warm_pool_max_prepared g.max_size -ℤ g.desired_capacity))
unfolding warm_pool_target_capacity
warm_pool_target_capacity-most g a b d i j =
    let wanted = given_or g.warm_pool_max_prepared g.max_size in
    rw (difference wanted g.desired_capacity d b j i)
      (most (wanted -ℤ g.desired_capacity) g.warm_pool_min_size a)
