-- ===== src/AutoScaling/Stored/Sizes.antt =====
-- The sizes of the groups that loadAutoScalingGroupData of pkg/dc2/dispatcher_autoscaling.go reads and
-- saveAutoScalingGroupData writes.
use mathlib.Core.Path.{subst}
use dc.Prelude.{
  String, ◌≡◌, refl, sym, ap, ◌∙◌, Bool, Option, none, some, List, arith, inl, inr, Option-cases,
}
use dc.Prelude.Int.{ℤ, pos, ◌≤ℤ◌}
use dc.Prelude.Strconv.{parse_int}
use dc.Api.{ok, err, wrapped, plain, Result-cases}
use dc.Storage.{Storage, Attributes, find_key, resource_attributes, auto_scaling_group_type}
use dc.Dispatcher.{find_resource}
use dc.AutoScaling.Names
use dc.AutoScaling.InOrder.{InOrder, Fits, number_of, read-Fits}
use dc.AutoScaling.Groups.{Group, GroupJson, required_int, optional_int, with_fallback}
use dc.AutoScaling.Scaling.{given_or}
use dc.Api.{Error}
use dc.Prelude.{[], ◌∷◌, ◌⊎◌}
use dc.Prelude.Strconv.{format_int}
use dc.Prelude.Strconv.RoundTrip.{parse_int-format_int_same}
use dc.Storage.{Attribute}
use dc.Storage.View.{Fields, assign, last_value}
use dc.Executor.Keeps.{Keeps}
use dc.LaunchTemplate.{BlockDeviceMapping}
use dc.AutoScaling.InOrder.{set-fitting}
use dc.AutoScaling.Stored.RoundTrip.{zone_attributes_lem, vpc_attributes_lem}
use dc.AutoScaling.Stored.Values.{Differs, all_attributes, zones_text, plain_value, attribute_of}
use dc.AutoScaling.Stored.{
  group_from, load_group, save_group, group_attributes, fixed_attributes, policy_text,
  mapping_attributes, some_int,
}
use dc.AutoScaling.Groups.{
  optional_bool, unmarshal_policy, parse_availability_zones, parse_warm_pool_state, pool_stopped,
}
use dc.AutoScaling.Stored.{required_text, text_or_default}
use dc.LaunchTemplate.Load.{unmarshal_list}
use dc.Storage.{key_or_empty}
use dc.Api.{wrap, plain, fail_if}
use dc.Prelude.{not, false}
use dc.AutoScaling.Handlers.Sizes.{after, after_check, same_ok, IsSized}

required_int-number :
    (attrs : Attributes) (k : String) (i : ℤ)
    → required_int attrs k ≡ ok i
    → number_of (find_key attrs k) ≡ some i
unfolding required_int
required_int-number attrs k i h = elim (Option-cases (find_key attrs k)) [
  | inl e ↦ absurd (ground (arith, rw (e, required_int) at h))
  | inr (v, e) ↦ ground (arith, rw (e, required_int) at h, e)
]

optional_int-number :
    (attrs : Attributes) (k : String) (i : ℤ)
    → optional_int attrs k ≡ ok (some i)
    → number_of (find_key attrs k) ≡ some i
unfolding optional_int
optional_int-number attrs k i h = elim (Option-cases (find_key attrs k)) [
  | inl e ↦ absurd (ground (arith, rw (e, optional_int) at h))
  | inr (v, e) ↦ ground (arith, rw (e, optional_int) at h, e)
]

-- What the numbers of a group that is loaded were read from.
record Numbers {R : Type 0} (attrs : Attributes) (g : Group R) : Type 0 where
  low : required_int attrs Names.min_size ≡ ok g.min_size
  high : required_int attrs Names.max_size ≡ ok g.max_size
  desired : required_int attrs Names.desired_capacity ≡ ok g.desired_capacity
  pool_least :
      with_fallback (pos 0) (optional_int attrs Names.warm_pool_min_size) ≡ ok g.warm_pool_min_size
  pool_most :
      optional_int attrs Names.warm_pool_max_group_prepared_capacity ≡ ok g.warm_pool_max_prepared

module _ {R : Type 0} (json : GroupJson R) (is_time : String → Bool) where
  numbers :
      (name : String) (attrs : Attributes) (g : Group R)
      → group_from json is_time name attrs ≡ ok g
      → Numbers attrs g
  unfolding group_from
  numbers name attrs g h =
      let (low, p1, h1) = after (required_int attrs Names.min_size) _ g h in
      let (high, p2, h2) = after (required_int attrs Names.max_size) _ g h1 in
      let (desired, p3, h3) = after (required_int attrs Names.desired_capacity) _ g h2 in
      let (created, p4, h4) = after (required_text attrs Names.created_time) _ g h3 in
      let (u, h5) = after_check (fail_if (not (is_time created)) (wrapped (plain "time"))) _ g h4 in
      let (id, p6, h6) = after (required_text attrs Names.launch_template_id) _ g h5 in
      let (template, p7, h7) = after (required_text attrs Names.launch_template_name) _ g h6 in
      let (mappings, p8, h8) =
        after (wrap (unmarshal_list json.mappings (key_or_empty attrs Names.block_device_mappings)))
          _ g h7 in
      let (policy, p9, h9) =
        after
          (wrap (unmarshal_policy json.policy (key_or_empty attrs Names.mixed_instances_policy))) _
          g h8 in
      let (zones, p10, h10) =
        after (wrap (parse_availability_zones (key_or_empty attrs Names.availability_zones))) _ g
          h9 in
      let (cooldown, p11, h11) = after (required_int attrs Names.default_cooldown) _ g h10 in
      let (enabled, p12, h12) =
        after (with_fallback false (optional_bool attrs Names.warm_pool_enabled)) _ g h11 in
      let (least, p13, h13) =
        after (with_fallback (pos 0) (optional_int attrs Names.warm_pool_min_size)) _ g h12 in
      let (prepared, p14, h14) =
        after (optional_int attrs Names.warm_pool_max_group_prepared_capacity) _ g h13 in
      let (state, p15, h15) =
        after
          (parse_warm_pool_state
            (text_or_default (key_or_empty attrs Names.warm_pool_state) pool_stopped))
          _ g h14 in
      let (reuse, p16, h16) =
        after (optional_bool attrs Names.warm_pool_reuse_on_scale_in) _ g h15 in
      let same = same_ok _ g h16 in
      record {
        low = p1 ∙ ap ok (ap (λ (x : Group R). x.min_size) same);
        high = p2 ∙ ap ok (ap (λ (x : Group R). x.max_size) same);
        desired = p3 ∙ ap ok (ap (λ (x : Group R). x.desired_capacity) same);
        pool_least = p13 ∙ ap ok (ap (λ (x : Group R). x.warm_pool_min_size) same);
        pool_most = p14 ∙ ap ok (ap (λ (x : Group R). x.warm_pool_max_prepared) same);
      }

  pub group_from-IsSized :
      (name : String) (attrs : Attributes) (g : Group R)
      → Fits (find_key attrs)
      → group_from json is_time name attrs ≡ ok g
      → IsSized g
  group_from-IsSized name attrs g fits h =
      let n = numbers name attrs g h in
      let (least, enough, most) =
        fits.sizes g.min_size g.max_size g.desired_capacity
          (required_int-number attrs Names.min_size g.min_size n.low)
          (required_int-number attrs Names.max_size g.max_size n.high)
          (required_int-number attrs Names.desired_capacity g.desired_capacity n.desired) in
      record {
        least = least;
        enough = enough;
        most = most;
        pool_least = elim (Result-cases (optional_int attrs Names.warm_pool_min_size)) [
          | inl (e, p) ↦ absurd (ground (arith, rw p at n.pool_least))
          | inr (none, p) ↦ ground (arith, rw p at n.pool_least)
          | inr (some i, p) ↦
              let same : i ≡ g.warm_pool_min_size = ground (arith, rw p at n.pool_least) in
              subst (λ (j : ℤ). pos 0 ≤ℤ j) same
                (fits.pool_least i (optional_int-number attrs Names.warm_pool_min_size i p))
        ];
        pool_most = elim (Option-cases g.warm_pool_max_prepared) [
          | inl e ↦ rw e (omega (arith, least, enough, most))
          | inr (i, e) ↦ rw e (
              fits.pool_most i (
                optional_int-number attrs Names.warm_pool_max_group_prepared_capacity i
                  (n.pool_most ∙ ap ok e)))
        ];
      }

  -- A group that is loaded from a storage in order has its sizes in order.
  pub load_group-IsSized :
      (name : String) (s : Storage) (g : Group R)
      → InOrder s
      → load_group json is_time name s ≡ ok g
      → IsSized g
  unfolding load_group
  load_group-IsSized name s g o h =
      elim (Result-cases (find_resource s auto_scaling_group_type name)) [
        | inl (e, p) ↦ absurd (ground (arith, h, p))
        | inr (r, p) ↦ elim (Result-cases (resource_attributes s name)) [
          | inl (e, q) ↦ absurd (ground (arith, h, p, q))
          | inr (attrs, q) ↦
              group_from-IsSized name attrs g (read-Fits s name attrs o q)
                (sym (rw (p, q, load_group) refl) ∙ h)
        ]
      ]

-- What is written for a size reads as the size, if at all.
same_size : (i j : ℤ) → parse_int 10 (format_int 10 i) ≡ some j → i ≡ j
same_size i j h = parse_int-format_int_same 10 (omega arith) (omega arith) i j h

same_some_int : (o : Option ℤ) (j : ℤ) → parse_int 10 (some_int o) ≡ some j → o ≡ some j
unfolding parse_int
same_some_int none j h = absurd (ground (arith, h))
same_some_int (some i) j h = ap some (same_size i j h)

prepared-least : (o : Option ℤ) (n high : ℤ) → o ≡ some n → pos 0 ≤ℤ given_or o high → pos 0 ≤ℤ n
prepared-least none n high e h = absurd (ground (arith, e))
prepared-least (some i) n high e h = subst (λ (j : ℤ). pos 0 ≤ℤ j) (ground (arith, e)) h

module _ {R : Type 0} (json : GroupJson R) (g : Group R) (policy : String) (m : Option String) where
  abbrev saved : List Attribute
  saved =
      all_attributes (fixed_attributes json g policy) m (zones_text g.availability_zones)
        g.vpc_zone_identifier

  -- The value of an attribute that every group has.
  saved_value :
      (f : Fields) (k v : String)
      → Differs Names.block_device_mappings k
      → Differs Names.availability_zones k
      → Differs Names.vpc_zone_identifier k
      → last_value (fixed_attributes json g policy) k ≡ some v
      → assign saved f k ≡ some v
  saved_value f k v a b c e =
      rw
        (
          plain_value (fixed_attributes json g policy) m (zones_text g.availability_zones)
              g.vpc_zone_identifier k a b c,
          e,
        )
        refl

  saved_number :
      (f : Fields) (k v : String) (n : ℤ)
      → assign saved f k ≡ some v
      → number_of (assign saved f k) ≡ some n
      → parse_int 10 v ≡ some n
  saved_number f k v n e h = sym (ap number_of e) ∙ h

  saved-Fits : (f : Fields) → IsSized g → Fits (assign saved f)
  unfolding fixed_attributes
  saved-Fits f sized =
      let value : (k v : String)
          → Differs Names.block_device_mappings k
          → Differs Names.availability_zones k
          → Differs Names.vpc_zone_identifier k
          → last_value (fixed_attributes json g policy) k ≡ some v
          → assign saved f k ≡ some v =
        saved_value f in
      record {
        sizes = λ low high desired a b c.
            let l = same_size g.min_size low (
              saved_number f Names.min_size _ low (value Names.min_size _ refl refl refl refl) a) in
            let h = same_size g.max_size high (
              saved_number f Names.max_size _ high (value Names.max_size _ refl refl refl refl)
                b) in
            let d = same_size g.desired_capacity desired (
              saved_number f Names.desired_capacity _ desired
                (value Names.desired_capacity _ refl refl refl refl) c) in
            (
              subst (λ (i : ℤ). pos 0 ≤ℤ i) l sized.least,
              rw (sym l, sym d) sized.enough,
              rw (sym d, sym h) sized.most,
            );
        pool_least = λ n a.
            subst (λ (i : ℤ). pos 0 ≤ℤ i)
              (same_size g.warm_pool_min_size n (
                saved_number f Names.warm_pool_min_size _ n
                  (value Names.warm_pool_min_size _ refl refl refl refl) a))
              sized.pool_least;
        pool_most = λ n a.
            prepared-least g.warm_pool_max_prepared n g.max_size
              (same_some_int g.warm_pool_max_prepared n (
                saved_number f Names.warm_pool_max_group_prepared_capacity _ n
                  (value Names.warm_pool_max_group_prepared_capacity _ refl refl refl refl) a))
              sized.pool_most;
      }

mapping-cases :
    {R : Type 0} (json : GroupJson R) (ms : List BlockDeviceMapping)
    → ((e : Error) × (mapping_attributes json ms ≡ err e))
      ⊎ ((m : Option String) × (mapping_attributes json ms
            ≡ ok (attribute_of Names.block_device_mappings m)))
unfolding mapping_attributes
mapping-cases json [] = inr (none, refl)
mapping-cases json (m ∷ ms) = elim (Option-cases (json.mappings.marshal (m ∷ ms))) [
  | inl e ↦ inl (wrapped (wrapped (plain "json")), rw (e, mapping_attributes) refl)
  | inr (raw, e) ↦ inr (some raw, rw (e, mapping_attributes) refl)
]

-- Saving a group whose sizes are in order keeps the storage in order.
pub save_group-InOrder :
    {R : Type 0} (json : GroupJson R) (g : Group R) → IsSized g → Keeps InOrder (save_group json g)
unfolding save_group group_attributes
save_group-InOrder json g sized = record {
  run = λ s o. elim (Result-cases (policy_text json g.policy)) [
    | inl (e, p) ↦ rw (p, save_group) o
    | inr (policy, p) ↦ elim (mapping-cases json g.block_device_mappings) [
      | inl (e, q) ↦ rw (p, q, save_group) o
      | inr (m, q) ↦
          rw
            (
              p,
              q,
              zone_attributes_lem json g.availability_zones,
              vpc_attributes_lem json g.vpc_zone_identifier,
              save_group,
            )
            ((set-fitting g.name (saved json g policy m)
                (λ f fits. saved-Fits json g policy m f sized)).run
              s o)
    ]
  ];
}
