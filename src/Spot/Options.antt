-- ===== src/Spot/Options.antt =====
-- What pkg/dc2/dispatcher_spot.go makes of the market options and tags of a request.
use mathlib.Core.Path.{subst}
use dc.Prelude.{
  suc, eq_false, ◌∷◌, [], ◌≢◌, List, ℕ, is_some, String, ◌≡◌, refl, sym, ap, ◌∙◌, ◌⊎◌, inl, inr,
  Bool, true, false, ◌||◌, ◌&&◌, Option, none, some, arith, ◌==◌, eq_iff, Bool-cases,
}
use dc.Prelude.Text.{trim_space, to_lower}
use dc.Dispatcher.{TagSpecification}
use dc.Storage.{ResourceType, same_type, spot_instances_request_type}
use dc.Api.{ok, Result-cases}
use dc.Spot.{
  taggable, TagMap, split_into, split_run_instances_tags, validate_tags_from,
  validate_run_instances_tag_specifications, on_demand, spot, terminate, normalize_market_type,
  normalize_spot_interruption_behavior, normalize_spot_max_price, SpotOptions, MarketOptions,
  LaunchOptions, launch_on, market_of, spot_launch, launch_in, sets_options,
  resolve_run_instances_spot_options,
}

-- A launch is on demand, without a price and with the default behavior, or spot with one of the
-- three behaviors and an empty price or one that is accepted.
pub record IsLaunch (rejects : String → Bool) (o : LaunchOptions) : Type 0 where
  pub market : (o ≡ launch_on on_demand) ⊎ (o.market_type ≡ spot)
  pub behavior :
      (o.interruption_behavior ≡ terminate)
      ⊎ (o.interruption_behavior ≡ "stop")
      ⊎ (o.interruption_behavior ≡ "hibernate")
  pub price : (o.max_price ≡ "") ⊎ (rejects o.max_price ≡ false)

or-cases : (a b : Bool) → (a || b) ≡ true → (a ≡ true) ⊎ (b ≡ true)
or-cases true b h = inl refl
or-cases false b h = inr h

market_cases : (raw m : String) → normalize_market_type raw ≡ ok m → (m ≡ on_demand) ⊎ (m ≡ spot)
unfolding normalize_market_type
market_cases raw m h = ground arith

behavior_cases :
    (raw b : String)
    → normalize_spot_interruption_behavior raw ≡ ok b
    → (b ≡ terminate) ⊎ (b ≡ "stop") ⊎ (b ≡ "hibernate")
unfolding normalize_spot_interruption_behavior
behavior_cases raw b h =
    let t = to_lower (trim_space raw) in
    elim (Bool-cases (t == "stop" || t == "hibernate")) [
      | inl e ↦ ground (
        arith,
        h,
        or-cases (t == "stop") (t == "hibernate") e,
        eq_iff t "stop",
        eq_iff t "hibernate",
      )
      | inr e ↦ ground (arith, h, e)
    ]

price_cases :
    (rejects : String → Bool) (raw p : String)
    → normalize_spot_max_price rejects raw ≡ ok p
    → (p ≡ "") ⊎ (rejects p ≡ false)
unfolding normalize_spot_max_price
price_cases rejects raw p h = ground arith

IsLaunch-default :
    (rejects : String → Bool) (m : String)
    → (m ≡ on_demand) ⊎ (m ≡ spot)
    → IsLaunch rejects (launch_on m)
IsLaunch-default rejects m (inl e) = record {
  market = inl (ap launch_on e);
  behavior = inl refl;
  price = inl refl;
}
IsLaunch-default rejects m (inr e) = record {
  market = inr e;
  behavior = inl refl;
  price = inl refl;
}

abbrev built : String → String → LaunchOptions
built price b = record { market_type = spot; max_price = price; interruption_behavior = b }

spot_launch-IsLaunch :
    (rejects : String → Bool) (o : Option SpotOptions) (out : LaunchOptions)
    → spot_launch rejects o ≡ ok out
    → IsLaunch rejects out
unfolding spot_launch
spot_launch-IsLaunch rejects none out h =
    subst (IsLaunch rejects) (ground (arith, h)) (IsLaunch-default rejects spot (inr refl))
spot_launch-IsLaunch rejects (some o) out h =
    elim (Result-cases (normalize_spot_interruption_behavior o.instance_interruption_behavior)) [
      | inl (x, p) ↦ absurd (ground (arith, h, p))
      | inr (b, p) ↦ elim (Result-cases (normalize_spot_max_price rejects o.max_price)) [
        | inl (x, q) ↦ absurd (ground (arith, h, p, q))
        | inr (price, q) ↦
            let same : built price b ≡ out = ground (arith, h, p, q) in
            subst (IsLaunch rejects) same (record {
              market = inr refl;
              behavior = behavior_cases _ b p;
              price = price_cases rejects _ price q;
            })
      ]
    ]

launch_in-IsLaunch :
    (rejects : String → Bool) (o : Option SpotOptions) (m : String) (out : LaunchOptions)
    → (m ≡ on_demand) ⊎ (m ≡ spot)
    → launch_in rejects o m ≡ ok out
    → IsLaunch rejects out
unfolding launch_in
launch_in-IsLaunch rejects o m out given h = elim (Bool-cases (m == spot)) [
  | inl e ↦ spot_launch-IsLaunch rejects o out (ground (arith, h, e))
  | inr e ↦ elim (Bool-cases (sets_options o)) [
    | inl s ↦ absurd (ground (arith, h, e, s))
    | inr s ↦ subst (IsLaunch rejects) (ground (arith, h, e, s)) (IsLaunch-default rejects m given)
  ]
]

-- The options that a request resolves to are those of an on-demand launch or of a spot launch,
-- with one of the known behaviors and a price that is empty or accepted.
pub resolve_run_instances_spot_options-IsLaunch :
    (rejects : String → Bool) (o : Option MarketOptions) (out : LaunchOptions)
    → resolve_run_instances_spot_options rejects o ≡ ok out
    → IsLaunch rejects out
unfolding resolve_run_instances_spot_options
resolve_run_instances_spot_options-IsLaunch rejects none out h =
    subst (IsLaunch rejects) (ground (arith, h)) (IsLaunch-default rejects on_demand (inl refl))
resolve_run_instances_spot_options-IsLaunch rejects (some o) out h =
    elim (Result-cases (normalize_market_type o.market_type)) [
      | inl (x, p) ↦ absurd (ground (arith, h, p))
      | inr (m, p) ↦ elim (Bool-cases (trim_space o.market_type == "" && is_some o.spot_options)) [
        | inl e ↦
            let chosen : market_of o ≡ ok spot = rw (p, market_of, e) refl in
            launch_in-IsLaunch rejects o.spot_options spot out (inr refl)
              (sym (rw (chosen, resolve_run_instances_spot_options) refl) ∙ h)
        | inr e ↦
            let chosen : market_of o ≡ ok m = rw (p, market_of, e) refl in
            launch_in-IsLaunch rejects o.spot_options m out (market_cases _ m p)
              (sym (rw (chosen, resolve_run_instances_spot_options) refl) ∙ h)
      ]
    ]

not_spot_request :
    (rt : ResourceType) (market : String)
    → (market == spot) ≡ false
    → taggable rt market ≡ true
    → same_type rt spot_instances_request_type ≡ false
unfolding same_type
not_spot_request rt market e h = ground arith

no_spot_tags :
    (i : ℕ) (specs : List TagSpecification) (market : String) (a b : TagMap)
    → (market == spot) ≡ false
    → validate_tags_from i specs market ≡ ok tt
    → (split_into specs a b).1 ≡ b
unfolding validate_tags_from split_into
no_spot_tags i [] market a b e h = refl
no_spot_tags i (spec ∷ specs) market a b e h =
    elim (Bool-cases (taggable spec.resource_type market)) [
      | inl t ↦
          rw (not_spot_request spec.resource_type market e t, split_into)
            (no_spot_tags (suc i) specs market _ b e (ground (arith, h, t)))
      | inr t ↦ absurd (ground (arith, h, t))
    ]

-- Tags that are accepted for a launch that is not a spot launch name no tag of a spot request.
pub split_run_instances_tags-on_demand :
    (specs : List TagSpecification) (market : String)
    → market ≢ spot
    → validate_run_instances_tag_specifications specs market ≡ ok tt
    → (split_run_instances_tags specs).1 ≡ []
unfolding validate_run_instances_tag_specifications split_run_instances_tags
split_run_instances_tags-on_demand specs market n h =
    no_spot_tags 0 specs market [] [] (eq_false market spot n) h
