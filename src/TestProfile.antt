-- ===== src/TestProfile.antt =====
-- pkg/dc2/testprofile/profile.go: the rules that inject delays and spot reclaims. Decoding the YAML
-- document is left to its library; the model starts from the decoded profile. A time.Duration is
-- an int64 of nanoseconds, a pointer is an option.
pub mod Delays
pub mod Reclaims
use dc.Prelude.{
  String, ◌≡◌, refl, Bool, true, false, ◌&&◌, Option, none, some, List, [], ◌∷◌, ◌==◌,
  if◌then◌else◌, is_some, not,
}
use dc.Prelude.Int.{ℤ, pos, ◌+ℤ◌, wrap64, ltb_ℤ, leb_ℤ}
use dc.Prelude.Text.{trim_space, to_lower, equal_fold}
use dc.Prelude.Glob.{glob_match}
use dc.Api.{Result, ok, err, ◌>>=◌, ◌>>◌, fail_if, plain, wrap}

-- Hook and Phase; any other text is `other_hook` or `other_phase`.
pub data Hook : Type 0 where
  before after other_hook : Hook

pub data Phase : Type 0 where
  allocate start stop terminate other_phase : Phase

pub record IntRange : Type 0 where
  pub gte : Option ℤ
  pub lte : Option ℤ
  pub gt : Option ℤ
  pub lt : Option ℤ

pub record StringMatcher : Type 0 where
  pub equals : Option String
  pub glob : Option String

pub record InstanceFilters : Type 0 where
  pub type : Option StringMatcher
  pub vcpu : Option IntRange
  pub memory_mib : Option IntRange

pub record MarketFilters : Type 0 where
  pub type : Option String

pub record AutoScalingGroupFilters : Type 0 where
  pub name : Option StringMatcher

pub record AutoScalingFilters : Type 0 where
  pub group : Option AutoScalingGroupFilters

pub record RequestFilters : Type 0 where
  pub market : Option MarketFilters
  pub auto_scaling : Option AutoScalingFilters

pub record RuleWhen : Type 0 where
  pub action : String
  pub request : Option RequestFilters
  pub instance_filters : Option InstanceFilters

pub record DelayHooks : Type 0 where
  pub allocate : Option ℤ
  pub start : Option ℤ
  pub stop : Option ℤ
  pub terminate : Option ℤ

pub record DelaySpec : Type 0 where
  pub before : DelayHooks
  pub after : DelayHooks

-- SpotReclaimSpec and SpotReclaimConfig
pub record SpotReclaim : Type 0 where
  pub after : Option ℤ
  pub notice : Option ℤ

pub record Rule : Type 0 where
  pub name : String
  pub when : RuleWhen
  pub delay : DelaySpec
  pub spot_reclaim : SpotReclaim

pub record Profile : Type 0 where
  pub version : ℤ
  pub rules : List Rule

pub record MatchInput : Type 0 where
  pub action : String
  pub market_type : String
  pub instance_type : String
  pub auto_scaling_group_name : String
  pub vcpu : ℤ
  pub memory_mib : ℤ

-- `r.GTE == nil ||` a test of its value
abbrev bound : Option ℤ → (ℤ → Bool) → Bool
bound none test = true
bound (some b) test = test b

unfoldable pub match_int_range : Option IntRange → ℤ → Bool
match_int_range none value = true
match_int_range (some r) value =
    bound r.gte (λ b. not (ltb_ℤ value b))
    && bound r.lte (λ b. not (ltb_ℤ b value))
    && bound r.gt (λ b. not (leb_ℤ value b))
    && bound r.lt (λ b. not (leb_ℤ b value))

unfoldable pub match_string_matcher : Option StringMatcher → String → Bool
match_string_matcher none value = true
match_string_matcher (some m) value = elim m.equals [
  | some e ↦ equal_fold (trim_space e) (trim_space value)
  | none ↦ elim m.glob [
    | none ↦ true
    | some g ↦
        let pattern = trim_space g in
        if pattern == "" then true else glob_match (to_lower pattern) (to_lower (trim_space value))
  ]
]

-- The market filter of matchRequestFilters
unfoldable pub match_market : Option MarketFilters → String → Bool
match_market none market_type = true
match_market (some f) market_type = elim f.type [
  | none ↦ true
  | some t ↦
      let expected = trim_space t in
      let market = trim_space market_type in
      if expected == ""
      then true
      else equal_fold expected (if market == "" then "on-demand" else market)
]

match_group : Option AutoScalingFilters → String → Bool
match_group none name = true
match_group (some f) name = elim f.group [ none ↦ true | some g ↦ match_string_matcher g.name name ]

unfoldable pub match_request_filters : Option RequestFilters → MatchInput → Bool
unfolding match_group
match_request_filters none input = true
match_request_filters (some f) input =
    match_market f.market input.market_type
    && match_group f.auto_scaling input.auto_scaling_group_name

unfoldable pub match_instance_filters : Option InstanceFilters → MatchInput → Bool
match_instance_filters none input = true
match_instance_filters (some f) input =
    match_string_matcher f.type input.instance_type
    && match_int_range f.vcpu input.vcpu
    && match_int_range f.memory_mib input.memory_mib

-- Rule.matches
unfoldable pub matches : Rule → MatchInput → Bool
matches r input =
    let action = trim_space r.when.action in
    (if action == "" then true else equal_fold action input.action)
    && match_request_filters r.when.request input
    && match_instance_filters r.when.instance_filters input

-- validateStringMatcher
unfoldable pub validate_string_matcher : Option StringMatcher → Result (Unit {0})
validate_string_matcher none = ok tt
validate_string_matcher (some m) = fail_if (is_some m.equals && is_some m.glob) (plain "matcher")

abbrev group_name : Option RequestFilters → Option StringMatcher
group_name none = none
group_name (some f) = elim f.auto_scaling [
  | none ↦ none
  | some a ↦ elim a.group [ none ↦ none | some g ↦ g.name ]
]

abbrev type_matcher : Option InstanceFilters → Option StringMatcher
type_matcher none = none
type_matcher (some f) = f.type

abbrev is_negative : Option ℤ → Bool
is_negative none = false
is_negative (some d) = ltb_ℤ d (pos 0)

-- Rule.validate
unfoldable pub validate_rule : Rule → Result (Unit {0})
validate_rule r = do
  validate_string_matcher (group_name r.when.request)
  validate_string_matcher (type_matcher r.when.instance_filters)
  fail_if (is_negative r.spot_reclaim.after) (plain "reclaim.after")
  fail_if (is_negative r.spot_reclaim.notice) (plain "reclaim.notice")

validate_rules : List Rule → Result (Unit {0})
validate_rules [] = ok tt
validate_rules (r ∷ rs) = wrap (validate_rule r) >> validate_rules rs

abbrev is_version_1 : ℤ → Bool
is_version_1 v = leb_ℤ v (pos 1) && leb_ℤ (pos 1) v

-- Profile.validate
unfoldable pub validate : Profile → Result (Unit {0})
unfolding validate_rules
validate p = do fail_if (not (is_version_1 p.version)) (plain "version"); validate_rules p.rules

abbrev phase_delay : DelayHooks → Phase → Option ℤ
phase_delay h allocate = h.allocate
phase_delay h start = h.start
phase_delay h stop = h.stop
phase_delay h terminate = h.terminate
phase_delay h other_phase = none

abbrev or_zero : Option ℤ → ℤ
or_zero none = pos 0
or_zero (some d) = d

-- Rule.delayFor
unfoldable pub delay_for : Rule → Hook → Phase → ℤ
delay_for r before phase = or_zero (phase_delay r.delay.before phase)
delay_for r after phase = or_zero (phase_delay r.delay.after phase)
delay_for r other_hook phase = pos 0

-- The loop of Profile.Delay; `total` wraps around as an int64 does.
delay_loop : List Rule → Hook → Phase → MatchInput → ℤ → ℤ
delay_loop [] hook phase input total = total
delay_loop (r ∷ rs) hook phase input total =
    delay_loop rs hook phase input
      (if matches r input then wrap64 (total +ℤ delay_for r hook phase) else total)

-- Profile.Delay; a nil profile has no delay.
unfoldable pub delay : Option Profile → Hook → Phase → MatchInput → ℤ
unfolding delay_loop
delay none hook phase input = pos 0
delay (some p) hook phase input = delay_loop p.rules hook phase input (pos 0)

abbrev pub override : Option ℤ → Option ℤ → Option ℤ
override none old = old
override (some d) old = some d

reclaim_loop : List Rule → MatchInput → SpotReclaim → SpotReclaim
reclaim_loop [] input out = out
reclaim_loop (r ∷ rs) input out = reclaim_loop rs input (
    if matches r input
    then record {
      after = override r.spot_reclaim.after out.after;
      notice = override r.spot_reclaim.notice out.notice;
    }
    else out)

-- Profile.SpotReclaim
unfoldable pub spot_reclaim : Option Profile → MatchInput → SpotReclaim
unfolding reclaim_loop
spot_reclaim none input = record { after = none; notice = none }
spot_reclaim (some p) input = reclaim_loop p.rules input (record { after = none; notice = none })
