-- ===== src/Examples/Profiles.antt =====
-- The theorems on test profiles and spot instances, at concrete inputs.
use dc.Prelude.{
  ◌⊎◌, String, ◌≡◌, ◌≢◌, refl, Bool, true, false, not, Option, none, some, List, [], ◌∷◌, arith,
  ◌==◌, eq_iff, All, inl, inr,
}
use dc.Prelude.Int.{ℤ, pos, wrap64}
use dc.Api.{ok}
use dc.Storage.{
  ResourceType, instance_type, volume_type, spot_instances_request_type, Storage,
  resource_attributes, find_key, Attributes, Attribute,
}
use dc.Storage.View.{view, spec_change, assign}
use dc.TestProfile.{
  Rule, Profile, MatchInput, Hook, Phase, before, start, DelayHooks, delay, spot_reclaim, validate,
}
use dc.TestProfile.Delays.{total_delay, delay_total}
use dc.TestProfile.Reclaims.{last_set, spot_reclaim-last_set, IsNatural, spot_reclaim-IsNatural}
use dc.Dispatcher.{TagSpecification}
use dc.Dispatcher.Filters.{Filter}
use dc.Spot.{
  MarketOptions, LaunchOptions, resolve_run_instances_spot_options, split_run_instances_tags, spot,
  validate_run_instances_tag_specifications,
}
use dc.Spot.Options.{
  IsLaunch, resolve_run_instances_spot_options-IsLaunch, split_run_instances_tags-on_demand,
}
use dc.Spot.Names
use dc.Spot.Requests.{close_spot_request, closing, close_spot_request-view}
use dc.Spot.Describe.{
  DescribeRequest, SpotInstanceRequest, split_spot_request_filters, describe_spot_instance_requests,
}
use dc.Spot.Describe.Selected.{Meets, IsTagFilter, describe_spot_instance_requests-Meets}
use dc.Spot.Plan.{ReclaimPlan}

abbrev no_delays : DelayHooks
no_delays = record { allocate = none; start = none; stop = none; terminate = none }

abbrev rule : String → Option ℤ → Option ℤ → Rule
rule action delay' after' = record {
  name = "";
  when = record { action = action; request = none; instance_filters = none };
  delay = record { before = record no_delays { start = delay' }; after = no_delays };
  spot_reclaim = record { after = after'; notice = none };
}

-- Three rules, of which the first and the last match.
abbrev profile : Profile
profile = record {
  version = pos 1;
  rules =
      rule "" (some (pos 5)) (some (pos 60))
      ∷ rule "StopInstances" (some (pos 100)) (some (pos 1))
      ∷ rule "runinstances" (some (pos 7)) (some (pos 90))
      ∷ [];
}

abbrev input : MatchInput
input = record {
  action = "RunInstances";
  market_type = "spot";
  instance_type = "m5.large";
  auto_scaling_group_name = "";
  vcpu = pos 2;
  memory_mib = pos 8192;
}

delay_total_example :
    delay (some profile) before start input ≡ wrap64 (total_delay profile.rules before start input)
delay_total_example = delay_total profile before start input

spot_reclaim-last_set_example :
    ((spot_reclaim (some profile) input).after
      ≡ last_set (λ r. r.spot_reclaim.after) profile.rules input)
    × ((spot_reclaim (some profile) input).notice
        ≡ last_set (λ r. r.spot_reclaim.notice) profile.rules input)
spot_reclaim-last_set_example = spot_reclaim-last_set profile input

accepted : validate profile ≡ ok tt
unfolding validate dc.TestProfile.validate_rule dc.TestProfile.validate_string_matcher
accepted = refl

spot_reclaim-IsNatural_example :
    IsNatural (spot_reclaim (some profile) input).after
    × IsNatural (spot_reclaim (some profile) input).notice
spot_reclaim-IsNatural_example = spot_reclaim-IsNatural profile input accepted

abbrev options : ReclaimPlan
options = record { after = pos 300; notice = pos 120 }

abbrev rejects : String → Bool
rejects price = not (price == "0.05")

abbrev market_options : MarketOptions
market_options = record {
  market_type = "";
  spot_options = some (record { max_price = " 0.05"; instance_interruption_behavior = "Stop" });
}

abbrev launch : LaunchOptions
launch = record { market_type = spot; max_price = "0.05"; interruption_behavior = "stop" }

resolves : resolve_run_instances_spot_options rejects (some market_options) ≡ ok launch
unfolding resolve_run_instances_spot_options dc.Spot.normalize_market_type dc.Prelude.Text.to_lower
    dc.Prelude.Text.trim_space dc.Spot.normalize_spot_interruption_behavior
    dc.Spot.normalize_spot_max_price
resolves = refl

resolve_run_instances_spot_options-IsLaunch_example : IsLaunch rejects launch
resolve_run_instances_spot_options-IsLaunch_example =
    resolve_run_instances_spot_options-IsLaunch rejects (some market_options) launch resolves

abbrev specifications : List TagSpecification
specifications =
    record { resource_type = instance_type; tags = record { key = "a"; value = "1" } ∷ [] } ∷ []

not_spot : "on-demand" ≢ spot
not_spot = λ h. cc ((eq_iff "on-demand" spot).1 h)

specified : validate_run_instances_tag_specifications specifications "on-demand" ≡ ok tt
unfolding validate_run_instances_tag_specifications dc.Storage.same_type
specified = refl

split_run_instances_tags-on_demand_example :
    ◌≡◌ {A = List (String × String)} (split_run_instances_tags specifications).1 []
split_run_instances_tags-on_demand_example =
    split_run_instances_tags-on_demand specifications "on-demand" not_spot specified

abbrev time : String
time = "2025-01-01T00:00:00Z"

-- A spot instance and its request.
abbrev store : Storage
store = record {
  resources =
      ("i-1", record { type = instance_type; attrs = (Names.request_id, "sir-1") ∷ [] })
      ∷ (
        "sir-1",
        record {
          type = spot_instances_request_type;
          attrs =
              (Names.create_time, time)
              ∷ (Names.status_updated_at, time)
              ∷ (Names.state, "active")
              ∷ ("tag:a", "1")
              ∷ [];
        },
      )
      ∷ [];
}

abbrev instance_attributes : Attributes
instance_attributes = record { key = Names.request_id; value = "sir-1" } ∷ []

reads_instance : resource_attributes store "i-1" ≡ ok instance_attributes
unfolding resource_attributes dc.Storage.lookup dc.Prelude.Sorting.sort_by
reads_instance = refl

finds_request : find_key instance_attributes Names.request_id ≡ some "sir-1"
unfolding find_key
finds_request = refl

close_spot_request-view_example :
    ((close_spot_request "i-1" "gone" "m" time store).1 ≡ ok tt)
    × (view (close_spot_request "i-1" "gone" "m" time store).0
        ≡ (spec_change "sir-1" (assign (closing "gone" "m" time)) (view store)).0)
close_spot_request-view_example =
    close_spot_request-view "i-1" "gone" "m" time "sir-1" instance_attributes store reads_instance
      finds_request refl

abbrev is_time : String → Bool
is_time s = s == time

abbrev tag_filter : Filter
tag_filter = record { name = some "tag:a"; values = some ("1" ∷ []) }

abbrev state_filter : Filter
state_filter = record { name = some "state"; values = some ("active" ∷ []) }

abbrev describe : DescribeRequest
describe = record {
  dry_run = false;
  ids = [];
  filters = tag_filter ∷ state_filter ∷ [];
  next_token = none;
  max_results = none;
}

abbrev described : SpotInstanceRequest
described = record {
  id = "sir-1";
  state = "active";
  spot_price = "";
  instance_id = none;
  create_time = time;
  request_type = "one-time";
  interruption_behavior = none;
  status = record {
    code = "fulfilled";
    message = "Your spot request is fulfilled.";
    update_time = time;
  };
  launch_type = "";
  tag_set = record { key = "a"; value = "1" } ∷ [];
}

splits : split_spot_request_filters describe.filters ≡ ok (tag_filter ∷ [], state_filter ∷ [])
unfolding split_spot_request_filters dc.Prelude.Text.trim_space dc.Prelude.Text.has_prefix
splits = refl

lists : describe_spot_instance_requests is_time describe store ≡ ok (described ∷ [], none)
unfolding describe_spot_instance_requests split_spot_request_filters dc.Prelude.Text.trim_space
    dc.Prelude.Text.has_prefix dc.Dispatcher.Filters.apply_filters dc.Storage.registered_resources
    dc.Prelude.Sorting.sort_by dc.Storage.same_type resource_attributes dc.Storage.lookup
    dc.Dispatcher.Filters.filter_once dc.Storage.insert dc.Prelude.Text.lt_text dc.Storage.is_tag
    dc.Storage.tag_key dc.Spot.Describe.api_spot_request find_key dc.Dispatcher.Filters.filter_all
    dc.Dispatcher.Filters.filter_by_tag dc.Dispatcher.Filters.filter_by_tag_key
    dc.Dispatcher.Filters.filter_named dc.Dispatcher.Filters.has_tag_key
    dc.Dispatcher.Filters.initial_ids dc.Dispatcher.Filters.read_attributes
    dc.Dispatcher.Filters.tag_hits dc.Dispatcher.Paging.apply_next_token
    dc.Dispatcher.Paging.token_offset dc.Prelude.Text.after_prefix? dc.Spot.Describe.attr_or_default
    dc.Spot.Describe.parse_required_time_attr dc.Spot.Describe.spot_request_matches_filter
    dc.Spot.Describe.spot_request_matches_filters dc.Spot.Describe.tags_from_attributes
lists = refl

describe_spot_instance_requests-Meets_example :
    All (λ x. All (λ f. IsTagFilter f ⊎ Meets x f) describe.filters) (described ∷ [])
describe_spot_instance_requests-Meets_example =
    describe_spot_instance_requests-Meets is_time describe store (described ∷ []) none lists
