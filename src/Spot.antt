-- ===== src/Spot.antt =====
-- pkg/dc2/dispatcher_spot.go: the market options and the tags of a RunInstances request. The spot
-- requests and the reclaims are in the children.
pub mod Names
pub mod Options
pub mod Requests
pub mod Describe
pub mod Plan
pub mod Schedule
use Prim.Native.String.{◌++◌}
use dc.Prelude.{
  ℕ, suc, String, Bool, true, false, ◌&&◌, ◌||◌, not, Option, none, some, List, [], ◌∷◌, ◌==◌,
  if◌then◌else◌, is_some,
}
use dc.Prelude.Text.{trim_space, to_lower}
use dc.Prelude.Strconv.{format_uint}
use dc.Api.{Result, ok, err, ◌>>=◌, ◌>>◌, fail_if, invalid_parameter_value}
use dc.Storage.{ResourceType, instance_type, spot_instances_request_type, same_type, insert}
use dc.Dispatcher.{Tag, TagSpecification}

abbrev pub on_demand : String
on_demand = "on-demand"

abbrev pub spot : String
spot = "spot"

abbrev pub terminate : String
terminate = "terminate"

unfoldable pub normalize_market_type : String → Result String
normalize_market_type raw =
    let market = to_lower (trim_space raw) in
    if market == "" || market == on_demand
    then ok on_demand
    else if market == spot
    then ok spot
    else err (invalid_parameter_value "InstanceMarketOptions.MarketType")

unfoldable pub normalize_spot_interruption_behavior : String → Result String
normalize_spot_interruption_behavior raw =
    let behavior = to_lower (trim_space raw) in
    if behavior == "" || behavior == terminate
    then ok terminate
    else if behavior == "stop" || behavior == "hibernate"
    then ok behavior
    else err
        (invalid_parameter_value "InstanceMarketOptions.SpotOptions.InstanceInterruptionBehavior")

-- `rejects` says of a text that strconv.ParseFloat refuses it or gives a value of at most 0.
unfoldable pub normalize_spot_max_price : (String → Bool) → String → Result String
normalize_spot_max_price rejects raw =
    let price = trim_space raw in
    if price == ""
    then ok ""
    else if rejects price
    then err (invalid_parameter_value "InstanceMarketOptions.SpotOptions.MaxPrice")
    else ok price

-- RunInstancesSpotOptions
pub record SpotOptions : Type 0 where
  pub max_price : String
  pub instance_interruption_behavior : String

-- RunInstancesInstanceMarketOptions
pub record MarketOptions : Type 0 where
  pub market_type : String
  pub spot_options : Option SpotOptions

-- spotLaunchOptions
pub record LaunchOptions : Type 0 where
  pub market_type : String
  pub max_price : String
  pub interruption_behavior : String

abbrev pub launch_on : String → LaunchOptions
launch_on market = record {
  market_type = market;
  max_price = "";
  interruption_behavior = terminate;
}

-- The market of the request: spot options without a market type mean spot.
abbrev market_of : MarketOptions → Result String
market_of o = normalize_market_type o.market_type >>= λ market.
    ok (if trim_space o.market_type == "" && is_some o.spot_options then spot else market)

sets_options : Option SpotOptions → Bool
sets_options none = false
sets_options (some o) =
    not (trim_space o.max_price == "") || not (trim_space o.instance_interruption_behavior == "")

spot_launch : (String → Bool) → Option SpotOptions → Result LaunchOptions
spot_launch rejects none = ok (launch_on spot)
spot_launch rejects (some o) = do
  behavior ← normalize_spot_interruption_behavior o.instance_interruption_behavior
  price ← normalize_spot_max_price rejects o.max_price
  ok (record { market_type = spot; max_price = price; interruption_behavior = behavior })

launch_in : (String → Bool) → Option SpotOptions → String → Result LaunchOptions
unfolding sets_options spot_launch
launch_in rejects o market =
    if not (market == spot)
    then fail_if (sets_options o) (invalid_parameter_value "InstanceMarketOptions")
      >> ok (launch_on market)
    else spot_launch rejects o

-- resolveRunInstancesSpotOptions
unfoldable pub resolve_run_instances_spot_options :
    (String → Bool) → Option MarketOptions → Result LaunchOptions
unfolding launch_in
resolve_run_instances_spot_options rejects none = ok (launch_on on_demand)
resolve_run_instances_spot_options rejects (some o) =
    market_of o >>= launch_in rejects o.spot_options

-- Whether a tag specification is for what a launch on the market creates.
abbrev pub taggable : ResourceType → String → Bool
taggable rt market =
    same_type rt instance_type || (same_type rt spot_instances_request_type && market == spot)

validate_tags_from : ℕ → List TagSpecification → String → Result (Unit {0})
validate_tags_from i [] market = ok tt
validate_tags_from i (spec ∷ specs) market =
    let rest = validate_tags_from (suc i) specs market in
    if taggable spec.resource_type market
    then rest
    else err
        (invalid_parameter_value ("TagSpecification." ++ format_uint 10 (suc i) ++ ".ResourceType"))

-- validateRunInstancesTagSpecifications
unfoldable pub validate_run_instances_tag_specifications :
    List TagSpecification → String → Result (Unit {0})
unfolding validate_tags_from
validate_run_instances_tag_specifications specs market = validate_tags_from 0 specs market

abbrev pub TagMap : Type 0
TagMap = List (String × String)

-- `target[tag.Key] = tag.Value`
add_all : List Tag → TagMap → TagMap
add_all [] m = m
add_all (t ∷ ts) m = add_all ts (insert t.key t.value m)

split_into : List TagSpecification → TagMap → TagMap → TagMap × TagMap
unfolding add_all
split_into [] instance_tags spot_tags = (instance_tags, spot_tags)
split_into (spec ∷ specs) instance_tags spot_tags =
    let is_spot = same_type spec.resource_type spot_instances_request_type in
    split_into specs (if is_spot then instance_tags else add_all spec.tags instance_tags)
      (if is_spot then add_all spec.tags spot_tags else spot_tags)

-- splitRunInstancesTags: the tags of the instances and those of the spot requests.
unfoldable pub split_run_instances_tags : List TagSpecification → TagMap × TagMap
unfolding split_into
split_run_instances_tags specs = split_into specs [] []
