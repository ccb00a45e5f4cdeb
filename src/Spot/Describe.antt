-- ===== src/Spot/Describe.antt =====
-- DescribeSpotInstanceRequests of pkg/dc2/dispatcher_spot.go. `is_time` says which texts
-- time.Parse reads as RFC 3339; a time is kept as its text.
pub mod Selected
use dc.Prelude.{
  String, Bool, true, false, ◌||◌, not, Option, none, some, List, [], ◌∷◌, ◌==◌, if◌then◌else◌,
  contains,
}
use dc.Prelude.Int.{ℤ}
use dc.Prelude.Text.{trim_space, has_prefix}
use dc.Prelude.Sorting.{sort_by}
use dc.Api.{
  Error, Result, ok, err, plain, wrapped, is_not_found, ◌>>=◌, ◌>>◌, fail_if,
  invalid_parameter_value,
}
use dc.Storage.{
  Storage, Attributes, spot_instances_request_type, resource_attributes, key_or_empty, is_tag,
  tag_key,
}
use dc.Dispatcher.{Tag}
use dc.Dispatcher.Filters.{Filter, apply_filters}
use dc.Dispatcher.Paging.{apply_next_token}
use dc.Spot.Names

-- SpotInstanceRequestStatus
pub record Status : Type 0 where
  pub code : String
  pub message : String
  pub update_time : String

-- api.SpotInstanceRequest; the launch specification is its instance type.
pub record SpotInstanceRequest : Type 0 where
  pub id : String
  pub state : String
  pub spot_price : String
  pub instance_id : Option String
  pub create_time : String
  pub request_type : String
  pub interruption_behavior : Option String
  pub status : Status
  pub launch_type : String
  pub tag_set : List Tag

pub record DescribeRequest : Type 0 where
  pub dry_run : Bool
  pub ids : List String
  pub filters : List Filter
  pub next_token : Option String
  pub max_results : Option ℤ

-- The names that the second switch of splitSpotRequestFilters knows.
abbrev pub request_filter_names : List String
request_filter_names =
    "spot-instance-request-id" ∷ "state" ∷ "status-code" ∷ "status-message" ∷ "instance-id"
    ∷ "instance-type" ∷ "spot-price" ∷ "type" ∷ []

abbrev Split : Type 0
Split = List Filter × List Filter

-- One filter of splitSpotRequestFilters, in front of the others.
split_filter : Filter → Split → Result Split
split_filter f (tag_filters, req_filters) = elim f.name [
  | none ↦ err (invalid_parameter_value "Filter.Name")
  | some raw ↦
      let name = trim_space raw in
      if name == ""
      then err (invalid_parameter_value "Filter.Name")
      else if name == "tag-key" || has_prefix name "tag:"
      then ok (f ∷ tag_filters, req_filters)
      else if contains request_filter_names name
      then ok (tag_filters, f ∷ req_filters)
      else err (invalid_parameter_value "Filter.Name")
]

-- splitSpotRequestFilters. The source stops at the first filter that is refused; here the later
-- ones are looked at first, and all refusals are the same error.
unfoldable pub split_spot_request_filters : List Filter → Result Split
unfolding split_filter
split_spot_request_filters [] = ok ([], [])
split_spot_request_filters (f ∷ fs) = split_spot_request_filters fs >>= split_filter f

-- slices.Contains(filter.Values, …); nil has no values.
abbrev pub values_contain : Filter → String → Bool
values_contain f v = elim f.values [ none ↦ false | some vs ↦ contains vs v ]

abbrev contains_some : Filter → Option String → Bool
contains_some f none = false
contains_some f (some v) = values_contain f v

-- spotRequestMatchesFilter
unfoldable pub spot_request_matches_filter : SpotInstanceRequest → Filter → Result Bool
spot_request_matches_filter r f = elim f.name [
  | none ↦ err (invalid_parameter_value "Filter.Name")
  | some n ↦
      if n == "spot-instance-request-id"
      then ok (values_contain f r.id)
      else if n == "state"
      then ok (values_contain f r.state)
      else if n == "status-code"
      then ok (values_contain f r.status.code)
      else if n == "status-message"
      then ok (values_contain f r.status.message)
      else if n == "instance-id"
      then ok (contains_some f r.instance_id)
      else if n == "instance-type"
      then ok (values_contain f r.launch_type)
      else if n == "spot-price"
      then ok (values_contain f r.spot_price)
      else if n == "type"
      then ok (values_contain f r.request_type)
      else err (invalid_parameter_value "Filter.Name")
]

-- spotRequestMatchesFilters
unfoldable pub spot_request_matches_filters : SpotInstanceRequest → List Filter → Result Bool
spot_request_matches_filters r [] = ok true
spot_request_matches_filters r (f ∷ fs) =
    let rest = spot_request_matches_filters r fs in
    spot_request_matches_filter r f >>= λ m. if not m then ok false else rest

-- parseRequiredTimeAttr
unfoldable pub parse_required_time_attr : (String → Bool) → Attributes → String → Result String
parse_required_time_attr is_time attrs key =
    let raw = key_or_empty attrs key in
    if raw == ""
    then err (plain "missing")
    else if is_time raw
    then ok raw
    else err (wrapped (plain "time"))

-- attrOrDefault
unfoldable pub attr_or_default : Attributes → String → String → String
attr_or_default attrs key fallback =
    let value = key_or_empty attrs key in if value == "" then fallback else value

-- a pointer to a text that is there and not empty
abbrev optional_attr : Attributes → String → Option String
optional_attr attrs key =
    let value = key_or_empty attrs key in if value == "" then none else some value

collect_tags : Attributes → List Tag
collect_tags [] = []
collect_tags (a ∷ attrs) =
    let rest = collect_tags attrs in
    if is_tag a then record { key = tag_key a; value = a.value } ∷ rest else rest

-- tagsFromAttributes
unfoldable pub tags_from_attributes : Attributes → List Tag
unfolding collect_tags
tags_from_attributes attrs = sort_by (λ (t : Tag). t.key) (collect_tags attrs)

-- apiSpotRequestFromStorage
unfoldable pub api_spot_request : (String → Bool) → String → Attributes → Result SpotInstanceRequest
unfolding parse_required_time_attr attr_or_default tags_from_attributes
api_spot_request is_time id attrs = do
  create_time ← parse_required_time_attr is_time attrs Names.create_time
  update_time ← parse_required_time_attr is_time attrs Names.status_updated_at
  ok (record {
    id = id;
    state = attr_or_default attrs Names.state "active";
    spot_price = key_or_empty attrs Names.max_price;
    instance_id = optional_attr attrs Names.instance_id;
    create_time = create_time;
    request_type = attr_or_default attrs Names.request_type "one-time";
    interruption_behavior = optional_attr attrs Names.interrupt_mode;
    status = record {
      code = attr_or_default attrs Names.status_code "fulfilled";
      message = attr_or_default attrs Names.status_message "Your spot request is fulfilled.";
      update_time = update_time;
    };
    launch_type = key_or_empty attrs Names.instance_kind;
    tag_set = tags_from_attributes attrs;
  })

-- One turn of the loop over the ids: the request, if it is there and passes the filters.
describe_one :
    (String → Bool) → Storage → List Filter → String → Result (Option SpotInstanceRequest)
describe_one is_time s filters id = elim (resource_attributes s id) [
  | err e ↦ if is_not_found e then ok none else err (wrapped e)
  | ok attrs ↦ api_spot_request is_time id attrs >>= λ r.
      spot_request_matches_filters r filters >>= λ m. ok (if m then some r else none)
]

abbrev push : Option SpotInstanceRequest → List SpotInstanceRequest → List SpotInstanceRequest
push none rs = rs
push (some r) rs = r ∷ rs

describe_all :
    (String → Bool) → Storage → List Filter → List String → Result (List SpotInstanceRequest)
unfolding describe_one
describe_all is_time s filters [] = ok []
describe_all is_time s filters (id ∷ ids) =
    let rest = describe_all is_time s filters ids in
    describe_one is_time s filters id >>= λ one. rest >>= λ rs. ok (push one rs)

-- dispatchDescribeSpotInstanceRequests
unfoldable pub describe_spot_instance_requests :
    (String → Bool) → DescribeRequest → Storage → Result (List SpotInstanceRequest × Option String)
unfolding describe_all
describe_spot_instance_requests is_time r s = do
  fail_if r.dry_run Error.dry_run
  split ← split_spot_request_filters r.filters
  ids ← apply_filters s spot_instances_request_type r.ids split.0
  requests ← describe_all is_time s split.1 ids
  apply_next_token (sort_by (λ (x : SpotInstanceRequest). x.id) requests) r.next_token r.max_results
