-- ===== src/Instances/Describe/Filters.antt =====
-- pkg/dc2/dispatcher_instance.go: the filters of DescribeInstances and DescribeInstanceStatus on what
-- is described. The one walks the instances for each filter, the other the filters for each instance.
pub mod Agreement
use dc.Prelude.{
  String, Bool, true, false, ◌||◌, Option, none, some, List, [], ◌∷◌, ◌==◌, if◌then◌else◌, contains,
}
use dc.Prelude.Text.{has_prefix}
use dc.Api.{Result, ok, err, ◌>>=◌, invalid_parameter_value}
use dc.Dispatcher.Filters.{Filter}
use dc.Instances.Describe.{Instance}

is_supported_instance_filter : String → Bool
is_supported_instance_filter name =
    name == "instance-id"
    || name == "instance-state-name"
    || name == "instance-lifecycle"
    || name == "instance-type"
    || name == "availability-zone"
    || name == "private-ip-address"
    || name == "ip-address"
    || name == "private-dns-name"
    || name == "dns-name"

-- The case of a filter in splitInstanceFilters: whether it is one on tags.
filter_on_tags : Filter → Result Bool
unfolding is_supported_instance_filter
filter_on_tags f = elim f.name [
  | none ↦ err (invalid_parameter_value "Filter.Name")
  | some name ↦ if name == "" then err (invalid_parameter_value "Filter.Name") else elim f.values [
    | none ↦ err (invalid_parameter_value "Filter.Values")
    | some values ↦
        if has_prefix name "tag:" || name == "tag-key"
        then ok true
        else if is_supported_instance_filter name
        then ok false
        else err (invalid_parameter_value "Filter.Name")
  ]
]

-- splitInstanceFilters: those on tags and those on the instance.
unfoldable pub split_instance_filters : List Filter → Result (List Filter × List Filter)
unfolding filter_on_tags
split_instance_filters [] = ok ([], [])
split_instance_filters (f ∷ fs) = do
  on_tags ← filter_on_tags f
  rest ← split_instance_filters fs
  ok (if on_tags then (f ∷ rest.0, rest.1) else (rest.0, f ∷ rest.1))

abbrev has : List String → Option String → Bool
has values none = false
has values (some v) = contains values v

matches_named : Instance → String → List String → Result Bool
matches_named i name values =
    if name == "instance-id"
    then ok (contains values i.id)
    else if name == "instance-state-name"
    then ok (contains values i.state)
    else if name == "instance-lifecycle"
    then ok (has values i.lifecycle)
    else if name == "instance-type"
    then ok (contains values i.instance_kind)
    else if name == "availability-zone"
    then ok (contains values i.availability_zone)
    else if name == "private-ip-address"
    then ok (contains values i.private_ip)
    else if name == "ip-address"
    then ok (contains values i.public_ip)
    else if name == "private-dns-name"
    then ok (contains values i.private_dns_name)
    else if name == "dns-name"
    then ok (contains values i.dns_name)
    else err (invalid_parameter_value "Filter.Name")

unfoldable pub instance_matches_filter : Instance → Filter → Result Bool
unfolding matches_named
instance_matches_filter i f = elim f.name [
  | none ↦ err (invalid_parameter_value "Filter.Name")
  | some name ↦ elim f.values [
    | none ↦ err (invalid_parameter_value "Filter.Values")
    | some values ↦ matches_named i name values
  ]
]

unfoldable pub instance_matches_all_filters : Instance → List Filter → Result Bool
instance_matches_all_filters i [] = ok true
instance_matches_all_filters i (f ∷ fs) =
    let rest = instance_matches_all_filters i fs in
    instance_matches_filter i f >>= λ matches. elim matches [ true ↦ rest | false ↦ ok false ]

-- The inner loop of applyInstanceFilters.
apply_filter : Filter → List Instance → Result (List Instance)
apply_filter f [] = ok []
apply_filter f (i ∷ is) = do
  matches ← instance_matches_filter i f
  rest ← apply_filter f is
  ok (if matches then i ∷ rest else rest)

unfoldable pub apply_instance_filters : List Instance → List Filter → Result (List Instance)
unfolding apply_filter
apply_instance_filters is [] = ok is
apply_instance_filters is (f ∷ fs) = apply_filter f is >>= λ next. apply_instance_filters next fs
