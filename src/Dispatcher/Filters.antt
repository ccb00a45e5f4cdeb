-- ===== src/Dispatcher/Filters.antt =====
-- applyFilters of pkg/dc2/dispatcher.go: which resources a Describe call is about.
pub mod Selection
use Prim.Native.String.{◌++◌}
use dc.Prelude.{
  String, Bool, true, false, ◌&&◌, ◌||◌, Option, none, some, List, [], ◌∷◌, map, is_empty, contains,
  ◌==◌, if◌then◌else◌,
}
use dc.Prelude.Text.{after_prefix?}
use dc.Api.{Result, ok, err, ◌>>=◌, invalid_parameter_value, wrap}
use dc.Storage.{
  Storage, ResourceType, Resource, Attributes, lookup, insert, is_tag, tag_key, tag_prefix,
  registered_resources, resource_attributes,
}

-- api.Filter
pub record Filter : Type 0 where
  pub name : Option String
  pub values : Option (List String)

abbrev pub AttributesOf : Type 0
AttributesOf = List (String × Attributes)

-- Reading a Go map of slices: nil for a missing key.
abbrev pub attributes_of : AttributesOf → String → Attributes
attributes_of m id = elim (lookup id m) [ none ↦ [] | some attrs ↦ attrs ]

-- The ids to start from: those of the request, or all of the type.
unfoldable pub initial_ids : Storage → ResourceType → List String → List String
initial_ids s rt [] = map (λ (r : Resource). r.id) (registered_resources s rt)
initial_ids s rt (id ∷ ids) = id ∷ ids

-- The map resourceAttributes.
unfoldable pub read_attributes : Storage → List String → AttributesOf → Result AttributesOf
read_attributes s [] m = ok m
read_attributes s (id ∷ ids) m =
    wrap (resource_attributes s id) >>= λ attrs. read_attributes s ids (insert id attrs m)

-- `case strings.HasPrefix(*f.Name, "tag:")`, for one resource and for all
unfoldable pub tag_hits : String → List String → String → Attributes → List String → List String
tag_hits key values id [] rest = rest
tag_hits key values id (a ∷ attrs) rest =
    let later = tag_hits key values id attrs rest in
    if is_tag a && tag_key a == key && contains values a.value then id ∷ later else later

unfoldable pub filter_by_tag : AttributesOf → String → List String → List String → List String
unfolding tag_hits
filter_by_tag m key values [] = []
filter_by_tag m key values (id ∷ ids) =
    tag_hits key values id (attributes_of m id) (filter_by_tag m key values ids)

-- `case *f.Name == "tag-key"`; the loop breaks at the first hit.
unfoldable pub has_tag_key : List String → Attributes → Bool
has_tag_key values [] = false
has_tag_key values (a ∷ attrs) =
    (is_tag a && contains values (tag_key a)) || has_tag_key values attrs

unfoldable pub filter_by_tag_key : AttributesOf → List String → List String → List String
unfolding has_tag_key
filter_by_tag_key m values [] = []
filter_by_tag_key m values (id ∷ ids) =
    let rest = filter_by_tag_key m values ids in
    if has_tag_key values (attributes_of m id) then id ∷ rest else rest

-- The switch on the name of a filter.
unfoldable pub filter_named :
    AttributesOf → String → List String → List String → Result (List String)
unfolding filter_by_tag filter_by_tag_key
filter_named m name values ids = elim (after_prefix? tag_prefix name) [
  | some key ↦ ok (filter_by_tag m key values ids)
  | none ↦
      if name == "tag-key"
      then ok (filter_by_tag_key m values ids)
      else err (invalid_parameter_value "Filter.Name")
]

-- One turn of the loop over the filters.
unfoldable pub filter_once : AttributesOf → Filter → List String → Result (List String)
unfolding filter_named
filter_once m f ids = elim f.name [
  | none ↦ err (invalid_parameter_value "Filter.Name")
  | some name ↦ if name == "" then err (invalid_parameter_value "Filter.Name") else elim f.values [
    | none ↦ err (invalid_parameter_value "Filter.Values")
    | some values ↦ filter_named m name values ids
  ]
]

unfoldable pub filter_all : AttributesOf → List Filter → List String → Result (List String)
filter_all m [] ids = ok ids
filter_all m (f ∷ fs) ids = filter_once m f ids >>= filter_all m fs

-- applyFilters
unfoldable pub apply_filters :
    Storage → ResourceType → List String → List Filter → Result (List String)
unfolding initial_ids read_attributes filter_all
apply_filters s rt ids filters =
    let start = initial_ids s rt ids in
    read_attributes s start [] >>= λ m. filter_all m filters start
