-- ===== src/Volumes/Data.antt =====
-- What pkg/dc2/dispatcher_volume.go makes of requests, attributes and descriptions of volumes.
pub mod Keys
use dc.Prelude.{
  ℕ, suc, ◌*◌, ◌/◌, String, Bool, true, false, ◌&&◌, leb, Option, none, some, List, [], ◌∷◌, ◌++◌,
  map, ◌==◌, if◌then◌else◌,
}
use dc.Prelude.Int.{ℤ, pos, negsuc, sub_ℕ, wrap64}
use dc.Prelude.Text.{after_first?}
use dc.Prelude.Strconv.{format_int, format_bool, parse_bool, parse_int}
use dc.Api.{◌>>=◌, Error, Result, ok, err, plain, wrapped, invalid_parameter_value, is_not_found}
use dc.Storage.{
  Storage, Resource, Attribute, Attributes, volume_type, instance_type, find_key, key_or_empty,
  is_tag, tag_key, tag_attribute_name,
}
use dc.Dispatcher.{Tag, TagSpecification, find_resource, parse_attr}
use dc.Dispatcher.Filters.{Filter}
use dc.Dispatcher.Names
use dc.Executor.{VolumeDescription, Attachment, api_instance_id}

abbrev pub volume_id_prefix : String
volume_id_prefix = "vol-"

abbrev bytes_per_giga_byte : ℕ
bytes_per_giga_byte = 1024 * 1024 * 1024

abbrev pub attribute : String → String → Attribute
attribute k v = record { key = k; value = v }

-- `int64(size) * bytesPerGigaByte`, which wraps
unfoldable pub size_in_bytes : ℤ → ℤ
size_in_bytes (pos n) = wrap64 (pos (bytes_per_giga_byte * n))
size_in_bytes (negsuc n) = wrap64 (sub_ℕ 0 (bytes_per_giga_byte * suc n))

-- `size / bytesPerGigaByte`, which truncates towards zero
unfoldable pub size_in_giga_bytes : ℤ → ℤ
size_in_giga_bytes (pos n) = pos (n / bytes_per_giga_byte)
size_in_giga_bytes (negsuc n) = sub_ℕ 0 (suc n / bytes_per_giga_byte)

-- executorVolumeID: `id[len(volumeIDPrefix):]` of an ASCII text; a shorter one panics.
unfoldable pub executor_volume_id : String → Result String
executor_volume_id id = elim (after_first? id) [
  | none ↦ err Error.panics
  | some a ↦ elim (after_first? a) [
    | none ↦ err Error.panics
    | some b ↦ elim (after_first? b) [
      | none ↦ err Error.panics
      | some c ↦ elim (after_first? c) [ none ↦ err Error.panics | some d ↦ ok d ]
    ]
  ]
]

-- api.CreateVolumeRequest
pub record CreateRequest : Type 0 where
  pub dry_run : Bool
  pub availability_zone : String
  pub encrypted : Bool
  pub iops : Option ℤ
  pub kms_key_id : Option String
  pub size : Option ℤ
  pub throughput : Option ℤ
  pub volume_kind : String
  pub tag_specifications : List TagSpecification

-- api.AttachVolumeRequest and api.DetachVolumeRequest
pub record AttachRequest : Type 0 where
  pub dry_run : Bool
  pub device : String
  pub instance_id : String
  pub volume_id : String

-- api.DescribeVolumesRequest
pub record DescribeRequest : Type 0 where
  pub dry_run : Bool
  pub volume_ids : List String
  pub filters : List Filter
  pub next_token : Option String
  pub max_results : Option ℤ

-- api.VolumeAttachment; the state is attached always.
pub record VolumeAttachment : Type 0 where
  pub attach_time : String
  pub device : String
  pub instance_id : String
  pub delete_on_termination : Bool

-- api.Volume, without the fields that are constants
pub record Volume : Type 0 where
  pub id : String
  pub attachments : List VolumeAttachment
  pub availability_zone : String
  pub create_time : String
  pub encrypted : Bool
  pub iops : ℤ
  pub kms_key_id : Option String
  pub size : ℤ
  pub snapshot_id : Option String
  pub tags : List Tag
  pub throughput : ℤ
  pub volume_kind : String

-- The error of findVolume and findInstance for a resource that is missing.
abbrev pub refused : String → Result Resource → Result Resource
refused param (ok r) = ok r
refused param (err e) = err (if is_not_found e then invalid_parameter_value param else e)

unfoldable pub find_volume : String → Storage → Result Resource
find_volume id s = refused "VolumeId" (find_resource s volume_type id)

-- findInstance of pkg/dc2/dispatcher_instance.go
unfoldable pub find_instance : String → Storage → Result Resource
find_instance id s = refused "InstanceId" (find_resource s instance_type id)

abbrev parsed {ℓ} : {A : Type ℓ} → Option A → Result A
parsed none = err (wrapped (plain "syntax"))
parsed (some a) = ok a

-- The flag of describeVolume that a volume goes with its instance.
unfoldable pub read_delete_on_termination : Attributes → Result Bool
read_delete_on_termination attrs =
    let raw = key_or_empty attrs Names.delete_on_termination in
    if raw == "" then ok false else parsed (parse_bool raw)

-- The tags among the attributes.
unfoldable pub tags_in : Attributes → List Tag
tags_in [] = []
tags_in (a ∷ attrs) =
    let rest = tags_in attrs in
    if is_tag a then record { key = tag_key a; value = a.value } ∷ rest else rest

api_attachment : Bool → String → Attachment → VolumeAttachment
api_attachment flag owner a =
    let id = api_instance_id a.instance_id in
    record {
      attach_time = a.attach_time;
      device = a.device;
      instance_id = id;
      delete_on_termination = flag && id == owner;
    }

-- What describeVolume makes of the attributes and the description.
unfoldable pub api_volume :
    (String → Bool) → String → Attributes → VolumeDescription → Result Volume
unfolding api_attachment
api_volume is_time id attrs desc = read_delete_on_termination attrs >>= λ flag.
    parse_attr attrs Names.create_time (λ t. if is_time t then ok t else err (plain "time"))
    >>= λ create_time.
        parse_attr attrs Names.encrypted (λ t. parsed (parse_bool t)) >>= λ encrypted.
        parse_attr attrs Names.iops (λ t. parsed (parse_int 10 t)) >>= λ iops.
        parse_attr attrs Names.throughput (λ t. parsed (parse_int 10 t)) >>= λ throughput.
        elim (find_key attrs Names.volume_kind) [
          | none ↦ err (plain "missing volume type attribute")
          | some kind ↦ ok (record {
            id = id;
            attachments =
                map (api_attachment flag (key_or_empty attrs Names.owner_instance_id))
                  desc.attachments;
            availability_zone = key_or_empty attrs Names.availability_zone;
            create_time = create_time;
            encrypted = encrypted;
            iops = iops;
            kms_key_id = find_key attrs Names.kms_key_id;
            size = size_in_giga_bytes desc.size;
            snapshot_id = find_key attrs Names.snapshot_id;
            tags = tags_in attrs;
            throughput = throughput;
            volume_kind = kind;
          })
        ]

-- `descriptions[0]`
abbrev pub first_of : List VolumeDescription → Result VolumeDescription
first_of [] = err Error.panics
first_of (d ∷ ds) = ok d

abbrev pub or_zero : Option ℤ → ℤ
or_zero none = pos 0
or_zero (some n) = n

abbrev is_zero : ℤ → Bool
is_zero (pos n) = leb n 0
is_zero (negsuc n) = false

abbrev pub zero_or_nil : Option ℤ → Bool
zero_or_nil none = true
zero_or_nil (some n) = is_zero n

abbrev kms_attribute : Option String → List Attribute
kms_attribute none = []
kms_attribute (some k) = if k == "" then [] else attribute Names.kms_key_id k ∷ []

tag_attributes : List Tag → List Attribute
tag_attributes [] = []
tag_attributes (t ∷ ts) = attribute (tag_attribute_name t.key) t.value ∷ tag_attributes ts

specification_attributes : List TagSpecification → List Attribute
unfolding tag_attributes
specification_attributes [] = []
specification_attributes (spec ∷ specs) = tag_attributes spec.tags ++ specification_attributes specs

-- The attributes of a new volume.
unfoldable pub volume_attributes : CreateRequest → String → List Attribute
unfolding specification_attributes
volume_attributes r now =
    attribute Names.availability_zone r.availability_zone
      ∷ attribute Names.create_time now
      ∷ attribute Names.encrypted (format_bool r.encrypted)
      ∷ attribute Names.volume_kind r.volume_kind
      ∷ attribute Names.iops (format_int 10 (or_zero r.iops))
      ∷ attribute Names.throughput (format_int 10 (or_zero r.throughput))
      ∷ kms_attribute r.kms_key_id
    ++ specification_attributes r.tag_specifications
