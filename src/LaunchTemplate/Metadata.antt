-- ===== src/LaunchTemplate/Metadata.antt =====
-- Reading loadLaunchTemplateMetadata of pkg/dc2/dispatcher_launch_template.go back after a write.
use dc.Prelude.{
  String, ◌≡◌, refl, sym, ap, ◌∙◌, Bool, false, Option, none, some, arith, ◌==◌, eq_iff, inl, inr,
  Bool-cases,
}
use dc.Prelude.Int.{ℤ, IsInt64}
use dc.Prelude.Strconv.{format_int, parse_int}
use dc.Prelude.Strconv.RoundTrip.{parse_int-format_int}
use dc.Prelude.Text.{has_prefix, after_prefix?}
use dc.Api.{Result, ok, Result-cases}
use dc.Storage.{Attributes, find_key, key_or_empty}
use dc.LaunchTemplate.Names
use dc.LaunchTemplate.Names.{Field, version_attribute_name}
use dc.LaunchTemplate.Load.{Metadata, metadata_from, read_version, read_time}
use dc.LaunchTemplate.Versions.{starts_version}

parse_empty : parse_int 10 "" ≡ none
unfolding parse_int
parse_empty = refl

format_int_nonempty : (v : ℤ) → IsInt64 v → (format_int 10 v == "") ≡ false
format_int_nonempty v h = elim (Bool-cases (format_int 10 v == "")) [
  | inr e ↦ e
  | inl e ↦ absurd (
      ground (
        arith,
        parse_empty,
        ap (parse_int 10) ((eq_iff (format_int 10 v) "").0 e),
        parse_int-format_int 10 (omega arith) (omega arith) v h,
      ))
]

-- A version that was written is read back.
read_version-format_int :
    (attrs : Attributes) (key : String) (v : ℤ)
    → IsInt64 v
    → find_key attrs key ≡ some (format_int 10 v)
    → read_version attrs key ≡ ok v
unfolding read_version
read_version-format_int attrs key v h e =
    rw (e, format_int_nonempty v h, parse_int-format_int 10 (omega arith) (omega arith) v h) refl

read_version_ext :
    (a b : Attributes) (key : String)
    → find_key b key ≡ find_key a key
    → read_version b key ≡ read_version a key
unfolding read_version
read_version_ext a b key e = rw e refl

read_time_ext :
    (is_time : String → Bool) (a b : Attributes) (key : String)
    → find_key b key ≡ find_key a key
    → read_time is_time b key ≡ read_time is_time a key
unfolding read_time
read_time_ext is_time a b key e = rw e refl

abbrev pub with_latest : Metadata → ℤ → Metadata
with_latest m v = record m { latest_version = v }

abbrev found : String → Attributes → ℤ → ℤ → Option String → Metadata
found id a default latest create_time = record {
  id = id;
  name = key_or_empty a Names.template_name;
  create_time = create_time;
  default_version = default;
  latest_version = latest;
}

-- Metadata whose two versions are read otherwise, while the rest is as it was.
metadata_from_versions :
    (is_time : String → Bool) (id : String) (a b : Attributes) (m : Metadata) (d l : ℤ)
    → read_version b Names.default_version ≡ ok d
    → read_version b Names.latest_version ≡ ok l
    → find_key b Names.template_name ≡ find_key a Names.template_name
    → find_key b Names.template_create_time ≡ find_key a Names.template_create_time
    → metadata_from is_time id a ≡ ok m
    → metadata_from is_time id b ≡ ok (record m { default_version = d; latest_version = l })
unfolding metadata_from
metadata_from_versions is_time id a b m d l default latest name when h =
    let time = read_time_ext is_time a b Names.template_create_time when in
    elim (Bool-cases (key_or_empty a Names.template_name == "")) [
      | inl n ↦ absurd (ground (arith, h, n))
      | inr n ↦ elim (Result-cases (read_version a Names.default_version)) [
        | inl (x, p) ↦ absurd (ground (arith, h, n, p))
        | inr (d', p) ↦ elim (Result-cases (read_version a Names.latest_version)) [
          | inl (x, q) ↦ absurd (ground (arith, h, n, p, q))
          | inr (l', q) ↦ elim (Result-cases (read_time is_time a Names.template_create_time)) [
            | inl (x, u) ↦ absurd (ground (arith, h, n, p, q, u))
            | inr (c, u) ↦
                let eq : ◌≡◌ {A = Result Metadata} (ok (found id a d' l' c)) (ok m) =
                  sym (rw (n, p, q, u, metadata_from) refl) ∙ h in
                let same_m : found id a d' l' c ≡ m = ground (arith, eq) in
                rw (name, n, default, latest, time, u, metadata_from)
                  (ap
                    (λ (x : Metadata).
                      Result.ok (record x { default_version = d; latest_version = l }))
                    same_m)
          ]
        ]
      ]
    ]

-- What is read of the versions in the attributes of metadata.
versions-read :
    (is_time : String → Bool) (id : String) (a : Attributes) (m : Metadata)
    → metadata_from is_time id a ≡ ok m
    → (read_version a Names.default_version ≡ ok m.default_version)
      × (read_version a Names.latest_version ≡ ok m.latest_version)
unfolding metadata_from
versions-read is_time id a m h = (ground (arith, h), ground (arith, h))

pub metadata_from_latest :
    (is_time : String → Bool) (id : String) (a b : Attributes) (m : Metadata) (v : ℤ)
    → IsInt64 v
    → find_key b Names.latest_version ≡ some (format_int 10 v)
    → ((k : String)
        → starts_version k ≡ false
        → (Names.latest_version == k) ≡ false
        → find_key b k ≡ find_key a k)
    → metadata_from is_time id a ≡ ok m
    → metadata_from is_time id b ≡ ok (with_latest m v)
unfolding has_prefix after_prefix?
metadata_from_latest is_time id a b m v i e same h =
    metadata_from_versions is_time id a b m m.default_version v
      (read_version_ext a b Names.default_version (same Names.default_version refl refl)
        ∙ (versions-read is_time id a m h).0)
      (read_version-format_int b Names.latest_version v i e) (same Names.template_name refl refl)
      (same Names.template_create_time refl refl) h

pub metadata_from_default :
    (is_time : String → Bool) (id : String) (a b : Attributes) (m : Metadata) (v : ℤ)
    → IsInt64 v
    → find_key b Names.default_version ≡ some (format_int 10 v)
    → find_key b Names.latest_version ≡ find_key a Names.latest_version
    → find_key b Names.template_name ≡ find_key a Names.template_name
    → find_key b Names.template_create_time ≡ find_key a Names.template_create_time
    → metadata_from is_time id a ≡ ok m
    → metadata_from is_time id b ≡ ok (record m { default_version = v })
metadata_from_default is_time id a b m v i e latest name when h =
    metadata_from_versions is_time id a b m v m.latest_version
      (read_version-format_int b Names.default_version v i e)
      (read_version_ext a b Names.latest_version latest ∙ (versions-read is_time id a m h).1) name
      when h
