-- ===== src/AutoScaling/Stored/Fields.antt =====
-- Attributes of a group that read back as the values that were stored for them, in
-- pkg/dc2/dispatcher_autoscaling.go.
use dc.Prelude.{
  String, ◌≡◌, refl, ap, Bool, true, false, Option, none, some, List, [], ◌∷◌, arith, All, ◌==◌,
  eq_iff, Bool-cases, inl, inr,
}
use dc.Prelude.Int.{ℤ, IsInt64}
use dc.Prelude.Text.{trim_space}
use dc.Prelude.Text.Trim.{is_dark-append, is_dark, trim_space-fixed_is_dark, trim_space-ne_empty}
use dc.Prelude.Commas.{join_commas, join_from, lacks_comma}
use dc.Prelude.Commas.RoundTrip.{split_commas-join_commas}
use dc.Prelude.Strconv.{parse_int, format_int, parse_bool, format_bool}
use dc.Prelude.Strconv.RoundTrip.{parse_int-format_int}
use dc.Api.{ok}
use dc.Storage.{Attributes, find_key, key_or_empty}
use dc.AutoScaling.Groups.{
  required_int, optional_int, optional_bool, zone_parts, parse_availability_zones,
}
use dc.AutoScaling.Stored.{required_text, some_int, some_bool}

ne_empty-parse : (s : String) (i : ℤ) → parse_int 10 s ≡ some i → (s == "") ≡ false
unfolding parse_int
ne_empty-parse s i h = elim (Bool-cases (s == "")) [
  | inl e ↦ absurd (ground (arith, h, ap (parse_int 10) ((eq_iff s "").0 e)))
  | inr e ↦ e
]

number : (i : ℤ) → IsInt64 i → parse_int 10 (format_int 10 i) ≡ some i
number i h = parse_int-format_int 10 (omega arith) (omega arith) i h

key_or_empty-found :
    (attrs : Attributes) (k v : String) → find_key attrs k ≡ some v → key_or_empty attrs k ≡ v
key_or_empty-found attrs k v f = rw f refl

pub required_int-found :
    (attrs : Attributes) (k : String) (i : ℤ)
    → IsInt64 i
    → find_key attrs k ≡ some (format_int 10 i)
    → required_int attrs k ≡ ok i
unfolding required_int
required_int-found attrs k i h f =
    rw (f, ne_empty-parse (format_int 10 i) i (number i h), number i h) refl

-- The number of an attribute that may be empty is in range.
abbrev pub AllInt64 : Option ℤ → Type 0
AllInt64 none = Unit
AllInt64 (some i) = IsInt64 i

pub optional_int-found :
    (attrs : Attributes) (k : String) (o : Option ℤ)
    → AllInt64 o
    → find_key attrs k ≡ some (some_int o)
    → optional_int attrs k ≡ ok o
unfolding optional_int
optional_int-found attrs k none h f = rw f refl
optional_int-found attrs k (some i) h f =
    rw (f, ne_empty-parse (format_int 10 i) i (number i h), number i h) refl

pub optional_bool-found :
    (attrs : Attributes) (k : String) (o : Option Bool)
    → find_key attrs k ≡ some (some_bool o)
    → optional_bool attrs k ≡ ok o
unfolding optional_bool parse_bool format_bool
optional_bool-found attrs k none f = rw f refl
optional_bool-found attrs k (some true) f = rw f refl
optional_bool-found attrs k (some false) f = rw f refl

pub required_text-found :
    (attrs : Attributes) (k v : String)
    → (v == "") ≡ false
    → find_key attrs k ≡ some v
    → required_text attrs k ≡ ok v
unfolding required_text
required_text-found attrs k v h f = rw (f, h) refl

-- A zone that can be stored: a text without commas, trimmed and not empty.
pub record IsZone (z : String) : Type 0 where
  pub plain : lacks_comma z ≡ true
  pub trimmed : trim_space z ≡ z
  pub given : (z == "") ≡ false

zone_parts-same : (zs : List String) → All IsZone zs → zone_parts zs ≡ ok zs
unfolding zone_parts
zone_parts-same [] h = refl
zone_parts-same (z ∷ zs) h = rw (h.0.trimmed, h.0.given, zone_parts-same zs h.1) refl

parts-All : (zs : List String) → All IsZone zs → All (λ z. lacks_comma z ≡ true) zs
parts-All [] h = tt
parts-All (z ∷ zs) h = (h.0.plain, parts-All zs h.1)

join_from-is_dark : (z : String) (zs : List String) → IsZone z → is_dark (join_from z zs) ≡ true
unfolding join_from
join_from-is_dark z [] h = trim_space-fixed_is_dark z h.trimmed h.given
join_from-is_dark z (y ∷ ys) h = is_dark-append z _ (trim_space-fixed_is_dark z h.trimmed h.given)

pub parse_availability_zones-join_commas :
    (z : String) (zs : List String)
    → All IsZone (z ∷ zs)
    → parse_availability_zones (join_commas (z ∷ zs)) ≡ ok (z ∷ zs)
unfolding parse_availability_zones
parse_availability_zones-join_commas z zs h =
    rw
      (
        trim_space-ne_empty (join_commas (z ∷ zs))
            (unfold join_commas in join_from-is_dark z zs h.0),
        split_commas-join_commas z zs (parts-All (z ∷ zs) h),
      )
      (zone_parts-same (z ∷ zs) h)
