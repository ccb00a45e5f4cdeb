-- ===== src/LaunchTemplate/Handlers/Defaults/Bounds.antt =====
-- The default version that ModifyLaunchTemplate of pkg/dc2/dispatcher_launch_template.go stores.
use mathlib.Core.Path.{subst}
use dc.Prelude.Strconv.{format_int}
use dc.Prelude.{
  true, some, Option, if◌then◌else◌, String, ◌≡◌, refl, sym, ap, ◌∙◌, Bool, false, arith, ◌==◌,
}
use dc.Prelude.Int.{ℤ, pos, negsuc, ◌≤ℤ◌, IsInt64}
use dc.Prelude.Text.{has_prefix, after_prefix?}
use dc.Api.{Result, ok}
use dc.Storage.{Storage, Attributes, find_key, resource_attributes, remove_resource_attributes}
use dc.Storage.Invariant.{IsValid, remove_resource_attributes-IsValid}
use dc.Storage.Changes.{resource_attributes-set, resource_attributes-remove}
use dc.LaunchTemplate.{Json, VersionData}
use dc.LaunchTemplate.Names
use dc.LaunchTemplate.Names.{Field, legacy_attribute_name, version_start}
use dc.LaunchTemplate.Load.{
  Metadata, load_metadata, metadata_from, legacy_attributes, resolve_version_selector,
}
use dc.LaunchTemplate.Metadata.{metadata_from_default}
use dc.LaunchTemplate.Versions.{
  last_value-Agrees, assign-head, Agrees, clear-Agrees, field_attributes-Agrees,
  resolve_version_selector-bounds,
}
use dc.LaunchTemplate.Handlers.{ModifyRequest, default_write, legacy_names, modify_launch_template}
use dc.LaunchTemplate.Handlers.Defaults.{cleared, written, succeeded}

abbrev starts_data : String → Bool
starts_data k = has_prefix k "LaunchTemplateData"

data-name : (f : Field) → starts_data (legacy_attribute_name f) ≡ true
unfolding legacy_attribute_name has_prefix after_prefix?
data-name Names.image_id = refl
data-name Names.instance_requirements = refl
data-name Names.instance_kind = refl
data-name Names.user_data = refl
data-name Names.security_group_ids = refl
data-name Names.block_device_mappings = refl

in_range : (d latest : ℤ) → pos 1 ≤ℤ d → d ≤ℤ latest → IsInt64 latest → IsInt64 d
in_range (pos d) (pos l) low high i = record {
  above = omega arith;
  below = omega (arith, high, i.below);
}
in_range (pos d) (negsuc l) low high i = absurd (ground (arith, high))
in_range (negsuc d) latest low high i = absurd (ground (arith, low))

module _ {R : Type 0} (json : Json R) (is_time : String → Bool) where
  legacy_names-data : Agrees starts_data true (legacy_names json is_time)
  unfolding legacy_names
  legacy_names-data = (
    data-name Names.image_id,
    (
      data-name Names.instance_requirements,
      (
        data-name Names.instance_kind,
        (
          data-name Names.user_data,
          (data-name Names.security_group_ids, (data-name Names.block_device_mappings, tt)),
        ),
      ),
    ),
  )

  legacy_attributes-data : (d : VersionData R) → Agrees starts_data true (legacy_attributes json d)
  unfolding legacy_attributes
  legacy_attributes-data d =
      field_attributes-Agrees json starts_data true legacy_attribute_name d Names.fields data-name

  load_metadata-read :
      (s : Storage) (id : String) (attrs : Attributes)
      → resource_attributes s id ≡ ok attrs
      → load_metadata is_time s id ≡ metadata_from is_time id attrs
  unfolding load_metadata
  load_metadata-read s id attrs p = rw (p, load_metadata) refl

  -- What the metadata of a template is read from after the two writes: the default version is the one
  -- that was written, every other attribute but the legacy ones is as it was.
  found_after :
      (d : VersionData R) (old : Attributes) (s : Storage) (meta : Metadata)
      → IsValid s
      → resource_attributes s meta.id ≡ ok old
      → (now : Attributes) × (resource_attributes (written json is_time meta d s) meta.id ≡ ok now)
        × ((k : String)
            → starts_data k ≡ false
            → find_key now k ≡ (
                if Names.default_version == k
                then some (format_int 10 meta.default_version)
                else find_key old k))
  unfolding written cleared default_write
  found_after d old s meta v q =
      let names = legacy_names json is_time in
      let write = default_write json is_time meta d in
      let mid = resource_attributes-remove meta.id names s old v q in
      let end =
        resource_attributes-set meta.id write (remove_resource_attributes meta.id names s).0
          mid.attrs (remove_resource_attributes-IsValid meta.id names s v) mid.read in
      (
        end.attrs,
        end.read,
        λ k h.
            end.found k
            ∙ assign-head _ (legacy_attributes json d) (find_key mid.attrs) k (
                last_value-Agrees starts_data true (legacy_attributes json d) k
                  (legacy_attributes-data d) h)
            ∙ ap
                (λ (o : Option String).
                  if Names.default_version == k
                  then some (format_int 10 meta.default_version)
                  else o)
                (mid.found k
                  ∙ clear-Agrees starts_data true names (find_key old) k legacy_names-data h),
      )

  -- The metadata that are read after the two writes.
  metadata-written :
      (d : VersionData R) (attrs : Attributes) (s : Storage) (old : Metadata) (default : ℤ)
      → IsValid s
      → resource_attributes s old.id ≡ ok attrs
      → load_metadata is_time s old.id ≡ ok old
      → IsInt64 default
      → load_metadata is_time
          (written json is_time (record old { default_version = default }) d s)
          old.id
        ≡ ok (record old { default_version = default })
  unfolding has_prefix after_prefix?
  metadata-written d attrs s old default v q l i =
      let (now, read, found) =
        found_after d attrs s (record old { default_version = default }) v q in
      load_metadata-read (written json is_time (record old { default_version = default }) d s)
        old.id now read
      ∙ metadata_from_default is_time old.id attrs now old default i
          (found Names.default_version refl) (found Names.latest_version refl)
          (found Names.template_name refl) (found Names.template_create_time refl)
          (sym (load_metadata-read s old.id attrs q) ∙ l)

  -- When ModifyLaunchTemplate succeeds on a valid store that holds a template with a default version
  -- between 1 and the latest, which is 64-bit, the metadata that it answers are those that the store
  -- then holds for the template: they differ from the old ones in the default version only, and that is
  -- again between 1 and the latest.
  pub modify_launch_template-bounds :
      (r : ModifyRequest) (s : Storage) (old meta : Metadata)
      → IsValid s
      → load_metadata is_time s meta.id ≡ ok old
      → pos 1 ≤ℤ old.default_version
      → old.default_version ≤ℤ old.latest_version
      → IsInt64 old.latest_version
      → (modify_launch_template json is_time r s).1 ≡ ok meta
      → (load_metadata is_time (modify_launch_template json is_time r s).0 meta.id ≡ ok meta)
        × (meta ≡ record old { default_version = meta.default_version })
        × (pos 1 ≤ℤ meta.default_version)
        × (meta.default_version ≤ℤ meta.latest_version)
  modify_launch_template-bounds r s old meta v l b c i h =
      let w = succeeded json is_time r s meta v h in
      let src = w.source in
      let id : meta.id ≡ src.old.id = ap (λ (m : Metadata). m.id) src.same in
      let eq : ◌≡◌ {A = Result Metadata} (ok old) (ok src.old) =
        sym l ∙ ap (load_metadata is_time s) id ∙ src.loads in
      let m : old ≡ src.old = ground (arith, eq) in
      let same : meta ≡ record old { default_version = meta.default_version } =
        src.same
        ∙ ap (λ (x : Metadata). record x { default_version = meta.default_version }) (sym m) in
      let (low, high) =
        resolve_version_selector-bounds r.set_default_version "SetDefaultVersion"
          old.default_version old.latest_version meta.default_version b c
          (subst
            (λ (x : Metadata).
              resolve_version_selector r.set_default_version x.default_version x.latest_version
                "SetDefaultVersion"
              ≡ ok meta.default_version)
            (sym m) src.selects) in
      let at_old : meta.id ≡ old.id = ap (λ (x : Metadata). x.id) same in
      let end =
        metadata-written w.d w.attrs s old meta.default_version v
          (ap (resource_attributes s) (sym at_old) ∙ w.read)
          (ap (load_metadata is_time s) (sym at_old) ∙ l) (in_range _ _ low high i) in
      (
        rw w.result (
            subst
              (λ (x : Metadata). load_metadata is_time (written json is_time x w.d s) x.id ≡ ok x)
              (sym same) end),
        same,
        low,
        subst (λ (x : ℤ). meta.default_version ≤ℤ x)
            (sym (ap (λ (x : Metadata). x.latest_version) same)) high,
      )
