-- ===== src/LaunchTemplate/Handlers/Defaults.antt =====
-- What ModifyLaunchTemplate of pkg/dc2/dispatcher_launch_template.go does to a template.
pub mod Bounds
use mathlib.Core.Path.{subst}
use dc.Prelude.Strconv.{format_int}
use dc.Prelude.{
  true, some, Option, if◌then◌else◌, String, ◌≡◌, refl, sym, ap, ◌∙◌, Bool, false, arith, ◌==◌, inl,
  inr, Bool-cases,
}
use dc.Prelude.Int.{ℤ, pos, negsuc, ◌≤ℤ◌, IsInt64}
use dc.Prelude.Text.{has_prefix, after_prefix?}
use dc.Api.{Result, ok, Result-cases}
use dc.Api.Exec
use dc.Api.Exec.{Exec, checked-ok}
use dc.Storage.{
  Storage, Attributes, find_key, resource_attributes, remove_resource_attributes,
  set_resource_attributes,
}
use dc.Storage.Invariant.{IsValid, remove_resource_attributes-IsValid}
use dc.Storage.Changes.{
  resource_attributes-set, resource_attributes-remove, set-found, remove-found,
}
use dc.LaunchTemplate.{Json, VersionData}
use dc.LaunchTemplate.Names
use dc.LaunchTemplate.Names.{Field, legacy_attribute_name, version_start}
use dc.LaunchTemplate.Load.{
  Metadata, is_one, load_version_data, version_data_from, load_metadata, metadata_from,
  legacy_attributes, resolve_version_selector, resolve_reference,
}
use dc.LaunchTemplate.Metadata.{metadata_from_default}
use dc.LaunchTemplate.Versions.{
  last_value-Agrees, assign-head, Agrees, starts_version, assign-Agrees, clear-Agrees, legacy-name,
  field_attributes-Agrees, version_data_from-ext, resolve_version_selector-bounds,
}
use dc.LaunchTemplate.Handlers.{
  ModifyRequest, new_default, default_write, legacy_names, modify_launch_template,
}

module _ {R : Type 0} (json : Json R) (is_time : String → Bool) where
  legacy_names-Agrees : Agrees starts_version false (legacy_names json is_time)
  unfolding legacy_names
  legacy_names-Agrees = (
    legacy-name Names.image_id,
    (
      legacy-name Names.instance_requirements,
      (
        legacy-name Names.instance_kind,
        (
          legacy-name Names.user_data,
          (legacy-name Names.security_group_ids, (legacy-name Names.block_device_mappings, tt)),
        ),
      ),
    ),
  )

  default_write-Agrees :
      (meta : Metadata) (d : VersionData R)
      → Agrees starts_version false (default_write json is_time meta d)
  unfolding default_write legacy_attributes has_prefix after_prefix?
  default_write-Agrees meta d = (
    refl,
    field_attributes-Agrees json starts_version false legacy_attribute_name d Names.fields
        legacy-name,
  )

  -- The two writes of the handler.
  cleared : Metadata → Storage → Storage
  cleared meta s = (remove_resource_attributes meta.id (legacy_names json is_time) s).0

  written : Metadata → VersionData R → Storage → Storage
  unfolding cleared
  written meta d s =
      (set_resource_attributes meta.id (default_write json is_time meta d) (cleared meta s)).0

  -- A request that passes the checks on a template that is stored makes both writes.
  modified :
      (r : ModifyRequest) (s : Storage) (meta : Metadata) (d : VersionData R) (old : Attributes)
      → IsValid s
      → new_default json is_time r s ≡ ok (meta, d)
      → resource_attributes s meta.id ≡ ok old
      → modify_launch_template json is_time r s ≡ (written meta d s, ok meta)
  unfolding modify_launch_template written cleared
  modified r s meta d old v p q =
      let mid = resource_attributes-remove meta.id (legacy_names json is_time) s old v q in
      rw (p, modify_launch_template)
        (checked-ok (remove_resource_attributes meta.id (legacy_names json is_time)) _ s
            (remove-found meta.id (legacy_names json is_time) s old q)
          ∙ checked-ok (set_resource_attributes meta.id (default_write json is_time meta d))
              (Exec.pure meta) _
              (set-found meta.id (default_write json is_time meta d) _ mid.attrs mid.read))

  metadata-id :
      (id : String) (attrs : Attributes) (m : Metadata)
      → metadata_from is_time id attrs ≡ ok m
      → m.id ≡ id
  unfolding metadata_from
  metadata-id id attrs m h = ground arith

  -- Metadata that load come from attributes that are stored.
  loaded :
      (s : Storage) (id : String) (m : Metadata)
      → load_metadata is_time s id ≡ ok m
      → (attrs : Attributes) × (resource_attributes s id ≡ ok attrs)
        × (metadata_from is_time id attrs ≡ ok m)
  unfolding load_metadata
  loaded s id m h = elim (Result-cases (resource_attributes s id)) [
    | inl (e, p) ↦ absurd (ground (arith, h, p))
    | inr (attrs, p) ↦ (attrs, p, sym (rw (p, load_metadata) refl) ∙ h)
  ]

  metadata-of :
      (s : Storage) (id : String) (m : Metadata) → load_metadata is_time s id ≡ ok m → m.id ≡ id
  metadata-of s id m h = let (attrs, p, q) = loaded s id m h in metadata-id id attrs m q

  -- What the checks of a request that passes have found.
  record Source (r : ModifyRequest) (s : Storage) (meta : Metadata) (d : VersionData R)
      : Type 0 where
    old : Metadata
    loads : load_metadata is_time s old.id ≡ ok old
    selects :
        resolve_version_selector r.set_default_version old.default_version old.latest_version
          "SetDefaultVersion"
        ≡ ok meta.default_version
    same : meta ≡ record old { default_version = meta.default_version }

  source :
      (r : ModifyRequest) (s : Storage) (meta : Metadata) (d : VersionData R)
      → new_default json is_time r s ≡ ok (meta, d)
      → Source r s meta d
  unfolding new_default
  source r s meta d h = elim (Bool-cases r.dry_run) [
    | inl e ↦ absurd (ground (arith, h, e))
    | inr e ↦ elim (Bool-cases (r.set_default_version == "")) [
      | inl f ↦ absurd (ground (arith, h, e, f))
      | inr f ↦ elim (Result-cases (resolve_reference json is_time s r.id r.name)) [
        | inl (x, p) ↦ absurd (ground (arith, h, e, f, p))
        | inr (id, p) ↦ elim (Result-cases (load_metadata is_time s id)) [
          | inl (x, q) ↦ absurd (ground (arith, h, e, f, p, q))
          | inr (m, q) ↦
              elim (Result-cases (
                resolve_version_selector r.set_default_version m.default_version m.latest_version
                  "SetDefaultVersion")) [
                    | inl (x, u) ↦ absurd (ground (arith, h, e, f, p, q, u))
                    | inr (v, u) ↦ elim (Result-cases (load_version_data json is_time s id v)) [
                      | inl (x, w) ↦ absurd (ground (arith, h, e, f, p, q, u, w))
                      | inr (y, w) ↦
                          let eq : ◌≡◌ {A = Result (Metadata × VersionData R)}
                              (ok (record m { default_version = v }, y)) (ok (meta, d)) =
                            sym (rw (e, f, p, q, u, w, new_default) refl) ∙ h in
                          record {
                            old = m;
                            loads = ap (load_metadata is_time s) (metadata-of s id m q) ∙ q;
                            selects = ground (arith, eq, u);
                            same = ground (arith, eq);
                          }
                    ]
                  ]
        ]
      ]
    ]
  ]

  -- A request that succeeds.
  record Success (r : ModifyRequest) (s : Storage) (meta : Metadata) : Type 0 where
    d : VersionData R
    attrs : Attributes
    source : Source r s meta d
    read : resource_attributes s meta.id ≡ ok attrs
    result : modify_launch_template json is_time r s ≡ (written meta d s, ok meta)

  made :
      (r : ModifyRequest) (s : Storage) (meta : Metadata) (d : VersionData R)
      → IsValid s
      → new_default json is_time r s ≡ ok (meta, d)
      → Success r s meta
  made r s meta d v p =
      let src = source r s meta d p in
      let (attrs, q, m) = loaded s src.old.id src.old src.loads in
      let read : resource_attributes s meta.id ≡ ok attrs =
        ap (λ (x : Metadata). resource_attributes s x.id) src.same ∙ q in
      record {
        d = d;
        attrs = attrs;
        source = src;
        read = read;
        result = modified r s meta d attrs v p read;
      }

  succeeded :
      (r : ModifyRequest) (s : Storage) (meta : Metadata)
      → IsValid s
      → (modify_launch_template json is_time r s).1 ≡ ok meta
      → Success r s meta
  unfolding modify_launch_template
  succeeded r s meta v h = elim (Result-cases (new_default json is_time r s)) [
    | inl (e, p) ↦ absurd (ground (arith, h, p))
    | inr ((m, d), p) ↦
        let yes = made r s m d v p in
        let eq : ◌≡◌ {A = Result Metadata} (ok m) (ok meta) =
          sym (ap (λ (x : Storage × Result Metadata). x.1) yes.result) ∙ h in
        let same : m ≡ meta = ground (arith, eq) in subst (Success r s) same yes
  ]

  load_version_data-read :
      (s : Storage) (id : String) (version : ℤ) (attrs : Attributes)
      → resource_attributes s id ≡ ok attrs
      → load_version_data json is_time s id version ≡ version_data_from json is_time version attrs
  unfolding load_version_data
  load_version_data-read s id version attrs p = rw (p, load_version_data) refl

  load-written :
      (d : VersionData R) (old : Attributes) (r : ModifyRequest) (s : Storage) (meta : Metadata)
      (version : ℤ)
      → IsValid s
      → resource_attributes s meta.id ≡ ok old
      → is_one version ≡ false
      → load_version_data json is_time (written meta d s) meta.id version
        ≡ load_version_data json is_time s meta.id version
  unfolding written cleared
  load-written d old r s meta version v q n =
      let names = legacy_names json is_time in
      let write = default_write json is_time meta d in
      let mid = resource_attributes-remove meta.id names s old v q in
      let end =
        resource_attributes-set meta.id write (remove_resource_attributes meta.id names s).0
          mid.attrs (remove_resource_attributes-IsValid meta.id names s v) mid.read in
      load_version_data-read (written meta d s) meta.id version end.attrs end.read
      ∙ version_data_from-ext json is_time version end.attrs old n (λ k h.
        end.found k
        ∙ assign-Agrees starts_version false write (find_key mid.attrs) k
            (default_write-Agrees meta d) h
        ∙ mid.found k
        ∙ clear-Agrees starts_version false names (find_key old) k legacy_names-Agrees h)
      ∙ sym (load_version_data-read s meta.id version old q)

  -- When ModifyLaunchTemplate succeeds on a valid store, every version of the template but the first
  -- reads as before.
  pub modify_launch_template-keeps :
      (r : ModifyRequest) (s : Storage) (meta : Metadata) (version : ℤ)
      → IsValid s
      → (modify_launch_template json is_time r s).1 ≡ ok meta
      → is_one version ≡ false
      → load_version_data json is_time (modify_launch_template json is_time r s).0 meta.id version
        ≡ load_version_data json is_time s meta.id version
  modify_launch_template-keeps r s meta version v h n =
      let w = succeeded r s meta v h in
      rw w.result (load-written w.d w.attrs r s meta version v w.read n)
