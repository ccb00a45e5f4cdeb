-- ===== src/LaunchTemplate/Handlers/Numbers.antt =====
-- How CreateLaunchTemplateVersion of pkg/dc2/dispatcher_launch_template.go numbers versions.
use mathlib.Core.Path.{subst}
use dc.Prelude.{
  String, ◌≡◌, refl, sym, ap, ◌∙◌, Bool, true, false, not, Option, none, some, arith, ◌==◌, inl,
  inr, Bool-cases, is_some, ◌&&◌,
}
use dc.Prelude.Int.{ℤ, pos, ◌+ℤ◌, wrap64, wrap64-IsInt64, IsInt64}
use dc.Prelude.Strconv.{format_int}
use dc.Prelude.Text.{has_prefix, after_prefix?}
use dc.Api.{Result, ok, Result-cases, wrap}
use dc.Api.Exec
use dc.Api.Exec.{Exec, checked-ok}
use dc.Storage.{Storage, Attributes, find_key, resource_attributes, set_resource_attributes}
use dc.Storage.Invariant.{IsValid}
use dc.Storage.View.{assign}
use dc.Storage.Changes.{resource_attributes-set, set-found}
use dc.LaunchTemplate.{
  TemplateData, Json, VersionData, validate_launch_template_data, launch_template_data_is_empty,
}
use dc.LaunchTemplate.Names
use dc.LaunchTemplate.Names.{Field, version_attribute_name}
use dc.LaunchTemplate.Load.{
  Metadata, load_metadata, metadata_from, option_attribute, version_attributes, resolve_reference,
  clone_some,
}
use dc.LaunchTemplate.Versions.{
  Agrees, Agrees-append, starts_version, last_value-Agrees, assign-head, version-name,
  create_time-name, description-name, field_attributes-Agrees,
}
use dc.LaunchTemplate.Handlers.{
  VersionRequest, attribute, next_version, source_data, merged, new_version, version_write,
  create_launch_template_version,
}
use dc.LaunchTemplate.Metadata.{with_latest, metadata_from_latest}

module _ {R : Type 0} (json : Json R) (is_time : String → Bool) where
  option-Agrees :
      (test : String → Bool) (b : Bool) (key : String) (o : Option String)
      → test key ≡ b
      → Agrees test b (option_attribute json key o)
  option-Agrees test b key none h = tt
  option-Agrees test b key (some v) h = (h, tt)

  version_attributes-Agrees :
      (d : VersionData R) → Agrees starts_version true (version_attributes json d)
  unfolding version_attributes
  version_attributes-Agrees d =
      Agrees-append starts_version true _ _
        (Agrees-append starts_version true _ _
          (field_attributes-Agrees json starts_version true (version_attribute_name d.version) d
            Names.fields (version-name d.version))
          (option-Agrees starts_version true _ d.version_description (description-name d.version)))
        (option-Agrees starts_version true _ d.create_time (create_time-name d.version))

  -- The write names the new latest version and touches nothing else outside the versions.
  latest-written :
      (d : VersionData R) (g : String → Option String)
      → assign (version_write json is_time d) g Names.latest_version
        ≡ some (format_int 10 d.version)
  unfolding version_write has_prefix after_prefix?
  latest-written d g =
      assign-head (attribute Names.latest_version (format_int 10 d.version))
        (version_attributes json d) g Names.latest_version
        (last_value-Agrees starts_version true (version_attributes json d) Names.latest_version
          (version_attributes-Agrees d) refl)

  others-kept :
      (d : VersionData R) (g : String → Option String) (k : String)
      → starts_version k ≡ false
      → (Names.latest_version == k) ≡ false
      → assign (version_write json is_time d) g k ≡ g k
  unfolding version_write
  others-kept d g k h n =
      assign-head (attribute Names.latest_version (format_int 10 d.version))
        (version_attributes json d) g k
        (last_value-Agrees starts_version true (version_attributes json d) k
          (version_attributes-Agrees d) h)
      ∙ rw n refl

  merged-version :
      (x : Option (VersionData R)) (t : TemplateData R) (q : Option R) (v : ℤ)
      (description : Option String) (now : String)
      → (merged json is_time x t q v description now).version ≡ v
  unfolding merged
  merged-version none t q v description now = refl
  merged-version (some x) t q v description now = refl

  -- What a new version was made from.
  record Made (r : VersionRequest R) (s : Storage) (id : String) (d : VersionData R) : Type 0 where
    resolves : resolve_reference json is_time s r.id r.name ≡ ok id
    meta : Metadata
    loads : load_metadata is_time s id ≡ ok meta
    numbered : d.version ≡ next_version meta

  made :
      (now : String) (r : VersionRequest R) (s : Storage) (id : String) (d : VersionData R)
      → new_version json is_time now r s ≡ ok (id, d)
      → Made r s id d
  unfolding new_version
  made now r s id d h = elim (Bool-cases r.dry_run) [
    | inl e ↦ absurd (ground (arith, h, e))
    | inr e ↦ elim (Result-cases (validate_launch_template_data r.template_data)) [
      | inl (x, f) ↦ absurd (ground (arith, h, e, f))
      | inr (u, f) ↦ elim (Result-cases (resolve_reference json is_time s r.id r.name)) [
        | inl (x, p) ↦ absurd (ground (arith, h, e, f, p))
        | inr (i, p) ↦ elim (Result-cases (load_metadata is_time s i)) [
          | inl (x, q) ↦ absurd (ground (arith, h, e, f, p, q))
          | inr (m, q) ↦ elim (Result-cases (source_data json is_time s m r.source_version)) [
            | inl (x, a) ↦ absurd (ground (arith, h, e, f, p, q, a))
            | inr (o, a) ↦
                elim (Result-cases
                  (wrap (clone_some json.requirements r.template_data.instance_requirements))) [
                    | inl (x, b) ↦ absurd (ground (arith, h, e, f, p, q, a, b))
                    | inr (c, b) ↦
                        elim (Bool-cases (
                          not (is_some r.source_version)
                          && launch_template_data_is_empty r.template_data)) [
                            | inl g ↦ absurd (ground (arith, h, e, f, p, q, a, b, g))
                            | inr g ↦
                                let eq : ◌≡◌ {A = Result (String × VersionData R)}
                                    (ok (
                                      i,
                                      merged json is_time o r.template_data c (next_version m)
                                          r.version_description now,
                                    ))
                                    (ok (id, d)) =
                                  sym (rw (e, f, p, q, a, b, g, new_version) refl) ∙ h in
                                let pair : ◌≡◌ {A = String × VersionData R}
                                    (
                                      i,
                                      merged json is_time o r.template_data c (next_version m)
                                          r.version_description now,
                                    )
                                    (id, d) =
                                  ground (arith, eq) in
                                record {
                                  resolves =
                                      p
                                      ∙ ap Result.ok
                                          (ap (λ (x : String × VersionData R). x.0) pair);
                                  meta = m;
                                  loads =
                                      ap (load_metadata is_time s)
                                        (sym (ap (λ (x : String × VersionData R). x.0) pair))
                                      ∙ q;
                                  numbered =
                                      sym (ap (λ (x : String × VersionData R). x.1.version) pair)
                                      ∙ merged-version o r.template_data c (next_version m)
                                          r.version_description now;
                                }
                          ]
                  ]
          ]
        ]
      ]
    ]
  ]

  -- What the reference of a request resolves to, and how the version and the store after it relate
  -- to the metadata before.
  pub record IsNumbered (r : VersionRequest R) (s s' : Storage) (d : VersionData R) : Type 0 where
    pub id : String
    pub resolved : resolve_reference json is_time s r.id r.name ≡ ok id
    pub meta : Metadata
    pub before : load_metadata is_time s id ≡ ok meta
    pub number : d.version ≡ wrap64 (meta.latest_version +ℤ pos 1)
    pub after : load_metadata is_time s' id ≡ ok (with_latest meta d.version)

  load_metadata-read :
      (s : Storage) (id : String) (attrs : Attributes)
      → resource_attributes s id ≡ ok attrs
      → load_metadata is_time s id ≡ metadata_from is_time id attrs
  unfolding load_metadata
  load_metadata-read s id attrs p = rw (p, load_metadata) refl

  stored-attributes :
      (s : Storage) (id : String) (m : Metadata)
      → load_metadata is_time s id ≡ ok m
      → (attrs : Attributes) × (resource_attributes s id ≡ ok attrs)
  unfolding load_metadata
  stored-attributes s id m h = elim (Result-cases (resource_attributes s id)) [
    | inl (e, p) ↦ absurd (ground (arith, h, p))
    | inr (attrs, p) ↦ (attrs, p)
  ]

  numbered :
      (r : VersionRequest R) (s : Storage) (id : String) (d : VersionData R)
      → IsValid s
      → Made r s id d
      → IsNumbered r s (set_resource_attributes id (version_write json is_time d) s).0 d
  numbered r s id d v m =
      let (old, p) = stored-attributes s id m.meta m.loads in
      let write = version_write json is_time d in
      let now = resource_attributes-set id write s old v p in
      let in_range : IsInt64 d.version =
        subst IsInt64 (sym m.numbered) (wrap64-IsInt64 (m.meta.latest_version +ℤ pos 1)) in
      record {
        id = id;
        resolved = m.resolves;
        meta = m.meta;
        before = m.loads;
        number = m.numbered;
        after =
            load_metadata-read (set_resource_attributes id write s).0 id now.attrs now.read
            ∙ metadata_from_latest is_time id old now.attrs m.meta d.version in_range
                (now.found Names.latest_version ∙ latest-written d (find_key old))
                (λ k a b. now.found k ∙ others-kept d (find_key old) k a b)
                (sym (load_metadata-read s id old p) ∙ m.loads);
      }

  -- When CreateLaunchTemplateVersion succeeds on a valid store, the new version has the number after
  -- the latest one of the template that the request refers to, wrapped to 64 bits, and is the latest
  -- then, while the metadata of the template stays in everything else.
  pub create_launch_template_version-IsNumbered :
      (now : String) (r : VersionRequest R) (s : Storage) (d : VersionData R)
      → IsValid s
      → (create_launch_template_version json is_time now r s).1 ≡ ok d
      → IsNumbered r s (create_launch_template_version json is_time now r s).0 d
  unfolding create_launch_template_version
  create_launch_template_version-IsNumbered now r s d v h =
      elim (Result-cases (new_version json is_time now r s)) [
        | inl (x, p) ↦ absurd (ground (arith, h, p))
        | inr ((id, d'), p) ↦
            let m = made now r s id d' p in
            let (old, q) = stored-attributes s id m.meta m.loads in
            let write = set_resource_attributes id (version_write json is_time d') in
            let done : create_launch_template_version json is_time now r s ≡ ((write s).0, ok d') =
              rw (p, create_launch_template_version)
                (checked-ok write (Exec.pure d') s
                  (set-found id (version_write json is_time d') s old q)) in
            let eq : ◌≡◌ {A = Result (VersionData R)} (ok d') (ok d) =
              sym (ap (λ (x : Storage × Result (VersionData R)). x.1) done) ∙ h in
            let same : d' ≡ d = ground (arith, eq) in
            subst (λ (x : Storage × Result (VersionData R)). IsNumbered r s x.0 d) (sym done)
              (subst (IsNumbered r s (write s).0) same (numbered r s id d' v m))
      ]
