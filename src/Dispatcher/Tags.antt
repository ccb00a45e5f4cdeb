-- ===== src/Dispatcher/Tags.antt =====
-- dispatchCreateTags, dispatchDeleteTags and syncIMDSTagsForResources of pkg/dc2/dispatcher.go:
-- tags are attributes of the store, and the metadata service keeps a copy for the instances.
pub mod TagNames
pub mod Sync
use dc.Prelude.{
  ℕ, String, Bool, true, false, Option, none, some, List, [], ◌∷◌, map, length, ltb, if◌then◌else◌,
}
use dc.Prelude.Text.{after_prefix?}
use dc.Api.{Error, Result, ok, err, invalid_parameter_value, dry_run}
use dc.Api.Exec
use dc.Api.Exec.{Exec, pure, ◌>>=◌, ◌>>◌, fail_if, reads}
use dc.Storage.{
  Storage, Attribute, Attributes, insert, is_tag, tag_key, tag_attribute_name,
  set_resource_attributes, remove_resource_attributes, resource_attributes,
}
use dc.Imds.{Imds, set_tags}
use dc.Dispatcher.{Tag, instance_id_prefix}

-- The parts of the Dispatcher that the tag handlers change.
pub record State : Type 0 where
  pub storage : Storage
  pub imds : Imds

abbrev pub in_storage {ℓ} : {A : Type ℓ} → Exec Storage A → Exec State A
in_storage m s = let (st, r) = m s.storage in (record s { storage = st }, r)

-- CreateTagsRequest and DeleteTagsRequest
pub record TagsRequest : Type 0 where
  pub dry_run : Bool
  pub resource_ids : List String
  pub tags : List Tag

abbrev tag_request_count_limit : ℕ
tag_request_count_limit = 1000

abbrev pub tag_attribute : Tag → Attribute
tag_attribute t = record { key = tag_attribute_name t.key; value = t.value }

-- The loop over the resources; what was written before an error stays.
unfoldable pub each_resource :
    (String → Exec Storage (Unit {0})) → List String → Exec Storage (Unit {0})
each_resource f [] = pure tt
each_resource f (id ∷ ids) = Exec.wrap (f id) >> each_resource f ids

-- The map of tags that syncIMDSTagsForResources builds from the attributes.
unfoldable pub add_tags : Attributes → List (String × String) → List (String × String)
add_tags [] m = m
add_tags (a ∷ attrs) m = add_tags attrs (if is_tag a then insert (tag_key a) a.value m else m)

set_imds_tags : String → Attributes → Exec State (Unit {0})
set_imds_tags id attrs s = (record s { imds = set_tags id (add_tags attrs []) s.imds }, ok tt)

-- One turn of syncIMDSTagsForResources: the prefix test, and the rest of the id behind it.
unfoldable pub sync_imds_tags_for : String → Exec State (Unit {0})
unfolding set_imds_tags
sync_imds_tags_for id = elim (after_prefix? instance_id_prefix id) [
  | none ↦ pure tt
  | some runtime_id ↦
      Exec.wrap (reads (λ (s : State). resource_attributes s.storage id))
      >>= set_imds_tags runtime_id
]

unfoldable pub sync_imds_tags : List String → Exec State (Unit {0})
sync_imds_tags [] = pure tt
sync_imds_tags (id ∷ ids) = sync_imds_tags_for id >> sync_imds_tags ids

-- The common course of the two handlers.
unfoldable pub change_tags :
    (String → List Attribute → Exec Storage (Unit {0})) → TagsRequest → Exec State (Unit {0})
unfolding each_resource sync_imds_tags
change_tags change r = do
  fail_if (ltb tag_request_count_limit (length r.tags)) (invalid_parameter_value "Tags")
  fail_if r.dry_run Error.dry_run
  in_storage (each_resource (λ id. change id (map tag_attribute r.tags)) r.resource_ids)
  sync_imds_tags r.resource_ids

unfoldable pub dispatch_create_tags : TagsRequest → Exec State (Unit {0})
unfolding change_tags
dispatch_create_tags = change_tags set_resource_attributes

unfoldable pub dispatch_delete_tags : TagsRequest → Exec State (Unit {0})
unfolding change_tags
dispatch_delete_tags = change_tags remove_resource_attributes
