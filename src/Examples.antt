-- ===== src/Examples.antt =====
-- The theorems on the store, the dispatcher's shared parts and the metadata service, at concrete
-- inputs.
mod Profiles
mod Templates
mod Reclaims
mod Instances
mod Groups
use mathlib.Core.Path.{subst}
use dc.Prelude.{
  ℕ, suc, ◌+◌, ◌≤◌, String, ◌≡◌, refl, Bool, true, false, ◌&&◌, Option, none, some, List, [], ◌∷◌,
  arith, ltb, length, eq_iff, Bool-cases, inr, ◌==◌, All, inl,
}
use dc.Prelude.Int.{pos}
use dc.Prelude.Sorting.{IsSorted, find_by}
use dc.Api.{Result, ok}
use dc.Storage.{
  Resource, Attribute, Attributes, ResourceStorage, Storage, ResourceType, instance_type,
  volume_type, lookup, find_key, new_memory_storage, registered_resources, resource_attributes,
}
use dc.Storage.Invariant.{IsValid, IsValid-new}
use dc.Storage.View.{view}
use dc.Storage.Calls.{register, remove, set, unset, Call, calls, spec_calls, view-calls}
use dc.Storage.Listing.{
  id_of, key_of, of_type, field_of, registered_resources-order, find_by-registered_resources,
  resource_attributes_lem,
}
use dc.Dispatcher.{Tag}
use dc.Dispatcher.Paging.{
  apply_next_token, token_of, page_at, apply_next_token-page, follow_tokens, follow_tokens_all,
}
use dc.Dispatcher.Tags.{State, TagsRequest, dispatch_create_tags, dispatch_delete_tags}
use dc.Dispatcher.Tags.Sync.{IsSynced, dispatch_create_tags-IsSynced, dispatch_delete_tags-IsSynced}
use dc.Dispatcher.Filters.{Filter, initial_ids, apply_filters}
use dc.Dispatcher.Filters.Selection.{keep, satisfies_all, stored, apply_filters-keep}
use dc.Imds.{Imds, new_imds, nanoseconds, validate_token, issue_token, set_enabled, imds_token_ttl}
use dc.Imds.Http.{
  Container, resolve_container, token_for, status_only, label_instance_id, imds_instance_runtime_id,
}
use dc.Imds.Tokens.{validate_token-issue_token}
use dc.Imds.Access.{
  after, tag, revoke, ask, Event, switches_on, switched_off_answers, switched_on_again,
}

abbrev attribute : String → String → Attribute
attribute k v = record { key = k; value = v }

abbrev resource : ResourceType → String → Resource
resource rt id = record { type = rt; id = id }

-- Two instances and a volume; one instance is tagged and untagged, a name is set twice.
abbrev some_calls : List Call
some_calls =
    register (resource instance_type "i-2")
    ∷ register (resource volume_type "vol-1")
    ∷ register (resource instance_type "i-1")
    ∷ register (resource instance_type "i-1")
    ∷ set "i-1" (attribute "tag:a" "1" ∷ attribute "tag:b" "2" ∷ attribute "tag:a" "3" ∷ [])
    ∷ unset "i-1" (attribute "tag:b" "" ∷ [])
    ∷ remove "i-9"
    ∷ []

view-calls_example :
    (view (calls some_calls new_memory_storage).0, (calls some_calls new_memory_storage).1)
    ≡ spec_calls some_calls (view new_memory_storage)
view-calls_example = view-calls some_calls new_memory_storage

-- A store, and the same store walked in another order.
abbrev store : Storage
store = record {
  resources =
      ("i-2", record { type = instance_type; attrs = [] })
      ∷ ("vol-1", record { type = volume_type; attrs = [] })
      ∷ ("i-1", record { type = instance_type; attrs = ("tag:a", "3") ∷ ("image", "x") ∷ [] })
      ∷ [];
}

abbrev store' : Storage
store' = record {
  resources =
      ("i-1", record { type = instance_type; attrs = ("tag:a", "3") ∷ ("image", "x") ∷ [] })
      ∷ ("i-2", record { type = instance_type; attrs = [] })
      ∷ ("vol-1", record { type = volume_type; attrs = [] })
      ∷ [];
}

store-IsValid : IsValid store
store-IsValid = record {
  ids = ((refl, (refl, tt)), ((refl, tt), (tt, tt)));
  names = (tt, (tt, (((refl, tt), (tt, tt)), tt)));
}

store'-IsValid : IsValid store'
store'-IsValid = record {
  ids = ((refl, (refl, tt)), ((refl, tt), (tt, tt)));
  names = (((refl, tt), (tt, tt)), (tt, (tt, tt)));
}

same_records : (k : String) → lookup k store.resources ≡ lookup k store'.resources
unfolding lookup
same_records k = elim (Bool-cases ("i-1" == k)) [
  | inl e ↦
      subst (λ j. lookup j store.resources ≡ lookup j store'.resources) ((eq_iff "i-1" k).0 e) refl
  | inr e ↦ ground (arith, e)
]

registered_resources-order_example :
    registered_resources store instance_type ≡ registered_resources store' instance_type
registered_resources-order_example =
    registered_resources-order instance_type store store' store-IsValid store'-IsValid same_records

find_by-registered_resources_example :
    find_by id_of "i-1" (registered_resources store instance_type)
    ≡ of_type instance_type "i-1" (lookup "i-1" store.resources)
find_by-registered_resources_example =
    find_by-registered_resources instance_type "i-1" store store-IsValid

abbrev stored_attributes : Attributes
stored_attributes = attribute "image" "x" ∷ attribute "tag:a" "3" ∷ []

reads_attributes : resource_attributes store "i-1" ≡ ok stored_attributes
unfolding resource_attributes lookup dc.Prelude.Sorting.sort_by dc.Prelude.Text.lt_text
reads_attributes = refl

resource_attributes_lem_example :
    IsSorted key_of stored_attributes
    × ((k : String) → find_key stored_attributes k ≡ field_of (lookup "i-1" store.resources) k)
resource_attributes_lem_example =
    resource_attributes_lem store "i-1" stored_attributes store-IsValid reads_attributes

abbrev words : List String
words = "a" ∷ "b" ∷ "c" ∷ []

apply_next_token-page_example :
    apply_next_token words (token_of 1) (some (pos 1)) ≡ ok (page_at 1 1 words)
apply_next_token-page_example = apply_next_token-page words 1 1 (omega arith) (omega arith)

follow_tokens_all_example : follow_tokens (suc (length words)) words none 2 ≡ ok words
follow_tokens_all_example = follow_tokens_all words 2 (omega arith) (omega arith)

abbrev state : State
state = record { storage = store; imds = new_imds }

abbrev tags_request : TagsRequest
tags_request = record {
  dry_run = false;
  resource_ids = "i-1" ∷ "vol-1" ∷ [];
  tags = record { key = "a"; value = "3" } ∷ [];
}

creates : (dispatch_create_tags tags_request state).1 ≡ ok tt
unfolding dispatch_create_tags dc.Storage.set_resource_attributes lookup dc.Storage.insert
    dc.Dispatcher.Tags.sync_imds_tags_for dc.Prelude.Text.after_prefix? resource_attributes
creates = refl

dispatch_create_tags-IsSynced_example :
    All (IsSynced (dispatch_create_tags tags_request state).0) ("i-1" ∷ "vol-1" ∷ [])
dispatch_create_tags-IsSynced_example =
    dispatch_create_tags-IsSynced tags_request state store-IsValid creates

deletes : (dispatch_delete_tags tags_request state).1 ≡ ok tt
unfolding dispatch_delete_tags dc.Storage.remove_resource_attributes lookup dc.Storage.insert
    dc.Dispatcher.Tags.sync_imds_tags_for dc.Prelude.Text.after_prefix? resource_attributes
deletes = refl

dispatch_delete_tags-IsSynced_example :
    All (IsSynced (dispatch_delete_tags tags_request state).0) ("i-1" ∷ "vol-1" ∷ [])
dispatch_delete_tags-IsSynced_example =
    dispatch_delete_tags-IsSynced tags_request state store-IsValid deletes

abbrev filters : List Filter
filters =
    record { name = some "tag:a"; values = some ("1" ∷ "3" ∷ []) }
    ∷ record { name = some "tag-key"; values = some ("a" ∷ []) }
    ∷ []

filtered : apply_filters store instance_type [] filters ≡ ok ("i-1" ∷ [])
unfolding apply_filters registered_resources dc.Prelude.Sorting.sort_by dc.Storage.same_type
    dc.Prelude.Text.lt_text resource_attributes lookup dc.Dispatcher.Filters.filter_once
    dc.Prelude.Text.after_prefix? dc.Storage.insert dc.Storage.is_tag dc.Prelude.Text.has_prefix
    dc.Storage.tag_key
filtered = refl

apply_filters-keep_example :
    ◌≡◌ {A = List String}
      ("i-1" ∷ [])
      (keep (λ id. satisfies_all filters (stored store id)) (initial_ids store instance_type []))
apply_filters-keep_example =
    apply_filters-keep store instance_type [] filters ("i-1" ∷ []) store-IsValid filtered

validate_token-issue_token_example :
    (validate_token "t" "c" 30 (issue_token (some "t") "c" 60 10 new_imds).0).1
    ≡ ("c" == "c" && ltb 30 (10 + nanoseconds 60))
validate_token-issue_token_example = validate_token-issue_token "t" "c" "c" 60 10 30 new_imds

abbrev box : Container
box = record { labels = some ((label_instance_id, "c") ∷ []) }

box_id : imds_instance_runtime_id box ≡ some "c"
unfolding imds_instance_runtime_id dc.Prelude.Text.trim_space lookup
box_id = refl

abbrev events : List Event
events = tag "c" (("a", "1") ∷ []) ∷ revoke "d" ∷ []

abbrev issued : Imds
issued = (issue_token (some "t") "c" 60 10 new_imds).0

switched_off_answers_example :
    (resolve_container box "t" 30 (after "c" events issued)
      ≡ (after "c" events issued, inl (status_only 404)))
    × (token_for box (some "u") "60" 30 (after "c" events issued)
        ≡ (after "c" events issued, status_only 404))
switched_off_answers_example =
    switched_off_answers "c" events issued box "t" "60" (some "u") 30 (refl, (refl, tt)) box_id

switched_on_again_example :
    (resolve_container box "t" 30 (set_enabled "c" true (after "c" events issued))).1
    ≡ inl (status_only 401)
switched_on_again_example = switched_on_again "c" events issued box "t" 30 (refl, (refl, tt)) box_id
