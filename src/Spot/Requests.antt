-- ===== src/Spot/Requests.antt =====
-- The life of a spot request in pkg/dc2/dispatcher_spot.go: it is registered with its instance and
-- closed when the instance ends. A time is the text that is stored for it.
pub mod Keeps
use dc.Prelude.{
  String, ◌≡◌, refl, sym, ap, ◌∙◌, inl, inr, true, false, Option, none, some, List, [], ◌∷◌, ◌++◌,
  map, arith, ◌==◌, if◌then◌else◌, Bool-cases,
}
use dc.Api.{Error, Result, ok, err, plain, is_not_found, Result-cases, wrapped}
use dc.Api.Exec
use dc.Api.Exec.{Exec, pure, raise, lift, reads, ◌>>=◌, ◌>>◌}
use dc.Storage.{
  Storage, Attribute, Attributes, spot_instances_request_type, register_resource,
  set_resource_attributes, resource_attributes, tag_attribute_name, find_key,
}
use dc.Storage.View.{Directory, view, spec_change, assign, view-set_resource_attributes}
use dc.Storage.Invariant.{set_resource_attributes-cases}
use dc.Spot.Names
use dc.Spot.{LaunchOptions, TagMap}

-- `for key, value := range tags`, in the order in which the map is walked.
abbrev tag_attributes : TagMap → List Attribute
tag_attributes m =
    map (λ (e : String × String). record { key = tag_attribute_name e.0; value = e.1 }) m

abbrev attribute : String → String → Attribute
attribute k v = record { key = k; value = v }

abbrev price_attribute : String → List Attribute
price_attribute price = if price == "" then [] else attribute Names.max_price price ∷ []

-- The attributes of a new request.
request_attributes : String → String → LaunchOptions → TagMap → String → List Attribute
request_attributes id kind opts tags now =
    attribute Names.state "active"
      ∷ attribute Names.status_code "fulfilled"
      ∷ attribute Names.status_message "Your spot request is fulfilled."
      ∷ attribute Names.status_updated_at now
      ∷ attribute Names.create_time now
      ∷ attribute Names.instance_id id
      ∷ attribute Names.instance_kind kind
      ∷ attribute Names.request_type "one-time"
      ∷ attribute Names.interrupt_mode opts.interruption_behavior
      ∷ price_attribute opts.max_price
    ++ tag_attributes tags

-- registerSpotRequestForInstance; makeID's answer comes in, none when it fails.
unfoldable pub register_spot_request :
    Option String → String → String → LaunchOptions → TagMap → String → Exec Storage String
unfolding request_attributes
register_spot_request none id kind opts tags now = raise (wrapped (plain "id"))
register_spot_request (some request_id) id kind opts tags now = do
  Exec.wrap (register_resource (record { type = spot_instances_request_type; id = request_id }))
  Exec.wrap (set_resource_attributes request_id (request_attributes id kind opts tags now))
  pure request_id

-- What is written when a request is closed.
abbrev pub closing : String → String → String → List Attribute
closing code message now =
    attribute Names.state "closed"
    ∷ attribute Names.status_code code
    ∷ attribute Names.status_message message
    ∷ attribute Names.status_updated_at now
    ∷ []

-- An error that says that a resource is missing counts as success.
abbrev forgive_missing : Storage × Result (Unit {0}) → Storage × Result (Unit {0})
forgive_missing (s, ok tt) = (s, ok tt)
forgive_missing (s, err e) = (s, if is_not_found e then ok tt else err (wrapped e))

close_request : Option String → List Attribute → Exec Storage (Unit {0})
close_request none attrs s = (s, ok tt)
close_request (some id) attrs s =
    if id == "" then (s, ok tt) else forgive_missing (set_resource_attributes id attrs s)

-- closeSpotRequestForInstance
unfoldable pub close_spot_request : String → String → String → String → Exec Storage (Unit {0})
unfolding close_request
close_spot_request id code message now s = elim (resource_attributes s id) [
  | err e ↦ (s, if is_not_found e then ok tt else err (wrapped e))
  | ok attrs ↦ close_request (find_key attrs Names.request_id) (closing code message now) s
]

abbrev Outcome : Type 0
Outcome = Storage × Result (Unit {0})

forgive-ok :
    (id : String) (attrs : List Attribute) (s : Storage)
    → forgive_missing (set_resource_attributes id attrs s)
      ≡ ((set_resource_attributes id attrs s).0, ok tt)
unfolding is_not_found
forgive-ok id attrs s = elim (set_resource_attributes-cases id attrs s) [
  | inl e ↦ rw (e, forgive_missing) refl
  | inr e ↦ ap forgive_missing e ∙ ap (λ (o : Outcome). (o.0, ok tt)) (sym e)
]

missing-cases :
    (s : Storage) (id : String) (e : Error)
    → resource_attributes s id ≡ err e
    → is_not_found e ≡ true
unfolding resource_attributes is_not_found
missing-cases s id e h = ground arith

close_request-ok :
    (r : Option String) (attrs : List Attribute) (s : Storage) → (close_request r attrs s).1 ≡ ok tt
unfolding close_request
close_request-ok none attrs s = refl
close_request-ok (some id) attrs s = elim (Bool-cases (id == "")) [
  | inl e ↦ rw (e, close_request) refl
  | inr e ↦ rw (e, close_request) (ap (λ (o : Outcome). o.1) (forgive-ok id attrs s))
]

-- Closing never fails.
close_spot_request-ok :
    (id code message now : String) (s : Storage)
    → (close_spot_request id code message now s).1 ≡ ok tt
unfolding close_spot_request
close_spot_request-ok id code message now s = elim (Result-cases (resource_attributes s id)) [
  | inl (e, p) ↦ rw (p, close_spot_request, missing-cases s id e p) refl
  | inr (attrs, p) ↦
      rw (p, close_spot_request)
        (close_request-ok (find_key attrs Names.request_id) (closing code message now) s)
]

-- Closing succeeds always. For an instance with a spot request it marks that request as closed
-- with the code, the message and the time, and changes nothing else.
pub close_spot_request-view :
    (id code message now request_id : String) (attrs : Attributes) (s : Storage)
    → resource_attributes s id ≡ ok attrs
    → find_key attrs Names.request_id ≡ some request_id
    → (request_id == "") ≡ false
    → ((close_spot_request id code message now s).1 ≡ ok tt)
      × (view (close_spot_request id code message now s).0
          ≡ (spec_change request_id (assign (closing code message now)) (view s)).0)
unfolding close_spot_request close_request
close_spot_request-view id code message now request_id attrs s p q n = (
  close_spot_request-ok id code message now s,
  rw (p, q, n, close_spot_request)
      (ap (λ (o : Outcome). view o.0) (forgive-ok request_id (closing code message now) s)
        ∙ ap (λ (o : Directory × Result (Unit {0})). o.0)
            (view-set_resource_attributes request_id (closing code message now) s)),
)
