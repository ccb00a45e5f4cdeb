-- ===== src/Imds/Http.antt =====
-- The HTTP handlers of pkg/dc2/imds.go. Docker's answer to findInstanceByIP is a part of the
-- request, and so is the path's last segment after url.PathUnescape. The text of a time is not
-- modelled: a body holds the time itself.
use dc.Prelude.{
  ℕ, String, Bool, Option, none, some, List, [], ◌∷◌, map, ◌==◌, if◌then◌else◌, not, ◌⊎◌, inl, inr,
  is_some,
}
use dc.Prelude.Text.{trim_space}
use dc.Prelude.Sorting.{sort_by}
use dc.Api.{Result, ok, err}
use dc.Storage.{lookup}
use dc.Imds.{Imds, enabled, has_valid_token, imds_token_ttl, issue_token, tags, spot_action}
use Prim.Native.String.{◌++◌}

-- container.InspectResponse, down to what is read: the labels, if there is a configuration.
pub record Container : Type 0 where
  pub labels : Option (List (String × String))

-- What findInstanceByIP answers for the address of the client.
pub data Caller : Type 0 where
  found : Container → Caller
  not_found : Caller
  failed : Caller

pub record HttpRequest : Type 0 where
  pub method : String
  pub client_ip : String
  pub caller : Caller
  pub token_header : String
  pub ttl_header : String
  -- the unescaped key of handleInstanceTagValue
  pub key : Option String

pub data Body : Type 0 where
  no_body : Body
  text : String → Body
  lines : List String → Body
  notice : String → ℕ → Body
  time : ℕ → Body

pub record Response : Type 0 where
  pub status : ℕ
  pub body : Body

abbrev pub status_only : ℕ → Response
status_only n = record { status = n; body = no_body }

abbrev pub ok_body : Body → Response
ok_body b = record { status = 200; body = b }

abbrev label : String → List (String × String) → String
label k m = elim (lookup k m) [ none ↦ "" | some v ↦ v ]

-- docker/labels.go
abbrev pub label_instance_id : String
label_instance_id = "dc2:instance-id"

abbrev pub label_user_data : String
label_user_data = "dc2:user-data"

-- imdsInstanceRuntimeID
unfoldable pub imds_instance_runtime_id : Container → Option String
imds_instance_runtime_id c = elim c.labels [
  | none ↦ none
  | some m ↦ let id = trim_space (label label_instance_id m) in if id == "" then none else some id
]

-- Who a request comes from.
pub record Client : Type 0 where
  pub container : Container
  pub id : String

-- The token check at the end of resolveMetadataRequest.
abbrev check_token : Imds × Bool → Client → Imds × (Response ⊎ Client)
check_token r who = (r.0, if r.1 then inr who else inl (status_only 401))

-- What resolveMetadataRequest does with the container that it found.
unfoldable pub resolve_container : Container → String → ℕ → Imds → Imds × (Response ⊎ Client)
resolve_container c header now s = elim (imds_instance_runtime_id c) [
  | none ↦ (s, inl (status_only 404))
  | some id ↦
      if not (enabled s id)
      then (s, inl (status_only 404))
      else check_token (has_valid_token header id now s) (record { container = c; id = id })
]

-- resolveMetadataRequest behind the lookup of the caller.
unfoldable pub resolve_caller : Caller → String → ℕ → Imds → Imds × (Response ⊎ Client)
unfolding resolve_container
resolve_caller not_found header now s = (s, inl (status_only 404))
resolve_caller failed header now s = (s, inl (status_only 500))
resolve_caller (found c) header now s =
    if not (is_some c.labels) then (s, inl (status_only 404)) else resolve_container c header now s

-- resolveMetadataRequest: the client, or the response that was written.
unfoldable pub resolve_metadata_request : HttpRequest → ℕ → Imds → Imds × (Response ⊎ Client)
unfolding resolve_caller
resolve_metadata_request r now s =
    if r.client_ip == ""
    then (s, inl (status_only 404))
    else resolve_caller r.caller r.token_header now s

abbrev respond : (Imds → Client → Response) → Imds → Response ⊎ Client → Response
respond f s (inl e) = e
respond f s (inr who) = f s who

abbrev answer : (Imds → Client → Response) → Imds × (Response ⊎ Client) → Imds × Response
answer f r = (r.0, respond f r.0 r.1)

-- A handler of GET requests by what it answers to a client that may ask.
unfoldable pub get_handler : (Imds → Client → Response) → HttpRequest → ℕ → Imds → Imds × Response
unfolding resolve_metadata_request
get_handler f r now s =
    if not (r.method == "GET")
    then (s, status_only 405)
    else answer f (resolve_metadata_request r now s)

-- handleInstanceID
unfoldable pub instance_id_answer : Imds → Client → Response
instance_id_answer s who = ok_body (text ("i-" ++ who.id))

abbrev label_of : String → Container → String
label_of k c = elim c.labels [ none ↦ "" | some m ↦ label k m ]

-- handleUserData
unfoldable pub user_data_answer : Imds → Client → Response
user_data_answer s who =
    let user_data = label_of label_user_data who.container in
    if user_data == "" then status_only 404 else ok_body (text user_data)

abbrev tag_names : List (String × String) → List String
tag_names m = sort_by (λ (k : String). k) (map (λ (e : String × String). e.0) m)

-- handleInstanceTagKeys; the lines are the keys.
unfoldable pub tag_keys_answer : Imds → Client → Response
tag_keys_answer s who = elim (tags s who.id) [
  | [] ↦ status_only 404
  | t ∷ ts ↦ ok_body (lines (tag_names (t ∷ ts)))
]

abbrev found_text : Option String → Response
found_text none = status_only 404
found_text (some v) = ok_body (text v)

-- handleInstanceTagValue
unfoldable pub tag_value_answer : Option String → Imds → Client → Response
tag_value_answer none s who = status_only 404
tag_value_answer (some k) s who =
    if k == "" then status_only 404 else found_text (lookup k (tags s who.id))

-- handleSpotInstanceAction
unfoldable pub spot_instance_action_answer : Imds → Client → Response
spot_instance_action_answer s who = elim (spot_action s who.id) [
  | none ↦ status_only 404
  | some a ↦ ok_body (notice a.action a.termination_time)
]

-- handleSpotTerminationTime
unfoldable pub spot_termination_time_answer : Imds → Client → Response
spot_termination_time_answer s who = elim (spot_action s who.id) [
  | none ↦ status_only 404
  | some a ↦ ok_body (time a.termination_time)
]

abbrev token_body : Result String → Response
token_body (ok t) = ok_body (text t)
token_body (err e) = status_only 500

abbrev issued : Imds × Result String → Imds × Response
issued r = (r.0, token_body r.1)

unfoldable pub token_with_ttl : Result ℕ → String → Option String → ℕ → Imds → Imds × Response
token_with_ttl (err e) id random now s = (s, status_only 400)
token_with_ttl (ok ttl) id random now s = issued (issue_token random id ttl now s)

-- What handleToken does for the container that it found.
unfoldable pub token_for : Container → Option String → String → ℕ → Imds → Imds × Response
unfolding token_with_ttl
token_for c random ttl_header now s = elim (imds_instance_runtime_id c) [
  | none ↦ (s, status_only 404)
  | some id ↦
      if not (enabled s id)
      then (s, status_only 404)
      else token_with_ttl (imds_token_ttl ttl_header) id random now s
]

unfoldable pub token_for_caller : Caller → Option String → String → ℕ → Imds → Imds × Response
unfolding token_for
token_for_caller not_found random header now s = (s, status_only 404)
token_for_caller failed random header now s = (s, status_only 500)
token_for_caller (found c) random header now s = token_for c random header now s

-- handleToken
unfoldable pub handle_token : Option String → HttpRequest → ℕ → Imds → Imds × Response
unfolding token_for_caller
handle_token random r now s =
    if not (r.method == "PUT")
    then (s, status_only 405)
    else if r.client_ip == ""
    then (s, status_only 404)
    else token_for_caller r.caller random r.ttl_header now s
