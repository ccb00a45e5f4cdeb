-- ===== src/Spot/Describe/Selected.antt =====
-- What DescribeSpotInstanceRequests of pkg/dc2/dispatcher_spot.go lists.
use mathlib.Core.Path.{subst}
use dc.Prelude.{
  ◌==◌, ◌||◌, ◌⊎◌, sym, eq_iff, Option-cases, contains, refl, String, ◌≡◌, ap, ◌∙◌, inl, inr, Bool,
  true, Option, none, some, List, [], ◌∷◌, arith, Bool-cases, All,
}
use dc.Prelude.Sorting.{sort_by, sort_by-All}
use dc.Api.{ok, Result-cases}
use dc.Storage.{Storage, spot_instances_request_type, resource_attributes}
use dc.Prelude.Text.{trim_space, has_prefix}
use dc.Dispatcher.Filters.{Filter, apply_filters}
use dc.Dispatcher.Paging.{apply_next_token-All}
use dc.Spot.Describe.{
  SpotInstanceRequest, DescribeRequest, split_spot_request_filters, spot_request_matches_filters,
  spot_request_matches_filter, values_contain, split_filter, request_filter_names, api_spot_request,
  describe_one, push, describe_all, describe_spot_instance_requests,
}

abbrev Passes : List Filter → SpotInstanceRequest → Type 0
Passes fs r = spot_request_matches_filters r fs ≡ ok true

-- What a request has under the name of a filter.
pub data Has (r : SpotInstanceRequest) : String → String → Type 0 where
  by_id : Has r "spot-instance-request-id" r.id
  by_state : Has r "state" r.state
  by_code : Has r "status-code" r.status.code
  by_message : Has r "status-message" r.status.message
  by_instance : (id : String) → r.instance_id ≡ some id → Has r "instance-id" id
  by_instance_kind : Has r "instance-type" r.launch_type
  by_price : Has r "spot-price" r.spot_price
  by_kind : Has r "type" r.request_type

-- The request has one of the values of the filter under its name.
pub record Meets (r : SpotInstanceRequest) (f : Filter) : Type 0 where
  pub name : String
  pub named : f.name ≡ some name
  pub value : String
  pub has : Has r name value
  pub values : List String
  pub given : f.values ≡ some values
  pub one : contains values value ≡ true

-- The filter is about tags.
pub record IsTagFilter (f : Filter) : Type 0 where
  pub name : String
  pub named : f.name ≡ some name
  pub tagged : (trim_space name == "tag-key" || has_prefix (trim_space name) "tag:") ≡ true

meets :
    (r : SpotInstanceRequest) (f : Filter) (n k v : String)
    → f.name ≡ some n
    → (n == k) ≡ true
    → Has r k v
    → values_contain f v ≡ true
    → Meets r f
meets r f n k v named same has one = elim (Option-cases f.values) [
  | inl e ↦ absurd (ground (arith, one, e))
  | inr (vs, e) ↦ record {
    name = k;
    named = named ∙ ap some ((eq_iff n k).0 same);
    value = v;
    has = has;
    values = vs;
    given = e;
    one = sym (rw e refl) ∙ one;
  }
]

named-Meets :
    (r : SpotInstanceRequest) (f : Filter) (n : String)
    → f.name ≡ some n
    → spot_request_matches_filter r f ≡ ok true
    → Meets r f
unfolding spot_request_matches_filter
named-Meets r f n named h = elim (Bool-cases (n == "spot-instance-request-id")) [
  | inl b0 ↦
      meets r f n "spot-instance-request-id" r.id named b0 by_id (ground (arith, h, named, b0))
  | inr b0 ↦ elim (Bool-cases (n == "state")) [
    | inl b1 ↦ meets r f n "state" r.state named b1 by_state (ground (arith, h, named, b0, b1))
    | inr b1 ↦ elim (Bool-cases (n == "status-code")) [
      | inl b2 ↦
          meets r f n "status-code" r.status.code named b2 by_code
            (ground (arith, h, named, b0, b1, b2))
      | inr b2 ↦ elim (Bool-cases (n == "status-message")) [
        | inl b3 ↦
            meets r f n "status-message" r.status.message named b3 by_message
              (ground (arith, h, named, b0, b1, b2, b3))
        | inr b3 ↦ elim (Bool-cases (n == "instance-id")) [
          | inl b4 ↦ elim (Option-cases r.instance_id) [
            | inl e ↦ absurd (ground (arith, h, named, b0, b1, b2, b3, b4, e))
            | inr (v, e) ↦
                meets r f n "instance-id" v named b4 (by_instance v e)
                  (ground (arith, h, named, b0, b1, b2, b3, b4, e))
          ]
          | inr b4 ↦ elim (Bool-cases (n == "instance-type")) [
            | inl b5 ↦
                meets r f n "instance-type" r.launch_type named b5 by_instance_kind
                  (ground (arith, h, named, b0, b1, b2, b3, b4, b5))
            | inr b5 ↦ elim (Bool-cases (n == "spot-price")) [
              | inl b6 ↦
                  meets r f n "spot-price" r.spot_price named b6 by_price
                    (ground (arith, h, named, b0, b1, b2, b3, b4, b5, b6))
              | inr b6 ↦ elim (Bool-cases (n == "type")) [
                | inl b7 ↦
                    meets r f n "type" r.request_type named b7 by_kind
                      (ground (arith, h, named, b0, b1, b2, b3, b4, b5, b6, b7))
                | inr b7 ↦ absurd (ground (arith, h, named, b0, b1, b2, b3, b4, b5, b6, b7))
              ]
            ]
          ]
        ]
      ]
    ]
  ]
]

matches-Meets :
    (r : SpotInstanceRequest) (f : Filter) → spot_request_matches_filter r f ≡ ok true → Meets r f
unfolding spot_request_matches_filter
matches-Meets r f h = elim (Option-cases f.name) [
  | inl e ↦ absurd (ground (arith, h, e))
  | inr (n, e) ↦ named-Meets r f n e h
]

matches_every : (r : SpotInstanceRequest) (fs : List Filter) → Passes fs r → All (Meets r) fs
unfolding spot_request_matches_filters
matches_every r [] h = tt
matches_every r (f ∷ fs) h = elim (Result-cases (spot_request_matches_filter r f)) [
  | inl (e, p) ↦ absurd (ground (arith, h, p))
  | inr (b, p) ↦ elim (Bool-cases b) [
    | inl t ↦ (matches-Meets r f (p ∙ ap ok t), matches_every r fs (ground (arith, h, p, t)))
    | inr n ↦ absurd (ground (arith, h, p, n))
  ]
]

split-Meets :
    (r : SpotInstanceRequest) (fs tag_filters req_filters : List Filter)
    → split_spot_request_filters fs ≡ ok (tag_filters, req_filters)
    → All (Meets r) req_filters
    → All (λ f. IsTagFilter f ⊎ Meets r f) fs
unfolding split_spot_request_filters split_filter
split-Meets r [] tf rf h a = tt
split-Meets r (f ∷ fs) tf rf h a = elim (Result-cases (split_spot_request_filters fs)) [
  | inl (e, p) ↦ absurd (ground (arith, h, p))
  | inr ((ts, rs), p) ↦ elim (Option-cases f.name) [
    | inl e ↦ absurd (ground (arith, h, p, e))
    | inr (n, e) ↦ elim (Bool-cases (trim_space n == "")) [
      | inl b ↦ absurd (ground (arith, h, p, e, b))
      | inr b ↦ elim (Bool-cases (trim_space n == "tag-key" || has_prefix (trim_space n) "tag:")) [
        | inl t ↦
            let same : rs ≡ rf = ground (arith, h, p, e, b, t) in
            (
              inl (record { name = n; named = e; tagged = t }),
              split-Meets r fs ts rs p (subst (All (Meets r)) (sym same) a),
            )
        | inr t ↦ elim (Bool-cases (contains request_filter_names (trim_space n))) [
          | inr c ↦ absurd (ground (arith, h, p, e, b, t, c))
          | inl c ↦
              let same : f ∷ rs ≡ rf = ground (arith, h, p, e, b, t, c) in
              let now = subst (All (Meets r)) (sym same) a in
              (inr now.0, split-Meets r fs ts rs p now.1)
        ]
      ]
    ]
  ]
]

abbrev PassesIfAny : List Filter → Option SpotInstanceRequest → Type 0
PassesIfAny fs none = Unit
PassesIfAny fs (some r) = Passes fs r

describe_one-Passes :
    (is_time : String → Bool) (s : Storage) (fs : List Filter) (id : String)
    (out : Option SpotInstanceRequest)
    → describe_one is_time s fs id ≡ ok out
    → PassesIfAny fs out
unfolding describe_one
describe_one-Passes is_time s fs id none h = tt
describe_one-Passes is_time s fs id (some r) h = elim (Result-cases (resource_attributes s id)) [
  | inl (e, p) ↦ absurd (ground (arith, h, p))
  | inr (attrs, p) ↦ elim (Result-cases (api_spot_request is_time id attrs)) [
    | inl (e, q) ↦ absurd (ground (arith, h, p, q))
    | inr (x, q) ↦ elim (Result-cases (spot_request_matches_filters x fs)) [
      | inl (e, m) ↦ absurd (ground (arith, h, p, q, m))
      | inr (b, m) ↦
          let same : x ≡ r = ground (arith, h, p, q, m) in
          let yes : b ≡ true = ground (arith, h, p, q, m) in subst (Passes fs) same (m ∙ ap ok yes)
    ]
  ]
]

push-Passes :
    (fs : List Filter) (one : Option SpotInstanceRequest) (rs : List SpotInstanceRequest)
    → PassesIfAny fs one
    → All (Passes fs) rs
    → All (Passes fs) (push one rs)
push-Passes fs none rs p a = a
push-Passes fs (some r) rs p a = (p, a)

describe_all-Passes :
    (is_time : String → Bool) (s : Storage) (fs : List Filter) (ids : List String)
    (out : List SpotInstanceRequest)
    → describe_all is_time s fs ids ≡ ok out
    → All (Passes fs) out
unfolding describe_all
describe_all-Passes is_time s fs [] out h =
    let same : ◌≡◌ {A = List SpotInstanceRequest} [] out = ground (arith, h) in
    subst (All (Passes fs)) same tt
describe_all-Passes is_time s fs (id ∷ ids) out h =
    elim (Result-cases (describe_one is_time s fs id)) [
      | inl (e, p) ↦ absurd (ground (arith, h, p))
      | inr (one, p) ↦ elim (Result-cases (describe_all is_time s fs ids)) [
        | inl (e, q) ↦ absurd (ground (arith, h, p, q))
        | inr (rs, q) ↦
            let same : push one rs ≡ out = ground (arith, h, p, q) in
            subst (All (Passes fs)) same (
              push-Passes fs one rs (describe_one-Passes is_time s fs id one p)
                (describe_all-Passes is_time s fs ids rs q))
      ]
    ]

listed-Passes :
    (is_time : String → Bool) (r : DescribeRequest) (s : Storage)
    (tag_filters req_filters : List Filter) (page : List SpotInstanceRequest) (next : Option String)
    → split_spot_request_filters r.filters ≡ ok (tag_filters, req_filters)
    → describe_spot_instance_requests is_time r s ≡ ok (page, next)
    → All (Passes req_filters) page
unfolding describe_spot_instance_requests
listed-Passes is_time r s tf rf page next p h = elim (Bool-cases r.dry_run) [
  | inl d ↦ absurd (ground (arith, h, d))
  | inr d ↦ elim (Result-cases (apply_filters s spot_instances_request_type r.ids tf)) [
    | inl (e, q) ↦ absurd (ground (arith, h, d, p, q))
    | inr (ids, q) ↦ elim (Result-cases (describe_all is_time s rf ids)) [
      | inl (e, a) ↦ absurd (ground (arith, h, d, p, q, a))
      | inr (rs, a) ↦
          apply_next_token-All (Passes rf) (sort_by (λ (x : SpotInstanceRequest). x.id) rs)
            r.next_token r.max_results (page, next)
            (sort_by-All (λ (x : SpotInstanceRequest). x.id) (Passes rf) rs
              (describe_all-Passes is_time s rf ids rs a))
            (ground (arith, h, d, p, q, a))
    ]
  ]
]

abbrev AllMeet : List Filter → SpotInstanceRequest → Type 0
AllMeet fs x = All (λ f. IsTagFilter f ⊎ Meets x f) fs

each_page :
    (fs tag_filters req_filters : List Filter) (page : List SpotInstanceRequest)
    → split_spot_request_filters fs ≡ ok (tag_filters, req_filters)
    → All (Passes req_filters) page
    → All (AllMeet fs) page
each_page fs tf rf [] h a = tt
each_page fs tf rf (x ∷ xs) h a =
    (split-Meets x fs tf rf h (matches_every x rf a.0), each_page fs tf rf xs h a.1)

-- Every request that is listed on a page has, for every filter of the request that is not about tags,
-- one of the values of the filter under the name of the filter.
pub describe_spot_instance_requests-Meets :
    (is_time : String → Bool) (r : DescribeRequest) (s : Storage) (page : List SpotInstanceRequest)
    (next : Option String)
    → describe_spot_instance_requests is_time r s ≡ ok (page, next)
    → All (λ x. All (λ f. IsTagFilter f ⊎ Meets x f) r.filters) page
unfolding describe_spot_instance_requests
describe_spot_instance_requests-Meets is_time r s page next h = elim (Bool-cases r.dry_run) [
  | inl d ↦ absurd (ground (arith, h, d))
  | inr d ↦ elim (Result-cases (split_spot_request_filters r.filters)) [
    | inl (e, p) ↦ absurd (ground (arith, h, d, p))
    | inr ((tf, rf), p) ↦
        each_page r.filters tf rf page p (listed-Passes is_time r s tf rf page next p h)
  ]
]
