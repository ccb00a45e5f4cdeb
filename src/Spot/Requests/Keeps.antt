-- ===== src/Spot/Requests/Keeps.antt =====
-- closeSpotRequestForInstance of pkg/dc2/dispatcher_spot.go makes one write at most.
use dc.Prelude.{String, Option, none, some, List, ◌==◌, inl, inr, Bool-cases}
use dc.Api.{Result-cases}
use dc.Storage.{Storage, Attribute, find_key, resource_attributes, set_resource_attributes}
use dc.Executor.Keeps.{Keeps}
use dc.Spot.Names
use dc.Spot.Requests.{close_request, close_spot_request, closing, forgive-ok}

module _ (Q : Storage → Type 0) where
  close_request-Keeps :
      (o : Option String) (attrs : List Attribute)
      → ((id : String) → Keeps Q (set_resource_attributes id attrs))
      → Keeps Q (close_request o attrs)
  unfolding close_request
  close_request-Keeps none attrs sets = record { run = λ s q. q }
  close_request-Keeps (some id) attrs sets = record {
    run = λ s q. elim (Bool-cases (id == "")) [
      | inl e ↦ rw (e, close_request) q
      | inr e ↦ rw (e, close_request, forgive-ok id attrs s) ((sets id).run s q)
    ];
  }

  pub close_spot_request-Keeps :
      (id code message now : String)
      → ((request : String) → Keeps Q (set_resource_attributes request (closing code message now)))
      → Keeps Q (close_spot_request id code message now)
  unfolding close_spot_request
  close_spot_request-Keeps id code message now sets = record {
    run = λ s q. elim (Result-cases (resource_attributes s id)) [
      | inl (e, p) ↦ rw (p, close_spot_request) q
      | inr (attrs, p) ↦
          rw (p, close_spot_request)
            ((close_request-Keeps (find_key attrs Names.request_id) (closing code message now)
                sets).run
              s q)
    ];
  }
