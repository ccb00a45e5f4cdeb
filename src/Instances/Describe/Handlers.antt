-- ===== src/Instances/Describe/Handlers.antt =====
-- pkg/dc2/dispatcher_instance.go: dispatchDescribeInstances and dispatchDescribeInstanceStatus.
use dc.Prelude.{
  String, Bool, true, false, ◌&&◌, not, Option, none, some, List, [], ◌∷◌, ◌++◌, ◌==◌,
  if◌then◌else◌, map, contains,
}
use dc.Prelude.Int.{ℤ}
use dc.Api.Exec
use dc.Api.Exec.{Exec, pure, lift, gets, reads, ◌>>=◌, ◌>>◌}
use dc.Storage.{instance_type, resource_attributes, key_or_empty}
use dc.Dispatcher.Filters.{Filter, apply_filters}
use dc.Dispatcher.Paging.{apply_next_token}
use dc.Dispatcher.Names
use dc.Executor.{
  Executor, World, Description, in_storage, in_exe, api_instance_id, executor_instance_ids, running,
  pending,
}
use dc.Instances.Describe.{Instance, Library, api_instance, terminated_instance_from_storage}
use dc.Instances.Describe.Filters.{
  split_instance_filters, apply_instance_filters, instance_matches_all_filters,
}

-- DescribeInstancesRequest
pub record DescribeInstances : Type 0 where
  pub instance_ids : List String
  pub filters : List Filter

-- DescribeInstanceStatusRequest
pub record DescribeStatus : Type 0 where
  pub instance_ids : List String
  pub filters : List Filter
  pub include_all_instances : Bool
  pub next_token : Option String
  pub max_results : Option ℤ

-- api.InstanceStatus; the same summary stands for the instance and for its system.
pub record Status : Type 0 where
  pub availability_zone : String
  pub instance_id : String
  pub state : String
  pub summary : String
  pub detail : String

-- statusSummaryForInstanceState
status_summary : String → String × String
status_summary state =
    if state == running
    then ("ok", "passed")
    else if state == pending
    then ("initializing", "initializing")
    else ("not-applicable", "not-applicable")

module _ {E : Type 0} (x : Executor E) (lib : Library) (region : String) where
  -- The loop over the descriptions.
  unfoldable pub api_instances : List Description → Exec (World E) (List Instance)
  api_instances [] = pure []
  api_instances (d ∷ ds) = do
    i ← reads (λ w. api_instance lib region w d)
    is ← api_instances ds
    pure (i ∷ is)

  -- The loop over the ids that the executor does not describe.
  terminated_instances : List String → List String → Exec (World E) (List Instance)
  terminated_instances described [] = pure []
  terminated_instances described (id ∷ ids) =
      let rest = terminated_instances described ids in
      if contains described id then rest else (do
        now ← gets (λ (w : World E). x.now w.exe)
        found ← in_storage (terminated_instance_from_storage lib now id)
        is ← rest
        pure (elim found [ none ↦ is | some i ↦ i ∷ is ]))

  unfoldable pub dispatch_describe_instances : DescribeInstances → Exec (World E) (List Instance)
  unfolding api_instances terminated_instances
  dispatch_describe_instances r = do
    filters ← lift (split_instance_filters r.filters)
    instance_ids ←
        reads (λ (w : World E). apply_filters w.storage instance_type r.instance_ids filters.0)
    ids ← lift (executor_instance_ids instance_ids)
    ds ← in_exe (x.describe_instances ids)
    live ← api_instances ds
    gone ← terminated_instances (map (λ (i : Instance). i.id) live) instance_ids
    lift (apply_instance_filters (live ++ gone) filters.1)

  -- One turn of the loop of dispatchDescribeInstanceStatus.
  status_of : Description → Exec (World E) Status
  unfolding status_summary
  status_of d = do
    let id = api_instance_id d.id
    attrs ← Exec.wrap (reads (λ (w : World E). resource_attributes w.storage id))
    let summary = status_summary d.state
    pure (record {
      availability_zone = key_or_empty attrs Names.availability_zone;
      instance_id = id;
      state = d.state;
      summary = summary.0;
      detail = summary.1;
    })

  statuses : DescribeStatus → List Filter → List Description → Exec (World E) (List Status)
  unfolding status_of
  statuses r filters [] = pure []
  statuses r filters (d ∷ ds) =
      let rest = statuses r filters ds in
      if not r.include_all_instances && not (d.state == running) then rest else (do
        i ← reads (λ w. api_instance lib region w d)
        matches ← lift (instance_matches_all_filters i filters)
        elim matches [ false ↦ rest | true ↦ (do s ← status_of d; ss ← rest; pure (s ∷ ss)) ])

  unfoldable pub dispatch_describe_instance_status :
      DescribeStatus → Exec (World E) (List Status × Option String)
  unfolding statuses
  dispatch_describe_instance_status r = do
    filters ← lift (split_instance_filters r.filters)
    instance_ids ←
        reads (λ (w : World E). apply_filters w.storage instance_type r.instance_ids filters.0)
    ids ← lift (executor_instance_ids instance_ids)
    ds ← in_exe (x.describe_instances ids)
    ss ← statuses r filters.1 ds
    lift (apply_next_token ss r.next_token r.max_results)
