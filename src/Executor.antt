-- ===== src/Executor.antt =====
-- pkg/dc2/executor/executor.go: the interface to the containers and the volumes, which is a
-- parameter of the model, and the state of the Dispatcher that its handlers change through it.
pub mod Loops
pub mod Keeps
use dc.Prelude.{String, Bool, none, some, List, [], ◌∷◌}
use Prim.Native.String.{◌++◌}
use dc.Prelude.Int.{ℤ}
use dc.Api
use dc.Api.{Error, Result, ok, err, wrapped, ◌>>=◌}
use dc.Api.Exec
use dc.Api.Exec.{Exec}
use dc.Storage.{Storage}
use dc.Imds.{Imds}
use dc.Dispatcher.{instance_id_prefix, executor_instance_id}
use dc.AutoScaling.WarmJobs.{WarmJobs}
use dc.Spot.Schedule.{Jobs, cancel_spot_reclaim}

-- executor.CreateInstancesRequest
pub record CreateInstances : Type 0 where
  pub image_id : String
  pub instance_kind : String
  pub count : ℤ
  pub user_data : String

-- The names of api.InstanceState.
abbrev pub running : String
running = "running"

abbrev pub stopped : String
stopped = "stopped"

abbrev pub pending : String
pending = "pending"

abbrev pub terminated : String
terminated = "terminated"

abbrev pub unhealthy : String
unhealthy = "unhealthy"

-- executor.InstanceDescription, with the name of the state.
pub record Description : Type 0 where
  pub id : String
  pub image_id : String
  pub state : String
  pub health : String
  pub private_ip : String
  pub private_dns_name : String
  pub public_ip : String
  pub instance_kind : String
  pub architecture : String
  pub launch_time : String

-- executor.InstanceStateChange
pub record StateChange : Type 0 where
  pub id : String
  pub current : String
  pub previous : String

pub record Attachment : Type 0 where
  pub device : String
  pub instance_id : String
  pub attach_time : String

-- executor.VolumeDescription
pub record VolumeDescription : Type 0 where
  pub id : String
  pub size : ℤ
  pub attachments : List Attachment

-- The methods of executor.Executor on a state of its own, with the clock and the context of a
-- request: `wait` ends when the time is over, or with an error when the context is done.
pub record Executor (E : Type 0) : Type 0 where
  pub create_instances : CreateInstances → Exec E (List String)
  pub describe_instances : List String → Exec E (List Description)
  pub start_instances : List String → Exec E (List StateChange)
  pub stop_instances : List String → Bool → Exec E (List StateChange)
  pub terminate_instances : List String → Bool → Exec E (List StateChange)
  pub create_volume : ℤ → Exec E String
  pub delete_volume : String → Exec E (Unit {0})
  pub describe_volumes : List String → Exec E (List VolumeDescription)
  pub attach_volume : String → String → String → Exec E Attachment
  pub detach_volume : String → String → String → Exec E Attachment
  pub wait : ℤ → Exec E (Unit {0})
  pub now : E → String

-- The parts of the Dispatcher that change: the storage, the jobs of spot reclaims with the metadata
-- service that they share, the jobs that delete warm pools, and the state behind the executor.
pub record World (E : Type 0) : Type 0 where
  pub storage : Storage
  pub spot : Jobs
  pub warm : WarmJobs
  pub exe : E

abbrev pub imds_of : {E : Type 0} → World E → Imds
imds_of w = w.spot.imds

abbrev pub in_storage {ℓ} : {E : Type 0} {A : Type ℓ} → Exec Storage A → Exec (World E) A
in_storage m w = let (s, r) = m w.storage in (record w { storage = s }, r)

-- A call of the metadata service, which does not fail.
abbrev pub in_imds : {E : Type 0} → (Imds → Imds) → Exec (World E) (Unit {0})
in_imds f w = (record w { spot = record w.spot { imds = f w.spot.imds } }, ok tt)

-- executorError around a call of the executor
abbrev pub in_exe {ℓ} : {E : Type 0} {A : Type ℓ} → Exec E A → Exec (World E) A
in_exe m w = let (e, r) = m w.exe in (record w { exe = e }, Api.wrap r)

abbrev pub cancel_reclaim : {E : Type 0} → String → Exec (World E) (Unit {0})
cancel_reclaim id w = (record w { spot = cancel_spot_reclaim id w.spot }, ok tt)

-- apiInstanceID
abbrev pub api_instance_id : String → String
api_instance_id id = instance_id_prefix ++ id

-- executorInstanceID as a step of a handler
unfoldable pub runtime_id : String → Result String
runtime_id id = elim (executor_instance_id id) [ none ↦ err Error.panics | some r ↦ ok r ]

-- executorInstanceIDs
unfoldable pub executor_instance_ids : List String → Result (List String)
executor_instance_ids [] = ok []
executor_instance_ids (id ∷ ids) = do r ← runtime_id id; rs ← executor_instance_ids ids; ok (r ∷ rs)

-- A loop of a handler that stops at the first error.
unfoldable pub each {ℓ} :
    {S : Type 0} {A : Type ℓ} → (A → Exec S (Unit {0})) → List A → Exec S (Unit {0})
each f [] = Exec.pure tt
each f (x ∷ xs) = Exec.◌>>◌ (f x) (each f xs)
