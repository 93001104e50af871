-- ===== src/Runs/Ports.antt =====
-- SchedulerPort and StoragePort (domain/ports), whose implementations the process supplies: the
-- n-th call's result. What a call raises of SchedulerError, OSError and ValidationFailed is `err`.
use workspace.Base.{ℕ, ◌+◌, Option, List, Text, Result, ok, err}
use workspace.Domain.Errors.{ObjectId, DomainError, scheduler_error}
use workspace.Domain.Compute.{ResolvedSchedulerConfiguration}
use workspace.Domain.Models.{SchedulerJobState}
use workspace.Store.{World, Op}

-- The directories of a run.
pub record RunPaths : Type 0 where
  pub work : Text
  pub inputs : Text
  pub stdout : Text
  pub stderr : Text

-- What was found where an artifact is collected.
pub record ArtifactContent : Type 0 where
  pub size : ℕ
  pub file_count : ℕ
  pub content_hash : Text

pub record SchedulerSubmission : Type 0 where
  pub run_id : ObjectId
  pub job_name : Text
  pub work_dir : Text
  pub command : Text
  pub setup_command : Text
  pub environment_image : Text
  pub stdout_path : Text
  pub stderr_path : Text
  pub configuration : ResolvedSchedulerConfiguration
  pub environment : List (Text × Text)

pub record Ports : Type 0 where
  pub prepare_run_directory :
      ℕ → ObjectId → List (Text × Text) → List (Text × ObjectId) → Result Text RunPaths
  -- pathlib's `/`
  pub join_path : Text → Text → Text
  pub submit : ℕ → SchedulerSubmission → Result Text Text
  pub cancel : ℕ → Text → Result Text (Unit {0})
  pub poll : ℕ → Text → Result Text SchedulerJobState
  pub collect_artifact : ℕ → ObjectId → ObjectId → Text → Result Text (Option ArtifactContent)

answer : {A : Type 0} → World → Result Text A → Result DomainError (A × World)
answer w (ok a) = ok (a, w)
answer w (err reason) = err (scheduler_error reason)

-- A call of a port whose exceptions are not caught.
unfoldable pub call : {A : Type 0} → (ℕ → Result Text A) → Op A
unfolding answer
call f w = answer (record w { calls = w.calls + 1 }) (f w.calls)

-- A call of a port whose exceptions are caught.
unfoldable pub try_call : {A : Type 0} → (ℕ → Result Text A) → Op (Result Text A)
try_call f w = ok (f w.calls, record w { calls = w.calls + 1 })
