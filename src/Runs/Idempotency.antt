-- ===== src/Runs/Idempotency.antt =====
-- The idempotency keys of RunService (application/run_service.py).
use workspace.Base.{
  ◌==◌, Bool, true, false, not, Option, none, some, [], ◌∷◌, Text, is_empty, if◌then◌else◌, ◌>>=◌,
  ◌>>◌, pure, raise, gets, raise_if,
}
use workspace.Domain.Errors.{ObjectId, conflict_error, Conflict, Kind, by_id}
use workspace.Domain.Models.{Run, Endpoint, IdempotencyRecord}
use workspace.Store.{World, Op, or_missing}
use workspace.Store.Runs.{run_get, idempotency_find, idempotency_reserve, idempotency_attach_run}

-- A run that was submitted; not `created` when a request is replayed.
pub record RunSubmission : Type 0 where
  pub run : Run
  pub created : Bool

abbrev pub same_endpoint : Endpoint → Endpoint → Bool
same_endpoint Endpoint.create_run Endpoint.create_run = true
same_endpoint Endpoint.rerun Endpoint.rerun = true
same_endpoint _ _ = false

-- `wanted is not None and actual != wanted`
abbrev pub differs : Option ObjectId → Option ObjectId → Bool
differs none actual = false
differs (some i) none = true
differs (some i) (some j) = not (i == j)

unfoldable pub replay_run :
    (project_id source_run_id : Option ObjectId) → Option ObjectId → Op (Option Run)
replay_run project_id source_run_id none = raise (conflict_error Conflict.key_in_progress)
replay_run project_id source_run_id (some i) = do
  found ← gets (run_get i)
  run ← or_missing Kind.run (by_id i) found
  raise_if (differs project_id (some run.project_id)) (conflict_error Conflict.key_of_other_project)
  raise_if (differs source_run_id run.source_run_id) (conflict_error Conflict.key_of_other_run)
  pure (some run)

unfoldable pub replay :
    Endpoint → (project_id source_run_id : Option ObjectId) → IdempotencyRecord → Op (Option Run)
unfolding replay_run
replay endpoint project_id source_run_id r = do
  raise_if (not (same_endpoint r.endpoint endpoint)) (conflict_error Conflict.key_of_other_endpoint)
  replay_run project_id source_run_id r.run_id

unfoldable pub replay_found :
    ObjectId
    → Text
    → Endpoint
    → (project_id source_run_id : Option ObjectId) → Option IdempotencyRecord
    → Op (Option Run)
unfolding replay
replay_found ws key endpoint project_id source_run_id none = do
  idempotency_reserve ws key endpoint
  pure none
replay_found ws key endpoint project_id source_run_id (some r) =
    replay endpoint project_id source_run_id r

-- An empty key counts as none.
unfoldable pub replay_key :
    ObjectId → Text → Endpoint → (project_id source_run_id : Option ObjectId) → Op (Option Run)
unfolding replay_found
replay_key ws [] endpoint project_id source_run_id = pure none
replay_key ws (c ∷ key) endpoint project_id source_run_id = do
  found ← gets (idempotency_find ws (c ∷ key))
  replay_found ws (c ∷ key) endpoint project_id source_run_id found

-- `_replay_or_reserve`
unfoldable pub replay_or_reserve :
    ObjectId
    → Option Text
    → Endpoint
    → (project_id source_run_id : Option ObjectId) → Op (Option Run)
unfolding replay_key
replay_or_reserve ws none endpoint project_id source_run_id = pure none
replay_or_reserve ws (some key) endpoint project_id source_run_id =
    replay_key ws key endpoint project_id source_run_id

-- `_attach_idempotency`
unfoldable pub attach_idempotency : ObjectId → Option Text → ObjectId → World → World
attach_idempotency ws none run w = w
attach_idempotency ws (some key) run w =
    if is_empty key then w else idempotency_attach_run ws key run w
