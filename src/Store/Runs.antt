-- ===== src/Store/Runs.antt =====
-- RunRepositoryImpl, RunSnapshotRepositoryImpl, RunEventRepositoryImpl, IdempotencyRepositoryImpl,
-- EntitlementRepositoryImpl and ArtifactRepositoryImpl of infrastructure/db/repositories.py.
use workspace.Base.{
  ℕ, ◌==◌, Bool, true, false, ◌&&◌, Option, none, some, List, Text, text_eq, find?, any, filter,
  count, update_first, Result, ok, err, modify,
}
use workspace.Domain.Errors.{ObjectId, DomainError}
use workspace.Domain.Enums.{RunStatus}
use workspace.Domain.Models.{Run, RunEvent, IdempotencyRecord, Endpoint, Artifact}
use workspace.Domain.Snapshot.{RunSnapshot}
use workspace.Domain.Compute.{ResourceEntitlement}
use workspace.Store.{World, Op, insert_row}

abbrev pub no_row : {A : Type 0} → A → Bool
no_row _ = false

unfoldable pub run_get : ObjectId → World → Option Run
run_get i w = find? (λ r. r.id == i) w.runs

with_runs : World → Result DomainError (List Run) → Result DomainError (Unit {0} × World)
with_runs w (ok rows) = ok (tt, record w { runs = rows })
with_runs w (err e) = err e

unfoldable pub run_add : Run → Op (Unit {0})
unfolding with_runs insert_row
run_add r w = with_runs w (insert_row (λ x. x.id == r.id) no_row r w.runs)

-- Identity, snapshot and origin of a run are never written again.
abbrev pub rewrite_run : Run → Run → Run
rewrite_run new r = record r {
  name = new.name;
  status = new.status;
  scheduler_job_id = new.scheduler_job_id;
  exit_code = new.exit_code;
  failure_reason = new.failure_reason;
  submitted_at = new.submitted_at;
  started_at = new.started_at;
  finished_at = new.finished_at;
}

unfoldable pub write_run : Run → World → World
write_run new w = record w { runs = update_first (λ r. r.id == new.id) (rewrite_run new) w.runs }

unfoldable pub run_update : Run → Op (Unit {0})
run_update r = modify (write_run r)

-- `status IN ('queued', 'running')`
abbrev pub is_unfinished : RunStatus → Bool
is_unfinished RunStatus.queued = true
is_unfinished RunStatus.running = true
is_unfinished _ = false

unfoldable pub run_list_unfinished : World → List Run
run_list_unfinished w = filter (λ r. is_unfinished r.status) w.runs

abbrev pub claimed : Run → Run → Run
claimed new r = record r {
  status = new.status;
  exit_code = new.exit_code;
  failure_reason = new.failure_reason;
  started_at = new.started_at;
  finished_at = new.finished_at;
}

-- `UPDATE … WHERE id = … AND status IN ('queued', 'running')`; true when a row was hit.
unfoldable pub claim_terminal : Run → World → Bool × World
claim_terminal new w =
    let p = λ (r : Run). (r.id == new.id) && is_unfinished r.status in
    (any p w.runs, record w { runs = update_first p (claimed new) w.runs })

abbrev pub occupies : ObjectId → ObjectId → Run → Bool
occupies ws plan r =
    (r.workspace_id == ws) && ((r.compute_plan_id == plan) && is_unfinished r.status)

unfoldable pub count_unfinished_for_plan : ObjectId → ObjectId → World → ℕ
count_unfinished_for_plan ws plan w = count (occupies ws plan) w.runs

unfoldable pub snapshot_get : ObjectId → World → Option RunSnapshot
snapshot_get i w = find? (λ r. r.id == i) w.run_snapshots

with_snapshots :
    World → Result DomainError (List RunSnapshot) → Result DomainError (Unit {0} × World)
with_snapshots w (ok rows) = ok (tt, record w { run_snapshots = rows })
with_snapshots w (err e) = err e

-- Snapshots are added and read, never updated.
unfoldable pub snapshot_add : RunSnapshot → Op (Unit {0})
unfolding with_snapshots insert_row
snapshot_add s w = with_snapshots w (insert_row (λ x. x.id == s.id) no_row s w.run_snapshots)

with_events : World → Result DomainError (List RunEvent) → Result DomainError (Unit {0} × World)
with_events w (ok rows) = ok (tt, record w { run_events = rows })
with_events w (err e) = err e

unfoldable pub event_add : RunEvent → Op (Unit {0})
unfolding with_events insert_row
event_add e w = with_events w (insert_row (λ x. x.id == e.id) no_row e w.run_events)

abbrev pub is_record_of : ObjectId → Text → IdempotencyRecord → Bool
is_record_of ws key r = (r.workspace_id == ws) && text_eq r.key key

unfoldable pub idempotency_find : ObjectId → Text → World → Option IdempotencyRecord
idempotency_find ws key w = find? (is_record_of ws key) w.idempotency

with_idempotency :
    World → Result DomainError (List IdempotencyRecord) → Result DomainError (Unit {0} × World)
with_idempotency w (ok rows) = ok (tt, record w { idempotency = rows })
with_idempotency w (err e) = err e

-- The primary key is (workspace, key), and its violation is translated into a `ConflictError`.
unfoldable pub idempotency_reserve : ObjectId → Text → Endpoint → Op (Unit {0})
unfolding with_idempotency insert_row
idempotency_reserve ws key endpoint w = with_idempotency w (
    insert_row no_row (is_record_of ws key)
      (record { workspace_id = ws; key = key; endpoint = endpoint; run_id = none }) w.idempotency)

unfoldable pub idempotency_attach_run : ObjectId → Text → ObjectId → World → World
idempotency_attach_run ws key run w = record w {
  idempotency =
      update_first (is_record_of ws key) (λ r. record r { run_id = some run }) w.idempotency;
}

-- `get_for_plan`, and `lock_for_plan`, which reads the same row and holds it.
unfoldable pub entitlement_get_for_plan : ObjectId → ObjectId → World → Option ResourceEntitlement
entitlement_get_for_plan ws plan w =
    find? (λ e. (e.workspace_id == ws) && (e.compute_plan_id == plan)) w.entitlements

unfoldable pub artifact_get : ObjectId → World → Option Artifact
artifact_get i w = find? (λ r. r.id == i) w.artifacts

with_artifacts : World → Result DomainError (List Artifact) → Result DomainError (Unit {0} × World)
with_artifacts w (ok rows) = ok (tt, record w { artifacts = rows })
with_artifacts w (err e) = err e

unfoldable pub artifact_add : Artifact → Op (Unit {0})
unfolding with_artifacts insert_row
artifact_add a w = with_artifacts w (insert_row (λ x. x.id == a.id) no_row a w.artifacts)
