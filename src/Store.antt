-- ===== src/Store.antt =====
-- The database of one transaction, and what the process around it supplies.
-- A table is the list of its rows, in the order of insertion. `session_scope`
-- (infrastructure/db/session.py) commits what a call returns with and rolls back where it raises,
-- so an operation is an `Op`: a state comes back from a return only, and a SAVEPOINT is `nested`.
pub mod Members
pub mod Projects
pub mod Configurations
pub mod Runs
use workspace.Base.{
  ℕ, ◌+◌, Bool, true, false, Option, none, some, List, ◌∷◌, [], ◌++◌, Text, Result, ok, err, Action,
  find?, any, if◌then◌else◌, or_else_raise,
}
use workspace.Domain.Errors.{
  ObjectId, DomainError, other_exception, conflict_error, Conflict, Kind, Identifier,
  object_not_found,
}
use workspace.Domain.Compute.{ComputePlan, ResourceEntitlement}
use workspace.Domain.Snapshot.{RunSnapshot}
use workspace.Domain.Models.{
  Time, User, Workspace, Membership, WorkspaceVariable, WorkspaceSecret, Project, ProjectFile,
  ProjectVersion, EnvironmentVersion, RunConfiguration, Run, RunEvent, IdempotencyRecord, Artifact,
  Activity, Notification, ForkRelation,
}

-- What the process and its database supply: the clock and `uuid4`, the n-th call's result;
-- `datetime.isoformat`; and whether LIKE takes two characters for the same, as SQLite does with the
-- two cases of an ASCII letter.
pub record Env : Type 0 where
  pub uuid : ℕ → ObjectId
  pub clock : ℕ → Time
  pub isoformat : Time → Text
  pub like : ℕ → ℕ → Bool

pub record World : Type 0 where
  pub users : List User
  pub workspaces : List Workspace
  pub memberships : List Membership
  pub variables : List WorkspaceVariable
  pub secrets : List WorkspaceSecret
  pub projects : List Project
  pub project_files : List ProjectFile
  pub project_versions : List ProjectVersion
  pub environment_versions : List EnvironmentVersion
  pub compute_plans : List ComputePlan
  pub entitlements : List ResourceEntitlement
  pub run_configurations : List RunConfiguration
  pub run_snapshots : List RunSnapshot
  pub runs : List Run
  pub run_events : List RunEvent
  pub idempotency : List IdempotencyRecord
  pub artifacts : List Artifact
  pub activities : List Activity
  pub notifications : List Notification
  pub fork_relations : List ForkRelation
  -- how often `Env` was called so far
  pub calls : ℕ

abbrev pub Op : Type 0 → Type 0
Op A = Action DomainError World A

module _ (env : Env) where
  -- `ids.new_id`
  abbrev pub new_id : Op ObjectId
  new_id w = ok (env.uuid w.calls, record w { calls = w.calls + 1 })

  -- `Clock.now`
  abbrev pub now : Op Time
  now w = ok (env.clock w.calls, record w { calls = w.calls + 1 })

-- `try: async with session.begin_nested(): m; except Exception: logger.warning(…)`
unfoldable pub nested_result :
    World → Result DomainError (Unit {0} × World) → Result DomainError (Unit {0} × World)
nested_result w (ok r) = ok r
nested_result w (err e) = ok (tt, w)

unfoldable pub nested : Op (Unit {0}) → Op (Unit {0})
unfolding nested_result
nested m w = nested_result w (m w)

-- `session.add(row)` and `_flush`: a taken primary key is an `IntegrityError`, a taken unique key
-- is translated into a `ConflictError` by `_CONFLICT_RULES`.
unfoldable pub insert_row :
    {A : Type 0} (same_key same_unique : A → Bool) → A → List A → Result DomainError (List A)
insert_row same_key same_unique row rows =
    if any same_key rows
    then err other_exception
    else if any same_unique rows
    then err (conflict_error Conflict.duplicate_key)
    else ok (rows ++ row ∷ [])

-- `if x is None: raise ObjectNotFound(kind, identifier)`
abbrev pub or_missing : {A : Type 0} → Kind → Identifier → Option A → Op A
or_missing kind i = or_else_raise (object_not_found kind i)
