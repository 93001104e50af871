-- ===== src/Access.antt =====
-- AccessGuard of application/access.py: which role a user has, and what it lets through. The guard
-- reads the store and writes nothing.
pub mod Laws
use workspace.Base.{◌==◌, Bool, true, false, Option, none, some, if◌then◌else◌, Result, ok, err}
use workspace.Domain.Errors.{
  ObjectId, DomainError, object_not_found, permission_denied, Kind, by_id, lacks,
}
use workspace.Domain.Enums.{WorkspaceRole}
use workspace.Domain.Capabilities.{Capability, capabilities_of}
use workspace.Domain.Models.{Workspace, Membership, Project, Run, is_personal, is_active}
use workspace.Store.{World}
use workspace.Store.Members.{workspace_get, membership_get}
use workspace.Store.Projects.{project_get}
use workspace.Store.Runs.{run_get}

pub record WorkspaceAccess : Type 0 where
  pub space : Workspace
  pub role : WorkspaceRole

pub record ProjectAccess : Type 0 where
  pub project : Project
  pub space : Workspace
  pub role : WorkspaceRole

pub record RunAccess : Type 0 where
  pub run : Run
  pub project : Project
  pub space : Workspace
  pub role : WorkspaceRole

-- `can`
abbrev pub can : WorkspaceRole → Capability → Bool
can role c = capabilities_of role c

-- `if needs is not None: access.require(needs)`
pub require : {A : Type 0} → Option Capability → WorkspaceRole → A → Result DomainError A
require none role access = ok access
require (some c) role access =
    if can role c then ok access else err (permission_denied (lacks role c))

role_of_member : Option Membership → Option WorkspaceRole
role_of_member none = none
role_of_member (some m) = if is_active m then some m.role else none

-- `_resolve_role`
pub resolve_role : ObjectId → Workspace → World → Option WorkspaceRole
unfolding role_of_member
resolve_role user x w =
    if is_personal x
    then (if x.owner_id == user then some WorkspaceRole.owner else none)
    else role_of_member (membership_get x.id user w)

-- `AccessGuard.workspace`
guard_role :
    ObjectId
    → Option Capability
    → Workspace
    → Option WorkspaceRole
    → Result DomainError WorkspaceAccess
unfolding require
guard_role i needs x none = err (object_not_found Kind.workspace_kind (by_id i))
guard_role i needs x (some role) = require needs role (record { space = x; role = role })

guard_found :
    ObjectId
    → ObjectId
    → Option Capability
    → World
    → Option Workspace
    → Result DomainError WorkspaceAccess
unfolding guard_role resolve_role
guard_found user i needs w none = err (object_not_found Kind.workspace_kind (by_id i))
guard_found user i needs w (some x) = guard_role i needs x (resolve_role user x w)

unfoldable pub guard_workspace :
    ObjectId → ObjectId → Option Capability → World → Result DomainError WorkspaceAccess
unfolding guard_found
guard_workspace user i needs w = guard_found user i needs w (workspace_get i w)

-- `except ObjectNotFound as exc: raise ObjectNotFound(kind, id) from exc`
pub hide_as : {A : Type 0} → Kind → ObjectId → Result DomainError A → Result DomainError A
hide_as kind i (ok a) = ok a
hide_as kind i (err (object_not_found _ _)) = err (object_not_found kind (by_id i))
hide_as kind i (err e) = err e

-- `AccessGuard.project`
project_access :
    Option Capability
    → Project
    → Result DomainError WorkspaceAccess
    → Result DomainError ProjectAccess
unfolding require
project_access needs p (err e) = err e
project_access needs p (ok a) =
    require needs a.role (record { project = p; space = a.space; role = a.role })

guard_project_found :
    ObjectId
    → ObjectId
    → Option Capability
    → World
    → Option Project
    → Result DomainError ProjectAccess
unfolding project_access hide_as guard_workspace
guard_project_found user i needs w none = err (object_not_found Kind.project (by_id i))
guard_project_found user i needs w (some p) =
    project_access needs p (hide_as Kind.project i (guard_workspace user p.workspace_id none w))

unfoldable pub guard_project :
    ObjectId → ObjectId → Option Capability → World → Result DomainError ProjectAccess
unfolding guard_project_found
guard_project user i needs w = guard_project_found user i needs w (project_get i w)

-- `AccessGuard.run`
run_access :
    Option Capability → Run → Result DomainError ProjectAccess → Result DomainError RunAccess
unfolding require
run_access needs r (err e) = err e
run_access needs r (ok a) =
    require needs a.role (record { run = r; project = a.project; space = a.space; role = a.role })

guard_run_found :
    ObjectId → ObjectId → Option Capability → World → Option Run → Result DomainError RunAccess
unfolding run_access hide_as guard_project
guard_run_found user i needs w none = err (object_not_found Kind.run (by_id i))
guard_run_found user i needs w (some r) =
    run_access needs r (hide_as Kind.run i (guard_project user r.project_id none w))

unfoldable pub guard_run :
    ObjectId → ObjectId → Option Capability → World → Result DomainError RunAccess
unfolding guard_run_found
guard_run user i needs w = guard_run_found user i needs w (run_get i w)
