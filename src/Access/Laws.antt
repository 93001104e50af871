-- ===== src/Access/Laws.antt =====
-- The guard of application/access.py against an independent reading of its rules: who holds which role
-- where (GR-001), and what a user who sees nothing is told (GR-013).
use workspace.Base.{
  subst, ap, ◌∙◌, ◌≡◌, ◌↔◌, true, false, Option, none, some, Result, ok, err, arith, Option-cases,
  Bool-cases, inl, inr, ◌⊎◌,
}
use workspace.Domain.Errors.{ObjectId, DomainError, object_not_found, Kind, by_id}
use workspace.Domain.Enums.{WorkspaceRole, MembershipStatus}
use workspace.Domain.Capabilities.{Capability}
use workspace.Domain.Models.{Workspace, Membership, is_personal}
use workspace.Store.{World}
use workspace.Store.Members.{workspace_get, membership_get}
use workspace.Store.Projects.{project_get}
use workspace.Store.Runs.{run_get}
use workspace.Access.{
  WorkspaceAccess, ProjectAccess, RunAccess, require, resolve_role, guard_workspace, guard_project,
  guard_run,
}

-- The roles that the product's rules give: a personal workspace belongs to its owner alone, any
-- other to its active members.
pub data Holds (w : World) (user : ObjectId) (x : Workspace) (role : WorkspaceRole) : Type 0 where
  owns : is_personal x ≡ true → x.owner_id ≡ user → role ≡ WorkspaceRole.owner → Holds w user x role
  belongs :
      (m : Membership)
      → is_personal x ≡ false
      → membership_get x.id user w ≡ some m
      → m.status ≡ MembershipStatus.active
      → m.role ≡ role
      → Holds w user x role

resolve_role-Holds :
    (w : World) (user : ObjectId) (x : Workspace) (role : WorkspaceRole)
    → resolve_role user x w ≡ some role
    → Holds w user x role
unfolding resolve_role
resolve_role-Holds w user x role h = elim (Bool-cases (is_personal x)) [
  | inl personal ↦ Holds.owns personal (ground arith) (ground arith)
  | inr shared ↦ elim (Option-cases (membership_get x.id user w)) [
    | inl stranger ↦ absurd (ground arith)
    | inr (m, e) ↦ Holds.belongs m shared e (ground arith) (ground arith)
  ]
]

Holds-resolve_role :
    (w : World) (user : ObjectId) (x : Workspace) (role : WorkspaceRole)
    → Holds w user x role
    → resolve_role user x w ≡ some role
unfolding resolve_role
Holds-resolve_role w user x role (Holds.owns p o e) = ground arith
Holds-resolve_role w user x role (Holds.belongs m p e a r) = ground arith

-- A role is resolved exactly when the user holds it.
pub resolve_role_iff :
    (w : World) (user : ObjectId) (x : Workspace) (role : WorkspaceRole)
    → (resolve_role user x w ≡ some role) ↔ Holds w user x role
resolve_role_iff w user x role =
    (resolve_role-Holds w user x role, Holds-resolve_role w user x role)

pub record SeesWorkspace (w : World) (user i : ObjectId) (a : WorkspaceAccess) : Type 0 where
  pub space_found : workspace_get i w ≡ some a.space
  pub holds : Holds w user a.space a.role

-- The project exists, in a workspace that exists, and the user has this role there.
pub record SeesProject (w : World) (user i : ObjectId) (a : ProjectAccess) : Type 0 where
  pub project_found : project_get i w ≡ some a.project
  pub visible :
      SeesWorkspace w user a.project.workspace_id (record { space = a.space; role = a.role })

-- The run exists, in a project that the user sees.
pub record SeesRun (w : World) (user i : ObjectId) (a : RunAccess) : Type 0 where
  pub run_found : run_get i w ≡ some a.run
  pub visible :
      SeesProject w user a.run.project_id
        (record { project = a.project; space = a.space; role = a.role })

-- The two outcomes of the guard: the user sees the object, and his role decides; or it is reported
-- as missing, and he sees no such object under any role.
abbrev pub Outcome :
    {A : Type 0}
    → (A → Type 0)
    → (A → WorkspaceRole)
    → Option Capability
    → Kind
    → ObjectId
    → Result DomainError A
    → Type 0
Outcome {A} Sees role_of needs kind i r =
    ((a : A) × Sees a × (r ≡ require needs (role_of a) a))
    ⊎ ((r ≡ err (object_not_found kind (by_id i))) × ((a : A) → ¬ Sees a))

-- For every store, user, id and needed capability: either the user sees the workspace under this
-- id, and the guard's answer is what his role's check says; or the guard reports it as missing,
-- and he sees no such workspace under any role.
pub guard_workspace-Outcome :
    (w : World) (user i : ObjectId) (needs : Option Capability)
    → Outcome
        (SeesWorkspace w user i)
        (λ a. a.role)
        needs
        Kind.workspace_kind
        i
        (guard_workspace user i needs w)
unfolding guard_workspace
guard_workspace-Outcome w user i needs = elim (Option-cases (workspace_get i w)) [
  | inl missing ↦ inr (ground arith, λ a s. let e = s.space_found in ground arith)
  | inr (x, found) ↦ elim (Option-cases (resolve_role user x w)) [
    | inl stranger ↦ inr (
      ground arith,
      λ a s.
          let e = s.space_found in
          let k = Holds-resolve_role w user a.space a.role s.holds in ground arith,
    )
    | inr (role, e) ↦ inl (
      record { space = x; role = role },
      record { space_found = found; holds = resolve_role-Holds w user x role e },
      ground arith,
    )
  ]
]

-- For every store, user, id and needed capability: either the user sees the project under this
-- id, and the guard's answer is what his role's check says; or the guard reports it as missing,
-- and he sees no such project under any role.
pub guard_project-Outcome :
    (w : World) (user i : ObjectId) (needs : Option Capability)
    → Outcome
        (SeesProject w user i)
        (λ a. a.role)
        needs
        Kind.project
        i
        (guard_project user i needs w)
unfolding guard_project
guard_project-Outcome w user i needs = elim (Option-cases (project_get i w)) [
  | inl missing ↦ inr (ground arith, λ a s. let e = s.project_found in ground arith)
  | inr (p, found) ↦ elim (guard_workspace-Outcome w user p.workspace_id none) [
    | inr (hidden, unseen) ↦ inr (
      ground arith,
      λ a s.
          let e : a.project ≡ p = let f = s.project_found in ground arith in
          unseen (record { space = a.space; role = a.role })
            (subst
              (λ q. SeesWorkspace w user q.workspace_id (record { space = a.space; role = a.role }))
              e s.visible),
    )
    | inl (a, sees, e) ↦ inl (
      record { project = p; space = a.space; role = a.role },
      record { project_found = found; visible = sees },
      ground arith,
    )
  ]
]

-- For every store, user, id and needed capability: either the user sees the run under this id,
-- and the guard's answer is what his role's check says; or the guard reports it as missing, and
-- he sees no such run under any role.
pub guard_run-Outcome :
    (w : World) (user i : ObjectId) (needs : Option Capability)
    → Outcome (SeesRun w user i) (λ a. a.role) needs Kind.run i (guard_run user i needs w)
unfolding guard_run
guard_run-Outcome w user i needs = elim (Option-cases (run_get i w)) [
  | inl missing ↦ inr (ground arith, λ a s. let e = s.run_found in ground arith)
  | inr (r, found) ↦ elim (guard_project-Outcome w user r.project_id none) [
    | inr (hidden, unseen) ↦ inr (
      ground arith,
      λ a s.
          let e : a.run ≡ r = let f = s.run_found in ground arith in
          unseen (record { project = a.project; space = a.space; role = a.role })
            (subst
              (λ q.
                SeesProject w user q.project_id
                  (record { project = a.project; space = a.space; role = a.role }))
              e s.visible),
    )
    | inl (a, sees, e) ↦ inl (
      record { run = r; project = a.project; space = a.space; role = a.role },
      record { run_found = found; visible = sees },
      ground arith,
    )
  ]
]

-- Whoever gets through sees the workspace that is stored under this id, and has what is asked for.
pub guard_workspace_found :
    (user i : ObjectId) (needs : Option Capability) (w : World) (a : WorkspaceAccess)
    → guard_workspace user i needs w ≡ ok a
    → workspace_get i w ≡ some a.space
unfolding guard_workspace
guard_workspace_found user i needs w a h = elim (Option-cases (workspace_get i w)) [
  | inl missing ↦ absurd (ground arith)
  | inr (x, found) ↦ found ∙ ap some (ground arith)
]

-- What gets past a check is the access that was checked.
pub require_same :
    {A : Type 0} (needs : Option Capability) (role : WorkspaceRole) (a b : A)
    → require needs role a ≡ ok b
    → a ≡ b
unfolding require
require_same none role a b h = ground arith
require_same (some c) role a b h = ground arith
