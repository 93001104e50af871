-- ===== src/Store/Members.antt =====
-- UserRepositoryImpl, WorkspaceRepositoryImpl and MembershipRepositoryImpl of
-- infrastructure/db/repositories.py, over their tables.
pub mod Laws
pub mod Added
use workspace.Base.{
  ℕ, ◌==◌, Bool, true, false, ◌&&◌, ◌||◌, Option, none, some, List, ◌∷◌, [], Text, text_eq, find?,
  any, filter, update_first, Result, ok, err, gets, modify,
}
use workspace.Domain.Errors.{ObjectId, DomainError}
use workspace.Domain.Enums.{MembershipStatus}
use workspace.Domain.Models.{User, Workspace, Membership, is_personal, is_active, kind_is_personal}
use workspace.Store.{World, Op, insert_row}

unfoldable pub user_get : ObjectId → World → Option User
user_get i w = find? (λ u. u.id == i) w.users

unfoldable pub user_get_by_username : Text → World → Option User
user_get_by_username name w = find? (λ u. text_eq u.username name) w.users

with_users : World → Result DomainError (List User) → Result DomainError (Unit {0} × World)
with_users w (ok rows) = ok (tt, record w { users = rows })
with_users w (err e) = err e

-- `username` is unique.
unfoldable pub user_add : User → Op (Unit {0})
unfolding with_users insert_row
user_add u w =
    with_users w (insert_row (λ r. r.id == u.id) (λ r. text_eq r.username u.username) u w.users)

unfoldable pub workspace_get : ObjectId → World → Option Workspace
workspace_get i w = find? (λ r. r.id == i) w.workspaces

unfoldable pub workspace_get_personal : ObjectId → World → Option Workspace
workspace_get_personal owner w = find? (λ r. (r.owner_id == owner) && is_personal r) w.workspaces

with_workspaces :
    World → Result DomainError (List Workspace) → Result DomainError (Unit {0} × World)
with_workspaces w (ok rows) = ok (tt, record w { workspaces = rows })
with_workspaces w (err e) = err e

-- A partial unique index admits one personal workspace for each owner.
unfoldable pub workspace_add : Workspace → Op (Unit {0})
unfolding with_workspaces insert_row
workspace_add x w = with_workspaces w (
    insert_row (λ r. r.id == x.id)
      (λ r. is_personal x && (is_personal r && (r.owner_id == x.owner_id))) x w.workspaces)

-- `id` and `kind` stay; an unknown id changes nothing.
unfoldable pub write_workspace : Workspace → World → World
write_workspace x w = record w {
  workspaces =
      update_first (λ r. r.id == x.id)
        (λ r. record r {
          name = x.name;
          description = x.description;
          owner_id = x.owner_id;
          default_environment_version_id = x.default_environment_version_id;
        })
        w.workspaces;
}

unfoldable pub workspace_update : Workspace → Op (Unit {0})
workspace_update x = modify (write_workspace x)

-- `WHERE workspace_id = … AND user_id = …`
abbrev pub is_membership_of : ObjectId → ObjectId → Membership → Bool
is_membership_of ws user m = (m.workspace_id == ws) && (m.user_id == user)

unfoldable pub membership_get : ObjectId → ObjectId → World → Option Membership
membership_get ws user w = find? (is_membership_of ws user) w.memberships

-- `session.get(MembershipRow, id)`
unfoldable pub membership_by_id : ObjectId → World → Option Membership
membership_by_id i w = find? (λ r. r.id == i) w.memberships

with_memberships :
    World → Result DomainError (List Membership) → Result DomainError (Unit {0} × World)
with_memberships w (ok rows) = ok (tt, record w { memberships = rows })
with_memberships w (err e) = err e

-- A user has one membership of a workspace.
unfoldable pub membership_add : Membership → Op (Unit {0})
unfolding with_memberships insert_row
membership_add m w =
    with_memberships w
      (insert_row (λ r. r.id == m.id) (is_membership_of m.workspace_id m.user_id) m w.memberships)

-- Role and status alone are written.
unfoldable pub write_membership : Membership → World → World
write_membership m w = record w {
  memberships =
      update_first (λ r. r.id == m.id) (λ r. record r { role = m.role; status = m.status })
        w.memberships;
}

unfoldable pub membership_update : Membership → Op (Unit {0})
membership_update m = modify (write_membership m)

abbrev pub status_is_invited : MembershipStatus → Bool
status_is_invited MembershipStatus.invited = true
status_is_invited _ = false
