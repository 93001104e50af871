-- ===== src/Workspaces/Owned/Operations.antt =====
-- What the member operations of application/workspace_service.py share: the steps before and after they
-- write.
use workspace.Base.{
  ◌==◌, ◌≡◌, ◌≢◌, ap, subst, false, Option, none, some, arith, ◌>>=◌, Ensures, find?,
}
use workspace.Domain.Errors.{ObjectId}
use workspace.Domain.Enums.{WorkspaceRole, MembershipStatus, ActivityAction}
use workspace.Domain.Models.{User, Workspace, Membership, is_personal}
use workspace.Store.{Env, World, Op, new_id}
use workspace.Store.Members.{
  workspace_get, membership_by_id, is_membership_of, membership_get, write_membership,
}
use workspace.Store.Members.Laws.{Rewrites, workspace_get_key}
use workspace.Activities.{Entry, Notice, record_activity, publish}
use workspace.Activities.Laws.{record_activity_keeps, publish_keeps}
use workspace.Workspaces.Notices.{member_activity}
use workspace.Workspaces.Owned.{IsOwned, write_membership-IsOwned}

-- The ownership is a matter of two tables.
module _ (w w' : World) (same_members : w'.memberships ≡ w.memberships)
    (same_spaces : w'.workspaces ≡ w.workspaces) where
  pub same_member : (ws user : ObjectId) → membership_get ws user w' ≡ membership_get ws user w
  unfolding membership_get
  same_member ws user = ap (find? (is_membership_of ws user)) same_members

  same_row : (i : ObjectId) → membership_by_id i w' ≡ membership_by_id i w
  unfolding membership_by_id
  same_row i = ap (find? (λ r. r.id == i)) same_members

  pub same_space : (i : ObjectId) → workspace_get i w' ≡ workspace_get i w
  unfolding workspace_get
  same_space i = ap (find? (λ r. r.id == i)) same_spaces

  pub IsOwned-same : IsOwned w → IsOwned w'
  IsOwned-same inv = record {
    keyed = λ ws user m h. rw same_row (inv.keyed ws user m (rw same_member at h));
    sole = λ ws user m h e. rw same_space (inv.sole ws user m (rw same_member at h) e);
    held = λ ws x h p.
        let (m, own) = inv.held ws x (rw same_space at h) p in
        (m, record { found = rw same_member own.found; role = own.role; status = own.status });
  }

-- A step of a use case that keeps the ownership.
abbrev pub Keeps : {A : Type 0} → Op A → Type 0
Keeps m = Ensures IsOwned m (λ _. IsOwned)

pub record_activity-Keeps :
    (env : Env) (actor : ObjectId) (e : Entry) → Keeps (record_activity env actor e)
record_activity-Keeps env actor e = record {
  at = λ w a w' inv h.
      let kept = record_activity_keeps env actor e w in
      let done = kept.returns in IsOwned-same w w' (ground arith) (ground arith) inv;
}

pub new_id-Keeps : (env : Env) → Keeps (new_id env)
new_id-Keeps env = record {
  at = λ w a w' inv h. IsOwned-same w w' (ground arith) (ground arith) inv;
}

pub publish-Keeps :
    (env : Env) (recipient : ObjectId) (actor : Option ObjectId) (n : Notice)
    → Keeps (publish env recipient actor n)
publish-Keeps env recipient actor n = record {
  at = λ w a w' inv h.
      let kept = publish_keeps env recipient actor n w in
      let done = kept.returns in IsOwned-same w w' (ground arith) (ground arith) inv;
}

pub member_activity-Keeps :
    (env : Env) (actor ws : ObjectId) (action : ActivityAction) (u : Option User)
    → Keeps (member_activity env actor ws action u)
unfolding member_activity ◌>>=◌
member_activity-Keeps env actor ws action none = record {
  at = λ w a w' inv h. IsOwned-same w w' (ground arith) (ground arith) inv;
}
member_activity-Keeps env actor ws action (some u) = record_activity-Keeps env actor _

-- A row that was found, and stays under its key.
rewrites :
    (w : World) (ws user : ObjectId) (old m : Membership)
    → IsOwned w
    → membership_get ws user w ≡ some old
    → m.id ≡ old.id
    → Rewrites ws user w old m
rewrites w ws user old m inv found same = record {
  found = found;
  same_row = inv.keyed ws user old found;
  same_id = same;
}

-- Of a member with the role `owner`: he is the registered one, and active.
pub owner_is_registered :
    (w : World) (ws user : ObjectId) (m : Membership)
    → IsOwned w
    → membership_get ws user w ≡ some m
    → m.role ≡ WorkspaceRole.owner
    → (x : Workspace) × (workspace_get ws w ≡ some x)
      × (x.owner_id ≡ user)
      × (m.status ≡ MembershipStatus.active)
owner_is_registered w ws user m inv found e =
    let (x, x_found, shared, owns) = inv.sole ws user m found e in
    let (m', own) = inv.held ws x x_found shared in
    let x_id = workspace_get_key ws w x x_found in
    let also : membership_get ws user w ≡ some m' =
      subst (λ i. membership_get i user w ≡ some m') x_id
        (subst (λ u. membership_get x.id u w ≡ some m') owns own.found) in
    let same : m' ≡ m = ground arith in
    (x, x_found, owns, subst (λ r. r.status ≡ MembershipStatus.active) same own.status)

-- Rewriting the row of a member who is no owner, and becomes none, keeps the ownership.
pub rewrite_fair :
    (w : World) (ws user : ObjectId) (old m : Membership)
    → IsOwned w
    → membership_get ws user w ≡ some old
    → m.id ≡ old.id
    → old.role ≢ WorkspaceRole.owner
    → m.role ≢ WorkspaceRole.owner
    → IsOwned (write_membership m w)
rewrite_fair w ws user old m inv found same plain fair =
    write_membership-IsOwned (rewrites w ws user old m inv found same) inv fair spared
  where
    spared :
        (x : Workspace) → workspace_get ws w ≡ some x → is_personal x ≡ false → x.owner_id ≢ user
    spared x x_found shared e =
        let (m', own) = inv.held ws x x_found shared in
        let x_id = workspace_get_key ws w x x_found in
        let also : membership_get ws user w ≡ some m' =
          subst (λ i. membership_get i user w ≡ some m') x_id
            (subst (λ u. membership_get x.id u w ≡ some m') e own.found) in
        let same : m' ≡ old = ground arith in
        plain (subst (λ r. r.role ≡ WorkspaceRole.owner) same own.role)

-- In a workspace whose registered owner is someone else, a member is no owner.
pub plain_member :
    (w : World) (ws user : ObjectId) (m : Membership) (x : Workspace)
    → IsOwned w
    → membership_get ws user w ≡ some m
    → workspace_get ws w ≡ some x
    → x.owner_id ≢ user
    → m.role ≢ WorkspaceRole.owner
plain_member w ws user m x inv found x_found other e =
    let (y, y_found, owns, _) = owner_is_registered w ws user m inv found e in
    let same : y ≡ x = ground arith in other (subst (λ z. z.owner_id ≡ user) same owns)
