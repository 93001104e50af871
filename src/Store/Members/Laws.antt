-- ===== src/Store/Members/Laws.antt =====
-- What a write to the memberships or workspaces changes for later reads.
use workspace.Base.{
  ◌==◌, ◌≡◌, refl, false, some, find?-passes, find?-update_other, find?-update_same,
  find?-update_self, ==_refl, Bool-cases, inl, inr, arith, if◌then◌else◌,
}
use workspace.Domain.Errors.{ObjectId}
use workspace.Domain.Models.{Workspace, Membership}
use workspace.Store.{World}
use workspace.Store.Members.{
  workspace_get, write_workspace, membership_by_id, is_membership_of, membership_get,
  write_membership,
}

-- A membership that is found belongs to the workspace and the user asked for.
pub membership_get_key :
    (ws user : ObjectId) (w : World) (m : Membership)
    → membership_get ws user w ≡ some m
    → (m.workspace_id ≡ ws) × (m.user_id ≡ user)
unfolding membership_get
membership_get_key ws user w m h =
    let p = find?-passes (is_membership_of ws user) w.memberships m h in
    (ground arith, ground arith)

pub workspace_get_key :
    (i : ObjectId) (w : World) (x : Workspace) → workspace_get i w ≡ some x → x.id ≡ i
unfolding workspace_get
workspace_get_key i w x h = let p = find?-passes (λ r. r.id == i) w.workspaces x h in ground arith

-- `old` stands for the row of both its keys, and `m` is `old` with another role and status.
pub record Rewrites (ws user : ObjectId) (w : World) (old m : Membership) : Type 0 where
  pub found : membership_get ws user w ≡ some old
  pub same_row : membership_by_id old.id w ≡ some old
  pub same_id : m.id ≡ old.id

module _ {ws user : ObjectId} {w : World} {old m : Membership} (r : Rewrites ws user w old m) where
  -- After an update the membership has the new role and status.
  pub membership_get-write_self :
      membership_get ws user (write_membership m w)
      ≡ some (record old { role = m.role; status = m.status })
  unfolding membership_get write_membership membership_by_id
  membership_get-write_self =
      let p = find?-passes (is_membership_of ws user) w.memberships old r.found in
      rw r.same_id (
        find?-update_same (λ x. x.id == old.id) (is_membership_of ws user)
          (λ x. record x { role = m.role; status = m.status }) w.memberships old r.same_row r.found
          p)

  -- No other user's membership, and none of another workspace, has changed.
  pub membership_get-write_ne :
      (ws' user' : ObjectId)
      → is_membership_of ws' user' old ≡ false
      → membership_get ws' user' (write_membership m w) ≡ membership_get ws' user' w
  unfolding membership_get write_membership membership_by_id
  membership_get-write_ne ws' user' ne = rw r.same_id (
      find?-update_other (λ x. x.id == old.id) (is_membership_of ws' user')
        (λ x. record x { role = m.role; status = m.status }) w.memberships old r.same_row ne ne)

  -- After the update a lookup by workspace and user finds the new row under the key of the old one.
  pub membership_get-write :
      (ws' user' : ObjectId)
      → membership_get ws' user' (write_membership m w) ≡ (
          if is_membership_of ws' user' old
          then some (record old { role = m.role; status = m.status })
          else membership_get ws' user' w)
  membership_get-write ws' user' = elim (Bool-cases (is_membership_of ws' user' old)) [
    | inl same ↦
        let key = membership_get_key ws user w old r.found in
        let e : ws' ≡ ws = ground arith in
        let f : user' ≡ user = ground arith in rw (same, e, f) membership_get-write_self
    | inr other ↦ rw other (membership_get-write_ne ws' user' other)
  ]

  -- The same for a lookup by primary key.
  pub membership_by_id-write :
      (i : ObjectId)
      → membership_by_id i (write_membership m w) ≡ (
          if old.id == i
          then some (record old { role = m.role; status = m.status })
          else membership_by_id i w)
  unfolding membership_by_id write_membership
  membership_by_id-write i = elim (Bool-cases (old.id == i)) [
    | inl same ↦
        let e : i ≡ old.id = ground arith in
        rw (same, e, r.same_id)
          (find?-update_self (λ x. x.id == old.id)
            (λ x. record x { role = m.role; status = m.status }) w.memberships old r.same_row
            (==_refl old.id))
    | inr other ↦
        rw (other, r.same_id)
          (find?-update_other (λ x. x.id == old.id) (λ x. x.id == i)
            (λ x. record x { role = m.role; status = m.status }) w.memberships old r.same_row other
            other)
  ]

-- Writing a membership leaves the workspaces alone, and the other way round.
pub workspace_get-write_membership :
    (i : ObjectId) (m : Membership) (w : World)
    → workspace_get i (write_membership m w) ≡ workspace_get i w
unfolding workspace_get write_membership
workspace_get-write_membership i m w = refl

pub membership_get-write_workspace :
    (ws user : ObjectId) (x : Workspace) (w : World)
    → membership_get ws user (write_workspace x w) ≡ membership_get ws user w
unfolding membership_get write_workspace
membership_get-write_workspace ws user x w = refl

pub membership_by_id-write_workspace :
    (i : ObjectId) (x : Workspace) (w : World)
    → membership_by_id i (write_workspace x w) ≡ membership_by_id i w
unfolding membership_by_id write_workspace
membership_by_id-write_workspace i x w = refl

-- An update of a workspace that was found, at any id.
pub workspace_get-write :
    (i j : ObjectId) (old x : Workspace) (w : World)
    → workspace_get i w ≡ some old
    → x.id ≡ i
    → workspace_get j (write_workspace x w) ≡ (
        if i == j
        then some (record old {
          name = x.name;
          description = x.description;
          owner_id = x.owner_id;
          default_environment_version_id = x.default_environment_version_id;
        })
        else workspace_get j w)
unfolding workspace_get write_workspace
workspace_get-write i j old x w found same = elim (Bool-cases (i == j)) [
  | inl e ↦
      let ij : j ≡ i = ground arith in
      let key = find?-passes (λ r. r.id == i) w.workspaces old found in
      rw (e, ij, same) (find?-update_self (λ r. r.id == i) _ w.workspaces old found key)
  | inr ne ↦
      let key = find?-passes (λ r. r.id == i) w.workspaces old found in
      let off : (old.id == j) ≡ false = ground arith in
      rw (ne, same)
        (find?-update_other (λ r. r.id == i) (λ r. r.id == j) _ w.workspaces old found off off)
]
