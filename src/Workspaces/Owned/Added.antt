-- ===== src/Workspaces/Owned/Added.antt =====
-- The row that `invite_member` adds (application/workspace_service.py), and the ownership.
use workspace.Base.{◌∙◌, ◌≡◌, ◌≢◌, none, some, arith, Bool-cases, inl, inr}
use workspace.Domain.Enums.{WorkspaceRole}
use workspace.Domain.Models.{Membership}
use workspace.Store.{World}
use workspace.Store.Members.{workspace_get, is_membership_of, membership_get}
use workspace.Store.Members.Added.{
  Added, membership_get-Added, membership_by_id-Added, workspace_get-Added,
}
use workspace.Workspaces.Owned.{IsOwned}

module _ {w w' : World} {m : Membership} (a : Added w m w') (inv : IsOwned w)
    (fair : m.role ≢ WorkspaceRole.owner) where
  pub Added-IsOwned : IsOwned w'
  Added-IsOwned = record {
    keyed = λ ws user x h.
        let get = membership_get-Added a ws user in
        let by_id = membership_by_id-Added a x.id in
        let free = a.id_free in ground (arith, inv.keyed ws user x);
    sole = λ ws user x h e.
        let get = membership_get-Added a ws user in
        elim (Bool-cases (is_membership_of ws user m)) [
          | inl same ↦ absurd (fair (ground arith))
          | inr other ↦ rw (workspace_get-Added a) (inv.sole ws user x (ground arith) e)
        ];
    held = λ ws y h p.
        let found : workspace_get ws w ≡ some y = rw (workspace_get-Added a) at h in
        let (x, own) = inv.held ws y found p in
        let get = membership_get-Added a y.id y.owner_id in
        let stays : membership_get y.id y.owner_id w' ≡ membership_get y.id y.owner_id w =
          elim (Bool-cases (is_membership_of y.id y.owner_id m)) [
            | inl same ↦
                let e : y.id ≡ m.workspace_id = ground arith in
                let f : y.owner_id ≡ m.user_id = ground arith in
                let free : membership_get y.id y.owner_id w ≡ none = rw (e, f) a.key_free in
                let was = own.found in absurd (ground arith)
            | inr other ↦ ground arith
          ] in
        (x, record { found = stays ∙ own.found; role = own.role; status = own.status });
  }
