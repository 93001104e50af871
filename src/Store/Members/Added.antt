-- ===== src/Store/Members/Added.antt =====
-- What a new membership or workspace changes for later reads.
use workspace.Base.{
  ◌==◌, ◌≡◌, none, some, [], ◌∷◌, ◌++◌, any, find?-any, find?-snoc, ok, arith, if◌then◌else◌,
  Bool-cases, inl, inr,
}
use workspace.Domain.Errors.{ObjectId}
use workspace.Domain.Models.{Membership}
use workspace.Store.{World}
use workspace.Store.Members.{
  workspace_get, is_membership_of, membership_get, membership_add, membership_by_id,
}

-- `w'` is `w` with one more membership, whose keys were free.
pub record Added (w : World) (m : Membership) (w' : World) : Type 0 where
  pub key_free : membership_get m.workspace_id m.user_id w ≡ none
  pub id_free : membership_by_id m.id w ≡ none
  pub result : w' ≡ record w { memberships = w.memberships ++ m ∷ [] }

pub membership_add-Added :
    (m : Membership) (w w' : World) → membership_add m w ≡ ok (tt, w') → Added w m w'
unfolding membership_add membership_get membership_by_id
membership_add-Added m w w' h = elim (Bool-cases (any (λ r. r.id == m.id) w.memberships)) [
  | inl taken ↦ absurd (ground arith)
  | inr fresh ↦ elim (Bool-cases (any (is_membership_of m.workspace_id m.user_id) w.memberships)) [
    | inl taken ↦ absurd (ground arith)
    | inr free ↦ record {
      key_free = find?-any (is_membership_of m.workspace_id m.user_id) w.memberships free;
      id_free = find?-any (λ r. r.id == m.id) w.memberships fresh;
      result = ground arith;
    }
  ]
]

module _ {w w' : World} {m : Membership} (a : Added w m w') where
  -- Afterwards a lookup by workspace and user finds the new row under its key alone.
  pub membership_get-Added :
      (ws user : ObjectId)
      → membership_get ws user w'
        ≡ (if is_membership_of ws user m then some m else membership_get ws user w)
  unfolding membership_get
  membership_get-Added ws user =
      let snoc = find?-snoc (is_membership_of ws user) w.memberships m in
      rw a.result (elim (Bool-cases (is_membership_of ws user m)) [
        | inl same ↦
            let e : ws ≡ m.workspace_id = ground arith in
            let f : user ≡ m.user_id = ground arith in
            let free : membership_get ws user w ≡ none = rw (e, f) a.key_free in
            ground (arith, snoc)
        | inr other ↦ ground (arith, snoc)
      ])

  pub membership_by_id-Added :
      (i : ObjectId) → membership_by_id i w' ≡ (if m.id == i then some m else membership_by_id i w)
  unfolding membership_by_id
  membership_by_id-Added i =
      let snoc = find?-snoc (λ r. r.id == i) w.memberships m in
      rw a.result (elim (Bool-cases (m.id == i)) [
        | inl same ↦
            let e : i ≡ m.id = ground arith in
            let free : membership_by_id i w ≡ none = rw e a.id_free in ground (arith, snoc)
        | inr other ↦ ground (arith, snoc)
      ])

  pub workspace_get-Added : (i : ObjectId) → workspace_get i w' ≡ workspace_get i w
  unfolding workspace_get
  workspace_get-Added i = rw a.result
