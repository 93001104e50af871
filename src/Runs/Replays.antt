-- ===== src/Runs/Replays.antt =====
-- A repeated request (GR-017 in application/run_service.py, `_replay_or_reserve`).
use workspace.Base.{
  ◌≡◌, refl, false, Option, none, some, ◌∷◌, Text, ok, arith, ◌>>=◌, ==_refl, reads, gets, pure,
  Result, ap, ◌∙◌, >>=-eq-ok, Option-cases, inl, inr, ℕ,
}
use workspace.Domain.Errors.{ObjectId, DomainError}
use workspace.Domain.Capabilities.{Capability}
use workspace.Domain.Models.{Run, Endpoint, IdempotencyRecord}
use workspace.Store.{Env, World}
use workspace.Store.Runs.{idempotency_find, run_get}
use workspace.Access.{ProjectAccess, guard_project}
use workspace.Runs.Ports.{Ports}
use workspace.Runs.Idempotency.{
  RunSubmission, replay_or_reserve, replay_key, replay_found, replay, replay_run,
}
use workspace.Runs.Preflight.{RunDraft}
use workspace.Runs.Create.{create}

pub reads_inverts :
    {A : Type 0} (f : World → Result DomainError A) (w : World) (b a : A) (v : World)
    → f w ≡ ok a
    → reads f w ≡ ok (b, v)
    → (b ≡ a) × (v ≡ w)
unfolding ◌>>=◌
reads_inverts f w b a v e h = (ground arith, ground arith)

gets_inverts :
    {A : Type 0} (f : World → A) (w : World) (b : A) (v : World)
    → gets {E = DomainError} f w ≡ ok (b, v)
    → (b ≡ f w) × (v ≡ w)
unfolding ◌>>=◌
gets_inverts f w b v h = (ground arith, ground arith)

pub pure_inverts :
    {A : Type 0} (a b : A) (w v : World)
    → pure {E = DomainError} a w ≡ ok (b, v)
    → (b ≡ a) × (v ≡ w)
unfolding ◌>>=◌
pure_inverts a b w v h = (ground arith, ground arith)

module _ (env : Env) (ports : Ports) (w : World) (user project : ObjectId) (draft : RunDraft)
    (c : ℕ) (key : Text) (a : ProjectAccess)
    (allowed : guard_project user project (some Capability.run_submit) w ≡ ok a)
    (record_of_key : IdempotencyRecord)
    (found : idempotency_find a.space.id (c ∷ key) w ≡ some record_of_key) where
  -- A create_run request of a permitted user under a key that was used for creating a run in the
  -- same project returns that run, as not created, and leaves the store as it is.
  pub create_replays :
      (i : ObjectId) (r : Run)
      → record_of_key.endpoint ≡ Endpoint.create_run
      → record_of_key.run_id ≡ some i
      → run_get i w ≡ some r
      → r.project_id ≡ project
      → create env ports user project draft (some (c ∷ key)) w
        ≡ ok (record { run = r; created = false }, w)
  unfolding create replay_or_reserve replay_key replay_found replay replay_run ◌>>=◌
  create_replays i r e1 e2 e3 e4 = rw (allowed, found, e1, e2, e3, e4, ==_refl) refl

  replay_inverts :
      (o : Option Run) (w' : World)
      → replay Endpoint.create_run (some project) none record_of_key w ≡ ok (o, w')
      → (r : Run) × (o ≡ some r) × (w' ≡ w) × (r.project_id ≡ project)
  unfolding replay replay_run ◌>>=◌
  replay_inverts o w' h = elim (Option-cases record_of_key.run_id) [
    | inl pending ↦ absurd (ground arith)
    | inr (i, e) ↦ elim (Option-cases (run_get i w)) [
      | inl gone ↦ absurd (ground arith)
      | inr (r, stored) ↦ (r, ground arith, ground arith, ground arith)
    ]
  ]

  replay_or_reserve_inverts :
      (o : Option Run) (w' : World)
      → replay_or_reserve a.space.id (some (c ∷ key)) Endpoint.create_run (some project) none w
        ≡ ok (o, w')
      → (r : Run) × (o ≡ some r) × (w' ≡ w) × (r.project_id ≡ project)
  unfolding replay_or_reserve replay_key replay_found
  replay_or_reserve_inverts o w' h =
      let (f, v, e, rest) = >>=-eq-ok _ _ w h in
      let (is_f, kept) = gets_inverts _ w f v e in
      replay_inverts o w' (rw (is_f, kept, found) at rest)

  -- Under a key that the workspace has used before, a create_run request of a permitted user makes
  -- no run: if it returns, it returns a run of the same project, as not created, and the store is
  -- as before.
  pub create_repeats :
      (s : RunSubmission) (w' : World)
      → create env ports user project draft (some (c ∷ key)) w ≡ ok (s, w')
      → (s.created ≡ false) × (w' ≡ w) × (s.run.project_id ≡ project)
  unfolding create
  create_repeats s w' h =
      let (b, v, e, rest) = >>=-eq-ok _ _ w h in
      let (same, kept) = reads_inverts _ w b a v allowed e in
      let (o, v', e', rest') = >>=-eq-ok _ _ w (rw (same, kept) at rest) in
      let (r, is_r, kept', of_project) = replay_or_reserve_inverts o v' e' in
      let done = pure_inverts _ s w w' (rw (is_r, kept') at rest') in
      (ap (λ x. x.created) done.0, done.1, ap (λ x. x.run.project_id) done.0 ∙ of_project)
