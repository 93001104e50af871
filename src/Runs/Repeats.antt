-- ===== src/Runs/Repeats.antt =====
-- A request that is repeated under its key (GR-017 in application/run_service.py).
use mathlib.Core.Bool.{true≢false}
use workspace.Base.{
  ℕ, ◌≡◌, refl, sym, ap, ◌∙◌, subst, ◌==◌, ==_refl, true, false, Option, none, some, [], ◌∷◌, Text,
  text_eq_refl, ok, arith, ◌>>=◌, find?, any, ◌++◌, find?-append_none, find?-passes, Bool-cases,
  Option-cases, inl, inr, Ensures, Ensures-bind, after_gets, skip_gets, after_raise_if,
  ensures_raise, conclude, is_some, after_modify, after_or_raise, ends_pure, weaken, >>=-eq-ok,
}
use workspace.Domain.Errors.{ObjectId}
use workspace.Domain.Capabilities.{Capability}
use workspace.Domain.Models.{Run, Project, ProjectVersion, Endpoint, IdempotencyRecord}
use workspace.Domain.Snapshot.{RunSnapshot}
use workspace.Store.{Env, World, Op}
use workspace.Store.Runs.{run_get, idempotency_find, idempotency_reserve, is_record_of}
use workspace.Access.{ProjectAccess, guard_project}
use workspace.Runs.Ports.{Ports}
use workspace.Runs.Idempotency.{
  RunSubmission, replay_or_reserve, replay_key, replay_found, replay, replay_run,
}
use workspace.Runs.Preflight.{RunDraft}
use workspace.Runs.Create.{launch, create_new, create}
use workspace.Runs.Untouched.{record_event-Untouched, record_run_activity-Untouched}
use workspace.Runs.Keys.{
  KeepsKeys, reject_problems-KeepsKeys, reads-KeepsKeys, snapshot_add-KeepsKeys, run_add-KeepsKeys,
  configuration_of-KeepsKeys, new_id-KeepsKeys, now-KeepsKeys, record_run_activity-KeepsKeys,
  record_event-KeepsKeys, preflight-KeepsKeys,
}
use workspace.Runs.Keys.Named.{
  IsReserved, HasRun, IsNamed, IsReserved-same, HasRun-same, run_add-HasRun, attached-IsNamed,
  quiet_bind, submit-IsNamed,
}
use workspace.Runs.Replays.{create_replays, reads_inverts, pure_inverts}

-- Steps that leave the keys alone.
module _ (ws : ObjectId) (key : Text) {A B : Type 0} where
  IsReserved-bind :
      {R : B → World → Type 0} (m : Op A) (f : A → Op B)
      → KeepsKeys m
      → ((a : A) → Ensures (IsReserved ws key) (f a) R)
      → Ensures (IsReserved ws key) (m >>= f) R
  IsReserved-bind m f k rest =
      Ensures-bind (λ _. IsReserved ws key) m f
        (record { at = λ w a w' p h. IsReserved-same ws key w w' (k.at w a w' h) p }) rest

module _ (env : Env) (ports : Ports) (user project ws : ObjectId) (c : ℕ) (key : Text) where
  launch-IsNamed :
      (s : RunSnapshot) (run : Run) (version : ProjectVersion)
      → Ensures
          (IsReserved ws (c ∷ key))
          (launch env ports user ws (some (c ∷ key)) s run version)
          (λ sent w. IsNamed ws (c ∷ key) run.project_id sent.run.id w)
  unfolding launch
  launch-IsNamed s run version =
      Ensures-bind (λ _ w. IsReserved ws (c ∷ key) w × HasRun run.project_id run.id w) _ _
        (record {
          at = λ w a w' p h. (
            IsReserved-same ws (c ∷ key) w w' ((run_add-KeepsKeys run).at w a w' h) p,
            run_add-HasRun run w w' h,
          );
        })
        λ _.
          Ensures-bind (λ _ w. IsReserved ws (c ∷ key) w × HasRun run.project_id run.id w) _ _
            (record {
              at = λ w a w' p h. (
                IsReserved-same ws (c ∷ key) w w' ((record_event-KeepsKeys env _ _).at w a w' h)
                    p.0,
                HasRun-same run.project_id run.id w w'
                    ((record_event-Untouched env _ _).at w a w' h).runs p.1,
              );
            })
            λ _.
              after_modify _ _ (λ w p. attached-IsNamed ws c key run.project_id run.id w p.0 p.1)
                (Ensures-bind _ _ _
                  (submit-IsNamed ws (c ∷ key) run.project_id run.id env ports run s version)
                  λ sent.
                    weaken {P' = IsNamed ws (c ∷ key) run.project_id sent.id}
                      (λ w q. subst (λ i. IsNamed ws (c ∷ key) run.project_id i w) (sym q.0) q.1)
                      (quiet_bind ws (c ∷ key) run.project_id sent.id _ _
                        (record_run_activity-Untouched env user sent _)
                        (record_run_activity-KeepsKeys env user sent _)
                        λ _. ends_pure _ (λ w p. p)))

  create_new-IsNamed :
      (p : Project) (draft : RunDraft)
      → Ensures
          (IsReserved ws (c ∷ key))
          (create_new env ports user project ws p draft (some (c ∷ key)))
          (λ sent w. IsNamed ws (c ∷ key) project sent.run.id w)
  unfolding create_new
  create_new-IsNamed p draft =
      IsReserved-bind ws (c ∷ key) _ _ (configuration_of-KeepsKeys project draft) λ configuration.
        IsReserved-bind ws (c ∷ key) _ _ (preflight-KeepsKeys env user project draft) λ result.
          IsReserved-bind ws (c ∷ key) _ _ (reject_problems-KeepsKeys result.problems) λ _.
            after_or_raise _ _ _ λ version e1. after_or_raise _ _ _ λ environment e2.
              after_or_raise _ _ _ λ plan e3. after_or_raise _ _ _ λ request e4.
                IsReserved-bind ws (c ∷ key) _ _ (now-KeepsKeys env) λ at.
                  IsReserved-bind ws (c ∷ key) _ _ (new_id-KeepsKeys env) λ i.
                    IsReserved-bind ws (c ∷ key) _ _ (reads-KeepsKeys _) λ scheduler.
                      IsReserved-bind ws (c ∷ key) _ _ (reads-KeepsKeys _) λ s.
                        IsReserved-bind ws (c ∷ key) _ _ (snapshot_add-KeepsKeys s) λ _.
                          IsReserved-bind ws (c ∷ key) _ _ (new_id-KeepsKeys env)
                            λ j. launch-IsNamed s _ version

reserve-IsReserved :
    (ws : ObjectId) (c : ℕ) (key : Text) (w w' : World)
    → idempotency_find ws (c ∷ key) w ≡ none
    → idempotency_reserve ws (c ∷ key) Endpoint.create_run w ≡ ok (tt, w')
    → IsReserved ws (c ∷ key) w'
unfolding idempotency_find idempotency_reserve
reserve-IsReserved ws c key w w' absent h =
    elim (Bool-cases (any (is_record_of ws (c ∷ key)) w.idempotency)) [
      | inl taken ↦ absurd (ground arith)
      | inr free ↦
          let row : IdempotencyRecord = record {
            workspace_id = ws;
            key = c ∷ key;
            endpoint = Endpoint.create_run;
            run_id = none;
          } in
          let rows : w'.idempotency ≡ w.idempotency ++ row ∷ [] = ground arith in
          let same_space = ==_refl ws in
          let same_key = text_eq_refl (c ∷ key) in
          record {
            row = row;
            found =
                ap (find? (is_record_of ws (c ∷ key))) rows
                ∙ find?-append_none (is_record_of ws (c ∷ key)) w.idempotency (row ∷ []) absent
                ∙ ground arith;
            of_create = refl;
          }
    ]

-- A replay is of a run.
replay_run-some :
    (P : World → Type 0) (project i : Option ObjectId) (o : Option ObjectId)
    → Ensures P (replay_run project i o) (λ found _. is_some found ≡ true)
unfolding replay_run
replay_run-some P project i none = ensures_raise _
replay_run-some P project i (some j) = skip_gets _ _ λ found.
    after_or_raise _ _ _
      λ run e. after_raise_if _ _ _ λ k. after_raise_if _ _ _ λ l. ends_pure _ (λ w p. refl)

module _ (ws : ObjectId) (c : ℕ) (key : Text) (project : ObjectId) where
  replay_found-IsReserved :
      (found : Option IdempotencyRecord)
      → Ensures
          (λ w. idempotency_find ws (c ∷ key) w ≡ found)
          (replay_found ws (c ∷ key) Endpoint.create_run (some project) none found)
          (λ o w. is_some o ≡ false → IsReserved ws (c ∷ key) w)
  unfolding replay_found replay
  replay_found-IsReserved none =
      Ensures-bind (λ _ w. IsReserved ws (c ∷ key) w) _ _
        (record { at = λ w a w' p h. reserve-IsReserved ws c key w w' p h })
        λ _. ends_pure _ (λ w p _. p)
  replay_found-IsReserved (some r) = after_raise_if _ _ _ λ same.
      conclude (λ o w k none_found. absurd (true≢false (sym k ∙ none_found)))
        (replay_run-some _ (some project) none r.run_id)

  replay_or_reserve-IsReserved :
      Ensures
        (λ w. Unit {0})
        (replay_or_reserve ws (some (c ∷ key)) Endpoint.create_run (some project) none)
        (λ o w. is_some o ≡ false → IsReserved ws (c ∷ key) w)
  unfolding replay_or_reserve replay_key
  replay_or_reserve-IsReserved =
      after_gets _ _ λ found. weaken (λ w p. p.1) (replay_found-IsReserved found)

module _ (env : Env) (ports : Ports) (user project : ObjectId) (draft : RunDraft) (c : ℕ)
    (key : Text) (w w' : World) (s : RunSubmission)
    (returned : create env ports user project draft (some (c ∷ key)) w ≡ ok (s, w'))
    (created : s.created ≡ true) (a : ProjectAccess)
    (allowed : guard_project user project (some Capability.run_submit) w ≡ ok a) where
  create-IsNamed : IsNamed a.space.id (c ∷ key) project s.run.id w'
  unfolding create
  create-IsNamed =
      let (b, v, e, rest) = >>=-eq-ok _ _ w returned in
      let (same, kept) = reads_inverts _ w b a v allowed e in
      let (o, v', e', rest') = >>=-eq-ok _ _ w (rw (same, kept) at rest) in
      elim (Option-cases o) [
        | inl is_none ↦
            let reserved =
              (replay_or_reserve-IsReserved a.space.id c key project).at w o v' tt e'
                (ap is_some is_none) in
            (create_new-IsNamed env ports user project a.space.id c key a.project draft).at v' s w'
              reserved (rw is_none at rest')
        | inr (r, is_r) ↦
            let done = pure_inverts _ s v' w' (rw is_r at rest') in
            absurd (true≢false (sym created ∙ ap (λ x. x.created) done.0))
      ]

  -- After a permitted create call under a key that made a run, a permitted create call for the same
  -- project in the same workspace under the same key, by whomever and with whatever draft, scheduler
  -- and storage, returns the same run, as not created, and leaves the store as it is.
  pub create-create :
      (env' : Env) (ports' : Ports) (user' : ObjectId) (draft' : RunDraft) (a' : ProjectAccess)
      → guard_project user' project (some Capability.run_submit) w' ≡ ok a'
      → a'.space.id ≡ a.space.id
      → (r : Run) × (create env' ports' user' project draft' (some (c ∷ key)) w'
          ≡ ok (record { run = r; created = false }, w'))
        × (r.id ≡ s.run.id)
  unfolding run_get
  create-create env' ports' user' draft' a' allowed' same_space =
      let n = create-IsNamed in
      let found = ap (λ i. idempotency_find i (c ∷ key) w') same_space ∙ n.found in
      let hit = find?-passes (λ (x : Run). x.id == s.run.id) w'.runs n.stored.row n.stored.found in
      (
        n.stored.row,
        create_replays env' ports' w' user' project draft' c key a' allowed' n.row found s.run.id
            n.stored.row n.of_create n.names_run n.stored.found n.stored.of_project,
        ground arith,
      )
