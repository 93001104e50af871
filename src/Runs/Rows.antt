-- ===== src/Runs/Rows.antt =====
-- `create`, `rerun` and `cancel` (application/run_service.py), for any property of the stored runs that
-- keeps to a few laws.
use workspace.Base.{
  ◌≡◌, ◌≢◌, false, refl, ◌∙◌, sym, subst, Option, none, some, Text, Result, ok, err, arith, ◌>>=◌,
  Ensures, Ensures-bind, after_reads, after_raise_if, after_modify, keep_pure, weaken, ends_pure,
  inl, inr,
}
use workspace.Domain.Errors.{ObjectId}
use workspace.Domain.Enums.{RunStatus, is_terminal}
use workspace.Domain.Capabilities.{Capability}
use workspace.Domain.Models.{Run, Project, ProjectVersion}
use workspace.Domain.Snapshot.{RunSnapshot}
use workspace.Store.{Env, World, Op}
use workspace.Store.Runs.{run_get, run_add, run_update, write_run}
use workspace.Access.{RunAccess, ProjectAccess, guard_run}
use workspace.Access.Laws.{require_same, guard_run-Outcome}
use workspace.Runs.Ports.{Ports}
use workspace.Runs.Preflight.{RunDraft}
use workspace.Runs.Submit.{submit, submitted}
use workspace.Runs.Create.{
  launch, create_new, create, replayed_or, rerun_new, rerun, cancel_job, cancel,
}
use workspace.Runs.Untouched.{
  SameTables, Untouched, untouched_bind, gets-Untouched, reads-Untouched, or_else_raise-Untouched,
  snapshot_add-Untouched, attach_idempotency-Untouched, new_id-Untouched, now-Untouched,
  record_run_activity-Untouched, told_of_run-Untouched, record_event-Untouched,
  try_submit-Untouched, call-Untouched,
}
use workspace.Runs.Limits.Checks.{replay_or_reserve-Untouched}
use workspace.Runs.Limits.Submissions.{configuration_of-Untouched}
use workspace.Runs.Ended.Checks.{
  preflight-Untouched, revalidate_snapshot-Untouched, reject_problems-Untouched,
}

-- The run that a permitted call names.
pub guard_run-get :
    (user i : ObjectId) (needs : Option Capability) (w : World) (a : RunAccess)
    → guard_run user i needs w ≡ ok a
    → run_get i w ≡ some a.run
guard_run-get user i needs w a h = elim (guard_run-Outcome w user i needs) [
  | inr (hidden, unseen) ↦ absurd (ground arith)
  | inl (b, sees, e) ↦
      let same = require_same needs b.role b a (sym e ∙ h) in
      subst (λ (c : RunAccess). run_get i w ≡ some c.run) same sees.run_found
]

-- What holds of a store (`P`), and of a store with the run at hand (`Q`), through a submission: both
-- depend on the runs alone, a new run comes in queued, and a run is written as no success.
pub record RowLaw (P : World → Type 0) (Q : Run → World → Type 0) : Type 0 where
  pub same : (w w' : World) → SameTables w w' → P w → P w'
  pub same_at : (run : Run) (w w' : World) → SameTables w w' → Q run w → Q run w'
  pub forgets : (run : Run) (w : World) → Q run w → P w
  pub added :
      (run : Run) (w w' : World)
      → run_add run w ≡ ok (tt, w')
      → run.status ≡ RunStatus.queued
      → P w
      → Q run w'
  pub written :
      (run new : Run) (w : World)
      → new.id ≡ run.id
      → new.status ≢ RunStatus.succeeded
      → Q run w
      → P (write_run new w)
  pub opened :
      (j : ObjectId) (run : Run) (w : World)
      → P w
      → run_get j w ≡ some run
      → is_terminal run.status ≡ false
      → Q run w

module _ (P : World → Type 0) (Q : Run → World → Type 0) (law : RowLaw P Q) (env : Env)
    (ports : Ports) where
  -- A step that keeps `P`.
  abbrev pub KeepsRow : {A : Type 0} → Op A → Type 0
  KeepsRow m = Ensures (P) m (λ _. P)

  -- One more step that leaves all runs as they are.
  then_row :
      {A B : Type 0} (m : Op A) (f : A → Op B)
      → Untouched m
      → ((a : A) → KeepsRow (f a))
      → KeepsRow (m >>= f)
  then_row m f u rest = untouched_bind (P) (law.same) m f u rest

  submitted-KeepsRow :
      (run : Run) (o : Result Text Text)
      → run.status ≡ RunStatus.queued
      → Ensures (Q run) (submitted env run o) (λ _. P)
  unfolding submitted run_update
  submitted-KeepsRow run (err reason) q =
      untouched_bind _ (law.same_at run) _ _ (now-Untouched env) λ at.
        after_modify _ _ (λ w p. law.written run _ w refl (ground arith) p)
          (then_row _ _ (record_event-Untouched env _ _) λ _.
            then_row _ _
              (told_of_run-Untouched env _
                (record run {
                  status = RunStatus.submit_failed;
                  failure_reason = reason;
                  finished_at = some at;
                })
                reason)
              λ _. keep_pure _)
  submitted-KeepsRow run (ok job) q =
      untouched_bind _ (law.same_at run) _ _ (now-Untouched env) λ at.
        after_modify _ _ (λ w p. law.written run _ w refl (ground arith) p)
          (then_row _ _ (record_event-Untouched env _ _) λ _. keep_pure _)

  submit-KeepsRow :
      (run : Run) (s : RunSnapshot) (version : ProjectVersion) (ws : ObjectId)
      → run.status ≡ RunStatus.queued
      → Ensures (Q run) (submit env ports run s version ws) (λ _. P)
  unfolding submit
  submit-KeepsRow run s version ws q =
      untouched_bind _ (law.same_at run) _ _ (try_submit-Untouched ports run s version ws)
        λ o. submitted-KeepsRow run o q

  launch-KeepsRow :
      (user ws : ObjectId) (key : Option Text) (s : RunSnapshot) (run : Run)
      (version : ProjectVersion)
      → run.status ≡ RunStatus.queued
      → KeepsRow (launch env ports user ws key s run version)
  unfolding launch
  launch-KeepsRow user ws key s run version q =
      Ensures-bind (λ _. Q run) _ _ (record { at = λ w u w' p h. law.added run w w' h q p })
        λ _. untouched_bind _ (law.same_at run) _ _ (record_event-Untouched env _ _) λ _.
          untouched_bind _ (law.same_at run) _ _ (attach_idempotency-Untouched _ _ _) λ _.
            Ensures-bind (λ _. P) _ _ (submit-KeepsRow run s version ws q)
              λ sent. then_row _ _ (record_run_activity-Untouched env _ sent _) λ _. keep_pure _

  create_new-KeepsRow :
      (user project ws : ObjectId) (p : Project) (draft : RunDraft) (key : Option Text)
      → KeepsRow (create_new env ports user project ws p draft key)
  unfolding create_new
  create_new-KeepsRow user project ws p draft key =
      then_row _ _ (configuration_of-Untouched project draft) λ c.
        then_row _ _ (preflight-Untouched env user project draft) λ result.
          then_row _ _ (reject_problems-Untouched _) λ _.
            then_row _ _ (or_else_raise-Untouched _ _) λ version.
              then_row _ _ (or_else_raise-Untouched _ _) λ environment.
                then_row _ _ (or_else_raise-Untouched _ _) λ plan.
                  then_row _ _ (or_else_raise-Untouched _ _) λ request.
                    then_row _ _ (now-Untouched env) λ at. then_row _ _ (new_id-Untouched env) λ j.
                      then_row _ _ (reads-Untouched _) λ scheduler.
                        then_row _ _ (reads-Untouched _) λ s.
                          then_row _ _ (snapshot_add-Untouched s) λ _.
                            then_row _ _ (new_id-Untouched env)
                              λ k. launch-KeepsRow user ws key s _ version refl

  pub create-KeepsRow :
      (user project : ObjectId) (draft : RunDraft) (key : Option Text)
      → KeepsRow (create env ports user project draft key)
  unfolding create
  create-KeepsRow user project draft key = then_row _ _ (reads-Untouched _) λ access.
      then_row _ _ (replay_or_reserve-Untouched _ key _ _ _)
        λ replayed. replayed_or-KeepsRow access replayed
    where
      replayed_or-KeepsRow :
          (access : ProjectAccess) (o : Option Run)
          → KeepsRow (
              replayed_or env ports o
                (create_new env ports user project access.space.id access.project draft key))
      replayed_or-KeepsRow access none =
          create_new-KeepsRow user project access.space.id access.project draft key
      replayed_or-KeepsRow access (some s) = ends_pure _ (λ w p. p)

  rerun_new-KeepsRow :
      (user : ObjectId) (access : RunAccess) (name : Text) (key : Option Text)
      → KeepsRow (rerun_new env ports user access name key)
  unfolding rerun_new
  rerun_new-KeepsRow user access name key = then_row _ _ (gets-Untouched _) λ found.
      then_row _ _ (or_else_raise-Untouched _ _) λ source.
        then_row _ _ (revalidate_snapshot-Untouched env source access.space.id) λ problems.
          then_row _ _ (reject_problems-Untouched _) λ _.
            then_row _ _ (gets-Untouched _) λ environment_found.
              then_row _ _ (or_else_raise-Untouched _ _) λ environment.
                then_row _ _ (gets-Untouched _) λ plan_found.
                  then_row _ _ (or_else_raise-Untouched _ _) λ plan.
                    then_row _ _ (gets-Untouched _) λ version_found.
                      then_row _ _ (or_else_raise-Untouched _ _) λ version.
                        then_row _ _ (now-Untouched env) λ at.
                          then_row _ _ (new_id-Untouched env) λ j.
                            then_row _ _ (reads-Untouched _) λ scheduler.
                              then_row _ _ (reads-Untouched _) λ s.
                                then_row _ _ (snapshot_add-Untouched s) λ _.
                                  then_row _ _ (new_id-Untouched env)
                                    λ k. launch-KeepsRow user access.space.id key s _ version refl

  pub rerun-KeepsRow :
      (user run : ObjectId) (name : Text) (key : Option Text)
      → KeepsRow (rerun env ports user run name key)
  unfolding rerun
  rerun-KeepsRow user run name key = then_row _ _ (reads-Untouched _) λ access.
      then_row _ _ (replay_or_reserve-Untouched _ key _ _ _)
        λ replayed. replayed_or-KeepsRow access replayed
    where
      replayed_or-KeepsRow :
          (access : RunAccess) (o : Option Run)
          → KeepsRow (replayed_or env ports o (rerun_new env ports user access name key))
      replayed_or-KeepsRow access none = rerun_new-KeepsRow user access name key
      replayed_or-KeepsRow access (some s) = ends_pure _ (λ w p. p)

  cancel_job-KeepsRow :
      (run : Run) (job : Option Text) → Ensures (Q run) (cancel_job env ports run job) (λ _. P)
  unfolding cancel_job run_update
  cancel_job-KeepsRow run (some job) =
      weaken (λ w p. law.forgets run w p) (then_row _ _ (call-Untouched _) λ _. keep_pure _)
  cancel_job-KeepsRow run none = untouched_bind _ (law.same_at run) _ _ (now-Untouched env) λ at.
      after_modify _ _ (λ w p. law.written run _ w refl (ground arith) p)
        (then_row _ _ (record_event-Untouched env _ _) λ _. keep_pure _)

  pub cancel-KeepsRow : (user run : ObjectId) → KeepsRow (cancel env ports user run)
  unfolding cancel
  cancel-KeepsRow user run = after_reads _ _ λ access. after_raise_if _ _ _ λ open_run.
      weaken {P' = Q access.run}
        (λ w p. law.opened run access.run w p.0 (guard_run-get user run _ w access p.1) open_run)
        (untouched_bind _ (law.same_at access.run) _ _ (record_event-Untouched env _ _) λ _.
          Ensures-bind (λ _. P) _ _ (cancel_job-KeepsRow access.run _)
            λ ended. then_row _ _ (record_run_activity-Untouched env _ ended _) λ _. keep_pure _)
