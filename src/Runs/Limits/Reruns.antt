-- ===== src/Runs/Limits/Reruns.antt =====
-- `rerun` and `cancel` (application/run_service.py) and the limits of unfinished runs.
use workspace.Base.{
  ◌≡◌, refl, ◌∙◌, sym, subst, Option, none, some, [], Text, Ensures, Ensures-bind, after_reads,
  after_gets, skip_gets, keep_pure, after_raise_if, after_or_raise, after_modify, weaken, ends_pure,
}
use workspace.Domain.Errors.{ObjectId}
use workspace.Domain.Compute.{ComputePlan}
use workspace.Domain.Models.{Run}
use workspace.Domain.Snapshot.{RunSnapshot}
use workspace.Domain.Snapshot.Laws.{build_snapshot_contained}
use workspace.Store.{Env, World}
use workspace.Store.Projects.{plan_get}
use workspace.Store.Runs.{run_update}
use workspace.Access.{RunAccess}
use workspace.Runs.Ports.{Ports}
use workspace.Runs.Preflight.{
  revalidate_snapshot, source_version_problems, source_environment_problems,
}
use workspace.Runs.Create.{replayed_or, rerun_new, rerun, cancel_job, cancel}
use workspace.Runs.Untouched.{
  SameTables, untouched_bind, reads-Untouched, snapshot_add-Untouched, new_id-Untouched,
  now-Untouched, record_run_activity-Untouched, record_event-Untouched, call-Untouched,
}
use workspace.Runs.Limits.{WithinLimits, HasRoom, WithinLimits-same, write_run-WithinLimits}
use workspace.Runs.Limits.Checks.{
  source_plan_problems-HasRoom, append_nil, replay_or_reserve-Untouched,
}
use workspace.Runs.Limits.Launch.{KeepsLimits, Roomy, Roomy-same, launch-KeepsLimits, after_reject}

Planned : ObjectId → Option ComputePlan → World → Type 0
Planned i o w = WithinLimits w × (plan_get i w ≡ o)

Planned-same :
    (i : ObjectId) (o : Option ComputePlan) (w w' : World)
    → SameTables w w'
    → Planned i o w
    → Planned i o w'
unfolding plan_get Planned
Planned-same i o w w' s p = (WithinLimits-same w w' s p.0, rw (s.plans) (p.1))

module _ (env : Env) (ports : Ports) where
  -- A snapshot that is valid again has found room on its plan.
  revalidate_snapshot-HasRoom :
      (s : RunSnapshot) (ws : ObjectId)
      → Ensures WithinLimits (revalidate_snapshot env s ws) (λ ps w.
        WithinLimits w
        × ((plan : ComputePlan)
            → ps ≡ []
            → plan_get s.compute_plan_id w ≡ some plan
            → HasRoom ws plan.id w))
  unfolding revalidate_snapshot Planned
  revalidate_snapshot-HasRoom s ws = skip_gets _ _ λ version. skip_gets _ _ λ environment.
      after_gets _ _ λ plan.
        Ensures-bind _ _ _
          (source_plan_problems-HasRoom (Planned s.compute_plan_id plan)
            (Planned-same s.compute_plan_id plan) env ws s.compute_request plan)
          λ ps. skip_gets _ _ λ names. skip_gets _ _ λ inputs. ends_pure _ (λ w p. (
            p.0.0,
            λ found none e.
                let rest = append_nil (source_version_problems version) _ none in
                let rest' = append_nil (source_environment_problems environment) _ rest.1 in
                let quiet = append_nil ps _ rest'.1 in p.1 found (sym p.0.1 ∙ e) quiet.0,
          ))

  rerun_new-KeepsLimits :
      (user : ObjectId) (access : RunAccess) (name : Text) (key : Option Text)
      → KeepsLimits (rerun_new env ports user access name key)
  unfolding rerun_new
  rerun_new-KeepsLimits user access name key = skip_gets _ _ λ found.
      after_or_raise _ _ _ λ source e.
        Ensures-bind _ _ _ (revalidate_snapshot-HasRoom source access.space.id) λ problems.
          after_reject _ _ λ quiet. skip_gets _ _ λ environment_found.
            after_or_raise _ _ _ λ environment e2. after_gets _ _ λ plan_found.
              after_or_raise _ _ _ λ plan e3.
                weaken {P' = Roomy access.space.id plan.id}
                  (λ w q. (q.0.0, q.0.1 plan quiet (q.1 ∙ e3)))
                  (skip_gets _ _ λ version_found. after_or_raise _ _ _ λ version e4.
                    untouched_bind _ (Roomy-same access.space.id plan.id) _ _ (now-Untouched env)
                      λ at.
                        untouched_bind _ (Roomy-same access.space.id plan.id) _ _
                          (new_id-Untouched env)
                          λ i.
                            untouched_bind _ (Roomy-same access.space.id plan.id) _ _
                              (reads-Untouched _)
                              λ scheduler. after_reads _ _ λ s.
                                weaken {P' = Roomy access.space.id s.compute_plan_id}
                                  (λ w q.
                                    let same = (build_snapshot_contained _ s q.1).0 in
                                    subst
                                      (λ (x : RunSnapshot).
                                        Roomy access.space.id x.compute_plan_id w)
                                      same q.0)
                                  (untouched_bind _ (Roomy-same access.space.id s.compute_plan_id) _
                                    _ (snapshot_add-Untouched s)
                                    λ _.
                                      untouched_bind _
                                        (Roomy-same access.space.id s.compute_plan_id) _ _
                                        (new_id-Untouched env)
                                        λ j.
                                          launch-KeepsLimits env ports user access.space.id key s _
                                            version refl))

  pub rerun-KeepsLimits :
      (user run : ObjectId) (name : Text) (key : Option Text)
      → KeepsLimits (rerun env ports user run name key)
  unfolding rerun
  rerun-KeepsLimits user run name key =
      untouched_bind _ WithinLimits-same _ _ (reads-Untouched _) λ access.
        untouched_bind _ WithinLimits-same _ _ (replay_or_reserve-Untouched _ key _ _ _)
          λ replayed. replayed_or-KeepsLimits access replayed
    where
      replayed_or-KeepsLimits :
          (access : RunAccess) (o : Option Run)
          → KeepsLimits (replayed_or env ports o (rerun_new env ports user access name key))
      replayed_or-KeepsLimits access none = rerun_new-KeepsLimits user access name key
      replayed_or-KeepsLimits access (some r) = keep_pure _

  cancel_job-KeepsLimits :
      (run : Run) (job : Option Text) → KeepsLimits (cancel_job env ports run job)
  unfolding cancel_job run_update
  cancel_job-KeepsLimits run (some job) =
      untouched_bind _ WithinLimits-same _ _ (call-Untouched _) λ _. keep_pure _
  cancel_job-KeepsLimits run none = untouched_bind _ WithinLimits-same _ _ (now-Untouched env) λ at.
      after_modify _ _ (λ w p. write_run-WithinLimits _ w (λ r found ended. refl) p)
        (untouched_bind _ WithinLimits-same _ _ (record_event-Untouched env _ _) λ _. keep_pure _)

  pub cancel-KeepsLimits : (user run : ObjectId) → KeepsLimits (cancel env ports user run)
  unfolding cancel
  cancel-KeepsLimits user run = untouched_bind _ WithinLimits-same _ _ (reads-Untouched _) λ access.
      after_raise_if _ _ _ λ unfinished.
        untouched_bind _ WithinLimits-same _ _ (record_event-Untouched env _ _) λ _.
          Ensures-bind (λ _. WithinLimits) _ _ (cancel_job-KeepsLimits access.run _)
            λ ended.
              untouched_bind _ WithinLimits-same _ _ (record_run_activity-Untouched env _ ended _)
                λ _. keep_pure _
