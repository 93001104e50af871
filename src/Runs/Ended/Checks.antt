-- ===== src/Runs/Ended/Checks.antt =====
-- The checks before a submission (application/run_service.py), which read only.
use workspace.Base.{Bool, true, false, Option, none, some, List, [], ◌∷◌, pure, gets, if◌then◌else◌}
use workspace.Domain.Errors.{ObjectId, Problem}
use workspace.Domain.Compute.{ComputePlan, ComputeRequest, ResourceEntitlement}
use workspace.Domain.Models.{RunConfiguration}
use workspace.Domain.Snapshot.{RunSnapshot}
use workspace.Store.{Env}
use workspace.Runs.Preflight.{
  RunDraft, check_concurrency, entitlement_problems, check_entitlement, plan_problems, preflight,
  source_plan_problems, revalidate_snapshot,
}
use workspace.Runs.Create.{reject_problems}
use workspace.Runs.Untouched.{
  Untouched, >>=-Untouched, pure-Untouched, gets-Untouched, reads-Untouched, raise-Untouched,
  now-Untouched,
}
use workspace.Runs.Limits.Submissions.{
  configuration_of-Untouched, resolve_project_version-Untouched,
}

module _ (env : Env) where
  judged-Untouched :
      (ws : ObjectId) (e : ResourceEntitlement) (old : Bool)
      → Untouched
          (if old then pure (Problem.entitlement_expired ∷ []) else gets (check_concurrency ws e))
  judged-Untouched ws e true = pure-Untouched _
  judged-Untouched ws e false = gets-Untouched _

  entitlement_problems-Untouched :
      (ws : ObjectId) (missing : Problem) (o : Option ResourceEntitlement)
      → Untouched (entitlement_problems env ws missing o)
  unfolding entitlement_problems
  entitlement_problems-Untouched ws missing none = pure-Untouched _
  entitlement_problems-Untouched ws missing (some e) =
      >>=-Untouched _ _ (now-Untouched env) λ at. judged-Untouched ws e _

  check_entitlement-Untouched :
      (ws plan : ObjectId) (missing : Problem) → Untouched (check_entitlement env ws plan missing)
  unfolding check_entitlement
  check_entitlement-Untouched ws plan missing =
      >>=-Untouched _ _ (gets-Untouched _) λ e. entitlement_problems-Untouched ws missing e

  plan_problems-Untouched :
      (ws : ObjectId) (c : RunConfiguration) (draft : RunDraft) (o : Option ComputePlan)
      → Untouched (plan_problems env ws c draft o)
  unfolding plan_problems
  plan_problems-Untouched ws c draft none = pure-Untouched _
  plan_problems-Untouched ws c draft (some plan) =
      >>=-Untouched _ _ (check_entitlement-Untouched ws plan.id _)
        λ ps. >>=-Untouched _ _ (reads-Untouched _) λ request. pure-Untouched _

  pub preflight-Untouched :
      (user project : ObjectId) (draft : RunDraft) → Untouched (preflight env user project draft)
  unfolding preflight
  preflight-Untouched user project draft = >>=-Untouched _ _ (reads-Untouched _) λ access.
      >>=-Untouched _ _ (configuration_of-Untouched project draft) λ c.
        >>=-Untouched _ _ (resolve_project_version-Untouched project _) λ version.
          >>=-Untouched _ _ (gets-Untouched _) λ environment.
            >>=-Untouched _ _ (gets-Untouched _) λ plan.
              >>=-Untouched _ _ (plan_problems-Untouched access.space.id c draft plan) λ request.
                >>=-Untouched _ _ (gets-Untouched _) λ variables.
                  >>=-Untouched _ _ (gets-Untouched _)
                    λ names. >>=-Untouched _ _ (gets-Untouched _) λ inputs. pure-Untouched _

  source_plan_problems-Untouched :
      (ws : ObjectId) (request : ComputeRequest) (o : Option ComputePlan)
      → Untouched (source_plan_problems env ws request o)
  unfolding source_plan_problems
  source_plan_problems-Untouched ws request none = pure-Untouched _
  source_plan_problems-Untouched ws request (some plan) =
      >>=-Untouched _ _ (check_entitlement-Untouched ws plan.id _) λ ps. pure-Untouched _

  pub revalidate_snapshot-Untouched :
      (s : RunSnapshot) (ws : ObjectId) → Untouched (revalidate_snapshot env s ws)
  unfolding revalidate_snapshot
  revalidate_snapshot-Untouched s ws = >>=-Untouched _ _ (gets-Untouched _) λ version.
      >>=-Untouched _ _ (gets-Untouched _) λ environment.
        >>=-Untouched _ _ (gets-Untouched _) λ plan.
          >>=-Untouched _ _ (source_plan_problems-Untouched ws s.compute_request plan) λ ps.
            >>=-Untouched _ _ (gets-Untouched _)
              λ names. >>=-Untouched _ _ (gets-Untouched _) λ inputs. pure-Untouched _

pub reject_problems-Untouched : (ps : List Problem) → Untouched (reject_problems ps)
reject_problems-Untouched [] = pure-Untouched tt
reject_problems-Untouched (p ∷ ps) = raise-Untouched _
