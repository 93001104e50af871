-- ===== src/Runs/Keys.antt =====
-- The steps of application/run_service.py that leave the table of idempotency keys alone.
pub mod Named
use workspace.Base.{
  ℕ, if◌then◌else◌, ◌≡◌, ◌∙◌, Bool, true, false, Option, none, some, List, [], ◌∷◌, Text, Result,
  ok, err, arith, ◌>>=◌, ◌==◌, pure, raise, reads, gets, raise_if, or_else_raise, >>=-eq-ok,
  Ensures, Ensures-bind, Bool-cases, inl, inr, is_some,
}
use workspace.Domain.Errors.{ObjectId, DomainError, Problem}
use workspace.Domain.Enums.{RunEventType, ActivityAction, NotificationType}
use workspace.Domain.Compute.{ComputePlan, ResourceEntitlement, is_expired}
use workspace.Domain.Models.{Run, RunEvent, ProjectVersion, RunConfiguration}
use workspace.Domain.Snapshot.{RunSnapshot}
use workspace.Store.{Env, World, Op, new_id, now}
use workspace.Store.Runs.{snapshot_add, event_add, run_add}
use workspace.Activities.{Entry, Notice, record_activity, publish}
use workspace.Activities.Laws.{record_activity_keeps, publish_keeps}
use workspace.Runs.Ports.{Ports, RunPaths, try_call}
use workspace.Runs.Submit.{
  record_event, record_run_activity, told_of_run, try_submit, submit_prepared,
}
use workspace.Runs.Preflight.{
  RunDraft, configuration_of, preflight, resolve_project_version, version_of, entitlement_problems,
  check_entitlement, plan_problems,
}
use workspace.Runs.Create.{reject_problems}

pub record KeepsKeys {A : Type 0} (m : Op A) : Type 0 where
  pub at : (w : World) (a : A) (w' : World) → m w ≡ ok (a, w') → w'.idempotency ≡ w.idempotency

module _ {A : Type 0} where
  pure-KeepsKeys : (a : A) → KeepsKeys (pure a)
  unfolding ◌>>=◌
  pure-KeepsKeys a = record { at = λ w b w' h. ground arith }

  raise-KeepsKeys : (e : DomainError) → KeepsKeys (raise {A = A} e)
  unfolding ◌>>=◌
  raise-KeepsKeys e = record { at = λ w b w' h. absurd (cc) }

  gets-KeepsKeys : (f : World → A) → KeepsKeys (gets f)
  unfolding ◌>>=◌
  gets-KeepsKeys f = record { at = λ w b w' h. ground arith }

  or_else_raise-KeepsKeys : (e : DomainError) (o : Option A) → KeepsKeys (or_else_raise e o)
  unfolding ◌>>=◌
  or_else_raise-KeepsKeys e none = record { at = λ w b w' h. absurd (cc) }
  or_else_raise-KeepsKeys e (some a) = record { at = λ w b w' h. ground arith }

  pub reads-KeepsKeys : (f : World → Result DomainError A) → KeepsKeys (reads f)
  unfolding ◌>>=◌
  reads-KeepsKeys f = record { at = λ w b w' h. go w b w' (f w) h }
    where
      go :
          (w : World) (b : A) (w' : World) (r : Result DomainError A)
          → reads (λ _. r) w ≡ ok (b, w')
          → w'.idempotency ≡ w.idempotency
      go w b w' (ok a) h = ground arith
      go w b w' (err e) h = absurd (cc)

  try_call-KeepsKeys : (f : ℕ → Result Text A) → KeepsKeys (try_call f)
  unfolding try_call
  try_call-KeepsKeys f = record { at = λ w b w' h. ground arith }

module _ {A B : Type 0} where
  >>=-KeepsKeys :
      (m : Op A) (f : A → Op B) → KeepsKeys m → ((a : A) → KeepsKeys (f a)) → KeepsKeys (m >>= f)
  >>=-KeepsKeys m f um uf = record {
    at = λ w b w' h. let (a, v, e, k) = >>=-eq-ok m f w h in (uf a).at v b w' k ∙ um.at w a v e;
  }

raise_if-KeepsKeys : (c : Bool) (e : DomainError) → KeepsKeys (raise_if c e)
unfolding ◌>>=◌
raise_if-KeepsKeys true e = record { at = λ w b w' h. absurd (cc) }
raise_if-KeepsKeys false e = record { at = λ w b w' h. ground arith }

pub snapshot_add-KeepsKeys : (s : RunSnapshot) → KeepsKeys (snapshot_add s)
unfolding snapshot_add
snapshot_add-KeepsKeys s = record { at = λ w b w' h. ground arith }

event_add-KeepsKeys : (e : RunEvent) → KeepsKeys (event_add e)
unfolding event_add
event_add-KeepsKeys e = record { at = λ w b w' h. ground arith }

pub run_add-KeepsKeys : (r : Run) → KeepsKeys (run_add r)
unfolding run_add
run_add-KeepsKeys r = record { at = λ w b w' h. ground arith }

pub reject_problems-KeepsKeys : (ps : List Problem) → KeepsKeys (reject_problems ps)
reject_problems-KeepsKeys [] = pure-KeepsKeys tt
reject_problems-KeepsKeys (p ∷ ps) = raise-KeepsKeys _

pub configuration_of-KeepsKeys :
    (project : ObjectId) (draft : RunDraft) → KeepsKeys (configuration_of project draft)
unfolding configuration_of
configuration_of-KeepsKeys project draft =
    >>=-KeepsKeys _ _ (gets-KeepsKeys _)
      λ found. >>=-KeepsKeys _ _ (raise_if-KeepsKeys _ _) λ _. or_else_raise-KeepsKeys _ _

version_of-KeepsKeys :
    (project i : ObjectId) (o : Option ProjectVersion) → KeepsKeys (version_of project i o)
unfolding version_of
version_of-KeepsKeys project i none = raise-KeepsKeys _
version_of-KeepsKeys project i (some v) = elim (Bool-cases (v.project_id == project)) [
  | inl own ↦ rw own (pure-KeepsKeys (some v))
  | inr other ↦ rw other (raise-KeepsKeys _)
]

resolve_project_version-KeepsKeys :
    (project : ObjectId) (i : Option ObjectId) → KeepsKeys (resolve_project_version project i)
unfolding resolve_project_version
resolve_project_version-KeepsKeys project none = gets-KeepsKeys _
resolve_project_version-KeepsKeys project (some i) =
    >>=-KeepsKeys _ _ (gets-KeepsKeys _) λ found. version_of-KeepsKeys project i found

module _ (env : Env) where
  pub new_id-KeepsKeys : KeepsKeys (new_id env)
  new_id-KeepsKeys = record { at = λ w b w' h. ground arith }

  pub now-KeepsKeys : KeepsKeys (now env)
  now-KeepsKeys = record { at = λ w b w' h. ground arith }

  record_activity-KeepsKeys :
      (actor : ObjectId) (e : Entry) → KeepsKeys (record_activity env actor e)
  record_activity-KeepsKeys actor e = record {
    at = λ w b w' h.
        let kept = record_activity_keeps env actor e w in let done = kept.returns in ground arith;
  }

  pub record_run_activity-KeepsKeys :
      (user : ObjectId) (run : Run) (action : ActivityAction)
      → KeepsKeys (record_run_activity env user run action)
  unfolding record_run_activity
  record_run_activity-KeepsKeys user run action = record_activity-KeepsKeys user _

  publish-KeepsKeys :
      (recipient : ObjectId) (actor : Option ObjectId) (n : Notice)
      → KeepsKeys (publish env recipient actor n)
  publish-KeepsKeys recipient actor n = record {
    at = λ w b w' h.
        let kept = publish_keeps env recipient actor n w in let done = kept.returns in ground arith;
  }

  pub told_of_run-KeepsKeys :
      (type : NotificationType) (run : Run) (reason : Text)
      → KeepsKeys (told_of_run env type run reason)
  unfolding told_of_run
  told_of_run-KeepsKeys type run reason = publish-KeepsKeys _ _ _

  pub record_event-KeepsKeys :
      (run : ObjectId) (type : RunEventType) → KeepsKeys (record_event env run type)
  unfolding record_event
  record_event-KeepsKeys run type =
      >>=-KeepsKeys _ _ new_id-KeepsKeys
        λ i. >>=-KeepsKeys _ _ now-KeepsKeys λ at. event_add-KeepsKeys _

  judged-KeepsKeys :
      (c : Bool) (ps : List Problem) (f : World → List Problem)
      → KeepsKeys (if c then pure ps else gets f)
  judged-KeepsKeys true ps f = pure-KeepsKeys ps
  judged-KeepsKeys false ps f = gets-KeepsKeys f

  entitlement_problems-KeepsKeys :
      (ws : ObjectId) (missing : Problem) (o : Option ResourceEntitlement)
      → KeepsKeys (entitlement_problems env ws missing o)
  unfolding entitlement_problems
  entitlement_problems-KeepsKeys ws missing none = pure-KeepsKeys _
  entitlement_problems-KeepsKeys ws missing (some e) =
      >>=-KeepsKeys _ _ now-KeepsKeys λ at. judged-KeepsKeys _ _ _

  plan_problems-KeepsKeys :
      (ws : ObjectId) (c : RunConfiguration) (draft : RunDraft) (o : Option ComputePlan)
      → KeepsKeys (plan_problems env ws c draft o)
  unfolding plan_problems check_entitlement
  plan_problems-KeepsKeys ws c draft none = pure-KeepsKeys _
  plan_problems-KeepsKeys ws c draft (some plan) =
      >>=-KeepsKeys _ _
        (>>=-KeepsKeys _ _ (gets-KeepsKeys _) λ e. entitlement_problems-KeepsKeys ws _ e)
        λ problems. >>=-KeepsKeys _ _ (reads-KeepsKeys _) λ request. pure-KeepsKeys _

  pub preflight-KeepsKeys :
      (user project : ObjectId) (draft : RunDraft) → KeepsKeys (preflight env user project draft)
  unfolding preflight
  preflight-KeepsKeys user project draft = >>=-KeepsKeys _ _ (reads-KeepsKeys _) λ access.
      >>=-KeepsKeys _ _ (configuration_of-KeepsKeys project draft) λ c.
        >>=-KeepsKeys _ _ (resolve_project_version-KeepsKeys project _) λ version.
          >>=-KeepsKeys _ _ (gets-KeepsKeys _) λ environment.
            >>=-KeepsKeys _ _ (gets-KeepsKeys _) λ plan.
              >>=-KeepsKeys _ _ (plan_problems-KeepsKeys _ c draft plan) λ request.
                >>=-KeepsKeys _ _ (gets-KeepsKeys _) λ variables.
                  >>=-KeepsKeys _ _ (gets-KeepsKeys _)
                    λ names. >>=-KeepsKeys _ _ (gets-KeepsKeys _) λ inputs. pure-KeepsKeys _

module _ (ports : Ports) where
  submit_prepared-KeepsKeys :
      (run : Run) (s : RunSnapshot) (ws : ObjectId) (r : Result Text RunPaths)
      → KeepsKeys (submit_prepared ports run s ws r)
  unfolding submit_prepared
  submit_prepared-KeepsKeys run s ws (err reason) = pure-KeepsKeys _
  submit_prepared-KeepsKeys run s ws (ok paths) =
      >>=-KeepsKeys _ _ (gets-KeepsKeys _) λ environment. try_call-KeepsKeys _

  pub try_submit-KeepsKeys :
      (run : Run) (s : RunSnapshot) (version : ProjectVersion) (ws : ObjectId)
      → KeepsKeys (try_submit ports run s version ws)
  unfolding try_submit
  try_submit-KeepsKeys run s version ws =
      >>=-KeepsKeys _ _ (try_call-KeepsKeys _) λ paths. submit_prepared-KeepsKeys run s ws paths
