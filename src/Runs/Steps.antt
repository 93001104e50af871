-- ===== src/Runs/Steps.antt =====
-- The use cases that write runs, in any order: each is one transaction, so a history is a sequence
-- of the calls that returned.
use workspace.Base.{Bool, Option, Text, ok, ◌≡◌, true, some}
use workspace.Domain.Errors.{ObjectId}
use workspace.Domain.Models.{Run}
use workspace.Store.{Env, World}
use workspace.Runs.Ports.{Ports}
use workspace.Runs.Idempotency.{RunSubmission}
use workspace.Runs.Preflight.{RunDraft}
use workspace.Runs.Create.{create, rerun, cancel}
use workspace.Runs.Lifecycle.{sync_run, sync_all}
use workspace.Runs.Ended.{IsRow}
use workspace.Runs.Proven.{SuccessesReported, SuccessesReported-RowLaw}
use workspace.Runs.Proven.Syncs.{sync_run-Reported, sync_all-Reported}
use workspace.Runs.Rows.{create-KeepsRow, rerun-KeepsRow, cancel-KeepsRow}
use workspace.Runs.Ended.Launch.{IsRow-RowLaw}
use workspace.Runs.Ended.Syncs.{sync_run-KeepsRow, sync_all-IsRow}
use workspace.Store.Runs.{run_get}
use workspace.Domain.Enums.{is_terminal}
use workspace.Runs.Limits.{WithinLimits}
use workspace.Runs.Limits.Submissions.{create-KeepsLimits}
use workspace.Runs.Limits.Reruns.{rerun-KeepsLimits, cancel-KeepsLimits}
use workspace.Runs.Limits.Syncs.{sync_run-KeepsLimits, sync_all-WithinLimits}

module _ (env : Env) (ports : Ports) where
  -- One committed call.
  pub data RunStep (w : World) : World → Type 0 where
    creates :
        (user project : ObjectId) (draft : RunDraft) (key : Option Text) (s : RunSubmission)
        (w' : World)
        → create env ports user project draft key w ≡ ok (s, w')
        → RunStep w w'
    reruns :
        (user run : ObjectId) (name : Text) (key : Option Text) (s : RunSubmission) (w' : World)
        → rerun env ports user run name key w ≡ ok (s, w')
        → RunStep w w'
    cancels :
        (user run : ObjectId) (r : Run) (w' : World)
        → cancel env ports user run w ≡ ok (r, w')
        → RunStep w w'
    syncs :
        (run : ObjectId) (changed : Bool) (w' : World)
        → sync_run env ports run w ≡ ok (changed, w')
        → RunStep w w'
    syncs_all : RunStep w ((sync_all env ports w).1)

  -- Any number of them.
  pub data RunHistory (w : World) : World → Type 0 where
    start : RunHistory w w
    next : {v v' : World} → RunHistory w v → RunStep v v' → RunHistory w v'

  step-WithinLimits : (w w' : World) → RunStep w w' → WithinLimits w → WithinLimits w'
  step-WithinLimits w _ (RunStep.creates user project draft key s w' h) inv =
      (create-KeepsLimits env ports user project draft key).at w s w' inv h
  step-WithinLimits w _ (RunStep.reruns user run name key s w' h) inv =
      (rerun-KeepsLimits env ports user run name key).at w s w' inv h
  step-WithinLimits w _ (RunStep.cancels user run r w' h) inv =
      (cancel-KeepsLimits env ports user run).at w r w' inv h
  step-WithinLimits w _ (RunStep.syncs run changed w' h) inv =
      (sync_run-KeepsLimits env ports run).at w changed w' inv h
  step-WithinLimits w _ RunStep.syncs_all inv = sync_all-WithinLimits env ports w inv

  -- From a store in which every workspace's unfinished runs on a plan are within what its
  -- entitlement for the plan grants, any sequence of committed create, rerun, cancel, sync_run and
  -- sync_all calls, with whatever scheduler and storage, leads to such a store.
  pub history-WithinLimits : (w w' : World) → RunHistory w w' → WithinLimits w → WithinLimits w'
  history-WithinLimits w _ RunHistory.start inv = inv
  history-WithinLimits w _ (RunHistory.next {v} h s) inv =
      step-WithinLimits v _ s (history-WithinLimits w v h inv)

  step-IsRow :
      (i : ObjectId) (r : Run)
      → is_terminal r.status ≡ true
      → (w w' : World) → RunStep w w'
      → IsRow i r w
      → IsRow i r w'
  step-IsRow i r over w _ (RunStep.creates user project draft key s w' h) p =
      (create-KeepsRow _ _ (IsRow-RowLaw i r over) env ports user project draft key).at w s w' p h
  step-IsRow i r over w _ (RunStep.reruns user run name key s w' h) p =
      (rerun-KeepsRow _ _ (IsRow-RowLaw i r over) env ports user run name key).at w s w' p h
  step-IsRow i r over w _ (RunStep.cancels user run b w' h) p =
      (cancel-KeepsRow _ _ (IsRow-RowLaw i r over) env ports user run).at w b w' p h
  step-IsRow i r over w _ (RunStep.syncs run changed w' h) p =
      (sync_run-KeepsRow i r env ports over run).at w changed w' p h
  step-IsRow i r over w _ RunStep.syncs_all p = sync_all-IsRow i r env ports over w p

  -- A stored run that has ended (succeeded, failed, cancelled or never submitted) has the very same
  -- row after any sequence of committed create, rerun, cancel, sync_run and sync_all calls.
  pub history-IsRow :
      (i : ObjectId) (r : Run)
      → is_terminal r.status ≡ true
      → (w w' : World) → RunHistory w w'
      → run_get i w ≡ some r
      → run_get i w' ≡ some r
  history-IsRow i r over w _ RunHistory.start p = p
  history-IsRow i r over w _ (RunHistory.next {v} h s) p =
      step-IsRow i r over v _ s (history-IsRow i r over w v h p)

  step-SuccessesReported :
      (w w' : World) → RunStep w w' → SuccessesReported ports w → SuccessesReported ports w'
  step-SuccessesReported w _ (RunStep.creates user project draft key s w' h) p =
      (create-KeepsRow _ _ (SuccessesReported-RowLaw ports) env ports user project draft key).at w s
        w' p h
  step-SuccessesReported w _ (RunStep.reruns user run name key s w' h) p =
      (rerun-KeepsRow _ _ (SuccessesReported-RowLaw ports) env ports user run name key).at w s w' p
        h
  step-SuccessesReported w _ (RunStep.cancels user run b w' h) p =
      (cancel-KeepsRow _ _ (SuccessesReported-RowLaw ports) env ports user run).at w b w' p h
  step-SuccessesReported w _ (RunStep.syncs run changed w' h) p =
      (sync_run-Reported env ports run).at w changed w' p h
  step-SuccessesReported w _ RunStep.syncs_all p = sync_all-Reported env ports w p

  -- From a store in which the scheduler has reported the job of every succeeded run as completed,
  -- with exit code 0 or none, any sequence of committed create, rerun, cancel, sync_run and sync_all
  -- calls leads to such a store.
  pub history-SuccessesReported :
      (w w' : World) → RunHistory w w' → SuccessesReported ports w → SuccessesReported ports w'
  history-SuccessesReported w _ RunHistory.start p = p
  history-SuccessesReported w _ (RunHistory.next {v} h s) p =
      step-SuccessesReported v _ s (history-SuccessesReported w v h p)
