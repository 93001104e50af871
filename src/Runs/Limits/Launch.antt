-- ===== src/Runs/Limits/Launch.antt =====
-- The end of `create` and `rerun`, with `_submit` in it (application/run_service.py), and the limits
-- of unfinished runs.
use workspace.Base.{
  ◌≡◌, refl, Option, some, List, [], ◌∷◌, Text, Result, ok, err, arith, ◌>>=◌, ◌>>◌, Ensures,
  Ensures-bind, keep_pure, after_modify,
}
use workspace.Domain.Errors.{ObjectId, Problem}
use workspace.Domain.Enums.{RunStatus}
use workspace.Domain.Models.{Run, ProjectVersion}
use workspace.Domain.Snapshot.{RunSnapshot}
use workspace.Store.{Env, World, Op}
use workspace.Store.Runs.{run_update}
use workspace.Runs.Ports.{Ports}
use workspace.Runs.Submit.{submit, submitted}
use workspace.Runs.Create.{launch, reject_problems}
use workspace.Runs.Untouched.{
  SameTables, Untouched, untouched-Ensures, untouched_bind, attach_idempotency-Untouched,
  now-Untouched, record_run_activity-Untouched, told_of_run-Untouched, record_event-Untouched,
  try_submit-Untouched,
}
use workspace.Runs.Limits.{
  WithinLimits, HasRoom, Stored, WithinLimits-same, HasRoom-same, Stored-same,
  write_run-WithinLimits, run_add-WithinLimits, run_add-Stored,
}

-- A step that keeps the limits.
abbrev pub KeepsLimits : {A : Type 0} → Op A → Type 0
KeepsLimits m = Ensures WithinLimits m (λ _. WithinLimits)

pub Untouched-KeepsLimits : {A : Type 0} {m : Op A} → Untouched m → KeepsLimits m
Untouched-KeepsLimits u = untouched-Ensures WithinLimits WithinLimits-same u

abbrev pub StoredWithin : Run → World → Type 0
StoredWithin run w = WithinLimits w × Stored run w

pub StoredWithin-same :
    (run : Run) (w w' : World) → SameTables w w' → StoredWithin run w → StoredWithin run w'
StoredWithin-same run w w' s p = (WithinLimits-same w w' s p.0, Stored-same w w' s run p.1)

abbrev pub Roomy : ObjectId → ObjectId → World → Type 0
Roomy ws plan w = WithinLimits w × HasRoom ws plan w

pub Roomy-same :
    (ws plan : ObjectId) (w w' : World) → SameTables w w' → Roomy ws plan w → Roomy ws plan w'
Roomy-same ws plan w w' s p = (WithinLimits-same w w' s p.0, HasRoom-same w w' s ws plan p.1)

module _ (env : Env) where
  -- Whether the scheduler took the job or not.
  submitted-KeepsLimits :
      (run : Run) (r : Result Text Text)
      → run.status ≡ RunStatus.queued
      → Ensures (StoredWithin run) (submitted env run r) (λ _. WithinLimits)
  unfolding submitted run_update
  submitted-KeepsLimits run (err reason) q =
      untouched_bind _ (StoredWithin-same run) _ _ (now-Untouched env) λ at.
        after_modify _ _ (λ w p. write_run-WithinLimits _ w (λ r found ended. refl) p.0)
          (untouched_bind _ WithinLimits-same _ _ (record_event-Untouched env _ _) λ _.
            untouched_bind _ WithinLimits-same _ _
              (told_of_run-Untouched env _
                (record run {
                  status = RunStatus.submit_failed;
                  failure_reason = reason;
                  finished_at = some at;
                })
                reason)
              λ _. keep_pure _)
  submitted-KeepsLimits run (ok job) q =
      untouched_bind _ (StoredWithin-same run) _ _ (now-Untouched env) λ at.
        after_modify _ _
          (λ w p.
            write_run-WithinLimits _ w (λ r found ended. let stored = p.1 in absurd (ground arith))
              p.0)
          (untouched_bind _ WithinLimits-same _ _ (record_event-Untouched env _ _) λ _. keep_pure _)

module _ (env : Env) (ports : Ports) where
  submit-KeepsLimits :
      (run : Run) (s : RunSnapshot) (version : ProjectVersion) (ws : ObjectId)
      → run.status ≡ RunStatus.queued
      → Ensures (StoredWithin run) (submit env ports run s version ws) (λ _. WithinLimits)
  unfolding submit
  submit-KeepsLimits run s version ws q =
      untouched_bind _ (StoredWithin-same run) _ _ (try_submit-Untouched ports run s version ws)
        λ r. submitted-KeepsLimits env run r q

  -- A run is added where there is room for it.
  pub launch-KeepsLimits :
      (user ws : ObjectId) (key : Option Text) (s : RunSnapshot) (run : Run)
      (version : ProjectVersion)
      → run.status ≡ RunStatus.queued
      → Ensures
          (Roomy run.workspace_id run.compute_plan_id)
          (launch env ports user ws key s run version)
          (λ _. WithinLimits)
  unfolding launch
  launch-KeepsLimits user ws key s run version q =
      Ensures-bind (λ _. StoredWithin run) _ _
        (record {
          at = λ w u w' p h. (run_add-WithinLimits run w w' h p.0 p.1, run_add-Stored run w w' h);
        })
        λ _. untouched_bind _ (StoredWithin-same run) _ _ (record_event-Untouched env _ _) λ _.
          untouched_bind _ (StoredWithin-same run) _ _ (attach_idempotency-Untouched _ _ _) λ _.
            Ensures-bind (λ _. WithinLimits) _ _ (submit-KeepsLimits run s version ws q)
              λ sent.
                untouched_bind _ WithinLimits-same _ _ (record_run_activity-Untouched env _ sent _)
                  λ _. keep_pure _

-- A submission with problems is rejected.
pub after_reject :
    {B : Type 0} {P : World → Type 0} {R : B → World → Type 0} (ps : List Problem) (k : Op B)
    → (ps ≡ [] → Ensures P k R)
    → Ensures P (reject_problems ps >> k) R
unfolding ◌>>=◌
after_reject [] k rest = record { at = λ w b w' p h. (rest refl).at w b w' p h }
after_reject (p ∷ ps) k rest = record { at = λ w b w' q h. absurd (cc) }
