-- ===== src/Runs/Limits/Submissions.antt =====
-- `create` (application/run_service.py) and the limits of unfinished runs.
use workspace.Base.{
  ◌==◌, ◌≡◌, refl, ◌∙◌, sym, subst, Option, none, some, [], Text, ok, arith, Ensures, Ensures-bind,
  after_reads, skip_gets, after_or_raise, weaken, ends_pure, inl, inr, Bool-cases,
}
use workspace.Domain.Errors.{ObjectId}
use workspace.Domain.Capabilities.{Capability}
use workspace.Domain.Compute.{ComputePlan}
use workspace.Domain.Models.{Run, Project, ProjectVersion}
use workspace.Domain.Snapshot.{RunSnapshot}
use workspace.Domain.Snapshot.Laws.{build_snapshot_contained}
use workspace.Store.{Env, World}
use workspace.Store.Members.Laws.{workspace_get_key}
use workspace.Store.Projects.{project_get}
use workspace.Access.{ProjectAccess, guard_project}
use workspace.Access.Laws.{require_same, guard_project-Outcome}
use workspace.Runs.Ports.{Ports}
use workspace.Runs.Preflight.{
  RunDraft, configuration_of, preflight, resolve_project_version, version_of, version_problems,
}
use workspace.Runs.Create.{create_new, create, replayed_or}
use workspace.Runs.Untouched.{
  SameTables, Untouched, untouched_bind, gets-Untouched, reads-Untouched, raise_if-Untouched,
  or_else_raise-Untouched, raise-Untouched, pure-Untouched, snapshot_add-Untouched,
  new_id-Untouched, now-Untouched, >>=-Untouched,
}
use workspace.Runs.Limits.{WithinLimits, HasRoom, WithinLimits-same}
use workspace.Runs.Limits.Checks.{plan_problems-HasRoom, append_nil, replay_or_reserve-Untouched}
use workspace.Runs.Limits.Launch.{KeepsLimits, Roomy, Roomy-same, launch-KeepsLimits, after_reject}

-- The project is one of this workspace.
record InSpace (project ws : ObjectId) (w : World) : Type 0 where
  row : Project
  found : project_get project w ≡ some row
  of_space : row.workspace_id ≡ ws

guard_project-InSpace :
    (user project : ObjectId) (needs : Option Capability) (w : World) (a : ProjectAccess)
    → guard_project user project needs w ≡ ok a
    → InSpace project a.space.id w
guard_project-InSpace user project needs w a h = elim (guard_project-Outcome w user project needs) [
  | inr (hidden, unseen) ↦ absurd (ground arith)
  | inl (b, sees, e) ↦
      let same = require_same needs b.role b a (sym e ∙ h) in
      let found = sees.visible.space_found in
      let key = workspace_get_key b.project.workspace_id w b.space found in
      subst (λ c. InSpace project c.space.id w) same
        (record { row = b.project; found = sees.project_found; of_space = sym key })
]

InSpace-unique :
    (project ws ws' : ObjectId) (w : World)
    → InSpace project ws w
    → InSpace project ws' w
    → ws ≡ ws'
InSpace-unique project ws ws' w a b =
    let e = a.found in let e' = b.found in let f = a.of_space in let f' = b.of_space in ground arith

abbrev Starting : ObjectId → ObjectId → World → Type 0
Starting project ws w = WithinLimits w × InSpace project ws w

Starting-same :
    (project ws : ObjectId) (w w' : World)
    → SameTables w w'
    → Starting project ws w
    → Starting project ws w'
unfolding project_get
Starting-same project ws w w' s p = (
  WithinLimits-same w w' s p.0,
  record { row = p.1.row; found = rw (s.projects) (p.1.found); of_space = p.1.of_space },
)

pub configuration_of-Untouched :
    (project : ObjectId) (draft : RunDraft) → Untouched (configuration_of project draft)
unfolding configuration_of
configuration_of-Untouched project draft =
    >>=-Untouched _ _ (gets-Untouched _)
      λ found. >>=-Untouched _ _ (raise_if-Untouched _ _) λ _. or_else_raise-Untouched _ _

version_of-Untouched :
    (project i : ObjectId) (o : Option ProjectVersion) → Untouched (version_of project i o)
unfolding version_of
version_of-Untouched project i none = raise-Untouched _
version_of-Untouched project i (some v) = elim (Bool-cases (v.project_id == project)) [
  | inl own ↦ rw own (pure-Untouched (some v))
  | inr other ↦ rw other (raise-Untouched _)
]

pub resolve_project_version-Untouched :
    (project : ObjectId) (i : Option ObjectId) → Untouched (resolve_project_version project i)
unfolding resolve_project_version
resolve_project_version-Untouched project none = gets-Untouched _
resolve_project_version-Untouched project (some i) =
    >>=-Untouched _ _ (gets-Untouched _) λ found. version_of-Untouched project i found

module _ (env : Env) (ports : Ports) where
  -- A preflight without problems has found room on the plan it names.
  preflight-HasRoom :
      (user project ws : ObjectId) (draft : RunDraft)
      → Ensures (Starting project ws) (preflight env user project draft) (λ r w.
        Starting project ws w
        × ((plan : ComputePlan)
            → r.problems ≡ []
            → r.compute_plan ≡ some plan
            → HasRoom ws plan.id w))
  unfolding preflight
  preflight-HasRoom user project ws draft = after_reads _ _ λ access.
      weaken {P' = λ w. Starting project ws w × (ws ≡ access.space.id)}
        (λ w p. (
          p.0,
          InSpace-unique project ws access.space.id w p.0.1
              (guard_project-InSpace user project _ w access p.1),
        ))
        (untouched_bind _ (same access.space.id) _ _ (configuration_of-Untouched project draft) λ c.
          untouched_bind _ (same access.space.id) _ _ (resolve_project_version-Untouched project _)
            λ version. skip_gets _ _ λ environment. skip_gets _ _ λ plan.
              Ensures-bind _ _ _
                (plan_problems-HasRoom _ (same access.space.id) env access.space.id c draft plan)
                λ request. skip_gets _ _ λ variables. skip_gets _ _ λ names. skip_gets _ _ λ inputs.
                  ends_pure _ (λ w p. (
                    p.0.0,
                    λ found none e.
                        let rest = append_nil (version_problems version) _ none in
                        let rest' = append_nil environment.1 _ rest.1 in
                        let quiet = append_nil request.1 _ rest'.1 in
                        subst (λ i. HasRoom i found.id w) (sym p.0.1) (p.1 found e quiet.0),
                  )))
    where
      same :
          (i : ObjectId) (w w' : World)
          → SameTables w w'
          → Starting project ws w × (ws ≡ i)
          → Starting project ws w' × (ws ≡ i)
      same i w w' s p = (Starting-same project ws w w' s p.0, p.1)

  create_new-KeepsLimits :
      (user project ws : ObjectId) (p : Project) (draft : RunDraft) (key : Option Text)
      → Ensures
          (Starting project ws)
          (create_new env ports user project ws p draft key)
          (λ _. WithinLimits)
  unfolding create_new
  create_new-KeepsLimits user project ws p draft key =
      untouched_bind _ (Starting-same project ws) _ _ (configuration_of-Untouched project draft)
        λ c. Ensures-bind _ _ _ (preflight-HasRoom user project ws draft) λ result.
          after_reject _ _ λ quiet. after_or_raise _ _ _ λ version e1.
            after_or_raise _ _ _ λ environment e2. after_or_raise _ _ _ λ plan e3.
              after_or_raise _ _ _ λ request e4.
                weaken {P' = Roomy ws plan.id} (λ w q. (q.0.0, q.1 plan quiet e3))
                  (untouched_bind _ (Roomy-same ws plan.id) _ _ (now-Untouched env) λ at.
                    untouched_bind _ (Roomy-same ws plan.id) _ _ (new_id-Untouched env) λ i.
                      untouched_bind _ (Roomy-same ws plan.id) _ _ (reads-Untouched _) λ scheduler.
                        after_reads _ _ λ s.
                          weaken {P' = Roomy ws s.compute_plan_id}
                            (λ w q.
                              let same = (build_snapshot_contained _ s q.1).0 in
                              subst (λ (x : RunSnapshot). Roomy ws x.compute_plan_id w) same q.0)
                            (untouched_bind _ (Roomy-same ws s.compute_plan_id) _ _
                              (snapshot_add-Untouched s)
                              λ _.
                                untouched_bind _ (Roomy-same ws s.compute_plan_id) _ _
                                  (new_id-Untouched env)
                                  λ j. launch-KeepsLimits env ports user ws key s _ version refl))

  pub create-KeepsLimits :
      (user project : ObjectId) (draft : RunDraft) (key : Option Text)
      → KeepsLimits (create env ports user project draft key)
  unfolding create
  create-KeepsLimits user project draft key = after_reads _ _ λ access.
      weaken {P' = Starting project access.space.id}
        (λ w p. (p.0, guard_project-InSpace user project _ w access p.1))
        (untouched_bind _ (Starting-same project access.space.id) _ _
          (replay_or_reserve-Untouched _ key _ _ _)
          λ replayed. replayed_or-KeepsLimits access replayed)
    where
      replayed_or-KeepsLimits :
          (access : ProjectAccess) (o : Option Run)
          → Ensures
              (Starting project access.space.id)
              (replayed_or env ports o
                (create_new env ports user project access.space.id access.project draft key))
              (λ _. WithinLimits)
      replayed_or-KeepsLimits access none =
          create_new-KeepsLimits user project access.space.id access.project draft key
      replayed_or-KeepsLimits access (some r) = ends_pure _ (λ w p. p.0)
