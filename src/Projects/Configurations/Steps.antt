-- ===== src/Projects/Configurations/Steps.antt =====
-- The calls of application/run_configuration_service.py in any order, and the rule about defaults.
use workspace.Base.{
  ◌≡◌, sym, ap, ◌∙◌, subst, true, Option, none, some, inl, inr, ok, Ensures, Ensures-bind,
  after_reads, skip_reads, follow, keep_then, ends_pure, ends_modify, weaken, learn,
}
use workspace.Domain.Errors.{ObjectId}
use workspace.Domain.Capabilities.{Capability}
use workspace.Domain.Models.{Project, RunConfiguration}
use workspace.Store.{Env, World}
use workspace.Store.Projects.{project_get, project_update}
use workspace.Access.{ProjectAccess, guard_project}
use workspace.Access.Laws.{guard_project-Outcome, require_same}
use workspace.Projects.Configurations.{
  RunConfigurationInput, default_if_none, update_configuration, delete_configuration,
  create_configuration,
}
use workspace.Projects.Configurations.Defaults.{has_row, IsConsistent}
use workspace.Projects.Configurations.Calls.{
  build_fields-keeps, require_plan-keeps, new_id-IsConsistent, configuration_add-IsConsistent,
  configuration_update-IsConsistent, project_update-IsConsistent,
}
use workspace.Projects.Configurations.Deletion.{
  project_get-id, get_configuration-found, delete_configuration-IsConsistent,
}

guard_project-found :
    (user i : ObjectId) (needs : Option Capability) (w : World) (a : ProjectAccess)
    → guard_project user i needs w ≡ ok a
    → project_get i w ≡ some a.project
guard_project-found user i needs w a h = elim (guard_project-Outcome w user i needs) [
  | inl (b, sees, e) ↦
      sees.project_found ∙ ap (λ x. some x.project) (require_same needs b.role b a (sym e ∙ h))
  | inr (e, _) ↦ absurd (cc)
]

default_if_none-IsConsistent :
    (p : Project) (d : Option ObjectId) (i : ObjectId)
    → Ensures
        (λ w. IsConsistent w × (has_row i p.id w.run_configurations ≡ true))
        (default_if_none p d i)
        (λ _. IsConsistent)
unfolding default_if_none project_update
default_if_none-IsConsistent p none i = ends_modify _ (λ w k.
    project_update-IsConsistent (record p { default_run_configuration_id = some i }) w k.1 k.0)
default_if_none-IsConsistent p (some d) i = ends_pure tt (λ w k. k.0)

create_configuration-IsConsistent :
    (env : Env) (user project : ObjectId) (input : RunConfigurationInput)
    → Ensures IsConsistent (create_configuration env user project input) (λ _. IsConsistent)
unfolding create_configuration
create_configuration-IsConsistent env user project input = after_reads _ _ λ access.
    learn (access.project.id ≡ project)
      (λ w k.
        project_get-id project w access.project (guard_project-found user project _ w access k.1))
      λ same.
        weaken (λ w k. k.0)
          (follow _ _ (require_plan-keeps input.compute_plan_id) λ plan.
            follow _ _ (build_fields-keeps input plan) λ parsed.
              follow _ _ (new_id-IsConsistent env) λ i.
                Ensures-bind _ _ _ (configuration_add-IsConsistent _) λ _.
                  weaken
                    (λ w k.
                      (k.0, subst (λ x. has_row i x w.run_configurations ≡ true) (sym same) k.1))
                    (Ensures-bind (λ _. IsConsistent) _ _
                      (default_if_none-IsConsistent access.project
                        access.project.default_run_configuration_id i)
                      (λ _. ends_pure _ (λ w k. k))))

update_configuration-IsConsistent :
    (user i : ObjectId) (input : RunConfigurationInput)
    → Ensures IsConsistent (update_configuration user i input) (λ _. IsConsistent)
unfolding update_configuration
update_configuration-IsConsistent user i input =
    Ensures-bind _ _ _ (get_configuration-found user i) λ c.
      weaken (λ w k. k.0)
        (skip_reads _ _ λ access. follow _ _ (require_plan-keeps input.compute_plan_id) λ plan.
          follow _ _ (build_fields-keeps input plan)
            λ parsed. keep_then _ _ (configuration_update-IsConsistent _) (ends_pure _ (λ w k. k)))

module _ (env : Env) where
  -- One committed call, by whatever user.
  pub data ConfigurationStep (w : World) : World → Type 0 where
    creates :
        (user project : ObjectId) (input : RunConfigurationInput) (c : RunConfiguration)
        (w' : World)
        → create_configuration env user project input w ≡ ok (c, w')
        → ConfigurationStep w w'
    updates :
        (user i : ObjectId) (input : RunConfigurationInput) (c : RunConfiguration) (w' : World)
        → update_configuration user i input w ≡ ok (c, w')
        → ConfigurationStep w w'
    deletes :
        (user i : ObjectId) (w' : World)
        → delete_configuration user i w ≡ ok (tt, w')
        → ConfigurationStep w w'

  -- Any number of them.
  pub data ConfigurationHistory (w : World) : World → Type 0 where
    start : ConfigurationHistory w w
    next :
        {v v' : World}
        → ConfigurationHistory w v
        → ConfigurationStep v v'
        → ConfigurationHistory w v'

  step-IsConsistent : (w w' : World) → ConfigurationStep w w' → IsConsistent w → IsConsistent w'
  step-IsConsistent w _ (ConfigurationStep.creates user project input c w' h) k =
      (create_configuration-IsConsistent env user project input).at w c w' k h
  step-IsConsistent w _ (ConfigurationStep.updates user i input c w' h) k =
      (update_configuration-IsConsistent user i input).at w c w' k h
  step-IsConsistent w _ (ConfigurationStep.deletes user i w' h) k =
      (delete_configuration-IsConsistent user i).at w tt w' k h

  pub history-IsConsistent :
      (w w' : World) → ConfigurationHistory w w' → IsConsistent w → IsConsistent w'
  history-IsConsistent w _ ConfigurationHistory.start k = k
  history-IsConsistent w w' (ConfigurationHistory.next {v = v} h s) k =
      step-IsConsistent v w' s (history-IsConsistent w v h k)
