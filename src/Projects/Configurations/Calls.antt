-- ===== src/Projects/Configurations/Calls.antt =====
-- The calls of application/run_configuration_service.py, one by one, and the rule about defaults.
use workspace.Base.{
  ◌≤◌, ◌≡◌, refl, sym, ◌∙◌, subst, ◌==◌, true, false, Option, none, some, List, [], ◌∷◌, ◌++◌, Text,
  All, All-map, any, count, count-append, count-any, count-update_first, Bool-cases, inl, inr,
  arith, ok, Ensures, skip_reads, skip_gets, follow, keep_then, keep_pure, after_raise_if,
  after_or_raise, ends_modify, keep_or_raise,
}
use workspace.Domain.Errors.{ObjectId}
use workspace.Domain.Compute.{ComputePlan, ComputeRequest}
use workspace.Domain.Models.{Project, RunConfiguration, InputBinding, ArtifactCollectionRule}
use workspace.Store.{Env, World, new_id, insert_row}
use workspace.Store.Projects.{write_project}
use workspace.Store.Configurations.{
  configuration_add, with_configurations, write_configuration, configuration_update,
}
use workspace.Projects.Configurations.{
  RunConfigurationInput, parse_environment, check_bindings, check_rules, parse_request,
  build_fields, require_plan,
}
use workspace.Projects.Configurations.Defaults.{
  has_row, OwnDefault, IsConsistent, grown, written, has_row-snoc, has_row-last,
  has_row-update_first,
}

module _ {P : World → Type 0} where
  -- What reads only keeps everything.
  parse_environment-keeps : (i : Option ObjectId) → Ensures P (parse_environment i) (λ _. P)
  unfolding parse_environment
  parse_environment-keeps none = keep_pure none
  parse_environment-keeps (some i) = skip_gets _ _ λ found. after_or_raise _ _ _ λ v e. keep_pure _

  check_bindings-keeps :
      (seen : List Text) (bs : List InputBinding) → Ensures P (check_bindings seen bs) (λ _. P)
  unfolding check_bindings
  check_bindings-keeps seen [] = keep_pure tt
  check_bindings-keeps seen (b ∷ bs) =
      after_raise_if _ _ _ λ artifact. after_raise_if _ _ _ λ new. check_bindings-keeps _ bs

  check_rules-keeps :
      (seen : List Text) (rs : List ArtifactCollectionRule)
      → Ensures P (check_rules seen rs) (λ _. P)
  unfolding check_rules
  check_rules-keeps seen [] = keep_pure tt
  check_rules-keeps seen (r ∷ rs) = after_raise_if _ _ _ λ new. check_rules-keeps _ rs

  parse_request-keeps :
      (plan : ComputePlan) (r : Option ComputeRequest) → Ensures P (parse_request plan r) (λ _. P)
  unfolding parse_request
  parse_request-keeps plan none = keep_pure none
  parse_request-keeps plan (some r) =
      skip_reads _ _ λ request. after_raise_if _ _ _ λ fits. keep_pure _

  pub build_fields-keeps :
      (input : RunConfigurationInput) (plan : ComputePlan)
      → Ensures P (build_fields input plan) (λ _. P)
  unfolding build_fields
  build_fields-keeps input plan = after_raise_if _ _ _ λ named. after_raise_if _ _ _ λ commanded.
      skip_reads _ _ λ directory.
        follow _ _ (parse_environment-keeps input.environment_version_id) λ environment.
          skip_reads _ _ λ variables. keep_then _ _ (check_bindings-keeps [] input.input_bindings) (
            follow _ _ (parse_request-keeps plan input.compute_request)
              λ request. keep_then _ _ (check_rules-keeps [] input.artifact_rules) (keep_pure _))

  pub require_plan-keeps : (i : ObjectId) → Ensures P (require_plan i) (λ _. P)
  unfolding require_plan
  require_plan-keeps i = skip_gets _ _ λ found. keep_or_raise _ found

-- Only the tables of projects and configurations count.
IsConsistent-same :
    (w w' : World)
    → w'.projects ≡ w.projects
    → w'.run_configurations ≡ w.run_configurations
    → IsConsistent w
    → IsConsistent w'
IsConsistent-same w w' e e1 c = record {
  defaults =
      subst (All (λ p. OwnDefault w'.run_configurations p.id p.default_run_configuration_id))
        (sym e)
        (subst (λ rows. All (λ p. OwnDefault rows p.id p.default_run_configuration_id) w.projects)
          (sym e1) c.defaults);
  projects = λ i. subst (λ ps. count (λ p. p.id == i) ps ≤ 1) (sym e) (c.projects i);
  configurations =
      λ i. subst (λ rows. count (λ r. r.id == i) rows ≤ 1) (sym e1) (c.configurations i);
}

pub new_id-IsConsistent : (env : Env) → Ensures IsConsistent (new_id env) (λ _. IsConsistent)
new_id-IsConsistent env = record {
  at = λ w a w' c h. IsConsistent-same w w' (ground (arith)) (ground (arith)) c;
}

any-false : {A : Type 0} (xs : List A) → any (λ _. false) xs ≡ false
any-false [] = refl
any-false (x ∷ xs) = any-false xs

configuration_add-rows :
    (c : RunConfiguration) (w w' : World)
    → configuration_add c w ≡ ok (tt, w')
    → (any (λ r. r.id == c.id) w.run_configurations ≡ false)
      × (w' ≡ record w { run_configurations = w.run_configurations ++ c ∷ [] })
unfolding configuration_add with_configurations insert_row
configuration_add-rows c w w' h =
    let free = any-false w.run_configurations in
    elim (Bool-cases (any (λ r. r.id == c.id) w.run_configurations)) [
      | inl e ↦ absurd (ground (arith))
      | inr e ↦ (e, ground (arith))
    ]

keyed_snoc :
    (c : RunConfiguration) (rows : List RunConfiguration) (i : ObjectId)
    → any (λ r. r.id == c.id) rows ≡ false
    → count (λ r. r.id == i) rows ≤ 1
    → count (λ r. r.id == i) (rows ++ c ∷ []) ≤ 1
keyed_snoc c rows i free one =
    let parts = count-append (λ r. r.id == i) rows (c ∷ []) in
    elim (Bool-cases (c.id == i)) [
      | inl e ↦
          let same : c.id ≡ i = ground (arith) in
          let none_there =
            count-any (λ r. r.id == i) rows
              (subst (λ x. any (λ r. r.id == x) rows ≡ false) same free) in
          ground (arith)
      | inr e ↦ ground (arith)
    ]

added-IsConsistent :
    (c : RunConfiguration) (w : World)
    → any (λ r. r.id == c.id) w.run_configurations ≡ false
    → IsConsistent w
    → IsConsistent (record w { run_configurations = w.run_configurations ++ c ∷ [] })
added-IsConsistent c w free k = record {
  defaults =
      All-map
        (grown w.run_configurations (w.run_configurations ++ c ∷ [])
          (λ i project. has_row-snoc i project c w.run_configurations))
        w.projects k.defaults;
  projects = k.projects;
  configurations = λ i. keyed_snoc c w.run_configurations i free (k.configurations i);
}

pub configuration_add-IsConsistent :
    (c : RunConfiguration)
    → Ensures IsConsistent
        (configuration_add c)
        (λ _ w. IsConsistent w × (has_row c.id c.project_id w.run_configurations ≡ true))
configuration_add-IsConsistent c = record {
  at = λ w a w' k h.
      let (free, e) = configuration_add-rows c w w' h in
      subst (λ x. IsConsistent x × (has_row c.id c.project_id x.run_configurations ≡ true)) (sym e)
        (added-IsConsistent c w free k, has_row-last c w.run_configurations);
}

pub configuration_update-IsConsistent :
    (c : RunConfiguration) → Ensures IsConsistent (configuration_update c) (λ _. IsConsistent)
unfolding configuration_update write_configuration
configuration_update-IsConsistent c = ends_modify _ (λ w k. record {
  defaults =
      All-map
        (grown w.run_configurations _ (λ i project h.
          has_row-update_first i project (λ r. r.id == c.id) _ (λ r. (refl, refl))
            w.run_configurations
          ∙ h))
        w.projects k.defaults;
  projects = k.projects;
  configurations = λ i.
      subst (λ n. n ≤ 1)
        (sym (
          count-update_first (λ r. r.id == i) (λ r. r.id == c.id) _ (λ r. refl)
            w.run_configurations))
        (k.configurations i);
})

pub project_update-IsConsistent :
    (q : Project) (w : World)
    → OwnDefault w.run_configurations q.id q.default_run_configuration_id
    → IsConsistent w
    → IsConsistent (write_project q w)
unfolding write_project
project_update-IsConsistent q w own c = record {
  defaults = written w.run_configurations q own w.projects c.defaults;
  projects = λ i.
      subst (λ n. n ≤ 1)
        (sym (count-update_first (λ p. p.id == i) (λ p. p.id == q.id) _ (λ r. refl) w.projects))
        (c.projects i);
  configurations = c.configurations;
}
