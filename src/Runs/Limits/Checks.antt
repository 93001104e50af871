-- ===== src/Runs/Limits/Checks.antt =====
-- `preflight` and `_revalidate_snapshot` (application/run_service.py): the room that they look for.
use workspace.Base.{
  ◌≡◌, refl, ◌∙◌, subst, Bool, true, false, Option, none, some, List, [], ◌∷◌, ◌++◌, Text, arith,
  gets, pure, Ensures, Ensures-bind, ends_pure, ends_gets, after_reads, after_gets, find?-passes,
  ltb_ℤ, pos, if◌then◌else◌, ◌==◌, ◌&&◌,
}
use workspace.Domain.Errors.{ObjectId, DomainError, Problem}
use workspace.Domain.Compute.{ComputePlan, ComputeRequest, ResourceEntitlement}
use workspace.Domain.Models.{RunConfiguration, Endpoint, IdempotencyRecord}
use workspace.Store.{Env, World, now}
use workspace.Store.Runs.{entitlement_get_for_plan, count_unfinished_for_plan}
use workspace.Runs.Idempotency.{replay_or_reserve, replay_key, replay_found, replay, replay_run}
use workspace.Runs.Preflight.{
  RunDraft, check_concurrency, check_entitlement, entitlement_problems, plan_problems,
  source_plan_problems,
}
use workspace.Runs.Untouched.{
  SameTables, Untouched, untouched-Ensures, >>=-Untouched, gets-Untouched, pure-Untouched,
  raise-Untouched, or_else_raise-Untouched, raise_if-Untouched, now-Untouched,
  idempotency_reserve-Untouched,
}
use workspace.Runs.Limits.{HasRoom, same_entitlement}

-- Two checks that report nothing together report nothing each.
pub append_nil : {A : Type 0} (xs ys : List A) → xs ++ ys ≡ [] → (xs ≡ []) × (ys ≡ [])
append_nil [] ys h = (refl, h)
append_nil (x ∷ xs) ys h = absurd (cc)

module _ (P : World → Type 0) (P_same : (w w' : World) → SameTables w w' → P w → P w')
    (env : Env) where
  check_concurrency-HasRoom :
      (ws plan : ObjectId) (e : ResourceEntitlement) (w : World)
      → entitlement_get_for_plan ws plan w ≡ some e
      → check_concurrency ws e w ≡ []
      → HasRoom ws plan w
  unfolding check_concurrency entitlement_get_for_plan
  check_concurrency-HasRoom ws plan e w found h =
      let hit =
        find?-passes
          (λ (r : ResourceEntitlement). (r.workspace_id == ws) && (r.compute_plan_id == plan))
          w.entitlements e found in
      let same : e.compute_plan_id ≡ plan = ground arith in
      let room : ltb_ℤ (pos (count_unfinished_for_plan ws e.compute_plan_id w))
            e.max_concurrent_runs
          ≡ true =
        ground arith in
      record {
        entitlement = e;
        granted = found;
        room =
            subst (λ p. ltb_ℤ (pos (count_unfinished_for_plan ws p w)) e.max_concurrent_runs ≡ true)
              same room;
      }

  judged :
      (ws plan : ObjectId) (e : ResourceEntitlement) (old : Bool)
      → Ensures {E = DomainError}
          (λ w. P w × (entitlement_get_for_plan ws plan w ≡ some e))
          (if old then pure (Problem.entitlement_expired ∷ []) else gets (check_concurrency ws e))
          (λ ps w. P w × (ps ≡ [] → HasRoom ws plan w))
  judged ws plan e true = ends_pure _ (λ w p. (p.0, λ k. absurd (cc)))
  judged ws plan e false =
      ends_gets _ (λ w p. (p.0, λ k. check_concurrency-HasRoom ws plan e w p.1 k))

  entitlement_problems-HasRoom :
      (ws plan : ObjectId) (missing : Problem) (o : Option ResourceEntitlement)
      → Ensures
          (λ w. P w × (entitlement_get_for_plan ws plan w ≡ o))
          (entitlement_problems env ws missing o)
          (λ ps w. P w × (ps ≡ [] → HasRoom ws plan w))
  unfolding entitlement_problems
  entitlement_problems-HasRoom ws plan missing none = ends_pure _ (λ w p. (p.0, λ k. absurd (cc)))
  entitlement_problems-HasRoom ws plan missing (some e) =
      Ensures-bind (λ _ w. P w × (entitlement_get_for_plan ws plan w ≡ some e)) (now env) _
        (untouched-Ensures _
          (λ w w' s p. (P_same w w' s p.0, same_entitlement w w' s ws plan ∙ p.1))
          (now-Untouched env))
        λ at. judged ws plan e _

  pub check_entitlement-HasRoom :
      (ws plan : ObjectId) (missing : Problem)
      → Ensures P
          (check_entitlement env ws plan missing)
          (λ ps w. P w × (ps ≡ [] → HasRoom ws plan w))
  unfolding check_entitlement
  check_entitlement-HasRoom ws plan missing =
      after_gets _ _ λ o. entitlement_problems-HasRoom ws plan missing o

  pub plan_problems-HasRoom :
      (ws : ObjectId) (c : RunConfiguration) (draft : RunDraft) (o : Option ComputePlan)
      → Ensures P
          (plan_problems env ws c draft o)
          (λ r w. P w × ((plan : ComputePlan) → o ≡ some plan → r.1 ≡ [] → HasRoom ws plan.id w))
  unfolding plan_problems
  plan_problems-HasRoom ws c draft none = ends_pure _ (λ w p. (p, λ plan k. absurd (cc)))
  plan_problems-HasRoom ws c draft (some plan) =
      Ensures-bind _ _ _ (check_entitlement-HasRoom ws plan.id _) λ ps. after_reads _ _ λ request.
        ends_pure _ (λ w p. (
          p.0.0,
          λ q k z.
              let same : plan ≡ q = ground arith in
              subst (λ x. HasRoom ws x.id w) same (p.0.1 ((append_nil ps _ z).0)),
        ))

  pub source_plan_problems-HasRoom :
      (ws : ObjectId) (request : ComputeRequest) (o : Option ComputePlan)
      → Ensures P
          (source_plan_problems env ws request o)
          (λ ps w. P w × ((plan : ComputePlan) → o ≡ some plan → ps ≡ [] → HasRoom ws plan.id w))
  unfolding source_plan_problems
  source_plan_problems-HasRoom ws request none = ends_pure _ (λ w p. (p, λ plan k. absurd (cc)))
  source_plan_problems-HasRoom ws request (some plan) =
      Ensures-bind _ _ _ (check_entitlement-HasRoom ws plan.id _) λ ps. ends_pure _ (λ w p. (
        p.0,
        λ q k z.
            let same : plan ≡ q = ground arith in
            subst (λ x. HasRoom ws x.id w) same (p.1 ((append_nil ps _ z).0)),
      ))

replay_run-Untouched :
    (project source i : Option ObjectId) → Untouched (replay_run project source i)
unfolding replay_run
replay_run-Untouched project source none = raise-Untouched _
replay_run-Untouched project source (some i) = >>=-Untouched _ _ (gets-Untouched _) λ found.
    >>=-Untouched _ _ (or_else_raise-Untouched _ _) λ run.
      >>=-Untouched _ _ (raise_if-Untouched _ _)
        λ _. >>=-Untouched _ _ (raise_if-Untouched _ _) λ _. pure-Untouched _

replay-Untouched :
    (endpoint : Endpoint) (project source : Option ObjectId) (r : IdempotencyRecord)
    → Untouched (replay endpoint project source r)
unfolding replay
replay-Untouched endpoint project source r =
    >>=-Untouched _ _ (raise_if-Untouched _ _) λ _. replay_run-Untouched project source r.run_id

replay_found-Untouched :
    (ws : ObjectId) (key : Text) (endpoint : Endpoint) (project source : Option ObjectId)
    (o : Option IdempotencyRecord)
    → Untouched (replay_found ws key endpoint project source o)
unfolding replay_found
replay_found-Untouched ws key endpoint project source none =
    >>=-Untouched _ _ (idempotency_reserve-Untouched _ _ _) λ _. pure-Untouched _
replay_found-Untouched ws key endpoint project source (some r) =
    replay-Untouched endpoint project source r

pub replay_or_reserve-Untouched :
    (ws : ObjectId) (key : Option Text) (endpoint : Endpoint) (project source : Option ObjectId)
    → Untouched (replay_or_reserve ws key endpoint project source)
unfolding replay_or_reserve replay_key
replay_or_reserve-Untouched ws none endpoint project source = pure-Untouched _
replay_or_reserve-Untouched ws (some []) endpoint project source = pure-Untouched _
replay_or_reserve-Untouched ws (some (c ∷ key)) endpoint project source =
    >>=-Untouched _ _ (gets-Untouched _)
      λ found. replay_found-Untouched ws (c ∷ key) endpoint project source found
