-- ===== src/Domain/Compute/Laws.antt =====
-- domain/compute.py: the amounts that a request must reach, and those that a plan allows.
use workspace.Base.{pos, ◌≤ℤ◌, ◌≡◌, ◌↔◌, sym, ap, [], ok, arith}
use workspace.Domain.Compute.{
  ComputeRequest, ComputePlan, ResolvedSchedulerConfiguration, new_compute_request,
  check_request_against_plan, resolve_scheduler_configuration, resolved,
}

-- The least amounts of a request.
pub record IsPositive (r : ComputeRequest) : Type 0 where
  pub nodes_pos : pos 1 ≤ℤ r.nodes
  pub cpus_pos : pos 1 ≤ℤ r.cpus
  pub memory_pos : pos 1 ≤ℤ r.memory_mb
  pub gpus_nonneg : pos 0 ≤ℤ r.gpus
  pub time_pos : pos 1 ≤ℤ r.time_limit_minutes

-- The greatest amounts that a plan allows.
pub record Within (plan : ComputePlan) (r : ComputeRequest) : Type 0 where
  pub nodes_le : r.nodes ≤ℤ plan.max_nodes
  pub cpus_le : r.cpus ≤ℤ plan.max_cpus
  pub memory_le : r.memory_mb ≤ℤ plan.max_memory_mb
  pub gpus_le : r.gpus ≤ℤ plan.max_gpus
  pub time_le : r.time_limit_minutes ≤ℤ plan.max_time_limit_minutes

-- A request is constructed, unchanged, exactly when each amount reaches its minimum.
pub new_compute_request_iff : (r : ComputeRequest) → (new_compute_request r ≡ ok r) ↔ IsPositive r
unfolding new_compute_request
new_compute_request_iff r = (λ h. ground arith, λ h. ground arith)

pub new_compute_request_same : (r s : ComputeRequest) → new_compute_request r ≡ ok s → r ≡ s
unfolding new_compute_request
new_compute_request_same r s h = ground arith

-- No problem is reported exactly when every amount stays within the plan's maximum.
pub check_request_against_plan_iff :
    (plan : ComputePlan) (r : ComputeRequest)
    → (check_request_against_plan plan r ≡ []) ↔ Within plan r
unfolding check_request_against_plan
check_request_against_plan_iff plan r = (λ h. ground arith, λ h. ground arith)

-- The scheduler is told the plan's mapping and the amounts of the request.
pub record Resolves (plan : ComputePlan) (r : ComputeRequest) (c : ResolvedSchedulerConfiguration)
    : Type 0 where
  pub cluster_same : c.cluster ≡ plan.mapping.cluster
  pub account_same : c.account ≡ plan.mapping.account
  pub partition_same : c.partition ≡ plan.mapping.partition
  pub qos_same : c.qos ≡ plan.mapping.qos
  pub nodes_same : c.nodes ≡ r.nodes
  pub cpus_same : c.cpus ≡ r.cpus
  pub memory_same : c.memory_mb ≡ r.memory_mb
  pub gpus_same : c.gpus ≡ r.gpus
  pub time_same : c.time_limit_minutes ≡ r.time_limit_minutes

pub resolve_scheduler_configuration_same :
    (plan : ComputePlan) (r : ComputeRequest) (c : ResolvedSchedulerConfiguration)
    → resolve_scheduler_configuration plan r ≡ ok c
    → c ≡ resolved plan r
unfolding resolve_scheduler_configuration
resolve_scheduler_configuration_same plan r c h = ground arith

resolved_within :
    (plan : ComputePlan) (r : ComputeRequest) (c : ResolvedSchedulerConfiguration)
    → resolve_scheduler_configuration plan r ≡ ok c
    → check_request_against_plan plan r ≡ []
unfolding resolve_scheduler_configuration
resolved_within plan r c h = ground arith

eq-Resolves_iff :
    (plan : ComputePlan) (r : ComputeRequest) (c : ResolvedSchedulerConfiguration)
    → (c ≡ resolved plan r) ↔ Resolves plan r c
unfolding resolved
eq-Resolves_iff plan r c = (
  λ e. record {
    cluster_same = ap (λ x. x.cluster) e;
    account_same = ap (λ x. x.account) e;
    partition_same = ap (λ x. x.partition) e;
    qos_same = ap (λ x. x.qos) e;
    nodes_same = ap (λ x. x.nodes) e;
    cpus_same = ap (λ x. x.cpus) e;
    memory_same = ap (λ x. x.memory_mb) e;
    gpus_same = ap (λ x. x.gpus) e;
    time_same = ap (λ x. x.time_limit_minutes) e;
  },
  λ h. ground arith,
)

-- A configuration is resolved exactly for a request within the plan's maxima, and it is the one with
-- the plan's cluster, account, partition and qos and with the amounts of the request.
pub resolve_scheduler_configuration_iff :
    (plan : ComputePlan) (r : ComputeRequest) (c : ResolvedSchedulerConfiguration)
    → (resolve_scheduler_configuration plan r ≡ ok c) ↔ (Within plan r × Resolves plan r c)
unfolding resolve_scheduler_configuration
resolve_scheduler_configuration_iff plan r c =
    let checked = check_request_against_plan_iff plan r in
    let same = eq-Resolves_iff plan r c in
    (
      λ h. (
        checked.0 (resolved_within plan r c h),
        same.0 (resolve_scheduler_configuration_same plan r c h),
      ),
      λ (within, resolves).
          rw (checked.1 within, resolve_scheduler_configuration) (ap ok (sym (same.1 resolves))),
    )
