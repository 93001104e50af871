-- ===== src/Domain/Compute.antt =====
-- domain/compute.py: plans, requests, entitlements and the resolved scheduler configuration.
pub mod Laws
use workspace.Base.{
  ℤ, pos, ltb_ℤ, Bool, true, false, Option, none, some, List, [], ◌∷◌, ◌++◌, Text, text_leb,
  if◌then◌else◌, Result, ok, err,
}
use workspace.Domain.Errors.{
  ObjectId, DomainError, validation_failed, Violation, Problem, Limit, nodes, cpus, memory_mb, gpus,
  time_limit_minutes,
}

pub record SchedulerMapping : Type 0 where
  pub cluster : Text
  pub account : Text
  pub partition : Text
  pub qos : Text

pub record ComputeRequest : Type 0 where
  pub nodes : ℤ
  pub cpus : ℤ
  pub memory_mb : ℤ
  pub gpus : ℤ
  pub time_limit_minutes : ℤ

pub record ComputePlan : Type 0 where
  pub id : ObjectId
  pub code : Text
  pub name : Text
  pub description : Text
  pub default_nodes : ℤ
  pub default_cpus : ℤ
  pub default_memory_mb : ℤ
  pub default_gpus : ℤ
  pub default_time_limit_minutes : ℤ
  pub max_nodes : ℤ
  pub max_cpus : ℤ
  pub max_memory_mb : ℤ
  pub max_gpus : ℤ
  pub max_time_limit_minutes : ℤ
  pub mapping : SchedulerMapping

-- `ComputeRequest.__post_init__`: every construction goes through it.
unfoldable pub new_compute_request : ComputeRequest → Result DomainError ComputeRequest
new_compute_request r =
    if ltb_ℤ r.nodes (pos 1)
    then err (validation_failed (Violation.below_minimum nodes))
    else if ltb_ℤ r.cpus (pos 1)
    then err (validation_failed (Violation.below_minimum cpus))
    else if ltb_ℤ r.memory_mb (pos 1)
    then err (validation_failed (Violation.below_minimum memory_mb))
    else if ltb_ℤ r.gpus (pos 0)
    then err (validation_failed (Violation.below_minimum gpus))
    else if ltb_ℤ r.time_limit_minutes (pos 1)
    then err (validation_failed (Violation.below_minimum time_limit_minutes))
    else ok r

unfoldable pub default_request : ComputePlan → Result DomainError ComputeRequest
default_request plan = new_compute_request (record {
  nodes = plan.default_nodes;
  cpus = plan.default_cpus;
  memory_mb = plan.default_memory_mb;
  gpus = plan.default_gpus;
  time_limit_minutes = plan.default_time_limit_minutes;
})

-- The code compares ISO texts, and an entitlement with no date never expires.
pub record ResourceEntitlement : Type 0 where
  pub id : ObjectId
  pub workspace_id : ObjectId
  pub compute_plan_id : ObjectId
  pub max_concurrent_runs : ℤ
  pub expires_at : Option Text

unfoldable pub is_expired : ResourceEntitlement → Text → Bool
is_expired e now_iso = elim e.expires_at [ none ↦ false | some at ↦ text_leb at now_iso ]

pub record ResolvedSchedulerConfiguration : Type 0 where
  pub cluster : Text
  pub account : Text
  pub partition : Text
  pub qos : Text
  pub nodes : ℤ
  pub cpus : ℤ
  pub memory_mb : ℤ
  pub gpus : ℤ
  pub time_limit_minutes : ℤ

check_limit : Limit → ℤ → ℤ → List Problem
check_limit label requested limit =
    if ltb_ℤ limit requested then Problem.over_limit label requested limit ∷ [] else []

unfoldable pub check_request_against_plan : ComputePlan → ComputeRequest → List Problem
unfolding check_limit
check_request_against_plan plan r =
    check_limit nodes r.nodes plan.max_nodes
    ++ (check_limit cpus r.cpus plan.max_cpus
        ++ (check_limit memory_mb r.memory_mb plan.max_memory_mb
            ++ (check_limit gpus r.gpus plan.max_gpus
                ++ check_limit time_limit_minutes r.time_limit_minutes
                    plan.max_time_limit_minutes)))

unfoldable pub resolved : ComputePlan → ComputeRequest → ResolvedSchedulerConfiguration
resolved plan r = record {
  cluster = plan.mapping.cluster;
  account = plan.mapping.account;
  partition = plan.mapping.partition;
  qos = plan.mapping.qos;
  nodes = r.nodes;
  cpus = r.cpus;
  memory_mb = r.memory_mb;
  gpus = r.gpus;
  time_limit_minutes = r.time_limit_minutes;
}

unfoldable pub resolve_scheduler_configuration :
    ComputePlan → ComputeRequest → Result DomainError ResolvedSchedulerConfiguration
unfolding resolved
resolve_scheduler_configuration plan r = elim (check_request_against_plan plan r) [
  | [] ↦ ok (resolved plan r)
  | p ∷ ps ↦ err (validation_failed (Violation.over_limits (p ∷ ps)))
]
