-- ===== src/Tests/Domain.antt =====
-- The domain layer at small values.
use workspace.Base.{
  ℕ, pos, ◌≡◌, ◌↔◌, ◌≤◌, refl, true, false, none, List, [], ◌∷◌, text, ok, split, replace_char,
}
use workspace.Domain.Enums.{WorkspaceRole}
use workspace.Domain.Capabilities.{Capability, capabilities_of}
use workspace.Domain.Capabilities.Laws.{capabilities_of_iff, rank, needed_rank}
use workspace.Domain.Compute.{new_compute_request, resolve_scheduler_configuration, resolved}
use workspace.Domain.Compute.Laws.{
  IsPositive, Within, Resolves, new_compute_request_iff, resolve_scheduler_configuration_iff,
}
use workspace.Domain.Snapshot.{RunSnapshot, build_snapshot, mentions_parent}
use workspace.Domain.Snapshot.Laws.{StaysBelow, build_snapshot_contained}
use workspace.Domain.Pagination.{has_more, paginate, new_page_request, max_page_size}
use workspace.Domain.Pagination.Laws.{pages, pages_complete, new_page_request_iff}
use workspace.Tests.Data.{request, plan}

capabilities_of_iff_example :
    (capabilities_of WorkspaceRole.member Capability.run_submit ≡ true)
    ↔ (needed_rank Capability.run_submit ≤ rank WorkspaceRole.member)
capabilities_of_iff_example = capabilities_of_iff WorkspaceRole.member Capability.run_submit

new_compute_request_iff_example : (new_compute_request request ≡ ok request) ↔ IsPositive request
new_compute_request_iff_example = new_compute_request_iff request

resolve_scheduler_configuration_iff_example :
    (resolve_scheduler_configuration plan request ≡ ok (resolved plan request))
    ↔ (Within plan request × Resolves plan request (resolved plan request))
resolve_scheduler_configuration_iff_example =
    resolve_scheduler_configuration_iff plan request (resolved plan request)

abbrev snapshot : RunSnapshot
snapshot = record {
  id = 40;
  project_id = 20;
  project_version_id = 80;
  source_run_configuration_id = none;
  working_directory = text "src/train";
  command = text "make";
  environment_version_id = 90;
  environment_image = [];
  environment_setup_command = [];
  env_literals = [];
  env_secret_refs = [];
  input_bindings = [];
  compute_plan_id = 50;
  compute_request = request;
  scheduler = resolved plan request;
  artifact_rules = [];
  created_by = 1;
  created_at = 0;
}

snapshot_builds : build_snapshot snapshot ≡ ok snapshot
unfolding build_snapshot mentions_parent split replace_char
snapshot_builds = refl

build_snapshot_contained_example : (snapshot ≡ snapshot) × StaysBelow (text "src/train")
build_snapshot_contained_example = build_snapshot_contained snapshot snapshot snapshot_builds

abbrev rows : List ℕ
rows = 1 ∷ 2 ∷ 3 ∷ []

no_more : has_more (paginate rows (record { page = 2; page_size = 2 })) ≡ false
unfolding has_more paginate
no_more = refl

pages_complete_example : pages rows 2 2 ≡ rows
pages_complete_example = pages_complete rows 2 2 no_more

new_page_request_iff_example :
    (new_page_request (pos 3) (pos 50) ≡ ok (record { page = 3; page_size = 50 }))
    ↔ ((1 ≤ 3) × (1 ≤ 50) × (50 ≤ max_page_size))
new_page_request_iff_example = new_page_request_iff 3 50
