-- ===== src/Tests/Members.antt =====
-- The access guard, the members and the feeds of application/ at the small store.
use workspace.Base.{◌≡◌, refl, false, none, some, text, ok, arith, ◌>>=◌}
use workspace.Domain.Enums.{WorkspaceRole, ActivityAction, TargetType, NotificationType}
use workspace.Domain.Errors.{Kind}
use workspace.Domain.Capabilities.{Capability, capabilities_of}
use workspace.Store.{World}
use workspace.Store.Members.{
  membership_get, membership_by_id, workspace_get, membership_update, workspace_update, user_get,
  write_workspace, write_membership,
}
use workspace.Access.{guard_workspace, guard_project, guard_run}
use workspace.Access.Laws.{
  Outcome, SeesWorkspace, SeesProject, SeesRun, guard_workspace-Outcome, guard_project-Outcome,
  guard_run-Outcome,
}
use workspace.Activities.{Entry, record_activity, publish, Notice}
use workspace.Activities.Laws.{
  KeepsButActivities, record_activity_keeps, KeepsButNotifications, publish_keeps,
}
use workspace.Workspaces.Owned.{IsOwned}
use workspace.Workspaces.Members.{transfer_ownership}
use workspace.Workspaces.Owned.Steps.{MemberStep, MemberHistory, history-IsOwned}
use workspace.Tests.Data.{env, team, store, world_of, membership}

store-IsOwned : IsOwned store
unfolding membership_get membership_by_id workspace_get
store-IsOwned = record {
  keyed = λ ws user m h. ground arith;
  sole = λ ws user m h e. (team, ground arith, refl, ground arith);
  held = λ ws x h p. (
    membership 11 1 WorkspaceRole.owner,
    record { found = ground arith; role = refl; status = refl },
  );
}

-- The owner hands the workspace over to its other member.
abbrev handed_on : World
unfolding ◌>>=◌ transfer_ownership guard_workspace
handed_on = world_of (transfer_ownership env 1 10 2 store)

transfer_returns : transfer_ownership env 1 10 2 store ≡ ok (tt, handed_on)
unfolding ◌>>=◌ transfer_ownership guard_workspace handed_on workspace_get membership_get
    capabilities_of membership_update workspace_update user_get write_workspace write_membership
    publish
transfer_returns = refl

history-IsOwned_example : IsOwned handed_on
history-IsOwned_example =
    history-IsOwned env store handed_on
      (MemberHistory.next MemberHistory.start
        (MemberStep.transfers 1 10 2 handed_on transfer_returns))
      store-IsOwned

-- A stranger, and a member who may look but not submit.
guard_workspace-Outcome_example :
    Outcome
      (SeesWorkspace store 3 10)
      (λ a. a.role)
      none
      Kind.workspace_kind
      10
      (guard_workspace 3 10 none store)
guard_workspace-Outcome_example = guard_workspace-Outcome store 3 10 none

guard_project-Outcome_example :
    Outcome
      (SeesProject store 2 20)
      (λ a. a.role)
      (some Capability.run_submit)
      Kind.project
      20
      (guard_project 2 20 (some Capability.run_submit) store)
guard_project-Outcome_example = guard_project-Outcome store 2 20 (some Capability.run_submit)

guard_run-Outcome_example :
    Outcome
      (SeesRun store 2 30)
      (λ a. a.role)
      (some Capability.run_cancel)
      Kind.run
      30
      (guard_run 2 30 (some Capability.run_cancel) store)
guard_run-Outcome_example = guard_run-Outcome store 2 30 (some Capability.run_cancel)

abbrev entry : Entry
entry = record {
  workspace_id = 10;
  project_id = none;
  action = ActivityAction.member_left;
  target_type = TargetType.member;
  target_id = 2;
  target_name = text "ann";
}

record_activity_keeps_example : KeepsButActivities store (record_activity env 2 entry store)
record_activity_keeps_example = record_activity_keeps env 2 entry store

abbrev notice : Notice
notice = record {
  type = NotificationType.run_failed;
  body = text "exit 1";
  workspace_id = some 10;
  target = none;
  mandatory = false;
}

publish_keeps_example : KeepsButNotifications store (publish env 2 none notice store)
publish_keeps_example = publish_keeps env 2 none notice store
