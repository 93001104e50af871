-- ===== src/Activities/Laws.antt =====
-- application/activity.py and application/notifier.py: what the feeds leave of the other tables.
use workspace.Base.{ℕ, ◌≡◌, refl, inl, inr, Option, List, Result, ok, err, Bool-cases, ◌>>=◌}
use workspace.Domain.Errors.{ObjectId, DomainError}
use workspace.Domain.Models.{Activity, Notification}
use workspace.Store.{Env, World, nested_result}
use workspace.Activities.{
  Entry, Notice, is_own, record_activity, publish, with_activities, with_notifications,
}

-- A call from `w` that returns, and has written to the activities at most.
pub record KeepsButActivities (w : World) (r : Result DomainError (Unit {0} × World)) : Type 0 where
  pub rows : List Activity
  pub calls : ℕ
  pub returns : r ≡ ok (tt, record w { activities = rows; calls = calls })

-- A call from `w` that returns, and has written to the notifications at most.
pub record KeepsButNotifications (w : World) (r : Result DomainError (Unit {0} × World))
    : Type 0 where
  pub rows : List Notification
  pub calls : ℕ
  pub returns : r ≡ ok (tt, record w { notifications = rows; calls = calls })

module _ (w : World) (n : ℕ) where
  activities_kept :
      (r : Result DomainError (List Activity))
      → KeepsButActivities w (nested_result w (with_activities (record w { calls = n }) r))
  unfolding with_activities nested_result
  activities_kept (ok rows) = record { rows = rows; calls = n; returns = refl }
  activities_kept (err x) = record { rows = w.activities; calls = w.calls; returns = refl }

  notifications_kept :
      (r : Result DomainError (List Notification)) (v : World)
      → v ≡ record w { calls = n }
      → KeepsButNotifications w (nested_result v (with_notifications v r))
  unfolding with_notifications nested_result
  notifications_kept (ok rows) v e = record { rows = rows; calls = n; returns = rw e }
  notifications_kept (err x) v e = record { rows = w.notifications; calls = n; returns = rw e }

-- Whatever the table holds, recording an activity returns and changes no other table.
pub record_activity_keeps :
    (env : Env) (actor : ObjectId) (e : Entry) (w : World)
    → KeepsButActivities w (record_activity env actor e w)
unfolding record_activity ◌>>=◌
record_activity_keeps env actor e w = activities_kept w _ _

-- Whatever the table holds, publishing returns and changes no other table than the notifications.
pub publish_keeps :
    (env : Env) (recipient : ObjectId) (actor : Option ObjectId) (n : Notice) (w : World)
    → KeepsButNotifications w (publish env recipient actor n w)
unfolding publish ◌>>=◌
publish_keeps env recipient actor n w = elim (Bool-cases (is_own actor recipient)) [
  | inl own ↦ record { rows = w.notifications; calls = w.calls; returns = rw own }
  | inr other ↦ rw other (notifications_kept w _ _ _ refl)
]
