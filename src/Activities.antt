-- ===== src/Activities.antt =====
-- ActivityRecorder.record of application/activity.py and Notifier of application/notifier.py. Both
-- write inside a SAVEPOINT and swallow what goes wrong there. The texts of a feed entry (detail,
-- title) are left out.
pub mod Laws
use workspace.Base.{
  ◌⊎◌, inl, inr, ℕ, ◌==◌, Bool, true, false, Option, none, some, List, [], ◌∷◌, Text, text,
  if◌then◌else◌, Result, ok, err, find?, ◌>>=◌, ◌>>◌, pure, gets,
}
use workspace.Domain.Errors.{ObjectId, DomainError}
use workspace.Domain.Enums.{ActivityAction, TargetType, NotificationType}
use workspace.Domain.Models.{Time, User, Activity, Notification}
use workspace.Store.{Env, World, Op, new_id, now, nested, insert_row}
use workspace.Store.Members.{user_get}

with_activities : World → Result DomainError (List Activity) → Result DomainError (Unit {0} × World)
with_activities w (ok rows) = ok (tt, record w { activities = rows })
with_activities w (err e) = err e

-- `ActivityRepositoryImpl.add`
activity_add : Activity → Op (Unit {0})
unfolding with_activities insert_row
activity_add a w = with_activities w (insert_row (λ r. r.id == a.id) (λ _. false) a w.activities)

with_notifications :
    World → Result DomainError (List Notification) → Result DomainError (Unit {0} × World)
with_notifications w (ok rows) = ok (tt, record w { notifications = rows })
with_notifications w (err e) = err e

-- `NotificationRepositoryImpl.add`, through `DatabaseNotificationPublisher.publish`
notification_add : Notification → Op (Unit {0})
unfolding with_notifications insert_row
notification_add n w =
    with_notifications w (insert_row (λ r. r.id == n.id) (λ _. false) n w.notifications)

-- `actor.username if actor else actor_id`
name_of : ObjectId → Option User → Text ⊎ ObjectId
name_of actor none = inr actor
name_of actor (some u) = inl u.username

-- What an activity says: the workspace, the project, the action and its object.
pub record Entry : Type 0 where
  pub workspace_id : ObjectId
  pub project_id : Option ObjectId
  pub action : ActivityAction
  pub target_type : TargetType
  pub target_id : ObjectId
  pub target_name : Text

module _ (env : Env) where
  -- `ActivityRecorder.record`
  record_entry : ObjectId → Entry → Op (Unit {0})
  unfolding activity_add name_of user_get
  record_entry actor e = do
    found ← gets (user_get actor)
    i ← new_id env
    at ← now env
    activity_add (record {
      id = i;
      workspace_id = e.workspace_id;
      project_id = e.project_id;
      actor_id = actor;
      actor_name = name_of actor found;
      action = e.action;
      target_type = e.target_type;
      target_id = e.target_id;
      target_name = e.target_name;
      created_at = at;
    })

  unfoldable pub record_activity : ObjectId → Entry → Op (Unit {0})
  unfolding record_entry nested
  record_activity actor e = nested (record_entry actor e)

-- What a notification says.
pub record Notice : Type 0 where
  pub type : NotificationType
  pub body : Text
  pub workspace_id : Option ObjectId
  pub target : Option (TargetType × ObjectId)
  pub mandatory : Bool

-- `actor_id is not None and recipient_id == actor_id`
abbrev pub is_own : Option ObjectId → ObjectId → Bool
is_own none recipient = false
is_own (some actor) recipient = actor == recipient

module _ (env : Env) where
  -- The notification is built before the SAVEPOINT, and published inside it.
  publish_to : ObjectId → Notice → Op (Unit {0})
  unfolding notification_add nested
  publish_to recipient n = do
    i ← new_id env
    at ← now env
    nested (
        notification_add (record {
          id = i;
          recipient_id = recipient;
          type = n.type;
          body = n.body;
          created_at = at;
          workspace_id = n.workspace_id;
          target = n.target;
          mandatory = n.mandatory;
          read_at = none;
        }))

  -- `Notifier._publish`: nobody is told of what he did himself.
  unfoldable pub publish : ObjectId → Option ObjectId → Notice → Op (Unit {0})
  unfolding publish_to
  publish recipient actor n = if is_own actor recipient then pure tt else publish_to recipient n
