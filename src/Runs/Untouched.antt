-- ===== src/Runs/Untouched.antt =====
-- The steps of application/run_service.py and application/run_lifecycle.py that leave the tables of
-- runs, entitlements, projects and plans alone.
use workspace.Base.{
  ℕ, ◌≡◌, ◌∙◌, Bool, true, false, Option, none, some, Text, Result, ok, err, arith, ◌>>=◌, pure,
  raise, reads, gets, modify, raise_if, or_else_raise, >>=-eq-ok, Ensures, Ensures-bind,
}
use workspace.Domain.Errors.{ObjectId, DomainError}
use workspace.Domain.Enums.{RunEventType, ActivityAction, NotificationType}
use workspace.Domain.Models.{Run, RunEvent, ProjectVersion, Endpoint, Artifact}
use workspace.Domain.Snapshot.{RunSnapshot}
use workspace.Store.{Env, World, Op, new_id, now}
use workspace.Store.Runs.{
  snapshot_add, event_add, artifact_add, idempotency_reserve, idempotency_attach_run,
}
use workspace.Activities.{Entry, Notice, record_activity, publish}
use workspace.Activities.Laws.{record_activity_keeps, publish_keeps}
use workspace.Runs.Ports.{Ports, RunPaths, call, try_call}
use workspace.Runs.Idempotency.{attach_idempotency}
use workspace.Runs.Submit.{
  record_event, record_run_activity, told_of_run, try_submit, submit_prepared,
}

pub record SameTables (w w' : World) : Type 0 where
  pub runs : w'.runs ≡ w.runs
  pub entitlements : w'.entitlements ≡ w.entitlements
  pub projects : w'.projects ≡ w.projects
  pub plans : w'.compute_plans ≡ w.compute_plans

pub record Untouched {A : Type 0} (m : Op A) : Type 0 where
  pub at : (w : World) (a : A) (w' : World) → m w ≡ ok (a, w') → SameTables w w'

module _ {A : Type 0} where
  pub untouched-Ensures :
      (P : World → Type 0)
      → ((w w' : World) → SameTables w w' → P w → P w')
      → {m : Op A} → Untouched m
      → Ensures P m (λ _. P)
  untouched-Ensures P same u = record { at = λ w a w' p h. same w w' (u.at w a w' h) p }

  pub pure-Untouched : (a : A) → Untouched (pure a)
  unfolding ◌>>=◌
  pure-Untouched a = record {
    at = λ w b w' h. record {
      runs = ground arith;
      entitlements = ground arith;
      projects = ground arith;
      plans = ground arith;
    };
  }

  pub raise-Untouched : (e : DomainError) → Untouched (raise {A = A} e)
  unfolding ◌>>=◌
  raise-Untouched e = record { at = λ w b w' h. absurd (cc) }

  pub gets-Untouched : (f : World → A) → Untouched (gets f)
  unfolding ◌>>=◌
  gets-Untouched f = record {
    at = λ w b w' h. record {
      runs = ground arith;
      entitlements = ground arith;
      projects = ground arith;
      plans = ground arith;
    };
  }

  pub or_else_raise-Untouched : (e : DomainError) (o : Option A) → Untouched (or_else_raise e o)
  unfolding ◌>>=◌
  or_else_raise-Untouched e none = record { at = λ w b w' h. absurd (cc) }
  or_else_raise-Untouched e (some a) = record {
    at = λ w b w' h. record {
      runs = ground arith;
      entitlements = ground arith;
      projects = ground arith;
      plans = ground arith;
    };
  }

  pub reads-Untouched : (f : World → Result DomainError A) → Untouched (reads f)
  unfolding ◌>>=◌
  reads-Untouched f = record { at = λ w b w' h. go w b w' (f w) h }
    where
      go :
          (w : World) (b : A) (w' : World) (r : Result DomainError A)
          → reads (λ _. r) w ≡ ok (b, w')
          → SameTables w w'
      go w b w' (ok a) h = record {
        runs = ground arith;
        entitlements = ground arith;
        projects = ground arith;
        plans = ground arith;
      }
      go w b w' (err e) h = absurd (cc)

  pub call-Untouched : (f : ℕ → Result Text A) → Untouched (call f)
  unfolding call
  call-Untouched f = record { at = λ w b w' h. go w b w' (f w.calls) h }
    where
      go :
          (w : World) (b : A) (w' : World) (r : Result Text A)
          → call (λ _. r) w ≡ ok (b, w')
          → SameTables w w'
      go w b w' (ok a) h = record {
        runs = ground arith;
        entitlements = ground arith;
        projects = ground arith;
        plans = ground arith;
      }
      go w b w' (err e) h = absurd (cc)

  pub try_call-Untouched : (f : ℕ → Result Text A) → Untouched (try_call f)
  unfolding try_call
  try_call-Untouched f = record {
    at = λ w b w' h. record {
      runs = ground arith;
      entitlements = ground arith;
      projects = ground arith;
      plans = ground arith;
    };
  }

module _ {A B : Type 0} where
  pub >>=-Untouched :
      (m : Op A) (f : A → Op B) → Untouched m → ((a : A) → Untouched (f a)) → Untouched (m >>= f)
  >>=-Untouched m f um uf = record {
    at = λ w b w' h.
        let (a, v, e, k) = >>=-eq-ok m f w h in
        let s = um.at w a v e in
        let t = (uf a).at v b w' k in
        record {
          runs = t.runs ∙ s.runs;
          entitlements = t.entitlements ∙ s.entitlements;
          projects = t.projects ∙ s.projects;
          plans = t.plans ∙ s.plans;
        };
  }

-- A step that keeps `P`, since `P` reads these tables only.
module _ {A B : Type 0} (P : World → Type 0)
    (P_same : (w w' : World) → SameTables w w' → P w → P w') where
  pub untouched_bind :
      {R : B → World → Type 0} (m : Op A) (f : A → Op B)
      → Untouched m
      → ((a : A) → Ensures P (f a) R)
      → Ensures P (m >>= f) R
  untouched_bind m f u rest = Ensures-bind (λ _. P) m f (untouched-Ensures P P_same u) rest

pub raise_if-Untouched : (c : Bool) (e : DomainError) → Untouched (raise_if c e)
unfolding ◌>>=◌
raise_if-Untouched true e = record { at = λ w b w' h. absurd (cc) }
raise_if-Untouched false e = record {
  at = λ w b w' h. record {
    runs = ground arith;
    entitlements = ground arith;
    projects = ground arith;
    plans = ground arith;
  };
}

pub snapshot_add-Untouched : (s : RunSnapshot) → Untouched (snapshot_add s)
unfolding snapshot_add
snapshot_add-Untouched s = record {
  at = λ w b w' h. record {
    runs = ground arith;
    entitlements = ground arith;
    projects = ground arith;
    plans = ground arith;
  };
}

event_add-Untouched : (e : RunEvent) → Untouched (event_add e)
unfolding event_add
event_add-Untouched e = record {
  at = λ w b w' h. record {
    runs = ground arith;
    entitlements = ground arith;
    projects = ground arith;
    plans = ground arith;
  };
}

pub artifact_add-Untouched : (a : Artifact) → Untouched (artifact_add a)
unfolding artifact_add
artifact_add-Untouched a = record {
  at = λ w b w' h. record {
    runs = ground arith;
    entitlements = ground arith;
    projects = ground arith;
    plans = ground arith;
  };
}

pub idempotency_reserve-Untouched :
    (ws : ObjectId) (key : Text) (endpoint : Endpoint)
    → Untouched (idempotency_reserve ws key endpoint)
unfolding idempotency_reserve
idempotency_reserve-Untouched ws key endpoint = record {
  at = λ w b w' h. record {
    runs = ground arith;
    entitlements = ground arith;
    projects = ground arith;
    plans = ground arith;
  };
}

pub attach_idempotency-Untouched :
    (ws : ObjectId) (key : Option Text) (run : ObjectId)
    → Untouched (modify (attach_idempotency ws key run))
unfolding ◌>>=◌ attach_idempotency idempotency_attach_run
attach_idempotency-Untouched ws key run = record {
  at = λ w b w' h. record {
    runs = ground arith;
    entitlements = ground arith;
    projects = ground arith;
    plans = ground arith;
  };
}

module _ (env : Env) where
  pub new_id-Untouched : Untouched (new_id env)
  new_id-Untouched = record {
    at = λ w b w' h. record {
      runs = ground arith;
      entitlements = ground arith;
      projects = ground arith;
      plans = ground arith;
    };
  }

  pub now-Untouched : Untouched (now env)
  now-Untouched = record {
    at = λ w b w' h. record {
      runs = ground arith;
      entitlements = ground arith;
      projects = ground arith;
      plans = ground arith;
    };
  }

  record_activity-Untouched :
      (actor : ObjectId) (e : Entry) → Untouched (record_activity env actor e)
  record_activity-Untouched actor e = record {
    at = λ w b w' h.
        let kept = record_activity_keeps env actor e w in
        let done = kept.returns in
        record {
          runs = ground arith;
          entitlements = ground arith;
          projects = ground arith;
          plans = ground arith;
        };
  }

  pub record_run_activity-Untouched :
      (user : ObjectId) (run : Run) (action : ActivityAction)
      → Untouched (record_run_activity env user run action)
  unfolding record_run_activity
  record_run_activity-Untouched user run action = record_activity-Untouched user _

  publish-Untouched :
      (recipient : ObjectId) (actor : Option ObjectId) (n : Notice)
      → Untouched (publish env recipient actor n)
  publish-Untouched recipient actor n = record {
    at = λ w b w' h.
        let kept = publish_keeps env recipient actor n w in
        let done = kept.returns in
        record {
          runs = ground arith;
          entitlements = ground arith;
          projects = ground arith;
          plans = ground arith;
        };
  }

  pub told_of_run-Untouched :
      (type : NotificationType) (run : Run) (reason : Text)
      → Untouched (told_of_run env type run reason)
  unfolding told_of_run
  told_of_run-Untouched type run reason = publish-Untouched _ _ _

  pub record_event-Untouched :
      (run : ObjectId) (type : RunEventType) → Untouched (record_event env run type)
  unfolding record_event
  record_event-Untouched run type =
      >>=-Untouched _ _ new_id-Untouched
        λ i. >>=-Untouched _ _ now-Untouched λ at. event_add-Untouched _

module _ (ports : Ports) where
  submit_prepared-Untouched :
      (run : Run) (s : RunSnapshot) (ws : ObjectId) (r : Result Text RunPaths)
      → Untouched (submit_prepared ports run s ws r)
  unfolding submit_prepared
  submit_prepared-Untouched run s ws (err reason) = pure-Untouched _
  submit_prepared-Untouched run s ws (ok paths) =
      >>=-Untouched _ _ (gets-Untouched _) λ environment. try_call-Untouched _

  pub try_submit-Untouched :
      (run : Run) (s : RunSnapshot) (version : ProjectVersion) (ws : ObjectId)
      → Untouched (try_submit ports run s version ws)
  unfolding try_submit
  try_submit-Untouched run s version ws =
      >>=-Untouched _ _ (try_call-Untouched _) λ paths. submit_prepared-Untouched run s ws paths
