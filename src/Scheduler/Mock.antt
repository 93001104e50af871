-- ===== src/Scheduler/Mock.antt =====
-- infrastructure/scheduler/mock.py: jobs are processes of the local host. The return code that the host
-- reports of a process is kept with its job.
pub mod Laws
use workspace.Base.{
  ◌++◌, ℤ, Bool, true, false, Option, none, some, List, [], ◌∷◌, Text, text, text_eq, any,
  if◌then◌else◌, Result, ok, err, dict_get, dict_set, dict_extend,
}
use workspace.Domain.Enums.{SchedulerState}
use workspace.Domain.Models.{Time, SchedulerJobState}

-- `INHERITED_ENV`
abbrev pub inherited_env : List Text
inherited_env =
    text "PATH"
    ∷ text "HOME"
    ∷ text "LANG"
    ∷ text "LC_ALL"
    ∷ text "TZ"
    ∷ text "TMPDIR"
    ∷ text "SHELL"
    ∷ text "USER"
    ∷ []

abbrev pub add_inherited : Text → Option Text → List (Text × Text) → List (Text × Text)
add_inherited name none base = base
add_inherited name (some v) base = (name, v) ∷ base

-- `{name: os.environ[name] for name in INHERITED_ENV if name in os.environ}`
unfoldable pub inherited : List (Text × Text) → List Text → List (Text × Text)
unfolding dict_get
inherited environ [] = []
inherited environ (name ∷ names) =
    add_inherited name (dict_get name environ) (inherited environ names)

-- `build_job_environment`, of the process's environment and the submission's
unfoldable pub build_job_environment : List (Text × Text) → List (Text × Text) → List (Text × Text)
unfolding inherited dict_extend
build_job_environment environ environment =
    dict_extend (inherited environ inherited_env) environment

-- `_MockJob`; the return code is the process's.
pub record MockJob : Type 0 where
  pub returncode : Option ℤ
  pub started_at : Time
  pub finished_at : Option Time
  pub cancelled : Bool

abbrev pub Jobs : Type 0
Jobs = List (Text × MockJob)

-- `if job.finished_at is None: job.finished_at = now`
abbrev pub or_now : Time → Option Time → Time
or_now now none = now
or_now now (some t) = t

unfoldable pub ended : ℤ → MockJob → Time → SchedulerJobState
ended code job finished = record {
  state = if job.cancelled then SchedulerState.cancelled else SchedulerState.completed;
  exit_code = some code;
  started_at = some job.started_at;
  finished_at = some finished;
  reason = if job.cancelled then text "任务已被取消" else [];
}

-- A job that has returned keeps when that was seen first.
unfoldable pub poll_returned : Time → Text → MockJob → Option ℤ → Jobs → SchedulerJobState × Jobs
unfolding ended dict_set
poll_returned now job_id job none jobs = (
  record {
    state = SchedulerState.running;
    exit_code = none;
    started_at = some job.started_at;
    finished_at = none;
    reason = [];
  },
  jobs,
)
poll_returned now job_id job (some code) jobs = (
  ended code job (or_now now job.finished_at),
  dict_set job_id (record job { finished_at = some (or_now now job.finished_at) }) jobs,
)

unfoldable pub poll_found : Time → Text → Option MockJob → Jobs → SchedulerJobState × Jobs
unfolding poll_returned
poll_found now job_id none jobs = (
  record {
    state = SchedulerState.unknown;
    exit_code = none;
    started_at = none;
    finished_at = none;
    reason = text "调度系统中没有任务 " ++ job_id ++ text " 的记录";
  },
  jobs,
)
poll_found now job_id (some job) jobs = poll_returned now job_id job job.returncode jobs

-- `poll`
unfoldable pub poll : Time → Text → Jobs → SchedulerJobState × Jobs
unfolding poll_found dict_get
poll now job_id jobs = poll_found now job_id (dict_get job_id jobs) jobs

unfoldable pub cancel_found : Text → Option MockJob → Jobs → Result Text Jobs
unfolding dict_set
cancel_found job_id none jobs = err (text "调度系统中没有任务 " ++ job_id ++ text " 的记录")
cancel_found job_id (some job) jobs = ok (dict_set job_id (record job { cancelled = true }) jobs)

-- `cancel`; the process is asked to end if it has not
unfoldable pub cancel_job : Text → Jobs → Result Text Jobs
unfolding cancel_found dict_get
cancel_job job_id jobs = cancel_found job_id (dict_get job_id jobs) jobs
