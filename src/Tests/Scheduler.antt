-- ===== src/Tests/Scheduler.antt =====
-- The adapters of infrastructure/scheduler at concrete values.
use workspace.Base.{
  ◌≡◌, ◌⊎◌, List, refl, pos, true, false, none, some, [], ◌∷◌, Text, text, decimal, dict_get, keys,
}
use workspace.Scheduler.Script.{minutes_to_walltime, sanitize}
use workspace.Scheduler.Script.Laws.{
  minutes_of, minutes_of-minutes_to_walltime, IsJobName, is_ascii_alnum, sanitize-IsJobName,
}
use workspace.Scheduler.Mock.{build_job_environment, inherited_env, Jobs, poll}
use workspace.Scheduler.Mock.Laws.{has_name, build_job_environment-names, poll-poll}

walltime_printed : minutes_to_walltime 1505 ≡ text "1-01:05:00"
unfolding minutes_to_walltime decimal
walltime_printed = refl

name_cleaned : sanitize is_ascii_alnum (text "a b/c") ≡ text "a-b-c"
unfolding sanitize
name_cleaned = refl

minutes_of-minutes_to_walltime_example : minutes_of (minutes_to_walltime 1505) ≡ some 1505
minutes_of-minutes_to_walltime_example = minutes_of-minutes_to_walltime 1505

sanitize-IsJobName_example : IsJobName is_ascii_alnum (sanitize is_ascii_alnum (text "a b/c"))
sanitize-IsJobName_example = sanitize-IsJobName is_ascii_alnum (λ c e. e) (text "a b/c")

abbrev host : List (Text × Text)
host = (text "PATH", text "/bin") ∷ (text "PASSWORD", text "x") ∷ []

path_handed_on : has_name (text "PATH") (keys (build_job_environment host [])) ≡ true
unfolding build_job_environment dict_get
path_handed_on = refl

password_kept_back : has_name (text "PASSWORD") (keys (build_job_environment host [])) ≡ false
unfolding build_job_environment dict_get
password_kept_back = refl

build_job_environment-names_example :
    (has_name (text "PATH") (keys {V = Text} []) ≡ true)
    ⊎ (has_name (text "PATH") inherited_env ≡ true)
build_job_environment-names_example =
    build_job_environment-names host [] (text "PATH") path_handed_on

abbrev jobs : Jobs
jobs =
    (
      text "mock-1",
      record { returncode = some (pos 0); started_at = 1; finished_at = none; cancelled = false },
    )
    ∷ []

poll-poll_example :
    (poll 9 (text "mock-1") ((poll 5 (text "mock-1") jobs).1)).0 ≡ (poll 5 (text "mock-1") jobs).0
poll-poll_example = poll-poll 5 9 (text "mock-1") jobs
