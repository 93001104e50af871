-- ===== src/Scheduler/Script.antt =====
-- infrastructure/scheduler/script.py. `str.isalnum` is a parameter.
pub mod Laws
use Prim.Native.String.{String}
use workspace.Base.{
  ℕ, ◌+◌, ◌/◌, ◌%◌, ◌==◌, ltb, ℤ, pos, negsuc, ltb_ℤ, pos_part, strip, Bool, true, false, ◌||◌,
  List, [], ◌∷◌, ◌++◌, Text, text, take, or_else, join, decimal, map, if◌then◌else◌,
}
use workspace.Domain.Compute.{ResolvedSchedulerConfiguration}
use workspace.Runs.Ports.{SchedulerSubmission}

-- `f"{n:02d}"`
unfoldable pub two_digits : ℕ → Text
unfolding decimal
two_digits n = if ltb n 10 then 48 ∷ decimal n else decimal n

-- `f"{hours:02d}:{minutes:02d}:00"`
unfoldable pub clock_text : ℕ → ℕ → Text
unfolding two_digits
clock_text hours minutes = two_digits hours ++ (text ":" ++ (two_digits minutes ++ text ":00"))

unfoldable pub walltime : ℕ → ℕ → ℕ → Text
unfolding clock_text decimal
walltime days hours minutes =
    if days == 0
    then clock_text hours minutes
    else decimal days ++ (text "-" ++ clock_text hours minutes)

-- `_minutes_to_walltime`, of the positive numbers that a request can have
unfoldable pub minutes_to_walltime : ℕ → Text
unfolding walltime
minutes_to_walltime minutes = walltime (minutes / 60 / 24) (minutes / 60 % 24) (minutes % 60)

module _ (isalnum : ℕ → Bool) where
  -- `c.isalnum() or c in "-_."`
  abbrev pub is_allowed : ℕ → Bool
  is_allowed c = isalnum c || (c == 45) || (c == 95) || (c == 46)

  unfoldable pub cleaned : Text → Text
  cleaned [] = []
  cleaned (c ∷ s) = (if is_allowed c then c else 45) ∷ cleaned s

  -- `_sanitize`
  unfoldable pub sanitize : Text → Text
  unfolding cleaned
  sanitize name = or_else (take 64 (cleaned name)) (text "workspace107-run")

-- `str` of an integer
abbrev pub integer_text : ℤ → Text
unfolding decimal
integer_text (pos n) = decimal n
integer_text (negsuc n) = 45 ∷ decimal (n + 1)

abbrev pub newline : ℕ
newline = 10

abbrev pub setup_lines : Text → List Text
setup_lines [] = []
setup_lines (c ∷ s) = text "# 运行环境准备命令" ∷ (c ∷ s) ∷ [] ∷ []

-- `render_body`
unfoldable pub render_body : SchedulerSubmission → Text
unfolding join strip
render_body s = join newline (
    text "set -euo pipefail" ∷ [] ∷ []
    ++ setup_lines (strip s.setup_command)
    ++ text "# 运行方案中的执行命令" ∷ strip s.command ∷ [] ∷ [])

abbrev pub option_line : String → Text → Text
option_line name value = text "#SBATCH --" ++ text name ++ text "=" ++ value

-- `if config.gpus > 0`
abbrev pub gpu_lines : ℤ → List Text
gpu_lines gpus =
    if ltb_ℤ (pos 0) gpus then option_line "gres" (text "gpu:" ++ integer_text gpus) ∷ [] else []

module _ (isalnum : ℕ → Bool) where
  -- `render_sbatch_script`: the environment is no part of it.
  unfoldable pub render_sbatch_script : SchedulerSubmission → Text
  unfolding sanitize minutes_to_walltime render_body join
  render_sbatch_script s =
      let config = s.configuration in
      join newline (
        text "#!/bin/bash"
          ∷ option_line "job-name" (sanitize isalnum s.job_name)
          ∷ option_line "account" config.account
          ∷ option_line "partition" config.partition
          ∷ option_line "qos" config.qos
          ∷ option_line "nodes" (integer_text config.nodes)
          ∷ option_line "cpus-per-task" (integer_text config.cpus)
          ∷ option_line "mem" (integer_text config.memory_mb ++ text "M")
          ∷ option_line "time" (minutes_to_walltime (pos_part config.time_limit_minutes))
          ∷ option_line "chdir" s.work_dir
          ∷ option_line "output" s.stdout_path
          ∷ option_line "error" s.stderr_path
          ∷ gpu_lines config.gpus
        ++ [] ∷ [])
      ++ render_body s
