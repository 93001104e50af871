-- ===== src/Scheduler/Mock/Laws.antt =====
-- What infrastructure/scheduler/mock.py hands to a job, and what it reports of one.
use workspace.Base.{
  ◌≡◌, ◌⊎◌, refl, ap, ◌∙◌, inl, inr, ℤ, ◌||◌, Bool, true, false, Option, none, some, List, [], ◌∷◌,
  Text, text_eq, text_eq_refl, any, Bool-cases, Option-cases, arith, dict_get, dict_set,
  dict_extend, keys,
}
use workspace.Domain.Models.{Time}
use workspace.Scheduler.Mock.{
  inherited_env, inherited, build_job_environment, MockJob, Jobs, or_now, ended, poll_returned,
  poll_found, poll,
}

abbrev pub has_name : Text → List Text → Bool
has_name name names = any (λ n. text_eq n name) names

module _ {V : Type 0} where
  has_name-dict_set :
      (name key : Text) (v : V) (d : List (Text × V))
      → has_name name (keys (dict_set key v d)) ≡ true
      → (text_eq key name || has_name name (keys d)) ≡ true
  unfolding dict_set
  has_name-dict_set name key v [] h = ground (arith)
  has_name-dict_set name key v ((k, u) ∷ d) h = elim (Bool-cases (text_eq k key)) [
    | inl e ↦ ground (arith)
    | inr e ↦ elim (Bool-cases (text_eq k name)) [
      | inl here ↦ ground (arith)
      | inr there ↦ let rest = has_name-dict_set name key v d (ground (arith)) in ground (arith)
    ]
  ]

  dict_get-dict_set :
      (key : Text) (v : V) (d : List (Text × V)) → dict_get key (dict_set key v d) ≡ some v
  unfolding dict_get dict_set
  dict_get-dict_set key v [] = let self = text_eq_refl key in ground (arith)
  dict_get-dict_set key v ((k, u) ∷ d) = let rest = dict_get-dict_set key v d in ground (arith)

  has_name-dict_extend :
      (name : Text) (items d : List (Text × V))
      → has_name name (keys (dict_extend d items)) ≡ true
      → (has_name name (keys d) || has_name name (keys items)) ≡ true
  unfolding dict_extend
  has_name-dict_extend name [] d h = ground (arith)
  has_name-dict_extend name ((k, v) ∷ items) d h =
      let rest = has_name-dict_extend name items (dict_set k v d) h in
      elim (Bool-cases (has_name name (keys (dict_set k v d)))) [
        | inl e ↦ let before = has_name-dict_set name k v d e in ground (arith)
        | inr e ↦ ground (arith)
      ]

has_name-inherited :
    (name : Text) (environ : List (Text × Text)) (names : List Text)
    → has_name name (keys (inherited environ names)) ≡ true
    → has_name name names ≡ true
unfolding inherited
has_name-inherited name environ [] h = cc
has_name-inherited name environ (n ∷ names) h =
    let rest = has_name-inherited name environ names in
    elim (Option-cases (dict_get n environ)) [
      | inl e ↦ ground (arith)
      | inr (v, e) ↦ ground (arith)
    ]

left_of : (a b : Bool) → (a || b) ≡ true → b ≡ false → a ≡ true
left_of true b h k = refl
left_of false b h k = cc

-- A job sees what its submission names, and what is inherited by name; nothing else of the process.
pub build_job_environment-names :
    (environ environment : List (Text × Text)) (name : Text)
    → has_name name (keys (build_job_environment environ environment)) ≡ true
    → (has_name name (keys environment) ≡ true) ⊎ (has_name name inherited_env ≡ true)
unfolding build_job_environment
build_job_environment-names environ environment name h =
    let either = has_name-dict_extend name environment (inherited environ inherited_env) h in
    elim (Bool-cases (has_name name (keys environment))) [
      | inl e ↦ inl e
      | inr e ↦ inr (has_name-inherited name environ inherited_env (left_of _ _ either e))
    ]

module _ (now later : Time) (job_id : Text) (jobs : Jobs) where
  poll_returned-again :
      (job : MockJob) (code : Option ℤ)
      → dict_get job_id jobs ≡ some job
      → job.returncode ≡ code
      → (poll later job_id ((poll_returned now job_id job code jobs).1)).0
        ≡ (poll_returned now job_id job code jobs).0
  unfolding poll poll_found poll_returned ended
  poll_returned-again job none e e1 =
      ap (λ o. (poll_found later job_id o jobs).0) e
      ∙ ap (λ c. (poll_returned later job_id job c jobs).0) e1
  poll_returned-again job (some code) e e1 =
      let seen = record job { finished_at = some (or_now now job.finished_at) } in
      ap (λ o. (poll_found later job_id o (dict_set job_id seen jobs)).0)
        (dict_get-dict_set job_id seen jobs)
      ∙ ap (λ c. (poll_returned later job_id seen c (dict_set job_id seen jobs)).0) e1

  poll_found-again :
      (found : Option MockJob)
      → dict_get job_id jobs ≡ found
      → (poll later job_id ((poll_found now job_id found jobs).1)).0
        ≡ (poll_found now job_id found jobs).0
  unfolding poll poll_found
  poll_found-again none e = ap (λ o. (poll_found later job_id o jobs).0) e
  poll_found-again (some job) e = poll_returned-again job job.returncode e refl

  -- While the process does not change, a second poll, whenever it is made, reports what the first did.
  pub poll-poll : (poll later job_id ((poll now job_id jobs).1)).0 ≡ (poll now job_id jobs).0
  unfolding poll
  poll-poll = poll_found-again (dict_get job_id jobs) refl
