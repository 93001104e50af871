-- ===== src/Domain/Secrets.antt =====
-- `resolve_env` of domain/secrets.py, and DatabaseSecretVault (infrastructure/db/secret_vault.py)
-- over its table. A resolved environment holds values and the names of secrets, no secret's value.
pub mod Expressions
use workspace.Base.{
  Bool, true, false, Option, none, some, List, [], ◌∷◌, ◌++◌, Text, text_eq, any, dict_get,
  dict_set,
}
use workspace.Domain.Errors.{Problem}
use workspace.Domain.Enums.{EnvValueKind}
use workspace.Domain.Models.{EnvValue}

pub record ResolvedEnv : Type 0 where
  pub literals : List (Text × Text)
  pub secret_refs : List (Text × Text)

-- The environment so far, and the problems.
abbrev pub Resolution : Type 0
Resolution = ResolvedEnv × List Problem

set_literal : Text → Text → Resolution → Resolution
unfolding dict_set
set_literal name v (r, ps) = (record r { literals = dict_set name v r.literals }, ps)

resolve_variable : Text → Text → Option Text → Resolution → Resolution
unfolding set_literal
resolve_variable name target none (r, ps) = (r, ps ++ Problem.variable_missing name target ∷ [])
resolve_variable name target (some v) done = set_literal name v done

resolve_secret : Text → Text → Bool → Resolution → Resolution
unfolding dict_set
resolve_secret name target false (r, ps) = (r, ps ++ Problem.secret_missing name target ∷ [])
resolve_secret name target true (r, ps) =
    (record r { secret_refs = dict_set name target r.secret_refs }, ps)

module _ (variables : List (Text × Text)) (available_secrets : List Text) where
  resolve_value : EnvValueKind → Text → Text → Resolution → Resolution
  unfolding set_literal resolve_variable resolve_secret dict_get
  resolve_value EnvValueKind.literal name value done = set_literal name value done
  resolve_value EnvValueKind.variable name value done =
      resolve_variable name value (dict_get value variables) done
  resolve_value EnvValueKind.secret name value done =
      resolve_secret name value (any (text_eq value) available_secrets) done

  resolve_from : List (Text × EnvValue) → Resolution → Resolution
  unfolding resolve_value
  resolve_from [] done = done
  resolve_from ((name, v) ∷ env) done = resolve_from env (resolve_value v.kind name v.value done)

  unfoldable pub resolve_env : List (Text × EnvValue) → Resolution
  unfolding resolve_from
  resolve_env env = resolve_from env (record { literals = []; secret_refs = [] }, [])
