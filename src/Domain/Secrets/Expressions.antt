-- ===== src/Domain/Secrets/Expressions.antt =====
-- `parse_env_value`, `parse_env_map` and `EnvValue.expression` of domain/secrets.py: a reference to a
-- variable or a secret of the workspace, as it is written and as it is kept.
pub mod Laws
use workspace.Base.{
  ℕ, ◌==◌, leb, Bool, true, false, ◌&&◌, ◌||◌, Option, none, some, List, [], ◌∷◌, ◌++◌, reverse,
  Text, text, text_eq, strip, lstrip, is_space, if◌then◌else◌, Result, ok, err, dict_set,
}
use workspace.Domain.Errors.{DomainError, validation_failed, Violation}
use workspace.Domain.Enums.{EnvValueKind}
use workspace.Domain.Models.{EnvValue}

-- `[A-Za-z_]`
abbrev pub is_name_start : ℕ → Bool
is_name_start c = (leb 65 c && leb c 90) || (leb 97 c && leb c 122) || (c == 95)

-- `[A-Za-z0-9_]`
abbrev pub is_name_char : ℕ → Bool
is_name_char c = is_name_start c || (leb 48 c && leb c 57)

-- The characters of a name that a text begins with, and the rest.
unfoldable pub span_name : Text → Text × Text
span_name [] = ([], [])
span_name (c ∷ s) =
    let rest = span_name s in if is_name_char c then (c ∷ rest.0, rest.1) else ([], c ∷ s)

unfoldable pub after_prefix : Text → Text → Option Text
after_prefix [] s = some s
after_prefix (c ∷ p) [] = none
after_prefix (c ∷ p) (d ∷ s) = if c == d then after_prefix p s else none

-- `[A-Za-z_]…`
abbrev pub starts_name : Text → Bool
starts_name [] = false
starts_name (c ∷ s) = is_name_start c

-- A name, white space and the end of the expression.
unfoldable pub close_reference : EnvValueKind → Text × Text → Option EnvValue
unfolding lstrip
close_reference kind (name, rest) =
    if starts_name name && text_eq (lstrip is_space rest) (text "}}")
    then some (record { kind = kind; value = name })
    else none

-- `vars.` or `secrets.`
unfoldable pub name_reference : Option Text → Option Text → Option EnvValue
unfolding span_name close_reference
name_reference (some s) other = close_reference EnvValueKind.variable (span_name s)
name_reference none (some s) = close_reference EnvValueKind.secret (span_name s)
name_reference none none = none

unfoldable pub open_reference : Option Text → Option EnvValue
unfolding name_reference after_prefix lstrip
open_reference none = none
open_reference (some s) =
    name_reference (after_prefix (text "vars.") (lstrip is_space s))
      (after_prefix (text "secrets.") (lstrip is_space s))

-- `_EXPRESSION.match`
unfoldable pub match_expression : Text → Option EnvValue
unfolding open_reference after_prefix
match_expression s = open_reference (after_prefix (text "${{") s)

unfoldable pub or_literal : Text → Option EnvValue → EnvValue
or_literal raw none = record { kind = EnvValueKind.literal; value = raw }
or_literal raw (some v) = v

unfoldable pub parse_env_value : Text → EnvValue
unfolding match_expression or_literal strip
parse_env_value raw = or_literal raw (match_expression (strip raw))

unfoldable pub reference : Text → Text → Text
reference namespace name = text "${{ " ++ namespace ++ text "." ++ name ++ text " }}"

-- `EnvValue.expression`
unfoldable pub expression_of : EnvValueKind → Text → Text
unfolding reference
expression_of EnvValueKind.literal value = value
expression_of EnvValueKind.variable value = reference (text "vars") value
expression_of EnvValueKind.secret value = reference (text "secrets") value

unfoldable pub expression : EnvValue → Text
unfolding expression_of
expression v = expression_of v.kind v.value

unfoldable pub all_name_chars : Text → Bool
all_name_chars [] = true
all_name_chars (c ∷ s) = is_name_char c && all_name_chars s

-- A text without its last character where that is a line feed: `$` matches in front of it.
unfoldable pub before_newline : Text → Text
before_newline [] = []
before_newline (c ∷ []) = if c == 10 then [] else c ∷ []
before_newline (c ∷ d ∷ s) = c ∷ before_newline (d ∷ s)

-- `_NAME.match`
unfoldable pub matches_name : Text → Bool
unfolding before_newline all_name_chars
matches_name s = starts_name (before_newline s) && all_name_chars (before_newline s)

parse_items :
    List (Text × EnvValue) → List (Text × Text) → Result DomainError (List (Text × EnvValue))
unfolding matches_name parse_env_value dict_set
parse_items parsed [] = ok parsed
parse_items parsed ((name, raw) ∷ items) =
    let rest = parse_items (dict_set name (parse_env_value raw) parsed) items in
    if matches_name name then rest else err (validation_failed (Violation.bad_env_name name))

unfoldable pub parse_env_map : List (Text × Text) → Result DomainError (List (Text × EnvValue))
unfolding parse_items
parse_env_map raw = parse_items [] raw
