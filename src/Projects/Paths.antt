-- ===== src/Projects/Paths.antt =====
-- `normalize_path` of application/project_service.py, with `posixpath.normpath` for a path that does
-- not begin with a slash.
pub mod Names
pub mod Fixed
pub mod Below
use workspace.Base.{
  ℕ, ◌==◌, Bool, true, false, ◌||◌, List, [], ◌∷◌, reverse, Text, text, text_eq, is_empty, or_else,
  strip, lstrip, replace_char, split, join, starts_with, if◌then◌else◌, Result, ok, err,
}
use workspace.Domain.Errors.{DomainError, validation_failed, Violation}

abbrev pub slash : ℕ
slash = 47

abbrev pub backslash : ℕ
backslash = 92

abbrev pub here : Text
here = text "."

abbrev pub up : Text
up = text ".."

-- `..` leaves the innermost directory, if there is one to leave. The innermost comes first.
unfoldable pub climb : List Text → List Text
climb [] = up ∷ []
climb (top ∷ rest) = if text_eq top up then up ∷ top ∷ rest else rest

unfoldable pub enter : List Text → Text → List Text
unfolding climb
enter inside name =
    if is_empty name || text_eq name here
    then inside
    else if text_eq name up
    then climb inside
    else name ∷ inside

unfoldable pub walk : List Text → List Text → List Text
unfolding enter
walk inside [] = inside
walk inside (name ∷ names) = walk (enter inside name) names

-- `posixpath.normpath` of a relative path
unfoldable pub normpath : Text → Text
unfolding walk split join
normpath path = or_else (join slash (reverse (walk [] (split slash path)))) here

-- `normalized in {".", ".."} or normalized.startswith("../")`
abbrev pub escapes : Text → Bool
escapes p = text_eq p here || text_eq p up || starts_with p (text "../")

unfoldable pub candidate_of : Text → Text
unfolding strip lstrip replace_char
candidate_of raw = lstrip (λ c. c == slash) (replace_char backslash slash (strip raw))

reject_escape : Text → Result DomainError Text
reject_escape p = if escapes p then err (validation_failed Violation.path_escapes) else ok p

normalize_candidate : Text → Result DomainError Text
unfolding reject_escape normpath
normalize_candidate candidate =
    if is_empty candidate
    then err (validation_failed Violation.empty_path)
    else reject_escape (normpath candidate)

unfoldable pub normalize_path : Text → Result DomainError Text
unfolding normalize_candidate candidate_of
normalize_path raw = normalize_candidate (candidate_of raw)
