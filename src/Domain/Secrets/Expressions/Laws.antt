-- ===== src/Domain/Secrets/Expressions/Laws.antt =====
-- Printing what was parsed, and parsing it again.
use mathlib.Core.List.{reverse-append, reverse-reverse}
use workspace.Base.{
  ◌≡◌, refl, sym, ap, ◌∙◌, subst, true, ◌&&◌, Option, none, some, [], ◌∷◌, ◌++◌, reverse, Text,
  text, text_eq, strip, lstrip, is_space, Bool-cases, Option-cases, inl, inr, arith,
}
use workspace.Domain.Enums.{EnvValueKind}
use workspace.Domain.Models.{EnvValue}
use workspace.Domain.Secrets.Expressions.{
  span_name, after_prefix, starts_name, close_reference, name_reference, open_reference,
  match_expression, or_literal, parse_env_value, reference, expression_of, expression,
  all_name_chars,
}

-- What a parsed value is: a literal, or a reference by a proper name.
pub data IsParsed : EnvValue → Type 0 where
  literal :
      (raw : Text)
      → match_expression (strip raw) ≡ none
      → IsParsed (record { kind = EnvValueKind.literal; value = raw })
  variable :
      (name : Text)
      → starts_name name ≡ true
      → all_name_chars name ≡ true
      → IsParsed (record { kind = EnvValueKind.variable; value = name })
  secret :
      (name : Text)
      → starts_name name ≡ true
      → all_name_chars name ≡ true
      → IsParsed (record { kind = EnvValueKind.secret; value = name })

span_name-chars : (s : Text) → all_name_chars ((span_name s).0) ≡ true
unfolding span_name all_name_chars
span_name-chars [] = refl
span_name-chars (c ∷ s) = let rest = span_name-chars s in ground (arith)

span_name-append :
    (name s : Text) → all_name_chars name ≡ true → span_name (name ++ 32 ∷ s) ≡ (name, 32 ∷ s)
unfolding span_name all_name_chars
span_name-append [] s h = refl
span_name-append (c ∷ name) s h =
    let rest = span_name-append name s (ground (arith)) in ground (arith)

close_reference-some :
    (kind : EnvValueKind) (name rest : Text) (v : EnvValue)
    → close_reference kind (name, rest) ≡ some v
    → (v ≡ record { kind = kind; value = name }) × (starts_name name ≡ true)
unfolding close_reference
close_reference-some kind name rest v h =
    elim (Bool-cases (starts_name name && text_eq (lstrip is_space rest) (text "}}"))) [
      | inl e ↦ (ground (arith), ground (arith))
      | inr e ↦ absurd (ground (arith))
    ]

name_reference-IsParsed :
    (s t : Option Text) (v : EnvValue) → name_reference s t ≡ some v → IsParsed v
unfolding name_reference
name_reference-IsParsed (some s) t v h =
    let (e, k) =
      close_reference-some EnvValueKind.variable ((span_name s).0) ((span_name s).1) v h in
    subst IsParsed (sym e) (IsParsed.variable ((span_name s).0) k (span_name-chars s))
name_reference-IsParsed none (some s) v h =
    let (e, k) = close_reference-some EnvValueKind.secret ((span_name s).0) ((span_name s).1) v h in
    subst IsParsed (sym e) (IsParsed.secret ((span_name s).0) k (span_name-chars s))
name_reference-IsParsed none none v h = absurd (cc)

open_reference-IsParsed : (s : Option Text) (v : EnvValue) → open_reference s ≡ some v → IsParsed v
unfolding open_reference
open_reference-IsParsed none v h = absurd (cc)
open_reference-IsParsed (some s) v h =
    name_reference-IsParsed (after_prefix (text "vars.") (lstrip is_space s))
      (after_prefix (text "secrets.") (lstrip is_space s)) v h

match_expression-IsParsed : (s : Text) (v : EnvValue) → match_expression s ≡ some v → IsParsed v
unfolding match_expression
match_expression-IsParsed s v h = open_reference-IsParsed (after_prefix (text "${{") s) v h

-- Whatever is parsed is a literal or a reference by a proper name.
parse_env_value-IsParsed : (raw : Text) → IsParsed (parse_env_value raw)
unfolding parse_env_value or_literal
parse_env_value-IsParsed raw = elim (Option-cases (match_expression (strip raw))) [
  | inl e ↦ subst (λ o. IsParsed (or_literal raw o)) (sym e) (IsParsed.literal raw e)
  | inr (v, e) ↦
      subst (λ o. IsParsed (or_literal raw o)) (sym e) (match_expression-IsParsed (strip raw) v e)
]

abbrev closing : Text
closing = text " }}"

strip-closed : (s pre : Text) → s ≡ 36 ∷ pre ++ closing → strip s ≡ s
unfolding strip lstrip
strip-closed s pre e =
    subst (λ t. strip t ≡ t) (sym e)
      (ap (λ t. reverse (lstrip is_space t)) (reverse-append (36 ∷ pre) closing)
        ∙ ap reverse (sym (reverse-append (36 ∷ pre) closing))
        ∙ reverse-reverse ((36 ∷ pre) ++ closing))

parse-variable :
    (name : Text)
    → starts_name name ≡ true
    → all_name_chars name ≡ true
    → match_expression (reference (text "vars") name)
      ≡ some (record { kind = EnvValueKind.variable; value = name })
unfolding match_expression open_reference after_prefix lstrip reference name_reference
    close_reference
parse-variable name h k =
    ap (close_reference EnvValueKind.variable) (span_name-append name (text "}}") k)
    ∙ ground (arith)

parse-secret :
    (name : Text)
    → starts_name name ≡ true
    → all_name_chars name ≡ true
    → match_expression (reference (text "secrets") name)
      ≡ some (record { kind = EnvValueKind.secret; value = name })
unfolding match_expression open_reference after_prefix lstrip reference name_reference
    close_reference
parse-secret name h k =
    ap (close_reference EnvValueKind.secret) (span_name-append name (text "}}") k) ∙ ground (arith)

parse-reference :
    (namespace name : Text) (v : EnvValue)
    → match_expression (reference namespace name) ≡ some v
    → strip (reference namespace name) ≡ reference namespace name
    → parse_env_value (reference namespace name) ≡ v
unfolding parse_env_value or_literal
parse-reference namespace name v h e =
    ap (λ t. or_literal (reference namespace name) (match_expression t)) e
    ∙ ap (or_literal (reference namespace name)) h

literal_again :
    (raw : Text)
    → match_expression (strip raw) ≡ none
    → parse_env_value raw ≡ record { kind = EnvValueKind.literal; value = raw }
unfolding parse_env_value or_literal
literal_again raw e = ap (or_literal raw) e

strip-variable : (name : Text) → strip (reference (text "vars") name) ≡ reference (text "vars") name
unfolding reference
strip-variable name = strip-closed _ (text "{{ vars." ++ name) refl

strip-secret :
    (name : Text) → strip (reference (text "secrets") name) ≡ reference (text "secrets") name
unfolding reference
strip-secret name = strip-closed _ (text "{{ secrets." ++ name) refl

IsParsed-parse : (v : EnvValue) → IsParsed v → parse_env_value (expression v) ≡ v
unfolding expression expression_of
IsParsed-parse _ (IsParsed.literal raw e) = literal_again raw e
IsParsed-parse _ (IsParsed.variable name h k) =
    parse-reference (text "vars") name _ (parse-variable name h k) (strip-variable name)
IsParsed-parse _ (IsParsed.secret name h k) =
    parse-reference (text "secrets") name _ (parse-secret name h k) (strip-secret name)

-- A value that was parsed is what its own expression is parsed as.
pub parse_env_value-expression :
    (raw : Text) → parse_env_value (expression (parse_env_value raw)) ≡ parse_env_value raw
parse_env_value-expression raw = IsParsed-parse (parse_env_value raw) (parse_env_value-IsParsed raw)
