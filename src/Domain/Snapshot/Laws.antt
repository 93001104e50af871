-- ===== src/Domain/Snapshot/Laws.antt =====
-- domain/run_snapshot.py: the working directory of a snapshot.
use workspace.Base.{
  ℕ, ◌==◌, Bool, true, false, ◌||◌, ◌≡◌, ◌≢◌, refl, sym, ap, ◌∙◌, subst, inl, inr, List, [], ◌∷◌,
  ◌++◌, Text, text, text_eq, text_eq-eq, starts_with, any, split, replace_char, onto_first,
  if◌then◌else◌, Bool-cases, ok, arith,
}
use mathlib.Core.Bool.{true≢false}
use workspace.Domain.Snapshot.{RunSnapshot, is_root_directory, mentions_parent, build_snapshot}

-- `/`, and `\`, which the program takes for the same.
abbrev pub is_separator : ℕ → Bool
is_separator c = (c == b'/') || (c == b'\\')

-- Nothing, or a text that ends in a separator.
pub data Before : Text → Type 0 where
  start : Before []
  within : (s : Text) (c : ℕ) → is_separator c ≡ true → Before (s ++ c ∷ [])

-- Nothing, or a text that begins with a separator.
pub data After : Text → Type 0 where
  end : After []
  going_on : (c : ℕ) (s : Text) → is_separator c ≡ true → After (c ∷ s)

-- A directory below the one it is taken from: a relative path, none of whose names is `..`.
pub record StaysBelow (d : Text) : Type 0 where
  pub relative : (rest : Text) → d ≢ b'/' ∷ rest
  pub descends :
      (before after : Text) → Before before → After after → d ≢ before ++ (text ".." ++ after)

-- `..` is among the names.
abbrev has_parent : List Text → Bool
has_parent names = any (text_eq (text "..")) names

abbrev rest_of : List Text → List Text
rest_of [] = []
rest_of (name ∷ names) = names

-- The names of a path as they are looked at.
abbrev names_of : Text → List Text
names_of d = split b'/' (replace_char b'\\' b'/' d)

parent_first : (after : Text) → After after → has_parent (names_of (text ".." ++ after)) ≡ true
unfolding split replace_char
parent_first _ end = refl
parent_first _ (going_on c s h) = ground (arith)

has_parent_rest : (names : List Text) → has_parent (rest_of names) ≡ true → has_parent names ≡ true
has_parent_rest [] h = cc
has_parent_rest (name ∷ names) h = ground (arith)

parent_kept :
    (b : Bool) (x : ℕ) (names : List Text)
    → has_parent (rest_of names) ≡ true
    → has_parent (rest_of (if b then [] ∷ names else onto_first x names)) ≡ true
parent_kept true x names h = has_parent_rest names h
parent_kept false x [] h = cc
parent_kept false x (name ∷ names) h = h

parent_later :
    (s : Text) (c : ℕ) (d : Text)
    → is_separator c ≡ true
    → has_parent (names_of d) ≡ true
    → has_parent (rest_of (names_of (s ++ c ∷ d))) ≡ true
unfolding split replace_char
parent_later [] c d h k = ground (arith)
parent_later (x ∷ s) c d h k = parent_kept _ _ (names_of (s ++ c ∷ d)) (parent_later s c d h k)

append_within : (s : Text) (c : ℕ) (d : Text) → (s ++ c ∷ []) ++ d ≡ s ++ c ∷ d
append_within [] c d = refl
append_within (x ∷ s) c d = ap (λ t. x ∷ t) (append_within s c d)

mentioned :
    (before after : Text)
    → Before before
    → After after
    → mentions_parent (before ++ (text ".." ++ after)) ≡ true
unfolding mentions_parent
mentioned _ after start a = parent_first after a
mentioned _ after (within s c h) a =
    ap (λ d. has_parent (names_of d)) (append_within s c (text ".." ++ after))
    ∙ has_parent_rest (names_of (s ++ c ∷ (text ".." ++ after)))
        (parent_later s c (text ".." ++ after) h (parent_first after a))

unmentioned-StaysBelow :
    (d : Text) → starts_with d (text "/") ≡ false → mentions_parent d ≡ false → StaysBelow d
unmentioned-StaysBelow d h k = record {
  relative = λ rest e. absurd (true≢false (sym (ap (λ x. starts_with x (text "/")) e) ∙ h));
  descends = λ before after b a e.
      absurd (true≢false (sym (mentioned before after b a) ∙ sym (ap mentions_parent e) ∙ k));
}

root-StaysBelow : (d : Text) → is_root_directory d ≡ true → StaysBelow d
unfolding mentions_parent split replace_char
root-StaysBelow d h = elim (Bool-cases (text_eq d [])) [
  | inl e ↦ rw (text_eq-eq d [] e) (unmentioned-StaysBelow [] refl refl)
  | inr e ↦
      rw (text_eq-eq d (text ".") (ground (arith))) (unmentioned-StaysBelow (text ".") refl refl)
]

-- Every snapshot that is built is the one asked for, and its working directory is a relative path
-- none of whose names, between slashes or backslashes, is `..`.
pub build_snapshot_contained :
    (s t : RunSnapshot) → build_snapshot s ≡ ok t → (s ≡ t) × StaysBelow t.working_directory
unfolding build_snapshot
build_snapshot_contained s t h = elim (Bool-cases (is_root_directory s.working_directory)) [
  | inl e ↦
      let same : s ≡ t = ground (arith) in
      (same, subst (λ x. StaysBelow x.working_directory) same (root-StaysBelow _ e))
  | inr e ↦
      let same : s ≡ t = ground (arith) in
      (
        same,
        subst (λ x. StaysBelow x.working_directory) same
            (unmentioned-StaysBelow _ (ground (arith)) (ground (arith))),
      )
]
