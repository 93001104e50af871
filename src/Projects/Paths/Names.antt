-- ===== src/Projects/Paths/Names.antt =====
-- What a normalized path looks like.
use mathlib.Core.List.{reverse-cons}
use mathlib.Core.Bool.{true≢false}
use workspace.Base.{
  ℕ, ◌==◌, Bool, true, false, ◌||◌, List, [], ◌∷◌, ◌++◌, reverse, Text, text_eq, text_eq-eq,
  text_eq_refl, is_empty, or_else, All, All-append, All-both, strip, lstrip, replace_char, split,
  join, on_if, onto_first, Bool-cases, ok, ◌≡◌, refl, sym, ap, ◌∙◌, subst, ◌≢◌, ◌⊎◌, inl, inr,
  arith,
}
use workspace.Projects.Paths.{
  slash, backslash, here, up, climb, enter, walk, normpath, escapes, candidate_of, reject_escape,
  normalize_candidate, normalize_path,
}

-- No character of the text is `c`.
abbrev pub Lacks : ℕ → Text → Type 0
Lacks c = All (λ d. d ≢ c)

-- A name that a directory can hold, in a path that Windows reads the same way.
pub record IsName (s : Text) : Type 0 where
  pub filled : s ≢ []
  pub not_here : s ≢ here
  pub not_up : s ≢ up
  pub no_slash : Lacks slash s
  pub no_backslash : Lacks backslash s

pub replace_char-Lacks : (a b : ℕ) → b ≢ a → (s : Text) → Lacks a (replace_char a b s)
unfolding replace_char
replace_char-Lacks a b n [] = tt
replace_char-Lacks a b n (c ∷ s) = (ground (arith, n), replace_char-Lacks a b n s)

lstrip-Lacks : (p : ℕ → Bool) (a : ℕ) (s : Text) → Lacks a s → Lacks a (lstrip p s)
unfolding lstrip
lstrip-Lacks p a [] h = tt
lstrip-Lacks p a (c ∷ s) (n, h) = on_if (Lacks a) (p c) (λ _. lstrip-Lacks p a s h) (λ _. (n, h))

onto_first-Lacks :
    (a c : ℕ) (pieces : List Text)
    → c ≢ a
    → All (Lacks a) pieces
    → All (Lacks a) (onto_first c pieces)
onto_first-Lacks a c [] n h = ((n, tt), tt)
onto_first-Lacks a c (piece ∷ pieces) n (h, hs) = ((n, h), hs)

split-Lacks_sep : (sep : ℕ) (s : Text) → All (Lacks sep) (split sep s)
unfolding split
split-Lacks_sep sep [] = (tt, tt)
split-Lacks_sep sep (c ∷ s) =
    on_if (All (Lacks sep)) (c == sep) (λ _. (tt, split-Lacks_sep sep s))
      (λ e. onto_first-Lacks sep c (split sep s) (λ q. ground arith) (split-Lacks_sep sep s))

split-Lacks : (sep a : ℕ) (s : Text) → Lacks a s → All (Lacks a) (split sep s)
unfolding split
split-Lacks sep a [] h = (tt, tt)
split-Lacks sep a (c ∷ s) (n, h) =
    on_if (All (Lacks a)) (c == sep) (λ _. (tt, split-Lacks sep a s h))
      (λ e. onto_first-Lacks a c (split sep s) n (split-Lacks sep a s h))

-- Names, the innermost first, below as many `..`.
abbrev pub Climbs : List Text → Type 0
Climbs [] = Unit
Climbs (s ∷ rest) = (IsName s × Climbs rest) ⊎ ((s ≡ up) × All (λ t. t ≡ up) rest)

ups-Climbs : (inside : List Text) → All (λ t. t ≡ up) inside → Climbs inside
ups-Climbs [] h = tt
ups-Climbs (s ∷ rest) (e, h) = inr (e, h)

-- What the test on the parts of a path leaves to be a name.
abbrev pub Clean : Text → Type 0
Clean s = Lacks slash s × Lacks backslash s

climb-Climbs : (inside : List Text) → Climbs inside → Climbs (climb inside)
unfolding climb
climb-Climbs [] h = inr (refl, tt)
climb-Climbs (s ∷ rest) (inl (n, h)) =
    on_if Climbs (text_eq s up) (λ e. absurd (n.not_up (text_eq-eq s up e))) (λ _. h)
climb-Climbs (s ∷ rest) (inr (e, h)) =
    on_if Climbs (text_eq s up) (λ _. inr (refl, (e, h))) (λ _. ups-Climbs rest h)

named :
    (s : Text) → Clean s → (is_empty s || text_eq s here) ≡ false → text_eq s up ≡ false → IsName s
named s (c, d) e e1 = record {
  filled = λ q. ground arith;
  not_here = λ q. ground (arith, text_eq_refl here);
  not_up = λ q. ground (arith, text_eq_refl up);
  no_slash = c;
  no_backslash = d;
}

enter-Climbs : (inside : List Text) (s : Text) → Clean s → Climbs inside → Climbs (enter inside s)
unfolding enter
enter-Climbs inside s c h =
    on_if Climbs (is_empty s || text_eq s here) (λ _. h)
      (λ e.
        on_if Climbs (text_eq s up) (λ _. climb-Climbs inside h) (λ e1. inl (named s c e e1, h)))

walk-Climbs :
    (inside names : List Text) → All Clean names → Climbs inside → Climbs (walk inside names)
unfolding walk
walk-Climbs inside [] c h = h
walk-Climbs inside (s ∷ names) (c, cs) h =
    walk-Climbs (enter inside s) names cs (enter-Climbs inside s c h)

module _ {A : Type 0} (P : A → Type 0) where
  pub All-reverse : (xs : List A) → All P xs → All P (reverse xs)
  All-reverse [] h = tt
  All-reverse (x ∷ xs) (h, hs) =
      subst (All P) (sym (reverse-cons x xs))
        (All-append P (reverse xs) (x ∷ []) (All-reverse xs hs) (h, tt))

first_up : (xs : List Text) → xs ≢ [] → All (λ t. t ≡ up) xs → (rest : List Text) × (xs ≡ up ∷ rest)
first_up [] n h = absurd (n refl)
first_up (x ∷ xs) n (h, hs) = (xs, ap (λ t. t ∷ xs) h)

filled-snoc : (xs : List Text) (x : Text) → xs ++ x ∷ [] ≢ []
filled-snoc [] x q = cc
filled-snoc (y ∷ xs) x q = cc

-- Turned around, the names begin with `..`, if that is among them.
settles :
    (inside : List Text)
    → Climbs inside
    → All IsName inside ⊎ ((rest : List Text) × (reverse inside ≡ up ∷ rest))
settles [] h = inl tt
settles (s ∷ rest) (inl (n, h)) = elim (settles rest h) [
  | inl all ↦ inl (n, all)
  | inr (r, e) ↦ inr (r ++ s ∷ [], reverse-cons s rest ∙ ap (λ t. t ++ s ∷ []) e)
]
settles (s ∷ rest) (inr h) = inr (
    first_up (reverse (s ∷ rest))
      (λ q. filled-snoc (reverse rest) s (sym (reverse-cons s rest) ∙ q))
      (All-reverse (λ t. t ≡ up) (s ∷ rest) h))

up-escapes : (rest : List Text) → escapes (or_else (join slash (up ∷ rest)) here) ≡ true
unfolding join
up-escapes [] = refl
up-escapes (s ∷ rest) = refl

-- Names of directories and at the end that of a file, one below the other.
pub record IsPath (p : Text) : Type 0 where
  pub names : List Text
  pub nonempty : names ≢ []
  pub proper : All IsName names
  pub joined : p ≡ join slash names

reject_escape-ok : (q p : Text) → reject_escape q ≡ ok p → (q ≡ p) × (escapes p ≡ false)
unfolding reject_escape
reject_escape-ok q p h = elim (Bool-cases (escapes q)) [
  | inl e ↦ absurd (cc)
  | inr e ↦ let same : q ≡ p = ground arith in (same, subst (λ t. escapes t ≡ false) same e)
]

normalize_path-ok :
    (raw p : Text) → normalize_path raw ≡ ok p → reject_escape (normpath (candidate_of raw)) ≡ ok p
unfolding normalize_candidate normalize_path
normalize_path-ok raw p h = elim (Bool-cases (is_empty (candidate_of raw))) [
  | inl e ↦ absurd (cc)
  | inr e ↦ cc
]

candidate_of-Lacks : (raw : Text) → Lacks backslash (candidate_of raw)
unfolding candidate_of
candidate_of-Lacks raw =
    lstrip-Lacks (λ c. c == slash) backslash _
      (replace_char-Lacks backslash slash (λ q. ground arith) (strip raw))

walked-Climbs : (raw : Text) → Climbs (walk [] (split slash (candidate_of raw)))
walked-Climbs raw =
    walk-Climbs [] _
      (All-both (Lacks slash) (Lacks backslash) _ (split-Lacks_sep slash (candidate_of raw))
        (split-Lacks slash backslash (candidate_of raw) (candidate_of-Lacks raw)))
      tt

or_else-joined : (t p : Text) → or_else t here ≡ p → escapes p ≡ false → p ≡ t
or_else-joined [] p same out = absurd (true≢false (ap escapes same ∙ out))
or_else-joined (c ∷ t) p same out = sym same

settled :
    (inside : List Text) (p : Text)
    → All IsName inside
    → or_else (join slash (reverse inside)) here ≡ p
    → escapes p ≡ false
    → IsPath p
unfolding join
settled [] p all same out = absurd (true≢false (ap escapes same ∙ out))
settled (s ∷ rest) p all same out = record {
  names = reverse (s ∷ rest);
  nonempty = λ q. filled-snoc (reverse rest) s (sym (reverse-cons s rest) ∙ q);
  proper = All-reverse IsName (s ∷ rest) all;
  joined = or_else-joined (join slash (reverse (s ∷ rest))) p same out;
}

pub normalize_path-IsPath : (raw p : Text) → normalize_path raw ≡ ok p → IsPath p
unfolding normpath
normalize_path-IsPath raw p h =
    let (same, no_escape) = reject_escape-ok _ p (normalize_path-ok raw p h) in
    let inside = walk [] (split slash (candidate_of raw)) in
    elim (settles inside (walked-Climbs raw)) [
      | inl all ↦ settled inside p all same no_escape
      | inr (rest, e) ↦ absurd (rises rest e same no_escape)
    ]
  where
    rises :
        (rest : List Text)
        → reverse (walk [] (split slash (candidate_of raw))) ≡ up ∷ rest
        → normpath (candidate_of raw) ≡ p
        → escapes p ≢ false
    rises rest e same out = true≢false (
        sym (up-escapes rest)
        ∙ ap (λ xs. escapes (or_else (join slash xs) here)) (sym e)
        ∙ ap escapes same
        ∙ out)
