-- ===== src/Projects/Paths/Fixed.antt =====
-- A normalized path is left as it is.
use mathlib.Core.List.{reverse-cons, reverse-reverse, append_assoc, append-nil, head-eq_of_cons-eq}
use workspace.Base.{
  ℕ, ◌==◌, true, false, List, [], ◌∷◌, ◌++◌, reverse, Text, text, text_eq, text_eq-eq, is_empty,
  or_else, All, All-map, strip, lstrip, replace_char, split, join, starts_with, Bool-cases, ok, ◌≡◌,
  refl, sym, ap, ◌∙◌, subst, ◌≢◌, ◌⊎◌, inl, inr, arith,
}
use workspace.Projects.Paths.{
  slash, backslash, here, up, enter, walk, normpath, escapes, candidate_of, reject_escape,
  normalize_candidate, normalize_path,
}
use workspace.Projects.Paths.Names.{Lacks, IsName, IsPath}

replace_char-same : (a b : ℕ) (s : Text) → Lacks a s → replace_char a b s ≡ s
unfolding replace_char
replace_char-same a b [] h = refl
replace_char-same a b (c ∷ s) (n, h) = ground (arith, n, replace_char-same a b s h)

Lacks-append : (a : ℕ) (s t : Text) → Lacks a s → Lacks a t → Lacks a (s ++ t)
Lacks-append a [] t h k = k
Lacks-append a (c ∷ s) t (n, h) k = (n, Lacks-append a s t h k)

join-Lacks :
    (sep a : ℕ) (names : List Text) → sep ≢ a → All (Lacks a) names → Lacks a (join sep names)
unfolding join
join-Lacks sep a [] n h = tt
join-Lacks sep a (s ∷ []) n (h, hs) = h
join-Lacks sep a (s ∷ t ∷ names) n (h, hs) =
    Lacks-append a s _ h (n, join-Lacks sep a (t ∷ names) n hs)

split-whole : (sep : ℕ) (s : Text) → Lacks sep s → split sep s ≡ s ∷ []
unfolding split
split-whole sep [] h = refl
split-whole sep (c ∷ s) (n, h) = ground (arith, n, split-whole sep s h)

split-append : (sep : ℕ) (s r : Text) → Lacks sep s → split sep (s ++ sep ∷ r) ≡ s ∷ split sep r
unfolding split
split-append sep [] r h = ground arith
split-append sep (c ∷ s) r (n, h) = ground (arith, n, split-append sep s r h)

-- Splitting takes apart what was joined.
pub split-join :
    (sep : ℕ) (names : List Text)
    → names ≢ []
    → All (Lacks sep) names
    → split sep (join sep names) ≡ names
unfolding join
split-join sep [] n h = absurd (n refl)
split-join sep (s ∷ []) n (h, hs) = split-whole sep s h
split-join sep (s ∷ t ∷ names) n (h, hs) =
    split-append sep s (join sep (t ∷ names)) h
    ∙ ap (λ x. s ∷ x) (split-join sep (t ∷ names) (λ q. cc) hs)

text_eq-false : (s t : Text) → s ≢ t → text_eq s t ≡ false
text_eq-false s t n = elim (Bool-cases (text_eq s t)) [
  | inl e ↦ absurd (n (text_eq-eq s t e))
  | inr e ↦ e
]

is_empty-false : (s : Text) → s ≢ [] → is_empty s ≡ false
is_empty-false [] n = absurd (n refl)
is_empty-false (c ∷ s) n = refl

pub starts_with-append : (s t : Text) → starts_with s t ≡ true → (r : Text) × (s ≡ t ++ r)
starts_with-append s [] h = (s, refl)
starts_with-append [] (d ∷ t) h = cc
starts_with-append (c ∷ s) (d ∷ t) h =
    let (r, e) = starts_with-append s t (ground (arith)) in (r, ground (arith))

enter-IsName : (inside : List Text) (s : Text) → IsName s → enter inside s ≡ s ∷ inside
unfolding enter
enter-IsName inside s n =
    let e1 = is_empty-false s n.filled in
    let e2 = text_eq-false s here n.not_here in
    let e3 = text_eq-false s up n.not_up in ground (arith)

walk-IsName :
    (names inside : List Text) → All IsName names → walk inside names ≡ reverse names ++ inside
unfolding walk
walk-IsName [] inside h = refl
walk-IsName (s ∷ names) inside (h, hs) =
    walk-IsName names (enter inside s) hs
    ∙ ap (λ x. reverse names ++ x) (enter-IsName inside s h)
    ∙ sym (
        ap (λ x. x ++ inside) (reverse-cons s names) ∙ append_assoc (reverse names) (s ∷ []) inside)

-- A path that is refused begins with a part that is no name.
escapes-split :
    (p : Text)
    → escapes p ≡ true
    → (s : Text) × (rest : List Text) × (split slash p ≡ s ∷ rest) × ((s ≡ here) ⊎ (s ≡ up))
unfolding split
escapes-split p h = elim (Bool-cases (text_eq p here)) [
  | inl e ↦ (here, [], ap (split slash) (text_eq-eq p here e), inl refl)
  | inr e ↦ elim (Bool-cases (text_eq p up)) [
    | inl e1 ↦ (up, [], ap (split slash) (text_eq-eq p up e1), inr refl)
    | inr e1 ↦
        let (r, e2) = starts_with-append p (text "../") (ground (arith)) in
        (
          up,
          split slash r,
          ap (split slash) e2
              ∙ split-append slash up r (λ q. ground arith, (λ q. ground arith, tt)),
          inr refl,
        )
  ]
]

-- The names of a path are its parts.
pub IsPath-split : (p : Text) (h : IsPath p) → split slash p ≡ h.names
IsPath-split p h =
    ap (split slash) h.joined
    ∙ split-join slash h.names h.nonempty (All-map (λ s n. n.no_slash) h.names h.proper)

IsName-neither : (s : Text) → IsName s → (s ≡ here) ⊎ (s ≡ up) → ⊥
IsName-neither s n (inl e) = n.not_here e
IsName-neither s n (inr e) = n.not_up e

IsPath-stays : (p : Text) → IsPath p → escapes p ≡ false
IsPath-stays p h = elim (Bool-cases (escapes p)) [
  | inl e ↦
      let (s, rest, e1, k) = escapes-split p e in
      let (n, ns) = subst (All IsName) (sym (IsPath-split p h) ∙ e1) h.proper in
      absurd (IsName-neither s n k)
  | inr e ↦ e
]

join-starts :
    (names : List Text)
    → names ≢ []
    → All IsName names
    → (c : ℕ) × (s : Text) × (join slash names ≡ c ∷ s) × (c ≢ slash)
unfolding join
join-starts [] n h = absurd (n refl)
join-starts ([] ∷ names) n (h, hs) = absurd (h.filled refl)
join-starts ((c ∷ s) ∷ []) n (h, hs) = (c, s, refl, h.no_slash.0)
join-starts ((c ∷ s) ∷ t ∷ names) n (h, hs) =
    (c, s ++ slash ∷ join slash (t ∷ names), refl, h.no_slash.0)

-- A path begins with the first character of a name.
IsPath-starts : (p : Text) → IsPath p → (c : ℕ) × (s : Text) × (p ≡ c ∷ s) × (c ≢ slash)
IsPath-starts p h =
    let (c, s, e, n) = join-starts h.names h.nonempty h.proper in (c, s, h.joined ∙ e, n)

IsPath-filled : (p : Text) → IsPath p → p ≢ []
IsPath-filled p h e = let (c, s, e1, n) = IsPath-starts p h in cc

lstrip-filled :
    (p : Text) → (c : ℕ) × (s : Text) × (p ≡ c ∷ s) × (c ≢ slash) → lstrip (λ c. c == slash) p ≡ p
unfolding lstrip
lstrip-filled [] h = refl
lstrip-filled (d ∷ t) (c, s, e, n) = let same : d ≡ c = head-eq_of_cons-eq e in ground (arith)

IsPath-Lacks : (p : Text) → IsPath p → Lacks backslash p
IsPath-Lacks p h = subst (Lacks backslash) (sym h.joined) (
    join-Lacks slash backslash h.names (λ q. ground arith)
      (All-map (λ s n. n.no_backslash) h.names h.proper))

IsPath-candidate : (p : Text) → IsPath p → strip p ≡ p → candidate_of p ≡ p
unfolding candidate_of
IsPath-candidate p h e =
    ap (λ t. lstrip (λ c. c == slash) (replace_char backslash slash t)) e
    ∙ ap (lstrip (λ c. c == slash)) (replace_char-same backslash slash p (IsPath-Lacks p h))
    ∙ lstrip-filled p (IsPath-starts p h)

or_else-filled : (s t : Text) → s ≢ [] → or_else s t ≡ s
or_else-filled [] t n = absurd (n refl)
or_else-filled (c ∷ s) t n = refl

IsPath-normpath : (p : Text) → IsPath p → normpath p ≡ p
unfolding normpath
IsPath-normpath p h =
    ap (λ xs. or_else (join slash (reverse (walk [] xs))) here) (IsPath-split p h)
    ∙ ap (λ xs. or_else (join slash (reverse xs)) here)
        (walk-IsName h.names [] h.proper ∙ append-nil (reverse h.names))
    ∙ ap (λ xs. or_else (join slash xs) here) (reverse-reverse h.names)
    ∙ ap (λ t. or_else t here) (sym h.joined)
    ∙ or_else-filled p here (IsPath-filled p h)

normalize_candidate-fixed : (p : Text) → IsPath p → normalize_candidate p ≡ ok p
unfolding normalize_candidate reject_escape
normalize_candidate-fixed p h =
    let e = is_empty-false p (IsPath-filled p h) in
    let e1 = IsPath-normpath p h in let e2 = IsPath-stays p h in ground (arith)

pub normalize_path-fixed : (p : Text) → IsPath p → strip p ≡ p → normalize_path p ≡ ok p
unfolding normalize_path
normalize_path-fixed p h e =
    ap normalize_candidate (IsPath-candidate p h e) ∙ normalize_candidate-fixed p h
