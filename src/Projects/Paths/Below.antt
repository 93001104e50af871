-- ===== src/Projects/Paths/Below.antt =====
-- A path below a directory, moved below another.
use mathlib.Core.List.{append_assoc, append-nil}
use workspace.Base.{
  ℕ, ◌==◌, true, false, ◌||◌, List, [], ◌∷◌, ◌++◌, Text, text_eq, text_eq-eq, All, All-append,
  split, join, onto_first, length, drop, starts_with, on_if, Bool-cases, ◌≡◌, refl, sym, ap, ◌∙◌,
  subst, ◌≢◌, inl, inr, arith,
}
use workspace.Projects.Paths.{slash}
use workspace.Projects.Paths.Names.{IsName, IsPath}
use workspace.Projects.Paths.Fixed.{starts_with-append, IsPath-split}

onto_first-append :
    (c : ℕ) (xs ys : List Text) → xs ≢ [] → onto_first c (xs ++ ys) ≡ onto_first c xs ++ ys
onto_first-append c [] ys n = absurd (n refl)
onto_first-append c (x ∷ xs) ys n = refl

onto_first-filled : (c : ℕ) (xs : List Text) → onto_first c xs ≢ []
onto_first-filled c [] q = cc
onto_first-filled c (x ∷ xs) q = cc

pub split-filled : (sep : ℕ) (s : Text) → split sep s ≢ []
unfolding split
split-filled sep [] = λ q. cc
split-filled sep (c ∷ s) =
    on_if (λ xs. xs ≢ []) (c == sep) (λ _ q. cc) (λ _. onto_first-filled c (split sep s))

split-other :
    (sep c : ℕ) (s : Text) → (c == sep) ≡ false → split sep (c ∷ s) ≡ onto_first c (split sep s)
unfolding split
split-other sep c s e = ground (arith)

pub split-append : (sep : ℕ) (s r : Text) → split sep (s ++ sep ∷ r) ≡ split sep s ++ split sep r
unfolding split
split-append sep [] r = ground arith
split-append sep (c ∷ s) r = elim (Bool-cases (c == sep)) [
  | inl e ↦ ground (arith, split-append sep s r)
  | inr e ↦
      split-other sep c (s ++ sep ∷ r) e
      ∙ ap (onto_first c) (split-append sep s r)
      ∙ onto_first-append c (split sep s) (split sep r) (split-filled sep s)
      ∙ ap (λ xs. xs ++ split sep r) (sym (split-other sep c s e))
]

onto_first-join :
    (sep c : ℕ) (xs : List Text) → xs ≢ [] → join sep (onto_first c xs) ≡ c ∷ join sep xs
unfolding join
onto_first-join sep c [] n = absurd (n refl)
onto_first-join sep c (x ∷ []) n = refl
onto_first-join sep c (x ∷ y ∷ xs) n = refl

empty-join : (sep : ℕ) (xs : List Text) → xs ≢ [] → join sep ([] ∷ xs) ≡ sep ∷ join sep xs
unfolding join
empty-join sep [] n = absurd (n refl)
empty-join sep (x ∷ xs) n = refl

pub join-split : (sep : ℕ) (s : Text) → join sep (split sep s) ≡ s
unfolding split join
join-split sep [] = refl
join-split sep (c ∷ s) = elim (Bool-cases (c == sep)) [
  | inl e ↦
      let here : c ≡ sep = ground (arith) in
      let parts : split sep (c ∷ s) ≡ [] ∷ split sep s = ground (arith) in
      ap (join sep) parts
      ∙ empty-join sep (split sep s) (split-filled sep s)
      ∙ ap (λ t. sep ∷ t) (join-split sep s)
      ∙ ap (λ d. d ∷ s) (sym here)
  | inr e ↦
      ap (join sep) (split-other sep c s e)
      ∙ onto_first-join sep c (split sep s) (split-filled sep s)
      ∙ ap (λ t. c ∷ t) (join-split sep s)
]

join-append :
    (sep : ℕ) (xs ys : List Text)
    → xs ≢ []
    → ys ≢ []
    → join sep (xs ++ ys) ≡ join sep xs ++ sep ∷ join sep ys
unfolding join
join-append sep [] ys n k = absurd (n refl)
join-append sep (x ∷ []) [] n k = absurd (k refl)
join-append sep (x ∷ []) (y ∷ ys) n k = refl
join-append sep (x ∷ z ∷ xs) ys n k =
    ap (λ t. x ++ sep ∷ t) (join-append sep (z ∷ xs) ys (λ q. cc) k)
    ∙ sym (append_assoc x (sep ∷ join sep (z ∷ xs)) (sep ∷ join sep ys))

append-filled : {A : Type 0} (xs ys : List A) → xs ≢ [] → xs ++ ys ≢ []
append-filled [] ys n q = absurd (n refl)
append-filled (x ∷ xs) ys n q = cc

All-second : {A : Type 0} (P : A → Type 0) (xs ys : List A) → All P (xs ++ ys) → All P ys
All-second P [] ys h = h
All-second P (x ∷ xs) ys (h, hs) = All-second P xs ys hs

-- The rest of a path below `src` can stand below any other path.
pub IsPath-below :
    (src dst r : Text) → IsPath (src ++ slash ∷ r) → IsPath dst → IsPath (dst ++ slash ∷ r)
IsPath-below src dst r h d = record {
  names = d.names ++ split slash r;
  nonempty = append-filled d.names (split slash r) d.nonempty;
  proper = All-append IsName d.names (split slash r) d.proper (
      All-second IsName (split slash src) (split slash r)
        (subst (All IsName) (sym (IsPath-split _ h) ∙ split-append slash src r) h.proper));
  joined =
      ap (λ t. t ++ slash ∷ r) d.joined
      ∙ ap (λ t. join slash d.names ++ slash ∷ t) (sym (join-split slash r))
      ∙ sym (join-append slash d.names (split slash r) d.nonempty (split-filled slash r));
}

pub drop-length : (s r : Text) → drop (length s) (s ++ r) ≡ r
drop-length [] r = refl
drop-length (c ∷ s) r = drop-length s r

pub moved_part :
    (src dst p r : Text) → p ≡ src ++ slash ∷ r → dst ++ drop (length src) p ≡ dst ++ slash ∷ r
moved_part src dst p r e =
    ap (λ t. dst ++ drop (length src) t) e ∙ ap (λ t. dst ++ t) (drop-length src (slash ∷ r))

pub moved_whole : (src dst p : Text) → p ≡ src → dst ++ drop (length src) p ≡ dst
moved_whole src dst p e =
    ap (λ t. dst ++ drop (length src) t) (e ∙ sym (append-nil src))
    ∙ ap (λ t. dst ++ t) (drop-length src [])
    ∙ append-nil dst

pub IsPath-moved :
    (src dst p : Text)
    → (text_eq p src || starts_with p (src ++ slash ∷ [])) ≡ true
    → IsPath p
    → IsPath dst
    → IsPath (dst ++ drop (length src) p)
IsPath-moved src dst p h n d = elim (Bool-cases (text_eq p src)) [
  | inl e ↦ subst IsPath (sym (moved_whole src dst p (text_eq-eq p src e))) d
  | inr e ↦
      let (r, e1) = starts_with-append p (src ++ slash ∷ []) (ground (arith)) in
      let e2 : p ≡ src ++ slash ∷ r = e1 ∙ append_assoc src (slash ∷ []) r in
      subst IsPath (sym (moved_part src dst p r e2)) (IsPath-below src dst r (subst IsPath e2 n) d)
]
