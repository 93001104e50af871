-- ===== src/Projects/Moved.antt =====
-- `move_path` of application/project_service.py: where the moved files are found afterwards.
pub mod Result
use mathlib.Core.List.{append_assoc, append-nil, head-eq_of_cons-eq, tail-eq_of_cons-eq}
use mathlib.Core.Bool.{true≢false}
use workspace.Base.{
  ℕ, ◌≤◌, ◌≡◌, ◌≢◌, ◌⊎◌, refl, sym, ap, ◌∙◌, subst, ==_refl, true, false, ◌||◌, none, some, List,
  [], ◌∷◌, ◌++◌, Text, text_eq, text_eq-eq, text_eq_refl, length, drop, starts_with, All, find?,
  count, filter, if◌then◌else◌, on_if, Bool-cases, inl, inr, arith,
}
use workspace.Domain.Errors.{ObjectId}
use workspace.Domain.Models.{Time, ProjectFile}
use workspace.Store.{World}
use workspace.Store.Projects.{file_upsert, file_delete}
use workspace.Store.Projects.FileLaws.{file_get-upsert, file_get-delete}
use workspace.Projects.Paths.{slash}
use workspace.Projects.Paths.Fixed.{starts_with-append}
use workspace.Projects.Paths.Below.{drop-length}
use workspace.Projects.Files.{below, is_at_or_below, moved_file, move_each}
use workspace.Projects.Trees.{content_of, content_at}

-- Of two texts that begin the same text, one begins the other.
append-overlap :
    (s d a b : Text)
    → s ++ a ≡ d ++ b
    → ((t : Text) × (s ≡ d ++ t) × (t ++ a ≡ b)) ⊎ ((t : Text) × (d ≡ s ++ t) × (t ++ b ≡ a))
append-overlap [] d a b e = inr (d, refl, sym e)
append-overlap (c ∷ s) [] a b e = inl (c ∷ s, refl, e)
append-overlap (c ∷ s) (x ∷ d) a b e =
    let same = head-eq_of_cons-eq e in
    elim (append-overlap s d a b (tail-eq_of_cons-eq e)) [
      | inl (t, e1, e2) ↦ inl (t, cc, e2)
      | inr (t, e1, e2) ↦ inr (t, cc, e2)
    ]

-- What follows a directory's path: nothing, or a slash and more.
abbrev IsSuffix : Text → Type 0
IsSuffix [] = Unit
IsSuffix (c ∷ s) = c ≡ slash

suffix_starts :
    (d : Text) (c : ℕ) (t : Text) → c ≡ slash → starts_with (d ++ c ∷ t) (below d) ≡ true
suffix_starts [] c t e = ground (arith)
suffix_starts (x ∷ d) c t e = let rest = suffix_starts d c t e in ground (arith)

-- Neither path is the other or below it.
pub record Apart (src dst : Text) : Type 0 where
  pub other : src ≢ dst
  pub not_into : starts_with dst (below src) ≡ false
  pub not_out : starts_with src (below dst) ≡ false

clash :
    (s d t a b : Text)
    → s ≢ d
    → starts_with s (below d) ≡ false
    → s ≡ d ++ t
    → t ++ a ≡ b
    → IsSuffix b
    → ⊥
clash s d [] a b n out e e1 k = n (e ∙ append-nil d)
clash s d (c ∷ t) a b n out e e1 k = true≢false (
    sym (suffix_starts d c t (subst IsSuffix (sym e1) k))
    ∙ ap (λ x. starts_with x (below d)) (sym e)
    ∙ out)

apart : (src dst a b : Text) → Apart src dst → IsSuffix a → IsSuffix b → src ++ a ≢ dst ++ b
apart src dst a b n h k e = elim (append-overlap src dst a b e) [
  | inl (t, e1, e2) ↦ clash src dst t a b n.other n.not_out e1 e2 k
  | inr (t, e1, e2) ↦ clash dst src t b a (λ q. n.other (sym q)) n.not_into e1 e2 h
]

suffix_by :
    (src p s : Text)
    → p ≡ src ++ s
    → IsSuffix s
    → (p ≡ src ++ drop (length src) p) × IsSuffix (drop (length src) p)
suffix_by src p s e k =
    let same : drop (length src) p ≡ s = ap (drop (length src)) e ∙ drop-length src s in
    (e ∙ ap (λ t. src ++ t) (sym same), subst IsSuffix (sym same) k)

-- A path at or below `src` is `src` and a suffix.
suffix_of :
    (src p : Text)
    → (text_eq p src || starts_with p (below src)) ≡ true
    → (p ≡ src ++ drop (length src) p) × IsSuffix (drop (length src) p)
suffix_of src p h = elim (Bool-cases (text_eq p src)) [
  | inl e ↦ suffix_by src p [] (text_eq-eq p src e ∙ sym (append-nil src)) tt
  | inr e ↦
      let (r, e1) = starts_with-append p (below src) (ground (arith)) in
      suffix_by src p (slash ∷ r) (e1 ∙ append_assoc src (slash ∷ []) r) refl
]

append-cancel : (s a b : Text) → s ++ a ≡ s ++ b → a ≡ b
append-cancel [] a b e = e
append-cancel (c ∷ s) a b e = append-cancel s a b (tail-eq_of_cons-eq e)

-- Different files are moved to different paths.
new_path-injective :
    (src dst p q : Text)
    → (text_eq p src || starts_with p (below src)) ≡ true
    → (text_eq q src || starts_with q (below src)) ≡ true
    → dst ++ drop (length src) p ≡ dst ++ drop (length src) q
    → p ≡ q
new_path-injective src dst p q h k e =
    let (e1, _) = suffix_of src p h in
    let (e2, _) = suffix_of src q k in
    e1
    ∙ ap (λ t. src ++ t) (append-cancel dst (drop (length src) p) (drop (length src) q) e)
    ∙ sym e2

-- No file's new path is a file's old path.
new_path-fresh :
    (src dst p q : Text)
    → Apart src dst
    → (text_eq p src || starts_with p (below src)) ≡ true
    → (text_eq q src || starts_with q (below src)) ≡ true
    → p ≢ dst ++ drop (length src) q
new_path-fresh src dst p q n h k e =
    let (e1, i) = suffix_of src p h in
    let (e2, j) = suffix_of src q k in
    apart src dst (drop (length src) p) (drop (length src) q) n i j (sym e1 ∙ e)

text_eq-false : (s t : Text) → s ≢ t → text_eq s t ≡ false
text_eq-false s t n = elim (Bool-cases (text_eq s t)) [
  | inl e ↦ absurd (n (text_eq-eq s t e))
  | inr e ↦ e
]

-- The files that are moved, all at `src` or below it.
abbrev pub Matched : Text → List ProjectFile → Type 0
Matched src = All (λ g. is_at_or_below src g ≡ true)

module _ (project : ObjectId) (src dst : Text) where
  -- What the file held stands at its new path, and nothing at its old one.
  abbrev pub IsMoved : ProjectFile → World → Type 0
  IsMoved f w =
      (content_at project w (dst ++ drop (length src) f.path) ≡ some (f.size, f.content_hash))
      × (content_at project w f.path ≡ none)

module _ (project : ObjectId) (src dst : Text) (at : Time) where
  -- One move writes the new path and clears the old one.
  moved-content :
      (f : ProjectFile) (w : World) (q : Text)
      → content_at project
          (file_upsert (moved_file project src dst at f) (file_delete project f.path w))
          q
        ≡ (if text_eq (dst ++ drop (length src) f.path) q
            then some (f.size, f.content_hash)
            else if text_eq f.path q
            then none
            else content_at project w q)
  moved-content f w q =
      let self = ==_refl project in
      let put =
        file_get-upsert project q (moved_file project src dst at f)
          (file_delete project f.path w) in
      let gone = file_get-delete project project q f.path w in ap content_of put ∙ ground (arith)

  -- Paths that no move reads or writes.
  Off : Text → List ProjectFile → Type 0
  Off q = All (λ g. (g.path ≢ q) × (dst ++ drop (length src) g.path ≢ q))

  undisturbed :
      (q : Text) (fs : List ProjectFile) (w : World)
      → Off q fs
      → content_at project (move_each project src dst at fs w) q ≡ content_at project w q
  unfolding move_each Off
  undisturbed q [] w h = refl
  undisturbed q (f ∷ fs) w ((n, k), h) =
      let e = text_eq-false f.path q n in
      let e1 = text_eq-false (dst ++ drop (length src) f.path) q k in
      undisturbed q fs _ h ∙ moved-content f w q ∙ ground (arith)

  none_other :
      (f : ProjectFile) (g : ProjectFile) (fs : List ProjectFile)
      → count (λ x. text_eq x.path f.path) (g ∷ fs) ≡ 0
      → g.path ≢ f.path
  none_other f g fs h e =
      let self = text_eq_refl f.path in
      let hit : text_eq g.path f.path ≡ true = ap (λ t. text_eq t f.path) e ∙ self in ground (arith)

  new_path-Off :
      (f : ProjectFile) (fs : List ProjectFile)
      → Apart src dst
      → is_at_or_below src f ≡ true
      → Matched src fs
      → count (λ g. text_eq g.path f.path) fs ≡ 0
      → Off (dst ++ drop (length src) f.path) fs
  unfolding Off
  new_path-Off f [] n k m c = tt
  new_path-Off f (g ∷ fs) n k (i, m) c = (
    (
      new_path-fresh src dst g.path f.path n i k,
      λ e. none_other f g fs c (new_path-injective src dst g.path f.path i k e),
    ),
    new_path-Off f fs n k m (ground (arith)),
  )

  old_path-Off :
      (f : ProjectFile) (fs : List ProjectFile)
      → Apart src dst
      → is_at_or_below src f ≡ true
      → Matched src fs
      → count (λ g. text_eq g.path f.path) fs ≡ 0
      → Off f.path fs
  unfolding Off
  old_path-Off f [] n k m c = tt
  old_path-Off f (g ∷ fs) n k (i, m) c = (
    (none_other f g fs c, λ e. new_path-fresh src dst f.path g.path n k i (sym e)),
    old_path-Off f fs n k m (ground (arith)),
  )

  head-IsMoved :
      (f : ProjectFile) (fs : List ProjectFile) (w : World)
      → Apart src dst
      → is_at_or_below src f ≡ true
      → Matched src fs
      → count (λ g. text_eq g.path f.path) fs ≡ 0
      → IsMoved project src dst f (move_each project src dst at (f ∷ fs) w)
  unfolding move_each
  head-IsMoved f fs w n k m c =
      let self = text_eq_refl (dst ++ drop (length src) f.path) in
      let self_old = text_eq_refl f.path in
      let apart_old =
        text_eq-false (dst ++ drop (length src) f.path) f.path
          (λ e. new_path-fresh src dst f.path f.path n k k (sym e)) in
      (
        undisturbed (dst ++ drop (length src) f.path) fs _ (new_path-Off f fs n k m c)
            ∙ moved-content f w (dst ++ drop (length src) f.path)
            ∙ ground (arith),
        undisturbed f.path fs _ (old_path-Off f fs n k m c)
            ∙ moved-content f w f.path
            ∙ ground (arith),
      )

  pub move_each-IsMoved :
      (q : Text) (f : ProjectFile) (fs : List ProjectFile) (w : World)
      → Apart src dst
      → Matched src fs
      → count (λ g. text_eq g.path q) fs ≤ 1
      → find? (λ g. text_eq g.path q) fs ≡ some f
      → IsMoved project src dst f (move_each project src dst at fs w)
  unfolding move_each
  move_each-IsMoved q f [] w n m c e = absurd (cc)
  move_each-IsMoved q f (g ∷ fs) w n (k, m) c e = elim (Bool-cases (text_eq g.path q)) [
    | inl hit ↦
        let same : g ≡ f = ground (arith) in
        let none_behind : count (λ x. text_eq x.path g.path) fs ≡ 0 =
          ap (λ t. count (λ x. text_eq x.path t) fs) (text_eq-eq g.path q hit) ∙ ground (arith) in
        subst (λ x. IsMoved project src dst x (move_each project src dst at (g ∷ fs) w)) same
          (head-IsMoved g fs w n k m none_behind)
    | inr miss ↦ move_each-IsMoved q f fs _ n m (ground (arith)) (ground (arith))
  ]

pub filter-Matched :
    (src : Text) (fs : List ProjectFile) → Matched src (filter (is_at_or_below src) fs)
filter-Matched src [] = tt
filter-Matched src (f ∷ fs) =
    on_if (All (λ g. is_at_or_below src g ≡ true)) (is_at_or_below src f)
      (λ e. (e, filter-Matched src fs)) (λ _. filter-Matched src fs)
