-- ===== src/Projects/Moved/Result.antt =====
-- `move_path` of application/project_service.py: what the call leaves where.
use mathlib.Core.Bool.{true≢false}
use workspace.Base.{
  ◌≤◌, ◌≡◌, ◌≢◌, refl, sym, ap, ◌∙◌, subst, true, false, ◌||◌, some, List, Text, text_eq,
  text_eq-eq, text_eq_refl, starts_with, find?, count, filter, count-filter_le, find?-filter_within,
  arith, ok, Ensures, skip_reads, note_gets, check_ok, check_ok, after_raise_if, after_modify,
  follow, keep_then, keep_pure, weaken,
}
use workspace.Domain.Errors.{ObjectId}
use workspace.Domain.Models.{ProjectFile}
use workspace.Store.{Env, World}
use workspace.Store.Projects.{file_get, file_list_for_project}
use workspace.Projects.Paths.{normalize_path}
use workspace.Projects.Files.{below, is_at_or_below, move_path}
use workspace.Projects.Contained.{now-KeepsTrees}
use workspace.Projects.Contained.Keyed.{OnePerPath}
use workspace.Projects.Trees.Sorted.{listed-find, listed-count}
use workspace.Projects.Restored.{content-same, OnTrees, unmoved, touch-unmoved}
use workspace.Projects.Moved.{IsMoved, move_each-IsMoved, filter-Matched}

IsMoved-OnTrees :
    (project : ObjectId) (src dst : Text) (f : ProjectFile) → OnTrees (IsMoved project src dst f)
IsMoved-OnTrees project src dst f w w' s (h, k) =
    (content-same project w w' _ s ∙ h, content-same project w w' _ s ∙ k)

-- The listing, cut down to what is moved, has the file that stands at `q`.
matched-find :
    (project : ObjectId) (src q : Text) (w : World)
    → OnePerPath w.project_files
    → (text_eq q src || starts_with q (below src)) ≡ true
    → find? (λ g. text_eq g.path q) (filter (is_at_or_below src) (file_list_for_project project w))
      ≡ file_get project q w
matched-find project src q w one h =
    find?-filter_within (λ g. text_eq g.path q) (is_at_or_below src)
      (λ x e. ap (λ t. text_eq t src || starts_with t (below src)) (text_eq-eq x.path q e) ∙ h)
      (file_list_for_project project w)
    ∙ listed-find project q w one

matched-count :
    (project : ObjectId) (src q : Text) (w : World)
    → OnePerPath w.project_files
    → count (λ g. text_eq g.path q) (filter (is_at_or_below src) (file_list_for_project project w))
      ≤ 1
matched-count project src q w one =
    let fewer =
      count-filter_le (λ g. text_eq g.path q) (is_at_or_below src)
        (file_list_for_project project w) in
    let same = listed-count project q w in let bound = one project q in ground (arith)

differ : (s t : Text) → text_eq s t ≡ false → s ≢ t
differ s t h e = true≢false (sym (text_eq_refl s) ∙ ap (text_eq s) e ∙ h)

module _ (env : Env) (user project : ObjectId) (source destination src dst q : Text)
    (f : ProjectFile) (w0 : World) where
  move_path-Ensures :
      OnePerPath w0.project_files
      → normalize_path source ≡ ok src
      → normalize_path destination ≡ ok dst
      → starts_with src (below dst) ≡ false
      → (text_eq q src || starts_with q (below src)) ≡ true
      → file_get project q w0 ≡ some f
      → Ensures
          (λ w. w ≡ w0)
          (move_path env user project source destination)
          (λ _. IsMoved project src dst f)
  unfolding move_path
  move_path-Ensures one e e1 out under found = skip_reads _ _ λ access. check_ok _ _ src e (
      check_ok _ _ dst e1 (
        after_raise_if _ _ _ λ other. after_raise_if _ _ _ λ into.
          note_gets (λ files. files ≡ file_list_for_project project w0) _ _
            (λ w k. ap (file_list_for_project project) k)
            λ files listed. after_raise_if _ _ _ λ some_matched.
              weaken {P' = λ w. Unit {0}} (λ w k. tt)
                (follow _ _ (unmoved (λ w w' s u. tt) (now-KeepsTrees env)) λ at.
                  after_modify _ _
                    (λ w u.
                      move_each-IsMoved project src dst at q f (filter (is_at_or_below src) files) w
                        (record { other = differ src dst other; not_into = into; not_out = out })
                        (filter-Matched src files)
                        (subst
                          (λ x. count (λ g. text_eq g.path q) (filter (is_at_or_below src) x) ≤ 1)
                          (sym listed) (matched-count project src q w0 one))
                        (ap (λ x. find? (λ g. text_eq g.path q) (filter (is_at_or_below src) x))
                            listed
                          ∙ matched-find project src q w0 one under
                          ∙ found))
                    (keep_then _ _
                      (touch-unmoved (IsMoved-OnTrees project src dst f) env access.project)
                      (keep_pure _)))))

-- A file below the source of a move is found at its new place and no more at its old one, unless the
-- destination lies above the source.
pub move_path-IsMoved :
    (env : Env) (user project : ObjectId) (source destination src dst : Text) (f : ProjectFile)
    (w w' : World) (fs : List ProjectFile)
    → OnePerPath w.project_files
    → normalize_path source ≡ ok src
    → normalize_path destination ≡ ok dst
    → starts_with src (below dst) ≡ false
    → is_at_or_below src f ≡ true
    → file_get project f.path w ≡ some f
    → move_path env user project source destination w ≡ ok (fs, w')
    → IsMoved project src dst f w'
move_path-IsMoved env user project source destination src dst f w w' fs one e e1 out under found h =
    (move_path-Ensures env user project source destination src dst f.path f w one e e1 out under
        found).at
      w fs w' refl h
