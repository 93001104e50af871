-- ===== src/Projects/Trees/Sorted.antt =====
-- Listing the files of a project and making them a version's entries keeps what stands at each path.
use mathlib.Core.Bool.{true≢false}
use workspace.Base.{
  ◌+◌, ◌≤◌, ◌≡◌, refl, sym, ap, ◌∙◌, ◌==◌, Bool, true, none, some, List, [], ◌∷◌, Text, text_eq,
  find?, count, filter, if◌then◌else◌, Bool-cases, inl, inr, arith, count-find, subst,
}
use workspace.Domain.Errors.{ObjectId}
use workspace.Domain.Models.{ProjectFile}
use workspace.Store.{World}
use workspace.Store.Projects.{
  is_file_at, file_get, file_list_for_project, sort_by_path, insert_by_path,
}
use workspace.Projects.Versions.{entries_of}
use workspace.Projects.Trees.{content_of, content_at, entry_at, has_path, OneEntryPerPath}
use workspace.Projects.Contained.Keyed.{OnePerPath}

module _ (p : ProjectFile → Bool) where
  insert_by_path-count :
      (f : ProjectFile) (fs : List ProjectFile)
      → count p (insert_by_path f fs) ≡ (if p f then 1 else 0) + count p fs
  unfolding insert_by_path
  insert_by_path-count f [] = refl
  insert_by_path-count f (g ∷ gs) = ground (arith, insert_by_path-count f gs)

  sort_by_path-count : (fs : List ProjectFile) → count p (sort_by_path fs) ≡ count p fs
  unfolding sort_by_path
  sort_by_path-count [] = refl
  sort_by_path-count (f ∷ fs) =
      insert_by_path-count f (sort_by_path fs)
      ∙ ap (λ n. (if p f then 1 else 0) + n) (sort_by_path-count fs)

  insert_by_path-find :
      (f : ProjectFile) (fs : List ProjectFile)
      → (p f ≡ true → find? p fs ≡ none)
      → find? p (insert_by_path f fs) ≡ (if p f then some f else find? p fs)
  unfolding insert_by_path
  insert_by_path-find f [] h = refl
  insert_by_path-find f (g ∷ gs) h = elim (Bool-cases (p f)) [
    | inl e ↦
        let absent = h e in
        let rest = insert_by_path-find f gs (λ _. ground (arith)) in ground (arith)
    | inr e ↦
        let rest = insert_by_path-find f gs (λ k. absurd (true≢false (sym k ∙ e))) in ground (arith)
  ]

  sort_by_path-find :
      (fs : List ProjectFile) → count p fs ≤ 1 → find? p (sort_by_path fs) ≡ find? p fs
  unfolding sort_by_path
  sort_by_path-find [] h = refl
  sort_by_path-find (f ∷ fs) h =
      let counted = sort_by_path-count fs in
      insert_by_path-find f (sort_by_path fs) (λ k. count-find p (sort_by_path fs) (ground (arith)))
      ∙ ap (λ t. if p f then some f else t) (sort_by_path-find fs (ground (arith)))

find?-entries_of :
    (path : Text) (fs : List ProjectFile)
    → entry_at (entries_of fs) path ≡ content_of (find? (λ f. text_eq f.path path) fs)
unfolding entries_of
find?-entries_of path [] = refl
find?-entries_of path (f ∷ fs) = ground (arith, find?-entries_of path fs)

count-entries_of :
    (path : Text) (fs : List ProjectFile)
    → count (has_path path) (entries_of fs) ≡ count (λ f. text_eq f.path path) fs
unfolding entries_of
count-entries_of path [] = refl
count-entries_of path (f ∷ fs) = ground (arith, count-entries_of path fs)

module _ (project : ObjectId) (path : Text) where
  -- Within a project, the path alone tells.
  own_find :
      (rows : List ProjectFile)
      → find? (λ f. text_eq f.path path) (filter (λ f. f.project_id == project) rows)
        ≡ find? (is_file_at project path) rows
  own_find [] = refl
  own_find (f ∷ rows) = ground (arith, own_find rows)

  own_count :
      (rows : List ProjectFile)
      → count (λ f. text_eq f.path path) (filter (λ f. f.project_id == project) rows)
        ≡ count (is_file_at project path) rows
  own_count [] = refl
  own_count (f ∷ rows) = ground (arith, own_count rows)

  pub listed-find :
      (w : World)
      → OnePerPath w.project_files
      → find? (λ f. text_eq f.path path) (file_list_for_project project w) ≡ file_get project path w
  unfolding file_list_for_project file_get
  listed-find w one =
      let b = one project path in
      let c = own_count w.project_files in
      sort_by_path-find (λ f. text_eq f.path path) _ (ground (arith)) ∙ own_find w.project_files

  pub listed-count :
      (w : World)
      → count (λ f. text_eq f.path path) (file_list_for_project project w)
        ≡ count (is_file_at project path) w.project_files
  unfolding file_list_for_project
  listed-count w = sort_by_path-count (λ f. text_eq f.path path) _ ∙ own_count w.project_files

  -- The entries of the sorted listing hold what the project holds.
  pub saved-entry_at :
      (w : World)
      → OnePerPath w.project_files
      → entry_at (entries_of (sort_by_path (file_list_for_project project w))) path
        ≡ content_at project w path
  saved-entry_at w one =
      let b = one project path in
      let c = listed-count w in
      find?-entries_of path _
      ∙ ap content_of
          (sort_by_path-find (λ f. text_eq f.path path) _ (ground (arith)) ∙ listed-find w one)

pub saved-OneEntryPerPath :
    (project : ObjectId) (w : World)
    → OnePerPath w.project_files
    → OneEntryPerPath (entries_of (sort_by_path (file_list_for_project project w)))
saved-OneEntryPerPath project w one path =
    subst (λ n. n ≤ 1)
      (sym (
        count-entries_of path _
        ∙ sort_by_path-count (λ f. text_eq f.path path) _
        ∙ listed-count project path w))
      (one project path)
