-- ===== src/Store/Projects/FileLaws.antt =====
-- What is found at a path after the table of files was written.
use mathlib.Core.Bool.{true≢false}
use workspace.Base.{
  ℕ, Bool, ◌==◌, ==_swap, true, false, ◌&&◌, none, some, List, Text, text_eq, text_eq-eq,
  text_eq_refl, find?, any, filter, not, if◌then◌else◌, Bool-cases, on_if, inl, inr, ◌≡◌, sym, ap,
  ◌∙◌, arith, find?-filter_gone, find?-filter_kept, find?-update_row, find?-append_row,
}
use workspace.Domain.Errors.{ObjectId}
use workspace.Domain.Models.{ProjectFile}
use workspace.Store.{World}
use workspace.Store.Projects.{
  is_file_at, file_get, upsert_rows, file_upsert, file_delete, is_file_under, like_prefix,
  file_delete_under,
}

-- A row at a path has that path's project and path.
pub is_file_at-eq :
    (project : ObjectId) (path : Text) (f : ProjectFile)
    → is_file_at project path f ≡ true
    → (f.project_id ≡ project) × (f.path ≡ path)
is_file_at-eq project path f h = (ground (arith), text_eq-eq f.path path (ground (arith)))

pub is_file_at_refl : (f : ProjectFile) → is_file_at f.project_id f.path f ≡ true
is_file_at_refl f = ground (arith, text_eq_refl f.path)

-- What an upsert makes of a row at the path of `f`.
rewritten :
    (project : ObjectId) (path : Text) (f r : ProjectFile)
    → is_file_at f.project_id f.path r ≡ true
    → (◌≡◌ {A = ProjectFile}
        (record r { size = f.size; content_hash = f.content_hash; updated_at = f.updated_at })
        f)
      × (is_file_at project path r ≡ is_file_at project path f)
rewritten project path f r h = let (e1, e2) = is_file_at-eq f.project_id f.path r h in (cc, cc)

sole_at :
    (project : ObjectId) (path : Text) (f : ProjectFile)
    → is_file_at project path f ≡ true
    → (r : ProjectFile) → is_file_at project path r ≡ is_file_at f.project_id f.path r
sole_at project path f h r =
    let (e1, e2) = is_file_at-eq project path f h in
    ap (λ i. (r.project_id == i) && text_eq r.path path) (sym e1)
    ∙ ap (λ t. (r.project_id == f.project_id) && text_eq r.path t) (sym e2)

upsert_rows-find :
    (project : ObjectId) (path : Text) (f : ProjectFile) (rows : List ProjectFile)
    → find? (is_file_at project path) (upsert_rows f rows)
      ≡ (if is_file_at project path f then some f else find? (is_file_at project path) rows)
unfolding upsert_rows
upsert_rows-find project path f rows =
    on_if
      (λ t.
        find? (is_file_at project path) t
        ≡ (if is_file_at project path f then some f else find? (is_file_at project path) rows))
      (any (is_file_at f.project_id f.path) rows)
      (λ e.
        find?-update_row (is_file_at f.project_id f.path) (is_file_at project path) _ f
          (rewritten project path f) (sole_at project path f) rows e)
      (λ e.
        find?-append_row (is_file_at f.project_id f.path) (is_file_at project path) (λ r. r) f
          (sole_at project path f) rows e)

pub file_get-upsert :
    (project : ObjectId) (path : Text) (f : ProjectFile) (w : World)
    → file_get project path (file_upsert f w)
      ≡ (if is_file_at project path f then some f else file_get project path w)
unfolding file_get file_upsert
file_get-upsert project path f w = upsert_rows-find project path f w.project_files

at_place :
    (project : ObjectId) (path : Text) (f : ProjectFile)
    → f.project_id ≡ project
    → f.path ≡ path
    → is_file_at project path f ≡ true
at_place project path f e e1 = let e2 = is_file_at_refl f in cc

reaches :
    (project other : ObjectId) (path gone : Text) (f : ProjectFile)
    → is_file_at project path f ≡ true
    → (other == project) && text_eq gone path ≡ true
    → is_file_at other gone f ≡ true
reaches project other path gone f h e =
    let (e1, e2) = is_file_at-eq project path f h in
    let e3 : other ≡ project = ground (arith) in
    let e4 : gone ≡ path = text_eq-eq gone path (ground (arith)) in
    at_place other gone f (e1 ∙ sym e3) (e2 ∙ sym e4)

both_refl : (a b : ObjectId) (s t : Text) → a ≡ b → s ≡ t → ((a == b) && text_eq s t) ≡ true
both_refl a b s t e e1 =
    let e2 = text_eq_refl s in let e3 : text_eq s t ≡ true = cc in ground (arith)

misses :
    (project other : ObjectId) (path gone : Text) (f : ProjectFile)
    → is_file_at project path f ≡ true
    → (other == project) && text_eq gone path ≡ false
    → is_file_at other gone f ≡ false
misses project other path gone f h e = elim (Bool-cases (is_file_at other gone f)) [
  | inl k ↦
      let (e1, e2) = is_file_at-eq project path f h in
      let (e3, e4) = is_file_at-eq other gone f k in
      let same : other ≡ project = sym e3 ∙ e1 in
      let same_path : gone ≡ path = sym e4 ∙ e2 in
      absurd (true≢false (sym (both_refl other project gone path same same_path) ∙ e))
  | inr k ↦ k
]

under_same :
    (same : ℕ → ℕ → Bool) (project other : ObjectId) (path prefix : Text) (f : ProjectFile)
    → is_file_at project path f ≡ true
    → is_file_under same other prefix f ≡ ((other == project) && like_prefix same path prefix)
under_same same project other path prefix f h =
    let (e1, e2) = is_file_at-eq project path f h in
    ap (λ i. (i == other) && like_prefix same f.path prefix) e1
    ∙ ap (λ t. (project == other) && like_prefix same t prefix) e2
    ∙ ap (λ b. b && like_prefix same path prefix) (==_swap project other)

pub file_get-delete :
    (project other : ObjectId) (path gone : Text) (w : World)
    → file_get project path (file_delete other gone w)
      ≡ (if (other == project) && text_eq gone path then none else file_get project path w)
unfolding file_get file_delete
file_get-delete project other path gone w =
    on_if
      (λ t.
        find? (is_file_at project path)
          (filter (λ f. not (is_file_at other gone f)) w.project_files)
        ≡ t)
      ((other == project) && text_eq gone path)
      (λ e.
        find?-filter_gone (is_file_at other gone) (is_file_at project path)
          (λ x h. reaches project other path gone x h e) w.project_files)
      (λ e.
        find?-filter_kept (is_file_at other gone) (is_file_at project path)
          (λ x h. misses project other path gone x h e) w.project_files)

pub file_get-delete_under :
    (same : ℕ → ℕ → Bool) (project other : ObjectId) (path prefix : Text) (w : World)
    → file_get project path ((file_delete_under same other prefix w).1) ≡ (
        if (other == project) && like_prefix same path prefix
        then none
        else file_get project path w)
unfolding file_get file_delete_under
file_get-delete_under same project other path prefix w =
    on_if
      (λ t.
        find? (is_file_at project path)
          (filter (λ f. not (is_file_under same other prefix f)) w.project_files)
        ≡ t)
      ((other == project) && like_prefix same path prefix)
      (λ e.
        find?-filter_gone (is_file_under same other prefix) (is_file_at project path)
          (λ x h. under_same same project other path prefix x h ∙ e) w.project_files)
      (λ e.
        find?-filter_kept (is_file_under same other prefix) (is_file_at project path)
          (λ x h. under_same same project other path prefix x h ∙ e) w.project_files)
