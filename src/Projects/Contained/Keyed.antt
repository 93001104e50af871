-- ===== src/Projects/Contained/Keyed.antt =====
-- A project has one file at a path, as the primary key of the table says.
use workspace.Base.{
  ◌≤◌, ◌≡◌, refl, sym, subst, Bool, false, List, [], ◌∷◌, ◌++◌, Text, count, any, filter, on_if,
  arith, count-append, count-filter_le, count-any, count-update_first, Bool-cases, inl, inr,
}
use workspace.Domain.Errors.{ObjectId}
use workspace.Domain.Models.{ProjectFile}
use workspace.Store.{World}
use workspace.Store.Projects.{is_file_at, upsert_rows, file_upsert, file_delete, file_delete_under}
use workspace.Store.Projects.FileLaws.{is_file_at-eq}
use workspace.Projects.Contained.{IsContained, TreeLaw}
use workspace.Projects.Contained.Law.{IsContained-TreeLaw, version_add-rows}

abbrev pub OnePerPath : List ProjectFile → Type 0
OnePerPath rows = (project : ObjectId) (path : Text) → count (is_file_at project path) rows ≤ 1

appended :
    (project : ObjectId) (path : Text) (f : ProjectFile) (rows : List ProjectFile)
    → count (is_file_at project path) rows ≤ 1
    → any (is_file_at f.project_id f.path) rows ≡ false
    → count (is_file_at project path) (rows ++ f ∷ []) ≤ 1
appended project path f rows h e =
    let split = count-append (is_file_at project path) rows (f ∷ []) in
    elim (Bool-cases (is_file_at project path f)) [
      | inl k ↦
          let (e1, e2) = is_file_at-eq project path f k in
          let free : any (is_file_at project path) rows ≡ false =
            subst (λ i. any (is_file_at i path) rows ≡ false) e1
              (subst (λ t. any (is_file_at f.project_id t) rows ≡ false) e2 e) in
          let none_there = count-any (is_file_at project path) rows free in ground (arith)
      | inr k ↦ ground (arith)
    ]

upsert_rows-OnePerPath :
    (f : ProjectFile) (rows : List ProjectFile) → OnePerPath rows → OnePerPath (upsert_rows f rows)
unfolding upsert_rows
upsert_rows-OnePerPath f rows h project path =
    on_if (λ t. count (is_file_at project path) t ≤ 1) (any (is_file_at f.project_id f.path) rows)
      (λ _.
        subst (λ n. n ≤ 1)
          (sym (
            count-update_first (is_file_at project path) (is_file_at f.project_id f.path) _
              (λ r. refl) rows))
          (h project path))
      (λ e. appended project path f rows (h project path) e)

pub record IsKeyed (w : World) : Type 0 where
  pub contained : IsContained w
  pub one : OnePerPath w.project_files

filtered :
    (q : ProjectFile → Bool) (rows : List ProjectFile)
    → OnePerPath rows
    → OnePerPath (filter q rows)
filtered q rows h project path =
    let fewer = count-filter_le (is_file_at project path) q rows in
    let bound = h project path in ground (arith)

pub IsKeyed-TreeLaw : TreeLaw IsKeyed
unfolding file_upsert file_delete file_delete_under
IsKeyed-TreeLaw =
    let law = IsContained-TreeLaw in
    record {
      contained = λ w k. k.contained;
      same = λ w w' s k. record {
        contained = law.same w w' s k.contained;
        one = subst OnePerPath (sym s.files) k.one;
      };
      upserted = λ f w n k. record {
        contained = law.upserted f w n k.contained;
        one = upsert_rows-OnePerPath f w.project_files k.one;
      };
      deleted = λ project path w k. record {
        contained = law.deleted project path w k.contained;
        one = filtered _ w.project_files k.one;
      };
      deleted_under = λ same project prefix w k. record {
        contained = law.deleted_under same project prefix w k.contained;
        one = filtered _ w.project_files k.one;
      };
      version_added = λ v w w' n h k. record {
        contained = law.version_added v w w' n h k.contained;
        one =
            subst (λ x. OnePerPath x.project_files) (sym ((version_add-rows v w w' h).rows)) k.one;
      };
    }
