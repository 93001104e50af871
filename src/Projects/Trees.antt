-- ===== src/Projects/Trees.antt =====
-- What stands at each path: the files of a project and the entries of a version as maps, which forget
-- the order of the rows, and the loops of application/project_service.py on them.
pub mod Sorted
use workspace.Base.{
  ℕ, ◌+◌, ◌≤◌, ◌≡◌, ◌≢◌, refl, sym, ap, ◌∙◌, subst, ◌==◌, ==_refl, Bool, true, false, ◌&&◌, Option,
  none, some, List, [], ◌∷◌, Text, text_eq, text_eq-eq, find?, any, count, filter, if◌then◌else◌,
  on_if, Bool-cases, inl, inr, arith, count-find,
}
use workspace.Domain.Errors.{ObjectId}
use workspace.Domain.Models.{Time, ProjectFile, ProjectVersionFile}
use workspace.Store.{World}
use workspace.Store.Projects.{is_file_at, file_get, file_upsert, file_delete}
use workspace.Store.Projects.FileLaws.{file_get-upsert, file_get-delete}
use workspace.Projects.Versions.{delete_each, upsert_entries, restored_file, entries_of}

-- Size and digest.
abbrev pub Content : Type 0
Content = ℕ × Text

abbrev pub content_of : Option ProjectFile → Option Content
content_of none = none
content_of (some f) = some (f.size, f.content_hash)

-- What a project holds at a path.
abbrev pub content_at : ObjectId → World → Text → Option Content
content_at project w path = content_of (file_get project path w)

abbrev pub has_path : Text → ProjectVersionFile → Bool
has_path path e = text_eq e.path path

abbrev pub entry_of : Option ProjectVersionFile → Option Content
entry_of none = none
entry_of (some e) = some (e.size, e.content_hash)

-- What a version holds at a path.
abbrev pub entry_at : List ProjectVersionFile → Text → Option Content
entry_at es path = entry_of (find? (has_path path) es)

-- The first, if there is one.
abbrev pub or_content : Option Content → Option Content → Option Content
or_content none d = d
or_content (some c) d = some c

abbrev pub OneEntryPerPath : List ProjectVersionFile → Type 0
OneEntryPerPath es = (path : Text) → count (has_path path) es ≤ 1

pub delete_each-get :
    (project : ObjectId) (path : Text) (fs : List ProjectFile) (w : World)
    → file_get project path (delete_each project fs w)
      ≡ (if any (λ f. text_eq f.path path) fs then none else file_get project path w)
unfolding delete_each
delete_each-get project path [] w = refl
delete_each-get project path (f ∷ fs) w =
    delete_each-get project path fs (file_delete project f.path w)
    ∙ (let gone = file_get-delete project project path f.path w in
        let self = ==_refl project in ground (arith))

tail_one :
    (e : ProjectVersionFile) (es : List ProjectVersionFile)
    → OneEntryPerPath (e ∷ es)
    → OneEntryPerPath es
tail_one e es h path = let b = h path in ground (arith)

-- The entry in front against those behind it.
placed :
    (project : ObjectId) (path : Text) (at : Time) (e : ProjectVersionFile)
    (es : List ProjectVersionFile) (old : Option ProjectFile)
    → count (has_path path) (e ∷ es) ≤ 1
    → or_content (entry_at es path) (
        content_of (
          if is_file_at project path (restored_file project at e)
          then some (restored_file project at e)
          else old))
      ≡ or_content (entry_at (e ∷ es) path) (content_of old)
unfolding restored_file
placed project path at e es old h =
    let self = ==_refl project in
    elim (Bool-cases (text_eq e.path path)) [
      | inl k ↦ let none_behind = count-find (has_path path) es (ground (arith)) in ground (arith)
      | inr k ↦ ground (arith)
    ]

pub upsert_entries-content :
    (project : ObjectId) (at : Time) (path : Text) (es : List ProjectVersionFile) (w : World)
    → OneEntryPerPath es
    → content_at project (upsert_entries project at es w) path
      ≡ or_content (entry_at es path) (content_at project w path)
unfolding upsert_entries restored_file
upsert_entries-content project at path [] w h = refl
upsert_entries-content project at path (e ∷ es) w h =
    upsert_entries-content project at path es _ (tail_one e es h)
    ∙ ap (or_content (entry_at es path))
        (ap content_of (file_get-upsert project path (restored_file project at e) w))
    ∙ placed project path at e es (file_get project path w) (h path)
