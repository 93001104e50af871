-- ===== src/Projects/Restored.antt =====
-- `save_version` and `restore_version` of application/project_service.py: what is saved comes back.
use workspace.Base.{
  ◌≡◌, refl, sym, ap, ◌∙◌, subst, Option, none, some, Text, text_eq, find?, any, arith, ◌>>=◌, gets,
  Ensures, Ensures-bind, after_gets, skip_reads, note_gets, after_or_raise, after_modify, follow,
  keep_then, keep_pure, ends_pure, find?-any, on_if,
}
use workspace.Domain.Errors.{ObjectId}
use workspace.Domain.Models.{Project, ProjectVersion}
use workspace.Store.{Env, World, Op}
use workspace.Store.Projects.{is_file_at, file_get, file_list_for_project, version_get}
use workspace.Projects.Files.{touch}
use workspace.Projects.Versions.{
  get_version, delete_each, upsert_entries, restore_version, restore_found, restore_files,
  version_activity,
}
use workspace.Projects.Contained.{
  SameTrees, KeepsTrees, now-KeepsTrees, project_update-KeepsTrees, record_activity-KeepsTrees,
}
use workspace.Projects.Contained.Keyed.{OnePerPath}
use workspace.Projects.Trees.{
  Content, content_of, content_at, entry_at, or_content, OneEntryPerPath, delete_each-get,
  upsert_entries-content,
}
use workspace.Projects.Trees.Sorted.{listed-find}

-- A statement on the tables of files and versions alone.
abbrev pub OnTrees : (World → Type 0) → Type 0
OnTrees Q = (w w' : World) → SameTrees w w' → Q w → Q w'

module _ {Q : World → Type 0} (on : OnTrees Q) where
  pub unmoved : {A : Type 0} {m : Op A} → KeepsTrees m → Ensures Q m (λ _. Q)
  unmoved k = record { at = λ w a w' q h. on w w' (k.at w a w' h) q }

  pub touch-unmoved : (env : Env) (p : Project) → Ensures Q (touch env p) (λ _. Q)
  unfolding touch
  touch-unmoved env p =
      follow _ _ (unmoved (now-KeepsTrees env)) λ at. unmoved (project_update-KeepsTrees _)

pub content-same :
    (project : ObjectId) (w w' : World) (q : Text)
    → SameTrees w w'
    → content_at project w' q ≡ content_at project w q
unfolding file_get
content-same project w w' q s = ap (λ rows. content_of (find? (is_file_at project q) rows)) s.files

-- A project holds what a version holds.
abbrev pub Holds : ProjectVersion → World → Type 0
Holds v w = (path : Text) → content_at v.project_id w path ≡ entry_at v.files path

abbrev Empty : ObjectId → World → Type 0
Empty project w = (path : Text) → file_get project path w ≡ none

Holds-OnTrees : (v : ProjectVersion) → OnTrees (Holds v)
unfolding file_get
Holds-OnTrees v w w' s h path =
    ap (λ rows. content_of (find? (is_file_at v.project_id path) rows)) s.files ∙ h path

Empty-OnTrees : (project : ObjectId) → OnTrees (Empty project)
unfolding file_get
Empty-OnTrees project w w' s h path = ap (find? (is_file_at project path)) s.files ∙ h path

emptied :
    (project : ObjectId) (w : World)
    → OnePerPath w.project_files
    → Empty project (delete_each project (file_list_for_project project w) w)
emptied project w one path =
    delete_each-get project path _ w
    ∙ on_if (λ o. o ≡ none) (any (λ f. text_eq f.path path) (file_list_for_project project w))
        (λ _. refl)
        (λ e. sym (listed-find project path w one) ∙ find?-any (λ f. text_eq f.path path) _ e)

or_content-none : (o : Option Content) → or_content o none ≡ o
or_content-none none = refl
or_content-none (some c) = refl

filled :
    (v : ProjectVersion) (at : _) (w : World)
    → OneEntryPerPath v.files
    → Empty v.project_id w
    → Holds v (upsert_entries v.project_id at v.files w)
filled v at w one e path =
    upsert_entries-content v.project_id at path v.files w one
    ∙ ap (λ o. or_content (entry_at v.files path) (content_of o)) (e path)
    ∙ or_content-none (entry_at v.files path)

abbrev pub IsFound : ObjectId → ProjectVersion → World → Type 0
IsFound i v w = (version_get i w ≡ some v) × OnePerPath w.project_files

get_version-IsFound :
    (user i : ObjectId) (v : ProjectVersion)
    → Ensures (IsFound i v) (get_version user i) (λ u w. (u ≡ v) × OnePerPath w.project_files)
unfolding get_version
get_version-IsFound user i v =
    note_gets (λ found. found ≡ some v) _ _ (λ w e. e.0)
      λ found e.
        after_or_raise _ _ _
          λ u e1. skip_reads _ _ λ access. ends_pure u (λ w p. (ground (arith), p.1))

restored-Holds :
    (env : Env) (user : ObjectId) (v : ProjectVersion) (p : Project)
    → OneEntryPerPath v.files
    → Ensures
        (λ w. OnePerPath w.project_files)
        (gets (file_list_for_project v.project_id) >>= λ files. restore_files env user v p files)
        (λ _. Holds v)
unfolding restore_files version_activity
restored-Holds env user v p one = after_gets _ _ λ files.
    after_modify _ _
      (λ w q.
        subst (λ fs. Empty v.project_id (delete_each v.project_id fs w)) q.1
          (emptied v.project_id w q.0))
      (follow _ _ (unmoved (Empty-OnTrees v.project_id) (now-KeepsTrees env)) λ at.
        after_modify _ _ (λ w. filled v at w one)
          (keep_then _ _ (touch-unmoved (Holds-OnTrees v) env p) (
            keep_then _ _ (unmoved (Holds-OnTrees v) (record_activity-KeepsTrees env user _))
              (keep_pure _))))

pub restore_version-Holds :
    (env : Env) (user i : ObjectId) (v : ProjectVersion)
    → OneEntryPerPath v.files
    → Ensures (IsFound i v) (restore_version env user i) (λ _. Holds v)
unfolding restore_version restore_found
restore_version-Holds env user i v one =
    Ensures-bind (λ u w. (u ≡ v) × OnePerPath w.project_files) _ _ (get_version-IsFound user i v)
      (λ u. record { at = λ w b w' q h. (same u q.0).at w b w' q.1 h })
  where
    same :
        (u : ProjectVersion)
        → u ≡ v
        → Ensures (λ w. OnePerPath w.project_files) (restore_found env user u) (λ _. Holds v)
    same u e = skip_reads _ _ λ access.
        subst
          (λ x.
            Ensures (λ w. OnePerPath w.project_files)
              (gets (file_list_for_project u.project_id) >>= λ files.
                restore_files env user u access.project files)
              (λ _. Holds x))
          e
          (restored-Holds env user u access.project
            (subst (λ x. OneEntryPerPath x.files) (sym e) one))
