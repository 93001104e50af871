-- ===== src/Projects/Contained/Calls.antt =====
-- The calls on files and versions in application/project_service.py, one by one, and a law on the
-- tables of files and versions.
use workspace.Base.{
  ◌≡◌, subst, true, Option, none, some, List, [], ◌∷◌, Text, filter, All, All-find, on_if, arith,
  ◌>>=◌, Ensures, skip_reads, after_check, note_gets, skip_gets, follow, keep_then, keep_pure,
  after_raise_if, after_or_raise, after_modify, ends_pure, Ensures-bind, ◌==◌,
}
use workspace.Domain.Errors.{ObjectId}
use workspace.Domain.Enums.{ActivityAction}
use workspace.Domain.Models.{Time, Project, ProjectFile, ProjectVersion, ProjectVersionFile}
use workspace.Store.{Env, World, Op}
use workspace.Store.Projects.{version_get}
use workspace.Projects.Paths.Names.{IsPath, normalize_path-IsPath}
use workspace.Projects.Paths.Below.{IsPath-moved}
use workspace.Projects.Ports.{BlobStorage}
use workspace.Projects.Files.{
  is_at_or_below, move_each, touch, write_file, delete_found, delete_under, delete_path, move_path,
  below,
}
use workspace.Projects.Versions.{
  get_version, delete_each, upsert_entries, restored_file, version_activity, save_version,
  restore_version, restore_found, restore_files,
}
use workspace.Projects.Contained.{
  FilesProper, EntriesProper, IsContained, TreeLaw, framed, version_add-Ensures, upsert-Ensures,
  new_id-KeepsTrees, now-KeepsTrees, project_update-KeepsTrees, blob_call-KeepsTrees,
  record_activity-KeepsTrees,
}
use workspace.Projects.Contained.Law.{
  listed-FilesProper, sort_by_path-FilesProper, entries_of-EntriesProper,
}

found_version-EntriesProper :
    (version : ObjectId) (w : World) (v : ProjectVersion)
    → IsContained w
    → version_get version w ≡ some v
    → EntriesProper v.files
unfolding version_get
found_version-EntriesProper version w v c e =
    All-find (λ u. EntriesProper u.files) (λ r. r.id == version) w.project_versions v c.versions e

module _ {P : World → Type 0} (law : TreeLaw P) where
  abbrev Keeps : {A : Type 0} → Op A → Type 0
  Keeps m = Ensures P m (λ _. P)

  pub touch-Keeps : (env : Env) (p : Project) → Keeps (touch env p)
  unfolding touch
  touch-Keeps env p =
      follow _ _ (framed law (now-KeepsTrees env)) (λ at. framed law (project_update-KeepsTrees _))

  pub write_file-Keeps :
      (env : Env) (storage : BlobStorage) (max_file_bytes : _) (user project : ObjectId)
      (path content : Text)
      → Keeps (write_file env storage max_file_bytes user project path content)
  unfolding write_file
  write_file-Keeps env storage max_file_bytes user project path content = skip_reads _ _ λ access.
      after_check _ _ λ normalized e. after_raise_if _ _ _ λ small.
        follow _ _ (framed law (blob_call-KeepsTrees _)) λ h.
          follow _ _ (framed law (now-KeepsTrees env)) λ at.
            after_modify _ _ (upsert-Ensures law _ (normalize_path-IsPath path normalized e))
              (keep_then _ _ (touch-Keeps env access.project) (keep_pure _))

  delete_under-Keeps :
      (env : Env) (project : ObjectId) (prefix : Text) → Keeps (delete_under env project prefix)
  delete_under-Keeps env project prefix = record {
    at = λ w n w' p h. subst P (ground (arith)) (law.deleted_under env.like project prefix w p);
  }

  delete_found-Keeps :
      (env : Env) (p : Project) (project : ObjectId) (path : Text) (found : Option ProjectFile)
      → Keeps (delete_found env p project path found)
  unfolding delete_found
  delete_found-Keeps env p project path none =
      follow _ _ (delete_under-Keeps env project (below path)) λ removed.
        after_raise_if _ _ _ λ some_removed. keep_then _ _ (touch-Keeps env p) (keep_pure _)
  delete_found-Keeps env p project path (some f) =
      after_modify _ _ (law.deleted project path) (keep_then _ _ (touch-Keeps env p) (keep_pure _))

  pub delete_path-Keeps :
      (env : Env) (user project : ObjectId) (path : Text)
      → Keeps (delete_path env user project path)
  unfolding delete_path
  delete_path-Keeps env user project path = skip_reads _ _ λ access. after_check _ _ λ normalized e.
      skip_gets _ _ λ found. delete_found-Keeps env access.project project normalized found

  -- The files of a list that stand at a path or below it, all proper.
  Matched : Text → List ProjectFile → Type 0
  Matched src = All (λ f. (is_at_or_below src f ≡ true) × IsPath f.path)

  move_each-P :
      (project : ObjectId) (src dst : Text) (at : Time) (fs : List ProjectFile)
      → IsPath dst
      → Matched src fs
      → (w : World) → P w
      → P (move_each project src dst at fs w)
  unfolding move_each Matched
  move_each-P project src dst at [] d m w p = p
  move_each-P project src dst at (f ∷ fs) d ((e, n), m) w p =
      move_each-P project src dst at fs d m _
        (law.upserted _ _ (IsPath-moved src dst f.path e n d) (law.deleted project f.path w p))

  filter-Matched :
      (src : Text) (fs : List ProjectFile)
      → FilesProper fs
      → Matched src (filter (is_at_or_below src) fs)
  unfolding Matched
  filter-Matched src [] h = tt
  filter-Matched src (f ∷ fs) (h, hs) =
      on_if (Matched src) (is_at_or_below src f) (λ e. ((e, h), filter-Matched src fs hs))
        (λ _. filter-Matched src fs hs)

  pub move_path-Keeps :
      (env : Env) (user project : ObjectId) (source destination : Text)
      → Keeps (move_path env user project source destination)
  unfolding move_path
  move_path-Keeps env user project source destination = skip_reads _ _ λ access.
      after_check _ _ λ src e. after_check _ _ λ dst e1. after_raise_if _ _ _ λ other.
        after_raise_if _ _ _ λ apart.
          note_gets FilesProper _ _ (λ w p. listed-FilesProper project w (law.contained w p))
            λ existing proper. after_raise_if _ _ _ λ any_matched.
              follow _ _ (framed law (now-KeepsTrees env)) λ at.
                after_modify _ _
                  (move_each-P project src dst at _ (normalize_path-IsPath destination dst e1)
                    (filter-Matched src existing proper))
                  (keep_then _ _ (touch-Keeps env access.project) (keep_pure _))

  pub version_activity-Keeps :
      (env : Env) (user : ObjectId) (p : Project) (action : ActivityAction) (v : ProjectVersion)
      → Keeps (version_activity env user p action v)
  unfolding version_activity
  version_activity-Keeps env user p action v = framed law (record_activity-KeepsTrees env user _)

  pub save_version-Keeps :
      (env : Env) (user project : ObjectId) (message : Text)
      → Keeps (save_version env user project message)
  unfolding save_version version_activity
  save_version-Keeps env user project message = skip_reads _ _ λ access.
      note_gets FilesProper _ _ (λ w p. listed-FilesProper project w (law.contained w p))
        λ files proper. after_raise_if _ _ _ λ some_files. skip_gets _ _ λ latest.
          after_raise_if _ _ _ λ changed. follow _ _ (framed law (new_id-KeepsTrees env)) λ i.
            skip_gets _ _ λ sequence. follow _ _ (framed law (now-KeepsTrees env)) λ at.
              keep_then _ _
                (version_add-Ensures law _
                  (entries_of-EntriesProper _ (sort_by_path-FilesProper files proper)))
                (keep_then _ _ (touch-Keeps env access.project) (
                  keep_then _ _ (framed law (record_activity-KeepsTrees env user _)) (keep_pure _)))

  get_version-Ensures :
      (user version : ObjectId)
      → Ensures P (get_version user version) (λ v w. P w × EntriesProper v.files)
  unfolding get_version
  get_version-Ensures user version =
      note_gets (λ found. (v : ProjectVersion) → found ≡ some v → EntriesProper v.files) _ _
        (λ w p v e. found_version-EntriesProper version w v (law.contained w p) e)
        λ found proper.
          after_or_raise _ _ _ λ v e. skip_reads _ _ λ access. ends_pure v (λ w p. (p, proper v e))

  -- The version that is got has proper paths.
  pub after_get_version :
      {B : Type 0} {R : B → World → Type 0} (user version : ObjectId) (k : ProjectVersion → Op B)
      → ((v : ProjectVersion) → EntriesProper v.files → Ensures P (k v) R)
      → Ensures P (get_version user version >>= k) R
  after_get_version user version k rest =
      Ensures-bind (λ v w. P w × EntriesProper v.files) (get_version user version) k
        (get_version-Ensures user version)
        (λ v. record { at = λ w b w' q h. (rest v q.1).at w b w' q.0 h })

  delete_each-P :
      (project : ObjectId) (fs : List ProjectFile) (w : World) → P w → P (delete_each project fs w)
  unfolding delete_each
  delete_each-P project [] w p = p
  delete_each-P project (f ∷ fs) w p = delete_each-P project fs _ (law.deleted project f.path w p)

  pub upsert_entries-P :
      (project : ObjectId) (at : Time) (es : List ProjectVersionFile)
      → EntriesProper es
      → (w : World) → P w
      → P (upsert_entries project at es w)
  unfolding upsert_entries restored_file
  upsert_entries-P project at [] h w p = p
  upsert_entries-P project at (e ∷ es) (h, hs) w p =
      upsert_entries-P project at es hs _ (law.upserted _ w h p)

  pub restore_version-Keeps :
      (env : Env) (user version : ObjectId) → Keeps (restore_version env user version)
  unfolding restore_version restore_found restore_files
  restore_version-Keeps env user version = after_get_version user version _ λ v proper.
      skip_reads _ _ λ access. skip_gets _ _ λ files.
        after_modify _ _ (delete_each-P v.project_id files) (
          follow _ _ (framed law (now-KeepsTrees env)) λ at.
            after_modify _ _ (upsert_entries-P v.project_id at v.files proper) (
              keep_then _ _ (touch-Keeps env access.project)
                (keep_then _ _ (version_activity-Keeps env user access.project _ v) (keep_pure _))))
