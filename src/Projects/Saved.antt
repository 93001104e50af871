-- ===== src/Projects/Saved.antt =====
-- `save_version` of application/project_service.py: the version that it stores, and how it comes back.
use workspace.Base.{
  ℕ, ◌+◌, ◌≤◌, ◌<◌, Bool-cases, inl, inr, ◌≡◌, refl, sym, ap, ◌∙◌, subst, ◌==◌, ==_refl, Option,
  none, some, List, [], ◌∷◌, ◌++◌, Text, find?, arith, ok, Ensures, Ensures-bind, skip_reads,
  skip_gets, note_gets, after_raise_if, follow, keep_then, ends_pure, weaken, find?-snoc, find?-any,
}
use workspace.Domain.Errors.{ObjectId}
use workspace.Domain.Models.{ProjectFile, ProjectVersion}
use workspace.Store.{Env, World}
use workspace.Store.Projects.{
  file_list_for_project, sort_by_path, version_get, version_add, version_latest, next_sequence,
  latest_of, later, sequence_of,
}
use workspace.Projects.Ports.{BlobStorage}
use workspace.Projects.Versions.{entries_of, save_version, restore_version, version_activity}
use workspace.Projects.Contained.{
  SameTrees, now-KeepsTrees, new_id-KeepsTrees, record_activity-KeepsTrees,
}
use workspace.Projects.Contained.Law.{version_add-rows}
use workspace.Projects.Contained.Keyed.{IsKeyed, IsKeyed-TreeLaw, OnePerPath}
use workspace.Projects.Contained.Calls.{save_version-Keeps}
use workspace.Projects.Trees.{content_at, entry_at, OneEntryPerPath}
use workspace.Projects.Trees.Sorted.{saved-entry_at, saved-OneEntryPerPath}
use workspace.Projects.Restored.{OnTrees, unmoved, touch-unmoved, restore_version-Holds}
use workspace.Projects.Steps.{ProjectHistory, history-version_get, history-IsKeyed}

-- What a version that was saved from `w` is: stored under its identifier, the latest of its project,
-- and it holds what the project held.
pub record IsSaved (project : ObjectId) (w : World) (v : ProjectVersion) (w' : World) : Type 0 where
  pub owned : v.project_id ≡ project
  pub found : version_get v.id w' ≡ some v
  pub latest : version_latest project w' ≡ some v
  pub one : OneEntryPerPath v.files
  pub holds : (path : Text) → entry_at v.files path ≡ content_at project w path

added_first :
    (project : ObjectId) (v : ProjectVersion)
    → v.project_id ≡ project
    → latest_of project (v ∷ []) ≡ some v
unfolding latest_of later
added_first project v e = ground (arith)

later_below : (x v : ProjectVersion) → x.sequence < v.sequence → later x (some v) ≡ some v
unfolding later
later_below x v h = ground (arith)

later-bounds :
    (v : ProjectVersion) (o : Option ProjectVersion)
    → (v.sequence ≤ sequence_of (later v o)) × (sequence_of o ≤ sequence_of (later v o))
unfolding later sequence_of
later-bounds v none = (ground (arith), ground (arith))
later-bounds v (some u) = (ground (arith), ground (arith))

-- A version whose number is above those of its project is the latest.
latest_of-added :
    (project : ObjectId) (v : ProjectVersion) (rows : List ProjectVersion)
    → v.project_id ≡ project
    → sequence_of (latest_of project rows) < v.sequence
    → latest_of project (rows ++ v ∷ []) ≡ some v
unfolding latest_of
latest_of-added project v [] e n = added_first project v e
latest_of-added project v (x ∷ rows) e n = elim (Bool-cases (x.project_id == project)) [
  | inl k ↦
      let (b, c) = later-bounds x (latest_of project rows) in
      let rest = latest_of-added project v rows e (ground (arith)) in
      let last = later_below x v (ground (arith)) in ground (arith)
  | inr k ↦ let rest = latest_of-added project v rows e (ground (arith)) in ground (arith)
]

IsSaved-OnTrees :
    (project : ObjectId) (w0 : World) (v : ProjectVersion) → OnTrees (IsSaved project w0 v)
unfolding version_get version_latest
IsSaved-OnTrees project w0 v w w' s h = record {
  owned = h.owned;
  found = ap (find? (λ r. r.id == v.id)) s.versions ∙ h.found;
  latest = ap (latest_of project) s.versions ∙ h.latest;
  one = h.one;
  holds = h.holds;
}

SameTrees-OnTrees : (w0 : World) → OnTrees (SameTrees w0)
SameTrees-OnTrees w0 w w' s h = record {
  files = s.files ∙ h.files;
  versions = s.versions ∙ h.versions;
}

next_sequence-same :
    (project : ObjectId) (w0 w : World)
    → SameTrees w0 w
    → next_sequence project w ≡ next_sequence project w0
unfolding next_sequence version_latest
next_sequence-same project w0 w s = ap (λ rows. sequence_of (latest_of project rows) + 1) s.versions

added-IsSaved :
    (project : ObjectId) (w0 : World) (v : ProjectVersion)
    → OnePerPath w0.project_files
    → v.project_id ≡ project
    → v.sequence ≡ next_sequence project w0
    → v.files ≡ entries_of (sort_by_path (file_list_for_project project w0))
    → Ensures (SameTrees w0) (version_add v) (λ _. IsSaved project w0 v)
unfolding version_get version_latest next_sequence
added-IsSaved project w0 v one owned n files = record {
  at = λ w a w' s h.
      let added = version_add-rows v w w' h in
      let rows : w'.project_versions ≡ w.project_versions ++ v ∷ [] =
        ap (λ x. x.project_versions) added.rows in
      let self = ==_refl v.id in
      let absent = find?-any (λ r. r.id == v.id) w.project_versions added.fresh in
      record {
        owned = owned;
        found =
            ap (find? (λ r. r.id == v.id)) rows
            ∙ find?-snoc (λ r. r.id == v.id) w.project_versions v
            ∙ ground (arith);
        latest =
            ap (latest_of project) rows
            ∙ latest_of-added project v w.project_versions owned (
                let counted = ap (λ rows. sequence_of (latest_of project rows)) s.versions in
                ground (arith));
        one = subst OneEntryPerPath (sym files) (saved-OneEntryPerPath project w0 one);
        holds = λ path. ap (λ es. entry_at es path) files ∙ saved-entry_at project path w0 one;
      };
}

pub save_version-IsSaved :
    (env : Env) (user project : ObjectId) (message : Text) (w0 : World)
    → OnePerPath w0.project_files
    → Ensures (λ w. w ≡ w0) (save_version env user project message) (IsSaved project w0)
unfolding save_version version_activity
save_version-IsSaved env user project message w0 one = skip_reads _ _ λ access.
    note_gets (λ files. files ≡ file_list_for_project project w0) _ _
      (λ w e. ap (file_list_for_project project) e)
      λ files listed. after_raise_if _ _ _ λ some_files. skip_gets _ _ λ latest.
        after_raise_if _ _ _ λ changed.
          weaken
            (λ w e. record {
              files = ap (λ x. x.project_files) e;
              versions = ap (λ x. x.project_versions) e;
            })
            (follow _ _ (unmoved (SameTrees-OnTrees w0) (new_id-KeepsTrees env)) λ i.
              note_gets (λ n. n ≡ next_sequence project w0) _ _ (next_sequence-same project w0)
                λ n counted. follow _ _ (unmoved (SameTrees-OnTrees w0) (now-KeepsTrees env)) λ at.
                  Ensures-bind (λ _. IsSaved project w0 _) _ _
                    (added-IsSaved project w0 _ one refl counted
                      (ap (λ fs. entries_of (sort_by_path fs)) listed))
                    λ _.
                      keep_then _ _
                        (touch-unmoved (IsSaved-OnTrees project w0 _) env access.project)
                        (keep_then _ _
                          (unmoved (IsSaved-OnTrees project w0 _)
                            (record_activity-KeepsTrees env user _))
                          (ends_pure _ (λ w s. s))))

-- A saved version comes back, whatever was done since.
pub save_restore :
    (env : Env) (storage : BlobStorage) (max_file_bytes : ℕ) (user project : ObjectId)
    (message : Text) (v : ProjectVersion) (w w1 w2 w3 : World) (other : ObjectId)
    (fs : List ProjectFile)
    → IsKeyed w
    → save_version env user project message w ≡ ok (v, w1)
    → ProjectHistory env storage max_file_bytes w1 w2
    → restore_version env other v.id w2 ≡ ok (fs, w3)
    → (path : Text) → content_at project w3 path ≡ content_at project w path
save_restore env storage max_file_bytes user project message v w w1 w2 w3 other fs keyed h history
      h2 path =
    let saved = (save_version-IsSaved env user project message w keyed.one).at w v w1 refl h in
    let keyed1 = (save_version-Keeps IsKeyed-TreeLaw env user project message).at w v w1 keyed h in
    let keyed2 = history-IsKeyed env storage max_file_bytes w1 w2 history keyed1 in
    let found2 =
      history-version_get env storage max_file_bytes v.id v w1 w2 history keyed1.contained
        saved.found in
    let holds =
      (restore_version-Holds env other v.id v saved.one).at w2 fs w3 (found2, keyed2.one) h2 in
    ap (λ i. content_at i w3 path) (sym saved.owned) ∙ holds path ∙ saved.holds path
