-- ===== src/Projects/Contained.antt =====
-- Every path that the store keeps is one that `normalize_path` of application/project_service.py lets
-- through, in the files and in the versions; and what it takes for a call to keep a law on them.
pub mod Law
pub mod Calls
pub mod Projects
pub mod Kept
pub mod Keyed
use workspace.Base.{
  ℕ, ◌+◌, ◌≡◌, refl, sym, subst, ◌==◌, Bool, true, false, not, Option, none, some, List, [], ◌∷◌,
  ◌++◌, Text, text_leb, text_eq, All, any, filter, update_first, if◌then◌else◌, on_if, Bool-cases,
  inl, inr, Result, ok, err, arith, ◌>>=◌, ◌>>◌, Ensures, modify,
}
use workspace.Domain.Errors.{ObjectId, DomainError}
use workspace.Domain.Models.{
  Project, ProjectFile, ProjectVersion, ProjectVersionFile, RunConfiguration, ForkRelation,
}
use workspace.Store.{Env, World, Op, new_id, now}
use workspace.Store.Projects.{
  is_file_at, file_list_for_project, sort_by_path, insert_by_path, upsert_rows, file_upsert,
  file_delete, file_delete_under, is_file_under, version_add, with_versions, project_add,
  with_projects, project_update, write_project,
}
use workspace.Store.Configurations.{
  configuration_add, with_configurations, relation_add, with_relations,
}
use workspace.Store.{insert_row}
use workspace.Activities.{Entry, record_activity}
use workspace.Activities.Laws.{record_activity_keeps}
use workspace.Projects.Paths.Names.{IsPath}
use workspace.Projects.Ports.{blob_call, blob_answer}

abbrev pub FilesProper : List ProjectFile → Type 0
FilesProper = All (λ f. IsPath f.path)

abbrev pub EntriesProper : List ProjectVersionFile → Type 0
EntriesProper = All (λ e. IsPath e.path)

pub record IsContained (w : World) : Type 0 where
  pub files : FilesProper w.project_files
  pub versions : All (λ v. EntriesProper v.files) w.project_versions

-- The files and the versions are the same.
pub record SameTrees (w w' : World) : Type 0 where
  pub files : w'.project_files ≡ w.project_files
  pub versions : w'.project_versions ≡ w.project_versions

-- A call that writes neither.
pub record KeepsTrees {A : Type 0} (m : Op A) : Type 0 where
  pub at : (w : World) (a : A) (w' : World) → m w ≡ ok (a, w') → SameTrees w w'

-- A law on the store that the writes of the project service keep.
pub record TreeLaw (P : World → Type 0) : Type 0 where
  pub contained : (w : World) → P w → IsContained w
  pub same : (w w' : World) → SameTrees w w' → P w → P w'
  pub upserted : (f : ProjectFile) (w : World) → IsPath f.path → P w → P (file_upsert f w)
  pub deleted :
      (project : ObjectId) (path : Text) (w : World) → P w → P (file_delete project path w)
  pub deleted_under :
      (same : ℕ → ℕ → Bool) (project : ObjectId) (prefix : Text) (w : World)
      → P w
      → P ((file_delete_under same project prefix w).1)
  pub version_added :
      (v : ProjectVersion) (w w' : World)
      → EntriesProper v.files
      → version_add v w ≡ ok (tt, w')
      → P w
      → P w'

pub new_id-KeepsTrees : (env : Env) → KeepsTrees (new_id env)
new_id-KeepsTrees env = record {
  at = λ w a w' h. record { files = ground arith; versions = ground arith };
}

pub now-KeepsTrees : (env : Env) → KeepsTrees (now env)
now-KeepsTrees env = record {
  at = λ w a w' h. record { files = ground arith; versions = ground arith };
}

pub project_update-KeepsTrees : (p : Project) → KeepsTrees (project_update p)
unfolding project_update write_project ◌>>=◌
project_update-KeepsTrees p = record {
  at = λ w a w' h. record { files = ground arith; versions = ground arith };
}

pub project_add-KeepsTrees : (p : Project) → KeepsTrees (project_add p)
unfolding project_add with_projects
project_add-KeepsTrees p = record { at = λ w a w' h. go w a w' _ h }
  where
    go :
        (w : World) (a : Unit {0}) (w' : World) (r : Result DomainError (List Project))
        → with_projects w r ≡ ok (a, w')
        → SameTrees w w'
    go w a w' (ok rows) h = record { files = ground arith; versions = ground arith }
    go w a w' (err e) h = absurd (cc)

pub configuration_add-KeepsTrees : (c : RunConfiguration) → KeepsTrees (configuration_add c)
unfolding configuration_add with_configurations
configuration_add-KeepsTrees c = record { at = λ w a w' h. go w a w' _ h }
  where
    go :
        (w : World) (a : Unit {0}) (w' : World) (r : Result DomainError (List RunConfiguration))
        → with_configurations w r ≡ ok (a, w')
        → SameTrees w w'
    go w a w' (ok rows) h = record { files = ground arith; versions = ground arith }
    go w a w' (err e) h = absurd (cc)

pub relation_add-KeepsTrees : (f : ForkRelation) → KeepsTrees (relation_add f)
unfolding relation_add with_relations
relation_add-KeepsTrees f = record { at = λ w a w' h. go w a w' _ h }
  where
    go :
        (w : World) (a : Unit {0}) (w' : World) (r : Result DomainError (List ForkRelation))
        → with_relations w r ≡ ok (a, w')
        → SameTrees w w'
    go w a w' (ok rows) h = record { files = ground arith; versions = ground arith }
    go w a w' (err e) h = absurd (cc)

pub blob_call-KeepsTrees : {A : Type 0} (f : ℕ → Result DomainError A) → KeepsTrees (blob_call f)
unfolding blob_call blob_answer
blob_call-KeepsTrees {A = A} f = record { at = λ w a w' h. go w a w' (f w.calls) h }
  where
    go :
        (w : World) (a : A) (w' : World) (r : Result DomainError A)
        → blob_answer (record w { calls = w.calls + 1 }) r ≡ ok (a, w')
        → SameTrees w w'
    go w a w' (ok b) h = record { files = ground arith; versions = ground arith }
    go w a w' (err e) h = absurd (cc)

pub record_activity-KeepsTrees :
    (env : Env) (actor : ObjectId) (e : Entry) → KeepsTrees (record_activity env actor e)
record_activity-KeepsTrees env actor e = record {
  at = λ w a w' h.
      let k = record_activity_keeps env actor e w in
      let r = k.returns in record { files = ground arith; versions = ground arith };
}

module _ {P : World → Type 0} (law : TreeLaw P) where
  pub framed : {A : Type 0} {m : Op A} → KeepsTrees m → Ensures P m (λ _. P)
  framed k = record { at = λ w a w' p h. law.same w w' (k.at w a w' h) p }

  pub version_add-Ensures :
      (v : ProjectVersion) → EntriesProper v.files → Ensures P (version_add v) (λ _. P)
  version_add-Ensures v proper = record { at = λ w a w' p h. law.version_added v w w' proper h p }

  pub upsert-Ensures : (f : ProjectFile) → IsPath f.path → (w : World) → P w → P (file_upsert f w)
  upsert-Ensures f proper w p = law.upserted f w proper p
