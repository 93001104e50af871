-- ===== src/Projects/Steps.antt =====
-- The calls of application/project_service.py in any order: a history is a sequence of the calls that
-- returned.
use workspace.Base.{ℕ, Bool, Text, Option, some, List, ok, ◌≡◌}
use workspace.Domain.Errors.{ObjectId}
use workspace.Domain.Enums.{ProjectStatus}
use workspace.Domain.Models.{Project, ProjectFile, ProjectVersion}
use workspace.Store.{Env, World}
use workspace.Store.Projects.{version_get}
use workspace.Projects.Ports.{BlobStorage}
use workspace.Projects.Files.{write_file, delete_path, move_path}
use workspace.Projects.Versions.{save_version, restore_version}
use workspace.Projects.Settings.{create_project, update_project, set_status}
use workspace.Projects.Fork.{fork}
use workspace.Projects.Contained.{IsContained, TreeLaw}
use workspace.Projects.Contained.Law.{IsContained-TreeLaw}
use workspace.Projects.Contained.Calls.{
  write_file-Keeps, delete_path-Keeps, move_path-Keeps, save_version-Keeps, restore_version-Keeps,
}
use workspace.Projects.Contained.Projects.{
  create_project-Keeps, update_project-Keeps, set_status-Keeps, fork-Keeps,
}
use workspace.Projects.Contained.Keyed.{IsKeyed, IsKeyed-TreeLaw}
use workspace.Projects.Contained.Kept.{Stores-TreeLaw}

module _ (env : Env) (storage : BlobStorage) (max_file_bytes : ℕ) where
  -- One committed call, by whatever user.
  pub data ProjectStep (w : World) : World → Type 0 where
    creates :
        (user ws : ObjectId) (name description : Text) (p : Project) (w' : World)
        → create_project env user ws name description w ≡ ok (p, w')
        → ProjectStep w w'
    updates :
        (user project : ObjectId) (name description : Option Text) (environment : Option ObjectId)
        (inherit : Bool) (default : Option ObjectId) (p : Project) (w' : World)
        → update_project env user project name description environment inherit default w
          ≡ ok (p, w')
        → ProjectStep w w'
    sets_status :
        (user project : ObjectId) (status : ProjectStatus) (p : Project) (w' : World)
        → set_status env user project status w ≡ ok (p, w')
        → ProjectStep w w'
    writes :
        (user project : ObjectId) (path content : Text) (f : ProjectFile) (w' : World)
        → write_file env storage max_file_bytes user project path content w ≡ ok (f, w')
        → ProjectStep w w'
    deletes :
        (user project : ObjectId) (path : Text) (removed : ℕ) (w' : World)
        → delete_path env user project path w ≡ ok (removed, w')
        → ProjectStep w w'
    moves :
        (user project : ObjectId) (source destination : Text) (fs : List ProjectFile) (w' : World)
        → move_path env user project source destination w ≡ ok (fs, w')
        → ProjectStep w w'
    saves :
        (user project : ObjectId) (message : Text) (v : ProjectVersion) (w' : World)
        → save_version env user project message w ≡ ok (v, w')
        → ProjectStep w w'
    restores :
        (user version : ObjectId) (fs : List ProjectFile) (w' : World)
        → restore_version env user version w ≡ ok (fs, w')
        → ProjectStep w w'
    forks :
        (user version ws : ObjectId) (name description : Text) (p : Project) (w' : World)
        → fork env user version ws name description w ≡ ok (p, w')
        → ProjectStep w w'

  -- Any number of them.
  pub data ProjectHistory (w : World) : World → Type 0 where
    start : ProjectHistory w w
    next : {v v' : World} → ProjectHistory w v → ProjectStep v v' → ProjectHistory w v'

  module _ {P : World → Type 0} (law : TreeLaw P) where
    step-law : (w w' : World) → ProjectStep w w' → P w → P w'
    step-law w _ (ProjectStep.creates user ws name description r w' h) p =
        (create_project-Keeps law env user ws name description).at w r w' p h
    step-law w _
          (ProjectStep.updates user project name description environment inherit default r w' h) p =
        (update_project-Keeps law env user project name description environment inherit default).at
          w r w' p h
    step-law w _ (ProjectStep.sets_status user project status r w' h) p =
        (set_status-Keeps law env user project status).at w r w' p h
    step-law w _ (ProjectStep.writes user project path content r w' h) p =
        (write_file-Keeps law env storage max_file_bytes user project path content).at w r w' p h
    step-law w _ (ProjectStep.deletes user project path r w' h) p =
        (delete_path-Keeps law env user project path).at w r w' p h
    step-law w _ (ProjectStep.moves user project source destination r w' h) p =
        (move_path-Keeps law env user project source destination).at w r w' p h
    step-law w _ (ProjectStep.saves user project message r w' h) p =
        (save_version-Keeps law env user project message).at w r w' p h
    step-law w _ (ProjectStep.restores user version r w' h) p =
        (restore_version-Keeps law env user version).at w r w' p h
    step-law w _ (ProjectStep.forks user version ws name description r w' h) p =
        (fork-Keeps law env user version ws name description).at w r w' p h

    history-law : (w w' : World) → ProjectHistory w w' → P w → P w'
    history-law w _ ProjectHistory.start p = p
    history-law w w' (ProjectHistory.next {v = v} h s) p = step-law v w' s (history-law w v h p)

  pub history-IsContained : (w w' : World) → ProjectHistory w w' → IsContained w → IsContained w'
  history-IsContained = history-law IsContained-TreeLaw

  pub history-IsKeyed : (w w' : World) → ProjectHistory w w' → IsKeyed w → IsKeyed w'
  history-IsKeyed = history-law IsKeyed-TreeLaw

  pub history-version_get :
      (i : ObjectId) (v : ProjectVersion) (w w' : World)
      → ProjectHistory w w'
      → IsContained w
      → version_get i w ≡ some v
      → version_get i w' ≡ some v
  history-version_get i v w w' h c e =
      (history-law (Stores-TreeLaw i v) w w' h (record { contained = c; found = e })).found
