-- ===== src/Projects/Diff.antt =====
-- `_diff` of application/project_service.py, and the comparison of dicts from paths to digests.
pub mod Laws
use workspace.Base.{
  Bool, true, false, ◌&&◌, Option, none, some, List, [], ◌∷◌, ◌++◌, Text, text_eq, text_leb,
  if◌then◌else◌, dict_get, dict_extend, keys,
}
use workspace.Domain.Enums.{ChangeKind}
use workspace.Domain.Models.{ProjectFile, ProjectVersionFile}

-- Digests by path.
abbrev pub Tree : Type 0
Tree = List (Text × Text)

-- Puts a path in its place, once.
unfoldable pub insert_path : Text → List Text → List Text
insert_path path [] = path ∷ []
insert_path path (q ∷ qs) =
    let rest = insert_path path qs in
    if text_eq path q then q ∷ qs else if text_leb path q then path ∷ q ∷ qs else q ∷ rest

-- `sorted(set(paths))`
unfoldable pub sorted_paths : List Text → List Text
unfolding insert_path
sorted_paths [] = []
sorted_paths (path ∷ paths) = insert_path path (sorted_paths paths)

-- What became of a path.
abbrev pub change_of : Option Text → Option Text → Option ChangeKind
change_of none right = some ChangeKind.added
change_of (some l) none = some ChangeKind.removed
change_of (some l) (some r) = if text_eq l r then none else some ChangeKind.modified

abbrev pub add_change :
    Text → Option ChangeKind → List (Text × ChangeKind) → List (Text × ChangeKind)
add_change path none changes = changes
add_change path (some c) changes = (path, c) ∷ changes

module _ (left right : Tree) where
  unfoldable pub diff_at : Text → Option ChangeKind
  unfolding dict_get
  diff_at path = change_of (dict_get path left) (dict_get path right)

  unfoldable pub diff_paths : List Text → List (Text × ChangeKind)
  unfolding diff_at
  diff_paths [] = []
  diff_paths (path ∷ paths) = add_change path (diff_at path) (diff_paths paths)

  unfoldable pub diff : List (Text × ChangeKind)
  unfolding diff_paths sorted_paths
  diff = diff_paths (sorted_paths (keys left ++ keys right))

abbrev pub same_digest : Option Text → Option Text → Bool
same_digest none none = true
same_digest none (some r) = false
same_digest (some l) none = false
same_digest (some l) (some r) = text_eq l r

module _ (left right : Tree) where
  agree_on : List Text → Bool
  unfolding dict_get
  agree_on [] = true
  agree_on (path ∷ paths) = same_digest (dict_get path left) (dict_get path right) && agree_on paths

  -- `left == right` on dicts: the same value under each key of either.
  unfoldable pub dict_eq : Bool
  unfolding agree_on
  dict_eq = agree_on (keys left ++ keys right)

file_digests : List ProjectFile → Tree
file_digests [] = []
file_digests (f ∷ fs) = (f.path, f.content_hash) ∷ file_digests fs

-- `{f.path: f.content_hash for f in files}`
unfoldable pub tree_of_files : List ProjectFile → Tree
unfolding dict_extend file_digests
tree_of_files files = dict_extend [] (file_digests files)

entry_digests : List ProjectVersionFile → Tree
entry_digests [] = []
entry_digests (f ∷ fs) = (f.path, f.content_hash) ∷ entry_digests fs

unfoldable pub tree_of_entries : List ProjectVersionFile → Tree
unfolding dict_extend entry_digests
tree_of_entries files = dict_extend [] (entry_digests files)
