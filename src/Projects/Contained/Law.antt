-- ===== src/Projects/Contained/Law.antt =====
-- The writes of the tables of files and versions keep their paths proper.
use workspace.Base.{
  ◌≡◌, sym, subst, ◌==◌, false, ◌&&◌, List, [], ◌∷◌, ◌++◌, text_leb, All, All-append, All-filter,
  All-update_first, any, on_if, Bool-cases, inl, inr, ok, arith,
}
use workspace.Domain.Errors.{ObjectId}
use workspace.Domain.Models.{ProjectFile, ProjectVersion}
use workspace.Store.{World, insert_row}
use workspace.Store.Projects.{
  is_file_at, file_list_for_project, sort_by_path, insert_by_path, upsert_rows, file_upsert,
  file_delete, file_delete_under, version_add, with_versions, with_entries, repeats_path,
}
use workspace.Projects.Paths.Names.{IsPath}
use workspace.Projects.Versions.{entries_of}
use workspace.Projects.Contained.{FilesProper, EntriesProper, IsContained, SameTrees, TreeLaw}

upsert_rows-FilesProper :
    (f : ProjectFile) (rows : List ProjectFile)
    → IsPath f.path
    → FilesProper rows
    → FilesProper (upsert_rows f rows)
unfolding upsert_rows
upsert_rows-FilesProper f rows n h =
    on_if FilesProper (any (is_file_at f.project_id f.path) rows)
      (λ _. All-update_first (λ r. IsPath r.path) _ _ (λ r k. k) rows h)
      (λ _. All-append (λ r. IsPath r.path) rows (f ∷ []) h (n, tt))

insert_by_path-FilesProper :
    (f : ProjectFile) (fs : List ProjectFile)
    → IsPath f.path
    → FilesProper fs
    → FilesProper (insert_by_path f fs)
unfolding insert_by_path
insert_by_path-FilesProper f [] n h = (n, tt)
insert_by_path-FilesProper f (g ∷ gs) n (h, hs) =
    on_if FilesProper (text_leb f.path g.path) (λ _. (n, (h, hs)))
      (λ _. (h, insert_by_path-FilesProper f gs n hs))

pub sort_by_path-FilesProper :
    (fs : List ProjectFile) → FilesProper fs → FilesProper (sort_by_path fs)
unfolding sort_by_path
sort_by_path-FilesProper [] h = tt
sort_by_path-FilesProper (f ∷ fs) (h, hs) =
    insert_by_path-FilesProper f (sort_by_path fs) h (sort_by_path-FilesProper fs hs)

pub listed-FilesProper :
    (project : ObjectId) (w : World) → IsContained w → FilesProper (file_list_for_project project w)
unfolding file_list_for_project
listed-FilesProper project w c =
    sort_by_path-FilesProper _
      (All-filter (λ f. IsPath f.path) (λ f. f.project_id == project) w.project_files c.files)

pub entries_of-EntriesProper :
    (fs : List ProjectFile) → FilesProper fs → EntriesProper (entries_of fs)
unfolding entries_of
entries_of-EntriesProper [] h = tt
entries_of-EntriesProper (f ∷ fs) (h, hs) = (h, entries_of-EntriesProper fs hs)

-- A version that is added stands at the end, and no row had its identifier or its number.
pub record IsAdded (v : ProjectVersion) (w w' : World) : Type 0 where
  pub fresh : any (λ r. r.id == v.id) w.project_versions ≡ false
  pub numbered :
      any (λ r. (r.project_id == v.project_id) && (r.sequence == v.sequence)) w.project_versions
      ≡ false
  pub rows : w' ≡ record w { project_versions = w.project_versions ++ v ∷ [] }

pub version_add-rows :
    (v : ProjectVersion) (w w' : World) → version_add v w ≡ ok (tt, w') → IsAdded v w w'
unfolding version_add with_versions with_entries insert_row
version_add-rows v w w' h = elim (Bool-cases (any (λ r. r.id == v.id) w.project_versions)) [
  | inl e ↦ absurd (ground (arith))
  | inr e ↦
      elim (Bool-cases (
        any (λ r. (r.project_id == v.project_id) && (r.sequence == v.sequence))
          w.project_versions)) [
            | inl k ↦ absurd (ground (arith))
            | inr k ↦ elim (Bool-cases (repeats_path v.files)) [
              | inl repeated ↦ absurd (ground (arith))
              | inr single ↦ record { fresh = e; numbered = k; rows = ground (arith) }
            ]
          ]
]

IsContained-same : (w w' : World) → SameTrees w w' → IsContained w → IsContained w'
IsContained-same w w' s c = record {
  files = subst FilesProper (sym s.files) c.files;
  versions = subst (All (λ v. EntriesProper v.files)) (sym s.versions) c.versions;
}

pub IsContained-TreeLaw : TreeLaw IsContained
unfolding file_upsert file_delete file_delete_under
IsContained-TreeLaw = record {
  contained = λ w c. c;
  same = IsContained-same;
  upserted = λ f w n c. record {
    files = upsert_rows-FilesProper f w.project_files n c.files;
    versions = c.versions;
  };
  deleted = λ project path w c. record {
    files = All-filter (λ f. IsPath f.path) _ w.project_files c.files;
    versions = c.versions;
  };
  deleted_under = λ same project prefix w c. record {
    files = All-filter (λ f. IsPath f.path) _ w.project_files c.files;
    versions = c.versions;
  };
  version_added = λ v w w' n h c.
      subst IsContained (sym ((version_add-rows v w w' h).rows)) (record {
        files = c.files;
        versions =
            All-append (λ v. EntriesProper v.files) w.project_versions (v ∷ []) c.versions (n, tt);
      });
}
