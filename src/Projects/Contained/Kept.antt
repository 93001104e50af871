-- ===== src/Projects/Contained/Kept.antt =====
-- A stored version is never written again.
use workspace.Base.{◌≡◌, ap, ◌∙◌, some, ◌==◌, find?, find?-append_some, ◌∷◌, []}
use workspace.Domain.Errors.{ObjectId}
use workspace.Domain.Models.{ProjectVersion}
use workspace.Store.{World}
use workspace.Store.Projects.{version_get, file_upsert, file_delete, file_delete_under}
use workspace.Projects.Contained.{IsContained, SameTrees, TreeLaw}
use workspace.Projects.Contained.Law.{IsContained-TreeLaw, IsAdded, version_add-rows}

-- The version `v` is stored, in a store whose paths are proper.
pub record Stores (i : ObjectId) (v : ProjectVersion) (w : World) : Type 0 where
  pub contained : IsContained w
  pub found : version_get i w ≡ some v

module _ (i : ObjectId) (v : ProjectVersion) where
  found-same :
      (w w' : World) → SameTrees w w' → version_get i w ≡ some v → version_get i w' ≡ some v
  unfolding version_get
  found-same w w' s e = ap (find? (λ r. r.id == i)) s.versions ∙ e

  found-added :
      (u : ProjectVersion) (w w' : World)
      → IsAdded u w w'
      → version_get i w ≡ some v
      → version_get i w' ≡ some v
  unfolding version_get
  found-added u w w' a e =
      ap (λ x. find? (λ r. r.id == i) x.project_versions) a.rows
      ∙ find?-append_some (λ r. r.id == i) w.project_versions v (u ∷ []) e

  pub Stores-TreeLaw : TreeLaw (Stores i v)
  unfolding file_upsert file_delete file_delete_under version_get
  Stores-TreeLaw =
      let law = IsContained-TreeLaw in
      record {
        contained = λ w s. s.contained;
        same = λ w w' same s. record {
          contained = law.same w w' same s.contained;
          found = found-same w w' same s.found;
        };
        upserted =
            λ f w n s. record { contained = law.upserted f w n s.contained; found = s.found };
        deleted = λ project path w s. record {
          contained = law.deleted project path w s.contained;
          found = s.found;
        };
        deleted_under = λ same project prefix w s. record {
          contained = law.deleted_under same project prefix w s.contained;
          found = s.found;
        };
        version_added = λ u w w' n h s. record {
          contained = law.version_added u w w' n h s.contained;
          found = found-added u w w' (version_add-rows u w w' h) s.found;
        };
      }
