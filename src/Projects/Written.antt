-- ===== src/Projects/Written.antt =====
-- The calls on files of application/project_service.py: what stands at each path afterwards.
use workspace.Base.{
  ℕ, ◌+◌, ◌≡◌, refl, sym, ap, ◌∙◌, ltb, false, none, some, Text, length, if◌then◌else◌, on_if, inl,
  inr, arith, Result, ok, err, Option-cases, runs_on, reads-runs, gets-runs, or_else_raise-runs,
  Ensures, Ensures-bind, skip_reads, after_check, after_raise_if, after_modify, follow, keep_then,
  ends_pure,
}
use workspace.Domain.Errors.{ObjectId, DomainError}
use workspace.Domain.Models.{ProjectFile}
use workspace.Store.{Env, World}
use workspace.Store.Projects.{is_file_at, file_get, file_upsert}
use workspace.Store.Projects.FileLaws.{is_file_at_refl, file_get-upsert}
use workspace.Access.{ProjectAccess, guard_project}
use workspace.Projects.Paths.{normalize_path}
use workspace.Projects.Ports.{BlobStorage, blob_call, blob_answer}
use workspace.Projects.Files.{read_file, write_file}
use workspace.Projects.Contained.{SameTrees, now-KeepsTrees}
use workspace.Projects.Trees.{Content, content_of, content_at}
use workspace.Projects.Restored.{content-same, OnTrees, unmoved, touch-unmoved}

upsert-content :
    (project : ObjectId) (q : Text) (f : ProjectFile) (w : World)
    → content_at project (file_upsert f w) q
      ≡ (if is_file_at project q f then some (f.size, f.content_hash) else content_at project w q)
upsert-content project q f w =
    ap content_of (file_get-upsert project q f w)
    ∙ on_if
        (λ o. content_of o ≡ (
          if is_file_at project q f then some (f.size, f.content_hash) else content_at project w q))
        (is_file_at project q f) (λ e. ground (arith)) (λ e. ground (arith))

-- A write: the content at its path, the rest as before.
module _ (env : Env) (storage : BlobStorage) (max_file_bytes : ℕ) (user project : ObjectId)
    (path content : Text) (w0 : World) where
  -- What the store holds after `f` was written.
  pub record IsWritten (f : ProjectFile) (w : World) : Type 0 where
    pub owned : f.project_id ≡ project
    pub normalized : normalize_path path ≡ ok f.path
    pub measured : (f.size ≡ length content) × (ltb max_file_bytes f.size ≡ false)
    pub stored : (n : ℕ) × (storage.write_blob n content ≡ ok f.content_hash)
    pub holds :
        (other : ObjectId) (q : Text)
        → content_at other w q
          ≡ (if is_file_at other q f then some (f.size, f.content_hash) else content_at other w0 q)

  IsWritten-OnTrees : (f : ProjectFile) → OnTrees (IsWritten f)
  IsWritten-OnTrees f w w' s h = record {
    owned = h.owned;
    normalized = h.normalized;
    measured = h.measured;
    stored = h.stored;
    holds = λ other q. content-same other w w' q s ∙ h.holds other q;
  }

  written_holds :
      (w : World) (other : ObjectId) (q : Text) (f : ProjectFile)
      → SameTrees w0 w
      → content_at other (file_upsert f w) q
        ≡ (if is_file_at other q f then some (f.size, f.content_hash) else content_at other w0 q)
  written_holds w other q f s =
      upsert-content other q f w
      ∙ ap (λ c. if is_file_at other q f then some (f.size, f.content_hash) else c)
          (content-same other w0 w q s)

  -- What a call of the storage returned was its answer.
  blob_call-Ensures :
      Ensures
        (λ w. w ≡ w0)
        (blob_call (λ n. storage.write_blob n content))
        (λ h w. SameTrees w0 w × ((n : ℕ) × (storage.write_blob n content ≡ ok h)))
  unfolding blob_call blob_answer
  blob_call-Ensures = record { at = λ w h w' e k. go w h w' e _ refl k }
    where
      go :
          (w : World) (h : Text) (w' : World)
          → w ≡ w0
          → (r : Result DomainError Text) → storage.write_blob w.calls content ≡ r
          → blob_answer (record w { calls = w.calls + 1 }) r ≡ ok (h, w')
          → SameTrees w0 w' × ((n : ℕ) × (storage.write_blob n content ≡ ok h))
      go w h w' e (ok a) e1 k =
          (record { files = ground (arith); versions = ground (arith) }, (w.calls, ground (arith)))
      go w h w' e (err x) e1 k = absurd (cc)

  stored-OnTrees :
      {h : Text} → OnTrees (λ w. SameTrees w0 w × ((n : ℕ) × (storage.write_blob n content ≡ ok h)))
  stored-OnTrees w w' s (t, answered) =
      (record { files = s.files ∙ t.files; versions = s.versions ∙ t.versions }, answered)

  pub write_file-IsWritten :
      Ensures
        (λ w. w ≡ w0)
        (write_file env storage max_file_bytes user project path content)
        IsWritten
  unfolding write_file
  write_file-IsWritten = skip_reads _ _ λ access. after_check _ _ λ normalized e.
      after_raise_if _ _ _ λ small. Ensures-bind _ _ _ blob_call-Ensures λ h.
        follow _ _ (unmoved stored-OnTrees (now-KeepsTrees env)) λ at.
          after_modify
            {P' = IsWritten (record {
              project_id = project;
              path = normalized;
              size = length content;
              content_hash = h;
              updated_at = at;
            })}
            _ _
            (λ w (s, answered). record {
              owned = refl;
              normalized = e;
              measured = (refl, small);
              stored = answered;
              holds = λ other q.
                  written_holds w other q
                    (record {
                      project_id = project;
                      path = normalized;
                      size = length content;
                      content_hash = h;
                      updated_at = at;
                    })
                    s;
            })
            (keep_then _ _ (touch-unmoved (IsWritten-OnTrees _) env access.project)
              (ends_pure _ (λ w k. k)))

found_content :
    (project : ObjectId) (w : World) (q : Text) (c : Content)
    → content_at project w q ≡ some c
    → (g : ProjectFile) × (file_get project q w ≡ some g) × (g.content_hash ≡ c.1)
found_content project w q c h = elim (Option-cases (file_get project q w)) [
  | inl e ↦ absurd (ground (arith))
  | inr (g, e) ↦ (g, e, ground (arith))
]

blob_call-runs :
    (f : ℕ → Result DomainError Text) (w : World) (a : Text)
    → ((n : ℕ) → f n ≡ ok a)
    → (w' : World) × (blob_call f w ≡ ok (a, w'))
unfolding blob_call blob_answer
blob_call-runs f w a h = (
  record w { calls = w.calls + 1 },
  ap (blob_answer (record w { calls = w.calls + 1 })) (h w.calls),
)

-- Who may see the project reads what was written, from a storage that gives back what it took.
pub write_read :
    (env : Env) (storage : BlobStorage) (max_file_bytes : ℕ) (user reader project : ObjectId)
    (path content : Text) (f : ProjectFile) (w w' : World) (access : ProjectAccess)
    → ((n m : ℕ) (h : Text)
        → storage.write_blob n content ≡ ok h
        → storage.read_blob m h ≡ ok content)
    → write_file env storage max_file_bytes user project path content w ≡ ok (f, w')
    → guard_project reader project none w' ≡ ok access
    → (w'' : World) × (read_file env storage reader project path w' ≡ ok (content, w''))
unfolding read_file
write_read env storage max_file_bytes user reader project path content f w w' access back h seen =
    let written =
      (write_file-IsWritten env storage max_file_bytes user project path content w).at w f w' refl
        h in
    let self = is_file_at_refl f in
    let (g, e, digest) =
      found_content project w' f.path (f.size, f.content_hash)
        (written.holds project f.path
          ∙ ap
              (λ i.
                if is_file_at i f.path f
                then some (f.size, f.content_hash)
                else content_at project w f.path)
              (sym written.owned)
          ∙ ground (arith)) in
    let (n, answered) = written.stored in
    let (w'', e1) =
      blob_call-runs (λ m. storage.read_blob m g.content_hash) w' content
        (λ m. ap (storage.read_blob m) digest ∙ back n m f.content_hash answered) in
    (
      w'',
      runs_on _ _ w' access w' (reads-runs _ w' access seen)
          ∙ runs_on _ _ w' f.path w'
              (reads-runs (λ _. normalize_path path) w' f.path written.normalized)
          ∙ runs_on _ _ w' (file_get project f.path w') w' (gets-runs (file_get project f.path) w')
          ∙ runs_on _ _ w' g w' (or_else_raise-runs _ (file_get project f.path w') w' g e)
          ∙ e1,
    )
