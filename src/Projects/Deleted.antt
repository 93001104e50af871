-- ===== src/Projects/Deleted.antt =====
-- `delete_path` of application/project_service.py against the reading of it on what stands at each path.
use workspace.Base.{
  ℕ, ◌≡◌, ◌≢◌, refl, sym, ap, ◌∙◌, subst, ◌==◌, Bool, true, false, ◌&&◌, ◌++◌, [], ◌∷◌, Option,
  none, some, Text, text_eq, if◌then◌else◌, arith, ok, is_some, Ensures, Ensures-bind, skip_reads,
  note_gets, after_check, after_raise_if, after_modify, keep_then, ends_pure, weaken, conclude,
}
use mathlib.Core.Bool.{true≢false}
use workspace.Domain.Errors.{ObjectId}
use workspace.Domain.Models.{Project, ProjectFile}
use workspace.Store.{Env, World}
use workspace.Store.Projects.{file_get, file_delete, file_delete_under, like_prefix}
use workspace.Store.Projects.FileLaws.{file_get-delete, file_get-delete_under}
use workspace.Projects.Paths.{normalize_path}
use workspace.Projects.Files.{below, delete_path, delete_found, delete_under}
use workspace.Projects.Trees.{content_of, content_at}
use workspace.Projects.Restored.{content-same, OnTrees, touch-unmoved}

-- What a call deletes: the file at the path, or else all that LIKE takes to be below it.
abbrev pub is_target : (ℕ → ℕ → Bool) → Bool → Text → Text → Bool
is_target same is_file path q = if is_file then text_eq path q else like_prefix same q (below path)

-- The store after a deletion at `path` that reports `n`.
pub record IsDeleted (same : ℕ → ℕ → Bool) (project : ObjectId) (w0 : World) (path : Text) (n : ℕ)
    (w : World) : Type 0 where
  pub some_deleted : n ≢ 0
  pub holds :
      (other : ObjectId) (q : Text)
      → content_at other w q ≡ (
          if (project == other) && is_target same (is_some (file_get project path w0)) path q
          then none
          else content_at other w0 q)
  pub below_gone :
      is_some (file_get project path w0) ≡ false
      → (rest : Text) → content_at project w (below path ++ rest) ≡ none

like_prefix_refl :
    (same : ℕ → ℕ → Bool)
    → ((c : ℕ) → same c c ≡ true)
    → (p rest : Text) → like_prefix same (p ++ rest) p ≡ true
like_prefix_refl same h [] rest = refl
like_prefix_refl same h (c ∷ p) rest =
    let one = h c in let others = like_prefix_refl same h p rest in ground (arith)

content-if :
    (b : Bool) (o : Option ProjectFile)
    → content_of (if b then none else o) ≡ (if b then none else content_of o)
content-if true o = refl
content-if false o = refl

module _ (same : ℕ → ℕ → Bool) (project : ObjectId) (w0 : World) (path : Text) where
  IsDeleted-OnTrees : (n : ℕ) → OnTrees (IsDeleted same project w0 path n)
  IsDeleted-OnTrees n w w' s h = record {
    some_deleted = h.some_deleted;
    holds = λ other q. content-same other w w' q s ∙ h.holds other q;
    below_gone = λ e rest. content-same project w w' (below path ++ rest) s ∙ h.below_gone e rest;
  }

  file_gone :
      (f : ProjectFile)
      → file_get project path w0 ≡ some f
      → IsDeleted same project w0 path 1 (file_delete project path w0)
  file_gone f e = record {
    some_deleted = λ q. ground (arith);
    holds = λ other q.
        ap content_of (file_get-delete other project q path w0)
        ∙ content-if ((project == other) && text_eq path q) (file_get other q w0)
        ∙ ap
            (λ o.
              if (project == other) && is_target same (is_some o) path q
              then none
              else content_at other w0 q)
            (sym e);
    below_gone = λ k rest. absurd (true≢false (ap is_some (sym e) ∙ k));
  }

  directory_gone :
      ((c : ℕ) → same c c ≡ true)
      → (n : ℕ) → (n == 0) ≡ false
      → file_get project path w0 ≡ none
      → IsDeleted same project w0 path n ((file_delete_under same project (below path) w0).1)
  directory_gone self n some_deleted e = record {
    some_deleted = λ q. ground (arith);
    holds = λ other q.
        ap content_of (file_get-delete_under same other project q (below path) w0)
        ∙ content-if ((project == other) && like_prefix same q (below path)) (file_get other q w0)
        ∙ ap
            (λ o.
              if (project == other) && is_target same (is_some o) path q
              then none
              else content_at other w0 q)
            (sym e);
    below_gone = λ k rest.
        let hit = like_prefix_refl same self (below path) rest in
        let whole : ((project == project) && like_prefix same (below path ++ rest) (below path))
            ≡ true =
          ground (arith) in
        ap content_of (
          file_get-delete_under same project project (below path ++ rest) (below path) w0
          ∙ ap (λ b. if b then none else file_get project (below path ++ rest) w0) whole);
  }

module _ (env : Env) (self : (c : ℕ) → env.like c c ≡ true) (project : ObjectId) (w0 : World)
    (path : Text) where
  delete_under-IsDeleted :
      file_get project path w0 ≡ none
      → Ensures
          (λ w. w ≡ w0)
          (delete_under env project (below path))
          (λ n w. (n == 0) ≡ false → IsDeleted env.like project w0 path n w)
  delete_under-IsDeleted e = record {
    at = λ w n w' k h some_deleted.
        let e1 : (file_delete_under env.like project (below path) w0).1 ≡ w' =
          ap (λ x. (file_delete_under env.like project (below path) x).1) (sym k)
          ∙ ground (arith) in
        subst (IsDeleted env.like project w0 path n) e1
          (directory_gone env.like project w0 path self n some_deleted e);
  }

  delete_found-IsDeleted :
      (p : Project) (found : Option ProjectFile)
      → found ≡ file_get project path w0
      → Ensures
          (λ w. w ≡ w0)
          (delete_found env p project path found)
          (IsDeleted env.like project w0 path)
  unfolding delete_found
  delete_found-IsDeleted p (some f) e =
      after_modify _ _
        (λ w k.
          subst (λ x. IsDeleted env.like project w0 path 1 (file_delete project path x)) (sym k)
            (file_gone env.like project w0 path f (sym e)))
        (keep_then _ _ (touch-unmoved (IsDeleted-OnTrees env.like project w0 path 1) env p)
          (ends_pure 1 (λ w k. k)))
  delete_found-IsDeleted p none e =
      Ensures-bind (λ n w. (n == 0) ≡ false → IsDeleted env.like project w0 path n w) _ _
        (delete_under-IsDeleted (sym e))
        λ n. after_raise_if _ _ _ λ some_deleted.
          weaken (λ w q. q some_deleted)
            (keep_then _ _ (touch-unmoved (IsDeleted-OnTrees env.like project w0 path n) env p)
              (ends_pure n (λ w k. k)))

IsDeletedAt : (ℕ → ℕ → Bool) → ObjectId → Text → World → ℕ → World → Type 0
IsDeletedAt same project path w n w' =
    (normalized : Text) × (normalize_path path ≡ ok normalized)
    × IsDeleted same project w normalized n w'

delete_path-Ensures :
    (env : Env)
    → ((c : ℕ) → env.like c c ≡ true)
    → (user project : ObjectId) (path : Text) (w0 : World)
    → Ensures
        (λ w. w ≡ w0)
        (delete_path env user project path)
        (IsDeletedAt env.like project path w0)
unfolding delete_path IsDeletedAt
delete_path-Ensures env self user project path w0 = skip_reads _ _ λ access.
    after_check _ _ λ normalized e.
      note_gets (λ found. found ≡ file_get project normalized w0) _ _
        (λ x k. ap (file_get project normalized) k)
        λ found e1.
          conclude (λ n w k. (normalized, e, k))
            (delete_found-IsDeleted env self project w0 normalized access.project found e1)

-- Where LIKE takes each character for itself, a deletion that returns reports a positive number and
-- takes the file at the normalized path, or if there is none all files below it and all that LIKE
-- takes for such, and nothing else.
pub delete_path-IsDeleted :
    (env : Env)
    → ((c : ℕ) → env.like c c ≡ true)
    → (user project : ObjectId) (path : Text) (n : ℕ) (w w' : World)
    → delete_path env user project path w ≡ ok (n, w')
    → (normalized : Text) × (normalize_path path ≡ ok normalized)
      × IsDeleted env.like project w normalized n w'
unfolding IsDeletedAt
delete_path-IsDeleted env self user project path n w w' h =
    (delete_path-Ensures env self user project path w).at w n w' refl h
