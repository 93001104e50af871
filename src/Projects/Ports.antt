-- ===== src/Projects/Ports.antt =====
-- What application/project_service.py asks of StoragePort (domain/ports/storage.py): the n-th call's
-- result, or what it raises.
use workspace.Base.{ℕ, ◌+◌, Text, Result, ok, err}
use workspace.Domain.Errors.{DomainError}
use workspace.Store.{World, Op}

pub record BlobStorage : Type 0 where
  pub write_blob : ℕ → Text → Result DomainError Text
  pub read_blob : ℕ → Text → Result DomainError Text

unfoldable pub blob_answer :
    {A : Type 0} → World → Result DomainError A → Result DomainError (A × World)
blob_answer w (ok a) = ok (a, w)
blob_answer w (err e) = err e

unfoldable pub blob_call : {A : Type 0} → (ℕ → Result DomainError A) → Op A
unfolding blob_answer
blob_call f w = blob_answer (record w { calls = w.calls + 1 }) (f w.calls)
