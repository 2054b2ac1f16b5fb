-- ===== src/Store/Cleanup.antt =====
-- Removal of finished jobs, storage/sqlite.go: `CleanupJob`, `CleanupJobs`, `execBatchTx`.
pub mod Effect
pub mod Removal
use batchq.Shared.{
  ℕ, zero, suc, Bool, true, false, not, ◌&&◌, List, [], ◌∷◌, ◌++◌, String, select, any, contains,
  if◌then◌else◌,
}
use batchq.Shared.Result.{Result, ok, err, foreign_key, ◌>>=◌}
use batchq.Store.Db.{JobRow, Dep, Claim, Detail, PathRow, Db, status_of, status_test}

-- DELETE … WHERE job_id IN ids, for the six tables that are keyed by job.
unfoldable pub delete_children : List String → Db → Db
delete_children ids db = record db {
  deps = select (λ (d : Dep). not (contains ids d.job_id)) db.deps;
  running = select (λ (c : Claim). not (contains ids c.job_id)) db.running;
  details = select (λ (d : Detail). not (contains ids d.job_id)) db.details;
  running_details = select (λ (d : Detail). not (contains ids d.job_id)) db.running_details;
  inputs = select (λ (p : PathRow). not (contains ids p.job_id)) db.inputs;
  outputs = select (λ (p : PathRow). not (contains ids p.job_id)) db.outputs;
}

-- DELETE FROM jobs WHERE id IN ids. The rows that the jobs own were deleted before; a dependency of
-- another job on one of them is the reference that is left.
unfoldable pub delete_jobs : List String → Db → Result Db
delete_jobs ids db =
    if any
      (λ (d : Dep).
        contains ids d.afterok_id && status_test (λ s. true) (status_of db d.afterok_id))
      db.deps
    then err foreign_key
    else ok (record db { jobs = select (λ (r : JobRow). not (contains ids r.id)) db.jobs })

-- One transaction.
unfoldable pub cleanup_job : String → Db → Result Db
cleanup_job id db = delete_jobs (id ∷ []) (delete_children (id ∷ []) db)

-- The next `left` ids join those of `chunk`.
unfoldable pub chunks_from : ℕ → List String → List String → List (List String)
chunks_from left chunk [] = chunk ∷ []
chunks_from zero chunk (id ∷ ids) = chunk ∷ chunks_from 499 (id ∷ []) ids
chunks_from (suc left) chunk (id ∷ ids) = chunks_from left (chunk ++ id ∷ []) ids

-- Runs of 500 ids, the last one shorter.
unfoldable pub chunks : List String → List (List String)
chunks [] = []
chunks (id ∷ ids) = chunks_from 499 (id ∷ []) ids

-- Phase 1: each chunk is a transaction.
unfoldable pub delete_all_children : List (List String) → Db → Db
delete_all_children [] db = db
delete_all_children (c ∷ cs) db = delete_all_children cs (delete_children c db)

-- Phase 2: the first chunk that fails ends it, and those before it are gone.
unfoldable pub delete_all_jobs : List (List String) → Db → Result (Unit {0}) × Db
delete_all_jobs [] db = (ok tt, db)
delete_all_jobs (c ∷ cs) db = elim (delete_jobs c db) [
  | ok db' ↦ delete_all_jobs cs db'
  | err e ↦ (err e, db)
]

unfoldable pub cleanup_jobs : List String → Db → Result (Unit {0}) × Db
cleanup_jobs ids db = delete_all_jobs (chunks ids) (delete_all_children (chunks ids) db)
