-- ===== src/Store/Wf.antt =====
-- The invariant of the tables of storage/schema.sql under the transactions of storage/sqlite.go.
use batchq.Shared.{◌≡◌, Bool, true, false, ◌||◌, Option, none, some, String, ltb}
use batchq.Job.Status.{StatusCode, proxyqueued, running, code, is}
use batchq.Store.Db.{Db, status_of, status_test, owner_of, depends_on}
use batchq.Store.Laws.{Unique}
use batchq.Store.Cancel.Cascade.{NoneDoomed}

-- UNKNOWN, USERHOLD, WAITING, QUEUED: no runner has taken the job yet.
unfoldable pub is_idle : StatusCode → Bool
is_idle s = ltb (code s) (code proxyqueued)

-- PROXYQUEUED, RUNNING: in the hands of the runner that claimed it.
unfoldable pub is_active : StatusCode → Bool
unfolding is
is_active s = is s proxyqueued || is s running

abbrev pub is_some {ℓ} : {A : Type ℓ} → Option A → Bool
is_some none = false
is_some (some a) = true

abbrev pub known : Db → String → Bool
known db k = is_some (status_of db k)

-- `job_running` has a row for the job.
abbrev pub claimed : Db → String → Bool
claimed db k = is_some (owner_of db k)

-- A job has a claim while it runs, and none before.
pub record ClaimsMatch (db : Db) : Type 0 where
  pub idle : (k : String) → status_test is_idle (status_of db k) ≡ true → claimed db k ≡ false
  pub active : (k : String) → status_test is_active (status_of db k) ≡ true → claimed db k ≡ true
  pub unknown : (k : String) → known db k ≡ false → claimed db k ≡ false

-- Both ends of a dependency are jobs of the table.
pub record DepsRefer (db : Db) : Type 0 where
  pub at :
      (job parent : String)
      → depends_on db.deps job parent ≡ true
      → (known db job ≡ true) × (known db parent ≡ true)

pub record Wf (db : Db) : Type 0 where
  pub none_doomed : NoneDoomed db
  pub claims : ClaimsMatch db
  pub refer : DepsRefer db
  pub keys : Unique db.jobs
