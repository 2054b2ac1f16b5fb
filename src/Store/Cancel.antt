-- ===== src/Store/Cancel.antt =====
-- Cancellation, storage/sqlite.go: `cancelOne`, `cascadeCancel`, `CancelJob`, `CancelArray`.
pub mod Effect
pub mod Children
pub mod Cascade
pub mod Job
use batchq.Shared.{
  ℕ, zero, suc, ◌+◌, ◌≡◌, refl, Bool, true, false, not, ◌&&◌, Option, none, some, List, [], ◌∷◌,
  ◌++◌, map, String, str_eq, contains, length, select, map, length, ◌==◌, if◌then◌else◌,
}
use batchq.Shared.Result.{Error, Result, ok, err, not_found, no_fuel, ◌>>=◌}
use batchq.Job.Status.{StatusCode, is_live}
use batchq.Store.Db.{JobRow, Dep, Detail, Db, update_job, status_of, live}

unfoldable pub set_canceled : String → String → JobRow → JobRow
set_canceled now reason r = record r {
  status = StatusCode.canceled;
  end_time = now;
  notes = reason;
}

-- UPDATE jobs SET status = CANCELED, … WHERE id = ? AND status < CANCELED
unfoldable pub cancel_row : String → String → String → Db → Db
cancel_row now id reason db = update_job id is_live (set_canceled now reason) db

-- `now` is the text of `nowString()`.
unfoldable pub cancel_one : String → String → String → Db → Result Db
cancel_one now id reason db = elim (status_of db id) [
  | none ↦ err not_found
  | some s ↦ if is_live s then ok (cancel_row now id reason db) else ok db
]

-- The rows of the query of `cascadeCancel`: live jobs that wait for `cur`, less those seen before.
unfoldable pub children : Db → String → List Dep → List String → List String
children db cur [] seen = []
children db cur (d ∷ ds) seen =
    let others = children db cur ds seen in
    let fresh = d.job_id ∷ children db cur ds (d.job_id ∷ seen) in
    if str_eq d.afterok_id cur && (live db d.job_id && not (contains seen d.job_id))
    then fresh
    else others

unfoldable pub cancel_all : String → List String → String → Db → Result Db
cancel_all now [] reason db = ok db
cancel_all now (c ∷ cs) reason db = do
  db' ← cancel_one now c reason db
  cancel_all now cs reason db'

-- The loop of `cascadeCancel` over its queue.
unfoldable pub cascade : ℕ → String → String → List String → List String → Db → Result Db
cascade fuel now reason [] seen db = ok db
cascade zero now reason (cur ∷ queue) seen db = err no_fuel
cascade (suc fuel) now reason (cur ∷ queue) seen db =
    let cs = children db cur db.deps seen in
    elim (cancel_all now cs reason db) [
      | ok db' ↦ cascade fuel now reason (queue ++ cs) (cs ++ seen) db'
      | err e ↦ err e
    ]

-- Each round takes one job from the queue, and each job is put there once.
unfoldable pub cascade_cancel : String → String → String → Db → Result Db
cascade_cancel now parent reason db =
    cascade (suc (length db.jobs)) now reason (parent ∷ []) (parent ∷ []) db

-- An error rolls the transaction back: the caller goes on from `or_before db`.
unfoldable pub cancel_job : String → String → String → Db → Result Db
cancel_job now id reason db = do db' ← cancel_one now id reason db; cascade_cancel now id reason db'

unfoldable pub cancel_each : String → List String → String → Db → Result Db
cancel_each now [] reason db = ok db
cancel_each now (id ∷ ids) reason db = do
  db' ← cancel_job now id reason db
  cancel_each now ids reason db'

-- `FindJobsByDetail`
unfoldable pub find_jobs_by_detail : Db → String → String → List String
find_jobs_by_detail db key value =
    map (λ d. d.job_id)
      (select (λ (d : Detail). str_eq d.key key && str_eq d.value value) db.details)

unfoldable pub cancel_members : String → List String → String → Db → Result (ℕ × Db)
cancel_members now [] reason db = err not_found
cancel_members now (id ∷ ids) reason db = do
  db' ← cancel_each now (id ∷ ids) reason db
  ok (suc (length ids), db')

unfoldable pub cancel_array : String → String → String → Db → Result (ℕ × Db)
cancel_array now array_id reason db =
    cancel_members now (find_jobs_by_detail db "array_id" array_id) reason db
