-- ===== src/Store/Transition.antt =====
-- The transitions that runners and users ask for, storage/sqlite.go: `MarkJobProxied`,
-- `UpdateRunningDetails`, `EndJob`, `EndProxiedJob`, `HoldJob`, `ReleaseJob`, `AdjustJobPriority`
-- and their forms for arrays. `now` is the text of `nowString()`, times are in the store's format.
use batchq.Shared.{
  ℕ, Bool, not, ◌&&◌, ◌||◌, Option, none, some, List, [], ◌∷◌, String, str_eq, select, tally, ◌==◌,
  if◌then◌else◌,
}
use Prim.Native.String.{◌++◌ as str_append}
use batchq.Shared.Int.{ℤ, ◌+ℤ◌, is_zero}
use batchq.Shared.Result.{
  Result, ok, err, not_found, invalid_state, foreign_key, ◌>>=◌, ◌>>◌, guard,
}
use batchq.Job.Status.{
  StatusCode, userhold, waiting, queued, proxyqueued, running, success, failed, is,
}
use batchq.Store.Db.{
  JobRow, Detail, Db, update, update_job, affected, status_of, owner_of, has_detail,
}
use batchq.Store.Cancel.{cascade_cancel}

-- `assertRunnerOwnsJob`
unfoldable pub assert_runner_owns_job : String → String → Db → Result (Unit {0})
assert_runner_owns_job id runner db = elim (owner_of db id) [
  | none ↦ err invalid_state
  | some owner ↦ guard (str_eq owner runner) invalid_state
]

-- INSERT OR REPLACE INTO job_running_details; `job_id` references `jobs`.
unfoldable pub with_running_detail : String → String → String → Db → Db
with_running_detail id key value db = record db {
  running_details =
      record { job_id = id; key = key; value = value }
      ∷ select (λ (d : Detail). not (str_eq d.job_id id && str_eq d.key key)) db.running_details;
}

unfoldable pub put_running_detail : String → String → String → Db → Result Db
put_running_detail id key value db = elim (status_of db id) [
  | none ↦ err foreign_key
  | some s ↦ ok (with_running_detail id key value db)
]

-- The loop over the map, given as its entries.
unfoldable pub put_running_details : String → List (String × String) → Db → Result Db
put_running_details id [] db = ok db
put_running_details id ((key, value) ∷ rest) db = do
  db' ← put_running_detail id key value db
  put_running_details id rest db'

-- A retry finds the job in the state that the first call left it in; any other state conflicts.
unfoldable pub already : StatusCode → Option StatusCode → Result (Unit {0})
already wanted none = err not_found
already wanted (some cur) = guard (is cur wanted) invalid_state

-- The tests of the states that an UPDATE starts from, and what it writes.
unfoldable pub is_running : StatusCode → Bool
unfolding is
is_running s = is s running

unfoldable pub is_proxied : StatusCode → Bool
unfolding is
is_proxied s = is s proxyqueued

unfoldable pub set_proxied : JobRow → JobRow
set_proxied r = record r { status = proxyqueued }

unfoldable pub mark_job_proxied : String → String → List (String × String) → Db → Result Db
mark_job_proxied id runner details db = do
  assert_runner_owns_job id runner db
  let db' = update_job id is_running set_proxied db
  if affected id is_running db == 1 then ok tt else already proxyqueued (status_of db' id)
  put_running_details id details db'

unfoldable pub update_running_details : String → List (String × String) → Db → Result Db
update_running_details id details db = put_running_details id details db

-- COALESCE(NULLIF(new, ''), old)
abbrev pub coalesce : String → String → String
coalesce new old = if str_eq new "" then old else new

unfoldable pub set_ended : StatusCode → String → ℤ → String → JobRow → JobRow
set_ended s now code notes r = record r {
  status = s;
  end_time = now;
  return_code = code;
  notes = coalesce notes r.notes;
}

unfoldable pub end_job : String → String → String → ℤ → String → Db → Result Db
end_job now id runner code notes db = do
  assert_runner_owns_job id runner db
  let s = if is_zero code then success else failed
  let db' = update_job id is_running (set_ended s now code notes) db
  guard (affected id is_running db == 1) invalid_state
  if is_zero code
      then ok db'
      else cascade_cancel now id (str_append "Parent job " (str_append id " failed")) db'

unfoldable pub set_reported : StatusCode → String → String → ℤ → String → JobRow → JobRow
set_reported s start end_time code notes r = record r {
  status = s;
  start_time = start;
  end_time = end_time;
  return_code = code;
  notes = coalesce notes r.notes;
}

unfoldable pub end_proxied_job :
    String → String → StatusCode → String → String → ℤ → String → Db → Result Db
end_proxied_job now id s start end_time code notes db = do
  let db' = update_job id is_proxied (set_reported s start end_time code notes) db
  if affected id is_proxied db == 1
      then (if is s success
          then ok db'
          else cascade_cancel now id (str_append "Parent job " (str_append id " failed/canceled"))
              db')
      else (do already s (status_of db' id); ok db')

-- `status IN (QUEUED, WAITING, USERHOLD)`
unfoldable pub is_pending : StatusCode → Bool
unfolding is
is_pending s = is s queued || (is s waiting || is s userhold)

unfoldable pub is_held : StatusCode → Bool
unfolding is
is_held s = is s userhold

unfoldable pub set_held : JobRow → JobRow
set_held r = record r { status = userhold }

unfoldable pub set_released : JobRow → JobRow
set_released r = record r { status = waiting }

unfoldable pub add_priority : ℤ → JobRow → JobRow
add_priority delta r = record r { priority = r.priority +ℤ delta }

-- The error is found after the statement has been committed.
unfoldable pub hold_job : String → Db → Result (Unit {0}) × Db
hold_job id db =
    (guard (affected id is_pending db == 1) invalid_state, update_job id is_pending set_held db)

unfoldable pub release_job : String → Db → Result (Unit {0}) × Db
release_job id db =
    (guard (affected id is_held db == 1) invalid_state, update_job id is_held set_released db)

unfoldable pub adjust_job_priority : String → ℤ → Db → Result (Unit {0}) × Db
adjust_job_priority id delta db = if is_zero delta then (ok tt, db) else (
  guard (affected id is_pending db == 1) invalid_state,
  update_job id is_pending (add_priority delta) db,
)

-- UPDATE jobs SET f WHERE id IN (the tasks of the array) AND q(status), and the rows affected
unfoldable pub update_array : String → (StatusCode → Bool) → (JobRow → JobRow) → Db → ℕ × Db
update_array array_id q f db =
    let p : JobRow → Bool = λ r. has_detail db "array_id" array_id r.id && q r.status in
    (tally p db.jobs, record db { jobs = update p f db.jobs })

unfoldable pub hold_array : String → Db → ℕ × Db
hold_array array_id db = update_array array_id is_pending set_held db

unfoldable pub release_array : String → Db → ℕ × Db
release_array array_id db = update_array array_id is_held set_released db

unfoldable pub adjust_array_priority : String → ℤ → Db → ℕ × Db
adjust_array_priority array_id delta db =
    if is_zero delta then (0, db) else update_array array_id is_pending (add_priority delta) db
