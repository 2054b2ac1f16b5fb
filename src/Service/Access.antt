-- ===== src/Service/Access.antt =====
-- What users may do to jobs, service/service.go: `authorizeJobAction`, `authorizeArrayAction` and the
-- user actions that call the store.
pub mod Laws
use batchq.Shared.{
  ℕ, ◌^◌, Bool, true, false, not, ◌||◌, Option, none, some, List, [], ◌∷◌, String, str_eq, ltb, leb,
  ◌==◌, if◌then◌else◌,
}
use batchq.Shared.Int.{ℤ, is_zero}
use batchq.Shared.Result.{
  Result, ok, err, not_found, invalid_state, forbidden, bad_request, guard, ◌>>=◌, ◌>>◌, or_before,
}
use batchq.Shared.Text.{digits_of, trim_space}
use batchq.Job.Status.{StatusCode, success, failed, canceled, is}
use batchq.Store.Db.{JobRow, Db, find_row, job_detail}
use batchq.Store.Resolve.{resolve_dependencies}
use batchq.Store.Cancel.{cancel_job, cancel_array, find_jobs_by_detail}
use batchq.Store.Transition.{
  hold_job, release_job, adjust_job_priority, hold_array, release_array, adjust_array_priority,
}
use batchq.Store.Cleanup.{cleanup_job}

-- `strconv.ParseUint(…, 10, 32)`, with `none` for its error.
unfoldable pub parse_uint32 : String → Option ℕ
parse_uint32 s = elim (digits_of s) [
  | none ↦ none
  | some n ↦ if ltb n (2 ^ 32) then some n else none
]

abbrev pub owner_check : ℕ → Option ℕ → Result (Unit {0})
owner_check uid none = err forbidden
owner_check uid (some owner) = guard (owner == uid) forbidden

-- `authorizeJobAction` for the user that the socket attests, if one does. A job with no uid detail is
-- refused as one whose uid is no number: the empty text is none.
unfoldable pub authorize_job_action : Option ℕ → String → Db → Result (Unit {0})
authorize_job_action none id db = ok tt
authorize_job_action (some uid) id db = if uid == 0 then ok tt else elim (find_row id db.jobs) [
  | none ↦ err not_found
  | some r ↦ owner_check uid (parse_uint32 (trim_space (job_detail db id "uid")))
]

-- The first task speaks for its array.
unfoldable pub authorize_array_action : Option ℕ → String → Db → Result (Unit {0})
authorize_array_action peer array_id db = elim (find_jobs_by_detail db "array_id" array_id) [
  | [] ↦ err bad_request
  | id ∷ ids ↦ authorize_job_action peer id db
]

-- The user actions on a job or on an array, with their texts for the reason of a cancellation.
pub data UserAction : Type 0 where
  cancel : (reason : String) → UserAction
  hold release : UserAction

abbrev pub default_reason : String → String
default_reason reason = if str_eq reason "" then "user request" else reason

-- A transaction that fails leaves the tables as they were.
abbrev pub committed {ℓ} : {A : Type ℓ} → Db → Result (A × Db) → Result (Unit {0}) × Db
committed db (err e) = (err e, db)
committed db (ok (a, db')) = (ok tt, db')

abbrev pub saved : Db → Result Db → Result (Unit {0}) × Db
saved db (err e) = (err e, db)
saved db (ok db') = (ok tt, db')

-- After a release a pass over the waiting jobs.
abbrev pub then_resolve : String → Result (Unit {0}) × Db → Result (Unit {0}) × Db
then_resolve now (err e, db) = (err e, db)
then_resolve now (ok u, db) = (ok tt, (resolve_dependencies now db).1)

-- The calls of the store for a job: `CancelJob`, `HoldJob`, `ReleaseJob`.
unfoldable pub job_action : String → String → UserAction → Db → Result (Unit {0}) × Db
job_action now id (cancel reason) db = saved db (cancel_job now id (default_reason reason) db)
job_action now id hold db = hold_job id db
job_action now id release db = then_resolve now (release_job id db)

-- Those for an array: `CancelArray`, `HoldArray`, `ReleaseArray`, without the counts that they return.
unfoldable pub array_action : String → String → UserAction → Db → Result (Unit {0}) × Db
array_action now array_id (cancel reason) db =
    committed db (cancel_array now array_id (default_reason reason) db)
array_action now array_id hold db = (ok tt, (hold_array array_id db).1)
array_action now array_id release db =
    (ok tt, (resolve_dependencies now (release_array array_id db).1).1)

abbrev pub guarded : Result (Unit {0}) → Db → Result (Unit {0}) × Db → Result (Unit {0}) × Db
guarded (err e) db acted = (err e, db)
guarded (ok u) db acted = acted

unfoldable pub user_job_action :
    Option ℕ → String → String → UserAction → Db → Result (Unit {0}) × Db
user_job_action peer now id act db =
    guarded (authorize_job_action peer id db) db (job_action now id act db)

unfoldable pub user_array_action :
    Option ℕ → String → String → UserAction → Db → Result (Unit {0}) × Db
user_array_action peer now array_id act db =
    guarded (authorize_array_action peer array_id db) db (array_action now array_id act db)

-- `AdjustJobPriority` does not ask who calls; `AdjustArrayPriority` does.
unfoldable pub user_adjust_job_priority : Option ℕ → String → ℤ → Db → Result (Unit {0}) × Db
user_adjust_job_priority peer id delta db =
    if is_zero delta then (ok tt, db) else adjust_job_priority id delta db

unfoldable pub user_adjust_array_priority : Option ℕ → String → ℤ → Db → Result (Unit {0}) × Db
user_adjust_array_priority peer array_id delta db =
    guarded (authorize_array_action peer array_id db) db
      (if is_zero delta then (ok tt, db) else (ok tt, (adjust_array_priority array_id delta db).1))

unfoldable pub is_terminal : StatusCode → Bool
unfolding is
is_terminal s = is s success || is s failed || is s canceled

-- `CleanupJob`
unfoldable pub user_cleanup_job : String → Db → Result Db
user_cleanup_job id db = elim (find_row id db.jobs) [
  | none ↦ err not_found
  | some r ↦ elim (is_terminal r.status) [ true ↦ cleanup_job id db | false ↦ err invalid_state ]
]
