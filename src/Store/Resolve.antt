-- ===== src/Store/Resolve.antt =====
-- `ResolveDependencies` of storage/sqlite.go: one pass over the jobs that wait.
pub mod Parents
use batchq.Shared.{
  ℕ, suc, ◌≡◌, Bool, true, false, not, ◌&&◌, ◌||◌, Option, none, some, List, [], ◌∷◌, map, String,
  str_eq, select, ◌==◌, if◌then◌else◌,
}
use Prim.Native.String.{◌++◌ as str_append}
use batchq.Job.Status.{
  StatusCode, unknown, waiting, queued, proxyqueued, success, canceled, is, is_bad,
}
use batchq.Store.Db.{JobRow, Dep, Db, update_job, status_of}

-- `status = WAITING OR status = UNKNOWN`
unfoldable pub is_waiting : StatusCode → Bool
unfolding is
is_waiting s = is s waiting || is s unknown

-- A parent that need not be waited for: finished, or handed to the other scheduler.
unfoldable pub is_met : StatusCode → Bool
unfolding is
is_met s = is s success || is s proxyqueued

pub record Verdict : Type 0 where
  pub can_queue : Bool
  pub should_cancel : Bool
  pub reason : String

-- One row of the query for the parents of a job.
unfoldable pub weigh : String → StatusCode → Verdict → Verdict
weigh parent s v = record {
  can_queue = v.can_queue && is_met s;
  should_cancel = v.should_cancel || is_bad s;
  reason =
      if is_bad s
      then (if str_eq v.reason ""
          then str_append "Depends on " parent
          else str_append v.reason (str_append ", " parent))
      else v.reason;
}

-- The rows of `job_deps` joined with the states of the parents.
unfoldable pub weigh_row : String → Dep → Option StatusCode → Verdict → Verdict
weigh_row id d none v = v
weigh_row id d (some s) v = if str_eq d.job_id id then weigh d.afterok_id s v else v

unfoldable pub weigh_parents : Db → String → List Dep → Verdict → Verdict
weigh_parents db id [] v = v
weigh_parents db id (d ∷ ds) v =
    weigh_parents db id ds (weigh_row id d (status_of db d.afterok_id) v)

unfoldable pub verdict : Db → String → Verdict
verdict db id =
    weigh_parents db id db.deps (record { can_queue = true; should_cancel = false; reason = "" })

pub record Resolved : Type 0 where
  pub promoted : ℕ
  pub canceled : ℕ

unfoldable pub set_doomed : String → String → JobRow → JobRow
set_doomed now reason r = record r {
  status = StatusCode.canceled;
  notes = str_append reason " failed/canceled";
  end_time = now;
}

unfoldable pub set_queued : JobRow → JobRow
set_queued r = record r { status = queued }

-- The body of the loop for one job.
unfoldable pub resolve_one : String → String → Db → Db
resolve_one now id db =
    let v = verdict db id in
    if v.should_cancel
    then update_job id is_waiting (set_doomed now v.reason) db
    else if v.can_queue
    then update_job id is_waiting set_queued db
    else db

unfoldable pub count_one : String → Db → Resolved → Resolved
count_one id db n =
    let v = verdict db id in
    if v.should_cancel
    then record n { canceled = suc n.canceled }
    else if v.can_queue
    then record n { promoted = suc n.promoted }
    else n

unfoldable pub resolve_each : String → List String → Resolved → Db → Resolved × Db
resolve_each now [] n db = (n, db)
resolve_each now (id ∷ ids) n db = resolve_each now ids (count_one id db n) (resolve_one now id db)

unfoldable pub candidates : Db → List String
candidates db = map (λ r. r.id) (select (λ (r : JobRow). is_waiting r.status) db.jobs)

unfoldable pub resolve_dependencies : String → Db → Resolved × Db
resolve_dependencies now db =
    resolve_each now (candidates db) (record { promoted = 0; canceled = 0 }) db
