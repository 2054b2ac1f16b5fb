-- ===== src/Service/Archive.antt =====
-- Archives: `LoadJobs`, `RestoreJobs` and `restoreJobTx` of storage/sqlite.go, and `archiveOrdered` of
-- service/service.go.
mod Rows
pub mod Laws
use batchq.Shared.{
  ℕ, ◌+◌, Bool, true, false, not, ◌&&◌, Option, none, some, List, [], ◌∷◌, map, String, str_eq, any,
  select, length, ◌==◌, if◌then◌else◌,
}
use batchq.Shared.Int.{ℤ}
use batchq.Job.Status.{StatusCode}
use batchq.Shared.Result.{Result, ok, err, Error, other, invalid_state, ◌>>=◌}
use batchq.Store.Db.{JobRow, Dep, Detail, PathRow, Db, empty_db, find_row, depends_on}
use batchq.Store.Cleanup.{chunks, cleanup_jobs}
use batchq.Service.Access.{is_terminal}

-- Go's package `time`, as far as the store uses it: the zero time, and texts in a layout. A time that
-- is formatted is taken to UTC first.
pub record Clock (Time : Type 0) : Type 0 where
  pub zero_time : Time
  pub is_zero_time : Time → Bool
  pub parse : (layout : String) → String → Option Time
  pub format : (layout : String) → Time → String

abbrev time_format : String
time_format = "2006-01-02T15:04:05Z"

abbrev legacy_format : String
legacy_format = "2006-01-02 15:04:05 MST"

-- A job with all its relations, as it is read from one database and written to another.
pub record StoredJob (Time : Type 0) : Type 0 where
  pub job_id : String
  pub status : StatusCode
  pub priority : ℤ
  pub name : String
  pub notes : String
  pub submit_time : Time
  pub start_time : Time
  pub end_time : Time
  pub return_code : ℤ
  pub after_ok : List String
  pub details : List (String × String)
  pub running_details : List (String × String)
  pub inputs : List String
  pub outputs : List String

-- The entries and the paths of one job, in table order.
unfoldable pub entries_of : String → List Detail → List (String × String)
entries_of id rows =
    map (λ (d : Detail). (d.key, d.value)) (select (λ (d : Detail). str_eq d.job_id id) rows)

unfoldable pub paths_of : String → List PathRow → List String
paths_of id rows = map (λ (p : PathRow). p.path) (select (λ (p : PathRow). str_eq p.job_id id) rows)

-- INSERT OR IGNORE, for each table.
unfoldable pub restore_row : JobRow → List JobRow → List JobRow
restore_row r rows = elim (find_row r.id rows) [ none ↦ r ∷ rows | some old ↦ rows ]

unfoldable pub restore_deps : String → List String → List Dep → List Dep
restore_deps id [] rows = rows
restore_deps id (p ∷ ps) rows =
    restore_deps id ps
      (if depends_on rows id p then rows else record { job_id = id; afterok_id = p } ∷ rows)

unfoldable pub restore_entries : String → List (String × String) → List Detail → List Detail
restore_entries id [] rows = rows
restore_entries id ((k, v) ∷ ds) rows = restore_entries id ds (
    if any (λ (x : Detail). str_eq x.job_id id && str_eq x.key k) rows
    then rows
    else record { job_id = id; key = k; value = v } ∷ rows)

unfoldable pub restore_paths : String → List String → List PathRow → List PathRow
restore_paths id [] rows = rows
restore_paths id (p ∷ ps) rows = restore_paths id ps (
    if any (λ (x : PathRow). str_eq x.job_id id && str_eq x.path p) rows
    then rows
    else record { job_id = id; path = p } ∷ rows)

-- The state of a move: the jobs moved so far, the live tables, and the archive that is written.
pub record Move : Type 0 where
  pub count : ℕ
  pub live : Db
  pub archive : Db

abbrev pub moved : ℕ → Result (Unit {0}) → ℕ
moved size (ok u) = size
moved size (err e) = 0

-- After the archive has the batch: its removal from the live tables. Where that fails, what it has
-- committed stays.
unfoldable pub remove_batch : List String → ℕ → Db → Move → Result (Unit {0}) × Move
remove_batch chunk size archive m =
    let out = cleanup_jobs chunk m.live in
    (out.0, record { count = m.count + moved size out.0; live = out.1; archive = archive })

module _ {Time : Type 0} (clock : Clock Time) where
  unfoldable pub parse_time : String → Result Time
  parse_time s = if str_eq s "" then ok clock.zero_time else elim (clock.parse time_format s) [
    | some t ↦ ok t
    | none ↦ elim (clock.parse legacy_format s) [ some t ↦ ok t | none ↦ err other ]
  ]

  unfoldable pub format_time : Time → String
  format_time t = if clock.is_zero_time t then "" else clock.format time_format t

  -- The three times of a row; the first that is no time is an error.
  unfoldable pub scan_times : JobRow → Result (Time × Time × Time)
  scan_times r = do
    submit ← parse_time r.submit_time
    start ← parse_time r.start_time
    end_time ← parse_time r.end_time
    ok (submit, start, end_time)

  abbrev pub load_row : Db → JobRow → Time × Time × Time → StoredJob Time
  load_row db r (submit, start, end_time) = record {
    job_id = r.id;
    status = r.status;
    priority = r.priority;
    name = r.name;
    notes = r.notes;
    submit_time = submit;
    start_time = start;
    end_time = end_time;
    return_code = r.return_code;
    after_ok = map (λ (d : Dep). d.afterok_id) (select (λ (d : Dep). str_eq d.job_id r.id) db.deps);
    details = entries_of r.id db.details;
    running_details = entries_of r.id db.running_details;
    inputs = paths_of r.id db.inputs;
    outputs = paths_of r.id db.outputs;
  }

  -- Ids that are not there are skipped.
  unfoldable pub load_jobs : Db → List String → Result (List (StoredJob Time))
  load_jobs db [] = ok []
  load_jobs db (id ∷ ids) =
      let rest = load_jobs db ids in
      elim (find_row id db.jobs) [
        | none ↦ rest
        | some r ↦ do times ← scan_times r; js ← rest; ok (load_row db r times ∷ js)
      ]

  -- The row that `restoreJobTx` writes.
  unfoldable pub restored : StoredJob Time → JobRow
  restored j = record {
    id = j.job_id;
    status = j.status;
    priority = j.priority;
    name = j.name;
    notes = j.notes;
    submit_time = format_time j.submit_time;
    start_time = format_time j.start_time;
    end_time = format_time j.end_time;
    return_code = j.return_code;
  }

  -- `restoreJobTx`; the archive's foreign keys are off.
  unfoldable pub restore_job : StoredJob Time → Db → Db
  restore_job j db = record {
    jobs = restore_row (restored j) db.jobs;
    deps = restore_deps j.job_id j.after_ok db.deps;
    running = db.running;
    details = restore_entries j.job_id j.details db.details;
    running_details = restore_entries j.job_id j.running_details db.running_details;
    inputs = restore_paths j.job_id j.inputs db.inputs;
    outputs = restore_paths j.job_id j.outputs db.outputs;
  }

  -- `RestoreJobs`, one transaction.
  unfoldable pub restore_jobs : List (StoredJob Time) → Db → Result Db
  restore_jobs [] db = ok db
  restore_jobs (j ∷ js) db =
      if str_eq j.job_id "" then err other else restore_jobs js (restore_job j db)

  unfoldable pub move_chunk : List String → Move → Result (Unit {0}) × Move
  move_chunk chunk m = elim (load_jobs m.live chunk) [
    | err e ↦ (err e, m)
    | ok batch ↦
        if any (λ (j : StoredJob Time). not (is_terminal j.status)) batch
        then (err invalid_state, m)
        else elim (restore_jobs batch m.archive) [
          | err e ↦ (err e, m)
          | ok archive ↦ remove_batch chunk (length batch) archive m
        ]
  ]

  -- The first chunk that fails ends the loop.
  unfoldable pub move_chunks : List (List String) → Move → Result (Unit {0}) × Move
  move_chunks [] m = (ok tt, m)
  move_chunks (c ∷ cs) m =
      let out = move_chunk c m in
      let rest = move_chunks cs out.1 in elim out.0 [ ok u ↦ rest | err e ↦ out ]

  -- `archiveOrdered`, from the new archive on: an archive into which nothing was moved is removed.
  unfoldable pub archive_ordered : List String → Db → Result (Unit {0}) × Db × Option Db
  archive_ordered ids db =
      let (r, m) = move_chunks (chunks ids) (record { count = 0; live = db; archive = empty_db }) in
      (r, m.live, if m.count == 0 then none else some m.archive)
