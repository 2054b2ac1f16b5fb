-- ===== src/Store/Submit.antt =====
-- Submission, storage/sqlite.go: `InsertJob`, `InsertArray`, `insertJobTx`, `validateDeps`.
use batchq.Shared.{
  Bool, true, false, not, ◌&&◌, ◌||◌, none, some, List, [], ◌∷◌, String, str_eq, any, contains,
  if◌then◌else◌,
}
use batchq.Shared.Int.{pos}
use batchq.Shared.Text.{replace}
use batchq.Shared.Result.{
  Result, ok, err, not_found, unique_violation, foreign_key, other, ◌>>=◌, ◌>>◌, guard,
}
use batchq.Job.Status.{StatusCode, userhold, waiting, queued, is, is_bad}
use batchq.Job.Def.{JobDef, JobDefDetail, get_detail}
use batchq.Store.Db.{JobRow, Detail, PathRow, Db, status_of, depends_on}

-- A dependent of a missing, canceled or failed job is refused.
unfoldable pub validate_dep : Db → String → Result (Unit {0})
validate_dep db dep = elim (status_of db dep) [
  | none ↦ err not_found
  | some s ↦ guard (not (is_bad s)) other
]

unfoldable pub validate_deps : Db → List String → Result (Unit {0})
validate_deps db [] = ok tt
validate_deps db (dep ∷ deps) = validate_dep db dep >> validate_deps db deps

-- `jobPlaceholders`
unfoldable pub placeholders : JobDef → List (String × String)
placeholders job =
    ("%JOBID", job.job_id)
    ∷ ("%A", get_detail job "array_id" "")
    ∷ ("%a", get_detail job "array_index" "")
    ∷ []

unfoldable pub initial_status : JobDef → StatusCode
initial_status job =
    if is job.status userhold
    then userhold
    else elim job.after_ok [ [] ↦ queued | d ∷ ds ↦ waiting ]

unfoldable pub initial_name : JobDef → String
initial_name job =
    replace (placeholders job) 0 (if str_eq job.name "" then "batchq-%JOBID" else job.name)

unfoldable pub new_row : String → JobDef → JobRow
new_row submit_time job = record {
  id = job.job_id;
  status = initial_status job;
  priority = job.priority;
  name = initial_name job;
  notes = job.notes;
  submit_time = submit_time;
  start_time = "";
  end_time = "";
  return_code = pos 0;
}

-- INSERT INTO jobs; `id` is the primary key.
unfoldable pub insert_row : String → JobDef → Db → Result Db
insert_row submit_time job db = elim (status_of db job.job_id) [
  | some s ↦ err unique_violation
  | none ↦ ok (record db { jobs = new_row submit_time job ∷ db.jobs })
]

-- INSERT INTO job_deps; the pair is the primary key, and the parent references `jobs`.
unfoldable pub insert_dep : String → String → Db → Result Db
insert_dep id dep db =
    if depends_on db.deps id dep then err unique_violation else elim (status_of db dep) [
      | none ↦ err foreign_key
      | some s ↦ ok (record db { deps = record { job_id = id; afterok_id = dep } ∷ db.deps })
    ]

unfoldable pub insert_deps : String → List String → Db → Result Db
insert_deps id [] db = ok db
insert_deps id (dep ∷ deps) db = do db' ← insert_dep id dep db; insert_deps id deps db'

-- The paths of the output files get the job's id; the array's placeholders stay for run time.
unfoldable pub stored_value : String → JobDefDetail → String
stored_value id d =
    if str_eq d.key "stdout" || str_eq d.key "stderr"
    then replace (("%JOBID", id) ∷ []) 0 d.value
    else d.value

-- INSERT INTO job_details; job and key are the primary key.
unfoldable pub insert_detail : String → JobDefDetail → Db → Result Db
insert_detail id d db =
    if any (λ (x : Detail). str_eq x.job_id id && str_eq x.key d.key) db.details
    then err unique_violation
    else ok (record db {
      details = record { job_id = id; key = d.key; value = stored_value id d } ∷ db.details;
    })

unfoldable pub insert_details : String → List JobDefDetail → Db → Result Db
insert_details id [] db = ok db
insert_details id (d ∷ ds) db = do db' ← insert_detail id d db; insert_details id ds db'

dedup_from : List String → List String → List String
dedup_from seen [] = []
dedup_from seen (p ∷ ps) =
    let later = dedup_from seen ps in
    let first = p ∷ dedup_from (p ∷ seen) ps in
    if str_eq p "" || contains seen p then later else first

unfoldable pub dedup_non_empty : List String → List String
unfolding dedup_from
dedup_non_empty paths = dedup_from [] paths

-- INSERT INTO job_inputs or job_outputs; job and path are the primary key.
unfoldable pub insert_paths : String → List String → List PathRow → Result (List PathRow)
insert_paths id [] rows = ok rows
insert_paths id (p ∷ ps) rows =
    if any (λ (x : PathRow). str_eq x.job_id id && str_eq x.path p) rows
    then err unique_violation
    else insert_paths id ps (record { job_id = id; path = p } ∷ rows)

unfoldable pub insert_job_tx : String → JobDef → Db → Result Db
insert_job_tx submit_time job db = do
  with_row ← insert_row submit_time job db
  with_deps ← insert_deps job.job_id job.after_ok with_row
  with_details ← insert_details job.job_id job.details with_deps
  inputs ← insert_paths job.job_id (dedup_non_empty job.input_files) with_details.inputs
  outputs ← insert_paths job.job_id (dedup_non_empty job.output_files) with_details.outputs
  ok (record with_details { inputs = inputs; outputs = outputs })

unfoldable pub insert_job : String → JobDef → Db → Result Db
insert_job now job db = do
  guard (not (str_eq job.job_id "")) other
  validate_deps db job.after_ok
  insert_job_tx now job db

unfoldable pub validate_tasks : Db → List JobDef → Result (Unit {0})
validate_tasks db [] = ok tt
validate_tasks db (task ∷ tasks) = do
  guard (not (str_eq task.job_id "")) other
  validate_deps db task.after_ok
  validate_tasks db tasks

unfoldable pub insert_tasks : String → List JobDef → Db → Result Db
insert_tasks now [] db = ok db
insert_tasks now (task ∷ tasks) db = do db' ← insert_job_tx now task db; insert_tasks now tasks db'

abbrev pub is_empty : List JobDef → Bool
is_empty [] = true
is_empty (task ∷ tasks) = false

unfoldable pub insert_array : String → String → List JobDef → Db → Result Db
insert_array now array_id tasks db = do
  guard (not (str_eq array_id "")) other
  guard (not (is_empty tasks)) other
  validate_tasks db tasks
  insert_tasks now tasks db
