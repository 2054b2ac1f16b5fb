-- ===== src/Job/Def.antt =====
-- `JobDef` of jobs/jobdef.go: the job as clients build it and the store inserts it.
use batchq.Shared.{
  not, ◌&&◌, none, some, List, [], ◌∷◌, ◌++◌, String, str_eq, find, contains, if◌then◌else◌,
}
use batchq.Shared.Int.{ℤ}
use batchq.Job.Status.{StatusCode, unknown}

pub record JobDefDetail : Type 0 where
  pub key : String
  pub value : String

-- The times, the return code and the running details are written by the store alone.
pub record JobDef : Type 0 where
  pub job_id : String
  pub status : StatusCode
  pub priority : ℤ
  pub name : String
  pub notes : String
  pub after_ok : List String
  pub details : List JobDefDetail
  pub input_files : List String
  pub output_files : List String

unfoldable pub get_detail : JobDef → String → String → String
get_detail job key default = elim (find (λ (d : JobDefDetail). str_eq d.key key) job.details) [
  | none ↦ default
  | some d ↦ d.value
]

-- Once it has an id a job is submitted, and these methods change nothing.
unfoldable pub add_detail : JobDef → String → String → JobDef
add_detail job key val =
    if str_eq job.job_id ""
    then record job { details = job.details ++ record { key = key; value = val } ∷ [] }
    else job

unfoldable pub new_job_def : String → String → JobDef
unfolding add_detail
new_job_def name src =
    add_detail
      (record {
        job_id = "";
        status = unknown;
        priority = ℤ.pos 0;
        name = name;
        notes = "";
        after_ok = [];
        details = [];
        input_files = [];
        output_files = [];
      })
      "script" src

unfoldable pub run_id : JobDef → String
run_id job = get_detail job "run_id" ""

unfoldable pub set_run_id : JobDef → String → JobDef
set_run_id job id = if str_eq id "" then job else add_detail job "run_id" id

unfoldable pub add_input_file : JobDef → String → JobDef
add_input_file job path =
    if str_eq job.job_id "" && (not (str_eq path "") && not (contains job.input_files path))
    then record job { input_files = job.input_files ++ path ∷ [] }
    else job

unfoldable pub add_output_file : JobDef → String → JobDef
add_output_file job path =
    if str_eq job.job_id "" && (not (str_eq path "") && not (contains job.output_files path))
    then record job { output_files = job.output_files ++ path ∷ [] }
    else job

unfoldable pub add_after_ok : JobDef → String → JobDef
add_after_ok job dep =
    if str_eq job.job_id "" && not (contains job.after_ok dep)
    then record job { after_ok = job.after_ok ++ dep ∷ [] }
    else job
