-- ===== src/Store/Db.antt =====
-- The tables of storage/schema.sql and the statements that storage/sqlite.go runs on them.
-- A table is the list of its rows. A query with no ORDER BY returns rows in table order.
use batchq.Shared.{
  ℕ, Bool, false, ◌&&◌, Option, none, some, List, [], ◌∷◌, String, str_eq, find, any, tally,
  if◌then◌else◌,
}
use batchq.Shared.Int.{ℤ}
use batchq.Job.Status.{StatusCode, is_live, is_bad}

pub record JobRow : Type 0 where
  pub id : String
  pub status : StatusCode
  pub priority : ℤ
  pub name : String
  pub notes : String
  pub submit_time : String
  pub start_time : String
  pub end_time : String
  pub return_code : ℤ

-- `job_deps`: `job_id` waits for `afterok_id`.
pub record Dep : Type 0 where
  pub job_id : String
  pub afterok_id : String

-- `job_running`: the runner that claimed a job.
pub record Claim : Type 0 where
  pub job_id : String
  pub job_runner : String
  pub kind : String

-- `job_details` and `job_running_details`
pub record Detail : Type 0 where
  pub job_id : String
  pub key : String
  pub value : String

-- `job_inputs` and `job_outputs`
pub record PathRow : Type 0 where
  pub job_id : String
  pub path : String

pub record Db : Type 0 where
  pub jobs : List JobRow
  pub deps : List Dep
  pub running : List Claim
  pub details : List Detail
  pub running_details : List Detail
  pub inputs : List PathRow
  pub outputs : List PathRow

abbrev pub empty_db : Db
empty_db = record {
  jobs = [];
  deps = [];
  running = [];
  details = [];
  running_details = [];
  inputs = [];
  outputs = [];
}

-- UPDATE … SET f WHERE p
unfoldable pub update {ℓ} : {A : Type ℓ} → (A → Bool) → (A → A) → List A → List A
update p f [] = []
update p f (r ∷ rs) = (if p r then f r else r) ∷ update p f rs

-- SELECT … FROM jobs WHERE id = ?
unfoldable pub find_row : String → List JobRow → Option JobRow
unfolding find
find_row id rows = find (λ r. str_eq r.id id) rows

abbrev pub row_status : Option JobRow → Option StatusCode
row_status none = none
row_status (some r) = some r.status

-- SELECT status FROM jobs WHERE id = ?
unfoldable pub status_of : Db → String → Option StatusCode
status_of db id = row_status (find_row id db.jobs)

-- SELECT job_runner FROM job_running WHERE job_id = ?
unfoldable pub owner_of : Db → String → Option String
unfolding find
owner_of db id = elim (find (λ c. str_eq c.job_id id) db.running) [
  | none ↦ none
  | some c ↦ some c.job_runner
]

-- Whether `job_id` has a row in `job_deps` for `parent`.
unfoldable pub depends_on : List Dep → String → String → Bool
unfolding any
depends_on deps job_id parent = any (λ d. str_eq d.job_id job_id && str_eq d.afterok_id parent) deps

-- UPDATE jobs SET f WHERE id = ? AND q(status), the form of most transitions, and the number of
-- rows that it changes (`RowsAffected`).
unfoldable pub update_job : String → (StatusCode → Bool) → (JobRow → JobRow) → Db → Db
update_job id q f db = record db { jobs = update (λ r. str_eq r.id id && q r.status) f db.jobs }

unfoldable pub affected : String → (StatusCode → Bool) → Db → ℕ
affected id q db = tally (λ r. str_eq r.id id && q r.status) db.jobs

abbrev pub status_test : (StatusCode → Bool) → Option StatusCode → Bool
status_test q none = false
status_test q (some s) = q s

-- The job is in the table with a state before CANCELED.
abbrev pub live : Db → String → Bool
live db id = status_test is_live (status_of db id)

-- The job is CANCELED or FAILED: nothing that waits for it can ever run.
abbrev pub doomed : Db → String → Bool
doomed db id = status_test is_bad (status_of db id)

-- `jobDetailTx`: the value of a detail, "" where the key is absent.
unfoldable pub job_detail : Db → String → String → String
unfolding find
job_detail db id key = elim (find (λ d. str_eq d.job_id id && str_eq d.key key) db.details) [
  | none ↦ ""
  | some d ↦ d.value
]

-- The jobs that carry a detail of that key and value, in table order.
unfoldable pub has_detail : Db → String → String → String → Bool
unfolding any
has_detail db key value id =
    any (λ d. str_eq d.job_id id && (str_eq d.key key && str_eq d.value value)) db.details
