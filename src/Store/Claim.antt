-- ===== src/Store/Claim.antt =====
-- The atomic claim of storage/sqlite.go: `ClaimNextJob`, `claimJobTx`, and what it asks of a job.
pub mod Fits
pub mod Order
pub mod First
pub mod Priority
use batchq.Shared.{
  ℕ, ◌≡◌, Bool, true, false, not, ◌&&◌, ◌||◌, Option, none, some, List, [], ◌∷◌, map, String,
  str_eq, select, ◌==◌, if◌then◌else◌,
}
use Prim.Native.Nat.{Ordering}
use Prim.Native.String.{compare}
use batchq.Shared.Int.{ltb_ℤ}
use batchq.Shared.Result.{Error, Result, ok, err, other}
use batchq.Job.Status.{StatusCode, queued, running, is}
use batchq.Store.Db.{JobRow, Claim, Db, update_job, owner_of}
use Fits.{Limits, job_fits}

by_id : Ordering → Bool
by_id Ordering.gt = false
by_id _ = true

by_time : Ordering → Ordering → Bool
unfolding by_id
by_time Ordering.lt ids = true
by_time Ordering.eq ids = by_id ids
by_time Ordering.gt ids = false

-- ORDER BY priority DESC, submit_time, id; texts compare by their bytes.
unfoldable pub comes_before : JobRow → JobRow → Bool
unfolding by_time
comes_before r s =
    ltb_ℤ s.priority r.priority
    || (not (ltb_ℤ r.priority s.priority)
        && by_time (compare r.submit_time s.submit_time) (compare r.id s.id))

unfoldable pub insert_row : JobRow → List JobRow → List JobRow
insert_row r [] = r ∷ []
insert_row r (s ∷ rows) =
    let later = s ∷ insert_row r rows in if comes_before r s then r ∷ s ∷ rows else later

unfoldable pub sort_rows : List JobRow → List JobRow
unfolding insert_row
sort_rows [] = []
sort_rows (r ∷ rows) = insert_row r (sort_rows rows)

-- SELECT id FROM jobs WHERE status = QUEUED ORDER BY …
unfoldable pub queue_order : Db → List String
queue_order db = map (λ r. r.id) (sort_rows (select (λ (r : JobRow). is r.status queued) db.jobs))

unfoldable pub set_running : String → JobRow → JobRow
set_running now r = record r { status = running; start_time = now }

-- `claimJobTx`: the key of `job_running` admits one claim for each job.
unfoldable pub claim_job : String → String → String → String → Db → Bool × Db
claim_job now id runner kind db = elim (owner_of db id) [
  | some owner ↦ (false, db)
  | none ↦ (
    true,
    update_job id (λ s. is s queued) (set_running now)
        (record db {
          running = record { job_id = id; job_runner = runner; kind = kind } ∷ db.running;
        }),
  )
]

-- The job that was claimed is given by its id: `txGetJob` reads it from the database made.
pub record ClaimResult : Type 0 where
  pub job : Option String
  pub more_eligible : Bool
  pub blocked : Bool

-- The loop over the queued jobs. A lost race sets `more`, a job that does not fit `blocked`.
unfoldable pub claim_first :
    String → String → String → Limits → List String → Bool → Bool → Db → ClaimResult × Db
claim_first now runner kind limits [] more blocked db =
    (record { job = none; more_eligible = more; blocked = blocked }, db)
claim_first now runner kind limits (id ∷ ids) more blocked db =
    let (won, db') = claim_job now id runner kind db in
    let skipped = claim_first now runner kind limits ids more true db in
    let lost = claim_first now runner kind limits ids true blocked db in
    if not (job_fits limits db id)
    then skipped
    else if won
    then (record { job = some id; more_eligible = more; blocked = blocked }, db')
    else lost

unfoldable pub claim_next_job : String → String → String → Limits → Db → Result (ClaimResult × Db)
claim_next_job now runner kind limits db =
    if str_eq runner ""
    then err other
    else ok (claim_first now runner kind limits (queue_order db) false false db)
