-- ===== src/Store/Batch.antt =====
-- Batches of array tasks for one `sbatch --array`: `ClaimNextArrayBatch` and `claimArrayTasksTx` of
-- storage/sqlite.go.

use batchq.Shared.{
  ℕ, Bool, true, false, not, ◌&&◌, ◌||◌, Option, none, some, List, [], ◌∷◌, ◌++◌, map, length,
  String, str_eq, select, contains, ltb, leb, if◌then◌else◌,
}
use batchq.Shared.Int.{ℤ, pos, negsuc, ltb_ℤ}
use batchq.Shared.Text.{atoi_value}
use batchq.Shared.Result.{Result, ok, err, other}
use batchq.Job.Status.{queued, is}
use batchq.Store.Db.{Detail, Db, status_of, status_test, has_detail, job_detail}
use batchq.Store.Claim.{claim_job, queue_order}
use batchq.Store.Claim.Fits.{Limits, job_fits_limits, job_fits_resources}

pub record ArrayTask : Type 0 where
  pub job_id : String
  pub index : ℤ

-- The plain job, or the template of the batch, is given by its id: `txGetJob` reads it.
pub record ArrayClaimResult : Type 0 where
  pub job : Option String
  pub array_id : String
  pub throttle : ℤ
  pub tasks : List ArrayTask
  pub more_eligible : Bool
  pub blocked : Bool
  pub deferred : Bool

abbrev pub empty_result : ArrayClaimResult
empty_result = record {
  job = none;
  array_id = "";
  throttle = pos 0;
  tasks = [];
  more_eligible = false;
  blocked = false;
  deferred = false;
}

-- SQLite's CAST of a text to INTEGER orders the tasks.
module _ (cast : String → ℤ) where
  unfoldable pub insert_task : Detail → List Detail → List Detail
  insert_task d [] = d ∷ []
  insert_task d (e ∷ es) =
      let later = e ∷ insert_task d es in
      if ltb_ℤ (cast d.value) (cast e.value) then d ∷ e ∷ es else later

  unfoldable pub sort_tasks : List Detail → List Detail
  unfolding insert_task
  sort_tasks [] = []
  sort_tasks (d ∷ ds) = insert_task d (sort_tasks ds)

  -- The `array_index` rows of the tasks of an array that are QUEUED.
  unfoldable pub queued_tasks : Db → String → List ArrayTask
  queued_tasks db array_id =
      map (λ d. record { job_id = d.job_id; index = atoi_value d.value })
        (sort_tasks (
          select
            (λ (d : Detail).
              str_eq d.key "array_index"
              && (has_detail db "array_id" array_id d.job_id
                  && status_test (λ s. is s queued) (status_of db d.job_id)))
            db.details))

-- How many tasks this pass could take: a bound that is not positive does not bound.
unfoldable pub claimable : ℤ → ℕ → ℕ
claimable (negsuc m) available = available
claimable (pos m) available = if ltb 0 m && ltb m available then m else available

-- 0 < e and n < e
unfoldable pub falls_short : ℤ → ℕ → Bool
falls_short (negsuc e) n = false
falls_short (pos e) n = ltb 0 e && ltb n e

-- The gate on small batches, which lets the last tasks of an array through.
unfoldable pub is_deferred : (max_tasks min_tasks : ℤ) → (full_array : Bool) → ℕ → Bool
is_deferred max_tasks min_tasks full_array available =
    let least = if full_array then pos available else min_tasks in
    falls_short least (claimable max_tasks available)
    && ltb (claimable max_tasks available) available

-- 0 < max_tasks and max_tasks <= n
unfoldable pub is_full : ℤ → ℕ → Bool
is_full (negsuc m) n = false
is_full (pos m) n = ltb 0 m && leb m n

-- The loop over the candidates: a lost race sets `more`.
unfoldable pub claim_tasks :
    String
    → String
    → String
    → ℤ
    → List ArrayTask
    → List ArrayTask
    → Bool
    → Db
    → (List ArrayTask × Bool) × Db
claim_tasks now runner kind max_tasks [] done more db = ((done, more), db)
claim_tasks now runner kind max_tasks (c ∷ cs) done more db =
    let (won, db') = claim_job now c.job_id runner kind db in
    let taken = claim_tasks now runner kind max_tasks cs (done ++ c ∷ []) more db' in
    let lost = claim_tasks now runner kind max_tasks cs done true db in
    if is_full max_tasks (length done) then ((done, more), db) else if won then taken else lost

abbrev pub throttle_of : Db → List ArrayTask → ℤ
throttle_of db [] = pos 0
throttle_of db (c ∷ cs) = atoi_value (job_detail db c.job_id "array_throttle")

unfoldable pub claim_array_tasks :
    (String → ℤ) → String → String → String → String → ℤ → ℤ → Bool → Db → ArrayClaimResult × Db
claim_array_tasks cast now array_id runner kind max_tasks min_tasks full_array db =
    let cands = queued_tasks cast db array_id in
    let ((tasks, more), db') = claim_tasks now runner kind max_tasks cands [] false db in
    let taken = record empty_result {
      array_id = array_id;
      throttle = throttle_of db cands;
      tasks = tasks;
      more_eligible = more;
    } in
    if is_deferred max_tasks min_tasks full_array (length cands)
    then (record empty_result { array_id = array_id; deferred = true }, db)
    else (taken, db')

-- The first task of a batch; a batch with none is no result of the scan.
abbrev pub template : ArrayClaimResult → Option String
template r = elim r.tasks [ [] ↦ none | t ∷ ts ↦ some t.job_id ]

-- What the scan over the queued jobs has met so far.
pub record Seen : Type 0 where
  pub more : Bool
  pub blocked : Bool
  pub deferred : Bool
  pub deferred_arrays : List String

abbrev pub none_seen : Seen
none_seen = record { more = false; blocked = false; deferred = false; deferred_arrays = [] }

unfoldable pub fits : Limits → Db → String → Bool
fits limits db id = job_fits_limits limits db id && job_fits_resources limits db id

abbrev plain_result : Seen → String → ArrayClaimResult
plain_result seen id = record empty_result {
  job = some id;
  more_eligible = seen.more;
  blocked = seen.blocked;
}

abbrev batch_result : Seen → ArrayClaimResult → ArrayClaimResult
batch_result seen r = record r {
  job = template r;
  more_eligible = r.more_eligible || seen.more;
  blocked = seen.blocked;
}

module _ (cast : String → ℤ) (now runner kind : String) (limits : Limits) (max_tasks min_tasks : ℤ)
    (full_array : Bool) where
  -- The loop of `ClaimNextArrayBatch`.
  unfoldable pub scan : List String → Seen → Db → ArrayClaimResult × Db
  scan [] seen db = (
    record empty_result {
      more_eligible = seen.more;
      blocked = seen.blocked;
      deferred = seen.deferred;
    },
    db,
  )
  scan (id ∷ ids) seen db =
      let array_id = job_detail db id "array_id" in
      let (won, one) = claim_job now id runner kind db in
      let (r, many) =
        claim_array_tasks cast now array_id runner kind max_tasks min_tasks full_array db in
      let unfit = scan ids (record seen { blocked = true }) db in
      let skipped = scan ids seen db in
      let raced = scan ids (record seen { more = true }) db in
      let all_raced = scan ids (record seen { more = true }) many in
      let held =
        scan ids
          (record seen { deferred = true; deferred_arrays = array_id ∷ seen.deferred_arrays }) db in
      if not (fits limits db id)
      then unfit
      else if not (str_eq array_id "") && contains seen.deferred_arrays array_id
      then skipped
      else if str_eq array_id ""
      then if won then (plain_result seen id, one) else raced
      else if r.deferred
      then held
      else elim r.tasks [ [] ↦ all_raced | t ∷ ts ↦ (batch_result seen r, many) ]

unfoldable pub claim_next_array_batch :
    (String → ℤ)
    → String
    → String
    → String
    → Limits
    → ℤ
    → ℤ
    → Bool
    → Db
    → Result (ArrayClaimResult × Db)
claim_next_array_batch cast now runner kind limits max_tasks min_tasks full_array db =
    if str_eq runner ""
    then err other
    else ok (
        scan cast now runner kind limits max_tasks min_tasks full_array (queue_order db) none_seen
          db)
