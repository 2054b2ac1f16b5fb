-- ===== src/Store/Run.antt =====
-- The store as its clients see it where requests come one after the other: each is one transaction or
-- one statement of storage/sqlite.go, and a submission its check and its transaction with no other
-- request in between. A transaction that fails is rolled back. Store.Overlap has the submissions that
-- overlap other requests.
use batchq.Shared.{◌≡◌, refl, Bool, false, List, [], ◌∷◌, String}
use batchq.Shared.Int.{ℤ}
use batchq.Shared.Result.{Result, ok, err, or_before}
use batchq.Job.Status.{StatusCode, is_live}
use batchq.Job.Def.{JobDef}
use batchq.Store.Db.{Db}
use batchq.Store.Submit.{insert_job, insert_array}
use batchq.Store.Resolve.{resolve_dependencies}
use batchq.Store.Claim.{claim_next_job}
use batchq.Store.Claim.Fits.{Limits}
use batchq.Store.Cancel.{cancel_job, cancel_array}
use batchq.Store.Transition.{
  mark_job_proxied, update_running_details, end_job, end_proxied_job, hold_job, release_job,
  adjust_job_priority, hold_array, release_array, adjust_array_priority,
}
use batchq.Store.Batch.{claim_next_array_batch}
use batchq.Store.Cleanup.{cleanup_job}
use batchq.Store.Cleanup.Removal.{cleanup_job_exact}
use batchq.Store.Wf.{Wf}
use batchq.Store.Invariant.Cancels.{cancel_job-Wf, cancel_array-Wf}
use batchq.Store.Invariant.Ends.{
  put_running_details-Wf, mark_job_proxied-Wf, end_job-Wf, end_proxied_job-Wf,
}
use batchq.Store.Invariant.Users.{
  hold_job-Wf, release_job-Wf, hold_array-Wf, release_array-Wf, adjust_job_priority-Wf,
  adjust_array_priority-Wf,
}
use batchq.Store.Invariant.Resolves.{resolve_dependencies-Wf}
use batchq.Store.Invariant.Claims.{claim_next_job-Wf}
use batchq.Store.Invariant.Scans.{claim_next_array_batch-Wf}
use batchq.Store.Invariant.Inserts.{insert_job-Wf, insert_array-Wf}

-- The states that the server lets a proxied job end in (server/handlers.go, `handleEndProxied`).
pub data EndStatus : Type 0 where
  succeeded failed canceled : EndStatus

abbrev pub end_status : EndStatus → StatusCode
end_status EndStatus.succeeded = StatusCode.success
end_status EndStatus.failed = StatusCode.failed
end_status EndStatus.canceled = StatusCode.canceled

-- The methods of `storage.Storage` that change the states of jobs.
pub data Request : Type 0 where
  submit : JobDef → Request
  submit_array : String → List JobDef → Request
  resolve : Request
  claim : (runner kind : String) → Limits → Request
  claim_batch : (runner kind : String) → Limits → (max_tasks min_tasks : ℤ) → Bool → Request
  proxied : (id runner : String) → List (String × String) → Request
  details : (id : String) → List (String × String) → Request
  finish : (id runner : String) → ℤ → (notes : String) → Request
  report : (id : String) → EndStatus → (start end_time : String) → ℤ → (notes : String) → Request
  cancel : (id reason : String) → Request
  cancel_tasks : (array_id reason : String) → Request
  hold release : (id : String) → Request
  hold_tasks release_tasks : (array_id : String) → Request
  adjust : (id : String) → ℤ → Request
  adjust_tasks : (array_id : String) → ℤ → Request
  cleanup : (id : String) → Request

abbrev pub second {ℓ} : {A : Type ℓ} → Db → Result (A × Db) → Db
second db (ok (a, db')) = db'
second db (err e) = db

-- `cast` is SQLite's CAST of a text to INTEGER.
module _ (cast : String → ℤ) where
  -- The database after a request that is served at the time `now`.
  unfoldable pub serve : String → Request → Db → Db
  serve now (submit job) db = or_before db (insert_job now job db)
  serve now (submit_array array_id tasks) db = or_before db (insert_array now array_id tasks db)
  serve now resolve db = (resolve_dependencies now db).1
  serve now (claim runner kind limits) db = second db (claim_next_job now runner kind limits db)
  serve now (claim_batch runner kind limits max_tasks min_tasks full_array) db =
      second db
        (claim_next_array_batch cast now runner kind limits max_tasks min_tasks full_array db)
  serve now (proxied id runner ds) db = or_before db (mark_job_proxied id runner ds db)
  serve now (details id ds) db = or_before db (update_running_details id ds db)
  serve now (finish id runner code notes) db = or_before db (end_job now id runner code notes db)
  serve now (report id s start end_time code notes) db =
      or_before db (end_proxied_job now id (end_status s) start end_time code notes db)
  serve now (cancel id reason) db = or_before db (cancel_job now id reason db)
  serve now (cancel_tasks array_id reason) db = second db (cancel_array now array_id reason db)
  serve now (hold id) db = (hold_job id db).1
  serve now (release id) db = (release_job id db).1
  serve now (hold_tasks array_id) db = (hold_array array_id db).1
  serve now (release_tasks array_id) db = (release_array array_id db).1
  serve now (adjust id delta) db = (adjust_job_priority id delta db).1
  serve now (adjust_tasks array_id delta) db = (adjust_array_priority array_id delta db).1
  serve now (cleanup id) db = or_before db (cleanup_job id db)

  -- Requests with their times, served one after the other.
  unfoldable pub run : List (String × Request) → Db → Db
  run [] db = db
  run ((now, r) ∷ rest) db = run rest (serve now r db)

or_before-Wf :
    (db : Db) (m : Result Db) → ((db' : Db) → m ≡ ok db' → Wf db') → Wf db → Wf (or_before db m)
or_before-Wf db (ok db') h w = h db' refl
or_before-Wf db (err e) h w = w

second-Wf {ℓ} :
    {A : Type ℓ} (db : Db) (m : Result (A × Db))
    → ((r : A × Db) → m ≡ ok r → Wf r.1)
    → Wf db
    → Wf (second db m)
second-Wf db (ok (a, db')) h w = h (a, db') refl
second-Wf db (err e) h w = w

pub ends : (s : EndStatus) → is_live (end_status s) ≡ false
unfolding is_live
ends EndStatus.succeeded = refl
ends EndStatus.failed = refl
ends EndStatus.canceled = refl

module _ (cast : String → ℤ) where
  pub serve-Wf : (now : String) (r : Request) (db : Db) → Wf db → Wf (serve cast now r db)
  unfolding serve update_running_details
  serve-Wf now (submit job) db w = or_before-Wf db _ (λ db' h. insert_job-Wf now job db db' h w) w
  serve-Wf now (submit_array a tasks) db w =
      or_before-Wf db _ (λ db' h. insert_array-Wf now a tasks db db' h w) w
  serve-Wf now resolve db w = resolve_dependencies-Wf now db w
  serve-Wf now (claim runner kind limits) db w =
      second-Wf db _ (λ r h. claim_next_job-Wf now runner kind limits db r h w) w
  serve-Wf now (claim_batch runner kind limits max_tasks min_tasks full_array) db w =
      second-Wf db _
        (λ r h.
          claim_next_array_batch-Wf cast now runner kind limits max_tasks min_tasks full_array db r
            h w)
        w
  serve-Wf now (proxied id runner ds) db w =
      or_before-Wf db _ (λ db' h. mark_job_proxied-Wf id runner ds db db' h w) w
  serve-Wf now (details id ds) db w =
      or_before-Wf db _ (λ db' h. put_running_details-Wf id ds db db' h w) w
  serve-Wf now (finish id runner code notes) db w =
      or_before-Wf db _ (λ db' h. end_job-Wf now id runner code notes db db' h w) w
  serve-Wf now (report id s start end_time code notes) db w =
      or_before-Wf db _
        (λ db' h.
          end_proxied_job-Wf now id (end_status s) start end_time code notes db db' (ends s) h w)
        w
  serve-Wf now (cancel id reason) db w =
      or_before-Wf db _ (λ db' h. cancel_job-Wf now id reason db db' h w) w
  serve-Wf now (cancel_tasks a reason) db w =
      second-Wf db _ (λ r h. cancel_array-Wf now a reason db r.1 h w) w
  serve-Wf now (hold id) db w = hold_job-Wf id db w
  serve-Wf now (release id) db w = release_job-Wf id db w
  serve-Wf now (hold_tasks a) db w = hold_array-Wf a db w
  serve-Wf now (release_tasks a) db w = release_array-Wf a db w
  serve-Wf now (adjust id delta) db w = adjust_job_priority-Wf id delta db w
  serve-Wf now (adjust_tasks a delta) db w = adjust_array_priority-Wf a delta db w
  serve-Wf now (cleanup id) db w =
      or_before-Wf db _ (λ db' h. (cleanup_job_exact id db db' h w).0) w

  -- From a well-formed store every sequence of requests, failing or not, leads to a well-formed one.
  pub run-Wf : (requests : List (String × Request)) (db : Db) → Wf db → Wf (run cast requests db)
  unfolding run
  run-Wf [] db w = w
  run-Wf ((now, r) ∷ rest) db w = run-Wf rest (serve cast now r db) (serve-Wf now r db w)
