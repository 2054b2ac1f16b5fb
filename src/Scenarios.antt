-- ===== src/Scenarios.antt =====
-- Small tables, made by requests: two jobs where the second waits for the first.
pub mod Jobs
pub mod Arrays
pub mod Life
pub mod Server
pub mod Runners
pub mod Submits
pub mod Specs
pub mod Archives
pub mod Overlaps
pub mod Access
pub mod Slurm
use batchq.Shared.{
  ◌≡◌, refl, Bool, true, false, Option, none, some, List, [], ◌∷◌, String, ◌⊎◌, ◌↔◌, contains, map,
  length, leb, str_eq, arith, if◌then◌else◌,
}
use batchq.Service.Deps.{DepSpec, afterok, find_array_members}
use batchq.Service.Deps.Expansion.{Paired, expand_single_deps-members, spec_edges-Paired}
use batchq.Shared.Int.{ℤ, pos, negsuc, is_zero}
use batchq.Shared.Text.{atoi_value}
use batchq.Shared.Result.{ok}
use batchq.Job.Status.{queued, waiting, running, canceled, success, failed, is}
use batchq.Job.Def.{JobDef, new_job_def, add_after_ok, add_detail}
use batchq.Store.Db.{Db, empty_db, status_of, find_row, live, status_test, depends_on, owner_of}
use batchq.Store.Cancel.{cancel_job}
use batchq.Store.Cancel.Cascade.{NoneDoomed, Waits}
use batchq.Store.Cancel.Job.{cancel_job_exact}
use batchq.Store.Resolve.{resolve_dependencies, verdict}
use batchq.Store.Resolve.Parents.{AllMet, verdict-can_queue}
use batchq.Store.Claim.{ClaimResult, claim_job, claim_next_job, queue_order}
use batchq.Store.Claim.Fits.{Limits}
use batchq.Store.Claim.First.{Nothing, FirstFit, claim_next_job_exact}
use batchq.Store.Claim.Order.{queue_order-queued}
use batchq.Store.Batch.{ArrayTask, claim_array_tasks, queued_tasks}
use batchq.Store.Invariant.Batches.{ClaimedTasks}
use batchq.Store.Invariant.Scans.{claim_array_tasks-full_array, claim_array_tasks-bound}
use batchq.Store.Invariant.Inserts.{Adds, insert_job_exact}
use batchq.Store.Invariant.Outcomes.{Settles, Topples, end_job_exact}
use batchq.Store.Cleanup.{cleanup_jobs}
use batchq.Store.Cleanup.Removal.{cleanup_job_exact, cleanup_jobs_exact}
use batchq.Store.Wf.{Wf}
use batchq.Store.Invariant.Start.{empty-Wf}
use batchq.Store.Invariant.Resolves.{waits, resolve_exact}
use batchq.Store.Invariant.Claims.{Claims, claim_job_exact}
use batchq.Store.Invariant.Submits.{ValidParents, validate_deps-ValidParents}
use batchq.Store.Run.{Request, serve, run, run-Wf}

abbrev pub first_job : JobDef
unfolding new_job_def
first_job = record (new_job_def "first" "#!/bin/sh") { job_id = "a" }

abbrev pub second_job : JobDef
unfolding new_job_def add_after_ok
second_job = record (add_after_ok (new_job_def "second" "#!/bin/sh") "a") { job_id = "b" }

abbrev pub unlimited : Limits
unlimited = record {
  max_procs = negsuc 0;
  max_memory_mb = negsuc 0;
  max_walltime_sec = negsuc 0;
  resources = [];
}

abbrev pub submitted : List (String × Request)
submitted = ("t1", Request.submit first_job) ∷ ("t2", Request.submit second_job) ∷ []

abbrev pub two_jobs : Db
two_jobs = run atoi_value submitted empty_db

pub two_jobs-Wf : Wf two_jobs
two_jobs-Wf = run-Wf atoi_value submitted empty_db empty-Wf

abbrev pub one_job : Db
one_job = run atoi_value (("t1", Request.submit first_job) ∷ []) empty_db

abbrev pub emptied : Db
emptied = run atoi_value (("t2", Request.cleanup "a") ∷ []) one_job

abbrev pub claimed_first : Db
claimed_first = run atoi_value (("t3", Request.claim "r1" "simple" unlimited) ∷ []) two_jobs

abbrev pub failed_first : Db
failed_first = run atoi_value (("t4", Request.finish "a" "r1" (pos 1) "exit 1") ∷ []) claimed_first

pub claimed_first-Wf : Wf claimed_first
claimed_first-Wf =
    run-Wf atoi_value (("t3", Request.claim "r1" "simple" unlimited) ∷ []) two_jobs two_jobs-Wf
