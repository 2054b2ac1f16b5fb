-- ===== src/Scenarios/Jobs.antt =====
-- What the store does with two jobs, where the second waits for the first.
use batchq.Shared.{
  ◌≡◌, refl, Bool, true, false, Option, none, some, List, [], ◌∷◌, String, ◌⊎◌, ◌↔◌, contains, map,
  length, leb, str_eq, arith, if◌then◌else◌,
}
use batchq.Shared.Int.{pos, is_zero}
use batchq.Shared.Text.{atoi_value}
use batchq.Shared.Result.{ok}
use batchq.Job.Status.{queued, waiting, running, canceled, success, failed, is}
use batchq.Job.Def.{JobDef, new_job_def, add_after_ok, add_detail}
use batchq.Store.Db.{Db, empty_db, status_of, find_row, live, status_test, depends_on, owner_of}
use batchq.Store.Cancel.{cancel_job}
use batchq.Store.Cancel.Cascade.{NoneDoomed, Waits}
use batchq.Store.Cancel.Job.{cancel_job_exact}
use batchq.Store.Resolve.{resolve_dependencies, verdict}
use batchq.Store.Resolve.Parents.{AllMet, verdict-can_queue}
use batchq.Store.Claim.{ClaimResult, claim_job, claim_next_job, queue_order}
use batchq.Store.Claim.Fits.{Limits}
use batchq.Store.Claim.First.{Nothing, FirstFit, claim_next_job_exact}
use batchq.Store.Claim.Order.{queue_order-queued}
use batchq.Store.Invariant.Inserts.{Adds, insert_job_exact}
use batchq.Store.Invariant.Outcomes.{Settles, Topples, end_job_exact}
use batchq.Store.Cleanup.{cleanup_jobs}
use batchq.Store.Cleanup.Removal.{cleanup_job_exact, cleanup_jobs_exact}
use batchq.Store.Db.{JobRow}
use batchq.Store.Submit.{new_row}
use batchq.Store.Claim.{sort_rows}
use batchq.Store.Claim.Priority.{Descending, sort_rows-Descending}
use batchq.Store.Wf.{Wf}
use batchq.Store.Invariant.Start.{empty-Wf}
use batchq.Store.Invariant.Resolves.{waits, resolve_exact}
use batchq.Store.Invariant.Claims.{Claims, claim_job_exact}
use batchq.Store.Invariant.Submits.{ValidParents, validate_deps-ValidParents}
use batchq.Store.Run.{Request, serve, run, run-Wf}
use batchq.Scenarios.{
  claimed_first, claimed_first-Wf, emptied, failed_first, first_job, one_job, second_job, two_jobs,
  two_jobs-Wf, unlimited,
}

two_jobs_states : (status_of two_jobs "a" ≡ some queued) × (status_of two_jobs "b" ≡ some waiting)
unfolding run serve status_of find_row first_job second_job batchq.Job.Def.new_job_def
    batchq.Job.Def.add_detail batchq.Job.Def.add_after_ok batchq.Store.Submit.insert_job
    batchq.Store.Submit.validate_deps batchq.Store.Submit.validate_dep
    batchq.Store.Submit.insert_job_tx batchq.Store.Submit.insert_row batchq.Store.Submit.insert_deps
    batchq.Store.Submit.insert_dep batchq.Store.Submit.insert_details
    batchq.Store.Submit.insert_detail batchq.Store.Submit.stored_value
    batchq.Store.Submit.insert_paths batchq.Store.Submit.dedup_non_empty batchq.Store.Submit.new_row
    batchq.Store.Submit.initial_status batchq.Store.Submit.initial_name batchq.Store.Db.depends_on
    batchq.Shared.contains batchq.Shared.any batchq.Shared.find batchq.Job.Status.is_bad
    batchq.Job.Status.is batchq.Job.Status.is_live
two_jobs_states = (refl, refl)

two_jobs_queued : status_test (λ s. is s queued) (status_of two_jobs "a") ≡ true
unfolding run serve status_of find_row first_job second_job batchq.Job.Def.new_job_def
    batchq.Job.Def.add_detail batchq.Job.Def.add_after_ok batchq.Store.Submit.insert_job
    batchq.Store.Submit.validate_deps batchq.Store.Submit.validate_dep
    batchq.Store.Submit.insert_job_tx batchq.Store.Submit.insert_row batchq.Store.Submit.insert_deps
    batchq.Store.Submit.insert_dep batchq.Store.Submit.insert_details
    batchq.Store.Submit.insert_detail batchq.Store.Submit.stored_value
    batchq.Store.Submit.insert_paths batchq.Store.Submit.dedup_non_empty batchq.Store.Submit.new_row
    batchq.Store.Submit.initial_status batchq.Store.Submit.initial_name batchq.Store.Db.depends_on
    batchq.Shared.contains batchq.Shared.any batchq.Shared.find batchq.Job.Status.is_bad
    batchq.Job.Status.is batchq.Job.Status.is_live
two_jobs_queued = refl

two_jobs-live : live two_jobs "a" ≡ true
unfolding run serve status_of find_row first_job second_job batchq.Job.Def.new_job_def
    batchq.Job.Def.add_detail batchq.Job.Def.add_after_ok batchq.Store.Submit.insert_job
    batchq.Store.Submit.validate_deps batchq.Store.Submit.validate_dep
    batchq.Store.Submit.insert_job_tx batchq.Store.Submit.insert_row batchq.Store.Submit.insert_deps
    batchq.Store.Submit.insert_dep batchq.Store.Submit.insert_details
    batchq.Store.Submit.insert_detail batchq.Store.Submit.stored_value
    batchq.Store.Submit.insert_paths batchq.Store.Submit.dedup_non_empty batchq.Store.Submit.new_row
    batchq.Store.Submit.initial_status batchq.Store.Submit.initial_name batchq.Store.Db.depends_on
    batchq.Shared.contains batchq.Shared.any batchq.Shared.find batchq.Job.Status.is_bad
    batchq.Job.Status.is batchq.Job.Status.is_live
two_jobs-live = refl

cancel_job_exact_example :
    (db' : Db) × (cancel_job "t3" "a" "by user" two_jobs ≡ ok db')
    × NoneDoomed db'
    × ((k : String)
        → (Waits two_jobs "a" k → status_of db' k ≡ some canceled)
          × (¬ (Waits two_jobs "a" k) → status_of db' k ≡ status_of two_jobs k))
cancel_job_exact_example =
    cancel_job_exact "t3" "a" "by user" two_jobs two_jobs-live two_jobs-Wf.none_doomed

resolve_exact_example :
    (waits two_jobs "b" ≡ true
      → AllMet two_jobs "b"
      → status_of (resolve_dependencies "t3" two_jobs).1 "b" ≡ some queued)
    × (waits two_jobs "b" ≡ true
        → ¬ (AllMet two_jobs "b")
        → status_of (resolve_dependencies "t3" two_jobs).1 "b" ≡ status_of two_jobs "b")
    × (waits two_jobs "b" ≡ false
        → status_of (resolve_dependencies "t3" two_jobs).1 "b" ≡ status_of two_jobs "b")
resolve_exact_example = resolve_exact "t3" two_jobs two_jobs-Wf "b"

claim_next_job_exact_example :
    (r : ClaimResult × Db) × (claim_next_job "t3" "r1" "simple" unlimited two_jobs ≡ ok r)
    × (Nothing unlimited two_jobs false (queue_order two_jobs) r
        ⊎ FirstFit "t3" "r1" "simple" unlimited two_jobs false (queue_order two_jobs) r)
claim_next_job_exact_example =
    claim_next_job_exact "t3" "r1" "simple" unlimited two_jobs two_jobs-Wf refl

claim_job_exact_example :
    ((claim_job "t3" "a" "r1" "simple" two_jobs).0 ≡ true)
    × Claims "a" "r1" two_jobs (claim_job "t3" "a" "r1" "simple" two_jobs).1
    × Wf (claim_job "t3" "a" "r1" "simple" two_jobs).1
claim_job_exact_example =
    claim_job_exact "t3" "a" "r1" "simple" two_jobs two_jobs-Wf two_jobs_queued

validate_deps-ValidParents_example : ValidParents two_jobs ("a" ∷ "b" ∷ [])
unfolding run serve status_of find_row first_job second_job batchq.Job.Def.new_job_def
    batchq.Job.Def.add_detail batchq.Job.Def.add_after_ok batchq.Store.Submit.insert_job
    batchq.Store.Submit.validate_deps batchq.Store.Submit.validate_dep
    batchq.Store.Submit.insert_job_tx batchq.Store.Submit.insert_row batchq.Store.Submit.insert_deps
    batchq.Store.Submit.insert_dep batchq.Store.Submit.insert_details
    batchq.Store.Submit.insert_detail batchq.Store.Submit.stored_value
    batchq.Store.Submit.insert_paths batchq.Store.Submit.dedup_non_empty batchq.Store.Submit.new_row
    batchq.Store.Submit.initial_status batchq.Store.Submit.initial_name batchq.Store.Db.depends_on
    batchq.Shared.contains batchq.Shared.any batchq.Shared.find batchq.Job.Status.is_bad
    batchq.Job.Status.is batchq.Job.Status.is_live
validate_deps-ValidParents_example = validate_deps-ValidParents two_jobs ("a" ∷ "b" ∷ []) refl

verdict-can_queue_example : ((verdict two_jobs "b").can_queue ≡ true) ↔ AllMet two_jobs "b"
verdict-can_queue_example = verdict-can_queue two_jobs "b" two_jobs-Wf.refer

queue_order-queued_example :
    contains (queue_order two_jobs) "a" ≡ status_test (λ s. is s queued) (status_of two_jobs "a")
queue_order-queued_example = queue_order-queued two_jobs "a" two_jobs-Wf.keys

insert_job_exact_example :
    Wf two_jobs
    × ValidParents one_job ("a" ∷ [])
    × (status_of one_job "b" ≡ none)
    × Adds second_job one_job two_jobs
unfolding run serve status_of find_row first_job second_job batchq.Job.Def.new_job_def
    batchq.Job.Def.add_detail batchq.Job.Def.add_after_ok batchq.Store.Submit.insert_job
    batchq.Store.Submit.validate_deps batchq.Store.Submit.validate_dep
    batchq.Store.Submit.insert_job_tx batchq.Store.Submit.insert_row batchq.Store.Submit.insert_deps
    batchq.Store.Submit.insert_dep batchq.Store.Submit.insert_details
    batchq.Store.Submit.insert_detail batchq.Store.Submit.stored_value
    batchq.Store.Submit.insert_paths batchq.Store.Submit.dedup_non_empty batchq.Store.Submit.new_row
    batchq.Store.Submit.initial_status batchq.Store.Submit.initial_name batchq.Store.Db.depends_on
    batchq.Shared.contains batchq.Shared.any batchq.Shared.find batchq.Job.Status.is_bad
    batchq.Job.Status.is batchq.Job.Status.is_live
insert_job_exact_example =
    insert_job_exact "t2" second_job one_job two_jobs refl
      (run-Wf atoi_value (("t1", Request.submit first_job) ∷ []) empty_db empty-Wf)

cleanup_job_exact_example :
    Wf emptied
    × ((k : String) → status_of emptied k ≡ (if str_eq "a" k then none else status_of one_job k))
    × ((j : String) → depends_on one_job.deps j "a" ≡ true → j ≡ "a")
unfolding run serve status_of find_row first_job second_job batchq.Job.Def.new_job_def
    batchq.Job.Def.add_detail batchq.Job.Def.add_after_ok batchq.Store.Submit.insert_job
    batchq.Store.Submit.validate_deps batchq.Store.Submit.validate_dep
    batchq.Store.Submit.insert_job_tx batchq.Store.Submit.insert_row batchq.Store.Submit.insert_deps
    batchq.Store.Submit.insert_dep batchq.Store.Submit.insert_details
    batchq.Store.Submit.insert_detail batchq.Store.Submit.stored_value
    batchq.Store.Submit.insert_paths batchq.Store.Submit.dedup_non_empty batchq.Store.Submit.new_row
    batchq.Store.Submit.initial_status batchq.Store.Submit.initial_name batchq.Store.Db.depends_on
    batchq.Shared.contains batchq.Shared.any batchq.Shared.find batchq.Job.Status.is_bad
    batchq.Job.Status.is batchq.Job.Status.is_live batchq.Store.Cleanup.cleanup_job
    batchq.Store.Cleanup.delete_jobs batchq.Store.Cleanup.delete_children batchq.Shared.select
cleanup_job_exact_example =
    cleanup_job_exact "a" one_job emptied refl
      (run-Wf atoi_value (("t1", Request.submit first_job) ∷ []) empty_db empty-Wf)

two_jobs_closed :
    (j q : String)
    → depends_on two_jobs.deps j q ≡ true
    → contains ("a" ∷ "b" ∷ []) q ≡ true
    → contains ("a" ∷ "b" ∷ []) j ≡ true
unfolding run serve status_of find_row first_job second_job batchq.Job.Def.new_job_def
    batchq.Job.Def.add_detail batchq.Job.Def.add_after_ok batchq.Store.Submit.insert_job
    batchq.Store.Submit.validate_deps batchq.Store.Submit.validate_dep
    batchq.Store.Submit.insert_job_tx batchq.Store.Submit.insert_row batchq.Store.Submit.insert_deps
    batchq.Store.Submit.insert_dep batchq.Store.Submit.insert_details
    batchq.Store.Submit.insert_detail batchq.Store.Submit.stored_value
    batchq.Store.Submit.insert_paths batchq.Store.Submit.dedup_non_empty batchq.Store.Submit.new_row
    batchq.Store.Submit.initial_status batchq.Store.Submit.initial_name batchq.Store.Db.depends_on
    batchq.Shared.contains batchq.Shared.any batchq.Shared.find batchq.Job.Status.is_bad
    batchq.Job.Status.is batchq.Job.Status.is_live
two_jobs_closed j q dep h = ground arith

cleanup_jobs_exact_example :
    (db' : Db) × (cleanup_jobs ("a" ∷ "b" ∷ []) two_jobs ≡ (ok tt, db'))
    × Wf db'
    × ((k : String)
        → status_of db' k ≡ (if contains ("a" ∷ "b" ∷ []) k then none else status_of two_jobs k))
cleanup_jobs_exact_example =
    cleanup_jobs_exact ("a" ∷ "b" ∷ []) two_jobs two_jobs-Wf two_jobs_closed

end_job_exact_example :
    (owner_of claimed_first "a" ≡ some "r1")
    × (status_of claimed_first "a" ≡ some running)
    × Wf failed_first
    × (((is_zero (pos 1) ≡ true) × Settles success "a" claimed_first failed_first)
        ⊎ ((is_zero (pos 1) ≡ false) × Topples failed "a" claimed_first failed_first))
unfolding run serve status_of find_row first_job second_job batchq.Job.Def.new_job_def
    batchq.Job.Def.add_detail batchq.Job.Def.add_after_ok batchq.Store.Submit.insert_job
    batchq.Store.Submit.validate_deps batchq.Store.Submit.validate_dep
    batchq.Store.Submit.insert_job_tx batchq.Store.Submit.insert_row batchq.Store.Submit.insert_deps
    batchq.Store.Submit.insert_dep batchq.Store.Submit.insert_details
    batchq.Store.Submit.insert_detail batchq.Store.Submit.stored_value
    batchq.Store.Submit.insert_paths batchq.Store.Submit.dedup_non_empty batchq.Store.Submit.new_row
    batchq.Store.Submit.initial_status batchq.Store.Submit.initial_name batchq.Store.Db.depends_on
    batchq.Shared.contains batchq.Shared.any batchq.Shared.find batchq.Job.Status.is_bad
    batchq.Job.Status.is batchq.Job.Status.is_live batchq.Store.Claim.claim_next_job
    batchq.Store.Claim.claim_first batchq.Store.Claim.claim_job batchq.Store.Claim.queue_order
    batchq.Store.Claim.sort_rows batchq.Store.Claim.insert_row batchq.Store.Claim.set_running
    batchq.Store.Claim.Fits.job_fits batchq.Store.Claim.Fits.job_fits_limits
    batchq.Store.Claim.Fits.within batchq.Store.Claim.Fits.job_fits_resources
    batchq.Store.Claim.Fits.all_satisfied batchq.Store.Claim.Fits.required
    batchq.Store.Claim.Fits.job_array_throttle_ok batchq.Store.Db.job_detail
    batchq.Store.Db.owner_of batchq.Store.Db.update_job batchq.Store.Db.update
    batchq.Store.Db.affected batchq.Shared.tally batchq.Shared.select batchq.Shared.Text.atoi_value
    batchq.Store.Transition.end_job batchq.Store.Transition.assert_runner_owns_job
    batchq.Store.Transition.is_running batchq.Store.Transition.set_ended
    batchq.Store.Cancel.cascade_cancel batchq.Store.Cancel.cascade batchq.Store.Cancel.children
    batchq.Store.Cancel.cancel_all batchq.Store.Cancel.cancel_one batchq.Store.Cancel.cancel_row
    batchq.Store.Cancel.set_canceled
end_job_exact_example =
    end_job_exact "t4" "a" "r1" (pos 1) "exit 1" claimed_first failed_first refl claimed_first-Wf

abbrev urgent : JobRow
urgent = record (new_row "t2" first_job) { priority = pos 7 }

sort_rows-Descending_example : Descending (sort_rows (new_row "t1" first_job ∷ urgent ∷ []))
sort_rows-Descending_example = sort_rows-Descending (new_row "t1" first_job ∷ urgent ∷ [])
