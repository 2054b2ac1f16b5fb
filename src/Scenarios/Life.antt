-- ===== src/Scenarios/Life.antt =====
-- The lives of two jobs, where the second waits for the first, up to their removal.
use batchq.Shared.{
  ◌≡◌, refl, Bool, true, false, Option, none, some, List, [], ◌∷◌, String, ◌⊎◌, ℕ, contains, arith,
}
use batchq.Shared.Int.{pos}
use batchq.Shared.Text.{atoi_value}
use batchq.Shared.Result.{ok}
use batchq.Job.Status.{StatusCode, queued, waiting, running, canceled, success, failed, is, is_live}
use batchq.Store.Db.{Db, Dep, empty_db, find_row, status_of, status_test}
use batchq.Store.Transition.{is_proxied}
use batchq.Store.Invariant.Outcomes.{Settles, Topples}
use batchq.Store.Invariant.Reports.{end_proxied_job_exact}
use batchq.Store.Lifecycle.Requests.{run-end}
use batchq.Store.Wf.{Wf}
use batchq.Store.Run.{Request, EndStatus, serve, run, run-Wf}
use batchq.Service.Removal.{plan_removal}
use batchq.Store.Claim.{queue_order}
use batchq.Service.Removal.Behind.{Behind}
use batchq.Service.Removal.Order.{plan_removal_exact}
use batchq.Service.Removal.Bulk.{cleanup_bulk, cleanup_bulk_exact, BulkRemoves}
use batchq.Job.Def.{new_job_def}
use batchq.Scenarios.{
  first_job, second_job, claimed_first, claimed_first-Wf, failed_first, unlimited,
}

abbrev later : List (String × Request)
later =
    ("t3", Request.claim "r1" "simple" unlimited)
    ∷ ("t4", Request.finish "a" "r1" (pos 0) "")
    ∷ ("t5", Request.resolve)
    ∷ ("t6", Request.hold "b")
    ∷ ("t7", Request.release "b")
    ∷ []

failed_first-Wf : Wf failed_first
failed_first-Wf =
    run-Wf atoi_value (("t4", Request.finish "a" "r1" (pos 1) "exit 1") ∷ []) claimed_first
      claimed_first-Wf

run-end_example : status_of (run atoi_value later failed_first) "a" ≡ some failed
unfolding run serve status_of find_row first_job second_job batchq.Job.Def.new_job_def
    batchq.Job.Def.add_detail batchq.Job.Def.add_after_ok batchq.Store.Submit.insert_job
    batchq.Store.Submit.validate_deps batchq.Store.Submit.validate_dep
    batchq.Store.Submit.insert_job_tx batchq.Store.Submit.insert_row batchq.Store.Submit.insert_deps
    batchq.Store.Submit.insert_dep batchq.Store.Submit.insert_details
    batchq.Store.Submit.insert_detail batchq.Store.Submit.stored_value
    batchq.Store.Submit.insert_paths batchq.Store.Submit.dedup_non_empty batchq.Store.Submit.new_row
    batchq.Store.Submit.initial_status batchq.Store.Submit.initial_name batchq.Store.Db.depends_on
    batchq.Shared.contains batchq.Shared.any batchq.Shared.find batchq.Job.Status.is_bad
    batchq.Job.Status.is batchq.Job.Status.is_live batchq.Store.Claim.claim_next_job
    batchq.Store.Claim.claim_first batchq.Store.Claim.claim_job batchq.Store.Claim.queue_order
    batchq.Store.Claim.sort_rows batchq.Store.Claim.insert_row batchq.Store.Claim.set_running
    batchq.Store.Claim.Fits.job_fits batchq.Store.Claim.Fits.job_fits_limits
    batchq.Store.Claim.Fits.within batchq.Store.Claim.Fits.job_fits_resources
    batchq.Store.Claim.Fits.all_satisfied batchq.Store.Claim.Fits.required
    batchq.Store.Claim.Fits.job_array_throttle_ok batchq.Store.Db.job_detail
    batchq.Store.Db.owner_of batchq.Store.Db.update_job batchq.Store.Db.update
    batchq.Store.Db.affected batchq.Shared.tally batchq.Shared.select batchq.Shared.Text.atoi_value
    batchq.Store.Transition.end_job batchq.Store.Transition.assert_runner_owns_job
    batchq.Store.Transition.is_running batchq.Store.Transition.set_ended
    batchq.Store.Cancel.cascade_cancel batchq.Store.Cancel.cascade batchq.Store.Cancel.children
    batchq.Store.Cancel.cancel_all batchq.Store.Cancel.cancel_one batchq.Store.Cancel.cancel_row
    batchq.Store.Cancel.set_canceled
run-end_example = run-end atoi_value later failed_first "a" failed refl failed_first-Wf refl refl

abbrev proxied_first : Db
proxied_first =
    run atoi_value (("t4", Request.proxied "a" "r1" (("slurm_job_id", "17") ∷ [])) ∷ [])
      claimed_first

abbrev reported_first : Db
reported_first =
    run atoi_value (("t5", Request.report "a" EndStatus.failed "t4" "t5" (pos 1) "") ∷ [])
      proxied_first

end_proxied_job_exact_example :
    Wf reported_first
    × (((status_test is_proxied (status_of proxied_first "a") ≡ true)
          × (((is failed success ≡ true) × Settles failed "a" proxied_first reported_first)
              ⊎ ((is failed success ≡ false) × Topples failed "a" proxied_first reported_first)))
        ⊎ ((status_of proxied_first "a" ≡ some failed)
            × ((k : String) → status_of reported_first k ≡ status_of proxied_first k)))
unfolding run serve status_of find_row first_job second_job batchq.Job.Def.new_job_def
    batchq.Job.Def.add_detail batchq.Job.Def.add_after_ok batchq.Store.Submit.insert_job
    batchq.Store.Submit.validate_deps batchq.Store.Submit.validate_dep
    batchq.Store.Submit.insert_job_tx batchq.Store.Submit.insert_row batchq.Store.Submit.insert_deps
    batchq.Store.Submit.insert_dep batchq.Store.Submit.insert_details
    batchq.Store.Submit.insert_detail batchq.Store.Submit.stored_value
    batchq.Store.Submit.insert_paths batchq.Store.Submit.dedup_non_empty batchq.Store.Submit.new_row
    batchq.Store.Submit.initial_status batchq.Store.Submit.initial_name batchq.Store.Db.depends_on
    batchq.Shared.contains batchq.Shared.any batchq.Shared.find batchq.Job.Status.is_bad
    batchq.Job.Status.is batchq.Job.Status.is_live batchq.Store.Claim.claim_next_job
    batchq.Store.Claim.claim_first batchq.Store.Claim.claim_job batchq.Store.Claim.queue_order
    batchq.Store.Claim.sort_rows batchq.Store.Claim.insert_row batchq.Store.Claim.set_running
    batchq.Store.Claim.Fits.job_fits batchq.Store.Claim.Fits.job_fits_limits
    batchq.Store.Claim.Fits.within batchq.Store.Claim.Fits.job_fits_resources
    batchq.Store.Claim.Fits.all_satisfied batchq.Store.Claim.Fits.required
    batchq.Store.Claim.Fits.job_array_throttle_ok batchq.Store.Db.job_detail
    batchq.Store.Db.owner_of batchq.Store.Db.update_job batchq.Store.Db.update
    batchq.Store.Db.affected batchq.Shared.tally batchq.Shared.select batchq.Shared.Text.atoi_value
    batchq.Store.Transition.end_job batchq.Store.Transition.assert_runner_owns_job
    batchq.Store.Transition.is_running batchq.Store.Transition.set_ended
    batchq.Store.Cancel.cascade_cancel batchq.Store.Cancel.cascade batchq.Store.Cancel.children
    batchq.Store.Cancel.cancel_all batchq.Store.Cancel.cancel_one batchq.Store.Cancel.cancel_row
    batchq.Store.Cancel.set_canceled batchq.Store.Transition.mark_job_proxied
    batchq.Store.Transition.end_proxied_job batchq.Store.Transition.put_running_details
    batchq.Store.Transition.put_running_detail batchq.Store.Transition.set_proxied
    batchq.Store.Transition.with_running_detail is_proxied
end_proxied_job_exact_example =
    end_proxied_job_exact "t5" "a" failed "t4" "t5" (pos 1) "" proxied_first reported_first refl
      refl
      (run-Wf atoi_value (("t4", Request.proxied "a" "r1" (("slurm_job_id", "17") ∷ [])) ∷ [])
        claimed_first claimed_first-Wf)

plan_of_two :
    plan_removal 3 ("a" ∷ "b" ∷ []) (record { job_id = "b"; afterok_id = "a" } ∷ [])
    ≡ some ("b" ∷ "a" ∷ [], 0)
unfolding plan_removal batchq.Service.Removal.add_all batchq.Service.Removal.add
    batchq.Service.Removal.can_remove batchq.Service.Removal.all_removable
    batchq.Service.Removal.dependents batchq.Service.Removal.mark_of
    batchq.Service.Removal.count_blocked batchq.Shared.contains batchq.Shared.select
plan_of_two = refl

cleanup_bulk_exact_example :
    (gone : ℕ) × (stay : ℕ) × (db' : Db) × (cleanup_bulk (failed ∷ canceled ∷ []) none failed_first
      ≡ some (ok (gone, stay), db'))
    × Wf db'
    × BulkRemoves (failed ∷ canceled ∷ []) none failed_first db'
cleanup_bulk_exact_example =
    cleanup_bulk_exact (failed ∷ canceled ∷ []) none failed_first failed_first-Wf

plan_removal_exact_example :
    (order : List String) × (stay : ℕ) × (plan_removal 3
        ("a" ∷ "b" ∷ [])
        (record { job_id = "b"; afterok_id = "a" } ∷ [])
      ≡ some (order, stay))
    × Behind (record { job_id = "b"; afterok_id = "a" } ∷ []) [] order
    × ((k : String) → contains order k ≡ true → contains ("a" ∷ "b" ∷ []) k ≡ true)
plan_removal_exact_example =
    plan_removal_exact ("a" ∷ "b" ∷ []) (record { job_id = "b"; afterok_id = "a" } ∷ [])
