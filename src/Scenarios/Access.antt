-- ===== src/Scenarios/Access.antt =====
-- Users who may and may not act on two jobs.
use batchq.Shared.{
  ◌≡◌, refl, ℕ, ◌⊎◌, Bool, true, false, Option, none, some, List, [], ◌∷◌, String, str_eq,
  if◌then◌else◌,
}
use batchq.Shared.Int.{pos}
use batchq.Shared.Text.{atoi_value}
use batchq.Shared.Result.{Error, err}
use batchq.Job.Status.{StatusCode, is_live}
use batchq.Job.Def.{JobDef, new_job_def, add_detail}
use batchq.Store.Db.{Db, empty_db, find_row, status_of, depends_on}
use batchq.Store.Wf.{Wf}
use batchq.Store.Invariant.Start.{empty-Wf}
use batchq.Store.Run.{Request, serve, run, run-Wf}
use batchq.Service.Access.{
  UserAction, cancel, release, job_action, user_job_action, user_array_action,
  user_adjust_job_priority, user_cleanup_job,
}
use batchq.Service.Access.Laws.{Owns, user_job_action-owner, user_cleanup_job_exact}
use batchq.Scenarios.{first_job, second_job, two_jobs, unlimited}

abbrev user : ℕ
user = 7

user_job_action-owner_example :
    (((user ≡ 0) ⊎ Owns user "a" two_jobs)
      → user_job_action (some user) "t3" "a" (cancel "") two_jobs
        ≡ job_action "t3" "a" (cancel "") two_jobs)
    × (¬ ((user ≡ 0) ⊎ Owns user "a" two_jobs)
        → (e : Error) × (user_job_action (some user) "t3" "a" (cancel "") two_jobs
            ≡ (err e, two_jobs)))
user_job_action-owner_example = user_job_action-owner user "t3" "a" (cancel "") two_jobs

abbrev lone : Db
lone =
    run atoi_value
      (("t1", Request.submit first_job)
        ∷ ("t2", Request.claim "r1" "simple" unlimited)
        ∷ ("t3", Request.finish "a" "r1" (pos 0) "")
        ∷ [])
      empty_db

abbrev cleared : Db
cleared = run atoi_value (("t4", Request.cleanup "a") ∷ []) lone

user_cleanup_job_exact_example :
    ((s : StatusCode) × (status_of lone "a" ≡ some s) × (is_live s ≡ false))
    × ((j : String) → depends_on lone.deps j "a" ≡ true → j ≡ "a")
    × Wf cleared
    × ((k : String) → status_of cleared k ≡ (if str_eq "a" k then none else status_of lone k))
unfolding run serve status_of find_row first_job second_job batchq.Job.Def.new_job_def
    batchq.Job.Def.add_detail batchq.Job.Def.add_after_ok batchq.Store.Submit.insert_job
    batchq.Store.Submit.validate_deps batchq.Store.Submit.validate_dep
    batchq.Store.Submit.insert_job_tx batchq.Store.Submit.insert_row batchq.Store.Submit.insert_deps
    batchq.Store.Submit.insert_dep batchq.Store.Submit.insert_details
    batchq.Store.Submit.insert_detail batchq.Store.Submit.stored_value
    batchq.Store.Submit.insert_paths batchq.Store.Submit.dedup_non_empty batchq.Store.Submit.new_row
    batchq.Store.Submit.initial_status batchq.Store.Submit.initial_name batchq.Store.Db.depends_on
    batchq.Shared.contains batchq.Shared.any batchq.Shared.find batchq.Job.Status.is_bad
    batchq.Job.Status.is batchq.Job.Status.is_live batchq.Store.Claim.claim_next_job
    batchq.Store.Claim.claim_first batchq.Store.Claim.claim_job batchq.Store.Claim.queue_order
    batchq.Store.Claim.sort_rows batchq.Store.Claim.insert_row batchq.Store.Claim.set_running
    batchq.Store.Claim.Fits.job_fits batchq.Store.Claim.Fits.job_fits_limits
    batchq.Store.Claim.Fits.within batchq.Store.Claim.Fits.job_fits_resources
    batchq.Store.Claim.Fits.all_satisfied batchq.Store.Claim.Fits.required
    batchq.Store.Claim.Fits.job_array_throttle_ok batchq.Store.Db.job_detail
    batchq.Store.Db.owner_of batchq.Store.Db.update_job batchq.Store.Db.update
    batchq.Store.Db.affected batchq.Shared.tally batchq.Shared.select batchq.Shared.Text.atoi_value
    batchq.Store.Transition.end_job batchq.Store.Transition.assert_runner_owns_job
    batchq.Store.Transition.is_running batchq.Store.Transition.set_ended
    batchq.Store.Cancel.cascade_cancel batchq.Store.Cancel.cascade batchq.Store.Cancel.children
    batchq.Store.Cancel.cancel_all batchq.Store.Cancel.cancel_one batchq.Store.Cancel.cancel_row
    batchq.Store.Cancel.set_canceled batchq.Store.Cleanup.cleanup_job
    batchq.Store.Cleanup.delete_jobs batchq.Store.Cleanup.delete_children user_cleanup_job
    batchq.Service.Access.is_terminal
user_cleanup_job_exact_example = user_cleanup_job_exact "a" lone cleared refl (
    run-Wf atoi_value
      (("t1", Request.submit first_job)
        ∷ ("t2", Request.claim "r1" "simple" unlimited)
        ∷ ("t3", Request.finish "a" "r1" (pos 0) "")
        ∷ [])
      empty_db empty-Wf)
