-- ===== src/Scenarios/Overlaps.antt =====
-- A submission whose parent is held, or canceled, between its check and its transaction.
use batchq.Shared.{◌≡◌, refl, Bool, true, false, some, List, [], ◌∷◌, String}
use batchq.Shared.Text.{atoi_value}
use batchq.Job.Status.{waiting, canceled}
use batchq.Store.Db.{Db, status_of, depends_on}
use batchq.Store.Run.{Request, serve, run}
use batchq.Store.Wf.{Wf}
use batchq.Store.Overlap.{
  single, Calls, Event, request, begin, look, finish, step, steps, timely_event, timely,
}
use batchq.Scenarios.{first_job, second_job, one_job}

abbrev idle : Calls
idle = record { db = one_job; calls = [] }

abbrev overtaken_by : Request → List Event
overtaken_by r = begin 1 (single second_job) ∷ look 1 ∷ request "t2" r ∷ finish "t3" 1 ∷ []

abbrev after_cancel : Db
after_cancel = (steps atoi_value (overtaken_by (Request.cancel "a" "no")) idle).db

-- The new job waits for a job that is canceled, and the events are not timely.
late_insert :
    (status_of after_cancel "a" ≡ some canceled)
    × (status_of after_cancel "b" ≡ some waiting)
    × (depends_on after_cancel.deps "b" "a" ≡ true)
    × (timely atoi_value (overtaken_by (Request.cancel "a" "no")) idle ≡ false)
unfolding timely timely_event run serve status_of first_job second_job batchq.Job.Def.new_job_def
    batchq.Job.Def.add_detail batchq.Job.Def.add_after_ok batchq.Store.Db.find_row
    batchq.Store.Submit.insert_job batchq.Store.Submit.validate_deps
    batchq.Store.Submit.validate_dep batchq.Store.Submit.insert_job_tx
    batchq.Store.Submit.insert_row batchq.Store.Submit.insert_deps batchq.Store.Submit.insert_dep
    batchq.Store.Submit.insert_details batchq.Store.Submit.insert_detail
    batchq.Store.Submit.stored_value batchq.Store.Submit.insert_paths
    batchq.Store.Submit.dedup_non_empty batchq.Store.Submit.new_row
    batchq.Store.Submit.initial_status batchq.Store.Submit.initial_name batchq.Store.Db.depends_on
    batchq.Shared.contains batchq.Shared.any batchq.Shared.find batchq.Job.Status.is_bad
    batchq.Job.Status.is batchq.Job.Status.is_live batchq.Store.Overlap.still
    batchq.Store.Overlap.is_complete batchq.Store.Overlap.parents batchq.Store.Overlap.commit
    batchq.Store.Overlap.call_of step steps batchq.Shared.select batchq.Store.Db.update_job
    batchq.Store.Db.update batchq.Store.Db.affected batchq.Shared.tally
    batchq.Store.Cancel.cancel_job batchq.Store.Cancel.cascade_cancel batchq.Store.Cancel.cascade
    batchq.Store.Cancel.children batchq.Store.Cancel.cancel_all batchq.Store.Cancel.cancel_one
    batchq.Store.Cancel.cancel_row batchq.Store.Cancel.set_canceled
late_insert = (refl, refl, refl, refl)
