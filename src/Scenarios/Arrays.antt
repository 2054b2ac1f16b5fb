-- ===== src/Scenarios/Arrays.antt =====
-- What the store and the service do with an array of three tasks.
use batchq.Shared.{
  ◌≡◌, refl, Bool, true, false, Option, none, some, List, [], ◌∷◌, String, ◌⊎◌, ◌↔◌, contains, map,
  length, leb, str_eq, arith, if◌then◌else◌,
}
use batchq.Service.Deps.{DepSpec, afterok, find_array_members}
use batchq.Service.Deps.Expansion.{Paired, expand_single_deps-members, spec_edges-Paired}
use batchq.Shared.Int.{ℤ, pos}
use batchq.Shared.Text.{atoi_value}
use batchq.Job.Status.{queued, waiting, running, canceled, success, failed, is}
use batchq.Job.Def.{JobDef, new_job_def, add_after_ok, add_detail}
use batchq.Store.Db.{Db, empty_db, status_of, find_row, live, status_test, depends_on, owner_of}
use batchq.Store.Batch.{ArrayTask, claim_array_tasks, queued_tasks}
use batchq.Store.Invariant.Batches.{ClaimedTasks}
use batchq.Store.Invariant.Scans.{claim_array_tasks-full_array, claim_array_tasks-bound}
use batchq.Store.Wf.{Wf}
use batchq.Store.Invariant.Start.{empty-Wf}
use batchq.Store.Run.{Request, serve, run, run-Wf}
use batchq.Scenarios.{first_job, second_job}

abbrev task : String → String → JobDef
unfolding new_job_def add_detail
task id index =
    record (add_detail (add_detail (new_job_def "task" "#!/bin/sh") "array_id" "arr") "array_index"
      index) { job_id = id }

abbrev array_request : List (String × Request)
array_request =
    ("t1", Request.submit_array "arr" (task "x10" "10" ∷ task "x9" "9" ∷ task "x2" "2" ∷ [])) ∷ []

abbrev an_array : Db
an_array = run atoi_value array_request empty_db

an_array-Wf : Wf an_array
an_array-Wf = run-Wf atoi_value array_request empty_db empty-Wf

claim_array_tasks-full_array_example :
    let r = claim_array_tasks atoi_value "t2" "arr" "r1" "slurm" (pos 2) (pos 0) true an_array in
    ((r.0.deferred ≡ true) × (r.0.tasks ≡ []) × (r.1 ≡ an_array))
    ⊎ ((r.0.deferred ≡ false) × ClaimedTasks r.1 (queued_tasks atoi_value an_array "arr"))
claim_array_tasks-full_array_example =
    claim_array_tasks-full_array atoi_value "t2" "r1" "slurm" "arr" (pos 2) (pos 0) an_array
      an_array-Wf

claim_array_tasks-bound_example :
    leb
      (length
        (claim_array_tasks atoi_value "t2" "arr" "r1" "slurm"
          (pos 2)
          (pos 0)
          false
          an_array).0.tasks)
      2
    ≡ true
claim_array_tasks-bound_example =
    claim_array_tasks-bound atoi_value "t2" "r1" "slurm" "arr" 2 (pos 0) false an_array refl

-- The tasks come in the order of their numbers, not of their texts.
an_array_order :
    map (λ (t : ArrayTask). t.job_id) (queued_tasks atoi_value an_array "arr")
    ≡ "x2" ∷ "x9" ∷ "x10" ∷ []
unfolding run serve status_of find_row first_job second_job batchq.Job.Def.new_job_def
    batchq.Job.Def.add_detail batchq.Job.Def.add_after_ok batchq.Store.Submit.insert_job
    batchq.Store.Submit.validate_deps batchq.Store.Submit.validate_dep
    batchq.Store.Submit.insert_job_tx batchq.Store.Submit.insert_row batchq.Store.Submit.insert_deps
    batchq.Store.Submit.insert_dep batchq.Store.Submit.insert_details
    batchq.Store.Submit.insert_detail batchq.Store.Submit.stored_value
    batchq.Store.Submit.insert_paths batchq.Store.Submit.dedup_non_empty batchq.Store.Submit.new_row
    batchq.Store.Submit.initial_status batchq.Store.Submit.initial_name batchq.Store.Db.depends_on
    batchq.Shared.contains batchq.Shared.any batchq.Shared.find batchq.Job.Status.is_bad
    batchq.Job.Status.is batchq.Job.Status.is_live batchq.Store.Submit.insert_array
    batchq.Store.Submit.validate_tasks batchq.Store.Submit.insert_tasks
    batchq.Store.Batch.queued_tasks batchq.Store.Batch.sort_tasks batchq.Store.Batch.insert_task
    batchq.Shared.select batchq.Store.Db.has_detail batchq.Shared.Text.atoi_value
an_array_order = refl

abbrev on_array : DepSpec
on_array = record { kind = afterok; target = "arr" }

expand_single_deps-members_example : contains ("x2" ∷ "x9" ∷ "x10" ∷ []) "x9" ≡ true
unfolding run serve status_of find_row first_job second_job batchq.Job.Def.new_job_def
    batchq.Job.Def.add_detail batchq.Job.Def.add_after_ok batchq.Store.Submit.insert_job
    batchq.Store.Submit.validate_deps batchq.Store.Submit.validate_dep
    batchq.Store.Submit.insert_job_tx batchq.Store.Submit.insert_row batchq.Store.Submit.insert_deps
    batchq.Store.Submit.insert_dep batchq.Store.Submit.insert_details
    batchq.Store.Submit.insert_detail batchq.Store.Submit.stored_value
    batchq.Store.Submit.insert_paths batchq.Store.Submit.dedup_non_empty batchq.Store.Submit.new_row
    batchq.Store.Submit.initial_status batchq.Store.Submit.initial_name batchq.Store.Db.depends_on
    batchq.Shared.contains batchq.Shared.any batchq.Shared.find batchq.Job.Status.is_bad
    batchq.Job.Status.is batchq.Job.Status.is_live batchq.Store.Submit.insert_array
    batchq.Store.Submit.validate_tasks batchq.Store.Submit.insert_tasks
    batchq.Store.Batch.queued_tasks batchq.Store.Batch.sort_tasks batchq.Store.Batch.insert_task
    batchq.Shared.select batchq.Store.Db.has_detail batchq.Shared.Text.atoi_value
    batchq.Service.Deps.find_array_members batchq.Service.Deps.split_task_addr
    batchq.Service.Deps.target_ids batchq.Service.Deps.expand_single_deps
    batchq.Shared.Text.cut_last batchq.Store.Db.job_detail batchq.Service.Deps.spec_edges
    batchq.Service.Deps.pair_tasks batchq.Service.Deps.by_index
expand_single_deps-members_example =
    expand_single_deps-members an_array [] on_array [] ("x2" ∷ "x9" ∷ "x10" ∷ []) "x9" refl refl
      refl

abbrev array_edges : List (ℤ × List String)
array_edges = (pos 9, "x9" ∷ []) ∷ (pos 2, "x2" ∷ []) ∷ (pos 10, "x10" ∷ []) ∷ []

spec_edges-Paired_example :
    (length (find_array_members an_array "arr") ≡ length (pos 9 ∷ pos 2 ∷ pos 10 ∷ []))
    × Paired (find_array_members an_array "arr") (pos 9 ∷ pos 2 ∷ pos 10 ∷ []) array_edges
unfolding run serve status_of find_row first_job second_job batchq.Job.Def.new_job_def
    batchq.Job.Def.add_detail batchq.Job.Def.add_after_ok batchq.Store.Submit.insert_job
    batchq.Store.Submit.validate_deps batchq.Store.Submit.validate_dep
    batchq.Store.Submit.insert_job_tx batchq.Store.Submit.insert_row batchq.Store.Submit.insert_deps
    batchq.Store.Submit.insert_dep batchq.Store.Submit.insert_details
    batchq.Store.Submit.insert_detail batchq.Store.Submit.stored_value
    batchq.Store.Submit.insert_paths batchq.Store.Submit.dedup_non_empty batchq.Store.Submit.new_row
    batchq.Store.Submit.initial_status batchq.Store.Submit.initial_name batchq.Store.Db.depends_on
    batchq.Shared.contains batchq.Shared.any batchq.Shared.find batchq.Job.Status.is_bad
    batchq.Job.Status.is batchq.Job.Status.is_live batchq.Store.Submit.insert_array
    batchq.Store.Submit.validate_tasks batchq.Store.Submit.insert_tasks
    batchq.Store.Batch.queued_tasks batchq.Store.Batch.sort_tasks batchq.Store.Batch.insert_task
    batchq.Shared.select batchq.Store.Db.has_detail batchq.Shared.Text.atoi_value
    batchq.Service.Deps.find_array_members batchq.Service.Deps.split_task_addr
    batchq.Service.Deps.target_ids batchq.Service.Deps.expand_single_deps
    batchq.Shared.Text.cut_last batchq.Store.Db.job_detail batchq.Service.Deps.spec_edges
    batchq.Service.Deps.pair_tasks batchq.Service.Deps.by_index
spec_edges-Paired_example =
    spec_edges-Paired an_array (pos 9 ∷ pos 2 ∷ pos 10 ∷ []) "arr" array_edges refl
