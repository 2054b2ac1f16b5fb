-- ===== src/Scenarios/Slurm.antt =====
-- Jobs that are handed to SLURM and reported back.
use batchq.Shared.{
  ◌≡◌, refl, ◌⊎◌, inl, inr, Bool, true, false, Option, none, some, List, [], ◌∷◌, String, str_eq,
  contains, if◌then◌else◌,
}
use batchq.Shared.Int.{pos, negsuc, ltb_ℤ}
use batchq.Job.Status.{success, proxyqueued}
use batchq.Runner.AfterOk.{DepJob, part_of, after_ok_ids, slurm_after_ok_directive}
use batchq.Runner.Slurm.{clamp_min_array}
use batchq.Runner.Slurm.Bounds.{Within, clamp_min_array-Least}

abbrev alone : String → DepJob
alone slurm_id = record {
  status = proxyqueued;
  slurm_job_id = slurm_id;
  slurm_array_id = "";
  slurm_task_index = "";
  array_id = "";
  array_size = "";
  array_index = "";
}

abbrev first_task : DepJob
first_task = record {
  status = proxyqueued;
  slurm_job_id = "";
  slurm_array_id = "40";
  slurm_task_index = "0";
  array_id = "x";
  array_size = "2";
  array_index = "0";
}

abbrev second_task : DepJob
second_task = record first_task { slurm_task_index = "1"; array_index = "1" }

abbrev get_job : String → Option DepJob
get_job id =
    if str_eq id "a"
    then some (alone "17")
    else if str_eq id "x1"
    then some first_task
    else if str_eq id "x2"
    then some second_task
    else if str_eq id "done"
    then some (record (alone "3") { status = success })
    else none

directive_runs :
    (slurm_after_ok_directive get_job ("x2" ∷ "a" ∷ "x1" ∷ [])
      ≡ some "#SBATCH --kill-on-invalid-dep=yes\n#SBATCH -d afterok:17:40\n")
    × (after_ok_ids get_job ("x2" ∷ "done" ∷ []) ≡ some ("40_1" ∷ []))
    × (after_ok_ids get_job ("lost" ∷ []) ≡ none)
unfolding after_ok_ids slurm_after_ok_directive part_of batchq.Runner.AfterOk.collect
    batchq.Runner.AfterOk.with_slurm batchq.Runner.AfterOk.first_seen batchq.Runner.AfterOk.index_in
    batchq.Runner.AfterOk.count_indices batchq.Runner.AfterOk.is_whole
    batchq.Runner.AfterOk.insert_task batchq.Runner.AfterOk.sort_tasks
    batchq.Runner.AfterOk.group_names batchq.Runner.AfterOk.add_id batchq.Runner.AfterOk.add_ids
    batchq.Runner.AfterOk.group_of batchq.Runner.AfterOk.add_groups batchq.Shared.contains
    batchq.Shared.select batchq.Shared.Text.atoi_value
directive_runs = (refl, refl, refl)

clamp_min_array-Least_example :
    (ltb_ℤ (pos 0) (clamp_min_array (pos 9) (pos 5) (negsuc 0)).0 ≡ true)
    × Within (clamp_min_array (pos 9) (pos 5) (negsuc 0)).0 (pos 5)
    × Within (clamp_min_array (pos 9) (pos 5) (negsuc 0)).0 (negsuc 0)
    × (ltb_ℤ (pos 9) (clamp_min_array (pos 9) (pos 5) (negsuc 0)).0 ≡ false)
    × (((clamp_min_array (pos 9) (pos 5) (negsuc 0)).0 ≡ pos 9)
        ⊎ (((clamp_min_array (pos 9) (pos 5) (negsuc 0)).0 ≡ pos 5)
            ⊎ ((clamp_min_array (pos 9) (pos 5) (negsuc 0)).0 ≡ negsuc 0)))
    × ((clamp_min_array (pos 9) (pos 5) (negsuc 0)).2
        ≡ ltb_ℤ (clamp_min_array (pos 9) (pos 5) (negsuc 0)).0 (pos 9))
clamp_min_array-Least_example = clamp_min_array-Least (pos 9) (pos 5) (negsuc 0) refl
