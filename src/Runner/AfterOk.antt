-- ===== src/Runner/AfterOk.antt =====
-- The dependencies of a job that is handed to SLURM: `slurmAfterOkDirective` of runner/slurm.go.
pub mod Lists
pub mod Covers
use batchq.Shared.{
  ℕ, suc, ◌+◌, Bool, true, false, not, ◌&&◌, ◌||◌, Option, none, some, List, [], ◌∷◌, ◌++◌, map,
  length, String, str_eq, select, contains, ◌==◌, if◌then◌else◌,
}
use Prim.Native.String.{◌++◌ as str_append}
use batchq.Shared.Int.{ℤ, pos, pos_part, neg_part, ltb_ℤ}
use batchq.Shared.Text.{atoi_value}
use batchq.Job.Status.{
  StatusCode, unknown, userhold, waiting, queued, proxyqueued, running, canceled, success, failed,
}

-- What the code reads of a job that is depended on; a detail that is missing is empty.
pub record DepJob : Type 0 where
  pub status : StatusCode
  pub slurm_job_id : String
  pub slurm_array_id : String
  pub slurm_task_index : String
  pub array_id : String
  pub array_size : String
  pub array_index : String

-- A dependency on a task of an array.
pub record TaskDep : Type 0 where
  pub parent : String
  pub size : ℤ
  pub index : ℤ
  pub slurm_array : String
  pub slurm_index : String

-- What one job contributes.
pub data Part : Type 0 where
  refused satisfied : Part
  plain : String → Part
  task : TaskDep → Part

abbrev task_of : DepJob → TaskDep
task_of dep = record {
  parent = dep.array_id;
  size = atoi_value dep.array_size;
  index = atoi_value dep.array_index;
  slurm_array = dep.slurm_array_id;
  slurm_index = dep.slurm_task_index;
}

unfoldable pub with_slurm : DepJob → Part
with_slurm dep =
    if not (str_eq dep.slurm_job_id "")
    then plain dep.slurm_job_id
    else if str_eq dep.slurm_array_id "" || str_eq dep.slurm_task_index ""
    then refused
    else task (task_of dep)

-- The switch has no case for QUEUED, so such a job contributes nothing.
abbrev pub part_by : StatusCode → Part → Part
part_by canceled held = refused
part_by failed held = refused
part_by unknown held = refused
part_by userhold held = refused
part_by waiting held = refused
part_by success held = satisfied
part_by queued held = satisfied
part_by running held = held
part_by proxyqueued held = held

unfoldable pub part_of : DepJob → Part
part_of dep = part_by dep.status (with_slurm dep)

abbrev pub Collected : Type 0
Collected = List String × List TaskDep

abbrev pub place : Part → Option Collected → Option Collected
place part none = none
place refused (some (ids, tasks)) = none
place satisfied (some (ids, tasks)) = some (ids, tasks)
place (plain id) (some (ids, tasks)) = some (id ∷ ids, tasks)
place (task t) (some (ids, tasks)) = some (ids, t ∷ tasks)

-- Phase 1, where `get_job` is the server's answer; `none` is an error.
unfoldable pub collect : (String → Option DepJob) → List String → Option Collected
collect get_job [] = some ([], [])
collect get_job (d ∷ ds) = elim (get_job d) [
  | none ↦ none
  | some dep ↦ place (part_of dep) (collect get_job ds)
]

-- The parent arrays in the order in which they are first seen.
unfoldable pub first_seen : List String → List TaskDep → List String
first_seen seen [] = []
first_seen seen (t ∷ ts) = elim (contains seen t.parent) [
  | true ↦ first_seen seen ts
  | false ↦ t.parent ∷ first_seen (t.parent ∷ seen) ts
]

unfoldable pub index_in : List TaskDep → ℤ → Bool
index_in [] n = false
index_in (t ∷ ts) n =
    pos_part t.index + neg_part n == pos_part n + neg_part t.index || index_in ts n

-- How many indices the tasks have.
unfoldable pub count_indices : List TaskDep → ℕ
count_indices [] = 0
count_indices (t ∷ ts) =
    let rest = count_indices ts in if index_in ts t.index then rest else suc rest

-- Whether the tasks are the whole array, by the size that the first of them carries.
unfoldable pub is_whole : List TaskDep → Bool
is_whole [] = false
is_whole (t ∷ ts) = ltb_ℤ (pos 0) t.size && pos_part t.size + 0 == count_indices (t ∷ ts)

-- In the order of the indices.
unfoldable pub insert_task : TaskDep → List TaskDep → List TaskDep
insert_task t [] = t ∷ []
insert_task t (x ∷ xs) =
    let rest = insert_task t xs in if ltb_ℤ x.index t.index then x ∷ rest else t ∷ x ∷ xs

unfoldable pub sort_tasks : List TaskDep → List TaskDep
sort_tasks [] = []
sort_tasks (t ∷ ts) = insert_task t (sort_tasks ts)

abbrev pub name_of : Bool → TaskDep → String
name_of true t = t.slurm_array
name_of false t = str_append t.slurm_array (str_append "_" t.slurm_index)

unfoldable pub group_names : List TaskDep → List String
unfolding sort_tasks
group_names group = map (name_of (is_whole group)) (sort_tasks group)

unfoldable pub add_id : List String → String → List String
add_id ids s = if str_eq s "" || contains ids s then ids else ids ++ s ∷ []

unfoldable pub add_ids : List String → List String → List String
add_ids ids [] = ids
add_ids ids (s ∷ more) = add_ids (add_id ids s) more

unfoldable pub group_of : List TaskDep → String → List TaskDep
group_of tasks parent = select (λ (t : TaskDep). str_eq t.parent parent) tasks

-- Phase 2 for the arrays.
unfoldable pub add_groups : List TaskDep → List String → List String → List String
add_groups tasks [] ids = ids
add_groups tasks (parent ∷ parents) ids =
    add_groups tasks parents (add_ids ids (group_names (group_of tasks parent)))

-- The ids of the directive.
unfoldable pub after_ok_ids : (String → Option DepJob) → List String → Option (List String)
after_ok_ids get_job deps = elim (collect get_job deps) [
  | none ↦ none
  | some (ids, tasks) ↦ some (add_groups tasks (first_seen [] tasks) (add_ids [] ids))
]

unfoldable join : List String → String
join [] = ""
join (s ∷ []) = s
join (s ∷ t ∷ more) = str_append s (str_append ":" (join (t ∷ more)))

abbrev directive : List String → String
directive [] = ""
directive (id ∷ ids) =
    str_append "#SBATCH --kill-on-invalid-dep=yes\n#SBATCH -d afterok:"
      (str_append (join (id ∷ ids)) "\n")

unfoldable pub slurm_after_ok_directive : (String → Option DepJob) → List String → Option String
unfolding join
slurm_after_ok_directive get_job deps = elim (after_ok_ids get_job deps) [
  | none ↦ none
  | some ids ↦ some (directive ids)
]
