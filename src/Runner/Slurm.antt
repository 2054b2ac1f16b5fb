-- ===== src/Runner/Slurm.antt =====
-- What the SLURM runner decides by itself: `clampMinArray` and `applySlurmState` of runner/slurm.go.
pub mod Bounds
use batchq.Shared.{
  ℕ, Bool, true, false, ◌&&◌, ◌||◌, Option, none, some, List, [], ◌∷◌, String, str_eq,
  if◌then◌else◌,
}
use Prim.Native.String.{◌++◌ as str_append}
use batchq.Shared.Int.{ℤ, pos, negsuc, ltb_ℤ}
use batchq.Job.Status.{StatusCode, success, failed, canceled, is, status_name}
use batchq.Store.Run.{Request}
use batchq.Server.{handle_end_proxied}

-- The smaller of the caps that are set, -1 where none is.
unfoldable pub pass_ceiling : ℤ → ℤ → ℤ
pass_ceiling max_user_jobs max_jobs =
    let first = if ltb_ℤ (pos 0) max_user_jobs then max_user_jobs else negsuc 0 in
    if ltb_ℤ (pos 0) max_jobs && (ltb_ℤ first (pos 0) || ltb_ℤ max_jobs first)
    then max_jobs
    else first

-- The minimum, the ceiling, and whether the minimum was lowered.
unfoldable pub clamp_min_array : ℤ → ℤ → ℤ → ℤ × ℤ × Bool
unfolding pass_ceiling
clamp_min_array min_array max_user_jobs max_jobs =
    let ceiling = pass_ceiling max_user_jobs max_jobs in
    if ltb_ℤ (pos 0) min_array && ltb_ℤ (pos 0) ceiling && ltb_ℤ ceiling min_array
    then (ceiling, ceiling, true)
    else (min_array, ceiling, false)

-- The state that a job ends in by the word of SLURM; `none` where it goes on, or the word is not known.
unfoldable pub final_status : String → Option StatusCode
final_status state =
    if str_eq state "PENDING" || str_eq state "RUNNING"
    then none
    else if str_eq state "COMPLETED"
    then some success
    else if str_eq state "CANCELED" || str_eq state "CANCELLED"
    then some canceled
    else if str_eq state "FAILED" || str_eq state "TIMEOUT" || str_eq state "OUT_OF_MEMORY"
    then some failed
    else none

abbrev pub end_notes : StatusCode → String → String
end_notes final state = if is final success then "" else str_append "slurm reported state: " state

-- What the runner tells of the state of SLURM, whatever it is.
abbrev pub told : (id now state : String) → Request
told id now state = Request.details id (("slurm_status", state) ∷ ("slurm_last_update", now) ∷ [])

abbrev pub if_any : Option Request → List Request
if_any none = []
if_any (some r) = r ∷ []

-- `applySlurmState`, as the server hears it at the time `now`: the requests for the store, in order.
unfoldable pub apply_slurm_state : (id now state start end_time : String) → ℤ → List Request
apply_slurm_state id now state start end_time code = told id now state ∷ elim (final_status state) [
  | none ↦ []
  | some final ↦
      if_any (handle_end_proxied id (status_name final) start end_time code (end_notes final state))
]
