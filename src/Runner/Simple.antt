-- ===== src/Runner/Simple.antt =====
-- The runner on one host, runner/simple.go: what it reserves for the jobs that it runs, and when it
-- asks the server for another.
pub mod Ledger
pub mod Loop
pub mod Offers
pub mod Capacity
pub mod Turns
use batchq.Shared.{
  ℕ, suc, ◌+◌, ◌-◌, Bool, true, false, not, ◌&&◌, ◌||◌, Option, none, some, List, [], ◌∷◌, ◌++◌,
  String, str_eq, select, length, ltb, ◌==◌, if◌then◌else◌,
}
use batchq.Shared.Int.{ℤ, pos, negsuc, pos_part, neg_part, sub_ℕ, ltb_ℤ, ◌+ℤ◌, is_zero}
use batchq.Shared.Text.{atoi}

-- A job that runs: its id, and its details `procs` and `mem` as numbers, -1 where they are empty.
pub record JobStatus : Type 0 where
  pub job_id : String
  pub procs : ℤ
  pub mem : ℤ

-- `simpleRunner`, without its paths, its name and what it advertises.
pub record SimpleRunner : Type 0 where
  pub max_procs : ℤ
  pub max_memory_mb : ℤ
  pub forever_mode : Bool
  pub cur_jobs : List JobStatus
  pub avail_jobs : ℤ
  pub avail_procs : ℤ
  pub avail_mem : ℤ
  pub keep_running : Bool

-- The state at the head of the loop of `Start`.
unfoldable pub begun : (max_procs max_memory_mb max_jobs : ℤ) → (forever_mode : Bool) → SimpleRunner
begun max_procs max_memory_mb max_jobs forever_mode = record {
  max_procs = max_procs;
  max_memory_mb = max_memory_mb;
  forever_mode = forever_mode;
  cur_jobs = [];
  avail_jobs = max_jobs;
  avail_procs = max_procs;
  avail_mem = max_memory_mb;
  keep_running = true;
}

abbrev pub is_positive : ℤ → Bool
is_positive n = ltb_ℤ (pos 0) n

abbrev pub is_minus_one : ℤ → Bool
is_minus_one (pos n) = false
is_minus_one (negsuc n) = n == 0

-- With no limit on processors or memory, one job at a time.
unfoldable pub one_at_a_time : SimpleRunner → Bool
one_at_a_time r = not (is_positive r.max_procs || is_positive r.max_memory_mb)

unfoldable pub find_job : SimpleRunner → Bool
find_job r =
    if one_at_a_time r
    then length r.cur_jobs == 0
    else (is_positive r.avail_mem && is_positive r.avail_procs)
      || (is_positive r.avail_mem && is_minus_one r.avail_procs)
      || (is_positive r.avail_procs && is_minus_one r.avail_mem)

-- `if r.avail… != -1 && n > 0`: what is left after a job starts, and after it ends.
unfoldable pub reserve : (avail n : ℤ) → ℤ
reserve avail n =
    if not (is_minus_one avail) && is_positive n
    then sub_ℕ (pos_part avail + neg_part n) (neg_part avail + pos_part n)
    else avail

unfoldable pub give_back : (avail n : ℤ) → ℤ
give_back avail n = if not (is_minus_one avail) && is_positive n then avail +ℤ n else avail

-- The number of a detail: -1 where it is empty, `none` where it is no number.
unfoldable pub count_detail : String → Option ℤ
count_detail val = if str_eq val "" then some (negsuc 0) else atoi val

abbrev pub with_job : JobStatus → SimpleRunner → SimpleRunner
with_job x r = record r {
  cur_jobs = r.cur_jobs ++ x ∷ [];
  avail_procs = reserve r.avail_procs x.procs;
  avail_mem = reserve r.avail_mem x.mem;
}

-- `startJob`; `launched` tells whether script, files and process came up.
unfoldable pub start_job :
    (launched : Bool) → (id procs mem : String) → SimpleRunner → SimpleRunner × Bool
start_job launched id procs mem r = elim (count_detail procs) [
  | none ↦ (r, false)
  | some p ↦ elim (count_detail mem) [
    | none ↦ (r, false)
    | some m ↦
        if launched
        then (with_job (record { job_id = id; procs = p; mem = m }) r, true)
        else (r, false)
  ]
]

-- What the goroutine of a job does once its process has ended.
unfoldable pub finish_job : JobStatus → SimpleRunner → SimpleRunner
finish_job x r = record r {
  cur_jobs = select (λ (y : JobStatus). not (str_eq y.job_id x.job_id)) r.cur_jobs;
  avail_procs = give_back r.avail_procs x.procs;
  avail_mem = give_back r.avail_mem x.mem;
}

-- The server's answer to `ClaimNextJob`.
pub data ClaimAnswer : Type 0 where
  failure : ClaimAnswer
  job : (id procs mem : String) → ClaimAnswer
  no_job : (more_eligible : Bool) → ClaimAnswer

abbrev count_down : SimpleRunner → SimpleRunner
count_down r = record r {
  avail_jobs = if is_positive r.avail_jobs then sub_ℕ (pos_part r.avail_jobs) 1 else r.avail_jobs;
}

unfoldable pub use_answer : (launched : Bool) → ClaimAnswer → SimpleRunner → SimpleRunner
use_answer launched failure r = r
use_answer launched (job id procs mem) r =
    let (r', ok) = start_job launched id procs mem r in
    count_down (record r' { keep_running = r'.keep_running && ok })
use_answer launched (no_job more_eligible) r =
    if length r.cur_jobs == 0 && (not more_eligible && not r.forever_mode)
    then record r { keep_running = false }
    else r

-- The part of a turn of the loop that decides whether the server is asked for a job; `drain` is the
-- test of the drain file.
unfoldable pub seek : (drain : Bool) → SimpleRunner → SimpleRunner × Bool
seek drain r =
    if drain || not r.keep_running
    then (if drain && length r.cur_jobs == 0
        then (record r { keep_running = false }, false)
        else (r, false))
    else if is_zero r.avail_jobs
    then (record r { keep_running = false }, false)
    else (r, find_job r)
