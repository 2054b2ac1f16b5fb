-- ===== src/Scenarios/Runners.antt =====
-- A runner with two processors and no limit on memory, that claims a job and another, and ends one.
use batchq.Shared.{◌≡◌, refl, ℕ, ◌≤◌, ◌⊎◌, true, false, ◌||◌, none, [], ◌∷◌, length, find}
use batchq.Shared.Int.{pos, negsuc}
use batchq.Shared.Text.{atoi, atoi_value}
use batchq.Store.Claim.Fits.{within}
use batchq.Runner.Simple.{
  JobStatus, SimpleRunner, begun, is_positive, one_at_a_time, find_job, count_detail, start_job,
  ClaimAnswer, use_answer, seek, reserve,
}
use batchq.Runner.Simple.Ledger.{used, Distinct}
use batchq.Runner.Simple.Loop.{Loop, Step, Reach, start, later}
use batchq.Runner.Simple.Capacity.{AtMost, capacity-AtMost}
use batchq.Runner.Simple.Turns.{Turn}
use batchq.Store.Db.{Db}
use batchq.Store.Wf.{Wf}

abbrev sample : JobStatus
sample = record { job_id = "a"; procs = pos 1; mem = negsuc 0 }

-- One job runs, and there is a processor left.
abbrev busy : Loop
busy = record {
  runner = record {
    max_procs = pos 2;
    max_memory_mb = negsuc 0;
    forever_mode = false;
    cur_jobs = sample ∷ [];
    avail_jobs = negsuc 0;
    avail_procs = pos 1;
    avail_mem = negsuc 0;
    keep_running = true;
  };
  offered = none;
}

busy_reached : Reach (pos 2) (negsuc 0) (negsuc 0) false busy
unfolding begun seek one_at_a_time find_job use_answer start_job count_detail reserve within
    atoi_value find atoi
busy_reached =
    later (later start (Step.look false refl))
      (Step.answer (pos 2, negsuc 0) true (ClaimAnswer.job "a" "1" "") refl (refl, refl, refl))

capacity-AtMost_example :
    AtMost (pos 2) (used (λ x. x.procs) busy.runner.cur_jobs)
    × AtMost (negsuc 0) (used (λ x. x.mem) busy.runner.cur_jobs)
    × (((is_positive (pos 2) || is_positive (negsuc 0)) ≡ true) ⊎ (length busy.runner.cur_jobs ≤ 1))
    × Distinct busy.runner.cur_jobs
capacity-AtMost_example = capacity-AtMost busy_reached

abbrev comes_up : ℕ → Turn
comes_up n = record { drain = false; launched = true; ended = [] }

-- One job fits the runner's offer and comes up; it fills the runner.
abbrev free_runner : SimpleRunner
free_runner = begun (pos 4) (pos 8000) (negsuc 0) false
