-- ===== src/Runner/Simple/Loop.antt =====
-- The loop of `Start`, runner/simple.go, with the goroutines of its jobs, in any order.
use batchq.Shared.{◌≡◌, Bool, true, Option, none, some, if◌then◌else◌}
use batchq.Shared.Int.{ℤ}
use batchq.Shared.Text.{atoi}
use batchq.Store.Claim.Fits.{within, or_zero}
use batchq.Runner.Simple.{
  JobStatus, SimpleRunner, begun, finish_job, ClaimAnswer, failure, job, no_job, use_answer, seek,
}
use batchq.Runner.Simple.Ledger.{job_at}

-- The runner, and what it has offered in a claim whose answer is not yet there.
pub record Loop : Type 0 where
  pub runner : SimpleRunner
  pub offered : Option (ℤ × ℤ)

-- A job that is claimed fits what was offered, as the store tests it, and does not run here already.
abbrev pub Grants : ℤ × ℤ → SimpleRunner → ClaimAnswer → Type 0
Grants (procs, mem) r failure = Unit
Grants (procs, mem) r (no_job more) = Unit
Grants (procs, mem) r (job id p m) =
    (within procs (or_zero (atoi p)) ≡ true)
    × (within mem (or_zero (atoi m)) ≡ true)
    × (job_at id r.cur_jobs ≡ none)

abbrev pub looked : Bool → SimpleRunner → Loop
looked drain r =
    let (r', asks) = seek drain r in
    record { runner = r'; offered = if asks then some (r.avail_procs, r.avail_mem) else none }

pub data Step (s : Loop) : Loop → Type 0 where
  look : (drain : Bool) → s.offered ≡ none → Step s (looked drain s.runner)
  answer :
      (offer : ℤ × ℤ) (launched : Bool) (a : ClaimAnswer)
      → s.offered ≡ some offer
      → Grants offer s.runner a
      → Step s (record { runner = use_answer launched a s.runner; offered = none })
  end :
      (x : JobStatus)
      → job_at x.job_id s.runner.cur_jobs ≡ some x
      → Step s (record s { runner = finish_job x s.runner })

pub data Reach (max_procs max_memory_mb max_jobs : ℤ) (forever : Bool) : Loop → Type 0 where
  start :
      Reach max_procs max_memory_mb max_jobs forever
        (record { runner = begun max_procs max_memory_mb max_jobs forever; offered = none })
  later :
      {s t : Loop}
      → Reach max_procs max_memory_mb max_jobs forever s
      → Step s t
      → Reach max_procs max_memory_mb max_jobs forever t
