-- ===== src/Runner/Simple/Turns.antt =====
-- The turns of the loop of `Start` that follow each other without a pause, runner/simple.go: the
-- drain test, `findJob`, the cap on the number of jobs, the claim and the start of the job.
use batchq.Shared.{
  ◌≡◌, ℕ, zero, suc, ◌⊎◌, Bool, true, false, Option, none, some, List, [], ◌∷◌, String,
}
use batchq.Shared.Int.{ℤ}
use batchq.Shared.Result.{ok, err}
use batchq.Store.Db.{Db, job_detail}
use batchq.Store.Claim.{claim_next_job, queue_order}
use batchq.Store.Claim.Fits.{Limits}
use batchq.Store.Claim.First.{NoneFits}
use batchq.Store.Wf.{Wf}
use batchq.Runner.Simple.{
  JobStatus, SimpleRunner, finish_job, ClaimAnswer, failure, job, no_job, use_answer, seek,
  find_job,
}

-- What a turn meets: the drain file, whether a job comes up, and the jobs whose process ended before.
pub record Turn : Type 0 where
  pub drain : Bool
  pub launched : Bool
  pub ended : List JobStatus

unfoldable pub finish_all : List JobStatus → SimpleRunner → SimpleRunner
finish_all [] r = r
finish_all (x ∷ xs) r = finish_all xs (finish_job x r)

-- The `runnerId`, the time limit and `availableResources` of a runner, and what its turns meet.
module _ (now runner : String) (walltime : ℤ) (resources : SimpleRunner → List (String × String))
    (meets : ℕ → Turn) where
  unfoldable pub offer : SimpleRunner → Limits
  offer r = record {
    max_procs = r.avail_procs;
    max_memory_mb = r.avail_mem;
    max_walltime_sec = walltime;
    resources = resources r;
  }

  -- The answer with the job that was claimed.
  abbrev pub answer_of : Db → String → ClaimAnswer
  answer_of db id = job id (job_detail db id "procs") (job_detail db id "mem")

  -- Turn by turn, up to the first that does not go on at once; `none` means that the turns were not
  -- enough. The tables change by the claims only.
  unfoldable pub turns : ℕ → SimpleRunner → Db → Option (SimpleRunner × Db)
  turns zero r db = none
  turns (suc n) r db =
      let (q, asks) = seek (meets n).drain (finish_all (meets n).ended r) in
      elim asks [
        | false ↦ some (q, db)
        | true ↦ elim (claim_next_job now runner "simple" (offer q) db) [
          | err e ↦ some (use_answer (meets n).launched failure q, db)
          | ok (c, db') ↦ elim c.job [
            | none ↦ some (use_answer (meets n).launched (no_job c.more_eligible) q, db')
            | some id ↦ turns n (use_answer (meets n).launched (answer_of db' id) q) db'
          ]
        ]
      ]

  -- Why the runner does not look for a job: the drain file, its cap or a start that failed, or
  -- nothing is free.
  abbrev pub Stopped : SimpleRunner → Type 0
  Stopped r =
      ((k : ℕ) × ((meets k).drain ≡ true)) ⊎ ((r.keep_running ≡ false) ⊎ (find_job r ≡ false))

  -- The runner has looked, and no queued job fits what it offered.
  abbrev pub Idle : SimpleRunner → Db → Type 0
  Idle r db =
      (launched : Bool) × (q : SimpleRunner) × NoneFits (offer q) db (queue_order db)
      × (r ≡ use_answer launched (no_job false) q)
