-- ===== src/Runner/Simple/Capacity.antt =====
-- The runner never runs more than its limits allow, runner/simple.go: its loop and the goroutines of
-- its jobs, in any order, with a server that keeps to the limits of a claim.
use mathlib.Core.Path.{subst}
use batchq.Shared.{
  ◌≡◌, refl, ℕ, zero, suc, ◌≤◌, ◌⊎◌, inl, inr, Bool, true, false, not, ◌&&◌, ◌||◌, Option, none,
  some, String, length, arith, Bool-cases, ◌==◌, select,
}
use batchq.Shared.Int.{ℤ, pos, negsuc, pos_part}
use batchq.Store.Claim.Fits.{within}
use batchq.Runner.Simple.{
  JobStatus, SimpleRunner, begun, is_positive, one_at_a_time, with_job, start_job, finish_job,
  ClaimAnswer, failure, job, no_job, use_answer,
}
use batchq.Runner.Simple.Loop.{Loop, Grants, looked, Step, Reach, start, later}
use batchq.Runner.Simple.Offers.{
  Backed, Sound, count_detail-within, Backs-reserve, Backs-give_back, find_job-Backed, seek-cases,
  start_job-cases,
}
use batchq.Runner.Simple.Ledger.{
  used, Ledger, used-snoc, length-others, used-others, give_back-Ledger, job_at, Distinct,
  others-Distinct, append-Distinct,
}

Ledger-full : (max : ℤ) → Ledger max max 0
Ledger-full (pos zero) = tt
Ledger-full (pos (suc m)) = (suc m, refl, omega arith)
Ledger-full (negsuc m) = tt

module _ (max_procs max_memory_mb : ℤ) where
  abbrev Holds : Loop → Type 0
  Holds s = Sound max_procs max_memory_mb s.runner × Backed s.runner s.offered

  with_job-Sound :
      (x : JobStatus) (r : SimpleRunner) (op om : ℤ)
      → Sound max_procs max_memory_mb r
      → Backed r (some (op, om))
      → within op x.procs ≡ true
      → within om x.mem ≡ true
      → job_at x.job_id r.cur_jobs ≡ none
      → Sound max_procs max_memory_mb (with_job x r)
  unfolding one_at_a_time
  with_job-Sound x r op om s b fp fm new = record {
    same_procs = s.same_procs;
    same_mem = s.same_mem;
    procs =
        rw (used-snoc (λ y. y.procs) r.cur_jobs x)
          (Backs-reserve r.max_procs op r.avail_procs x.procs _ s.procs b.0 fp);
    mem =
        rw (used-snoc (λ y. y.mem) r.cur_jobs x)
          (Backs-reserve r.max_memory_mb om r.avail_mem x.mem _ s.mem b.1 fm);
    distinct = append-Distinct r.cur_jobs x s.distinct new;
    single = λ one. rw (b.2 one) (omega arith);
  }

  finish_job-Sound :
      (x : JobStatus) (r : SimpleRunner)
      → Sound max_procs max_memory_mb r
      → job_at x.job_id r.cur_jobs ≡ some x
      → Sound max_procs max_memory_mb (finish_job x r)
  unfolding finish_job one_at_a_time
  finish_job-Sound x r s there = record {
    same_procs = s.same_procs;
    same_mem = s.same_mem;
    procs =
        give_back-Ledger r.max_procs r.avail_procs x.procs _
          (rw (used-others (λ y. y.procs) x.job_id r.cur_jobs x s.distinct there) s.procs);
    mem =
        give_back-Ledger r.max_memory_mb r.avail_mem x.mem _
          (rw (used-others (λ y. y.mem) x.job_id r.cur_jobs x s.distinct there) s.mem);
    distinct = others-Distinct x.job_id r.cur_jobs s.distinct;
    single = λ one. omega (arith, s.single one, length-others x.job_id r.cur_jobs);
  }

  finish_job-Backed :
      (x : JobStatus) (r : SimpleRunner) (offered : Option (ℤ × ℤ))
      → Sound max_procs max_memory_mb r
      → Backed r offered
      → Backed (finish_job x r) offered
  unfolding finish_job one_at_a_time select
  finish_job-Backed x r none s b = tt
  finish_job-Backed x r (some (procs, mem)) s b = (
    Backs-give_back r.max_procs procs r.avail_procs x.procs _ s.procs b.0,
    Backs-give_back r.max_memory_mb mem r.avail_mem x.mem _ s.mem b.1,
    λ one. rw (b.2 one) refl,
  )

  start_job-Sound :
      (launched : Bool) (id p m : String) (r : SimpleRunner) (offer : ℤ × ℤ)
      → Sound max_procs max_memory_mb r
      → Backed r (some offer)
      → Grants offer r (job id p m)
      → Sound max_procs max_memory_mb (start_job launched id p m r).0
  unfolding start_job
  start_job-Sound launched id p m r (op, om) s b (fp, fm, new) =
      elim (start_job-cases launched id p m r) [
        | inl e ↦ rw e s
        | inr (np, nm, ep, em, e) ↦ rw e (
            with_job-Sound (record { job_id = id; procs = np; mem = nm }) r op om s b
              (count_detail-within p np op ep fp) (count_detail-within m nm om em fm) new)
      ]

  -- What the loop counts down and clears is not part of it.
  flags-Sound :
      (r : SimpleRunner) (keep : Bool) (left : ℤ)
      → Sound max_procs max_memory_mb r
      → Sound max_procs max_memory_mb (record r { keep_running = keep; avail_jobs = left })
  unfolding one_at_a_time
  flags-Sound r keep left s = record {
    same_procs = s.same_procs;
    same_mem = s.same_mem;
    procs = s.procs;
    mem = s.mem;
    distinct = s.distinct;
    single = s.single;
  }

  use_answer-Sound :
      (launched : Bool) (a : ClaimAnswer) (r : SimpleRunner) (offer : ℤ × ℤ)
      → Sound max_procs max_memory_mb r
      → Backed r (some offer)
      → Grants offer r a
      → Sound max_procs max_memory_mb (use_answer launched a r)
  unfolding use_answer one_at_a_time
  use_answer-Sound launched failure r offer s b g = s
  use_answer-Sound launched (job id p m) r offer s b g =
      flags-Sound _ _ _ (start_job-Sound launched id p m r offer s b g)
  use_answer-Sound launched (no_job more) r offer s b g =
      elim (Bool-cases (length r.cur_jobs == 0 && (not more && not r.forever_mode))) [
        | inl e ↦ rw e (flags-Sound r false r.avail_jobs s)
        | inr e ↦ rw e s
      ]

  looked-Holds :
      (drain : Bool) (r : SimpleRunner) → Sound max_procs max_memory_mb r → Holds (looked drain r)
  looked-Holds drain r s = elim (seek-cases drain r) [
    | inl e ↦ rw e (s, tt)
    | inr (inl e) ↦ rw e (flags-Sound r false r.avail_jobs s, tt)
    | inr (inr (f, e)) ↦ rw e (s, find_job-Backed r f)
  ]

  Step-Holds : {s t : Loop} → Step s t → Holds s → Holds t
  Step-Holds {s} (Step.look drain e) h = looked-Holds drain s.runner h.0
  Step-Holds {s} (Step.answer offer launched a e g) h =
      (use_answer-Sound launched a s.runner offer h.0 (subst (Backed s.runner) e h.1) g, tt)
  Step-Holds {s} (Step.end x there) h =
      (finish_job-Sound x s.runner h.0 there, finish_job-Backed x s.runner s.offered h.0 h.1)

  begun-Sound :
      (max_jobs : ℤ) (forever : Bool)
      → Sound max_procs max_memory_mb (begun max_procs max_memory_mb max_jobs forever)
  unfolding begun used one_at_a_time
  begun-Sound max_jobs forever = record {
    same_procs = refl;
    same_mem = refl;
    procs = Ledger-full max_procs;
    mem = Ledger-full max_memory_mb;
    distinct = tt;
    single = λ one. omega arith;
  }

  Reach-Holds :
      {max_jobs : ℤ} {forever : Bool} {s : Loop}
      → Reach max_procs max_memory_mb max_jobs forever s
      → Holds s
  unfolding begun
  Reach-Holds {max_jobs} {forever} start = (begun-Sound max_jobs forever, tt)
  Reach-Holds (later r st) = Step-Holds st (Reach-Holds r)

-- A limit that is positive bounds the sum.
abbrev pub AtMost : (max : ℤ) → ℕ → Type 0
AtMost max n = (is_positive max ≡ false) ⊎ (n ≤ pos_part max)

Ledger-AtMost : (max avail : ℤ) (n : ℕ) → Ledger max avail n → AtMost max n
Ledger-AtMost (pos zero) avail n l = inl (ground arith)
Ledger-AtMost (pos (suc m)) avail n (a, e, total) = inr (omega arith)
Ledger-AtMost (negsuc m) avail n l = inl (ground arith)

limited_or_single :
    (r : SimpleRunner)
    → (one_at_a_time r ≡ true → length r.cur_jobs ≤ 1)
    → ((is_positive r.max_procs || is_positive r.max_memory_mb) ≡ true) ⊎ (length r.cur_jobs ≤ 1)
unfolding one_at_a_time
limited_or_single r single =
    elim (Bool-cases (is_positive r.max_procs || is_positive r.max_memory_mb)) [
      | inl limited ↦ inl limited
      | inr free ↦ inr (single (ground (arith, free)))
    ]

-- However the turns of the loop and the ends of jobs interleave, the processors and the memory that
-- the running jobs ask for stay within each limit that is positive; with neither limit at most one
-- job runs; and no job runs twice. The server is taken to grant what it was offered, and no job
-- that runs here already.
pub capacity-AtMost :
    {max_procs max_memory_mb max_jobs : ℤ} {forever : Bool} {s : Loop}
    → Reach max_procs max_memory_mb max_jobs forever s
    → AtMost max_procs (used (λ x. x.procs) s.runner.cur_jobs)
      × AtMost max_memory_mb (used (λ x. x.mem) s.runner.cur_jobs)
      × (((is_positive max_procs || is_positive max_memory_mb) ≡ true)
          ⊎ (length s.runner.cur_jobs ≤ 1))
      × Distinct s.runner.cur_jobs
capacity-AtMost {max_procs} {max_memory_mb} {s} reached =
    let (sound, backed) = Reach-Holds max_procs max_memory_mb reached in
    let limits = limited_or_single s.runner sound.single in
    (
      subst (λ m. AtMost m (used (λ x. x.procs) s.runner.cur_jobs)) sound.same_procs
          (Ledger-AtMost s.runner.max_procs s.runner.avail_procs _ sound.procs),
      subst (λ m. AtMost m (used (λ x. x.mem) s.runner.cur_jobs)) sound.same_mem
          (Ledger-AtMost s.runner.max_memory_mb s.runner.avail_mem _ sound.mem),
      subst
          (λ m. ((is_positive max_procs || is_positive m) ≡ true) ⊎ (length s.runner.cur_jobs ≤ 1))
          sound.same_mem
          (subst
            (λ m.
              ((is_positive m || is_positive s.runner.max_memory_mb) ≡ true)
              ⊎ (length s.runner.cur_jobs ≤ 1))
            sound.same_procs limits),
      sound.distinct,
    )
