-- ===== src/Store/Invariant/Claims.antt =====
-- A claim keeps the invariant of the store (storage/sqlite.go, `claimJobTx` and `ClaimNextJob`).
use batchq.Shared.{
  ◌≡◌, refl, Bool, true, none, some, ◌∷◌, arith, eq_iff, String, str_eq, find, Bool-cases, inl, inr,
  if◌then◌else◌,
}
use batchq.Shared.Result.{ok}
use batchq.Job.Status.{StatusCode, queued, running, is, is_live, is_bad}
use batchq.Store.Db.{Db, status_of, status_test, owner_of, update_job}
use batchq.Store.Laws.{Unique}
use batchq.Store.Cancel.Cascade.{NoneDoomed}
use batchq.Store.Claim.{ClaimResult, claim_job, claim_next_job, set_running}
use batchq.Store.Claim.Fits.{Limits}
use batchq.Store.Claim.First.{claim_next_job_exact, queued_unclaimed, FirstFit-queued}
use batchq.Store.Wf.{Wf, ClaimsMatch, DepsRefer, is_idle, is_active}
use batchq.Store.Invariant.Updates.{
  SetsStatus, SetsStatus-NoneDoomed, SetsStatus-DepsRefer, update_job-SetsStatus,
}

abbrev is_queued : StatusCode → Bool
is_queued s = is s queued

with_claim : String → String → String → Db → Db
with_claim id runner kind db = record db {
  running = record { job_id = id; job_runner = runner; kind = kind } ∷ db.running;
}

claimed_db : String → String → String → String → Db → Db
claimed_db now id runner kind db =
    update_job id is_queued (set_running now) (with_claim id runner kind db)

claim_job-wins :
    (now id runner kind : String) (db : Db)
    → owner_of db id ≡ none
    → claim_job now id runner kind db ≡ (true, claimed_db now id runner kind db)
unfolding claim_job claimed_db with_claim
claim_job-wins now id runner kind db h = ground arith

-- A claim of a queued job that has no claim: it runs, it is the runner's, and nothing else changes.
pub record Claims (id runner : String) (db db' : Db) : Type 0 where
  pub status :
      (k : String) → status_of db' k ≡ (if str_eq id k then some running else status_of db k)
  pub owner : (k : String) → owner_of db' k ≡ (if str_eq id k then some runner else owner_of db k)

module _ (now id runner kind : String) (db : Db) where
  claimed_db-SetsStatus :
      SetsStatus
        (str_eq id)
        is_queued
        running
        (with_claim id runner kind db)
        (claimed_db now id runner kind db)
  unfolding claimed_db set_running
  claimed_db-SetsStatus =
      update_job-SetsStatus id is_queued (set_running now) running (with_claim id runner kind db)
        (λ r. refl) (λ r. refl)

  claimed_db-Claims :
      status_test is_queued (status_of db id) ≡ true
      → Claims id runner db (claimed_db now id runner kind db)
  claimed_db-Claims was = record {
    status = λ k. ground (arith, claimed_db-SetsStatus.status k, same_status k, eq_iff id k);
    owner = λ k. owners k;
  }
    where
      same_status : (k : String) → status_of (with_claim id runner kind db) k ≡ status_of db k
      same_status k = unfold status_of with_claim in refl

      owners :
          (k : String)
          → owner_of (claimed_db now id runner kind db) k
            ≡ (if str_eq id k then some runner else owner_of db k)
      owners k = unfold owner_of claimed_db with_claim update_job find in ground arith

  claim_NoneDoomed : NoneDoomed db → NoneDoomed (with_claim id runner kind db)
  unfolding status_of with_claim
  claim_NoneDoomed h = h

  claim_DepsRefer : DepsRefer db → DepsRefer (with_claim id runner kind db)
  unfolding status_of with_claim
  claim_DepsRefer h = record { at = h.at }

  claim_Unique : Unique db.jobs → Unique (with_claim id runner kind db).jobs
  unfolding with_claim
  claim_Unique u = u

  claimed_db-ClaimsMatch :
      status_test is_queued (status_of db id) ≡ true
      → ClaimsMatch db
      → ClaimsMatch (claimed_db now id runner kind db)
  unfolding is_idle is_active
  claimed_db-ClaimsMatch was h =
      let c = claimed_db-Claims was in
      record {
        idle = λ k e. ground (arith, c.status k, c.owner k, h.idle k);
        active = λ k e. ground (arith, c.status k, c.owner k, h.active k);
        unknown = λ k e. ground (arith, c.status k, c.owner k, h.unknown k);
      }

  claimed_db-Wf :
      status_test is_queued (status_of db id) ≡ true → Wf db → Wf (claimed_db now id runner kind db)
  unfolding is is_live is_bad
  claimed_db-Wf was w = record {
    none_doomed =
        SetsStatus-NoneDoomed claimed_db-SetsStatus (λ t h. ground arith) refl
          (claim_NoneDoomed w.none_doomed);
    claims = claimed_db-ClaimsMatch was w.claims;
    refer = SetsStatus-DepsRefer claimed_db-SetsStatus (claim_DepsRefer w.refer);
    keys = claimed_db-SetsStatus.keys (claim_Unique w.keys);
  }

-- A claim of a queued job, in a well-formed store: it wins, the job runs for the runner, and the
-- states and owners of all other jobs stay.
pub claim_job_exact :
    (now id runner kind : String) (db : Db)
    → Wf db
    → status_test (λ s. is s queued) (status_of db id) ≡ true
    → ((claim_job now id runner kind db).0 ≡ true)
      × Claims id runner db (claim_job now id runner kind db).1
      × Wf (claim_job now id runner kind db).1
claim_job_exact now id runner kind db w was =
    rw (claim_job-wins now id runner kind db (queued_unclaimed db w.claims id was))
      (refl, claimed_db-Claims now id runner kind db was, claimed_db-Wf now id runner kind db was w)

pub claim_next_job-Wf :
    (now runner kind : String) (limits : Limits) (db : Db) (r : ClaimResult × Db)
    → claim_next_job now runner kind limits db ≡ ok r
    → Wf db
    → Wf r.1
claim_next_job-Wf now runner kind limits db r h w = elim (Bool-cases (str_eq runner "")) [
  | inl e ↦ absurd (unfold claim_next_job in ground arith)
  | inr named ↦
      let (r', is_ok, outcome) = claim_next_job_exact now runner kind limits db w named in
      let same : r' ≡ r = cc in
      elim outcome [
        | inl (none_fit, eq) ↦ rw (← same, eq) w
        | inr (before, id, after, e, none_fit, fits, eq) ↦
            rw (← same, eq)
              (claim_job_exact now id runner kind db w
                (FirstFit-queued db before id after w.keys e)).2
      ]
]
