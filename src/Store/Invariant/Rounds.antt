-- ===== src/Store/Invariant/Rounds.antt =====
-- What a claim does to the number of queued jobs (storage/sqlite.go).
use batchq.Shared.{
  ◌≡◌, refl, ◌∙◌, ℕ, suc, ◌+◌, Bool, true, false, ◌&&◌, List, [], ◌∷◌, arith, String, str_eq, tally,
  ==_iff,
}
use batchq.Job.Status.{queued, is}
use batchq.Store.Db.{JobRow, Db, update, update_job, affected, status_of, status_test}
use batchq.Store.Laws.{affected_one}
use batchq.Store.Claim.{set_running, claim_job}
use batchq.Store.Claim.First.{queued_unclaimed}
use batchq.Store.Wf.{Wf}

abbrev pub count_queued : Db → ℕ
count_queued db = tally (λ (r : JobRow). is r.status queued) db.jobs

-- The rows that an update takes away from a count.
tally-update :
    (p q : JobRow → Bool) (f : JobRow → JobRow) (rows : List JobRow)
    → ((r : JobRow) → q (f r) ≡ false)
    → tally q (update (λ r. p r && q r) f rows) + tally (λ r. p r && q r) rows ≡ tally q rows
unfolding tally update
tally-update p q f [] h = refl
tally-update p q f (r ∷ rows) h = ground (arith, h r, tally-update p q f rows h)

-- A claim takes one job out of the queue.
pub claim_job-count :
    (now id runner kind : String) (db : Db)
    → Wf db
    → status_test (λ s. is s queued) (status_of db id) ≡ true
    → suc (count_queued (claim_job now id runner kind db).1) ≡ count_queued db
unfolding claim_job update_job affected
claim_job-count now id runner kind db w q =
    let one =
      (==_iff (affected id (λ s. is s queued) db) 1).0
        (affected_one id (λ s. is s queued) db w.keys ∙ q) in
    rw (queued_unclaimed db w.claims id q, claim_job)
      (omega (
        arith,
        one,
        tally-update (λ (r : JobRow). str_eq r.id id) (λ (r : JobRow). is r.status queued)
            (set_running now) db.jobs (λ r. unfold set_running is in refl),
      ))
