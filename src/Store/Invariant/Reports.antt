-- ===== src/Store/Invariant/Reports.antt =====
-- What the report that a proxied job ended brings about (storage/sqlite.go, `EndProxiedJob`).
use batchq.Shared.{
  ◌≡◌, refl, ◌∙◌, sym, ◌⊎◌, inl, inr, true, false, Option, some, arith, String, str_eq, eq_iff,
  Bool-cases, ◌==◌,
}
use Prim.Native.String.{◌++◌ as str_append}
use batchq.Shared.Int.{ℤ}
use batchq.Shared.Result.{ok, ◌>>◌, >>-eq-ok, ok-injective}
use batchq.Job.Status.{StatusCode, is, success, is_live, is_bad}
use batchq.Store.Db.{Db, status_of, status_test, update_job, affected}
use batchq.Store.Laws.{affected_one}
use batchq.Store.Cancel.{cascade_cancel}
use batchq.Store.Transition.{already, is_proxied, set_reported, end_proxied_job}
use batchq.Store.Wf.{Wf}
use batchq.Store.Invariant.Updates.{SetsStatus, update_job-SetsStatus}
use batchq.Store.Invariant.Ends.{proxied_live, untouched, end_proxied_job-Wf}
use batchq.Store.Invariant.Outcomes.{Settles, Topples, cascaded}

ended_badly : (s : StatusCode) → is_live s ≡ false → is s success ≡ false → is_bad s ≡ true
unfolding is_live is is_bad
ended_badly s dead bad = ground arith

already-eq : (s : StatusCode) (o : Option StatusCode) → already s o ≡ ok tt → o ≡ some s
unfolding already is
already-eq s o h = ground arith

-- Where the end of a proxied job is reported with no error, in a well-formed store, the store stays
-- well-formed, and there are three outcomes. The job was proxied and succeeded: it alone changes. It
-- was proxied and ended otherwise: the live jobs that waited for it are canceled too. Or the report is
-- a repetition: the job is already in the state reported, and no state changes.
pub end_proxied_job_exact :
    (now id : String) (s : StatusCode) (start end_time : String) (code : ℤ) (notes : String)
    (db db' : Db)
    → is_live s ≡ false
    → end_proxied_job now id s start end_time code notes db ≡ ok db'
    → Wf db
    → Wf db'
      × (((status_test is_proxied (status_of db id) ≡ true)
            × (((is s success ≡ true) × Settles s id db db')
                ⊎ ((is s success ≡ false) × Topples s id db db')))
          ⊎ ((status_of db id ≡ some s) × ((k : String) → status_of db' k ≡ status_of db k)))
unfolding end_proxied_job set_reported
end_proxied_job_exact now id s start end_time code notes db db' ends h w =
    let f = set_reported s start end_time code notes in
    let upd = update_job id is_proxied f db in
    let reason = str_append "Parent job " (str_append id " failed/canceled") in
    let effect : SetsStatus (str_eq id) is_proxied s db upd =
      update_job-SetsStatus id is_proxied f s db (λ r. refl) (λ r. refl) in
    let one = affected_one id is_proxied db w.keys in
    (
      end_proxied_job-Wf now id s start end_time code notes db db' ends h w,
      elim (Bool-cases (affected id is_proxied db == 1)) [
        | inl yes_one ↦
            let was : status_test is_proxied (status_of db id) ≡ true = sym one ∙ yes_one in
            inl (
              was,
              elim (Bool-cases (is s success)) [
                | inl good ↦
                    let same : upd ≡ db' = ground arith in
                    inl (good, λ k. rw (← same) (ground (arith, effect.status k, eq_iff id k)))
                | inr bad ↦
                    let final : cascade_cancel now id reason upd ≡ ok db' = ground arith in
                    inr (
                      bad,
                      cascaded id is_proxied s db upd effect proxied_live now reason db' final ends
                          (ended_badly s ends bad) was w,
                    )
              ],
            )
        | inr no_one ↦
            let retried : (already s (status_of upd id) >> ok upd) ≡ ok db' = ground arith in
            let (said, done) = >>-eq-ok (already s (status_of upd id)) (ok upd) retried in
            let same : upd ≡ db' = ok-injective done in
            let kept = untouched id is_proxied s db upd effect (sym one ∙ no_one) in
            inr (
              sym (kept.status id) ∙ already-eq s (status_of upd id) said,
              λ k. rw (← same) (kept.status k),
            )
      ],
    )
