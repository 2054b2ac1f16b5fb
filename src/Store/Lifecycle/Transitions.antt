-- ===== src/Store/Lifecycle/Transitions.antt =====
-- Each operation of the store moves jobs as the life of a job allows (storage/sqlite.go).
use batchq.Shared.{
  ◌≡◌, refl, inl, inr, true, List, [], ◌∷◌, arith, String, str_eq, Bool-cases, Option-cases,
  if◌then◌else◌, ◌==◌, ℕ,
}
use batchq.Shared.Int.{ℤ, is_zero}
use batchq.Shared.Result.{ok, err, not_found, >>=-eq-ok, >>-eq-ok}
use batchq.Job.Status.{StatusCode, userhold, waiting, queued, proxyqueued, is, is_live}
use batchq.Job.Lifecycle.{here, may_step, may_start, is_end}
use batchq.Store.Db.{Db, status_of, update_job, affected}
use batchq.Store.Cancel.{cancel_job, cancel_each, cancel_members, cancel_array, find_jobs_by_detail}
use batchq.Store.Cancel.Job.{cancel_job-Cascades, cancel_job-not_found}
use batchq.Store.Claim.{ClaimResult, claim_next_job}
use batchq.Store.Claim.Fits.{Limits}
use batchq.Store.Claim.First.{claim_next_job_exact, FirstFit-queued}
use batchq.Store.Transition.{
  mark_job_proxied, assert_runner_owns_job, already, is_running, set_proxied, set_held,
  set_released, is_pending, is_held, hold_job, release_job, hold_array, release_array,
  adjust_job_priority, adjust_array_priority, update_array,
}
use batchq.Store.Resolve.{resolve_dependencies, is_waiting}
use batchq.Store.Wf.{Wf}
use batchq.Store.Invariant.Updates.{update_job-SetsStatus}
use batchq.Store.Invariant.Users.{update_array-SetsStatus, priority-SameStates}
use batchq.Store.Invariant.Resolves.{resolve-Promoted}
use batchq.Store.Invariant.Cancels.{cancel_job-Wf}
use batchq.Store.Invariant.Claims.{claim_job_exact}
use batchq.Store.Invariant.Ends.{put_running_details-SameStates}
use batchq.Store.Lifecycle.Moves.{
  Follows, Follows-refl, Follows-trans, SameStates-Follows, SetsStatus-Follows, CancelsOnly-Follows,
  Claims-Follows,
}

pub hold_job-Follows : (id : String) (db : Db) → Follows db (hold_job id db).1
unfolding hold_job set_held is_pending may_step may_start is
hold_job-Follows id db =
    SetsStatus-Follows
      (update_job-SetsStatus id is_pending set_held userhold db (λ r. refl) (λ r. refl))
      (λ t h. ground arith)

pub release_job-Follows : (id : String) (db : Db) → Follows db (release_job id db).1
unfolding release_job set_released is_held may_step is
release_job-Follows id db =
    SetsStatus-Follows
      (update_job-SetsStatus id is_held set_released waiting db (λ r. refl) (λ r. refl))
      (λ t h. ground arith)

pub hold_array-Follows : (array_id : String) (db : Db) → Follows db (hold_array array_id db).1
unfolding hold_array set_held is_pending may_step may_start is
hold_array-Follows array_id db =
    SetsStatus-Follows
      (update_array-SetsStatus array_id is_pending set_held userhold db (λ r. refl) (λ r. refl))
      (λ t h. ground arith)

pub release_array-Follows : (array_id : String) (db : Db) → Follows db (release_array array_id db).1
unfolding release_array set_released is_held may_step is
release_array-Follows array_id db =
    SetsStatus-Follows
      (update_array-SetsStatus array_id is_held set_released waiting db (λ r. refl) (λ r. refl))
      (λ t h. ground arith)

pub adjust_job_priority-Follows :
    (id : String) (delta : ℤ) (db : Db) → Follows db (adjust_job_priority id delta db).1
unfolding adjust_job_priority update_job
adjust_job_priority-Follows id delta db k = elim (Bool-cases (is_zero delta)) [
  | inl z ↦ rw z here
  | inr nz ↦ rw nz (SameStates-Follows (priority-SameStates _ delta db) k)
]

pub adjust_array_priority-Follows :
    (array_id : String) (delta : ℤ) (db : Db)
    → Follows db (adjust_array_priority array_id delta db).1
unfolding adjust_array_priority update_array
adjust_array_priority-Follows array_id delta db k = elim (Bool-cases (is_zero delta)) [
  | inl z ↦ rw z here
  | inr nz ↦ rw nz (SameStates-Follows (priority-SameStates _ delta db) k)
]

queues : (t : StatusCode) → is_waiting t ≡ true → may_step t queued ≡ true
unfolding is_waiting may_step is may_start is_end is_live
queues t h = ground arith

pub resolve_dependencies-Follows :
    (now : String) (db : Db) → Wf db → Follows db (resolve_dependencies now db).1
resolve_dependencies-Follows now db w = SetsStatus-Follows (resolve-Promoted now db w) queues

pub cancel_job-Follows :
    (now id reason : String) (db db' : Db)
    → cancel_job now id reason db ≡ ok db'
    → Wf db
    → Follows db db'
cancel_job-Follows now id reason db db' h w = elim (Option-cases (status_of db id)) [
  | inl e ↦ absurd (refused (cancel_job-not_found now id reason db e))
  | inr (s, e) ↦
      let (made, is_ok, c, gone) = cancel_job-Cascades now id reason db e w.none_doomed in
      let same : made ≡ db' = cc in rw (← same) (CancelsOnly-Follows c.only)
]
  where
    refused : cancel_job now id reason db ≡ err not_found → ⊥
    refused e = cc

cancel_each-Follows :
    (now : String) (ids : List String) (reason : String) (db db' : Db)
    → cancel_each now ids reason db ≡ ok db'
    → Wf db
    → Follows db db'
unfolding cancel_each
cancel_each-Follows now [] reason db db' h w =
    let same : db ≡ db' = cc in rw (← same) (Follows-refl db)
cancel_each-Follows now (id ∷ ids) reason db db' h w =
    let (one, first, rest) = >>=-eq-ok (cancel_job now id reason db) _ h in
    Follows-trans db one db' (cancel_job-Follows now id reason db one first w)
      (cancel_each-Follows now ids reason one db' rest (cancel_job-Wf now id reason db one first w))

cancel_members-Follows :
    (now : String) (ids : List String) (reason : String) (db db' : Db) {n : ℕ}
    → cancel_members now ids reason db ≡ ok (n, db')
    → Wf db
    → Follows db db'
unfolding cancel_members
cancel_members-Follows now [] reason db db' h w = absurd (ground arith)
cancel_members-Follows now (id ∷ ids) reason db db' h w =
    let (one, first, rest) = >>=-eq-ok (cancel_each now (id ∷ ids) reason db) _ h in
    let same : one ≡ db' = ground arith in
    rw (← same) (cancel_each-Follows now (id ∷ ids) reason db one first w)

pub cancel_array-Follows :
    (now array_id reason : String) (db db' : Db) {n : ℕ}
    → cancel_array now array_id reason db ≡ ok (n, db')
    → Wf db
    → Follows db db'
unfolding cancel_array
cancel_array-Follows now array_id reason db db' h w =
    cancel_members-Follows now (find_jobs_by_detail db "array_id" array_id) reason db db' h w

pub claim_next_job-Follows :
    (now runner kind : String) (limits : Limits) (db : Db) (r : ClaimResult × Db)
    → claim_next_job now runner kind limits db ≡ ok r
    → Wf db
    → Follows db r.1
claim_next_job-Follows now runner kind limits db r h w = elim (Bool-cases (str_eq runner "")) [
  | inl e ↦ absurd (unfold claim_next_job in ground arith)
  | inr named ↦
      let (r', is_ok, outcome) = claim_next_job_exact now runner kind limits db w named in
      let same : r' ≡ r = cc in
      rw (← same) (elim outcome [
        | inl (all, eq) ↦ rw eq (Follows-refl db)
        | inr (before, id, after, e, unfit, fits, eq) ↦
            let was = FirstFit-queued db before id after w.keys e in
            let (won, c, w') = claim_job_exact now id runner kind db w was in
            rw eq (Claims-Follows id runner db _ was c)
      ])
]

pub mark_job_proxied-Follows :
    (id runner : String) (details : List (String × String)) (db db' : Db)
    → mark_job_proxied id runner details db ≡ ok db'
    → Follows db db'
unfolding mark_job_proxied set_proxied
mark_job_proxied-Follows id runner details db db' h =
    let upd = update_job id is_running set_proxied db in
    let (owns, rest) = >>-eq-ok (assert_runner_owns_job id runner db) _ h in
    let (was, puts) =
      >>-eq-ok
        (if affected id is_running db == 1 then ok tt else already proxyqueued (status_of upd id)) _
        rest in
    Follows-trans db upd db'
      (SetsStatus-Follows
        (update_job-SetsStatus id is_running set_proxied proxyqueued db (λ r. refl) (λ r. refl))
        (λ t h. unfold is_running may_step is in ground arith))
      (SameStates-Follows (put_running_details-SameStates id details upd db' puts))
