-- ===== src/Store/Lifecycle/Requests.antt =====
-- Every request moves jobs as the life of a job allows: submissions, reports, and all of them in order.
use batchq.Shared.{
  ◌≡◌, refl, ◌∙◌, inl, inr, Bool, true, false, not, ◌&&◌, some, List, [], ◌∷◌, arith, String,
  str_eq, eq_iff, Bool-cases,
}
use batchq.Shared.Int.{ℤ}
use batchq.Shared.Result.{Result, ok, err, other, guard, or_before, >>=-eq-ok, >>-eq-ok}
use batchq.Job.Status.{StatusCode, running, canceled, success, failed, is, is_live}
use batchq.Job.Lifecycle.{here, may_step, may_start, is_end, Reaches-end}
use batchq.Job.Def.{JobDef}
use batchq.Store.Db.{Db, status_of, status_test}
use batchq.Store.Submit.{insert_job_tx, insert_tasks, insert_array, validate_tasks, is_empty}
use batchq.Store.Transition.{end_job, end_proxied_job, is_proxied, update_running_details}
use batchq.Store.Run.{Request, EndStatus, end_status, second, serve, run, ends, serve-Wf}
use batchq.Store.Wf.{Wf}
use batchq.Store.Invariant.Ends.{put_running_details-SameStates}
use batchq.Store.Invariant.Inserts.{
  insert_job_exact, insert_job_tx-Wf, ValidTasks, validate_tasks-ValidTasks, ValidTasks-Extends,
}
use batchq.Store.Invariant.Outcomes.{Settles, Topples, end_job_exact}
use batchq.Store.Invariant.Reports.{end_proxied_job_exact}
use batchq.Store.Invariant.Scans.{claim_next_array_batch-Follows}
use batchq.Store.Lifecycle.Moves.{
  Follows, Follows-refl, Follows-trans, SameStates-Follows, Adds-Follows, moved, cancels,
}
use batchq.Store.Lifecycle.Transitions.{
  hold_job-Follows, release_job-Follows, hold_array-Follows, release_array-Follows,
  adjust_job_priority-Follows, adjust_array_priority-Follows, resolve_dependencies-Follows,
  cancel_job-Follows, cancel_array-Follows, claim_next_job-Follows, mark_job_proxied-Follows,
}

insert_tasks-Follows :
    (now : String) (tasks : List JobDef) (db db' : Db)
    → insert_tasks now tasks db ≡ ok db'
    → ValidTasks db tasks
    → Wf db
    → Follows db db'
unfolding insert_tasks
insert_tasks-Follows now [] db db' h v w = let same : db ≡ db' = cc in rw (← same) (Follows-refl db)
insert_tasks-Follows now (task ∷ tasks) db db' h v w =
    let (one, first, rest) = >>=-eq-ok (insert_job_tx now task db) _ h in
    let (w', kept, free, added) = insert_job_tx-Wf now task db one first v.0 w in
    Follows-trans db one db' (Adds-Follows task db one free added)
      (insert_tasks-Follows now tasks one db' rest (ValidTasks-Extends db one tasks kept v.1) w')

insert_array-Follows :
    (now array_id : String) (tasks : List JobDef) (db db' : Db)
    → insert_array now array_id tasks db ≡ ok db'
    → Wf db
    → Follows db db'
unfolding insert_array
insert_array-Follows now array_id tasks db db' h w =
    let (named, h1) = >>-eq-ok (guard (not (str_eq array_id "")) other) _ h in
    let (some_task, h2) = >>-eq-ok (guard (not (is_empty tasks)) other) _ h1 in
    let (valid, h3) = >>-eq-ok (validate_tasks db tasks) _ h2 in
    insert_tasks-Follows now tasks db db' h3 (validate_tasks-ValidTasks db tasks valid) w

module _ (id : String) (s : StatusCode) (db db' : Db) (q : StatusCode → Bool)
    (may : (t : StatusCode) → q t ≡ true → may_step t s ≡ true)
    (was : status_test q (status_of db id) ≡ true) where
  Settles-Follows : Settles s id db db' → Follows db db'
  Settles-Follows h k = elim (Bool-cases (str_eq id k)) [
    | inl e ↦
        let same : id ≡ k = (eq_iff id k).0 e in
        moved (status_of db k) (status_of db' k) s q may (rw (← same) was) (h k ∙ rw e refl)
    | inr n ↦ let same : status_of db' k ≡ status_of db k = h k ∙ rw n refl in rw same here
  ]

  Topples-Follows : Topples s id db db' → Follows db db'
  Topples-Follows (ended, others) k = elim (Bool-cases (str_eq id k)) [
    | inl e ↦
        let same : id ≡ k = (eq_iff id k).0 e in
        rw (← same) (moved (status_of db id) (status_of db' id) s q may was ended)
    | inr n ↦ elim ((others k n).0) [
      | inl same ↦ rw same here
      | inr (l, gone) ↦ moved (status_of db k) (status_of db' k) canceled is_live cancels l gone
    ]
  ]

-- An end follows what a runner has in hand.
runs_end : (s t : StatusCode) → is_end s ≡ true → is t running ≡ true → may_step t s ≡ true
unfolding may_step is_end is may_start is_live
runs_end s t e h = ground arith

proxied_end : (s t : StatusCode) → is_end s ≡ true → is_proxied t ≡ true → may_step t s ≡ true
unfolding may_step is_end is may_start is_live is_proxied
proxied_end s t e h = ground arith

end_job-Follows :
    (now id runner : String) (code : ℤ) (notes : String) (db db' : Db)
    → end_job now id runner code notes db ≡ ok db'
    → Wf db
    → Follows db db'
end_job-Follows now id runner code notes db db' h w =
    let (owns, ran, w', outcome) = end_job_exact now id runner code notes db db' h w in
    let was : status_test (λ t. is t running) (status_of db id) ≡ true =
      rw ran (unfold is in refl) in
    elim outcome [
      | inl (z, settles) ↦
          Settles-Follows id success db db' (λ t. is t running)
            (λ t. runs_end success t (unfold is_end is in refl)) was settles
      | inr (nz, topples) ↦
          Topples-Follows id failed db db' (λ t. is t running)
            (λ t. runs_end failed t (unfold is_end is in refl)) was topples
    ]

end_of : (s : EndStatus) → is_end (end_status s) ≡ true
unfolding is_end is
end_of EndStatus.succeeded = refl
end_of EndStatus.failed = refl
end_of EndStatus.canceled = refl

end_proxied_job-Follows :
    (now id : String) (s : EndStatus) (start end_time : String) (code : ℤ) (notes : String)
    (db db' : Db)
    → end_proxied_job now id (end_status s) start end_time code notes db ≡ ok db'
    → Wf db
    → Follows db db'
end_proxied_job-Follows now id s start end_time code notes db db' h w =
    let t = end_status s in
    let may : (u : StatusCode) → is_proxied u ≡ true → may_step u t ≡ true =
      λ u. proxied_end t u (end_of s) in
    let (w', outcome) =
      end_proxied_job_exact now id t start end_time code notes db db' (ends s) h w in
    elim outcome [
      | inl (was, inl (good, settles)) ↦ Settles-Follows id t db db' is_proxied may was settles
      | inl (was, inr (bad, topples)) ↦ Topples-Follows id t db db' is_proxied may was topples
      | inr (already_ended, same) ↦ λ k. rw (same k) here
    ]

or_before-Follows :
    (db : Db) (m : Result Db)
    → ((db' : Db) → m ≡ ok db' → Follows db db')
    → Follows db (or_before db m)
or_before-Follows db (ok db') h = h db' refl
or_before-Follows db (err e) h = Follows-refl db

second-Follows {ℓ} :
    {A : Type ℓ} (db : Db) (m : Result (A × Db))
    → ((r : A × Db) → m ≡ ok r → Follows db r.1)
    → Follows db (second db m)
second-Follows db (ok (a, db')) h = h (a, db') refl
second-Follows db (err e) h = Follows-refl db

-- Every request but the removal of a job.
abbrev pub keeps_jobs : Request → Bool
keeps_jobs (Request.cleanup id) = false
keeps_jobs _ = true

module _ (cast : String → ℤ) where
  serve-Follows :
      (now : String) (r : Request) (db : Db)
      → keeps_jobs r ≡ true
      → Wf db
      → Follows db (serve cast now r db)
  unfolding serve update_running_details
  serve-Follows now (Request.submit job) db e w = or_before-Follows db _ (λ db' h.
      let (w', valid, free, added) = insert_job_exact now job db db' h w in
      Adds-Follows job db db' free added)
  serve-Follows now (Request.submit_array a tasks) db e w =
      or_before-Follows db _ (λ db' h. insert_array-Follows now a tasks db db' h w)
  serve-Follows now Request.resolve db e w = resolve_dependencies-Follows now db w
  serve-Follows now (Request.claim runner kind limits) db e w =
      second-Follows db _ (λ r h. claim_next_job-Follows now runner kind limits db r h w)
  serve-Follows now (Request.claim_batch runner kind limits max_tasks min_tasks full) db e w =
      second-Follows db _ (λ r h.
        claim_next_array_batch-Follows cast now runner kind limits max_tasks min_tasks full db r h
          w)
  serve-Follows now (Request.proxied id runner ds) db e w =
      or_before-Follows db _ (λ db' h. mark_job_proxied-Follows id runner ds db db' h)
  serve-Follows now (Request.details id ds) db e w =
      or_before-Follows db _
        (λ db' h. SameStates-Follows (put_running_details-SameStates id ds db db' h))
  serve-Follows now (Request.finish id runner code notes) db e w =
      or_before-Follows db _ (λ db' h. end_job-Follows now id runner code notes db db' h w)
  serve-Follows now (Request.report id s start end_time code notes) db e w =
      or_before-Follows db _
        (λ db' h. end_proxied_job-Follows now id s start end_time code notes db db' h w)
  serve-Follows now (Request.cancel id reason) db e w =
      or_before-Follows db _ (λ db' h. cancel_job-Follows now id reason db db' h w)
  serve-Follows now (Request.cancel_tasks a reason) db e w =
      second-Follows db _ (λ r h. cancel_array-Follows now a reason db r.1 h w)
  serve-Follows now (Request.hold id) db e w = hold_job-Follows id db
  serve-Follows now (Request.release id) db e w = release_job-Follows id db
  serve-Follows now (Request.hold_tasks a) db e w = hold_array-Follows a db
  serve-Follows now (Request.release_tasks a) db e w = release_array-Follows a db
  serve-Follows now (Request.adjust id delta) db e w = adjust_job_priority-Follows id delta db
  serve-Follows now (Request.adjust_tasks a delta) db e w = adjust_array_priority-Follows a delta db
  serve-Follows now (Request.cleanup id) db e w = cc

  abbrev pub keep_jobs : List (String × Request) → Bool
  keep_jobs [] = true
  keep_jobs ((now, r) ∷ rest) = keeps_jobs r && keep_jobs rest

  pub run-Follows :
      (requests : List (String × Request)) (db : Db)
      → keep_jobs requests ≡ true
      → Wf db
      → Follows db (run cast requests db)
  unfolding run
  run-Follows [] db e w = Follows-refl db
  run-Follows ((now, r) ∷ rest) db e w =
      Follows-trans db (serve cast now r db) (run cast rest (serve cast now r db))
        (serve-Follows now r db (ground arith) w)
        (run-Follows rest (serve cast now r db) (ground arith) (serve-Wf cast now r db w))

  -- A job at its end keeps that state, whatever is requested but the removal of jobs.
  pub run-end :
      (requests : List (String × Request)) (db : Db) (k : String) (s : StatusCode)
      → keep_jobs requests ≡ true
      → Wf db
      → status_of db k ≡ some s
      → is_live s ≡ false
      → status_of (run cast requests db) k ≡ some s
  run-end requests db k s e w was dead = Reaches-end s dead (run-Follows requests db e w k) was
