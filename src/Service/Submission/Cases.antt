-- ===== src/Service/Submission/Cases.antt =====
-- What one submission does to the tables, and how it answers (service/service.go).
use batchq.Shared.{
  ◌≡◌, refl, ◌∙◌, eq_refl, ℕ, ◌⊎◌, inl, inr, Bool, true, false, not, ◌&&◌, ◌||◌, Option, some, List,
  String, str_eq, arith, Bool-cases,
}
use batchq.Shared.Result.{Error, Result, ok, err, Result-cases}
use batchq.Store.Db.{Db, status_of}
use batchq.Job.Status.{StatusCode}
use batchq.Job.Def.{JobDef}
use batchq.Store.Submit.{insert_job, initial_status}
use batchq.Store.Wf.{Wf}
use batchq.Store.Invariant.Inserts.{insert_job_exact}
use batchq.Service.Submission.{
  SubmitRequest, PeerCreds, Lookup, attested, all_after_ok, job_of, is_known, after_insert,
  submit_new, chosen_id, check_request, submit_job,
}

abbrev pub Answers : Result String → (id : String) → (known : Bool) → Type 0
Answers r id known = ((e : Error) × (r ≡ err e)) ⊎ ((r ≡ ok id) × (known ≡ true))

after_insert-cases :
    (req : SubmitRequest) (id : String) (db : Db) (m : Result Db)
    → (((after_insert req id db m).1 ≡ db)
        × Answers (after_insert req id db m).0 id (is_known db id))
      ⊎ (((after_insert req id db m).0 ≡ ok id) × (m ≡ ok (after_insert req id db m).1))
unfolding after_insert
after_insert-cases req id db (ok db') = inr (refl, refl)
after_insert-cases req id db (err e) =
    elim (Bool-cases (not (str_eq req.job_id "") && is_known db id)) [
      | inl raced ↦ inl (refl, inr (rw raced refl, ground (arith, raced)))
      | inr failed ↦ inl (refl, inl (e, rw failed refl))
    ]

module _ (now fresh : String) (lookup : ℕ → Lookup) (peer : Option PeerCreds) (others : Db → Db)
    (req : SubmitRequest) (db : Db) where
  abbrev pub own_id : String
  own_id = chosen_id fresh req

  abbrev pub outcome : Result String × Db
  outcome = submit_job now fresh lookup peer others req db

  abbrev pub is_repeated : Bool
  is_repeated = not (str_eq req.job_id "") && is_known db own_id

  abbrev pub next : Result (List String) → Result String × Db
  next after_ok = submit_new now own_id after_ok (attested lookup peer req.details) req (others db)

  submit_job-refused :
      (e : Error)
      → check_request req ≡ err e
      → submit_job now fresh lookup peer others req db ≡ (err e, others db)
  unfolding submit_job
  submit_job-refused e refused = rw (refused, submit_job) refl

  submit_job-repeated :
      check_request req ≡ ok tt
      → is_repeated ≡ true
      → submit_job now fresh lookup peer others req db ≡ (ok own_id, others db)
  unfolding submit_job
  submit_job-repeated passed again = rw (passed, submit_job) (rw again refl)

  submit_job-next :
      check_request req ≡ ok tt
      → is_repeated ≡ false
      → submit_job now fresh lookup peer others req db ≡ next (all_after_ok db req)
  unfolding submit_job
  submit_job-next passed first = rw (passed, submit_job) (rw first refl)

  abbrev pub Inserted : Result String × Db → List String → Type 0
  Inserted out after_ok =
      (out.0 ≡ ok own_id)
      × (insert_job now (job_of own_id req after_ok (attested lookup peer req.details)) (others db)
          ≡ ok out.1)

  abbrev pub Settled : Result String × Db → Type 0
  Settled out =
      ((out.1 ≡ others db)
        × Answers out.0 own_id (is_known db own_id || is_known (others db) own_id))
      ⊎ ((after_ok : List String) × Inserted out after_ok)

  next-cases : (m : Result (List String)) → Settled (next m)
  unfolding submit_new
  next-cases (err e) = inl (refl, inl (e, refl))
  next-cases (ok after_ok) =
      elim (after_insert-cases req own_id (others db) (
        insert_job now (job_of own_id req after_ok (attested lookup peer req.details))
          (others db))) [
            | inl (e, inl failed) ↦ inl (e, inl failed)
            | inl (e, inr (made, raced)) ↦ inl (e, inr (made, ground (arith, raced)))
            | inr h ↦ inr (after_ok, h)
          ]

  -- What a submission does: nothing, or one insertion of the job of the request.
  pub submit_job-cases : Settled outcome
  submit_job-cases = elim (Result-cases (check_request req)) [
    | inr (e, refused) ↦ rw (submit_job-refused e refused) (inl (refl, inl (e, refl)))
    | inl (u, passed) ↦ elim (Bool-cases is_repeated) [
      | inl again ↦
          rw (submit_job-repeated passed again) (inl (refl, inr (refl, ground (arith, again))))
      | inr first ↦ rw (submit_job-next passed first) (next-cases (all_after_ok db req))
    ]
  ]

status-known :
    (db : Db) (id : String) (s : StatusCode) → status_of db id ≡ some s → is_known db id ≡ true
unfolding status_of
status-known db id s h = ground arith

-- An insertion finds no job of its id, and leaves one.
pub insert_job-known :
    (now : String) (job : JobDef) (db db' : Db)
    → insert_job now job db ≡ ok db'
    → Wf db
    → (is_known db job.job_id ≡ false) × (is_known db' job.job_id ≡ true) × Wf db'
unfolding status_of
insert_job-known now job db db' h w =
    let (w', parents, free, added) = insert_job_exact now job db db' h w in
    (
      ground (arith, free),
      status-known db' job.job_id (initial_status job)
          (added job.job_id ∙ rw (eq_refl job.job_id) refl),
      w',
    )
