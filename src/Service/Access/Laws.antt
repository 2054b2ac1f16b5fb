-- ===== src/Service/Access/Laws.antt =====
-- Who may change a job, and what a change keeps (service/service.go).
use batchq.Shared.{
  ◌≡◌, refl, ap, ℕ, ◌⊎◌, ◌↔◌, inl, inr, true, false, Option, none, some, arith, String, str_eq,
  ◌==◌, ==_iff, Bool-cases, Option-cases, if◌then◌else◌,
}
use batchq.Shared.Result.{Error, Result, ok, err, not_found, invalid_state, forbidden, guard-eq-ok}
use batchq.Shared.Text.{trim_space}
use batchq.Job.Status.{StatusCode, is, is_live}
use batchq.Store.Db.{JobRow, Db, find_row, job_detail, status_of, depends_on}
use batchq.Store.Wf.{Wf}
use batchq.Store.Invariant.Cancels.{cancel_job-Wf, cancel_array-Wf}
use batchq.Store.Invariant.Users.{hold_job-Wf, release_job-Wf, hold_array-Wf, release_array-Wf}
use batchq.Store.Invariant.Resolves.{resolve_dependencies-Wf}
use batchq.Store.Cancel.{cancel_job, cancel_array}
use batchq.Store.Transition.{release_job}
use batchq.Store.Cleanup.Removal.{cleanup_job_exact}
use batchq.Service.Access.{
  parse_uint32, owner_check, authorize_job_action, UserAction, cancel, hold, release,
  default_reason, saved, committed, then_resolve, guarded, job_action, array_action,
  user_job_action, user_cleanup_job, is_terminal,
}

err≢ok : {A : Type 0} (e : Error) (a : A) → err e ≡ ok a → ⊥
err≢ok e a h = cc

Result-cases : (r : Result (Unit {0})) → (r ≡ ok tt) ⊎ ((e : Error) × (r ≡ err e))
Result-cases (ok u) = inl refl
Result-cases (err e) = inr (e, refl)

-- The job is in the table, and its uid detail is the number of the user.
abbrev pub Owns : ℕ → String → Db → Type 0
Owns uid id db =
    (r : JobRow) × (find_row id db.jobs ≡ some r)
    × (parse_uint32 (trim_space (job_detail db id "uid")) ≡ some uid)

owner_check-ok : (uid : ℕ) (o : Option ℕ) → (owner_check uid o ≡ ok tt) ↔ (o ≡ some uid)
owner_check-ok uid none = (λ h. cc, λ h. cc)
owner_check-ok uid (some owner) = (
  λ h. ap some ((==_iff owner uid).0 (guard-eq-ok (owner == uid) forbidden h)),
  λ e. let same : owner ≡ uid = cc in rw ((==_iff owner uid).1 same) refl,
)

authorize_job_action-ok :
    (uid : ℕ) (id : String) (db : Db)
    → (authorize_job_action (some uid) id db ≡ ok tt) ↔ ((uid ≡ 0) ⊎ Owns uid id db)
unfolding authorize_job_action
authorize_job_action-ok uid id db = elim (Bool-cases (uid == 0)) [
  | inl root ↦ (λ h. inl ((==_iff uid 0).0 root), λ h. rw root refl)
  | inr other ↦ elim (Option-cases (find_row id db.jobs)) [
    | inl e ↦ (
      λ h. absurd (err≢ok not_found tt (rw (other, e, authorize_job_action) at h)),
      λ who. elim who [
        | inl zero_uid ↦ absurd (ground arith)
        | inr (r, found, owns) ↦ absurd (ground (arith, e, found))
      ],
    )
    | inr (r, e) ↦ (
      λ h. inr (
        r,
        e,
        (owner_check-ok uid (parse_uint32 (trim_space (job_detail db id "uid")))).0
            (rw (other, e, authorize_job_action) at h),
      ),
      λ who. elim who [
        | inl zero_uid ↦ absurd (ground arith)
        | inr (x, found, owns) ↦
            rw (other, e, authorize_job_action)
              ((owner_check-ok uid (parse_uint32 (trim_space (job_detail db id "uid")))).1 owns)
      ],
    )
  ]
]

-- A user other than root who does not own a job has no effect on it by canceling, holding or releasing:
-- an error is returned and the tables are as before. Root and the owner act as the store does.
pub user_job_action-owner :
    (uid : ℕ) (now id : String) (act : UserAction) (db : Db)
    → (((uid ≡ 0) ⊎ Owns uid id db)
        → user_job_action (some uid) now id act db ≡ job_action now id act db)
      × (¬ ((uid ≡ 0) ⊎ Owns uid id db)
          → (e : Error) × (user_job_action (some uid) now id act db ≡ (err e, db)))
unfolding user_job_action
user_job_action-owner uid now id act db = (
  λ who. rw ((authorize_job_action-ok uid id db).1 who) refl,
  λ stranger. elim (Result-cases (authorize_job_action (some uid) id db)) [
    | inl passed ↦ absurd (stranger ((authorize_job_action-ok uid id db).0 passed))
    | inr (e, refused) ↦ (e, rw refused refl)
  ],
)

saved-Wf :
    (m : Result Db) (db : Db) → ((db' : Db) → m ≡ ok db' → Wf db') → Wf db → Wf (saved db m).1
saved-Wf (ok db') db h w = h db' refl
saved-Wf (err e) db h w = w

committed-Wf :
    (m : Result (ℕ × Db)) (db : Db)
    → ((n : ℕ) (db' : Db) → m ≡ ok (n, db') → Wf db')
    → Wf db
    → Wf (committed db m).1
committed-Wf (ok (n, db')) db h w = h n db' refl
committed-Wf (err e) db h w = w

then_resolve-Wf : (now : String) (r : Result (Unit {0}) × Db) → Wf r.1 → Wf (then_resolve now r).1
then_resolve-Wf now (ok u, db) w = resolve_dependencies-Wf now db w
then_resolve-Wf now (err e, db) w = w

job_action-Wf :
    (now id : String) (act : UserAction) (db : Db) → Wf db → Wf (job_action now id act db).1
unfolding job_action
job_action-Wf now id (cancel reason) db w =
    saved-Wf (cancel_job now id (default_reason reason) db) db
      (λ db' h. cancel_job-Wf now id (default_reason reason) db db' h w) w
job_action-Wf now id hold db w = hold_job-Wf id db w
job_action-Wf now id release db w = then_resolve-Wf now (release_job id db) (release_job-Wf id db w)

array_action-Wf :
    (now array_id : String) (act : UserAction) (db : Db)
    → Wf db
    → Wf (array_action now array_id act db).1
unfolding array_action
array_action-Wf now array_id (cancel reason) db w =
    committed-Wf (cancel_array now array_id (default_reason reason) db) db
      (λ n db' h. cancel_array-Wf now array_id (default_reason reason) db db' h w) w
array_action-Wf now array_id hold db w = hold_array-Wf array_id db w
array_action-Wf now array_id release db w =
    resolve_dependencies-Wf now _ (release_array-Wf array_id db w)

guarded-Wf :
    (g : Result (Unit {0})) (db : Db) (r : Result (Unit {0}) × Db)
    → Wf db
    → Wf r.1
    → Wf (guarded g db r).1
guarded-Wf (ok u) db r w w' = w'
guarded-Wf (err e) db r w w' = w

terminal_ended : (s : StatusCode) → is_terminal s ≡ true → is_live s ≡ false
unfolding is_terminal is_live is
terminal_ended s h = ground arith

-- A user's removal of one job, where it succeeds, took a job at its end on which no other depended. It
-- keeps the tables well-formed and the states of all other jobs.
pub user_cleanup_job_exact :
    (id : String) (db db' : Db)
    → user_cleanup_job id db ≡ ok db'
    → Wf db
    → ((s : StatusCode) × (status_of db id ≡ some s) × (is_live s ≡ false))
      × ((j : String) → depends_on db.deps j id ≡ true → j ≡ id)
      × Wf db'
      × ((k : String) → status_of db' k ≡ (if str_eq id k then none else status_of db k))
unfolding user_cleanup_job status_of
user_cleanup_job_exact id db db' h w = elim (Option-cases (find_row id db.jobs)) [
  | inl e ↦ absurd (err≢ok not_found db' (rw (e, user_cleanup_job) at h))
  | inr (r, e) ↦ elim (Bool-cases (is_terminal r.status)) [
    | inr alive ↦ absurd (err≢ok invalid_state db' (rw (e, alive, user_cleanup_job) at h))
    | inl ended ↦
        let (w', gone, free) =
          cleanup_job_exact id db db' (rw (e, ended, user_cleanup_job) at h) w in
        ((r.status, rw e refl, terminal_ended r.status ended), free, w', gone)
  ]
]
