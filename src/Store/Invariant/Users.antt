-- ===== src/Store/Invariant/Users.antt =====
-- Holding, releasing and moving jobs keeps the invariant of the store (storage/sqlite.go).
use batchq.Shared.{◌≡◌, refl, Bool, arith, String, str_eq, Bool-cases, inl, inr}
use batchq.Shared.Int.{ℤ, is_zero}
use batchq.Job.Status.{StatusCode, userhold, waiting, is_live, is_bad}
use batchq.Store.Db.{JobRow, Db, update, update_job, status_of, has_detail}
use batchq.Store.Laws.{status_of-update_where, status_of-update_keeps, Unique-update}
use batchq.Store.Transition.{
  hold_job, release_job, adjust_job_priority, hold_array, release_array, adjust_array_priority,
  update_array, is_pending, is_held, set_held, set_released, add_priority,
}
use batchq.Store.Wf.{Wf, is_idle, is_active}
use batchq.Store.Invariant.Updates.{
  SetsStatus, SetsStatus-Wf, SameStates, SameStates-Wf, update_job-SetsStatus,
}

pub update_array-SetsStatus :
    (array_id : String) (q : StatusCode → Bool) (f : JobRow → JobRow) (s : StatusCode) (db : Db)
    → ((r : JobRow) → (f r).id ≡ r.id)
    → ((r : JobRow) → (f r).status ≡ s)
    → SetsStatus (has_detail db "array_id" array_id) q s db (update_array array_id q f db).1
unfolding update_array
update_array-SetsStatus array_id q f s db keeps_id sets = record {
  status = λ k.
      unfold status_of in
      status_of-update_where (has_detail db "array_id" array_id) q f s db.jobs k keeps_id sets;
  deps = refl;
  running = refl;
  keys = Unique-update _ f db.jobs keeps_id;
}

-- A pending job that becomes held or waiting stays pending.
module _ (p : String → Bool) (db db' : Db) where
  held-Wf : SetsStatus p is_pending userhold db db' → Wf db → Wf db'
  unfolding is_pending is_live is_bad is_idle is_active
  held-Wf effect w = SetsStatus-Wf effect (λ t h. ground arith) refl (λ t h. ground arith) w

  released-Wf : SetsStatus p is_held waiting db db' → Wf db → Wf db'
  unfolding is_held is_live is_bad is_idle is_active
  released-Wf effect w = SetsStatus-Wf effect (λ t h. ground arith) refl (λ t h. ground arith) w

pub hold_job-Wf : (id : String) (db : Db) → Wf db → Wf (hold_job id db).1
unfolding hold_job set_held
hold_job-Wf id db w =
    held-Wf (str_eq id) db _
      (update_job-SetsStatus id is_pending set_held userhold db (λ r. refl) (λ r. refl)) w

pub release_job-Wf : (id : String) (db : Db) → Wf db → Wf (release_job id db).1
unfolding release_job set_released
release_job-Wf id db w =
    released-Wf (str_eq id) db _
      (update_job-SetsStatus id is_held set_released waiting db (λ r. refl) (λ r. refl)) w

pub hold_array-Wf : (array_id : String) (db : Db) → Wf db → Wf (hold_array array_id db).1
unfolding hold_array set_held
hold_array-Wf array_id db w =
    held-Wf (has_detail db "array_id" array_id) db _
      (update_array-SetsStatus array_id is_pending set_held userhold db (λ r. refl) (λ r. refl)) w

pub release_array-Wf : (array_id : String) (db : Db) → Wf db → Wf (release_array array_id db).1
unfolding release_array set_released
release_array-Wf array_id db w =
    released-Wf (has_detail db "array_id" array_id) db _
      (update_array-SetsStatus array_id is_held set_released waiting db (λ r. refl) (λ r. refl)) w

pub priority-SameStates :
    (p : JobRow → Bool) (delta : ℤ) (db : Db)
    → SameStates db (record db { jobs = update p (add_priority delta) db.jobs })
unfolding add_priority status_of
priority-SameStates p delta db = record {
  status = λ k. status_of-update_keeps p (add_priority delta) db.jobs k (λ r. refl) (λ r. refl);
  deps = refl;
  running = refl;
  keys = Unique-update p (add_priority delta) db.jobs (λ r. refl);
}

pub adjust_job_priority-Wf :
    (id : String) (delta : ℤ) (db : Db) → Wf db → Wf (adjust_job_priority id delta db).1
unfolding adjust_job_priority update_job
adjust_job_priority-Wf id delta db w = elim (Bool-cases (is_zero delta)) [
  | inl z ↦ rw z w
  | inr nz ↦ rw nz (SameStates-Wf (priority-SameStates _ delta db) w)
]

pub adjust_array_priority-Wf :
    (array_id : String) (delta : ℤ) (db : Db)
    → Wf db
    → Wf (adjust_array_priority array_id delta db).1
unfolding adjust_array_priority update_array
adjust_array_priority-Wf array_id delta db w = elim (Bool-cases (is_zero delta)) [
  | inl z ↦ rw z w
  | inr nz ↦ rw nz (SameStates-Wf (priority-SameStates _ delta db) w)
]
