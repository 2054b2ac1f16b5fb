-- ===== src/Store/Cancel/Effect.antt =====
-- What `cancelOne` and a batch of cancellations do to the states of the jobs (storage/sqlite.go).
use batchq.Shared.{
  suc, ◌+◌, ◌≤◌, ◌≡◌, refl, true, false, ◌&&◌, ◌∙◌, some, List, [], ◌∷◌, arith, eq_iff, eq_refl,
  String, str_eq, contains, tally, length, if◌then◌else◌,
}
use batchq.Shared.Result.{ok}
use batchq.Job.Status.{is_live, canceled}
use batchq.Store.Db.{
  JobRow, Db, update, update_job, find_row, status_of, live, status_test, row_status,
}
use batchq.Store.Laws.{Unique, Unique-update_job, status_of-update_job, live_count}
use batchq.Store.Cancel.{set_canceled, cancel_row, cancel_one, cancel_all}

-- The cancellations of a batch: its live jobs become CANCELED; all else stays as it was.
pub record CancelsAll (cs : List String) (db db' : Db) : Type 0 where
  pub status :
      (k : String)
      → status_of db' k ≡ (if contains cs k && live db k then some canceled else status_of db k)
  pub deps : db'.deps ≡ db.deps
  pub running : db'.running ≡ db.running
  pub keys : Unique db.jobs → Unique db'.jobs

pub status_of-cancel_row :
    (now id reason : String) (db : Db) (k : String)
    → status_of (cancel_row now id reason db) k
      ≡ (if str_eq id k && live db k then some canceled else status_of db k)
unfolding cancel_row set_canceled
status_of-cancel_row now id reason db k =
    status_of-update_job id is_live (set_canceled now reason) canceled db (λ r. refl) (λ r. refl) k

pub cancel_one-CancelsAll :
    (now id reason : String) (db : Db)
    → live db id ≡ true
    → cancel_one now id reason db ≡ ok (cancel_row now id reason db)
unfolding cancel_one status_of
cancel_one-CancelsAll now id reason db h = ground arith

update-le-rows :
    (now id reason : String) (rows : List JobRow)
    → tally
        (λ x. is_live x.status)
        (update (λ x. str_eq x.id id && is_live x.status) (set_canceled now reason) rows)
      ≤ tally (λ x. is_live x.status) rows
unfolding tally update set_canceled is_live
update-le-rows now id reason [] = omega arith
update-le-rows now id reason (x ∷ xs) = ground (arith, update-le-rows now id reason xs)

drop_live_rows :
    (now id reason : String) (rows : List JobRow)
    → status_test is_live (row_status (find_row id rows)) ≡ true
    → suc (
        tally
          (λ x. is_live x.status)
          (update (λ x. str_eq x.id id && is_live x.status) (set_canceled now reason) rows))
      ≤ tally (λ x. is_live x.status) rows
unfolding tally update find_row set_canceled is_live
drop_live_rows now id reason [] h = absurd (ground arith)
drop_live_rows now id reason (x ∷ xs) h =
    ground (arith, update-le-rows now id reason xs, drop_live_rows now id reason xs)

pub cancel_row-live_count :
    (now id reason : String) (db : Db)
    → live db id ≡ true
    → suc (live_count (cancel_row now id reason db)) ≤ live_count db
unfolding cancel_row update_job status_of
cancel_row-live_count now id reason db h = drop_live_rows now id reason db.jobs h

abbrev pub Distinct : List String → Type 0
Distinct [] = Unit
Distinct (c ∷ cs) = (contains cs c ≡ false) × Distinct cs

pub deps-cancel_row :
    (now id reason : String) (db : Db) → (cancel_row now id reason db).deps ≡ db.deps
unfolding cancel_row update_job
deps-cancel_row now id reason db = refl

pub running-cancel_row :
    (now id reason : String) (db : Db) → (cancel_row now id reason db).running ≡ db.running
unfolding cancel_row update_job
running-cancel_row now id reason db = refl

pub Unique-cancel_row :
    (now id reason : String) (db : Db) → Unique db.jobs → Unique (cancel_row now id reason db).jobs
unfolding cancel_row set_canceled
Unique-cancel_row now id reason db u =
    Unique-update_job id is_live (set_canceled now reason) db (λ r. refl) u

cancel_row-CancelsAll :
    (now id reason : String) (db : Db) (cs : List String) (db' : Db)
    → CancelsAll cs (cancel_row now id reason db) db'
    → CancelsAll (id ∷ cs) db db'
unfolding contains is_live
cancel_row-CancelsAll now id reason db cs db' c = record {
  status = λ k. ground (arith, c.status k, status_of-cancel_row now id reason db k);
  deps = c.deps ∙ deps-cancel_row now id reason db;
  running = c.running ∙ running-cancel_row now id reason db;
  keys = λ u. c.keys (Unique-cancel_row now id reason db u);
}

still_live :
    (now c reason : String) (cs : List String) (db : Db)
    → ((k : String) → contains (c ∷ cs) k ≡ true → live db k ≡ true)
    → contains cs c ≡ false
    → (k : String) → contains cs k ≡ true
    → live (cancel_row now c reason db) k ≡ true
unfolding contains
still_live now c reason cs db all new k h =
    ground (arith, eq_iff c k, status_of-cancel_row now c reason db k, all k)

-- A batch of live jobs without repetition is canceled whole, with no error, and the number of live
-- jobs falls by its length.
pub cancel_all-CancelsAll :
    (now : String) (cs : List String) (reason : String) (db : Db)
    → ((c : String) → contains cs c ≡ true → live db c ≡ true)
    → Distinct cs
    → (db' : Db) × (cancel_all now cs reason db ≡ ok db')
      × CancelsAll cs db db'
      × (live_count db' + length cs ≤ live_count db)
unfolding cancel_all contains
cancel_all-CancelsAll now [] reason db all d = (
  db,
  refl,
  record { status = λ k. refl; deps = refl; running = refl; keys = λ u. u },
  omega arith,
)
cancel_all-CancelsAll now (c ∷ cs) reason db all d =
    let one = cancel_row now c reason db in
    let is_one = cancel_one-CancelsAll now c reason db (all c (rw eq_refl refl)) in
    let (db', eq, effect, count) =
      cancel_all-CancelsAll now cs reason one (still_live now c reason cs db all d.0) d.1 in
    (
      db',
      rw is_one eq,
      cancel_row-CancelsAll now c reason db cs db' effect,
      omega (arith, cancel_row-live_count now c reason db (all c (rw eq_refl refl))),
    )
