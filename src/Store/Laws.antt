-- ===== src/Store/Laws.antt =====
-- What an UPDATE does to what the other statements read.
use batchq.Shared.{
  ℕ, ◌≡◌, refl, Bool, ◌&&◌, Option, none, some, List, [], ◌∷◌, arith, eq_iff, String, str_eq,
  Bool-cases, inl, inr, Option-cases, tally, if◌then◌else◌, ◌==◌,
}
use batchq.Job.Status.{StatusCode, is_live}
use batchq.Store.Db.{
  JobRow, Db, update, update_job, affected, find_row, row_status, status_of, status_test,
  status_test,
}

abbrev pub when_row : (JobRow → Bool) → (JobRow → JobRow) → Option JobRow → Option JobRow
when_row p f none = none
when_row p f (some r) = some (if p r then f r else r)

module _ (p : JobRow → Bool) (f : JobRow → JobRow) (keeps_id : (r : JobRow) → (f r).id ≡ r.id) where
  -- An UPDATE that keeps the ids is read back row by row.
  pub find_row-update :
      (k : String) (rows : List JobRow)
      → find_row k (update p f rows) ≡ when_row p f (find_row k rows)
  unfolding find_row update
  find_row-update k [] = refl
  find_row-update k (r ∷ rs) = ground (arith, keeps_id r, find_row-update k rs)

pub find_row-id :
    (k : String) (rows : List JobRow) (r : JobRow) → find_row k rows ≡ some r → r.id ≡ k
unfolding find_row
find_row-id k [] r h = cc
find_row-id k (x ∷ xs) r h = ground (arith, eq_iff x.id k, find_row-id k xs r)

abbrev pub live_count : Db → ℕ
live_count db = tally (λ r. is_live r.status) db.jobs

-- An UPDATE of one job to the state `s` shows at that job, where its test passed, and nowhere else.
pub status_of-update_job :
    (id : String) (q : StatusCode → Bool) (f : JobRow → JobRow) (s : StatusCode) (db : Db)
    (keeps_id : (r : JobRow) → (f r).id ≡ r.id) (sets : (r : JobRow) → (f r).status ≡ s)
    (k : String)
    → status_of (update_job id q f db) k
      ≡ (if str_eq id k && status_test q (status_of db k) then some s else status_of db k)
unfolding status_of update_job
status_of-update_job id q f s db keeps_id sets k =
    rw (find_row-update (λ r. str_eq r.id id && q r.status) f keeps_id k db.jobs)
      (elim (Option-cases (find_row k db.jobs)) [
        | inl e ↦ rw e (ground arith)
        | inr (r, e) ↦
            rw e (ground (arith, sets r, find_row-id k db.jobs r e, eq_iff id k, eq_iff r.id id))
      ])

-- An UPDATE that keeps ids and states does not show in the states.
pub status_of-update_keeps :
    (p : JobRow → Bool) (f : JobRow → JobRow) (rows : List JobRow) (k : String)
    → ((r : JobRow) → (f r).id ≡ r.id)
    → ((r : JobRow) → (f r).status ≡ r.status)
    → row_status (find_row k (update p f rows)) ≡ row_status (find_row k rows)
status_of-update_keeps p f rows k keeps_id keeps_status =
    rw (find_row-update p f keeps_id k rows) (elim (Option-cases (find_row k rows)) [
      | inl e ↦ rw e refl
      | inr (r, e) ↦ rw e (ground (arith, keeps_status r))
    ])

-- An UPDATE of all rows whose id and state pass two tests.
pub status_of-update_where :
    (p : String → Bool) (q : StatusCode → Bool) (f : JobRow → JobRow) (s : StatusCode)
    (rows : List JobRow) (k : String)
    → ((r : JobRow) → (f r).id ≡ r.id)
    → ((r : JobRow) → (f r).status ≡ s)
    → row_status (find_row k (update (λ r. p r.id && q r.status) f rows)) ≡ (
        if p k && status_test q (row_status (find_row k rows))
        then some s
        else row_status (find_row k rows))
status_of-update_where p q f s rows k keeps_id sets =
    rw (find_row-update (λ r. p r.id && q r.status) f keeps_id k rows)
      (elim (Option-cases (find_row k rows)) [
        | inl e ↦ rw e (ground arith)
        | inr (r, e) ↦
            let same : r.id ≡ k = find_row-id k rows r e in rw (e, ← same) (ground (arith, sets r))
      ])

-- The primary key of `jobs`: no two rows have one id.
abbrev pub Unique : List JobRow → Type 0
Unique [] = Unit
Unique (r ∷ rows) = (find_row r.id rows ≡ none) × Unique rows

pub Unique-update :
    (p : JobRow → Bool) (f : JobRow → JobRow) (rows : List JobRow)
    → ((r : JobRow) → (f r).id ≡ r.id)
    → Unique rows
    → Unique (update p f rows)
unfolding update
Unique-update p f [] keeps_id u = tt
Unique-update p f (r ∷ rows) keeps_id u = (absent, Unique-update p f rows keeps_id u.1)
  where
    same_id : (if p r then f r else r).id ≡ r.id
    same_id = ground (arith, keeps_id r)

    absent : find_row (if p r then f r else r).id (update p f rows) ≡ none
    absent = rw same_id (rw (find_row-update p f keeps_id r.id rows) (rw u.0 refl))

pub Unique-update_job :
    (id : String) (q : StatusCode → Bool) (f : JobRow → JobRow) (db : Db)
    → ((r : JobRow) → (f r).id ≡ r.id)
    → Unique db.jobs
    → Unique (update_job id q f db).jobs
unfolding update_job
Unique-update_job id q f db keeps_id u = Unique-update _ f db.jobs keeps_id u

tally-absent :
    (id : String) (q : StatusCode → Bool) (rows : List JobRow)
    → find_row id rows ≡ none
    → tally (λ r. str_eq r.id id && q r.status) rows ≡ 0
unfolding tally find_row
tally-absent id q [] h = refl
tally-absent id q (r ∷ rows) h = ground (arith, tally-absent id q rows)

-- The rows that an UPDATE by id affects are one where its test passes, and none elsewhere.
tally-Unique :
    (id : String) (q : StatusCode → Bool) (rows : List JobRow)
    → Unique rows
    → tally (λ r. str_eq r.id id && q r.status) rows
      ≡ (if status_test q (row_status (find_row id rows)) then 1 else 0)
unfolding tally find_row
tally-Unique id q [] u = refl
tally-Unique id q (r ∷ rows) u = elim (Bool-cases (str_eq r.id id)) [
  | inl e ↦
      let same : r.id ≡ id = (eq_iff r.id id).0 e in
      rw (e, tally-absent id q rows (rw (← same) u.0)) (ground arith)
  | inr e ↦ rw (e, tally-Unique id q rows u.1) refl
]

pub affected_lem :
    (id : String) (q : StatusCode → Bool) (db : Db)
    → Unique db.jobs
    → affected id q db ≡ (if status_test q (status_of db id) then 1 else 0)
unfolding affected status_of
affected_lem id q db u = tally-Unique id q db.jobs u

pub affected_one :
    (id : String) (q : StatusCode → Bool) (db : Db)
    → Unique db.jobs
    → (affected id q db == 1) ≡ status_test q (status_of db id)
affected_one id q db u = rw (affected_lem id q db u) (ground arith)
