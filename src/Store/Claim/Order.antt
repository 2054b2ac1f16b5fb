-- ===== src/Store/Claim/Order.antt =====
-- The jobs that `ClaimNextJob` looks at are the queued ones, the highest priority first
-- (storage/sqlite.go).
use batchq.Shared.{
  ◌≡◌, refl, ◌∙◌, Bool, true, false, ◌||◌, none, List, [], ◌∷◌, map, arith, eq_iff, String, str_eq,
  contains, select, Bool-cases, inl, inr,
}
use batchq.Job.Status.{StatusCode, queued, is}
use batchq.Store.Db.{JobRow, Db, find_row, row_status, status_of, status_test}
use batchq.Store.Laws.{Unique}
use batchq.Store.Claim.{comes_before, insert_row, sort_rows, queue_order}

abbrev ids : List JobRow → List String
ids rows = map (λ r. r.id) rows

insert_row-ids :
    (r : JobRow) (rows : List JobRow) (k : String)
    → contains (ids (insert_row r rows)) k ≡ (str_eq r.id k || contains (ids rows) k)
unfolding insert_row contains
insert_row-ids r [] k = refl
insert_row-ids r (s ∷ rows) k = elim (Bool-cases (comes_before r s)) [
  | inl b ↦ rw b refl
  | inr a ↦ rw a (ground (arith, insert_row-ids r rows k))
]

sort_rows-ids :
    (rows : List JobRow) (k : String) → contains (ids (sort_rows rows)) k ≡ contains (ids rows) k
unfolding sort_rows contains
sort_rows-ids [] k = refl
sort_rows-ids (r ∷ rows) k =
    insert_row-ids r (sort_rows rows) k ∙ ground (arith, sort_rows-ids rows k)

absent-contains :
    (rows : List JobRow) (k : String) → find_row k rows ≡ none → contains (ids rows) k ≡ false
unfolding find_row contains
absent-contains [] k h = refl
absent-contains (r ∷ rows) k h = ground (arith, absent-contains rows k)

select-contains :
    (q : StatusCode → Bool) (rows : List JobRow) (k : String)
    → contains (ids (select (λ (r : JobRow). q r.status) rows)) k ≡ true
    → contains (ids rows) k ≡ true
unfolding select contains
select-contains q [] k h = h
select-contains q (r ∷ rows) k h = ground (arith, select-contains q rows k)

-- Where ids are unique, the selected ids are those whose row passes.
selected :
    (q : StatusCode → Bool) (rows : List JobRow) (k : String)
    → Unique rows
    → contains (ids (select (λ (r : JobRow). q r.status) rows)) k
      ≡ status_test q (row_status (find_row k rows))
unfolding select contains find_row
selected q [] k u = refl
selected q (r ∷ rows) k u = elim (Bool-cases (str_eq r.id k)) [
  | inl e ↦
      let same : r.id ≡ k = (eq_iff r.id k).0 e in
      let gone = absent-contains rows k (rw (← same) u.0) in
      ground (arith, select-contains q rows k)
  | inr n ↦ ground (arith, selected q rows k u.1)
]

-- Where ids are unique, the query of the claims lists a job exactly when it is QUEUED.
pub queue_order-queued :
    (db : Db) (k : String)
    → Unique db.jobs
    → contains (queue_order db) k ≡ status_test (λ s. is s queued) (status_of db k)
unfolding queue_order status_of
queue_order-queued db k u = sort_rows-ids _ k ∙ selected (λ s. is s queued) db.jobs k u
