-- ===== src/Service/Removal/Bulk.antt =====
-- The removal of the jobs that a bulk cleanup selects: `CleanupBulk` of service/service.go where it
-- deletes without an archive, on `CleanupCandidates`, `planRemoval` and `CleanupJobs`. Its refusal of a
-- second cleanup at the same time, its progress and its VACUUM are left out.
use batchq.Shared.{
  ◌≡◌, refl, ◌∙◌, ap, ℕ, suc, ◌⊎◌, inl, inr, Bool, true, ◌&&◌, ◌||◌, Option, none, some, List, [],
  ◌∷◌, map, length, arith, String, str_eq, eq_iff, select, any, find, contains, Bool-cases,
  if◌then◌else◌,
}
use batchq.Shared.Result.{Result, ok, err}
use batchq.Job.Status.{StatusCode}
use batchq.Store.Db.{JobRow, Dep, Db, find_row, status_of, depends_on}
use batchq.Store.Laws.{Unique}
use batchq.Store.Wf.{Wf}
use batchq.Store.Cleanup.{cleanup_jobs}
use batchq.Store.Cleanup.Removal.{cleanup_jobs_exact}
use batchq.Service.Removal.{is_candidate, cleanup_candidates, dependents, plan_removal}
use batchq.Service.Removal.Behind.{Behind-closed}
use batchq.Service.Removal.Order.{plan_removal_exact}

abbrev removed : ℕ → ℕ → Result (Unit {0}) × Db → Result (ℕ × ℕ) × Db
removed n stay (ok u, db) = (ok (n, stay), db)
removed n stay (err e, db) = (err e, db)

-- Deletion in the order of the plan, where it is not empty.
unfoldable pub carry_out : List String → ℕ → Db → Result (ℕ × ℕ) × Db
carry_out [] stay db = (ok (0, stay), db)
carry_out (id ∷ order) stay db = removed (suc (length order)) stay (cleanup_jobs (id ∷ order) db)

-- How many jobs were removed, and how many candidates stay; the fuel of the plan is one more than the
-- candidates are.
unfoldable pub cleanup_bulk : List StatusCode → Option String → Db → Option (Result (ℕ × ℕ) × Db)
cleanup_bulk [] end_before db = some (ok (0, 0), db)
cleanup_bulk (s ∷ statuses) end_before db =
    let (ids, edges) = cleanup_candidates db (s ∷ statuses) end_before in
    elim (plan_removal (suc (length ids)) ids edges) [
      | none ↦ none
      | some (order, stay) ↦ some (carry_out order stay db)
    ]

selected-step :
    (p : JobRow → Bool) (r : JobRow) (rows : List JobRow) (k : String)
    → contains (map (λ (x : JobRow). x.id) (select p (r ∷ rows))) k
      ≡ (p r && str_eq r.id k || contains (map (λ (x : JobRow). x.id) (select p rows)) k)
unfolding contains select
selected-step p r rows k = elim (Bool-cases (p r)) [ inl y ↦ rw y refl | inr n ↦ rw n refl ]

-- A job that was selected has a row that passes.
selected-row :
    (p : JobRow → Bool) (rows : List JobRow) (k : String)
    → Unique rows
    → contains (map (λ (r : JobRow). r.id) (select p rows)) k ≡ true
    → (r : JobRow) × (find_row k rows ≡ some r) × (p r ≡ true)
unfolding contains select find_row find
selected-row p [] k u c = cc
selected-row p (r ∷ rows) k (new, u) c = elim (Bool-cases (str_eq r.id k)) [
  | inr off ↦ rw off (selected-row p rows k u (ground (arith, selected-step p r rows k)))
  | inl e ↦ elim (Bool-cases (p r)) [
    | inl y ↦ (r, rw e refl, y)
    | inr n ↦
        let (x, found, y) = selected-row p rows k u (ground (arith, selected-step p r rows k)) in
        let lost : find_row k rows ≡ none = rw (← (eq_iff r.id k).0 e) new in absurd (ground arith)
  ]
]

-- The edges of the plan hold every dependency on a candidate.
edges-dependents :
    (ids : List String) (deps : List Dep) (j q : String)
    → depends_on deps j q ≡ true
    → contains ids q ≡ true
    → contains (dependents (select (λ (d : Dep). contains ids d.afterok_id) deps) q) j ≡ true
unfolding depends_on any dependents select contains
edges-dependents ids [] j q h c = cc
edges-dependents ids (d ∷ deps) j q h c =
    ground (arith, edges-dependents ids deps j q, ap (contains ids), eq_iff d.afterok_id q)

-- What a bulk cleanup of well-formed tables does: it succeeds, the tables stay well-formed, and each
-- job is as before or it had a selected state and end time, and is gone.
abbrev pub BulkRemoves : List StatusCode → Option String → Db → Db → Type 0
BulkRemoves statuses end_before db db' =
    (k : String)
    → (status_of db' k ≡ status_of db k)
      ⊎ (status_of db' k ≡ none)
        × (r : JobRow) × (find_row k db.jobs ≡ some r)
        × (is_candidate statuses end_before r ≡ true)

carry_out_lem :
    (order : List String) (stay : ℕ) (db : Db)
    → Wf db
    → ((j q : String)
        → depends_on db.deps j q ≡ true
        → contains order q ≡ true
        → contains order j ≡ true)
    → (db' : Db) × (carry_out order stay db ≡ (ok (length order, stay), db'))
      × Wf db'
      × ((k : String) → status_of db' k ≡ (if contains order k then none else status_of db k))
unfolding carry_out contains
carry_out_lem [] stay db w closed = (db, refl, w, λ k. refl)
carry_out_lem (id ∷ order) stay db w closed =
    let (db', e, w', gone) = cleanup_jobs_exact (id ∷ order) db w closed in
    (db', rw (e, carry_out) refl, w', gone)

-- From well-formed tables a bulk cleanup succeeds: its plan does not run out of fuel, no foreign key is
-- violated, and the tables stay well-formed. Each job keeps its state, or its row passed the selection
-- and it is gone.
pub cleanup_bulk_exact :
    (statuses : List StatusCode) (end_before : Option String) (db : Db)
    → Wf db
    → (gone : ℕ) × (stay : ℕ) × (db' : Db) × (cleanup_bulk statuses end_before db
        ≡ some (ok (gone, stay), db'))
      × Wf db'
      × BulkRemoves statuses end_before db db'
unfolding cleanup_bulk cleanup_candidates
cleanup_bulk_exact [] end_before db w = (0, 0, db, refl, w, λ k. inl refl)
cleanup_bulk_exact (s ∷ statuses) end_before db w =
    let (ids, edges) = cleanup_candidates db (s ∷ statuses) end_before in
    let (order, stay, e, ahead, within) = plan_removal_exact ids edges in
    let closed : (j q : String)
        → depends_on db.deps j q ≡ true
        → contains order q ≡ true
        → contains order j ≡ true =
      λ j q dep c.
        Behind-closed edges [] order q j ahead c
          (edges-dependents ids db.deps j q dep (within q c)) in
    let (db', is_ok, w', gone) = carry_out_lem order stay db w closed in
    (
      length order,
      stay,
      db',
      rw (e, is_ok, cleanup_bulk) refl,
      w',
      λ k. elim (Bool-cases (contains order k)) [
        | inr n ↦ inl (gone k ∙ rw n refl)
        | inl c ↦
            let (r, found, y) =
              selected-row (is_candidate (s ∷ statuses) end_before) db.jobs k w.keys (within k c) in
            inr (gone k ∙ rw c refl, r, found, y)
      ],
    )
