-- ===== src/Store/Cleanup/Effect.antt =====
-- What the two DELETE statements of a removal leave (storage/sqlite.go).
use batchq.Shared.{
  ◌≡◌, refl, ◌∙◌, sym, ap, Bool, true, false, not, ◌&&◌, none, some, List, [], ◌∷◌, arith, eq_iff,
  eq_refl, String, str_eq, select, any, find, contains, Bool-cases, inl, inr, if◌then◌else◌,
}
use batchq.Shared.Result.{ok}
use batchq.Store.Db.{JobRow, Dep, Claim, Db, find_row, status_of, status_test, owner_of, depends_on}
use batchq.Store.Laws.{Unique}
use batchq.Store.Cleanup.{delete_children, delete_jobs}

contains-same :
    (ids : List String) (j k : String) → str_eq j k ≡ true → contains ids j ≡ contains ids k
contains-same ids j k e = ap (contains ids) ((eq_iff j k).0 e)

pub select-find_row :
    (ids : List String) (k : String) (rows : List JobRow)
    → find_row k (select (λ (r : JobRow). not (contains ids r.id)) rows)
      ≡ (if contains ids k then none else find_row k rows)
unfolding find_row find select
select-find_row ids k [] = ground arith
select-find_row ids k (r ∷ rows) =
    ground (arith, contains-same ids r.id k, select-find_row ids k rows)

delete_children-owner :
    (ids : List String) (db : Db) (k : String)
    → owner_of (delete_children ids db) k ≡ (if contains ids k then none else owner_of db k)
unfolding delete_children owner_of find select
delete_children-owner ids db k = go db.running
  where
    go :
        (rows : List Claim)
        → (elim (find
            (λ (c : Claim). str_eq c.job_id k)
            (select (λ (c : Claim). not (contains ids c.job_id)) rows)) [
              | none ↦ none
              | some c ↦ some c.job_runner
            ])
          ≡ (if contains ids k then none else elim (find (λ (c : Claim). str_eq c.job_id k) rows) [
            | none ↦ none
            | some c ↦ some c.job_runner
          ])
    go [] = ground arith
    go (c ∷ rows) = ground (arith, contains-same ids c.job_id k, go rows)

delete_children-depends_on :
    (ids : List String) (db : Db) (j p : String)
    → depends_on (delete_children ids db).deps j p
      ≡ (not (contains ids j) && depends_on db.deps j p)
unfolding delete_children depends_on any select
delete_children-depends_on ids db j p = go db.deps
  where
    go :
        (rows : List Dep)
        → any
            (λ (d : Dep). str_eq d.job_id j && str_eq d.afterok_id p)
            (select (λ (d : Dep). not (contains ids d.job_id)) rows)
          ≡ (not (contains ids j)
              && any (λ (d : Dep). str_eq d.job_id j && str_eq d.afterok_id p) rows)
    go [] = ground arith
    go (d ∷ rows) = ground (arith, contains-same ids d.job_id j, go rows)

-- The rows that jobs own are gone where the job passes `p`; the jobs stay.
pub record Clears (p : String → Bool) (db db' : Db) : Type 0 where
  pub status : (k : String) → status_of db' k ≡ status_of db k
  pub owner : (k : String) → owner_of db' k ≡ (if p k then none else owner_of db k)
  pub dep : (j q : String) → depends_on db'.deps j q ≡ (not (p j) && depends_on db.deps j q)
  pub keys : Unique db.jobs → Unique db'.jobs

pub delete_children-Clears :
    (ids : List String) (db : Db) → Clears (contains ids) db (delete_children ids db)
delete_children-Clears ids db = record {
  status = λ k. unfold delete_children status_of in refl;
  owner = λ k. delete_children-owner ids db k;
  dep = λ j q. delete_children-depends_on ids db j q;
  keys = λ u. unfold delete_children in u;
}

-- A DELETE of jobs that succeeds takes the jobs that pass `p`, and no other, out of the table.
pub record Deletes (p : String → Bool) (db db' : Db) : Type 0 where
  pub status : (k : String) → status_of db' k ≡ (if p k then none else status_of db k)
  pub deps : db'.deps ≡ db.deps
  pub running : db'.running ≡ db.running
  pub keys : Unique db.jobs → Unique db'.jobs

select-Unique :
    (ids : List String) (rows : List JobRow)
    → Unique rows
    → Unique (select (λ (r : JobRow). not (contains ids r.id)) rows)
unfolding select
select-Unique ids [] u = tt
select-Unique ids (r ∷ rows) u = elim (Bool-cases (contains ids r.id)) [
  | inl e ↦ rw e (select-Unique ids rows u.1)
  | inr n ↦ rw n (rw (select-find_row ids r.id rows) (rw n u.0), select-Unique ids rows u.1)
]

module _ (g : String → Bool) where
  any-parent :
      (rows : List Dep) (j p : String)
      → any (λ (d : Dep). g d.afterok_id) rows ≡ false
      → depends_on rows j p ≡ true
      → g p ≡ false
  unfolding any depends_on
  any-parent [] j p h dep = absurd (ground arith)
  any-parent (d ∷ rows) j p h dep = elim (Bool-cases (str_eq d.afterok_id p)) [
    | inl e ↦ ap g (sym ((eq_iff d.afterok_id p).0 e)) ∙ ground arith
    | inr n ↦ any-parent rows j p (ground arith) (ground arith)
  ]

  no_parent :
      (rows : List Dep)
      → ((j p : String) → depends_on rows j p ≡ true → g p ≡ false)
      → any (λ (d : Dep). g d.afterok_id) rows ≡ false
  unfolding any depends_on
  no_parent [] h = refl
  no_parent (d ∷ rows) h =
      let first : g d.afterok_id ≡ false =
        h d.job_id d.afterok_id (ground (arith, eq_refl d.job_id, eq_refl d.afterok_id)) in
      rw first (no_parent rows (λ j p dep. h j p (ground arith)))

abbrev pub referred : List String → Db → String → Bool
referred ids db p = contains ids p && status_test (λ s. true) (status_of db p)

without : List String → Db → Db
without ids db = record db { jobs = select (λ (r : JobRow). not (contains ids r.id)) db.jobs }

without-Deletes : (ids : List String) (db : Db) → Deletes (contains ids) db (without ids db)
unfolding without status_of
without-Deletes ids db = record {
  status = λ k. rw (select-find_row ids k db.jobs) (ground arith);
  deps = refl;
  running = refl;
  keys = λ u. select-Unique ids db.jobs u;
}

-- A DELETE of jobs that succeeds left no reference to one of them.
pub delete_jobs-Deletes :
    (ids : List String) (db db' : Db)
    → delete_jobs ids db ≡ ok db'
    → Deletes (contains ids) db db'
      × ((j p : String) → depends_on db.deps j p ≡ true → referred ids db p ≡ false)
unfolding delete_jobs without
delete_jobs-Deletes ids db db' h =
    elim (Bool-cases (any (λ (d : Dep). referred ids db d.afterok_id) db.deps)) [
      | inl e ↦ absurd (ground arith)
      | inr n ↦
          let same : without ids db ≡ db' = ground arith in
          rw (← same)
            (without-Deletes ids db, λ j p dep. any-parent (referred ids db) db.deps j p n dep)
    ]

pub delete_jobs-ok :
    (ids : List String) (db : Db)
    → ((j p : String) → depends_on db.deps j p ≡ true → contains ids p ≡ false)
    → (db' : Db) × (delete_jobs ids db ≡ ok db')
unfolding delete_jobs without
delete_jobs-ok ids db h =
    (without ids db, rw (no_parent (referred ids db) db.deps (λ j p dep. rw (h j p dep) refl)) refl)
