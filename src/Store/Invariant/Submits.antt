-- ===== src/Store/Invariant/Submits.antt =====
-- Submissions keep the invariant of the store (storage/sqlite.go, `InsertJob` and `InsertArray`).
use batchq.Shared.{
  ◌≡◌, refl, true, false, none, some, List, [], ◌∷◌, arith, eq_iff, eq_refl, String, str_eq,
  contains, find, Bool-cases, Option-cases, inl, inr, if◌then◌else◌,
}
use batchq.Shared.Result.{ok, >>-eq-ok}
use batchq.Job.Status.{userhold, waiting, queued, is, is_bad}
use batchq.Job.Def.{JobDef}
use batchq.Store.Db.{Db, status_of, owner_of, doomed, depends_on, find_row}
use batchq.Store.Submit.{validate_dep, validate_deps, insert_row, new_row, initial_status}
use batchq.Store.Wf.{Wf, known, is_idle, is_active}

-- Parents that a dependent may wait for.
abbrev pub ValidParents : Db → List String → Type 0
ValidParents db deps =
    (p : String) → contains deps p ≡ true → (known db p ≡ true) × (doomed db p ≡ false)

validate_dep-valid :
    (db : Db) (dep : String)
    → validate_dep db dep ≡ ok tt
    → (known db dep ≡ true) × (doomed db dep ≡ false)
unfolding validate_dep
validate_dep-valid db dep h = elim (Option-cases (status_of db dep)) [
  | inl e ↦ absurd (ground arith)
  | inr (s, e) ↦ (ground arith, ground arith)
]

-- A submit is let through only if every parent is in the table and neither canceled nor failed.
pub validate_deps-ValidParents :
    (db : Db) (deps : List String) → validate_deps db deps ≡ ok tt → ValidParents db deps
unfolding validate_deps contains
validate_deps-ValidParents db [] h p c = absurd (ground arith)
validate_deps-ValidParents db (dep ∷ deps) h p c =
    let (first, rest) = >>-eq-ok (validate_dep db dep) (validate_deps db deps) h in
    elim (Bool-cases (str_eq dep p)) [
      | inl e ↦
          let same : dep ≡ p = (eq_iff dep p).0 e in rw (← same) (validate_dep-valid db dep first)
      | inr n ↦ validate_deps-ValidParents db deps rest p (ground arith)
    ]

-- The jobs that were there keep their states.
pub record Extends (db db' : Db) : Type 0 where
  pub status : (k : String) → known db k ≡ true → status_of db' k ≡ status_of db k

-- A new row shows at its own id, which was free.
pub insert_row-status :
    (now : String) (job : JobDef) (db db' : Db)
    → insert_row now job db ≡ ok db'
    → (status_of db job.job_id ≡ none)
      × ((k : String)
          → status_of db' k
            ≡ (if str_eq job.job_id k then some (initial_status job) else status_of db k))
      × (db'.deps ≡ db.deps)
      × (db'.running ≡ db.running)
      × (db'.jobs ≡ new_row now job ∷ db.jobs)
unfolding insert_row
insert_row-status now job db db' h = elim (Option-cases (status_of db job.job_id)) [
  | inr (s, e) ↦ absurd (ground arith)
  | inl e ↦
      let same : record db { jobs = new_row now job ∷ db.jobs } ≡ db' = ground arith in
      rw (← same) (e, λ k. unfold status_of find_row find new_row in ground arith, refl, refl, refl)
]

idle_start :
    (job : JobDef)
    → (is_idle (initial_status job) ≡ true)
      × (is_active (initial_status job) ≡ false)
      × (is_bad (initial_status job) ≡ false)
unfolding initial_status is_idle is_active is_bad
idle_start job = elim (Bool-cases (is job.status userhold)) [
  | inl e ↦ rw e (refl, refl, refl)
  | inr n ↦ rw n (start job.after_ok)
]
  where
    start :
        (deps : List String)
        → (is_idle (elim deps [ [] ↦ queued | d ∷ ds ↦ waiting ]) ≡ true)
          × (is_active (elim deps [ [] ↦ queued | d ∷ ds ↦ waiting ]) ≡ false)
          × (is_bad (elim deps [ [] ↦ queued | d ∷ ds ↦ waiting ]) ≡ false)
    start [] = (refl, refl, refl)
    start (d ∷ ds) = (refl, refl, refl)

-- A new row without parents keeps the invariant, and shows at its own id alone.
pub insert_row-Wf :
    (now : String) (job : JobDef) (db db' : Db)
    → insert_row now job db ≡ ok db'
    → Wf db
    → Wf db' × Extends db db' × (known db' job.job_id ≡ true)
insert_row-Wf now job db db' h w =
    let (new, status, deps, running, rows) = insert_row-status now job db db' h in
    let (start_idle, start_active, start_good) = idle_start job in
    (
      record {
        none_doomed = λ j p dep l.
            let dep' : depends_on db.deps j p ≡ true = rw (← deps) dep in
            ground (
              arith,
              status j,
              status p,
              w.refer.at j p dep',
              w.none_doomed j p dep',
              eq_iff job.job_id j,
              eq_iff job.job_id p,
            );
        claims = record {
          idle = λ k e. ground (
            arith,
            status k,
            owners running k,
            w.claims.idle k,
            w.claims.unknown k,
            eq_iff job.job_id k,
          );
          active = λ k e.
              ground (arith, status k, owners running k, w.claims.active k, eq_iff job.job_id k);
          unknown = λ k e. ground (arith, status k, owners running k, w.claims.unknown k);
        };
        refer = record {
          at = λ j p dep.
              let dep' : depends_on db.deps j p ≡ true = rw (← deps) dep in
              ground (arith, status j, status p, w.refer.at j p dep');
        };
        keys = rw rows (absent new, w.keys);
      },
      record { status = λ k e. ground (arith, status k, eq_iff job.job_id k) },
      ground (arith, status job.job_id, eq_refl job.job_id),
    )
  where
    owners : db'.running ≡ db.running → (k : String) → owner_of db' k ≡ owner_of db k
    owners e k = unfold owner_of in rw e refl

    absent : status_of db job.job_id ≡ none → find_row (new_row now job).id db.jobs ≡ none
    absent e =
        unfold status_of new_row in ground (arith, Option-cases (find_row job.job_id db.jobs))
