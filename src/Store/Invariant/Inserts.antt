-- ===== src/Store/Invariant/Inserts.antt =====
-- The rows of a submission, one table after the other (storage/sqlite.go, `insertJobTx`).
use batchq.Shared.{
  ◌≡◌, refl, ◌∙◌, ap, true, false, not, ◌&&◌, none, some, List, [], ◌∷◌, arith, eq_iff, eq_refl,
  String, str_eq, contains, any, Bool-cases, Option-cases, inl, inr, if◌then◌else◌,
}
use batchq.Shared.Result.{ok, guard, >>=-eq-ok, >>-eq-ok, ok-injective, other}
use batchq.Job.Status.{is_bad}
use batchq.Job.Def.{JobDef, JobDefDetail}
use batchq.Store.Db.{Db, Detail, PathRow, status_of, status_test, owner_of, doomed, depends_on}
use batchq.Store.Submit.{
  validate_deps, insert_row, insert_dep, insert_deps, insert_detail, insert_details, stored_value,
  insert_paths, insert_job_tx, insert_job, initial_status, validate_tasks, insert_tasks,
  insert_array, dedup_non_empty, is_empty,
}
use batchq.Store.Wf.{Wf, known, is_some}
use batchq.Store.Invariant.Updates.{SameStates, SameStates-Wf, SameStates-trans}
use batchq.Store.Invariant.Submits.{
  ValidParents, validate_deps-ValidParents, Extends, insert_row-Wf, insert_row-status,
}

with_dep : String → String → Db → Db
with_dep id dep db = record db { deps = record { job_id = id; afterok_id = dep } ∷ db.deps }

with_dep-Wf :
    (id dep : String) (db : Db)
    → known db id ≡ true
    → known db dep ≡ true
    → doomed db dep ≡ false
    → Wf db
    → Wf (with_dep id dep db)
unfolding with_dep depends_on status_of owner_of
with_dep-Wf id dep db kid kdep good w = record {
  none_doomed = λ j p d l. ground (arith, eq_iff dep p, w.none_doomed j p);
  claims = record { idle = w.claims.idle; active = w.claims.active; unknown = w.claims.unknown };
  refer = record { at = λ j p d. ground (arith, eq_iff dep p, eq_iff id j, w.refer.at j p) };
  keys = w.keys;
}

insert_dep-adds :
    (id dep : String) (db db' : Db)
    → insert_dep id dep db ≡ ok db'
    → (known db dep ≡ true) × (db' ≡ with_dep id dep db)
unfolding insert_dep with_dep
insert_dep-adds id dep db db' h = elim (Bool-cases (depends_on db.deps id dep)) [
  | inl e ↦ absurd (ground arith)
  | inr n ↦ elim (Option-cases (status_of db dep)) [
    | inl e ↦ absurd (ground arith)
    | inr (s, e) ↦ (ground arith, ground arith)
  ]
]

with_dep-status :
    (id dep : String) (db : Db) (k : String) → status_of (with_dep id dep db) k ≡ status_of db k
unfolding with_dep status_of
with_dep-status id dep db k = refl

insert_deps-Wf :
    (id : String) (deps : List String) (db db' : Db)
    → insert_deps id deps db ≡ ok db'
    → known db id ≡ true
    → ((p : String) → contains deps p ≡ true → doomed db p ≡ false)
    → Wf db
    → Wf db' × ((k : String) → status_of db' k ≡ status_of db k)
unfolding insert_deps
insert_deps-Wf id [] db db' h kid good w = let same : db ≡ db' = cc in rw (← same) (w, λ k. refl)
insert_deps-Wf id (dep ∷ deps) db db' h kid good w =
    let (one, first, rest) = >>=-eq-ok (insert_dep id dep db) _ h in
    let (kdep, is_one) = insert_dep-adds id dep db one first in
    let added = with_dep id dep db in
    let w' = with_dep-Wf id dep db kid kdep (good dep (unfold contains in rw eq_refl refl)) w in
    let (done, same) =
      insert_deps-Wf id deps added db' (rw is_one at rest)
        (ap is_some (with_dep-status id dep db id) ∙ kid)
        (λ p c.
          ap (status_test is_bad) (with_dep-status id dep db p)
          ∙ good p (unfold contains in ground arith))
        w' in
    (done, λ k. same k ∙ with_dep-status id dep db k)

insert_detail-SameStates :
    (id : String) (d : JobDefDetail) (db db' : Db)
    → insert_detail id d db ≡ ok db'
    → SameStates db db'
unfolding insert_detail status_of
insert_detail-SameStates id d db db' h =
    elim (Bool-cases (any (λ (x : Detail). str_eq x.job_id id && str_eq x.key d.key) db.details)) [
      | inl e ↦ absurd (ground arith)
      | inr n ↦
          let same : record db {
            details = record { job_id = id; key = d.key; value = stored_value id d } ∷ db.details;
          }
              ≡ db' =
            ground arith in
          rw (← same) (record { status = λ k. refl; deps = refl; running = refl; keys = λ u. u })
    ]

insert_details-SameStates :
    (id : String) (ds : List JobDefDetail) (db db' : Db)
    → insert_details id ds db ≡ ok db'
    → SameStates db db'
unfolding insert_details
insert_details-SameStates id [] db db' h =
    let same : db ≡ db' = cc in
    rw (← same) (record { status = λ k. refl; deps = refl; running = refl; keys = λ u. u })
insert_details-SameStates id (d ∷ ds) db db' h =
    let (one, first, rest) = >>=-eq-ok (insert_detail id d db) _ h in
    SameStates-trans (insert_detail-SameStates id d db one first)
      (insert_details-SameStates id ds one db' rest)

with_paths-SameStates :
    (ins outs : List PathRow) (db : Db) → SameStates db (record db { inputs = ins; outputs = outs })
unfolding status_of
with_paths-SameStates ins outs db = record {
  status = λ k. refl;
  deps = refl;
  running = refl;
  keys = λ u. u;
}

-- The states after a submission: the new job has its first state, and the other jobs theirs.
abbrev pub Adds : JobDef → Db → Db → Type 0
Adds job db db' =
    (k : String)
    → status_of db' k ≡ (if str_eq job.job_id k then some (initial_status job) else status_of db k)

pub insert_job_tx-Wf :
    (now : String) (job : JobDef) (db db' : Db)
    → insert_job_tx now job db ≡ ok db'
    → ValidParents db job.after_ok
    → Wf db
    → Wf db' × Extends db db' × (status_of db job.job_id ≡ none) × Adds job db db'
unfolding insert_job_tx
insert_job_tx-Wf now job db db' h valid w =
    let (rowed, is_row, h1) = >>=-eq-ok (insert_row now job db) _ h in
    let (depped, is_dep, h2) = >>=-eq-ok (insert_deps job.job_id job.after_ok rowed) _ h1 in
    let (detailed, is_detail, h3) = >>=-eq-ok (insert_details job.job_id job.details depped) _ h2 in
    let (ins, is_in, h4) =
      >>=-eq-ok (insert_paths job.job_id (dedup_non_empty job.input_files) detailed.inputs) _ h3 in
    let (outs, is_out, h5) =
      >>=-eq-ok (insert_paths job.job_id (dedup_non_empty job.output_files) detailed.outputs) _
        h4 in
    let (w1, kept, kid) = insert_row-Wf now job db rowed is_row w in
    let (w2, same) =
      insert_deps-Wf job.job_id job.after_ok rowed depped is_dep kid
        (λ p c. ap (status_test is_bad) (kept.status p (valid p c).0) ∙ (valid p c).1) w1 in
    let rest =
      SameStates-trans (insert_details-SameStates job.job_id job.details depped detailed is_detail)
        (with_paths-SameStates ins outs detailed) in
    let final : record detailed { inputs = ins; outputs = outs } ≡ db' = ok-injective h5 in
    rw (← final) (
      SameStates-Wf rest w2,
      record { status = λ k e. rest.status k ∙ same k ∙ kept.status k e },
      (insert_row-status now job db rowed is_row).0,
      λ k. rest.status k ∙ same k ∙ (insert_row-status now job db rowed is_row).1 k,
    )

-- A submission to a well-formed store that succeeds had only known parents, none of them canceled or
-- failed. It keeps the store well-formed, gives the new job its first state, under an id that was
-- free, and leaves the states of all other jobs.
pub insert_job_exact :
    (now : String) (job : JobDef) (db db' : Db)
    → insert_job now job db ≡ ok db'
    → Wf db
    → Wf db' × ValidParents db job.after_ok × (status_of db job.job_id ≡ none) × Adds job db db'
unfolding insert_job
insert_job_exact now job db db' h w =
    let (named, h1) = >>-eq-ok (guard (not (str_eq job.job_id "")) other) _ h in
    let (valid, h2) = >>-eq-ok (validate_deps db job.after_ok) _ h1 in
    let parents = validate_deps-ValidParents db job.after_ok valid in
    let (w', kept, free, added) = insert_job_tx-Wf now job db db' h2 parents w in
    (w', parents, free, added)

pub insert_job-Wf :
    (now : String) (job : JobDef) (db db' : Db) → insert_job now job db ≡ ok db' → Wf db → Wf db'
insert_job-Wf now job db db' h w = (insert_job_exact now job db db' h w).0

-- The tasks of an array are validated before the first is inserted.
abbrev pub ValidTasks : Db → List JobDef → Type 0
ValidTasks db [] = Unit
ValidTasks db (task ∷ tasks) = ValidParents db task.after_ok × ValidTasks db tasks

pub validate_tasks-ValidTasks :
    (db : Db) (tasks : List JobDef) → validate_tasks db tasks ≡ ok tt → ValidTasks db tasks
unfolding validate_tasks
validate_tasks-ValidTasks db [] h = tt
validate_tasks-ValidTasks db (task ∷ tasks) h =
    let (named, h1) = >>-eq-ok (guard (not (str_eq task.job_id "")) other) _ h in
    let (valid, h2) = >>-eq-ok (validate_deps db task.after_ok) _ h1 in
    (validate_deps-ValidParents db task.after_ok valid, validate_tasks-ValidTasks db tasks h2)

ValidParents-Extends :
    (db db' : Db) (deps : List String)
    → Extends db db'
    → ValidParents db deps
    → ValidParents db' deps
ValidParents-Extends db db' deps e v p c =
    let (k, good) = v p c in
    (ap is_some (e.status p k) ∙ k, ap (status_test is_bad) (e.status p k) ∙ good)

pub ValidTasks-Extends :
    (db db' : Db) (tasks : List JobDef)
    → Extends db db'
    → ValidTasks db tasks
    → ValidTasks db' tasks
ValidTasks-Extends db db' [] e v = tt
ValidTasks-Extends db db' (task ∷ tasks) e v =
    (ValidParents-Extends db db' task.after_ok e v.0, ValidTasks-Extends db db' tasks e v.1)

insert_tasks-Wf :
    (now : String) (tasks : List JobDef) (db db' : Db)
    → insert_tasks now tasks db ≡ ok db'
    → ValidTasks db tasks
    → Wf db
    → Wf db'
unfolding insert_tasks
insert_tasks-Wf now [] db db' h v w = let same : db ≡ db' = cc in rw (← same) w
insert_tasks-Wf now (task ∷ tasks) db db' h v w =
    let (one, first, rest) = >>=-eq-ok (insert_job_tx now task db) _ h in
    let (w', kept, free, added) = insert_job_tx-Wf now task db one first v.0 w in
    insert_tasks-Wf now tasks one db' rest (ValidTasks-Extends db one tasks kept v.1) w'

pub insert_array-Wf :
    (now array_id : String) (tasks : List JobDef) (db db' : Db)
    → insert_array now array_id tasks db ≡ ok db'
    → Wf db
    → Wf db'
unfolding insert_array
insert_array-Wf now array_id tasks db db' h w =
    let (named, h1) = >>-eq-ok (guard (not (str_eq array_id "")) other) _ h in
    let (some_task, h2) = >>-eq-ok (guard (not (is_empty tasks)) other) _ h1 in
    let (valid, h3) = >>-eq-ok (validate_tasks db tasks) _ h2 in
    insert_tasks-Wf now tasks db db' h3 (validate_tasks-ValidTasks db tasks valid) w
