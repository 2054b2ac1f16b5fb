-- ===== src/Store/Invariant/Resolves.antt =====
-- `ResolveDependencies` of storage/sqlite.go queues the waiting jobs whose parents are met, and
-- cancels none where no live job waits for a dead one.
use batchq.Shared.{
  ◌≡◌, refl, sym, ◌∙◌, ap, Bool, true, false, ◌&&◌, ◌||◌, Option, some, List, [], ◌∷◌, map, arith,
  eq_iff, String, str_eq, Bool-cases, inl, inr, contains, select, if◌then◌else◌,
}
use batchq.Job.Status.{StatusCode, queued, canceled, is_live, is_bad}
use batchq.Store.Db.{JobRow, Db, find_row, row_status, update_job, status_of, status_test}
use batchq.Store.Laws.{Unique}
use batchq.Store.Resolve.{
  Resolved, verdict, is_waiting, is_met, set_doomed, set_queued, resolve_one, resolve_each,
  count_one, candidates, resolve_dependencies,
}
use batchq.Store.Resolve.Parents.{
  AllMet, Agrees, verdict-Agrees, verdict-should_cancel, verdict-can_queue,
}
use batchq.Store.Wf.{Wf, is_idle, is_active}
use batchq.Store.Invariant.Updates.{SetsStatus, SetsStatus-Wf, update_job-SetsStatus}

abbrev pub waits : Db → String → Bool
waits db k = status_test is_waiting (status_of db k)

-- Of the jobs in `done`, those that waited with all parents met are queued; all else is as before.
record Promoted (done : List String) (db db' : Db) : Type 0 where
  status :
      (k : String)
      → status_of db' k ≡ (
          if contains done k && (waits db k && (verdict db k).can_queue)
          then some queued
          else status_of db k)
  deps : db'.deps ≡ db.deps
  running : db'.running ≡ db.running
  keys : Unique db.jobs → Unique db'.jobs

Promoted-Agrees : (done : List String) (db db' : Db) → Promoted done db db' → Agrees db' db
unfolding is_waiting is_met is_bad
Promoted-Agrees done db db' p = record { at = λ k. ground (arith, p.status k); deps = p.deps }

-- What the body of the loop does to one job.
record Steps (id : String) (db db' : Db) : Type 0 where
  status :
      (k : String)
      → status_of db' k ≡ (
          if str_eq id k && (waits db id && (verdict db id).can_queue)
          then some queued
          else status_of db k)
  deps : db'.deps ≡ db.deps
  running : db'.running ≡ db.running
  keys : Unique db.jobs → Unique db'.jobs

resolve_one-Steps :
    (now id : String) (db : Db)
    → (waits db id ≡ true → (verdict db id).should_cancel ≡ false)
    → Steps id db (resolve_one now id db)
unfolding resolve_one set_doomed set_queued
resolve_one-Steps now id db fine = elim (Bool-cases (verdict db id).should_cancel) [
  | inl c ↦
      let effect : SetsStatus (str_eq id) is_waiting canceled db
          (update_job id is_waiting (set_doomed now (verdict db id).reason) db) =
        update_job-SetsStatus id is_waiting (set_doomed now (verdict db id).reason) canceled db
          (λ r. refl) (λ r. refl) in
      rw c (record {
        status = λ k. ground (arith, effect.status k, eq_iff id k);
        deps = effect.deps;
        running = effect.running;
        keys = effect.keys;
      })
  | inr n ↦ elim (Bool-cases (verdict db id).can_queue) [
    | inl q ↦
        let effect : SetsStatus (str_eq id) is_waiting queued db
            (update_job id is_waiting set_queued db) =
          update_job-SetsStatus id is_waiting set_queued queued db (λ r. refl) (λ r. refl) in
        rw (n, q)
          (record {
            status = λ k. ground (arith, effect.status k, eq_iff id k);
            deps = effect.deps;
            running = effect.running;
            keys = effect.keys;
          })
    | inr nq ↦
        rw (n, nq)
          (record { status = λ k. ground arith; deps = refl; running = refl; keys = λ u. u })
  ]
]

waits_live :
    (o : Option StatusCode) → status_test is_waiting o ≡ true → status_test is_live o ≡ true
unfolding is_waiting is_live
waits_live o h = ground arith

waits_before :
    (done : List String) (db db' : Db)
    → Promoted done db db'
    → (k : String) → waits db' k ≡ true
    → status_of db' k ≡ status_of db k
unfolding is_waiting
waits_before done db db' p k h = ground (arith, p.status k)

-- One more job that is looked at.
Promoted-step :
    (now id : String) (done : List String) (db db' : Db)
    → Wf db
    → Promoted done db db'
    → Promoted (id ∷ done) db (resolve_one now id db')
unfolding contains is_waiting
Promoted-step now id done db db' w p =
    let (same_queue, same_cancel) = verdict-Agrees db' db id (Promoted-Agrees done db db' p) in
    let fine : waits db' id ≡ true → (verdict db' id).should_cancel ≡ false = λ h.
      same_cancel
      ∙ verdict-should_cancel db id w.none_doomed (
          waits_live (status_of db id)
            (ap (status_test is_waiting) (sym (waits_before done db db' p id h)) ∙ h)) in
    let step = resolve_one-Steps now id db' fine in
    record {
      status = λ k. ground (arith, step.status k, p.status k, p.status id, eq_iff id k);
      deps = step.deps ∙ p.deps;
      running = step.running ∙ p.running;
      keys = λ u. step.keys (p.keys u);
    }

joined : List String → List String → List String
joined [] done = done
joined (id ∷ ids) done = joined ids (id ∷ done)

contains-joined :
    (ids done : List String) (k : String)
    → contains (joined ids done) k ≡ (contains ids k || contains done k)
unfolding joined contains
contains-joined [] done k = refl
contains-joined (id ∷ ids) done k = ground (arith, contains-joined ids (id ∷ done) k)

resolve_each-Promoted :
    (now : String) (ids done : List String) (n : Resolved) (db db' : Db)
    → Wf db
    → Promoted done db db'
    → Promoted (joined ids done) db (resolve_each now ids n db').1
unfolding resolve_each joined
resolve_each-Promoted now [] done n db db' w p = p
resolve_each-Promoted now (id ∷ ids) done n db db' w p =
    resolve_each-Promoted now ids (id ∷ done) (count_one id db' n) db (resolve_one now id db') w
      (Promoted-step now id done db db' w p)

candidate_rows :
    (rows : List JobRow) (k : String)
    → status_test is_waiting (row_status (find_row k rows)) ≡ true
    → contains (map (λ r. r.id) (select (λ (r : JobRow). is_waiting r.status) rows)) k ≡ true
unfolding find_row select contains
candidate_rows [] k h = absurd (ground arith)
candidate_rows (r ∷ rows) k h = ground (arith, candidate_rows rows k)

pub resolve-Promoted :
    (now : String) (db : Db)
    → Wf db
    → SetsStatus
        (λ k. (verdict db k).can_queue)
        is_waiting
        queued
        db
        (resolve_dependencies now db).1
unfolding resolve_dependencies candidates
resolve-Promoted now db w = record {
  status = λ k. ground (arith, all.status k, contains-joined (candidates db) [] k, listed k);
  deps = all.deps;
  running = all.running;
  keys = all.keys;
}
  where
    nothing : Promoted [] db db
    nothing = record {
      status = λ k. unfold contains in refl;
      deps = refl;
      running = refl;
      keys = λ u. u;
    }

    all : Promoted (joined (candidates db) []) db (resolve_dependencies now db).1
    all = resolve_each-Promoted now (candidates db) [] _ db db w nothing

    listed : (k : String) → waits db k ≡ true → (contains (candidates db) k || contains [] k) ≡ true
    listed k h = unfold status_of in ground (arith, candidate_rows db.jobs k)

pub resolve_dependencies-Wf : (now : String) (db : Db) → Wf db → Wf (resolve_dependencies now db).1
unfolding is_waiting is_live is_bad is_idle is_active
resolve_dependencies-Wf now db w =
    SetsStatus-Wf (resolve-Promoted now db w) (λ t h. ground arith) refl (λ t h. ground arith) w

-- In a well-formed store one pass queues each waiting job whose parents have all succeeded or were
-- handed to the other scheduler, and keeps the state of every other job: it cancels none.
pub resolve_exact :
    (now : String) (db : Db)
    → Wf db
    → (k : String)
    → (waits db k ≡ true → AllMet db k → status_of (resolve_dependencies now db).1 k ≡ some queued)
      × (waits db k ≡ true
          → ¬ (AllMet db k)
          → status_of (resolve_dependencies now db).1 k ≡ status_of db k)
      × (waits db k ≡ false → status_of (resolve_dependencies now db).1 k ≡ status_of db k)
resolve_exact now db w k =
    let effect = resolve-Promoted now db w in
    let (sound, complete) = verdict-can_queue db k w.refer in
    (
      λ h all. ground (arith, effect.status k, complete all),
      λ h not_all. elim (Bool-cases (verdict db k).can_queue) [
        | inl q ↦ absurd (not_all (sound q))
        | inr nq ↦ ground (arith, effect.status k)
      ],
      λ h. ground (arith, effect.status k),
    )
