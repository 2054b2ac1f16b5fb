-- ===== src/Store/Cancel/Job.antt =====
-- `CancelJob` of storage/sqlite.go cancels a job and just what waits for it.
use batchq.Shared.{
  ◌≡◌, refl, ◌∙◌, ap, inl, inr, true, false, Option, none, some, [], ◌∷◌, arith, eq_iff, eq_refl,
  String, str_eq, contains, Bool-cases, Option-cases,
}
use batchq.Shared.Result.{ok, err, not_found}
use batchq.Job.Status.{StatusCode, is_live, is_bad, canceled}
use batchq.Store.Db.{Db, status_of, status_test, live, doomed, depends_on}
use batchq.Store.Cancel.{cancel_row, cancel_one, cancel_job}
use batchq.Store.Cancel.Effect.{
  cancel_one-CancelsAll, status_of-cancel_row, deps-cancel_row, running-cancel_row,
  Unique-cancel_row,
}
use batchq.Store.Cancel.Cascade.{
  ClosedUpTo, Waits, itself, through, CancelsOnly, CancelsOnly-trans, NoneDoomed,
  NoneDoomed-ClosedUpTo, Cascades, cascade_cancel-Cascades, live_before,
}

cancel_row-ClosedUpTo :
    (now id reason : String) (db : Db)
    → NoneDoomed db
    → ClosedUpTo (id ∷ []) (cancel_row now id reason db)
unfolding contains is_live is_bad
cancel_row-ClosedUpTo now id reason db none_doomed = record {
  at = λ job parent dep l bad.
      let dep' : depends_on db.deps job parent ≡ true =
        rw (← deps-cancel_row now id reason db) dep in
      ground (
        arith,
        status_of-cancel_row now id reason db job,
        status_of-cancel_row now id reason db parent,
        none_doomed job parent dep',
      );
}

cancel_row-CancelsOnly :
    (now id reason : String) (db : Db)
    → live db id ≡ true
    → CancelsOnly (Waits db id) db (cancel_row now id reason db)
cancel_row-CancelsOnly now id reason db l = record {
  status = λ k. elim (Bool-cases (str_eq id k)) [
    | inl e ↦
        let same : id ≡ k = (eq_iff id k).0 e in
        inr (
          rw (← same) l,
          ground (arith, status_of-cancel_row now id reason db k),
          rw (← same) itself,
        )
    | inr e ↦ inl (ground (arith, status_of-cancel_row now id reason db k))
  ];
  deps = deps-cancel_row now id reason db;
  running = running-cancel_row now id reason db;
  keys = Unique-cancel_row now id reason db;
}

Waits-before :
    (id : String) (db one : Db)
    → CancelsOnly (Waits db id) db one
    → (k : String) → Waits one id k
    → Waits db id k
Waits-before id db one c _ itself = itself
Waits-before id db one c _ (through job via dep l w) =
    through job via (rw (← c.deps) dep) (live_before (Waits db id) db one c job l)
      (Waits-before id db one c via w)

weaken :
    (P Q : String → Type 0) (db db' : Db)
    → ((k : String) → P k → Q k)
    → CancelsOnly P db db'
    → CancelsOnly Q db db'
weaken P Q db db' f c = record {
  status = λ k. elim (c.status k) [ inl e ↦ inl e | inr (l, e, p) ↦ inr (l, e, f k p) ];
  deps = c.deps;
  running = c.running;
  keys = c.keys;
}

stays_dead :
    (P : String → Type 0) (db db' : Db) (k : String)
    → CancelsOnly P db db'
    → live db k ≡ false
    → live db' k ≡ false
stays_dead P db db' k c dead = elim (Bool-cases (live db' k)) [
  | inl l ↦ absurd (ground (arith, live_before P db db' c k l))
  | inr e ↦ e
]

cancel_one-dead :
    (now id reason : String) (db : Db) {s : StatusCode}
    → status_of db id ≡ some s
    → live db id ≡ false
    → cancel_one now id reason db ≡ ok db
unfolding cancel_one
cancel_one-dead now id reason db h dead = ground arith

-- A job that is in the table can be canceled: the loop ends, only jobs that wait for it are
-- canceled with it, and afterwards no live job waits for a dead one.
pub cancel_job-Cascades :
    (now id reason : String) (db : Db) {s : StatusCode}
    → status_of db id ≡ some s
    → NoneDoomed db
    → (db' : Db) × (cancel_job now id reason db ≡ ok db')
      × Cascades id db db'
      × (live db' id ≡ false)
unfolding cancel_job
cancel_job-Cascades now id reason db {s} is_there none_doomed = elim (Bool-cases (live db id)) [
  | inl l ↦
      let one = cancel_row now id reason db in
      let once = cancel_row-CancelsOnly now id reason db l in
      let gone : live one id ≡ false =
        unfold is_live in ground (arith, eq_refl id, status_of-cancel_row now id reason db id) in
      let (db', is_ok, rest) =
        cascade_cancel-Cascades now id reason one gone
          (cancel_row-ClosedUpTo now id reason db none_doomed) in
      (
        db',
        rw (cancel_one-CancelsAll now id reason db l) is_ok,
        record {
          only =
              CancelsOnly-trans (Waits db id) db one db' once (
                weaken (Waits one id) (Waits db id) one db' (Waits-before id db one once)
                  rest.only);
          none_doomed = rest.none_doomed;
        },
        stays_dead (Waits one id) one db' id rest.only gone,
      )
  | inr dead ↦
      let (db', is_ok, rest) =
        cascade_cancel-Cascades now id reason db dead
          (NoneDoomed-ClosedUpTo db (id ∷ []) none_doomed) in
      (
        db',
        rw (cancel_one-dead now id reason db is_there dead) is_ok,
        rest,
        stays_dead (Waits db id) db db' id rest.only dead,
      )
]

pub doomed_not_live :
    (o : Option StatusCode) → status_test is_bad o ≡ true → status_test is_live o ≡ true → ⊥
unfolding is_bad is_live
doomed_not_live o bad l = ground arith

-- Canceling an unknown job is refused.
pub cancel_job-not_found :
    (now id reason : String) (db : Db)
    → status_of db id ≡ none
    → cancel_job now id reason db ≡ err not_found
unfolding cancel_job cancel_one
cancel_job-not_found now id reason db h = ground arith

pub Waits-doomed :
    (id : String) (db db' : Db)
    → Cascades id db db'
    → doomed db' id ≡ true
    → (k : String) → Waits db id k
    → doomed db' k ≡ true
Waits-doomed id db db' c bad _ itself = bad
Waits-doomed id db db' c bad _ (through job via dep l w) =
    let bad_via = Waits-doomed id db db' c bad via w in
    elim (c.only.status job) [
      | inl same ↦ absurd (
          ground
            (arith, c.none_doomed job via (rw c.only.deps dep) (ap (status_test is_live) same ∙ l)))
      | inr (l', gone, w') ↦ unfold is_bad in rw gone refl
    ]

Waits-live :
    (id : String) (db : Db) → live db id ≡ true → (k : String) → Waits db id k → live db k ≡ true
Waits-live id db l _ itself = l
Waits-live id db l _ (through job via dep l' w) = l'

Cascades-exact :
    (id : String) (db db' : Db)
    → Cascades id db db'
    → live db id ≡ true
    → live db' id ≡ false
    → (k : String)
    → (Waits db id k → status_of db' k ≡ some canceled)
      × (¬ (Waits db id k) → status_of db' k ≡ status_of db k)
Cascades-exact id db db' c l gone k = (waiting, other)
  where
    canceled_id : status_of db' id ≡ some canceled
    canceled_id = elim (c.only.status id) [ inl same ↦ absurd (ground arith) | inr (l', e, w) ↦ e ]

    bad_id : doomed db' id ≡ true
    bad_id = rw canceled_id (unfold is_bad in refl)

    waiting : Waits db id k → status_of db' k ≡ some canceled
    waiting w = elim (c.only.status k) [
      | inl same ↦ absurd (
          doomed_not_live (status_of db' k) (Waits-doomed id db db' c bad_id k w)
            (ap (status_test is_live) same ∙ Waits-live id db l k w))
      | inr (l', e, w') ↦ e
    ]

    other : ¬ (Waits db id k) → status_of db' k ≡ status_of db k
    other no_wait = elim (c.only.status k) [ inl same ↦ same | inr (l', e, w) ↦ absurd (no_wait w) ]

-- Where no live job waits for a dead one, canceling a live job succeeds. It cancels that job and
-- each live job that waits for it through live jobs, keeps the state of every other job, and leaves
-- no live job that waits for a dead one.
pub cancel_job_exact :
    (now id reason : String) (db : Db)
    → live db id ≡ true
    → NoneDoomed db
    → (db' : Db) × (cancel_job now id reason db ≡ ok db')
      × NoneDoomed db'
      × ((k : String)
          → (Waits db id k → status_of db' k ≡ some canceled)
            × (¬ (Waits db id k) → status_of db' k ≡ status_of db k))
cancel_job_exact now id reason db l none_doomed = elim (Option-cases (status_of db id)) [
  | inl e ↦ absurd (ground arith)
  | inr (s, e) ↦
      let (db', is_ok, c, gone) = cancel_job-Cascades now id reason db e none_doomed in
      (db', is_ok, c.none_doomed, Cascades-exact id db db' c l gone)
]
