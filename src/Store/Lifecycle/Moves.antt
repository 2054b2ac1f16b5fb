-- ===== src/Store/Lifecycle/Moves.antt =====
-- The forms that a change of the tables takes, as moves of jobs.
use batchq.Shared.{
  ◌≡◌, refl, ◌∙◌, Bool, true, ◌&&◌, Option, none, some, arith, String, Bool-cases, inl, inr, str_eq,
  eq_iff,
}
use batchq.Job.Status.{StatusCode, canceled, running, queued, is, is_live}
use batchq.Job.Lifecycle.{Reaches, here, started, stepped, Reaches-trans, may_start, may_step}
use batchq.Job.Def.{JobDef}
use batchq.Store.Submit.{initial_status}
use batchq.Store.Db.{Db, status_of, status_test}
use batchq.Store.Cancel.Cascade.{CancelsOnly}
use batchq.Store.Invariant.Updates.{SetsStatus, SameStates}
use batchq.Store.Invariant.Inserts.{Adds}
use batchq.Store.Invariant.Claims.{Claims}

-- Each job comes from its state before to its state after by moves of the life of a job.
abbrev pub Follows : Db → Db → Type 0
Follows db db' = (k : String) → Reaches (status_of db k) (status_of db' k)

pub Follows-refl : (db : Db) → Follows db db
Follows-refl db k = here

pub Follows-trans : (a b c : Db) → Follows a b → Follows b c → Follows a c
Follows-trans a b c f g k = Reaches-trans (f k) (g k)

pub SameStates-Follows : {db db' : Db} → SameStates db db' → Follows db db'
SameStates-Follows same k = rw (same.status k) here

-- One state for another, where there is a job.
pub moved :
    (a b : Option StatusCode) (s : StatusCode) (q : StatusCode → Bool)
    → ((t : StatusCode) → q t ≡ true → may_step t s ≡ true)
    → status_test q a ≡ true
    → b ≡ some s
    → Reaches a b
moved none b s q ok h e = cc
moved (some t) b s q ok h e = rw e (stepped t s here (ok t h))

pub SetsStatus-Follows :
    {p : String → Bool} {q : StatusCode → Bool} {s : StatusCode} {db db' : Db}
    → SetsStatus p q s db db'
    → ((t : StatusCode) → q t ≡ true → may_step t s ≡ true)
    → Follows db db'
SetsStatus-Follows {p} {q} {s} {db} {db'} effect ok k =
    elim (Bool-cases (p k && status_test q (status_of db k))) [
      | inl y ↦
          moved (status_of db k) (status_of db' k) s q ok (ground arith)
            (effect.status k ∙ rw y refl)
      | inr n ↦
          let same : status_of db' k ≡ status_of db k = effect.status k ∙ rw n refl in rw same here
    ]

-- Any live job may be canceled.
pub cancels : (t : StatusCode) → is_live t ≡ true → may_step t canceled ≡ true
unfolding may_step is_live is
cancels t h = ground arith

pub CancelsOnly-Follows :
    {P : String → Type 0} {db db' : Db} → CancelsOnly P db db' → Follows db db'
CancelsOnly-Follows {P} {db} {db'} c k = elim (c.status k) [
  | inl same ↦ rw same here
  | inr (l, gone, p) ↦ moved (status_of db k) (status_of db' k) canceled is_live cancels l gone
]

starts : (job : JobDef) → may_start (initial_status job) ≡ true
unfolding initial_status may_start is
starts job = ground arith

pub Adds-Follows :
    (job : JobDef) (db db' : Db) → status_of db job.job_id ≡ none → Adds job db db' → Follows db db'
Adds-Follows job db db' free added k = elim (Bool-cases (str_eq job.job_id k)) [
  | inl e ↦
      let same : job.job_id ≡ k = (eq_iff job.job_id k).0 e in
      let was : status_of db k ≡ none = rw (← same) free in
      let now : status_of db' k ≡ some (initial_status job) = added k ∙ rw e refl in
      rw now (started (initial_status job) (rw was here) (starts job))
  | inr n ↦ let same : status_of db' k ≡ status_of db k = added k ∙ rw n refl in rw same here
]

pub Claims-Follows :
    (id runner : String) (db db' : Db)
    → status_test (λ s. is s queued) (status_of db id) ≡ true
    → Claims id runner db db'
    → Follows db db'
Claims-Follows id runner db db' was c k = elim (Bool-cases (str_eq id k)) [
  | inl e ↦
      let same : id ≡ k = (eq_iff id k).0 e in
      moved (status_of db k) (status_of db' k) running (λ s. is s queued)
        (λ t h. unfold may_step is in ground arith) (rw (← same) was) (c.status k ∙ rw e refl)
  | inr n ↦ let same : status_of db' k ≡ status_of db k = c.status k ∙ rw n refl in rw same here
]
