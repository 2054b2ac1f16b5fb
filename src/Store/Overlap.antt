-- ===== src/Store/Overlap.antt =====
-- Submissions that overlap other requests: `InsertJob` and `InsertArray` of storage/sqlite.go check the
-- parents before their transaction begins, so the requests of other clients may be served in between, also between the
-- reads of two parents.
pub mod Serial
use batchq.Shared.{
  ◌≡◌, refl, sym, ap, ◌∙◌, ◌⊎◌, inl, inr, ℕ, Bool, true, false, not, ◌&&◌, ◌||◌, Option, none, some,
  List, [], ◌∷◌, ◌++◌, String, str_eq, select, ◌==◌, arith, Bool-cases, Option-cases, if◌then◌else◌,
}
use batchq.Shared.Int.{ℤ}
use batchq.Shared.Result.{Result, ok, err, other, guard, or_before, ◌>>◌}
use batchq.Job.Def.{JobDef}
use batchq.Store.Db.{Db}
use batchq.Store.Submit.{
  validate_dep, validate_deps, validate_tasks, insert_job_tx, insert_tasks, insert_job,
  insert_array, is_empty,
}
use batchq.Store.Run.{Request, serve, run, run-Wf}
use batchq.Store.Wf.{Wf}

pub data Submission : Type 0 where
  single : JobDef → Submission
  array : (array_id : String) → List JobDef → Submission

abbrev pub is_ok {ℓ} : {A : Type ℓ} → Result A → Bool
is_ok (ok a) = true
is_ok (err e) = false

-- The jobs that `validateDeps` reads, in its order.
unfoldable pub parents_of : List JobDef → List String
parents_of [] = []
parents_of (task ∷ tasks) = task.after_ok ++ parents_of tasks

unfoldable pub parents : Submission → List String
parents (single job) = job.after_ok
parents (array array_id tasks) = parents_of tasks

-- The tests that read no table.
unfoldable pub all_named : List JobDef → Bool
all_named [] = true
all_named (task ∷ tasks) = not (str_eq task.job_id "") && all_named tasks

unfoldable pub is_complete : Submission → Bool
is_complete (single job) = not (str_eq job.job_id "")
is_complete (array array_id tasks) =
    not (str_eq array_id "") && (not (is_empty tasks) && all_named tasks)

-- Their transaction.
unfoldable pub commit : String → Submission → Db → Result Db
commit now (single job) db = insert_job_tx now job db
commit now (array array_id tasks) db = insert_tasks now tasks db

abbrev pub request_of : Submission → Request
request_of (single job) = Request.submit job
request_of (array array_id tasks) = Request.submit_array array_id tasks

-- A submission under way, under a number of its own: the parents that it has still to read, and those
-- that it has read and accepted, with the tables in which it did.
pub record Call : Type 0 where
  pub number : ℕ
  pub submission : Submission
  pub left : List String
  pub looked : List (String × Db)

pub record Calls : Type 0 where
  pub db : Db
  pub calls : List Call

-- A request that is one statement or transaction; a submission begins, reads its next parent, and comes
-- to its transaction.
pub data Event : Type 0 where
  request : (now : String) → Request → Event
  begin : ℕ → Submission → Event
  look : ℕ → Event
  finish : (now : String) → ℕ → Event

unfoldable pub call_of : ℕ → List Call → Option Call
call_of n [] = none
call_of n (x ∷ xs) = let later = call_of n xs in if x.number == n then some x else later

abbrev pub others : ℕ → List Call → List Call
others n xs = select (λ (y : Call). not (y.number == n)) xs

-- A parent that is accepted.
abbrev pub accepted : Db → String → List String → Call → Call
accepted db p ps x = record x { left = ps; looked = x.looked ++ (p, db) ∷ [] }

module _ (cast : String → ℤ) where
  unfoldable pub step : Event → Calls → Calls
  step (request now r) c = record c { db = serve cast now r c.db }
  step (begin n s) c = record c {
    calls =
        if is_complete s
        then record { number = n; submission = s; left = parents s; looked = [] } ∷ c.calls
        else c.calls;
  }
  step (look n) c = elim (call_of n c.calls) [
    | none ↦ c
    | some x ↦ elim x.left [
      | [] ↦ c
      | p ∷ ps ↦ record c {
        calls =
            if is_ok (validate_dep c.db p)
            then accepted c.db p ps x ∷ others n c.calls
            else others n c.calls;
      }
    ]
  ]
  step (finish now n) c = elim (call_of n c.calls) [
    | none ↦ c
    | some x ↦ elim x.left [
      | p ∷ ps ↦ c
      | [] ↦ record { db = or_before c.db (commit now x.submission c.db); calls = others n c.calls }
    ]
  ]

  unfoldable pub steps : List Event → Calls → Calls
  steps [] c = c
  steps (e ∷ es) c = steps es (step e c)

  -- What was accepted would be accepted still.
  unfoldable pub still : Db → List (String × Db) → Bool
  still db [] = true
  still db ((p, d) ∷ rest) =
      (is_ok (validate_dep db p) || not (is_ok (validate_dep d p))) && still db rest

  -- A submission that succeeds would accept, at its transaction, each parent that it did accept.
  unfoldable pub timely_event : Event → Calls → Bool
  timely_event (request now r) c = true
  timely_event (begin n s) c = true
  timely_event (look n) c = true
  timely_event (finish now n) c = elim (call_of n c.calls) [
    | none ↦ true
    | some x ↦ still c.db x.looked || not (is_ok (commit now x.submission c.db))
  ]

  unfoldable pub timely : List Event → Calls → Bool
  timely [] c = true
  timely (e ∷ es) c = timely_event e c && timely es (step e c)

  -- The requests in the order in which they take effect, a submission at its transaction.
  unfoldable pub serial : List Event → Calls → List (String × Request)
  serial [] c = []
  serial (request now r ∷ es) c = (now, r) ∷ serial es (step (request now r) c)
  serial (begin n s ∷ es) c = serial es (step (begin n s) c)
  serial (look n ∷ es) c = serial es (step (look n) c)
  serial (finish now n ∷ es) c =
      let rest = serial es (step (finish now n) c) in
      elim (call_of n c.calls) [
        | none ↦ rest
        | some x ↦ elim x.left [ p ∷ ps ↦ rest | [] ↦ (now, request_of x.submission) ∷ rest ]
      ]
