-- ===== src/Store/Overlap/Serial.antt =====
-- Calls that overlap leave what the requests leave one after the other (storage/sqlite.go).
use batchq.Shared.{◌≡◌, ℕ, Bool, true, not, ◌&&◌, List, [], ◌∷◌, ◌++◌, String, str_eq}
use batchq.Shared.Int.{ℤ}
use batchq.Shared.Result.{Result, other, guard, ◌>>◌}
use batchq.Store.Db.{Db}
use batchq.Store.Submit.{validate_dep, validate_deps, validate_tasks, is_empty}
use batchq.Store.Run.{serve}
use batchq.Store.Wf.{Wf}
use batchq.Store.Overlap.{
  Submission, single, array, parents, is_complete, request_of, Call, Calls, Event, finish, is_ok,
  step, serial,
}

-- What `InsertJob` and `InsertArray` do up to their transaction, in tables that do not change.
check : Submission → Db → Result (Unit {0})
check (single job) db = guard (not (str_eq job.job_id "")) other >> validate_deps db job.after_ok
check (array array_id tasks) db =
    guard (not (str_eq array_id "")) other
    >> (guard (not (is_empty tasks)) other >> validate_tasks db tasks)

module _ (cast : String → ℤ) where
  abbrev accepted_all : List (String × Db) → Bool
  accepted_all [] = true
  accepted_all ((p, d) ∷ rest) = is_ok (validate_dep d p) && accepted_all rest

  abbrev names : List (String × Db) → List String
  names [] = []
  names ((p, d) ∷ rest) = p ∷ names rest

  -- A call has accepted what it has read, and has read what it has not left.
  abbrev pub Sound : Call → Type 0
  Sound x =
      (is_complete x.submission ≡ true)
      × (accepted_all x.looked ≡ true)
      × (names x.looked ++ x.left ≡ parents x.submission)

  abbrev pub AllSound : List Call → Type 0
  AllSound [] = Unit
  AllSound (x ∷ xs) = Sound x × AllSound xs

  module _ (now : String) (n : ℕ) (es : List Event) (c : Calls) where
    -- An event that does nothing, and the start of a transaction.
    abbrev Waits : Type 0
    Waits =
        ((step cast (finish now n) c).db ≡ c.db)
        × (serial cast (finish now n ∷ es) c ≡ serial cast es (step cast (finish now n) c))

    abbrev Serves : Type 0
    Serves =
        (s : Submission) × ((step cast (finish now n) c).db ≡ serve cast now (request_of s) c.db)
        × (serial cast (finish now n ∷ es) c
            ≡ (now, request_of s) ∷ serial cast es (step cast (finish now n) c))
