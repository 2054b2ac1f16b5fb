-- ===== src/Service/Removal.antt =====
-- Which finished jobs may be removed, and in which order: `planRemoval` of service/service.go, on the
-- candidates that `CleanupCandidates` of storage/sqlite.go finds.
pub mod Marks
pub mod Search
pub mod Rank
pub mod Behind
pub mod Order
pub mod Bulk
use batchq.Shared.{
  ℕ, zero, suc, ◌+◌, Bool, true, false, not, ◌&&◌, ◌||◌, Option, none, some, List, [], ◌∷◌, ◌++◌,
  map, length, String, str_eq, select, any, contains, if◌then◌else◌,
}
use Prim.Native.Nat.{Ordering}
use Prim.Native.String.{compare}
use batchq.Job.Status.{StatusCode, is}
use batchq.Store.Db.{JobRow, Dep, Db, find_row}

abbrev before : Ordering → Bool
before Ordering.lt = true
before _ = false

-- status IN statuses, and where a time is given an end before it; texts compare by their bytes.
unfoldable pub is_candidate : List StatusCode → Option String → JobRow → Bool
is_candidate statuses end_before r = any (λ s. is r.status s) statuses && elim end_before [
  | none ↦ true
  | some t ↦ not (str_eq r.end_time "") && before (compare r.end_time t)
]

-- The candidates, and the dependencies on one of them.
unfoldable pub cleanup_candidates : Db → List StatusCode → Option String → List String × List Dep
cleanup_candidates db statuses end_before =
    let ids = map (λ (r : JobRow). r.id) (select (is_candidate statuses end_before) db.jobs) in
    (ids, select (λ (d : Dep). contains ids d.afterok_id) db.deps)

-- What is known of a job; nothing, where it has no mark.
pub data Mark : Type 0 where
  visiting removable blocked : Mark

-- The map of marks, its newest entry first.
abbrev pub Marks : Type 0
Marks = List (String × Mark)

unfoldable pub mark_of : Marks → String → Option Mark
mark_of [] id = none
mark_of ((j, m) ∷ marks) id = let older = mark_of marks id in if str_eq j id then some m else older

unfoldable pub dependents : List Dep → String → List String
dependents edges id = map (λ d. d.job_id) (select (λ (d : Dep). str_eq d.afterok_id id) edges)

-- The loop over the dependents of a job: the first that cannot be removed ends it.
unfoldable pub all_removable :
    (String → Marks → Option (Bool × Marks)) → List String → Marks → Option (Bool × Marks)
all_removable visit [] marks = some (true, marks)
all_removable visit (d ∷ ds) marks = elim (visit d marks) [
  | none ↦ none
  | some (true, marks') ↦ all_removable visit ds marks'
  | some (false, marks') ↦ some (false, marks')
]

-- The mark that a job gets after its dependents.
abbrev pub conclude : String → Option (Bool × Marks) → Option (Bool × Marks)
conclude id none = none
conclude id (some (true, marks)) = some (true, (id, removable) ∷ marks)
conclude id (some (false, marks)) = some (false, (id, blocked) ∷ marks)

-- `canRemove`, on fuel; `none` means that the fuel ran out.
unfoldable pub can_remove : List String → List Dep → ℕ → String → Marks → Option (Bool × Marks)
can_remove cand edges zero id marks = none
can_remove cand edges (suc fuel) id marks = elim (mark_of marks id) [
  | some visiting ↦ some (false, (id, blocked) ∷ marks)
  | some removable ↦ some (true, marks)
  | some blocked ↦ some (false, marks)
  | none ↦ elim (contains cand id) [
    | false ↦ some (false, (id, blocked) ∷ marks)
    | true ↦ conclude id (
        all_removable (λ d m. can_remove cand edges fuel d m) (dependents edges id)
          ((id, visiting) ∷ marks))
  ]
]

-- The marks and the order found so far; a job is added once it stands in the order.
pub record Progress : Type 0 where
  pub marks : Marks
  pub order : List String

unfoldable pub add_all :
    (String → Progress → Option Progress) → List String → Progress → Option Progress
add_all add [] plan = some plan
add_all add (d ∷ ds) plan = elim (add d plan) [ none ↦ none | some plan' ↦ add_all add ds plan' ]

abbrev pub append_once : String → Option Progress → Option Progress
append_once id none = none
append_once id (some plan) =
    some (if contains plan.order id then plan else record plan { order = plan.order ++ id ∷ [] })

-- `add`, on fuel: `depth` for the visits of `canRemove`, `fuel` for its own.
unfoldable pub add : List String → List Dep → ℕ → ℕ → String → Progress → Option Progress
add cand edges depth zero id plan = none
add cand edges depth (suc fuel) id plan = elim (contains plan.order id) [
  | true ↦ some plan
  | false ↦ elim (can_remove cand edges depth id plan.marks) [
    | none ↦ none
    | some (false, marks) ↦ some (record plan { marks = marks })
    | some (true, marks) ↦ append_once id (
        add_all (λ d p. add cand edges depth fuel d p) (dependents edges id)
          (record plan { marks = marks }))
  ]
]

abbrev is_blocked : Option Mark → Bool
is_blocked (some removable) = false
is_blocked _ = true

-- After the order is found each candidate has a mark, and `canRemove` reads it.
unfoldable pub count_blocked : List String → Marks → ℕ
count_blocked [] marks = 0
count_blocked (id ∷ ids) marks =
    let rest = count_blocked ids marks in if is_blocked (mark_of marks id) then suc rest else rest

-- `planRemoval`: the order, and how many candidates stay.
unfoldable pub plan_removal : ℕ → List String → List Dep → Option (List String × ℕ)
plan_removal fuel cand edges =
    elim (add_all (λ id p. add cand edges fuel fuel id p) cand
      (record { marks = []; order = [] })) [
        | none ↦ none
        | some plan ↦ some (plan.order, count_blocked cand plan.marks)
      ]
