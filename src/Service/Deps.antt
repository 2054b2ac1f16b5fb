-- ===== src/Service/Deps.antt =====
-- The dependencies that a submission names: `parseDepSpecs`, `expandSingleDeps` and
-- `expandArrayDepsForTasks` of service/service.go, on support/taskaddr.go and `FindArrayMembers`.
pub mod Expansion
use batchq.Shared.{
  ℕ, ◌≡◌, Bool, true, false, not, ◌&&◌, ◌||◌, Option, none, some, List, [], ◌∷◌, ◌++◌, map, length,
  String, str_eq, select, ◌==◌, if◌then◌else◌,
}
use batchq.Shared.Int.{ℤ, ltb_ℤ}
use batchq.Shared.Text.{atoi, atoi_value, cut, cut_last}
use batchq.Shared.Result.{Result, ok, err, bad_request, ◌>>=◌, ◌>>◌, guard}
use batchq.Store.Db.{Detail, Db, job_detail}

-- The array and the index of a task's address, "<array_id>_<index>".
unfoldable pub split_task_addr : String → Option (String × String)
split_task_addr arg = elim (cut_last b'_' arg) [
  | none ↦ none
  | some (array_id, index) ↦
      if str_eq array_id "" || str_eq index ""
      then none
      else elim (atoi index) [ none ↦ none | some n ↦ some (array_id, index) ]
]

pub data DepKind : Type 0 where
  afterok aftercorr : DepKind

pub record DepSpec : Type 0 where
  pub kind : DepKind
  pub target : String

abbrev kind_of : String → Option DepKind
kind_of s =
    if str_eq s "afterok"
    then some afterok
    else if str_eq s "aftercorr"
    then some aftercorr
    else none

unfoldable pub parse_dep_spec : String → Result DepSpec
parse_dep_spec d = elim (cut b':' d) [
  | none ↦ err bad_request
  | some (k, target) ↦ elim (kind_of k) [
    | none ↦ err bad_request
    | some kind ↦
        if str_eq target "" then err bad_request else ok (record { kind = kind; target = target })
  ]
]

unfoldable pub parse_dep_specs : List String → Result (List DepSpec)
parse_dep_specs [] = ok []
parse_dep_specs (d ∷ ds) = do spec ← parse_dep_spec d; specs ← parse_dep_specs ds; ok (spec ∷ specs)

pub record ArrayMember : Type 0 where
  pub id : String
  pub index : ℤ

-- The jobs with that `array_id`; a job with no `array_index` counts as the task 0.
unfoldable pub find_array_members : Db → String → List ArrayMember
find_array_members db array_id =
    map (λ d. record { id = d.job_id; index = atoi_value (job_detail db d.job_id "array_index") })
      (select (λ (d : Detail). str_eq d.key "array_id" && str_eq d.value array_id) db.details)

abbrev pub eq_ℤ : ℤ → ℤ → Bool
eq_ℤ a b = not (ltb_ℤ a b) && not (ltb_ℤ b a)

-- The first member with that index.
unfoldable pub member_at : ℤ → List ArrayMember → Option String
member_at want [] = none
member_at want (m ∷ ms) =
    let rest = member_at want ms in if eq_ℤ m.index want then some m.id else rest

-- A task's address names one member; an array that is unknown, or has no such task, is an error.
unfoldable pub resolve_task : Db → String → String → Result String
resolve_task db array_id index =
    elim (member_at (atoi_value index) (find_array_members db array_id)) [
      | none ↦ err bad_request
      | some id ↦ ok id
    ]

-- What one target of a single job stands for: a task, all tasks of an array, or the job it names.
unfoldable pub target_ids : Db → String → Result (List String)
target_ids db target = elim (split_task_addr target) [
  | some (array_id, index) ↦ resolve_task db array_id index >>= λ id. ok (id ∷ [])
  | none ↦ elim (find_array_members db target) [
    | [] ↦ ok (target ∷ [])
    | m ∷ ms ↦ ok (m.id ∷ map (λ (x : ArrayMember). x.id) ms)
  ]
]

unfoldable pub expand_single_deps : Db → List DepSpec → Result (List String)
expand_single_deps db [] = ok []
expand_single_deps db (sp ∷ specs) = elim sp.kind [
  | aftercorr ↦ err bad_request
  | afterok ↦ do ids ← target_ids db sp.target; rest ← expand_single_deps db specs; ok (ids ++ rest)
]

-- The last member with that index: the map `byIndex` keeps the one that was put last.
unfoldable pub by_index : List ArrayMember → ℤ → Option String
by_index [] want = none
by_index (m ∷ ms) want = elim (by_index ms want) [
  | some id ↦ some id
  | none ↦ if eq_ℤ m.index want then some m.id else none
]

-- One entry for each task of the new array: its index and the jobs that it waits for.
unfoldable pub to_each : List String → List ℤ → List (ℤ × List String)
to_each ids [] = []
to_each ids (idx ∷ indices) = (idx, ids) ∷ to_each ids indices

unfoldable pub pair_tasks : List ArrayMember → List ℤ → Result (List (ℤ × List String))
pair_tasks members [] = ok []
pair_tasks members (idx ∷ indices) = elim (by_index members idx) [
  | none ↦ err bad_request
  | some dep ↦ pair_tasks members indices >>= λ rest. ok ((idx, dep ∷ []) ∷ rest)
]

-- The edges that one specification adds.
unfoldable pub spec_edges : Db → List ℤ → DepSpec → Result (List (ℤ × List String))
spec_edges db indices sp = elim sp.kind [
  | afterok ↦ target_ids db sp.target >>= λ ids. ok (to_each ids indices)
  | aftercorr ↦ elim (split_task_addr sp.target) [
    | some addr ↦ err bad_request
    | none ↦
        let members = find_array_members db sp.target in
        guard (not (length members == 0)) bad_request
        >> (guard (length members == length indices) bad_request >> pair_tasks members indices)
  ]
]

-- The edges of each task, joined in the order of the specifications.
unfoldable pub join_edges : List (ℤ × List String) → List (ℤ × List String) → List (ℤ × List String)
join_edges [] more = []
join_edges ((idx, ids) ∷ m) [] = (idx, ids) ∷ m
join_edges ((idx, ids) ∷ m) ((idx', ids') ∷ more) = (idx, ids ++ ids') ∷ join_edges m more

unfoldable pub expand_array_deps : Db → List DepSpec → List ℤ → Result (List (ℤ × List String))
expand_array_deps db [] indices = ok (to_each [] indices)
expand_array_deps db (sp ∷ specs) indices = do
  edges ← spec_edges db indices sp
  rest ← expand_array_deps db specs indices
  ok (join_edges edges rest)
