-- ===== src/Service/Submission/Details.antt =====
-- The details of a submitted job, from the request to the table `job_details`.
use mathlib.Core.Path.{subst}
use batchq.Shared.{
  ◌≡◌, refl, sym, ap, eq_refl, Bool, true, false, not, ◌&&◌, some, List, [], ◌∷◌, map, String,
  str_eq, eq_iff, find, any, arith, if◌then◌else◌, Bool-cases, inl, inr,
}
use batchq.Shared.Result.{
  ok, err, unique_violation, other, guard, >>=-eq-ok, >>-eq-ok, ok-injective,
}
use batchq.Job.Def.{JobDef, JobDefDetail}
use batchq.Store.Db.{Detail, Db, job_detail}
use batchq.Store.Submit.{
  validate_deps, stored_value, insert_row, insert_deps, insert_detail, insert_details, insert_paths,
  dedup_non_empty, insert_job_tx, insert_job,
}
use batchq.Service.Submission.{set_value, value_of, erase_key, to_detail}

pub value_of-set_value :
    (k j v : String) (m : List (String × String))
    → value_of j (set_value k v m) ≡ (if str_eq k j then some v else value_of j m)
unfolding value_of set_value
value_of-set_value k j v [] = refl
value_of-set_value k j v ((i, w) ∷ m) =
    ground (arith, eq_iff k j, eq_iff i k, eq_iff i j, value_of-set_value k j v m)

pub value_of-erase_key :
    (k j : String) (m : List (String × String))
    → str_eq k j ≡ false
    → value_of j (erase_key k m) ≡ value_of j m
unfolding value_of erase_key
value_of-erase_key k j [] e = refl
value_of-erase_key k j ((i, w) ∷ m) e =
    ground (arith, eq_iff k j, eq_iff i k, eq_iff i j, value_of-erase_key k j m e)

abbrev same : String → String → Detail → Bool
same id key d = str_eq d.job_id id && str_eq d.key key

find-any {ℓ} :
    {A : Type ℓ} (p : A → Bool) (xs : List A) (x : A) → find p xs ≡ some x → any p xs ≡ true
unfolding find any
find-any p [] x h = cc
find-any p (y ∷ ys) x h = ground (arith, find-any p ys x)

row_of : String → JobDefDetail → Detail
row_of id d = record { job_id = id; key = d.key; value = stored_value id d }

-- One insertion: no detail of that key was there, and the new one comes first.
insert_detail-ok :
    (id : String) (d : JobDefDetail) (db db' : Db)
    → insert_detail id d db ≡ ok db'
    → (any (same id d.key) db.details ≡ false) × (db'.details ≡ row_of id d ∷ db.details)
unfolding insert_detail row_of
insert_detail-ok id d db db' h = elim (Bool-cases (any (same id d.key) db.details)) [
  | inl twice ↦ let no : err unique_violation ≡ ok db' = rw (twice, insert_detail) at h in cc
  | inr free ↦
      let made : ok (record db { details = row_of id d ∷ db.details }) ≡ ok db' =
        rw (free, insert_detail) at h in
      (free, ap (λ (x : Db). x.details) (sym (ok-injective made)))
]

-- A detail that is there stays when another is inserted, since no second one gets its key.
found-insert_detail :
    (id key : String) (d : JobDefDetail) (x : Detail) (db db' : Db)
    → find (same id key) db.details ≡ some x
    → insert_detail id d db ≡ ok db'
    → find (same id key) db'.details ≡ some x
unfolding find row_of
found-insert_detail id key d x db db' there h =
    let (free, rows) = insert_detail-ok id d db db' h in
    rw rows (elim (Bool-cases (str_eq d.key key)) [
      | inl e ↦
          let is_key : d.key ≡ key = (eq_iff d.key key).0 e in
          let taken = find-any (same id d.key) db.details x (rw is_key there) in
          absurd (ground arith)
      | inr e ↦ rw (eq_refl id, e) there
    ])

found-insert_details :
    (id key : String) (ds : List JobDefDetail) (x : Detail) (db db' : Db)
    → find (same id key) db.details ≡ some x
    → insert_details id ds db ≡ ok db'
    → find (same id key) db'.details ≡ some x
unfolding insert_details
found-insert_details id key [] x db db' there h = rw (← ok-injective h) there
found-insert_details id key (d ∷ ds) x db db' there h =
    let (one, first, rest) = >>=-eq-ok (insert_detail id d db) _ h in
    found-insert_details id key ds x one db' (found-insert_detail id key d x db one there first)
      rest

placed-first :
    (id : String) (d : JobDefDetail) (db db' : Db)
    → insert_detail id d db ≡ ok db'
    → find (same id d.key) db'.details ≡ some (row_of id d)
unfolding find row_of
placed-first id d db db' h =
    let (free, rows) = insert_detail-ok id d db db' h in
    rw rows (rw (eq_refl id, eq_refl d.key) refl)

placed :
    (id key : String) (ds : List (String × String)) (v : String) (db db' : Db)
    → value_of key ds ≡ some v
    → insert_details id (map to_detail ds) db ≡ ok db'
    → find (same id key) db'.details ≡ some (row_of id (record { key = key; value = v }))
unfolding value_of insert_details
placed id key [] v db db' there h = cc
placed id key ((j, w) ∷ ds) v db db' there h =
    let (one, first, rest) = >>=-eq-ok (insert_detail id (to_detail (j, w)) db) _ h in
    elim (Bool-cases (str_eq j key)) [
      | inl e ↦
          let is_key : j ≡ key = (eq_iff j key).0 e in
          let is_value : w ≡ v = ground arith in
          found-insert_details id key (map to_detail ds) _ one db'
            (rw (← is_key, ← is_value) (placed-first id (to_detail (j, w)) db one first)) rest
      | inr e ↦ placed id key ds v one db' (ground arith) rest
    ]

placed_all :
    (id key : String) (l : List JobDefDetail) (ds : List (String × String)) (v : String)
    (db db' : Db)
    → l ≡ map to_detail ds
    → value_of key ds ≡ some v
    → insert_details id l db ≡ ok db'
    → find (same id key) db'.details ≡ some (row_of id (record { key = key; value = v }))
placed_all id key l ds v db db' e there h =
    placed id key ds v db db' there (subst (λ x. insert_details id x db ≡ ok db') e h)

-- Every detail of a job that is inserted is read back, its placeholders filled in.
pub job_detail-insert_job :
    (now key v : String) (job : JobDef) (ds : List (String × String)) (db db' : Db)
    → job.details ≡ map to_detail ds
    → insert_job now job db ≡ ok db'
    → value_of key ds ≡ some v
    → job_detail db' job.job_id key ≡ stored_value job.job_id (record { key = key; value = v })
unfolding insert_job insert_job_tx job_detail row_of
job_detail-insert_job now key v job ds db db' e h there =
    let (named, h0) = >>-eq-ok (guard (not (str_eq job.job_id "")) other) _ h in
    let (valid, h1) = >>-eq-ok (validate_deps db job.after_ok) _ h0 in
    let (rowed, is_row, h2) = >>=-eq-ok (insert_row now job db) _ h1 in
    let (depped, is_dep, h3) = >>=-eq-ok (insert_deps job.job_id job.after_ok rowed) _ h2 in
    let (detailed, is_detail, h4) = >>=-eq-ok (insert_details job.job_id job.details depped) _ h3 in
    let (ins, is_in, h5) =
      >>=-eq-ok (insert_paths job.job_id (dedup_non_empty job.input_files) detailed.inputs) _ h4 in
    let (outs, is_out, h6) =
      >>=-eq-ok (insert_paths job.job_id (dedup_non_empty job.output_files) detailed.outputs) _
        h5 in
    let final : record detailed { inputs = ins; outputs = outs } ≡ db' = ok-injective h6 in
    let there' = placed_all job.job_id key job.details ds v depped detailed e there is_detail in
    rw (← final) (rw (there', job_detail) refl)
