-- ===== src/Service/Archive/Rows.antt =====
-- The rows of jobs under one chunk of an archive (service/service.go, storage/sqlite.go).
use batchq.Shared.{
  ◌≡◌, refl, sym, ap, ◌∙◌, ◌⊎◌, inl, inr, ℕ, zero, suc, ◌+◌, ◌≤◌, ◌<◌, Bool, true, false, ◌&&◌,
  ◌||◌, Option, none, some, List, [], ◌∷◌, ◌++◌, String, str_eq, eq_iff, arith, Bool-cases,
  Option-cases, find, length, any, contains, if◌then◌else◌,
}
use batchq.Shared.Result.{Result, ok, err, >>=-eq-ok}
use batchq.Store.Db.{JobRow, Dep, Db, empty_db, find_row, status_of, status_test}
use batchq.Store.Laws.{find_row-id}
use batchq.Store.Cleanup.{
  delete_children, delete_jobs, cleanup_jobs, chunks, chunks_from, delete_all_children,
  delete_all_jobs,
}
use batchq.Store.Cleanup.Effect.{select-find_row}
use batchq.Service.Archive.{
  Clock, StoredJob, scan_times, load_row, load_jobs, restored, restore_row, restore_job,
  restore_jobs,
}

-- At most the ids of one statement.
abbrev pub AllSmall : List (List String) → Type 0
AllSmall [] = Unit
AllSmall (c ∷ cs) = (length c ≤ 500) × AllSmall cs

length-snoc : (xs : List String) (x : String) → length (xs ++ x ∷ []) ≡ suc (length xs)
length-snoc [] x = refl
length-snoc (y ∷ ys) x = omega (arith, length-snoc ys x)

chunks_from-AllSmall :
    (left : ℕ) (chunk ids : List String)
    → length chunk + left ≤ 500
    → AllSmall (chunks_from left chunk ids)
unfolding chunks_from
chunks_from-AllSmall left chunk [] h = (omega arith, tt)
chunks_from-AllSmall zero chunk (id ∷ ids) h =
    (omega arith, chunks_from-AllSmall 499 (id ∷ []) ids (omega arith))
chunks_from-AllSmall (suc left) chunk (id ∷ ids) h =
    chunks_from-AllSmall left (chunk ++ id ∷ []) ids (omega (arith, length-snoc chunk id))

pub chunks-AllSmall : (ids : List String) → AllSmall (chunks ids)
unfolding chunks
chunks-AllSmall [] = tt
chunks-AllSmall (id ∷ ids) = chunks_from-AllSmall 499 (id ∷ []) ids (omega arith)

++-nil : (xs : List String) → xs ++ [] ≡ xs
++-nil [] = refl
++-nil (x ∷ xs) = ap (λ t. x ∷ t) (++-nil xs)

++-assoc : (xs ys zs : List String) → (xs ++ ys) ++ zs ≡ xs ++ (ys ++ zs)
++-assoc [] ys zs = refl
++-assoc (x ∷ xs) ys zs = ap (λ t. x ∷ t) (++-assoc xs ys zs)

chunks_from-one :
    (left : ℕ) (chunk ids : List String)
    → length ids ≤ left
    → chunks_from left chunk ids ≡ (chunk ++ ids) ∷ []
unfolding chunks_from
chunks_from-one left chunk [] h = ap (λ c. c ∷ []) (sym (++-nil chunk))
chunks_from-one zero chunk (id ∷ ids) h = absurd (omega arith)
chunks_from-one (suc left) chunk (id ∷ ids) h =
    chunks_from-one left (chunk ++ id ∷ []) ids (omega arith)
    ∙ ap (λ c. c ∷ []) (++-assoc chunk (id ∷ []) ids)

abbrev pub Removed : List String → Db → Result (Unit {0}) × Db → Type 0
Removed c db out =
    (out.1.jobs ≡ db.jobs)
    ⊎ ((out.0 ≡ ok tt)
        × ((k : String)
            → find_row k out.1.jobs ≡ (if contains c k then none else find_row k db.jobs)))

one_chunk :
    (c : List String) (db cleared : Db)
    → cleared.jobs ≡ db.jobs
    → Removed c db (delete_all_jobs (c ∷ []) cleared)
unfolding delete_all_jobs delete_jobs
one_chunk c db cleared e =
    elim (Bool-cases (
      any
        (λ (d : Dep).
          contains c d.afterok_id && status_test (λ s. true) (status_of cleared d.afterok_id))
        cleared.deps)) [
          | inl refused ↦ rw (delete_all_jobs, delete_jobs, refused) (inl e)
          | inr free ↦
              rw (delete_all_jobs, delete_jobs, free)
                (inr (refl, λ k. rw e (select-find_row c k db.jobs)))
        ]

-- The removal of one chunk takes all its jobs, or none.
pub cleanup_jobs-Removed :
    (c : List String) (db : Db) → length c ≤ 500 → Removed c db (cleanup_jobs c db)
unfolding cleanup_jobs chunks delete_all_children delete_children delete_all_jobs
cleanup_jobs-Removed [] db small = inl refl
cleanup_jobs-Removed (id ∷ ids) db small =
    rw (chunks_from-one 499 (id ∷ []) ids (omega arith))
      (one_chunk (id ∷ ids) db (delete_children (id ∷ ids) db) refl)

abbrev pub or_else : Option JobRow → Option JobRow → Option JobRow
or_else none d = d
or_else (some r) d = some r

find_row-cons :
    (r : JobRow) (rows : List JobRow) (k : String)
    → find_row k (r ∷ rows) ≡ (if str_eq r.id k then some r else find_row k rows)
unfolding find_row find
find_row-cons r rows k = refl

or_else-none : (o : Option JobRow) → or_else o none ≡ o
or_else-none none = refl
or_else-none (some r) = refl

or_else-some :
    (o : Option JobRow) (r : JobRow) (d : Option JobRow)
    → or_else (or_else o (some r)) d ≡ or_else o (some r)
or_else-some none r d = refl
or_else-some (some x) r d = refl

abbrev none_row : Option JobRow
none_row = none

if_none : (b : Bool) → (if b then none else none) ≡ none_row
if_none true = refl
if_none false = refl

some-eq : {a b : JobRow} → some a ≡ some b → a ≡ b
some-eq h = cc

find_row-restore_row :
    (r : JobRow) (rows : List JobRow) (k : String)
    → find_row k (restore_row r rows)
      ≡ or_else (find_row k rows) (if str_eq r.id k then some r else none)
unfolding restore_row
find_row-restore_row r rows k = elim (Option-cases (find_row r.id rows)) [
  | inl e ↦ elim (Bool-cases (str_eq r.id k)) [
    | inl same ↦
        let bare : find_row k rows ≡ none = rw ((eq_iff r.id k).0 same) at e in
        rw (restore_row, e, same, bare) (rw (find_row-cons r rows k, same) refl)
    | inr other_id ↦
        rw (restore_row, e, other_id)
          (rw (find_row-cons r rows k, other_id, or_else-none (find_row k rows)) refl)
  ]
  | inr (old, e) ↦
      rw (restore_row, e)
        (elim (Bool-cases (str_eq r.id k)) [
          | inl same ↦
              let held : find_row k rows ≡ some old = rw ((eq_iff r.id k).0 same) at e in
              rw held refl
          | inr other_id ↦ rw (other_id, or_else-none (find_row k rows)) refl
        ])
]

module _ {Time : Type 0} (clock : Clock Time) where
  -- A row with its times read and written again; `none` where one of them is no time.
  abbrev rewritten_by : JobRow → Result (Time × Time × Time) → Option JobRow
  rewritten_by r (err e) = none
  rewritten_by r (ok times) = some (restored clock (load_row clock empty_db r times))

  abbrev pub rewritten : JobRow → Option JobRow
  rewritten r = rewritten_by r (scan_times clock r)

  abbrev pub rewritten_of : Option JobRow → Option JobRow
  rewritten_of none = none
  rewritten_of (some r) = rewritten r

  -- One job of a chunk that is loaded.
  load_jobs-first :
      (live : Db) (id : String) (ids : List String) (x : JobRow) (batch : List (StoredJob Time))
      → find_row id live.jobs ≡ some x
      → load_jobs clock live (id ∷ ids) ≡ ok batch
      → (times : Time × Time × Time) × (js : List (StoredJob Time)) × (scan_times clock x
          ≡ ok times)
        × (load_jobs clock live ids ≡ ok js)
        × (load_row clock live x times ∷ js ≡ batch)
  unfolding load_jobs
  load_jobs-first live id ids x batch e h =
      let (times, scanned, h1) = >>=-eq-ok (scan_times clock x) _ (rw (load_jobs, e) at h) in
      let (js, loaded, h2) = >>=-eq-ok (load_jobs clock live ids) _ h1 in
      let same : load_row clock live x times ∷ js ≡ batch = cc in (times, js, scanned, loaded, same)

  -- The archive has the rows of the chunk, unless it had one of that id.
  pub find_row-restore_jobs :
      (live : Db) (chunk : List String) (arc arc' : Db) (batch : List (StoredJob Time)) (k : String)
      → load_jobs clock live chunk ≡ ok batch
      → restore_jobs clock batch arc ≡ ok arc'
      → find_row k arc'.jobs
        ≡ or_else
            (find_row k arc.jobs)
            (if contains chunk k then rewritten_of (find_row k live.jobs) else none)
  unfolding load_jobs restore_jobs restore_job restored contains
  find_row-restore_jobs live [] arc arc' batch k l h =
      let bare : [] ≡ batch = cc in
      let same : arc ≡ arc' = ground (arith, rw (← bare, restore_jobs) at h) in
      rw (← same) (sym (or_else-none (find_row k arc.jobs)))
  find_row-restore_jobs live (id ∷ ids) arc arc' batch k l h =
      elim (Option-cases (find_row id live.jobs)) [
        | inl e ↦
            let rest = find_row-restore_jobs live ids arc arc' batch k (rw (load_jobs, e) at l) h in
            elim (Bool-cases (str_eq id k)) [
              | inl same ↦
                  let bare : find_row k live.jobs ≡ none = rw ((eq_iff id k).0 same) at e in
                  rw (rest, bare, if_none (contains ids k), if_none (str_eq id k || contains ids k))
                    refl
              | inr other_id ↦ rw (rest, other_id) refl
            ]
        | inr (x, e) ↦
            let (times, js, scanned, loaded, cons) = load_jobs-first live id ids x batch e l in
            let h' : restore_jobs clock (load_row clock live x times ∷ js) arc ≡ ok arc' =
              rw (← cons) at h in
            elim (Bool-cases (str_eq x.id "")) [
              | inl blank ↦ absurd (ground (arith, rw (restore_jobs, blank) at h'))
              | inr named ↦
                  let j = load_row clock live x times in
                  let rest =
                    find_row-restore_jobs live ids (restore_job clock j arc) arc' js k loaded
                      (rw (restore_jobs, named) at h') in
                  let one = find_row-restore_row (restored clock j) arc.jobs k in
                  let at_k : str_eq x.id k ≡ str_eq id k =
                    ap (λ i. str_eq i k) (find_row-id id live.jobs x e) in
                  elim (Bool-cases (str_eq id k)) [
                    | inl same ↦
                        let held : find_row k live.jobs ≡ some x = rw ((eq_iff id k).0 same) at e in
                        let first : rewritten x ≡ some (restored clock j) = rw scanned refl in
                        rw (rest, one, at_k, same, held, first)
                          (or_else-some (find_row k arc.jobs) (restored clock j) _)
                    | inr other_id ↦
                        rw (rest, one, at_k, other_id, or_else-none (find_row k arc.jobs)) refl
                  ]
            ]
      ]

  -- A chunk with a job of the tables is not loaded as nothing, and then the times of the job were read.
  pub load_jobs-some :
      (live : Db) (chunk : List String) (batch : List (StoredJob Time)) (k : String) (r : JobRow)
      → contains chunk k ≡ true
      → find_row k live.jobs ≡ some r
      → load_jobs clock live chunk ≡ ok batch
      → (0 < length batch) × (r' : JobRow) × (rewritten r ≡ some r')
  unfolding load_jobs contains
  load_jobs-some live [] batch k r h there l = cc
  load_jobs-some live (id ∷ ids) batch k r h there l = elim (Option-cases (find_row id live.jobs)) [
    | inl e ↦ elim (Bool-cases (str_eq id k)) [
      | inl same ↦
          let bare : find_row k live.jobs ≡ none = rw ((eq_iff id k).0 same) at e in
          absurd (ground (arith, bare, there))
      | inr other_id ↦
          load_jobs-some live ids batch k r (ground (arith, h, other_id)) there
            (rw (load_jobs, e) at l)
    ]
    | inr (x, e) ↦
        let (times, js, scanned, loaded, cons) = load_jobs-first live id ids x batch e l in
        let longer : 0 < length batch = rw (← cons) (omega arith) in
        elim (Bool-cases (str_eq id k)) [
          | inl same ↦
              let held : find_row k live.jobs ≡ some x = rw ((eq_iff id k).0 same) at e in
              let same_row : x ≡ r = some-eq (sym held ∙ there) in
              (
                longer,
                restored clock (load_row clock empty_db x times),
                rw (← same_row) (rw scanned refl),
              )
          | inr other_id ↦
              let (some_left, r', times_read) =
                load_jobs-some live ids js k r (ground (arith, h, other_id)) there loaded in
              (longer, r', times_read)
        ]
  ]
