-- ===== src/Store/Invariant/Scans.antt =====
-- What a runner that submits arrays gets from the queue (storage/sqlite.go, `ClaimNextArrayBatch`).
use batchq.Shared.{
  ◌≡◌, refl, ◌∙◌, sym, ◌⊎◌, Bool, true, false, List, [], ◌∷◌, map, length, arith, eq_refl, String,
  ℕ, ◌+◌, ltb, leb, str_eq, contains, select, Bool-cases, inl, inr,
}
use batchq.Shared.Int.{ℤ, pos, negsuc, ltb_ℤ}
use batchq.Shared.Text.{atoi_value}
use batchq.Shared.Result.{ok, ok-injective}
use batchq.Store.Db.{Db, Detail, job_detail}
use batchq.Store.Claim.{claim_job, queue_order}
use batchq.Store.Claim.Fits.{Limits}
use batchq.Store.Claim.Order.{queue_order-queued}
use batchq.Store.Batch.{
  ArrayTask, ArrayClaimResult, insert_task, sort_tasks, queued_tasks, claimable, is_deferred,
  falls_short, claim_array_tasks, scan, claim_next_array_batch, Seen, none_seen, fits,
}
use batchq.Store.Lifecycle.Moves.{Follows}
use batchq.Store.Wf.{Wf}
use batchq.Store.Invariant.Batches.{
  Each, Claimable, ClaimableTasks, ClaimedTasks, Grows, Grows-refl, Grows-trans, claim_job-Grows,
  claim_tasks-Grows, claim_tasks-all, claim_tasks-bound, has_room,
}

module _ (P : Detail → Type 0) (cast : String → ℤ) where
  insert_task-Each :
      (d : Detail) (es : List Detail) → P d → Each P es → Each P (insert_task cast d es)
  unfolding insert_task
  insert_task-Each d [] p h = (p, tt)
  insert_task-Each d (e ∷ es) p h = elim (Bool-cases (ltb_ℤ (cast d.value) (cast e.value))) [
    | inl l ↦ rw l (p, h)
    | inr g ↦ rw g (h.0, insert_task-Each d es p h.1)
  ]

  sort_tasks-Each : (ds : List Detail) → Each P ds → Each P (sort_tasks cast ds)
  unfolding sort_tasks
  sort_tasks-Each [] h = tt
  sort_tasks-Each (d ∷ ds) h = insert_task-Each d (sort_tasks cast ds) h.0 (sort_tasks-Each ds h.1)

select-Each :
    (p : Detail → Bool) (P : Detail → Type 0)
    → ((d : Detail) → p d ≡ true → P d)
    → (ds : List Detail) → Each P (select p ds)
unfolding select
select-Each p P h [] = tt
select-Each p P h (d ∷ ds) = elim (Bool-cases (p d)) [
  | inl y ↦ rw y (h d y, select-Each p P h ds)
  | inr n ↦ rw n (select-Each p P h ds)
]

tasks-Each :
    (db : Db) (ds : List Detail)
    → Each (λ (d : Detail). Claimable db d.job_id) ds
    → ClaimableTasks db (map (λ d. record { job_id = d.job_id; index = atoi_value d.value }) ds)
tasks-Each db [] h = tt
tasks-Each db (d ∷ ds) h = (h.0, tasks-Each db ds h.1)

queued_tasks-Claimable :
    (cast : String → ℤ) (db : Db) (array_id : String)
    → ClaimableTasks db (queued_tasks cast db array_id)
unfolding queued_tasks
queued_tasks-Claimable cast db array_id = tasks-Each db _ (
    sort_tasks-Each (λ d. Claimable db d.job_id) cast _
      (select-Each _ (λ d. Claimable db d.job_id) (λ d h. inl (ground arith)) db.details))

not_deferred-has_room :
    (max_tasks min_tasks : ℤ) (n : ℕ)
    → is_deferred max_tasks min_tasks true n ≡ false
    → has_room max_tasks (0 + n) ≡ true
unfolding is_deferred claimable falls_short
not_deferred-has_room (negsuc m) min_tasks n h = refl
not_deferred-has_room (pos m) min_tasks n h = ground arith

tasks-cases :
    (ts : List ArrayTask)
    → (ts ≡ []) ⊎ ((t : ArrayTask) × (rest : List ArrayTask) × (ts ≡ t ∷ rest))
tasks-cases [] = inl refl
tasks-cases (t ∷ rest) = inr (t, rest, refl)

module _ (cast : String → ℤ) (now runner kind : String) where
  claim_array_tasks-Grows :
      (array_id : String) (max_tasks min_tasks : ℤ) (full_array : Bool) (db : Db)
      → Wf db
      → Grows db
          (claim_array_tasks cast now array_id runner kind max_tasks min_tasks full_array db).1
  unfolding claim_array_tasks
  claim_array_tasks-Grows array_id max_tasks min_tasks full_array db w =
      let cands = queued_tasks cast db array_id in
      elim (Bool-cases (is_deferred max_tasks min_tasks full_array (length cands))) [
        | inl held ↦ rw held (Grows-refl db)
        | inr taken ↦ rw taken (
            claim_tasks-Grows now runner kind max_tasks cands [] false db w
              (queued_tasks-Claimable cast db array_id))
      ]

  -- A batch that is taken has at most as many tasks as the runner asked for, where it gave a bound.
  pub claim_array_tasks-bound :
      (array_id : String) (m : ℕ) (min_tasks : ℤ) (full_array : Bool) (db : Db)
      → ltb 0 m ≡ true
      → leb
          (length
            (claim_array_tasks cast now array_id runner kind
              (pos m)
              min_tasks
              full_array
              db).0.tasks)
          m
        ≡ true
  unfolding claim_array_tasks
  claim_array_tasks-bound array_id m min_tasks full_array db p =
      let cands = queued_tasks cast db array_id in
      elim (Bool-cases (is_deferred (pos m) min_tasks full_array (length cands))) [
        | inl held ↦ rw held (ground arith)
        | inr taken ↦
            rw taken (claim_tasks-bound now runner kind m cands [] false db p (ground arith))
      ]

  -- In a well-formed store a batch in the mode for whole arrays is all or nothing: it is deferred and
  -- no job is claimed, or in the end every task of the array that was QUEUED has a claim.
  pub claim_array_tasks-full_array :
      (array_id : String) (max_tasks min_tasks : ℤ) (db : Db)
      → Wf db
      → let r = claim_array_tasks cast now array_id runner kind max_tasks min_tasks true db in
        ((r.0.deferred ≡ true) × (r.0.tasks ≡ []) × (r.1 ≡ db))
        ⊎ ((r.0.deferred ≡ false) × ClaimedTasks r.1 (queued_tasks cast db array_id))
  unfolding claim_array_tasks
  claim_array_tasks-full_array array_id max_tasks min_tasks db w =
      let cands = queued_tasks cast db array_id in
      elim (Bool-cases (is_deferred max_tasks min_tasks true (length cands))) [
        | inl held ↦ inl (rw held (refl, refl, refl))
        | inr taken ↦ inr (
            rw taken (
              refl,
              claim_tasks-all now runner kind max_tasks cands [] false db w
                  (queued_tasks-Claimable cast db array_id)
                  (not_deferred-has_room max_tasks min_tasks (length cands) taken),
            ))
      ]

  ClaimableIds : Db → List String → Type 0
  ClaimableIds db ids = Each (λ k. Claimable db k) ids

  ClaimableIds-Grows :
      (db db' : Db) (ids : List String) → Grows db db' → ClaimableIds db ids → ClaimableIds db' ids
  unfolding ClaimableIds
  ClaimableIds-Grows db db' [] g h = tt
  ClaimableIds-Grows db db' (k ∷ ids) g h = (g.claimable k h.0, ClaimableIds-Grows db db' ids g h.1)

  queue-Claimable :
      (db : Db) (ids : List String)
      → ((k : String) → contains ids k ≡ true → Claimable db k)
      → ClaimableIds db ids
  unfolding contains ClaimableIds
  queue-Claimable db [] h = tt
  queue-Claimable db (k ∷ ids) h =
      (h k (rw eq_refl refl), queue-Claimable db ids (λ j e. h j (ground arith)))

  module _ (limits : Limits) (max_tasks min_tasks : ℤ) (full_array : Bool) where
    scan-Grows :
        (ids : List String) (seen : Seen) (db : Db)
        → Wf db
        → ClaimableIds db ids
        → Grows db (scan cast now runner kind limits max_tasks min_tasks full_array ids seen db).1
    unfolding scan ClaimableIds
    scan-Grows [] seen db w h = Grows-refl db
    scan-Grows (id ∷ ids) seen db w h =
        let array_id = job_detail db id "array_id" in
        let (g, mine) = claim_job-Grows now runner kind id db w h.0 in
        let gs = claim_array_tasks-Grows array_id max_tasks min_tasks full_array db w in
        let r = claim_array_tasks cast now array_id runner kind max_tasks min_tasks full_array db in
        elim (Bool-cases (fits limits db id)) [
          | inr unfit ↦ rw unfit (scan-Grows ids _ db w h.1)
          | inl fit ↦ elim (Bool-cases (str_eq array_id "")) [
            | inl plain ↦ elim (Bool-cases (claim_job now id runner kind db).0) [
              | inl won ↦ rw (fit, plain, won) g
              | inr lost ↦ rw (fit, plain, lost) (scan-Grows ids _ db w h.1)
            ]
            | inr task ↦ elim (Bool-cases (contains seen.deferred_arrays array_id)) [
              | inl again ↦ rw (fit, task, again) (scan-Grows ids _ db w h.1)
              | inr new ↦ elim (Bool-cases r.0.deferred) [
                | inl held ↦ rw (fit, task, new, held) (scan-Grows ids _ db w h.1)
                | inr taken ↦ elim (tasks-cases r.0.tasks) [
                  | inl e ↦
                      rw (fit, task, new, taken, e)
                        (Grows-trans db _ _ gs
                          (scan-Grows ids _ _ (gs.wf w) (ClaimableIds-Grows db _ ids gs h.1)))
                  | inr (t, ts, e) ↦ rw (fit, task, new, taken, e) gs
                ]
              ]
            ]
          ]
        ]

  claim_next_array_batch-Grows :
      (limits : Limits) (max_tasks min_tasks : ℤ) (full_array : Bool) (db : Db)
      (r : ArrayClaimResult × Db)
      → claim_next_array_batch cast now runner kind limits max_tasks min_tasks full_array db ≡ ok r
      → Wf db
      → Grows db r.1
  unfolding claim_next_array_batch ClaimableIds
  claim_next_array_batch-Grows limits max_tasks min_tasks full_array db r h w =
      elim (Bool-cases (str_eq runner "")) [
        | inl e ↦ absurd (ground arith)
        | inr named ↦
            let grown =
              scan-Grows limits max_tasks min_tasks full_array (queue_order db) none_seen db w (
                queue-Claimable db (queue_order db)
                  (λ k c. inl (sym (queue_order-queued db k w.keys) ∙ c))) in
            let same : scan cast now runner kind limits max_tasks min_tasks full_array
                  (queue_order db) none_seen db
                ≡ r =
              ok-injective (rw named at h) in
            rw (← same) grown
      ]

  pub claim_next_array_batch-Wf :
      (limits : Limits) (max_tasks min_tasks : ℤ) (full_array : Bool) (db : Db)
      (r : ArrayClaimResult × Db)
      → claim_next_array_batch cast now runner kind limits max_tasks min_tasks full_array db ≡ ok r
      → Wf db
      → Wf r.1
  claim_next_array_batch-Wf limits max_tasks min_tasks full_array db r h w =
      (claim_next_array_batch-Grows limits max_tasks min_tasks full_array db r h w).wf w

  pub claim_next_array_batch-Follows :
      (limits : Limits) (max_tasks min_tasks : ℤ) (full_array : Bool) (db : Db)
      (r : ArrayClaimResult × Db)
      → claim_next_array_batch cast now runner kind limits max_tasks min_tasks full_array db ≡ ok r
      → Wf db
      → Follows db r.1
  claim_next_array_batch-Follows limits max_tasks min_tasks full_array db r h w =
      (claim_next_array_batch-Grows limits max_tasks min_tasks full_array db r h w).moves
