-- ===== src/Store/Invariant/Batches.antt =====
-- Claims of array batches keep the invariant of the store, and the gates on them hold
-- (storage/sqlite.go, `ClaimNextArrayBatch` and `claimArrayTasksTx`).
use batchq.Shared.{
  ◌≡◌, refl, ap, ◌⊎◌, Bool, true, false, not, ◌&&◌, List, [], ◌∷◌, ◌++◌, length, arith, eq_iff,
  String, ℕ, suc, ◌+◌, ltb, leb, str_eq, Bool-cases, Option-cases, inl, inr, length-append,
}
use batchq.Shared.Int.{ℤ, pos, negsuc}
use batchq.Job.Status.{queued, is}
use batchq.Store.Db.{Db, status_of, status_test, owner_of}
use batchq.Store.Claim.{claim_job}
use batchq.Store.Batch.{ArrayTask, is_full, claim_tasks}
use batchq.Store.Lifecycle.Moves.{Follows, Follows-refl, Follows-trans, Claims-Follows}
use batchq.Store.Wf.{Wf, claimed}
use batchq.Store.Invariant.Claims.{Claims, claim_job_exact}

abbrev pub Each {ℓ} : {A : Type ℓ} → (A → Type 0) → List A → Type 0
Each P [] = Unit
Each P (a ∷ rest) = P a × Each P rest

-- A runner may ask for the job: it waits in the queue, or another claim came first.
abbrev pub Claimable : Db → String → Type 0
Claimable db k = (status_test (λ s. is s queued) (status_of db k) ≡ true) ⊎ (claimed db k ≡ true)

abbrev pub ClaimableTasks : Db → List ArrayTask → Type 0
ClaimableTasks db cs = Each (λ (c : ArrayTask). Claimable db c.job_id) cs

-- Each of the jobs has a claim.
abbrev pub ClaimedTasks : Db → List ArrayTask → Type 0
ClaimedTasks db cs = Each (λ (c : ArrayTask). claimed db c.job_id ≡ true) cs

ClaimedTasks-same : (a b : Db) (cs : List ArrayTask) → a ≡ b → ClaimedTasks b cs → ClaimedTasks a cs
ClaimedTasks-same a b [] e h = tt
ClaimedTasks-same a b (c ∷ cs) e h = (rw e h.0, ClaimedTasks-same a b cs e h.1)

-- From `db` to `db'` jobs are claimed, and none is given back.
pub record Grows (db db' : Db) : Type 0 where
  pub wf : Wf db → Wf db'
  pub claimable : (k : String) → Claimable db k → Claimable db' k
  pub moves : Follows db db'
  pub claimed : (k : String) → claimed db k ≡ true → claimed db' k ≡ true

pub Grows-refl : (db : Db) → Grows db db
Grows-refl db = record {
  wf = λ w. w;
  moves = Follows-refl db;
  claimable = λ k c. c;
  claimed = λ k c. c;
}

pub Grows-trans : (a b c : Db) → Grows a b → Grows b c → Grows a c
Grows-trans a b c f g = record {
  wf = λ w. g.wf (f.wf w);
  moves = Follows-trans a b c f.moves g.moves;
  claimable = λ k h. g.claimable k (f.claimable k h);
  claimed = λ k h. g.claimed k (f.claimed k h);
}

Claims-claimed :
    (id runner : String) (db db' : Db)
    → Claims id runner db db'
    → (k : String) → (claimed db k ≡ true) ⊎ (id ≡ k)
    → claimed db' k ≡ true
Claims-claimed id runner db db' c k (inl h) = ground (arith, c.owner k)
Claims-claimed id runner db db' c k (inr e) = ground (arith, c.owner k, eq_iff id k)

Claims-Grows :
    (id runner : String) (db db' : Db)
    → status_test (λ s. is s queued) (status_of db id) ≡ true
    → Claims id runner db db'
    → (Wf db → Wf db')
    → Grows db db'
Claims-Grows id runner db db' queued_before c wf = record {
  wf = wf;
  moves = Claims-Follows id runner db db' queued_before c;
  claimed = λ k h. Claims-claimed id runner db db' c k (inl h);
  claimable = λ k h. elim h [
    | inr taken ↦ inr (Claims-claimed id runner db db' c k (inl taken))
    | inl was ↦ elim (Bool-cases (str_eq id k)) [
      | inl e ↦ inr (Claims-claimed id runner db db' c k (inr ((eq_iff id k).0 e)))
      | inr n ↦ inl (ground (arith, c.status k))
    ]
  ];
}

-- The bound does not stop a loop that takes n tasks in all.
abbrev pub has_room : ℤ → ℕ → Bool
has_room (negsuc m) n = true
has_room (pos m) n = not (ltb 0 m && ltb m n)

has_room-is_full : (m : ℤ) (d r : ℕ) → has_room m (d + suc r) ≡ true → is_full m d ≡ false
unfolding is_full
has_room-is_full (negsuc m) d r h = refl
has_room-is_full (pos m) d r h = ground arith

has_room-less : (m : ℤ) (d r : ℕ) → has_room m (d + suc r) ≡ true → has_room m (d + r) ≡ true
has_room-less (negsuc m) d r h = refl
has_room-less (pos m) d r h = ground arith

has_room-snoc :
    (m : ℤ) (done : List ArrayTask) (c : ArrayTask) (cs : List ArrayTask)
    → has_room m (length done + suc (length cs)) ≡ true
    → has_room m (length (done ++ c ∷ []) + length cs) ≡ true
has_room-snoc (negsuc m) done c cs h = refl
has_room-snoc (pos m) done c cs h = ground (arith, length-append done (c ∷ []))

module _ (now runner kind : String) where
  claim_job-lost :
      (id : String) (db : Db) → claimed db id ≡ true → claim_job now id runner kind db ≡ (false, db)
  unfolding claim_job
  claim_job-lost id db taken = ground (arith, Option-cases (owner_of db id))

  lost_claimed :
      (id : String) (db : Db)
      → Wf db
      → Claimable db id
      → (claim_job now id runner kind db).0 ≡ false
      → claimed db id ≡ true
  lost_claimed id db w (inl was) lost =
      let (won, c, w') = claim_job_exact now id runner kind db w was in absurd (ground arith)
  lost_claimed id db w (inr taken) lost = taken

  pub claim_job-Grows :
      (id : String) (db : Db)
      → Wf db
      → Claimable db id
      → Grows db (claim_job now id runner kind db).1
        × (claimed (claim_job now id runner kind db).1 id ≡ true)
  claim_job-Grows id db w (inl was) =
      let (won, c, w') = claim_job_exact now id runner kind db w was in
      (Claims-Grows id runner db _ was c (λ _. w'), Claims-claimed id runner db _ c id (inr refl))
  claim_job-Grows id db w (inr taken) = rw (claim_job-lost id db taken) (Grows-refl db, taken)

  ClaimableTasks-Grows :
      (db db' : Db) (cs : List ArrayTask)
      → Grows db db'
      → ClaimableTasks db cs
      → ClaimableTasks db' cs
  ClaimableTasks-Grows db db' [] g h = tt
  ClaimableTasks-Grows db db' (c ∷ cs) g h =
      (g.claimable c.job_id h.0, ClaimableTasks-Grows db db' cs g h.1)

  module _ (max_tasks : ℤ) (c : ArrayTask) (cs done : List ArrayTask) (more : Bool) (db : Db)
      (room : is_full max_tasks (length done) ≡ false) where
    claim_tasks-won :
        (claim_job now c.job_id runner kind db).0 ≡ true
        → claim_tasks now runner kind max_tasks (c ∷ cs) done more db
          ≡ claim_tasks now runner kind max_tasks cs
              (done ++ c ∷ [])
              more
              (claim_job now c.job_id runner kind db).1
    unfolding claim_tasks
    claim_tasks-won won = rw (room, won) refl

    claim_tasks-lost :
        (claim_job now c.job_id runner kind db).0 ≡ false
        → claim_tasks now runner kind max_tasks (c ∷ cs) done more db
          ≡ claim_tasks now runner kind max_tasks cs done true db
    unfolding claim_tasks
    claim_tasks-lost lost = rw (room, lost) refl

  pub claim_tasks-Grows :
      (max_tasks : ℤ) (cs done : List ArrayTask) (more : Bool) (db : Db)
      → Wf db
      → ClaimableTasks db cs
      → Grows db (claim_tasks now runner kind max_tasks cs done more db).1
  unfolding claim_tasks
  claim_tasks-Grows max_tasks [] done more db w h = Grows-refl db
  claim_tasks-Grows max_tasks (c ∷ cs) done more db w h =
      let (g, mine) = claim_job-Grows c.job_id db w h.0 in
      elim (Bool-cases (is_full max_tasks (length done))) [
        | inl full ↦ rw full (Grows-refl db)
        | inr room ↦ elim (Bool-cases (claim_job now c.job_id runner kind db).0) [
          | inl won ↦
              rw (room, won)
                (Grows-trans db _ _ g (
                  claim_tasks-Grows max_tasks cs (done ++ c ∷ []) more _ (g.wf w)
                    (ClaimableTasks-Grows db _ cs g h.1)))
          | inr lost ↦ rw (room, lost) (claim_tasks-Grows max_tasks cs done true db w h.1)
        ]
      ]

  -- Each candidate has a claim in the end where the bound leaves room for all of them.
  pub claim_tasks-all :
      (max_tasks : ℤ) (cs done : List ArrayTask) (more : Bool) (db : Db)
      → Wf db
      → ClaimableTasks db cs
      → has_room max_tasks (length done + length cs) ≡ true
      → ClaimedTasks (claim_tasks now runner kind max_tasks cs done more db).1 cs
  claim_tasks-all max_tasks [] done more db w h r = tt
  claim_tasks-all max_tasks (c ∷ cs) done more db w h r =
      let (g, mine) = claim_job-Grows c.job_id db w h.0 in
      let room : is_full max_tasks (length done) ≡ false = has_room-is_full max_tasks _ _ r in
      let later = ClaimableTasks-Grows db _ cs g h.1 in
      elim (Bool-cases (claim_job now c.job_id runner kind db).0) [
        | inl won ↦
            ClaimedTasks-same _ _ (c ∷ cs)
              (ap (λ r. r.1) (claim_tasks-won max_tasks c cs done more db room won))
              (
                (claim_tasks-Grows max_tasks cs (done ++ c ∷ []) more _ (g.wf w) later).claimed
                    c.job_id mine,
                claim_tasks-all max_tasks cs (done ++ c ∷ []) more _ (g.wf w) later
                    (has_room-snoc max_tasks done c cs r),
              )
        | inr lost ↦
            let stays : claimed db c.job_id ≡ true = lost_claimed c.job_id db w h.0 lost in
            ClaimedTasks-same _ _ (c ∷ cs)
              (ap (λ r. r.1) (claim_tasks-lost max_tasks c cs done more db room lost))
              (
                (claim_tasks-Grows max_tasks cs done true db w h.1).claimed c.job_id stays,
                claim_tasks-all max_tasks cs done true db w h.1 (has_room-less max_tasks _ _ r),
              )
      ]

  -- A bound that is positive is kept.
  pub claim_tasks-bound :
      (m : ℕ) (cs done : List ArrayTask) (more : Bool) (db : Db)
      → ltb 0 m ≡ true
      → leb (length done) m ≡ true
      → leb (length (claim_tasks now runner kind (pos m) cs done more db).0.0) m ≡ true
  unfolding claim_tasks is_full
  claim_tasks-bound m [] done more db p h = h
  claim_tasks-bound m (c ∷ cs) done more db p h =
      elim (Bool-cases (is_full (pos m) (length done))) [
        | inl full ↦ rw full h
        | inr room ↦ elim (Bool-cases (claim_job now c.job_id runner kind db).0) [
          | inl won ↦
              rw (room, won)
                (claim_tasks-bound m cs (done ++ c ∷ []) more _ p
                  (ground (arith, length-append done (c ∷ []))))
          | inr lost ↦ rw (room, lost) (claim_tasks-bound m cs done true db p h)
        ]
      ]
