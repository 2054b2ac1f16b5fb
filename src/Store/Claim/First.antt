-- ===== src/Store/Claim/First.antt =====
-- What the loop of `ClaimNextJob` returns (storage/sqlite.go).
use batchq.Shared.{
  ◌≡◌, refl, ◌∙◌, sym, ap, ◌⊎◌, Bool, true, false, none, some, List, [], ◌∷◌, ◌++◌, arith, eq_refl,
  String, str_eq, contains, Bool-cases, inl, inr,
}
use batchq.Shared.Result.{ok}
use batchq.Job.Status.{queued, is}
use batchq.Store.Db.{Db, status_of, status_test, owner_of}
use batchq.Store.Laws.{Unique}
use batchq.Store.Claim.{ClaimResult, claim_job, claim_first, claim_next_job, queue_order}
use batchq.Store.Claim.Fits.{Limits, job_fits}
use batchq.Store.Claim.Order.{queue_order-queued}
use batchq.Store.Wf.{Wf, ClaimsMatch, is_idle}

-- No job of the list fits the runner.
abbrev pub NoneFits : Limits → Db → List String → Type 0
NoneFits limits db [] = Unit
NoneFits limits db (id ∷ ids) = (job_fits limits db id ≡ false) × NoneFits limits db ids

-- The jobs of the list have no claim yet.
abbrev Unclaimed : Db → List String → Type 0
Unclaimed db [] = Unit
Unclaimed db (id ∷ ids) = (owner_of db id ≡ none) × Unclaimed db ids

-- Whether nothing was left behind by a test that failed before.
abbrev pub skips : List String → Bool → Bool
skips [] blocked = blocked
skips (id ∷ ids) blocked = true

skips-true : (ids : List String) → skips ids true ≡ true
skips-true [] = refl
skips-true (id ∷ ids) = refl

-- Nothing is claimed, since no job of the list fits.
abbrev pub Nothing : Limits → Db → Bool → List String → ClaimResult × Db → Type 0
Nothing limits db blocked ids r =
    NoneFits limits db ids
    × (r ≡ (record { job = none; more_eligible = false; blocked = skips ids blocked }, db))

-- The first job of the list that fits is claimed.
abbrev pub FirstFit :
    String → String → String → Limits → Db → Bool → List String → ClaimResult × Db → Type 0
FirstFit now runner kind limits db blocked ids r =
    (before : List String) × (id : String) × (after : List String) × (ids ≡ before ++ id ∷ after)
    × NoneFits limits db before
    × (job_fits limits db id ≡ true)
    × (r ≡ (
      record { job = some id; more_eligible = false; blocked = skips before blocked },
      (claim_job now id runner kind db).1,
    ))

claim_first_lem :
    (now runner kind : String) (limits : Limits) (ids : List String) (blocked : Bool) (db : Db)
    → Unclaimed db ids
    → let r = claim_first now runner kind limits ids false blocked db in
      Nothing limits db blocked ids r ⊎ FirstFit now runner kind limits db blocked ids r
unfolding claim_first
claim_first_lem now runner kind limits [] blocked db u = inl (tt, refl)
claim_first_lem now runner kind limits (id ∷ ids) blocked db u =
    elim (Bool-cases (job_fits limits db id)) [
      | inl fits ↦ inr ([], id, ids, refl, tt, fits, rw (fits, won db u.0) refl)
      | inr unfit ↦ elim (claim_first_lem now runner kind limits ids true db u.1) [
        | inl (all, eq) ↦ inl ((unfit, all), rw unfit (rw eq (rw skips-true refl)))
        | inr (before, k, after, e, none_fit, fits, eq) ↦ inr (
          id ∷ before,
          k,
          after,
          ap (λ l. id ∷ l) e,
          (unfit, none_fit),
          fits,
          rw unfit (rw eq (rw skips-true refl)),
        )
      ]
    ]
  where
    won : (db : Db) → owner_of db id ≡ none → (claim_job now id runner kind db).0 ≡ true
    won db h = unfold claim_job in ground arith

all-Unclaimed :
    (db : Db) (ids : List String)
    → ((k : String) → contains ids k ≡ true → owner_of db k ≡ none)
    → Unclaimed db ids
unfolding contains
all-Unclaimed db [] h = tt
all-Unclaimed db (id ∷ ids) h =
    (h id (rw eq_refl refl), all-Unclaimed db ids (λ k e. h k (ground arith)))

pub queued_unclaimed :
    (db : Db)
    → ClaimsMatch db
    → (k : String) → status_test (λ s. is s queued) (status_of db k) ≡ true
    → owner_of db k ≡ none
unfolding is is_idle
queued_unclaimed db c k h =
    let idle : status_test is_idle (status_of db k) ≡ true = ground arith in
    ground (arith, c.idle k idle)

-- In a well-formed store a claim by a named runner succeeds: it takes the first queued job, in the
-- order of the query, that fits the runner, or nothing where none fits. It never reports a lost race.
pub claim_next_job_exact :
    (now runner kind : String) (limits : Limits) (db : Db)
    → Wf db
    → str_eq runner "" ≡ false
    → (r : ClaimResult × Db) × (claim_next_job now runner kind limits db ≡ ok r)
      × (Nothing limits db false (queue_order db) r
          ⊎ FirstFit now runner kind limits db false (queue_order db) r)
unfolding claim_next_job
claim_next_job_exact now runner kind limits db w named = (
  claim_first now runner kind limits (queue_order db) false false db,
  rw named refl,
  claim_first_lem now runner kind limits (queue_order db) false db (
      all-Unclaimed db (queue_order db)
        (λ k h. queued_unclaimed db w.claims k (sym (queue_order-queued db k w.keys) ∙ h))),
)

pub contains_middle :
    (before : List String) (id : String) (after : List String)
    → contains (before ++ id ∷ after) id ≡ true
unfolding contains
contains_middle [] id after = rw eq_refl refl
contains_middle (x ∷ before) id after = ground (arith, contains_middle before id after)

-- The job that was claimed was QUEUED.
pub FirstFit-queued :
    (db : Db) (before : List String) (id : String) (after : List String)
    → Unique db.jobs
    → queue_order db ≡ before ++ id ∷ after
    → status_test (λ s. is s queued) (status_of db id) ≡ true
FirstFit-queued db before id after u e =
    sym (queue_order-queued db id u) ∙ rw e (contains_middle before id after)
