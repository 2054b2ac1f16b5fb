-- ===== src/Store/Invariant/Outcomes.antt =====
-- What the end of a job brings about (storage/sqlite.go, `EndJob`).
use batchq.Shared.{
  ◌≡◌, refl, ◌∙◌, sym, ap, ◌⊎◌, inl, inr, Bool, true, false, Option, some, arith, String, str_eq,
  eq_iff, eq_refl, Bool-cases, Option-cases, if◌then◌else◌, ◌==◌,
}
use Prim.Native.String.{◌++◌ as str_append}
use batchq.Shared.Int.{ℤ, is_zero}
use batchq.Shared.Result.{ok, guard, >>-eq-ok, guard-eq-ok, invalid_state}
use batchq.Job.Status.{StatusCode, success, failed, canceled, running, is_live, is_bad}
use batchq.Store.Db.{Db, status_of, status_test, owner_of, live, update_job, affected}
use batchq.Store.Laws.{affected_one}
use batchq.Store.Cancel.{cascade_cancel}
use batchq.Store.Cancel.Cascade.{Waits, itself, through, Cascades, cascade_cancel-Cascades}
use batchq.Store.Cancel.Job.{Waits-doomed, doomed_not_live}
use batchq.Store.Transition.{assert_runner_owns_job, is_running, set_ended, end_job}
use batchq.Store.Wf.{Wf}
use batchq.Store.Invariant.Updates.{SetsStatus, update_job-SetsStatus, live_before}
use batchq.Store.Invariant.Ends.{ended-ClosedUpTo, running_live, end_job-Wf}

-- The job has the state `s`, and every other job its old one.
abbrev pub Settles : StatusCode → String → Db → Db → Type 0
Settles s id db db' =
    (k : String) → status_of db' k ≡ (if str_eq id k then some s else status_of db k)

-- The job has the state `s`; the live jobs that waited for it are canceled, and every other job has
-- its old state.
abbrev pub Topples : StatusCode → String → Db → Db → Type 0
Topples s id db db' =
    (status_of db' id ≡ some s)
    × ((k : String)
        → str_eq id k ≡ false
        → ((status_of db' k ≡ status_of db k)
            ⊎ ((live db k ≡ true) × (status_of db' k ≡ some canceled)))
          × (Waits db id k → status_of db' k ≡ some canceled)
          × (¬ (Waits db id k) → status_of db' k ≡ status_of db k))

-- A job other than `id` that waits for it is live.
Waits-other :
    (id : String) (db : Db) (k : String) → str_eq id k ≡ false → Waits db id k → live db k ≡ true
Waits-other id db _ off itself = absurd (ground (arith, eq_refl id))
Waits-other id db _ off (through job via dep l w) = l

module _ (id : String) (q : StatusCode → Bool) (s : StatusCode) (db upd : Db)
    (effect : SetsStatus (str_eq id) q s db upd)
    (alive : (t : StatusCode) → q t ≡ true → is_live t ≡ true) where
  Waits-after : (k : String) → Waits db id k → Waits upd id k
  Waits-after _ itself = itself
  Waits-after _ (through job via dep l w) = elim (Bool-cases (str_eq id job)) [
    | inl e ↦ let same : id ≡ job = (eq_iff id job).0 e in rw (← same) itself
    | inr n ↦
        through job via (rw effect.deps dep) (ground (arith, effect.status job)) (Waits-after via w)
  ]

  Waits-was : (k : String) → Waits upd id k → Waits db id k
  Waits-was _ itself = itself
  Waits-was _ (through job via dep l w) =
      through job via (rw (← effect.deps) dep) (live_before effect alive job l) (Waits-was via w)

  bad_end :
      (db' : Db)
      → Cascades id upd db'
      → is_bad s ≡ true
      → status_test q (status_of db id) ≡ true
      → Topples s id db db'
  bad_end db' c bad passed = (settled, λ k off. (either k off, waiting k off, other k off))
    where
      was : status_of upd id ≡ some s
      was = ground (arith, effect.status id, eq_refl id)

      settled : status_of db' id ≡ some s
      settled = elim (c.only.status id) [
        | inl same ↦ same ∙ was
        | inr (l, gone, w) ↦ absurd (doomed_not_live (status_of upd id) (rw was bad) l)
      ]

      kept : (k : String) → str_eq id k ≡ false → status_of upd k ≡ status_of db k
      kept k off = ground (arith, effect.status k)

      either :
          (k : String)
          → str_eq id k ≡ false
          → (status_of db' k ≡ status_of db k)
            ⊎ ((live db k ≡ true) × (status_of db' k ≡ some canceled))
      either k off = elim (c.only.status k) [
        | inl same ↦ inl (same ∙ kept k off)
        | inr (l, gone, w) ↦ inr (live_before effect alive k l, gone)
      ]

      waiting : (k : String) → str_eq id k ≡ false → Waits db id k → status_of db' k ≡ some canceled
      waiting k off w = elim (c.only.status k) [
        | inl same ↦ absurd (
            doomed_not_live (status_of db' k)
              (Waits-doomed id upd db' c (rw settled bad) k (Waits-after k w))
              (ap (status_test is_live) (same ∙ kept k off) ∙ Waits-other id db k off w))
        | inr (l, gone, w') ↦ gone
      ]

      other :
          (k : String) → str_eq id k ≡ false → ¬ (Waits db id k) → status_of db' k ≡ status_of db k
      other k off no_wait = elim (c.only.status k) [
        | inl same ↦ same ∙ kept k off
        | inr (l, gone, w) ↦ absurd (no_wait (Waits-was k w))
      ]

  pub cascaded :
      (now reason : String) (db' : Db)
      → cascade_cancel now id reason upd ≡ ok db'
      → is_live s ≡ false
      → is_bad s ≡ true
      → status_test q (status_of db id) ≡ true
      → Wf db
      → Topples s id db db'
  cascaded now reason db' h ended bad passed w =
      let dead : live upd id ≡ false = ground (arith, effect.status id, eq_refl id) in
      let (made, is_ok, c) =
        cascade_cancel-Cascades now id reason upd dead
          (ended-ClosedUpTo id q s db upd effect alive w.none_doomed) in
      let same : made ≡ db' = cc in rw (← same) (bad_end made c bad passed)

assert-owner :
    (id runner : String) (db : Db)
    → assert_runner_owns_job id runner db ≡ ok tt
    → owner_of db id ≡ some runner
unfolding assert_runner_owns_job
assert-owner id runner db h = elim (Option-cases (owner_of db id)) [
  | inl e ↦ absurd (ground arith)
  | inr (owner, e) ↦
      let same : owner ≡ runner =
        (eq_iff owner runner).0
          (guard-eq-ok (str_eq owner runner) invalid_state (rw (e, assert_runner_owns_job) at h)) in
      rw e (ap some same)
]

running_is : (o : Option StatusCode) → status_test is_running o ≡ true → o ≡ some running
unfolding is_running
running_is o h = ground arith

-- Where a runner ends a job with no error, in a well-formed store, the job ran and was the runner's,
-- and the store stays well-formed. With the code 0 the job is SUCCESS, and no other job changes.
-- With another code it is FAILED, the live jobs that waited for it, directly or through other live
-- jobs, are canceled, and no other job changes.
pub end_job_exact :
    (now id runner : String) (code : ℤ) (notes : String) (db db' : Db)
    → end_job now id runner code notes db ≡ ok db'
    → Wf db
    → (owner_of db id ≡ some runner)
      × (status_of db id ≡ some running)
      × Wf db'
      × (((is_zero code ≡ true) × Settles success id db db')
          ⊎ ((is_zero code ≡ false) × Topples failed id db db'))
unfolding end_job set_ended
end_job_exact now id runner code notes db db' h w =
    let s = if is_zero code then success else failed in
    let upd = update_job id is_running (set_ended s now code notes) db in
    let reason = str_append "Parent job " (str_append id " failed") in
    let (owns, rest) = >>-eq-ok (assert_runner_owns_job id runner db) _ h in
    let (one, final) = >>-eq-ok (guard (affected id is_running db == 1) invalid_state) _ rest in
    let passed : status_test is_running (status_of db id) ≡ true =
      sym (affected_one id is_running db w.keys) ∙ guard-eq-ok _ invalid_state one in
    let effect : SetsStatus (str_eq id) is_running s db upd =
      update_job-SetsStatus id is_running (set_ended s now code notes) s db (λ r. refl)
        (λ r. refl) in
    (
      assert-owner id runner db owns,
      running_is (status_of db id) passed,
      end_job-Wf now id runner code notes db db' h w,
      elim (Bool-cases (is_zero code)) [
        | inl z ↦
            let same : upd ≡ db' = ground arith in
            inl (z, λ k. rw (← same) (ground (arith, effect.status k, eq_iff id k)))
        | inr nz ↦
            let ends : cascade_cancel now id reason upd ≡ ok db' = ground arith in
            let failing : s ≡ failed = rw nz refl in
            inr (
              nz,
              rw failing at (
                  cascaded id is_running s db upd effect running_live now reason db' ends
                    (unfold is_live is_bad in ground arith) (unfold is_bad in ground arith) passed
                    w),
            )
      ],
    )
