-- ===== src/Store/Invariant/Ends.antt =====
-- The transitions that runners and users ask for preserve the invariant (storage/sqlite.go).
use batchq.Shared.{
  ◌≡◌, refl, inl, inr, Bool, true, false, ◌==◌, List, [], ◌∷◌, arith, String, str_eq, eq_iff,
  eq_refl, Bool-cases, Option-cases, sym, ◌∙◌, if◌then◌else◌, contains,
}
use Prim.Native.String.{◌++◌ as str_append}
use batchq.Shared.Int.{ℤ, is_zero}
use batchq.Shared.Result.{
  ok, >>=-eq-ok, >>-eq-ok, guard-eq-ok, invalid_state, ◌>>◌, ok-injective, guard,
}
use batchq.Job.Status.{StatusCode, proxyqueued, success, failed, is, is_live, is_bad}
use batchq.Store.Db.{JobRow, Db, update_job, affected, status_of, status_test, live, depends_on}
use batchq.Store.Laws.{affected_one}
use batchq.Store.Cancel.{cascade_cancel}
use batchq.Store.Cancel.Cascade.{NoneDoomed, ClosedUpTo, cascade_cancel-Cascades}
use batchq.Store.Transition.{
  put_running_detail, put_running_details, with_running_detail, mark_job_proxied,
  assert_runner_owns_job, already, end_job, end_proxied_job, is_running, set_proxied, is_proxied,
  set_ended, set_reported,
}
use batchq.Store.Wf.{Wf, is_idle, is_active}
use batchq.Store.Invariant.Updates.{
  SetsStatus, SetsStatus-Wf, SetsStatus-ClaimsMatch, SetsStatus-DepsRefer, SameStates,
  SameStates-Wf, SameStates-refl, SameStates-trans, update_job-SetsStatus, compatible, live_before,
}
use batchq.Store.Invariant.Cancels.{Cascades-Wf}

with_running_detail-SameStates :
    (id key value : String) (db : Db) → SameStates db (with_running_detail id key value db)
unfolding with_running_detail status_of
with_running_detail-SameStates id key value db = record {
  status = λ k. refl;
  deps = refl;
  running = refl;
  keys = λ u. u;
}

put_running_detail-SameStates :
    (id key value : String) (db db' : Db)
    → put_running_detail id key value db ≡ ok db'
    → SameStates db db'
unfolding put_running_detail
put_running_detail-SameStates id key value db db' h = elim (Option-cases (status_of db id)) [
  | inl e ↦ absurd (ground arith)
  | inr (s, e) ↦
      let same : with_running_detail id key value db ≡ db' = ground arith in
      rw (← same) (with_running_detail-SameStates id key value db)
]

pub put_running_details-SameStates :
    (id : String) (details : List (String × String)) (db db' : Db)
    → put_running_details id details db ≡ ok db'
    → SameStates db db'
unfolding put_running_details
put_running_details-SameStates id [] db db' h =
    let same : db ≡ db' = cc in rw (← same) (SameStates-refl db)
put_running_details-SameStates id ((key, value) ∷ rest) db db' h =
    let (one, first, more) = >>=-eq-ok (put_running_detail id key value db) _ h in
    SameStates-trans (put_running_detail-SameStates id key value db one first)
      (put_running_details-SameStates id rest one db' more)

pub put_running_details-Wf :
    (id : String) (details : List (String × String)) (db db' : Db)
    → put_running_details id details db ≡ ok db'
    → Wf db
    → Wf db'
put_running_details-Wf id details db db' h w =
    SameStates-Wf (put_running_details-SameStates id details db db' h) w

proxied-Wf : (id : String) (db : Db) → Wf db → Wf (update_job id is_running set_proxied db)
unfolding is_live is_bad is_idle is_active is_running set_proxied
proxied-Wf id db w =
    SetsStatus-Wf
      (update_job-SetsStatus id is_running set_proxied proxyqueued db (λ r. refl) (λ r. refl))
      (λ t h. ground arith) refl (λ t h. ground arith) w

pub mark_job_proxied-Wf :
    (id runner : String) (details : List (String × String)) (db db' : Db)
    → mark_job_proxied id runner details db ≡ ok db'
    → Wf db
    → Wf db'
unfolding mark_job_proxied
mark_job_proxied-Wf id runner details db db' h w =
    let upd = update_job id is_running set_proxied db in
    let (owns, rest) = >>-eq-ok (assert_runner_owns_job id runner db) _ h in
    let (was, puts) =
      >>-eq-ok
        (if affected id is_running db == 1 then ok tt else already proxyqueued (status_of upd id)) _
        rest in
    put_running_details-Wf id details upd db' puts (proxied-Wf id db w)

-- Where the job that ends in `s` dooms others, they alone are doomed.
pub ended-ClosedUpTo :
    (id : String) (q : StatusCode → Bool) (s : StatusCode) (db db' : Db)
    → SetsStatus (str_eq id) q s db db'
    → ((t : StatusCode) → q t ≡ true → is_live t ≡ true)
    → NoneDoomed db
    → ClosedUpTo (id ∷ []) db'
unfolding contains
ended-ClosedUpTo id q s db db' effect alive h = record {
  at = λ job parent dep l bad.
      let dep' : depends_on db.deps job parent ≡ true = rw (← effect.deps) dep in
      let l' = live_before effect alive job l in
      ground (arith, effect.status parent, h job parent dep' l');
}

ended_compatible : (t s : StatusCode) → is_live s ≡ false → compatible t s ≡ true
unfolding is_idle is_active is_live
ended_compatible t s h = ground arith

-- The end of a job in a state from which others are canceled.
ended-Wf :
    (now id reason : String) (q : StatusCode → Bool) (s : StatusCode) (db upd db' : Db)
    → SetsStatus (str_eq id) q s db upd
    → ((t : StatusCode) → q t ≡ true → is_live t ≡ true)
    → is_live s ≡ false
    → status_test q (status_of db id) ≡ true
    → cascade_cancel now id reason upd ≡ ok db'
    → Wf db
    → Wf db'
ended-Wf now id reason q s db upd db' effect alive ended passed h w =
    let dead : live upd id ≡ false = ground (arith, effect.status id, eq_refl id) in
    let (made, is_ok, c) =
      cascade_cancel-Cascades now id reason upd dead
        (ended-ClosedUpTo id q s db upd effect alive w.none_doomed) in
    let same : made ≡ db' = cc in
    rw (← same) (
      Cascades-Wf id upd made c
        (SetsStatus-ClaimsMatch effect (λ t h. ended_compatible t s ended) w.claims)
        (SetsStatus-DepsRefer effect w.refer) (effect.keys w.keys))

succeeded-Wf :
    (id : String) (q : StatusCode → Bool) (f : JobRow → JobRow) (db : Db)
    → ((r : JobRow) → (f r).id ≡ r.id)
    → ((r : JobRow) → (f r).status ≡ success)
    → ((t : StatusCode) → q t ≡ true → is_live t ≡ true)
    → Wf db
    → Wf (update_job id q f db)
unfolding is_bad
succeeded-Wf id q f db keeps_id sets alive w =
    SetsStatus-Wf (update_job-SetsStatus id q f success db keeps_id sets) alive refl
      (λ t h. ended_compatible t success (unfold is_live in refl)) w

pub running_live : (t : StatusCode) → is_running t ≡ true → is_live t ≡ true
unfolding is_running is_live
running_live t h = ground arith

pub proxied_live : (t : StatusCode) → is_proxied t ≡ true → is_live t ≡ true
unfolding is_proxied is_live
proxied_live t h = ground arith

pub end_job-Wf :
    (now id runner : String) (code : ℤ) (notes : String) (db db' : Db)
    → end_job now id runner code notes db ≡ ok db'
    → Wf db
    → Wf db'
unfolding end_job set_ended
end_job-Wf now id runner code notes db db' h w =
    let s = if is_zero code then success else failed in
    let upd = update_job id is_running (set_ended s now code notes) db in
    let reason = str_append "Parent job " (str_append id " failed") in
    let (owns, rest) = >>-eq-ok (assert_runner_owns_job id runner db) _ h in
    let (one, final) = >>-eq-ok (guard (affected id is_running db == 1) invalid_state) _ rest in
    let passed : status_test is_running (status_of db id) ≡ true =
      sym (affected_one id is_running db w.keys) ∙ guard-eq-ok _ invalid_state one in
    elim (Bool-cases (is_zero code)) [
      | inl z ↦
          let same : upd ≡ db' = ground arith in
          rw (← same) (
            succeeded-Wf id is_running (set_ended s now code notes) db (λ r. refl)
              (λ r. ground arith) running_live w)
      | inr nz ↦
          let ends : cascade_cancel now id reason upd ≡ ok db' = ground arith in
          ended-Wf now id reason is_running s db upd db'
            (update_job-SetsStatus id is_running (set_ended s now code notes) s db (λ r. refl)
              (λ r. refl))
            running_live (unfold is_live in ground arith) passed ends w
    ]

-- An UPDATE whose test fails changes no state.
pub untouched :
    (id : String) (q : StatusCode → Bool) (s : StatusCode) (db upd : Db)
    → SetsStatus (str_eq id) q s db upd
    → status_test q (status_of db id) ≡ false
    → SameStates db upd
untouched id q s db upd effect h = record {
  status = λ k. ground (arith, effect.status k, eq_iff id k);
  deps = effect.deps;
  running = effect.running;
  keys = effect.keys;
}

pub end_proxied_job-Wf :
    (now id : String) (s : StatusCode) (start end_time : String) (code : ℤ) (notes : String)
    (db db' : Db)
    → is_live s ≡ false
    → end_proxied_job now id s start end_time code notes db ≡ ok db'
    → Wf db
    → Wf db'
unfolding end_proxied_job set_reported
end_proxied_job-Wf now id s start end_time code notes db db' ends h w =
    let f = set_reported s start end_time code notes in
    let upd = update_job id is_proxied f db in
    let reason = str_append "Parent job " (str_append id " failed/canceled") in
    let effect : SetsStatus (str_eq id) is_proxied s db upd =
      update_job-SetsStatus id is_proxied f s db (λ r. refl) (λ r. refl) in
    let one = affected_one id is_proxied db w.keys in
    elim (Bool-cases (affected id is_proxied db == 1)) [
      | inl yes_one ↦ elim (Bool-cases (is s success)) [
        | inl good ↦
            let same : upd ≡ db' = ground arith in
            rw (← same) (
              SetsStatus-Wf effect proxied_live (unfold is is_bad in ground arith)
                (λ t h'. ended_compatible t s ends) w)
        | inr bad ↦
            let final : cascade_cancel now id reason upd ≡ ok db' = ground arith in
            ended-Wf now id reason is_proxied s db upd db' effect proxied_live ends
              (sym one ∙ yes_one) final w
      ]
      | inr no_one ↦
          let retried : (already s (status_of upd id) >> ok upd) ≡ ok db' = ground arith in
          let same : upd ≡ db' =
            unfold already in
            ok-injective ((>>-eq-ok (already s (status_of upd id)) (ok upd) retried).1) in
          rw (← same) (SameStates-Wf (untouched id is_proxied s db upd effect (sym one ∙ no_one)) w)
    ]
