-- ===== src/Store/Invariant/Cancels.antt =====
-- Cancellations preserve the invariant of the store (storage/sqlite.go).
use batchq.Shared.{◌≡◌, inl, inr, true, List, [], ◌∷◌, arith, String, Option-cases, ap, ℕ}
use batchq.Shared.Result.{ok, err, >>=-eq-ok, not_found}
use batchq.Store.Db.{Db, status_of, owner_of, depends_on}
use batchq.Store.Cancel.{cancel_job, cancel_each, cancel_members, cancel_array, find_jobs_by_detail}
use batchq.Store.Cancel.Cascade.{Waits, CancelsOnly, Cascades}
use batchq.Store.Cancel.Job.{cancel_job-Cascades, cancel_job-not_found}
use batchq.Store.Laws.{Unique}
use batchq.Store.Wf.{Wf, ClaimsMatch, DepsRefer, known, claimed, is_idle, is_active, is_some}

module _ (P : String → Type 0) (db db' : Db) (c : CancelsOnly P db db') where
  known_same : (k : String) → known db' k ≡ known db k
  known_same k = elim (c.status k) [
    | inl e ↦ ap is_some e
    | inr (l, e, p) ↦ ground (arith, Option-cases (status_of db k))
  ]

  claimed_same : (k : String) → claimed db' k ≡ claimed db k
  unfolding owner_of
  claimed_same k = rw c.running

  pub CancelsOnly-DepsRefer : DepsRefer db → DepsRefer db'
  CancelsOnly-DepsRefer h = record {
    at = λ job parent dep.
        let dep' : depends_on db.deps job parent ≡ true = rw (← c.deps) dep in
        ground (arith, h.at job parent dep', known_same job, known_same parent);
  }

  pub CancelsOnly-ClaimsMatch : ClaimsMatch db → ClaimsMatch db'
  unfolding is_idle is_active
  CancelsOnly-ClaimsMatch h = record {
    idle = λ k e. elim (c.status k) [
      | inl same ↦ ground (arith, claimed_same k, h.idle k)
      | inr (l, gone, p) ↦ absurd (ground arith)
    ];
    active = λ k e. elim (c.status k) [
      | inl same ↦ ground (arith, claimed_same k, h.active k)
      | inr (l, gone, p) ↦ absurd (ground arith)
    ];
    unknown = λ k e. ground (arith, claimed_same k, known_same k, h.unknown k);
  }

pub Cascades-Wf :
    (id : String) (db db' : Db)
    → Cascades id db db'
    → ClaimsMatch db
    → DepsRefer db
    → Unique db.jobs
    → Wf db'
Cascades-Wf id db db' c claims refer keys = record {
  none_doomed = c.none_doomed;
  claims = CancelsOnly-ClaimsMatch (Waits db id) db db' c.only claims;
  refer = CancelsOnly-DepsRefer (Waits db id) db db' c.only refer;
  keys = c.only.keys keys;
}

pub cancel_job-Wf :
    (now id reason : String) (db db' : Db) → cancel_job now id reason db ≡ ok db' → Wf db → Wf db'
cancel_job-Wf now id reason db db' h w = elim (Option-cases (status_of db id)) [
  | inl e ↦ absurd (cancel_fails (cancel_job-not_found now id reason db e))
  | inr (s, e) ↦
      let (made, is_ok, c, gone) = cancel_job-Cascades now id reason db e w.none_doomed in
      let same : made ≡ db' = cc in rw (← same) (Cascades-Wf id db made c w.claims w.refer w.keys)
]
  where
    cancel_fails : cancel_job now id reason db ≡ err not_found → ⊥
    cancel_fails e = cc

cancel_each-Wf :
    (now : String) (ids : List String) (reason : String) (db db' : Db)
    → cancel_each now ids reason db ≡ ok db'
    → Wf db
    → Wf db'
unfolding cancel_each
cancel_each-Wf now [] reason db db' h w = let same : db ≡ db' = cc in rw (← same) w
cancel_each-Wf now (id ∷ ids) reason db db' h w =
    let (one, first, rest) = >>=-eq-ok (cancel_job now id reason db) _ h in
    cancel_each-Wf now ids reason one db' rest (cancel_job-Wf now id reason db one first w)

cancel_members-Wf :
    (now : String) (ids : List String) (reason : String) (db db' : Db) {n : ℕ}
    → cancel_members now ids reason db ≡ ok (n, db')
    → Wf db
    → Wf db'
unfolding cancel_members
cancel_members-Wf now [] reason db db' h w = absurd (ground arith)
cancel_members-Wf now (id ∷ ids) reason db db' h w =
    let (one, first, rest) = >>=-eq-ok (cancel_each now (id ∷ ids) reason db) _ h in
    let same : one ≡ db' = ground arith in
    rw (← same) (cancel_each-Wf now (id ∷ ids) reason db one first w)

pub cancel_array-Wf :
    (now array_id reason : String) (db db' : Db) {n : ℕ}
    → cancel_array now array_id reason db ≡ ok (n, db')
    → Wf db
    → Wf db'
unfolding cancel_array
cancel_array-Wf now array_id reason db db' h w =
    cancel_members-Wf now (find_jobs_by_detail db "array_id" array_id) reason db db' h w
