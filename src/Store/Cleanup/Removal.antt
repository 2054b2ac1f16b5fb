-- ===== src/Store/Cleanup/Removal.antt =====
-- What a removal leaves of the store (storage/sqlite.go, `CleanupJob` and `CleanupJobs`).
use batchq.Shared.{
  ◌≡◌, refl, ◌∙◌, sym, ℕ, zero, suc, Bool, true, false, not, ◌&&◌, ◌||◌, none, List, [], ◌∷◌, ◌++◌,
  arith, eq_iff, eq_refl, String, str_eq, any, contains, contains-append, Bool-cases, inl, inr,
  if◌then◌else◌,
}
use batchq.Shared.Result.{ok}
use batchq.Store.Db.{Db, status_of, owner_of, depends_on}
use batchq.Store.Laws.{Unique}
use batchq.Store.Wf.{Wf}
use batchq.Store.Cleanup.{
  delete_children, delete_jobs, cleanup_job, chunks_from, chunks, delete_all_children,
  delete_all_jobs, cleanup_jobs,
}
use batchq.Store.Cleanup.Effect.{
  Clears, Deletes, delete_children-Clears, delete_jobs-Deletes, delete_jobs-ok,
}

-- The jobs that pass `p` are gone, with their claims and dependencies; the others stay.
pub record Removes (p : String → Bool) (db db' : Db) : Type 0 where
  pub status : (k : String) → status_of db' k ≡ (if p k then none else status_of db k)
  pub owner : (k : String) → owner_of db' k ≡ (if p k then none else owner_of db k)
  pub dep :
      (j parent : String)
      → depends_on db'.deps j parent ≡ (not (p j) && depends_on db.deps j parent)
  pub keys : Unique db.jobs → Unique db'.jobs

Removes-Wf :
    (p : String → Bool) (db db' : Db)
    → Removes p db db'
    → ((j parent : String) → depends_on db'.deps j parent ≡ true → p parent ≡ false)
    → Wf db
    → Wf db'
Removes-Wf p db db' r kept w = record {
  none_doomed = λ j q dep l.
      ground (arith, r.dep j q, kept j q dep, r.status j, r.status q, w.none_doomed j q);
  claims = record {
    idle = λ k e. ground (arith, r.status k, r.owner k, w.claims.idle k);
    active = λ k e. ground (arith, r.status k, r.owner k, w.claims.active k);
    unknown = λ k e. ground (arith, r.status k, r.owner k, w.claims.unknown k);
  };
  refer = record {
    at = λ j q dep. ground (arith, r.dep j q, kept j q dep, r.status j, r.status q, w.refer.at j q);
  };
  keys = r.keys w.keys;
}

Clears-Deletes :
    (p : String → Bool) (db bare db' : Db)
    → Clears p db bare
    → Deletes p bare db'
    → Removes p db db'
unfolding owner_of
Clears-Deletes p db bare db' c d = record {
  status = λ k. ground (arith, c.status k, d.status k);
  owner = λ k. (rw d.running refl) ∙ c.owner k;
  dep = λ j q. (rw d.deps refl) ∙ c.dep j q;
  keys = λ u. d.keys (c.keys u);
}

-- Removal of one job, where it succeeds, keeps the store well-formed. Only the job itself is gone, and
-- no other job depended on it.
pub cleanup_job_exact :
    (id : String) (db db' : Db)
    → cleanup_job id db ≡ ok db'
    → Wf db
    → Wf db'
      × ((k : String) → status_of db' k ≡ (if str_eq id k then none else status_of db k))
      × ((j : String) → depends_on db.deps j id ≡ true → j ≡ id)
unfolding cleanup_job contains
cleanup_job_exact id db db' h w =
    let one = id ∷ [] in
    let bare = delete_children one db in
    let (d, unreferred) = delete_jobs-Deletes one bare db' h in
    let c = delete_children-Clears one db in
    let r = Clears-Deletes (contains one) db bare db' c d in
    let free : (j q : String) → depends_on bare.deps j q ≡ true → contains one q ≡ false =
      λ j q dep. ground (arith, unreferred j q dep, c.dep j q, c.status q, w.refer.at j q) in
    (
      Removes-Wf (contains one) db db' r (λ j q dep. free j q (rw (← d.deps) dep)) w,
      λ k. ground (arith, r.status k),
      λ j dep. elim (Bool-cases (str_eq id j)) [
        | inl e ↦ sym ((eq_iff id j).0 e)
        | inr n ↦ absurd (ground (arith, free j id, c.dep j id, eq_refl id))
      ],
    )

in_chunks : List (List String) → String → Bool
in_chunks cs k = any (λ c. contains c k) cs

chunks_from-contains :
    (left : ℕ) (chunk ids : List String) (k : String)
    → in_chunks (chunks_from left chunk ids) k ≡ (contains chunk k || contains ids k)
unfolding chunks_from in_chunks any contains
chunks_from-contains left chunk [] k = ground arith
chunks_from-contains zero chunk (id ∷ ids) k =
    ground (arith, chunks_from-contains 499 (id ∷ []) ids k)
chunks_from-contains (suc left) chunk (id ∷ ids) k =
    ground
      (arith, chunks_from-contains left (chunk ++ id ∷ []) ids k, contains-append chunk (id ∷ []) k)

-- The chunks hold the ids, and no other.
chunks-contains : (ids : List String) (k : String) → in_chunks (chunks ids) k ≡ contains ids k
unfolding chunks in_chunks any contains
chunks-contains [] k = refl
chunks-contains (id ∷ ids) k = ground (arith, chunks_from-contains 499 (id ∷ []) ids k)

delete_all_children-Clears :
    (cs : List (List String)) (db : Db) → Clears (in_chunks cs) db (delete_all_children cs db)
unfolding delete_all_children in_chunks any
delete_all_children-Clears [] db = record {
  status = λ k. refl;
  owner = λ k. refl;
  dep = λ j q. refl;
  keys = λ u. u;
}
delete_all_children-Clears (c ∷ cs) db =
    let one = delete_children-Clears c db in
    let rest = delete_all_children-Clears cs (delete_children c db) in
    record {
      status = λ k. rest.status k ∙ one.status k;
      owner = λ k. ground (arith, rest.owner k, one.owner k);
      dep = λ j q. ground (arith, rest.dep j q, one.dep j q);
      keys = λ u. rest.keys (one.keys u);
    }

delete_all_jobs-step :
    (c : List String) (cs : List (List String)) (db db' : Db)
    → delete_jobs c db ≡ ok db'
    → delete_all_jobs (c ∷ cs) db ≡ delete_all_jobs cs db'
unfolding delete_all_jobs
delete_all_jobs-step c cs db db' h = rw (h, delete_all_jobs) refl

-- Where nothing refers to the jobs, each chunk is deleted.
delete_all_jobs-ok :
    (cs : List (List String)) (db : Db)
    → ((j q : String) → depends_on db.deps j q ≡ true → in_chunks cs q ≡ false)
    → (db' : Db) × (delete_all_jobs cs db ≡ (ok tt, db')) × Deletes (in_chunks cs) db db'
unfolding delete_all_jobs in_chunks any
delete_all_jobs-ok [] db free =
    (db, refl, record { status = λ k. refl; deps = refl; running = refl; keys = λ u. u })
delete_all_jobs-ok (c ∷ cs) db free =
    let (one, is_one) = delete_jobs-ok c db (λ j q dep. ground (arith, free j q dep)) in
    let d = (delete_jobs-Deletes c db one is_one).0 in
    let (done, is_done, rest) =
      delete_all_jobs-ok cs one (λ j q dep. ground (arith, free j q (rw (← d.deps) dep))) in
    (
      done,
      delete_all_jobs-step c cs db one is_one ∙ is_done,
      record {
        status = λ k. ground (arith, rest.status k, d.status k);
        deps = rest.deps ∙ d.deps;
        running = rest.running ∙ d.running;
        keys = λ u. rest.keys (d.keys u);
      },
    )

-- Removal of a set of jobs that holds every dependent of its jobs succeeds, in a well-formed store: it
-- keeps the store well-formed, and the jobs of the set, and no other, are gone.
pub cleanup_jobs_exact :
    (ids : List String) (db : Db)
    → Wf db
    → ((j q : String)
        → depends_on db.deps j q ≡ true
        → contains ids q ≡ true
        → contains ids j ≡ true)
    → (db' : Db) × (cleanup_jobs ids db ≡ (ok tt, db'))
      × Wf db'
      × ((k : String) → status_of db' k ≡ (if contains ids k then none else status_of db k))
unfolding cleanup_jobs
cleanup_jobs_exact ids db w closed =
    let cs = chunks ids in
    let bare = delete_all_children cs db in
    let c = delete_all_children-Clears cs db in
    let free : (j q : String) → depends_on bare.deps j q ≡ true → in_chunks cs q ≡ false =
      λ j q dep.
        ground (arith, c.dep j q, closed j q, chunks-contains ids j, chunks-contains ids q) in
    let (db', is_ok, d) = delete_all_jobs-ok cs bare free in
    let r = Clears-Deletes (in_chunks cs) db bare db' c d in
    (
      db',
      is_ok,
      Removes-Wf (in_chunks cs) db db' r (λ j q dep. free j q (rw (← d.deps) dep)) w,
      λ k. ground (arith, r.status k, chunks-contains ids k),
    )
