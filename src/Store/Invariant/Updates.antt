-- ===== src/Store/Invariant/Updates.antt =====
-- An UPDATE that sets one state where a test of the old state passes, and what it preserves.
use batchq.Shared.{
  ◌∙◌, ◌≡◌, refl, Bool, true, false, ◌&&◌, ◌||◌, some, arith, String, str_eq, if◌then◌else◌,
  Option-cases, not, inl, inr,
}
use batchq.Job.Status.{StatusCode, is_live, is_bad}
use batchq.Store.Db.{
  JobRow, Db, update_job, status_of, status_test, owner_of, live, doomed, depends_on,
}
use batchq.Store.Laws.{Unique, Unique-update_job, status_of-update_job}
use batchq.Store.Cancel.Cascade.{NoneDoomed}
use batchq.Store.Wf.{Wf, ClaimsMatch, DepsRefer, claimed, is_idle, is_active}

-- The jobs at which `p` and the test `q` of the old state pass get the state `s`.
pub record SetsStatus (p : String → Bool) (q : StatusCode → Bool) (s : StatusCode) (db db' : Db)
    : Type 0 where
  pub status :
      (k : String)
      → status_of db' k ≡ (if p k && status_test q (status_of db k) then some s else status_of db k)
  pub deps : db'.deps ≡ db.deps
  pub running : db'.running ≡ db.running
  pub keys : Unique db.jobs → Unique db'.jobs

pub update_job-SetsStatus :
    (id : String) (q : StatusCode → Bool) (f : JobRow → JobRow) (s : StatusCode) (db : Db)
    (keeps_id : (r : JobRow) → (f r).id ≡ r.id) (sets : (r : JobRow) → (f r).status ≡ s)
    → SetsStatus (str_eq id) q s db (update_job id q f db)
update_job-SetsStatus id q f s db keeps_id sets = record {
  status = status_of-update_job id q f s db keeps_id sets;
  deps = unfold update_job in refl;
  running = unfold update_job in refl;
  keys = Unique-update_job id q f db keeps_id;
}

-- The moves that keep claims right: before a claim, with a claim, or to an end.
abbrev pub compatible : StatusCode → StatusCode → Bool
compatible t s =
    (is_idle t && is_idle s)
    || ((is_active t && is_active s) || (not (is_idle s) && not (is_active s)))

not_both : (s : StatusCode) → is_idle s ≡ true → is_active s ≡ false
unfolding is_idle is_active
not_both s h = ground arith

module _ {p : String → Bool} {q : StatusCode → Bool} {s : StatusCode} {db db' : Db}
    (effect : SetsStatus p q s db db') where
  pub live_before :
      ((t : StatusCode) → q t ≡ true → is_live t ≡ true)
      → (k : String) → live db' k ≡ true
      → live db k ≡ true
  live_before alive k l = elim (Option-cases (status_of db k)) [
    | inl e ↦ absurd (ground (arith, effect.status k))
    | inr (t, e) ↦ ground (arith, effect.status k, alive t)
  ]

  pub doomed_before : is_bad s ≡ false → (k : String) → doomed db k ≡ false → doomed db' k ≡ false
  doomed_before good k h = elim (Option-cases (status_of db k)) [
    | inl e ↦ ground (arith, effect.status k)
    | inr (t, e) ↦ ground (arith, effect.status k)
  ]

  pub SetsStatus-NoneDoomed :
      ((t : StatusCode) → q t ≡ true → is_live t ≡ true)
      → is_bad s ≡ false
      → NoneDoomed db
      → NoneDoomed db'
  SetsStatus-NoneDoomed alive good h job parent dep l =
      let dep' : depends_on db.deps job parent ≡ true = rw (← effect.deps) dep in
      doomed_before good parent (h job parent dep' (live_before alive job l))

  pub SetsStatus-DepsRefer : DepsRefer db → DepsRefer db'
  SetsStatus-DepsRefer h = record {
    at = λ job parent dep.
        let dep' : depends_on db.deps job parent ≡ true = rw (← effect.deps) dep in
        ground (arith, h.at job parent dep', effect.status job, effect.status parent);
  }

  claimed_before : (k : String) → claimed db' k ≡ claimed db k
  unfolding owner_of
  claimed_before k = rw effect.running

  pub SetsStatus-ClaimsMatch :
      ((t : StatusCode) → q t ≡ true → compatible t s ≡ true) → ClaimsMatch db → ClaimsMatch db'
  SetsStatus-ClaimsMatch fine h = record {
    idle = λ k e. elim (Option-cases (status_of db k)) [
      | inl e' ↦ absurd (ground (arith, effect.status k))
      | inr (t, e') ↦
          ground (arith, claimed_before k, effect.status k, fine t, h.idle k, not_both s)
    ];
    active = λ k e. elim (Option-cases (status_of db k)) [
      | inl e' ↦ absurd (ground (arith, effect.status k))
      | inr (t, e') ↦
          ground (arith, claimed_before k, effect.status k, fine t, h.active k, not_both s)
    ];
    unknown = λ k e. ground (arith, claimed_before k, effect.status k, h.unknown k);
  }

-- A change that the states, the dependencies and the claims do not show.
pub record SameStates (db db' : Db) : Type 0 where
  pub status : (k : String) → status_of db' k ≡ status_of db k
  pub deps : db'.deps ≡ db.deps
  pub running : db'.running ≡ db.running
  pub keys : Unique db.jobs → Unique db'.jobs

pub SameStates-refl : (db : Db) → SameStates db db
SameStates-refl db = record { status = λ k. refl; deps = refl; running = refl; keys = λ u. u }

pub SameStates-trans : {a b c : Db} → SameStates a b → SameStates b c → SameStates a c
SameStates-trans f g = record {
  status = λ k. g.status k ∙ f.status k;
  deps = g.deps ∙ f.deps;
  running = g.running ∙ f.running;
  keys = λ u. g.keys (f.keys u);
}

pub SetsStatus-Wf :
    {p : String → Bool} {q : StatusCode → Bool} {s : StatusCode} {db db' : Db}
    → SetsStatus p q s db db'
    → ((t : StatusCode) → q t ≡ true → is_live t ≡ true)
    → is_bad s ≡ false
    → ((t : StatusCode) → q t ≡ true → compatible t s ≡ true)
    → Wf db
    → Wf db'
SetsStatus-Wf effect alive good fine w = record {
  none_doomed = SetsStatus-NoneDoomed effect alive good w.none_doomed;
  claims = SetsStatus-ClaimsMatch effect fine w.claims;
  refer = SetsStatus-DepsRefer effect w.refer;
  keys = effect.keys w.keys;
}

pub SameStates-Wf : {db db' : Db} → SameStates db db' → Wf db → Wf db'
unfolding is_live is_bad
SameStates-Wf {db} {db'} same w =
    SetsStatus-Wf nothing (λ t h. absurd (ground arith)) refl (λ t h. absurd (ground arith)) w
  where
    nothing : SetsStatus (λ k. false) (λ t. false) StatusCode.success db db'
    nothing = record {
      status = same.status;
      deps = same.deps;
      running = same.running;
      keys = same.keys;
    }
