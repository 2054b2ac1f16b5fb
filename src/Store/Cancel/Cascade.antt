-- ===== src/Store/Cancel/Cascade.antt =====
-- `cascadeCancel` of storage/sqlite.go ends, and leaves no live job that waits for a dead one.
use batchq.Shared.{
  ℕ, zero, suc, ◌+◌, ◌≤◌, ◌≡◌, refl, ◌∙◌, ap, sym, ◌⊎◌, inl, inr, true, false, some, List, [], ◌∷◌,
  ◌++◌, arith, eq_iff, eq_refl, String, contains, contains-append, length, length-append,
  tally-le-length, Bool-cases,
}
use batchq.Shared.Result.{ok}
use batchq.Job.Status.{is_live, is_bad, canceled}
use batchq.Store.Db.{JobRow, Db, status_of, status_test, live, doomed, depends_on}
use batchq.Store.Laws.{live_count, Unique}
use batchq.Store.Cancel.{children, cascade, cascade_cancel}
use batchq.Store.Cancel.Effect.{CancelsAll, cancel_all-CancelsAll}
use batchq.Store.Cancel.Children.{children_sound, children_complete, children-Distinct}

-- No live job waits for a CANCELED or FAILED one, but for the jobs of `queue`.
pub record ClosedUpTo (queue : List String) (db : Db) : Type 0 where
  pub at :
      (job parent : String)
      → depends_on db.deps job parent ≡ true
      → live db job ≡ true
      → doomed db parent ≡ true
      → contains queue parent ≡ true

-- `job` is `parent`, or a live job that waits for it, directly or through other live jobs.
pub data Waits (db : Db) (parent : String) : String → Type 0 where
  itself : Waits db parent parent
  through :
      (job via : String)
      → depends_on db.deps job via ≡ true
      → live db job ≡ true
      → Waits db parent via
      → Waits db parent job

-- Some live jobs that satisfy `P` become CANCELED; every other job keeps its state, and the
-- dependencies and claims stay.
pub record CancelsOnly (P : String → Type 0) (db db' : Db) : Type 0 where
  pub status :
      (k : String)
      → (status_of db' k ≡ status_of db k)
        ⊎ ((live db k ≡ true) × (status_of db' k ≡ some canceled) × P k)
  pub deps : db'.deps ≡ db.deps
  pub running : db'.running ≡ db.running
  pub keys : Unique db.jobs → Unique db'.jobs

pub CancelsOnly-refl : (P : String → Type 0) (db : Db) → CancelsOnly P db db
CancelsOnly-refl P db = record {
  status = λ k. inl refl;
  deps = refl;
  running = refl;
  keys = λ u. u;
}

pub CancelsOnly-trans :
    (P : String → Type 0) (a b c : Db) → CancelsOnly P a b → CancelsOnly P b c → CancelsOnly P a c
CancelsOnly-trans P a b c f g = record {
  status = λ k. elim (f.status k) [
    | inl same ↦ elim (g.status k) [
      | inl same' ↦ inl (same' ∙ same)
      | inr (l, gone, p) ↦ inr (ap (status_test is_live) (sym same) ∙ l, gone, p)
    ]
    | inr (l, gone, p) ↦
        inr (l, elim (g.status k) [ inl same' ↦ same' ∙ gone | inr (l', gone', p') ↦ gone' ], p)
  ];
  deps = g.deps ∙ f.deps;
  running = g.running ∙ f.running;
  keys = λ u. g.keys (f.keys u);
}

pub live_before :
    (P : String → Type 0) (db db' : Db)
    → CancelsOnly P db db'
    → (k : String) → live db' k ≡ true
    → live db k ≡ true
live_before P db db' c k l = elim (c.status k) [
  | inl same ↦ ap (status_test is_live) (sym same) ∙ l
  | inr (l', gone, p) ↦ l'
]

-- One round of the loop, over the job at the head of the queue.
module _ (P : String → Type 0) (cur : String) (queue seen : List String) (db db' : Db)
    (dead : (s : String) → contains seen s ≡ true → live db s ≡ false)
    (effect : CancelsAll (children db cur db.deps seen) db db') where
  round-ClosedUpTo :
      ClosedUpTo (cur ∷ queue) db → ClosedUpTo (queue ++ children db cur db.deps seen) db'
  unfolding contains is_live is_bad
  round-ClosedUpTo closed = record {
    at = λ job parent dep l bad.
        let dep' : depends_on db.deps job parent ≡ true = rw (← effect.deps) dep in
        ground (
          arith,
          effect.status job,
          effect.status parent,
          eq_iff cur parent,
          dep',
          closed.at job parent dep',
          dead job,
          children_complete db cur db.deps seen job,
          contains-append queue (children db cur db.deps seen) parent,
        );
  }

  round-dead :
      (s : String) → contains (children db cur db.deps seen ++ seen) s ≡ true → live db' s ≡ false
  unfolding is_live
  round-dead s h = ground (
    arith,
    effect.status s,
    dead s,
    contains-append (children db cur db.deps seen) seen s,
    children_sound db cur db.deps seen s,
  )

  round-CancelsOnly :
      ((job via : String) → depends_on db.deps job via ≡ true → live db job ≡ true → P via → P job)
      → P cur
      → CancelsOnly P db db'
  round-CancelsOnly step p = record {
    status = λ k. elim (Bool-cases (contains (children db cur db.deps seen) k)) [
      | inl h ↦
          let (l, dep, new) = children_sound db cur db.deps seen k h in
          inr (l, ground (arith, effect.status k), step k cur dep l p)
      | inr h ↦ inl (ground (arith, effect.status k))
    ];
    deps = effect.deps;
    running = effect.running;
    keys = effect.keys;
  }

next_P :
    (P : String → Type 0) (cur : String) (queue seen : List String) (db : Db)
    → ((q : String) → contains (cur ∷ queue) q ≡ true → P q)
    → P cur
    → ((job via : String) → depends_on db.deps job via ≡ true → live db job ≡ true → P via → P job)
    → (q : String) → contains (queue ++ children db cur db.deps seen) q ≡ true
    → P q
next_P P cur queue seen db p p_cur step q h = elim (Bool-cases (contains queue q)) [
  | inl e ↦ p q (unfold contains in rw e (ground arith))
  | inr e ↦
      let (l, dep, new) =
        children_sound db cur db.deps seen q
          (ground (arith, contains-append queue (children db cur db.deps seen) q)) in
      step q cur dep l p_cur
]

-- With fuel for the jobs in the queue and the live ones, the loop ends with no error; it has
-- canceled live jobs that satisfy `P` and no others, and no live job waits for a dead one.
cascade_lem :
    (P : String → Type 0) (fuel : ℕ) (now reason : String) (queue seen : List String) (db : Db)
    → length queue + live_count db ≤ fuel
    → ClosedUpTo queue db
    → ((s : String) → contains seen s ≡ true → live db s ≡ false)
    → ((q : String) → contains queue q ≡ true → P q)
    → ((job via : String) → depends_on db.deps job via ≡ true → live db job ≡ true → P via → P job)
    → (db' : Db) × (cascade fuel now reason queue seen db ≡ ok db')
      × CancelsOnly P db db'
      × ClosedUpTo [] db'
unfolding cascade
cascade_lem P fuel now reason [] seen db m closed dead p step =
    (db, refl, CancelsOnly-refl P db, closed)
cascade_lem P zero now reason (cur ∷ queue) seen db m closed dead p step = absurd (omega arith)
cascade_lem P (suc fuel) now reason (cur ∷ queue) seen db m closed dead p step =
    let cs = children db cur db.deps seen in
    let p_cur : P cur = p cur (unfold contains in rw eq_refl refl) in
    let (one, is_one, effect, count) =
      cancel_all-CancelsAll now cs reason db (λ c h. (children_sound db cur db.deps seen c h).0)
        (children-Distinct db cur db.deps seen) in
    let once = round-CancelsOnly P cur queue seen db one dead effect step p_cur in
    let (db', is_rest, rest, done) =
      cascade_lem P fuel now reason (queue ++ cs) (cs ++ seen) one
        (omega (arith, length-append queue cs))
        (round-ClosedUpTo P cur queue seen db one dead effect closed)
        (round-dead P cur queue seen db one dead effect) (next_P P cur queue seen db p p_cur step)
        (rw effect.deps (λ job via dep l. step job via dep (live_before P db one once job l))) in
    (db', rw (is_one, cascade) is_rest, CancelsOnly-trans P db one db' once rest, done)

-- No live job waits for a CANCELED or FAILED one.
abbrev pub NoneDoomed : Db → Type 0
NoneDoomed db =
    (job parent : String)
    → depends_on db.deps job parent ≡ true
    → live db job ≡ true
    → doomed db parent ≡ false

pub NoneDoomed-ClosedUpTo : (db : Db) (queue : List String) → NoneDoomed db → ClosedUpTo queue db
NoneDoomed-ClosedUpTo db queue h = record {
  at = λ job parent dep l bad. ground (arith, h job parent dep l);
}

pub ClosedUpTo-NoneDoomed : (db : Db) → ClosedUpTo [] db → NoneDoomed db
unfolding contains
ClosedUpTo-NoneDoomed db c job parent dep l = elim (Bool-cases (doomed db parent)) [
  | inl bad ↦ absurd (ground (arith, c.at job parent dep l bad))
  | inr good ↦ good
]

-- What a cancellation from `parent` brings about: `db'` is its result.
pub record Cascades (parent : String) (db db' : Db) : Type 0 where
  pub only : CancelsOnly (Waits db parent) db db'
  pub none_doomed : NoneDoomed db'

-- From a job at its end, where at most that job dooms others, the cascade ends with no error.
pub cascade_cancel-Cascades :
    (now parent reason : String) (db : Db)
    → live db parent ≡ false
    → ClosedUpTo (parent ∷ []) db
    → (db' : Db) × (cascade_cancel now parent reason db ≡ ok db') × Cascades parent db db'
unfolding cascade_cancel contains
cascade_cancel-Cascades now parent reason db dead closed =
    let (db', is_ok, only, done) =
      cascade_lem (Waits db parent) (suc (length db.jobs)) now reason (parent ∷ []) (parent ∷ []) db
        (omega (arith, tally-le-length (λ (r : JobRow). is_live r.status) db.jobs)) closed
        (λ s h. ground (arith, eq_iff parent s))
        (λ q h. let e : parent ≡ q = ground (arith, eq_iff parent q) in rw (← e) itself) through in
    (db', is_ok, record { only = only; none_doomed = ClosedUpTo-NoneDoomed db' done })
