-- ===== src/Store/Resolve/Parents.antt =====
-- What `ResolveDependencies` concludes from the parents of one job (storage/sqlite.go).
use batchq.Shared.{
  ◌≡◌, refl, Bool, true, false, not, ◌∙◌, ◌&&◌, ◌||◌, Option, none, some, List, [], ◌∷◌, arith,
  eq_iff, eq_refl, String, str_eq, ◌↔◌,
}
use mathlib.Core.Path.{subst}
use batchq.Job.Status.{StatusCode, is_bad}
use batchq.Store.Db.{Dep, Db, status_of, status_test, live, doomed, depends_on}
use batchq.Store.Cancel.Cascade.{NoneDoomed}
use batchq.Store.Resolve.{Verdict, weigh, weigh_row, weigh_parents, verdict, is_met}
use batchq.Store.Wf.{DepsRefer, known, is_some}

-- A parent of the job that has a state, as the join requires.
abbrev pub met : Db → String → Bool
met db p = status_test is_met (status_of db p)

depends_on_head :
    (id : String) (d : Dep) (ds : List Dep)
    → str_eq d.job_id id ≡ true
    → depends_on (d ∷ ds) id d.afterok_id ≡ true
unfolding depends_on
depends_on_head id d ds h = ground (arith, eq_refl d.afterok_id)

weigh_row-should_cancel :
    (id : String) (d : Dep) (o : Option StatusCode) (v : Verdict)
    → (weigh_row id d o v).should_cancel
      ≡ (v.should_cancel || (str_eq d.job_id id && status_test is_bad o))
unfolding weigh_row weigh
weigh_row-should_cancel id d none v = ground arith
weigh_row-should_cancel id d (some s) v = ground arith

weigh_row-can_queue :
    (id : String) (d : Dep) (o : Option StatusCode) (v : Verdict)
    → (weigh_row id d o v).can_queue
      ≡ (v.can_queue && not (str_eq d.job_id id && (is_some o && not (status_test is_met o))))
unfolding weigh_row weigh
weigh_row-can_queue id d none v = ground arith
weigh_row-can_queue id d (some s) v = ground arith

-- Where no parent is doomed, the pass does not cancel.
weigh_parents-keeps :
    (db : Db) (id : String) (ds : List Dep) (v : Verdict)
    → ((p : String) → depends_on ds id p ≡ true → doomed db p ≡ false)
    → (weigh_parents db id ds v).should_cancel ≡ v.should_cancel
unfolding weigh_parents
weigh_parents-keeps db id [] v h = refl
weigh_parents-keeps db id (d ∷ ds) v h =
    weigh_parents-keeps db id ds (weigh_row id d (status_of db d.afterok_id) v)
      (λ p dep. h p (unfold depends_on in ground arith))
    ∙ ground (
      arith,
      weigh_row-should_cancel id d (status_of db d.afterok_id) v,
      h d.afterok_id,
      depends_on_head id d ds,
    )

pub verdict-should_cancel :
    (db : Db) (id : String)
    → NoneDoomed db
    → live db id ≡ true
    → (verdict db id).should_cancel ≡ false
unfolding verdict
verdict-should_cancel db id none_doomed l =
    weigh_parents-keeps db id db.deps _ (λ p dep. none_doomed id p dep l)

-- Two databases whose jobs agree on what the pass asks of a parent lead to one verdict.
pub record Agrees (db db' : Db) : Type 0 where
  pub at :
      (p : String)
      → (known db p ≡ known db' p) × (met db p ≡ met db' p) × (doomed db p ≡ doomed db' p)
  pub deps : db.deps ≡ db'.deps

weigh_parents-Agrees :
    (db db' : Db) (id : String) (ds : List Dep) (v v' : Verdict)
    → Agrees db db'
    → v.can_queue ≡ v'.can_queue
    → v.should_cancel ≡ v'.should_cancel
    → ((weigh_parents db id ds v).can_queue ≡ (weigh_parents db' id ds v').can_queue)
      × ((weigh_parents db id ds v).should_cancel ≡ (weigh_parents db' id ds v').should_cancel)
unfolding weigh_parents
weigh_parents-Agrees db db' id [] v v' a q c = (q, c)
weigh_parents-Agrees db db' id (d ∷ ds) v v' a q c =
    let o = status_of db d.afterok_id in
    let o' = status_of db' d.afterok_id in
    weigh_parents-Agrees db db' id ds (weigh_row id d o v) (weigh_row id d o' v') a
      (ground
        (arith, weigh_row-can_queue id d o v, weigh_row-can_queue id d o' v', a.at d.afterok_id))
      (ground (
        arith,
        weigh_row-should_cancel id d o v,
        weigh_row-should_cancel id d o' v',
        a.at d.afterok_id,
      ))

pub verdict-Agrees :
    (db db' : Db) (id : String)
    → Agrees db db'
    → ((verdict db id).can_queue ≡ (verdict db' id).can_queue)
      × ((verdict db id).should_cancel ≡ (verdict db' id).should_cancel)
unfolding verdict
verdict-Agrees db db' id a =
    let start : Verdict = record { can_queue = true; should_cancel = false; reason = "" } in
    subst
      (λ ds.
        ((weigh_parents db id db.deps start).can_queue ≡ (weigh_parents db' id ds start).can_queue)
        × ((weigh_parents db id db.deps start).should_cancel
            ≡ (weigh_parents db' id ds start).should_cancel))
      a.deps (weigh_parents-Agrees db db' id db.deps start start a refl refl)

weigh_parents-met :
    (db : Db) (id : String) (ds : List Dep) (v : Verdict)
    → (weigh_parents db id ds v).can_queue ≡ true
    → (v.can_queue ≡ true)
      × ((p : String) → depends_on ds id p ≡ true → known db p ≡ true → met db p ≡ true)
unfolding weigh_parents depends_on
weigh_parents-met db id [] v h = (h, λ p dep k. absurd (ground arith))
weigh_parents-met db id (d ∷ ds) v h =
    let o = status_of db d.afterok_id in
    let (first, rest) = weigh_parents-met db id ds (weigh_row id d o v) h in
    (
      ground (arith, weigh_row-can_queue id d o v),
      λ p dep k. ground (arith, weigh_row-can_queue id d o v, eq_iff d.afterok_id p, rest p),
    )

weigh_parents-can_queue :
    (db : Db) (id : String) (ds : List Dep) (v : Verdict)
    → v.can_queue ≡ true
    → ((p : String) → depends_on ds id p ≡ true → met db p ≡ true)
    → (weigh_parents db id ds v).can_queue ≡ true
unfolding weigh_parents
weigh_parents-can_queue db id [] v h all = h
weigh_parents-can_queue db id (d ∷ ds) v h all =
    let o = status_of db d.afterok_id in
    weigh_parents-can_queue db id ds (weigh_row id d o v)
      (ground (arith, weigh_row-can_queue id d o v, all d.afterok_id, depends_on_head id d ds))
      (λ p dep. all p (unfold depends_on in ground arith))

-- Every parent of the job has succeeded or was handed to the other scheduler.
abbrev pub AllMet : Db → String → Type 0
AllMet db id = (p : String) → depends_on db.deps id p ≡ true → met db p ≡ true

-- Where dependencies refer to jobs of the table, the pass may queue a job exactly when every parent of
-- it has succeeded or was handed to the other scheduler.
pub verdict-can_queue :
    (db : Db) (id : String) → DepsRefer db → ((verdict db id).can_queue ≡ true) ↔ AllMet db id
unfolding verdict
verdict-can_queue db id refer = (
  λ h p dep. (weigh_parents-met db id db.deps _ h).1 p dep (refer.at id p dep).1,
  λ all. weigh_parents-can_queue db id db.deps _ refl all,
)
