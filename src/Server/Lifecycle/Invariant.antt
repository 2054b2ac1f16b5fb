-- ===== src/Server/Lifecycle/Invariant.antt =====
-- What holds whenever the accesses of requests, the teardown and the main goroutine interleave.
use batchq.Shared.{
  ◌≡◌, ℕ, ◌+◌, ◌≤◌, Bool, true, false, not, ◌||◌, List, [], ◌∷◌, ◌++◌, tally, arith, if◌then◌else◌,
}
use batchq.Server.Gate.{Memory, Phase, advance, is_counted, is_inside}
use batchq.Server.Teardown.{Stage, Main, tear_down, is_forced, go_on}
use batchq.Server.Lifecycle.{System, Step, Reach, start, later}

-- The flag is up, and the teardown may still be given up.
abbrev pub is_raised : Stage → Bool
is_raised (Stage.announced abort) = true
is_raised Stage.aborting = true
is_raised _ = false

-- The teardown will not be given up.
abbrev pub is_committed : Stage → Bool
is_committed Stage.unlocked = false
is_committed (Stage.locked abort) = false
is_committed (Stage.announced abort) = false
is_committed Stage.aborting = false
is_committed _ = true

abbrev pub is_closing_first : Stage → Bool
is_closing_first Stage.closing_first = true
is_closing_first _ = false

abbrev pub is_stopping : Stage → Bool
is_stopping Stage.stopping = true
is_stopping _ = false

abbrev pub is_drain : Stage → Bool
is_drain Stage.waiting = true
is_drain _ = false

abbrev pub has_returned : Main → Bool
has_returned Main.in_serve = false
has_returned _ = true

-- `count` requests are counted, and `inside` of them are past the gate.
pub record Inv (m : Memory) (st : Stage) (forced : Bool) (main : Main) (count inside : ℕ)
    : Type 0 where
  pub counts : m.in_flight ≡ count
  pub gate : m.draining ≡ (m.shutdown_started || is_raised st)
  pub pending : is_raised st ≡ true → m.shutdown_started ≡ false
  pub committed : is_committed st ≡ true → m.shutdown_started ≡ true
  pub closed : m.db_open ≡ false → m.shutdown_started ≡ true
  pub stopped : m.accepting ≡ false → m.shutdown_started ≡ true
  pub is_marked : is_forced st ≡ true → forced ≡ true
  pub empty : forced ≡ false → (is_closing_first st || not m.db_open) ≡ true → inside ≡ 0
  pub close_first : is_stopping st ≡ true → m.db_open ≡ false
  pub in_order : forced ≡ false → m.accepting ≡ false → m.db_open ≡ false
  pub left : has_returned main ≡ true → m.accepting ≡ false
  pub unlinked : m.socket ≡ false → has_returned main ≡ true
  pub shut : is_drain st ≡ true → m.accepting ≡ false

abbrev one : Bool → ℕ
one b = if b then 1 else 0

tally-middle {ℓ} :
    {A : Type ℓ} (f : A → Bool) (front : List A) (p : A) (back : List A)
    → tally f (front ++ p ∷ back) ≡ tally f front + tally f back + one (f p)
unfolding tally
tally-middle f [] p back = ground arith
tally-middle f (x ∷ front) p back = ground (arith, tally-middle f front p back)

module _ {st : Stage} {forced : Bool} {main : Main} where
  advance-Inv :
      (now : ℕ) (m : Memory) (p : Phase) (c n : ℕ)
      → Inv m st forced main (c + one (is_counted p)) (n + one (is_inside p))
      → Inv
          (advance now m p).0
          st
          forced
          main
          (c + one (is_counted (advance now m p).1))
          (n + one (is_inside (advance now m p).1))
  unfolding advance is_counted is_inside
  advance-Inv now m (Phase.arrived true) c n inv = ground arith
  advance-Inv now m (Phase.arrived false) c n inv = ground arith
  advance-Inv now m Phase.bypassing c n inv = ground arith
  advance-Inv now m Phase.counted c n inv = ground arith
  advance-Inv now m Phase.refused c n inv = ground arith
  advance-Inv now m Phase.admitted c n inv = ground arith
  advance-Inv now m Phase.serving c n inv = ground arith
  advance-Inv now m Phase.returned c n inv = ground arith
  advance-Inv now m Phase.leaving c n inv = ground arith
  advance-Inv now m Phase.answered c n inv = ground arith

  act-Inv :
      (now : ℕ) (m : Memory) (front : List Phase) (p : Phase) (back l : List Phase)
      → l ≡ front ++ p ∷ back
      → Inv m st forced main (tally is_counted l) (tally is_inside l)
      → Inv
          (advance now m p).0
          st
          forced
          main
          (tally is_counted (front ++ (advance now m p).1 ∷ back))
          (tally is_inside (front ++ (advance now m p).1 ∷ back))
  act-Inv now m front p back l e inv =
      let q = (advance now m p).1 in
      let before =
        rw (e, tally-middle is_counted front p back, tally-middle is_inside front p back) at inv in
      rw (tally-middle is_counted front q back, tally-middle is_inside front q back)
        (advance-Inv now m p _ _ before)

tear_down-Inv :
    (m : Memory) (st : Stage) (forced : Bool) (main : Main) (c n : ℕ)
    → n ≤ c
    → Inv m st forced main c n
    → Inv (tear_down m st).0 (tear_down m st).1 (forced || is_forced (tear_down m st).1) main c n
unfolding tear_down is_forced
tear_down-Inv m Stage.unlocked forced main c n le inv = ground arith
tear_down-Inv m (Stage.locked abort) forced main c n le inv = ground arith
tear_down-Inv m (Stage.announced true) forced main c n le inv = ground arith
tear_down-Inv m (Stage.announced false) forced main c n le inv = ground arith
tear_down-Inv m Stage.aborting forced main c n le inv = ground arith
tear_down-Inv m Stage.draining_first forced main c n le inv = ground arith
tear_down-Inv m Stage.waiting forced main c n le inv = ground arith
tear_down-Inv m Stage.closing_last forced main c n le inv = ground arith
tear_down-Inv m Stage.closing_first forced main c n le inv = ground arith
tear_down-Inv m Stage.stopping forced main c n le inv = ground arith

go_on-Inv :
    (m : Memory) (main : Main) {st : Stage} {forced : Bool} {c n : ℕ}
    → Inv m st forced main c n
    → Inv (go_on m main).0 st forced (go_on m main).1 c n
unfolding go_on
go_on-Inv m Main.in_serve inv = ground arith
go_on-Inv m Main.in_cleanup inv = ground arith
go_on-Inv m Main.in_defers inv = ground arith
go_on-Inv m Main.exited inv = ground arith

inside-le-counted : (l : List Phase) → tally is_inside l ≤ tally is_counted l
unfolding tally is_inside is_counted
inside-le-counted [] = omega arith
inside-le-counted (Phase.arrived i ∷ l) = ground (arith, inside-le-counted l)
inside-le-counted (Phase.bypassing ∷ l) = ground (arith, inside-le-counted l)
inside-le-counted (Phase.counted ∷ l) = ground (arith, inside-le-counted l)
inside-le-counted (Phase.refused ∷ l) = ground (arith, inside-le-counted l)
inside-le-counted (Phase.admitted ∷ l) = ground (arith, inside-le-counted l)
inside-le-counted (Phase.serving ∷ l) = ground (arith, inside-le-counted l)
inside-le-counted (Phase.returned ∷ l) = ground (arith, inside-le-counted l)
inside-le-counted (Phase.leaving ∷ l) = ground (arith, inside-le-counted l)
inside-le-counted (Phase.answered ∷ l) = ground (arith, inside-le-counted l)

abbrev pub Holds : System → Type 0
Holds s =
    Inv s.mem s.stage s.forced s.main (tally is_counted s.requests) (tally is_inside s.requests)

Step-Holds : {idle_timeout : ℕ} {s t : System} → Step idle_timeout s t → Holds s → Holds t
unfolding tally is_counted is_inside is_forced
Step-Holds (Step.pass t) inv = inv
Step-Holds (Step.arrive i) inv = inv
Step-Holds {s} (Step.act front p back e) inv = act-Inv s.now s.mem front p back s.requests e inv
Step-Holds (Step.tick e) inv = inv
Step-Holds (Step.cull d e) inv = ground arith
Step-Holds (Step.force e) inv = ground arith
Step-Holds {s} Step.tear inv =
    tear_down-Inv s.mem s.stage s.forced s.main _ _ (inside-le-counted s.requests) inv
Step-Holds (Step.drained e none_busy) inv = ground arith
Step-Holds (Step.expired e) inv = ground arith
Step-Holds {s} Step.main_goes_on inv = go_on-Inv s.mem s.main inv

pub Reach-Holds : {idle_timeout begin : ℕ} {s : System} → Reach idle_timeout begin s → Holds s
unfolding tally is_forced
Reach-Holds start = ground arith
Reach-Holds (later r st) = Step-Holds st (Reach-Holds r)
