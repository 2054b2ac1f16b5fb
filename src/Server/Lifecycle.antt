-- ===== src/Server/Lifecycle.antt =====
-- server/server.go: requests, one teardown at a time, and the main goroutine, interleaved in any
-- order. What net/http promises of `Shutdown` is the guard of `drained`: it returns without an
-- error only when no connection is busy.
mod Invariant
pub mod Released
use batchq.Shared.{◌≡◌, ℕ, ◌+◌, Bool, true, false, ◌||◌, List, [], ◌∷◌, ◌++◌, tally}
use batchq.Server.Gate.{Memory, Phase, advance, is_counted}
use batchq.Server.Teardown.{Stage, Main, tear_down, is_forced, go_on, is_idle}

pub record System : Type 0 where
  pub mem : Memory
  pub stage : Stage
  pub forced : Bool  -- some teardown has found requests in flight and went on
  pub main : Main
  pub due : Bool  -- the idle monitor has passed its tests and will call `shutdown`
  pub requests : List Phase
  pub now : ℕ

-- A request whose connection is busy.
unfoldable pub is_busy : Phase → Bool
is_busy Phase.answered = false
is_busy _ = true

-- The steps of the teardown, of a request, and of the main goroutine.
abbrev pub after_tear_down : System → System
after_tear_down s =
    let (m, st) = tear_down s.mem s.stage in
    record s { mem = m; stage = st; forced = s.forced || is_forced st }

abbrev pub after_advance : System → (front : List Phase) → Phase → (back : List Phase) → System
after_advance s front p back =
    let (m, q) = advance s.now s.mem p in record s { mem = m; requests = front ++ q ∷ back }

abbrev pub after_go_on : System → System
after_go_on s = let (m, g) = go_on s.mem s.main in record s { mem = m; main = g }

pub data Step (idle_timeout : ℕ) (s : System) : System → Type 0 where
  pass : (t : ℕ) → Step idle_timeout s (record s { now = s.now + t })
  arrive :
      (internal : Bool)
      → Step idle_timeout s (record s { requests = Phase.arrived internal ∷ s.requests })
  act :
      (front : List Phase) (p : Phase) (back : List Phase)
      → s.requests ≡ front ++ p ∷ back
      → Step idle_timeout s (after_advance s front p back)
  -- The idle monitor: its tests, and its call of `shutdown` with abortIfBusy.
  tick : is_idle s.now idle_timeout s.mem ≡ true → Step idle_timeout s (record s { due = true })
  cull :
      s.due ≡ true
      → s.stage ≡ Stage.unlocked
      → Step idle_timeout s (record s { stage = Stage.locked true; due = false })
  -- A signal, a lost socket, or an administrator calls `shutdown` without abortIfBusy.
  force : s.stage ≡ Stage.unlocked → Step idle_timeout s (record s { stage = Stage.locked false })
  tear : Step idle_timeout s (after_tear_down s)
  -- httpSrv.Shutdown returns: all connections are idle, or its deadline has passed.
  drained :
      s.stage ≡ Stage.waiting
      → tally is_busy s.requests ≡ 0
      → Step idle_timeout s (record s { stage = Stage.closing_last })
  expired : s.stage ≡ Stage.waiting → Step idle_timeout s (record s { stage = Stage.closing_last })
  main_goes_on : Step idle_timeout s (after_go_on s)

-- What `New` and `ServeListener` start with.
abbrev pub fresh : (now : ℕ) → System
fresh now = record {
  mem = record {
    in_flight = 0;
    draining = false;
    shutdown_started = false;
    last_activity = now;
    db_open = true;
    accepting = true;
    socket = true;
  };
  stage = Stage.unlocked;
  forced = false;
  main = Main.in_serve;
  due = false;
  requests = [];
  now = now;
}

pub data Reach (idle_timeout begin : ℕ) : System → Type 0 where
  start : Reach idle_timeout begin (fresh begin)
  later :
      {s t : System}
      → Reach idle_timeout begin s
      → Step idle_timeout s t
      → Reach idle_timeout begin t
