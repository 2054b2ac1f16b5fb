-- ===== src/Server/Lifecycle/Released.antt =====
-- What a shutdown may release, and when: the order of handlers, database and socket.
use batchq.Shared.{◌≡◌, ap, ℕ, Bool, true, false, ◌⊎◌, inl, inr, tally, arith, Bool-cases}
use mathlib.Core.Path.{subst}
use batchq.Server.Gate.{Memory, Phase, advance, is_counted, is_inside}
use batchq.Server.Teardown.{Stage, Main, go_on}
use batchq.Server.Lifecycle.{System, Step, Reach, later}
use batchq.Server.Lifecycle.Invariant.{Inv, is_drain, Reach-Holds}

up-of_Inv :
    {m : Memory} {forced : Bool} {main : Main} {c n : ℕ}
    → Inv m Stage.unlocked forced main c n
    → m.shutdown_started ≡ false
    → (m.draining ≡ false)
      × (m.db_open ≡ true)
      × (m.accepting ≡ true)
      × (m.socket ≡ true)
      × ((now : ℕ) → (advance now m Phase.counted).1 ≡ Phase.admitted)
unfolding advance
up-of_Inv inv early = ground arith

go_on-stopped :
    (m : Memory) (g : Main)
    → m.accepting ≡ false
    → g ≡ Main.in_serve
    → go_on m g ≡ (m, Main.in_cleanup)
unfolding go_on
go_on-stopped m g e f = ground arith

module _ {idle_timeout begin : ℕ} {s : System} (reached : Reach idle_timeout begin s) where
  -- However requests, teardowns and the main goroutine interleave from the start of the server:
  -- as long as no teardown went on with requests in flight, the database is open or no request
  -- past the gate has its handler before it or in it; the socket's file is there or the
  -- database is closed; and `inFlight` is the number of requests between its two additions.
  pub idle_close-released :
      s.forced ≡ false
      → ((s.mem.db_open ≡ true) ⊎ (tally is_inside s.requests ≡ 0))
        × ((s.mem.socket ≡ true) ⊎ (s.mem.db_open ≡ false))
        × (s.mem.in_flight ≡ tally is_counted s.requests)
  idle_close-released quiet = (
    elim (Bool-cases s.mem.db_open) [ inl e ↦ inl e | inr e ↦ inr (empty quiet (ground arith)) ],
    elim (Bool-cases s.mem.socket) [
      | inl e ↦ inl e
      | inr e ↦ inr (in_order quiet (left (unlinked e)))
    ],
    counts,
  )
    where
      open (Reach-Holds reached) use {empty, in_order, left, unlinked, counts}

  -- In every reachable state in which nobody holds the shutdown lock and no teardown has been
  -- committed, an abandoned cull before it or not, the server is up: the flag is down, the
  -- database, the listener and the socket are there, and a request that is counted is admitted.
  pub uncommitted-up :
      s.stage ≡ Stage.unlocked
      → s.mem.shutdown_started ≡ false
      → (s.mem.draining ≡ false)
        × (s.mem.db_open ≡ true)
        × (s.mem.accepting ≡ true)
        × (s.mem.socket ≡ true)
        × ((now : ℕ) → (advance now s.mem Phase.counted).1 ≡ Phase.admitted)
  uncommitted-up free early =
      up-of_Inv
        (subst
          (λ st.
            Inv s.mem st s.forced s.main (tally is_counted s.requests) (tally is_inside s.requests))
          free (Reach-Holds reached))
        early

  -- From every reachable state in which a teardown waits for the handlers of requests and the main
  -- goroutine has not returned, the process may close the database, remove the socket and exit
  -- while that teardown still waits, with every request where it was.
  pub forced_close-early :
      s.stage ≡ Stage.waiting
      → s.main ≡ Main.in_serve
      → Reach idle_timeout begin
          (record s { mem = record s.mem { socket = false; db_open = false }; main = Main.exited })
  unfolding go_on
  forced_close-early wait serving =
      let out : Reach idle_timeout begin (record s { main = Main.in_cleanup }) =
        subst (λ (r : Memory × Main). Reach idle_timeout begin (record s { mem = r.0; main = r.1 }))
          (go_on-stopped s.mem s.main (shut (ap is_drain wait)) serving)
          (later reached Step.main_goes_on) in
      later (later out Step.main_goes_on) Step.main_goes_on
    where
      open (Reach-Holds reached) use {shut}
