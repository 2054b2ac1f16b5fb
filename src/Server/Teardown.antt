-- ===== src/Server/Teardown.antt =====
-- server/server.go: `shutdown` and `closeStorage`, one access at a time, the tick of the idle
-- monitor, and cmd/server.go: what `runServer` does once `Serve` returns.
use batchq.Shared.{ℕ, ◌-◌, ◌/◌, Bool, true, false, ◌&&◌, not, ltb, leb, if◌then◌else◌}
use batchq.Server.Gate.{Memory}

-- Where the holder of `shutdownMu` stands; `unlocked` when nobody holds it.
pub data Stage : Type 0 where
  unlocked : Stage
  locked : (abort_if_busy : Bool) → Stage
  announced : (abort_if_busy : Bool) → Stage  -- `draining` is stored, `inFlight` not yet read
  aborting : Stage  -- before `draining` is reset
  draining_first : Stage  -- busy: before httpSrv.Shutdown
  waiting : Stage  -- busy: in httpSrv.Shutdown, the listener closed
  closing_last : Stage  -- busy: before closeStorage
  closing_first : Stage  -- idle: before closeStorage
  stopping : Stage  -- idle: before httpSrv.Shutdown

-- What the teardown does next. In `waiting` it stays until httpSrv.Shutdown returns.
unfoldable pub tear_down : Memory → Stage → Memory × Stage
tear_down m unlocked = (m, unlocked)
tear_down m (locked abort) =
    if m.shutdown_started then (m, unlocked) else (record m { draining = true }, announced abort)
tear_down m (announced abort) =
    let busy = ltb 0 m.in_flight in
    if busy && abort
    then (m, aborting)
    else (record m { shutdown_started = true }, if busy then draining_first else closing_first)
tear_down m aborting = (record m { draining = false }, unlocked)
tear_down m draining_first = (record m { accepting = false }, waiting)
tear_down m waiting = (m, waiting)
tear_down m closing_last = (record m { db_open = false }, unlocked)
tear_down m closing_first = (record m { db_open = false }, stopping)
tear_down m stopping = (record m { accepting = false }, unlocked)

-- The stages of a shutdown that found requests in flight and went on.
unfoldable pub is_forced : Stage → Bool
is_forced draining_first = true
is_forced waiting = true
is_forced closing_last = true
is_forced _ = false

-- The goroutine that called `ServeListener`.
pub data Main : Type 0 where
  in_serve : Main  -- in httpSrv.Serve
  in_cleanup : Main  -- in cleanupSocket
  in_defers : Main  -- in the deferred calls of `runServer`
  exited : Main

-- httpSrv.Serve returns as soon as the listener is closed; it does not wait for the teardown.
unfoldable pub go_on : Memory → Main → Memory × Main
go_on m in_serve = if m.accepting then (m, in_serve) else (m, in_cleanup)
go_on m in_cleanup = (record m { socket = false }, in_defers)
go_on m in_defers = (record m { db_open = false }, exited)
go_on m exited = (m, exited)

-- The test of the idle monitor's tick before it calls `shutdown`.
unfoldable pub is_idle : (now idle_timeout : ℕ) → Memory → Bool
is_idle now idle_timeout m = not (ltb 0 m.in_flight) && leb idle_timeout (now - m.last_activity)

-- The interval of the ticks, in milliseconds.
unfoldable pub check_interval : (configured idle_timeout : ℕ) → ℕ
check_interval configured idle_timeout =
    let quarter = idle_timeout / 4 in
    let capped = if ltb 30000 quarter then 30000 else quarter in
    if ltb 0 configured then configured else if ltb capped 100 then 100 else capped
