-- ===== src/Server/Gate.antt =====
-- server/server.go: the memory that `withActivity` and `shutdown` share, and a request's way
-- through `withActivity`, one atomic access at a time.
use batchq.Shared.{ℕ, ◌+◌, ◌-◌, Bool, true, false, if◌then◌else◌}

-- The fields of `Server` that requests, the monitors and the teardown share, with what they
-- guard: the database, the listener, and the file of the socket.
pub record Memory : Type 0 where
  pub in_flight : ℕ
  pub draining : Bool
  pub shutdown_started : Bool
  pub last_activity : ℕ
  pub db_open : Bool
  pub accepting : Bool
  pub socket : Bool

-- Where a request stands in `withActivity`.
pub data Phase : Type 0 where
  arrived : (internal : Bool) → Phase  -- before the test of HeaderInternalOwner
  bypassing : Phase  -- the handler of a request that carries the header
  counted : Phase  -- after inFlight.Add(1)
  refused : Phase  -- `draining` was read as true
  admitted : Phase  -- `draining` was read as false
  serving : Phase  -- in `next.ServeHTTP`
  returned : Phase  -- at the head of the deferred function
  leaving : Phase  -- before its inFlight.Add(-1)
  answered : Phase

-- One access of a request; `now` is what the clock shows.
unfoldable pub advance : (now : ℕ) → Memory → Phase → Memory × Phase
advance now m (arrived true) = (m, bypassing)
advance now m (arrived false) = (record m { in_flight = m.in_flight + 1 }, counted)
advance now m bypassing = (m, answered)
advance now m counted = (m, if m.draining then refused else admitted)
advance now m refused = (record m { in_flight = m.in_flight - 1 }, answered)
advance now m admitted = (record m { last_activity = now }, serving)
advance now m serving = (m, returned)
advance now m returned = (record m { last_activity = now }, leaving)
advance now m leaving = (record m { in_flight = m.in_flight - 1 }, answered)
advance now m answered = (m, answered)

-- A request that `inFlight` counts.
unfoldable pub is_counted : Phase → Bool
is_counted (arrived internal) = false
is_counted bypassing = false
is_counted answered = false
is_counted _ = true

-- A request that has passed the gate, and whose handler is not over.
unfoldable pub is_inside : Phase → Bool
is_inside admitted = true
is_inside serving = true
is_inside _ = false
