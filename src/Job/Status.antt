-- ===== src/Job/Status.antt =====
-- The states of a job: `StatusCode` of jobs/jobdef.go, and its names on the wire, api/status.go.
use batchq.Shared.{ℕ, String, Bool, ◌||◌, ltb, ◌==◌}

pub data StatusCode : Type 0 where
  unknown userhold waiting queued proxyqueued running canceled success failed : StatusCode

-- The number of a state, in the order of the `iota` block; the store compares states by it.
abbrev pub code : StatusCode → ℕ
code unknown = 0
code userhold = 1
code waiting = 2
code queued = 3
code proxyqueued = 4
code running = 5
code canceled = 6
code success = 7
code failed = 8

-- Equality of states, as the store's `status = ?` tests it.
unfoldable pub is : StatusCode → StatusCode → Bool
is a b = code a == code b

-- `status < jobs.CANCELED`: not yet at an end.
unfoldable pub is_live : StatusCode → Bool
is_live s = ltb (code s) (code canceled)

-- `depStatus == jobs.CANCELED || depStatus == jobs.FAILED`
unfoldable pub is_bad : StatusCode → Bool
unfolding is
is_bad s = is s canceled || is s failed

-- `StatusCode.String`
unfoldable pub status_name : StatusCode → String
status_name unknown = "UNKNOWN"
status_name userhold = "USERHOLD"
status_name waiting = "WAITING"
status_name queued = "QUEUED"
status_name running = "RUNNING"
status_name canceled = "CANCELED"
status_name proxyqueued = "PROXYQUEUED"
status_name success = "SUCCESS"
status_name failed = "FAILED"
