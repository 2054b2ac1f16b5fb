-- ===== src/Server.antt =====
-- The server's handlers, server/handlers.go: what `handleEndProxied` makes of a report.
pub mod Auth
pub mod Gate
pub mod Teardown
pub mod Lifecycle
use batchq.Shared.{Option, none, some, String}
use batchq.Shared.Int.{ℤ}
use batchq.Job.Status.{StatusCode, success, failed, canceled}
use batchq.Api.{parse_status}
use batchq.Store.Run.{EndStatus, Request}

-- The switch over the parsed state.
unfoldable pub end_status_of : StatusCode → Option EndStatus
end_status_of success = some EndStatus.succeeded
end_status_of failed = some EndStatus.failed
end_status_of canceled = some EndStatus.canceled
end_status_of s = none

-- `handleEndProxied`: the request for the store; `none` is an answer 400.
unfoldable pub handle_end_proxied :
    (id word start end_time : String) → ℤ → (notes : String) → Option Request
handle_end_proxied id word start end_time code notes = elim (parse_status word) [
  | none ↦ none
  | some s ↦ elim (end_status_of s) [
    | none ↦ none
    | some e ↦ some (Request.report id e start end_time code notes)
  ]
]
