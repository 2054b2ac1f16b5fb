-- ===== src/Client.antt =====
-- The client's sends, client/client.go: `doOnce`, `doRetry`, `do`, `doIdempotent`, `SubmitJob` and the
-- tests of errors that decide on a retry; `isConnectFailure` of client/autospawn.go.
pub mod Once
use batchq.Shared.{
  ℕ, ◌+◌, Bool, true, false, not, ◌&&◌, ◌||◌, Option, List, [], ◌∷◌, String, str_eq, ltb, leb, ◌==◌,
  if◌then◌else◌,
}
use batchq.Store.Db.{Db}
use batchq.Service.Submission.{SubmitRequest, PeerCreds, Lookup, submit_job, submit_status}

-- How one send ends for the client: no error, an `HTTPError`, or an error below HTTP, in dialing or
-- later, by a timeout or not.
pub data Outcome : Type 0 where
  done : Outcome
  http_error : (status : ℕ) → (draining : Bool) → Outcome
  transport : (dialing timed_out : Bool) → Outcome

unfoldable pub is_connect_failure : Outcome → Bool
is_connect_failure (transport dialing timed_out) = dialing
is_connect_failure _ = false

unfoldable pub is_timeout_err : Outcome → Bool
is_timeout_err (transport dialing timed_out) = timed_out
is_timeout_err _ = false

unfoldable pub retryable_handoff : Outcome → Bool
unfolding is_connect_failure
retryable_handoff (http_error status draining) = status == 503 && draining
retryable_handoff o = is_connect_failure o

unfoldable pub is_server_error : Outcome → Bool
is_server_error (http_error status draining) = leb 500 status
is_server_error _ = false

unfoldable pub retryable_idempotent : Outcome → Bool
unfolding retryable_handoff is_timeout_err is_server_error
retryable_idempotent o = retryable_handoff o || is_timeout_err o || is_server_error o

abbrev pub is_done : Outcome → Bool
is_done done = true
is_done _ = false

-- What network and server make of one send. The gate of a draining server answers before any work
-- is done; a reply that is lost leaves the work done.
pub data Delivery : Type 0 where
  unreachable : (timed_out : Bool) → Delivery
  turned_away : Delivery
  answered : Delivery
  reply_lost : (timed_out : Bool) → Delivery
  dropped : (timed_out : Bool) → Delivery

-- The waits of `handoffBackoffs`, in seconds.
abbrev pub handoff_backoffs : List ℕ
handoff_backoffs = 5 ∷ 10 ∷ 30 ∷ []

-- One attempt: what the handler is given, what becomes of the request, and whether the caller's
-- context ends in the wait that follows.
pub record Attempt (A : Type 0) : Type 0 where
  pub given : A
  pub delivery : Delivery
  pub expires : Bool

-- `handle` is the server's handler: the status of its answer, and its state.
module _ {A S : Type 0} (handle : A → S → ℕ × S) where
  unfoldable pub reply : ℕ → Outcome
  reply status = if ltb status 400 then done else http_error status false

  unfoldable pub deliver : Delivery → A → S → Outcome × S
  unfolding reply
  deliver (unreachable t) a s = (transport true t, s)
  deliver turned_away a s = (http_error 503 true, s)
  deliver answered a s = (reply (handle a s).0, (handle a s).1)
  deliver (reply_lost t) a s = (transport false t, (handle a s).1)
  deliver (dropped t) a s = (transport false t, s)

  abbrev pub do_once : Attempt A → S → Outcome × S
  do_once x s = deliver x.delivery x.given s

  -- The loop, with the waits that are left; the attempt `n` is the next.
  unfoldable pub retry : (Outcome → Bool) → (ℕ → Attempt A) → List ℕ → ℕ → S → Outcome × S
  retry retryable attempts [] n s = do_once (attempts n) s
  retry retryable attempts (wait ∷ waits) n s =
      let (o, s') = do_once (attempts n) s in
      let rest = retry retryable attempts waits (n + 1) s' in
      if is_done o || (not (retryable o) || (attempts n).expires) then (o, s') else rest

  unfoldable pub do_retry :
      (autospawn allow_non_autospawn : Bool) → (Outcome → Bool) → (ℕ → Attempt A) → S → Outcome × S
  do_retry autospawn allow_non_autospawn retryable attempts s =
      if not autospawn && not allow_non_autospawn
      then do_once (attempts 0) s
      else retry retryable attempts handoff_backoffs 0 s

  unfoldable pub do_handoff : (autospawn : Bool) → (ℕ → Attempt A) → S → Outcome × S
  do_handoff autospawn = do_retry autospawn false retryable_handoff

  unfoldable pub do_idempotent : (autospawn : Bool) → (ℕ → Attempt A) → S → Outcome × S
  do_idempotent autospawn = do_retry autospawn true retryable_idempotent

-- The server's handler of a submission, with nothing else under way: the time and the fresh id of
-- an attempt are the server's.
unfoldable pub handle_submit :
    (ℕ → Lookup) → Option PeerCreds → SubmitRequest → String × String → Db → ℕ × Db
handle_submit lookup peer req (now, fresh) db =
    let (r, db') = submit_job now fresh lookup peer (λ x. x) req db in (submit_status r, db')

-- `SubmitJob`: a request with an id of the client's may be sent again after more errors.
unfoldable pub client_submit :
    (ℕ → Lookup)
    → Option PeerCreds
    → SubmitRequest
    → (autospawn : Bool) → (ℕ → Attempt (String × String))
    → Db
    → Outcome × Db
client_submit lookup peer req autospawn attempts db =
    if str_eq req.job_id ""
    then do_handoff (handle_submit lookup peer req) autospawn attempts db
    else do_idempotent (handle_submit lookup peer req) autospawn attempts db
