-- ===== src/Job/Lifecycle.antt =====
-- The life of a job: which state may follow which. It is a specification, stated apart from the code
-- and knowing nothing of tables. It agrees with the comments on `StatusCode` in jobs/jobdef.go on the
-- end states, and allows more than they tell of RUNNING: the hand-over to another scheduler.
use batchq.Shared.{◌≡◌, refl, Bool, true, false, ◌&&◌, ◌||◌, Option, none, some, arith}
use batchq.Job.Status.{
  StatusCode, unknown, userhold, waiting, queued, proxyqueued, running, canceled, success, failed,
  is, is_live,
}

-- A job is submitted on hold, behind its parents, or ready.
unfoldable pub may_start : StatusCode → Bool
unfolding is
may_start s = is s userhold || (is s waiting || is s queued)

unfoldable pub is_end : StatusCode → Bool
unfolding is
is_end s = is s canceled || (is s success || is s failed)

-- The moves: a hold, a release, the end of the dependencies, a claim, the hand-over to another
-- scheduler, and the ends. A job in the state UNKNOWN, in which none is stored, would count as waiting.
unfoldable pub may_step : StatusCode → StatusCode → Bool
unfolding is may_start is_end is_live
may_step s t =
    (may_start s && is t userhold)
    || ((is s userhold && is t waiting)
        || (((is s waiting || is s unknown) && is t queued)
            || ((is s queued && is t running)
                || ((is s running && is t proxyqueued)
                    || (((is s running || is s proxyqueued) && is_end t)
                        || (is_live s && is t canceled))))))

-- The states that a job comes to from one at hand, or from none by its submission.
pub data Reaches (from : Option StatusCode) : Option StatusCode → Type 0 where
  here : Reaches from from
  started : (t : StatusCode) → Reaches from none → may_start t ≡ true → Reaches from (some t)
  stepped : (s t : StatusCode) → Reaches from (some s) → may_step s t ≡ true → Reaches from (some t)

pub Reaches-trans : {a b c : Option StatusCode} → Reaches a b → Reaches b c → Reaches a c
Reaches-trans r here = r
Reaches-trans r (started t q h) = started t (Reaches-trans r q) h
Reaches-trans r (stepped s t q h) = stepped s t (Reaches-trans r q) h

-- A job is never lost on the way.
Reaches-some : {a b : Option StatusCode} (s : StatusCode) → Reaches a b → a ≡ some s → b ≡ none → ⊥
Reaches-some s here e h = cc
Reaches-some s (started t q g) e h = cc
Reaches-some s (stepped s' t q g) e h = cc

-- From an end there is no way on.
pub Reaches-end :
    {a b : Option StatusCode} (s : StatusCode)
    → is_live s ≡ false
    → Reaches a b
    → a ≡ some s
    → b ≡ some s
unfolding may_step is_live
Reaches-end s dead here e = e
Reaches-end s dead (started t q g) e = absurd (Reaches-some s q e refl)
Reaches-end s dead (stepped s' t q g) e =
    let same : some s' ≡ some s = Reaches-end s dead q e in ground arith
