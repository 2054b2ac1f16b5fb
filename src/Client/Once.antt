-- ===== src/Client/Once.antt =====
-- A request takes effect at most once, however often it is sent (client/client.go).
use batchq.Shared.{
  ◌≡◌, refl, ◌∙◌, ℕ, ◌+◌, ◌⊎◌, inl, inr, Bool, true, false, not, ◌&&◌, ◌||◌, Option, List, [], ◌∷◌,
  String, str_eq, arith, Bool-cases,
}
use batchq.Store.Db.{Db}
use batchq.Store.Wf.{Wf}
use batchq.Service.Submission.{SubmitRequest, PeerCreds, Lookup, chosen_id}
use batchq.Service.Submission.Laws.{submit_job-step}
use batchq.Client.{
  Outcome, is_done, retryable_handoff, retryable_idempotent, Delivery, Attempt, handoff_backoffs,
  deliver, do_once, retry, do_retry, do_handoff, do_idempotent, handle_submit, client_submit,
}

module _ {A S : Type 0} (handle : A → S → ℕ × S) where
  -- The state is as before, or as one run of the handler leaves it.
  abbrev pub Once : S → S → Type 0
  Once s s' = (s' ≡ s) ⊎ ((a : A) × (s' ≡ (handle a s).1))

  deliver-Once : (d : Delivery) (a : A) (s : S) → Once s (deliver handle d a s).1
  unfolding deliver
  deliver-Once (Delivery.unreachable t) a s = inl refl
  deliver-Once Delivery.turned_away a s = inl refl
  deliver-Once Delivery.answered a s = inr (a, refl)
  deliver-Once (Delivery.reply_lost t) a s = inr (a, refl)
  deliver-Once (Delivery.dropped t) a s = inl refl

  -- An outcome that is taken for a handoff comes of a send that did no work.
  handoff-idle :
      (d : Delivery) (a : A) (s : S)
      → retryable_handoff (deliver handle d a s).0 ≡ true
      → (deliver handle d a s).1 ≡ s
  unfolding deliver retryable_handoff
  handoff-idle (Delivery.unreachable t) a s h = refl
  handoff-idle Delivery.turned_away a s h = refl
  handoff-idle Delivery.answered a s h = ground arith
  handoff-idle (Delivery.reply_lost t) a s h = cc
  handoff-idle (Delivery.dropped t) a s h = cc

  -- No run of the handler changes the state.
  abbrev pub IsStable : S → Type 0
  IsStable s = (a : A) → (handle a s).1 ≡ s

  deliver-IsStable : (d : Delivery) (a : A) (s : S) → IsStable s → (deliver handle d a s).1 ≡ s
  deliver-IsStable d a s stable = elim (deliver-Once d a s) [
    | inl e ↦ e
    | inr (b, e) ↦ e ∙ stable b
  ]

  module _ (attempts : ℕ → Attempt A) (retryable : Outcome → Bool) where
    -- The loop ends with that attempt.
    abbrev stops : ℕ → S → Bool
    stops n s =
        is_done (do_once handle (attempts n) s).0
        || (not (retryable (do_once handle (attempts n) s).0) || (attempts n).expires)

    module _ (wait : ℕ) (waits : List ℕ) (n : ℕ) (s : S) where
      retry-stop :
          stops n s ≡ true
          → retry handle retryable attempts (wait ∷ waits) n s ≡ do_once handle (attempts n) s
      unfolding retry
      retry-stop e = rw e refl

      retry-next :
          stops n s ≡ false
          → retry handle retryable attempts (wait ∷ waits) n s
            ≡ retry handle retryable attempts waits (n + 1) (do_once handle (attempts n) s).1
      unfolding retry
      retry-next e = rw e refl

    retry-IsStable :
        (waits : List ℕ) (n : ℕ) (s : S)
        → IsStable s
        → (retry handle retryable attempts waits n s).1 ≡ s
    unfolding retry
    retry-IsStable [] n s stable = deliver-IsStable _ _ s stable
    retry-IsStable (wait ∷ waits) n s stable =
        let same = deliver-IsStable (attempts n).delivery (attempts n).given s stable in
        elim (Bool-cases (stops n s)) [
          | inl e ↦ rw (retry-stop wait waits n s e) same
          | inr e ↦
              rw (retry-next wait waits n s e) (rw same (retry-IsStable waits (n + 1) s stable))
        ]

    module _ (s : S)
        (again : (d : Delivery) (a : A)
          → retryable (deliver handle d a s).0 ≡ true
          → ((deliver handle d a s).1 ≡ s) ⊎ IsStable (deliver handle d a s).1) where
      -- Where a send that is tried again has done nothing, or leaves a state that no other run of
      -- the handler changes, the handler takes effect at most once.
      retry-Once : (waits : List ℕ) (n : ℕ) → Once s (retry handle retryable attempts waits n s).1
      unfolding retry
      retry-Once [] n = deliver-Once _ _ s
      retry-Once (wait ∷ waits) n =
          let once = deliver-Once (attempts n).delivery (attempts n).given s in
          elim (Bool-cases (stops n s)) [
            | inl e ↦ rw (retry-stop wait waits n s e) once
            | inr e ↦ elim (again (attempts n).delivery (attempts n).given (ground (arith, e))) [
              | inl idle ↦ rw (retry-next wait waits n s e) (rw idle (retry-Once waits (n + 1)))
              | inr stable ↦
                  rw
                    (
                      retry-next wait waits n s e,
                      retry-IsStable waits (n + 1) (do_once handle (attempts n) s).1 stable,
                    )
                    once
            ]
          ]

  do_retry-Once :
      (autospawn allow : Bool) (retryable : Outcome → Bool) (attempts : ℕ → Attempt A) (s : S)
      → ((d : Delivery) (a : A)
          → retryable (deliver handle d a s).0 ≡ true
          → ((deliver handle d a s).1 ≡ s) ⊎ IsStable (deliver handle d a s).1)
      → Once s (do_retry handle autospawn allow retryable attempts s).1
  unfolding do_retry
  do_retry-Once autospawn allow retryable attempts s again =
      elim (Bool-cases (not autospawn && not allow)) [
        | inl e ↦ rw (e, do_retry) (deliver-Once (attempts 0).delivery (attempts 0).given s)
        | inr e ↦ rw (e, do_retry) (retry-Once attempts retryable s again handoff_backoffs 0)
      ]

  -- A send does nothing, or what the handler does.
  deliver_settles :
      (d : Delivery) (a : A) (s : S)
      → ((handle a s).1 ≡ s) ⊎ IsStable (handle a s).1
      → ((deliver handle d a s).1 ≡ s) ⊎ IsStable (deliver handle d a s).1
  unfolding deliver
  deliver_settles (Delivery.unreachable t) a s h = inl refl
  deliver_settles Delivery.turned_away a s h = inl refl
  deliver_settles Delivery.answered a s h = h
  deliver_settles (Delivery.reply_lost t) a s h = h
  deliver_settles (Delivery.dropped t) a s h = inl refl

module _ (lookup : ℕ → Lookup) (peer : Option PeerCreds) (req : SubmitRequest) where
  abbrev pub submission : String × String → Db → ℕ × Db
  submission = handle_submit lookup peer req

  -- With an id of the client's a second submission of the request changes nothing.
  submission-IsStable :
      (a : String × String) (db : Db)
      → Wf db
      → str_eq req.job_id "" ≡ false
      → ((submission a db).1 ≡ db) ⊎ IsStable submission (submission a db).1
  unfolding handle_submit chosen_id
  submission-IsStable (now, fresh) db w keyed =
      let (w', step) = submit_job-step now fresh lookup peer req db w in
      elim step [
        | inl e ↦ inl e
        | inr (free, there) ↦ inr (λ b. elim (submit_job-step b.0 b.1 lookup peer req _ w').1 [
          | inl e ↦ e
          | inr (free', there') ↦ absurd (ground (arith, keyed, there, free'))
        ])
      ]

  -- However the sends of `SubmitJob` fare, at most one of them takes effect: from a well-formed
  -- store, with no other client under way, the tables are at the end as they were, or as one
  -- submission of the request leaves them. That holds with an id of the client's, where also
  -- timeouts and errors of the server are tried again, and without one.
  pub client_submit-once :
      (autospawn : Bool) (attempts : ℕ → Attempt (String × String)) (db : Db)
      → Wf db
      → ((client_submit lookup peer req autospawn attempts db).1 ≡ db)
        ⊎ ((a : String × String) × ((client_submit lookup peer req autospawn attempts db).1
              ≡ (submission a db).1))
  unfolding client_submit do_handoff do_idempotent do_retry
  client_submit-once autospawn attempts db w = elim (Bool-cases (str_eq req.job_id "")) [
    | inl keyless ↦
        rw (keyless, client_submit)
          (do_retry-Once submission autospawn false retryable_handoff attempts db
            (λ d a h. inl (handoff-idle submission d a db h)))
    | inr keyed ↦
        rw (keyed, client_submit)
          (do_retry-Once submission autospawn true retryable_idempotent attempts db
            (λ d a h. deliver_settles submission d a db (submission-IsStable a db w keyed)))
  ]
