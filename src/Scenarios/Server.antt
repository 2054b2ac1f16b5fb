-- ===== src/Scenarios/Server.antt =====
-- Schedules of the server: an idle close with a late request, a cull that is given up, and a
-- forced shutdown with a handler at work.
use batchq.Shared.{◌≡◌, ◌≢◌, ◌↔◌, refl, sym, ℕ, true, false, ◌⊎◌, [], ◌∷◌, tally}
use batchq.Shared.Text.{trim_space}
use batchq.Server.Auth.{ApiRequest, bearer_token, route_health, with_auth}
use batchq.Server.Auth.Token.{Carries, with_auth_exact}
use batchq.Server.Gate.{Phase, advance, is_counted, is_inside}
use batchq.Server.Teardown.{Stage, Main, tear_down, go_on, is_forced, is_idle, check_interval}
use batchq.Server.Lifecycle.{System, Step, Reach, start, later}
use batchq.Server.Lifecycle.Released.{idle_close-released, uncommitted-up, forced_close-early}

-- A server that closes itself when it has been idle for 60 ticks of the clock.
abbrev idle_timeout : ℕ
idle_timeout = 60

-- The request that comes while the idle monitor closes the database is refused.
abbrev late : System
late = record {
  mem = record {
    in_flight = 1;
    draining = true;
    shutdown_started = true;
    last_activity = 0;
    db_open = false;
    accepting = false;
    socket = false;
  };
  stage = Stage.unlocked;
  forced = false;
  main = Main.in_defers;
  due = false;
  requests = Phase.refused ∷ [];
  now = 60;
}

late_reached : Reach idle_timeout 0 late
unfolding tear_down advance go_on is_idle is_forced
late_reached =
    later
      (later
        (later
          (later
            (later
              (later
                (later
                  (later
                    (later
                      (later (later (later start (Step.pass 60)) (Step.tick refl))
                        (Step.cull refl refl))
                      Step.tear)
                    Step.tear)
                  (Step.arrive false))
                (Step.act [] (Phase.arrived false) [] refl))
              (Step.act [] Phase.counted [] refl))
            Step.tear)
          Step.tear)
        Step.main_goes_on)
      Step.main_goes_on

idle_close-released_example :
    ((late.mem.db_open ≡ true) ⊎ (tally is_inside late.requests ≡ 0))
    × ((late.mem.socket ≡ true) ⊎ (late.mem.db_open ≡ false))
    × (late.mem.in_flight ≡ tally is_counted late.requests)
unfolding tear_down advance go_on is_forced
idle_close-released_example = idle_close-released late_reached refl

-- A request that comes between the test of the idle monitor and its call makes it give up.
abbrev given_up : System
given_up = record {
  mem = record {
    in_flight = 1;
    draining = false;
    shutdown_started = false;
    last_activity = 0;
    db_open = true;
    accepting = true;
    socket = true;
  };
  stage = Stage.unlocked;
  forced = false;
  main = Main.in_serve;
  due = false;
  requests = Phase.counted ∷ [];
  now = 60;
}

given_up_reached : Reach idle_timeout 0 given_up
unfolding tear_down advance is_idle is_forced
given_up_reached =
    later
      (later
        (later
          (later
            (later (later (later (later start (Step.pass 60)) (Step.tick refl)) (Step.arrive false))
              (Step.act [] (Phase.arrived false) [] refl))
            (Step.cull refl refl))
          Step.tear)
        Step.tear)
      Step.tear

uncommitted-up_example :
    (given_up.mem.draining ≡ false)
    × (given_up.mem.db_open ≡ true)
    × (given_up.mem.accepting ≡ true)
    × (given_up.mem.socket ≡ true)
    × ((now : ℕ) → (advance now given_up.mem Phase.counted).1 ≡ Phase.admitted)
uncommitted-up_example = uncommitted-up given_up_reached refl refl

-- A signal comes while a handler is at work.
abbrev drains : System
drains = record {
  mem = record {
    in_flight = 1;
    draining = true;
    shutdown_started = true;
    last_activity = 0;
    db_open = true;
    accepting = false;
    socket = true;
  };
  stage = Stage.waiting;
  forced = true;
  main = Main.in_serve;
  due = false;
  requests = Phase.serving ∷ [];
  now = 0;
}

drains_reached : Reach idle_timeout 0 drains
unfolding tear_down advance is_forced
drains_reached =
    later
      (later
        (later
          (later
            (later
              (later
                (later (later start (Step.arrive false))
                  (Step.act [] (Phase.arrived false) [] refl))
                (Step.act [] Phase.counted [] refl))
              (Step.act [] Phase.admitted [] refl))
            (Step.force refl))
          Step.tear)
        Step.tear)
      Step.tear

forced_close-early_example : Reach idle_timeout 0 (record drains {
  mem = record drains.mem { socket = false; db_open = false };
  main = Main.exited;
})
forced_close-early_example = forced_close-early drains_reached refl refl

interval_cases :
    (check_interval 0 60 ≡ 100)
    × (check_interval 0 4000 ≡ 1000)
    × (check_interval 0 600000 ≡ 30000)
    × (check_interval 7 600000 ≡ 7)
unfolding check_interval
interval_cases = (refl, refl, refl, refl)

-- A stranger sends the header of the server's own probes, and no token.
abbrev stranger : ApiRequest
stranger = record { path = "/api/v1/jobs"; internal_owner = "me"; authorization = "" }

with_auth_exact_example : (with_auth (λ t. t) "s3" stranger ≡ true) ↔ (
    (stranger.path ≡ route_health)
    ⊎ ((stranger.internal_owner ≢ "") ⊎ Carries "s3" stranger.authorization))
with_auth_exact_example = with_auth_exact (λ t. t) "s3" stranger (λ e. cc) (λ h. sym h)

auth_runs :
    (with_auth (λ t. t) "s3" stranger ≡ true)
    × (with_auth (λ t. t) "s3" (record stranger { internal_owner = "" }) ≡ false)
    × (bearer_token "BEARER  s3 " ≡ "s3")
unfolding with_auth bearer_token trim_space
auth_runs = (refl, refl, refl)
