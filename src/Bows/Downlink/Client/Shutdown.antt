-- ===== src/Bows/Downlink/Client/Shutdown.antt =====
-- The client of the downlink ends when it is told to, and then holds nothing.
use bacnet_sim_gateway.Common.{
  ℕ, suc, ◌+◌, ℤ, ◌<◌, ◌≤◌, Bool, true, false, none, List, [], Result, ok, raise, ◌≡◌, refl, ◌∙◌,
  arith, any, All-map, length, All,
}
use bacnet_sim_gateway.Models.{FloatOps}
use bacnet_sim_gateway.Bows.Backoff.{Random}
use bacnet_sim_gateway.Bows.Reconnect.{
  failed, timed_out, Round, Ended, still_running, returned, raised, overflow_error, Looped,
  reconnect, stops,
}
use bacnet_sim_gateway.Bows.Reconnect.Ends.{
  is_running, rounds_to_stop, reconnect_ends, Fails, reconnect_overflows, reconnect_keeps,
}
use bacnet_sim_gateway.Bows.Downlink.Defs.{WriteOutcome, WriteCall, pump}
use bacnet_sim_gateway.Bows.Downlink.Client.Defs.{
  commands_of, EgressConfig, broken, Session, Egress, init_client, ensure_executor, pump_with,
  ensure_pump, close_channel, served_of, stream_with, serve_stream, credentials, serve_opened,
  connect_and_serve, new_delays, close_app, run_forever, ClientError,
}

module _ {F S : Type 0} (fl : FloatOps F) (write : WriteCall F → S → WriteOutcome × S)
    (config : EgressConfig F) where
  channels-ensure_pump :
      (builds : Bool) (c : Egress S) → (ensure_pump builds c).1.channels_open ≡ c.channels_open
  unfolding ensure_pump ensure_executor pump_with
  channels-ensure_pump builds c = ground arith

  channels-stream_with :
      (session : Session F) (p : Bool × Egress S)
      → (stream_with fl write config session p).1.channels_open ≡ p.1.channels_open
  unfolding stream_with
  channels-stream_with session (true, c) = refl
  channels-stream_with session (false, c) = refl

  channels-serve_opened :
      (session : Session F) (r : Result ClientError (Unit {0})) (c : Egress S)
      → (serve_opened fl write config session r c).1.channels_open ≡ c.channels_open
  unfolding serve_opened serve_stream close_channel
  channels-serve_opened session (raise e) c = refl
  channels-serve_opened session (ok u) c =
      let opened : Egress S = record c { channels_open = suc c.channels_open } in
      omega (
        arith,
        channels-stream_with session (ensure_pump session.builds_client opened),
        channels-ensure_pump session.builds_client opened,
      )

  -- a session opens a channel only to close it
  channels-connect_and_serve :
      (session : Session F) (c : Egress S)
      → (connect_and_serve fl write config session c).1.channels_open ≡ c.channels_open
  unfolding connect_and_serve
  channels-connect_and_serve session c =
      ground (arith, channels-serve_opened session (credentials fl write config session) c)

  -- a session with an endpoint that cannot be reached fails
  stream_with_broken :
      (session : Session F) (p : Bool × Egress S)
      → session.messages ≡ []
      → session.ending ≡ broken
      → (stream_with fl write config session p).0 ≡ failed
  unfolding stream_with pump commands_of served_of
  stream_with_broken session (false, c) none_came end = refl
  stream_with_broken session (true, c) none_came end = rw (none_came, end)

  serve_opened_broken :
      (session : Session F) (r : Result ClientError (Unit {0})) (c : Egress S)
      → session.messages ≡ []
      → session.ending ≡ broken
      → (serve_opened fl write config session r c).0 ≡ failed
  unfolding serve_opened serve_stream close_channel
  serve_opened_broken session (raise e) c none_came end = refl
  serve_opened_broken session (ok u) c none_came end = stream_with_broken session _ none_came end

  connect_and_serve_broken :
      (session : Session F) (c : Egress S)
      → session.messages ≡ []
      → session.ending ≡ broken
      → (connect_and_serve fl write config session c).0 ≡ failed
  unfolding connect_and_serve
  connect_and_serve_broken session c none_came end =
      let opened =
        serve_opened_broken session (credentials fl write config session) c none_came end in
      ground arith

-- the endpoint of the round cannot be reached, `stop` is not set, and the wait lasts as long as the delay
abbrev pub IsUnreachable : {F : Type 0} → Round (Session F) → Type 0
IsUnreachable round =
    (round.session.messages ≡ [])
    × (round.session.ending ≡ broken)
    × (round.stop_after ≡ false)
    × (round.waited ≡ timed_out)

module _ {F R S : Type 0} (fl : FloatOps F) (rand : Random F R)
    (write : WriteCall F → S → WriteOutcome × S) (config : EgressConfig F) (jitter : F) where
  close_app_lem :
      (l : Looped F (Egress S)) (ended : Ended)
      → l.ended ≡ ended
      → is_running ended ≡ false
      → ((close_app l).client.app_open ≡ false)
        × ((close_app l).sessions ≡ l.sessions)
        × ((close_app l).ended ≡ ended)
        × ((close_app l).client.channels_open ≡ l.client.channels_open)
  unfolding close_app
  close_app_lem l still_running e over = absurd (ground arith)
  close_app_lem l returned e over = rw (e, close_app) (refl, refl, e, refl)
  close_app_lem l (raised x) e over = rw (e, close_app) (refl, refl, e, refl)

  -- However the sessions and the waits go, a new client in one of whose rounds `stop` is set ends, with no
  -- more sessions than there are rounds up to that one, and then the BACnet client that it built is closed,
  -- and every channel.
  pub run_forever_ends :
      (stopped : Bool) (given : Bool) (rounds : List (Round (Session F))) (rng : R) (network : S)
      → any stops rounds ≡ true
      → let l =
          run_forever fl rand write config jitter stopped rounds rng (init_client given network) in
        (is_running l.ended ≡ false)
        × (l.sessions ≤ rounds_to_stop rounds)
        × (l.client.app_open ≡ false)
        × (l.client.channels_open ≡ 0)
  unfolding run_forever init_client
  run_forever_ends true given rounds rng network h = (refl, omega arith, refl, refl)
  run_forever_ends false given rounds rng network h =
      let delays = new_delays fl write config jitter in
      let serve = connect_and_serve fl write config in
      let start : Egress S = init_client given network in
      let over = reconnect_ends fl rand delays serve rounds delays rng start h in
      let shut =
        reconnect_keeps fl rand delays serve (λ (c : Egress S). c.channels_open ≡ 0)
          (λ session c e. channels-connect_and_serve fl write config session c ∙ e) rounds delays
          rng start refl in
      let closed =
        close_app_lem (reconnect fl rand delays serve rounds delays rng start) _ refl over.0 in
      (rw closed.2 over.0, rw closed.1 over.1, closed.0, closed.3 ∙ shut)

  -- The delays have no end only as long as the powers do not overflow: when the power of an attempt
  -- raises OverflowError, as `2.0 ** 1024` does, an endpoint that stays out of reach for that many attempts
  -- ends the client with that error, although `stop` is not set.
  pub run_forever_overflows :
      (rounds : List (Round (Session F))) (rng : R) (client : Egress S) (n : ℕ)
      → All IsUnreachable rounds
      → n < length rounds
      → rand.power (fl.of_int (ℤ.pos 2)) n ≡ none
      → (run_forever fl rand write config jitter false rounds rng client).ended
        ≡ raised overflow_error
  unfolding run_forever new_delays
  run_forever_overflows rounds rng client n unreachable short over =
      let delays = new_delays fl write config jitter in
      let serve = connect_and_serve fl write config in
      let here : n + 0 ≡ n = omega arith in
      let ended =
        reconnect_overflows fl rand delays serve rounds delays rng client n
          (All-map IsUnreachable (Fails serve) rounds
            (λ round u.
              (λ c. connect_and_serve_broken fl write config round.session c u.0 u.1, u.2, u.3))
            unreachable)
          short (rw here over) in
      (close_app_lem (reconnect fl rand delays serve rounds delays rng client) _ ended refl).2
