-- ===== src/Bows/Runner/Shutdown.antt =====
-- How the loop of the runner ends.
use bacnet_sim_gateway.Common.{
  String, ℤ, Bool, true, false, ◌||◌, Option, none, some, List, [], ◌∷◌, is_some, any, Result, ok,
  raise, ◌≡◌, refl, ap, arith, ◌⊎◌, inl, inr,
}
use bacnet_sim_gateway.Models.{FloatOps, ConversionError}
use bacnet_sim_gateway.Bows.Uplink.{Reading}
use bacnet_sim_gateway.Bows.Acquire.{Client, Answer}
use bacnet_sim_gateway.Bows.Reconnect.{Waited, stop_set, timed_out, wait_cancelled}
use bacnet_sim_gateway.Bows.Runner.Defs.{
  BowsConfig, Told, TransportOps, no_client, open_client, closed_client, Runner, Messages, RunEnd,
  running, returned, raised_run, PollRound, init_runner, close_open, close_client, Done,
  cancelled_run, failure, after_start, after_build, start, stop, after_publish, publish_message,
  after_acquire, poll_once, Ending, after_wait, run_round, poll_rounds, end_of_stop, finish,
  run_started, run_forever,
}

abbrev pub is_running : RunEnd → Bool
is_running running = true
is_running returned = false
is_running (raised_run e) = false

abbrev ends_wait : Waited → Bool
ends_wait stop_set = true
ends_wait timed_out = false
ends_wait wait_cancelled = true

-- is `stop` set, or the task cancelled, in the round?
abbrev pub is_over : {S T N : Type 0} → PollRound S T N → Bool
is_over round = is_some round.cancelled_at || ends_wait round.waited

module _ {F S T N : Type 0} (fl : FloatOps F) (iso : N → String) (show : ℤ → String)
    (client : Client F S) (build : S → Answer S Unit) (ops : TransportOps (Messages F) T)
    (config : BowsConfig F) where
  -- No client is left open: there is none, or it is closed and the transport was stopped.
  abbrev pub IsShut : Runner S T → Type 0
  IsShut r =
      (r.open_clients ≡ 0)
      × ((r.client ≡ no_client)
          ⊎ ((r.client ≡ closed_client) × (t : T) × (r.transport ≡ (ops.stop t).1)))

  -- the one client that was built is open
  abbrev IsOpen : Runner S T → Type 0
  IsOpen r = (r.client ≡ open_client) × (r.open_clients ≡ 1)

  after_publish-IsOpen :
      (message : Messages F) (answer : Answer T Unit) (r : Runner S T)
      → IsOpen r
      → IsOpen (after_publish fl iso show client build ops config message answer r).1
  unfolding after_publish
  after_publish-IsOpen message (ok _, t) r h = h
  after_publish-IsOpen message (raise e, t) r h = h

  publish_message-IsOpen :
      (message : Result ConversionError (Messages F)) (r : Runner S T)
      → IsOpen r
      → IsOpen (publish_message fl iso show client build ops config message r).1
  unfolding publish_message
  publish_message-IsOpen (raise e) r h = h
  publish_message-IsOpen (ok message) r h = after_publish-IsOpen message _ r h

  after_acquire-IsOpen :
      (now : N) (answer : Answer S (ℤ × List (Reading F N))) (r : Runner S T)
      → IsOpen r
      → IsOpen (after_acquire fl iso show client build ops config now answer r).1
  unfolding after_acquire
  after_acquire-IsOpen now (raise e, s) r h = h
  after_acquire-IsOpen now (ok (device, []), s) r h = h
  after_acquire-IsOpen now (ok (device, x ∷ readings), s) r h =
      publish_message-IsOpen _ (record r { network = s }) h

  poll_once-IsOpen :
      (now : N) (r : Runner S T)
      → IsOpen r
      → IsOpen (poll_once fl iso show client build ops config now r).1
  unfolding poll_once
  poll_once-IsOpen now r h = after_acquire-IsOpen now _ r h

  -- a loop that one of its rounds ends is over, with the client still open
  abbrev EndsOpen : Bool → Ending S T → Type 0
  EndsOpen over e = IsOpen e.1 × (over ≡ true → is_running e.0 ≡ false)

  after_wait-EndsOpen :
      (waited : Waited) (r : Runner S T) (rest : Runner S T → Ending S T) (over : Bool)
      → IsOpen r
      → EndsOpen over (rest r)
      → EndsOpen
          (ends_wait waited || over)
          (after_wait fl iso show client build ops config waited r rest)
  unfolding after_wait
  after_wait-EndsOpen stop_set r rest over h k = (h, λ o. refl)
  after_wait-EndsOpen timed_out r rest over h k = k
  after_wait-EndsOpen wait_cancelled r rest over h k = (h, λ o. refl)

  run_round-EndsOpen :
      (now : N) (cancelled_at : Option (S × T)) (waited : Waited) (r : Runner S T)
      (rest : Runner S T → Ending S T) (over : Bool)
      → IsOpen r
      → ((after : Runner S T) → IsOpen after → EndsOpen over (rest after))
      → EndsOpen ((is_some cancelled_at || ends_wait waited) || over) (
          run_round fl iso show client build ops config
            (record { now = now; cancelled_at = cancelled_at; waited = waited })
            r
            rest)
  unfolding run_round
  run_round-EndsOpen now none waited r rest over h k =
      let kept = poll_once-IsOpen now r h in after_wait-EndsOpen waited _ rest over kept (k _ kept)
  run_round-EndsOpen now (some (s, t)) waited r rest over h k = (h, λ o. refl)

  poll_rounds-EndsOpen :
      (rounds : List (PollRound S T N)) (r : Runner S T)
      → IsOpen r
      → EndsOpen (any is_over rounds) (poll_rounds fl iso show client build ops config rounds r)
  unfolding poll_rounds
  poll_rounds-EndsOpen [] r h = (h, λ o. absurd (ground arith))
  poll_rounds-EndsOpen (round ∷ rounds) r h =
      run_round-EndsOpen round.now round.cancelled_at round.waited r _ (any is_over rounds) h
        (λ after kept. poll_rounds-EndsOpen rounds after kept)

  -- the start was cancelled, which leaves the client open
  abbrev pub IsLeftOpen : T → Ending S T → Type 0
  IsLeftOpen t e =
      ((ops.start t).0 ≡ raise cancelled_run)
      × (e.0 ≡ raised_run cancelled_run)
      × (e.1.open_clients ≡ 1)

  -- how a run ends in which the transport started from `t`
  abbrev pub EndsShut : T → Ending S T → Type 0
  EndsShut t e = (is_running e.0 ≡ false) × (IsShut e.1 ⊎ IsLeftOpen t e)

  end_of_stop-EndsShut :
      (t : T) (ending : RunEnd) (told : Done S T)
      → is_running ending ≡ false
      → IsShut told.1
      → EndsShut t (end_of_stop fl iso show client build ops config ending told)
  unfolding end_of_stop
  end_of_stop-EndsShut t ending (ok _, r) over shut = (over, inl shut)
  end_of_stop-EndsShut t ending (raise e, r) over shut = (refl, inl shut)

  stop-IsShut : (r : Runner S T) → IsOpen r → IsShut (stop fl iso show client build ops config r).1
  unfolding stop close_client close_open
  stop-IsShut r h = rw (h.0, h.1) (refl, inr (refl, r.transport, refl))

  finish-EndsShut :
      (t : T) (e : Ending S T)
      → is_running e.0 ≡ false
      → IsOpen e.1
      → EndsShut t (finish fl iso show client build ops config e)
  unfolding finish
  finish-EndsShut t (running, r) over h = absurd (ground arith)
  finish-EndsShut t (returned, r) over h = end_of_stop-EndsShut t returned _ refl (stop-IsShut r h)
  finish-EndsShut t (raised_run e, r) over h =
      end_of_stop-EndsShut t (raised_run e) _ refl (stop-IsShut r h)

  -- a start that succeeds leaves the client open, one that fails leaves none, unless it was cancelled
  abbrev IsStarted : T → Done S T → Type 0
  IsStarted t (ok _, r) = IsOpen r
  IsStarted t (raise e, r) =
      ((r.open_clients ≡ 0) × (r.client ≡ no_client))
      ⊎ (((ops.start t).0 ≡ raise cancelled_run) × (e ≡ cancelled_run) × (r.open_clients ≡ 1))

  run_started-EndsShut :
      (t : T) (stop_before : Bool) (rounds : List (PollRound S T N)) (started : Done S T)
      → (stop_before || any is_over rounds) ≡ true
      → IsStarted t started
      → EndsShut t (run_started fl iso show client build ops config stop_before rounds started)
  unfolding run_started
  run_started-EndsShut t stop_before rounds (raise e, r) over (inl (none_open, absent)) =
      (refl, inl (none_open, inl absent))
  run_started-EndsShut t stop_before rounds (raise e, r) over (inr (cancelled, same, one)) =
      (refl, inr (cancelled, ap raised_run same, one))
  run_started-EndsShut t true rounds (ok _, r) over opened =
      finish-EndsShut t (returned, r) refl opened
  run_started-EndsShut t false rounds (ok _, r) over opened =
      let (kept, ends) = poll_rounds-EndsOpen rounds r opened in
      finish-EndsShut t _ (ends over) kept

  after_start-IsStarted :
      (t : T) (answer : Told T) (r : Runner S T)
      → ops.start t ≡ answer
      → IsOpen r
      → IsStarted t (after_start fl iso show client build ops config answer r)
  unfolding after_start close_client close_open
  after_start-IsStarted t (ok _, u) r h opened = opened
  after_start-IsStarted t (raise (failure e), u) r h opened =
      rw (opened.0, opened.1) (inl (refl, refl))
  after_start-IsStarted t (raise cancelled_run, u) r h opened =
      inr (ap (λ a. a.0) h, refl, opened.1)

  after_build-IsStarted :
      (answer : Answer S Unit) (s : S) (t : T)
      → IsStarted t (after_build fl iso show client build ops config answer (init_runner s t))
  unfolding after_build init_runner
  after_build-IsStarted (ok _, u) s t = after_start-IsStarted t _ _ refl (refl, refl)
  after_build-IsStarted (raise e, u) s t = inl (refl, refl)

  -- A run in which `stop` is set at the start, or in some round, or whose task is cancelled, ends,
  -- whatever the polls raise. Then no client is left open: there is none, since the start failed, or
  -- it is closed and the transport was stopped. The only other case is that the start of the transport
  -- was cancelled: then the run ends in CancelledError and the client stays open.
  pub run_forever-EndsShut :
      (stop_before : Bool) (rounds : List (PollRound S T N)) (s : S) (t : T)
      → (stop_before || any is_over rounds) ≡ true
      → EndsShut t
          (run_forever fl iso show client build ops config stop_before rounds (init_runner s t))
  unfolding run_forever start init_runner
  run_forever-EndsShut stop_before rounds s t over =
      run_started-EndsShut t stop_before rounds _ over (after_build-IsStarted (build s) s t)
