-- ===== src/Bows/Runner/Defs.antt =====
-- The runner. The transport and the start of the BACnet client are parameters, with states `T` and
-- `S`, whose calls may raise. What others do while the loop runs is a list of rounds; a list that
-- comes to its end leaves the loop running.
use bacnet_sim_gateway.Common.{
  ℕ, ◌+◌, ◌-◌, String, ◌<>◌, ℤ, Bool, true, false, Option, none, some, List, [], ◌∷◌, Result, ok,
  raise,
}
use bacnet_sim_gateway.Models.{FloatOps, ConversionError}
use bacnet_sim_gateway.Services.{error_name}
use bacnet_sim_gateway.Bows.Uplink.{Reading, DeviceMessage, encode_device_message}
use bacnet_sim_gateway.Bows.Acquire.{Client, Answer, acquire}
use bacnet_sim_gateway.Bows.Reconnect.{Waited, stop_set, timed_out, wait_cancelled}

pub record BowsConfig (F : Type 0) : Type 0 where
  pub target : String
  pub device_id : String
  pub tenant : String
  pub transport_uri : String
  pub interval : F
  pub local_address : Option String

-- CancelledError, or another exception
pub data RunError : Type 0 where
  cancelled_run : RunError
  failure : String → RunError

abbrev pub Told : Type 0 → Type 0
Told T = Result RunError Unit × T

-- a cancellation of `publish` is one of the poll
pub record TransportOps (M T : Type 0) : Type 0 where
  pub start : T → Told T
  pub publish : String → M → T → Answer T Unit
  pub stop : T → Told T

-- `self.client`: None, open, or closed
pub data ClientState : Type 0 where
  no_client open_client closed_client : ClientState

-- `open_clients` counts the clients that are built and not closed
pub record Runner (S T : Type 0) : Type 0 where
  pub client : ClientState
  pub open_clients : ℕ
  pub network : S
  pub transport : T

abbrev pub Messages : Type 0 → Type 0
Messages F = List (DeviceMessage F)

-- the outcome of a poll, and the runner after it
abbrev pub Outcome : Type 0 → Type 0 → Type 0 → Type 0
Outcome S T A = Result String A × Runner S T

-- the outcome of `start` and of `stop`
abbrev pub Done : Type 0 → Type 0 → Type 0
Done S T = Result RunError Unit × Runner S T

-- `topic`
unfoldable pub topic : {F : Type 0} → BowsConfig F → String
topic config = "telemetry/" <> config.tenant <> "/" <> config.device_id

pub data RunEnd : Type 0 where
  running returned : RunEnd
  raised_run : RunError → RunEnd

-- how the loop ended, and the runner after it
abbrev pub Ending : Type 0 → Type 0 → Type 0
Ending S T = RunEnd × Runner S T

-- what happens in a round: the clock, a cancellation in the midst of the poll with what it leaves of
-- the network and the transport, and how the wait for the interval ends
pub record PollRound (S T N : Type 0) : Type 0 where
  pub now : N
  pub cancelled_at : Option (S × T)
  pub waited : Waited

module _ {S T : Type 0} where
  unfoldable pub init_runner : S → T → Runner S T
  init_runner network transport = record {
    client = no_client;
    open_clients = 0;
    network = network;
    transport = transport;
  }

  unfoldable pub close_open : ClientState → Runner S T → Runner S T
  close_open no_client r = r
  close_open open_client r = record r { client = closed_client; open_clients = r.open_clients - 1 }
  close_open closed_client r = r

  -- `self.client.close()` of a client that is there
  unfoldable pub close_client : Runner S T → Runner S T
  close_client r = close_open r.client r

module _ {F S T N : Type 0} (fl : FloatOps F) (iso : N → String) (show : ℤ → String)
    (client : Client F S) (build : S → Answer S Unit) (ops : TransportOps (Messages F) T)
    (config : BowsConfig F) where
  -- the transport's start, after the client is built: an Exception closes the client and forgets it,
  -- CancelledError is none
  unfoldable pub after_start : Told T → Runner S T → Done S T
  after_start (ok _, transport) r = (ok tt, record r { transport = transport })
  after_start (raise (failure e), transport) r =
      (raise (failure e), record (close_client r) { client = no_client; transport = transport })
  after_start (raise cancelled_run, transport) r =
      (raise cancelled_run, record r { transport = transport })

  unfoldable pub after_build : Answer S Unit → Runner S T → Done S T
  after_build (raise e, network) r = (raise (failure e), record r { network = network })
  after_build (ok _, network) r =
      after_start (ops.start r.transport)
        (record r { client = open_client; open_clients = r.open_clients + 1; network = network })

  unfoldable pub start : Runner S T → Done S T
  start r = after_build (build r.network) r

  unfoldable pub stop : Runner S T → Done S T
  stop r =
      let told = ops.stop r.transport in (told.0, record (close_client r) { transport = told.1 })

  unfoldable pub after_publish : Messages F → Answer T Unit → Runner S T → Outcome S T (Messages F)
  after_publish message (ok _, transport) r = (ok message, record r { transport = transport })
  after_publish message (raise e, transport) r = (raise e, record r { transport = transport })

  unfoldable pub publish_message :
      Result ConversionError (Messages F) → Runner S T → Outcome S T (Messages F)
  publish_message (raise e) r = (raise (error_name e), r)
  publish_message (ok message) r =
      after_publish message (ops.publish (topic config) message r.transport) r

  -- no readings, no message
  unfoldable pub after_acquire :
      N → Answer S (ℤ × List (Reading F N)) → Runner S T → Outcome S T (Messages F)
  after_acquire now (raise e, network) r = (raise e, record r { network = network })
  after_acquire now (ok (device, []), network) r = (ok [], record r { network = network })
  after_acquire now (ok (device, x ∷ readings), network) r =
      publish_message (encode_device_message fl iso config.device_id device (x ∷ readings) now)
        (record r { network = network })

  unfoldable pub poll_once : N → Runner S T → Outcome S T (Messages F)
  poll_once now r = after_acquire now (acquire client show r.network) r

  -- `stop` is set during the wait, or not until the next test
  unfoldable pub after_wait : Waited → Runner S T → (Runner S T → Ending S T) → Ending S T
  after_wait stop_set r rest = (returned, r)
  after_wait timed_out r rest = rest r
  after_wait wait_cancelled r rest = (raised_run cancelled_run, r)

  -- what the poll raises is logged, unless it is CancelledError
  unfoldable pub run_round : PollRound S T N → Runner S T → (Runner S T → Ending S T) → Ending S T
  run_round round r rest = elim round.cancelled_at [
    | none ↦ after_wait round.waited (poll_once round.now r).1 rest
    | some (network, transport) ↦
        (raised_run cancelled_run, record r { network = network; transport = transport })
  ]

  unfoldable pub poll_rounds : List (PollRound S T N) → Runner S T → Ending S T
  poll_rounds [] r = (running, r)
  poll_rounds (round ∷ rounds) r = run_round round r (λ after. poll_rounds rounds after)

  unfoldable pub end_of_stop : RunEnd → Done S T → Ending S T
  end_of_stop ending (ok _, r) = (ending, r)
  end_of_stop ending (raise e, r) = (raised_run e, r)

  -- `finally: await self.stop()`
  unfoldable pub finish : Ending S T → Ending S T
  finish (running, r) = (running, r)
  finish (returned, r) = end_of_stop returned (stop r)
  finish (raised_run e, r) = end_of_stop (raised_run e) (stop r)

  -- `stop_before` tells whether `stop` is set at the first test
  unfoldable pub run_started : Bool → List (PollRound S T N) → Done S T → Ending S T
  run_started stop_before rounds (raise e, r) = (raised_run e, r)
  run_started true rounds (ok _, r) = finish (returned, r)
  run_started false rounds (ok _, r) = finish (poll_rounds rounds r)

  unfoldable pub run_forever : Bool → List (PollRound S T N) → Runner S T → Ending S T
  run_forever stop_before rounds r = run_started stop_before rounds (start r)
