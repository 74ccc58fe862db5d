-- ===== src/Bows/Reconnect/Defs.antt =====
-- The loop of `run_forever` of client.py of src/bbc_sim/bows/downlink and of src/bbc_sim/bows/uplink.
-- What others do is a list of rounds: what the session of a round meets, of type `E`, whether `stop`
-- is set when the session is over, and how the wait for the delay ends. A list that comes to its end
-- leaves the loop running.
use bacnet_sim_gateway.Common.{ℕ, suc, Bool, true, false, ◌||◌, List, [], ◌∷◌, Result, ok, raise}
use bacnet_sim_gateway.Models.{FloatOps}
use bacnet_sim_gateway.Bows.Backoff.{Random, Backoff, DelayError, next_delay}

-- how a session ends: by itself, by an exception, or by CancelledError
pub data Served : Type 0 where
  finished failed cancelled : Served

pub data Waited : Type 0 where
  stop_set timed_out wait_cancelled : Waited

pub record Round (E : Type 0) : Type 0 where
  pub session : E
  pub stop_after : Bool
  pub waited : Waited

pub data LoopError : Type 0 where
  cancelled_error : LoopError
  overflow_error : LoopError

pub data Ended : Type 0 where
  still_running : Ended
  returned : Ended
  raised : LoopError → Ended

-- how the loop ended, the client after it, the sessions that were begun and the delays
pub record Looped (F C : Type 0) : Type 0 where
  pub ended : Ended
  pub client : C
  pub sessions : ℕ
  pub delays : List F

module _ {F C : Type 0} where
  unfoldable pub ends : Ended → C → Looped F C
  ends ended client = record { ended = ended; client = client; sessions = 1; delays = [] }

  unfoldable pub add_round : F → Looped F C → Looped F C
  add_round delay rest = record rest { sessions = suc rest.sessions; delays = delay ∷ rest.delays }

module _ {F R E C : Type 0} (fl : FloatOps F) (rand : Random F R) (defaults : Backoff F)
    (serve : E → C → Served × C) where
  abbrev pub Rest : Type 0
  Rest = Backoff F → R → C → Looped F C

  -- `await asyncio.wait_for(stop.wait(), timeout=delay)`, and the test of the loop
  unfoldable pub after_wait : F → Waited → Backoff F → R → C → Rest → Looped F C
  after_wait delay stop_set delays rng client rest =
      add_round delay (record { ended = returned; client = client; sessions = 0; delays = [] })
  after_wait delay timed_out delays rng client rest = add_round delay (rest delays rng client)
  after_wait delay wait_cancelled delays rng client rest =
      add_round delay
        (record { ended = raised cancelled_error; client = client; sessions = 0; delays = [] })

  -- by `next(delays)`
  unfoldable pub after_delay :
      Waited → Result DelayError F × (Backoff F × R) → C → Rest → Looped F C
  after_delay waited (raise e, (delays, rng)) client rest = ends (raised overflow_error) client
  after_delay waited (ok delay, (delays, rng)) client rest =
      after_wait delay waited delays rng client rest

  -- `if stop.is_set(): break`
  unfoldable pub after_session : Bool → Waited → Backoff F → R → C → Rest → Looped F C
  after_session true waited delays rng client rest = ends returned client
  after_session false waited delays rng client rest =
      after_delay waited (next_delay fl rand delays rng) client rest

  -- a session that ends by itself starts the delays anew
  unfoldable pub after_serve : Bool → Waited → Backoff F → R → Served × C → Rest → Looped F C
  after_serve stop waited delays rng (finished, client) rest =
      after_session stop waited defaults rng client rest
  after_serve stop waited delays rng (failed, client) rest =
      after_session stop waited delays rng client rest
  after_serve stop waited delays rng (cancelled, client) rest = ends (raised cancelled_error) client

  unfoldable pub reconnect : List (Round E) → Backoff F → R → C → Looped F C
  reconnect [] delays rng client = record {
    ended = still_running;
    client = client;
    sessions = 0;
    delays = [];
  }
  reconnect (round ∷ rounds) delays rng client =
      after_serve round.stop_after round.waited delays rng (serve round.session client)
        (λ later rng' client'. reconnect rounds later rng' client')

abbrev pub is_stop_set : Waited → Bool
is_stop_set stop_set = true
is_stop_set timed_out = false
is_stop_set wait_cancelled = false

-- is `stop` set in the round?
abbrev pub stops : {E : Type 0} → Round E → Bool
stops round = round.stop_after || is_stop_set round.waited
