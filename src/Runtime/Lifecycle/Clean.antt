-- ===== src/Runtime/Lifecycle/Clean.antt =====
-- What runs after a start, and what is left of a run.
use bacnet_sim_gateway.Common.{
  String, Bool, true, false, ◌&&◌, Option, none, some, is_some, Result, ok, raise, ◌≡◌, refl, ap,
  ◌∙◌, arith,
}
use bacnet_sim_gateway.Models.{FloatOps}
use bacnet_sim_gateway.Simulation.Generators.{Randomness}
use bacnet_sim_gateway.Southbound.{Manager}
use bacnet_sim_gateway.Southbound.Transport.Factory.{TransportSpec, make_transport}
use bacnet_sim_gateway.Runtime.Lifecycle.Defs.{
  RunOptions, Outside, RuntimeState, needs_southbound, uri_or_none, Ran, start_engine, start_bound,
  after_stop, start_manager, open_transport, start_southbound, start_rest, start_runtime, stop_rest,
  stop_manager, stop_runtime, run_started, run_forever,
}

module _ {F R : Type 0} where
  -- a runtime that was made and not started
  pub record IsNew (rt : RuntimeState F R) : Type 0 where
    pub no_manager : rt.manager ≡ none
    pub no_engine : rt.engine_running ≡ false
    pub no_transport : rt.transport_started ≡ false
    pub no_rest : rt.rest_running ≡ false

  -- nothing runs and nothing is held
  pub record IsShut (rt : RuntimeState F R) : Type 0 where
    pub engine_stopped : rt.engine_running ≡ false
    pub transport_stopped : rt.transport_started ≡ false
    pub rest_stopped : rt.rest_running ≡ false
    pub app_closed : rt.app_open ≡ false
    pub handler_removed : rt.log_handler ≡ false

  -- what runs after a start: the engine if there is one, the transport if the config needs one and the
  -- options name one, and the control plane if it has a port
  pub record IsUp (rt up : RuntimeState F R) : Type 0 where
    pub engine_up : up.engine_running ≡ is_some rt.engine
    pub transport_up :
        up.transport_started
        ≡ (needs_southbound rt.config && is_some (uri_or_none rt.options.transport_uri))
    pub rest_up : up.rest_running ≡ is_some rt.options.rest_port
    pub owned : up.transport_started ≡ is_some up.manager

  -- a start that was broken off: what it started is left
  pub record IsLeft (rt left : RuntimeState F R) : Type 0 where
    pub engine_left : left.engine_running ≡ is_some rt.engine
    pub app_left : left.app_open ≡ rt.app_open
    pub handler_left : left.log_handler ≡ rt.log_handler

module _ {F R : Type 0} (fl : FloatOps F) (rand : Randomness F R) (out : Outside) where
  -- the two ways in which a start ends
  abbrev Started : RuntimeState F R → Bool → Ran fl rand → Type 0
  Started rt bound (ok _, up) =
      (up.engine_running ≡ is_some rt.engine)
      × (up.transport_started ≡ bound)
      × (up.transport_started ≡ is_some up.manager)
      × (up.options ≡ rt.options)
  Started rt bound (raise text, left) = IsLeft rt left

  start_manager-Started :
      (spec : TransportSpec) (r : Result String (Unit {0})) (rt : RuntimeState F R)
      → Started rt true (start_manager fl rand spec r (start_engine fl rand rt))
  unfolding start_manager start_engine
  start_manager-Started spec (ok u) rt = (refl, refl, refl, refl)
  start_manager-Started spec (raise text) rt = record {
    engine_left = refl;
    app_left = refl;
    handler_left = refl;
  }

  open_transport-Started :
      (spec : Result String TransportSpec) (rt : RuntimeState F R)
      → Started rt true (open_transport fl rand out spec (start_engine fl rand rt))
  unfolding open_transport start_engine
  open_transport-Started (raise text) rt = record {
    engine_left = refl;
    app_left = refl;
    handler_left = refl;
  }
  open_transport-Started (ok spec) rt = start_manager-Started spec (out.start_transport spec) rt

  start_bound-Started :
      (uri : Option String) (rt : RuntimeState F R)
      → IsNew rt
      → Started rt (is_some uri) (start_bound fl rand out uri (start_engine fl rand rt))
  unfolding start_bound start_engine
  start_bound-Started none rt new =
      (refl, new.no_transport, new.no_transport ∙ rw new.no_manager refl, refl)
  start_bound-Started (some uri) rt new =
      open_transport-Started (make_transport out.urlparse uri) rt

  start_southbound-Started :
      (needs : Bool) (rt : RuntimeState F R)
      → IsNew rt
      → Started rt
          (needs && is_some (uri_or_none rt.options.transport_uri))
          (start_southbound fl rand out needs (start_engine fl rand rt))
  unfolding start_southbound start_engine
  start_southbound-Started true rt new =
      start_bound-Started (uri_or_none rt.options.transport_uri) rt new
  start_southbound-Started false rt new =
      (refl, new.no_transport, new.no_transport ∙ rw new.no_manager refl, refl)

  after_stop-IsShut :
      (r : Result String (Unit {0})) (rt : RuntimeState F R)
      → r ≡ ok tt
      → ((stop_rest fl rand (after_stop fl rand r (record rt { engine_running = false }))).0
          ≡ ok tt)
        × IsShut (stop_rest fl rand (after_stop fl rand r (record rt { engine_running = false }))).1
  unfolding after_stop stop_rest
  after_stop-IsShut (raise text) rt e = absurd (ground arith)
  after_stop-IsShut (ok u) rt e = (
    refl,
    record {
      engine_stopped = refl;
      transport_stopped = refl;
      rest_stopped = refl;
      app_closed = refl;
      handler_removed = refl;
    },
  )

  stop_manager-IsShut :
      (m : Option (TransportSpec × Manager F)) (rt : RuntimeState F R)
      → ((spec : TransportSpec) → out.stop_transport spec ≡ ok tt)
      → rt.transport_started ≡ is_some m
      → ((stop_rest fl rand (stop_manager fl rand out m (record rt { engine_running = false }))).0
          ≡ ok tt)
        × IsShut
            (stop_rest fl rand
              (stop_manager fl rand out m (record rt { engine_running = false }))).1
  unfolding stop_manager stop_rest
  stop_manager-IsShut none rt stops owned = (
    refl,
    record {
      engine_stopped = refl;
      transport_stopped = owned;
      rest_stopped = refl;
      app_closed = refl;
      handler_removed = refl;
    },
  )
  stop_manager-IsShut (some (spec, m)) rt stops owned =
      after_stop-IsShut (out.stop_transport spec) rt (stops spec)

  -- how a run ends: the start succeeds and brings up what it should, and then the run returns and
  -- nothing is left; or the start raises, and so does the run, and what was started is left
  abbrev pub RunEnds : RuntimeState F R → Ran fl rand → Ran fl rand → Type 0
  RunEnds rt (ok _, up) ran = IsUp rt up × (ran.0 ≡ ok tt) × IsShut ran.1
  RunEnds rt (raise text, left) ran = (ran ≡ (raise text, left)) × IsLeft rt left

  run_started-RunEnds :
      (started : Ran fl rand) (rt : RuntimeState F R)
      → ((spec : TransportSpec) → out.stop_transport spec ≡ ok tt)
      → Started rt
          (needs_southbound rt.config && is_some (uri_or_none rt.options.transport_uri))
          started
      → RunEnds rt
          (start_rest fl rand started)
          (run_started fl rand out (start_rest fl rand started))
  unfolding start_rest run_started stop_runtime
  run_started-RunEnds (raise text, left) rt stops h = (refl, h)
  run_started-RunEnds (ok u, up) rt stops h =
      let shut =
        stop_manager-IsShut up.manager (record up { rest_running = is_some up.options.rest_port })
          stops h.2 in
      (
        record {
          engine_up = h.0;
          transport_up = h.1;
          rest_up = ap (λ (o : RunOptions). is_some o.rest_port) h.3;
          owned = h.2;
        },
        shut.0,
        shut.1,
      )

  -- A start brings up the engine, the transport and the control plane that the config and the options ask
  -- for, and after the run nothing of it runs, if transports stop without an error; but a start that
  -- raises leaves the engine running, the application open and the log handler in place.
  pub run_forever-RunEnds :
      (rt : RuntimeState F R)
      → IsNew rt
      → ((spec : TransportSpec) → out.stop_transport spec ≡ ok tt)
      → RunEnds rt (start_runtime fl rand out rt) (run_forever fl rand out rt)
  unfolding run_forever start_runtime
  run_forever-RunEnds rt new stops =
      run_started-RunEnds _ rt stops (start_southbound-Started (needs_southbound rt.config) rt new)
