-- ===== src/Runtime/Lifecycle/Defs.antt =====
-- `Runtime`. What it owns is a record of what runs: the tasks, the sockets and the handler are flags.
-- `Outside` is what the transports do when they are started and stopped, an exception being its text;
-- the application and the server of the control plane start and stop without one.
use bacnet_sim_gateway.Common.{
  String, ℤ, Bool, true, false, ◌&&◌, Option, none, some, List, any, is_some, Result, ok, raise,
  ◌>>=◌, if◌then◌else◌,
}
use bacnet_sim_gateway.Common.Text.{is_blank}
use bacnet_sim_gateway.Models.{RuntimeMode, simulator, gateway, combined, FloatOps, SimulatorConfig}
use bacnet_sim_gateway.Simulation.Generators.{Randomness, GeneratorError}
use bacnet_sim_gateway.Simulation.Engine.{Driven, build_generators, has_generators}
use bacnet_sim_gateway.Southbound.{Manager, new_manager, start}
use bacnet_sim_gateway.Southbound.Transport.Factory.{TransportSpec, ParsedUri, make_transport}

pub record RunOptions : Type 0 where
  pub transport_uri : Option String
  pub rest_port : Option ℤ

pub record Outside : Type 0 where
  pub urlparse : String → ParsedUri
  pub start_transport : TransportSpec → Result String (Unit {0})
  pub stop_transport : TransportSpec → Result String (Unit {0})

pub record RuntimeState (F R : Type 0) : Type 0 where
  pub config : SimulatorConfig F
  pub options : RunOptions
  pub engine : Option (List (Driven F R))
  pub engine_running : Bool
  pub manager : Option (TransportSpec × Manager F)
  pub transport_started : Bool
  pub rest_running : Bool
  pub app_open : Bool
  pub log_handler : Bool

-- does the mode generate values, and does it bind objects?
unfoldable pub is_simulating : RuntimeMode → Bool
is_simulating simulator = true
is_simulating gateway = false
is_simulating combined = true

unfoldable pub is_gateway : RuntimeMode → Bool
is_gateway simulator = false
is_gateway gateway = true
is_gateway combined = true

module _ {F : Type 0} where
  unfoldable pub needs_southbound : SimulatorConfig F → Bool
  needs_southbound config = is_gateway config.mode && any (λ o. is_some o.binding) config.objects

unfoldable pub uri_or_none : Option String → Option String
uri_or_none none = none
uri_or_none (some uri) = if is_blank uri then none else some uri

module _ {F R : Type 0} (fl : FloatOps F) (rand : Randomness F R) where
  -- an engine without generators is dropped
  unfoldable pub engine_of :
      Result GeneratorError (Unit {0}) × List (Driven F R)
      → Result GeneratorError (Option (List (Driven F R)))
  engine_of (raise e, generators) = raise e
  engine_of (ok _, generators) =
      ok (if has_generators fl rand generators then some generators else none)

  unfoldable pub init_runtime :
      SimulatorConfig F → RunOptions → Result GeneratorError (RuntimeState F R)
  init_runtime config options = do
    engine ←
        if is_simulating config.mode
        then engine_of (build_generators fl rand config.objects)
        else ok none
    ok (record {
      config = config;
      options = options;
      engine = engine;
      engine_running = false;
      manager = none;
      transport_started = false;
      rest_running = false;
      app_open = true;
      log_handler = true;
    })

  -- an exception leaves what was started before it
  abbrev pub Ran : Type 0
  Ran = Result String (Unit {0}) × RuntimeState F R

  unfoldable pub start_engine : RuntimeState F R → RuntimeState F R
  start_engine rt = record rt { engine_running = is_some rt.engine }

  -- the manager is there before its transport starts
  unfoldable pub start_manager : TransportSpec → Result String (Unit {0}) → RuntimeState F R → Ran
  start_manager spec (raise text) rt =
      (raise text, record rt { manager = some (spec, new_manager) })
  start_manager spec (ok _) rt =
      (ok tt, record rt { manager = some (spec, (start fl rt.config).0); transport_started = true })

  unfoldable pub open_transport : Outside → Result String TransportSpec → RuntimeState F R → Ran
  open_transport out (raise text) rt = (raise text, rt)
  open_transport out (ok spec) rt = start_manager spec (out.start_transport spec) rt

  unfoldable pub start_bound : Outside → Option String → RuntimeState F R → Ran
  start_bound out none rt = (ok tt, rt)
  start_bound out (some uri) rt = open_transport out (make_transport out.urlparse uri) rt

  unfoldable pub start_southbound : Outside → Bool → RuntimeState F R → Ran
  start_southbound out true rt = start_bound out (uri_or_none rt.options.transport_uri) rt
  start_southbound out false rt = (ok tt, rt)

  unfoldable pub start_rest : Ran → Ran
  start_rest (raise text, rt) = (raise text, rt)
  start_rest (ok _, rt) = (ok tt, record rt { rest_running = is_some rt.options.rest_port })

  unfoldable pub start_runtime : Outside → RuntimeState F R → Ran
  start_runtime out rt =
      start_rest (start_southbound out (needs_southbound rt.config) (start_engine rt))

  unfoldable pub stop_rest : Ran → Ran
  stop_rest (raise text, rt) = (raise text, rt)
  stop_rest (ok _, rt) =
      (ok tt, record rt { rest_running = false; app_open = false; log_handler = false })

  unfoldable pub after_stop : Result String (Unit {0}) → RuntimeState F R → Ran
  after_stop (raise text) rt = (raise text, rt)
  after_stop (ok _) rt = (ok tt, record rt { transport_started = false })

  unfoldable pub stop_manager :
      Outside → Option (TransportSpec × Manager F) → RuntimeState F R → Ran
  stop_manager out none rt = (ok tt, rt)
  stop_manager out (some (spec, m)) rt = after_stop (out.stop_transport spec) rt

  unfoldable pub stop_runtime : Outside → RuntimeState F R → Ran
  stop_runtime out rt =
      stop_rest (stop_manager out rt.manager (record rt { engine_running = false }))

  -- `start` is outside of the `try` whose `finally` stops the runtime
  unfoldable pub run_started : Outside → Ran → Ran
  run_started out (raise text, rt) = (raise text, rt)
  run_started out (ok _, rt) = stop_runtime out rt

  -- a run in which `stop` is set after the start
  unfoldable pub run_forever : Outside → RuntimeState F R → Ran
  run_forever out rt = run_started out (start_runtime out rt)
