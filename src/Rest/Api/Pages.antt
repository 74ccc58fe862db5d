-- ===== src/Rest/Api/Pages.antt =====
-- The other endpoints of `create_app`: status, bindings, logs, the point list and the mode.
use bacnet_sim_gateway.Common.{
  ℕ, String, ◌<>◌, ℤ, Bool, true, false, Option, none, some, List, [], length, if◌then◌else◌,
}
use bacnet_sim_gateway.Models.{FloatOps, mode_text, SimulatorConfig}
use bacnet_sim_gateway.Semantic.{get_or}
use bacnet_sim_gateway.Observability.LogBuffer.{LogEntry, snapshot}
use bacnet_sim_gateway.Southbound.{SouthboundStatus, PointStatus}
use bacnet_sim_gateway.Rest.Status.{
  StatusProvider, RuntimeStatus, NorthboundStatus, runtime_status, northbound_status,
  southbound_status,
}
use bacnet_sim_gateway.Rest.Reload.{Reloader}
use bacnet_sim_gateway.Rest.Api.Defs.{Http, answer, http_exception}

pub record ModeAnswer : Type 0 where
  pub current_mode : String
  pub requested_mode : String
  pub applied : Bool
  pub restart_required : Bool
  pub hint : String

pub record ReloaderInfo (F : Type 0) : Type 0 where
  pub source_path : Option String
  pub object_count : ℕ
  pub last_reload_ts : Option F
  pub last_result : Option String

-- `_need_status` and `_need_reloader`, and what is done with what they return
unfoldable pub need : {A B : Type 0} → String → Option A → (A → B) → Http B
need what none f = http_exception 503 (what <> " not configured")
need what (some a) f = answer (f a)

module _ {F : Type 0} (fl : FloatOps F) where
  unfoldable pub get_status : (F → F) → F → Option (StatusProvider F) → Http (RuntimeStatus F)
  get_status round1 now status = need "status provider" status (runtime_status fl round1 now)

  unfoldable pub get_northbound : Option (StatusProvider F) → Http NorthboundStatus
  get_northbound status = need "status provider" status northbound_status

  unfoldable pub get_southbound : Option (StatusProvider F) → Http (SouthboundStatus F)
  get_southbound status = need "status provider" status (southbound_status fl)

  unfoldable pub active_points : SouthboundStatus F → List (PointStatus F)
  active_points sb = if sb.active then sb.points else []

  unfoldable pub get_bindings : Option (StatusProvider F) → Http (List (PointStatus F))
  get_bindings status = need "status provider" status (λ p. active_points (southbound_status fl p))

  unfoldable pub logs_of :
      Option String → Option F → Option ℤ → StatusProvider F → List (LogEntry F)
  logs_of level since limit p = elim p.log_handler [
    | none ↦ []
    | some handler ↦ snapshot fl.le level since limit handler
  ]

  unfoldable pub get_logs :
      Option String → Option F → Option ℤ → Option (StatusProvider F) → Http (List (LogEntry F))
  get_logs level since limit none = answer []
  get_logs level since limit (some p) = answer (logs_of level since limit p)

module _ {F : Type 0} where
  unfoldable pub info : SimulatorConfig F → Reloader F → ReloaderInfo F
  info config rl = record {
    source_path = rl.source;
    object_count = length config.objects;
    last_reload_ts = rl.last_reload_ts;
    last_result = rl.last_result;
  }

  unfoldable pub get_pointlist : SimulatorConfig F → Option (Reloader F) → Http (ReloaderInfo F)
  get_pointlist config reloader = need "reloader" reloader (info config)

  -- `body.get("mode", config.mode.value)`
  unfoldable pub set_mode : SimulatorConfig F → Option String → Http ModeAnswer
  set_mode config body =
      let requested = get_or body (mode_text config.mode) in
      answer (record {
        current_mode = mode_text config.mode;
        requested_mode = requested;
        applied = false;
        restart_required = true;
        hint = "bbc-sim run -c <config.yaml> --mode " <> requested;
      })
