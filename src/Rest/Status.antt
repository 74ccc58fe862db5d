-- ===== src/Rest/Status.antt =====
-- `StatusProvider` of src/bbc_sim/rest/status.py. A JSON object is a record; `now` is `time.time()` and
-- `round1` is `round(x, 1)`.
use bacnet_sim_gateway.Common.{
  ℕ, String, ℤ, Bool, false, not, Option, none, some, List, [], length, is_empty, is_some,
}
use bacnet_sim_gateway.Models.{FloatOps, mode_text, SimulatorConfig}
use bacnet_sim_gateway.Runtime.App.{Counters, zero_counters}
use bacnet_sim_gateway.Observability.LogBuffer.{RingBuffer}
use bacnet_sim_gateway.Southbound.{Manager, SouthboundStatus, manager_status}

-- `manager` is what `get_manager` returns, with whether its transport has started; `counters` is the
-- attribute of the application, if it is there
pub record StatusProvider (F : Type 0) : Type 0 where
  pub config : SimulatorConfig F
  pub counters : Option Counters
  pub bound : Bool
  pub manager : Option (Bool × Manager F)
  pub log_handler : Option (RingBuffer F)
  pub start_ts : F

pub record RuntimeStatus (F : Type 0) : Type 0 where
  pub mode : String
  pub bound : Bool
  pub uptime_seconds : F
  pub bind_address : String
  pub port : ℤ
  pub foreign_bbmd : Option String
  pub bbmd_bdt : List String
  pub device_id : ℤ
  pub bbc_id : String
  pub object_name : String
  pub object_count : ℕ
  pub northbound_counters : Counters
  pub southbound_active : Bool

pub record NorthboundStatus : Type 0 where
  pub bound : Bool
  pub bind_address : String
  pub port : ℤ
  pub bbmd_enabled : Bool
  pub bdt : List String
  pub registered : Bool
  pub bbmd : Option String
  pub ttl : ℤ
  pub counters : Counters

unfoldable pub counters_dict : Option Counters → Counters
counters_dict none = zero_counters
counters_dict (some c) = c

module _ {F : Type 0} (fl : FloatOps F) where
  unfoldable pub runtime_status : (F → F) → F → StatusProvider F → RuntimeStatus F
  runtime_status round1 now p = record {
    mode = mode_text p.config.mode;
    bound = p.bound;
    uptime_seconds = round1 (fl.sub now p.start_ts);
    bind_address = p.config.network.bind_address;
    port = p.config.network.port;
    foreign_bbmd = p.config.network.foreign_bbmd;
    bbmd_bdt = p.config.network.bbmd_bdt;
    device_id = p.config.bbc.device_id;
    bbc_id = p.config.bbc.bbc_id;
    object_name = p.config.bbc.object_name;
    object_count = length p.config.objects;
    northbound_counters = counters_dict p.counters;
    southbound_active = is_some p.manager;
  }

  unfoldable pub southbound_status : StatusProvider F → SouthboundStatus F
  southbound_status p = elim p.manager [
    | none ↦ record { active = false; protocols = []; points = [] }
    | some (connected, m) ↦ manager_status fl connected p.config m
  ]

module _ {F : Type 0} where
  unfoldable pub northbound_status : StatusProvider F → NorthboundStatus
  northbound_status p = record {
    bound = p.bound;
    bind_address = p.config.network.bind_address;
    port = p.config.network.port;
    bbmd_enabled = not (is_empty p.config.network.bbmd_bdt);
    bdt = p.config.network.bbmd_bdt;
    registered = is_some p.config.network.foreign_bbmd;
    bbmd = p.config.network.foreign_bbmd;
    ttl = p.config.network.foreign_ttl;
    counters = counters_dict p.counters;
  }
