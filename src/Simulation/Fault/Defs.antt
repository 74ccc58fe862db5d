-- ===== src/Simulation/Fault/Defs.antt =====
-- `FaultController`. The object of bacpypes3 is a record of the properties that a fault sets; an
-- optional property that the object does not carry is not set.
use bacnet_sim_gateway.Common.{
  ℕ, String, string_eq, int_eq, pair_eq, Bool, true, false, ◌||◌, Option, none, some, List, [], ◌∷◌,
  contains, if◌then◌else◌,
}
use bacnet_sim_gateway.Common.Dict.{Dict, lookup, insert}
use bacnet_sim_gateway.Models.{Value, FloatOps}
use bacnet_sim_gateway.Runtime.App.{Oid}
use bacnet_sim_gateway.Semantic.{get_or}

pub data FaultType : Type 0 where
  comm_loss freeze abnormal out_of_service fault clear : FaultType

pub record FaultState : Type 0 where
  pub frozen : Bool
  pub comm_loss : Bool

-- `statusFlags`
pub record StatusFlags : Type 0 where
  pub in_alarm : ℕ
  pub fault : ℕ
  pub overridden : ℕ
  pub out_of_service : ℕ

pub record LiveObject (F : Type 0) : Type 0 where
  pub object_identifier : Oid
  pub present_value : Value F
  pub status_flags : StatusFlags
  pub out_of_service : Bool
  pub event_state : String
  pub reliability : String
  pub max_pres_value : Option F
  -- the optional properties that can be set
  pub optional_properties : List String

abbrev pub States : Type 0
States = Dict Oid FaultState

abbrev pub no_fault : FaultState
no_fault = record { frozen = false; comm_loss = false }

unfoldable pub flags : ℕ → ℕ → ℕ → ℕ → StatusFlags
flags a f o s = record { in_alarm = a; fault = f; overridden = o; out_of_service = s }

-- `self._states.setdefault(_key(obj), FaultState())`, as the state that it returns
unfoldable pub fault_state : Oid → States → FaultState
fault_state key states = get_or (lookup key states) no_fault

unfoldable pub is_suppressed : Oid → States → Bool
is_suppressed key states = elim (lookup key states) [
  | none ↦ false
  | some fs ↦ fs.frozen || fs.comm_loss
]

-- what a fault makes of the state of its object
unfoldable pub next_state : FaultType → FaultState → FaultState
next_state FaultType.comm_loss fs = record fs { comm_loss = true }
next_state FaultType.freeze fs = record fs { frozen = true }
next_state FaultType.clear fs = record fs { frozen = false; comm_loss = false }
next_state _ fs = fs

module _ {F : Type 0} where
  unfoldable pub set_flags : StatusFlags → LiveObject F → LiveObject F
  set_flags fs o = record o { status_flags = fs }

  -- `_trySet` of the two properties it is called for
  unfoldable pub try_set_reliability : String → LiveObject F → LiveObject F
  try_set_reliability v o =
      if contains o.optional_properties "reliability" then record o { reliability = v } else o

  unfoldable pub try_set_event_state : String → LiveObject F → LiveObject F
  try_set_event_state v o =
      if contains o.optional_properties "eventState" then record o { event_state = v } else o

module _ {F : Type 0} (fl : FloatOps F) where
  unfoldable pub abnormal_value : LiveObject F → F
  abnormal_value o = elim o.max_pres_value [ none ↦ fl.abnormal | some hi ↦ fl.add hi fl.thousand ]

  -- what a fault makes of the object
  unfoldable pub apply_to_object : FaultType → Option (Value F) → LiveObject F → LiveObject F
  apply_to_object FaultType.out_of_service value o =
      set_flags (flags 0 0 0 1) (record o { out_of_service = true })
  apply_to_object FaultType.fault value o =
      set_flags (flags 0 1 0 0)
        (try_set_reliability "unreliable-other" (record o { event_state = "fault" }))
  apply_to_object FaultType.comm_loss value o =
      set_flags (flags 0 1 0 0) (try_set_reliability "communication-failure" o)
  apply_to_object FaultType.freeze value o = o
  apply_to_object FaultType.abnormal value o = record o {
    present_value = get_or value (Value.real (abnormal_value o));
  }
  apply_to_object FaultType.clear value o = set_flags (flags 0 0 0 0) (
      try_set_reliability "no-fault-detected"
        (try_set_event_state "normal" (record o { out_of_service = false })))

  -- `apply`: the state of the object's key is created if it is missing
  unfoldable pub apply :
      FaultType → Option (Value F) → LiveObject F → States → LiveObject F × States
  apply f value o states = (
    apply_to_object f value o,
    insert o.object_identifier (next_state f (fault_state o.object_identifier states)) states,
  )

  -- faults one after the other, each on the object it names
  unfoldable pub apply_all : List (FaultType × (Option (Value F) × LiveObject F)) → States → States
  apply_all [] states = states
  apply_all ((f, (value, o)) ∷ faults) states = apply_all faults (apply f value o states).1
