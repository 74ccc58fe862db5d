-- ===== src/Rest/Api/Defs.antt =====
-- The endpoints of `create_app` on objects. FastAPI's routing and the models of the bodies are outside:
-- an endpoint takes the values of its path and body. `assign o v` is what an assignment to
-- `presentValue` of `o` stores; a ValueError or TypeError of it is `bad_value`, and any other exception
-- is `crash`, which FastAPI answers by 500.
use bacnet_sim_gateway.Common.{
  ℕ, nat_eq, String, string_eq, ◌<>◌, ℤ, int_eq, pair_eq, Bool, false, Option, none, some, List, [],
  ◌∷◌, Result, ok, raise, ◌==◌, length, if◌then◌else◌,
}
use bacnet_sim_gateway.Common.Text.{is_blank}
use bacnet_sim_gateway.Common.Dict.{Dict, lookup, insert}
use bacnet_sim_gateway.Semantic.{get_or}
use bacnet_sim_gateway.Models.{
  object_type_text, Value, FloatOps, str_value, BacnetObjectSpec, SimulatorConfig,
}
use bacnet_sim_gateway.Runtime.App.{Oid, oid_key}
use bacnet_sim_gateway.Simulation.Fault.{
  FaultType, LiveObject, StatusFlags, States, fault_state, abnormal_value, apply,
}
use bacnet_sim_gateway.Rest.Reload.{spec_map}

pub data AssignError : Type 0 where
  bad_value : String → AssignError
  crash : String → AssignError

-- an answer: a JSON value, an HTTPException, or the exception that leaves the endpoint
pub data Http (A : Type 0) : Type 0 where
  answer : A → Http A
  http_exception : ℕ → String → Http A
  server_error : String → Http A

-- what the endpoints share: the config, the objects of the application and the faults
pub record ApiState (F : Type 0) : Type 0 where
  pub config : SimulatorConfig F
  pub objects : Dict Oid (LiveObject F)
  pub faults : States

pub record ObjectView (F : Type 0) : Type 0 where
  pub point_id : String
  pub object_type : String
  pub object_instance : ℤ
  pub object_name : String
  pub present_value : Value F
  pub out_of_service : Bool
  pub status_flags : Option StatusFlags
  pub writable : Bool

pub record DeviceView : Type 0 where
  pub device_id : ℤ
  pub bbc_id : String
  pub object_name : String

-- `FaultType(text)`
unfoldable pub fault_of_text : String → Option FaultType
fault_of_text text =
    if text == "comm_loss"
    then some FaultType.comm_loss
    else if text == "freeze"
    then some FaultType.freeze
    else if text == "abnormal"
    then some FaultType.abnormal
    else if text == "out_of_service"
    then some FaultType.out_of_service
    else if text == "fault"
    then some FaultType.fault
    else if text == "clear"
    then some FaultType.clear
    else none

module _ {F : Type 0} (fl : FloatOps F) where
  unfoldable pub scalar : Value F → Value F
  scalar Value.null = Value.null
  scalar (Value.bool b) = Value.bool b
  scalar (Value.int i) = Value.int i
  scalar (Value.real x) = Value.real x
  scalar v = Value.text (str_value fl v)

  -- the view of a spec, with its object if it is there
  unfoldable pub view_of : BacnetObjectSpec F → Option (LiveObject F) → ObjectView F
  view_of spec none = record {
    point_id = spec.point_id;
    object_type = object_type_text spec.object_type;
    object_instance = spec.object_instance;
    object_name = spec.object_name;
    present_value = Value.null;
    out_of_service = false;
    status_flags = none;
    writable = spec.writable;
  }
  view_of spec (some o) = record {
    point_id = spec.point_id;
    object_type = object_type_text spec.object_type;
    object_instance = spec.object_instance;
    object_name = spec.object_name;
    present_value = scalar o.present_value;
    out_of_service = o.out_of_service;
    status_flags = some o.status_flags;
    writable = spec.writable;
  }

  unfoldable pub object_view : BacnetObjectSpec F → ApiState F → ObjectView F
  object_view spec s = view_of spec (lookup (oid_key spec) s.objects)

  unfoldable pub devices : ApiState F → Http (List DeviceView)
  devices s = answer (
      record {
        device_id = s.config.bbc.device_id;
        bbc_id = s.config.bbc.bbc_id;
        object_name = s.config.bbc.object_name;
      }
      ∷ [])

  unfoldable pub device : ℤ → ApiState F → Http (ℤ × (String × ℕ))
  device id s =
      if id == s.config.bbc.device_id
      then answer (s.config.bbc.device_id, (s.config.bbc.bbc_id, length s.config.objects))
      else http_exception 404 "unknown device"

  unfoldable pub views : List (String × BacnetObjectSpec F) → ApiState F → List (ObjectView F)
  views [] s = []
  views ((id, spec) ∷ specs) s = object_view spec s ∷ views specs s

  unfoldable pub list_objects : ApiState F → Http (List (ObjectView F))
  list_objects s = answer (views (spec_map s.config.objects) s)

  unfoldable pub get_object : String → ApiState F → Http (ObjectView F)
  get_object point_id s = elim (lookup point_id (spec_map s.config.objects)) [
    | none ↦ http_exception 404 "unknown object"
    | some spec ↦ answer (object_view spec s)
  ]

  module _ (assign : LiveObject F → Value F → Result AssignError (Value F)) where
    abbrev pub Answered : Type 0
    Answered = Http (ObjectView F) × ApiState F

    -- the assignment of a value to an object, and the answer
    unfoldable pub store :
        BacnetObjectSpec F
        → String
        → LiveObject F
        → Result AssignError (Value F)
        → ApiState F
        → Answered
    store spec label o (ok v) s =
        let after = record s {
          objects = insert (oid_key spec) (record o { present_value = v }) s.objects;
        } in
        (answer (object_view spec after), after)
    store spec label o (raise (bad_value text)) s = (http_exception 400 (label <> text), s)
    store spec label o (raise (crash text)) s = (server_error text, s)

    unfoldable pub write_present :
        BacnetObjectSpec F → Value F → Option (LiveObject F) → ApiState F → Answered
    write_present spec value none s = (http_exception 404 "object not present in runtime", s)
    write_present spec value (some o) s =
        store spec ("invalid value for " <> spec.point_id <> ": ") o (assign o value) s

    unfoldable pub write_spec : Option (BacnetObjectSpec F) → Value F → ApiState F → Answered
    write_spec none value s = (http_exception 404 "unknown object", s)
    write_spec (some spec) value s =
        if spec.writable
        then write_present spec value (lookup (oid_key spec) s.objects) s
        else (http_exception 409 "object is not writable", s)

    unfoldable pub write_object : String → Value F → ApiState F → Answered
    write_object point_id value s = write_spec (lookup point_id (spec_map s.config.objects)) value s

    -- `faults.apply(obj, fault, value)`: the state of the object is there before the fault acts, and
    -- the value of an abnormal object is assigned
    unfoldable pub apply_fault :
        FaultType
        → Option (Value F)
        → LiveObject F
        → States
        → Result AssignError (LiveObject F) × States
    apply_fault FaultType.abnormal value o states = (
      elim (assign o (get_or value (Value.real (abnormal_value fl o)))) [
        | ok v ↦ ok (record o { present_value = v })
        | raise e ↦ raise e
      ],
      insert o.object_identifier (fault_state o.object_identifier states) states,
    )
    apply_fault f value o states = (ok (apply fl f value o states).0, (apply fl f value o states).1)

    unfoldable pub store_fault :
        BacnetObjectSpec F → Result AssignError (LiveObject F) × States → ApiState F → Answered
    store_fault spec (ok o, states) s =
        let after = record s { objects = insert (oid_key spec) o s.objects; faults = states } in
        (answer (object_view spec after), after)
    store_fault spec (raise (bad_value text), states) s =
        (http_exception 400 ("could not apply fault: " <> text), record s { faults = states })
    store_fault spec (raise (crash text), states) s =
        (server_error text, record s { faults = states })

    -- `if body.fault: … elif body.value is not None: …`
    unfoldable pub run_fault :
        BacnetObjectSpec F → String → Option (Value F) → LiveObject F → ApiState F → Answered
    run_fault spec text value o s = elim (fault_of_text text) [
      | none ↦ (http_exception 400 ("unknown fault: " <> text), s)
      | some f ↦ store_fault spec (apply_fault f value o s.faults) s
    ]

    unfoldable pub run_value :
        BacnetObjectSpec F → Option (Value F) → LiveObject F → ApiState F → Answered
    run_value spec none o s = (answer (object_view spec s), s)
    run_value spec (some v) o s = store spec "invalid value: " o (assign o v) s

    unfoldable pub run_scenario :
        BacnetObjectSpec F
        → Option String
        → Option (Value F)
        → Option (LiveObject F)
        → ApiState F
        → Answered
    run_scenario spec fault value none s = (http_exception 404 "object not present in runtime", s)
    run_scenario spec none value (some o) s = run_value spec value o s
    run_scenario spec (some text) value (some o) s =
        if is_blank text then run_value spec value o s else run_fault spec text value o s

    unfoldable pub scenario : String → Option String → Option (Value F) → ApiState F → Answered
    scenario point_id fault value s = elim (lookup point_id (spec_map s.config.objects)) [
      | none ↦ (http_exception 404 "unknown object", s)
      | some spec ↦ run_scenario spec fault value (lookup (oid_key spec) s.objects) s
    ]
