-- ===== src/Bows/Downlink/Client/Defs.antt =====
-- `GatewayEgressClient`. What a session meets is a record: whether the imports of the optional extra
-- succeed, whether a BACnet client can be built, the environment variables and the files of the
-- credentials, and the messages of the server with how their stream ends. The messages of protobuf
-- are records; a channel and the BACnet client are counted, or remembered as open.
use bacnet_sim_gateway.Common.{
  ℕ, suc, ◌-◌, nat_eq, String, ℤ, Bool, true, false, Option, none, some, List, [], ◌∷◌, map, ◌==◌,
  Result, ok, raise, ◌>>=◌, or_raise, if◌then◌else◌,
}
use bacnet_sim_gateway.Common.Text.{is_blank}
use bacnet_sim_gateway.Models.{FloatOps}
use bacnet_sim_gateway.Bows.Registry.{PointRegistry}
use bacnet_sim_gateway.Bows.Backoff.{Random, Backoff}
use bacnet_sim_gateway.Bows.Reconnect.{
  Served, finished, failed, cancelled, Round, still_running, returned, raised, Looped, reconnect,
}
use bacnet_sim_gateway.Bows.Downlink.Defs.{
  ControlCommand, ControlResult, WriteOutcome, Escape, cancelled_error, conversion_error, WriteCall,
  pump,
}

-- `ControlCommand` and the two messages of gateway_egress.proto
pub record ProtoCommand (F : Type 0) : Type 0 where
  pub control_id : String
  pub point_id : String
  pub present_value : F
  pub priority : ℕ

pub data ServerMessage (F : Type 0) : Type 0 where
  command_message : ProtoCommand F → ServerMessage F
  other_message : ServerMessage F

pub data ClientMessage : Type 0 where
  hello : String → ClientMessage
  result_message : ControlResult → ClientMessage

pub record EgressConfig (F : Type 0) : Type 0 where
  pub endpoint : String
  pub gateway_id : String
  pub target : String
  pub point_registry : PointRegistry
  pub local_address : Option String
  pub tls : Bool
  pub keepalive_s : F
  pub max_backoff_s : F

-- `msg.priority or None`
unfoldable pub command_from_proto : {F : Type 0} → ProtoCommand F → ControlCommand F
command_from_proto msg = record {
  control_id = msg.control_id;
  point_id = msg.point_id;
  present_value = msg.present_value;
  priority = if msg.priority == 0 then none else some (ℤ.pos msg.priority);
}

unfoldable pub result_to_proto : ControlResult → ClientMessage
result_to_proto r = result_message r

-- `commands()`: the messages whose payload is a command
unfoldable pub commands_of : {F : Type 0} → List (ServerMessage F) → List (ControlCommand F)
commands_of [] = []
commands_of (command_message c ∷ messages) = command_from_proto c ∷ commands_of messages
commands_of (other_message ∷ messages) = commands_of messages

-- how the server's stream ends after its messages
pub data StreamEnd : Type 0 where
  closed broken interrupted : StreamEnd

-- the variables of the environment and the files of the credentials; `none` is a file that cannot
-- be read
pub record Environment : Type 0 where
  pub tls_ca : Option String
  pub tls_cert : Option String
  pub tls_key : Option String
  pub file : String → Option String

pub data ClientError : Type 0 where
  install_hint : ClientError
  mtls_hint : ClientError
  read_failed : String → ClientError
  bad_keepalive : ClientError

pub record Session (F : Type 0) : Type 0 where
  pub has_grpc : Bool
  pub has_stubs : Bool
  pub builds_client : Bool
  pub environment : Environment
  pub messages : List (ServerMessage F)
  pub ending : StreamEnd

unfoldable pub read_file : Environment → String → Result ClientError (Option String)
read_file env path =
    if is_blank path
    then ok none
    else (do bytes ← or_raise (env.file path) (read_failed path); ok (some bytes))

unfoldable pub read_pem : Environment → Option String → Result ClientError (Option String)
read_pem env none = ok none
read_pem env (some path) = read_file env path

-- the certificate and the key are required; the ca is read after them
unfoldable pub required_pems :
    Environment
    → Option String
    → Option String
    → Result ClientError (Option String × (String × String))
required_pems env none key = raise mtls_hint
required_pems env (some cert) none = raise mtls_hint
required_pems env (some cert) (some key) = do ca ← read_pem env env.tls_ca; ok (ca, (cert, key))

unfoldable pub mtls_pems : Environment → Result ClientError (Option String × (String × String))
mtls_pems env = do
  cert ← read_pem env env.tls_cert
  key ← read_pem env env.tls_key
  required_pems env cert key

-- what a client holds: the executor and the pump, the BACnet client, and the channels that are open
pub record Egress (S : Type 0) : Type 0 where
  pub has_executor : Bool
  pub has_pump : Bool
  pub app_open : Bool
  pub channels_open : ℕ
  pub sent : List (List ClientMessage)
  pub network : S

-- a client with an executor of its caller, or with none
unfoldable pub init_client : {S : Type 0} → Bool → S → Egress S
init_client given s = record {
  has_executor = given;
  has_pump = false;
  app_open = false;
  channels_open = 0;
  sent = [];
  network = s;
}

module _ {S : Type 0} where
  -- whether the executor is there, and the client after it
  unfoldable pub ensure_executor : Bool → Egress S → Bool × Egress S
  ensure_executor builds c =
      if c.has_executor
      then (true, c)
      else if builds
      then (true, record c { has_executor = true; app_open = true })
      else (false, c)

  unfoldable pub pump_with : Bool × Egress S → Bool × Egress S
  pump_with (false, c) = (false, c)
  pump_with (true, c) = (true, record c { has_pump = true })

  unfoldable pub ensure_pump : Bool → Egress S → Bool × Egress S
  ensure_pump builds c = if c.has_pump then (true, c) else pump_with (ensure_executor builds c)

  unfoldable pub close_channel : Served × Egress S → Served × Egress S
  close_channel (served, c) = (served, record c { channels_open = c.channels_open - 1 })

-- how `serve_stream` ends, by what left the pump and by the end of the stream
unfoldable pub served_of : Option Escape → StreamEnd → Served
served_of (some cancelled_error) ending = cancelled
served_of (some conversion_error) ending = failed
served_of none closed = finished
served_of none broken = failed
served_of none interrupted = cancelled

module _ {F S : Type 0} (fl : FloatOps F) (write : WriteCall F → S → WriteOutcome × S)
    (config : EgressConfig F) where
  -- the values of `_channel_options`; `int` of a NaN or an infinity raises
  unfoldable pub channel_options : Result ClientError (List (String × ℤ))
  channel_options = do
    time ← or_raise (fl.trunc (fl.mul config.keepalive_s fl.thousand)) bad_keepalive
    ok (
        ("grpc.keepalive_time_ms", time)
        ∷ ("grpc.keepalive_timeout_ms", ℤ.pos 10000)
        ∷ ("grpc.keepalive_permit_without_calls", ℤ.pos 1)
        ∷ [])

  -- Hello, and the results as the pump yields them
  unfoldable pub stream_with : Session F → Bool × Egress S → Served × Egress S
  stream_with session (false, c) = (failed, c)
  stream_with session (true, c) =
      let pumped = pump fl write config.point_registry (commands_of session.messages) c.network in
      (
        served_of pumped.escape session.ending,
        record c {
          sent = (hello config.gateway_id ∷ map result_to_proto pumped.results) ∷ c.sent;
          network = pumped.state;
        },
      )

  unfoldable pub serve_stream : Session F → Egress S → Served × Egress S
  serve_stream session c = stream_with session (ensure_pump session.builds_client c)

  -- the options and the credentials come before the channel
  unfoldable pub credentials : Session F → Result ClientError (Unit {0})
  credentials session = do
    options ← channel_options
    if config.tls then (mtls_pems session.environment >>= λ pems. ok tt) else ok tt

  unfoldable pub serve_opened :
      Session F → Result ClientError (Unit {0}) → Egress S → Served × Egress S
  serve_opened session (raise e) c = (failed, c)
  serve_opened session (ok _) c =
      close_channel (serve_stream session (record c { channels_open = suc c.channels_open }))

  unfoldable pub connect_and_serve : Session F → Egress S → Served × Egress S
  connect_and_serve session c =
      if session.has_grpc
      then (if session.has_stubs then serve_opened session (credentials session) c else (failed, c))
      else (failed, c)

  -- `reconnect_delays(cap=self.config.max_backoff_s)`; `jitter` is the float 0.2
  unfoldable pub new_delays : F → Backoff F
  new_delays jitter = record {
    base = fl.of_int (ℤ.pos 1);
    factor = fl.of_int (ℤ.pos 2);
    cap = config.max_backoff_s;
    jitter = jitter;
    attempt = 0;
  }

-- `if self._app is not None: self._app.close()`, if the loop ends
unfoldable pub close_app : {F S : Type 0} → Looped F (Egress S) → Looped F (Egress S)
close_app l = elim l.ended [
  | still_running ↦ l
  | returned ↦ record l { client = record l.client { app_open = false } }
  | raised e ↦ record l { client = record l.client { app_open = false } }
]

module _ {F R S : Type 0} (fl : FloatOps F) (rand : Random F R)
    (write : WriteCall F → S → WriteOutcome × S) (config : EgressConfig F) (jitter : F) where
  -- by whether `stop` is set before the loop
  unfoldable pub run_forever : Bool → List (Round (Session F)) → R → Egress S → Looped F (Egress S)
  run_forever true rounds rng c = record { ended = returned; client = c; sessions = 0; delays = [] }
  run_forever false rounds rng c =
      let delays = new_delays fl write config jitter in
      close_app (reconnect fl rand delays (connect_and_serve fl write config) rounds delays rng c)
