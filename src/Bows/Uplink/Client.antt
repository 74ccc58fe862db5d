-- ===== src/Bows/Uplink/Client.antt =====
-- `GatewayIngressClient` of src/bbc_sim/bows/uplink/client.py. A session meets the imports of the
-- optional extra, the environment and the files, and the time; `stream` is the call of
-- `StreamTelemetry`, with the accepted count of its answer.
use bacnet_sim_gateway.Common.{
  ℕ, suc, ◌-◌, String, ℤ, Bool, true, false, Option, none, some, List, [], ◌∷◌, Result, ok, raise,
  ◌>>=◌, or_raise, if◌then◌else◌,
}
use bacnet_sim_gateway.Models.{FloatOps, ConversionError}
use bacnet_sim_gateway.Bows.Registry.{PointRegistry}
use bacnet_sim_gateway.Bows.Uplink.Defs.{Reading, TelemetryFrame, encode_telemetry_frames}
use bacnet_sim_gateway.Bows.Downlink.Client.{
  Environment, read_pem, ClientError, mtls_hint, bad_keepalive,
}
use bacnet_sim_gateway.Bows.Backoff.{Random, Backoff}
use bacnet_sim_gateway.Bows.Reconnect.{Served, finished, failed, Round, returned, Looped, reconnect}

pub record IngressConfig (F : Type 0) : Type 0 where
  pub endpoint : String
  pub gateway_id : String
  pub point_registry : PointRegistry
  pub local_address : Option String
  pub tls : Bool
  pub keepalive_s : F
  pub max_backoff_s : F

pub data IngressError : Type 0 where
  encoding_failed : ConversionError → IngressError
  no_extra : IngressError
  bad_credentials : ClientError → IngressError
  stream_failed : String → IngressError

pub record IngressSession (T : Type 0) : Type 0 where
  pub has_grpc : Bool
  pub has_stubs : Bool
  pub environment : Environment
  pub now : T

-- the channels that are open, and the network
pub record Ingress (S : Type 0) : Type 0 where
  pub channels_open : ℕ
  pub network : S

-- the certificate and the key are required; the ca is read after them
unfoldable pub required_pems :
    Environment
    → Option String
    → Option String
    → Result ClientError (Option String × (String × String))
required_pems env none key = raise mtls_hint
required_pems env (some cert) none = raise mtls_hint
required_pems env (some cert) (some key) = do ca ← read_pem env env.tls_ca; ok (ca, (cert, key))

unfoldable pub mtls_pems : Environment → Result ClientError (Option String × (String × String))
mtls_pems env = do
  cert ← read_pem env env.tls_cert
  key ← read_pem env env.tls_key
  required_pems env cert key

module _ {F T S : Type 0} (fl : FloatOps F) (iso : T → String)
    (stream : List (TelemetryFrame F) → S → Result String ℤ × S) (config : IngressConfig F) where
  unfoldable pub channel_options : Result ClientError (List (String × ℤ))
  channel_options = do
    time ← or_raise (fl.trunc (fl.mul config.keepalive_s fl.thousand)) bad_keepalive
    ok (
        ("grpc.keepalive_time_ms", time)
        ∷ ("grpc.keepalive_timeout_ms", ℤ.pos 10000)
        ∷ ("grpc.keepalive_permit_without_calls", ℤ.pos 1)
        ∷ [])

  -- the options and the credentials come before the channel
  unfoldable pub credentials : IngressSession T → Result ClientError (Unit {0})
  credentials session = do
    options ← channel_options
    if config.tls then (mtls_pems session.environment >>= λ pems. ok tt) else ok tt

  -- the answer of the call; the channel is closed in either case
  unfoldable pub answer_of : Result String ℤ × S → Ingress S → Result IngressError ℤ × Ingress S
  answer_of (raise text, network) c = (
    raise (stream_failed text),
    record c { channels_open = c.channels_open - 1; network = network },
  )
  answer_of (ok accepted, network) c =
      (ok accepted, record c { channels_open = c.channels_open - 1; network = network })

  unfoldable pub send_opened :
      List (TelemetryFrame F)
      → Result ClientError (Unit {0})
      → Ingress S
      → Result IngressError ℤ × Ingress S
  send_opened frames (raise e) c = (raise (bad_credentials e), c)
  send_opened frames (ok _) c =
      answer_of (stream frames c.network) (record c { channels_open = suc c.channels_open })

  unfoldable pub send_frames :
      IngressSession T
      → Result ConversionError (List (TelemetryFrame F))
      → Ingress S
      → Result IngressError ℤ × Ingress S
  send_frames session (raise e) c = (raise (encoding_failed e), c)
  send_frames session (ok []) c = (ok (ℤ.pos 0), c)
  send_frames session (ok (f ∷ frames)) c =
      if session.has_grpc
      then (if session.has_stubs
          then send_opened (f ∷ frames) (credentials session) c
          else (raise no_extra, c))
      else (raise no_extra, c)

  unfoldable pub send_readings :
      IngressSession T → List (Reading F T) → Ingress S → Result IngressError ℤ × Ingress S
  send_readings session readings c =
      send_frames session
        (encode_telemetry_frames fl iso config.gateway_id readings config.point_registry
          session.now)
        c

  unfoldable pub served_of : Result IngressError ℤ × Ingress S → Served × Ingress S
  served_of (ok accepted, c) = (finished, c)
  served_of (raise e, c) = (failed, c)

  -- the session of the loop has no readings to send
  unfoldable pub connect_and_serve : IngressSession T → Ingress S → Served × Ingress S
  connect_and_serve session c = served_of (send_readings session [] c)

  -- `reconnect_delays(cap=self.config.max_backoff_s)`; `jitter` is the float 0.2
  unfoldable pub new_delays : F → Backoff F
  new_delays jitter = record {
    base = fl.of_int (ℤ.pos 1);
    factor = fl.of_int (ℤ.pos 2);
    cap = config.max_backoff_s;
    jitter = jitter;
    attempt = 0;
  }

  -- by whether `stop` is set before the loop
  unfoldable pub run_forever :
      {R : Type 0}
      → Random F R
      → F
      → Bool
      → List (Round (IngressSession T))
      → R
      → Ingress S
      → Looped F (Ingress S)
  run_forever rand jitter true rounds rng c = record {
    ended = returned;
    client = c;
    sessions = 0;
    delays = [];
  }
  run_forever rand jitter false rounds rng c =
      reconnect fl rand (new_delays jitter) connect_and_serve rounds (new_delays jitter) rng c
