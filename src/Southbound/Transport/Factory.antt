-- ===== src/Southbound/Transport/Factory.antt =====
-- `make_transport` of src/bbc_sim/southbound/factory.py, and the mapping of a channel to an address of
-- src/bbc_sim/southbound/amqp.py. `urlparse` is a parameter; a transport is its constructor's
-- arguments.
use bacnet_sim_gateway.Common.{
  ℕ, nat_eq, String, string_eq, ℤ, ◌<>◌, Bool, false, ◌||◌, ◌&&◌, List, [], ◌∷◌, Option, none, some,
  ◌==◌, Result, ok, raise, leb, length, get_elem?, if◌then◌else◌,
}
use Prim.Native.Char.{code}
use bacnet_sim_gateway.Common.Text.{is_blank}
use bacnet_sim_gateway.Semantic.{get_or}
use bacnet_sim_gateway.Southbound.Address.{rstrip_slash}

pub data TransportSpec : Type 0 where
  in_memory : TransportSpec
  mqtt : String → ℤ → TransportSpec
  zeromq : String → String → TransportSpec
  amqp : String → ℤ → Bool → TransportSpec

-- the parts of `urlparse(uri)` that are read, of a uri whose port is a number in its range
pub record ParsedUri : Type 0 where
  pub scheme : String
  pub hostname : Option String
  pub port : Option ℤ

unfoldable pub or_host : Option String → String
or_host none = "127.0.0.1"
or_host (some h) = if is_blank h then "127.0.0.1" else h

unfoldable pub or_port : Option ℤ → ℤ → ℤ
or_port none default = default
or_port (some (ℤ.pos n)) default = if n == 0 then default else ℤ.pos n
or_port (some (ℤ.negsuc n)) default = ℤ.negsuc n

-- `uri[n:]`
unfoldable pub drop_chars : ℕ → String → String
drop_chars n String.[] = String.[]
drop_chars ℕ.zero (String.◌∷◌ c s) = String.◌∷◌ c s
drop_chars (ℕ.suc n) (String.◌∷◌ c s) = drop_chars n s

-- `body.partition("|")`, without the separator
unfoldable pub partition_bar : String → String × String
partition_bar String.[] = (String.[], String.[])
partition_bar (String.◌∷◌ c s) =
    let rest = partition_bar s in
    if code c == b'|' then (String.[], s) else (String.◌∷◌ c rest.0, rest.1)

unfoldable pub zmq_of : String × String → TransportSpec
zmq_of (sub, pub_part) = zeromq sub (if is_blank pub_part then sub else pub_part)

unfoldable pub make_transport : (String → ParsedUri) → String → Result String TransportSpec
make_transport urlparse uri =
    if uri == "memory" || uri == "memory://"
    then ok in_memory
    else if (urlparse uri).scheme == "mqtt"
    then ok (mqtt (or_host (urlparse uri).hostname) (or_port (urlparse uri).port (ℤ.pos 1883)))
    else if (urlparse uri).scheme == "zmq"
    then ok (zmq_of (partition_bar (drop_chars 6 uri)))
    else if (urlparse uri).scheme == "amqp" || (urlparse uri).scheme == "amqps"
    then (let tls = (urlparse uri).scheme == "amqps" in
        ok (
          amqp (or_host (urlparse uri).hostname)
            (or_port (urlparse uri).port (if tls then ℤ.pos 5671 else ℤ.pos 5672)) tls))
    else raise uri

-- `text.lstrip("/")` and `text.strip("/")`
unfoldable pub lstrip_slash : String → String
lstrip_slash String.[] = String.[]
lstrip_slash (String.◌∷◌ c s) =
    let rest = lstrip_slash s in if code c == 47 then rest else String.◌∷◌ c s

unfoldable pub strip_slash : String → String
strip_slash s = rstrip_slash (lstrip_slash s)

-- the first part of a split, and the others
unfoldable pub push_char : Prim.Native.Char.Char → List String → List String
push_char c [] = String.◌∷◌ c String.[] ∷ []
push_char c (part ∷ parts) = String.◌∷◌ c part ∷ parts

-- `text.split("/")`
unfoldable pub split_slash : String → List String
split_slash String.[] = String.[] ∷ []
split_slash (String.◌∷◌ c s) =
    let rest = split_slash s in if code c == 47 then String.[] ∷ rest else push_char c rest

unfoldable pub is_telemetry_path : ℕ → List String → Bool
is_telemetry_path n [] = false
is_telemetry_path n (part ∷ parts) = leb n (length (part ∷ parts)) && part == "telemetry"

unfoldable pub hono_address : String → String
hono_address channel =
    let parts = split_slash (strip_slash channel) in
    if is_telemetry_path 2 parts
    then "/telemetry/" <> get_or (get_elem? parts 1) ""
    else "/" <> strip_slash channel

unfoldable pub device_id_from_channel : String → Option String
device_id_from_channel channel =
    let parts = split_slash (strip_slash channel) in
    if is_telemetry_path 3 parts then get_elem? parts 2 else none
