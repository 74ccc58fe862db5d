-- ===== src/Tests/Polling.antt =====
-- The properties of the BACnet client and of the runner at a concrete device.
use bacnet_sim_gateway.Common.{
  ℕ, suc, String, string_eq, ℤ, Bool, true, false, Option, none, some, List, [], ◌∷◌, map, ok,
  raise, ◌==◌, if◌then◌else◌, ◌≡◌, refl, ap, inl,
}
use bacnet_sim_gateway.Models.{Value}
use bacnet_sim_gateway.Services.{RpmResult, Network, multiple_args, client_of}
use bacnet_sim_gateway.Services.Hybrid.{
  read_of_values, entry_of_values, plain_readings, IsDevice, acquire-plain_readings,
}
use bacnet_sim_gateway.Bows.Acquire.{points_of, acquire}
use bacnet_sim_gateway.Bows.Reconnect.{timed_out, stop_set}
use bacnet_sim_gateway.Bows.Runner.{
  BowsConfig, TransportOps, failure, Messages, PollRound, init_runner, poll_once, run_forever,
}
use bacnet_sim_gateway.Bows.Runner.Shutdown.{EndsShut, run_forever-EndsShut}
use bacnet_sim_gateway.Bows.Runner.Polls.{Publishes, poll_once-Publishes}
use bacnet_sim_gateway.Tests.Samples.{ops}

-- a device with two points, of which one has a value
abbrev objects : List (String × ℤ)
objects = ("device", ℤ.pos 1) ∷ ("analog-value", ℤ.pos 1) ∷ ("analog-input", ℤ.pos 1) ∷ []

abbrev values : String → Option (Value ℕ)
values ident = if ident == "analog-value,1" then some (Value.real 20) else none

abbrev error : String → String
error ident = "unknown-object"

abbrev show : ℤ → String
show i = "1"

abbrev entries : List (String × List String) → List (RpmResult ℕ)
entries [] = []
entries ((ident, props) ∷ args) = entry_of_values values ident ∷ entries args

-- a network that counts the calls
abbrev net : Network ℕ ℕ
net = record {
  who_is = λ low high s. (ok ((ℤ.pos 1, "10.0.0.1") ∷ []), suc s);
  read_value = λ ident prop s. (read_of_values values error ident, suc s);
  read_list = λ ident prop s. (ok objects, suc s);
  read_multiple = λ args s. (ok (entries args), suc s);
  write_value = λ ident prop v priority s. (ok tt, suc s);
  request = λ r s. (ok tt, suc s);
}

entries-multiple_args :
    (objids : List String) → entries (multiple_args objids) ≡ map (entry_of_values values) objids
unfolding multiple_args
entries-multiple_args [] = refl
entries-multiple_args (ident ∷ objids) =
    ap (◌∷◌ (entry_of_values values ident)) (entries-multiple_args objids)

answers : IsDevice net show (ℤ.pos 1) objects values error
answers = record {
  found = λ s. ("10.0.0.1", [], refl);
  listed = λ s. refl;
  single = λ ident s. refl;
  several = λ objids s. inl (ap ok (entries-multiple_args objids));
}

acquire-plain_readings_example :
    (acquire {T = String} (client_of net show) show 0).0
    ≡ ok (ℤ.pos 1, plain_readings values (points_of show objects))
acquire-plain_readings_example =
    acquire-plain_readings net show (ℤ.pos 1) objects values error answers 0

abbrev bows : BowsConfig ℕ
bows = record {
  target = "10.0.0.1";
  device_id = "dev";
  tenant = "default";
  transport_uri = "memory";
  interval = 60;
  local_address = none;
}

-- a transport that keeps the topics
abbrev transport : TransportOps (Messages ℕ) (List String)
transport = record {
  start = λ t. (ok tt, t);
  publish = λ channel message t. (ok tt, channel ∷ t);
  stop = λ t. (raise (failure "gone"), t);
}

abbrev round : Bool → PollRound ℕ (List String) String
round stop = record {
  now = "noon";
  cancelled_at = none;
  waited = if stop then stop_set else timed_out;
}

run_forever-EndsShut_example :
    EndsShut ops
      (λ now. now)
      show
      (client_of net show)
      (λ s. (ok tt, s))
      transport
      bows
      []
      (run_forever ops
        (λ now. now)
        show
        (client_of net show)
        (λ s. (ok tt, s))
        transport
        bows
        false
        (round false ∷ round true ∷ [])
        (init_runner 0 []))
run_forever-EndsShut_example =
    run_forever-EndsShut ops (λ now. now) show (client_of net show) (λ s. (ok tt, s)) transport bows
      false (round false ∷ round true ∷ []) 0 [] refl

poll_once-Publishes_example :
    Publishes ops
      (λ now. now)
      show
      net
      (λ s. (ok tt, s))
      transport
      bows
      (ℤ.pos 1)
      objects
      values
      error
      answers
      (plain_readings values (points_of show objects))
      "noon"
      (init_runner 0 [])
      (poll_once ops
        (λ now. now)
        show
        (client_of net show)
        (λ s. (ok tt, s))
        transport
        bows
        "noon"
        (init_runner 0 []))
poll_once-Publishes_example =
    poll_once-Publishes ops (λ now. now) show net (λ s. (ok tt, s)) transport bows (ℤ.pos 1) objects
      values error answers "noon" (init_runner 0 [])
