-- ===== src/Tests/Connector.antt =====
-- The properties of the connector's clients at concrete inputs.
use Prim.Native.Nat.{◌^◌}
use bacnet_sim_gateway.Common.{
  ℕ, suc, ◌+◌, ◌*◌, ◌≤◌, nat_eq, string_eq, true, false, none, some, [], ◌∷◌, leb, ◌≡◌, refl, arith,
  if◌then◌else◌, leb→le,
}
use bacnet_sim_gateway.Simulation.Generators.{min_float, max_float}
use bacnet_sim_gateway.Bows.Backoff.{Random, Backoff, next_delay, delay_of, jittered}
use bacnet_sim_gateway.Bows.Backoff.Bounds.{Monotone, IsSane, IsRandom, ceiling, next_delay_bounds}
use bacnet_sim_gateway.Bows.Reconnect.{Round, timed_out, stop_set, raised, overflow_error}
use bacnet_sim_gateway.Bows.Reconnect.Ends.{is_running, rounds_to_stop}
use bacnet_sim_gateway.Bows.Downlink.Client.{
  Session, EgressConfig, broken, closed, init_client, run_forever,
}
use bacnet_sim_gateway.Bows.Downlink.Client.Shutdown.{
  IsUnreachable, run_forever_ends, run_forever_overflows,
}
use bacnet_sim_gateway.Tests.Simulation.{order}
use bacnet_sim_gateway.Tests.Samples.{ops, network}

le→leb : (a b : ℕ) → a ≤ b → leb a b ≡ true
le→leb a b h = ground arith

mul-le-left : (a b c : ℕ) → a ≤ b → c * a ≤ c * b
mul-le-left a b c h = grind arith

mul-le-right : (a b c : ℕ) → a ≤ b → a * c ≤ b * c
mul-le-right a b c h = grind arith

ops_mono : Monotone ops
ops_mono = record {
  le_trans = λ a b c h k. ground arith;
  add_mono = λ a b c d h k. ground arith;
  mul_left = λ a b c z h. le→leb (c * a) (c * b) (mul-le-left a b c (leb→le a b h));
  mul_right = λ a b c z h. le→leb (a * c) (b * c) (mul-le-right a b c (leb→le a b h));
  mul_nonneg = λ a b h k. le→leb 0 (a * b) (omega arith);
  add_nonneg = λ a b h k. le→leb 0 (a + b) (omega arith);
  mul_one = λ a. omega arith;
}

-- a draw that is always 1, and powers that overflow from the third on
abbrev rand : Random ℕ ℕ
rand = record { draw = λ rng. (1, rng + 1); power = λ x n. if leb 3 n then none else some (x ^ n) }

rand_laws : IsRandom ops rand
rand_laws = record { spread_le = λ rng. refl; power_nonneg = λ x n p h e. le→leb 0 p (omega arith) }

abbrev second : Backoff ℕ
second = record { base = 1; factor = 2; cap = 30; jitter = 1; attempt = 1 }

next_delay_bounds_example :
    (leb 0 4 ≡ true)
    × (leb 4 (ceiling ops second) ≡ true)
    × IsSane ops (record second { attempt = 2 })
    × (ceiling ops (record second { attempt = 2 }) ≡ ceiling ops second)
    × (◌≡◌ {A = ℕ} 2 (suc 1))
unfolding next_delay delay_of jittered min_float max_float
next_delay_bounds_example =
    next_delay_bounds ops order ops_mono rand rand_laws second (record second { attempt = 2 }) 5 6 4
      (record { base_nonneg = refl; cap_nonneg = refl; factor_nonneg = refl; jitter_nonneg = refl })
      refl

abbrev egress : EgressConfig ℕ
egress = record {
  endpoint = "os:443";
  gateway_id = "gw";
  target = "10.0.0.1";
  point_registry = record { by_point_id = []; by_bacnet = [] };
  local_address = none;
  tls = false;
  keepalive_s = 20;
  max_backoff_s = 30;
}

abbrev unreachable : Session ℕ
unreachable = record {
  has_grpc = true;
  has_stubs = true;
  builds_client = true;
  environment = record { tls_ca = none; tls_cert = none; tls_key = none; file = λ path. none };
  messages = [];
  ending = broken;
}

abbrev down : Round (Session ℕ)
down = record { session = unreachable; stop_after = false; waited = timed_out }

abbrev up_until_stop : Round (Session ℕ)
up_until_stop = record {
  session = record unreachable { ending = closed };
  stop_after = false;
  waited = stop_set;
}

run_forever_ends_example :
    let l =
      run_forever ops rand network egress 1 false
        (down ∷ up_until_stop ∷ [])
        0
        (init_client false 0) in
    (is_running l.ended ≡ false)
    × (l.sessions ≤ rounds_to_stop (down ∷ up_until_stop ∷ []))
    × (l.client.app_open ≡ false)
    × (l.client.channels_open ≡ 0)
run_forever_ends_example =
    run_forever_ends ops rand network egress 1 false false (down ∷ up_until_stop ∷ []) 0 0 refl

run_forever_overflows_example :
    (run_forever ops rand network egress 1 false
      (down ∷ down ∷ down ∷ down ∷ [])
      0
      (init_client false 0)).ended
    ≡ raised overflow_error
run_forever_overflows_example =
    let each : IsUnreachable down = (refl, refl, refl, refl) in
    run_forever_overflows ops rand network egress 1 (down ∷ down ∷ down ∷ down ∷ []) 0
      (init_client false 0) 3 (each, (each, (each, (each, tt)))) (omega arith) refl
