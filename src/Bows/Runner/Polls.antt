-- ===== src/Bows/Runner/Polls.antt =====
-- What a poll publishes.
use bacnet_sim_gateway.Common.{
  String, ℤ, true, false, List, [], ◌∷◌, is_empty, ok, raise, ◌≡◌, refl, arith,
}
use bacnet_sim_gateway.Models.{FloatOps}
use bacnet_sim_gateway.Services.{Network, client_of}
use bacnet_sim_gateway.Services.Hybrid.{Values, plain_readings, IsDevice, acquire-plain_readings}
use bacnet_sim_gateway.Bows.Uplink.{Reading, encode_device_message}
use bacnet_sim_gateway.Bows.Acquire.{Answer, points_of}
use bacnet_sim_gateway.Bows.Runner.Defs.{
  BowsConfig, TransportOps, Runner, Messages, topic, Outcome, after_publish, publish_message,
  after_acquire, poll_once,
}

module _ {F S T N : Type 0} (fl : FloatOps F) (iso : N → String) (show : ℤ → String)
    (net : Network F S) (build : S → Answer S Unit) (ops : TransportOps (Messages F) T)
    (config : BowsConfig F) (device : ℤ) (objects : List (String × ℤ)) (values : Values F)
    (error : String → String) (dev : IsDevice net show device objects values error) where
  -- What a poll of a device with these readings does: without a reading, it publishes nothing; the
  -- message that encodes the readings goes to the topic of the config.
  abbrev pub Publishes : List (Reading F N) → N → Runner S T → Outcome S T (Messages F) → Type 0
  Publishes readings now r polled =
      (is_empty readings ≡ true → (polled.0 ≡ ok []) × (polled.1.transport ≡ r.transport))
      × ((message : Messages F)
          → is_empty readings ≡ false
          → encode_device_message fl iso config.device_id device readings now ≡ ok message
          → polled.1.transport ≡ (ops.publish (topic config) message r.transport).1)

  sent :
      (message : Messages F) (answer : Answer T Unit) (r : Runner S T)
      → (after_publish fl iso show
          (client_of net show)
          build
          ops
          config
          message
          answer
          r).1.transport
        ≡ answer.1
  unfolding after_publish
  sent message (ok _, t) r = refl
  sent message (raise e, t) r = refl

  after_acquire-Publishes :
      (now : N) (answer : Answer S (ℤ × List (Reading F N))) (readings : List (Reading F N))
      (r : Runner S T)
      → answer.0 ≡ ok (device, readings)
      → Publishes readings now r
          (after_acquire fl iso show (client_of net show) build ops config now answer r)
  unfolding after_acquire publish_message
  after_acquire-Publishes now (raise e, s) readings r h = absurd cc
  after_acquire-Publishes now (ok (d, []), s) readings r h =
      let same : readings ≡ [] = cc in
      rw same ((λ e. (refl, refl)), (λ m e encoded. absurd (ground arith)))
  after_acquire-Publishes now (ok (d, x ∷ xs), s) readings r h =
      let same : readings ≡ x ∷ xs = cc in
      let own : d ≡ device = cc in
      rw (same, own) ((λ e. absurd (ground arith)), (λ m e encoded. rw encoded (sent m _ _)))

  -- On a network whose answers come from one device and do not depend on the calls before, a poll
  -- publishes, on the topic of the config, the message that encodes a reading of each point that
  -- can be read, if there is one and the values can be encoded; it publishes nothing, and returns
  -- nothing, when no point can be read.
  pub poll_once-Publishes :
      (now : N) (r : Runner S T)
      → Publishes
          (plain_readings values (points_of show objects))
          now
          r
          (poll_once fl iso show (client_of net show) build ops config now r)
  unfolding poll_once
  poll_once-Publishes now r =
      after_acquire-Publishes now _ _ r
        (acquire-plain_readings net show device objects values error dev r.network)
