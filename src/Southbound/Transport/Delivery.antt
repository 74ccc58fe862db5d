-- ===== src/Southbound/Transport/Delivery.antt =====
-- The manager of src/bbc_sim/southbound/binding.py on the transport of transport.py: which objects a
-- message reaches.
use mathlib.Core.List.{append_assoc, append-nil}
use bacnet_sim_gateway.Common.{
  String, string_eq, int_eq, pair_eq, Bool, false, ◌&&◌, Option, none, some, List, [], ◌∷◌, ◌++◌,
  map, ok, ◌==◌, ◌≡◌, refl, sym, ◌∙◌, ap, arith, Bool-cases, inl, inr, if◌then◌else◌,
}
use bacnet_sim_gateway.Common.Dict.{Dict, lookup, lookup-insert}
use bacnet_sim_gateway.Models.{Value, FloatOps, BindingSpec, BacnetObjectSpec, SimulatorConfig}
use bacnet_sim_gateway.Runtime.App.{Oid, oid_key}
use bacnet_sim_gateway.Simulation.Fault.{LiveObject}
use bacnet_sim_gateway.Southbound.Address.{channels}
use bacnet_sim_gateway.Southbound.Transform.{telemetry_to_present_value}
use bacnet_sim_gateway.Southbound.Binding.{
  Assign, Manager, new_manager, takes_telemetry, bind, bind_spec, bind_all, start, handler,
}
use bacnet_sim_gateway.Southbound.Telemetry.{receive, handler-receive}
use bacnet_sim_gateway.Southbound.Transport.Defs.{
  Handler, InMemoryTransport, new_transport, handlers_of, subscribe, and_deliver, deliver, feed,
}

-- the state that the handlers of a manager act on
abbrev pub Live : Type 0 → Type 0
Live F = Manager F × Dict Oid (LiveObject F)

module _ {P S : Type 0} where
  handlers_of-subscribe :
      (channel c : String) (h : Handler P S) (t : InMemoryTransport P S)
      → handlers_of channel (subscribe c h t)
        ≡ (if channel == c then handlers_of channel t ++ h ∷ [] else handlers_of channel t)
  unfolding handlers_of subscribe
  handlers_of-subscribe channel c h t = elim (Bool-cases (channel == c)) [
    | inl same ↦
        let equal : channel ≡ c = (string_eq.decides channel c).0 same in
        rw (lookup-insert channel c (handlers_of c t ++ h ∷ []) t.subs, same, equal) refl
    | inr other ↦ rw (lookup-insert channel c (handlers_of c t ++ h ∷ []) t.subs, other) refl
  ]

module _ {F E : Type 0} (fl : FloatOps F) (assign : Assign F E) (loads : String → Option (Value F))
    (now : F) where
  -- `self._telemetry_handler(spec)`
  unfoldable pub telemetry_handler : BacnetObjectSpec F → Handler (Option String) (Live F)
  telemetry_handler spec channel payload s =
      (ok tt, handler fl assign loads spec payload now s.0 s.1)

  -- the subscriptions of `start`, on the transport
  unfoldable pub subscribe_all :
      List (String × BacnetObjectSpec F)
      → InMemoryTransport (Option String) (Live F)
      → InMemoryTransport (Option String) (Live F)
  subscribe_all [] t = t
  subscribe_all ((channel, spec) ∷ subs) t =
      subscribe_all subs (subscribe channel (telemetry_handler spec) t)

  unfoldable pub start_on :
      SimulatorConfig F
      → InMemoryTransport (Option String) (Live F)
      → InMemoryTransport (Option String) (Live F)
  start_on config t = subscribe_all (start fl config).0.subscriptions t

  -- the specs of the subscriptions to a channel
  on_channel : String → List (String × BacnetObjectSpec F) → List (BacnetObjectSpec F)
  on_channel channel [] = []
  on_channel channel ((c, spec) ∷ subs) =
      let rest = on_channel channel subs in if channel == c then spec ∷ rest else rest

  handlers_of-subscribe_all :
      (channel : String) (subs : List (String × BacnetObjectSpec F))
      (t : InMemoryTransport (Option String) (Live F))
      → handlers_of channel (subscribe_all subs t)
        ≡ handlers_of channel t ++ map telemetry_handler (on_channel channel subs)
  unfolding subscribe_all on_channel
  handlers_of-subscribe_all channel [] t = sym (append-nil _)
  handlers_of-subscribe_all channel ((c, spec) ∷ subs) t =
      let rest = handlers_of-subscribe_all channel subs (subscribe c (telemetry_handler spec) t) in
      let first = handlers_of-subscribe channel c (telemetry_handler spec) t in
      elim (Bool-cases (channel == c)) [
        | inl same ↦ rest ∙ rw (first, same) (append_assoc (handlers_of channel t) _ _)
        | inr other ↦ rest ∙ rw (first, other) refl
      ]

  -- is telemetry of the channel for the object?
  abbrev pub listens : String → BacnetObjectSpec F → Option (BindingSpec F) → Bool
  listens channel spec none = false
  listens channel spec (some b) = takes_telemetry b.direction && channel == (channels fl spec).0

  abbrev pub listeners : String → List (BacnetObjectSpec F) → List (BacnetObjectSpec F)
  listeners channel [] = []
  listeners channel (spec ∷ specs) =
      let rest = listeners channel specs in
      if listens channel spec spec.binding then spec ∷ rest else rest

  on_channel-append :
      (channel : String) (xs ys : List (String × BacnetObjectSpec F))
      → on_channel channel (xs ++ ys) ≡ on_channel channel xs ++ on_channel channel ys
  unfolding on_channel
  on_channel-append channel [] ys = refl
  on_channel-append channel ((c, spec) ∷ xs) ys = ground (arith, on_channel-append channel xs ys)

  bind_spec-on_channel :
      (channel : String) (spec : BacnetObjectSpec F) (b : Option (BindingSpec F)) (m : Manager F)
      → on_channel channel (bind_spec fl spec b m).subscriptions
        ≡ on_channel channel m.subscriptions ++ (if listens channel spec b then spec ∷ [] else [])
  unfolding bind_spec bind on_channel
  bind_spec-on_channel channel spec none m = sym (append-nil _)
  bind_spec-on_channel channel spec (some b) m = elim (Bool-cases (takes_telemetry b.direction)) [
    | inl takes ↦ rw (takes, on_channel-append channel m.subscriptions) refl
    | inr none_taken ↦ rw none_taken (sym (append-nil _))
  ]

  bind_all-on_channel :
      (channel : String) (specs : List (BacnetObjectSpec F)) (m : Manager F)
      → on_channel channel (bind_all fl specs m).subscriptions
        ≡ on_channel channel m.subscriptions ++ listeners channel specs
  unfolding bind_all
  bind_all-on_channel channel [] m = sym (append-nil _)
  bind_all-on_channel channel (spec ∷ specs) m =
      let rest = bind_all-on_channel channel specs (bind_spec fl spec spec.binding m) in
      let first = bind_spec-on_channel channel spec spec.binding m in
      elim (Bool-cases (listens channel spec spec.binding)) [
        | inl hears ↦
            rest ∙ rw (first, hears) (append_assoc (on_channel channel m.subscriptions) _ _)
        | inr deaf ↦ rest ∙ rw (first, deaf, append-nil) refl
      ]

  -- an object after the message, by the specs of the object in their order
  abbrev pub receive_all :
      Oid
      → Option String
      → List (BacnetObjectSpec F)
      → Option (LiveObject F)
      → Option (LiveObject F)
  receive_all q payload [] o = o
  receive_all q payload (spec ∷ specs) o = receive_all q payload specs (
      if q == oid_key spec
      then receive assign o (telemetry_to_present_value fl loads spec payload)
      else o)

  deliver_all :
      (q : Oid) (channel : String) (payload : Option String) (specs : List (BacnetObjectSpec F))
      (s : Live F)
      → ((deliver (map telemetry_handler specs) channel payload s).0 ≡ ok tt)
        × (lookup q (deliver (map telemetry_handler specs) channel payload s).1.1
            ≡ receive_all q payload specs (lookup q s.1))
  unfolding deliver and_deliver telemetry_handler
  deliver_all q channel payload [] s = (refl, refl)
  deliver_all q channel payload (spec ∷ specs) s =
      let after = handler fl assign loads spec payload now s.0 s.1 in
      let rest = deliver_all q channel payload specs after in
      let first = handler-receive fl assign loads spec payload now s.0 s.1 q in
      (rest.0, rest.1 ∙ ap (receive_all q payload specs) first)

  handlers_of-start_on :
      (config : SimulatorConfig F) (channel : String)
      → handlers_of channel (start_on config new_transport)
        ≡ map telemetry_handler (listeners channel config.objects)
  unfolding start_on start handlers_of new_transport lookup on_channel
  handlers_of-start_on config channel =
      handlers_of-subscribe_all channel (start fl config).0.subscriptions new_transport
      ∙ ap (map telemetry_handler) (bind_all-on_channel channel config.objects new_manager)

  -- After the manager has started on a new transport, a message on a channel is handled without an
  -- error, and each object goes through the specs of its own whose binding takes telemetry from that
  -- channel, in the order of the config: what the mapping makes of the payload is assigned to it, if
  -- the payload converts and the object takes the value; no other object changes.
  pub feed-start_on :
      (config : SimulatorConfig F) (channel : String) (payload : Option String) (s : Live F)
      (q : Oid)
      → ((feed channel payload (start_on config new_transport) s).0 ≡ ok tt)
        × (lookup q (feed channel payload (start_on config new_transport) s).1.1
            ≡ receive_all q payload (listeners channel config.objects) (lookup q s.1))
  unfolding feed
  feed-start_on config channel payload s q =
      rw (handlers_of-start_on config channel)
        (deliver_all q channel payload (listeners channel config.objects) s)
