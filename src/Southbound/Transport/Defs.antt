-- ===== src/Southbound/Transport/Defs.antt =====
-- `InMemoryTransport`. A handler acts on the state `S` of its owner; an exception leaves the loop
-- over the handlers.
use bacnet_sim_gateway.Common.{
  String, string_eq, Bool, true, false, List, [], ◌∷◌, ◌++◌, Result, ok, raise,
}
use bacnet_sim_gateway.Common.Dict.{Dict, lookup, insert}
use bacnet_sim_gateway.Semantic.{get_or}

abbrev pub Handler : Type 0 → Type 0 → Type 0
Handler P S = String → P → S → Result String (Unit {0}) × S

pub record InMemoryTransport (P S : Type 0) : Type 0 where
  pub subs : Dict String (List (Handler P S))
  pub published : List (String × P)
  pub started : Bool

module _ {S : Type 0} where
  -- the rest of the handlers, if the one before returned
  unfoldable pub and_deliver :
      Result String (Unit {0}) × S
      → (S → Result String (Unit {0}) × S)
      → Result String (Unit {0}) × S
  and_deliver (raise e, s) rest = (raise e, s)
  and_deliver (ok _, s) rest = rest s

module _ {P S : Type 0} where
  unfoldable pub new_transport : InMemoryTransport P S
  new_transport = record { subs = []; published = []; started = false }

  unfoldable pub start_transport : InMemoryTransport P S → InMemoryTransport P S
  start_transport t = record t { started = true }

  unfoldable pub stop_transport : InMemoryTransport P S → InMemoryTransport P S
  stop_transport t = record t { started = false }

  unfoldable pub handlers_of : String → InMemoryTransport P S → List (Handler P S)
  handlers_of channel t = get_or (lookup channel t.subs) []

  unfoldable pub subscribe : String → Handler P S → InMemoryTransport P S → InMemoryTransport P S
  subscribe channel handler t = record t {
    subs = insert channel (handlers_of channel t ++ handler ∷ []) t.subs;
  }

  -- `for handler in …: await handler(channel, payload)`
  unfoldable pub deliver : List (Handler P S) → String → P → S → Result String (Unit {0}) × S
  deliver [] channel payload s = (ok tt, s)
  deliver (handler ∷ handlers) channel payload s =
      and_deliver (handler channel payload s) (λ after. deliver handlers channel payload after)

  unfoldable pub feed : String → P → InMemoryTransport P S → S → Result String (Unit {0}) × S
  feed channel payload t s = deliver (handlers_of channel t) channel payload s

  unfoldable pub publish :
      String
      → P
      → InMemoryTransport P S
      → S
      → Result String (Unit {0}) × (InMemoryTransport P S × S)
  publish channel payload t s =
      let told = deliver (handlers_of channel t) channel payload s in
      (told.0, (record t { published = t.published ++ (channel, payload) ∷ [] }, told.1))
