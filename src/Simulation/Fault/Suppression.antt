-- ===== src/Simulation/Fault/Suppression.antt =====
-- Which objects the engine leaves alone.
use bacnet_sim_gateway.Common.{
  string_eq, int_eq, pair_eq, Bool, true, false, ◌||◌, Option, List, [], ◌∷◌, ◌==◌, if◌then◌else◌,
  ◌≡◌, refl, ap, arith, Option-cases, Bool-cases, inl, inr, ◌∙◌,
}
use bacnet_sim_gateway.Common.Dict.{lookup, insert, lookup-insert}
use bacnet_sim_gateway.Models.{Value, FloatOps}
use bacnet_sim_gateway.Runtime.App.{Oid}
use bacnet_sim_gateway.Simulation.Fault.Defs.{
  FaultType, FaultState, LiveObject, States, fault_state, is_suppressed, next_state, apply,
  apply_all,
}

-- what a fault on the object makes of its suppression
abbrev pub suppression : FaultType → Bool → Bool
suppression FaultType.clear b = false
suppression FaultType.freeze b = true
suppression FaultType.comm_loss b = true
suppression _ b = b

-- was the object frozen, or its communication lost, since its last clear? `b` is the answer so far
abbrev pub since_clear :
    {F : Type 0} → Oid → List (FaultType × (Option (Value F) × LiveObject F)) → Bool → Bool
since_clear key [] b = b
since_clear key ((f, (value, o)) ∷ faults) b =
    since_clear key faults (if key == o.object_identifier then suppression f b else b)

next_state-suppression :
    (f : FaultType) (fs : FaultState)
    → ((next_state f fs).frozen || (next_state f fs).comm_loss)
      ≡ suppression f (fs.frozen || fs.comm_loss)
unfolding next_state
next_state-suppression FaultType.comm_loss fs = ground arith
next_state-suppression _ fs = refl

is_suppressed-fault_state :
    (key : Oid) (states : States)
    → is_suppressed key states
      ≡ ((fault_state key states).frozen || (fault_state key states).comm_loss)
unfolding is_suppressed fault_state
is_suppressed-fault_state key states = elim (Option-cases (lookup key states)) [
  | inl missing ↦ rw (missing, is_suppressed)
  | inr (fs, found) ↦ rw (found, is_suppressed)
]

is_suppressed-insert :
    (key k : Oid) (fs : FaultState) (states : States)
    → is_suppressed key (insert k fs states)
      ≡ (if key == k then fs.frozen || fs.comm_loss else is_suppressed key states)
unfolding is_suppressed
is_suppressed-insert key k fs states = elim (Bool-cases (key == k)) [
  | inl same ↦ rw (lookup-insert key k fs states, same, is_suppressed)
  | inr other ↦ rw (lookup-insert key k fs states, other, is_suppressed)
]

module _ {F : Type 0} (fl : FloatOps F) where
  is_suppressed-apply :
      (key : Oid) (f : FaultType) (value : Option (Value F)) (o : LiveObject F) (states : States)
      → is_suppressed key (apply fl f value o states).1 ≡ (
          if key == o.object_identifier
          then suppression f (is_suppressed key states)
          else is_suppressed key states)
  unfolding apply
  is_suppressed-apply key f value o states =
      let inserted =
        is_suppressed-insert key o.object_identifier
          (next_state f (fault_state o.object_identifier states)) states in
      elim (Bool-cases (key == o.object_identifier)) [
        | inl same ↦
            let equal = (pair_eq.decides key o.object_identifier).0 same in
            let now = next_state-suppression f (fault_state o.object_identifier states) in
            let before = is_suppressed-fault_state key states in
            rw (inserted, same, now, before, equal)
        | inr other ↦ rw (inserted, other)
      ]

  -- After any faults on any objects, an object is suppressed exactly if, since the last clear of that
  -- object, it was frozen or its communication was lost; without a clear, if it was so before.
  pub is_suppressed-since_clear :
      (key : Oid) (faults : List (FaultType × (Option (Value F) × LiveObject F))) (states : States)
      → is_suppressed key (apply_all fl faults states)
        ≡ since_clear key faults (is_suppressed key states)
  unfolding apply_all
  is_suppressed-since_clear key [] states = refl
  is_suppressed-since_clear key ((f, (value, o)) ∷ faults) states =
      is_suppressed-since_clear key faults (apply fl f value o states).1
      ∙ ap (since_clear key faults) (is_suppressed-apply key f value o states)
