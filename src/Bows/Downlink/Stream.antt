-- ===== src/Bows/Downlink/Stream.antt =====
-- The results that the pump yields answer the commands in order.
use bacnet_sim_gateway.Common.{
  String, none, List, [], ◌∷◌, ◌++◌, Result, ok, raise, ◌≡◌, refl, arith,
}
use bacnet_sim_gateway.Models.{FloatOps}
use bacnet_sim_gateway.Bows.Registry.{PointRegistry}
use bacnet_sim_gateway.Bows.Downlink.Defs.{
  ControlCommand, ControlResult, WriteOutcome, Escape, WriteCall, execute_resolved, write_value,
  write_reply, execute, Pumped, pump_after, pump,
}

abbrev pub command_ids : {F : Type 0} → List (ControlCommand F) → List String
command_ids [] = []
command_ids (c ∷ commands) = c.control_id ∷ command_ids commands

abbrev pub result_ids : List ControlResult → List String
result_ids [] = []
result_ids (r ∷ results) = r.control_id ∷ result_ids results

-- the results answer the first commands, all of them if no exception ended the stream
abbrev pub Answers : {F S : Type 0} → List (ControlCommand F) → Pumped S → Type 0
Answers commands p =
    (unanswered : List String) × (result_ids p.results ++ unanswered ≡ command_ids commands)
    × (p.escape ≡ none → unanswered ≡ [])

module _ {F S : Type 0} (fl : FloatOps F) (write : WriteCall F → S → WriteOutcome × S)
    (registry : PointRegistry) where
  control_id-execute :
      (cmd : ControlCommand F) (s : S) (r : ControlResult)
      → (execute fl write registry cmd s).0 ≡ ok r
      → r.control_id ≡ cmd.control_id
  unfolding execute execute_resolved write_value write_reply
  control_id-execute cmd s r h = ground arith

  after-Answers :
      (cmd : ControlCommand F) (commands : List (ControlCommand F))
      (o : Result Escape ControlResult) (s : S) (rest : S → Pumped S)
      → ((r : ControlResult) → o ≡ ok r → r.control_id ≡ cmd.control_id)
      → Answers commands (rest s)
      → Answers (cmd ∷ commands) (pump_after o s rest)
  unfolding pump_after
  after-Answers cmd commands (raise e) s rest same (left, eq, whole) =
      (command_ids (cmd ∷ commands), refl, λ h. cc)
  after-Answers cmd commands (ok r) s rest same (left, eq, whole) =
      (left, rw (same r refl, eq), whole)

  -- Each result carries the id of its command, in the order of the commands; without an exception
  -- every command is answered.
  pub pump-Answers :
      (commands : List (ControlCommand F)) (s : S)
      → Answers commands (pump fl write registry commands s)
  unfolding pump
  pump-Answers [] s = ([], refl, λ h. refl)
  pump-Answers (cmd ∷ commands) s =
      after-Answers cmd commands _ _ (pump fl write registry commands) (control_id-execute cmd s)
        (pump-Answers commands _)
