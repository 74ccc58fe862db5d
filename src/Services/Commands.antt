-- ===== src/Services/Commands.antt =====
-- The commands of src/bbc_sim/services/cli.py but `read-property-multiple`. A command opens a client, and closes it whatever happens.
use bacnet_sim_gateway.Common.{
  ℕ, suc, ◌-◌, String, ℤ, Option, none, some, List, [], ◌∷◌, map, ok, raise, ◌≡◌, refl, arith,
}
use bacnet_sim_gateway.Models.{Value, FloatOps}
use bacnet_sim_gateway.Bows.Acquire.{Answer}
use bacnet_sim_gateway.Services.Defs.{
  Network, map_answer, whois, read_property, write_property, list_objects,
}

-- the lines that a command prints
pub data ClientLine (F : Type 0) : Type 0 where
  device_line : ℤ × String → ClientLine F
  no_devices : ClientLine F
  value_line : String → String → Value F → ClientLine F
  wrote_line : String → String → String → ClientLine F
  object_line : String → ClientLine F

-- the network, and the clients that are open
pub record Host (S : Type 0) : Type 0 where
  pub network : S
  pub open_clients : ℕ

module _ {S : Type 0} where
  -- the exit of the context manager
  unfoldable pub close_on_exit : {A : Type 0} → ℕ → Answer S A → Answer (Host S) A
  close_on_exit clients (outcome, s) = (outcome, record { network = s; open_clients = clients - 1 })

  unfoldable pub run_in : {A : Type 0} → (S → Answer S A) → ℕ → Answer S Unit → Answer (Host S) A
  run_in body clients (raise e, s) = (raise e, record { network = s; open_clients = clients })
  run_in body clients (ok _, s) = close_on_exit (suc clients) (body s)

  -- `async with client_app(local) as app: body`
  unfoldable pub client_app :
      {A : Type 0} → (S → Answer S Unit) → (S → Answer S A) → Host S → Answer (Host S) A
  client_app build body host = run_in body host.open_clients (build host.network)

module _ {F : Type 0} where
  unfoldable pub found_lines : List (ℤ × String) → List (ClientLine F)
  found_lines [] = no_devices ∷ []
  found_lines (d ∷ found) = map device_line (d ∷ found)

  -- `_coerce`: an int, a float, or the text
  unfoldable pub coerce_text : FloatOps F → String → Value F
  coerce_text fl value = elim (fl.parse_int value) [
    | some i ↦ Value.int i
    | none ↦ elim (fl.parse_float value) [ some x ↦ Value.real x | none ↦ Value.text value ]
  ]

module _ {F S : Type 0} (net : Network F S) (build : S → Answer S Unit) where
  abbrev pub Printed : Type 0
  Printed = Host S → Answer (Host S) (List (ClientLine F))

  unfoldable pub whois_cmd : Option ℤ → Option ℤ → Printed
  whois_cmd low high = client_app build (λ s. map_answer found_lines (whois net low high s))

  unfoldable pub read_property_cmd : String → String → Printed
  read_property_cmd objid prop =
      client_app build
        (λ s. map_answer (λ v. value_line objid prop v ∷ []) (read_property net objid prop s))

  unfoldable pub write_property_cmd : FloatOps F → String → String → String → Printed
  write_property_cmd fl objid value prop = client_app build (λ s.
      map_answer (λ done. wrote_line objid prop value ∷ [])
        (write_property net objid (coerce_text fl value) prop none s))

  unfoldable pub list_objects_cmd : (ℤ → String) → Printed
  list_objects_cmd show =
      client_app build (λ s. map_answer (map object_line) (list_objects net show s))

module _ {S A : Type 0} where
  run_in_closes :
      (body : S → Answer S A) (clients : ℕ) (built : Answer S Unit)
      → (run_in body clients built).1.open_clients ≡ clients
  unfolding run_in close_on_exit
  run_in_closes body clients (raise e, s) = refl
  run_in_closes body clients (ok _, s) = omega arith

  pub client_app_closes :
      (build : S → Answer S Unit) (body : S → Answer S A) (host : Host S)
      → (client_app build body host).1.open_clients ≡ host.open_clients
  unfolding client_app
  client_app_closes build body host = run_in_closes body host.open_clients (build host.network)
