-- ===== src/Services/Defs.antt =====
-- src/bbc_sim/services/client.py. The client application of bacpypes3 is the record `Network`, whose
-- calls act on the state `S` of the network and may raise.
use bacnet_sim_gateway.Common.{
  String, string_eq, ◌<>◌, ℤ, Bool, Option, none, List, [], ◌∷◌, map, Result, ok, raise,
}
use bacnet_sim_gateway.Common.Dict.{Dict, insert}
use bacnet_sim_gateway.Models.{Value, FloatOps, ConversionError, float_value}
use bacnet_sim_gateway.Bows.Acquire.{Client, Answer}

-- an element of the answer to ReadPropertyMultiple: one without a fourth item, one with an
-- ErrorType, or a value, where `Value.null` is None
pub data RpmResult (F : Type 0) : Type 0 where
  no_value : RpmResult F
  error_type : RpmResult F
  with_value : Value F → RpmResult F

pub record CovSubscription : Type 0 where
  pub object_id : String
  pub process_id : ℤ
  pub confirmed : Bool
  pub lifetime : ℤ

-- the requests that are built by hand: each write is a real
pub data ClientRequest (F : Type 0) : Type 0 where
  write_multiple_request : List (String × String × F) → ClientRequest F
  subscribe_request : CovSubscription → ClientRequest F

pub record Network (F S : Type 0) : Type 0 where
  pub who_is : Option ℤ → Option ℤ → S → Answer S (List (ℤ × String))
  pub read_value : String → String → S → Answer S (Value F)
  pub read_list : String → String → S → Answer S (List (String × ℤ))
  pub read_multiple : List (String × List String) → S → Answer S (List (RpmResult F))
  pub write_value : String → String → Value F → Option ℤ → S → Answer S Unit
  pub request : ClientRequest F → S → Answer S Unit

abbrev pub present_value_name : String
present_value_name = "present-value"

-- a call, and what is done with its value
abbrev pub map_answer : {S A B : Type 0} → (A → B) → Answer S A → Answer S B
map_answer f (ok a, s) = (ok (f a), s)
map_answer f (raise e, s) = (raise e, s)

-- `args`, a pair for each object
unfoldable pub multiple_args : List String → List (String × List String)
multiple_args [] = []
multiple_args (objid ∷ objids) = (objid, present_value_name ∷ []) ∷ multiple_args objids

module _ {F : Type 0} where
  unfoldable pub collect_one : String → RpmResult F → Dict String (Value F) → Dict String (Value F)
  collect_one objid (with_value Value.null) out = out
  collect_one objid (with_value v) out = insert objid v out
  collect_one objid no_value out = out
  collect_one objid error_type out = out

  -- the loop over `zip(objids, results)`
  unfoldable pub collect :
      List String → List (RpmResult F) → Dict String (Value F) → Dict String (Value F)
  collect [] results out = out
  collect (objid ∷ objids) [] out = out
  collect (objid ∷ objids) (r ∷ results) out = collect objids results (collect_one objid r out)

module _ {F : Type 0} (fl : FloatOps F) where
  -- `Real(float(value))` of each write, in order
  unfoldable pub write_specs :
      String → List (String × Value F) → Result ConversionError (List (String × String × F))
  write_specs prop [] = ok []
  write_specs prop ((objid, value) ∷ writes) =
      let rest = write_specs prop writes in
      elim (float_value fl value) [
        | raise e ↦ raise e
        | ok x ↦ elim rest [ raise e ↦ raise e | ok specs ↦ ok ((objid, prop, x) ∷ specs) ]
      ]

unfoldable pub error_name : ConversionError → String
error_name ConversionError.bad_value = "ValueError"
error_name ConversionError.bad_type = "TypeError"
error_name ConversionError.overflow = "OverflowError"

module _ {F S : Type 0} (net : Network F S) where
  unfoldable pub whois : Option ℤ → Option ℤ → S → Answer S (List (ℤ × String))
  whois low high s = net.who_is low high s

  unfoldable pub read_property : String → String → S → Answer S (Value F)
  read_property objid prop s = net.read_value objid prop s

  unfoldable pub read_property_multiple : String → List String → S → Answer S (List (RpmResult F))
  read_property_multiple objid props s = net.read_multiple ((objid, props) ∷ []) s

  unfoldable pub read_present_values : List String → S → Answer S (Dict String (Value F))
  read_present_values [] s = (ok [], s)
  read_present_values (objid ∷ objids) s =
      map_answer (λ results. collect (objid ∷ objids) results [])
        (net.read_multiple (multiple_args (objid ∷ objids)) s)

  unfoldable pub write_property : String → Value F → String → Option ℤ → S → Answer S Unit
  write_property objid value prop priority s = net.write_value objid prop value priority s

  unfoldable pub send_specs :
      Result ConversionError (List (String × String × F)) → S → Answer S Unit
  send_specs (raise e) s = (raise (error_name e), s)
  send_specs (ok specs) s = net.request (write_multiple_request specs) s

  -- every value is converted before the request is sent
  unfoldable pub write_property_multiple :
      FloatOps F → List (String × Value F) → String → S → Answer S Unit
  write_property_multiple fl writes prop s = send_specs (write_specs fl prop writes) s

  unfoldable pub subscribe_cov : String → ℤ → Bool → ℤ → S → Answer S Unit
  subscribe_cov objid process_id confirmed lifetime s =
      net.request
        (subscribe_request (record {
          object_id = objid;
          process_id = process_id;
          confirmed = confirmed;
          lifetime = lifetime;
        }))
        s

-- the identifier of an object as a text
abbrev pub identifier_text : (ℤ → String) → String × ℤ → String
identifier_text show (type_str, inst) = type_str <> "," <> show inst

module _ {F S : Type 0} (net : Network F S) (show : ℤ → String) where
  unfoldable pub read_object_list : ℤ → S → Answer S (List (String × ℤ))
  read_object_list device s = net.read_list ("device," <> show device) "object-list" s

  unfoldable pub list_found : Answer S (List (ℤ × String)) → Answer S (List String)
  list_found (raise e, s) = (raise e, s)
  list_found (ok [], s) = (ok [], s)
  list_found (ok ((device, address) ∷ found), s) =
      map_answer (map (identifier_text show)) (read_object_list device s)

  unfoldable pub list_objects : S → Answer S (List String)
  list_objects s = list_found (whois net none none s)

  -- the functions that the acquisition uses
  unfoldable pub client_of : Client F S
  client_of = record {
    whois = λ s. map_answer (map (λ iam. iam.0)) (whois net none none s);
    read_object_list = read_object_list;
    read_present_values = read_present_values net;
    read_present_value = λ objid s. read_property net objid present_value_name s;
  }
