-- ===== src/Southbound/Address.antt =====
-- src/bbc_sim/southbound/address.py, and `channels` of binding.py.
use Prim.Native.Char.{code}
use bacnet_sim_gateway.Common.{
  nat_eq, String, string_eq, ◌<>◌, Option, none, some, ◌==◌, if◌then◌else◌,
}
use bacnet_sim_gateway.Common.Text.{is_blank, strip}
use bacnet_sim_gateway.Models.{get_field, FloatOps, str_value, BindingSpec, BacnetObjectSpec}
use bacnet_sim_gateway.Yaml.{is_true}

-- `text.rstrip("/")`
unfoldable pub rstrip_slash : String → String
rstrip_slash String.[] = String.[]
rstrip_slash (String.◌∷◌ c s) =
    let rest = rstrip_slash s in
    if is_blank rest
    then (if code c == 47 then String.[] else String.◌∷◌ c String.[])
    else String.◌∷◌ c rest

-- `spec.binding and spec.binding.address`, if it is a text that is not empty
unfoldable pub explicit_address : {F : Type 0} → Option (BindingSpec F) → Option String
explicit_address none = none
explicit_address (some b) = elim b.address [
  | none ↦ none
  | some a ↦ if is_blank a then none else some a
]

module _ {F : Type 0} (fl : FloatOps F) where
  -- `spec.metadata.get(k) or default` in a text
  unfoldable pub metadata_or : String → String → BacnetObjectSpec F → String
  metadata_or k default spec = elim (get_field k spec.metadata) [
    | none ↦ default
    | some v ↦ if is_true fl v then str_value fl v else default
  ]

  unfoldable pub derive_address : BacnetObjectSpec F → String
  derive_address spec = elim (explicit_address spec.binding) [
    | some a ↦ a
    | none ↦
        let local_id = strip (metadata_or "local_id" "" spec) in
        if is_blank local_id
        then metadata_or "building" "_" spec
          <> "/"
          <> metadata_or "device_id" "_" spec
          <> "/"
          <> spec.point_id
        else local_id
  ]

  unfoldable pub topic_base : BacnetObjectSpec F → String
  topic_base spec = elim (explicit_address spec.binding) [
    | some a ↦ rstrip_slash a
    | none ↦
        "building/"
        <> metadata_or "building" "_" spec
        <> "/device/"
        <> metadata_or "device_id" "_" spec
        <> "/point/"
        <> spec.point_id
  ]

  unfoldable pub mqtt_topics : BacnetObjectSpec F → String × String
  mqtt_topics spec = (topic_base spec <> "/telemetry", topic_base spec <> "/command")

  -- the telemetry and the command channel
  unfoldable pub channels : BacnetObjectSpec F → String × String
  channels spec =
      let plain : String × String =
        (derive_address spec <> "/telemetry", derive_address spec <> "/command") in
      elim spec.binding [
        | none ↦ plain
        | some b ↦ if b.protocol == "mqtt" then mqtt_topics spec else plain
      ]
