-- ===== src/Tests/Artifacts.antt =====
-- The properties of the exported artifacts at the sample config.
use bacnet_sim_gateway.Common.{
  string_eq, ℤ, int_eq, pair_eq, true, not, some, [], contains, ◌≡◌, refl, inl, inr,
}
use bacnet_sim_gateway.Common.Dict.{lookup}
use bacnet_sim_gateway.Models.{analog_value}
use bacnet_sim_gateway.Runtime.App.{oid_key, compute_writable_oids}
use bacnet_sim_gateway.Export.{Property, to_jsonld, to_wot_td}
use bacnet_sim_gateway.Export.Links.{IsLinked, to_jsonld-IsLinked}
use bacnet_sim_gateway.Export.Things.{to_wot_td-compute_writable_oids}
use bacnet_sim_gateway.Tests.Gateway.{config_valid}
use bacnet_sim_gateway.Tests.Samples.{ops, config, spec}

to_jsonld-IsLinked_example : IsLinked (to_jsonld ops config)
to_jsonld-IsLinked_example = to_jsonld-IsLinked ops config

to_wot_td-compute_writable_oids_example :
    (p : Property) × (lookup "set" (to_wot_td ops config).properties ≡ some p)
    × (p.read_only
        ≡ not (
            contains
              (compute_writable_oids config)
              (oid_key (spec "set" analog_value (ℤ.pos 1) [] true))))
to_wot_td-compute_writable_oids_example =
    to_wot_td-compute_writable_oids ops config (spec "set" analog_value (ℤ.pos 1) [] true)
      config_valid (inr (inl refl))
