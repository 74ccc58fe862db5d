-- ===== src/Lib.antt =====
-- The verification of bacnet-sim-gateway: a point list becomes the model of BACnet devices, which
-- the simulator serves on the network and the gateway connects to field protocols and to Building
-- OS.
--
-- The parts, in the order in which data passes through them, with the file that models each:
--   PointList      src/bbc_sim/yaml_generator/pointlist.py: rows of a CSV file as points.
--   Mapping        src/bbc_sim/yaml_generator/mapping.py: the BACnet object type of a point.
--   Units          src/bbc_sim/yaml_generator/units.py; Semantic: src/bbc_sim/semantic/brick.py.
--   Generator      src/bbc_sim/yaml_generator/generator.py: instance numbers and the config.
--   Validate       src/bbc_sim/yaml_generator/yaml_io.py: the two validators of a config.
--   Yaml           src/bbc_sim/yaml_generator/yaml_io.py: a config as a dict, and back; the files.
--   BacnetObjects  src/bbc_sim/bacnet_objects/builder.py: the objects of a config.
--   Runtime.App    src/bbc_sim/simulator_runtime/app.py: the handlers of BACnet requests.
--   Runtime.Lifecycle  src/bbc_sim/simulator_runtime/runtime.py: the start and the stop of a run.
--   Simulation     src/bbc_sim/simulation: faults, value generators and the engine that ticks them.
--   Southbound     src/bbc_sim/southbound: addresses, value transforms and the binding manager.
--                  Southbound.Transport is the in-memory transport and the factory.
--   Bows           src/bbc_sim/bows: acquisition, the point registry, control commands, telemetry.
--   Bows.Backoff, Bows.Reconnect, Bows.Downlink.Client, Bows.Uplink.Client  the gRPC clients of
--                  src/bbc_sim/bows and their loops.
--   Cli            src/bbc_sim/cli.py and src/bbc_sim/simulator_runtime/cli.py: the commands.
--   Bows.Runner    src/bbc_sim/bows/runner.py: the loop that polls and publishes.
--   Services       src/bbc_sim/services: the BACnet client and its commands.
--   Export         src/bbc_sim/export: the artifacts for other tools.
--   Rest.Status    src/bbc_sim/rest/status.py; Rest.Api: src/bbc_sim/rest/api.py, the endpoints.
--   Rest.Reload    src/bbc_sim/rest/reload.py: the reload of a config into the running device.
--   Observability  src/bbc_sim/observability/log_buffer.py: the ring buffer of log entries.
--   Models         src/bbc_sim/models.py: the dataclasses and enums that all of them share.
--   Common         lists, dictionaries, texts, results and equality; Tests: runs of the properties.
-- A definition has the name of the function that it models, without its leading underscore; fields
-- and enum members are in lower case with underscores. A function whose branches depend on a computed
-- value hands it to a helper by clauses, which has a name of its own.
--
-- How the parts interact. The generator makes a config from points, the validator accepts it, and
-- Yaml writes and reads it. The application takes the writable objects from the config, the binding
-- manager the objects that forward commands, the registry of Bows the point ids, and the engine the
-- generators; the reload replaces the objects of the config under the running application and
-- engine. The command line generates, validates and writes the config, and runs what was written.
-- The runner of Bows polls with the acquisition, which reads with the functions of Services.
--
-- How the program is modelled. A float is of a type `F` with the operations of `FloatOps`, which
-- are a parameter; where a property needs an order of floats, it is the record `FloatOrder`. A dict
-- is a list of pairs in insertion order, a set is a list or a function into lists. An exception is
-- an error value, and what was done to the state before it stays done. A message that a validator
-- or a warning shows is a constructor with the values in its text. `strip`, `lower` and `upper` are
-- those of ASCII text. Setting the value of a BACnet object, from a REST call, a telemetry message or
-- a tick of the engine, is a parameter that may raise; resetting one when a fault is set or cleared
-- does not fail. A value of a YAML file in a place of another type than the annotated one is the error
-- `untyped`, since the dataclasses of the model are typed. The search of `_assign_instances` for a
-- free number takes one round more than there are used numbers, and `Generator.Search` shows that
-- it then ends by its own test. Every other loop is recursion on a list.
--
-- Outside: reading CSV, JSON and YAML text, the BACnet stack bacpypes3 (the base class of the
-- application is the record `Stack`, with the laws that a theorem needs in `StackLaws`), the BACnet
-- client application (`Network`; `write`, `Client`), random numbers and the sine (`Randomness`),
-- powers of floats, time stamps, logging, gRPC, HTTP, the assignment to a BACnet object (`assign`) and
-- the asyncio tasks that connect the parts. What the environment does in the
-- loops of Bows is a list of rounds; a list that ends leaves the loop running. Not modelled, since
-- it is I/O over third-party libraries: the transports of MQTT, ZeroMQ and AMQP, the command line
-- of Bows, the web pages and the code that protoc generates.
pub mod Common
pub mod Models
pub mod PointList
pub mod Units
pub mod Mapping
pub mod Generator
pub mod Semantic
pub mod Validate
pub mod Yaml
pub mod Observability
pub mod Simulation
pub mod Bows
pub mod Cli
pub mod Services
pub mod Export
pub mod Runtime
pub mod BacnetObjects
pub mod Southbound
pub mod Rest
pub mod Tests
