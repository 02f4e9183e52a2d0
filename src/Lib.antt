-- ===== src/Lib.antt =====
-- Verification of the Rust SDK of the Neural Protocol Suite (NPS): models of the crates' core logic,
-- translated function by function from the source, and the theorems about them.
--
-- How the parts interact. nps-core gives every protocol its frames: a header of four or eight
-- bytes, a payload in one of three tiers, a registry of the types that a codec accepts, and a cache
-- of schemas under content addresses. nps-ncp opens a native connection: the client writes a
-- preamble and a Hello frame, the server admits them and negotiates, and both ends then hold one
-- encoding policy; a connector repeats this across an Anchor failover. nps-ndp is the registry of
-- announced nodes, which names the active Anchor of a cluster; its registry profile admits signed
-- announcements by their sequence numbers. nps-nwp's Anchor fences itself off when a frame shows it
-- a newer epoch. nps-nop validates a task's graph of nodes and sorts it, evaluates the conditions of
-- nodes on the results of those before them, maps these results to parameters and merges the last;
-- the orchestrator runs the graph with retries, cuts it off when no end can succeed, and compensates.
--
-- Files.
--   Common: Boolean tests, lists, maps with text keys (`HashMap`), `Result` with `?`, text.
--   Core/Error, Core/Frames, Core/Registry, Core/Cache, Core/Codec: nps-core/src/error.rs, frames.rs,
--     registry.rs, cache.rs, codec.rs. Core/Json: the shape of serde_json's values.
--     Core/Codec/Stored: which of these the formats read back.
--   Ncp/Preamble, Ncp/Version, Ncp/Handshake: nps-ncp/src/preamble.rs, handshake_profile.rs.
--   Ncp/Encoding: encoding_policy.rs, and the policies that transport.rs derives. Ncp/Failover:
--     failover.rs.
--   Ndp/Registry: nps-ndp/src/registry.rs. Ndp/Profile: nps-ndp/src/registry_profile.rs.
--   Nwp/AnchorFence: nps-nwp/src/anchor_fence.rs.
--   Nop/Models: nps-nop/src/orch_models.rs, constants.rs. Nop/Dag, Nop/CallbackUrl:
--     validation.rs.
--   Nop/InputMapper, Nop/Aggregator: input_mapper.rs, aggregator.rs. Nop/Condition: condition.rs, with
--     its tokenizer in Nop/Condition/Tokens and its grammar as data in Nop/Condition/Grammar.
--   Nop/Store: store.rs, and the task's frames of orch_models.rs. Nop/Node: one node's run in
--     orchestrator.rs. Nop/Orchestrator: run_dag, with its tests in Readiness, compensation in Saga,
--     the loop in Execution, and execute in Lifecycle.
--   A child named Laws or after a theme holds proofs; Examples holds runs on concrete inputs.
--
-- Conventions. A Rust function keeps its name, a method takes its object first and returns the new
-- object where it changes it. `NpsResult` is `Result NpsError`, and the text of an error is the list
-- of the pieces that `format!` joins. A byte is a number below 256 and a wire a list of bytes; `as
-- u16` and `as u32` keep the low bits; lengths are numbers without bound, since `usize` has 64 bits.
-- A clock's reading is an argument. A `HashMap` is an association list without a key twice; where the
-- source iterates over one, the list's order stands for the unspecified order. A JSON object is a list
-- of fields in the order of the keys, as serde_json's map is a `BTreeMap` here. What closures observe
-- and change is a state that they thread, as for the failover connector.
--
-- Taken from outside as parameters: serde_json, rmp_serde, floats (`Serde`, with what they promise in
-- `NumberLaws`, `MsgpackLaws` and `JsonLaws`), printing, times and hash of an announcement (`ProfileOps`), the digest of a schema
-- and the last reading of the clock (`SchemaOps`), resolver and connection of the failover connector, the floats of a condition
-- (`Numbers`) and the classes of characters beyond ASCII (`CharClass`), and the worker, the clock, the
-- identifiers and the scheduler of the orchestrator (`Surroundings`, `Orchestrator`), the answers to
-- its preflight, and the parser of IP addresses. Bounds: the limit of a codec and a payload's length
-- are below 2^32 where a theorem says so, since the header's field has 32 bits. The formats are relied
-- on only for values that they do read back (`is_stored` of Core/Codec/Stored): `from_slice` reads
-- containers nested up to 127 deep, where `to_vec` writes any; and the text of an `f64` in JSON may be
-- read as a neighbour, since the feature `float_roundtrip` is off.
--
-- Fuel: the sort of a graph makes as many rounds as there are nodes, the tokenizer as many as there
-- are characters, and the parser of conditions may nest six calls for each token, and six more. The
-- run of a graph has a round for each node, and its search one for each edge and one more. Each is
-- enough, as theorems below show; the other loops are structural or count down as the source does.
--
-- Not modelled: sockets, HTTP servers and clients, SQL, cryptography and the JSON shapes of single
-- frames.
pub mod Common
pub mod Core
pub mod Ncp
pub mod Ndp
pub mod Nop
pub mod Nwp
