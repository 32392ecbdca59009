-- ===== src/Lib.antt =====
-- DockerLens reads a Docker Engine through an explicit Unix socket within fixed bounds, keeps the
-- protected answers as a capture, decodes captures, and plans inert targets against a catalog of
-- reviewed capabilities. This library models its pure parts and proves what they promise.
--
-- The parts, and the files that model them:
--
-- * src/observation.rs is Observation: local references, field paths, availability, origin, and decoded
--   fields. src/resource_support.rs is ResourceSupport: the meaning of memory and swap reports.
-- * src/version.rs is Version. Version/Capability and Version/Shape hold the closed enumerations
--   `Capability` and `NativeCapabilityShape`; Version/ShapeCapability is
--   `NativeCapabilityShape::capability` and Version/Required is `required_for`. Version/Facts has API
--   versions, releases, modes, builds and errors; Version/Identity has `TargetProfileIdentity::new` and
--   its range test; Version/Reference has `NativeEvidenceLane` and `NativeEvidenceReference::new`, and
--   Version/Reference/Url what the constructor accepts.
--   Version/Catalog is `TargetCapabilityCatalog`: the admission gate `from_records`, `resolve`,
--   `resolve_identity` and `supports`. Version/Observed is `DaemonFacts` and `ValidatedCapabilities`, with
--   Scope on the test on scopes, Accepted on what is validated, and Validated on what that gives. Below Version/Catalog, Tables relates capabilities and shapes, Sets is about
--   the sets that the gate builds, Admission states what the gate promises, and Resolve is about lookup.
-- * src/evidence.rs is Evidence: captured exchanges and `Capture::from_completed`.
-- * src/acquisition.rs is Acquisition. Acquisition/Limits is `Limits::validate`, and Acquisition/Budget
--   is `Budget`: `new`, `check_time`, `record_request`, `record_selection`, `record_expansion`,
--   `read_response`, `counts` and `into_capture`, each a function from a budget to its result and the
--   budget it leaves, on the error paths too. Below it, Steps has histories of calls, Accounting and
--   History are about counters and captures, Registry and References about the reference maps.
--   Acquisition/Api is `parse_api` and `negotiated_api`, with Text on version texts, Chosen on the choice
--   and Negotiated on the whole. Acquisition/Path is `encode_segment` and
--   `request_path`, with Safe on the bytes of a target, and Decode and Route as the other side of
--   encoding. Acquisition/Selection is `validate_selector` with the tests on names, Valid on these and Names on
--   selectors. Acquisition/Http is
--   `Wire::byte`, `line` and `exact` and the reading of a body at the end of `http_get`; Consumed is
--   about the bytes that it takes, and Encoded about chunked bodies as a peer writes them.
-- * src/decoder_mount_mode.rs is Decoder/MountMode, with the types that it takes from src/decoder.rs;
--   Meaning and Parse relate the loop over the tokens to what the tokens mean.
-- * src/target_modules is Target. Target/Network is network.rs, with Mask on the bits of an address,
--   Subnet on containment and Overlap on overlaps and usable hosts. Target/Values, Target/Publication and
--   Target/Container have the values and types of container.rs and volume.rs. Target/Resource is
--   `TargetResource`, and `TargetIntent::new_with_orchestration` of intent.rs is Target/Intent, with
--   Target/Settings for
--   `validate_container_settings`, Target/Pools for networks and Target/Ports for published ports; Disjoint,
--   Conflicts, Containers and Accepted below them are about what is accepted.
--   Target/Node has the types of graph.rs and Target/Sources its two sources of capabilities. Target/Needs
--   is the loop over the resources in `OperationGraph::new` as lists of needs. Uses says for each
--   capability by itself which resources use it, Parts and Asked compare the two, Refused has what is refused
--   whatever is supported, and Granted the outcome;
--   Target/Cycles is its cycle test, with Release and Turn on one turn of the loop, Pushed and Visited on
--   its invariant, Run on the whole and Acyclic on the answer. Target/Graph is the rest of
--   `OperationGraph::new` and `DockerPlanner::plan`, with Valid, Accepted, Dependencies and Planner.
--   Target/Prerequisite is prerequisite.rs, with Present on evidence and Assessed on the whole.
-- * Prelude holds what the parts share; Tests holds runs on concrete inputs.
--
-- A budget hands its exchanges to `Capture::from_completed`, which checks the counters that the budget
-- kept. A catalog takes identities and lanes from Version and admits records; a resolved capability is a
-- record of an admitted catalog. An intent is validated before it is planned, and a plan asks a catalog's
-- record or an observation's facts for each capability. A selector is validated before its identifiers
-- become request targets.
--
-- How the code is modelled: a byte is a number, a `String` its UTF-8 bytes, and a `usize` has 64 bits,
-- with checked and saturating addition written out. `HashMap` and `HashSet` are association lists and
-- lists. Time is an argument: a method takes what `elapsed` returns. A `Read` is the bytes that it
-- yields and whether an error follows them, and a `Wire` the bytes and the error
-- behind them. `ObservationId::fresh` and the JSON library are parameters.
-- Loops are structural recursion; a decimal number is printed with fuel 5, enough for a `u16`; the loop
-- over chunks has as fuel the length of the stream and one, which is enough since a turn takes a byte; the
-- cycle test has as fuel the number of nodes and one, which is enough since a turn visits a new node. An
-- IP address is its number; `NetworkAddress::new` takes its parser as an argument. A `HashMap` that is
-- iterated is taken in the order of insertion.
--
-- Not modelled: the socket and the headers of HTTP, the traversal of list and inspection answers
-- (`selected_ids`, `related_ids`, `acquire`), the rest of src/decoder.rs, render.rs of src/target_modules,
-- the constants of src/reviewed_catalog.rs, accessors and the redaction of `Debug` output, and the tests
-- and scripts around the crate.
pub mod Prelude
pub mod Observation
pub mod ResourceSupport
pub mod Version
pub mod Evidence
pub mod Acquisition
pub mod Decoder
pub mod Target
mod Tests
