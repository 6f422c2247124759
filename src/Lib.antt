-- ===== src/Lib.antt =====
-- Verification of Group, a library that runs agents as graphs of nodes over a shared state.
--
-- The program's core is the crate crates/group-agent-core. An application describes a graph of
-- nodes, mounted subgraphs and four kinds of edges with a builder, compiles it to a flat vector of
-- items that refer to one another by index, and runs it; at each boundary the run may save a
-- checkpoint, an immutable record, to a store. The other crates are built on it. Of the chat model
-- protocol (crates/group-agent-model) the extension data, the token accounting and the collector of
-- streamed responses are modelled; the tool runtime (crates/group-agent-tool) and the prebuilt agents
-- (crates/group-agent-prebuilt) are not.
--
-- The modules and the code:
--   Core/Path        edge.rs (`NodeId`) and path.rs: `GraphPath`, `NodePath`, and in Core/Path/Display
--                    their text;
--   Core/Record      checkpoint_record.rs with the encoded values of checkpoint_codec.rs: the record
--                    and `try_from_parts`;
--   Core/Store       checkpoint_store.rs: `InMemoryCheckpointStore`, `insert` as `insert_record`,
--                    `insert_branch`, and the methods of the `CheckpointStore` trait under their
--                    names, `get` as `get_checkpoint`. A method takes the store and returns its
--                    result with the store after it. Core/Store/Operations has the writing methods as
--                    values, so that a sequence of calls is a list;
--   Core/Transition  transition.rs: `resolve_into` and `remap`;
--   Core/Graph       graph.rs: the builder, whose methods return the builder beside their results;
--                    Core/Graph/Build has them as values, so that a sequence of calls is a list,
--                    Core/Graph/Edges has `aggregate_edges` and `validate_edge_shapes`,
--                    Core/Graph/Topology `validate_reachability`, Core/Graph/Frontiers
--                    `validate_subgraph_frontiers`, Core/Graph/Flat the `FlatBuilder`, and
--                    Core/Graph/Compile `compile` and `compile_transition`;
--   Core/Checkpoint  the typed checkpoints of checkpoint.rs and the interrupts of interrupt.rs;
--   Core/Runtime     runtime.rs with its errors and events (error.rs, event.rs): Session has the
--                    `EventEmitter`, Control `ActiveControl`, `await_run_boundary` and
--                    `execute_node`, Route `resolve_transition` and `normalize_frontier`, Save the
--                    implementations of `RuntimeCheckpoint`, Node one superstep's nodes, Execute
--                    `execute_internal`, Resume the validation of a frontier, Load and Recover
--                    `resume`, `replay` and `fork`, and Invoke `invoke` with its variants. An action
--                    takes a session and returns its result with the session after it, also when it
--                    fails. Frame has rules for what an action does to a session.
-- All of these are under crates/group-agent-core/src. Of crates/group-agent-model/src:
--   Model/Extensions extensions.rs: `merge_idempotent` with its validation and its commit, and in
--                    Model/Extensions/Insert `insert`, `with`, `try_from_iter` and `get`, which trim
--                    their keys;
--   Model/Usage      response.rs: `TokenUsage`, its validation and `merge_snapshot`;
--   Model/Stream     stream.rs: `ChatStreamCollector`, with `validate_finished` as `validate_calls` on
--                    the calls of a collector.
-- Prelude has the shared types: Boolean tests,
-- lists over native numbers, equality as an interface, association lists, results, and sorting.
--
-- Conventions. A `HashMap` or an `IndexMap` is an association list in insertion order, and a
-- `HashSet` the list of what was inserted. A UUID is its number and an index of the compiled graph
-- is its position. A router is a pure function of the state, since the source calls it with a
-- shared reference and hands its result on. A panic of the source, by an index out of range or an
-- `expect`, is a result of its own: `none`, and `panicked` in the compilation and in
-- a run. An `Arc` is the value that it shares, since no shared value is changed. A sort that need not be stable is modelled by
-- insertion sort: only `END` has equal keys, it occurs at most once in a selection without
-- repetition, and equal indices are equal values.
--
-- Fuel. The worklist of `validate_subgraph_frontiers` takes fuel, and `compile` takes it as an
-- argument; without enough of it the result is `panicked`. A run takes `rounds` for the loop over
-- supersteps, of which one more than `max_steps` are enough, and `fuel` for the loop of
-- `normalize_frontier`, which is enough where a rank falls with each structural item that is left;
-- without enough the result is `out_of_fuel`. Every other loop is a recursion on its list.
-- What is outside the repository is a parameter: the depth-first search of petgraph is an
-- argument of `compile`, the JSON value of serde_json is a type with an equality, and its parser an
-- argument of the collector's `push` and `finish`. A `usize` has 64 bits, but the steps and the
-- supersteps of a run are natural numbers, which differ only in a run from a checkpoint at the
-- largest `usize`.
-- The nodes and the state of an application, the checkpointer, the clock, the fresh identifiers and
-- the scheduler are the record `Environment`, whose functions a run calls over a world that they may
-- change; every theorem on runs holds for each environment. The code of a node runs when its future
-- completes, and what an abandoned future has done is the world's. `select!` takes a branch that the
-- environment chooses, and the futures of a superstep complete in an order that it chooses. The nodes
-- of a frontier are looked up once, at the start of its superstep.
--
-- Not modelled: the codecs and the checkpointers of checkpoint.rs; the requests, messages and
-- responses of the chat model protocol; the log messages of `tracing`;
-- `Debug` and the messages of errors; the asynchronous calling convention of the store, whose methods
-- do not wait; and the adapters for SQLite, model providers, MCP and tokio, which call other systems.
pub mod Prelude
pub mod Core
pub mod Model
