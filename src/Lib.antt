-- ===== src/Lib.antt =====
-- ACGC keeps the state of an agent's session as a tree of nodes, one for each event, and compiles a
-- prompt within a token budget from the nodes that are worth keeping. The parts that decide what is
-- kept are modelled here, each from its Go source:
--
-- Domain.antt: internal/domain. Events, nodes and scores. float64 and float32 are the record
-- `Floats` of the operations that the code uses, so nothing is assumed of rounding.
-- Facts.antt: internal/facts. The facts and decisions that are read off the text of an event, the
-- lists without repetition that they are kept in, and the merge of the facts of a branch.
-- StateTree.antt: internal/statetree/tree.go. `add_node` is AddNode, and so on by name. Events are
-- classified, hung under a parent and stored; the collector's writes change a status or replace
-- children by a compressed branch.
-- Scorer.antt: internal/scorer/scorer.go. The retention score of a node.
-- VectorIndex.antt: internal/vectorindex/vectorindex.go. The index of embeddings: vectors,
-- tombstones and a graph, with `remove` for Delete. What its documentation says of the graph is the
-- record `GraphLaws`, an argument of what depends on it.
-- Compiler.antt: internal/compiler. Buckets by type, selection within the budget, and rendering.
-- Gc.antt: internal/gc/gc.go. The triggers, and a run of mark, sweep and compact, which scores by
-- Scorer, writes to StateTree, and merges by Facts through a compressor.
-- Session.antt: internal/session. `process_event` is processEvent, composed of its numbered steps over
-- StateTree, Scorer, Gc and the two indexes of VectorIndex; `Step` are the steps of clients and of
-- sessionWorker on a session and its queue; `get_or_create` and `enqueue_event` act on the sessions of
-- the manager; `compile_session` is the part of CompilePrompt for a session that is there.
-- Llm.antt: internal/llm. The client of a model, and the compressor that the collector calls.
-- Config.antt: internal/config/config.go. The file .env, and the variables with their defaults.
-- Gateway.antt: internal/gateway/server.go. The handlers Run, CaptureEvent and TriggerGC on the sessions
-- of the manager, and CompilePrompt by the id of a session.
-- Scoring.antt: eval/scoring/probe.go, metrics.go and strategy.go. The scores, verdicts and summaries of
-- the evaluation.
-- Harness.antt: eval/harness/strategy.go, strategy_naive.go, strategy_sliding.go and retry.go. The
-- strategies that keep whole turns, and the calls of a model that are tried again.
-- Common.antt: helpers. Tests.antt: the theorems at concrete inputs.
--
-- The state of a component is a record that its operations take and return. Go ints that the code
-- keeps from going negative are natural numbers, without overflow, and so are the limits of a `Policy`
-- and the other settings, which are taken to be no less than 0; the buffer of a channel is taken to be
-- at least 1, since an unbuffered channel has no queue. Texts are lists of bytes, and letters are ASCII.
-- A verdict of the evaluation is one of the five that the code names. A Go map is an association list with one entry to a key; a `range` over a map
-- comes in any order, so it takes the order as an argument. A pointer to a node is the id of the
-- node in its tree. An error is a constructor of the result.
--
-- `depth_from` recurses on fuel, since the type of a tree does not rule out cycles; a well-formed
-- tree has a ranking of its edges, and fuel above the bound of its ranks is enough. The fuel of an
-- `Environment` is that of `depth_from`, for the check whether to collect; `process_event` answers
-- `none` only when it runs out. The other loops are structural.
--
-- A session's channel is the list of the events that wait. A call of the store is recorded with its
-- arguments in `calls`; a failing call is only logged by the code, so its result is left out.
--
-- Parameters, since their code is elsewhere: the graph of github.com/coder/hnsw (`Graphs`), the
-- token counter, `sort.Slice`, the embedder, the HTTP call of the client of a model, `ParseFloat`, regular
-- expressions, what the store answers when a session is opened (`Loaded`), and the compressor of a run,
-- whose ids are assumed to come from a clock that never gives one reading twice.
--
-- Not modelled: mutexes and timers; that the worker stops when it is idle or cancelled is no step of
-- `Step`, since the session is then forgotten; the parts that only call services or drive a benchmark
-- (internal/store, internal/embedding, cmd, demo, stresstest, and of eval all but
-- the files above); and the tokenizer.
pub mod Common
pub mod Domain
pub mod Facts
pub mod StateTree
pub mod Scorer
pub mod VectorIndex
pub mod Compiler
pub mod Gc
pub mod Session
pub mod Llm
pub mod Config
pub mod Scoring
pub mod Gateway
pub mod Harness
mod Tests
