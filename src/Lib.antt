-- ===== src/Lib.antt =====
-- sig_topo: an engine for topologies of signals, each a small state machine. An event sent to a
-- signal chooses a transition, whose guard is evaluated and whose callbacks run; the state that is
-- entered then fires reactions, which send further events, up to a depth limit.
--
-- The parts, and the files that model them (paths of the program from the repository's root):
--
--   src/schema.rs        Schema: the records of a topology.
--   src/error.rs         Error: the errors and their messages.
--   src/trace.rs         Trace: the events of a run and their log.
--   src/guard/           Guard: tokenize (Guard/Lexer), parse (Guard/Parser), eval and eval_guard
--                        (Guard/Eval).
--   src/compose.rs       Compose: the substitution of parameters (Compose/Subst), bindings
--                        and connections (Compose/Connect), expand (Compose/Expand),
--                        load_topology and from_path (Compose/Load).
--   src/engine.rs        Engine: state and monad (Engine/State), run_action (Engine/Action),
--                        fire_one_reaction (Engine/Reaction), dispatch_reactions (Engine/Dispatch),
--                        send_event and send_event_internal (Engine/Send), validate
--                        (Engine/Validate), from_schema and reload_topology (Engine/Build), and the
--                        queries (Engine/Query). ActionContext is in Context.
--   src/persist.rs       Persist: save_state and load_state.
--   src/ddl/             Ddl: the syntax tree (Ddl/Ast), tokenize (Ddl/Lexer), the recursive descent
--                        and parse_doc (Ddl/Parser and the modules below it), the lowering
--                        (Ddl/Codegen), compile and compile_full (Ddl/Compile).
--   src/check.rs         Check: check_schema and check_ddl.
--   src/run.rs           Run: the handlers, load_topology_for_run and run_scenario; format_trace and
--                        format_why (Run/Format).
--   src/export/dot.rs    Export: to_dot and to_dot_with_state; to_dot_extended (Export/Reactions).
--                        The snapshots and the JSON of the trace that engine.rs makes are in
--                        Export/Snapshot and Engine/TraceJson.
--
-- Base holds the shared types, list, map and integer helpers. The other modules under Engine prove:
-- Holds has rules for relations between the states around an action, Commits the abstract
-- specification of a run, Refine and Cascades that the engine implements it, and Runs the calls of a
-- client in sequence. The proofs on the guard language are in Guard/Total, Guard/Lexes,
-- Guard/Terminates, Guard/Range and Guard/Exact, those on composition in Compose/Flat and
-- Compose/Loads, those on persistence in Persist/Restores and Persist/Keeps, and that on the checks
-- in Check/Sound. Those on documents are in Ddl/Laid (tokens), Ddl/Ends and the modules below it
-- (termination), Ddl/Parsed and below it (what an accepted document is), Ddl/Builds and Ddl/Wildcard
-- (the lowering). Those on replays are in Run/Scopes, Run/Rollback and Run/Loads, on the report of
-- why in Run/Why, and on drawings in Export/Label and Export/Snapshot. The reader of the trace's JSON
-- is in Engine/TraceRead.
--
-- How the code is modelled. An engine operation is a function from an engine to a result and an
-- engine (`Act`), so that what an operation has done before it fails is kept. The early returns of
-- send_event_internal split it into phases: check_depth, commit_transition (which is
-- choose_transition, run_transition, lifecycle, enter and settle) and react. A HashMap is an
-- association list; its order of iteration is the list's. Strings are compared as the source does.
-- Platform holds what the program takes from elsewhere: floats, JSON numbers and text, the character
-- classes beyond ASCII, the clock, and the state of the world that callbacks change. A registered
-- callback is a function of its context and the world to a result and the world: it cannot reach
-- the engine, as the borrow of the source ensures. The fail set that the handlers of a run share with
-- the replay is a cell in that world, which IsCell states the laws of.
--
-- Bounds. 64-bit integers of guards are integers with the source's checks; the negation wraps, as a
-- release build does. The recursion of send_event_internal is on a number of levels, of which
-- send_event hands out one more than the depth limit. The loop of dispatch_reactions is on rounds,
-- one for each matched reaction. The guard parser and load_topology run on fuel, and `none` is its
-- exhaustion. The lexer of documents has a round for each character, and the loops of their parser
-- have one round more than there are tokens left; `none` is a panic or an endless loop, which
-- Ddl/Ends excludes. Counters (usize) have no bound.
--
-- Not modelled: the file system and the text of JSON, the call of Graphviz, the watcher, the C and
-- browser bindings, and the command-line programs, which are input and output around the library.
pub mod Base
pub mod Json
pub mod Error
pub mod Schema
pub mod Trace
pub mod Context
pub mod Guard
pub mod Engine
pub mod Compose
pub mod Persist
pub mod Ddl
pub mod Run
pub mod Export
pub mod Check
mod Samples
mod Tests
