-- ===== src/Engine/Build.antt =====
-- Making an engine, and replacing its topology.
use sig_topo.Base.{
  ℕ, String, Option, none, some, List, [], ◌∷◌, HashMap, lookup, insert, Result, ok, err, and_then,
  map_err,
}
use sig_topo.Json.{Platform}
use sig_topo.Error.{EngineError, parse_error, reload_error, to_string}
use sig_topo.Schema.{SignalDef, TopologySchema}
use sig_topo.Compose.Expand.{expand}
use sig_topo.Engine.State.{SignalState, ActionFn, Engine, Act}
use sig_topo.Engine.Validate.{validate}

-- The state of a signal that has not moved.
abbrev pub initial : SignalDef → SignalState
initial sig = record {
  current = sig.initial_state;
  states = sig.states;
  initial_state = sig.initial_state;
}

unfoldable pub initial_signals : List SignalDef → HashMap SignalState → HashMap SignalState
initial_signals [] m = m
initial_signals (sig ∷ sigs) m = initial_signals sigs (insert sig.id (initial sig) m)

-- `None` where the signal is new.
abbrev pub kept : SignalDef → Option SignalState → SignalState
kept sig none = initial sig
kept sig (some old) = record {
  current = old.current;
  states = sig.states;
  initial_state = sig.initial_state;
}

unfoldable pub reloaded_signals :
    HashMap SignalState → List SignalDef → HashMap SignalState → HashMap SignalState
reloaded_signals old [] m = m
reloaded_signals old (sig ∷ sigs) m =
    reloaded_signals old sigs (insert sig.id (kept sig (lookup sig.id old)) m)

module _ (p : Platform) where
  -- The world and the count of clock readings are those at the time of the call.
  unfoldable pub from_schema : p.World → ℕ → TopologySchema p.Number → Result EngineError (Engine p)
  unfolding expand validate initial_signals
  from_schema world clock_reads schema = and_then (expand schema) λ flat.
      and_then (validate p flat) λ _. ok (record {
        signals = initial_signals flat.signals [];
        transitions = flat.transitions;
        reactions = flat.reactions;
        actions = [];
        trace = record { events = [] };
        max_cascade_depth = 8;
        clock_reads = clock_reads;
        world = world;
      })

  -- What `serde_json::from_str` made of the text is passed in.
  unfoldable pub from_json :
      p.World → ℕ → Result String (TopologySchema p.Number) → Result EngineError (Engine p)
  unfolding from_schema
  from_json world clock_reads parsed =
      and_then (map_err parse_error parsed) (from_schema world clock_reads)

  unfoldable pub register_action : String → ActionFn p → Engine p → Engine p
  register_action action_id f e = record e { actions = insert action_id f e.actions }

  unfoldable pub set_max_cascade_depth : ℕ → Engine p → Engine p
  set_max_cascade_depth depth e = record e { max_cascade_depth = depth }

  -- The new topology is validated and is not expanded.
  unfoldable pub install : TopologySchema p.Number → Engine p → Engine p
  unfolding reloaded_signals
  install schema e = record e {
    signals = reloaded_signals e.signals schema.signals [];
    transitions = schema.transitions;
    reactions = schema.reactions;
  }

  abbrev install_or_fail :
      Engine p
      → Result EngineError (TopologySchema p.Number)
      → Result EngineError (Unit {0}) × Engine p
  install_or_fail e (ok schema) = (ok tt, install schema e)
  install_or_fail e (err x) = (err x, e)

  unfoldable pub reload_topology : Result String (TopologySchema p.Number) → Act p (Unit {0})
  unfolding validate install to_string
  reload_topology parsed e = install_or_fail e (
      and_then (map_err reload_error parsed) λ schema.
        and_then (map_err (λ x. reload_error (to_string x)) (validate p schema)) λ _. ok schema)
