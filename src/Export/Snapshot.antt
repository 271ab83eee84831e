-- ===== src/Export/Snapshot.antt =====
-- `snapshot_dot` and `snapshot_dot_extended` of engine.rs, and what the first one draws.
use Prim.Native.String.{◌++◌}
use sig_topo.Base.{
  String, ◌≡◌, refl, ap, ◌∙◌, none, some, List, [], ◌∷◌, All, HashMap, lookup, map, if◌then◌else◌,
  ◌==◌,
}
use sig_topo.Json.{Platform}
use sig_topo.Schema.{SignalDef, TransitionDef, TopologySchema}
use sig_topo.Engine.State.{SignalState, Engine}
use sig_topo.Engine.Query.{guard_info_from_traces, traces}
use sig_topo.Persist.{entry_state}
use sig_topo.Persist.Restores.{IsDistinct, IsVisible, visible, lookup-entry_state}
use sig_topo.Export.{
  dot_header, node_id, escape_label, append_each, node_line, transition_edges,
  transitions_by_signal, signal_edges, cluster, cluster_text, to_dot_with_state,
}
use sig_topo.Export.Reactions.{to_dot_extended}
use sig_topo.Export.Groups.{own_transitions, signal_edges-own}

abbrev pub snapshot_signal : String × SignalState → SignalDef
snapshot_signal (id, s) = record { id = id; initial_state = s.initial_state; states = s.states }

module _ {p : Platform} where
  -- The topology that is rebuilt from an engine.
  abbrev pub snapshot_schema : Engine p → TopologySchema p.Number
  snapshot_schema e = record {
    version = "snapshot";
    signals = map snapshot_signal e.signals;
    transitions = e.transitions;
    reactions = e.reactions;
    components = none;
    instances = [];
    includes = [];
  }

  unfoldable pub snapshot_dot : Engine p → String
  unfolding to_dot_with_state
  snapshot_dot e = to_dot_with_state (snapshot_schema e) (map entry_state e.signals)

  unfoldable pub snapshot_dot_extended : Engine p → String
  unfolding to_dot_extended guard_info_from_traces traces
  snapshot_dot_extended e =
      to_dot_extended (snapshot_schema e) (map entry_state e.signals)
        (guard_info_from_traces (traces e))

-- A state of a signal, drawn by where the signal is and where it starts.
abbrev pub live_attrs : SignalState → String → String
live_attrs s state =
    if s.current == state
    then " style=filled fillcolor=lightgreen penwidth=2"
    else if state == s.initial_state
    then " style=filled fillcolor=lightblue"
    else ""

abbrev pub live_node : String → SignalState → String → String
live_node id s state =
    "    "
    ++ node_id id state
    ++ " [label=\""
    ++ escape_label state
    ++ "\""
    ++ live_attrs s state
    ++ "];\n"

-- A signal with its states, and its own transitions in order.
abbrev pub live_cluster : List TransitionDef → String × SignalState → String
live_cluster ts (id, s) =
    cluster_text id (append_each (live_node id s) s.states)
      (append_each (transition_edges (snapshot_signal (id, s))) (own_transitions id ts))

append_each-same :
    {A B : Type 0} (f : A → String) (g : B → String) (h : B → A) (P : B → Type 0) (xs : List B)
    → All P xs
    → ((x : B) → P x → f (h x) ≡ g x)
    → append_each f (map h xs) ≡ append_each g xs
unfolding append_each
append_each-same f g h P [] all k = refl
append_each-same f g h P (x ∷ xs) all k =
    rw (k x (all.0), append_each-same f g h P xs (all.1) k) refl

node_line-live :
    (m : HashMap SignalState) (id : String) (s : SignalState) (state : String)
    → lookup id m ≡ some s
    → node_line (map entry_state m) (snapshot_signal (id, s)) state ≡ live_node id s state
unfolding node_line
node_line-live m id s state found = rw (lookup-entry_state id m, found) refl

nodes-live :
    (m : HashMap SignalState) (id : String) (s : SignalState) (states : List String)
    → lookup id m ≡ some s
    → append_each (node_line (map entry_state m) (snapshot_signal (id, s))) states
      ≡ append_each (live_node id s) states
unfolding append_each
nodes-live m id s [] found = refl
nodes-live m id s (state ∷ states) found =
    rw (node_line-live m id s state found, nodes-live m id s states found) refl

cluster-parts :
    (states : HashMap String) (by_signal : HashMap (List TransitionDef)) (signal : SignalDef)
    → cluster states by_signal signal
      ≡ cluster_text signal.id
          (append_each (node_line states signal) signal.states)
          (signal_edges signal (lookup signal.id by_signal))
unfolding cluster
cluster-parts states by_signal signal = refl

snapshot_dot-parts :
    {p : Platform} (e : Engine p)
    → snapshot_dot e
      ≡ dot_header
        ++ append_each
            (cluster (map entry_state e.signals) (transitions_by_signal e.transitions))
            (map snapshot_signal e.signals)
        ++ "}\n"
unfolding snapshot_dot
snapshot_dot-parts e = refl

cluster-live :
    (m : HashMap SignalState) (ts : List TransitionDef) (entry : String × SignalState)
    → IsVisible m entry
    → cluster (map entry_state m) (transitions_by_signal ts) (snapshot_signal entry)
      ≡ live_cluster ts entry
cluster-live m ts (id, s) found =
    cluster-parts (map entry_state m) (transitions_by_signal ts) (snapshot_signal (id, s))
    ∙ ap
        (λ nodes.
          cluster_text id nodes
            (signal_edges (snapshot_signal (id, s)) (lookup id (transitions_by_signal ts))))
        (nodes-live m id s s.states found)
    ∙ ap (cluster_text id (append_each (live_node id s) s.states))
        (signal_edges-own (snapshot_signal (id, s)) ts)

-- Where the signals of an engine are distinct, `snapshot_dot` draws each of them with the state that
-- it is in now as the live one, and its own transitions in the order of the topology.
pub snapshot_dot-live :
    {p : Platform} (e : Engine p)
    → IsDistinct e.signals
    → snapshot_dot e ≡ dot_header ++ append_each (live_cluster e.transitions) e.signals ++ "}\n"
snapshot_dot-live e distinct =
    snapshot_dot-parts e
    ∙ ap (λ drawn. dot_header ++ drawn ++ "}\n")
        (append_each-same _ (live_cluster e.transitions) snapshot_signal (IsVisible e.signals)
          e.signals (visible e.signals distinct) (cluster-live e.signals e.transitions))
