-- ===== src/Ddl/Codegen.antt =====
-- ddl/codegen.rs: `emit`, and `compile` of ddl/mod.rs from the parsed document on.
use Prim.Native.String.{◌++◌}
use sig_topo.Base.{
  String, Option, none, some, List, [], ◌∷◌, map, HashMap, insert, if◌then◌else◌, ◌==◌, Result, ok,
  and_then, map_err,
}
use mathlib.Core.List
use sig_topo.Json.{Json}
use sig_topo.Error.{EngineError, parse_error}
use sig_topo.Schema.{
  SignalDef, TransitionDef, ReactionDef, ComponentDef, InstanceDef, TopologySchema,
}
use sig_topo.Compose.Expand.{expand}
use sig_topo.Ddl.Ast.{TransDecl, SignalDecl, ReactionDecl, ComponentDecl, InstantiateDecl, DdlDoc}

abbrev pub transition_from : String → TransDecl → String → TransitionDef
transition_from signal_id tr from = record {
  signal_id = signal_id;
  from = from;
  event = tr.event;
  to = tr.to;
  actions = record {
    on_exit = tr.actions.on_exit;
    on_transition = tr.actions.on_transition;
    on_enter = tr.actions.on_enter;
  };
  guard = tr.guard;
}

-- A wildcard source becomes one transition for each state.
unfoldable pub emit_transition : String → List String → TransDecl → List TransitionDef
emit_transition signal_id states tr =
    if tr.from == "*"
    then map (transition_from signal_id tr) states
    else transition_from signal_id tr tr.from ∷ []

unfoldable pub emit_transitions : String → List String → List TransDecl → List TransitionDef
unfolding emit_transition
emit_transitions signal_id states [] = []
emit_transitions signal_id states (tr ∷ trs) =
    List.◌++◌ (emit_transition signal_id states tr) (emit_transitions signal_id states trs)

abbrev pub emit_signal : SignalDecl → SignalDef
emit_signal sig = record { id = sig.id; initial_state = sig.initial; states = sig.states }

unfoldable pub emit_signals : List SignalDecl → List SignalDef × List TransitionDef
unfolding emit_transitions
emit_signals [] = ([], [])
emit_signals (sig ∷ sigs) =
    let rest = emit_signals sigs in
    (
      emit_signal sig ∷ rest.0,
      List.◌++◌ (emit_transitions sig.id sig.states sig.transitions) rest.1,
    )

abbrev pub emit_instantiate : InstantiateDecl → InstanceDef
emit_instantiate inst = record {
  component = inst.component;
  bindings = inst.bindings;
  connections = inst.connections;
}

module _ {N : Type 0} (parse_json : String → Result String (Json N)) where
  abbrev pub emit_payload : Option String → Result EngineError (Option (Json N))
  emit_payload none = ok none
  emit_payload (some raw) =
      and_then
        (map_err (λ e. parse_error ("reaction payload is not valid JSON: " ++ e)) (parse_json raw))
        λ v. ok (some v)

  unfoldable pub emit_reaction : ReactionDecl → Result EngineError (ReactionDef N)
  emit_reaction r = and_then (emit_payload r.payload) λ payload. ok (record {
    from_signal = r.from_signal;
    from_state = r.from_state;
    to_signal = r.to_signal;
    event = r.event;
    payload = payload;
    guard = r.guard;
    join_group = r.join_group;
    requires = r.requires;
    on_fail = r.on_fail;
  })

  unfoldable pub emit_reactions : List ReactionDecl → Result EngineError (List (ReactionDef N))
  unfolding emit_reaction
  emit_reactions [] = ok []
  emit_reactions (r ∷ rs) =
      and_then (emit_reaction r)
        λ reaction. and_then (emit_reactions rs) λ rest. ok (reaction ∷ rest)

  unfoldable pub emit_component : ComponentDecl → Result EngineError (ComponentDef N)
  unfolding emit_signals emit_reactions
  emit_component comp = and_then (emit_reactions comp.reactions) λ reactions. ok (record {
    params = comp.params;
    ports = comp.ports;
    signals = (emit_signals comp.signals).0;
    transitions = (emit_signals comp.signals).1;
    reactions = reactions;
  })

  unfoldable pub emit_components :
      List ComponentDecl → HashMap (ComponentDef N) → Result EngineError (HashMap (ComponentDef N))
  unfolding emit_component
  emit_components [] m = ok m
  emit_components (comp ∷ comps) m =
      and_then (emit_component comp) λ component. emit_components comps (insert comp.id component m)

  abbrev some_components : HashMap (ComponentDef N) → Option (HashMap (ComponentDef N))
  some_components [] = none
  some_components (c ∷ cs) = some (c ∷ cs)

  unfoldable pub emit : DdlDoc → Result EngineError (TopologySchema N)
  unfolding emit_signals emit_reactions emit_components
  emit doc = and_then (emit_reactions doc.reactions) λ reactions.
      and_then (emit_components doc.components []) λ components. ok (record {
        version = "0.1";
        signals = (emit_signals doc.signals).0;
        transitions = (emit_signals doc.signals).1;
        reactions = reactions;
        components = some_components components;
        instances = map emit_instantiate doc.instantiates;
        includes = [];
      })

  -- What lexing and parsing the text gave is passed in.
  unfoldable pub compile : Result String DdlDoc → Result EngineError (TopologySchema N)
  unfolding emit expand
  compile parsed =
      and_then (map_err parse_error parsed) λ doc. and_then (emit doc) λ schema. expand schema
