-- ===== src/Export/Reactions.antt =====
-- The edges of reactions, between the clusters, and `to_dot_extended`.
use Prim.Native.String.{◌++◌}
use sig_topo.Base.{
  String, Char, code, Bool, true, false, ◌&&◌, Option, none, some, List, [], ◌∷◌, HashMap, lookup,
  find, nat_eq, if◌then◌else◌, ◌==◌,
}
use sig_topo.Base.Text.{chars}
use sig_topo.Schema.{SignalDef, ReactionDef, TopologySchema}
use sig_topo.Engine.Query.{ReactionKey, lookup_key}
use sig_topo.Export.{dot_header, node_id, escape_label, append_each, clusters}

abbrev first_node : String → Option SignalDef → Option String
first_node signal_id none = none
first_node signal_id (some signal) = elim signal.states [
  | [] ↦ none
  | state ∷ _ ↦ some (node_id signal_id state)
]

unfoldable pub anchor_node : {N : Type 0} → String → TopologySchema N → Option String
unfolding node_id
anchor_node signal_id schema = first_node signal_id (find (λ s. s.id == signal_id) schema.signals)

abbrev initial_or_empty : Option SignalDef → String
initial_or_empty none = ""
initial_or_empty (some signal) = signal.initial_state

abbrev current_or_initial : Option String → Option SignalDef → String
current_or_initial (some current) signal = current
current_or_initial none signal = initial_or_empty signal

unfoldable pub reaction_from_node :
    {N : Type 0} → ReactionDef N → TopologySchema N → HashMap String → String
unfolding node_id lookup
reaction_from_node r schema states =
    if r.from_state == "*"
    then node_id r.from_signal (
        current_or_initial (lookup r.from_signal states)
          (find (λ s. s.id == r.from_signal) schema.signals))
    else node_id r.from_signal r.from_state

abbrev same_char : Char → Char → Bool
same_char a b = nat_eq (code a) (code b)

abbrev starts_with : List Char → List Char → Bool
starts_with cs [] = true
starts_with [] (_ ∷ _) = false
starts_with (c ∷ cs) (d ∷ ds) = same_char c d && starts_with cs ds

-- The colour and the style of a reaction's edge.
unfoldable pub edge_style : Option String → String × String
unfolding chars
edge_style none = ("black", "dashed")
edge_style (some result) =
    if starts_with (chars result) (chars "true")
    then ("green", "solid")
    else if starts_with (chars result) (chars "false")
    then ("gray", "dashed")
    else if starts_with (chars result) (chars "error")
    then ("red", "dashed")
    else ("black", "dashed")

abbrev result_text : Option String → String
result_text none = "not evaluated"
result_text (some result) = result

abbrev edge_between : {N : Type 0} → ReactionDef N → String → Option String → Option String → String
edge_between r from none result = ""
edge_between r from (some to) result =
    let (color, style) = edge_style result in
    "  "
    ++ from
    ++ " -> "
    ++ to
    ++ " [label=\""
    ++ escape_label (r.event ++ " [guard: " ++ result_text result ++ "]")
    ++ "\" color="
    ++ color
    ++ " style="
    ++ style
    ++ "];\n"

abbrev reaction_key : {N : Type 0} → ReactionDef N → ReactionKey
reaction_key r = record {
  from_signal = r.from_signal;
  from_state = r.from_state;
  to_signal = r.to_signal;
  event = r.event;
}

-- Nothing is drawn where the target is no signal, or has no state.
unfoldable pub reaction_edge :
    {N : Type 0}
    → TopologySchema N
    → HashMap String
    → List (ReactionKey × String)
    → ReactionDef N
    → String
unfolding reaction_from_node anchor_node lookup_key edge_style escape_label
reaction_edge schema states guard_info r =
    edge_between r (reaction_from_node r schema states) (anchor_node r.to_signal schema)
      (lookup_key (reaction_key r) guard_info)

unfoldable pub to_dot_extended :
    {N : Type 0} → TopologySchema N → HashMap String → List (ReactionKey × String) → String
unfolding clusters append_each reaction_edge
to_dot_extended schema states guard_info =
    dot_header
    ++ clusters schema states
    ++ append_each (reaction_edge schema states guard_info) schema.reactions
    ++ "}\n"
