-- ===== src/Export.antt =====
-- src/export/dot.rs: a topology as text for Graphviz. Text that is pushed is appended.
pub mod Label
pub mod Groups
pub mod Reactions
pub mod Snapshot
use Prim.Native.String.{◌++◌, char_at}
use mathlib.Core.List
use sig_topo.Base.{
  ℕ, String, Char, code, Bool, true, false, ◌&&◌, ◌||◌, Option, none, some, List, [], ◌∷◌, HashMap,
  lookup, insert, map, find, nat_eq, if◌then◌else◌, ◌==◌,
}
use sig_topo.Base.Text.{chars, of_chars, is_char}
use sig_topo.Guard.Lexer.{is_ascii_digit, is_ascii_letter}
use sig_topo.Schema.{SignalDef, TransitionDef, ReactionDef, TopologySchema, all_actions}
use sig_topo.Engine.Query.{ReactionKey, lookup_key}

abbrev pub backslash : ℕ
backslash = 92

abbrev pub quote : ℕ
quote = 34

abbrev dot_char : Char → Char
dot_char c = if is_ascii_digit c || is_ascii_letter c then c else char_at "_" 0

unfoldable pub sanitize_id : String → String
unfolding chars of_chars
sanitize_id input = of_chars (map dot_char (chars input))

unfoldable pub node_id : String → String → String
unfolding sanitize_id
node_id signal_id state = "n_" ++ sanitize_id signal_id ++ "_" ++ sanitize_id state

-- `replace` of a character by a text.
unfoldable pub replace : ℕ → List Char → List Char → List Char
replace n by [] = []
replace n by (c ∷ cs) =
    let rest = replace n by cs in if is_char n c then List.◌++◌ by rest else c ∷ rest

unfoldable pub escape_label : String → String
unfolding replace chars of_chars
escape_label input =
    of_chars (replace quote (chars "\\\"") (replace backslash (chars "\\\\") (chars input)))

-- `join(", ")`
unfoldable pub join_comma : List String → String
join_comma [] = ""
join_comma (text ∷ []) = text
join_comma (text ∷ next ∷ rest) = text ++ ", " ++ join_comma (next ∷ rest)

abbrev or_actions : String → String → List String → String
or_actions plain listed [] = plain
or_actions plain listed (_ ∷ _) = listed

unfoldable pub edge_label : TransitionDef → String
unfolding all_actions join_comma
edge_label t =
    or_actions t.event (t.event ++ " [" ++ join_comma (all_actions t.actions) ++ "]")
      (all_actions t.actions)

-- The `\\n` of the source is a backslash and an n.
unfoldable pub edge_tooltip : TransitionDef → String
unfolding all_actions join_comma
edge_tooltip t =
    let moves = t.event ++ ": " ++ t.from ++ " -> " ++ t.to in
    or_actions moves (moves ++ "\\nactions: " ++ join_comma (all_actions t.actions))
      (all_actions t.actions)

-- The texts of the items, one after the other.
unfoldable pub append_each : {A : Type 0} → (A → String) → List A → String
append_each f [] = ""
append_each f (x ∷ xs) = f x ++ append_each f xs

abbrev pub dot_header : String
dot_header = "digraph Topology {\n  rankdir=LR;\n  node [shape=ellipse];\n\n"

-- `acc.entry(&t.signal_id).or_default().push(t)`
abbrev pub or_default : Option (List TransitionDef) → List TransitionDef
or_default none = []
or_default (some ts) = ts

unfoldable pub group_transitions :
    List TransitionDef → HashMap (List TransitionDef) → HashMap (List TransitionDef)
unfolding lookup insert
group_transitions [] acc = acc
group_transitions (t ∷ ts) acc =
    group_transitions ts
      (insert t.signal_id (List.◌++◌ (or_default (lookup t.signal_id acc)) (t ∷ [])) acc)

unfoldable pub transitions_by_signal : List TransitionDef → HashMap (List TransitionDef)
unfolding group_transitions
transitions_by_signal ts = group_transitions ts []

abbrev is_current : Option String → String → Bool
is_current none state = false
is_current (some current) state = current == state

abbrev pub node_attrs : HashMap String → SignalDef → String → String
node_attrs states signal state =
    if is_current (lookup signal.id states) state
    then " style=filled fillcolor=lightgreen penwidth=2"
    else if state == signal.initial_state
    then " style=filled fillcolor=lightblue"
    else ""

unfoldable pub node_line : HashMap String → SignalDef → String → String
unfolding node_id escape_label lookup
node_line states signal state =
    "    "
    ++ node_id signal.id state
    ++ " [label=\""
    ++ escape_label state
    ++ "\""
    ++ node_attrs states signal state
    ++ "];\n"

unfoldable pub edge_line : SignalDef → TransitionDef → String → String
unfolding node_id escape_label edge_label edge_tooltip
edge_line signal t from =
    "    "
    ++ node_id signal.id from
    ++ " -> "
    ++ node_id signal.id t.to
    ++ " [label=\""
    ++ escape_label (edge_label t)
    ++ "\" tooltip=\""
    ++ escape_label (edge_tooltip t)
    ++ "\"];\n"

-- A wildcard source is drawn from each state but the target.
unfoldable pub transition_edges : SignalDef → TransitionDef → String
unfolding edge_line append_each
transition_edges signal t =
    if t.from == "*"
    then append_each (λ state. if state == t.to then "" else edge_line signal t state) signal.states
    else edge_line signal t t.from

abbrev pub signal_edges : SignalDef → Option (List TransitionDef) → String
signal_edges signal none = ""
signal_edges signal (some ts) = append_each (transition_edges signal) ts

-- The text of a cluster, around that of its nodes and edges.
abbrev pub cluster_text : String → String → String → String
cluster_text signal_id nodes edges =
    "  subgraph cluster_"
    ++ sanitize_id signal_id
    ++ " {\n    label=\""
    ++ escape_label signal_id
    ++ "\";\n    style=rounded;\n    color=gray;\n\n"
    ++ nodes
    ++ "\n"
    ++ edges
    ++ "  }\n"

unfoldable pub cluster : HashMap String → HashMap (List TransitionDef) → SignalDef → String
unfolding sanitize_id escape_label append_each node_line transition_edges lookup
cluster states by_signal signal =
    cluster_text signal.id (append_each (node_line states signal) signal.states)
      (signal_edges signal (lookup signal.id by_signal))

unfoldable pub clusters : {N : Type 0} → TopologySchema N → HashMap String → String
unfolding transitions_by_signal cluster append_each
clusters schema states =
    append_each (cluster states (transitions_by_signal schema.transitions)) schema.signals

unfoldable pub to_dot_with_state : {N : Type 0} → TopologySchema N → HashMap String → String
unfolding clusters
to_dot_with_state schema states = dot_header ++ clusters schema states ++ "}\n"

unfoldable pub to_dot : {N : Type 0} → TopologySchema N → String
unfolding to_dot_with_state
to_dot schema = to_dot_with_state schema []
