-- ===== src/Tests/Drawings.antt =====
-- The DOT text and the JSON of the trace, at the shop of the samples.
use Prim.Native.String.{char_at}
use sig_topo.Base.{some, ◌∷◌, ◌++◌, ◌≡◌, refl, lookup}
use sig_topo.Base.Int.{pos, pos_part}
use sig_topo.Base.Text.{chars}
use sig_topo.Trace.{TraceEvent, reaction_guard_evaluated}
use sig_topo.Engine.TraceJson.{trace_event_to_value}
use sig_topo.Engine.TraceRead.{read_event, trace_event_to_value-read_event}
use sig_topo.Export.{node_id, escape_label, edge_tooltip, append_each, dot_header}
use sig_topo.Export.Reactions.{edge_style}
use sig_topo.Export.Label.{read_quoted, escape_label-read_quoted}
use sig_topo.Export.Snapshot.{snapshot_dot, live_cluster, snapshot_dot-live}
use sig_topo.Samples.{pay, shop, shop_engine, succeed}
use Prim.Native.String

abbrev quote_mark : Prim.Native.Char.Char
quote_mark = char_at "\"" 0

escape_label-read_quoted_example :
    read_quoted (chars (escape_label "say \"hi\" \\") ++ quote_mark ∷ chars "];")
    ≡ some (chars "say \"hi\" \\", chars "];")
escape_label-read_quoted_example =
    escape_label-read_quoted "say \"hi\" \\" quote_mark (chars "];") refl

snapshot_dot-live_example :
    snapshot_dot (shop_engine succeed)
    ≡ String.◌++◌ dot_header (
        String.◌++◌
          (append_each (live_cluster shop.transitions) (shop_engine succeed).signals)
          "}\n")
unfolding lookup
snapshot_dot-live_example = snapshot_dot-live (shop_engine succeed) (refl, (refl, tt))

abbrev evaluated : TraceEvent
evaluated =
    reaction_guard_evaluated "order" "order" "paid" "stock" "reserve" "true" "error: no field" 7

trace_event_to_value-read_event_example :
    read_event pos_part (trace_event_to_value pos evaluated) ≡ some evaluated
trace_event_to_value-read_event_example =
    trace_event_to_value-read_event pos pos_part (λ n. refl) evaluated

-- Two states of one signal that are one node of the drawing.
one_node : node_id "order" "on-hold" ≡ node_id "order" "on_hold"
unfolding node_id
one_node = refl

-- The line break of a tooltip is escaped with the rest of it.
pay_tooltip : escape_label (edge_tooltip pay) ≡ "pay: draft -> paid\\\\nactions: charge"
unfolding escape_label edge_tooltip
pay_tooltip = refl

error_style : edge_style (some "error: no field") ≡ ("red", "dashed")
unfolding edge_style
error_style = refl
