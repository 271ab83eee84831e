-- ===== src/Engine/TraceJson.antt =====
-- `traces_json`: the events of the trace as JSON. The fields of an object are in the order in which
-- they are inserted; the text of the value is a parameter.
use sig_topo.Base.{ℕ, String, Option, none, some, List, [], ◌∷◌, map}
use sig_topo.Json.{
  Json, Items, Fields, Platform, null, number, string, array, object, no_items, item, no_fields,
  field,
}
use sig_topo.Trace.{
  TraceEvent, event_received, action_started, action_succeeded, action_failed, state_changed,
  rollbacked, reaction_guard_evaluated, reaction_compensated, signal_id, timestamp_ms,
}
use sig_topo.Engine.State.{Engine}
use sig_topo.Engine.Query.{traces}

-- A field whose value is a text.
abbrev texts : {N : Type 0} → List (String × String) → Fields N
texts [] = no_fields
texts ((key, text) ∷ rest) = field key (string text) (texts rest)

abbrev payload_value : {N : Type 0} → Option String → Json N
payload_value none = null
payload_value (some text) = string text

abbrev reaction_fields :
    {N : Type 0} → String → String → String → String → List (String × String) → Fields N
reaction_fields from_signal from_state to_signal event more = texts (
    ("from_signal", from_signal)
    ∷ ("from_state", from_state)
    ∷ ("to_signal", to_signal)
    ∷ ("event", event)
    ∷ more)

-- What is inserted for each kind of event.
abbrev kind_fields : {N : Type 0} → TraceEvent → Fields N
kind_fields (event_received _ event _ payload) =
    field "kind" (string "EventReceived")
      (field "event" (string event) (field "payload" (payload_value payload) no_fields))
kind_fields (action_started _ action_id _) =
    texts (("kind", "ActionStarted") ∷ ("action_id", action_id) ∷ [])
kind_fields (action_succeeded _ action_id _) =
    texts (("kind", "ActionSucceeded") ∷ ("action_id", action_id) ∷ [])
kind_fields (action_failed _ action_id _ error) =
    texts (("kind", "ActionFailed") ∷ ("action_id", action_id) ∷ ("error", error) ∷ [])
kind_fields (state_changed _ from to _) =
    texts (("kind", "StateChanged") ∷ ("from", from) ∷ ("to", to) ∷ [])
kind_fields (rollbacked _ from to _) =
    texts (("kind", "Rollbacked") ∷ ("from", from) ∷ ("to", to) ∷ [])
kind_fields (reaction_guard_evaluated _ from_signal from_state to_signal event guard result _) =
    field "kind" (string "ReactionGuardEvaluated") (
      reaction_fields from_signal from_state to_signal event
        (("guard", guard) ∷ ("result", result) ∷ []))
kind_fields (reaction_compensated _ from_signal from_state to_signal event action_id error _) =
    field "kind" (string "ReactionCompensated") (
      reaction_fields from_signal from_state to_signal event
        (("action_id", action_id) ∷ ("error", error) ∷ []))

abbrev pub items : {N : Type 0} → List (Json N) → Items N
items [] = no_items
items (value ∷ rest) = item value (items rest)

-- `from_u64` makes a JSON number.
unfoldable pub trace_event_to_value : {N : Type 0} → (ℕ → N) → TraceEvent → Json N
unfolding signal_id timestamp_ms
trace_event_to_value from_u64 e = object (
    field "signal_id" (string (signal_id e))
      (field "timestamp_ms" (number (from_u64 (timestamp_ms e))) (kind_fields e)))

unfoldable pub traces_json : {p : Platform} → (ℕ → p.Number) → Engine p → String
unfolding trace_event_to_value traces
traces_json {p} from_u64 e =
    p.json_to_string (array (items (map (trace_event_to_value from_u64) (traces e))))
