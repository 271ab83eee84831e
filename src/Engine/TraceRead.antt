-- ===== src/Engine/TraceRead.antt =====
-- The events that a reader of the JSON of a trace gets back.
use sig_topo.Base.{ℕ, String, ◌≡◌, refl, Option, none, some, if◌then◌else◌, ◌==◌}
use sig_topo.Json.{Json, Fields, null, number, string, object, no_fields, field}
use sig_topo.Trace.{
  TraceEvent, event_received, action_started, action_succeeded, action_failed, state_changed,
  rollbacked, reaction_guard_evaluated, reaction_compensated,
}
use sig_topo.Engine.TraceJson.{trace_event_to_value}

module _ {N : Type 0} where
  -- A field of an object, as it is looked up by name.
  abbrev get : String → Fields N → Json N
  get key no_fields = null
  get key (field k v rest) = if k == key then v else get key rest

  abbrev text : Json N → String
  text (string s) = s
  text _ = ""

  abbrev optional_text : Json N → Option String
  optional_text (string s) = some s
  optional_text _ = none

  abbrev time : (N → ℕ) → Json N → ℕ
  time as_u64 (number n) = as_u64 n
  time as_u64 _ = 0

  module _ (as_u64 : N → ℕ) (o : Fields N) where
    abbrev str : String → String
    str key = text (get key o)

    abbrev stamp : ℕ
    stamp = time as_u64 (get "timestamp_ms" o)

    abbrev reaction_of :
        (String → String → String → String → String → String → String → ℕ → TraceEvent)
        → String
        → String
        → TraceEvent
    reaction_of make sixth seventh =
        make (str "signal_id") (str "from_signal") (str "from_state") (str "to_signal")
          (str "event") (str sixth) (str seventh) stamp

    -- By the kind that the object names.
    abbrev read_kind : String → Option TraceEvent
    read_kind kind =
        if kind == "EventReceived"
        then some
            (event_received (str "signal_id") (str "event") stamp (optional_text (get "payload" o)))
        else if kind == "ActionStarted"
        then some (action_started (str "signal_id") (str "action_id") stamp)
        else if kind == "ActionSucceeded"
        then some (action_succeeded (str "signal_id") (str "action_id") stamp)
        else if kind == "ActionFailed"
        then some (action_failed (str "signal_id") (str "action_id") stamp (str "error"))
        else if kind == "StateChanged"
        then some (state_changed (str "signal_id") (str "from") (str "to") stamp)
        else if kind == "Rollbacked"
        then some (rollbacked (str "signal_id") (str "from") (str "to") stamp)
        else if kind == "ReactionGuardEvaluated"
        then some (reaction_of reaction_guard_evaluated "guard" "result")
        else if kind == "ReactionCompensated"
        then some (reaction_of reaction_compensated "action_id" "error")
        else none

  abbrev pub read_event : (N → ℕ) → Json N → Option TraceEvent
  read_event as_u64 (object o) = read_kind as_u64 o (text (get "kind" o))
  read_event as_u64 _ = none

module _ {N : Type 0} (from_u64 : ℕ → N) (as_u64 : N → ℕ)
    (as_u64-from_u64 : (n : ℕ) → as_u64 (from_u64 n) ≡ n) where
  -- A reader that goes by the field names gets every event back whole from its JSON value, if it
  -- gets numbers back.
  pub trace_event_to_value-read_event :
      (e : TraceEvent) → read_event as_u64 (trace_event_to_value from_u64 e) ≡ some e
  unfolding trace_event_to_value
  trace_event_to_value-read_event (event_received s event t none) = rw (as_u64-from_u64 t) refl
  trace_event_to_value-read_event (event_received s event t (some payload)) =
      rw (as_u64-from_u64 t) refl
  trace_event_to_value-read_event (action_started s a t) = rw (as_u64-from_u64 t) refl
  trace_event_to_value-read_event (action_succeeded s a t) = rw (as_u64-from_u64 t) refl
  trace_event_to_value-read_event (action_failed s a t x) = rw (as_u64-from_u64 t) refl
  trace_event_to_value-read_event (state_changed s from to t) = rw (as_u64-from_u64 t) refl
  trace_event_to_value-read_event (rollbacked s from to t) = rw (as_u64-from_u64 t) refl
  trace_event_to_value-read_event (reaction_guard_evaluated s a b c d guard result t) =
      rw (as_u64-from_u64 t) refl
  trace_event_to_value-read_event (reaction_compensated s a b c d action x t) =
      rw (as_u64-from_u64 t) refl
