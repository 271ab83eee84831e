-- ===== src/Error.antt =====
-- error.rs: the error type of every failure path, with the message of each variant.
use Prim.Native.String.{◌++◌}
use sig_topo.Base.{String}

pub data EngineError : Type 0 where
  parse_error validation_error signal_not_found : String → EngineError
  state_not_found transition_not_found : String → String → EngineError
  action_not_found action_execution_error guard_evaluation_error : String → EngineError
  guard_blocked : String → String → String → EngineError
  reload_error persistence_error : String → EngineError
  cascade_depth_exceeded : EngineError
  reaction_signal_not_found component_not_found : String → EngineError
  missing_binding : String → String → EngineError
  duplicate_signal_after_expand : String → EngineError
  invalid_param_ref unknown_port conflicting_port_connection : String → String → EngineError
  port_unknown_signal : String → String → String → EngineError
  port_unknown_state : String → String → String → String → EngineError
  include_not_found include_cycle : String → EngineError

-- The `Display` that `#[error(...)]` derives.
unfoldable pub to_string : EngineError → String
to_string (parse_error m) = "Parse error: " ++ m
to_string (validation_error m) = "Validation error: " ++ m
to_string (signal_not_found s) = "Signal not found: " ++ s
to_string (state_not_found s t) = "State not found: signal=" ++ s ++ ", state=" ++ t
to_string (transition_not_found s e) = "Transition not found: signal=" ++ s ++ ", event=" ++ e
to_string (action_not_found a) = "Action not found: " ++ a
to_string (action_execution_error m) = "Action execution error: " ++ m
to_string (guard_evaluation_error m) = "Guard evaluation error: " ++ m
to_string (guard_blocked s e g) =
    "Transition blocked by guard '" ++ g ++ "' for signal '" ++ s ++ "' on event '" ++ e ++ "'"
to_string (reload_error m) = "Reload error: " ++ m
to_string (persistence_error m) = "Persistence error: " ++ m
to_string cascade_depth_exceeded = "Cascade depth exceeded"
to_string (reaction_signal_not_found s) = "Reaction references unknown signal: " ++ s
to_string (component_not_found c) = "Component not found: " ++ c
to_string (missing_binding c p) =
    "Missing binding for param '" ++ p ++ "' in component '" ++ c ++ "'"
to_string (duplicate_signal_after_expand s) = "Duplicate signal id after expand: " ++ s
to_string (invalid_param_ref c p) =
    "Invalid param reference '$" ++ p ++ "' in component '" ++ c ++ "' (not in params list)"
to_string (unknown_port c p) =
    "Connection references unknown port '" ++ p ++ "' on component '" ++ c ++ "'"
to_string (conflicting_port_connection c p) =
    "Port '" ++ p ++ "' on component '" ++ c ++ "' is wired to multiple targets"
to_string (port_unknown_signal c p s) =
    "Port '" ++ p ++ "' on component '" ++ c ++ "' references unknown signal '" ++ s ++ "'"
to_string (port_unknown_state c p s t) =
    "Port '" ++ p ++ "' on component '" ++ c ++ "' references unknown state '" ++ t
    ++ "' for signal '" ++ s ++ "'"
to_string (include_not_found p) = "Include file not found: " ++ p
to_string (include_cycle p) = "Cyclic include detected: " ++ p
