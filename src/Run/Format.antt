-- ===== src/Run/Format.antt =====
-- The lines of a trace, and the answer of `why`.
use Prim.Native.String.{◌++◌}
use mathlib.Core.List
use sig_topo.Base.{
  ℕ, ◌+◌, String, Bool, false, ◌&&◌, Option, none, some, List, [], ◌∷◌, filter, length,
  if◌then◌else◌, ◌==◌,
}
use sig_topo.Base.Int.{pos}
use sig_topo.Json.{Platform}
use sig_topo.Trace.{
  TraceEvent, event_received, action_started, action_succeeded, action_failed, state_changed,
  rollbacked, reaction_guard_evaluated, reaction_compensated,
}
use sig_topo.Engine.Query.{ReactionKey}

-- `lines.join("\n")`
unfoldable pub join_lines : List String → String
join_lines [] = ""
join_lines (line ∷ []) = line
join_lines (line ∷ next ∷ rest) = line ++ "\n" ++ join_lines (next ∷ rest)

abbrev or_none : Option String → String
or_none none = "None"
or_none (some text) = text

module _ (p : Platform) where
  abbrev pub show : ℕ → String
  show n = p.show_i64 (pos n)

  abbrev reaction_name : String → String → String → String → String
  reaction_name from_signal from_state to_signal event =
      from_signal ++ "." ++ from_state ++ " -> " ++ to_signal ++ "." ++ event

  unfoldable pub format_trace : TraceEvent → String
  format_trace (event_received s event t payload) =
      "[" ++ show t ++ "] EventReceived " ++ s ++ "." ++ event ++ " payload=" ++ or_none payload
  format_trace (action_started s a t) = "[" ++ show t ++ "] ActionStarted " ++ s ++ "." ++ a
  format_trace (action_succeeded s a t) = "[" ++ show t ++ "] ActionSucceeded " ++ s ++ "." ++ a
  format_trace (action_failed s a t x) =
      "[" ++ show t ++ "] ActionFailed " ++ s ++ "." ++ a ++ " error=" ++ x
  format_trace (state_changed s from to t) =
      "[" ++ show t ++ "] StateChanged " ++ s ++ ": " ++ from ++ " -> " ++ to
  format_trace (rollbacked s from to t) =
      "[" ++ show t ++ "] Rollbacked " ++ s ++ ": " ++ from ++ " -> " ++ to
  format_trace (reaction_guard_evaluated _ from_signal from_state to_signal event guard result t) =
      "["
      ++ show t
      ++ "] ReactionGuardEvaluated "
      ++ reaction_name from_signal from_state to_signal event
      ++ " guard=`"
      ++ guard
      ++ "` result="
      ++ result
  format_trace (reaction_compensated _ from_signal from_state to_signal event action x t) =
      "["
      ++ show t
      ++ "] ReactionCompensated "
      ++ reaction_name from_signal from_state to_signal event
      ++ " on_fail="
      ++ action
      ++ " error="
      ++ x

  -- A guard evaluation of the reaction that was asked for.
  abbrev pub is_asked : ReactionKey → TraceEvent → Bool
  is_asked key (reaction_guard_evaluated _ from_signal from_state to_signal event _ _ _) =
      from_signal == key.from_signal
      && (from_state == key.from_state && (to_signal == key.to_signal && event == key.event))
  is_asked key _ = false

  -- The two counters and the lines, after the loop over the evaluations that matched.
  abbrev pub why_loop : List TraceEvent → ℕ → ℕ → List String → ℕ × ℕ × List String
  why_loop [] fired skipped lines = (fired, skipped, lines)
  why_loop (reaction_guard_evaluated _ _ _ _ _ guard result t ∷ rest) fired skipped lines =
      let line = "[" ++ show t ++ "] guard=`" ++ guard ++ "` result=" ++ result in
      why_loop rest (if result == "true" then fired + 1 else fired)
        (if result == "true" then skipped else skipped + 1) (List.◌++◌ lines (line ∷ []))
  why_loop (_ ∷ rest) fired skipped lines = why_loop rest fired skipped lines

  abbrev pub why_header : ReactionKey → String
  why_header key =
      "Guard evaluations for reaction "
      ++ reaction_name key.from_signal key.from_state key.to_signal key.event
      ++ ":"

  abbrev pub why_summary : ℕ → ℕ → ℕ → String
  why_summary evaluations fired skipped =
      show evaluations
      ++ " evaluation(s); "
      ++ show fired
      ++ " fired, "
      ++ show skipped
      ++ " skipped."

  abbrev pub why_lines : ReactionKey → List TraceEvent → List String
  why_lines key matched =
      let (fired, skipped, lines) = why_loop matched 0 0 (why_header key ∷ []) in
      List.◌++◌ lines (why_summary (length matched) fired skipped ∷ [])

  abbrev pub no_evaluation : String
  no_evaluation =
      "No guard evaluation found for that reaction (from_state may not have been reached yet)."

  abbrev pub why_text : ReactionKey → List TraceEvent → String
  why_text key [] = no_evaluation
  why_text key (e ∷ rest) = join_lines (why_lines key (e ∷ rest))

  unfoldable pub format_why : List TraceEvent → ReactionKey → String
  unfolding join_lines
  format_why traces key = why_text key (filter (is_asked key) traces)
