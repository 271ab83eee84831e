-- ===== src/Trace.antt =====
-- trace.rs: the events of a run, and the log of them, which only grows until it is cleared.
use sig_topo.Base.{ℕ, String, Option, List, [], ◌∷◌, ◌++◌, leb, filter, ◌==◌}

-- Timestamps stand where the source has them; a `ReactionGuardEvaluated` or `ReactionCompensated`
-- carries the signal, the reaction's four keys, then guard and result, or action and error.
pub data TraceEvent : Type 0 where
  event_received : String → String → ℕ → Option String → TraceEvent
  action_started action_succeeded : String → String → ℕ → TraceEvent
  action_failed : String → String → ℕ → String → TraceEvent
  state_changed rollbacked : String → String → String → ℕ → TraceEvent
  reaction_guard_evaluated reaction_compensated :
      String → String → String → String → String → String → String → ℕ → TraceEvent

unfoldable pub signal_id : TraceEvent → String
signal_id (event_received s _ _ _) = s
signal_id (action_started s _ _) = s
signal_id (action_succeeded s _ _) = s
signal_id (action_failed s _ _ _) = s
signal_id (state_changed s _ _ _) = s
signal_id (rollbacked s _ _ _) = s
signal_id (reaction_guard_evaluated s _ _ _ _ _ _ _) = s
signal_id (reaction_compensated s _ _ _ _ _ _ _) = s

unfoldable pub timestamp_ms : TraceEvent → ℕ
timestamp_ms (event_received _ _ t _) = t
timestamp_ms (action_started _ _ t) = t
timestamp_ms (action_succeeded _ _ t) = t
timestamp_ms (action_failed _ _ t _) = t
timestamp_ms (state_changed _ _ _ t) = t
timestamp_ms (rollbacked _ _ _ t) = t
timestamp_ms (reaction_guard_evaluated _ _ _ _ _ _ _ t) = t
timestamp_ms (reaction_compensated _ _ _ _ _ _ _ t) = t

pub record TraceLog : Type 0 where
  pub events : List TraceEvent

unfoldable pub push : TraceLog → TraceEvent → TraceLog
push log event = record { events = log.events ++ event ∷ [] }

unfoldable pub clear : TraceLog → TraceLog
clear log = record { events = [] }

unfoldable pub for_signal : TraceLog → String → List TraceEvent
unfolding signal_id
for_signal log s = filter (λ e. signal_id e == s) log.events

unfoldable pub since : TraceLog → ℕ → List TraceEvent
unfolding timestamp_ms
since log t = filter (λ e. leb t (timestamp_ms e)) log.events
