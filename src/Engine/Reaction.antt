-- ===== src/Engine/Reaction.antt =====
-- `fire_one_reaction`: the guard of a reaction, its cascade, and its compensation. The call of
-- `send_event_internal` that it makes is passed as an argument.
use Prim.Native.String
use sig_topo.Base.{
  ℕ, ◌+◌, List, String, Bool, true, false, Option, none, some, lookup, Result, ok, err,
}
use sig_topo.Json.{Platform, Json}
use sig_topo.Error.{EngineError, to_string}
use sig_topo.Schema.{ReactionDef}
use sig_topo.Trace.{reaction_guard_evaluated, reaction_compensated}
use sig_topo.Context.{ActionContext}
use sig_topo.Guard.Eval.{eval_guard}
use sig_topo.Engine.State.{Engine, Act, pure, raise, capture, gets, ◌>>=◌, ◌>>◌, record_event}
use sig_topo.Engine.Action.{run_action}

-- `TransitionResult`
pub record TransitionResult : Type 0 where
  pub signal_id : String
  pub from : String
  pub to : String
  pub executed_actions : List String

-- `send_event_internal`: signal, event, payload, the parent's payload, depth.
abbrev pub Sender : Platform → Type 0
Sender p =
    String → String → Option (Json p.Number) → Option (Json p.Number) → ℕ → Act p TransitionResult

unfoldable pub guard_result_text : Result String Bool → String
guard_result_text (ok true) = "true"
guard_result_text (ok false) = "false"
guard_result_text (err msg) = String.◌++◌ "error: " msg

-- A guard that fails to evaluate skips the reaction, as one that is false does.
abbrev pub passes : Result String Bool → Bool
passes (ok b) = b
passes (err _) = false

module _ {p : Platform} where
  -- `.map(|s| s.current.clone()).unwrap_or_default()`
  unfoldable pub current_or_empty : String → Engine p → String
  current_or_empty signal_id e = elim (lookup signal_id e.signals) [
    | none ↦ ""
    | some s ↦ s.current
  ]

  abbrev pub reaction_context :
      ReactionDef p.Number → String → Option (Json p.Number) → Option String → ActionContext p
  reaction_context r to_current payload failure = record {
    signal_id = r.to_signal;
    from_state = r.from_state;
    to_state = to_current;
    event = r.event;
    payload = payload;
    failure = failure;
  }

  unfoldable pub evaluate_reaction_guard :
      ReactionDef p.Number → Option (Json p.Number) → String → Option String → Act p Bool
  unfolding ◌>>=◌ record_event current_or_empty guard_result_text
  evaluate_reaction_guard r parent_payload transition_signal none = pure true
  evaluate_reaction_guard r parent_payload transition_signal (some guard) = do
    to_current ← gets (current_or_empty r.to_signal)
    let result = eval_guard p guard (reaction_context r to_current parent_payload none)
    record_event (
        reaction_guard_evaluated transition_signal r.from_signal r.from_state r.to_signal r.event
          guard (guard_result_text result))
    pure (passes result)

  -- The hook's own outcome is dropped.
  unfoldable pub compensate :
      ReactionDef p.Number
      → Option (Json p.Number)
      → String
      → String
      → Option String
      → Act p (Unit {0})
  unfolding ◌>>=◌ record_event current_or_empty run_action
  compensate r parent_payload transition_signal error_msg none = pure tt
  compensate r parent_payload transition_signal error_msg (some action_id) = do
    to_current ← gets (current_or_empty r.to_signal)
    capture (
        run_action r.to_signal action_id
          (reaction_context r to_current parent_payload (some error_msg)))
    record_event (
        reaction_compensated transition_signal r.from_signal r.from_state r.to_signal r.event
          action_id error_msg)

  unfoldable pub after_cascade :
      ReactionDef p.Number
      → Option (Json p.Number)
      → String
      → Result EngineError TransitionResult
      → Act p (Unit {0})
  unfolding ◌>>=◌ compensate to_string
  after_cascade r parent_payload transition_signal (ok _) = pure tt
  after_cascade r parent_payload transition_signal (err x) = do
    compensate r parent_payload transition_signal (to_string x) r.on_fail
    raise x

  unfoldable pub cascade :
      Sender p
      → ReactionDef p.Number
      → Option (Json p.Number)
      → ℕ
      → String
      → Bool
      → Act p (Unit {0})
  unfolding ◌>>=◌ after_cascade
  cascade send r parent_payload depth transition_signal false = pure tt
  cascade send r parent_payload depth transition_signal true = do
    result ← capture (send r.to_signal r.event r.payload r.payload (depth + 1))
    after_cascade r parent_payload transition_signal result

  unfoldable pub fire_one_reaction :
      Sender p → ReactionDef p.Number → Option (Json p.Number) → ℕ → String → Act p (Unit {0})
  unfolding ◌>>=◌ evaluate_reaction_guard cascade
  fire_one_reaction send r parent_payload depth transition_signal = do
    fires ← evaluate_reaction_guard r parent_payload transition_signal r.guard
    cascade send r parent_payload depth transition_signal fires
