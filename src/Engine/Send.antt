-- ===== src/Engine/Send.antt =====
-- `send_event` and `send_event_internal`.
use sig_topo.Base.{
  ℕ, zero, suc, String, Bool, true, false, ◌&&◌, ◌||◌, Option, none, some, List, [], find, filter,
  ltb, if◌then◌else◌, ◌==◌, lookup, Result, ok, err, ok_or,
}
use mathlib.Core.Option
use sig_topo.Json.{Platform, Json}
use sig_topo.Error.{
  EngineError, signal_not_found, transition_not_found, guard_blocked, guard_evaluation_error,
  cascade_depth_exceeded,
}
use sig_topo.Schema.{TransitionDef, ReactionDef}
use sig_topo.Trace.{event_received, state_changed, rollbacked}
use sig_topo.Context.{ActionContext}
use sig_topo.Guard.Eval.{eval_guard}
use sig_topo.Engine.State.{
  SignalState, Engine, Act, pure, raise, lift, capture, gets, ◌>>=◌, ◌>>◌, record_event,
  set_current,
}
use sig_topo.Engine.Action.{run_actions}
use sig_topo.Engine.Reaction.{TransitionResult, Sender, fire_one_reaction}
use sig_topo.Engine.Dispatch.{dispatch_reactions}

-- The wildcard `*`, or the state itself.
abbrev pub state_matches : String → String → Bool
state_matches pattern current = pattern == current || pattern == "*"

abbrev pub transition_matches : String → String → String → TransitionDef → Bool
transition_matches signal_id event current t =
    t.signal_id == signal_id && (t.event == event && state_matches t.from current)

unfoldable pub find_transition :
    String → String → String → List TransitionDef → Option TransitionDef
find_transition signal_id event current = find (transition_matches signal_id event current)

abbrev pub reaction_matches : {N : Type 0} → String → String → ReactionDef N → Bool
reaction_matches signal_id state r = r.from_signal == signal_id && state_matches r.from_state state

abbrev pub transition_result : String → SignalState → TransitionDef → List String → TransitionResult
transition_result signal_id signal transition executed = record {
  signal_id = signal_id;
  from = signal.current;
  to = transition.to;
  executed_actions = executed;
}

module _ {p : Platform} where
  abbrev pub guard_outcome :
      String → ActionContext p → Result String Bool → Result EngineError (Unit {0})
  guard_outcome guard ctx (ok true) = ok tt
  guard_outcome guard ctx (ok false) = err (guard_blocked ctx.signal_id ctx.event guard)
  guard_outcome guard ctx (err msg) = err (guard_evaluation_error msg)

  unfoldable pub check_guard : Option String → ActionContext p → Result EngineError (Unit {0})
  check_guard none ctx = ok tt
  check_guard (some guard) ctx = guard_outcome guard ctx (eval_guard p guard ctx)

  -- The phases after the tentative write of the target state.
  unfoldable pub enter_actions : TransitionDef → ActionContext p → List String → Act p (List String)
  unfolding ◌>>=◌ run_actions
  enter_actions t ctx executed = do
    executed' ← run_actions ctx.signal_id ctx t.actions.on_transition executed
    run_actions ctx.signal_id ctx t.actions.on_enter executed'

  -- Roll back, or make the durable record of the change.
  unfoldable pub settle : ActionContext p → Result EngineError (List String) → Act p (List String)
  unfolding ◌>>=◌ record_event set_current
  settle ctx (ok executed) = do
    record_event (state_changed ctx.signal_id ctx.from_state ctx.to_state)
    pure executed
  settle ctx (err x) = do
    set_current ctx.signal_id ctx.from_state
    record_event (rollbacked ctx.signal_id ctx.to_state ctx.from_state)
    raise x

  -- From the tentative write of the target state on.
  unfoldable pub enter : TransitionDef → ActionContext p → List String → Act p (List String)
  unfolding ◌>>=◌ set_current enter_actions settle
  enter t ctx executed = do
    set_current ctx.signal_id ctx.to_state
    outcome ← capture (enter_actions t ctx executed)
    settle ctx outcome

  -- The three lifecycle phases of a transition.
  unfoldable pub lifecycle : TransitionDef → ActionContext p → Act p (List String)
  unfolding ◌>>=◌ run_actions enter
  lifecycle t ctx = do
    executed ← run_actions ctx.signal_id ctx t.actions.on_exit []
    enter t ctx executed

  abbrev pub event_context :
      String → String → Option (Json p.Number) → String → TransitionDef → ActionContext p
  event_context signal_id event payload current t = record {
    signal_id = signal_id;
    from_state = current;
    to_state = t.to;
    event = event;
    payload = payload;
    failure = none;
  }

  -- The guard and the lifecycle of the transition that was chosen.
  unfoldable pub run_transition :
      String
      → String
      → Option (Json p.Number)
      → SignalState
      → TransitionDef
      → Act p TransitionResult
  unfolding ◌>>=◌ check_guard lifecycle
  run_transition signal_id event payload signal transition = do
    let ctx = event_context signal_id event payload signal.current transition
    lift (check_guard transition.guard ctx)
    executed ← lifecycle transition ctx
    pure (transition_result signal_id signal transition executed)

  unfoldable pub choose_transition :
      String → String → Option (Json p.Number) → SignalState → Act p TransitionResult
  unfolding ◌>>=◌ find_transition run_transition
  choose_transition signal_id event payload signal = do
    chosen ← gets (λ e. find_transition signal_id event signal.current e.transitions)
    transition ← lift (ok_or chosen (transition_not_found signal_id event))
    run_transition signal_id event payload signal transition

  -- From the receipt of the event to the commit of its transition.
  unfoldable pub commit_transition :
      String → String → Option (Json p.Number) → Act p TransitionResult
  unfolding ◌>>=◌ record_event choose_transition
  commit_transition signal_id event payload = do
    record_event (λ t. event_received signal_id event t (Option.map p.json_to_string payload))
    found ← gets (λ e. lookup signal_id e.signals)
    signal ← lift (ok_or found (signal_not_found signal_id))
    choose_transition signal_id event payload signal

  -- The depth limit.
  abbrev pub depth_error : ℕ → Engine p → Result EngineError (Unit {0})
  depth_error depth e = if ltb e.max_cascade_depth depth then err cascade_depth_exceeded else ok tt

  unfoldable pub check_depth : ℕ → Act p (Unit {0})
  check_depth depth e = (depth_error depth e, e)

  -- The reactions to the state that was entered; `send` is the call that they make.
  unfoldable pub react :
      Sender p → String → Option (Json p.Number) → ℕ → TransitionResult → Act p TransitionResult
  unfolding ◌>>=◌ dispatch_reactions fire_one_reaction
  react send signal_id parent_payload depth result = do
    matching ← gets (λ e. filter (reaction_matches signal_id result.to) e.reactions)
    dispatch_reactions (λ r. fire_one_reaction send r parent_payload depth signal_id) matching
    pure result

  -- One level of a cascade.
  unfoldable pub send_level : Sender p → Sender p
  unfolding ◌>>=◌ check_depth commit_transition react
  send_level send signal_id event payload parent_payload depth = do
    check_depth depth
    result ← commit_transition signal_id event payload
    react send signal_id parent_payload depth result

  -- At `levels` zero the depth is past its limit, if `levels + depth` is more than it at the start.
  unfoldable pub send_event_internal : ℕ → Sender p
  unfolding send_level raise
  send_event_internal zero signal_id event payload parent_payload depth =
      raise cascade_depth_exceeded
  send_event_internal (suc levels) signal_id event payload parent_payload depth =
      send_level (send_event_internal levels) signal_id event payload parent_payload depth

  unfoldable pub send_event : String → String → Option (Json p.Number) → Act p TransitionResult
  unfolding send_event_internal
  send_event signal_id event payload e =
      send_event_internal (suc e.max_cascade_depth) signal_id event payload payload 0 e
