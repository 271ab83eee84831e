-- ===== src/Engine/Action.antt =====
-- `run_action`, and the loops over the action ids of a lifecycle phase.
use sig_topo.Base.{String, List, [], ◌∷◌, ◌++◌, lookup, Result, ok, err, ok_or}
use sig_topo.Json.{Platform}
use sig_topo.Error.{EngineError, to_string, action_not_found, action_execution_error}
use sig_topo.Trace.{action_started, action_succeeded, action_failed}
use sig_topo.Context.{ActionContext}
use sig_topo.Engine.State.{ActionFn, Act, pure, raise, lift, gets, ◌>>=◌, ◌>>◌, record_event}

-- The text that a failed callback leaves.
unfoldable pub failure_message : EngineError → String
unfolding to_string
failure_message (action_execution_error m) = m
failure_message e = to_string e

module _ {p : Platform} where
  -- The callback runs on its own surroundings alone.
  unfoldable pub call : ActionFn p → ActionContext p → Act p (Result EngineError (Unit {0}))
  call action ctx e = let (r, w) = action ctx e.world in (ok r, record e { world = w })

  unfoldable pub after_call : String → String → Result EngineError (Unit {0}) → Act p (Unit {0})
  unfolding ◌>>=◌ record_event failure_message
  after_call signal_id action_id (ok _) = record_event (action_succeeded signal_id action_id)
  after_call signal_id action_id (err x) = do
    record_event (λ t. action_failed signal_id action_id t (failure_message x))
    raise (action_execution_error (failure_message x))

  unfoldable pub run_action : String → String → ActionContext p → Act p (Unit {0})
  unfolding ◌>>=◌ record_event call after_call
  run_action signal_id action_id ctx = do
    record_event (action_started signal_id action_id)
    found ← gets (λ e. lookup action_id e.actions)
    action ← lift (ok_or found (action_not_found action_id))
    result ← call action ctx
    after_call signal_id action_id result

  -- `for action_id in ... { run_action(...)?; executed_actions.push(action_id) }`
  unfoldable pub run_actions :
      String → ActionContext p → List String → List String → Act p (List String)
  unfolding ◌>>=◌ run_action
  run_actions signal_id ctx [] executed = pure executed
  run_actions signal_id ctx (action_id ∷ ids) executed = do
    run_action signal_id action_id ctx
    run_actions signal_id ctx ids (executed ++ action_id ∷ [])
