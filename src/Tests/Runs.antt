-- ===== src/Tests/Runs.antt =====
-- Runs of the model at fixed inputs.
use sig_topo.Trace.{TraceEvent, reaction_guard_evaluated, event_received}
use sig_topo.Engine.Query.{ReactionKey, lookup_key, guard_info_from_traces}
use sig_topo.Engine.GuardInfo.{last_result, guard_info_from_traces-last}
use sig_topo.Base.{List, [], ◌∷◌, some, none, ◌≡◌, refl, ok, err, lookup, insert, modify}
use sig_topo.Error.{guard_blocked, action_execution_error}
use sig_topo.Engine.State.{Engine}
use sig_topo.Engine.Send.{send_event}
use sig_topo.Engine.Query.{get_state}
use sig_topo.Guard.Eval.{eval_guard}
use sig_topo.Samples.{platform, shop_engine, succeed, decline, amount}

paid : Engine platform
paid = (send_event "order" "pay" (amount 50) (shop_engine succeed)).1

paid_states : get_state "stock" paid ≡ ok "held"
unfolding paid send_event get_state lookup insert modify eval_guard
paid_states = refl

too_much :
    (send_event "order" "pay" (amount 101) (shop_engine succeed)).0
    ≡ err (guard_blocked "order" "pay" "payload.amount <= 100")
unfolding send_event lookup modify eval_guard
too_much = refl

declined :
    (send_event "order" "pay" (amount 50) (shop_engine decline)).0
    ≡ err (action_execution_error "declined")
unfolding send_event lookup modify eval_guard
declined = refl

-- A reaction whose guard was false, then true.
abbrev evaluations : List TraceEvent
evaluations =
    reaction_guard_evaluated "order" "order" "paid" "stock" "reserve" "payload.n > 1" "false" 1
    ∷ event_received "stock" "reserve" 2 none
    ∷ reaction_guard_evaluated "order" "order" "paid" "stock" "reserve" "payload.n > 1" "true" 3
    ∷ []

abbrev reserve_key : ReactionKey
reserve_key = record {
  from_signal = "order";
  from_state = "paid";
  to_signal = "stock";
  event = "reserve";
}

guard_info_from_traces-last_example :
    lookup_key reserve_key (guard_info_from_traces evaluations)
    ≡ last_result reserve_key evaluations
guard_info_from_traces-last_example = guard_info_from_traces-last reserve_key evaluations

last_true : last_result reserve_key evaluations ≡ some "true"
last_true = refl
