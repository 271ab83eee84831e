-- ===== src/Tests/Engine.antt =====
-- The theorems on `send_event` and on the topology's checks, at the shop of the samples.
use sig_topo.Base.{some, err, lookup, modify, ◌≡◌, refl, [], ok, length, insert, arith}
use sig_topo.Engine.State.{Engine}
use sig_topo.Engine.Send.{commit_transition, send_level, send_event_internal, send_event}
use sig_topo.Engine.Validate.{validate}
use sig_topo.Engine.Build.{from_schema}
use sig_topo.Engine.Relations.{Refines}
use sig_topo.Engine.Cascades.{send_event-Refines}
use sig_topo.Engine.Replay.{drop, replay, send_event-replay}
use sig_topo.Engine.WellFormed.{IsWellFormed, send_event-IsWellFormed}
use sig_topo.Engine.Validated.{IsValid, validate-IsValid}
use sig_topo.Engine.Built.{from_schema-IsWellFormed}
use sig_topo.Engine.Atomic.{IsAtomic, commit_transition-IsAtomic}
use sig_topo.Engine.Levels.{send_event_internal-level}
use sig_topo.Base.Int.{ℤ}
use sig_topo.Schema.{ReactionDef}
use sig_topo.Error.{transition_not_found}
use sig_topo.Guard.Eval.{eval_guard}
use sig_topo.Engine.Reaction.{fire_one_reaction}
use sig_topo.Engine.Outcome.{IsReaction}
use sig_topo.Engine.Reacts.{sends, fire_one_reaction-outcome}
use sig_topo.Samples.{plain_reaction, platform, shop, shop_engine, succeed, decline, amount}

abbrev paid : Engine platform
paid = (send_event "order" "pay" (amount 50) (shop_engine succeed)).1

abbrev fresh : Engine platform
fresh = record (shop_engine succeed) { actions = [] }

fresh_loaded : from_schema platform 0 0 shop ≡ ok fresh
unfolding from_schema insert
fresh_loaded = refl

shop_valid : validate platform shop ≡ ok tt
unfolding validate
shop_valid = refl

send_event-Refines_example :
    Refines (shop_engine succeed) (send_event "order" "pay" (amount 50) (shop_engine succeed)).1
send_event-Refines_example = send_event-Refines "order" "pay" (amount 50) (shop_engine succeed)

send_event-replay_example :
    paid.signals
    ≡ replay
        (drop (length (shop_engine succeed).trace.events) paid.trace.events)
        (shop_engine succeed).signals
send_event-replay_example = send_event-replay "order" "pay" (amount 50) (shop_engine succeed)

fresh-IsWellFormed : IsWellFormed fresh
fresh-IsWellFormed = from_schema-IsWellFormed platform 0 0 shop fresh fresh_loaded

send_event-IsWellFormed_example : IsWellFormed paid
send_event-IsWellFormed_example =
    send_event-IsWellFormed "order" "pay" (amount 50) (shop_engine succeed) fresh-IsWellFormed

from_schema-IsWellFormed_example : IsWellFormed fresh
from_schema-IsWellFormed_example = from_schema-IsWellFormed platform 0 0 shop fresh fresh_loaded

validate-IsValid_example : IsValid platform shop
validate-IsValid_example = validate-IsValid platform shop shop_valid

commit_transition-IsAtomic_example :
    let r = commit_transition "order" "pay" (amount 50) (shop_engine decline) in
    IsAtomic "order" (shop_engine decline).signals r.0 r.1
commit_transition-IsAtomic_example =
    commit_transition-IsAtomic "order" "pay" (amount 50) (shop_engine decline)

send_event_internal-level_example :
    send_event_internal 9 "order" "pay" (amount 50) (amount 50) 0 (shop_engine succeed)
    ≡ send_level
        (send_event_internal 9)
        "order"
        "pay"
        (amount 50)
        (amount 50)
        0
        (shop_engine succeed)
send_event_internal-level_example =
    send_event_internal-level 9 "order" "pay" (amount 50) (amount 50) 0 (shop_engine succeed)
      (omega arith)

-- It asks the stock for an event that it does not have.
abbrev failing_reaction : ReactionDef ℤ
failing_reaction = record (plain_reaction "order" "paid" "stock" "missing") {
  guard = some "payload.amount > 1";
  on_fail = some "charge";
}

fire_one_reaction-outcome_example :
    IsReaction failing_reaction
      (amount 50)
      "order"
      (sends failing_reaction (amount 50) "order" (send_event_internal 5) 0)
      failing_reaction.guard
      (shop_engine succeed)
      (fire_one_reaction
        (send_event_internal 5)
        failing_reaction
        (amount 50)
        0
        "order"
        (shop_engine succeed))
fire_one_reaction-outcome_example =
    fire_one_reaction-outcome failing_reaction (amount 50) "order" (send_event_internal 5) 0
      (shop_engine succeed)

failing_reaction_error :
    (fire_one_reaction
      (send_event_internal 5)
      failing_reaction
      (amount 50)
      0
      "order"
      (shop_engine succeed)).0
    ≡ err (transition_not_found "stock" "missing")
unfolding fire_one_reaction send_event_internal lookup modify eval_guard
failing_reaction_error = refl
