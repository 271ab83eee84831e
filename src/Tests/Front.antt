-- ===== src/Tests/Front.antt =====
-- The theorems on the checks, on runs and on the lowering, at small topologies.
use sig_topo.Base.{
  ◌≡◌, refl, some, none, [], ◌∷◌, ◌++◌, List, ok, false, contains, lookup, insert, modify, map,
}
use sig_topo.Base.Int.{ℤ}
use sig_topo.Schema.{TopologySchema}
use sig_topo.Schema.{ComponentDef}
use sig_topo.Compose.Expand.{expand}
use sig_topo.Guard.Eval.{eval_guard}
use sig_topo.Engine.State.{Engine}
use sig_topo.Engine.Send.{send_event, find_transition}
use sig_topo.Engine.Build.{from_schema, register_action}
use sig_topo.Engine.Query.{get_state}
use sig_topo.Engine.WellFormed.{IsWellFormed}
use sig_topo.Engine.Runs.{Step, Runs, from_schema-safe}
use sig_topo.Check.{unreachable_states}
use sig_topo.Check.Sound.{Runs-unreachable_states}
use sig_topo.Ddl.Ast.{DdlActionBinding, TransDecl}
use sig_topo.Ddl.Codegen.{transition_from, emit_transitions}
use sig_topo.Ddl.Wildcard.{chosen, emit_transitions-find}
use sig_topo.Samples.{
  platform, shop, order_signal, stock_signal, shop_engine, succeed, amount, plain_transition,
  state_of,
}

abbrev opened : Engine platform
opened = record (shop_engine succeed) { actions = [] }

opened-shop : from_schema platform 0 0 shop ≡ ok opened
unfolding from_schema insert
opened-shop = refl

-- The callback is registered, and the order is paid.
abbrev open_and_pay : Engine platform
open_and_pay =
    (send_event "order" "pay" (amount 50) (register_action platform "charge" succeed opened)).1

open_and_pay_run : Runs opened open_and_pay
open_and_pay_run =
    Runs.next (Step.registers "charge" succeed)
      (Runs.next (Step.sends "order" "pay" (amount 50)) Runs.stop)

from_schema-safe_example : IsWellFormed open_and_pay
from_schema-safe_example = from_schema-safe 0 0 shop opened-shop open_and_pay_run

-- Nothing ships an order.
shipped_warned : unreachable_states shop.transitions order_signal ≡ "shipped" ∷ []
unfolding unreachable_states
shipped_warned = refl

shop_flat : expand shop ≡ ok shop
unfolding expand
shop_flat = refl

paid_order : lookup "order" open_and_pay.signals ≡ some (state_of order_signal "paid")
unfolding send_event register_action lookup insert modify eval_guard
paid_order = refl

Runs-unreachable_states_example :
    contains "paid" (unreachable_states shop.transitions order_signal) ≡ false
Runs-unreachable_states_example =
    Runs-unreachable_states 0 0 shop shop shop_flat opened-shop (refl, (refl, tt)) open_and_pay_run
      order_signal (state_of order_signal "paid") refl paid_order

abbrev no_hooks : DdlActionBinding
no_hooks = record { on_exit = []; on_transition = []; on_enter = [] }

abbrev gate : List TransDecl
gate =
    record { event = "open"; from = "closed"; to = "open"; guard = none; actions = no_hooks }
    ∷ record { event = "close"; from = "*"; to = "closed"; guard = none; actions = no_hooks }
    ∷ []

emit_transitions-find_example :
    chosen (
      find_transition "gate" "close" "open" (emit_transitions "gate" ("closed" ∷ "open" ∷ []) gate))
    ≡ chosen
        (find_transition "gate" "close" "open" (map (λ tr. transition_from "gate" tr tr.from) gate))
emit_transitions-find_example =
    emit_transitions-find "gate" "close" "open" ("closed" ∷ "open" ∷ []) gate refl

-- A state that is named by the wildcard is called unreachable, and every state leads to it.
abbrev starred : TopologySchema ℤ
starred = record shop {
  signals = record order_signal { states = "draft" ∷ "*" ∷ [] } ∷ [];
  transitions = plain_transition "order" "*" "lose" "*" ∷ [];
  reactions = [];
}

starred_warned :
    unreachable_states starred.transitions (record order_signal { states = "draft" ∷ "*" ∷ [] })
    ≡ "*" ∷ []
unfolding unreachable_states
starred_warned = refl

abbrev starred_engine : Engine platform
starred_engine = record opened {
  signals = ("order", record (state_of order_signal "draft") { states = "draft" ∷ "*" ∷ [] }) ∷ [];
  transitions = starred.transitions;
  reactions = [];
}

starred_entered : get_state "order" (send_event "order" "lose" none starred_engine).1 ≡ ok "*"
unfolding send_event get_state lookup insert modify
starred_entered = refl

starred_built : from_schema platform 0 0 starred ≡ ok starred_engine
unfolding from_schema insert
starred_built = refl

-- A gate that is made once for each door.
abbrev door : ComponentDef ℤ
door = record {
  params = "d" ∷ [];
  ports = [];
  signals = record { id = "${d}"; initial_state = "shut"; states = "shut" ∷ "open" ∷ [] } ∷ [];
  transitions = plain_transition "${d}" "shut" "push" "open" ∷ [];
  reactions = [];
}

abbrev doors : TopologySchema ℤ
doors = record shop {
  components = some (("door", door) ∷ []);
  instances =
      record { component = "door"; bindings = ("d", "front") ∷ []; connections = [] }
      ∷ record { component = "door"; bindings = ("d", "back") ∷ []; connections = [] }
      ∷ [];
}

abbrev flat_doors : TopologySchema ℤ
flat_doors = record shop {
  signals =
      order_signal
      ∷ stock_signal
      ∷ record { id = "front"; initial_state = "shut"; states = "shut" ∷ "open" ∷ [] }
      ∷ record { id = "back"; initial_state = "shut"; states = "shut" ∷ "open" ∷ [] }
      ∷ [];
  transitions =
      shop.transitions
      ++ (plain_transition "front" "shut" "push" "open"
          ∷ plain_transition "back" "shut" "push" "open"
          ∷ []);
}
