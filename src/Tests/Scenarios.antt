-- ===== src/Tests/Scenarios.antt =====
-- The replay of a scenario at the shop of the samples: an injected failure, then the event again.
use sig_topo.Base.{ℕ, String, true, some, List, [], ◌∷◌, ◌≡◌, refl, lookup, insert, modify, ok}
use sig_topo.Base.Int.{ℤ}
use sig_topo.Json.{Platform}
use sig_topo.Schema.{all_actions}
use sig_topo.Trace.{TraceEvent, reaction_guard_evaluated, state_changed}
use sig_topo.Compose.Load.{Files}
use sig_topo.Engine.State.{Engine}
use sig_topo.Engine.Query.{ReactionKey}
use sig_topo.Engine.Send.{find_transition, check_guard, event_context}
use sig_topo.Guard.Eval.{eval_guard}
use sig_topo.Run.{
  FailSet, IsCell, Scenario, ScenarioEvent, handler, run_event, run_scenario, injected_failure,
  load_topology_for_run,
}
use sig_topo.Run.Format.{format_why}
use sig_topo.Run.Scopes.{replay, IsReady, run_scenario-replay}
use sig_topo.Run.Rollback.{injected_error, run_event-injected}
use sig_topo.Run.Loads.{CanRun, load_topology_for_run-CanRun}
use sig_topo.Run.Why.{Tells, why_report, format_why-report}
use sig_topo.Samples.{
  platform, shop, shop_engine, succeed, amount, order_signal, state_of, pay, decimal,
}

-- The fail set, and the lines that were printed, the last one first.
abbrev console : Platform
console = record platform { World = List String × List String }

abbrev cell : FailSet console
cell = record { borrow = λ w. w.0; replace = λ names w. (names, w.1) }

abbrev print_line : String → console.World → console.World
print_line line w = (w.0, line ∷ w.1)

abbrev is_cell : IsCell cell print_line
is_cell = record {
  borrow-replace = λ names w. refl;
  replace-replace = λ names before w. refl;
  replace-borrow = λ w. refl;
  borrow-println = λ line w. refl;
}

abbrev shop_files : Files ℤ
shop_files = record {
  read_to_string = λ path. some path;
  from_str = λ text. ok shop;
  canonicalize = λ path. some path;
  join_parent = λ path inc. inc;
}

abbrev quiet : console.World
quiet = ([], [])

abbrev loaded : Engine console
loaded = record {
  signals = (shop_engine succeed).signals;
  transitions = shop.transitions;
  reactions = shop.reactions;
  actions = ("charge", handler print_line (some cell) true "charge") ∷ [];
  trace = record { events = [] };
  max_cascade_depth = 8;
  clock_reads = 0;
  world = quiet;
}

loaded_for_shop :
    load_topology_for_run console print_line (some cell) true shop_files 2 "shop" quiet 0
    ≡ some (ok loaded)
unfolding load_topology_for_run insert lookup
loaded_for_shop = refl

load_topology_for_run-CanRun_example : CanRun print_line cell true quiet 0 loaded
load_topology_for_run-CanRun_example =
    load_topology_for_run-CanRun print_line cell true quiet 0 shop_files 2 "shop" loaded
      loaded_for_shop

abbrev paying : List String → ScenarioEvent ℤ
paying fail_actions = record {
  signal_id = "order";
  event = "pay";
  payload = amount 50;
  fail_actions = fail_actions;
}

abbrev twice : Scenario ℤ
twice = record { events = paying ("charge" ∷ []) ∷ paying [] ∷ [] }

loaded-IsReady : IsReady cell print_line true is_cell loaded
loaded-IsReady = (load_topology_for_run-CanRun_example.0, refl)

run_scenario-replay_example :
    (run_scenario cell twice loaded ≡ replay cell twice.events loaded)
    × IsReady cell print_line true is_cell (run_scenario cell twice loaded).1
run_scenario-replay_example =
    run_scenario-replay cell print_line true is_cell twice loaded loaded-IsReady

-- The first event is recorded, with the state before it; the second goes through.
twice_errors :
    (run_scenario cell twice loaded).0
    ≡ record {
      signal_id = "order";
      event = "pay";
      error = injected_failure "charge";
      state_after = "draft";
    }
      ∷ []
unfolding run_scenario injected_failure lookup eval_guard handler modify
twice_errors = refl

twice_prints : (run_scenario cell twice loaded).1.world ≡ ([], "[action] order.charge" ∷ [])
unfolding run_scenario lookup eval_guard handler modify
twice_prints = refl

charge_first : find_transition "order" "pay" "draft" loaded.transitions ≡ some pay
unfolding find_transition
charge_first = refl

charge_found : lookup "order" loaded.signals ≡ some (state_of order_signal "draft")
unfolding lookup
charge_found = refl

amount_allowed :
    check_guard pay.guard (event_context {p = console} "order" "pay" (amount 50) "draft" pay)
    ≡ ok tt
unfolding check_guard eval_guard lookup
amount_allowed = refl

run_event-injected_example :
    ((run_event cell (paying ("charge" ∷ [])) loaded).0
      ≡ injected_error (paying ("charge" ∷ [])) "draft" "charge" ∷ [])
    × ((run_event cell (paying ("charge" ∷ [])) loaded).1.signals ≡ loaded.signals)
unfolding lookup all_actions
run_event-injected_example =
    run_event-injected cell print_line true is_cell (paying ("charge" ∷ [])) loaded
      (state_of order_signal "draft") pay "charge" loaded-IsReady (refl, tt) charge_found
      charge_first amount_allowed refl

abbrev asked_for : ReactionKey
asked_for = record {
  from_signal = "order";
  from_state = "paid";
  to_signal = "stock";
  event = "reserve";
}

abbrev evaluations : List TraceEvent
evaluations =
    reaction_guard_evaluated "order" "order" "paid" "stock" "reserve" "true" "true" 3
    ∷ state_changed "order" "draft" "paid" 4
    ∷ reaction_guard_evaluated "order" "order" "paid" "mail" "reserve" "true" "true" 4
    ∷ reaction_guard_evaluated "order" "order" "paid" "stock" "reserve" "false" "false" 5
    ∷ []

format_why-report_example :
    (lines : List String) × (held : ℕ) × (failed : ℕ) × Tells platform asked_for evaluations lines
      held failed
    × (format_why platform evaluations asked_for ≡ why_report platform asked_for lines held failed)
format_why-report_example = format_why-report platform asked_for evaluations

evaluations_report :
    format_why platform evaluations asked_for
    ≡ "Guard evaluations for reaction order.paid -> stock.reserve:\n[3] guard=`true` result=true\n[5] guard=`false` result=false\n2 evaluation(s); 1 fired, 1 skipped."
unfolding format_why decimal
evaluations_report = refl
