-- ===== src/Engine/Still.antt =====
-- Callbacks, guards and hooks move no signal.
use sig_topo.Base.{
  String, refl, sym, append-nil, List, [], ◌∷◌, ◌++◌, Result, ok, err, Option, none, some,
}
use sig_topo.Base.{ℕ}
use sig_topo.Json.{Platform, Json}
use sig_topo.Error.{EngineError}
use sig_topo.Schema.{ReactionDef}
use sig_topo.Trace.{TraceEvent}
use sig_topo.Context.{ActionContext}
use sig_topo.Engine.State.{ActionFn, record_event}
use sig_topo.Engine.Action.{call, after_call, run_action, run_actions}
use sig_topo.Engine.Reaction.{evaluate_reaction_guard, compensate}
use sig_topo.Engine.Holds.{
  Holds, IsPreorder, Holds-pure, Holds-raise, Holds-lift, Holds-gets, Holds-capture, Holds-bind,
}
use sig_topo.Engine.Commits.{IsQuiet}
use sig_topo.Engine.Relations.{IsFixed, IsStill, IsStill-preorder}

pub ruleset still_rules =
    (Holds-pure, Holds-raise, Holds-lift, Holds-gets, Holds-capture, Holds-bind, IsStill-preorder)

module _ {p : Platform} where
  pub record_event-IsStill :
      (event : ℕ → TraceEvent)
      → ((t : ℕ) → IsQuiet (event t))
      → Holds {p = p} IsStill (record_event event)
  unfolding record_event
  record_event-IsStill event q = record {
    at = λ e. record {
      fixed = record {
        transitions = refl;
        reactions = refl;
        actions = refl;
        max_cascade_depth = refl;
      };
      signals = refl;
      events = event (p.clock e.clock_reads) ∷ [];
      trace = refl;
      quiet = (q (p.clock e.clock_reads), tt);
    };
  }

  call-IsStill : (action : ActionFn p) (ctx : ActionContext p) → Holds IsStill (call action ctx)
  unfolding call
  call-IsStill action ctx = record {
    at = λ e. record {
      fixed = record {
        transitions = refl;
        reactions = refl;
        actions = refl;
        max_cascade_depth = refl;
      };
      signals = refl;
      events = [];
      trace = sym (append-nil e.trace.events);
      quiet = tt;
    };
  }

  after_call-IsStill :
      (signal_id action_id : String) (r : Result EngineError (Unit {0}))
      → Holds {p = p} IsStill (after_call signal_id action_id r)
  unfolding after_call
  after_call-IsStill signal_id action_id (ok _) = search (still_rules, record_event-IsStill, tt)
  after_call-IsStill signal_id action_id (err x) = search (still_rules, record_event-IsStill, tt)

  pub run_action-IsStill :
      (signal_id action_id : String) (ctx : ActionContext p)
      → Holds {p = p} IsStill (run_action signal_id action_id ctx)
  unfolding run_action
  run_action-IsStill signal_id action_id ctx =
      search (still_rules, record_event-IsStill, call-IsStill, after_call-IsStill, tt) depth 8

  pub run_actions-IsStill :
      (signal_id : String) (ctx : ActionContext p) (ids executed : List String)
      → Holds {p = p} IsStill (run_actions signal_id ctx ids executed)
  unfolding run_actions
  run_actions-IsStill signal_id ctx [] executed = search still_rules
  run_actions-IsStill signal_id ctx (action_id ∷ ids) executed =
      Holds-bind IsStill-preorder _ _ (run_action-IsStill signal_id action_id ctx)
        λ _. run_actions-IsStill signal_id ctx ids (executed ++ action_id ∷ [])

  pub evaluate_reaction_guard-IsStill :
      (r : ReactionDef p.Number) (payload : Option (Json p.Number)) (signal_id : String)
      (guard : Option String)
      → Holds {p = p} IsStill (evaluate_reaction_guard {p = p} r payload signal_id guard)
  unfolding evaluate_reaction_guard
  evaluate_reaction_guard-IsStill r payload signal_id none = search still_rules
  evaluate_reaction_guard-IsStill r payload signal_id (some guard) =
      search (still_rules, record_event-IsStill, tt)

  pub compensate-IsStill :
      (r : ReactionDef p.Number) (payload : Option (Json p.Number)) (signal_id message : String)
      (hook : Option String)
      → Holds {p = p} IsStill (compensate {p = p} r payload signal_id message hook)
  unfolding compensate
  compensate-IsStill r payload signal_id message none = search still_rules
  compensate-IsStill r payload signal_id message (some action_id) =
      search (still_rules, record_event-IsStill, run_action-IsStill, tt) depth 8
