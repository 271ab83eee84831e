-- ===== src/Engine/Refine.antt =====
-- Every call of the engine refines `Commits`: the lifecycle of one transition, a reaction, a
-- dispatch and a whole cascade, whether they return or fail.
use sig_topo.Base.{
  ℕ, String, ◌≡◌, refl, sym, ap, subst, ◌∙◌, Option, none, some, List, [], ◌∷◌, ◌++◌, append_assoc,
  HashMap, lookup, modify, Result, ok, err, ok_or, arith,
}
use sig_topo.Json.{Platform, Json}
use sig_topo.Error.{EngineError, signal_not_found}
use sig_topo.Schema.{TransitionDef}
use sig_topo.Trace.{TraceEvent, event_received, state_changed, rollbacked}
use sig_topo.Context.{ActionContext}
use sig_topo.Engine.State.{SignalState, Engine, record_event, ◌>>=◌, lift, pure}
use sig_topo.Engine.Action.{run_actions}
use sig_topo.Engine.Send.{
  find_transition, check_guard, event_context, enter_actions, settle, enter, lifecycle,
  run_transition, choose_transition, commit_transition,
}
use sig_topo.Engine.Holds.{Holds}
use sig_topo.Engine.Commits.{
  find_transition-IsFirst, check_guard-IsAllowed, Commits, moved, Commits-append, Commits-quiet,
}
use sig_topo.Engine.Relations.{IsStill, Refines, Refines-preorder, Refines-of_IsStill}
use mathlib.Core.Option
use sig_topo.Engine.Still.{record_event-IsStill, still_rules, run_actions-IsStill}

-- Writing the old state back undoes the tentative write.
pub modify_back :
    (k to : String) (s : SignalState) (m : HashMap SignalState)
    → lookup k m ≡ some s
    → modify k (moved s.current) (modify k (moved to) m) ≡ m
unfolding lookup modify
modify_back k to s [] h = refl
modify_back k to s ((j, v) ∷ m) h = ground (arith, modify_back k to s m)

module _ {p : Platform} where
  -- What is computed from the result at the end changes no state.
  ending-Refines :
      {A B : Type 0} (f : A → B) (r : Result EngineError A) (e e' : Engine p)
      → Refines e e'
      → Refines e ((lift r >>= λ a. pure (f a)) e').1
  unfolding ◌>>=◌
  ending-Refines f (ok a) e e' h = h
  ending-Refines f (err x) e e' h = h

  pub enter_actions-IsStill :
      (t : TransitionDef) (ctx : ActionContext p) (executed : List String)
      → Holds {p = p} IsStill (enter_actions t ctx executed)
  unfolding enter_actions
  enter_actions-IsStill t ctx executed = search (still_rules, run_actions-IsStill)

  module _ (sid event : String) (payload : Option (Json p.Number)) (s : SignalState)
      (t : TransitionDef) where
    abbrev pub tentative : Engine p → Engine p
    tentative e = record e { signals = modify sid (moved t.to) e.signals }

    settle-Refines :
        (r : Result EngineError (List String)) (e e3 : Engine p)
        → lookup sid e.signals ≡ some s
        → find_transition sid event s.current e.transitions ≡ some t
        → check_guard t.guard (event_context {p = p} sid event payload s.current t) ≡ ok tt
        → IsStill (tentative e) e3
        → Refines e (settle (event_context {p = p} sid event payload s.current t) r e3).1
    unfolding settle
    settle-Refines (ok executed) e e3 found first passed h =
        let time : ℕ = p.clock e3.clock_reads in
        let added : List TraceEvent = state_changed sid s.current t.to time ∷ [] in
        record {
          fixed = record {
            transitions = h.fixed.transitions;
            reactions = h.fixed.reactions;
            actions = h.fixed.actions;
            max_cascade_depth = h.fixed.max_cascade_depth;
          };
          events = h.events ++ added;
          trace = ap (λ b. b ++ added) h.trace ∙ append_assoc e.trace.events h.events added;
          commits =
              subst (λ m. Commits p e.transitions e.signals (h.events ++ added) m) (sym h.signals)
                (Commits-append (Commits-quiet h.events h.quiet) (
                  Commits.commit sid event payload s t time found first passed
                    (find_transition-IsFirst sid event s.current t _ first)
                    (check_guard-IsAllowed p sid event payload s.current t t.guard passed) refl
                    Commits.done));
        }
    settle-Refines (err x) e e3 found first passed h =
        let rolled : TraceEvent = rollbacked sid t.to s.current (p.clock e3.clock_reads) in
        let added : List TraceEvent = rolled ∷ [] in
        record {
          fixed = record {
            transitions = h.fixed.transitions;
            reactions = h.fixed.reactions;
            actions = h.fixed.actions;
            max_cascade_depth = h.fixed.max_cascade_depth;
          };
          events = h.events ++ added;
          trace = ap (λ b. b ++ added) h.trace ∙ append_assoc e.trace.events h.events added;
          commits =
              subst (λ m. Commits p e.transitions e.signals (h.events ++ added) m)
                (sym (
                  ap (modify sid (moved s.current)) h.signals
                  ∙ modify_back sid t.to s e.signals found))
                (Commits-append (Commits-quiet h.events h.quiet)
                  (Commits.quiet rolled tt Commits.done));
        }

    enter-Refines :
        (executed : List String) (e : Engine p)
        → lookup sid e.signals ≡ some s
        → find_transition sid event s.current e.transitions ≡ some t
        → check_guard t.guard (event_context {p = p} sid event payload s.current t) ≡ ok tt
        → Refines e (enter t (event_context {p = p} sid event payload s.current t) executed e).1
    unfolding enter
    enter-Refines executed e found first passed = settle-Refines _ e _ found first passed (
        (enter_actions-IsStill t (event_context {p = p} sid event payload s.current t) executed).at
          (tentative e))

    -- After the exit actions, which move nothing.
    exit-Refines :
        (r : Result EngineError (List String)) (e e1 : Engine p)
        → lookup sid e.signals ≡ some s
        → find_transition sid event s.current e.transitions ≡ some t
        → check_guard t.guard (event_context {p = p} sid event payload s.current t) ≡ ok tt
        → IsStill e e1
        → Refines e
            ((lift r >>= enter t (event_context {p = p} sid event payload s.current t)) e1).1
    unfolding ◌>>=◌
    exit-Refines (ok executed) e e1 found first passed h =
        Refines-preorder.trans e e1 _ (Refines-of_IsStill e e1 h) (
          enter-Refines executed e1 (ap (lookup sid) h.signals ∙ found)
            (ap (find_transition sid event s.current) h.fixed.transitions ∙ first) passed)
    exit-Refines (err x) e e1 found first passed h = Refines-of_IsStill e e1 h

    lifecycle-Refines :
        (e : Engine p)
        → lookup sid e.signals ≡ some s
        → find_transition sid event s.current e.transitions ≡ some t
        → check_guard t.guard (event_context {p = p} sid event payload s.current t) ≡ ok tt
        → Refines e (lifecycle t (event_context {p = p} sid event payload s.current t) e).1
    unfolding lifecycle ◌>>=◌
    lifecycle-Refines e found first passed =
        let ctx : ActionContext p = event_context {p = p} sid event payload s.current t in
        exit-Refines (run_actions sid ctx t.actions.on_exit [] e).0 e _ found first passed
          ((run_actions-IsStill sid ctx t.actions.on_exit []).at e)

    guarded-Refines :
        (r : Result EngineError (Unit {0})) (e : Engine p)
        → lookup sid e.signals ≡ some s
        → find_transition sid event s.current e.transitions ≡ some t
        → check_guard t.guard (event_context {p = p} sid event payload s.current t) ≡ r
        → Refines e (run_transition sid event payload s t e).1
    unfolding run_transition ◌>>=◌
    guarded-Refines (err x) e found first checked = rw checked (Refines-preorder.same e)
    guarded-Refines (ok _) e found first checked = rw checked (
        ending-Refines _ (lifecycle t (event_context {p = p} sid event payload s.current t) e).0 e _
          (lifecycle-Refines e found first checked))

  module _ (sid event : String) (payload : Option (Json p.Number)) where
    chosen-Refines :
        (s : SignalState) (o : Option TransitionDef) (e : Engine p)
        → lookup sid e.signals ≡ some s
        → find_transition sid event s.current e.transitions ≡ o
        → Refines e (choose_transition sid event payload s e).1
    unfolding choose_transition ◌>>=◌
    chosen-Refines s none e found first = rw first (Refines-preorder.same e)
    chosen-Refines s (some t) e found first =
        rw first (guarded-Refines sid event payload s t _ e found first refl)

    found-Refines :
        (o : Option SignalState) (e : Engine p)
        → lookup sid e.signals ≡ o
        → Refines e
            ((lift (ok_or o (signal_not_found sid)) >>= choose_transition sid event payload) e).1
    unfolding ◌>>=◌
    found-Refines none e found = Refines-preorder.same e
    found-Refines (some s) e found = chosen-Refines s _ e found refl

  pub commit_transition-Refines :
      (sid event : String) (payload : Option (Json p.Number))
      → Holds {p = p} Refines (commit_transition sid event payload)
  unfolding commit_transition ◌>>=◌
  commit_transition-Refines sid event payload = record {
    at = λ e.
        let received : ℕ → TraceEvent =
          λ t. event_received sid event t (Option.map p.json_to_string payload) in
        let e1 : Engine p = (record_event {p = p} received e).1 in
        Refines-preorder.trans e e1 _
          (Refines-of_IsStill e e1 ((record_event-IsStill received (λ t. tt)).at e))
          (found-Refines sid event payload (lookup sid e1.signals) e1 refl);
  }
