-- ===== src/Engine/Walk.antt =====
-- A relation that the stamping of an event, the write of a state and a callback keep is kept by a
-- whole call of `send_event`.
use sig_topo.Base.{
  ℕ, zero, suc, ◌+◌, String, Bool, true, false, Option, none, some, List, [], ◌∷◌, ◌++◌, HashMap,
  filter, Result, ok, err,
}
use sig_topo.Json.{Platform, Json}
use sig_topo.Error.{EngineError}
use sig_topo.Schema.{TransitionDef, ReactionDef}
use sig_topo.Trace.{TraceEvent}
use sig_topo.Context.{ActionContext}
use sig_topo.Engine.State.{Engine, Act, record_event, set_current}
use sig_topo.Engine.Action.{run_action, run_actions}
use sig_topo.Engine.Reaction.{
  TransitionResult, Sender, evaluate_reaction_guard, compensate, after_cascade, cascade,
  fire_one_reaction,
}
use sig_topo.Engine.Dispatch.{Pending, dispatch_loop, dispatch_reactions}
use sig_topo.Engine.Send.{
  enter_actions, settle, enter, lifecycle, run_transition, choose_transition, commit_transition,
  check_depth, react, reaction_matches, send_level, send_event_internal, send_event,
}
use sig_topo.Engine.Holds.{
  Holds, IsPreorder, Holds-pure, Holds-raise, Holds-lift, Holds-gets, Holds-capture, Holds-bind,
}

ruleset rules = (Holds-pure, Holds-raise, Holds-lift, Holds-gets, Holds-capture, Holds-bind)

module _ {p : Platform} {R : Engine p → Engine p → Type 0} (o : IsPreorder R)
    (stamps : (event : ℕ → TraceEvent) → Holds R (record_event event))
    (writes : (sid state : String) → Holds R (set_current sid state))
    (acts : (sid id : String) (ctx : ActionContext p) → Holds R (run_action sid id ctx)) where
  pub actions-Holds :
      (sid : String) (ctx : ActionContext p) (ids executed : List String)
      → Holds R (run_actions sid ctx ids executed)
  unfolding run_actions
  actions-Holds sid ctx [] executed = search rules
  actions-Holds sid ctx (id ∷ ids) executed =
      Holds-bind o _ _ (acts sid id ctx) λ _. actions-Holds sid ctx ids (executed ++ id ∷ [])

  settle-Holds :
      (ctx : ActionContext p) (r : Result EngineError (List String))
      → Holds {p = p} R (settle {p = p} ctx r)
  unfolding settle
  settle-Holds ctx (ok executed) = search rules
  settle-Holds ctx (err x) = search rules depth 10

  lifecycle-Holds :
      (t : TransitionDef) (ctx : ActionContext p) → Holds {p = p} R (lifecycle {p = p} t ctx)
  unfolding lifecycle enter enter_actions
  lifecycle-Holds t ctx = search (rules, actions-Holds, settle-Holds) depth 15 fits 2000

  commit-Holds :
      (sid event : String) (payload : Option (Json p.Number))
      → Holds {p = p} R (commit_transition {p = p} sid event payload)
  unfolding commit_transition choose_transition run_transition
  commit-Holds sid event payload = search (rules, lifecycle-Holds) depth 20 fits 2000

  guard-Holds :
      (r : ReactionDef p.Number) (payload : Option (Json p.Number)) (sid : String)
      (guard : Option String)
      → Holds {p = p} R (evaluate_reaction_guard {p = p} r payload sid guard)
  unfolding evaluate_reaction_guard
  guard-Holds r payload sid none = search rules
  guard-Holds r payload sid (some guard) = search rules depth 10

  hook-Holds :
      (r : ReactionDef p.Number) (payload : Option (Json p.Number)) (sid message : String)
      (hook : Option String)
      → Holds {p = p} R (compensate {p = p} r payload sid message hook)
  unfolding compensate
  hook-Holds r payload sid message none = search rules
  hook-Holds r payload sid message (some id) = search rules depth 10

  abbrev SendHolds : Sender p → Type 0
  SendHolds send =
      (sid event : String) (payload parent : Option (Json p.Number)) (depth : ℕ)
      → Holds R (send sid event payload parent depth)

  after_cascade-Holds :
      (r : ReactionDef p.Number) (payload : Option (Json p.Number)) (sid : String)
      (result : Result EngineError TransitionResult)
      → Holds {p = p} R (after_cascade {p = p} r payload sid result)
  unfolding after_cascade
  after_cascade-Holds r payload sid (ok _) = search rules
  after_cascade-Holds r payload sid (err x) = search (rules, hook-Holds)

  fire-Holds :
      (send : Sender p) (r : ReactionDef p.Number) (payload : Option (Json p.Number)) (depth : ℕ)
      (sid : String)
      → SendHolds send
      → Holds {p = p} R (fire_one_reaction {p = p} send r payload depth sid)
  unfolding fire_one_reaction
  fire-Holds send r payload depth sid sent =
      Holds-bind o _ _ (guard-Holds r payload sid r.guard) fires
    where
      fires : (b : Bool) → Holds R (cascade send r payload depth sid b)
      fires false = Holds-pure o tt
      fires true =
          Holds-bind o _ _
            (Holds-capture o _ (sent r.to_signal r.event r.payload r.payload (depth + 1)))
            (after_cascade-Holds r payload sid)

  loop-Holds :
      {N : Type 0} (fuel : ℕ) (fire : ReactionDef N → Act p (Unit {0})) (totals : HashMap ℕ)
      (ready : List (ReactionDef N)) (d : Pending N)
      → ((r : ReactionDef N) → Holds R (fire r))
      → Holds R (dispatch_loop fuel fire totals ready d)
  unfolding dispatch_loop
  loop-Holds zero fire totals [] d h = search rules
  loop-Holds (suc fuel) fire totals [] d h = search rules
  loop-Holds zero fire totals (r ∷ ready) d h = search rules
  loop-Holds (suc fuel) fire totals (r ∷ ready) d h =
      Holds-bind o _ _ (h r) λ _. loop-Holds fuel fire totals _ _ h

  dispatch-Holds :
      {N : Type 0} (fire : ReactionDef N → Act p (Unit {0})) (matched : List (ReactionDef N))
      → ((r : ReactionDef N) → Holds R (fire r))
      → Holds R (dispatch_reactions fire matched)
  unfolding dispatch_reactions
  dispatch-Holds fire matched h = loop-Holds _ fire _ _ _ h

  level-Holds : (send : Sender p) → SendHolds send → SendHolds (send_level send)
  unfolding send_level react
  level-Holds send sent sid event payload parent depth = Holds-bind o _ _ (depth-Holds depth) λ _.
      Holds-bind o _ _ (commit-Holds sid event payload) λ result.
        Holds-bind o _ _ (Holds-gets o (λ e. filter (reaction_matches sid result.to) e.reactions))
          λ matching.
            Holds-bind o _ _
              (dispatch-Holds (λ r. fire_one_reaction send r parent depth sid) matching
                λ r. fire-Holds send r parent depth sid sent)
              λ _. Holds-pure o result
    where
      depth-Holds : (d : ℕ) → Holds {p = p} R (check_depth {p = p} d)
      depth-Holds d = record { at = λ e. unfold check_depth in o.same e }

  levels-Holds : (levels : ℕ) → SendHolds (send_event_internal levels)
  unfolding send_event_internal
  levels-Holds zero sid event payload parent depth = search rules
  levels-Holds (suc levels) sid event payload parent depth =
      level-Holds (send_event_internal levels) (levels-Holds levels) sid event payload parent depth

  pub send_event-Holds :
      (sid event : String) (payload : Option (Json p.Number))
      → Holds R (send_event sid event payload)
  unfolding send_event
  send_event-Holds sid event payload = record {
    at = λ e. (levels-Holds (suc e.max_cascade_depth) sid event payload payload 0).at e;
  }
