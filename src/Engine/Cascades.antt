-- ===== src/Engine/Cascades.antt =====
-- A reaction, a dispatch and a whole cascade refine `Commits`, whether they return or fail.
use sig_topo.Base.{
  ℕ, zero, suc, ◌+◌, filter, String, Bool, true, false, Option, List, [], ◌∷◌, HashMap, Result, ok,
  err,
}
use sig_topo.Json.{Platform, Json}
use sig_topo.Error.{EngineError}
use sig_topo.Schema.{ReactionDef}
use sig_topo.Engine.State.{Engine, Act}
use sig_topo.Engine.Reaction.{
  TransitionResult, Sender, cascade, after_cascade, fire_one_reaction, evaluate_reaction_guard,
  compensate,
}
use sig_topo.Engine.Dispatch.{Pending, dispatch_loop, dispatch_reactions}
use sig_topo.Engine.Send.{
  reaction_matches, check_depth, react, send_level, send_event_internal, send_event,
}
use sig_topo.Engine.Holds.{
  Holds, Holds-pure, Holds-raise, Holds-lift, Holds-gets, Holds-capture, Holds-bind,
}
use sig_topo.Engine.Relations.{IsStill, Refines, Refines-preorder, Refines-of_IsStill}
use sig_topo.Engine.Still.{evaluate_reaction_guard-IsStill, compensate-IsStill}
use sig_topo.Engine.Refine.{commit_transition-Refines}

ruleset refine_rules =
    (Holds-pure, Holds-raise, Holds-lift, Holds-gets, Holds-capture, Holds-bind, Refines-preorder)

module _ {p : Platform} where
  Holds-of_IsStill : {A : Type 0} (m : Act p A) → Holds IsStill m → Holds Refines m
  Holds-of_IsStill m h = record { at = λ e. Refines-of_IsStill e _ (h.at e) }

  pub guard-Refines :
      (r : ReactionDef p.Number) (payload : Option (Json p.Number)) (signal_id : String)
      (guard : Option String)
      → Holds {p = p} Refines (evaluate_reaction_guard {p = p} r payload signal_id guard)
  guard-Refines r payload signal_id guard =
      Holds-of_IsStill _ (evaluate_reaction_guard-IsStill r payload signal_id guard)

  hook-Refines :
      (r : ReactionDef p.Number) (payload : Option (Json p.Number)) (signal_id message : String)
      (hook : Option String)
      → Holds {p = p} Refines (compensate {p = p} r payload signal_id message hook)
  hook-Refines r payload signal_id message hook =
      Holds-of_IsStill _ (compensate-IsStill r payload signal_id message hook)

  abbrev pub SendRefines : Sender p → Type 0
  SendRefines send =
      (sid event : String) (payload parent : Option (Json p.Number)) (depth : ℕ)
      → Holds {p = p} Refines (send sid event payload parent depth)

  module _ (send : Sender p) (sent : SendRefines send) where
    after_cascade-Refines :
        (r : ReactionDef p.Number) (payload : Option (Json p.Number)) (sid : String)
        (result : Result EngineError TransitionResult)
        → Holds {p = p} Refines (after_cascade {p = p} r payload sid result)
    unfolding after_cascade
    after_cascade-Refines r payload sid (ok _) = search refine_rules
    after_cascade-Refines r payload sid (err x) = search (refine_rules, hook-Refines)

    cascade-Refines :
        (r : ReactionDef p.Number) (payload : Option (Json p.Number)) (depth : ℕ) (sid : String)
        (fires : Bool)
        → Holds {p = p} Refines (cascade send r payload depth sid fires)
    unfolding cascade
    cascade-Refines r payload depth sid false = search refine_rules
    cascade-Refines r payload depth sid true =
        Holds-bind Refines-preorder _ _
          (Holds-capture Refines-preorder _
            (sent r.to_signal r.event r.payload r.payload (depth + 1)))
          (after_cascade-Refines r payload sid)

    pub fire_one_reaction-Refines :
        (r : ReactionDef p.Number) (payload : Option (Json p.Number)) (depth : ℕ) (sid : String)
        → Holds {p = p} Refines (fire_one_reaction send r payload depth sid)
    unfolding fire_one_reaction
    fire_one_reaction-Refines r payload depth sid =
        Holds-bind Refines-preorder _ _ (guard-Refines r payload sid r.guard)
          (cascade-Refines r payload depth sid)

  dispatch_loop-Refines :
      {N : Type 0} (fuel : ℕ) (fire : ReactionDef N → Act p (Unit {0})) (totals : HashMap ℕ)
      (ready : List (ReactionDef N)) (d : Pending N)
      → ((r : ReactionDef N) → Holds {p = p} Refines (fire r))
      → Holds {p = p} Refines (dispatch_loop fuel fire totals ready d)
  unfolding dispatch_loop
  dispatch_loop-Refines zero fire totals [] d h = search refine_rules
  dispatch_loop-Refines (suc fuel) fire totals [] d h = search refine_rules
  dispatch_loop-Refines zero fire totals (r ∷ ready) d h = search refine_rules
  dispatch_loop-Refines (suc fuel) fire totals (r ∷ ready) d h =
      Holds-bind Refines-preorder _ _ (h r) λ _. dispatch_loop-Refines fuel fire totals _ _ h

  pub dispatch_reactions-Refines :
      {N : Type 0} (fire : ReactionDef N → Act p (Unit {0})) (matched : List (ReactionDef N))
      → ((r : ReactionDef N) → Holds {p = p} Refines (fire r))
      → Holds {p = p} Refines (dispatch_reactions fire matched)
  unfolding dispatch_reactions
  dispatch_reactions-Refines fire matched h = dispatch_loop-Refines _ fire _ _ _ h

  pub check_depth-Refines : (depth : ℕ) → Holds {p = p} Refines (check_depth depth)
  unfolding check_depth
  check_depth-Refines depth = record { at = Refines-preorder.same }

  react-Refines :
      (send : Sender p)
      → SendRefines send
      → (sid : String) (parent : Option (Json p.Number)) (depth : ℕ) (result : TransitionResult)
      → Holds {p = p} Refines (react send sid parent depth result)
  unfolding react
  react-Refines send sent sid parent depth result =
      Holds-bind Refines-preorder _ _
        (Holds-gets Refines-preorder (λ e. filter (reaction_matches sid result.to) e.reactions))
        λ matching.
          Holds-bind Refines-preorder _ _
            (dispatch_reactions-Refines (λ r. fire_one_reaction send r parent depth sid) matching
              (λ r. fire_one_reaction-Refines send sent r parent depth sid))
            λ _. Holds-pure Refines-preorder result

  send_level-Refines : (send : Sender p) → SendRefines send → SendRefines (send_level send)
  unfolding send_level
  send_level-Refines send sent sid event payload parent depth =
      Holds-bind Refines-preorder _ _ (check_depth-Refines depth) λ _.
        Holds-bind Refines-preorder _ _ (commit_transition-Refines sid event payload)
          (react-Refines send sent sid parent depth)

  pub send_event_internal-Refines : (levels : ℕ) → SendRefines (send_event_internal levels)
  unfolding send_event_internal
  send_event_internal-Refines zero sid event payload parent depth = search refine_rules
  send_event_internal-Refines (suc levels) sid event payload parent depth =
      send_level-Refines (send_event_internal levels) (send_event_internal-Refines levels) sid event
        payload parent depth

  -- Whether it returns or fails, a call of `send_event` leaves topology, actions and depth limit
  -- alone, only adds to the trace, and moves the signals by exactly the commits that the added
  -- events tell of: each by the first transition that matches an event in the signal's state, with
  -- its guard passed.
  pub send_event-Refines :
      (sid event : String) (payload : Option (Json p.Number)) (e : Engine p)
      → Refines e (send_event sid event payload e).1
  unfolding send_event
  send_event-Refines sid event payload e =
      (send_event_internal-Refines (suc e.max_cascade_depth) sid event payload payload 0).at e
