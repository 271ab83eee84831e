-- ===== src/Engine/Levels.antt =====
-- The depth limit ends every cascade: the levels that `send_event` hands out are enough, and the
-- recursion of the source holds at every sufficient number of them.
use sig_topo.Base.{
  ℕ, zero, suc, ◌+◌, ◌<◌, String, ◌≡◌, refl, sym, Bool, true, false, Option, List, [], ◌∷◌, HashMap,
  filter, arith, ltb, err,
}
use sig_topo.Json.{Platform, Json}
use sig_topo.Error.{cascade_depth_exceeded}
use sig_topo.Schema.{ReactionDef}
use sig_topo.Engine.State.{Engine, Act, pure}
use sig_topo.Engine.Reaction.{TransitionResult, Sender, after_cascade, cascade, fire_one_reaction}
use sig_topo.Engine.Dispatch.{Pending, dispatch_loop, dispatch_reactions}
use sig_topo.Engine.Send.{reaction_matches, react, send_level, send_event_internal}
use sig_topo.Engine.Holds.{Holds, Holds-gets, Holds-capture}
use sig_topo.Engine.Relations.{Refines, Refines-preorder}
use sig_topo.Engine.Refine.{commit_transition-Refines}
use sig_topo.Engine.Cascades.{
  SendRefines, guard-Refines, check_depth-Refines, fire_one_reaction-Refines,
  dispatch_reactions-Refines, send_event_internal-Refines,
}
use sig_topo.Engine.Agree.{Agree, Agree-refl, Agree-capture, Agree-bind}

-- Past its limit a cascade stops with an error, and changes nothing.
pub send_level-too_deep :
    {p : Platform} (send : Sender p) (sid event : String) (payload parent : Option (Json p.Number))
    (depth : ℕ) (e : Engine p)
    → e.max_cascade_depth < depth
    → send_level send sid event payload parent depth e ≡ (err cascade_depth_exceeded, e)
unfolding send_level
send_level-too_deep send sid event payload parent depth e h =
    let deep : ltb e.max_cascade_depth depth ≡ true = ground arith in rw deep

module _ {p : Platform} (limit : ℕ) where
  abbrev SendAgree : Sender p → Sender p → ℕ → Type 0
  SendAgree send send' depth =
      (sid event : String) (payload parent : Option (Json p.Number))
      → Agree limit (send sid event payload parent depth) (send' sid event payload parent depth)

  module _ (send send' : Sender p) (depth : ℕ) (same : SendAgree send send' (depth + 1))
      (sent : SendRefines send') where
    cascade-Agree :
        (r : ReactionDef p.Number) (payload : Option (Json p.Number)) (sid : String) (fires : Bool)
        → Agree limit
            (cascade send r payload depth sid fires)
            (cascade send' r payload depth sid fires)
    unfolding cascade
    cascade-Agree r payload sid false = Agree-refl limit _
    cascade-Agree r payload sid true =
        Agree-bind limit _ _ _ _
          (Agree-capture limit _ _ (same r.to_signal r.event r.payload r.payload))
          (Holds-capture Refines-preorder _
            (sent r.to_signal r.event r.payload r.payload (depth + 1)))
          (λ result. Agree-refl limit (after_cascade {p = p} r payload sid result))

    fire_one_reaction-Agree :
        (r : ReactionDef p.Number) (payload : Option (Json p.Number)) (sid : String)
        → Agree limit
            (fire_one_reaction send r payload depth sid)
            (fire_one_reaction send' r payload depth sid)
    unfolding fire_one_reaction
    fire_one_reaction-Agree r payload sid =
        Agree-bind limit _ _ _ _ (Agree-refl limit _) (guard-Refines r payload sid r.guard)
          (cascade-Agree r payload sid)

  dispatch_loop-Agree :
      {N : Type 0} (fuel : ℕ) (fire fire' : ReactionDef N → Act p (Unit {0})) (totals : HashMap ℕ)
      (ready : List (ReactionDef N)) (d : Pending N)
      → ((r : ReactionDef N) → Agree limit (fire r) (fire' r))
      → ((r : ReactionDef N) → Holds {p = p} Refines (fire' r))
      → Agree limit
          (dispatch_loop fuel fire totals ready d)
          (dispatch_loop fuel fire' totals ready d)
  unfolding dispatch_loop
  dispatch_loop-Agree zero fire fire' totals [] d h k = Agree-refl limit _
  dispatch_loop-Agree (suc fuel) fire fire' totals [] d h k = Agree-refl limit _
  dispatch_loop-Agree zero fire fire' totals (r ∷ ready) d h k = Agree-refl limit _
  dispatch_loop-Agree (suc fuel) fire fire' totals (r ∷ ready) d h k =
      Agree-bind limit _ _ _ _ (h r) (k r) λ _. dispatch_loop-Agree fuel fire fire' totals _ _ h k

  dispatch_reactions-Agree :
      {N : Type 0} (fire fire' : ReactionDef N → Act p (Unit {0})) (matched : List (ReactionDef N))
      → ((r : ReactionDef N) → Agree limit (fire r) (fire' r))
      → ((r : ReactionDef N) → Holds {p = p} Refines (fire' r))
      → Agree limit (dispatch_reactions fire matched) (dispatch_reactions fire' matched)
  unfolding dispatch_reactions
  dispatch_reactions-Agree fire fire' matched h k = dispatch_loop-Agree _ fire fire' _ _ _ h k

  react-Agree :
      (send send' : Sender p) (depth : ℕ)
      → SendAgree send send' (depth + 1)
      → SendRefines send'
      → (sid : String) (parent : Option (Json p.Number)) (result : TransitionResult)
      → Agree limit (react send sid parent depth result) (react send' sid parent depth result)
  unfolding react
  react-Agree send send' depth same sent sid parent result =
      Agree-bind limit _ _ _ _ (Agree-refl limit _)
        (Holds-gets Refines-preorder (λ e. filter (reaction_matches sid result.to) e.reactions))
        λ matching.
          let fire = λ (r : ReactionDef p.Number). fire_one_reaction send r parent depth sid in
          let fire' = λ (r : ReactionDef p.Number). fire_one_reaction send' r parent depth sid in
          let fired =
            λ (r : ReactionDef p.Number). fire_one_reaction-Refines send' sent r parent depth sid in
          Agree-bind limit _ _ _ _
            (dispatch_reactions-Agree fire fire' matching
              (λ r. fire_one_reaction-Agree send send' depth same sent r parent sid) fired)
            (dispatch_reactions-Refines fire' matching fired) λ _. Agree-refl limit (pure result)

  send_level-Agree :
      (send send' : Sender p) (depth : ℕ)
      → SendAgree send send' (depth + 1)
      → SendRefines send'
      → SendAgree (send_level send) (send_level send') depth
  unfolding send_level
  send_level-Agree send send' depth same sent sid event payload parent =
      Agree-bind limit _ _ _ _ (Agree-refl limit _) (check_depth-Refines depth) λ _.
        Agree-bind limit _ _ _ _ (Agree-refl limit _) (commit_transition-Refines sid event payload)
          (react-Agree send send' depth same sent sid parent)

  levels-Agree :
      (n m depth : ℕ)
      → limit < depth + n
      → limit < depth + m
      → SendAgree (send_event_internal n) (send_event_internal m) depth
  unfolding send_event_internal
  levels-Agree zero zero depth hn hm sid event payload parent = Agree-refl limit _
  levels-Agree zero (suc m) depth hn hm sid event payload parent = record {
    on = λ e l. sym (
        send_level-too_deep (send_event_internal m) sid event payload parent depth e
          (omega (arith, l)));
  }
  levels-Agree (suc n) zero depth hn hm sid event payload parent = record {
    on = λ e l.
        send_level-too_deep (send_event_internal n) sid event payload parent depth e
          (omega (arith, l));
  }
  levels-Agree (suc n) (suc m) depth hn hm sid event payload parent =
      send_level-Agree (send_event_internal n) (send_event_internal m) depth
        (levels-Agree n m (depth + 1) (omega arith) (omega arith)) (send_event_internal-Refines m)
        sid event payload parent

-- With enough levels for the depth limit, one more level changes nothing: a call is one level of
-- the cascade over calls with the same levels, which is the recursion of the source, without a bound.
pub send_event_internal-level :
    {p : Platform} (levels : ℕ) (sid event : String) (payload parent : Option (Json p.Number))
    (depth : ℕ) (e : Engine p)
    → e.max_cascade_depth < depth + levels
    → send_event_internal levels sid event payload parent depth e
      ≡ send_level (send_event_internal levels) sid event payload parent depth e
unfolding send_event_internal
send_event_internal-level levels sid event payload parent depth e h =
    (levels-Agree e.max_cascade_depth levels (suc levels) depth h (omega arith) sid event payload
        parent).on
      e refl
