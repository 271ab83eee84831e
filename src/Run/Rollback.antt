-- ===== src/Run/Rollback.antt =====
-- An event whose transition runs an action of its `fail_actions`: what the replay records, and that
-- no signal moves.
use sig_topo.Base.{
  String, Bool, ◌≡◌, refl, ap, ◌∙◌, none, some, List, [], ◌∷◌, All, contains, find, HashMap, lookup,
  Result, ok, err,
}
use sig_topo.Json.{Platform}
use sig_topo.Error.{EngineError}
use sig_topo.Schema.{TransitionDef, all_actions}
use sig_topo.Engine.State.{SignalState, Engine}
use sig_topo.Engine.Reaction.{TransitionResult, current_or_empty}
use sig_topo.Engine.Send.{find_transition, check_guard, event_context, commit_transition}
use sig_topo.Engine.Atomic.{IsAtomic, commit_transition-IsAtomic}
use sig_topo.Run.{
  FailSet, IsCell, ScenarioEvent, ScenarioError, injected_failure, handler, extend, run_event,
  scenario_errors,
}
use sig_topo.Run.Names.{contains-extend}
use sig_topo.Run.Scopes.{armed, IsReady, run_event-alone}
use sig_topo.Run.Phase.{Injection}
use sig_topo.Run.Injects.{commit_transition-injected, send_event-fails}

find-same :
    {A : Type 0} (f g : A → Bool) (xs : List A) → ((x : A) → f x ≡ g x) → find f xs ≡ find g xs
find-same f g [] h = refl
find-same f g (x ∷ xs) h = rw (h x, find-same f g xs h) refl

current_here :
    {p : Platform} (sid : String) (e : Engine p) (s : SignalState)
    → lookup sid e.signals ≡ some s
    → current_or_empty sid e ≡ s.current
unfolding current_or_empty
current_here sid e s found = ap (λ o. elim o [ none ↦ "" | some s' ↦ s'.current ]) found

named : (names : List String) (id : String) → contains id (extend names []) ≡ contains id names
named names id = contains-extend id names []

failed-signals :
    {p : Platform} (sid : String) (m : HashMap SignalState) (x : EngineError)
    (r : Result EngineError TransitionResult) (e' : Engine p)
    → r ≡ err x
    → IsAtomic {p = p} sid m r e'
    → e'.signals ≡ m
failed-signals sid m x (ok _) e' h moves = absurd (cc h)
failed-signals sid m x (err _) e' h same = same

-- The error that the replay records for the event.
abbrev pub injected_error : {N : Type 0} → ScenarioEvent N → String → String → ScenarioError
injected_error ev state bad = record {
  signal_id = ev.signal_id;
  event = ev.event;
  error = injected_failure bad;
  state_after = state;
}

module _ {p : Platform} (fail_set : FailSet p) (println : String → p.World → p.World)
    (recording : Bool) (cell : IsCell fail_set println) (ev : ScenarioEvent p.Number) (e : Engine p)
    (s : SignalState) (t : TransitionDef) (bad : String) where
  recorded :
      (after : Engine p)
      → current_or_empty ev.signal_id after ≡ s.current
      → scenario_errors {A = TransitionResult} ev (err (injected_failure bad)) after
        ≡ injected_error ev s.current bad ∷ []
  recorded after here = rw here refl

  -- With the handlers of a run and an empty fail set, an event whose guard allows its transition, and
  -- whose `fail_actions` name an action of that transition, is recorded once: with the injected
  -- failure of the first such action, and the state that the signal was in before. No signal moves.
  pub run_event-injected :
      IsReady fail_set println recording cell e
      → All
          (λ id. lookup id e.actions ≡ some (handler println (some fail_set) recording id))
          (all_actions t.actions)
      → lookup ev.signal_id e.signals ≡ some s
      → find_transition ev.signal_id ev.event s.current e.transitions ≡ some t
      → check_guard t.guard (event_context {p = p} ev.signal_id ev.event ev.payload s.current t)
        ≡ ok tt
      → find (λ id. contains id ev.fail_actions) (all_actions t.actions) ≡ some bad
      → ((run_event fail_set ev e).0 ≡ injected_error ev s.current bad ∷ [])
        × ((run_event fail_set ev e).1.signals ≡ e.signals)
  run_event-injected (registered, empty) handled found first checked bad_first =
      let run : Injection p = record {
        fail_set = fail_set;
        println = println;
        recording = recording;
        cell = cell;
        actions = e.actions;
        registered = registered;
        names = extend ev.fail_actions [];
      } in
      let a = armed fail_set ev e in
      let after = (commit_transition ev.signal_id ev.event ev.payload a).1 in
      let failed =
        commit_transition-injected run ev.signal_id ev.event ev.payload s t a bad
          (refl, cell.borrow-replace _ e.world) handled found first checked
          (find-same _ _ (all_actions t.actions) (named ev.fail_actions) ∙ bad_first) in
      let sent =
        send_event-fails ev.signal_id ev.event ev.payload a (injected_failure bad) failed in
      let still : after.signals ≡ e.signals =
        failed-signals ev.signal_id e.signals _ _ after failed
          (commit_transition-IsAtomic ev.signal_id ev.event ev.payload a) in
      let alone = (run_event-alone fail_set println recording cell ev e (registered, empty)).0 in
      (
        ap (λ r. r.0) alone
            ∙ ap (λ r. scenario_errors ev r.0 r.1) sent
            ∙ recorded after
                (current_here ev.signal_id after s (ap (lookup ev.signal_id) still ∙ found)),
        ap (λ r. r.1.signals) alone ∙ ap (λ r. r.1.signals) sent ∙ still,
      )
