-- ===== src/Run/Scopes.antt =====
-- An event's `fail_actions` count for that event alone.
use sig_topo.Base.{
  String, Bool, ◌≡◌, refl, sym, ap, subst, ◌∙◌, List, [], ◌∷◌, append_assoc, append-nil,
}
use mathlib.Core.List.{◌++◌}
use sig_topo.Json.{Platform}
use sig_topo.Engine.State.{Engine}
use sig_topo.Engine.Send.{send_event}
use sig_topo.Run.{
  FailSet, IsCell, Scenario, ScenarioEvent, ScenarioError, extend, scenario_errors, insert_names,
  remove_names, run_event, run_events, run_scenario,
}
use sig_topo.Run.Names.{without, without-extend, insert_names-replace, remove_names-replace}
use sig_topo.Run.Keeps.{IsRegistered, send_event-Keeps}

module _ {p : Platform} (fail_set : FailSet p) where
  -- The event is sent with its own names as the fail set, which is then emptied.
  abbrev pub armed : ScenarioEvent p.Number → Engine p → Engine p
  armed ev e = record e { world = fail_set.replace (extend ev.fail_actions []) e.world }

  abbrev pub run_alone : ScenarioEvent p.Number → Engine p → List ScenarioError × Engine p
  run_alone ev e =
      let (result, after) = send_event ev.signal_id ev.event ev.payload (armed ev e) in
      (scenario_errors ev result after, record after { world = fail_set.replace [] after.world })

  abbrev pub replay : List (ScenarioEvent p.Number) → Engine p → List ScenarioError × Engine p
  replay [] e = ([], e)
  replay (ev ∷ events) e =
      let (errors, e') = run_alone ev e in
      let (later, e'') = replay events e' in (errors ++ later, e'')

  run_events-step :
      (ev : ScenarioEvent p.Number) (events : List (ScenarioEvent p.Number))
      (errors : List ScenarioError) (e : Engine p)
      → run_events fail_set (ev ∷ events) errors e
        ≡ run_events fail_set events
            (errors ++ (run_event fail_set ev e).0)
            (run_event fail_set ev e).1
  unfolding run_events
  run_events-step ev events errors e = refl

  run_scenario-loop :
      (scenario : Scenario p.Number) (e : Engine p)
      → run_scenario fail_set scenario e ≡ run_events fail_set scenario.events [] e
  unfolding run_scenario
  run_scenario-loop scenario e = refl

  run_events-none :
      (errors : List ScenarioError) (e : Engine p) → run_events fail_set [] errors e ≡ (errors, e)
  unfolding run_events
  run_events-none errors e = refl

  module _ (println : String → p.World → p.World) (recording : Bool)
      (cell : IsCell fail_set println) where
    -- Handlers that share the fail set, which is empty.
    abbrev pub IsReady : Engine p → Type 0
    IsReady e = IsRegistered fail_set println recording e.actions × (fail_set.borrow e.world ≡ [])

    pub run_event-alone :
        (ev : ScenarioEvent p.Number) (e : Engine p)
        → IsReady e
        → (run_event fail_set ev e ≡ run_alone ev e) × IsReady (run_alone ev e).1
    unfolding run_event
    run_event-alone ev e (registered, empty) =
        let after = (send_event ev.signal_id ev.event ev.payload (armed ev e)).1 in
        let kept =
          (send_event-Keeps fail_set println recording cell ev.signal_id ev.event ev.payload).at
            (armed ev e) registered in
        let inserted : insert_names fail_set ev.fail_actions e.world ≡ (armed ev e).world =
          insert_names-replace fail_set println cell ev.fail_actions e.world
          ∙ ap (λ set. fail_set.replace (extend ev.fail_actions set) e.world) empty in
        let removed : remove_names fail_set ev.fail_actions after.world
            ≡ fail_set.replace [] after.world =
          remove_names-replace fail_set println cell ev.fail_actions after.world
          ∙ ap (λ set. fail_set.replace (without ev.fail_actions set) after.world)
              (kept.1 ∙ cell.borrow-replace _ e.world)
          ∙ ap (λ set. fail_set.replace set after.world) (without-extend ev.fail_actions) in
        (
          rw (inserted, removed) refl,
          (
            subst (IsRegistered fail_set println recording) (sym (kept.0)) registered,
            cell.borrow-replace [] after.world,
          ),
        )

    run_events-replay :
        (events : List (ScenarioEvent p.Number)) (errors : List ScenarioError) (e : Engine p)
        → IsReady e
        → (run_events fail_set events errors e
            ≡ (errors ++ (replay events e).0, (replay events e).1))
          × IsReady (replay events e).1
    run_events-replay [] errors e ready =
        (run_events-none errors e ∙ ap (λ l. (l, e)) (sym (append-nil errors)), ready)
    run_events-replay (ev ∷ events) errors e ready =
        let (first, ready') = run_event-alone ev e ready in
        let (rest, done) =
          run_events-replay events (errors ++ (run_alone ev e).0) (run_alone ev e).1 ready' in
        (
          run_events-step ev events errors e
              ∙ ap (λ run. run_events fail_set events (errors ++ run.0) run.1) first
              ∙ rest
              ∙ ap (λ l. (l, (replay (ev ∷ events) e).1))
                  (append_assoc errors (run_alone ev e).0 (replay events (run_alone ev e).1).0),
          done,
        )

    -- From handlers that share the fail set, empty at first, a scenario is replayed as if each event
    -- were sent alone with its own `fail_actions` as the fail set: the errors are those of the
    -- events, in order. At the end the fail set is empty, and the handlers are as they were.
    pub run_scenario-replay :
        (scenario : Scenario p.Number) (e : Engine p)
        → IsReady e
        → (run_scenario fail_set scenario e ≡ replay scenario.events e)
          × IsReady (run_scenario fail_set scenario e).1
    run_scenario-replay scenario e ready =
        let (listed, done) = run_events-replay scenario.events [] e ready in
        let same = run_scenario-loop scenario e ∙ listed in
        (same, subst (λ r. IsReady r.1) (sym same) done)
