-- ===== src/Run/Injects.antt =====
-- A name in an event's `fail_actions` fails the event's transition where it runs.
use sig_topo.Base.{
  String, ◌≡◌, refl, ap, ◌∙◌, inl, inr, Option, some, List, [], ◌++◌, find, lookup, arith, ok, err,
}
use sig_topo.Json.{Platform, Json}
use sig_topo.Error.{EngineError}
use sig_topo.Schema.{TransitionDef, all_actions}
use mathlib.Core.Option
use sig_topo.Trace.{event_received}
use sig_topo.Context.{ActionContext}
use sig_topo.Engine.State.{SignalState, Engine, Act, ◌>>=◌, record_event, set_current, pure}
use sig_topo.Engine.Action.{run_actions}
use sig_topo.Engine.Reaction.{TransitionResult}
use sig_topo.Engine.Send.{
  find_transition, check_guard, enter_actions, settle, enter, lifecycle, event_context,
  run_transition, transition_result, choose_transition, commit_transition, check_depth, react,
  send_level, send_event_internal, send_event,
}
use sig_topo.Run.{injected_failure}
use sig_topo.Run.Keeps.{set_current-Keeps}
use sig_topo.Run.Phase.{
  All-append, find-append, bind-err, bind-ok, IsArmed-after, actions_keep, run_actions-injected,
  run_actions-done, Injection, IsArmed, AreRun, is_named,
}

module _ {p : Platform} (run : Injection p) where
  module _ (t : TransitionDef) (ctx : ActionContext p) (bad : String) where
    enter_actions-phases :
        (executed : List String)
        → enter_actions t ctx executed ≡ (
            run_actions ctx.signal_id ctx t.actions.on_transition executed
            >>= run_actions ctx.signal_id ctx t.actions.on_enter)
    unfolding enter_actions
    enter_actions-phases executed = refl

    enter_actions-injected :
        (executed : List String) (e : Engine p)
        → IsArmed run e
        → AreRun run (t.actions.on_transition ++ t.actions.on_enter)
        → find (is_named run) (t.actions.on_transition ++ t.actions.on_enter) ≡ some bad
        → (enter_actions t ctx executed e).0 ≡ err (injected_failure bad)
    enter_actions-injected executed e armed handled h =
        let (handled1, handled2) =
          All-append _ t.actions.on_transition t.actions.on_enter handled in
        ap (λ m. (m e).0) (enter_actions-phases executed)
        ∙ elim (find-append _ t.actions.on_transition t.actions.on_enter bad h) [
          | inl first ↦
              ap (λ r. r.0)
                (bind-err _ _ e (injected_failure bad) (
                  run_actions-injected run ctx.signal_id ctx t.actions.on_transition executed e bad
                    armed handled1 first))
          | inr (passed, second) ↦
              let (out, done) =
                run_actions-done run ctx.signal_id ctx t.actions.on_transition executed e armed
                  handled1 passed in
              ap (λ r. r.0) (bind-ok _ _ e out done)
              ∙ run_actions-injected run ctx.signal_id ctx t.actions.on_enter out _ bad
                  (IsArmed-after run _ e
                    (actions_keep run ctx.signal_id ctx t.actions.on_transition executed) armed)
                  handled2 second
        ]

    enter-settle :
        (executed : List String) (e : Engine p)
        → let entered = enter_actions t ctx executed (set_current ctx.signal_id ctx.to_state e).1 in
          enter t ctx executed e ≡ settle ctx entered.0 entered.1
    unfolding enter ◌>>=◌
    enter-settle executed e = refl

    settle-err : (x : EngineError) (e : Engine p) → (settle ctx (err x) e).0 ≡ err x
    unfolding settle
    settle-err x e = refl

    lifecycle-phases :
        lifecycle t ctx ≡ (run_actions ctx.signal_id ctx t.actions.on_exit [] >>= enter t ctx)
    unfolding lifecycle
    lifecycle-phases = refl

    enter-injected :
        (executed : List String) (e : Engine p)
        → IsArmed run e
        → AreRun run (t.actions.on_transition ++ t.actions.on_enter)
        → find (is_named run) (t.actions.on_transition ++ t.actions.on_enter) ≡ some bad
        → (enter t ctx executed e).0 ≡ err (injected_failure bad)
    enter-injected executed e armed handled h =
        let e' = (set_current ctx.signal_id ctx.to_state e).1 in
        let kept =
          IsArmed-after run _ e
            (set_current-Keeps run.fail_set run.println run.recording ctx.signal_id ctx.to_state)
            armed in
        ap (λ r. r.0) (enter-settle executed e)
        ∙ ap (λ r. (settle ctx r (enter_actions t ctx executed e').1).0)
            (enter_actions-injected executed e' kept handled h)
        ∙ settle-err (injected_failure bad) _

    lifecycle-injected :
        (e : Engine p)
        → IsArmed run e
        → AreRun run (all_actions t.actions)
        → find (is_named run) (all_actions t.actions) ≡ some bad
        → (lifecycle t ctx e).0 ≡ err (injected_failure bad)
    unfolding all_actions
    lifecycle-injected e armed handled h =
        let later = t.actions.on_transition ++ t.actions.on_enter in
        let (handled1, handled2) = All-append _ t.actions.on_exit later handled in
        ap (λ m. (m e).0) lifecycle-phases ∙ elim (find-append _ t.actions.on_exit later bad h) [
          | inl first ↦
              ap (λ r. r.0)
                (bind-err _ _ e (injected_failure bad) (
                  run_actions-injected run ctx.signal_id ctx t.actions.on_exit [] e bad armed
                    handled1 first))
          | inr (passed, second) ↦
              let (out, done) =
                run_actions-done run ctx.signal_id ctx t.actions.on_exit [] e armed handled1
                  passed in
              ap (λ r. r.0) (bind-ok _ _ e out done)
              ∙ enter-injected out _
                  (IsArmed-after run _ e (actions_keep run ctx.signal_id ctx t.actions.on_exit [])
                    armed)
                  handled2 second
        ]

  module _ (sid event : String) (payload : Option (Json p.Number)) (s : SignalState)
      (t : TransitionDef) where
    guarded-lifecycle :
        (e : Engine p)
        → check_guard t.guard (event_context {p = p} sid event payload s.current t) ≡ ok tt
        → run_transition sid event payload s t e
          ≡ (lifecycle t (event_context {p = p} sid event payload s.current t) >>= λ executed.
                pure (transition_result sid s t executed))
              e
    unfolding run_transition ◌>>=◌
    guarded-lifecycle e checked = rw checked refl

    chosen-transition :
        (e : Engine p)
        → find_transition sid event s.current e.transitions ≡ some t
        → choose_transition sid event payload s e ≡ run_transition sid event payload s t e
    unfolding choose_transition ◌>>=◌
    chosen-transition e first = rw first refl

    found-signal :
        (e : Engine p)
        → lookup sid e.signals ≡ some s
        → commit_transition sid event payload e
          ≡ choose_transition sid event payload s
              (record_event {p = p}
                (λ n. event_received sid event n (Option.map p.json_to_string payload))
                e).1
    unfolding commit_transition ◌>>=◌
    found-signal e found = rw found refl

    pub commit_transition-injected :
        (e : Engine p) (bad : String)
        → IsArmed run e
        → AreRun run (all_actions t.actions)
        → lookup sid e.signals ≡ some s
        → find_transition sid event s.current e.transitions ≡ some t
        → check_guard t.guard (event_context {p = p} sid event payload s.current t) ≡ ok tt
        → find (is_named run) (all_actions t.actions) ≡ some bad
        → (commit_transition sid event payload e).0 ≡ err (injected_failure bad)
    unfolding record_event
    commit_transition-injected e bad armed handled found first checked named =
        let e1 =
          (record_event {p = p}
            (λ n. event_received sid event n (Option.map p.json_to_string payload)) e).1 in
        ap (λ r. r.0)
          (found-signal e found ∙ chosen-transition e1 first ∙ guarded-lifecycle e1 checked)
        ∙ ap (λ r. r.0)
            (bind-err _ _ e1 (injected_failure bad) (
              lifecycle-injected t (event_context {p = p} sid event payload s.current t) bad e1
                armed handled named))

module _ {p : Platform} (sid event : String) (payload : Option (Json p.Number)) (e : Engine p) where
  -- The rest of a call, after the depth was checked.
  abbrev committed : Act p TransitionResult
  committed =
      commit_transition sid event payload
      >>= react (send_event_internal e.max_cascade_depth) sid payload 0

  send_event-level :
      send_event sid event payload e
      ≡ send_level (send_event_internal e.max_cascade_depth) sid event payload payload 0 e
  unfolding send_event
  send_event-level = refl

  send_level-parts :
      send_level (send_event_internal e.max_cascade_depth) sid event payload payload 0 e
      ≡ (check_depth 0 >>= λ _. committed) e
  unfolding send_level
  send_level-parts = refl

  check_depth-zero : (check_depth 0 e).0 ≡ ok tt
  unfolding check_depth
  check_depth-zero = ground arith

  check_depth-same : (check_depth 0 e).1 ≡ e
  unfolding check_depth
  check_depth-same = refl

  -- A transition that fails is the whole call.
  pub send_event-fails :
      (x : EngineError)
      → (commit_transition sid event payload e).0 ≡ err x
      → send_event sid event payload e ≡ (err x, (commit_transition sid event payload e).1)
  send_event-fails x h =
      send_event-level
      ∙ send_level-parts
      ∙ bind-ok (check_depth 0) (λ _. committed) e tt check_depth-zero
      ∙ ap committed check_depth-same
      ∙ bind-err (commit_transition sid event payload) _ e x h
