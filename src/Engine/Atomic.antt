-- ===== src/Engine/Atomic.antt =====
-- The transition of one signal is atomic: it is made whole, or it leaves every signal as it was.
use sig_topo.Base.{
  String, ◌≡◌, refl, ap, subst, ◌∙◌, Option, none, some, List, [], HashMap, lookup, modify, Result,
  ok, err, ok_or,
}
use mathlib.Core.Option
use sig_topo.Json.{Platform, Json}
use sig_topo.Error.{EngineError, signal_not_found}
use sig_topo.Schema.{TransitionDef}
use sig_topo.Trace.{event_received}
use sig_topo.Context.{ActionContext}
use sig_topo.Engine.State.{SignalState, Engine, record_event, ◌>>=◌, lift, pure}
use sig_topo.Engine.Action.{run_actions}
use sig_topo.Engine.Reaction.{TransitionResult}
use sig_topo.Engine.Send.{
  find_transition, check_guard, event_context, settle, enter, lifecycle, run_transition,
  choose_transition, commit_transition, transition_result,
}
use sig_topo.Engine.Commits.{moved}
use sig_topo.Engine.Relations.{IsStill}
use sig_topo.Engine.Still.{run_actions-IsStill}
use sig_topo.Engine.Refine.{modify_back, enter_actions-IsStill, tentative}

-- A result with the target made current, or an error with all as it was.
abbrev Phase :
    {p : Platform} {A : Type 0}
    → String
    → String
    → HashMap SignalState
    → Result EngineError A
    → Engine p
    → Type 0
Phase sid to m (ok _) e' = e'.signals ≡ modify sid (moved to) m
Phase sid to m (err _) e' = e'.signals ≡ m

-- One transition of this signal, from its state before, as the result says; or an error, and
-- nothing moved.
abbrev pub IsAtomic :
    {p : Platform}
    → String
    → HashMap SignalState
    → Result EngineError TransitionResult
    → Engine p
    → Type 0
IsAtomic sid m (err _) e' = e'.signals ≡ m
IsAtomic sid m (ok r) e' =
    (s : SignalState) × (lookup sid m ≡ some s)
    × (r.signal_id ≡ sid)
    × (r.from ≡ s.current)
    × (e'.signals ≡ modify sid (moved r.to) m)

module _ {p : Platform} where
  module _ (sid event : String) (payload : Option (Json p.Number)) (s : SignalState)
      (t : TransitionDef) where
    settle-Phase :
        (r : Result EngineError (List String)) (e e3 : Engine p)
        → lookup sid e.signals ≡ some s
        → IsStill (tentative sid event payload s t e) e3
        → let done = settle (event_context {p = p} sid event payload s.current t) r e3 in
          Phase sid t.to e.signals done.0 done.1
    unfolding settle
    settle-Phase (ok executed) e e3 found h = h.signals
    settle-Phase (err x) e e3 found h =
        ap (modify sid (moved s.current)) h.signals ∙ modify_back sid t.to s e.signals found

    exit-Phase :
        (r : Result EngineError (List String)) (e e1 : Engine p)
        → lookup sid e.signals ≡ some s
        → IsStill e e1
        → let done =
            (lift r >>= enter t (event_context {p = p} sid event payload s.current t)) e1 in
          Phase sid t.to e.signals done.0 done.1
    unfolding ◌>>=◌ enter
    exit-Phase (err x) e e1 found h = h.signals
    exit-Phase (ok executed) e e1 found h =
        let ctx : ActionContext p = event_context {p = p} sid event payload s.current t in
        let done = enter t ctx executed e1 in
        subst (λ m. Phase sid t.to m done.0 done.1) h.signals
          (settle-Phase _ e1 _ (ap (lookup sid) h.signals ∙ found)
            ((enter_actions-IsStill t ctx executed).at (tentative sid event payload s t e1)))

    lifecycle-Phase :
        (e : Engine p)
        → lookup sid e.signals ≡ some s
        → let done = lifecycle t (event_context {p = p} sid event payload s.current t) e in
          Phase sid t.to e.signals done.0 done.1
    unfolding lifecycle ◌>>=◌
    lifecycle-Phase e found =
        let ctx : ActionContext p = event_context {p = p} sid event payload s.current t in
        exit-Phase (run_actions sid ctx t.actions.on_exit [] e).0 e _ found
          ((run_actions-IsStill sid ctx t.actions.on_exit []).at e)

    ending-IsAtomic :
        (r : Result EngineError (List String)) (m : HashMap SignalState) (e' : Engine p)
        → lookup sid m ≡ some s
        → Phase sid t.to m r e'
        → let done = (lift r >>= λ executed. pure (transition_result sid s t executed)) e' in
          IsAtomic sid m done.0 done.1
    unfolding ◌>>=◌
    ending-IsAtomic (ok executed) m e' found h = (s, found, refl, refl, h)
    ending-IsAtomic (err x) m e' found h = h

    guarded-IsAtomic :
        (r : Result EngineError (Unit {0})) (e : Engine p)
        → lookup sid e.signals ≡ some s
        → check_guard t.guard (event_context {p = p} sid event payload s.current t) ≡ r
        → let done = run_transition sid event payload s t e in IsAtomic sid e.signals done.0 done.1
    unfolding run_transition ◌>>=◌
    guarded-IsAtomic (err x) e found checked = rw checked refl
    guarded-IsAtomic (ok _) e found checked = rw checked (
        ending-IsAtomic (lifecycle t (event_context {p = p} sid event payload s.current t) e).0
          e.signals _ found (lifecycle-Phase e found))

  module _ (sid event : String) (payload : Option (Json p.Number)) where
    chosen-IsAtomic :
        (s : SignalState) (o : Option TransitionDef) (e : Engine p)
        → lookup sid e.signals ≡ some s
        → find_transition sid event s.current e.transitions ≡ o
        → let done = choose_transition sid event payload s e in IsAtomic sid e.signals done.0 done.1
    unfolding choose_transition ◌>>=◌
    chosen-IsAtomic s none e found first = rw first refl
    chosen-IsAtomic s (some t) e found first =
        rw first (guarded-IsAtomic sid event payload s t _ e found refl)

    found-IsAtomic :
        (o : Option SignalState) (e : Engine p)
        → lookup sid e.signals ≡ o
        → let done =
            (lift (ok_or o (signal_not_found sid)) >>= choose_transition sid event payload) e in
          IsAtomic sid e.signals done.0 done.1
    unfolding ◌>>=◌
    found-IsAtomic none e found = refl
    found-IsAtomic (some s) e found = chosen-IsAtomic s _ e found refl

    -- From the receipt of an event to the commit of its transition: on success the named signal
    -- alone moves, from its state before to the target, as the result says; on any error (unknown
    -- signal, no transition, guard, failed callback of any phase) every signal is as it was.
    pub commit_transition-IsAtomic :
        (e : Engine p)
        → IsAtomic sid e.signals
            (commit_transition sid event payload e).0
            (commit_transition sid event payload e).1
    unfolding commit_transition ◌>>=◌
    commit_transition-IsAtomic e =
        found-IsAtomic (lookup sid e.signals)
          (record_event {p = p}
            (λ t. event_received sid event t (Option.map p.json_to_string payload)) e).1
          refl
