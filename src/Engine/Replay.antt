-- ===== src/Engine/Replay.antt =====
-- The trace is a complete record of the signals: replaying it gives their states.
use sig_topo.Base.{
  ℕ, String, ◌≡◌, refl, sym, ap, ◌∙◌, Option, List, [], ◌∷◌, ◌++◌, HashMap, modify, length,
}
use sig_topo.Json.{Platform, Json}
use sig_topo.Schema.{TransitionDef}
use sig_topo.Trace.{TraceEvent, state_changed}
use sig_topo.Engine.State.{SignalState, Engine}
use sig_topo.Engine.Send.{send_event}
use sig_topo.Engine.Commits.{Commits, IsQuiet, moved}
use sig_topo.Engine.Cascades.{send_event-Refines}

abbrev replay_event : TraceEvent → HashMap SignalState → HashMap SignalState
replay_event (state_changed sid _ to _) m = modify sid (moved to) m
replay_event _ m = m

-- Only a `StateChanged` moves a signal.
pub replay : List TraceEvent → HashMap SignalState → HashMap SignalState
replay [] m = m
replay (ev ∷ evs) m = replay evs (replay_event ev m)

abbrev pub drop {ℓ} : {A : Type ℓ} → ℕ → List A → List A
drop ℕ.zero xs = xs
drop (ℕ.suc n) [] = []
drop (ℕ.suc n) (x ∷ xs) = drop n xs

drop-append {ℓ} : {A : Type ℓ} (xs ys : List A) → drop (length xs) (xs ++ ys) ≡ ys
drop-append [] ys = refl
drop-append (x ∷ xs) ys = drop-append xs ys

quiet_replay : (ev : TraceEvent) (m : HashMap SignalState) → IsQuiet ev → replay_event ev m ≡ m
quiet_replay (state_changed _ _ _ _) m h = absurd h
quiet_replay _ m h = refl

module _ {p : Platform} {ts : List TransitionDef} where
  pub Commits-replay :
      {m m' : HashMap SignalState} (evs : List TraceEvent)
      → Commits p ts m evs m'
      → m' ≡ replay evs m
  unfolding replay
  Commits-replay _ Commits.done = refl
  Commits-replay _ (Commits.quiet {m} {evs = evs} ev q c) =
      Commits-replay evs c ∙ ap (replay evs) (sym (quiet_replay ev m q))
  Commits-replay _
        (Commits.commit {m} {evs = evs} sid event payload s t time found first passed chosen allowed
          e c) =
      Commits-replay evs c ∙ ap (λ ev. replay evs (replay_event ev m)) (sym e)

-- After a call of `send_event`, failed or not, every signal is where replaying the events that the
-- call added to the trace takes it: no signal moves without a `StateChanged`, and a rolled-back
-- transition leaves none.
pub send_event-replay :
    {p : Platform} (sid event : String) (payload : Option (Json p.Number)) (e : Engine p)
    → (send_event sid event payload e).1.signals
      ≡ replay
          (drop (length e.trace.events) (send_event sid event payload e).1.trace.events)
          e.signals
send_event-replay sid event payload e =
    let r = send_event-Refines sid event payload e in
    Commits-replay r.events r.commits
    ∙ ap (λ evs. replay evs e.signals)
        (sym (ap (drop (length e.trace.events)) r.trace ∙ drop-append e.trace.events r.events))
