-- ===== src/Engine/State.antt =====
-- The state of `TopologyEngine`, and actions on it: methods on `&mut self` that may fail. What was
-- written before a failure stays written, so the state comes back beside an error too.
use sig_topo.Base.{ℕ, ◌+◌, String, List, HashMap, modify, Result, ok, err}
use sig_topo.Json.{Platform}
use sig_topo.Error.{EngineError}
use sig_topo.Schema.{TransitionDef, ReactionDef}
use sig_topo.Trace.{TraceEvent, TraceLog, push}
use sig_topo.Context.{ActionContext}

pub record SignalState : Type 0 where
  pub current : String
  pub states : List String
  pub initial_state : String

-- A callback has the context and its own surroundings, never the engine.
abbrev pub ActionFn : Platform → Type 0
ActionFn p = ActionContext p → p.World → Result EngineError (Unit {0}) × p.World

-- `clock_reads` counts the uses of `now_ms`; `world` is what callbacks have captured.
pub record Engine (p : Platform) : Type 0 where
  pub signals : HashMap SignalState
  pub transitions : List TransitionDef
  pub reactions : List (ReactionDef p.Number)
  pub actions : HashMap (ActionFn p)
  pub trace : TraceLog
  pub max_cascade_depth : ℕ
  pub clock_reads : ℕ
  pub world : p.World

abbrev pub Act : Platform → Type 0 → Type 0
Act p A = Engine p → Result EngineError A × Engine p

module _ {p : Platform} where
  unfoldable pub pure : {A : Type 0} → A → Act p A
  pure a e = (ok a, e)

  unfoldable pub raise : {A : Type 0} → EngineError → Act p A
  raise x e = (err x, e)

  unfoldable pub lift : {A : Type 0} → Result EngineError A → Act p A
  lift r e = (r, e)

  -- The outcome as a value: `match` or `if let Err(e)` on a call.
  unfoldable pub capture : {A : Type 0} → Act p A → Act p (Result EngineError A)
  capture m e = let (r, e') = m e in (ok r, e')

  unfoldable pub gets : {A : Type 0} → (Engine p → A) → Act p A
  gets f e = (ok (f e), e)

  abbrev continue : {A B : Type 0} → Result EngineError A → (A → Act p B) → Act p B
  continue (ok a) f e = f a e
  continue (err x) f e = (err x, e)

  infixl 5 ◌>>=◌ ◌>>◌
  -- opening this opens the actions above too
  unfoldable pub ◌>>=◌ : {A B : Type 0} → Act p A → (A → Act p B) → Act p B
  unfolding pure raise lift capture gets
  ◌>>=◌ m f e = let (r, e') = m e in continue r f e'

  abbrev pub ◌>>◌ : {A B : Type 0} → Act p A → Act p B → Act p B
  m >> n = m >>= λ _. n

  -- `self.trace.push(...)` of an event that is stamped with `now_ms()`.
  unfoldable pub record_event : (ℕ → TraceEvent) → Act p (Unit {0})
  unfolding push
  record_event event e = (
    ok tt,
    record e {
      trace = push e.trace (event (p.clock e.clock_reads));
      clock_reads = e.clock_reads + 1;
    },
  )

  -- `signal.current = state` through the borrowed entry.
  unfoldable pub set_current : String → String → Act p (Unit {0})
  set_current signal_id state e =
      (ok tt, record e { signals = modify signal_id (λ s. record s { current = state }) e.signals })
