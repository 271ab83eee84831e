-- ===== src/Engine/Runs.antt =====
-- The life of an engine as steps of a client: events, registrations, limits and cleared traces, in
-- any order, and what holds in every engine that they reach.
use sig_topo.Base.{ℕ, String, ◌≡◌, refl, sym, subst, ◌∙◌, Option, List, HashMap, ok}
use sig_topo.Json.{Platform, Json}
use sig_topo.Schema.{TransitionDef, TopologySchema}
use sig_topo.Trace.{TraceEvent}
use sig_topo.Engine.State.{SignalState, ActionFn, Engine}
use sig_topo.Engine.Commits.{Commits}
use sig_topo.Engine.Send.{send_event}
use sig_topo.Engine.Build.{from_schema, register_action, set_max_cascade_depth}
use sig_topo.Engine.Query.{clear_traces}
use sig_topo.Engine.Cascades.{send_event-Refines}
use sig_topo.Engine.WellFormed.{IsPlaced, IsWellFormed, Commits-IsPlaced}
use sig_topo.Engine.Built.{from_schema-IsWellFormed}

module _ {p : Platform} where
  -- One call of a client; an event may fail.
  pub data Step (e : Engine p) : Engine p → Type 0 where
    sends :
        (sid event : String) (payload : Option (Json p.Number))
        → Step e (send_event sid event payload e).1
    registers : (id : String) (f : ActionFn p) → Step e (register_action p id f e)
    limits : (depth : ℕ) → Step e (set_max_cascade_depth p depth e)
    clears : Step e (clear_traces e)

  pub data Runs : Engine p → Engine p → Type 0 where
    stop : {e : Engine p} → Runs e e
    next : {e e' e'' : Engine p} → Step e e' → Runs e' e'' → Runs e e''

  -- What every commit keeps, a run keeps.
  pub Runs-invariant :
      (ts : List TransitionDef) (P : HashMap SignalState → Type 0) {e e' : Engine p}
      → ((m m' : HashMap SignalState) (evs : List TraceEvent) → Commits p ts m evs m' → P m → P m')
      → Runs e e'
      → e.transitions ≡ ts
      → P e.signals
      → (e'.transitions ≡ ts) × P e'.signals
  unfolding register_action set_max_cascade_depth clear_traces
  Runs-invariant ts P kept stop h at = (h, at)
  Runs-invariant ts P {e} kept (next (sends sid event payload) runs) h at =
      let r = send_event-Refines sid event payload e in
      Runs-invariant ts P kept runs (r.fixed.transitions ∙ h) (
        kept _ _ _
          (subst (λ l. Commits p l e.signals r.events (send_event sid event payload e).1.signals) h
            r.commits)
          at)
  Runs-invariant ts P kept (next (registers id f) runs) h at = Runs-invariant ts P kept runs h at
  Runs-invariant ts P kept (next (limits depth) runs) h at = Runs-invariant ts P kept runs h at
  Runs-invariant ts P kept (next clears runs) h at = Runs-invariant ts P kept runs h at

  -- From an engine that `from_schema` makes, events that succeed or fail, registrations, limits and
  -- cleared traces, in any order, only reach engines in which every signal is in one of its declared
  -- states, and every transition targets one.
  pub from_schema-safe :
      (w : p.World) (reads : ℕ) (schema : TopologySchema p.Number) {e e' : Engine p}
      → from_schema p w reads schema ≡ ok e
      → Runs e e'
      → IsWellFormed e'
  from_schema-safe w reads schema {e} {e'} h runs =
      let placed = from_schema-IsWellFormed p w reads schema e h in
      let reached =
        Runs-invariant e.transitions (IsPlaced e.transitions)
          (λ m m' evs c at. Commits-IsPlaced c at) runs refl placed in
      subst (λ ts. IsPlaced ts e'.signals) (sym reached.0) reached.1
