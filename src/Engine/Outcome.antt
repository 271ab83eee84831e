-- ===== src/Engine/Outcome.antt =====
-- What one reaction may do: the note on its guard, its event, and its compensation.
use Prim.Native.String
use sig_topo.Base.{
  ◌+◌, String, ◌≡◌, Bool, true, false, Option, none, some, [], ◌∷◌, ◌++◌, lookup, Result, ok, err,
}
use sig_topo.Json.{Platform, Json}
use sig_topo.Error.{EngineError, to_string}
use sig_topo.Schema.{ReactionDef}
use sig_topo.Trace.{reaction_guard_evaluated, reaction_compensated}
use sig_topo.Context.{ActionContext}
use sig_topo.Guard.Eval.{eval_guard}
use sig_topo.Engine.State.{SignalState, Engine}
use sig_topo.Engine.Action.{run_action}
use sig_topo.Engine.Reaction.{TransitionResult}
use sig_topo.Engine.Relations.{IsStill}

abbrev pub state_or_empty : Option SignalState → String
state_or_empty none = ""
state_or_empty (some s) = s.current

module _ {p : Platform} (r : ReactionDef p.Number) (payload : Option (Json p.Number))
    (sid : String) where
  -- What a guard and a hook read: the payload of the event before, the state that the target is in,
  -- and for a hook the error.
  abbrev pub context_at : Option String → String → ActionContext p
  context_at failure state = record {
    signal_id = r.to_signal;
    from_state = r.from_state;
    to_state = state;
    event = r.event;
    payload = payload;
    failure = failure;
  }

  abbrev pub context : Option String → Engine p → ActionContext p
  context failure e = context_at failure (state_or_empty (lookup r.to_signal e.signals))

  -- An evaluation of the guard is one event of the trace, and nothing else.
  abbrev pub noted : String → String → Engine p → Engine p
  noted guard result e = record e {
    trace = record {
      events =
          e.trace.events
          ++ reaction_guard_evaluated sid r.from_signal r.from_state r.to_signal r.event guard
              result (p.clock e.clock_reads)
            ∷ [];
    };
    clock_reads = e.clock_reads + 1;
  }

  -- One more event of the trace, which tells of the compensation.
  abbrev pub told : String → String → Engine p → Engine p
  told hook message e = record e {
    trace = record {
      events =
          e.trace.events
          ++ reaction_compensated sid r.from_signal r.from_state r.to_signal r.event hook message
              (p.clock e.clock_reads)
            ∷ [];
    };
    clock_reads = e.clock_reads + 1;
  }

  -- Without a hook nothing happens after a failure. With one its callback is run, with the error that
  -- it is for, and the trace tells of it, whatever the callback returns; no signal moves.
  abbrev pub IsCompensated : Option String → String → Engine p → Engine p → Type 0
  IsCompensated none message failed after = after ≡ failed
  IsCompensated (some hook) message failed after =
      IsStill failed after
      × (after
          ≡ told hook message
              (run_action r.to_signal hook (context (some message) failed) failed).1)

  -- The end of a reaction whose event was sent, by what sending it returned.
  abbrev pub IsSent :
      Result EngineError TransitionResult × Engine p
      → Result EngineError (Unit {0}) × Engine p
      → Type 0
  IsSent (ok result, after) done = done ≡ (ok tt, after)
  IsSent (err x, failed) done =
      (done.0 ≡ err x) × IsCompensated r.on_fail (to_string x) failed done.1

  -- By what the guard comes to: only where it is true the event is sent, from the engine that has
  -- noted this. Otherwise the note is all that is done.
  abbrev pub IsJudged :
      (Engine p → Result EngineError TransitionResult × Engine p)
      → String
      → Result String Bool
      → Engine p
      → Result EngineError (Unit {0}) × Engine p
      → Type 0
  IsJudged send guard (ok true) e done = IsSent (send (noted guard "true" e)) done
  IsJudged send guard (ok false) e done = done ≡ (ok tt, noted guard "false" e)
  IsJudged send guard (err m) e done = done ≡ (ok tt, noted guard (String.◌++◌ "error: " m) e)

  abbrev pub IsReaction :
      (Engine p → Result EngineError TransitionResult × Engine p)
      → Option String
      → Engine p
      → Result EngineError (Unit {0}) × Engine p
      → Type 0
  IsReaction send none e done = IsSent (send e) done
  IsReaction send (some guard) e done =
      IsJudged send guard (eval_guard p guard (context none e)) e done
