-- ===== src/Persist.antt =====
-- persist.rs: snapshots of the signals' current states. The file and its JSON are `serde` and the
-- file system: `save_state` returns the snapshot that is written, and `load_state` takes what was read.
pub mod Restores
pub mod Keeps
use Prim.Native.String.{◌++◌}
use sig_topo.Base.{
  String, [], ◌∷◌, map, HashMap, lookup, modify, contains, if◌then◌else◌, Result, ok, err, and_then,
  ok_or, map_err,
}
use sig_topo.Json.{Platform}
use sig_topo.Error.{EngineError, persistence_error, state_not_found}
use sig_topo.Engine.State.{SignalState, Engine, Act}

pub record StateSnapshot : Type 0 where
  pub states : HashMap String

abbrev pub entry_state : String × SignalState → String × String
entry_state (id, s) = (id, s.current)

unfoldable pub save_state : {p : Platform} → Engine p → StateSnapshot
save_state e = record { states = map entry_state e.signals }

-- Every signal and state of the snapshot is checked first.
unfoldable pub check_snapshot : HashMap SignalState → HashMap String → Result EngineError (Unit {0})
check_snapshot signals [] = ok tt
check_snapshot signals ((signal_id, state) ∷ states) =
    and_then
      (ok_or (lookup signal_id signals) (persistence_error ("Unknown signal: " ++ signal_id)))
      λ s.
        and_then (if contains state s.states then ok tt else err (state_not_found signal_id state))
          λ _. check_snapshot signals states

unfoldable pub restore : HashMap String → HashMap SignalState → HashMap SignalState
restore [] signals = signals
restore ((signal_id, state) ∷ states) signals =
    restore states (modify signal_id (λ s. record s { current = state }) signals)

module _ {p : Platform} where
  abbrev restore_or_fail :
      Engine p
      → StateSnapshot
      → Result EngineError (Unit {0})
      → Result EngineError (Unit {0}) × Engine p
  restore_or_fail e snapshot (ok _) =
      (ok tt, record e { signals = restore snapshot.states e.signals })
  restore_or_fail e snapshot (err x) = (err x, e)

  abbrev load_read :
      Engine p → Result EngineError StateSnapshot → Result EngineError (Unit {0}) × Engine p
  load_read e (err x) = (err x, e)
  load_read e (ok snapshot) = restore_or_fail e snapshot (check_snapshot e.signals snapshot.states)

  -- What reading and parsing the file gave is passed in.
  unfoldable pub load_state : Result String StateSnapshot → Act p (Unit {0})
  unfolding check_snapshot restore
  load_state read e = load_read e (map_err persistence_error read)
