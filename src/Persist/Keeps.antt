-- ===== src/Persist/Keeps.antt =====
-- `load_state` keeps every signal in a declared state, does nothing where it fails, and undoes a call of `send_event`.
use sig_topo.Base.{
  String, ◌≡◌, refl, subst, ◌∙◌, true, Option, List, [], ◌∷◌, HashMap, lookup, modify,
  lookup-modify, Result, ok, err, and_then-eq-ok, contains, arith, ◌==◌, Bool-cases, Option-cases,
  Result-cases, inl, inr, if◌then◌else◌, ok_or,
}
use sig_topo.Json.{Platform, Json}
use sig_topo.Error.{EngineError}
use sig_topo.Schema.{TransitionDef}
use sig_topo.Trace.{TraceEvent}
use sig_topo.Engine.State.{SignalState, Engine}
use sig_topo.Engine.Commits.{Commits, moved}
use sig_topo.Engine.Send.{send_event}
use sig_topo.Engine.Cascades.{send_event-Refines}
use sig_topo.Engine.WellFormed.{
  Everywhere, InStates, IsPlaced, IsWellFormed, targets-modify, Everywhere-modify,
}
use sig_topo.Persist.{StateSnapshot, save_state, check_snapshot, restore, load_state}
use sig_topo.Persist.Restores.{IsDistinct, IsAlike, load_state-save}

check_snapshot-moved :
    (k to : String) (m : HashMap SignalState) (states : HashMap String)
    → check_snapshot (modify k (moved to) m) states ≡ check_snapshot m states
unfolding check_snapshot
check_snapshot-moved k to m [] = refl
check_snapshot-moved k to m ((sid, state) ∷ states) =
    let rest = check_snapshot-moved k to m states in
    elim (Option-cases (lookup sid m)) [
      | inl missing ↦ elim (Bool-cases (k == sid)) [
        | inl same ↦ rw (lookup-modify, same, missing) refl
        | inr other ↦ rw (lookup-modify, other, missing) refl
      ]
      | inr (s, found) ↦ elim (Bool-cases (k == sid)) [
        | inl same ↦ rw (lookup-modify, same, found, rest) refl
        | inr other ↦ rw (lookup-modify, other, found, rest) refl
      ]
    ]

moved-IsAlike : (k to : String) (m : HashMap SignalState) → IsAlike m (modify k (moved to) m)
moved-IsAlike k to m sid = elim (Option-cases (lookup sid m)) [
  | inl missing ↦ elim (Bool-cases (k == sid)) [
    | inl same ↦ rw (lookup-modify, same, missing) refl
    | inr other ↦ rw (lookup-modify, other, missing) refl
  ]
  | inr (s, found) ↦ elim (Bool-cases (k == sid)) [
    | inl same ↦ rw (lookup-modify, same, found) refl
    | inr other ↦ rw (lookup-modify, other, found) refl
  ]
]

Commits-IsAlike :
    {p : Platform} {ts : List TransitionDef} {m m' : HashMap SignalState} {evs : List TraceEvent}
    → Commits p ts m evs m'
    → IsAlike m m'
Commits-IsAlike Commits.done sid = refl
Commits-IsAlike (Commits.quiet ev q c) sid = Commits-IsAlike c sid
Commits-IsAlike (Commits.commit {m} k event payload s t time found first passed chosen allowed e c)
      sid =
    moved-IsAlike k t.to m sid ∙ Commits-IsAlike c sid

-- Where an engine's signals are distinct and each in a declared state, saving its state, sending any
-- event, and loading what was saved, gives every signal the state it had, whatever the call of
-- `send_event` and its cascade did, and whether it returned or failed.
pub load_state-send_event :
    {p : Platform} (sid event : String) (payload : Option (Json p.Number)) (e : Engine p)
    → IsDistinct e.signals
    → Everywhere InStates e.signals
    → let r = load_state (ok (save_state e)) (send_event sid event payload e).1 in
      (r.0 ≡ ok tt) × ((k : String) → lookup k r.1.signals ≡ lookup k e.signals)
load_state-send_event sid event payload e d placed =
    let alike = Commits-IsAlike (send_event-Refines sid event payload e).commits in
    let (returned, _, signals) =
      load_state-save e (send_event sid event payload e).1 d placed alike in
    (returned, signals)

restore-IsPlaced :
    (ts : List TransitionDef) (m : HashMap SignalState) (states : HashMap String)
    → check_snapshot m states ≡ ok tt
    → IsPlaced ts m
    → IsPlaced ts (restore states m)
unfolding check_snapshot restore
restore-IsPlaced ts m [] h placed = placed
restore-IsPlaced ts m ((sid, state) ∷ states) h placed =
    let (s, found, h') = and_then-eq-ok (ok_or (lookup sid m) _) _ h in
    let (_, inside, h'') = and_then-eq-ok (if contains state s.states then ok tt else err _) _ h' in
    restore-IsPlaced ts (modify sid (moved state) m) states
      (check_snapshot-moved sid state m states ∙ h'')
      (record {
        placed = Everywhere-modify InStates sid state m placed.placed λ o at.
            let same : s ≡ o = ground (arith, found, at) in
            subst (λ (u : SignalState). contains state u.states ≡ true) same
              (ground (arith, inside));
        targets = targets-modify sid state m ts placed.targets;
      })

-- If every signal is in one of its declared states, and every transition targets one, the same holds
-- after `load_state`, whatever was read.
pub load_state-IsWellFormed :
    {p : Platform} (read : Result String StateSnapshot) (e : Engine p)
    → IsWellFormed e
    → IsWellFormed (load_state read e).1
unfolding load_state
load_state-IsWellFormed (err m) e h = h
load_state-IsWellFormed (ok snapshot) e h =
    elim (Result-cases (check_snapshot e.signals snapshot.states)) [
      | inl (u, passed) ↦
          rw passed (restore-IsPlaced e.transitions e.signals snapshot.states passed h)
      | inr (x, failed) ↦ rw failed h
    ]

-- Where `load_state` fails (the file, its JSON, a signal that is unknown, or a state that is not
-- declared, anywhere in the snapshot), the engine is left as it was.
pub load_state-fails :
    {p : Platform} (read : Result String StateSnapshot) (e : Engine p) (x : EngineError)
    → (load_state read e).0 ≡ err x
    → (load_state read e).1 ≡ e
unfolding load_state
load_state-fails (err m) e x h = refl
load_state-fails (ok snapshot) e x h =
    elim (Result-cases (check_snapshot e.signals snapshot.states)) [
      | inl (u, passed) ↦ absurd (cc (rw passed at h))
      | inr (y, failed) ↦ rw failed refl
    ]
