-- ===== src/Engine/Reloaded.antt =====
-- `reload_topology`: what it keeps, and when every signal is still in a declared state.
use sig_topo.Base.{
  String, ◌≡◌, refl, ◌∙◌, subst, Bool-cases, find, none, Option, true, some, List, [], ◌∷◌, All,
  contains, HashMap, lookup, insert, Result, ok, err, and_then-eq-ok, Result-cases, Option-cases,
  inl, inr, ◌==◌, false, eq_iff, eq_refl, arith, lookup-insert,
}
use sig_topo.Json.{Platform}
use sig_topo.Error.{EngineError}
use sig_topo.Schema.{SignalDef, TransitionDef, TopologySchema}
use sig_topo.Engine.State.{SignalState, Engine}
use sig_topo.Engine.Validate.{validate, validate_signals}
use sig_topo.Engine.Build.{kept, reloaded_signals, install, reload_topology}
use sig_topo.Engine.Validated.{
  FitsSignal, StartsInside, validate-IsValid, not_seen, validate_signals-cons,
}
use sig_topo.Engine.WellFormed.{Everywhere, InStates, HasTarget, IsWellFormed}
use sig_topo.Engine.Built.{Everywhere-insert, Everywhere-empty}

reloaded_signals-Everywhere :
    (P : String → String → List String → Type 0) (old : HashMap SignalState) (sigs : List SignalDef)
    (m : HashMap SignalState)
    → Everywhere P m
    → All
        (λ sig.
          P sig.id (kept sig (lookup sig.id old)).current (kept sig (lookup sig.id old)).states)
        sigs
    → Everywhere P (reloaded_signals old sigs m)
unfolding reloaded_signals
reloaded_signals-Everywhere P old [] m all h = all
reloaded_signals-Everywhere P old (sig ∷ sigs) m all h =
    reloaded_signals-Everywhere P old sigs (insert sig.id (kept sig (lookup sig.id old)) m)
      (Everywhere-insert P sig.id (kept sig (lookup sig.id old)) m all h.0) h.1

-- If the signal is there before, its current state is among the states that the topology declares.
abbrev pub Retains : HashMap SignalState → SignalDef → Type 0
Retains old sig =
    (s : SignalState) → lookup sig.id old ≡ some s → contains s.current sig.states ≡ true

kept_inside :
    (old : HashMap SignalState) (sigs : List SignalDef)
    → All StartsInside sigs
    → All (Retains old) sigs
    → All
        (λ sig.
          contains (kept sig (lookup sig.id old)).current (kept sig (lookup sig.id old)).states
          ≡ true)
        sigs
kept_inside old [] starts retains = tt
kept_inside old (sig ∷ sigs) starts retains = (
  elim (Option-cases (lookup sig.id old)) [
    | inl missing ↦ rw missing starts.0
    | inr (s, found) ↦ rw found (retains.0 s found)
  ],
  kept_inside old sigs starts.1 retains.1,
)

kept_targets :
    (old : HashMap SignalState) (t : TransitionDef) (sigs : List SignalDef)
    → All (FitsSignal t) sigs
    → All
        (λ sig. t.signal_id ≡ sig.id → contains t.to (kept sig (lookup sig.id old)).states ≡ true)
        sigs
kept_targets old t [] h = tt
kept_targets old t (sig ∷ sigs) h = (
  elim (Option-cases (lookup sig.id old)) [
    | inl missing ↦ rw missing (λ e. (h.0 e).0)
    | inr (s, found) ↦ rw found (λ e. (h.0 e).0)
  ],
  kept_targets old t sigs h.1,
)

each_target :
    (old : HashMap SignalState) (sigs : List SignalDef) (ts : List TransitionDef)
    → All (λ t. All (FitsSignal t) sigs) ts
    → All (HasTarget (reloaded_signals old sigs [])) ts
each_target old sigs [] h = tt
each_target old sigs (t ∷ ts) h = (
  reloaded_signals-Everywhere (λ sid _ states. t.signal_id ≡ sid → contains t.to states ≡ true) old
      sigs [] (Everywhere-empty _) (kept_targets old t sigs h.0),
  each_target old sigs ts h.1,
)

-- Ids that are not declared are left out, and each declared one is there once.
reloaded_other :
    (k : String) (old : HashMap SignalState) (sigs : List SignalDef) (m : HashMap SignalState)
    → All (λ sig. (k == sig.id) ≡ false) sigs
    → lookup k (reloaded_signals old sigs m) ≡ lookup k m
unfolding reloaded_signals
reloaded_other k old [] m h = refl
reloaded_other k old (sig ∷ sigs) m h =
    let other : (sig.id == k) ≡ false = ground (arith, h.0, eq_iff k sig.id, eq_iff sig.id k) in
    reloaded_other k old sigs (insert sig.id (kept sig (lookup sig.id old)) m) h.1
    ∙ rw (lookup-insert, other) refl

-- What becomes of a signal, by its declaration in the new topology and its entry before.
abbrev pub IsReloaded : Option SignalDef → Option SignalState → Option SignalState → Type 0
IsReloaded none before after = after ≡ none
IsReloaded (some sig) none after =
    after
    ≡ some (record {
      current = sig.initial_state;
      states = sig.states;
      initial_state = sig.initial_state;
    })
IsReloaded (some sig) (some s) after =
    after
    ≡ some (record { current = s.current; states = sig.states; initial_state = sig.initial_state })

kept-IsReloaded :
    (sig : SignalDef) (before after : Option SignalState)
    → after ≡ some (kept sig before)
    → IsReloaded (some sig) before after
kept-IsReloaded sig none after h = h
kept-IsReloaded sig (some s) after h = h

reloaded_signals-IsReloaded :
    (seen : List String) (old : HashMap SignalState) (sigs : List SignalDef) (sid : String)
    (m : HashMap SignalState)
    → validate_signals seen sigs ≡ ok tt
    → lookup sid m ≡ none
    → IsReloaded
        (find (λ sig. sig.id == sid) sigs)
        (lookup sid old)
        (lookup sid (reloaded_signals old sigs m))
unfolding reloaded_signals
reloaded_signals-IsReloaded seen old [] sid m h absent = absent
reloaded_signals-IsReloaded seen old (sig ∷ sigs) sid m h absent =
    let parts = validate_signals-cons seen sig sigs h in
    let m' = insert sig.id (kept sig (lookup sig.id old)) m in
    elim (Bool-cases (sig.id == sid)) [
      | inl same ↦
          let equal = (eq_iff sig.id sid).0 same in
          let seen_it : contains sig.id (sig.id ∷ seen) ≡ true = rw eq_refl refl in
          let now =
            reloaded_other sig.id old sigs m' (not_seen sig.id (sig.id ∷ seen) sigs seen_it parts.2)
            ∙ rw (lookup-insert, eq_refl) refl in
          rw same (
            kept-IsReloaded sig (lookup sid old) (lookup sid (reloaded_signals old sigs m')) (
              subst (λ k. lookup k (reloaded_signals old sigs m') ≡ some (kept sig (lookup k old)))
                equal now))
      | inr other ↦
          let absent' : lookup sid m' ≡ none =
            lookup-insert sig.id sid (kept sig (lookup sig.id old)) m ∙ rw other absent in
          rw other (reloaded_signals-IsReloaded (sig.id ∷ seen) old sigs sid m' parts.2 absent')
    ]

module _ (p : Platform) where
  -- A topology that does not parse or does not validate leaves the engine as it was.
  pub reload_topology-fails :
      (parsed : Result String (TopologySchema p.Number)) (e : Engine p) (x : EngineError)
      → (reload_topology p parsed e).0 ≡ err x
      → (reload_topology p parsed e).1 ≡ e
  unfolding reload_topology
  reload_topology-fails (err m) e x h = refl
  reload_topology-fails (ok schema) e x h = elim (Result-cases (validate p schema)) [
    | inl (u, valid) ↦ absurd (cc (rw valid at h))
    | inr (y, invalid) ↦ rw invalid refl
  ]

  -- If every signal that the new topology declares was absent, or in a state that it still declares,
  -- then every signal is in one of its declared states after `reload_topology`, and every transition
  -- targets one, if this was so before.
  pub reload_topology-IsWellFormed :
      (parsed : Result String (TopologySchema p.Number)) (e : Engine p)
      → IsWellFormed e
      → ((schema : TopologySchema p.Number)
          → parsed ≡ ok schema
          → All (Retains e.signals) schema.signals)
      → IsWellFormed (reload_topology p parsed e).1
  unfolding reload_topology install
  reload_topology-IsWellFormed (err m) e h retains = h
  reload_topology-IsWellFormed (ok schema) e h retains = elim (Result-cases (validate p schema)) [
    | inr (y, invalid) ↦ rw invalid h
    | inl (u, valid) ↦
        let v = validate-IsValid p schema valid in
        rw valid (record {
          placed =
              reloaded_signals-Everywhere InStates e.signals schema.signals [] (Everywhere-empty _)
                (kept_inside e.signals schema.signals v.starts (retains schema refl));
          targets = each_target e.signals schema.signals schema.transitions v.fits;
        })
  ]

  -- After a reload that succeeds, a signal that the new topology declares has the declared states and
  -- initial state, and is in the state it was in before, or in the initial one where it is new; a
  -- signal that it does not declare is gone. The transitions and reactions are the new ones. The
  -- callbacks, the trace, the depth limit and the surroundings are kept.
  pub reload_topology-keeps :
      (schema : TopologySchema p.Number) (e : Engine p) (sid : String)
      → (reload_topology p (ok schema) e).0 ≡ ok tt
      → let e' = (reload_topology p (ok schema) e).1 in
        IsReloaded
          (find (λ sig. sig.id == sid) schema.signals)
          (lookup sid e.signals)
          (lookup sid e'.signals)
        × (e' ≡ record e {
          signals = e'.signals;
          transitions = schema.transitions;
          reactions = schema.reactions;
        })
  unfolding reload_topology install validate lookup
  reload_topology-keeps schema e sid h = elim (Result-cases (validate p schema)) [
    | inr (y, invalid) ↦ absurd (cc (rw invalid at h))
    | inl (u, valid) ↦
        let signals = and_then-eq-ok (validate_signals [] schema.signals) _ valid in
        rw valid
          (reloaded_signals-IsReloaded [] e.signals schema.signals sid [] signals.1 refl, refl)
  ]
