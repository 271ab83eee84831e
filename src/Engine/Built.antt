-- ===== src/Engine/Built.antt =====
-- Engines that are built or reloaded from a topology.
use sig_topo.Base.{
  ℕ, String, ◌≡◌, sym, subst, true, List, [], ◌∷◌, All, contains, ◌==◌, eq_iff, arith, Bool-cases,
  inl, inr, HashMap, lookup, insert, lookup-insert, ok, and_then-eq-ok,
}
use sig_topo.Json.{Platform}
use sig_topo.Schema.{SignalDef, TransitionDef, TopologySchema}
use sig_topo.Compose.Expand.{expand}
use sig_topo.Engine.State.{SignalState, Engine}
use sig_topo.Engine.Validate.{validate}
use sig_topo.Engine.Build.{initial, initial_signals, from_schema}
use sig_topo.Engine.Validated.{FitsSignal, validate-IsValid}
use sig_topo.Engine.WellFormed.{Everywhere, InStates, HasTarget, IsPlaced, IsWellFormed}

-- A signal and its state survive an insertion that has the property.
pub Everywhere-insert :
    (P : String → String → List String → Type 0) (k : String) (v : SignalState)
    (m : HashMap SignalState)
    → Everywhere P m
    → P k v.current v.states
    → Everywhere P (insert k v m)
Everywhere-insert P k v m all pv sid s h =
    let h' = rw lookup-insert at h in
    elim (Bool-cases (k == sid)) [
      | inl same ↦
          let v_s : v ≡ s = ground (arith, h', same) in
          subst (λ (u : SignalState). P sid u.current u.states) v_s
            (subst (λ q. P q v.current v.states) ((eq_iff k sid).0 same) pv)
      | inr other ↦ all sid s (ground (arith, h', other))
    ]

pub initial_signals-Everywhere :
    (P : String → String → List String → Type 0) (sigs : List SignalDef) (m : HashMap SignalState)
    → Everywhere P m
    → All (λ sig. P sig.id sig.initial_state sig.states) sigs
    → Everywhere P (initial_signals sigs m)
unfolding initial_signals
initial_signals-Everywhere P [] m all h = all
initial_signals-Everywhere P (sig ∷ sigs) m all h =
    initial_signals-Everywhere P sigs (insert sig.id (initial sig) m)
      (Everywhere-insert P sig.id (initial sig) m all h.0) h.1

pub Everywhere-empty : (P : String → String → List String → Type 0) → Everywhere P []
unfolding lookup
Everywhere-empty P sid s h = absurd (cc)

pub fits_targets :
    (t : TransitionDef) (sigs : List SignalDef)
    → All (FitsSignal t) sigs
    → All (λ sig. t.signal_id ≡ sig.id → contains t.to sig.states ≡ true) sigs
fits_targets t [] h = tt
fits_targets t (sig ∷ sigs) h = ((λ e. (h.0 e).0), fits_targets t sigs h.1)

initial_targets :
    (sigs : List SignalDef) (ts : List TransitionDef)
    → All (λ t. All (FitsSignal t) sigs) ts
    → All (HasTarget (initial_signals sigs [])) ts
initial_targets sigs [] h = tt
initial_targets sigs (t ∷ ts) h = (
  initial_signals-Everywhere (λ sid _ states. t.signal_id ≡ sid → contains t.to states ≡ true) sigs
      [] (Everywhere-empty _) (fits_targets t sigs h.0),
  initial_targets sigs ts h.1,
)

module _ (p : Platform) where
  pub from_schema-parts :
      (w : p.World) (reads : ℕ) (schema : TopologySchema p.Number) (e : Engine p)
      → from_schema p w reads schema ≡ ok e
      → (flat : TopologySchema p.Number) × (expand schema ≡ ok flat)
        × (validate p flat ≡ ok tt)
        × (e.signals ≡ initial_signals flat.signals [])
        × (e.transitions ≡ flat.transitions)
        × (e.reactions ≡ flat.reactions)
  unfolding from_schema
  from_schema-parts w reads schema e h =
      let expanded = and_then-eq-ok (expand schema) _ h in
      let validated = and_then-eq-ok (validate p expanded.0) _ expanded.2 in
      (expanded.0, expanded.1, validated.1, cc (validated.2), cc (validated.2), cc (validated.2))

  -- An engine that `from_schema` makes has every signal in one of its declared states, and every
  -- transition targets one.
  pub from_schema-IsWellFormed :
      (w : p.World) (reads : ℕ) (schema : TopologySchema p.Number) (e : Engine p)
      → from_schema p w reads schema ≡ ok e
      → IsWellFormed e
  from_schema-IsWellFormed w reads schema e h =
      let (flat, _, valid, signals, transitions, _) = from_schema-parts w reads schema e h in
      let v = validate-IsValid p flat valid in
      subst (λ m. IsPlaced e.transitions m) (sym signals)
        (subst (λ ts. IsPlaced ts (initial_signals flat.signals [])) (sym transitions)
          (record {
            placed =
                initial_signals-Everywhere InStates flat.signals [] (Everywhere-empty _) v.starts;
            targets = initial_targets flat.signals flat.transitions v.fits;
          }))
