-- ===== src/Engine/Validated.antt =====
-- What a topology that passes `validate` satisfies.
use sig_topo.Base.{
  ℕ, ◌+◌, String, ◌≡◌, sym, subst, true, false, Option, some, List, [], ◌∷◌, All, contains, find,
  ◌==◌, eq_iff, eq_refl, arith, Bool-cases, Option-cases, ◌⊎◌, inl, inr, ok, and_then-eq-ok,
}
use sig_topo.Json.{Platform}
use sig_topo.Schema.{SignalDef, TransitionDef, TopologySchema}
use sig_topo.Engine.Validate.{validate_signals, validate_transition, validate_transitions, validate}

-- A signal starts in a declared state.
abbrev pub StartsInside : SignalDef → Type 0
StartsInside sig = contains sig.initial_state sig.states ≡ true

-- Every signal of that id declares the target; the source is the wildcard or declared as well.
abbrev pub FitsSignal : TransitionDef → SignalDef → Type 0
FitsSignal t sig =
    t.signal_id ≡ sig.id
    → (contains t.to sig.states ≡ true) × ((t.from ≡ "*") ⊎ (contains t.from sig.states ≡ true))

abbrev IsNew : List String → SignalDef → Type 0
IsNew seen sig = contains sig.id seen ≡ false

-- The checks on one signal, taken apart.
pub validate_signals-cons :
    (seen : List String) (sig : SignalDef) (sigs : List SignalDef)
    → validate_signals seen (sig ∷ sigs) ≡ ok tt
    → IsNew seen sig × StartsInside sig × (validate_signals (sig.id ∷ seen) sigs ≡ ok tt)
unfolding validate_signals
validate_signals-cons seen sig sigs h = ground arith

-- An id that was seen is not seen again.
pub not_seen :
    (k : String) (seen : List String) (sigs : List SignalDef)
    → contains k seen ≡ true
    → validate_signals seen sigs ≡ ok tt
    → All (λ sig. (k == sig.id) ≡ false) sigs
not_seen k seen [] old h = tt
not_seen k seen (sig ∷ sigs) old h =
    let parts = validate_signals-cons seen sig sigs h in
    (
      ground (arith, parts.0, old, eq_iff k sig.id),
      not_seen k (sig.id ∷ seen) sigs (ground (arith, old)) parts.2,
    )

pub validate_signals-StartsInside :
    (seen : List String) (sigs : List SignalDef)
    → validate_signals seen sigs ≡ ok tt
    → All StartsInside sigs
validate_signals-StartsInside seen [] h = tt
validate_signals-StartsInside seen (sig ∷ sigs) h =
    let parts = validate_signals-cons seen sig sigs h in
    (parts.1, validate_signals-StartsInside (sig.id ∷ seen) sigs parts.2)

abbrev pub finds : String → List SignalDef → Option SignalDef
finds k sigs = find (λ s. s.id == k) sigs

-- Ids are unique, so the signal that is found is the only one of its id.
pub found_only :
    (P : SignalDef → Type 0) (k : String) (seen : List String) (sigs : List SignalDef)
    (sig : SignalDef)
    → validate_signals seen sigs ≡ ok tt
    → finds k sigs ≡ some sig
    → P sig
    → All (λ s. k ≡ s.id → P s) sigs
found_only P k seen [] sig h f ps = tt
found_only P k seen (s ∷ sigs) sig h f ps =
    let parts = validate_signals-cons seen s sigs h in
    elim (Bool-cases (s.id == k)) [
      | inl same ↦
          let s_sig : s ≡ sig = ground (arith, f, same) in
          (
            λ _. subst P (sym s_sig) ps,
            others sigs (not_seen s.id (s.id ∷ seen) sigs (ground (arith, eq_refl s.id)) parts.2)
                ((eq_iff s.id k).0 same),
          )
      | inr other ↦ (
        λ e. absurd (ground (arith, other, eq_iff s.id k, e)),
        found_only P k (s.id ∷ seen) sigs sig parts.2 (ground (arith, f, other)) ps,
      )
    ]
  where
    others :
        (rest : List SignalDef)
        → All (λ u. (s.id == u.id) ≡ false) rest
        → s.id ≡ k
        → All (λ u. k ≡ u.id → P u) rest
    others [] a e = tt
    others (u ∷ rest) a e =
        (λ k_u. absurd (ground (arith, a.0, eq_iff s.id u.id, e, k_u)), others rest a.1 e)

module _ (p : Platform) where
  -- The signal that a transition names, and what was checked of the two states.
  transition_checked :
      (sigs : List SignalDef) (i : ℕ) (t : TransitionDef)
      → validate_transition p sigs i t ≡ ok tt
      → (sig : SignalDef) × (finds t.signal_id sigs ≡ some sig)
        × (contains t.to sig.states ≡ true)
        × ((t.from ≡ "*") ⊎ (contains t.from sig.states ≡ true))
  unfolding validate_transition
  transition_checked sigs i t h = elim (Option-cases (finds t.signal_id sigs)) [
    | inl missing ↦ absurd (ground (arith, missing, h))
    | inr (sig, found) ↦ (
      sig,
      found,
      ground (arith, found, h, eq_iff t.from "*"),
      ground (arith, found, h, eq_iff t.from "*"),
    )
  ]

  pub validate_transition-FitsSignal :
      (seen : List String) (sigs : List SignalDef) (i : ℕ) (t : TransitionDef)
      → validate_signals seen sigs ≡ ok tt
      → validate_transition p sigs i t ≡ ok tt
      → All (FitsSignal t) sigs
  validate_transition-FitsSignal seen sigs i t unique h =
      let checked = transition_checked sigs i t h in
      found_only
        (λ sig.
          (contains t.to sig.states ≡ true)
          × ((t.from ≡ "*") ⊎ (contains t.from sig.states ≡ true)))
        t.signal_id seen sigs checked.0 unique checked.1 (checked.2, checked.3)

  pub validate_transitions-FitsSignal :
      (seen : List String) (sigs : List SignalDef) (i : ℕ) (ts : List TransitionDef)
      → validate_signals seen sigs ≡ ok tt
      → validate_transitions p sigs i ts ≡ ok tt
      → All (λ t. All (FitsSignal t) sigs) ts
  unfolding validate_transitions
  validate_transitions-FitsSignal seen sigs i [] unique h = tt
  validate_transitions-FitsSignal seen sigs i (t ∷ ts) unique h =
      let parts = and_then-eq-ok (validate_transition p sigs i t) _ h in
      (
        validate_transition-FitsSignal seen sigs i t unique parts.1,
        validate_transitions-FitsSignal seen sigs (i + 1) ts unique parts.2,
      )

  pub record IsValid (schema : TopologySchema p.Number) : Type 0 where
    pub starts : All StartsInside schema.signals
    pub fits : All (λ t. All (FitsSignal t) schema.signals) schema.transitions

  -- A topology that passes validation starts every signal in a declared state, and each transition
  -- goes from the wildcard or a declared state to a declared state of every signal of its id.
  pub validate-IsValid :
      (schema : TopologySchema p.Number) → validate p schema ≡ ok tt → IsValid schema
  unfolding validate
  validate-IsValid schema h =
      let signals = and_then-eq-ok (validate_signals [] schema.signals) _ h in
      let transitions =
        and_then-eq-ok (validate_transitions p schema.signals 0 schema.transitions) _ signals.2 in
      record {
        starts = validate_signals-StartsInside [] schema.signals signals.1;
        fits =
            validate_transitions-FitsSignal [] schema.signals 0 schema.transitions signals.1
              transitions.1;
      }
