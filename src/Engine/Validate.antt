-- ===== src/Engine/Validate.antt =====
-- `validate`: the checks on a flat topology, in the source's order; the first failure is returned.
use Prim.Native.String.{◌++◌}
use sig_topo.Base.{
  ℕ, ◌+◌, String, Bool, not, ◌&&◌, none, some, List, [], ◌∷◌, find, contains, map, if◌then◌else◌,
  ◌==◌, Result, ok, err, and_then,
}
use sig_topo.Base.Int.{pos}
use sig_topo.Json.{Platform}
use sig_topo.Error.{EngineError, validation_error, reaction_signal_not_found}
use sig_topo.Schema.{SignalDef, TransitionDef, ReactionDef, TopologySchema}

abbrev pub ensure : Bool → EngineError → Result EngineError (Unit {0})
ensure test x = if test then ok tt else err x

-- The ids seen are those of the signals before.
unfoldable pub validate_signals : List String → List SignalDef → Result EngineError (Unit {0})
validate_signals seen [] = ok tt
validate_signals seen (sig ∷ sigs) =
    and_then
      (ensure (not (contains sig.id seen)) (validation_error ("Duplicate signal id: " ++ sig.id)))
      λ _.
        and_then
          (ensure (contains sig.initial_state sig.states) (
            validation_error (
              "Invalid initial_state '" ++ sig.initial_state ++ "' for signal '" ++ sig.id ++ "'")))
          λ _. validate_signals (sig.id ∷ seen) sigs

abbrev pub signal_ids_of : List SignalDef → List String
signal_ids_of = map (λ s. s.id)

module _ (p : Platform) where
  -- Index and signal, as the messages name a transition.
  unfoldable pub validate_transition :
      List SignalDef → ℕ → TransitionDef → Result EngineError (Unit {0})
  validate_transition signals i t =
      let at = "Transition " ++ p.show_i64 (pos i) ++ " references " in
      let named = "' for signal '" ++ t.signal_id ++ "'" in
      elim (find (λ s. s.id == t.signal_id) signals) [
        | none ↦ err (validation_error (at ++ "unknown signal '" ++ t.signal_id ++ "'"))
        | some signal ↦
            if not (t.from == "*") && not (contains t.from signal.states)
            then err (validation_error (at ++ "invalid 'from' state '" ++ t.from ++ named))
            else ensure (contains t.to signal.states)
                (validation_error (at ++ "invalid 'to' state '" ++ t.to ++ named))
      ]

  unfoldable pub validate_transitions :
      List SignalDef → ℕ → List TransitionDef → Result EngineError (Unit {0})
  unfolding validate_transition
  validate_transitions signals i [] = ok tt
  validate_transitions signals i (t ∷ ts) =
      and_then (validate_transition signals i t) λ _. validate_transitions signals (i + 1) ts

unfoldable pub validate_reaction :
    {N : Type 0} → List String → ReactionDef N → Result EngineError (Unit {0})
validate_reaction ids r =
    and_then (ensure (contains r.from_signal ids) (reaction_signal_not_found r.from_signal))
      λ _. ensure (contains r.to_signal ids) (reaction_signal_not_found r.to_signal)

unfoldable pub validate_reactions :
    {N : Type 0} → List String → List (ReactionDef N) → Result EngineError (Unit {0})
unfolding validate_reaction
validate_reactions ids [] = ok tt
validate_reactions ids (r ∷ rs) = and_then (validate_reaction ids r) λ _. validate_reactions ids rs

unfoldable pub validate : (p : Platform) → TopologySchema p.Number → Result EngineError (Unit {0})
unfolding validate_signals validate_transitions validate_reactions
validate p schema = and_then (validate_signals [] schema.signals) λ _.
    and_then (validate_transitions p schema.signals 0 schema.transitions)
      λ _. validate_reactions (signal_ids_of schema.signals) schema.reactions
