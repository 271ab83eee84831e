-- ===== src/Ddl/Lowered.antt =====
-- ddl/codegen.rs on a well-formed document: its signals and transitions pass the engine's checks.
use sig_topo.Base.{
  String, ◌≡◌, refl, ap, true, false, ◌⊎◌, inl, inr, some, List, [], ◌∷◌, ◌++◌, map, contains, find,
  All, ◌==◌, eq_iff, eq_refl, arith, Bool-cases, ok,
}
use sig_topo.Schema.{SignalDef, TransitionDef}
use sig_topo.Engine.Validate.{signal_ids_of, validate_signals}
use sig_topo.Ddl.Ast.{TransDecl, SignalDecl}
use sig_topo.Ddl.Codegen.{
  transition_from, emit_transition, emit_transitions, emit_signal, emit_signals,
}
use sig_topo.Ddl.Parsed.{Distinct, IsTransition, IsSignal}

abbrev pub ids_of : List SignalDecl → List String
ids_of = map (λ s. s.id)

-- Both signals of the reaction are among the ids.
abbrev pub IsDeclared : List String → String → String → Type 0
IsDeclared ids from_signal to_signal =
    (contains from_signal ids ≡ true) × (contains to_signal ids ≡ true)

pub emitted_ids : (sigs : List SignalDecl) → signal_ids_of ((emit_signals sigs).0) ≡ ids_of sigs
unfolding emit_signals
emitted_ids [] = refl
emitted_ids (sig ∷ sigs) = ap (◌∷◌ sig.id) (emitted_ids sigs)

apart :
    (id : String) (seen : List String) (sigs : List SignalDecl)
    → contains id (ids_of sigs) ≡ false
    → All (λ s. contains s.id seen ≡ false) sigs
    → All (λ s. contains s.id (id ∷ seen) ≡ false) sigs
apart id seen [] h k = tt
apart id seen (s ∷ sigs) h k = (
  ground (arith, h, k.0, eq_iff id s.id, eq_iff s.id id),
  apart id seen sigs (ground (arith, h)) k.1,
)

pub validate_signals-ok :
    (seen : List String) (sigs : List SignalDecl)
    → All IsSignal sigs
    → Distinct (ids_of sigs)
    → All (λ s. contains s.id seen ≡ false) sigs
    → validate_signals seen ((emit_signals sigs).0) ≡ ok tt
unfolding validate_signals emit_signals
validate_signals-ok seen [] h d fresh = refl
validate_signals-ok seen (sig ∷ sigs) h d fresh =
    rw (fresh.0, h.0.initial_in)
      (validate_signals-ok (sig.id ∷ seen) sigs h.1 d.1 (apart sig.id seen sigs d.0 fresh.1))

pub none_fresh : (sigs : List SignalDecl) → All (λ s. contains s.id [] ≡ false) sigs
none_fresh [] = tt
none_fresh (s ∷ sigs) = (refl, none_fresh sigs)

-- A signal is found by its id.
abbrev pub IsFound : List SignalDef → SignalDecl → Type 0
IsFound all sig = find (λ s. s.id == sig.id) all ≡ some (emit_signal sig)

IsFound-later :
    (head : SignalDecl) (all : List SignalDef) (sigs : List SignalDecl)
    → contains head.id (ids_of sigs) ≡ false
    → All (IsFound all) sigs
    → All (IsFound (emit_signal head ∷ all)) sigs
IsFound-later head all [] h k = tt
IsFound-later head all (s ∷ sigs) h k =
    let other : (head.id == s.id) ≡ false =
      ground (arith, h, eq_iff head.id s.id, eq_iff s.id head.id) in
    (rw other k.0, IsFound-later head all sigs (ground (arith, h)) k.1)

pub signals-IsFound :
    (sigs : List SignalDecl) → Distinct (ids_of sigs) → All (IsFound ((emit_signals sigs).0)) sigs
unfolding emit_signals
signals-IsFound [] d = tt
signals-IsFound (sig ∷ sigs) d =
    (rw eq_refl, IsFound-later sig ((emit_signals sigs).0) sigs d.0 (signals-IsFound sigs d.1))

All-append : {A : Type 0} (P : A → Type 0) (xs ys : List A) → All P xs → All P ys → All P (xs ++ ys)
All-append P [] ys h k = k
All-append P (x ∷ xs) ys h k = (h.0, All-append P xs ys h.1 k)

-- The transition's signal is found, and declares both ends.
abbrev pub Fits : List SignalDef → TransitionDef → Type 0
Fits all t =
    (sig : SignalDef) × (find (λ s. s.id == t.signal_id) all ≡ some sig)
    × ((t.from ≡ "*") ⊎ (contains t.from sig.states ≡ true))
    × (contains t.to sig.states ≡ true)

module _ (all : List SignalDef) (sig : SignalDecl) (found : IsFound all sig) where
  copies_fit :
      (tr : TransDecl) (states : List String)
      → IsTransition sig.states tr
      → ((s : String) → contains s states ≡ true → contains s sig.states ≡ true)
      → All (Fits all) (map (transition_from sig.id tr) states)
  copies_fit tr [] h inside = tt
  copies_fit tr (s ∷ states) h inside = (
    (emit_signal sig, found, inr (inside s (ground (arith, eq_refl s))), h.1),
    copies_fit tr states h λ u k. inside u (ground (arith, k)),
  )

  emit_transition-Fits :
      (tr : TransDecl)
      → IsTransition sig.states tr
      → All (Fits all) (emit_transition sig.id sig.states tr)
  unfolding emit_transition
  emit_transition-Fits tr h = elim (Bool-cases (tr.from == "*")) [
    | inl star ↦ rw star (copies_fit tr sig.states h λ s k. k)
    | inr other ↦ rw other ((emit_signal sig, found, h.0, h.1), tt)
  ]

  emit_transitions-Fits :
      (trs : List TransDecl)
      → All (IsTransition sig.states) trs
      → All (Fits all) (emit_transitions sig.id sig.states trs)
  unfolding emit_transitions
  emit_transitions-Fits [] h = tt
  emit_transitions-Fits (tr ∷ trs) h =
      All-append (Fits all) _ _ (emit_transition-Fits tr h.0) (emit_transitions-Fits trs h.1)

pub emit_signals-Fits :
    (all : List SignalDef) (sigs : List SignalDecl)
    → All (IsFound all) sigs
    → All IsSignal sigs
    → All (Fits all) ((emit_signals sigs).1)
unfolding emit_signals
emit_signals-Fits all [] found h = tt
emit_signals-Fits all (sig ∷ sigs) found h =
    All-append (Fits all) _ _
      (emit_transitions-Fits all sig found.0 sig.transitions h.0.transitions_in)
      (emit_signals-Fits all sigs found.1 h.1)
