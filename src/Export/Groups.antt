-- ===== src/Export/Groups.antt =====
-- The transitions that are grouped by their signal.
use sig_topo.Base.{
  String, ◌≡◌, refl, sym, ap, ◌∙◌, inl, inr, Option, none, some, List, [], ◌∷◌, ◌++◌, append_assoc,
  append-nil, HashMap, lookup, insert, lookup-insert, filter, Bool-cases, eq_iff, ◌==◌,
}
use sig_topo.Schema.{SignalDef, TransitionDef}
use sig_topo.Export.{
  or_default, group_transitions, transitions_by_signal, append_each, transition_edges, signal_edges,
}

-- The transitions of one signal, in the order of the topology.
abbrev pub own_transitions : String → List TransitionDef → List TransitionDef
own_transitions id = filter (λ t. t.signal_id == id)

lookup-pushed :
    (id : String) (t : TransitionDef) (acc : HashMap (List TransitionDef))
    → or_default
        (lookup id (insert t.signal_id (or_default (lookup t.signal_id acc) ++ t ∷ []) acc))
      ≡ or_default (lookup id acc) ++ own_transitions id (t ∷ [])
lookup-pushed id t acc =
    ap or_default (lookup-insert t.signal_id id _ acc) ∙ elim (Bool-cases (t.signal_id == id)) [
      | inl same ↦
          let equal = (eq_iff t.signal_id id).0 same in
          rw same (ap (λ k. or_default (lookup k acc) ++ t ∷ []) equal)
      | inr other ↦ rw other (sym (append-nil (or_default (lookup id acc))))
    ]

own_transitions-append :
    (id : String) (t : TransitionDef) (ts : List TransitionDef)
    → own_transitions id (t ∷ []) ++ own_transitions id ts ≡ own_transitions id (t ∷ ts)
own_transitions-append id t ts = elim (Bool-cases (t.signal_id == id)) [
  | inl same ↦ rw same refl
  | inr other ↦ rw other refl
]

lookup-group_transitions :
    (id : String) (ts : List TransitionDef) (acc : HashMap (List TransitionDef))
    → or_default (lookup id (group_transitions ts acc))
      ≡ or_default (lookup id acc) ++ own_transitions id ts
unfolding group_transitions
lookup-group_transitions id [] acc = sym (append-nil (or_default (lookup id acc)))
lookup-group_transitions id (t ∷ ts) acc =
    let longer = insert t.signal_id (or_default (lookup t.signal_id acc) ++ t ∷ []) acc in
    lookup-group_transitions id ts longer
    ∙ ap (λ l. l ++ own_transitions id ts) (lookup-pushed id t acc)
    ∙ append_assoc (or_default (lookup id acc)) (own_transitions id (t ∷ []))
        (own_transitions id ts)
    ∙ ap (λ l. or_default (lookup id acc) ++ l) (own_transitions-append id t ts)

lookup-transitions_by_signal :
    (id : String) (ts : List TransitionDef)
    → or_default (lookup id (transitions_by_signal ts)) ≡ own_transitions id ts
unfolding transitions_by_signal lookup
lookup-transitions_by_signal id ts = lookup-group_transitions id ts []

signal_edges-default :
    (signal : SignalDef) (o : Option (List TransitionDef))
    → signal_edges signal o ≡ append_each (transition_edges signal) (or_default o)
unfolding append_each
signal_edges-default signal none = refl
signal_edges-default signal (some ts) = refl

-- What is drawn for a signal are its own transitions.
pub signal_edges-own :
    (signal : SignalDef) (ts : List TransitionDef)
    → signal_edges signal (lookup signal.id (transitions_by_signal ts))
      ≡ append_each (transition_edges signal) (own_transitions signal.id ts)
signal_edges-own signal ts =
    signal_edges-default signal (lookup signal.id (transitions_by_signal ts))
    ∙ ap (append_each (transition_edges signal)) (lookup-transitions_by_signal signal.id ts)
