-- ===== src/Compose/Flat.antt =====
-- What `expand` yields: the topology's own items, then those of its instances, with distinct signals.
use sig_topo.Base.{
  String, ◌≡◌, refl, sym, ap, subst, ◌∙◌, false, List, [], ◌∷◌, ◌++◌, append_assoc, append-nil,
  HashMap, lookup, All, contains, ◌==◌, arith, Bool-cases, inl, inr, ◌⊎◌, ok, and_then-eq-ok,
  ok_inj, ok_or,
}
use sig_topo.Schema.{SignalDef, ComponentDef, InstanceDef, TopologySchema}
use sig_topo.Compose.Connect.{check_bindings, port_signals, resolve_connections}
use sig_topo.Compose.Expand.{
  Flat, try_map, expand_signal, expand_transition, expand_reaction, or_no_components,
  expand_instance, expand_instances, unique_ids_from, enforce_unique_signal_ids, expand_with,
  expand,
}

-- The items of the first list come first in the second.
abbrev pub IsPrefix : {A : Type 0} → List A → List A → Type 0
IsPrefix {A} xs ys = (more : List A) × (ys ≡ xs ++ more)

IsPrefix-same : {A : Type 0} (xs : List A) → IsPrefix xs xs
IsPrefix-same xs = ([], sym (append-nil xs))

IsPrefix-trans : {A : Type 0} (xs ys zs : List A) → IsPrefix xs ys → IsPrefix ys zs → IsPrefix xs zs
IsPrefix-trans xs ys zs (more, e) (more', e') =
    (more ++ more', e' ∙ ap (λ l. l ++ more') e ∙ append_assoc xs more more')

module _ {N : Type 0} where
  record Extends (a b : Flat N) : Type 0 where
    signals : IsPrefix a.signals b.signals
    transitions : IsPrefix a.transitions b.transitions
    reactions : IsPrefix a.reactions b.reactions

  expand_instance-Extends :
      (components : HashMap (ComponentDef N)) (inst : InstanceDef) (out out' : Flat N)
      → expand_instance components inst out ≡ ok out'
      → Extends out out'
  unfolding expand_instance
  expand_instance-Extends components inst out out' h =
      let (component, _, h1) = and_then-eq-ok (ok_or (lookup inst.component components) _) _ h in
      let (bound, _, h2) =
        and_then-eq-ok (check_bindings component.params inst.bindings inst.component []) _ h1 in
      let (remap, _, h3) =
        and_then-eq-ok
          (resolve_connections inst.component bound component.ports
            (port_signals component.signals bound []) inst.connections [])
          _ h2 in
      let (signals, _, h4) =
        and_then-eq-ok
          (try_map (expand_signal inst.component component.params bound) component.signals) _ h3 in
      let (transitions, _, h5) =
        and_then-eq-ok
          (try_map (expand_transition inst.component component.params bound) component.transitions)
          _ h4 in
      let (reactions, _, h6) =
        and_then-eq-ok
          (try_map (expand_reaction inst.component component.params bound) component.reactions) _
          h5 in
      subst (Extends out) (ok_inj h6)
        (record { signals = (_, refl); transitions = (_, refl); reactions = (_, refl) })

  expand_instances-Extends :
      (components : HashMap (ComponentDef N)) (insts : List InstanceDef) (out out' : Flat N)
      → expand_instances components insts out ≡ ok out'
      → Extends out out'
  unfolding expand_instances
  expand_instances-Extends components [] out out' h = subst (Extends out) (ok_inj h) (record {
    signals = IsPrefix-same out.signals;
    transitions = IsPrefix-same out.transitions;
    reactions = IsPrefix-same out.reactions;
  })
  expand_instances-Extends components (inst ∷ insts) out out' h =
      let (next, first, rest) = and_then-eq-ok (expand_instance components inst out) _ h in
      let e = expand_instance-Extends components inst out next first in
      let e' = expand_instances-Extends components insts next out' rest in
      record {
        signals = IsPrefix-trans _ _ _ e.signals e'.signals;
        transitions = IsPrefix-trans _ _ _ e.transitions e'.transitions;
        reactions = IsPrefix-trans _ _ _ e.reactions e'.reactions;
      }

-- Each id is that of one signal.
abbrev pub AreUnique : List SignalDef → Type 0
AreUnique [] = Unit
AreUnique (sig ∷ sigs) = All (λ s. (sig.id == s.id) ≡ false) sigs × AreUnique sigs

unseen :
    (seen : List String) (sigs : List SignalDef)
    → unique_ids_from seen sigs ≡ ok tt
    → All (λ s. contains s.id seen ≡ false) sigs × AreUnique sigs
unfolding unique_ids_from
unseen seen [] h = (tt, tt)
unseen seen (sig ∷ sigs) h = elim (Bool-cases (contains sig.id seen)) [
  | inl old ↦ absurd (cc (rw old at h))
  | inr new ↦
      let rest = unseen (sig.id ∷ seen) sigs (rw new at h) in
      ((new, older sigs rest.0), (others sigs rest.0, rest.1))
]
  where
    older :
        (ss : List SignalDef)
        → All (λ s. contains s.id (sig.id ∷ seen) ≡ false) ss
        → All (λ s. contains s.id seen ≡ false) ss
    older [] a = tt
    older (s ∷ ss) a = (ground (arith, a.0), older ss a.1)

    others :
        (ss : List SignalDef)
        → All (λ s. contains s.id (sig.id ∷ seen) ≡ false) ss
        → All (λ s. (sig.id == s.id) ≡ false) ss
    others [] a = tt
    others (s ∷ ss) a = (ground (arith, a.0), others ss a.1)

module _ {N : Type 0} where
  pub record IsExpansion (schema flat : TopologySchema N) : Type 0 where
    pub instances : flat.instances ≡ []
    pub signals : IsPrefix schema.signals flat.signals
    pub transitions : IsPrefix schema.transitions flat.transitions
    pub reactions : IsPrefix schema.reactions flat.reactions
    pub again : expand flat ≡ ok flat
    pub unique : (schema.instances ≡ []) ⊎ AreUnique flat.signals

  unchanged : (schema : TopologySchema N) → schema.instances ≡ [] → IsExpansion schema schema
  unfolding expand expand_with
  unchanged schema none_left = record {
    instances = none_left;
    signals = IsPrefix-same schema.signals;
    transitions = IsPrefix-same schema.transitions;
    reactions = IsPrefix-same schema.reactions;
    again = rw none_left refl;
    unique = inl none_left;
  }

  expand_with-IsExpansion :
      (insts : List InstanceDef) (schema flat : TopologySchema N)
      → schema.instances ≡ insts
      → expand_with insts schema ≡ ok flat
      → IsExpansion schema flat
  unfolding expand_with enforce_unique_signal_ids expand
  expand_with-IsExpansion [] schema flat e h =
      subst (IsExpansion schema) (ok_inj h) (unchanged schema e)
  expand_with-IsExpansion (inst ∷ insts) schema flat e h =
      let own : Flat N = record {
        signals = schema.signals;
        transitions = schema.transitions;
        reactions = schema.reactions;
      } in
      let components = or_no_components schema.components in
      let (out, expanded, h1) =
        and_then-eq-ok (expand_instances components (inst ∷ insts) own) _ h in
      let (_, checked, h2) = and_then-eq-ok (unique_ids_from [] out.signals) _ h1 in
      let more = expand_instances-Extends components (inst ∷ insts) own out expanded in
      subst (IsExpansion schema) (ok_inj h2) (record {
        instances = refl;
        signals = more.signals;
        transitions = more.transitions;
        reactions = more.reactions;
        again = refl;
        unique = inr (unseen [] out.signals checked).1;
      })

  pub expand-IsExpansion :
      (schema flat : TopologySchema N) → expand schema ≡ ok flat → IsExpansion schema flat
  unfolding expand
  expand-IsExpansion schema flat h = expand_with-IsExpansion schema.instances schema flat refl h
