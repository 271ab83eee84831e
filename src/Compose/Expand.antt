-- ===== src/Compose/Expand.antt =====
-- `expand`, and the expansion of each item.
use sig_topo.Base.{
  String, Option, none, some, List, [], ◌∷◌, ◌++◌, map, HashMap, lookup, contains, if◌then◌else◌,
  Result, ok, err, and_then, ok_or,
}
use sig_topo.Error.{EngineError, component_not_found, duplicate_signal_after_expand}
use sig_topo.Schema.{
  SignalDef, ActionBinding, TransitionDef, ReactionDef, ComponentDef, InstanceDef, TopologySchema,
}
use sig_topo.Compose.Subst.{resolve, resolve_vec}
use sig_topo.Compose.Connect.{check_bindings, port_signals, resolve_connections}

-- `if let Some(target) = remap.get(&id) { id = target.clone() }`
abbrev pub renamed : HashMap String → String → String
renamed remap id = elim (lookup id remap) [ none ↦ id | some target ↦ target ]

-- The loops of `expand`: the first error ends them.
abbrev pub try_map :
    {A B : Type 0} → (A → Result EngineError B) → List A → Result EngineError (List B)
try_map f [] = ok []
try_map f (x ∷ xs) = and_then (f x) λ y. and_then (try_map f xs) λ ys. ok (y ∷ ys)

abbrev resolve_option :
    Option String → String → List String → HashMap String → Result EngineError (Option String)
resolve_option none name params bound = ok none
resolve_option (some g) name params bound =
    and_then (resolve g name params bound) λ g'. ok (some g')

module _ (name : String) (params : List String) (bound : HashMap String) where
  unfoldable pub expand_signal : SignalDef → Result EngineError SignalDef
  unfolding resolve resolve_vec
  expand_signal sig = and_then (resolve sig.id name params bound) λ id.
      and_then (resolve sig.initial_state name params bound) λ initial_state.
        and_then (resolve_vec sig.states name params bound)
          λ states. ok (record { id = id; initial_state = initial_state; states = states })

  unfoldable pub expand_actions : ActionBinding → Result EngineError ActionBinding
  unfolding resolve_vec
  expand_actions a = and_then (resolve_vec a.on_exit name params bound) λ on_exit.
      and_then (resolve_vec a.on_transition name params bound) λ on_transition.
        and_then (resolve_vec a.on_enter name params bound) λ on_enter.
          ok (record { on_exit = on_exit; on_transition = on_transition; on_enter = on_enter })

  unfoldable pub expand_transition : TransitionDef → Result EngineError TransitionDef
  unfolding resolve expand_actions
  expand_transition t = and_then (resolve t.signal_id name params bound) λ signal_id.
      and_then (resolve t.from name params bound) λ from.
        and_then (resolve t.event name params bound) λ event.
          and_then (resolve t.to name params bound) λ to.
            and_then (expand_actions t.actions) λ actions.
              and_then (resolve_option t.guard name params bound) λ guard. ok (record {
                signal_id = signal_id;
                from = from;
                event = event;
                to = to;
                actions = actions;
                guard = guard;
              })

  -- Payload, guard, groups and hook are copied as they are.
  unfoldable pub expand_reaction : {N : Type 0} → ReactionDef N → Result EngineError (ReactionDef N)
  unfolding resolve
  expand_reaction r = and_then (resolve r.from_signal name params bound) λ from_signal.
      and_then (resolve r.from_state name params bound) λ from_state.
        and_then (resolve r.to_signal name params bound) λ to_signal.
          and_then (resolve r.event name params bound) λ event. ok (record r {
            from_signal = from_signal;
            from_state = from_state;
            to_signal = to_signal;
            event = event;
          })

-- The items of a flat topology.
pub record Flat (N : Type 0) : Type 0 where
  pub signals : List SignalDef
  pub transitions : List TransitionDef
  pub reactions : List (ReactionDef N)

abbrev rename_signal : HashMap String → SignalDef → SignalDef
rename_signal remap s = record s { id = renamed remap s.id }

abbrev rename_transition : HashMap String → TransitionDef → TransitionDef
rename_transition remap t = record t { signal_id = renamed remap t.signal_id }

module _ {N : Type 0} where
  abbrev rename_reaction : HashMap String → ReactionDef N → ReactionDef N
  rename_reaction remap r = record r {
    from_signal = renamed remap r.from_signal;
    to_signal = renamed remap r.to_signal;
  }

  -- One round of the loop over the instances.
  unfoldable pub expand_instance :
      HashMap (ComponentDef N) → InstanceDef → Flat N → Result EngineError (Flat N)
  unfolding check_bindings port_signals resolve_connections expand_signal expand_transition
      expand_reaction
  expand_instance components inst out =
      let name = inst.component in
      and_then (ok_or (lookup name components) (component_not_found name)) λ component.
        and_then (check_bindings component.params inst.bindings name []) λ bound.
          and_then
            (resolve_connections name bound component.ports
              (port_signals component.signals bound []) inst.connections [])
            λ remap.
              and_then (try_map (expand_signal name component.params bound) component.signals)
                λ signals.
                  and_then
                    (try_map (expand_transition name component.params bound) component.transitions)
                    λ transitions.
                      and_then
                        (try_map (expand_reaction name component.params bound) component.reactions)
                        λ reactions. ok (record {
                          signals = out.signals ++ map (rename_signal remap) signals;
                          transitions =
                              out.transitions ++ map (rename_transition remap) transitions;
                          reactions = out.reactions ++ map (rename_reaction remap) reactions;
                        })

  unfoldable pub expand_instances :
      HashMap (ComponentDef N) → List InstanceDef → Flat N → Result EngineError (Flat N)
  unfolding expand_instance
  expand_instances components [] out = ok out
  expand_instances components (inst ∷ insts) out =
      and_then (expand_instance components inst out) λ out'. expand_instances components insts out'

-- `seen` is the set of the ids before.
unfoldable pub unique_ids_from : List String → List SignalDef → Result EngineError (Unit {0})
unique_ids_from seen [] = ok tt
unique_ids_from seen (sig ∷ sigs) =
    let rest = unique_ids_from (sig.id ∷ seen) sigs in
    if contains sig.id seen then err (duplicate_signal_after_expand sig.id) else rest

unfoldable pub enforce_unique_signal_ids : List SignalDef → Result EngineError (Unit {0})
unfolding unique_ids_from
enforce_unique_signal_ids = unique_ids_from []

module _ {N : Type 0} where
  abbrev pub or_no_components : Option (HashMap (ComponentDef N)) → HashMap (ComponentDef N)
  or_no_components none = []
  or_no_components (some m) = m

  unfoldable pub expand_with :
      List InstanceDef → TopologySchema N → Result EngineError (TopologySchema N)
  unfolding expand_instances enforce_unique_signal_ids
  expand_with [] schema = ok schema
  expand_with (inst ∷ insts) schema =
      and_then
        (expand_instances (or_no_components schema.components) (inst ∷ insts) (record {
          signals = schema.signals;
          transitions = schema.transitions;
          reactions = schema.reactions;
        }))
        λ out. and_then (enforce_unique_signal_ids out.signals) λ _. ok (record {
          version = schema.version;
          signals = out.signals;
          transitions = out.transitions;
          reactions = out.reactions;
          components = none;
          instances = [];
          includes = [];
        })

  unfoldable pub expand : TopologySchema N → Result EngineError (TopologySchema N)
  unfolding expand_with
  expand schema = expand_with schema.instances schema
