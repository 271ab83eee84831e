-- ===== src/Check.antt =====
-- check.rs: warnings about a topology, and about the declarations of the front end.
pub mod Sound
use Prim.Native.String.{◌++◌}
use sig_topo.Base.{
  ℕ, suc, String, Bool, true, false, not, ◌&&◌, Option, none, some, List, [], ◌∷◌, map, filter,
  contains, length, leb, if◌then◌else◌, ◌==◌, HashMap, lookup, insert,
}
use mathlib.Core.List
use sig_topo.Schema.{SignalDef, TransitionDef, TopologySchema}
use sig_topo.Ddl.Ast.{DdlDoc, GuardDecl, ReactionDecl}

pub data WarningKind : Type 0 where
  self_loop unreachable_state unused_guard_template duplicate_guard_condition : WarningKind

pub record CheckWarning : Type 0 where
  pub kind : WarningKind
  pub message : String
  pub line : Option ℕ
  pub col : Option ℕ

-- `Display::fmt`
unfoldable pub label : WarningKind → String
label self_loop = "self-loop"
label unreachable_state = "unreachable-state"
label unused_guard_template = "unused-guard-template"
label duplicate_guard_condition = "duplicate-guard-condition"

abbrev warning : WarningKind → String → CheckWarning
warning kind message = record { kind = kind; message = message; line = none; col = none }

abbrev pub is_self_loop : TransitionDef → Bool
is_self_loop t = t.from == t.to

abbrev self_loop_warning : TransitionDef → CheckWarning
self_loop_warning t = warning self_loop (t.signal_id ++ ": " ++ t.from ++ " -> " ++ t.to)

-- The targets of the signal's transitions that are no self-loops.
unfoldable pub targets_of : String → List TransitionDef → List String
targets_of id [] = []
targets_of id (t ∷ ts) =
    let rest = targets_of id ts in
    if t.signal_id == id && not (is_self_loop t) then t.to ∷ rest else rest

unfoldable pub reachable : List TransitionDef → SignalDef → List String
unfolding targets_of
reachable ts sig = sig.initial_state ∷ targets_of sig.id ts

unfoldable pub unreachable_states : List TransitionDef → SignalDef → List String
unfolding reachable
unreachable_states ts sig = filter (λ s. not (contains s (reachable ts sig))) sig.states

abbrev signal_warnings : List TransitionDef → SignalDef → List CheckWarning
signal_warnings ts sig =
    map (λ state. warning unreachable_state (sig.id ++ ": " ++ state)) (unreachable_states ts sig)

abbrev all_signal_warnings : List TransitionDef → List SignalDef → List CheckWarning
all_signal_warnings ts [] = []
all_signal_warnings ts (sig ∷ sigs) =
    List.◌++◌ (signal_warnings ts sig) (all_signal_warnings ts sigs)

unfoldable pub check_schema : {N : Type 0} → TopologySchema N → List CheckWarning
unfolding unreachable_states
check_schema schema =
    List.◌++◌ (map self_loop_warning (filter is_self_loop schema.transitions))
      (all_signal_warnings schema.transitions schema.signals)

-- The ids that reactions name by `when <id>`.
unfoldable pub referenced : List ReactionDecl → List String
referenced [] = []
referenced (r ∷ rs) =
    let rest = referenced rs in elim r.guard_ref [ none ↦ rest | some id ↦ id ∷ rest ]

abbrev unused_guards : List String → List GuardDecl → List CheckWarning
unused_guards used [] = []
unused_guards used (g ∷ gs) =
    let rest = unused_guards used gs in
    if contains g.id used
    then rest
    else warning unused_guard_template
        ("guard '" ++ g.id ++ "' is declared but never referenced by a reaction")
      ∷ rest

abbrev ids_of : Option (List String) → List String
ids_of none = []
ids_of (some ids) = ids

-- `by_expr.entry(expr).or_default().push(id)` for each guard
unfoldable pub group_by_expr : List GuardDecl → HashMap (List String) → HashMap (List String)
group_by_expr [] m = m
group_by_expr (g ∷ gs) m =
    group_by_expr gs (insert g.expr (List.◌++◌ (ids_of (lookup g.expr m)) (g.id ∷ [])) m)

-- `ids.join(", ")`
abbrev join_commas : List String → String
join_commas [] = ""
join_commas (id ∷ []) = id
join_commas (id ∷ other ∷ ids) = id ++ ", " ++ join_commas (other ∷ ids)

abbrev duplicate_warnings : HashMap (List String) → List CheckWarning
duplicate_warnings [] = []
duplicate_warnings ((expr, ids) ∷ rest) =
    let others = duplicate_warnings rest in
    if leb 2 (length ids)
    then warning duplicate_guard_condition
        ("guards [" ++ join_commas ids ++ "] share the same condition `" ++ expr ++ "`")
      ∷ others
    else others

unfoldable pub check_ddl : DdlDoc → List CheckWarning
unfolding referenced group_by_expr
check_ddl doc =
    List.◌++◌ (unused_guards (referenced doc.reactions) doc.guards)
      (duplicate_warnings (group_by_expr doc.guards []))
