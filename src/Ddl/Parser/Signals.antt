-- ===== src/Ddl/Parser/Signals.antt =====
-- ddl/parser.rs: `signal` blocks, with their transitions and lifecycle actions.
use Prim.Native.String.{◌++◌}
use mathlib.Core.List
use sig_topo.Base.{
  String, Bool, true, false, Option, none, some, List, [], ◌∷◌, contains, if◌then◌else◌,
}
use sig_topo.Json.{Platform}
use sig_topo.Ddl.Token.{TokenKind, Token}
use sig_topo.Ddl.Ast.{DdlActionBinding, TransDecl, SignalDecl}
use sig_topo.Ddl.Parse.{Next, again, finished, Parse, ◌>>=◌, ◌>>◌, return, repeat}
use sig_topo.Ddl.Parser.{
  peek, at, advance, fail_at, expect_any_ident, expect_name, expect_keyword, optional,
  parse_state_list, parse_guard,
}

-- `DdlActionBinding::default()`
abbrev pub default_actions : DdlActionBinding
default_actions = record { on_exit = []; on_transition = []; on_enter = [] }

-- The bindings, and which hooks have been seen.
pub record Hooks : Type 0 where
  pub actions : DdlActionBinding
  pub seen_exit : Bool
  pub seen_transition : Bool
  pub seen_enter : Bool

abbrev pub no_hooks : Hooks
no_hooks = record {
  actions = default_actions;
  seen_exit = false;
  seen_transition = false;
  seen_enter = false;
}

module _ (p : Platform) where
  abbrev pub duplicate_hook :
      Bool → Token p.Float → String → Hooks → Parse p.Float (Next Hooks DdlActionBinding)
  duplicate_hook seen tok hook h =
      if seen then fail_at p tok ("duplicate '" ++ hook ++ "' hook") else return (again h)

  -- `match hook_tok.kind`; the loop's test leaves the three hooks only.
  abbrev pub bind_hook :
      TokenKind p.Float
      → Token p.Float
      → List String
      → Hooks
      → Parse p.Float (Next Hooks DdlActionBinding)
  bind_hook TokenKind.on_exit tok ids h =
      duplicate_hook h.seen_exit tok "on_exit"
        (record h { actions = record h.actions { on_exit = ids }; seen_exit = true })
  bind_hook TokenKind.on_transition tok ids h =
      duplicate_hook h.seen_transition tok "on_transition"
        (record h { actions = record h.actions { on_transition = ids }; seen_transition = true })
  bind_hook _ tok ids h =
      duplicate_hook h.seen_enter tok "on_enter"
        (record h { actions = record h.actions { on_enter = ids }; seen_enter = true })

  abbrev pub is_hook : TokenKind p.Float → Bool
  is_hook TokenKind.on_exit = true
  is_hook TokenKind.on_transition = true
  is_hook TokenKind.on_enter = true
  is_hook _ = false

  -- A further action id after a comma.
  unfoldable pub action_step : List String → Parse p.Float (Next (List String) (List String))
  unfolding at advance expect_name
  action_step ids = do
    more ← at p TokenKind.comma
    if more
        then (do advance p; action ← expect_name p; return (again (List.◌++◌ ids (action ∷ []))))
        else return (finished ids)

  unfoldable pub hook_step : Hooks → Parse p.Float (Next Hooks DdlActionBinding)
  unfolding peek advance fail_at expect_keyword expect_name action_step repeat
  hook_step h = do
    next ← peek p
    if is_hook next.kind
        then (do
          hook_tok ← advance p
          expect_keyword p TokenKind.colon
          first ← expect_name p
          ids ← repeat action_step (first ∷ [])
          bind_hook hook_tok.kind hook_tok ids h)
        else return (finished h.actions)

  unfoldable pub parse_lifecycle_actions : Parse p.Float DdlActionBinding
  unfolding hook_step repeat
  parse_lifecycle_actions = repeat hook_step no_hooks

  abbrev not_listed : String → String → String → String
  not_listed end state signal_id =
      "'" ++ end ++ "' state '" ++ state ++ "' is not in the states list for '" ++ signal_id ++ "'"

  -- A state of the signal, by name.
  unfoldable pub expect_state : String → String → List String → Parse p.Float String
  unfolding expect_any_ident fail_at
  expect_state end signal_id states = do
    found ← expect_any_ident p
    if contains (found.0) states
        then return (found.0)
        else fail_at p (found.1) (not_listed end (found.0) signal_id)

  -- The source state, where `*` is a wildcard.
  unfoldable pub expect_from : String → List String → Parse p.Float String
  unfolding at advance expect_state
  expect_from signal_id states = do
    wildcard ← at p TokenKind.mul
    if wildcard then (do advance p; return "*") else expect_state "from" signal_id states

  -- An optional guard, opened by `when`.
  unfoldable pub guard_clause : String → Parse p.Float (Option String)
  unfolding parse_guard
  guard_clause src = do guard ← parse_guard p src; return (some guard)

  unfoldable pub action_block : Parse p.Float DdlActionBinding
  unfolding advance parse_lifecycle_actions expect_keyword
  action_block = do
    advance p
    actions ← parse_lifecycle_actions
    expect_keyword p TokenKind.rbrace
    return actions

  unfoldable pub parse_transition : String → String → List String → Parse p.Float TransDecl
  unfolding expect_keyword expect_name expect_from expect_state optional guard_clause action_block
  parse_transition src signal_id states = do
    expect_keyword p TokenKind.on
    event ← expect_name p
    expect_keyword p TokenKind.from
    from ← expect_from signal_id states
    expect_keyword p TokenKind.arrow
    to ← expect_state "to" signal_id states
    guard ← optional p TokenKind.when none (guard_clause src)
    actions ← optional p TokenKind.lbrace default_actions action_block
    return (record { event = event; from = from; to = to; guard = guard; actions = actions })

  unfoldable pub transition_step :
      String
      → String
      → List String
      → List TransDecl
      → Parse p.Float (Next (List TransDecl) (List TransDecl))
  unfolding at parse_transition
  transition_step src id states ts = do
    more ← at p TokenKind.on
    if more
        then (do t ← parse_transition src id states; return (again (List.◌++◌ ts (t ∷ []))))
        else return (finished ts)

  -- A fresh id, added to those seen.
  unfoldable pub expect_fresh : String → List String → Parse p.Float String
  unfolding expect_any_ident fail_at
  expect_fresh what seen = do
    found ← expect_any_ident p
    if contains (found.0) seen
        then fail_at p (found.1) ("duplicate " ++ what ++ " '" ++ found.0 ++ "'")
        else return (found.0)

  unfoldable pub expect_initial : List String → Parse p.Float String
  unfolding expect_any_ident fail_at
  expect_initial states = do
    found ← expect_any_ident p
    if contains (found.0) states
        then return (found.0)
        else fail_at p (found.1) ("initial state '" ++ found.0 ++ "' is not in the states list")

  -- The signal; its id joins `seen`.
  unfoldable pub parse_signal : String → List String → Parse p.Float SignalDecl
  unfolding expect_keyword expect_fresh parse_state_list expect_initial transition_step repeat
  parse_signal src seen = do
    expect_keyword p TokenKind.signal
    id ← expect_fresh "signal" seen
    expect_keyword p TokenKind.lbrace
    expect_keyword p TokenKind.states
    expect_keyword p TokenKind.colon
    states ← parse_state_list p
    expect_keyword p TokenKind.initial
    expect_keyword p TokenKind.colon
    initial ← expect_initial states
    transitions ← repeat (transition_step src id states) []
    expect_keyword p TokenKind.rbrace
    return (record { id = id; states = states; initial = initial; transitions = transitions })
