-- ===== src/Ddl/Ends/Signals.antt =====
-- The parsers of `signal` blocks end.
use sig_topo.Base.{String, ◌≡◌, refl, false, List}
use sig_topo.Json.{Platform}
use sig_topo.Ddl.Token.{TokenKind, Token, is_eof}
use sig_topo.Ddl.Ast.{TransDecl}
use sig_topo.Ddl.Parser.Signals.{
  Hooks, bind_hook, action_step, hook_step, parse_lifecycle_actions, expect_state, expect_from,
  guard_clause, action_block, parse_transition, transition_step, expect_fresh, expect_initial,
  parse_signal,
}
use sig_topo.Ddl.Total.{Total, Taking, Steps, Total-of_Taking}
use sig_topo.Ddl.Ends.{
  total, taking, steps, block, Total-expect_keyword, Total-parse_state_list, Taking-expect_name,
  Taking-expect_keyword, Total-optional, Taking-parse_guard,
}

module _ (p : Platform) (src : String) where
  Steps-action_step : (ids : List String) → Steps p src (action_step p ids)
  unfolding action_step
  Steps-action_step ids = search (steps, taking, total, Taking-expect_name) depth 30 fits 2000

  Total-bind_hook :
      (kind : TokenKind p.Float) (tok : Token p.Float) (ids : List String) (h : Hooks)
      → Total p src (bind_hook p kind tok ids h)
  Total-bind_hook TokenKind.on_exit tok ids h = search (taking, total) depth 20 fits 2000
  Total-bind_hook TokenKind.on_transition tok ids h = search (taking, total) depth 20 fits 2000
  Total-bind_hook TokenKind.signal tok ids h = search (taking, total) depth 20 fits 2000
  Total-bind_hook _ tok ids h = search (taking, total) depth 20 fits 2000

  Steps-hook_step : (h : Hooks) → Steps p src (hook_step p h)
  unfolding hook_step
  Steps-hook_step h =
      let colon : is_eof {F = p.Float} TokenKind.colon ≡ false = refl in
      search
        (
          steps, taking, total, Taking-expect_name, Taking-expect_keyword, Steps-action_step,
          Total-bind_hook,
        )
        depth 30 fits 4000

  Total-parse_lifecycle_actions : Total p src (parse_lifecycle_actions p)
  unfolding parse_lifecycle_actions
  Total-parse_lifecycle_actions = search (total, Steps-hook_step) depth 10 fits 2000

  Taking-expect_state :
      (end signal_id : String) (states : List String)
      → Taking p src (expect_state p end signal_id states)
  unfolding expect_state
  Taking-expect_state end signal_id states = search (taking, total) depth 20 fits 2000

  Total-expect_from :
      (signal_id : String) (states : List String) → Total p src (expect_from p signal_id states)
  unfolding expect_from
  Total-expect_from signal_id states = search (total, Taking-expect_state) depth 20 fits 2000

  pub Total-guard_clause : Total p src (guard_clause p src)
  unfolding guard_clause
  Total-guard_clause = search (total, Taking-parse_guard) depth 20 fits 2000

  Total-action_block : Total p src (action_block p)
  unfolding action_block
  Total-action_block =
      let rbrace : is_eof {F = p.Float} TokenKind.rbrace ≡ false = refl in
      search (total, Taking-expect_keyword, Total-parse_lifecycle_actions) depth 20 fits 2000

  Taking-parse_transition :
      (signal_id : String) (states : List String)
      → Taking p src (parse_transition p src signal_id states)
  unfolding parse_transition
  Taking-parse_transition signal_id states =
      let keyword : false ≡ false = refl in
      search
        (
          taking, total, Taking-expect_name, Taking-expect_keyword, Total-expect_from,
          Taking-expect_state, Total-optional, Total-guard_clause, Total-action_block,
        )
        depth 40 fits 4000

  Steps-transition_step :
      (id : String) (states : List String) (ts : List TransDecl)
      → Steps p src (transition_step p src id states ts)
  unfolding transition_step
  Steps-transition_step id states ts =
      search (steps, taking, total, Taking-parse_transition) depth 20 fits 2000

  pub Taking-expect_fresh :
      (what : String) (seen : List String) → Taking p src (expect_fresh p what seen)
  unfolding expect_fresh
  Taking-expect_fresh what seen = search (taking, total) depth 20 fits 2000

  Taking-expect_initial : (states : List String) → Taking p src (expect_initial p states)
  unfolding expect_initial
  Taking-expect_initial states = search (taking, total) depth 20 fits 2000

  Total-expect_initial : (states : List String) → Total p src (expect_initial p states)
  Total-expect_initial states = Total-of_Taking p src _ (Taking-expect_initial states)

  pub Total-expect_fresh :
      (what : String) (seen : List String) → Total p src (expect_fresh p what seen)
  Total-expect_fresh what seen = Total-of_Taking p src _ (Taking-expect_fresh what seen)

  pub Taking-parse_signal : (seen : List String) → Taking p src (parse_signal p src seen)
  unfolding parse_signal
  Taking-parse_signal seen =
      let keyword : false ≡ false = refl in
      search
        (
          block, Taking-expect_keyword, Total-expect_keyword, Total-expect_fresh,
          Total-parse_state_list, Total-expect_initial, Steps-transition_step,
        )
        depth 40 fits 4000
