-- ===== src/Ddl/Parser/Components.antt =====
-- ddl/parser.rs: `component` blocks with their ports, and `instantiate` statements.
use Prim.Native.String.{◌++◌}
use mathlib.Core.List
use sig_topo.Base.{String, Option, none, some, List, [], ◌∷◌, HashMap, insert, if◌then◌else◌, ◌==◌}
use sig_topo.Json.{Platform}
use sig_topo.Schema.{PortDirection, in_port, out_port, in_out_port, PortDef, ConnectionDef}
use sig_topo.Ddl.Token.{TokenKind, Token, debug_kind}
use sig_topo.Ddl.Ast.{SignalDecl, InstantiateDecl}
use sig_topo.Ddl.Parse.{Next, again, finished, Parse, ◌>>=◌, ◌>>◌, return, repeat}
use sig_topo.Ddl.Parser.{
  peek, advance, fail_at, expect_any_ident, expect_name, expect_keyword, optional, bracketed,
  parse_state_list,
}
use sig_topo.Ddl.Parser.Signals.{expect_fresh, parse_signal}
use sig_topo.Ddl.Parser.Reactions.{RawReaction, parse_reaction_raw}

-- `ComponentDeclRaw`: the reactions still name their guards.
pub record ComponentDeclRaw : Type 0 where
  pub id : String
  pub params : List String
  pub ports : List PortDef
  pub signals : List SignalDecl
  pub raw_reactions : List RawReaction

-- What the loop of `parse_component` has collected.
pub record Body : Type 0 where
  pub ports : List PortDef
  pub signals : List SignalDecl
  pub raw_reactions : List RawReaction
  pub seen_signals : List String

abbrev pub empty_body : Body
empty_body = record { ports = []; signals = []; raw_reactions = []; seen_signals = [] }

module _ (p : Platform) where
  unfoldable pub port_direction : String → Token p.Float → Parse p.Float PortDirection
  unfolding fail_at
  port_direction dir tok =
      if dir == "in"
      then return in_port
      else if dir == "out"
      then return out_port
      else if dir == "inout"
      then return in_out_port
      else fail_at p tok ("expected port direction 'in', 'out' or 'inout', found '" ++ dir ++ "'")

  abbrev pub alias_clause : Parse p.Float (Option String)
  alias_clause = do advance p; alias ← expect_name p; return (some alias)

  unfoldable pub parse_port : Parse p.Float PortDef
  unfolding advance expect_any_ident expect_name expect_keyword optional port_direction
  parse_port = do
    expect_keyword p TokenKind.port
    dir ← expect_any_ident p
    direction ← port_direction (dir.0) (dir.1)
    signal ← expect_name p
    expect_keyword p TokenKind.dot
    state ← expect_name p
    alias ← optional p TokenKind.as_ none alias_clause
    return (record { direction = direction; signal = signal; state = state; alias = alias })

  abbrev pub params_clause : Parse p.Float (List String)
  params_clause = do advance p; expect_keyword p TokenKind.colon; parse_state_list p

  -- One round of the loop of `parse_component`, on the kind of the next token.
  unfoldable pub body_item :
      String → String → TokenKind p.Float → Token p.Float → Body → Parse p.Float (Next Body Body)
  unfolding advance parse_port parse_signal parse_reaction_raw debug_kind
  body_item src id TokenKind.port t b = do
    port ← parse_port
    return (again (record b { ports = List.◌++◌ b.ports (port ∷ []) }))
  body_item src id TokenKind.signal t b = do
    sig ← parse_signal p src b.seen_signals
    return (
        again (record b {
          signals = List.◌++◌ b.signals (sig ∷ []);
          seen_signals = sig.id ∷ b.seen_signals;
        }))
  body_item src id TokenKind.reaction t b = do
    r ← parse_reaction_raw p src
    return (again (record b { raw_reactions = List.◌++◌ b.raw_reactions (r ∷ []) }))
  body_item src id TokenKind.rbrace t b = do advance p; return (finished b)
  body_item src id TokenKind.fork t b =
      fail_at p t "fork/join blocks are top-level only and cannot appear inside a component"
  body_item src id TokenKind.join t b =
      fail_at p t "fork/join blocks are top-level only and cannot appear inside a component"
  body_item src id TokenKind.eof t b = fail_at p t ("unterminated component '" ++ id ++ "'")
  body_item src id kind t b =
      fail_at p t
        ("expected 'port', 'signal', 'reaction' or '}' in component, found " ++ debug_kind p kind)

  unfoldable pub body_step : String → String → Body → Parse p.Float (Next Body Body)
  unfolding peek body_item
  body_step src id b = do t ← peek p; body_item src id t.kind t b

  unfoldable pub parse_component : String → List String → Parse p.Float ComponentDeclRaw
  unfolding advance expect_keyword expect_fresh optional parse_state_list body_step repeat
  parse_component src seen = do
    expect_keyword p TokenKind.component
    id ← expect_fresh p "component" seen
    expect_keyword p TokenKind.lbrace
    params ← optional p TokenKind.params [] params_clause
    body ← repeat (body_step src id) empty_body
    return (record {
      id = id;
      params = params;
      ports = body.ports;
      signals = body.signals;
      raw_reactions = body.raw_reactions;
    })

  -- `a -> b`
  unfoldable pub parse_pair : Parse p.Float (String × String)
  unfolding expect_name expect_keyword
  parse_pair = do
    key ← expect_name p
    expect_keyword p TokenKind.arrow
    value ← expect_name p
    return (key, value)

  abbrev pub insert_pairs : List (String × String) → HashMap String → HashMap String
  insert_pairs [] m = m
  insert_pairs ((key, value) ∷ pairs) m = insert_pairs pairs (insert key value m)

  -- The pairs enter the map as they are read, so a later one replaces an earlier one of its key.
  unfoldable pub parse_binding_map : Parse p.Float (HashMap String)
  unfolding bracketed parse_pair insert
  parse_binding_map = do
    pairs ← bracketed p TokenKind.lbrace TokenKind.rbrace parse_pair
    return (insert_pairs pairs [])

  abbrev pub connection : Parse p.Float ConnectionDef
  connection = do pair ← parse_pair; return (record { port = pair.0; target_signal = pair.1 })

  unfoldable pub parse_connection_map : Parse p.Float (List ConnectionDef)
  unfolding bracketed parse_pair
  parse_connection_map = bracketed p TokenKind.lbrace TokenKind.rbrace connection

  abbrev pub connect_clause : Parse p.Float (List ConnectionDef)
  connect_clause = do advance p; parse_connection_map

  unfoldable pub parse_instantiate : Parse p.Float InstantiateDecl
  unfolding advance expect_name expect_keyword optional parse_binding_map parse_connection_map
  parse_instantiate = do
    expect_keyword p TokenKind.instantiate
    component ← expect_name p
    expect_keyword p TokenKind.as_
    expect_name p
    expect_keyword p TokenKind.with_
    bindings ← parse_binding_map
    connections ← optional p TokenKind.connect [] connect_clause
    return (record { component = component; bindings = bindings; connections = connections })
