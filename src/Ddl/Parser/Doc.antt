-- ===== src/Ddl/Parser/Doc.antt =====
-- ddl/parser.rs: `parse_doc`, `parse`, and the text from which `compile` of ddl/mod.rs starts.
use Prim.Native.String.{◌++◌}
use mathlib.Core.List
use sig_topo.Base.{
  ℕ, ◌+◌, String, Option, none, some, List, [], ◌∷◌, contains, HashMap, lookup, insert,
  if◌then◌else◌, Result, ok, err, and_then, ok_or,
}
use sig_topo.Json.{Platform}
use sig_topo.Engine.Query.{sort_dedup}
use sig_topo.Ddl.Token.{TokenKind, Token, debug_kind}
use sig_topo.Ddl.Lexer.{tokenize}
use sig_topo.Ddl.Ast.{SignalDecl, ReactionDecl, ComponentDecl, InstantiateDecl, GuardDecl, DdlDoc}
use sig_topo.Ddl.Parse.{
  Outcome, parsed, failed, panicked, endless, Next, again, finished, Parse, ◌>>=◌, return, repeat,
}
use sig_topo.Ddl.Parser.{peek, fail_at}
use sig_topo.Ddl.Parser.Signals.{parse_signal}
use sig_topo.Ddl.Parser.Reactions.{
  RawGuard, lit, ref, RawReaction, parse_reaction_raw, fork_name, parse_fork_block,
  parse_join_block, parse_guard_decl,
}
use sig_topo.Ddl.Parser.Components.{ComponentDeclRaw, parse_component, parse_instantiate}

-- The local variables of `parse_doc`.
pub record Sweep : Type 0 where
  pub signals : List SignalDecl
  pub raw_reactions : List RawReaction
  pub guards : List GuardDecl
  pub raw_components : List ComponentDeclRaw
  pub instantiates : List InstantiateDecl
  pub seen_signals : List String
  pub seen_guard_ids : List String
  pub seen_component_ids : List String
  pub fork_counter : ℕ
  pub fork_groups : List String
  pub join_group_refs : List String

abbrev pub no_sweep : Sweep
no_sweep = record {
  signals = [];
  raw_reactions = [];
  guards = [];
  raw_components = [];
  instantiates = [];
  seen_signals = [];
  seen_guard_ids = [];
  seen_component_ids = [];
  fork_counter = 0;
  fork_groups = [];
  join_group_refs = [];
}

-- `known_groups.join(", ")`
abbrev join_comma : List String → String
join_comma [] = ""
join_comma (s ∷ []) = s
join_comma (s ∷ t ∷ rest) = s ++ ", " ++ join_comma (t ∷ rest)

abbrev undefined_group : String → List String → String
undefined_group group groups =
    "join references undefined fork group '"
    ++ group
    ++ "' (available groups: "
    ++ join_comma (sort_dedup groups)
    ++ ")"

-- Every join names a fork group.
unfoldable pub check_joins : List String → List String → Result String (Unit {0})
unfolding sort_dedup
check_joins groups [] = ok tt
check_joins groups (group ∷ refs) =
    if contains group groups then check_joins groups refs else err (undefined_group group groups)

unfoldable pub guard_map : List GuardDecl → HashMap String → HashMap String
unfolding insert
guard_map [] m = m
guard_map (g ∷ gs) m = guard_map gs (insert g.id g.expr m)

abbrev undefined_guard : String → RawReaction → String
undefined_guard id r =
    "undefined guard '" ++ id ++ "' referenced in reaction (" ++ r.from_signal ++ " enters "
    ++ r.from_state ++ ")"

-- The text of a guard, and the template that it names.
abbrev pub resolve_guard :
    Option RawGuard → RawReaction → HashMap String → Result String (Option String × Option String)
resolve_guard none r m = ok (none, none)
resolve_guard (some (lit s)) r m = ok (some s, none)
resolve_guard (some (ref id)) r m =
    and_then (ok_or (lookup id m) (undefined_guard id r)) λ expr. ok (some expr, some id)

unfoldable pub resolve_reaction : HashMap String → RawReaction → Result String ReactionDecl
unfolding lookup
resolve_reaction m r = and_then (resolve_guard r.guard r m) λ g. ok (record {
  from_signal = r.from_signal;
  from_state = r.from_state;
  to_signal = r.to_signal;
  event = r.event;
  guard = g.0;
  guard_ref = g.1;
  payload = r.payload;
  join_group = r.join_group;
  requires = r.requires;
  on_fail = r.on_fail;
})

-- `map(..).collect::<Result<Vec<_>, _>>()`
unfoldable pub collect : {A B : Type 0} → (A → Result String B) → List A → Result String (List B)
collect f [] = ok []
collect f (x ∷ xs) = and_then (f x) λ y. and_then (collect f xs) λ ys. ok (y ∷ ys)

unfoldable pub resolve_component : HashMap String → ComponentDeclRaw → Result String ComponentDecl
unfolding collect resolve_reaction
resolve_component m raw = and_then (collect (resolve_reaction m) raw.raw_reactions) λ reactions.
    ok (record {
      id = raw.id;
      params = raw.params;
      ports = raw.ports;
      signals = raw.signals;
      reactions = reactions;
    })

-- What follows the loop of `parse_doc`.
unfoldable pub resolve : Sweep → Result String DdlDoc
unfolding check_joins guard_map collect resolve_reaction resolve_component
resolve w = and_then (check_joins w.fork_groups w.join_group_refs) λ _.
    let m = guard_map w.guards [] in
    and_then (collect (resolve_reaction m) w.raw_reactions) λ reactions.
      and_then (collect (resolve_component m) w.raw_components) λ components. ok (record {
        signals = w.signals;
        reactions = reactions;
        guards = w.guards;
        components = components;
        instantiates = w.instantiates;
      })

module _ (p : Platform) where
  -- One round of the loop of `parse_doc`, on the kind of the next token.
  unfoldable pub doc_item :
      String → TokenKind p.Float → Token p.Float → Sweep → Parse p.Float (Next Sweep Sweep)
  unfolding parse_signal parse_reaction_raw parse_guard_decl parse_fork_block parse_join_block
      parse_component parse_instantiate debug_kind
  doc_item src TokenKind.signal t w = do
    sig ← parse_signal p src w.seen_signals
    return (
        again (record w {
          signals = List.◌++◌ w.signals (sig ∷ []);
          seen_signals = sig.id ∷ w.seen_signals;
        }))
  doc_item src TokenKind.reaction t w = do
    r ← parse_reaction_raw p src
    return (again (record w { raw_reactions = List.◌++◌ w.raw_reactions (r ∷ []) }))
  doc_item src TokenKind.guard t w = do
    g ← parse_guard_decl p src w.seen_guard_ids
    return (
        again (record w {
          guards = List.◌++◌ w.guards (g ∷ []);
          seen_guard_ids = g.id ∷ w.seen_guard_ids;
        }))
  doc_item src TokenKind.fork t w = do
    block ← parse_fork_block p src w.fork_counter
    return (
        again (record w {
          raw_reactions = List.◌++◌ w.raw_reactions block;
          fork_counter = w.fork_counter + 1;
          fork_groups = fork_name p w.fork_counter ∷ w.fork_groups;
        }))
  doc_item src TokenKind.join t w = do
    block ← parse_join_block p src
    return (
        again (record w {
          raw_reactions = List.◌++◌ w.raw_reactions (block.1);
          join_group_refs = List.◌++◌ w.join_group_refs (block.0 ∷ []);
        }))
  doc_item src TokenKind.component t w = do
    c ← parse_component p src w.seen_component_ids
    return (
        again (record w {
          raw_components = List.◌++◌ w.raw_components (c ∷ []);
          seen_component_ids = c.id ∷ w.seen_component_ids;
        }))
  doc_item src TokenKind.instantiate t w = do
    i ← parse_instantiate p
    return (again (record w { instantiates = List.◌++◌ w.instantiates (i ∷ []) }))
  doc_item src TokenKind.eof t w = return (finished w)
  doc_item src kind t w = fail_at p t (
      "expected 'signal', 'reaction', 'guard', 'fork', 'join', 'component' or 'instantiate', found "
      ++ debug_kind p kind)

  unfoldable pub doc_step : String → Sweep → Parse p.Float (Next Sweep Sweep)
  unfolding peek doc_item
  doc_step src w = do t ← peek p; doc_item src t.kind t w

  unfoldable pub sweep : String → Parse p.Float Sweep
  unfolding doc_step repeat
  sweep src = repeat (doc_step src) no_sweep

  abbrev pub done : Outcome p.Float Sweep → Option (Result String DdlDoc)
  done (parsed w rest) = some (resolve w)
  done (failed m) = some (err m)
  done panicked = none
  done endless = none

  -- `none` is a panic, or a loop that does not end.
  unfoldable pub parse : List (Token p.Float) → String → Option (Result String DdlDoc)
  unfolding sweep resolve
  parse tokens src = done (sweep src tokens)

  abbrev pub parse_tokens :
      String → Result String (List (Token p.Float)) → Option (Result String DdlDoc)
  parse_tokens src (err m) = some (err m)
  parse_tokens src (ok tokens) = parse tokens src

  -- `parse(&tokenize(src)?, src)`
  unfoldable pub parse_source : String → Option (Result String DdlDoc)
  unfolding tokenize parse
  parse_source src = parse_tokens src (tokenize p src)
