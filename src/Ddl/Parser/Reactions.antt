-- ===== src/Ddl/Parser/Reactions.antt =====
-- ddl/parser.rs: `reaction`, `fork`, `join` and `guard` blocks.
use Prim.Native.String.{◌++◌}
use mathlib.Core.List
use sig_topo.Base.{
  ℕ, String, Bool, true, false, ◌&&◌, not, Option, none, some, List, [], ◌∷◌, nat_eq, if◌then◌else◌,
}
use sig_topo.Base.Int.{pos}
use sig_topo.Json.{Platform}
use sig_topo.Ddl.Token.{TokenKind, Token, eq_kind}
use sig_topo.Ddl.Slice.{trim, strip_braces}
use sig_topo.Ddl.Ast.{GuardDecl}
use sig_topo.Ddl.Parse.{parsed, Next, again, finished, Parse, ◌>>=◌, ◌>>◌, return, repeat}
use sig_topo.Ddl.Parser.{
  at, advance, expect_name, expect_keyword, optional, guard_span, parse_raw_brace_block,
}
use sig_topo.Ddl.Parser.Signals.{expect_fresh}

pub data RawGuard : Type 0 where
  lit : String → RawGuard
  ref : String → RawGuard

pub record RawReaction : Type 0 where
  pub from_signal : String
  pub from_state : String
  pub to_signal : String
  pub event : String
  pub guard : Option RawGuard
  pub payload : Option String
  pub join_group : Option String
  pub requires : List String
  pub on_fail : Option String

module _ (p : Platform) where
  abbrev pub is_ident : TokenKind p.Float → Bool
  is_ident (TokenKind.identifier _) = true
  is_ident _ = false

  abbrev pub reaction_head : List (Token p.Float) → Bool
  reaction_head (t ∷ u ∷ v ∷ ts) =
      eq_kind p TokenKind.when t.kind && (is_ident u.kind && eq_kind p TokenKind.enters v.kind)
  reaction_head _ = false

  unfoldable pub at_reaction_head : Parse p.Float Bool
  unfolding eq_kind
  at_reaction_head ts = parsed (reaction_head ts) ts

  -- One identifier before the terminator is a reference.
  unfoldable pub parse_guard_spec : String → Parse p.Float RawGuard
  unfolding guard_span
  parse_guard_spec src = do
    span ← guard_span p src
    let single_ident = nat_eq (span.1) 1 && is_ident (span.0).kind
    return (if single_ident then ref (span.2) else lit (span.2))

  unfoldable pub reaction_guard : String → Parse p.Float (Option RawGuard)
  unfolding at at_reaction_head parse_guard_spec
  reaction_guard src = do
    here ← at p TokenKind.when
    head ← at_reaction_head
    if here && not head then (do guard ← parse_guard_spec src; return (some guard)) else return none

  abbrev pub with_block : String → Parse p.Float (Option String)
  with_block src = do advance p; raw ← parse_raw_brace_block p src; return (some raw)

  abbrev pub empty_block : Parse p.Float (Option String)
  empty_block = do advance p; expect_keyword p TokenKind.rbrace; return none

  unfoldable pub reaction_payload : String → Parse p.Float (Option String)
  unfolding at advance expect_keyword optional parse_raw_brace_block
  reaction_payload src = do
    carries ← at p TokenKind.with_
    if carries then with_block src else optional p TokenKind.lbrace none empty_block

  abbrev pub on_fail_clause : Parse p.Float (Option String)
  on_fail_clause = do
    advance p
    expect_keyword p TokenKind.colon
    id ← expect_name p
    return (some id)

  unfoldable pub parse_reaction_body : String → Parse p.Float RawReaction
  unfolding advance expect_keyword expect_name optional reaction_guard reaction_payload
  parse_reaction_body src = do
    expect_keyword p TokenKind.when
    from_signal ← expect_name p
    expect_keyword p TokenKind.enters
    from_state ← expect_name p
    expect_keyword p TokenKind.arrow
    to_signal ← expect_name p
    event ← expect_name p
    guard ← reaction_guard src
    payload ← reaction_payload src
    on_fail ← optional p TokenKind.on_fail none on_fail_clause
    return (record {
      from_signal = from_signal;
      from_state = from_state;
      to_signal = to_signal;
      event = event;
      guard = guard;
      payload = payload;
      join_group = none;
      requires = [];
      on_fail = on_fail;
    })

  unfoldable pub parse_reaction_raw : String → Parse p.Float RawReaction
  unfolding expect_keyword parse_reaction_body
  parse_reaction_raw src = do
    expect_keyword p TokenKind.reaction
    expect_keyword p TokenKind.lbrace
    reaction ← parse_reaction_body src
    expect_keyword p TokenKind.rbrace
    return reaction

  -- A reaction of a block, changed as the block says.
  unfoldable pub member_step :
      String
      → (RawReaction → RawReaction)
      → List RawReaction
      → Parse p.Float (Next (List RawReaction) (List RawReaction))
  unfolding at parse_reaction_body
  member_step src tagged rs = do
    more ← at p TokenKind.when
    if more
        then (do r ← parse_reaction_body src; return (again (List.◌++◌ rs (tagged r ∷ []))))
        else return (finished rs)

  -- `format!("fork{}", n)`
  abbrev pub fork_name : ℕ → String
  fork_name n = "fork" ++ p.show_i64 (pos n)

  -- The block of the `fork_counter`-th fork; the caller counts on.
  unfoldable pub parse_fork_block : String → ℕ → Parse p.Float (List RawReaction)
  unfolding expect_keyword member_step repeat
  parse_fork_block src fork_counter = do
    expect_keyword p TokenKind.fork
    expect_keyword p TokenKind.lbrace
    reactions ←
        repeat (member_step src (λ r. record r { join_group = some (fork_name fork_counter) })) []
    expect_keyword p TokenKind.rbrace
    return reactions

  -- The group that the block waits for, which joins `group_refs`, and its reactions.
  unfoldable pub parse_join_block : String → Parse p.Float (String × List RawReaction)
  unfolding expect_keyword expect_name member_step repeat
  parse_join_block src = do
    expect_keyword p TokenKind.join
    group ← expect_name p
    expect_keyword p TokenKind.lbrace
    reactions ← repeat (member_step src (λ r. record r { requires = group ∷ [] })) []
    expect_keyword p TokenKind.rbrace
    return (group, reactions)

  unfoldable pub parse_guard_decl : String → List String → Parse p.Float GuardDecl
  unfolding expect_keyword expect_fresh parse_raw_brace_block strip_braces trim
  parse_guard_decl src seen = do
    expect_keyword p TokenKind.guard
    id ← expect_fresh p "guard" seen
    raw ← parse_raw_brace_block p src
    return (record { id = id; expr = trim p (strip_braces raw) })
