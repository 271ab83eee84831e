-- ===== src/Ddl/Parser.antt =====
-- ddl/parser.rs: what the methods of `Parser` share. The slice from `pos` on is the list of tokens
-- left, and `advance` stays at the last.
pub mod Signals
pub mod Reactions
pub mod Components
pub mod Doc
use Prim.Native.String.{◌++◌}
use mathlib.Core.List
use sig_topo.Base.{
  ℕ, zero, suc, ◌+◌, ◌-◌, String, Bool, true, false, ◌&&◌, ◌||◌, Option, none, some, List, [], ◌∷◌,
  nat_eq, if◌then◌else◌,
}
use sig_topo.Json.{Platform}
use sig_topo.Ddl.Token.{TokenKind, Token, eq_kind, debug_kind, tag, is_eof}
use sig_topo.Ddl.Lexer.{located}
use sig_topo.Ddl.Slice.{slice, trim}
use sig_topo.Ddl.Parse.{
  Outcome, parsed, failed, panicked, endless, Next, again, finished, Parse, ◌>>=◌, ◌>>◌, return,
  repeat,
}

abbrev pub token_end : {F : Type 0} → Token F → ℕ
token_end t = t.start + t.len

module _ (p : Platform) where
  -- On an empty slice the index is out of range.
  unfoldable pub peek : Parse p.Float (Token p.Float)
  peek [] = panicked
  peek (t ∷ ts) = parsed t (t ∷ ts)

  unfoldable pub advance : Parse p.Float (Token p.Float)
  advance [] = panicked
  advance (t ∷ []) = parsed t (t ∷ [])
  advance (t ∷ u ∷ ts) = parsed t (u ∷ ts)

  unfoldable pub fail_at : {A : Type 0} → Token p.Float → String → Parse p.Float A
  unfolding located
  fail_at t m ts = failed (located p t.line t.col m)

  -- `matches!(self.peek().kind, ...)`
  unfoldable pub at : TokenKind p.Float → Parse p.Float Bool
  unfolding peek eq_kind
  at kind = do t ← peek; return (eq_kind p kind t.kind)

  unfoldable pub expect : TokenKind p.Float → Parse p.Float (Token p.Float)
  unfolding peek advance fail_at eq_kind debug_kind
  expect kind [] = panicked
  expect kind (t ∷ ts) =
      if eq_kind p kind t.kind
      then advance (t ∷ ts)
      else fail_at t ("expected " ++ debug_kind p kind ++ ", found " ++ debug_kind p t.kind)
          (t ∷ ts)

  -- The kind of the first token is passed apart.
  unfoldable pub ident_of :
      TokenKind p.Float → Token p.Float → Parse p.Float (String × Token p.Float)
  unfolding advance fail_at debug_kind
  ident_of (TokenKind.identifier s) t = do t' ← advance; return (s, t')
  ident_of kind t = fail_at t ("expected identifier, found " ++ debug_kind p kind)

  unfoldable pub expect_any_ident : Parse p.Float (String × Token p.Float)
  unfolding ident_of
  expect_any_ident [] = panicked
  expect_any_ident (t ∷ ts) = ident_of t.kind t (t ∷ ts)

  unfoldable pub expect_name : Parse p.Float String
  unfolding expect_any_ident
  expect_name = do found ← expect_any_ident; return (found.0)

  unfoldable pub expect_keyword : TokenKind p.Float → Parse p.Float (Unit {0})
  unfolding expect
  expect_keyword kind = do expect kind; return tt

  -- `{ expect `kind`'s clause } if it is there`: an optional clause that `kind` opens.
  unfoldable pub optional : {A : Type 0} → TokenKind p.Float → A → Parse p.Float A → Parse p.Float A
  unfolding at
  optional kind default clause = do here ← at kind; if here then clause else return default

  -- After a comma: the closing token, where the comma is a trailing one, or another item.
  unfoldable pub after_comma :
      {A : Type 0}
      → TokenKind p.Float
      → Parse p.Float A
      → List A
      → Parse p.Float (Next (List A) (List A))
  unfolding at advance
  after_comma close item xs = do
    advance
    trailing ← at close
    if trailing then return (finished xs) else (do x ← item; return (again (List.◌++◌ xs (x ∷ []))))

  unfoldable pub item_step :
      {A : Type 0}
      → TokenKind p.Float
      → Parse p.Float A
      → List A
      → Parse p.Float (Next (List A) (List A))
  unfolding at after_comma
  item_step close item xs = do
    more ← at TokenKind.comma
    if more then after_comma close item xs else return (finished xs)

  -- The list between brackets that `parse_state_list`, `parse_binding_map` and
  -- `parse_connection_map` read: items with commas between.
  unfoldable pub bracketed :
      {A : Type 0}
      → TokenKind p.Float
      → TokenKind p.Float
      → Parse p.Float A
      → Parse p.Float (List A)
  unfolding expect_keyword at item_step repeat
  bracketed first close item = do
    expect_keyword first
    empty ← at close
    xs ← if empty then return [] else (do x ← item; repeat (item_step close item) (x ∷ []))
    expect_keyword close
    return xs

  unfoldable pub parse_state_list : Parse p.Float (List String)
  unfolding bracketed expect_name
  parse_state_list = bracketed TokenKind.lbracket TokenKind.rbracket expect_name

  -- The tokens that end a guard.
  abbrev pub is_terminator : TokenKind p.Float → Bool
  is_terminator TokenKind.lbrace = true
  is_terminator TokenKind.rbrace = true
  is_terminator TokenKind.eof = true
  is_terminator TokenKind.with_ = true
  is_terminator TokenKind.on_fail = true
  is_terminator _ = false

  -- The loop up to the terminator: how far it went, and the token before that.
  unfoldable pub guard_end : ℕ → Token p.Float → Parse p.Float (ℕ × Token p.Float)
  guard_end n last [] = panicked
  guard_end n last (t ∷ []) = if is_terminator t.kind then parsed (n, last) (t ∷ []) else endless
  guard_end n last (t ∷ u ∷ ts) =
      let more = guard_end (suc n) t (u ∷ ts) in
      if is_terminator t.kind then parsed (n, last) (t ∷ u ∷ ts) else more

  abbrev pub sliced : Option String → Parse p.Float String
  sliced none ts = panicked
  sliced (some s) ts = parsed s ts

  unfoldable pub source_slice : String → ℕ → ℕ → Parse p.Float String
  unfolding slice
  source_slice src start end = sliced (slice src start end)

  -- From the first token of a guard to the terminator: that token, the number of tokens, and the
  -- text.
  unfoldable pub guard_text : String → Parse p.Float (Token p.Float × ℕ × String)
  unfolding peek fail_at guard_end source_slice trim
  guard_text src = do
    first ← peek
    if is_terminator first.kind then fail_at first "'when' requires a guard expression" else (do
      reached ← guard_end 0 first
      text ← source_slice src first.start (token_end (reached.1))
      return (first, reached.0, trim p text))

  unfoldable pub guard_span : String → Parse p.Float (Token p.Float × ℕ × String)
  unfolding expect_keyword guard_text
  guard_span src = do expect_keyword TokenKind.when; guard_text src

  unfoldable pub parse_guard : String → Parse p.Float String
  unfolding guard_span
  parse_guard src = do span ← guard_span src; return (span.2)

  abbrev pub opens_brace : TokenKind p.Float → Bool
  opens_brace TokenKind.lbrace = true
  opens_brace _ = false

  abbrev pub closes_brace : TokenKind p.Float → Bool
  closes_brace TokenKind.rbrace = true
  closes_brace _ = false

  abbrev pub depth_after : TokenKind p.Float → ℕ → ℕ
  depth_after kind depth =
      if opens_brace kind then depth + 1 else if closes_brace kind then depth - 1 else depth

  abbrev pub unterminated : {A : Type 0} → Token p.Float → Parse p.Float A
  unterminated t = fail_at t "unterminated 'with' payload block"

  -- The loop of `parse_raw_brace_block`: the end of the brace that closes the block.
  unfoldable pub block_end : ℕ → Parse p.Float ℕ
  unfolding fail_at
  block_end depth [] = panicked
  block_end depth (t ∷ []) =
      if closes_brace t.kind
      then parsed (token_end t) (t ∷ [])
      else if is_eof t.kind
      then unterminated t (t ∷ [])
      else endless
  block_end depth (t ∷ u ∷ ts) =
      let more = block_end (depth_after t.kind depth) (u ∷ ts) in
      if closes_brace t.kind && nat_eq (depth_after t.kind depth) 0
      then parsed (token_end t) (u ∷ ts)
      else if is_eof t.kind
      then unterminated t (t ∷ u ∷ ts)
      else more

  unfoldable pub parse_raw_brace_block : String → Parse p.Float String
  unfolding expect block_end source_slice
  parse_raw_brace_block src = do
    open_brace ← expect TokenKind.lbrace
    end ← block_end 1
    source_slice src open_brace.start end
