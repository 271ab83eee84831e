-- ===== src/Ddl/Ends/Documents.antt =====
-- The parsers of components and instances end, and so does `parse` on what `tokenize` yields.
use sig_topo.Base.{
  ℕ, String, ◌≡◌, refl, false, some, List, length, err, Result, Result-cases, inl, inr, arith,
}
use sig_topo.Json.{Platform}
use sig_topo.Ddl.Token.{TokenKind, Token}
use sig_topo.Ddl.Lexer.{tokenize}
use sig_topo.Ddl.Laid.{Laid, tokenize-Laid}
use sig_topo.Ddl.Ast.{DdlDoc}
use sig_topo.Ddl.Parse.{Outcome, parsed, failed, panicked, endless}
use sig_topo.Ddl.Parser.Components.{
  Body, alias_clause, connect_clause, port_direction, parse_port, body_item, body_step,
  parse_component, parse_pair, parse_binding_map, parse_connection_map, parse_instantiate,
}
use sig_topo.Ddl.Parser.Doc.{
  Sweep, doc_item, doc_step, sweep, done, resolve, parse, parse_tokens, parse_source,
}
use sig_topo.Ddl.Total.{Fine, Total, Taking, Steps, Total-of_Taking}
use sig_topo.Ddl.Ends.{
  total, taking, steps, block, Total-expect_any_ident, Total-expect_name, Total-expect_keyword,
  Taking-expect_name, Taking-expect_keyword, Total-optional, Taking-bracketed,
  Taking-parse_state_list,
}
use sig_topo.Ddl.Ends.Signals.{Taking-expect_fresh, Taking-parse_signal}
use sig_topo.Ddl.Ends.Reactions.{
  Taking-parse_reaction_raw, Taking-parse_fork_block, Taking-parse_join_block,
  Taking-parse_guard_decl,
}

module _ (p : Platform) (src : String) where
  Total-port_direction :
      (dir : String) (tok : Token p.Float) → Total p src (port_direction p dir tok)
  unfolding port_direction
  Total-port_direction dir tok = search (taking, total) depth 20 fits 2000

  Total-alias_clause : Total p src (alias_clause p)
  Total-alias_clause = search (total, Taking-expect_name) depth 20 fits 2000

  Taking-parse_port : Taking p src (parse_port p)
  unfolding parse_port
  Taking-parse_port =
      let keyword : false ≡ false = refl in
      search
        (
          block, Taking-expect_keyword, Total-expect_any_ident, Total-expect_name,
          Total-expect_keyword, Total-optional, Total-port_direction, Total-alias_clause,
        )
        depth 30 fits 3000

  Steps-body_item :
      (id : String) (kind : TokenKind p.Float) (t : Token p.Float) (b : Body)
      → Steps p src (body_item p src id kind t b)
  unfolding body_item
  Steps-body_item id TokenKind.port t b =
      search (steps, taking, total, Taking-parse_port) depth 20 fits 2000
  Steps-body_item id TokenKind.signal t b =
      search (steps, taking, total, Taking-parse_signal) depth 20 fits 2000
  Steps-body_item id TokenKind.reaction t b =
      search (steps, taking, total, Taking-parse_reaction_raw) depth 20 fits 2000
  Steps-body_item id TokenKind.rbrace t b = search (steps, total) depth 20 fits 2000
  Steps-body_item id _ t b = search (steps, taking, total) depth 20 fits 2000

  Steps-body_step : (id : String) (b : Body) → Steps p src (body_step p src id b)
  unfolding body_step
  Steps-body_step id b = search (steps, total, Steps-body_item) depth 10 fits 2000

  Taking-parse_component : (seen : List String) → Taking p src (parse_component p src seen)
  unfolding parse_component
  Taking-parse_component seen =
      let keyword : false ≡ false = refl in
      search
        (
          taking, total, Taking-expect_keyword, Taking-expect_fresh, Total-optional,
          Taking-parse_state_list, Steps-body_step,
        )
        depth 30 fits 3000

  Taking-parse_pair : Taking p src (parse_pair p)
  unfolding parse_pair
  Taking-parse_pair =
      let keyword : false ≡ false = refl in
      search (taking, total, Taking-expect_name, Taking-expect_keyword) depth 20 fits 2000

  Taking-parse_binding_map : Taking p src (parse_binding_map p)
  unfolding parse_binding_map
  Taking-parse_binding_map =
      let keyword : false ≡ false = refl in
      search (taking, total, Taking-bracketed, Taking-parse_pair) depth 20 fits 2000

  Taking-parse_connection_map : Taking p src (parse_connection_map p)
  unfolding parse_connection_map
  Taking-parse_connection_map =
      let keyword : false ≡ false = refl in
      search (taking, total, Taking-bracketed, Taking-parse_pair) depth 20 fits 2000

  Total-connect_clause : Total p src (connect_clause p)
  Total-connect_clause = search (total, Taking-parse_connection_map) depth 20 fits 2000

  Total-parse_binding_map : Total p src (parse_binding_map p)
  Total-parse_binding_map = Total-of_Taking p src _ Taking-parse_binding_map

  Taking-parse_instantiate : Taking p src (parse_instantiate p)
  unfolding parse_instantiate
  Taking-parse_instantiate =
      let keyword : false ≡ false = refl in
      search
        (
          block, Taking-expect_keyword, Total-expect_name, Total-expect_keyword, Total-optional,
          Total-parse_binding_map, Total-connect_clause,
        )
        depth 30 fits 3000

  Steps-doc_item :
      (kind : TokenKind p.Float) (t : Token p.Float) (w : Sweep)
      → Steps p src (doc_item p src kind t w)
  unfolding doc_item
  Steps-doc_item TokenKind.signal t w =
      search (steps, taking, total, Taking-parse_signal) depth 20 fits 2000
  Steps-doc_item TokenKind.reaction t w =
      search (steps, taking, total, Taking-parse_reaction_raw) depth 20 fits 2000
  Steps-doc_item TokenKind.guard t w =
      search (steps, taking, total, Taking-parse_guard_decl) depth 20 fits 2000
  Steps-doc_item TokenKind.fork t w =
      search (steps, taking, total, Taking-parse_fork_block) depth 20 fits 2000
  Steps-doc_item TokenKind.join t w =
      search (steps, taking, total, Taking-parse_join_block) depth 20 fits 2000
  Steps-doc_item TokenKind.component t w =
      search (steps, taking, total, Taking-parse_component) depth 20 fits 2000
  Steps-doc_item TokenKind.instantiate t w =
      search (steps, taking, total, Taking-parse_instantiate) depth 20 fits 2000
  Steps-doc_item TokenKind.eof t w = search (steps, total) depth 20 fits 2000
  Steps-doc_item _ t w = search (steps, taking, total) depth 20 fits 2000

  Steps-doc_step : (w : Sweep) → Steps p src (doc_step p src w)
  unfolding doc_step
  Steps-doc_step w = search (steps, total, Steps-doc_item) depth 10 fits 2000

  Total-sweep : Total p src (sweep p src)
  unfolding sweep
  Total-sweep = search (total, Steps-doc_step) depth 10 fits 2000

  done_returns :
      (n : ℕ) (o : Outcome p.Float Sweep)
      → Fine p src n o
      → (r : Result String DdlDoc) × (done p o ≡ some r)
  done_returns n (parsed w rest) h = (resolve w, refl)
  done_returns n (failed m) h = (err m, refl)
  done_returns n panicked h = absurd h
  done_returns n endless h = absurd h

  parse_returns :
      (tokens : List (Token p.Float))
      → Laid src 0 tokens
      → (r : Result String DdlDoc) × (parse p tokens src ≡ some r)
  unfolding parse Total
  parse_returns tokens l =
      done_returns (length tokens) (sweep p src tokens)
        (Total-sweep (length tokens) tokens l (omega arith))

  -- On every text the front end returns, a document or a message: it neither indexes past the tokens,
  -- nor cuts the source inside a character, nor loops forever.
  pub parse_source-returns : (r : Result String DdlDoc) × (parse_source p src ≡ some r)
  unfolding parse_source
  parse_source-returns = elim (Result-cases (tokenize p src)) [
    | inl (tokens, lexed) ↦
        rw (lexed, parse_tokens) (parse_returns tokens (tokenize-Laid p src tokens lexed))
    | inr (m, refused) ↦ rw (refused, parse_tokens) (err m, refl)
  ]
