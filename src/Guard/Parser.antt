-- ===== src/Guard/Parser.antt =====
-- guard/parser.rs. The slice from `pos` on is the list of tokens left. `advance` never moves past
-- the last token. An empty slice, on which `peek` panics, is read as the end of input; `tokenize`
-- never yields one.
use Prim.Native.String.{◌++◌}
use sig_topo.Base.{
  ℕ, zero, suc, String, Bool, true, false, Option, none, some, List, [], ◌∷◌, length, if◌then◌else◌,
  ◌==◌, Result, ok, err,
}
use sig_topo.Json.{Platform}
use sig_topo.Guard.Token.{Token, debug_token}
use sig_topo.Guard.Ast.{
  BinaryOp, UnaryOp, Literal, Expr, binary, unary, literal, payload_access, identifier,
}
use sig_topo.Guard.Parse.{Outcome, parsed, failed, out_of_fuel, Parse, bind}

-- `path.join(".")`
unfoldable pub join_dots : String → List String → String
join_dots s [] = s
join_dots s (part ∷ path) = join_dots (s ++ "." ++ part) path

module _ {F : Type 0} where
  abbrev pub peek : List (Token F) → Token F
  peek [] = Token.eof
  peek (t ∷ ts) = t

  abbrev pub advance : List (Token F) → List (Token F)
  advance [] = []
  advance (t ∷ []) = t ∷ []
  advance (t ∷ u ∷ ts) = u ∷ ts

  -- The operators of each level; a level's loop goes on while its table has the next token.
  unfoldable pub or_op : Token F → Option BinaryOp
  or_op Token.or = some BinaryOp.or
  or_op _ = none

  unfoldable pub and_op : Token F → Option BinaryOp
  and_op Token.and = some BinaryOp.and
  and_op _ = none

  unfoldable pub comparison_op : Token F → Option BinaryOp
  comparison_op Token.eq = some BinaryOp.eq
  comparison_op Token.neq = some BinaryOp.neq
  comparison_op Token.lt = some BinaryOp.lt
  comparison_op Token.lte = some BinaryOp.lte
  comparison_op Token.gt = some BinaryOp.gt
  comparison_op Token.gte = some BinaryOp.gte
  comparison_op _ = none

  unfoldable pub addition_op : Token F → Option BinaryOp
  addition_op Token.plus = some BinaryOp.add
  addition_op Token.minus = some BinaryOp.sub
  addition_op _ = none

  unfoldable pub multiplication_op : Token F → Option BinaryOp
  multiplication_op Token.mul = some BinaryOp.mul
  multiplication_op Token.div = some BinaryOp.div
  multiplication_op _ = none

  -- `not` and unary minus.
  unfoldable pub unary_op : Token F → Option UnaryOp
  unary_op Token.not = some UnaryOp.not
  unary_op Token.minus = some UnaryOp.neg
  unary_op _ = none

  unfoldable pub path_expr : String → List String → Expr F
  unfolding join_dots
  path_expr name path =
      if name == "payload" then payload_access path else identifier (join_dots name path)

  abbrev pub is_dot : Token F → Bool
  is_dot Token.dot = true
  is_dot _ = false

  abbrev pub is_eof : Token F → Bool
  is_eof Token.eof = true
  is_eof _ = false

  abbrev pub is_rparen : Token F → Bool
  is_rparen Token.rparen = true
  is_rparen _ = false

  abbrev pub as_identifier : Token F → Option String
  as_identifier (Token.identifier s) = some s
  as_identifier _ = none

  -- `left` and all that the loop of one level adds to it.
  unfoldable pub binary_loop :
      ℕ → (Token F → Option BinaryOp) → Parse (Token F) (Expr F) → Expr F → Parse (Token F) (Expr F)
  binary_loop zero op operand left ts = out_of_fuel
  binary_loop (suc fuel) op operand left ts = elim (op (peek ts)) [
    | none ↦ parsed left ts
    | some o ↦
        bind (operand (advance ts))
          λ right rest. binary_loop fuel op operand (binary left o right) rest
  ]

  -- One level of left-associative operators.
  unfoldable pub parse_level :
      (Token F → Option BinaryOp) → Parse (Token F) (Expr F) → Parse (Token F) (Expr F)
  unfolding binary_loop
  parse_level op operand ts =
      bind (operand ts) λ left rest. binary_loop (suc (length rest)) op operand left rest

  unfoldable pub parse_comparison : Parse (Token F) (Expr F) → Parse (Token F) (Expr F)
  unfolding comparison_op
  parse_comparison parse_addition ts = bind (parse_addition ts) λ left rest.
      elim (comparison_op (peek rest)) [
        | none ↦ parsed left rest
        | some op ↦
            bind (parse_addition (advance rest)) λ right rest'. parsed (binary left op right) rest'
      ]

  unfoldable pub parse_unary : ℕ → Parse (Token F) (Expr F) → Parse (Token F) (Expr F)
  unfolding unary_op
  parse_unary zero parse_primary ts = out_of_fuel
  parse_unary (suc fuel) parse_primary ts = elim (unary_op (peek ts)) [
    | none ↦ parse_primary ts
    | some op ↦
        bind (parse_unary fuel parse_primary (advance ts)) λ expr rest. parsed (unary op expr) rest
  ]

module _ (p : Platform) where
  -- What follows an identifier: `.part` again and again.
  unfoldable pub parse_path : ℕ → Parse (Token p.Float) (List String)
  unfolding debug_token
  parse_path zero ts = out_of_fuel
  parse_path (suc fuel) ts =
      let part = advance ts in
      elim (is_dot (peek ts)) [
        | false ↦ parsed [] ts
        | true ↦ elim (as_identifier (peek part)) [
          | none ↦ failed ("Expected identifier after '.', found " ++ debug_token p (peek part))
          | some s ↦ bind (parse_path fuel (advance part)) λ path rest. parsed (s ∷ path) rest
        ]
      ]

  unfoldable pub expect_rparen : Parse (Token p.Float) (Unit {0})
  unfolding debug_token
  expect_rparen ts =
      if is_rparen (peek ts)
      then parsed tt (advance ts)
      else failed ("Expected RParen, found " ++ debug_token p (peek ts))

  -- The first token is passed apart, as `self.peek().clone()` is matched.
  unfoldable pub parse_primary_on :
      Token p.Float → Parse (Token p.Float) (Expr p.Float) → Parse (Token p.Float) (Expr p.Float)
  unfolding expect_rparen parse_path path_expr
  parse_primary_on (Token.integer v) parse_or ts = parsed (literal (Literal.integer v)) (advance ts)
  parse_primary_on (Token.float v) parse_or ts = parsed (literal (Literal.float v)) (advance ts)
  parse_primary_on (Token.string s) parse_or ts = parsed (literal (Literal.string s)) (advance ts)
  parse_primary_on (Token.bool b) parse_or ts = parsed (literal (Literal.bool b)) (advance ts)
  parse_primary_on Token.lparen parse_or ts =
      bind (parse_or (advance ts))
        λ expr rest. bind (expect_rparen rest) λ _ rest'. parsed expr rest'
  parse_primary_on (Token.identifier name) parse_or ts =
      let rest = advance ts in
      if is_dot (peek rest)
      then bind (parse_path (suc (length rest)) rest)
          (λ path rest'. parsed (path_expr name path) rest')
      else parsed (identifier name) rest
  parse_primary_on other parse_or ts = failed ("Unexpected token: " ++ debug_token p other)

  unfoldable pub parse_primary :
      Parse (Token p.Float) (Expr p.Float) → Parse (Token p.Float) (Expr p.Float)
  unfolding parse_primary_on
  parse_primary parse_or ts = parse_primary_on (peek ts) parse_or ts

  unfoldable pub parse_multiplication :
      Parse (Token p.Float) (Expr p.Float) → Parse (Token p.Float) (Expr p.Float)
  unfolding parse_level multiplication_op parse_unary parse_primary
  parse_multiplication parse_or =
      parse_level multiplication_op λ ts. parse_unary (suc (length ts)) (parse_primary parse_or) ts

  unfoldable pub parse_addition :
      Parse (Token p.Float) (Expr p.Float) → Parse (Token p.Float) (Expr p.Float)
  unfolding parse_level addition_op parse_multiplication
  parse_addition parse_or = parse_level addition_op (parse_multiplication parse_or)

  unfoldable pub parse_and :
      Parse (Token p.Float) (Expr p.Float) → Parse (Token p.Float) (Expr p.Float)
  unfolding parse_level and_op parse_comparison parse_addition
  parse_and parse_or = parse_level and_op (parse_comparison (parse_addition parse_or))

  -- The fuel bounds the nesting of parentheses.
  unfoldable pub parse_or : ℕ → Parse (Token p.Float) (Expr p.Float)
  unfolding parse_level or_op parse_and
  parse_or zero ts = out_of_fuel
  parse_or (suc fuel) ts = parse_level or_op (parse_and (parse_or fuel)) ts

  abbrev pub finish : Outcome (Token p.Float) (Expr p.Float) → Option (Result String (Expr p.Float))
  finish (parsed expr rest) =
      if is_eof (peek rest)
      then some (ok expr)
      else some (err ("Unexpected token after expression: " ++ debug_token p (peek rest)))
  finish (failed m) = some (err m)
  finish out_of_fuel = none

  -- `none`: the fuel ran out, which does not happen on tokens that end as those of `tokenize` do.
  unfoldable pub parse : List (Token p.Float) → Option (Result String (Expr p.Float))
  unfolding parse_or debug_token
  parse tokens = finish (parse_or (suc (length tokens)) tokens)
