-- ===== src/Guard/Terminates.antt =====
-- `parse` returns on every list of tokens that `tokenize` makes.
use sig_topo.Base.{
  ℕ, zero, suc, ◌≤◌, ◌<◌, String, ◌≡◌, refl, true, false, some, List, [], ◌∷◌, length, arith,
  Option-cases, Bool-cases, inl, inr, Result, ok, err,
}
use sig_topo.Json.{Platform}
use sig_topo.Guard.Token.{Token}
use sig_topo.Guard.Ast.{Expr}
use sig_topo.Guard.Parse.{Outcome, parsed, failed, out_of_fuel, Parse}
use sig_topo.Guard.Parser.{
  peek, advance, is_eof, is_dot, is_rparen, as_identifier, or_op, and_op, addition_op,
  multiplication_op, parse_path, expect_rparen, parse_primary_on, parse_primary,
  parse_multiplication, parse_addition, parse_and, parse_or, parse, finish,
}
use sig_topo.Guard.Lexer.{tokenize}
use sig_topo.Guard.Lexes.{tokenize-Ends}
use sig_topo.Guard.Total.{
  Ends, Fine, Total, advance-Ends, Fine-bind, parse_level-Total, parse_comparison-Total,
  parse_unary-Total,
}

module _ {F : Type 0} where
  not_eof_dot : (t : Token F) → is_dot t ≡ true → is_eof t ≡ false
  not_eof_dot Token.dot h = refl
  not_eof_dot _ h = absurd (cc h)

  not_eof_rparen : (t : Token F) → is_rparen t ≡ true → is_eof t ≡ false
  not_eof_rparen Token.rparen h = refl
  not_eof_rparen _ h = absurd (cc h)

  not_eof_identifier : (t : Token F) (s : String) → as_identifier t ≡ some s → is_eof t ≡ false
  not_eof_identifier (Token.identifier s') s h = refl
  not_eof_identifier _ s h = absurd (cc h)

module _ (p : Platform) where
  parse_path-Fine :
      (fuel : ℕ) (ts : List (Token p.Float))
      → Ends ts
      → length ts < fuel
      → Fine (suc (length ts)) (parse_path p fuel ts)
  unfolding parse_path
  parse_path-Fine zero ts e l = absurd (omega arith)
  parse_path-Fine (suc fuel) ts e l = elim (Bool-cases (is_dot (peek ts))) [
    | inr other ↦ rw (other, Fine) (e, omega arith)
    | inl at_dot ↦
        let part = advance-Ends ts e (not_eof_dot (peek ts) at_dot) in
        elim (Option-cases (as_identifier (peek (advance ts)))) [
          | inl missing ↦ rw (at_dot, missing, Fine) tt
          | inr (s, found) ↦
              let rest = advance-Ends (advance ts) part.0 (not_eof_identifier _ s found) in
              let shorter = part.1 in
              let shorter' = rest.1 in
              rw (at_dot, found, Fine)
                (Fine-bind (suc (length (advance (advance ts)))) (suc (length ts))
                  (parse_path p fuel (advance (advance ts))) _
                  (parse_path-Fine fuel (advance (advance ts)) rest.0 (omega arith))
                  λ path rest' e' l'. (e', omega arith))
        ]
  ]

  expect_rparen-Fine : (ts : List (Token p.Float)) → Ends ts → Fine (length ts) (expect_rparen p ts)
  unfolding expect_rparen
  expect_rparen-Fine ts e = elim (Bool-cases (is_rparen (peek ts))) [
    | inr other ↦ rw (other, Fine) tt
    | inl here ↦
        let after = advance-Ends ts e (not_eof_rparen (peek ts) here) in
        let shorter = after.1 in rw (here, Fine) (after.0, omega arith)
  ]

  -- The token that is read is the first.
  taken :
      (ts : List (Token p.Float))
      → Ends ts
      → is_eof (peek ts) ≡ false
      → Ends (advance ts) × (length (advance ts) < length ts)
  taken ts e h = let after = advance-Ends ts e h in let shorter = after.1 in (after.0, omega arith)

  parse_primary_on-Fine :
      (n : ℕ) (inner : Parse (Token p.Float) (Expr p.Float)) (t : Token p.Float)
      (ts : List (Token p.Float))
      → Total n inner
      → peek ts ≡ t
      → Ends ts
      → length ts ≤ suc n
      → Fine (length ts) (parse_primary_on p t inner ts)
  unfolding parse_primary_on
  parse_primary_on-Fine n inner (Token.integer v) ts total at e l = taken ts e (cc at)
  parse_primary_on-Fine n inner (Token.float v) ts total at e l = taken ts e (cc at)
  parse_primary_on-Fine n inner (Token.string v) ts total at e l = taken ts e (cc at)
  parse_primary_on-Fine n inner (Token.bool v) ts total at e l = taken ts e (cc at)
  parse_primary_on-Fine n inner Token.lparen ts total at e l =
      let after = taken ts e (cc at) in
      let shorter = after.1 in
      Fine-bind (length (advance ts)) (length ts) (inner (advance ts)) _
        (total (advance ts) after.0 (omega arith))
        λ expr rest e' l'.
          Fine-bind (length rest) (length ts) (expect_rparen p rest) _ (expect_rparen-Fine rest e')
            λ u rest' e'' l''. (e'', omega arith)
  parse_primary_on-Fine n inner (Token.identifier name) ts total at e l =
      let after = taken ts e (cc at) in
      let shorter = after.1 in
      elim (Bool-cases (is_dot (peek (advance ts)))) [
        | inr other ↦ rw (other, Fine) after
        | inl at_dot ↦
            rw (at_dot, Fine)
              (Fine-bind (suc (length (advance ts))) (length ts)
                (parse_path p (suc (length (advance ts))) (advance ts)) _
                (parse_path-Fine (suc (length (advance ts))) (advance ts) after.0 (omega arith))
                λ path rest e' l'. (e', omega arith))
      ]
  parse_primary_on-Fine n inner other ts total at e l = tt

  parse_multiplication-Total :
      (n : ℕ) (inner : Parse (Token p.Float) (Expr p.Float))
      → Total n inner
      → Total (suc n) (parse_multiplication p inner)
  unfolding parse_multiplication parse_primary multiplication_op
  parse_multiplication-Total n inner total =
      parse_level-Total (suc n) multiplication_op _ refl λ ts e l.
        parse_unary-Total (suc n) (suc (length ts)) (parse_primary p inner)
          (λ us e' l'. parse_primary_on-Fine n inner (peek us) us total refl e' l') ts e l
          (omega arith)

  parse_or-Total : (n : ℕ) → Total n (parse_or p n)
  unfolding parse_or parse_and parse_addition or_op and_op addition_op
  parse_or-Total zero [] e l = absurd e
  parse_or-Total zero (t ∷ ts) e l = absurd (omega arith)
  parse_or-Total (suc n) ts e l =
      parse_level-Total (suc n) or_op _ refl
        (parse_level-Total (suc n) and_op _ refl (
          parse_comparison-Total (suc n) _ (
            parse_level-Total (suc n) addition_op _ refl
              (parse_multiplication-Total n (parse_or p n) (parse_or-Total n)))))
        ts e l

  finish-total :
      (n : ℕ) (o : Outcome (Token p.Float) (Expr p.Float))
      → Fine n o
      → (r : Result String (Expr p.Float)) × (finish p o ≡ some r)
  finish-total n (parsed expr rest) h = elim (Option-cases (finish p (parsed expr rest))) [
    | inl missing ↦ absurd (ground (arith, missing))
    | inr found ↦ found
  ]
  finish-total n (failed m) h = (err m, refl)
  finish-total n out_of_fuel h = absurd h

  parse-total :
      (tokens : List (Token p.Float))
      → Ends tokens
      → (r : Result String (Expr p.Float)) × (parse p tokens ≡ some r)
  unfolding parse
  parse-total tokens e =
      finish-total (length tokens) _ (parse_or-Total (suc (length tokens)) tokens e (omega arith))

  -- Whatever text `tokenize` accepts, the parser returns on its tokens: an expression or a message.
  pub parse-returns :
      (input : String) (tokens : List (Token p.Float))
      → tokenize p input ≡ ok tokens
      → (r : Result String (Expr p.Float)) × (parse p tokens ≡ some r)
  parse-returns input tokens h = parse-total tokens (tokenize-Ends p input tokens h)
