-- ===== src/Guard/Total.antt =====
-- Parsers that never run out of fuel: on tokens that end as those of `tokenize` do, they fail or
-- leave fewer tokens, which end so again.
use sig_topo.Base.{
  ℕ, zero, suc, ◌≤◌, ◌<◌, ◌≡◌, refl, true, false, Option, none, some, List, [], ◌∷◌, length, arith,
  Option-cases, Bool-cases, inl, inr,
}
use sig_topo.Guard.Token.{Token}
use sig_topo.Guard.Ast.{BinaryOp, Expr, binary}
use sig_topo.Guard.Parse.{Outcome, parsed, failed, out_of_fuel, Parse, bind}
use sig_topo.Guard.Parser.{
  peek, advance, is_eof, comparison_op, unary_op, binary_loop, parse_level, parse_comparison,
  parse_unary,
}

module _ {F : Type 0} where
  -- The tokens are not empty, and the last is the end of input.
  abbrev pub Ends : List (Token F) → Type 0
  Ends [] = ⊥
  Ends (t ∷ []) = is_eof t ≡ true
  Ends (t ∷ u ∷ ts) = Ends (u ∷ ts)

  -- An outcome that leaves fewer than `n` tokens, or a failure.
  abbrev pub Fine : {A : Type 0} → ℕ → Outcome (Token F) A → Type 0
  Fine n (parsed a rest) = Ends rest × (length rest < n)
  Fine n (failed m) = Unit
  Fine n out_of_fuel = ⊥

  -- The parser is fine on at most `n` tokens, and takes at least one of them.
  abbrev pub Total : {A : Type 0} → ℕ → Parse (Token F) A → Type 0
  Total n parser = (ts : List (Token F)) → Ends ts → length ts ≤ n → Fine (length ts) (parser ts)

  pub advance-Ends :
      (ts : List (Token F))
      → Ends ts
      → is_eof (peek ts) ≡ false
      → Ends (advance ts) × (suc (length (advance ts)) ≡ length ts)
  advance-Ends [] e h = absurd e
  advance-Ends (t ∷ []) e h = absurd (cc (e, h))
  advance-Ends (t ∷ u ∷ ts) e h = (e, refl)

  pub Fine-bind :
      {A B : Type 0} (n k : ℕ) (o : Outcome (Token F) A) (f : A → Parse (Token F) B)
      → Fine n o
      → ((a : A) (rest : List (Token F)) → Ends rest → length rest < n → Fine k (f a rest))
      → Fine k (bind o f)
  Fine-bind n k (parsed a rest) f h then_fine = then_fine a rest h.0 h.1
  Fine-bind n k (failed m) f h then_fine = tt
  Fine-bind n k out_of_fuel f h then_fine = h

  pub eof_of : (t : Token F) → is_eof t ≡ true → t ≡ Token.eof
  eof_of Token.eof h = refl
  eof_of _ h = absurd (cc h)

  -- A table of operators has none for the end of input.
  not_eof :
      {A : Type 0} (op : Token F → Option A) (ts : List (Token F)) (o : A)
      → op Token.eof ≡ none
      → op (peek ts) ≡ some o
      → is_eof (peek ts) ≡ false
  not_eof op ts o h found = elim (Bool-cases (is_eof (peek ts))) [
    | inl at_eof ↦ absurd (let same = eof_of (peek ts) at_eof in cc (h, found, same))
    | inr other ↦ other
  ]

  binary_loop-Fine :
      (n bound fuel : ℕ) (op : Token F → Option BinaryOp) (operand : Parse (Token F) (Expr F))
      (left : Expr F) (ts : List (Token F))
      → op Token.eof ≡ none
      → Total n operand
      → Ends ts
      → length ts < fuel
      → length ts < bound
      → length ts ≤ n
      → Fine bound (binary_loop fuel op operand left ts)
  unfolding binary_loop
  binary_loop-Fine n bound zero op operand left ts h total e f b l = absurd (omega arith)
  binary_loop-Fine n bound (suc fuel) op operand left ts h total e f b l =
      elim (Option-cases (op (peek ts))) [
        | inl missing ↦ rw (missing, Fine) (e, b)
        | inr (o, found) ↦
            let after = advance-Ends ts e (not_eof op ts o h found) in
            let shorter = after.1 in
            rw (found, Fine)
              (Fine-bind (length (advance ts)) bound (operand (advance ts)) _
                (total (advance ts) after.0 (omega arith))
                λ right rest e' l'.
                  binary_loop-Fine n bound fuel op operand (binary left o right) rest h total e'
                    (omega arith) (omega arith) (omega arith))
      ]

  pub parse_level-Total :
      (n : ℕ) (op : Token F → Option BinaryOp) (operand : Parse (Token F) (Expr F))
      → op Token.eof ≡ none
      → Total n operand
      → Total n (parse_level op operand)
  unfolding parse_level
  parse_level-Total n op operand h total ts e l =
      Fine-bind (length ts) (length ts) (operand ts) _ (total ts e l) λ left rest e' l'.
        binary_loop-Fine n (length ts) (suc (length rest)) op operand left rest h total e'
          (omega arith) l' (omega arith)

  pub parse_comparison-Total :
      (n : ℕ) (operand : Parse (Token F) (Expr F))
      → Total n operand
      → Total n (parse_comparison operand)
  unfolding parse_comparison comparison_op
  parse_comparison-Total n operand total ts e l =
      Fine-bind (length ts) (length ts) (operand ts) _ (total ts e l) λ left rest e' l'.
        elim (Option-cases (comparison_op (peek rest))) [
          | inl missing ↦ rw (missing, Fine) (e', l')
          | inr (o, found) ↦
              let after = advance-Ends rest e' (not_eof comparison_op rest o refl found) in
              let shorter = after.1 in
              rw found (
                Fine-bind (length (advance rest)) (length ts) (operand (advance rest)) _
                  (total (advance rest) after.0 (omega arith))
                  λ right rest' e'' l''. (e'', omega arith))
        ]

  pub parse_unary-Total :
      (n fuel : ℕ) (primary : Parse (Token F) (Expr F))
      → Total n primary
      → (ts : List (Token F)) → Ends ts
      → length ts ≤ n
      → length ts < fuel
      → Fine (length ts) (parse_unary fuel primary ts)
  unfolding parse_unary unary_op
  parse_unary-Total n zero primary total ts e l f = absurd (omega arith)
  parse_unary-Total n (suc fuel) primary total ts e l f = elim (Option-cases (unary_op (peek ts))) [
    | inl missing ↦ rw (missing, Fine) (total ts e l)
    | inr (o, found) ↦
        let after = advance-Ends ts e (not_eof unary_op ts o refl found) in
        let shorter = after.1 in
        rw (found, Fine)
          (Fine-bind (length (advance ts)) (length ts) (parse_unary fuel primary (advance ts)) _
            (parse_unary-Total n fuel primary total (advance ts) after.0 (omega arith)
              (omega arith))
            λ expr rest e' l'. (e', omega arith))
  ]
