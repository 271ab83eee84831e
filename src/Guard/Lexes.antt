-- ===== src/Guard/Lexes.antt =====
-- `tokenize`: each round takes a character, and the end of input closes the tokens.
use sig_topo.Base.{
  ℕ, zero, suc, ◌≤◌, String, Char, ◌≡◌, refl, subst, Bool, true, false, ◌&&◌, ◌||◌, List, [], ◌∷◌,
  length, arith, Option-cases, Bool-cases, inl, inr, Result, ok, err, and_then, and_then-eq-ok,
  ok_inj, Result-cases, if◌then◌else◌,
}
use sig_topo.Base.Text.{chars, is_char, head_is, tail_of, span, split_at}
use sig_topo.Json.{Platform}
use sig_topo.Guard.Token.{Token}
use sig_topo.Guard.Total.{Ends}
use sig_topo.Guard.Lexer.{
  is_ascii_digit, scan_number, number_token, operator_token, unexpected_character, lex_token,
  tokens_from, tokenize, is_whitespace, is_alphanumeric, is_alphabetic,
}
use sig_topo.Guard.Scans.{
  tail_shorter, span_shorter, split_at_shorter, scan_number_taken, scan_number_shorter,
}

module _ (p : Platform) where
  -- A token, with at most `n` characters left, or a failure.
  unfoldable Leaves : ℕ → Result String (Token p.Float × List Char) → Type 0
  Leaves n (ok (t, rest)) = length rest ≤ n
  Leaves n (err m) = Unit

  Leaves-if :
      (n : ℕ) (test : Bool) (x y : Result String (Token p.Float × List Char))
      → Leaves n x
      → Leaves n y
      → Leaves n (if test then x else y)
  Leaves-if n true x y h k = h
  Leaves-if n false x y h k = k

  Leaves-ok :
      (n : ℕ) (t : Token p.Float) (rest : List Char) → length rest ≤ n → Leaves n (ok (t, rest))
  unfolding Leaves
  Leaves-ok n t rest h = h

  Leaves-err : (n : ℕ) (m : String) → Leaves n (err m)
  unfolding Leaves
  Leaves-err n m = tt

  Leaves-either :
      (n : ℕ) (test : Bool) (t u : Token p.Float) (xs ys : List Char)
      → length xs ≤ n
      → length ys ≤ n
      → Leaves n (ok (if test then (t, xs) else (u, ys)))
  unfolding Leaves
  Leaves-either n true t u xs ys h k = h
  Leaves-either n false t u xs ys h k = k

  operator_token-Leaves : (c : Char) (cs : List Char) → Leaves (length cs) (operator_token p c cs)
  unfolding operator_token unexpected_character
  operator_token-Leaves c cs =
      let n = length cs in
      let same : n ≤ n = omega arith in
      let tail : length (tail_of cs) ≤ n = tail_shorter cs in
      search (Leaves-if, Leaves-ok, Leaves-err, Leaves-either) depth 20 fits 3000

  number_Leaves :
      (c : Char) (cs : List Char)
      → (is_ascii_digit c || is_char b'.' c) ≡ true
      → Leaves (length cs) (
          and_then
            (scan_number false (c ∷ cs))
            λ (s, is_float, rest). and_then (number_token p s is_float) λ t. ok (t, rest))
  number_Leaves c cs starts = elim (Result-cases (scan_number false (c ∷ cs))) [
    | inr (m, failed) ↦ rw (failed) (Leaves-err _ _)
    | inl ((s, is_float, rest), scanned) ↦
        let shorter =
          scan_number_taken c cs false (s, is_float, rest) (λ seen r. scan_number_shorter seen cs r)
            starts scanned in
        elim (Result-cases (number_token p s is_float)) [
          | inr (m, failed) ↦ rw (scanned, failed) (Leaves-err _ _)
          | inl (t, read) ↦ rw (scanned, read) (Leaves-ok _ _ _ shorter)
        ]
  ]

  lex_token-Leaves : (c : Char) (cs : List Char) → Leaves (length cs) (lex_token p c cs)
  unfolding lex_token span
  lex_token-Leaves c cs = elim (Bool-cases (is_char 39 c)) [
    | inl quote ↦ elim (Option-cases (split_at 39 cs)) [
      | inl missing ↦ rw (quote, missing) (Leaves-err _ _)
      | inr ((s, rest), found) ↦
          let shorter = split_at_shorter 39 cs s rest found in
          rw (quote, found) (Leaves-ok _ _ _ (omega arith))
    ]
    | inr other ↦
        elim (Bool-cases (is_ascii_digit c || is_char b'.' c && head_is is_ascii_digit cs)) [
          | inl number ↦ rw (other, number) (number_Leaves c cs (ground (arith, number)))
          | inr no_number ↦ elim (Bool-cases (is_alphabetic p c || is_char b'_' c)) [
            | inl word ↦
                let in_word : (is_alphanumeric p c || is_char b'_' c) ≡ true =
                  ground (arith, word) in
                let shorter = span_shorter (λ d. is_alphanumeric p d || is_char b'_' d) cs in
                rw (other, no_number, word, in_word) (Leaves-ok _ _ _ shorter)
            | inr operator ↦ rw (other, no_number, operator) (operator_token-Leaves c cs)
          ]
        ]
  ]

  lexed_shorter :
      (c : Char) (cs : List Char) (t : Token p.Float) (rest : List Char)
      → lex_token p c cs ≡ ok (t, rest)
      → length rest ≤ length cs
  unfolding Leaves
  lexed_shorter c cs t rest h = subst (Leaves (length cs)) h (lex_token-Leaves c cs)

  Ends-cons : (t : Token p.Float) (ts : List (Token p.Float)) → Ends ts → Ends (t ∷ ts)
  Ends-cons t [] h = absurd h
  Ends-cons t (u ∷ ts) h = h

  -- The end of input closes the tokens, whatever the rounds.
  tokens_from-Ends :
      (fuel : ℕ) (cs : List Char) (tokens : List (Token p.Float))
      → tokens_from p fuel cs ≡ ok tokens
      → Ends tokens
  unfolding tokens_from
  tokens_from-Ends fuel [] tokens h = subst Ends (ok_inj h) refl
  tokens_from-Ends zero (c ∷ cs) tokens h = subst Ends (ok_inj h) refl
  tokens_from-Ends (suc fuel) (c ∷ cs) tokens h = elim (Bool-cases (is_whitespace p c)) [
    | inl space ↦ tokens_from-Ends fuel cs tokens (rw space at h)
    | inr other ↦
        let (read, _, h') = and_then-eq-ok (lex_token p c cs) _ (rw other at h) in
        let (more, lexed, h'') = and_then-eq-ok (tokens_from p fuel read.1) _ h' in
        let rest = tokens_from-Ends fuel (read.1) more lexed in
        subst Ends (ok_inj h'') (Ends-cons read.0 more rest)
  ]

  tokens_from_fuel :
      (n m : ℕ) (cs : List Char)
      → length cs ≤ n
      → length cs ≤ m
      → tokens_from p n cs ≡ tokens_from p m cs
  unfolding tokens_from
  tokens_from_fuel n m [] h k = refl
  tokens_from_fuel zero m (c ∷ cs) h k = absurd (omega arith)
  tokens_from_fuel (suc n) zero (c ∷ cs) h k = absurd (omega arith)
  tokens_from_fuel (suc n) (suc m) (c ∷ cs) h k =
      let skipped = tokens_from_fuel n m cs (omega arith) (omega arith) in
      elim (Result-cases (lex_token p c cs)) [
        | inr (x, failed) ↦ rw (failed, skipped) refl
        | inl ((t, rest), lexed) ↦
            let shorter = lexed_shorter c cs t rest lexed in
            let more = tokens_from_fuel n m rest (omega arith) (omega arith) in
            rw (lexed, skipped, more) refl
      ]

  -- Whatever text `tokenize` accepts, its tokens end with the end of input.
  pub tokenize-Ends :
      (input : String) (tokens : List (Token p.Float)) → tokenize p input ≡ ok tokens → Ends tokens
  unfolding tokenize
  tokenize-Ends input tokens h = tokens_from-Ends (length (chars input)) (chars input) tokens h

  -- The rounds that `tokenize` hands out, one for each character, are enough: with any larger number
  -- the loop reads the same tokens, or fails with the same message.
  pub tokenize-fuel :
      (input : String) (n : ℕ)
      → length (chars input) ≤ n
      → tokenize p input ≡ tokens_from p n (chars input)
  unfolding tokenize
  tokenize-fuel input n h = tokens_from_fuel (length (chars input)) n (chars input) (omega arith) h
