-- ===== src/Guard/Lexer.antt =====
-- guard/lexer.rs: `tokenize`. The index `i` into the characters is the list of those left.
use Prim.Native.String
use sig_topo.Base.{
  ℕ, zero, suc, ◌+◌, ◌-◌, ◌*◌, String, Char, code, Bool, true, false, ◌&&◌, ◌||◌, none, some, List,
  [], ◌∷◌, leb, nat_eq, if◌then◌else◌, length, Result, ok, err, and_then, ◌==◌,
}
use sig_topo.Base.Text.{chars, of_chars, is_char, head_is, tail_of, span, split_at}
use sig_topo.Base.Int.{pos, i64_max}
use sig_topo.Json.{Platform}
use sig_topo.Guard.Token.{
  Token, integer, float, string, bool, identifier, and, or, not, eq, neq, lt, lte, gt, gte, plus,
  minus, mul, div, lparen, rparen, dot, eof,
}

abbrev pub is_ascii_digit : Char → Bool
is_ascii_digit c = leb b'0' (code c) && leb (code c) b'9'

abbrev pub is_ascii_letter : Char → Bool
is_ascii_letter c = leb b'a' (code c) && leb (code c) b'z' || leb b'A' (code c) && leb (code c) b'Z'

-- Digits and at most one point; the flag says that the point has been seen.
unfoldable pub scan_number : Bool → List Char → Result String (List Char × Bool × List Char)
scan_number is_float [] = ok ([], is_float, [])
scan_number is_float (c ∷ cs) =
    let more =
      λ (seen : Bool). and_then (scan_number seen cs) λ (s, fl, rest). ok (c ∷ s, fl, rest) in
    if is_char b'.' c
    then (if is_float then err "Invalid number with multiple decimal points" else more true)
    else if is_ascii_digit c
    then more is_float
    else ok ([], is_float, c ∷ cs)

abbrev pub digits_value : ℕ → List Char → ℕ
digits_value n [] = n
digits_value n (c ∷ cs) = digits_value (n * 10 + (code c - 48)) cs

module _ (p : Platform) where
  abbrev pub is_whitespace : Char → Bool
  is_whitespace c =
      if leb 128 (code c)
      then p.whitespace c
      else nat_eq (code c) 32 || leb 9 (code c) && leb (code c) 13

  abbrev pub is_alphabetic : Char → Bool
  is_alphabetic c = if leb 128 (code c) then p.alphabetic c else is_ascii_letter c

  abbrev pub is_alphanumeric : Char → Bool
  is_alphanumeric c =
      is_alphabetic c || (if leb 128 (code c) then p.numeric c else is_ascii_digit c)

  -- `s.parse::<i64>()` on a run of digits, and `s.parse::<f64>()`.
  unfoldable pub number_token : List Char → Bool → Result String (Token p.Float)
  number_token s true = elim (p.parse_f64 (of_chars s)) [
    | ok f ↦ ok (float f)
    | err e ↦ err (String.◌++◌ "Invalid float: " e)
  ]
  number_token s false =
      let v = digits_value 0 s in
      if leb v i64_max
      then ok (integer (pos v))
      else err "Invalid integer: number too large to fit in target type"

  unfoldable pub word_token : String → Token p.Float
  word_token s =
      if s == "and"
      then and
      else if s == "or"
      then or
      else if s == "not"
      then not
      else if s == "true"
      then bool true
      else if s == "false"
      then bool false
      else identifier s

  unfoldable pub unexpected_character : Char → Result String (Token p.Float × List Char)
  unexpected_character c = err (String.◌++◌ "Unexpected character: " (String.◌∷◌ c String.[]))

  -- The final `match c`: one character, or two where `=` follows.
  unfoldable pub operator_token : Char → List Char → Result String (Token p.Float × List Char)
  unfolding unexpected_character
  operator_token c cs =
      let equals = head_is (is_char b'=') cs in
      if is_char b'(' c
      then ok (lparen, cs)
      else if is_char b')' c
      then ok (rparen, cs)
      else if is_char b'.' c
      then ok (dot, cs)
      else if is_char b'+' c
      then ok (plus, cs)
      else if is_char b'-' c
      then ok (minus, cs)
      else if is_char b'*' c
      then ok (mul, cs)
      else if is_char b'/' c
      then ok (div, cs)
      else if is_char b'<' c
      then ok (if equals then (lte, tail_of cs) else (lt, cs))
      else if is_char b'>' c
      then ok (if equals then (gte, tail_of cs) else (gt, cs))
      else if is_char b'!' c
      then (if equals then ok (neq, tail_of cs) else unexpected_character c)
      else if is_char b'=' c
      then (if equals then ok (eq, tail_of cs) else unexpected_character c)
      else unexpected_character c

  -- One round of the loop on a first character that is no white space.
  unfoldable pub lex_token : Char → List Char → Result String (Token p.Float × List Char)
  unfolding span split_at scan_number number_token word_token operator_token of_chars
  lex_token c cs =
      if is_char 39 c
      then elim (split_at 39 cs) [
        | none ↦ err "Unterminated string literal"
        | some (s, rest) ↦ ok (string (of_chars s), rest)
      ]
      else if is_ascii_digit c || is_char b'.' c && head_is is_ascii_digit cs
      then and_then (scan_number false (c ∷ cs))
          (λ (s, is_float, rest). and_then (number_token s is_float) λ t. ok (t, rest))
      else if is_alphabetic c || is_char b'_' c
      then (let (s, rest) = span (λ d. is_alphanumeric d || is_char b'_' d) (c ∷ cs) in
          ok (word_token (of_chars s), rest))
      else operator_token c cs

  -- Each round consumes a character, so the number of characters is enough fuel.
  unfoldable pub tokens_from : ℕ → List Char → Result String (List (Token p.Float))
  tokens_from fuel [] = ok (eof ∷ [])
  tokens_from zero (c ∷ cs) = ok (eof ∷ [])
  tokens_from (suc fuel) (c ∷ cs) =
      let skipped = tokens_from fuel cs in
      let lexed =
        and_then (lex_token c cs) λ (t, rest). and_then (tokens_from fuel rest) λ ts. ok (t ∷ ts) in
      if is_whitespace c then skipped else lexed

  unfoldable pub tokenize : String → Result String (List (Token p.Float))
  unfolding tokens_from lex_token chars
  tokenize input = let cs = chars input in tokens_from (length cs) cs
