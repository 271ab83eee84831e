-- ===== src/Ddl/Lexer.antt =====
-- ddl/lexer.rs: `tokenize`. The characters from the index `i` on are the list of those left, and a
-- token's text is the run of characters that it takes, whose bytes are `byte_pos[i] - start`.
use Prim.Native.String
use mathlib.Core.List
use sig_topo.Base.{
  ℕ, zero, suc, ◌+◌, String, Char, code, Bool, true, false, ◌&&◌, ◌||◌, Option, none, some, List,
  [], ◌∷◌, ltb, leb, if◌then◌else◌, length, Result, ok, err, and_then, ◌==◌,
}
use sig_topo.Base.Text.{chars, of_chars, is_char, head_is, span}
use sig_topo.Base.Int.{pos, i64_max}
use sig_topo.Json.{Platform}
use sig_topo.Guard.Lexer.{is_ascii_digit, is_alphabetic, is_alphanumeric, digits_value}
use sig_topo.Ddl.Token.{TokenKind, Token}

-- `char::len_utf8`
abbrev pub len_utf8 : Char → ℕ
len_utf8 c =
    if ltb (code c) 0x80
    then 1
    else if ltb (code c) 0x800
    then 2
    else if ltb (code c) 0x10000
    then 3
    else 4

-- The bytes of a run of characters.
abbrev pub bytes : List Char → ℕ
bytes [] = 0
bytes (c ∷ cs) = len_utf8 c + bytes cs

-- Where the loop stands: `i`, the bytes before it, `line` and `col`.
pub record Cursor : Type 0 where
  pub i : ℕ
  pub byte : ℕ
  pub line : ℕ
  pub col : ℕ

-- Past a run of characters on one line.
abbrev pub past : Cursor → List Char → Cursor
past at s = record at { i = at.i + length s; byte = at.byte + bytes s; col = at.col + length s }

-- `s.push(c)`, before what the rest of the run gives.
abbrev pub push_digit :
    Char → Option (List Char × Bool × List Char) → Option (List Char × Bool × List Char)
push_digit c none = none
push_digit c (some (s, is_float, rest)) = some (c ∷ s, is_float, rest)

abbrev pub push_char : Char → Option (List Char × List Char) → Option (List Char × List Char)
push_char c none = none
push_char c (some (s, rest)) = some (c ∷ s, rest)

abbrev pub begin : Cursor
begin = record { i = 0; byte = 0; line = 1; col = 1 }

-- What a round of the loop does: `continue` past some characters, a token, or an error.
pub data Round (F : Type 0) : Type 0 where
  skipped : Cursor → List Char → Round F
  taken : Token F → Cursor → List Char → Round F
  refused : String → Round F

-- Digits and points: at the second point the loop returns an error.
unfoldable pub scan_digits : Bool → List Char → Option (List Char × Bool × List Char)
scan_digits is_float [] = some ([], is_float, [])
scan_digits is_float (c ∷ cs) =
    let point = push_digit c (scan_digits true cs) in
    let digit = push_digit c (scan_digits is_float cs) in
    if is_char b'.' c
    then (if is_float then none else point)
    else if is_ascii_digit c
    then digit
    else some ([], is_float, c ∷ cs)

-- A run of characters up to the closing quote; a newline before it, or the end, is an error.
unfoldable pub scan_string : Char → List Char → Option (List Char × List Char)
scan_string quote [] = none
scan_string quote (c ∷ cs) =
    let more = push_char c (scan_string quote cs) in
    if is_char (code quote) c then some ([], cs) else if is_char b'\n' c then none else more

-- The inner loop of a `//` comment stops before the newline.
unfoldable pub skip_comment : List Char → List Char × List Char
unfolding span
skip_comment cs = span (λ c. if is_char b'\n' c then false else true) cs

module _ (p : Platform) where
  -- `format!("line {} col {}: ...")`
  unfoldable pub located : ℕ → ℕ → String → String
  located line col m = String.◌++◌ "line " (
      String.◌++◌ (p.show_i64 (pos line))
        (String.◌++◌ " col " (String.◌++◌ (p.show_i64 (pos col)) (String.◌++◌ ": " m))))

  abbrev pub float_kind : Result String p.Float → Result String (TokenKind p.Float)
  float_kind (ok v) = ok (TokenKind.float v)
  float_kind (err _) = err "invalid float literal"

  unfoldable pub number_kind : List Char → Bool → Result String (TokenKind p.Float)
  number_kind s true = float_kind (p.parse_f64 (of_chars s))
  number_kind s false =
      let v = digits_value 0 s in
      if leb v i64_max then ok (TokenKind.integer (pos v)) else err "invalid integer literal"

  unfoldable pub word_kind : String → TokenKind p.Float
  word_kind s =
      if s == "signal"
      then TokenKind.signal
      else if s == "states"
      then TokenKind.states
      else if s == "initial"
      then TokenKind.initial
      else if s == "on"
      then TokenKind.on
      else if s == "from"
      then TokenKind.from
      else if s == "to"
      then TokenKind.to
      else if s == "params"
      then TokenKind.params
      else if s == "when"
      then TokenKind.when
      else if s == "reaction"
      then TokenKind.reaction
      else if s == "enters"
      then TokenKind.enters
      else if s == "with"
      then TokenKind.with_
      else if s == "on_exit"
      then TokenKind.on_exit
      else if s == "on_transition"
      then TokenKind.on_transition
      else if s == "on_enter"
      then TokenKind.on_enter
      else if s == "on_fail"
      then TokenKind.on_fail
      else if s == "guard"
      then TokenKind.guard
      else if s == "fork"
      then TokenKind.fork
      else if s == "join"
      then TokenKind.join
      else if s == "component"
      then TokenKind.component
      else if s == "port"
      then TokenKind.port
      else if s == "instantiate"
      then TokenKind.instantiate
      else if s == "connect"
      then TokenKind.connect
      else if s == "as"
      then TokenKind.as_
      else if s == "and"
      then TokenKind.and
      else if s == "or"
      then TokenKind.or
      else if s == "not"
      then TokenKind.not
      else if s == "true"
      then TokenKind.bool true
      else if s == "false"
      then TokenKind.bool false
      else TokenKind.identifier s

  unfoldable pub unexpected : Char → Result String (TokenKind p.Float × List Char × List Char)
  unexpected c =
      err (String.◌++◌ "unexpected character '" (String.◌++◌ (String.◌∷◌ c String.[]) "'"))

  -- A symbol of one character.
  abbrev one :
      TokenKind p.Float
      → Char
      → List Char
      → Result String (TokenKind p.Float × List Char × List Char)
  one kind c cs = ok (kind, c ∷ [], cs)

  -- A symbol whose second character is given, or the outcome without it.
  abbrev pub pair :
      ℕ
      → TokenKind p.Float
      → Result String (TokenKind p.Float × List Char × List Char)
      → Char
      → List Char
      → Result String (TokenKind p.Float × List Char × List Char)
  pair n kind single c [] = single
  pair n kind single c (d ∷ cs) = if is_char n d then ok (kind, c ∷ d ∷ [], cs) else single

  -- The final `match c`.
  unfoldable pub symbol_kind :
      Char → List Char → Result String (TokenKind p.Float × List Char × List Char)
  unfolding unexpected
  symbol_kind c cs =
      if is_char b'[' c
      then one TokenKind.lbracket c cs
      else if is_char b']' c
      then one TokenKind.rbracket c cs
      else if is_char b'{' c
      then one TokenKind.lbrace c cs
      else if is_char b'}' c
      then one TokenKind.rbrace c cs
      else if is_char b'(' c
      then one TokenKind.lparen c cs
      else if is_char b')' c
      then one TokenKind.rparen c cs
      else if is_char b':' c
      then one TokenKind.colon c cs
      else if is_char b',' c
      then one TokenKind.comma c cs
      else if is_char b'.' c
      then one TokenKind.dot c cs
      else if is_char b'+' c
      then one TokenKind.plus c cs
      else if is_char b'*' c
      then one TokenKind.mul c cs
      else if is_char b'/' c
      then one TokenKind.div c cs
      else if is_char b'-' c
      then pair b'>' TokenKind.arrow (one TokenKind.minus c cs) c cs
      else if is_char b'>' c
      then pair b'=' TokenKind.gte (one TokenKind.gt c cs) c cs
      else if is_char b'<' c
      then pair b'=' TokenKind.lte (one TokenKind.lt c cs) c cs
      else if is_char b'!' c
      then pair b'=' TokenKind.neq (unexpected c) c cs
      else if is_char b'=' c
      then pair b'=' TokenKind.eq (err "unexpected character '=' (did you mean '=='?)") c cs
      else unexpected c

  abbrev pub string_kind :
      Char
      → Option (List Char × List Char)
      → Result String (TokenKind p.Float × List Char × List Char)
  string_kind c none = err "unterminated string literal"
  string_kind c (some (s, rest)) =
      ok (TokenKind.string (of_chars s), c ∷ List.◌++◌ s (c ∷ []), rest)

  abbrev pub number_lexed :
      Option (List Char × Bool × List Char)
      → Result String (TokenKind p.Float × List Char × List Char)
  number_lexed none = err "number with multiple decimal points"
  number_lexed (some (s, is_float, rest)) =
      and_then (number_kind s is_float) λ kind. ok (kind, s, rest)

  -- A token that starts with the character: its kind, its characters and those left. A message
  -- lacks its place, which is that of the first character.
  unfoldable pub lex_kind :
      Char → List Char → Result String (TokenKind p.Float × List Char × List Char)
  unfolding span scan_digits scan_string number_kind word_kind symbol_kind of_chars
  lex_kind c cs =
      if is_char 39 c || is_char 34 c
      then string_kind c (scan_string c cs)
      else if is_ascii_digit c
      then number_lexed (scan_digits false (c ∷ cs))
      else if is_alphabetic p c || is_char b'_' c
      then (let (s, rest) = span (λ d. is_alphanumeric p d || is_char b'_' d) (c ∷ cs) in
          ok (word_kind (of_chars s), s, rest))
      else symbol_kind c cs

  abbrev pub token_at : Cursor → TokenKind p.Float → ℕ → ℕ → Token p.Float
  token_at at kind start len = record {
    kind = kind;
    line = at.line;
    col = at.col;
    start = start;
    len = len;
  }

  abbrev pub is_comment : Char → List Char → Bool
  is_comment c cs = is_char b'/' c && head_is (is_char b'/') cs

  abbrev pub is_blank : Char → Bool
  is_blank c = is_char b' ' c || is_char b'\t' c || is_char b'\r' c

  abbrev next_line : Cursor → Cursor
  next_line at = record { i = at.i + 1; byte = at.byte + 1; line = at.line + 1; col = 1 }

  -- The comment's characters move the index, and leave the column.
  abbrev pub past_comment : Cursor → List Char → Cursor
  past_comment at s = record at { i = at.i + length s; byte = at.byte + bytes s }

  abbrev pub lexed :
      Cursor → Result String (TokenKind p.Float × List Char × List Char) → Round p.Float
  lexed at (err m) = refused (located at.line at.col m)
  lexed at (ok (kind, s, rest)) = taken (token_at at kind at.byte (bytes s)) (past at s) rest

  -- One round of the loop.
  unfoldable pub round : Cursor → Char → List Char → Round p.Float
  unfolding skip_comment lex_kind located
  round at c cs =
      if is_comment c cs
      then (let (s, rest) = skip_comment (c ∷ cs) in skipped (past_comment at s) rest)
      else if is_blank c
      then skipped (past at (c ∷ [])) cs
      else if is_char b'\n' c
      then skipped (next_line at) cs
      else lexed at (lex_kind c cs)

  -- The rounds that follow a round.
  abbrev pub resume :
      (Cursor → List Char → Result String (List (Token p.Float)))
      → Round p.Float
      → Result String (List (Token p.Float))
  resume next (skipped at rest) = next at rest
  resume next (taken t at rest) = and_then (next at rest) λ ts. ok (t ∷ ts)
  resume next (refused m) = err m

  -- The loop, one round for each unit of fuel, and the final token, whose `start` is the index.
  unfoldable pub tokens_from : ℕ → Cursor → List Char → Result String (List (Token p.Float))
  unfolding round
  tokens_from fuel at [] = ok (token_at at TokenKind.eof at.i 0 ∷ [])
  tokens_from zero at (c ∷ cs) = ok (token_at at TokenKind.eof at.i 0 ∷ [])
  tokens_from (suc fuel) at (c ∷ cs) = resume (tokens_from fuel) (round at c cs)

  -- A round takes at least one character, so their number is enough fuel.
  unfoldable pub tokenize : String → Result String (List (Token p.Float))
  unfolding tokens_from chars
  tokenize src = let cs = chars src in tokens_from (length cs) begin cs
