-- ===== src/Ddl/Pieces.antt =====
-- `tokenize` of ddl/lexer.rs: a round of its loop takes a run of characters off the front.
use text.Mathlib.TextEquality.{Char-path}
use sig_topo.Base.{
  ℕ, ◌+◌, ◌<◌, String, Char, code, ◌≡◌, refl, sym, ap, subst, ◌∙◌, append_assoc, Bool, true, false,
  ◌||◌, Option, none, some, List, [], ◌∷◌, ◌++◌, length, length-append, arith, Option-cases,
  Bool-cases, inl, inr, Result, ok, err, Result-cases, ok_inj, leb, if◌then◌else◌,
}
use sig_topo.Base.Text.{is_char, span, of_chars}
use sig_topo.Base.Int.{i64_max}
use sig_topo.Json.{Platform}
use sig_topo.Guard.Lexer.{is_ascii_digit, is_alphabetic, is_alphanumeric, digits_value}
use sig_topo.Ddl.Token.{TokenKind, is_eof}
use sig_topo.Ddl.Lexer.{
  bytes, Cursor, push_digit, Round, skipped, taken, refused, scan_digits, scan_string, skip_comment,
  float_kind, number_kind, word_kind, unexpected, pair, symbol_kind, lex_kind, is_comment, is_blank,
  lexed, round, string_kind, number_lexed,
}

-- The characters are a run that is not empty, and those left.
pub record Piece (cs s rest : List Char) : Type 0 where
  pub splits : cs ≡ s ++ rest
  pub shorter : length rest < length cs

Piece-cons : (c : Char) (s rest cs : List Char) → cs ≡ s ++ rest → Piece (c ∷ cs) (c ∷ s) rest
Piece-cons c s rest cs h = record {
  splits = ap (◌∷◌ c) h;
  shorter = omega (arith, ap length h, length-append s rest);
}

span_lem : (test : Char → Bool) (cs : List Char) → cs ≡ (span test cs).0 ++ (span test cs).1
unfolding span
span_lem test [] = refl
span_lem test (c ∷ cs) = elim (Bool-cases (test c)) [
  | inl h ↦ rw h (ap (◌∷◌ c) (span_lem test cs))
  | inr h ↦ rw h
]

span-Piece :
    (test : Char → Bool) (c : Char) (cs : List Char)
    → test c ≡ true
    → Piece (c ∷ cs) ((span test (c ∷ cs)).0) ((span test (c ∷ cs)).1)
unfolding span
span-Piece test c cs h = rw h (Piece-cons c _ _ cs (span_lem test cs))

abbrev DigitsSplit : List Char → Option (List Char × Bool × List Char) → Type 0
DigitsSplit cs none = Unit
DigitsSplit cs (some (s, fl, rest)) = cs ≡ s ++ rest

DigitsSplit-push :
    (c : Char) (cs : List Char) (o : Option (List Char × Bool × List Char))
    → DigitsSplit cs o
    → DigitsSplit (c ∷ cs) (push_digit c o)
DigitsSplit-push c cs none h = tt
DigitsSplit-push c cs (some (s, fl, rest)) h = ap (◌∷◌ c) h

DigitsSplit-if :
    (test : Bool) (cs : List Char) (x y : Option (List Char × Bool × List Char))
    → DigitsSplit cs x
    → DigitsSplit cs y
    → DigitsSplit cs (if test then x else y)
DigitsSplit-if true cs x y h k = h
DigitsSplit-if false cs x y h k = k

scan_digits_split : (fl : Bool) (cs : List Char) → DigitsSplit cs (scan_digits fl cs)
unfolding scan_digits
scan_digits_split fl [] = refl
scan_digits_split fl (c ∷ cs) =
    DigitsSplit-if (is_char b'.' c) (c ∷ cs) _ _
      (DigitsSplit-if fl (c ∷ cs) none _ tt
        (DigitsSplit-push c cs (scan_digits true cs) (scan_digits_split true cs)))
      (DigitsSplit-if (is_ascii_digit c) (c ∷ cs) _ (some ([], fl, c ∷ cs))
        (DigitsSplit-push c cs (scan_digits fl cs) (scan_digits_split fl cs)) refl)

digits_Piece :
    (c : Char) (cs : List Char) (s rest : List Char) (fl : Bool)
    → is_ascii_digit c ≡ true
    → scan_digits false (c ∷ cs) ≡ some (s, fl, rest)
    → Piece (c ∷ cs) s rest
unfolding scan_digits
digits_Piece c cs s rest fl digit h =
    let no_point : is_char b'.' c ≡ false = ground (arith, digit) in
    elim (Option-cases (scan_digits false cs)) [
      | inl missing ↦ absurd (cc (rw (no_point, digit, missing) at h))
      | inr ((s', fl', rest'), found) ↦
          let split' : cs ≡ s' ++ rest' = rw found at (scan_digits_split false cs) in
          let same : some (c ∷ s', fl', rest') ≡ some (s, fl, rest) =
            rw (no_point, digit, found) at h in
          let same_s : c ∷ s' ≡ s = cc same in
          let same_rest : rest' ≡ rest = cc same in
          subst (Piece (c ∷ cs) s) same_rest (
            subst (λ (x : List Char). Piece (c ∷ cs) x rest') same_s
              (Piece-cons c s' rest' cs split'))
    ]

-- The closing quote is the opening one.
scan_string_split :
    (quote : Char) (cs s rest : List Char)
    → scan_string quote cs ≡ some (s, rest)
    → cs ≡ s ++ quote ∷ rest
unfolding scan_string
scan_string_split quote [] s rest h = absurd (cc h)
scan_string_split quote (c ∷ cs) s rest h = elim (Bool-cases (is_char (code quote) c)) [
  | inl closed ↦
      let same : ◌≡◌ {A = Option (List Char × List Char)} (some ([], cs)) (some (s, rest)) =
        rw closed at h in
      let same_s : [] ≡ s = cc same in
      let same_rest : cs ≡ rest = cc same in
      let char : c ≡ quote = Char-path c quote (ground (arith, closed)) in
      cc (char, same_s, same_rest)
  | inr open_still ↦ elim (Bool-cases (is_char b'\n' c)) [
    | inl newline ↦ absurd (cc (rw (open_still, newline) at h))
    | inr other ↦ elim (Option-cases (scan_string quote cs)) [
      | inl missing ↦ absurd (cc (rw (open_still, other, missing) at h))
      | inr ((s', rest'), found) ↦
          let same : some (c ∷ s', rest') ≡ some (s, rest) = rw (open_still, other, found) at h in
          let same_s : c ∷ s' ≡ s = cc same in
          let same_rest : rest' ≡ rest = cc same in
          let ih = scan_string_split quote cs s' rest' found in
          rw (← same_s, ← same_rest) (ap (◌∷◌ c) ih)
    ]
  ]
]

string_Piece :
    (c : Char) (cs s rest : List Char)
    → scan_string c cs ≡ some (s, rest)
    → Piece (c ∷ cs) (c ∷ s ++ (c ∷ [])) rest
string_Piece c cs s rest h =
    Piece-cons c (s ++ c ∷ []) rest cs
      (scan_string_split c cs s rest h ∙ sym (append_assoc s (c ∷ []) rest))

module _ (p : Platform) where
  -- A token that is not the end of input, on a run of characters off the front, or a message.
  unfoldable Lexes : List Char → Result String (TokenKind p.Float × List Char × List Char) → Type 0
  Lexes cs (err m) = Unit
  Lexes cs (ok (kind, s, rest)) = Piece cs s rest × (is_eof kind ≡ false)

  Lexes-if :
      (cs : List Char) (test : Bool)
      (x y : Result String (TokenKind p.Float × List Char × List Char))
      → Lexes cs x
      → Lexes cs y
      → Lexes cs (if test then x else y)
  Lexes-if cs true x y h k = h
  Lexes-if cs false x y h k = k

  Lexes-split :
      (cs : List Char) (test : Bool)
      (x y : Result String (TokenKind p.Float × List Char × List Char))
      → (test ≡ true → Lexes cs x)
      → (test ≡ false → Lexes cs y)
      → Lexes cs (if test then x else y)
  Lexes-split cs true x y h k = h refl
  Lexes-split cs false x y h k = k refl

  Lexes-err : (cs : List Char) (m : String) → Lexes cs (err m)
  unfolding Lexes
  Lexes-err cs m = tt

  Lexes-ok :
      (cs : List Char) (kind : TokenKind p.Float) (s rest : List Char)
      → Piece cs s rest
      → is_eof kind ≡ false
      → Lexes cs (ok (kind, s, rest))
  unfolding Lexes
  Lexes-ok cs kind s rest h k = (h, k)

  one_Piece : (c : Char) (cs : List Char) → Piece (c ∷ cs) (c ∷ []) cs
  one_Piece c cs = Piece-cons c [] cs cs refl

  Lexes-pair :
      (n : ℕ) (kind : TokenKind p.Float)
      (single : Result String (TokenKind p.Float × List Char × List Char)) (c : Char)
      (cs : List Char)
      → is_eof kind ≡ false
      → Lexes (c ∷ cs) single
      → Lexes (c ∷ cs) (pair p n kind single c cs)
  Lexes-pair n kind single c [] k h = h
  Lexes-pair n kind single c (d ∷ cs) k h =
      Lexes-if (c ∷ d ∷ cs) (is_char n d) (ok (kind, c ∷ d ∷ [], cs)) single
        (Lexes-ok _ kind (c ∷ d ∷ []) cs (record { splits = refl; shorter = omega arith }) k) h

  symbol_kind-Lexes : (c : Char) (cs : List Char) → Lexes (c ∷ cs) (symbol_kind p c cs)
  unfolding symbol_kind unexpected
  symbol_kind-Lexes c cs =
      let here = one_Piece c cs in
      let not_end : false ≡ false = refl in
      search (Lexes-if, Lexes-ok, Lexes-err, Lexes-pair) depth 30 fits 5000

  not_eof-if :
      (test : Bool) (x y : TokenKind p.Float)
      → is_eof x ≡ false
      → is_eof y ≡ false
      → is_eof (if test then x else y) ≡ false
  not_eof-if true x y h k = h
  not_eof-if false x y h k = k

  word_kind_not_eof : (s : String) → is_eof (word_kind p s) ≡ false
  unfolding word_kind
  word_kind_not_eof s = let not_end : false ≡ false = refl in search (not_eof-if) depth 40 fits 5000

  float_kind_not_eof :
      (r : Result String p.Float) (kind : TokenKind p.Float)
      → float_kind p r ≡ ok kind
      → is_eof kind ≡ false
  float_kind_not_eof (ok v) kind h = subst (λ k. is_eof k ≡ false) (ok_inj h) refl
  float_kind_not_eof (err m) kind h = absurd (cc h)

  number_kind_not_eof :
      (s : List Char) (is_float : Bool) (kind : TokenKind p.Float)
      → number_kind p s is_float ≡ ok kind
      → is_eof kind ≡ false
  unfolding number_kind
  number_kind_not_eof s true kind h = float_kind_not_eof (p.parse_f64 (of_chars s)) kind h
  number_kind_not_eof s false kind h = elim (Bool-cases (leb (digits_value 0 s) i64_max)) [
    | inl fits ↦ subst (λ k. is_eof k ≡ false) (ok_inj (rw fits at h)) refl
    | inr bad ↦ absurd (cc (rw bad at h))
  ]

  number_Lexes :
      (c : Char) (cs : List Char)
      → is_ascii_digit c ≡ true
      → Lexes (c ∷ cs) (number_lexed p (scan_digits false (c ∷ cs)))
  unfolding number_kind
  number_Lexes c cs digit = elim (Option-cases (scan_digits false (c ∷ cs))) [
    | inl missing ↦ rw (missing, number_lexed) (Lexes-err _ _)
    | inr ((s, is_float, rest), found) ↦
        let piece = digits_Piece c cs s rest is_float digit found in
        elim (Result-cases (number_kind p s is_float)) [
          | inr (m, bad) ↦ rw (found, number_lexed, bad) (Lexes-err _ _)
          | inl (kind, read) ↦
              rw (found, number_lexed, read)
                (Lexes-ok _ kind s rest piece (number_kind_not_eof s is_float kind read))
        ]
  ]

  string_Lexes : (c : Char) (cs : List Char) → Lexes (c ∷ cs) (string_kind p c (scan_string c cs))
  string_Lexes c cs = elim (Option-cases (scan_string c cs)) [
    | inl missing ↦ rw (missing, string_kind) (Lexes-err _ _)
    | inr ((s, rest), found) ↦
        rw (found, string_kind) (Lexes-ok _ _ _ _ (string_Piece c cs s rest found) refl)
  ]

  lex_kind-Lexes : (c : Char) (cs : List Char) → Lexes (c ∷ cs) (lex_kind p c cs)
  unfolding lex_kind
  lex_kind-Lexes c cs = Lexes-if (c ∷ cs) (is_char 39 c || is_char 34 c) _ _ (string_Lexes c cs) (
      Lexes-split (c ∷ cs) (is_ascii_digit c) _ _ (number_Lexes c cs) λ _.
        Lexes-split (c ∷ cs) (is_alphabetic p c || is_char b'_' c) _ _
          (λ word.
            Lexes-ok _ _ _ _
              (span-Piece (λ d. is_alphanumeric p d || is_char b'_' d) c cs (ground (arith, word)))
              (word_kind_not_eof
                (of_chars ((span (λ d. is_alphanumeric p d || is_char b'_' d) (c ∷ cs)).0))))
          λ _. symbol_kind-Lexes c cs)

  -- What a round does at a place whose bytes are counted: it takes a run of characters, counts its
  -- bytes, and a token that it makes has the run's place and size.
  unfoldable pub Moves : Cursor → List Char → Round p.Float → Type 0
  Moves at cs (skipped at' rest) =
      (s : List Char) × Piece cs s rest × (at'.byte ≡ at.byte + bytes s)
  Moves at cs (taken t at' rest) =
      (s : List Char) × Piece cs s rest
      × (at'.byte ≡ at.byte + bytes s)
      × (t.start ≡ at.byte)
      × (t.len ≡ bytes s)
      × (is_eof t.kind ≡ false)
  Moves at cs (refused m) = Unit

  Moves-split :
      (at : Cursor) (cs : List Char) (test : Bool) (x y : Round p.Float)
      → (test ≡ true → Moves at cs x)
      → (test ≡ false → Moves at cs y)
      → Moves at cs (if test then x else y)
  Moves-split at cs true x y h k = h refl
  Moves-split at cs false x y h k = k refl

  lexed-Moves :
      (at : Cursor) (cs : List Char) (r : Result String (TokenKind p.Float × List Char × List Char))
      → Lexes cs r
      → Moves at cs (lexed p at r)
  unfolding Moves Lexes
  lexed-Moves at cs (err m) h = tt
  lexed-Moves at cs (ok (kind, s, rest)) h = (s, h.0, refl, refl, refl, h.1)

  comment-Piece :
      (c : Char) (cs : List Char)
      → is_comment p c cs ≡ true
      → Piece (c ∷ cs) ((skip_comment (c ∷ cs)).0) ((skip_comment (c ∷ cs)).1)
  unfolding skip_comment
  comment-Piece c cs h =
      span-Piece (λ d. if is_char b'\n' d then false else true) c cs (ground (arith, h))

  -- Every round moves on.
  pub round-Moves : (at : Cursor) (c : Char) (cs : List Char) → Moves at (c ∷ cs) (round p at c cs)
  unfolding round Moves
  round-Moves at c cs =
      Moves-split at (c ∷ cs) (is_comment p c cs) _ _
        (λ comment. (_, comment-Piece c cs comment, refl))
        λ _.
          Moves-split at (c ∷ cs) (is_blank p c) _ _ (λ _. (c ∷ [], one_Piece c cs, refl))
            λ _.
              Moves-split at (c ∷ cs) (is_char b'\n' c) _ _
                (λ newline. (c ∷ [], one_Piece c cs, ground (arith, newline)))
                λ _. lexed-Moves at (c ∷ cs) (lex_kind p c cs) (lex_kind-Lexes c cs)
