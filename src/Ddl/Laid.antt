-- ===== src/Ddl/Laid.antt =====
-- `tokenize` of ddl/lexer.rs: where the tokens lie in the source, and that it has enough rounds.
use sig_topo.Base.{
  ℕ, zero, suc, ◌+◌, ◌≤◌, ◌<◌, String, Char, ◌≡◌, refl, sym, ap, subst, ◌∙◌, append_assoc, true,
  false, List, [], ◌∷◌, ◌++◌, length, arith, Result, ok, and_then-eq-ok, ok_inj,
}
use sig_topo.Base.Text.{chars}
use sig_topo.Json.{Platform}
use sig_topo.Ddl.Token.{Token, is_eof}
use sig_topo.Ddl.Lexer.{
  bytes, Cursor, Round, skipped, taken, refused, round, resume, tokens_from, tokenize, begin,
}
use sig_topo.Ddl.Pieces.{Moves, round-Moves}

-- The offset stands between two characters of the source.
pub record Boundary (src : String) (n : ℕ) : Type 0 where
  pub before : List Char
  pub rest : List Char
  pub splits : chars src ≡ before ++ rest
  pub measured : n ≡ bytes before

-- From an offset on: each token but the last starts no earlier than the one before it ends, starts
-- and ends between characters, and is not the end of input; the last is.
abbrev pub Laid : {F : Type 0} → String → ℕ → List (Token F) → Type 0
Laid src from [] = ⊥
Laid src from (t ∷ []) = is_eof t.kind ≡ true
Laid src from (t ∷ u ∷ ts) =
    (is_eof t.kind ≡ false)
    × (from ≤ t.start)
    × Boundary src t.start
    × Boundary src (t.start + t.len)
    × Laid src (t.start + t.len) (u ∷ ts)

pub bytes-append : (xs ys : List Char) → bytes (xs ++ ys) ≡ bytes xs + bytes ys
bytes-append [] ys = omega arith
bytes-append (x ∷ xs) ys = omega (arith, bytes-append xs ys)

pub Laid-weaken :
    {F : Type 0} (src : String) (m n : ℕ) (ts : List (Token F))
    → m ≤ n
    → Laid src n ts
    → Laid src m ts
Laid-weaken src m n [] h l = l
Laid-weaken src m n (t ∷ []) h l = l
Laid-weaken src m n (t ∷ u ∷ ts) h (a, b, c, d, e) = (a, omega arith, c, d, e)

module _ (p : Platform) where
  Laid-cons :
      (src : String) (from : ℕ) (t : Token p.Float) (ts : List (Token p.Float))
      → is_eof t.kind ≡ false
      → from ≤ t.start
      → Boundary src t.start
      → Boundary src (t.start + t.len)
      → Laid src (t.start + t.len) ts
      → Laid src from (t ∷ ts)
  Laid-cons src from t [] a b c d e = absurd e
  Laid-cons src from t (u ∷ ts) a b c d e = (a, b, c, d, e)

  -- Past a run of characters.
  moved :
      (src : String) (before cs s rest : List Char)
      → chars src ≡ before ++ cs
      → cs ≡ s ++ rest
      → chars src ≡ (before ++ s) ++ rest
  moved src before cs s rest h k = h ∙ ap (◌++◌ before) k ∙ sym (append_assoc before s rest)

  -- The tokens of the rounds from a place on lie in order.
  abbrev Lays : String → (Cursor → List Char → Result String (List (Token p.Float))) → Type 0
  Lays src next =
      (at : Cursor) (before cs : List Char) (tokens : List (Token p.Float))
      → chars src ≡ before ++ cs
      → at.byte ≡ bytes before
      → next at cs ≡ ok tokens
      → Laid src at.byte tokens

  resume-Laid :
      (src : String) (next : Cursor → List Char → Result String (List (Token p.Float)))
      (at : Cursor) (before cs : List Char) (tokens : List (Token p.Float)) (r : Round p.Float)
      → Lays src next
      → chars src ≡ before ++ cs
      → at.byte ≡ bytes before
      → Moves p at cs r
      → resume p next r ≡ ok tokens
      → Laid src at.byte tokens
  unfolding Moves
  resume-Laid src next at before cs tokens (skipped at' rest) ih here counted (s, piece, size) h =
      Laid-weaken src at.byte at'.byte tokens (omega (arith, size)) (
        ih at' (before ++ s) rest tokens (moved src before cs s rest here piece.splits)
          (omega (arith, size, counted, bytes-append before s)) h)
  resume-Laid src next at before cs tokens (taken t at' rest) ih here counted
        (s, piece, size, start, len, other) h =
      let (ts, lexed, made) = and_then-eq-ok (next at' rest) _ h in
      let past = moved src before cs s rest here piece.splits in
      let end : at'.byte ≡ bytes (before ++ s) =
        omega (arith, size, counted, bytes-append before s) in
      let same : t.start + t.len ≡ at'.byte = omega (arith, size, start, len) in
      subst (Laid src at.byte) (ok_inj made) (
        Laid-cons src at.byte t ts other (omega (arith, start))
          (record { before = before; rest = cs; splits = here; measured = start ∙ counted })
          (record { before = before ++ s; rest = rest; splits = past; measured = same ∙ end })
          (rw same (ih at' (before ++ s) rest ts past end lexed)))
  resume-Laid src next at before cs tokens (refused m) ih here counted moves h = absurd (cc h)

  tokens_from-Laid : (src : String) (fuel : ℕ) → Lays src (tokens_from p fuel)
  unfolding tokens_from
  tokens_from-Laid src fuel at before [] tokens here counted h =
      subst (Laid src at.byte) (ok_inj h) refl
  tokens_from-Laid src zero at before (c ∷ cs) tokens here counted h =
      subst (Laid src at.byte) (ok_inj h) refl
  tokens_from-Laid src (suc fuel) at before (c ∷ cs) tokens here counted h =
      resume-Laid src (tokens_from p fuel) at before (c ∷ cs) tokens (round p at c cs)
        (tokens_from-Laid src fuel) here counted (round-Moves p at c cs) h

  -- The tokens of an accepted source lie in it in order: each but the last starts where the one
  -- before it has ended or later, starts and ends between two characters, and is not the end of
  -- input, which the last is.
  pub tokenize-Laid :
      (src : String) (tokens : List (Token p.Float))
      → tokenize p src ≡ ok tokens
      → Laid src 0 tokens
  unfolding tokenize
  tokenize-Laid src tokens h =
      tokens_from-Laid src (length (chars src)) begin [] (chars src) tokens refl refl h

  resume_fuel :
      (n : ℕ) (next other : Cursor → List Char → Result String (List (Token p.Float))) (at : Cursor)
      (cs : List Char) (r : Round p.Float)
      → ((at' : Cursor) (rest : List Char)
          → length rest < length cs
          → next at' rest ≡ other at' rest)
      → Moves p at cs r
      → resume p next r ≡ resume p other r
  unfolding Moves
  resume_fuel n next other at cs (skipped at' rest) same (s, piece, size) =
      same at' rest piece.shorter
  resume_fuel n next other at cs (taken t at' rest) same moves =
      rw (same at' rest moves.1.shorter) refl
  resume_fuel n next other at cs (refused m) same moves = refl

  tokens_from_fuel :
      (n m : ℕ) (at : Cursor) (cs : List Char)
      → length cs ≤ n
      → length cs ≤ m
      → tokens_from p n at cs ≡ tokens_from p m at cs
  unfolding tokens_from
  tokens_from_fuel n m at [] h k = refl
  tokens_from_fuel zero m at (c ∷ cs) h k = absurd (omega arith)
  tokens_from_fuel (suc n) zero at (c ∷ cs) h k = absurd (omega arith)
  tokens_from_fuel (suc n) (suc m) at (c ∷ cs) h k =
      resume_fuel n (tokens_from p n) (tokens_from p m) at (c ∷ cs) (round p at c cs)
        (λ at' rest less. tokens_from_fuel n m at' rest (omega arith) (omega arith))
        (round-Moves p at c cs)

  -- The rounds that `tokenize` hands out, one for each character, are enough: with any larger number
  -- the loop gives the same tokens, or fails with the same message.
  pub tokenize_rounds :
      (src : String) (n : ℕ)
      → length (chars src) ≤ n
      → tokenize p src ≡ tokens_from p n begin (chars src)
  unfolding tokenize
  tokenize_rounds src n h =
      tokens_from_fuel (length (chars src)) n begin (chars src) (omega arith) h
