-- ===== src/Ddl/Texts.antt =====
-- Guards and blocks of ddl/parser.rs that are cut out of the source: the cuts do not panic.
use sig_topo.Base.{
  ℕ, suc, ◌≤◌, String, ◌≡◌, refl, true, false, ◌&&◌, List, [], ◌∷◌, length, nat_eq, arith,
  Bool-cases, inl, inr,
}
use sig_topo.Json.{Platform}
use sig_topo.Ddl.Token.{TokenKind, Token, is_eof, eq_kind}
use sig_topo.Ddl.Slice.{trim}
use sig_topo.Ddl.Laid.{Boundary, Laid, Laid-weaken}
use sig_topo.Ddl.Slices.{slice_defined}
use sig_topo.Ddl.Parse.{Outcome, parsed, failed, panicked, endless, bind, ◌>>=◌, return}
use sig_topo.Ddl.Parser.{
  token_end, peek, advance, fail_at, expect, is_terminator, guard_end, source_slice, guard_text,
  closes_brace, depth_after, block_end, parse_raw_brace_block,
}
use sig_topo.Ddl.Total.{Fine, Total, Taking, eq_kind_eof}

module _ (p : Platform) (src : String) where
  sliced-Fine :
      (start end n : ℕ) (ts : List (Token p.Float))
      → Boundary src start
      → Boundary src end
      → start ≤ end
      → Laid src 0 ts
      → length ts ≤ n
      → Fine p src n (source_slice p src start end ts)
  unfolding source_slice
  sliced-Fine start end n ts a b le l s =
      let (text, found) = slice_defined src start end a b le in rw found (l, s)

  -- The guard ends at a token that starts no earlier than `start`.
  abbrev EndsGuard : ℕ → ℕ → Outcome p.Float (ℕ × Token p.Float) → Type 0
  EndsGuard start n (parsed (k, last) rest) =
      Boundary src (token_end last) × (start ≤ token_end last) × Laid src 0 rest × (length rest ≤ n)
  EndsGuard start n (failed m) = ⊥
  EndsGuard start n panicked = ⊥
  EndsGuard start n endless = ⊥

  terminator_eof : (kind : TokenKind p.Float) → is_eof kind ≡ true → is_terminator p kind ≡ true
  terminator_eof TokenKind.eof h = refl
  terminator_eof TokenKind.signal h = absurd (cc h)
  terminator_eof _ h = absurd (cc h)

  guard_end-EndsGuard :
      (start n k : ℕ) (last : Token p.Float) (ts : List (Token p.Float))
      → Boundary src (token_end last)
      → start ≤ token_end last
      → Laid src (token_end last) ts
      → length ts ≤ n
      → EndsGuard start n (guard_end p k last ts)
  unfolding guard_end
  guard_end-EndsGuard start n k last [] b le l s = absurd l
  guard_end-EndsGuard start n k last (t ∷ []) b le l s = rw (terminator_eof t.kind l) (b, le, l, s)
  guard_end-EndsGuard start n k last (t ∷ u ∷ ts) b le (other, from, b0, b1, l) s =
      elim (Bool-cases (is_terminator p t.kind)) [
        | inl ends ↦ rw ends (b, le, (other, omega arith, b0, b1, l), s)
        | inr more ↦
            rw more
              (guard_end-EndsGuard start n (suc k) t (u ∷ ts) b1 (omega arith) l (omega arith))
      ]

  Fine-cut :
      (start n : ℕ) (o : Outcome p.Float (ℕ × Token p.Float)) (first : Token p.Float)
      → Boundary src first.start
      → EndsGuard first.start n o
      → Fine p src {A = Token p.Float × ℕ × String} n (
          bind o λ reached. source_slice p src first.start (token_end (reached.1)) >>= λ text.
          return (first, reached.0, trim p text))
  unfolding source_slice return ◌>>=◌
  Fine-cut start n (parsed (k, last) rest) first b (b', le, l, s) =
      let (text, found) = slice_defined src first.start (token_end last) b b' le in rw found (l, s)
  Fine-cut start n (failed m) first b h = absurd h
  Fine-cut start n panicked first b h = h
  Fine-cut start n endless first b h = h

  -- A guard's text is cut out of the source.
  pub Total-guard_text : Total p src (guard_text p src)
  unfolding Total guard_text peek fail_at ◌>>=◌
  Total-guard_text n [] l s = l
  Total-guard_text n (t ∷ []) l s = rw (terminator_eof t.kind l) tt
  Total-guard_text n (t ∷ u ∷ ts) l s = elim (Bool-cases (is_terminator p t.kind)) [
    | inl ends ↦ rw ends tt
    | inr more ↦ rw more (
        Fine-cut 0 n (guard_end p 0 t (t ∷ u ∷ ts)) t l.2 (
          unfold guard_end in
          rw more (guard_end-EndsGuard t.start n 1 t (u ∷ ts) l.3 (omega arith) l.4 (omega arith))))
  ]

  abbrev EndsBlock : ℕ → ℕ → Outcome p.Float ℕ → Type 0
  EndsBlock start n (parsed end rest) =
      Boundary src end × (start ≤ end) × Laid src 0 rest × (length rest ≤ n)
  EndsBlock start n (failed m) = Unit
  EndsBlock start n panicked = ⊥
  EndsBlock start n endless = ⊥

  closes_eof : (kind : TokenKind p.Float) → is_eof kind ≡ true → closes_brace p kind ≡ false
  closes_eof TokenKind.eof h = refl
  closes_eof TokenKind.signal h = absurd (cc h)
  closes_eof _ h = absurd (cc h)

  block_end-EndsBlock :
      (start n from depth : ℕ) (ts : List (Token p.Float))
      → start ≤ from
      → Laid src from ts
      → length ts ≤ n
      → EndsBlock start n (block_end p depth ts)
  unfolding block_end fail_at
  block_end-EndsBlock start n from depth [] le l s = absurd l
  block_end-EndsBlock start n from depth (t ∷ []) le l s = rw (closes_eof t.kind l, l) tt
  block_end-EndsBlock start n from depth (t ∷ u ∷ ts) le (other, begins, b0, b1, l) s =
      let depth' = depth_after p t.kind depth in
      elim (Bool-cases (closes_brace p t.kind && nat_eq depth' 0)) [
        | inl closed ↦
            rw closed (
              b1,
              omega arith,
              Laid-weaken src 0 (token_end t) (u ∷ ts) (omega arith) l,
              omega arith,
            )
        | inr more ↦
            rw (more, other)
              (block_end-EndsBlock start n (token_end t) depth' (u ∷ ts) (omega arith) l
                (omega arith))
      ]

  Fine-block :
      (start n : ℕ) (o : Outcome p.Float ℕ)
      → Boundary src start
      → EndsBlock start n o
      → Fine p src n (bind o (source_slice p src start))
  Fine-block start n (parsed end rest) b (b', le, l, s) = sliced-Fine start end n rest b b' le l s
  Fine-block start n (failed m) b h = tt
  Fine-block start n panicked b h = h
  Fine-block start n endless b h = h

  -- A block's text, its braces included, is cut out of the source.
  pub Taking-parse_raw_brace_block : Taking p src (parse_raw_brace_block p src)
  unfolding Taking parse_raw_brace_block expect advance fail_at ◌>>=◌
  Taking-parse_raw_brace_block n [] l s = l
  Taking-parse_raw_brace_block n (t ∷ []) l s =
      rw (eq_kind_eof p src TokenKind.lbrace t.kind refl l) tt
  Taking-parse_raw_brace_block n (t ∷ u ∷ ts) (other, begins, b0, b1, l) s =
      elim (Bool-cases (eq_kind p TokenKind.lbrace t.kind)) [
        | inl opened ↦ rw opened (
            Fine-block t.start n (block_end p 1 (u ∷ ts)) b0 (
              block_end-EndsBlock t.start n (token_end t) 1 (u ∷ ts) (omega arith) l (omega arith)))
        | inr wrong ↦ rw wrong tt
      ]
