-- ===== src/Ddl/Total.antt =====
-- Parsers of ddl/parser.rs that neither panic nor run forever: on tokens that lie in the source, as
-- those of `tokenize` do, they fail or leave no more tokens, which lie in it again.
use sig_topo.Base.{
  ℕ, zero, suc, ◌≤◌, ◌<◌, String, ◌≡◌, refl, Bool, true, false, List, [], ◌∷◌, length, arith,
  Bool-cases, inl, inr, ◌+◌, if◌then◌else◌,
}
use sig_topo.Json.{Platform}
use sig_topo.Ddl.Token.{TokenKind, Token, is_eof, eq_kind}
use sig_topo.Ddl.Laid.{Laid, Laid-weaken}
use sig_topo.Ddl.Parse.{
  Outcome, parsed, failed, panicked, endless, Next, again, finished, Parse, bind, ◌>>=◌, ◌>>◌,
  return, go, loop, repeat,
}
use sig_topo.Ddl.Parser.{peek, advance, fail_at, at, expect, ident_of, expect_any_ident}

module _ (p : Platform) (src : String) where
  -- At most `n` tokens are left, and they lie in the source; or the parser failed.
  abbrev pub Fine : {A : Type 0} → ℕ → Outcome p.Float A → Type 0
  Fine n (parsed a rest) = Laid src 0 rest × (length rest ≤ n)
  Fine n (failed m) = Unit
  Fine n panicked = ⊥
  Fine n endless = ⊥

  -- One more where a loop ends.
  abbrev pub FineStep : {S A : Type 0} → ℕ → Outcome p.Float (Next S A) → Type 0
  FineStep n (parsed (again s) rest) = Laid src 0 rest × (length rest ≤ n)
  FineStep n (parsed (finished a) rest) = Laid src 0 rest × (length rest ≤ suc n)
  FineStep n (failed m) = Unit
  FineStep n panicked = ⊥
  FineStep n endless = ⊥

  unfoldable pub Total : {A : Type 0} → Parse p.Float A → Type 0
  Total m = (n : ℕ) (ts : List (Token p.Float)) → Laid src 0 ts → length ts ≤ n → Fine n (m ts)

  -- It takes a token, too.
  unfoldable pub Taking : {A : Type 0} → Parse p.Float A → Type 0
  Taking m = (n : ℕ) (ts : List (Token p.Float)) → Laid src 0 ts → length ts ≤ suc n → Fine n (m ts)

  -- A round of a loop takes a token where the loop goes on.
  unfoldable pub Steps : {S A : Type 0} → Parse p.Float (Next S A) → Type 0
  Steps m =
      (n : ℕ) (ts : List (Token p.Float)) → Laid src 0 ts → length ts ≤ suc n → FineStep n (m ts)

  module _ {A B : Type 0} where
    Fine-bind :
        (n k : ℕ) (o : Outcome p.Float A) (f : A → Parse p.Float B)
        → Fine n o
        → ((a : A) (rest : List (Token p.Float))
            → Laid src 0 rest
            → length rest ≤ n
            → Fine k (f a rest))
        → Fine k (bind o f)
    Fine-bind n k (parsed a rest) f h next = next a rest h.0 h.1
    Fine-bind n k (failed m) f h next = tt
    Fine-bind n k panicked f h next = h
    Fine-bind n k endless f h next = h

    pub Total-bind :
        (m : Parse p.Float A) (f : A → Parse p.Float B)
        → Total m
        → ((a : A) → Total (f a))
        → Total (m >>= f)
    unfolding Total ◌>>=◌
    Total-bind m f h k n ts l s = Fine-bind n n (m ts) f (h n ts l s) λ a rest. k a n rest

    pub Total-then :
        (m : Parse p.Float A) (k : Parse p.Float B) → Total m → Total k → Total (m >> k)
    unfolding Total ◌>>◌
    Total-then m f h k n ts l s = Fine-bind n n (m ts) _ (h n ts l s) λ a rest. k n rest

    pub Taking-bind :
        (m : Parse p.Float A) (f : A → Parse p.Float B)
        → Taking m
        → ((a : A) → Total (f a))
        → Taking (m >>= f)
    unfolding Total Taking ◌>>=◌
    Taking-bind m f h k n ts l s = Fine-bind n n (m ts) f (h n ts l s) λ a rest. k a n rest

    pub Taking-then :
        (m : Parse p.Float A) (k : Parse p.Float B) → Taking m → Total k → Taking (m >> k)
    unfolding Total Taking ◌>>◌
    Taking-then m f h k n ts l s = Fine-bind n n (m ts) _ (h n ts l s) λ a rest. k n rest

    -- The token is taken later.
    pub Taking-after :
        (m : Parse p.Float A) (f : A → Parse p.Float B)
        → Total m
        → ((a : A) → Taking (f a))
        → Taking (m >>= f)
    unfolding Total Taking ◌>>=◌
    Taking-after m f h k n ts l s =
        Fine-bind (suc n) n (m ts) f (h (suc n) ts l s) λ a rest. k a n rest

    pub Taking-then_after :
        (m : Parse p.Float A) (k : Parse p.Float B) → Total m → Taking k → Taking (m >> k)
    unfolding Total Taking ◌>>◌
    Taking-then_after m f h k n ts l s =
        Fine-bind (suc n) n (m ts) _ (h (suc n) ts l s) λ a rest. k n rest

  module _ {A : Type 0} where
    pub Total-of_Taking : (m : Parse p.Float A) → Taking m → Total m
    unfolding Total Taking
    Total-of_Taking m h n ts l s = h n ts l (omega arith)

    pub Total-return : (a : A) → Total (return a)
    unfolding Total return
    Total-return a n ts l s = (l, s)

    pub Total-if :
        (test : Bool) (x y : Parse p.Float A) → Total x → Total y → Total (if test then x else y)
    Total-if true x y h k = h
    Total-if false x y h k = k

    pub Taking-if :
        (test : Bool) (x y : Parse p.Float A) → Taking x → Taking y → Taking (if test then x else y)
    Taking-if true x y h k = h
    Taking-if false x y h k = k

  pub Taking-fail : (A : Type 0) (t : Token p.Float) (m : String) → Taking (fail_at p {A = A} t m)
  unfolding Taking fail_at
  Taking-fail A t m n ts l s = tt

  pub Total-peek : Total (peek p)
  unfolding Total peek
  Total-peek n [] l s = l
  Total-peek n (t ∷ ts) l s = (l, s)

  pub Total-advance : Total (advance p)
  unfolding Total advance
  Total-advance n [] l s = l
  Total-advance n (t ∷ []) l s = (l, s)
  Total-advance n (t ∷ u ∷ ts) (_, _, _, _, l) s =
      (Laid-weaken src 0 (t.start + t.len) (u ∷ ts) (omega arith) l, omega arith)

  pub Total-at : (kind : TokenKind p.Float) → Total (at p kind)
  unfolding at
  Total-at kind = Total-bind (peek p) _ Total-peek λ t. Total-return _

  -- Only the end of input is the last token, and it is of no other kind.
  pub eq_kind_eof :
      (a b : TokenKind p.Float) → is_eof a ≡ false → is_eof b ≡ true → eq_kind p a b ≡ false
  unfolding eq_kind
  eq_kind_eof TokenKind.eof TokenKind.eof h k = absurd (cc h)
  eq_kind_eof TokenKind.signal TokenKind.eof h k = refl
  eq_kind_eof _ TokenKind.eof h k = refl
  eq_kind_eof a _ h k = absurd (cc k)

  pub Taking-expect : (kind : TokenKind p.Float) → is_eof kind ≡ false → Taking (expect p kind)
  unfolding Taking expect advance fail_at
  Taking-expect kind h n [] l s = l
  Taking-expect kind h n (t ∷ []) l s = rw (eq_kind_eof kind t.kind h l) tt
  Taking-expect kind h n (t ∷ u ∷ ts) (_, _, _, _, l) s =
      elim (Bool-cases (eq_kind p kind t.kind)) [
        | inl same ↦
            rw same (Laid-weaken src 0 (t.start + t.len) (u ∷ ts) (omega arith) l, omega arith)
        | inr other ↦ rw other tt
      ]

  ident_of-Taking :
      (kind : TokenKind p.Float) (t : Token p.Float) (n : ℕ) (ts : List (Token p.Float))
      → (ident_is : is_eof kind ≡ is_eof t.kind) → Laid src 0 (t ∷ ts)
      → length (t ∷ ts) ≤ suc n
      → Fine n (ident_of p kind t (t ∷ ts))
  unfolding ident_of advance return fail_at ◌>>=◌
  ident_of-Taking (TokenKind.identifier s) t n [] e l k = absurd (cc (e, l))
  ident_of-Taking (TokenKind.identifier s) t n (u ∷ ts) e (_, _, _, _, l) k =
      (Laid-weaken src 0 (t.start + t.len) (u ∷ ts) (omega arith) l, omega arith)
  ident_of-Taking TokenKind.signal t n ts e l k = tt
  ident_of-Taking _ t n ts e l k = tt

  pub Taking-expect_any_ident : Taking (expect_any_ident p)
  unfolding Taking expect_any_ident
  Taking-expect_any_ident n [] l s = l
  Taking-expect_any_ident n (t ∷ ts) l s = ident_of-Taking t.kind t n ts refl l s

  pub Steps-finished : (S A : Type 0) (a : A) → Steps (return {A = Next S A} (finished a))
  unfolding Steps return
  Steps-finished S A a n ts l s = (l, s)

  -- The rules for the rounds of a loop.
  module _ {S A : Type 0} where
    FineStep-of_Fine : (n : ℕ) (o : Outcome p.Float (Next S A)) → Fine n o → FineStep n o
    FineStep-of_Fine n (parsed (again s) rest) h = h
    FineStep-of_Fine n (parsed (finished a) rest) h = (h.0, omega (arith, h.1))
    FineStep-of_Fine n (failed m) h = tt
    FineStep-of_Fine n panicked h = h
    FineStep-of_Fine n endless h = h

    pub Steps-of_Taking : (m : Parse p.Float (Next S A)) → Taking m → Steps m
    unfolding Taking Steps
    Steps-of_Taking m h n ts l s = FineStep-of_Fine n (m ts) (h n ts l s)

    pub Steps-if :
        (test : Bool) (x y : Parse p.Float (Next S A))
        → Steps x
        → Steps y
        → Steps (if test then x else y)
    Steps-if true x y h k = h
    Steps-if false x y h k = k

    FineStep-bind :
        {B : Type 0} (n k : ℕ) (o : Outcome p.Float B) (f : B → Parse p.Float (Next S A))
        → Fine n o
        → ((b : B) (rest : List (Token p.Float))
            → Laid src 0 rest
            → length rest ≤ n
            → FineStep k (f b rest))
        → FineStep k (bind o f)
    FineStep-bind n k (parsed a rest) f h next = next a rest h.0 h.1
    FineStep-bind n k (failed m) f h next = tt
    FineStep-bind n k panicked f h next = h
    FineStep-bind n k endless f h next = h

    pub Steps-after :
        {B : Type 0} (m : Parse p.Float B) (f : B → Parse p.Float (Next S A))
        → Total m
        → ((b : B) → Steps (f b))
        → Steps (m >>= f)
    unfolding Total Steps ◌>>=◌
    Steps-after m f h k n ts l s =
        FineStep-bind (suc n) n (m ts) f (h (suc n) ts l s) λ b rest. k b n rest

    pub Steps-then_after :
        {B : Type 0} (m : Parse p.Float B) (k : Parse p.Float (Next S A))
        → Total m
        → Steps k
        → Steps (m >> k)
    unfolding Total Steps ◌>>◌
    Steps-then_after m f h k n ts l s =
        FineStep-bind (suc n) n (m ts) _ (h (suc n) ts l s) λ b rest. k n rest

    go-Fine :
        (n k : ℕ) (o : Outcome p.Float (Next S A)) (continue : S → Parse p.Float A)
        → suc k ≤ n
        → FineStep k o
        → ((s : S) (rest : List (Token p.Float))
            → Laid src 0 rest
            → length rest ≤ k
            → Fine n (continue s rest))
        → Fine n (bind o (go continue))
    unfolding return
    go-Fine n k (parsed (again s) rest) continue b h next = next s rest h.0 h.1
    go-Fine n k (parsed (finished a) rest) continue b h next = (h.0, omega (arith, h.1))
    go-Fine n k (failed m) continue b h next = tt
    go-Fine n k panicked continue b h next = h
    go-Fine n k endless continue b h next = h

    -- With more rounds than tokens a loop ends.
    loop-Fine :
        (fuel : ℕ) (step : S → Parse p.Float (Next S A)) (s : S) (n : ℕ) (ts : List (Token p.Float))
        → ((s' : S) → Steps (step s'))
        → Laid src 0 ts
        → length ts ≤ n
        → length ts < fuel
        → Fine n (loop fuel step s ts)
    unfolding loop Steps
    loop-Fine zero step s n ts h l b f = absurd (omega arith)
    loop-Fine (suc fuel) step s n [] h l b f = absurd l
    loop-Fine (suc fuel) step s n (t ∷ ts) h l b f =
        go-Fine n (length ts) (step s (t ∷ ts)) (loop fuel step) (omega arith)
          (h s (length ts) (t ∷ ts) l (omega arith))
          λ s' rest l' b'. loop-Fine fuel step s' n rest h l' (omega arith) (omega arith)

    pub Total-repeat :
        (step : S → Parse p.Float (Next S A)) (s : S)
        → ((s' : S) → Steps (step s'))
        → Total (repeat step s)
    unfolding Total repeat
    Total-repeat step s h n ts l b = loop-Fine (suc (length ts)) step s n ts h l b (omega arith)
