-- ===== src/Ddl/Yields.antt =====
-- What holds of the results of parsers, whatever tokens they are given.
use sig_topo.Base.{ℕ, zero, suc, String, ◌≡◌, refl, Bool, true, false, List, length, if◌then◌else◌}
use sig_topo.Ddl.Token.{Token}
use sig_topo.Ddl.Parse.{
  Outcome, parsed, failed, panicked, endless, Next, again, finished, Parse, bind, ◌>>=◌, ◌>>◌,
  return, go, loop, repeat,
}

-- The state of a loop that goes on, or its result.
abbrev pub Either : {S A : Type 0} → (S → Type 0) → (A → Type 0) → Next S A → Type 0
Either I Q (again s) = I s
Either I Q (finished a) = Q a

module _ (F : Type 0) where
  abbrev pub Gives : {A : Type 0} → (A → Type 0) → Outcome F A → Type 0
  Gives Q (parsed a rest) = Q a
  Gives Q (failed m) = Unit
  Gives Q panicked = Unit
  Gives Q endless = Unit

  -- Every result satisfies the predicate.
  unfoldable pub Yields : {A : Type 0} → (A → Type 0) → Parse F A → Type 0
  Yields Q m = (ts : List (Token F)) → Gives Q (m ts)

  any : {A : Type 0} (o : Outcome F A) → Gives (λ _. Unit) o
  any (parsed a rest) = tt
  any (failed m) = tt
  any panicked = tt
  any endless = tt

  module _ {A B : Type 0} where
    Gives-bind :
        (P : A → Type 0) (Q : B → Type 0) (o : Outcome F A) (f : A → Parse F B)
        → Gives P o
        → ((a : A) → P a → (rest : List (Token F)) → Gives Q (f a rest))
        → Gives Q (bind o f)
    Gives-bind P Q (parsed a rest) f h next = next a h rest
    Gives-bind P Q (failed m) f h next = tt
    Gives-bind P Q panicked f h next = tt
    Gives-bind P Q endless f h next = tt

    pub Yields-keep :
        (P : A → Type 0) (Q : B → Type 0) (m : Parse F A) (f : A → Parse F B)
        → Yields P m
        → ((a : A) → P a → Yields Q (f a))
        → Yields Q (m >>= f)
    unfolding Yields ◌>>=◌
    Yields-keep P Q m f h next ts = Gives-bind P Q (m ts) f (h ts) next

    pub Yields-bind :
        (Q : B → Type 0) (m : Parse F A) (f : A → Parse F B)
        → ((a : A) → Yields Q (f a))
        → Yields Q (m >>= f)
    unfolding Yields ◌>>=◌
    Yields-bind Q m f next ts = Gives-bind (λ _. Unit) Q (m ts) f (any (m ts)) λ a _. next a

    pub Yields-then :
        (Q : B → Type 0) (m : Parse F A) (k : Parse F B) → Yields Q k → Yields Q (m >> k)
    unfolding Yields ◌>>◌
    Yields-then Q m k next ts = Gives-bind (λ _. Unit) Q (m ts) _ (any (m ts)) λ a _. next

  module _ {A : Type 0} where
    pub Yields-return : (Q : A → Type 0) (a : A) → Q a → Yields Q (return a)
    unfolding Yields return
    Yields-return Q a h ts = h

    pub Yields-split :
        (Q : A → Type 0) (test : Bool) (x y : Parse F A)
        → (test ≡ true → Yields Q x)
        → (test ≡ false → Yields Q y)
        → Yields Q (if test then x else y)
    Yields-split Q true x y h k = h refl
    Yields-split Q false x y h k = k refl

    Gives-weaken :
        (P Q : A → Type 0) (o : Outcome F A) → Gives P o → ((a : A) → P a → Q a) → Gives Q o
    Gives-weaken P Q (parsed a rest) h k = k a h
    Gives-weaken P Q (failed m) h k = tt
    Gives-weaken P Q panicked h k = tt
    Gives-weaken P Q endless h k = tt

    pub Yields-weaken :
        (P Q : A → Type 0) (m : Parse F A) → Yields P m → ((a : A) → P a → Q a) → Yields Q m
    unfolding Yields
    Yields-weaken P Q m h k ts = Gives-weaken P Q (m ts) (h ts) k

    -- A parser that only fails.
    pub Yields-failed :
        (Q : A → Type 0) (m : Parse F A)
        → ((ts : List (Token F)) → (s : String) × (m ts ≡ failed s))
        → Yields Q m
    unfolding Yields
    Yields-failed Q m h ts = rw ((h ts).1) tt

  module _ {S A : Type 0} (I : S → Type 0) (Q : A → Type 0) where
    go-Gives :
        (o : Outcome F (Next S A)) (continue : S → Parse F A)
        → Gives (Either I Q) o
        → ((s : S) → I s → (rest : List (Token F)) → Gives Q (continue s rest))
        → Gives Q (bind o (go continue))
    unfolding return
    go-Gives (parsed (again s) rest) continue h next = next s h rest
    go-Gives (parsed (finished a) rest) continue h next = h
    go-Gives (failed m) continue h next = tt
    go-Gives panicked continue h next = tt
    go-Gives endless continue h next = tt

    loop-Gives :
        (step : S → Parse F (Next S A))
        → ((s : S) → I s → Yields (Either I Q) (step s))
        → (fuel : ℕ) (s : S) → I s
        → (ts : List (Token F)) → Gives Q (loop fuel step s ts)
    unfolding loop Yields
    loop-Gives step keep zero s h ts = tt
    loop-Gives step keep (suc fuel) s h ts =
        go-Gives (step s ts) (loop fuel step) (keep s h ts) (loop-Gives step keep fuel)

    -- A loop from a state that satisfies its invariant.
    pub Yields-repeat :
        (step : S → Parse F (Next S A)) (s : S)
        → I s
        → ((s' : S) → I s' → Yields (Either I Q) (step s'))
        → Yields Q (repeat step s)
    unfolding Yields repeat
    Yields-repeat step s h keep ts = loop-Gives step keep (suc (length ts)) s h ts
