-- ===== src/Ddl/Parse.antt =====
-- The methods of `Parser` in ddl/parser.rs as functions of the tokens left. Beside a result and a
-- message there are a panic and a loop that never ends, for what the source could do on tokens that
-- `tokenize` does not yield.
use sig_topo.Base.{ℕ, zero, suc, String, List, length}
use sig_topo.Ddl.Token.{Token}

pub data Outcome (F A : Type 0) : Type 0 where
  parsed : A → List (Token F) → Outcome F A
  failed : String → Outcome F A
  panicked : Outcome F A
  endless : Outcome F A

-- Whether a loop goes on, with its new state, or has a result.
pub data Next (S A : Type 0) : Type 0 where
  again : S → Next S A
  finished : A → Next S A

module _ {F : Type 0} where
  abbrev pub bind : {A B : Type 0} → Outcome F A → (A → List (Token F) → Outcome F B) → Outcome F B
  bind (parsed a rest) f = f a rest
  bind (failed m) f = failed m
  bind panicked f = panicked
  bind endless f = endless

abbrev pub Parse : Type 0 → Type 0 → Type 0
Parse F A = List (Token F) → Outcome F A

infixl 5 ◌>>=◌ ◌>>◌
unfoldable pub ◌>>=◌ : {F A B : Type 0} → Parse F A → (A → Parse F B) → Parse F B
◌>>=◌ m f ts = bind (m ts) f

unfoldable pub ◌>>◌ : {F A B : Type 0} → Parse F A → Parse F B → Parse F B
◌>>◌ m k ts = bind (m ts) λ _. k

unfoldable pub return : {F A : Type 0} → A → Parse F A
return a ts = parsed a ts

abbrev pub go : {F S A : Type 0} → (S → Parse F A) → Next S A → Parse F A
go continue (again s) = continue s
go continue (finished a) = return a

-- A loop with its state, for at most that many rounds.
unfoldable pub loop : {F S A : Type 0} → ℕ → (S → Parse F (Next S A)) → S → Parse F A
loop zero step s ts = endless
loop (suc fuel) step s ts = bind (step s ts) (go (loop fuel step))

-- One round for each token left, and one more.
unfoldable pub repeat : {F S A : Type 0} → (S → Parse F (Next S A)) → S → Parse F A
unfolding loop return
repeat step s ts = loop (suc (length ts)) step s ts
