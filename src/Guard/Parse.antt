-- ===== src/Guard/Parse.antt =====
-- Parsers as functions of the tokens left, with a message on failure, and a separate outcome for
-- fuel that ran out, which the source does not have.
use sig_topo.Base.{String, List}

pub data Outcome {ℓ} (T A : Type ℓ) : Type ℓ where
  parsed : A → List T → Outcome T A
  failed : String → Outcome T A
  out_of_fuel : Outcome T A

abbrev pub Parse {ℓ} : Type ℓ → Type ℓ → Type ℓ
Parse T A = List T → Outcome T A

module _ {ℓ} {T : Type ℓ} where
  abbrev pub bind : {A B : Type ℓ} → Outcome T A → (A → Parse T B) → Outcome T B
  bind (parsed a ts) f = f a ts
  bind (failed m) f = failed m
  bind out_of_fuel f = out_of_fuel
