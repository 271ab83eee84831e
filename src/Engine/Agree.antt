-- ===== src/Engine/Agree.antt =====
-- Two actions agree on the states of one depth limit.
use sig_topo.Base.{ℕ, ◌≡◌, refl, ap, ◌∙◌, Result, ok, err}
use sig_topo.Json.{Platform}
use sig_topo.Error.{EngineError}
use sig_topo.Engine.State.{Engine, Act, capture, ◌>>=◌, lift}
use sig_topo.Engine.Holds.{Holds}
use sig_topo.Engine.Relations.{Refines}

module _ {p : Platform} (limit : ℕ) where
  pub record Agree {A : Type 0} (m m' : Act p A) : Type 0 where
    pub on : (e : Engine p) → e.max_cascade_depth ≡ limit → m e ≡ m' e

  pub Agree-refl : {A : Type 0} (m : Act p A) → Agree m m
  Agree-refl m = record { on = λ e h. refl }

  pub Agree-capture : {A : Type 0} (m m' : Act p A) → Agree m m' → Agree (capture m) (capture m')
  unfolding capture
  Agree-capture m m' h = record {
    on = λ e l. ap (λ (r : Result EngineError _ × Engine p). (ok r.0, r.1)) (h.on e l);
  }

  continue-Agree :
      {A B : Type 0} (f f' : A → Act p B) (r : Result EngineError A) (e : Engine p)
      → e.max_cascade_depth ≡ limit
      → ((a : A) → Agree (f a) (f' a))
      → (lift r >>= f) e ≡ (lift r >>= f') e
  unfolding ◌>>=◌
  continue-Agree f f' (ok a) e l h = (h a).on e l
  continue-Agree f f' (err x) e l h = refl

  -- The first action keeps the depth limit, so the rests are compared where they agree.
  pub Agree-bind :
      {A B : Type 0} (m m' : Act p A) (f f' : A → Act p B)
      → Agree m m'
      → Holds Refines m'
      → ((a : A) → Agree (f a) (f' a))
      → Agree (m >>= f) (m' >>= f')
  unfolding ◌>>=◌
  Agree-bind {A} m m' f f' h kept k = record {
    on = λ e l.
        ap (λ (r : Result EngineError A × Engine p). (lift r.0 >>= f) r.1) (h.on e l)
        ∙ continue-Agree f f' (m' e).0 (m' e).1 ((kept.at e).fixed.max_cascade_depth ∙ l) k;
  }
