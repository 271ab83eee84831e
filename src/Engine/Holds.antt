-- ===== src/Engine/Holds.antt =====
-- Relations between the states before and after an action, with a rule for each way to build one.
use sig_topo.Base.{Result, ok, err}
use sig_topo.Json.{Platform}
use sig_topo.Error.{EngineError}
use sig_topo.Engine.State.{Engine, Act, pure, raise, lift, capture, gets, ◌>>=◌}

-- `m` takes each state to a related one, whether it returns or fails.
pub record Holds {p : Platform} (R : Engine p → Engine p → Type 0) {A : Type 0} (m : Act p A)
    : Type 0 where
  pub at : (e : Engine p) → R e (m e).1

pub record IsPreorder {p : Platform} (R : Engine p → Engine p → Type 0) : Type 0 where
  pub same : (e : Engine p) → R e e
  pub trans : (e f g : Engine p) → R e f → R f g → R e g

module _ {p : Platform} {R : Engine p → Engine p → Type 0} (o : IsPreorder R) where
  pub Holds-pure : {A : Type 0} (a : A) → Holds R (pure a)
  unfolding pure
  Holds-pure a = record { at = o.same }

  pub Holds-raise : {A : Type 0} (x : EngineError) → Holds R (raise {A = A} x)
  unfolding raise
  Holds-raise x = record { at = o.same }

  pub Holds-lift : {A : Type 0} (r : Result EngineError A) → Holds R (lift r)
  unfolding lift
  Holds-lift r = record { at = o.same }

  pub Holds-gets : {A : Type 0} (f : Engine p → A) → Holds R (gets f)
  unfolding gets
  Holds-gets f = record { at = o.same }

  pub Holds-capture : {A : Type 0} (m : Act p A) → Holds R m → Holds R (capture m)
  unfolding capture
  Holds-capture m h = record { at = λ e. h.at e }

  -- The rest is asked to hold after any result.
  continue-Holds :
      {A B : Type 0} (f : A → Act p B) (r : Result EngineError A) (d e : Engine p)
      → R d e
      → ((a : A) → Holds R (f a))
      → R d (((lift r) >>= f) e).1
  unfolding ◌>>=◌
  continue-Holds f (ok a) d e h k = o.trans d e (f a e).1 h ((k a).at e)
  continue-Holds f (err x) d e h k = h

  pub Holds-bind :
      {A B : Type 0} (m : Act p A) (f : A → Act p B)
      → Holds R m
      → ((a : A) → Holds R (f a))
      → Holds R (m >>= f)
  unfolding ◌>>=◌
  Holds-bind m f h k = record { at = λ e. continue-Holds f (m e).0 e (m e).1 (h.at e) k }
