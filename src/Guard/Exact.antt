-- ===== src/Guard/Exact.antt =====
-- Guards compute with 64-bit integers: where a result fits it is the exact one, else an error.
use sig_topo.Base.{
  String, ◌≡◌, ◌≢◌, ◌⊎◌, refl, sym, ap, subst, ◌∙◌, true, false, Option, arith, Bool-cases, inl,
  inr, Result, ok, err, and_then, ok_or,
}
use sig_topo.Base.Int.{
  ℤ, pos, negsuc, IsI64, in_range, checked, checked_add, checked_sub, checked_mul, checked_div,
  wrapping_neg, is_zero, ◌/ℤ◌, ◌-ℤ◌, ◌+ℤ◌, ◌*ℤ◌,
}
use sig_topo.Json.{Platform}
use sig_topo.Context.{ActionContext}
use sig_topo.Guard.Ast.{BinaryOp, UnaryOp, Expr, binary, unary, literal, payload_access, identifier}
use sig_topo.Guard.Eval.{Value, apply_numeric, apply_unary, apply_binary, eval}
use sig_topo.Guard.Range.{Yields, As64, LiteralsFit, in_range-IsI64, eval-Yields}

in_range-not_IsI64 : (z : ℤ) → in_range z ≡ false → ¬ IsI64 z
in_range-not_IsI64 (pos n) h = λ fits. ground (arith, h, fits)
in_range-not_IsI64 (negsuc n) h = λ fits. ground (arith, h, fits)

is_zero-pos : (b : ℤ) → is_zero b ≡ true → b ≡ pos 0
is_zero-pos (pos n) h = ap pos (ground (arith, h))
is_zero-pos (negsuc n) h = absurd (cc h)

not_zero-pos : (b : ℤ) → is_zero b ≡ false → b ≢ pos 0
not_zero-pos b h = λ zero_b. absurd (cc (ap is_zero zero_b ∙ refl, h))

module _ {F : Type 0} where
  -- The exact integer where it is of 64 bits, and the error where it is not.
  abbrev pub IsWithin : ℤ → String → Result String (Value F) → Type 0
  IsWithin z message r = (IsI64 z × (r ≡ ok (Value.integer z))) ⊎ ((¬ IsI64 z) × (r ≡ err message))

  abbrev pub IsDivided : ℤ → ℤ → Result String (Value F) → Type 0
  IsDivided a b r =
      ((b ≡ pos 0) × (r ≡ err "Division by zero"))
      ⊎ ((b ≢ pos 0) × IsWithin (◌/ℤ◌ a b) "Division by zero" r)

  -- The result of an operation on two integers, where it is an arithmetic one.
  abbrev pub IsComputed : BinaryOp → ℤ → ℤ → Result String (Value F) → Type 0
  IsComputed BinaryOp.add a b r = IsWithin (◌+ℤ◌ a b) "Integer overflow" r
  IsComputed BinaryOp.sub a b r = IsWithin (◌-ℤ◌ a b) "Integer overflow" r
  IsComputed BinaryOp.mul a b r = IsWithin (◌*ℤ◌ a b) "Integer overflow" r
  IsComputed BinaryOp.div a b r = IsDivided a b r
  IsComputed _ a b r = Unit

  -- The negation of an integer: the least one stays as it is.
  abbrev pub IsNegated : UnaryOp → ℤ → Result String (Value F) → Type 0
  IsNegated UnaryOp.neg a r =
      let z = ◌-ℤ◌ (pos 0) a in
      (IsI64 z × (r ≡ ok (Value.integer z))) ⊎ ((¬ IsI64 z) × (r ≡ ok (Value.integer a)))
  IsNegated UnaryOp.not a r = Unit

  abbrev pub OnIntegers :
      Result String (Value F) → Result String (Value F) → (ℤ → ℤ → Type 0) → Type 0
  OnIntegers (ok (Value.integer a)) (ok (Value.integer b)) P = P a b
  OnIntegers _ _ P = Unit

  abbrev pub OnInteger : Result String (Value F) → (ℤ → Type 0) → Type 0
  OnInteger (ok (Value.integer a)) P = P a
  OnInteger _ P = Unit

  on_integers :
      (l r : Result String (Value F)) (P : ℤ → ℤ → Type 0)
      → ((a b : ℤ) → l ≡ ok (Value.integer a) → r ≡ ok (Value.integer b) → P a b)
      → OnIntegers l r P
  on_integers (ok (Value.integer a)) (ok (Value.integer b)) P h = h a b refl refl
  on_integers _ _ P h = tt

  on_integer :
      (v : Result String (Value F)) (P : ℤ → Type 0)
      → ((a : ℤ) → v ≡ ok (Value.integer a) → P a)
      → OnInteger v P
  on_integer (ok (Value.integer a)) P h = h a refl
  on_integer _ P h = tt

  abbrev integer_or : Option ℤ → String → Result String (Value F)
  integer_or o message = and_then (ok_or o message) λ i. ok (Value.integer i)

  checked-IsWithin :
      (z : ℤ) (message : String) → IsWithin z message (integer_or (checked z) message)
  checked-IsWithin z message = elim (Bool-cases (in_range z)) [
    | inl inside ↦ inl (in_range-IsI64 z inside, rw inside refl)
    | inr outside ↦ inr (in_range-not_IsI64 z outside, rw outside refl)
  ]

  checked_div-IsDivided :
      (a b : ℤ) → IsDivided a b (integer_or (checked_div a b) "Division by zero")
  unfolding checked_div
  checked_div-IsDivided a b = elim (Bool-cases (is_zero b)) [
    | inl zero_b ↦ inl (is_zero-pos b zero_b, rw zero_b refl)
    | inr other ↦
        rw other (inr (not_zero-pos b other, checked-IsWithin (◌/ℤ◌ a b) "Division by zero"))
  ]

module _ (p : Platform) where
  apply_binary-IsComputed :
      (op : BinaryOp) (a b : ℤ)
      → IsComputed op a b (apply_binary p op (Value.integer a) (Value.integer b))
  unfolding apply_binary apply_numeric checked_add checked_sub checked_mul
  apply_binary-IsComputed BinaryOp.add a b = checked-IsWithin (◌+ℤ◌ a b) "Integer overflow"
  apply_binary-IsComputed BinaryOp.sub a b = checked-IsWithin (◌-ℤ◌ a b) "Integer overflow"
  apply_binary-IsComputed BinaryOp.mul a b = checked-IsWithin (◌*ℤ◌ a b) "Integer overflow"
  apply_binary-IsComputed BinaryOp.div a b = checked_div-IsDivided a b
  apply_binary-IsComputed _ a b = tt

  apply_unary-IsNegated :
      (op : UnaryOp) (a : ℤ) → IsNegated op a (apply_unary p op (Value.integer a))
  unfolding apply_unary wrapping_neg
  apply_unary-IsNegated UnaryOp.not a = tt
  apply_unary-IsNegated UnaryOp.neg a =
      let z = ◌-ℤ◌ (pos 0) a in
      elim (Bool-cases (in_range z)) [
        | inl inside ↦ inl (in_range-IsI64 z inside, rw inside refl)
        | inr outside ↦ inr (in_range-not_IsI64 z outside, rw outside refl)
      ]

  module _ (ctx : ActionContext p) where
    -- At every node of the expression an integer result is of 64 bits, and arithmetic on integers
    -- is exact or an error.
    abbrev pub IsExact : Expr p.Float → Type 0
    IsExact (literal l) = Yields p (eval p (literal l) ctx)
    IsExact (payload_access path) = Yields p (eval p (payload_access path) ctx)
    IsExact (identifier name) = Yields p (eval p (identifier name) ctx)
    IsExact (unary op e) =
        Yields p (eval p (unary op e) ctx)
        × IsExact e
        × OnInteger (eval p e ctx) (λ a. IsNegated op a (eval p (unary op e) ctx))
    IsExact (binary l op r) =
        Yields p (eval p (binary l op r) ctx)
        × IsExact l
        × IsExact r
        × OnIntegers (eval p l ctx) (eval p r ctx)
            (λ a b. IsComputed op a b (eval p (binary l op r) ctx))

    eval-unary :
        (op : UnaryOp) (e : Expr p.Float) (a : ℤ)
        → eval p e ctx ≡ ok (Value.integer a)
        → eval p (unary op e) ctx ≡ apply_unary p op (Value.integer a)
    unfolding eval
    eval-unary op e a h = rw h refl

    eval-binary :
        (l : Expr p.Float) (op : BinaryOp) (r : Expr p.Float) (a b : ℤ)
        → eval p l ctx ≡ ok (Value.integer a)
        → eval p r ctx ≡ ok (Value.integer b)
        → eval p (binary l op r) ctx ≡ apply_binary p op (Value.integer a) (Value.integer b)
    unfolding eval
    eval-binary l op r a b h k = rw (h, k) refl

    -- Where the literals of an expression and the integers of JSON numbers are of 64 bits, so is
    -- every integer that a part of it evaluates to. A sum, a difference, a product or a quotient of
    -- two integers is the exact one where that is of 64 bits, and otherwise, or where the divisor is
    -- zero, an error. The negation is exact too, but for the least integer, which it leaves as it is.
    pub eval-IsExact : (e : Expr p.Float) → As64 p → LiteralsFit p e → IsExact e
    eval-IsExact (literal l) h fit = eval-Yields p (literal l) ctx h fit
    eval-IsExact (payload_access path) h fit = eval-Yields p (payload_access path) ctx h fit
    eval-IsExact (identifier name) h fit = eval-Yields p (identifier name) ctx h fit
    eval-IsExact (unary op e) h fit = (
      eval-Yields p (unary op e) ctx h fit,
      eval-IsExact e h fit,
      on_integer (eval p e ctx) _ λ a found.
          subst (IsNegated op a) (sym (eval-unary op e a found)) (apply_unary-IsNegated op a),
    )
    eval-IsExact (binary l op r) h fit = (
      eval-Yields p (binary l op r) ctx h fit,
      eval-IsExact l h fit.0,
      eval-IsExact r h fit.1,
      on_integers (eval p l ctx) (eval p r ctx) _ λ a b left right.
          subst (IsComputed op a b) (sym (eval-binary l op r a b left right))
            (apply_binary-IsComputed op a b),
    )
