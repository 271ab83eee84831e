-- ===== src/Guard/Range.antt =====
-- Guards compute in 64 bits: every integer that evaluation yields fits.
use sig_topo.Base.{
  ℕ, ◌≤◌, String, ◌≡◌, refl, subst, Bool, true, false, Option, none, some, List, [], ◌∷◌, arith,
  ◌||◌, Bool-cases, Option-cases, Result-cases, inl, inr, Result, ok, err, and_then, and_then-eq-ok,
  ok_inj, ok_or, if◌then◌else◌,
}
use sig_topo.Base.Int.{
  ℤ, pos, negsuc, IsI64, in_range, checked, checked_add, checked_sub, checked_mul, checked_div,
  wrapping_neg, is_zero, ◌/ℤ◌, ◌-ℤ◌, ◌+ℤ◌, ◌*ℤ◌,
}
use sig_topo.Json.{Platform, Json}
use sig_topo.Context.{ActionContext}
use sig_topo.Guard.Ast.{BinaryOp, UnaryOp, Expr, binary, unary, literal, payload_access, identifier}
use sig_topo.Guard.Eval.{
  Value, apply_numeric, apply_unary, apply_binary, compare_values, value_ordering, json_to_value,
  get_field, access_payload, eval, eval_literal, is_null,
}

pub in_range-IsI64 : (z : ℤ) → in_range z ≡ true → IsI64 z
in_range-IsI64 (pos n) h = ground (arith, h)
in_range-IsI64 (negsuc n) h = ground (arith, h)

pub checked-IsI64 : (z i : ℤ) → checked z ≡ some i → IsI64 i
checked-IsI64 z i h = elim (Bool-cases (in_range z)) [
  | inl inside ↦
      let same : z ≡ i = cc (rw inside at h) in subst IsI64 same (in_range-IsI64 z inside)
  | inr outside ↦ absurd (cc (rw outside at h))
]

wrapping_neg-IsI64 : (a : ℤ) → IsI64 a → IsI64 (wrapping_neg a)
unfolding wrapping_neg
wrapping_neg-IsI64 a h =
    let n = ◌-ℤ◌ (pos 0) a in
    elim (Bool-cases (in_range n)) [
      | inl inside ↦ rw inside (in_range-IsI64 n inside)
      | inr outside ↦ rw outside h
    ]

add_checked : (a b i : ℤ) → checked_add a b ≡ some i → IsI64 i
unfolding checked_add
add_checked a b i h = checked-IsI64 (◌+ℤ◌ a b) i h

sub_checked : (a b i : ℤ) → checked_sub a b ≡ some i → IsI64 i
unfolding checked_sub
sub_checked a b i h = checked-IsI64 (◌-ℤ◌ a b) i h

mul_checked : (a b i : ℤ) → checked_mul a b ≡ some i → IsI64 i
unfolding checked_mul
mul_checked a b i h = checked-IsI64 (◌*ℤ◌ a b) i h

div_checked : (a b i : ℤ) → checked_div a b ≡ some i → IsI64 i
unfolding checked_div
div_checked a b i h = elim (Bool-cases (is_zero b)) [
  | inl zero_divisor ↦ absurd (cc (rw zero_divisor at h))
  | inr other ↦ checked-IsI64 (◌/ℤ◌ a b) i (rw other at h)
]

module _ (p : Platform) where
  -- A value that is no integer, or one of 64 bits.
  abbrev pub Fits : Value p.Float → Type 0
  Fits (Value.integer i) = IsI64 i
  Fits _ = Unit

  -- A result whose value fits.
  unfoldable pub Yields : Result String (Value p.Float) → Type 0
  Yields (ok v) = Fits v
  Yields (err m) = Unit

  Yields-ok : (v : Value p.Float) → Fits v → Yields (ok v)
  unfolding Yields
  Yields-ok v h = h

  Yields-err : (m : String) → Yields (err m)
  unfolding Yields
  Yields-err m = tt

  Yields-and_then :
      (r : Result String (Value p.Float)) (f : Value p.Float → Result String (Value p.Float))
      → Yields r
      → ((v : Value p.Float) → Fits v → Yields (f v))
      → Yields (and_then r f)
  unfolding Yields
  Yields-and_then (ok v) f h k = k v h
  Yields-and_then (err m) f h k = tt

  -- An operation on integers whose results are of 64 bits.
  abbrev IsChecked : (ℤ → ℤ → Result String ℤ) → Type 0
  IsChecked op = (a b i : ℤ) → op a b ≡ ok i → IsI64 i

  option-IsChecked :
      (f : ℤ → ℤ → Option ℤ) (m : String)
      → ((a b i : ℤ) → f a b ≡ some i → IsI64 i)
      → IsChecked (λ a b. ok_or (f a b) m)
  option-IsChecked f m h a b i e = elim (Option-cases (f a b)) [
    | inl missing ↦ absurd (cc (rw missing at e))
    | inr (j, found) ↦ let same : j ≡ i = ok_inj (rw found at e) in subst IsI64 same (h a b j found)
  ]

  float_Yields : (r : Result String p.Float) → Yields (and_then r λ f. ok (Value.float f))
  unfolding Yields
  float_Yields (ok f) = tt
  float_Yields (err m) = tt

  apply_numeric-Yields :
      (a b : Value p.Float) (int_op : ℤ → ℤ → Result String ℤ)
      (float_op : p.Float → p.Float → Result String p.Float)
      → IsChecked int_op
      → Yields (apply_numeric p a b int_op float_op)
  unfolding apply_numeric Yields
  apply_numeric-Yields (Value.integer a) (Value.integer b) int_op float_op h =
      elim (Result-cases (int_op a b)) [
        | inl (i, found) ↦ rw found (h a b i found)
        | inr (m, failed) ↦ rw failed tt
      ]
  apply_numeric-Yields (Value.integer a) (Value.float b) int_op float_op h =
      float_Yields (float_op (p.f_of_i64 a) b)
  apply_numeric-Yields (Value.float a) (Value.integer b) int_op float_op h =
      float_Yields (float_op a (p.f_of_i64 b))
  apply_numeric-Yields (Value.float a) (Value.float b) int_op float_op h =
      float_Yields (float_op a b)
  apply_numeric-Yields _ _ int_op float_op h = tt

  compare_values-Yields :
      (a b : Value p.Float) (pred : sig_topo.Base.Ordering → Bool)
      → Yields (compare_values p a b pred)
  unfolding compare_values Yields
  compare_values-Yields a b pred = elim (Bool-cases (is_null p a || is_null p b)) [
    | inl nothing ↦ rw nothing tt
    | inr both ↦ elim (Result-cases (value_ordering p a b)) [
      | inl (o, found) ↦ rw (both, found) tt
      | inr (m, failed) ↦ rw (both, failed) tt
    ]
  ]

  apply_binary-Yields : (op : BinaryOp) (a b : Value p.Float) → Yields (apply_binary p op a b)
  unfolding apply_binary Yields
  apply_binary-Yields BinaryOp.add a b =
      apply_numeric-Yields a b _ _ (option-IsChecked checked_add _ add_checked)
  apply_binary-Yields BinaryOp.sub a b =
      apply_numeric-Yields a b _ _ (option-IsChecked checked_sub _ sub_checked)
  apply_binary-Yields BinaryOp.mul a b =
      apply_numeric-Yields a b _ _ (option-IsChecked checked_mul _ mul_checked)
  apply_binary-Yields BinaryOp.div a b =
      apply_numeric-Yields a b _ _ (option-IsChecked checked_div _ div_checked)
  apply_binary-Yields BinaryOp.eq a b = tt
  apply_binary-Yields BinaryOp.neq a b = tt
  apply_binary-Yields BinaryOp.lt a b = compare_values-Yields a b _
  apply_binary-Yields BinaryOp.lte a b = compare_values-Yields a b _
  apply_binary-Yields BinaryOp.gt a b = compare_values-Yields a b _
  apply_binary-Yields BinaryOp.gte a b = compare_values-Yields a b _
  apply_binary-Yields BinaryOp.and a b = tt
  apply_binary-Yields BinaryOp.or a b = tt

  apply_unary-Yields : (op : UnaryOp) (v : Value p.Float) → Fits v → Yields (apply_unary p op v)
  unfolding apply_unary Yields
  apply_unary-Yields UnaryOp.not v h = tt
  apply_unary-Yields UnaryOp.neg (Value.integer i) h = wrapping_neg-IsI64 i h
  apply_unary-Yields UnaryOp.neg _ h = tt

  -- `Number::as_i64` yields an `i64`.
  abbrev pub As64 : Type 0
  As64 = (n : p.Number) (i : ℤ) → p.as_i64 n ≡ some i → IsI64 i

  json_to_value-Yields : As64 → (v : Json p.Number) → Yields (json_to_value p v)
  unfolding json_to_value Yields
  json_to_value-Yields h (Json.number n) = elim (Option-cases (p.as_i64 n)) [
    | inr (i, found) ↦ rw (found, Yields) (h n i found)
    | inl missing ↦ elim (Option-cases (p.as_f64 n)) [
      | inr (f, found) ↦ rw (missing, found, Yields) tt
      | inl none_found ↦ rw (missing, none_found, Yields) tt
    ]
  ]
  json_to_value-Yields h _ = tt

  access_payload-Yields :
      As64 → (v : Json p.Number) (path : List String) → Yields (access_payload p v path)
  unfolding access_payload Yields
  access_payload-Yields h v [] = json_to_value-Yields h v
  access_payload-Yields h (Json.object fs) (part ∷ path) =
      access_payload-Yields h (get_field p part fs) path
  access_payload-Yields h _ (part ∷ path) = tt

  -- The integer literals of the expression are of 64 bits.
  abbrev pub LiteralsFit : Expr p.Float → Type 0
  LiteralsFit (literal l) = Fits (eval_literal p l)
  LiteralsFit (payload_access path) = Unit
  LiteralsFit (identifier name) = Unit
  LiteralsFit (unary op e) = LiteralsFit e
  LiteralsFit (binary l op r) = LiteralsFit l × LiteralsFit r

  -- Where the literals of an expression and the integers of JSON numbers are of 64 bits, so is every
  -- integer that evaluation returns.
  pub eval-Yields :
      (e : Expr p.Float) (ctx : ActionContext p) → As64 → LiteralsFit e → Yields (eval p e ctx)
  unfolding eval
  eval-Yields (literal l) ctx h fit = Yields-ok (eval_literal p l) fit
  eval-Yields (payload_access path) ctx h fit = elim (Option-cases ctx.payload) [
    | inl missing ↦ rw missing (Yields-err "No payload available")
    | inr (v, found) ↦ rw found (access_payload-Yields h v path)
  ]
  eval-Yields (identifier name) ctx h fit = Yields-err _
  eval-Yields (unary op e) ctx h fit =
      Yields-and_then (eval p e ctx) _ (eval-Yields e ctx h fit) (apply_unary-Yields op)
  eval-Yields (binary l op r) ctx h fit =
      Yields-and_then (eval p l ctx) _ (eval-Yields l ctx h fit.0) λ lv _.
        Yields-and_then (eval p r ctx) _ (eval-Yields r ctx h fit.1)
          λ rv _. apply_binary-Yields op lv rv
