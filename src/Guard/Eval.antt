-- ===== src/Guard/Eval.antt =====
-- guard/eval.rs: values, the evaluator and `eval_guard`.
use Prim.Native.String.{◌++◌, compare}
use sig_topo.Base.{
  String, Bool, true, false, not, ◌&&◌, ◌||◌, Option, none, some, List, [], ◌∷◌, if◌then◌else◌,
  ◌==◌, Result, ok, err, and_then, ok_or, Ordering,
}
use sig_topo.Base.Int.{
  ℤ, checked_add, checked_sub, checked_mul, checked_div, wrapping_neg, compare_ℤ, eq_ℤ, is_zero,
}
use sig_topo.Json.{Platform, Json, Fields, no_fields, field}
use sig_topo.Context.{ActionContext}
use sig_topo.Guard.Token.{bool_text}
use sig_topo.Guard.Ast.{
  BinaryOp, UnaryOp, Literal, Expr, binary, unary, literal, payload_access, identifier,
}
use sig_topo.Guard.Lexer.{tokenize}
use sig_topo.Guard.Parser.{parse}

pub data Value (F : Type 0) : Type 0 where
  integer : ℤ → Value F
  float : F → Value F
  string : String → Value F
  bool : Bool → Value F
  null : Value F

-- The tests that `compare` takes on an `Ordering`.
abbrev pub is_less : Ordering → Bool
is_less Ordering.lt = true
is_less _ = false

abbrev pub is_greater : Ordering → Bool
is_greater Ordering.gt = true
is_greater _ = false

abbrev pub is_equal : Ordering → Bool
is_equal Ordering.eq = true
is_equal _ = false

module _ (p : Platform) where
  unfoldable pub debug_value : Value p.Float → String
  debug_value (Value.integer i) = "Integer(" ++ p.show_i64 i ++ ")"
  debug_value (Value.float f) = "Float(" ++ p.debug_f64 f ++ ")"
  debug_value (Value.string s) = "String(" ++ p.debug_str s ++ ")"
  debug_value (Value.bool b) = "Bool(" ++ bool_text b ++ ")"
  debug_value Value.null = "Null"

  -- Non-empty texts, non-zero numbers and `true`; also the `match` at the end of `eval_guard`.
  unfoldable pub as_bool : Value p.Float → Bool
  as_bool (Value.bool b) = b
  as_bool Value.null = false
  as_bool (Value.integer i) = not (is_zero i)
  as_bool (Value.float f) = not (p.f_eq f p.f_zero)
  as_bool (Value.string s) = not (s == "")

  unfoldable pub values_equal : Value p.Float → Value p.Float → Bool
  values_equal Value.null Value.null = true
  values_equal (Value.bool a) (Value.bool b) = if a then b else not b
  values_equal (Value.integer a) (Value.integer b) = eq_ℤ a b
  values_equal (Value.integer a) (Value.float b) = p.f_eq (p.f_of_i64 a) b
  values_equal (Value.float a) (Value.integer b) = p.f_eq a (p.f_of_i64 b)
  values_equal (Value.float a) (Value.float b) = p.f_eq a b
  values_equal (Value.string a) (Value.string b) = a == b
  values_equal _ _ = false

  unfoldable pub value_ordering : Value p.Float → Value p.Float → Result String Ordering
  unfolding debug_value
  value_ordering (Value.integer a) (Value.integer b) = ok (compare_ℤ a b)
  value_ordering (Value.integer a) (Value.float b) =
      ok_or (p.partial_cmp (p.f_of_i64 a) b) "Cannot compare floats"
  value_ordering (Value.float a) (Value.integer b) =
      ok_or (p.partial_cmp a (p.f_of_i64 b)) "Cannot compare floats"
  value_ordering (Value.float a) (Value.float b) = ok_or (p.partial_cmp a b) "Cannot compare floats"
  value_ordering (Value.string a) (Value.string b) = ok (compare a b)
  value_ordering a b = err ("Cannot compare " ++ debug_value a ++ " and " ++ debug_value b)

  abbrev pub is_null : Value p.Float → Bool
  is_null Value.null = true
  is_null _ = false

  -- `compare` of eval.rs; its name here is the library's for texts.
  unfoldable pub compare_values :
      Value p.Float → Value p.Float → (Ordering → Bool) → Result String (Value p.Float)
  unfolding value_ordering
  compare_values a b pred =
      if is_null a || is_null b
      then ok (Value.bool false)
      else and_then (value_ordering a b) (λ ord. ok (Value.bool (pred ord)))

  unfoldable pub apply_numeric :
      Value p.Float
      → Value p.Float
      → (ℤ → ℤ → Result String ℤ)
      → (p.Float → p.Float → Result String p.Float)
      → Result String (Value p.Float)
  unfolding debug_value
  apply_numeric (Value.integer a) (Value.integer b) int_op float_op =
      and_then (int_op a b) λ i. ok (Value.integer i)
  apply_numeric (Value.integer a) (Value.float b) int_op float_op =
      and_then (float_op (p.f_of_i64 a) b) λ f. ok (Value.float f)
  apply_numeric (Value.float a) (Value.integer b) int_op float_op =
      and_then (float_op a (p.f_of_i64 b)) λ f. ok (Value.float f)
  apply_numeric (Value.float a) (Value.float b) int_op float_op =
      and_then (float_op a b) λ f. ok (Value.float f)
  apply_numeric a b int_op float_op =
      err ("Cannot perform arithmetic on " ++ debug_value a ++ " and " ++ debug_value b)

  unfoldable pub json_to_value : Json p.Number → Result String (Value p.Float)
  json_to_value Json.null = ok Value.null
  json_to_value (Json.bool b) = ok (Value.bool b)
  json_to_value (Json.number n) = elim (p.as_i64 n) [
    | some i ↦ ok (Value.integer i)
    | none ↦ elim (p.as_f64 n) [
      | some f ↦ ok (Value.float f)
      | none ↦ err ("Unsupported number: " ++ p.number_to_string n)
    ]
  ]
  json_to_value (Json.string s) = ok (Value.string s)
  json_to_value (Json.array _) = err "Unsupported JSON value type"
  json_to_value (Json.object _) = err "Unsupported JSON value type"

  -- `map.get(part).unwrap_or(&Null)`
  unfoldable pub get_field : String → Fields p.Number → Json p.Number
  get_field part no_fields = Json.null
  get_field part (field k v fs) = let rest = get_field part fs in if k == part then v else rest

  unfoldable pub access_payload : Json p.Number → List String → Result String (Value p.Float)
  unfolding json_to_value get_field
  access_payload current [] = json_to_value current
  access_payload (Json.object fs) (part ∷ path) = access_payload (get_field part fs) path
  access_payload _ (part ∷ path) = ok Value.null

  abbrev pub eval_literal : Literal p.Float → Value p.Float
  eval_literal (Literal.integer i) = Value.integer i
  eval_literal (Literal.float f) = Value.float f
  eval_literal (Literal.string s) = Value.string s
  eval_literal (Literal.bool b) = Value.bool b

  unfoldable pub apply_unary : UnaryOp → Value p.Float → Result String (Value p.Float)
  unfolding as_bool debug_value wrapping_neg
  apply_unary UnaryOp.not v = ok (Value.bool (not (as_bool v)))
  apply_unary UnaryOp.neg (Value.integer i) = ok (Value.integer (wrapping_neg i))
  apply_unary UnaryOp.neg (Value.float f) = ok (Value.float (p.f_neg f))
  apply_unary UnaryOp.neg v = err ("Cannot negate " ++ debug_value v)

  abbrev float_div : p.Float → p.Float → Result String p.Float
  float_div a b = if p.f_eq b p.f_zero then err "Division by zero" else ok (p.f_div a b)

  unfoldable pub apply_binary :
      BinaryOp → Value p.Float → Value p.Float → Result String (Value p.Float)
  unfolding apply_numeric compare_values values_equal as_bool checked_add checked_sub checked_mul
      checked_div
  apply_binary BinaryOp.add l r =
      apply_numeric l r (λ a b. ok_or (checked_add a b) "Integer overflow") λ a b. ok (p.f_add a b)
  apply_binary BinaryOp.sub l r =
      apply_numeric l r (λ a b. ok_or (checked_sub a b) "Integer overflow") λ a b. ok (p.f_sub a b)
  apply_binary BinaryOp.mul l r =
      apply_numeric l r (λ a b. ok_or (checked_mul a b) "Integer overflow") λ a b. ok (p.f_mul a b)
  apply_binary BinaryOp.div l r =
      apply_numeric l r (λ a b. ok_or (checked_div a b) "Division by zero") float_div
  apply_binary BinaryOp.eq l r = ok (Value.bool (values_equal l r))
  apply_binary BinaryOp.neq l r = ok (Value.bool (not (values_equal l r)))
  apply_binary BinaryOp.lt l r = compare_values l r is_less
  apply_binary BinaryOp.lte l r = compare_values l r (λ o. not (is_greater o))
  apply_binary BinaryOp.gt l r = compare_values l r is_greater
  apply_binary BinaryOp.gte l r = compare_values l r (λ o. not (is_less o))
  apply_binary BinaryOp.and l r = ok (Value.bool (as_bool l && as_bool r))
  apply_binary BinaryOp.or l r = ok (Value.bool (as_bool l || as_bool r))

  -- Both operands are always evaluated: `and` and `or` do not stop early.
  unfoldable pub eval : Expr p.Float → ActionContext p → Result String (Value p.Float)
  unfolding apply_unary apply_binary access_payload
  eval (literal l) ctx = ok (eval_literal l)
  eval (payload_access path) ctx = elim ctx.payload [
    | none ↦ err "No payload available"
    | some v ↦ access_payload v path
  ]
  eval (identifier name) ctx = err ("Unknown identifier: " ++ name)
  eval (unary op e) ctx = and_then (eval e ctx) λ v. apply_unary op v
  eval (binary l op r) ctx =
      and_then (eval l ctx) λ lv. and_then (eval r ctx) λ rv. apply_binary op lv rv

  -- The message on fuel that ran out stands for no message of the source.
  abbrev parsed_or : Option (Result String (Expr p.Float)) → Result String (Expr p.Float)
  parsed_or none = err "out of fuel"
  parsed_or (some r) = r

  unfoldable pub eval_guard : String → ActionContext p → Result String Bool
  unfolding tokenize parse eval as_bool
  eval_guard guard ctx = and_then (tokenize p guard) λ tokens.
      and_then (parsed_or (parse p tokens))
        λ expr. and_then (eval expr ctx) λ value. ok (as_bool value)
