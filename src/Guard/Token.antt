-- ===== src/Guard/Token.antt =====
-- guard/token.rs, with the equality and the `{:?}` text that it derives.
use Prim.Native.String.{◌++◌}
use sig_topo.Base.{String, Bool, true, false}
use sig_topo.Base.Int.{ℤ}
use sig_topo.Json.{Platform}

pub data Token (F : Type 0) : Type 0 where
  integer : ℤ → Token F
  float : F → Token F
  string : String → Token F
  bool : Bool → Token F
  identifier : String → Token F
  and or not eq neq lt lte gt gte plus minus mul div lparen rparen dot eof : Token F

abbrev pub bool_text : Bool → String
bool_text true = "true"
bool_text false = "false"

module _ (p : Platform) where
  unfoldable pub debug_token : Token p.Float → String
  debug_token (integer i) = "Integer(" ++ p.show_i64 i ++ ")"
  debug_token (float f) = "Float(" ++ p.debug_f64 f ++ ")"
  debug_token (string s) = "String(" ++ p.debug_str s ++ ")"
  debug_token (bool b) = "Bool(" ++ bool_text b ++ ")"
  debug_token (identifier s) = "Identifier(" ++ p.debug_str s ++ ")"
  debug_token and = "And"
  debug_token or = "Or"
  debug_token not = "Not"
  debug_token eq = "Eq"
  debug_token neq = "Neq"
  debug_token lt = "Lt"
  debug_token lte = "Lte"
  debug_token gt = "Gt"
  debug_token gte = "Gte"
  debug_token plus = "Plus"
  debug_token minus = "Minus"
  debug_token mul = "Mul"
  debug_token div = "Div"
  debug_token lparen = "LParen"
  debug_token rparen = "RParen"
  debug_token dot = "Dot"
  debug_token eof = "Eof"
