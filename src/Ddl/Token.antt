-- ===== src/Ddl/Token.antt =====
-- ddl/mod.rs: the kinds of tokens, with the equality and the `{:?}` text that they derive, and the
-- tokens of ddl/lexer.rs.
use Prim.Native.String.{◌++◌}
use sig_topo.Base.{ℕ, String, Bool, true, false, nat_eq, ◌==◌}
use sig_topo.Base.Int.{ℤ, eq_ℤ}
use sig_topo.Json.{Platform}
use sig_topo.Guard.Token.{bool_text}

pub data TokenKind (F : Type 0) : Type 0 where
  identifier string : String → TokenKind F
  integer : ℤ → TokenKind F
  float : F → TokenKind F
  bool : Bool → TokenKind F
  signal states initial on from to params when reaction enters with_ : TokenKind F
  on_exit on_transition on_enter on_fail guard fork join : TokenKind F
  component port instantiate connect as_ : TokenKind F
  and or not : TokenKind F
  lbracket rbracket lbrace rbrace lparen rparen arrow colon comma dot : TokenKind F
  plus minus mul div eq neq lt lte gt gte : TokenKind F
  eof : TokenKind F

-- `start` and `len` are offsets into the bytes of the source.
pub record Token (F : Type 0) : Type 0 where
  pub kind : TokenKind F
  pub line : ℕ
  pub col : ℕ
  pub start : ℕ
  pub len : ℕ

abbrev pub bool_eq : Bool → Bool → Bool
bool_eq true true = true
bool_eq false false = true
bool_eq _ _ = false

module _ {F : Type 0} where
  -- The place of a kind in the enumeration.
  abbrev pub tag : TokenKind F → ℕ
  tag (TokenKind.identifier _) = 0
  tag (TokenKind.string _) = 1
  tag (TokenKind.integer _) = 2
  tag (TokenKind.float _) = 3
  tag (TokenKind.bool _) = 4
  tag TokenKind.signal = 5
  tag TokenKind.states = 6
  tag TokenKind.initial = 7
  tag TokenKind.on = 8
  tag TokenKind.from = 9
  tag TokenKind.to = 10
  tag TokenKind.params = 11
  tag TokenKind.when = 12
  tag TokenKind.reaction = 13
  tag TokenKind.enters = 14
  tag TokenKind.with_ = 15
  tag TokenKind.on_exit = 16
  tag TokenKind.on_transition = 17
  tag TokenKind.on_enter = 18
  tag TokenKind.on_fail = 19
  tag TokenKind.guard = 20
  tag TokenKind.fork = 21
  tag TokenKind.join = 22
  tag TokenKind.component = 23
  tag TokenKind.port = 24
  tag TokenKind.instantiate = 25
  tag TokenKind.connect = 26
  tag TokenKind.as_ = 27
  tag TokenKind.and = 28
  tag TokenKind.or = 29
  tag TokenKind.not = 30
  tag TokenKind.lbracket = 31
  tag TokenKind.rbracket = 32
  tag TokenKind.lbrace = 33
  tag TokenKind.rbrace = 34
  tag TokenKind.lparen = 35
  tag TokenKind.rparen = 36
  tag TokenKind.arrow = 37
  tag TokenKind.colon = 38
  tag TokenKind.comma = 39
  tag TokenKind.dot = 40
  tag TokenKind.plus = 41
  tag TokenKind.minus = 42
  tag TokenKind.mul = 43
  tag TokenKind.div = 44
  tag TokenKind.eq = 45
  tag TokenKind.neq = 46
  tag TokenKind.lt = 47
  tag TokenKind.lte = 48
  tag TokenKind.gt = 49
  tag TokenKind.gte = 50
  tag TokenKind.eof = 51

  abbrev pub is_eof : TokenKind F → Bool
  is_eof TokenKind.eof = true
  is_eof _ = false

module _ (p : Platform) where
  -- `PartialEq`
  unfoldable pub eq_kind : TokenKind p.Float → TokenKind p.Float → Bool
  eq_kind (TokenKind.identifier a) (TokenKind.identifier b) = a == b
  eq_kind (TokenKind.string a) (TokenKind.string b) = a == b
  eq_kind (TokenKind.integer a) (TokenKind.integer b) = eq_ℤ a b
  eq_kind (TokenKind.float a) (TokenKind.float b) = p.f_eq a b
  eq_kind (TokenKind.bool a) (TokenKind.bool b) = bool_eq a b
  eq_kind a b = nat_eq (tag a) (tag b)

  unfoldable pub debug_kind : TokenKind p.Float → String
  debug_kind (TokenKind.identifier s) = "Identifier(" ++ p.debug_str s ++ ")"
  debug_kind (TokenKind.string s) = "String(" ++ p.debug_str s ++ ")"
  debug_kind (TokenKind.integer i) = "Integer(" ++ p.show_i64 i ++ ")"
  debug_kind (TokenKind.float f) = "Float(" ++ p.debug_f64 f ++ ")"
  debug_kind (TokenKind.bool b) = "Bool(" ++ bool_text b ++ ")"
  debug_kind TokenKind.signal = "Signal"
  debug_kind TokenKind.states = "States"
  debug_kind TokenKind.initial = "Initial"
  debug_kind TokenKind.on = "On"
  debug_kind TokenKind.from = "From"
  debug_kind TokenKind.to = "To"
  debug_kind TokenKind.params = "Params"
  debug_kind TokenKind.when = "When"
  debug_kind TokenKind.reaction = "Reaction"
  debug_kind TokenKind.enters = "Enters"
  debug_kind TokenKind.with_ = "With"
  debug_kind TokenKind.on_exit = "OnExit"
  debug_kind TokenKind.on_transition = "OnTransition"
  debug_kind TokenKind.on_enter = "OnEnter"
  debug_kind TokenKind.on_fail = "OnFail"
  debug_kind TokenKind.guard = "Guard"
  debug_kind TokenKind.fork = "Fork"
  debug_kind TokenKind.join = "Join"
  debug_kind TokenKind.component = "Component"
  debug_kind TokenKind.port = "Port"
  debug_kind TokenKind.instantiate = "Instantiate"
  debug_kind TokenKind.connect = "Connect"
  debug_kind TokenKind.as_ = "As"
  debug_kind TokenKind.and = "And"
  debug_kind TokenKind.or = "Or"
  debug_kind TokenKind.not = "Not"
  debug_kind TokenKind.lbracket = "LBracket"
  debug_kind TokenKind.rbracket = "RBracket"
  debug_kind TokenKind.lbrace = "LBrace"
  debug_kind TokenKind.rbrace = "RBrace"
  debug_kind TokenKind.lparen = "LParen"
  debug_kind TokenKind.rparen = "RParen"
  debug_kind TokenKind.arrow = "Arrow"
  debug_kind TokenKind.colon = "Colon"
  debug_kind TokenKind.comma = "Comma"
  debug_kind TokenKind.dot = "Dot"
  debug_kind TokenKind.plus = "Plus"
  debug_kind TokenKind.minus = "Minus"
  debug_kind TokenKind.mul = "Mul"
  debug_kind TokenKind.div = "Div"
  debug_kind TokenKind.eq = "Eq"
  debug_kind TokenKind.neq = "Neq"
  debug_kind TokenKind.lt = "Lt"
  debug_kind TokenKind.lte = "Lte"
  debug_kind TokenKind.gt = "Gt"
  debug_kind TokenKind.gte = "Gte"
  debug_kind TokenKind.eof = "Eof"
