-- ===== src/Guard/Ast.antt =====
-- guard/ast.rs
use sig_topo.Base.{String, Bool, List}
use sig_topo.Base.Int.{ℤ}

pub data BinaryOp : Type 0 where
  add sub mul div eq neq lt lte gt gte and or : BinaryOp

pub data UnaryOp : Type 0 where
  not neg : UnaryOp

pub data Literal (F : Type 0) : Type 0 where
  integer : ℤ → Literal F
  float : F → Literal F
  string : String → Literal F
  bool : Bool → Literal F

pub data Expr (F : Type 0) : Type 0 where
  binary : Expr F → BinaryOp → Expr F → Expr F
  unary : UnaryOp → Expr F → Expr F
  literal : Literal F → Expr F
  payload_access : List String → Expr F
  identifier : String → Expr F
