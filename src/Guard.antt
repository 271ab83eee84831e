-- ===== src/Guard.antt =====
-- The guard language of guard/: tokens, lexer, recursive-descent parser and evaluator.
pub mod Token
pub mod Lexer
pub mod Ast
pub mod Parse
pub mod Parser
pub mod Eval
pub mod Total
pub mod Terminates
pub mod Scans
pub mod Lexes
pub mod Range
pub mod Exact
