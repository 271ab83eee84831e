-- ===== src/Ddl.antt =====
-- The front end of ddl/: lexer, parser, syntax tree, and the lowering to a topology.
pub mod Token
pub mod Lexer
pub mod Pieces
pub mod Laid
pub mod Slice
pub mod Slices
pub mod Ast
pub mod Parse
pub mod Parser
pub mod Total
pub mod Texts
pub mod Ends
pub mod Yields
pub mod Parsed
pub mod Compile
pub mod Lowered
pub mod Builds
pub mod Codegen
pub mod Wildcard
