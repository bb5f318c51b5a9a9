-- ===== src/Expression.antt =====
-- pkg/expression: the sandboxed expression language.
pub mod Values
pub mod Lexer
pub mod Parser
pub mod Coerce
pub mod Pipes
pub mod Eval
mod Tests
