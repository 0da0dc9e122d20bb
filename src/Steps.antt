-- ===== src/Steps.antt =====
-- internal/steps: conditions and the transform steps of a pipeline.
pub mod Lexer
pub mod Expr
pub mod Eval
pub mod Pipeline
pub mod Parser
pub mod Tests
