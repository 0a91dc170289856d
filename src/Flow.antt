-- ===== src/Flow.antt =====
-- crates/pulsate-flow: the configuration language, from text to tokens and from tokens to a tree.
pub mod Span
pub mod Token
pub mod Lexer
mod Scan
mod Spelling
mod Round
mod Cover
pub mod Value
mod Typing
pub mod Ast
pub mod Parser
pub mod Routes
mod Progress
mod Advance
mod Pipelines
pub mod Totality
pub mod Statements
mod Tests
