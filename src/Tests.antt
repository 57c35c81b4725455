-- ===== src/Tests.antt =====
-- The program's own test inputs run in the model, and the theorems at concrete inputs.
mod Lexer
mod Tables
mod Scopes
mod Types
mod Patterns
mod Parser
mod Syntax
