-- ===== src/Flow/Token.antt =====
-- crates/pulsate-flow/src/lexer.rs: tokens, and the lexer's place in the text. Lines and columns are
-- 32-bit and wrap, as in a release build.
use pulsate.Prelude.{ℕ, ◌+◌, ◌%◌, ◌^◌, Str, ◌==◌, if◌then◌else◌}
use pulsate.Flow.Span.{Span}

pub data TokenKind : Type 0 where
  lbrace rbrace lparen rparen lbracket rbracket comma equals arrow sep eof : TokenKind
  str env atom : Str → TokenKind

pub record Token : Type 0 where
  pub kind : TokenKind
  pub span : Span

-- The lexer's `pos`, `line` and `col`.
pub record Place : Type 0 where
  pub pos : ℕ
  pub line : ℕ
  pub col : ℕ

-- The lexer: what is left of the text, and the place where it begins.
pub record Cursor : Type 0 where
  pub rest : Str
  pub place : Place

abbrev pub new_cursor : Str → Cursor
new_cursor text = record { rest = text; place = record { pos = 0; line = 1; col = 1 } }

unfoldable pub bump : ℕ → Place → Place
bump b p = record {
  pos = p.pos + 1;
  line = if b == b'\n' then (p.line + 1) % 2 ^ 32 else p.line;
  col = if b == b'\n' then 1 else (p.col + 1) % 2 ^ 32;
}

-- The span from one place to another.
abbrev pub span_from : Place → ℕ → Span
span_from start len = record { offset = start.pos; len = len; line = start.line; col = start.col }
