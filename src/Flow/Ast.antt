-- ===== src/Flow/Ast.antt =====
-- crates/pulsate-flow/src/ast.rs: the syntax tree.
use pulsate.Prelude.{◌-◌, Bool, List, Str}
use pulsate.Flow.Span.{Span, end}
use pulsate.Flow.Value.{Value, Spanned}

pub data Arg : Type 0 where
  positional : Spanned Value → Arg
  named : Spanned Str → Spanned Value → Arg

-- `Arg::span`
abbrev pub arg_span : Arg → Span
arg_span (positional v) = v.span
arg_span (named name v) = record {
  offset = name.span.offset;
  len = end v.span - name.span.offset;
  line = name.span.line;
  col = name.span.col;
}

pub data MatchKind : Type 0 where
  prefix exact regex : MatchKind

pub record Predicate : Type 0 where
  pub key : Str
  pub expected : Str
  pub span : Span

pub record Matcher : Type 0 where
  pub kind : MatchKind
  pub pattern : Spanned Str
  pub predicates : List Predicate
  pub span : Span

pub record Step : Type 0 where
  pub name : Spanned Str
  pub args : List Arg
  pub has_parens : Bool
  pub span : Span

pub record Route : Type 0 where
  pub matcher : Matcher
  pub steps : List Step
  pub span : Span

pub record Directive : Type 0 where
  pub keyword : Spanned Str
  pub args : List Arg
  pub span : Span

mutual
  -- A block is its keyword, arguments, body and span.
  pub data Stmt : Type 0 where
    block : Spanned Str → List Arg → Stmts → Span → Stmt
    directive : Directive → Stmt
    route : Route → Stmt

  pub data Stmts : Type 0 where
    no_stmts : Stmts
    stmt_then : Stmt → Stmts → Stmts
