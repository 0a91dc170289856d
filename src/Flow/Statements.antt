-- ===== src/Flow/Statements.antt =====
-- crates/pulsate-flow/src/parser.rs: statements, and `parse`. The stack is taken to hold the parser's
-- recursion, which is as deep as the text nests blocks and arrays; the source sets no limit to that, and
-- aborts where the stack overflows.
use pulsate.Prelude.{
  ℕ, zero, suc, Bool, true, false, none, List, [], ◌∷◌, length, Str, str_eq, bytes,
}
use pulsate.Core.{cfg_syntax}
use pulsate.Flow.Span.{end, Outcome, done, panics, spent, ◌>>=◌}
use pulsate.Flow.Token.{
  TokenKind, lbrace, rbrace, lparen, lbracket, equals, arrow, sep, eof, atom, Token,
}
use pulsate.Flow.Lexer.{lex}
use pulsate.Flow.Value.{Spanned}
use pulsate.Flow.Token
use pulsate.Flow.Ast.{Arg, arg_span, Stmt, block, directive, route, Stmts, no_stmts, stmt_then}
use pulsate.Flow.Parser.{Parser, left, advance, prev_span, err, skip_seps, span_to, parse_arg}
use pulsate.Flow.Routes.{Printer, parse_route}

abbrev pub starts_arg : TokenKind → Bool
starts_arg (atom s) = true
starts_arg (Token.str s) = true
starts_arg (Token.env s) = true
starts_arg lbracket = true
starts_arg k = false

-- `parse_space_args`: each argument takes a token at least.
unfoldable pub space_args : ℕ → Parser → Outcome (List Arg × Parser)
space_args zero p = spent
space_args (suc n) p = elim (starts_arg p.current.kind) [
  | true ↦ do (a, q) ← parse_arg p; (more, r) ← space_args n q; done (a ∷ more, r)
  | false ↦ done ([], p)
]

unfoldable pub parse_space_args : Parser → Outcome (List Arg × Parser)
parse_space_args p = space_args (suc (left p)) p

abbrev pub last_arg : ℕ → List Arg → ℕ
last_arg e [] = e
last_arg e (a ∷ more) = last_arg (end (arg_span a)) more

-- `parse_stmt` behind the arguments; `body` reads the statements of a block with its brace.
abbrev pub behind_args :
    (Parser → Outcome (Stmts × Parser))
    → Spanned Str
    → List Arg
    → TokenKind
    → Parser
    → Outcome (Stmt × Parser)
behind_args body keyword args lbrace p = do
  (stmts, q) ← body (advance p)
  done (block keyword args stmts (span_to keyword.span (end (prev_span q))), q)
behind_args body keyword args k p = done (
  directive (record {
    keyword = keyword;
    args = args;
    span = span_to keyword.span (last_arg (end keyword.span) args);
  }),
  p,
)

abbrev pub stmt_with :
    (Parser → Outcome (Stmts × Parser)) → Spanned Str → Parser → Outcome (Stmt × Parser)
stmt_with body keyword p = do
  (args, q) ← parse_space_args p
  behind_args body keyword args q.current.kind q

abbrev pub route_stmt : Printer → Parser → Outcome (Stmt × Parser)
route_stmt out p = do (r, q) ← parse_route out p; done (route r, q)

-- `parse_stmt` at a token of the kind.
abbrev pub stmt_at :
    Printer → (Parser → Outcome (Stmts × Parser)) → TokenKind → Parser → Outcome (Stmt × Parser)
stmt_at out body (atom kw) p = elim (str_eq kw (bytes "route")) [
  | true ↦ route_stmt out p
  | false ↦ stmt_with body (record { node = kw; span = p.current.span }) (advance p)
]
stmt_at out body k p = err cfg_syntax (bytes "expected a keyword to start a statement") p

-- A round of the loop of `parse_stmts` behind the separators.
abbrev pub stmts_at :
    Printer
    → Bool
    → (Parser → Outcome (Stmts × Parser))
    → (Parser → Outcome (Stmts × Parser))
    → TokenKind
    → Parser
    → Outcome (Stmts × Parser)
stmts_at out true body more eof p =
    err cfg_syntax (bytes "unexpected end of input: missing closing `}`") p
stmts_at out false body more eof p = done (no_stmts, p)
stmts_at out true body more rbrace p = done (no_stmts, advance p)
stmts_at out false body more rbrace p =
    err cfg_syntax (bytes "unexpected `}` with no matching block") p
stmts_at out in_block body more k p = do
  (s, q) ← stmt_at out body k p
  (ss, r) ← more q
  done (stmt_then s ss, r)

unfoldable pub parse_stmts : Printer → ℕ → Bool → Parser → Outcome (Stmts × Parser)
parse_stmts out zero in_block p = spent
parse_stmts out (suc n) in_block p = do
  q ← skip_seps p
  stmts_at out in_block (parse_stmts out n true) (parse_stmts out n in_block) q.current.kind q

-- `parse`, which indexes the tokens and so needs one.
unfoldable pub parse : Printer → List Token → Outcome Stmts
parse out [] = panics
parse out (t ∷ ts) = do
  (stmts, p) ←
      parse_stmts out (suc (length ts)) false (record { prev = none; current = t; rest = ts })
  done stmts

-- `parse(lex(text)?)`
unfoldable pub parse_text : Printer → Str → Outcome Stmts
parse_text out text = do ts ← lex text; parse out ts
