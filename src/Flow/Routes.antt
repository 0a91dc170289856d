-- ===== src/Flow/Routes.antt =====
-- crates/pulsate-flow/src/parser.rs: routes.
use pulsate.Prelude.{
  ℕ, zero, suc, Bool, true, false, List, [], ◌∷◌, Str, str_eq, bytes, if◌then◌else◌,
}
use pulsate.Core.{cfg_syntax}
use pulsate.Flow.Span.{Span, end, Outcome, done, spent, ◌>>=◌}
use pulsate.Flow.Token.{TokenKind, lparen, lbracket, equals, arrow, atom}
use pulsate.Flow.Value.{Value, ℤ, int, bool, Spanned}
use pulsate.Flow.Ast.{Arg, MatchKind, prefix, exact, regex, Predicate, Matcher, Step, Route}
use pulsate.Flow.Parser.{
  Parser, left, advance, err, is_equals, is_rbracket, is_rparen, skip_seps, span_to, comma_loop,
  parse_value, parse_arg,
}

-- What the standard library prints: an `i64`, and a value for debugging.
pub record Printer : Type 0 where
  pub int_text : ℤ → Str
  pub debug_text : Value → Str

abbrev pub value_to_lexeme : Printer → Value → Str
value_to_lexeme out (Value.str s) = s
value_to_lexeme out (bool true) = bytes "true"
value_to_lexeme out (bool false) = bytes "false"
value_to_lexeme out (int i) = out.int_text i
value_to_lexeme out v = out.debug_text v

-- A round of the loop of `parse_predicates` behind the key, which stands at the span.
abbrev pub predicate_behind : Printer → Str → Span → Parser → Outcome (Predicate × Parser)
predicate_behind out key at p = elim (is_equals p.current.kind) [
  | true ↦ do
    (v, q) ← parse_value (advance p)
    done (
      record { key = key; expected = value_to_lexeme out v.node; span = span_to at (end v.span) },
      q,
    )
  | false ↦ done (record { key = key; expected = bytes "*"; span = span_to at (end at) }, p)
]

abbrev pub predicate_at : Printer → TokenKind → Parser → Outcome (Predicate × Parser)
predicate_at out (atom key) p = predicate_behind out key p.current.span (advance p)
predicate_at out k p = err cfg_syntax (bytes "expected a predicate key like `method`") p

abbrev pub close_predicates : List Predicate → Parser → Outcome ((List Predicate × ℕ) × Parser)
close_predicates ps p =
    if is_rbracket p.current.kind
    then done ((ps, end p.current.span), advance p)
    else err cfg_syntax (bytes "expected `]` to close predicates") p

unfoldable pub parse_predicates : Printer → Parser → Outcome ((List Predicate × ℕ) × Parser)
parse_predicates out p = do
  (ps, q) ←
      comma_loop (suc (left p)) is_rbracket (λ r. predicate_at out r.current.kind r) (advance p)
  close_predicates ps q

abbrev pub matcher_of : MatchKind → Span → Spanned Str → List Predicate → ℕ → Matcher
matcher_of kind start pattern ps e = record {
  kind = kind;
  pattern = pattern;
  predicates = ps;
  span = span_to start e;
}

-- `parse_matcher` behind the pattern.
abbrev pub predicates_if :
    Printer → MatchKind → Span → Spanned Str → TokenKind → Parser → Outcome (Matcher × Parser)
predicates_if out kind start pattern lbracket p = do
  ((ps, e), q) ← parse_predicates out p
  done (matcher_of kind start pattern ps e, q)
predicates_if out kind start pattern k p =
    done (matcher_of kind start pattern [] (end pattern.span), p)

abbrev pub pattern_at : Printer → MatchKind → Span → TokenKind → Parser → Outcome (Matcher × Parser)
pattern_at out kind start (atom pat) p =
    predicates_if out kind start (record { node = pat; span = p.current.span })
      (advance p).current.kind (advance p)
pattern_at out kind start k p = err cfg_syntax (bytes "expected a route pattern") p

abbrev pub matcher_at : Printer → TokenKind → Parser → Outcome (Matcher × Parser)
matcher_at out equals p = pattern_at out exact p.current.span (advance p).current.kind (advance p)
matcher_at out (atom a) p = elim (str_eq a (bytes "~")) [
  | true ↦ pattern_at out regex p.current.span (advance p).current.kind (advance p)
  | false ↦ pattern_at out prefix p.current.span (atom a) p
]
matcher_at out k p = pattern_at out prefix p.current.span k p

unfoldable pub parse_matcher : Printer → Parser → Outcome (Matcher × Parser)
parse_matcher out p = matcher_at out p.current.kind p

abbrev pub close_args : Spanned Str → List Arg → Parser → Outcome (Step × Parser)
close_args name args p =
    if is_rparen p.current.kind
    then done (
      record {
        name = name;
        args = args;
        has_parens = true;
        span = span_to name.span (end p.current.span);
      },
      advance p,
    )
    else err cfg_syntax (bytes "expected `)` to close arguments") p

abbrev pub step_behind : Spanned Str → TokenKind → Parser → Outcome (Step × Parser)
step_behind name lparen p = do
  (args, q) ← comma_loop (suc (left p)) is_rparen parse_arg (advance p)
  close_args name args q
step_behind name k p = done (
  record { name = name; args = []; has_parens = false; span = span_to name.span (end name.span) },
  p,
)

abbrev pub step_at : TokenKind → Parser → Outcome (Step × Parser)
step_at (atom name) p =
    step_behind (record { node = name; span = p.current.span }) (advance p).current.kind (advance p)
step_at k p = err cfg_syntax (bytes "expected a middleware or handler name") p

unfoldable pub parse_step : Parser → Outcome (Step × Parser)
parse_step p = step_at p.current.kind p

abbrev pub is_arrow : TokenKind → Bool
is_arrow arrow = true
is_arrow k = false

abbrev pub steps_round :
    (Parser → Outcome (List Step × Parser)) → Parser → Outcome (List Step × Parser)
steps_round more p = elim (is_arrow p.current.kind) [
  | true ↦ do q ← skip_seps (advance p); (s, r) ← parse_step q; (ss, t) ← more r; done (s ∷ ss, t)
  | false ↦ done ([], p)
]

-- The loop of `parse_route`.
unfoldable pub steps_loop : ℕ → Parser → Outcome (List Step × Parser)
steps_loop zero p = spent
steps_loop (suc n) p = do q ← skip_seps p; steps_round (steps_loop n) q

-- The end of the last step, if there is one.
abbrev pub last_step : ℕ → List Step → ℕ
last_step e [] = e
last_step e (s ∷ ss) = last_step (end s.span) ss

unfoldable pub parse_route : Printer → Parser → Outcome (Route × Parser)
parse_route out p = do
  (m, q) ← parse_matcher out (advance p)
  (ss, r) ← steps_loop (suc (left q)) q
  done (
    record { matcher = m; steps = ss; span = span_to p.current.span (last_step (end m.span) ss) },
    r,
  )
