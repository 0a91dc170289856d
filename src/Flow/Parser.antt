-- ===== src/Flow/Parser.antt =====
-- crates/pulsate-flow/src/parser.rs: the parser's state, and values, arguments and the loop that
-- arrays, predicates and argument lists share.
use pulsate.Prelude.{
  ℕ, zero, suc, ◌-◌, Bool, true, false, ◌&&◌, Option, none, some, List, [], ◌∷◌, length, Str, bytes,
  if◌then◌else◌,
}
use pulsate.Core.{Code, cfg_syntax, cfg_type_mismatch}
use pulsate.Flow.Span.{Span, end, error_at, Outcome, done, failed, spent, ◌>>=◌}
use pulsate.Flow.Token.{
  TokenKind, lbrace, rbrace, lparen, rparen, lbracket, rbracket, comma, equals, arrow, sep, eof,
  atom, Token,
}
use pulsate.Flow.Token
use pulsate.Flow.Value.{Value, Items, end_of_items, item, Spanned, array, type_atom, type_env}
use pulsate.Flow.Ast.{Arg, positional, named}

-- The tokens around `pos`: the span of the one before, the one there, and those behind it.
pub record Parser : Type 0 where
  pub prev : Option Span
  pub current : Token
  pub rest : List Token

abbrev pub left : Parser → ℕ
left p = length p.rest

abbrev pub move_on : Parser → List Token → Parser
move_on p [] = p
move_on p (t ∷ ts) = record { prev = some p.current.span; current = t; rest = ts }

-- `bump`: the token it returns is the current one.
abbrev pub advance : Parser → Parser
advance p = move_on p p.rest

abbrev pub kind_of_first : TokenKind → List Token → TokenKind
kind_of_first k [] = k
kind_of_first k (t ∷ ts) = t.kind

abbrev pub next_kind : Parser → TokenKind
next_kind p = kind_of_first p.current.kind p.rest

abbrev pub span_or : Span → Option Span → Span
span_or s none = s
span_or s (some before) = before

abbrev pub prev_span : Parser → Span
prev_span p = span_or p.current.span p.prev

abbrev pub err {ℓ} : {A : Type ℓ} → Code → Str → Parser → Outcome A
err code message p = failed (error_at code message p.current.span)

abbrev pub is_sep_token : TokenKind → Bool
is_sep_token sep = true
is_sep_token k = false

abbrev pub is_rbracket : TokenKind → Bool
is_rbracket rbracket = true
is_rbracket k = false

abbrev pub is_rparen : TokenKind → Bool
is_rparen rparen = true
is_rparen k = false

abbrev pub is_comma : TokenKind → Bool
is_comma comma = true
is_comma k = false

abbrev pub is_equals : TokenKind → Bool
is_equals equals = true
is_equals k = false

abbrev pub is_atom : TokenKind → Bool
is_atom (atom s) = true
is_atom k = false

-- `skip_seps` from a token on. It never leaves tokens that end in a separator.
unfoldable pub skip_from : Option Span → Token → List Token → Outcome Parser
skip_from prev t [] =
    if is_sep_token t.kind then spent else done (record { prev = prev; current = t; rest = [] })
skip_from prev t (u ∷ us) =
    let more = skip_from (some t.span) u us in
    if is_sep_token t.kind then more else done (record { prev = prev; current = t; rest = u ∷ us })

abbrev pub skip_seps : Parser → Outcome Parser
skip_seps p = skip_from p.prev p.current p.rest

abbrev pub span_to : Span → ℕ → Span
span_to start e = record {
  offset = start.offset;
  len = e - start.offset;
  line = start.line;
  col = start.col;
}

-- What stands between two items or behind the last one: on a comma the loop goes on.
abbrev pub comma_then {ℓ} :
    {A : Type ℓ} → A → (Parser → Outcome (List A × Parser)) → Parser → Outcome (List A × Parser)
comma_then a more p = elim (is_comma p.current.kind) [
  | true ↦ do (rest, q) ← more (advance p); done (a ∷ rest, q)
  | false ↦ done (a ∷ [], p)
]

abbrev pub comma_round {ℓ} :
    {A : Type ℓ}
    → (TokenKind → Bool)
    → (Parser → Outcome (A × Parser))
    → (Parser → Outcome (List A × Parser))
    → Parser
    → Outcome (List A × Parser)
comma_round closes one more p = elim (closes p.current.kind) [
  | true ↦ done ([], p)
  | false ↦ do (a, q) ← one p; r ← skip_seps q; comma_then a more r
]

-- The loop of `parse_array`, `parse_predicates` and `parse_step` up to the closing token.
unfoldable pub comma_loop {ℓ} :
    {A : Type ℓ}
    → ℕ
    → (TokenKind → Bool)
    → (Parser → Outcome (A × Parser))
    → Parser
    → Outcome (List A × Parser)
comma_loop zero closes one p = spent
comma_loop (suc n) closes one p = do
  q ← skip_seps p
  comma_round closes one (comma_loop n closes one) q

abbrev pub to_items : List (Spanned Value) → Items
to_items [] = end_of_items
to_items (v ∷ vs) = item v.node v.span (to_items vs)

-- `parse_array` behind the loop.
abbrev pub close_array : Span → List (Spanned Value) → Parser → Outcome (Spanned Value × Parser)
close_array start vs p =
    if is_rbracket p.current.kind
    then done (
      record { node = array (to_items vs); span = span_to start (end p.current.span) },
      advance p,
    )
    else err cfg_syntax (bytes "expected `]` to close array") p

abbrev pub parse_array :
    (Parser → Outcome (List (Spanned Value) × Parser)) → Parser → Outcome (Spanned Value × Parser)
parse_array items p = do (vs, q) ← items (advance p); close_array p.current.span vs q

-- `parse_value` at a token of the kind; `items` reads the items of an array.
abbrev pub value_at :
    (Parser → Outcome (List (Spanned Value) × Parser))
    → TokenKind
    → Parser
    → Outcome (Spanned Value × Parser)
value_at items (Token.str s) p =
    done (record { node = Value.str s; span = p.current.span }, advance p)
value_at items (Token.env inner) p =
    done (record { node = type_env inner; span = p.current.span }, advance p)
value_at items (atom raw) p =
    done (record { node = type_atom raw; span = p.current.span }, advance p)
value_at items lbracket p = parse_array items p
value_at items k p = err cfg_type_mismatch (bytes "expected a value") p

unfoldable pub value_loop : ℕ → Parser → Outcome (Spanned Value × Parser)
value_loop zero p = spent
value_loop (suc n) p = value_at (comma_loop n is_rbracket (value_loop n)) p.current.kind p

-- Arrays are nested less deep than there are tokens.
unfoldable pub parse_value : Parser → Outcome (Spanned Value × Parser)
parse_value p = value_loop (suc (left p)) p

-- `parse_arg`, where the current token is an atom and `=` follows.
abbrev pub named_arg : TokenKind → Parser → Outcome (Arg × Parser)
named_arg (atom name) p = do
  (v, q) ← parse_value (advance (advance p))
  done (named (record { node = name; span = p.current.span }) v, q)
named_arg k p = err cfg_syntax (bytes "expected an argument name") p

abbrev pub positional_arg : Parser → Outcome (Arg × Parser)
positional_arg p = do (v, q) ← parse_value p; done (positional v, q)

unfoldable pub parse_arg : Parser → Outcome (Arg × Parser)
parse_arg p = elim (is_atom p.current.kind && is_equals (next_kind p)) [
  | true ↦ named_arg p.current.kind p
  | false ↦ positional_arg p
]
