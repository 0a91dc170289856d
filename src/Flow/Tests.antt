-- ===== src/Flow/Tests.antt =====
-- Runs of the lexer and the parser, and their theorems at concrete inputs.
use pulsate.Prelude.{
  ℕ, ◌≡◌, ◌⊎◌, refl, some, List, [], ◌∷◌, ◌++◌, Str, bytes, split_once, parse_uint, parse_digits,
  trim,
}
use pulsate.Flow.Span.{Span, done, failed, panics, Diagnostic}
use pulsate.Flow.Token.{TokenKind, str, atom, sep, eof, Token, bump}
use pulsate.Flow.Lexer.{
  skip, skip_horizontal, consume_separator_run, string_loop, env_loop, atom_loop, single,
  next_token, token_round, run, lex,
}
use pulsate.Flow.Round.{Covers}
use pulsate.Flow.Cover.{lex-Covers, escape_panics}
use pulsate.Flow.Value.{
  Spanned, pos, negsuc, int, size, rate, minute, env, parse_i64, window_of, try_rate, try_float,
  type_number, type_word, type_atom, split_default, type_env,
}
use pulsate.Flow.Ast.{Stmts, no_stmts, stmt_then, directive, named}
use pulsate.Flow.Parser.{skip_from, comma_loop, value_loop, parse_value, parse_arg}
use pulsate.Flow.Routes.{
  Printer, parse_predicates, parse_matcher, parse_step, steps_loop, parse_route,
}
use pulsate.Flow.Statements.{space_args, parse_space_args, parse_stmts, parse, parse_text}
use pulsate.Flow.Totality.{parse_text_lem}
use pulsate.Util.Units.{
  split_digits, split_number_unit, duration_of, parse_duration, size_factor, size_of, parse_size,
}

-- What the runs compute through.
program : Unit {0}
unfolding skip skip_horizontal consume_separator_run string_loop env_loop atom_loop single
    next_token token_round run lex bump trim split_once parse_uint parse_digits parse_i64 window_of
    try_rate try_float type_number type_word type_atom split_default type_env skip_from comma_loop
    value_loop parse_value parse_arg parse_predicates parse_matcher parse_step steps_loop
    parse_route space_args parse_space_args parse_stmts parse parse_text split_digits
    split_number_unit duration_of parse_duration size_factor size_of parse_size
program = tt

abbrev span : ℕ → ℕ → ℕ → ℕ → Span
span offset len line col = record { offset = offset; len = len; line = line; col = col }

abbrev token : TokenKind → Span → Token
token kind at = record { kind = kind; span = at }

abbrev four_tokens : List Token
four_tokens =
    token (atom (bytes "x")) (span 0 1 1 1)
    ∷ token (str (bytes "y")) (span 2 3 1 3)
    ∷ token sep (span 5 3 1 6)
    ∷ token eof (span 8 0 2 3)
    ∷ []

lex-Covers_example :
    Covers (bytes "x \"y\"\n  ") (record { pos = 0; line = 1; col = 1 }) four_tokens
unfolding program
lex-Covers_example = lex-Covers (bytes "x \"y\"\n  ") four_tokens refl

-- A quotation mark, two letters, a backslash and the letter é.
escape_panics_example : lex (b'"' ∷ (bytes "ab" ++ (b'\\' ∷ 195 ∷ 169 ∷ []))) ≡ panics
escape_panics_example =
    escape_panics (bytes "ab") 195 169 [] ((refl, refl, refl), ((refl, refl, refl), tt)) refl

type_int_run : type_atom (bytes "-7") ≡ int (negsuc 6)
unfolding program
type_int_run = refl

type_rate_run : type_atom (bytes "100/min") ≡ rate 100 minute
unfolding program
type_rate_run = refl

type_size_run : type_atom (bytes "10MB") ≡ size 10_000_000
unfolding program
type_size_run = refl

type_env_run : type_env (bytes "PORT:-80") ≡ env (bytes "PORT") (some (bytes "80"))
unfolding program
type_env_run = refl

abbrev printer : Printer
printer = record { int_text = λ i. []; debug_text = λ v. [] }

abbrev word : Str → Span → Spanned Str
word s at = record { node = s; span = at }

parse_run :
    parse_text printer (bytes "port n=80")
    ≡ done (
        stmt_then
          (directive (record {
            keyword = word (bytes "port") (span 0 4 1 1);
            args =
                named
                  (word (bytes "n") (span 5 1 1 6))
                  (record { node = int (pos 80); span = span 7 2 1 8 })
                ∷ [];
            span = span 0 9 1 1;
          }))
          no_stmts)
unfolding program
parse_run = refl

parse_text_lem_example :
    ((stmts : Stmts) × (parse_text printer (bytes "a {") ≡ done stmts))
    ⊎ (((d : Diagnostic) × (parse_text printer (bytes "a {") ≡ failed d))
        ⊎ ((lex (bytes "a {") ≡ panics) × (parse_text printer (bytes "a {") ≡ panics)))
parse_text_lem_example = parse_text_lem printer (bytes "a {")
