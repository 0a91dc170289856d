-- ===== src/Flow/Lexer.antt =====
-- crates/pulsate-flow/src/lexer.rs: `lex`. The source is valid UTF-8, so that of its slices only the
-- one for a character of a string can begin inside a character, where slicing panics.
use pulsate.Prelude.{
  ℕ, zero, suc, ◌+◌, ◌-◌, ◌/◌, ◌%◌, Bool, true, false, not, ◌||◌, ◌&&◌, Option, none, some, List,
  [], ◌∷◌, ◌++◌, length, Str, bytes, ◌==◌, leb, ltb, if◌then◌else◌,
}
use pulsate.Core.{cfg_syntax}
use pulsate.Flow.Span.{error_at, with_help, Outcome, done, failed, panics, spent, ◌>>=◌}
use pulsate.Flow.Token.{
  TokenKind, lbrace, rbrace, lparen, rparen, lbracket, rbracket, comma, equals, arrow, sep, eof,
  str, env, atom, Token, Place, Cursor, new_cursor, bump, span_from,
}

abbrev pub is_blank : ℕ → Bool
is_blank c = c == b' ' || (c == b'\t' || c == b'\r')

abbrev pub is_sep : ℕ → Bool
is_sep c = c == b'\n' || c == b';'

abbrev pub is_sep_or_blank : ℕ → Bool
is_sep_or_blank c = is_sep c || is_blank c

-- Where the loops over trivia stop; the flag says whether a comment is open.
abbrev pub stops : (ℕ → Bool) → Bool → ℕ → Bool
stops trivial true c = c == b'\n' && not (trivial c)
stops trivial false c = not (trivial c || c == b'#')

-- Whether a comment is open behind the byte.
abbrev pub opens : Bool → ℕ → Bool
opens true c = not (c == b'\n')
opens false c = c == b'#'

-- The loops of `skip_horizontal` and of `consume_separator_run`, by what is trivial to them.
unfoldable pub skip : (ℕ → Bool) → Bool → Str → Place → Cursor
skip trivial open_comment [] p = record { rest = []; place = p }
skip trivial open_comment (c ∷ s) p =
    let more = skip trivial (opens open_comment c) s (bump c p) in
    if stops trivial open_comment c then record { rest = c ∷ s; place = p } else more

unfoldable pub skip_horizontal : Cursor → Cursor
skip_horizontal c = skip is_blank false c.rest c.place

unfoldable pub consume_separator_run : Cursor → Cursor
consume_separator_run c = skip is_sep_or_blank false c.rest c.place

-- `c & 0b1100_0000 == 0b1000_0000`
abbrev pub is_continuation : ℕ → Bool
is_continuation c = leb 128 c && ltb c 192

-- `String::push` of a byte `as char`.
abbrev pub push_char : ℕ → Str
push_char c = if ltb c 128 then c ∷ [] else (192 + c / 64) ∷ (128 + c % 64) ∷ []

abbrev pub escape : ℕ → ℕ
escape c = if c == b'n' then b'\n' else if c == b't' then b'\t' else if c == b'r' then b'\r' else c

abbrev pub unterminated : Place → Place → Str → Str → Outcome (Token × Cursor)
unterminated start p message help =
    failed (with_help help (error_at cfg_syntax message (span_from start (p.pos - start.pos))))

-- A token from the place `start` up to the place `p`, and what is left behind it.
abbrev pub token_to : TokenKind → Place → Str → Place → Outcome (Token × Cursor)
token_to kind start rest p = done (
  record { kind = kind; span = span_from start (p.pos - start.pos) },
  record { rest = rest; place = p },
)

-- The loop of `lex_string`; the flag says that the last byte belongs to a character that may go on.
unfoldable pub string_loop : Place → Bool → Str → Place → Str → Outcome (Token × Cursor)
string_loop start inside [] p value =
    unterminated start p (bytes "unterminated string literal") (bytes "add a closing `\"`")
string_loop start inside (c ∷ []) p value =
    if c == b'"'
    then token_to (str value) start [] (bump c p)
    else if is_continuation c && not inside
    then panics
    else unterminated start (bump c p) (bytes "unterminated string literal")
        (bytes "add a closing `\"`")
string_loop start inside (c ∷ d ∷ s) p value =
    let escaped = string_loop start false s (bump d (bump c p)) (value ++ push_char (escape d)) in
    let copied = string_loop start true (d ∷ s) (bump c p) (value ++ (c ∷ [])) in
    if c == b'"'
    then token_to (str value) start (d ∷ s) (bump c p)
    else if c == b'\\'
    then escaped
    else if is_continuation c && not inside
    then panics
    else copied

-- The loop of `lex_env`.
unfoldable pub env_loop : Place → Str → Place → Str → Outcome (Token × Cursor)
env_loop start [] p inner =
    unterminated start p (bytes "unterminated `${...}` environment reference")
      (bytes "add a closing `}`")
env_loop start (c ∷ s) p inner =
    let more = env_loop start s (bump c p) (inner ++ (c ∷ [])) in
    if c == b'}' then token_to (env inner) start s (bump c p) else more

abbrev pub starts_arrow : ℕ → Str → Bool
starts_arrow b [] = false
starts_arrow b (c ∷ s) = b == b'~' && c == b'>'

-- The bytes that end an atom.
abbrev pub ends_atom : ℕ → Bool
ends_atom b =
    (is_blank b || is_sep b)
    || (((b == b'#' || b == b'{') || (b == b'}' || b == b'('))
        || ((b == b')' || b == b'[') || (b == b']' || (b == b',' || (b == b'=' || b == b'"')))))

-- The loop of `lex_atom`.
unfoldable pub atom_loop : Place → Str → Place → Str → Token × Cursor
atom_loop start [] p raw = (
  record { kind = atom raw; span = span_from start (p.pos - start.pos) },
  record { rest = []; place = p },
)
atom_loop start (c ∷ s) p raw =
    let more = atom_loop start s (bump c p) (raw ++ (c ∷ [])) in
    if ends_atom c || starts_arrow c s
    then (
      record { kind = atom raw; span = span_from start (p.pos - start.pos) },
      record { rest = c ∷ s; place = p },
    )
    else more

-- Single-character structural punctuation.
unfoldable pub single : ℕ → Option TokenKind
single b =
    if b == b'{'
    then some lbrace
    else if b == b'}'
    then some rbrace
    else if b == b'('
    then some lparen
    else if b == b')'
    then some rparen
    else if b == b'['
    then some lbracket
    else if b == b']'
    then some rbracket
    else if b == b','
    then some comma
    else if b == b'='
    then some equals
    else none

abbrev pub starts_env : ℕ → Str → Bool
starts_env b [] = false
starts_env b (c ∷ s) = b == b'$' && c == b'{'

abbrev pub tail_of : Str → Str
tail_of [] = []
tail_of (c ∷ s) = s

-- `next_token` at the byte `b`, with `s` behind it.
unfoldable pub next_token : ℕ → Str → Place → Outcome (Token × Cursor)
next_token b s p = elim (single b) [
  | some kind ↦
      done (record { kind = kind; span = span_from p 1 }, record { rest = s; place = bump b p })
  | none ↦
      if starts_arrow b s
      then done (
        record { kind = arrow; span = span_from p 2 },
        record { rest = tail_of s; place = bump b'>' (bump b p) },
      )
      else if b == b'"'
      then string_loop p false s (bump b p) []
      else if starts_env b s
      then env_loop p (tail_of s) (bump b'{' (bump b p)) []
      else done (atom_loop p (b ∷ s) p [])
]

abbrev pub prepend : Token → Outcome (List Token) → Outcome (List Token)
prepend t o = o >>= λ ts. done (t ∷ ts)

-- A round of the loop of `run` behind the trivia; `more` is the rounds that follow.
unfoldable pub token_round : (Cursor → Outcome (List Token)) → Str → Place → Outcome (List Token)
token_round more [] p = done (record { kind = eof; span = span_from p 0 } ∷ [])
token_round more (b ∷ s) p = elim (is_sep b) [
  | true ↦
      let behind = consume_separator_run (record { rest = b ∷ s; place = p }) in
      prepend (record { kind = sep; span = span_from p (behind.place.pos - p.pos) }) (more behind)
  | false ↦ next_token b s p >>= λ (t, behind). prepend t (more behind)
]

-- The loop of `run`: fuel, and the cursor.
unfoldable pub run : ℕ → Cursor → Outcome (List Token)
run zero c = spent
run (suc fuel) c = token_round (run fuel) (skip_horizontal c).rest (skip_horizontal c).place

-- Each round takes a byte, so the rounds are fewer than the bytes by one at most.
unfoldable pub lex : Str → Outcome (List Token)
lex text = run (suc (length text)) (new_cursor text)
