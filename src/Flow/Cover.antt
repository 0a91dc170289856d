-- ===== src/Flow/Cover.antt =====
-- The tokens that `lex` gives cover the text, it gives an answer for every text, and when it panics.
use pulsate.Prelude.{
  ℕ, zero, suc, ◌≤◌, ◌<◌, ◌≡◌, ◌≢◌, refl, sym, ◌∙◌, ap, subst, true, false, List, [], ◌∷◌, ◌++◌,
  append-nil, length, length-append, Str, All, arith, Bool, ltb, ◌==◌,
}
use pulsate.Flow.Span.{Outcome, done, failed, panics, spent}
use pulsate.Flow.Token.{eof, Token, Place, Cursor, new_cursor, span_from, bump}
use pulsate.Flow.Lexer.{
  is_blank, skip, skip_horizontal, string_loop, next_token, prepend, token_round, run, lex,
  is_continuation, single, starts_arrow,
}
use pulsate.Flow.Scan.{steps, Takes, is_trivia, skip_lem}
use pulsate.Flow.Round.{
  Covers, at_end, prepend-cases, prepend-spent, cover_next, read-lt, Round, ends, reads, stops_here,
  token_round-Round,
}

run-Covers :
    (fuel : ℕ) (c : Cursor) (ts : List Token) → run fuel c ≡ done ts → Covers c.rest c.place ts
unfolding run skip_horizontal
run-Covers zero c ts h = cc
run-Covers (suc fuel) c ts h =
    let (gap, takes, dull, halt) = skip_lem is_blank false c.rest c.place refl in
    of_round (run-Covers fuel) gap takes dull (run (suc fuel) c)
      (token_round-Round (run fuel) _ _ halt) h
  where
    of_round :
        ((c' : Cursor) (us : List Token) → run fuel c' ≡ done us → Covers c'.rest c'.place us)
        → (gap : Str) → Takes gap c.rest c.place (skip_horizontal c)
        → is_trivia is_blank false gap ≡ true
        → (o : Outcome (List Token))
        → Round (run fuel) (skip_horizontal c).rest (skip_horizontal c).place o
        → o ≡ done ts
        → Covers c.rest c.place ts
    of_round ih gap (split, at) dull o (ends e) x =
        let whole : c.rest ≡ gap = split ∙ ap (λ r. gap ++ r) e ∙ append-nil gap in
        let here : (skip_horizontal c).place ≡ steps c.rest c.place =
          at ∙ ap (λ g. steps g c.place) (sym whole) in
        let all : ts ≡ record { kind = eof; span = span_from (skip_horizontal c).place 0 } ∷ [] =
          cc in
        rw (all, here) (at_end (subst (λ g. is_trivia is_blank false g ≡ true) (sym whole) dull))
    of_round ih gap takes dull o (reads t c' r) x =
        let (us, e, all) = prepend-cases t (run fuel c') ts x in
        rw all (cover_next t c' (skip_horizontal c) gap c.rest c.place us takes dull r (ih c' us e))
    of_round ih gap takes dull o (stops_here o' ns nd np) x = absurd (nd ts x)

run-ne-spent : (fuel : ℕ) (c : Cursor) → length c.rest < fuel → run fuel c ≢ spent
unfolding run skip_horizontal
run-ne-spent zero c small h = absurd (omega arith)
run-ne-spent (suc fuel) c small h =
    let (gap, (split, _), _, halt) = skip_lem is_blank false c.rest c.place refl in
    let less : length (skip_horizontal c).rest ≤ length c.rest =
      omega (arith, ap length split, length-append gap (skip_horizontal c).rest) in
    of_round (run-ne-spent fuel) less (run (suc fuel) c) (token_round-Round (run fuel) _ _ halt) h
  where
    of_round :
        ((c' : Cursor) → length c'.rest < fuel → run fuel c' ≢ spent)
        → length (skip_horizontal c).rest ≤ length c.rest
        → (o : Outcome (List Token))
        → Round (run fuel) (skip_horizontal c).rest (skip_horizontal c).place o
        → o ≡ spent
        → ⊥
    of_round ih less o (ends e) x = cc
    of_round ih less o (reads t c' r) x =
        ih c' (omega (arith, read-lt t c' (skip_horizontal c) r)) (prepend-spent t (run fuel c') x)
    of_round ih less o (stops_here o' ns nd np) x = ns x

-- `lex` ends on every text: with tokens, with a diagnostic or in a panic.
pub lex-ne-spent : (text : Str) → lex text ≢ spent
unfolding lex
lex-ne-spent text h = run-ne-spent (suc (length text)) (new_cursor text) (omega arith) h

-- The tokens that `lex` gives, each with its span, and gaps of blanks and comments between them
-- make up the text: nothing is lost, read twice or out of order. A token of punctuation is written
-- as it, a separator run begins with a separator and holds no more than separators, blanks and
-- comments, a word has none of the bytes that end one, a string stands between quotation marks, with
-- none inside but behind a backslash, and an environment reference between its braces.
pub lex-Covers :
    (text : Str) (ts : List Token)
    → lex text ≡ done ts
    → Covers text (record { pos = 0; line = 1; col = 1 }) ts
unfolding lex
lex-Covers text ts h = run-Covers (suc (length text)) (new_cursor text) ts h

prepend-panics : (t : Token) (o : Outcome (List Token)) → prepend t o ≡ panics → o ≡ panics
prepend-panics t (done us) h = cc
prepend-panics t (failed d) h = cc
prepend-panics t panics h = refl
prepend-panics t spent h = cc

All-append_right : (P : ℕ → Type 0) (s t : Str) → All P (s ++ t) → All P t
All-append_right P [] t a = a
All-append_right P (c ∷ s) t a = All-append_right P s t a.1

run-ne-panics : (fuel : ℕ) (c : Cursor) → All (λ b. b < 128) c.rest → run fuel c ≢ panics
unfolding run skip_horizontal
run-ne-panics zero c a h = cc
run-ne-panics (suc fuel) c a h =
    let (gap, (split, _), _, halt) = skip_lem is_blank false c.rest c.place refl in
    of_round (run-ne-panics fuel)
      (All-append_right (λ b. b < 128) gap _ (subst (All (λ b. b < 128)) split a))
      (run (suc fuel) c) (token_round-Round (run fuel) _ _ halt) h
  where
    of_round :
        ((c' : Cursor) → All (λ b. b < 128) c'.rest → run fuel c' ≢ panics)
        → All (λ b. b < 128) (skip_horizontal c).rest
        → (o : Outcome (List Token))
        → Round (run fuel) (skip_horizontal c).rest (skip_horizontal c).place o
        → o ≡ panics
        → ⊥
    of_round ih ascii o (ends e) x = cc
    of_round ih ascii o (reads t c' r) x =
        ih c'
          (All-append_right (λ b. b < 128) r.taken c'.rest
            (subst (All (λ b. b < 128)) r.takes.0 ascii))
          (prepend-panics t (run fuel c') x)
    of_round ih ascii o (stops_here o' ns nd np) x = np x ascii

-- ASCII text does not make the lexer panic.
pub lex-ascii : (text : Str) → All (λ b. b < 128) text → lex text ≢ panics
unfolding lex
lex-ascii text a h = run-ne-panics (suc (length text)) (new_cursor text) a h

-- A byte that stands for itself in a string literal, and is a character of its own.
abbrev pub IsPlain : ℕ → Type 0
IsPlain b = (ltb b 128 ≡ true) × ((b == b'"') ≡ false) × ((b == b'\\') ≡ false)

string_loop_panics :
    (start : Place) (inside : Bool) (plain : Str) (c d : ℕ) (s : Str) (p : Place) (value : Str)
    → All IsPlain plain
    → is_continuation d ≡ true
    → string_loop start inside (plain ++ (b'\\' ∷ c ∷ d ∷ s)) p value ≡ panics
unfolding string_loop
string_loop_panics start inside [] c d [] p value a h = ground arith
string_loop_panics start inside [] c d (e ∷ s) p value a h = ground arith
string_loop_panics start inside (b ∷ []) c d s p value (ok, oks) h =
    ground (arith, string_loop_panics start true [] c d s (bump b p) (value ++ (b ∷ [])) oks h)
string_loop_panics start inside (b ∷ b' ∷ plain) c d s p value (ok, oks) h =
    ground
      (arith, string_loop_panics start true (b' ∷ plain) c d s (bump b p) (value ++ (b ∷ [])) oks h)

starts_arrow-quote : (s : Str) → starts_arrow b'"' s ≡ false
starts_arrow-quote [] = refl
starts_arrow-quote (c ∷ s) = refl

-- A text that begins with a quotation mark, bytes that stand for themselves and a backslash before a
-- character of more than one byte makes the lexer panic: it copies the first byte of the character
-- and then slices the text inside the character.
pub escape_panics :
    (plain : Str) (c d : ℕ) (s : Str)
    → All IsPlain plain
    → is_continuation d ≡ true
    → lex (b'"' ∷ (plain ++ (b'\\' ∷ c ∷ d ∷ s))) ≡ panics
unfolding lex run skip_horizontal skip token_round next_token single
escape_panics plain c d s a h =
    rw
      (
        starts_arrow-quote (plain ++ (b'\\' ∷ c ∷ d ∷ s)),
        string_loop_panics (record { pos = 0; line = 1; col = 1 }) false plain c d s
            (bump b'"' (record { pos = 0; line = 1; col = 1 })) [] a h,
      )
      refl
