-- ===== src/Flow/Round.antt =====
-- A round of `run`: what it reads, and how it ends.
use pulsate.Prelude.{
  ℕ, ◌-◌, ◌<◌, ◌≡◌, ◌≢◌, inl, inr, refl, ◌∙◌, ap, subst, Bool, true, false, List, [], ◌∷◌, ◌++◌,
  length, length-append, Str, All, arith, Bool-cases,
}
use pulsate.Flow.Span.{Outcome, done, failed, panics, spent, ◌>>=◌}
use pulsate.Flow.Token.{sep, eof, Token, Place, Cursor, bump, span_from}
use pulsate.Flow.Lexer.{
  is_blank, is_sep, is_sep_or_blank, stops, skip, consume_separator_run, push_char, escape,
  string_loop, env_loop, tail_of, next_token, prepend, token_round,
}
use pulsate.Flow.Scan.{steps, pos-steps, Takes, is_trivia, Halted, skip_lem}
use pulsate.Flow.Spelling.{Spells, is_eof, Spells-nil, IsRead, next_token_lem}

-- The text that begins at the place is gaps of blanks and comments, and between them the texts of
-- the tokens in their order, each with its span, up to one end of input at the end of the text.
pub data Covers : Str → Place → List Token → Type 0 where
  at_end :
      {text : Str} {p : Place}
      → is_trivia is_blank false text ≡ true
      → Covers text p (record { kind = eof; span = span_from (steps text p) 0 } ∷ [])
  token_at :
      {text : Str} {p : Place} {t : Token} {ts : List Token} (gap taken rest : Str)
      → text ≡ gap ++ (taken ++ rest)
      → is_trivia is_blank false gap ≡ true
      → Spells t.kind taken
      → is_eof t.kind ≡ false
      → t.span ≡ span_from (steps gap p) (length taken)
      → Covers rest (steps taken (steps gap p)) ts
      → Covers text p (t ∷ ts)

pub prepend-cases :
    (t : Token) (o : Outcome (List Token)) (ts : List Token)
    → prepend t o ≡ done ts
    → (us : List Token) × (o ≡ done us) × (ts ≡ t ∷ us)
prepend-cases t (done us) ts h = (us, refl, cc)
prepend-cases t (failed d) ts h = cc
prepend-cases t panics ts h = cc
prepend-cases t spent ts h = cc

pub prepend-spent : (t : Token) (o : Outcome (List Token)) → prepend t o ≡ spent → o ≡ spent
prepend-spent t (done us) h = cc
prepend-spent t (failed d) h = cc
prepend-spent t panics h = cc
prepend-spent t spent h = refl

-- A separator run is one token.
sep-IsRead :
    (b : ℕ) (s : Str) (p : Place)
    → is_sep b ≡ true
    → let c = consume_separator_run (record { rest = b ∷ s; place = p }) in
      IsRead (record { kind = sep; span = span_from p (c.place.pos - p.pos) }) c (b ∷ s) p
unfolding consume_separator_run
sep-IsRead b s p h =
    let (taken, takes, dull, halt) = skip_lem is_sep_or_blank false (b ∷ s) p refl in
    record {
      taken = taken;
      takes = takes;
      spans = refl;
      spells = (starts taken (skip is_sep_or_blank false (b ∷ s) p) takes halt, dull);
      not_eof = refl;
    }
  where
    starts :
        (taken : Str) (c : Cursor)
        → Takes taken (b ∷ s) p c
        → Halted is_sep_or_blank c
        → (x : ℕ) × (r : Str) × (taken ≡ x ∷ r) × (is_sep x ≡ true)
    starts [] c (split, _) (inl e) = cc
    starts [] c (split, _) (inr (x, r, e, stop)) = let same : b ≡ x = cc in absurd (ground arith)
    starts (x ∷ r) c (split, _) halt = let same : b ≡ x = cc in (x, r, refl, rw (← same) h)

-- One token behind a gap, and the cover of the rest.
pub cover_next :
    (t : Token) (c c' : Cursor) (gap text : Str) (p : Place) (ts : List Token)
    → Takes gap text p c'
    → is_trivia is_blank false gap ≡ true
    → IsRead t c c'.rest c'.place
    → Covers c.rest c.place ts
    → Covers text p (t ∷ ts)
cover_next t c c' gap text p ts (split, at) dull r cover =
    token_at gap r.taken c.rest (split ∙ ap (λ x. gap ++ x) r.takes.0) dull r.spells r.not_eof
      (rw (← at) (r.spans ∙ ap (span_from c'.place) len))
      (subst (λ q. Covers c.rest q ts) (r.takes.1 ∙ ap (steps r.taken) at) cover)
  where
    len : c.place.pos - c'.place.pos ≡ length r.taken
    len = omega (arith, ap (λ q. q.pos) r.takes.1, pos-steps r.taken c'.place)

-- A token leaves less text than stood before it.
pub read-lt :
    (t : Token) (c c' : Cursor) → IsRead t c c'.rest c'.place → length c.rest < length c'.rest
read-lt t c c' r = by_taken r.taken refl
  where
    by_taken : (taken : Str) → r.taken ≡ taken → length c.rest < length c'.rest
    by_taken [] e = absurd (Spells-nil t.kind r.not_eof (subst (Spells t.kind) e r.spells))
    by_taken (x ∷ taken) e =
        omega (arith, ap length r.takes.0, ap length e, length-append r.taken c.rest)

string_loop-ne-spent :
    (start : Place) (inside : Bool) (text : Str) (p : Place) (value : Str)
    → string_loop start inside text p value ≢ spent
unfolding string_loop
string_loop-ne-spent start inside [] p value h = cc
string_loop-ne-spent start inside (c ∷ []) p value h = ground arith
string_loop-ne-spent start inside (c ∷ d ∷ s) p value h = ground (
  arith,
  string_loop-ne-spent start false s (bump d (bump c p)) (value ++ push_char (escape d)),
  string_loop-ne-spent start true (d ∷ s) (bump c p) (value ++ (c ∷ [])),
)

env_loop-ne-spent :
    (start : Place) (text : Str) (p : Place) (inner : Str) → env_loop start text p inner ≢ spent
unfolding env_loop
env_loop-ne-spent start [] p inner h = cc
env_loop-ne-spent start (c ∷ s) p inner h =
    ground (arith, env_loop-ne-spent start s (bump c p) (inner ++ (c ∷ [])))

next_token-ne-spent : (b : ℕ) (s : Str) (p : Place) → next_token b s p ≢ spent
unfolding next_token
next_token-ne-spent b s p h = ground (
  arith,
  string_loop-ne-spent p false s (bump b p) [],
  env_loop-ne-spent p (tail_of s) (bump b'{' (bump b p)) [],
)

string_loop-ne-panics :
    (start : Place) (inside : Bool) (text : Str) (p : Place) (value : Str)
    → All (λ c. c < 128) text
    → string_loop start inside text p value ≢ panics
unfolding string_loop
string_loop-ne-panics start inside [] p value a h = cc
string_loop-ne-panics start inside (c ∷ []) p value a h = ground arith
string_loop-ne-panics start inside (c ∷ d ∷ s) p value a h = ground (
  arith,
  string_loop-ne-panics start false s (bump d (bump c p)) (value ++ push_char (escape d)) a.1.1,
  string_loop-ne-panics start true (d ∷ s) (bump c p) (value ++ (c ∷ [])) a.1,
)

env_loop-ne-panics :
    (start : Place) (text : Str) (p : Place) (inner : Str) → env_loop start text p inner ≢ panics
unfolding env_loop
env_loop-ne-panics start [] p inner h = cc
env_loop-ne-panics start (c ∷ s) p inner h =
    ground (arith, env_loop-ne-panics start s (bump c p) (inner ++ (c ∷ [])))

next_token-ne-panics :
    (b : ℕ) (s : Str) (p : Place) → All (λ c. c < 128) (b ∷ s) → next_token b s p ≢ panics
unfolding next_token
next_token-ne-panics b s p a h = ground (
  arith,
  string_loop-ne-panics p false s (bump b p) [] a.1,
  env_loop-ne-panics p (tail_of s) (bump b'{' (bump b p)) [],
)

-- A round behind the trivia ends, fails, or reads a token and goes on behind it.
pub data Round (more : Cursor → Outcome (List Token)) (text : Str) (p : Place)
    : Outcome (List Token) → Type 0 where
  ends : text ≡ [] → Round more text p (done (record { kind = eof; span = span_from p 0 } ∷ []))
  reads : (t : Token) (c : Cursor) → IsRead t c text p → Round more text p (prepend t (more c))
  stops_here :
      (o : Outcome (List Token))
      → o ≢ spent
      → ((ts : List Token) → o ≢ done ts)
      → (o ≡ panics → All (λ c. c < 128) text → ⊥)
      → Round more text p o

pub token_round-Round :
    (more : Cursor → Outcome (List Token)) (text : Str) (p : Place)
    → Halted is_blank (record { rest = text; place = p })
    → Round more text p (token_round more text p)
unfolding token_round
token_round-Round more [] p halt = ends refl
token_round-Round more (b ∷ s) p (inl e) = cc
token_round-Round more (b ∷ s) p (inr (x, r, e, stop)) = elim (Bool-cases (is_sep b)) [
  | inl separates ↦ rw (separates, token_round) (reads _ _ (sep-IsRead b s p separates))
  | inr inner ↦ rw (inner, token_round) (by_token inner (next_token b s p) refl)
]
  where
    solid : stops is_blank false b ≡ true
    solid = let same : b ≡ x = cc in rw same stop

    by_token :
        is_sep b ≡ false
        → (o : Outcome (Token × Cursor)) → next_token b s p ≡ o
        → Round more (b ∷ s) p (o >>= λ (t, behind). prepend t (more behind))
    by_token inner (done (t, c)) h = reads t c (next_token_lem b s p t c solid inner h)
    by_token inner (failed d) h = stops_here (failed d) (λ x. cc) (λ ts x. cc) (λ x a. cc)
    by_token inner panics h =
        stops_here panics (λ x. cc) (λ ts x. cc) (λ x a. next_token-ne-panics b s p a h)
    by_token inner spent h = absurd (next_token-ne-spent b s p h)
