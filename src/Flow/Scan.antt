-- ===== src/Flow/Scan.antt =====
-- What each loop of the lexer takes off the text.
use pulsate.Prelude.{
  ℕ, All, any, ltb, ◌/◌, ◌%◌, ◌+◌, ◌-◌, ◌≡◌, ◌⊎◌, inl, inr, refl, ◌∙◌, ap, Bool, true, false, not,
  ◌||◌, ◌&&◌, [], ◌∷◌, ◌++◌, append_assoc, append-nil, length, Str, bytes, ◌==◌, if◌then◌else◌,
  arith, Bool-cases,
}
use pulsate.Flow.Span.{Outcome, done, panics}
use pulsate.Flow.Token.{TokenKind, str, env, atom, Token, Place, Cursor, bump, span_from}
use pulsate.Flow.Lexer.{
  stops, opens, skip, is_continuation, push_char, escape, string_loop, env_loop, ends_atom,
  starts_arrow, atom_loop, token_to, unterminated,
}

-- The place behind some bytes.
abbrev pub steps : Str → Place → Place
steps [] p = p
steps (c ∷ s) p = steps s (bump c p)

pub steps-append : (s t : Str) (p : Place) → steps (s ++ t) p ≡ steps t (steps s p)
steps-append [] t p = refl
steps-append (c ∷ s) t p = steps-append s t (bump c p)

pub pos-steps : (s : Str) (p : Place) → (steps s p).pos ≡ p.pos + length s
unfolding bump
pos-steps [] p = omega arith
pos-steps (c ∷ s) p = omega (arith, pos-steps s (bump c p))

-- `taken` stands before the cursor `c`, from the text and the place that are given.
abbrev pub Takes : Str → Str → Place → Cursor → Type 0
Takes taken text p c = (text ≡ taken ++ c.rest) × (c.place ≡ steps taken p)

-- Bytes that are trivial one after the other, comments included.
abbrev pub is_trivia : (ℕ → Bool) → Bool → Str → Bool
is_trivia trivial k [] = true
is_trivia trivial true (c ∷ s) =
    if c == b'\n' then trivial c && is_trivia trivial false s else is_trivia trivial true s
is_trivia trivial false (c ∷ s) =
    if c == b'#' then is_trivia trivial true s else trivial c && is_trivia trivial false s

-- The cursor stands at the end, or at a byte that is neither trivial nor opens a comment.
abbrev pub Halted : (ℕ → Bool) → Cursor → Type 0
Halted trivial c =
    (c.rest ≡ []) ⊎ ((b : ℕ) × (s : Str) × (c.rest ≡ b ∷ s) × (stops trivial false b ≡ true))

stops_closed :
    (trivial : ℕ → Bool) (k : Bool) (c : ℕ)
    → stops trivial k c ≡ true
    → stops trivial false c ≡ true
stops_closed trivial true c h = ground arith
stops_closed trivial false c h = h

is_trivia-cons :
    (trivial : ℕ → Bool) (k : Bool) (c : ℕ) (s : Str)
    → stops trivial k c ≡ false
    → is_trivia trivial (opens k c) s ≡ true
    → is_trivia trivial k (c ∷ s) ≡ true
is_trivia-cons trivial true c s h e = elim (Bool-cases (c == b'\n')) [
  | inl line ↦ ground arith
  | inr other ↦ ground arith
]
is_trivia-cons trivial false c s h e = elim (Bool-cases (c == b'#')) [
  | inl hash ↦ ground arith
  | inr other ↦ ground arith
]

pub skip_lem :
    (trivial : ℕ → Bool) (k : Bool) (text : Str) (p : Place)
    → trivial b'#' ≡ false
    → (taken : Str) × Takes taken text p (skip trivial k text p)
      × (is_trivia trivial k taken ≡ true)
      × Halted trivial (skip trivial k text p)
unfolding skip
skip_lem trivial k [] p h = ([], (refl, refl), refl, inl refl)
skip_lem trivial k (c ∷ s) p h = elim (Bool-cases (stops trivial k c)) [
  | inl stop ↦ rw stop ([], (refl, refl), refl, inr (c, s, refl, stops_closed trivial k c stop))
  | inr go ↦
      let (taken, (split, at), dull, halt) = skip_lem trivial (opens k c) s (bump c p) h in
      rw go (c ∷ taken, (ap (◌∷◌ c) split, at), is_trivia-cons trivial k c taken go dull, halt)
]

-- A token that ends with the byte `q`.
close_lem :
    (kind : TokenKind) (start : Place) (b q : ℕ) (rest : Str) (p : Place) (t : Token) (c : Cursor)
    → (b == q) ≡ true
    → token_to kind start rest (bump b p) ≡ done (t, c)
    → Takes (q ∷ []) (b ∷ rest) p c
      × (t ≡ record { kind = kind; span = span_from start (c.place.pos - start.pos) })
close_lem kind start b q rest p t c same h =
    let e : b ≡ q = ground arith in
    let left : c ≡ record { rest = rest; place = bump b p } = cc in
    let tok : t ≡ record { kind = kind; span = span_from start ((bump b p).pos - start.pos) } =
      cc in
    ((rw left (ap (λ x. x ∷ rest) e), rw left (ap (λ x. bump x p) e)), rw left tok)

pub env_loop_lem :
    (start : Place) (text : Str) (p : Place) (inner : Str) (t : Token) (c : Cursor)
    → env_loop start text p inner ≡ done (t, c)
    → (more : Str) × Takes (more ++ (b'}' ∷ [])) text p c
      × (t
          ≡ record { kind = env (inner ++ more); span = span_from start (c.place.pos - start.pos) })
      × All (λ x. (x == b'}') ≡ false) more
unfolding env_loop
env_loop_lem start [] p inner t c h = cc
env_loop_lem start (b ∷ s) p inner t c h = elim (Bool-cases (b == b'}')) [
  | inl close ↦
      let (takes, tok) = close_lem (env inner) start b b'}' s p t c close (rw close at h) in
      ([], takes, rw (append-nil inner) tok, tt)
  | inr other ↦
      let (more, (split, at), tok, open_still) =
        env_loop_lem start s (bump b p) (inner ++ (b ∷ [])) t c (rw other at h) in
      (
        b ∷ more,
        (ap (◌∷◌ b) split, at),
        tok
            ∙ ap (λ v. record { kind = env v; span = span_from start (c.place.pos - start.pos) })
                (append_assoc inner (b ∷ []) more),
        (other, open_still),
      )
]

-- The bytes that stand for themselves or end a word: blanks, separators, the comment sign, brackets,
-- the comma, the equals sign and the quotation mark.
abbrev pub reserved : Str
reserved = bytes " \t\r\n;#{}()[],=\""

abbrev pub IsWordByte : ℕ → Type 0
IsWordByte b = any (λ r. r == b) reserved ≡ false

pub ends_atom-IsWordByte : (b : ℕ) → ends_atom b ≡ false → IsWordByte b
ends_atom-IsWordByte b h = ground arith

pub atom_loop_lem :
    (start : Place) (text : Str) (p : Place) (raw : Str)
    → let (t, c) = atom_loop start text p raw in
      (more : Str) × Takes more text p c
      × (t ≡ record { kind = atom (raw ++ more); span = span_from start (c.place.pos - start.pos) })
      × All IsWordByte more
unfolding atom_loop
atom_loop_lem start [] p raw = ([], (refl, refl), rw (append-nil raw) refl, tt)
atom_loop_lem start (b ∷ s) p raw = elim (Bool-cases (ends_atom b || starts_arrow b s)) [
  | inl stop ↦ rw stop ([], (refl, refl), rw (append-nil raw) refl, tt)
  | inr go ↦
      let (more, (split, at), tok, words) = atom_loop_lem start s (bump b p) (raw ++ (b ∷ [])) in
      rw go (
        b ∷ more,
        (ap (◌∷◌ b) split, at),
        tok
            ∙ ap
                (λ v. record {
                  kind = atom v;
                  span =
                      span_from start
                        ((atom_loop start s (bump b p) (raw ++ (b ∷ []))).1.place.pos - start.pos);
                })
                (append_assoc raw (b ∷ []) more),
        (ends_atom-IsWordByte b (ground (arith, go)), words),
      )
]

-- The byte that an escaped byte names: a line feed, a tab and a carriage return by n, t and r, and
-- every other byte itself.
abbrev pub named_byte : ℕ → ℕ
named_byte c = if c == 110 then 10 else if c == 116 then 9 else if c == 114 then 13 else c

-- The character of the code below 256, in UTF-8.
abbrev pub as_char : ℕ → Str
as_char c = if ltb c 128 then c ∷ [] else (192 + c / 64) ∷ (128 + c % 64) ∷ []

-- What a string stands for: an escaped byte for what it names, the others for themselves.
unfoldable pub unquote : Str → Str
unquote [] = []
unquote (c ∷ []) = c ∷ []
unquote (c ∷ d ∷ s) =
    let escaped = as_char (named_byte d) ++ unquote s in
    let copied = c ∷ unquote (d ∷ s) in if c == b'\\' then escaped else copied

unquote-cons : (c : ℕ) (s : Str) → (c == b'\\') ≡ false → unquote (c ∷ s) ≡ c ∷ unquote s
unfolding unquote
unquote-cons c [] h = refl
unquote-cons c (d ∷ s) h = rw h refl

-- No quotation mark stands in the text but behind a backslash, and no backslash at its end.
unfoldable pub is_body : Str → Bool
is_body [] = true
is_body (c ∷ []) = not (c == b'"') && not (c == b'\\')
is_body (c ∷ d ∷ s) =
    let behind = is_body s in
    let next = is_body (d ∷ s) in if c == b'\\' then behind else (not (c == b'"') && next)

is_body-cons :
    (c : ℕ) (s : Str)
    → (c == b'"') ≡ false
    → (c == b'\\') ≡ false
    → is_body s ≡ true
    → is_body (c ∷ s) ≡ true
unfolding is_body
is_body-cons c [] q e h = rw (q, e) refl
is_body-cons c (d ∷ s) q e h = rw (e, q) h

pub string_loop_lem :
    (start : Place) (inside : Bool) (text : Str) (p : Place) (value : Str) (t : Token) (c : Cursor)
    → string_loop start inside text p value ≡ done (t, c)
    → (body : Str) × Takes (body ++ (b'"' ∷ [])) text p c
      × (t ≡ record {
        kind = str (value ++ unquote body);
        span = span_from start (c.place.pos - start.pos);
      })
      × (is_body body ≡ true)
unfolding string_loop unquote is_body
string_loop_lem start inside [] p value t c h = cc
string_loop_lem start inside (b ∷ []) p value t c h = elim (Bool-cases (b == b'"')) [
  | inl close ↦
      let (takes, tok) = close_lem (str value) start b b'"' [] p t c close (rw close at h) in
      ([], takes, rw (append-nil value) tok, refl)
  | inr other ↦ absurd (cut (is_continuation b && not inside) (rw other at h))
]
  where
    cut :
        (x : Bool)
        → (if x
            then panics
            else unterminated start
                (bump b p)
                (bytes "unterminated string literal")
                (bytes "add a closing `\"`"))
          ≡ done (t, c)
        → ⊥
    cut true e = cc
    cut false e = cc
string_loop_lem start inside (b ∷ d ∷ s) p value t c h = elim (Bool-cases (b == b'"')) [
  | inl close ↦
      let (takes, tok) = close_lem (str value) start b b'"' (d ∷ s) p t c close (rw close at h) in
      ([], takes, rw (append-nil value) tok, refl)
  | inr other ↦ elim (Bool-cases (b == b'\\')) [
    | inl esc ↦
        let (body, (split, at), tok, inner) =
          string_loop_lem start false s (bump d (bump b p)) (value ++ push_char (escape d)) t c
            (rw (other, esc) at h) in
        (
          b ∷ d ∷ body,
          (ap (λ x. b ∷ d ∷ x) split, at),
          tok
              ∙ ap (λ v. record { kind = str v; span = span_from start (c.place.pos - start.pos) })
                  (append_assoc value (push_char (escape d)) (unquote body) ∙ rw esc refl),
          rw esc inner,
        )
    | inr plain ↦ elim (Bool-cases (is_continuation b && not inside)) [
      | inl torn ↦ absurd (torn_apart (rw (other, plain, torn) at h))
      | inr whole ↦
          let (body, (split, at), tok, inner) =
            string_loop_lem start true (d ∷ s) (bump b p) (value ++ (b ∷ [])) t c
              (rw (other, plain, whole) at h) in
          (
            b ∷ body,
            (ap (◌∷◌ b) split, at),
            tok
                ∙ ap
                    (λ v. record { kind = str v; span = span_from start (c.place.pos - start.pos) })
                    (append_assoc value (b ∷ []) (unquote body)
                      ∙ rw (unquote-cons b body plain) refl),
            is_body-cons b body other plain inner,
          )
    ]
  ]
]
  where
    torn_apart : ◌≡◌ {A = Outcome (Token × Cursor)} panics (done (t, c)) → ⊥
    torn_apart x = cc
