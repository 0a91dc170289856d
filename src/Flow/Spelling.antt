-- ===== src/Flow/Spelling.antt =====
-- What the text of each kind of token looks like, and that `next_token` reads it.
use pulsate.Prelude.{
  ℕ, ◌-◌, ◌≡◌, ◌≢◌, inl, inr, refl, sym, ap, Bool, true, false, ◌||◌, none, some, [], ◌∷◌, ◌++◌,
  Str, bytes, ◌==◌, All, arith, Bool-cases, Option-cases,
}
use pulsate.Flow.Span.{Outcome, done}
use pulsate.Flow.Token.{
  TokenKind, lbrace, rbrace, lparen, rparen, lbracket, rbracket, comma, equals, arrow, sep, eof,
  str, env, atom, Token, Place, Cursor, bump, span_from,
}
use pulsate.Flow.Lexer.{
  is_blank, is_sep, is_sep_or_blank, stops, env_loop, ends_atom, starts_arrow, atom_loop, single,
  starts_env, tail_of, next_token,
}
use pulsate.Flow.Scan.{
  Takes, is_trivia, unquote, is_body, IsWordByte, ends_atom-IsWordByte, env_loop_lem, atom_loop_lem,
  string_loop_lem,
}

-- The text of a token of the kind.
abbrev pub Spells : TokenKind → Str → Type 0
Spells lbrace t = t ≡ bytes "{"
Spells rbrace t = t ≡ bytes "}"
Spells lparen t = t ≡ bytes "("
Spells rparen t = t ≡ bytes ")"
Spells lbracket t = t ≡ bytes "["
Spells rbracket t = t ≡ bytes "]"
Spells comma t = t ≡ bytes ","
Spells equals t = t ≡ bytes "="
Spells arrow t = t ≡ bytes "~>"
Spells sep t =
    ((b : ℕ) × (s : Str) × (t ≡ b ∷ s) × (is_sep b ≡ true))
    × (is_trivia is_sep_or_blank false t ≡ true)
Spells eof t = t ≡ []
Spells (str v) t =
    (body : Str) × (t ≡ b'"' ∷ (body ++ (b'"' ∷ []))) × (v ≡ unquote body) × (is_body body ≡ true)
Spells (env v) t = (t ≡ bytes "${" ++ (v ++ bytes "}")) × All (λ x. (x == b'}') ≡ false) v
Spells (atom v) t = (t ≡ v) × (v ≢ []) × All IsWordByte v

-- Only the end of the input is spelled by nothing.
abbrev pub is_eof : TokenKind → Bool
is_eof eof = true
is_eof _ = false

pub Spells-nil : (k : TokenKind) → is_eof k ≡ false → Spells k [] → ⊥
Spells-nil lbrace e h = cc
Spells-nil rbrace e h = cc
Spells-nil lparen e h = cc
Spells-nil rparen e h = cc
Spells-nil lbracket e h = cc
Spells-nil rbracket e h = cc
Spells-nil comma e h = cc
Spells-nil equals e h = cc
Spells-nil arrow e h = cc
Spells-nil sep e ((b, s, h, _), _) = cc
Spells-nil eof e h = cc
Spells-nil (str v) e (body, h, _, _) = cc
Spells-nil (env v) e (h, _) = cc
Spells-nil (atom v) e (h, n, _) = n (sym h)

-- `t` is read from the place `p` off the text, up to the cursor.
pub record IsRead (t : Token) (c : Cursor) (text : Str) (p : Place) : Type 0 where
  pub taken : Str
  pub takes : Takes taken text p c
  pub spans : t.span ≡ span_from p (c.place.pos - p.pos)
  pub spells : Spells t.kind taken
  pub not_eof : is_eof t.kind ≡ false

single_lem : (b : ℕ) (k : TokenKind) → single b ≡ some k → Spells k (b ∷ []) × (is_eof k ≡ false)
unfolding single
single_lem b lbrace h = (ground arith, refl)
single_lem b rbrace h = (ground arith, refl)
single_lem b lparen h = (ground arith, refl)
single_lem b rparen h = (ground arith, refl)
single_lem b lbracket h = (ground arith, refl)
single_lem b rbracket h = (ground arith, refl)
single_lem b comma h = (ground arith, refl)
single_lem b equals h = (ground arith, refl)
single_lem b arrow h = absurd (ground arith)
single_lem b sep h = absurd (ground arith)
single_lem b eof h = absurd (ground arith)
single_lem b (str v) h = absurd (ground arith)
single_lem b (env v) h = absurd (ground arith)
single_lem b (atom v) h = absurd (ground arith)

atom_goes_on :
    (b : ℕ)
    → stops is_blank false b ≡ true
    → is_sep b ≡ false
    → single b ≡ none
    → (b == b'"') ≡ false
    → ends_atom b ≡ false
unfolding single
atom_goes_on b solid inner multi bare = ground arith

atom-IsRead :
    (b : ℕ) (s : Str) (p : Place)
    → ends_atom b ≡ false
    → starts_arrow b s ≡ false
    → IsRead (atom_loop p (b ∷ s) p []).0 (atom_loop p (b ∷ s) p []).1 (b ∷ s) p
unfolding atom_loop
atom-IsRead b s p ends arrows =
    let on : (ends_atom b || starts_arrow b s) ≡ false = rw (ends, arrows) refl in
    let (more, (split, at), tok, words) = atom_loop_lem p s (bump b p) (b ∷ []) in
    rw on (record {
      taken = b ∷ more;
      takes = (ap (◌∷◌ b) split, at);
      spans = ap (λ x. x.span) tok;
      spells = rw tok (refl, λ h. cc, (ends_atom-IsWordByte b ends, words));
      not_eof = rw tok refl;
    })

pub next_token_lem :
    (b : ℕ) (s : Str) (p : Place) (t : Token) (c : Cursor)
    → stops is_blank false b ≡ true
    → is_sep b ≡ false
    → next_token b s p ≡ done (t, c)
    → IsRead t c (b ∷ s) p
unfolding next_token bump
next_token_lem b s p t c solid inner h = elim (Option-cases (single b)) [
  | inr (k, e) ↦
      let (spelled, whole) = single_lem b k e in
      of_done (record { kind = k; span = span_from p 1 }) (record { rest = s; place = bump b p })
        (rw (e, next_token) at h)
        (record {
          taken = b ∷ [];
          takes = (refl, refl);
          spans = ap (span_from p) (omega arith);
          spells = spelled;
          not_eof = whole;
        })
  | inl multi ↦ elim (Bool-cases (starts_arrow b s)) [
    | inl flows ↦
        of_done (record { kind = arrow; span = span_from p 2 })
          (record { rest = tail_of s; place = bump b'>' (bump b p) })
          (rw (multi, next_token, flows) at h) (arrow_read b s flows)
    | inr still ↦ elim (Bool-cases (b == b'"')) [
      | inl quote ↦
          let (body, (split, at), tok, inner_ok) =
            string_loop_lem p false s (bump b p) [] t c
              (rw (multi, next_token, still, quote) at h) in
          let e : b ≡ b'"' = ground arith in
          record {
            taken = b ∷ (body ++ (b'"' ∷ []));
            takes = (ap (◌∷◌ b) split, at);
            spans = ap (λ x. x.span) tok;
            spells = rw tok (body, ap (λ x. x ∷ (body ++ (b'"' ∷ []))) e, refl, inner_ok);
            not_eof = rw tok refl;
          }
      | inr bare ↦ elim (Bool-cases (starts_env b s)) [
        | inl dollar ↦ env_read b s t c dollar (rw (multi, next_token, still, bare, dollar) at h)
        | inr plain ↦
            of_done (atom_loop p (b ∷ s) p []).0 (atom_loop p (b ∷ s) p []).1
              (rw (multi, next_token, still, bare, plain) at h)
              (atom-IsRead b s p (atom_goes_on b solid inner multi bare) still)
      ]
    ]
  ]
]
  where
    of_done :
        (t' : Token) (c' : Cursor)
        → ◌≡◌ {A = Outcome (Token × Cursor)} (done (t', c')) (done (t, c))
        → IsRead t' c' (b ∷ s) p
        → IsRead t c (b ∷ s) p
    of_done t' c' e r = let te : t ≡ t' = cc in let ce : c ≡ c' = cc in rw (te, ce) r

    arrow_read :
        (b : ℕ) (s : Str)
        → starts_arrow b s ≡ true
        → IsRead
            (record { kind = arrow; span = span_from p 2 })
            (record { rest = tail_of s; place = bump b'>' (bump b p) })
            (b ∷ s)
            p
    arrow_read b [] e = cc
    arrow_read b (d ∷ s) e =
        let be : b ≡ b'~' = ground arith in
        let de : d ≡ b'>' = ground arith in
        rw (be, de)
          (record {
            taken = bytes "~>";
            takes = (refl, refl);
            spans = ap (span_from p) (omega arith);
            spells = refl;
            not_eof = refl;
          })

    env_read :
        (b : ℕ) (s : Str) (t : Token) (c : Cursor)
        → starts_env b s ≡ true
        → env_loop p (tail_of s) (bump b'{' (bump b p)) [] ≡ done (t, c)
        → IsRead t c (b ∷ s) p
    env_read b [] t c e h = cc
    env_read b (d ∷ s) t c e h =
        let be : b ≡ b'$' = ground arith in
        let de : d ≡ b'{' = ground arith in
        let (more, (split, at), tok, open_still) =
          env_loop_lem p s (bump b'{' (bump b p)) [] t c h in
        record {
          taken = b ∷ d ∷ (more ++ (b'}' ∷ []));
          takes = (ap (λ x. b ∷ d ∷ x) split, rw de at);
          spans = ap (λ x. x.span) tok;
          spells = rw (tok, be, de) (refl, open_still);
          not_eof = rw tok refl;
        }
