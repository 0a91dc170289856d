-- ===== src/Flow/Advance.antt =====
-- The parser's arguments and matchers end, and leave fewer tokens behind.
use pulsate.Prelude.{
  ℕ, zero, suc, ◌<◌, ◌≡◌, ◌≢◌, inl, inr, refl, true, ◌&&◌, List, [], ◌∷◌, Str, str_eq, bytes, arith,
  Bool-cases,
}
use pulsate.Flow.Span.{Span}
use pulsate.Flow.Token.{TokenKind, lbracket, rbracket, equals, eof, atom, Token}
use pulsate.Flow.Value.{Spanned}
use pulsate.Flow.Ast.{Arg, MatchKind, prefix, exact, regex, Predicate, Matcher}
use pulsate.Flow.Parser.{
  Parser, left, advance, is_atom, is_equals, is_rbracket, next_kind, named_arg, parse_arg,
}
use pulsate.Flow.Routes.{
  Printer, predicate_behind, predicate_at, close_predicates, parse_predicates, predicates_if,
  pattern_at, matcher_at, parse_matcher,
}
use pulsate.Flow.Statements.{starts_arg, space_args}
use pulsate.Flow.Progress.{
  Ended, Within, Leaves, Succeeds, yields, refuses, Succeeds-bind, Succeeds-map, advance-Within,
  not_eof, Within-weaken, comma_loop-Leaves, parse_value-Leaves,
}

is_equals-ne_eof : (k : TokenKind) → is_equals k ≡ true → k ≢ eof
is_equals-ne_eof equals h e = cc
is_equals-ne_eof k h e = cc

is_equals-next :
    (p : Parser)
    → is_equals (next_kind p) ≡ true
    → Ended p.current p.rest
    → p.current.kind ≢ eof
    → (advance p).current.kind ≢ eof
unfolding Ended
is_equals-next p h e ne = by_rest p.rest refl
  where
    by_rest : (ts : List Token) → p.rest ≡ ts → (advance p).current.kind ≢ eof
    by_rest [] at = absurd (ne (rw at at e))
    by_rest (t ∷ ts) at = rw at (is_equals-ne_eof t.kind (rw at at h))

is_atom-ne_eof : (k : TokenKind) → is_atom k ≡ true → k ≢ eof
is_atom-ne_eof (atom s) h e = cc
is_atom-ne_eof k h e = cc

named_arg-Leaves :
    (k : TokenKind) (p : Parser)
    → p.current.kind ≢ eof
    → (advance p).current.kind ≢ eof
    → Ended p.current p.rest
    → Succeeds (Leaves {A = Arg} (left p)) (named_arg k p)
named_arg-Leaves (atom name) p ne ne' e =
    let w : Within (left p) (advance p) = advance-Within (left p) p ne e (omega arith) in
    let w' : Within (left p) (advance (advance p)) =
      advance-Within (left p) (advance p) ne' w.ended (omega (arith, w.few)) in
    Succeeds-bind (parse_value-Leaves (advance (advance p)) w'.ended)
      (λ (v, q) wq. yields _ (Within-weaken (omega (arith, w'.few)) wq))
named_arg-Leaves k p ne ne' e = refuses

pub parse_arg-Leaves :
    (p : Parser) → Ended p.current p.rest → Succeeds (Leaves {A = Arg} (left p)) (parse_arg p)
unfolding parse_arg
parse_arg-Leaves p e = elim (Bool-cases (is_atom p.current.kind && is_equals (next_kind p))) [
  | inl h ↦
      let ne : p.current.kind ≢ eof = is_atom-ne_eof p.current.kind (ground (arith, h)) in
      rw (parse_arg, h)
        (named_arg-Leaves p.current.kind p ne (is_equals-next p (ground (arith, h)) e ne) e)
  | inr h ↦ rw (parse_arg, h) (Succeeds-bind (parse_value-Leaves p e) (λ (v, q) w. yields _ w))
]

pub space_args-Leaves :
    (n : ℕ) (p : Parser)
    → Ended p.current p.rest
    → left p < n
    → Succeeds (Leaves {A = List Arg} (suc (left p))) (space_args n p)
unfolding space_args
space_args-Leaves zero p e small = absurd (omega arith)
space_args-Leaves (suc n) p e small = elim (Bool-cases (starts_arg p.current.kind)) [
  | inl h ↦
      rw (space_args, h)
        (Succeeds-bind (parse_arg-Leaves p e) λ (a, q) wq.
          Succeeds-bind (space_args-Leaves n q wq.ended (omega (arith, wq.few)))
            λ (more, r) wr. yields (a ∷ more, r) (Within-weaken (omega (arith, wq.few)) wr))
  | inr h ↦ rw (space_args, h) (yields ([], p) (record { ended = e; few = omega arith }))
]

is_rbracket-ne_eof : (k : TokenKind) → is_rbracket k ≡ true → k ≢ eof
is_rbracket-ne_eof rbracket h e = cc
is_rbracket-ne_eof k h e = cc

predicate_behind-Leaves :
    (out : Printer) (key : Str) (at : Span) (p : Parser)
    → Ended p.current p.rest
    → Succeeds (Leaves {A = Predicate} (suc (left p))) (predicate_behind out key at p)
predicate_behind-Leaves out key at p e = elim (Bool-cases (is_equals p.current.kind)) [
  | inl h ↦
      let w : Within (left p) (advance p) =
        advance-Within (left p) p (is_equals-ne_eof p.current.kind h) e (omega arith) in
      rw (predicate_behind, h)
        (Succeeds-bind (parse_value-Leaves (advance p) w.ended)
          λ (v, q) wq. yields _ (Within-weaken (omega (arith, w.few)) wq))
  | inr h ↦ rw (predicate_behind, h) (yields _ (record { ended = e; few = omega arith }))
]

predicate_at-Leaves :
    (out : Printer) (k : TokenKind) (p : Parser)
    → p.current.kind ≡ k
    → Ended p.current p.rest
    → Succeeds (Leaves {A = Predicate} (left p)) (predicate_at out k p)
predicate_at-Leaves out (atom key) p at e =
    let w : Within (left p) (advance p) =
      advance-Within (left p) p (not_eof at refl) e (omega arith) in
    Succeeds-map (λ x. Within-weaken (omega (arith, w.few)))
      (predicate_behind-Leaves out key p.current.span (advance p) w.ended)
predicate_at-Leaves out k p at e = refuses

parse_predicates-Leaves :
    (out : Printer) (p : Parser)
    → p.current.kind ≡ lbracket
    → Ended p.current p.rest
    → Succeeds (Leaves {A = List Predicate × ℕ} (left p)) (parse_predicates out p)
unfolding parse_predicates
parse_predicates-Leaves out p at e =
    Succeeds-bind
      (comma_loop-Leaves (left p) is_rbracket (λ r. predicate_at out r.current.kind r)
        (λ q w. predicate_at-Leaves out q.current.kind q refl w.ended) (suc (left p)) (advance p) w
        (omega (arith, w.few)))
      (λ (ps, q) wq. closed ps q wq)
  where
    w : Within (left p) (advance p)
    w = advance-Within (left p) p (not_eof at refl) e (omega arith)

    closed :
        (ps : List Predicate) (q : Parser)
        → Within (left p) q
        → Succeeds (Leaves {A = List Predicate × ℕ} (left p)) (close_predicates ps q)
    closed ps q wq = elim (Bool-cases (is_rbracket q.current.kind)) [
      | inl h ↦
          rw (close_predicates, h)
            (yields _ (
              advance-Within (left p) q (is_rbracket-ne_eof q.current.kind h) wq.ended
                (omega (arith, wq.few))))
      | inr h ↦ rw (close_predicates, h) refuses
    ]

predicates_if-Leaves :
    (out : Printer) (kind : MatchKind) (start : Span) (pattern : Spanned Str) (k : TokenKind)
    (p : Parser)
    → p.current.kind ≡ k
    → Ended p.current p.rest
    → Succeeds (Leaves {A = Matcher} (suc (left p))) (predicates_if out kind start pattern k p)
predicates_if-Leaves out kind start pattern lbracket p at e =
    Succeeds-bind (parse_predicates-Leaves out p at e)
      λ (x, q) w. yields _ (Within-weaken (omega arith) w)
predicates_if-Leaves out kind start pattern k p at e =
    yields _ (record { ended = e; few = omega arith })

pattern_at-Leaves :
    (out : Printer) (kind : MatchKind) (start : Span) (k : TokenKind) (p : Parser)
    → p.current.kind ≡ k
    → Ended p.current p.rest
    → Succeeds (Leaves {A = Matcher} (left p)) (pattern_at out kind start k p)
pattern_at-Leaves out kind start (atom pat) p at e =
    let w : Within (left p) (advance p) =
      advance-Within (left p) p (not_eof at refl) e (omega arith) in
    Succeeds-map (λ x. Within-weaken (omega (arith, w.few)))
      (predicates_if-Leaves out kind start (record { node = pat; span = p.current.span })
        (advance p).current.kind (advance p) refl w.ended)
pattern_at-Leaves out kind start k p at e = refuses

moved_on-Leaves :
    (out : Printer) (kind : MatchKind) (p : Parser)
    → p.current.kind ≢ eof
    → Ended p.current p.rest
    → Succeeds
        (Leaves {A = Matcher} (left p))
        (pattern_at out kind p.current.span (advance p).current.kind (advance p))
moved_on-Leaves out kind p ne e =
    let w : Within (left p) (advance p) = advance-Within (left p) p ne e (omega arith) in
    Succeeds-map (λ x. Within-weaken (omega (arith, w.few)))
      (pattern_at-Leaves out kind p.current.span (advance p).current.kind (advance p) refl w.ended)

matcher_at-Leaves :
    (out : Printer) (k : TokenKind) (p : Parser)
    → p.current.kind ≡ k
    → Ended p.current p.rest
    → Succeeds (Leaves {A = Matcher} (left p)) (matcher_at out k p)
matcher_at-Leaves out equals p at e = moved_on-Leaves out exact p (not_eof at refl) e
matcher_at-Leaves out (atom a) p at e = elim (Bool-cases (str_eq a (bytes "~"))) [
  | inl h ↦ rw (matcher_at, h) (moved_on-Leaves out regex p (not_eof at refl) e)
  | inr h ↦ rw (matcher_at, h) (pattern_at-Leaves out prefix p.current.span (atom a) p at e)
]
matcher_at-Leaves out k p at e = pattern_at-Leaves out prefix p.current.span k p at e

pub parse_matcher-Leaves :
    (out : Printer) (p : Parser)
    → Ended p.current p.rest
    → Succeeds (Leaves {A = Matcher} (left p)) (parse_matcher out p)
unfolding parse_matcher
parse_matcher-Leaves out p e = matcher_at-Leaves out p.current.kind p refl e
