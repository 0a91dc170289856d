-- ===== src/Flow/Pipelines.antt =====
-- The parser's steps and routes end, and leave fewer tokens behind.
use pulsate.Prelude.{
  ℕ, zero, suc, ◌<◌, ◌≡◌, ◌≢◌, inl, inr, refl, true, List, [], ◌∷◌, Str, arith, Bool-cases,
}
use pulsate.Flow.Span.{Outcome}
use pulsate.Flow.Token.{TokenKind, lparen, rparen, arrow, eof, atom}
use pulsate.Flow.Value.{Spanned}
use pulsate.Flow.Ast.{Arg, Step, Route}
use pulsate.Flow.Parser.{Parser, left, advance, is_rparen, parse_arg}
use pulsate.Flow.Routes.{
  Printer, close_args, step_behind, step_at, parse_step, is_arrow, steps_round, steps_loop,
  parse_route,
}
use pulsate.Flow.Progress.{
  Ended, Within, Leaves, Succeeds, yields, refuses, Succeeds-bind, Succeeds-map, advance-Within,
  not_eof, Within-weaken, skip_seps-Within, comma_loop-Leaves,
}
use pulsate.Flow.Advance.{parse_arg-Leaves, parse_matcher-Leaves}

is_rparen-ne_eof : (k : TokenKind) → is_rparen k ≡ true → k ≢ eof
is_rparen-ne_eof rparen h e = cc
is_rparen-ne_eof k h e = cc

is_arrow-ne_eof : (k : TokenKind) → is_arrow k ≡ true → k ≢ eof
is_arrow-ne_eof arrow h e = cc
is_arrow-ne_eof k h e = cc

step_behind-Leaves :
    (name : Spanned Str) (k : TokenKind) (p : Parser)
    → p.current.kind ≡ k
    → Ended p.current p.rest
    → Succeeds (Leaves {A = Step} (suc (left p))) (step_behind name k p)
step_behind-Leaves name lparen p at e =
    Succeeds-bind
      (comma_loop-Leaves (left p) is_rparen parse_arg (λ q w. parse_arg-Leaves q w.ended)
        (suc (left p)) (advance p) w (omega (arith, w.few)))
      (λ (args, q) wq. closed args q wq)
  where
    w : Within (left p) (advance p)
    w = advance-Within (left p) p (not_eof at refl) e (omega arith)

    closed :
        (args : List Arg) (q : Parser)
        → Within (left p) q
        → Succeeds (Leaves {A = Step} (suc (left p))) (close_args name args q)
    closed args q wq = elim (Bool-cases (is_rparen q.current.kind)) [
      | inl h ↦
          rw (close_args, h)
            (yields _ (
              advance-Within (suc (left p)) q (is_rparen-ne_eof q.current.kind h) wq.ended
                (omega (arith, wq.few))))
      | inr h ↦ rw (close_args, h) refuses
    ]
step_behind-Leaves name k p at e = yields _ (record { ended = e; few = omega arith })

step_at-Leaves :
    (k : TokenKind) (p : Parser)
    → p.current.kind ≡ k
    → Ended p.current p.rest
    → Succeeds (Leaves {A = Step} (left p)) (step_at k p)
step_at-Leaves (atom name) p at e =
    let w : Within (left p) (advance p) =
      advance-Within (left p) p (not_eof at refl) e (omega arith) in
    Succeeds-map (λ x. Within-weaken (omega (arith, w.few)))
      (step_behind-Leaves (record { node = name; span = p.current.span }) (advance p).current.kind
        (advance p) refl w.ended)
step_at-Leaves k p at e = refuses

parse_step-Leaves :
    (p : Parser) → Ended p.current p.rest → Succeeds (Leaves {A = Step} (left p)) (parse_step p)
unfolding parse_step
parse_step-Leaves p e = step_at-Leaves p.current.kind p refl e

steps_round-Leaves :
    (more : Parser → Outcome (List Step × Parser)) (p : Parser)
    → Ended p.current p.rest
    → ((q : Parser) → Within (left p) q → Succeeds (Leaves {A = List Step} (left p)) (more q))
    → Succeeds (Leaves {A = List Step} (suc (left p))) (steps_round more p)
steps_round-Leaves more p e ih = elim (Bool-cases (is_arrow p.current.kind)) [
  | inl h ↦
      let w : Within (left p) (advance p) =
        advance-Within (left p) p (is_arrow-ne_eof p.current.kind h) e (omega arith) in
      rw (steps_round, h)
        (Succeeds-bind (skip_seps-Within (advance p) w.ended) λ q wq.
          Succeeds-bind (parse_step-Leaves q wq.ended) λ (s, r) wr.
            Succeeds-bind (ih r (Within-weaken (omega (arith, w.few, wq.few)) wr))
              λ (ss, t) wt. yields (s ∷ ss, t) (Within-weaken (omega arith) wt))
  | inr h ↦ rw (steps_round, h) (yields ([], p) (record { ended = e; few = omega arith }))
]

steps_loop-Leaves :
    (n : ℕ) (p : Parser)
    → Ended p.current p.rest
    → left p < n
    → Succeeds (Leaves {A = List Step} (suc (left p))) (steps_loop n p)
unfolding steps_loop
steps_loop-Leaves zero p e small = absurd (omega arith)
steps_loop-Leaves (suc n) p e small = Succeeds-bind (skip_seps-Within p e) λ q wq.
    Succeeds-map (λ x. Within-weaken (omega (arith, wq.few)))
      (steps_round-Leaves (steps_loop n) q wq.ended λ r wr.
        Succeeds-map (λ x. Within-weaken (omega (arith, wr.few)))
          (steps_loop-Leaves n r wr.ended (omega (arith, wr.few, wq.few))))

pub parse_route-Leaves :
    (out : Printer) (p : Parser)
    → p.current.kind ≢ eof
    → Ended p.current p.rest
    → Succeeds (Leaves {A = Route} (left p)) (parse_route out p)
unfolding parse_route
parse_route-Leaves out p ne e =
    let w : Within (left p) (advance p) = advance-Within (left p) p ne e (omega arith) in
    Succeeds-bind (parse_matcher-Leaves out (advance p) w.ended) λ (m, q) wq.
      Succeeds-bind (steps_loop-Leaves (suc (left q)) q wq.ended (omega arith))
        λ (ss, r) wr. yields _ (Within-weaken (omega (arith, w.few, wq.few)) wr)
