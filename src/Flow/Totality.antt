-- ===== src/Flow/Totality.antt =====
-- Parsing ends: with a tree or with a diagnostic.
use pulsate.Prelude.{
  ℕ, zero, suc, ◌<◌, ◌≡◌, ◌⊎◌, inl, inr, refl, Bool, true, false, none, List, [], ◌∷◌, length, Str,
  str_eq, bytes, arith, Bool-cases,
}
use pulsate.Flow.Span.{Diagnostic, Outcome, done, failed, panics, spent}
use pulsate.Flow.Token.{TokenKind, lbrace, rbrace, eof, atom, Token}
use pulsate.Flow.Value.{Spanned}
use pulsate.Flow.Ast.{Arg, Stmt, Stmts, stmt_then}
use pulsate.Flow.Parser.{Parser, left, advance}
use pulsate.Flow.Routes.{Printer}
use pulsate.Flow.Statements.{
  parse_space_args, behind_args, stmt_with, stmt_at, stmts_at, parse_stmts, parse, parse_text,
}
use pulsate.Flow.Progress.{
  Ended, Within, Leaves, Succeeds, yields, refuses, Succeeds-bind, Succeeds-map, advance-Within,
  not_eof, Within-weaken, skip_seps-Within,
}
use pulsate.Flow.Advance.{space_args-Leaves}
use pulsate.Flow.Pipelines.{parse_route-Leaves}
use pulsate.Flow.Token.{Place}
use pulsate.Flow.Lexer.{lex}
use pulsate.Flow.Round.{Covers, at_end, token_at}
use pulsate.Flow.Cover.{lex-Covers, lex-ne-spent}

behind_args-Leaves :
    (body : Parser → Outcome (Stmts × Parser)) (keyword : Spanned Str) (args : List Arg)
    (k : TokenKind) (p : Parser)
    → p.current.kind ≡ k
    → Ended p.current p.rest
    → ((q : Parser) → Within (left p) q → Succeeds (Leaves {A = Stmts} (suc (left q))) (body q))
    → Succeeds (Leaves {A = Stmt} (suc (left p))) (behind_args body keyword args k p)
behind_args-Leaves body keyword args lbrace p at e ih =
    let w : Within (left p) (advance p) =
      advance-Within (left p) p (not_eof at refl) e (omega arith) in
    Succeeds-bind (ih (advance p) w)
      λ (ss, q) wq. yields _ (Within-weaken (omega (arith, w.few)) wq)
behind_args-Leaves body keyword args k p at e ih =
    yields _ (record { ended = e; few = omega arith })

stmt_with-Leaves :
    (body : Parser → Outcome (Stmts × Parser)) (keyword : Spanned Str) (p : Parser)
    → Ended p.current p.rest
    → ((q : Parser) → Within (left p) q → Succeeds (Leaves {A = Stmts} (suc (left q))) (body q))
    → Succeeds (Leaves {A = Stmt} (suc (left p))) (stmt_with body keyword p)
unfolding parse_space_args
stmt_with-Leaves body keyword p e ih =
    Succeeds-bind (space_args-Leaves (suc (left p)) p e (omega arith)) λ (args, q) wq.
      Succeeds-map (λ x. Within-weaken (omega (arith, wq.few)))
        (behind_args-Leaves body keyword args q.current.kind q refl wq.ended
          (λ r wr. ih r (Within-weaken (omega (arith, wq.few)) wr)))

stmt_at-Leaves :
    (out : Printer) (body : Parser → Outcome (Stmts × Parser)) (k : TokenKind) (p : Parser)
    → p.current.kind ≡ k
    → Ended p.current p.rest
    → ((q : Parser) → Within (left p) q → Succeeds (Leaves {A = Stmts} (suc (left q))) (body q))
    → Succeeds (Leaves {A = Stmt} (left p)) (stmt_at out body k p)
stmt_at-Leaves out body (atom kw) p at e ih = elim (Bool-cases (str_eq kw (bytes "route"))) [
  | inl h ↦
      rw (stmt_at, h)
        (Succeeds-bind (parse_route-Leaves out p (not_eof at refl) e) λ (r, q) w. yields _ w)
  | inr h ↦
      let w : Within (left p) (advance p) =
        advance-Within (left p) p (not_eof at refl) e (omega arith) in
      rw (stmt_at, h)
        (Succeeds-map (λ x. Within-weaken (omega (arith, w.few)))
          (stmt_with-Leaves body (record { node = kw; span = p.current.span }) (advance p) w.ended
            (λ q wq. ih q (Within-weaken (omega (arith, w.few)) wq))))
]
stmt_at-Leaves out body k p at e ih = refuses

stmts_at-Leaves :
    (out : Printer) (in_block : Bool) (body more : Parser → Outcome (Stmts × Parser))
    (k : TokenKind) (p : Parser)
    → p.current.kind ≡ k
    → Ended p.current p.rest
    → ((q : Parser) → Within (left p) q → Succeeds (Leaves {A = Stmts} (suc (left q))) (body q))
    → ((q : Parser) → Within (left p) q → Succeeds (Leaves {A = Stmts} (suc (left q))) (more q))
    → Succeeds (Leaves {A = Stmts} (suc (left p))) (stmts_at out in_block body more k p)
stmts_at-Leaves out true body more eof p at e ib im = refuses
stmts_at-Leaves out false body more eof p at e ib im =
    yields _ (record { ended = e; few = omega arith })
stmts_at-Leaves out true body more rbrace p at e ib im =
    yields _ (advance-Within (suc (left p)) p (not_eof at refl) e (omega arith))
stmts_at-Leaves out false body more rbrace p at e ib im = refuses
stmts_at-Leaves out in_block body more k p at e ib im =
    Succeeds-bind (stmt_at-Leaves out body k p at e ib) λ (s, q) wq.
      Succeeds-bind (im q wq)
        λ (ss, r) wr. yields (stmt_then s ss, r) (Within-weaken (omega (arith, wq.few)) wr)

parse_stmts-Leaves :
    (out : Printer) (n : ℕ) (in_block : Bool) (p : Parser)
    → Ended p.current p.rest
    → left p < n
    → Succeeds (Leaves {A = Stmts} (suc (left p))) (parse_stmts out n in_block p)
unfolding parse_stmts
parse_stmts-Leaves out zero in_block p e small = absurd (omega arith)
parse_stmts-Leaves out (suc n) in_block p e small = Succeeds-bind (skip_seps-Within p e) λ q wq.
    Succeeds-map (λ x. Within-weaken (omega (arith, wq.few)))
      (stmts_at-Leaves out in_block (parse_stmts out n true) (parse_stmts out n in_block)
        q.current.kind q refl wq.ended
        (λ r wr. parse_stmts-Leaves out n true r wr.ended (omega (arith, wr.few, wq.few)))
        (λ r wr. parse_stmts-Leaves out n in_block r wr.ended (omega (arith, wr.few, wq.few))))

Covers-Ended :
    {text : Str} {p : Place} {ts : List Token}
    → Covers text p ts
    → (t : Token) × (us : List Token) × (ts ≡ t ∷ us) × Ended t us
unfolding Ended
Covers-Ended (at_end dull) = (_, [], refl, refl)
Covers-Ended (token_at {t = t} gap taken rest split dull spells ne at cover) =
    let (u, us, e, ended) = Covers-Ended cover in (t, _, refl, rw e ended)

parse-Succeeds :
    (out : Printer) (t : Token) (us : List Token)
    → Ended t us
    → Succeeds {A = Stmts} (λ s. Unit {0}) (parse out (t ∷ us))
unfolding parse
parse-Succeeds out t us ended =
    Succeeds-bind
      (parse_stmts-Leaves out (suc (length us)) false
        (record { prev = none; current = t; rest = us }) ended (omega arith))
      (λ (s, q) w. yields s tt)

-- The recursion of the parser always ends, for which it may need a stack as deep as blocks and arrays
-- are nested: parsing comes to a tree or a diagnostic, unless the lexer panics; then the parsing does.
pub parse_text_lem :
    (out : Printer) (text : Str)
    → ((stmts : Stmts) × (parse_text out text ≡ done stmts))
      ⊎ (((d : Diagnostic) × (parse_text out text ≡ failed d))
          ⊎ ((lex text ≡ panics) × (parse_text out text ≡ panics)))
unfolding parse_text
parse_text_lem out text = by_lex (lex text) refl
  where
    by_tokens : (ts : List Token) → lex text ≡ done ts → Succeeds (λ s. Unit {0}) (parse out ts)
    by_tokens ts at =
        let (t, us, e, ended) = Covers-Ended (lex-Covers text ts at) in
        rw e (parse-Succeeds out t us ended)

    by_outcome :
        (o : Outcome Stmts)
        → Succeeds (λ s. Unit {0}) o
        → parse_text out text ≡ o
        → ((stmts : Stmts) × (parse_text out text ≡ done stmts))
          ⊎ (((d : Diagnostic) × (parse_text out text ≡ failed d))
              ⊎ ((lex text ≡ panics) × (parse_text out text ≡ panics)))
    by_outcome o (yields s u) at = inl (s, at)
    by_outcome o (refuses {d = d}) at = inr (inl (d, at))

    by_lex :
        (o : Outcome (List Token))
        → lex text ≡ o
        → ((stmts : Stmts) × (parse_text out text ≡ done stmts))
          ⊎ (((d : Diagnostic) × (parse_text out text ≡ failed d))
              ⊎ ((lex text ≡ panics) × (parse_text out text ≡ panics)))
    by_lex (done ts) at = by_outcome (parse out ts) (by_tokens ts at) (rw (parse_text, at) refl)
    by_lex (failed d) at = inr (inl (d, rw (parse_text, at) refl))
    by_lex panics at = inr (inr (at, rw (parse_text, at) refl))
    by_lex spent at = absurd (lex-ne-spent text at)
