-- ===== src/Flow/Progress.antt =====
-- The parser's values, arguments and lists end, and leave fewer tokens behind.
use pulsate.Prelude.{
  ℕ, zero, suc, ◌≤◌, ◌<◌, ◌≡◌, ◌≢◌, inl, inr, refl, sym, ◌∙◌, ap, Bool, true, false, Option, some,
  List, [], ◌∷◌, length, arith, Bool-cases,
}
use pulsate.Flow.Span.{Span, Outcome, done, failed, ◌>>=◌}
use pulsate.Flow.Token.{TokenKind, lbracket, rbracket, comma, equals, sep, eof, atom, Token}
use pulsate.Flow.Token
use pulsate.Flow.Spelling.{is_eof}
use pulsate.Flow.Value.{Value, Spanned}
use pulsate.Flow.Parser.{
  Parser, left, advance, is_sep_token, is_rbracket, is_comma, skip_from, skip_seps, comma_then,
  comma_round, comma_loop, close_array, value_at, value_loop, parse_value,
}

-- The last token is the end of input.
unfoldable pub Ended : Token → List Token → Type 0
Ended t [] = t.kind ≡ eof
Ended t (u ∷ us) = Ended u us

-- The parser's tokens end in the end of input, and fewer than `b` are behind the current one.
pub record Within (b : ℕ) (p : Parser) : Type 0 where
  pub ended : Ended p.current p.rest
  pub few : left p < b

abbrev pub Leaves {ℓ} : {A : Type ℓ} → ℕ → A × Parser → Type 0
Leaves b x = Within b x.1

-- The outcome is a result that satisfies the predicate, or a diagnostic.
pub data Succeeds {ℓ} {A : Type ℓ} (P : A → Type 0) : Outcome A → Type ℓ where
  yields : (a : A) → P a → Succeeds P (done a)
  refuses : {d : _} → Succeeds P (failed d)

pub Succeeds-bind {ℓ κ} :
    {A : Type ℓ} {B : Type κ} {P : A → Type 0} {Q : B → Type 0} {o : Outcome A} {f : A → Outcome B}
    → Succeeds P o
    → ((a : A) → P a → Succeeds Q (f a))
    → Succeeds Q (o >>= f)
Succeeds-bind (yields a p) k = k a p
Succeeds-bind refuses k = refuses

pub Succeeds-map {ℓ} :
    {A : Type ℓ} {P Q : A → Type 0} {o : Outcome A}
    → ((a : A) → P a → Q a)
    → Succeeds P o
    → Succeeds Q o
Succeeds-map f (yields a p) = yields a (f a p)
Succeeds-map f refuses = refuses

pub advance-Within :
    (b : ℕ) (p : Parser)
    → p.current.kind ≢ eof
    → Ended p.current p.rest
    → left p ≤ b
    → Within b (advance p)
unfolding Ended
advance-Within b p ne e small = by_rest p.rest refl
  where
    by_rest : (ts : List Token) → p.rest ≡ ts → Within b (advance p)
    by_rest [] at = absurd (ne (rw at at e))
    by_rest (t ∷ ts) at = rw at (record { ended = rw at at e; few = rw at at small })

pub not_eof : {j k : TokenKind} → j ≡ k → is_eof k ≡ false → j ≢ eof
not_eof {k = k} at f x = let t : is_eof k ≡ true = ap is_eof (sym at ∙ x) in cc

pub Within-weaken : {b c : ℕ} {p : Parser} → b ≤ c → Within b p → Within c p
Within-weaken {b = b} {c = c} {p = p} le w = record { ended = w.ended; few = omega (arith, w.few) }

skip_from-Within :
    (prev : Option Span) (t : Token) (ts : List Token)
    → Ended t ts
    → Succeeds (Within (suc (length ts))) (skip_from prev t ts)
unfolding skip_from Ended
skip_from-Within prev t [] e = elim (Bool-cases (is_sep_token t.kind)) [
  | inl h ↦ absurd (sep_ne_eof t.kind h e)
  | inr h ↦ rw h (yields _ (record { ended = e; few = omega arith }))
]
  where
    sep_ne_eof : (k : TokenKind) → is_sep_token k ≡ true → k ≡ eof → ⊥
    sep_ne_eof sep h e = cc
    sep_ne_eof k h e = cc
skip_from-Within prev t (u ∷ us) e = elim (Bool-cases (is_sep_token t.kind)) [
  | inl h ↦ rw h (
      Succeeds-map
        (λ q. Within-weaken {b = suc (length us)} {c = suc (suc (length us))} {p = q} (omega arith))
        (skip_from-Within (some t.span) u us e))
  | inr h ↦ rw h (yields _ (record { ended = e; few = omega arith }))
]

pub skip_seps-Within :
    (p : Parser) → Ended p.current p.rest → Succeeds (Within (suc (left p))) (skip_seps p)
skip_seps-Within p e = skip_from-Within p.prev p.current p.rest e

is_comma-ne_eof : (k : TokenKind) → is_comma k ≡ true → k ≢ eof
is_comma-ne_eof comma h e = cc
is_comma-ne_eof k h e = cc

is_rbracket-ne_eof : (k : TokenKind) → is_rbracket k ≡ true → k ≢ eof
is_rbracket-ne_eof rbracket h e = cc
is_rbracket-ne_eof k h e = cc

module _ {ℓ} {A : Type ℓ} (b : ℕ) (closes : TokenKind → Bool) (one : Parser → Outcome (A × Parser))
    (reads : (q : Parser) → Within b q → Succeeds (Leaves (left q)) (one q)) where
  comma_then-Leaves :
      (a : A) (more : Parser → Outcome (List A × Parser)) (p : Parser)
      → Within b p
      → ((q : Parser) → Within (left p) q → Succeeds (Leaves {A = List A} b) (more q))
      → Succeeds (Leaves {A = List A} b) (comma_then a more p)
  comma_then-Leaves a more p w ih = elim (Bool-cases (is_comma p.current.kind)) [
    | inl h ↦
        rw (comma_then, h)
          (Succeeds-bind
            (ih (advance p) (advance-Within (left p) p (is_comma-ne_eof _ h) w.ended (omega arith)))
            (λ (rest, q) leaves. yields (a ∷ rest, q) leaves))
    | inr h ↦ rw (comma_then, h) (yields (a ∷ [], p) w)
  ]

  behind_one :
      (a : A) (more : Parser → Outcome (List A × Parser)) (p : Parser)
      → Within b p
      → ((q : Parser) → Within (left p) q → Succeeds (Leaves {A = List A} b) (more q))
      → Succeeds (Leaves {A = List A} b) (skip_seps p >>= λ q. comma_then a more q)
  behind_one a more p w ih = Succeeds-bind (skip_seps-Within p w.ended) λ q wq.
      comma_then-Leaves a more q (Within-weaken (omega (arith, w.few)) wq)
        (λ r wr. ih r (Within-weaken (omega (arith, wq.few)) wr))

  comma_round-Leaves :
      (more : Parser → Outcome (List A × Parser)) (p : Parser)
      → Within b p
      → ((q : Parser) → Within (left p) q → Succeeds (Leaves {A = List A} b) (more q))
      → Succeeds (Leaves {A = List A} b) (comma_round closes one more p)
  comma_round-Leaves more p w ih = elim (Bool-cases (closes p.current.kind)) [
    | inl h ↦ rw (comma_round, h) (yields ([], p) w)
    | inr h ↦
        rw (comma_round, h)
          (Succeeds-bind (reads p w) λ (a, q) wq.
            behind_one a more q (Within-weaken (omega (arith, w.few)) wq)
              (λ r wr. ih r (Within-weaken (omega (arith, wq.few)) wr)))
  ]

  pub comma_loop-Leaves :
      (n : ℕ) (p : Parser)
      → Within b p
      → left p < n
      → Succeeds (Leaves {A = List A} b) (comma_loop n closes one p)
  unfolding comma_loop
  comma_loop-Leaves zero p w small = absurd (omega arith)
  comma_loop-Leaves (suc n) p w small = Succeeds-bind (skip_seps-Within p w.ended) λ q wq.
      comma_round-Leaves (comma_loop n closes one) q (Within-weaken (omega (arith, w.few)) wq)
        (λ r wr.
          comma_loop-Leaves n r (Within-weaken (omega (arith, w.few, wq.few)) wr)
            (omega (arith, wr.few, wq.few)))

close_array-Leaves :
    (b : ℕ) (start : Span) (vs : List (Spanned Value)) (p : Parser)
    → Within b p
    → Succeeds (Leaves {A = Spanned Value} b) (close_array start vs p)
close_array-Leaves b start vs p w = elim (Bool-cases (is_rbracket p.current.kind)) [
  | inl h ↦
      rw (close_array, h)
        (yields _ (advance-Within b p (is_rbracket-ne_eof _ h) w.ended (omega (arith, w.few))))
  | inr h ↦ rw (close_array, h) refuses
]

value_at-Leaves :
    (items : Parser → Outcome (List (Spanned Value) × Parser)) (k : TokenKind) (p : Parser)
    → p.current.kind ≡ k
    → Ended p.current p.rest
    → ((q : Parser)
        → Within (left p) q
        → Succeeds (Leaves {A = List (Spanned Value)} (left p)) (items q))
    → Succeeds (Leaves {A = Spanned Value} (left p)) (value_at items k p)
value_at-Leaves items (Token.str s) p at e ih =
    yields _ (advance-Within (left p) p (not_eof at refl) e (omega arith))
value_at-Leaves items (Token.env s) p at e ih =
    yields _ (advance-Within (left p) p (not_eof at refl) e (omega arith))
value_at-Leaves items (atom s) p at e ih =
    yields _ (advance-Within (left p) p (not_eof at refl) e (omega arith))
value_at-Leaves items lbracket p at e ih =
    Succeeds-bind (ih (advance p) (advance-Within (left p) p (not_eof at refl) e (omega arith)))
      (λ (vs, q) w. close_array-Leaves (left p) p.current.span vs q w)
value_at-Leaves items k p at e ih = refuses

value_loop-Leaves :
    (n : ℕ) (p : Parser)
    → Ended p.current p.rest
    → left p < n
    → Succeeds (Leaves {A = Spanned Value} (left p)) (value_loop n p)
unfolding value_loop
value_loop-Leaves zero p e small = absurd (omega arith)
value_loop-Leaves (suc n) p e small =
    value_at-Leaves (comma_loop n is_rbracket (value_loop n)) p.current.kind p refl e (λ q w.
      comma_loop-Leaves (left p) is_rbracket (value_loop n)
        (λ r wr. value_loop-Leaves n r wr.ended (omega (arith, wr.few))) n q w
        (omega (arith, w.few)))

pub parse_value-Leaves :
    (p : Parser)
    → Ended p.current p.rest
    → Succeeds (Leaves {A = Spanned Value} (left p)) (parse_value p)
unfolding parse_value
parse_value-Leaves p e = value_loop-Leaves (suc (left p)) p e (omega arith)
