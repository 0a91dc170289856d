-- ===== src/Flow/Span.antt =====
-- crates/pulsate-flow/src/span.rs and diag.rs: spans, and diagnostics without their rendering.
use pulsate.Prelude.{ℕ, ◌+◌, Option, none, some, Str}
use pulsate.Core.{Code}

pub record Span : Type 0 where
  pub offset : ℕ
  pub len : ℕ
  pub line : ℕ
  pub col : ℕ

abbrev pub end : Span → ℕ
end s = s.offset + s.len

pub data Severity : Type 0 where
  error warning : Severity

pub record Diagnostic : Type 0 where
  pub severity : Severity
  pub code : Code
  pub message : Str
  pub span : Span
  pub help : Option Str

abbrev pub error_at : Code → Str → Span → Diagnostic
error_at code message span = record {
  severity = error;
  code = code;
  message = message;
  span = span;
  help = none;
}

abbrev pub with_help : Str → Diagnostic → Diagnostic
with_help help d = record d { help = some help }

-- What a function that may fail or panic comes to; `spent` is a run whose fuel was not enough.
pub data Outcome {ℓ} (A : Type ℓ) : Type ℓ where
  done : A → Outcome A
  failed : Diagnostic → Outcome A
  panics spent : Outcome A

infixl 20 ◌>>=◌
abbrev pub ◌>>=◌ {ℓ κ} : {A : Type ℓ} {B : Type κ} → Outcome A → (A → Outcome B) → Outcome B
done a >>= f = f a
failed d >>= f = failed d
panics >>= f = panics
spent >>= f = spent
