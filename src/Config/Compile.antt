-- ===== src/Config/Compile.antt =====
-- crates/pulsate-config/src/compile.rs: `compile`.
use pulsate.Prelude.{ℕ, Bool, true, false, List, [], ◌∷◌, ◌++◌, Str, retain}
use pulsate.Flow.Span.{Severity, error, warning, Diagnostic, done, failed, panics, spent}
use pulsate.Flow.Ast.{Stmts}
use pulsate.Flow.Statements.{parse_text}
use pulsate.Config.Model.{Config, ConfigSnapshot}
use pulsate.Config.Lower.{Platform, lower}
use pulsate.Config.Check.{validate}
use pulsate.Config.Names.{fnv1a}

pub record Compiled : Type 0 where
  pub config : Config
  pub snapshot : ConfigSnapshot
  pub warnings : List Diagnostic

-- What `compile` comes to. It panics where the lexer does; `unfinished` is a parse that ran out of fuel.
pub data Compilation : Type 0 where
  compiled : Compiled → Compilation
  rejected : List Diagnostic → Compilation
  panicked unfinished : Compilation

abbrev pub is_error : Severity → Bool
is_error error = true
is_error warning = false

abbrev pub is_warning : Severity → Bool
is_warning error = false
is_warning warning = true

abbrev pub errors_of : List Diagnostic → List Diagnostic
errors_of diags = retain (λ d. is_error d.severity) diags

abbrev pub warnings_of : List Diagnostic → List Diagnostic
warnings_of diags = retain (λ d. is_warning d.severity) diags

module _ (platform : Platform) where
  unfoldable pub build_snapshot : Config → ℕ → ConfigSnapshot
  build_snapshot c generation = record {
    id = fnv1a (platform.config_text c);
    generation = generation;
  }

  abbrev pub unless_errors : List Diagnostic → List Diagnostic → Config → ℕ → Compilation
  unless_errors [] warnings c generation =
      compiled (record { config = c; snapshot = build_snapshot c generation; warnings = warnings })
  unless_errors (d ∷ ds) warnings c generation = rejected (d ∷ ds)

  -- `compile` behind the parser.
  unfoldable pub compile_tree : Stmts → ℕ → Compilation
  compile_tree stmts generation =
      let found = lower platform stmts in
      let diags = found.1 ++ validate found.0 in
      unless_errors (errors_of diags) (warnings_of diags) found.0 generation

  unfoldable pub compile : Str → ℕ → Compilation
  compile text generation = elim (parse_text platform.printer text) [
    | done stmts ↦ compile_tree stmts generation
    | failed d ↦ rejected (d ∷ [])
    | panics ↦ panicked
    | spent ↦ unfinished
  ]
