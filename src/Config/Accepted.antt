-- ===== src/Config/Accepted.antt =====
-- What `compile` accepts, and what it refuses.
use pulsate.Prelude.{
  ℕ, ◌≡◌, ◌⊎◌, inl, inr, refl, sym, ap, List, [], ◌∷◌, ◌++◌, Str, subst, true, All, All-In,
}
use pulsate.Flow.Span.{Diagnostic, Outcome, done, failed, panics, spent}
use pulsate.Flow.Ast.{Stmts}
use pulsate.Flow.Lexer.{lex}
use pulsate.Flow.Statements.{parse_text}
use pulsate.Flow.Totality.{parse_text_lem}
use pulsate.Config.Model.{RefUse, RouteDef, Site, Config, defined_names}
use pulsate.Config.Lower.{Platform, lower}
use pulsate.Config.Check.{is_defined, validate}
use pulsate.Config.Compile.{
  Compiled, compiled, rejected, panicked, unfinished, errors_of, warnings_of, build_snapshot,
  unless_errors, compile_tree, compile,
}
use pulsate.Config.Valid.{IsValid, AllRoutes, errors_of-split, validate-IsValid}
use pulsate.Config.Handled.{HasHandler, lower-HasHandler, lower-AllRoutes}
use pulsate.Config.Refers.{IsReferred, NamesAre, NamesAre-map, lower_route-NamesAre}

-- The name is that of an upstream, a cache, a firewall or a user set.
abbrev pub IsNamed : Config → Str → Type 0
IsNamed c n = is_defined (defined_names c) n ≡ true

-- A configuration that may run.
pub record IsAccepted (c : Config) : Type 0 where
  pub valid : IsValid c
  pub handled : AllRoutes HasHandler c.sites
  pub named : AllRoutes (NamesAre (IsNamed c)) c.sites

referred-IsNamed :
    (c : Config) (refs : List RefUse) (n : Str)
    → All (λ u. IsNamed c u.name) refs
    → IsReferred refs n
    → IsNamed c n
referred-IsNamed c refs n ok (u, m, e) = subst (IsNamed c) e (All-In _ ok m)

routes-NamesAre :
    (c : Config) (rs : List RouteDef)
    → All (λ r. All (λ u. IsNamed c u.name) r.refs) rs
    → All (λ r. NamesAre (IsReferred r.refs) r) rs
    → All (NamesAre (IsNamed c)) rs
routes-NamesAre c [] ok refer = tt
routes-NamesAre c (r ∷ rs) (ok, oks) (refer, refers) =
    (NamesAre-map (λ n. referred-IsNamed c r.refs n ok) r refer, routes-NamesAre c rs oks refers)

sites-NamesAre :
    (c : Config) (ss : List Site)
    → AllRoutes (λ r. All (λ u. IsNamed c u.name) r.refs) ss
    → AllRoutes (λ r. NamesAre (IsReferred r.refs) r) ss
    → AllRoutes (NamesAre (IsNamed c)) ss
sites-NamesAre c [] ok refer = tt
sites-NamesAre c (s ∷ ss) (ok, oks) (refer, refers) =
    (routes-NamesAre c s.routes ok refer, sites-NamesAre c ss oks refers)

module _ (platform : Platform) where
  unless_errors-cases :
      (errs warns : List Diagnostic) (c : Config) (generation : ℕ) (x : Compiled)
      → unless_errors platform errs warns c generation ≡ compiled x
      → (errs ≡ []) × (x.config ≡ c) × (x.snapshot.generation ≡ generation)
  unfolding build_snapshot
  unless_errors-cases [] warns c generation x h =
      let same : record {
        config = c;
        snapshot = build_snapshot platform c generation;
        warnings = warns;
      }
          ≡ x =
        cc in
      (refl, ap (λ y. y.config) (sym same), ap (λ y. y.snapshot.generation) (sym same))
  unless_errors-cases (d ∷ ds) warns c generation x h = cc

  compile_tree-IsAccepted :
      (stmts : Stmts) (generation : ℕ) (x : Compiled)
      → compile_tree platform stmts generation ≡ compiled x
      → IsAccepted x.config × (x.snapshot.generation ≡ generation)
  unfolding compile_tree
  compile_tree-IsAccepted stmts generation x h =
      let (none_left, same, gen) =
        unless_errors-cases _ _ (lower platform stmts).0 generation x h in
      let (lowered, validated) =
        errors_of-split (lower platform stmts).1 (validate (lower platform stmts).0) none_left in
      (
        rw same (record {
          valid = validate-IsValid (lower platform stmts).0 validated;
          handled = lower-HasHandler platform stmts lowered;
          named =
              sites-NamesAre (lower platform stmts).0 (lower platform stmts).0.sites
                (validate-IsValid (lower platform stmts).0 validated).refs
                (lower-AllRoutes (λ r. NamesAre (IsReferred r.refs) r)
                  (λ r e. lower_route-NamesAre r) platform stmts lowered);
        }),
        gen,
      )

  -- A configuration that compile accepts has one upstream, cache, firewall and user set of a name at
  -- most, no credentials for the origin *, no host twice and a handler for every route. Every
  -- reference that is collected for a route, and every name by which a waf or cache step or a proxy
  -- handler of a route goes, is defined, if not as what kind. The snapshot carries the generation.
  pub compile-IsAccepted :
      (text : Str) (generation : ℕ) (x : Compiled)
      → compile platform text generation ≡ compiled x
      → IsAccepted x.config × (x.snapshot.generation ≡ generation)
  unfolding compile
  compile-IsAccepted text generation x h = by_parse (parse_text platform.printer text) refl
    where
      by_parse :
          (o : Outcome Stmts)
          → parse_text platform.printer text ≡ o
          → IsAccepted x.config × (x.snapshot.generation ≡ generation)
      by_parse (done stmts) at = compile_tree-IsAccepted stmts generation x (rw (compile, at) at h)
      by_parse (failed d) at = absurd (clash (rw (compile, at) at h))
        where
          clash : rejected (d ∷ []) ≡ compiled x → ⊥
          clash y = cc
      by_parse panics at = absurd (clash (rw (compile, at) at h))
        where
          clash : panicked ≡ compiled x → ⊥
          clash y = cc
      by_parse spent at = absurd (clash (rw (compile, at) at h))
        where
          clash : unfinished ≡ compiled x → ⊥
          clash y = cc

  unless_errors_lem :
      (errs warns : List Diagnostic) (c : Config) (generation : ℕ)
      → ((x : Compiled) × (unless_errors platform errs warns c generation ≡ compiled x))
        ⊎ ((d : Diagnostic) × (ds : List Diagnostic) × (unless_errors platform errs warns c
                generation
              ≡ rejected (d ∷ ds)))
  unless_errors_lem [] warns c generation = inl (_, refl)
  unless_errors_lem (d ∷ ds) warns c generation = inr (d, ds, refl)

  -- Compiling a text always ends: with a configuration, with at least one diagnostic, or in a panic
  -- of the lexer.
  pub compile_lem :
      (text : Str) (generation : ℕ)
      → ((x : Compiled) × (compile platform text generation ≡ compiled x))
        ⊎ (((d : Diagnostic) × (ds : List Diagnostic) × (compile platform text generation
                ≡ rejected (d ∷ ds)))
            ⊎ ((lex text ≡ panics) × (compile platform text generation ≡ panicked)))
  unfolding compile compile_tree
  compile_lem text generation = elim (parse_text_lem platform.printer text) [
    | inl (stmts, at) ↦
        elim (unless_errors_lem
          (errors_of ((lower platform stmts).1 ++ validate (lower platform stmts).0))
          (warnings_of ((lower platform stmts).1 ++ validate (lower platform stmts).0))
          (lower platform stmts).0 generation) [
            | inl (x, e) ↦ inl (x, rw (compile, at) e)
            | inr (d, ds, e) ↦ inr (inl (d, ds, rw (compile, at) e))
          ]
    | inr (inl (d, at)) ↦ inr (inl (d, [], rw (compile, at) refl))
    | inr (inr (broken, at)) ↦ inr (inr (broken, rw (compile, at) refl))
  ]
