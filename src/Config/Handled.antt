-- ===== src/Config/Handled.antt =====
-- A route that is lowered without an error has a handler.
use pulsate.Prelude.{
  ℕ, ◌≡◌, inl, inr, refl, true, Option, none, some, List, [], ◌∷◌, ◌++◌, Str, bytes, str_eq, All,
  here, is_some, arith, Bool-cases,
}
use pulsate.Flow.Span.{Span, Diagnostic}
use pulsate.Flow.Ast.{Arg, Step, Route, Stmt, Stmts, directive, block, route}
use pulsate.Config.Model.{RouteDef, Site, Config}
use pulsate.Config.Args.{fold, to_list, first_positional, str_of}
use pulsate.Config.Blocks.{is_word}
use pulsate.Config.Routing.{
  is_handler, is_plugin, indexed, last_index, terminal_of, handler_at, lower_route, site_round,
  lower_site,
}
use pulsate.Config.Lower.{Platform, set_version, block_round, lower_round, lower}
use pulsate.Config.Compile.{errors_of}
use pulsate.Config.Valid.{AllRoutes, errors_of-split, errors_of-cons}
use pulsate.Config.Terminal.{indexed-step_at, step_at-handled, plugin_at-handled}

abbrev pub HasHandler : RouteDef → Type 0
HasHandler r = is_some r.handler ≡ true

All-append {ℓ} :
    {A : Type ℓ} (P : A → Type 0) (xs ys : List A) → All P xs → All P ys → All P (xs ++ ys)
All-append P [] ys p q = q
All-append P (x ∷ xs) ys (p, ps) q = (p, All-append P xs ys ps q)

fold-keeps {ℓ κ} :
    {A : Type ℓ} {B : Type κ} (P : B → Type 0) (f : A → B → B)
    → ((a : A) (b : B) → P b → P (f a b))
    → (more : List A) (b : B) → P b
    → P (fold f more b)
fold-keeps P f step [] b p = p
fold-keeps P f step (a ∷ more) b p = fold-keeps P f step more (f a b) (step a b p)

lower_route-HasHandler :
    (r : Route) → errors_of (lower_route r).1 ≡ [] → HasHandler (lower_route r).0
unfolding lower_route terminal_of
lower_route-HasHandler r h = by_found (indexed is_handler 0 r.steps) refl h
  where
    by_found :
        (found : List (ℕ × Step))
        → indexed is_handler 0 r.steps ≡ found
        → errors_of (terminal_of r found).1 ≡ []
        → is_some (handler_at (terminal_of r found).0 r.steps) ≡ true
    by_found [] at e = plugin_at-handled r (last_index (indexed is_plugin 0 r.steps)) refl e
    by_found ((i, s) ∷ []) at e =
        let (j, same, there_is) = indexed-step_at is_handler 0 i s r.steps (rw at (here refl)) in
        let index : i ≡ j = omega arith in rw index (step_at-handled j s r.steps there_is)
    by_found ((i, s) ∷ (j, t) ∷ more) at e = absurd (errors_of-cons _ [] refl e)

-- What holds of a lowered value as long as no error was reported.
abbrev Unless {ℓ} : {A : Type ℓ} → (A → Type 0) → A × List Diagnostic → Type 0
Unless P found = errors_of found.1 ≡ [] → P found.0

-- What holds of each route that is lowered without an error holds of a whole configuration.
module _ (P : RouteDef → Type 0)
    (holds : (r : Route) → errors_of (lower_route r).1 ≡ [] → P (lower_route r).0) where
  SiteOk : Site → Type 0
  SiteOk s = All P s.routes

  site_round-keeps :
      (s : Stmt) (found : Site × List Diagnostic)
      → Unless SiteOk found
      → Unless SiteOk (site_round s found)
  unfolding site_round SiteOk
  site_round-keeps (directive d) (site, diags) ok h = elim (Bool-cases (is_word d (bytes "tls"))) [
    | inl e ↦ rw (site_round, e) (ok h)
    | inr e ↦ rw (site_round, e) (ok h)
  ]
  site_round-keeps (block keyword args body span) (site, diags) ok h =
      elim (Bool-cases (str_eq keyword.node (bytes "tls"))) [
        | inl e ↦ rw (site_round, e) (ok h)
        | inr e ↦ rw (site_round, e) (ok h)
      ]
  site_round-keeps (route r) (site, diags) ok h =
      let (before, now) = errors_of-split diags (lower_route r).1 h in
      All-append P site.routes _ (ok before) (holds r now, tt)

  lower_site-SiteOk :
      (args : List Arg) (body : Stmts) (span : Span)
      → errors_of (lower_site args body span).1 ≡ []
      → SiteOk (lower_site args body span).0
  unfolding lower_site SiteOk
  lower_site-SiteOk args body span =
      fold-keeps (Unless SiteOk) site_round site_round-keeps (to_list body) _ (λ h. tt)

  abbrev ConfigOk : Config → Type 0
  ConfigOk c = AllRoutes P c.sites

  module _ (platform : Platform) where
    set_version-keeps :
        (o : Option Str) (span : Span) (found : Config × List Diagnostic)
        → Unless ConfigOk found
        → Unless ConfigOk (set_version platform o span found)
    set_version-keeps none span (c, diags) ok h = ok h
    set_version-keeps (some v) span (c, diags) ok h = ok (errors_of-split diags _ h).0

    lower_round-keeps :
        (s : Stmt) (found : Config × List Diagnostic)
        → Unless ConfigOk found
        → Unless ConfigOk (lower_round platform s found)
    unfolding lower_round SiteOk
    lower_round-keeps (directive d) found ok =
        elim (Bool-cases (is_word d (bytes "flow_version"))) [
          | inl e ↦
              rw (lower_round, e)
                (set_version-keeps (str_of (first_positional d.args)) d.span found ok)
          | inr e ↦ rw (lower_round, e) ok
        ]
    lower_round-keeps (block keyword args body span) (c, diags) ok =
        elim (Bool-cases (str_eq keyword.node (bytes "upstream"))) [
          | inl e ↦ rw (block_round, e) ok
          | inr e ↦ elim (Bool-cases (str_eq keyword.node (bytes "cache"))) [
            | inl f ↦ rw (block_round, e, f) ok
            | inr f ↦ elim (Bool-cases (str_eq keyword.node (bytes "waf"))) [
              | inl g ↦ rw (block_round, e, f, g) ok
              | inr g ↦ elim (Bool-cases (str_eq keyword.node (bytes "users"))) [
                | inl k ↦ rw (block_round, e, f, g, k) ok
                | inr k ↦ elim (Bool-cases (str_eq keyword.node (bytes "site"))) [
                  | inl l ↦
                      rw (block_round, e, f, g, k, l)
                        λ h.
                          let (before, now) =
                            errors_of-split diags (lower_site args body span).1 h in
                          All-append SiteOk c.sites _ (ok before)
                            (lower_site-SiteOk args body span now, tt)
                  | inr l ↦ rw (block_round, e, f, g, k, l) ok
                ]
              ]
            ]
          ]
        ]
    lower_round-keeps (route r) found ok = ok

    pub lower-AllRoutes :
        (stmts : Stmts)
        → errors_of (lower platform stmts).1 ≡ []
        → AllRoutes P (lower platform stmts).0.sites
    unfolding lower
    lower-AllRoutes stmts =
        fold-keeps (Unless ConfigOk) (lower_round platform) lower_round-keeps (to_list stmts) _
          (λ h. tt)

pub lower-HasHandler :
    (platform : Platform) (stmts : Stmts)
    → errors_of (lower platform stmts).1 ≡ []
    → AllRoutes HasHandler (lower platform stmts).0.sites
lower-HasHandler = lower-AllRoutes HasHandler lower_route-HasHandler
