-- ===== src/Router/Choice.antt =====
-- `Router::route` chooses a site of the highest host score and a route of the highest score in it.
use pulsate.Prelude.{◌≡◌, ◌⊎◌, inl, inr, none, some, Str, List, [], ◌∷◌, All, IsBest, best_of_cases}
use pulsate.Router.{Route, SiteRoutes, Router, score, host_score, host_without_port, route}

module _ {M C : Type 0} where
  -- A request gets a route exactly in this way: from a site whose host score is the highest, the
  -- route whose score is the highest. It gets none exactly where no site matches its host, or where
  -- a site of the highest host score has no route that matches: no other site is tried.
  pub route_lem :
      (r : Router M C) (host path method : Str)
      → ((route r host path method ≡ none)
          × All (λ s. host_score (host_without_port host) s ≡ none) r.sites)
        ⊎ ((s : SiteRoutes M C) × IsBest (host_score (host_without_port host)) r.sites s
            × (((route r host path method ≡ none) × All (λ q. score path method q ≡ none) s.routes)
                ⊎ ((q : Route M C) × (route r host path method ≡ some q)
                    × IsBest (score path method) s.routes q)))
  unfolding route
  route_lem r host path method =
      elim (best_of_cases (host_score (host_without_port host)) r.sites) [
        | inl (e, h) ↦ inl (rw (e, route), h)
        | inr (s, e, b) ↦ inr (
          s,
          b,
          elim (best_of_cases (score path method) s.routes) [
            | inl (f, h) ↦ inl (rw (e, route, f), h)
            | inr (q, f, c) ↦ inr (q, rw (e, route, f), c)
          ],
        )
      ]

  -- A router of one site that serves the host.
  abbrev pub one_site : Str → List (Route M C) → Router M C
  one_site host routes = record { sites = record { hosts = host ∷ []; routes = routes } ∷ [] }
