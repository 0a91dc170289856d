-- ===== src/Router/Precedence.antt =====
-- Which routes match a request, and which of them is chosen.
use pulsate.Prelude.{
  ℕ, ◌+◌, ◌≤◌, ◌<◌, ◌≡◌, ◌⊎◌, inl, inr, refl, sym, ◌∙◌, true, false, Option, none, some, Str, List,
  [], ◌∷◌, ◌++◌, All, All-In, All-of_In, In, length, IsBest, ScoreLe, starts_with, str_eq,
  str_eq_iff, eq_ignore_ascii_case, arith, Bool-cases, subst,
}
use pulsate.Router.{
  MatchKind, prefix, exact, regex, Route, SiteRoutes, Router, score, kind_score, prefix_of,
  prefix_matches, prefix_score, with_slash, method_allows, host_score, host_without_port, route,
}
use pulsate.Router.Choice.{route_lem}

starts_with-append : (s p : Str) → starts_with s p ≡ true → (rest : Str) × (s ≡ p ++ rest)
starts_with-append s [] h = (s, refl)
starts_with-append [] (c ∷ p) h = cc
starts_with-append (d ∷ s) (c ∷ p) h =
    let (rest, e) = starts_with-append s p (ground arith) in (rest, ground arith)

append-starts_with : (p rest : Str) → starts_with (p ++ rest) p ≡ true
append-starts_with [] rest = refl
append-starts_with (c ∷ p) rest = ground (arith, append-starts_with p rest)

-- A path lies under a prefix: the prefix is empty, or the path is the prefix or goes on behind it
-- and a slash.
abbrev pub Under : Str → Str → Type 0
Under pre path = (pre ≡ []) ⊎ (path ≡ pre) ⊎ ((rest : Str) × (path ≡ with_slash pre ++ rest))

prefix_matches-Under : (pre path : Str) → prefix_matches pre path ≡ true → Under pre path
prefix_matches-Under [] path h = inl refl
prefix_matches-Under (c ∷ pre) path h = elim (Bool-cases (str_eq path (c ∷ pre))) [
  | inl e ↦ inr (inl ((str_eq_iff path (c ∷ pre)).0 e))
  | inr e ↦ inr (inr (starts_with-append path (with_slash (c ∷ pre)) (ground arith)))
]

Under-prefix_matches : (pre path : Str) → Under pre path → prefix_matches pre path ≡ true
Under-prefix_matches [] path u = refl
Under-prefix_matches (c ∷ pre) path (inl e) = cc
Under-prefix_matches (c ∷ pre) path (inr (inl e)) = ground (arith, str_eq_iff path (c ∷ pre))
Under-prefix_matches (c ∷ pre) path (inr (inr (rest, e))) =
    let h : starts_with path (with_slash (c ∷ pre)) ≡ true =
      rw e (append-starts_with (with_slash (c ∷ pre)) rest) in
    ground arith

abbrev pub PathMatches : MatchKind → Str → Str → Type 0
PathMatches exact pattern path = pattern ≡ path
PathMatches prefix pattern path = Under (prefix_of pattern) path
PathMatches regex pattern path = pattern ≡ path

-- What it takes for a route to match: its method, if it names one, in any letter case, and its
-- pattern.
abbrev pub MethodMatches : Option Str → Str → Type 0
MethodMatches none method = Unit {0}
MethodMatches (some m) method = eq_ignore_ascii_case m method ≡ true

-- What a match is worth.
abbrev pub worth : MatchKind → Str → ℕ
worth exact pattern = 1_000_000
worth prefix pattern = prefix_score (prefix_of pattern)
worth regex pattern = 10

kind_score_lem :
    (k : MatchKind) (pattern path : Str)
    → ((kind_score k pattern path ≡ some (worth k pattern)) × PathMatches k pattern path)
      ⊎ ((kind_score k pattern path ≡ none) × (¬ PathMatches k pattern path))
unfolding kind_score
kind_score_lem exact pattern path = elim (Bool-cases (str_eq pattern path)) [
  | inl e ↦ inl (rw e refl, (str_eq_iff pattern path).0 e)
  | inr e ↦ inr (rw e refl, λ h. cc (e, (str_eq_iff pattern path).1 h))
]
kind_score_lem regex pattern path = elim (Bool-cases (str_eq pattern path)) [
  | inl e ↦ inl (rw e refl, (str_eq_iff pattern path).0 e)
  | inr e ↦ inr (rw e refl, λ h. cc (e, (str_eq_iff pattern path).1 h))
]
kind_score_lem prefix pattern path = elim (Bool-cases (prefix_matches (prefix_of pattern) path)) [
  | inl e ↦ inl (ground arith, prefix_matches-Under (prefix_of pattern) path e)
  | inr e ↦ inr (ground arith, λ h. cc (e, Under-prefix_matches (prefix_of pattern) path h))
]

method_allows_lem :
    (m : Option Str) (method : Str)
    → ((method_allows m method ≡ true) × MethodMatches m method)
      ⊎ ((method_allows m method ≡ false) × (¬ MethodMatches m method))
method_allows_lem none method = inl (refl, tt)
method_allows_lem (some m) method = elim (Bool-cases (eq_ignore_ascii_case m method)) [
  | inl e ↦ inl (e, e)
  | inr e ↦ inr (e, λ h. cc)
]

-- The precedence of a match: exact patterns first, then prefixes by their length (the catch-all is
-- the shortest), then regex patterns.
abbrev pub precedence : MatchKind → Str → ℕ × ℕ
precedence exact pattern = (2, 0)
precedence prefix pattern = (1, length (prefix_of pattern))
precedence regex pattern = (0, 0)

abbrev pub NotBefore : ℕ × ℕ → ℕ × ℕ → Type 0
NotBefore a b = (a.0 < b.0) ⊎ ((a.0 ≡ b.0) × (a.1 ≤ b.1))

-- A prefix that is short enough not to reach the score of an exact match.
abbrev pub IsShort : Str → Type 0
IsShort pattern = length (prefix_of pattern) < 999_000

prefix_score_short : (p : Str) → length p < 999_000 → prefix_score p ≡ 1_000 + length p
prefix_score_short p h = ground arith

worth-precedence :
    (k j : MatchKind) (p q : Str)
    → IsShort p
    → IsShort q
    → worth k p ≤ worth j q
    → NotBefore (precedence k p) (precedence j q)
worth-precedence exact exact p q hp hq h = inr (refl, omega arith)
worth-precedence exact prefix p q hp hq h =
    absurd (omega (arith, prefix_score_short (prefix_of q) hq))
worth-precedence exact regex p q hp hq h = absurd (omega arith)
worth-precedence prefix exact p q hp hq h = inl (omega arith)
worth-precedence prefix prefix p q hp hq h =
    inr (
      refl,
      omega (arith, prefix_score_short (prefix_of p) hp, prefix_score_short (prefix_of q) hq),
    )
worth-precedence prefix regex p q hp hq h =
    absurd (omega (arith, prefix_score_short (prefix_of p) hp))
worth-precedence regex exact p q hp hq h = inl (omega arith)
worth-precedence regex prefix p q hp hq h = inl (omega arith)
worth-precedence regex regex p q hp hq h = inr (refl, omega arith)

absurd_score {ℓ} : {A : Type ℓ} (a : A) → none ≡ some a → ⊥
absurd_score a h = cc

module _ {M C : Type 0} where
  abbrev pub Matches : Str → Str → Route M C → Type 0
  Matches path method q = MethodMatches q.method method × PathMatches q.kind q.pattern path

  -- A route has a score exactly where it matches; the score depends on its kind and pattern alone.
  pub score_lem :
      (path method : Str) (q : Route M C)
      → ((score path method q ≡ some (worth q.kind q.pattern)) × Matches path method q)
        ⊎ ((score path method q ≡ none) × (¬ Matches path method q))
  unfolding score
  score_lem path method q = elim (method_allows_lem q.method method) [
    | inr (e, n) ↦ inr (rw (e, score), λ h. n h.0)
    | inl (e, m) ↦ elim (kind_score_lem q.kind q.pattern path) [
      | inl (f, h) ↦ inl (rw (e, score) f, (m, h))
      | inr (f, n) ↦ inr (rw (e, score) f, λ h. n h.1)
    ]
  ]

  -- The chosen route against another route of the site: that one does not match, or does not come
  -- before it.
  abbrev pub Yields : Str → Str → Route M C → Route M C → Type 0
  Yields path method c q =
      (¬ Matches path method q)
      ⊎ NotBefore (precedence q.kind q.pattern) (precedence c.kind c.pattern)

  yields :
      (path method : Str) (c q : Route M C) (s : ℕ)
      → score path method c ≡ some s
      → ScoreLe (score path method q) s
      → IsShort c.pattern
      → IsShort q.pattern
      → Yields path method c q
  yields path method c q s e le hc hq = elim (score_lem path method q) [
    | inr (_, n) ↦ inl n
    | inl (f, _) ↦ elim (score_lem path method c) [
      | inr (g, _) ↦ absurd (absurd_score s (sym g ∙ e))
      | inl (g, _) ↦
          let worth_c : worth c.kind c.pattern ≡ s = cc in
          let below : worth q.kind q.pattern ≤ s = rw f at le in
          inr (worth-precedence q.kind c.kind q.pattern c.pattern hq hc (rw worth_c below))
    ]
  ]

  best-Yields :
      (path method : Str) (qs : List (Route M C)) (c : Route M C)
      → All (λ q. IsShort q.pattern) qs
      → IsBest (score path method) qs c
      → Matches path method c × All (Yields path method c) qs
  best-Yields path method qs c short b = (
    matched (score_lem path method c),
    All-of_In _ qs (λ q m.
        yields path method c q b.score b.is_score (All-In _ b.highest m) (All-In _ short b.found)
          (All-In _ short m)),
  )
    where
      matched :
          ((score path method c ≡ some (worth c.kind c.pattern)) × Matches path method c)
            ⊎ ((score path method c ≡ none) × (¬ Matches path method c))
          → Matches path method c
      matched (inl (_, m)) = m
      matched (inr (e, _)) = absurd (absurd_score b.score (sym e ∙ b.is_score))

  -- The route that a request gets stands in a site of the highest host score. It matches the path
  -- and the method, and comes first among the site's routes that match: exact patterns before
  -- prefixes, longer prefixes before shorter ones, and every prefix, the catch-all too, before
  -- regex patterns. It is supposed that every prefix is shorter than 999,000 bytes.
  pub route_precedence :
      (r : Router M C) (host path method : Str) (c : Route M C)
      → All (λ s. All (λ q. IsShort q.pattern) s.routes) r.sites
      → route r host path method ≡ some c
      → (s : SiteRoutes M C) × IsBest (host_score (host_without_port host)) r.sites s
        × In c s.routes
        × Matches path method c
        × All (Yields path method c) s.routes
  route_precedence r host path method c short e = from (route_lem r host path method)
    where
      from :
          ((route r host path method ≡ none)
              × All (λ s. host_score (host_without_port host) s ≡ none) r.sites)
            ⊎ ((s : SiteRoutes M C) × IsBest (host_score (host_without_port host)) r.sites s
                × (((route r host path method ≡ none)
                      × All (λ q. score path method q ≡ none) s.routes)
                    ⊎ ((q : Route M C) × (route r host path method ≡ some q)
                        × IsBest (score path method) s.routes q)))
          → (s : SiteRoutes M C) × IsBest (host_score (host_without_port host)) r.sites s
            × In c s.routes
            × Matches path method c
            × All (Yields path method c) s.routes
      from (inl (f, _)) = absurd (absurd_score c (sym f ∙ e))
      from (inr (s, b, inl (f, _))) = absurd (absurd_score c (sym f ∙ e))
      from (inr (s, b, inr (q, f, bq))) =
          let same : q ≡ c = cc in
          let bc : IsBest (score path method) s.routes c =
            subst (IsBest (score path method) s.routes) same bq in
          let (m, ys) = best-Yields path method s.routes c (All-In _ short b.found) bc in
          (s, b, bc.found, m, ys)
