-- ===== src/Cache/Key.antt =====
-- `CacheLayer::key`: requests with one key agree on everything that the key is made of.
use pulsate.Prelude.{
  ◌≡◌, refl, ap, sym, ◌∙◌, ◌≢◌, none, some, inl, inr, List, [], ◌∷◌, ◌++◌, Str, All, arith,
  Option-cases,
}
use mathlib.Core.List.{append-nil}
use mathlib.Core.Path.{ap₂}
use pulsate.Http.{HeaderApi, IsVisible}
use pulsate.Cache.Policy.{CacheConfig, vary_part, vary_value, get_str, key}

-- No line feed stands in the text.
abbrev pub OneLine : Str → Type 0
OneLine s = All (λ c. c ≢ 10) s

append-injective_line :
    (a b : Str) {x y : Str}
    → OneLine a
    → OneLine b
    → a ++ (10 ∷ x) ≡ b ++ (10 ∷ y)
    → (a ≡ b) × (x ≡ y)
append-injective_line [] [] ha hb e = (refl, ground arith)
append-injective_line [] (d ∷ b) ha hb e = absurd (hb.0 (ground arith))
append-injective_line (c ∷ a) [] ha hb e = absurd (ha.0 (ground arith))
append-injective_line (c ∷ a) (d ∷ b) {x} {y} ha hb e =
    let rest : a ++ (10 ∷ x) ≡ b ++ (10 ∷ y) = ground arith in
    let (p, q) = append-injective_line a b ha.1 hb.1 rest in
    let same : c ≡ d = ground arith in (ap₂ ◌∷◌ same p, q)

append-cancel : (n : Str) {x y : Str} → n ++ x ≡ n ++ y → x ≡ y
append-cancel [] e = e
append-cancel (c ∷ n) e = append-cancel n (ground arith)

visible-OneLine : (s : Str) → All IsVisible s → OneLine s
visible-OneLine [] h = tt
visible-OneLine (c ∷ s) h = (λ e. ground arith, visible-OneLine s h.1)

module _ (api : HeaderApi) where
  open api use {HeaderMap, HeaderValue, to_str, to_str-IsVisible}

  vary_value-OneLine : (h : HeaderMap) (name : Str) → OneLine (vary_value api h name)
  vary_value-OneLine h name = elim (Option-cases (api.get h name)) [
    | inl e ↦ rw (e, vary_value, get_str) tt
    | inr (v, e) ↦ elim (Option-cases (to_str v)) [
      | inl f ↦ rw (e, vary_value, get_str, f) tt
      | inr (s, f) ↦ rw (e, vary_value, get_str, f) (visible-OneLine s (to_str-IsVisible v s f))
    ]
  ]

  -- The first value of a header; an absent, an unreadable and an empty one read the same.
  abbrev pub reading : HeaderMap → Str → Str
  reading h name = elim (api.get h name) [
    | none ↦ []
    | some v ↦ elim (to_str v) [ none ↦ [] | some s ↦ s ]
  ]

  vary_value_lem : (h : HeaderMap) (name : Str) → vary_value api h name ≡ reading h name
  vary_value_lem h name = elim (Option-cases (api.get h name)) [
    | inl e ↦ rw (e, vary_value, get_str, reading) refl
    | inr (v, e) ↦ elim (Option-cases (to_str v)) [
      | inl f ↦ rw (e, vary_value, get_str, reading, f) refl
      | inr (s, f) ↦ rw (e, vary_value, get_str, reading, f) refl
    ]
  ]

  -- The two requests agree on the configured dimensions.
  abbrev pub AgreeOn : List Str → HeaderMap → HeaderMap → Type 0
  AgreeOn names h h' = All (λ name. reading h name ≡ reading h' name) names

  vary_part-injective :
      (names : List Str) (s s' : Str) (h h' : HeaderMap)
      → OneLine s
      → OneLine s'
      → s ++ vary_part api names h ≡ s' ++ vary_part api names h'
      → (s ≡ s') × AgreeOn names h h'
  unfolding vary_part
  vary_part-injective [] s s' h h' l l' e = (sym (append-nil s) ∙ e ∙ append-nil s', tt)
  vary_part-injective (n ∷ names) s s' h h' l l' e =
      let (p, q) = append-injective_line s s' l l' e in
      let (v, vs) =
        vary_part-injective names (vary_value api h n) (vary_value api h' n) h h'
          (vary_value-OneLine h n) (vary_value-OneLine h' n) (ap tail (append-cancel n q)) in
      (p, (sym (vary_value_lem h n) ∙ v ∙ vary_value_lem h' n, vs))
    where
      tail : Str → Str
      tail [] = []
      tail (c ∷ s) = s

  -- Two requests whose cache keys under one configuration are equal have the same method, host and
  -- target (path and query), and of every configured `vary` header the first value reads the same, an
  -- absent and an unreadable one like an empty one, if no line feed stands in a method, host or
  -- target.
  pub key-injective :
      (config : CacheConfig) (method method' host host' target target' : Str) (h h' : HeaderMap)
      → OneLine method
      → OneLine method'
      → OneLine host
      → OneLine host'
      → OneLine target
      → OneLine target'
      → key api config method host target h ≡ key api config method' host' target' h'
      → (method ≡ method') × (host ≡ host') × (target ≡ target') × AgreeOn config.vary h h'
  unfolding key
  key-injective config method method' host host' target target' h h' lm lm' lh lh' lt lt' e =
      let (m, rest) = append-injective_line method method' lm lm' e in
      let (ho, rest') = append-injective_line host host' lh lh' rest in
      let (t, vs) = vary_part-injective config.vary target target' h h' lt lt' rest' in
      (m, ho, t, vs)
