-- ===== src/Proxy/Stripping.antt =====
-- Which headers a forwarded request and its response carry.
use pulsate.Prelude.{
  ◌≡◌, refl, ap, sym, ◌∙◌, true, false, Option, none, some, List, [], ◌∷◌, Str, str_eq, str_eq_iff,
  bytes, any, All, In, here, there, retain, map, is_empty, not, ◌||◌, ◌++◌, Bool, ◌≢◌, inl, inr,
  trim, split, Bool-cases, any_of_In, In-of_any, subst, ◌⊎◌, Option-cases, to_ascii_lowercase,
  eq_ignore_ascii_case, if◌then◌else◌, arith,
}
use pulsate.Http.{HeaderApi, HeaderWriter}
use pulsate.Proxy.Headers.{
  connection_strip_set, is_stripped, read_value, tokens_of, copy_headers, response_headers,
}

abbrev pub or_else {ℓ} : {A : Type ℓ} → Option A → Option A → Option A
or_else none d = d
or_else (some a) d = some a

-- The last value under a name.
unfoldable pub last_named {ℓ} : {V : Type ℓ} → Str → List (Str × V) → Option V
last_named m [] = none
last_named m ((n, v) ∷ items) = or_else (last_named m items) (if str_eq m n then some v else none)

-- The names that `apply_forwarded` writes.
abbrev pub forwarded_names : List Str
forwarded_names =
    bytes "x-forwarded-for"
    ∷ bytes "x-forwarded-host"
    ∷ bytes "x-forwarded-proto"
    ∷ bytes "via"
    ∷ []

eq_ignore-lower :
    (m n : Str)
    → to_ascii_lowercase m ≡ m
    → to_ascii_lowercase n ≡ n
    → eq_ignore_ascii_case m n ≡ str_eq m n
eq_ignore-lower m n lm ln = rw (lm, ln) refl

str_eq-true : (m n : Str) → str_eq m n ≡ true → m ≡ n
str_eq-true m n h = (str_eq_iff m n).0 h

-- The headers that are about one connection, and those that the proxy sets anew.
abbrev pub not_passed_on : List Str
not_passed_on =
    bytes "connection"
    ∷ bytes "keep-alive"
    ∷ bytes "proxy-authenticate"
    ∷ bytes "proxy-authorization"
    ∷ bytes "te"
    ∷ bytes "trailers"
    ∷ bytes "transfer-encoding"
    ∷ bytes "upgrade"
    ∷ bytes "host"
    ∷ bytes "content-length"
    ∷ []

-- The name is one of the fields of a Connection header.
pub record IsToken (fields : List Str) (m : Str) : Type 0 where
  pub field : Str
  pub is_field : In field fields
  pub named : to_ascii_lowercase (trim field) ≡ m
  pub not_empty : m ≢ []

IsToken-there : {f : Str} {fields : List Str} {m : Str} → IsToken fields m → IsToken (f ∷ fields) m
IsToken-there t = record {
  field = t.field;
  is_field = there t.is_field;
  named = t.named;
  not_empty = t.not_empty;
}

abbrev kept_tokens : List Str → List Str
kept_tokens fields = retain (λ t. not (is_empty t)) (map (λ t. to_ascii_lowercase (trim t)) fields)

any-IsToken :
    (m : Str) (fields : List Str) → any (str_eq m) (kept_tokens fields) ≡ true → IsToken fields m
any-IsToken m [] h = cc
any-IsToken m (f ∷ fields) h = elim (Bool-cases (is_empty (to_ascii_lowercase (trim f)))) [
  | inl e ↦ IsToken-there (any-IsToken m fields (rw (retain, e) at h))
  | inr e ↦ elim (Bool-cases (str_eq m (to_ascii_lowercase (trim f)))) [
    | inl g ↦ record {
      field = f;
      is_field = here refl;
      named = sym ((str_eq_iff m (to_ascii_lowercase (trim f))).0 g);
      not_empty = λ z. lower_not_empty ((str_eq_iff m (to_ascii_lowercase (trim f))).0 g) e z;
    }
    | inr g ↦ IsToken-there (any-IsToken m fields (ground (arith, h, e, g)))
  ]
]
  where
    lower_not_empty :
        m ≡ to_ascii_lowercase (trim f)
        → is_empty (to_ascii_lowercase (trim f)) ≡ false
        → m ≡ []
        → ⊥
    lower_not_empty g e z =
        let bad : is_empty (to_ascii_lowercase (trim f)) ≡ true = ap is_empty (sym g ∙ z) in cc

is_empty_lem : (m : Str) → m ≢ [] → is_empty m ≡ false
is_empty_lem [] ne = absurd (ne refl)
is_empty_lem (c ∷ m) ne = refl

IsToken-any :
    (m : Str) (fields : List Str) → IsToken fields m → any (str_eq m) (kept_tokens fields) ≡ true
IsToken-any m [] t = elim t.is_field [ ]
IsToken-any m (f ∷ fields) t = elim t.is_field [
  | here e ↦
      let q : to_ascii_lowercase (trim f) ≡ m =
        ap (λ g. to_ascii_lowercase (trim g)) (sym e) ∙ t.named in
      rw q (ground (arith, is_empty_lem m t.not_empty, (str_eq_iff m m).1 refl))
  | there n ↦
      let rest : any (str_eq m) (kept_tokens fields) ≡ true =
        IsToken-any m fields
          (record { field = t.field; is_field = n; named = t.named; not_empty = t.not_empty }) in
      elim (Bool-cases (is_empty (to_ascii_lowercase (trim f)))) [
        | inl e ↦ rw (retain, e) rest
        | inr e ↦ ground (arith, rest, e)
      ]
]

any-append : (p : Str → Bool) (xs ys : List Str) → any p (xs ++ ys) ≡ (any p xs || any p ys)
any-append p [] ys = refl
any-append p (x ∷ xs) ys = ground (arith, any-append p xs ys)

module _ (api : HeaderApi) (out : HeaderWriter api) where
  -- The header is not passed on: it is in the list, or the message's first Connection header, where
  -- it can be read as text, names it.
  pub IsDropped : api.HeaderMap → Str → Type 0
  IsDropped h m =
      In m not_passed_on
      ⊎ ((v : api.HeaderValue) × (text : Str) × (api.get h (bytes "connection") ≡ some v)
          × (api.to_str v ≡ some text)
          × IsToken (split b',' text) m)

  tokens-IsDropped :
      (h : api.HeaderMap) (m : Str)
      → any (str_eq m) (tokens_of (read_value api (api.get h (bytes "connection")))) ≡ true
      → IsDropped h m
  unfolding IsDropped
  tokens-IsDropped h m hit = elim (Option-cases (api.get h (bytes "connection"))) [
    | inl e ↦ let bad : false ≡ true = rw (e, read_value, tokens_of) at hit in cc
    | inr (v, e) ↦ elim (Option-cases (api.to_str v)) [
      | inl f ↦ let bad : false ≡ true = rw (e, read_value, f, tokens_of) at hit in cc
      | inr (text, f) ↦
          inr (
            v,
            text,
            e,
            f,
            any-IsToken m (split b',' text) (rw (e, read_value, f, tokens_of) at hit),
          )
    ]
  ]

  stripped-IsDropped :
      (h : api.HeaderMap) (m : Str)
      → is_stripped api (connection_strip_set api h) m ≡ true
      → IsDropped h m
  unfolding IsDropped
  stripped-IsDropped h m hit = elim (Bool-cases (any (str_eq m) not_passed_on)) [
    | inl e ↦
        let (n, is_in, same) = In-of_any (str_eq m) not_passed_on e in
        inl (subst (λ k. In k not_passed_on) (sym ((str_eq_iff m n).0 same)) is_in)
    | inr e ↦ tokens-IsDropped h m (
        ground (
          arith,
          e,
          hit,
          any-append (str_eq m) not_passed_on
              (tokens_of (read_value api (api.get h (bytes "connection")))),
        ))
  ]

  dropped-stripped :
      (h : api.HeaderMap) (m : Str)
      → IsDropped h m
      → is_stripped api (connection_strip_set api h) m ≡ true
  unfolding IsDropped
  dropped-stripped h m (inl is_in) = ground (
    arith,
    any_of_In (str_eq m) is_in ((str_eq_iff m m).1 refl),
    any-append (str_eq m) not_passed_on
        (tokens_of (read_value api (api.get h (bytes "connection")))),
  )
  dropped-stripped h m (inr (v, text, e, f, token)) =
      let hit : any (str_eq m) (tokens_of (read_value api (api.get h (bytes "connection"))))
          ≡ true =
        rw (e, read_value, f, tokens_of) (IsToken-any m (split b',' text) token) in
      ground (
        arith,
        hit,
        any-append (str_eq m) not_passed_on
            (tokens_of (read_value api (api.get h (bytes "connection")))),
      )

  -- What the stripping leaves under a name.
  kept_or_IsDropped :
      (orig h : api.HeaderMap) (m : Str)
      → api.get h m ≡ (
          if is_stripped api (connection_strip_set api orig) m
          then none
          else last_named m (api.iter orig))
      → (IsDropped orig m → api.get h m ≡ none)
        × (¬ IsDropped orig m → api.get h m ≡ last_named m (api.iter orig))
  kept_or_IsDropped orig h m at =
      elim (Bool-cases (is_stripped api (connection_strip_set api orig) m)) [
        | inl e ↦ (λ d. at ∙ rw e refl, λ nd. absurd (nd (stripped-IsDropped orig m e)))
        | inr e ↦ (
          λ d.
              let bad : is_stripped api (connection_strip_set api orig) m ≡ true =
                dropped-stripped orig m d in
              cc,
          λ nd. at ∙ rw e refl,
        )
      ]

  copy_headers_lem :
      (strip : List Str) (items : List (Str × api.HeaderValue)) (h : api.HeaderMap) (m : Str)
      → to_ascii_lowercase m ≡ m
      → All (λ x. to_ascii_lowercase x.0 ≡ x.0) items
      → api.get (copy_headers api out strip items h) m ≡ (
          if is_stripped api strip m
          then api.get h m
          else or_else (last_named m items) (api.get h m))
  unfolding copy_headers last_named
  copy_headers_lem strip [] h m lm lower = ground arith
  copy_headers_lem strip ((n, v) ∷ items) h m lm (ln, lower) = ground (
    arith,
    copy_headers_lem strip items h m lm lower,
    copy_headers_lem strip items (out.insert h n v) m lm lower,
    out.get-insert h n m v,
    eq_ignore-lower m n lm ln,
    str_eq-true m n,
  )

  -- The response that the client gets carries no header of the upstream's answer that is about the
  -- connection (or is Host or Content-Length) or that the answer's first Connection header names,
  -- where that header can be read as text; it carries each other one, with the last of its values,
  -- and no header besides.
  pub response_headers_lem :
      (h : api.HeaderMap) (m : Str)
      → to_ascii_lowercase m ≡ m
      → (IsDropped h m → api.get (response_headers api out h) m ≡ none)
        × (¬ IsDropped h m → api.get (response_headers api out h) m ≡ last_named m (api.iter h))
  unfolding response_headers
  response_headers_lem h m lm = kept_or_IsDropped h (response_headers api out h) m (
      copy_headers_lem (connection_strip_set api h) (api.iter h) out.empty m lm (out.iter-lower h)
      ∙ ground (arith, out.get-empty m))
