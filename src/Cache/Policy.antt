-- ===== src/Cache/Policy.antt =====
-- crates/pulsate-cache/src/lib.rs: what may be cached, for how long, and under which key.
-- Durations are nanoseconds.
use pulsate.Prelude.{
  ℕ, ◌*◌, ◌^◌, Bool, true, not, ◌||◌, ◌&&◌, Option, none, some, List, [], ◌∷◌, ◌++◌, map, reverse,
  is_empty, is_some, any, retain, Str, string_eq, str_eq, bytes, Map, get, insert, trim, split,
  split_once, to_ascii_lowercase, eq_ignore_ascii_case, parse_uint, ◌==◌, if◌then◌else◌,
}
use pulsate.Http.{HeaderApi}

pub record CacheConfig : Type 0 where
  pub default_ttl : ℕ
  pub methods : List Str
  pub vary : List Str
  pub stale_while_revalidate : ℕ
  pub max_entries : ℕ
  pub max_body_bytes : ℕ
  pub max_total_bytes : ℕ

abbrev pub nanos_per_sec : ℕ
nanos_per_sec = 1_000_000_000

abbrev pub default_config : CacheConfig
default_config = record {
  default_ttl = 60 * nanos_per_sec;
  methods = bytes "GET" ∷ bytes "HEAD" ∷ [];
  vary = [];
  stale_while_revalidate = 0;
  max_entries = 10_000;
  max_body_bytes = 2 ^ 20;
  max_total_bytes = 256 * 2 ^ 20;
}

-- `val.trim().trim_matches('"')`
trim_quotes_start : Str → Str
trim_quotes_start [] = []
trim_quotes_start (c ∷ s) = if c == b'"' then trim_quotes_start s else c ∷ s

pub trim_quotes : Str → Str
unfolding trim_quotes_start
trim_quotes s = reverse (trim_quotes_start (reverse (trim_quotes_start s)))

-- `part.split_once('=').unwrap_or((part, ""))`, trimmed and lowercased.
abbrev pub directive_of : Str → Option (Str × Str) → Str × Str
directive_of part none = (to_ascii_lowercase (trim part), [])
directive_of part (some (k, v)) = (to_ascii_lowercase (trim k), trim_quotes (trim v))

-- The loop of `cache_control` over the comma-separated parts.
unfoldable pub directives : List Str → Map Str Str → Map Str Str
unfolding trim_quotes
directives [] out = out
directives (raw ∷ parts) out =
    let part = trim raw in
    let d = directive_of part (split_once b'=' part) in
    directives parts (if is_empty part then out else insert d.0 d.1 out)

-- The test of the loop over the `Vary` fields, for one field.
unfoldable pub vary_field_ok : CacheConfig → Str → Bool
vary_field_ok config raw =
    let field = trim raw in
    is_empty field
    || (not (str_eq field (bytes "*")) && any (λ v. eq_ignore_ascii_case v field) config.vary)

-- The loop over the `Vary` fields: whether none of them forbids the store.
unfoldable pub vary_covered : CacheConfig → List Str → Bool
vary_covered config [] = true
vary_covered config (f ∷ fs) = vary_field_ok config f && vary_covered config fs

abbrev pub freshness_of : CacheConfig → Option Str → ℕ
freshness_of config none = config.default_ttl
freshness_of config (some text) = elim (parse_uint (2 ^ 64) text) [
  | none ↦ config.default_ttl
  | some secs ↦ secs * nanos_per_sec
]

abbrev or_else : Option Str → Option Str → Option Str
or_else none b = b
or_else (some a) b = some a

module _ (api : HeaderApi) where
  open api use {HeaderMap, HeaderValue, contains_key, to_str, iter}

  -- `headers.get(name).and_then(|v| v.to_str().ok())`
  abbrev pub get_str : HeaderMap → Str → Option Str
  get_str h name = elim (api.get h name) [ none ↦ none | some v ↦ to_str v ]

  unfoldable pub cache_control : HeaderMap → Map Str Str
  cache_control h = elim (get_str h (bytes "cache-control")) [
    | none ↦ []
    | some v ↦ directives (split b',' v) []
  ]

  unfoldable pub parse_tags : HeaderMap → List Str
  parse_tags h =
      let value : Option HeaderValue = elim (api.get h (bytes "cache-tag")) [
        | none ↦ api.get h (bytes "x-cache-tag")
        | some v ↦ some v
      ] in
      elim value [
        | none ↦ []
        | some v ↦ elim (to_str v) [
          | none ↦ []
          | some text ↦ retain (λ t. not (is_empty t)) (map trim (split b',' text))
        ]
      ]

  -- The check of the response's `Vary` header against the configured dimensions.
  unfoldable pub vary_allows : CacheConfig → HeaderMap → Bool
  vary_allows config h = elim (get_str h (bytes "vary")) [
    | none ↦ true
    | some v ↦ vary_covered config (split b',' v)
  ]

  unfoldable pub cacheable_ttl : CacheConfig → ℕ → HeaderMap → Option ℕ
  cacheable_ttl config status h =
      let cc = cache_control h in
      if not (status == 200)
      then none
      else if contains_key h (bytes "set-cookie")
      then none
      else if not (vary_allows config h)
      then none
      else if is_some (get (bytes "no-store") cc) || is_some (get (bytes "private") cc)
      then none
      else if is_some (get (bytes "no-cache") cc)
      then some 0
      else some
          (freshness_of config (or_else (get (bytes "s-maxage") cc) (get (bytes "max-age") cc)))

  unfoldable pub request_allows_cache : CacheConfig → Str → HeaderMap → Bool
  request_allows_cache config method h =
      any (λ m. eq_ignore_ascii_case m method) config.methods
      && not (is_some (get (bytes "no-store") (cache_control h)))

  abbrev pub vary_value : HeaderMap → Str → Str
  vary_value h name = elim (get_str h name) [ none ↦ [] | some v ↦ v ]

  -- The loop of `key` over the configured dimensions.
  unfoldable pub vary_part : List Str → HeaderMap → Str
  vary_part [] h = []
  vary_part (name ∷ names) h = b'\n' ∷ (name ++ (b'=' ∷ (vary_value h name ++ vary_part names h)))

  unfoldable pub key : CacheConfig → Str → Str → Str → HeaderMap → Str
  unfolding vary_part
  key config method host target h =
      method ++ (b'\n' ∷ (host ++ (b'\n' ∷ (target ++ vary_part config.vary h))))
