-- ===== src/Cache/Serving.antt =====
-- What `lookup` serves, what `maybe_store` accepts, what an eviction and a purge take out.
use pulsate.Prelude.{
  ℕ, sym, ◌∙◌, ◌+◌, ◌-◌, ◌*◌, ◌/◌, ◌^◌, ◌≤◌, ◌<◌, ◌≡◌, refl, ◌⊎◌, inl, inr, ◌≢◌, true, false, ◌&&◌,
  Option, none, some, List, [], ◌∷◌, length, Str, string_eq, str_eq, str_eq_iff, get, insert,
  get-insert, get-remove, Map, to_ascii_lowercase, split_once, arith, ltb, if◌then◌else◌,
  Option-cases, Bool-cases, In, All, is_empty, trim, split, bytes, eq_ignore_ascii_case, In-of_any,
}
use pulsate.Http.{HeaderApi}
use pulsate.Cache.Store.{Entry, Inner, size, len, remove_entry}
use pulsate.Cache.Policy.{
  directives, directive_of, CacheConfig, cacheable_ttl, cache_control, vary_allows, vary_covered,
  vary_field_ok, get_str,
}
use pulsate.Cache.Layer.{
  Hit, Freshness, fresh, stale, Looked, found, missed, panicked, lookup, evict_until_fits,
  maybe_store, entry_for,
}
use pulsate.Cache.Accounting.{
  IsAccounted, remove_entry-IsAccounted, remove_entry-le, evict_loop_ends,
}
use pulsate.Cache.Limits.{maybe_store_cases, admit_cases}

-- What an entry is served as.
abbrev pub served : ℕ → List (Str × Str) → List ℕ → ℕ → Freshness → Hit
served status headers body age f = record {
  status = status;
  headers = headers;
  body = body;
  age_secs = age / 1_000_000_000;
  freshness = f;
}

-- The answer of a lookup at an age: what was stored, as long as its lifetime and the window behind it
-- last, and nothing from then on.
pub record IsServed (ttl swr status : ℕ) (headers : List (Str × Str)) (body : List ℕ) (age : ℕ)
    (x : Looked) : Type 0 where
  pub while_fresh : age ≤ ttl → x ≡ found (served status headers body age fresh)
  pub while_stale : ttl < age → age ≤ ttl + swr → x ≡ found (served status headers body age stale)
  pub gone : ttl + swr < age → x ≡ missed

-- A lookup keeps the store but for an entry older than its lifetime and the window behind it, which
-- it takes out, under whatever key `j`.
pub lookup_lem :
    (key : Str) (now : ℕ) (i : Inner) (e : Entry) (j : Str)
    → get key i.map ≡ some e
    → e.ttl + e.swr < 2 ^ 64 * 1_000_000_000
    → get j (lookup key now i).1.map
      ≡ (if str_eq key j && ltb (e.ttl + e.swr) (now - e.stored_at) then none else get j i.map)
unfolding lookup remove_entry
lookup_lem key now i e j h small = ground (arith, get-remove key j i.map, str_eq_iff key j)

-- A lookup of an entry that is not fresh panics if its lifetime and the window behind it are together
-- more than a duration can be.
pub lookup_panics :
    (key : Str) (now : ℕ) (i : Inner) (e : Entry)
    → get key i.map ≡ some e
    → e.ttl < now - e.stored_at
    → 2 ^ 64 * 1_000_000_000 ≤ e.ttl + e.swr
    → lookup key now i ≡ (panicked, i)
unfolding lookup
lookup_panics key now i e h late big = ground arith

nil_of_empty {ℓ} : {A : Type ℓ} (xs : List A) → is_empty xs ≡ true → xs ≡ []
nil_of_empty [] h = refl
nil_of_empty (x ∷ xs) h = cc

module _ (api : HeaderApi) (config : CacheConfig) where
  open api use {HeaderMap, contains_key}

  -- A field of a `Vary` header is empty, or names a configured dimension and is not `*`.
  abbrev pub IsCovered : Str → Type 0
  IsCovered f =
      (trim f ≡ [])
      ⊎ ((trim f ≢ bytes "*")
          × ((d : Str) × In d config.vary × (eq_ignore_ascii_case d (trim f) ≡ true)))

  vary_field-IsCovered : (f : Str) → vary_field_ok config f ≡ true → IsCovered f
  unfolding vary_field_ok
  vary_field-IsCovered f h = elim (Bool-cases (is_empty (trim f))) [
    | inl e ↦ inl (nil_of_empty (trim f) e)
    | inr e ↦ inr (
      ground (arith, str_eq_iff (trim f) (bytes "*")),
      In-of_any (λ d. eq_ignore_ascii_case d (trim f)) config.vary (ground arith),
    )
  ]

  vary_covered-All : (fs : List Str) → vary_covered config fs ≡ true → All IsCovered fs
  unfolding vary_covered
  vary_covered-All [] h = tt
  vary_covered-All (f ∷ fs) h =
      (vary_field-IsCovered f (ground arith), vary_covered-All fs (ground arith))

  -- The fields of the response's `Vary` header.
  abbrev pub vary_fields : HeaderMap → List Str
  vary_fields h = elim (get_str api h (bytes "vary")) [ none ↦ [] | some v ↦ split b',' v ]

  vary_allows-All :
      (h : HeaderMap) → vary_allows api config h ≡ true → All IsCovered (vary_fields h)
  unfolding vary_allows
  vary_allows-All h a = elim (Option-cases (get_str api h (bytes "vary"))) [
    | inl e ↦ rw (e, vary_fields) tt
    | inr (v, e) ↦ rw (e, vary_fields) (vary_covered-All (split b',' v) (ground arith))
  ]

  -- The name of a directive: what stands before its equals sign, without blanks and in lower case.
  abbrev pub before_equals : Str → Option (Str × Str) → Str
  before_equals part none = to_ascii_lowercase (trim part)
  before_equals part (some (k, v)) = to_ascii_lowercase (trim k)

  abbrev pub directive_name : Str → Str
  directive_name raw = before_equals (trim raw) (split_once b'=' (trim raw))

  -- The parts of the response's first `Cache-Control` header, where it can be read.
  abbrev pub control_parts : HeaderMap → List Str
  control_parts h = elim (get_str api h (bytes "cache-control")) [
    | none ↦ []
    | some v ↦ split b',' v
  ]

  -- What a response must look like for a store to accept it.
  pub record IsCacheable (status : ℕ) (h : HeaderMap) (body : List ℕ) : Type 0 where
    pub ok_status : status ≡ 200
    pub no_cookie : api.get h (bytes "set-cookie") ≡ none
    pub no_store : All (λ part. directive_name part ≢ bytes "no-store") (control_parts h)
    pub not_private : All (λ part. directive_name part ≢ bytes "private") (control_parts h)
    pub covered : All IsCovered (vary_fields h)
    pub fits : length body ≤ config.max_body_bytes

  directive_of-name :
      (part : Str) (o : Option (Str × Str)) → before_equals part o ≡ (directive_of part o).0
  directive_of-name part none = refl
  directive_of-name part (some (k, v)) = refl

  empty-name : (raw n : Str) → is_empty (trim raw) ≡ true → n ≢ [] → directive_name raw ≢ n
  unfolding trim split_once
  empty-name raw n e ne h =
      let nothing : trim raw ≡ [] = nil_of_empty (trim raw) e in
      let none_is : directive_name raw ≡ [] = rw nothing refl in ne (sym h ∙ none_is)

  insert-absent :
      (n k v : Str) (out : Map Str Str)
      → get n (insert k v out) ≡ none
      → (k ≢ n) × (get n out ≡ none)
  insert-absent n k v out h = elim (Bool-cases (str_eq k n)) [
    | inl e ↦ let bad : some v ≡ none = rw (get-insert k n v out, e) at h in cc
    | inr e ↦ (
      λ same. let bad : str_eq k n ≡ true = (str_eq_iff k n).1 same in cc,
      rw (get-insert k n v out, e) at h,
    )
  ]

  directives-absent :
      (n : Str) (parts : List Str) (out : Map Str Str)
      → n ≢ []
      → get n (directives parts out) ≡ none
      → All (λ part. directive_name part ≢ n) parts × (get n out ≡ none)
  unfolding directives
  directives-absent n [] out ne h = (tt, h)
  directives-absent n (raw ∷ parts) out ne h = elim (Bool-cases (is_empty (trim raw))) [
    | inl e ↦
        let (rest, before) = directives-absent n parts out ne (rw (directives, e) at h) in
        ((empty-name raw n e ne, rest), before)
    | inr e ↦
        let d = directive_of (trim raw) (split_once b'=' (trim raw)) in
        let (rest, now) =
          directives-absent n parts (insert d.0 d.1 out) ne (rw (directives, e) at h) in
        let (other, before) = insert-absent n d.0 d.1 out now in
        (
          (
            λ same. other (sym (directive_of-name (trim raw) (split_once b'=' (trim raw))) ∙ same),
            rest,
          ),
          before,
        )
  ]

  control_parts-absent :
      (n : Str) (h : HeaderMap)
      → n ≢ []
      → get n (cache_control api h) ≡ none
      → All (λ part. directive_name part ≢ n) (control_parts h)
  unfolding cache_control
  control_parts-absent n h ne absent = elim (Option-cases (get_str api h (bytes "cache-control"))) [
    | inl e ↦ rw (e, control_parts) tt
    | inr (v, e) ↦
        rw (e, control_parts)
          (directives-absent n (split b',' v) [] ne (rw (cache_control, e) at absent)).0
  ]

  cacheable_ttl-IsCacheable :
      (status : ℕ) (h : HeaderMap) (body : List ℕ) (ttl : ℕ)
      → cacheable_ttl api config status h ≡ some ttl
      → length body ≤ config.max_body_bytes
      → IsCacheable status h body
  unfolding cacheable_ttl
  cacheable_ttl-IsCacheable status h body ttl e fits = record {
    ok_status = ground arith;
    no_cookie = ground (arith, api.contains_key-get h (bytes "set-cookie"));
    no_store = control_parts-absent (bytes "no-store") h (λ x. cc) (ground arith);
    not_private = control_parts-absent (bytes "private") h (λ x. cc) (ground arith);
    covered = vary_allows-All h (ground arith);
    fits = fits;
  }

  -- What `maybe_store` accepts is a 200 response without a cookie, whose body is within the limit for
  -- one body. The first line of its Cache-Control header, where it can be read, has no part `no-store`
  -- or `private`, and the first line of its Vary header, where it can be read, names configured
  -- dimensions alone. Of further lines of the two headers it says nothing.
  pub maybe_store_accepts :
      (key : Str) (status : ℕ) (h : HeaderMap) (body : List ℕ) (now : ℕ) (i : Inner)
      → (maybe_store api config key status h body now i).0 ≡ true
      → IsCacheable status h body
  maybe_store_accepts key status h body now i =
      maybe_store_cases api config (λ r. r.0 ≡ true → IsCacheable status h body) key status h body
        now i (λ _ e. cc) (λ _ e. cc)
        λ ttl e fits _. cacheable_ttl-IsCacheable status h body ttl e fits

  -- A cacheable response whose body is within the limit for one body and over the byte budget is
  -- refused after everything else was evicted: below the entry limit the store ends up empty.
  pub maybe_store_too_big :
      (key : Str) (status : ℕ) (h : HeaderMap) (body : List ℕ) (now ttl : ℕ) (i : Inner)
      → IsAccounted i
      → cacheable_ttl api config status h ≡ some ttl
      → length body ≤ config.max_body_bytes
      → config.max_total_bytes < length body
      → len i < config.max_entries
      → ((maybe_store api config key status h body now i).0 ≡ false)
        × ((maybe_store api config key status h body now i).1.map ≡ [])
  unfolding evict_until_fits
  maybe_store_too_big key status h body now ttl i v cacheable small big room_left =
      maybe_store_cases api config (λ r. (r.0 ≡ false) × (r.1.map ≡ [])) key status h body now i
        (λ e. cc) (λ e. absurd (omega arith))
        λ ttl' _ _.
          let entry = entry_for api config status h body ttl' now in
          admit_cases config key entry i v (λ r. (r.0 ≡ false) × (r.1.map ≡ []))
            (λ full. absurd (omega (arith, remove_entry-le key i))) (λ _ _. (refl, emptied ttl'))
            (λ _ fits. absurd (omega arith))
    where
      emptied :
          (t : ℕ)
          → (evict_until_fits
              (remove_entry key i).1
              (size (entry_for api config status h body t now))
              config.max_total_bytes).map
            ≡ []
      emptied t = ground (
        arith,
        evict_loop_ends (length body) config.max_total_bytes (len (remove_entry key i).1)
            (remove_entry key i).1 (remove_entry-IsAccounted key i v),
      )
