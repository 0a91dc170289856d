-- ===== src/Cache/Layer.antt =====
-- crates/pulsate-cache/src/lib.rs: `CacheLayer::lookup`, `CacheLayer::maybe_store` and
-- `evict_until_fits`. The clock is an argument.
use pulsate.Prelude.{
  ℕ, zero, suc, ◌+◌, ◌-◌, ◌/◌, ◌*◌, ◌^◌, Bool, true, false, Option, none, some, List, [], ◌∷◌,
  length, Str, string_eq, Map, get, insert, ltb, leb, if◌then◌else◌,
}
use pulsate.Http.{HeaderApi}
use pulsate.Cache.Store.{Entry, Inner, size, len, remove_entry}
use pulsate.Cache.Policy.{CacheConfig, nanos_per_sec, parse_tags, cacheable_ttl}

pub data Freshness : Type 0 where
  fresh stale : Freshness

pub record Hit : Type 0 where
  pub status : ℕ
  pub headers : List (Str × Str)
  pub body : List ℕ
  pub age_secs : ℕ
  pub freshness : Freshness

abbrev pub hit_of : Entry → ℕ → Freshness → Hit
hit_of e age f = record {
  status = e.status;
  headers = e.headers;
  body = e.body;
  age_secs = age / nanos_per_sec;
  freshness = f;
}

-- What a lookup comes to; it panics where the sum of two durations is none.
pub data Looked : Type 0 where
  found : Hit → Looked
  missed panicked : Looked

-- The first number of nanoseconds that is too great for a `Duration`.
abbrev pub duration_end : ℕ
duration_end = 2 ^ 64 * nanos_per_sec

-- The part of `lookup` behind the map access.
abbrev pub serve : Str → ℕ → Inner → Entry → Looked × Inner
serve key now inner e =
    let age = now - e.stored_at in
    if leb age e.ttl
    then (found (hit_of e age fresh), inner)
    else if leb duration_end (e.ttl + e.swr)
    then (panicked, inner)
    else if leb age (e.ttl + e.swr)
    then (found (hit_of e age stale), inner)
    else (missed, (remove_entry key inner).1)

unfoldable pub lookup : Str → ℕ → Inner → Looked × Inner
lookup key now inner = elim (get key inner.map) [
  | none ↦ (missed, inner)
  | some e ↦ serve key now inner e
]

abbrev pub older : Str × Entry → Str × Entry → Str × Entry
older p q = if ltb (q.1).stored_at (p.1).stored_at then q else p

-- `min_by_key`: the first of the entries with the least store time.
unfoldable pub oldest_from : Str × Entry → Map Str Entry → Str × Entry
oldest_from p [] = p
oldest_from p ((j, f) ∷ m) = oldest_from (older p (j, f)) m

unfoldable pub oldest : Map Str Entry → Option (Str × Entry)
oldest [] = none
oldest (p ∷ m) = some (oldest_from p m)

-- `if inner.remove(&oldest).is_none() { break; }`, and the rounds that follow.
abbrev pub unless_gone : Option Entry × Inner → (Inner → Inner) → Inner
unless_gone (none, inner) rest = inner
unless_gone (some _, inner) rest = rest inner

-- The `while` loop, with a bound on its rounds.
unfoldable pub evict_loop : ℕ → Inner → ℕ → ℕ → Inner
evict_loop zero inner incoming budget = inner
evict_loop (suc n) inner incoming budget =
    let rest : Inner = elim (oldest inner.map) [
      | none ↦ inner
      | some p ↦ unless_gone (remove_entry p.0 inner) (λ i. evict_loop n i incoming budget)
    ] in
    if ltb budget (inner.bytes + incoming) then rest else inner

-- Each round removes an entry, so there are no more rounds than entries.
unfoldable pub evict_until_fits : Inner → ℕ → ℕ → Inner
evict_until_fits inner incoming budget = evict_loop (len inner) inner incoming budget

-- The insertion at the end of `maybe_store`.
abbrev pub put_entry : Str → Entry → Inner → Inner
put_entry key e inner = record { map = insert key e inner.map; bytes = inner.bytes + size e }

-- `maybe_store` from the removal of the old entry on.
unfoldable pub admit : CacheConfig → Str → Entry → Inner → Bool × Inner
admit config key e inner =
    let freed = (remove_entry key inner).1 in
    let room = evict_until_fits freed (size e) config.max_total_bytes in
    if leb config.max_entries (len freed)
    then (false, freed)
    else if ltb config.max_total_bytes (room.bytes + size e)
    then (false, room)
    else (true, put_entry key e room)

module _ (api : HeaderApi) where
  open api use {HeaderMap, HeaderValue, to_str, iter}

  -- The `filter_map` over the response's headers.
  abbrev pub text_headers : List (Str × HeaderValue) → List (Str × Str)
  text_headers [] = []
  text_headers ((n, v) ∷ hs) = elim (to_str v) [
    | none ↦ text_headers hs
    | some s ↦ (n, s) ∷ text_headers hs
  ]

  abbrev pub entry_for : CacheConfig → ℕ → HeaderMap → List ℕ → ℕ → ℕ → Entry
  entry_for config status h body ttl now = record {
    status = status;
    headers = text_headers (iter h);
    body = body;
    stored_at = now;
    ttl = ttl;
    swr = config.stale_while_revalidate;
    tags = parse_tags api h;
  }

  unfoldable pub maybe_store : CacheConfig → Str → ℕ → HeaderMap → List ℕ → ℕ → Inner → Bool × Inner
  maybe_store config key status h body now inner = elim (cacheable_ttl api config status h) [
    | none ↦ (false, inner)
    | some ttl ↦
        if ltb config.max_body_bytes (length body)
        then (false, inner)
        else admit config key (entry_for config status h body ttl now) inner
  ]
