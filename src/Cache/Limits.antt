-- ===== src/Cache/Limits.antt =====
-- `CacheLayer::maybe_store`, `lookup` and `MemoryStore::purge_tag` keep the store's books and
-- limits.
use pulsate.Prelude.{
  ℕ, ◌+◌, ◌≤◌, ◌<◌, ◌≡◌, refl, inl, inr, Bool, true, false, not, none, some, List, [], ◌∷◌, length,
  Str, string_eq, get, arith, ltb, leb, insert-Distinct, total-insert_new, total-keep_if,
  keep_if-Distinct, length-keep_if-le, length-insert-le, Option-cases, Bool-cases, In-of_get,
  get_of_In,
}
use pulsate.Http.{HeaderApi}
use pulsate.Cache.Store.{Entry, Inner, size, len, empty, remove_entry, purge_tag, clear, has_tag}
use pulsate.Cache.Policy.{CacheConfig, cacheable_ttl}
use pulsate.Cache.Layer.{
  lookup, serve, Looked, missed, evict_until_fits, put_entry, admit, maybe_store, entry_for,
}
use pulsate.Cache.Accounting.{
  IsAccounted, remove_entry-IsAccounted, remove_entry-le, get-remove_entry, evict_loop-IsAccounted,
  evict_loop-In, evict_loop-le,
}

-- The store is within a cache's limits.
pub record IsWithin (config : CacheConfig) (inner : Inner) : Type 0 where
  pub entries : len inner ≤ config.max_entries
  pub body_bytes : inner.bytes ≤ config.max_total_bytes

-- A key that is not in the store is not there after an eviction.
pub get-evict_absent :
    (key : Str) (i : Inner) (incoming budget : ℕ)
    → IsAccounted i
    → get key i.map ≡ none
    → get key (evict_until_fits i incoming budget).map ≡ none
unfolding evict_until_fits
get-evict_absent key i incoming budget v h =
    elim (Option-cases (get key (evict_until_fits i incoming budget).map)) [
      | inl e ↦ e
      | inr (x, e) ↦
          let old : get key i.map ≡ some x =
            get_of_In key x i.map v.distinct
              (evict_loop-In incoming budget (len i) i (key, x) v.distinct (In-of_get key x _ e)) in
          cc
    ]

put_entry-IsAccounted :
    (key : Str) (e : Entry) (i : Inner)
    → get key i.map ≡ none
    → IsAccounted i
    → IsAccounted (put_entry key e i)
put_entry-IsAccounted key e i h v = record {
  distinct = insert-Distinct key e i.map v.distinct;
  counted = omega (arith, total-insert_new size key e i.map h, v.counted);
}

module _ (config : CacheConfig) (key : Str) (e : Entry) (i : Inner) (v : IsAccounted i) where
  abbrev pub freed : Inner
  freed = (remove_entry key i).1

  abbrev pub room : Inner
  room = evict_until_fits (remove_entry key i).1 (size e) config.max_total_bytes

  -- What `admit` can do: refuse at the entry limit, refuse for lack of room, or store.
  pub admit_cases {ℓ} :
      (P : Bool × Inner → Type ℓ)
      → (config.max_entries ≤ len freed → P (false, freed))
      → (len freed < config.max_entries
          → config.max_total_bytes < room.bytes + size e
          → P (false, room))
      → (len freed < config.max_entries
          → room.bytes + size e ≤ config.max_total_bytes
          → P (true, put_entry key e room))
      → P (admit config key e i)
  unfolding admit
  admit_cases P full big stored =
      elim (Bool-cases (leb config.max_entries (len (remove_entry key i).1))) [
        | inl h ↦ rw (h, admit) (full (ground arith))
        | inr h ↦ elim (Bool-cases (ltb config.max_total_bytes (room.bytes + size e))) [
          | inl g ↦ rw (h, g, admit) (big (ground arith) (ground arith))
          | inr g ↦ rw (h, g, admit) (stored (ground arith) (ground arith))
        ]
      ]

  freed-IsAccounted : IsAccounted freed
  freed-IsAccounted = remove_entry-IsAccounted key i v

  room-IsAccounted : IsAccounted room
  unfolding evict_until_fits
  room-IsAccounted = evict_loop-IsAccounted _ _ _ _ (remove_entry-IsAccounted key i v)

  room-le : (len room ≤ len freed) × (room.bytes ≤ freed.bytes)
  unfolding evict_until_fits
  room-le = evict_loop-le _ _ _ _ (remove_entry-IsAccounted key i v).distinct

  get-room : get key room.map ≡ none
  get-room = get-evict_absent key _ _ _ (remove_entry-IsAccounted key i v) (get-remove_entry key i)

  freed-le : (len freed ≤ len i) × (freed.bytes ≤ i.bytes)
  freed-le = remove_entry-le key i

  pub admit-IsAccounted : IsAccounted (admit config key e i).1
  admit-IsAccounted =
      admit_cases (λ r. IsAccounted r.1) (λ _. freed-IsAccounted) (λ _ _. room-IsAccounted)
        (λ _ _. put_entry-IsAccounted key e room get-room room-IsAccounted)

  pub admit-IsWithin : IsWithin config i → IsWithin config (admit config key e i).1
  admit-IsWithin w =
      admit_cases (λ r. IsWithin config r.1) (λ _. omega (arith, freed-le))
        (λ _ _. omega (arith, freed-le, room-le))
        (λ below fits.
          let grown : len (put_entry key e room) ≤ len room + 1 = length-insert-le key e room.map in
          record { entries = omega (arith, freed-le, room-le); body_bytes = omega arith })

module _ (api : HeaderApi) (config : CacheConfig) where
  open api use {HeaderMap}

  -- What `maybe_store` can do: nothing, or what `admit` does.
  pub maybe_store_cases {ℓ} :
      (P : Bool × Inner → Type ℓ) (key : Str) (status : ℕ) (h : HeaderMap) (body : List ℕ) (now : ℕ)
      (i : Inner)
      → (cacheable_ttl api config status h ≡ none → P (false, i))
      → (config.max_body_bytes < length body → P (false, i))
      → ((ttl : ℕ)
          → cacheable_ttl api config status h ≡ some ttl
          → length body ≤ config.max_body_bytes
          → P (admit config key (entry_for api config status h body ttl now) i))
      → P (maybe_store api config key status h body now i)
  unfolding maybe_store
  maybe_store_cases P key status h body now i no_ttl big go =
      elim (Option-cases (cacheable_ttl api config status h)) [
        | inl e ↦ rw (e, maybe_store) (no_ttl e)
        | inr (ttl, e) ↦ elim (Bool-cases (ltb config.max_body_bytes (length body))) [
          | inl g ↦ rw (e, g, maybe_store) (big (ground arith))
          | inr g ↦ rw (e, g, maybe_store) (go ttl e (ground arith))
        ]
      ]

pub lookup_cases {ℓ} :
    (P : Looked × Inner → Type ℓ) (key : Str) (now : ℕ) (i : Inner)
    → (get key i.map ≡ none → P (missed, i))
    → ((e : Entry) → get key i.map ≡ some e → P (serve key now i e))
    → P (lookup key now i)
unfolding lookup
lookup_cases P key now i miss hit = elim (Option-cases (get key i.map)) [
  | inl e ↦ rw (e, lookup) (miss e)
  | inr (x, e) ↦ rw (e, lookup) (hit x e)
]

serve-IsAccounted :
    (key : Str) (now : ℕ) (i : Inner) (e : Entry)
    → IsAccounted i
    → IsAccounted (serve key now i e).1
serve-IsAccounted key now i e v = ground (arith, remove_entry-IsAccounted key i v)

serve-le :
    (key : Str) (now : ℕ) (i : Inner) (e : Entry)
    → (len (serve key now i e).1 ≤ len i) × ((serve key now i e).1.bytes ≤ i.bytes)
serve-le key now i e = ground (arith, remove_entry-le key i)

pub purge_tag-IsAccounted :
    (tag : Str) (i : Inner) → IsAccounted i → IsAccounted (purge_tag tag i).1
unfolding purge_tag
purge_tag-IsAccounted tag i v = record {
  distinct = keep_if-Distinct _ i.map v.distinct;
  counted = omega (arith, total-keep_if size (has_tag tag) i.map, v.counted);
}

-- The calls that an embedding makes on the store of one cache.
pub data Op (api : HeaderApi) : Type 0 where
  stores : Str → ℕ → api.HeaderMap → List ℕ → ℕ → Op api
  looks : Str → ℕ → Op api
  purges : Str → Op api
  clears : Op api

module _ (api : HeaderApi) (config : CacheConfig) where
  unfoldable pub step : Inner → Op api → Inner
  step i (stores key status h body now) = (maybe_store api config key status h body now i).1
  step i (looks key now) = (lookup key now i).1
  step i (purges tag) = (purge_tag tag i).1
  step i clears = clear i

  unfoldable pub run : Inner → List (Op api) → Inner
  unfolding step
  run i [] = i
  run i (op ∷ ops) = run (step i op) ops

  abbrev pub IsSound : Inner → Type 0
  IsSound i = IsAccounted i × IsWithin config i

  step-IsSound : (i : Inner) (op : Op api) → IsSound i → IsSound (step i op)
  unfolding step clear purge_tag
  step-IsSound i (stores key status h body now) (v, w) =
      maybe_store_cases api config (λ r. IsSound r.1) key status h body now i (λ _. (v, w))
        (λ _. (v, w))
        (λ ttl _ _. (admit-IsAccounted config key _ i v, admit-IsWithin config key _ i v w))
  step-IsSound i (looks key now) (v, w) =
      lookup_cases (λ r. IsSound r.1) key now i (λ _. (v, w))
        λ e _. (serve-IsAccounted key now i e v, omega (arith, serve-le key now i e))
  step-IsSound i (purges tag) (v, w) = (
    purge_tag-IsAccounted tag i v,
    omega (arith, length-keep_if-le (λ e. not (has_tag tag e)) i.map),
  )
  step-IsSound i clears (v, w) = (record { distinct = tt; counted = refl }, omega arith)

  run_from-IsSound : (i : Inner) (ops : List (Op api)) → IsSound i → IsSound (run i ops)
  unfolding run
  run_from-IsSound i [] s = s
  run_from-IsSound i (op ∷ ops) s = run_from-IsSound (step i op) ops (step-IsSound i op s)

  -- After any history of stores, lookups, purges and clears of one cache that starts from the
  -- empty store, the byte total is the sum of the stored body sizes, every key has one entry, and
  -- neither the entry limit nor the byte budget is exceeded.
  pub run-IsSound : (ops : List (Op api)) → IsSound (run empty ops)
  run-IsSound ops =
      run_from-IsSound empty ops (record { distinct = tt; counted = refl }, omega arith)
