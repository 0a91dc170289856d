-- ===== src/Cache/Store.antt =====
-- crates/pulsate-cache/src/lib.rs: `Entry`, `Inner` and `MemoryStore`. Times are nanoseconds of one
-- monotonic clock. A lookup alone can panic while it holds the mutex (Cache/Layer); behind that the
-- mutex is poisoned, lookups miss and nothing is stored, which is not modelled.
use pulsate.Prelude.{
  ℕ, ◌-◌, Bool, not, Option, none, some, List, [], length, any, Str, str_eq, Map, get, remove,
  total, keep_if, string_eq,
}

pub record Entry : Type 0 where
  pub status : ℕ
  pub headers : List (Str × Str)
  pub body : List ℕ
  pub stored_at : ℕ
  pub ttl : ℕ
  pub swr : ℕ
  pub tags : List Str

abbrev pub size : Entry → ℕ
size e = length e.body

pub record Inner : Type 0 where
  pub map : Map Str Entry
  pub bytes : ℕ

abbrev pub empty : Inner
empty = record { map = []; bytes = 0 }

-- `Inner::remove`: the entry that was removed, and the store without it.
unfoldable pub remove_entry : Str → Inner → Option Entry × Inner
remove_entry key inner = elim (get key inner.map) [
  | none ↦ (none, inner)
  | some e ↦ (some e, record { map = remove key inner.map; bytes = inner.bytes - size e })
]

abbrev pub len : Inner → ℕ
len inner = length inner.map

abbrev pub has_tag : Str → Entry → Bool
has_tag tag e = any (λ t. str_eq t tag) e.tags

-- `MemoryStore::purge_tag`: the number of entries removed, and the store that stays.
unfoldable pub purge_tag : Str → Inner → ℕ × Inner
purge_tag tag inner =
    let kept = keep_if (λ e. not (has_tag tag e)) inner.map in
    let freed = total size (keep_if (has_tag tag) inner.map) in
    (length inner.map - length kept, record { map = kept; bytes = inner.bytes - freed })

unfoldable pub clear : Inner → Inner
clear inner = record { map = []; bytes = 0 }
