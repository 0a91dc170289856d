-- ===== src/Waf/Audit.antt =====
-- crates/pulsate-waf/src/lib.rs: `AuditLog` and its hash chain. `hmac` is HMAC-SHA256 under the key
-- of the log. The branches for a poisoned lock are left out: no code that holds it panics.
use pulsate.Prelude.{
  ℕ, zero, suc, ◌+◌, ◌/◌, ◌%◌, ◌^◌, Bool, true, false, not, ◌||◌, Option, none, some, List, [], ◌∷◌,
  ◌++◌, Str, str_eq, ltb, if◌then◌else◌,
}

pub record AuditEntry : Type 0 where
  pub seq : ℕ
  pub event : Str
  pub prev_hash : Str
  pub hash : Str

abbrev pub hex_digit : ℕ → ℕ
hex_digit n = if ltb n 10 then 48 + n else 87 + n

unfoldable pub hex : List ℕ → Str
hex [] = []
hex (b ∷ bs) = hex_digit (b / 16) ∷ hex_digit (b % 16) ∷ hex bs

-- `to_le_bytes`, for `n` bytes.
unfoldable pub to_le_bytes : ℕ → ℕ → List ℕ
to_le_bytes zero x = []
to_le_bytes (suc n) x = x % 256 ∷ to_le_bytes n (x / 256)

abbrev pub last {ℓ} : {A : Type ℓ} → List A → Option A
last [] = none
last (x ∷ []) = some x
last (x ∷ y ∷ xs) = last (y ∷ xs)

-- The number of the next entry and the hash that it is chained to.
abbrev pub next_link : Option AuditEntry → ℕ × Str
next_link none = (0, [])
next_link (some e) = ((e.seq + 1) % 2 ^ 64, e.hash)

module _ (hmac : List ℕ → List ℕ) where
  unfoldable pub chain_hash : Str → ℕ → Str → Str
  chain_hash prev seq event = hex (hmac (prev ++ (to_le_bytes 8 seq ++ event)))

  unfoldable pub append : Str → List AuditEntry → ℕ × List AuditEntry
  append event entries =
      let (seq, prev) = next_link (last entries) in
      (
        seq,
        entries
            ++ (record {
              seq = seq;
              event = event;
              prev_hash = prev;
              hash = chain_hash prev seq event;
            }
                ∷ []),
      )

  -- The loop of `verify`.
  unfoldable pub verify_from : Str → List AuditEntry → Bool
  verify_from prev [] = true
  verify_from prev (e ∷ es) =
      if not (str_eq e.prev_hash prev) || not (str_eq e.hash (chain_hash prev e.seq e.event))
      then false
      else verify_from e.hash es

  unfoldable pub verify : List AuditEntry → Bool
  verify entries = verify_from [] entries
