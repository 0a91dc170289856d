-- ===== src/Waf/RateLimiter.antt =====
-- crates/pulsate-waf/src/lib.rs: `RateLimiter`. Times and the window are nanoseconds of one monotonic
-- clock; `duration_since` stops at 0, as subtraction on ℕ does. The branch for a poisoned lock is
-- left out: no code that holds it panics.
use pulsate.Prelude.{
  ℕ, ◌+◌, ◌-◌, ◌/◌, ◌%◌, ◌^◌, ◌<◌, ◌≡◌, inl, inr, refl, ◌∙◌, ap, min, Bool, true, false, not, ◌||◌,
  ◌&&◌, Option, none, some, List, [], ◌∷◌, Str, str_eq, str_eq_iff, string_eq, Map, get, insert,
  get-insert, ltb, leb, if◌then◌else◌, All, arith, Bool-cases,
}

pub record RateOutcome : Type 0 where
  pub allowed : Bool
  pub limit : ℕ
  pub remaining : ℕ
  pub reset_secs : ℕ

-- The limiter's settings.
pub record RateLimit : Type 0 where
  pub limit : ℕ
  pub window : ℕ

-- For each key the start of its window and the requests counted in it.
abbrev pub Buckets : Type 0
Buckets = Map Str (ℕ × ℕ)

-- The entry of a key as the check finds it: a new one, or one whose window has elapsed, starts now.
abbrev pub current : RateLimit → Option (ℕ × ℕ) → ℕ → ℕ × ℕ
current rl none now = (now, 0)
current rl (some (start, n)) now = if leb rl.window (now - start) then (now, 0) else (start, n)

unfoldable pub check : RateLimit → Str → ℕ → Buckets → RateOutcome × Buckets
check rl key now buckets =
    let (start, n) = current rl (get key buckets) now in
    let used = (n + 1) % 2 ^ 64 in
    (
      record {
        allowed = leb used rl.limit;
        limit = rl.limit;
        remaining = rl.limit - used;
        reset_secs = (rl.window - (now - start)) / 1_000_000_000;
      },
      insert key (start, used) buckets,
    )

-- Checks, each of a key at a time, and the buckets behind them.
unfoldable pub check_all : RateLimit → List (Str × ℕ) → Buckets → Buckets
check_all rl [] buckets = buckets
check_all rl ((key, now) ∷ cs) buckets = check_all rl cs (check rl key now buckets).1

abbrev pub one_if : Bool → ℕ
one_if true = 1
one_if false = 0

-- How many of the checks are of the key.
abbrev pub asked : Str → List (Str × ℕ) → ℕ
asked k [] = 0
asked k ((key, now) ∷ cs) = one_if (str_eq key k) + asked k cs

-- How many of the checks of the key are allowed.
unfoldable pub granted : RateLimit → Str → List (Str × ℕ) → Buckets → ℕ
granted rl k [] buckets = 0
granted rl k ((key, now) ∷ cs) buckets =
    let (outcome, later) = check rl key now buckets in
    one_if (str_eq key k && outcome.allowed) + granted rl k cs later

-- A check of the key comes less than a window after `t`.
abbrev pub within : RateLimit → Str → ℕ → Str × ℕ → Bool
within rl k t (key, now) = not (str_eq key k) || ltb (now - t) rl.window

get-check_self :
    (rl : RateLimit) (key : Str) (now : ℕ) (b : Buckets)
    → get key (check rl key now b).1
      ≡ some ((current rl (get key b) now).0, ((current rl (get key b) now).1 + 1) % 2 ^ 64)
unfolding check
get-check_self rl key now b = ground (
  arith,
  get-insert key key ((current rl (get key b) now).0, ((current rl (get key b) now).1 + 1) % 2 ^ 64)
      b,
  str_eq_iff key key,
)

get-check_other :
    (rl : RateLimit) (key k : Str) (now : ℕ) (b : Buckets)
    → str_eq key k ≡ false
    → get k (check rl key now b).1 ≡ get k b
unfolding check
get-check_other rl key k now b h = ground (
  arith,
  get-insert key k ((current rl (get key b) now).0, ((current rl (get key b) now).1 + 1) % 2 ^ 64)
      b,
)

current-counted :
    (rl : RateLimit) (t n now : ℕ) (o : Option (ℕ × ℕ))
    → o ≡ some (t, n)
    → now - t < rl.window
    → current rl o now ≡ (t, n)
current-counted rl t n now o e small = rw e (ground arith)

-- A check within the window of its key counts, and is allowed as far as the limit goes.
check_counted :
    (rl : RateLimit) (key : Str) (t n now : ℕ) (b : Buckets)
    → current rl (get key b) now ≡ (t, n)
    → n + 1 < 2 ^ 64
    → (get key (check rl key now b).1 ≡ some (t, n + 1))
      × ((check rl key now b).0.allowed ≡ leb (n + 1) rl.limit)
unfolding check
check_counted rl key t n now b e small =
    let no_wrap : (n + 1) % 2 ^ 64 ≡ n + 1 = omega arith in
    (
      get-check_self rl key now b
          ∙ ap (λ p. some (p.0, (p.1 + 1) % 2 ^ 64)) e
          ∙ ap (λ m. some (t, m)) no_wrap,
      ap (λ p. leb ((p.1 + 1) % 2 ^ 64) rl.limit) e ∙ ap (λ m. leb m rl.limit) no_wrap,
    )

-- Within a window the key's further checks are allowed as far as the limit goes.
granted-within :
    (rl : RateLimit) (k : Str) (t n : ℕ) (cs : List (Str × ℕ)) (b : Buckets)
    → get k b ≡ some (t, n)
    → All (λ c. within rl k t c ≡ true) cs
    → n + asked k cs < 2 ^ 64
    → granted rl k cs b + min rl.limit n ≡ min rl.limit (n + asked k cs)
unfolding granted
granted-within rl k t n [] b e w small = omega arith
granted-within rl k t n ((key, now) ∷ cs) b e w small = elim (Bool-cases (str_eq key k)) [
  | inr other ↦
      let ih =
        granted-within rl k t n cs (check rl key now b).1 (get-check_other rl key k now b other ∙ e)
          w.1 (ground arith) in
      ground (arith, ih)
  | inl same ↦
      let key_is_k : key ≡ k = (str_eq_iff key k).0 same in
      let open_window : current rl (get key b) now ≡ (t, n) =
        current-counted rl t n now (get key b) (rw key_is_k e) (ground arith) in
      let (stored, allowed) = check_counted rl key t n now b open_window (ground arith) in
      let ih =
        granted-within rl k t (n + 1) cs (check rl key now b).1 (rw (← key_is_k) stored) w.1
          (ground arith) in
      ground (arith, ih, allowed)
]

-- The window of the key is not open at `now`.
abbrev pub is_closed : RateLimit → ℕ → Option (ℕ × ℕ) → Bool
is_closed rl now none = true
is_closed rl now (some (start, n)) = leb rl.window (now - start)

current-closed :
    (rl : RateLimit) (now : ℕ) (o : Option (ℕ × ℕ))
    → is_closed rl now o ≡ true
    → current rl o now ≡ (now, 0)
current-closed rl now none h = refl
current-closed rl now (some (start, n)) h = ground arith

-- A check that opens a window of its key at `t`, and the checks after it, those of the key less than
-- a window later and those of other keys at any time: of the key's as many are allowed as there are,
-- up to the limit, whatever the other keys do. It is supposed that there are less than 2^64.
pub granted_lem :
    (rl : RateLimit) (k : Str) (t : ℕ) (cs : List (Str × ℕ)) (b : Buckets)
    → is_closed rl t (get k b) ≡ true
    → All (λ c. within rl k t c ≡ true) cs
    → 1 + asked k cs < 2 ^ 64
    → granted rl k ((k, t) ∷ cs) b ≡ min rl.limit (asked k ((k, t) ∷ cs))
unfolding granted
granted_lem rl k t cs b closed w small =
    let (stored, allowed) =
      check_counted rl k t 0 t b (current-closed rl t (get k b) closed) (omega arith) in
    let rest = granted-within rl k t 1 cs (check rl k t b).1 stored w small in
    let same : str_eq k k ≡ true = (str_eq_iff k k).1 refl in ground (arith, rest, allowed, same)
