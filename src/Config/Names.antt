-- ===== src/Config/Names.antt =====
-- crates/pulsate-config/src/compile.rs: the name that is nearest to an unknown one, and the digest of
-- a configuration.
use pulsate.Prelude.{
  ℕ, zero, suc, ◌+◌, ◌*◌, ◌/◌, ◌%◌, ◌^◌, min, Bool, false, Option, none, some, List, [], ◌∷◌, Str,
  str_eq, leb, ltb, if◌then◌else◌,
}
use pulsate.Config.Model.{Named}

abbrev is_inner : ℕ → Bool
is_inner c = if leb 128 c then ltb c 192 else false

abbrev push_byte : ℕ → List Str → List Str
push_byte c [] = (c ∷ []) ∷ []
push_byte c ([] ∷ more) = (c ∷ []) ∷ more
push_byte c ((d ∷ s) ∷ more) = if is_inner d then (c ∷ d ∷ s) ∷ more else (c ∷ []) ∷ (d ∷ s) ∷ more

-- `chars`: a character is its bytes.
unfoldable pub chars : Str → List Str
chars [] = []
chars (c ∷ s) = push_byte c (chars s)

-- The loop over `b`: what is left of the row above behind its entry `p`, and of the characters of `b`.
unfoldable pub row_behind : Str → ℕ → ℕ → List ℕ → List Str → List ℕ
row_behind a left p [] bs = []
row_behind a left p (q ∷ qs) [] = []
row_behind a left p (q ∷ qs) (b ∷ bs) =
    let here = min (min (q + 1) (left + 1)) (p + (if str_eq a b then 0 else 1)) in
    here ∷ row_behind a here q qs bs

-- The loop over `a`, from its `i`-th character on.
unfoldable pub rows_from : ℕ → List Str → List ℕ → List Str → List ℕ
rows_from i [] row bs = row
rows_from i (a ∷ more) [] bs = []
rows_from i (a ∷ more) (p ∷ ps) bs =
    rows_from (suc i) more (suc i ∷ row_behind a (suc i) p ps bs) bs

-- `i..=i + length bs`
abbrev pub count_from : ℕ → List Str → List ℕ
count_from i [] = i ∷ []
count_from i (b ∷ bs) = i ∷ count_from (suc i) bs

abbrev last_of : List ℕ → ℕ
last_of [] = 0
last_of (n ∷ []) = n
last_of (n ∷ m ∷ ns) = last_of (m ∷ ns)

unfoldable pub levenshtein : Str → Str → ℕ
levenshtein a b = last_of (rows_from 0 (chars a) (count_from 0 (chars b)) (chars b))

abbrev closer : ℕ × Str → Option (ℕ × Str) → Option (ℕ × Str)
closer p none = some p
closer (d, n) (some (e, m)) = if leb d e then some (d, n) else some (e, m)

-- The first of the nearest names, among those at a distance of two at most.
unfoldable pub nearest_pair : Str → List Named → Option (ℕ × Str)
nearest_pair name [] = none
nearest_pair name (n ∷ ns) =
    let rest = nearest_pair name ns in
    if leb (levenshtein name n.name) 2 then closer (levenshtein name n.name, n.name) rest else rest

abbrev pub nearest : Str → List Named → Option Str
nearest name ns = elim (nearest_pair name ns) [ none ↦ none | some (d, n) ↦ some n ]

-- The exclusive or of the lowest bits.
abbrev pub xor : ℕ → ℕ → ℕ → ℕ
xor zero a b = 0
xor (suc bits) a b = (a % 2 + b % 2) % 2 + 2 * xor bits (a / 2) (b / 2)

unfoldable pub fnv_from : ℕ → Str → ℕ
fnv_from hash [] = hash
fnv_from hash (c ∷ s) = fnv_from (xor 64 hash c * 1_099_511_628_211 % 2 ^ 64) s

unfoldable pub fnv1a : Str → ℕ
fnv1a s = fnv_from 14_695_981_039_346_656_037 s
