-- ===== src/Prelude/Text.antt =====
-- The operations of Rust's `str` that the program calls, over bytes. White space is that of Unicode,
-- letter case the ASCII one.
use Prim.Native.Nat.{ℕ, ◌+◌, ◌-◌, ◌*◌}
use mathlib.Core.Bool.{Bool, true, false, ◌&&◌, ◌||◌}
use mathlib.Core.List.{List, [], ◌∷◌, map, reverse}
use mathlib.Core.Option.{Option, none, some}
use pulsate.Prelude.Tests.{ltb, leb, ◌==◌, if◌then◌else◌}
use pulsate.Prelude.Equality.{Str, str_eq}

-- The white space of one byte.
abbrev pub is_space : ℕ → Bool
is_space c = c == 32 || (leb 9 c && leb c 13)

-- The white space of two bytes in UTF-8: U+0085 and U+00A0.
is_space2 : ℕ → ℕ → Bool
is_space2 c d = c == 194 && (d == 133 || d == 160)

-- The white space of three bytes: U+1680, U+2000 to U+200A, U+2028, U+2029, U+202F, U+205F and U+3000.
is_space3 : ℕ → ℕ → ℕ → Bool
is_space3 c d e =
    (c == 225 && (d == 154 && e == 128))
    || ((c == 226
          && ((d == 128 && ((leb 128 e && leb e 138) || (e == 168 || (e == 169 || e == 175))))
              || (d == 129 && e == 159)))
        || (c == 227 && (d == 128 && e == 128)))

pub trim_start : Str → Str
unfolding is_space2 is_space3
trim_start [] = []
trim_start (c ∷ []) = if is_space c then [] else c ∷ []
trim_start (c ∷ d ∷ []) =
    let next = trim_start (d ∷ []) in
    if is_space c then next else if is_space2 c d then [] else c ∷ d ∷ []
trim_start (c ∷ d ∷ e ∷ s) =
    let next = trim_start (d ∷ e ∷ s) in
    let behind2 = trim_start (e ∷ s) in
    let behind3 = trim_start s in
    if is_space c
    then next
    else if is_space2 c d
    then behind2
    else if is_space3 c d e
    then behind3
    else c ∷ d ∷ e ∷ s

-- White space at the start of a text whose bytes stand in reverse.
pub trim_reversed : Str → Str
unfolding is_space2 is_space3
trim_reversed [] = []
trim_reversed (c ∷ []) = if is_space c then [] else c ∷ []
trim_reversed (c ∷ d ∷ []) =
    let next = trim_reversed (d ∷ []) in
    if is_space c then next else if is_space2 d c then [] else c ∷ d ∷ []
trim_reversed (c ∷ d ∷ e ∷ s) =
    let next = trim_reversed (d ∷ e ∷ s) in
    let behind2 = trim_reversed (e ∷ s) in
    let behind3 = trim_reversed s in
    if is_space c
    then next
    else if is_space2 d c
    then behind2
    else if is_space3 e d c
    then behind3
    else c ∷ d ∷ e ∷ s

-- `str::trim`, on the bytes of valid UTF-8.
unfoldable pub trim : Str → Str
unfolding trim_start trim_reversed
trim s = reverse (trim_reversed (reverse (trim_start s)))

abbrev pub lower : ℕ → ℕ
lower c = if leb 65 c && leb c 90 then c + 32 else c

abbrev pub to_ascii_lowercase : Str → Str
to_ascii_lowercase s = map lower s

abbrev pub eq_ignore_ascii_case : Str → Str → Bool
eq_ignore_ascii_case s t = str_eq (to_ascii_lowercase s) (to_ascii_lowercase t)

abbrev push_head : ℕ → List Str → List Str
push_head c [] = (c ∷ []) ∷ []
push_head c (s ∷ ss) = (c ∷ s) ∷ ss

-- `s.split(sep)`: one part more than there are separators.
unfoldable pub split : ℕ → Str → List Str
split sep [] = [] ∷ []
split sep (c ∷ s) = if c == sep then [] ∷ split sep s else push_head c (split sep s)

abbrev push_left : ℕ → Option (Str × Str) → Option (Str × Str)
push_left c none = none
push_left c (some (a, b)) = some (c ∷ a, b)

-- `s.split_once(sep)`: around the first separator, if there is one.
unfoldable pub split_once : ℕ → Str → Option (Str × Str)
split_once sep [] = none
split_once sep (c ∷ s) = if c == sep then some ([], s) else push_left c (split_once sep s)

abbrev pub starts_with : Str → Str → Bool
starts_with s [] = true
starts_with [] (p ∷ ps) = false
starts_with (c ∷ s) (p ∷ ps) = c == p && starts_with s ps

abbrev pub strip_prefix : Str → Str → Option Str
strip_prefix s [] = some s
strip_prefix [] (p ∷ ps) = none
strip_prefix (c ∷ s) (p ∷ ps) = if c == p then strip_prefix s ps else none

-- `s.ends_with(t)`: `t` is `s` or a tail of it.
abbrev pub ends_with : Str → Str → Bool
ends_with [] t = str_eq [] t
ends_with (c ∷ s) t = str_eq (c ∷ s) t || ends_with s t

-- `s.strip_suffix(c)` at one character.
unfoldable pub strip_last : ℕ → Str → Option Str
strip_last c [] = none
strip_last c (x ∷ []) = if x == c then some [] else none
strip_last c (x ∷ y ∷ s) = elim (strip_last c (y ∷ s)) [ none ↦ none | some r ↦ some (x ∷ r) ]

abbrev pub is_digit : ℕ → Bool
is_digit c = leb 48 c && leb c 57

-- The digit loop of `u64::from_str`: `none` on a byte that is no digit and on overflow.
unfoldable pub parse_digits : ℕ → ℕ → Str → Option ℕ
parse_digits bound acc [] = some acc
parse_digits bound acc (c ∷ s) =
    let next = acc * 10 + (c - 48) in
    let rest = parse_digits bound next s in if is_digit c && ltb next bound then rest else none

-- `s.parse::<uN>()` for the type with `bound` values: one `+` may stand in front.
unfoldable pub parse_uint : ℕ → Str → Option ℕ
unfolding parse_digits
parse_uint bound [] = none
parse_uint bound (c ∷ []) = parse_digits bound 0 (c ∷ [])
parse_uint bound (c ∷ d ∷ s) =
    if c == b'+' then parse_digits bound 0 (d ∷ s) else parse_digits bound 0 (c ∷ d ∷ s)
