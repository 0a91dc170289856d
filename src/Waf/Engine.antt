-- ===== src/Waf/Engine.antt =====
-- crates/pulsate-waf/src/lib.rs: `WafEngine` and `normalize`. A target is its bytes. The text behind
-- `strip_block_comments` is the list of its characters, since that function makes each byte one.
-- `lossy` is `String::from_utf8_lossy`.
use pulsate.Prelude.{
  ℕ, zero, suc, ◌+◌, ◌-◌, ◌*◌, Bool, true, false, ◌||◌, ◌&&◌, Option, none, some, List, [], ◌∷◌,
  ◌++◌, Str, str_eq, bytes, ◌==◌, leb, if◌then◌else◌, to_ascii_lowercase, starts_with,
}
use pulsate.Core.{waf_rule}
use pulsate.Waf.Acl.{Block, new_block}

pub data Mode : Type 0 where
  block detect_only : Mode

pub record Signature : Type 0 where
  pub id : Str
  pub needle : Str

abbrev pub max_decode_passes : ℕ
max_decode_passes = 8

abbrev pub signatures : List Signature
signatures =
    record { id = bytes "sqli-union"; needle = bytes "union select" }
    ∷ record { id = bytes "sqli-or"; needle = bytes "' or '1'='1" }
    ∷ record { id = bytes "sqli-comment"; needle = bytes "-- " }
    ∷ record { id = bytes "sqli-drop"; needle = bytes "; drop table" }
    ∷ record { id = bytes "xss-script"; needle = bytes "<script" }
    ∷ record { id = bytes "xss-js"; needle = bytes "javascript:" }
    ∷ record { id = bytes "xss-onerror"; needle = bytes "onerror=" }
    ∷ record { id = bytes "traversal"; needle = bytes "../" }
    ∷ record { id = bytes "traversal-enc"; needle = bytes "..%2f" }
    ∷ record { id = bytes "rce-etc-passwd"; needle = bytes "/etc/passwd" }
    ∷ []

-- `char::to_digit(16)`
abbrev pub to_digit : ℕ → Option ℕ
to_digit c =
    if leb 48 c && leb c 57
    then some (c - 48)
    else if leb 97 c && leb c 102
    then some (c - 87)
    else if leb 65 c && leb c 70
    then some (c - 55)
    else none

abbrev pub plus_to_space : ℕ → ℕ
plus_to_space c = if c == b'+' then b' ' else c

abbrev pub digit_pair : Option ℕ → Option ℕ → Option ℕ
digit_pair none l = none
digit_pair (some h) none = none
digit_pair (some h) (some l) = some (h * 16 + l)

-- The loop of `percent_decode`: the bytes that it puts out.
unfoldable pub decode_bytes : Str → List ℕ
decode_bytes [] = []
decode_bytes (c ∷ []) = plus_to_space c ∷ []
decode_bytes (c ∷ d ∷ []) = plus_to_space c ∷ decode_bytes (d ∷ [])
decode_bytes (c ∷ h ∷ l ∷ s) =
    let kept = plus_to_space c ∷ decode_bytes (h ∷ l ∷ s) in
    let behind = decode_bytes s in
    if c == b'%'
    then elim (digit_pair (to_digit h) (to_digit l)) [ none ↦ kept | some b ↦ b ∷ behind ]
    else kept

-- `strip_block_comments`; the flag says whether a comment is open.
unfoldable pub strip_comments : Bool → Str → List ℕ
strip_comments false [] = []
strip_comments false (c ∷ []) = c ∷ []
strip_comments false (c ∷ d ∷ s) =
    let opened = b' ' ∷ strip_comments true s in
    let kept = c ∷ strip_comments false (d ∷ s) in if c == b'/' && d == b'*' then opened else kept
strip_comments true [] = []
strip_comments true (c ∷ []) = []
strip_comments true (c ∷ d ∷ s) =
    let closed = strip_comments false s in
    let open_still = strip_comments true (d ∷ s) in
    if c == b'*' && d == b'/' then closed else open_still

-- `char::is_whitespace`
abbrev pub is_whitespace : ℕ → Bool
is_whitespace c =
    ((leb 9 c && leb c 13) || (c == 32 || (c == 133 || c == 160)))
    || ((c == 5_760 || (leb 8_192 c && leb c 8_202))
        || ((c == 8_232 || c == 8_233) || (c == 8_239 || (c == 8_287 || c == 12_288))))

-- `collapse_whitespace`; the flag is `in_ws`.
unfoldable pub collapse : Bool → List ℕ → List ℕ
collapse in_ws [] = []
collapse in_ws (c ∷ s) =
    let spaced = collapse true s in
    let kept = c ∷ collapse false s in
    if is_whitespace c then (if in_ws then spaced else b' ' ∷ spaced) else kept

-- `str::contains`
unfoldable pub has_text : List ℕ → List ℕ → Bool
has_text [] needle = starts_with [] needle
has_text (c ∷ s) needle = starts_with (c ∷ s) needle || has_text s needle

-- `find` over the signatures.
unfoldable pub find_in : List ℕ → List Signature → Option Str
find_in text [] = none
find_in text (g ∷ gs) = if has_text text g.needle then some g.id else find_in text gs

abbrev pub report : Str → Block
report id = new_block waf_rule (bytes "matched signature " ++ id)

abbrev pub blocks : Mode → Str → Option Block
blocks block id = some (report id)
blocks detect_only id = none

module _ (lossy : List ℕ → Str) where
  abbrev pub percent_decode : Str → Str
  percent_decode s = lossy (decode_bytes s)

  -- The decoding loop of `normalize`.
  unfoldable pub decode_passes : ℕ → Str → Str
  decode_passes zero current = current
  decode_passes (suc n) current =
      let rest = decode_passes n (percent_decode current) in
      if str_eq (percent_decode current) current then current else rest

  unfoldable pub normalize : Str → List ℕ
  normalize input =
      collapse false
        (strip_comments false (to_ascii_lowercase (decode_passes max_decode_passes input)))

  unfoldable pub detect : Str → Option Str
  detect target = find_in (normalize target) signatures

  unfoldable pub inspect : Mode → Str → Option Block
  inspect mode target = elim (detect target) [ none ↦ none | some id ↦ blocks mode id ]
