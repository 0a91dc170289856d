-- ===== src/Waf/Tampering.antt =====
-- What `AuditLog::verify` notices, and what it does not.
use pulsate.Prelude.{
  append_assoc, ℕ, zero, suc, ◌+◌, ◌*◌, ◌/◌, ◌%◌, ◌≤◌, ◌<◌, ◌≡◌, ◌≢◌, ◌⊎◌, inl, inr, refl, sym, ◌∙◌,
  ap, true, false, ◌&&◌, List, [], ◌∷◌, ◌++◌, length, Str, str_eq_iff, All, arith, Bool-cases,
}
use pulsate.Waf.Audit.{AuditEntry, hex_digit, hex, to_le_bytes, chain_hash, verify_from, verify}

-- The hash that the entry behind a list is chained to.
abbrev pub link_after : Str → List AuditEntry → Str
link_after prev [] = prev
link_after prev (e ∷ es) = link_after e.hash es

-- A first entry that stands for `e` and all that came before it: the bytes of the previous hash are
-- read as the number and the beginning of the event.
abbrev pub number_of : ℕ → List ℕ → ℕ
number_of zero s = 0
number_of (suc n) [] = 0
number_of (suc n) (c ∷ s) = c + 256 * number_of n s

abbrev pub bytes_after : ℕ → List ℕ → List ℕ
bytes_after zero s = s
bytes_after (suc n) [] = []
bytes_after (suc n) (c ∷ s) = bytes_after n s

abbrev pub forge : AuditEntry → AuditEntry
forge e = record {
  seq = number_of 8 e.prev_hash;
  event = bytes_after 8 e.prev_hash ++ (to_le_bytes 8 e.seq ++ e.event);
  prev_hash = [];
  hash = e.hash;
}

append_cancel : (xs ys zs : List ℕ) → xs ++ ys ≡ xs ++ zs → ys ≡ zs
append_cancel [] ys zs h = h
append_cancel (x ∷ xs) ys zs h = append_cancel xs ys zs (ap tail h)
  where
    tail : List ℕ → List ℕ
    tail [] = []
    tail (c ∷ s) = s

to_le_bytes-number_of :
    (n : ℕ) (s : List ℕ)
    → All (λ c. c < 256) s
    → n ≤ length s
    → to_le_bytes n (number_of n s) ++ bytes_after n s ≡ s
unfolding to_le_bytes
to_le_bytes-number_of zero s b h = refl
to_le_bytes-number_of (suc n) [] b h = absurd (omega arith)
to_le_bytes-number_of (suc n) (c ∷ s) b h =
    let low : (c + 256 * number_of n s) % 256 ≡ c = omega (arith, b.0) in
    let high : (c + 256 * number_of n s) / 256 ≡ number_of n s = omega (arith, b.0) in
    rw (low, high) (ap (◌∷◌ c) (to_le_bytes-number_of n s b.1 (omega arith)))

hex_digit-injective : (a b : ℕ) → a < 16 → b < 16 → hex_digit a ≡ hex_digit b → a ≡ b
hex_digit-injective a b ha hb h = ground arith

hex-injective :
    (xs ys : List ℕ) → All (λ c. c < 256) xs → All (λ c. c < 256) ys → hex xs ≡ hex ys → xs ≡ ys
unfolding hex
hex-injective [] [] bx by h = refl
hex-injective [] (y ∷ ys) bx by h = cc
hex-injective (x ∷ xs) [] bx by h = cc
hex-injective (x ∷ xs) (y ∷ ys) bx by h =
    let top : hex_digit (x / 16) ≡ hex_digit (y / 16) = ground arith in
    let low : hex_digit (x % 16) ≡ hex_digit (y % 16) = ground arith in
    let rest : hex xs ≡ hex ys = ground arith in
    let same_top =
      hex_digit-injective (x / 16) (y / 16) (omega (arith, bx.0)) (omega (arith, by.0)) top in
    let same_low = hex_digit-injective (x % 16) (y % 16) (omega arith) (omega arith) low in
    let same : x ≡ y = omega (arith, same_top, same_low) in
    rw same (ap (◌∷◌ y) (hex-injective xs ys bx.1 by.1 rest))

module _ (hmac : List ℕ → List ℕ) where
  -- Two messages with one digest.
  abbrev pub Collision : Type 0
  Collision = (x y : List ℕ) × (x ≢ y) × (hmac x ≡ hmac y)

  -- The entry carries the hash that its place in the chain asks for.
  abbrev pub Linked : Str → AuditEntry → Type 0
  Linked prev e = (e.prev_hash ≡ prev) × (e.hash ≡ chain_hash hmac prev e.seq e.event)

  verify_from-cons :
      (prev : Str) (e : AuditEntry) (es : List AuditEntry)
      → verify_from hmac prev (e ∷ es) ≡ true
      → Linked prev e × (verify_from hmac e.hash es ≡ true)
  unfolding verify_from
  verify_from-cons prev e es h = (
    (
      ground (arith, str_eq_iff e.prev_hash prev),
      ground (arith, str_eq_iff e.hash (chain_hash hmac prev e.seq e.event)),
    ),
    ground arith,
  )

  pub cons-verify_from :
      (prev : Str) (e : AuditEntry) (es : List AuditEntry)
      → Linked prev e
      → verify_from hmac prev (e ∷ es) ≡ verify_from hmac e.hash es
  unfolding verify_from
  cons-verify_from prev e es (p, h) =
      ground
        (arith, str_eq_iff e.prev_hash prev, str_eq_iff e.hash (chain_hash hmac prev e.seq e.event))

  pub verify_from-append :
      (prev : Str) (es fs : List AuditEntry)
      → verify_from hmac prev (es ++ fs)
        ≡ (verify_from hmac prev es && verify_from hmac (link_after prev es) fs)
  unfolding verify_from
  verify_from-append prev [] fs = refl
  verify_from-append prev (e ∷ es) fs = ground (arith, verify_from-append e.hash es fs)

  digests_differ :
      (prev : Str) (seq : ℕ) (event text : Str)
      → ((m : List ℕ) → All (λ c. c < 256) (hmac m))
      → event ≢ text
      → chain_hash hmac prev seq event ≡ chain_hash hmac prev seq text
      → Collision
  unfolding chain_hash
  digests_differ prev seq event text b other same = (
    prev ++ (to_le_bytes 8 seq ++ event),
    prev ++ (to_le_bytes 8 seq ++ text),
    λ h. other (append_cancel (to_le_bytes 8 seq) event text (append_cancel prev _ _ h)),
    hex-injective _ _ (b _) (b _) same,
  )

  -- If the text of an entry of a log that `verify` accepts is changed, `verify` refuses the log, or
  -- two messages with one digest have been found. A digest is a list of bytes.
  pub edit_detected :
      (before behind : List AuditEntry) (e : AuditEntry) (text : Str)
      → ((m : List ℕ) → All (λ c. c < 256) (hmac m))
      → verify hmac (before ++ (e ∷ behind)) ≡ true
      → e.event ≢ text
      → (verify hmac (before ++ (record e { event = text } ∷ behind)) ≡ false) ⊎ Collision
  unfolding verify
  edit_detected before behind e text b ok other =
      elim (Bool-cases (verify_from hmac [] (before ++ (record e { event = text } ∷ behind)))) [
        | inr refused ↦ inl refused
        | inl accepted ↦
            let ((_, was), _) = verify_from-cons link e behind (tail_of e ok) in
            let ((_, is), _) =
              verify_from-cons link (record e { event = text }) behind
                (tail_of (record e { event = text }) accepted) in
            inr (digests_differ link e.seq e.event text b other (sym was ∙ is))
      ]
    where
      link : Str
      link = link_after [] before

      tail_of :
          (f : AuditEntry)
          → verify_from hmac [] (before ++ (f ∷ behind)) ≡ true
          → verify_from hmac link (f ∷ behind) ≡ true
      tail_of f h = ground (arith, verify_from-append [] before (f ∷ behind))

  -- What `verify` does not notice: the newest entries are cut off, or an entry and all that stands
  -- before it are replaced by one first entry of the same hash, whose number and text are read off
  -- the old entry and need no key. The entry's previous hash is supposed to have 8 bytes or more.
  pub forgery_accepted :
      (before behind : List AuditEntry) (e : AuditEntry)
      → All (λ c. c < 256) e.prev_hash
      → 8 ≤ length e.prev_hash
      → verify hmac (before ++ (e ∷ behind)) ≡ true
      → (verify hmac before ≡ true) × (verify hmac (forge e ∷ behind) ≡ true)
  unfolding verify chain_hash
  forgery_accepted before behind e b long ok = (
    ground (arith, verify_from-append [] before (e ∷ behind)),
    cons-verify_from [] (forge e) behind (refl, is_linked)
        ∙ (verify_from-cons (link_after [] before) e behind from_here).1,
  )
    where
      from_here : verify_from hmac (link_after [] before) (e ∷ behind) ≡ true
      from_here = ground (arith, verify_from-append [] before (e ∷ behind))

      own : Linked (link_after [] before) e
      own = (verify_from-cons (link_after [] before) e behind from_here).0

      message :
          e.prev_hash ++ (to_le_bytes 8 e.seq ++ e.event)
          ≡ to_le_bytes 8 (forge e).seq ++ (forge e).event
      message =
          ap (λ p. p ++ (to_le_bytes 8 e.seq ++ e.event))
            (sym (to_le_bytes-number_of 8 e.prev_hash b long))
          ∙ append_assoc (to_le_bytes 8 (forge e).seq) (bytes_after 8 e.prev_hash)
              (to_le_bytes 8 e.seq ++ e.event)

      is_linked : e.hash ≡ chain_hash hmac [] (forge e).seq (forge e).event
      is_linked =
          own.1
          ∙ ap (λ p. hex (hmac (p ++ (to_le_bytes 8 e.seq ++ e.event)))) (sym own.0)
          ∙ ap (λ m. hex (hmac m)) message
