-- ===== src/Waf/Evasion.antt =====
-- `WafEngine::inspect`: when it blocks, and what its normal form hides from it.
use pulsate.Prelude.{
  ℕ, ◌<◌, ◌≡◌, ◌⊎◌, inl, inr, refl, ◌∙◌, ap, Bool, true, false, not, ◌&&◌, none, some, List, [],
  ◌∷◌, ◌++◌, Str, str_eq_iff, bytes, ◌==◌, leb, to_ascii_lowercase, All, In, here, there, arith,
  Bool-cases,
}
use pulsate.Waf.Acl.{Block}
use pulsate.Waf.Engine.{
  Mode, block, detect_only, Signature, signatures, decode_bytes, strip_comments, collapse, has_text,
  find_in, percent_decode, decode_passes, normalize, detect, inspect, report, max_decode_passes,
}

-- An ASCII character that percent-decoding leaves alone.
abbrev pub is_plain : ℕ → Bool
is_plain c = not (leb 128 c) && (not (c == b'%') && not (c == b'+'))

decode_bytes-plain : (s : Str) → All (λ c. is_plain c ≡ true) s → decode_bytes s ≡ s
unfolding decode_bytes
decode_bytes-plain [] p = refl
decode_bytes-plain (c ∷ []) p = ground arith
decode_bytes-plain (c ∷ d ∷ []) p = ground (arith, decode_bytes-plain (d ∷ []) p.1)
decode_bytes-plain (c ∷ h ∷ l ∷ s) p = ground (arith, decode_bytes-plain (h ∷ l ∷ s) p.1)

-- An open comment that is never closed swallows the rest.
strip_comments-open :
    (s : Str) → has_text s (bytes "*/") ≡ false → strip_comments true (to_ascii_lowercase s) ≡ []
unfolding strip_comments has_text
strip_comments-open [] h = refl
strip_comments-open (c ∷ []) h = refl
strip_comments-open (c ∷ d ∷ s) h = ground (arith, strip_comments-open (d ∷ s))

find_in-cases :
    (text : List ℕ) (gs : List Signature)
    → ((find_in text gs ≡ none) × All (λ g. has_text text g.needle ≡ false) gs)
      ⊎ ((g : Signature) × (find_in text gs ≡ some g.id)
          × In g gs
          × (has_text text g.needle ≡ true))
unfolding find_in
find_in-cases text [] = inl (refl, tt)
find_in-cases text (g ∷ gs) = elim (Bool-cases (has_text text g.needle)) [
  | inl hit ↦ inr (g, rw hit refl, here refl, hit)
  | inr miss ↦ elim (find_in-cases text gs) [
    | inl (e, all) ↦ inl (rw miss e, (miss, all))
    | inr (f, e, m, hit) ↦ inr (f, rw miss e, there m, hit)
  ]
]

module _ (lossy : List ℕ → Str) where
  -- A target is let through exactly if the engine only detects or no signature occurs in the
  -- target's normal form; otherwise it is blocked with status 403.
  pub inspect_lem :
      (mode : Mode) (target : Str)
      → ((inspect lossy mode target ≡ none)
          × ((mode ≡ detect_only)
              ⊎ All (λ g. has_text (normalize lossy target) g.needle ≡ false) signatures))
        ⊎ ((b : Block) × (g : Signature) × (inspect lossy mode target ≡ some b)
            × (b.status ≡ 403)
            × (mode ≡ block)
            × In g signatures
            × (has_text (normalize lossy target) g.needle ≡ true))
  unfolding inspect detect
  inspect_lem mode target = of_mode mode
    where
      of_mode :
          (m : Mode)
          → ((inspect lossy m target ≡ none)
              × ((m ≡ detect_only)
                  ⊎ All (λ g. has_text (normalize lossy target) g.needle ≡ false) signatures))
            ⊎ ((b : Block) × (g : Signature) × (inspect lossy m target ≡ some b)
                × (b.status ≡ 403)
                × (m ≡ block)
                × In g signatures
                × (has_text (normalize lossy target) g.needle ≡ true))
      of_mode detect_only = elim (find_in-cases (normalize lossy target) signatures) [
        | inl (e, all) ↦ inl (rw (inspect, detect, e) refl, inl refl)
        | inr (g, e, member, hit) ↦ inl (rw (inspect, detect, e) refl, inl refl)
      ]
      of_mode block = elim (find_in-cases (normalize lossy target) signatures) [
        | inl (e, all) ↦ inl (rw (inspect, detect, e) refl, inr all)
        | inr (g, e, member, hit) ↦
            inr (report g.id, g, rw (inspect, detect, e) refl, refl, refl, member, hit)
      ]

  module _ (utf8 : (s : List ℕ) → All (λ c. c < 128) s → lossy s ≡ s) where
    percent_decode-plain : (s : Str) → All (λ c. is_plain c ≡ true) s → percent_decode lossy s ≡ s
    percent_decode-plain s p = ap lossy (decode_bytes-plain s p) ∙ utf8 s (ascii s p)
      where
        ascii : (t : Str) → All (λ c. is_plain c ≡ true) t → All (λ c. c < 128) t
        ascii [] p = tt
        ascii (c ∷ t) p = (ground arith, ascii t p.1)

    -- A target that opens a comment with its first two bytes and never closes it is not looked at
    -- any further: no signature is found in it, whatever follows. It is supposed that the rest is
    -- ASCII text without percent and plus signs, which lossy decoding leaves as it is.
    pub open_comment_hides :
        (rest : Str)
        → All (λ c. is_plain c ≡ true) rest
        → has_text rest (bytes "*/") ≡ false
        → detect lossy (bytes "/*" ++ rest) ≡ none
    unfolding detect normalize decode_passes strip_comments collapse find_in has_text
    open_comment_hides rest p h =
        let whole : percent_decode lossy (bytes "/*" ++ rest) ≡ bytes "/*" ++ rest =
          percent_decode-plain (bytes "/*" ++ rest) (refl, (refl, p)) in
        let stops : decode_passes lossy max_decode_passes (bytes "/*" ++ rest)
            ≡ bytes "/*" ++ rest =
          ground (arith, whole, str_eq_iff (bytes "/*" ++ rest) (bytes "/*" ++ rest)) in
        let hidden = strip_comments-open rest h in rw (stops, hidden) refl
