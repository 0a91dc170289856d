-- ===== src/Waf/Chain.antt =====
-- A log that `AuditLog::append` has written.
use pulsate.Prelude.{
  append_assoc, append-nil, ℕ, ◌+◌, ◌%◌, ◌^◌, ◌≤◌, ◌≡◌, refl, sym, ◌∙◌, ap, true, some, List, [],
  ◌∷◌, ◌++◌, map, length, Str, arith,
}
use pulsate.Waf.Audit.{AuditEntry, last, next_link, chain_hash, append, verify_from, verify}
use pulsate.Waf.Tampering.{link_after, Linked, verify_from-append, cons-verify_from}

abbrev text_of : AuditEntry → Str
text_of e = e.event

abbrev number_at : AuditEntry → ℕ
number_at e = e.seq

-- `n`, `n + 1` and so on, one for each event.
abbrev pub numbers_from : ℕ → List Str → List ℕ
numbers_from n [] = []
numbers_from n (t ∷ ts) = n ∷ numbers_from (n + 1) ts

last-append : (es : List AuditEntry) (e : AuditEntry) → last (es ++ (e ∷ [])) ≡ some e
last-append [] e = refl
last-append (f ∷ []) e = refl
last-append (f ∷ g ∷ es) e = last-append (g ∷ es) e

link_after-last : (es : List AuditEntry) → link_after [] es ≡ (next_link (last es)).1
link_after-last [] = refl
link_after-last (e ∷ es) = from e es
  where
    from :
        (f : AuditEntry) (fs : List AuditEntry)
        → link_after f.hash fs ≡ (next_link (last (f ∷ fs))).1
    from f [] = refl
    from f (g ∷ gs) = from g gs

map-append {ℓ} :
    {B : Type ℓ} (f : AuditEntry → B) (es fs : List AuditEntry)
    → map f (es ++ fs) ≡ map f es ++ map f fs
map-append f [] fs = refl
map-append f (e ∷ es) fs = ap (◌∷◌ (f e)) (map-append f es fs)

module _ (hmac : List ℕ → List ℕ) where
  unfoldable pub append_all : List Str → List AuditEntry → List AuditEntry
  append_all [] es = es
  append_all (t ∷ ts) es = append_all ts (append hmac t es).1

  -- The entry that `append` adds.
  abbrev added : Str → List AuditEntry → AuditEntry
  added t es =
      let (seq, prev) = next_link (last es) in
      record { seq = seq; event = t; prev_hash = prev; hash = chain_hash hmac prev seq t }

  append_lem : (t : Str) (es : List AuditEntry) → (append hmac t es).1 ≡ es ++ (added t es ∷ [])
  unfolding append
  append_lem t es = refl

  verify-append :
      (t : Str) (es : List AuditEntry)
      → verify hmac es ≡ true
      → verify hmac (append hmac t es).1 ≡ true
  unfolding verify append verify_from
  verify-append t es ok =
      let e = added t es in
      let linked : Linked hmac (link_after [] es) e = (
        sym (link_after-last es),
        ap (λ p. chain_hash hmac p e.seq t) (sym (link_after-last es)),
      ) in
      let one : verify_from hmac (link_after [] es) (e ∷ []) ≡ true =
        cons-verify_from hmac (link_after [] es) e [] linked in
      verify_from-append hmac [] es (e ∷ []) ∙ rw (ok, one) refl

  append_all_lem :
      (ts : List Str) (es : List AuditEntry) (n : ℕ)
      → verify hmac es ≡ true
      → (next_link (last es)).0 ≡ n % 2 ^ 64
      → n + length ts ≤ 2 ^ 64
      → (verify hmac (append_all ts es) ≡ true)
        × (map text_of (append_all ts es) ≡ map text_of es ++ ts)
        × (map number_at (append_all ts es) ≡ map number_at es ++ numbers_from n ts)
  unfolding append_all append
  append_all_lem [] es n ok next room =
      (ok, sym (append-nil (map text_of es)), sym (append-nil (map number_at es)))
  append_all_lem (t ∷ ts) es n ok next room =
      let e = added t es in
      let small : (next_link (last es)).0 ≡ n = omega arith in
      let follows : (next_link (last (es ++ (e ∷ [])))).0 ≡ (n + 1) % 2 ^ 64 =
        ap (λ o. (next_link o).0) (last-append es e) ∙ ap (λ m. (m + 1) % 2 ^ 64) small in
      let (good, texts, numbers) =
        append_all_lem ts (es ++ (e ∷ [])) (n + 1) (verify-append t es ok) follows (omega arith) in
      (
        good,
        texts
            ∙ ap (λ xs. xs ++ ts) (map-append text_of es (e ∷ []))
            ∙ append_assoc (map text_of es) (t ∷ []) ts,
        numbers
            ∙ ap (λ xs. xs ++ numbers_from (n + 1) ts) (map-append number_at es (e ∷ []))
            ∙ append_assoc (map number_at es) _ (numbers_from (n + 1) ts)
            ∙ ap (λ m. map number_at es ++ (m ∷ numbers_from (n + 1) ts)) small,
      )

  -- A log that events were appended to, one after the other from the empty log on, passes `verify`,
  -- holds the events in their order, and numbers them from 0 on, if there are at most 2^64 of them.
  pub verify-append_all :
      (ts : List Str)
      → length ts ≤ 2 ^ 64
      → (verify hmac (append_all ts []) ≡ true)
        × (map (λ e. e.event) (append_all ts []) ≡ ts)
        × (map (λ e. e.seq) (append_all ts []) ≡ numbers_from 0 ts)
  unfolding verify verify_from
  verify-append_all ts room = append_all_lem ts [] 0 refl refl (omega arith)
